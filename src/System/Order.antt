-- ===== src/System/Order.antt =====
-- The order of the shutdown: what has ended when `main` has joined a thread.
use counter_drone_streaming.Base.{◌≤◌, Bool, true, false, [], ◌≡◌, sym, ◌∙◌, arith}
use counter_drone_streaming.Bytes.{Endian}
use counter_drone_streaming.Queue.Fifo.{pop-none}
use counter_drone_streaming.Logic.{Timing, Logic}
use counter_drone_streaming.Parser.{Parser}
use counter_drone_streaming.System.Worker.{
  Move, ended, starts, sends_out, logs_out, loops, goes_on, is_stopped, takes_item, leaves, ends,
  Worker, Thread, Act,
}
use counter_drone_streaming.System.{
  interrupted, joins_listener, joins_parser, joins_logic, says_goodbye, joins_logger,
  listener_sends, listener_logs, listener_ends, parser_moves, parser_takes, parser_finds_none,
  parser_sends, parser_logs, logic_moves, logic_takes, logic_finds_none, logic_logs, logger_goes_on,
  logger_stops, logger_writes, logger_leaves, logger_drains, logger_ends, draining,
  finished_writing, rank, System, Step, Reach, here, later, launch,
}

-- A thread that has ended moves no more.
ended_moves_no_more :
    {In Out : Type 0} {W : Worker In Out} {stop : Bool} {a : Act In Out} {t t' : Thread W}
    → Move W stop t a t'
    → t.phase ≡ ended
    → ⊥
ended_moves_no_more (starts r p) q = cc (sym p ∙ q)
ended_moves_no_more (sends_out o os b e) q = cc (rw q at b)
ended_moves_no_more (logs_out m ms b e) q = cc (rw q at b)
ended_moves_no_more (loops p d) q = cc (sym p ∙ q)
ended_moves_no_more (goes_on p h) q = cc (sym p ∙ q)
ended_moves_no_more (is_stopped r p h) q = cc (sym p ∙ q)
ended_moves_no_more (takes_item r x s p e) q = cc (sym p ∙ q)
ended_moves_no_more (leaves r p) q = cc (sym p ∙ q)
ended_moves_no_more (ends p d) q = cc (sym p ∙ q)

module _ {e : Endian} {T : Timing} where
  pub record IsOrdered (s : System e T) : Type 0 where
    pub listener_done : 2 ≤ rank s.main → s.listening ≡ false
    pub parser_done : 3 ≤ rank s.main → s.parser.phase ≡ ended
    pub logic_done : 4 ≤ rank s.main → s.logic.phase ≡ ended
    pub logger_done : 6 ≤ rank s.main → s.writing ≡ finished_writing
    pub drains_late : s.writing ≡ draining → 4 ≤ rank s.main
    pub ends_late : s.writing ≡ finished_writing → 4 ≤ rank s.main
    pub drained : s.writing ≡ finished_writing → s.log.queue.items ≡ []

  pub Step-IsOrdered : {s s' : System e T} → Step s s' → IsOrdered s → IsOrdered s'
  Step-IsOrdered (interrupted p) o = ground arith
  Step-IsOrdered (joins_listener p q) o = ground arith
  Step-IsOrdered (joins_parser p q) o = ground arith
  Step-IsOrdered (joins_logic p q) o = ground arith
  Step-IsOrdered (says_goodbye p) o = ground arith
  Step-IsOrdered (joins_logger p q) o = ground arith
  Step-IsOrdered (listener_sends chunk p k) o = ground arith
  Step-IsOrdered (listener_logs m p) o = ground arith
  Step-IsOrdered (listener_ends p) o = ground arith
  Step-IsOrdered (parser_moves mv) o = ground (arith, ended_moves_no_more mv)
  Step-IsOrdered (parser_takes chunk q mv h) o = ground (arith, ended_moves_no_more mv)
  Step-IsOrdered (parser_finds_none q mv h) o = ground (arith, ended_moves_no_more mv)
  Step-IsOrdered (parser_sends x mv) o = ground (arith, ended_moves_no_more mv)
  Step-IsOrdered (parser_logs m mv) o = ground (arith, ended_moves_no_more mv)
  Step-IsOrdered (logic_moves mv) o = ground (arith, ended_moves_no_more mv)
  Step-IsOrdered (logic_takes x q mv h) o = ground (arith, ended_moves_no_more mv)
  Step-IsOrdered (logic_finds_none q mv h) o = ground (arith, ended_moves_no_more mv)
  Step-IsOrdered (logic_logs m mv) o = ground (arith, ended_moves_no_more mv)
  Step-IsOrdered (logger_goes_on p q) o = ground arith
  Step-IsOrdered (logger_stops p q) o = ground arith
  Step-IsOrdered (logger_writes m q p h) o = ground arith
  Step-IsOrdered (logger_leaves q p h) o = ground (arith, pop-none _ _ q h)
  Step-IsOrdered (logger_drains m q p h) o = ground arith
  Step-IsOrdered (logger_ends q p h) o = ground (arith, pop-none true _ q h)

  pub launch-IsOrdered : (p : Parser) (l : Logic T) → IsOrdered (launch e T p l)
  launch-IsOrdered p l = ground arith

  pub Reach-IsOrdered : {s s' : System e T} → IsOrdered s → Reach s s' → IsOrdered s'
  Reach-IsOrdered o here = o
  Reach-IsOrdered o (later r st) = Step-IsOrdered st (Reach-IsOrdered o r)
