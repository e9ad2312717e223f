-- ===== src/System/Ends.antt =====
-- The end of the shutdown of src/main.cpp, over all that the threads can do.
use mathlib.Core.WellFounded.{Acc}
use counter_drone_streaming.Base.{false, subst, ◌≡◌, ◌≢◌, refl}
use counter_drone_streaming.Bytes.{Endian}
use counter_drone_streaming.Parser.{Parser}
use counter_drone_streaming.Logic.{Timing, Logic}
use counter_drone_streaming.System.Stages.{IsInStep}
use counter_drone_streaming.System.{
  Main, main_returned, polling, System, Step, Reach, launch, later, interrupted, joins_listener,
  joins_parser, joins_logic, says_goodbye, joins_logger, listener_sends, listener_logs,
  listener_ends, parser_moves, parser_takes, parser_finds_none, parser_sends, parser_logs,
  logic_moves, logic_takes, logic_finds_none, logic_logs, logger_goes_on, logger_stops,
  logger_writes, logger_leaves, logger_drains, logger_ends,
}
use counter_drone_streaming.System.Measure.{Measure, Below, Below-Acc}
use counter_drone_streaming.System.Progress.{Goes, shutdown-Goes}
use counter_drone_streaming.System.Work.{work, Step-Below}

Main-Discrete : Discrete Main
Main-Discrete = hlevel

module _ {e : Endian} {T : Timing} where
  -- Every run from here ends, and `main` has returned then.
  pub data Ends : System e T → Type 0 where
    has_returned : {s : System e T} → s.main ≡ main_returned → Ends s
    moves_on : {s : System e T} → Goes s → ((s' : System e T) → Step s s' → Ends s') → Ends s

  -- What a step keeps: the listener has ended, and `main` is past its wait.
  Step-stopped :
      {s s' : System e T}
      → Step s s'
      → s.listening ≡ false
      → s.main ≢ polling
      → (s'.listening ≡ false) × (s'.main ≢ polling)
  Step-stopped (interrupted p) l n = absurd (n p)
  Step-stopped (joins_listener p q) l n = (l, λ k. cc k)
  Step-stopped (joins_parser p q) l n = (l, λ k. cc k)
  Step-stopped (joins_logic p q) l n = (l, λ k. cc k)
  Step-stopped (says_goodbye p) l n = (l, λ k. cc k)
  Step-stopped (joins_logger p q) l n = (l, λ k. cc k)
  Step-stopped (listener_ends p) l n = (refl, n)
  Step-stopped (listener_sends chunk p k) l n = (l, n)
  Step-stopped (listener_logs m p) l n = (l, n)
  Step-stopped (parser_moves mv) l n = (l, n)
  Step-stopped (parser_takes c q mv h) l n = (l, n)
  Step-stopped (parser_finds_none q mv h) l n = (l, n)
  Step-stopped (parser_sends x mv) l n = (l, n)
  Step-stopped (parser_logs m mv) l n = (l, n)
  Step-stopped (logic_moves mv) l n = (l, n)
  Step-stopped (logic_takes x q mv h) l n = (l, n)
  Step-stopped (logic_finds_none q mv h) l n = (l, n)
  Step-stopped (logic_logs m mv) l n = (l, n)
  Step-stopped (logger_goes_on p q) l n = (l, n)
  Step-stopped (logger_stops p q) l n = (l, n)
  Step-stopped (logger_writes m q p h) l n = (l, n)
  Step-stopped (logger_leaves q p h) l n = (l, n)
  Step-stopped (logger_drains m q p h) l n = (l, n)
  Step-stopped (logger_ends q p h) l n = (l, n)

  module _ {p₀ : Parser} {l₀ : Logic T} (g : IsInStep p₀) (now : T.Time) where
    work-Ends :
        (w : Measure 9)
        → Acc (Below 9) w
        → (s : System e T) → work s ≡ w
        → Reach (launch e T p₀ l₀) s
        → s.listening ≡ false
        → s.main ≢ polling
        → Ends s
    work-Ends w (Acc.intro _ below) s same_work r l n = elim (Main-Discrete s.main main_returned) [
      | yes gone ↦ has_returned gone
      | no waits ↦ moves_on (shutdown-Goes g now r n waits) λ s' st.
          let (l', n') = Step-stopped st l n in
          let less = subst (Below 9 (work s')) same_work (Step-Below st l) in
          work-Ends (work s') (below (work s') less) s' refl (later r st) l' n'
    ]

    -- From every state reached from a table in step with its clients' streams in which the
    -- listener has ended and main has been interrupted, if the clock can be read, every run of the
    -- threads is finite and ends with main's return, whatever the threads do and in whatever
    -- order; none is stuck before.
    pub shutdown-Ends :
        {s : System e T}
        → Reach (launch e T p₀ l₀) s
        → s.listening ≡ false
        → s.main ≢ polling
        → Ends s
    shutdown-Ends {s} r l n = work-Ends (work s) (Below-Acc 9 (work s)) s refl r l n
