-- ===== src/System/Inv.antt =====
-- What holds in every reachable state of the threads and the queues between them.
use counter_drone_streaming.Base.{List, ◌∷◌, ◌++◌, Bool, true, false, [], refl, Extends-append}
use counter_drone_streaming.Bytes.{Endian}
use counter_drone_streaming.Queue.Fifo.{IsFifo}
use counter_drone_streaming.Parser.{Parser}
use counter_drone_streaming.Logic.{Timing, Logic}
use counter_drone_streaming.System.Worker.{Thread}
use counter_drone_streaming.System.Worker.Run.{IsRunning, items, Move-IsRunning}
use counter_drone_streaming.System.Worker.Effect.{Same, Does, Move-Does}
use counter_drone_streaming.System.Stages.{parser_worker, logic_worker}
use counter_drone_streaming.System.{System, Step}
use counter_drone_streaming.System.{
  Main, Shown, by_main, interrupted_line, goodbye, joining_listener, joining_parser, joining_logic,
  saying_goodbye, joining_logger, main_returned, Writing, popping_line, draining, finished_writing,
  unused, launch, interrupted, joins_listener, joins_parser, joins_logic, says_goodbye,
  joins_logger, listener_sends, listener_logs, listener_ends, parser_moves, parser_takes,
  parser_finds_none, parser_sends, parser_logs, logic_moves, logic_takes, logic_finds_none,
  logic_logs, logger_goes_on, logger_stops, logger_writes, logger_leaves, logger_drains,
  logger_ends, Reach, here, later,
}
use counter_drone_streaming.System.Stages.{IsInStep}
use counter_drone_streaming.System.Worker.Run.{before}
use counter_drone_streaming.System.Links.{
  none_yet, RawLink, ParsedLink, LogLink, raw_put, raw_took, parsed_put, parsed_took, listener_put,
  parser_put, logic_put, log_took,
}

unused-IsFifo : {A : Type 0} → IsFifo {A = A} 0 unused
unused-IsFifo = record { order = refl; same_bound = refl; within = λ b. absurd (cc b) }

module _ {e : Endian} {T : Timing} (p₀ : Parser) (l₀ : Logic T) where
  pub record Inv (s : System e T) : Type 0 where
    pub raw : RawLink s.raw (items s.parser.taken)
    pub parsed : ParsedLink s.parsed s.parser.sent (items s.logic.taken)
    pub log : LogLink s.log s.heard s.parser.logged s.logic.logged s.written
    pub parser_runs : IsRunning (parser_worker e) p₀ s.parser
    pub logic_runs : IsRunning (logic_worker T) l₀ s.logic

  -- A thread that moves on its own.
  parser-Same :
      (s : System e T) (t : Thread (parser_worker e))
      → Same (parser_worker e) s.parser t
      → IsRunning (parser_worker e) p₀ t
      → Inv s
      → Inv (record s { parser = t })
  parser-Same s t d runs i = record {
    raw = rw d.taken i.raw;
    parsed = rw d.sent i.parsed;
    log = rw d.logged i.log;
    parser_runs = runs;
    logic_runs = i.logic_runs;
  }

  logic-Same :
      (s : System e T) (t : Thread (logic_worker T))
      → Same (logic_worker T) s.logic t
      → IsRunning (logic_worker T) l₀ t
      → Inv s
      → Inv (record s { logic = t })
  logic-Same s t d runs i = record {
    raw = i.raw;
    parsed = rw d.taken i.parsed;
    log = rw d.logged i.log;
    parser_runs = i.parser_runs;
    logic_runs = runs;
  }

  -- A step of `main`, the end of the listener, or a step of the logger that writes nothing.
  control :
      (s : System e T) (m : Main) (b : Bool) (w : Writing) (c : List Shown)
      → Inv s
      → Inv (record s { main = m; listening = b; writing = w; console = c })
  control s m b w c i = record {
    raw = i.raw;
    parsed = i.parsed;
    log = i.log;
    parser_runs = i.parser_runs;
    logic_runs = i.logic_runs;
  }

  pub Step-Inv : {s s' : System e T} → Step s s' → Inv s → Inv s'
  unfolding Does
  Step-Inv {s} (interrupted p) i =
      control s joining_listener s.listening s.writing
        (s.console ++ (by_main interrupted_line ∷ [])) i
  Step-Inv {s} (joins_listener p q) i = control s joining_parser s.listening s.writing s.console i
  Step-Inv {s} (joins_parser p q) i = control s joining_logic s.listening s.writing s.console i
  Step-Inv {s} (joins_logic p q) i = control s saying_goodbye s.listening s.writing s.console i
  Step-Inv {s} (says_goodbye p) i =
      control s joining_logger s.listening s.writing (s.console ++ (by_main goodbye ∷ [])) i
  Step-Inv {s} (joins_logger p q) i = control s main_returned s.listening s.writing s.console i
  Step-Inv {s} (listener_sends chunk p k) i = record {
    raw = raw_put s.raw _ chunk k i.raw;
    parsed = i.parsed;
    log = i.log;
    parser_runs = i.parser_runs;
    logic_runs = i.logic_runs;
  }
  Step-Inv {s} (listener_logs m p) i = record {
    raw = i.raw;
    parsed = i.parsed;
    log = listener_put s.log _ _ _ _ m i.log;
    parser_runs = i.parser_runs;
    logic_runs = i.logic_runs;
  }
  Step-Inv {s} (listener_ends p) i = control s s.main false s.writing s.console i
  Step-Inv {s} (parser_moves {t} mv) i =
      parser-Same s t (Move-Does (parser_worker e) mv)
        (Move-IsRunning (parser_worker e) mv tt i.parser_runs) i
  Step-Inv {s} (parser_takes {t} chunk q mv h) i =
      let (sent, logged, taken) = Move-Does (parser_worker e) mv in
      let (raw, k) = raw_took s.raw _ _ chunk q h i.raw in
      record {
        raw = rw taken raw;
        parsed = rw sent i.parsed;
        log = rw logged i.log;
        parser_runs = Move-IsRunning (parser_worker e) mv k i.parser_runs;
        logic_runs = i.logic_runs;
      }
  Step-Inv {s} (parser_finds_none {t} q mv h) i =
      parser-Same s t (Move-Does (parser_worker e) mv)
        (Move-IsRunning (parser_worker e) mv tt i.parser_runs) i
  Step-Inv {s} (parser_sends {t} x mv) i =
      let (sent, logged, taken) = Move-Does (parser_worker e) mv in
      record {
        raw = rw taken i.raw;
        parsed = rw sent (parsed_put s.parsed _ _ x i.parsed);
        log = rw logged i.log;
        parser_runs = Move-IsRunning (parser_worker e) mv tt i.parser_runs;
        logic_runs = i.logic_runs;
      }
  Step-Inv {s} (parser_logs {t} m mv) i =
      let (sent, logged, taken) = Move-Does (parser_worker e) mv in
      record {
        raw = rw taken i.raw;
        parsed = rw sent i.parsed;
        log = rw logged (parser_put s.log _ _ _ _ m i.log);
        parser_runs = Move-IsRunning (parser_worker e) mv tt i.parser_runs;
        logic_runs = i.logic_runs;
      }
  Step-Inv {s} (logic_moves {t} mv) i =
      logic-Same s t (Move-Does (logic_worker T) mv)
        (Move-IsRunning (logic_worker T) mv tt i.logic_runs) i
  Step-Inv {s} (logic_takes {t} x q mv h) i =
      let (sent, logged, taken) = Move-Does (logic_worker T) mv in
      record {
        raw = i.raw;
        parsed = rw taken (parsed_took s.parsed _ _ _ x q h i.parsed);
        log = rw logged i.log;
        parser_runs = i.parser_runs;
        logic_runs = Move-IsRunning (logic_worker T) mv tt i.logic_runs;
      }
  Step-Inv {s} (logic_finds_none {t} q mv h) i =
      logic-Same s t (Move-Does (logic_worker T) mv)
        (Move-IsRunning (logic_worker T) mv tt i.logic_runs) i
  Step-Inv {s} (logic_logs {t} m mv) i =
      let (sent, logged, taken) = Move-Does (logic_worker T) mv in
      record {
        raw = i.raw;
        parsed = rw taken i.parsed;
        log = rw logged (logic_put s.log _ _ _ _ m i.log);
        parser_runs = i.parser_runs;
        logic_runs = Move-IsRunning (logic_worker T) mv tt i.logic_runs;
      }
  Step-Inv {s} (logger_goes_on p q) i = control s s.main s.listening popping_line s.console i
  Step-Inv {s} (logger_stops p q) i = control s s.main s.listening draining s.console i
  Step-Inv {s} (logger_writes m q p h) i = record {
    raw = i.raw;
    parsed = i.parsed;
    log = log_took s.log _ _ _ _ m i.log _ q h;
    parser_runs = i.parser_runs;
    logic_runs = i.logic_runs;
  }
  Step-Inv {s} (logger_leaves q p h) i = control s s.main s.listening draining s.console i
  Step-Inv {s} (logger_drains m q p h) i = record {
    raw = i.raw;
    parsed = i.parsed;
    log = log_took s.log _ _ _ _ m i.log true q h;
    parser_runs = i.parser_runs;
    logic_runs = i.logic_runs;
  }
  Step-Inv {s} (logger_ends q p h) i = control s s.main s.listening finished_writing s.console i

  pub Reach-Inv : {s s' : System e T} → Inv s → Reach s s' → Inv s'
  Reach-Inv i here = i
  Reach-Inv i (later r st) = Step-Inv st (Reach-Inv i r)

  -- The threads have just been started.
  pub launch-Inv : IsInStep p₀ → Inv (launch e T p₀ l₀)
  launch-Inv g = record {
    raw = record { fifo = unused-IsFifo; chunks = tt; gave = tt; took = refl };
    parsed = record { fifo = unused-IsFifo; put = refl; took = refl };
    log = record { fifo = unused-IsFifo; put = none_yet; wrote = refl };
    parser_runs = record {
      ran = before refl refl refl;
      good = λ _. g;
      unsent = Extends-append [] _;
      unlogged = Extends-append [] _;
      published = λ q. absurd (cc q);
    };
    logic_runs = record {
      ran = before refl refl refl;
      good = λ _. tt;
      unsent = Extends-append [] _;
      unlogged = Extends-append [] _;
      published = λ q. absurd (cc q);
    };
  }
