-- ===== src/System/Console.antt =====
-- The standard output of src/main.cpp, which `main` and the logger write.
use counter_drone_streaming.Base.{true, List, [], ◌∷◌, ◌++◌, ◌≡◌, refl, ◌∙◌, ap, arith, append-nil}
use counter_drone_streaming.Message.{Message}
use counter_drone_streaming.Queue.{popping, act, Trace}
use counter_drone_streaming.Bytes.{Endian}
use counter_drone_streaming.Parser.{Parser}
use counter_drone_streaming.Logic.{Timing, Logic}
use counter_drone_streaming.System.Links.{Merged}
use counter_drone_streaming.System.Stages.{IsInStep}
use counter_drone_streaming.System.Shutdown.{shutdown_writes_all_lines}
use counter_drone_streaming.System.{
  Main, polling, joining_listener, joining_parser, joining_logic, saying_goodbye, joining_logger,
  main_returned, Shown, by_main, by_logger, interrupted_line, goodbye, System, Step, Reach, here,
  later, launch, interrupted, joins_listener, joins_parser, joins_logic, says_goodbye, joins_logger,
  listener_sends, listener_logs, listener_ends, parser_moves, parser_takes, parser_finds_none,
  parser_sends, parser_logs, logic_moves, logic_takes, logic_finds_none, logic_logs, logger_goes_on,
  logger_stop, Writing, testing_stop, logger_stops, logger_writes, logger_leaves, logger_drains,
  logger_ends,
}

abbrev pub lines_of_main : List Shown → List Message
lines_of_main [] = []
lines_of_main (by_main m ∷ shown) = m ∷ lines_of_main shown
lines_of_main (by_logger m ∷ shown) = lines_of_main shown

abbrev pub lines_of_logger : List Shown → List Message
lines_of_logger [] = []
lines_of_logger (by_main m ∷ shown) = lines_of_logger shown
lines_of_logger (by_logger m ∷ shown) = m ∷ lines_of_logger shown

lines_of_main-append :
    (xs ys : List Shown) → lines_of_main (xs ++ ys) ≡ lines_of_main xs ++ lines_of_main ys
lines_of_main-append [] ys = refl
lines_of_main-append (by_main m ∷ xs) ys = ap (λ ms. m ∷ ms) (lines_of_main-append xs ys)
lines_of_main-append (by_logger m ∷ xs) ys = lines_of_main-append xs ys

lines_of_logger-append :
    (xs ys : List Shown) → lines_of_logger (xs ++ ys) ≡ lines_of_logger xs ++ lines_of_logger ys
lines_of_logger-append [] ys = refl
lines_of_logger-append (by_main m ∷ xs) ys = lines_of_logger-append xs ys
lines_of_logger-append (by_logger m ∷ xs) ys = ap (λ ms. m ∷ ms) (lines_of_logger-append xs ys)

-- What `main` has said, by where it stands.
abbrev said : Main → List Message
said polling = []
said joining_listener = interrupted_line ∷ []
said joining_parser = interrupted_line ∷ []
said joining_logic = interrupted_line ∷ []
said saying_goodbye = interrupted_line ∷ []
said joining_logger = interrupted_line ∷ goodbye ∷ []
said main_returned = interrupted_line ∷ goodbye ∷ []

module _ {e : Endian} {T : Timing} where
  record IsShown (s : System e T) : Type 0 where
    mains : lines_of_main s.console ≡ said s.main
    loggers : lines_of_logger s.console ≡ s.written

  -- A step in which `main` goes on and says nothing.
  moves :
      (s : System e T) (m : Main)
      → said s.main ≡ said m
      → IsShown s
      → IsShown (record s { main = m })
  moves s m k i = record { mains = i.mains ∙ k; loggers = i.loggers }

  says :
      (s : System e T) (m : Main) (line : Message)
      → said s.main ++ (line ∷ []) ≡ said m
      → IsShown s
      → IsShown (record s { main = m; console = s.console ++ (by_main line ∷ []) })
  says s m line k i = record {
    mains =
        lines_of_main-append s.console (by_main line ∷ [])
        ∙ ap (λ ms. ms ++ (line ∷ [])) i.mains
        ∙ k;
    loggers =
        lines_of_logger-append s.console (by_main line ∷ [])
        ∙ append-nil (lines_of_logger s.console)
        ∙ i.loggers;
  }

  writes :
      (s : System e T) (w : Writing) (log : Trace Message) (m : Message)
      → IsShown s
      → IsShown (record s {
        writing = w;
        written = s.written ++ (m ∷ []);
        console = s.console ++ (by_logger m ∷ []);
        log = log;
      })
  writes s w log m i = record {
    mains =
        lines_of_main-append s.console (by_logger m ∷ [])
        ∙ append-nil (lines_of_main s.console)
        ∙ i.mains;
    loggers =
        lines_of_logger-append s.console (by_logger m ∷ []) ∙ ap (λ ms. ms ++ (m ∷ [])) i.loggers;
  }

  Step-IsShown : {s s' : System e T} → Step s s' → IsShown s → IsShown s'
  Step-IsShown {s} (interrupted p) i = says s joining_listener interrupted_line (rw p refl) i
  Step-IsShown {s} (joins_listener p q) i = moves s joining_parser (rw p refl) i
  Step-IsShown {s} (joins_parser p q) i = moves s joining_logic (rw p refl) i
  Step-IsShown {s} (joins_logic p q) i = moves s saying_goodbye (rw p refl) i
  Step-IsShown {s} (says_goodbye p) i = says s joining_logger goodbye (rw p refl) i
  Step-IsShown {s} (joins_logger p q) i = moves s main_returned (rw p refl) i
  Step-IsShown (listener_sends chunk p k) i = ground arith
  Step-IsShown (listener_logs m p) i = ground arith
  Step-IsShown (listener_ends p) i = ground arith
  Step-IsShown (parser_moves mv) i = ground arith
  Step-IsShown (parser_takes chunk q mv h) i = ground arith
  Step-IsShown (parser_finds_none q mv h) i = ground arith
  Step-IsShown (parser_sends x mv) i = ground arith
  Step-IsShown (parser_logs m mv) i = ground arith
  Step-IsShown (logic_moves mv) i = ground arith
  Step-IsShown (logic_takes x q mv h) i = ground arith
  Step-IsShown (logic_finds_none q mv h) i = ground arith
  Step-IsShown (logic_logs m mv) i = ground arith
  Step-IsShown (logger_goes_on p q) i = ground arith
  Step-IsShown (logger_stops p q) i = ground arith
  Step-IsShown {s} (logger_writes m q p h) i =
      writes s testing_stop (act (popping (logger_stop s.main)) s.log) m i
  Step-IsShown (logger_leaves q p h) i = ground arith
  Step-IsShown {s} (logger_drains m q p h) i = writes s s.writing (act (popping true) s.log) m i
  Step-IsShown (logger_ends q p h) i = ground arith

  Reach-IsShown : {s s' : System e T} → IsShown s → Reach s s' → IsShown s'
  Reach-IsShown i here = i
  Reach-IsShown i (later r st) = Step-IsShown st (Reach-IsShown i r)

  -- Once main has returned, it has printed its two lines, and the logger has printed the lines of the
  -- three threads, each thread's in their order.
  pub console_at_end :
      (p₀ : Parser) (l₀ : Logic T) {s : System e T}
      → IsInStep p₀
      → Reach (launch e T p₀ l₀) s
      → s.main ≡ main_returned
      → (lines_of_main s.console ≡ interrupted_line ∷ goodbye ∷ [])
        × Merged (lines_of_logger s.console) s.heard s.parser.state.outputs.logs s.logic.state.logs
  console_at_end p₀ l₀ g r done =
      let shown = Reach-IsShown (record { mains = refl; loggers = refl }) r in
      let (_, merged) = shutdown_writes_all_lines p₀ l₀ g r done in
      (shown.mains ∙ ap said done, rw shown.loggers merged)
