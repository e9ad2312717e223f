-- ===== src/System.antt =====
-- src/main.cpp from the start of its threads to their end: the listener, the parser, the logic and
-- the logger as threads over three queues, and `main`, which stops and joins them one by one.
pub mod State
pub use State.*
pub mod Worker
pub mod Stages
pub mod Links
pub mod Inv
pub mod Order
pub mod Shutdown
pub mod Delivery
pub mod Progress
pub mod Measure
pub mod Work
pub mod Ends
pub mod Console
pub mod Goodbye
pub mod Fleet
pub mod Feed
use counter_drone_streaming.Base.{
  ℕ, Bool, true, false, ltb, List, [], ◌∷◌, ◌++◌, Option, some, none, ◌≡◌,
}
use counter_drone_streaming.Message.{Message, text}
use counter_drone_streaming.Telemetry.{Telemetry, DataChunk}
use counter_drone_streaming.Bytes.{Endian}
use counter_drone_streaming.Queue.{Queue, empty, returned, pop, pushing, popping, Trace, act}
use counter_drone_streaming.Parser.{Parser}
use counter_drone_streaming.Parser.Ready.{IsChunk}
use counter_drone_streaming.Logic.{Timing, Logic}
use counter_drone_streaming.System.Worker.{
  Thread, Move, starting, ended, silent, takes, finds_none, sends, logs_line,
}
use counter_drone_streaming.System.Stages.{parser_worker, logic_worker, Nothing}

module _ {e : Endian} {T : Timing} where
  pub data Step (s : System e T) : System e T → Type 0 where
    interrupted :
        s.main ≡ polling
        → Step s (record s {
          main = joining_listener;
          console = s.console ++ (by_main interrupted_line ∷ []);
        })
    joins_listener :
        s.main ≡ joining_listener
        → s.listening ≡ false
        → Step s (record s { main = joining_parser })
    joins_parser :
        s.main ≡ joining_parser
        → s.parser.phase ≡ ended
        → Step s (record s { main = joining_logic })
    joins_logic :
        s.main ≡ joining_logic → s.logic.phase ≡ ended → Step s (record s { main = saying_goodbye })
    says_goodbye :
        s.main ≡ saying_goodbye
        → Step s (record s { main = joining_logger; console = s.console ++ (by_main goodbye ∷ []) })
    joins_logger :
        s.main ≡ joining_logger
        → s.writing ≡ finished_writing
        → Step s (record s { main = main_returned })
    -- The listener pushes a chunk, logs a line, or ends.
    listener_sends :
        (chunk : DataChunk)
        → s.listening ≡ true
        → IsChunk chunk
        → Step s (record s { raw = put_in chunk s.raw })
    listener_logs :
        (m : Message)
        → s.listening ≡ true
        → Step s (record s { log = put_in m s.log; heard = s.heard ++ (m ∷ []) })
    listener_ends : s.listening ≡ true → Step s (record s { listening = false })
    parser_moves :
        {t : Thread (parser_worker e)}
        → Move (parser_worker e) (parser_stop s.main) s.parser silent t
        → Step s (record s { parser = t })
    parser_takes :
        {t : Thread (parser_worker e)} (chunk : DataChunk) (q : Queue DataChunk)
        → Move (parser_worker e) (parser_stop s.main) s.parser (takes chunk) t
        → pop (parser_stop s.main) s.raw.queue ≡ returned (some chunk, q)
        → Step s (record s { parser = t; raw = act (popping (parser_stop s.main)) s.raw })
    parser_finds_none :
        {t : Thread (parser_worker e)} (q : Queue DataChunk)
        → Move (parser_worker e) (parser_stop s.main) s.parser finds_none t
        → pop (parser_stop s.main) s.raw.queue ≡ returned (none, q)
        → Step s (record s { parser = t })
    parser_sends :
        {t : Thread (parser_worker e)} (x : Telemetry)
        → Move (parser_worker e) (parser_stop s.main) s.parser (sends x) t
        → Step s (record s { parser = t; parsed = put_in x s.parsed })
    parser_logs :
        {t : Thread (parser_worker e)} (m : Message)
        → Move (parser_worker e) (parser_stop s.main) s.parser (logs_line m) t
        → Step s (record s { parser = t; log = put_in m s.log })
    logic_moves :
        {t : Thread (logic_worker T)}
        → Move (logic_worker T) (logic_stop s.main) s.logic silent t
        → Step s (record s { logic = t })
    logic_takes :
        {t : Thread (logic_worker T)} (x : Telemetry) (q : Queue Telemetry)
        → Move (logic_worker T) (logic_stop s.main) s.logic (takes x) t
        → pop (logic_stop s.main) s.parsed.queue ≡ returned (some x, q)
        → Step s (record s { logic = t; parsed = act (popping (logic_stop s.main)) s.parsed })
    logic_finds_none :
        {t : Thread (logic_worker T)} (q : Queue Telemetry)
        → Move (logic_worker T) (logic_stop s.main) s.logic finds_none t
        → pop (logic_stop s.main) s.parsed.queue ≡ returned (none, q)
        → Step s (record s { logic = t })
    logic_logs :
        {t : Thread (logic_worker T)} (m : Message)
        → Move (logic_worker T) (logic_stop s.main) s.logic (logs_line m) t
        → Step s (record s { logic = t; log = put_in m s.log })
    logger_goes_on :
        s.writing ≡ testing_stop
        → logger_stop s.main ≡ false
        → Step s (record s { writing = popping_line })
    logger_stops :
        s.writing ≡ testing_stop
        → logger_stop s.main ≡ true
        → Step s (record s { writing = draining })
    logger_writes :
        (m : Message) (q : Queue Message)
        → s.writing ≡ popping_line
        → pop (logger_stop s.main) s.log.queue ≡ returned (some m, q)
        → Step s (record s {
          writing = testing_stop;
          written = s.written ++ (m ∷ []);
          console = s.console ++ (by_logger m ∷ []);
          log = act (popping (logger_stop s.main)) s.log;
        })
    logger_leaves :
        (q : Queue Message)
        → s.writing ≡ popping_line
        → pop (logger_stop s.main) s.log.queue ≡ returned (none, q)
        → Step s (record s { writing = draining })
    logger_drains :
        (m : Message) (q : Queue Message)
        → s.writing ≡ draining
        → pop true s.log.queue ≡ returned (some m, q)
        → Step s (record s {
          written = s.written ++ (m ∷ []);
          console = s.console ++ (by_logger m ∷ []);
          log = act (popping true) s.log;
        })
    logger_ends :
        (q : Queue Message)
        → s.writing ≡ draining
        → pop true s.log.queue ≡ returned (none, q)
        → Step s (record s { writing = finished_writing })

  pub data Reach (s : System e T) : System e T → Type 0 where
    here : Reach s s
    later : {t u : System e T} → Reach s t → Step t u → Reach s u
