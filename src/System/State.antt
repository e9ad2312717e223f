-- ===== src/System/State.antt =====
-- The state that the threads of src/main.cpp share, and where each of them stands.
use counter_drone_streaming.Base.{ℕ, Bool, true, false, ltb, List, [], ◌∷◌}
use counter_drone_streaming.Message.{Message, text}
use counter_drone_streaming.Telemetry.{Telemetry, DataChunk}
use counter_drone_streaming.Bytes.{Endian}
use counter_drone_streaming.Queue.{empty, pushing, Trace, act}
use counter_drone_streaming.Parser.{Parser}
use counter_drone_streaming.Logic.{Timing, Logic}
use counter_drone_streaming.System.Worker.{Thread, starting}
use counter_drone_streaming.System.Stages.{parser_worker, logic_worker}

-- Where `main` stands: it waits for the signal, then stops each thread and joins it. The logger is
-- stopped, and joined only once `main` has said goodbye.
pub data Main : Type 0 where
  polling joining_listener joining_parser joining_logic saying_goodbye joining_logger : Main
  main_returned : Main

abbrev pub rank : Main → ℕ
rank polling = 0
rank joining_listener = 1
rank joining_parser = 2
rank joining_logic = 3
rank saying_goodbye = 4
rank joining_logger = 5
rank main_returned = 6

-- The threads' stop tokens. The listener's event loop reads its token too, but may end without it.
abbrev pub parser_stop : Main → Bool
parser_stop m = ltb 1 (rank m)

abbrev pub logic_stop : Main → Bool
logic_stop m = ltb 2 (rank m)

abbrev pub logger_stop : Main → Bool
logger_stop m = ltb 3 (rank m)

-- Where `AsyncLogger::run` stands: at its first loop's test, in `pop`, in its second loop, returned.
pub data Writing : Type 0 where
  testing_stop popping_line draining finished_writing : Writing

-- A line on the standard output, which `main` and the logger write.
pub data Shown : Type 0 where
  by_main : Message → Shown
  by_logger : Message → Shown

abbrev pub interrupted_line : Message
interrupted_line = text "\n[Main] SIGINT received — initiating graceful shutdown...\n" ∷ []

abbrev pub goodbye : Message
goodbye = text "[Main] All threads joined. Goodbye.\n" ∷ []

-- `listening` is whether the listener's thread is still running; `heard` is what it has logged. The
-- trace of each queue has what was pushed and what was popped so far; `written` is what the logger
-- has written, `console` the standard output since the threads were started.
pub record System (e : Endian) (T : Timing) : Type 0 where
  pub main : Main
  pub raw : Trace DataChunk
  pub parsed : Trace Telemetry
  pub log : Trace Message
  pub listening : Bool
  pub heard : List Message
  pub parser : Thread (parser_worker e)
  pub logic : Thread (logic_worker T)
  pub writing : Writing
  pub written : List Message
  pub console : List Shown

abbrev pub unused {ℓ} : {A : Type ℓ} → Trace A
unused = record { queue = empty 0; accepted = []; popped = [] }

-- The threads have just been started, over unbounded queues.
abbrev pub launch : (e : Endian) (T : Timing) → Parser → Logic T → System e T
launch e T p l = record {
  main = polling;
  raw = unused;
  parsed = unused;
  log = unused;
  listening = true;
  heard = [];
  parser = record { phase = starting; state = p; sent = []; logged = []; taken = [] };
  logic = record { phase = starting; state = l; sent = []; logged = []; taken = [] };
  writing = testing_stop;
  written = [];
  console = [];
}

-- `push(item)` with the token that is never stopped.
abbrev pub put_in {ℓ} : {A : Type ℓ} → A → Trace A → Trace A
put_in x t = act (pushing x false false) t
