-- ===== src/Tests/Threads.antt =====
-- The queue, the logger and the logic thread.
use counter_drone_streaming.Base.{
  ℕ, inl, inr, true, false, List, [], ◌∷◌, length, ◌≡◌, ◌≤◌, ◌<◌, ◌↔◌, refl, some, none, arith,
}
use counter_drone_streaming.Message.{Message, number}
use counter_drone_streaming.Telemetry.{Telemetry}
use counter_drone_streaming.Table.{find?, id_key}
use counter_drone_streaming.Queue.{
  Queue, empty, push, pop, blocked, Op, pushing, popping, Trace, acts,
}
use counter_drone_streaming.Queue.Fifo.{IsFifo, acts-IsFifo, blocked_iff}
use counter_drone_streaming.Logger.{Logger, Round, run, primary, write_message}
use counter_drone_streaming.Logger.Lossless.{IsQuiet, run-lossless}
use counter_drone_streaming.Logic.{Timing, Logic, check_alerts, handle_packets, active_drone_count}
use counter_drone_streaming.Logic.Alerts.{alerts, check_alerts_lem}
use counter_drone_streaming.Logic.Tracking.{latest, find?-handle_packets}
use counter_drone_streaming.Logic.Count.{count_new, ids, active_drone_count_lem}

abbrev new_trace : Trace ℕ
new_trace = record { queue = empty 1; accepted = []; popped = [] }

new_trace-IsFifo : IsFifo 1 new_trace
new_trace-IsFifo = record { order = refl; same_bound = refl; within = λ b. omega arith }

-- The second push finds the queue full, and is tried again behind the pop.
abbrev threads : List (Op ℕ)
threads =
    pushing 5 false false
    ∷ pushing 6 false false
    ∷ popping false
    ∷ pushing 6 false false
    ∷ popping true
    ∷ popping true
    ∷ []

acts-IsFifo_example : IsFifo 1 (acts threads new_trace)
acts-IsFifo_example = acts-IsFifo 1 threads new_trace new_trace-IsFifo

threads-popped : (acts threads new_trace).popped ≡ 5 ∷ 6 ∷ []
unfolding acts counter_drone_streaming.Queue.act pop push
threads-popped = refl

abbrev no_items : List ℕ
no_items = []

blocked_iff_example :
    ((push {A = ℕ} 7 false false (empty 2) ≡ blocked)
      ↔ ((false ≡ false) × (0 < 2) × (2 ≤ length no_items)))
    × ((pop false (empty {A = ℕ} 2) ≡ blocked) ↔ ((false ≡ false) × (no_items ≡ [])))
blocked_iff_example = blocked_iff 7 false false (empty 2)

abbrev line : ℕ → Message
line n = number n ∷ []

abbrev new_logger : Logger
new_logger = record {
  queue = record { items = line 1 ∷ []; max_size = 0 };
  out = [];
  file = some [];
}

abbrev logger_rounds : List Round
logger_rounds =
    record { arrived = line 2 ∷ []; stop = false; stop' = false }
    ∷ record { arrived = line 3 ∷ []; stop = false; stop' = true }
    ∷ record { arrived = []; stop = true; stop' = true }
    ∷ []

logger_rounds-IsQuiet : IsQuiet logger_rounds
logger_rounds-IsQuiet = (
  (λ h. elim h [ inl e ↦ absurd (cc e) | inr e ↦ absurd (cc e) ]),
  ((λ h. refl), ((λ h. refl), tt)),
)

-- Without a stop the loop is still running behind the last round.
unstopped :
    run (record { arrived = line 2 ∷ []; stop = false; stop' = false } ∷ []) new_logger ≡ none
unfolding run primary pop write_message
unstopped = refl

run-lossless_example :
    run logger_rounds new_logger
    ≡ some (record {
      queue = empty 0;
      out = line 1 ∷ line 2 ∷ line 3 ∷ [];
      file = some (line 1 ∷ line 2 ∷ line 3 ∷ []);
    })
run-lossless_example =
    run-lossless logger_rounds new_logger (inr (inl (refl, refl))) logger_rounds-IsQuiet

-- A clock that stands still.
abbrev pub still_clock : Timing
still_clock = record { Time = ℕ; seconds = λ a b. 0; divide = λ n s. 0 }

abbrev pub new_logic : Logic still_clock
new_logic = record {
  drones = [];
  packets_processed = 0;
  start_time = 0;
  last_report_time = 0;
  packets_at_last_report = 0;
  logs = [];
}

abbrev high : Telemetry
high = record {
  drone_id = 65 ∷ [];
  latitude = 0;
  longitude = 0;
  altitude = 0x4060000000000000;
  speed = 0x7FF8000000000000;
  timestamp = 1;
}

abbrev low : Telemetry
low = record {
  drone_id = 66 ∷ [];
  latitude = 0;
  longitude = 0;
  altitude = 0xC060000000000000;
  speed = 0;
  timestamp = 2;
}

abbrev flight : List (Telemetry × ℕ)
flight = (high, 1) ∷ (low, 2) ∷ (high, 3) ∷ []

check_alerts_lem_example : check_alerts high new_logic ≡ record new_logic { logs = alerts high }
check_alerts_lem_example = check_alerts_lem still_clock high new_logic (omega arith) (omega arith)

find?-handle_packets_example :
    find? (66 ∷ []) (handle_packets flight new_logic).drones ≡ latest (66 ∷ []) flight none
unfolding find?
find?-handle_packets_example = find?-handle_packets (66 ∷ []) flight new_logic

active_drone_count_lem_example :
    active_drone_count (handle_packets flight new_logic) ≡ count_new (λ id. false) (ids flight)
active_drone_count_lem_example = active_drone_count_lem still_clock flight new_logic refl
