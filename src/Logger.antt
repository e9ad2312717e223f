-- ===== src/Logger.antt =====
-- src/asyncLogger.cpp: the thread that writes the log queue out. Its main loop is followed over
-- rounds, in which other threads push and the stop token may change.
pub mod Lossless
pub mod Open
use counter_drone_streaming.Base.{
  ℕ, zero, suc, Bool, true, false, ◌||◌, List, [], ◌∷◌, ◌++◌, length, if◌then◌else◌, Option, some,
  none, ◌+◌,
}
use counter_drone_streaming.Message.{Message}
use counter_drone_streaming.Queue.{Queue, Call, returned, blocked, pop}

-- `file` is what has been written to the log file, where one is open.
pub record Logger : Type 0 where
  pub queue : Queue Message
  pub out : List Message
  pub file : Option (List Message)

abbrev pub mirror : Message → Option (List Message) → Option (List Message)
mirror m none = none
mirror m (some ms) = some (ms ++ (m ∷ []))

unfoldable pub write_message : Message → Logger → Logger
write_message m l = record l { out = l.out ++ (m ∷ []); file = mirror m l.file }

-- What other threads push before the round, and the stop token at the loop's test and in `pop`.
pub record Round : Type 0 where
  pub arrived : List Message
  pub stop : Bool
  pub stop' : Bool

abbrev pub arrive : List Message → Logger → Logger
arrive ms l = record l { queue = record l.queue { items = l.queue.items ++ ms } }

-- What follows `pop` in the primary loop; `next` is the rest of the loop, and is told whether the
-- thread waits in `pop`.
abbrev pub after_pop :
    (Bool → Logger → Option (Logger × List Round))
    → List Round
    → Logger
    → Call (Option Message × Queue Message)
    → Option (Logger × List Round)
after_pop next rs l (returned (some m, q)) = next false (write_message m (record l { queue = q }))
after_pop next rs l (returned (none, q)) = some (record l { queue = q }, rs)
after_pop next rs l blocked = next true l

-- The primary loop: where it ends, and the rounds that are left then; nothing if it is still running
-- behind the last round. A thread that waits in `pop` tries again in the next round, without the
-- loop's test.
unfoldable pub primary : Bool → List Round → Logger → Option (Logger × List Round)
primary waiting [] l = none
primary waiting (r ∷ rs) l =
    let l' = arrive r.arrived l in
    if (if waiting then false else r.stop)
    then some (l', rs)
    else after_pop (λ w k. primary w rs k) rs l' (pop r.stop' l'.queue)

-- The second loop, with a token that is stopped already.
unfoldable pub drain : ℕ → Logger → Option Logger
drain zero l = none
drain (suc fuel) l = elim (pop true l.queue) [
  | returned (some m, q) ↦ drain fuel (write_message m (record l { queue = q }))
  | returned (none, q) ↦ some (record l { queue = q })
  | blocked ↦ none
]

-- The fuel is one round for each message that waits, and one to find the queue empty. What arrives in
-- the rounds that are left is not written.
abbrev pub drain_rest : Option (Logger × List Round) → Option Logger
drain_rest none = none
drain_rest (some (l, rest)) = drain (length l.queue.items + 1) l

unfoldable pub run : List Round → Logger → Option Logger
run rounds l = drain_rest (primary false rounds l)
