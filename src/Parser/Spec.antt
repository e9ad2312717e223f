-- ===== src/Parser/Spec.antt =====
-- The specification of `run`: a stateless scan of each client's stream.
use counter_drone_streaming.Base.{
  ℕ, ◌+◌, ◌-◌, length, ltb, ℤ, int_eq, List, [], ◌∷◌, ◌++◌, if◌then◌else◌,
}
use counter_drone_streaming.Telemetry.{DataChunk}
use counter_drone_streaming.Client.{Outputs, log}
use counter_drone_streaming.Client.Frame.{Event, scan, report}
use counter_drone_streaming.Ring.{default_capacity, overflow_message}
use counter_drone_streaming.Parser.{cleaned_up, overflowed, is_empty}

-- The bytes of each socket that wait for more.
abbrev pub Pending : Type 0
Pending = ℤ → List ℕ

abbrev pub hold : ℤ → List ℕ → Pending → Pending
hold id bs w j = if int_eq id j then bs else w j

-- What is told about a client, in order: an event of its stream, that it has gone, or that it was
-- dropped since so many bytes came and its buffer had room for so many.
pub data Notice : Type 0 where
  saw : Event → Notice
  gone : Notice
  overrun : ℕ → ℕ → Notice

abbrev pub tag : ℤ → List Event → List (ℤ × Notice)
tag id [] = []
tag id (ev ∷ evs) = (id, saw ev) ∷ tag id evs

-- One chunk: the notices, and what waits afterwards.
unfoldable pub take_chunk : DataChunk → Pending → List (ℤ × Notice) × Pending
take_chunk chunk w =
    let id = chunk.client_id in
    if is_empty chunk.bytes
    then ((id, gone) ∷ [], hold id [] w)
    else if ltb default_capacity (length (w id) + length chunk.bytes)
    then ((id, overrun (length chunk.bytes) (default_capacity - length (w id))) ∷ [], hold id [] w)
    else let found = scan (w id ++ chunk.bytes) in (tag id found.0, hold id found.1 w)

unfoldable pub notices : List DataChunk → Pending → List (ℤ × Notice)
notices [] w = []
notices (chunk ∷ chunks) w = let (ns, w') = take_chunk chunk w in ns ++ notices chunks w'

unfoldable pub waiting : List DataChunk → Pending → Pending
waiting [] w = w
waiting (chunk ∷ chunks) w = waiting chunks (take_chunk chunk w).1

-- What the parser puts out for a notice.
unfoldable pub tell : ℤ × Notice → Outputs → Outputs
tell (id, saw ev) o = report ev o
tell (id, gone) o = log (cleaned_up id) o
tell (id, overrun tried free) o = log (overflowed (overflow_message tried free) id) o

unfoldable pub tells : List (ℤ × Notice) → Outputs → Outputs
tells [] o = o
tells (n ∷ ns) o = tells ns (tell n o)
