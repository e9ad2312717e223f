-- ===== src/Parser/Room.antt =====
-- When no client is dropped: chunks within the limit, and clients that wait.
use counter_drone_streaming.Base.{
  ℕ, ◌+◌, ◌≤◌, ◌≡◌, arith, none, ℤ, int_eq, false, List, [], ◌∷◌, ◌++◌, length, ltb, All,
  All-append, if-holds, Bool-cases, inl, inr,
}
use counter_drone_streaming.Ring.{default_capacity}
use counter_drone_streaming.Telemetry.{DataChunk}
use counter_drone_streaming.Client.Frame.{Event, next, scan}
use counter_drone_streaming.Client.Front.{next_few}
use counter_drone_streaming.Client.Scan.{scan_rest}
use counter_drone_streaming.Client.Stream.{next-none-lt}
use counter_drone_streaming.Parser.{is_empty}
use counter_drone_streaming.Parser.Spec.{
  Pending, hold, Notice, saw, gone, overrun, tag, take_chunk, notices,
}
use counter_drone_streaming.Parser.Streams.{chunk_limit}

-- No stream holds a whole packet.
abbrev pub IsIdle : Pending → Type 0
IsIdle w = (id : ℤ) → next (w id) ≡ none

-- The notice is not that of a client dropped for want of room.
abbrev pub IsKept : ℤ × Notice → Type 0
IsKept (id, saw ev) = Unit
IsKept (id, gone) = Unit
IsKept (id, overrun tried free) = ⊥

abbrev pub IsSmall : DataChunk → Type 0
IsSmall chunk = length chunk.bytes ≤ chunk_limit

hold-IsIdle :
    (id : ℤ) (bs : List ℕ) (w : Pending) → next bs ≡ none → IsIdle w → IsIdle (hold id bs w)
hold-IsIdle id bs w e idle j = if-holds (λ l. next l ≡ none) (int_eq id j) bs (w j) e (idle j)

tag-IsKept : (id : ℤ) (evs : List Event) → All IsKept (tag id evs)
tag-IsKept id [] = tt
tag-IsKept id (ev ∷ evs) = (tt, tag-IsKept id evs)

-- One chunk for which there is room.
take_chunk-fits :
    (chunk : DataChunk) (w : Pending)
    → IsIdle w
    → IsSmall chunk
    → All IsKept (take_chunk chunk w).0 × IsIdle (take_chunk chunk w).1
unfolding take_chunk
take_chunk-fits chunk w idle small = elim (Bool-cases (is_empty chunk.bytes)) [
  | inl none_left ↦
      rw none_left ((tt, tt), hold-IsIdle chunk.client_id [] w (next_few [] (omega arith)) idle)
  | inr some_bytes ↦
      let id = chunk.client_id in
      let room : ltb default_capacity (length (w id) + length chunk.bytes) ≡ false =
        ground (arith, next-none-lt (w id) (idle id)) in
      rw (some_bytes, room)
        (
          tag-IsKept id (scan (w id ++ chunk.bytes)).0,
          hold-IsIdle id _ w (scan_rest (w id ++ chunk.bytes)) idle,
        )
]

-- Over chunks within the limit, no client is dropped for want of room.
pub notices-IsKept :
    (chunks : List DataChunk) (w : Pending)
    → IsIdle w
    → All IsSmall chunks
    → All IsKept (notices chunks w)
unfolding notices
notices-IsKept [] w idle small = tt
notices-IsKept (chunk ∷ chunks) w idle (s, ss) =
    let (kept, idle') = take_chunk-fits chunk w idle s in
    All-append IsKept (take_chunk chunk w).0 _ kept (notices-IsKept chunks _ idle' ss)
