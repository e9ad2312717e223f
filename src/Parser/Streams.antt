-- ===== src/Parser/Streams.antt =====
-- One client's events among the notices, against one scan of all its bytes.
use counter_drone_streaming.Base.{
  none, ℕ, ◌+◌, ◌≤◌, length, ltb, ◌≡◌, refl, sym, ◌∙◌, ap, arith, ℤ, int_eq, true, false, List, [],
  ◌∷◌, ◌++◌, All, if◌then◌else◌, Bool-cases, inl, inr, append_assoc, append-nil,
}
use counter_drone_streaming.Ring.{default_capacity}
use counter_drone_streaming.Telemetry.{DataChunk}
use counter_drone_streaming.Table.{int_eq_iff}
use counter_drone_streaming.Client.Frame.{Event, next, scan}
use counter_drone_streaming.Client.Scan.{scan-none, scan_rest}
use counter_drone_streaming.Client.Stream.{scan-append, next-none-lt}
use counter_drone_streaming.Bytes.{Endian}
use counter_drone_streaming.Client.Step.{unread}
use counter_drone_streaming.Parser.{is_empty, Parser, client_of, handle_chunks, handled}
use counter_drone_streaming.Parser.Ready.{Holds, IsChunk}
use counter_drone_streaming.Parser.Refine.{handle_chunks_refines}
use counter_drone_streaming.Parser.Spec.{
  Pending, Notice, saw, gone, tag, take_chunk, overrun, notices, waiting, tells,
}

-- The events of one client among the notices.
unfoldable pub events_of : ℤ → List (ℤ × Notice) → List Event
events_of id [] = []
events_of id ((j, saw ev) ∷ ns) = if int_eq j id then ev ∷ events_of id ns else events_of id ns
events_of id ((j, gone) ∷ ns) = events_of id ns
events_of id ((j, overrun tried free) ∷ ns) = events_of id ns

-- All the bytes of one client, in the order of arrival.
unfoldable pub bytes_of : ℤ → List DataChunk → List ℕ
bytes_of id [] = []
bytes_of id (chunk ∷ chunks) =
    if int_eq chunk.client_id id then chunk.bytes ++ bytes_of id chunks else bytes_of id chunks

-- The greatest chunk for which a waiting client surely has room.
abbrev pub chunk_limit : ℕ
chunk_limit = 65275

-- The chunk is not the signal that this client has gone, and there is room for it.
abbrev pub Keeps : ℤ → DataChunk → Type 0
Keeps id chunk =
    int_eq chunk.client_id id ≡ true
    → (is_empty chunk.bytes ≡ false) × (length chunk.bytes ≤ chunk_limit)

pub events_of-append :
    (id : ℤ) (ns ms : List (ℤ × Notice))
    → events_of id (ns ++ ms) ≡ events_of id ns ++ events_of id ms
unfolding events_of
events_of-append id [] ms = refl
events_of-append id ((j, saw ev) ∷ ns) ms = ground (arith, events_of-append id ns ms)
events_of-append id ((j, gone) ∷ ns) ms = events_of-append id ns ms
events_of-append id ((j, overrun tried free) ∷ ns) ms = events_of-append id ns ms

events_of-tag :
    (id j : ℤ) (evs : List Event) → events_of id (tag j evs) ≡ (if int_eq j id then evs else [])
unfolding events_of
events_of-tag id j [] = ground arith
events_of-tag id j (ev ∷ evs) = ground (arith, events_of-tag id j evs)

-- A client that waits has room for a chunk within the limit.
pub has_room :
    (id : ℤ) (chunk : DataChunk) (w : Pending)
    → next (w id) ≡ none
    → int_eq chunk.client_id id ≡ true
    → Keeps id chunk
    → ltb default_capacity (length (w chunk.client_id) + length chunk.bytes) ≡ false
has_room id chunk w idle hit k =
    let same : w chunk.client_id ≡ w id = ap w ((int_eq_iff chunk.client_id id).0 hit) in
    ground (arith, next-none-lt (w id) idle, (k hit).1, ap length same)

-- A chunk of the client itself, and one of another.
pub own_chunk :
    (id : ℤ) (chunk : DataChunk) (w : Pending)
    → int_eq chunk.client_id id ≡ true
    → is_empty chunk.bytes ≡ false
    → ltb default_capacity (length (w chunk.client_id) + length chunk.bytes) ≡ false
    → (events_of id (take_chunk chunk w).0 ≡ (scan (w id ++ chunk.bytes)).0)
      × ((take_chunk chunk w).1 id ≡ (scan (w id ++ chunk.bytes)).1)
unfolding take_chunk
own_chunk id chunk w hit some_bytes room =
    let same : w chunk.client_id ≡ w id = ap w ((int_eq_iff chunk.client_id id).0 hit) in
    rw (some_bytes, room, hit, ← same)
      (events_of-tag id chunk.client_id (scan (w chunk.client_id ++ chunk.bytes)).0 ∙ rw hit, refl)

pub other_chunk :
    (id : ℤ) (chunk : DataChunk) (w : Pending)
    → int_eq chunk.client_id id ≡ false
    → (events_of id (take_chunk chunk w).0 ≡ []) × ((take_chunk chunk w).1 id ≡ w id)
unfolding take_chunk events_of
other_chunk id chunk w miss = elim (Bool-cases (is_empty chunk.bytes)) [
  | inl none_left ↦ rw (none_left, miss) (refl, refl)
  | inr some_bytes ↦
      elim (Bool-cases (ltb default_capacity (length (w chunk.client_id) + length chunk.bytes))) [
        | inl full ↦ rw (some_bytes, full, miss) (refl, refl)
        | inr room ↦
            rw (some_bytes, room, miss)
              (
                events_of-tag id chunk.client_id (scan (w chunk.client_id ++ chunk.bytes)).0
                    ∙ rw miss,
                refl,
              )
      ]
]

-- The specification's events of a client that is not gone are those of one scan.
pub streams_are_separate :
    (id : ℤ) (chunks : List DataChunk) (w : Pending)
    → next (w id) ≡ none
    → All (Keeps id) chunks
    → (events_of id (notices chunks w) ≡ (scan (w id ++ bytes_of id chunks)).0)
      × (waiting chunks w id ≡ (scan (w id ++ bytes_of id chunks)).1)
unfolding notices waiting bytes_of events_of
streams_are_separate id [] w idle k = rw (append-nil (w id), scan-none (w id) idle) (refl, refl)
streams_are_separate id (chunk ∷ chunks) w idle (k, ks) =
    elim (Bool-cases (int_eq chunk.client_id id)) [
      | inl hit ↦
          let (evs, left) = own_chunk id chunk w hit (k hit).0 (has_room id chunk w idle hit k) in
          let later =
            streams_are_separate id chunks (take_chunk chunk w).1
              (rw left (scan_rest (w id ++ chunk.bytes))) ks in
          let whole =
            ap scan (sym (append_assoc (w id) chunk.bytes (bytes_of id chunks)))
            ∙ scan-append (w id ++ chunk.bytes) (bytes_of id chunks) in
          rw
            (
              hit,
              whole,
              events_of-append id (take_chunk chunk w).0 (notices chunks (take_chunk chunk w).1),
              evs,
              ← left,
            )
            (rw (later.0, later.1) (refl, refl))
      | inr miss ↦
          let (evs, left) = other_chunk id chunk w miss in
          let later = streams_are_separate id chunks (take_chunk chunk w).1 (rw left idle) ks in
          rw
            (
              miss,
              events_of-append id (take_chunk chunk w).0 (notices chunks (take_chunk chunk w).1),
              evs,
              ← left,
            )
            later
    ]

-- From a table in step with its clients' streams, over chunks of bytes of any clients, of which
-- those of one client are neither empty nor above 65275 bytes: the events that the parser puts out
-- for that client, in order and among the others', are those of one scan over the bytes that
-- waited and all that it has sent since, and what that scan leaves is what its buffer holds.
pub clients_are_separate :
    (e : Endian) (id : ℤ) (chunks : List DataChunk) (p : Parser) (w : Pending)
    → Holds p w
    → All IsChunk chunks
    → All (Keeps id) chunks
    → (p' : Parser) × (handle_chunks e chunks p ≡ handled p')
      × (p'.outputs ≡ tells (notices chunks w) p.outputs)
      × (events_of id (notices chunks w) ≡ (scan (w id ++ bytes_of id chunks)).0)
      × (unread (client_of id p') ≡ (scan (w id ++ bytes_of id chunks)).1)
clients_are_separate e id chunks p w h small keeps =
    let (p', is, out, holds) = handle_chunks_refines e chunks p w h small in
    let (evs, left) =
      streams_are_separate id chunks w (rw (← h.bytes id) (h.ready id).waits) keeps in
    (p', is, out, evs, holds.bytes id ∙ left)
