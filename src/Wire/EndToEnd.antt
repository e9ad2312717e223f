-- ===== src/Wire/EndToEnd.antt =====
-- From a sender's packets to the parsed queue, through `run`.
use counter_drone_streaming.Base.{
  none, ℕ, replicate, length, ◌≤◌, ◌≡◌, refl, ◌∙◌, ap, ℤ, false, List, [], ◌∷◌, ◌++◌, All,
  All-append,
}
use counter_drone_streaming.Telemetry.{Telemetry, DataChunk}
use counter_drone_streaming.Bytes.{Endian}
use counter_drone_streaming.Table.{int_eq_iff}
use counter_drone_streaming.Client.{Outputs}
use counter_drone_streaming.Client.Frame.{Event, next, scan, report, reports}
use counter_drone_streaming.Client.Scan.{scan_rest}
use counter_drone_streaming.Parser.{Parser, handled, handle_chunks, is_empty}
use counter_drone_streaming.Parser.Spec.{
  Pending, Notice, saw, gone, overrun, tag, take_chunk, notices, waiting, tell, tells,
}
use counter_drone_streaming.Parser.Ready.{Holds, IsChunk}
use counter_drone_streaming.Parser.Refine.{handle_chunks_refines}
use counter_drone_streaming.Parser.Streams.{
  chunk_limit, events_of, bytes_of, Keeps, has_room, own_chunk, streams_are_separate,
}
use counter_drone_streaming.Client.Frame.{bad_crc}
use counter_drone_streaming.Wire.Resync.{
  IsJunk, false_starts, fail_times, scan-junk_packets, reports-recovered,
}
use counter_drone_streaming.Wire.RoundTrip.{IsSendable}
use counter_drone_streaming.Wire.Recovery.{packets, delivered}

-- A chunk of bytes from this client, within the limit.
abbrev pub IsFrom : ℤ → DataChunk → Type 0
IsFrom id chunk =
    (chunk.client_id ≡ id) × (is_empty chunk.bytes ≡ false) × (length chunk.bytes ≤ chunk_limit)

abbrev IsOwn : ℤ → ℤ × Notice → Type 0
IsOwn id (j, saw ev) = j ≡ id
IsOwn id (j, gone) = ⊥
IsOwn id (j, overrun tried free) = ⊥

tells-events :
    (id : ℤ) (ns : List (ℤ × Notice)) (o : Outputs)
    → All (IsOwn id) ns
    → tells ns o ≡ reports (events_of id ns) o
unfolding tells tell events_of reports
tells-events id [] o h = refl
tells-events id ((j, saw ev) ∷ ns) o (e, h) =
    rw ((int_eq_iff j id).1 e) (tells-events id ns (report ev o) h)
tells-events id ((j, gone) ∷ ns) o (e, h) = absurd e
tells-events id ((j, overrun tried free) ∷ ns) o (e, h) = absurd e

tag-IsOwn : (id j : ℤ) (evs : List Event) → j ≡ id → All (IsOwn id) (tag j evs)
tag-IsOwn id j [] e = tt
tag-IsOwn id j (ev ∷ evs) e = (e, tag-IsOwn id j evs e)

IsFrom-Keeps_one : (id : ℤ) (chunk : DataChunk) → IsFrom id chunk → Keeps id chunk
IsFrom-Keeps_one id chunk (from, full, small) _ = (full, small)

notices-IsOwn :
    (id : ℤ) (chunks : List DataChunk) (w : Pending)
    → next (w id) ≡ none
    → All (IsFrom id) chunks
    → All (IsOwn id) (notices chunks w)
unfolding notices take_chunk
notices-IsOwn id [] w idle h = tt
notices-IsOwn id (chunk ∷ chunks) w idle (h, hs) =
    let hit = (int_eq_iff chunk.client_id id).1 h.0 in
    let room = has_room id chunk w idle hit (IsFrom-Keeps_one id chunk h) in
    let (_, left) = own_chunk id chunk w hit h.1 room in
    All-append (IsOwn id) (take_chunk chunk w).0 _
      (rw (h.1, room) (tag-IsOwn id chunk.client_id _ h.0))
      (notices-IsOwn id chunks (take_chunk chunk w).1 (rw left (scan_rest (w id ++ chunk.bytes)))
        hs)

IsFrom-Keeps : (id : ℤ) (chunks : List DataChunk) → All (IsFrom id) chunks → All (Keeps id) chunks
IsFrom-Keeps id [] h = tt
IsFrom-Keeps id (chunk ∷ chunks) (h, hs) = (IsFrom-Keeps_one id chunk h, IsFrom-Keeps id chunks hs)

-- One client's chunks put out what a scan of its bytes tells, and leave what the scan leaves.
stream_is_reported :
    (e : Endian) (id : ℤ) (chunks : List DataChunk) (p : Parser) (w : Pending)
    → Holds p w
    → w id ≡ []
    → All IsChunk chunks
    → All (IsFrom id) chunks
    → (p' : Parser) × (handle_chunks e chunks p ≡ handled p')
      × (p'.outputs ≡ reports (scan (bytes_of id chunks)).0 p.outputs)
      × Holds p' (waiting chunks w)
      × (waiting chunks w id ≡ (scan (bytes_of id chunks)).1)
stream_is_reported e id chunks p w h none_waits small from =
    let (p', is, out, holds) = handle_chunks_refines e chunks p w h small in
    let idle : next (w id) ≡ none = rw (← h.bytes id) ((h.ready id).waits) in
    let (evs, left) = streams_are_separate id chunks w idle (IsFrom-Keeps id chunks from) in
    (
      p',
      is,
      out
          ∙ tells-events id (notices chunks w) p.outputs (notices-IsOwn id chunks w idle from)
          ∙ ap (λ es. reports es p.outputs) (rw none_waits at evs),
      holds,
      rw none_waits at left,
    )

-- From a table in step with its clients' streams, in which nothing waits for this client: if its
-- bytes are some junk and then the packets that a sender built from records (names of at most 214
-- bytes, numbers of 64 bits), cut in any way into chunks of at most 65275 bytes, none empty and
-- none of another client, and no byte of the junk begins a packet with a right checksum or one
-- that the bytes end within, then the parser hands each record on once and in order, reports one
-- failure for each place in the junk that looks like a packet by its header and length, puts out
-- nothing else, and no byte of the client waits in the end.
pub packets_are_recovered :
    (e : Endian) (id : ℤ) (chunks : List DataChunk) (junk : List ℕ) (ts : List Telemetry)
    → (p : Parser) (w : Pending) → Holds p w
    → w id ≡ []
    → All IsChunk chunks
    → All (IsFrom id) chunks
    → IsJunk (packets ts) junk
    → All IsSendable ts
    → bytes_of id chunks ≡ junk ++ packets ts
    → (p' : Parser) × (handle_chunks e chunks p ≡ handled p')
      × (p'.outputs ≡ record (fail_times (false_starts (packets ts) junk) p.outputs) {
        parsed = p.outputs.parsed ++ ts;
      })
      × Holds p' (waiting chunks w)
      × (waiting chunks w id ≡ [])
packets_are_recovered e id chunks junk ts p w h none_waits small from is_junk sendable sent =
    let (p', is, out, holds, left) = stream_is_reported e id chunks p w h none_waits small from in
    let n = false_starts (packets ts) junk in
    let whole : scan (bytes_of id chunks) ≡ (replicate n bad_crc ++ delivered ts, []) =
      ap scan sent ∙ scan-junk_packets junk ts is_junk sendable in
    (
      p',
      is,
      out ∙ ap (λ r. reports r.0 p.outputs) whole ∙ reports-recovered n ts p.outputs sendable,
      holds,
      left ∙ ap (λ r. r.1) whole,
    )

-- From a table in step with its clients' streams, in which nothing waits for this client: however
-- the packets that a sender built from records (names of at most 214 bytes, numbers of 64 bits)
-- are cut into chunks of at most 65275 bytes, none empty and none of another client, every round
-- is handled, the parser hands each record on once and in order, counts no failure and logs
-- nothing, and no byte of the client waits in the end.
pub packets_are_delivered :
    (e : Endian) (id : ℤ) (chunks : List DataChunk) (ts : List Telemetry) (p : Parser) (w : Pending)
    → Holds p w
    → w id ≡ []
    → All IsChunk chunks
    → All (IsFrom id) chunks
    → All IsSendable ts
    → bytes_of id chunks ≡ packets ts
    → (p' : Parser) × (handle_chunks e chunks p ≡ handled p')
      × (p'.outputs ≡ record p.outputs { parsed = p.outputs.parsed ++ ts })
      × Holds p' (waiting chunks w)
      × (waiting chunks w id ≡ [])
unfolding fail_times
packets_are_delivered e id chunks ts p w h none_waits small from sendable sent =
    packets_are_recovered e id chunks [] ts p w h none_waits small from tt sendable sent
