-- ===== src/System/Fleet.antt =====
-- One drone in the table, whatever the other clients send, through the threads.
use counter_drone_streaming.Base.{
  ℕ, ℤ, int_eq, true, false, List, [], ◌∷◌, ◌++◌, Option, none, All, ◌≡◌, refl, sym, ◌∙◌,
  All-append, if-holds, ltb, length, ◌+◌, ap, append-nil, replicate, Bool-cases, inl, inr,
}
use counter_drone_streaming.Telemetry.{Telemetry, DataChunk}
use counter_drone_streaming.Table.{bytes_eq}
use counter_drone_streaming.Client.{Outputs}
use counter_drone_streaming.Client.Frame.{Event, bad_crc, next}
use counter_drone_streaming.Parser.Spec.{Notice, saw, gone, overrun}
use counter_drone_streaming.Parser.Streams.{events_of}
use counter_drone_streaming.Wire.RoundTrip.{IsSendable}
use counter_drone_streaming.Wire.Recovery.{delivered}
use counter_drone_streaming.System.Delivery.{last_of}
use counter_drone_streaming.Parser.Records.{
  record_of, records_in, records_told, tells-parsed, records_in-append, records_in-fails,
  records_in-delivered,
}
use counter_drone_streaming.Ring.{default_capacity}
use counter_drone_streaming.Parser.Refine.{handle_chunks_refines}
use counter_drone_streaming.Parser.Streams.{streams_are_separate}
use counter_drone_streaming.Bytes.{Endian}
use counter_drone_streaming.Parser.{is_empty, Parser, handled, running, shutting_down, run}
use counter_drone_streaming.Parser.Spec.{Pending, notices, tag, take_chunk}
use counter_drone_streaming.Parser.Ready.{Holds, IsChunk}
use counter_drone_streaming.Parser.Streams.{bytes_of, Keeps}
use counter_drone_streaming.Client.Frame.{scan}
use counter_drone_streaming.Table.{find?, id_key}
use counter_drone_streaming.Wire.Recovery.{packets}
use counter_drone_streaming.Wire.Resync.{IsJunk, false_starts, scan-junk_packets}
use counter_drone_streaming.Logic.{Timing, Logic}
use counter_drone_streaming.System.Delivery.{run_logic-drones}
use counter_drone_streaming.System.Stages.{say, say-Holds, IsInStep}
use counter_drone_streaming.System.{System, main_returned, launch, Reach}
use counter_drone_streaming.System.Shutdown.{inv, pipeline_has_run}

-- No record of this drone is among them.
abbrev pub IsOther : List ℕ → Telemetry → Type 0
IsOther d t = bytes_eq t.drone_id d ≡ false

-- If another client tells of it, it is not of this drone.
abbrev pub Spares : ℤ → List ℕ → ℤ × Notice → Type 0
Spares id d (j, saw ev) = int_eq j id ≡ false → All (IsOther d) (record_of ev)
Spares id d (j, gone) = Unit
Spares id d (j, overrun tried free) = Unit

last_of-append :
    (d : List ℕ) (ts us : List Telemetry) (before : Option Telemetry)
    → last_of d (ts ++ us) before ≡ last_of d us (last_of d ts before)
last_of-append d [] us before = refl
last_of-append d (t ∷ ts) us before = last_of-append d ts us _

last_of-other :
    (d : List ℕ) (ts : List Telemetry) (before : Option Telemetry)
    → All (IsOther d) ts
    → last_of d ts before ≡ before
last_of-other d [] before h = refl
last_of-other d (t ∷ ts) before (h, hs) = rw h (last_of-other d ts before hs)

-- The last record of the drone is its own client's.
last_of-told :
    (id : ℤ) (d : List ℕ) (ns : List (ℤ × Notice)) (before : Option Telemetry)
    → All (Spares id d) ns
    → last_of d (records_told ns) before ≡ last_of d (records_in (events_of id ns)) before
unfolding events_of
last_of-told id d [] before h = refl
last_of-told id d ((j, gone) ∷ ns) before (h, hs) = last_of-told id d ns before hs
last_of-told id d ((j, overrun tried free) ∷ ns) before (h, hs) = last_of-told id d ns before hs
last_of-told id d ((j, saw ev) ∷ ns) before (h, hs) =
    let now = last_of d (record_of ev) before in
    let split = last_of-append d (record_of ev) (records_told ns) before in
    let later = last_of-told id d ns now hs in
    elim (Bool-cases (int_eq j id)) [
      | inl own ↦ rw own (
          split
          ∙ later
          ∙ sym (last_of-append d (record_of ev) (records_in (events_of id ns)) before))
      | inr other ↦ rw other (
          split
          ∙ later
          ∙ ap (last_of d (records_in (events_of id ns)))
              (last_of-other d (record_of ev) before (h other)))
    ]

tag-Spares :
    (id : ℤ) (d : List ℕ) (j : ℤ) (evs : List Event)
    → int_eq j id ≡ true
    → All (Spares id d) (tag j evs)
tag-Spares id d j [] own = tt
tag-Spares id d j (ev ∷ evs) own =
    ((λ other. absurd (cc (sym own ∙ other))), tag-Spares id d j evs own)

take_chunk-Spares :
    (id : ℤ) (d : List ℕ) (chunk : DataChunk) (w : Pending)
    → int_eq chunk.client_id id ≡ true
    → All (Spares id d) (take_chunk chunk w).0
unfolding take_chunk
take_chunk-Spares id d chunk w own =
    let told = λ (r : List (ℤ × Notice) × Pending). All (Spares id d) r.0 in
    if-holds told (is_empty chunk.bytes) _ _ (tt, tt)
      (if-holds told (ltb default_capacity (length (w chunk.client_id) + length chunk.bytes)) _ _
        (tt, tt) (tag-Spares id d chunk.client_id _ own))

-- Where all chunks are one client's, no other tells of anything.
pub notices-Spares :
    (id : ℤ) (d : List ℕ) (chunks : List DataChunk) (w : Pending)
    → All (λ c. int_eq c.client_id id ≡ true) chunks
    → All (Spares id d) (notices chunks w)
unfolding notices
notices-Spares id d [] w own = tt
notices-Spares id d (chunk ∷ chunks) w (own, owns) =
    All-append (Spares id d) (take_chunk chunk w).0 (notices chunks (take_chunk chunk w).1)
      (take_chunk-Spares id d chunk w own) (notices-Spares id d chunks (take_chunk chunk w).1 owns)

-- What the parser's run on some chunks puts out.
run-tells :
    (e : Endian) (id : ℤ) (chunks : List DataChunk) (junk : List ℕ) (ts : List Telemetry)
    → (p q : Parser) (w : Pending) → Holds p w
    → w id ≡ []
    → p.outputs.parsed ≡ []
    → All IsChunk chunks
    → events_of id (notices chunks w) ≡ (scan (w id ++ bytes_of id chunks)).0
    → IsJunk (packets ts) junk
    → All IsSendable ts
    → bytes_of id chunks ≡ junk ++ packets ts
    → run e chunks p ≡ handled q
    → (q.outputs.parsed ≡ records_told (notices chunks w))
      × (records_in (events_of id (notices chunks w)) ≡ ts)
unfolding run
run-tells e id chunks junk ts p q w h idle fresh byte evs is_junk sendable sent ran =
    let (p', is, out, _) =
      handle_chunks_refines e chunks (say running p) w (say-Holds running p w h) byte in
    let same : say (shutting_down p'.outputs.crc_failures) p' ≡ q = cc (rw (run, is) at ran) in
    let told = notices chunks w in
    let n = false_starts (packets ts) junk in
    let whole =
      ap scan (ap (λ bs. bs ++ bytes_of id chunks) idle ∙ sent)
      ∙ scan-junk_packets junk ts is_junk sendable in
    (
      sym (ap (λ (k : Parser). k.outputs.parsed) same)
          ∙ ap (λ (o : Outputs). o.parsed) out
          ∙ tells-parsed told (say running p).outputs
          ∙ ap (λ us. us ++ records_told told) fresh,
      ap records_in (evs ∙ ap (λ r. r.0) whole)
          ∙ records_in-append (replicate n bad_crc) (delivered ts)
          ∙ ap (λ us. us ++ records_in (delivered ts)) (records_in-fails n)
          ∙ records_in-delivered ts sendable,
    )

module _ {e : Endian} {T : Timing} (p₀ : Parser) (l₀ : Logic T) {s : System e T}
    (r : Reach (launch e T p₀ l₀) s) (done : s.main ≡ main_returned) where
  pub tracked_if_separate :
      (id : ℤ) (d : List ℕ) (junk : List ℕ) (ts : List Telemetry) (w : Pending)
      → Holds p₀ w
      → w id ≡ []
      → p₀.outputs.parsed ≡ []
      → l₀.drones ≡ []
      → s.parsed.queue.items ≡ []
      → events_of id (notices s.raw.popped w) ≡ (scan (w id ++ bytes_of id s.raw.popped)).0
      → IsJunk (packets ts) junk
      → All IsSendable ts
      → bytes_of id s.raw.popped ≡ junk ++ packets ts
      → All (Spares id d) (notices s.raw.popped w)
      → find? d s.logic.state.drones ≡ last_of d ts none
  unfolding find?
  tracked_if_separate id d junk ts w h idle fresh no_drones all_taken evs is_junk sendable sent
        alone =
      let g : IsInStep p₀ = (w, h) in
      let (ran, _, passed, (started, stopped, xs, taken, handles)) =
        pipeline_has_run p₀ l₀ g r done in
      let byte = (inv p₀ l₀ g r done).raw.gave in
      let (parsed, own) =
        run-tells e id s.raw.popped junk ts p₀ s.parser.state w h idle fresh byte evs is_junk
          sendable sent ran in
      let all : s.parsed.popped ≡ records_told (notices s.raw.popped w) =
        sym (append-nil s.parsed.popped)
        ∙ ap (λ us. s.parsed.popped ++ us) (sym all_taken)
        ∙ sym passed
        ∙ parsed in
      ap (λ (l : Logic T). find? d l.drones) (sym handles)
      ∙ run_logic-drones d started stopped xs l₀
      ∙ ap (λ us. last_of d us (find? d l₀.drones)) (taken ∙ all)
      ∙ ap (λ m. last_of d (records_told (notices s.raw.popped w)) (find? d m)) no_drones
      ∙ last_of-told id d (notices s.raw.popped w) none alone
      ∙ ap (λ us. last_of d us none) own

  -- Once main has returned, after any interleaving of the threads from a table in step with its
  -- clients' streams, an empty table of drones, no record put out before and nothing that waits
  -- for this client: if no record is left in the parsed queue, the chunks of this client among
  -- those that the parser took, none of them empty or above 65275 bytes, are some junk and then
  -- the packets that a sender built from records (names of at most 214 bytes, numbers of 64 bits),
  -- no byte of the junk begins a packet with a right checksum or one that the bytes end within,
  -- and nothing that the parser tells of another client is a record of this drone, then the table
  -- holds, for this drone, the last record of it that the sender sent, or nothing if there was
  -- none, whatever else the other clients sent.
  pub drone_is_tracked :
      (id : ℤ) (d : List ℕ) (junk : List ℕ) (ts : List Telemetry) (w : Pending)
      → Holds p₀ w
      → w id ≡ []
      → p₀.outputs.parsed ≡ []
      → l₀.drones ≡ []
      → s.parsed.queue.items ≡ []
      → All (Keeps id) s.raw.popped
      → IsJunk (packets ts) junk
      → All IsSendable ts
      → bytes_of id s.raw.popped ≡ junk ++ packets ts
      → All (Spares id d) (notices s.raw.popped w)
      → find? d s.logic.state.drones ≡ last_of d ts none
  drone_is_tracked id d junk ts w h idle fresh no_drones all_taken keeps is_junk sendable sent
        alone =
      let waits : next (w id) ≡ none = rw (← h.bytes id) ((h.ready id).waits) in
      tracked_if_separate id d junk ts w h idle fresh no_drones all_taken
        (streams_are_separate id s.raw.popped w waits keeps).0 is_junk sendable sent alone
