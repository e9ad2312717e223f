-- ===== src/Parser/Visits.antt =====
-- One client's events among the notices, up to the end of its connection.
use counter_drone_streaming.Base.{
  none, ℕ, ℤ, int_eq, true, false, List, [], ◌∷◌, ◌++◌, All, if◌then◌else◌, Bool-cases, inl, inr,
  ◌≡◌, refl, sym, ◌∙◌, ap, append_assoc, append-nil,
}
use counter_drone_streaming.Telemetry.{DataChunk}
use counter_drone_streaming.Client.Frame.{next, scan}
use counter_drone_streaming.Client.Scan.{scan-none, scan_rest}
use counter_drone_streaming.Client.Stream.{scan-append}
use counter_drone_streaming.Parser.{is_empty}
use counter_drone_streaming.Parser.Spec.{Pending, take_chunk, notices, waiting}
use counter_drone_streaming.Parser.Room.{IsSmall}
use counter_drone_streaming.Parser.Streams.{
  events_of, bytes_of, events_of-append, has_room, own_chunk, other_chunk,
}

abbrev pub IsOfOther : ℤ → DataChunk → Type 0
IsOfOther id chunk = int_eq chunk.client_id id ≡ false

-- If this client goes among the chunks, none of its comes behind.
abbrev pub IsVisit : ℤ → List DataChunk → Type 0
IsVisit id [] = Unit
IsVisit id (chunk ∷ chunks) =
    if int_eq chunk.client_id id
    then (if is_empty chunk.bytes then All (IsOfOther id) chunks else IsVisit id chunks)
    else IsVisit id chunks

-- The chunks of others leave a client alone.
pub others-leave :
    (id : ℤ) (chunks : List DataChunk) (w : Pending)
    → All (IsOfOther id) chunks
    → (events_of id (notices chunks w) ≡ [])
      × (waiting chunks w id ≡ w id)
      × (bytes_of id chunks ≡ [])
unfolding notices waiting bytes_of events_of
others-leave id [] w h = (refl, refl, refl)
others-leave id (chunk ∷ chunks) w (miss, h) =
    let (evs, left) = other_chunk id chunk w miss in
    let (later, waits, bytes) = others-leave id chunks (take_chunk chunk w).1 h in
    (
      events_of-append id (take_chunk chunk w).0 (notices chunks (take_chunk chunk w).1)
          ∙ rw (evs, later) refl,
      waits ∙ left,
      rw miss bytes,
    )

goodbye_chunk :
    (id : ℤ) (chunk : DataChunk) (w : Pending)
    → int_eq chunk.client_id id ≡ true
    → is_empty chunk.bytes ≡ true
    → (events_of id (take_chunk chunk w).0 ≡ []) × ((take_chunk chunk w).1 id ≡ [])
unfolding take_chunk events_of
goodbye_chunk id chunk w hit gone = rw (gone, hit) (refl, refl)

empty-bytes : (chunk : DataChunk) → is_empty chunk.bytes ≡ true → chunk.bytes ≡ []
empty-bytes chunk h = go chunk.bytes h
  where
    go : (bs : List ℕ) → is_empty bs ≡ true → bs ≡ []
    go [] h = refl
    go (b ∷ bs) h = absurd (cc h)

-- The events of a client that may go are those of one scan of its bytes; where that scan leaves
-- nothing, nothing of it waits.
pub visits_are_separate :
    (id : ℤ) (chunks : List DataChunk) (w : Pending)
    → next (w id) ≡ none
    → All IsSmall chunks
    → IsVisit id chunks
    → let whole = scan (w id ++ bytes_of id chunks) in
      (events_of id (notices chunks w) ≡ whole.0) × (whole.1 ≡ [] → waiting chunks w id ≡ [])
unfolding notices waiting bytes_of events_of
visits_are_separate id [] w idle small v =
    let all = ap scan (append-nil (w id)) ∙ scan-none (w id) idle in
    (sym (ap (λ r. r.0) all), λ e. sym (ap (λ r. r.1) all) ∙ e)
visits_are_separate id (chunk ∷ chunks) w idle (s, small) v =
    elim (Bool-cases (int_eq chunk.client_id id)) [
      | inl hit ↦ elim (Bool-cases (is_empty chunk.bytes)) [
        | inl gone ↦
            let (evs, left) = goodbye_chunk id chunk w hit gone in
            let (later, waits, bytes) =
              others-leave id chunks (take_chunk chunk w).1 (rw (hit, gone) at v) in
            let nothing = ap (λ bs. bs ++ bytes_of id chunks) (empty-bytes chunk gone) ∙ bytes in
            let whole =
              ap scan (ap (λ bs. w id ++ bs) nothing ∙ append-nil (w id)) ∙ scan-none (w id) idle in
            rw hit (
              events_of-append id (take_chunk chunk w).0 (notices chunks (take_chunk chunk w).1)
                  ∙ rw (evs, later) refl
                  ∙ sym (ap (λ r. r.0) whole),
              λ e. waits ∙ left,
            )
        | inr some_bytes ↦
            let room = has_room id chunk w idle hit (λ _. (some_bytes, s)) in
            let (evs, left) = own_chunk id chunk w hit some_bytes room in
            let later =
              visits_are_separate id chunks (take_chunk chunk w).1
                (rw left (scan_rest (w id ++ chunk.bytes))) small (rw (hit, some_bytes) at v) in
            let whole =
              ap scan (sym (append_assoc (w id) chunk.bytes (bytes_of id chunks)))
              ∙ scan-append (w id ++ chunk.bytes) (bytes_of id chunks) in
            rw
              (
                hit,
                whole,
                events_of-append id (take_chunk chunk w).0 (notices chunks (take_chunk chunk w).1),
                evs,
                ← left,
              )
              (rw (later.0) (refl, later.1))
      ]
      | inr miss ↦
          let (evs, left) = other_chunk id chunk w miss in
          let later =
            visits_are_separate id chunks (take_chunk chunk w).1 (rw left idle) small
              (rw miss at v) in
          rw
            (
              miss,
              events_of-append id (take_chunk chunk w).0 (notices chunks (take_chunk chunk w).1),
              evs,
              ← left,
            )
            later
    ]
