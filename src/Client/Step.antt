-- ===== src/Client/Step.antt =====
-- One round of `process_client` against the scan.
use counter_drone_streaming.Base.{
  ℕ, zero, ◌+◌, ◌-◌, ◌*◌, ◌≤◌, ◌<◌, ◌≡◌, refl, ap, arith, List, [], ◌∷◌, take, drop, length, ltb,
  ◌==◌, ◌||◌, some, none, All-take, All-drop, length-drop, length-take, Bool-cases, inl, inr,
  replicate, length-replicate, ==_iff, tests, length-append,
}
use counter_drone_streaming.Ring.{Ring, size}
use counter_drone_streaming.Ring.Valid.{IsValid, IsByte}
use counter_drone_streaming.Ring.Refine.{contents, length-contents, peek_ok, consume_ok}
use counter_drone_streaming.Telemetry.{packet_header}
use counter_drone_streaming.Bytes.{Endian}
use counter_drone_streaming.Crc.{compute_crc16}
use counter_drone_streaming.Crc.Detect.{compute_crc16-take}
use counter_drone_streaming.Payload.Decode.{field, deserialize_payload_lem, slice_take}
use counter_drone_streaming.Client.{
  State, wait_header, wait_length, wait_payload_and_crc, ClientState, Outputs, Turn, returned,
  continued, resync, resize, find_header, read_length, deliver, check_packet, turn_in, turn, fail,
  crc_mismatch,
}
use counter_drone_streaming.Client.Good.{Found, IsGood, contents-All, load_uint16-field}
use counter_drone_streaming.Client.Frame.{Event, bad_crc, payload, next, report, reports}
use counter_drone_streaming.Client.Front.{
  next_few, next_no_header, next_no_length, next_absurd, next_incomplete, next_corrupt, next_packet,
}

-- The states still to go before a byte is taken.
abbrev pub rank : State → ℕ
rank wait_header = 2
rank wait_length = 1
rank wait_payload_and_crc = 0

abbrev pub measure : ClientState → ℕ
measure c = 3 * c.ring_buffer.count + rank c.state

abbrev pub unread : ClientState → List ℕ
unread c = contents c.ring_buffer

-- What a round may do: wait for bytes, look further ahead, or take what `next` takes and report it.
pub data Progress (c : ClientState) (o : Outputs) : Turn → Type 0 where
  waits : next (unread c) ≡ none → Progress c o (returned c o)
  looks :
      (c' : ClientState)
      → IsGood c'
      → unread c' ≡ unread c
      → measure c' < measure c
      → c'.ring_buffer.capacity ≡ c.ring_buffer.capacity
      → Progress c o (continued c' o)
  moves :
      (c' : ClientState) (o' : Outputs) (es : List Event)
      → IsGood c'
      → next (unread c) ≡ some (es, unread c')
      → o' ≡ reports es o
      → measure c' < measure c
      → c'.ring_buffer.capacity ≡ c.ring_buffer.capacity
      → Progress c o (continued c' o')

length-resize : (bytes : List ℕ) (n : ℕ) → length (resize bytes n) ≡ n
length-resize bytes n = omega (
  arith,
  length-append (take n bytes) (replicate (n - length bytes) 0),
  length-take n bytes,
  length-replicate (n - length bytes) (zero),
)

-- What `resync` leaves: the same bytes but the first, and the first state.
resync_lem :
    (c : ClientState) (o : Outputs)
    → IsValid c.ring_buffer
    → 1 ≤ c.ring_buffer.count
    → (r : Ring) × (resync c o ≡ continued (record c { ring_buffer = r; state = wait_header }) o)
      × IsValid r
      × (contents r ≡ drop 1 (unread c))
      × (r.capacity ≡ c.ring_buffer.capacity)
      × (r.count ≡ c.ring_buffer.count - 1)
resync_lem c o v h =
    let (r, taken, v', rest, kept, less) = consume_ok v 1 h in (r, rw taken, v', rest, kept, less)

module _ (e : Endian) (c : ClientState) (o : Outputs) (v : IsValid c.ring_buffer) where
  find_header-Progress : c.state ≡ wait_header → Progress c o (find_header e c o)
  unfolding find_header size reports
  find_header-Progress s = elim (Bool-cases (ltb c.ring_buffer.count 2)) [
    | inl few ↦ rw few (waits (next_few (unread c) (omega (tests, length-contents v))))
    | inr enough ↦
        let two : 2 ≤ length (unread c) = omega (tests, length-contents v) in
        let read = load_uint16-field e 0 2 (unread c) (contents-All v) (omega arith) two in
        rw (enough, peek_ok v (replicate 2 0) (omega tests))
          (elim (Bool-cases (field 2 0 (unread c) == packet_header)) [
            | inl hit ↦
                rw (read, hit)
                  (looks _ (record { ring = v; found = (two, (==_iff _ _).0 hit) }) refl
                    (rw s (omega arith)) refl)
            | inr miss ↦
                let (r, taken, v', rest, kept, less) = consume_ok v 1 (omega tests) in
                rw (read, miss, taken)
                  (moves _ o [] (record { ring = v'; found = rw (s, Found) tt })
                    (rw rest (next_no_header (unread c) two miss)) refl (rw s (omega tests)) kept)
          ])
  ]

  read_length-Progress :
      c.state ≡ wait_length
      → 2 ≤ length (unread c)
      → field 2 0 (unread c) ≡ packet_header
      → Progress c o (read_length e c o)
  unfolding read_length size reports
  read_length-Progress s two hd = elim (Bool-cases (ltb c.ring_buffer.count 4)) [
    | inl few ↦ rw few (waits (next_no_length (unread c) two hd (omega (tests, length-contents v))))
    | inr enough ↦
        let four : 4 ≤ length (unread c) = omega (tests, length-contents v) in
        let read = load_uint16-field e 2 4 (unread c) (contents-All v) (omega arith) four in
        rw (enough, peek_ok v (replicate 4 0) (omega tests), read)
          (elim (Bool-cases (field 2 2 (unread c) == 0 || ltb 256 (field 2 2 (unread c)))) [
            | inl bad ↦
                let (r, taken, v', rest, kept, less) =
                  resync_lem (record c { payload_length = field 2 2 (unread c) }) o v
                    (omega tests) in
                rw (bad, taken)
                  (moves _ o [] (record { ring = v'; found = tt })
                    (rw rest (next_absurd (unread c) four hd bad)) refl
                    (omega (tests, ap (λ t. 3 * c.ring_buffer.count + rank t) s)) kept)
            | inr good ↦ rw good (
                looks _
                  (record {
                    ring = v;
                    found = (four, hd, refl, ground (arith, good), ground (arith, good));
                  })
                  refl (rw s (omega arith)) refl)
          ])
  ]

  deliver_lem :
      (n : ℕ)
      → n + 6 ≤ length (unread c)
      → n ≤ 256
      → deliver e (drop 4 (take (n + 6) (unread c))) n o
        ≡ report (payload (take n (drop 4 (unread c)))) o
  unfolding deliver report
  deliver_lem n h k =
      let bytes = contents-All v in
      let long : n ≤ length (drop 4 (take (n + 6) (unread c))) =
        omega (arith, length-drop 4 (take (n + 6) (unread c)), length-take (n + 6) (unread c)) in
      rw (
        deliver,
        report,
        deserialize_payload_lem e (drop 4 (take (n + 6) (unread c))) n
            (All-drop IsByte 4 _ (All-take IsByte (n + 6) _ bytes)) long (omega arith),
        slice_take n 4 (n + 6) (unread c) (omega arith),
      )

  check_packet-Progress :
      c.state ≡ wait_payload_and_crc
      → Found wait_payload_and_crc c.payload_length (unread c)
      → Progress c o (check_packet e c o)
  unfolding check_packet size reports report
  check_packet-Progress s (four, hd, len, pos, small) =
      let n = c.payload_length in
      let bs = unread c in
      let dest = resize c.scratch_buf (n + 6) in
      let data_len : 4 + n ≡ n + 4 = omega arith in
      let total : n + 4 + 2 ≡ n + 6 = omega arith in
      let rank_now = ap (λ t. 3 * c.ring_buffer.count + rank t) s in
      rw (data_len, total)
        (elim (Bool-cases (ltb c.ring_buffer.count (n + 6))) [
          | inl few ↦ rw few (
              waits (next_incomplete bs four hd n len pos small (omega (tests, length-contents v))))
          | inr enough ↦
              let whole : n + 6 ≤ length bs = omega (tests, length-contents v) in
              let room : length dest ≤ c.ring_buffer.count =
                omega (tests, length-resize c.scratch_buf (n + 6)) in
              let read =
                load_uint16-field e (n + 4) (n + 6) bs (contents-All v) (omega arith) whole in
              rw
                (
                  enough,
                  peek_ok v dest room,
                  length-resize c.scratch_buf (n + 6),
                  read,
                  compute_crc16-take (n + 4) (n + 6) bs (omega arith),
                )
                (elim (Bool-cases (field 2 (n + 4) bs == compute_crc16 bs (n + 4))) [
                  | inl right ↦
                      let (r, taken, v', rest, kept, less) = consume_ok v (n + 6) (omega tests) in
                      rw (right, taken)
                        (moves _ _ (payload (take n (drop 4 bs)) ∷ [])
                          (record { ring = v'; found = tt })
                          (rw rest (next_packet bs four hd n len pos small whole right))
                          (deliver_lem n whole small) (omega (tests, rank_now)) kept)
                  | inr wrong ↦
                      let (r, taken, v', rest, kept, less) =
                        resync_lem (record c { scratch_buf = take (n + 6) bs })
                          (fail crc_mismatch o) v (omega tests) in
                      rw (wrong, taken)
                        (moves _ _ (bad_crc ∷ []) (record { ring = v'; found = tt })
                          (rw rest (next_corrupt bs four hd n len pos small whole wrong)) refl
                          (omega (tests, rank_now)) kept)
                ])
        ])

-- Each round of the loop makes progress, and never throws.
pub turn-Progress :
    (e : Endian) (c : ClientState) (o : Outputs) → IsGood c → Progress c o (turn e c o)
unfolding turn
turn-Progress e c o g = go c.state refl g.found
  where
    go :
        (s : State)
        → c.state ≡ s
        → Found s c.payload_length (unread c)
        → Progress c o (turn_in e s c o)
    go wait_header q f = find_header-Progress e c o g.ring q
    go wait_length q f = read_length-Progress e c o g.ring q f.0 f.1
    go wait_payload_and_crc q f = check_packet-Progress e c o g.ring q f
