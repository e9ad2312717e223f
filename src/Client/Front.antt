-- ===== src/Client/Front.antt =====
-- `next` by the tests that lead to each frame.
use counter_drone_streaming.Base.{
  ℕ, ◌+◌, ◌≤◌, ◌<◌, ◌≡◌, arith, List, [], ◌∷◌, take, drop, length, ltb, ◌==◌, ◌||◌, true, false,
  some, none, length-drop, length-take,
}
use counter_drone_streaming.Telemetry.{packet_header}
use counter_drone_streaming.Crc.{compute_crc16}
use counter_drone_streaming.Payload.Decode.{field}
use counter_drone_streaming.Client.Frame.{bad_crc, payload, sized, frame, next}

module _ (bs : List ℕ) where
  pub next_few : length bs < 2 → next bs ≡ none
  unfolding next frame
  next_few h = ground arith

  pub next_no_header :
      2 ≤ length bs → (field 2 0 bs == packet_header) ≡ false → next bs ≡ some ([], drop 1 bs)
  unfolding next frame
  next_no_header h e = ground arith

  pub next_no_length : 2 ≤ length bs → field 2 0 bs ≡ packet_header → length bs < 4 → next bs ≡ none
  unfolding next frame
  next_no_length h e k = ground arith

  module _ (h : 4 ≤ length bs) (e : field 2 0 bs ≡ packet_header) where
    next_sized : frame bs ≡ sized (field 2 2 bs) bs
    unfolding frame
    next_sized = ground arith

    pub next_absurd :
        (field 2 2 bs == 0 || ltb 256 (field 2 2 bs)) ≡ true → next bs ≡ some ([], drop 1 bs)
    unfolding next sized
    next_absurd k = rw (next_sized, next) (ground arith)

    module _ (n : ℕ) (len : field 2 2 bs ≡ n) (pos : 0 < n) (small : n ≤ 256) where
      pub next_incomplete : length bs < n + 6 → next bs ≡ none
      unfolding next sized
      next_incomplete k = rw (next_sized, next) (ground arith)

      pub next_corrupt :
          n + 6 ≤ length bs
          → (field 2 (n + 4) bs == compute_crc16 bs (n + 4)) ≡ false
          → next bs ≡ some (bad_crc ∷ [], drop 1 bs)
      unfolding next sized
      next_corrupt k m = rw (next_sized, next) (ground arith)

      pub next_packet :
          n + 6 ≤ length bs
          → (field 2 (n + 4) bs == compute_crc16 bs (n + 4)) ≡ true
          → next bs ≡ some (payload (take n (drop 4 bs)) ∷ [], drop (n + 6) bs)
      unfolding next sized
      next_packet k m =
          rw (next_sized, next) (ground (arith, length-take n (drop 4 bs), length-drop 4 bs))
