-- ===== src/Client/Stream.antt =====
-- The scan of a stream that arrives in pieces.
use counter_drone_streaming.Base.{
  ℕ, zero, suc, ◌+◌, ◌≤◌, ◌<◌, ◌≡◌, refl, arith, ◌⊎◌, inl, inr, List, ◌++◌, drop, length, some,
  none, length-drop, length-append, drop-append, take-append, append_assoc, Option-cases,
}
use counter_drone_streaming.Crc.Detect.{compute_crc16-append}
use counter_drone_streaming.Payload.Decode.{field, field-append}
use counter_drone_streaming.Client.Frame.{
  Frame, Event, partial, noise, corrupt, packet, frame, next, scan,
}
use counter_drone_streaming.Client.Scan.{next_shrinks, scan-none, scan-some, frame-Fits, Fits}

frame-append : (bs more : List ℕ) → (frame bs ≡ partial) ⊎ (frame (bs ++ more) ≡ frame bs)
unfolding frame
frame-append bs more = ground (
  arith,
  length-append bs more,
  length-drop 4 bs,
  field-append 2 0 bs more,
  field-append 2 2 bs more,
  field-append 2 (field 2 2 bs + 4) bs more,
  compute_crc16-append (field 2 2 bs + 4) bs more,
  drop-append 4 bs more,
  take-append (field 2 2 bs) (drop 4 bs) more,
)

-- What can be told of some bytes is not changed by those that follow.
pub next-append :
    (bs more : List ℕ) (es : List Event) (rest : List ℕ)
    → next bs ≡ some (es, rest)
    → next (bs ++ more) ≡ some (es, rest ++ more)
unfolding next
next-append bs more es rest h = go (frame bs) refl (frame-Fits bs)
  where
    same : (frame bs ≡ partial) ⊎ (frame (bs ++ more) ≡ frame bs)
    same = frame-append bs more

    go :
        (f : Frame)
        → frame bs ≡ f
        → Fits (length bs) f
        → next (bs ++ more) ≡ some (es, rest ++ more)
    go partial e fits = ground arith
    go noise e fits = ground (arith, same, drop-append 1 bs more)
    go corrupt e fits = ground (arith, same, drop-append 1 bs more)
    go (packet p) e fits = ground (arith, same, drop-append (length p + 6) bs more)

scan-append_up_to :
    (n : ℕ) (xs ys : List ℕ)
    → length xs ≤ n
    → scan (xs ++ ys) ≡ ((scan xs).0 ++ (scan ((scan xs).1 ++ ys)).0, (scan ((scan xs).1 ++ ys)).1)
scan-append_up_to zero xs ys h = elim (Option-cases (next xs)) [
  | inl e ↦ rw (scan-none xs e)
  | inr ((es, rest), e) ↦ absurd (omega (arith, next_shrinks xs es rest e))
]
scan-append_up_to (suc n) xs ys h = elim (Option-cases (next xs)) [
  | inl e ↦ rw (scan-none xs e)
  | inr ((es, rest), e) ↦
      let later = scan-append_up_to n rest ys (omega (arith, next_shrinks xs es rest e)) in
      let joined = scan-some (xs ++ ys) es (rest ++ ys) (next-append xs ys es rest e) in
      rw (joined, scan-some xs es rest e, later, append_assoc)
]

-- Bytes that arrive later are read as if they had been there at once: the first scan's events come
-- first, and its rest stands before them.
pub scan-append :
    (xs ys : List ℕ)
    → scan (xs ++ ys) ≡ ((scan xs).0 ++ (scan ((scan xs).1 ++ ys)).0, (scan ((scan xs).1 ++ ys)).1)
scan-append xs ys = scan-append_up_to (length xs) xs ys (omega arith)

-- What waits for more bytes is less than a packet of the greatest size.
pub next-none-lt : (bs : List ℕ) → next bs ≡ none → length bs < 262
unfolding next frame
next-none-lt bs h = ground arith
