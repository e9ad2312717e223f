-- ===== src/Client/Scan.antt =====
-- Laws of the stateless scan: it always moves on, and enough rounds are as good as more.
use counter_drone_streaming.Base.{
  ℕ, zero, suc, ◌+◌, ◌≤◌, ◌<◌, ◌≡◌, refl, arith, List, [], ◌∷◌, ◌++◌, drop, length, some, none,
  length-drop, length-take, Option-cases, inl, inr,
}
use counter_drone_streaming.Payload.Decode.{field}
use counter_drone_streaming.Client.{Outputs}
use counter_drone_streaming.Client.Frame.{
  Frame, Event, partial, noise, corrupt, packet, frame, next, scan_from, scan, report, reports,
}

-- A frame that can be told lies within the bytes.
abbrev pub Fits : ℕ → Frame → Type 0
Fits len partial = Unit {0}
Fits len noise = 2 ≤ len
Fits len corrupt = 2 ≤ len
Fits len (packet p) = length p + 6 ≤ len

pub frame-Fits : (bs : List ℕ) → Fits (length bs) (frame bs)
unfolding frame
frame-Fits bs = ground (arith, length-take (field 2 2 bs) (drop 4 bs), length-drop 4 bs)

pub next_shrinks :
    (bs : List ℕ) (es : List Event) (rest : List ℕ)
    → next bs ≡ some (es, rest)
    → (length rest < length bs) × (2 ≤ length bs)
unfolding next
next_shrinks bs es rest h = go (frame bs) refl (frame-Fits bs)
  where
    go :
        (f : Frame)
        → frame bs ≡ f
        → Fits (length bs) f
        → (length rest < length bs) × (2 ≤ length bs)
    go partial e fits = ground arith
    go noise e fits = ground (arith, length-drop 1 bs)
    go corrupt e fits = ground (arith, length-drop 1 bs)
    go (packet p) e fits = ground (arith, length-drop (length p + 6) bs)

pub scan_from_enough :
    (n m : ℕ) (bs : List ℕ) → length bs ≤ n → length bs ≤ m → scan_from n bs ≡ scan_from m bs
unfolding scan_from
scan_from_enough zero zero bs p q = refl
scan_from_enough zero (suc m) bs p q = elim (Option-cases (next bs)) [
  | inl e ↦ rw (e, scan_from)
  | inr ((es, rest), e) ↦ absurd (omega (arith, next_shrinks bs es rest e))
]
scan_from_enough (suc n) zero bs p q = elim (Option-cases (next bs)) [
  | inl e ↦ rw (e, scan_from)
  | inr ((es, rest), e) ↦ absurd (omega (arith, next_shrinks bs es rest e))
]
scan_from_enough (suc n) (suc m) bs p q = elim (Option-cases (next bs)) [
  | inl e ↦ rw (e, scan_from)
  | inr ((es, rest), e) ↦
      let less = next_shrinks bs es rest e in
      rw (e, scan_from, scan_from_enough n m rest (omega arith) (omega arith))
]

-- The scan, round by round.
pub scan-none : (bs : List ℕ) → next bs ≡ none → scan bs ≡ ([], bs)
unfolding scan scan_from
scan-none [] e = refl
scan-none (b ∷ bs) e = rw (e, scan, scan_from)

pub scan-some :
    (bs : List ℕ) (es : List Event) (rest : List ℕ)
    → next bs ≡ some (es, rest)
    → scan bs ≡ (es ++ (scan rest).0, (scan rest).1)
unfolding scan scan_from
scan-some [] es rest e = absurd (omega (arith, next_shrinks [] es rest e))
scan-some (b ∷ bs) es rest e =
    let less = next_shrinks (b ∷ bs) es rest e in
    rw (
      e,
      scan,
      scan_from,
      scan_from_enough (length bs) (length rest) rest (omega arith) (omega arith),
    )

pub reports-append :
    (es fs : List Event) (o : Outputs) → reports (es ++ fs) o ≡ reports fs (reports es o)
unfolding reports
reports-append [] fs o = refl
reports-append (ev ∷ es) fs o = reports-append es fs (report ev o)

scan_rest_up_to : (n : ℕ) (bs : List ℕ) → length bs ≤ n → next (scan bs).1 ≡ none
scan_rest_up_to zero bs h = elim (Option-cases (next bs)) [
  | inl e ↦ rw (scan-none bs e) e
  | inr ((es, rest), e) ↦ absurd (omega (arith, next_shrinks bs es rest e))
]
scan_rest_up_to (suc n) bs h = elim (Option-cases (next bs)) [
  | inl e ↦ rw (scan-none bs e) e
  | inr ((es, rest), e) ↦
      rw (scan-some bs es rest e)
        (scan_rest_up_to n rest (omega (arith, next_shrinks bs es rest e)))
]

-- A scan leaves only what waits for more.
pub scan_rest : (bs : List ℕ) → next (scan bs).1 ≡ none
scan_rest bs = scan_rest_up_to (length bs) bs (omega arith)
