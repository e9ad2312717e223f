-- ===== src/Wire/Damage.antt =====
-- A packet that is damaged on the way.
use counter_drone_streaming.Base.{
  ℕ, ◌≤◌, ◌<◌, ◌≡◌, refl, sym, ◌∙◌, ap, arith, false, List, ◌∷◌, ◌++◌, length, All, All-append,
  ◌==◌, length-append, append_assoc, Bool-cases, inl, inr, ==_iff,
}
use mathlib.Core.Path.{subst}
use counter_drone_streaming.Ring.Valid.{IsByte}
use counter_drone_streaming.Telemetry.{packet_header}
use counter_drone_streaming.Bytes.BigEndian.{bytes_be, bytes_be-All}
use counter_drone_streaming.Crc.{compute_crc16}
use counter_drone_streaming.Crc.Detect.{compute_crc16_detects, compute_crc16_lem, crc_loop-lt}
use counter_drone_streaming.Client.Frame.{corrupt, frame}
use counter_drone_streaming.Wire.{raw_packet}
use counter_drone_streaming.Wire.Framing.{frame-raw_packet}

-- The checksum that belongs to a payload.
abbrev pub checksum_of : List ℕ → ℕ
checksum_of p = compute_crc16 (raw_packet p) (length (raw_packet p))

raw_packet-All : (p : List ℕ) → All IsByte p → All IsByte (raw_packet p)
unfolding raw_packet
raw_packet-All p h =
    All-append IsByte (bytes_be 2 packet_header) _ (bytes_be-All 2 packet_header)
      (All-append IsByte (bytes_be 2 (length p)) p (bytes_be-All 2 (length p)) h)

-- The packet up to the place of the damage, for a payload of `n` bytes.
front : ℕ → List ℕ → List ℕ
front n xs = bytes_be 2 packet_header ++ (bytes_be 2 n ++ xs)

raw_packet-front :
    (xs ys : List ℕ) (n : ℕ) → length (xs ++ ys) ≡ n → raw_packet (xs ++ ys) ≡ front n xs ++ ys
unfolding raw_packet front
raw_packet-front xs ys n e = rw e (simp append_assoc)

same_length :
    (xs ys : List ℕ) (a b c d : ℕ) → length (xs ++ (c ∷ d ∷ ys)) ≡ length (xs ++ (a ∷ b ∷ ys))
same_length xs ys a b c d =
    omega (arith, length-append xs (a ∷ b ∷ ys), length-append xs (c ∷ d ∷ ys))

detects :
    (xs ys : List ℕ) (a b c d : ℕ)
    → All IsByte (xs ++ (a ∷ b ∷ ys))
    → All IsByte (xs ++ (c ∷ d ∷ ys))
    → checksum_of (xs ++ (a ∷ b ∷ ys)) ≡ checksum_of (xs ++ (c ∷ d ∷ ys))
    → (a ≡ c) × (b ≡ d)
detects xs ys a b c d h k e =
    compute_crc16_detects (front n xs) ys a b c d (subst (All IsByte) sent (raw_packet-All _ h))
      (subst (All IsByte) got (raw_packet-All _ k)) (ap checksum (sym sent) ∙ e ∙ ap checksum got)
  where
    n : ℕ
    n = length (xs ++ (a ∷ b ∷ ys))

    checksum : List ℕ → ℕ
    checksum bs = compute_crc16 bs (length bs)

    sent : raw_packet (xs ++ (a ∷ b ∷ ys)) ≡ front n xs ++ (a ∷ b ∷ ys)
    sent = raw_packet-front xs (a ∷ b ∷ ys) n refl

    got : raw_packet (xs ++ (c ∷ d ∷ ys)) ≡ front n xs ++ (c ∷ d ∷ ys)
    got = raw_packet-front xs (c ∷ d ∷ ys) n (same_length xs ys a b c d)

-- A payload of at most 256 bytes of which one byte or two neighbouring ones were changed, behind a
-- header and length and before the checksum of what was sent, makes a corrupt frame, whatever
-- follows.
pub frame-damaged :
    (xs ys : List ℕ) (a b c d : ℕ) (rest : List ℕ)
    → All IsByte (xs ++ (a ∷ b ∷ ys))
    → All IsByte (xs ++ (c ∷ d ∷ ys))
    → length (xs ++ (a ∷ b ∷ ys)) ≤ 256
    → ¬ ((a ≡ c) × (b ≡ d))
    → frame
        (raw_packet (xs ++ (c ∷ d ∷ ys)) ++ (bytes_be 2 (checksum_of (xs ++ (a ∷ b ∷ ys))) ++ rest))
      ≡ corrupt
frame-damaged xs ys a b c d rest h k small differ =
    frame-raw_packet got (checksum_of sent) rest (omega (arith, length-append xs (c ∷ d ∷ ys)))
      (omega (arith, same_length xs ys a b c d)) fits
    ∙ rw wrong
  where
    sent : List ℕ
    sent = xs ++ (a ∷ b ∷ ys)

    got : List ℕ
    got = xs ++ (c ∷ d ∷ ys)

    fits : checksum_of sent < 65536
    fits = omega (
      arith,
      compute_crc16_lem (raw_packet sent),
      crc_loop-lt 0xFFFF (raw_packet sent) (omega arith) (raw_packet-All sent h),
    )

    wrong : (checksum_of sent == checksum_of got) ≡ false
    wrong = elim (Bool-cases (checksum_of sent == checksum_of got)) [
      | inl same ↦ absurd (differ (detects xs ys a b c d h k ((==_iff _ _).0 same)))
      | inr other ↦ other
    ]
