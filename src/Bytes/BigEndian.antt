-- ===== src/Bytes/BigEndian.antt =====
-- Network byte order: what `from_big_endian` returns for bytes copied off the wire.
use counter_drone_streaming.Base.{
  ℕ, zero, suc, ◌+◌, ◌*◌, ◌/◌, ◌%◌, ◌^◌, ◌<◌, ◌≡◌, refl, sym, ◌∙◌, ap, true, List, [], ◌∷◌, ◌++◌,
  ltb, arith, lt→ltb, All, All-append, length, length-append,
}
use counter_drone_streaming.Ring.Valid.{IsByte}
use mathlib.Core.List.{reverse, reverse-cons, reverse-reverse}
use native.Mathlib.Nat.{pow-suc}
use counter_drone_streaming.Bytes.{
  Endian, little, big, value_le, bytes_le, load, store, from_big_endian,
}

-- The value of some bytes, the highest first, behind `acc`.
pub value_be_from : ℕ → List ℕ → ℕ
value_be_from acc [] = acc
value_be_from acc (b ∷ bs) = value_be_from (acc * 256 + b) bs

unfoldable pub value_be : List ℕ → ℕ
unfolding value_be_from
value_be bs = value_be_from 0 bs

pow_shift : (k b : ℕ) → 256 ^ suc k * b ≡ 256 * (256 ^ k * b)
pow_shift k b = rw pow-suc (grind arith)

value_le-snoc :
    (xs : List ℕ) (b : ℕ) → value_le (xs ++ (b ∷ [])) ≡ value_le xs + 256 ^ length xs * b
unfolding value_le
value_le-snoc [] b = omega arith
value_le-snoc (x ∷ xs) b = omega (arith, value_le-snoc xs b, pow_shift (length xs) b)

length-reverse : (bs : List ℕ) → length (reverse bs) ≡ length bs
length-reverse [] = refl
length-reverse (b ∷ bs) =
    rw (reverse-cons b bs, length-append (reverse bs) (b ∷ []), length-reverse bs) (omega arith)

value_be_from_lem :
    (acc : ℕ) (bs : List ℕ) → value_be_from acc bs ≡ 256 ^ length bs * acc + value_le (reverse bs)
unfolding value_be_from value_le
value_be_from_lem acc [] = omega arith
value_be_from_lem acc (b ∷ bs) =
    rw
      (
        value_be_from_lem (acc * 256 + b) bs,
        reverse-cons b bs,
        value_le-snoc (reverse bs) b,
        length-reverse bs,
        pow_shift (length bs) acc,
      )
      (grind arith)

value_le-reverse : (bs : List ℕ) → value_le (reverse bs) ≡ value_be bs
unfolding value_be
value_le-reverse bs = omega (arith, value_be_from_lem 0 bs)

bytes_le-value_le :
    (n : ℕ) (bs : List ℕ) → All IsByte bs → length bs ≡ n → bytes_le n (value_le bs) ≡ bs
unfolding bytes_le value_le
bytes_le-value_le zero [] h e = refl
bytes_le-value_le zero (b ∷ bs) h e = absurd (omega arith)
bytes_le-value_le (suc n) [] h e = absurd (omega arith)
bytes_le-value_le (suc n) (b ∷ bs) h e =
    let low : (b + 256 * value_le bs) % 256 ≡ b = omega (arith, h.0) in
    let rest : (b + 256 * value_le bs) / 256 ≡ value_le bs = omega (arith, h.0) in
    rw (low, rest, bytes_le-value_le n bs h.1 (omega arith))

-- On a little-endian and on a big-endian machine alike, copying n bytes into an object of n bytes
-- and applying from_big_endian gives the number with the highest byte first.
pub from_big_endian-load :
    (e : Endian) (n : ℕ) (bs : List ℕ)
    → All IsByte bs
    → length bs ≡ n
    → from_big_endian e n (load e bs) ≡ value_be bs
unfolding from_big_endian load store value_be value_le
from_big_endian-load big n bs h k = value_le-reverse bs
from_big_endian-load little zero [] h k = refl
from_big_endian-load little zero (b ∷ bs) h k = absurd (omega arith)
from_big_endian-load little (suc zero) [] h k = absurd (omega arith)
from_big_endian-load little (suc zero) (b ∷ []) h k = omega arith
from_big_endian-load little (suc zero) (b ∷ c ∷ bs) h k = absurd (omega arith)
from_big_endian-load little (suc (suc n)) bs h k =
    let wide : ltb 1 (suc (suc n)) ≡ true = lt→ltb 1 (suc (suc n)) (omega arith) in
    rw (wide, bytes_le-value_le (suc (suc n)) bs h k) (value_le-reverse bs)

value_le-lt : (bs : List ℕ) → All IsByte bs → value_le bs < 256 ^ length bs
unfolding value_le
value_le-lt [] h = omega arith
value_le-lt (b ∷ bs) h = rw pow-suc (omega (arith, value_le-lt bs h.1, h.0))

All-reverse : (bs : List ℕ) → All IsByte bs → All IsByte (reverse bs)
All-reverse [] h = tt
All-reverse (b ∷ bs) h =
    rw (reverse-cons b bs) (All-append IsByte (reverse bs) (b ∷ []) (All-reverse bs h.1) (h.0, tt))

-- So many bytes hold no more than they can.
pub value_be-lt : (bs : List ℕ) → All IsByte bs → value_be bs < 256 ^ length bs
value_be-lt bs h =
    rw (← value_le-reverse bs, ← length-reverse bs) (value_le-lt (reverse bs) (All-reverse bs h))

-- The highest byte first, as a program that packs the wire format writes a number.
unfoldable pub bytes_be : ℕ → ℕ → List ℕ
bytes_be n v = reverse (bytes_le n v)

bytes_le-All : (n v : ℕ) → All IsByte (bytes_le n v)
unfolding bytes_le
bytes_le-All zero v = tt
bytes_le-All (suc n) v = (omega arith, bytes_le-All n (v / 256))

pub bytes_be-All : (n v : ℕ) → All IsByte (bytes_be n v)
unfolding bytes_be
bytes_be-All n v = All-reverse _ (bytes_le-All n v)

length-bytes_le : (n v : ℕ) → length (bytes_le n v) ≡ n
unfolding bytes_le
length-bytes_le zero v = refl
length-bytes_le (suc n) v = ap suc (length-bytes_le n (v / 256))

pub length-bytes_be : (n v : ℕ) → length (bytes_be n v) ≡ n
unfolding bytes_be
length-bytes_be n v = length-reverse (bytes_le n v) ∙ length-bytes_le n v

value_le-bytes_le : (n v : ℕ) → v < 256 ^ n → value_le (bytes_le n v) ≡ v
unfolding bytes_le value_le
value_le-bytes_le zero v h = omega arith
value_le-bytes_le (suc n) v h =
    let high : v / 256 < 256 ^ n = omega (arith, pow-suc 256 n) in
    rw (value_le-bytes_le n (v / 256) high) (omega arith)

-- A number that fits is read back from its bytes.
pub value_be-bytes_be : (n v : ℕ) → v < 256 ^ n → value_be (bytes_be n v) ≡ v
unfolding bytes_be
value_be-bytes_be n v h =
    sym (value_le-reverse (reverse (bytes_le n v)))
    ∙ ap value_le (reverse-reverse (bytes_le n v))
    ∙ value_le-bytes_le n v h
