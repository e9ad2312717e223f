-- ===== src/Crc/Detect.antt =====
-- Checksums of byte strings that differ in two neighbouring bytes.
use counter_drone_streaming.Base.{
  ℕ, zero, suc, ◌+◌, ◌/◌, ◌%◌, ◌^◌, ◌≤◌, ◌<◌, ◌≡◌, refl, sym, ◌∙◌, ap, arith, Bool, true, ◌&&◌,
  ◌||◌, leb, ◌==◌, List, [], ◌∷◌, ◌++◌, All, All-left, All-right, length, take, take-take,
  take-append, take-length,
}
use Prim.Native.Nat.{bit_xor}
use counter_drone_streaming.Ring.Valid.{IsByte}
use counter_drone_streaming.Crc.{crc_bit, crc_bits, crc_byte, crc_loop, compute_crc16, polynomial}
use counter_drone_streaming.Crc.Xor.{
  bit_xor_step, zero-bit_xor, bit_xor_comm, bit_xor-injective, bit_xor-lt, bit_xor-high,
  bit_xor_assoc, bit_xor_self, eq_of_bit_xor, bit_xor_regroup,
}

-- The polynomial sets the highest of the sixteen digits.
high_digit :
    (a : ℕ) → a < 2 ^ 15 → (2 ^ 15 ≤ bit_xor a polynomial) × (bit_xor a polynomial < 2 ^ 16)
high_digit a h = (
  omega (arith, bit_xor-high 15 a 0x2001 h (omega arith)),
  bit_xor-lt 16 a polynomial (omega arith) (omega arith),
)

pub crc_bit-lt : (a : ℕ) → a < 2 ^ 16 → crc_bit a < 2 ^ 16
unfolding crc_bit
crc_bit-lt a h = ground (arith, high_digit (a / 2))

crc_bit-injective : (a b : ℕ) → a < 2 ^ 16 → b < 2 ^ 16 → crc_bit a ≡ crc_bit b → a ≡ b
unfolding crc_bit
crc_bit-injective a b p q h =
    ground
      (arith, high_digit (a / 2), high_digit (b / 2), bit_xor-injective (a / 2) (b / 2) polynomial)

half_bit_xor :
    (a b : ℕ)
    → (bit_xor a b / 2 ≡ bit_xor (a / 2) (b / 2)) × (bit_xor a b % 2 ≡ (a % 2 + b % 2) % 2)
half_bit_xor a b = (omega (arith, bit_xor_step a b), omega (arith, bit_xor_step a b))

-- One round is linear.
crc_bit-bit_xor : (a b : ℕ) → crc_bit (bit_xor a b) ≡ bit_xor (crc_bit a) (crc_bit b)
unfolding crc_bit
crc_bit-bit_xor a b = ground (
  arith,
  half_bit_xor a b,
  bit_xor_regroup (a / 2) polynomial (b / 2) polynomial,
  bit_xor_self polynomial,
  bit_xor_comm (bit_xor (a / 2) (b / 2)) 0,
  zero-bit_xor (bit_xor (a / 2) (b / 2)),
  bit_xor_assoc (a / 2) (b / 2) polynomial,
  bit_xor_comm (b / 2) polynomial,
  bit_xor_assoc (a / 2) polynomial (b / 2),
)

crc_bits-bit_xor : (n a b : ℕ) → crc_bits n (bit_xor a b) ≡ bit_xor (crc_bits n a) (crc_bits n b)
unfolding crc_bits
crc_bits-bit_xor zero a b = refl
crc_bits-bit_xor (suc n) a b =
    ap (crc_bits n) (crc_bit-bit_xor a b) ∙ crc_bits-bit_xor n (crc_bit a) (crc_bit b)

crc_bits-lt : (n a : ℕ) → a < 2 ^ 16 → crc_bits n a < 2 ^ 16
unfolding crc_bits
crc_bits-lt zero a h = h
crc_bits-lt (suc n) a h = crc_bits-lt n (crc_bit a) (crc_bit-lt a h)

crc_bits-injective : (n a b : ℕ) → a < 2 ^ 16 → b < 2 ^ 16 → crc_bits n a ≡ crc_bits n b → a ≡ b
unfolding crc_bits
crc_bits-injective zero a b p q h = h
crc_bits-injective (suc n) a b p q h =
    crc_bit-injective a b p q
      (crc_bits-injective n (crc_bit a) (crc_bit b) (crc_bit-lt a p) (crc_bit-lt b q) h)

byte_bit_xor-lt : (c b : ℕ) → c < 2 ^ 16 → IsByte b → bit_xor c b < 2 ^ 16
byte_bit_xor-lt c b h k = bit_xor-lt 16 c b h (omega arith)

pub crc_byte-lt : (c b : ℕ) → c < 2 ^ 16 → IsByte b → crc_byte c b < 2 ^ 16
unfolding crc_byte
crc_byte-lt c b h k = crc_bits-lt 8 (bit_xor c b) (byte_bit_xor-lt c b h k)

pub crc_loop-lt : (c : ℕ) (bs : List ℕ) → c < 2 ^ 16 → All IsByte bs → crc_loop c bs < 2 ^ 16
unfolding crc_loop
crc_loop-lt c [] h k = h
crc_loop-lt c (b ∷ bs) h k = crc_loop-lt (crc_byte c b) bs (crc_byte-lt c b h k.0) k.1

-- Two runs over the same bytes meet only if they started together.
crc_loop-injective :
    (c d : ℕ) (bs : List ℕ)
    → c < 2 ^ 16
    → d < 2 ^ 16
    → All IsByte bs
    → crc_loop c bs ≡ crc_loop d bs
    → c ≡ d
unfolding crc_loop crc_byte
crc_loop-injective c d [] p q k h = h
crc_loop-injective c d (b ∷ bs) p q k h = bit_xor-injective c d b (
    crc_bits-injective 8 (bit_xor c b) (bit_xor d b) (byte_bit_xor-lt c b p k.0)
      (byte_bit_xor-lt d b q k.0)
      (crc_loop-injective (crc_byte c b) (crc_byte d b) bs (crc_byte-lt c b p k.0)
        (crc_byte-lt d b q k.0) k.1 h))

crc_loop-append : (c : ℕ) (xs ys : List ℕ) → crc_loop c (xs ++ ys) ≡ crc_loop (crc_loop c xs) ys
unfolding crc_loop
crc_loop-append c [] ys = refl
crc_loop-append c (x ∷ xs) ys = crc_loop-append (crc_byte c x) xs ys

-- A damaged byte shows above the eight lowest digits: checked for each of the 255 differences.
all_below : ℕ → (ℕ → Bool) → Bool
all_below zero p = true
all_below (suc n) p = p n && all_below n p

all_below_lem : (n : ℕ) (p : ℕ → Bool) (x : ℕ) → all_below n p ≡ true → x < n → p x ≡ true
unfolding all_below
all_below_lem zero p x h l = absurd (omega arith)
all_below_lem (suc n) p x h l = ground (arith, all_below_lem n p x)

differences : all_below 256 (λ d. d == 0 || leb 256 (crc_bits 8 d)) ≡ true
unfolding all_below crc_bits crc_bit
differences = refl

difference_high : (d : ℕ) → d < 256 → crc_bits 8 d < 256 → d ≡ 0
difference_high d h k =
    ground (arith, all_below_lem 256 (λ d. d == 0 || leb 256 (crc_bits 8 d)) d differences h)

two_bytes :
    (c x₁ x₂ y₁ y₂ : ℕ)
    → c < 2 ^ 16
    → IsByte x₁
    → IsByte x₂
    → IsByte y₁
    → IsByte y₂
    → crc_byte (crc_byte c x₁) x₂ ≡ crc_byte (crc_byte c y₁) y₂
    → (x₁ ≡ y₁) × (x₂ ≡ y₂)
unfolding crc_byte
two_bytes c x₁ x₂ y₁ y₂ hc p₁ p₂ q₁ q₂ h = (first, second)
  where
    met : bit_xor (crc_byte c x₁) x₂ ≡ bit_xor (crc_byte c y₁) y₂
    met =
        crc_bits-injective 8 _ _ (byte_bit_xor-lt _ x₂ (crc_byte-lt c x₁ hc p₁) p₂)
          (byte_bit_xor-lt _ y₂ (crc_byte-lt c y₁ hc q₁) q₂) h

    apart : bit_xor (crc_byte c x₁) (crc_byte c y₁) ≡ bit_xor x₂ y₂
    apart = eq_of_bit_xor _ _ (
        bit_xor_regroup (crc_byte c x₁) (crc_byte c y₁) x₂ y₂
        ∙ ap (λ t. bit_xor t (bit_xor (crc_byte c y₁) y₂)) met
        ∙ bit_xor_self _)

    joined : crc_bits 8 (bit_xor x₁ y₁) ≡ bit_xor x₂ y₂
    joined =
        ap (crc_bits 8) (
          sym (
            bit_xor_regroup c x₁ c y₁
            ∙ ap (λ t. bit_xor t (bit_xor x₁ y₁)) (bit_xor_self c)
            ∙ zero-bit_xor (bit_xor x₁ y₁)))
        ∙ crc_bits-bit_xor 8 (bit_xor c x₁) (bit_xor c y₁)
        ∙ apart

    first : x₁ ≡ y₁
    first = eq_of_bit_xor x₁ y₁ (
        difference_high (bit_xor x₁ y₁) (bit_xor-lt 8 x₁ y₁ p₁ q₁)
          (omega (arith, joined, bit_xor-lt 8 x₂ y₂ p₂ q₂)))

    second : x₂ ≡ y₂
    second = bit_xor-injective x₂ y₂ (crc_byte c y₁) (
        bit_xor_comm x₂ (crc_byte c y₁)
        ∙ ap (λ t. bit_xor (crc_byte c t) x₂) (sym first)
        ∙ met
        ∙ bit_xor_comm (crc_byte c y₁) y₂)

pub compute_crc16_lem : (bs : List ℕ) → compute_crc16 bs (length bs) ≡ crc_loop 0xFFFF bs
unfolding compute_crc16
compute_crc16_lem bs = ap (crc_loop 0xFFFF) (take-length bs)

-- The checksum of a prefix does not depend on what follows it.
pub compute_crc16-take :
    (n m : ℕ) (bs : List ℕ) → n ≤ m → compute_crc16 (take m bs) n ≡ compute_crc16 bs n
unfolding compute_crc16
compute_crc16-take n m bs h = ap (crc_loop 0xFFFF) (take-take n m bs h)

pub compute_crc16-append :
    (n : ℕ) (bs more : List ℕ) → n ≤ length bs → compute_crc16 (bs ++ more) n ≡ compute_crc16 bs n
unfolding compute_crc16
compute_crc16-append n bs more h = ap (crc_loop 0xFFFF) (take-append n bs more h)

-- Two byte strings of one length that differ at most within two neighbouring bytes have equal
-- checksums only if those bytes are equal.
pub compute_crc16_detects :
    (xs ys : List ℕ) (a b c d : ℕ)
    → All IsByte (xs ++ (a ∷ b ∷ ys))
    → All IsByte (xs ++ (c ∷ d ∷ ys))
    → let sent = xs ++ (a ∷ b ∷ ys) in
      let got = xs ++ (c ∷ d ∷ ys) in
      compute_crc16 sent (length sent) ≡ compute_crc16 got (length got) → (a ≡ c) × (b ≡ d)
unfolding crc_loop
compute_crc16_detects xs ys a b c d h k e =
    two_bytes start a b c d started h'.0 h'.1.0 k'.0 k'.1.0 met
  where
    start : ℕ
    start = crc_loop 0xFFFF xs

    started : start < 2 ^ 16
    started = crc_loop-lt 0xFFFF xs (omega arith) (All-left IsByte xs (a ∷ b ∷ ys) h)

    h' : All IsByte (a ∷ b ∷ ys)
    h' = All-right IsByte xs (a ∷ b ∷ ys) h

    k' : All IsByte (c ∷ d ∷ ys)
    k' = All-right IsByte xs (c ∷ d ∷ ys) k

    reached : (x y : ℕ) → IsByte x → IsByte y → crc_byte (crc_byte start x) y < 2 ^ 16
    reached x y p q = crc_byte-lt (crc_byte start x) y (crc_byte-lt start x started p) q

    same : crc_loop (crc_byte (crc_byte start a) b) ys ≡ crc_loop (crc_byte (crc_byte start c) d) ys
    same =
        sym (compute_crc16_lem (xs ++ (a ∷ b ∷ ys)) ∙ crc_loop-append 0xFFFF xs (a ∷ b ∷ ys))
        ∙ e
        ∙ compute_crc16_lem (xs ++ (c ∷ d ∷ ys))
        ∙ crc_loop-append 0xFFFF xs (c ∷ d ∷ ys)

    met : crc_byte (crc_byte start a) b ≡ crc_byte (crc_byte start c) d
    met = crc_loop-injective _ _ ys (reached a b h'.0 h'.1.0) (reached c d k'.0 k'.1.0) h'.1.1 same
