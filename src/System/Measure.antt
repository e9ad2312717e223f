-- ===== src/System/Measure.antt =====
-- Tuples of numbers in lexicographic order.
use mathlib.Core.WellFounded.{Acc}
use counter_drone_streaming.Base.{ℕ, zero, suc, ◌<◌, ◌⊎◌, inl, inr, ◌≡◌, sym, arith, subst}

abbrev pub Measure : ℕ → Type 0
Measure zero = Unit
Measure (suc n) = ℕ × Measure n

-- The first place where the two differ is smaller.
abbrev pub Below : (n : ℕ) → Measure n → Measure n → Type 0
Below zero x y = ⊥
Below (suc n) (a, x) (b, y) = (a < b) ⊎ ((a ≡ b) × Below n x y)

-- A tuple, by the smaller first numbers and, for the same one, by the smaller rests.
rest-Acc :
    (n a : ℕ)
    → ((b : ℕ) → b < a → (x : Measure n) → Acc (Below (suc n)) (b, x))
    → (x : Measure n) → Acc (Below n) x
    → Acc (Below (suc n)) (a, x)
rest-Acc n a firsts x (Acc.intro _ below) =
    Acc.intro (a, x)
      λ (b, y) less. elim less [
        | inl smaller ↦ firsts b smaller y
        | inr (same, rest) ↦
            subst (λ c. Acc (Below (suc n)) (c, y)) (sym same)
              (rest-Acc n a firsts y (below y rest))
      ]

first-Acc :
    (n : ℕ)
    → ((x : Measure n) → Acc (Below n) x)
    → (k a : ℕ) → a < k
    → (x : Measure n) → Acc (Below (suc n)) (a, x)
first-Acc n rests zero a h x = absurd (omega (arith, h))
first-Acc n rests (suc k) a h x =
    rest-Acc n a (λ b smaller. first-Acc n rests k b (omega (arith, smaller, h))) x (rests x)

pub Below-Acc : (n : ℕ) (x : Measure n) → Acc (Below n) x
Below-Acc zero x = Acc.intro x (λ y less. absurd less)
Below-Acc (suc n) (a, x) = first-Acc n (Below-Acc n) (suc a) a (omega arith) x
