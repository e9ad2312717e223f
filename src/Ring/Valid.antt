-- ===== src/Ring/Valid.antt =====
-- The representation invariant of `RingBuffer`, and how its indices move.
use counter_drone_streaming.Base.{
  ℕ, ◌+◌, ◌-◌, ◌%◌, ◌^◌, ◌≤◌, ◌<◌, ◌≡◌, ap, arith, length, All, ltb, if◌then◌else◌,
  length-replicate, All-replicate,
}
use native.Mathlib.Nat.{mod-add-mod, mod-eq_of_lt, mod-eq-sub-mod}
use counter_drone_streaming.Ring.{Ring, create, free_space}

abbrev pub IsByte : ℕ → Type 0
IsByte b = b < 256

-- `std::vector<std::byte>` holds fewer than 2 ^ 63 bytes.
pub record IsValid (r : Ring) : Type 0 where
  pub storage : length r.buf ≡ r.capacity
  pub nonempty : 0 < r.capacity
  pub small : r.capacity < 2 ^ 63
  pub tail_in : r.tail < r.capacity
  pub count_in : r.count ≤ r.capacity
  pub head_at : r.head ≡ (r.tail + r.count) % r.capacity
  pub bytes : All IsByte r.buf

-- One step round the ring.
pub mod_wrap :
    (a n c : ℕ) → a < c → n ≤ c → (a + n) % c ≡ (if ltb (a + n) c then a + n else a + n - c)
mod_wrap a n c h k = grind (
  arith,
  mod-eq_of_lt {n = a + n} {m = c},
  mod-eq-sub-mod {n = a + n} {m = c},
  mod-eq_of_lt {n = a + n - c} {m = c},
)

-- Two steps round the ring are one.
pub mod_shift : (a n m c : ℕ) → ((a + n) % c + m) % c ≡ (a + (n + m)) % c
mod_shift a n m c = rw mod-add-mod (ap (λ k. k % c) (omega arith))

pub create-IsValid : (cap : ℕ) → 0 < cap → cap < 2 ^ 63 → IsValid (create cap)
unfolding create
create-IsValid cap h k = record {
  storage = length-replicate cap 0;
  nonempty = h;
  small = k;
  tail_in = h;
  count_in = omega arith;
  head_at = grind arith;
  bytes = All-replicate IsByte cap 0 (omega arith);
}

pub free_space_lem : {r : Ring} → IsValid r → free_space r ≡ r.capacity - r.count
unfolding free_space
free_space_lem v = omega arith

-- The head index lies in the array, where the unread bytes end.
pub head_wrap :
    {r : Ring}
    → IsValid r
    → r.head ≡ (
        if ltb (r.tail + r.count) r.capacity
        then r.tail + r.count
        else r.tail + r.count - r.capacity)
head_wrap {r} v = ground (arith, mod_wrap r.tail r.count r.capacity)
