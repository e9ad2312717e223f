-- ===== src/Table/Laws.antt =====
-- What a lookup finds after each operation, and the length of the table.
use counter_drone_streaming.Base.{
  ◌+◌, length, Bool, true, false, Option, List, [], ◌∷◌, none, some, if◌then◌else◌, ◌≡◌, arith,
  refl,
}
use counter_drone_streaming.Table.{Eq, find?, put, remove}

abbrev pub is_some {ℓ} : {A : Type ℓ} → Option A → Bool
is_some none = false
is_some (some a) = true

module _ {K V : Type 0} ⦃eq : Eq K⦄ where
  pub find?-put :
      (k j : K) (v : V) (m : List (K × V))
      → find? j (put k v m) ≡ (if eq.beq k j then some v else find? j m)
  unfolding find? put
  find?-put k j v [] = refl
  find?-put k j v ((i, w) ∷ m) =
      ground (arith, eq.beq_iff i k, eq.beq_iff i j, eq.beq_iff k j, find?-put k j v m)

  pub find?-remove :
      (k j : K) (m : List (K × V)) → find? j (remove k m) ≡ (if eq.beq k j then none else find? j m)
  unfolding find? remove
  find?-remove k j [] = ground arith
  find?-remove k j ((i, w) ∷ m) =
      ground (arith, eq.beq_iff i k, eq.beq_iff i j, eq.beq_iff k j, find?-remove k j m)

  -- A new key makes the table longer by one.
  pub length-put :
      (k : K) (v : V) (m : List (K × V))
      → length (put k v m) ≡ length m + (if is_some (find? k m) then 0 else 1)
  unfolding find? put
  length-put k v [] = refl
  length-put k v ((j, w) ∷ m) = ground (arith, length-put k v m)
