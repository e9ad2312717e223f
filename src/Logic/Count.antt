-- ===== src/Logic/Count.antt =====
-- `active_drone_count`: how many drones are in the table.
use counter_drone_streaming.Base.{
  ℕ, ◌+◌, Bool, false, ◌||◌, List, [], ◌∷◌, length, if◌then◌else◌, ◌≡◌, refl, arith, Bool-cases,
  inl, inr, ◌∙◌, ap,
}
use counter_drone_streaming.Telemetry.{Telemetry}
use counter_drone_streaming.Table.{find?, put, bytes_eq, bytes_eq_iff, id_key}
use counter_drone_streaming.Table.Laws.{is_some, find?-put, length-put}
use counter_drone_streaming.Logic.{Timing, Logic, handle_packet, handle_packets, active_drone_count}
use counter_drone_streaming.Logic.Tracking.{handle_packet-Handled}

abbrev pub elem : List ℕ → List (List ℕ) → Bool
elem x [] = false
elem x (y ∷ ys) = bytes_eq x y || elem x ys

-- How many different names stand in the list that are not yet seen: each is counted where it stands
-- for the last time.
unfoldable pub count_new : (List ℕ → Bool) → List (List ℕ) → ℕ
count_new seen [] = 0
count_new seen (x ∷ xs) = (if seen x || elem x xs then 0 else 1) + count_new seen xs

abbrev pub ids : {X : Type 0} → List (Telemetry × X) → List (List ℕ)
ids [] = []
ids ((t, _) ∷ ps) = t.drone_id ∷ ids ps

abbrev also : List ℕ → (List ℕ → Bool) → List ℕ → Bool
also x seen y = bytes_eq x y || seen y

abbrev has : List (List ℕ × Telemetry) → List ℕ → Bool
has m id = is_some (find? id m)

count_new-also :
    (x : List ℕ) (seen : List ℕ → Bool) (xs : List (List ℕ))
    → count_new seen xs
      ≡ count_new (also x seen) xs + (if seen x then 0 else if elem x xs then 1 else 0)
unfolding count_new
count_new-also x seen [] = ground arith
count_new-also x seen (y ∷ ys) = elim (Bool-cases (bytes_eq x y)) [
  | inl same ↦
      let e : x ≡ y = (bytes_eq_iff x y).0 same in
      ground (arith, count_new-also x seen ys, same, ap seen e, ap (λ z. elem z ys) e)
  | inr other ↦ ground (arith, count_new-also x seen ys, other)
]

has-put :
    (k j : List ℕ) (v : Telemetry) (m : List (List ℕ × Telemetry))
    → has (put k v m) j ≡ also k (has m) j
has-put k j v m = elim (Bool-cases (bytes_eq k j)) [
  | inl hit ↦ rw (find?-put k j v m, hit) refl
  | inr miss ↦ rw (find?-put k j v m, miss) refl
]

count_lem :
    {T : Timing} (ps : List (Telemetry × T.Time)) (l : Logic T) (seen : List ℕ → Bool)
    → ((j : List ℕ) → has l.drones j ≡ seen j)
    → length (handle_packets ps l).drones ≡ length l.drones + count_new seen (ids ps)
unfolding handle_packets count_new
count_lem [] l seen h = omega arith
count_lem ((t, now) ∷ ps) l seen h =
    let k = t.drone_id in
    let d = (handle_packet-Handled t now l).drones in
    let more = ap length d ∙ length-put k t l.drones in
    let tracks : (j : List ℕ) → has (handle_packet t now l).drones j ≡ also k seen j =
      λ j. rw (d, has-put k j t l.drones, h j) refl in
    let later = count_lem ps (handle_packet t now l) (also k seen) tracks in
    ground (arith, later, more, h k, count_new-also k seen (ids ps))

-- From an empty table, the drone count is the number of different drone ids among the packets.
pub active_drone_count_lem :
    (T : Timing) (ps : List (Telemetry × T.Time)) (l : Logic T)
    → l.drones ≡ []
    → active_drone_count (handle_packets ps l) ≡ count_new (λ id. false) (ids ps)
unfolding active_drone_count find?
active_drone_count_lem T ps l h =
    omega (arith, count_lem ps l (λ id. false) (λ j. rw h refl), ap length h)
