-- ===== src/System/Worker/Effect.antt =====
-- What a move of a thread adds to what it has taken and put out.
use counter_drone_streaming.Base.{Bool, List, [], ◌∷◌, ◌++◌, ◌≡◌, refl, ap}
use counter_drone_streaming.System.Worker.{
  Worker, Act, silent, takes, finds_none, sends, logs_line, Thread, Move, starts, sends_out,
  logs_out, loops, goes_on, is_stopped, takes_item, leaves, ends,
}
use counter_drone_streaming.System.Worker.Run.{items}

items-snoc :
    {In R : Type 0} (xs : List (In × R)) (x : In) (r : R)
    → items (xs ++ ((x, r) ∷ [])) ≡ items xs ++ (x ∷ [])
items-snoc [] x r = refl
items-snoc ((y, q) ∷ xs) x r = ap (λ l. y ∷ l) (items-snoc xs x r)

module _ {In Out : Type 0} (W : Worker In Out) where
  -- What a move leaves alone, and what it adds.
  pub record Same (t t' : Thread W) : Type 0 where
    pub sent : t'.sent ≡ t.sent
    pub logged : t'.logged ≡ t.logged
    pub taken : items t'.taken ≡ items t.taken

  unchanged :
      {t t' : Thread W} → t'.sent ≡ t.sent → t'.logged ≡ t.logged → t'.taken ≡ t.taken → Same t t'
  unchanged e f g = record { sent = e; logged = f; taken = ap items g }

  unfoldable pub Does : Act In Out → Thread W → Thread W → Type 0
  Does silent t t' = Same t t'
  Does finds_none t t' = Same t t'
  Does (takes x) t t' =
      (t'.sent ≡ t.sent) × (t'.logged ≡ t.logged) × (items t'.taken ≡ items t.taken ++ (x ∷ []))
  Does (sends o) t t' =
      (t'.sent ≡ t.sent ++ (o ∷ [])) × (t'.logged ≡ t.logged) × (items t'.taken ≡ items t.taken)
  Does (logs_line m) t t' =
      (t'.sent ≡ t.sent) × (t'.logged ≡ t.logged ++ (m ∷ [])) × (items t'.taken ≡ items t.taken)

  pub Move-Does :
      {stop : Bool} {a : Act In Out} {t t' : Thread W} → Move W stop t a t' → Does a t t'
  unfolding Does
  Move-Does (starts r p) = unchanged refl refl refl
  Move-Does (sends_out o os b e) = (refl, refl, refl)
  Move-Does (logs_out m ms b e) = (refl, refl, refl)
  Move-Does (loops p d) = unchanged refl refl refl
  Move-Does (goes_on p q) = unchanged refl refl refl
  Move-Does (is_stopped r p q) = unchanged refl refl refl
  Move-Does {t} (takes_item r x s p e) = (refl, refl, items-snoc t.taken x r)
  Move-Does (leaves r p) = unchanged refl refl refl
  Move-Does (ends p d) = unchanged refl refl refl
