-- ===== src/System/Worker/Run.antt =====
-- What a thread has done after some moves: its state is that of its `run` on the items it has taken.
use counter_drone_streaming.Base.{
  Bool, true, false, List, [], ◌∷◌, ◌++◌, Option, some, none, ◌≡◌, refl, sym, ◌∙◌, arith,
  append_assoc, Extends, Extends-trans, ◌≢◌, subst, Option-cases, inl, inr,
}
use counter_drone_streaming.System.Worker.{
  Worker, Phase, starting, testing, popping, publishing, closing, ended, Act, silent, takes,
  finds_none, sends, logs_line, Thread, IsPublished, Move, starts, sends_out, logs_out, loops,
  goes_on, is_stopped, takes_item, leaves, ends,
}

abbrev pub in_loop : Phase → Bool
in_loop testing = true
in_loop popping = true
in_loop publishing = true
in_loop starting = false
in_loop closing = false
in_loop ended = false

abbrev pub is_over : Phase → Bool
is_over closing = true
is_over ended = true
is_over starting = false
is_over testing = false
is_over popping = false
is_over publishing = false

-- The items alone.
abbrev pub items : {In R : Type 0} → List (In × R) → List In
items [] = []
items ((x, r) ∷ xs) = x ∷ items xs

module _ {In Out : Type 0} (W : Worker In Out) where
  unfoldable pub handles : List (In × W.Reading) → W.State → Option W.State
  handles [] s = some s
  handles ((x, r) ∷ xs) s = elim (W.handle r x s) [ some s' ↦ handles xs s' | none ↦ none ]

  handles-snoc :
      (xs : List (In × W.Reading)) (r : W.Reading) (x : In) (s s' s'' : W.State)
      → handles xs s ≡ some s'
      → W.handle r x s' ≡ some s''
      → handles (xs ++ ((x, r) ∷ [])) s ≡ some s''
  unfolding handles
  handles-snoc [] r x s s' s'' e f = ground (arith, e, f)
  handles-snoc ((x', r') ∷ xs) r x s s' s'' e f = elim (Option-cases (W.handle r' x' s)) [
    | inl fails ↦ absurd (cc (rw (fails, handles) at e))
    | inr (t, q) ↦ rw (q, handles) (handles-snoc xs r x t s' s'' (rw (q, handles) at e) f)
  ]

  -- The state, from the items taken and the phase.
  pub data Ran (s₀ : W.State) (p : Phase) (s : W.State) (xs : List (In × W.Reading)) : Type 0 where
    before : p ≡ starting → s ≡ s₀ → xs ≡ [] → Ran s₀ p s xs
    within : (r : W.Reading) → in_loop p ≡ true → handles xs (W.start r s₀) ≡ some s → Ran s₀ p s xs
    after :
        (r r' : W.Reading) (s' : W.State)
        → is_over p ≡ true
        → handles xs (W.start r s₀) ≡ some s'
        → s ≡ W.finish r' s'
        → Ran s₀ p s xs

  -- What is put out so far has been sent, but for a rest; when the thread has ended, no rest is left.
  pub record IsRunning (s₀ : W.State) (t : Thread W) : Type 0 where
    pub ran : Ran s₀ t.phase t.state t.taken
    pub good : is_over t.phase ≡ false → W.IsGood t.state
    pub unsent : Extends t.sent (W.outs t.state)
    pub unlogged : Extends t.logged (W.logs t.state)
    pub published : t.phase ≡ ended → IsPublished W t

  -- The items that are taken are such as the thread can be given.
  abbrev pub Allows : Act In Out → Type 0
  Allows silent = Unit
  Allows (takes x) = W.IsItem x
  Allows finds_none = Unit
  Allows (sends o) = Unit
  Allows (logs_line m) = Unit

  step :
      {A : Type 0} (all sent os : List A) (o : A)
      → all ≡ sent ++ (o ∷ os)
      → Extends (sent ++ (o ∷ [])) all
  step all sent os o e = record { rest = os; extended = e ∙ sym (append_assoc sent (o ∷ []) os) }

  -- What `Ran` says before the loop and in it.
  started :
      (s₀ s : W.State) (p : Phase) (xs : List (In × W.Reading))
      → Ran s₀ p s xs
      → p ≡ starting
      → (s ≡ s₀) × (xs ≡ [])
  started s₀ s p xs (before _ e f) q = (e, f)
  started s₀ s p xs (within r l e) q = absurd (cc (rw q at l))
  started s₀ s p xs (after r r' s' l e f) q = absurd (cc (rw q at l))

  looped :
      (s₀ s : W.State) (p : Phase) (xs : List (In × W.Reading))
      → Ran s₀ p s xs
      → in_loop p ≡ true
      → is_over p ≡ false
      → (r : W.Reading) × (handles xs (W.start r s₀) ≡ some s)
  looped s₀ s p xs (before q _ _) l k = absurd (cc (rw q at l))
  looped s₀ s p xs (within r _ e) l k = (r, e)
  looped s₀ s p xs (after r r' s' o e f) l k = absurd (cc (sym o ∙ k))

  over :
      (s₀ s : W.State) (p : Phase) (xs : List (In × W.Reading))
      → Ran s₀ p s xs
      → p ≡ closing
      → Ran s₀ ended s xs
  over s₀ s p xs (before q _ _) k = absurd (cc (sym q ∙ k))
  over s₀ s p xs (within r l e) k = absurd (cc (rw k at l))
  over s₀ s p xs (after r r' s' _ e f) k = after r r' s' refl e f

  -- A move to another phase of the loop, and one out of it.
  turns :
      {s₀ : W.State} {t : Thread W} (p : Phase)
      → in_loop t.phase ≡ true
      → is_over t.phase ≡ false
      → in_loop p ≡ true
      → p ≢ ended
      → IsRunning s₀ t
      → IsRunning s₀ (record t { phase = p })
  turns {s₀} {t} p l k l' n i =
      let (r, e) = looped s₀ t.state t.phase t.taken i.ran l k in
      record {
        ran = within r l' e;
        good = λ _. i.good k;
        unsent = i.unsent;
        unlogged = i.unlogged;
        published = λ q. absurd (n q);
      }

  winds_up :
      {s₀ : W.State} {t : Thread W} (r' : W.Reading)
      → in_loop t.phase ≡ true
      → is_over t.phase ≡ false
      → IsRunning s₀ t
      → IsRunning s₀ (record t { phase = closing; state = W.finish r' t.state })
  winds_up {s₀} {t} r' l k i =
      let (r, e) = looped s₀ t.state t.phase t.taken i.ran l k in
      let (outs, logs) = W.finish-grows r' t.state in
      record {
        ran = after r r' t.state refl e refl;
        good = λ q. absurd (cc q);
        unsent = Extends-trans i.unsent outs;
        unlogged = Extends-trans i.unlogged logs;
        published = λ q. absurd (cc q);
      }

  pub Move-IsRunning :
      {stop : Bool} {a : Act In Out} {s₀ : W.State} {t t' : Thread W}
      → Move W stop t a t'
      → Allows a
      → IsRunning s₀ t
      → IsRunning s₀ t'
  unfolding handles
  Move-IsRunning {s₀} {t} (starts r p) ok i =
      let (e, f) = started s₀ t.state t.phase t.taken i.ran p in
      let (outs, logs) = W.start-grows r t.state in
      record {
        ran = within r refl (rw (f, e) refl);
        good = λ _. W.start-IsGood r t.state (i.good (rw p refl));
        unsent = Extends-trans i.unsent outs;
        unlogged = Extends-trans i.unlogged logs;
        published = λ q. absurd (cc q);
      }
  Move-IsRunning {t} (sends_out o os b e) ok i = record {
    ran = i.ran;
    good = i.good;
    unsent = step (W.outs t.state) t.sent os o e;
    unlogged = i.unlogged;
    published = λ q. absurd (cc (rw q at b));
  }
  Move-IsRunning {t} (logs_out m ms b e) ok i = record {
    ran = i.ran;
    good = i.good;
    unsent = i.unsent;
    unlogged = step (W.logs t.state) t.logged ms m e;
    published = λ q. absurd (cc (rw q at b));
  }
  Move-IsRunning {s₀} {t} (loops p _) ok i = turns testing (rw p refl) (rw p refl) refl (λ q. cc) i
  Move-IsRunning {s₀} {t} (goes_on p _) ok i =
      turns popping (rw p refl) (rw p refl) refl (λ q. cc) i
  Move-IsRunning {s₀} {t} (is_stopped r' p _) ok i = winds_up r' (rw p refl) (rw p refl) i
  Move-IsRunning {s₀} {t} (takes_item r' x s p h) ok i =
      let (r, e) = looped s₀ t.state t.phase t.taken i.ran (rw p refl) (rw p refl) in
      let good = i.good (rw p refl) in
      let (outs, logs) = W.handle-grows r' x t.state s good ok h in
      let (s', h', good') = W.handle-IsGood r' x t.state good ok in
      let same : s' ≡ s = cc (sym h' ∙ h) in
      record {
        ran = within r refl (handles-snoc t.taken r' x _ t.state s e h);
        good = λ _. subst W.IsGood same good';
        unsent = Extends-trans i.unsent outs;
        unlogged = Extends-trans i.unlogged logs;
        published = λ q. absurd (cc q);
      }
  Move-IsRunning {s₀} {t} (leaves r' p) ok i = winds_up r' (rw p refl) (rw p refl) i
  Move-IsRunning {s₀} {t} (ends p done) ok i = record {
    ran = over s₀ t.state t.phase t.taken i.ran p;
    good = λ q. absurd (cc q);
    unsent = i.unsent;
    unlogged = i.unlogged;
    published = λ _. done;
  }
