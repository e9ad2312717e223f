-- ===== src/Queue/Fifo.antt =====
-- What any interleaving of pushes and pops keeps.
use counter_drone_streaming.Base.{
  ℕ, ◌≤◌, ◌<◌, ◌↔◌, Bool, true, false, List, [], ◌∷◌, ◌++◌, length, length-append, ltb, Option,
  some, none, ◌≡◌, refl, ap, arith, append_assoc, ◌⊎◌, inl, inr, Bool-cases,
}
use counter_drone_streaming.Queue.{
  Queue, Call, returned, blocked, wait, not_empty, enqueue, dequeue, push_waited, pop_waited, push,
  pop, Op, pushing, popping, Trace, act, acts, after_push, after_pop,
}

module _ {ℓ} {A : Type ℓ} where
  -- What was accepted is what was popped, then what is still queued; and a bound is respected.
  pub record IsFifo (bound : ℕ) (t : Trace A) : Type ℓ where
    pub order : t.accepted ≡ t.popped ++ t.queue.items
    pub same_bound : t.queue.max_size ≡ bound
    pub within : ltb 0 bound ≡ true → length t.queue.items ≤ bound

  -- A push either changes nothing, or was not stopped and had room.
  data Pushed (x : A) (q : Queue A) : Call (Bool × Queue A) → Type ℓ where
    waits : Pushed x q blocked
    gave_up : Pushed x q (returned (false, q))
    put_in :
        (ltb 0 q.max_size ≡ true → ltb (length q.items) q.max_size ≡ true)
        → Pushed x q (returned (true, record q { items = q.items ++ (x ∷ []) }))

  enqueue-Pushed :
      (x : A) (stop : Bool) (q : Queue A)
      → (ltb 0 q.max_size ≡ true → ltb (length q.items) q.max_size ≡ true)
      → Pushed x q (returned (enqueue x stop q))
  enqueue-Pushed x true q h = gave_up
  enqueue-Pushed x false q h = put_in h

  push_waited-Pushed :
      (x : A) (stop stop' : Bool) (q : Queue A) (room : Bool)
      → ltb (length q.items) q.max_size ≡ room
      → Pushed x q (push_waited x stop' q (wait stop room))
  push_waited-Pushed x stop stop' q true h = enqueue-Pushed x stop' q (λ _. h)
  push_waited-Pushed x true stop' q false h = gave_up
  push_waited-Pushed x false stop' q false h = waits

  push-Pushed : (x : A) (stop stop' : Bool) (q : Queue A) → Pushed x q (push x stop stop' q)
  unfolding push
  push-Pushed x stop stop' q = elim (Bool-cases (ltb 0 q.max_size)) [
    | inl bounded ↦ rw bounded (push_waited-Pushed x stop stop' q _ refl)
    | inr free ↦ rw free (enqueue-Pushed x stop' q (λ h. cc))
  ]

  after_push-IsFifo :
      (bound : ℕ) (x : A) (t : Trace A) (r : Call (Bool × Queue A))
      → Pushed x t.queue r
      → IsFifo bound t
      → IsFifo bound (after_push x r t)
  after_push-IsFifo bound x t _ waits f = f
  after_push-IsFifo bound x t _ gave_up f = f
  after_push-IsFifo bound x t _ (put_in room) f = record {
    order = rw f.order (append_assoc t.popped t.queue.items (x ∷ []));
    same_bound = f.same_bound;
    within = λ b. grind (arith, length-append t.queue.items (x ∷ []), f.same_bound, room);
  }

  -- A pop either changes nothing, or takes the first item.
  pub data Popped (q : Queue A) : Call (Option A × Queue A) → Type ℓ where
    waits : Popped q blocked
    gave_up : Popped q (returned (none, q))
    took :
        (x : A) (xs : List A)
        → q.items ≡ x ∷ xs
        → Popped q (returned (some x, record q { items = xs }))

  dequeue-Popped : (q : Queue A) (xs : List A) → q.items ≡ xs → Popped q (returned (dequeue xs q))
  dequeue-Popped q [] h = gave_up
  dequeue-Popped q (x ∷ xs) h = took x xs h

  pop_waited-Popped : (q : Queue A) (w : Call Bool) → Popped q (pop_waited q w)
  pop_waited-Popped q (returned true) = dequeue-Popped q q.items refl
  pop_waited-Popped q (returned false) = gave_up
  pop_waited-Popped q blocked = waits

  pub pop-Popped : (stop : Bool) (q : Queue A) → Popped q (pop stop q)
  unfolding pop
  pop-Popped stop q = pop_waited-Popped q (wait stop (not_empty q.items))

  after_pop-IsFifo :
      (bound : ℕ) (t : Trace A) (r : Call (Option A × Queue A))
      → Popped t.queue r
      → IsFifo bound t
      → IsFifo bound (after_pop r t)
  after_pop-IsFifo bound t _ waits f = f
  after_pop-IsFifo bound t _ gave_up f = f
  after_pop-IsFifo bound t _ (took x xs h) f = record {
    order = rw (f.order, h, append_assoc t.popped (x ∷ []) xs);
    same_bound = f.same_bound;
    within = λ b. omega (arith, f.within b, ap length h);
  }

  pub act-IsFifo : (bound : ℕ) (op : Op A) (t : Trace A) → IsFifo bound t → IsFifo bound (act op t)
  unfolding act
  act-IsFifo bound (pushing x stop stop') t f =
      after_push-IsFifo bound x t _ (push-Pushed x stop stop' t.queue) f
  act-IsFifo bound (popping stop) t f = after_pop-IsFifo bound t _ (pop-Popped stop t.queue) f

  -- If what was accepted is what was popped followed by what is queued, and a bounded queue is
  -- within its bound, then the same holds after any interleaving of pushes and pops by any
  -- threads: no item is lost, doubled or overtaken.
  pub acts-IsFifo :
      (bound : ℕ) (ops : List (Op A)) (t : Trace A) → IsFifo bound t → IsFifo bound (acts ops t)
  unfolding acts
  acts-IsFifo bound [] t f = f
  acts-IsFifo bound (op ∷ ops) t f = acts-IsFifo bound ops (act op t) (act-IsFifo bound op t f)

  pops :
      (stop : Bool) (items : List A) (q : Queue A)
      → q.items ≡ items
      → (pop stop q ≡ blocked) ↔ ((stop ≡ false) × (items ≡ []))
  unfolding pop
  pops true [] q h = ground (arith, h)
  pops false [] q h = ground (arith, h)
  pops true (x ∷ xs) q h = ground (arith, h)
  pops false (x ∷ xs) q h = ground (arith, h)

  -- A call waits in one case alone: no stop is requested, and push finds a bounded queue full or
  -- pop finds no item.
  pub blocked_iff :
      (x : A) (stop stop' : Bool) (q : Queue A)
      → ((push x stop stop' q ≡ blocked)
          ↔ ((stop ≡ false) × (0 < q.max_size) × (q.max_size ≤ length q.items)))
        × ((pop stop q ≡ blocked) ↔ ((stop ≡ false) × (q.items ≡ [])))
  unfolding push pop
  blocked_iff x true stop' q = (ground arith, pops true q.items q refl)
  blocked_iff x false stop' q = (ground arith, pops false q.items q refl)

  -- What a push on an unbounded queue, and a pop that returned an item, do to the trace.
  pub put-trace :
      (x : A) (t : Trace A)
      → t.queue.max_size ≡ 0
      → act (pushing x false false) t ≡ record {
        queue = record t.queue { items = t.queue.items ++ (x ∷ []) };
        accepted = t.accepted ++ (x ∷ []);
        popped = t.popped;
      }
  unfolding act push
  put-trace x t h = rw h refl

  pub took-trace :
      (stop : Bool) (x : A) (q : Queue A) (t : Trace A)
      → pop stop t.queue ≡ returned (some x, q)
      → act (popping stop) t
        ≡ record { queue = q; accepted = t.accepted; popped = t.popped ++ (x ∷ []) }
  unfolding act
  took-trace stop x q t h = rw h refl

  pub pop-some :
      (stop : Bool) (x : A) (q q' : Queue A)
      → pop stop q ≡ returned (some x, q')
      → q.items ≡ x ∷ q'.items
  pop-some stop x q q' h = go (pop stop q) (pop-Popped stop q) h
    where
      go :
          (c : Call (Option A × Queue A))
          → Popped q c
          → c ≡ returned (some x, q')
          → q.items ≡ x ∷ q'.items
      go _ waits k = absurd (cc k)
      go _ gave_up k = absurd (cc k)
      go _ (took y ys e) k = ground (arith, e, k)

  -- A pop returns no item only when it is stopped and finds none.
  pub pop-none :
      (stop : Bool) (q q' : Queue A)
      → pop stop q ≡ returned (none, q')
      → (stop ≡ true) × (q.items ≡ [])
  unfolding pop
  pop-none stop q q' h = go stop q.items refl h
    where
      go :
          (b : Bool) (xs : List A)
          → q.items ≡ xs
          → pop b q ≡ returned (none, q')
          → (b ≡ true) × (q.items ≡ [])
      go true [] e k = (refl, e)
      go false [] e k = absurd (cc (rw (e, pop) at k))
      go true (x ∷ xs) e k = absurd (cc (rw (e, pop) at k))
      go false (x ∷ xs) e k = absurd (cc (rw (e, pop) at k))

  -- A stopped pop returns at once.
  pub pop_stopped :
      (stop : Bool) (q : Queue A)
      → stop ≡ true
      → (pop stop q ≡ returned (none, q))
        ⊎ ((x : A) × (q' : Queue A) × (pop stop q ≡ returned (some x, q')))
  unfolding pop
  pop_stopped stop q h = go q.items refl
    where
      go :
          (xs : List A)
          → q.items ≡ xs
          → (pop stop q ≡ returned (none, q))
            ⊎ ((x : A) × (q' : Queue A) × (pop stop q ≡ returned (some x, q')))
      go [] e = inl (rw (h, e, pop) refl)
      go (x ∷ xs) e = inr (x, record q { items = xs }, rw (h, e, pop) refl)
