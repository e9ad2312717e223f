-- ===== src/Queue.antt =====
-- include/threadSafeQueue.h. Every operation runs under the queue's mutex, so an interleaving of
-- threads is a sequence of operations. A call that would wait is `blocked`: it has changed nothing,
-- and is tried again as a later operation of the sequence. A stop token is read as a Boolean.
pub mod Fifo
use counter_drone_streaming.Base.{
  ℕ, Bool, true, false, List, [], ◌∷◌, ◌++◌, length, ltb, if◌then◌else◌, Option, some, none,
}

pub record Queue {ℓ} (A : Type ℓ) : Type ℓ where
  pub items : List A
  pub max_size : ℕ

-- The constructor.
abbrev pub empty {ℓ} : {A : Type ℓ} → ℕ → Queue A
empty n = record { items = []; max_size = n }

pub data Call {ℓ} (B : Type ℓ) : Type ℓ where
  returned : B → Call B
  blocked : Call B

-- `condition_variable_any::wait(lock, st, pred)`: with the predicate true it returns true, with a
-- stop requested it returns the predicate's value.
abbrev pub wait : Bool → Bool → Call Bool
wait stop true = returned true
wait true false = returned false
wait false false = blocked

-- `!m_queue.empty()`
abbrev pub not_empty {ℓ} : {A : Type ℓ} → List A → Bool
not_empty [] = false
not_empty (x ∷ xs) = true

module _ {ℓ} {A : Type ℓ} where
  -- What follows the wait in `push`.
  abbrev pub enqueue : A → Bool → Queue A → Bool × Queue A
  enqueue x stop q = if stop then (false, q) else (true, record q { items = q.items ++ (x ∷ []) })

  abbrev pub push_waited : A → Bool → Queue A → Call Bool → Call (Bool × Queue A)
  push_waited x stop q (returned true) = returned (enqueue x stop q)
  push_waited x stop q (returned false) = returned (false, q)
  push_waited x stop q blocked = blocked

  -- `stop` is the token's state at the wait, `stop'` at the test behind it.
  unfoldable pub push : A → Bool → Bool → Queue A → Call (Bool × Queue A)
  push x stop stop' q =
      if ltb 0 q.max_size
      then push_waited x stop' q (wait stop (ltb (length q.items) q.max_size))
      else returned (enqueue x stop' q)

  -- The front item is taken off.
  abbrev pub dequeue : List A → Queue A → Option A × Queue A
  dequeue [] q = (none, q)
  dequeue (x ∷ xs) q = (some x, record q { items = xs })

  abbrev pub pop_waited : Queue A → Call Bool → Call (Option A × Queue A)
  pop_waited q (returned true) = returned (dequeue q.items q)
  pop_waited q (returned false) = returned (none, q)
  pop_waited q blocked = blocked

  unfoldable pub pop : Bool → Queue A → Call (Option A × Queue A)
  pop stop q = pop_waited q (wait stop (not_empty q.items))

  unfoldable pub size : Queue A → ℕ
  size q = length q.items

-- One operation of some thread.
pub data Op {ℓ} (A : Type ℓ) : Type ℓ where
  pushing : A → Bool → Bool → Op A
  popping : Bool → Op A

-- The queue with the items that pushes have accepted and that pops have returned, oldest first.
pub record Trace {ℓ} (A : Type ℓ) : Type ℓ where
  pub queue : Queue A
  pub accepted : List A
  pub popped : List A

module _ {ℓ} {A : Type ℓ} where
  abbrev pub after_push : A → Call (Bool × Queue A) → Trace A → Trace A
  after_push x (returned (true, q)) t = record {
    queue = q;
    accepted = t.accepted ++ (x ∷ []);
    popped = t.popped;
  }
  after_push x (returned (false, q)) t = record t { queue = q }
  after_push x blocked t = t

  abbrev pub after_pop : Call (Option A × Queue A) → Trace A → Trace A
  after_pop (returned (some x, q)) t = record {
    queue = q;
    accepted = t.accepted;
    popped = t.popped ++ (x ∷ []);
  }
  after_pop (returned (none, q)) t = record t { queue = q }
  after_pop blocked t = t

  unfoldable pub act : Op A → Trace A → Trace A
  act (pushing x stop stop') t = after_push x (push x stop stop' t.queue) t
  act (popping stop) t = after_pop (pop stop t.queue) t

  unfoldable pub acts : List (Op A) → Trace A → Trace A
  acts [] t = t
  acts (op ∷ ops) t = acts ops (act op t)
