-- ===== src/Ring/Queue.antt =====
-- What RingBuffer promises: a byte queue of fixed capacity, whose failed calls change nothing.
use counter_drone_streaming.Base.{
  ℕ, zero, tests, ◌+◌, ◌-◌, ◌≡◌, refl, List, [], ◌∷◌, ◌++◌, arith, length, take, drop, replicate,
  ltb, if◌then◌else◌, All, length-replicate, Bool-cases, inl, inr, ltb→lt, ltb→le,
}
use counter_drone_streaming.Message.{Exception, Result, ok, err, overflow_error, out_of_range}
use counter_drone_streaming.Ring.{Ring, push, peek, consume, clear, overflow_message, peek_message}
use counter_drone_streaming.Ring.{consume_message}
use counter_drone_streaming.Ring.Valid.{IsValid, IsByte}
use counter_drone_streaming.Ring.Refine.{
  contents, length-contents, push_ok, push_overflow, peek_ok, peek_short, consume_ok, consume_short,
  clear_ok,
}

pub data Call : Type 0 where
  pushes : List ℕ → Call
  -- `peek` into a span of so many bytes
  peeks : ℕ → Call
  consumes : ℕ → Call
  clears : Call

pub data Reply : Type 0 where
  done : Reply
  bytes : List ℕ → Reply
  raised : Exception → Reply

abbrev pub SendsBytes : Call → Type 0
SendsBytes (pushes bs) = All IsByte bs
SendsBytes _ = Unit

-- One call of the class: what the caller sees, and the object afterwards.
abbrev pushed : Ring → Result Ring → Reply × Ring
pushed r (ok r') = (done, r')
pushed r (err e) = (raised e, r)

abbrev seen : Ring → Result (List ℕ) → Reply × Ring
seen r (ok bs) = (bytes bs, r)
seen r (err e) = (raised e, r)

pub call : Ring → Call → Reply × Ring
call r (pushes bs) = pushed r (push r bs)
call r (peeks n) = seen r (peek r (replicate n 0))
call r (consumes n) = pushed r (consume r n)
call r clears = (done, clear r)

pub calls : Ring → List Call → List Reply
calls r [] = []
calls r (c ∷ cs) = let (a, r') = call r c in a ∷ calls r' cs

module _ (cap : ℕ) where
  -- The same call on the queue.
  pub queue_call : List ℕ → Call → Reply × List ℕ
  queue_call q (pushes bs) =
      if ltb cap (length q + length bs)
      then (raised (overflow_error (overflow_message (length bs) (cap - length q))), q)
      else (done, q ++ bs)
  queue_call q (peeks n) =
      if ltb (length q) n
      then (raised (out_of_range (peek_message n (length q))), q)
      else (bytes (take n q), q)
  queue_call q (consumes n) =
      if ltb (length q) n
      then (raised (out_of_range (consume_message n (length q))), q)
      else (done, drop n q)
  queue_call q clears = (done, [])

  pub queue_calls : List ℕ → List Call → List Reply
  queue_calls q [] = []
  queue_calls q (c ∷ cs) = let (a, q') = queue_call q c in a ∷ queue_calls q' cs

-- A call on a valid ring replies as the queue does, and leaves a valid ring that holds its queue.
record Agrees (r : Ring) (c : Call) : Type 0 where
  reply : (call r c).0 ≡ (queue_call r.capacity (contents r) c).0
  holds : contents (call r c).1 ≡ (queue_call r.capacity (contents r) c).1
  valid : IsValid (call r c).1
  same_capacity : (call r c).1.capacity ≡ r.capacity

call-Agrees : (r : Ring) (c : Call) → IsValid r → SendsBytes c → Agrees r c
unfolding call queue_call
call-Agrees r (pushes bs) v s = elim (Bool-cases (ltb r.capacity (r.count + length bs))) [
  | inl e ↦ ground (arith, length-contents v, push_overflow v bs (ltb→lt _ _ e))
  | inr e ↦
      let (r', step, v', holds, same, _) = push_ok v bs s (ltb→le _ _ e) in
      ground (arith, length-contents v)
]
call-Agrees r (peeks n) v s = elim (Bool-cases (ltb r.count n)) [
  | inl e ↦ ground (
    arith,
    length-contents v,
    length-replicate n (zero),
    peek_short v (replicate n 0) (omega (tests, length-replicate n (zero))),
  )
  | inr e ↦ ground (
    arith,
    length-contents v,
    length-replicate n (zero),
    peek_ok v (replicate n 0) (omega (tests, length-replicate n zero)),
  )
]
call-Agrees r (consumes n) v s = elim (Bool-cases (ltb r.count n)) [
  | inl e ↦ ground (arith, length-contents v, consume_short v n (ltb→lt _ _ e))
  | inr e ↦
      let (r', step, v', holds, same, _) = consume_ok v n (ltb→le _ _ e) in
      ground (arith, length-contents v)
]
call-Agrees r clears v s =
    let (v', e, c) = clear_ok v in record { reply = refl; holds = e; valid = v'; same_capacity = c }

-- On a valid ring, any history of push, peek, consume and clear that pushes bytes has the replies
-- of a queue of the ring's capacity that starts with the ring's bytes, exceptions and their
-- messages included.
pub calls_refine :
    (r : Ring) (cs : List Call)
    → IsValid r
    → All SendsBytes cs
    → calls r cs ≡ queue_calls r.capacity (contents r) cs
unfolding calls queue_calls
calls_refine r [] v s = refl
calls_refine r (c ∷ cs) v (s, ss) =
    let a = call-Agrees r c v s in
    rw (calls_refine (call r c).1 cs a.valid ss, a.holds, a.reply, a.same_capacity)
