-- ===== src/Ring/Refine.antt =====
-- RingBuffer's operations against the list of its unread bytes, oldest first.
use counter_drone_streaming.Base.{
  ℕ, ◌+◌, ◌-◌, ◌%◌, ◌≤◌, ◌<◌, ◌≡◌, refl, sym, ◌∙◌, List, [], ◌∷◌, ◌++◌, arith, length, take, drop,
  min, Bool, true, false, if◌then◌else◌, ltb, All, Bool-cases, inl, inr, sub_size_lem, add_size_lem,
  list_ext, take-take, add_size, sub_size, All-drop,
}
use counter_drone_streaming.Message.{ok, err, overflow_error, out_of_range}
use counter_drone_streaming.Ring.{
  Ring, Copy, perform, in_parts, stored, copied, push, peek, consume, clear, overflow_message,
  peek_message, consume_message,
}
use counter_drone_streaming.Ring.Valid.{IsValid, IsByte, mod_shift, head_wrap, free_space_lem}
use counter_drone_streaming.Ring.Window.{window, length-window}
use counter_drone_streaming.Ring.Parts.{
  stored_parts, copied_parts, copied_parts_lem, length-stored_parts, window-stored_parts,
  window-suffix, All-memcpy,
}

abbrev pub contents : Ring → List ℕ
contents r = window r.buf r.tail r.count

pub length-contents : {r : Ring} → IsValid r → length (contents r) ≡ r.count
length-contents {r} v = length-window r.buf r.tail r.count (omega arith) (omega arith)

perform-in_parts :
    (more : Bool) (first second : Copy) (dest : List ℕ)
    → perform (in_parts more first second) dest
      ≡ (if more then perform (first ∷ second ∷ []) dest else perform (first ∷ []) dest)
perform-in_parts true first second dest = refl
perform-in_parts false first second dest = refl

All-stored :
    (r : Ring) (bytes : List ℕ) → All IsByte r.buf → All IsByte bytes → All IsByte (stored r bytes)
All-stored r bytes h k = elim (Bool-cases (ltb f (length bytes))) [
  | inl e ↦ rw e (
      All-memcpy _ 0 (drop f bytes) (sub_size (length bytes) f)
        (All-memcpy r.buf r.head bytes f h k) (All-drop IsByte f bytes k))
  | inr e ↦ rw e (All-memcpy r.buf r.head bytes f h k)
]
  where
    f : ℕ
    f = min (length bytes) (sub_size r.capacity r.head)

module _ {r : Ring} (v : IsValid r) where
  head_in : r.head < r.capacity
  head_in = ground (arith, head_wrap v)

  stored_lem :
      (bytes : List ℕ)
      → r.count + length bytes ≤ r.capacity
      → stored r bytes
        ≡ stored_parts r.buf r.head bytes (min (length bytes) (length r.buf - r.head))
  unfolding stored_parts
  stored_lem bytes h =
      let room : sub_size r.capacity r.head ≡ length r.buf - r.head = omega (arith, head_in) in
      let rest : sub_size (length bytes) (min (length bytes) (length r.buf - r.head))
          ≡ length bytes - min (length bytes) (length r.buf - r.head) =
        omega arith in
      rw (room, rest)
        (perform-in_parts (ltb (min (length bytes) (length r.buf - r.head)) (length bytes))
          (record {
            target = r.head;
            source = bytes;
            amount = min (length bytes) (length r.buf - r.head);
          })
          (record {
            target = 0;
            source = drop (min (length bytes) (length r.buf - r.head)) bytes;
            amount = length bytes - min (length bytes) (length r.buf - r.head);
          })
          r.buf)

  copied_lem :
      (dest : List ℕ) → length dest ≤ r.count → copied r dest ≡ take (length dest) (contents r)
  unfolding copied_parts
  copied_lem dest h =
      let room : sub_size r.capacity r.tail ≡ length r.buf - r.tail = omega arith in
      let rest : sub_size (length dest) (min (length dest) (length r.buf - r.tail))
          ≡ length dest - min (length dest) (length r.buf - r.tail) =
        omega arith in
      rw (room, rest)
        (perform-in_parts (ltb (min (length dest) (length r.buf - r.tail)) (length dest))
            (record {
              target = 0;
              source = drop r.tail r.buf;
              amount = min (length dest) (length r.buf - r.tail);
            })
            (record {
              target = min (length dest) (length r.buf - r.tail);
              source = r.buf;
              amount = length dest - min (length dest) (length r.buf - r.tail);
            })
            dest
          ∙ list_ext _ _
              (λ i. copied_parts_lem r.buf r.tail dest _ i (omega arith) (omega arith) refl)
          ∙ sym (take-take (length dest) r.count _ h))

  -- `push` with room appends the bytes, and keeps the invariant.
  pub push_ok :
      (bytes : List ℕ)
      → All IsByte bytes
      → r.count + length bytes ≤ r.capacity
      → (r' : Ring) × (push r bytes ≡ ok r')
        × IsValid r'
        × (contents r' ≡ contents r ++ bytes)
        × (r'.capacity ≡ r.capacity)
        × (r'.count ≡ r.count + length bytes)
  unfolding push
  push_ok bytes byte h = (
    record r {
      buf = stored r bytes;
      head = add_size r.head (length bytes) % r.capacity;
      count = add_size r.count (length bytes);
    },
    ground (arith, free_space_lem v),
    record {
      storage = rw (stored_lem bytes h) (
          length-stored_parts r.buf r.head bytes _ (omega (arith, head_in)) (omega arith) refl
          ∙ v.storage);
      nonempty = v.nonempty;
      small = v.small;
      tail_in = v.tail_in;
      count_in = omega arith;
      head_at =
          rw
            (
              add_size_lem r.head (length bytes) (omega (arith, head_in)),
              add_size_lem r.count (length bytes) (omega arith),
              v.head_at,
            )
            (mod_shift r.tail r.count (length bytes) r.capacity);
      bytes = All-stored r bytes v.bytes byte;
    },
    rw (add_size_lem r.count (length bytes) (omega arith), stored_lem bytes h)
        (window-stored_parts r.buf r.tail r.count r.head bytes _ (omega arith) (omega arith)
          (rw v.storage (head_wrap v)) refl),
    refl,
    omega arith,
  )

  pub push_overflow :
      (bytes : List ℕ)
      → r.capacity < r.count + length bytes
      → push r bytes ≡ err (overflow_error (overflow_message (length bytes) (r.capacity - r.count)))
  unfolding push
  push_overflow bytes h = rw (free_space_lem v) (ground arith)

  pub peek_ok :
      (dest : List ℕ) → length dest ≤ r.count → peek r dest ≡ ok (take (length dest) (contents r))
  unfolding peek
  peek_ok dest h = rw (copied_lem dest h) (ground arith)

  pub peek_short :
      (dest : List ℕ)
      → r.count < length dest
      → peek r dest ≡ err (out_of_range (peek_message (length dest) r.count))
  unfolding peek
  peek_short dest h = ground arith

  pub consume_ok :
      (n : ℕ)
      → n ≤ r.count
      → (r' : Ring) × (consume r n ≡ ok r')
        × IsValid r'
        × (contents r' ≡ drop n (contents r))
        × (r'.capacity ≡ r.capacity)
        × (r'.count ≡ r.count - n)
  unfolding consume
  consume_ok n h = (
    record r { tail = add_size r.tail n % r.capacity; count = sub_size r.count n },
    ground arith,
    record {
      storage = v.storage;
      nonempty = v.nonempty;
      small = v.small;
      tail_in = omega arith;
      count_in = omega arith;
      head_at =
          rw
            (
              add_size_lem r.tail n (omega arith),
              sub_size_lem r.count n h (omega arith),
              mod_shift r.tail n (r.count - n) r.capacity,
            )
            (ground (arith, v.head_at));
      bytes = v.bytes;
    },
    rw (add_size_lem r.tail n (omega arith), sub_size_lem r.count n h (omega arith), ← v.storage)
        (window-suffix r.buf r.tail r.count n (omega arith) (omega arith) h),
    refl,
    omega arith,
  )

  pub consume_short :
      (n : ℕ) → r.count < n → consume r n ≡ err (out_of_range (consume_message n r.count))
  unfolding consume
  consume_short n h = ground arith

  pub clear_ok : IsValid (clear r) × (contents (clear r) ≡ []) × ((clear r).capacity ≡ r.capacity)
  unfolding clear
  clear_ok = (
    record {
      storage = v.storage;
      nonempty = v.nonempty;
      small = v.small;
      tail_in = v.nonempty;
      count_in = omega arith;
      head_at = grind arith;
      bytes = v.bytes;
    },
    refl,
    refl,
  )
