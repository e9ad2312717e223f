-- ===== src/Ring/Bounds.antt =====
-- The ranges that `push` and `peek` of src/ringBuffer.cpp copy, and the `std::size_t` sums of `push`.
use counter_drone_streaming.Base.{
  ℕ, ◌+◌, ◌%◌, ◌≤◌, ◌≡◌, refl, sym, ◌∙◌, ap, Bool, true, false, ◌<◌, List, [], ◌∷◌, length,
  length-drop, min, ltb, All, Bool-cases, inl, inr, arith, subst, add_size, add_size_lem, sub_size,
}
use counter_drone_streaming.Message.{ok}
use counter_drone_streaming.Ring.{
  Ring, Copy, perform, in_parts, push_copies, peek_copies, push, peek, memcpy, stored, free_space,
}
use counter_drone_streaming.Ring.Valid.{IsValid, head_wrap, free_space_lem}
use counter_drone_streaming.Ring.Window.{length-memcpy}

-- The copy reads so many bytes as there are, and writes inside an array of this length.
abbrev pub IsInside : ℕ → Copy → Type 0
IsInside size c = (c.target + c.amount ≤ size) × (c.amount ≤ length c.source)

-- One or two copies that are inside.
in_parts-IsInside :
    (size : ℕ) (more : Bool) (first second : Copy)
    → IsInside size first
    → (more ≡ true → IsInside size second)
    → All (IsInside size) (in_parts more first second)
in_parts-IsInside size true first second f s = (f, (s refl, tt))
in_parts-IsInside size false first second f s = (f, tt)

-- Copies that stay inside keep the length.
length-perform :
    (cs : List Copy) (dest : List ℕ)
    → All (IsInside (length dest)) cs
    → length (perform cs dest) ≡ length dest
length-perform [] dest h = refl
length-perform (c ∷ cs) dest ((fits, there), h) =
    let kept = length-memcpy dest c.target c.source c.amount fits there in
    length-perform cs (memcpy dest c.target c.source c.amount)
      (subst (λ n. All (IsInside n) cs) (sym kept) h)
    ∙ kept

module _ {r : Ring} (v : IsValid r) where
  head_in : r.head < r.capacity
  head_in = ground (arith, head_wrap v)

  push_copies-IsInside :
      (bytes : List ℕ)
      → r.count + length bytes ≤ r.capacity
      → All (IsInside (length r.buf)) (push_copies r bytes)
  push_copies-IsInside bytes h =
      let f = min (length bytes) (sub_size r.capacity r.head) in
      in_parts-IsInside (length r.buf) (ltb f (length bytes)) _ _
        (omega (arith, head_in), omega arith)
        (λ e. (omega arith, omega (arith, length-drop f bytes)))

  peek_copies-IsInside :
      (dest : List ℕ) → length dest ≤ r.count → All (IsInside (length dest)) (peek_copies r dest)
  peek_copies-IsInside dest h =
      let f = min (length dest) (sub_size r.capacity r.tail) in
      in_parts-IsInside (length dest) (ltb f (length dest)) _ _
        (omega arith, omega (arith, length-drop r.tail r.buf)) (λ e. (omega arith, omega arith))

  -- What a push that throws nothing has made.
  pushed_lem :
      (bytes : List ℕ) (r' : Ring)
      → push r bytes ≡ ok r'
      → (r.count + length bytes ≤ r.capacity)
        × (record r {
          buf = stored r bytes;
          head = add_size r.head (length bytes) % r.capacity;
          count = add_size r.count (length bytes);
        }
            ≡ r')
  unfolding push
  pushed_lem bytes r' e = elim (Bool-cases (ltb (free_space r) (length bytes))) [
    | inl full ↦ absurd (cc (rw full at e))
    | inr room ↦ (ground (arith, free_space_lem v, room), cc (rw room at e))
  ]

  peeked_lem :
      (dest out : List ℕ)
      → peek r dest ≡ ok out
      → (length dest ≤ r.count) × (perform (peek_copies r dest) dest ≡ out)
  unfolding peek
  peeked_lem dest out e = elim (Bool-cases (ltb r.count (length dest))) [
    | inl short ↦ absurd (cc (rw short at e))
    | inr there ↦ (ground (arith, there), cc (rw there at e))
  ]

  -- On a valid ring, for a push and a peek that throw nothing: every copy that push makes reads
  -- bytes that are there and writes inside the backing array, which is left with exactly these
  -- copies made and its length kept, and head and count move without a wrap of their size_t sums;
  -- and every copy that peek makes reads bytes that are there and writes inside the destination,
  -- which is left with exactly these copies made.
  pub copies_in_bounds :
      (bytes dest : List ℕ) (r' : Ring) (out : List ℕ)
      → push r bytes ≡ ok r'
      → peek r dest ≡ ok out
      → (All (IsInside (length r.buf)) (push_copies r bytes)
          × (r'.buf ≡ perform (push_copies r bytes) r.buf)
          × (length r'.buf ≡ length r.buf)
          × (r'.head ≡ (r.head + length bytes) % r.capacity)
          × (r'.count ≡ r.count + length bytes))
        × (All (IsInside (length dest)) (peek_copies r dest)
            × (out ≡ perform (peek_copies r dest) dest))
  copies_in_bounds bytes dest r' out pushed peeked =
      let (room, made) = pushed_lem bytes r' pushed in
      let inside = push_copies-IsInside bytes room in
      let (there, read) = peeked_lem dest out peeked in
      let buf = sym (ap (λ (k : Ring). k.buf) made) in
      (
        (
          inside,
          buf,
          ap length buf ∙ length-perform (push_copies r bytes) r.buf inside,
          sym (ap (λ (k : Ring). k.head) made)
              ∙ ap (λ n. n % r.capacity)
                  (add_size_lem r.head (length bytes) (omega (arith, head_in))),
          sym (ap (λ (k : Ring). k.count) made) ∙ add_size_lem r.count (length bytes) (omega arith),
        ),
        (peek_copies-IsInside dest there, sym read),
      )
