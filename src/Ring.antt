-- ===== src/Ring.antt =====
-- include/ringBuffer.h and src/ringBuffer.cpp: the circular byte buffer. A method that changes the
-- object returns the new one; one that throws returns `err`. Bytes are numbers below 256.
pub mod Valid
mod Window
mod Parts
pub mod Queue
pub mod Bounds
pub mod Refine
use counter_drone_streaming.Base.{
  ℕ, Bool, ◌+◌, ◌-◌, ◌%◌, min, List, [], ◌∷◌, ◌++◌, length, take, drop, replicate, ltb,
  if◌then◌else◌, add_size, sub_size,
}
use counter_drone_streaming.Message.{text, number, Message, Exception, Result, overflow_error}
use counter_drone_streaming.Message.{out_of_range, ok, err}

pub record Ring : Type 0 where
  pub buf : List ℕ
  pub capacity : ℕ
  pub head : ℕ
  pub tail : ℕ
  pub count : ℕ

abbrev pub default_capacity : ℕ
default_capacity = 65536

-- The constructor: `std::vector` fills its bytes with zero.
unfoldable pub create : ℕ → Ring
create cap = record { buf = replicate cap 0; capacity = cap; head = 0; tail = 0; count = 0 }

unfoldable pub size : Ring → ℕ
size r = r.count

unfoldable pub free_space : Ring → ℕ
free_space r = sub_size r.capacity r.count

-- `std::memcpy(dest + at, src, n)`, for a range that lies inside `dest`.
abbrev pub memcpy : List ℕ → ℕ → List ℕ → ℕ → List ℕ
memcpy dest at src n = take at dest ++ (take n src ++ drop (at + n) dest)

-- A call of `std::memcpy`: the offset in the destination, what stands at the source's address, and
-- the number of bytes.
pub record Copy : Type 0 where
  pub target : ℕ
  pub source : List ℕ
  pub amount : ℕ

abbrev pub perform : List Copy → List ℕ → List ℕ
perform [] dest = dest
perform (c ∷ cs) dest = perform cs (memcpy dest c.target c.source c.amount)

-- The first copy, then the second where bytes are left.
abbrev pub in_parts : Bool → Copy → Copy → List Copy
in_parts more first second = if more then first ∷ second ∷ [] else first ∷ []

pub overflow_message : ℕ → ℕ → Message
overflow_message tried free =
    text "RingBuffer overflow: tried to push "
    ∷ number tried
    ∷ text " bytes, only "
    ∷ number free
    ∷ text " free"
    ∷ []

-- The copies that `push` makes into the backing array, one or two.
abbrev pub push_copies : Ring → List ℕ → List Copy
push_copies r bytes =
    let first_chunk = min (length bytes) (sub_size r.capacity r.head) in
    let first : Copy = record { target = r.head; source = bytes; amount = first_chunk } in
    let second : Copy = record {
      target = 0;
      source = drop first_chunk bytes;
      amount = sub_size (length bytes) first_chunk;
    } in
    in_parts (ltb first_chunk (length bytes)) first second

-- The bytes of the backing array after `push` has copied `data` in.
abbrev pub stored : Ring → List ℕ → List ℕ
stored r bytes = perform (push_copies r bytes) r.buf

unfoldable pub push : Ring → List ℕ → Result Ring
push r bytes =
    if ltb (free_space r) (length bytes)
    then err (overflow_error (overflow_message (length bytes) (free_space r)))
    else ok (record r {
      buf = stored r bytes;
      head = add_size r.head (length bytes) % r.capacity;
      count = add_size r.count (length bytes);
    })

pub peek_message : ℕ → ℕ → Message
peek_message requested available =
    text "RingBuffer peek: requested "
    ∷ number requested
    ∷ text " bytes, only "
    ∷ number available
    ∷ text " available"
    ∷ []

-- The copies that `peek` makes into the destination, one or two.
abbrev pub peek_copies : Ring → List ℕ → List Copy
peek_copies r dest =
    let first_chunk = min (length dest) (sub_size r.capacity r.tail) in
    let first : Copy = record { target = 0; source = drop r.tail r.buf; amount = first_chunk } in
    let second : Copy = record {
      target = first_chunk;
      source = r.buf;
      amount = sub_size (length dest) first_chunk;
    } in
    in_parts (ltb first_chunk (length dest)) first second

-- The destination after `peek` has copied into it.
abbrev pub copied : Ring → List ℕ → List ℕ
copied r dest = perform (peek_copies r dest) dest

-- `dest` is the span to fill, and the result is what it holds afterwards.
unfoldable pub peek : Ring → List ℕ → Result (List ℕ)
peek r dest =
    if ltb r.count (length dest)
    then err (out_of_range (peek_message (length dest) r.count))
    else ok (copied r dest)

pub consume_message : ℕ → ℕ → Message
consume_message tried available =
    text "RingBuffer consume: tried to discard "
    ∷ number tried
    ∷ text " bytes, only "
    ∷ number available
    ∷ text " available"
    ∷ []

pub consume : Ring → ℕ → Result Ring
consume r n =
    if ltb r.count n
    then err (out_of_range (consume_message n r.count))
    else ok (record r { tail = add_size r.tail n % r.capacity; count = sub_size r.count n })

pub clear : Ring → Ring
clear r = record r { head = 0; tail = 0; count = 0 }
