-- ===== src/Message.antt =====
-- Log messages and exceptions. A message is the sequence of values that the code streams into its
-- `std::ostringstream` (or concatenates), with the source's own text; the library's decimal
-- formatting of each value is left to the reader of the message.
use Prim.Native.String.{String}
use counter_drone_streaming.Base.{ℕ, ℤ, List}

pub data Piece : Type 0 where
  text : String → Piece
  number : ℕ → Piece
  integer : ℤ → Piece
  -- A string of bytes that came over the wire, such as a drone id.
  bytes : List ℕ → Piece
  -- A double, by its bit pattern; `fixed` prints it with one digit after the point.
  double : ℕ → Piece
  fixed : ℕ → Piece

abbrev pub Message : Type 0
Message = List Piece

-- The exceptions that the modelled code throws, with what `what()` returns.
pub data Exception : Type 0 where
  overflow_error : Message → Exception
  out_of_range : Message → Exception

pub what : Exception → Message
what (overflow_error m) = m
what (out_of_range m) = m

pub data Result {ℓ} (A : Type ℓ) : Type ℓ where
  ok : A → Result A
  err : Exception → Result A
