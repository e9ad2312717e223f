-- ===== src/Bytes.antt =====
-- The object representation of an integer or a double of `size` bytes, on either kind of machine,
-- and `from_big_endian` of src/streamingParser.cpp.
pub mod BigEndian
use counter_drone_streaming.Base.{
  ℕ, zero, suc, ◌+◌, ◌*◌, ◌/◌, ◌%◌, Bool, true, false, ◌&&◌, List, [], ◌∷◌, ltb, if◌then◌else◌,
}
use mathlib.Core.List.{reverse}

-- `std::endian::native`
pub data Endian : Type 0 where
  little big : Endian

abbrev pub is_little : Endian → Bool
is_little little = true
is_little big = false

-- The value of some bytes, the lowest first.
pub value_le : List ℕ → ℕ
value_le [] = 0
value_le (b ∷ bs) = b + 256 * value_le bs

unfoldable pub bytes_le : ℕ → ℕ → List ℕ
bytes_le zero v = []
bytes_le (suc n) v = v % 256 ∷ bytes_le n (v / 256)

-- `std::memcpy(&value, bytes, sizeof(value))`
unfoldable pub load : Endian → List ℕ → ℕ
load little bs = value_le bs
load big bs = value_le (reverse bs)

-- The bytes that the value occupies in memory.
unfoldable pub store : Endian → ℕ → ℕ → List ℕ
store little size v = bytes_le size v
store big size v = reverse (bytes_le size v)

unfoldable pub from_big_endian : Endian → ℕ → ℕ → ℕ
from_big_endian e size v =
    if is_little e && ltb 1 size then load e (reverse (store e size v)) else v
