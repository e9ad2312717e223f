-- ===== src/Crc.antt =====
-- `StreamingParser::compute_crc16` of src/streamingParser.cpp: CRC-16/MODBUS, bit by bit.
pub mod Xor
pub mod Detect
use counter_drone_streaming.Base.{ℕ, zero, suc, ◌/◌, ◌%◌, List, [], ◌∷◌, take, ◌==◌, if◌then◌else◌}
use Prim.Native.Nat.{bit_xor}

abbrev pub polynomial : ℕ
polynomial = 0xA001

-- One round of the inner loop. `crc & 1` is the remainder by 2, and `crc >> 1` the quotient.
unfoldable pub crc_bit : ℕ → ℕ
crc_bit crc = if crc % 2 == 1 then bit_xor (crc / 2) polynomial else crc / 2

-- `n` rounds of the inner loop.
unfoldable pub crc_bits : ℕ → ℕ → ℕ
crc_bits zero crc = crc
crc_bits (suc n) crc = crc_bits n (crc_bit crc)

-- One round of the outer loop.
unfoldable pub crc_byte : ℕ → ℕ → ℕ
crc_byte crc b = crc_bits 8 (bit_xor crc b)

unfoldable pub crc_loop : ℕ → List ℕ → ℕ
crc_loop crc [] = crc
crc_loop crc (b ∷ bs) = crc_loop (crc_byte crc b) bs

unfoldable pub compute_crc16 : List ℕ → ℕ → ℕ
compute_crc16 bytes len = crc_loop 0xFFFF (take len bytes)
