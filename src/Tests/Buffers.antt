-- ===== src/Tests/Buffers.antt =====
-- RingBuffer, byte order, checksum and payload.
use counter_drone_streaming.Base.{ℕ, ◌%◌, All, ◌+◌, ◌≡◌, refl, [], ◌∷◌, arith, some}
use counter_drone_streaming.Ring.Valid.{IsValid}
use counter_drone_streaming.Ring.{Ring, push, peek, free_space, push_copies, peek_copies, perform}
use counter_drone_streaming.Ring.Bounds.{IsInside, copies_in_bounds}
use counter_drone_streaming.Ring.Queue.{
  pushes, peeks, consumes, clears, calls, queue_calls, calls_refine,
}
use counter_drone_streaming.Bytes.{little, load, from_big_endian}
use counter_drone_streaming.Bytes.BigEndian.{value_be, from_big_endian-load}
use counter_drone_streaming.Crc.{compute_crc16, crc_loop, crc_byte, crc_bits, crc_bit}
use counter_drone_streaming.Crc.Detect.{compute_crc16_detects}
use counter_drone_streaming.Payload.{deserialize_payload}
use counter_drone_streaming.Payload.Decode.{decode, deserialize_payload_lem}
use counter_drone_streaming.Wire.{serialize_payload, crc16_modbus}
use counter_drone_streaming.Wire.RoundTrip.{IsSendable, decode-serialize_payload}
use counter_drone_streaming.Wire.Framing.{crc16_modbus_lem}
use counter_drone_streaming.Tests.Samples.{wrapped, hovering}

wrapped-IsValid : IsValid wrapped
wrapped-IsValid = record {
  storage = refl;
  nonempty = omega arith;
  small = omega arith;
  tail_in = omega arith;
  count_in = omega arith;
  head_at = refl;
  bytes = omega arith;
}

-- The check value of CRC-16/MODBUS for "123456789".
check_value :
    compute_crc16 (0x31 ∷ 0x32 ∷ 0x33 ∷ 0x34 ∷ 0x35 ∷ 0x36 ∷ 0x37 ∷ 0x38 ∷ 0x39 ∷ []) 9 ≡ 0x4B37
unfolding compute_crc16 crc_loop crc_byte crc_bits crc_bit
check_value = refl

calls_refine_example :
    calls wrapped
      (pushes (1 ∷ 2 ∷ 3 ∷ []) ∷ pushes (4 ∷ []) ∷ peeks 4 ∷ consumes 3 ∷ peeks 9 ∷ clears ∷ [])
    ≡ queue_calls 5
        (8 ∷ 9 ∷ [])
        (pushes (1 ∷ 2 ∷ 3 ∷ []) ∷ pushes (4 ∷ []) ∷ peeks 4 ∷ consumes 3 ∷ peeks 9 ∷ clears ∷ [])
calls_refine_example =
    calls_refine wrapped
      (pushes (1 ∷ 2 ∷ 3 ∷ []) ∷ pushes (4 ∷ []) ∷ peeks 4 ∷ consumes 3 ∷ peeks 9 ∷ clears ∷ [])
      wrapped-IsValid (omega arith)

-- Three bytes go in front of the unread ones, and the unread ones are read in two parts.
abbrev filled : Ring
filled = record { buf = 9 ∷ 1 ∷ 2 ∷ 3 ∷ 8 ∷ []; capacity = 5; head = 4; tail = 4; count = 5 }

copies_in_bounds_example :
    (All (IsInside 5) (push_copies wrapped (1 ∷ 2 ∷ 3 ∷ []))
      × (filled.buf ≡ perform (push_copies wrapped (1 ∷ 2 ∷ 3 ∷ [])) wrapped.buf)
      × ◌≡◌ {A = ℕ} 5 5
      × (4 ≡ (1 + 3) % 5)
      × (5 ≡ 2 + 3))
    × (All (IsInside 2) (peek_copies wrapped (0 ∷ 0 ∷ []))
        × (8 ∷ 9 ∷ [] ≡ perform (peek_copies wrapped (0 ∷ 0 ∷ [])) (0 ∷ 0 ∷ [])))
unfolding push peek free_space
copies_in_bounds_example =
    copies_in_bounds wrapped-IsValid (1 ∷ 2 ∷ 3 ∷ []) (0 ∷ 0 ∷ []) filled (8 ∷ 9 ∷ []) refl refl

from_big_endian-load_example :
    from_big_endian little 2 (load little (0xAA ∷ 0x55 ∷ [])) ≡ value_be (0xAA ∷ 0x55 ∷ [])
from_big_endian-load_example = from_big_endian-load little 2 (0xAA ∷ 0x55 ∷ []) (omega arith) refl

compute_crc16_detects_example : ◌≡◌ {A = ℕ} 3 3 × ◌≡◌ {A = ℕ} 4 4
compute_crc16_detects_example =
    compute_crc16_detects (1 ∷ 2 ∷ []) (5 ∷ []) 3 4 3 4 (omega arith) (omega arith) refl

hovering-IsSendable : IsSendable hovering
hovering-IsSendable = omega arith

decode-serialize_payload_example : decode (serialize_payload hovering) ≡ some hovering
decode-serialize_payload_example = decode-serialize_payload hovering hovering-IsSendable

-- A name of two bytes that would leave the payload, and bytes behind the payload.
deserialize_payload_lem_example :
    deserialize_payload little (0 ∷ 2 ∷ 68 ∷ 49 ∷ []) 3 ≡ decode (0 ∷ 2 ∷ 68 ∷ [])
deserialize_payload_lem_example =
    deserialize_payload_lem little (0 ∷ 2 ∷ 68 ∷ 49 ∷ []) 3 (omega arith) (omega arith)
      (omega arith)

crc16_modbus_lem_example : crc16_modbus (0x31 ∷ 0x32 ∷ []) ≡ compute_crc16 (0x31 ∷ 0x32 ∷ []) 2
crc16_modbus_lem_example = crc16_modbus_lem (0x31 ∷ 0x32 ∷ []) (omega arith)
