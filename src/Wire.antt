-- ===== src/Wire.antt =====
-- The wire format as its sender writes it: `crc16_modbus`, `serialize_payload` and `build_packet` of
-- tests/drone_load_test.py. Python's integers do not wrap; the checksum is masked to 16 bits.
pub mod RoundTrip
pub mod Framing
pub mod Recovery
pub mod Resync
pub mod EndToEnd
pub mod Sockets
pub mod Damage
use counter_drone_streaming.Base.{
  ℕ, zero, suc, ◌/◌, ◌%◌, ◌^◌, Bool, List, [], ◌∷◌, ◌++◌, length, ◌==◌, if◌then◌else◌,
}
use Prim.Native.Nat.{bit_xor}
use counter_drone_streaming.Telemetry.{Telemetry, packet_header}
use counter_drone_streaming.Bytes.BigEndian.{bytes_be}

-- The loop over the eight digits of a byte.
unfoldable pub crc16_rounds : ℕ → ℕ → ℕ
crc16_rounds zero crc = crc
crc16_rounds (suc n) crc =
    crc16_rounds n (if crc % 2 == 1 then bit_xor (crc / 2) 0xA001 else crc / 2)

unfoldable pub crc16_bytes : ℕ → List ℕ → ℕ
crc16_bytes crc [] = crc
crc16_bytes crc (b ∷ bs) = crc16_bytes (crc16_rounds 8 (bit_xor crc b)) bs

unfoldable pub crc16_modbus : List ℕ → ℕ
crc16_modbus bytes = crc16_bytes 0xFFFF bytes % 2 ^ 16

-- `struct.pack(">H{n}sddddQ", …)`
unfoldable pub serialize_payload : Telemetry → List ℕ
serialize_payload t =
    bytes_be 2 (length t.drone_id)
    ++ (t.drone_id
        ++ (bytes_be 8 t.latitude
            ++ (bytes_be 8 t.longitude
                ++ (bytes_be 8 t.altitude ++ (bytes_be 8 t.speed ++ bytes_be 8 t.timestamp)))))

unfoldable pub raw_packet : List ℕ → List ℕ
raw_packet payload = bytes_be 2 packet_header ++ (bytes_be 2 (length payload) ++ payload)

unfoldable pub build_packet : Telemetry → Bool → List ℕ
build_packet t corrupt_crc =
    let raw = raw_packet (serialize_payload t) in
    let crc = crc16_modbus raw in
    raw ++ bytes_be 2 (if corrupt_crc then bit_xor crc 0xBEEF else crc)
