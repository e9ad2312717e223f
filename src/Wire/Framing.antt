-- ===== src/Wire/Framing.antt =====
-- The frame that the parser sees where a sender has put a packet.
use counter_drone_streaming.Base.{
  ℕ, zero, suc, ◌+◌, ◌≤◌, ◌<◌, ◌≡◌, refl, sym, ◌∙◌, ap, arith, Bool, true, false, List, [], ◌∷◌,
  ◌++◌, length, take, drop, All, All-append, Bool-cases, inl, inr, ◌==◌, if◌then◌else◌,
  length-append, take-length-append, drop-length-append, append_assoc, ==_iff,
}
use Prim.Native.Nat.{bit_xor}
use counter_drone_streaming.Ring.Valid.{IsByte}
use counter_drone_streaming.Telemetry.{Telemetry, packet_header}
use counter_drone_streaming.Bytes.{bytes_le}
use counter_drone_streaming.Bytes.BigEndian.{bytes_be, length-bytes_be, bytes_be-All}
use counter_drone_streaming.Payload.Decode.{field}
use counter_drone_streaming.Crc.{crc_bit, crc_bits, crc_byte, crc_loop, compute_crc16}
use counter_drone_streaming.Crc.Xor.{bit_xor-lt, bit_xor-injective, zero-bit_xor, bit_xor_comm}
use counter_drone_streaming.Crc.Detect.{compute_crc16-append, compute_crc16_lem, crc_loop-lt}
use counter_drone_streaming.Client.Frame.{corrupt, packet, frame}
use counter_drone_streaming.Wire.{
  serialize_payload, raw_packet, build_packet, crc16_modbus, crc16_bytes, crc16_rounds,
}
use counter_drone_streaming.Wire.RoundTrip.{
  IsSendable, field_front, field_skip, length-serialize_payload,
}

rounds_lem : (n c : ℕ) → crc16_rounds n c ≡ crc_bits n c
unfolding crc16_rounds crc_bits crc_bit
rounds_lem zero c = refl
rounds_lem (suc n) c = rounds_lem n _

bytes_lem : (c : ℕ) (bs : List ℕ) → crc16_bytes c bs ≡ crc_loop c bs
unfolding crc16_bytes crc_loop crc_byte
bytes_lem c [] = refl
bytes_lem c (b ∷ bs) =
    ap (λ k. crc16_bytes k bs) (rounds_lem 8 (bit_xor c b))
    ∙ bytes_lem (crc_bits 8 (bit_xor c b)) bs

-- The load test's crc16_modbus and the server's compute_crc16 agree on every string of bytes.
pub crc16_modbus_lem :
    (bs : List ℕ) → All IsByte bs → crc16_modbus bs ≡ compute_crc16 bs (length bs)
unfolding crc16_modbus
crc16_modbus_lem bs h =
    omega (arith, bytes_lem 0xFFFF bs, compute_crc16_lem bs, crc_loop-lt 0xFFFF bs (omega arith) h)

length-raw_packet : (p : List ℕ) → length (raw_packet p) ≡ length p + 4
unfolding raw_packet
length-raw_packet p = simp (length-append, length-bytes_be) (omega arith)

-- A packet with the checksum `c` behind it, and whatever follows.
module _ (p : List ℕ) (c : ℕ) (rest : List ℕ) (pos : 0 < length p) (small : length p ≤ 256)
    (fits : c < 65536) where
  stream : List ℕ
  stream = raw_packet p ++ (bytes_be 2 c ++ rest)

  header_lem : field 2 0 stream ≡ packet_header
  unfolding stream raw_packet
  header_lem = rw append_assoc (field_front 2 packet_header _ (omega arith))

  length_lem : field 2 2 stream ≡ length p
  unfolding stream raw_packet
  length_lem =
      rw (append_assoc, append_assoc)
        (field_skip (bytes_be 2 packet_header) _ 2 0 2
            (omega (arith, length-bytes_be 2 packet_header))
          ∙ field_front 2 (length p) _ (omega arith))

  crc_lem : field 2 (length p + 4) stream ≡ c
  unfolding stream
  crc_lem =
      field_skip (raw_packet p) _ 2 0 _ (omega (arith, length-raw_packet p))
      ∙ field_front 2 c rest fits

  payload_lem : take (length p) (drop 4 stream) ≡ p
  unfolding stream raw_packet
  payload_lem =
      let front = bytes_be 2 packet_header ++ bytes_be 2 (length p) in
      let tail_bytes = bytes_be 2 c ++ rest in
      let four : 4 ≡ length front = omega (
        arith,
        length-append (bytes_be 2 packet_header) (bytes_be 2 (length p)),
        length-bytes_be 2 packet_header,
        length-bytes_be 2 (length p),
      ) in
      let whole : raw_packet p ++ tail_bytes ≡ front ++ (p ++ tail_bytes) = simp append_assoc in
      ap (λ t. take (length p) (drop 4 t)) whole
      ∙ ap (λ k. take (length p) (drop k (front ++ (p ++ tail_bytes)))) four
      ∙ ap (take (length p)) (drop-length-append front (p ++ tail_bytes))
      ∙ take-length-append p tail_bytes

  length-stream : length p + 6 ≤ length stream
  unfolding stream
  length-stream = omega (
    arith,
    length-append (raw_packet p) (bytes_be 2 c ++ rest),
    length-append (bytes_be 2 c) rest,
    length-bytes_be 2 c,
    length-raw_packet p,
  )

  checksum_lem :
      compute_crc16 stream (length p + 4) ≡ compute_crc16 (raw_packet p) (length (raw_packet p))
  unfolding stream
  checksum_lem =
      compute_crc16-append (length p + 4) (raw_packet p) _ (omega (arith, length-raw_packet p))
      ∙ ap (compute_crc16 (raw_packet p)) (sym (length-raw_packet p))

  pub frame-raw_packet :
      frame (raw_packet p ++ (bytes_be 2 c ++ rest))
      ≡ (if c == compute_crc16 (raw_packet p) (length (raw_packet p)) then packet p else corrupt)
  unfolding stream frame
  frame-raw_packet =
      ground (arith, header_lem, length_lem, crc_lem, payload_lem, length-stream, checksum_lem)

module _ (t : Telemetry) (s : IsSendable t) where
  payload_bytes : All IsByte (serialize_payload t)
  unfolding serialize_payload
  payload_bytes =
      let num = λ (v : ℕ). bytes_be-All 8 v in
      All-append IsByte (bytes_be 2 (length t.drone_id)) _ (bytes_be-All 2 (length t.drone_id)) (
        All-append IsByte t.drone_id _ s.name (
          All-append IsByte (bytes_be 8 t.latitude) _ (num t.latitude) (
            All-append IsByte (bytes_be 8 t.longitude) _ (num t.longitude) (
              All-append IsByte (bytes_be 8 t.altitude) _ (num t.altitude)
                (All-append IsByte (bytes_be 8 t.speed) _ (num t.speed) (num t.timestamp))))))

  raw_bytes : All IsByte (raw_packet (serialize_payload t))
  unfolding raw_packet
  raw_bytes = All-append IsByte (bytes_be 2 packet_header) _ (bytes_be-All 2 packet_header) (
      All-append IsByte (bytes_be 2 (length (serialize_payload t))) _
        (bytes_be-All 2 (length (serialize_payload t))) payload_bytes)

  checksum : ℕ
  checksum =
      compute_crc16 (raw_packet (serialize_payload t)) (length (raw_packet (serialize_payload t)))

  checksum-lt : checksum < 65536
  unfolding checksum
  checksum-lt = omega (
    arith,
    compute_crc16_lem (raw_packet (serialize_payload t)),
    crc_loop-lt 0xFFFF (raw_packet (serialize_payload t)) (omega arith) raw_bytes,
  )

  framed :
      (c : ℕ) (rest : List ℕ)
      → c < 65536
      → frame (raw_packet (serialize_payload t) ++ (bytes_be 2 c ++ rest))
        ≡ (if c == checksum then packet (serialize_payload t) else corrupt)
  unfolding checksum
  framed c rest fits =
      let size = length-serialize_payload t in
      frame-raw_packet (serialize_payload t) c rest (omega (arith, size))
        (omega (arith, size, s.short)) fits

  -- The sender's way to spoil a checksum changes it.
  spoiled : (bit_xor checksum 0xBEEF == checksum) ≡ false
  spoiled = elim (Bool-cases (bit_xor checksum 0xBEEF == checksum)) [
    | inl same ↦
        let e : bit_xor 0xBEEF checksum ≡ bit_xor 0 checksum =
          bit_xor_comm 0xBEEF checksum ∙ (==_iff _ _).0 same ∙ sym (zero-bit_xor checksum) in
        absurd (omega (arith, bit_xor-injective 0xBEEF 0 checksum e))
    | inr other ↦ other
  ]

  -- Whatever follows it, a packet that the sender built from a record (a name of at most 214
  -- bytes, numbers of 64 bits) is framed as its payload, or as corrupt where the sender spoiled
  -- the checksum.
  pub frame-build_packet :
      (bad : Bool) (rest : List ℕ)
      → frame (build_packet t bad ++ rest) ≡ (if bad then corrupt else packet (serialize_payload t))
  unfolding build_packet checksum
  frame-build_packet false rest =
      rw (append_assoc, crc16_modbus_lem (raw_packet (serialize_payload t)) raw_bytes)
        (framed checksum rest checksum-lt ∙ rw ((==_iff checksum checksum).1 refl))
  frame-build_packet true rest =
      rw (append_assoc, crc16_modbus_lem (raw_packet (serialize_payload t)) raw_bytes)
        (framed (bit_xor checksum 0xBEEF) rest
            (bit_xor-lt 16 checksum 0xBEEF checksum-lt (omega arith))
          ∙ rw spoiled)

pub build_packet-All : (t : Telemetry) (bad : Bool) → IsSendable t → All IsByte (build_packet t bad)
unfolding build_packet
build_packet-All t bad s =
    All-append IsByte (raw_packet (serialize_payload t)) _ (raw_bytes t s) (bytes_be-All 2 _)

pub length-build_packet :
    (t : Telemetry) (bad : Bool) → length (build_packet t bad) ≡ length (serialize_payload t) + 6
unfolding build_packet
length-build_packet t bad = simp (length-append, length-bytes_be, length-raw_packet) (omega arith)

-- Every packet begins with the first byte of the header.
pub build_packet-cons :
    (t : Telemetry) (bad : Bool) → build_packet t bad ≡ 0xAA ∷ drop 1 (build_packet t bad)
unfolding build_packet raw_packet bytes_be bytes_le
build_packet-cons t bad = refl
