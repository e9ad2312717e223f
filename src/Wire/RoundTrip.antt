-- ===== src/Wire/RoundTrip.antt =====
-- What the parser makes of the packets that a sender builds.
use counter_drone_streaming.Base.{
  ℕ, ◌+◌, ◌^◌, ◌≤◌, ◌<◌, ◌≡◌, refl, sym, ◌∙◌, ap, arith, List, [], ◌++◌, length, take, drop, All,
  some, length-append, take-length-append, drop-length-append, append-nil, drop-drop,
}
use counter_drone_streaming.Ring.Valid.{IsByte}
use counter_drone_streaming.Telemetry.{Telemetry}
use counter_drone_streaming.Bytes.BigEndian.{bytes_be, value_be, length-bytes_be, value_be-bytes_be}
use counter_drone_streaming.Payload.Decode.{field, decode}
use counter_drone_streaming.Wire.{serialize_payload}

-- What a sender's record may hold: a name of at most 214 bytes, and numbers of 64 bits.
pub record IsSendable (t : Telemetry) : Type 0 where
  pub name : All IsByte t.drone_id
  pub short : length t.drone_id ≤ 214
  pub latitude : t.latitude < 2 ^ 64
  pub longitude : t.longitude < 2 ^ 64
  pub altitude : t.altitude < 2 ^ 64
  pub speed : t.speed < 2 ^ 64
  pub timestamp : t.timestamp < 2 ^ 64

-- A number at the front, and one behind other bytes.
pub field_front :
    (size v : ℕ) (rest : List ℕ) → v < 256 ^ size → field size 0 (bytes_be size v ++ rest) ≡ v
unfolding field
field_front size v rest h =
    ap value_be (
      ap (λ k. take k (bytes_be size v ++ rest)) (sym (length-bytes_be size v))
      ∙ take-length-append (bytes_be size v) rest)
    ∙ value_be-bytes_be size v h

pub field_skip :
    (xs ys : List ℕ) (size k offset : ℕ)
    → offset ≡ length xs + k
    → field size offset (xs ++ ys) ≡ field size k ys
unfolding field
field_skip xs ys size k offset e =
    ap (λ t. value_be (take size (drop t (xs ++ ys)))) e
    ∙ ap (λ t. value_be (take size t))
        (sym (drop-drop k (length xs) (xs ++ ys)) ∙ ap (drop k) (drop-length-append xs ys))

-- One number, and then the next.
field_next : (v : ℕ) (ys : List ℕ) (k : ℕ) → field 8 (k + 8) (bytes_be 8 v ++ ys) ≡ field 8 k ys
field_next v ys k = field_skip (bytes_be 8 v) ys 8 k (k + 8) (omega (arith, length-bytes_be 8 v))

pub length-serialize_payload :
    (t : Telemetry) → length (serialize_payload t) ≡ length t.drone_id + 42
unfolding serialize_payload
length-serialize_payload t = simp (length-append, length-bytes_be) (omega arith)

module _ (t : Telemetry) (s : IsSendable t) where
  numbers : List ℕ
  numbers =
      bytes_be 8 t.latitude
      ++ (bytes_be 8 t.longitude
          ++ (bytes_be 8 t.altitude ++ (bytes_be 8 t.speed ++ bytes_be 8 t.timestamp)))

  name_length : field 2 0 (serialize_payload t) ≡ length t.drone_id
  unfolding serialize_payload
  name_length = field_front 2 (length t.drone_id) _ (omega (arith, s.short))

  -- The numbers stand behind the name.
  field-numbers :
      (k : ℕ) → field 8 (2 + length t.drone_id + k) (serialize_payload t) ≡ field 8 k numbers
  unfolding serialize_payload numbers
  field-numbers k =
      field_skip (bytes_be 2 (length t.drone_id)) (t.drone_id ++ numbers) 8 (length t.drone_id + k)
        _ (omega (arith, length-bytes_be 2 (length t.drone_id)))
      ∙ field_skip t.drone_id numbers 8 k _ refl

  field_last : field 8 0 (bytes_be 8 t.timestamp) ≡ t.timestamp
  field_last =
      ap (field 8 0) (sym (append-nil (bytes_be 8 t.timestamp)))
      ∙ field_front 8 t.timestamp [] s.timestamp

  numbers_lem :
      (field 8 0 numbers ≡ t.latitude)
      × (field 8 8 numbers ≡ t.longitude)
      × (field 8 16 numbers ≡ t.altitude)
      × (field 8 24 numbers ≡ t.speed)
      × (field 8 32 numbers ≡ t.timestamp)
  unfolding numbers
  numbers_lem = (
    field_front 8 t.latitude _ s.latitude,
    field_next t.latitude _ 0 ∙ field_front 8 t.longitude _ s.longitude,
    field_next t.latitude _ 8 ∙ field_next t.longitude _ 0 ∙ field_front 8 t.altitude _ s.altitude,
    field_next t.latitude _ 16
        ∙ field_next t.longitude _ 8
        ∙ field_next t.altitude _ 0
        ∙ field_front 8 t.speed _ s.speed,
    field_next t.latitude _ 24
        ∙ field_next t.longitude _ 16
        ∙ field_next t.altitude _ 8
        ∙ field_next t.speed _ 0
        ∙ field_last,
  )

  name_bytes : take (length t.drone_id) (drop 2 (serialize_payload t)) ≡ t.drone_id
  unfolding serialize_payload
  name_bytes =
      ap (λ k. take (length t.drone_id) (drop k (serialize_payload t)))
        (sym (length-bytes_be 2 (length t.drone_id)))
      ∙ ap (take (length t.drone_id)) (drop-length-append (bytes_be 2 (length t.drone_id)) _)
      ∙ take-length-append t.drone_id _

  -- For a record with a name of at most 214 bytes and numbers of 64 bits, decoding the sender's
  -- serialized payload returns the record.
  pub decode-serialize_payload : decode (serialize_payload t) ≡ some t
  unfolding decode
  decode-serialize_payload = ground (
    arith,
    name_length,
    length-serialize_payload t,
    name_bytes,
    numbers_lem,
    field-numbers 0,
    field-numbers 8,
    field-numbers 16,
    field-numbers 24,
    field-numbers 32,
  )
