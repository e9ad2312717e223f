-- ===== src/Payload.antt =====
-- `StreamingParser::deserialize_payload` of src/streamingParser.cpp.
pub mod Decode
use counter_drone_streaming.Base.{
  ℕ, List, take, drop, ltb, if◌then◌else◌, add_size, Option, none, some,
}
use counter_drone_streaming.Telemetry.{Telemetry}
use counter_drone_streaming.Bytes.{Endian, load, from_big_endian}

infixl 5 ◌>>=◌
abbrev pub ◌>>=◌ {ℓ κ} : {A : Type ℓ} {B : Type κ} → Option A → (A → Option B) → Option B
none >>= f = none
some a >>= f = f a

module _ (e : Endian) (bytes : List ℕ) (len : ℕ) where
  -- The lambda `read_field` at a type of `size` bytes: the field and the new offset.
  pub read_field : ℕ → ℕ → Option (ℕ × ℕ)
  read_field size offset =
      if ltb len (add_size offset size)
      then none
      else some
          (from_big_endian e size (load e (take size (drop offset bytes))), add_size offset size)

  -- The fields behind the drone's name.
  pub read_numbers : List ℕ → ℕ → Option Telemetry
  read_numbers drone_id offset = do
    (latitude, offset₁) ← read_field 8 offset
    (longitude, offset₂) ← read_field 8 offset₁
    (altitude, offset₃) ← read_field 8 offset₂
    (speed, offset₄) ← read_field 8 offset₃
    (timestamp, _) ← read_field 8 offset₄
    some (record {
      drone_id = drone_id;
      latitude = latitude;
      longitude = longitude;
      altitude = altitude;
      speed = speed;
      timestamp = timestamp;
    })

  -- `bytes` is what `data` points at; only the first `len` belong to the payload.
  pub deserialize_payload : Option Telemetry
  deserialize_payload = do
    (id_len, offset) ← read_field 2 0
    if ltb len (add_size offset id_len)
        then none
        else read_numbers (take id_len (drop offset bytes)) (add_size offset id_len)
