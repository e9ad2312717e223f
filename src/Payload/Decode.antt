-- ===== src/Payload/Decode.antt =====
-- The payload's layout as the protocol's table gives it, against `deserialize_payload`.
use counter_drone_streaming.Base.{
  ℕ, ◌+◌, ◌-◌, ◌^◌, ◌≤◌, ◌<◌, ◌≡◌, ap, ◌∙◌, arith, List, take, drop, length, ltb, if◌then◌else◌,
  Option, none, some, All, All-take, All-drop, length-take, length-drop, ◌++◌, drop-append,
  take-append, take-take, drop-take, add_size_lem, le→ltb,
}
use counter_drone_streaming.Ring.Valid.{IsByte}
use counter_drone_streaming.Telemetry.{Telemetry}
use counter_drone_streaming.Bytes.{Endian}
use counter_drone_streaming.Bytes.BigEndian.{value_be, from_big_endian-load, value_be-lt}
use counter_drone_streaming.Payload.{read_field, read_numbers, deserialize_payload}

-- The number in the `size` bytes at `offset`, in network order.
unfoldable pub field : ℕ → ℕ → List ℕ → ℕ
field size offset bs = value_be (take size (drop offset bs))

-- A name of `field 2 0` bytes behind its length, then five numbers of eight bytes; what follows
-- them is ignored.
unfoldable pub decode : List ℕ → Option Telemetry
decode bs =
    let id_len = field 2 0 bs in
    if ltb (length bs) 2
    then none
    else if ltb (length bs) (2 + id_len + 40)
    then none
    else some (record {
      drone_id = take id_len (drop 2 bs);
      latitude = field 8 (2 + id_len) bs;
      longitude = field 8 (2 + id_len + 8) bs;
      altitude = field 8 (2 + id_len + 16) bs;
      speed = field 8 (2 + id_len + 24) bs;
      timestamp = field 8 (2 + id_len + 32) bs;
    })

pub field_two-lt :
    (offset : ℕ) (bs : List ℕ) → All IsByte bs → offset + 2 ≤ length bs → field 2 offset bs < 65536
unfolding field
field_two-lt offset bs h k =
    let two : length (take 2 (drop offset bs)) ≡ 2 =
      omega (arith, length-take 2 (drop offset bs), length-drop offset bs) in
    omega (
      arith,
      value_be-lt (take 2 (drop offset bs)) (All-take IsByte 2 _ (All-drop IsByte offset bs h)),
      ap (λ (t : ℕ). 256 ^ t) two,
    )

-- A slice that ends within a prefix is a slice of the prefix.
pub slice_take :
    (size offset len : ℕ) (bs : List ℕ)
    → offset + size ≤ len
    → take size (drop offset (take len bs)) ≡ take size (drop offset bs)
slice_take size offset len bs h =
    ap (take size) (drop-take offset len bs)
    ∙ take-take size (len - offset) (drop offset bs) (omega arith)

-- A number within a prefix does not change when bytes follow.
pub field-append :
    (size offset : ℕ) (bs more : List ℕ)
    → offset + size ≤ length bs
    → field size offset (bs ++ more) ≡ field size offset bs
unfolding field
field-append size offset bs more h =
    ap (λ t. value_be (take size t)) (drop-append offset bs more (omega arith))
    ∙ ap value_be (take-append size (drop offset bs) more (omega (arith, length-drop offset bs)))

module _ (e : Endian) (bytes : List ℕ) (len : ℕ) (byte : All IsByte bytes)
    (within : len ≤ length bytes) (small : len < 2 ^ 63) where
  read_field_ok :
      (size offset : ℕ)
      → offset + size ≤ len
      → read_field e bytes len size offset
        ≡ some (field size offset (take len bytes), offset + size)
  unfolding read_field field
  read_field_ok size offset h =
      let slice = take size (drop offset bytes) in
      let full : length slice ≡ size =
        omega (arith, length-take size (drop offset bytes), length-drop offset bytes) in
      rw (
        add_size_lem offset size (omega arith),
        le→ltb len (offset + size) h,
        from_big_endian-load e size slice
            (All-take IsByte size _ (All-drop IsByte offset bytes byte)) full,
        slice_take size offset len bytes h,
      )

  read_field_short :
      (size offset : ℕ)
      → len < offset + size
      → offset < 2 ^ 63
      → size < 2 ^ 63
      → read_field e bytes len size offset ≡ none
  unfolding read_field
  read_field_short size offset h p q = ground arith

  read_numbers_short :
      (name : List ℕ) (o : ℕ) → len < o + 40 → o ≤ len → read_numbers e bytes len name o ≡ none
  unfolding read_numbers
  read_numbers_short name o h p = ground (
    arith,
    read_field_ok 8 o,
    read_field_short 8 o,
    read_field_ok 8 (o + 8),
    read_field_short 8 (o + 8),
    read_field_ok 8 (o + 8 + 8),
    read_field_short 8 (o + 8 + 8),
    read_field_ok 8 (o + 8 + 8 + 8),
    read_field_short 8 (o + 8 + 8 + 8),
    read_field_short 8 (o + 8 + 8 + 8 + 8),
  )

  read_numbers_ok :
      (name : List ℕ) (o : ℕ)
      → o + 40 ≤ len
      → read_numbers e bytes len name o
        ≡ some (record {
          drone_id = name;
          latitude = field 8 o (take len bytes);
          longitude = field 8 (o + 8) (take len bytes);
          altitude = field 8 (o + 16) (take len bytes);
          speed = field 8 (o + 24) (take len bytes);
          timestamp = field 8 (o + 32) (take len bytes);
        })
  unfolding read_numbers
  read_numbers_ok name o h = ground (
    arith,
    read_field_ok 8 o,
    read_field_ok 8 (o + 8),
    read_field_ok 8 (o + 8 + 8),
    read_field_ok 8 (o + 8 + 8 + 8),
    read_field_ok 8 (o + 8 + 8 + 8 + 8),
  )

  -- On bytes, for a length within them and below 2 ^ 63, deserialize_payload returns what the
  -- payload's layout gives on the first len bytes alone, on either kind of machine.
  pub deserialize_payload_lem : deserialize_payload e bytes len ≡ decode (take len bytes)
  unfolding deserialize_payload decode
  deserialize_payload_lem = ground (
    arith,
    payload_length,
    name_lt,
    read_field_ok 2 0,
    read_field_short 2 0,
    slice_take n 2 len bytes,
    read_numbers_ok (take n (drop 2 bytes)) (2 + n),
    read_numbers_short (take n (drop 2 bytes)) (2 + n),
  )
    where
      p : List ℕ
      p = take len bytes

      n : ℕ
      n = field 2 0 p

      payload_length : length p ≡ len
      payload_length = omega (arith, length-take len bytes)

      name_lt : 2 ≤ len → n < 65536
      name_lt h = field_two-lt 0 p (All-take IsByte len bytes byte) (omega (arith, payload_length))
