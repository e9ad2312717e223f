-- ===== src/Client/Good.antt =====
-- The invariant of a client's state, and its unread bytes as the code reads them.
use counter_drone_streaming.Base.{
  ℕ, ◌+◌, ◌≤◌, ◌<◌, ◌≡◌, ◌∙◌, ap, arith, List, ◌++◌, take, drop, length, All, All-append, All-take,
  All-drop, length-drop, length-take, length-append,
}
use counter_drone_streaming.Ring.{Ring}
use counter_drone_streaming.Ring.Valid.{IsValid, IsByte}
use counter_drone_streaming.Ring.Refine.{contents}
use counter_drone_streaming.Telemetry.{packet_header}
use counter_drone_streaming.Bytes.{Endian}
use counter_drone_streaming.Bytes.BigEndian.{value_be, from_big_endian-load}
use counter_drone_streaming.Payload.Decode.{field, slice_take, field-append}
use counter_drone_streaming.Client.{
  State, wait_header, wait_length, wait_payload_and_crc, ClientState, load_uint16, max_payload_size,
}

-- What the earlier states have found at the front of the unread bytes `bs`.
abbrev pub Found : State → ℕ → List ℕ → Type 0
Found wait_header n bs = Unit {0}
Found wait_length n bs = (2 ≤ length bs) × (field 2 0 bs ≡ packet_header)
Found wait_payload_and_crc n bs =
    (4 ≤ length bs)
    × (field 2 0 bs ≡ packet_header)
    × (field 2 2 bs ≡ n)
    × (0 < n)
    × (n ≤ max_payload_size)

pub record IsGood (c : ClientState) : Type 0 where
  pub ring : IsValid c.ring_buffer
  pub found : Found c.state c.payload_length (contents c.ring_buffer)

pub contents-All : {r : Ring} → IsValid r → All IsByte (contents r)
contents-All {r} v =
    All-take IsByte r.count _
      (All-append IsByte (drop r.tail r.buf) r.buf (All-drop IsByte r.tail r.buf v.bytes) v.bytes)

-- A two-byte number in a peeked prefix is the one in the unread bytes.
pub load_uint16-field :
    (e : Endian) (offset n : ℕ) (bs : List ℕ)
    → All IsByte bs
    → offset + 2 ≤ n
    → n ≤ length bs
    → load_uint16 e (drop offset (take n bs)) ≡ field 2 offset bs
unfolding field
load_uint16-field e offset n bs h p q =
    let full : length (take 2 (drop offset (take n bs))) ≡ 2 = omega (
      arith,
      length-take 2 (drop offset (take n bs)),
      length-drop offset (take n bs),
      length-take n bs,
    ) in
    from_big_endian-load e 2 _
      (All-take IsByte 2 _ (All-drop IsByte offset _ (All-take IsByte n bs h))) full
    ∙ ap value_be (slice_take 2 offset n bs p)

-- What stays true of the front when bytes arrive behind it.
pub Found-append : (s : State) (n : ℕ) (bs more : List ℕ) → Found s n bs → Found s n (bs ++ more)
Found-append wait_header n bs more h = tt
Found-append wait_length n bs more h =
    (omega (arith, length-append bs more), field-append 2 0 bs more (omega arith) ∙ h.1)
Found-append wait_payload_and_crc n bs more h = (
  omega (arith, length-append bs more),
  field-append 2 0 bs more (omega arith) ∙ h.1,
  field-append 2 2 bs more (omega arith) ∙ h.2,
  h.3,
  h.4,
)
