-- ===== src/Client/Frame.antt =====
-- The protocol without states: what stands at the front of a client's unread bytes.
use counter_drone_streaming.Base.{
  ℕ, zero, suc, ◌+◌, ◌||◌, List, [], ◌∷◌, ◌++◌, take, drop, length, ltb, ◌==◌, if◌then◌else◌,
  Option, some, none,
}
use counter_drone_streaming.Crc.{compute_crc16}
use counter_drone_streaming.Payload.Decode.{field, decode}
use counter_drone_streaming.Client.{Outputs, emit, fail, crc_mismatch, malformed_payload}

pub data Frame : Type 0 where
  -- Too few bytes to tell.
  partial : Frame
  -- No packet starts here.
  noise : Frame
  -- A packet, by its header and length, whose checksum is wrong.
  corrupt : Frame
  -- A packet with this payload.
  packet : List ℕ → Frame

-- The frame of `n` payload bytes: header, length, payload and checksum.
unfoldable pub checked : ℕ → List ℕ → Frame
checked n bs =
    if field 2 (n + 4) bs == compute_crc16 bs (n + 4) then packet (take n (drop 4 bs)) else corrupt

unfoldable pub sized : ℕ → List ℕ → Frame
unfolding checked
sized n bs =
    if n == 0 || ltb 256 n then noise else if ltb (length bs) (n + 6) then partial else checked n bs

unfoldable pub frame : List ℕ → Frame
unfolding sized
frame bs =
    if ltb (length bs) 2
    then partial
    else if field 2 0 bs == 0xAA55
    then if ltb (length bs) 4 then partial else sized (field 2 2 bs) bs
    else noise

-- What the parser reports of a stream, in order.
pub data Event : Type 0 where
  bad_crc : Event
  payload : List ℕ → Event

-- What is reported next and the bytes that are left then; nothing while the front is partial. One
-- byte is dropped where no good packet stands.
unfoldable pub next : List ℕ → Option (List Event × List ℕ)
next bs = elim (frame bs) [
  | partial ↦ none
  | noise ↦ some ([], drop 1 bs)
  | corrupt ↦ some (bad_crc ∷ [], drop 1 bs)
  | packet p ↦ some (payload p ∷ [], drop (length p + 6) bs)
]

-- The events of the bytes that are there, and the bytes that wait for more. Each round takes a
-- byte, so as many rounds as bytes are enough.
unfoldable pub scan_from : ℕ → List ℕ → List Event × List ℕ
scan_from zero bs = ([], bs)
scan_from (suc n) bs = elim (next bs) [
  | none ↦ ([], bs)
  | some (es, rest) ↦ let (es', rest') = scan_from n rest in (es ++ es', rest')
]

unfoldable pub scan : List ℕ → List Event × List ℕ
scan bs = scan_from (length bs) bs

-- What the parser puts out for an event.
unfoldable pub report : Event → Outputs → Outputs
report bad_crc o = fail crc_mismatch o
report (payload p) o = elim (decode p) [ some t ↦ emit t o | none ↦ fail malformed_payload o ]

unfoldable pub reports : List Event → Outputs → Outputs
reports [] o = o
reports (ev ∷ evs) o = reports evs (report ev o)
