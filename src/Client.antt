-- ===== src/Client.antt =====
-- `ClientState` and `process_client` of include/streamingParser.h and src/streamingParser.cpp: the
-- state machine of one client. `e` is the machine's byte order. The queues that it pushes to are
-- unbounded in the program, so a push appends.
pub mod Frame
pub mod Scan
pub mod Good
pub mod Front
pub mod Step
pub mod Loop
pub mod Stream
use counter_drone_streaming.Base.{
  ℕ, zero, suc, ◌+◌, ◌*◌, ◌-◌, ℤ, int_eq, Bool, true, false, ◌||◌, List, [], ◌∷◌, ◌++◌, take, drop,
  length, replicate, ltb, ◌==◌, if◌then◌else◌, add_size, Option, none, some,
}
use counter_drone_streaming.Message.{
  text, number, integer, Message, Exception, overflow_error, out_of_range, what, Result, ok, err,
}
use counter_drone_streaming.Ring.{Ring, default_capacity, create, size, push, peek, consume}
use counter_drone_streaming.Telemetry.{packet_header, header_size, length_size, crc_size}
use counter_drone_streaming.Telemetry.{Telemetry, DataChunk}
use counter_drone_streaming.Bytes.{Endian, load, from_big_endian}
use counter_drone_streaming.Crc.{compute_crc16}
use counter_drone_streaming.Payload.{deserialize_payload}

abbrev pub max_payload_size : ℕ
max_payload_size = 256

pub data State : Type 0 where
  wait_header wait_length wait_payload_and_crc : State

pub record ClientState : Type 0 where
  pub state : State
  pub ring_buffer : Ring
  pub scratch_buf : List ℕ
  pub payload_length : ℕ

-- What a client's entry holds when it is made.
unfoldable pub fresh_client : ClientState
fresh_client = record {
  state = wait_header;
  ring_buffer = create default_capacity;
  scratch_buf = [];
  payload_length = 0;
}

-- The members outside the client's state that `process_client` writes: the failure counter, and
-- what has been pushed to the parsed queue and to the log queue, oldest first.
pub record Outputs : Type 0 where
  pub crc_failures : ℕ
  pub parsed : List Telemetry
  pub logs : List Message

abbrev pub log : Message → Outputs → Outputs
log m o = record o { logs = o.logs ++ (m ∷ []) }

abbrev pub emit : Telemetry → Outputs → Outputs
emit t o = record o { parsed = o.parsed ++ (t ∷ []) }

-- `++m_crc_failures` and a log line.
abbrev pub fail : Message → Outputs → Outputs
fail m o = log m (record o { crc_failures = add_size o.crc_failures 1 })

abbrev pub crc_mismatch : Message
crc_mismatch = text "[StreamingParser] CRC mismatch — resyncing\n" ∷ []

abbrev pub malformed_payload : Message
malformed_payload = text "[StreamingParser] Malformed payload — skipping\n" ∷ []

-- How one round of the `while (true)` ends: by `return`, by `continue`, or by an exception.
pub data Turn : Type 0 where
  returned : ClientState → Outputs → Turn
  continued : ClientState → Outputs → Turn
  thrown : Exception → ClientState → Outputs → Turn

abbrev pub try {ℓ} : {A : Type ℓ} → Result A → ClientState → Outputs → (A → Turn) → Turn
try (ok a) c o next = next a
try (err x) c o next = thrown x c o

-- Drops the first byte and hunts for a header again.
abbrev pub resync : ClientState → Outputs → Turn
resync c o =
    try (consume c.ring_buffer 1) c o
      λ r. continued (record c { ring_buffer = r; state = wait_header }) o

-- A `uint16_t` copied from two bytes.
abbrev pub load_uint16 : Endian → List ℕ → ℕ
load_uint16 e bytes = from_big_endian e 2 (load e (take 2 bytes))

-- `scratch_buf.resize(total)`
abbrev pub resize : List ℕ → ℕ → List ℕ
resize bytes n = take n bytes ++ replicate (n - length bytes) 0

module _ (e : Endian) where
  -- `case State::WAIT_HEADER`; the state is `wait_header` already when a byte is dropped.
  unfoldable pub find_header : ClientState → Outputs → Turn
  find_header c o =
      if ltb (size c.ring_buffer) header_size
      then returned c o
      else try (peek c.ring_buffer (replicate header_size 0)) c o λ header_buf.
        if load_uint16 e header_buf == packet_header
        then continued (record c { state = wait_length }) o
        else try (consume c.ring_buffer 1) c o λ r. continued (record c { ring_buffer = r }) o

  -- `case State::WAIT_LENGTH`
  unfoldable pub read_length : ClientState → Outputs → Turn
  read_length c o =
      if ltb (size c.ring_buffer) (header_size + length_size)
      then returned c o
      else try (peek c.ring_buffer (replicate (header_size + length_size) 0)) c o
          λ header_length_buf.
            let payload_length = load_uint16 e (drop header_size header_length_buf) in
            let c' = record c { payload_length = payload_length } in
            if payload_length == 0 || ltb max_payload_size payload_length
            then resync c' o
            else continued (record c' { state = wait_payload_and_crc }) o

  -- What becomes of a packet whose checksum is right.
  unfoldable pub deliver : List ℕ → ℕ → Outputs → Outputs
  deliver payload len o = elim (deserialize_payload e payload len) [
    | some t ↦ emit t o
    | none ↦ fail malformed_payload o
  ]

  -- `case State::WAIT_PAYLOAD_AND_CRC`; the sums cannot wrap, since `payload_length` is a `uint16_t`.
  unfoldable pub check_packet : ClientState → Outputs → Turn
  check_packet c o =
      let crc_data_len = header_size + length_size + c.payload_length in
      let total = crc_data_len + crc_size in
      let c₁ = record c { scratch_buf = resize c.scratch_buf total } in
      if ltb (size c.ring_buffer) total
      then returned c o
      else try (peek c.ring_buffer c₁.scratch_buf) c₁ o λ packet.
        let c₂ = record c { scratch_buf = packet } in
        if load_uint16 e (drop crc_data_len packet) == compute_crc16 packet crc_data_len
        then (try (consume c.ring_buffer total) c₂ o λ r.
            continued (record c₂ { ring_buffer = r; state = wait_header })
              (deliver (drop (header_size + length_size) packet) c.payload_length o))
        else resync c₂ (fail crc_mismatch o)

  turn_in : State → ClientState → Outputs → Turn
  turn_in wait_header c o = find_header c o
  turn_in wait_length c o = read_length c o
  turn_in wait_payload_and_crc c o = check_packet c o

  -- One round of the loop.
  unfoldable pub turn : ClientState → Outputs → Turn
  unfolding turn_in
  turn c o = turn_in c.state c o

-- How a call of `process_client` ends.
pub data Outcome : Type 0 where
  finished : ClientState → Outputs → Outcome
  raised : Exception → ClientState → Outputs → Outcome
  out_of_fuel : Outcome

unfoldable pub process_loop : ℕ → Endian → ClientState → Outputs → Outcome
process_loop zero e c o = out_of_fuel
process_loop (suc fuel) e c o = elim (turn e c o) [
  | returned c' o' ↦ finished c' o'
  | continued c' o' ↦ process_loop fuel e c' o'
  | thrown x c' o' ↦ raised x c' o'
]

-- Each byte is looked at in three states at most.
abbrev pub enough_fuel : ClientState → ℕ
enough_fuel c = 3 * size c.ring_buffer + 3

unfoldable pub process_client : Endian → ClientState → Outputs → Outcome
process_client e c o = process_loop (enough_fuel c) e c o
