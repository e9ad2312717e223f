-- ===== src/Parser.antt =====
-- `StreamingParser::run` of src/streamingParser.cpp: chunks go to the client that they came from.
pub mod Spec
pub mod Ready
pub mod Overflow
pub mod Refine
pub mod Streams
pub mod Grow
pub mod Records
pub mod Visits
pub mod Room
use counter_drone_streaming.Base.{
  ℤ, Bool, true, false, ℕ, List, [], ◌∷◌, ◌++◌, if◌then◌else◌, some, none,
}
use counter_drone_streaming.Message.{
  text, number, integer, Message, Exception, overflow_error, out_of_range, what, ok, err,
}
use counter_drone_streaming.Ring.{push}
use counter_drone_streaming.Telemetry.{DataChunk}
use counter_drone_streaming.Bytes.{Endian}
use counter_drone_streaming.Table.{find?, put, remove, int_key}
use counter_drone_streaming.Client.{
  ClientState, fresh_client, Outputs, log, finished, raised, out_of_fuel, process_client,
}

-- The parser: its clients by socket, and what it has put out.
pub record Parser : Type 0 where
  pub clients : List (ℤ × ClientState)
  pub outputs : Outputs

abbrev pub cleaned_up : ℤ → Message
cleaned_up id =
    text "[StreamingParser] Cleaned up state for client fd=" ∷ integer id ∷ text "\n" ∷ []

abbrev pub overflowed : Message → ℤ → Message
overflowed m id =
    text "[StreamingParser] " ∷ m ++ (text " — dropping client fd=" ∷ integer id ∷ text "\n" ∷ [])

abbrev pub unexpected : Message → ℤ → Message
unexpected m id =
    text "[StreamingParser] Unexpected error for client fd=" ∷ integer id ∷ text ": " ∷ m
    ++ (text " — dropping client\n" ∷ [])

-- How one round of `run` ends; an exception that no handler takes leaves the thread.
pub data Handled : Type 0 where
  handled : Parser → Handled
  escaped : Exception → Handled
  stuck : Handled

abbrev pub drop_client : ℤ → Message → Outputs → Parser → Handled
drop_client id m o p = handled (record { clients = remove id p.clients; outputs = log m o })

-- `m_clients[id]`
unfoldable pub client_of : ℤ → Parser → ClientState
client_of id p = elim (find? id p.clients) [ some c ↦ c | none ↦ fresh_client ]

-- The second `try` of `run`.
unfoldable pub drive : Endian → ℤ → ClientState → Parser → Handled
drive e id c p = elim (process_client e c p.outputs) [
  | finished c' o ↦ handled (record { clients = put id c' p.clients; outputs = o })
  | raised x c' o ↦ drop_client id (unexpected (what x) id) o p
  | out_of_fuel ↦ stuck
]

-- The handler of the first `try`, which takes only `std::overflow_error`.
unfoldable pub refuse : Exception → ℤ → Parser → Handled
refuse (overflow_error m) id p = drop_client id (overflowed m id) p.outputs p
refuse (out_of_range m) id p = escaped (out_of_range m)

-- The first `try`.
unfoldable pub receive : Endian → ℤ → List ℕ → Parser → Handled
receive e id bytes p =
    let c = client_of id p in
    elim (push c.ring_buffer bytes) [
      | ok r ↦ drive e id (record c { ring_buffer = r }) p
      | err x ↦ refuse x id p
    ]

abbrev pub is_empty {ℓ} : {A : Type ℓ} → List A → Bool
is_empty [] = true
is_empty (x ∷ xs) = false

-- One round of `run` on a chunk that `pop` returned.
unfoldable pub handle_chunk : Endian → DataChunk → Parser → Handled
handle_chunk e chunk p =
    if is_empty chunk.bytes
    then drop_client chunk.client_id (cleaned_up chunk.client_id) p.outputs p
    else receive e chunk.client_id chunk.bytes p

-- The rounds of `run`, for the chunks that `pop` returns until it is asked to stop.
unfoldable pub handle_chunks : Endian → List DataChunk → Parser → Handled
handle_chunks e [] p = handled p
handle_chunks e (chunk ∷ chunks) p = elim (handle_chunk e chunk p) [
  | handled p' ↦ handle_chunks e chunks p'
  | escaped x ↦ escaped x
  | stuck ↦ stuck
]

abbrev pub running : Message
running = text "[StreamingParser] Running\n" ∷ []

abbrev pub shutting_down : ℕ → Message
shutting_down failures =
    text "[StreamingParser] Shutting down (CRC failures: " ∷ number failures ∷ text ")\n" ∷ []

unfoldable pub run : Endian → List DataChunk → Parser → Handled
run e chunks p = elim (handle_chunks e chunks (record p { outputs = log running p.outputs })) [
  | handled p' ↦
      handled (record p' { outputs = log (shutting_down p'.outputs.crc_failures) p'.outputs })
  | escaped x ↦ escaped x
  | stuck ↦ stuck
]
