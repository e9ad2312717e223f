-- ===== src/Tests/Delivery.antt =====
-- A whole run of the threads on one packet, from the socket to the table of drones.
use counter_drone_streaming.Base.{
  Bool, true, false, ℕ, pos, List, [], ◌∷◌, ◌++◌, some, none, ◌≡◌, refl, ap, arith,
}
use counter_drone_streaming.Telemetry.{DataChunk}
use counter_drone_streaming.Bytes.{little, bytes_le}
use counter_drone_streaming.Bytes.BigEndian.{bytes_be}
use counter_drone_streaming.Queue.{act, push, pop}
use counter_drone_streaming.Table.{find?, id_key}
use counter_drone_streaming.Client.{Outputs}
use counter_drone_streaming.Parser.{
  Parser, Handled, handled, escaped, stuck, handle_chunk, handle_chunks, running, shutting_down,
}
use counter_drone_streaming.Parser.Ready.{IsChunk}
use counter_drone_streaming.Parser.Streams.{bytes_of}
use counter_drone_streaming.Wire.{
  build_packet, raw_packet, serialize_payload, crc16_modbus, crc16_bytes, crc16_rounds,
}
use counter_drone_streaming.Wire.Recovery.{packets}
use counter_drone_streaming.Wire.EndToEnd.{packets_are_delivered}
use counter_drone_streaming.Logic.{handle_packet, check_alerts, report_throughput, double_gt}
use counter_drone_streaming.Logic.{running as logic_running, shutting_down as logic_shutting_down}
use counter_drone_streaming.System.Worker.{
  starts, sends_out, logs_out, loops, goes_on, is_stopped, takes_item, ends,
}
use counter_drone_streaming.System.Stages.{survivor, say, say-Holds}
use counter_drone_streaming.System.Delivery.{last_of, packets_reach_the_table}
use counter_drone_streaming.Listener.{
  Ready, Wait, interrupted, ready, accepted, none_waits, received, no_more_data, event_loop,
  handle_events, handle_event, handle_accept, accept_client, emplace, handle_client_data,
}
use counter_drone_streaming.Tests.Sockets.{new_listener}
use counter_drone_streaming.System.Feed.{sockets_reach_the_table}
use counter_drone_streaming.System.Fleet.{drone_is_tracked, notices-Spares}
use counter_drone_streaming.System.{interrupted as is_interrupted}
use counter_drone_streaming.System.{
  System, launch, Reach, here, later, joins_listener, joins_parser, joins_logic, says_goodbye,
  joins_logger, listener_sends, listener_ends, parser_moves, parser_takes, parser_sends,
  parser_logs, logic_moves, logic_takes, logic_logs, logger_stops, logger_drains, logger_ends,
}
use counter_drone_streaming.Tests.Samples.{idle_parser, hovering}
use counter_drone_streaming.Tests.Streams.{nothing, idle-Holds}
use counter_drone_streaming.Tests.Threads.{still_clock, new_logic}

abbrev one_packet : DataChunk
one_packet = record { client_id = pos 7; bytes = packets (hovering ∷ []) }

abbrev started_parser : Parser
started_parser = say running idle_parser

survives :
    (p' : Parser)
    → handle_chunks little (one_packet ∷ []) started_parser ≡ handled p'
    → survivor (handle_chunk little one_packet started_parser) ≡ some p'
unfolding handle_chunks
survives p' = go (handle_chunk little one_packet started_parser)
  where
    go :
        (h : Handled)
        → (elim h [ handled p ↦ handled p | escaped x ↦ escaped x | stuck ↦ stuck ]) ≡ handled p'
        → survivor h ≡ some p'
    go (handled p) e = cc e
    go (escaped x) e = absurd (cc e)
    go stuck e = absurd (cc e)

-- The parser behind the packet.
fed :
    (p' : Parser) × (survivor (handle_chunk little one_packet started_parser) ≡ some p')
    × (p'.outputs ≡ record started_parser.outputs { parsed = hovering ∷ [] })
unfolding bytes_of packets build_packet raw_packet serialize_payload crc16_modbus crc16_bytes
    crc16_rounds bytes_be bytes_le
fed =
    let (p', is, out, _, _) =
      packets_are_delivered little (pos 7) (one_packet ∷ []) (hovering ∷ []) started_parser nothing
        (say-Holds running idle_parser nothing idle-Holds) refl (omega arith)
        ((refl, refl, omega arith), tt) (omega arith) refl in
    (p', survives p' is, out)

one_packet-IsChunk : IsChunk one_packet
unfolding packets build_packet raw_packet serialize_payload bytes_be bytes_le
one_packet-IsChunk = omega arith

abbrev launched : System little still_clock
launched = launch little still_clock idle_parser new_logic

-- The parser and the logic take the packet, before the signal.
abbrev handled_one : (s : System little still_clock) × Reach launched s
unfolding act push pop
handled_one =
    let r₁ = later here (parser_moves (starts tt refl)) in
    let r₂ = later r₁ (parser_logs running (logs_out running [] refl refl)) in
    let r₃ = later r₂ (parser_moves (loops refl (refl, refl))) in
    let r₄ = later r₃ (parser_moves (goes_on refl refl)) in
    let r₅ = later r₄ (listener_sends one_packet refl one_packet-IsChunk) in
    let taken = takes_item tt one_packet fed.0 refl fed.1 in
    let r₆ = later r₅ (parser_takes one_packet _ taken refl) in
    let parsed = ap (λ (o : Outputs). o.parsed) fed.2 in
    let logs = ap (λ (o : Outputs). o.logs) fed.2 in
    let r₇ = later r₆ (parser_sends hovering (sends_out hovering [] refl parsed)) in
    let r₈ = later r₇ (parser_moves (loops refl (parsed, logs))) in
    let s₁ = later r₈ (logic_moves (starts 0 refl)) in
    let s₂ = later s₁ (logic_logs logic_running (logs_out logic_running [] refl refl)) in
    let s₃ = later s₂ (logic_moves (loops refl (refl, refl))) in
    let s₄ = later s₃ (logic_moves (goes_on refl refl)) in
    (_, later s₄ (logic_takes hovering _ (takes_item 0 hovering _ refl refl) refl))

-- The signal comes, and the threads are stopped and joined.
abbrev delivered : (s : System little still_clock) × Reach launched s
unfolding handled_one act push pop handle_packet check_alerts report_throughput double_gt
delivered =
    let parsed = ap (λ (o : Outputs). o.parsed) fed.2 in
    let logs = ap (λ (o : Outputs). o.logs) fed.2 in
    let r₀ = later handled_one.1 (logic_moves (loops refl (refl, refl))) in
    let r₁ = later r₀ (is_interrupted refl) in
    let r₂ = later r₁ (listener_ends refl) in
    let r₃ = later r₂ (joins_listener refl refl) in
    let r₄ = later r₃ (parser_moves (is_stopped tt refl refl)) in
    let m = shutting_down fed.0.outputs.crc_failures in
    let all_logs = ap (λ ms. ms ++ (m ∷ [])) logs in
    let r₅ = later r₄ (parser_logs m (logs_out m [] refl all_logs)) in
    let r₆ = later r₅ (parser_moves (ends refl (parsed, all_logs))) in
    let r₇ = later r₆ (joins_parser refl refl) in
    let r₈ = later r₇ (logic_moves (is_stopped 0 refl refl)) in
    let bye = logic_shutting_down 0 (handled_one.0.logic.state) in
    let r₉ = later r₈ (logic_logs bye (logs_out bye [] refl refl)) in
    let q₀ = later r₉ (logic_moves (ends refl (refl, refl))) in
    let q₁ = later q₀ (joins_logic refl refl) in
    let q₂ = later q₁ (logger_stops refl refl) in
    let q₃ = later q₂ (logger_drains running _ refl refl) in
    let q₄ = later q₃ (logger_drains logic_running _ refl refl) in
    let q₅ = later q₄ (logger_drains m _ refl refl) in
    let q₆ = later q₅ (logger_drains bye _ refl refl) in
    let q₇ = later q₆ (logger_ends _ refl refl) in
    let q₈ = later q₇ (says_goodbye refl) in (_, later q₈ (joins_logger refl refl))

packets_reach_the_table_example :
    (hovering ∷ [] ≡ delivered.0.parsed.popped ++ delivered.0.parsed.queue.items)
    × (delivered.0.parser.state.outputs.crc_failures ≡ 0)
    × ((d : List ℕ)
        → find? d delivered.0.logic.state.drones ≡ last_of d delivered.0.parsed.popped none)
unfolding delivered handled_one act push pop handle_packet check_alerts report_throughput double_gt
    bytes_of packets build_packet raw_packet serialize_payload crc16_modbus crc16_bytes crc16_rounds
    bytes_be bytes_le
packets_reach_the_table_example =
    packets_reach_the_table idle_parser new_logic delivered.1 refl (pos 7) (hovering ∷ []) nothing
      idle-Holds refl refl refl ((refl, refl, omega arith), tt) (omega arith) refl

drone_is_tracked_example :
    find? (68 ∷ 49 ∷ []) delivered.0.logic.state.drones
    ≡ last_of (68 ∷ 49 ∷ []) (hovering ∷ []) none
unfolding delivered handled_one act push pop handle_packet check_alerts report_throughput double_gt
    bytes_of packets build_packet raw_packet serialize_payload crc16_modbus crc16_bytes crc16_rounds
    bytes_be bytes_le
drone_is_tracked_example =
    drone_is_tracked idle_parser new_logic delivered.1 refl (pos 7) (68 ∷ 49 ∷ []) []
      (hovering ∷ []) nothing idle-Holds refl refl refl refl ((λ _. (refl, omega arith)), tt) tt
      (omega arith) refl
      (notices-Spares (pos 7) (68 ∷ 49 ∷ []) (one_packet ∷ []) nothing (refl, tt))

-- The server accepts the client, which sends the packet in one piece and stays.
abbrev arrives : Ready
arrives = record {
  source_fd = pos 3;
  hangup = false;
  readable = true;
  accepts = accepted 7 [] none none ∷ none_waits ∷ [];
  recvs = [];
}

abbrev sends : Ready
sends = record {
  source_fd = pos 7;
  hangup = false;
  readable = true;
  accepts = [];
  recvs = received (packets (hovering ∷ [])) ∷ no_more_data ∷ [];
}

abbrev one_sender : List (Bool × Wait)
one_sender = (false, ready (arrives ∷ [])) ∷ (false, interrupted) ∷ (false, ready (sends ∷ [])) ∷ []

sockets_reach_the_table_example :
    find? (68 ∷ 49 ∷ []) delivered.0.logic.state.drones
    ≡ last_of (68 ∷ 49 ∷ []) (hovering ∷ []) none
unfolding delivered handled_one act push pop handle_packet check_alerts report_throughput double_gt
    bytes_of packets build_packet raw_packet serialize_payload crc16_modbus crc16_bytes crc16_rounds
    bytes_be bytes_le event_loop handle_events handle_event handle_accept accept_client emplace
    handle_client_data find?
sockets_reach_the_table_example =
    sockets_reach_the_table idle_parser new_logic delivered.1 refl (pos 3) (pos 4) (pos 7)
      one_sender new_listener (68 ∷ 49 ∷ []) [] (hovering ∷ []) nothing refl refl refl refl
      (omega arith) (refl, tt) refl tt (omega arith) idle-Holds refl refl refl
      (notices-Spares (pos 7) (68 ∷ 49 ∷ []) (one_packet ∷ []) nothing (refl, tt))
