-- ===== src/Tests/Crossing.antt =====
-- src/listener.cpp: two sockets, from the network to the parser.
use counter_drone_streaming.Base.{
  ℕ, Bool, pos, true, false, List, [], ◌∷◌, ◌++◌, none, ◌≡◌, refl, replicate, arith, take, drop,
}
use counter_drone_streaming.Bytes.{little, bytes_le}
use counter_drone_streaming.Bytes.BigEndian.{bytes_be}
use counter_drone_streaming.Client.Frame.{bad_crc}
use counter_drone_streaming.Client.Step.{unread}
use counter_drone_streaming.Parser.{Parser, handle_chunks, handled, client_of}
use counter_drone_streaming.Parser.Spec.{tells, notices}
use counter_drone_streaming.Parser.Streams.{events_of}
use counter_drone_streaming.Listener.{
  Recv, Ready, Wait, interrupted, ready, accepted, none_waits, received, no_more_data, recv_error,
  event_loop,
}
use counter_drone_streaming.Message.{text}
use counter_drone_streaming.Listener.Heard.{all_chunks, reached, chunk_of, event_loop-queue}
use counter_drone_streaming.Wire.{
  build_packet, raw_packet, serialize_payload, crc16_modbus, crc16_bytes, crc16_rounds,
}
use counter_drone_streaming.Wire.Recovery.{packets, delivered}
use counter_drone_streaming.Wire.Resync.{false_starts}
use counter_drone_streaming.Wire.Sockets.{packets_cross_the_listener}
use counter_drone_streaming.Tests.Samples.{idle_parser, records, quiet}
use counter_drone_streaming.Tests.Streams.{nothing, idle-Holds}
use counter_drone_streaming.Tests.Sockets.{new_listener, network_rounds}
use counter_drone_streaming.Tests.Resync.{false_header, false_header-IsJunk}

event_loop-queue_example :
    (event_loop (pos 3) (pos 4) network_rounds new_listener).queue
    ≡ all_chunks (pos 3) (reached (pos 4) network_rounds)
event_loop-queue_example = event_loop-queue (pos 3) (pos 4) network_rounds new_listener

-- The last client of the batch comes after the eventfd, so its bytes stay in the socket.
heard_before_the_wake :
    all_chunks (pos 3) (reached (pos 4) network_rounds)
    ≡ chunk_of (pos 7) (1 ∷ 2 ∷ []) ∷ chunk_of (pos 7) (3 ∷ []) ∷ chunk_of (pos 7) [] ∷ []
heard_before_the_wake = refl

-- Descriptor 7 sends a false header and its packets, and closes; descriptor 9 sends a byte, and goes.
abbrev arrivals : Ready
arrivals = record {
  source_fd = pos 3;
  hangup = false;
  readable = true;
  accepts = accepted 7 [] none none ∷ accepted 9 [] none none ∷ none_waits ∷ [];
  recvs = [];
}

abbrev sent : List (List ℕ) → Recv → List Recv
sent [] end = end ∷ []
sent (p ∷ ps) end = received p ∷ sent ps end

abbrev sends : List (List ℕ) → Recv → Ready
sends ps end = record {
  source_fd = pos 7;
  hangup = false;
  readable = true;
  accepts = [];
  recvs = sent ps end;
}

abbrev goes : Ready
goes = record {
  source_fd = pos 9;
  hangup = false;
  readable = true;
  accepts = [];
  recvs = received (0xAA ∷ []) ∷ recv_error (text "reset" ∷ []) ∷ [];
}

abbrev crossing : List (Bool × Wait)
crossing =
    (false, ready (arrivals ∷ []))
    ∷ (false, ready (sends (false_header ∷ []) no_more_data ∷ goes ∷ []))
    ∷ (false, interrupted)
    ∷ (
      false,
      ready (sends (take 9 (packets records) ∷ drop 9 (packets records) ∷ []) (received []) ∷ []),
    )
    ∷ []

packets_cross_the_listener_example :
    (p : Parser) × (handle_chunks little
        (event_loop (pos 3) (pos 4) crossing new_listener).queue
        idle_parser
      ≡ handled p)
    × (p.outputs
        ≡ tells (notices (event_loop (pos 3) (pos 4) crossing new_listener).queue nothing) quiet)
    × (events_of (pos 7) (notices (event_loop (pos 3) (pos 4) crossing new_listener).queue nothing)
        ≡ replicate (false_starts (packets records) false_header) bad_crc ++ delivered records)
    × (unread (client_of (pos 7) p) ≡ [])
unfolding packets build_packet raw_packet serialize_payload crc16_modbus crc16_bytes crc16_rounds
    bytes_be bytes_le
packets_cross_the_listener_example =
    packets_cross_the_listener (pos 3) (pos 4) (pos 7) crossing new_listener little false_header
      records idle_parser nothing refl refl (omega arith) (refl, (refl, tt)) refl
      false_header-IsJunk (omega arith) idle-Holds refl
