-- ===== src/Tests/Resync.antt =====
-- A false header before the packets.
use counter_drone_streaming.Base.{ℕ, pos, List, [], ◌∷◌, ◌≡◌, refl, arith}
use counter_drone_streaming.Telemetry.{DataChunk}
use counter_drone_streaming.Bytes.{little, bytes_le}
use counter_drone_streaming.Bytes.BigEndian.{bytes_be, value_be}
use counter_drone_streaming.Crc.{compute_crc16, crc_loop, crc_byte, crc_bits, crc_bit}
use counter_drone_streaming.Payload.Decode.{field}
use counter_drone_streaming.Client.Frame.{frame, sized, checked}
use counter_drone_streaming.Parser.{Parser, handle_chunks, handled}
use counter_drone_streaming.Parser.Spec.{waiting}
use counter_drone_streaming.Parser.Ready.{Holds}
use counter_drone_streaming.Parser.Streams.{bytes_of}
use counter_drone_streaming.Wire.{
  build_packet, raw_packet, serialize_payload, crc16_modbus, crc16_bytes, crc16_rounds,
}
use counter_drone_streaming.Wire.Recovery.{packets}
use counter_drone_streaming.Wire.Resync.{IsJunk, false_starts, fail_times}
use counter_drone_streaming.Wire.EndToEnd.{packets_are_recovered}
use counter_drone_streaming.Tests.Samples.{idle_parser, records, quiet}
use counter_drone_streaming.Tests.Streams.{nothing, idle-Holds}

-- A header, a length of one byte, and noise.
abbrev pub false_header : List ℕ
false_header = 7 ∷ 0xAA ∷ 0x55 ∷ 0 ∷ 1 ∷ 9 ∷ []

pub false_header-IsJunk : IsJunk (packets records) false_header
unfolding packets build_packet raw_packet serialize_payload crc16_modbus crc16_bytes crc16_rounds
    bytes_be bytes_le frame sized checked field value_be compute_crc16 crc_loop crc_byte crc_bits
    crc_bit
false_header-IsJunk = (tt, (tt, (tt, (tt, (tt, (tt, tt))))))

one_false_start : false_starts (packets records) false_header ≡ 1
unfolding packets build_packet raw_packet serialize_payload crc16_modbus crc16_bytes crc16_rounds
    bytes_be bytes_le frame sized checked field value_be compute_crc16 crc_loop crc_byte crc_bits
    crc_bit
one_false_start = refl

abbrev spoiled_stream : List DataChunk
spoiled_stream =
    record { client_id = pos 7; bytes = false_header }
    ∷ record { client_id = pos 7; bytes = packets records }
    ∷ []

packets_are_recovered_example :
    (p : Parser) × (handle_chunks little spoiled_stream idle_parser ≡ handled p)
    × (p.outputs ≡ record (fail_times (false_starts (packets records) false_header) quiet) {
      parsed = records;
    })
    × Holds p (waiting spoiled_stream nothing)
    × (waiting spoiled_stream nothing (pos 7) ≡ [])
unfolding bytes_of packets build_packet raw_packet serialize_payload crc16_modbus crc16_bytes
    crc16_rounds bytes_be bytes_le
packets_are_recovered_example =
    packets_are_recovered little (pos 7) spoiled_stream false_header records idle_parser nothing
      idle-Holds refl (omega arith) ((refl, refl, omega arith), ((refl, refl, omega arith), tt))
      false_header-IsJunk (omega arith) refl
