-- ===== src/Tests/Samples.antt =====
-- Inputs that the tests share.
use counter_drone_streaming.Base.{pos, List, [], ◌∷◌, take, drop}
use counter_drone_streaming.Ring.{Ring}
use counter_drone_streaming.Telemetry.{Telemetry, DataChunk}
use counter_drone_streaming.Client.{Outputs}
use counter_drone_streaming.Parser.{Parser}
use counter_drone_streaming.Wire.{build_packet}
use counter_drone_streaming.Wire.Recovery.{packets}

-- Five bytes with 8 and 9 unread, round the end of the array.
abbrev pub wrapped : Ring
wrapped = record { buf = 9 ∷ 0 ∷ 0 ∷ 0 ∷ 8 ∷ []; capacity = 5; head = 1; tail = 4; count = 2 }

-- "D1" at 120 m and 50 m/s, by the bit patterns of the doubles.
abbrev pub hovering : Telemetry
hovering = record {
  drone_id = 68 ∷ 49 ∷ [];
  latitude = 0x4040000000000000;
  longitude = 0x4041000000000000;
  altitude = 0x405E000000000000;
  speed = 0x4049000000000000;
  timestamp = 1700000000;
}

abbrev pub climbing : Telemetry
climbing = record hovering { altitude = 0x405E400000000000; timestamp = 1700000001 }

abbrev pub records : List Telemetry
records = hovering ∷ climbing ∷ []

abbrev pub quiet : Outputs
quiet = record { crc_failures = 0; parsed = []; logs = [] }

abbrev pub idle_parser : Parser
idle_parser = record { clients = []; outputs = quiet }

-- The two packets in three pieces, cut inside the first header and inside the second packet.
abbrev pub pieces : List DataChunk
unfolding packets build_packet
pieces =
    record { client_id = pos 7; bytes = take 1 (packets records) }
    ∷ record { client_id = pos 7; bytes = take 70 (drop 1 (packets records)) }
    ∷ record { client_id = pos 7; bytes = drop 71 (packets records) }
    ∷ []
