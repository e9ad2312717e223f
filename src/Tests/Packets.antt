-- ===== src/Tests/Packets.antt =====
-- Framing, damage and recovery.
use counter_drone_streaming.Base.{◌≡◌, [], ◌∷◌, ◌++◌, arith, All, true}
use counter_drone_streaming.Bytes.BigEndian.{bytes_be}
use counter_drone_streaming.Client.Frame.{frame, corrupt}
use counter_drone_streaming.Wire.{build_packet, raw_packet}
use counter_drone_streaming.Wire.RoundTrip.{IsSendable}
use counter_drone_streaming.Wire.Framing.{frame-build_packet}
use counter_drone_streaming.Wire.Damage.{checksum_of, frame-damaged}
use counter_drone_streaming.Tests.Samples.{hovering, records}

sendable : All IsSendable records
sendable = omega arith

frame-build_packet_example : frame (build_packet hovering true ++ (1 ∷ 2 ∷ [])) ≡ corrupt
frame-build_packet_example = frame-build_packet hovering sendable.0 true (1 ∷ 2 ∷ [])

frame-damaged_example :
    frame (
      raw_packet (1 ∷ 2 ∷ 9 ∷ 4 ∷ [])
      ++ (bytes_be 2 (checksum_of (1 ∷ 2 ∷ 3 ∷ 4 ∷ [])) ++ (0xAA ∷ [])))
    ≡ corrupt
frame-damaged_example =
    frame-damaged (1 ∷ []) (4 ∷ []) 2 3 2 9 (0xAA ∷ []) (omega arith) (omega arith) (omega arith)
      (λ e. absurd (omega (arith, e.1)))
