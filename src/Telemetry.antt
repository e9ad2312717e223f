-- ===== src/Telemetry.antt =====
-- include/telemetry.h: the packet constants, the telemetry record and the tagged chunk. A double is
-- its 64-bit IEEE 754 pattern, a `std::string` its bytes.
use counter_drone_streaming.Base.{ℕ, ℤ, List}

abbrev pub packet_header : ℕ
packet_header = 0xAA55

abbrev pub header_size : ℕ
header_size = 2

abbrev pub length_size : ℕ
length_size = 2

abbrev pub crc_size : ℕ
crc_size = 2

pub record Telemetry : Type 0 where
  pub drone_id : List ℕ
  pub latitude : ℕ
  pub longitude : ℕ
  pub altitude : ℕ
  pub speed : ℕ
  pub timestamp : ℕ

-- Empty bytes signal that the client has disconnected.
pub record DataChunk : Type 0 where
  pub client_id : ℤ
  pub bytes : List ℕ
