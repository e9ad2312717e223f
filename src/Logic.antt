-- ===== src/Logic.antt =====
-- src/businessLogic.cpp: the thread that tracks drones and raises alerts. A double is its 64-bit
-- IEEE 754 pattern. The clock and the arithmetic on doubles are the machine's: readings of the clock
-- are inputs, and `Timing` has the operations that the code applies to them.
pub mod Alerts
pub mod Tracking
pub mod Count
pub mod Lines
pub mod Windows
pub mod Round
pub mod Reports
use counter_drone_streaming.Base.{
  ℕ, ◌+◌, ◌-◌, ◌*◌, ◌%◌, ◌^◌, Bool, true, false, ◌||◌, List, [], ◌∷◌, ◌++◌, length, ltb, leb, ◌==◌,
  if◌then◌else◌, add_size, sub_size, ◌≡◌, ◌↔◌, arith,
}
use counter_drone_streaming.Message.{text, number, bytes, double, fixed, Message}
use counter_drone_streaming.Telemetry.{Telemetry}
use counter_drone_streaming.Table.{put, id_key}

-- A double's pattern is a sign bit, then the magnitude; magnitudes above that of infinity are NaN.
abbrev pub sign_bit : ℕ
sign_bit = 2 ^ 63

abbrev pub infinity : ℕ
infinity = 0x7FF0000000000000

abbrev pub is_negative : ℕ → Bool
is_negative d = leb sign_bit d

abbrev pub magnitude : ℕ → ℕ
magnitude d = if leb sign_bit d then d - sign_bit else d

abbrev pub is_nan : ℕ → Bool
is_nan d = ltb infinity (magnitude d)

-- `a > b` on doubles.
unfoldable pub double_gt : ℕ → ℕ → Bool
double_gt a b =
    if is_nan a || is_nan b
    then false
    else if is_negative a
    then (if is_negative b then ltb (magnitude a) (magnitude b) else false)
    else if is_negative b
    then ltb 0 (magnitude a + magnitude b)
    else ltb (magnitude b) (magnitude a)

-- 120.0 and 50.0
abbrev pub altitude_threshold : ℕ
altitude_threshold = 0x405E000000000000

abbrev pub speed_threshold : ℕ
speed_threshold = 0x4049000000000000

-- 5.0, the reporting interval in seconds.
abbrev pub report_interval : ℕ
report_interval = 0x4014000000000000

-- What the code asks of `std::chrono` and of the machine's doubles: the seconds between two readings
-- of the clock, and a number of packets converted and divided by seconds.
pub record Timing : Type 1 where
  pub Time : Type 0
  pub seconds : Time → Time → ℕ
  pub divide : ℕ → ℕ → ℕ

-- The members; `logs` is what has been pushed to the log queue, oldest first.
pub record Logic (T : Timing) : Type 0 where
  pub drones : List (List ℕ × Telemetry)
  pub packets_processed : ℕ
  pub start_time : T.Time
  pub last_report_time : T.Time
  pub packets_at_last_report : ℕ
  pub logs : List Message

abbrev pub altitude_alert : Telemetry → Message
altitude_alert t =
    text "[ALERT] Drone "
    ∷ bytes t.drone_id
    ∷ text " altitude "
    ∷ double t.altitude
    ∷ text " exceeds threshold "
    ∷ double altitude_threshold
    ∷ text "\n"
    ∷ []

abbrev pub speed_alert : Telemetry → Message
speed_alert t =
    text "[ALERT] Drone "
    ∷ bytes t.drone_id
    ∷ text " speed "
    ∷ double t.speed
    ∷ text " exceeds threshold "
    ∷ double speed_threshold
    ∷ text "\n"
    ∷ []

abbrev pub running : Message
running = text "[BusinessLogic] Running\n" ∷ []

-- Packets per second, 0.0 where no time has passed.
abbrev pub rate : Timing → ℕ → ℕ → ℕ
rate T packets elapsed = if double_gt elapsed 0 then T.divide packets elapsed else 0

module _ {T : Timing} where
  abbrev pub log : Message → Logic T → Logic T
  log m l = record l { logs = l.logs ++ (m ∷ []) }

  unfoldable pub active_drone_count : Logic T → ℕ
  active_drone_count l = length l.drones

  unfoldable pub check_alerts : Telemetry → Logic T → Logic T
  check_alerts t l =
      let l₁ = if double_gt t.altitude altitude_threshold then log (altitude_alert t) l else l in
      if double_gt t.speed speed_threshold then log (speed_alert t) l₁ else l₁

  abbrev pub throughput : ℕ → ℕ → Logic T → Message
  throughput interval_pps avg_pps l =
      text "[Throughput] "
      ∷ fixed interval_pps
      ∷ text " pkt/s (interval), "
      ∷ fixed avg_pps
      ∷ text " pkt/s (avg), "
      ∷ number l.packets_processed
      ∷ text " total, "
      ∷ number (length l.drones)
      ∷ text " drones\n"
      ∷ []

  -- `now` is the clock's reading.
  unfoldable pub report_throughput : T.Time → Logic T → Logic T
  report_throughput now l =
      let interval_elapsed = T.seconds l.last_report_time now in
      let interval_packets = sub_size l.packets_processed l.packets_at_last_report in
      let interval_pps = rate T interval_packets interval_elapsed in
      let avg_pps = rate T l.packets_processed (T.seconds l.start_time now) in
      if double_gt report_interval interval_elapsed
      then l
      else record (log (throughput interval_pps avg_pps l) l) {
        last_report_time = now;
        packets_at_last_report = l.packets_processed;
      }

  -- One round of the loop, for a packet that `pop` returned and the clock's reading behind it.
  unfoldable pub handle_packet : Telemetry → T.Time → Logic T → Logic T
  handle_packet t now l = report_throughput now (
      check_alerts t (record l {
        drones = put t.drone_id t l.drones;
        packets_processed = add_size l.packets_processed 1;
      }))

  unfoldable pub handle_packets : List (Telemetry × T.Time) → Logic T → Logic T
  handle_packets [] l = l
  handle_packets ((t, now) ∷ rs) l = handle_packets rs (handle_packet t now l)

  abbrev pub shutting_down : T.Time → Logic T → Message
  shutting_down now l =
      text "[BusinessLogic] Shutting down (processed "
      ∷ number l.packets_processed
      ∷ text " packets, "
      ∷ number (length l.drones)
      ∷ text " unique drones, avg "
      ∷ fixed (rate T l.packets_processed (T.seconds l.start_time now))
      ∷ text " pkt/s)\n"
      ∷ []

  -- The thread's run over the packets that `pop` returned until it returned none or the loop's test
  -- found a stop; `started` and `ended` are the clock's first and last reading.
  unfoldable pub run : T.Time → List (Telemetry × T.Time) → T.Time → Logic T → Logic T
  run started packets ended l =
      let l₁ = record (log running l) { start_time = started; last_report_time = started } in
      let l₂ = handle_packets packets l₁ in log (shutting_down ended l₂) l₂
