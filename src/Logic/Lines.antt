-- ===== src/Logic/Lines.antt =====
-- What the logic has logged is never taken back.
use counter_drone_streaming.Base.{
  Bool, true, false, [], ◌∷◌, if◌then◌else◌, Extends, Extends-refl, Extends-append, Extends-trans,
  if-holds,
}
use counter_drone_streaming.Message.{Message}
use counter_drone_streaming.Telemetry.{Telemetry}
use counter_drone_streaming.Logic.{
  Timing, Logic, log, check_alerts, report_throughput, handle_packet, altitude_alert, speed_alert,
  double_gt, altitude_threshold, speed_threshold,
}

log_if-Extends :
    {T : Timing} (b : Bool) (m : Message) (l : Logic T)
    → Extends l.logs (if b then log m l else l).logs
log_if-Extends true m l = Extends-append l.logs (m ∷ [])
log_if-Extends false m l = Extends-refl l.logs

check_alerts-Extends :
    {T : Timing} (t : Telemetry) (l : Logic T) → Extends l.logs (check_alerts t l).logs
unfolding check_alerts
check_alerts-Extends t l =
    Extends-trans (log_if-Extends (double_gt t.altitude altitude_threshold) (altitude_alert t) l)
      (log_if-Extends (double_gt t.speed speed_threshold) (speed_alert t) _)

report_throughput-Extends :
    {T : Timing} (now : T.Time) (l : Logic T) → Extends l.logs (report_throughput now l).logs
unfolding report_throughput
report_throughput-Extends {T} now l =
    if-holds (λ (k : Logic T). Extends l.logs k.logs) _ _ _ (Extends-refl l.logs)
      (Extends-append l.logs _)

pub handle_packet-Extends :
    {T : Timing} (t : Telemetry) (now : T.Time) (l : Logic T)
    → Extends l.logs (handle_packet t now l).logs
unfolding handle_packet
handle_packet-Extends t now l =
    Extends-trans (check_alerts-Extends t _) (report_throughput-Extends now _)
