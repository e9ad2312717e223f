-- ===== src/Logic/Tracking.antt =====
-- The table of drones and the counters.
use counter_drone_streaming.Base.{
  ℕ, ◌+◌, ◌^◌, ◌<◌, ◌≤◌, Bool, true, false, List, [], ◌∷◌, length, if◌then◌else◌, ◌≡◌, refl, arith,
  Option, some, Bool-cases, ◌⊎◌, inl, inr, add_size, add_size_lem, ◌∙◌, ap,
}
use counter_drone_streaming.Message.{Message}
use counter_drone_streaming.Telemetry.{Telemetry}
use counter_drone_streaming.Table.{find?, put, bytes_eq, id_key}
use counter_drone_streaming.Table.Laws.{find?-put}
use counter_drone_streaming.Logic.{
  Timing, Logic, double_gt, report_interval, log, altitude_alert, speed_alert, check_alerts,
  report_throughput, handle_packet, handle_packets,
}

-- The members that logging leaves alone.
record Same {T : Timing} (l l' : Logic T) : Type 0 where
  drones : l'.drones ≡ l.drones
  packets_processed : l'.packets_processed ≡ l.packets_processed
  packets_at_last_report : l'.packets_at_last_report ≡ l.packets_at_last_report

log_if-Same :
    {T : Timing} (b : Bool) (m : Message) (l k : Logic T)
    → Same l k
    → Same l (if b then log m k else k)
log_if-Same true m l k s = record {
  drones = s.drones;
  packets_processed = s.packets_processed;
  packets_at_last_report = s.packets_at_last_report;
}
log_if-Same false m l k s = s

check_alerts-Same : {T : Timing} (t : Telemetry) (l : Logic T) → Same l (check_alerts t l)
unfolding check_alerts
check_alerts-Same t l = log_if-Same _ (speed_alert t) l _ (
    log_if-Same _ (altitude_alert t) l l
      (record { drones = refl; packets_processed = refl; packets_at_last_report = refl }))

-- What one packet does to the table and to the counters.
pub record Handled {T : Timing} (t : Telemetry) (l l' : Logic T) : Type 0 where
  pub drones : l'.drones ≡ put t.drone_id t l.drones
  packets_processed : l'.packets_processed ≡ add_size l.packets_processed 1
  last :
      (l'.packets_at_last_report ≡ l.packets_at_last_report)
      ⊎ (l'.packets_at_last_report ≡ l'.packets_processed)

report-Handled :
    {T : Timing} (t : Telemetry) (now : T.Time) (l k m : Logic T)
    → Same m k
    → m.drones ≡ put t.drone_id t l.drones
    → m.packets_processed ≡ add_size l.packets_processed 1
    → m.packets_at_last_report ≡ l.packets_at_last_report
    → Handled t l (report_throughput now k)
unfolding report_throughput
report-Handled {T} t now l k m s d p a =
    elim (Bool-cases (double_gt report_interval (T.seconds k.last_report_time now))) [
      | inl below ↦ rw below (record {
        drones = s.drones ∙ d;
        packets_processed = s.packets_processed ∙ p;
        last = inl (s.packets_at_last_report ∙ a);
      })
      | inr due ↦ rw due (record {
        drones = s.drones ∙ d;
        packets_processed = s.packets_processed ∙ p;
        last = inr refl;
      })
    ]

pub handle_packet-Handled :
    {T : Timing} (t : Telemetry) (now : T.Time) (l : Logic T) → Handled t l (handle_packet t now l)
unfolding handle_packet
handle_packet-Handled t now l = report-Handled t now l _ _ (check_alerts-Same t _) refl refl refl

-- The last packet of a drone among the packets, or else what is given.
abbrev pub latest :
    {X : Type 0} → List ℕ → List (Telemetry × X) → Option Telemetry → Option Telemetry
latest id [] before = before
latest id ((t, _) ∷ ps) before = latest id ps (if bytes_eq t.drone_id id then some t else before)

-- The table holds every drone's last packet, and nothing for a drone that was not heard of.
pub find?-handle_packets :
    {T : Timing} (id : List ℕ) (ps : List (Telemetry × T.Time)) (l : Logic T)
    → find? id (handle_packets ps l).drones ≡ latest id ps (find? id l.drones)
unfolding handle_packets
find?-handle_packets id [] l = refl
find?-handle_packets id ((t, now) ∷ ps) l =
    find?-handle_packets id ps (handle_packet t now l)
    ∙ ap (latest id ps)
        (rw ((handle_packet-Handled t now l).drones) (find?-put t.drone_id id t l.drones))

-- While the count stays below 2 ^ 64, it is the number of packets, and the difference that a report
-- takes never wraps: the count at the last report is at most the count.
pub handle_packets-counts :
    {T : Timing} (ps : List (Telemetry × T.Time)) (l : Logic T)
    → l.packets_processed + length ps < 2 ^ 64
    → l.packets_at_last_report ≤ l.packets_processed
    → ((handle_packets ps l).packets_processed ≡ l.packets_processed + length ps)
      × ((handle_packets ps l).packets_at_last_report ≤ (handle_packets ps l).packets_processed)
unfolding handle_packets
handle_packets-counts [] l h k = (omega arith, k)
handle_packets-counts ((t, now) ∷ ps) l h k =
    let d = handle_packet-Handled t now l in
    let count = d.packets_processed ∙ add_size_lem l.packets_processed 1 (omega (arith, h)) in
    let last : (handle_packet t now l).packets_at_last_report
        ≤ (handle_packet t now l).packets_processed =
      elim d.last [ inl e ↦ omega (arith, e, count, k) | inr e ↦ omega (arith, e) ] in
    let later = handle_packets-counts ps (handle_packet t now l) (omega (arith, h, count)) last in
    (omega (arith, later.0, count), later.1)
