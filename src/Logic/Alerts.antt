-- ===== src/Logic/Alerts.antt =====
-- `check_alerts`: which patterns of a double raise an alert.
use counter_drone_streaming.Base.{
  ℕ, ◌^◌, ◌<◌, ◌≤◌, Bool, true, false, ◌&&◌, List, [], ◌∷◌, ◌++◌, ltb, leb, if◌then◌else◌, ◌≡◌,
  refl, arith, append_assoc, append-nil,
}
use counter_drone_streaming.Message.{Message}
use counter_drone_streaming.Telemetry.{Telemetry}
use counter_drone_streaming.Logic.{
  Timing, Logic, log, check_alerts, double_gt, infinity, altitude_alert, speed_alert,
  altitude_threshold, speed_threshold,
}

-- The patterns above a positive threshold are those between it and infinity.
abbrev pub exceeds : ℕ → ℕ → Bool
exceeds threshold d = ltb threshold d && leb d infinity

abbrev when : Bool → Message → List Message
when b m = if b then m ∷ [] else []

abbrev pub alerts : Telemetry → List Message
alerts t =
    when (exceeds altitude_threshold t.altitude) (altitude_alert t)
    ++ when (exceeds speed_threshold t.speed) (speed_alert t)

double_gt_lem :
    (d threshold : ℕ)
    → d < 2 ^ 64
    → threshold ≤ infinity
    → double_gt d threshold ≡ exceeds threshold d
unfolding double_gt
double_gt_lem d threshold h t = ground arith

log_two :
    {T : Timing} (a b : Bool) (m n : Message) (l : Logic T)
    → (let l₁ = if a then log m l else l in if b then log n l₁ else l₁)
      ≡ record l { logs = l.logs ++ (when a m ++ when b n) }
log_two false false m n l = rw (append-nil l.logs) refl
log_two false true m n l = refl
log_two true false m n l = refl
log_two true true m n l = rw (append_assoc l.logs (m ∷ []) (n ∷ [])) refl

-- For 64-bit patterns, `check_alerts` logs an alert for an altitude above 120.0, infinity included,
-- then one for a speed above 50.0; a NaN or a negative number raises none.
pub check_alerts_lem :
    (T : Timing) (t : Telemetry) (l : Logic T)
    → t.altitude < 2 ^ 64
    → t.speed < 2 ^ 64
    → check_alerts t l ≡ record l { logs = l.logs ++ alerts t }
unfolding check_alerts
check_alerts_lem T t l a s =
    rw
      (
        double_gt_lem t.altitude altitude_threshold a (omega arith),
        double_gt_lem t.speed speed_threshold s (omega arith),
      )
      (log_two _ _ (altitude_alert t) (speed_alert t) l)
