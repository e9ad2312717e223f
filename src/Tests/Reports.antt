-- ===== src/Tests/Reports.antt =====
-- A run of the logic with two reports.
use counter_drone_streaming.Base.{ℕ, ◌-◌, leb, if◌then◌else◌, List, [], ◌∷◌, ◌++◌, ◌≡◌, refl, arith}
use counter_drone_streaming.Telemetry.{Telemetry}
use counter_drone_streaming.Logic.{Timing, Logic, run, running, double_gt, altitude_alert}
use counter_drone_streaming.Logic.Count.{count_new}
use counter_drone_streaming.Logic.Windows.{windows, told, report, farewell, drones_in}
use counter_drone_streaming.Logic.Reports.{run-logs}
use counter_drone_streaming.Tests.Samples.{hovering, climbing}

-- Readings in seconds; a span is 5.0 or 1.0, and a rate the number of packets.
abbrev coarse_clock : Timing
coarse_clock = record {
  Time = ℕ;
  seconds = λ a b. if leb 5 (b - a) then 0x4014000000000000 else 0x3FF0000000000000;
  divide = λ n s. n;
}

abbrev idle_logic : Logic coarse_clock
idle_logic = record {
  drones = [];
  packets_processed = 0;
  start_time = 0;
  last_report_time = 0;
  packets_at_last_report = 0;
  logs = [];
}

abbrev flight : List (Telemetry × ℕ)
flight =
    (climbing, 101) ∷ (hovering, 106) ∷ (hovering, 108) ∷ (hovering, 112) ∷ (climbing, 113) ∷ []

two_windows : windows coarse_clock 100 [] flight ≡ (
  ((climbing, 101) ∷ (hovering, 106) ∷ [], 106)
      ∷ ((hovering, 108) ∷ (hovering, 112) ∷ [], 112)
      ∷ [],
  (climbing, 113) ∷ [],
)
unfolding double_gt
two_windows = refl

what_is_told :
    told coarse_clock 100 100 [] (windows coarse_clock 100 [] flight)
    ≡ altitude_alert climbing
      ∷ report coarse_clock 100 100 106 2 2 1
      ∷ report coarse_clock 100 106 112 2 4 1
      ∷ altitude_alert climbing
      ∷ []
unfolding double_gt count_new
what_is_told = refl

run-logs_example :
    (run 100 flight 120 idle_logic).logs
    ≡ running
      ∷ (told coarse_clock 100 100 [] (windows coarse_clock 100 [] flight)
          ++ (farewell coarse_clock 100 120 5 (drones_in flight) ∷ []))
run-logs_example =
    run-logs coarse_clock 100 120 flight idle_logic refl refl refl (omega arith) (omega arith)
