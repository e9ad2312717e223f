-- ===== src/Logic/Windows.antt =====
-- What the logic of src/businessLogic.cpp logs over a run, told from the packets and the clock alone.
use counter_drone_streaming.Base.{
  ℕ, ◌+◌, ◌<◌, ◌^◌, Bool, false, List, [], ◌∷◌, ◌++◌, length, if◌then◌else◌,
}
use counter_drone_streaming.Message.{Message, text, number, fixed}
use counter_drone_streaming.Telemetry.{Telemetry}
use counter_drone_streaming.Table.{id_key}
use counter_drone_streaming.Logic.{Timing, double_gt, report_interval, rate}
use counter_drone_streaming.Logic.Alerts.{alerts}
use counter_drone_streaming.Logic.Count.{count_new, ids}

-- How many drones the packets are from.
abbrev pub drones_in : {X : Type 0} → List (Telemetry × X) → ℕ
drones_in ps = count_new (λ id. false) (ids ps)

abbrev pub alerts_in : {X : Type 0} → List (Telemetry × X) → List Message
alerts_in [] = []
alerts_in ((t, now) ∷ ps) = alerts t ++ alerts_in ps

-- The numbers of a packet are 64-bit patterns.
abbrev pub IsSized : {X : Type 0} → Telemetry × X → Type 0
IsSized (t, now) = (t.altitude < 2 ^ 64) × (t.speed < 2 ^ 64)

module _ (T : Timing) where
  abbrev pub Packet : Type 0
  Packet = Telemetry × T.Time

  -- Less than the reporting interval has passed.
  abbrev pub is_early : T.Time → T.Time → Bool
  is_early last now = double_gt report_interval (T.seconds last now)

  -- The packets cut into windows: each ends with the first packet that is not early, counted from
  -- the end of the one before, and has the time of that packet. The first list is what the open
  -- window has already, the last what is in none.
  abbrev pub windows :
      T.Time → List Packet → List Packet → List (List Packet × T.Time) × List Packet
  windows last open_part [] = ([], open_part)
  windows last open_part ((t, now) ∷ ps) =
      let w = open_part ++ ((t, now) ∷ []) in
      let grown = windows last w ps in
      let (ws, rest) = windows now [] ps in
      if is_early last now then grown else ((w, now) ∷ ws, rest)

  -- The report at the end of a window: of how many packets, and how many and from how many drones in
  -- all.
  abbrev pub report : (start last now : T.Time) (new total drones : ℕ) → Message
  report start last now new total drones =
      text "[Throughput] "
      ∷ fixed (rate T new (T.seconds last now))
      ∷ text " pkt/s (interval), "
      ∷ fixed (rate T total (T.seconds start now))
      ∷ text " pkt/s (avg), "
      ∷ number total
      ∷ text " total, "
      ∷ number drones
      ∷ text " drones\n"
      ∷ []

  abbrev pub farewell : (start ended : T.Time) (total drones : ℕ) → Message
  farewell start ended total drones =
      text "[BusinessLogic] Shutting down (processed "
      ∷ number total
      ∷ text " packets, "
      ∷ number drones
      ∷ text " unique drones, avg "
      ∷ fixed (rate T total (T.seconds start ended))
      ∷ text " pkt/s)\n"
      ∷ []

  -- The alerts of each window and its report, then the alerts behind the last window.
  abbrev pub told :
      T.Time → T.Time → List Packet → List (List Packet × T.Time) × List Packet → List Message
  told start last before ([], rest) = alerts_in rest
  told start last before ((w, now) ∷ ws, rest) =
      let total = length before + length w in
      alerts_in w
      ++ (report start last now (length w) total (drones_in (before ++ w))
          ∷ told start now (before ++ w) (ws, rest))
