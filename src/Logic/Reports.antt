-- ===== src/Logic/Reports.antt =====
-- The lines of a whole run of src/businessLogic.cpp against the windows of its packets.
use counter_drone_streaming.Base.{
  ◌+◌, ◌<◌, ◌^◌, List, [], ◌∷◌, ◌++◌, length, length-append, All, ◌≡◌, refl, sym, ◌∙◌, ap, arith,
  append_assoc, append-nil, Bool-cases, inl, inr,
}
use counter_drone_streaming.Message.{Message}
use counter_drone_streaming.Telemetry.{Telemetry}
use counter_drone_streaming.Table.{id_key}
use counter_drone_streaming.Logic.{
  Timing, Logic, running, handle_packet, handle_packets, report_throughput, check_alerts, run, log,
  shutting_down, active_drone_count,
}
use counter_drone_streaming.Logic.Alerts.{alerts}
use counter_drone_streaming.Logic.Tracking.{handle_packets-counts}
use counter_drone_streaming.Logic.Count.{active_drone_count_lem}
use counter_drone_streaming.Logic.Windows.{
  drones_in, alerts_in, IsSized, Packet, is_early, windows, report, farewell, told,
}
use counter_drone_streaming.Logic.Round.{
  IsWithin, IsWithin-early, IsWithin-late, early_packet, alerts_in-append,
}

module _ (T : Timing) where
  handle_packets-logs :
      (ps : List (Packet T)) (start last : T.Time) (before w : List (Packet T)) (l : Logic T)
      → (shown : List Message) → IsWithin T start last before w l
      → length before + length w + length ps < 2 ^ 64
      → All IsSized ps
      → l.logs ≡ shown ++ alerts_in w
      → (handle_packets ps l).logs ≡ shown ++ told T start last before (windows T last w ps)
  unfolding handle_packets
  handle_packets-logs [] start last before w l shown i small sized k = k
  handle_packets-logs ((t, now) ∷ ps) start last before w l shown i small ((a, s), sized) k =
      let w' = w ++ ((t, now) ∷ []) in
      let size = length-append w ((t, now) ∷ []) in
      let fits : length before + length w + 1 < 2 ^ 64 = omega (arith, small) in
      let more : l.logs ++ alerts t ≡ shown ++ alerts_in w' =
        ap (λ ms. ms ++ alerts t) k
        ∙ append_assoc shown (alerts_in w) (alerts t)
        ∙ ap (λ ms. shown ++ ms)
            (ap (λ ms. alerts_in w ++ ms) (sym (append-nil (alerts t)))
              ∙ sym (alerts_in-append T w ((t, now) ∷ []))) in
      elim (Bool-cases (is_early T last now)) [
        | inl early ↦
            let e = early_packet T t now l a s (ap (λ z. is_early T z now) i.reported ∙ early) in
            rw early (
              handle_packets-logs ps start last before w' (handle_packet t now l) shown
                (IsWithin-early T start last before w t now l i fits e) (omega (arith, small, size))
                sized (ap (λ (k : Logic T). k.logs) e ∙ more))
        | inr late ↦
            let (i', logs) =
              IsWithin-late T start last before w t now l i fits a s
                (ap (λ z. is_early T z now) i.reported ∙ late) in
            let line =
              report T start last now (length w') (length before + length w')
                (drones_in (before ++ w')) in
            let rest = told T start now (before ++ w') (windows T now [] ps) in
            let whole : (handle_packet t now l).logs
                ≡ (shown ++ (alerts_in w' ++ (line ∷ []))) ++ [] =
              logs
              ∙ ap (λ ms. ms ++ (line ∷ [])) more
              ∙ append_assoc shown (alerts_in w') (line ∷ [])
              ∙ sym (append-nil (shown ++ (alerts_in w' ++ (line ∷ [])))) in
            rw late (
              handle_packets-logs ps start now (before ++ w') [] (handle_packet t now l)
                (shown ++ (alerts_in w' ++ (line ∷ []))) i'
                (omega (arith, small, size, length-append before w')) sized whole
              ∙ append_assoc shown (alerts_in w' ++ (line ∷ [])) rest
              ∙ ap (λ ms. shown ++ ms) (append_assoc (alerts_in w') (line ∷ []) rest))
      ]

  handle_packet-start :
      (t : Telemetry) (now : T.Time) (l : Logic T)
      → (handle_packet t now l).start_time ≡ l.start_time
  unfolding handle_packet check_alerts report_throughput
  handle_packet-start t now l = ground arith

  handle_packets-start :
      (ps : List (Packet T)) (l : Logic T) → (handle_packets ps l).start_time ≡ l.start_time
  unfolding handle_packets
  handle_packets-start [] l = refl
  handle_packets-start ((t, now) ∷ ps) l =
      handle_packets-start ps (handle_packet t now l) ∙ handle_packet-start t now l

  -- From an empty table and counts of zero, for packets with 64-bit numbers and fewer than 2 ^ 64
  -- of them: a run of the logic logs that it runs, then what the packets tell, then the shutdown
  -- with the number of packets and of different drones and the average rate. The packets fall into
  -- windows, each of which ends with the first packet that comes no less than the reporting
  -- interval after the end of the window before or the start; for each window the alerts of its
  -- packets are logged, in order, then one report, with the rate in the window, the rate since the
  -- start, and the numbers of packets and of different drones so far; and then the alerts of the
  -- packets behind the last window.
  pub run-logs :
      (start ended : T.Time) (ps : List (Packet T)) (l : Logic T)
      → l.drones ≡ []
      → l.packets_processed ≡ 0
      → l.packets_at_last_report ≡ 0
      → length ps < 2 ^ 64
      → All IsSized ps
      → (run start ps ended l).logs
        ≡ l.logs
          ++ (running
              ∷ (told T start start [] (windows T start [] ps)
                  ++ (farewell T start ended (length ps) (drones_in ps) ∷ [])))
  unfolding run active_drone_count
  run-logs start ended ps l fresh none_yet none_told small sized =
      let l₁ : Logic T = record (log running l) { start_time = start; last_report_time = start } in
      let counts : (qs : List (Packet T)) → length (handle_packets qs l₁).drones ≡ drones_in qs =
        λ qs. active_drone_count_lem T qs l₁ fresh in
      let (processed, _) =
        handle_packets-counts ps l₁ (omega (arith, small, none_yet))
          (omega (arith, none_yet, none_told)) in
      let total : (handle_packets ps l₁).packets_processed ≡ length ps =
        omega (arith, processed, none_yet) in
      let first =
        handle_packets-logs ps start start [] [] l₁ (l.logs ++ (running ∷ []))
          (record {
            processed = none_yet;
            at_last = none_told;
            started = refl;
            reported = refl;
            counts = counts;
          })
          (omega (arith, small)) sized (sym (append-nil (l.logs ++ (running ∷ [])))) in
      let bye = farewell T start ended (length ps) (drones_in ps) in
      let lines = told T start start [] (windows T start [] ps) in
      ap (λ ms. ms ++ (shutting_down ended (handle_packets ps l₁) ∷ [])) first
      ∙ (λ j.
          ((l.logs ++ (running ∷ [])) ++ lines)
          ++ (farewell T (handle_packets-start ps l₁ j) ended (total j) (counts ps j) ∷ []))
      ∙ append_assoc (l.logs ++ (running ∷ [])) lines (bye ∷ [])
      ∙ append_assoc l.logs (running ∷ []) (lines ++ (bye ∷ []))
