-- ===== src/Logic/Round.antt =====
-- One packet of src/businessLogic.cpp, inside a window between two reports or at its end.
use counter_drone_streaming.Base.{
  ◌+◌, ◌<◌, ◌^◌, true, false, List, [], ◌∷◌, ◌++◌, length, length-append, ◌≡◌, refl, sym, ◌∙◌, ap,
  arith, append_assoc, sub_size, add_size,
}
use counter_drone_streaming.Telemetry.{Telemetry}
use counter_drone_streaming.Table.{put, id_key}
use counter_drone_streaming.Logic.{Timing, Logic, handle_packet, handle_packets, report_throughput}
use counter_drone_streaming.Logic.Alerts.{alerts, check_alerts_lem}
use counter_drone_streaming.Logic.Windows.{drones_in, alerts_in, Packet, is_early, report}

module _ (T : Timing) where
  -- The state in the middle of a window.
  pub record IsWithin (start last : T.Time) (before w : List (Packet T)) (l : Logic T)
      : Type 0 where
    pub processed : l.packets_processed ≡ length before + length w
    pub at_last : l.packets_at_last_report ≡ length before
    pub started : l.start_time ≡ start
    pub reported : l.last_report_time ≡ last
    pub counts :
        (ps : List (Packet T))
        → length (handle_packets ps l).drones ≡ drones_in (before ++ (w ++ ps))

  -- A packet before its report T.
  abbrev tracked : Telemetry → Logic T → Logic T
  tracked t l = record l {
    drones = put t.drone_id t l.drones;
    packets_processed = add_size l.packets_processed 1;
    logs = l.logs ++ alerts t;
  }

  handle_packet-tracked :
      (t : Telemetry) (now : T.Time) (l : Logic T)
      → t.altitude < 2 ^ 64
      → t.speed < 2 ^ 64
      → handle_packet t now l ≡ report_throughput now (tracked t l)
  unfolding handle_packet
  handle_packet-tracked t now l a s = ap (report_throughput now) (
      check_alerts_lem T t
        (record l {
          drones = put t.drone_id t l.drones;
          packets_processed = add_size l.packets_processed 1;
        })
        a s)

  pub alerts_in-append :
      (xs ys : List (Packet T)) → alerts_in (xs ++ ys) ≡ alerts_in xs ++ alerts_in ys
  alerts_in-append [] ys = refl
  alerts_in-append ((t, now) ∷ xs) ys =
      ap (λ ms. alerts t ++ ms) (alerts_in-append xs ys)
      ∙ sym (append_assoc (alerts t) (alerts_in xs) (alerts_in ys))

  pub early_packet :
      (t : Telemetry) (now : T.Time) (l : Logic T)
      → t.altitude < 2 ^ 64
      → t.speed < 2 ^ 64
      → is_early T l.last_report_time now ≡ true
      → handle_packet t now l ≡ tracked t l
  unfolding report_throughput
  early_packet t now l a s early = handle_packet-tracked t now l a s ∙ rw early refl

  late_packet :
      (t : Telemetry) (now : T.Time) (l : Logic T)
      → t.altitude < 2 ^ 64
      → t.speed < 2 ^ 64
      → is_early T l.last_report_time now ≡ false
      → let total = add_size l.packets_processed 1 in
        let new = sub_size total l.packets_at_last_report in
        let drones = length (put t.drone_id t l.drones) in
        handle_packet t now l ≡ record (tracked t l) {
          logs =
              (l.logs ++ alerts t)
              ++ (report T l.start_time l.last_report_time now new total drones ∷ []);
          last_report_time = now;
          packets_at_last_report = total;
        }
  unfolding report_throughput
  late_packet t now l a s late = handle_packet-tracked t now l a s ∙ rw late refl

  pub IsWithin-early :
      (start last : T.Time) (before w : List (Packet T)) (t : Telemetry) (now : T.Time)
      (l : Logic T)
      → IsWithin start last before w l
      → length before + length w + 1 < 2 ^ 64
      → handle_packet t now l ≡ tracked t l
      → IsWithin start last before (w ++ ((t, now) ∷ [])) (handle_packet t now l)
  unfolding handle_packets
  IsWithin-early start last before w t now l i small e = record {
    processed =
        ap (λ (k : Logic T). k.packets_processed) e
        ∙ omega (arith, i.processed, small, length-append w ((t, now) ∷ []));
    at_last = ap (λ (k : Logic T). k.packets_at_last_report) e ∙ i.at_last;
    started = ap (λ (k : Logic T). k.start_time) e ∙ i.started;
    reported = ap (λ (k : Logic T). k.last_report_time) e ∙ i.reported;
    counts = λ ps.
        i.counts ((t, now) ∷ ps)
        ∙ ap (λ qs. drones_in (before ++ qs)) (sym (append_assoc w ((t, now) ∷ []) ps));
  }

  -- The state behind a report T.
  pub IsWithin-late :
      (start last : T.Time) (before w : List (Packet T)) (t : Telemetry) (now : T.Time)
      (l : Logic T)
      → let w' = w ++ ((t, now) ∷ []) in
        IsWithin start last before w l
        → length before + length w + 1 < 2 ^ 64
        → t.altitude < 2 ^ 64
        → t.speed < 2 ^ 64
        → is_early T l.last_report_time now ≡ false
        → IsWithin start now (before ++ w') [] (handle_packet t now l)
          × ((handle_packet t now l).logs
              ≡ (l.logs ++ alerts t)
                ++ (report T start last now
                      (length w')
                      (length before + length w')
                      (drones_in (before ++ w'))
                    ∷ []))
  unfolding handle_packets
  IsWithin-late start last before w t now l i small a s late =
      let w' = w ++ ((t, now) ∷ []) in
      let e = late_packet t now l a s late in
      let size = length-append w ((t, now) ∷ []) in
      let sizes = length-append before w' in
      let total : add_size l.packets_processed 1 ≡ length before + length w' =
        omega (arith, i.processed, small, size) in
      let new : sub_size (add_size l.packets_processed 1) l.packets_at_last_report ≡ length w' =
        omega (arith, i.processed, i.at_last, small, size) in
      let drones : length (put t.drone_id t l.drones) ≡ drones_in (before ++ w') =
        sym (ap (λ (k : Logic T). length k.drones) e) ∙ i.counts ((t, now) ∷ []) in
      (
        record {
          processed = ap (λ (k : Logic T). k.packets_processed) e ∙ omega (arith, total, sizes);
          at_last = ap (λ (k : Logic T). k.packets_at_last_report) e ∙ omega (arith, total, sizes);
          started = ap (λ (k : Logic T). k.start_time) e ∙ i.started;
          reported = ap (λ (k : Logic T). k.last_report_time) e;
          counts = λ ps.
              i.counts ((t, now) ∷ ps)
              ∙ ap drones_in (
                  ap (λ qs. before ++ qs) (sym (append_assoc w ((t, now) ∷ []) ps))
                  ∙ sym (append_assoc before w' ps));
        },
        ap (λ (k : Logic T). k.logs) e ∙ (λ j.
            (l.logs ++ alerts t)
            ++ (report T (i.started j) (i.reported j) now (new j) (total j) (drones j) ∷ [])),
      )
