-- ===== src/System/Goodbye.antt =====
-- The last line of `main` in src/main.cpp, which it writes before the logger is joined.
use counter_drone_streaming.Base.{
  Bool, true, List, [], ◌∷◌, ◌++◌, some, none, ◌≡◌, ◌≢◌, ◌⊎◌, inl, inr, refl, sym, ◌∙◌, ap,
  append_assoc, append-nil,
}
use counter_drone_streaming.Message.{Message}
use counter_drone_streaming.Bytes.{Endian}
use counter_drone_streaming.Logic.{Timing}
use counter_drone_streaming.Queue.{Queue, returned, pop, popping, act, Trace}
use counter_drone_streaming.Queue.Fifo.{pop-none, pop-some, pop_stopped, took-trace}
use counter_drone_streaming.System.{
  saying_goodbye, joining_logger, main_returned, Shown, by_main, by_logger, goodbye, System, Reach,
  here, later, says_goodbye, joins_logger, logger_stop, Writing, testing_stop, popping_line,
  draining, finished_writing, logger_stops, logger_writes, logger_leaves, logger_drains,
  logger_ends,
}

abbrev pub shown_lines : List Message → List Shown
shown_lines [] = []
shown_lines (m ∷ ms) = by_logger m ∷ shown_lines ms

-- What is left in the queue once a line is written out.
line_out :
    (stop : Bool) (m n : Message) (ms : List Message) (q : Queue Message) (log : Trace Message)
    → log.queue.items ≡ m ∷ ms
    → pop stop log.queue ≡ returned (some n, q)
    → (n ≡ m) × ((act (popping stop) log).queue.items ≡ ms)
line_out stop m n ms q log e h =
    let split : n ∷ q.items ≡ m ∷ ms = sym (pop-some stop n log.queue q h) ∙ e in
    (cc split, ap (λ t. t.queue.items) (took-trace stop n q log h) ∙ (cc split))

module _ {e : Endian} {T : Timing} where
  -- A run from here to the end of `main` that shows this.
  abbrev pub Finishes : System e T → List Shown → Type 0
  Finishes s₀ shown = (s : System e T) × Reach s₀ s × (s.main ≡ main_returned) × (s.console ≡ shown)

  from_draining :
      (ms : List Message) (s₀ s : System e T)
      → Reach s₀ s
      → s.main ≡ joining_logger
      → s.writing ≡ draining
      → s.log.queue.items ≡ ms
      → Finishes s₀ (s.console ++ shown_lines ms)
  from_draining [] s₀ s r waits drains k = elim (pop_stopped true s.log.queue refl) [
    | inl h ↦ (
      _,
      later (later r (logger_ends s.log.queue drains h)) (joins_logger waits refl),
      refl,
      sym (append-nil s.console),
    )
    | inr (m, q, h) ↦ absurd (cc (sym k ∙ pop-some true m s.log.queue q h))
  ]
  from_draining (m ∷ ms) s₀ s r waits drains k = elim (pop_stopped true s.log.queue refl) [
    | inl h ↦ absurd (cc (sym k ∙ (pop-none true s.log.queue s.log.queue h).1))
    | inr (n, q, h) ↦
        let (same, left) = line_out true m n ms q s.log k h in
        let next : System e T = record s {
          written = s.written ++ (n ∷ []);
          console = s.console ++ (by_logger n ∷ []);
          log = act (popping true) s.log;
        } in
        let (s', r', done, shown) =
          from_draining ms s₀ next (later r (logger_drains n q drains h)) waits drains left in
        (
          s',
          r',
          done,
          shown
              ∙ append_assoc s.console (by_logger n ∷ []) (shown_lines ms)
              ∙ ap (λ k. s.console ++ (by_logger k ∷ shown_lines ms)) same,
        )
  ]

  from_testing :
      (ms : List Message) (s₀ s : System e T)
      → Reach s₀ s
      → s.main ≡ joining_logger
      → s.writing ≡ testing_stop
      → s.log.queue.items ≡ ms
      → Finishes s₀ (s.console ++ shown_lines ms)
  from_testing ms s₀ s r waits tests k =
      from_draining ms s₀ (record s { writing = draining })
        (later r (logger_stops tests (rw waits refl))) waits refl k

  from_popping :
      (ms : List Message) (s₀ s : System e T)
      → Reach s₀ s
      → s.main ≡ joining_logger
      → s.writing ≡ popping_line
      → s.log.queue.items ≡ ms
      → Finishes s₀ (s.console ++ shown_lines ms)
  from_popping ms s₀ s r waits pops k = go ms k (pop_stopped stop s.log.queue (rw waits refl))
    where
      stop : Bool
      stop = logger_stop s.main

      go :
          (ms : List Message)
          → s.log.queue.items ≡ ms
          → (pop stop s.log.queue ≡ returned (none, s.log.queue))
            ⊎ ((m : Message) × (q : Queue Message) × (pop stop s.log.queue ≡ returned (some m, q)))
          → Finishes s₀ (s.console ++ shown_lines ms)
      go ms k (inl h) =
          from_draining ms s₀ (record s { writing = draining })
            (later r (logger_leaves s.log.queue pops h)) waits refl k
      go [] k (inr (n, q, h)) = absurd (cc (sym k ∙ pop-some stop n s.log.queue q h))
      go (m ∷ ms) k (inr (n, q, h)) =
          let (same, left) = line_out stop m n ms q s.log k h in
          let next : System e T = record s {
            writing = testing_stop;
            written = s.written ++ (n ∷ []);
            console = s.console ++ (by_logger n ∷ []);
            log = act (popping stop) s.log;
          } in
          let (s', r', done, shown) =
            from_testing ms s₀ next (later r (logger_writes n q pops h)) waits refl left in
          (
            s',
            r',
            done,
            shown
                ∙ append_assoc s.console (by_logger n ∷ []) (shown_lines ms)
                ∙ ap (λ k. s.console ++ (by_logger k ∷ shown_lines ms)) same,
          )

  -- Where main is about to say that all threads have joined and the logger has not ended, all the
  -- lines that wait in the log queue can come out behind that line, and main return then.
  pub goodbye_comes_first :
      (s : System e T)
      → s.main ≡ saying_goodbye
      → s.writing ≢ finished_writing
      → Finishes s (s.console ++ (by_main goodbye ∷ shown_lines s.log.queue.items))
  goodbye_comes_first s at_end writes = go s.writing refl
    where
      said : System e T
      said = record s { main = joining_logger; console = s.console ++ (by_main goodbye ∷ []) }

      r : Reach s said
      r = later here (says_goodbye at_end)

      lines : List Message
      lines = s.log.queue.items

      whole : said.console ++ shown_lines lines ≡ s.console ++ (by_main goodbye ∷ shown_lines lines)
      whole = append_assoc s.console (by_main goodbye ∷ []) (shown_lines lines)

      go :
          (w : Writing)
          → s.writing ≡ w
          → Finishes s (s.console ++ (by_main goodbye ∷ shown_lines lines))
      go testing_stop k = rw whole at (from_testing lines s said r refl k refl)
      go popping_line k = rw whole at (from_popping lines s said r refl k refl)
      go draining k = rw whole at (from_draining lines s said r refl k refl)
      go finished_writing k = absurd (writes k)
