-- ===== src/System/Progress.antt =====
-- What the threads of src/main.cpp can do while `main` waits for one of them to end.
use counter_drone_streaming.Base.{
  Bool, true, false, List, [], ◌∷◌, ◌++◌, some, none, ◌≡◌, ◌≢◌, refl, ◌∙◌, ◌⊎◌, inl, inr,
  append-nil,
}
use counter_drone_streaming.Message.{Message}
use counter_drone_streaming.Telemetry.{Telemetry, DataChunk}
use counter_drone_streaming.Bytes.{Endian}
use counter_drone_streaming.Queue.{Queue, returned, pop}
use counter_drone_streaming.Queue.Fifo.{pop_stopped}
use counter_drone_streaming.System.Links.{raw_took}
use counter_drone_streaming.Parser.{Parser}
use counter_drone_streaming.Logic.{Timing, Logic}
use counter_drone_streaming.System.Worker.{
  Worker, Thread, Phase, starting, testing, popping, publishing, closing, ended, silent, sends,
  logs_line, Move, is_busy, IsPublished, starts, sends_out, logs_out, loops, goes_on, is_stopped,
  takes_item, leaves, ends,
}
use counter_drone_streaming.System.Worker.Run.{IsRunning}
use counter_drone_streaming.System.Stages.{parser_worker, logic_worker, IsInStep, Nothing}
use counter_drone_streaming.System.{
  parser_stop, logic_stop, logger_stop, Main, polling, joining_listener, joining_parser,
  joining_logic, saying_goodbye, joining_logger, main_returned, Writing, testing_stop, popping_line,
  draining, finished_writing, System, Step, Reach, launch, joins_listener, joins_parser,
  joins_logic, says_goodbye, joins_logger, listener_ends, parser_moves, parser_takes,
  parser_finds_none, parser_sends, parser_logs, logic_moves, logic_takes, logic_finds_none,
  logic_logs, logger_stops, logger_writes, logger_leaves, logger_drains, logger_ends,
}
use counter_drone_streaming.System.Inv.{Inv, launch-Inv, Reach-Inv}

Phase-Discrete : Discrete Phase
Phase-Discrete = hlevel

Writing-Discrete : Discrete Writing
Writing-Discrete = hlevel

module _ {In Out : Type 0} (W : Worker In Out) where
  -- What a thread can do by itself; in `pop` it depends on the queue.
  data Can (stop : Bool) (t : Thread W) : Type 0 where
    can_move : {t' : Thread W} → Move W stop t silent t' → Can stop t
    can_send : {t' : Thread W} (o : Out) → Move W stop t (sends o) t' → Can stop t
    can_log : {t' : Thread W} (m : Message) → Move W stop t (logs_line m) t' → Can stop t
    at_pop : t.phase ≡ popping → Can stop t
    has_ended : t.phase ≡ ended → Can stop t

  -- A busy thread sends, logs, or has published all.
  busy-Can :
      {stop : Bool} {s₀ : W.State} (t : Thread W)
      → IsRunning W s₀ t
      → is_busy t.phase ≡ true
      → (IsPublished W t → Can stop t)
      → Can stop t
  busy-Can {stop} t i b done =
      go i.unsent.rest i.unlogged.rest i.unsent.extended i.unlogged.extended
    where
      go :
          (os : List Out) (ms : List Message)
          → W.outs t.state ≡ t.sent ++ os
          → W.logs t.state ≡ t.logged ++ ms
          → Can stop t
      go (o ∷ os) ms e f = can_send o (sends_out o os b e)
      go [] (m ∷ ms) e f = can_log m (logs_out m ms b f)
      go [] [] e f = done (e ∙ append-nil t.sent, f ∙ append-nil t.logged)

  thread-Can :
      {s₀ : W.State} (stop : Bool) (now : W.Reading) (t : Thread W) → IsRunning W s₀ t → Can stop t
  thread-Can {s₀} stop now t i = go t.phase refl stop refl
    where
      go : (p : Phase) → t.phase ≡ p → (b : Bool) → stop ≡ b → Can stop t
      go starting q b _ = can_move (starts now q)
      go testing q true k = can_move (is_stopped now q k)
      go testing q false k = can_move (goes_on q k)
      go popping q b _ = at_pop q
      go publishing q b _ = busy-Can t i (rw q refl) (λ d. can_move (loops q d))
      go closing q b _ = busy-Can t i (rw q refl) (λ d. can_move (ends q d))
      go ended q b _ = has_ended q

module _ {e : Endian} {T : Timing} where
  -- Some thread can move.
  abbrev pub Goes : System e T → Type 0
  Goes s = (s' : System e T) × Step s s'

  parser-Goes :
      {p₀ : Parser} {l₀ : Logic T} (s : System e T)
      → Inv p₀ l₀ s
      → parser_stop s.main ≡ true
      → s.parser.phase ≢ ended
      → Goes s
  parser-Goes s i stop n = go (thread-Can W (parser_stop s.main) tt s.parser i.parser_runs)
    where
      W : Worker DataChunk Telemetry
      W = parser_worker e

      take :
          s.parser.phase ≡ popping
          → (pop (parser_stop s.main) s.raw.queue ≡ returned (none, s.raw.queue))
            ⊎ ((c : DataChunk) × (q : Queue DataChunk) × (pop (parser_stop s.main) s.raw.queue
                  ≡ returned (some c, q)))
          → Goes s
      take p (inl h) = (_, parser_finds_none s.raw.queue (leaves tt p) h)
      take p (inr (c, q, h)) =
          let k = raw_took s.raw _ _ c q h i.raw in
          let (t, handles_it, _) =
            W.handle-IsGood tt c s.parser.state (i.parser_runs.good (rw p refl)) k.1 in
          (_, parser_takes c q (takes_item tt c t p handles_it) h)

      go : Can W (parser_stop s.main) s.parser → Goes s
      go (can_move mv) = (_, parser_moves mv)
      go (can_send x mv) = (_, parser_sends x mv)
      go (can_log m mv) = (_, parser_logs m mv)
      go (at_pop p) = take p (pop_stopped (parser_stop s.main) s.raw.queue stop)
      go (has_ended q) = absurd (n q)

  logic-Goes :
      {p₀ : Parser} {l₀ : Logic T} (now : T.Time) (s : System e T)
      → Inv p₀ l₀ s
      → logic_stop s.main ≡ true
      → s.logic.phase ≢ ended
      → Goes s
  logic-Goes now s i stop n = go (thread-Can W (logic_stop s.main) now s.logic i.logic_runs)
    where
      W : Worker Telemetry Nothing
      W = logic_worker T

      take :
          s.logic.phase ≡ popping
          → (pop (logic_stop s.main) s.parsed.queue ≡ returned (none, s.parsed.queue))
            ⊎ ((x : Telemetry) × (q : Queue Telemetry) × (pop (logic_stop s.main) s.parsed.queue
                  ≡ returned (some x, q)))
          → Goes s
      take p (inl h) = (_, logic_finds_none s.parsed.queue (leaves now p) h)
      take p (inr (x, q, h)) = (_, logic_takes x q (takes_item now x _ p refl) h)

      go : Can W (logic_stop s.main) s.logic → Goes s
      go (can_move mv) = (_, logic_moves mv)
      go (can_send x mv) = absurd x
      go (can_log m mv) = (_, logic_logs m mv)
      go (at_pop p) = take p (pop_stopped (logic_stop s.main) s.parsed.queue stop)
      go (has_ended q) = absurd (n q)

  logger-Goes : (s : System e T) → logger_stop s.main ≡ true → s.writing ≢ finished_writing → Goes s
  logger-Goes s stop n = go s.writing refl
    where
      write :
          s.writing ≡ popping_line
          → (pop (logger_stop s.main) s.log.queue ≡ returned (none, s.log.queue))
            ⊎ ((m : Message) × (q : Queue Message) × (pop (logger_stop s.main) s.log.queue
                  ≡ returned (some m, q)))
          → Goes s
      write p (inl h) = (_, logger_leaves s.log.queue p h)
      write p (inr (m, q, h)) = (_, logger_writes m q p h)

      drain :
          s.writing ≡ draining
          → (pop true s.log.queue ≡ returned (none, s.log.queue))
            ⊎ ((m : Message) × (q : Queue Message) × (pop true s.log.queue ≡ returned (some m, q)))
          → Goes s
      drain p (inl h) = (_, logger_ends s.log.queue p h)
      drain p (inr (m, q, h)) = (_, logger_drains m q p h)

      go : (w : Writing) → s.writing ≡ w → Goes s
      go testing_stop p = (_, logger_stops p stop)
      go popping_line p = write p (pop_stopped (logger_stop s.main) s.log.queue stop)
      go draining p = drain p (pop_stopped true s.log.queue refl)
      go finished_writing p = absurd (n p)

  -- In every state reached from a table in step with its clients' streams in which main has been
  -- interrupted and has not returned, some thread can move, if the clock can be read. The listener
  -- of this model may end at any time.
  pub shutdown-Goes :
      {p₀ : Parser} {l₀ : Logic T} {s : System e T}
      → IsInStep p₀
      → (now : T.Time) → Reach (launch e T p₀ l₀) s
      → s.main ≢ polling
      → s.main ≢ main_returned
      → Goes s
  shutdown-Goes {p₀} {l₀} {s} g now r n n' = go s.main refl
    where
      inv : Inv p₀ l₀ s
      inv = Reach-Inv p₀ l₀ (launch-Inv p₀ l₀ g) r

      listener : (b : Bool) → s.listening ≡ b → s.main ≡ joining_listener → Goes s
      listener true l m = (_, listener_ends l)
      listener false l m = (_, joins_listener m l)

      parser : s.main ≡ joining_parser → Goes s
      parser m = elim (Phase-Discrete s.parser.phase ended) [
        | yes q ↦ (_, joins_parser m q)
        | no q ↦ parser-Goes s inv (rw m refl) q
      ]

      logic : s.main ≡ joining_logic → Goes s
      logic m = elim (Phase-Discrete s.logic.phase ended) [
        | yes q ↦ (_, joins_logic m q)
        | no q ↦ logic-Goes now s inv (rw m refl) q
      ]

      logger : s.main ≡ joining_logger → Goes s
      logger m = elim (Writing-Discrete s.writing finished_writing) [
        | yes q ↦ (_, joins_logger m q)
        | no q ↦ logger-Goes s (rw m refl) q
      ]

      go : (m : Main) → s.main ≡ m → Goes s
      go polling m = absurd (n m)
      go joining_listener m = listener s.listening refl m
      go joining_parser m = parser m
      go joining_logic m = logic m
      go saying_goodbye m = (_, says_goodbye m)
      go joining_logger m = logger m
      go main_returned m = absurd (n' m)
