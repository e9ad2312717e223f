-- ===== src/System/Work.antt =====
-- What the threads of src/main.cpp still have to do once the listener has ended, as numbers.
use counter_drone_streaming.Base.{
  ℕ, ◌⊎◌, ◌+◌, ◌-◌, ◌<◌, Bool, true, false, List, [], ◌∷◌, ◌++◌, length, length-append, some, ◌≡◌,
  refl, sym, ◌∙◌, ap, arith, inl, inr,
}
use counter_drone_streaming.Bytes.{Endian}
use counter_drone_streaming.Queue.{Queue, returned, pop, popping, Trace, act}
use counter_drone_streaming.Queue.Fifo.{took-trace, pop-some}
use counter_drone_streaming.Logic.{Timing}
use counter_drone_streaming.System.Worker.{
  Worker, Thread, Phase, starting, testing, popping, publishing, closing, ended, Act, silent, takes,
  finds_none, sends, logs_line, Move, starts, sends_out, logs_out, loops, goes_on, is_stopped,
  takes_item, leaves, ends,
}
use counter_drone_streaming.System.Stages.{parser_worker, logic_worker}
use counter_drone_streaming.System.{
  rank, Writing, testing_stop, popping_line, draining, finished_writing, System, Step, interrupted,
  joins_listener, joins_parser, joins_logic, says_goodbye, joins_logger, listener_sends,
  listener_logs, listener_ends, parser_moves, parser_takes, parser_finds_none, parser_sends,
  parser_logs, logic_moves, logic_takes, logic_finds_none, logic_logs, logger_goes_on, logger_stops,
  logger_writes, logger_leaves, logger_drains, logger_ends,
}
use counter_drone_streaming.System.Measure.{Measure, Below}

-- How far a thread is from its end, by its phase.
abbrev pub ahead : Phase → ℕ
ahead starting = 5
ahead publishing = 4
ahead testing = 3
ahead popping = 2
ahead closing = 1
ahead ended = 0

abbrev pub to_write : Writing → ℕ
to_write testing_stop = 3
to_write popping_line = 2
to_write draining = 1
to_write finished_writing = 0

module _ {In Out : Type 0} (W : Worker In Out) where
  -- What is put out and not yet pushed.
  abbrev pub unpushed : Thread W → ℕ
  unpushed t =
      (length (W.outs t.state) - length t.sent) + (length (W.logs t.state) - length t.logged)

  abbrev Advances : Act In Out → Thread W → Thread W → Type 0
  Advances silent t t' = ahead t'.phase < ahead t.phase
  Advances (takes x) t t' = Unit
  Advances finds_none t t' = ahead t'.phase < ahead t.phase
  Advances (sends o) t t' = (t'.phase ≡ t.phase) × (unpushed t' < unpushed t)
  Advances (logs_line m) t t' = (t'.phase ≡ t.phase) × (unpushed t' < unpushed t)

  pushed_less :
      {A : Type 0} (all sent os : List A) (o : A)
      → all ≡ sent ++ (o ∷ os)
      → length all - length (sent ++ (o ∷ [])) < length all - length sent
  pushed_less all sent os o e =
      omega (arith, ap length e, length-append sent (o ∷ os), length-append sent (o ∷ []))

  pub Move-Advances :
      {stop : Bool} {a : Act In Out} {t t' : Thread W} → Move W stop t a t' → Advances a t t'
  Move-Advances (starts r p) = rw p (omega arith)
  Move-Advances {t} (sends_out o os b e) =
      (refl, omega (arith, pushed_less (W.outs t.state) t.sent os o e))
  Move-Advances {t} (logs_out m ms b e) =
      (refl, omega (arith, pushed_less (W.logs t.state) t.logged ms m e))
  Move-Advances (loops p d) = rw p (omega arith)
  Move-Advances (goes_on p q) = rw p (omega arith)
  Move-Advances (is_stopped r p q) = rw p (omega arith)
  Move-Advances (takes_item r x s p e) = tt
  Move-Advances (leaves r p) = rw p (omega arith)
  Move-Advances (ends p d) = rw p (omega arith)

-- An item that is taken off is one item less.
took_less :
    {A : Type 0} (stop : Bool) (x : A) (q : Queue A) (t : Trace A)
    → pop stop t.queue ≡ returned (some x, q)
    → length (act (popping stop) t).queue.items < length t.queue.items
took_less stop x q t h = rw (took-trace stop x q t h, pop-some stop x t.queue q h) (omega arith)

-- Below, if not in the first number.
same : {P Q : Type 0} {a : ℕ} → P → Q ⊎ ((a ≡ a) × P)
same less = inr (refl, less)

-- Below in the last number alone, and in the one before it.
last :
    {a b c d e f g h i j : ℕ}
    → i < j
    → Below 9
        (a, (b, (c, (d, (e, (f, (g, (h, (i, tt)))))))))
        (a, (b, (c, (d, (e, (f, (g, (h, (j, tt)))))))))
last less = same (same (same (same (same (same (same (same (inl less))))))))

lines :
    {a b c d e f g h i j k : ℕ}
    → h < k
    → Below 9
        (a, (b, (c, (d, (e, (f, (g, (h, (i, tt)))))))))
        (a, (b, (c, (d, (e, (f, (g, (k, (j, tt)))))))))
lines less = same (same (same (same (same (same (same (inl less)))))))

module _ {e : Endian} {T : Timing} where
  -- What is left to do: for `main`, and from the front of the pipeline to its end.
  abbrev pub work : System e T → Measure 9
  work s = (
    6 - rank s.main,
    (
      length s.raw.queue.items,
      (
        ahead s.parser.phase,
        (
          unpushed (parser_worker e) s.parser,
          (
            length s.parsed.queue.items,
            (
              ahead s.logic.phase,
              (
                unpushed (logic_worker T) s.logic,
                (length s.log.queue.items, (to_write s.writing, tt)),
              ),
            ),
          ),
        ),
      ),
    ),
  )

  -- Once the listener has ended, every step leaves less to do.
  pub Step-Below :
      {s s' : System e T} → Step s s' → s.listening ≡ false → Below 9 (work s') (work s)
  Step-Below (interrupted p) l = inl (rw p (omega arith))
  Step-Below (joins_listener p q) l = inl (rw p (omega arith))
  Step-Below (joins_parser p q) l = inl (rw p (omega arith))
  Step-Below (joins_logic p q) l = inl (rw p (omega arith))
  Step-Below (says_goodbye p) l = inl (rw p (omega arith))
  Step-Below (joins_logger p q) l = inl (rw p (omega arith))
  Step-Below (listener_sends chunk p k) l = absurd (cc (sym p ∙ l))
  Step-Below (listener_logs m p) l = absurd (cc (sym p ∙ l))
  Step-Below (listener_ends p) l = absurd (cc (sym p ∙ l))
  Step-Below (parser_moves mv) l = same (same (inl (Move-Advances (parser_worker e) mv)))
  Step-Below {s} (parser_takes c q mv h) l = same (inl (took_less _ c q s.raw h))
  Step-Below (parser_finds_none q mv h) l = same (same (inl (Move-Advances (parser_worker e) mv)))
  Step-Below (parser_sends x mv) l =
      let (there, less) = Move-Advances (parser_worker e) mv in
      same (same (inr (ap ahead there, inl less)))
  Step-Below (parser_logs m mv) l =
      let (there, less) = Move-Advances (parser_worker e) mv in
      same (same (inr (ap ahead there, inl less)))
  Step-Below (logic_moves mv) l =
      same (same (same (same (same (inl (Move-Advances (logic_worker T) mv))))))
  Step-Below {s} (logic_takes x q mv h) l =
      same (same (same (same (inl (took_less _ x q s.parsed h)))))
  Step-Below (logic_finds_none q mv h) l =
      same (same (same (same (same (inl (Move-Advances (logic_worker T) mv))))))
  Step-Below (logic_logs m mv) l =
      let (there, less) = Move-Advances (logic_worker T) mv in
      same (same (same (same (same (inr (ap ahead there, inl less))))))
  Step-Below (logger_goes_on p q) l = last (rw p (omega arith))
  Step-Below (logger_stops p q) l = last (rw p (omega arith))
  Step-Below {s} (logger_writes m q p h) l = lines (took_less _ m q s.log h)
  Step-Below (logger_leaves q p h) l = last (rw p (omega arith))
  Step-Below {s} (logger_drains m q p h) l = lines (took_less true m q s.log h)
  Step-Below (logger_ends q p h) l = last (rw p (omega arith))
