-- ===== src/System/Shutdown.antt =====
-- What the threads of src/main.cpp have done when `main` returns.
use counter_drone_streaming.Base.{List, [], ◌++◌, ◌≡◌, sym, ◌∙◌, some, arith, append-nil}
use counter_drone_streaming.System.Links.{Merged}
use counter_drone_streaming.Telemetry.{Telemetry}
use counter_drone_streaming.Bytes.{Endian}
use counter_drone_streaming.Parser.{Parser, handled, run}
use counter_drone_streaming.Logic.{Timing, Logic}
use counter_drone_streaming.Logic.{run as run_logic}
use counter_drone_streaming.System.Worker.{Worker, Thread, ended}
use counter_drone_streaming.System.Worker.Run.{
  IsRunning, Ran, before, within, after, handles, items,
}
use counter_drone_streaming.System.Stages.{
  parser_worker, logic_worker, IsInStep, parser_ran, logic_ran,
}
use counter_drone_streaming.System.{System, main_returned, launch, Reach}
use counter_drone_streaming.System.Inv.{Inv, launch-Inv, Reach-Inv}
use counter_drone_streaming.System.Order.{IsOrdered, launch-IsOrdered, Reach-IsOrdered}

-- A thread that has ended has made its whole run.
over_ran :
    {In Out : Type 0} (W : Worker In Out) (s₀ : W.State) (t : Thread W)
    → IsRunning W s₀ t
    → t.phase ≡ ended
    → (r : W.Reading) × (r' : W.Reading) × (s' : W.State) × (handles W t.taken (W.start r s₀)
        ≡ some s')
      × (t.state ≡ W.finish r' s')
over_ran W s₀ t i q = go i.ran
  where
    go :
        Ran W s₀ t.phase t.state t.taken
        → (r : W.Reading) × (r' : W.Reading) × (s' : W.State) × (handles W t.taken (W.start r s₀)
            ≡ some s')
          × (t.state ≡ W.finish r' s')
    go (before p _ _) = absurd (cc (sym p ∙ q))
    go (within r l _) = absurd (cc (rw q at l))
    go (after r r' s' _ e f) = (r, r', s', e, f)

module _ {e : Endian} {T : Timing} (p₀ : Parser) (l₀ : Logic T) (g : IsInStep p₀) {s : System e T}
    (r : Reach (launch e T p₀ l₀) s) (done : s.main ≡ main_returned) where
  pub inv : Inv p₀ l₀ s
  inv = Reach-Inv p₀ l₀ (launch-Inv p₀ l₀ g) r

  order : IsOrdered s
  order = Reach-IsOrdered (launch-IsOrdered p₀ l₀) r

  parser_ended : s.parser.phase ≡ ended
  parser_ended = order.parser_done (ground (arith, done))

  logic_ended : s.logic.phase ≡ ended
  logic_ended = order.logic_done (ground (arith, done))

  no_lines_left : s.log.queue.items ≡ []
  no_lines_left = order.drained (order.logger_done (ground (arith, done)))

  -- Once main has returned, after any interleaving of the threads from a table in step with its
  -- clients' streams: no line waits in the log queue, and the logger has written the lines that
  -- the listener, the parser and the logic have logged, each once, none else, and those of one
  -- thread in the order in which it logged them.
  pub shutdown_writes_all_lines :
      (s.log.queue.items ≡ [])
      × Merged s.written s.heard s.parser.state.outputs.logs s.logic.state.logs
  shutdown_writes_all_lines =
      let all : s.log.accepted ≡ s.written =
        inv.log.fifo.order ∙ rw no_lines_left (append-nil s.log.popped ∙ sym inv.log.wrote) in
      let by_parser = (inv.parser_runs.published parser_ended).1 in
      let by_logic = (inv.logic_runs.published logic_ended).1 in
      (no_lines_left, rw (by_parser, by_logic, ← all) inv.log.put)

  -- Once main has returned, after any interleaving of the threads from a table in step with its
  -- clients' streams: the parser's state is that of its run on the chunks that it has taken, the
  -- first of those that the listener queued and in their order, and the logic's state is that of
  -- its run on the packets that it has taken, the first of those that the parser put out.
  pub pipeline_has_run :
      (run e s.raw.popped p₀ ≡ handled s.parser.state)
      × (s.raw.accepted ≡ s.raw.popped ++ s.raw.queue.items)
      × (s.parser.state.outputs.parsed ≡ s.parsed.popped ++ s.parsed.queue.items)
      × ((started : T.Time) × (stopped : T.Time) × (xs : List (Telemetry × T.Time)) × (items xs
            ≡ s.parsed.popped)
          × (run_logic started xs stopped l₀ ≡ s.logic.state))
  pipeline_has_run =
      let (_, _, p, parsed, finished) =
        over_ran (parser_worker e) p₀ s.parser inv.parser_runs parser_ended in
      let (now, stopped, l, handled_all, left) =
        over_ran (logic_worker T) l₀ s.logic inv.logic_runs logic_ended in
      (
        rw (inv.raw.took, finished) (parser_ran e s.parser.taken p₀ p parsed),
        inv.raw.fifo.order,
        (inv.parser_runs.published parser_ended).0 ∙ sym inv.parsed.put ∙ inv.parsed.fifo.order,
        (
          now,
          stopped,
          s.logic.taken,
          sym inv.parsed.took,
          logic_ran T now stopped s.logic.taken l₀ l handled_all ∙ sym left,
        ),
      )
