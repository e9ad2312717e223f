-- ===== src/System/Delivery.antt =====
-- From a sender's packets to the table of drones, through the threads.
use counter_drone_streaming.Base.{
  ℕ, ℤ, List, [], ◌∷◌, ◌++◌, if◌then◌else◌, Option, some, none, All, ◌≡◌, refl, sym, ◌∙◌, ap,
}
use counter_drone_streaming.Telemetry.{Telemetry, DataChunk}
use counter_drone_streaming.Bytes.{Endian}
use counter_drone_streaming.Table.{find?, bytes_eq, id_key}
use counter_drone_streaming.Parser.{Parser, handled, running, shutting_down, run}
use counter_drone_streaming.Parser.Spec.{Pending}
use counter_drone_streaming.Parser.Ready.{Holds, IsChunk}
use counter_drone_streaming.Parser.Streams.{bytes_of}
use counter_drone_streaming.Wire.RoundTrip.{IsSendable}
use counter_drone_streaming.Wire.Recovery.{packets}
use counter_drone_streaming.Wire.EndToEnd.{IsFrom, packets_are_delivered}
use counter_drone_streaming.Logic.{Timing, Logic}
use counter_drone_streaming.Logic.{run as run_logic}
use counter_drone_streaming.Logic.Tracking.{latest, find?-handle_packets}
use counter_drone_streaming.System.Worker.Run.{items}
use counter_drone_streaming.System.Stages.{say, say-Holds, IsInStep}
use counter_drone_streaming.System.{System, main_returned, launch, Reach}
use counter_drone_streaming.System.Shutdown.{inv, pipeline_has_run}

-- The last record of a drone, or else what is given.
abbrev pub last_of : List ℕ → List Telemetry → Option Telemetry → Option Telemetry
last_of id [] before = before
last_of id (t ∷ ts) before = last_of id ts (if bytes_eq t.drone_id id then some t else before)

latest-items :
    {R : Type 0} (id : List ℕ) (ps : List (Telemetry × R)) (before : Option Telemetry)
    → latest id ps before ≡ last_of id (items ps) before
latest-items id [] before = refl
latest-items id ((t, r) ∷ ps) before = latest-items id ps _

-- The table that the logic's run leaves.
pub run_logic-drones :
    {T : Timing} (id : List ℕ) (now ended : T.Time) (ps : List (Telemetry × T.Time)) (l : Logic T)
    → find? id (run_logic now ps ended l).drones ≡ last_of id (items ps) (find? id l.drones)
unfolding run_logic
run_logic-drones id now ended ps l = find?-handle_packets id ps _ ∙ latest-items id ps _

-- What the parser's run on a sender's packets puts out.
run-delivers :
    (e : Endian) (id : ℤ) (chunks : List DataChunk) (ts : List Telemetry) (p q : Parser)
    (w : Pending)
    → Holds p w
    → w id ≡ []
    → All IsChunk chunks
    → All (IsFrom id) chunks
    → All IsSendable ts
    → bytes_of id chunks ≡ packets ts
    → run e chunks p ≡ handled q
    → (q.outputs.parsed ≡ p.outputs.parsed ++ ts)
      × (q.outputs.crc_failures ≡ p.outputs.crc_failures)
unfolding run
run-delivers e id chunks ts p q w h idle byte from sendable sent ran =
    let (p', is, out, _, _) =
      packets_are_delivered e id chunks ts (say running p) w (say-Holds running p w h) idle byte
        from sendable sent in
    let same : say (shutting_down p'.outputs.crc_failures) p' ≡ q = cc (rw (run, is) at ran) in
    rw (← same, out) (refl, refl)

module _ {e : Endian} {T : Timing} (p₀ : Parser) (l₀ : Logic T) {s : System e T}
    (r : Reach (launch e T p₀ l₀) s) (done : s.main ≡ main_returned) where
  -- Once main has returned, after any interleaving of the threads from a table in step with its
  -- clients' streams, an empty table of drones, no record put out before and nothing that waits
  -- for this client: if the chunks that the parser took are the packets that a sender built from
  -- records (names of at most 214 bytes, numbers of 64 bits), cut into chunks of at most 65275
  -- bytes, none empty and none of another client, then the records that the logic has taken and
  -- those that are still queued are the sender's in their order, no failure was counted, and the
  -- table of drones holds the last record of each drone among those taken, and no other.
  pub packets_reach_the_table :
      (id : ℤ) (ts : List Telemetry) (w : Pending)
      → Holds p₀ w
      → w id ≡ []
      → p₀.outputs.parsed ≡ []
      → l₀.drones ≡ []
      → All (IsFrom id) s.raw.popped
      → All IsSendable ts
      → bytes_of id s.raw.popped ≡ packets ts
      → (ts ≡ s.parsed.popped ++ s.parsed.queue.items)
        × (s.parser.state.outputs.crc_failures ≡ p₀.outputs.crc_failures)
        × ((d : List ℕ) → find? d s.logic.state.drones ≡ last_of d s.parsed.popped none)
  unfolding find?
  packets_reach_the_table id ts w h idle fresh no_drones from sendable sent =
      let g : IsInStep p₀ = (w, h) in
      let (ran, _, passed, (started, stopped, xs, taken, handles)) =
        pipeline_has_run p₀ l₀ g r done in
      let byte = (inv p₀ l₀ g r done).raw.gave in
      let (parsed, failures) =
        run-delivers e id s.raw.popped ts p₀ s.parser.state w h idle byte from sendable sent ran in
      (
        sym (rw fresh at parsed) ∙ passed,
        failures,
        λ d.
            ap (λ (l : Logic T). find? d l.drones) (sym handles)
            ∙ run_logic-drones d started stopped xs l₀
            ∙ ap (λ us. last_of d us (find? d l₀.drones)) taken
            ∙ ap (λ m. last_of d s.parsed.popped (find? d m)) no_drones,
      )
