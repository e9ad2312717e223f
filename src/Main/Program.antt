-- ===== src/Main/Program.antt =====
-- src/main.cpp from its first line to the start of its threads, and what it has done at its end.
use counter_drone_streaming.Base.{
  ℕ, ℤ, List, [], ◌∷◌, ◌++◌, ◌≡◌, refl, sym, ap, ◌⊎◌, inl, inr, subst,
}
use counter_drone_streaming.Message.{Message, text, number, bytes}
use counter_drone_streaming.Bytes.{Endian}
use counter_drone_streaming.Client.{Outputs}
use counter_drone_streaming.Queue.{empty}
use counter_drone_streaming.Logger.{Logger}
use counter_drone_streaming.Logger.Open.{FileCalls, open_logger}
use counter_drone_streaming.Parser.{Parser, handled, client_of, run}
use counter_drone_streaming.Parser.Ready.{fresh_client-IsReady}
use counter_drone_streaming.Logic.{Timing, Logic}
use counter_drone_streaming.Logic.{run as run_logic}
use counter_drone_streaming.Telemetry.{Telemetry}
use counter_drone_streaming.System.Worker.Run.{items}
use counter_drone_streaming.Main.{Options, defaults, parse_arguments}
use counter_drone_streaming.System.{System, Reach, launch, main_returned, interrupted_line, goodbye}
use counter_drone_streaming.System.Stages.{IsInStep}
use counter_drone_streaming.System.Links.{Merged}
use counter_drone_streaming.System.Shutdown.{pipeline_has_run}
use counter_drone_streaming.System.Console.{lines_of_main, lines_of_logger, console_at_end}

abbrev pub banner : Options → List Message
banner o =
    (text "=== Counter-Drone Communication Layer ===\n" ∷ [])
    ∷ (text "Starting on port "
        ∷ number o.port
        ∷ text "  (logging to "
        ∷ bytes o.log_file_path
        ∷ text ")"
        ∷ text "  (Ctrl+C to stop)\n\n"
        ∷ [])
    ∷ []

abbrev pub create_parser : Parser
create_parser = record {
  clients = [];
  outputs = record { crc_failures = 0; parsed = []; logs = [] };
}

-- The members that the constructor leaves to their type start at the clock's epoch.
abbrev pub create_logic : (T : Timing) → T.Time → Logic T
create_logic T epoch = record {
  drones = [];
  packets_processed = 0;
  start_time = epoch;
  last_report_time = epoch;
  packets_at_last_report = 0;
  logs = [];
}

-- What the program has printed when its threads start, and they, or what the logger's constructor
-- throws instead.
pub record Program (e : Endian) (T : Timing) : Type 0 where
  pub port : ℕ
  pub printed : List Message
  pub threads : Message ⊎ (Logger × System e T)

abbrev pub with_logger :
    (e : Endian) (T : Timing) → T.Time → Message ⊎ Logger → Message ⊎ (Logger × System e T)
with_logger e T epoch (inl m) = inl m
with_logger e T epoch (inr l) = inr (l, launch e T create_parser (create_logic T epoch))

unfoldable pub program :
    (e : Endian) (T : Timing) → T.Time → (List ℕ → ℤ) → FileCalls → List (List ℕ) → Program e T
program e T epoch atoi calls argv =
    let o = parse_arguments atoi argv defaults in
    record {
      port = o.port;
      printed = banner o;
      threads = with_logger e T epoch (open_logger calls o.log_file_path (empty 0));
    }

created-IsInStep : IsInStep create_parser
unfolding client_of counter_drone_streaming.Table.find? counter_drone_streaming.Client.fresh_client
    counter_drone_streaming.Ring.create
created-IsInStep = ((λ id. []), record { ready = λ id. fresh_client-IsReady; bytes = λ id. refl })

with_logger-launch :
    (e : Endian) (T : Timing) (epoch : T.Time) (r : Message ⊎ Logger) (l : Logger) (s : System e T)
    → with_logger e T epoch r ≡ inr (l, s)
    → (r ≡ inr l) × (launch e T create_parser (create_logic T epoch) ≡ s)
with_logger-launch e T epoch (inl m) l s k = absurd (cc k)
with_logger-launch e T epoch (inr l') l s k = (cc k, cc k)

-- For any command line, clock and file system for which the logger's constructor does not throw:
-- once main has returned, after any interleaving of its threads, the program has printed its
-- banner, with the port and the path that the command line gives, the line on the signal and the
-- goodbye, in this order; the logger's lines among them are those that the listener, the parser
-- and the logic have logged, each once, and those of one thread in their order; and the parser and
-- the logic, from the members that their constructors give, have made their runs on what they have
-- taken.
pub program_ends :
    {e : Endian} {T : Timing} (epoch : T.Time) (atoi : List ℕ → ℤ) (calls : FileCalls)
    → (argv : List (List ℕ)) (l : Logger) {s₀ s : System e T}
    → let p = program e T epoch atoi calls argv in
      p.threads ≡ inr (l, s₀)
      → Reach s₀ s
      → s.main ≡ main_returned
      → (p.printed ++ lines_of_main s.console
          ≡ banner (parse_arguments atoi argv defaults) ++ (interrupted_line ∷ goodbye ∷ []))
        × Merged (lines_of_logger s.console) s.heard s.parser.state.outputs.logs s.logic.state.logs
        × (run e s.raw.popped create_parser ≡ handled s.parser.state)
        × ((started : T.Time) × (stopped : T.Time) × (xs : List (Telemetry × T.Time)) × (items xs
              ≡ s.parsed.popped)
            × (run_logic started xs stopped (create_logic T epoch) ≡ s.logic.state))
unfolding program
program_ends {e} {T} epoch atoi calls argv l {s₀} {s} started r done =
    let o = parse_arguments atoi argv defaults in
    let opened = open_logger calls o.log_file_path (empty 0) in
    let (_, starts) = with_logger-launch e T epoch opened l s₀ started in
    let reached : Reach (launch e T create_parser (create_logic T epoch)) s =
      subst (λ z. Reach z s) (sym starts) r in
    let l₀ = create_logic T epoch in
    let (mains, merged) = console_at_end create_parser l₀ created-IsInStep reached done in
    let (ran, _, _, tracked) = pipeline_has_run create_parser l₀ created-IsInStep reached done in
    (ap (λ ms. banner o ++ ms) mains, merged, ran, tracked)
