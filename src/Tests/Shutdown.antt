-- ===== src/Tests/Shutdown.antt =====
-- A whole run of the threads: a chunk that tells of a client gone, then the signal.
use counter_drone_streaming.Base.{ℕ, pos, some, none, true, List, [], ◌∷◌, ◌++◌, ◌≡◌, refl}
use counter_drone_streaming.System.Links.{Merged}
use counter_drone_streaming.Message.{Message}
use counter_drone_streaming.Telemetry.{Telemetry, DataChunk}
use counter_drone_streaming.Bytes.{little}
use counter_drone_streaming.Queue.{act, push, pop, empty}
use counter_drone_streaming.Parser.{run, handled, handle_chunk, running, cleaned_up, shutting_down}
use counter_drone_streaming.Table.{remove}
use counter_drone_streaming.Logic.{running as logic_running, shutting_down as logic_shutting_down}
use counter_drone_streaming.System.Worker.{
  starts, logs_out, loops, goes_on, is_stopped, takes_item, ends,
}
use counter_drone_streaming.System.Worker.Run.{items}
use counter_drone_streaming.System.Shutdown.{shutdown_writes_all_lines, pipeline_has_run}
use counter_drone_streaming.System.Ends.{Ends, shutdown-Ends}
use counter_drone_streaming.Logic.{run as run_logic}
use counter_drone_streaming.Logger.{Logger}
use counter_drone_streaming.Logger.Open.{FileCalls, open_logger}
use counter_drone_streaming.Main.{defaults, parse_arguments}
use counter_drone_streaming.Main.Program.{
  Program, program, program_ends, banner, create_parser, create_logic,
}
use counter_drone_streaming.System.Console.{lines_of_main, lines_of_logger}
use counter_drone_streaming.System.Goodbye.{goodbye_comes_first}
use counter_drone_streaming.System.{
  main_returned, by_main, by_logger, interrupted_line, goodbye, System, launch, Reach, here, later,
  interrupted, joins_listener, joins_parser, joins_logic, says_goodbye, joins_logger,
  listener_sends, listener_ends, parser_moves, parser_takes, parser_logs, logic_moves, logic_logs,
  logger_stops, logger_drains, logger_ends,
}
use counter_drone_streaming.Tests.Samples.{idle_parser}
use counter_drone_streaming.Tests.Streams.{nothing, idle-Holds}
use counter_drone_streaming.Tests.Threads.{still_clock, new_logic}

abbrev gone_chunk : DataChunk
gone_chunk = record { client_id = pos 7; bytes = [] }

abbrev launched : System little still_clock
launched = launch little still_clock idle_parser new_logic

abbrev bye : Message
bye = logic_shutting_down 0 (record new_logic { logs = logic_running ∷ [] })

-- The parser handles the chunk and logs; the signal comes, and the listener is joined.
abbrev signalled : (s : System little still_clock) × Reach launched s
unfolding act push pop handle_chunk remove
signalled =
    let r₁ = later here (parser_moves (starts tt refl)) in
    let r₂ = later r₁ (parser_logs running (logs_out running [] refl refl)) in
    let r₃ = later r₂ (parser_moves (loops refl (refl, refl))) in
    let r₄ = later r₃ (parser_moves (goes_on refl refl)) in
    let r₅ = later r₄ (listener_sends gone_chunk refl tt) in
    let r₆ = later r₅ (parser_takes gone_chunk _ (takes_item tt gone_chunk _ refl refl) refl) in
    let m = cleaned_up (pos 7) in
    let r₇ = later r₆ (parser_logs m (logs_out m [] refl refl)) in
    let r₈ = later r₇ (interrupted refl) in
    let r₉ = later r₈ (listener_ends refl) in (_, later r₉ (joins_listener refl refl))

-- The parser and the logic wind up.
abbrev wound_up : (s : System little still_clock) × Reach launched s
unfolding signalled act push pop
wound_up =
    let r₁ = later signalled.1 (parser_moves (loops refl (refl, refl))) in
    let r₂ = later r₁ (parser_moves (is_stopped tt refl refl)) in
    let m = shutting_down 0 in
    let r₃ = later r₂ (parser_logs m (logs_out m [] refl refl)) in
    let r₄ = later r₃ (parser_moves (ends refl (refl, refl))) in
    let r₅ = later r₄ (joins_parser refl refl) in
    let r₆ = later r₅ (logic_moves (starts 0 refl)) in
    let r₇ = later r₆ (logic_logs logic_running (logs_out logic_running [] refl refl)) in
    let r₈ = later r₇ (logic_moves (loops refl (refl, refl))) in
    let r₉ = later r₈ (logic_moves (is_stopped 0 refl refl)) in
    let r₁₀ = later r₉ (logic_logs bye (logs_out bye [] refl refl)) in
    let r₁₁ = later r₁₀ (logic_moves (ends refl (refl, refl))) in
    (_, later r₁₁ (joins_logic refl refl))

-- The logger writes five lines out.
abbrev finished : (s : System little still_clock) × Reach launched s
unfolding wound_up signalled act push pop
finished =
    let r₁ = later wound_up.1 (logger_stops refl refl) in
    let r₂ = later r₁ (logger_drains running _ refl refl) in
    let r₃ = later r₂ (logger_drains (cleaned_up (pos 7)) _ refl refl) in
    let r₄ = later r₃ (logger_drains (shutting_down 0) _ refl refl) in
    let r₅ = later r₄ (logger_drains logic_running _ refl refl) in
    let r₆ = later r₅ (logger_drains bye _ refl refl) in
    let r₇ = later r₆ (logger_ends _ refl refl) in
    let r₈ = later r₇ (says_goodbye refl) in (_, later r₈ (joins_logger refl refl))

five_lines :
    finished.0.written ≡ running ∷ cleaned_up (pos 7) ∷ shutting_down 0 ∷ logic_running ∷ bye ∷ []
unfolding finished wound_up signalled act push pop handle_chunk remove
five_lines = refl

shutdown_writes_all_lines_example :
    (finished.0.log.queue.items ≡ [])
    × Merged finished.0.written finished.0.heard finished.0.parser.state.outputs.logs
        finished.0.logic.state.logs
unfolding finished wound_up signalled act push pop handle_chunk remove
shutdown_writes_all_lines_example =
    shutdown_writes_all_lines idle_parser new_logic (nothing, idle-Holds) finished.1 refl

pipeline_has_run_example :
    (run little finished.0.raw.popped idle_parser ≡ handled finished.0.parser.state)
    × (finished.0.raw.accepted ≡ finished.0.raw.popped ++ finished.0.raw.queue.items)
    × (finished.0.parser.state.outputs.parsed
        ≡ finished.0.parsed.popped ++ finished.0.parsed.queue.items)
    × ((started : ℕ) × (stopped : ℕ) × (xs : List (Telemetry × ℕ)) × (items xs
          ≡ finished.0.parsed.popped)
        × (run_logic {T = still_clock} started xs stopped new_logic ≡ finished.0.logic.state))
unfolding finished wound_up signalled act push pop handle_chunk remove
pipeline_has_run_example =
    pipeline_has_run idle_parser new_logic (nothing, idle-Holds) finished.1 refl

shutdown-Ends_example : Ends signalled.0
unfolding signalled
shutdown-Ends_example = shutdown-Ends (nothing, idle-Holds) 0 signalled.1 refl (λ e. cc e)

abbrev good_files : FileCalls
good_files = record { has_parent_path = true; create_directories = none; opening = none }

abbrev started : Program little still_clock
started = program little still_clock 0 (λ digits. pos 80) good_files ((56 ∷ 48 ∷ []) ∷ [])

abbrev opened : Logger
opened = record { queue = empty 0; out = []; file = some [] }

program_ends_example :
    (started.printed ++ lines_of_main finished.0.console
      ≡ banner (record defaults { port = 80 }) ++ (interrupted_line ∷ goodbye ∷ []))
    × Merged
        (lines_of_logger finished.0.console)
        finished.0.heard
        finished.0.parser.state.outputs.logs
        finished.0.logic.state.logs
    × (run little finished.0.raw.popped create_parser ≡ handled finished.0.parser.state)
    × ((begun : ℕ) × (stopped : ℕ) × (xs : List (Telemetry × ℕ)) × (items xs
          ≡ finished.0.parsed.popped)
        × (run_logic {T = still_clock} begun xs stopped (create_logic still_clock 0)
            ≡ finished.0.logic.state))
unfolding program parse_arguments open_logger finished wound_up signalled act push pop handle_chunk
    remove
program_ends_example =
    program_ends 0 (λ digits. pos 80) good_files ((56 ∷ 48 ∷ []) ∷ []) opened refl finished.1 refl

goodbye_comes_first_example :
    (s : System little still_clock) × Reach wound_up.0 s
    × (s.main ≡ main_returned)
    × (s.console
        ≡ by_main interrupted_line
          ∷ by_main goodbye
          ∷ by_logger running
          ∷ by_logger (cleaned_up (pos 7))
          ∷ by_logger (shutting_down 0)
          ∷ by_logger logic_running
          ∷ by_logger bye
          ∷ [])
unfolding wound_up signalled act push pop handle_chunk remove
goodbye_comes_first_example = goodbye_comes_first wound_up.0 refl (λ k. cc k)
