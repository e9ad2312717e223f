-- ===== src/Tests/Streams.antt =====
-- The parser's loop.
use counter_drone_streaming.Base.{
  ℕ, ℤ, int_eq, false, length, length-replicate, replicate, pos, ◌≡◌, refl, List, [], ◌∷◌, arith,
}
use counter_drone_streaming.Telemetry.{DataChunk}
use counter_drone_streaming.Bytes.{little}
use counter_drone_streaming.Ring.{create, overflow_message}
use counter_drone_streaming.Table.{find?}
use counter_drone_streaming.Client.{log, fresh_client, process_client}
use counter_drone_streaming.Client.Frame.{scan}
use counter_drone_streaming.Client.Loop.{Finishes, process_client-Finishes}
use counter_drone_streaming.Parser.{
  handle_chunk, overflowed, handle_chunks, handled, Parser, client_of,
}
use counter_drone_streaming.Parser.Spec.{Pending, waiting, notices, tells}
use counter_drone_streaming.Parser.Ready.{Holds, fresh_client-IsReady}
use counter_drone_streaming.Parser.Refine.{handle_chunks_refines}
use counter_drone_streaming.Parser.Overflow.{overflow_drops_client}
use counter_drone_streaming.Parser.Streams.{events_of, bytes_of, clients_are_separate}
use counter_drone_streaming.Client.Step.{unread}
use counter_drone_streaming.Tests.Samples.{idle_parser, quiet}

abbrev pub nothing : Pending
nothing id = []

pub idle-Holds : Holds idle_parser nothing
unfolding client_of find? fresh_client create
idle-Holds = record { ready = λ id. fresh_client-IsReady; bytes = λ id. refl }

process_client-Finishes_example :
    Finishes fresh_client quiet (process_client little fresh_client quiet)
process_client-Finishes_example =
    process_client-Finishes little fresh_client quiet (fresh_client-IsReady.good)

abbrev mixed : List DataChunk
mixed =
    record { client_id = pos 7; bytes = 0xAA ∷ [] }
    ∷ record { client_id = pos 8; bytes = 1 ∷ [] }
    ∷ record { client_id = pos 7; bytes = 0x55 ∷ [] }
    ∷ record { client_id = pos 8; bytes = [] }
    ∷ []

handle_chunks_refines_example :
    (p : Parser) × (handle_chunks little mixed idle_parser ≡ handled p)
    × (p.outputs ≡ tells (notices mixed nothing) quiet)
    × Holds p (waiting mixed nothing)
handle_chunks_refines_example =
    handle_chunks_refines little mixed idle_parser nothing idle-Holds (omega arith)

clients_are_separate_example :
    (p : Parser) × (handle_chunks little mixed idle_parser ≡ handled p)
    × (p.outputs ≡ tells (notices mixed nothing) quiet)
    × (events_of (pos 7) (notices mixed nothing) ≡ (scan (0xAA ∷ 0x55 ∷ [])).0)
    × (unread (client_of (pos 7) p) ≡ (scan (0xAA ∷ 0x55 ∷ [])).1)
unfolding bytes_of
clients_are_separate_example =
    clients_are_separate little (pos 7) mixed idle_parser nothing idle-Holds (omega arith) (
      (λ _. (refl, omega arith)),
      ((λ _. (refl, omega arith)), ((λ _. (refl, omega arith)), ((λ e. absurd (cc e)), tt))),
    )

-- A chunk that is greater than the buffer.
flood : List ℕ
flood = replicate 65537 0

length-flood : length flood ≡ 65537
unfolding flood
length-flood = length-replicate {A = ℕ} 65537 0

abbrev flooding : DataChunk
flooding = record { client_id = pos 7; bytes = flood }

overflow_drops_client_example :
    (p : Parser) × (handle_chunk little flooding idle_parser ≡ handled p)
    × (p.outputs ≡ log (overflowed (overflow_message (length flood) 65536) (pos 7)) quiet)
    × (client_of (pos 7) p ≡ fresh_client)
    × ((j : ℤ) → int_eq (pos 7) j ≡ false → client_of j p ≡ client_of j idle_parser)
overflow_drops_client_example =
    overflow_drops_client little flooding idle_parser nothing idle-Holds
      (omega (arith, length-flood))
