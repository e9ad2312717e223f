-- ===== src/System/Stages.antt =====
-- The parser's and the logic's threads as workers.
use counter_drone_streaming.Base.{
  List, [], ◌∷◌, Option, some, none, ◌≡◌, refl, sym, ◌∙◌, ap, Extends, Extends-refl, Extends-append,
}
use counter_drone_streaming.Message.{Message}
use counter_drone_streaming.Telemetry.{Telemetry, DataChunk}
use counter_drone_streaming.Bytes.{Endian}
use counter_drone_streaming.Client.{log}
use counter_drone_streaming.Parser.{
  Parser, client_of, Handled, handled, escaped, stuck, handle_chunk, handle_chunks, running,
  shutting_down, run,
}
use counter_drone_streaming.Parser.Spec.{Pending, take_chunk}
use counter_drone_streaming.Parser.Ready.{Holds, IsChunk}
use counter_drone_streaming.Parser.Refine.{handle_chunk_refines}
use counter_drone_streaming.Parser.Grow.{Grows, log-Grows, tells-Grows}
use counter_drone_streaming.Logic.{Timing, Logic, handle_packet, handle_packets}
use counter_drone_streaming.Logic.{log as log_logic, running as logic_running}
use counter_drone_streaming.Logic.{shutting_down as logic_shutting_down, run as run_logic}
use counter_drone_streaming.Logic.Lines.{handle_packet-Extends}
use counter_drone_streaming.System.Worker.{Worker}
use counter_drone_streaming.System.Worker.Run.{handles, items}

abbrev pub survivor : Handled → Option Parser
survivor (handled p) = some p
survivor (escaped x) = none
survivor stuck = none

abbrev pub IsInStep : Parser → Type 0
IsInStep p = (w : Pending) × Holds p w

abbrev pub say : Message → Parser → Parser
say m p = record p { outputs = log m p.outputs }

pub say-Holds : (m : Message) (p : Parser) (w : Pending) → Holds p w → Holds (say m p) w
unfolding client_of
say-Holds m p w h = record { ready = h.ready; bytes = h.bytes }

pub say-IsInStep : (m : Message) (p : Parser) → IsInStep p → IsInStep (say m p)
say-IsInStep m p (w, h) = (w, say-Holds m p w h)

pub handle-IsInStep :
    (e : Endian) (chunk : DataChunk) (p : Parser)
    → IsInStep p
    → IsChunk chunk
    → (p' : Parser) × (survivor (handle_chunk e chunk p) ≡ some p') × IsInStep p'
handle-IsInStep e chunk p (w, h) k =
    let (p', is, _, h') = handle_chunk_refines e chunk p w h k in (p', ap survivor is, (_, h'))

pub handle-Grows :
    (e : Endian) (chunk : DataChunk) (p p' : Parser)
    → IsInStep p
    → IsChunk chunk
    → survivor (handle_chunk e chunk p) ≡ some p'
    → Grows p.outputs p'.outputs
handle-Grows e chunk p p' (w, h) k q =
    let (p'', is, out, _) = handle_chunk_refines e chunk p w h k in
    let same : p'' ≡ p' = cc (sym (ap survivor is) ∙ q) in
    rw (← same, out) (tells-Grows (take_chunk chunk w).0 p.outputs)

-- `StreamingParser::run`
abbrev pub parser_worker : Endian → Worker DataChunk Telemetry
parser_worker e = record {
  State = Parser;
  Reading = Unit {0};
  start = λ _ p. say running p;
  handle = λ _ chunk p. survivor (handle_chunk e chunk p);
  finish = λ _ p. say (shutting_down p.outputs.crc_failures) p;
  outs = λ p. p.outputs.parsed;
  logs = λ p. p.outputs.logs;
  IsGood = IsInStep;
  IsItem = IsChunk;
  start-IsGood = λ _ p. say-IsInStep running p;
  handle-IsGood = λ _ chunk p. handle-IsInStep e chunk p;
  start-grows = λ _ p. let g = log-Grows running p.outputs in (g.parsed, g.logs);
  handle-grows =
      λ _ chunk p p' i k q. let g = handle-Grows e chunk p p' i k q in (g.parsed, g.logs);
  finish-grows = λ _ p. let g = log-Grows _ p.outputs in (g.parsed, g.logs);
}

abbrev pub Nothing : Type 0
Nothing = ⊥

abbrev pub start_logic : (T : Timing) → T.Time → Logic T → Logic T
start_logic T now l = record (log_logic logic_running l) {
  start_time = now;
  last_report_time = now;
}

abbrev pub finish_logic : (T : Timing) → T.Time → Logic T → Logic T
finish_logic T now l = log_logic (logic_shutting_down now l) l

pub handle_logic-Extends :
    (T : Timing) (now : T.Time) (t : Telemetry) (l l' : Logic T)
    → some (handle_packet t now l) ≡ some l'
    → Extends l.logs l'.logs
handle_logic-Extends T now t l l' q =
    let same : handle_packet t now l ≡ l' = cc q in rw (← same) (handle_packet-Extends t now l)

-- `BusinessLogic::run`, which puts out log lines alone.
abbrev pub logic_worker : (T : Timing) → Worker Telemetry Nothing
logic_worker T = record {
  State = Logic T;
  Reading = T.Time;
  start = start_logic T;
  handle = λ now t l. some (handle_packet t now l);
  finish = finish_logic T;
  outs = λ l. [];
  logs = λ l. l.logs;
  IsGood = λ l. Unit;
  IsItem = λ t. Unit;
  start-IsGood = λ now l g. tt;
  handle-IsGood = λ now t l g k. (handle_packet t now l, refl, tt);
  start-grows = λ now l. (Extends-refl [], Extends-append l.logs (logic_running ∷ []));
  handle-grows = λ now t l l' g k q. (Extends-refl [], handle_logic-Extends T now t l l' q);
  finish-grows = λ now l. (Extends-refl [], Extends-append l.logs (logic_shutting_down now l ∷ []));
}

-- A worker that has handled all its items is where the loop of `run` is.
parser-handles :
    (e : Endian) (xs : List (DataChunk × Unit {0})) (p p' : Parser)
    → handles (parser_worker e) xs p ≡ some p'
    → handle_chunks e (items xs) p ≡ handled p'
unfolding handles handle_chunks
parser-handles e [] p p' q = cc q
parser-handles e ((chunk, r) ∷ xs) p p' q = go (handle_chunk e chunk p) (parser-handles e xs) q
  where
    go :
        (h : Handled)
        → ((s s' : Parser)
            → handles (parser_worker e) xs s ≡ some s'
            → handle_chunks e (items xs) s ≡ handled s')
        → (elim (survivor h) [ some s ↦ handles (parser_worker e) xs s | none ↦ none ]) ≡ some p'
        → (elim h [
          | handled s ↦ handle_chunks e (items xs) s
          | escaped x ↦ escaped x
          | stuck ↦ stuck
        ])
          ≡ handled p'
    go (handled s) ih k = ih s p' k
    go (escaped x) ih k = absurd (cc k)
    go stuck ih k = absurd (cc k)

pub parser_ran :
    (e : Endian) (xs : List (DataChunk × Unit {0})) (p p' : Parser)
    → handles (parser_worker e) xs (say running p) ≡ some p'
    → run e (items xs) p ≡ handled (say (shutting_down p'.outputs.crc_failures) p')
unfolding run
parser_ran e xs p p' q = rw (parser-handles e xs (say running p) p' q, run) refl

logic-handles :
    (T : Timing) (xs : List (Telemetry × T.Time)) (l : Logic T)
    → handles (logic_worker T) xs l ≡ some (handle_packets xs l)
unfolding handles handle_packets
logic-handles T [] l = refl
logic-handles T ((t, now) ∷ xs) l = logic-handles T xs (handle_packet t now l)

pub logic_ran :
    (T : Timing) (now ended : T.Time) (xs : List (Telemetry × T.Time)) (l l' : Logic T)
    → handles (logic_worker T) xs (start_logic T now l) ≡ some l'
    → run_logic now xs ended l ≡ finish_logic T ended l'
unfolding run_logic
logic_ran T now ended xs l l' q =
    let same : handle_packets xs (start_logic T now l) ≡ l' =
      cc (sym (logic-handles T xs (start_logic T now l)) ∙ q) in
    rw same refl
