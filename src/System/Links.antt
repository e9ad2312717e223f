-- ===== src/System/Links.antt =====
-- The three queues between what the threads put in and what they took out.
use counter_drone_streaming.Base.{
  Bool, false, List, [], ◌∷◌, ◌++◌, All, All-append, some, ◌≡◌, refl, subst,
}
use counter_drone_streaming.Message.{Message}
use counter_drone_streaming.Telemetry.{Telemetry, DataChunk}
use counter_drone_streaming.Queue.{Queue, returned, pop, pushing, popping, Trace, act}
use counter_drone_streaming.Queue.Fifo.{IsFifo, act-IsFifo, put-trace, took-trace, pop-some}
use counter_drone_streaming.Parser.Ready.{IsChunk}
use counter_drone_streaming.System.{put_in}

-- The lines of three threads in one sequence, each thread's in their order. It grows at the end.
pub data Merged : (all xs ys zs : List Message) → Type 0 where
  none_yet : Merged [] [] [] []
  from_first :
      {all xs ys zs : List Message} (m : Message)
      → Merged all xs ys zs
      → Merged (all ++ (m ∷ [])) (xs ++ (m ∷ [])) ys zs
  from_second :
      {all xs ys zs : List Message} (m : Message)
      → Merged all xs ys zs
      → Merged (all ++ (m ∷ [])) xs (ys ++ (m ∷ [])) zs
  from_third :
      {all xs ys zs : List Message} (m : Message)
      → Merged all xs ys zs
      → Merged (all ++ (m ∷ [])) xs ys (zs ++ (m ∷ []))

-- Each queue between what was put in and what was taken out.
pub record RawLink (raw : Trace DataChunk) (taken : List DataChunk) : Type 0 where
  pub fifo : IsFifo 0 raw
  pub chunks : All IsChunk raw.queue.items
  pub gave : All IsChunk raw.popped
  pub took : raw.popped ≡ taken

pub record ParsedLink (parsed : Trace Telemetry) (sent taken : List Telemetry) : Type 0 where
  pub fifo : IsFifo 0 parsed
  pub put : parsed.accepted ≡ sent
  pub took : parsed.popped ≡ taken

pub record LogLink (log : Trace Message) (heard by_parser by_logic written : List Message)
    : Type 0 where
  pub fifo : IsFifo 0 log
  pub put : Merged log.accepted heard by_parser by_logic
  pub wrote : written ≡ log.popped

pub raw_put :
    (raw : Trace DataChunk) (taken : List DataChunk) (c : DataChunk)
    → IsChunk c
    → RawLink raw taken
    → RawLink (put_in c raw) taken
raw_put raw taken c k l = record {
  fifo = act-IsFifo 0 (pushing c false false) raw l.fifo;
  chunks =
      rw (put-trace c raw l.fifo.same_bound)
        (All-append IsChunk raw.queue.items (c ∷ []) l.chunks (k, tt));
  gave = rw (put-trace c raw l.fifo.same_bound) l.gave;
  took = rw (put-trace c raw l.fifo.same_bound) l.took;
}

pub raw_took :
    (raw : Trace DataChunk) (taken : List DataChunk) (stop : Bool) (c : DataChunk)
    → (q : Queue DataChunk) → pop stop raw.queue ≡ returned (some c, q)
    → RawLink raw taken
    → RawLink (act (popping stop) raw) (taken ++ (c ∷ [])) × IsChunk c
raw_took raw taken stop c q h l =
    let whole : All IsChunk (c ∷ q.items) =
      subst (All IsChunk) (pop-some stop c raw.queue q h) l.chunks in
    (
      record {
        fifo = act-IsFifo 0 (popping stop) raw l.fifo;
        chunks = rw (took-trace stop c q raw h) whole.1;
        gave =
            rw (took-trace stop c q raw h)
              (All-append IsChunk raw.popped (c ∷ []) l.gave (whole.0, tt));
        took = rw (took-trace stop c q raw h, l.took) refl;
      },
      whole.0,
    )

pub parsed_put :
    (parsed : Trace Telemetry) (sent taken : List Telemetry) (x : Telemetry)
    → ParsedLink parsed sent taken
    → ParsedLink (put_in x parsed) (sent ++ (x ∷ [])) taken
parsed_put parsed sent taken x l = record {
  fifo = act-IsFifo 0 (pushing x false false) parsed l.fifo;
  put = rw (put-trace x parsed l.fifo.same_bound, l.put) refl;
  took = rw (put-trace x parsed l.fifo.same_bound) l.took;
}

pub parsed_took :
    (parsed : Trace Telemetry) (sent taken : List Telemetry) (stop : Bool) (x : Telemetry)
    → (q : Queue Telemetry) → pop stop parsed.queue ≡ returned (some x, q)
    → ParsedLink parsed sent taken
    → ParsedLink (act (popping stop) parsed) sent (taken ++ (x ∷ []))
parsed_took parsed sent taken stop x q h l = record {
  fifo = act-IsFifo 0 (popping stop) parsed l.fifo;
  put = rw (took-trace stop x q parsed h) l.put;
  took = rw (took-trace stop x q parsed h, l.took) refl;
}

module _ (log : Trace Message) (heard by_parser by_logic written : List Message) (m : Message)
    (l : LogLink log heard by_parser by_logic written) where
  log_put :
      (heard' by_parser' by_logic' : List Message)
      → Merged (log.accepted ++ (m ∷ [])) heard' by_parser' by_logic'
      → LogLink (put_in m log) heard' by_parser' by_logic' written
  log_put heard' by_parser' by_logic' h = record {
    fifo = act-IsFifo 0 (pushing m false false) log l.fifo;
    put = rw (put-trace m log l.fifo.same_bound) h;
    wrote = rw (put-trace m log l.fifo.same_bound) l.wrote;
  }

  pub listener_put : LogLink (put_in m log) (heard ++ (m ∷ [])) by_parser by_logic written
  listener_put = log_put _ _ _ (from_first m l.put)

  pub parser_put : LogLink (put_in m log) heard (by_parser ++ (m ∷ [])) by_logic written
  parser_put = log_put _ _ _ (from_second m l.put)

  pub logic_put : LogLink (put_in m log) heard by_parser (by_logic ++ (m ∷ [])) written
  logic_put = log_put _ _ _ (from_third m l.put)

  pub log_took :
      (stop : Bool) (q : Queue Message)
      → pop stop log.queue ≡ returned (some m, q)
      → LogLink (act (popping stop) log) heard by_parser by_logic (written ++ (m ∷ []))
  log_took stop q h = record {
    fifo = act-IsFifo 0 (popping stop) log l.fifo;
    put = rw (took-trace stop m q log h) l.put;
    wrote = rw (took-trace stop m q log h, l.wrote) refl;
  }
