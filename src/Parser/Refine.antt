-- ===== src/Parser/Refine.antt =====
-- `handle_chunk` on the table of clients against the streams of the specification.
use counter_drone_streaming.Base.{
  ltb→lt, ℕ, ◌+◌, ltb, false, ◌≡◌, refl, ◌∙◌, arith, inl, inr, ℤ, List, [], ◌∷◌, ◌++◌, length, All,
  Bool-cases,
}
use counter_drone_streaming.Message.{ok}
use counter_drone_streaming.Ring.{Ring, default_capacity, push}
use counter_drone_streaming.Ring.Valid.{IsByte}
use counter_drone_streaming.Ring.Refine.{contents, length-contents, push_ok}
use counter_drone_streaming.Telemetry.{DataChunk}
use counter_drone_streaming.Bytes.{Endian}
use counter_drone_streaming.Table.{put, int_key}
use counter_drone_streaming.Client.{ClientState, Outputs, finished, process_client}
use counter_drone_streaming.Client.Good.{Found, Found-append}
use counter_drone_streaming.Client.Step.{unread}
use counter_drone_streaming.Client.Loop.{process_client-Finishes}
use counter_drone_streaming.Client.Frame.{Event, scan, report, reports}
use counter_drone_streaming.Parser.{
  Parser, Handled, handled, client_of, drive, receive, handle_chunk, handle_chunks,
}
use counter_drone_streaming.Parser.Ready.{IsReady, Holds, IsChunk, Holds-put, Holds-remove}
use counter_drone_streaming.Parser.Spec.{
  Pending, hold, Notice, tag, take_chunk, notices, waiting, tell, tells,
}
use counter_drone_streaming.Parser.Overflow.{without, receive_full}

-- A waiting client takes a chunk, and is ready again when `process_client` returns.
record Received (c : ClientState) (bytes : List ℕ) (o : Outputs) (e : Endian) : Type 0 where
  ring : Ring
  pushed : push c.ring_buffer bytes ≡ ok ring
  client : ClientState
  returns :
      process_client e (record c { ring_buffer = ring }) o
      ≡ finished client (reports (scan (unread c ++ bytes)).0 o)
  rest : unread client ≡ (scan (unread c ++ bytes)).1
  ready : IsReady client

receive-Received :
    (e : Endian) (c : ClientState) (bytes : List ℕ) (o : Outputs)
    → IsReady c
    → All IsByte bytes
    → ltb default_capacity (length (unread c) + length bytes) ≡ false
    → Received c bytes o e
receive-Received e c bytes o g byte room =
    let v = g.good.ring in
    let (r, done, v', holds, kept, _) =
      push_ok v bytes byte (ground (arith, g.full_size, length-contents v, room)) in
    let c' : ClientState = record c { ring_buffer = r } in
    let found : Found c.state c.payload_length (contents r) =
      rw holds (Found-append c.state c.payload_length (unread c) bytes g.good.found) in
    let f = process_client-Finishes e c' o (record { ring = v'; found = found }) in
    record {
      ring = r;
      pushed = done;
      client = f.client;
      returns = rw (← holds) f.returns;
      rest = rw (← holds) f.rest;
      ready = record {
        good = f.good;
        full_size = f.same_capacity ∙ kept ∙ g.full_size;
        waits = f.waiting;
      };
    }

tells-tag : (id : ℤ) (evs : List Event) (o : Outputs) → tells (tag id evs) o ≡ reports evs o
unfolding tells tell reports
tells-tag id [] o = refl
tells-tag id (ev ∷ evs) o = tells-tag id evs (report ev o)

pub tells-append :
    (ns ms : List (ℤ × Notice)) (o : Outputs) → tells (ns ++ ms) o ≡ tells ms (tells ns o)
unfolding tells
tells-append [] ms o = refl
tells-append (n ∷ ns) ms o = tells-append ns ms (tell n o)

-- The round is handled, puts out what the specification tells, and keeps the table in step.
record Handles (p : Parser) (ns : List (ℤ × Notice)) (w : Pending) (h : Handled) : Type 0 where
  parser : Parser
  is_handled : h ≡ handled parser
  tells_all : parser.outputs ≡ tells ns p.outputs
  holds : Holds parser w

-- A chunk for which there is room.
chunk-Handles :
    (e : Endian) (id : ℤ) (bytes : List ℕ) (p : Parser) (w : Pending)
    → Holds p w
    → All IsByte bytes
    → ltb default_capacity (length (w id) + length bytes) ≡ false
    → let found = scan (w id ++ bytes) in
      Handles p (tag id found.0) (hold id found.1 w) (receive e id bytes p)
unfolding receive drive
chunk-Handles e id bytes p w h byte room =
    let front = h.bytes id in
    let got =
      receive-Received e (client_of id p) bytes p.outputs (h.ready id) byte (rw front room) in
    record {
      parser = record {
        clients = put id got.client p.clients;
        outputs = reports (scan (unread (client_of id p) ++ bytes)).0 p.outputs;
      };
      is_handled = rw (got.pushed, receive) (rw (got.returns, drive));
      tells_all = rw (tells-tag id (scan (w id ++ bytes)).0 p.outputs, front);
      holds = Holds-put p w id got.client _ _ h got.ready (rw (← front) got.rest);
    }

handle_chunk-Handles :
    (e : Endian) (id : ℤ) (bytes : List ℕ) (p : Parser) (w : Pending)
    → Holds p w
    → All IsByte bytes
    → let chunk : DataChunk = record { client_id = id; bytes = bytes } in
      Handles p (take_chunk chunk w).0 (take_chunk chunk w).1 (handle_chunk e chunk p)
unfolding handle_chunk take_chunk tells tell without
handle_chunk-Handles e id [] p w h byte = record {
  parser = _;
  is_handled = refl;
  tells_all = refl;
  holds = Holds-remove p w id _ h;
}
handle_chunk-Handles e id (b ∷ bs) p w h byte =
    elim (Bool-cases (ltb default_capacity (length (w id) + length (b ∷ bs)))) [
      | inl full ↦ rw full (record {
        parser = without id (b ∷ bs) p w;
        is_handled = receive_full e id (b ∷ bs) p w h (ltb→lt _ _ full);
        tells_all = refl;
        holds = Holds-remove p w id _ h;
      })
      | inr room ↦ rw room (chunk-Handles e id (b ∷ bs) p w h byte room)
    ]

-- The same for a round alone, with the new state laid open.
pub handle_chunk_refines :
    (e : Endian) (chunk : DataChunk) (p : Parser) (w : Pending)
    → Holds p w
    → IsChunk chunk
    → (p' : Parser) × (handle_chunk e chunk p ≡ handled p')
      × (p'.outputs ≡ tells (take_chunk chunk w).0 p.outputs)
      × Holds p' (take_chunk chunk w).1
handle_chunk_refines e chunk p w h k =
    let d = handle_chunk-Handles e chunk.client_id chunk.bytes p w h k in
    (d.parser, d.is_handled, d.tells_all, d.holds)

-- From a table in step with its clients' streams, over any chunks of bytes of any clients: every
-- round is handled, and no exception but an overflow is met; the outputs are those that the stream
-- specification tells, in order, where a client whose chunk does not fit its buffer is dropped
-- with the bytes that wait; and each client is left with the bytes of its own stream that wait.
pub handle_chunks_refines :
    (e : Endian) (chunks : List DataChunk) (p : Parser) (w : Pending)
    → Holds p w
    → All IsChunk chunks
    → (p' : Parser) × (handle_chunks e chunks p ≡ handled p')
      × (p'.outputs ≡ tells (notices chunks w) p.outputs)
      × Holds p' (waiting chunks w)
unfolding handle_chunks notices waiting tells
handle_chunks_refines e [] p w h k = (p, refl, refl, h)
handle_chunks_refines e (chunk ∷ chunks) p w h (k, ks) =
    let d = handle_chunk-Handles e chunk.client_id chunk.bytes p w h k in
    let (p', is, out, holds) =
      handle_chunks_refines e chunks d.parser (take_chunk chunk w).1 d.holds ks in
    (
      p',
      rw (d.is_handled, handle_chunks) is,
      rw
          (
            tells-append (take_chunk chunk w).0 (notices chunks (take_chunk chunk w).1) p.outputs,
            ← d.tells_all,
          )
          out,
      holds,
    )
