-- ===== src/Parser/Overflow.antt =====
-- A chunk for which a client's buffer has no room.
use counter_drone_streaming.Base.{
  ◌<◌, ℕ, ◌+◌, ◌-◌, false, sym, ap, ◌≡◌, refl, ◌∙◌, arith, ℤ, int_eq, List, [], ◌∷◌, length,
}
use counter_drone_streaming.Ring.{overflow_message, default_capacity}
use counter_drone_streaming.Ring.Refine.{length-contents, push_overflow}
use counter_drone_streaming.Telemetry.{DataChunk}
use counter_drone_streaming.Bytes.{Endian}
use counter_drone_streaming.Table.{int_eq_iff, remove, int_key}
use counter_drone_streaming.Client.{log, fresh_client}
use counter_drone_streaming.Client.Stream.{next-none-lt}
use counter_drone_streaming.Parser.{
  is_empty, overflowed, Parser, handled, client_of, receive, refuse, handle_chunk,
}
use counter_drone_streaming.Parser.Ready.{client_of-remove, Holds}
use counter_drone_streaming.Parser.Spec.{Pending}

pub is_empty-full : (bs : List ℕ) → 0 < length bs → is_empty bs ≡ false
is_empty-full [] h = absurd (omega arith)
is_empty-full (b ∷ bs) h = refl

-- A chunk for which there is no room: the client is dropped.
unfoldable pub without : (id : ℤ) (bytes : List ℕ) → Parser → Pending → Parser
without id bytes p w =
    let free = default_capacity - length (w id) in
    record {
      clients = remove id p.clients;
      outputs = log (overflowed (overflow_message (length bytes) free) id) p.outputs;
    }

pub receive_full :
    (e : Endian) (id : ℤ) (bytes : List ℕ) (p : Parser) (w : Pending)
    → Holds p w
    → default_capacity < length (w id) + length bytes
    → receive e id bytes p ≡ handled (without id bytes p w)
unfolding receive refuse without
receive_full e id bytes p w h full =
    let g = h.ready id in
    let used = sym (length-contents g.good.ring) ∙ ap length (h.bytes id) in
    let refused = push_overflow g.good.ring bytes (omega (arith, full, used, g.full_size)) in
    rw (refused, receive, used, g.full_size) refl

-- From a table in step with its clients' streams, a chunk that does not fit beside what waits
-- drops its client and no other: the round is handled, one line is logged, with the bytes that
-- came and the room there was, and nothing else is put out, the client starts afresh, and every
-- other client is left as it was.
pub overflow_drops_client :
    (e : Endian) (chunk : DataChunk) (p : Parser) (w : Pending)
    → Holds p w
    → default_capacity < length (w chunk.client_id) + length chunk.bytes
    → let id = chunk.client_id in
      let tried = length chunk.bytes in
      let free = default_capacity - length (w id) in
      (p' : Parser) × (handle_chunk e chunk p ≡ handled p')
      × (p'.outputs ≡ log (overflowed (overflow_message tried free) id) p.outputs)
      × (client_of id p' ≡ fresh_client)
      × ((j : ℤ) → int_eq id j ≡ false → client_of j p' ≡ client_of j p)
unfolding handle_chunk without
overflow_drops_client e chunk p w h full =
    let id = chunk.client_id in
    let some_bytes : is_empty chunk.bytes ≡ false =
      is_empty-full chunk.bytes
        (omega (arith, full, next-none-lt (w id) (rw (← h.bytes id) (h.ready id).waits))) in
    let removed = client_of-remove id in
    (
      without id chunk.bytes p w,
      rw some_bytes (receive_full e id chunk.bytes p w h full),
      refl,
      removed id p _ ∙ rw ((int_eq_iff id id).1 refl) refl,
      λ j other. removed j p _ ∙ rw other refl,
    )
