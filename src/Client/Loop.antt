-- ===== src/Client/Loop.antt =====
-- The loop of `process_client` against the scan.
use counter_drone_streaming.Base.{ℕ, zero, suc, ◌+◌, ◌*◌, ◌<◌, ◌≡◌, refl, ◌∙◌, arith, none}
use counter_drone_streaming.Ring.{size}
use counter_drone_streaming.Bytes.{Endian}
use counter_drone_streaming.Client.{
  State, wait_header, wait_length, wait_payload_and_crc, ClientState, Outputs, Turn, returned,
  continued, thrown, turn, Outcome, finished, process_loop, process_client,
}
use counter_drone_streaming.Client.Good.{IsGood}
use counter_drone_streaming.Client.Frame.{next, scan, reports}
use counter_drone_streaming.Client.Scan.{scan-none, scan-some, reports-append}
use counter_drone_streaming.Client.Step.{
  rank, measure, unread, Progress, waits, looks, moves, turn-Progress,
}

-- The call returns: with the scan's events reported, its rest unread, and no event left in it.
pub record Finishes (c : ClientState) (o : Outputs) (r : Outcome) : Type 0 where
  pub client : ClientState
  pub returns : r ≡ finished client (reports (scan (unread c)).0 o)
  pub rest : unread client ≡ (scan (unread c)).1
  pub waiting : next (unread client) ≡ none
  pub good : IsGood client
  pub same_capacity : client.ring_buffer.capacity ≡ c.ring_buffer.capacity

process_loop-Finishes :
    (fuel : ℕ) (e : Endian) (c : ClientState) (o : Outputs)
    → measure c < fuel
    → IsGood c
    → Finishes c o (process_loop fuel e c o)
unfolding process_loop reports
process_loop-Finishes zero e c o h g = absurd (omega arith)
process_loop-Finishes (suc fuel) e c o h g =
    go (turn e c o) refl (turn-Progress e c o g) (process_loop-Finishes fuel e)
  where
    go :
        (t : Turn)
        → turn e c o ≡ t
        → Progress c o t
        → ((c' : ClientState) (o' : Outputs)
            → measure c' < fuel
            → IsGood c'
            → Finishes c' o' (process_loop fuel e c' o'))
        → Finishes c o (process_loop (suc fuel) e c o)
    go (returned c' o') q (waits w) later = record {
      client = c;
      returns = rw (q, process_loop, scan-none (unread c) w, reports);
      rest = rw (scan-none (unread c) w);
      waiting = w;
      good = g;
      same_capacity = refl;
    }
    go (continued c' o') q (looks _ g' same less size_kept) later =
        let f = later c' o' (omega arith) g' in
        record {
          client = f.client;
          returns = rw (q, process_loop, ← same) f.returns;
          rest = rw (← same) f.rest;
          waiting = f.waiting;
          good = f.good;
          same_capacity = f.same_capacity ∙ size_kept;
        }
    go (continued c' o') q (moves _ _ es g' n r less size_kept) later =
        let f = later c' o' (omega arith) g' in
        let again = scan-some (unread c) es (unread c') n in
        record {
          client = f.client;
          returns =
              rw (q, process_loop, again, reports-append es (scan (unread c')).0 o, ← r) f.returns;
          rest = rw again f.rest;
          waiting = f.waiting;
          good = f.good;
          same_capacity = f.same_capacity ∙ size_kept;
        }
    go (thrown _ _ _) q p later = elim p [ ]

-- On a client's state that satisfies the invariant, process_client returns within its fuel and
-- without an exception; it reports the events of the stateless scan of the unread bytes, leaves
-- the scan's rest unread, with no event left in it, and keeps the invariant and the capacity.
pub process_client-Finishes :
    (e : Endian) (c : ClientState) (o : Outputs) → IsGood c → Finishes c o (process_client e c o)
unfolding process_client size
process_client-Finishes e c o g = process_loop-Finishes _ e c o (bound c.state) g
  where
    bound : (s : State) → 3 * c.ring_buffer.count + rank s < 3 * c.ring_buffer.count + 3
    bound wait_header = omega arith
    bound wait_length = omega arith
    bound wait_payload_and_crc = omega arith
