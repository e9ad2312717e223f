-- ===== src/Listener/Heard.antt =====
-- What the event loop of src/listener.cpp queues, told from what the system calls return alone.
use counter_drone_streaming.Base.{
  ℕ, ℤ, int_eq, Bool, true, false, List, [], ◌∷◌, ◌++◌, if◌then◌else◌, ◌≡◌, refl, sym, ◌∙◌, ap,
  arith, append_assoc, append-nil, Bool-cases, inl, inr,
}
use counter_drone_streaming.Telemetry.{DataChunk}
use counter_drone_streaming.Listener.{
  Listener, Recv, received, no_more_data, recv_error, handle_client_data, disconnect_client, Ready,
  serve, handle_event, handle_events, Wait, interrupted, wait_error, ready, event_loop, send,
}
use counter_drone_streaming.Listener.Chunks.{handle_accept-queue}
use counter_drone_streaming.Listener.Wake.{
  is_reported, handle_event-shuts_down, handle_event-returns, handle_events-returns,
}

-- The calls of `::recv` up to the one that ends the reading: what they brought, and whether it was
-- the end of the stream or an error.
abbrev pub pieces : List Recv → List (List ℕ)
pieces [] = []
pieces (received (b ∷ bs) ∷ calls) = (b ∷ bs) ∷ pieces calls
pieces (received [] ∷ calls) = []
pieces (no_more_data ∷ calls) = []
pieces (recv_error e ∷ calls) = []

abbrev pub dies : List Recv → Bool
dies [] = false
dies (received (b ∷ bs) ∷ calls) = dies calls
dies (received [] ∷ calls) = true
dies (no_more_data ∷ calls) = false
dies (recv_error e ∷ calls) = true

abbrev pub chunk_of : ℤ → List ℕ → DataChunk
chunk_of fd bs = record { client_id = fd; bytes = bs }

abbrev pub tagged : ℤ → List (List ℕ) → List DataChunk
tagged fd [] = []
tagged fd (p ∷ ps) = chunk_of fd p ∷ tagged fd ps

abbrev pub farewell : ℤ → Bool → List DataChunk
farewell fd true = chunk_of fd [] ∷ []
farewell fd false = []

-- The chunks of one event: none for the server's socket, the farewell for a client that hung up, and
-- for one with data what it sent, then the farewell if the connection is at its end.
abbrev pub chunks_of : ℤ → Ready → List DataChunk
chunks_of server r =
    let fd = r.source_fd in
    if int_eq fd server
    then []
    else if r.hangup
    then farewell fd true
    else if r.readable
    then tagged fd (pieces r.recvs) ++ farewell fd (dies r.recvs)
    else []

abbrev pub all_chunks : ℤ → List Ready → List DataChunk
all_chunks server [] = []
all_chunks server (r ∷ rs) = chunks_of server r ++ all_chunks server rs

-- The events before the one of the eventfd.
abbrev pub before_wake : ℤ → List Ready → List Ready
before_wake event [] = []
before_wake event (r ∷ rs) = if int_eq r.source_fd event then [] else r ∷ before_wake event rs

-- The events that the loop comes to.
abbrev pub reached : ℤ → List (Bool × Wait) → List Ready
reached event [] = []
reached event ((true, w) ∷ rounds) = []
reached event ((false, interrupted) ∷ rounds) = reached event rounds
reached event ((false, wait_error e) ∷ rounds) = []
reached event ((false, ready rs) ∷ rounds) =
    before_wake event rs ++ (if is_reported event rs then [] else reached event rounds)

handle_client_data-queue :
    (fd : ℤ) (calls : List Recv) (l : Listener)
    → ((handle_client_data fd calls l).1.queue ≡ l.queue ++ tagged fd (pieces calls))
      × ((handle_client_data fd calls l).0 ≡ (if dies calls then false else true))
unfolding handle_client_data
handle_client_data-queue fd [] l = (sym (append-nil l.queue), refl)
handle_client_data-queue fd (received (b ∷ bs) ∷ calls) l =
    let (q, alive) = handle_client_data-queue fd calls (send fd (b ∷ bs) l) in
    (q ∙ append_assoc l.queue (chunk_of fd (b ∷ bs) ∷ []) (tagged fd (pieces calls)), alive)
handle_client_data-queue fd (received [] ∷ calls) l = (sym (append-nil l.queue), refl)
handle_client_data-queue fd (no_more_data ∷ calls) l = (sym (append-nil l.queue), refl)
handle_client_data-queue fd (recv_error e ∷ calls) l = (sym (append-nil l.queue), refl)

disconnect_client-queue :
    (fd : ℤ) (l : Listener) → (disconnect_client fd l).queue ≡ l.queue ++ farewell fd true
unfolding disconnect_client
disconnect_client-queue fd l = refl

serve-queue :
    (fd : ℤ) (calls : List Recv) (l : Listener)
    → (serve fd calls l).queue ≡ l.queue ++ (tagged fd (pieces calls) ++ farewell fd (dies calls))
serve-queue fd calls l = go (dies calls) refl
  where
    go :
        (d : Bool)
        → dies calls ≡ d
        → (serve fd calls l).queue ≡ l.queue ++ (tagged fd (pieces calls) ++ farewell fd d)
    go true e =
        let (q, alive) = handle_client_data-queue fd calls l in
        rw (alive, e, disconnect_client-queue, q)
          (append_assoc l.queue (tagged fd (pieces calls)) (farewell fd true))
    go false e = let (q, alive) = handle_client_data-queue fd calls l in rw (alive, e, append-nil) q

handle_event-queue :
    (server event : ℤ) (r : Ready) (l : Listener)
    → int_eq r.source_fd event ≡ false
    → (handle_event server event r l).1.queue ≡ l.queue ++ chunks_of server r
unfolding handle_event
handle_event-queue server event r l other = ground (
  arith,
  other,
  append-nil l.queue,
  handle_accept-queue r.accepts l,
  disconnect_client-queue r.source_fd l,
  serve-queue r.source_fd r.recvs l,
)

handle_events-queue :
    (server event : ℤ) (rs : List Ready) (l : Listener)
    → (handle_events server event rs l).1.queue
      ≡ l.queue ++ all_chunks server (before_wake event rs)
unfolding handle_events
handle_events-queue server event [] l = sym (append-nil l.queue)
handle_events-queue server event (r ∷ rs) l = elim (Bool-cases (int_eq r.source_fd event)) [
  | inl wakes ↦
      rw (handle_event-shuts_down server event r l wakes, wakes) (sym (append-nil l.queue))
  | inr other ↦
      let l' = (handle_event server event r l).1 in
      rw (handle_event-returns server event r l, other)
        (handle_events-queue server event rs l'
          ∙ rw (handle_event-queue server event r l other) (
              append_assoc l.queue (chunks_of server r) (all_chunks server (before_wake event rs))))
]

all_chunks-append :
    (server : ℤ) (rs qs : List Ready)
    → all_chunks server (rs ++ qs) ≡ all_chunks server rs ++ all_chunks server qs
all_chunks-append server [] qs = refl
all_chunks-append server (r ∷ rs) qs =
    ap (λ cs. chunks_of server r ++ cs) (all_chunks-append server rs qs)
    ∙ sym (append_assoc (chunks_of server r) (all_chunks server rs) (all_chunks server qs))

-- In whatever state it starts, the event loop adds to the queue the chunks of the events that it
-- comes to, those before the eventfd's, a stop or an error of epoll_wait, in their order, and
-- nothing else: for a socket with data the bytes of each call of recv in turn, then an empty chunk
-- if the connection has ended or failed, for one that hung up an empty chunk alone, and for the
-- server's socket none.
pub event_loop-queue :
    (server event : ℤ) (rounds : List (Bool × Wait)) (l : Listener)
    → (event_loop server event rounds l).queue ≡ l.queue ++ all_chunks server (reached event rounds)
unfolding event_loop
event_loop-queue server event [] l = sym (append-nil l.queue)
event_loop-queue server event ((true, w) ∷ rounds) l = sym (append-nil l.queue)
event_loop-queue server event ((false, interrupted) ∷ rounds) l =
    event_loop-queue server event rounds l
event_loop-queue server event ((false, wait_error e) ∷ rounds) l = sym (append-nil l.queue)
event_loop-queue server event ((false, ready rs) ∷ rounds) l =
    let l' = (handle_events server event rs l).1 in
    let first = handle_events-queue server event rs l in
    let returns = handle_events-returns server event rs l in
    elim (Bool-cases (is_reported event rs)) [
      | inl wakes ↦ rw (returns, wakes, append-nil) first
      | inr quiet ↦
          rw (returns, quiet, all_chunks-append)
            (event_loop-queue server event rounds l'
              ∙ rw first (
                  append_assoc l.queue (all_chunks server (before_wake event rs))
                    (all_chunks server (reached event rounds))))
    ]
