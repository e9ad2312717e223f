-- ===== src/Listener/Chunks.antt =====
-- What the listener queues for the parser.
use counter_drone_streaming.Base.{
  ℕ, ◌≤◌, ℤ, int_eq, Bool, true, false, List, [], ◌∷◌, length, All, All-append, arith, Option, some,
  none, ◌≡◌, refl, Option-cases, inl, inr, if-holds, ◌∙◌,
}
use counter_drone_streaming.Message.{Message}
use counter_drone_streaming.Ring.Valid.{IsByte}
use counter_drone_streaming.Bytes.{Endian}
use counter_drone_streaming.Telemetry.{DataChunk}
use counter_drone_streaming.Parser.{Parser, handled, handle_chunks}
use counter_drone_streaming.Parser.Spec.{Pending, notices, waiting, tells}
use counter_drone_streaming.Parser.Ready.{IsChunk, Holds}
use counter_drone_streaming.Parser.Refine.{handle_chunks_refines}
use counter_drone_streaming.Parser.Room.{IsIdle, IsKept, IsSmall, notices-IsKept}
use counter_drone_streaming.Socket.{SocketHandle}
use counter_drone_streaming.Table.{find?, int_key}
use counter_drone_streaming.Listener.{
  Listener, Accept, none_waits, accept_error, accepted, Recv, received, no_more_data, recv_error,
  emplace, accept_client, handle_accept, handle_client_data, disconnect_client, Ready, handle_event,
  handle_events, Wait, interrupted, wait_error, ready, event_loop, send, recv_buf_size,
}

-- `::recv` returns at most as many bytes as it was given room for.
abbrev pub Fits : Recv → Type 0
Fits (received bs) = All IsByte bs × (length bs ≤ recv_buf_size)
Fits no_more_data = Unit
Fits (recv_error e) = Unit

abbrev pub FitsReady : Ready → Type 0
FitsReady r = All Fits r.recvs

abbrev pub FitsWait : Bool × Wait → Type 0
FitsWait (stop, interrupted) = Unit
FitsWait (stop, wait_error e) = Unit
FitsWait (stop, ready rs) = All FitsReady rs

abbrev pub IsBounded : DataChunk → Type 0
IsBounded chunk = IsChunk chunk × IsSmall chunk

-- All that is queued are chunks of bytes, each within the parser's limit.
abbrev pub IsQueued : Listener → Type 0
IsQueued l = All IsBounded l.queue

abbrev Queues : Bool × Listener → Type 0
Queues r = IsQueued r.1

send-IsQueued :
    (fd : ℤ) (bs : List ℕ) (l : Listener)
    → All IsByte bs
    → length bs ≤ recv_buf_size
    → IsQueued l
    → IsQueued (send fd bs l)
send-IsQueued fd bs l byte fits q =
    All-append IsBounded l.queue (record { client_id = fd; bytes = bs } ∷ []) q
      ((byte, omega (arith, fits)), tt)

emplace-queue : (fd : ℤ) (h : SocketHandle) (l : Listener) → (emplace fd h l).queue ≡ l.queue
unfolding emplace
emplace-queue fd h l = elim (Option-cases (find? fd l.clients)) [
  | inl missing ↦ rw (missing, emplace) refl
  | inr (g, there) ↦ rw (there, emplace) refl
]

accept_client-queue :
    (fd : ℕ) (addr : Message) (blocking added : Option Message) (l : Listener)
    → (accept_client fd addr blocking added l).queue ≡ l.queue
unfolding accept_client
accept_client-queue fd addr (some e) added l = refl
accept_client-queue fd addr none (some e) l = refl
accept_client-queue fd addr none none l = emplace-queue _ _ _

pub handle_accept-queue :
    (calls : List Accept) (l : Listener) → (handle_accept calls l).queue ≡ l.queue
unfolding handle_accept
handle_accept-queue [] l = refl
handle_accept-queue (none_waits ∷ calls) l = refl
handle_accept-queue (accept_error e ∷ calls) l = refl
handle_accept-queue (accepted fd addr blocking added ∷ calls) l =
    handle_accept-queue calls _ ∙ accept_client-queue fd addr blocking added _

handle_client_data-IsQueued :
    (fd : ℤ) (calls : List Recv) (l : Listener)
    → All Fits calls
    → IsQueued l
    → IsQueued (handle_client_data fd calls l).1
unfolding handle_client_data
handle_client_data-IsQueued fd [] l f q = q
handle_client_data-IsQueued fd (received (b ∷ bs) ∷ calls) l (f, fs) q =
    handle_client_data-IsQueued fd calls _ fs (send-IsQueued fd (b ∷ bs) l f.0 f.1 q)
handle_client_data-IsQueued fd (received [] ∷ calls) l f q = q
handle_client_data-IsQueued fd (no_more_data ∷ calls) l f q = q
handle_client_data-IsQueued fd (recv_error e ∷ calls) l f q = q

disconnect_client-IsQueued :
    (fd : ℤ) (l : Listener) → IsQueued l → IsQueued (disconnect_client fd l)
unfolding disconnect_client
disconnect_client-IsQueued fd l q = send-IsQueued fd [] l tt (omega arith) q

handle_event-IsQueued :
    (server event : ℤ) (r : Ready) (l : Listener)
    → FitsReady r
    → IsQueued l
    → IsQueued (handle_event server event r l).1
unfolding handle_event
handle_event-IsQueued server event r l f q =
    let fd = r.source_fd in
    let served = handle_client_data-IsQueued fd r.recvs l f q in
    if-holds Queues (int_eq fd event) _ _ q (
      if-holds Queues (int_eq fd server) _ _ (rw (handle_accept-queue r.accepts l) q) (
        if-holds Queues r.hangup _ _ (disconnect_client-IsQueued fd l q) (
          if-holds Queues r.readable _ _
            (if-holds IsQueued (handle_client_data fd r.recvs l).0 _ _ served
              (disconnect_client-IsQueued fd _ served))
            q)))

handle_events-IsQueued :
    (server event : ℤ) (rs : List Ready) (l : Listener)
    → All FitsReady rs
    → IsQueued l
    → IsQueued (handle_events server event rs l).1
unfolding handle_events
handle_events-IsQueued server event [] l f q = q
handle_events-IsQueued server event (r ∷ rs) l (f, fs) q =
    let q' = handle_event-IsQueued server event r l f q in
    if-holds Queues (handle_event server event r l).0 _ _ q'
      (handle_events-IsQueued server event rs (handle_event server event r l).1 fs q')

pub event_loop-IsQueued :
    (server event : ℤ) (rounds : List (Bool × Wait)) (l : Listener)
    → All FitsWait rounds
    → IsQueued l
    → IsQueued (event_loop server event rounds l)
unfolding event_loop
event_loop-IsQueued server event [] l f q = q
event_loop-IsQueued server event ((true, w) ∷ rounds) l f q = q
event_loop-IsQueued server event ((false, interrupted) ∷ rounds) l (f, fs) q =
    event_loop-IsQueued server event rounds l fs q
event_loop-IsQueued server event ((false, wait_error e) ∷ rounds) l f q = q
event_loop-IsQueued server event ((false, ready rs) ∷ rounds) l (f, fs) q =
    let q' = handle_events-IsQueued server event rs l f q in
    if-holds IsQueued (handle_events server event rs l).0 _ _ q'
      (event_loop-IsQueued server event rounds (handle_events server event rs l).1 fs q')

pub All-both :
    (chunks : List DataChunk) → All IsBounded chunks → All IsChunk chunks × All IsSmall chunks
All-both [] b = (tt, tt)
All-both (chunk ∷ chunks) ((c, s), b) = let (cs, ss) = All-both chunks b in ((c, cs), (s, ss))

-- If ::recv returns bytes, and no more of them than its buffer holds, and what is queued at the
-- start are chunks of at most 65275 bytes, then the parser handles all that is queued when the
-- event loop ends, from any table in step with its clients' streams: the outputs are those that
-- the stream specification tells, and no client is dropped for an overflow or an exception.
pub queue_is_handled :
    (server event : ℤ) (rounds : List (Bool × Wait)) (l : Listener)
    → (e : Endian) (p : Parser) (w : Pending) → All FitsWait rounds
    → IsQueued l
    → Holds p w
    → let chunks = (event_loop server event rounds l).queue in
      (p' : Parser) × (handle_chunks e chunks p ≡ handled p')
      × (p'.outputs ≡ tells (notices chunks w) p.outputs)
      × All IsKept (notices chunks w)
      × Holds p' (waiting chunks w)
queue_is_handled server event rounds l e p w f q h =
    let chunks = (event_loop server event rounds l).queue in
    let (bytes, small) = All-both chunks (event_loop-IsQueued server event rounds l f q) in
    let (p', is, out, holds) = handle_chunks_refines e chunks p w h bytes in
    let idle : IsIdle w = λ id. rw (← h.bytes id) (h.ready id).waits in
    (p', is, out, notices-IsKept chunks w idle small, holds)
