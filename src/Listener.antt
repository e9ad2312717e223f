-- ===== src/Listener.antt =====
-- `NetworkListener` of src/listener.cpp: the event loop over sockets. What the system calls return
-- is input, call by call: `Accept`, `Recv` and `Wait`. Error texts are those of `std::strerror` and
-- `what()`.
pub mod Owned
pub mod Chunks
pub mod Setup
pub mod Run
pub mod Wake
pub mod Reuse
pub mod Heard
pub mod Sessions
use counter_drone_streaming.Base.{
  ℕ, ℤ, pos, int_eq, Bool, true, false, List, [], ◌∷◌, ◌++◌, if◌then◌else◌, Option, some, none,
}
use counter_drone_streaming.Message.{text, number, integer, Message}
use counter_drone_streaming.Telemetry.{DataChunk}
use counter_drone_streaming.Table.{find?, put, remove, int_key}
use counter_drone_streaming.Socket.{SocketHandle, destroy, move}

abbrev pub recv_buf_size : ℕ
recv_buf_size = 4096

-- The members that the event loop changes, with what has been queued and logged, the descriptors
-- that epoll watches for data, and those that `::accept` has returned and `::close` was called with.
pub record Listener : Type 0 where
  pub clients : List (ℤ × SocketHandle)
  pub queue : List DataChunk
  pub logs : List Message
  pub watched : List ℤ
  pub opened : List ℤ
  pub closed : List ℤ

abbrev pub log : Message → Listener → Listener
log m l = record l { logs = l.logs ++ (m ∷ []) }

abbrev pub send : ℤ → List ℕ → Listener → Listener
send fd bs l = record l { queue = l.queue ++ (record { client_id = fd; bytes = bs } ∷ []) }

abbrev pub close : List ℤ → Listener → Listener
close fds l = record l { closed = l.closed ++ fds }

-- One call of `::accept`: no connection waits, an error, or a socket with its address; then what
-- `set_nonblocking` throws and the error of `::epoll_ctl`, if any.
pub data Accept : Type 0 where
  none_waits : Accept
  accept_error : Message → Accept
  accepted : ℕ → Message → Option Message → Option Message → Accept

-- One call of `::recv` that does not fail returns bytes, none at the end of the stream.
pub data Recv : Type 0 where
  received : List ℕ → Recv
  no_more_data : Recv
  recv_error : Message → Recv

abbrev pub accept_failed : Message → Message
accept_failed e = text "[NetworkListener] accept() error: " ∷ e ++ (text "\n" ∷ [])

abbrev pub set_nonblocking_failed : ℕ → Message → Message
set_nonblocking_failed fd e =
    text "[NetworkListener] set_nonblocking failed for client fd=" ∷ number fd ∷ text ": " ∷ e
    ++ (text "\n" ∷ [])

abbrev pub epoll_ctl_failed : Message → Message
epoll_ctl_failed e = text "[NetworkListener] epoll_ctl add client failed: " ∷ e ++ (text "\n" ∷ [])

abbrev pub connected : ℕ → Message → Message
connected fd addr =
    text "[NetworkListener] Client connected (fd=" ∷ number fd ∷ text ", addr=" ∷ addr
    ++ (text ")\n" ∷ [])

-- `m_clients.emplace(fd, std::move(handle))`: a key that stands already keeps its entry, and the
-- handle that was moved into the new node closes its socket.
unfoldable pub emplace : ℤ → SocketHandle → Listener → Listener
emplace fd h l = elim (find? fd l.clients) [
  | none ↦ record l { clients = put fd (move h).0 l.clients }
  | some _ ↦ close (destroy (move h).0) l
]

-- What `handle_accept` does with a socket; where it gives up, the handle's destructor closes it.
unfoldable pub accept_client : ℕ → Message → Option Message → Option Message → Listener → Listener
accept_client fd addr (some e) added l =
    close (destroy (record { fd = pos fd })) (log (set_nonblocking_failed fd e) l)
accept_client fd addr none (some e) l =
    close (destroy (record { fd = pos fd })) (log (epoll_ctl_failed e) l)
accept_client fd addr none none l =
    let l₁ = record l { watched = l.watched ++ (pos fd ∷ []) } in
    emplace (pos fd) (record { fd = pos fd }) (log (connected fd addr) l₁)

unfoldable pub handle_accept : List Accept → Listener → Listener
handle_accept [] l = l
handle_accept (none_waits ∷ calls) l = l
handle_accept (accept_error e ∷ calls) l = log (accept_failed e) l
handle_accept (accepted fd addr blocking added ∷ calls) l =
    handle_accept calls
      (accept_client fd addr blocking added (record l { opened = l.opened ++ (pos fd ∷ []) }))

abbrev pub recv_failed : ℤ → Message → Message
recv_failed fd e =
    text "[NetworkListener] recv() error on fd " ∷ integer fd ∷ text ": " ∷ e ++ (text "\n" ∷ [])

-- The result is whether the socket is still alive.
unfoldable pub handle_client_data : ℤ → List Recv → Listener → Bool × Listener
handle_client_data fd [] l = (true, l)
handle_client_data fd (received (b ∷ bs) ∷ calls) l =
    handle_client_data fd calls (send fd (b ∷ bs) l)
handle_client_data fd (received [] ∷ calls) l = (false, l)
handle_client_data fd (no_more_data ∷ calls) l = (true, l)
handle_client_data fd (recv_error e ∷ calls) l = (false, log (recv_failed fd e) l)

abbrev pub disconnected : ℤ → Message
disconnected fd = text "[NetworkListener] Client disconnected (fd=" ∷ integer fd ∷ text ")\n" ∷ []

-- What the destructors of the erased entries close.
unfoldable pub erased : ℤ → List (ℤ × SocketHandle) → List ℤ
erased fd [] = []
erased fd ((k, h) ∷ m) = if int_eq k fd then destroy h ++ erased fd m else erased fd m

abbrev pub unwatch : ℤ → List ℤ → List ℤ
unwatch fd [] = []
unwatch fd (k ∷ ks) = if int_eq k fd then unwatch fd ks else k ∷ unwatch fd ks

unfoldable pub disconnect_client : ℤ → Listener → Listener
disconnect_client fd l =
    let l₁ = record l { watched = unwatch fd l.watched } in
    let l₂ = close (erased fd l.clients) (record l₁ { clients = remove fd l.clients }) in
    log (disconnected fd) (send fd [] l₂)

-- A ready descriptor, with what the calls for it will return.
pub record Ready : Type 0 where
  pub source_fd : ℤ
  pub hangup : Bool
  pub readable : Bool
  pub accepts : List Accept
  pub recvs : List Recv

abbrev pub shutdown : Message
shutdown = text "[NetworkListener] Shutdown event received. Shutting down...\n" ∷ []

-- Drains a client's socket, and disconnects it when it is dead.
abbrev pub serve : ℤ → List Recv → Listener → Listener
serve fd calls l =
    let (alive, l') = handle_client_data fd calls l in if alive then l' else disconnect_client fd l'

module _ (server_fd event_fd : ℤ) where
  -- One event; the result is whether `run` returns.
  unfoldable pub handle_event : Ready → Listener → Bool × Listener
  handle_event r l =
      if int_eq r.source_fd event_fd
      then (true, log shutdown l)
      else if int_eq r.source_fd server_fd
      then (false, handle_accept r.accepts l)
      else if r.hangup
      then (false, disconnect_client r.source_fd l)
      else if r.readable
      then (false, serve r.source_fd r.recvs l)
      else (false, l)

  unfoldable pub handle_events : List Ready → Listener → Bool × Listener
  handle_events [] l = (false, l)
  handle_events (r ∷ rs) l =
      let (returns, l') = handle_event r l in
      let rest = handle_events rs l' in if returns then (true, l') else rest

-- One call of `::epoll_wait`.
pub data Wait : Type 0 where
  interrupted : Wait
  wait_error : Message → Wait
  ready : List Ready → Wait

abbrev pub wait_failed : Message → Message
wait_failed e = text "[NetworkListener] epoll_wait error: " ∷ e ++ (text "\n" ∷ [])

-- The loop of `run`, each round with the stop token at its test.
unfoldable pub event_loop : ℤ → ℤ → List (Bool × Wait) → Listener → Listener
event_loop server event [] l = l
event_loop server event ((true, w) ∷ rounds) l = l
event_loop server event ((false, interrupted) ∷ rounds) l = event_loop server event rounds l
event_loop server event ((false, wait_error e) ∷ rounds) l = log (wait_failed e) l
event_loop server event ((false, ready rs) ∷ rounds) l =
    let (returns, l') = handle_events server event rs l in
    let rest = event_loop server event rounds l' in if returns then l' else rest

abbrev pub destroy_clients : List (ℤ × SocketHandle) → List ℤ
destroy_clients [] = []
destroy_clients ((k, h) ∷ m) = destroy h ++ destroy_clients m

-- The listener's destructor, as far as its clients go.
unfoldable pub destroy_listener : Listener → Listener
destroy_listener l = close (destroy_clients l.clients) (record l { clients = [] })
