-- ===== src/Listener/Setup.antt =====
-- `set_nonblocking`, `setup_server_socket` and `setup_epoll` of src/listener.cpp. What the system
-- calls return is input: `none` for success, or the text of the error. The result is what
-- `std::system_error` says where one is thrown.
pub mod Kept
pub mod Faults
use counter_drone_streaming.Base.{
  ℕ, ◌+◌, ℤ, pos, List, [], ◌∷◌, ◌++◌, Option, some, none, ◌⊎◌, inl, inr, ◌≡◌, arith,
}
use counter_drone_streaming.Message.{text, number, Message}
use counter_drone_streaming.Socket.{SocketHandle, destroy, reset}

-- The listener's own handles; the other members are as in `Listener`.
pub record Setup : Type 0 where
  pub server_fd : SocketHandle
  pub epoll_fd : SocketHandle
  pub event_fd : SocketHandle
  pub opened : List ℤ
  pub closed : List ℤ
  pub logs : List Message

-- What is thrown, if anything, and the members.
abbrev pub Stage : Type 0
Stage = Option Message × Setup

abbrev pub throw : Message → Message → Setup → Stage
throw m e s = (some (m ++ (text ": " ∷ e)), s)

-- `if (call < 0) throw`, then what follows.
unfoldable pub attempt : Option Message → Message → Setup → (Setup → Stage) → Stage
attempt (some e) m s next = throw m e s
attempt none m s next = next s

unfoldable pub set_nonblocking : Option Message → Option Message → Setup → (Setup → Stage) → Stage
set_nonblocking get set s next =
    attempt get (text "fcntl F_GETFL failed" ∷ []) s
      λ s₁. attempt set (text "fcntl F_SETFL O_NONBLOCK failed" ∷ []) s₁ next

pub record ServerCalls : Type 0 where
  pub socket : Message ⊎ ℕ
  pub setsockopt : Option Message
  pub get_flags : Option Message
  pub set_flags : Option Message
  pub bind : Option Message
  pub listen : Option Message

abbrev pub own_server : ℕ → Setup → Setup
own_server fd s = record s {
  server_fd = (reset (pos fd) s.server_fd).0;
  closed = s.closed ++ (reset (pos fd) s.server_fd).1;
  opened = s.opened ++ (pos fd ∷ []);
}

abbrev pub listening : ℕ → Message
listening port = text "[NetworkListener] Listening on port " ∷ number port ∷ text "\n" ∷ []

unfoldable pub setup_server_socket : ℕ → ServerCalls → Setup → Stage
setup_server_socket port c s = elim c.socket [
  | inl e ↦ throw (text "Failed to create socket" ∷ []) e s
  | inr fd ↦
      attempt c.setsockopt (text "setsockopt SO_REUSEADDR failed" ∷ []) (own_server fd s) λ s₁.
        set_nonblocking c.get_flags c.set_flags s₁ λ s₂.
          attempt c.bind (text "Failed to bind on port " ∷ number port ∷ []) s₂ λ s₃.
            attempt c.listen (text "Failed to listen" ∷ []) s₃
              λ s₄. (none, record s₄ { logs = s₄.logs ++ (listening port ∷ []) })
]

pub record EpollCalls : Type 0 where
  pub epoll_create1 : Message ⊎ ℕ
  pub eventfd : Message ⊎ ℕ
  pub add_server : Option Message
  pub add_event : Option Message

abbrev pub own_epoll : ℕ → Setup → Setup
own_epoll fd s = record s {
  epoll_fd = (reset (pos fd) s.epoll_fd).0;
  closed = s.closed ++ (reset (pos fd) s.epoll_fd).1;
  opened = s.opened ++ (pos fd ∷ []);
}

abbrev pub own_event : ℕ → Setup → Setup
own_event fd s = record s {
  event_fd = (reset (pos fd) s.event_fd).0;
  closed = s.closed ++ (reset (pos fd) s.event_fd).1;
  opened = s.opened ++ (pos fd ∷ []);
}

-- What follows the creation of the epoll instance.
unfoldable pub setup_event : EpollCalls → Setup → Stage
setup_event c s = elim c.eventfd [
  | inl e ↦ throw (text "eventfd failed" ∷ []) e s
  | inr fd ↦
      attempt c.add_server (text "epoll_ctl add server_fd failed" ∷ []) (own_event fd s)
        λ s₁. attempt c.add_event (text "epoll_ctl add event_fd failed" ∷ []) s₁ λ s₂. (none, s₂)
]

unfoldable pub setup_epoll : EpollCalls → Setup → Stage
setup_epoll c s = elim c.epoll_create1 [
  | inl e ↦ throw (text "epoll_create1 failed" ∷ []) e s
  | inr fd ↦ setup_event c (own_epoll fd s)
]

abbrev pub then_epoll : EpollCalls → Stage → Stage
then_epoll c (some e, s) = (some e, s)
then_epoll c (none, s) = setup_epoll c s

-- The first two calls of `run`.
unfoldable pub setup : ℕ → ServerCalls → EpollCalls → Setup → Stage
setup port c d s = then_epoll d (setup_server_socket port c s)

-- The destructors of the three handles, in their order.
abbrev pub destroy_handles : Setup → Setup
destroy_handles s = record s {
  closed = s.closed ++ (destroy s.event_fd ++ (destroy s.epoll_fd ++ destroy s.server_fd));
}
