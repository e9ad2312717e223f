-- ===== src/Listener/Setup/Kept.antt =====
-- The descriptors of the listener's set-up from creation to `::close`.
use counter_drone_streaming.Base.{
  ℕ, ◌+◌, ℤ, pos, List, [], ◌∷◌, ◌++◌, Option, some, none, ◌⊎◌, inl, inr, ◌≡◌, arith,
}
use counter_drone_streaming.Message.{Message}
use counter_drone_streaming.Socket.{SocketHandle, destroy}
use counter_drone_streaming.Socket.Ownership.{occurs, occurs-append, occurs-destroy}
use counter_drone_streaming.Listener.Setup.{
  Setup, Stage, attempt, set_nonblocking, ServerCalls, own_server, setup_server_socket, EpollCalls,
  own_epoll, own_event, setup_event, setup_epoll, then_epoll, setup, destroy_handles,
}

-- Each descriptor was closed as often as opened, or a handle owns it instead.
abbrev pub IsKept : Setup → Type 0
IsKept s =
    (n : ℕ)
    → occurs n s.opened
      ≡ occurs n s.closed + occurs n (s.server_fd.fd ∷ s.epoll_fd.fd ∷ s.event_fd.fd ∷ [])

abbrev Keeps : Stage → Type 0
Keeps r = IsKept r.1

attempt-IsKept :
    (call : Option Message) (m : Message) (s : Setup) (next : Setup → Stage)
    → IsKept s
    → ((s' : Setup) → IsKept s' → Keeps (next s'))
    → Keeps (attempt call m s next)
unfolding attempt
attempt-IsKept (some e) m s next k goes = k
attempt-IsKept none m s next k goes = goes s k

-- A handle takes a new descriptor, and closes the one that it had.
reset-counts :
    (n fd : ℕ) (h : SocketHandle) (opened closed : List ℤ)
    → (occurs n (opened ++ (pos fd ∷ [])) ≡ occurs n opened + occurs n (pos fd ∷ []))
      × (occurs n (closed ++ destroy h) ≡ occurs n closed + occurs n (h.fd ∷ []))
reset-counts n fd h opened closed = (
  occurs-append n opened (pos fd ∷ []),
  omega (arith, occurs-append n closed (destroy h), occurs-destroy n h),
)

setup_server_socket-IsKept :
    (port : ℕ) (c : ServerCalls) (s : Setup) → IsKept s → Keeps (setup_server_socket port c s)
unfolding setup_server_socket set_nonblocking
setup_server_socket-IsKept port c s k = go c.socket
  where
    owns : (fd : ℕ) → IsKept (own_server fd s)
    owns fd n = omega (arith, reset-counts n fd s.server_fd s.opened s.closed, k n)

    go : (made : Message ⊎ ℕ) → Keeps (setup_server_socket port (record c { socket = made }) s)
    go (inl e) = k
    go (inr fd) = attempt-IsKept c.setsockopt _ _ _ (owns fd) λ s₁ k₁.
        attempt-IsKept c.get_flags _ _ _ k₁ λ s₂ k₂. attempt-IsKept c.set_flags _ _ _ k₂ λ s₃ k₃.
          attempt-IsKept c.bind _ _ _ k₃ λ s₄ k₄. attempt-IsKept c.listen _ _ _ k₄ λ s₅ k₅. k₅

setup_event-IsKept : (c : EpollCalls) (s : Setup) → IsKept s → Keeps (setup_event c s)
unfolding setup_event
setup_event-IsKept c s k = go c.eventfd
  where
    owns : (fd : ℕ) → IsKept (own_event fd s)
    owns fd n = omega (arith, reset-counts n fd s.event_fd s.opened s.closed, k n)

    go : (made : Message ⊎ ℕ) → Keeps (setup_event (record c { eventfd = made }) s)
    go (inl e) = k
    go (inr fd) =
        attempt-IsKept c.add_server _ _ _ (owns fd)
          λ s₁ k₁. attempt-IsKept c.add_event _ _ _ k₁ λ s₂ k₂. k₂

setup_epoll-IsKept : (c : EpollCalls) (s : Setup) → IsKept s → Keeps (setup_epoll c s)
unfolding setup_epoll
setup_epoll-IsKept c s k = go c.epoll_create1
  where
    owns : (fd : ℕ) → IsKept (own_epoll fd s)
    owns fd n = omega (arith, reset-counts n fd s.epoll_fd s.opened s.closed, k n)

    go : (made : Message ⊎ ℕ) → Keeps (setup_epoll (record c { epoll_create1 = made }) s)
    go (inl e) = k
    go (inr fd) =
        setup_event-IsKept (record c { epoll_create1 = inr fd }) (own_epoll fd s) (owns fd)

then_epoll-IsKept : (d : EpollCalls) (r : Stage) → Keeps r → Keeps (then_epoll d r)
then_epoll-IsKept d (some e, s) k = k
then_epoll-IsKept d (none, s) k = setup_epoll-IsKept d s k

-- Whichever system call of the set-up fails, or none: if at the start each descriptor had been closed
-- as often as opened, or was owned by one of the three handles instead, then once these are destroyed
-- every descriptor has been closed exactly as often as it was opened.
pub handles_are_closed :
    (port : ℕ) (c : ServerCalls) (d : EpollCalls) (s : Setup)
    → IsKept s
    → (n : ℕ)
    → let s' = destroy_handles (setup port c d s).1 in occurs n s'.opened ≡ occurs n s'.closed
unfolding setup
handles_are_closed port c d s k n =
    let s₁ = (setup port c d s).1 in
    omega (
      arith,
      then_epoll-IsKept d (setup_server_socket port c s) (setup_server_socket-IsKept port c s k) n,
      occurs-append n s₁.closed
          (destroy s₁.event_fd ++ (destroy s₁.epoll_fd ++ destroy s₁.server_fd)),
      occurs-append n (destroy s₁.event_fd) (destroy s₁.epoll_fd ++ destroy s₁.server_fd),
      occurs-append n (destroy s₁.epoll_fd) (destroy s₁.server_fd),
      occurs-destroy n s₁.event_fd,
      occurs-destroy n s₁.epoll_fd,
      occurs-destroy n s₁.server_fd,
    )
