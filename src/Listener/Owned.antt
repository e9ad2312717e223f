-- ===== src/Listener/Owned.antt =====
-- The sockets of src/listener.cpp from `::accept` to `::close`.
use counter_drone_streaming.Base.{
  ℕ, ◌+◌, ℤ, pos, int_eq, Bool, true, false, List, [], ◌∷◌, ◌++◌, if◌then◌else◌, Option, some, none,
  ◌≡◌, refl, arith, ap, Option-cases, inl, inr, if-holds,
}
use counter_drone_streaming.Message.{Message}
use counter_drone_streaming.Socket.{SocketHandle, destroy}
use counter_drone_streaming.Socket.Ownership.{occurs, occurs-append, occurs-destroy}
use counter_drone_streaming.Table.{find?, put, remove, int_key}
use counter_drone_streaming.Listener.{
  Listener, Accept, none_waits, accept_error, accepted, Recv, received, no_more_data, recv_error,
  emplace, accept_client, handle_accept, handle_client_data, erased, disconnect_client, Ready,
  serve, handle_event, handle_events, Wait, interrupted, wait_error, ready, event_loop,
  destroy_clients, destroy_listener, send,
}

-- The descriptors that the table's handles own.
abbrev pub owned : List (ℤ × SocketHandle) → List ℤ
owned [] = []
owned ((k, h) ∷ m) = h.fd ∷ owned m

-- Each descriptor was closed as often as accepted, or is owned instead.
abbrev pub IsBalanced : Listener → Type 0
IsBalanced l = (n : ℕ) → occurs n l.opened ≡ occurs n l.closed + occurs n (owned l.clients)

occurs-erased :
    (n : ℕ) (fd : ℤ) (m : List (ℤ × SocketHandle))
    → occurs n (owned m) ≡ occurs n (erased fd m) + occurs n (owned (remove fd m))
unfolding erased remove
occurs-erased n fd [] = omega arith
occurs-erased n fd ((k, h) ∷ m) =
    ground
      (arith, occurs-erased n fd m, occurs-append n (destroy h) (erased fd m), occurs-destroy n h)

occurs-put :
    (n : ℕ) (fd : ℤ) (h : SocketHandle) (m : List (ℤ × SocketHandle))
    → find? fd m ≡ none
    → occurs n (owned (put fd h m)) ≡ occurs n (owned m) + occurs n (h.fd ∷ [])
unfolding find? put
occurs-put n fd h [] e = omega arith
occurs-put n fd h ((k, g) ∷ m) e = ground (arith, occurs-put n fd h m, e)

occurs-destroy_clients :
    (n : ℕ) (m : List (ℤ × SocketHandle)) → occurs n (destroy_clients m) ≡ occurs n (owned m)
occurs-destroy_clients n [] = refl
occurs-destroy_clients n ((k, h) ∷ m) = omega (
  arith,
  occurs-append n (destroy h) (destroy_clients m),
  occurs-destroy n h,
  occurs-destroy_clients n m,
)

emplace-closed :
    (n : ℕ) (fd : ℤ) (h : SocketHandle) (l : Listener)
    → occurs n (emplace fd h l).closed + occurs n (owned (emplace fd h l).clients)
      ≡ occurs n l.closed + occurs n (owned l.clients) + occurs n (h.fd ∷ [])
unfolding emplace
emplace-closed n fd h l = elim (Option-cases (find? fd l.clients)) [
  | inl missing ↦ rw (missing, emplace) (omega (arith, occurs-put n fd h l.clients missing))
  | inr (g, there) ↦
      rw (there, emplace) (omega (arith, occurs-append n l.closed (destroy h), occurs-destroy n h))
]

accept_client-closed :
    (n fd : ℕ) (addr : Message) (blocking added : Option Message) (l : Listener)
    → let l' = accept_client fd addr blocking added l in
      (occurs n l'.closed + occurs n (owned l'.clients)
        ≡ occurs n l.closed + occurs n (owned l.clients) + occurs n (pos fd ∷ []))
      × (l'.opened ≡ l.opened)
unfolding accept_client emplace
accept_client-closed n fd addr (some e) added l =
    (omega (arith, occurs-append n l.closed (pos fd ∷ [])), refl)
accept_client-closed n fd addr none (some e) l =
    (omega (arith, occurs-append n l.closed (pos fd ∷ [])), refl)
accept_client-closed n fd addr none none l = (
  emplace-closed n (pos fd) (record { fd = pos fd }) _,
  elim (Option-cases (find? (pos fd) l.clients)) [
    | inl missing ↦ rw (missing, emplace) refl
    | inr (g, there) ↦ rw (there, emplace) refl
  ],
)

handle_accept-IsBalanced :
    (calls : List Accept) (l : Listener) → IsBalanced l → IsBalanced (handle_accept calls l)
unfolding handle_accept
handle_accept-IsBalanced [] l h = h
handle_accept-IsBalanced (none_waits ∷ calls) l h = h
handle_accept-IsBalanced (accept_error e ∷ calls) l h = h
handle_accept-IsBalanced (accepted fd addr blocking added ∷ calls) l h =
    let l₁ = record l { opened = l.opened ++ (pos fd ∷ []) } in
    handle_accept-IsBalanced calls (accept_client fd addr blocking added l₁) λ n.
      let (counts, same) = accept_client-closed n fd addr blocking added l₁ in
      omega (arith, ap (occurs n) same, counts, occurs-append n l.opened (pos fd ∷ []), h n)

handle_client_data-IsBalanced :
    (fd : ℤ) (calls : List Recv) (l : Listener)
    → IsBalanced l
    → IsBalanced (handle_client_data fd calls l).1
unfolding handle_client_data
handle_client_data-IsBalanced fd [] l h = h
handle_client_data-IsBalanced fd (received (b ∷ bs) ∷ calls) l h =
    handle_client_data-IsBalanced fd calls (send fd (b ∷ bs) l) h
handle_client_data-IsBalanced fd (received [] ∷ calls) l h = h
handle_client_data-IsBalanced fd (no_more_data ∷ calls) l h = h
handle_client_data-IsBalanced fd (recv_error e ∷ calls) l h = h

disconnect_client-IsBalanced :
    (fd : ℤ) (l : Listener) → IsBalanced l → IsBalanced (disconnect_client fd l)
unfolding disconnect_client
disconnect_client-IsBalanced fd l h n =
    omega (arith, occurs-append n l.closed (erased fd l.clients), occurs-erased n fd l.clients, h n)

serve-IsBalanced :
    (fd : ℤ) (calls : List Recv) (l : Listener) → IsBalanced l → IsBalanced (serve fd calls l)
serve-IsBalanced fd calls l h =
    go (handle_client_data fd calls l) (handle_client_data-IsBalanced fd calls l h)
  where
    go :
        (r : Bool × Listener)
        → IsBalanced r.1
        → IsBalanced (if r.0 then r.1 else disconnect_client fd r.1)
    go (true, l') b = b
    go (false, l') b = disconnect_client-IsBalanced fd l' b

-- The same of the state behind a result.
abbrev Balances : Bool × Listener → Type 0
Balances r = IsBalanced r.1

handle_event-IsBalanced :
    (server event : ℤ) (r : Ready) (l : Listener)
    → IsBalanced l
    → IsBalanced (handle_event server event r l).1
unfolding handle_event
handle_event-IsBalanced server event r l h = if-holds Balances (int_eq r.source_fd event) _ _ h (
    if-holds Balances (int_eq r.source_fd server) _ _ (handle_accept-IsBalanced r.accepts l h) (
      if-holds Balances r.hangup _ _ (disconnect_client-IsBalanced r.source_fd l h)
        (if-holds Balances r.readable _ _ (serve-IsBalanced r.source_fd r.recvs l h) h)))

handle_events-IsBalanced :
    (server event : ℤ) (rs : List Ready) (l : Listener)
    → IsBalanced l
    → IsBalanced (handle_events server event rs l).1
unfolding handle_events
handle_events-IsBalanced server event [] l h = h
handle_events-IsBalanced server event (r ∷ rs) l h =
    let h' = handle_event-IsBalanced server event r l h in
    if-holds Balances (handle_event server event r l).0 (true, (handle_event server event r l).1) _
      h' (handle_events-IsBalanced server event rs (handle_event server event r l).1 h')

pub event_loop-IsBalanced :
    (server event : ℤ) (rounds : List (Bool × Wait)) (l : Listener)
    → IsBalanced l
    → IsBalanced (event_loop server event rounds l)
unfolding event_loop
event_loop-IsBalanced server event [] l h = h
event_loop-IsBalanced server event ((true, w) ∷ rounds) l h = h
event_loop-IsBalanced server event ((false, interrupted) ∷ rounds) l h =
    event_loop-IsBalanced server event rounds l h
event_loop-IsBalanced server event ((false, wait_error e) ∷ rounds) l h = h
event_loop-IsBalanced server event ((false, ready rs) ∷ rounds) l h =
    let h' = handle_events-IsBalanced server event rs l h in
    if-holds IsBalanced (handle_events server event rs l).0 _ _ h'
      (event_loop-IsBalanced server event rounds (handle_events server event rs l).1 h')

pub destroy_listener-closes :
    (l : Listener)
    → IsBalanced l
    → (n : ℕ) → occurs n (destroy_listener l).opened ≡ occurs n (destroy_listener l).closed
unfolding destroy_listener
destroy_listener-closes l h n = omega (
  arith,
  h n,
  occurs-append n l.closed (destroy_clients l.clients),
  occurs-destroy_clients n l.clients,
)

-- Whatever the system calls return: if at the start each socket had been closed as often as it was
-- accepted, or was owned by the table instead, then once the event loop has ended and the listener
-- is destroyed, every socket has been closed exactly as often as it was accepted.
pub sockets_are_closed :
    (server event : ℤ) (rounds : List (Bool × Wait)) (l : Listener)
    → IsBalanced l
    → (n : ℕ)
    → let l' = destroy_listener (event_loop server event rounds l) in
      occurs n l'.opened ≡ occurs n l'.closed
sockets_are_closed server event rounds l h n =
    destroy_listener-closes (event_loop server event rounds l)
      (event_loop-IsBalanced server event rounds l h) n
