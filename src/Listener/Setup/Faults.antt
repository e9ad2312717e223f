-- ===== src/Listener/Setup/Faults.antt =====
-- What the set-up of src/listener.cpp throws: a table of its system calls, with their texts.
use counter_drone_streaming.Base.{
  ℕ, List, [], ◌∷◌, ◌++◌, Option, some, none, ◌⊎◌, inl, inr, ◌≡◌, refl,
}
use counter_drone_streaming.Message.{text, number, Message}
use counter_drone_streaming.Listener.Setup.{
  Setup, Stage, attempt, set_nonblocking, ServerCalls, own_server, setup_server_socket, EpollCalls,
  own_epoll, own_event, setup_event, setup_epoll, then_epoll, setup,
}

abbrev pub failure : Message ⊎ ℕ → Option Message
failure (inl e) = some e
failure (inr fd) = none

-- The calls in their order: the error, if any, and what the exception says of it.
abbrev pub server_faults : ℕ → ServerCalls → List (Option Message × Message)
server_faults port c =
    (failure c.socket, text "Failed to create socket" ∷ [])
    ∷ (c.setsockopt, text "setsockopt SO_REUSEADDR failed" ∷ [])
    ∷ (c.get_flags, text "fcntl F_GETFL failed" ∷ [])
    ∷ (c.set_flags, text "fcntl F_SETFL O_NONBLOCK failed" ∷ [])
    ∷ (c.bind, text "Failed to bind on port " ∷ number port ∷ [])
    ∷ (c.listen, text "Failed to listen" ∷ [])
    ∷ []

abbrev pub epoll_faults : EpollCalls → List (Option Message × Message)
epoll_faults d =
    (failure d.epoll_create1, text "epoll_create1 failed" ∷ [])
    ∷ (failure d.eventfd, text "eventfd failed" ∷ [])
    ∷ (d.add_server, text "epoll_ctl add server_fd failed" ∷ [])
    ∷ (d.add_event, text "epoll_ctl add event_fd failed" ∷ [])
    ∷ []

-- The first call that failed.
abbrev pub first_fault : List (Option Message × Message) → Option Message
first_fault [] = none
first_fault ((some e, m) ∷ faults) = some (m ++ (text ": " ∷ e))
first_fault ((none, m) ∷ faults) = first_fault faults

attempt-throws :
    (call : Option Message) (m : Message) (s : Setup) (next : Setup → Stage)
    → (faults : List (Option Message × Message)) → ((s' : Setup) → (next s').0 ≡ first_fault faults)
    → (attempt call m s next).0 ≡ first_fault ((call, m) ∷ faults)
unfolding attempt
attempt-throws (some e) m s next faults h = refl
attempt-throws none m s next faults h = h s

setup_server_socket-throws :
    (port : ℕ) (c : ServerCalls) (s : Setup)
    → (setup_server_socket port c s).0 ≡ first_fault (server_faults port c)
unfolding setup_server_socket set_nonblocking
setup_server_socket-throws port c s = go c.socket
  where
    go :
        (made : Message ⊎ ℕ)
        → (setup_server_socket port (record c { socket = made }) s).0
          ≡ first_fault (server_faults port (record c { socket = made }))
    go (inl e) = refl
    go (inr fd) = attempt-throws c.setsockopt _ (own_server fd s) _ _ λ s₁.
        attempt-throws c.get_flags _ s₁ _ _ λ s₂.
          attempt-throws c.set_flags _ s₂ _ _
            λ s₃. attempt-throws c.bind _ s₃ _ _ λ s₄. attempt-throws c.listen _ s₄ _ _ λ s₅. refl

setup_epoll-throws :
    (d : EpollCalls) (s : Setup) → (setup_epoll d s).0 ≡ first_fault (epoll_faults d)
unfolding setup_epoll setup_event
setup_epoll-throws d s = go d.epoll_create1 d.eventfd
  where
    go :
        (epoll event : Message ⊎ ℕ)
        → (setup_epoll (record d { epoll_create1 = epoll; eventfd = event }) s).0
          ≡ first_fault (epoll_faults (record d { epoll_create1 = epoll; eventfd = event }))
    go (inl e) event = refl
    go (inr fd) (inl e) = refl
    go (inr fd) (inr fd') =
        attempt-throws d.add_server _ (own_event fd' (own_epoll fd s)) _ _
          λ s₁. attempt-throws d.add_event _ s₁ _ _ λ s₂. refl

then_epoll-throws :
    (d : EpollCalls) (faults : List (Option Message × Message)) (r : Stage)
    → r.0 ≡ first_fault faults
    → (then_epoll d r).0 ≡ first_fault (faults ++ epoll_faults d)
then_epoll-throws d [] (none, s) h = setup_epoll-throws d s
then_epoll-throws d [] (some e, s) h = absurd (cc h)
then_epoll-throws d ((some e, m) ∷ faults) (some x, s) h = h
then_epoll-throws d ((some e, m) ∷ faults) (none, s) h = absurd (cc h)
then_epoll-throws d ((none, m) ∷ faults) r h = then_epoll-throws d faults r h

-- The set-up throws if and only if one of its system calls fails: what is thrown is the text for
-- the first call that failed, in the order socket, setsockopt, the two of fcntl, bind, listen,
-- epoll_create1, eventfd and the two of epoll_ctl, with that call's error.
pub setup_throws_first_fault :
    (port : ℕ) (c : ServerCalls) (d : EpollCalls) (s : Setup)
    → (setup port c d s).0 ≡ first_fault (server_faults port c ++ epoll_faults d)
unfolding setup
setup_throws_first_fault port c d s =
    then_epoll-throws d (server_faults port c) (setup_server_socket port c s)
      (setup_server_socket-throws port c s)
