-- ===== src/Listener/Reuse.antt =====
-- A descriptor that the system gives out again: src/listener.cpp queues an empty chunk when it
-- disconnects a client, before the descriptor can be accepted a second time.
pub mod Steps
use counter_drone_streaming.Base.{
  ℕ, ℤ, int_eq, Bool, true, false, List, [], ◌∷◌, ◌++◌, All, if◌then◌else◌, Option, some, none, ◌≡◌,
  ◌≢◌, refl, sym, ◌∙◌, ap, subst, ◌⊎◌, inl, inr, arith, Bool-cases, Option-cases, if-holds,
}
use counter_drone_streaming.Message.{Message}
use counter_drone_streaming.Bytes.{Endian}
use counter_drone_streaming.Telemetry.{DataChunk}
use counter_drone_streaming.Socket.{SocketHandle, move}
use counter_drone_streaming.Table.{find?, put, remove, int_key, int_eq_iff}
use counter_drone_streaming.Table.Laws.{find?-put, find?-remove}
use counter_drone_streaming.Parser.{Parser, handled, handle_chunks, client_of}
use counter_drone_streaming.Parser.Spec.{Pending, take_chunk, waiting}
use counter_drone_streaming.Client.Step.{unread}
use counter_drone_streaming.Listener.{
  Listener, Accept, none_waits, accept_error, accepted, Recv, received, no_more_data, recv_error,
  emplace, accept_client, handle_accept, handle_client_data, disconnect_client, Ready, serve,
  handle_event, handle_events, Wait, interrupted, wait_error, ready, event_loop, send,
}
use counter_drone_streaming.Listener.Chunks.{
  handle_accept-queue, FitsWait, IsQueued, queue_is_handled,
}
use counter_drone_streaming.Parser.Ready.{Holds}
use counter_drone_streaming.Listener.Reuse.Steps.{
  IsSettled, Loses, serve-Settles, disconnect_client-IsSettled, disconnect_client-Loses,
  handle_accept-IsSettled, handle_accept-Gains, if-splits,
}

abbrev pub IsDistinct : List Ready → Type 0
IsDistinct [] = Unit
IsDistinct (r ∷ rs) = All (λ q. int_eq r.source_fd q.source_fd ≡ false) rs × IsDistinct rs

module _ (server event : ℤ) where
  -- The descriptor that an event is for is the eventfd, the server's socket, or a client's.
  abbrev pub IsKnown : Listener → Ready → Type 0
  IsKnown l r =
      (int_eq r.source_fd event ≡ true)
      ⊎ (int_eq r.source_fd server ≡ true)
      ⊎ (find? r.source_fd l.clients ≢ none)

  abbrev Settles : Pending → Listener → Ready → Bool × Listener → Type 0
  Settles w l r end = IsSettled w end.1 × Loses r.source_fd l end.1

  handle_event-Settles :
      (w : Pending) (r : Ready) (l : Listener)
      → IsKnown l r
      → IsSettled w l
      → Settles w l r (handle_event server event r l)
  unfolding handle_event
  handle_event-Settles w r l known h =
      if-splits (Settles w l r) (int_eq r.source_fd event) _ _ (λ _. (h, λ j free. inr free))
        λ not_event.
          if-splits (Settles w l r) (int_eq r.source_fd server) _ _
            (λ _. (
              handle_accept-IsSettled w r.accepts l h,
              λ j free. inr (handle_accept-Gains r.accepts l j free),
            ))
            λ not_server.
              if-holds (Settles w l r) r.hangup _ _
                (
                  disconnect_client-IsSettled w r.source_fd l h,
                  disconnect_client-Loses r.source_fd l,
                )
                (if-holds (Settles w l r) r.readable _ _
                  (serve-Settles w r.source_fd r.recvs l (client not_event not_server) h)
                  (h, λ j free. inr free))
    where
      client :
          int_eq r.source_fd event ≡ false
          → int_eq r.source_fd server ≡ false
          → find? r.source_fd l.clients ≢ none
      client n m = elim known [
        | inl k ↦ absurd (cc (sym k ∙ n))
        | inr (inl k) ↦ absurd (cc (sym k ∙ m))
        | inr (inr k) ↦ k
      ]

  -- The other events of the batch are still for descriptors that are known.
  IsKnown-stays :
      (r : Ready) (l l' : Listener)
      → Loses r.source_fd l l'
      → (rs : List Ready) → All (IsKnown l) rs
      → All (λ q. int_eq r.source_fd q.source_fd ≡ false) rs
      → All (IsKnown l') rs
  IsKnown-stays r l l' loses [] k d = tt
  IsKnown-stays r l l' loses (q ∷ rs) (inl k, ks) (d, ds) =
      (inl k, IsKnown-stays r l l' loses rs ks ds)
  IsKnown-stays r l l' loses (q ∷ rs) (inr (inl k), ks) (d, ds) =
      (inr (inl k), IsKnown-stays r l l' loses rs ks ds)
  IsKnown-stays r l l' loses (q ∷ rs) (inr (inr k), ks) (d, ds) = (
    inr (
        inr λ free. elim (loses q.source_fd free) [
          | inl same ↦ absurd (cc (sym same ∙ d))
          | inr gone ↦ k gone
        ]),
    IsKnown-stays r l l' loses rs ks ds,
  )

  handle_events-IsSettled :
      (w : Pending) (rs : List Ready) (l : Listener)
      → All (IsKnown l) rs
      → IsDistinct rs
      → IsSettled w l
      → IsSettled w (handle_events server event rs l).1
  unfolding handle_events
  handle_events-IsSettled w [] l k d h = h
  handle_events-IsSettled w (r ∷ rs) l (k, ks) (d, ds) h =
      let (h', loses) = handle_event-Settles w r l k h in
      let l' = (handle_event server event r l).1 in
      let others = IsKnown-stays r l l' loses rs ks d in
      if-holds (λ (end : Bool × Listener). IsSettled w end.1) (handle_event server event r l).0 _ _
        h' (handle_events-IsSettled w rs l' others ds h')

  -- What `::epoll_wait` reports: each descriptor once, and none that is not watched.
  abbrev pub Follows : List (Bool × Wait) → Listener → Type 0
  Follows [] l = Unit
  Follows ((stop, interrupted) ∷ rounds) l = Follows rounds l
  Follows ((stop, wait_error e) ∷ rounds) l = Follows rounds l
  Follows ((stop, ready rs) ∷ rounds) l =
      All (IsKnown l) rs × IsDistinct rs × Follows rounds (handle_events server event rs l).1

  event_loop-IsSettled :
      (w : Pending) (rounds : List (Bool × Wait)) (l : Listener)
      → Follows rounds l
      → IsSettled w l
      → IsSettled w (event_loop server event rounds l)
  unfolding event_loop
  event_loop-IsSettled w [] l f h = h
  event_loop-IsSettled w ((true, x) ∷ rounds) l f h = h
  event_loop-IsSettled w ((false, interrupted) ∷ rounds) l f h = event_loop-IsSettled w rounds l f h
  event_loop-IsSettled w ((false, wait_error e) ∷ rounds) l f h = h
  event_loop-IsSettled w ((false, ready rs) ∷ rounds) l (k, d, f) h =
      let h' = handle_events-IsSettled w rs l k d h in
      if-holds (IsSettled w) (handle_events server event rs l).0 _ _ h'
        (event_loop-IsSettled w rounds (handle_events server event rs l).1 f h')

  -- A descriptor that the system gives out again brings no byte of its last client along. If
  -- epoll_wait reports each descriptor once in a batch, and none but the eventfd, the server's
  -- socket and the clients', recv returns bytes, and no more of them than its buffer holds, what
  -- is queued at the start are chunks of at most 65275 bytes, the parser's table is in step with
  -- its streams and, of a descriptor that is no client's, nothing waits, then the parser handles
  -- all that is queued when the event loop ends, and its buffer of every descriptor that is no
  -- client's then is empty.
  pub new_clients_start_afresh :
      (rounds : List (Bool × Wait)) (l : Listener) (e : Endian) (p : Parser) (w : Pending)
      → Follows rounds l
      → All FitsWait rounds
      → IsQueued l
      → Holds p w
      → IsSettled w l
      → let l' = event_loop server event rounds l in
        (p' : Parser) × (handle_chunks e l'.queue p ≡ handled p')
        × ((fd : ℤ) → find? fd l'.clients ≡ none → unread (client_of fd p') ≡ [])
  new_clients_start_afresh rounds l e p w f fits q h settled =
      let (p', is, out, kept, holds) = queue_is_handled server event rounds l e p w fits q h in
      (p', is, λ fd free. holds.bytes fd ∙ event_loop-IsSettled w rounds l f settled fd free)
