-- ===== src/Listener/Wake.antt =====
-- The shutdown of the event loop of src/listener.cpp by the eventfd.
use counter_drone_streaming.Base.{
  All, ℤ, int_eq, Bool, true, false, List, [], ◌∷◌, ◌++◌, if◌then◌else◌, ◌≡◌, refl, arith,
  Bool-cases, inl, inr,
}
use counter_drone_streaming.Listener.{
  Listener, Ready, handle_event, handle_events, Wait, interrupted, wait_error, ready, event_loop,
  log, shutdown,
}

abbrev pub is_reported : ℤ → List Ready → Bool
is_reported event [] = false
is_reported event (r ∷ rs) = if int_eq r.source_fd event then true else is_reported event rs

-- A round after which the loop goes on: no stop is seen, no error, and no event of the eventfd.
abbrev pub IsQuiet : ℤ → Bool × Wait → Type 0
IsQuiet event (stop, interrupted) = stop ≡ false
IsQuiet event (stop, wait_error e) = ⊥
IsQuiet event (stop, ready rs) = (stop ≡ false) × (is_reported event rs ≡ false)

pub handle_event-returns :
    (server event : ℤ) (r : Ready) (l : Listener)
    → (handle_event server event r l).0 ≡ int_eq r.source_fd event
unfolding handle_event
handle_event-returns server event r l = ground arith

pub handle_event-shuts_down :
    (server event : ℤ) (r : Ready) (l : Listener)
    → int_eq r.source_fd event ≡ true
    → handle_event server event r l ≡ (true, log shutdown l)
unfolding handle_event
handle_event-shuts_down server event r l h = rw h refl

pub handle_events-returns :
    (server event : ℤ) (rs : List Ready) (l : Listener)
    → (handle_events server event rs l).0 ≡ is_reported event rs
unfolding handle_events
handle_events-returns server event [] l = refl
handle_events-returns server event (r ∷ rs) l = elim (Bool-cases (int_eq r.source_fd event)) [
  | inl shut_down ↦ rw (handle_event-returns server event r l, shut_down) refl
  | inr goes_on ↦
      rw (handle_event-returns server event r l, goes_on)
        (handle_events-returns server event rs (handle_event server event r l).1)
]

-- The event of the eventfd is logged, and nothing follows it.
handle_events-shuts_down :
    (server event : ℤ) (rs : List Ready) (l : Listener)
    → is_reported event rs ≡ true
    → (l' : Listener) × (handle_events server event rs l ≡ (true, log shutdown l'))
unfolding handle_events
handle_events-shuts_down server event [] l h = absurd (cc h)
handle_events-shuts_down server event (r ∷ rs) l h = elim (Bool-cases (int_eq r.source_fd event)) [
  | inl shut_down ↦ (l, rw (handle_event-shuts_down server event r l shut_down) refl)
  | inr goes_on ↦
      let later : is_reported event rs ≡ true = rw goes_on at h in
      let (l', e) =
        handle_events-shuts_down server event rs (handle_event server event r l).1 later in
      (l', rw (handle_event-returns server event r l, goes_on) e)
]

-- When epoll_wait reports the eventfd, to which the stop callback has written, the event loop logs
-- that it shuts down as the last thing it does and makes no further call of epoll_wait, if each
-- round before was interrupted or reported other descriptors alone, and no stop was seen at the
-- loop's tests.
pub woken_loop_ends :
    (server event : ℤ) (before : List (Bool × Wait)) (rs : List Ready) (l : Listener)
    → All (IsQuiet event) before
    → is_reported event rs ≡ true
    → (l' : Listener) × ((after : List (Bool × Wait))
        → event_loop server event (before ++ ((false, ready rs) ∷ after)) l ≡ log shutdown l')
unfolding event_loop
woken_loop_ends server event [] rs l q h =
    let (l', e) = handle_events-shuts_down server event rs l h in (l', λ after. rw e refl)
woken_loop_ends server event ((stop, interrupted) ∷ before) rs l (q, qs) h =
    let (l', e) = woken_loop_ends server event before rs l qs h in (l', λ after. rw q (e after))
woken_loop_ends server event ((stop, wait_error m) ∷ before) rs l (q, qs) h = absurd q
woken_loop_ends server event ((stop, ready os) ∷ before) rs l (q, qs) h =
    let (l', e) = woken_loop_ends server event before rs (handle_events server event os l).1 qs h in
    (l', λ after. rw (q.0, handle_events-returns server event os l, q.1) (e after))
