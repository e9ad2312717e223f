-- ===== src/Listener/Reuse/Steps.antt =====
-- The handlers of src/listener.cpp against what waits of descriptors that are no client's.
use counter_drone_streaming.Base.{
  ℕ, ℤ, int_eq, Bool, true, false, List, [], ◌∷◌, ◌++◌, if◌then◌else◌, Option, some, none, ◌≡◌, ◌≢◌,
  refl, sym, ◌∙◌, ap, subst, ◌⊎◌, inl, inr, arith, Bool-cases, Option-cases, if-holds,
}
use counter_drone_streaming.Message.{Message}
use counter_drone_streaming.Telemetry.{DataChunk}
use counter_drone_streaming.Socket.{SocketHandle, move}
use counter_drone_streaming.Table.{find?, int_key, int_eq_iff}
use counter_drone_streaming.Table.Laws.{find?-put, find?-remove}
use counter_drone_streaming.Parser.Spec.{Pending, take_chunk, waiting}
use counter_drone_streaming.Listener.{
  Listener, Accept, none_waits, accept_error, accepted, Recv, received, no_more_data, recv_error,
  emplace, accept_client, handle_accept, handle_client_data, disconnect_client, serve, send,
}
use counter_drone_streaming.Listener.Chunks.{handle_accept-queue}

waiting-append :
    (xs ys : List DataChunk) (w : Pending) → waiting (xs ++ ys) w ≡ waiting ys (waiting xs w)
unfolding waiting
waiting-append [] ys w = refl
waiting-append (x ∷ xs) ys w = waiting-append xs ys (take_chunk x w).1

-- A chunk changes what waits of its own client alone, and an empty one leaves nothing.
take_chunk-other :
    (chunk : DataChunk) (w : Pending) (j : ℤ)
    → int_eq chunk.client_id j ≡ false
    → (take_chunk chunk w).1 j ≡ w j
unfolding take_chunk
take_chunk-other chunk w j other = ground arith

take_chunk-gone :
    (fd : ℤ) (w : Pending) → (take_chunk (record { client_id = fd; bytes = [] }) w).1 fd ≡ []
unfolding take_chunk
take_chunk-gone fd w = rw ((int_eq_iff fd fd).1 refl) refl

-- Of a descriptor that is no client's, nothing waits.
abbrev pub IsSettled : Pending → Listener → Type 0
IsSettled w l = (j : ℤ) → find? j l.clients ≡ none → waiting l.queue w j ≡ []

-- No client is lost but this one.
abbrev pub Loses : ℤ → Listener → Listener → Type 0
Loses fd l l' =
    (j : ℤ) → find? j l'.clients ≡ none → (int_eq fd j ≡ true) ⊎ (find? j l.clients ≡ none)

waiting-send :
    (fd : ℤ) (bs : List ℕ) (l : Listener) (w : Pending) (j : ℤ)
    → waiting (send fd bs l).queue w j
      ≡ (take_chunk (record { client_id = fd; bytes = bs }) (waiting l.queue w)).1 j
unfolding waiting
waiting-send fd bs l w j = ap (λ v. v j) (waiting-append l.queue _ w)

send-IsSettled :
    (w : Pending) (fd : ℤ) (bs : List ℕ) (l : Listener)
    → find? fd l.clients ≢ none
    → IsSettled w l
    → IsSettled w (send fd bs l)
send-IsSettled w fd bs l known h j free = elim (Bool-cases (int_eq fd j)) [
  | inl same ↦
      absurd (known (subst (λ k. find? k l.clients ≡ none) (sym ((int_eq_iff fd j).0 same)) free))
  | inr other ↦ waiting-send fd bs l w j ∙ take_chunk-other _ (waiting l.queue w) j other ∙ h j free
]

handle_client_data-clients :
    (fd : ℤ) (calls : List Recv) (l : Listener)
    → (handle_client_data fd calls l).1.clients ≡ l.clients
unfolding handle_client_data
handle_client_data-clients fd [] l = refl
handle_client_data-clients fd (received (b ∷ bs) ∷ calls) l =
    handle_client_data-clients fd calls (send fd (b ∷ bs) l)
handle_client_data-clients fd (received [] ∷ calls) l = refl
handle_client_data-clients fd (no_more_data ∷ calls) l = refl
handle_client_data-clients fd (recv_error e ∷ calls) l = refl

handle_client_data-IsSettled :
    (w : Pending) (fd : ℤ) (calls : List Recv) (l : Listener)
    → find? fd l.clients ≢ none
    → IsSettled w l
    → IsSettled w (handle_client_data fd calls l).1
unfolding handle_client_data
handle_client_data-IsSettled w fd [] l known h = h
handle_client_data-IsSettled w fd (received (b ∷ bs) ∷ calls) l known h =
    handle_client_data-IsSettled w fd calls (send fd (b ∷ bs) l) known
      (send-IsSettled w fd (b ∷ bs) l known h)
handle_client_data-IsSettled w fd (received [] ∷ calls) l known h = h
handle_client_data-IsSettled w fd (no_more_data ∷ calls) l known h = h
handle_client_data-IsSettled w fd (recv_error e ∷ calls) l known h = h

pub disconnect_client-Loses : (fd : ℤ) (l : Listener) → Loses fd l (disconnect_client fd l)
unfolding disconnect_client
disconnect_client-Loses fd l j free = ground (arith, find?-remove fd j l.clients)

pub disconnect_client-IsSettled :
    (w : Pending) (fd : ℤ) (l : Listener) → IsSettled w l → IsSettled w (disconnect_client fd l)
unfolding disconnect_client
disconnect_client-IsSettled w fd l h j free = elim (Bool-cases (int_eq fd j)) [
  | inl same ↦
      let fd_is : fd ≡ j = (int_eq_iff fd j).0 same in
      waiting-send fd [] l w j ∙ rw (← fd_is) (take_chunk-gone fd (waiting l.queue w))
  | inr other ↦
      let still_free : find? j l.clients ≡ none =
        sym (rw other at (find?-remove fd j l.clients)) ∙ free in
      waiting-send fd [] l w j ∙ take_chunk-other _ (waiting l.queue w) j other ∙ h j still_free
]

-- No client is lost.
abbrev Gains : Listener → Listener → Type 0
Gains l l' = (j : ℤ) → find? j l'.clients ≡ none → find? j l.clients ≡ none

emplace-Gains : (fd : ℤ) (h : SocketHandle) (l : Listener) → Gains l (emplace fd h l)
unfolding emplace
emplace-Gains fd h l j free = elim (Option-cases (find? fd l.clients)) [
  | inl missing ↦ ground (arith, find?-put fd j (move h).0 l.clients, rw (missing, emplace) at free)
  | inr (g, there) ↦ rw (there, emplace) at free
]

accept_client-Gains :
    (fd : ℕ) (addr : Message) (blocking added : Option Message) (l : Listener)
    → Gains l (accept_client fd addr blocking added l)
unfolding accept_client
accept_client-Gains fd addr (some e) added l j free = free
accept_client-Gains fd addr none (some e) l j free = free
accept_client-Gains fd addr none none l j free = emplace-Gains _ _ _ j free

pub handle_accept-Gains : (calls : List Accept) (l : Listener) → Gains l (handle_accept calls l)
unfolding handle_accept
handle_accept-Gains [] l j free = free
handle_accept-Gains (none_waits ∷ calls) l j free = free
handle_accept-Gains (accept_error e ∷ calls) l j free = free
handle_accept-Gains (accepted fd addr blocking added ∷ calls) l j free =
    accept_client-Gains fd addr blocking added _ j (handle_accept-Gains calls _ j free)

pub handle_accept-IsSettled :
    (w : Pending) (calls : List Accept) (l : Listener)
    → IsSettled w l
    → IsSettled w (handle_accept calls l)
handle_accept-IsSettled w calls l h j free =
    rw (handle_accept-queue calls l) (h j (handle_accept-Gains calls l j free))

-- A test's branches, each with what the test says.
pub if-splits :
    {A : Type 0} (P : A → Type 0) (b : Bool) (x y : A)
    → (b ≡ true → P x)
    → (b ≡ false → P y)
    → P (if b then x else y)
if-splits P true x y h k = h refl
if-splits P false x y h k = k refl

pub serve-Settles :
    (w : Pending) (fd : ℤ) (calls : List Recv) (l : Listener)
    → find? fd l.clients ≢ none
    → IsSettled w l
    → IsSettled w (serve fd calls l) × Loses fd l (serve fd calls l)
serve-Settles w fd calls l known h =
    let l' = (handle_client_data fd calls l).1 in
    let same = handle_client_data-clients fd calls l in
    let settled = handle_client_data-IsSettled w fd calls l known h in
    if-holds (λ m. IsSettled w m × Loses fd l m) (handle_client_data fd calls l).0 _ _
      (settled, λ j free. inr (rw same at free))
      (
        disconnect_client-IsSettled w fd l' settled,
        λ j free. rw same at (disconnect_client-Loses fd l' j free),
      )
