-- ===== src/Listener/Sessions.antt =====
-- What the event loop of src/listener.cpp queues of one socket, up to the end of its connection.
use counter_drone_streaming.Base.{
  ℕ, ℤ, int_eq, Bool, true, false, List, [], ◌∷◌, ◌++◌, if◌then◌else◌, All, All-append, ◌≡◌, refl,
  sym, ◌∙◌, ap, arith, append-nil, append_assoc, Bool-cases, inl, inr, if-holds,
}
use counter_drone_streaming.Telemetry.{DataChunk}
use counter_drone_streaming.Table.{int_eq_iff}
use counter_drone_streaming.Parser.Visits.{IsVisit, IsOfOther}
use counter_drone_streaming.Parser.Streams.{bytes_of}
use counter_drone_streaming.Listener.{Recv, received, no_more_data, recv_error, Ready}
use counter_drone_streaming.Listener.Heard.{
  pieces, dies, chunk_of, tagged, farewell, chunks_of, all_chunks,
}

abbrev pub join : List (List ℕ) → List ℕ
join [] = []
join (p ∷ ps) = p ++ join ps

-- What a socket brought, over some events; it is not read where it hung up.
abbrev pub sent_by : ℤ → List Ready → List ℕ
sent_by id [] = []
sent_by id (r ∷ rs) =
    if int_eq r.source_fd id
    then (if r.hangup then [] else join (pieces r.recvs)) ++ sent_by id rs
    else sent_by id rs

abbrev pub IsSilent : ℤ → Ready → Type 0
IsSilent id r = int_eq r.source_fd id ≡ false

-- The socket has data at each of its events until it hangs up or its connection ends, if ever; and no
-- event comes behind that.
abbrev pub IsSession : ℤ → List Ready → Type 0
IsSession id [] = Unit
IsSession id (r ∷ rs) =
    if int_eq r.source_fd id
    then (if r.hangup
        then All (IsSilent id) rs
        else (r.readable ≡ true) × (if dies r.recvs then All (IsSilent id) rs else IsSession id rs))
    else IsSession id rs

bytes_of-append :
    (id : ℤ) (xs ys : List DataChunk) → bytes_of id (xs ++ ys) ≡ bytes_of id xs ++ bytes_of id ys
unfolding bytes_of
bytes_of-append id [] ys = refl
bytes_of-append id (x ∷ xs) ys =
    ground (arith, bytes_of-append id xs ys, append_assoc x.bytes (bytes_of id xs) (bytes_of id ys))

others-bytes :
    (id : ℤ) (chunks : List DataChunk) → All (IsOfOther id) chunks → bytes_of id chunks ≡ []
unfolding bytes_of
others-bytes id [] h = refl
others-bytes id (chunk ∷ chunks) (miss, h) = rw miss (others-bytes id chunks h)

-- What is queued for a client, with the bytes of it.
abbrev pub Queued : ℤ → List DataChunk → List ℕ → Type 0
Queued id chunks bs = IsVisit id chunks × (bytes_of id chunks ≡ bs)

others-Queued :
    (id : ℤ) (xs ys : List DataChunk) (bs : List ℕ)
    → All (IsOfOther id) xs
    → Queued id ys bs
    → Queued id (xs ++ ys) bs
unfolding bytes_of
others-Queued id [] ys bs h q = q
others-Queued id (x ∷ xs) ys bs (miss, h) q = rw miss (others-Queued id xs ys bs h q)

tagged-Queued :
    (id fd : ℤ) (calls : List Recv) (ys : List DataChunk) (bs : List ℕ)
    → int_eq fd id ≡ true
    → Queued id ys bs
    → Queued id (tagged fd (pieces calls) ++ ys) (join (pieces calls) ++ bs)
unfolding bytes_of
tagged-Queued id fd [] ys bs own q = q
tagged-Queued id fd (received (b ∷ rest) ∷ calls) ys bs own q =
    let (v, k) = tagged-Queued id fd calls ys bs own q in
    rw own (v, ap (λ l. (b ∷ rest) ++ l) k ∙ sym (append_assoc (b ∷ rest) (join (pieces calls)) bs))
tagged-Queued id fd (received [] ∷ calls) ys bs own q = q
tagged-Queued id fd (no_more_data ∷ calls) ys bs own q = q
tagged-Queued id fd (recv_error e ∷ calls) ys bs own q = q

farewell-Queued :
    (id fd : ℤ) (ys : List DataChunk)
    → int_eq fd id ≡ true
    → All (IsOfOther id) ys
    → Queued id (chunk_of fd [] ∷ ys) []
unfolding bytes_of
farewell-Queued id fd ys own h = rw own (h, others-bytes id ys h)

tagged-others :
    (id fd : ℤ) (ps : List (List ℕ)) → int_eq fd id ≡ false → All (IsOfOther id) (tagged fd ps)
tagged-others id fd [] miss = tt
tagged-others id fd (p ∷ ps) miss = (miss, tagged-others id fd ps miss)

farewell-others : (id fd : ℤ) (b : Bool) → int_eq fd id ≡ false → All (IsOfOther id) (farewell fd b)
farewell-others id fd true miss = (miss, tt)
farewell-others id fd false miss = tt

chunks_of-others :
    (server id : ℤ) (r : Ready) → IsSilent id r → All (IsOfOther id) (chunks_of server r)
chunks_of-others server id r miss =
    let fd = r.source_fd in
    let others : List DataChunk → Type 0 = All (IsOfOther id) in
    if-holds others (int_eq fd server) _ _ tt (
      if-holds others r.hangup _ _ (miss, tt)
        (if-holds others r.readable _ _
          (All-append (IsOfOther id) (tagged fd (pieces r.recvs)) (farewell fd (dies r.recvs))
            (tagged-others id fd (pieces r.recvs) miss) (farewell-others id fd (dies r.recvs) miss))
          tt))

all_chunks-others :
    (server id : ℤ) (rs : List Ready)
    → All (IsSilent id) rs
    → All (IsOfOther id) (all_chunks server rs)
all_chunks-others server id [] h = tt
all_chunks-others server id (r ∷ rs) (miss, h) =
    All-append (IsOfOther id) (chunks_of server r) (all_chunks server rs)
      (chunks_of-others server id r miss) (all_chunks-others server id rs h)

sent_by-silent : (id : ℤ) (rs : List Ready) → All (IsSilent id) rs → sent_by id rs ≡ []
sent_by-silent id [] h = refl
sent_by-silent id (r ∷ rs) (miss, h) = rw miss (sent_by-silent id rs h)

pub all_chunks-Queued :
    (server id : ℤ) (rs : List Ready)
    → int_eq id server ≡ false
    → IsSession id rs
    → Queued id (all_chunks server rs) (sent_by id rs)
unfolding bytes_of
all_chunks-Queued server id [] client session = (tt, refl)
all_chunks-Queued server id (r ∷ rs) client session = elim (Bool-cases (int_eq r.source_fd id)) [
  | inl own ↦
      let fd = r.source_fd in
      let said = tagged fd (pieces r.recvs) in
      let next = all_chunks server rs in
      let other = ap (λ j. int_eq j server) ((int_eq_iff fd id).0 own) ∙ client in
      let now = rw own at session in
      elim (Bool-cases r.hangup) [
        | inl hung ↦
            let silent = rw hung at now in
            rw (own, other, hung, sent_by-silent id rs silent)
              (farewell-Queued id fd next own (all_chunks-others server id rs silent))
        | inr stays ↦
            let (readable, rest) = rw stays at now in
            elim (Bool-cases (dies r.recvs)) [
              | inl ends ↦
                  let silent = rw ends at rest in
                  rw
                    (
                      own,
                      other,
                      stays,
                      readable,
                      ends,
                      append_assoc said (chunk_of fd [] ∷ []) next,
                      sent_by-silent id rs silent,
                    )
                    (tagged-Queued id fd r.recvs (chunk_of fd [] ∷ next) [] own
                      (farewell-Queued id fd next own (all_chunks-others server id rs silent)))
              | inr alive ↦
                  rw (own, other, stays, readable, alive, append-nil said)
                    (tagged-Queued id fd r.recvs next (sent_by id rs) own
                      (all_chunks-Queued server id rs client (rw alive at rest)))
            ]
      ]
  | inr miss ↦ rw miss (
      others-Queued id (chunks_of server r) (all_chunks server rs) (sent_by id rs)
        (chunks_of-others server id r miss)
        (all_chunks-Queued server id rs client (rw miss at session)))
]
