-- ===== src/Logger/Lossless.antt =====
-- The messages of src/asyncLogger.cpp from the queue to the sinks.
use counter_drone_streaming.Base.{
  ℕ, zero, suc, Bool, true, false, List, [], ◌∷◌, ◌++◌, length, if◌then◌else◌, Option, some, none,
  ◌⊎◌, ap, subst, ◌+◌, ◌≡◌, ◌<◌, refl, sym, ◌∙◌, arith, append_assoc, append-nil, Bool-cases, inl,
  inr,
}
use counter_drone_streaming.Message.{Message}
use counter_drone_streaming.Queue.{Queue, Call, returned, blocked, pop}
use counter_drone_streaming.Queue.Fifo.{
  Popped, waits, gave_up, took, pop-Popped, pop-none, pop_stopped,
}
use counter_drone_streaming.Logger.{
  Logger, mirror, write_message, Round, arrive, after_pop, primary, drain, run,
}

abbrev pub arrivals : List Round → List Message
arrivals [] = []
arrivals (r ∷ rs) = r.arrived ++ arrivals rs

-- The log file's text after so many messages.
abbrev pub mirror_all : List Message → Option (List Message) → Option (List Message)
mirror_all [] f = f
mirror_all (m ∷ ms) f = mirror_all ms (mirror m f)

abbrev logger : List Message → ℕ → List Message → Option (List Message) → Logger
logger items n o f = record { queue = record { items = items; max_size = n }; out = o; file = f }

drain_all :
    (ms : List Message) (fuel n : ℕ) (o : List Message) (f : Option (List Message))
    → length ms < fuel
    → drain fuel (logger ms n o f) ≡ some (logger [] n (o ++ ms) (mirror_all ms f))
unfolding drain pop write_message
drain_all ms zero n o f enough = absurd (omega arith)
drain_all [] (suc fuel) n o f enough = rw (append-nil o)
drain_all (m ∷ ms) (suc fuel) n o f enough =
    rw (← append_assoc o (m ∷ []) ms)
      (drain_all ms fuel n (o ++ (m ∷ [])) (mirror m f) (omega arith))

-- The loop has written some messages off the front of what was queued or arrived.
record Wrote (rounds : List Round) (l : Logger) (r : Logger × List Round) : Type 0 where
  wrote : List Message
  out : r.0.out ≡ l.out ++ wrote
  file : r.0.file ≡ mirror_all wrote l.file
  same_bound : r.0.queue.max_size ≡ l.queue.max_size
  queued : l.queue.items ++ arrivals rounds ≡ wrote ++ (r.0.queue.items ++ arrivals r.1)

mirror_all-append :
    (ms ns : List Message) (f : Option (List Message))
    → mirror_all (ms ++ ns) f ≡ mirror_all ns (mirror_all ms f)
mirror_all-append [] ns f = refl
mirror_all-append (m ∷ ms) ns f = mirror_all-append ms ns (mirror m f)

-- A round that writes nothing, and one that writes the first message.
later :
    (r : Round) (rs : List Round) (l : Logger) (end : Logger × List Round)
    → Wrote rs (arrive r.arrived l) end
    → Wrote (r ∷ rs) l end
later r rs l end w = record {
  wrote = w.wrote;
  out = w.out;
  file = w.file;
  same_bound = w.same_bound;
  queued = sym (append_assoc l.queue.items r.arrived (arrivals rs)) ∙ w.queued;
}

written :
    (rs : List Round) (m : Message) (l l' : Logger) (end : Logger × List Round)
    → l.queue.items ≡ m ∷ l'.queue.items
    → l'.queue.max_size ≡ l.queue.max_size
    → l'.out ≡ l.out ++ (m ∷ [])
    → l'.file ≡ mirror m l.file
    → Wrote rs l' end
    → Wrote rs l end
written rs m l l' end items bound out file w = record {
  wrote = m ∷ w.wrote;
  out = w.out ∙ rw (out, append_assoc l.out (m ∷ []) w.wrote);
  file = w.file ∙ rw file;
  same_bound = w.same_bound ∙ bound;
  queued = rw (items, w.queued);
}

nothing : (rs : List Round) (l : Logger) → Wrote rs l (l, rs)
nothing rs l = record {
  wrote = [];
  out = sym (append-nil l.out);
  file = refl;
  same_bound = refl;
  queued = refl;
}

-- A stop is requested: `pop` sees it in one round, and the loop's test in the next.
abbrev pub IsStopped : List Round → Type 0
IsStopped [] = ⊥
IsStopped (r ∷ []) = ⊥
IsStopped (r ∷ r' ∷ rs) = ((r.stop' ≡ true) × (r'.stop ≡ true)) ⊎ IsStopped (r' ∷ rs)

-- Nothing arrives behind a round in which a stop is seen.
abbrev pub IsQuiet : List Round → Type 0
IsQuiet [] = Unit
IsQuiet (r ∷ rs) = ((r.stop ≡ true) ⊎ (r.stop' ≡ true) → arrivals rs ≡ []) × IsQuiet rs

-- If the loop has ended, it has written what it took off, and nothing arrives any more.
abbrev Left : List Round → Logger → Option (Logger × List Round) → Type 0
Left rounds l none = Unit
Left rounds l (some r) = Wrote rounds l r × (arrivals r.1 ≡ [])

later-Left :
    (r : Round) (rs : List Round) (l : Logger) (end : Option (Logger × List Round))
    → Left rs (arrive r.arrived l) end
    → Left (r ∷ rs) l end
later-Left r rs l none w = tt
later-Left r rs l (some end) (w, quiet) = (later r rs l end w, quiet)

written-Left :
    (rs : List Round) (m : Message) (l l' : Logger) (end : Option (Logger × List Round))
    → l.queue.items ≡ m ∷ l'.queue.items
    → l'.queue.max_size ≡ l.queue.max_size
    → l'.out ≡ l.out ++ (m ∷ [])
    → l'.file ≡ mirror m l.file
    → Left rs l' end
    → Left rs l end
written-Left rs m l l' none items bound out file w = tt
written-Left rs m l l' (some end) items bound out file (w, quiet) =
    (written rs m l l' end items bound out file w, quiet)

after_pop-Left :
    (next : Bool → Logger → Option (Logger × List Round)) (rs : List Round) (l : Logger)
    → (c : Call (Option Message × Queue Message)) → Popped l.queue c
    → ((q : Queue Message) → c ≡ returned (none, q) → arrivals rs ≡ [])
    → ((w : Bool) (k : Logger) → Left rs k (next w k))
    → Left rs l (after_pop next rs l c)
unfolding write_message
after_pop-Left next rs l _ waits quiet goes = goes true l
after_pop-Left next rs l _ gave_up quiet goes = (nothing rs l, quiet l.queue refl)
after_pop-Left next rs l _ (took m ms h) quiet goes =
    written-Left rs m l _ _ h refl refl refl (goes false _)

primary-Left :
    (waiting : Bool) (rounds : List Round) (l : Logger)
    → IsQuiet rounds
    → Left rounds l (primary waiting rounds l)
unfolding primary
primary-Left waiting [] l q = tt
primary-Left waiting (r ∷ rs) l (quiet, q) =
    let l' = arrive r.arrived l in
    later-Left r rs l _ (elim (Bool-cases (if waiting then false else r.stop)) [
      | inl ends ↦ rw ends (nothing rs l', quiet (inl (at_test waiting ends)))
      | inr goes ↦ rw goes (
          after_pop-Left (λ w k. primary w rs k) rs l' _ (pop-Popped r.stop' l'.queue)
            (λ k e. quiet (inr (pop-none r.stop' l'.queue k e).0)) (λ w k. primary-Left w rs k q))
    ])
  where
    at_test : (w : Bool) → (if w then false else r.stop) ≡ true → r.stop ≡ true
    at_test true e = absurd (cc e)
    at_test false e = e

-- The loop ends.
abbrev Ends : Option (Logger × List Round) → Type 0
Ends c = (r : Logger × List Round) × (c ≡ some r)

stopped-Ends :
    (r : Round) (rs : List Round) (l : Logger) → r.stop ≡ true → Ends (primary false (r ∷ rs) l)
unfolding primary
stopped-Ends r rs l stop = rw stop (_, refl)

after_pop-Ends :
    (next : Bool → Logger → Option (Logger × List Round)) (rs : List Round) (l : Logger)
    → (c : Call (Option Message × Queue Message)) → ((w : Bool) (k : Logger) → Ends (next w k))
    → Ends (after_pop next rs l c)
after_pop-Ends next rs l (returned (some m, q)) goes = goes false _
after_pop-Ends next rs l (returned (none, q)) goes = (_, refl)
after_pop-Ends next rs l blocked goes = goes true l

primary-Ends :
    (waiting : Bool) (rounds : List Round) (l : Logger)
    → IsStopped rounds
    → Ends (primary waiting rounds l)
unfolding primary
primary-Ends waiting [] l h = absurd h
primary-Ends waiting (r ∷ []) l h = absurd h
primary-Ends waiting (r ∷ r' ∷ rs) l h =
    let l' = arrive r.arrived l in
    let next = λ (w : Bool) (k : Logger). primary w (r' ∷ rs) k in
    elim (Bool-cases (if waiting then false else r.stop)) [
      | inl ends ↦ rw ends (_, refl)
      | inr goes ↦ elim h [
        | inl (pops, stops) ↦ elim (pop_stopped r.stop' l'.queue pops) [
          | inl e ↦ rw (goes, e) (_, refl)
          | inr (m, q, e) ↦ rw (goes, e) (stopped-Ends r' rs _ stops)
        ]
        | inr behind ↦ rw goes (
            after_pop-Ends next (r' ∷ rs) l' (pop r.stop' l'.queue)
              (λ w k. primary-Ends w (r' ∷ rs) k behind))
      ]
    ]

-- If a stop is requested during the rounds, seen by pop in one and by the loop's test in the next,
-- and nothing arrives behind a round in which a stop is seen, then the logger's run ends, and has
-- written to both sinks, once and in order, what was queued at the start and all that arrived;
-- nothing stays in the queue.
pub run-lossless :
    (rounds : List Round) (l : Logger)
    → IsStopped rounds
    → IsQuiet rounds
    → run rounds l
      ≡ some (record {
        queue = record l.queue { items = [] };
        out = l.out ++ (l.queue.items ++ arrivals rounds);
        file = mirror_all (l.queue.items ++ arrivals rounds) l.file;
      })
unfolding run
run-lossless rounds l stops quiet =
    let ((l₁, rest), e) = primary-Ends false rounds l stops in
    let (w, gone) = subst (Left rounds l) e (primary-Left false rounds l quiet) in
    let left = l₁.queue.items in
    let all : l.queue.items ++ arrivals rounds ≡ w.wrote ++ left =
      w.queued ∙ ap (λ ms. w.wrote ++ (left ++ ms)) gone ∙ rw (append-nil left) refl in
    rw e (
      drain_all left (length left + 1) l₁.queue.max_size l₁.out l₁.file (omega arith)
      ∙ rw (
        all,
        w.out,
        w.file,
        w.same_bound,
        append_assoc l.out w.wrote left,
        mirror_all-append w.wrote left l.file,
      ))
