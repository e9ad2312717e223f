-- ===== src/Logger/Open.antt =====
-- The constructors of src/asyncLogger.cpp. What `has_parent_path`, `create_directories` and the
-- stream's `open` do for the path is input: the text of the error where they fail.
use counter_drone_streaming.Base.{
  ℕ, Bool, true, false, List, [], ◌∷◌, ◌++◌, if◌then◌else◌, Option, some, none, ◌≡◌, ◌⊎◌, inl, inr,
  refl, ◌∙◌, append-nil, append_assoc, Bool-cases, Option-cases,
}
use counter_drone_streaming.Message.{text, bytes, Message}
use counter_drone_streaming.Parser.{is_empty}
use counter_drone_streaming.Queue.{Queue}
use counter_drone_streaming.Logger.{Logger, Round, run}
use counter_drone_streaming.Logger.Lossless.{IsStopped, IsQuiet, arrivals, mirror_all, run-lossless}

pub record FileCalls : Type 0 where
  pub has_parent_path : Bool
  pub create_directories : Option Message
  pub opening : Option Message

-- The constructor without a file, and the one with an empty path.
abbrev pub create_logger : Queue Message → Logger
create_logger q = record { queue = q; out = []; file = none }

abbrev pub open_failed : List ℕ → Message → Message
open_failed path e = text "Failed to open log file: " ∷ bytes path ∷ text ": " ∷ e

-- The file is opened to append; `file` is what this logger writes to it.
abbrev pub open_file : Option Message → List ℕ → Queue Message → Message ⊎ Logger
open_file (some e) path q = inl (open_failed path e)
open_file none path q = inr (record { queue = q; out = []; file = some [] })

abbrev pub make_parents : FileCalls → List ℕ → Queue Message → Message ⊎ Logger
make_parents c path q = elim c.create_directories [
  | some e ↦ inl e
  | none ↦ open_file c.opening path q
]

-- The constructor with a path: what it throws, or the logger.
unfoldable pub open_logger : FileCalls → List ℕ → Queue Message → Message ⊎ Logger
open_logger c [] q = inr (create_logger q)
open_logger c (b ∷ path) q =
    if c.has_parent_path then make_parents c (b ∷ path) q else open_file c.opening (b ∷ path) q

mirror_all-some : (ms ns : List Message) → mirror_all ms (some ns) ≡ some (ns ++ ms)
mirror_all-some [] ns = rw (append-nil ns) refl
mirror_all-some (m ∷ ms) ns =
    mirror_all-some ms (ns ++ (m ∷ [])) ∙ rw (append_assoc ns (m ∷ []) ms) refl

mirror_all-none : (ms : List Message) → mirror_all ms none ≡ none
mirror_all-none [] = refl
mirror_all-none (m ∷ ms) = mirror_all-none ms

-- What `create_directories` fails with, if it is called.
abbrev pub parents_fault : FileCalls → Option Message
parents_fault c = if c.has_parent_path then c.create_directories else none

-- What comes of the constructor with a path, and then of `run`. It throws what the call says that
-- made the directories, or its own text where they stand and the file does not open. Otherwise `run`
-- writes each line that is queued or arrives to the standard output, once and in order, and exactly
-- the same to the file, if there is a path.
abbrev pub Outcome : FileCalls → List ℕ → Queue Message → List Round → Message ⊎ Logger → Type 0
Outcome c path q rounds (inl m) =
    (is_empty path ≡ false)
    × ((parents_fault c ≡ some m)
        ⊎ ((parents_fault c ≡ none)
            × ((e : Message) × (c.opening ≡ some e) × (m ≡ open_failed path e))))
Outcome c path q rounds (inr l) =
    let lines = q.items ++ arrivals rounds in
    (run rounds l
      ≡ some (record {
        queue = record q { items = [] };
        out = lines;
        file = if is_empty path then none else some lines;
      }))
    × ((is_empty path ≡ true) ⊎ ((parents_fault c ≡ none) × (c.opening ≡ none)))

run-created :
    (q : Queue Message) (rounds : List Round)
    → IsStopped rounds
    → IsQuiet rounds
    → run rounds (create_logger q)
      ≡ some (record {
        queue = record q { items = [] };
        out = q.items ++ arrivals rounds;
        file = none;
      })
run-created q rounds s k =
    run-lossless rounds (create_logger q) s k
    ∙ rw (mirror_all-none (q.items ++ arrivals rounds)) refl

run-opened :
    (q : Queue Message) (rounds : List Round)
    → IsStopped rounds
    → IsQuiet rounds
    → run rounds (record { queue = q; out = []; file = some [] })
      ≡ some (record {
        queue = record q { items = [] };
        out = q.items ++ arrivals rounds;
        file = some (q.items ++ arrivals rounds);
      })
run-opened q rounds s k =
    run-lossless rounds (record { queue = q; out = []; file = some [] }) s k
    ∙ rw (mirror_all-some (q.items ++ arrivals rounds) []) refl

open_file-Outcome :
    (c : FileCalls) (b : ℕ) (path : List ℕ) (q : Queue Message) (rounds : List Round)
    → IsStopped rounds
    → IsQuiet rounds
    → parents_fault c ≡ none
    → Outcome c (b ∷ path) q rounds (open_file c.opening (b ∷ path) q)
open_file-Outcome c b path q rounds s quiet h = go c.opening refl
  where
    go :
        (o : Option Message)
        → c.opening ≡ o
        → Outcome c (b ∷ path) q rounds (open_file o (b ∷ path) q)
    go (some e) k = (refl, inr (h, (e, k, refl)))
    go none k = (run-opened q rounds s quiet, inr (h, k))

-- The logger's constructor with a path throws what making the directories says, or its own text
-- where they stand and the file does not open, and only then. Otherwise, if a stop is requested
-- during the rounds, seen by pop in one and by the loop's test in the next, and nothing arrives
-- behind a round in which a stop is seen, run ends and has written each line that is queued or
-- arrives to the standard output, once and in order, and exactly the same to the file, if there is
-- a path, and to none for an empty path.
pub open_logger-Outcome :
    (c : FileCalls) (path : List ℕ) (q : Queue Message) (rounds : List Round)
    → IsStopped rounds
    → IsQuiet rounds
    → Outcome c path q rounds (open_logger c path q)
unfolding open_logger
open_logger-Outcome c [] q rounds s k = (run-created q rounds s k, inl refl)
open_logger-Outcome c (b ∷ path) q rounds s k = elim (Bool-cases c.has_parent_path) [
  | inl parents ↦ elim (Option-cases c.create_directories) [
    | inl made ↦
        let made_all : FileCalls = record c { has_parent_path = true; create_directories = none } in
        rw (parents, made) (open_file-Outcome made_all b path q rounds s k refl)
    | inr (e, fails) ↦ rw (parents, fails) (refl, inl refl)
  ]
  | inr bare ↦
      rw bare (open_file-Outcome (record c { has_parent_path = false }) b path q rounds s k refl)
]
