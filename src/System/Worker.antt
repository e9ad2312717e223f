-- ===== src/System/Worker.antt =====
-- A thread of the pipeline: `run` of src/streamingParser.cpp and of src/businessLogic.cpp have the
-- same form. It makes a state ready, takes items off a queue one by one until it is stopped, and
-- winds up; each state tells what has been put out so far, for the next queue and for the log queue.
pub mod Run
pub mod Effect
use counter_drone_streaming.Base.{
  Bool, true, false, List, [], ◌∷◌, ◌++◌, Option, some, none, ◌≡◌, Extends,
}
use counter_drone_streaming.Message.{Message}

-- `Reading` is what a thread reads of the machine at each turn, such as its clock.
pub record Worker (In Out : Type 0) : Type 1 where
  pub State : Type 0
  pub Reading : Type 0
  pub start : Reading → State → State
  pub handle : Reading → In → State → Option State
  pub finish : Reading → State → State
  pub outs : State → List Out
  pub logs : State → List Message
  -- The states that the thread can be in, and the items that it can be given.
  pub IsGood : State → Type 0
  pub IsItem : In → Type 0
  pub start-IsGood : (r : Reading) (s : State) → IsGood s → IsGood (start r s)
  pub handle-IsGood :
      (r : Reading) (x : In) (s : State)
      → IsGood s
      → IsItem x
      → (s' : State) × (handle r x s ≡ some s') × IsGood s'
  -- Nothing that was put out is taken back.
  pub start-grows :
      (r : Reading) (s : State)
      → Extends (outs s) (outs (start r s)) × Extends (logs s) (logs (start r s))
  pub handle-grows :
      (r : Reading) (x : In) (s s' : State)
      → IsGood s
      → IsItem x
      → handle r x s ≡ some s'
      → Extends (outs s) (outs s') × Extends (logs s) (logs s')
  pub finish-grows :
      (r : Reading) (s : State)
      → Extends (outs s) (outs (finish r s)) × Extends (logs s) (logs (finish r s))

-- Where a thread stands: before its loop, at the loop's test, in `pop`, putting out what the last
-- turn made, putting out its last lines, and returned.
pub data Phase : Type 0 where
  starting testing popping publishing closing ended : Phase

-- What other threads see of a move.
pub data Act (In Out : Type 0) : Type 0 where
  silent : Act In Out
  takes : In → Act In Out
  finds_none : Act In Out
  sends : Out → Act In Out
  logs_line : Message → Act In Out

abbrev pub is_busy : Phase → Bool
is_busy publishing = true
is_busy closing = true
is_busy starting = false
is_busy testing = false
is_busy popping = false
is_busy ended = false

module _ {In Out : Type 0} (W : Worker In Out) where
  -- The thread: `sent` and `logged` are what it has pushed so far, `taken` what it has taken, with
  -- the readings.
  pub record Thread : Type 0 where
    pub phase : Phase
    pub state : W.State
    pub sent : List Out
    pub logged : List Message
    pub taken : List (In × W.Reading)

  abbrev pub IsPublished : Thread → Type 0
  IsPublished t = (W.outs t.state ≡ t.sent) × (W.logs t.state ≡ t.logged)

  -- One move, under a stop token's state.
  pub data Move (stop : Bool) (t : Thread) : Act In Out → Thread → Type 0 where
    starts :
        (r : W.Reading)
        → t.phase ≡ starting
        → Move stop t silent (record t { phase = publishing; state = W.start r t.state })
    sends_out :
        (o : Out) (os : List Out)
        → is_busy t.phase ≡ true
        → W.outs t.state ≡ t.sent ++ (o ∷ os)
        → Move stop t (sends o) (record t { sent = t.sent ++ (o ∷ []) })
    logs_out :
        (m : Message) (ms : List Message)
        → is_busy t.phase ≡ true
        → W.logs t.state ≡ t.logged ++ (m ∷ ms)
        → Move stop t (logs_line m) (record t { logged = t.logged ++ (m ∷ []) })
    loops : t.phase ≡ publishing → IsPublished t → Move stop t silent (record t { phase = testing })
    goes_on : t.phase ≡ testing → stop ≡ false → Move stop t silent (record t { phase = popping })
    is_stopped :
        (r : W.Reading)
        → t.phase ≡ testing
        → stop ≡ true
        → Move stop t silent (record t { phase = closing; state = W.finish r t.state })
    takes_item :
        (r : W.Reading) (x : In) (s : W.State)
        → t.phase ≡ popping
        → W.handle r x t.state ≡ some s
        → Move stop t
            (takes x)
            (record t { phase = publishing; state = s; taken = t.taken ++ ((x, r) ∷ []) })
    leaves :
        (r : W.Reading)
        → t.phase ≡ popping
        → Move stop t finds_none (record t { phase = closing; state = W.finish r t.state })
    ends : t.phase ≡ closing → IsPublished t → Move stop t silent (record t { phase = ended })
