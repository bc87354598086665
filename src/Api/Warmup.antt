-- ===== src/Api/Warmup.antt =====
-- internal/api/bbolt.go: what concurrent calls share: the state of the dataset's warm-up, and the slots of
-- the searches for overlaps. Each step has at most one operation on what they share.
pub mod OneReader
use bgp_api.Base.{
  ℕ, suc, ◌+◌, ◌-◌, ◌^◌, ◌%◌, ◌<◌, ◌≤◌, Bool, true, false, List, [], ◌∷◌, ◌++◌, Option, none, some,
  ltb, ◌==◌, if◌then◌else◌,
}

pub data WarmState : Type 0 where
  idle in_progress complete : WarmState

-- What a call of file.Read gives: bytes, bytes and the end, or an error.
pub data Read : Type 0 where
  some_bytes : ℕ → Read
  last_bytes : ℕ → Read
  read_failed : ℕ → Read

-- WarmDataset's results: the bytes, and whether the dataset was warm already.
pub data Warmed : Type 0 where
  warmed : ℕ → Bool → Warmed
  busy cancelled_warmup failed : Warmed

-- A call of WarmDataset: it has found that the dataset is not warm, it has set the state and not opened
-- the file, or it has read `total` bytes.
pub data Call : Type 0 where
  loaded opening : Call
  reading : ℕ → Call
  ended : Warmed → Call

-- os.Stat's size, or its error, where the dataset is warm already.
abbrev warm_size : Option ℕ → Call
warm_size none = ended failed
warm_size (some size) = ended (warmed size true)

-- The load that begins WarmDataset.
unfoldable pub warm_start : Option ℕ → WarmState → Call
warm_start size complete = warm_size size
warm_start size idle = loaded
warm_start size in_progress = loaded

-- CompareAndSwap
unfoldable pub warm_swap : WarmState → Call × WarmState
warm_swap idle = (opening, in_progress)
warm_swap in_progress = (ended busy, in_progress)
warm_swap complete = (ended busy, complete)

-- os.Open, and what the deferred function stores where it fails.
unfoldable pub warm_open : Bool → WarmState → Call × WarmState
warm_open true state = (reading 0, state)
warm_open false state = (ended failed, idle)

-- One round of the loop, and what the deferred function stores when it ends; `cancelled` tells whether
-- the context has ended.
unfoldable pub warm_round : Bool → Read → ℕ → WarmState → Call × WarmState
warm_round true read total state = (ended cancelled_warmup, idle)
warm_round false (some_bytes n) total state = (reading (total + n), state)
warm_round false (last_bytes n) total state = (ended (warmed (total + n) false), complete)
warm_round false (read_failed n) total state = (ended failed, idle)

-- The calls that have started, in their order, and the state that they share.
pub record Warming : Type 0 where
  pub state : WarmState
  pub calls : List Call

-- What a step makes of one call and of the state.
pub data CallStep : Call → WarmState → Call × WarmState → Type 0 where
  swaps : (state : WarmState) → CallStep loaded state (warm_swap state)
  opens : (opened : Bool) (state : WarmState) → CallStep opening state (warm_open opened state)
  reads :
      (cancelled : Bool) (read : Read) (total : ℕ) (state : WarmState)
      → CallStep (reading total) state (warm_round cancelled read total state)

-- Steps of the program: a call starts, or one that has started goes on.
pub data WarmStep : Warming → Warming → Type 0 where
  starts :
      (w : Warming) (size : Option ℕ)
      → WarmStep w (record { state = w.state; calls = warm_start size w.state ∷ w.calls })
  goes_on :
      (state : WarmState) (before after : List Call) (call : Call) (next : Call × WarmState)
      → CallStep call state next
      → WarmStep
          (record { state = state; calls = before ++ (call ∷ after) })
          (record { state = next.1; calls = before ++ (next.0 ∷ after) })

-- Any number of steps.
pub data WarmSteps : Warming → Warming → Type 0 where
  done : (w : Warming) → WarmSteps w w
  then_step : {w x y : Warming} → WarmSteps w x → WarmStep x y → WarmSteps w y

abbrev pub no_calls : Warming
no_calls = record { state = idle; calls = [] }

-- The buffered channel that holds a token for each slot in use: a send waits while it is full, and a
-- receive while it is empty.
pub record OverlapSlots : Type 0 where
  pub capacity : ℕ
  pub held : ℕ

pub data Acquire : Type 0 where
  acquired : OverlapSlots → Acquire
  cancelled_acquire waits : Acquire

-- When the send is ready and the context has ended, Go takes either, which `prefers` tells.
unfoldable pub acquire_overlap_slot : Bool → Bool → OverlapSlots → Acquire
acquire_overlap_slot cancelled prefers s =
    if ltb s.held s.capacity
    then (if cancelled
        then (if prefers then cancelled_acquire else acquired (record s { held = suc s.held }))
        else acquired (record s { held = suc s.held }))
    else if cancelled
    then cancelled_acquire
    else waits

unfoldable pub release_overlap_slot : OverlapSlots → Option OverlapSlots
release_overlap_slot s = if s.held == 0 then none else some (record s { held = s.held - 1 })
