-- ===== src/Api/Warmup/OneReader.antt =====
-- internal/api/bbolt.go: one warm-up of the dataset runs at a time.
use bgp_api.Base.{ℕ, ◌+◌, ◌≡◌, refl, arith, true, false, List, [], ◌∷◌, ◌++◌, Option, none, some}
use bgp_api.Api.Warmup.{
  WarmState, idle, in_progress, complete, some_bytes, last_bytes, read_failed, Call, loaded,
  opening, reading, ended, warm_start, warm_swap, warm_open, warm_round, Warming, CallStep, swaps,
  opens, reads, WarmStep, starts, goes_on, WarmSteps, done, then_step, no_calls,
}

-- One for a call that opens or reads the file.
abbrev reader : Call → ℕ
reader loaded = 0
reader opening = 1
reader (reading total) = 1
reader (ended result) = 0

-- The calls that open or read the file.
unfoldable pub readers : List Call → ℕ
readers [] = 0
readers (call ∷ calls) = reader call + readers calls

abbrev pub readers_in : WarmState → ℕ
readers_in in_progress = 1
readers_in idle = 0
readers_in complete = 0

readers-append : (xs ys : List Call) → readers (xs ++ ys) ≡ readers xs + readers ys
unfolding readers
readers-append [] ys = omega arith
readers-append (x ∷ xs) ys = omega (arith, readers-append xs ys)

warm_start-reader : (size : Option ℕ) (state : WarmState) → reader (warm_start size state) ≡ 0
unfolding warm_start
warm_start-reader size idle = refl
warm_start-reader size in_progress = refl
warm_start-reader none complete = refl
warm_start-reader (some size) complete = refl

-- `others` are the readers among the other calls.
CallStep-reader :
    {call : Call} {state : WarmState} {next : Call × WarmState} (others : ℕ)
    → CallStep call state next
    → reader call + others ≡ readers_in state
    → reader next.0 + others ≡ readers_in next.1
unfolding warm_swap warm_open warm_round
CallStep-reader others (swaps idle) h = omega (arith, h)
CallStep-reader others (swaps in_progress) h = h
CallStep-reader others (swaps complete) h = h
CallStep-reader others (opens opened idle) h = absurd (omega (arith, h))
CallStep-reader others (opens opened complete) h = absurd (omega (arith, h))
CallStep-reader others (opens true in_progress) h = h
CallStep-reader others (opens false in_progress) h = omega (arith, h)
CallStep-reader others (reads cancelled read total idle) h = absurd (omega (arith, h))
CallStep-reader others (reads cancelled read total complete) h = absurd (omega (arith, h))
CallStep-reader others (reads true read total in_progress) h = omega (arith, h)
CallStep-reader others (reads false (some_bytes n) total in_progress) h = h
CallStep-reader others (reads false (last_bytes n) total in_progress) h = omega (arith, h)
CallStep-reader others (reads false (read_failed n) total in_progress) h = omega (arith, h)

WarmStep-readers :
    {w x : Warming}
    → WarmStep w x
    → readers w.calls ≡ readers_in w.state
    → readers x.calls ≡ readers_in x.state
unfolding readers
WarmStep-readers (starts w size) h = omega (arith, warm_start-reader size w.state, h)
WarmStep-readers (goes_on state before after call next step) h =
    let one : reader call + (readers before + readers after) ≡ readers_in state =
      omega (arith, readers-append before (call ∷ after), h) in
    let other = CallStep-reader (readers before + readers after) step one in
    omega (arith, readers-append before (next.0 ∷ after), other)

-- Whatever calls of WarmDataset start, and however their steps interleave, a call has the file to open or
-- to read exactly when the state says that a warm-up is in progress, and never more than one has.
pub WarmSteps-readers : {w : Warming} → WarmSteps no_calls w → readers w.calls ≡ readers_in w.state
unfolding readers
WarmSteps-readers (done _) = refl
WarmSteps-readers (then_step steps step) = WarmStep-readers step (WarmSteps-readers steps)
