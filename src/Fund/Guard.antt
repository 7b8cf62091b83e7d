-- ===== src/Fund/Guard.antt =====
-- `POST` of app/app/api/agents/fund/route.ts: the flag that keeps a second run of `fund` from starting. The
-- test and the setting of the flag are one step, as nothing is awaited between them.
pub mod Single
mod Tests
use coalition.Base.{ℕ, suc, Bool, true, false, if◌then◌else◌}

-- `fundingPending`, and how many runs of `fund` are under way.
pub data GuardState : Type 0 where
  guard : Bool → ℕ → GuardState

pub data PostAnswer : Type 0 where
  busy_409 runs_fund : PostAnswer

-- A request comes in.
unfoldable pub post : GuardState → GuardState × PostAnswer
post (guard funding_pending running) =
    if funding_pending
    then (guard funding_pending running, busy_409)
    else (guard true (suc running), runs_fund)

-- One run ends, however it ends, and its `finally` clears the flag.
abbrev pub finish : ℕ → GuardState
finish running = guard false running

pub data Step : GuardState → GuardState → Type 0 where
  arrives : (state : GuardState) → Step state (post state).0
  ends :
      (funding_pending : Bool) (running : ℕ)
      → Step (guard funding_pending (suc running)) (finish running)

-- The states of the server, from its start on.
pub data Reachable : GuardState → Type 0 where
  starts : Reachable (guard false 0)
  steps : {before after : GuardState} → Reachable before → Step before after → Reachable after
