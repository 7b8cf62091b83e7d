-- ===== src/Run.antt =====
-- app/app/api/agents/run/route.ts: the dry run of the seeds, one after the other, each with a fresh
-- reading of the round (`Dashboard`) and the resolution of its name (`Demo`). The amounts, which the
-- response prints, are numbers, and the reasons constructors with what is interpolated.
pub mod Fill
pub mod Blind
mod Tests
use coalition.Base.{
  ℕ, zero, suc, ◌+◌, ◌-◌, Bool, true, false, ◌||◌, Option, none, some, List, [], ◌∷◌, map, Text,
  text_eq, ltb, leb, if◌then◌else◌, length, Result, ok, err,
}
use coalition.Base.Decimal.{big_int}
use coalition.Dashboard.{Sources, read_pool_state, read_current_round}
use coalition.Demo.{
  DemoSeedAgent, UnresolvedReason, DemoAgentResolution, resolved, unresolved, ResolveSeedParams,
  SeedError, resolve_seed_agents,
}
use coalition.Fund.{RoundView, fill_amount}
use coalition.Fund.Opening.{opened}

pub data RunDecision : Type 0 where
  join skip : RunDecision

pub data RunReason : Type 0 where
  ens_unavailable : Text → RunReason
  ens_unresolved : UnresolvedReason → RunReason
  round_closed : Text → RunReason
  round_at_target : Text → ℕ → RunReason
  fill_allows : ℕ → ℕ → ℕ → RunReason

-- `AgentDecision`, less the hashes, which are always `null`
pub record AgentDecision : Type 0 where
  pub agent : Text
  pub decision : RunDecision
  pub reason : RunReason
  pub amount_atomic : ℕ
  pub pool_fill_before : ℕ
  pub pool_fill_after : ℕ
  pub round_id : Text

abbrev pub seed_of : DemoAgentResolution → DemoSeedAgent
seed_of (resolved seed arc_wallet agents) = seed
seed_of (unresolved seed reason) = seed

-- `resolutionById.get(id)`, where a later entry takes the place of an earlier one
unfoldable pub resolution_by_id : Text → List DemoAgentResolution → Option DemoAgentResolution
resolution_by_id id [] = none
resolution_by_id id (entry ∷ entries) =
    let here = if text_eq (seed_of entry).id id then some entry else none in
    elim (resolution_by_id id entries) [ none ↦ here | some later ↦ some later ]

abbrev pub skipped : DemoSeedAgent → Text → ℕ → RunReason → AgentDecision
skipped seed round_id before reason = record {
  agent = seed.id;
  decision = skip;
  reason = reason;
  amount_atomic = 0;
  pool_fill_before = before;
  pool_fill_after = before;
  round_id = round_id;
}

abbrev pub joined : DemoSeedAgent → Text → ℕ → ℕ → ℕ → AgentDecision
joined seed round_id before target amount = record {
  agent = seed.id;
  decision = join;
  reason = fill_allows before target amount;
  amount_atomic = amount;
  pool_fill_before = before;
  pool_fill_after = before + amount;
  round_id = round_id;
}

-- What is decided for a seed that is resolved, with `agents_left` seeds still to run.
unfoldable pub decide_resolved : RoundView → ℕ → ℕ → DemoSeedAgent → AgentDecision
decide_resolved round agents_left before seed =
    let remaining = if ltb before round.target then round.target - before else 0 in
    if round.settled || round.expired
    then skipped seed round.round_id before (round_closed round.round_id)
    else if leb remaining 0
    then skipped seed round.round_id before (round_at_target round.round_id round.target)
    else joined seed round.round_id before round.target (fill_amount remaining agents_left)

unfoldable pub decide :
    RoundView → ℕ → ℕ → DemoSeedAgent → Option DemoAgentResolution → AgentDecision
decide round agents_left before seed none =
    skipped seed round.round_id before (ens_unavailable seed.ens_name)
decide round agents_left before seed (some (unresolved other reason)) =
    skipped seed round.round_id before (ens_unresolved reason)
decide round agents_left before seed (some (resolved other arc_wallet agents)) =
    decide_resolved round agents_left before seed

-- `if (liveTotal > running) running = liveTotal;`
abbrev pub live_or : ℕ → ℕ → ℕ
live_or running live_total = if ltb running live_total then live_total else running

-- The loop over the seeds. `rounds` is what each pass reads of the round; `running` is the fill that the
-- decisions so far would leave.
unfoldable pub run_from :
    (ℕ → RoundView) → List DemoAgentResolution → ℕ → ℕ → List DemoSeedAgent → List AgentDecision
run_from rounds resolutions index running [] = []
run_from rounds resolutions index running (seed ∷ seeds) =
    let round = rounds index in
    let made =
      decide round (suc (length seeds)) (live_or running round.total_committed) seed
        (resolution_by_id seed.id resolutions) in
    made ∷ run_from rounds resolutions (suc index) made.pool_fill_after seeds

-- `withTimeout(resolveSeedAgents(…)).catch(() => null) ?? []`; `in_time` tells whether it is in time.
abbrev pub resolutions_of :
    Bool → Result SeedError (List DemoAgentResolution) → List DemoAgentResolution
resolutions_of false result = []
resolutions_of true (err e) = []
resolutions_of true (ok resolutions) = resolutions

-- The decisions of the response. `at` tells what the sources answer to the first reading of the pool and
-- to the reading of the round at each pass.
unfoldable pub run :
    Sources → (ℕ → Sources) → ResolveSeedParams → Bool → List DemoSeedAgent → List AgentDecision
run first at params in_time seeds =
    let reviewed : ResolveSeedParams = record params {
      reviewers = map (λ seed. seed.wallet) seeds;
    } in
    let resolutions = resolutions_of in_time (resolve_seed_agents reviewed seeds) in
    let running = big_int (read_pool_state first).view.total_committed in
    run_from (λ index. opened (read_current_round (at index)).view) resolutions 0 running seeds
