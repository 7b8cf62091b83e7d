-- ===== src/Run/Fill.antt =====
-- The decisions of a run, one after the other.
use coalition.Base.{
  ℕ, suc, ◌+◌, ◌-◌, ◌≤◌, ◌<◌, ◌≡◌, ◌⊎◌, refl, inl, inr, true, false, ◌||◌, Option, none, some, List,
  [], ◌∷◌, arith, ltb, leb, Bool-cases, length, Text,
}
use coalition.Demo.{
  DemoSeedAgent, DemoAgentDetail, DemoAgentResolution, UnresolvedReason, resolved, unresolved,
}
use coalition.Fund.{RoundView}
use coalition.Fund.Split.{fill_amount-le, fill_amount_pos}
use coalition.Run.{
  join, skip, AgentDecision, resolution_by_id, decide_resolved, decide, live_or, run_from,
}

-- A share of the round's remainder, paid by a resolved seed.
abbrev pub Joins : RoundView → Option DemoAgentResolution → AgentDecision → Type 0
Joins round found made =
    (made.decision ≡ join)
    × ((seed : DemoSeedAgent) × (arc_wallet : Text) × (agents : List DemoAgentDetail) × (found
          ≡ some (resolved seed arc_wallet agents)))
    × ((round.settled || round.expired) ≡ false)
    × (0 < made.amount_atomic)
    × (made.pool_fill_after ≤ round.target)

-- Nothing is paid: the seed is not resolved, or the round is closed or full.
abbrev pub Skips : RoundView → Option DemoAgentResolution → AgentDecision → Type 0
Skips round found made =
    (made.decision ≡ skip)
    × (made.amount_atomic ≡ 0)
    × (((found ≡ none)
          ⊎ ((seed : DemoSeedAgent) × (reason : UnresolvedReason) × (found
                ≡ some (unresolved seed reason))))
        ⊎ (((round.settled || round.expired) ≡ true) ⊎ (round.target ≤ made.pool_fill_before)))

abbrev pub IsMade :
    RoundView → ℕ → DemoSeedAgent → Option DemoAgentResolution → AgentDecision → Type 0
IsMade round before seed found made =
    (made.agent ≡ seed.id)
    × (made.round_id ≡ round.round_id)
    × (made.pool_fill_before ≡ before)
    × (made.pool_fill_after ≡ made.pool_fill_before + made.amount_atomic)
    × (Joins round found made ⊎ Skips round found made)

decide_resolved-IsMade :
    (round : RoundView) (left before : ℕ) (seed other : DemoSeedAgent) (arc_wallet : Text)
    (agents : List DemoAgentDetail)
    → IsMade round before seed
        (some (resolved other arc_wallet agents))
        (decide_resolved round (suc left) before seed)
unfolding decide_resolved
decide_resolved-IsMade round left before seed other arc_wallet agents =
    elim (Bool-cases (round.settled || round.expired)) [
      | inl closed ↦ rw closed (refl, refl, refl, omega arith, inr (refl, refl, inr (inl refl)))
      | inr going ↦ elim (Bool-cases (ltb before round.target)) [
        | inr full ↦
            rw (going, full)
              (refl, refl, refl, omega arith, inr (refl, refl, inr (inr (ground arith))))
        | inl short ↦
            let remaining = round.target - before in
            let some_left : leb remaining 0 ≡ false = ground arith in
            rw (going, short, some_left)
              (
                refl,
                refl,
                refl,
                refl,
                inl (
                  refl,
                  (other, arc_wallet, agents, refl),
                  refl,
                  fill_amount_pos remaining left (ground arith),
                  ground (arith, fill_amount-le remaining left),
                ),
              )
      ]
    ]

decide-IsMade :
    (round : RoundView) (left before : ℕ) (seed : DemoSeedAgent)
    (found : Option DemoAgentResolution)
    → IsMade round before seed found (decide round (suc left) before seed found)
unfolding decide
decide-IsMade round left before seed none =
    (refl, refl, refl, omega arith, inr (refl, refl, inl (inl refl)))
decide-IsMade round left before seed (some (unresolved other reason)) =
    (refl, refl, refl, omega arith, inr (refl, refl, inl (inr (other, reason, refl))))
decide-IsMade round left before seed (some (resolved other arc_wallet agents)) =
    decide_resolved-IsMade round left before seed other arc_wallet agents

module _ (rounds : ℕ → RoundView) (resolutions : List DemoAgentResolution) where
  -- One decision for each seed. Each starts from what the one before it leaves, or from the round's
  -- committed total where that is more.
  abbrev pub IsRun : ℕ → ℕ → List DemoSeedAgent → List AgentDecision → Type 0
  IsRun index running [] [] = Unit
  IsRun index running [] (made ∷ decisions) = ⊥
  IsRun index running (seed ∷ seeds) [] = ⊥
  IsRun index running (seed ∷ seeds) (made ∷ decisions) =
      IsMade (rounds index) (live_or running (rounds index).total_committed) seed
        (resolution_by_id seed.id resolutions) made
      × IsRun (suc index) made.pool_fill_after seeds decisions

  -- A dry run decides once for each seed, in their order. A seed joins only if its name is resolved, the
  -- round is open and something remains of it; it then pays a positive amount that does not take the
  -- fill past the round's target. Else it pays nothing. Each fill starts from what the decisions before
  -- it leave, or from the round's committed total where that is more.
  pub run_from-IsRun :
      (index running : ℕ) (seeds : List DemoSeedAgent)
      → IsRun index running seeds (run_from rounds resolutions index running seeds)
  unfolding run_from
  run_from-IsRun index running [] = tt
  run_from-IsRun index running (seed ∷ seeds) = (
    decide-IsMade (rounds index) (length seeds) (live_or running (rounds index).total_committed)
        seed (resolution_by_id seed.id resolutions),
    run_from-IsRun (suc index) _ seeds,
  )
