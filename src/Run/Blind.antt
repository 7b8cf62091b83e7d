-- ===== src/Run/Blind.antt =====
-- What the decisions do not depend on.
use coalition.Base.{
  ℕ, suc, ◌≡◌, refl, ap, ◌∙◌, Option, none, some, List, [], ◌∷◌, map, Text, text_eq, Bool-cases,
  Option-cases, inl, inr, length,
}
use coalition.Demo.{DemoSeedAgent, DemoAgentDetail, DemoAgentResolution, resolved, unresolved}
use coalition.Fund.{RoundView}
use coalition.Run.{AgentDecision, seed_of, resolution_by_id, decide, live_or, run_from}

-- A resolution whose agents, with their dropouts and their reputation, are others.
abbrev pub with_agents : List DemoAgentDetail → DemoAgentResolution → DemoAgentResolution
with_agents agents (resolved seed arc_wallet old) = resolved seed arc_wallet agents
with_agents agents (unresolved seed reason) = unresolved seed reason

abbrev changed : List DemoAgentDetail → Option DemoAgentResolution → Option DemoAgentResolution
changed agents none = none
changed agents (some entry) = some (with_agents agents entry)

same_seed :
    (agents : List DemoAgentDetail) (entry : DemoAgentResolution)
    → seed_of (with_agents agents entry) ≡ seed_of entry
same_seed agents (resolved seed arc_wallet old) = refl
same_seed agents (unresolved seed reason) = refl

module _ (agents : List DemoAgentDetail) where
  resolution_by_id-with_agents :
      (id : Text) (entries : List DemoAgentResolution)
      → resolution_by_id id (map (with_agents agents) entries)
        ≡ changed agents (resolution_by_id id entries)
  unfolding resolution_by_id
  resolution_by_id-with_agents id [] = refl
  resolution_by_id-with_agents id (entry ∷ entries) =
      elim (Option-cases (resolution_by_id id entries)) [
        | inr (later, e) ↦ rw (resolution_by_id-with_agents id entries, e) refl
        | inl e ↦ elim (Bool-cases (text_eq (seed_of entry).id id)) [
          | inl here ↦
              rw (resolution_by_id-with_agents id entries, e, same_seed agents entry, here) refl
          | inr other ↦
              rw (resolution_by_id-with_agents id entries, e, same_seed agents entry, other) refl
        ]
      ]

  decide-with_agents :
      (round : RoundView) (left before : ℕ) (seed : DemoSeedAgent)
      (found : Option DemoAgentResolution)
      → decide round left before seed (changed agents found) ≡ decide round left before seed found
  unfolding decide
  decide-with_agents round left before seed none = refl
  decide-with_agents round left before seed (some (resolved other arc_wallet old)) = refl
  decide-with_agents round left before seed (some (unresolved other reason)) = refl

  -- The decisions of a dry run are the same whatever the agents of the resolved seeds are: no dropout of
  -- theirs, and nothing of their reputation, keeps a seed from joining.
  pub run_from-with_agents :
      (rounds : ℕ → RoundView) (resolutions : List DemoAgentResolution) (index running : ℕ)
      (seeds : List DemoSeedAgent)
      → run_from rounds (map (with_agents agents) resolutions) index running seeds
        ≡ run_from rounds resolutions index running seeds
  unfolding run_from
  run_from-with_agents rounds resolutions index running [] = refl
  run_from-with_agents rounds resolutions index running (seed ∷ seeds) =
      let made =
        decide (rounds index) (suc (length seeds)) (live_or running (rounds index).total_committed)
          seed in
      let same =
        ap made (resolution_by_id-with_agents seed.id resolutions)
        ∙ decide-with_agents (rounds index) (suc (length seeds))
            (live_or running (rounds index).total_committed) seed
            (resolution_by_id seed.id resolutions) in
      let kept = made (resolution_by_id seed.id resolutions) in
      ap
        (λ (d : AgentDecision).
          d
          ∷ run_from rounds (map (with_agents agents) resolutions) (suc index) d.pool_fill_after
              seeds)
        same
      ∙ ap (λ (l : List AgentDecision). kept ∷ l)
          (run_from-with_agents rounds resolutions (suc index) kept.pool_fill_after seeds)
