-- ===== src/Demo/Seeds.antt =====
-- What the resolution of the seeds shows of each.
use mathlib.Core.Path.{subst}
use coalition.Base.{
  ℕ, ◌≡◌, refl, sym, ap, ◌∙◌, inl, inr, Bool, true, false, not, Option, none, some, List, Text,
  text_eq, to_lower_case, Bool-cases, Result, ok, err, ◌>>=◌, >>=-eq-ok, throw_if, ok-injective,
  map_result, Zipped, Zipped-of_map_result,
}
use coalition.Identity.{resolve_agent}
use coalition.Ens.{EnsAgentResolution, resolve_ens_to_agents}
use coalition.Reputation.{get_reputation_summary}
use coalition.Demo.{
  DemoSeedAgent, DemoAgentDetail, no_record, wallet_mismatch, DemoAgentResolution, resolved,
  unresolved, no_seeds, no_reviewers, from_hop, from_identity, from_reputation, ResolveSeedParams,
  checked_max_feedback_per_client, find_dropout_client, mapped, is_none_of, is_found, detail_of,
  after_hop, resolve_seed_agent, resolve_seed_agents,
}

mapped-eq-ok : {E F A : Type 0} (f : E → F) (r : Result E A) (a : A) → mapped f r ≡ ok a → r ≡ ok a
mapped-eq-ok f (ok b) a h = cc
mapped-eq-ok f (err e) a h = cc

not-false : (b : Bool) → not b ≡ false → b ≡ true
not-false true h = refl
not-false false h = cc

module _ (params : ResolveSeedParams) where
  -- The detail shows what the registries hold of the agent, and the reviewer that the scan of its
  -- feedback names.
  abbrev pub IsDetail : ℕ → ℕ → DemoAgentDetail → Type 0
  IsDetail max agent_id detail =
      (detail.agent_id ≡ agent_id)
      × (resolve_agent params.registry agent_id ≡ ok detail.agent)
      × (get_reputation_summary params.reputation agent_id params.reviewers params.tag1 params.tag2
          ≡ ok detail.summary)
      × (detail.dropout_client
          ≡ find_dropout_client params.reputation agent_id params.reviewers max)
      × (detail.dropout ≡ is_found detail.dropout_client)

  detail_of-IsDetail :
      (max agent_id : ℕ) (detail : DemoAgentDetail)
      → detail_of params max agent_id ≡ ok detail
      → IsDetail max agent_id detail
  unfolding detail_of
  detail_of-IsDetail max agent_id detail h =
      let (agent, p, h₁) =
        >>=-eq-ok (mapped from_identity (resolve_agent params.registry agent_id)) _ h in
      let (summary, q, h₂) =
        >>=-eq-ok
          (mapped from_reputation (
            get_reputation_summary params.reputation agent_id params.reviewers params.tag1
              params.tag2))
          _ h₁ in
      let same = ok-injective h₂ in
      (
        sym (ap (λ (d : DemoAgentDetail). d.agent_id) same),
        mapped-eq-ok _ _ agent p ∙ ap (λ (d : DemoAgentDetail). ok d.agent) same,
        mapped-eq-ok _ _ summary q ∙ ap (λ (d : DemoAgentDetail). ok d.summary) same,
        sym (ap (λ (d : DemoAgentDetail). d.dropout_client) same),
        sym (ap (λ (d : DemoAgentDetail). d.dropout) same)
            ∙ ap (λ (d : DemoAgentDetail). is_found d.dropout_client) same,
      )

  abbrev pub is_held : Text → Text → Bool
  is_held arc_wallet wallet = text_eq (to_lower_case arc_wallet) (to_lower_case wallet)

  -- What a name's resolution makes of its seed, whose maximum of entries is `max`.
  abbrev pub IsOf : ℕ → DemoSeedAgent → Option EnsAgentResolution → DemoAgentResolution → Type 0
  IsOf max seed found (resolved of arc_wallet details) =
      (of ≡ seed)
      × ((agent_ids : List ℕ) × (found
            ≡ some (record { arc_wallet = arc_wallet; agent_ids = agent_ids }))
          × (is_held arc_wallet seed.wallet ≡ true)
          × Zipped (IsDetail max) agent_ids details)
  IsOf max seed found (unresolved of (no_record name)) =
      (of ≡ seed) × (name ≡ seed.ens_name) × (found ≡ none)
  IsOf max seed found (unresolved of (wallet_mismatch name arc_wallet expected)) =
      (of ≡ seed)
      × ((other : EnsAgentResolution) × (found ≡ some other)
          × (other.arc_wallet ≡ arc_wallet)
          × (name ≡ seed.ens_name)
          × (expected ≡ seed.wallet)
          × (is_held arc_wallet seed.wallet ≡ false))

  abbrev pub IsResolution : DemoSeedAgent → DemoAgentResolution → Type 0
  IsResolution seed resolution =
      (max : ℕ) × (found : Option EnsAgentResolution) × (checked_max_feedback_per_client
          params.max_feedback_per_client
        ≡ ok max)
      × (resolve_ens_to_agents params.ens params.registry seed.ens_name params.coin_type
            params.from_block
          ≡ ok found)
      × IsOf max seed found resolution

  after_hop-IsOf :
      (max : ℕ) (seed : DemoSeedAgent) (found : Option EnsAgentResolution)
      (resolution : DemoAgentResolution)
      → after_hop params max seed found ≡ ok resolution
      → IsOf max seed found resolution
  unfolding after_hop
  after_hop-IsOf max seed none resolution h =
      subst (IsOf max seed none) (ok-injective h) (refl, refl, refl)
  after_hop-IsOf max seed (some found) resolution h =
      elim (Bool-cases (is_held found.arc_wallet seed.wallet)) [
        | inr other ↦
            let mismatch =
              unresolved seed (wallet_mismatch seed.ens_name found.arc_wallet seed.wallet) in
            let given : after_hop params max seed (some found) ≡ ok mismatch =
              rw (other, after_hop) refl in
            subst (IsOf max seed (some found)) (ok-injective (sym given ∙ h))
              (refl, (found, refl, refl, refl, refl, other))
        | inl held ↦
            let detailed = map_result (detail_of params max) found.agent_ids >>= λ details.
            ok (resolved seed found.arc_wallet details) in
            let given : after_hop params max seed (some found) ≡ detailed =
              rw (held, after_hop) refl in
            let (details, e, k) =
              >>=-eq-ok (map_result (detail_of params max) found.agent_ids) _ (sym given ∙ h) in
            subst (IsOf max seed (some found)) (ok-injective k) (
              refl,
              (
                found.agent_ids,
                refl,
                held,
                Zipped-of_map_result (detail_of params max) (IsDetail max) (detail_of-IsDetail max)
                    found.agent_ids details e,
              ),
            )
      ]

  resolve_seed_agent-IsResolution :
      (seed : DemoSeedAgent) (resolution : DemoAgentResolution)
      → resolve_seed_agent params seed ≡ ok resolution
      → IsResolution seed resolution
  unfolding resolve_seed_agent
  resolve_seed_agent-IsResolution seed resolution h =
      let (u, p, h₁) = >>=-eq-ok (throw_if (is_none_of params.reviewers) no_reviewers) _ h in
      let (max, q, h₂) =
        >>=-eq-ok (checked_max_feedback_per_client params.max_feedback_per_client) _ h₁ in
      let (found, r, h₃) =
        >>=-eq-ok
          (mapped from_hop (
            resolve_ens_to_agents params.ens params.registry seed.ens_name params.coin_type
              params.from_block))
          _ h₂ in
      (max, found, q, mapped-eq-ok _ _ found r, after_hop-IsOf max seed found resolution h₃)

  -- Where the resolution of the seeds does not throw, it gives one entry for each seed, in their order. A
  -- seed is resolved only if its name resolves to its own wallet, up to case, and then with the agents of
  -- that wallet, each as the registries hold it and with the reviewer whose feedback shows a dropout;
  -- without a record, or with another wallet, it is unresolved.
  pub resolve_seed_agents-IsResolution :
      (seeds : List DemoSeedAgent) (resolutions : List DemoAgentResolution)
      → resolve_seed_agents params seeds ≡ ok resolutions
      → Zipped IsResolution seeds resolutions
  unfolding resolve_seed_agents
  resolve_seed_agents-IsResolution seeds resolutions h =
      let (u, p, h₁) = >>=-eq-ok (throw_if (is_none_of seeds) no_seeds) _ h in
      let (v, q, h₂) = >>=-eq-ok (throw_if (is_none_of params.reviewers) no_reviewers) _ h₁ in
      Zipped-of_map_result (resolve_seed_agent params) IsResolution resolve_seed_agent-IsResolution
        seeds resolutions h₂
