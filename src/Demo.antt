-- ===== src/Demo.antt =====
-- sdk/src/demo/client.ts: the seeds of the demo, resolved by name, each with its agents, their
-- reputation and the scan of their feedback for a dropout.
pub mod Dropouts
pub mod Seeds
mod Tests
use coalition.Base.{
  ℕ, zero, suc, ℤ, pos, negsuc, Bool, true, false, not, ◌&&◌, Option, none, some, List, [], ◌∷◌,
  Text, text, text_eq, to_lower_case, if◌then◌else◌, Result, ok, err, ◌>>=◌, ◌>>◌, throw_if,
  map_result,
}
use coalition.Json.{Number, integer, fractional}
use coalition.Identity.{RegistryClient, IdentityError, ResolvedAgent, resolve_agent}
use coalition.Ens.{EnsClient, HopError, EnsAgentResolution, resolve_ens_to_agents}
use coalition.Reputation.{
  ReputationSummary, FeedbackEntry, ReputationError, ReputationClient, get_reputation_summary,
  read_feedback,
}

pub record DemoSeedAgent : Type 0 where
  pub id : Text
  pub label : Text
  pub ens_name : Text
  pub wallet : Text

pub record DemoAgentDetail : Type 0 where
  pub agent_id : ℕ
  pub agent : ResolvedAgent
  pub summary : ReputationSummary
  pub dropout : Bool
  pub dropout_client : Option Text

pub data UnresolvedReason : Type 0 where
  no_record : Text → UnresolvedReason
  wallet_mismatch : Text → Text → Text → UnresolvedReason

pub data DemoAgentResolution : Type 0 where
  resolved : DemoSeedAgent → Text → List DemoAgentDetail → DemoAgentResolution
  unresolved : DemoSeedAgent → UnresolvedReason → DemoAgentResolution

-- `DemoError`, and the errors of the clients that are passed on
pub data SeedError : Type 0 where
  no_seeds no_reviewers max_feedback_not_positive : SeedError
  from_hop : HopError → SeedError
  from_identity : IdentityError → SeedError
  from_reputation : ReputationError → SeedError

pub record ResolveSeedParams : Type 0 where
  pub ens : EnsClient
  pub registry : RegistryClient
  pub reputation : ReputationClient
  pub reviewers : List Text
  pub tag1 : Option Text
  pub tag2 : Option Text
  pub coin_type : Option ℕ
  pub from_block : Option ℕ
  pub max_feedback_per_client : Option Number

abbrev pub is_negative : ℤ → Bool
is_negative (pos n) = false
is_negative (negsuc n) = true

unfoldable pub is_dropout_entry : FeedbackEntry → Bool
is_dropout_entry entry =
    not entry.revoked && text_eq entry.tag1 (text "dropout") && is_negative entry.value

unfoldable pub checked_max_feedback_per_client : Option Number → Result SeedError ℕ
checked_max_feedback_per_client none = ok 3
checked_max_feedback_per_client (some (integer (pos (suc n)))) = ok (suc n)
checked_max_feedback_per_client (some _) = err max_feedback_not_positive

-- One reviewer's entries from the index on, of which at most `left` are read: whether a dropout comes
-- before the first entry that cannot be read.
unfoldable pub reviewer_drops : ReputationClient → ℕ → Text → ℕ → ℕ → Bool
reviewer_drops client agent_id reviewer zero index = false
reviewer_drops client agent_id reviewer (suc left) index =
    let rest = reviewer_drops client agent_id reviewer left (suc index) in
    elim (read_feedback client agent_id reviewer index) [
      | ok entry ↦ if is_dropout_entry entry then true else rest
      | err e ↦ false
    ]

unfoldable pub find_dropout_client : ReputationClient → ℕ → List Text → ℕ → Option Text
find_dropout_client client agent_id [] max = none
find_dropout_client client agent_id (reviewer ∷ reviewers) max =
    let rest = find_dropout_client client agent_id reviewers max in
    if reviewer_drops client agent_id reviewer max 1 then some reviewer else rest

abbrev pub mapped : {E F A : Type 0} → (E → F) → Result E A → Result F A
mapped f (ok a) = ok a
mapped f (err e) = err (f e)

-- `params.reviewers.length === 0`
abbrev pub is_none_of : {A : Type 0} → List A → Bool
is_none_of [] = true
is_none_of (first ∷ rest) = false

abbrev pub is_found : Option Text → Bool
is_found none = false
is_found (some reviewer) = true

module _ (params : ResolveSeedParams) where
  -- One pass of the loop over the agent ids. Where both reads fail, the identity's stands for the one
  -- that is rejected first.
  unfoldable pub detail_of : ℕ → ℕ → Result SeedError DemoAgentDetail
  detail_of max agent_id =
      mapped from_identity (resolve_agent params.registry agent_id) >>= λ agent.
      mapped from_reputation
        (get_reputation_summary params.reputation agent_id params.reviewers params.tag1 params.tag2)
      >>= λ summary.
          let dropout_client =
            find_dropout_client params.reputation agent_id params.reviewers max in
          ok (record {
            agent_id = agent_id;
            agent = agent;
            summary = summary;
            dropout = is_found dropout_client;
            dropout_client = dropout_client;
          })

  -- What follows the resolution of the seed's name.
  unfoldable pub after_hop :
      ℕ → DemoSeedAgent → Option EnsAgentResolution → Result SeedError DemoAgentResolution
  after_hop max seed none = ok (unresolved seed (no_record seed.ens_name))
  after_hop max seed (some found) =
      let detailed = map_result (detail_of max) found.agent_ids >>= λ details.
      ok (resolved seed found.arc_wallet details) in
      if not (text_eq (to_lower_case found.arc_wallet) (to_lower_case seed.wallet))
      then ok (unresolved seed (wallet_mismatch seed.ens_name found.arc_wallet seed.wallet))
      else detailed

  unfoldable pub resolve_seed_agent : DemoSeedAgent → Result SeedError DemoAgentResolution
  resolve_seed_agent seed =
      throw_if (is_none_of params.reviewers) no_reviewers
      >> (checked_max_feedback_per_client params.max_feedback_per_client >>= λ max.
          mapped from_hop (
            resolve_ens_to_agents params.ens params.registry seed.ens_name params.coin_type
              params.from_block)
          >>= λ found. after_hop max seed found)

  unfoldable pub resolve_seed_agents :
      List DemoSeedAgent → Result SeedError (List DemoAgentResolution)
  resolve_seed_agents seeds =
      throw_if (is_none_of seeds) no_seeds
      >> (throw_if (is_none_of params.reviewers) no_reviewers
          >> map_result resolve_seed_agent seeds)
