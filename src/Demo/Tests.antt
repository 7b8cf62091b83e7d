-- ===== src/Demo/Tests.antt =====
-- Two seeds, of which one has no record, and an agent whose second entry is a dropout.
use coalition.Base.{
  ◌≡◌, ◌↔◌, refl, negsuc, pos, false, none, some, List, [], ◌∷◌, Text, text, text_eq, to_lower_case,
  ◌==◌, if◌then◌else◌, ok, Zipped, map_result,
}
use coalition.Identity.{RegistryClient, find_agents_by_owner}
use coalition.Reputation.{FeedbackEntry, ReputationClient, read_feedback}
use coalition.Ens.{EnsClient, normalized_name, resolve_arc_wallet, resolve_ens_to_agents}
use coalition.Demo.{
  DemoSeedAgent, DemoAgentResolution, resolved, unresolved, no_record, ResolveSeedParams,
  is_dropout_entry, checked_max_feedback_per_client, reviewer_drops, find_dropout_client, after_hop,
  resolve_seed_agent, resolve_seed_agents,
}
use coalition.Demo.Dropouts.{IsFirst, find_dropout_client-IsFirst}
use coalition.Demo.Seeds.{IsResolution, resolve_seed_agents-IsResolution}

abbrev dropout : FeedbackEntry
dropout = record {
  value = negsuc 0;
  decimals = 0;
  tag1 = text "dropout";
  tag2 = [];
  revoked = false;
}

-- The second reviewer's second entry is the dropout, and the first has none.
abbrev reputation : ReputationClient
reputation = record {
  get_summary =
      λ agent_id clients tag1 tag2. some (record { count = 2; value = negsuc 0; decimals = 0 });
  read_feedback = λ agent_id reviewer index.
      if text_eq reviewer (text "0xr2")
      then (if index == 2 then some dropout else some (record dropout { value = pos 1 }))
      else none;
}

abbrev reviewers : List Text
reviewers = text "0xr1" ∷ text "0xr2" ∷ []

find_dropout_client-IsFirst_example :
    (find_dropout_client reputation 7 reviewers 3 ≡ some (text "0xr2"))
    ↔ IsFirst reputation 7 3 (text "0xr2") reviewers
find_dropout_client-IsFirst_example =
    find_dropout_client-IsFirst reputation 7 3 (text "0xr2") reviewers

second_reviewer : find_dropout_client reputation 7 reviewers 3 ≡ some (text "0xr2")
unfolding find_dropout_client reviewer_drops read_feedback is_dropout_entry text text_eq
second_reviewer = refl

abbrev ens : EnsClient
ens = record {
  normalize = λ name. some name;
  namehash = λ name. name;
  dns_encode = λ name. name;
  user_registry_salt = λ node version. node;
  get_ens_address = λ name coin_type universal_resolver.
      some (if text_eq name (text "agent1.agentpool.eth") then some (text "0xAB") else none);
  get_ens_resolver = λ name universal_resolver. none;
  wait_for_transaction_receipt = λ hash. none;
}

abbrev registry : RegistryClient
registry = record {
  registry = text "0x14";
  registered_in = λ hash. some [];
  token_uri = λ id. none;
  get_agent_wallet = λ id. none;
  balance_of = λ owner. some 0;
  get_block_number = some 12;
  get_contract_events = λ owner first last. none;
}

abbrev params : ResolveSeedParams
params = record {
  ens = ens;
  registry = registry;
  reputation = reputation;
  reviewers = reviewers;
  tag1 = none;
  tag2 = none;
  coin_type = none;
  from_block = none;
  max_feedback_per_client = none;
}

abbrev first_seed : DemoSeedAgent
first_seed = record {
  id = text "agent-1";
  label = text "agent1";
  ens_name = text "agent1.agentpool.eth";
  wallet = text "0xab";
}

abbrev second_seed : DemoSeedAgent
second_seed = record first_seed { id = text "agent-2"; ens_name = text "agent2.agentpool.eth" }

abbrev seeds : List DemoSeedAgent
seeds = first_seed ∷ second_seed ∷ []

abbrev resolutions : List DemoAgentResolution
resolutions =
    resolved first_seed (text "0xAB") []
    ∷ unresolved second_seed (no_record (text "agent2.agentpool.eth"))
    ∷ []

both : resolve_seed_agents params seeds ≡ ok resolutions
unfolding resolve_seed_agents resolve_seed_agent checked_max_feedback_per_client
    resolve_ens_to_agents resolve_arc_wallet normalized_name find_agents_by_owner after_hop
    map_result to_lower_case text text_eq
both = refl

resolve_seed_agents-IsResolution_example : Zipped (IsResolution params) seeds resolutions
resolve_seed_agents-IsResolution_example =
    resolve_seed_agents-IsResolution params seeds resolutions both
