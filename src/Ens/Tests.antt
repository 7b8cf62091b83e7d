-- ===== src/Ens/Tests.antt =====
-- The parent agentpool.eth with one agent, and a chain of 12 blocks.
use coalition.Base.{
  ℕ, ◌+◌, ◌-◌, ◌≡◌, ◌↔◌, refl, Option, none, some, List, [], ◌∷◌, arith, Text, text, text_eq,
  is_empty, index_of, to_lower_case, ltb, ◌==◌, if◌then◌else◌, ok,
}
use coalition.Blocks.{logs_of}
use coalition.Identity.{RegistryClient, ids_of, or_zero}
use coalition.Identity.Scan.{Serves}
use coalition.Ens.{
  EnsClient, EnsWrite, RegisterSubnameParams, VerifiedSubname, arc_coin_type, normalized_name,
  resolve_arc_wallet, resolve_ens_resolver, register_subname, register_and_verify_subname,
  resolve_ens_to_agents,
}
use coalition.Ens.Verify.{IsVerified, register_and_verify_subname-IsVerified}
use coalition.Ens.Agents.{resolve_ens_to_agents-logs_of}

abbrev agent_name : Text
agent_name = text "agent1.agentpool.eth"

abbrev client : EnsClient
client = record {
  normalize = λ name. if is_empty name then none else some (to_lower_case name);
  namehash = λ name. name;
  dns_encode = λ name. name;
  user_registry_salt = λ node version. node;
  get_ens_address = λ name coin_type universal_resolver.
      some (if text_eq name agent_name then some (text "0xab") else none);
  get_ens_resolver = λ name universal_resolver. some (text "0x77");
  wait_for_transaction_receipt = λ hash. some tt;
}

abbrev accepts : EnsWrite → Option Text
accepts call = some (text "0x1")

abbrev params : RegisterSubnameParams
params = record {
  registrar = text "0x10";
  label = text "Agent1";
  parent_name = none;
  owner = text "0x11";
  registry = text "0x12";
  resolver = text "0x13";
  role_bitmap = 1;
  expiry = 99;
}

abbrev verified : VerifiedSubname
verified = record {
  name = text "Agent1.agentpool.eth";
  register_tx = text "0x1";
  arc_wallet = text "0xab";
  resolver = text "0x77";
}

register_and_verify_subname-IsVerified_example :
    (register_and_verify_subname client accepts params none none ≡ ok verified)
    ↔ IsVerified client accepts params none none verified
register_and_verify_subname-IsVerified_example =
    register_and_verify_subname-IsVerified client accepts params none none verified

-- The label with a capital is registered, and the record of the name without is found.
capital : register_and_verify_subname client accepts params none none ≡ ok verified
unfolding register_and_verify_subname register_subname resolve_ens_resolver resolve_arc_wallet
    normalized_name index_of to_lower_case text text_eq
capital = refl

-- One agent of the wallet, at block 4.
abbrev emitted : ℕ → List (Option ℕ)
emitted block = if block == 4 then some 7 ∷ [] else []

abbrev registry : RegistryClient
registry = record {
  registry = text "0x14";
  registered_in = λ hash. some [];
  token_uri = λ id. none;
  get_agent_wallet = λ id. none;
  balance_of = λ owner. some 1;
  get_block_number = some 12;
  get_contract_events = λ owner first last.
      if ltb (first + 10_000) last then none else some (logs_of emitted first (last + 1 - first));
}

registry-Serves : Serves registry (text "0xab") emitted 12
registry-Serves first last h wide high = ground arith

recorded : client.get_ens_address agent_name arc_coin_type none ≡ some (some (text "0xab"))
unfolding text text_eq
recorded = refl

normal : client.normalize agent_name ≡ some agent_name
unfolding to_lower_case text
normal = refl

resolve_ens_to_agents-logs_of_example :
    resolve_ens_to_agents client registry agent_name none (some 2)
    ≡ ok (
        some (record {
          arc_wallet = text "0xab";
          agent_ids =
              if 1 == 0
              then []
              else ids_of (logs_of emitted (or_zero (some 2)) (12 + 1 - or_zero (some 2)));
        }))
resolve_ens_to_agents-logs_of_example =
    resolve_ens_to_agents-logs_of client registry agent_name agent_name normal none (some 2)
      (text "0xab") emitted 12 1 recorded registry-Serves refl refl
