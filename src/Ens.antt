-- ===== src/Ens.antt =====
-- sdk/src/ens/client.ts and sdk/src/ens/register-verify.ts: names, their Arc records, the writes on
-- resolvers and registrars, and the way from a name to its agents. What viem computes of a name and
-- what the chains answer are parameters; a write answers with its hash.
pub mod Verify
pub mod Agents
pub mod Cache
mod Tests
use coalition.Base.{
  ℕ, Bool, true, false, ◌||◌, Option, none, some, List, [], ◌∷◌, ◌++◌, Text, text, text_eq,
  is_empty, index_of, if◌then◌else◌, Result, ok, err, ◌>>=◌, ◌>>◌, throw_if,
}
use coalition.Identity.{RegistryClient, IdentityError, find_agents_by_owner}

-- `EnsError`, with what its message interpolates; `write_rejected` and `receipt_rejected` are the
-- rejections that the source passes on.
pub data EnsError : Type 0 where
  invalid_name failed_to_resolve no_resolver failed_to_find_resolver : Text → EnsError
  resolver_or_client_needed invalid_label : Text → EnsError
  no_arc_record : Text → Text → EnsError
  write_rejected receipt_rejected : EnsError

-- `ARC_COIN_TYPE` and `DEFAULT_PARENT_NAME`
abbrev pub arc_coin_type : ℕ
arc_coin_type = 2_152_525_650

abbrev pub default_parent_name : Text
default_parent_name = text "agentpool.eth"

abbrev pub zero_address : Text
zero_address = text "0x0000000000000000000000000000000000000000"

-- What viem makes of names, where `normalize` may throw and `user_registry_salt` is the hash of the
-- packed node and version, and what Sepolia answers: the record of a name for a coin type, its
-- resolver, and the receipt of a transaction. The last argument of a read is the universal resolver,
-- where one is given; a read that throws is `none`.
pub record EnsClient : Type 0 where
  pub normalize : Text → Option Text
  pub namehash : Text → Text
  pub dns_encode : Text → Text
  pub user_registry_salt : Text → ℕ → Text
  pub get_ens_address : Text → ℕ → Option Text → Option (Option Text)
  pub get_ens_resolver : Text → Option Text → Option Text
  pub wait_for_transaction_receipt : Text → Option (Unit {0})

-- The calls of `writeContract`, each with the contract first.
pub data EnsWrite : Type 0 where
  set_addr : Text → Text → ℕ → Text → EnsWrite
  authorize_addr_roles : Text → Text → ℕ → Text → Bool → EnsWrite
  register : Text → Text → Text → Text → Text → ℕ → ℕ → EnsWrite

abbrev pub or_coin_type : Option ℕ → ℕ
or_coin_type none = arc_coin_type
or_coin_type (some coin_type) = coin_type

abbrev pub or_parent_name : Option Text → Text
or_parent_name none = default_parent_name
or_parent_name (some name) = name

-- A call that may throw, with the error that is thrown in its place.
abbrev pub or_error : {A : Type 0} → EnsError → Option A → Result EnsError A
or_error e none = err e
or_error e (some a) = ok a

pub record RegisterSubnameParams : Type 0 where
  pub registrar : Text
  pub label : Text
  pub parent_name : Option Text
  pub owner : Text
  pub registry : Text
  pub resolver : Text
  pub role_bitmap : ℕ
  pub expiry : ℕ

pub record SubnameRegistration : Type 0 where
  pub hash : Text
  pub name : Text

pub record VerifiedSubname : Type 0 where
  pub name : Text
  pub register_tx : Text
  pub arc_wallet : Text
  pub resolver : Text

-- `params.label.includes(".")`
abbrev pub has_dot : Text → Bool
has_dot label = elim (index_of b'.' label) [ none ↦ false | some at ↦ true ]

abbrev pub register_call : RegisterSubnameParams → EnsWrite
register_call params =
    register params.registrar params.label params.owner params.registry params.resolver
      params.role_bitmap params.expiry

module _ (client : EnsClient) where
  unfoldable pub normalized_name : Text → Result EnsError Text
  normalized_name name = or_error (invalid_name name) (client.normalize name)

  unfoldable pub resolve_arc_wallet : Text → Option ℕ → Option Text → Result EnsError (Option Text)
  resolve_arc_wallet name coin_type universal_resolver = normalized_name name >>= λ name'.
      or_error (failed_to_resolve name')
        (client.get_ens_address name' (or_coin_type coin_type) universal_resolver)

  unfoldable pub resolve_ens_resolver : Text → Option Text → Result EnsError Text
  resolve_ens_resolver name universal_resolver = normalized_name name >>= λ name'.
      or_error (failed_to_find_resolver name') (client.get_ens_resolver name' universal_resolver)
      >>= λ resolver. throw_if (text_eq resolver zero_address) (no_resolver name') >> ok resolver

  unfoldable pub build_user_registry_salt : Option Text → ℕ → Result EnsError Text
  build_user_registry_salt parent_name version =
      normalized_name (or_parent_name parent_name) >>= λ parent.
      ok (client.user_registry_salt (client.namehash parent) version)

  -- The resolver of a write: the one that is given, or else a fresh lookup of the name.
  abbrev pub resolver_for : Text → Option Text → Bool → Result EnsError Text
  resolver_for name (some resolver) has_client = ok resolver
  resolver_for name none false = err (resolver_or_client_needed name)
  resolver_for name none true = resolve_ens_resolver name none

  -- `write` is the answer of `writeContract`, and `has_client` tells whether a `publicClient` is given.
  unfoldable pub set_arc_address_record :
      (EnsWrite → Option Text)
      → Bool
      → Text
      → Text
      → Option Text
      → Option ℕ
      → Result EnsError (Text × Text)
  set_arc_address_record write has_client raw_name arc_wallet given coin_type =
      normalized_name raw_name >>= λ name. resolver_for name given has_client >>= λ resolver.
      or_error write_rejected
        (write (set_addr resolver (client.namehash name) (or_coin_type coin_type) arc_wallet))
      >>= λ hash. ok (hash, resolver)

  unfoldable pub authorize_agent_record :
      (EnsWrite → Option Text) → Text → Text → Text → Bool → Option ℕ → Result EnsError Text
  authorize_agent_record write raw_name resolver agent_wallet allowed coin_type =
      normalized_name raw_name >>= λ name. or_error write_rejected (
        write (
          authorize_addr_roles resolver (client.dns_encode name) (or_coin_type coin_type)
            agent_wallet allowed))

  unfoldable pub register_subname :
      (EnsWrite → Option Text) → RegisterSubnameParams → Result EnsError SubnameRegistration
  register_subname write params =
      throw_if (is_empty params.label || has_dot params.label) (invalid_label params.label)
      >> (normalized_name (or_parent_name params.parent_name) >>= λ parent.
          or_error write_rejected (write (register_call params)) >>= λ hash.
          ok (record { hash = hash; name = params.label ++ b'.' ∷ parent }))

  unfoldable pub register_and_verify_subname :
      (EnsWrite → Option Text)
      → RegisterSubnameParams
      → Option ℕ
      → Option Text
      → Result EnsError VerifiedSubname
  register_and_verify_subname write params coin_type universal_resolver =
      register_subname write params >>= λ registration.
      or_error receipt_rejected (client.wait_for_transaction_receipt registration.hash)
      >> (resolve_ens_resolver registration.name universal_resolver >>= λ resolver.
          resolve_arc_wallet registration.name coin_type universal_resolver >>= λ record_read.
          or_error (no_arc_record registration.name registration.hash) record_read >>= λ arc_wallet.
          ok (record {
            name = registration.name;
            register_tx = registration.hash;
            arc_wallet = arc_wallet;
            resolver = resolver;
          }))

-- `EnsAgentResolution`
pub record EnsAgentResolution : Type 0 where
  pub arc_wallet : Text
  pub agent_ids : List ℕ

-- The hop that throws.
pub data HopError : Type 0 where
  ens_hop : EnsError → HopError
  registry_hop : IdentityError → HopError

abbrev pub from_ens : {A : Type 0} → Result EnsError A → Result HopError A
from_ens (ok a) = ok a
from_ens (err e) = err (ens_hop e)

abbrev pub from_registry : {A : Type 0} → Result IdentityError A → Result HopError A
from_registry (ok a) = ok a
from_registry (err e) = err (registry_hop e)

-- The agents of the wallet of a name's record, where it has one.
abbrev pub agents_of :
    RegistryClient → Option ℕ → Option Text → Result HopError (Option EnsAgentResolution)
agents_of registry from_block none = ok none
agents_of registry from_block (some arc_wallet) =
    from_registry (find_agents_by_owner registry arc_wallet from_block) >>= λ agent_ids.
    ok (some (record { arc_wallet = arc_wallet; agent_ids = agent_ids }))

unfoldable pub resolve_ens_to_agents :
    EnsClient
    → RegistryClient
    → Text
    → Option ℕ
    → Option ℕ
    → Result HopError (Option EnsAgentResolution)
resolve_ens_to_agents client registry name coin_type from_block =
    from_ens (resolve_arc_wallet client name coin_type none) >>= λ arc_wallet.
    agents_of registry from_block arc_wallet
