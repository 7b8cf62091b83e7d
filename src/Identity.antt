-- ===== src/Identity.antt =====
-- sdk/src/identity/client.ts: the agent registry, and the scan of its logs for a wallet's agents. What
-- the chain answers is a parameter; a rejected promise is `rejected`.
pub mod Scan
mod Tests
use coalition.Blocks.{chunk_end}
use coalition.Base.{
  ℕ, zero, suc, ◌+◌, ◌-◌, Option, none, some, List, [], ◌∷◌, ◌++◌, Text, ltb, leb, ◌==◌,
  if◌then◌else◌, Result, ok, err, ◌>>=◌, ◌>>◌, Bool,
}

-- `out_of_fuel` is a loop that was cut off.
pub data IdentityError : Type 0 where
  rejected out_of_fuel : IdentityError
  no_registered_event : Text → Text → IdentityError

abbrev pub or_rejected : {A : Type 0} → Option A → Result IdentityError A
or_rejected none = err rejected
or_rejected (some a) = ok a

-- The chain's answers about one registry: the receipt's `Registered` events by transaction hash, the
-- token URI and wallet of an agent, the number of agents of an owner, the latest block, and the
-- `Registered` logs of an owner from one block to another, where an id may be missing.
pub record RegistryClient : Type 0 where
  pub registry : Text
  pub registered_in : Text → Option (List ℕ)
  pub token_uri : ℕ → Option Text
  pub get_agent_wallet : ℕ → Option Text
  pub balance_of : Text → Option ℕ
  pub get_block_number : Option ℕ
  pub get_contract_events : Text → ℕ → ℕ → Option (List (Option ℕ))

pub record AgentRegistration : Type 0 where
  pub agent_id : ℕ
  pub hash : Text

pub record ResolvedAgent : Type 0 where
  pub agent_uri : Text
  pub wallet : Text

-- `write` is the answer of `writeContract` to the call of `register`.
unfoldable pub register_agent :
    RegistryClient → (Text → Option Text) → Text → Result IdentityError AgentRegistration
register_agent client write metadata_uri = do
  hash ← or_rejected (write metadata_uri)
  events ← or_rejected (client.registered_in hash)
  elim events [
    | [] ↦ err (no_registered_event hash client.registry)
    | first ∷ _ ↦ ok (record { agent_id = first; hash = hash })
  ]

-- The arguments of the contract's `setAgentWallet`.
pub record AgentWalletCall : Type 0 where
  pub agent_id : ℕ
  pub new_wallet : Text
  pub deadline : ℕ
  pub signature : Text

-- `write` is the answer of `writeContract` to that call.
unfoldable pub set_agent_wallet :
    (AgentWalletCall → Option Text) → AgentWalletCall → Result IdentityError Text
set_agent_wallet write call = or_rejected (write call)

unfoldable pub resolve_agent : RegistryClient → ℕ → Result IdentityError ResolvedAgent
resolve_agent client agent_id = do
  uri ← or_rejected (client.token_uri agent_id)
  wallet ← or_rejected (client.get_agent_wallet agent_id)
  ok (record { agent_uri = uri; wallet = wallet })

-- The ids that the logs carry.
pub ids_of : List (Option ℕ) → List ℕ
ids_of [] = []
ids_of (none ∷ logs) = ids_of logs
ids_of (some id ∷ logs) = id ∷ ids_of logs

-- The `for` loop over the cursor.
scan_chunks : ℕ → RegistryClient → Text → ℕ → ℕ → List ℕ → Result IdentityError (List ℕ)
unfolding ids_of
scan_chunks zero client owner latest cursor ids = err out_of_fuel
scan_chunks (suc fuel) client owner latest cursor ids =
    let last = chunk_end cursor latest in
    let chunk = or_rejected (client.get_contract_events owner cursor last) >>= λ logs.
    let ids' = ids ++ ids_of logs in
    let more = scan_chunks fuel client owner latest (last + 1) ids' in
    if last == latest then ok ids' else more in
    if leb cursor latest then chunk else ok ids

abbrev pub or_zero : Option ℕ → ℕ
or_zero none = 0
or_zero (some b) = b

-- One round for each block is more than enough.
unfoldable pub find_agents_by_owner :
    RegistryClient → Text → Option ℕ → Result IdentityError (List ℕ)
unfolding scan_chunks
find_agents_by_owner client owner from_block = do
  balance ← or_rejected (client.balance_of owner)
  let scan = or_rejected client.get_block_number >>= λ latest.
      scan_chunks (latest + 2) client owner latest (or_zero from_block) []
  if balance == 0 then ok [] else scan
