-- ===== src/Ens/Agents.antt =====
-- The way from a name to the agents of its wallet, on the blocks of the chain.
use coalition.Base.{
  ℕ, ◌+◌, ◌-◌, ◌≡◌, Option, none, some, List, [], Text, ◌==◌, if◌then◌else◌, ok, inr,
}
use coalition.Blocks.{logs_of}
use coalition.Identity.{RegistryClient, ids_of, or_zero}
use coalition.Identity.Scan.{Serves, find_agents_by_owner-logs_of}
use coalition.Ens.{
  EnsClient, or_coin_type, normalized_name, resolve_arc_wallet, resolve_ens_to_agents,
}

module _ (client : EnsClient) (registry : RegistryClient) (raw name : Text)
    (normal : client.normalize raw ≡ some name) (coin_type from_block : Option ℕ) where
  arc_wallet_of :
      (read : Option Text)
      → client.get_ens_address name (or_coin_type coin_type) none ≡ some read
      → resolve_arc_wallet client raw coin_type none ≡ ok read
  unfolding resolve_arc_wallet normalized_name
  arc_wallet_of read h = rw (normal, h)

  -- On an endpoint that serves ranges of at most 10,001 blocks, where the balance and the latest
  -- block are read, a name whose normal form has a record for the coin type resolves to the wallet
  -- of the record and to the agents that the registry's logs from the start block to the latest
  -- give to that wallet, each log once; where the wallet owns none, to no agent.
  pub resolve_ens_to_agents-logs_of :
      (wallet : Text) (emitted : ℕ → List (Option ℕ)) (latest balance : ℕ)
      → client.get_ens_address name (or_coin_type coin_type) none ≡ some (some wallet)
      → Serves registry wallet emitted latest
      → registry.balance_of wallet ≡ some balance
      → registry.get_block_number ≡ some latest
      → resolve_ens_to_agents client registry raw coin_type from_block
        ≡ ok (
            some (record {
              arc_wallet = wallet;
              agent_ids =
                  if balance == 0
                  then []
                  else ids_of
                      (logs_of emitted (or_zero from_block) (latest + 1 - or_zero from_block));
            }))
  unfolding resolve_ens_to_agents
  resolve_ens_to_agents-logs_of wallet emitted latest balance recorded serves owned block = rw (
    arc_wallet_of (some wallet) recorded,
    find_agents_by_owner-logs_of registry wallet emitted latest balance from_block owned
        (inr (block, serves)),
  )
