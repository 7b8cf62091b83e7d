-- ===== src/Dashboard/Reads.antt =====
-- Where the readout of the pool comes from, and what the funding route makes of a silent chain.
use coalition.Base.{
  ◌≡◌, ◌⊎◌, refl, inl, inr, Option, none, some, List, [], Text, text, Result, ok, err,
}
use coalition.Base.Decimal.{to_string}
use coalition.Graph.{GraphClient, PoolFill}
use coalition.Pool.{PoolState}
use coalition.Dashboard.{
  PoolSource, PoolReadout, Sources, zero_view, view_of, limited, read_chain_state, graph_client,
  subgraph_fill, from_fill, from_chain, chain_readout, after_subgraph, with_client, read_pool_state,
}

module _ (sources : Sources) where
  -- The chain, read for want of the subgraph.
  abbrev pub chain_answer : Result Text PoolState
  chain_answer = limited sources (read_chain_state sources) 30_000 (text "chain getPoolState")

  -- The subgraph is not configured, or its answer is refused.
  abbrev pub HasNoFill : Type 0
  HasNoFill =
      (graph_client sources ≡ none)
      ⊎ ((client : GraphClient) × (e : Text) × (graph_client sources ≡ some client)
          × (subgraph_fill sources client ≡ err e))

  abbrev pub ShowsFill : PoolReadout → Type 0
  ShowsFill readout =
      (client : GraphClient) × (fill : PoolFill) × (graph_client sources ≡ some client)
      × (subgraph_fill sources client ≡ ok fill)
      × (readout.source ≡ PoolSource.subgraph)
      × (readout.view.target ≡ to_string fill.target)
      × (readout.view.total_committed ≡ to_string fill.total_committed)
      × (readout.view.settled ≡ fill.settled)
      × (readout.view.participant_count ≡ to_string fill.participant_count)

  abbrev pub ShowsChain : PoolReadout → Type 0
  ShowsChain readout =
      HasNoFill
      × ((state : PoolState) × (chain_answer ≡ ok state)
          × (readout.source ≡ PoolSource.chain)
          × (readout.view ≡ view_of state))

  abbrev pub ShowsZero : PoolReadout → Type 0
  ShowsZero readout =
      HasNoFill
      × ((e : Text) × (chain_answer ≡ err e)
          × (readout.source ≡ PoolSource.fallback)
          × (readout.view ≡ zero_view))

  abbrev pub Shows : PoolReadout → Type 0
  Shows readout = ShowsFill readout ⊎ (ShowsChain readout ⊎ ShowsZero readout)

  from_chain-Shows :
      (notes : List Text) (answer : Result Text PoolState)
      → HasNoFill
      → chain_answer ≡ answer
      → Shows (from_chain sources notes answer)
  unfolding from_chain
  from_chain-Shows notes (ok state) h e = inr (inl (h, (state, e, refl, refl)))
  from_chain-Shows notes (err message) h e = inr (inr (h, (message, e, refl, refl)))

  after_subgraph-Shows :
      (client : GraphClient) (answer : Result Text PoolFill)
      → graph_client sources ≡ some client
      → subgraph_fill sources client ≡ answer
      → Shows (after_subgraph sources answer)
  unfolding after_subgraph chain_readout from_fill
  after_subgraph-Shows client (ok fill) c e = inl (client, fill, c, e, refl, refl, refl, refl, refl)
  after_subgraph-Shows client (err message) c e =
      from_chain-Shows _ chain_answer (inr (client, message, c, e)) refl

  with_client-Shows :
      (client : Option GraphClient)
      → graph_client sources ≡ client
      → Shows (with_client sources client)
  unfolding with_client chain_readout
  with_client-Shows none c = from_chain-Shows [] chain_answer (inl c) refl
  with_client-Shows (some client) c =
      after_subgraph-Shows client (subgraph_fill sources client) c refl

  -- The readout of the pool shows the subgraph's fill where it is configured and answers; else the
  -- chain's state, where the retried reads succeed; and else the zeroed view. It says which.
  pub read_pool_state-Shows : Shows (read_pool_state sources)
  unfolding read_pool_state
  read_pool_state-Shows = with_client-Shows (graph_client sources) refl

  from_chain_unread :
      (notes : List Text) (answer : Result Text PoolState) (e : Text)
      → answer ≡ err e
      → (from_chain sources notes answer).view ≡ zero_view
  unfolding from_chain
  from_chain_unread notes (ok state) e h = cc
  from_chain_unread notes (err message) e h = refl

  pub read_pool_state_unread :
      (e : Text) → HasNoFill → chain_answer ≡ err e → (read_pool_state sources).view ≡ zero_view
  unfolding read_pool_state with_client chain_readout after_subgraph
  read_pool_state_unread e (inl absent) h = rw absent (from_chain_unread [] chain_answer e h)
  read_pool_state_unread e (inr (client, message, c, refused)) h =
      rw (c, refused) (from_chain_unread _ chain_answer e h)
