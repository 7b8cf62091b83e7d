-- ===== src/Discovery/Reads.antt =====
-- sdk/src/discovery/client.ts: what the scan, the graph client and the chain answer for a candidate.
use mathlib.Core.Path.{subst}
use coalition.Base.{
  ℕ, ◌≡◌, ◌⊎◌, refl, sym, ap, ◌∙◌, inl, inr, Bool, Option, none, some, List, [], ◌∷◌, Text, text,
  Result, ok, err, Option-cases, Result-cases,
}
use coalition.Base.Decimal.{to_string}
use coalition.Base.Decimal.Laws.{uint_pattern-to_string}
use coalition.Json.{Number}
use coalition.Graph.{PoolFill}
use coalition.Pool.{
  PoolState, PoolMetadata, get_pool_state, get_pool_metadata, get_current_round_id,
}
use coalition.Discovery.{
  PoolDiscoveryError, PoolCandidate, Sources, DiscoveredPool, snapshot, graph_fill, round_id_text,
  scanned,
}

-- The pools that the scan contributes.
pub data ScanGives (sources : Sources) (first : Number) : List Text → Type 0 where
  no_scan : sources.scan ≡ none → ScanGives sources first []
  failed_scan :
      (scan : Number → Result PoolDiscoveryError (List Text)) (e : PoolDiscoveryError)
      → sources.scan ≡ some scan
      → scan first ≡ err e
      → ScanGives sources first []
  answered_scan :
      (scan : Number → Result PoolDiscoveryError (List Text)) (pools : List Text)
      → sources.scan ≡ some scan
      → scan first ≡ ok pools
      → ScanGives sources first pools

pub scanned-ScanGives :
    (sources : Sources) (first : Number) → ScanGives sources first (scanned sources first)
unfolding scanned
scanned-ScanGives sources first = elim (Option-cases sources.scan) [
  | inl unset ↦
      let e : scanned sources first ≡ [] = rw unset refl in
      subst (ScanGives sources first) (sym e) (no_scan unset)
  | inr (scan, set) ↦ elim (Result-cases (scan first)) [
    | inl (pools, good) ↦
        let e : scanned sources first ≡ pools = rw set (rw good refl) in
        subst (ScanGives sources first) (sym e) (answered_scan scan pools set good)
    | inr (thrown, bad) ↦
        let e : scanned sources first ≡ [] = rw set (rw bad refl) in
        subst (ScanGives sources first) (sym e) (failed_scan scan thrown set bad)
  ]
]

module _ (sources : Sources) (pool : Text) where
  -- There is no graph client, or it has no fill of the pool.
  abbrev pub HasNoFill : Type 0
  HasNoFill =
      (sources.fill ≡ none)
      ⊎ ((read : Text → Option PoolFill) × (sources.fill ≡ some read) × (read pool ≡ none))

  -- Where the target, the committed total and the settled flag come from: the subgraph's fill, and the
  -- pool's state on the chain only where there is none.
  pub data IsSnapshot : ℕ → ℕ → Bool → Type 0 where
    from_graph :
        (read : Text → Option PoolFill) (fill : PoolFill)
        → sources.fill ≡ some read
        → read pool ≡ some fill
        → IsSnapshot fill.target fill.total_committed fill.settled
    from_chain :
        (state : PoolState)
        → HasNoFill
        → get_pool_state sources.chain pool ≡ some state
        → IsSnapshot state.target state.total_committed state.settled

  -- The decimal text of the chain's current round, and "0" for a pool without one.
  pub data IsRoundId : Text → Type 0 where
    live_round :
        (live : ℕ)
        → get_current_round_id sources.chain pool ≡ some live
        → IsRoundId (to_string live)
    no_rounds : get_current_round_id sources.chain pool ≡ none → IsRoundId (text "0")

-- A candidate is enriched from the pool's metadata, its snapshot and its round.
pub record IsEnriched (sources : Sources) (chain_id : Number) (parent : Text) (c : PoolCandidate)
    (found : DiscoveredPool) : Type 0 where
  pub is_pool : found.pool ≡ c.pool
  pub has_source : found.source ≡ c.source
  pub on_chain : found.chain_id ≡ chain_id
  pub under : found.ens_parent ≡ parent
  pub metadata : PoolMetadata
  pub has_metadata : get_pool_metadata sources.chain c.pool ≡ some metadata
  pub has_uri : found.resource_uri ≡ metadata.resource_uri
  pub target : ℕ
  pub total : ℕ
  pub snapshot_is : IsSnapshot sources c.pool target total found.settled
  pub has_target : found.target ≡ to_string target
  pub has_total : found.total_committed ≡ to_string total
  pub has_round : IsRoundId sources c.pool found.round_id

-- The metadata is missing, or the snapshot is.
abbrev pub IsUnreadable : Sources → PoolCandidate → Type 0
IsUnreadable sources c =
    (get_pool_metadata sources.chain c.pool ≡ none)
    ⊎ (HasNoFill sources c.pool × (get_pool_state sources.chain c.pool ≡ none))

-- The candidates that can be read are listed in their order, and the others left out.
pub data Lists (sources : Sources) (chain_id : Number) (parent : Text)
    : List PoolCandidate → List DiscoveredPool → Type 0 where
  nothing : Lists sources chain_id parent [] []
  listed :
      {c : PoolCandidate} {found : DiscoveredPool} {cs : List PoolCandidate}
      {pools : List DiscoveredPool}
      → IsEnriched sources chain_id parent c found
      → Lists sources chain_id parent cs pools
      → Lists sources chain_id parent (c ∷ cs) (found ∷ pools)
  left_out :
      {c : PoolCandidate} {cs : List PoolCandidate} {pools : List DiscoveredPool}
      → IsUnreadable sources c
      → Lists sources chain_id parent cs pools
      → Lists sources chain_id parent (c ∷ cs) pools

-- The snapshot that the code reads, or that there is none.
abbrev pub SnapshotIs : Sources → Text → Option (ℕ × ℕ × Bool) → Type 0
SnapshotIs sources pool none = HasNoFill sources pool × (get_pool_state sources.chain pool ≡ none)
SnapshotIs sources pool (some (target, total, settled)) =
    IsSnapshot sources pool target total settled

module _ (sources : Sources) (pool : Text) where
  graph_fill_cases :
      ((read : Text → Option PoolFill) × (fill : PoolFill) × (sources.fill ≡ some read)
        × (read pool ≡ some fill)
        × (graph_fill sources.fill pool ≡ some fill))
      ⊎ (HasNoFill sources pool × (graph_fill sources.fill pool ≡ none))
  unfolding graph_fill
  graph_fill_cases = elim (Option-cases sources.fill) [
    | inl unset ↦ inr (inl unset, ap (λ f. graph_fill f pool) unset)
    | inr (read, set) ↦ elim (Option-cases (read pool)) [
      | inl unread ↦ inr (inr (read, set, unread), ap (λ f. graph_fill f pool) set ∙ unread)
      | inr (fill, shown) ↦ inl (read, fill, set, shown, ap (λ f. graph_fill f pool) set ∙ shown)
    ]
  ]

  pub snapshot-SnapshotIs : SnapshotIs sources pool (snapshot sources pool)
  unfolding snapshot
  snapshot-SnapshotIs = elim graph_fill_cases [
    | inl (read, fill, set, shown, e) ↦
        let e' : snapshot sources pool ≡ some (fill.target, fill.total_committed, fill.settled) =
          rw (e, snapshot) refl in
        subst (SnapshotIs sources pool) (sym e') (from_graph read fill set shown)
    | inr (unfilled, e) ↦ elim (Option-cases (get_pool_state sources.chain pool)) [
      | inl unread ↦
          let e' : snapshot sources pool ≡ none = rw (e, unread, snapshot) refl in
          subst (SnapshotIs sources pool) (sym e') (unfilled, unread)
      | inr (state, shown) ↦
          let e' : snapshot sources pool
              ≡ some (state.target, state.total_committed, state.settled) =
            rw (e, shown, snapshot) refl in
          subst (SnapshotIs sources pool) (sym e') (from_chain state unfilled shown)
    ]
  ]

  pub round_id_text-IsRoundId :
      IsRoundId sources pool (round_id_text (get_current_round_id sources.chain pool))
  unfolding round_id_text
  round_id_text-IsRoundId = elim (Option-cases (get_current_round_id sources.chain pool)) [
    | inl unset ↦ rw unset (no_rounds unset)
    | inr (live, set) ↦ rw (set, uint_pattern-to_string live) (live_round live set)
  ]
