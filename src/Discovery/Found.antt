-- ===== src/Discovery/Found.antt =====
-- sdk/src/discovery/client.ts: what `discoverPools` returns, against what its sources answer.
use mathlib.Core.Path.{subst}
use coalition.Base.{
  ℕ, ◌≡◌, refl, sym, ap, ◌∙◌, inl, inr, Bool, true, Option, none, some, List, [], ◌∷◌, Text,
  if◌then◌else◌, address_pattern, Result, ok, Option-cases, ◌>>=◌,
}
use coalition.Base.Decimal.{to_string}
use coalition.Json.{Number}
use coalition.Pool.{PoolMetadata, get_pool_metadata, get_current_round_id}
use coalition.Discovery.{
  is_nil, PoolDiscoveryError, PoolCandidate, collect_pool_candidates, Sources, DiscoveredPool,
  DiscoverPoolsParams, snapshot, round_id_text, enrich, enrich_pool, enrich_each, checked_chain_id,
  is_positive_integer, fallback_checked, scanned, discover_pools,
}
use coalition.Discovery.Reads.{
  ScanGives, scanned-ScanGives, SnapshotIs, snapshot-SnapshotIs, round_id_text-IsRoundId,
  IsEnriched, IsUnreadable, Lists, nothing, listed, left_out,
}
use coalition.Discovery.Pools.{merged, fallback_candidates, collect_lem}

module _ (sources : Sources) (chain_id : Number) (parent : Text) where
  -- What the code makes of a candidate.
  abbrev EnrichmentIs : PoolCandidate → Option DiscoveredPool → Type 0
  EnrichmentIs c none = IsUnreadable sources c
  EnrichmentIs c (some found) = IsEnriched sources chain_id parent c found

  enriched_from :
      (c : PoolCandidate) (metadata : PoolMetadata) (shown : Option (ℕ × ℕ × Bool))
      → get_pool_metadata sources.chain c.pool ≡ some metadata
      → snapshot sources c.pool ≡ shown
      → SnapshotIs sources c.pool shown
      → EnrichmentIs c (enrich sources chain_id parent c)
  unfolding enrich
  enriched_from c metadata none m e h =
      let same : enrich sources chain_id parent c ≡ none = rw (m, e, enrich) refl in
      subst (EnrichmentIs c) (sym same) (inr h)
  enriched_from c metadata (some (target, total, settled)) m e h =
      let found : DiscoveredPool = record {
        pool = c.pool;
        chain_id = chain_id;
        resource_uri = metadata.resource_uri;
        target = to_string target;
        total_committed = to_string total;
        settled = settled;
        round_id = round_id_text (get_current_round_id sources.chain c.pool);
        source = c.source;
        ens_parent = parent;
      } in
      let same : enrich sources chain_id parent c ≡ some found = rw (m, e, enrich) refl in
      subst (EnrichmentIs c) (sym same) (record {
        is_pool = refl;
        has_source = refl;
        on_chain = refl;
        under = refl;
        metadata = metadata;
        has_metadata = m;
        has_uri = refl;
        target = target;
        total = total;
        snapshot_is = h;
        has_target = refl;
        has_total = refl;
        has_round = round_id_text-IsRoundId sources c.pool;
      })

  enrich-EnrichmentIs : (c : PoolCandidate) → EnrichmentIs c (enrich sources chain_id parent c)
  unfolding enrich
  enrich-EnrichmentIs c = elim (Option-cases (get_pool_metadata sources.chain c.pool)) [
    | inl unread ↦
        let same : enrich sources chain_id parent c ≡ none = rw (unread, enrich) refl in
        subst (EnrichmentIs c) (sym same) (inl unread)
    | inr (metadata, m) ↦
        enriched_from c metadata (snapshot sources c.pool) m refl
          (snapshot-SnapshotIs sources c.pool)
  ]

  -- What the loop returns for the candidates.
  abbrev pub Finds : List PoolCandidate → Result PoolDiscoveryError (List DiscoveredPool) → Type 0
  Finds cs result =
      (found : List DiscoveredPool) × (result ≡ ok found) × Lists sources chain_id parent cs found

  one_more :
      (c : PoolCandidate) (cs : List PoolCandidate) (enriched : Option DiscoveredPool)
      (rest : Result PoolDiscoveryError (List DiscoveredPool))
      → EnrichmentIs c enriched
      → Finds cs rest
      → Finds
          (c ∷ cs)
          (rest >>= λ found. ok (elim enriched [ none ↦ found | some pool ↦ pool ∷ found ]))
  one_more c cs none rest h (found, e, all) = (found, rw e refl, left_out h all)
  one_more c cs (some pool) rest h (found, e, all) = (pool ∷ found, rw e refl, listed h all)

  enrich_each-Finds :
      (cs : List PoolCandidate)
      → is_positive_integer chain_id ≡ true
      → Finds cs (enrich_each sources chain_id parent cs)
  unfolding enrich_each enrich_pool checked_chain_id
  enrich_each-Finds [] h = ([], refl, nothing)
  enrich_each-Finds (c ∷ cs) h = rw h (
      one_more c cs (enrich sources chain_id parent c) (enrich_each sources chain_id parent cs)
        (enrich-EnrichmentIs c) (enrich_each-Finds cs h))

abbrev pub FallbackIsAddress : Option Text → Type 0
FallbackIsAddress none = Unit
FallbackIsAddress (some pool) = address_pattern pool ≡ true

fallback_passes :
    (fallback : Option Text) → FallbackIsAddress fallback → fallback_checked fallback ≡ ok tt
unfolding fallback_checked
fallback_passes none h = refl
fallback_passes (some pool) h = rw h

-- The explicit pools and those of the scan, each once, or else the fallback.
abbrev pub candidates_of : Option Text → List Text → List Text → List PoolCandidate
candidates_of fallback extra scan =
    if is_nil (merged extra scan) then fallback_candidates fallback else merged extra scan

-- With a positive chain id and no malformed fallback, discovery returns a list, whatever the chain, the
-- subgraph and the scan answer. The candidates are the explicit pools and then those of the scan,
-- of which there are none where there is no scan or it fails, or else the fallback. Those whose
-- metadata and snapshot are answered are listed in their order, each with these answers, where the
-- chain's state counts only if the subgraph has no fill, and with the chain's current round or
-- "0"; the others are left out.
pub discover_pools-Lists :
    (sources : Sources) (params : DiscoverPoolsParams) (extra : List Text)
    → is_positive_integer params.chain_id ≡ true
    → FallbackIsAddress params.fallback_pool
    → params.extra_pools ≡ some extra
    → (scan : List Text) × (found : List DiscoveredPool) × ScanGives sources params.subgraph_first
        scan
      × (discover_pools sources params ≡ ok found)
      × Lists sources params.chain_id params.ens_parent_name
          (candidates_of params.fallback_pool extra scan)
          found
unfolding discover_pools checked_chain_id
discover_pools-Lists sources params extra h k given =
    let scan = scanned sources params.subgraph_first in
    let cs = candidates_of params.fallback_pool extra scan in
    let (found, e, all) = enrich_each-Finds sources params.chain_id params.ens_parent_name cs h in
    let collected : collect_pool_candidates params.fallback_pool params.extra_pools (some scan)
        ≡ cs =
      ap (λ o. collect_pool_candidates params.fallback_pool o (some scan)) given
      ∙ collect_lem params.fallback_pool extra scan in
    (
      scan,
      found,
      scanned-ScanGives sources params.subgraph_first,
      rw (h, fallback_passes params.fallback_pool k, collected) e,
      all,
    )
