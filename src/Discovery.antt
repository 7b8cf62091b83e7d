-- ===== src/Discovery.antt =====
-- sdk/src/discovery/client.ts: where candidate pools come from, and how each is enriched. The chain
-- clients, the subgraph's answers and the ENS probe are parameters.
mod Dedupe
pub mod Unique
pub mod Pools
pub mod Reads
pub mod Found
mod Tests
unfoldable pub use Dedupe.*
use coalition.Base.{
  ℕ, Bool, true, false, not, ◌&&◌, ◌||◌, Option, none, some, List, [], ◌∷◌, Text, text, is_empty,
  ltb, leb, if◌then◌else◌, address_pattern, uint_pattern, to_lower_case, trim, split, Result, ok,
  err, ◌>>=◌, ◌>>◌, throw_if, ℤ, pos, leb_ℤ,
}
use coalition.Base.Decimal.{to_string}
use coalition.Json.{
  Json, Number, integer, fractional, string, array, get, get_from, is_record, to_list, Fetched,
  rejected, response, is_ok_status,
}
use coalition.Graph.{GraphClient, PoolFill, present}
use mathlib.Core.Option
use coalition.Pool.{
  PublicClient, PoolState, get_pool_state, get_pool_metadata, get_current_round_id,
}

pub data PoolDiscoveryError : Type 0 where
  not_an_address fallback_not_an_address : Text → PoolDiscoveryError
  first_not_positive chain_id_not_positive : Number → PoolDiscoveryError
  scan_failed : Text → PoolDiscoveryError
  scan_status : ℕ → PoolDiscoveryError
  bad_json scan_errors data_not_object pools_not_array : PoolDiscoveryError

-- The loop over the comma-separated parts, with the keys seen and the addresses kept so far.
parse_parts : Seen Text → List Text → Result PoolDiscoveryError (List Text)
parse_parts s [] = ok s.out
parse_parts s (part ∷ parts) =
    let trimmed = trim part in
    let skipped = parse_parts s parts in
    let kept = parse_parts (push to_lower_case trimmed s) parts in
    if is_empty trimmed
    then skipped
    else if not (address_pattern trimmed)
    then err (not_an_address trimmed)
    else kept

unfoldable pub parse_pool_address_list : Option Text → Result PoolDiscoveryError (List Text)
unfolding parse_parts
parse_pool_address_list none = ok []
parse_pool_address_list (some value) =
    if is_empty (trim value) then ok [] else parse_parts nothing_seen (split b',' value)

-- `PoolDiscoverySource`
pub data PoolDiscoverySource : Type 0 where
  explicit subgraph singleton : PoolDiscoverySource

pub record PoolCandidate : Type 0 where
  pub pool : Text
  pub source : PoolDiscoverySource

abbrev pub candidate_key : PoolCandidate → Text
candidate_key c = to_lower_case c.pool

abbrev pub from_source : PoolDiscoverySource → Text → PoolCandidate
from_source source pool = record { pool = pool; source = source }

-- `for (const pool of pools) push(pool, source)`
push_each : PoolDiscoverySource → List Text → Seen PoolCandidate → Seen PoolCandidate
push_each source [] s = s
push_each source (pool ∷ pools) s =
    push_each source pools (push candidate_key (from_source source pool) s)

or_none : Option (List Text) → List Text
or_none none = []
or_none (some pools) = pools

push_fallback : Option Text → Seen PoolCandidate → Seen PoolCandidate
push_fallback none s = s
push_fallback (some pool) s =
    if is_nil s.out then push candidate_key (from_source singleton pool) s else s

unfoldable pub collect_pool_candidates :
    Option Text → Option (List Text) → Option (List Text) → List PoolCandidate
unfolding push_each or_none push_fallback
collect_pool_candidates fallback_pool extra_pools subgraph_pools =
    let s = push_each explicit (or_none extra_pools) nothing_seen in
    let s' = push_each subgraph (or_none subgraph_pools) s in (push_fallback fallback_pool s').out

-- `Number.isInteger(n) && n >= 1`
abbrev pub is_positive_integer : Number → Bool
is_positive_integer (integer n) = leb_ℤ (pos 1) n
is_positive_integer fractional = false

-- The loop over the `pools` array: malformed entries are skipped.
scan_entries : Seen Text → List Json → Seen Text
scan_entries s [] = s
scan_entries s (entry ∷ entries) = elim (get "id" entry) [
  | some (string id) ↦
      scan_entries (if address_pattern id then push to_lower_case id s else s) entries
  | _ ↦ scan_entries s entries
]

narrow_pools : Option Json → Result PoolDiscoveryError (List Text)
unfolding scan_entries
narrow_pools none = err bad_json
narrow_pools (some body) = do
  throw_if (not (is_record (some body)) || present (get "errors" body)) scan_errors
  throw_if (not (is_record (get "data" body))) data_not_object
  elim (get_from "pools" (get "data" body)) [
    | some (array items) ↦ ok (scan_entries nothing_seen (to_list items)).out
    | _ ↦ err pools_not_array
  ]

-- What `fetch` answers to the `ListPools` query of a client, for its `first` variable.
unfoldable pub list_subgraph_pools :
    (GraphClient → Number → Fetched) → GraphClient → Number → Result PoolDiscoveryError (List Text)
unfolding narrow_pools
list_subgraph_pools fetch client first = do
  throw_if (not (is_positive_integer first)) (first_not_positive first)
  elim (fetch client first) [
    | rejected ↦ err (scan_failed client.endpoint)
    | response status body ↦
        if is_ok_status status then narrow_pools body else err (scan_status status)
  ]

-- The clients that discovery reads through. `fill` is `getPoolFill` over the graph client, where
-- there is one; its failure is caught and reads as `none`.
pub record Sources : Type 0 where
  pub chain : PublicClient
  pub fill : Option (Text → Option PoolFill)
  pub scan : Option (Number → Result PoolDiscoveryError (List Text))

-- `DiscoveredPool`
pub record DiscoveredPool : Type 0 where
  pub pool : Text
  pub chain_id : Number
  pub resource_uri : Text
  pub target : Text
  pub total_committed : Text
  pub settled : Bool
  pub round_id : Text
  pub source : PoolDiscoverySource
  pub ens_parent : Text

-- The target, the committed total and the settled flag: from the subgraph, or else from the chain.
graph_fill : Option (Text → Option PoolFill) → Text → Option PoolFill
graph_fill none pool = none
graph_fill (some read) pool = read pool

pub snapshot : Sources → Text → Option (ℕ × ℕ × Bool)
unfolding graph_fill
snapshot sources pool = elim (graph_fill sources.fill pool) [
  | some fill ↦ some (fill.target, fill.total_committed, fill.settled)
  | none ↦
      Option.map (λ (s : PoolState). (s.target, s.total_committed, s.settled))
        (get_pool_state sources.chain pool)
]

-- `live.toString()` of a round id, or "0" where there is none.
pub round_id_text : Option ℕ → Text
round_id_text none = text "0"
round_id_text (some live) = if uint_pattern (to_string live) then to_string live else text "0"

enrich : Sources → Number → Text → PoolCandidate → Option DiscoveredPool
unfolding snapshot round_id_text
enrich sources chain_id ens_parent candidate =
    elim (get_pool_metadata sources.chain candidate.pool) [
      | none ↦ none
      | some metadata ↦ elim (snapshot sources candidate.pool) [
        | none ↦ none
        | some (target, total, settled) ↦ some (record {
          pool = candidate.pool;
          chain_id = chain_id;
          resource_uri = metadata.resource_uri;
          target = to_string target;
          total_committed = to_string total;
          settled = settled;
          round_id = round_id_text (get_current_round_id sources.chain candidate.pool);
          source = candidate.source;
          ens_parent = ens_parent;
        })
      ]
    ]

-- `checkedChainId`
checked_chain_id : Number → Result PoolDiscoveryError Number
checked_chain_id chain_id =
    if is_positive_integer chain_id then ok chain_id else err (chain_id_not_positive chain_id)

-- `none` is the `null` of an unreadable pool.
unfoldable pub enrich_pool :
    Sources → Number → Text → PoolCandidate → Result PoolDiscoveryError (Option DiscoveredPool)
unfolding enrich checked_chain_id
enrich_pool sources chain_id ens_parent candidate = do
  checked ← checked_chain_id chain_id
  ok (enrich sources checked ens_parent candidate)

-- The loop over the candidates.
enrich_each :
    Sources → Number → Text → List PoolCandidate → Result PoolDiscoveryError (List DiscoveredPool)
unfolding enrich_pool
enrich_each sources chain_id ens_parent [] = ok []
enrich_each sources chain_id ens_parent (c ∷ cs) =
    let rest = enrich_each sources chain_id ens_parent cs in
    enrich_pool sources chain_id ens_parent c >>= λ enriched.
    rest >>= λ found. ok (elim enriched [ none ↦ found | some pool ↦ pool ∷ found ])

-- The subgraph scan, whose errors leave no subgraph candidates.
pub scanned : Sources → Number → List Text
scanned sources first = elim sources.scan [
  | none ↦ []
  | some scan ↦ elim (scan first) [ ok pools ↦ pools | err _ ↦ [] ]
]

fallback_checked : Option Text → Result PoolDiscoveryError (Unit {0})
fallback_checked none = ok tt
fallback_checked (some pool) = throw_if (not (address_pattern pool)) (fallback_not_an_address pool)

pub record DiscoverPoolsParams : Type 0 where
  pub chain_id : Number
  pub fallback_pool : Option Text
  pub extra_pools : Option (List Text)
  pub subgraph_first : Number
  pub ens_parent_name : Text

-- The ENS probe is left out: its result and its failure are both dropped.
unfoldable pub discover_pools :
    Sources → DiscoverPoolsParams → Result PoolDiscoveryError (List DiscoveredPool)
unfolding checked_chain_id fallback_checked scanned enrich_each
discover_pools sources params = do
  chain_id ← checked_chain_id params.chain_id
  fallback_checked params.fallback_pool
  let subgraph_pools = scanned sources params.subgraph_first
  enrich_each sources chain_id params.ens_parent_name
      (collect_pool_candidates params.fallback_pool params.extra_pools (some subgraph_pools))
