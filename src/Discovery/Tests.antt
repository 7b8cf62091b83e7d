-- ===== src/Discovery/Tests.antt =====
-- Pool discovery on short lists.
use coalition.Base.{
  ◌≡◌, refl, false, none, some, List, [], ◌∷◌, pos, Text, uint_pattern, text, text_eq, trim, split,
  address_pattern, to_lower_case, is_empty, ok, err, if◌then◌else◌,
}
use coalition.Json.{integer}
use coalition.Base.Decimal.{to_string}
use coalition.Pool.{PublicClient, get_pool_metadata, get_pool_state, get_current_round_id}
use coalition.Discovery.{
  has, is_nil, push, not_an_address, parse_pool_address_list, explicit, subgraph, from_source,
  candidate_key, collect_pool_candidates, Sources, DiscoverPoolsParams, discover_pools,
  DiscoveredPool, scan_status,
}
use coalition.Discovery.Unique.{HasKeysOutside}
use coalition.Discovery.Reads.{ScanGives, Lists}
use coalition.Discovery.Found.{candidates_of, discover_pools-Lists}
use coalition.Discovery.Pools.{merged, fallback_candidates, collect_pool_candidates-merged}

abbrev given : Text
given =
    text " 0xC6f9A1559f9a02755aC7Ba4865C558B0ed46B4fd,,0xc6f9a1559f9a02755ac7ba4865c558b0ed46b4fd "

one_pool :
    parse_pool_address_list (some given)
    ≡ ok (text "0xC6f9A1559f9a02755aC7Ba4865C558B0ed46B4fd" ∷ [])
unfolding parse_pool_address_list push has trim split text address_pattern to_lower_case text_eq
one_pool = refl

malformed : parse_pool_address_list (some (text "a, b")) ≡ err (not_an_address (text "a"))
unfolding parse_pool_address_list push has trim split text address_pattern
malformed = refl

given_nonblank : is_empty (trim given) ≡ false
unfolding trim text
given_nonblank = refl

two_pools :
    collect_pool_candidates
      (some (text "f"))
      (some (text "A" ∷ []))
      (some (text "a" ∷ text "b" ∷ []))
    ≡ from_source explicit (text "A") ∷ from_source subgraph (text "b") ∷ []
unfolding collect_pool_candidates push has text text_eq to_lower_case
two_pools = refl

collect_pool_candidates-merged_example :
    (collect_pool_candidates (some (text "f")) (some (text "A" ∷ [])) (some (text "a" ∷ [])) ≡ (
      if is_nil (merged (text "A" ∷ []) (text "a" ∷ []))
      then fallback_candidates (some (text "f"))
      else merged (text "A" ∷ []) (text "a" ∷ [])))
    × HasKeysOutside candidate_key []
        (collect_pool_candidates (some (text "f")) (some (text "A" ∷ [])) (some (text "a" ∷ [])))
collect_pool_candidates-merged_example =
    collect_pool_candidates-merged (some (text "f")) (text "A" ∷ []) (text "a" ∷ [])

-- A chain with one pool, "A", in its fifth round.
abbrev chain : PublicClient
chain = record {
  read_uint = λ pool view. if text_eq pool (text "A") then some 5 else none;
  read_bool = λ pool view. if text_eq pool (text "A") then some false else none;
  read_resource_uri = λ pool. if text_eq pool (text "A") then some (text "u") else none;
  read_round = λ _ _. none;
}

-- No graph client, and a scan that fails.
abbrev sources : Sources
sources = record { chain = chain; fill = none; scan = some (λ first. err (scan_status 500)) }

abbrev params : DiscoverPoolsParams
params = record {
  chain_id = integer (pos 5042002);
  fallback_pool = none;
  extra_pools = some (text "B" ∷ text "A" ∷ []);
  subgraph_first = integer (pos 50);
  ens_parent_name = text "agentpool.eth";
}

one_readable :
    discover_pools sources params
    ≡ ok (
        record {
          pool = text "A";
          chain_id = integer (pos 5042002);
          resource_uri = text "u";
          target = text "5";
          total_committed = text "5";
          settled = false;
          round_id = text "5";
          source = explicit;
          ens_parent = text "agentpool.eth";
        }
        ∷ [])
unfolding discover_pools collect_pool_candidates push has get_pool_metadata get_pool_state
    get_current_round_id text text_eq to_lower_case to_string uint_pattern
one_readable = refl

discover_pools-Lists_example :
    (scan : List Text) × (found : List DiscoveredPool) × ScanGives sources params.subgraph_first
      scan
    × (discover_pools sources params ≡ ok found)
    × Lists sources params.chain_id params.ens_parent_name
        (candidates_of params.fallback_pool (text "B" ∷ text "A" ∷ []) scan)
        found
discover_pools-Lists_example =
    discover_pools-Lists sources params (text "B" ∷ text "A" ∷ []) refl tt refl
