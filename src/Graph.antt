-- ===== src/Graph.antt =====
-- sdk/src/graph: the subgraph client. A query is posted, and the answer is narrowed field by field;
-- what `fetch` answers is a parameter. Every `throw` of the source is a `GraphError`.
pub mod Decode
pub mod Queries
mod Tests
use coalition.Base.{
  ℕ, Bool, true, false, not, Option, none, some, List, [], ◌∷◌, String, Text, text, is_empty,
  if◌then◌else◌, uint_pattern, address_pattern, to_lower_case, length, Result, ok, err, ◌>>=◌, ◌>>◌,
  throw_if, map_result, ◌++◌,
}
use coalition.Base.Decimal.{big_int}
use coalition.Json.{
  Json, boolean, string, array, get, get_from, is_record, to_list, Fetched, rejected, response,
  is_ok_status,
}

-- `PoolFill`, `Commitment`, `Dropout`, `PoolHealth`
pub record PoolFill : Type 0 where
  pub pool : Text
  pub target : ℕ
  pub total_committed : ℕ
  pub settled : Bool
  pub participant_count : ℕ

pub record Commitment : Type 0 where
  pub wallet : Text
  pub amount : ℕ
  pub block_number : ℕ

pub record Dropout : Type 0 where
  pub wallet : Text
  pub forfeited : ℕ

pub record PoolHealth : Type 0 where
  pub settled : Bool
  pub participant_count : ℕ
  pub forfeited_total : ℕ
  pub dropout_count : ℕ

-- `bad_json` is the rejection of `response.json()`; the others are `GraphError`s.
pub data GraphError : Type 0 where
  field_not_address field_not_uint field_not_boolean field_not_array : String → GraphError
  request_failed : Text → GraphError
  bad_status : ℕ → GraphError
  bad_json payload_not_object query_errors data_not_object : GraphError
  commitment_not_object dropout_not_object pool_not_object : GraphError
  pool_not_address wallet_not_address : Text → GraphError

-- `GraphClientOptions`, `GraphClient`
pub record GraphClientOptions : Type 0 where
  pub endpoint : Text
  pub api_key : Option Text
  pub timeout_ms : Option ℕ

pub record GraphClient : Type 0 where
  pub endpoint : Text
  pub headers : List (String × Text)
  pub timeout_ms : ℕ

abbrev authorization : Option Text → List (String × Text)
authorization none = []
authorization (some key) = ("authorization", text "Bearer " ++ key) ∷ []

-- `none` is the thrown error on an empty endpoint.
unfoldable pub create_graph_client : GraphClientOptions → Option GraphClient
create_graph_client options =
    if is_empty options.endpoint
    then none
    else some (record {
      endpoint = options.endpoint;
      headers = ("content-type", text "application/json") ∷ authorization options.api_key;
      timeout_ms = elim options.timeout_ms [ none ↦ 10_000 | some ms ↦ ms ];
    })

-- The five documents, and the request that carries one.
pub data Query : Type 0 where
  pool_fill_query commitments_query commitments_by_wallet_query : Query
  dropouts_query pool_health_query : Query

pub record GraphRequest : Type 0 where
  pub client : GraphClient
  pub query : Query
  pub variables : List (String × Text)

pub parse_address : Option Json → String → Result GraphError Text
parse_address (some (string s)) field =
    if address_pattern s then ok s else err (field_not_address field)
parse_address _ field = err (field_not_address field)

unfoldable pub parse_uint : Option Json → String → Result GraphError ℕ
parse_uint (some (string s)) field =
    if uint_pattern s then ok (big_int s) else err (field_not_uint field)
parse_uint _ field = err (field_not_uint field)

unfoldable pub parse_boolean : Option Json → String → Result GraphError Bool
parse_boolean (some (boolean b)) field = ok b
parse_boolean _ field = err (field_not_boolean field)

pub parse_commitment : Json → Result GraphError Commitment
parse_commitment value = do
  throw_if (not (is_record (some value))) commitment_not_object
  wallet ← parse_address (get "wallet" value) "wallet"
  amount ← parse_uint (get "amount" value) "amount"
  block_number ← parse_uint (get "blockNumber" value) "blockNumber"
  ok (record { wallet = wallet; amount = amount; block_number = block_number })

pub parse_dropout : Json → Result GraphError Dropout
parse_dropout value = do
  throw_if (not (is_record (some value))) dropout_not_object
  wallet ← parse_address (get "wallet" value) "wallet"
  forfeited ← parse_uint (get "forfeited" value) "forfeited"
  ok (record { wallet = wallet; forfeited = forfeited })

-- `Array.isArray`
unfoldable pub parse_array : Option Json → String → Result GraphError (List Json)
parse_array (some (array items)) field = ok (to_list items)
parse_array _ field = err (field_not_array field)

abbrev pub present : Option Json → Bool
present none = false
present (some _) = true

-- `postQuery` once the answer is there: the payload's `data` field, a record.
unfoldable pub narrow_data : Option Json → Result GraphError (Option Json)
narrow_data none = err bad_json
narrow_data (some body) = do
  throw_if (not (is_record (some body))) payload_not_object
  throw_if (present (get "errors" body)) query_errors
  throw_if (not (is_record (get "data" body))) data_not_object
  ok (get "data" body)

narrow_fetched : GraphClient → Fetched → Result GraphError (Option Json)
unfolding narrow_data
narrow_fetched client rejected = err (request_failed client.endpoint)
narrow_fetched client (response status body) =
    if is_ok_status status then narrow_data body else err (bad_status status)

module _ (fetch : GraphRequest → Fetched) (client : GraphClient) where
  unfoldable pub post_query : Query → List (String × Text) → Result GraphError (Option Json)
  unfolding narrow_fetched
  post_query query variables =
      narrow_fetched client
        (fetch (record { client = client; query = query; variables = variables }))

  pub get_pool_fill : Text → Result GraphError PoolFill
  get_pool_fill pool = do
    throw_if (not (address_pattern pool)) (pool_not_address pool)
    payload ← post_query pool_fill_query (("id", to_lower_case pool) ∷ [])
    let raw = get_from "pool" payload
    throw_if (not (is_record raw)) pool_not_object
    id ← parse_address (get_from "id" raw) "id"
    target ← parse_uint (get_from "target" raw) "target"
    total ← parse_uint (get_from "totalCommitted" raw) "totalCommitted"
    settled ← parse_boolean (get_from "settled" raw) "settled"
    count ← parse_uint (get_from "participantCount" raw) "participantCount"
    ok (record {
      pool = id;
      target = target;
      total_committed = total;
      settled = settled;
      participant_count = count;
    })

  -- The request depends on whether one wallet is asked for.
  commitments_of : Text → Option Text → Result GraphError (Option Json)
  commitments_of pool none = post_query commitments_query (("pool", to_lower_case pool) ∷ [])
  commitments_of pool (some wallet) =
      post_query commitments_by_wallet_query
        (("pool", to_lower_case pool) ∷ ("wallet", to_lower_case wallet) ∷ [])

  pub get_commitments : Text → Option Text → Result GraphError (List Commitment)
  unfolding commitments_of
  get_commitments pool wallet = do
    throw_if (not (address_pattern pool)) (pool_not_address pool)
    elim wallet [
      | none ↦ ok tt
      | some w ↦ throw_if (not (address_pattern w)) (wallet_not_address w)
    ]
    payload ← commitments_of pool wallet
    raw ← parse_array (get_from "commitments" payload) "commitments"
    map_result parse_commitment raw

  pub get_dropouts : Text → Result GraphError (List Dropout)
  get_dropouts pool = do
    throw_if (not (address_pattern pool)) (pool_not_address pool)
    payload ← post_query dropouts_query (("pool", to_lower_case pool) ∷ [])
    raw ← parse_array (get_from "dropouts" payload) "dropouts"
    map_result parse_dropout raw

  unfoldable pub get_pool_health : Text → Result GraphError PoolHealth
  get_pool_health pool = do
    throw_if (not (address_pattern pool)) (pool_not_address pool)
    payload ←
        post_query pool_health_query
          (("id", to_lower_case pool) ∷ ("pool", to_lower_case pool) ∷ [])
    let raw = get_from "pool" payload
    throw_if (not (is_record raw)) pool_not_object
    dropouts ← parse_array (get_from "dropouts" payload) "dropouts"
    settled ← parse_boolean (get_from "settled" raw) "settled"
    count ← parse_uint (get_from "participantCount" raw) "participantCount"
    forfeited ← parse_uint (get_from "forfeitedTotal" raw) "forfeitedTotal"
    ok (record {
      settled = settled;
      participant_count = count;
      forfeited_total = forfeited;
      dropout_count = length dropouts;
    })
