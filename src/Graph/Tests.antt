-- ===== src/Graph/Tests.antt =====
-- The subgraph client against an endpoint that serves one pool and two commitments.
use coalition.Base.{
  ◌≡◌, refl, ◌↔◌, true, false, Option, none, some, [], ◌∷◌, Text, text, address_pattern,
  uint_pattern, ok, err, map_result,
}
use coalition.Base.Decimal.{big_int}
use coalition.Json.{
  Json, string, boolean, array, object, nil, cons, end, field, Fetched, response, get, to_list,
  get_from,
}
use coalition.Graph.{
  Commitment, PoolFill, GraphClient, GraphRequest, bad_status, get_pool_fill, get_commitments,
  parse_address, parse_uint, parse_boolean, parse_commitment, parse_array, narrow_data, post_query,
}
use coalition.Graph.Queries.{IsFill, Answers, fill_answer, get_pool_fill-IsFill}

abbrev pool : Text
pool = text "0xC6f9A1559f9a02755aC7Ba4865C558B0ed46B4fd"

abbrev wallet : Text
wallet = text "0x4f188f3da697984f0fc02e61fda4a34b00abf39a"

abbrev client : GraphClient
client = record { endpoint = text "https://graph.example"; headers = []; timeout_ms = 10_000 }

abbrev commitment_json : Json
commitment_json = object (
    field "wallet" (string wallet)
      (field "amount" (string (text "2500000")) (field "blockNumber" (string (text "7")) end)))

abbrev body : Json
body = object (
    field "data"
      (object (
        field "pool"
          (object (
            field "id" (string wallet) (
              field "target" (string (text "10000000")) (
                field "totalCommitted" (string (text "5000000")) (
                  field "settled" (boolean false)
                    (field "participantCount" (string (text "2")) end))))))
          (field "commitments" (array (cons commitment_json (cons commitment_json nil))) end)))
      end)

abbrev serve : GraphRequest → Fetched
serve _ = response 200 (some body)

abbrev fill : PoolFill
fill = record {
  pool = wallet;
  target = 10_000_000;
  total_committed = 5_000_000;
  settled = false;
  participant_count = 2;
}

served_fill : get_pool_fill serve client pool ≡ ok fill
unfolding get_pool_fill post_query narrow_data text address_pattern uint_pattern big_int
    parse_address parse_uint parse_boolean get
served_fill = refl

teapot : get_pool_fill (λ _. response 418 none) client pool ≡ err (bad_status 418)
unfolding get_pool_fill post_query narrow_data text address_pattern
teapot = refl

get_pool_fill-IsFill_example : (get_pool_fill serve client pool ≡ ok fill) ↔ (
    (address_pattern pool ≡ true)
    × ((payload : Option Json) × Answers (fill_answer serve client pool) payload
        × IsFill (get_from "pool" payload) fill))
get_pool_fill-IsFill_example = get_pool_fill-IsFill serve client pool fill

abbrev commitment : Commitment
commitment = record { wallet = wallet; amount = 2_500_000; block_number = 7 }

served_commitments : get_commitments serve client pool none ≡ ok (commitment ∷ commitment ∷ [])
unfolding get_commitments post_query narrow_data text address_pattern uint_pattern big_int
    parse_address parse_uint parse_commitment parse_array get to_list map_result
served_commitments = refl
