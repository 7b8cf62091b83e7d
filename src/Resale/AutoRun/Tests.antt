-- ===== src/Resale/AutoRun/Tests.antt =====
-- A run with the right key that buys, and a key that is not the configured one.
use coalition.Base.{
  ◌≡◌, ◌≢◌, refl, ap, Bool, true, false, none, some, List, [], ◌∷◌, pos, text, replicate,
  address_pattern, uint_pattern, trim, map_result,
}
use coalition.Base.Decimal.{big_int}
use coalition.Circle.{executed}
use coalition.Json.{
  Json, boolean, number, string, array, object, integer, nil, cons, end, field, get, to_list,
  rejected, response,
}
use coalition.Graph.{
  create_graph_client, get_pool_health, post_query, narrow_data, parse_uint, parse_boolean,
  parse_array,
}
use coalition.Resale.{
  nonce_pattern, not_blank, text_ltb, checked, checked_count, checked_outputs, positive_amount,
  parse_output, ascending, sum_of, parse_fill_plan, encode_transfer, fits_uint256,
}
use coalition.Resale.Decision.{decide_resale_buy, decide_health, decide_capacity}
use coalition.Resale.Execute.{
  Effect, answered, missing_variables, read_app_key, execute_resale_buy, with_key, buy_with_key,
  after_approval, after_encoding, after_settlement, after_mint, short_of, text_property,
  provisioned,
}
use coalition.Resale.AutoRun.{
  RunRequest, AutoServices, run_key, diff_of, keys_equal, asked_of, capacity_of, health_of,
  decision_for, after_plan, after_fill, after_asked, after_key, with_run_key, resale_run, quiet,
  failed, unauthorized,
}
use coalition.Resale.AutoRun.Allowed.{IsAllowed, resale_run-IsAllowed}

abbrev plan_json : Json
plan_json = object (
    field "outputs"
      (array (
        cons
          (object (
            field "account" (string (text "0x4f188f3da697984f0fc02e61fda4a34b00abf39a"))
              (field "amountAtomic" (string (text "5")) end)))
          nil))
      (field "totalAtomic" (string (text "5")) (
        field "nonce" (string (replicate 64 b'f')) (
          field "roundId" (string (text "3")) (
            field "headroomMB" (number (integer (pos 400)))
              (field "headroomCUMicro" (number (integer (pos 100_000))) end))))))

abbrev health_json : Json
health_json = object (
    field "data"
      (object (
        field "pool"
          (object (
            field "settled" (boolean false) (
              field "participantCount" (string (text "4"))
                (field "forfeitedTotal" (string (text "0")) end))))
          (field "dropouts" (array nil) end)))
      end)

abbrev services : AutoServices
services = record {
  keys = record { resale_run_key = none; orchestrator_app_key = some (text "ab") };
  micro_of = λ n. none;
  capacity = rejected;
  subgraph_endpoint = some (text "e");
  subgraph_api_key = none;
  pool = text "0x4f188f3da697984f0fc02e61fda4a34b00abf39a";
  fetch = λ request. response 200 (some health_json);
  message = λ e. [];
  fill_plan = λ mem cu. response 200 (some plan_json);
  environment = record {
    circle_api_key = text "k";
    circle_entity_secret = text "s";
    circle_buyer_wallet_id = text "w";
    orchestrator_app_key = some (text "ab");
    app_key = none;
  };
  services = record {
    is_address = λ s. true;
    balance_of = λ buyer. none;
    execute = λ effect. executed (text "0x1");
    mint = λ request. answered 200 none;
  };
  buyer = text "0xbuyer";
}

-- The default want, and no dry run.
abbrev request : RunRequest
request = record {
  key = some (text "ab");
  body = some (object (field "dryRun" (boolean false) end));
}

abbrev has_calls : List Effect → Bool
has_calls [] = false
has_calls (effect ∷ effects) = true

calls : has_calls (resale_run services request).effects ≡ true
unfolding resale_run with_run_key run_key keys_equal diff_of after_key asked_of after_asked
    decision_for health_of create_graph_client get_pool_health post_query narrow_data parse_uint
    parse_boolean parse_array decide_resale_buy decide_health decide_capacity capacity_of after_fill
    after_plan execute_resale_buy missing_variables read_app_key with_key buy_with_key short_of
    after_approval after_encoding encode_transfer fits_uint256 after_settlement after_mint
    text_property provisioned parse_fill_plan nonce_pattern not_blank text_ltb checked checked_count
    checked_outputs positive_amount parse_output ascending sum_of text uint_pattern address_pattern
    trim big_int get to_list map_result
calls = refl

has_effects : (resale_run services request).effects ≢ []
has_effects e = let none_left = ap has_calls e in cc (calls, none_left)

resale_run-IsAllowed_example : IsAllowed services request (resale_run services request)
resale_run-IsAllowed_example = resale_run-IsAllowed services request has_effects

refused :
    resale_run services (record request { key = some (text "ac") })
    ≡ quiet (failed 401 unauthorized)
unfolding resale_run with_run_key run_key keys_equal diff_of text
refused = refl
