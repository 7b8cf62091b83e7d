-- ===== src/Resale/BuyRoute/Tests.antt =====
-- A plan that no orchestrator issued, which pays one account.
use coalition.Base.{
  ◌≡◌, ◌↔◌, refl, true, none, some, List, [], ◌∷◌, pos, Text, text, replicate, uint_pattern,
  address_pattern, trim, map_result, to_lower_case, includes,
}
use coalition.Base.Decimal.{big_int}
use coalition.Circle.{executed}
use coalition.Json.{
  Json, number, string, array, object, integer, nil, cons, end, field, get, to_list, rejected,
}
use coalition.Resale.{
  FillPlan, FillPlanWant, SettlementCall, nonce_pattern, not_blank, text_ltb, checked,
  checked_count, checked_outputs, positive_amount, parse_output, ascending, sum_of, parse_fill_plan,
  parse_plan_want, encode_transfer, fits_uint256,
}
use coalition.Resale.Execute.{
  answered, missing_variables, read_app_key, execute_resale_buy, with_key, buy_with_key, short_of,
  after_approval, after_encoding, after_settlement, after_mint,
}
use coalition.Resale.Payments.{payments}
use coalition.Resale.BuyRoute.{
  BuyServices, after_want, after_plan, after_body, is_capacity_error, resale_buy,
}
use coalition.Resale.BuyRoute.Purchases.{Holds, IsPayable, payments-resale_buy}

abbrev anyone : Text
anyone = text "0x4f188f3da697984f0fc02e61fda4a34b00abf39a"

abbrev plan_json : Json
plan_json = object (
    field "outputs"
      (array (
        cons
          (object (field "account" (string anyone) (field "amountAtomic" (string (text "5")) end)))
          nil))
      (field "totalAtomic" (string (text "5")) (
        field "nonce" (string (replicate 64 b'f')) (
          field "roundId" (string (text "3")) (
            field "headroomMB" (number (integer (pos 400))) (
              field "headroomCUMicro" (number (integer (pos 0))) (
                field "want"
                  (object (
                    field "mem" (number (integer (pos 1)))
                      (field "cuMicro" (number (integer (pos 0))) end)))
                  end)))))))

abbrev body : Json
body = object (field "plan" plan_json end)

abbrev services : BuyServices
services = record {
  environment = record {
    circle_api_key = text "k";
    circle_entity_secret = text "s";
    circle_buyer_wallet_id = text "w";
    orchestrator_app_key = some (text "ab");
    app_key = none;
  };
  services = record {
    is_address = λ s. true;
    balance_of = λ buyer. none;
    execute = λ effect. executed (text "0x1");
    mint = λ request. answered 409 none;
  };
  buyer = text "0xbuyer";
  capacity = rejected;
}

-- The transfer that the plan comes to.
abbrev calls : List SettlementCall
calls = record { payer = text "0xbuyer"; payee = anyone; amount = 5 } ∷ []

-- It is sent, although the mint is refused as a conflict.
paid : payments (resale_buy services (some body)).effects ≡ calls ∷ []
unfolding payments resale_buy after_body after_plan after_want execute_resale_buy missing_variables
    read_app_key with_key buy_with_key short_of after_approval after_encoding encode_transfer
    fits_uint256 after_settlement after_mint parse_fill_plan parse_plan_want nonce_pattern not_blank
    text_ltb checked checked_count checked_outputs positive_amount parse_output ascending sum_of
    text uint_pattern address_pattern trim big_int get to_list map_result
paid = refl

payments-resale_buy_example : (payments (resale_buy services (some body)).effects ≡ calls ∷ []) ↔ (
    (plan : FillPlan) × (want : FillPlanWant) × Holds services (some body) plan want
    × IsPayable services plan want calls)
payments-resale_buy_example = payments-resale_buy services (some body) calls

headroom : is_capacity_error (text "Plan exceeds the spare headroom") ≡ true
unfolding is_capacity_error includes to_lower_case text
headroom = refl
