-- ===== src/Resale/Tests.antt =====
-- A plan with two payouts, and a decision that buys.
use coalition.Base.{
  ◌≡◌, ◌↔◌, ◌^◌, ◌<◌, arith, refl, true, false, Bool, Option, none, some, List, [], ◌∷◌, pos, Text,
  text, replicate, address_pattern, uint_pattern, trim, ok, err, map_result, All,
}
use coalition.Base.Decimal.{big_int}
use coalition.Json.{
  Json, number, string, array, object, integer, nil, cons, end, field, get, to_list,
}
use coalition.Resale.{
  FillPlanOutput, FillPlan, not_ascending, nonce_pattern, not_blank, text_ltb, checked,
  checked_count, checked_outputs, positive_amount, parse_output, ascending, sum_of, parse_fill_plan,
  SettlementCall, invalid_address, encode_transfer, build_settlement_calls, atomic_to_usdc_price,
}
use coalition.Resale.Plans.{IsFillPlan, parse_fill_plan-IsFillPlan}
use coalition.Resale.Settlement.{total_paid, IsPayout, PayDistinct, build_settlement_calls-total}
use coalition.Resale.Price.{atomic_to_usdc_price-to_atomic_usdc}
use coalition.Resale.Decision.{
  ResaleDecisionInput, ResaleHealthCounts, buy, IsSound, Fits, decide_resale_buy,
  decide_resale_buy-buys,
}
use coalition.Usdc.{usdc_erc20, to_atomic_usdc}
use coalition.Usdc as Usdc

abbrev alice : Text
alice = text "0x4f188f3da697984f0fc02e61fda4a34b00abf39a"

abbrev bob : Text
bob = text "0xC6f9A1559f9a02755aC7Ba4865C558B0ed46B4fd"

-- Bob's address without its checksum.
abbrev bob_lower : Text
bob_lower = text "0xc6f9a1559f9a02755ac7ba4865c558b0ed46b4fd"

abbrev nonce : Text
nonce = replicate 64 b'f'

abbrev output_json : Text → Json
output_json account =
    object (field "account" (string account) (field "amountAtomic" (string (text "1250000")) end))

abbrev plan_json : Text → Text → Option Json
plan_json first second = some (
    object (
      field "outputs" (array (cons (output_json first) (cons (output_json second) nil))) (
        field "totalAtomic" (string (text "2500000")) (
          field "nonce" (string nonce) (
            field "roundId" (string (text "3")) (
              field "headroomMB" (number (integer (pos 400)))
                (field "headroomCUMicro" (number (integer (pos 100_000))) end)))))))

abbrev two_outputs : List FillPlanOutput
two_outputs =
    record { account = alice; amount_atomic = text "1250000" }
    ∷ record { account = bob; amount_atomic = text "1250000" }
    ∷ []

abbrev plan : FillPlan
plan = record {
  outputs = two_outputs;
  total_atomic = text "2500000";
  nonce = nonce;
  round_id = text "3";
  headroom_mb = 400;
  headroom_cu_micro = 100_000;
}

parsed : parse_fill_plan (plan_json alice bob) ≡ ok plan
unfolding parse_fill_plan nonce_pattern not_blank text_ltb checked checked_count checked_outputs
    positive_amount parse_output ascending sum_of text uint_pattern address_pattern trim big_int get
    to_list map_result
parsed = refl

swapped : parse_fill_plan (plan_json bob alice) ≡ err not_ascending
unfolding parse_fill_plan nonce_pattern not_blank text_ltb checked checked_count checked_outputs
    positive_amount parse_output ascending sum_of text uint_pattern address_pattern trim big_int get
    to_list map_result
swapped = refl

-- A plan that pays one address twice.
twice :
    parse_fill_plan (plan_json bob bob_lower)
    ≡ ok (record plan {
      outputs =
          record { account = bob; amount_atomic = text "1250000" }
          ∷ record { account = bob_lower; amount_atomic = text "1250000" }
          ∷ [];
    })
unfolding parse_fill_plan nonce_pattern not_blank text_ltb checked checked_count checked_outputs
    positive_amount parse_output ascending sum_of text uint_pattern address_pattern trim big_int get
    to_list map_result
twice = refl

parse_fill_plan-IsFillPlan_example :
    (parse_fill_plan (plan_json alice bob) ≡ ok plan) ↔ IsFillPlan (plan_json alice bob) plan
parse_fill_plan-IsFillPlan_example = parse_fill_plan-IsFillPlan (plan_json alice bob) plan

-- The encoding's test, by the form of an address alone.
abbrev is_address : Text → Bool
is_address = address_pattern

alice_IsAddress : is_address alice ≡ true
unfolding address_pattern text
alice_IsAddress = refl

bob_IsAddress : is_address bob ≡ true
unfolding address_pattern text
bob_IsAddress = refl

total_fits : big_int plan.total_atomic < 2 ^ 256
unfolding big_int text
total_fits = omega arith

build_settlement_calls-total_example :
    (calls : List SettlementCall) × (build_settlement_calls is_address alice plan.outputs
      ≡ ok calls)
    × (total_paid calls ≡ big_int plan.total_atomic)
    × All (IsPayout alice) calls
    × PayDistinct calls
build_settlement_calls-total_example =
    build_settlement_calls-total alice is_address (plan_json alice bob) plan parsed alice_IsAddress
      (alice_IsAddress, (bob_IsAddress, tt)) total_fits

-- An account with a bad checksum, of the form of an address, is not encoded.
not_encoded : build_settlement_calls (λ s. false) alice plan.outputs ≡ err (invalid_address alice)
unfolding encode_transfer map_result
not_encoded = refl

atomic_to_usdc_price-to_atomic_usdc_example :
    (display : Text) × (atomic_to_usdc_price 1_250_000 ≡ b'$' ∷ display)
    × (to_atomic_usdc display usdc_erc20 ≡ Usdc.ok 1_250_000)
atomic_to_usdc_price-to_atomic_usdc_example = atomic_to_usdc_price-to_atomic_usdc 1_250_000

abbrev counts : ResaleHealthCounts
counts = record {
  settled = false;
  participant_count = 4;
  forfeited_total_atomic = text "0";
  dropout_count = 2;
}

abbrev wanted : ResaleDecisionInput
wanted = record {
  want = record { mem = 400; cu_micro = 100_000 };
  capacity = some (record { headroom_mb = 400; headroom_cu_micro = 100_000 });
  health = some counts;
  subgraph_error = none;
}

decide_resale_buy-buys_example : ((decide_resale_buy wanted).action ≡ buy) ↔ (
    (found : ResaleHealthCounts) × (wanted.health ≡ some found)
    × IsSound found
    × Fits wanted.want wanted.capacity)
decide_resale_buy-buys_example = decide_resale_buy-buys wanted

abbrev want_json : Option Json
want_json = some (
    object
      (field "mem" (number (integer (pos 400))) (field "cuMicro" (number (integer (pos 0))) end)))
