-- ===== src/Resale.antt =====
-- app/lib/resale.ts: the fill plan that the orchestrator issues for a resale, its strict validation,
-- and the payouts that settle it. Thrown errors are the `err` case. The calldata of a payout keeps
-- the arguments that are encoded.
pub mod Decision
pub mod Plans
pub mod Price
pub mod Wants
pub mod Execute
pub mod Outcomes
pub mod Stages
pub mod Shown
pub mod Purchase
pub mod Failures
pub mod Payments
pub mod Settlement
pub mod AutoRun
pub mod BuyRoute
mod ExecuteTests
mod Tests
use coalition.Base.{
  ℕ, zero, suc, ◌+◌, ◌-◌, ◌/◌, ◌%◌, ◌^◌, Bool, true, false, not, ◌&&◌, ◌||◌, Option, none, some,
  List, [], ◌∷◌, ◌++◌, map, ℤ, pos, negsuc, Text, text, ltb, leb, ◌==◌, if◌then◌else◌, length, all,
  is_hex, is_empty, uint_pattern, address_pattern, trim, pad_start, strip_zeros, Result, ok, err,
  ◌>>=◌, ◌>>◌, throw_if, map_result,
}
use coalition.Base.Decimal.{big_int, to_string}
use coalition.Json.{
  Json, null, boolean, number, string, array, object, integer, fractional, Items, nil, cons, get,
  get_from, is_plain_record, to_list,
}

-- `FillPlanOutput`
pub record FillPlanOutput : Type 0 where
  pub account : Text
  pub amount_atomic : Text

-- `FillPlanResponse`
pub record FillPlan : Type 0 where
  pub outputs : List FillPlanOutput
  pub total_atomic : Text
  pub nonce : Text
  pub round_id : Text
  pub headroom_mb : ℕ
  pub headroom_cu_micro : ℕ

-- `FillPlanWant`
pub record FillPlanWant : Type 0 where
  pub mem : ℕ
  pub cu_micro : ℕ

pub data PlanError : Type 0 where
  not_an_object no_outputs total_malformed nonce_malformed round_malformed headroom_mb_malformed :
      PlanError
  headroom_cu_malformed output_not_an_object account_malformed amount_malformed : PlanError
  not_ascending sum_differs : PlanError
  no_want mem_malformed cu_malformed want_empty : PlanError

-- `NONCE_PATTERN`
unfoldable pub nonce_pattern : Text → Bool
nonce_pattern s = length s == 64 && all is_hex s

-- `prev < current` on strings: by the first code unit that differs.
unfoldable pub text_ltb : Text → Text → Bool
text_ltb [] [] = false
text_ltb [] (d ∷ t) = true
text_ltb (c ∷ s) [] = false
text_ltb (c ∷ s) (d ∷ t) = ltb c d || c == d && text_ltb s t

-- `atomicToUsdcPrice` of a bigint that is not negative; no other is passed.
unfoldable pub atomic_to_usdc_price : ℕ → Text
atomic_to_usdc_price value =
    let whole = value / 1_000_000 in
    let frac = strip_zeros (pad_start 6 (to_string (value % 1_000_000))) in
    if is_empty frac then b'$' ∷ to_string whole else b'$' ∷ to_string whole ++ b'.' ∷ frac

-- A string that passes a test.
unfoldable pub checked : (Text → Bool) → PlanError → Option Json → Result PlanError Text
checked test error (some (string s)) = if test s then ok s else err error
checked test error _ = err error

-- A number that is an integer and not negative.
unfoldable pub checked_count : PlanError → Option Json → Result PlanError ℕ
checked_count error (some (number (integer (pos n)))) = ok n
checked_count error _ = err error

-- `!Array.isArray(rawOutputs) || rawOutputs.length === 0`
unfoldable pub checked_outputs : Option Json → Result PlanError (List Json)
checked_outputs (some (array (cons x xs))) = ok (x ∷ to_list xs)
checked_outputs _ = err no_outputs

unfoldable pub positive_amount : Text → Bool
positive_amount s = uint_pattern s && ltb 0 (big_int s)

-- One entry of `rawOutputs`.
unfoldable pub parse_output : Json → Result PlanError FillPlanOutput
parse_output entry =
    throw_if (not (is_plain_record (some entry))) output_not_an_object
    >> (checked address_pattern account_malformed (get "account" entry) >>= λ account.
        checked positive_amount amount_malformed (get "amountAtomic" entry) >>= λ amount.
        ok (record { account = account; amount_atomic = amount }))

-- The loop over neighbours.
unfoldable pub ascending : List FillPlanOutput → Bool
ascending [] = true
ascending (_ ∷ []) = true
ascending (prev ∷ current ∷ outputs) =
    let rest = ascending (current ∷ outputs) in text_ltb prev.account current.account && rest

unfoldable pub sum_of : List FillPlanOutput → ℕ
sum_of [] = 0
sum_of (output ∷ outputs) = big_int output.amount_atomic + sum_of outputs

-- `roundId.trim() === ""`
unfoldable pub not_blank : Text → Bool
not_blank s = not (is_empty (trim s))

unfoldable pub parse_fill_plan : Option Json → Result PlanError FillPlan
parse_fill_plan value =
    throw_if (not (is_plain_record value)) not_an_object
    >> (checked_outputs (get_from "outputs" value) >>= λ raw.
        checked uint_pattern total_malformed (get_from "totalAtomic" value) >>= λ total.
        checked nonce_pattern nonce_malformed (get_from "nonce" value) >>= λ nonce.
        checked not_blank round_malformed (get_from "roundId" value) >>= λ round_id.
        checked_count headroom_mb_malformed (get_from "headroomMB" value) >>= λ headroom_mb.
        checked_count headroom_cu_malformed (get_from "headroomCUMicro" value) >>= λ headroom_cu.
        map_result parse_output raw >>= λ outputs.
        throw_if (not (ascending outputs)) not_ascending
        >> (throw_if (not (sum_of outputs == big_int total)) sum_differs
            >> ok (record {
              outputs = outputs;
              total_atomic = total;
              nonce = nonce;
              round_id = round_id;
              headroom_mb = headroom_mb;
              headroom_cu_micro = headroom_cu;
            })))

unfoldable pub parse_plan_want : Option Json → Result PlanError FillPlanWant
parse_plan_want value =
    throw_if (not (is_plain_record value)) no_want
    >> (checked_count mem_malformed (get_from "mem" value) >>= λ mem.
        checked_count cu_malformed (get_from "cuMicro" value) >>= λ cu_micro.
        throw_if (mem == 0 && cu_micro == 0) want_empty
        >> ok (record { mem = mem; cu_micro = cu_micro }))

-- One `transferFrom` on the USDC contract.
pub record SettlementCall : Type 0 where
  pub payer : Text
  pub payee : Text
  pub amount : ℕ

-- Why viem's `encodeFunctionData` throws.
pub data EncodingError : Type 0 where
  invalid_address : Text → EncodingError
  out_of_range : ℕ → EncodingError

-- What a `uint256` holds.
unfoldable pub fits_uint256 : ℕ → Bool
fits_uint256 amount = ltb amount (2 ^ 256)

module _ (is_address : Text → Bool) (buyer : Text) where
  -- The arguments are encoded in their order. `is_address` is viem's test of an address, which takes
  -- the checksum of one that is not in lower case into account.
  unfoldable pub encode_transfer : FillPlanOutput → Result EncodingError SettlementCall
  encode_transfer output =
      let amount = big_int output.amount_atomic in
      throw_if (not (is_address buyer)) (invalid_address buyer)
      >> (throw_if (not (is_address output.account)) (invalid_address output.account)
          >> (throw_if (not (fits_uint256 amount)) (out_of_range amount)
              >> ok (record { payer = buyer; payee = output.account; amount = amount })))

  abbrev pub build_settlement_calls :
      List FillPlanOutput → Result EncodingError (List SettlementCall)
  build_settlement_calls outputs = map_result encode_transfer outputs
