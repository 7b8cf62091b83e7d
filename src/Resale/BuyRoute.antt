-- ===== src/Resale/BuyRoute.antt =====
-- app/app/api/resale/buy/route.ts: the purchase of a plan that the request carries. A run gives its
-- response and the calls that change something.
pub mod Purchases
mod Tests
use coalition.Base.{
  ℕ, Bool, true, false, not, ◌&&◌, ◌||◌, Option, none, some, List, [], ◌∷◌, ◌++◌, map, Text, text,
  to_lower_case, includes, join, ◌==◌, if◌then◌else◌, Result, ok, err,
}
use coalition.Base.Decimal.{to_string}
use coalition.Json.{Json, Fetched, get_from, is_plain_record}
use coalition.Resale.{
  FillPlan, FillPlanWant, PlanError, EncodingError, parse_fill_plan, parse_plan_want,
}
use coalition.Resale.Decision.{ResaleCapacityHeadroom}
use coalition.Resale.Execute.{
  Environment, Variable, api_key, entity_secret, buyer_wallet_id, missing_variables, read_app_key,
  BuyReason, variables_missing, app_key_missing, balance_low, approve_failed, settlement_failed,
  mint_unreachable, mint_message, mint_status, BuyError, resale_buy_error, encoding_error,
  ResaleBuyResult, Effect, Services, Run, execute_resale_buy,
}
use coalition.Resale.AutoRun.{capacity_of}

abbrev variable_name : Variable → Text
variable_name api_key = text "CIRCLE_API_KEY"
variable_name entity_secret = text "CIRCLE_ENTITY_SECRET"
variable_name buyer_wallet_id = text "CIRCLE_BUYER_WALLET_ID"

-- `error.message`
unfoldable pub message_of : BuyReason → Text
message_of (variables_missing names) =
    text "Missing "
    ++ join (text ", ") (map variable_name names)
    ++ text
        ". Create the agent-5 buyer wallet with app/create-buyer-wallet.mjs, fund it at https://faucet.circle.com, then set CIRCLE_BUYER_WALLET_ID (kept out of CIRCLE_WALLET_IDS)."
message_of app_key_missing = text "Missing ORCHESTRATOR_APP_KEY (server-only)."
message_of balance_low = text "buyer USDC balance below plan total"
message_of (approve_failed e) = text "approve failed: " ++ e
message_of (settlement_failed e) = text "settlement failed: " ++ e
message_of (mint_unreachable e) = text "commit-mint unreachable: " ++ e
message_of (mint_message detail) = detail
message_of (mint_status status) = text "commit-mint returned " ++ to_string status

-- What `.` matches of a text, up to the end of the line.
abbrev is_line_end : ℕ → Bool
is_line_end c = c == 10 || c == 13 || c == 0x2028 || c == 0x2029

line_of : Text → Text
line_of [] = []
line_of (c ∷ s) = let rest = line_of s in if is_line_end c then [] else c ∷ rest

-- The rest of a text after a prefix.
after_prefix : Text → Text → Option Text
after_prefix [] s = some s
after_prefix (c ∷ p) [] = none
after_prefix (c ∷ p) (d ∷ s) = let rest = after_prefix p s in if c == d then rest else none

-- `/exceeds.*headroom/`, from the first code unit on
matches_here : Text → Bool
unfolding line_of after_prefix
matches_here s = elim (after_prefix (text "exceeds") s) [
  | none ↦ false
  | some rest ↦ includes (text "headroom") (line_of rest)
]

exceeds_headroom : Text → Bool
exceeds_headroom [] = false
exceeds_headroom (c ∷ s) = matches_here (c ∷ s) || exceeds_headroom s

-- `/pool_exhausted|exceeds.*headroom|insufficient_spare|capacity/i`
unfoldable pub is_capacity_error : Text → Bool
unfolding matches_here exceeds_headroom
is_capacity_error message =
    let lower = to_lower_case message in
    includes (text "pool_exhausted") lower
    || exceeds_headroom lower
    || includes (text "insufficient_spare") lower
    || includes (text "capacity") lower

pub data BuyFailure : Type 0 where
  buyer_variables : List Variable → BuyFailure
  no_app_key invalid_json plan_missing malformed_plan unusable_want : BuyFailure
  purchase_failed : Text → BuyFailure
  buy_failed : EncodingError → BuyFailure
  short_of_capacity : Text → Option ResaleCapacityHeadroom → FillPlanWant → BuyFailure

pub data BuyAnswer : Type 0 where
  failed : ℕ → BuyFailure → BuyAnswer
  bought : ResaleBuyResult → BuyAnswer

pub record BuyRun : Type 0 where
  pub answer : BuyAnswer
  pub effects : List Effect

abbrev pub quiet : ℕ → BuyFailure → BuyRun
quiet status failure = record { answer = failed status failure; effects = [] }

-- `capacity` is what `GET /capacity` answers, where it is asked.
pub record BuyServices : Type 0 where
  pub environment : Environment
  pub services : Services
  pub buyer : Text
  pub capacity : Fetched

module _ (given : BuyServices) where
  -- `readCapacityHeadroom` narrows as the autonomous run does.
  unfoldable pub answer_of : FillPlanWant → Result BuyError ResaleBuyResult → BuyAnswer
  answer_of want (ok result) = bought result
  answer_of want (err (encoding_error e)) = failed 502 (buy_failed e)
  answer_of want (err (resale_buy_error e)) =
      let message = message_of e.reason in
      if e.status == 409 && is_capacity_error message
      then failed e.status (short_of_capacity message (capacity_of given.capacity) want)
      else failed e.status (purchase_failed message)

  abbrev pub purchase : FillPlan → FillPlanWant → Run
  purchase = execute_resale_buy given.environment given.services given.buyer

  unfoldable pub after_want : FillPlan → Result PlanError FillPlanWant → BuyRun
  after_want plan (err e) = quiet 400 unusable_want
  after_want plan (ok want) = record {
    answer = answer_of want (purchase plan want).result;
    effects = (purchase plan want).effects;
  }

  unfoldable pub after_plan : Option Json → Result PlanError FillPlan → BuyRun
  after_plan value (err e) = quiet 400 malformed_plan
  after_plan value (ok plan) =
      let want = if is_plain_record value then get_from "want" value else none in
      after_want plan (parse_plan_want want)

  abbrev pub with_plan : Option Json → BuyRun
  with_plan none = quiet 400 plan_missing
  with_plan (some value) = after_plan (some value) (parse_fill_plan (some value))

  -- The body, where it parses.
  unfoldable pub after_body : Option Json → BuyRun
  after_body none = quiet 400 invalid_json
  after_body (some body) =
      let planned = with_plan (get_from "plan" (some body)) in
      if is_plain_record (some body) then planned else quiet 400 plan_missing

  abbrev pub with_app_key : Option Json → Option Text → BuyRun
  with_app_key body none = quiet 503 no_app_key
  with_app_key body (some key) = after_body body

  abbrev pub with_variables : Option Json → List Variable → BuyRun
  with_variables body [] = with_app_key body (read_app_key given.environment)
  with_variables body (name ∷ names) = quiet 503 (buyer_variables (name ∷ names))

  -- `POST`
  unfoldable pub resale_buy : Option Json → BuyRun
  resale_buy body = with_variables body (missing_variables given.environment)
