-- ===== src/Resale/Execute.antt =====
-- app/lib/resale-execute.ts: `executeResaleBuy`, and `readBuyerEnv` of app/lib/resale.ts. A run gives
-- the calls that it made, in order, and its result. The calls' answers are parameters; the time and
-- the logs are left out, and so is the answer to the provisioning, which the code only logs.
use coalition.Base.{
  ℕ, Bool, false, not, Option, none, some, List, [], ◌∷◌, ◌++◌, Text, ltb, ◌==◌, if◌then◌else◌,
  length, is_empty, Result, ok, err,
}
use coalition.Base.Decimal.{big_int}
use coalition.Json.{Json, null, string, get_from, is_plain_record, is_ok_status}
use coalition.Circle.{Execution, executed, not_executed}
use coalition.Resale.{
  FillPlanOutput, FillPlan, FillPlanWant, SettlementCall, EncodingError, build_settlement_calls,
}

-- The variables of the environment, "" where they are not set.
pub record Environment : Type 0 where
  pub circle_api_key : Text
  pub circle_entity_secret : Text
  pub circle_buyer_wallet_id : Text
  pub orchestrator_app_key : Option Text
  pub app_key : Option Text

pub data Variable : Type 0 where
  api_key entity_secret buyer_wallet_id : Variable

abbrev missing_if_empty : Variable → Text → List Variable → List Variable
missing_if_empty name value rest = if is_empty value then name ∷ rest else rest

-- `missing`, in the order of the tests.
unfoldable pub missing_variables : Environment → List Variable
missing_variables env = missing_if_empty api_key env.circle_api_key (
    missing_if_empty entity_secret env.circle_entity_secret
      (missing_if_empty buyer_wallet_id env.circle_buyer_wallet_id []))

-- `a ?? b`, and no key where that is empty
unfoldable pub read_app_key : Environment → Option Text
read_app_key env = elim env.orchestrator_app_key [
  | some key ↦ if is_empty key then none else some key
  | none ↦ elim env.app_key [ some key ↦ if is_empty key then none else some key | none ↦ none ]
]

pub data BuyReason : Type 0 where
  variables_missing : List Variable → BuyReason
  app_key_missing balance_low : BuyReason
  approve_failed settlement_failed mint_unreachable mint_message : Text → BuyReason
  mint_status : ℕ → BuyReason

-- `ResaleBuyError`
pub record ResaleBuyError : Type 0 where
  pub status : ℕ
  pub reason : BuyReason

-- What `executeResaleBuy` throws: an error of its own, or one of viem's encoding.
pub data BuyError : Type 0 where
  resale_buy_error : ResaleBuyError → BuyError
  encoding_error : EncodingError → BuyError

-- `ResaleBuyResult`
pub record ResaleBuyResult : Type 0 where
  pub buyer : Text
  pub legs_paid : ℕ
  pub total_atomic : Text
  pub to : Option Json
  pub to_token : Option Text

-- The body of `/commit-mint`.
pub record MintRequest : Type 0 where
  pub to : Text
  pub mb : ℕ
  pub cu_micro : ℕ
  pub settlement_tx_hash : Text
  pub nonce : Text
  pub round_id : Text
  pub outputs : List FillPlanOutput

-- The calls that change something, with what they are given.
pub data Effect : Type 0 where
  approve_multicall : Text → Effect
  aggregate : List SettlementCall → Effect
  commit_mint : MintRequest → Effect
  provision : Text → Effect

pub data MintAnswer : Type 0 where
  unreachable : Text → MintAnswer
  answered : ℕ → Option Json → MintAnswer

-- `is_address` is viem's test of an address.
pub record Services : Type 0 where
  pub is_address : Text → Bool
  pub balance_of : Text → Option ℕ
  pub execute : Effect → Execution
  pub mint : MintRequest → MintAnswer

pub record Run : Type 0 where
  pub effects : List Effect
  pub result : Result BuyError ResaleBuyResult

abbrev pub fail : List Effect → ℕ → BuyReason → Run
fail effects status reason = record {
  effects = effects;
  result = err (resale_buy_error (record { status = status; reason = reason }));
}

-- A string property of the payload, where this is an object.
unfoldable pub text_property : Option Json → Option Json → Option Text
text_property (some (string s)) payload = if is_plain_record payload then some s else none
text_property _ payload = none

-- `isRecord(payload) ? payload["to"] : null`
unfoldable pub to_of : Option Json → Option Json
to_of payload = if is_plain_record payload then get_from "to" payload else some null

unfoldable pub mint_reason : ℕ → Option Text → BuyReason
mint_reason status (some message) = mint_message message
mint_reason status none = mint_status status

-- The best-effort provisioning, which runs where a token came back.
unfoldable pub provisioned : Option Text → List Effect
provisioned none = []
provisioned (some token) = provision token ∷ []

unfoldable pub after_mint : Text → FillPlan → List Effect → MintAnswer → Run
after_mint buyer plan effects (unreachable e) = fail effects 502 (mint_unreachable e)
after_mint buyer plan effects (answered status payload) =
    let detail = text_property (get_from "message" payload) payload in
    let token = text_property (get_from "toToken" payload) payload in
    if not (is_ok_status status)
    then fail effects (if status == 409 then 409 else 502) (mint_reason status detail)
    else record {
      effects = effects ++ provisioned token;
      result = ok (record {
        buyer = buyer;
        legs_paid = length plan.outputs;
        total_atomic = plan.total_atomic;
        to = to_of payload;
        to_token = token;
      });
    }

unfoldable pub mint_request : Text → FillPlan → FillPlanWant → Text → MintRequest
mint_request buyer plan want tx = record {
  to = buyer;
  mb = want.mem;
  cu_micro = want.cu_micro;
  settlement_tx_hash = tx;
  nonce = plan.nonce;
  round_id = plan.round_id;
  outputs = plan.outputs;
}

module _ (outside : Services) (buyer : Text) (plan : FillPlan) (want : FillPlanWant) where
  -- The effects up to each call, that call included.
  abbrev pub approving : List Effect
  approving = approve_multicall plan.total_atomic ∷ []

  abbrev pub settling : List SettlementCall → List Effect
  settling calls = approve_multicall plan.total_atomic ∷ aggregate calls ∷ []

  abbrev pub minting : List SettlementCall → Text → List Effect
  minting calls tx =
      approve_multicall plan.total_atomic
      ∷ aggregate calls
      ∷ commit_mint (mint_request buyer plan want tx)
      ∷ []

  unfoldable pub after_settlement : List SettlementCall → Execution → Run
  after_settlement calls (not_executed e) = fail (settling calls) 502 (settlement_failed e)
  after_settlement calls (executed tx) =
      after_mint buyer plan (minting calls tx) (outside.mint (mint_request buyer plan want tx))

  -- An account or an amount that cannot be encoded throws after the approval.
  unfoldable pub after_encoding : Result EncodingError (List SettlementCall) → Run
  after_encoding (err e) = record { effects = approving; result = err (encoding_error e) }
  after_encoding (ok calls) = after_settlement calls (outside.execute (aggregate calls))

  unfoldable pub after_approval : Execution → Run
  after_approval (not_executed e) = fail approving 502 (approve_failed e)
  after_approval (executed tx) =
      after_encoding (build_settlement_calls outside.is_address buyer plan.outputs)

  -- `balance < total`; a balance that cannot be read stops nothing.
  unfoldable pub short_of : Option ℕ → Bool
  short_of none = false
  short_of (some balance) = ltb balance (big_int plan.total_atomic)

  unfoldable pub buy_with_key : Run
  buy_with_key =
      if short_of (outside.balance_of buyer)
      then fail [] 502 balance_low
      else after_approval (outside.execute (approve_multicall plan.total_atomic))

unfoldable pub with_key : Services → Text → FillPlan → FillPlanWant → Option Text → Run
with_key outside buyer plan want none = fail [] 503 app_key_missing
with_key outside buyer plan want (some key) = buy_with_key outside buyer plan want

-- `buyer` is the address of the constant `OUTSIDE_BUYER`.
unfoldable pub execute_resale_buy : Environment → Services → Text → FillPlan → FillPlanWant → Run
execute_resale_buy env outside buyer plan want = elim (missing_variables env) [
  | [] ↦ with_key outside buyer plan want (read_app_key env)
  | name ∷ names ↦ fail [] 503 (variables_missing (name ∷ names))
]
