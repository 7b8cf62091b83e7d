-- ===== src/Resale/Outcomes.antt =====
-- app/lib/resale-execute.ts: what each way through `executeResaleBuy` asks of its environment and of
-- the services' answers.
use Prim.Native.String.{String}
use coalition.Base.{
  ℕ, ◌≡◌, ◌≢◌, ◌≤◌, ◌<◌, ◌⊎◌, true, false, Option, none, some, List, [], ◌∷◌, Text, length, Result,
  ok, err,
}
use coalition.Base.Decimal.{big_int}
use coalition.Json.{Json, get_from, is_ok_status}
use coalition.Circle.{executed, not_executed}
use coalition.Resale.{FillPlan, FillPlanWant, SettlementCall, EncodingError, build_settlement_calls}
use coalition.Resale.Execute.{
  Environment, Variable, missing_variables, read_app_key, BuyError, resale_buy_error,
  encoding_error, ResaleBuyResult, BuyReason, variables_missing, app_key_missing, balance_low,
  approve_failed, settlement_failed, mint_unreachable, Effect, approve_multicall, aggregate,
  commit_mint, unreachable, answered, Services, text_property, to_of, mint_reason, provisioned,
  MintRequest,
}

abbrev pub threw : ℕ → BuyReason → BuyError
threw status reason = resale_buy_error (record { status = status; reason = reason })

-- The property of the payload of the mint's answer, where it is a text.
abbrev pub said : String → Option Json → Option Text
said name payload = text_property (get_from name payload) payload

-- What the mint is asked for: the want, the hash of the payouts, and the plan's nonce, round and
-- outputs.
abbrev pub request_of : Text → FillPlan → FillPlanWant → Text → MintRequest
request_of buyer plan want tx = record {
  to = buyer;
  mb = want.mem;
  cu_micro = want.cu_micro;
  settlement_tx_hash = tx;
  nonce = plan.nonce;
  round_id = plan.round_id;
  outputs = plan.outputs;
}

module _ (env : Environment) (outside : Services) (buyer : Text) (plan : FillPlan)
    (want : FillPlanWant) where
  -- The variables and a key are set.
  abbrev pub IsReady : Type 0
  IsReady = (missing_variables env ≡ []) × ((key : Text) × (read_app_key env ≡ some key))

  -- The buyer's balance is not known to be below the total.
  abbrev pub CanPay : Type 0
  CanPay =
      (outside.balance_of buyer ≡ none)
      ⊎ ((balance : ℕ) × (outside.balance_of buyer ≡ some balance)
          × (big_int plan.total_atomic ≤ balance))

  abbrev pub IsApproved : Type 0
  IsApproved =
      IsReady
      × CanPay
      × ((tx : Text) × (outside.execute (approve_multicall plan.total_atomic) ≡ executed tx))

  abbrev pub IsEncoded : List SettlementCall → Type 0
  IsEncoded calls = build_settlement_calls outside.is_address buyer plan.outputs ≡ ok calls

  abbrev pub IsSettled : List SettlementCall → Text → Type 0
  IsSettled calls tx =
      IsApproved × IsEncoded calls × (outside.execute (aggregate calls) ≡ executed tx)

  -- A purchase that goes through: its calls, and what it returns.
  pub record IsBought (effects : List Effect) (bought : ResaleBuyResult) : Type 0 where
    pub calls : List SettlementCall
    pub tx : Text
    pub settled : IsSettled calls tx
    pub status : ℕ
    pub payload : Option Json
    pub minted : outside.mint (request_of buyer plan want tx) ≡ answered status payload
    pub accepted : is_ok_status status ≡ true
    pub effects_are : effects ≡ (
        approve_multicall plan.total_atomic
        ∷ aggregate calls
        ∷ commit_mint (request_of buyer plan want tx)
        ∷ provisioned (said "toToken" payload))
    pub bought_is : bought ≡ (record {
      buyer = buyer;
      legs_paid = length plan.outputs;
      total_atomic = plan.total_atomic;
      to = to_of payload;
      to_token = said "toToken" payload;
    })

  -- The ways to fail: the calls that were made, and the error.
  pub data Fails : List Effect → BuyError → Type 0 where
    unset_variables :
        (name : Variable) (names : List Variable)
        → missing_variables env ≡ name ∷ names
        → Fails [] (threw 503 (variables_missing (name ∷ names)))
    unset_key :
        missing_variables env ≡ [] → read_app_key env ≡ none → Fails [] (threw 503 app_key_missing)
    short :
        (balance : ℕ)
        → IsReady
        → outside.balance_of buyer ≡ some balance
        → balance < big_int plan.total_atomic
        → Fails [] (threw 502 balance_low)
    unapproved :
        (e : Text)
        → IsReady
        → CanPay
        → outside.execute (approve_multicall plan.total_atomic) ≡ not_executed e
        → Fails (approve_multicall plan.total_atomic ∷ []) (threw 502 (approve_failed e))
    unencoded :
        (e : EncodingError)
        → IsApproved
        → build_settlement_calls outside.is_address buyer plan.outputs ≡ err e
        → Fails (approve_multicall plan.total_atomic ∷ []) (encoding_error e)
    unsettled :
        (calls : List SettlementCall) (e : Text)
        → IsApproved
        → IsEncoded calls
        → outside.execute (aggregate calls) ≡ not_executed e
        → Fails
            (approve_multicall plan.total_atomic ∷ aggregate calls ∷ [])
            (threw 502 (settlement_failed e))
    unreached :
        (calls : List SettlementCall) (tx e : Text)
        → IsSettled calls tx
        → outside.mint (request_of buyer plan want tx) ≡ unreachable e
        → Fails
            (approve_multicall plan.total_atomic
              ∷ aggregate calls
              ∷ commit_mint (request_of buyer plan want tx)
              ∷ [])
            (threw 502 (mint_unreachable e))
    conflict :
        (calls : List SettlementCall) (tx : Text) (payload : Option Json)
        → IsSettled calls tx
        → outside.mint (request_of buyer plan want tx) ≡ answered 409 payload
        → Fails
            (approve_multicall plan.total_atomic
              ∷ aggregate calls
              ∷ commit_mint (request_of buyer plan want tx)
              ∷ [])
            (threw 409 (mint_reason 409 (said "message" payload)))
    refused :
        (calls : List SettlementCall) (tx : Text) (status : ℕ) (payload : Option Json)
        → IsSettled calls tx
        → outside.mint (request_of buyer plan want tx) ≡ answered status payload
        → is_ok_status status ≡ false
        → status ≢ 409
        → Fails
            (approve_multicall plan.total_atomic
              ∷ aggregate calls
              ∷ commit_mint (request_of buyer plan want tx)
              ∷ [])
            (threw 502 (mint_reason status (said "message" payload)))

  -- What a run shows for.
  abbrev pub IsOutcome : List Effect → Result BuyError ResaleBuyResult → Type 0
  IsOutcome effects (ok bought) = IsBought effects bought
  IsOutcome effects (err error) = Fails effects error
