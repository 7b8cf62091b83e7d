-- ===== src/Resale/Shown.antt =====
-- app/lib/resale-execute.ts: each way through `executeResaleBuy`, call by call.
use mathlib.Core.Path.{subst}
use coalition.Base.{
  ◌≡◌, ◌≢◌, refl, inl, inr, Option, none, some, List, [], ◌∷◌, Text, ◌==◌, Bool-cases, Result, ok,
  err, ==_iff, ap, sym, ◌∙◌,
}
use coalition.Json.{is_ok_status}
use coalition.Circle.{Execution, executed, not_executed}
use coalition.Resale.{FillPlan, FillPlanWant, SettlementCall, EncodingError, build_settlement_calls}
use coalition.Resale.Execute.{
  Environment, Variable, missing_variables, read_app_key, variables_missing, approve_multicall,
  aggregate, MintAnswer, unreachable, answered, Services, Run, fail, after_mint, mint_request,
  minting, after_settlement, after_encoding, after_approval, buy_with_key, with_key,
  execute_resale_buy,
}
use coalition.Resale.Outcomes.{
  IsReady, CanPay, IsApproved, IsEncoded, IsSettled, unset_variables, unset_key, short, unapproved,
  unencoded, unsettled, unreached, conflict, refused, IsOutcome,
}
use coalition.Resale.Stages.{
  after_mint-accepted, after_mint-conflict, after_mint-refused, short_of_cases, buy_with_key-short,
  buy_with_key-CanPay,
}

module _ (env : Environment) (outside : Services) (buyer : Text) (plan : FillPlan)
    (want : FillPlanWant) where
  abbrev pub Shows : Run → Type 0
  Shows run = IsOutcome env outside buyer plan want run.effects run.result

  mint_outcome :
      (calls : List SettlementCall) (tx : Text) (answer : MintAnswer)
      → IsSettled env outside buyer plan want calls tx
      → outside.mint (mint_request buyer plan want tx) ≡ answer
      → Shows (after_mint buyer plan (minting outside buyer plan want calls tx) answer)
  unfolding mint_request after_mint
  mint_outcome calls tx (unreachable e) settled m = unreached calls tx e settled m
  mint_outcome calls tx (answered status payload) settled m =
      let effects = minting outside buyer plan want calls tx in
      elim (Bool-cases (is_ok_status status)) [
        | inl good ↦
            subst Shows (sym (after_mint-accepted buyer plan effects status payload good)) (record {
              calls = calls;
              tx = tx;
              settled = settled;
              status = status;
              payload = payload;
              minted = m;
              accepted = good;
              effects_are = refl;
              bought_is = refl;
            })
        | inr bad ↦ elim (Bool-cases (status == 409)) [
          | inl same ↦
              let is_409 = (==_iff status 409).0 same in
              let e = ap (λ n. after_mint buyer plan effects (answered n payload)) is_409 in
              subst Shows (sym (e ∙ after_mint-conflict buyer plan effects payload))
                (conflict calls tx payload settled (m ∙ ap (λ n. answered n payload) is_409))
          | inr other ↦
              let differs : status ≢ 409 = λ e. cc (other, (==_iff status 409).1 e) in
              subst Shows (sym (after_mint-refused buyer plan effects status payload bad differs))
                (refused calls tx status payload settled m bad differs)
        ]
      ]

  settlement_outcome :
      (calls : List SettlementCall) (settlement : Execution)
      → IsApproved env outside buyer plan want
      → IsEncoded env outside buyer plan want calls
      → outside.execute (aggregate calls) ≡ settlement
      → Shows (after_settlement outside buyer plan want calls settlement)
  unfolding after_settlement
  settlement_outcome calls (not_executed e) approved encoded s =
      unsettled calls e approved encoded s
  settlement_outcome calls (executed tx) approved encoded s =
      mint_outcome calls tx _ (approved, encoded, s) refl

  encoding_outcome :
      (encoding : Result EncodingError (List SettlementCall))
      → IsApproved env outside buyer plan want
      → build_settlement_calls outside.is_address buyer plan.outputs ≡ encoding
      → Shows (after_encoding outside buyer plan want encoding)
  unfolding after_encoding
  encoding_outcome (err e) approved b = unencoded e approved b
  encoding_outcome (ok calls) approved b = settlement_outcome calls _ approved b refl

  approval_outcome :
      (approval : Execution)
      → IsReady env outside buyer plan want
      → CanPay env outside buyer plan want
      → outside.execute (approve_multicall plan.total_atomic) ≡ approval
      → Shows (after_approval outside buyer plan want approval)
  unfolding after_approval
  approval_outcome (not_executed e) ready can_pay a = unapproved e ready can_pay a
  approval_outcome (executed tx) ready can_pay a = encoding_outcome _ (ready, can_pay, (tx, a)) refl

  ready_outcome : IsReady env outside buyer plan want → Shows (buy_with_key outside buyer plan want)
  ready_outcome ready = elim (short_of_cases env outside buyer plan want) [
    | inl can_pay ↦
        subst Shows (sym (buy_with_key-CanPay env outside buyer plan want can_pay))
          (approval_outcome _ ready can_pay refl)
    | inr (balance, shown, low) ↦
        subst Shows (sym (buy_with_key-short env outside buyer plan want balance shown low))
          (short balance ready shown low)
  ]

  key_outcome :
      (key : Option Text)
      → missing_variables env ≡ []
      → read_app_key env ≡ key
      → Shows (with_key outside buyer plan want key)
  unfolding with_key
  key_outcome none set k = unset_key set k
  key_outcome (some key) set k = ready_outcome (set, (key, k))

  variables_outcome :
      (names : List Variable)
      → missing_variables env ≡ names
      → Shows (elim names [
        | [] ↦ with_key outside buyer plan want (read_app_key env)
        | name ∷ rest ↦ fail [] 503 (variables_missing (name ∷ rest))
      ])
  variables_outcome [] m = key_outcome _ m refl
  variables_outcome (name ∷ rest) m = unset_variables name rest m

  pub execute_resale_buy-Shows : Shows (execute_resale_buy env outside buyer plan want)
  unfolding execute_resale_buy
  execute_resale_buy-Shows = variables_outcome (missing_variables env) refl
