-- ===== src/Resale/Failures.antt =====
-- app/lib/resale-execute.ts: how a purchase fails.
use mathlib.Core.Path.{subst}
use coalition.Base.{◌≡◌, ◌↔◌, refl, ap, ◌∙◌, List, Text, Result, err}
use coalition.Resale.{FillPlan, FillPlanWant}
use coalition.Resale.Execute.{
  mint_request, Environment, BuyError, ResaleBuyResult, Effect, Services, Run, after_mint, with_key,
  minting, after_settlement, after_encoding, after_approval, execute_resale_buy,
}
use coalition.Resale.Outcomes.{
  Fails, unset_variables, unset_key, short, unapproved, unencoded, unsettled, unreached, conflict,
  refused,
}
use coalition.Resale.Stages.{
  after_mint-conflict, after_mint-refused, execute_resale_buy-IsReady, buy_with_key-short,
  buy_with_key-CanPay, execute_resale_buy-IsApproved, execute_resale_buy-IsEncoded,
  execute_resale_buy-IsSettled,
}
use coalition.Resale.Shown.{Shows, execute_resale_buy-Shows}

module _ (env : Environment) (outside : Services) (buyer : Text) (plan : FillPlan)
    (want : FillPlanWant) where
  abbrev run : Run
  run = execute_resale_buy env outside buyer plan want

  abbrev of_run : List Effect → Result BuyError ResaleBuyResult → Run
  of_run effects result = record { effects = effects; result = result }

  fails :
      (effects : List Effect) (error : BuyError)
      → Fails env outside buyer plan want effects error
      → run ≡ of_run effects (err error)
  unfolding mint_request execute_resale_buy with_key after_approval after_encoding after_settlement
      after_mint
  fails _ _ (unset_variables name names h) = rw (h, execute_resale_buy) refl
  fails _ _ (unset_key h k) = rw (h, k, execute_resale_buy) refl
  fails _ _ (short balance ready shown low) =
      execute_resale_buy-IsReady env outside buyer plan want ready
      ∙ buy_with_key-short env outside buyer plan want balance shown low
  fails _ _ (unapproved e ready can_pay h) =
      execute_resale_buy-IsReady env outside buyer plan want ready
      ∙ buy_with_key-CanPay env outside buyer plan want can_pay
      ∙ ap (after_approval outside buyer plan want) h
  fails _ _ (unencoded e approved h) =
      execute_resale_buy-IsApproved env outside buyer plan want approved
      ∙ ap (after_encoding outside buyer plan want) h
  fails _ _ (unsettled calls e approved encoded h) =
      execute_resale_buy-IsEncoded env outside buyer plan want calls approved encoded
      ∙ ap (after_settlement outside buyer plan want calls) h
  fails _ _ (unreached calls tx e settled h) =
      execute_resale_buy-IsSettled env outside buyer plan want calls tx settled
      ∙ ap (after_mint buyer plan (minting outside buyer plan want calls tx)) h
  fails _ _ (conflict calls tx payload settled h) =
      execute_resale_buy-IsSettled env outside buyer plan want calls tx settled
      ∙ ap (after_mint buyer plan (minting outside buyer plan want calls tx)) h
      ∙ after_mint-conflict buyer plan (minting outside buyer plan want calls tx) payload
  fails _ _ (refused calls tx status payload settled h bad other) =
      execute_resale_buy-IsSettled env outside buyer plan want calls tx settled
      ∙ ap (after_mint buyer plan (minting outside buyer plan want calls tx)) h
      ∙ after_mint-refused buyer plan (minting outside buyer plan want calls tx) status payload bad
          other

  -- A purchase makes given calls and fails with a given error exactly in one of these ways. It makes no
  -- call: a variable or the key is not set, with 503, or the balance is known to be below the total,
  -- with 502. It asks only for the approval: this is not executed, with 502, or an account or an
  -- amount cannot be encoded, which throws no error of the purchase. It sends the payouts, and these
  -- are not executed, with 502. It asks for the mint after the payouts were executed: this is refused
  -- with 409, with 409, or cannot be reached or is refused with another status, with 502.
  pub execute_resale_buy-Fails :
      (effects : List Effect) (error : BuyError)
      → (execute_resale_buy env outside buyer plan want
          ≡ (record { effects = effects; result = err error }))
        ↔ Fails env outside buyer plan want effects error
  execute_resale_buy-Fails effects error = (
    λ h.
        subst (Shows env outside buyer plan want) h
          (execute_resale_buy-Shows env outside buyer plan want),
    fails effects error,
  )
