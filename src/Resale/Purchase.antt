-- ===== src/Resale/Purchase.antt =====
-- app/lib/resale-execute.ts: when a purchase succeeds.
use mathlib.Core.Path.{subst}
use coalition.Base.{◌≡◌, ◌↔◌, sym, ap, ◌∙◌, List, Text, Result, ok}
use coalition.Resale.{FillPlan, FillPlanWant}
use coalition.Resale.Execute.{
  mint_request, Environment, BuyError, ResaleBuyResult, Effect, Services, Run, after_mint, minting,
  execute_resale_buy,
}
use coalition.Resale.Outcomes.{IsBought}
use coalition.Resale.Stages.{bought_run, after_mint-accepted, execute_resale_buy-IsSettled}
use coalition.Resale.Shown.{Shows, execute_resale_buy-Shows}

module _ (env : Environment) (outside : Services) (buyer : Text) (plan : FillPlan)
    (want : FillPlanWant) where
  abbrev run : Run
  run = execute_resale_buy env outside buyer plan want

  abbrev of_run : List Effect → Result BuyError ResaleBuyResult → Run
  of_run effects result = record { effects = effects; result = result }

  completes :
      (effects : List Effect) (bought : ResaleBuyResult)
      → IsBought env outside buyer plan want effects bought
      → run ≡ of_run effects (ok bought)
  unfolding mint_request
  completes effects bought b =
      let calls = b.calls in
      let made = minting outside buyer plan want b.calls b.tx in
      let reached : run ≡ bought_run buyer plan made b.payload =
        execute_resale_buy-IsSettled env outside buyer plan want b.calls b.tx b.settled
        ∙ ap (after_mint buyer plan made) b.minted
        ∙ after_mint-accepted buyer plan made b.status b.payload b.accepted in
      reached
      ∙ sym (
          ap (λ e. of_run e (ok bought)) b.effects_are
          ∙ ap (λ r. of_run (bought_run buyer plan made b.payload).effects (ok r)) b.bought_is)

  -- A purchase makes given calls and succeeds with a given result exactly if the variables and a key are
  -- set, the buyer's balance is not known to be below the total, the approval was executed, then the
  -- payouts, which could be encoded, and the mint, which is given the hash of the payouts, was
  -- answered in the 200s; the calls are then these three in this order, and the provisioning where
  -- the mint gave a token, and the result counts the plan's outputs.
  pub execute_resale_buy-IsBought :
      (effects : List Effect) (bought : ResaleBuyResult)
      → (execute_resale_buy env outside buyer plan want
          ≡ (record { effects = effects; result = ok bought }))
        ↔ IsBought env outside buyer plan want effects bought
  execute_resale_buy-IsBought effects bought = (
    λ h.
        subst (Shows env outside buyer plan want) h
          (execute_resale_buy-Shows env outside buyer plan want),
    completes effects bought,
  )
