-- ===== src/Resale/BuyRoute/Purchases.antt =====
-- Which requests make the route pay.
use coalition.Base.{
  ◌≡◌, ◌↔◌, refl, ap, ◌∙◌, inl, inr, true, Option, none, some, List, [], ◌∷◌, Text, Bool-cases,
  Result, ok, err,
}
use coalition.Json.{Json, get_from, is_plain_record}
use coalition.Resale.{
  FillPlan, FillPlanWant, PlanError, SettlementCall, parse_fill_plan, parse_plan_want,
}
use coalition.Resale.Plans.{IsFillPlan, parse_fill_plan-IsFillPlan}
use coalition.Resale.Wants.{IsWant, parse_plan_want-IsWant}
use coalition.Resale.Execute.{Variable, missing_variables, read_app_key}
use coalition.Resale.Outcomes.{IsApproved, IsEncoded}
use coalition.Resale.Payments.{payments, payments-execute_resale_buy}
use coalition.Resale.BuyRoute.{
  BuyServices, BuyRun, answer_of, purchase, after_want, after_plan, with_plan, after_body,
  with_app_key, with_variables, resale_buy,
}

module _ (given : BuyServices) where
  -- The body holds a fill plan with a want.
  abbrev pub Holds : Option Json → FillPlan → FillPlanWant → Type 0
  Holds body plan want =
      (is_plain_record body ≡ true)
      × IsFillPlan (get_from "plan" body) plan
      × IsWant (get_from "want" (get_from "plan" body)) want

  -- The approval of the plan's total was executed, after what is tested before it, and its payouts are
  -- encoded as these transfers.
  abbrev pub IsPayable : FillPlan → FillPlanWant → List SettlementCall → Type 0
  IsPayable plan want calls =
      IsApproved given.environment given.services given.buyer plan want
      × IsEncoded given.environment given.services given.buyer plan want calls

  abbrev Pays : List SettlementCall → BuyRun → Type 0
  Pays calls run = payments run.effects ≡ calls ∷ []

  bought_run : FillPlan → FillPlanWant → BuyRun
  bought_run plan want = record {
    answer = answer_of given want (purchase given plan want).result;
    effects = (purchase given plan want).effects;
  }

  with_plan_lem :
      (value : Option Json) (plan : FillPlan) (want : FillPlanWant)
      → IsFillPlan value plan
      → IsWant (get_from "want" value) want
      → with_plan given value ≡ bought_run plan want
  unfolding after_plan after_want bought_run
  with_plan_lem none plan want h k = let impossible = h.is_object in cc
  with_plan_lem (some value) plan want h k = rw (
    (parse_fill_plan-IsFillPlan (some value) plan).1 h,
    h.is_object,
    (parse_plan_want-IsWant (get_from "want" (some value)) want).1 k,
  )

  buys :
      (body : Option Json) (plan : FillPlan) (want : FillPlanWant) (key : Text)
      → Holds body plan want
      → missing_variables given.environment ≡ []
      → read_app_key given.environment ≡ some key
      → resale_buy given body ≡ bought_run plan want
  unfolding resale_buy after_body
  buys none plan want key (plain, h, k) set has_key = cc
  buys (some body) plan want key (plain, h, k) set has_key =
      rw (set, has_key, plain) (with_plan_lem (get_from "plan" (some body)) plan want h k)

  -- A run that pays has passed each guard.
  abbrev Bought : Option Json → List SettlementCall → Type 0
  Bought value calls =
      (plan : FillPlan) × (want : FillPlanWant) × IsFillPlan value plan
      × IsWant (get_from "want" value) want
      × IsPayable plan want calls

  after_want-Pays :
      (plan : FillPlan) (value : Option Json) (parsed : Result PlanError FillPlanWant)
      (calls : List SettlementCall)
      → parse_plan_want value ≡ parsed
      → Pays calls (after_want given plan parsed)
      → (want : FillPlanWant) × IsWant value want × IsPayable plan want calls
  unfolding after_want payments
  after_want-Pays plan value (err e) calls p h = cc
  after_want-Pays plan value (ok want) calls p h = (
    want,
    (parse_plan_want-IsWant value want).0 p,
    (payments-execute_resale_buy given.environment given.services given.buyer plan want calls).0 h,
  )

  after_plan-Pays :
      (value : Option Json) (parsed : Result PlanError FillPlan) (calls : List SettlementCall)
      → parse_fill_plan value ≡ parsed
      → Pays calls (after_plan given value parsed)
      → Bought value calls
  unfolding after_plan payments
  after_plan-Pays value (err e) calls p h = cc
  after_plan-Pays value (ok plan) calls p h =
      let is_plan = (parse_fill_plan-IsFillPlan value plan).0 p in
      let (want, is_want, paid) =
        after_want-Pays plan (get_from "want" value) _ calls refl (rw is_plan.is_object at h) in
      (plan, want, is_plan, is_want, paid)

  with_plan-Pays :
      (value : Option Json) (calls : List SettlementCall)
      → Pays calls (with_plan given value)
      → Bought value calls
  unfolding payments
  with_plan-Pays none calls h = cc
  with_plan-Pays (some value) calls h = after_plan-Pays (some value) _ calls refl h

  abbrev Requested : Option Json → List SettlementCall → Type 0
  Requested body calls =
      (plan : FillPlan) × (want : FillPlanWant) × Holds body plan want × IsPayable plan want calls

  after_body-Pays :
      (body : Option Json) (calls : List SettlementCall)
      → Pays calls (after_body given body)
      → Requested body calls
  unfolding after_body payments
  after_body-Pays none calls h = cc
  after_body-Pays (some body) calls h = elim (Bool-cases (is_plain_record (some body))) [
    | inl plain ↦
        let (plan, want, is_plan, is_want, paid) =
          with_plan-Pays (get_from "plan" (some body)) calls (rw plain at h) in
        (plan, want, (plain, is_plan, is_want), paid)
    | inr other ↦ cc (rw other at h)
  ]

  with_app_key-Pays :
      (body : Option Json) (key : Option Text) (calls : List SettlementCall)
      → Pays calls (with_app_key given body key)
      → Requested body calls
  unfolding payments
  with_app_key-Pays body none calls h = cc
  with_app_key-Pays body (some key) calls h = after_body-Pays body calls h

  with_variables-Pays :
      (body : Option Json) (names : List Variable) (calls : List SettlementCall)
      → Pays calls (with_variables given body names)
      → Requested body calls
  unfolding payments
  with_variables-Pays body [] calls h = with_app_key-Pays body _ calls h
  with_variables-Pays body (name ∷ names) calls h = cc

  -- The route sends given transfers, and these once, exactly if the request's body holds a fill plan and
  -- a want, the variables and a key are set, the buyer's balance is not known to be below the plan's
  -- total, the approval was executed, and the plan's outputs are encoded as these transfers. Nothing
  -- else is asked of the request, so any body of this form is paid as it says.
  pub payments-resale_buy :
      (body : Option Json) (calls : List SettlementCall)
      → (payments (resale_buy given body).effects ≡ calls ∷ []) ↔ (
          (plan : FillPlan) × (want : FillPlanWant) × Holds body plan want
          × IsPayable plan want calls)
  unfolding resale_buy bought_run
  payments-resale_buy body calls = (
    λ h. with_variables-Pays body (missing_variables given.environment) calls h,
    λ (plan, want, holds, payable).
        let ((set, (key, has_key)), _, _) = payable.0 in
        ap (λ (r : BuyRun). payments r.effects) (buys body plan want key holds set has_key)
        ∙ (payments-execute_resale_buy given.environment given.services given.buyer plan want
              calls).1
            payable,
  )
