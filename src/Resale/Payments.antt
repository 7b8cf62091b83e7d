-- ===== src/Resale/Payments.antt =====
-- app/lib/resale-execute.ts: when a purchase sends its payouts.
use mathlib.Core.Path.{subst}
use coalition.Base.{
  ◌≡◌, ◌↔◌, refl, sym, ap, ◌∙◌, Option, none, some, List, [], ◌∷◌, Text, Bool-cases, inl, inr,
  Result, ok, err,
}
use coalition.Json.{is_ok_status}
use coalition.Circle.{Execution, executed, not_executed}
use coalition.Resale.{FillPlan, FillPlanWant, SettlementCall}
use coalition.Resale.Execute.{
  Environment, BuyError, ResaleBuyResult, Effect, approve_multicall, aggregate, commit_mint,
  provision, MintAnswer, unreachable, answered, Services, Run, provisioned, after_mint, minting,
  after_settlement, execute_resale_buy,
}
use coalition.Resale.Outcomes.{
  IsApproved, IsEncoded, Fails, unset_variables, unset_key, short, unapproved, unencoded, unsettled,
  unreached, conflict, refused, IsOutcome, said,
}
use coalition.Resale.Stages.{execute_resale_buy-IsEncoded}
use coalition.Resale.Shown.{execute_resale_buy-Shows}

-- The lists of transfers that are sent, in order.
unfoldable pub payments : List Effect → List (List SettlementCall)
payments [] = []
payments (approve_multicall amount ∷ effects) = payments effects
payments (aggregate calls ∷ effects) = calls ∷ payments effects
payments (commit_mint request ∷ effects) = payments effects
payments (provision token ∷ effects) = payments effects

payments-provisioned : (token : Option Text) → payments (provisioned token) ≡ []
unfolding payments provisioned
payments-provisioned none = refl
payments-provisioned (some token) = refl

head_injective :
    {a b : List SettlementCall} → ◌≡◌ {A = List (List SettlementCall)} (a ∷ []) (b ∷ []) → a ≡ b
head_injective h = cc

module _ (env : Environment) (outside : Services) (buyer : Text) (plan : FillPlan)
    (want : FillPlanWant) where
  abbrev Paid : List SettlementCall → Type 0
  Paid calls = IsApproved env outside buyer plan want × IsEncoded env outside buyer plan want calls

  -- Calls that were sent and encoded, where they are those of the one payment.
  sent :
      (calls others : List SettlementCall)
      → Paid others
      → ◌≡◌ {A = List (List SettlementCall)} (others ∷ []) (calls ∷ [])
      → Paid calls
  sent calls others h e = subst Paid (head_injective e) h

  failed-Paid :
      (calls : List SettlementCall) (effects : List Effect) (error : BuyError)
      → Fails env outside buyer plan want effects error
      → payments effects ≡ calls ∷ []
      → Paid calls
  unfolding payments
  failed-Paid calls _ _ (unset_variables name names h) e = cc
  failed-Paid calls _ _ (unset_key h k) e = cc
  failed-Paid calls _ _ (short balance ready shown low) e = cc
  failed-Paid calls _ _ (unapproved e ready can_pay h) p = cc
  failed-Paid calls _ _ (unencoded e approved h) p = cc
  failed-Paid calls _ _ (unsettled others e approved encoded h) p =
      sent calls others (approved, encoded) p
  failed-Paid calls _ _ (unreached others tx e (approved, encoded, _) h) p =
      sent calls others (approved, encoded) p
  failed-Paid calls _ _ (conflict others tx payload (approved, encoded, _) h) p =
      sent calls others (approved, encoded) p
  failed-Paid calls _ _ (refused others tx status payload (approved, encoded, _) h bad other) p =
      sent calls others (approved, encoded) p

  outcome-Paid :
      (calls : List SettlementCall) (effects : List Effect)
      (result : Result BuyError ResaleBuyResult)
      → IsOutcome env outside buyer plan want effects result
      → payments effects ≡ calls ∷ []
      → Paid calls
  unfolding payments
  outcome-Paid calls effects (err error) h p = failed-Paid calls effects error h p
  outcome-Paid calls effects (ok bought) h p =
      let (approved, encoded, _) = h.settled in
      let one : payments effects ≡ h.calls ∷ [] =
        ap payments h.effects_are
        ∙ ap (λ rest. h.calls ∷ rest) (payments-provisioned (said "toToken" h.payload)) in
      sent calls h.calls (approved, encoded) (sym one ∙ p)

  mint_payments :
      (calls : List SettlementCall) (tx : Text) (answer : MintAnswer)
      → payments (after_mint buyer plan (minting outside buyer plan want calls tx) answer).effects
        ≡ calls ∷ []
  unfolding payments after_mint
  mint_payments calls tx (unreachable e) = refl
  mint_payments calls tx (answered status payload) = elim (Bool-cases (is_ok_status status)) [
    | inl good ↦ rw good (ap (λ rest. calls ∷ rest) (payments-provisioned (said "toToken" payload)))
    | inr bad ↦ rw bad refl
  ]

  settlement_payments :
      (calls : List SettlementCall) (settlement : Execution)
      → payments (after_settlement outside buyer plan want calls settlement).effects ≡ calls ∷ []
  unfolding payments after_settlement
  settlement_payments calls (not_executed e) = refl
  settlement_payments calls (executed tx) = mint_payments calls tx _

  -- The purchase sends given transfers, and these once, exactly if the approval was executed and its
  -- payouts are encoded as these.
  pub payments-execute_resale_buy :
      (calls : List SettlementCall)
      → (payments (execute_resale_buy env outside buyer plan want).effects ≡ calls ∷ [])
        ↔ (IsApproved env outside buyer plan want × IsEncoded env outside buyer plan want calls)
  payments-execute_resale_buy calls = (
    λ p. outcome-Paid calls _ _ (execute_resale_buy-Shows env outside buyer plan want) p,
    λ (approved, encoded).
        ap (λ (r : Run). payments r.effects)
          (execute_resale_buy-IsEncoded env outside buyer plan want calls approved encoded)
        ∙ settlement_payments calls (outside.execute (aggregate calls)),
  )
