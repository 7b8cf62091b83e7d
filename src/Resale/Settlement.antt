-- ===== src/Resale/Settlement.antt =====
-- What the payouts of a checked plan add up to, and whom they pay.
use mathlib.Core.Bool.{false≢true}
use mathlib.Core.Path.{subst}
use coalition.Base.{
  ℕ, ◌+◌, ◌^◌, ◌<◌, ltb, Bool, map_result, ◌≡◌, ◌≢◌, refl, sym, ap, ◌∙◌, true, false, Option, List,
  [], ◌∷◌, arith, Text, All, address_pattern, ok, Zipped, done, both,
}
use coalition.Base.Decimal.{big_int}
use coalition.Json.{Json}
use coalition.Resale.{
  FillPlanOutput, FillPlan, text_ltb, positive_amount, ascending, sum_of, parse_fill_plan,
  SettlementCall, fits_uint256, encode_transfer, build_settlement_calls,
}
use coalition.Resale.Plans.{IsOutput, parse_fill_plan-IsFillPlan}

text_ltb_irrefl : (s : Text) → text_ltb s s ≡ false
unfolding text_ltb
text_ltb_irrefl [] = refl
text_ltb_irrefl (c ∷ s) = ground (arith, text_ltb_irrefl s)

text_ltb_trans : (s t u : Text) → text_ltb s t ≡ true → text_ltb t u ≡ true → text_ltb s u ≡ true
unfolding text_ltb
text_ltb_trans [] [] u h k = cc
text_ltb_trans [] (d ∷ t) [] h k = cc
text_ltb_trans [] (d ∷ t) (e ∷ u) h k = refl
text_ltb_trans (c ∷ s) [] u h k = cc
text_ltb_trans (c ∷ s) (d ∷ t) [] h k = cc
text_ltb_trans (c ∷ s) (d ∷ t) (e ∷ u) h k = ground (arith, text_ltb_trans s t u)

-- No two entries pay the same account, as a text: one address has several spellings.
abbrev pub PayDistinct : List SettlementCall → Type 0
PayDistinct [] = Unit
PayDistinct (call ∷ calls) = All (λ other. call.payee ≢ other.payee) calls × PayDistinct calls

pub total_paid : List SettlementCall → ℕ
total_paid [] = 0
total_paid (call ∷ calls) = call.amount + total_paid calls

-- A transfer for each output, without the encoding.
transfers : Text → List FillPlanOutput → List SettlementCall
transfers buyer [] = []
transfers buyer (output ∷ outputs) =
    record { payer = buyer; payee = output.account; amount = big_int output.amount_atomic }
    ∷ transfers buyer outputs

fits_part : (a b bound : ℕ) → a + b < bound → (ltb a bound ≡ true) × (b < bound)
fits_part a b bound h = (ground (arith, h), omega (arith, h))

module _ (buyer : Text) where
  total_paid-transfers :
      (outputs : List FillPlanOutput) → total_paid (transfers buyer outputs) ≡ sum_of outputs
  unfolding total_paid transfers sum_of
  total_paid-transfers [] = refl
  total_paid-transfers (output ∷ outputs) = omega (arith, total_paid-transfers outputs)

  abbrev IsBelow : Text → List FillPlanOutput → Type 0
  IsBelow s [] = Unit
  IsBelow s (output ∷ outputs) = text_ltb s output.account ≡ true

  ascending_parts :
      (output : FillPlanOutput) (outputs : List FillPlanOutput)
      → ascending (output ∷ outputs) ≡ true
      → IsBelow output.account outputs × (ascending outputs ≡ true)
  unfolding ascending
  ascending_parts output [] h = (tt, refl)
  ascending_parts output (next ∷ outputs) h = (ground (arith, h), ground (arith, h))

  IsBelow-trans :
      (s t : Text) (outputs : List FillPlanOutput)
      → text_ltb s t ≡ true
      → IsBelow t outputs
      → IsBelow s outputs
  IsBelow-trans s t [] h k = tt
  IsBelow-trans s t (output ∷ outputs) h k = text_ltb_trans s t output.account h k

  differ : (s t : Text) → text_ltb s t ≡ true → s ≢ t
  differ s t h e = false≢true (sym (text_ltb_irrefl s) ∙ ap (text_ltb s) e ∙ h)

  above-All :
      (s : Text) (outputs : List FillPlanOutput)
      → IsBelow s outputs
      → ascending outputs ≡ true
      → All (λ (other : SettlementCall). s ≢ other.payee) (transfers buyer outputs)
  unfolding transfers
  above-All s [] b h = tt
  above-All s (output ∷ outputs) b h =
      let (below, rest) = ascending_parts output outputs h in
      (
        differ s output.account b,
        above-All s outputs (IsBelow-trans s output.account outputs b below) rest,
      )

  pay_distinct :
      (outputs : List FillPlanOutput)
      → ascending outputs ≡ true
      → PayDistinct (transfers buyer outputs)
  unfolding transfers
  pay_distinct [] h = tt
  pay_distinct (output ∷ outputs) h =
      let (below, rest) = ascending_parts output outputs h in
      (above-All output.account outputs below rest, pay_distinct outputs rest)

  -- A transfer from the buyer, of something, to an address.
  abbrev pub IsPayout : SettlementCall → Type 0
  IsPayout call = (call.payer ≡ buyer) × (address_pattern call.payee ≡ true) × (0 < call.amount)

  positive : (s : Text) → positive_amount s ≡ true → 0 < big_int s
  unfolding positive_amount
  positive s h = ground (arith, h)

  payouts-All :
      (entries : List Json) (outputs : List FillPlanOutput)
      → Zipped IsOutput entries outputs
      → All IsPayout (transfers buyer outputs)
  unfolding transfers
  payouts-All [] [] done = tt
  payouts-All [] (output ∷ outputs) z = elim z [ ]
  payouts-All (entry ∷ entries) [] z = elim z [ ]
  payouts-All (entry ∷ entries) (output ∷ outputs) (both r rest) = (
    (refl, r.account_is_address, positive output.amount_atomic r.amount_is_positive),
    payouts-All entries outputs rest,
  )

  module _ (is_address : Text → Bool) where
    build_settlement_calls-transfers :
        (outputs : List FillPlanOutput)
        → is_address buyer ≡ true
        → All (λ output. is_address output.account ≡ true) outputs
        → sum_of outputs < 2 ^ 256
        → build_settlement_calls is_address buyer outputs ≡ ok (transfers buyer outputs)
    unfolding transfers encode_transfer fits_uint256 sum_of map_result
    build_settlement_calls-transfers [] b valid fits = refl
    build_settlement_calls-transfers (output ∷ outputs) b (valid, rest) fits =
        let (fitting, small) =
          fits_part (big_int output.amount_atomic) (sum_of outputs) (2 ^ 256) fits in
        rw (b, valid, fitting, build_settlement_calls-transfers outputs b rest small) refl

    -- The payouts that settle a plan which `parseFillPlan` let through are built, where the buyer and
    -- every account pass the encoding's test of an address and the plan's total fits a `uint256`. They
    -- are then transfers from the buyer of amounts above 0 to texts of the form of an address, no two
    -- to the same text, and they add up to the plan's total, which is what the buyer approves.
    pub build_settlement_calls-total :
        (value : Option Json) (plan : FillPlan)
        → parse_fill_plan value ≡ ok plan
        → is_address buyer ≡ true
        → All (λ output. is_address output.account ≡ true) plan.outputs
        → big_int plan.total_atomic < 2 ^ 256
        → (calls : List SettlementCall) × (build_settlement_calls is_address buyer plan.outputs
            ≡ ok calls)
          × (total_paid calls ≡ big_int plan.total_atomic)
          × All IsPayout calls
          × PayDistinct calls
    build_settlement_calls-total value plan h b valid fits =
        let parsed = (parse_fill_plan-IsFillPlan value plan).0 h in
        (
          transfers buyer plan.outputs,
          build_settlement_calls-transfers plan.outputs b valid
              (subst (λ n. n < 2 ^ 256) (sym parsed.adds_up) fits),
          total_paid-transfers plan.outputs ∙ parsed.adds_up,
          payouts-All _ plan.outputs parsed.outputs_agree,
          pay_distinct plan.outputs parsed.are_ascending,
        )
