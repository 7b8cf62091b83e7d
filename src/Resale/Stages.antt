-- ===== src/Resale/Stages.antt =====
-- app/lib/resale-execute.ts: `executeResaleBuy` up to each of its calls, under what these answered.
use coalition.Base.{
  ℕ, ◌≡◌, ◌≢◌, ◌<◌, ◌⊎◌, refl, inl, inr, true, false, Option, some, List, [], ◌++◌, arith, Text,
  length, ◌==◌, ltb, Option-cases, Bool-cases, ok, ==_iff, ap, ◌∙◌,
}
use coalition.Base.Decimal.{big_int}
use coalition.Json.{Json, is_ok_status}
use coalition.Resale.{FillPlan, FillPlanWant, SettlementCall, build_settlement_calls}
use coalition.Resale.Execute.{
  Environment, balance_low, Effect, approve_multicall, aggregate, answered, Services, Run, fail,
  to_of, mint_reason, provisioned, after_mint, mint_request, minting, after_settlement,
  after_encoding, after_approval, short_of, buy_with_key, with_key, execute_resale_buy,
}
use coalition.Resale.Outcomes.{said, IsReady, CanPay, IsApproved, IsEncoded, IsSettled}

abbrev pub bought_run : Text → FillPlan → List Effect → Option Json → Run
bought_run buyer plan effects payload = record {
  effects = effects ++ provisioned (said "toToken" payload);
  result = ok (record {
    buyer = buyer;
    legs_paid = length plan.outputs;
    total_atomic = plan.total_atomic;
    to = to_of payload;
    to_token = said "toToken" payload;
  });
}

module _ (buyer : Text) (plan : FillPlan) (effects : List Effect) where
  pub after_mint-accepted :
      (status : ℕ) (payload : Option Json)
      → is_ok_status status ≡ true
      → after_mint buyer plan effects (answered status payload)
        ≡ bought_run buyer plan effects payload
  unfolding after_mint
  after_mint-accepted status payload h = rw h refl

  pub after_mint-conflict :
      (payload : Option Json)
      → after_mint buyer plan effects (answered 409 payload)
        ≡ fail effects 409 (mint_reason 409 (said "message" payload))
  unfolding after_mint
  after_mint-conflict payload = refl

  pub after_mint-refused :
      (status : ℕ) (payload : Option Json)
      → is_ok_status status ≡ false
      → status ≢ 409
      → after_mint buyer plan effects (answered status payload)
        ≡ fail effects 502 (mint_reason status (said "message" payload))
  unfolding after_mint
  after_mint-refused status payload h k = elim (Bool-cases (status == 409)) [
    | inl same ↦ absurd (k ((==_iff status 409).0 same))
    | inr other ↦ rw (h, other) refl
  ]

module _ (env : Environment) (outside : Services) (buyer : Text) (plan : FillPlan)
    (want : FillPlanWant) where
  short_of-CanPay :
      CanPay env outside buyer plan want
      → short_of outside buyer plan want (outside.balance_of buyer) ≡ false
  unfolding short_of
  short_of-CanPay (inl unread) = rw unread refl
  short_of-CanPay (inr (balance, shown, enough)) = rw shown (ground (arith, enough))

  pub short_of_cases :
      CanPay env outside buyer plan want
      ⊎ ((balance : ℕ) × (outside.balance_of buyer ≡ some balance)
          × (balance < big_int plan.total_atomic))
  short_of_cases = elim (Option-cases (outside.balance_of buyer)) [
    | inl unread ↦ inl (inl unread)
    | inr (balance, shown) ↦ elim (Bool-cases (ltb balance (big_int plan.total_atomic))) [
      | inl low ↦ inr (balance, shown, ground (arith, low))
      | inr enough ↦ inl (inr (balance, shown, ground (arith, enough)))
    ]
  ]

  -- The run up to the answer of a call, and from there on.
  pub execute_resale_buy-IsReady :
      IsReady env outside buyer plan want
      → execute_resale_buy env outside buyer plan want ≡ buy_with_key outside buyer plan want
  unfolding execute_resale_buy with_key
  execute_resale_buy-IsReady (set, (key, has_key)) = rw (set, has_key, execute_resale_buy) refl

  pub buy_with_key-short :
      (balance : ℕ)
      → outside.balance_of buyer ≡ some balance
      → balance < big_int plan.total_atomic
      → buy_with_key outside buyer plan want ≡ fail [] 502 balance_low
  unfolding buy_with_key short_of
  buy_with_key-short balance shown low = rw shown (ground (arith, low))

  pub buy_with_key-CanPay :
      CanPay env outside buyer plan want
      → buy_with_key outside buyer plan want
        ≡ after_approval outside buyer plan want
            (outside.execute (approve_multicall plan.total_atomic))
  unfolding buy_with_key
  buy_with_key-CanPay h = rw (short_of-CanPay h) refl

  pub execute_resale_buy-IsApproved :
      IsApproved env outside buyer plan want
      → execute_resale_buy env outside buyer plan want
        ≡ after_encoding outside buyer plan want
            (build_settlement_calls outside.is_address buyer plan.outputs)
  unfolding after_approval
  execute_resale_buy-IsApproved (ready, can_pay, (tx, approved)) =
      execute_resale_buy-IsReady ready
      ∙ buy_with_key-CanPay can_pay
      ∙ ap (after_approval outside buyer plan want) approved

  pub execute_resale_buy-IsEncoded :
      (calls : List SettlementCall)
      → IsApproved env outside buyer plan want
      → IsEncoded env outside buyer plan want calls
      → execute_resale_buy env outside buyer plan want
        ≡ after_settlement outside buyer plan want calls (outside.execute (aggregate calls))
  unfolding after_encoding
  execute_resale_buy-IsEncoded calls approved encoded =
      execute_resale_buy-IsApproved approved ∙ ap (after_encoding outside buyer plan want) encoded

  pub execute_resale_buy-IsSettled :
      (calls : List SettlementCall) (tx : Text)
      → IsSettled env outside buyer plan want calls tx
      → execute_resale_buy env outside buyer plan want
        ≡ after_mint buyer plan
            (minting outside buyer plan want calls tx)
            (outside.mint (mint_request buyer plan want tx))
  unfolding after_settlement
  execute_resale_buy-IsSettled calls tx (approved, encoded, settled) =
      execute_resale_buy-IsEncoded calls approved encoded
      ∙ ap (after_settlement outside buyer plan want calls) settled
