-- ===== src/Resale/ExecuteTests.antt =====
-- A purchase that goes through, one whose mint is refused as a conflict, and one whose payout is not
-- encoded.
use coalition.Base.{
  ◌↔◌, ◌≡◌, refl, true, none, some, List, [], ◌∷◌, ◌++◌, Text, text, text_eq, ok, err, map_result,
}
use coalition.Base.Decimal.{big_int}
use coalition.Json.{string, object, end, field, get}
use coalition.Circle.{executed}
use coalition.Resale.{
  FillPlan, FillPlanWant, SettlementCall, invalid_address, encode_transfer, fits_uint256,
}
use coalition.Resale.Execute.{
  Environment, missing_variables, read_app_key, mint_message, BuyError, encoding_error,
  ResaleBuyResult, Effect, approve_multicall, provision, Services, answered, text_property, to_of,
  mint_reason, provisioned, after_mint, minting, after_settlement, after_encoding, after_approval,
  short_of, buy_with_key, with_key, execute_resale_buy, fail,
}
use coalition.Resale.Outcomes.{IsBought, Fails, threw}
use coalition.Resale.Purchase.{execute_resale_buy-IsBought}
use coalition.Resale.Failures.{execute_resale_buy-Fails}

abbrev environment : Environment
environment = record {
  circle_api_key = text "key";
  circle_entity_secret = text "secret";
  circle_buyer_wallet_id = text "wallet";
  orchestrator_app_key = none;
  app_key = some (text "app");
}

abbrev buyer : Text
buyer = text "0xbuyer"

abbrev accepting : Services
accepting = record {
  is_address = λ s. true;
  balance_of = λ _. none;
  execute = λ _. executed (text "0x1");
  mint = λ _. answered 200 (some (object (field "toToken" (string (text "token")) end)));
}

abbrev conflicting : Services
conflicting = record accepting {
  mint = λ _. answered 409 (some (object (field "message" (string (text "replay")) end)));
}

abbrev plan : FillPlan
plan = record {
  outputs = record { account = text "0xa"; amount_atomic = text "5" } ∷ [];
  total_atomic = text "5";
  nonce = text "0";
  round_id = text "3";
  headroom_mb = 400;
  headroom_cu_micro = 0;
}

abbrev want : FillPlanWant
want = record { mem = 400; cu_micro = 0 }

abbrev bought : ResaleBuyResult
bought = record {
  buyer = buyer;
  legs_paid = 1;
  total_atomic = text "5";
  to = none;
  to_token = some (text "token");
}

-- The one payout of the plan.
abbrev calls : List SettlementCall
calls = record { payer = buyer; payee = text "0xa"; amount = 5 } ∷ []

abbrev made : List Effect
made = minting accepting buyer plan want calls (text "0x1") ++ (provision (text "token") ∷ [])

purchase_made :
    execute_resale_buy environment accepting buyer plan want
    ≡ (record { effects = made; result = ok bought })
unfolding execute_resale_buy missing_variables read_app_key with_key buy_with_key short_of
    after_approval after_encoding encode_transfer fits_uint256 map_result after_settlement
    after_mint text_property provisioned to_of big_int text get
purchase_made = refl

execute_resale_buy-IsBought_example :
    (execute_resale_buy environment accepting buyer plan want
      ≡ (record { effects = made; result = ok bought }))
    ↔ IsBought environment accepting buyer plan want made bought
execute_resale_buy-IsBought_example =
    execute_resale_buy-IsBought environment accepting buyer plan want made bought

-- The payouts stand although the mint is refused.
conflicts :
    execute_resale_buy environment conflicting buyer plan want
    ≡ fail
        (minting conflicting buyer plan want calls (text "0x1"))
        409
        (mint_message (text "replay"))
unfolding execute_resale_buy missing_variables read_app_key with_key buy_with_key short_of
    after_approval after_encoding encode_transfer fits_uint256 map_result after_settlement
    after_mint text_property mint_reason big_int text get
conflicts = refl

-- An account that is not encoded leaves the approval standing.
not_encoded :
    execute_resale_buy environment
      (record accepting { is_address = text_eq (text "0xbuyer") })
      buyer
      plan
      want
    ≡ (record {
      effects = approve_multicall (text "5") ∷ [];
      result = err (encoding_error (invalid_address (text "0xa")));
    })
unfolding execute_resale_buy missing_variables read_app_key with_key buy_with_key short_of
    after_approval after_encoding encode_transfer map_result text text_eq
not_encoded = refl

abbrev replayed : BuyError
replayed = threw 409 (mint_message (text "replay"))

execute_resale_buy-Fails_example :
    (execute_resale_buy environment conflicting buyer plan want ≡ (record {
      effects = minting conflicting buyer plan want calls (text "0x1");
      result = err replayed;
    }))
    ↔ Fails environment conflicting buyer plan want
        (minting conflicting buyer plan want calls (text "0x1"))
        replayed
execute_resale_buy-Fails_example =
    execute_resale_buy-Fails environment conflicting buyer plan want
      (minting conflicting buyer plan want calls (text "0x1")) replayed
