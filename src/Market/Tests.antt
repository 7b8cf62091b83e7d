-- ===== src/Market/Tests.antt =====
-- An endpoint that quotes 3 per MB and 5 per CU.
use coalition.Base.{
  ◌≡◌, ◌↔◌, refl, true, none, some, ◌++◌, Text, text, address_pattern, uint_pattern, ok, err,
}
use coalition.Base.Decimal.{big_int}
use coalition.Json.{Json, string, object, end, field, get, Fetched, response}
use coalition.Market.{
  ComputeQuote, bad_status, parse_address, parse_uint, parse_terms, narrow_quote, narrow_answer,
  fetch_quote, quote_cost,
}
use coalition.Market.Quotes.{Serves, fetch_quote-Serves}

abbrev seller : Text
seller = text "0xC6f9A1559f9a02755aC7Ba4865C558B0ed46B4fd"

abbrev body : Json
body = object (
    field "seller" (string seller) (
      field "payTo" (string seller) (
        field "ratePerMBAtomic" (string (text "3")) (
          field "ratePerCUAtomic" (string (text "5")) (
            field "availableMB" (string (text "400"))
              (field "availableCU" (string (text "2")) end))))))

abbrev quote : ComputeQuote
quote = record {
  seller = seller;
  pay_to = seller;
  rate_per_mb_atomic = 3;
  rate_per_cu_atomic = 5;
  available_mb = 400;
  available_cu = 2;
  terms_uri = none;
}

abbrev serve : Text → Fetched
serve _ = response 200 (some body)

served : fetch_quote serve (text "http://localhost") seller ≡ ok quote
unfolding fetch_quote narrow_answer narrow_quote parse_address parse_uint parse_terms text
    address_pattern uint_pattern big_int get
served = refl

refused :
    fetch_quote (λ _. response 404 none) (text "http://localhost") seller ≡ err (bad_status 404)
unfolding fetch_quote narrow_answer text address_pattern
refused = refl

cost : quote_cost quote (record { mb = 100; cu = 2 }) ≡ 310
unfolding quote_cost
cost = refl

fetch_quote-Serves_example : (fetch_quote serve (text "http://localhost") seller ≡ ok quote) ↔ (
    (address_pattern seller ≡ true)
    × Serves (serve (text "http://localhost" ++ text "/quote?seller=" ++ seller)) quote)
fetch_quote-Serves_example = fetch_quote-Serves serve (text "http://localhost") seller quote
