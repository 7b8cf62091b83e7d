-- ===== src/Market.antt =====
-- sdk/src/market/quotes.ts: a seller's compute quote, fetched from the orchestrator and narrowed, and
-- the cost of a request. The thrown `MarketError` is the `err` case.
pub mod Quotes
mod Tests
use coalition.Base.{
  ℕ, ◌+◌, ◌*◌, Bool, true, false, not, ◌&&◌, ◌||◌, Option, none, some, List, [], ◌∷◌, ◌++◌, Text,
  text, String, address_pattern, uint_pattern, if◌then◌else◌, Result, ok, err, ◌>>=◌, ◌>>◌,
  throw_if,
}
use coalition.Base.Decimal.{big_int}
use coalition.Json.{
  Json, null, boolean, number, string, array, object, get_from, is_record, Fetched, rejected,
  response, is_ok_status,
}

-- `ComputeQuote`
pub record ComputeQuote : Type 0 where
  pub seller : Text
  pub pay_to : Text
  pub rate_per_mb_atomic : ℕ
  pub rate_per_cu_atomic : ℕ
  pub available_mb : ℕ
  pub available_cu : ℕ
  pub terms_uri : Option Text

pub record ComputeRequest : Type 0 where
  pub mb : ℕ
  pub cu : ℕ

-- `MarketError`, and the error that `response.json()` throws.
pub data MarketError : Type 0 where
  field_not_address field_not_uint : String → MarketError
  terms_not_string payload_not_object bad_json : MarketError
  seller_not_address request_failed : Text → MarketError
  bad_status : ℕ → MarketError

unfoldable pub quote_cost : ComputeQuote → ComputeRequest → ℕ
quote_cost quote request =
    quote.rate_per_mb_atomic * request.mb + quote.rate_per_cu_atomic * request.cu

unfoldable pub parse_address : Option Json → String → Result MarketError Text
parse_address (some (string s)) name =
    if address_pattern s then ok s else err (field_not_address name)
parse_address _ name = err (field_not_address name)

unfoldable pub parse_uint : Option Json → String → Result MarketError ℕ
parse_uint (some (string s)) name =
    if uint_pattern s then ok (big_int s) else err (field_not_uint name)
parse_uint _ name = err (field_not_uint name)

-- `termsURI !== undefined && typeof termsURI !== "string"`
unfoldable pub parse_terms : Option Json → Result MarketError (Option Text)
parse_terms none = ok none
parse_terms (some (string s)) = ok (some s)
parse_terms (some _) = err terms_not_string

-- The body, narrowed.
unfoldable pub narrow_quote : Json → Result MarketError ComputeQuote
narrow_quote body =
    throw_if (not (is_record (some body))) payload_not_object
    >> (parse_terms (get_from "termsURI" (some body)) >>= λ terms.
        parse_address (get_from "seller" (some body)) "seller" >>= λ seller.
        parse_address (get_from "payTo" (some body)) "payTo" >>= λ pay_to.
        parse_uint (get_from "ratePerMBAtomic" (some body)) "ratePerMBAtomic" >>= λ rate_mb.
        parse_uint (get_from "ratePerCUAtomic" (some body)) "ratePerCUAtomic" >>= λ rate_cu.
        parse_uint (get_from "availableMB" (some body)) "availableMB" >>= λ available_mb.
        parse_uint (get_from "availableCU" (some body)) "availableCU" >>= λ available_cu.
        ok (record {
          seller = seller;
          pay_to = pay_to;
          rate_per_mb_atomic = rate_mb;
          rate_per_cu_atomic = rate_cu;
          available_mb = available_mb;
          available_cu = available_cu;
          terms_uri = terms;
        }))

-- The answer of the endpoint, for the base that the error names.
unfoldable pub narrow_answer : Text → Fetched → Result MarketError ComputeQuote
narrow_answer base_url rejected = err (request_failed base_url)
narrow_answer base_url (response status body) =
    if not (is_ok_status status)
    then err (bad_status status)
    else elim body [ none ↦ err bad_json | some json ↦ narrow_quote json ]

-- `fetch` is given the URL.
unfoldable pub fetch_quote : (Text → Fetched) → Text → Text → Result MarketError ComputeQuote
fetch_quote fetch base_url seller =
    if not (address_pattern seller)
    then err (seller_not_address seller)
    else narrow_answer base_url (fetch (base_url ++ text "/quote?seller=" ++ seller))
