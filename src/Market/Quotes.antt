-- ===== src/Market/Quotes.antt =====
-- Which answers of the endpoint are quotes.
use mathlib.Core.Path.{subst}
use coalition.Base.{
  ℕ, ◌≡◌, ◌↔◌, refl, inl, inr, true, not, Option, none, some, Text, text, String, ◌++◌, arith,
  address_pattern, uint_pattern, Bool-cases, ok, throw_if, >>=-eq-ok, throw_if-not-eq-ok,
  ok-injective,
}
use coalition.Base.Decimal.{big_int}
use coalition.Json.{
  Json, null, boolean, number, string, array, object, get_from, is_record, Fetched, rejected,
  response, is_ok_status,
}
use coalition.Market.{
  ComputeQuote, payload_not_object, parse_address, parse_uint, parse_terms, narrow_quote,
  narrow_answer, fetch_quote,
}

parse_address-eq-ok :
    (value : Option Json) (name : String) (s : Text)
    → (parse_address value name ≡ ok s) ↔ ((value ≡ some (string s)) × (address_pattern s ≡ true))
unfolding parse_address
parse_address-eq-ok (some (string t)) name s = elim (Bool-cases (address_pattern t)) [
  | inl h ↦ grind (arith, h)
  | inr h ↦ grind (arith, h)
]
parse_address-eq-ok none name s = (λ h. cc, λ (p, q). cc)
parse_address-eq-ok (some null) name s = (λ h. cc, λ (p, q). cc)
parse_address-eq-ok (some (boolean _)) name s = (λ h. cc, λ (p, q). cc)
parse_address-eq-ok (some (number _)) name s = (λ h. cc, λ (p, q). cc)
parse_address-eq-ok (some (array _)) name s = (λ h. cc, λ (p, q). cc)
parse_address-eq-ok (some (object _)) name s = (λ h. cc, λ (p, q). cc)

-- A text of digits, and its value.
abbrev pub IsUint : Option Json → ℕ → Type 0
IsUint value n = (s : Text) × (value ≡ some (string s)) × (uint_pattern s ≡ true) × (big_int s ≡ n)

parse_uint_sound :
    (value : Option Json) (name : String) (n : ℕ) → parse_uint value name ≡ ok n → IsUint value n
unfolding parse_uint
parse_uint_sound (some (string s)) name n h = elim (Bool-cases (uint_pattern s)) [
  | inl good ↦ (s, refl, good, grind (arith, h))
  | inr bad ↦ grind (arith, h)
]
parse_uint_sound none name n h = cc
parse_uint_sound (some null) name n h = cc
parse_uint_sound (some (boolean _)) name n h = cc
parse_uint_sound (some (number _)) name n h = cc
parse_uint_sound (some (array _)) name n h = cc
parse_uint_sound (some (object _)) name n h = cc

parse_uint_complete :
    (value : Option Json) (name : String) (n : ℕ) → IsUint value n → parse_uint value name ≡ ok n
unfolding parse_uint
parse_uint_complete value name n (s, p, good, e) = rw (p, good, e)

-- An absent or textual `termsURI`.
abbrev pub terms_json : Option Text → Option Json
terms_json none = none
terms_json (some s) = some (string s)

parse_terms-eq-ok :
    (value : Option Json) (terms : Option Text)
    → (parse_terms value ≡ ok terms) ↔ (value ≡ terms_json terms)
unfolding parse_terms
parse_terms-eq-ok none none = (λ h. refl, λ h. refl)
parse_terms-eq-ok none (some s) = (λ h. cc, λ h. cc)
parse_terms-eq-ok (some (string t)) none = (λ h. cc, λ h. cc)
parse_terms-eq-ok (some (string t)) (some s) = (λ h. cc, λ h. cc)
parse_terms-eq-ok (some null) none = (λ h. cc, λ h. cc)
parse_terms-eq-ok (some null) (some s) = (λ h. cc, λ h. cc)
parse_terms-eq-ok (some (boolean _)) none = (λ h. cc, λ h. cc)
parse_terms-eq-ok (some (boolean _)) (some s) = (λ h. cc, λ h. cc)
parse_terms-eq-ok (some (number _)) none = (λ h. cc, λ h. cc)
parse_terms-eq-ok (some (number _)) (some s) = (λ h. cc, λ h. cc)
parse_terms-eq-ok (some (array _)) none = (λ h. cc, λ h. cc)
parse_terms-eq-ok (some (array _)) (some s) = (λ h. cc, λ h. cc)
parse_terms-eq-ok (some (object _)) none = (λ h. cc, λ h. cc)
parse_terms-eq-ok (some (object _)) (some s) = (λ h. cc, λ h. cc)

-- A body that is the quote, field by field.
pub record IsQuote (json : Json) (quote : ComputeQuote) : Type 0 where
  pub is_object : is_record (some json) ≡ true
  pub terms : get_from "termsURI" (some json) ≡ terms_json quote.terms_uri
  pub seller : get_from "seller" (some json) ≡ some (string quote.seller)
  pub seller_is_address : address_pattern quote.seller ≡ true
  pub pay_to : get_from "payTo" (some json) ≡ some (string quote.pay_to)
  pub pay_to_is_address : address_pattern quote.pay_to ≡ true
  pub rate_mb : IsUint (get_from "ratePerMBAtomic" (some json)) quote.rate_per_mb_atomic
  pub rate_cu : IsUint (get_from "ratePerCUAtomic" (some json)) quote.rate_per_cu_atomic
  pub available_mb : IsUint (get_from "availableMB" (some json)) quote.available_mb
  pub available_cu : IsUint (get_from "availableCU" (some json)) quote.available_cu

narrow_quote_sound :
    (json : Json) (quote : ComputeQuote) → narrow_quote json ≡ ok quote → IsQuote json quote
unfolding narrow_quote
narrow_quote_sound json quote h =
    let body = some json in
    let (_, p₁, h₁) = >>=-eq-ok (throw_if (not (is_record body)) payload_not_object) _ h in
    let (terms, p₂, h₂) = >>=-eq-ok (parse_terms (get_from "termsURI" body)) _ h₁ in
    let (seller, p₃, h₃) = >>=-eq-ok (parse_address (get_from "seller" body) "seller") _ h₂ in
    let (pay_to, p₄, h₄) = >>=-eq-ok (parse_address (get_from "payTo" body) "payTo") _ h₃ in
    let (rate_mb, p₅, h₅) =
      >>=-eq-ok (parse_uint (get_from "ratePerMBAtomic" body) "ratePerMBAtomic") _ h₄ in
    let (rate_cu, p₆, h₆) =
      >>=-eq-ok (parse_uint (get_from "ratePerCUAtomic" body) "ratePerCUAtomic") _ h₅ in
    let (mb, p₇, h₇) = >>=-eq-ok (parse_uint (get_from "availableMB" body) "availableMB") _ h₆ in
    let (cu, p₈, h₈) = >>=-eq-ok (parse_uint (get_from "availableCU" body) "availableCU") _ h₇ in
    let (s₁, s₂) = (parse_address-eq-ok _ "seller" seller).0 p₃ in
    let (t₁, t₂) = (parse_address-eq-ok _ "payTo" pay_to).0 p₄ in
    let narrowed : IsQuote json (record {
      seller = seller;
      pay_to = pay_to;
      rate_per_mb_atomic = rate_mb;
      rate_per_cu_atomic = rate_cu;
      available_mb = mb;
      available_cu = cu;
      terms_uri = terms;
    }) =
      record {
        is_object = throw_if-not-eq-ok (is_record body) payload_not_object _ p₁;
        terms = (parse_terms-eq-ok _ terms).0 p₂;
        seller = s₁;
        seller_is_address = s₂;
        pay_to = t₁;
        pay_to_is_address = t₂;
        rate_mb = parse_uint_sound _ "ratePerMBAtomic" rate_mb p₅;
        rate_cu = parse_uint_sound _ "ratePerCUAtomic" rate_cu p₆;
        available_mb = parse_uint_sound _ "availableMB" mb p₇;
        available_cu = parse_uint_sound _ "availableCU" cu p₈;
      } in
    subst (IsQuote json) (ok-injective h₈) narrowed

narrow_quote_complete :
    (json : Json) (quote : ComputeQuote) → IsQuote json quote → narrow_quote json ≡ ok quote
unfolding narrow_quote
narrow_quote_complete json quote q = rw (
  q.is_object,
  (parse_terms-eq-ok _ quote.terms_uri).1 q.terms,
  (parse_address-eq-ok _ "seller" quote.seller).1 (q.seller, q.seller_is_address),
  (parse_address-eq-ok _ "payTo" quote.pay_to).1 (q.pay_to, q.pay_to_is_address),
  parse_uint_complete _ "ratePerMBAtomic" quote.rate_per_mb_atomic q.rate_mb,
  parse_uint_complete _ "ratePerCUAtomic" quote.rate_per_cu_atomic q.rate_cu,
  parse_uint_complete _ "availableMB" quote.available_mb q.available_mb,
  parse_uint_complete _ "availableCU" quote.available_cu q.available_cu,
)

-- The endpoint answers with a body in the 200s that is the quote.
abbrev pub Serves : Fetched → ComputeQuote → Type 0
Serves answer quote =
    (status : ℕ) × (json : Json) × (answer ≡ response status (some json))
    × (is_ok_status status ≡ true)
    × IsQuote json quote

narrow_answer_sound :
    (base_url : Text) (answer : Fetched) (quote : ComputeQuote)
    → narrow_answer base_url answer ≡ ok quote
    → Serves answer quote
unfolding narrow_answer
narrow_answer_sound base_url rejected quote h = cc
narrow_answer_sound base_url (response status none) quote h =
    elim (Bool-cases (is_ok_status status)) [ inl good ↦ cc (good, h) | inr bad ↦ cc (bad, h) ]
narrow_answer_sound base_url (response status (some json)) quote h =
    elim (Bool-cases (is_ok_status status)) [
      | inl good ↦
          (status, json, refl, good, narrow_quote_sound json quote (grind (arith, good, h)))
      | inr bad ↦ grind (arith, bad, h)
    ]

narrow_answer_complete :
    (base_url : Text) (answer : Fetched) (quote : ComputeQuote)
    → Serves answer quote
    → narrow_answer base_url answer ≡ ok quote
unfolding narrow_answer
narrow_answer_complete base_url answer quote (status, json, p, good, q) =
    rw (p, good, narrow_quote_complete json quote q)

-- `fetchQuote` returns a quote exactly if the seller is an address and the endpoint, asked for that
-- seller, answers in the 200s with an object that holds the quote: two addresses, the rates and the
-- availability as texts of digits, and terms that are absent or a text. It never returns a part of
-- a quote.
pub fetch_quote-Serves :
    (fetch : Text → Fetched) (base_url seller : Text) (quote : ComputeQuote)
    → (fetch_quote fetch base_url seller ≡ ok quote) ↔ (
        (address_pattern seller ≡ true)
        × Serves (fetch (base_url ++ text "/quote?seller=" ++ seller)) quote)
unfolding fetch_quote
fetch_quote-Serves fetch base_url seller quote = elim (Bool-cases (address_pattern seller)) [
  | inr bad ↦ (λ h. cc (bad, h), λ (good, _). cc (bad, good))
  | inl good ↦ (
    λ h. (good, narrow_answer_sound base_url _ quote (grind (arith, good, h))),
    λ (_, served). rw good (narrow_answer_complete base_url _ quote served),
  )
]
