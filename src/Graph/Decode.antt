-- ===== src/Graph/Decode.antt =====
-- The narrowing of one JSON value: what each parser accepts, and what it returns.
use coalition.Base.{
  ℕ, ◌≡◌, refl, Bool, true, not, Option, some, String, arith, Text, uint_pattern, address_pattern,
  ok, throw_if, >>=-eq-ok, ok-injective,
}
use coalition.Base.Decimal.{big_int}
use coalition.Json.{Json, boolean, string, get, is_record}
use coalition.Graph.{
  Commitment, Dropout, parse_address, parse_uint, parse_boolean, parse_commitment, parse_dropout,
  commitment_not_object, dropout_not_object,
}

-- The value is a string that is an address; a string of digits; a boolean.
pub record IsAddress (value : Option Json) (address : Text) : Type 0 where
  pub given : value ≡ some (string address)
  pub shaped : address_pattern address ≡ true

pub record IsUint (value : Option Json) (n : ℕ) : Type 0 where
  pub numeral : Text
  pub given : value ≡ some (string numeral)
  pub shaped : uint_pattern numeral ≡ true
  pub denoted : n ≡ big_int numeral

module _ (field : String) where
  pub IsAddress_of_parse :
      (value : Option Json) (a : Text) → parse_address value field ≡ ok a → IsAddress value a
  unfolding parse_address
  IsAddress_of_parse (some (string s)) a h = record { given = ground arith; shaped = ground arith }
  IsAddress_of_parse value a h = absurd (ground arith)

  pub parse_of_IsAddress :
      (value : Option Json) (a : Text) → IsAddress value a → parse_address value field ≡ ok a
  unfolding parse_address
  parse_of_IsAddress value a h = rw (h.given, parse_address) (rw h.shaped)

  pub IsUint-of_parse :
      (value : Option Json) (n : ℕ) → parse_uint value field ≡ ok n → IsUint value n
  unfolding parse_uint
  IsUint-of_parse (some (string s)) n h = record {
    numeral = s;
    given = refl;
    shaped = ground arith;
    denoted = ground arith;
  }
  IsUint-of_parse value n h = absurd (ground arith)

  pub parse_of_IsUint :
      (value : Option Json) (n : ℕ) → IsUint value n → parse_uint value field ≡ ok n
  unfolding parse_uint
  parse_of_IsUint value n h = rw (h.given, parse_uint) (rw (h.shaped, h.denoted))

  pub boolean_of_parse :
      (value : Option Json) (b : Bool) → parse_boolean value field ≡ ok b → value ≡ some (boolean b)
  unfolding parse_boolean
  boolean_of_parse (some (boolean c)) b h = ground arith
  boolean_of_parse value b h = absurd (ground arith)

-- The JSON object of a commitment, and of a dropout.
pub record IsCommitment (value : Json) (c : Commitment) : Type 0 where
  pub is_object : is_record (some value) ≡ true
  pub wallet : IsAddress (get "wallet" value) c.wallet
  pub amount : IsUint (get "amount" value) c.amount
  pub block_number : IsUint (get "blockNumber" value) c.block_number

pub IsCommitment-of_parse :
    (value : Json) (c : Commitment) → parse_commitment value ≡ ok c → IsCommitment value c
unfolding parse_commitment
IsCommitment-of_parse value c h =
    let (u, t, h₁) =
      >>=-eq-ok (throw_if (not (is_record (some value))) commitment_not_object) _ h in
    let (w, p, h₂) = >>=-eq-ok (parse_address (get "wallet" value) "wallet") _ h₁ in
    let (a, q, h₃) = >>=-eq-ok (parse_uint (get "amount" value) "amount") _ h₂ in
    let (b, r, h₄) = >>=-eq-ok (parse_uint (get "blockNumber" value) "blockNumber") _ h₃ in
    rw (← ok-injective h₄) (record {
      is_object = ground arith;
      wallet = IsAddress_of_parse "wallet" _ w p;
      amount = IsUint-of_parse "amount" _ a q;
      block_number = IsUint-of_parse "blockNumber" _ b r;
    })

pub parse_of_IsCommitment :
    (value : Json) (c : Commitment) → IsCommitment value c → parse_commitment value ≡ ok c
unfolding parse_commitment
parse_of_IsCommitment value c h = rw (
  h.is_object,
  parse_of_IsAddress "wallet" (get "wallet" value) c.wallet h.wallet,
  parse_of_IsUint "amount" (get "amount" value) c.amount h.amount,
  parse_of_IsUint "blockNumber" (get "blockNumber" value) c.block_number h.block_number,
)

pub record IsDropout (value : Json) (d : Dropout) : Type 0 where
  pub is_object : is_record (some value) ≡ true
  pub wallet : IsAddress (get "wallet" value) d.wallet
  pub forfeited : IsUint (get "forfeited" value) d.forfeited

pub IsDropout-of_parse :
    (value : Json) (d : Dropout) → parse_dropout value ≡ ok d → IsDropout value d
unfolding parse_dropout
IsDropout-of_parse value d h =
    let (u, t, h₁) = >>=-eq-ok (throw_if (not (is_record (some value))) dropout_not_object) _ h in
    let (w, p, h₂) = >>=-eq-ok (parse_address (get "wallet" value) "wallet") _ h₁ in
    let (a, q, h₃) = >>=-eq-ok (parse_uint (get "forfeited" value) "forfeited") _ h₂ in
    rw (← ok-injective h₃) (record {
      is_object = ground arith;
      wallet = IsAddress_of_parse "wallet" _ w p;
      forfeited = IsUint-of_parse "forfeited" _ a q;
    })

pub parse_of_IsDropout :
    (value : Json) (d : Dropout) → IsDropout value d → parse_dropout value ≡ ok d
unfolding parse_dropout
parse_of_IsDropout value d h = rw (
  h.is_object,
  parse_of_IsAddress "wallet" (get "wallet" value) d.wallet h.wallet,
  parse_of_IsUint "forfeited" (get "forfeited" value) d.forfeited h.forfeited,
)
