-- ===== src/Json.antt =====
-- Parsed JSON, the `unknown` that `response.json()` gives, and the tests by which the source narrows
-- it. An absent property, `undefined`, is `none`. Of a number only its integer value is kept.
use text.Mathlib.Text.{◌==◌ as str_eq}
use coalition.Base.{
  ℕ, Bool, true, false, ◌&&◌, Option, none, some, List, [], ◌∷◌, ◌≡◌, refl, String, ℤ, Text, ltb,
  leb, if◌then◌else◌,
}

pub data Number : Type 0 where
  integer : ℤ → Number
  fractional : Number

mutual
  pub data Json : Type 0 where
    null : Json
    boolean : Bool → Json
    number : Number → Json
    string : Text → Json
    array : Items → Json
    object : Fields → Json

  pub data Items : Type 0 where
    nil : Items
    cons : Json → Items → Items

  pub data Fields : Type 0 where
    end : Fields
    field : String → Json → Fields → Fields

get_field : String → Fields → Option Json
get_field key end = none
get_field key (field name value rest) = if str_eq name key then some value else get_field key rest

-- `value[key]`; no key of the source is a property of arrays
unfoldable pub get : String → Json → Option Json
unfolding get_field
get key (object fields) = get_field key fields
get key _ = none

-- `isRecord` of the SDK, where an array passes too
abbrev pub is_record : Option Json → Bool
is_record (some (array _)) = true
is_record (some (object _)) = true
is_record _ = false

-- `isRecord` of the app
abbrev pub is_plain_record : Option Json → Bool
is_plain_record (some (object _)) = true
is_plain_record _ = false

-- `value[key]` where the value itself may be absent; it is read only where `value` is a record
abbrev pub get_from : String → Option Json → Option Json
get_from key none = none
get_from key (some value) = get key value

unfoldable pub to_list : Items → List Json
to_list nil = []
to_list (cons x xs) = x ∷ to_list xs

unfoldable pub of_list : List Json → Items
of_list [] = nil
of_list (x ∷ xs) = cons x (of_list xs)

pub to_list-of_list : (xs : List Json) → to_list (of_list xs) ≡ xs
unfolding to_list of_list
to_list-of_list [] = refl
to_list-of_list (x ∷ xs) = cc (to_list-of_list xs)

-- What a call of `fetch` comes to: a rejected promise, or a response whose body may fail to parse.
pub data Fetched : Type 0 where
  rejected : Fetched
  response : ℕ → Option Json → Fetched

-- `response.ok`
abbrev pub is_ok_status : ℕ → Bool
is_ok_status status = leb 200 status && ltb status 300
