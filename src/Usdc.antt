-- ===== src/Usdc.antt =====
-- sdk/src/chains/usdc.ts: the two decimal views of USDC, and the conversions between display strings
-- and atomic units. The thrown `InvalidUsdcAmountError` is the `err` case and carries its fields.
pub mod Parse
pub mod Numerals
pub mod RoundTrip
mod Tests
use coalition.Base.{
  ℕ, suc, ◌+◌, ◌-◌, ◌/◌, ◌%◌, ◌^◌, Bool, true, false, not, ◌&&◌, ◌||◌, Option, none, some, [], ◌∷◌,
  ◌++◌, ℤ, pos, negsuc, Text, ltb, ◌==◌, if◌then◌else◌, length, take, drop, is_digit, is_empty,
  uint_pattern, index_of, pad_start, pad_end, strip_zeros,
}
use coalition.Base.Decimal.{big_int, to_string, to_string_ℤ}

-- `USDC_NATIVE_DECIMALS` and `USDC_ERC20_DECIMALS`
pub data UsdcDecimals : Type 0 where
  usdc_native usdc_erc20 : UsdcDecimals

abbrev pub decimals_of : UsdcDecimals → ℕ
decimals_of usdc_native = 18
decimals_of usdc_erc20 = 6

pub data UsdcResult (A : Type 0) : Type 0 where
  ok : A → UsdcResult A
  invalid_amount : Text → UsdcDecimals → UsdcResult A

-- `DISPLAY_PATTERN`, /^\d+(\.\d+)?$/, from its second digit on
display_rest : Text → Bool
display_rest [] = true
display_rest (c ∷ s) = is_digit c && display_rest s || c == b'.' && uint_pattern s

unfoldable pub display_pattern : Text → Bool
unfolding display_rest
display_pattern [] = false
display_pattern (c ∷ s) = is_digit c && display_rest s

-- `dot === -1 ? display : display.slice(0, dot)`, and the fraction behind the dot
integer_part : Text → Option ℕ → Text
integer_part display none = display
integer_part display (some dot) = take dot display

fraction_part : Text → Option ℕ → Text
fraction_part display none = []
fraction_part display (some dot) = drop (suc dot) display

unfoldable pub to_atomic_usdc : Text → UsdcDecimals → UsdcResult ℕ
unfolding integer_part fraction_part
to_atomic_usdc display decimals =
    let dot = index_of b'.' display in
    let integer = integer_part display dot in
    let fraction = fraction_part display dot in
    if not (display_pattern display)
    then invalid_amount display decimals
    else if ltb (decimals_of decimals) (length fraction)
    then invalid_amount display decimals
    else ok (big_int (integer ++ pad_end (decimals_of decimals) fraction))

unfoldable pub from_atomic_usdc : ℤ → UsdcDecimals → UsdcResult Text
from_atomic_usdc (negsuc n) decimals = invalid_amount (to_string_ℤ (negsuc n)) decimals
from_atomic_usdc (pos atomic) decimals =
    let base = 10 ^ decimals_of decimals in
    let integer = atomic / base in
    let fraction = pad_start (decimals_of decimals) (to_string (atomic % base)) in
    let trimmed = strip_zeros fraction in
    ok (if is_empty trimmed then to_string integer else to_string integer ++ b'.' ∷ trimmed)
