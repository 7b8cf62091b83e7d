-- ===== src/Resale/Price.antt =====
-- The price text of an atomic amount, against the conversions of the SDK.
use coalition.Base.{
  ℕ, ◌/◌, ◌%◌, ◌≡◌, ap, Bool, true, false, ◌∷◌, ◌++◌, pos, Text, is_empty, pad_start, strip_zeros,
  if◌then◌else◌,
}
use coalition.Base.Decimal.{to_string}
use coalition.Usdc.{usdc_erc20, ok, from_atomic_usdc, to_atomic_usdc}
use coalition.Usdc.RoundTrip.{to_atomic_usdc-from_atomic_usdc}
use coalition.Usdc.Numerals.{ok-injective}
use coalition.Resale.{atomic_to_usdc_price}

signed :
    (bare : Bool) (whole frac display : Text)
    → ok (if bare then whole else whole ++ b'.' ∷ frac) ≡ ok display
    → (if bare then b'$' ∷ whole else b'$' ∷ whole ++ b'.' ∷ frac) ≡ b'$' ∷ display
signed true whole frac display h = ap (b'$' ∷◌) (ok-injective h)
signed false whole frac display h = ap (b'$' ∷◌) (ok-injective h)

from_price :
    (value : ℕ) (display : Text)
    → from_atomic_usdc (pos value) usdc_erc20 ≡ ok display
    → atomic_to_usdc_price value ≡ b'$' ∷ display
unfolding atomic_to_usdc_price from_atomic_usdc
from_price value display h =
    let frac = strip_zeros (pad_start 6 (to_string (value % 1_000_000))) in
    signed (is_empty frac) (to_string (value / 1_000_000)) frac display h

-- A price is `$` and a display amount of the 6-decimal view, which converts back to the atomic
-- amount that was priced.
pub atomic_to_usdc_price-to_atomic_usdc :
    (value : ℕ)
    → (display : Text) × (atomic_to_usdc_price value ≡ b'$' ∷ display)
      × (to_atomic_usdc display usdc_erc20 ≡ ok value)
atomic_to_usdc_price-to_atomic_usdc value =
    let (display, p, q) = to_atomic_usdc-from_atomic_usdc value usdc_erc20 in
    (display, from_price value display p, q)
