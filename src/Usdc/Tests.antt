-- ===== src/Usdc/Tests.antt =====
-- The USDC conversions at concrete amounts.
use coalition.Base.{
  ◌⊎◌, ℕ, ◌≡◌, refl, ◌↔◌, pos, negsuc, Text, text, strip_zeros, index_of, uint_pattern,
}
use coalition.Base.Decimal.{big_int, to_string, to_string_ℤ}
use coalition.Usdc.{
  usdc_erc20, ok, invalid_amount, to_atomic_usdc, display_pattern, from_atomic_usdc,
}
use coalition.Usdc.Numerals.{Denotes, to_atomic_usdc-Denotes}
use coalition.Usdc.RoundTrip.{to_atomic_usdc-from_atomic_usdc}

one_and_a_half : to_atomic_usdc (text "1.5") usdc_erc20 ≡ ok 1_500_000
unfolding to_atomic_usdc text display_pattern index_of uint_pattern big_int
one_and_a_half = refl

too_precise :
    to_atomic_usdc (text "0.0000001") usdc_erc20 ≡ invalid_amount (text "0.0000001") usdc_erc20
unfolding to_atomic_usdc text display_pattern index_of uint_pattern big_int
too_precise = refl

whole_units : from_atomic_usdc (pos 2_000_000) usdc_erc20 ≡ ok (text "2")
unfolding from_atomic_usdc text to_string strip_zeros
whole_units = refl

below_zero : from_atomic_usdc (negsuc 4) usdc_erc20 ≡ invalid_amount (text "-5") usdc_erc20
unfolding from_atomic_usdc text to_string_ℤ
below_zero = refl

to_atomic_usdc-Denotes_example :
    ((to_atomic_usdc (text "1.5") usdc_erc20 ≡ ok 1_500_000) ↔ Denotes (text "1.5") 6 1_500_000)
    × ((to_atomic_usdc (text "1.5") usdc_erc20 ≡ invalid_amount (text "1.5") usdc_erc20)
        ⊎ ((m : ℕ) × Denotes (text "1.5") 6 m))
to_atomic_usdc-Denotes_example = to_atomic_usdc-Denotes (text "1.5") usdc_erc20 1_500_000

to_atomic_usdc-from_atomic_usdc_example :
    (display : Text) × (from_atomic_usdc (pos 1_250_000) usdc_erc20 ≡ ok display)
    × (to_atomic_usdc display usdc_erc20 ≡ ok 1_250_000)
to_atomic_usdc-from_atomic_usdc_example = to_atomic_usdc-from_atomic_usdc 1_250_000 usdc_erc20
