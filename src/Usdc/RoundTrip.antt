-- ===== src/Usdc/RoundTrip.antt =====
-- Rendering atomic units and reading them back, and the gap between the two decimal views.
use native.Mathlib.Nat.{mod-lt, div-add-mod, mul_comm}
use coalition.Base.{
  ℕ, zero, suc, ◌+◌, ◌-◌, ◌*◌, ◌/◌, ◌%◌, ◌^◌, ◌≤◌, ◌<◌, ◌≡◌, sym, ap, ◌∙◌, inl, inr, true, false,
  [], ◌∷◌, ◌++◌, arith, pos, Text, length, all, is_digit, is_empty, uint_pattern, pad_start,
  pad_end, strip_zeros, Bool-cases,
}
use coalition.Base.Decimal.{value_from, big_int, to_string}
use coalition.Base.Decimal.Laws.{
  big_int-to_string, uint_pattern-to_string, length-to_string, length-pad_start,
  value_from-pad_start, value_from-pad_end, all-pad_start, pad_end-strip_zeros, all-strip_zeros,
  length-strip_zeros, empty_of_is_empty,
}
use coalition.Usdc.{
  UsdcDecimals, usdc_native, usdc_erc20, decimals_of, ok, to_atomic_usdc, from_atomic_usdc,
}
use coalition.Usdc.Parse.{digits_of_uint, to_atomic_usdc_whole, to_atomic_usdc_fraction}

fraction_digits : (m d : ℕ) → 0 < d → m < 10 ^ d → length (pad_start d (to_string m)) ≡ d
fraction_digits m zero p h = elim p [ ]
fraction_digits m (suc d) p h = length-pad_start (suc d) (to_string m) (length-to_string m d h)

-- The trimmed fraction still denotes the remainder, once it is padded again.
fraction_value :
    (m d : ℕ)
    → 0 < d
    → m < 10 ^ d
    → let trimmed = strip_zeros (pad_start d (to_string m)) in
      (length trimmed ≤ d) × (big_int trimmed * 10 ^ (d - length trimmed) ≡ m)
unfolding big_int
fraction_value m d p h =
    let fraction : Text = pad_start d (to_string m) in
    let trimmed : Text = strip_zeros fraction in
    let size : length fraction ≡ d = fraction_digits m d p h in
    let short : length trimmed ≤ d = omega (arith, length-strip_zeros fraction) in
    let padded : pad_end d trimmed ≡ fraction =
      ap (λ (k : ℕ). pad_end k trimmed) (sym size) ∙ pad_end-strip_zeros fraction in
    let value : value_from 0 fraction ≡ m =
      value_from-pad_start d (to_string m) ∙ big_int-to_string m in
    (
      short,
      omega (
        arith,
        value_from-pad_end [] trimmed d short,
        ap (λ (t : Text). value_from 0 t) padded,
        value,
      ),
    )

-- Nothing is left of the fraction only where the remainder is zero.
zero_of_bare :
    (m d : ℕ)
    → 0 < d
    → m < 10 ^ d
    → is_empty (strip_zeros (pad_start d (to_string m))) ≡ true
    → m ≡ 0
unfolding big_int
zero_of_bare m d p h bare =
    let trimmed : Text = strip_zeros (pad_start d (to_string m)) in
    let nil : trimmed ≡ [] = empty_of_is_empty trimmed bare in
    sym ((fraction_value m d p h).1)
    ∙ ap (λ (t : Text). big_int t * 10 ^ (d - length t)) nil
    ∙ omega arith

uint_of_digits : (s : Text) → is_empty s ≡ false → all is_digit s ≡ true → uint_pattern s ≡ true
unfolding uint_pattern
uint_of_digits [] e h = cc
uint_of_digits (c ∷ s) e h = h

decimals_pos : (decimals : UsdcDecimals) → 0 < decimals_of decimals
decimals_pos usdc_native = omega arith
decimals_pos usdc_erc20 = omega arith

base_pos : (decimals : UsdcDecimals) → 0 < 10 ^ decimals_of decimals
base_pos usdc_native = omega arith
base_pos usdc_erc20 = omega arith

-- Every amount is rendered, and reading the display string back gives the amount.
pub to_atomic_usdc-from_atomic_usdc :
    (atomic : ℕ) (decimals : UsdcDecimals)
    → (display : Text) × (from_atomic_usdc (pos atomic) decimals ≡ ok display)
      × (to_atomic_usdc display decimals ≡ ok atomic)
unfolding from_atomic_usdc
to_atomic_usdc-from_atomic_usdc atomic decimals =
    let d : ℕ = decimals_of decimals in
    let q : ℕ = atomic / 10 ^ d in
    let m : ℕ = atomic % 10 ^ d in
    let trimmed : Text = strip_zeros (pad_start d (to_string m)) in
    let whole : uint_pattern (to_string q) ≡ true = uint_pattern-to_string q in
    let (short, value) =
      fraction_value m d (decimals_pos decimals) (mod-lt atomic (base_pos decimals)) in
    let split : q * 10 ^ d + m ≡ atomic =
      ap (λ (k : ℕ). k + m) (mul_comm q (10 ^ d)) ∙ div-add-mod atomic (10 ^ d) in
    elim (Bool-cases (is_empty trimmed)) [
      | inl bare ↦ (
        to_string q,
        rw bare,
        to_atomic_usdc_whole decimals (to_string q) whole
            ∙ ap ok (
                omega (
                  arith,
                  ap (λ (k : ℕ). k * 10 ^ d) (big_int-to_string q),
                  zero_of_bare m d (decimals_pos decimals) (mod-lt atomic (base_pos decimals)) bare,
                  split,
                )),
      )
      | inr more ↦ (
        to_string q ++ b'.' ∷ trimmed,
        rw more,
        to_atomic_usdc_fraction decimals (to_string q) trimmed whole
              (uint_of_digits trimmed more (
                all-strip_zeros _ (
                  all-pad_start d (to_string m)
                    (digits_of_uint (to_string m) (uint_pattern-to_string m)))))
              short
            ∙ ap ok (omega (arith, ap (λ (k : ℕ). k * 10 ^ d) (big_int-to_string q), value, split)),
      )
    ]
