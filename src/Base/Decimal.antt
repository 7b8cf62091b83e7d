-- ===== src/Base/Decimal.antt =====
-- Decimal numerals: `BigInt(text)` on digits and `toString()` on a non-negative big integer.
pub mod Laws
use coalition.Base.{
  ℕ, zero, suc, ◌+◌, ◌-◌, ◌*◌, ◌/◌, ◌%◌, [], ◌∷◌, ℤ, pos, negsuc, Text, ltb, if◌then◌else◌,
}

-- The number that digits denote after the digits read so far.
unfoldable pub value_from : ℕ → Text → ℕ
value_from n [] = n
value_from n (c ∷ s) = value_from (n * 10 + (c - b'0')) s

-- `BigInt(s)` for `s` in `/^\d*$/`
unfoldable pub big_int : Text → ℕ
unfolding value_from
big_int s = value_from 0 s

-- The digits of a number in front of those already written; each round divides by ten.
unfoldable pub print_from : ℕ → ℕ → Text → Text
print_from zero n out = out
print_from (suc fuel) n out =
    let more = print_from fuel (n / 10) ((b'0' + n % 10) ∷ out) in
    if ltb n 10 then (b'0' + n) ∷ out else more

-- `n.toString()`: a number has fewer digits than `n + 1`.
unfoldable pub to_string : ℕ → Text
unfolding print_from
to_string n = print_from (suc n) n []

-- The same on a signed big integer.
unfoldable pub to_string_ℤ : ℤ → Text
unfolding to_string
to_string_ℤ (pos n) = to_string n
to_string_ℤ (negsuc n) = b'-' ∷ to_string (suc n)
