-- ===== src/Resale/AutoRun/Keys.antt =====
-- The comparison of the keys.
use Prim.Native.Nat.{bit_or, bit_or-bitwise, bit_xor, bit_xor-bitwise, digits, differ, max}
use mathlib.Core.Path.{subst}
use coalition.Base.{
  ℕ, zero, suc, ◌/◌, ◌%◌, ◌≤◌, ◌≡◌, ◌↔◌, refl, inl, inr, Bool-cases, ap, sym, true, [], ◌∷◌, arith,
  Text, length, ◌==◌,
}
use coalition.Resale.AutoRun.{diff_of, keys_equal}

half_le : (a n : ℕ) → suc a ≤ suc n → suc a / 2 ≤ n
half_le a n h = omega arith

differ_zero : (a b : ℕ) → (differ a b ≡ 0) ↔ (a ≡ b)
differ_zero zero b = ground arith
differ_zero (suc a) zero = ground arith
differ_zero (suc a) (suc b) = ground (arith, differ_zero a b)

xor_digits : (n a b : ℕ) → a ≤ n → (digits (λ b. b) differ n a b ≡ 0) ↔ (a ≡ b)
xor_digits zero zero b h = ground arith
xor_digits zero (suc a) b h = absurd (omega arith)
xor_digits (suc n) zero b h = ground arith
xor_digits (suc n) (suc a) b h =
    let high = xor_digits n (suc a / 2) (b / 2) (half_le a n h) in
    let low = differ_zero (suc a % 2) (b % 2) in
    (
      λ e.
          let halves = high.0 (omega (arith, e)) in
          let rests = low.0 (omega (arith, e)) in omega (arith, halves, rests),
      λ same.
          let halves = high.1 (omega (arith, same)) in
          let rests = low.1 (omega (arith, same)) in omega (arith, halves, rests),
    )

max_zero : (a b : ℕ) → (max a b ≡ 0) ↔ ((a ≡ 0) × (b ≡ 0))
max_zero zero zero = ground arith
max_zero zero (suc b) = ground arith
max_zero (suc a) zero = ground arith
max_zero (suc a) (suc b) = ground arith

or_digits : (n a b : ℕ) → a ≤ n → (digits (λ b. b) max n a b ≡ 0) ↔ ((a ≡ 0) × (b ≡ 0))
or_digits zero zero b h = ground arith
or_digits zero (suc a) b h = absurd (omega arith)
or_digits (suc n) zero b h = ground arith
or_digits (suc n) (suc a) b h =
    let high = or_digits n (suc a / 2) (b / 2) (half_le a n h) in
    let low = max_zero (suc a % 2) (b % 2) in
    (
      λ e.
          let (p, q) = high.0 (omega (arith, e)) in
          let (r, s) = low.0 (omega (arith, e)) in absurd (omega (arith, p, r)),
      λ (p, q). absurd (omega (arith, p)),
    )

bit_xor_zero : (a b : ℕ) → (bit_xor a b ≡ 0) ↔ (a ≡ b)
bit_xor_zero a b =
    let computed : bit_xor a b ≡ digits (λ b. b) differ a a b = λ i. bit_xor-bitwise a b i in
    subst (λ d. (d ≡ 0) ↔ (a ≡ b)) (sym computed) (xor_digits a a b (omega arith))

bit_or_zero : (a b : ℕ) → (bit_or a b ≡ 0) ↔ ((a ≡ 0) × (b ≡ 0))
bit_or_zero a b =
    let computed : bit_or a b ≡ digits (λ b. b) max a a b = λ i. bit_or-bitwise a b i in
    subst (λ d. (d ≡ 0) ↔ ((a ≡ 0) × (b ≡ 0))) (sym computed) (or_digits a a b (omega arith))

diff_of_zero :
    (diff : ℕ) (s t : Text) → length s ≡ length t → (diff_of diff s t ≡ 0) ↔ ((diff ≡ 0) × (s ≡ t))
unfolding diff_of
diff_of_zero diff [] [] h = (λ e. (e, refl), λ (e, same). e)
diff_of_zero diff [] (b ∷ t) h = absurd (omega (arith, h))
diff_of_zero diff (a ∷ s) [] h = absurd (omega (arith, h))
diff_of_zero diff (a ∷ s) (b ∷ t) h =
    let rest = diff_of_zero (bit_or diff (bit_xor a b)) s t (omega (arith, h)) in
    let here = bit_or_zero diff (bit_xor a b) in
    let codes = bit_xor_zero a b in
    (
      λ e.
          let (p, q) = rest.0 e in
          let (r, x) = here.0 p in let same = codes.0 x in (r, cc (same, q)),
      λ (e, same).
          let heads : a ≡ b = cc in
          let tails : s ≡ t = cc in rest.1 (here.1 (e, codes.1 heads), tails),
    )

-- The comparison of the keys, which ends early only on their lengths, holds exactly of equal keys.
pub keys_equal_lem : (a b : Text) → (keys_equal a b ≡ true) ↔ (a ≡ b)
unfolding keys_equal
keys_equal_lem a b = elim (Bool-cases (length a == length b)) [
  | inr other ↦ rw other (
    λ e. cc,
    λ same.
        let apart : length a ≡ length b = ap length same in absurd (ground (arith, other, apart)),
  )
  | inl same ↦
      let zero_diff = diff_of_zero 0 a b (ground arith) in
      rw same (
        λ e. (zero_diff.0 (ground arith)).1,
        λ eq. let none_left = zero_diff.1 (refl, eq) in ground arith,
      )
]
