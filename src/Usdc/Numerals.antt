-- ===== src/Usdc/Numerals.antt =====
-- `toAtomicUsdc` against the meaning of a decimal numeral, and the gap between the two views.
use coalition.Base.{
  ℕ, ◌+◌, ◌-◌, ◌*◌, ◌^◌, ◌≤◌, ◌≡◌, refl, sym, ap, ◌∙◌, ◌↔◌, ◌⊎◌, inl, inr, Bool, true, false,
  if◌then◌else◌, ◌∷◌, ◌++◌, arith, Text, leb, leb→le, length, uint_pattern, Bool-cases,
}
use coalition.Base.Decimal.{big_int}
use coalition.Base.Decimal.Laws.{pow_add}
use coalition.Usdc.{
  UsdcDecimals, usdc_native, usdc_erc20, decimals_of, UsdcResult, ok, invalid_amount,
  display_pattern, to_atomic_usdc,
}
use coalition.Usdc.Parse.{
  display_split, to_atomic_usdc_whole, to_atomic_usdc_fraction, to_atomic_usdc_too_precise,
}

-- The display string is a whole number of units or a decimal fraction of at most `d` places, and
-- `n` is its value in units of 10 ^ -d.
abbrev pub Denotes : Text → ℕ → ℕ → Type 0
Denotes display d n =
    (uint_pattern display ≡ true) × (n ≡ big_int display * 10 ^ d)
    ⊎ (a : Text) × (t : Text) × (display ≡ a ++ b'.' ∷ t)
      × (uint_pattern a ≡ true)
      × (uint_pattern t ≡ true)
      × (length t ≤ d)
      × (n ≡ big_int a * 10 ^ d + big_int t * 10 ^ (d - length t))

pub ok-injective : {A : Type 0} {a b : A} → ok a ≡ ok b → a ≡ b
ok-injective h = cc

module _ (display : Text) (decimals : UsdcDecimals) where
  malformed : {n : ℕ} → to_atomic_usdc display decimals ≡ ok n → display_pattern display ≡ true
  unfolding to_atomic_usdc
  malformed h = ground arith

  Denotes-of_ok :
      {n : ℕ} → to_atomic_usdc display decimals ≡ ok n → Denotes display (decimals_of decimals) n
  Denotes-of_ok h = elim (display_split display (malformed h)) [
    | inl whole ↦ inl (whole, ok-injective (sym h ∙ to_atomic_usdc_whole decimals display whole))
    | inr (a, t, e, u, v) ↦ elim (Bool-cases (leb (length t) (decimals_of decimals))) [
      | inl fits ↦
          let short = leb→le (length t) (decimals_of decimals) fits in
          inr (
            a,
            t,
            e,
            u,
            v,
            short,
            ok-injective (sym (rw e at h) ∙ to_atomic_usdc_fraction decimals a t u v short),
          )
      | inr long ↦
          absurd (cc (rw e at h, to_atomic_usdc_too_precise decimals a t u v (ground arith)))
    ]
  ]

  ok_of_Denotes :
      {n : ℕ} → Denotes display (decimals_of decimals) n → to_atomic_usdc display decimals ≡ ok n
  ok_of_Denotes (inl (whole, e)) = rw e (to_atomic_usdc_whole decimals display whole)
  ok_of_Denotes (inr (a, t, e, u, v, short, value)) =
      rw (e, value) (to_atomic_usdc_fraction decimals a t u v short)

guarded :
    {A : Type 0} (b c : Bool) (x : UsdcResult A) (a : A)
    → let r = if b then x else if c then x else ok a in (r ≡ x) ⊎ ((n : A) × (r ≡ ok n))
guarded true c x a = inl refl
guarded false true x a = inl refl
guarded false false x a = inr (a, refl)

outcome :
    (display : Text) (decimals : UsdcDecimals)
    → (to_atomic_usdc display decimals ≡ invalid_amount display decimals)
      ⊎ ((n : ℕ) × (to_atomic_usdc display decimals ≡ ok n))
unfolding to_atomic_usdc
outcome display decimals = guarded _ _ _ _

-- `toAtomicUsdc` returns an amount exactly for the decimal numerals that the view can represent, and
-- returns their value; and where it does not, it throws with the text that it was given.
pub to_atomic_usdc-Denotes :
    (display : Text) (decimals : UsdcDecimals) (n : ℕ)
    → ((to_atomic_usdc display decimals ≡ ok n) ↔ Denotes display (decimals_of decimals) n)
      × ((to_atomic_usdc display decimals ≡ invalid_amount display decimals)
          ⊎ ((m : ℕ) × Denotes display (decimals_of decimals) m))
to_atomic_usdc-Denotes display decimals n = (
  (Denotes-of_ok display decimals, ok_of_Denotes display decimals),
  elim (outcome display decimals) [
    | inl thrown ↦ inl thrown
    | inr (m, e) ↦ inr (m, Denotes-of_ok display decimals e)
  ],
)

-- A text that is an amount in the 6-decimal view is one in the 18-decimal view, 10 ^ 12 times as
-- large in atomic units.
pub to_atomic_usdc-rescale :
    (display : Text) (n : ℕ)
    → to_atomic_usdc display usdc_erc20 ≡ ok n
    → to_atomic_usdc display usdc_native ≡ ok (n * 10 ^ 12)
to_atomic_usdc-rescale display n h = elim (Denotes-of_ok display usdc_erc20 h) [
  | inl (whole, e) ↦ ok_of_Denotes display usdc_native (inl (whole, omega arith))
  | inr (a, t, e, u, v, short, value) ↦
      let gap : 18 - length t ≡ 6 - length t + 12 = omega arith in
      ok_of_Denotes display usdc_native (
        inr (
          a,
          t,
          e,
          u,
          v,
          omega arith,
          omega (
            arith,
            value,
            ap (λ (k : ℕ). big_int t * 10 ^ k) gap,
            ap (λ (k : ℕ). big_int t * k) (pow_add 10 (6 - length t) 12),
          ),
        ))
]
