-- ===== src/Usdc/Parse.antt =====
-- What `toAtomicUsdc` accepts, and the number that it returns.
use coalition.Base.{
  ℕ, ◌+◌, ◌-◌, ◌⊎◌, inl, inr, ◌&&◌, ◌==◌, ==_iff, &&_true, Bool-cases, ◌*◌, ◌^◌, ◌≤◌, ◌<◌, ◌≡◌,
  refl, ap, ◌∙◌, true, [], ◌∷◌, ◌++◌, arith, Text, ltb, if◌then◌else◌, length, all, take_left,
  drop_left, is_digit, uint_pattern, pad_end,
}
use coalition.Base.Decimal.{value_from, big_int}
use coalition.Base.Decimal.Laws.{value_from-pad_end, index_of-digits, index_of_after_digits}
use coalition.Usdc.{
  UsdcDecimals, decimals_of, ok, invalid_amount, display_rest, display_pattern, to_atomic_usdc,
}

pub digits_of_uint : (s : Text) → uint_pattern s ≡ true → all is_digit s ≡ true
unfolding uint_pattern
digits_of_uint [] h = refl
digits_of_uint (c ∷ s) h = h

display_rest-digits : (s : Text) → all is_digit s ≡ true → display_rest s ≡ true
unfolding display_rest
display_rest-digits [] h = refl
display_rest-digits (c ∷ s) h = ground (arith, display_rest-digits s)

display_rest_dot :
    (s t : Text)
    → all is_digit s ≡ true
    → uint_pattern t ≡ true
    → display_rest (s ++ b'.' ∷ t) ≡ true
unfolding display_rest
display_rest_dot [] t h k = ground arith
display_rest_dot (c ∷ s) t h k = ground (arith, display_rest_dot s t)

pub display_pattern-uint : (s : Text) → uint_pattern s ≡ true → display_pattern s ≡ true
unfolding display_pattern uint_pattern
display_pattern-uint [] h = cc
display_pattern-uint (c ∷ s) h = ground (arith, display_rest-digits s)

pub display_pattern_dot :
    (s t : Text)
    → uint_pattern s ≡ true
    → uint_pattern t ≡ true
    → display_pattern (s ++ b'.' ∷ t) ≡ true
unfolding display_pattern
display_pattern_dot [] t h k = unfold uint_pattern in cc
display_pattern_dot (c ∷ s) t h k = ground (arith, digits_of_uint (c ∷ s) h, display_rest_dot s t)

module _ (decimals : UsdcDecimals) where
  -- What is computed once the display string is split.
  joined_value :
      (display s t : Text)
      → length t ≤ decimals_of decimals
      → (if ltb (decimals_of decimals) (length t)
          then invalid_amount display decimals
          else ok (big_int (s ++ pad_end (decimals_of decimals) t)))
        ≡ ok (
            big_int s * 10 ^ decimals_of decimals
            + big_int t * 10 ^ (decimals_of decimals - length t))
  unfolding big_int
  joined_value display s t fits = ground (arith, value_from-pad_end s t (decimals_of decimals))

  -- A whole number of units.
  pub to_atomic_usdc_whole :
      (s : Text)
      → uint_pattern s ≡ true
      → to_atomic_usdc s decimals ≡ ok (big_int s * 10 ^ decimals_of decimals)
  unfolding to_atomic_usdc
  to_atomic_usdc_whole s h =
      rw (display_pattern-uint s h, index_of-digits b'.' s refl (digits_of_uint s h))
        (joined_value s s [] (omega arith) ∙ ap ok (unfold big_int value_from in omega arith))

  -- A whole number, a dot and a fraction that is not too long.
  pub to_atomic_usdc_fraction :
      (s t : Text)
      → uint_pattern s ≡ true
      → uint_pattern t ≡ true
      → length t ≤ decimals_of decimals
      → to_atomic_usdc (s ++ b'.' ∷ t) decimals
        ≡ ok (
            big_int s * 10 ^ decimals_of decimals
            + big_int t * 10 ^ (decimals_of decimals - length t))
  unfolding to_atomic_usdc
  to_atomic_usdc_fraction s t h k fits =
      rw
        (
          display_pattern_dot s t h k,
          index_of_after_digits b'.' s t refl (digits_of_uint s h),
          take_left s (b'.' ∷ t),
          drop_left s b'.' t,
        )
        (joined_value (s ++ b'.' ∷ t) s t fits)

  -- A fraction with more digits than the view has is refused, never cut off.
  pub to_atomic_usdc_too_precise :
      (s t : Text)
      → uint_pattern s ≡ true
      → uint_pattern t ≡ true
      → decimals_of decimals < length t
      → to_atomic_usdc (s ++ b'.' ∷ t) decimals ≡ invalid_amount (s ++ b'.' ∷ t) decimals
  unfolding to_atomic_usdc
  to_atomic_usdc_too_precise s t h k long =
      rw
        (
          display_pattern_dot s t h k,
          index_of_after_digits b'.' s t refl (digits_of_uint s h),
          take_left s (b'.' ∷ t),
          drop_left s b'.' t,
        )
        (ground arith)

display_rest_split :
    (s : Text)
    → display_rest s ≡ true
    → (all is_digit s ≡ true)
      ⊎ ((a t : Text) × (s ≡ a ++ b'.' ∷ t) × (all is_digit a ≡ true) × (uint_pattern t ≡ true))
unfolding display_rest
display_rest_split [] h = inl refl
display_rest_split (c ∷ s) h = elim (Bool-cases (is_digit c && display_rest s)) [
  | inl more ↦
      let (digit, rest) = &&_true (is_digit c) (display_rest s) more in
      elim (display_rest_split s rest) [
        | inl digits ↦ inl (rw (digit, digits))
        | inr (a, t, e, digits, u) ↦
            inr (c ∷ a, t, ap (λ (l : Text). c ∷ l) e, rw (digit, digits), u)
      ]
  | inr stop ↦
      let (dot, u) = &&_true (c == b'.') (uint_pattern s) (rw stop at h) in
      inr ([], s, ap (λ (x : ℕ). x ∷ s) ((==_iff c b'.').0 dot), refl, u)
]

-- The pattern's two shapes.
pub display_split :
    (s : Text)
    → display_pattern s ≡ true
    → (uint_pattern s ≡ true)
      ⊎ ((a t : Text) × (s ≡ a ++ b'.' ∷ t) × (uint_pattern a ≡ true) × (uint_pattern t ≡ true))
unfolding display_pattern uint_pattern
display_split [] h = cc
display_split (c ∷ s) h =
    let (digit, rest) = &&_true (is_digit c) (display_rest s) h in
    elim (display_rest_split s rest) [
      | inl digits ↦ inl (rw (digit, digits))
      | inr (a, t, e, digits, u) ↦ inr (c ∷ a, t, ap (λ (l : Text). c ∷ l) e, rw (digit, digits), u)
    ]
