-- ===== src/Fund/Split.antt =====
-- The share of one wallet, and what a run of wallets commits of a remainder.
use native.Mathlib.Nat.{div-add-mod, mod-lt}
use coalition.Base.{
  ℕ, zero, suc, ◌+◌, ◌-◌, ◌*◌, ◌/◌, ◌%◌, ◌≤◌, ◌<◌, ◌≡◌, inl, inr, arith, ltb, leb, if◌then◌else◌,
  Bool-cases,
}
use coalition.Fund.{share_atomic, fill_amount}

mul_mono : (n q m : ℕ) → q ≤ m → n * q ≤ n * m
mul_mono n q m h = grind arith

rest_of_split :
    (n q m r : ℕ) → suc n * q + m ≡ r → m < suc n → suc q ≤ share_atomic → r - q ≤ share_atomic * n
rest_of_split n q m r e small h = omega (arith, mul_mono n (suc q) share_atomic h)

module _ (r n : ℕ) where
  divided : suc n * (r / suc n) + r % suc n ≡ r
  divided = div-add-mod r (suc n)

  remainder_small : r % suc n < suc n
  remainder_small = mod-lt r (omega arith)

  -- A share is no more than what remains.
  pub fill_amount-le : fill_amount r (suc n) ≤ r
  unfolding fill_amount
  fill_amount-le = grind (arith, divided, remainder_small)

  -- A share of something is something.
  pub fill_amount_pos : 0 < r → 0 < fill_amount r (suc n)
  unfolding fill_amount
  fill_amount_pos h = grind (arith, divided, remainder_small)

  -- What fits the standard shares of all the wallets still fits those of the rest.
  pub fill_amount_rest : r ≤ share_atomic * suc n → r - fill_amount r (suc n) ≤ share_atomic * n
  unfolding fill_amount
  fill_amount_rest h = elim (Bool-cases (ltb (r / suc n) share_atomic)) [
    | inl less ↦ elim (Bool-cases (ltb 0 (r / suc n))) [
      | inl some_each ↦
          rw (less, some_each)
            (rest_of_split n (r / suc n) (r % suc n) r divided remainder_small (ground arith))
      | inr too_few ↦ rw (less, too_few) (omega arith)
    ]
    | inr full ↦ rw full (omega arith)
  ]

  -- Unless fewer units remain than wallets, a share is at most the standard one.
  pub fill_amount-le_share : suc n ≤ share_atomic → fill_amount r (suc n) ≤ share_atomic
  unfolding fill_amount
  fill_amount-le_share h = grind (arith, divided, remainder_small)

-- What `n` wallets in a row commit of a remainder, each taking its share of what the earlier left.
unfoldable pub spread : ℕ → ℕ → ℕ
spread zero r = 0
spread (suc n) r =
    let rest = spread n (r - fill_amount r (suc n)) in
    if leb r 0 then spread n r else fill_amount r (suc n) + rest

pub spread-le : (n r : ℕ) → spread n r ≤ r
unfolding spread
spread-le zero r = omega arith
spread-le (suc n) r =
    ground (arith, spread-le n r, spread-le n (r - fill_amount r (suc n)), fill_amount-le r n)

pub spread_all : (n r : ℕ) → r ≤ share_atomic * n → spread n r ≡ r
unfolding spread
spread_all zero r h = omega arith
spread_all (suc n) r h = ground (
  arith,
  spread-le n r,
  spread_all n (r - fill_amount r (suc n)) (fill_amount_rest r n h),
  fill_amount-le r n,
)
