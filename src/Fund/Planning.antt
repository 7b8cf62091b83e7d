-- ===== src/Fund/Planning.antt =====
-- The first phase: what the jobs add up to.
use mathlib.Core.List.{append_assoc}
use mathlib.Core.Path.{subst}
use coalition.Base.{
  ℕ, suc, ◌+◌, ◌-◌, ◌*◌, ◌≤◌, ◌<◌, ◌≡◌, refl, ap, ◌∙◌, inl, inr, true, false, some, List, [], ◌∷◌,
  ◌++◌, arith, Text, leb, if◌then◌else◌, Bool-cases, All,
}
use coalition.Fund.{
  Funders, FunderAttestation, attest_funder, attest_all, share_atomic, fill_amount,
  attested_left_from, Allocation, RoundView, FundJob, plan_wallets, plan_round, open_remainder,
  is_closed,
}
use coalition.Fund.Split.{spread, spread-le, spread_all}

unfoldable pub count_attested : List FunderAttestation → ℕ
count_attested [] = 0
count_attested (att ∷ atts) = (if att.attested then 1 else 0) + count_attested atts

unfoldable pub total_amount : List FundJob → ℕ
total_amount [] = 0
total_amount (job ∷ jobs) = job.amount + total_amount jobs

-- The indices run on from `k`.
abbrev pub IsIndexed : ℕ → List FunderAttestation → Type 0
IsIndexed k [] = Unit
IsIndexed k (att ∷ atts) = (att.index ≡ k) × IsIndexed (suc k) atts

pub attest_all-IsIndexed :
    (funders : Funders) (k : ℕ) (ids : List Text) → IsIndexed k (attest_all funders k ids)
unfolding attest_all attest_funder
attest_all-IsIndexed funders k [] = tt
attest_all-IsIndexed funders k (id ∷ ids) = (refl, attest_all-IsIndexed funders (suc k) ids)

attested_left_from-append :
    (xs ys : List FunderAttestation) (k : ℕ)
    → attested_left_from (xs ++ ys) k ≡ attested_left_from xs k + attested_left_from ys k
unfolding attested_left_from
attested_left_from-append [] ys k = omega arith
attested_left_from-append (x ∷ xs) ys k = ground (arith, attested_left_from-append xs ys k)

attested_left_from_later :
    (xs : List FunderAttestation) (j k : ℕ)
    → j ≤ k
    → IsIndexed k xs
    → attested_left_from xs j ≡ count_attested xs
unfolding attested_left_from count_attested
attested_left_from_later [] j k h i = refl
attested_left_from_later (x ∷ xs) j k h (e, i) =
    ground (arith, attested_left_from_later xs j (suc k) (omega arith) i)

attested_left_from_earlier :
    (xs : List FunderAttestation) (k : ℕ) → All (λ x. x.index < k) xs → attested_left_from xs k ≡ 0
unfolding attested_left_from
attested_left_from_earlier [] k h = refl
attested_left_from_earlier (x ∷ xs) k (p, h) = ground (arith, attested_left_from_earlier xs k h)

-- At each attested wallet the code's count is that of the wallets still to run.
abbrev pub CountsLeft : List FunderAttestation → List FunderAttestation → Type 0
CountsLeft all [] = Unit
CountsLeft all (att ∷ atts) =
    (attested_left_from all att.index ≡ count_attested (att ∷ atts)) × CountsLeft all atts

weaken :
    (xs : List FunderAttestation) (k : ℕ)
    → All (λ x. x.index < k) xs
    → All (λ x. x.index < suc k) xs
weaken [] k h = tt
weaken (x ∷ xs) k (p, h) = (omega arith, weaken xs k h)

append_one :
    (xs : List FunderAttestation) (y : FunderAttestation) (k : ℕ)
    → All (λ x. x.index < k) xs
    → y.index ≡ k
    → All (λ x. x.index < suc k) (xs ++ y ∷ [])
append_one [] y k h e = (omega arith, tt)
append_one (x ∷ xs) y k (p, h) e = (omega arith, append_one xs y k h e)

pub CountsLeft-suffix :
    (before atts : List FunderAttestation) (k : ℕ)
    → All (λ x. x.index < k) before
    → IsIndexed k atts
    → CountsLeft (before ++ atts) atts
CountsLeft-suffix before [] k h i = tt
CountsLeft-suffix before (att ∷ atts) k h (e, i) = (
  ap (attested_left_from (before ++ att ∷ atts)) e
      ∙ attested_left_from-append before (att ∷ atts) k
      ∙ omega (
        arith,
        attested_left_from_earlier before k h,
        attested_left_from_later (att ∷ atts) k k (omega arith) (e, i),
      ),
  subst (λ l. CountsLeft l atts) (append_assoc before (att ∷ []) atts)
      (CountsLeft-suffix (before ++ att ∷ []) atts (suc k) (append_one before att k h e) i),
)

spread-suc :
    (m n r : ℕ)
    → m ≡ suc n
    → spread m r
      ≡ (if leb r 0 then spread n r else fill_amount r m + spread n (r - fill_amount r m))
unfolding spread
spread-suc m n r e = rw (e, spread)

no_amount : total_amount [] ≡ 0
unfolding total_amount
no_amount = refl

module _ (allocate : Text → ℕ → Allocation) (round : RoundView) where
  plan_wallets-spread :
      (all atts : List FunderAttestation) (r : ℕ)
      → is_closed round ≡ false
      → CountsLeft all atts
      → total_amount (plan_wallets allocate round all r atts).jobs ≡ spread (count_attested atts) r
  unfolding plan_wallets total_amount count_attested spread
  plan_wallets-spread all [] r h c = refl
  plan_wallets-spread all (att ∷ atts) r h (e, c) = elim (Bool-cases att.attested) [
    | inl good ↦ ground (
      arith,
      spread-suc (attested_left_from all att.index) (count_attested atts) r (ground arith),
      ap (λ (n : ℕ). spread n r) e,
      plan_wallets-spread all atts r h c,
      plan_wallets-spread all atts (r - fill_amount r (attested_left_from all att.index)) h c,
    )
    | inr bad ↦ ground (
      arith,
      plan_wallets-spread all atts r h c,
      ap (λ (n : ℕ). spread n r)
          (let none_more : count_attested (att ∷ atts) ≡ count_attested atts = ground arith in
            none_more),
    )
  ]

  closed_plan :
      (all atts : List FunderAttestation) (r : ℕ)
      → is_closed round ≡ true
      → (plan_wallets allocate round all r atts).jobs ≡ []
  unfolding plan_wallets
  closed_plan all [] r h = refl
  closed_plan all (att ∷ atts) r h = ground (arith, closed_plan all atts r h)

  open_remainder_le :
      round.total_committed ≤ round.target
      → round.total_committed + open_remainder round ≤ round.target
  unfolding open_remainder
  open_remainder_le h = ground arith

  plan_wallets-le :
      (all : List FunderAttestation) (r : ℕ)
      → CountsLeft all all
      → total_amount (plan_wallets allocate round all r all).jobs ≤ r
  unfolding total_amount
  plan_wallets-le all r c = elim (Bool-cases (is_closed round)) [
    | inl closed ↦ omega (arith, ap total_amount (closed_plan all all r closed))
    | inr open_round ↦
        omega (arith, plan_wallets-spread all all r open_round c, spread-le (count_attested all) r)
  ]

  -- The first phase never commits past the target: what its jobs add to what is committed stays
  -- within the target, and a settled or expired round gets nothing.
  pub plan_round-within :
      (funders : Funders) (ids : List Text)
      → round.total_committed ≤ round.target
      → round.total_committed
          + total_amount (plan_round allocate (some round) (attest_all funders 0 ids)).jobs
        ≤ (if is_closed round then round.total_committed else round.target)
  unfolding plan_round
  plan_round-within funders ids h =
      let atts = attest_all funders 0 ids in
      let r : ℕ = open_remainder round in
      let counts = CountsLeft-suffix [] atts 0 tt (attest_all-IsIndexed funders 0 ids) in
      elim (Bool-cases (is_closed round)) [
        | inl closed ↦ ground (arith, ap total_amount (closed_plan atts atts r closed), no_amount)
        | inr open_round ↦ ground (arith, plan_wallets-le atts r counts, open_remainder_le h)
      ]

  -- Where what remains of an open round is at most a standard share for each attested wallet, the
  -- jobs of the first phase add up to exactly what remains.
  pub plan_round-completes :
      (funders : Funders) (ids : List Text)
      → is_closed round ≡ false
      → open_remainder round ≤ share_atomic * count_attested (attest_all funders 0 ids)
      → total_amount (plan_round allocate (some round) (attest_all funders 0 ids)).jobs
        ≡ open_remainder round
  unfolding plan_round
  plan_round-completes funders ids h fits =
      let atts = attest_all funders 0 ids in
      let r : ℕ = open_remainder round in
      let n : ℕ = count_attested atts in
      plan_wallets-spread atts atts r h
        (CountsLeft-suffix [] atts 0 tt (attest_all-IsIndexed funders 0 ids))
      ∙ spread_all n r fits
