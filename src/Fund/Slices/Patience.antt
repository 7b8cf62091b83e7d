-- ===== src/Fund/Slices/Patience.antt =====
-- Which attempt the retried allocation ends with.
use coalition.Base.{
  ℕ, zero, suc, ◌+◌, ◌-◌, ◌*◌, ◌≤◌, ◌<◌, ◌≡◌, ◌⊎◌, refl, inl, inr, Bool, true, false, not, ◌&&◌,
  arith, ltb, leb, if◌then◌else◌, Bool-cases, ap, sym, ◌∙◌,
}
use mathlib.Core.Path.{subst}
use coalition.Fund.{Allocation}
use coalition.Fund.Slices.{
  Attempt, allocate_slice, is_round_lag_error, is_terminal_settle_denial, min_of, allocate_from,
  allocate_with_retry,
}

-- The answers after which the allocation is tried again: for a wallet that has just paid, a denial
-- that calls itself final; for any wallet, an error of a lagging round that does not.
unfoldable pub is_tried_again : Bool → Allocation → Bool
is_tried_again just_funded allocation =
    not allocation.succeeded
    && (if is_terminal_settle_denial allocation.error
        then just_funded
        else is_round_lag_error allocation.error)

-- The guards of the loop as one test.
guards_lem :
    {A : Type 0} (succeeded terminal just_funded lag late : Bool) (last more : A)
    → (if succeeded
        then last
        else if terminal && not just_funded
        then last
        else if not terminal && not lag
        then last
        else if late
        then last
        else more)
      ≡ (if (not succeeded && (if terminal then just_funded else lag)) && not late
          then more
          else last)
guards_lem true terminal just_funded lag late last more = refl
guards_lem false true true lag true last more = refl
guards_lem false true true lag false last more = refl
guards_lem false true false lag late last more = refl
guards_lem false false just_funded true true last more = refl
guards_lem false false just_funded true false last more = refl
guards_lem false false just_funded false late last more = refl

module _ (just_funded : Bool) (attempts : ℕ → Attempt) where
  abbrev pub answer : ℕ → Allocation
  answer n = allocate_slice (attempts n).reply

  -- When the attempt number `n` starts, and when it is answered: a pause of 400ms lies between an
  -- answer and the next start, or what is left of the 12 seconds.
  unfoldable pub start : ℕ → ℕ
  start zero = 0
  start (suc n) = start n + (attempts n).took + min_of 400 (12_000 - (start n + (attempts n).took))

  abbrev pub answered : ℕ → ℕ
  answered n = start n + (attempts n).took

  -- Each of the first `n` attempts was answered in time, and is tried again.
  abbrev pub IsLagging : ℕ → Type 0
  IsLagging zero = Unit
  IsLagging (suc n) =
      IsLagging n × (answered n < 12_000) × (is_tried_again just_funded (answer n) ≡ true)

  abbrev pub EndsWith : Allocation → Type 0
  EndsWith result =
      (n : ℕ) × (n ≤ 30)
      × IsLagging n
      × (result ≡ answer n)
      × ((is_tried_again just_funded (answer n) ≡ false) ⊎ (12_000 ≤ answered n))

  start_bound : (n : ℕ) → IsLagging n → (400 * n ≤ start n) ⊎ (12_000 ≤ start n)
  unfolding start
  start_bound zero h = inl (omega arith)
  start_bound (suc n) (h, early, again) = ground (arith, start_bound n h)

  lagging_bound : (n : ℕ) → IsLagging n → n ≤ 30
  lagging_bound zero h = omega arith
  lagging_bound (suc n) (h, early, again) = ground (arith, start_bound n h)

  -- One turn of the loop, by the test above.
  one_turn :
      (fuel n now : ℕ)
      → allocate_from (suc fuel) just_funded attempts n now ≡ (
          if is_tried_again just_funded (answer n) && not (leb 12_000 (now + (attempts n).took))
          then allocate_from fuel just_funded attempts
              (suc n)
              (now + (attempts n).took + min_of 400 (12_000 - (now + (attempts n).took)))
          else answer n)
  unfolding allocate_from is_tried_again
  one_turn fuel n now =
      let last = answer n in
      let late = leb 12_000 (now + (attempts n).took) in
      guards_lem last.succeeded (is_terminal_settle_denial last.error) just_funded
        (is_round_lag_error last.error) late last _

  allocate_from-EndsWith :
      (fuel n : ℕ)
      → 31 ≤ fuel + n
      → IsLagging n
      → EndsWith (allocate_from fuel just_funded attempts n (start n))
  unfolding start
  allocate_from-EndsWith zero n enough h = absurd (omega (arith, lagging_bound n h))
  allocate_from-EndsWith (suc fuel) n enough h =
      subst EndsWith (sym (one_turn fuel n (start n)))
        (elim (Bool-cases (is_tried_again just_funded (answer n))) [
          | inr final ↦ rw final (n, lagging_bound n h, h, refl, inl final)
          | inl again ↦ elim (Bool-cases (leb 12_000 (answered n))) [
            | inl late ↦ rw (again, late) (n, lagging_bound n h, h, refl, inr (ground arith))
            | inr early ↦
                rw (again, early)
                  (allocate_from-EndsWith fuel (suc n) (omega arith) (h, ground arith, again))
          ]
        ])

  -- The retried allocation ends within 31 attempts. It returns the answer of the last: the first that is
  -- not tried again, a success among them, or the first that comes after the 12 seconds.
  pub allocate_with_retry-EndsWith : EndsWith (allocate_with_retry just_funded attempts)
  unfolding allocate_with_retry start
  allocate_with_retry-EndsWith = allocate_from-EndsWith 31 0 (omega arith) tt

  lagging_at :
      (n k : ℕ)
      → IsLagging n
      → k < n
      → (answered k < 12_000) × (is_tried_again just_funded (answer k) ≡ true)
  lagging_at zero k h less = absurd (omega arith)
  lagging_at (suc n) k (h, early, again) less = elim (Bool-cases (ltb k n)) [
    | inl below ↦ lagging_at n k h (ground arith)
    | inr above ↦
        let same : n ≡ k = ground arith in
        subst (λ k. (answered k < 12_000) × (is_tried_again just_funded (answer k) ≡ true)) same
          (early, again)
  ]

  not_again :
      (allocation : Allocation)
      → allocation.succeeded ≡ true
      → is_tried_again just_funded allocation ≡ false
  unfolding is_tried_again
  not_again allocation h = rw h

  -- Where the orchestrator's view lags for some attempts, each answered within the 12 seconds, and the
  -- next attempt succeeds, the allocation succeeds, however long that attempt takes.
  pub allocate_with_retry_succeeds :
      (n : ℕ)
      → IsLagging n
      → (answer n).succeeded ≡ true
      → (allocate_with_retry just_funded attempts).succeeded ≡ true
  allocate_with_retry_succeeds n h success =
      let (m, bound, before, result, last) = allocate_with_retry-EndsWith in
      elim (Bool-cases (ltb m n)) [
        | inl below ↦
            let (early, again) = lagging_at n m h (ground arith) in
            elim last [ inl final ↦ cc | inr late ↦ absurd (omega arith) ]
        | inr above ↦ elim (Bool-cases (ltb n m)) [
          | inl below ↦
              let (early, again) = lagging_at m n before (ground arith) in
              let final = not_again (answer n) success in cc
          | inr same_or ↦
              let same : m ≡ n = ground arith in
              ap (λ a. a.succeeded) result ∙ ap (λ k. (answer k).succeeded) same ∙ success
        ]
      ]
