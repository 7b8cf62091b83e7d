-- ===== src/Circle/Polls.antt =====
-- The polls of a transaction: which one ends the loop, how many there are, and what success means.
use coalition.Base.{
  ℕ, zero, suc, ◌+◌, ◌*◌, ◌≤◌, ◌<◌, ◌≡◌, ◌⊎◌, refl, inl, inr, false, none, some, arith, Text, text,
  is_empty, ltb, Bool-cases, Option-cases, ok,
}
use coalition.Circle.{
  Execution, Poll, last_state_of, verdict, timed_out, poll_from, execute_contract_and_wait,
}

module _ (id : Text) (polls : ℕ → Poll) where
  -- The time when the poll number `n` is due, and the state that was seen last before it.
  pub clock : ℕ → ℕ
  clock zero = 0
  clock (suc n) = clock n + (polls n).took + 500 + (polls n).jitter

  abbrev pub last_seen : ℕ → Text
  last_seen zero = text "UNKNOWN"
  last_seen (suc n) = last_state_of (polls n).answer

  -- Each of the first `n` polls was made in time and left the transaction pending.
  abbrev pub IsPending : ℕ → Type 0
  IsPending zero = Unit
  IsPending (suc n) = IsPending n × (clock n < 120_000) × (verdict id (polls n).answer ≡ none)

  -- The result after `n` polls that left the transaction pending.
  abbrev pub IsLast : ℕ → Execution → Type 0
  IsLast n result =
      ((clock n < 120_000) × (verdict id (polls n).answer ≡ some result))
      ⊎ ((120_000 ≤ clock n) × (result ≡ timed_out id (last_seen n)))

  abbrev pub Finishes : Execution → Type 0
  Finishes result = (n : ℕ) × (n ≤ 240) × IsPending n × IsLast n result

  clock_bound : (n : ℕ) → 500 * n ≤ clock n
  unfolding clock
  clock_bound zero = omega arith
  clock_bound (suc n) = omega (arith, clock_bound n)

  pending_bound : (n : ℕ) → IsPending n → n ≤ 240
  pending_bound zero h = omega arith
  pending_bound (suc n) (h, early, e) = omega (arith, clock_bound n)

  poll_from-Finishes :
      (fuel n : ℕ)
      → 241 ≤ fuel + n
      → IsPending n
      → Finishes (poll_from fuel id polls n (clock n) (last_seen n))
  unfolding poll_from clock
  poll_from-Finishes zero n enough h = absurd (omega (arith, pending_bound n h))
  poll_from-Finishes (suc fuel) n enough h = elim (Bool-cases (ltb (clock n) 120_000)) [
    | inr late ↦ rw late (n, pending_bound n h, h, inr (ground arith, refl))
    | inl early ↦ elim (Option-cases (verdict id (polls n).answer)) [
      | inl e ↦ rw (early, e) (poll_from-Finishes fuel (suc n) (omega arith) (h, ground arith, e))
      | inr (result, e) ↦ rw (early, e) (n, pending_bound n h, h, inl (ground arith, e))
    ]
  ]

-- An execution that was given a transaction id ends within 241 turns of the loop: the result is the
-- verdict of the first poll that ends the transaction, where that poll is made within 120 seconds,
-- and else the time-out with the state seen last; at most 240 polls leave it pending.
pub execute_contract_and_wait-Finishes :
    (id : Text) (polls : Text → ℕ → Poll)
    → is_empty id ≡ false
    → Finishes id (polls id) (execute_contract_and_wait (ok (some id)) polls)
unfolding execute_contract_and_wait clock
execute_contract_and_wait-Finishes id polls h =
    rw h (poll_from-Finishes id (polls id) 241 0 (omega arith) tt)
