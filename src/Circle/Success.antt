-- ===== src/Circle/Success.antt =====
-- When an execution counts as executed.
use mathlib.Core.Path.{subst}
use coalition.Base.{
  ℕ, zero, suc, ◌<◌, ◌≡◌, ◌≢◌, ◌↔◌, refl, ap, ◌∙◌, inl, inr, true, false, Option, none, some, [],
  ◌∷◌, arith, Text, ltb, is_empty, Bool-cases, Result, ok, err,
}
use coalition.Circle.{
  Execution, executed, Transaction, Poll, is_success_state, is_failure_state, state_of, hash_of,
  with_hash, verdict, execute_contract_and_wait,
}
use coalition.Circle.Polls.{clock, IsPending, IsLast, Finishes, execute_contract_and_wait-Finishes}

-- The answer shows a transaction that reached the chain with this hash.
abbrev pub ShowsHash : Result Text (Option Transaction) → Text → Type 0
ShowsHash answer tx_hash =
    (transaction : Option Transaction) × (answer ≡ ok transaction)
    × (is_success_state (state_of transaction) ≡ true)
    × (hash_of transaction ≡ some tx_hash)
    × (is_empty tx_hash ≡ false)

with_hash_executed :
    (id state tx_hash : Text) (hash : Option Text)
    → with_hash id state hash ≡ executed tx_hash
    → (hash ≡ some tx_hash) × (is_empty tx_hash ≡ false)
unfolding with_hash
with_hash_executed id state tx_hash none h = cc
with_hash_executed id state tx_hash (some []) h = cc
with_hash_executed id state tx_hash (some (c ∷ s)) h =
    let same : (c ∷ s) ≡ tx_hash = cc in (ap some same, subst (λ t. is_empty t ≡ false) same refl)

on_success_state :
    (id : Text) (transaction : Option Transaction)
    → is_success_state (state_of transaction) ≡ true
    → verdict id (ok transaction) ≡ some (with_hash id (state_of transaction) (hash_of transaction))
unfolding verdict
on_success_state id transaction h = rw h

-- In no other state is a transaction executed.
on_other_state :
    (id tx_hash : Text) (transaction : Option Transaction)
    → is_success_state (state_of transaction) ≡ false
    → verdict id (ok transaction) ≢ some (executed tx_hash)
unfolding verdict
on_other_state id tx_hash transaction h =
    elim (Bool-cases (is_failure_state (state_of transaction))) [
      | inl failed ↦ rw (h, failed) (λ e. cc)
      | inr going ↦ rw (h, going) (λ e. cc)
    ]

verdict_executed :
    (id tx_hash : Text) (answer : Result Text (Option Transaction))
    → verdict id answer ≡ some (executed tx_hash)
    → ShowsHash answer tx_hash
unfolding verdict
verdict_executed id tx_hash (err e) h = cc
verdict_executed id tx_hash (ok transaction) h =
    elim (Bool-cases (is_success_state (state_of transaction))) [
      | inr other ↦ absurd (on_other_state id tx_hash transaction other h)
      | inl success ↦
          let e = on_success_state id transaction success in
          let given : with_hash id (state_of transaction) (hash_of transaction) ≡ executed tx_hash =
            cc in
          let (hash, full) =
            with_hash_executed id (state_of transaction) tx_hash (hash_of transaction) given in
          (transaction, refl, success, hash, full)
    ]

verdict_of :
    (id tx_hash : Text) (answer : Result Text (Option Transaction))
    → ShowsHash answer tx_hash
    → verdict id answer ≡ some (executed tx_hash)
unfolding verdict with_hash
verdict_of id tx_hash answer (transaction, e, success, hash, full) = rw (e, success, hash, full)

module _ (id : Text) (polls : ℕ → Poll) where
  pending_at :
      (n k : ℕ)
      → IsPending id polls n
      → k < n
      → (clock id polls k < 120_000) × (verdict id (polls k).answer ≡ none)
  pending_at zero k h less = absurd (omega arith)
  pending_at (suc n) k (h, early, e) less = elim (Bool-cases (ltb k n)) [
    | inl below ↦ pending_at n k h (ground arith)
    | inr above ↦
        let same : n ≡ k = ground arith in
        subst (λ (k : ℕ). (clock id polls k < 120_000) × (verdict id (polls k).answer ≡ none)) same
          (early, e)
  ]

  -- The polls leave the transaction pending until one, made in time, gives this result.
  abbrev pub Gives : Execution → Type 0
  Gives result =
      (n : ℕ) × IsPending id polls n
      × (clock id polls n < 120_000)
      × (verdict id (polls n).answer ≡ some result)

  Gives-last :
      (m n : ℕ) (result found : Execution)
      → IsPending id polls m
      → IsLast id polls m found
      → IsPending id polls n
      → clock id polls n < 120_000
      → verdict id (polls n).answer ≡ some result
      → found ≡ result
  Gives-last m n result found before last h early e = elim (Bool-cases (ltb n m)) [
    | inl below ↦ let (in_time, none_yet) = pending_at m n before (ground arith) in cc
    | inr above ↦ elim (Bool-cases (ltb m n)) [
      | inl below ↦
          let (in_time, none_yet) = pending_at n m h (ground arith) in
          elim last [ inl (less, given) ↦ cc | inr (late, out) ↦ absurd (omega arith) ]
      | inr same_or ↦
          let same : m ≡ n = ground arith in
          elim (subst (λ k. IsLast id polls k found) same last) [
            | inl (less, given) ↦ cc
            | inr (late, out) ↦ absurd (omega arith)
          ]
    ]
  ]

  found_last :
      (n : ℕ) (tx_hash : Text)
      → IsPending id polls n
      → IsLast id polls n (executed tx_hash)
      → Gives (executed tx_hash)
  found_last n tx_hash h (inl (early, e)) = (n, h, early, e)
  found_last n tx_hash h (inr (late, e)) = cc

-- A submission that was answered with this id, of a transaction whose polls come to this hash in time.
abbrev pub Confirms : Result Text (Option Text) → (Text → ℕ → Poll) → Text → Type 0
Confirms created polls tx_hash =
    (id : Text) × (created ≡ ok (some id))
    × (is_empty id ≡ false)
    × ((n : ℕ) × IsPending id (polls id) n
        × (clock id (polls id) n < 120_000)
        × ShowsHash (polls id n).answer tx_hash)

to_confirms :
    (created : Result Text (Option Text)) (polls : Text → ℕ → Poll) (tx_hash : Text)
    → execute_contract_and_wait created polls ≡ executed tx_hash
    → Confirms created polls tx_hash
unfolding execute_contract_and_wait
to_confirms (err e) polls tx_hash h = cc
to_confirms (ok none) polls tx_hash h = cc
to_confirms (ok (some [])) polls tx_hash h = cc
to_confirms (ok (some (c ∷ s))) polls tx_hash h =
    let id : Text = c ∷ s in
    let (n, bound, before, last) =
      subst (Finishes id (polls id)) h (execute_contract_and_wait-Finishes id polls refl) in
    let (n', before', early, e) = found_last id (polls id) n tx_hash before last in
    (id, refl, refl, (n', before', early, verdict_executed id tx_hash (polls id n').answer e))

of_Confirms :
    (created : Result Text (Option Text)) (polls : Text → ℕ → Poll) (tx_hash : Text)
    → Confirms created polls tx_hash
    → execute_contract_and_wait created polls ≡ executed tx_hash
of_Confirms created polls tx_hash (id, e, full, (n, before, early, shows)) =
    let (m, bound, before', last) = execute_contract_and_wait-Finishes id polls full in
    let found =
      Gives-last id (polls id) m n (executed tx_hash)
        (execute_contract_and_wait (ok (some id)) polls) before' last before early
        (verdict_of id tx_hash (polls id n).answer shows) in
    ap (λ c. execute_contract_and_wait c polls) e ∙ found

-- An execution counts as executed, with a hash, exactly if the submission gives a transaction id, and
-- a poll made within 120 seconds, after polls that all left the transaction pending, shows it in a
-- success state with that hash, which is not empty.
pub execute_contract_and_wait-Confirms :
    (created : Result Text (Option Text)) (polls : Text → ℕ → Poll) (tx_hash : Text)
    → (execute_contract_and_wait created polls ≡ executed tx_hash) ↔ Confirms created polls tx_hash
execute_contract_and_wait-Confirms created polls tx_hash =
    (to_confirms created polls tx_hash, of_Confirms created polls tx_hash)
