-- ===== src/Dashboard/Retries.antt =====
-- Which attempt a retried read ends with, and how long it waits.
use mathlib.Core.Path.{subst}
use coalition.Base.{
  ℕ, zero, suc, ◌+◌, ◌*◌, ◌^◌, ◌≤◌, ◌≡◌, ◌⊎◌, refl, sym, ap, ◌∙◌, inl, inr, Bool, true, false, List,
  [], ◌∷◌, arith, Text, Bool-cases, Result-cases, Result, ok, err,
}
use coalition.Dashboard.Attempts.{Retried, retry_from, retry}

-- The pauses after `count` failed attempts, of which the first is the attempt number `attempt`.
abbrev pub backoff : ℕ → ℕ → List ℕ
backoff attempt zero = []
backoff attempt (suc count) = 1500 * 2 ^ attempt ∷ backoff (suc attempt) count

pub sum : List ℕ → ℕ
sum [] = 0
sum (n ∷ ns) = n + sum ns

module _ {A : Type 0} (again : Text → Bool) (answer : ℕ → Result Text A) where
  abbrev pub FailsAgain : ℕ → Type 0
  FailsAgain attempt = (e : Text) × (answer attempt ≡ err e) × (again e ≡ true)

  -- An answer with which no further attempt is made.
  abbrev pub Ends : ℕ → Type 0
  Ends attempt =
      ((a : A) × (answer attempt ≡ ok a))
      ⊎ ((e : Text) × (answer attempt ≡ err e) × (again e ≡ false))

  -- The `count` attempts from `attempt` on fail, each with an error that is tried again.
  abbrev pub AllFail : ℕ → ℕ → Type 0
  AllFail attempt zero = Unit
  AllFail attempt (suc count) = FailsAgain attempt × AllFail (suc attempt) count

  abbrev pub Stops : ℕ → ℕ → Retried A → Type 0
  Stops left attempt retried =
      (count : ℕ) × (count ≤ left)
      × AllFail attempt count
      × (Ends (attempt + count) ⊎ (count ≡ left))
      × (retried.outcome ≡ answer (attempt + count))
      × (retried.waits ≡ backoff attempt count)

  on_success :
      (left attempt : ℕ) (a : A)
      → answer attempt ≡ ok a
      → retry_from again answer (suc left) attempt ≡ record { outcome = ok a; waits = [] }
  unfolding retry_from
  on_success left attempt a e = rw (e, retry_from)

  on_last :
      (left attempt : ℕ) (message : Text)
      → answer attempt ≡ err message
      → again message ≡ false
      → retry_from again answer (suc left) attempt ≡ record { outcome = err message; waits = [] }
  unfolding retry_from
  on_last left attempt message e last = rw (e, last, retry_from)

  on_failure :
      (left attempt : ℕ) (message : Text)
      → answer attempt ≡ err message
      → again message ≡ true
      → retry_from again answer (suc left) attempt ≡ record {
        outcome = (retry_from again answer left (suc attempt)).outcome;
        waits = 1500 * 2 ^ attempt ∷ (retry_from again answer left (suc attempt)).waits;
      }
  unfolding retry_from
  on_failure left attempt message e more = rw (e, more, retry_from)

  abbrev once : Result Text A → Retried A
  once outcome = record { outcome = outcome; waits = [] }

  at_once :
      (left attempt : ℕ)
      → Ends attempt
      → Stops left attempt (record { outcome = answer attempt; waits = [] })
  at_once left attempt ends =
      let same : attempt ≡ attempt + 0 = omega arith in
      (0, omega arith, tt, inl (subst Ends same ends), ap answer same, refl)

  one_more :
      (left attempt : ℕ) (retried : Retried A)
      → FailsAgain attempt
      → Stops left (suc attempt) retried
      → Stops
          (suc left)
          attempt
          (record { outcome = retried.outcome; waits = 1500 * 2 ^ attempt ∷ retried.waits })
  one_more left attempt retried failed (count, le, fails, ends, outcome, waits) =
      let same : suc attempt + count ≡ attempt + suc count = omega arith in
      (
        suc count,
        omega arith,
        (failed, fails),
        elim ends [ inl e ↦ inl (subst Ends same e) | inr e ↦ inr (ap suc e) ],
        outcome ∙ ap answer same,
        ap (λ (l : List ℕ). 1500 * 2 ^ attempt ∷ l) waits,
      )

  -- The attempts go on as long as each fails with an error that is tried again, up to `left` times;
  -- the outcome is the answer of the last, and the pauses double from one attempt to the next.
  pub retry_from-Stops :
      (left attempt : ℕ) → Stops left attempt (retry_from again answer left attempt)
  unfolding retry_from
  retry_from-Stops zero attempt = (0, omega arith, tt, inr refl, ap answer (omega arith), refl)
  retry_from-Stops (suc left) attempt = elim (Result-cases (answer attempt)) [
    | inl (a, e) ↦
        subst (Stops (suc left) attempt) (sym (on_success left attempt a e ∙ ap once (sym e)))
          (at_once (suc left) attempt (inl (a, e)))
    | inr (message, e) ↦ elim (Bool-cases (again message)) [
      | inr last ↦
          subst (Stops (suc left) attempt)
            (sym (on_last left attempt message e last ∙ ap once (sym e)))
            (at_once (suc left) attempt (inr (message, e, last)))
      | inl more ↦ subst (Stops (suc left) attempt) (sym (on_failure left attempt message e more)) (
          one_more left attempt (retry_from again answer left (suc attempt)) (message, e, more)
            (retry_from-Stops left (suc attempt)))
    ]
  ]

  backoff_bound : (count : ℕ) → count ≤ 3 → sum (backoff 0 count) ≤ 10_500
  unfolding sum
  backoff_bound zero h = omega arith
  backoff_bound (suc zero) h = omega arith
  backoff_bound (suc (suc zero)) h = omega arith
  backoff_bound (suc (suc (suc zero))) h = omega arith
  backoff_bound (suc (suc (suc (suc count)))) h = absurd (omega arith)

  -- A retried read makes at most four attempts: it goes on while each fails with an error that is
  -- tried again, ends with the answer of the last, and pauses 1.5s, 3s and 6s between them, 10.5
  -- seconds at most in all.
  pub retry-Stops : Stops 3 0 (retry again answer) × (sum (retry again answer).waits ≤ 10_500)
  unfolding retry
  retry-Stops =
      let (count, le, fails, ends, outcome, waits) = retry_from-Stops 3 0 in
      (
        (count, le, fails, ends, outcome, waits),
        subst (λ l. sum l ≤ 10_500) (sym waits) (backoff_bound count le),
      )
