-- ===== src/Fund/Guard/Single.antt =====
-- At most one run of `fund` at a time.
use coalition.Base.{ℕ, zero, suc, ◌≤◌, ◌≡◌, ◌↔◌, refl, Bool, true, false, arith, ◌==◌}
use coalition.Fund.Guard.{
  GuardState, guard, busy_409, post, Step, arrives, ends, Reachable, starts, steps,
}

abbrev pub under_way : GuardState → ℕ
under_way (guard funding_pending running) = running

abbrev pub is_pending : GuardState → Bool
is_pending (guard funding_pending running) = funding_pending

abbrev Holds : GuardState → Type 0
Holds state = (under_way state ≤ 1) × (is_pending state ≡ (under_way state == 1))

post-Holds : (state : GuardState) → Holds state → Holds (post state).0
unfolding post
post-Holds (guard true running) (le, same) = (le, same)
post-Holds (guard false zero) (le, same) = (omega arith, refl)
post-Holds (guard false (suc zero)) (le, same) = cc
post-Holds (guard false (suc (suc running))) (le, same) = absurd (omega arith)

Step-Holds : {before after : GuardState} → Step before after → Holds before → Holds after
Step-Holds (arrives state) h = post-Holds state h
Step-Holds (ends funding_pending zero) (le, same) = (omega arith, refl)
Step-Holds (ends funding_pending (suc running)) (le, same) = absurd (omega arith)

Reachable-Holds : (state : GuardState) → Reachable state → Holds state
Reachable-Holds state starts = (omega arith, refl)
Reachable-Holds state (steps {before} reached step) =
    Step-Holds step (Reachable-Holds before reached)

refuses : (state : GuardState) → Holds state → ((post state).1 ≡ busy_409) ↔ (under_way state ≡ 1)
unfolding post
refuses (guard true running) (le, same) = (λ _. ground (arith, same), λ _. refl)
refuses (guard false running) (le, same) = (λ e. cc, λ one. ground (arith, same, one))

-- In every state that the server reaches, whatever the order in which requests come in and runs end, at
-- most one run of `fund` is under way, and a request is refused exactly if one is.
pub post-under_way :
    (state : GuardState)
    → Reachable state
    → (under_way state ≤ 1) × (((post state).1 ≡ busy_409) ↔ (under_way state ≡ 1))
post-under_way state reached =
    let holds = Reachable-Holds state reached in (holds.0, refuses state holds)
