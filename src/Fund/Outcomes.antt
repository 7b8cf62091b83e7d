-- ===== src/Fund/Outcomes.antt =====
-- Which jobs are reported as funded.
use coalition.Base.{ℕ, ◌≡◌, refl, some, Text, Result, ok, err, ◌↔◌}
use coalition.Circle.{Execution, executed, not_executed}
use coalition.Fund.{funded, FundJob}
use coalition.Fund.Execute.{Outside, committed_step, run_job, commit_call}

committed_step-funded :
    (outside : Outside) (job : FundJob) (tx : Text) (answer : Result Text Execution)
    → ((committed_step outside job tx answer).step.decision ≡ funded) ↔ (
        (approve_tx : Text) × (commit_tx : Text) × (executed tx ≡ executed approve_tx)
        × (answer ≡ ok (executed commit_tx))
        × ((committed_step outside job tx answer).step.approve_tx_hash ≡ some approve_tx)
        × ((committed_step outside job tx answer).step.commit_tx_hash ≡ some commit_tx)
        × ((committed_step outside job tx answer).step.allocation
            ≡ some (outside.allocate_with_retry job.wallet job.index)))
unfolding committed_step
committed_step-funded outside job tx (err message) = (λ h. cc, λ (a, c, p, q, _, _, _). cc)
committed_step-funded outside job tx (ok (not_executed e)) = (λ h. cc, λ (a, c, p, q, _, _, _). cc)
committed_step-funded outside job tx (ok (executed commit_tx)) =
    (λ h. (tx, commit_tx, refl, refl, refl, refl, refl), λ _. refl)

-- The step of a job says `funded` exactly if its approval was executed and then the commit to its
-- round; it then carries both hashes and what came of the allocation.
pub run_job-funded :
    (outside : Outside) (at : ℕ) (job : FundJob) (approval : Execution)
    → ((run_job outside at job approval).step.decision ≡ funded) ↔ (
        (approve_tx : Text) × (commit_tx : Text) × (approval ≡ executed approve_tx)
        × (outside.execute at (commit_call job) ≡ ok (executed commit_tx))
        × ((run_job outside at job approval).step.approve_tx_hash ≡ some approve_tx)
        × ((run_job outside at job approval).step.commit_tx_hash ≡ some commit_tx)
        × ((run_job outside at job approval).step.allocation
            ≡ some (outside.allocate_with_retry job.wallet job.index)))
unfolding run_job
run_job-funded outside at job (not_executed e) = (λ h. cc, λ (a, c, p, _, _, _, _). cc)
run_job-funded outside at job (executed tx) =
    committed_step-funded outside job tx (outside.execute at (commit_call job))
