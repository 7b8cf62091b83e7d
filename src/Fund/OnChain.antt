-- ===== src/Fund/OnChain.antt =====
-- The third phase of `fund` on Circle and the orchestrator: the calls of a job are submitted and polled
-- as `executeContractAndWait` does, and the slice is allocated as `allocateWithRetry` does.
use mathlib.Core.Path.{subst}
use coalition.Base.{ℕ, true, ◌≡◌, ◌↔◌, refl, sym, ap, ◌∙◌, Option, some, Text, Result, ok}
use coalition.Circle.{Execution, executed, Poll, execute_contract_and_wait}
use coalition.Circle.Success.{Confirms, execute_contract_and_wait-Confirms}
use coalition.Fund.{funded, FundJob, FundStep, Slot}
use coalition.Fund.Execute.{ContractCall, approve, Outside, commit_call, run_job, committed_step}
use coalition.Fund.Outcomes.{run_job-funded}
use coalition.Fund.Slices.{Attempt, allocate_with_retry}

-- What the submission of a job's call answers, what the polls of its transaction come to, and what the
-- attempts at a slice do.
pub record Network : Type 0 where
  pub created : ℕ → ContractCall → Result Text (Option Text)
  pub polls : ℕ → ContractCall → Text → ℕ → Poll
  pub attempts : Text → ℕ → ℕ → Attempt

unfoldable pub execute_on : Network → ℕ → ContractCall → Execution
execute_on network at call =
    execute_contract_and_wait (network.created at call) (network.polls at call)

abbrev pub outside_of : Network → Outside
outside_of network = record {
  execute = λ at call. ok (execute_on network at call);
  allocate_with_retry = λ wallet index. allocate_with_retry true (network.attempts wallet index);
}

-- `executeContractAndWait` for the approval of a job.
abbrev pub approval_of : Network → ℕ → FundJob → Execution
approval_of network at job = execute_on network at (approve job.wallet_id job.amount)

module _ (network : Network) (at : ℕ) where
  -- The chain shows this hash for the call, within the time that is waited.
  abbrev pub IsConfirmed : ContractCall → Text → Type 0
  IsConfirmed call = Confirms (network.created at call) (network.polls at call)

  confirmed :
      (call : ContractCall) (tx : Text)
      → execute_on network at call ≡ executed tx
      → IsConfirmed call tx
  unfolding execute_on
  confirmed call tx h =
      (execute_contract_and_wait-Confirms (network.created at call) (network.polls at call) tx).0 h

  executed_of :
      (call : ContractCall) (tx : Text)
      → IsConfirmed call tx
      → execute_on network at call ≡ executed tx
  unfolding execute_on
  executed_of call tx h =
      (execute_contract_and_wait-Confirms (network.created at call) (network.polls at call) tx).1 h

  abbrev job_step : FundJob → FundStep
  job_step job = (run_job (outside_of network) at job (approval_of network at job)).step

  -- The step says `funded`, and carries the two hashes and what came of the retried allocation.
  abbrev pub IsFunded : FundJob → Text → Text → FundStep → Type 0
  IsFunded job approve_tx commit_tx step =
      (step.decision ≡ funded)
      × (step.approve_tx_hash ≡ some approve_tx)
      × (step.commit_tx_hash ≡ some commit_tx)
      × (step.allocation ≡ some (allocate_with_retry true (network.attempts job.wallet job.index)))

  -- The chain shows the two hashes for the job's approval and for its commit.
  abbrev pub AreConfirmed : FundJob → Text → Text → Type 0
  AreConfirmed job approve_tx commit_tx =
      IsConfirmed (approve job.wallet_id job.amount) approve_tx
      × IsConfirmed (commit_call job) commit_tx

  -- The step of a job whose commit was answered, against what the chain shows.
  job_step-IsFunded :
      (job : FundJob) (approve_tx commit_tx : Text)
      → AreConfirmed job approve_tx commit_tx
      → IsFunded job approve_tx commit_tx (job_step job)
  unfolding run_job committed_step
  job_step-IsFunded job approve_tx commit_tx (approved, committed) =
      let outside = outside_of network in
      let same : run_job outside at job (approval_of network at job)
          ≡ committed_step outside job approve_tx (ok (executed commit_tx)) =
        ap (run_job outside at job)
          (executed_of (approve job.wallet_id job.amount) approve_tx approved)
        ∙ ap (λ e. committed_step outside job approve_tx (ok e))
            (executed_of (commit_call job) commit_tx committed) in
      subst (λ (slot : Slot). IsFunded job approve_tx commit_tx slot.step) (sym same)
        (refl, refl, refl, refl)

  is_executed : {a b : Execution} → ◌≡◌ {A = Result Text Execution} (ok a) (ok b) → a ≡ b
  is_executed h = cc

  some_injective : {a b : Text} → some a ≡ some b → a ≡ b
  some_injective h = cc

  job_step_confirmed :
      (job : FundJob)
      → (job_step job).decision ≡ funded
      → (approve_tx : Text) × (commit_tx : Text) × AreConfirmed job approve_tx commit_tx
        × IsFunded job approve_tx commit_tx (job_step job)
  job_step_confirmed job h =
      let (a, c, approved, committed, first, second, allocated) =
        (run_job-funded (outside_of network) at job (approval_of network at job)).0 h in
      (
        a,
        c,
        (
          confirmed (approve job.wallet_id job.amount) a approved,
          confirmed (commit_call job) c (is_executed committed),
        ),
        (h, first, second, allocated),
      )

  -- Run on Circle, a job is reported as funded exactly if the chain shows a hash for its approval and
  -- one for its commit, each in time; and with two given hashes, and with what came of the retried
  -- allocation, exactly if these are the hashes that the chain shows.
  pub run_job-IsConfirmed :
      (job : FundJob) (approve_tx commit_tx : Text)
      → (((run_job (outside_of network) at job (approval_of network at job)).step.decision ≡ funded)
          ↔ ((a : Text) × (c : Text) × AreConfirmed job a c))
        × (IsFunded job approve_tx commit_tx
              (run_job (outside_of network) at job (approval_of network at job)).step
            ↔ AreConfirmed job approve_tx commit_tx)
  run_job-IsConfirmed job approve_tx commit_tx = (
    (
      λ h. let (a, c, shown, _) = job_step_confirmed job h in (a, c, shown),
      λ (a, c, shown). (job_step-IsFunded job a c shown).0,
    ),
    (
      λ (h, first, second, _).
          let (a, c, shown, (_, first', second', _)) = job_step_confirmed job h in
          let a_is = some_injective (sym first' ∙ first) in
          let c_is = some_injective (sym second' ∙ second) in rw (← a_is, ← c_is) shown,
      λ shown. job_step-IsFunded job approve_tx commit_tx shown,
    ),
  )
