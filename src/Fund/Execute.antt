-- ===== src/Fund/Execute.antt =====
-- Phases 2 and 3 of `fund`: the approvals, the commits, and the report in the order of the seeds. The
-- calls that Circle carries out are a parameter; a job's number tells its calls from the other jobs'.
use mathlib.Core.List.{map}
use coalition.Base.{
  ℕ, suc, Option, none, some, List, [], ◌∷◌, ◌++◌, Text, text, text_eq, ltb, if◌then◌else◌, Result,
  ok, err, ◌>>=◌,
}
use coalition.Circle.{Execution, executed, not_executed}
use coalition.Fund.{
  Decision, funded, failed, Reason, approve_failed, commit_failed, threw, funded_amount, Allocation,
  FundStep, Slot, FundJob, Plan,
}

-- The signatures with which `fund` calls `executeContractAndWait`.
pub data ContractCall : Type 0 where
  approve : Text → ℕ → ContractCall
  commit : Text → ℕ → ContractCall
  commit_to_round : Text → Text → ℕ → ContractCall

-- What the outside answers: the contract calls of each job, which may throw, and the retried
-- allocation of a slice, which never does.
pub record Outside : Type 0 where
  pub execute : ℕ → ContractCall → Result Text Execution
  pub allocate_with_retry : Text → ℕ → Allocation

-- `roundId === "0" ? … : …`
unfoldable pub commit_call : FundJob → ContractCall
commit_call job =
    if text_eq job.round_id (text "0")
    then commit job.wallet_id job.amount
    else commit_to_round job.wallet_id job.round_id job.amount

abbrev job_step :
    FundJob → Decision → Reason → Option Text → Option Text → Option Text → Option Allocation → Slot
job_step job decision reason round_id approve_tx commit_tx allocation = record {
  index = job.index;
  step = record {
    wallet = job.wallet;
    decision = decision;
    reason = reason;
    round_id = round_id;
    approve_tx_hash = approve_tx;
    commit_tx_hash = commit_tx;
    allocation = allocation;
    attestation = some job.attestation;
  };
}

-- The step that the answer to the commit gives.
unfoldable pub committed_step : Outside → FundJob → Text → Result Text Execution → Slot
committed_step outside job approve_tx (err message) =
    job_step job failed (threw message) none (some approve_tx) none none
committed_step outside job approve_tx (ok (not_executed e)) =
    job_step job failed (commit_failed e) (some job.round_id) (some approve_tx) none none
committed_step outside job approve_tx (ok (executed tx)) =
    job_step job funded (funded_amount job.amount job.round_id) (some job.round_id)
      (some approve_tx) (some tx) (some (outside.allocate_with_retry job.wallet job.index))

-- The body of the third phase for the job number `at`; the commit is called only after an approval.
unfoldable pub run_job : Outside → ℕ → FundJob → Execution → Slot
unfolding committed_step
run_job outside at job (not_executed e) =
    job_step job failed (approve_failed e) (some job.round_id) none none none
run_job outside at job (executed tx) =
    committed_step outside job tx (outside.execute at (commit_call job))

-- The second phase: where one approval throws, `Promise.all` does.
unfoldable pub approve_each : Outside → ℕ → List FundJob → Result Text (List Execution)
approve_each outside at [] = ok []
approve_each outside at (job ∷ jobs) =
    outside.execute at (approve job.wallet_id job.amount) >>= λ approval.
    approve_each outside (suc at) jobs >>= λ approvals. ok (approval ∷ approvals)

-- The slots of the third phase, job by job; `fund` pushes them as the jobs finish.
unfoldable pub run_jobs : Outside → ℕ → List FundJob → List Execution → List Slot
run_jobs outside at (job ∷ jobs) (approval ∷ approvals) =
    run_job outside at job approval ∷ run_jobs outside (suc at) jobs approvals
run_jobs outside at _ _ = []

-- `slots.sort((a, b) => a.index - b.index)`, which is stable
unfoldable pub insert_slot : Slot → List Slot → List Slot
insert_slot slot [] = slot ∷ []
insert_slot slot (other ∷ slots) =
    if ltb other.index slot.index then other ∷ insert_slot slot slots else slot ∷ other ∷ slots

unfoldable pub sort_slots : List Slot → List Slot
sort_slots [] = []
sort_slots (slot ∷ slots) = insert_slot slot (sort_slots slots)

-- The response's `steps`, where `pushed` are the third phase's slots in the order in which the jobs
-- finished.
unfoldable pub report : Plan → List Slot → List FundStep
report plan pushed = map (λ slot. slot.step) (sort_slots (plan.slots ++ pushed))
