-- ===== src/Fund/Report.antt =====
-- The report of `fund`: one step for each wallet, whatever the order in which the jobs finish.
use mathlib.Core.List.Permᴰ.{Permᴰ, nil, cons, trans, symm, append_left, middle}
use mathlib.Core.List.{map}
use coalition.Base.{
  ℕ, suc, ◌-◌, ◌<◌, ◌≡◌, refl, sym, ap, ◌∙◌, inl, inr, Option, none, some, List, [], ◌∷◌, ◌++◌,
  arith, Text, leb, Bool-cases, Result, ok, err, >>=-eq-ok, ok-injective, Zipped, done, both,
}
use coalition.Circle.{Execution, executed, not_executed}
use coalition.Fund.{
  Funders, FunderAttestation, attest_all, Allocation, RoundView, FundStep, Slot, FundJob, Plan,
  fill_amount, attested_left_from, plan_wallets, plan_round, unread_round, is_closed,
  open_remainder,
}
use coalition.Fund.Execute.{
  Outside, committed_step, run_job, run_jobs, approve_each, approve, commit_call, insert_slot,
  sort_slots, report,
}
use coalition.Fund.Planning.{IsIndexed, attest_all-IsIndexed}
use coalition.Fund.Sorting.{count, AreDistinct, sort_slots-perm}

-- What a slot says of the wallet of its index.
abbrev Reports : FunderAttestation → Slot → Type 0
Reports att slot = (slot.index ≡ att.index) × (slot.step.wallet ≡ att.wallet)

abbrev IsRunOf : FundJob → Slot → Type 0
IsRunOf job slot = (slot.index ≡ job.index) × (slot.step.wallet ≡ job.wallet)

-- With the slots of its jobs, the plan has one slot for each wallet.
abbrev Covers : List FunderAttestation → Plan → Type 0
Covers atts plan =
    (ran : List Slot)
    → Zipped IsRunOf plan.jobs ran
    → (slots : List Slot) × Permᴰ (plan.slots ++ ran) slots × Zipped Reports atts slots

add_slot-Covers :
    (att : FunderAttestation) (atts : List FunderAttestation) (slot : Slot) (plan : Plan)
    → Reports att slot
    → Covers atts plan
    → Covers (att ∷ atts) (record plan { slots = slot ∷ plan.slots })
add_slot-Covers att atts slot plan h covers ran z =
    let (slots, p, reports) = covers ran z in (slot ∷ slots, cons refl p, both h reports)

add_job-Covers :
    (att : FunderAttestation) (atts : List FunderAttestation) (job : FundJob) (plan : Plan)
    → job.index ≡ att.index
    → job.wallet ≡ att.wallet
    → Covers atts plan
    → Covers (att ∷ atts) (record plan { jobs = job ∷ plan.jobs })
add_job-Covers att atts job plan e f covers (slot ∷ ran) (both (g, h) z) =
    let (slots, p, reports) = covers ran z in
    (slot ∷ slots, trans (middle slot plan.slots ran) (cons refl p), both (g ∙ e, h ∙ f) reports)
add_job-Covers att atts job plan e f covers [] z = elim z [ ]

nil_Covers : Covers [] (record { slots = []; jobs = [] })
nil_Covers [] z = ([], nil, done)
nil_Covers (slot ∷ ran) z = elim z [ ]

module _ (allocate : Text → ℕ → Allocation) where
  plan_wallets-Covers :
      (round : RoundView) (all atts : List FunderAttestation) (r : ℕ)
      → Covers atts (plan_wallets allocate round all r atts)
  unfolding plan_wallets
  plan_wallets-Covers round all [] r = nil_Covers
  plan_wallets-Covers round all (att ∷ atts) r =
      let without = plan_wallets-Covers round all atts r in
      let left = attested_left_from all att.index in
      let after = plan_wallets-Covers round all atts (r - fill_amount r left) in
      elim (Bool-cases att.attested) [
        | inr bad ↦ simp bad (add_slot-Covers att atts _ _ (refl, refl) without)
        | inl good ↦ elim (Bool-cases (is_closed round)) [
          | inl closed ↦ simp (good, closed) (add_slot-Covers att atts _ _ (refl, refl) without)
          | inr open_round ↦ elim (Bool-cases (leb r 0)) [
            | inl full ↦
                simp (good, open_round, full) (add_slot-Covers att atts _ _ (refl, refl) without)
            | inr more ↦ simp (good, open_round, more) (add_job-Covers att atts _ _ refl refl after)
          ]
        ]
      ]

  unread_round-Covers : (atts : List FunderAttestation) → Covers atts (unread_round atts)
  unfolding unread_round
  unread_round-Covers [] = nil_Covers
  unread_round-Covers (att ∷ atts) =
      add_slot-Covers att atts _ _ (refl, refl) (unread_round-Covers atts)

  plan_round-Covers :
      (opening : Option RoundView) (atts : List FunderAttestation)
      → Covers atts (plan_round allocate opening atts)
  unfolding plan_round
  plan_round-Covers none atts = unread_round-Covers atts
  plan_round-Covers (some round) atts = plan_wallets-Covers round atts atts (open_remainder round)

-- The slots of the wallets are sorted already.
count_later :
    (atts : List FunderAttestation) (slots : List Slot) (j k : ℕ)
    → j < k
    → IsIndexed k atts
    → Zipped Reports atts slots
    → count j slots ≡ 0
unfolding count
count_later [] [] j k h i done = refl
count_later [] (slot ∷ slots) j k h i z = elim z [ ]
count_later (att ∷ atts) [] j k h i z = elim z [ ]
count_later (att ∷ atts) (slot ∷ slots) j k h (i, is) (both (e, f) z) =
    ground (arith, count_later atts slots j (suc k) (omega arith) is z)

slots-AreDistinct :
    (atts : List FunderAttestation) (slots : List Slot) (k : ℕ)
    → IsIndexed k atts
    → Zipped Reports atts slots
    → AreDistinct slots
unfolding count
slots-AreDistinct [] [] k i done j = omega arith
slots-AreDistinct [] (slot ∷ slots) k i z j = elim z [ ]
slots-AreDistinct (att ∷ atts) [] k i z j = elim z [ ]
slots-AreDistinct (att ∷ atts) (slot ∷ slots) k (i, is) (both (e, f) z) j = ground (
  arith,
  slots-AreDistinct atts slots (suc k) is z j,
  count_later atts slots slot.index (suc k) (omega arith) is z,
)

insert_first :
    (slot : Slot) (atts : List FunderAttestation) (slots : List Slot) (k : ℕ)
    → slot.index < k
    → IsIndexed k atts
    → Zipped Reports atts slots
    → insert_slot slot slots ≡ slot ∷ slots
unfolding insert_slot
insert_first slot [] [] k h i done = refl
insert_first slot [] (other ∷ slots) k h i z = elim z [ ]
insert_first slot (att ∷ atts) [] k h i z = elim z [ ]
insert_first slot (att ∷ atts) (other ∷ slots) k h (i, is) (both (e, f) z) = ground arith

sort_slots-sorted :
    (atts : List FunderAttestation) (slots : List Slot) (k : ℕ)
    → IsIndexed k atts
    → Zipped Reports atts slots
    → sort_slots slots ≡ slots
unfolding sort_slots
sort_slots-sorted [] [] k i done = refl
sort_slots-sorted [] (slot ∷ slots) k i z = elim z [ ]
sort_slots-sorted (att ∷ atts) [] k i z = elim z [ ]
sort_slots-sorted (att ∷ atts) (slot ∷ slots) k (i, is) (both (e, f) z) =
    ap (insert_slot slot) (sort_slots-sorted atts slots (suc k) is z)
    ∙ insert_first slot atts slots (suc k) (omega arith) is z

wallets_of_slots :
    (atts : List FunderAttestation) (slots : List Slot)
    → Zipped Reports atts slots
    → map (λ (step : FundStep). step.wallet) (map (λ (slot : Slot). slot.step) slots)
      ≡ map (λ (att : FunderAttestation). att.wallet) atts
wallets_of_slots [] [] done = refl
wallets_of_slots [] (slot ∷ slots) z = elim z [ ]
wallets_of_slots (att ∷ atts) [] z = elim z [ ]
wallets_of_slots (att ∷ atts) (slot ∷ slots) (both (e, f) z) = cc (f, wallets_of_slots atts slots z)

module _ (outside : Outside) where
  committed_step-IsRunOf :
      (job : FundJob) (tx : Text) (answer : Result Text Execution)
      → IsRunOf job (committed_step outside job tx answer)
  unfolding committed_step
  committed_step-IsRunOf job tx (err message) = (refl, refl)
  committed_step-IsRunOf job tx (ok (not_executed e)) = (refl, refl)
  committed_step-IsRunOf job tx (ok (executed commit_tx)) = (refl, refl)

  run_job-IsRunOf :
      (at : ℕ) (job : FundJob) (approval : Execution)
      → IsRunOf job (run_job outside at job approval)
  unfolding run_job
  run_job-IsRunOf at job (not_executed e) = (refl, refl)
  run_job-IsRunOf at job (executed tx) =
      committed_step-IsRunOf job tx (outside.execute at (commit_call job))

  run_jobs-IsRunOf :
      (at : ℕ) (jobs : List FundJob) (approvals : List Execution)
      → approve_each outside at jobs ≡ ok approvals
      → Zipped IsRunOf jobs (run_jobs outside at jobs approvals)
  unfolding approve_each run_jobs
  run_jobs-IsRunOf at [] approvals h = done
  run_jobs-IsRunOf at (job ∷ jobs) approvals h =
      let (approval, p, h₁) =
        >>=-eq-ok (outside.execute at (approve job.wallet_id job.amount)) _ h in
      let (rest, q, h₂) = >>=-eq-ok (approve_each outside (suc at) jobs) _ h₁ in
      rw (← ok-injective h₂)
        (both (run_job-IsRunOf at job approval) (run_jobs-IsRunOf (suc at) jobs rest q))

-- What the first phase plans for the configured wallets.
abbrev pub planned : (Text → ℕ → Allocation) → Option RoundView → Funders → List Text → Plan
planned allocate opening funders ids = plan_round allocate opening (attest_all funders 0 ids)

-- The response has one step for each configured wallet, in the order of the seeds, and it is the same
-- in whatever order the jobs of the third phase finish.
pub report-ordered :
    (outside : Outside) (allocate : Text → ℕ → Allocation) (opening : Option RoundView)
    (funders : Funders) (ids : List Text) (approvals : List Execution) (pushed : List Slot)
    → approve_each outside 0 (planned allocate opening funders ids).jobs ≡ ok approvals
    → Permᴰ (run_jobs outside 0 (planned allocate opening funders ids).jobs approvals) pushed
    → (map (λ (step : FundStep). step.wallet) (report (planned allocate opening funders ids) pushed)
        ≡ map (λ (att : FunderAttestation). att.wallet) (attest_all funders 0 ids))
      × (report (planned allocate opening funders ids) pushed
          ≡ report
              (planned allocate opening funders ids)
              (run_jobs outside 0 (planned allocate opening funders ids).jobs approvals))
unfolding report
report-ordered outside allocate opening funders ids approvals pushed h finished =
    let atts = attest_all funders 0 ids in
    let indexed = attest_all-IsIndexed funders 0 ids in
    let plan = plan_round allocate opening atts in
    let ran = run_jobs outside 0 plan.jobs approvals in
    let (slots, p, reports) =
      plan_round-Covers allocate opening atts ran
        (run_jobs-IsRunOf outside 0 plan.jobs approvals h) in
    let distinct = slots-AreDistinct atts slots 0 indexed reports in
    let sorted = sort_slots-sorted atts slots 0 indexed reports in
    let same = sym (sort_slots-perm (symm p) distinct) ∙ sorted in
    let reordered = trans (append_left plan.slots (symm finished)) p in
    let same_pushed = sym (sort_slots-perm (symm reordered) distinct) ∙ sorted in
    (
      ap (λ l. map (λ step. step.wallet) (map (λ slot. slot.step) l)) same_pushed
          ∙ wallets_of_slots atts slots reports,
      ap (map (λ slot. slot.step)) (same_pushed ∙ sym same),
    )
