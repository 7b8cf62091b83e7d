-- ===== src/Fund/Tests.antt =====
-- Two funders, of which the second is backed by its name up to case, and a round short of its target.
use mathlib.Core.List.Permᴰ.{Permᴰ, nil, cons, swap}
use mathlib.Core.List.{map}
use coalition.Base.{
  ℕ, zero, suc, ◌+◌, ◌*◌, ◌≤◌, ◌≡◌, refl, true, false, Option, none, some, List, [], ◌∷◌, arith,
  Text, text, text_eq, to_lower_case, if◌then◌else◌, Result, ok, err,
}
use coalition.Circle.{Execution, executed}
use coalition.Fund.{
  Funders, Allocation, FundStep, Slot, FundJob, FunderAttestation, Plan, RoundView, plan_round,
  attest_all, attest_funder, lookup_ens, looked_at, is_attested, plan_wallets, fill_amount,
  attested_left_from, open_remainder, is_closed, share_atomic,
}
use coalition.Fund.Planning.{total_amount, count_attested, plan_round-within, plan_round-completes}
use coalition.Fund.Execute.{Outside, approve_each, run_jobs, report}
use coalition.Fund.Report.{planned, report-ordered}

abbrev seed_name : ℕ → Option Text
seed_name zero = some (text "agent1.agentpool.eth")
seed_name (suc zero) = some (text "agent2.agentpool.eth")
seed_name _ = none

abbrev resolve : Text → Result Text (Option Text)
resolve name =
    if text_eq name (text "agent2.agentpool.eth")
    then ok (some (text "0xAB"))
    else err (text "timeout")

abbrev two_funders : Funders
two_funders = record {
  ens_name_of = seed_name;
  get_wallet_address = λ _. some (text "0xab");
  resolve_arc_wallet = resolve;
}

abbrev wallet_ids : List Text
wallet_ids = text "first" ∷ text "second" ∷ []

abbrev open_view : RoundView
open_view = record {
  round_id = text "3";
  target = 10_000_000;
  total_committed = 9_000_001;
  settled = false;
  expired = false;
}

abbrev refused : Text → ℕ → Allocation
refused wallet index = record { succeeded = false; error = none }

plan_round-within_example :
    open_view.total_committed
      + total_amount
          (plan_round refused (some open_view) (attest_all two_funders 0 wallet_ids)).jobs
    ≤ (if is_closed open_view then open_view.total_committed else open_view.target)
plan_round-within_example = plan_round-within refused open_view two_funders wallet_ids (omega arith)

one_attested : count_attested (attest_all two_funders 0 wallet_ids) ≡ 1
unfolding count_attested attest_all attest_funder lookup_ens looked_at is_attested text text_eq
    to_lower_case
one_attested = refl

remainder_fits :
    open_remainder open_view ≤ share_atomic * count_attested (attest_all two_funders 0 wallet_ids)
unfolding open_remainder
remainder_fits = omega (arith, one_attested)

plan_round-completes_example :
    total_amount (plan_round refused (some open_view) (attest_all two_funders 0 wallet_ids)).jobs
    ≡ open_remainder open_view
plan_round-completes_example =
    plan_round-completes refused open_view two_funders wallet_ids refl remainder_fits

-- The first funder's lookup times out, and the second pays the rest.
amounts :
    total_amount (plan_round refused (some open_view) (attest_all two_funders 0 wallet_ids)).jobs
    ≡ 999_999
unfolding total_amount plan_round plan_wallets fill_amount attested_left_from open_remainder
    attest_all attest_funder lookup_ens looked_at is_attested text text_eq to_lower_case
amounts = refl

abbrev both_backed : Funders
both_backed = record two_funders { resolve_arc_wallet = λ _. ok (some (text "0xaB")) }

abbrev circle : Outside
circle = record {
  execute = λ at call. ok (executed (text "0x1"));
  allocate_with_retry = λ wallet index. record { succeeded = true; error = none };
}

abbrev approved : List Execution
approved = executed (text "0x1") ∷ executed (text "0x1") ∷ []

abbrev two_jobs : Plan
two_jobs = planned refused (some open_view) both_backed wallet_ids

both_approved : approve_each circle 0 two_jobs.jobs ≡ ok approved
unfolding approve_each plan_round plan_wallets fill_amount attested_left_from open_remainder
    attest_all attest_funder lookup_ens looked_at is_attested text text_eq to_lower_case
both_approved = refl

-- The second job finishes first.
abbrev swapped : List Slot → List Slot
swapped (a ∷ b ∷ slots) = b ∷ a ∷ slots
swapped slots = slots

swapped_perm : (slots : List Slot) → Permᴰ slots (swapped slots)
swapped_perm [] = nil
swapped_perm (a ∷ []) = cons refl nil
swapped_perm (a ∷ b ∷ slots) = swap refl refl

abbrev finished : List Slot
finished = swapped (run_jobs circle 0 two_jobs.jobs approved)

report-ordered_example :
    (map (λ (step : FundStep). step.wallet) (report two_jobs finished)
      ≡ map (λ (att : FunderAttestation). att.wallet) (attest_all both_backed 0 wallet_ids))
    × (report two_jobs finished ≡ report two_jobs (run_jobs circle 0 two_jobs.jobs approved))
report-ordered_example =
    report-ordered circle refused (some open_view) both_backed wallet_ids approved finished
      both_approved (swapped_perm (run_jobs circle 0 two_jobs.jobs approved))

abbrev first_job : FundJob
first_job = record {
  wallet_id = text "first";
  wallet = text "0xab";
  index = 0;
  round_id = text "3";
  amount = 499_999;
  attestation = attest_funder both_backed 0 (text "first");
}
