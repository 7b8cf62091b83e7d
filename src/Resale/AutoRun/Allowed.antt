-- ===== src/Resale/AutoRun/Allowed.antt =====
-- When an autonomous run makes a call that changes something.
use mathlib.Core.Path.{subst}
use coalition.Base.{
  arith, ℕ, ◌≡◌, ◌≢◌, refl, sym, ap, ◌∙◌, inl, inr, Bool, true, false, not, ◌||◌, Option, none,
  some, [], Text, if◌then◌else◌, Result-cases,
}
use coalition.Json.{Json, Fetched, rejected, response, is_plain_record, is_ok_status}
use coalition.Resale.{FillPlan, parse_fill_plan}
use coalition.Resale.Plans.{IsFillPlan, parse_fill_plan-IsFillPlan}
use coalition.Resale.Decision.{
  Action, buy, skip, ResaleHealthCounts, ResaleDecision, IsSound, Fits, decide_resale_buy-buys,
}
use coalition.Resale.AutoRun.{
  RunRequest, RunAnswer, AutoServices, AutoRun, quiet, Asked, run_key, keys_equal, asked_of,
  capacity_of, health_of, decision_for, purchase, after_plan, after_fill, is_skip, after_asked,
  after_fields, after_key, presented, with_run_key, resale_run,
}
use coalition.Resale.AutoRun.Keys.{keys_equal_lem}

-- A run that makes a call has passed a guard that makes none.
passes :
    (guard : Bool) (answer : RunAnswer) (rest : AutoRun)
    → (if guard then quiet answer else rest).effects ≢ []
    → (guard ≡ false) × ((if guard then quiet answer else rest) ≡ rest)
passes true answer rest h = absurd (h refl)
passes false answer rest h = (refl, refl)

keeps :
    (guard : Bool) (answer : RunAnswer) (rest : AutoRun)
    → (if guard then rest else quiet answer).effects ≢ []
    → (guard ≡ true) × ((if guard then rest else quiet answer) ≡ rest)
keeps true answer rest h = (refl, refl)
keeps false answer rest h = absurd (h refl)

not-false : (b : Bool) → not b ≡ false → b ≡ true
not-false b h = ground arith

or_false : (a b : Bool) → (a || b) ≡ false → (a ≡ false) × (b ≡ false)
or_false a b h = ground arith

module _ (services : AutoServices) where
  -- The orchestrator answered with a fill plan, and the calls are those of its purchase.
  abbrev pub IsPurchase : Asked → AutoRun → Type 0
  IsPurchase asked run =
      (status : ℕ) × (payload : Option Json) × (plan : FillPlan) × (services.fill_plan asked.mem
          asked.cu
        ≡ response status payload)
      × (is_ok_status status ≡ true)
      × IsFillPlan payload plan
      × (run.effects ≡ (purchase services asked plan).effects)

  -- The subgraph's counts are there and sound, and what is asked for fits the headroom that is known.
  abbrev pub IsWarranted : Asked → Type 0
  IsWarranted asked =
      (counts : ResaleHealthCounts) × ((health_of services services.subgraph_endpoint).0
        ≡ some counts)
      × IsSound counts
      × Fits (record { mem = asked.mem; cu_micro = asked.cu_micro }) (capacity_of services.capacity)

  abbrev pub IsAllowed : RunRequest → AutoRun → Type 0
  IsAllowed request run =
      (key : Text) × (asked : Asked) × (run_key services.keys ≡ some key)
      × (presented services request ≡ key)
      × (is_plain_record request.body ≡ true)
      × (asked_of services.micro_of request.body ≡ some asked)
      × (asked.dry_run ≡ false)
      × IsWarranted asked
      × IsPurchase asked run

  after_fill-IsPurchase :
      (asked : Asked) (decision : ResaleDecision) (fetched : Fetched)
      → services.fill_plan asked.mem asked.cu ≡ fetched
      → (after_fill services asked decision fetched).effects ≢ []
      → IsPurchase asked (after_fill services asked decision fetched)
  unfolding after_fill after_plan
  after_fill-IsPurchase asked decision rejected e h = absurd (h refl)
  after_fill-IsPurchase asked decision (response status payload) e h =
      let (refused, same) =
        passes (not (is_ok_status status)) _
          (after_plan services asked decision (parse_fill_plan payload)) h in
      elim (Result-cases (parse_fill_plan payload)) [
        | inr (e', bad) ↦
            absurd (h (ap (λ r. r.effects) (same ∙ ap (after_plan services asked decision) bad)))
        | inl (plan, good) ↦ (
          status,
          payload,
          plan,
          e,
          not-false (is_ok_status status) refused,
          (parse_fill_plan-IsFillPlan payload plan).0 good,
          ap (λ r. r.effects) (same ∙ ap (after_plan services asked decision) good),
        )
      ]

  is_buy : (action : Action) → is_skip services action ≡ false → action ≡ buy
  is_buy buy h = refl
  is_buy skip h = cc

  decision_for-IsWarranted :
      (asked : Asked) → (decision_for services asked).action ≡ buy → IsWarranted asked
  unfolding decision_for
  decision_for-IsWarranted asked h =
      (decide_resale_buy-buys (record {
        want = record { mem = asked.mem; cu_micro = asked.cu_micro };
        capacity = capacity_of services.capacity;
        health = (health_of services services.subgraph_endpoint).0;
        subgraph_error = (health_of services services.subgraph_endpoint).1;
      })).0
        h

  abbrev IsAsked : Asked → AutoRun → Type 0
  IsAsked asked run = (asked.dry_run ≡ false) × IsWarranted asked × IsPurchase asked run

  after_asked-IsAsked :
      (asked : Asked)
      → (after_asked services asked).effects ≢ []
      → IsAsked asked (after_asked services asked)
  unfolding after_asked
  after_asked-IsAsked asked h =
      let decision = decision_for services asked in
      let filled = after_fill services asked decision (services.fill_plan asked.mem asked.cu) in
      let (live, same) = passes (asked.dry_run || is_skip services decision.action) _ filled h in
      let (wet, buys) = or_false asked.dry_run (is_skip services decision.action) live in
      let bought =
        after_fill-IsPurchase asked decision (services.fill_plan asked.mem asked.cu) refl
          (subst (λ r. r.effects ≢ []) same h) in
      (
        wet,
        decision_for-IsWarranted asked (is_buy decision.action buys),
        subst (IsPurchase asked) (sym same) bought,
      )

  after_fields-IsAsked :
      (fields : Option Asked)
      → (after_fields services fields).effects ≢ []
      → (asked : Asked) × (fields ≡ some asked) × IsAsked asked (after_fields services fields)
  after_fields-IsAsked none h = absurd (h refl)
  after_fields-IsAsked (some asked) h = (asked, refl, after_asked-IsAsked asked h)

  with_run_key-IsAllowed :
      (request : RunRequest) (configured : Option Text)
      → run_key services.keys ≡ configured
      → (with_run_key services request configured).effects ≢ []
      → IsAllowed request (with_run_key services request configured)
  unfolding with_run_key after_key
  with_run_key-IsAllowed request none e h = absurd (h refl)
  with_run_key-IsAllowed request (some key) e h =
      let fields = after_fields services (asked_of services.micro_of request.body) in
      let (known, same) =
        keeps (keys_equal (presented services request) key) _ (after_key services request.body) h in
      let (plain, same') =
        keeps (is_plain_record request.body) _ fields (subst (λ r. r.effects ≢ []) same h) in
      let all_same = same ∙ same' in
      let (asked, found, (wet, warranted, bought)) =
        after_fields-IsAsked (asked_of services.micro_of request.body)
          (subst (λ r. r.effects ≢ []) all_same h) in
      (
        key,
        asked,
        e,
        (keys_equal_lem (presented services request) key).0 known,
        plain,
        found,
        wet,
        warranted,
        subst (IsPurchase asked) (sym all_same) bought,
      )

  -- A run that makes any call that changes something was presented the configured key, was asked for more
  -- than a dry run, found the subgraph's counts of an open and reliable pool and room for what is
  -- wanted where the capacity is known, and was answered with a fill plan; its calls are those of the
  -- purchase of that plan and no other.
  pub resale_run-IsAllowed :
      (request : RunRequest)
      → (resale_run services request).effects ≢ []
      → IsAllowed request (resale_run services request)
  unfolding resale_run
  resale_run-IsAllowed request h = with_run_key-IsAllowed request (run_key services.keys) refl h
