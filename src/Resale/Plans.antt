-- ===== src/Resale/Plans.antt =====
-- Which values `parseFillPlan` lets through, and what the payouts of a plan add up to.
use mathlib.Core.Path.{subst}
use coalition.Base.{
  length, ==_iff, ℕ, ◌<◌, ◌≡◌, ◌↔◌, refl, sym, ap, ◌∙◌, inl, inr, Bool, true, not, Option, none,
  some, List, [], arith, pos, negsuc, Text, ◌==◌, Bool-cases, address_pattern, uint_pattern, ok,
  throw_if, >>=-eq-ok, throw_if-not-eq-ok, ok-injective, map_result, Zipped, Zipped-of_map_result,
  map_result_of_Zipped,
}
use coalition.Base.Decimal.{big_int}
use coalition.Json.{
  Json, null, boolean, number, string, array, object, integer, fractional, Items, nil, cons, get,
  get_from, is_plain_record, to_list,
}
use coalition.Resale.{
  FillPlanOutput, FillPlan, PlanError, nonce_pattern, not_blank, checked, checked_count,
  checked_outputs, positive_amount, parse_output, ascending, sum_of, parse_fill_plan, not_an_object,
  total_malformed, nonce_malformed, round_malformed, headroom_mb_malformed, headroom_cu_malformed,
  output_not_an_object, account_malformed, amount_malformed, not_ascending, sum_differs,
}

checked-eq-ok :
    (test : Text → Bool) (e : PlanError) (value : Option Json) (s : Text)
    → (checked test e value ≡ ok s) ↔ ((value ≡ some (string s)) × (test s ≡ true))
unfolding checked
checked-eq-ok test e (some (string s)) t = elim (Bool-cases (test s)) [
  | inl h ↦ grind (arith, h)
  | inr h ↦ grind (arith, h)
]
checked-eq-ok test e none t = (λ h. cc, λ (p, q). cc)
checked-eq-ok test e (some null) t = (λ h. cc, λ (p, q). cc)
checked-eq-ok test e (some (boolean _)) t = (λ h. cc, λ (p, q). cc)
checked-eq-ok test e (some (number _)) t = (λ h. cc, λ (p, q). cc)
checked-eq-ok test e (some (array _)) t = (λ h. cc, λ (p, q). cc)
checked-eq-ok test e (some (object _)) t = (λ h. cc, λ (p, q). cc)

pub checked_count-eq-ok :
    (e : PlanError) (value : Option Json) (n : ℕ)
    → (checked_count e value ≡ ok n) ↔ (value ≡ some (number (integer (pos n))))
unfolding checked_count
checked_count-eq-ok e (some (number (integer (pos m)))) n = (λ h. cc, λ p. cc)
checked_count-eq-ok e (some (number (integer (negsuc m)))) n = (λ h. cc, λ p. cc)
checked_count-eq-ok e (some (number fractional)) n = (λ h. cc, λ p. cc)
checked_count-eq-ok e none n = (λ h. cc, λ p. cc)
checked_count-eq-ok e (some null) n = (λ h. cc, λ p. cc)
checked_count-eq-ok e (some (boolean _)) n = (λ h. cc, λ p. cc)
checked_count-eq-ok e (some (string _)) n = (λ h. cc, λ p. cc)
checked_count-eq-ok e (some (array _)) n = (λ h. cc, λ p. cc)
checked_count-eq-ok e (some (object _)) n = (λ h. cc, λ p. cc)

-- The entry of an output: its account is an address and its amount a positive numeral.
pub record IsOutput (entry : Json) (output : FillPlanOutput) : Type 0 where
  pub is_object : is_plain_record (some entry) ≡ true
  pub has_account : get "account" entry ≡ some (string output.account)
  pub account_is_address : address_pattern output.account ≡ true
  pub has_amount : get "amountAtomic" entry ≡ some (string output.amount_atomic)
  pub amount_is_positive : positive_amount output.amount_atomic ≡ true

parse_output-IsOutput :
    (entry : Json) (output : FillPlanOutput)
    → parse_output entry ≡ ok output
    → IsOutput entry output
unfolding parse_output
parse_output-IsOutput entry output h =
    let (_, p₁, h₁) =
      >>=-eq-ok (throw_if (not (is_plain_record (some entry))) output_not_an_object) _ h in
    let (account, p₂, h₂) =
      >>=-eq-ok (checked address_pattern account_malformed (get "account" entry)) _ h₁ in
    let (amount, p₃, h₃) =
      >>=-eq-ok (checked positive_amount amount_malformed (get "amountAtomic" entry)) _ h₂ in
    let (a, b) = (checked-eq-ok address_pattern account_malformed _ account).0 p₂ in
    let (c, d) = (checked-eq-ok positive_amount amount_malformed _ amount).0 p₃ in
    let e = ok-injective h₃ in
    record {
      is_object = throw_if-not-eq-ok (is_plain_record (some entry)) output_not_an_object _ p₁;
      has_account = a ∙ ap (λ (o : FillPlanOutput). some (string o.account)) e;
      account_is_address = sym (ap (λ (o : FillPlanOutput). address_pattern o.account) e) ∙ b;
      has_amount = c ∙ ap (λ (o : FillPlanOutput). some (string o.amount_atomic)) e;
      amount_is_positive = sym (ap (λ (o : FillPlanOutput). positive_amount o.amount_atomic) e) ∙ d;
    }

IsOutput-parse_output :
    (entry : Json) (output : FillPlanOutput)
    → IsOutput entry output
    → parse_output entry ≡ ok output
unfolding parse_output
IsOutput-parse_output entry output h = rw (
  h.is_object,
  (checked-eq-ok address_pattern account_malformed _ output.account).1
      (h.has_account, h.account_is_address),
  (checked-eq-ok positive_amount amount_malformed _ output.amount_atomic).1
      (h.has_amount, h.amount_is_positive),
)

checked_outputs-eq-ok :
    (value : Option Json) (raw : List Json)
    → checked_outputs value ≡ ok raw
    → (items : Items) × (value ≡ some (array items)) × (to_list items ≡ raw) × (0 < length raw)
unfolding checked_outputs to_list
checked_outputs-eq-ok (some (array (cons x xs))) raw h =
    let e = ok-injective h in (cons x xs, refl, e, subst (λ l. 0 < length l) e (omega arith))
checked_outputs-eq-ok (some (array nil)) raw h = cc
checked_outputs-eq-ok none raw h = cc
checked_outputs-eq-ok (some null) raw h = cc
checked_outputs-eq-ok (some (boolean _)) raw h = cc
checked_outputs-eq-ok (some (number _)) raw h = cc
checked_outputs-eq-ok (some (string _)) raw h = cc
checked_outputs-eq-ok (some (object _)) raw h = cc

items_of : Option Json → List Json
items_of (some (array items)) = to_list items
items_of _ = []

checked_outputs_of :
    (value : Option Json) (items : Items)
    → value ≡ some (array items)
    → 0 < length (to_list items)
    → checked_outputs value ≡ ok (to_list items)
unfolding checked_outputs to_list items_of
checked_outputs_of (some (array (cons x xs))) items e h = cc e
checked_outputs_of (some (array nil)) items e h = ground (arith, ap (λ v. length (items_of v)) e, h)
checked_outputs_of none items e h = cc
checked_outputs_of (some null) items e h = cc
checked_outputs_of (some (boolean _)) items e h = cc
checked_outputs_of (some (number _)) items e h = cc
checked_outputs_of (some (string _)) items e h = cc
checked_outputs_of (some (object _)) items e h = cc

-- A value that is the plan, field by field: the outputs one by one, ascending by account, and adding
-- up to the total.
pub record IsFillPlan (value : Option Json) (plan : FillPlan) : Type 0 where
  pub is_object : is_plain_record value ≡ true
  pub entries : Items
  pub has_outputs : get_from "outputs" value ≡ some (array entries)
  pub some_outputs : 0 < length (to_list entries)
  pub has_total : get_from "totalAtomic" value ≡ some (string plan.total_atomic)
  pub total_is_uint : uint_pattern plan.total_atomic ≡ true
  pub has_nonce : get_from "nonce" value ≡ some (string plan.nonce)
  pub nonce_is_hex : nonce_pattern plan.nonce ≡ true
  pub has_round : get_from "roundId" value ≡ some (string plan.round_id)
  pub round_is_not_blank : not_blank plan.round_id ≡ true
  pub has_headroom_mb : get_from "headroomMB" value ≡ some (number (integer (pos plan.headroom_mb)))
  pub has_headroom_cu :
      get_from "headroomCUMicro" value ≡ some (number (integer (pos plan.headroom_cu_micro)))
  pub outputs_agree : Zipped IsOutput (to_list entries) plan.outputs
  pub are_ascending : ascending plan.outputs ≡ true
  pub adds_up : sum_of plan.outputs ≡ big_int plan.total_atomic

parse_fill_plan_sound :
    (value : Option Json) (plan : FillPlan)
    → parse_fill_plan value ≡ ok plan
    → IsFillPlan value plan
unfolding parse_fill_plan
parse_fill_plan_sound value plan h =
    let (_, p₁, h₁) = >>=-eq-ok (throw_if (not (is_plain_record value)) not_an_object) _ h in
    let (raw, p₂, h₂) = >>=-eq-ok (checked_outputs (get_from "outputs" value)) _ h₁ in
    let (total, p₃, h₃) =
      >>=-eq-ok (checked uint_pattern total_malformed (get_from "totalAtomic" value)) _ h₂ in
    let (nonce, p₄, h₄) =
      >>=-eq-ok (checked nonce_pattern nonce_malformed (get_from "nonce" value)) _ h₃ in
    let (round, p₅, h₅) =
      >>=-eq-ok (checked not_blank round_malformed (get_from "roundId" value)) _ h₄ in
    let (mb, p₆, h₆) =
      >>=-eq-ok (checked_count headroom_mb_malformed (get_from "headroomMB" value)) _ h₅ in
    let (cu, p₇, h₇) =
      >>=-eq-ok (checked_count headroom_cu_malformed (get_from "headroomCUMicro" value)) _ h₆ in
    let (outputs, p₈, h₈) = >>=-eq-ok (map_result parse_output raw) _ h₇ in
    let (_, p₉, h₉) = >>=-eq-ok (throw_if (not (ascending outputs)) not_ascending) _ h₈ in
    let (_, q, final) =
      >>=-eq-ok (throw_if (not (sum_of outputs == big_int total)) sum_differs) _ h₉ in
    let (items, i₁, i₂, i₃) = checked_outputs-eq-ok _ raw p₂ in
    let (t₁, t₂) = (checked-eq-ok uint_pattern total_malformed _ total).0 p₃ in
    let (n₁, n₂) = (checked-eq-ok nonce_pattern nonce_malformed _ nonce).0 p₄ in
    let (r₁, r₂) = (checked-eq-ok not_blank round_malformed _ round).0 p₅ in
    let parsed : IsFillPlan value (record {
      outputs = outputs;
      total_atomic = total;
      nonce = nonce;
      round_id = round;
      headroom_mb = mb;
      headroom_cu_micro = cu;
    }) =
      record {
        is_object = throw_if-not-eq-ok (is_plain_record value) not_an_object _ p₁;
        entries = items;
        has_outputs = i₁;
        some_outputs = subst (λ l. 0 < length l) (sym i₂) i₃;
        has_total = t₁;
        total_is_uint = t₂;
        has_nonce = n₁;
        nonce_is_hex = n₂;
        has_round = r₁;
        round_is_not_blank = r₂;
        has_headroom_mb = (checked_count-eq-ok headroom_mb_malformed _ mb).0 p₆;
        has_headroom_cu = (checked_count-eq-ok headroom_cu_malformed _ cu).0 p₇;
        outputs_agree =
            subst (λ l. Zipped IsOutput l outputs) (sym i₂)
              (Zipped-of_map_result parse_output IsOutput parse_output-IsOutput raw outputs p₈);
        are_ascending = throw_if-not-eq-ok (ascending outputs) not_ascending _ p₉;
        adds_up =
            (==_iff _ _).0 (throw_if-not-eq-ok (sum_of outputs == big_int total) sum_differs _ q);
      } in
    subst (IsFillPlan value) (ok-injective final) parsed

parse_fill_plan_complete :
    (value : Option Json) (plan : FillPlan)
    → IsFillPlan value plan
    → parse_fill_plan value ≡ ok plan
unfolding parse_fill_plan
parse_fill_plan_complete value plan h =
    let sums = (==_iff (sum_of plan.outputs) (big_int plan.total_atomic)).1 h.adds_up in
    rw (
      h.is_object,
      checked_outputs_of _ h.entries h.has_outputs h.some_outputs,
      (checked-eq-ok uint_pattern total_malformed _ plan.total_atomic).1
          (h.has_total, h.total_is_uint),
      (checked-eq-ok nonce_pattern nonce_malformed _ plan.nonce).1 (h.has_nonce, h.nonce_is_hex),
      (checked-eq-ok not_blank round_malformed _ plan.round_id).1
          (h.has_round, h.round_is_not_blank),
      (checked_count-eq-ok headroom_mb_malformed _ plan.headroom_mb).1 h.has_headroom_mb,
      (checked_count-eq-ok headroom_cu_malformed _ plan.headroom_cu_micro).1 h.has_headroom_cu,
      map_result_of_Zipped parse_output IsOutput IsOutput-parse_output (to_list h.entries)
          plan.outputs h.outputs_agree,
      h.are_ascending,
      sums,
    )

-- `parseFillPlan` returns a plan exactly if the value is an object that holds that plan field by
-- field: at least one output, each with an address and a positive amount, strictly ascending from
-- neighbour to neighbour by account; a total that the amounts add up to; a nonce of 64 hexadecimal digits, a round
-- that is not blank, and two headrooms that are integers and not negative.
pub parse_fill_plan-IsFillPlan :
    (value : Option Json) (plan : FillPlan)
    → (parse_fill_plan value ≡ ok plan) ↔ IsFillPlan value plan
parse_fill_plan-IsFillPlan value plan =
    (parse_fill_plan_sound value plan, parse_fill_plan_complete value plan)
