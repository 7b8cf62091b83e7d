-- ===== src/Resale/AutoRun.antt =====
-- app/app/api/agents/resale-run/route.ts: the autonomous purchase. A run gives its response and the calls
-- that change something, in order. What the orchestrator, the subgraph and the buyer's services answer
-- is a parameter, and so is what JavaScript makes of a fractional number.
pub mod Keys
pub mod Allowed
mod Tests
use Prim.Native.Nat.{bit_or, bit_xor}
use coalition.Base.{
  ℕ, Bool, true, false, not, ◌||◌, Option, none, some, List, [], ◌∷◌, ◌++◌, pos, Text, text,
  is_empty, ◌==◌, if◌then◌else◌, length, Result, ok, err,
}
use coalition.Base.Decimal.{to_string}
use coalition.Json.{
  Json, null, boolean, number, string, Number, integer, Fetched, rejected, response, get_from,
  is_plain_record, is_ok_status,
}
use coalition.Graph.{GraphError, GraphRequest, PoolHealth, create_graph_client, get_pool_health}
use coalition.Resale.{FillPlan, FillPlanWant, PlanError, EncodingError, parse_fill_plan}
use coalition.Resale.Decision.{
  Action, buy, skip, ResaleBuyWant, ResaleCapacityHeadroom, ResaleHealthCounts, ResaleDecision,
  decide_resale_buy,
}
use coalition.Resale.Execute.{
  Environment, Effect, Services, BuyError, resale_buy_error, encoding_error, ResaleBuyError,
  ResaleBuyResult, Run, execute_resale_buy,
}

-- The two variables that hold a key.
pub record RunKeys : Type 0 where
  pub resale_run_key : Option Text
  pub orchestrator_app_key : Option Text

abbrev pub not_blank_key : Option Text → Option Text
not_blank_key none = none
not_blank_key (some key) = if is_empty key then none else some key

-- `runKey`
unfoldable pub run_key : RunKeys → Option Text
run_key keys = elim keys.resale_run_key [
  | some key ↦ not_blank_key (some key)
  | none ↦ not_blank_key keys.orchestrator_app_key
]

-- The loop of `keysEqual`, with `diff` so far.
unfoldable pub diff_of : ℕ → Text → Text → ℕ
diff_of diff (a ∷ s) (b ∷ t) = diff_of (bit_or diff (bit_xor a b)) s t
diff_of diff _ _ = diff

unfoldable pub keys_equal : Text → Text → Bool
keys_equal a b = if not (length a == length b) then false else diff_of 0 a b == 0

-- A request: its header, and its body where it parses.
pub record RunRequest : Type 0 where
  pub key : Option Text
  pub body : Option Json

-- `micro_of` gives `Math.round(cu * 1e6)` of a number that is finite and not negative. `fill_plan` is
-- given what is wanted, where no `cu` stands for the default, and `message` is an error's text.
pub record AutoServices : Type 0 where
  pub keys : RunKeys
  pub micro_of : Number → Option ℕ
  pub capacity : Fetched
  pub subgraph_endpoint : Option Text
  pub subgraph_api_key : Option Text
  pub pool : Text
  pub fetch : GraphRequest → Fetched
  pub message : GraphError → Text
  pub fill_plan : ℕ → Option Json → Fetched
  pub environment : Environment
  pub services : Services
  pub buyer : Text

pub data RunFailure : Type 0 where
  unauthorized invalid_json malformed_want : RunFailure
  fill_unreachable bad_plan : RunFailure
  fill_refused : ℕ → Text → RunFailure
  buy_failed : ResaleBuyError → RunFailure
  buy_threw : EncodingError → RunFailure

pub data RunAnswer : Type 0 where
  failed : ℕ → RunFailure → RunAnswer
  only_decided : ResaleDecision → RunAnswer
  bought : ResaleDecision → FillPlan → ResaleBuyResult → RunAnswer

pub record AutoRun : Type 0 where
  pub answer : RunAnswer
  pub effects : List Effect

abbrev pub quiet : RunAnswer → AutoRun
quiet answer = record { answer = answer; effects = [] }

-- `body[key]`, before `??`
abbrev pub body_value : Option Json → Option Json
body_value none = none
body_value (some null) = none
body_value (some value) = some value

-- `DEFAULT_MEM` and `DEFAULT_CU`
abbrev pub mem_of : Option Json → Option ℕ
mem_of none = some 200
mem_of (some (number (integer (pos n)))) = some n
mem_of (some value) = none

abbrev pub cu_micro_of : (Number → Option ℕ) → Option Json → Option ℕ
cu_micro_of micro_of none = some 50_000
cu_micro_of micro_of (some (number n)) = micro_of n
cu_micro_of micro_of (some value) = none

abbrev pub dry_run_of : Option Json → Option Bool
dry_run_of none = some true
dry_run_of (some (boolean b)) = some b
dry_run_of (some value) = none

-- What the body asks for.
pub record Asked : Type 0 where
  pub mem : ℕ
  pub cu : Option Json
  pub cu_micro : ℕ
  pub dry_run : Bool

abbrev pub all_given : Option Json → Option ℕ → Option ℕ → Option Bool → Option Asked
all_given cu (some mem) (some cu_micro) (some dry_run) =
    some (record { mem = mem; cu = cu; cu_micro = cu_micro; dry_run = dry_run })
all_given cu _ _ _ = none

unfoldable pub asked_of : (Number → Option ℕ) → Option Json → Option Asked
asked_of micro_of body =
    let cu = body_value (get_from "cu" body) in
    all_given cu (mem_of (body_value (get_from "mem" body))) (cu_micro_of micro_of cu)
      (dry_run_of (body_value (get_from "dryRun" body)))

abbrev pub natural_of : Option Json → Option ℕ
natural_of (some (number (integer (pos n)))) = some n
natural_of _ = none

abbrev pub both_of : Option ℕ → Option ℕ → Option ResaleCapacityHeadroom
both_of (some mb) (some cu) = some (record { headroom_mb = mb; headroom_cu_micro = cu })
both_of _ _ = none

-- `capacity`, which is left out where the read or its shape fails.
unfoldable pub capacity_of : Fetched → Option ResaleCapacityHeadroom
capacity_of rejected = none
capacity_of (response status payload) =
    let headroom = get_from "headroom" payload in
    let read =
      both_of (natural_of (get_from "headroomMB" headroom))
        (natural_of (get_from "headroomCUMicro" headroom)) in
    if not (is_ok_status status)
    then none
    else if not (is_plain_record payload) || not (is_plain_record headroom)
    then none
    else read

abbrev pub counts_of : PoolHealth → ResaleHealthCounts
counts_of health = record {
  settled = health.settled;
  participant_count = health.participant_count;
  forfeited_total_atomic = to_string health.forfeited_total;
  dropout_count = health.dropout_count;
}

-- `health` and `subgraphError`
abbrev pub from_health :
    (GraphError → Text) → Result GraphError PoolHealth → Option ResaleHealthCounts × Option Text
from_health message (ok health) = (some (counts_of health), none)
from_health message (err e) = (none, some (message e))

abbrev pub given_api_key : Option Text → Option Text
given_api_key none = none
given_api_key (some key) = if is_empty key then none else some key

module _ (services : AutoServices) where
  -- The reading of the subgraph, where an endpoint is configured.
  unfoldable pub health_of : Option Text → Option ResaleHealthCounts × Option Text
  health_of none = (none, some (text "SUBGRAPH_ENDPOINT is not configured"))
  health_of (some endpoint) =
      elim (create_graph_client (record {
        endpoint = endpoint;
        api_key = given_api_key services.subgraph_api_key;
        timeout_ms = none;
      })) [
        | none ↦ (none, some (text "SUBGRAPH_ENDPOINT is not configured"))
        | some client ↦
            from_health services.message (get_pool_health services.fetch client services.pool)
      ]

  unfoldable pub decision_for : Asked → ResaleDecision
  decision_for asked =
      let (health, subgraph_error) = health_of services.subgraph_endpoint in
      decide_resale_buy (record {
        want = record { mem = asked.mem; cu_micro = asked.cu_micro };
        capacity = capacity_of services.capacity;
        health = health;
        subgraph_error = subgraph_error;
      })

  abbrev pub answer_of_buy : ResaleDecision → FillPlan → Result BuyError ResaleBuyResult → RunAnswer
  answer_of_buy decision plan (ok result) = bought decision plan result
  answer_of_buy decision plan (err (resale_buy_error e)) = failed e.status (buy_failed e)
  answer_of_buy decision plan (err (encoding_error e)) = failed 502 (buy_threw e)

  abbrev pub want_of : Asked → FillPlanWant
  want_of asked = record { mem = asked.mem; cu_micro = asked.cu_micro }

  abbrev pub purchase : Asked → FillPlan → Run
  purchase asked plan =
      execute_resale_buy services.environment services.services services.buyer plan (want_of asked)

  unfoldable pub after_plan : Asked → ResaleDecision → Result PlanError FillPlan → AutoRun
  after_plan asked decision (err e) = quiet (failed 502 bad_plan)
  after_plan asked decision (ok plan) = record {
    answer = answer_of_buy decision plan (purchase asked plan).result;
    effects = (purchase asked plan).effects;
  }

  -- `payload["error"]`, or else the status
  abbrev pub refusal : ℕ → Option Json → Text
  refusal status (some (string detail)) = detail
  refusal status _ = text "fill-plan returned " ++ to_string status

  unfoldable pub after_fill : Asked → ResaleDecision → Fetched → AutoRun
  after_fill asked decision rejected = quiet (failed 502 fill_unreachable)
  after_fill asked decision (response status payload) =
      let detail = refusal status (get_from "error" payload) in
      let planned = after_plan asked decision (parse_fill_plan payload) in
      if not (is_ok_status status)
      then quiet (failed (if status == 400 then 400 else 502) (fill_refused status detail))
      else planned

  abbrev pub is_skip : Action → Bool
  is_skip buy = false
  is_skip skip = true

  unfoldable pub after_asked : Asked → AutoRun
  after_asked asked =
      let decision = decision_for asked in
      let filled = after_fill asked decision (services.fill_plan asked.mem asked.cu) in
      if asked.dry_run || is_skip decision.action then quiet (only_decided decision) else filled

  abbrev pub after_fields : Option Asked → AutoRun
  after_fields none = quiet (failed 400 malformed_want)
  after_fields (some asked) = after_asked asked

  unfoldable pub after_key : Option Json → AutoRun
  after_key body =
      let fields = after_fields (asked_of services.micro_of body) in
      if is_plain_record body then fields else quiet (failed 400 invalid_json)

  abbrev pub presented : RunRequest → Text
  presented request = elim request.key [ none ↦ [] | some key ↦ key ]

  unfoldable pub with_run_key : RunRequest → Option Text → AutoRun
  with_run_key request none = quiet (failed 401 unauthorized)
  with_run_key request (some configured) =
      let keyed = after_key request.body in
      if keys_equal (presented request) configured then keyed else quiet (failed 401 unauthorized)

  -- `POST`
  unfoldable pub resale_run : RunRequest → AutoRun
  resale_run request = with_run_key request (run_key services.keys)
