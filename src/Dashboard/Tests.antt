-- ===== src/Dashboard/Tests.antt =====
-- A chain that first limits the rate, an app without a subgraph, and a pool of two rounds.
use coalition.Base.{
  ℕ, zero, suc, ◌+◌, ◌-◌, ◌≤◌, ◌≡◌, refl, true, false, Option, none, some, List, [], ◌∷◌, arith,
  take, Text, text, ltb, ◌==◌, if◌then◌else◌, to_lower_case, includes, text_eq, Result, ok, err,
}
use coalition.Base.Decimal.{to_string}
use mathlib.Core.List.{reverse}
use coalition.Blocks.{logs_of}
use coalition.Json.{rejected}
use coalition.Pool.{PoolState}
use coalition.Dashboard.{Sources, limited, read_chain_round_id, read_pool_state}
use coalition.Dashboard.Attempts.{settles, hangs, with_timeout, is_rate_limit, retry_from, retry}
use coalition.Dashboard.Retries.{sum, Stops, retry-Stops}
use coalition.Dashboard.Reads.{Shows, read_pool_state-Shows}
use coalition.Dashboard.History.{read_round_history}
use coalition.Dashboard.History.Rounds.{readable_rounds, read_round_history-take}
use coalition.Dashboard.Activity.{
  PoolLog, ActivityEvent, ActivityClient, get_activity_chunk, event_of_args, events_of, committed,
  settled, leg_key, is_tagged, put_leg, merge_legs, read_activity,
}
use coalition.Dashboard.Activity.Scan.{Serves, read_activity-logs_of}
use coalition.Dashboard.Activity.Legs.{has_key, has_tagged, AreUnique, merge_legs_lem}

abbrev limited_rate : Text
limited_rate = text "HTTP 429"

-- The first attempt is over the limit and the second answers.
abbrev second_time : {A : Type 0} → A → ℕ → Result Text A
second_time a zero = err limited_rate
second_time a (suc attempt) = ok a

abbrev sevens : ℕ → Result Text ℕ
sevens = second_time 7

retry-Stops_example :
    Stops {A = ℕ} is_rate_limit sevens 3 0 (retry is_rate_limit sevens)
    × (sum (retry is_rate_limit sevens).waits ≤ 10_500)
retry-Stops_example = retry-Stops {A = ℕ} is_rate_limit sevens

one_pause : retry is_rate_limit sevens ≡ record { outcome = ok 7; waits = 1500 ∷ [] }
unfolding retry retry_from is_rate_limit includes to_lower_case text text_eq
one_pause = refl

abbrev pool_seen : PoolState
pool_seen = record {
  target = 10_000_000;
  total_committed = 2_500_000;
  settled = false;
  expired = false;
  participant_count = 1;
}

-- Round 1 cannot be read, and round 2 can.
abbrev sources : Sources
sources = record {
  subgraph_endpoint = none;
  subgraph_api_key = none;
  pool = text "0x01";
  fetch = λ request. rejected;
  message = λ e. text "refused";
  in_time = λ label. true;
  pool_state = λ attempt. settles (second_time pool_seen attempt);
  current_round_id = λ attempt. settles (ok 2);
  round_state = λ round_id attempt.
      if round_id == 2
      then settles (ok (record { state = pool_seen; round_id = 2; deadline = 99 }))
      else settles (err (text "execution reverted"));
  committed = λ round_id wallet. hangs;
}

read_pool_state-Shows_example : Shows sources (read_pool_state sources)
read_pool_state-Shows_example = read_pool_state-Shows sources

round_id_read :
    limited sources (read_chain_round_id sources) 30_000 (text "chain getCurrentRoundId (history)")
    ≡ ok 2
unfolding read_chain_round_id with_timeout retry retry_from
round_id_read = refl

read_round_history-take_example :
    read_round_history sources 10 ≡ take 10 (readable_rounds sources 2)
read_round_history-take_example = read_round_history-take sources 10 2 round_id_read

-- A commitment's two legs at block 5, and a settlement at block 15,000.
abbrev commit_leg : Option ℕ → PoolLog
commit_leg round_id = record {
  args = committed (text "0xab") 7 round_id;
  block_number = 5;
  transaction_hash = text "0x1";
}

abbrev emitted : ℕ → List PoolLog
emitted block =
    if block == 5
    then commit_leg none ∷ commit_leg (some 2) ∷ []
    else if block == 15_000
    then record { args = settled 7 (some 2); block_number = 15_000; transaction_hash = text "0x2" }
      ∷ []
    else []

abbrev capped : ActivityClient
capped = record {
  get_block_number = settles (ok 25_000);
  get_logs = λ first last attempt.
      if ltb (first + 10_000) last
      then settles (err (text "range too wide"))
      else settles (ok (logs_of emitted first (last + 1 - first)));
}

capped-Serves : Serves capped emitted 25_000
unfolding get_activity_chunk with_timeout retry retry_from
capped-Serves first last h wide high =
    let narrow : ltb (first + 10_000) last ≡ false = ground arith in rw (narrow, get_activity_chunk)

read_activity-logs_of_example :
    read_activity capped 3
    ≡ ok (reverse (merge_legs [] (events_of (logs_of emitted 3 (25_000 + 1 - 3)))))
unfolding with_timeout
read_activity-logs_of_example = read_activity-logs_of capped emitted 25_000 capped-Serves 3 refl

abbrev legs : List ActivityEvent
legs = events_of (commit_leg none ∷ commit_leg (some 2) ∷ [])

abbrev commit_key : Text
commit_key = text "5-0x1-committed"

merge_legs_lem_example :
    AreUnique (merge_legs [] legs)
    × (has_key commit_key (merge_legs [] legs) ≡ has_key commit_key legs)
    × (has_tagged commit_key (merge_legs [] legs) ≡ has_tagged commit_key legs)
merge_legs_lem_example = merge_legs_lem commit_key legs

-- The leg with the round id takes the place of the other.
merged : merge_legs [] legs ≡ events_of (commit_leg (some 2) ∷ [])
unfolding merge_legs put_leg events_of event_of_args leg_key is_tagged text_eq to_string text
merged = refl
