-- ===== src/Dashboard/Activity.antt =====
-- `readActivity` of app/lib/pool-state.ts: the events of the pool, read in ranges of blocks, and the two
-- legs of an event merged into one.
pub mod Scan
pub mod Legs
use coalition.Blocks.{chunk_end}
use coalition.Base.{
  ℕ, zero, suc, ◌+◌, Bool, true, false, ◌&&◌, Option, none, some, List, [], ◌∷◌, ◌++◌, Text, text,
  text_eq, leb, ◌==◌, if◌then◌else◌, Result, ok, err, ◌>>=◌,
}
use coalition.Base.Decimal.{to_string}
use mathlib.Core.List.{reverse}
use coalition.Dashboard.Attempts.{Timed, with_timeout, is_rate_limit, retry}

-- A parsed log: its arguments, by the event's name, where the overloads of the second version carry a
-- round id.
pub data EventArgs : Type 0 where
  committed : Text → ℕ → Option ℕ → EventArgs
  settled : ℕ → Option ℕ → EventArgs
  round_started : ℕ → ℕ → ℕ → EventArgs
  other_event : EventArgs

pub record PoolLog : Type 0 where
  pub args : EventArgs
  pub block_number : ℕ
  pub transaction_hash : Text

pub data Kind : Type 0 where
  committed_kind : Text → Text → Kind
  settled_kind : Text → Kind
  round_started_kind : Text → Text → Kind

-- `ActivityEvent`
pub record ActivityEvent : Type 0 where
  pub kind : Kind
  pub round_id : Option Text
  pub block_number : Text
  pub tx_hash : Text

pub record ActivityClient : Type 0 where
  pub get_block_number : Timed ℕ
  pub get_logs : ℕ → ℕ → ℕ → Timed (List PoolLog)

-- One range of blocks, with its retries.
unfoldable pub get_activity_chunk : ActivityClient → ℕ → ℕ → Result Text (List PoolLog)
get_activity_chunk client from to =
    (retry is_rate_limit (λ attempt.
      with_timeout (client.get_logs from to attempt) 15_000
        (text "chain getLogs (activity)"))).outcome

abbrev round_text : Option ℕ → Option Text
round_text none = none
round_text (some round_id) = some (to_string round_id)

abbrev event_at : PoolLog → Kind → Option Text → ActivityEvent
event_at log kind round_id = record {
  kind = kind;
  round_id = round_id;
  block_number = to_string log.block_number;
  tx_hash = log.transaction_hash;
}

-- What a log pushes.
unfoldable pub event_of_args : PoolLog → EventArgs → List ActivityEvent
event_of_args log (committed agent amount round_id) =
    event_at log (committed_kind agent (to_string amount)) (round_text round_id) ∷ []
event_of_args log (settled total round_id) =
    event_at log (settled_kind (to_string total)) (round_text round_id) ∷ []
event_of_args log (round_started round_id target deadline) =
    event_at log (round_started_kind (to_string target) (to_string deadline))
      (some (to_string round_id))
    ∷ []
event_of_args log other_event = []

unfoldable pub events_of : List PoolLog → List ActivityEvent
unfolding event_of_args
events_of [] = []
events_of (log ∷ logs) = event_of_args log log.args ++ events_of logs

-- The `for` loop over the cursor; `out_of_fuel` is a loop that was cut off.
unfoldable pub scan_activity :
    ℕ → ActivityClient → ℕ → ℕ → List ActivityEvent → Result Text (List ActivityEvent)
scan_activity zero client latest cursor events = err (text "out of fuel")
scan_activity (suc fuel) client latest cursor events =
    let last = chunk_end cursor latest in
    let chunk = get_activity_chunk client cursor last >>= λ logs.
    let events' = events ++ events_of logs in
    let more = scan_activity fuel client latest (cursor + 10_000 + 1) events' in
    if last == latest then ok events' else more in
    if leb cursor latest then chunk else ok events

abbrev kind_name : Kind → Text
kind_name (committed_kind agent amount) = text "committed"
kind_name (settled_kind total) = text "settled"
kind_name (round_started_kind target deadline) = text "round-started"

-- `${event.blockNumber}-${event.txHash}-${event.kind}`
unfoldable pub leg_key : ActivityEvent → Text
leg_key event = event.block_number ++ b'-' ∷ event.tx_hash ++ b'-' ∷ kind_name event.kind

unfoldable pub is_tagged : ActivityEvent → Bool
is_tagged event = elim event.round_id [ none ↦ false | some round_id ↦ true ]

-- `Map.prototype.set` under the test: a key that is there keeps its place.
unfoldable pub put_leg : ActivityEvent → List ActivityEvent → List ActivityEvent
put_leg event [] = event ∷ []
put_leg event (prev ∷ legs) =
    let kept = if is_tagged prev then prev else if is_tagged event then event else prev in
    if text_eq (leg_key prev) (leg_key event) then kept ∷ legs else prev ∷ put_leg event legs

unfoldable pub merge_legs : List ActivityEvent → List ActivityEvent → List ActivityEvent
merge_legs legs [] = legs
merge_legs legs (event ∷ events) = merge_legs (put_leg event legs) events

-- `deploy_block` is `POOL_DEPLOY_BLOCK`. One round for each block is more than enough.
unfoldable pub read_activity : ActivityClient → ℕ → Result Text (List ActivityEvent)
read_activity client deploy_block =
    with_timeout client.get_block_number 10_000 (text "chain getBlockNumber") >>= λ latest.
    scan_activity (latest + 2) client latest deploy_block [] >>= λ events.
    ok (reverse (merge_legs [] events))
