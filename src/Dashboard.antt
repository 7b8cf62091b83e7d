-- ===== src/Dashboard.antt =====
-- app/lib/pool-state.ts: what the dashboard and the routes read of the pool and of its rounds. What the
-- chain and the subgraph answer at each attempt is a parameter; `Graph` queries the subgraph.
pub mod Attempts
pub mod Retries
pub mod Reads
pub mod History
pub mod Activity
mod Tests
use coalition.Base.{
  ℕ, zero, suc, ◌+◌, ◌-◌, Bool, true, false, not, Option, none, some, List, [], ◌∷◌, ◌++◌, map,
  Text, text, is_empty, join, ltb, if◌then◌else◌, length, Result, ok, err, ◌>>=◌,
}
use coalition.Base.Decimal.{to_string}
use coalition.Json.{Fetched}
use coalition.Graph.{
  GraphError, GraphClient, GraphRequest, PoolFill, create_graph_client, get_pool_fill,
  get_commitments, get_dropouts,
}
use coalition.Graph as Graph
use coalition.Pool.{PoolState, RoundState}
use coalition.Dashboard.Attempts.{Timed, settles, hangs, with_timeout, is_retryable, retry}

-- `PoolStateView` and `RoundView` of app/lib/types.ts
pub record PoolStateView : Type 0 where
  pub target : Text
  pub total_committed : Text
  pub settled : Bool
  pub expired : Bool
  pub participant_count : Text

pub record RoundView : Type 0 where
  pub round_id : Text
  pub target : Text
  pub total_committed : Text
  pub settled : Bool
  pub expired : Bool
  pub deadline : Text
  pub participant_count : Text

pub data PoolSource : Type 0 where
  subgraph chain fallback : PoolSource

pub data RoundSource : Type 0 where
  chain legacy : RoundSource

pub record PoolReadout : Type 0 where
  pub view : PoolStateView
  pub source : PoolSource
  pub note : Option Text

pub record RoundReadout : Type 0 where
  pub view : RoundView
  pub source : RoundSource
  pub note : Option Text

-- The variables of the environment, and what the outside answers. A read that is raced against an
-- outer limit is known by its label; `in_time` says whether it wins. `message` is the text of an error
-- of the subgraph client.
pub record Sources : Type 0 where
  pub subgraph_endpoint : Option Text
  pub subgraph_api_key : Option Text
  pub pool : Text
  pub fetch : GraphRequest → Fetched
  pub message : GraphError → Text
  pub in_time : Text → Bool
  pub pool_state : ℕ → Timed PoolState
  pub current_round_id : ℕ → Timed ℕ
  pub round_state : ℕ → ℕ → Timed RoundState
  pub committed : ℕ → Text → Timed ℕ

-- `TARGET_ATOMIC`
abbrev pub target_atomic : ℕ
target_atomic = 10_000_000

-- `ZERO_VIEW`
abbrev pub zero_view : PoolStateView
zero_view = record {
  target = to_string target_atomic;
  total_committed = text "0";
  settled = false;
  expired = false;
  participant_count = text "0";
}

abbrev pub view_of : PoolState → PoolStateView
view_of state = record {
  target = to_string state.target;
  total_committed = to_string state.total_committed;
  settled = state.settled;
  expired = state.expired;
  participant_count = to_string state.participant_count;
}

abbrev pub to_round_view : ℕ → RoundState → RoundView
to_round_view round_id view = record {
  round_id = to_string round_id;
  target = to_string view.state.target;
  total_committed = to_string view.state.total_committed;
  settled = view.state.settled;
  expired = view.state.expired;
  deadline = to_string view.deadline;
  participant_count = to_string view.state.participant_count;
}

-- The pool's view as that of round 0.
abbrev pub legacy_view : PoolStateView → RoundView
legacy_view view = record {
  round_id = text "0";
  target = view.target;
  total_committed = view.total_committed;
  settled = view.settled;
  expired = view.expired;
  deadline = text "0";
  participant_count = view.participant_count;
}

-- `notes.length === 0 ? {} : { note: notes.join("; ") }`
abbrev pub note_of : List Text → Option Text
note_of [] = none
note_of (n ∷ notes) = some (join (text "; ") (n ∷ notes))

-- `apiKey === undefined || apiKey === "" ? {} : { apiKey }`
abbrev given_key : Option Text → Option Text
given_key none = none
given_key (some key) = if is_empty key then none else some key

module _ (sources : Sources) where
  -- `withTimeout` around a whole read.
  abbrev pub limited : {A : Type 0} → Result Text A → ℕ → Text → Result Text A
  limited result ms label =
      with_timeout (if sources.in_time label then settles result else hangs) ms label

  unfoldable pub read_chain_state : Result Text PoolState
  read_chain_state =
      (retry is_retryable (λ attempt.
        with_timeout (sources.pool_state attempt) 10_000 (text "chain getPoolState"))).outcome

  unfoldable pub read_chain_round_id : Result Text ℕ
  read_chain_round_id =
      (retry is_retryable (λ attempt.
        with_timeout (sources.current_round_id attempt) 10_000
          (text "chain getCurrentRoundId"))).outcome

  unfoldable pub read_chain_round_state : ℕ → Result Text RoundState
  read_chain_round_state round_id =
      (retry is_retryable (λ attempt.
        with_timeout (sources.round_state round_id attempt) 10_000
          (text "chain getRoundState"))).outcome

  -- The client of the subgraph, where an endpoint is configured.
  unfoldable pub graph_client : Option GraphClient
  graph_client = elim sources.subgraph_endpoint [
    | none ↦ none
    | some endpoint ↦ create_graph_client (record {
      endpoint = endpoint;
      api_key = given_key sources.subgraph_api_key;
      timeout_ms = none;
    })
  ]

  abbrev pub messaged : {A : Type 0} → Result GraphError A → Result Text A
  messaged (ok a) = ok a
  messaged (err e) = err (sources.message e)

  unfoldable pub subgraph_fill : GraphClient → Result Text PoolFill
  subgraph_fill client =
      limited (messaged (get_pool_fill sources.fetch client sources.pool)) 10_000
        (text "subgraph getPoolFill")

  -- The `expired` flag, which only the chain knows, and a note where it cannot be read.
  expired_flag : Result Text PoolState → Bool × List Text
  expired_flag (ok state) = (state.expired, [])
  expired_flag (err e) = (false, (text "chain expired-flag read failed: " ++ e) ∷ [])

  unfoldable pub from_fill : PoolFill → PoolReadout
  unfolding expired_flag
  from_fill fill =
      let (expired, notes) =
        expired_flag (limited read_chain_state 30_000 (text "chain getPoolState (expired flag)")) in
      record {
        view = record {
          target = to_string fill.target;
          total_committed = to_string fill.total_committed;
          settled = fill.settled;
          expired = expired;
          participant_count = to_string fill.participant_count;
        };
        source = PoolSource.subgraph;
        note = note_of notes;
      }

  -- What follows the subgraph, with the notes so far.
  unfoldable pub from_chain : List Text → Result Text PoolState → PoolReadout
  from_chain notes (ok state) = record {
    view = view_of state;
    source = PoolSource.chain;
    note = note_of notes;
  }
  from_chain notes (err e) = record {
    view = zero_view;
    source = PoolSource.fallback;
    note = note_of (notes ++ (text "chain read failed: " ++ e) ∷ []);
  }

  unfoldable pub chain_readout : List Text → PoolReadout
  chain_readout notes =
      from_chain notes (limited read_chain_state 30_000 (text "chain getPoolState"))

  unfoldable pub after_subgraph : Result Text PoolFill → PoolReadout
  after_subgraph (ok fill) = from_fill fill
  after_subgraph (err e) = chain_readout ((text "subgraph read failed: " ++ e) ∷ [])

  -- The subgraph's readout, where a client is configured.
  unfoldable pub with_client : Option GraphClient → PoolReadout
  with_client none = chain_readout []
  with_client (some client) = after_subgraph (subgraph_fill client)

  unfoldable pub read_pool_state : PoolReadout
  read_pool_state = with_client graph_client

  -- The two reads of the round, one after the other.
  unfoldable pub read_chain_round : Result Text (ℕ × RoundState)
  read_chain_round =
      limited read_chain_round_id 30_000 (text "chain getCurrentRoundId") >>= λ round_id.
      limited (read_chain_round_state round_id) 30_000 (text "chain getRoundState") >>= λ state.
      ok (round_id, state)

  abbrev legacy_note : Text → Option Text → List Text
  legacy_note note none = note ∷ []
  legacy_note note (some other) = note ∷ other ∷ []

  unfoldable pub after_round : Result Text (ℕ × RoundState) → RoundReadout
  after_round (ok (round_id, state)) = record {
    view = to_round_view round_id state;
    source = RoundSource.chain;
    note = none;
  }
  after_round (err e) = record {
    view = legacy_view read_pool_state.view;
    source = RoundSource.legacy;
    note = note_of (legacy_note (text "round read failed: " ++ e) read_pool_state.note);
  }

  -- `readPoolState` never throws, so that the zeroed round of the source is out of reach.
  unfoldable pub read_current_round : RoundReadout
  read_current_round = after_round read_chain_round

  unfoldable pub read_committed : ℕ → Text → Option ℕ
  read_committed round_id wallet =
      elim (with_timeout (sources.committed round_id wallet) 10_000 (text "chain getCommitted")) [
        | ok amount ↦ some amount
        | err e ↦ none
      ]
