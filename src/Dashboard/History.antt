-- ===== src/Dashboard/History.antt =====
-- `readRoundHistory` and `readRoster` of app/lib/pool-state.ts.
pub mod Rounds
use coalition.Base.{
  ℕ, zero, suc, ◌+◌, Bool, true, false, Option, none, some, List, [], ◌∷◌, ◌++◌, map, length, Text,
  text, is_empty, ltb, if◌then◌else◌, Result, ok, err, ◌>>=◌,
}
use coalition.Base.Decimal.{to_string}
use coalition.Graph.{GraphClient, Commitment, Dropout, get_commitments, get_dropouts}
use coalition.Pool.{RoundState}
use coalition.Dashboard.{
  Sources, RoundView, to_round_view, limited, messaged, graph_client, read_chain_round_id,
  read_chain_round_state,
}

-- `ROUND_HISTORY_LIMIT`, the default limit
abbrev pub round_history_limit : ℕ
round_history_limit = 10

module _ (sources : Sources) where
  -- One round of the history.
  unfoldable pub read_round : ℕ → Result Text RoundState
  read_round round_id =
      limited sources (read_chain_round_state sources round_id) 15_000
        (text "chain getRoundState(" ++ to_string round_id ++ text ")")

  -- The `for` loop from the round id down.
  unfoldable pub walk_back : ℕ → ℕ → List RoundView → List RoundView
  walk_back limit zero history = history
  walk_back limit (suc n) history =
      let skipped = walk_back limit n history in
      let pushed =
        λ (state : RoundState). walk_back limit n (history ++ to_round_view (suc n) state ∷ []) in
      let next : List RoundView = elim (read_round (suc n)) [
        | ok state ↦ pushed state
        | err e ↦ skipped
      ] in
      if ltb (length history) limit then next else history

  unfoldable pub history_from : ℕ → Result Text ℕ → List RoundView
  history_from limit (err e) = []
  history_from limit (ok current) = walk_back limit current []

  unfoldable pub read_round_history : ℕ → List RoundView
  read_round_history limit = history_from limit (
      limited sources (read_chain_round_id sources) 30_000
        (text "chain getCurrentRoundId (history)"))

-- `CommitmentView` and `DropoutView`
pub record CommitmentView : Type 0 where
  pub wallet : Text
  pub amount_atomic : Text
  pub block_number : Text

pub record DropoutView : Type 0 where
  pub wallet : Text
  pub forfeited_atomic : Text

pub record RosterReadout : Type 0 where
  pub commitments : List CommitmentView
  pub dropouts : List DropoutView

abbrev pub commitment_view : Commitment → CommitmentView
commitment_view entry = record {
  wallet = entry.wallet;
  amount_atomic = to_string entry.amount;
  block_number = to_string entry.block_number;
}

abbrev pub dropout_view : Dropout → DropoutView
dropout_view entry = record { wallet = entry.wallet; forfeited_atomic = to_string entry.forfeited }

abbrev roster_error : {A : Type 0} → Result Text A → Result Text A
roster_error (ok a) = ok a
roster_error (err e) = err (text "subgraph roster unavailable: " ++ e)

module _ (sources : Sources) where
  -- Both queries; where both fail, the first stands for the one that is rejected first.
  unfoldable pub roster_of : GraphClient → Result Text RosterReadout
  roster_of client =
      messaged sources (get_commitments sources.fetch client sources.pool none) >>= λ commitments.
      messaged sources (get_dropouts sources.fetch client sources.pool) >>= λ dropouts. ok (record {
        commitments = map commitment_view commitments;
        dropouts = map dropout_view dropouts;
      })

  unfoldable pub roster_with : Option GraphClient → Result Text RosterReadout
  roster_with none = err (text "subgraph roster unavailable: SUBGRAPH_ENDPOINT is not configured")
  roster_with (some client) =
      roster_error (limited sources (roster_of client) 10_000 (text "subgraph roster"))

  unfoldable pub read_roster : Result Text RosterReadout
  read_roster = roster_with (graph_client sources)
