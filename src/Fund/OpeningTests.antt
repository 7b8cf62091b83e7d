-- ===== src/Fund/OpeningTests.antt =====
-- A chain whose reads succeed, and one that cannot be read.
use coalition.Base.{
  ℕ, ◌+◌, ◌≤◌, ◌≡◌, refl, inl, true, false, none, some, List, [], ◌∷◌, arith, Text, text, text_eq,
  to_lower_case, includes, ok, err,
}
use coalition.Json.{rejected}
use coalition.Pool.{RoundState}
use coalition.Dashboard.{
  Sources, target_atomic, read_chain_state, read_chain_round_id, read_chain_round_state,
  read_chain_round, graph_client,
}
use coalition.Dashboard.Attempts.{
  settles, with_timeout, is_rate_limit, is_retryable, retry_from, retry,
}
use coalition.Dashboard.Reads.{HasNoFill, chain_answer}
use coalition.Fund.{
  Allocation, Funders, attest_all, attest_funder, lookup_ens, looked_at, is_attested,
}
use coalition.Fund.Planning.{total_amount, count_attested}
use coalition.Fund.Opening.{plan_opening}
use coalition.Fund.Opening.Unread.{plan_opening-within, plan_opening_unread}

abbrev funders : Funders
funders = record {
  ens_name_of = λ index. some (text "agent.agentpool.eth");
  get_wallet_address = λ id. some (text "0xab");
  resolve_arc_wallet = λ name. ok (some (text "0xAB"));
}

abbrev ids : List Text
ids = text "1" ∷ text "2" ∷ text "3" ∷ text "4" ∷ []

abbrev allocate : Text → ℕ → Allocation
allocate wallet index = record { succeeded = true; error = none }

abbrev round_seen : RoundState
round_seen = record {
  state = record {
    target = 10_000_000;
    total_committed = 9_000_000;
    settled = false;
    expired = false;
    participant_count = 2;
  };
  round_id = 4;
  deadline = 99;
}

abbrev readable : Sources
readable = record {
  subgraph_endpoint = none;
  subgraph_api_key = none;
  pool = text "0x01";
  fetch = λ request. rejected;
  message = λ e. text "refused";
  in_time = λ label. true;
  pool_state = λ attempt. settles (ok round_seen.state);
  current_round_id = λ attempt. settles (ok 4);
  round_state = λ round_id attempt. settles (ok round_seen);
  committed = λ round_id wallet. settles (ok 0);
}

round_read : read_chain_round readable ≡ ok (4, round_seen)
unfolding read_chain_round read_chain_round_id read_chain_round_state with_timeout retry retry_from
round_read = refl

plan_opening-within_example :
    9_000_000 + total_amount (plan_opening readable allocate (attest_all funders 0 ids)).jobs
    ≤ 10_000_000
plan_opening-within_example =
    plan_opening-within readable allocate funders ids 4 round_seen round_read (omega arith)

abbrev down : Text
down = text "execution reverted"

abbrev unreadable : Sources
unreadable = record readable {
  pool_state = λ attempt. settles (err down);
  current_round_id = λ attempt. settles (err down);
}

round_unread : read_chain_round unreadable ≡ err down
unfolding read_chain_round read_chain_round_id with_timeout retry retry_from is_retryable
    is_rate_limit includes to_lower_case text text_eq
round_unread = refl

pool_unread : chain_answer unreadable ≡ err down
unfolding read_chain_state with_timeout retry retry_from is_retryable is_rate_limit includes
    to_lower_case text text_eq
pool_unread = refl

no_fill : HasNoFill unreadable
unfolding graph_client
no_fill = inl refl

four_attested : count_attested (attest_all funders 0 ids) ≡ 4
unfolding count_attested attest_all attest_funder lookup_ens looked_at is_attested text text_eq
    to_lower_case
four_attested = refl

plan_opening_unread_example :
    total_amount (plan_opening unreadable allocate (attest_all funders 0 ids)).jobs ≡ target_atomic
plan_opening_unread_example =
    plan_opening_unread unreadable allocate funders ids down down round_unread no_fill pool_unread
      (omega (arith, four_attested))
