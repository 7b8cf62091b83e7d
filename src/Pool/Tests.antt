-- ===== src/Pool/Tests.antt =====
-- A pool whose contract answers every read, and one whose `expired` is rejected.
use coalition.Base.{ℕ, ◌≡◌, refl, Bool, true, false, Option, none, some, Text, text}
use coalition.Pool.{
  PoolState, RoundState, UintView, BoolView, PublicClient, get_pool_state, would_exceed_target,
  participant_count, expired, commit_to_pool,
}

abbrev pool : Text
pool = text "0xpool"

abbrev read_uint : Text → UintView → Option ℕ
read_uint address participant_count = some 2
read_uint address view = some 10_000_000

abbrev answering : PublicClient
answering = record {
  read_uint = read_uint;
  read_bool = λ address view. some false;
  read_resource_uri = λ address. some (text "ipfs://terms");
  read_round = λ address round_id. some (record {
    target = 10_000_000;
    deadline = 1_900_000_000;
    total_committed = 4;
    settled = false;
  });
}

abbrev read_bool : Text → BoolView → Option Bool
read_bool address expired = none
read_bool address view = some false

abbrev rejecting : PublicClient
rejecting = record answering { read_bool = read_bool }

abbrev state : PoolState
state = record {
  target = 10_000_000;
  total_committed = 10_000_000;
  settled = false;
  expired = false;
  participant_count = 2;
}

abbrev round : RoundState
round = record {
  state = record state { total_committed = 4; participant_count = 10_000_000 };
  round_id = 3;
  deadline = 1_900_000_000;
}

read : get_pool_state answering pool ≡ some state
unfolding get_pool_state
read = refl

rejected : get_pool_state rejecting pool ≡ none
unfolding get_pool_state
rejected = refl

exceeds : would_exceed_target state 1 ≡ true
unfolding would_exceed_target
exceeds = refl

-- The overload of `commit` with a round id takes it first.
committed_to_round :
    commit_to_pool (λ call. some (text "0x1")) (text "0xwallet") pool 5 (some 3) ≡ some (text "0x1")
unfolding commit_to_pool
committed_to_round = refl
