-- ===== src/Pool.antt =====
-- sdk/src/pool/client.ts: reads and writes of one pool contract. What the contract answers to a read,
-- and what the wallet answers to a write, are parameters; a rejected promise is `none`.
mod Calls
pub mod Reads
pub use Calls.{PoolFunction, ContractWrite}
mod Tests
use coalition.Base.{ℕ, ◌+◌, Bool, Option, none, some, List, [], ◌∷◌, Text, ltb}

-- `PoolState`, `RoundState` and `PoolMetadata`
pub record PoolState : Type 0 where
  pub target : ℕ
  pub total_committed : ℕ
  pub settled : Bool
  pub expired : Bool
  pub participant_count : ℕ

pub record RoundState : Type 0 where
  pub state : PoolState
  pub round_id : ℕ
  pub deadline : ℕ

pub record PoolMetadata : Type 0 where
  pub resource_uri : Text
  pub max_participants : ℕ
  pub feedback_cursor : ℕ

-- The view functions that are read, with their arguments, by the type of their answer.
pub data UintView : Type 0 where
  target total_committed participant_count max_participants feedback_cursor : UintView
  current_round_id : UintView
  participant_count_of : ℕ → UintView
  committed : ℕ → Text → UintView

pub data BoolView : Type 0 where
  settled expired : BoolView
  expired_of : ℕ → BoolView

-- The fields of the tuple `rounds(roundId)` at the positions 0, 1, 3 and 5.
pub record Round : Type 0 where
  pub target : ℕ
  pub deadline : ℕ
  pub total_committed : ℕ
  pub settled : Bool

-- `publicClient.readContract`, at an address
pub record PublicClient : Type 0 where
  pub read_uint : Text → UintView → Option ℕ
  pub read_bool : Text → BoolView → Option Bool
  pub read_resource_uri : Text → Option Text
  pub read_round : Text → ℕ → Option Round

infixl 5 ◌>>=◌
abbrev pub ◌>>=◌ : {A B : Type 0} → Option A → (A → Option B) → Option B
none >>= f = none
some a >>= f = f a

module _ (client : PublicClient) (pool : Text) where
  -- Five reads under `Promise.all`: one rejection rejects them all.
  unfoldable pub get_pool_state : Option PoolState
  get_pool_state = do
    t ← client.read_uint pool target
    c ← client.read_uint pool total_committed
    s ← client.read_bool pool settled
    e ← client.read_bool pool expired
    n ← client.read_uint pool participant_count
    some (record {
      target = t;
      total_committed = c;
      settled = s;
      expired = e;
      participant_count = n;
    })

  unfoldable pub get_round_state : ℕ → Option RoundState
  get_round_state round_id = do
    round ← client.read_round pool round_id
    e ← client.read_bool pool (expired_of round_id)
    n ← client.read_uint pool (participant_count_of round_id)
    some (record {
      state = record {
        target = round.target;
        total_committed = round.total_committed;
        settled = round.settled;
        expired = e;
        participant_count = n;
      };
      round_id = round_id;
      deadline = round.deadline;
    })

  unfoldable pub get_current_round_id : Option ℕ
  get_current_round_id = client.read_uint pool current_round_id

  unfoldable pub get_committed : ℕ → Text → Option ℕ
  get_committed round_id wallet = client.read_uint pool (committed round_id wallet)

  unfoldable pub get_pool_metadata : Option PoolMetadata
  get_pool_metadata = do
    uri ← client.read_resource_uri pool
    m ← client.read_uint pool max_participants
    f ← client.read_uint pool feedback_cursor
    some (record { resource_uri = uri; max_participants = m; feedback_cursor = f })

unfoldable pub would_exceed_target : PoolState → ℕ → Bool
would_exceed_target state amount = ltb state.target (state.total_committed + amount)

-- The overload with a round id takes it as its first argument.
abbrev scoped : Option ℕ → List ℕ → List ℕ
scoped none args = args
scoped (some round_id) args = round_id ∷ args

module _ (write_contract : ContractWrite → Option Text) (account pool : Text) where
  write : PoolFunction → List ℕ → Option Text
  write function_name args =
      write_contract
        (record { address = pool; function_name = function_name; args = args; account = account })

  unfoldable pub commit_to_pool : ℕ → Option ℕ → Option Text
  unfolding write
  commit_to_pool amount round_id = write PoolFunction.commit (scoped round_id (amount ∷ []))

  unfoldable pub drop_out : ℕ → Option ℕ → Option Text
  unfolding write
  drop_out agent_id round_id = write PoolFunction.drop_out (scoped round_id (agent_id ∷ []))

  unfoldable pub finalize_expired : Option ℕ → Option Text
  unfolding write
  finalize_expired round_id = write PoolFunction.finalize_expired (scoped round_id [])

  unfoldable pub claim_refund : Option ℕ → Option Text
  unfolding write
  claim_refund round_id = write PoolFunction.claim_refund (scoped round_id [])

  unfoldable pub settle_pool : Option ℕ → Option Text
  unfolding write
  settle_pool round_id = write PoolFunction.settle (scoped round_id [])

  unfoldable pub record_completions : ℕ → Option ℕ → Option Text
  unfolding write
  record_completions max_records round_id =
      write PoolFunction.record_completions (scoped round_id (max_records ∷ []))

  unfoldable pub start_round : ℕ → ℕ → ℕ → Option Text
  unfolding write
  start_round target_amount duration_sec cap =
      write PoolFunction.start_round (target_amount ∷ duration_sec ∷ cap ∷ [])
