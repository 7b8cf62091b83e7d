-- ===== src/Circle.antt =====
-- app/lib/circle-fund.ts: Circle's credentials, and a contract execution that is submitted and polled to
-- a terminal state. What Circle answers, and how long each answer takes, are parameters.
pub mod Polls
pub mod Success
mod Tests
use coalition.Base.{
  ℕ, zero, suc, ◌+◌, Bool, true, false, ◌||◌, Option, none, some, List, [], ◌∷◌, ◌++◌, map, Text,
  text, text_eq, is_empty, join, split, trim, ltb, if◌then◌else◌, Result, ok, err,
}

-- The three variables of `process.env` that `readCircleEnv` reads.
pub record Variables : Type 0 where
  pub api_key : Option Text
  pub entity_secret : Option Text
  pub wallet_ids : Option Text

pub data CircleEnv : Type 0 where
  circle_env : Text → Text → List Text → CircleEnv
  missing_env : Text → CircleEnv

-- `CIRCLE_SETUP_HINT`
abbrev pub circle_setup_hint : Text
circle_setup_hint =
    text
      "Set CIRCLE_API_KEY, CIRCLE_ENTITY_SECRET, CIRCLE_WALLET_IDS: create an API key at console.circle.com/api-keys, register the entity secret once, create ARC-TESTNET wallets, fund via https://faucet.circle.com."

-- `?? ""`
abbrev pub or_empty : Option Text → Text
or_empty none = []
or_empty (some value) = value

-- `filter((entry) => entry !== "")`
unfoldable pub not_empty : List Text → List Text
not_empty [] = []
not_empty (entry ∷ entries) =
    if is_empty entry then not_empty entries else entry ∷ not_empty entries

abbrev pub wallet_ids_of : Text → List Text
wallet_ids_of raw = not_empty (map trim (split b',' raw))

abbrev pub missing_if : Bool → Text → List Text
missing_if missing name = if missing then name ∷ [] else []

abbrev pub has_none : List Text → Bool
has_none [] = true
has_none (id ∷ ids) = false

-- The names of the variables that are missing, in the order in which they are pushed.
unfoldable pub missing_names : Variables → List Text
missing_names variables =
    missing_if (is_empty (or_empty variables.api_key)) (text "CIRCLE_API_KEY")
    ++ missing_if (is_empty (or_empty variables.entity_secret)) (text "CIRCLE_ENTITY_SECRET")
    ++ missing_if (has_none (wallet_ids_of (or_empty variables.wallet_ids)))
        (text "CIRCLE_WALLET_IDS")

unfoldable pub read_circle_env : Variables → CircleEnv
read_circle_env variables =
    let missing = missing_names variables in
    if has_none missing
    then circle_env (or_empty variables.api_key) (or_empty variables.entity_secret)
        (wallet_ids_of (or_empty variables.wallet_ids))
    else missing_env (text "Missing " ++ join (text ", ") missing ++ text ". " ++ circle_setup_hint)

-- `getWalletAddress`, on what `getWallet` answers: an error, or the address where there is one.
unfoldable pub get_wallet_address : Result Text (Option Text) → Option Text
get_wallet_address (err e) = none
get_wallet_address (ok none) = none
get_wallet_address (ok (some address)) = if is_empty address then none else some address

-- `ContractExecutionResult`
pub data Execution : Type 0 where
  executed : Text → Execution
  not_executed : Text → Execution

-- What the poll reads of a transaction; each field may be missing.
pub record Transaction : Type 0 where
  pub state : Option Text
  pub tx_hash : Option Text

-- What one `getTransaction` comes to, how many milliseconds it takes, the delay of the timer that
-- follows included, and the jitter that is added to the interval.
pub record Poll : Type 0 where
  pub answer : Result Text (Option Transaction)
  pub took : ℕ
  pub jitter : ℕ

-- `SUCCESS_STATES` and `FAILURE_STATES`
unfoldable pub is_success_state : Text → Bool
is_success_state state = text_eq state (text "CONFIRMED") || text_eq state (text "COMPLETE")

unfoldable pub is_failure_state : Text → Bool
is_failure_state state =
    text_eq state (text "FAILED")
    || text_eq state (text "DENIED")
    || text_eq state (text "CANCELLED")
    || text_eq state (text "STUCK")

abbrev pub or_unknown : Option Text → Text
or_unknown none = text "UNKNOWN"
or_unknown (some state) = state

-- `transaction?.state ?? "UNKNOWN"` and `transaction?.txHash`
abbrev pub state_of : Option Transaction → Text
state_of none = text "UNKNOWN"
state_of (some transaction) = or_unknown transaction.state

abbrev pub hash_of : Option Transaction → Option Text
hash_of none = none
hash_of (some transaction) = transaction.tx_hash

-- `lastState` after a poll
abbrev pub last_state_of : Result Text (Option Transaction) → Text
last_state_of (ok transaction) = state_of transaction
last_state_of (err e) = text "poll error: " ++ e

abbrev pub without_hash : Text → Text → Execution
without_hash id state =
    not_executed
      (text "Circle transaction " ++ id ++ text " reached " ++ state ++ text " without a tx hash")

unfoldable pub with_hash : Text → Text → Option Text → Execution
with_hash id state none = without_hash id state
with_hash id state (some tx_hash) =
    if is_empty tx_hash then without_hash id state else executed tx_hash

-- What a poll returns, where it ends the loop.
unfoldable pub verdict : Text → Result Text (Option Transaction) → Option Execution
verdict id (err e) = none
verdict id (ok transaction) =
    let state = state_of transaction in
    if is_success_state state
    then some (with_hash id state (hash_of transaction))
    else if is_failure_state state
    then some (not_executed (text "Circle transaction " ++ id ++ text " ended in state " ++ state))
    else none

abbrev pub timed_out : Text → Text → Execution
timed_out id last = not_executed (
    text "Circle transaction "
    ++ id
    ++ text " timed out after 120s (last state: "
    ++ last
    ++ text ")")

-- The `while` loop from the poll number `n` on; `now` is the time since it began. `polls` tells what
-- each poll comes to.
unfoldable pub poll_from : ℕ → Text → (ℕ → Poll) → ℕ → ℕ → Text → Execution
poll_from zero id polls n now last = not_executed (text "out of fuel")
poll_from (suc fuel) id polls n now last =
    let poll = polls n in
    let rest =
      poll_from fuel id polls (suc n) (now + poll.took + 500 + poll.jitter)
        (last_state_of poll.answer) in
    let polled : Execution = elim (verdict id poll.answer) [ some result ↦ result | none ↦ rest ] in
    if ltb now 120_000 then polled else timed_out id last

-- `executeContractAndWait`, on what the submission answers: an error, or the transaction's id where
-- there is one. 241 is the fuel of the loop.
unfoldable pub execute_contract_and_wait : Result Text (Option Text) → (Text → ℕ → Poll) → Execution
execute_contract_and_wait (err e) polls =
    not_executed (text "Circle contract execution failed: " ++ e)
execute_contract_and_wait (ok none) polls =
    not_executed (text "Circle contract execution returned no transaction id")
execute_contract_and_wait (ok (some id)) polls =
    let result = poll_from 241 id (polls id) 0 0 (text "UNKNOWN") in
    if is_empty id
    then not_executed (text "Circle contract execution returned no transaction id")
    else result
