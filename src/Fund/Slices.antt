-- ===== src/Fund/Slices.antt =====
-- `allocateSlice` and `allocateWithRetry` of app/app/api/agents/fund/route.ts: the slice of a funder at
-- the orchestrator, asked for again while the orchestrator's view of the round lags. What the
-- orchestrator answers, and how long it takes, are parameters.
pub mod Patience
use coalition.Base.{
  ℕ, zero, suc, ◌+◌, ◌-◌, Bool, true, false, not, ◌&&◌, ◌||◌, Option, none, some, [], ◌++◌, Text,
  text, to_lower_case, includes, ltb, leb, if◌then◌else◌, Result, ok, err,
}
use coalition.Base.Decimal.{to_string}
use coalition.Json.{Json, string, get_from, is_ok_status}
use coalition.Fund.{Allocation}

abbrev pub string_in : Option Json → Option Text
string_in (some (string s)) = some s
string_in _ = none

abbrev pub first_of : Option Text → Option Text → Text
first_of (some s) other = text ": " ++ s
first_of none (some s) = text ": " ++ s
first_of none none = []

-- `detail`: the `error` or else the `message` of the body.
unfoldable pub detail_of : Option Json → Text
detail_of body = first_of (string_in (get_from "error" body)) (string_in (get_from "message" body))

-- `allocateSlice`, on what `fetch` comes to: an error, or a status and a body where it parses.
unfoldable pub allocate_slice : Result Text (ℕ × Option Json) → Allocation
allocate_slice (err message) = record { succeeded = false; error = some message }
allocate_slice (ok (status, body)) =
    if is_ok_status status then record { succeeded = true; error = none } else record {
      succeeded = false;
      error = some (text "orchestrator returned " ++ to_string status ++ detail_of body);
    }

unfoldable pub is_round_lag_error : Option Text → Bool
is_round_lag_error none = false
is_round_lag_error (some e) =
    let lower = to_lower_case e in
    includes (text "409") lower || includes (text "round") lower || includes (text "settled") lower

unfoldable pub is_terminal_settle_denial : Option Text → Bool
is_terminal_settle_denial none = false
is_terminal_settle_denial (some e) =
    let lower = to_lower_case e in
    includes (text "allocations are final") lower
    || includes (text "pool_settled") lower
    || includes (text "pool settled") lower && includes (text "final") lower

-- What an attempt's `fetch` comes to, and the milliseconds from the end of the pause before it to its
-- answer.
pub record Attempt : Type 0 where
  pub reply : Result Text (ℕ × Option Json)
  pub took : ℕ

abbrev pub min_of : ℕ → ℕ → ℕ
min_of a b = if ltb a b then a else b

-- The `for (;;)` from the attempt number `n` on; `now` is the time since it began.
unfoldable pub allocate_from : ℕ → Bool → (ℕ → Attempt) → ℕ → ℕ → Allocation
allocate_from zero just_funded attempts n now = record {
  succeeded = false;
  error = some (text "out of fuel");
}
allocate_from (suc fuel) just_funded attempts n now =
    let last = allocate_slice (attempts n).reply in
    let terminal = is_terminal_settle_denial last.error in
    let answered = now + (attempts n).took in
    let more =
      allocate_from fuel just_funded attempts (suc n) (answered + min_of 400 (12_000 - answered)) in
    if last.succeeded
    then last
    else if terminal && not just_funded
    then last
    else if not terminal && not (is_round_lag_error last.error)
    then last
    else if leb 12_000 answered
    then last
    else more

-- 31 is the fuel of the loop.
unfoldable pub allocate_with_retry : Bool → (ℕ → Attempt) → Allocation
allocate_with_retry just_funded attempts = allocate_from 31 just_funded attempts 0 0
