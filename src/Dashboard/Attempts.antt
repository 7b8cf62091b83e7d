-- ===== src/Dashboard/Attempts.antt =====
-- app/lib/pool-state.ts: the time limits and the retries around a read. How a promise ends is a
-- parameter: it settles in time, or it hangs past its limit.
use coalition.Base.{
  ℕ, zero, suc, ◌*◌, ◌^◌, Bool, ◌||◌, List, [], ◌∷◌, ◌++◌, Text, text, to_lower_case, includes,
  if◌then◌else◌, Result, ok, err,
}
use coalition.Base.Decimal.{to_string}

pub data Timed (A : Type 0) : Type 0 where
  settles : Result Text A → Timed A
  hangs : Timed A

-- `withTimeout`; an error is its message.
unfoldable pub with_timeout : {A : Type 0} → Timed A → ℕ → Text → Result Text A
with_timeout (settles result) ms label = result
with_timeout hangs ms label = err (label ++ text " timed out after " ++ to_string ms ++ text "ms")

-- `/rate limit|exceeds defined limit|too many requests|429/i`
unfoldable pub is_rate_limit : Text → Bool
is_rate_limit message =
    let lower = to_lower_case message in
    includes (text "rate limit") lower
    || includes (text "exceeds defined limit") lower
    || includes (text "too many requests") lower
    || includes (text "429") lower

-- `/timed out after|timeout|fetch failed|network|ECONN/i`, or a rate limit
unfoldable pub is_retryable : Text → Bool
is_retryable message =
    let lower = to_lower_case message in
    is_rate_limit message
    || includes (text "timed out after") lower
    || includes (text "timeout") lower
    || includes (text "fetch failed") lower
    || includes (text "network") lower
    || includes (text "econn") lower

-- What came of the attempts, and the pauses between them in milliseconds.
pub record Retried (A : Type 0) : Type 0 where
  pub outcome : Result Text A
  pub waits : List ℕ

-- The `for (;;)` of the chain reads, from the attempt on; `left` is `3 - attempt`. `again` is the test
-- of the error, and `answer` gives how each attempt ends.
unfoldable pub retry_from : {A : Type 0} → (Text → Bool) → (ℕ → Result Text A) → ℕ → ℕ → Retried A
retry_from again answer zero attempt = record { outcome = answer attempt; waits = [] }
retry_from again answer (suc left) attempt =
    let more = retry_from again answer left (suc attempt) in
    elim (answer attempt) [
      | ok a ↦ record { outcome = ok a; waits = [] }
      | err e ↦
          if again e
          then record more { waits = 1500 * 2 ^ attempt ∷ more.waits }
          else record { outcome = err e; waits = [] }
    ]

unfoldable pub retry : {A : Type 0} → (Text → Bool) → (ℕ → Result Text A) → Retried A
retry again answer = retry_from again answer 3 0
