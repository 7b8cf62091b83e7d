-- ===== src/Reputation.antt =====
-- sdk/src/reputation/client.ts: the aggregate of an agent's feedback, and a single entry of it. What the
-- registry answers is a parameter.
use coalition.Base.{ℕ, ℤ, Bool, Option, none, some, List, [], ◌∷◌, Text, Result, ok, err}

pub record ReputationSummary : Type 0 where
  pub count : ℕ
  pub value : ℤ
  pub decimals : ℕ

pub record FeedbackEntry : Type 0 where
  pub value : ℤ
  pub decimals : ℕ
  pub tag1 : Text
  pub tag2 : Text
  pub revoked : Bool

-- `ReputationRegistryError`, and a rejection that the source passes on
pub data ReputationError : Type 0 where
  no_client_addresses summary_rejected feedback_rejected : ReputationError

-- `getSummary` by agent, clients and tags, and `readFeedback` by agent, client and index.
pub record ReputationClient : Type 0 where
  pub get_summary : ℕ → List Text → Text → Text → Option ReputationSummary
  pub read_feedback : ℕ → Text → ℕ → Option FeedbackEntry

abbrev or_no_tag : Option Text → Text
or_no_tag none = []
or_no_tag (some tag) = tag

abbrev or_refused : {A : Type 0} → ReputationError → Option A → Result ReputationError A
or_refused e none = err e
or_refused e (some a) = ok a

unfoldable pub get_reputation_summary :
    ReputationClient
    → ℕ
    → List Text
    → Option Text
    → Option Text
    → Result ReputationError ReputationSummary
get_reputation_summary client agent_id [] tag1 tag2 = err no_client_addresses
get_reputation_summary client agent_id (first ∷ rest) tag1 tag2 =
    or_refused summary_rejected
      (client.get_summary agent_id (first ∷ rest) (or_no_tag tag1) (or_no_tag tag2))

unfoldable pub read_feedback :
    ReputationClient → ℕ → Text → ℕ → Result ReputationError FeedbackEntry
read_feedback client agent_id client_address feedback_index =
    or_refused feedback_rejected (client.read_feedback agent_id client_address feedback_index)
