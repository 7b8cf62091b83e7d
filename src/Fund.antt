-- ===== src/Fund.antt =====
-- app/app/api/agents/fund/route.ts: funding a round from the configured wallets. Each funder is attested
-- against its ENS name (`Fund.Attest`), the first phase splits the remainder into jobs (here), and
-- the later phases approve and commit each job (`Fund.Execute`). The texts of the reasons are
-- constructors that carry what is interpolated.
mod Attest
pub mod Split
pub mod Planning
pub mod Jobs
pub mod Execute
pub mod Sorting
pub mod Outcomes
pub mod Opening
pub mod Slices
pub mod OnChain
pub mod Guard
pub mod Report
mod Tests
mod OpeningTests
mod NetworkTests
unfoldable pub use Attest.*
use coalition.Base.{
  ℕ, zero, suc, ◌+◌, ◌-◌, ◌/◌, Bool, true, false, not, ◌&&◌, ◌||◌, Option, none, some, List, [],
  ◌∷◌, Text, text, ltb, leb, ◌==◌, if◌then◌else◌,
}

-- `SHARE_ATOMIC`
abbrev pub share_atomic : ℕ
share_atomic = 2_500_000

pub data Decision : Type 0 where
  funded skipped failed : Decision

pub data Reason : Type 0 where
  round_read_unavailable : Reason
  attestation_failed : Option Note → Reason
  round_closed : Text → Reason
  round_at_target : Text → ℕ → Reason
  approve_failed commit_failed threw : Text → Reason
  funded_amount : ℕ → Text → Reason

-- What the orchestrator's `/allocate` came to, after the retries.
pub record Allocation : Type 0 where
  pub succeeded : Bool
  pub error : Option Text

-- `FundStep`; `attestation` stands for the fields that `attestationFields` takes from it.
pub record FundStep : Type 0 where
  pub wallet : Text
  pub decision : Decision
  pub reason : Reason
  pub round_id : Option Text
  pub approve_tx_hash : Option Text
  pub commit_tx_hash : Option Text
  pub allocation : Option Allocation
  pub attestation : Option FunderAttestation

pub record Slot : Type 0 where
  pub index : ℕ
  pub step : FundStep

pub record FundJob : Type 0 where
  pub wallet_id : Text
  pub wallet : Text
  pub index : ℕ
  pub round_id : Text
  pub amount : ℕ
  pub attestation : FunderAttestation

-- The round as `readCurrentRound` reports it, its amounts read back by `BigInt`.
pub record RoundView : Type 0 where
  pub round_id : Text
  pub target : ℕ
  pub total_committed : ℕ
  pub settled : Bool
  pub expired : Bool

-- The amount for one wallet when `left` wallets share what remains.
unfoldable pub fill_amount : ℕ → ℕ → ℕ
fill_amount remaining left =
    let even_split = remaining / left in
    if ltb even_split share_atomic
    then if ltb 0 even_split then even_split else remaining
    else share_atomic

-- `attestedLeftFrom`
pub attested_left_from : List FunderAttestation → ℕ → ℕ
attested_left_from [] index = 0
attested_left_from (att ∷ atts) index =
    if att.attested && leb index att.index
    then suc (attested_left_from atts index)
    else attested_left_from atts index

pub record Plan : Type 0 where
  pub slots : List Slot
  pub jobs : List FundJob

abbrev no_step : FunderAttestation → Reason → Decision → Option Text → Option Allocation → Slot
no_step att reason decision round_id allocation = record {
  index = att.index;
  step = record {
    wallet = att.wallet;
    decision = decision;
    reason = reason;
    round_id = round_id;
    approve_tx_hash = none;
    commit_tx_hash = none;
    allocation = allocation;
    attestation = some att;
  };
}

abbrev add_slot : Slot → Plan → Plan
add_slot slot plan = record plan { slots = slot ∷ plan.slots }

abbrev add_job : FundJob → Plan → Plan
add_job job plan = record plan { jobs = job ∷ plan.jobs }

-- `target - totalCommitted`, or nothing where the target is reached.
pub open_remainder : RoundView → ℕ
open_remainder round =
    if ltb round.total_committed round.target then round.target - round.total_committed else 0

-- `settled || expired`
abbrev pub is_closed : RoundView → Bool
is_closed round = round.settled || round.expired

-- The loop over the wallets in seed order. `attestations` has an entry for each wallet, so the loop
-- runs along it; `all` is the whole of it, and `allocate` the repair of a slice after the round.
module _ (allocate : Text → ℕ → Allocation) (round : RoundView) (all : List FunderAttestation) where
  pub plan_wallets : ℕ → List FunderAttestation → Plan
  plan_wallets remaining [] = record { slots = []; jobs = [] }
  plan_wallets remaining (att ∷ atts) =
      let amount = fill_amount remaining (attested_left_from all att.index) in
      let job : FundJob = record {
        wallet_id = att.wallet_id;
        wallet = att.wallet;
        index = att.index;
        round_id = round.round_id;
        amount = amount;
        attestation = record att { ens_wallet = some att.wallet };
      } in
      let rejected = no_step att (attestation_failed att.note) failed (some round.round_id) none in
      let repaired =
        no_step att (round_closed round.round_id) skipped (some round.round_id)
          (some (allocate att.wallet att.index)) in
      let full =
        no_step att (round_at_target round.round_id round.target) skipped (some round.round_id)
          none in
      let without = plan_wallets remaining atts in
      let after = plan_wallets (remaining - amount) atts in
      if not att.attested
      then add_slot rejected without
      else if is_closed round
      then add_slot repaired without
      else if leb remaining 0
      then add_slot full without
      else add_job job after

-- Without a round every wallet fails.
unread_round : List FunderAttestation → Plan
unread_round [] = record { slots = []; jobs = [] }
unread_round (att ∷ atts) =
    add_slot
      (record {
        index = att.index;
        step = record {
          wallet = att.wallet;
          decision = failed;
          reason = round_read_unavailable;
          round_id = none;
          approve_tx_hash = none;
          commit_tx_hash = none;
          allocation = none;
          attestation = none;
        };
      })
      (unread_round atts)

-- Phase 1, on what `readCurrentRound` gave.
unfoldable pub plan_round :
    (Text → ℕ → Allocation) → Option RoundView → List FunderAttestation → Plan
unfolding plan_wallets unread_round
plan_round allocate none atts = unread_round atts
plan_round allocate (some round) atts = plan_wallets allocate round atts (open_remainder round) atts
