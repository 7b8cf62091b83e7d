-- ===== src/Fund/Opening.antt =====
-- What `fund` plans from the round that `readCurrentRound` reports: the opening of
-- app/app/api/agents/fund/route.ts. `readCurrentRound` never throws, so there is always a round.
pub mod Unread
use coalition.Base.{ℕ, Option, some, List, Text}
use coalition.Base.Decimal.{big_int}
use coalition.Dashboard.{Sources, read_current_round}
use coalition.Dashboard as Dashboard
use coalition.Fund.{Allocation, RoundView, FunderAttestation, Plan, plan_round}

-- `BigInt(opening.view.target)` and the other fields of the view that `fund` reads.
unfoldable pub opened : Dashboard.RoundView → RoundView
opened view = record {
  round_id = view.round_id;
  target = big_int view.target;
  total_committed = big_int view.total_committed;
  settled = view.settled;
  expired = view.expired;
}

unfoldable pub plan_opening : Sources → (Text → ℕ → Allocation) → List FunderAttestation → Plan
unfolding opened
plan_opening sources allocate atts =
    plan_round allocate (some (opened (read_current_round sources).view)) atts
