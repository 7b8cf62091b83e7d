-- ===== src/Fund/Opening/Unread.antt =====
-- The plan against the chain's round, and the plan where nothing can be read.
use coalition.Base.{text, ℕ, ◌+◌, ◌*◌, ◌≤◌, ◌≡◌, refl, ap, ◌∙◌, some, List, Text, arith, ok, err}
use coalition.Base.Decimal.{to_string, big_int}
use coalition.Base.Decimal.Laws.{big_int-to_string}
use coalition.Pool.{RoundState}
use coalition.Dashboard.{
  Sources, RoundReadout, PoolReadout, to_round_view, legacy_view, zero_view, target_atomic,
  read_pool_state, read_chain_round, after_round, read_current_round,
}
use coalition.Dashboard as Dashboard
use coalition.Dashboard.Reads.{HasNoFill, chain_answer, read_pool_state_unread}
use coalition.Fund.{Allocation, Funders, attest_all, share_atomic, plan_round, open_remainder}
use coalition.Fund.Planning.{total_amount, count_attested, plan_round-within, plan_round-completes}
use coalition.Fund.Opening.{opened, plan_opening}

abbrev zero_round : Dashboard.RoundView
zero_round = legacy_view zero_view

zero_remainder : open_remainder (opened zero_round) ≡ target_atomic
unfolding open_remainder opened big_int to_string text
zero_remainder = refl

module _ (sources : Sources) (allocate : Text → ℕ → Allocation) (funders : Funders)
    (ids : List Text) where
  -- Where the chain's reads of the round succeed, and show no more committed than the target, what
  -- is committed by the chain and what `fund` plans stay together within the chain's target.
  pub plan_opening-within :
      (round_id : ℕ) (read : RoundState)
      → read_chain_round sources ≡ ok (round_id, read)
      → read.state.total_committed ≤ read.state.target
      → read.state.total_committed
          + total_amount (plan_opening sources allocate (attest_all funders 0 ids)).jobs
        ≤ read.state.target
  unfolding plan_opening read_current_round after_round
  plan_opening-within round_id read h le =
      let round = opened (to_round_view round_id read) in
      let seen : round.target ≡ read.state.target = big_int-to_string read.state.target in
      let spent : round.total_committed ≡ read.state.total_committed =
        big_int-to_string read.state.total_committed in
      let within = plan_round-within allocate round funders ids (omega (arith, seen, spent)) in
      rw h (ground (arith, within, seen, spent))

  unread_view :
      (e f : Text)
      → read_chain_round sources ≡ err e
      → HasNoFill sources
      → chain_answer sources ≡ err f
      → opened (read_current_round sources).view ≡ opened zero_round
  unfolding read_current_round after_round
  unread_view e f h absent silent =
      rw h (ap (λ v. opened (legacy_view v)) (read_pool_state_unread sources f absent silent))

  -- Where no read of the round or of the pool succeeds, and the standard shares of the attested
  -- wallets reach the default target, the jobs that `fund` plans commit all of it.
  pub plan_opening_unread :
      (e f : Text)
      → read_chain_round sources ≡ err e
      → HasNoFill sources
      → chain_answer sources ≡ err f
      → target_atomic ≤ share_atomic * count_attested (attest_all funders 0 ids)
      → total_amount (plan_opening sources allocate (attest_all funders 0 ids)).jobs ≡ target_atomic
  unfolding plan_opening
  plan_opening_unread e f h absent silent shares =
      let atts = attest_all funders 0 ids in
      ap (λ r. total_amount (plan_round allocate (some r) atts).jobs)
        (unread_view e f h absent silent)
      ∙ plan_round-completes allocate (opened zero_round) funders ids refl
          (omega (arith, zero_remainder))
      ∙ zero_remainder
