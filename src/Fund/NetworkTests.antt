-- ===== src/Fund/NetworkTests.antt =====
-- An orchestrator that lags once, and a job whose two transactions complete.
use coalition.Base.{
  ℕ, zero, suc, ◌≡◌, ◌↔◌, refl, true, none, some, arith, Text, text, to_lower_case, includes, ok,
}
use coalition.Base.Decimal.{to_string}
use coalition.Json.{Json, end, field, string, object, get}
use coalition.Fund.{FundJob, funded}
use coalition.Fund.Execute.{run_job}
use coalition.Fund.Slices.{
  Attempt, detail_of, allocate_slice, is_round_lag_error, is_terminal_settle_denial,
  allocate_with_retry,
}
use coalition.Fund.Slices.Patience.{
  is_tried_again, answer, start, IsLagging, EndsWith, allocate_with_retry-EndsWith,
  allocate_with_retry_succeeds,
}
use coalition.Fund.OnChain.{
  Network, outside_of, approval_of, IsFunded, AreConfirmed, run_job-IsConfirmed,
}

abbrev lag : Json
lag = object (field "error" (string (text "no open round")) end)

abbrev attempts : ℕ → Attempt
attempts zero = record { reply = ok (409, some lag); took = 700 }
attempts (suc n) = record { reply = ok (200, none); took = 20_000 }

allocate_with_retry-EndsWith_example : EndsWith true attempts (allocate_with_retry true attempts)
allocate_with_retry-EndsWith_example = allocate_with_retry-EndsWith true attempts

one_lag : IsLagging true attempts 1
unfolding is_tried_again is_terminal_settle_denial is_round_lag_error allocate_slice detail_of get
    to_string includes to_lower_case text start
one_lag = (tt, omega arith, refl)

second_answers : (answer true attempts 1).succeeded ≡ true
unfolding allocate_slice
second_answers = refl

allocate_with_retry_succeeds_example : (allocate_with_retry true attempts).succeeded ≡ true
allocate_with_retry_succeeds_example =
    allocate_with_retry_succeeds true attempts 1 one_lag second_answers

abbrev network : Network
network = record {
  created = λ at call. ok (some (text "t1"));
  polls = λ at call id n. record {
    answer = ok (some (record { state = some (text "CONFIRMED"); tx_hash = some (text "0x1") }));
    took = 300;
    jitter = 7;
  };
  attempts = λ wallet index. attempts;
}

abbrev job : FundJob
job = record {
  wallet_id = text "first";
  wallet = text "0xab";
  index = 0;
  round_id = text "3";
  amount = 499_999;
  attestation = record {
    index = 0;
    wallet_id = text "first";
    wallet = text "0xab";
    ens_name = some (text "agent1.agentpool.eth");
    ens_wallet = some (text "0xab");
    attested = true;
    note = none;
  };
}

run_job-IsConfirmed_example :
    (((run_job (outside_of network) 0 job (approval_of network 0 job)).step.decision ≡ funded)
      ↔ ((a : Text) × (c : Text) × AreConfirmed network 0 job a c))
    × (IsFunded network 0 job
          (text "0x1")
          (text "0x1")
          (run_job (outside_of network) 0 job (approval_of network 0 job)).step
        ↔ AreConfirmed network 0 job (text "0x1") (text "0x1"))
run_job-IsConfirmed_example = run_job-IsConfirmed network 0 job (text "0x1") (text "0x1")
