-- ===== src/Circle/Tests.antt =====
-- A transaction that is pending at first, and one that stays so.
use coalition.Base.{
  ℕ, zero, suc, ◌≡◌, ◌↔◌, refl, none, some, [], ◌∷◌, Text, text, text_eq, trim, split, ok, err,
}
use coalition.Circle.{
  executed, not_executed, Poll, verdict, is_success_state, is_failure_state, with_hash, poll_from,
  execute_contract_and_wait, not_empty, missing_names, circle_env, read_circle_env,
}
use coalition.Circle.Polls.{Finishes, execute_contract_and_wait-Finishes}
use coalition.Circle.Success.{Confirms, execute_contract_and_wait-Confirms}

-- The second poll fails, and the third finds the transaction complete.
abbrev polls : Text → ℕ → Poll
polls id zero = record {
  answer = ok (some (record { state = some (text "SENT"); tx_hash = none }));
  took = 200;
  jitter = 150;
}
polls id (suc zero) = record { answer = err (text "fetch failed"); took = 40_000; jitter = 0 }
polls id (suc (suc n)) = record {
  answer = ok (some (record { state = some (text "COMPLETE"); tx_hash = some (text "0x1") }));
  took = 200;
  jitter = 20;
}

execute_contract_and_wait-Finishes_example :
    Finishes
      (text "t1")
      (polls (text "t1"))
      (execute_contract_and_wait (ok (some (text "t1"))) polls)
unfolding text
execute_contract_and_wait-Finishes_example =
    execute_contract_and_wait-Finishes (text "t1") polls refl

execute_contract_and_wait-Confirms_example :
    (execute_contract_and_wait (ok (some (text "t1"))) polls ≡ executed (text "0x1"))
    ↔ Confirms (ok (some (text "t1"))) polls (text "0x1")
execute_contract_and_wait-Confirms_example =
    execute_contract_and_wait-Confirms (ok (some (text "t1"))) polls (text "0x1")

complete : execute_contract_and_wait (ok (some (text "t1"))) polls ≡ executed (text "0x1")
unfolding execute_contract_and_wait poll_from verdict is_success_state is_failure_state with_hash
    text text_eq
complete = refl

-- Each poll takes a minute.
abbrev slow : Text → ℕ → Poll
slow id n = record { answer = err (text "ECONNRESET"); took = 60_000; jitter = 0 }

out_of_time :
    execute_contract_and_wait (ok (some (text "t1"))) slow
    ≡ not_executed
        (text "Circle transaction t1 timed out after 120s (last state: poll error: ECONNRESET)")
unfolding execute_contract_and_wait poll_from verdict text
out_of_time = refl

-- The blank entry is dropped.
two_ids :
    read_circle_env (record {
      api_key = some (text "k");
      entity_secret = some (text "s");
      wallet_ids = some (text "w1, ,w2 ");
    })
    ≡ circle_env (text "k") (text "s") (text "w1" ∷ text "w2" ∷ [])
unfolding read_circle_env missing_names not_empty trim split text
two_ids = refl
