-- ===== src/Pool/Calls.antt =====
-- A write to the pool contract: `writeContract` and the functions that the client calls.
use coalition.Base.{ℕ, List, Text}

-- The contract's functions and the arguments that they are called with.
pub data PoolFunction : Type 0 where
  commit drop_out finalize_expired claim_refund settle record_completions start_round : PoolFunction

pub record ContractWrite : Type 0 where
  pub address : Text
  pub function_name : PoolFunction
  pub args : List ℕ
  pub account : Text
