-- ===== src/Subgraph.antt =====
-- subgraph/src/mapping.ts: the handlers that index the pool's events. The store of entities is explicit
-- state; `save` overwrites the entity with the same id, as the graph node documents.
pub mod Tables
pub mod Pools
pub mod Entities
mod Tests
use coalition.Base.{
  ℕ, ◌+◌, Bool, true, false, Option, none, some, List, [], ◌∷◌, ◌++◌, ℤ, pos, ◌+ℤ◌, ◌-ℤ◌, Text, leb,
  if◌then◌else◌,
}
use coalition.Base.Decimal.{to_string}
use coalition.Subgraph.Tables.{Table, load, save}

-- Where an event stands in the chain: `event.address`, `event.transaction.hash`, …
pub record EventContext : Type 0 where
  pub address : Text
  pub tx_hash : Text
  pub log_index : ℕ
  pub block : ℕ
  pub timestamp : ℕ

pub data Params : Type 0 where
  committed : Text → ℕ → Params
  dropped_out : Text → ℕ → Params
  settled : ℕ → Params
  expired_finalized : ℕ → ℕ → Params
  refunded : Text → ℕ → Params
  completion_recorded : ℕ → ℤ → Params

pub record Event : Type 0 where
  pub context : EventContext
  pub params : Params

-- The entities. The fields that every event entity copies from its event are its `context`; its
-- `pool` is the context's address.
pub record Pool : Type 0 where
  pub target : ℕ
  pub total_committed : ℕ
  pub forfeited_total : ℕ
  pub settled : Bool
  pub expired_finalized : Bool
  pub participant_count : ℤ

pub data SettlementKind : Type 0 where
  settle expiry_sweep : SettlementKind

pub record Commitment : Type 0 where
  pub context : EventContext
  pub wallet : Text
  pub amount : ℕ

pub record Dropout : Type 0 where
  pub context : EventContext
  pub wallet : Text
  pub forfeited : ℕ

pub record Settlement : Type 0 where
  pub context : EventContext
  pub total : ℕ
  pub kind : SettlementKind

pub record Expiry : Type 0 where
  pub context : EventContext
  pub balance : ℕ
  pub claimants : ℕ

pub record Refund : Type 0 where
  pub context : EventContext
  pub wallet : Text
  pub amount : ℕ

pub record Completion : Type 0 where
  pub context : EventContext
  pub agent_id : ℕ
  pub value : ℤ

pub record Store : Type 0 where
  pub pools : Table Pool
  pub commitments : Table Commitment
  pub dropouts : Table Dropout
  pub settlements : Table Settlement
  pub expiries : Table Expiry
  pub refunds : Table Refund
  pub completions : Table Completion

abbrev pub empty_store : Store
empty_store = record {
  pools = [];
  commitments = [];
  dropouts = [];
  settlements = [];
  expiries = [];
  refunds = [];
  completions = [];
}

-- `POOL_TARGET`
abbrev pub pool_target : ℕ
pool_target = 10_000_000

pub event_id : Text → ℕ → Text
event_id tx_hash log_index = tx_hash ++ b'-' ∷ to_string log_index

abbrev pub new_pool : Pool
new_pool = record {
  target = pool_target;
  total_committed = 0;
  forfeited_total = 0;
  settled = false;
  expired_finalized = false;
  participant_count = pos 0;
}

pub get_or_create_pool : Text → Store → Pool
get_or_create_pool address s = elim (load address s.pools) [ none ↦ new_pool | some pool ↦ pool ]

abbrev pub id_of : EventContext → Text
id_of c = event_id c.tx_hash c.log_index

abbrev save_pool : Text → Pool → Store → Store
save_pool address pool s = record s { pools = save address pool s.pools }

handle_committed : EventContext → Text → ℕ → Store → Store
unfolding get_or_create_pool
handle_committed c agent amount s =
    let pool = get_or_create_pool c.address s in
    let pool' = record pool {
      total_committed = pool.total_committed + amount;
      participant_count = pool.participant_count +ℤ pos 1;
    } in
    let s' = save_pool c.address pool' s in
    let commitment : Commitment = record { context = c; wallet = agent; amount = amount } in
    record s' { commitments = save (id_of c) commitment s'.commitments }

handle_dropped_out : EventContext → Text → ℕ → Store → Store
unfolding get_or_create_pool
handle_dropped_out c agent forfeited s =
    let pool = get_or_create_pool c.address s in
    let pool' = record pool {
      forfeited_total = pool.forfeited_total + forfeited;
      participant_count = pool.participant_count -ℤ pos 1;
    } in
    let s' = save_pool c.address pool' s in
    let dropout : Dropout = record { context = c; wallet = agent; forfeited = forfeited } in
    record s' { dropouts = save (id_of c) dropout s'.dropouts }

handle_settled : EventContext → ℕ → Store → Store
unfolding get_or_create_pool
handle_settled c total s =
    let pool = record (get_or_create_pool c.address s) { settled = true } in
    let s' = save_pool c.address pool s in
    let kind = if leb pool.target total then settle else expiry_sweep in
    let settlement : Settlement = record { context = c; total = total; kind = kind } in
    record s' { settlements = save (id_of c) settlement s'.settlements }

handle_expired_finalized : EventContext → ℕ → ℕ → Store → Store
unfolding get_or_create_pool
handle_expired_finalized c balance claimants s =
    let pool = record (get_or_create_pool c.address s) { expired_finalized = true } in
    let s' = save_pool c.address pool s in
    let expiry : Expiry = record { context = c; balance = balance; claimants = claimants } in
    record s' { expiries = save (id_of c) expiry s'.expiries }

handle_refunded : EventContext → Text → ℕ → Store → Store
unfolding get_or_create_pool
handle_refunded c agent amount s =
    let s' = save_pool c.address (get_or_create_pool c.address s) s in
    let refund : Refund = record { context = c; wallet = agent; amount = amount } in
    record s' { refunds = save (id_of c) refund s'.refunds }

handle_completion_recorded : EventContext → ℕ → ℤ → Store → Store
unfolding get_or_create_pool
handle_completion_recorded c agent_id value s =
    let s' = save_pool c.address (get_or_create_pool c.address s) s in
    let completion : Completion = record { context = c; agent_id = agent_id; value = value } in
    record s' { completions = save (id_of c) completion s'.completions }

-- The subgraph's dispatch of an event to its handler.
handle_params : EventContext → Params → Store → Store
unfolding handle_committed handle_dropped_out handle_settled handle_expired_finalized
    handle_refunded handle_completion_recorded
handle_params c (committed agent amount) = handle_committed c agent amount
handle_params c (dropped_out agent forfeited) = handle_dropped_out c agent forfeited
handle_params c (settled total) = handle_settled c total
handle_params c (expired_finalized balance claimants) = handle_expired_finalized c balance claimants
handle_params c (refunded agent amount) = handle_refunded c agent amount
handle_params c (completion_recorded agent_id value) = handle_completion_recorded c agent_id value

pub handle : Event → Store → Store
unfolding handle_params
handle e = handle_params e.context e.params

-- The events of the chain, in order.
pub index : List Event → Store → Store
index [] s = s
index (e ∷ es) s = index es (handle e s)
