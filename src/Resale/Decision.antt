-- ===== src/Resale/Decision.antt =====
-- app/lib/resale-decision.ts: whether the autonomous buyer buys. The texts of the reasons are
-- constructors that carry what is interpolated; quantities are integers that are not negative, as
-- the caller checks.
use mathlib.Core.Path.{subst}
use coalition.Base.{
  sym, ℕ, ◌*◌, ◌≤◌, ◌≡◌, ◌↔◌, refl, Bool, false, Option, none, some, List, [], ◌∷◌, ◌++◌, arith,
  Text, ltb, if◌then◌else◌, is_empty,
}

-- `ResaleBuyWant`
pub record ResaleBuyWant : Type 0 where
  pub mem : ℕ
  pub cu_micro : ℕ

-- `ResaleCapacityHeadroom`
pub record ResaleCapacityHeadroom : Type 0 where
  pub headroom_mb : ℕ
  pub headroom_cu_micro : ℕ

-- `ResaleHealthCounts`
pub record ResaleHealthCounts : Type 0 where
  pub settled : Bool
  pub participant_count : ℕ
  pub forfeited_total_atomic : Text
  pub dropout_count : ℕ

-- `ResaleDecisionInput`
pub record ResaleDecisionInput : Type 0 where
  pub want : ResaleBuyWant
  pub capacity : Option ResaleCapacityHeadroom
  pub health : Option ResaleHealthCounts
  pub subgraph_error : Option Text

pub data Action : Type 0 where
  buy skip : Action

pub data Verdict : Type 0 where
  no_health : Option Text → Verdict
  is_settled : Verdict
  is_unreliable : ℕ → ℕ → Verdict
  over_mem over_cu : ℕ → ℕ → Verdict
  open_and_fits : Verdict

-- The entries of `trace.reasons`.
pub data TraceReason : Type 0 where
  health_unavailable pool_settled pool_not_settled : TraceReason
  pool_unreliable pool_reliable : ℕ → ℕ → TraceReason
  mem_exceeds mem_fits cu_exceeds cu_fits : ℕ → ℕ → TraceReason
  no_capacity buys : TraceReason

-- `ResaleDecision`; the rest of its trace copies the input.
pub record ResaleDecision : Type 0 where
  pub action : Action
  pub reason : Verdict
  pub reasons : List TraceReason

abbrev decided : Action → Verdict → List TraceReason → ResaleDecision
decided action reason reasons = record { action = action; reason = reason; reasons = reasons }

-- `input.subgraphError !== null && input.subgraphError !== ""`
abbrev detail_of : Option Text → Option Text
detail_of none = none
detail_of (some error) = if is_empty error then none else some error

-- The rules on the capacity, where there is one, after the reasons that were pushed.
unfoldable pub decide_capacity :
    ResaleBuyWant → Option ResaleCapacityHeadroom → List TraceReason → ResaleDecision
decide_capacity want none reasons = decided buy open_and_fits (reasons ++ no_capacity ∷ buys ∷ [])
decide_capacity want (some capacity) reasons =
    if ltb capacity.headroom_mb want.mem
    then decided skip (over_mem want.mem capacity.headroom_mb)
        (reasons ++ mem_exceeds want.mem capacity.headroom_mb ∷ [])
    else if ltb capacity.headroom_cu_micro want.cu_micro
    then decided skip (over_cu want.cu_micro capacity.headroom_cu_micro) (
        reasons
        ++ mem_fits want.mem capacity.headroom_mb
          ∷ cu_exceeds want.cu_micro capacity.headroom_cu_micro
          ∷ [])
    else decided buy open_and_fits (
        reasons
        ++ mem_fits want.mem capacity.headroom_mb
          ∷ cu_fits want.cu_micro capacity.headroom_cu_micro
          ∷ buys
          ∷ [])

-- The rules on the pool's health.
unfoldable pub decide_health :
    ResaleBuyWant → Option ResaleCapacityHeadroom → ResaleHealthCounts → ResaleDecision
decide_health want capacity health =
    if health.settled
    then decided skip is_settled (pool_settled ∷ [])
    else if ltb health.participant_count (health.dropout_count * 2)
    then decided skip (is_unreliable health.dropout_count health.participant_count)
        (pool_not_settled ∷ pool_unreliable health.dropout_count health.participant_count ∷ [])
    else decide_capacity want capacity
        (pool_not_settled ∷ pool_reliable health.dropout_count health.participant_count ∷ [])

unfoldable pub decide_resale_buy : ResaleDecisionInput → ResaleDecision
decide_resale_buy input = elim input.health [
  | none ↦ decided skip (no_health (detail_of input.subgraph_error)) (health_unavailable ∷ [])
  | some health ↦ decide_health input.want input.capacity health
]

-- What a want leaves to the capacity that is known.
abbrev pub Fits : ResaleBuyWant → Option ResaleCapacityHeadroom → Type 0
Fits want none = Unit
Fits want (some capacity) =
    (want.mem ≤ capacity.headroom_mb) × (want.cu_micro ≤ capacity.headroom_cu_micro)

-- A pool that is open, and from which at most half of the participants dropped out.
abbrev pub IsSound : ResaleHealthCounts → Type 0
IsSound health = (health.settled ≡ false) × (health.dropout_count * 2 ≤ health.participant_count)

decide_capacity-buys :
    (want : ResaleBuyWant) (capacity : Option ResaleCapacityHeadroom) (reasons : List TraceReason)
    → ((decide_capacity want capacity reasons).action ≡ buy) ↔ Fits want capacity
unfolding decide_capacity
decide_capacity-buys want none reasons = (λ _. tt, λ _. refl)
decide_capacity-buys want (some capacity) reasons = ground arith

decide_health-buys :
    (want : ResaleBuyWant) (capacity : Option ResaleCapacityHeadroom) (health : ResaleHealthCounts)
    → ((decide_health want capacity health).action ≡ buy) ↔ (IsSound health × Fits want capacity)
unfolding decide_health
decide_health-buys want capacity health = ground (
  arith,
  decide_capacity-buys want capacity
      (pool_not_settled ∷ pool_reliable health.dropout_count health.participant_count ∷ []),
)

counts_injective : {a b : ResaleHealthCounts} → some a ≡ some b → a ≡ b
counts_injective h = cc

decide_on-buys :
    (input : ResaleDecisionInput) (health : Option ResaleHealthCounts)
    → ((decide_resale_buy (record input { health = health })).action ≡ buy) ↔ (
        (counts : ResaleHealthCounts) × (health ≡ some counts)
        × IsSound counts
        × Fits input.want input.capacity)
unfolding decide_resale_buy
decide_on-buys input none = (λ h. cc, λ (c, p, s, f). cc)
decide_on-buys input (some counts) = (
  λ h.
      let (sound, fits) = (decide_health-buys input.want input.capacity counts).0 h in
      (counts, refl, sound, fits),
  λ (other, p, sound, fits).
      (decide_health-buys input.want input.capacity counts).1
        (subst IsSound (sym (counts_injective p)) sound, fits),
)

-- The buyer buys exactly if the subgraph's counts are there, the pool is not settled, at most half of
-- its participants dropped out, and what is wanted fits the headroom where that is known: it never
-- buys without the counts, and it can buy without a known headroom.
pub decide_resale_buy-buys :
    (input : ResaleDecisionInput)
    → ((decide_resale_buy input).action ≡ buy) ↔ (
        (counts : ResaleHealthCounts) × (input.health ≡ some counts)
        × IsSound counts
        × Fits input.want input.capacity)
decide_resale_buy-buys input = decide_on-buys input input.health
