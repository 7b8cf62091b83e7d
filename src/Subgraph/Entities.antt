-- ===== src/Subgraph/Entities.antt =====
-- The event entities: their ids, and that each event's row is kept as it was written.
use coalition.Base.{
  ℕ, ◌≡◌, ◌≢◌, refl, sym, ap, ◌∙◌, inl, inr, true, false, some, List, [], ◌∷◌, ◌++◌, Text, text_eq,
  text_eq_iff, Bool-cases, All,
}
use coalition.Base.Decimal.{big_int, to_string}
use coalition.Base.Decimal.Laws.{big_int-to_string}
use coalition.Subgraph.Tables.{load, load-save}
use coalition.Subgraph.{
  EventContext, Params, committed, dropped_out, settled, expired_finalized, refunded,
  completion_recorded, Event, Store, event_id, id_of, handle_params, handle, index,
}

-- A transaction hash holds no dash.
abbrev pub NoDash : Text → Type 0
NoDash h = All (λ c. c ≢ b'-') h

append_dash-injective :
    (h k s t : Text) → NoDash h → NoDash k → h ++ b'-' ∷ s ≡ k ++ b'-' ∷ t → (h ≡ k) × (s ≡ t)
append_dash-injective [] [] s t p q e = (refl, cc)
append_dash-injective [] (c ∷ k) s t p q e = absurd (q.0 (cc))
append_dash-injective (c ∷ h) [] s t p q e = absurd (p.0 (cc))
append_dash-injective (c ∷ h) (d ∷ k) s t p q e =
    let (same, rest) = append_dash-injective h k s t p.1 q.1 (cc) in (cc, rest)

-- Two events have the same entity id only if they are the same log of the same transaction.
pub event_id-injective :
    (h k : Text) (i j : ℕ) → NoDash h → NoDash k → event_id h i ≡ event_id k j → (h ≡ k) × (i ≡ j)
unfolding event_id
event_id-injective h k i j p q e =
    let (same, digits) = append_dash-injective h k (to_string i) (to_string j) p q e in
    (same, sym (big_int-to_string i) ∙ ap big_int digits ∙ big_int-to_string j)

-- An event elsewhere in the chain.
abbrev pub IsOther : EventContext → Event → Type 0
IsOther c e =
    NoDash e.context.tx_hash
    × ¬ ((e.context.tx_hash ≡ c.tx_hash) × (e.context.log_index ≡ c.log_index))

other_id :
    (c : EventContext) (e : Event)
    → NoDash c.tx_hash
    → IsOther c e
    → text_eq (id_of e.context) (id_of c) ≡ false
other_id c e p h = elim (Bool-cases (text_eq (id_of e.context) (id_of c))) [
  | inl same ↦ absurd (h.1 (event_id-injective _ _ _ _ h.0 p ((text_eq_iff _ _).0 same)))
  | inr other ↦ other
]

module _ (c : EventContext) (dashless : NoDash c.tx_hash) where
  handle_params-keeps :
      (d : EventContext) (p : Params) (s : Store)
      → text_eq (id_of d) (id_of c) ≡ false
      → (load (id_of c) (handle_params d p s).commitments ≡ load (id_of c) s.commitments)
        × (load (id_of c) (handle_params d p s).dropouts ≡ load (id_of c) s.dropouts)
  unfolding handle_params
  handle_params-keeps d (committed _ _) s h = (load-save _ (id_of c) _ s.commitments ∙ rw h, refl)
  handle_params-keeps d (dropped_out _ _) s h = (refl, load-save _ (id_of c) _ s.dropouts ∙ rw h)
  handle_params-keeps d (settled _) s h = (refl, refl)
  handle_params-keeps d (expired_finalized _ _) s h = (refl, refl)
  handle_params-keeps d (refunded _ _) s h = (refl, refl)
  handle_params-keeps d (completion_recorded _ _) s h = (refl, refl)

  index-keeps :
      (es : List Event) (s : Store)
      → All (IsOther c) es
      → (load (id_of c) (index es s).commitments ≡ load (id_of c) s.commitments)
        × (load (id_of c) (index es s).dropouts ≡ load (id_of c) s.dropouts)
  unfolding index handle
  index-keeps [] s h = (refl, refl)
  index-keeps (e ∷ es) s (o, h) =
      let step = handle_params-keeps e.context e.params s (other_id c e dashless o) in
      let rest = index-keeps es (handle e s) h in (rest.0 ∙ step.0, rest.1 ∙ step.1)

  index-append : (es fs : List Event) (s : Store) → index (es ++ fs) s ≡ index fs (index es s)
  unfolding index
  index-append [] fs s = refl
  index-append (e ∷ es) fs s = index-append es fs (handle e s)

  text_eq_self : (t : Text) → text_eq t t ≡ true
  text_eq_self t = (text_eq_iff t t).1 refl

  -- The row of a Committed event, or of a DroppedOut event, is in the store after any further events
  -- of other logs, with the event's own wallet, amount and context.
  pub index-keeps_row :
      (es fs : List Event) (s : Store) (agent : Text) (amount : ℕ)
      → All (IsOther c) fs
      → (load
            (id_of c)
            (index
              (es ++ record { context = c; params = committed agent amount } ∷ fs)
              s).commitments
          ≡ some (record { context = c; wallet = agent; amount = amount }))
        × (load
              (id_of c)
              (index
                (es ++ record { context = c; params = dropped_out agent amount } ∷ fs)
                s).dropouts
            ≡ some (record { context = c; wallet = agent; forfeited = amount }))
  unfolding index handle handle_params
  index-keeps_row es fs s agent amount h = (
    ap (λ (t : Store). load (id_of c) t.commitments)
          (index-append es (record { context = c; params = committed agent amount } ∷ fs) s)
        ∙ (index-keeps fs (handle_params c (committed agent amount) (index es s)) h).0
        ∙ load-save (id_of c) (id_of c) _ (index es s).commitments
        ∙ rw (text_eq_self (id_of c)),
    ap (λ (t : Store). load (id_of c) t.dropouts)
          (index-append es (record { context = c; params = dropped_out agent amount } ∷ fs) s)
        ∙ (index-keeps fs (handle_params c (dropped_out agent amount) (index es s)) h).1
        ∙ load-save (id_of c) (id_of c) _ (index es s).dropouts
        ∙ rw (text_eq_self (id_of c)),
  )
