-- ===== src/Subgraph/Pools.antt =====
-- The pool entity against sums over the events of its address.
use coalition.Base.{
  ℕ, ◌+◌, ◌≡◌, refl, sym, ap, ◌∙◌, inl, inr, Bool, true, false, ◌||◌, none, some, List, [], ◌∷◌,
  arith, pos, ◌+ℤ◌, ◌-ℤ◌, int_laws, Text, text_eq, text_eq_iff, if◌then◌else◌, Bool-cases,
}
use coalition.Subgraph.Tables.{load, load-save}
use coalition.Subgraph.{
  EventContext, Params, committed, dropped_out, settled, expired_finalized, refunded,
  completion_recorded, Event, Pool, Store, empty_store, pool_target, new_pool, get_or_create_pool,
  handle_params, handle, index,
}

-- What one event means for a pool.
abbrev committed_amount : Params → ℕ
committed_amount (committed _ amount) = amount
committed_amount _ = 0

abbrev forfeited_amount : Params → ℕ
forfeited_amount (dropped_out _ forfeited) = forfeited
forfeited_amount _ = 0

abbrev is_commit : Params → ℕ
is_commit (committed _ _) = 1
is_commit _ = 0

abbrev is_dropout : Params → ℕ
is_dropout (dropped_out _ _) = 1
is_dropout _ = 0

abbrev is_settled : Params → Bool
is_settled (settled _) = true
is_settled _ = false

abbrev is_expired : Params → Bool
is_expired (expired_finalized _ _) = true
is_expired _ = false

-- The sum of a quantity over the events of one address, and whether one of them passes a test.
module _ (address : Text) where
  pub sum_at : (Params → ℕ) → List Event → ℕ
  sum_at f [] = 0
  sum_at f (e ∷ es) = (if text_eq e.context.address address then f e.params else 0) + sum_at f es

  pub any_at : (Params → Bool) → List Event → Bool
  any_at p [] = false
  any_at p (e ∷ es) =
      (if text_eq e.context.address address then p e.params else false) || any_at p es

  pub touched : List Event → Bool
  touched [] = false
  touched (e ∷ es) = text_eq e.context.address address || touched es

  -- A pool after more events at its address.
  extend : Pool → List Event → Pool
  extend pool es = record {
    target = pool.target;
    total_committed = pool.total_committed + sum_at committed_amount es;
    forfeited_total = pool.forfeited_total + sum_at forfeited_amount es;
    settled = pool.settled || any_at is_settled es;
    expired_finalized = pool.expired_finalized || any_at is_expired es;
    participant_count =
        pool.participant_count +ℤ pos (sum_at is_commit es) -ℤ pos (sum_at is_dropout es);
  }

  -- The pool entity that the events of an address describe.
  pub summary : List Event → Pool
  unfolding sum_at any_at
  summary es = record {
    target = pool_target;
    total_committed = sum_at committed_amount es;
    forfeited_total = sum_at forfeited_amount es;
    settled = any_at is_settled es;
    expired_finalized = any_at is_expired es;
    participant_count = pos (sum_at is_commit es) -ℤ pos (sum_at is_dropout es);
  }

  -- One event on the pool of its address.
  update : Params → Pool → Pool
  update (committed _ amount) pool = record pool {
    total_committed = pool.total_committed + amount;
    participant_count = pool.participant_count +ℤ pos 1;
  }
  update (dropped_out _ forfeited) pool = record pool {
    forfeited_total = pool.forfeited_total + forfeited;
    participant_count = pool.participant_count -ℤ pos 1;
  }
  update (settled _) pool = record pool { settled = true }
  update (expired_finalized _ _) pool = record pool { expired_finalized = true }
  update (refunded _ _) pool = pool
  update (completion_recorded _ _) pool = pool

  load-handle_params :
      (c : EventContext) (p : Params) (s : Store)
      → load address (handle_params c p s).pools ≡ (
          if text_eq c.address address
          then some (update p (get_or_create_pool c.address s))
          else load address s.pools)
  unfolding handle_params update
  load-handle_params c (committed _ _) s = load-save c.address address _ s.pools
  load-handle_params c (dropped_out _ _) s = load-save c.address address _ s.pools
  load-handle_params c (settled _) s = load-save c.address address _ s.pools
  load-handle_params c (expired_finalized _ _) s = load-save c.address address _ s.pools
  load-handle_params c (refunded _ _) s = load-save c.address address _ s.pools
  load-handle_params c (completion_recorded _ _) s = load-save c.address address _ s.pools

  sum_at-untouched : (f : Params → ℕ) (es : List Event) → touched es ≡ false → sum_at f es ≡ 0
  unfolding sum_at touched
  sum_at-untouched f [] h = refl
  sum_at-untouched f (e ∷ es) h = ground (arith, sum_at-untouched f es)

  any_at-untouched :
      (p : Params → Bool) (es : List Event) → touched es ≡ false → any_at p es ≡ false
  unfolding any_at touched
  any_at-untouched p [] h = refl
  any_at-untouched p (e ∷ es) h = ground (arith, any_at-untouched p es)

  extend-untouched : (pool : Pool) (es : List Event) → touched es ≡ false → extend pool es ≡ pool
  unfolding extend
  extend-untouched pool es h =
      let z₁ = sum_at-untouched committed_amount es h in
      let z₂ = sum_at-untouched forfeited_amount es h in
      let z₃ = sum_at-untouched is_commit es h in
      let z₄ = sum_at-untouched is_dropout es h in
      let b₁ = any_at-untouched is_settled es h in
      let b₂ = any_at-untouched is_expired es h in rw (z₁, z₂, z₃, z₄, b₁, b₂) (grind int_laws)

  extend-update :
      (c : EventContext) (p : Params) (pool : Pool) (es : List Event)
      → text_eq c.address address ≡ true
      → extend (update p pool) es ≡ extend pool (record { context = c; params = p } ∷ es)
  unfolding extend update sum_at any_at
  extend-update c (committed _ _) pool es h = grind int_laws
  extend-update c (dropped_out _ _) pool es h = grind int_laws
  extend-update c (settled _) pool es h = grind int_laws
  extend-update c (expired_finalized _ _) pool es h = grind int_laws
  extend-update c (refunded _ _) pool es h = grind int_laws
  extend-update c (completion_recorded _ _) pool es h = grind int_laws

  load-handle :
      (e : Event) (s : Store)
      → load address (handle e s).pools ≡ (
          if text_eq e.context.address address
          then some (update e.params (get_or_create_pool e.context.address s))
          else load address s.pools)
  unfolding handle
  load-handle e s = load-handle_params e.context e.params s

  found_pool :
      (s : Store) {pool : Pool}
      → load address s.pools ≡ some pool
      → get_or_create_pool address s ≡ pool
  unfolding get_or_create_pool
  found_pool s h = rw (h, get_or_create_pool)

  same_pool :
      (s t : Store)
      → load address s.pools ≡ load address t.pools
      → get_or_create_pool address s ≡ get_or_create_pool address t
  unfolding get_or_create_pool
  same_pool s t h = rw (h, get_or_create_pool)

  extend_elsewhere :
      (e : Event) (pool : Pool) (es : List Event)
      → text_eq e.context.address address ≡ false
      → extend pool (e ∷ es) ≡ extend pool es
  unfolding extend sum_at any_at
  extend_elsewhere e pool es h = grind int_laws

  extend_here :
      (e : Event) (es : List Event) (s : Store)
      → text_eq e.context.address address ≡ true
      → extend (get_or_create_pool address (handle e s)) es
        ≡ extend (get_or_create_pool address s) (e ∷ es)
  extend_here e es s h =
      let same : e.context.address ≡ address = (text_eq_iff _ _).0 h in
      let saved = load-handle e s ∙ rw h in
      ap (λ (q : Pool). extend q es) (found_pool (handle e s) saved)
      ∙ extend-update e.context e.params (get_or_create_pool e.context.address s) es h
      ∙ ap (λ (a : Text). extend (get_or_create_pool a s) (e ∷ es)) same

  last_here :
      (e : Event) (es : List Event) (s : Store)
      → text_eq e.context.address address ≡ true
      → touched es ≡ false
      → update e.params (get_or_create_pool e.context.address s)
        ≡ extend (get_or_create_pool address s) (e ∷ es)
  last_here e es s here rest =
      sym (found_pool (handle e s) (load-handle e s ∙ rw here))
      ∙ sym (extend-untouched (get_or_create_pool address (handle e s)) es rest)
      ∙ extend_here e es s here

  pool_after :
      (es : List Event) (s : Store)
      → load address (index es s).pools ≡ (
          if touched es
          then some (extend (get_or_create_pool address s) es)
          else load address s.pools)
  unfolding index touched
  pool_after [] s = refl
  pool_after (e ∷ es) s = elim (Bool-cases (text_eq e.context.address address)) [
    | inl here ↦ elim (Bool-cases (touched es)) [
      | inl more ↦ pool_after es (handle e s) ∙ rw (here, more) (ap some (extend_here e es s here))
      | inr rest ↦
          pool_after es (handle e s)
          ∙ rw rest (load-handle e s ∙ rw here (ap some (last_here e es s here rest)))
    ]
    | inr other ↦
        let same = load-handle e s ∙ rw other in
        pool_after es (handle e s)
        ∙ rw (
          other,
          same,
          same_pool (handle e s) s same,
          extend_elsewhere e (get_or_create_pool address s) es other,
        )
  ]

  extend-new_pool : (es : List Event) → extend new_pool es ≡ summary es
  unfolding extend summary
  extend-new_pool es = grind int_laws

  -- After any events from an empty store, a pool has an entity exactly if one of them is at its
  -- address, and then: the target is the seeded one; the committed and forfeited totals are the sums
  -- over its Committed and DroppedOut events; it is settled, or finalized as expired, exactly if such
  -- an event occurred; its participant count is the number of Committed events less that of
  -- DroppedOut events.
  pub index-summary :
      (es : List Event)
      → load address (index es empty_store).pools ≡ (if touched es then some (summary es) else none)
  unfolding get_or_create_pool load
  index-summary es =
      pool_after es empty_store
      ∙ ap (λ (q : Pool). if touched es then some q else none) (extend-new_pool es)
