-- ===== src/Subgraph/Tests.antt =====
-- The mapping on a short run of events.
use coalition.Base.{
  ℕ, ◌≡◌, refl, true, false, Option, none, some, List, [], ◌∷◌, ◌++◌, arith, ℤ, pos, Text, text,
  text_eq, if◌then◌else◌,
}
use coalition.Base.Decimal.{to_string}
use coalition.Subgraph.Tables.{load, save}
use coalition.Subgraph.{
  EventContext, committed, dropped_out, settled, Event, empty_store, event_id, id_of,
  get_or_create_pool, handle, index,
}
use coalition.Subgraph.Pools.{touched, summary, index-summary}
use coalition.Subgraph.Entities.{index-keeps_row}

abbrev pool : Text
pool = b'p' ∷ []

abbrev at_log : ℕ → EventContext
at_log n = record { address = pool; tx_hash = b'a' ∷ []; log_index = n; block = 10; timestamp = 20 }

abbrev run : List Event
run =
    record { context = at_log 0; params = committed (b'w' ∷ []) 2_500_000 }
    ∷ record { context = at_log 1; params = committed (b'w' ∷ []) 2_500_000 }
    ∷ record { context = at_log 2; params = dropped_out (b'w' ∷ []) 5_000_000 }
    ∷ record { context = at_log 3; params = settled 9_000_000 }
    ∷ []

-- One wallet that commits twice and drops out once is still counted as one participant.
run_pool :
    load pool (index run empty_store).pools
    ≡ some (record {
      target = 10_000_000;
      total_committed = 5_000_000;
      forfeited_total = 5_000_000;
      settled = true;
      expired_finalized = false;
      participant_count = pos 1;
    })
unfolding index handle load save event_id to_string get_or_create_pool text_eq coalition.Base.◌+ℤ◌
    coalition.Base.◌-ℤ◌
run_pool = refl

index-summary_example :
    load pool (index run empty_store).pools
    ≡ (if touched pool run then some (summary pool run) else none)
index-summary_example = index-summary pool run

index-keeps_row_example :
    (load
        (id_of (at_log 1))
        (index
          (run
            ++ record { context = at_log 1; params = committed (b'v' ∷ []) 4 }
              ∷ record { context = at_log 2; params = settled 4 }
              ∷ [])
          empty_store).commitments
      ≡ some (record { context = at_log 1; wallet = b'v' ∷ []; amount = 4 }))
    × (load
          (id_of (at_log 1))
          (index
            (run
              ++ record { context = at_log 1; params = dropped_out (b'v' ∷ []) 4 }
                ∷ record { context = at_log 2; params = settled 4 }
                ∷ [])
            empty_store).dropouts
        ≡ some (record { context = at_log 1; wallet = b'v' ∷ []; forfeited = 4 }))
index-keeps_row_example =
    index-keeps_row (at_log 1) (ground arith) run
      (record { context = at_log 2; params = settled 4 } ∷ []) empty_store (b'v' ∷ []) 4
      (ground arith)
