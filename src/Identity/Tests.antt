-- ===== src/Identity/Tests.antt =====
-- The log scan on a chain of 25,000 blocks behind a range cap.
use coalition.Base.{
  ℕ, ◌+◌, ◌-◌, ◌≡◌, refl, Option, none, some, List, [], ◌∷◌, arith, Text, ltb, ◌==◌, if◌then◌else◌,
  ok, err, inr,
}
use coalition.Identity.{
  RegistryClient, ids_of, or_zero, find_agents_by_owner, register_agent, no_registered_event,
}
use coalition.Blocks.{logs_of}
use coalition.Identity.Scan.{Serves, find_agents_by_owner-logs_of}

abbrev owner : Text
owner = b'o' ∷ []

-- One log with an id and one without, at blocks 10 and 15,000.
abbrev emitted : ℕ → List (Option ℕ)
emitted block =
    if block == 10 then some 7 ∷ [] else if block == 15_000 then none ∷ some 8 ∷ [] else []

abbrev capped : RegistryClient
capped = record {
  registry = b'r' ∷ [];
  registered_in = λ _. some [];
  token_uri = λ _. none;
  get_agent_wallet = λ _. none;
  balance_of = λ _. some 2;
  get_block_number = some 25_000;
  get_contract_events = λ _ first last.
      if ltb (first + 10_000) last then none else some (logs_of emitted first (last + 1 - first));
}

capped-Serves : Serves capped owner emitted 25_000
capped-Serves first last h wide high = ground arith

find_agents_by_owner-logs_of_example :
    find_agents_by_owner capped owner none
    ≡ ok
        (if 2 == 0 then [] else ids_of (logs_of emitted (or_zero none) (25_000 + 1 - or_zero none)))
find_agents_by_owner-logs_of_example =
    find_agents_by_owner-logs_of capped owner emitted 25_000 2 none refl (inr (refl, capped-Serves))

no_event :
    register_agent capped (λ _. some (b'h' ∷ [])) []
    ≡ err (no_registered_event (b'h' ∷ []) (b'r' ∷ []))
unfolding register_agent
no_event = refl
