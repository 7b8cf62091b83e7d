-- ===== src/Identity/Scan.antt =====
-- The chunked log scan against the blocks of the chain.
use mathlib.Core.List.{append-nil, append_assoc}
use coalition.Base.{
  ℕ, zero, suc, ◌+◌, ◌-◌, ◌≤◌, ◌<◌, ◌≡◌, ◌⊎◌, refl, sym, ap, ◌∙◌, inl, inr, Option, none, some,
  List, [], ◌∷◌, ◌++◌, arith, Text, leb, ◌==◌, if◌then◌else◌, Bool-cases, ok,
}
use coalition.Blocks.{chunk_end, chunk_end_bounds, logs_of, logs_of_rest, logs_of_past}
use coalition.Identity.{RegistryClient, ids_of, scan_chunks, or_zero, find_agents_by_owner}

ids_of-append : (xs ys : List (Option ℕ)) → ids_of (xs ++ ys) ≡ ids_of xs ++ ids_of ys
unfolding ids_of
ids_of-append [] ys = refl
ids_of-append (none ∷ xs) ys = ids_of-append xs ys
ids_of-append (some id ∷ xs) ys = ap (λ (l : List ℕ). id ∷ l) (ids_of-append xs ys)

-- What the range-capped endpoint answers: the logs of the blocks asked for, where they are at most
-- 10,001 and none lies past the latest.
abbrev pub Serves : RegistryClient → Text → (ℕ → List (Option ℕ)) → ℕ → Type 0
Serves client owner emitted latest =
    (first last : ℕ)
    → first ≤ last
    → last ≤ first + 10_000
    → last ≤ latest
    → client.get_contract_events owner first last ≡ some (logs_of emitted first (last + 1 - first))

module _ (client : RegistryClient) (owner : Text) (emitted : ℕ → List (Option ℕ)) (latest : ℕ)
    (serves : Serves client owner emitted latest) where
  rest_of :
      (cursor last : ℕ)
      → cursor ≤ last
      → last ≤ latest
      → ids_of (logs_of emitted cursor (last + 1 - cursor))
          ++ ids_of (logs_of emitted (last + 1) (latest + 1 - (last + 1)))
        ≡ ids_of (logs_of emitted cursor (latest + 1 - cursor))
  rest_of cursor last h k = sym (
      ap ids_of (logs_of_rest emitted cursor last latest h k)
      ∙ ids_of-append (logs_of emitted cursor (last + 1 - cursor)) _)

  none_past :
      (cursor : ℕ) (ids : List ℕ)
      → latest < cursor
      → ids ++ ids_of (logs_of emitted cursor (latest + 1 - cursor)) ≡ ids
  unfolding ids_of
  none_past cursor ids h =
      ap (λ (l : List (Option ℕ)). ids ++ ids_of l)
        (logs_of_past emitted cursor latest (omega arith))
      ∙ append-nil ids

  scan_chunks_all :
      (fuel cursor : ℕ) (ids : List ℕ)
      → latest + 1 - cursor < fuel
      → scan_chunks fuel client owner latest cursor ids
        ≡ ok (ids ++ ids_of (logs_of emitted cursor (latest + 1 - cursor)))
  unfolding scan_chunks
  scan_chunks_all zero cursor ids h = elim h [ ]
  scan_chunks_all (suc fuel) cursor ids h = elim (Bool-cases (leb cursor latest)) [
    | inl inside ↦
        let (low, wide, high) = chunk_end_bounds cursor latest (ground arith) in
        let last : ℕ = chunk_end cursor latest in
        let logs : List (Option ℕ) = logs_of emitted cursor (last + 1 - cursor) in
        rw (inside, serves cursor last low wide high)
          (elim (Bool-cases (last == latest)) [
            | inl final ↦ rw final (
                ap (λ (t : ℕ). ok (ids ++ ids_of (logs_of emitted cursor (t + 1 - cursor))))
                  (ground arith))
            | inr more ↦ rw more (
                scan_chunks_all fuel (last + 1) (ids ++ ids_of logs) (ground arith)
                ∙ ap ok (
                    append_assoc ids (ids_of logs) _
                    ∙ ap (λ (l : List ℕ). ids ++ l) (rest_of cursor last low high)))
          ])
    | inr past ↦ rw past (ap ok (sym (none_past cursor ids (ground arith))))
  ]

-- For a wallet that owns an agent, on an endpoint that serves ranges of at most 10,001 blocks, the
-- scan ends and returns the ids of exactly the logs from the start block to the latest, block by
-- block and each once. For a wallet that owns none the result has no id, also where the endpoint
-- gives no block number and no logs.
pub find_agents_by_owner-logs_of :
    (client : RegistryClient) (owner : Text) (emitted : ℕ → List (Option ℕ)) (latest balance : ℕ)
    (from_block : Option ℕ)
    → client.balance_of owner ≡ some balance
    → (balance ≡ 0) ⊎ ((client.get_block_number ≡ some latest) × Serves client owner emitted latest)
    → let start = or_zero from_block in
      find_agents_by_owner client owner from_block
      ≡ ok (if balance == 0 then [] else ids_of (logs_of emitted start (latest + 1 - start)))
unfolding find_agents_by_owner
find_agents_by_owner-logs_of client owner emitted latest balance from_block h (inl nothing) =
    rw (h, nothing) refl
find_agents_by_owner-logs_of client owner emitted latest balance from_block h (inr (k, serves)) =
    rw h (elim (Bool-cases (balance == 0)) [
      | inl nothing ↦ rw nothing
      | inr owns ↦ rw owns (
          simp k (
            scan_chunks_all client owner emitted latest serves (latest + 2) (or_zero from_block) []
              (omega arith)))
    ])
