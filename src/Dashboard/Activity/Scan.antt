-- ===== src/Dashboard/Activity/Scan.antt =====
-- The scan of the activity against the blocks of the chain.
use mathlib.Core.List.{append-nil, append_assoc, reverse}
use coalition.Blocks.{chunk_end, chunk_end_bounds, logs_of, logs_of_rest, logs_of_past}
use coalition.Base.{
  ℕ, zero, suc, ◌+◌, ◌-◌, ◌≤◌, ◌<◌, ◌≡◌, refl, sym, ap, ◌∙◌, inl, inr, List, [], ◌∷◌, ◌++◌, arith,
  text, leb, ◌==◌, Bool-cases, ok,
}
use coalition.Dashboard.Attempts.{with_timeout}
use coalition.Dashboard.Activity.{
  PoolLog, ActivityEvent, ActivityClient, get_activity_chunk, events_of, scan_activity, merge_legs,
  read_activity,
}

events_of-append : (xs ys : List PoolLog) → events_of (xs ++ ys) ≡ events_of xs ++ events_of ys
unfolding events_of
events_of-append [] ys = refl
events_of-append (x ∷ xs) ys =
    rw (events_of-append xs ys) (sym (append_assoc _ (events_of xs) (events_of ys)))

-- What the range-capped endpoint answers, within the retries: the logs of the blocks asked for, where
-- they are at most 10,001 and none lies past the latest.
abbrev pub Serves : ActivityClient → (ℕ → List PoolLog) → ℕ → Type 0
Serves client emitted latest =
    (first last : ℕ)
    → first ≤ last
    → last ≤ first + 10_000
    → last ≤ latest
    → get_activity_chunk client first last ≡ ok (logs_of emitted first (last + 1 - first))

module _ (client : ActivityClient) (emitted : ℕ → List PoolLog) (latest : ℕ)
    (serves : Serves client emitted latest) where
  none_past :
      (cursor : ℕ) (events : List ActivityEvent)
      → latest < cursor
      → events ++ events_of (logs_of emitted cursor (latest + 1 - cursor)) ≡ events
  unfolding events_of
  none_past cursor events h =
      ap (λ (l : List PoolLog). events ++ events_of l)
        (logs_of_past emitted cursor latest (omega arith))
      ∙ append-nil events

  rest_of :
      (cursor last : ℕ)
      → cursor ≤ last
      → last ≤ latest
      → events_of (logs_of emitted cursor (last + 1 - cursor))
          ++ events_of (logs_of emitted (last + 1) (latest + 1 - (last + 1)))
        ≡ events_of (logs_of emitted cursor (latest + 1 - cursor))
  rest_of cursor last h k = sym (
      ap events_of (logs_of_rest emitted cursor last latest h k)
      ∙ events_of-append (logs_of emitted cursor (last + 1 - cursor)) _)

  scan_activity_all :
      (fuel cursor : ℕ) (events : List ActivityEvent)
      → latest + 1 - cursor < fuel
      → scan_activity fuel client latest cursor events
        ≡ ok (events ++ events_of (logs_of emitted cursor (latest + 1 - cursor)))
  unfolding scan_activity
  scan_activity_all zero cursor events h = elim h [ ]
  scan_activity_all (suc fuel) cursor events h = elim (Bool-cases (leb cursor latest)) [
    | inr past ↦ rw past (ap ok (sym (none_past cursor events (ground arith))))
    | inl inside ↦
        let (low, wide, high) = chunk_end_bounds cursor latest (ground arith) in
        let last : ℕ = chunk_end cursor latest in
        let logs : List PoolLog = logs_of emitted cursor (last + 1 - cursor) in
        rw (inside, serves cursor last low wide high)
          (elim (Bool-cases (last == latest)) [
            | inl final ↦ rw final (
                ap (λ (t : ℕ). ok (events ++ events_of (logs_of emitted cursor (t + 1 - cursor))))
                  (ground arith))
            | inr more ↦
                let next : cursor + 10_000 + 1 ≡ last + 1 = ground arith in
                rw more (
                  ap (λ (t : ℕ). scan_activity fuel client latest t (events ++ events_of logs)) next
                  ∙ scan_activity_all fuel (last + 1) (events ++ events_of logs) (ground arith)
                  ∙ ap ok (
                      append_assoc events (events_of logs) _
                      ∙ ap (λ (l : List ActivityEvent). events ++ l)
                          (rest_of cursor last low high)))
          ])
  ]

  -- Where the latest block's number is read, on an endpoint that serves ranges of at most 10,001
  -- blocks within the retries, the scan ends, and the activity is that of exactly the logs from
  -- the deploy block to the latest, block by block and each once, with the legs of an event
  -- merged, newest first.
  pub read_activity-logs_of :
      (deploy_block : ℕ)
      → with_timeout client.get_block_number 10_000 (text "chain getBlockNumber") ≡ ok latest
      → read_activity client deploy_block
        ≡ ok (
            reverse (
              merge_legs [] (events_of (logs_of emitted deploy_block (latest + 1 - deploy_block)))))
  unfolding read_activity
  read_activity-logs_of deploy_block h =
      rw (h, scan_activity_all (latest + 2) deploy_block [] (omega arith))
