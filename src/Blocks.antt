-- ===== src/Blocks.antt =====
-- The blocks of the chain that a log scan covers, range by range: `findAgentsByOwner` of
-- sdk/src/identity/client.ts and `readActivity` of app/lib/pool-state.ts ask for ranges of the same size.
use mathlib.Core.List.{append_assoc}
use coalition.Base.{
  ℕ, zero, suc, ◌+◌, ◌-◌, ◌≤◌, ◌≡◌, sym, ap, ◌∙◌, List, [], ◌++◌, arith, ltb, if◌then◌else◌,
}

-- The upper end of a chunk of 10,000 blocks from the cursor.
abbrev pub chunk_end : ℕ → ℕ → ℕ
chunk_end cursor latest = if ltb latest (cursor + 10_000) then latest else cursor + 10_000

pub chunk_end_bounds :
    (cursor latest : ℕ)
    → cursor ≤ latest
    → (cursor ≤ chunk_end cursor latest)
      × (chunk_end cursor latest ≤ cursor + 10_000)
      × (chunk_end cursor latest ≤ latest)
chunk_end_bounds cursor latest h = ground arith

module _ {A : Type 0} (emitted : ℕ → List A) where
  -- The logs of `count` blocks from the block `first` on, where `emitted` gives those of one block.
  unfoldable pub logs_of : ℕ → ℕ → List A
  logs_of first zero = []
  logs_of first (suc count) = emitted first ++ logs_of (suc first) count

  pub logs_of-add :
      (first m n : ℕ) → logs_of first (m + n) ≡ logs_of first m ++ logs_of (first + m) n
  unfolding logs_of
  logs_of-add first zero n =
      ap (logs_of first) (omega arith) ∙ ap (λ (k : ℕ). logs_of k n) (omega arith)
  logs_of-add first (suc m) n =
      let e : suc m + n ≡ suc (m + n) = omega arith in
      let f : first + suc m ≡ suc first + m = omega arith in
      rw (e, logs_of)
        (rw (logs_of-add (suc first) m n, f)
          (sym (append_assoc (emitted first) (logs_of (suc first) m) (logs_of (suc first + m) n))))

  -- The logs up to the end of a chunk, and those behind it.
  pub logs_of_rest :
      (cursor last latest : ℕ)
      → cursor ≤ last
      → last ≤ latest
      → logs_of cursor (latest + 1 - cursor)
        ≡ logs_of cursor (last + 1 - cursor) ++ logs_of (last + 1) (latest + 1 - (last + 1))
  logs_of_rest cursor last latest h k =
      let m : ℕ = last + 1 - cursor in
      let n : ℕ = latest + 1 - (last + 1) in
      let e : latest + 1 - cursor ≡ m + n = omega arith in
      let f : cursor + m ≡ last + 1 = omega arith in
      ap (logs_of cursor) e
      ∙ logs_of-add cursor m n
      ∙ ap (λ (t : ℕ). logs_of cursor m ++ logs_of t n) f

  pub logs_of_past :
      (cursor latest : ℕ) → latest + 1 ≤ cursor → logs_of cursor (latest + 1 - cursor) ≡ []
  unfolding logs_of
  logs_of_past cursor latest h =
      let e : latest + 1 - cursor ≡ 0 = omega arith in ap (logs_of cursor) e
