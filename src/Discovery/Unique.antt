-- ===== src/Discovery/Unique.antt =====
-- The set-and-array loop against the list of first occurrences.
use mathlib.Core.List.{append-nil, append_assoc}
use coalition.Base.{
  ◌≡◌, sym, ap, ◌∙◌, inl, inr, true, false, List, [], ◌∷◌, ◌++◌, Text, if◌then◌else◌, Bool-cases,
}
use coalition.Discovery.{has, Seen, push}

module _ {A : Type 0} (key : A → Text) where
  -- The entries whose key is not listed, each key once, at its first occurrence.
  unfoldable pub firsts_after : List Text → List A → List A
  firsts_after keys [] = []
  firsts_after keys (x ∷ xs) =
      let skipped = firsts_after keys xs in
      let kept = x ∷ firsts_after (key x ∷ keys) xs in if has (key x) keys then skipped else kept

  -- `push` in a loop.
  unfoldable pub push_all : List A → Seen A → Seen A
  push_all [] s = s
  push_all (x ∷ xs) s = push_all xs (push key x s)

  push_old : (x : A) (s : Seen A) → has (key x) s.keys ≡ true → push key x s ≡ s
  unfolding push
  push_old x s h = rw h

  push_new :
      (x : A) (s : Seen A)
      → has (key x) s.keys ≡ false
      → push key x s ≡ record { keys = key x ∷ s.keys; out = s.out ++ x ∷ [] }
  unfolding push
  push_new x s h = rw h

  pub push_all-firsts :
      (xs : List A) (s : Seen A) → (push_all xs s).out ≡ s.out ++ firsts_after s.keys xs
  unfolding push_all firsts_after
  push_all-firsts [] s = sym (append-nil s.out)
  push_all-firsts (x ∷ xs) s = elim (Bool-cases (has (key x) s.keys)) [
    | inl old ↦
        ap (λ (t : Seen A). (push_all xs t).out) (push_old x s old) ∙ rw old (push_all-firsts xs s)
    | inr new ↦
        ap (λ (t : Seen A). (push_all xs t).out) (push_new x s new)
        ∙ rw new (
            push_all-firsts xs (record { keys = key x ∷ s.keys; out = s.out ++ x ∷ [] })
            ∙ append_assoc s.out (x ∷ []) (firsts_after (key x ∷ s.keys) xs))
  ]

  -- No entry has a listed key, and no two entries have the same key.
  abbrev pub HasKeysOutside : List Text → List A → Type 0
  HasKeysOutside keys [] = Unit
  HasKeysOutside keys (x ∷ xs) = (has (key x) keys ≡ false) × HasKeysOutside (key x ∷ keys) xs

  pub firsts_after-HasKeysOutside :
      (keys : List Text) (xs : List A) → HasKeysOutside keys (firsts_after keys xs)
  unfolding firsts_after
  firsts_after-HasKeysOutside keys [] = tt
  firsts_after-HasKeysOutside keys (x ∷ xs) = elim (Bool-cases (has (key x) keys)) [
    | inl old ↦ rw old (firsts_after-HasKeysOutside keys xs)
    | inr new ↦ rw new (new, firsts_after-HasKeysOutside (key x ∷ keys) xs)
  ]
