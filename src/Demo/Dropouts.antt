-- ===== src/Demo/Dropouts.antt =====
-- Which reviewer's feedback carries a dropout of an agent.
use coalition.Base.{
  ℕ, zero, suc, ◌+◌, ◌<◌, ◌≡◌, ◌↔◌, ◌⊎◌, refl, sym, ap, ◌∙◌, inl, inr, true, false, some, List, [],
  ◌∷◌, arith, Text, Bool-cases, Result-cases, ok, err,
}
use coalition.Reputation.{FeedbackEntry, ReputationError, ReputationClient, read_feedback}
use coalition.Demo.{is_dropout_entry, reviewer_drops, find_dropout_client}

module _ (client : ReputationClient) (agent_id : ℕ) where
  abbrev pub IsReadable : Text → ℕ → Type 0
  IsReadable reviewer index =
      (entry : FeedbackEntry) × (read_feedback client agent_id reviewer index ≡ ok entry)

  abbrev pub AllReadable : Text → ℕ → ℕ → Type 0
  AllReadable reviewer index zero = Unit
  AllReadable reviewer index (suc count) =
      IsReadable reviewer index × AllReadable reviewer (suc index) count

  -- Of the `left` entries from the index on, one is a dropout and all before it can be read.
  abbrev pub Drops : Text → ℕ → ℕ → Type 0
  Drops reviewer left index =
      (count : ℕ) × (count < left)
      × AllReadable reviewer index count
      × ((entry : FeedbackEntry) × (read_feedback client agent_id reviewer (index + count)
            ≡ ok entry)
          × (is_dropout_entry entry ≡ true))

  -- The entries of the reviewer that are scanned, from the first on, show a dropout.
  abbrev pub HasDropout : ℕ → Text → Type 0
  HasDropout max reviewer = Drops reviewer max 1

  -- A turn of the scan, by what the entry shows.
  on_unreadable :
      (reviewer : Text) (left index : ℕ) {e : ReputationError}
      → read_feedback client agent_id reviewer index ≡ err e
      → reviewer_drops client agent_id reviewer (suc left) index ≡ false
  unfolding reviewer_drops
  on_unreadable reviewer left index h = rw (h, reviewer_drops) refl

  on_other :
      (reviewer : Text) (left index : ℕ) {entry : FeedbackEntry}
      → read_feedback client agent_id reviewer index ≡ ok entry
      → is_dropout_entry entry ≡ false
      → reviewer_drops client agent_id reviewer (suc left) index
        ≡ reviewer_drops client agent_id reviewer left (suc index)
  unfolding reviewer_drops
  on_other reviewer left index h k = rw (h, k, reviewer_drops) refl

  one_later :
      (reviewer : Text) (left index : ℕ)
      → IsReadable reviewer index
      → Drops reviewer left (suc index)
      → Drops reviewer (suc left) index
  one_later reviewer left index readable (count, less, all_readable, (entry, e, d)) = (
    suc count,
    omega arith,
    (readable, all_readable),
    (entry, ap (λ (k : ℕ). read_feedback client agent_id reviewer k) (omega arith) ∙ e, d),
  )

  drops :
      (reviewer : Text) (left index : ℕ)
      → reviewer_drops client agent_id reviewer left index ≡ true
      → Drops reviewer left index
  unfolding reviewer_drops
  drops reviewer zero index h = cc
  drops reviewer (suc left) index h =
      elim (Result-cases (read_feedback client agent_id reviewer index)) [
        | inr (e, unread) ↦ let none_yet = on_unreadable reviewer left index unread in cc
        | inl (entry, read) ↦ elim (Bool-cases (is_dropout_entry entry)) [
          | inl at_once ↦ (
            0,
            omega arith,
            tt,
            (
              entry,
              ap (λ (k : ℕ). read_feedback client agent_id reviewer k) (omega arith) ∙ read,
              at_once,
            ),
          )
          | inr other ↦
              one_later reviewer left index (entry, read)
                (drops reviewer left (suc index)
                  (sym (on_other reviewer left index read other) ∙ h))
        ]
      ]

  of_Drops :
      (reviewer : Text) (left index : ℕ)
      → Drops reviewer left index
      → reviewer_drops client agent_id reviewer left index ≡ true
  unfolding reviewer_drops
  of_Drops reviewer zero index (count, less, readable, d) = absurd (omega arith)
  of_Drops reviewer (suc left) index (zero, less, readable, (entry, e, d)) =
      let e' : read_feedback client agent_id reviewer index ≡ ok entry =
        ap (λ (k : ℕ). read_feedback client agent_id reviewer k) (omega arith) ∙ e in
      rw (e', d, reviewer_drops) refl
  of_Drops reviewer (suc left) index (suc count, less, ((entry, e), readable), (found, f, d)) =
      elim (Bool-cases (is_dropout_entry entry)) [
        | inl at_once ↦ rw (e, at_once, reviewer_drops) refl
        | inr later ↦
            let f' : read_feedback client agent_id reviewer (suc index + count) ≡ ok found =
              ap (λ (k : ℕ). read_feedback client agent_id reviewer k) (omega arith) ∙ f in
            on_other reviewer left index e later
            ∙ of_Drops reviewer left (suc index) (count, omega arith, readable, (found, f', d))
      ]

  -- The first of the reviewers whose entries show a dropout.
  abbrev pub IsFirst : ℕ → Text → List Text → Type 0
  IsFirst max reviewer [] = ⊥
  IsFirst max reviewer (other ∷ others) =
      (HasDropout max other × (other ≡ reviewer))
      ⊎ ((¬ HasDropout max other) × IsFirst max reviewer others)

  no-Drops :
      (reviewer : Text) (left index : ℕ)
      → reviewer_drops client agent_id reviewer left index ≡ false
      → ¬ Drops reviewer left index
  no-Drops reviewer left index h d = let found = of_Drops reviewer left index d in cc

  some_injective : {a b : Text} → some a ≡ some b → a ≡ b
  some_injective h = cc

  IsFirst-found :
      (max : ℕ) (reviewer : Text) (reviewers : List Text)
      → find_dropout_client client agent_id reviewers max ≡ some reviewer
      → IsFirst max reviewer reviewers
  unfolding find_dropout_client
  IsFirst-found max reviewer [] h = cc
  IsFirst-found max reviewer (other ∷ others) h =
      elim (Bool-cases (reviewer_drops client agent_id other max 1)) [
        | inl found ↦ inl (drops other max 1 found, some_injective (sym (rw found refl) ∙ h))
        | inr missed ↦ inr (
          no-Drops other max 1 missed,
          IsFirst-found max reviewer others (sym (rw missed refl) ∙ h),
        )
      ]

  of_first :
      (max : ℕ) (reviewer : Text) (reviewers : List Text)
      → IsFirst max reviewer reviewers
      → find_dropout_client client agent_id reviewers max ≡ some reviewer
  unfolding find_dropout_client
  of_first max reviewer [] h = absurd h
  of_first max reviewer (other ∷ others) (inl (found, same)) =
      rw (of_Drops other max 1 found) (ap some same)
  of_first max reviewer (other ∷ others) (inr (clean, rest)) =
      elim (Bool-cases (reviewer_drops client agent_id other max 1)) [
        | inl found ↦ absurd (clean (drops other max 1 found))
        | inr missed ↦ rw missed (of_first max reviewer others rest)
      ]

  -- The scan of an agent's feedback names a reviewer exactly if that is the first, in the order given,
  -- with a dropout among its entries from 1 to the maximum, before any that cannot be read.
  pub find_dropout_client-IsFirst :
      (max : ℕ) (reviewer : Text) (reviewers : List Text)
      → (find_dropout_client client agent_id reviewers max ≡ some reviewer)
        ↔ IsFirst max reviewer reviewers
  find_dropout_client-IsFirst max reviewer reviewers =
      (IsFirst-found max reviewer reviewers, of_first max reviewer reviewers)
