-- ===== src/Subgraph/Tables.antt =====
-- A table of entities by their id.
use coalition.Base.{
  ◌≡◌, refl, Option, none, some, List, [], ◌∷◌, arith, Text, text_eq, text_eq_iff, if◌then◌else◌,
}

abbrev pub Table {ℓ} : Type ℓ → Type ℓ
Table V = List (Text × V)

module _ {ℓ} {V : Type ℓ} where
  unfoldable pub load : Text → Table V → Option V
  load id [] = none
  load id ((key, v) ∷ t) = if text_eq key id then some v else load id t

  unfoldable pub save : Text → V → Table V → Table V
  save id v [] = (id, v) ∷ []
  save id v ((key, w) ∷ t) = if text_eq key id then (id, v) ∷ t else (key, w) ∷ save id v t

  -- What is saved under an id is what is loaded, and no other entity changes.
  pub load-save :
      (id j : Text) (v : V) (t : Table V)
      → load j (save id v t) ≡ (if text_eq id j then some v else load j t)
  unfolding load save
  load-save id j v [] = refl
  load-save id j v ((key, w) ∷ t) =
      ground (arith, text_eq_iff id j, text_eq_iff key id, text_eq_iff key j, load-save id j v t)
