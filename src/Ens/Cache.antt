-- ===== src/Ens/Cache.antt =====
-- `createEnsLabelCache` of sdk/src/ens/client.ts: a `Map` by label hash, as the list of its entries.
use coalition.Base.{
  ℕ, ◌+◌, ◌≡◌, refl, sym, ap, ◌∙◌, inl, inr, Bool, true, false, Option, none, some, List, [], ◌∷◌,
  arith, Text, text_eq, text_eq_iff, if◌then◌else◌, Bool-cases, length,
}

module _ {T : Type 0} (labelhash : Text → Text) where
  unfoldable pub find : Text → List (Text × T) → Option T
  find hash [] = none
  find hash ((key, value) ∷ inner) =
      let rest = find hash inner in if text_eq key hash then some value else rest

  -- `Map.prototype.set`: a key that is there keeps its place.
  unfoldable pub put : Text → T → List (Text × T) → List (Text × T)
  put hash value [] = (hash, value) ∷ []
  put hash value ((key, old) ∷ inner) =
      let rest = put hash value inner in
      if text_eq key hash then (key, value) ∷ inner else (key, old) ∷ rest

  abbrev pub create_ens_label_cache : List (Text × T)
  create_ens_label_cache = []

  abbrev pub get : Text → List (Text × T) → Option T
  get label inner = find (labelhash label) inner

  abbrev pub set : Text → T → List (Text × T) → List (Text × T)
  set label value inner = put (labelhash label) value inner

  abbrev pub clear : List (Text × T) → List (Text × T)
  clear inner = []

  abbrev pub size : List (Text × T) → ℕ
  size inner = length inner

  -- A key that is not the hash is another's.
  keeps :
      (key hash hash' : Text) (old value : T) (b : Bool)
      → text_eq hash hash' ≡ b
      → text_eq key hash' ≡ true
      → text_eq key hash ≡ false
      → some old ≡ (if b then some value else some old)
  keeps key hash hash' old value true e hit other =
      absurd (ground (arith, text_eq_iff key hash', text_eq_iff hash hash', text_eq_iff key hash))
  keeps key hash hash' old value false e hit other = refl

  find-put :
      (hash hash' : Text) (value : T) (inner : List (Text × T))
      → find hash' (put hash value inner)
        ≡ (if text_eq hash hash' then some value else find hash' inner)
  unfolding find put
  find-put hash hash' value [] = refl
  find-put hash hash' value ((key, old) ∷ inner) = elim (Bool-cases (text_eq key hash)) [
    | inl same ↦
        let e : key ≡ hash = (text_eq_iff key hash).0 same in
        rw same (elim (Bool-cases (text_eq key hash')) [
          | inl hit ↦
              let hit' : text_eq hash hash' ≡ true = ap (λ k. text_eq k hash') (sym e) ∙ hit in
              rw (hit, hit')
          | inr miss ↦
              let miss' : text_eq hash hash' ≡ false = ap (λ k. text_eq k hash') (sym e) ∙ miss in
              rw (miss, miss')
        ])
    | inr other ↦ rw other (elim (Bool-cases (text_eq key hash')) [
      | inr miss ↦ rw miss (find-put hash hash' value inner)
      | inl hit ↦ rw hit (keeps key hash hash' old value (text_eq hash hash') refl hit other)
    ])
  ]

  abbrev pub grown : Option T → ℕ
  grown none = 1
  grown (some old) = 0

  length-put :
      (hash : Text) (value : T) (inner : List (Text × T))
      → length (put hash value inner) ≡ length inner + grown (find hash inner)
  unfolding find put
  length-put hash value [] = refl
  length-put hash value ((key, old) ∷ inner) = elim (Bool-cases (text_eq key hash)) [
    | inl same ↦ rw same (omega arith)
    | inr other ↦ rw other (omega (arith, length-put hash value inner))
  ]

  -- After `set`, `get` gives the value under every label with the same hash and what it gave before under
  -- any other, and the cache is one larger exactly if no label with that hash was there.
  pub get-set :
      (label label' : Text) (value : T) (cache : List (Text × T))
      → (get label' (set label value cache)
          ≡ (if text_eq (labelhash label) (labelhash label') then some value else get label' cache))
        × (size (set label value cache) ≡ size cache + grown (get label cache))
  get-set label label' value cache = (
    find-put (labelhash label) (labelhash label') value cache,
    length-put (labelhash label) value cache,
  )
