-- ===== src/Base/Results.antt =====
-- What a call that may throw gives: a value, or the error that it throws.
use mathlib.Core.Path.{◌≡◌, refl}
use mathlib.Core.Logic.{◌⊎◌, inl, inr}
use mathlib.Core.Bool.{Bool, true, false, not}
use mathlib.Core.List.{List, [], ◌∷◌}

pub data Result {ℓ κ} (E : Type ℓ) (A : Type κ) : Type (ℓ ⊔ κ) where
  ok : A → Result E A
  err : E → Result E A

module _ {ℓ} {E : Type ℓ} where
  -- `if (test) throw e;`
  abbrev pub throw_if : Bool → E → Result E (Unit {0})
  throw_if true thrown = err thrown
  throw_if false _ = ok tt

  -- What comes after a call that may throw.
  infixl 5 ◌>>=◌
  abbrev pub ◌>>=◌ {κ μ} : {A : Type κ} {B : Type μ} → Result E A → (A → Result E B) → Result E B
  err thrown >>= next = err thrown
  ok value >>= next = next value

  infixl 5 ◌>>◌
  abbrev pub ◌>>◌ {κ} : {B : Type κ} → Result E (Unit {0}) → Result E B → Result E B
  check >> next = check >>= λ (_ : Unit {0}). next

  pub >>=-eq-ok {κ μ} :
      {A : Type κ} {B : Type μ} (call : Result E A) (next : A → Result E B) {result : B}
      → (call >>= next) ≡ ok result
      → (value : A) × (call ≡ ok value) × (next value ≡ ok result)
  >>=-eq-ok (err thrown) next h = cc
  >>=-eq-ok (ok value) next h = (value, refl, h)

  pub throw_if-eq-ok : (c : Bool) (e : E) (u : Unit {0}) → throw_if c e ≡ ok u → c ≡ false
  throw_if-eq-ok true e u h = cc
  throw_if-eq-ok false e u h = refl

  pub throw_if-not-eq-ok : (c : Bool) (e : E) (u : Unit {0}) → throw_if (not c) e ≡ ok u → c ≡ true
  throw_if-not-eq-ok true e u h = refl
  throw_if-not-eq-ok false e u h = cc

  pub Result-cases {κ} :
      {A : Type κ} (m : Result E A) → ((a : A) × (m ≡ ok a)) ⊎ ((e : E) × (m ≡ err e))
  Result-cases (ok a) = inl (a, refl)
  Result-cases (err e) = inr (e, refl)

  pub ok-injective {κ} : {A : Type κ} {a b : A} → ◌≡◌ {A = Result E A} (ok a) (ok b) → a ≡ b
  ok-injective h = cc

  -- `xs.map(f)` where `f` may throw: the first error ends the loop.
  unfoldable pub map_result {κ μ} :
      {A : Type κ} {B : Type μ} → (A → Result E B) → List A → Result E (List B)
  map_result f [] = ok []
  map_result f (x ∷ xs) = f x >>= λ y. map_result f xs >>= λ ys. ok (y ∷ ys)

-- Two lists that agree entry by entry.
pub data Zipped {κ μ ν} {A : Type κ} {B : Type μ} (R : A → B → Type ν)
    : List A → List B → Type (κ ⊔ μ ⊔ ν) where
  done : Zipped R [] []
  both :
      {x : A} {y : B} {xs : List A} {ys : List B}
      → R x y
      → Zipped R xs ys
      → Zipped R (x ∷ xs) (y ∷ ys)

-- `map_result` succeeds exactly if every entry does: no partial result.
module _ {ℓ κ μ ν} {E : Type ℓ} {A : Type κ} {B : Type μ} (f : A → Result E B)
    (R : A → B → Type ν) where
  pub Zipped-of_map_result :
      ((x : A) (y : B) → f x ≡ ok y → R x y)
      → (xs : List A) (ys : List B) → map_result f xs ≡ ok ys
      → Zipped R xs ys
  unfolding map_result
  Zipped-of_map_result sound [] [] h = done
  Zipped-of_map_result sound [] (y ∷ ys) h = cc
  Zipped-of_map_result sound (x ∷ xs) ys h =
      let (y, p, h₁) = >>=-eq-ok (f x) _ h in
      let (zs, q, h₂) = >>=-eq-ok (map_result f xs) _ h₁ in
      rw (← ok-injective h₂) (both (sound x y p) (Zipped-of_map_result sound xs zs q))

  pub map_result_of_Zipped :
      ((x : A) (y : B) → R x y → f x ≡ ok y)
      → (xs : List A) (ys : List B) → Zipped R xs ys
      → map_result f xs ≡ ok ys
  unfolding map_result
  map_result_of_Zipped complete [] [] done = refl
  map_result_of_Zipped complete [] (y ∷ ys) z = elim z [ ]
  map_result_of_Zipped complete (x ∷ xs) [] z = elim z [ ]
  map_result_of_Zipped complete (x ∷ xs) (y ∷ ys) (both r rest) =
      rw (complete x y r, map_result_of_Zipped complete xs ys rest)
