-- ===== src/Discovery/Dedupe.antt =====
-- A list that is built without repeating a key: the set `seen` and the array `out` of the source.
use coalition.Base.{Bool, true, false, ◌||◌, List, [], ◌∷◌, ◌++◌, Text, text_eq, if◌then◌else◌}

-- `Set.prototype.has`
unfoldable pub has : Text → List Text → Bool
has key [] = false
has key (k ∷ keys) = text_eq k key || has key keys

pub record Seen (A : Type 0) : Type 0 where
  pub keys : List Text
  pub out : List A

abbrev pub nothing_seen : {A : Type 0} → Seen A
nothing_seen = record { keys = []; out = [] }

-- `if (seen.has(key)) continue; seen.add(key); out.push(x);`
unfoldable pub push : {A : Type 0} → (A → Text) → A → Seen A → Seen A
push key x s =
    if has (key x) s.keys then s else record { keys = key x ∷ s.keys; out = s.out ++ x ∷ [] }

abbrev pub is_nil : {A : Type 0} → List A → Bool
is_nil [] = true
is_nil (_ ∷ _) = false
