-- ===== src/Fund/Sorting.antt =====
-- The sort of the slots: the order in which distinct slots come does not matter to it.
use mathlib.Core.List.Permᴰ.{Permᴰ, nil, cons, swap, trans}
use coalition.Base.{ℕ, ◌+◌, ◌≤◌, ◌≡◌, ◌≢◌, refl, ap, ◌∙◌, List, [], ◌∷◌, arith, ◌==◌, if◌then◌else◌}
use coalition.Fund.{Slot}
use coalition.Fund.Execute.{insert_slot, sort_slots}

unfoldable pub count : ℕ → List Slot → ℕ
count k [] = 0
count k (slot ∷ slots) = (if slot.index == k then 1 else 0) + count k slots

abbrev pub AreDistinct : List Slot → Type 0
AreDistinct slots = (k : ℕ) → count k slots ≤ 1

count-perm : {xs ys : List Slot} (k : ℕ) → Permᴰ xs ys → count k xs ≡ count k ys
unfolding count
count-perm k nil = refl
count-perm k (cons e d) = grind (arith, ap (λ (s : Slot). s.index) e, count-perm k d)
count-perm k (swap e f) = grind (arith, ap (λ (s : Slot). s.index) e, ap (λ (s : Slot). s.index) f)
count-perm k (trans d₁ d₂) = count-perm k d₁ ∙ count-perm k d₂

insert_slot_swap :
    (a b : Slot) (slots : List Slot)
    → a.index ≢ b.index
    → insert_slot a (insert_slot b slots) ≡ insert_slot b (insert_slot a slots)
unfolding insert_slot
insert_slot_swap a b [] h = ground arith
insert_slot_swap a b (c ∷ slots) h = ground (arith, insert_slot_swap a b slots h)

pub sort_slots-perm :
    {xs ys : List Slot} → Permᴰ xs ys → AreDistinct xs → sort_slots xs ≡ sort_slots ys
unfolding sort_slots count
sort_slots-perm nil h = refl
sort_slots-perm (cons {b = b} {l₁ = xs} e d) h =
    ap (λ s. insert_slot s (sort_slots xs)) e
    ∙ ap (insert_slot b) (sort_slots-perm d (λ k. ground (arith, h k)))
sort_slots-perm (swap {a = a} {b = b} {a' = a'} {l = l} e f) h =
    insert_slot_swap a b (sort_slots l) (λ same. ground (arith, h a.index))
    ∙ ap (λ s. insert_slot s (insert_slot a (sort_slots l))) f
    ∙ ap (λ s. insert_slot a' (insert_slot s (sort_slots l))) e
sort_slots-perm (trans d₁ d₂) h =
    sort_slots-perm d₁ h ∙ sort_slots-perm d₂ (λ k. omega (arith, h k, count-perm k d₁))
