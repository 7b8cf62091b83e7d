-- ===== src/Dashboard/Activity/Legs.antt =====
-- The legs of an event, merged: one event for each key, tagged with a round where any leg is.
use mathlib.Core.Path.{subst}
use coalition.Base.{
  ◌≡◌, refl, sym, ap, ◌∙◌, inl, inr, Bool, true, false, ◌&&◌, ◌||◌, List, [], ◌∷◌, arith, Text,
  text_eq, text_eq_iff, if◌then◌else◌, Bool-cases,
}
use coalition.Dashboard.Activity.{ActivityEvent, leg_key, is_tagged, put_leg, merge_legs}

-- Whether an event has the key, and whether one with the key carries a round id.
pub has_key : Text → List ActivityEvent → Bool
has_key key [] = false
has_key key (event ∷ events) = text_eq (leg_key event) key || has_key key events

pub has_tagged : Text → List ActivityEvent → Bool
has_tagged key [] = false
has_tagged key (event ∷ events) =
    text_eq (leg_key event) key && is_tagged event || has_tagged key events

-- No two events have one key.
abbrev pub AreUnique : List ActivityEvent → Type 0
AreUnique [] = Unit
AreUnique (event ∷ events) = (has_key (leg_key event) events ≡ false) × AreUnique events

abbrev kept_leg : ActivityEvent → ActivityEvent → ActivityEvent
kept_leg prev event = if is_tagged prev then prev else if is_tagged event then event else prev

kept_key :
    (prev event : ActivityEvent)
    → text_eq (leg_key prev) (leg_key event) ≡ true
    → leg_key (kept_leg prev event) ≡ leg_key prev
kept_key prev event h = elim (Bool-cases (is_tagged prev)) [
  | inl tagged ↦ rw tagged
  | inr bare ↦ elim (Bool-cases (is_tagged event)) [
    | inl tagged ↦ rw (bare, tagged) (sym ((text_eq_iff _ _).0 h))
    | inr both ↦ rw (bare, both)
  ]
]

or_true : (b : Bool) → (b || true) ≡ true
or_true true = refl
or_true false = refl

kept_tagged :
    (prev event : ActivityEvent)
    → is_tagged (kept_leg prev event) ≡ (is_tagged event || is_tagged prev)
kept_tagged prev event = elim (Bool-cases (is_tagged prev)) [
  | inl tagged ↦ rw tagged (tagged ∙ sym (or_true (is_tagged event)))
  | inr bare ↦ elim (Bool-cases (is_tagged event)) [
    | inl tagged ↦ rw (bare, tagged) tagged
    | inr both ↦ rw (bare, both) bare
  ]
]

put_same :
    (event prev : ActivityEvent) (legs : List ActivityEvent)
    → text_eq (leg_key prev) (leg_key event) ≡ true
    → put_leg event (prev ∷ legs) ≡ kept_leg prev event ∷ legs
unfolding put_leg
put_same event prev legs h = rw h

put_other :
    (event prev : ActivityEvent) (legs : List ActivityEvent)
    → text_eq (leg_key prev) (leg_key event) ≡ false
    → put_leg event (prev ∷ legs) ≡ prev ∷ put_leg event legs
unfolding put_leg
put_other event prev legs h = rw h

-- Facts on Booleans.
or_false : (b : Bool) → (b || false) ≡ b
or_false true = refl
or_false false = refl

or_assoc : (a b c : Bool) → (a || (b || c)) ≡ ((a || b) || c)
or_assoc true b c = refl
or_assoc false b c = refl

text_eq_comm : (s t : Text) → text_eq s t ≡ text_eq t s
text_eq_comm s t = ground (arith, text_eq_iff s t, text_eq_iff t s)

or_left_comm : (a b c : Bool) → (a || (b || c)) ≡ (b || (a || c))
or_left_comm true true c = refl
or_left_comm true false c = refl
or_left_comm false true c = refl
or_left_comm false false c = refl

or_absorb : (a b c : Bool) → a ≡ b → (a || c) ≡ (b || (a || c))
or_absorb true b c h = rw (← h)
or_absorb false b c h = rw (← h)

and_or : (k a b c : Bool) → (k && (a || b) || c) ≡ (k && a || (k && b || c))
and_or true true b c = refl
and_or true false b c = refl
and_or false a b c = refl

has_key-put_leg :
    (key : Text) (event : ActivityEvent) (legs : List ActivityEvent)
    → has_key key (put_leg event legs) ≡ (text_eq (leg_key event) key || has_key key legs)
unfolding has_key put_leg
has_key-put_leg key event [] = refl
has_key-put_leg key event (prev ∷ legs) =
    elim (Bool-cases (text_eq (leg_key prev) (leg_key event))) [
      | inl same ↦
          ap (has_key key) (put_same event prev legs same)
          ∙ ap (λ k. text_eq k key || has_key key legs) (kept_key prev event same)
          ∙ or_absorb (text_eq (leg_key prev) key) (text_eq (leg_key event) key) (has_key key legs)
              (ap (λ k. text_eq k key) ((text_eq_iff _ _).0 same))
      | inr other ↦
          ap (has_key key) (put_other event prev legs other)
          ∙ ap (λ b. text_eq (leg_key prev) key || b) (has_key-put_leg key event legs)
          ∙ or_left_comm (text_eq (leg_key prev) key) (text_eq (leg_key event) key)
              (has_key key legs)
    ]

has_tagged-put_leg :
    (key : Text) (event : ActivityEvent) (legs : List ActivityEvent)
    → has_tagged key (put_leg event legs)
      ≡ (text_eq (leg_key event) key && is_tagged event || has_tagged key legs)
unfolding has_tagged put_leg
has_tagged-put_leg key event [] = refl
has_tagged-put_leg key event (prev ∷ legs) =
    elim (Bool-cases (text_eq (leg_key prev) (leg_key event))) [
      | inl same ↦
          let e : leg_key prev ≡ leg_key event = (text_eq_iff _ _).0 same in
          ap (has_tagged key) (put_same event prev legs same)
          ∙ ap (λ k. text_eq k key && is_tagged (kept_leg prev event) || has_tagged key legs)
              (kept_key prev event same ∙ e)
          ∙ ap (λ b. text_eq (leg_key event) key && b || has_tagged key legs)
              (kept_tagged prev event)
          ∙ and_or (text_eq (leg_key event) key) (is_tagged event) (is_tagged prev)
              (has_tagged key legs)
          ∙ ap
              (λ k.
                text_eq (leg_key event) key && is_tagged event
                || (text_eq k key && is_tagged prev || has_tagged key legs))
              (sym e)
      | inr other ↦
          ap (has_tagged key) (put_other event prev legs other)
          ∙ ap (λ b. text_eq (leg_key prev) key && is_tagged prev || b)
              (has_tagged-put_leg key event legs)
          ∙ or_left_comm (text_eq (leg_key prev) key && is_tagged prev)
              (text_eq (leg_key event) key && is_tagged event) (has_tagged key legs)
    ]

put_leg-AreUnique :
    (event : ActivityEvent) (legs : List ActivityEvent)
    → AreUnique legs
    → AreUnique (put_leg event legs)
unfolding put_leg has_key
put_leg-AreUnique event [] h = (refl, tt)
put_leg-AreUnique event (prev ∷ legs) (new, h) =
    elim (Bool-cases (text_eq (leg_key prev) (leg_key event))) [
      | inl same ↦
          subst AreUnique (sym (put_same event prev legs same))
            (ap (λ k. has_key k legs) (kept_key prev event same) ∙ new, h)
      | inr other ↦ subst AreUnique (sym (put_other event prev legs other)) (
        has_key-put_leg (leg_key prev) event legs
            ∙ ap (λ b. b || has_key (leg_key prev) legs) (text_eq_comm _ _ ∙ other)
            ∙ new,
        put_leg-AreUnique event legs h,
      )
    ]

merge_legs-AreUnique :
    (legs events : List ActivityEvent) → AreUnique legs → AreUnique (merge_legs legs events)
unfolding merge_legs
merge_legs-AreUnique legs [] h = h
merge_legs-AreUnique legs (event ∷ events) h =
    merge_legs-AreUnique (put_leg event legs) events (put_leg-AreUnique event legs h)

has_key-merge_legs :
    (key : Text) (legs events : List ActivityEvent)
    → has_key key (merge_legs legs events) ≡ (has_key key events || has_key key legs)
unfolding merge_legs has_key
has_key-merge_legs key legs [] = refl
has_key-merge_legs key legs (event ∷ events) =
    has_key-merge_legs key (put_leg event legs) events
    ∙ ap (λ b. has_key key events || b) (has_key-put_leg key event legs)
    ∙ or_left_comm (has_key key events) (text_eq (leg_key event) key) (has_key key legs)
    ∙ or_assoc (text_eq (leg_key event) key) (has_key key events) (has_key key legs)

has_tagged-merge_legs :
    (key : Text) (legs events : List ActivityEvent)
    → has_tagged key (merge_legs legs events) ≡ (has_tagged key events || has_tagged key legs)
unfolding merge_legs has_tagged
has_tagged-merge_legs key legs [] = refl
has_tagged-merge_legs key legs (event ∷ events) =
    has_tagged-merge_legs key (put_leg event legs) events
    ∙ ap (λ b. has_tagged key events || b) (has_tagged-put_leg key event legs)
    ∙ or_left_comm (has_tagged key events) (text_eq (leg_key event) key && is_tagged event)
        (has_tagged key legs)
    ∙ or_assoc (text_eq (leg_key event) key && is_tagged event) (has_tagged key events)
        (has_tagged key legs)

-- The merged legs have one event for each key of the events and no other, and it carries a round id
-- exactly if a leg of that key does.
pub merge_legs_lem :
    (key : Text) (events : List ActivityEvent)
    → AreUnique (merge_legs [] events)
      × (has_key key (merge_legs [] events) ≡ has_key key events)
      × (has_tagged key (merge_legs [] events) ≡ has_tagged key events)
unfolding has_key has_tagged
merge_legs_lem key events = (
  merge_legs-AreUnique [] events tt,
  has_key-merge_legs key [] events ∙ or_false (has_key key events),
  has_tagged-merge_legs key [] events ∙ or_false (has_tagged key events),
)
