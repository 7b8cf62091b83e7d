-- ===== src/Dashboard/History/Rounds.antt =====
-- The history against the rounds that can be read.
use mathlib.Core.List.{append-nil, append_assoc}
use coalition.Base.{
  text, ℕ, zero, suc, ◌+◌, ◌-◌, ◌≤◌, ◌<◌, ◌≡◌, refl, sym, ap, ◌∙◌, inl, inr, List, [], ◌∷◌, ◌++◌,
  arith, length, take, length-append, Text, ltb, Bool-cases, Result-cases, Result, ok, err,
}
use coalition.Pool.{RoundState}
use coalition.Dashboard.{Sources, RoundView, to_round_view, limited, read_chain_round_id}
use coalition.Dashboard.History.{read_round, walk_back, history_from, read_round_history}

take_nil : (n : ℕ) → take n (let none : List RoundView = [] in none) ≡ []
take_nil zero = refl
take_nil (suc n) = refl

take_first :
    (n : ℕ) (x : RoundView) (xs : List RoundView) → 0 < n → take n (x ∷ xs) ≡ x ∷ take (n - 1) xs
take_first zero x xs h = absurd (omega arith)
take_first (suc n) x xs h = ap (λ (k : ℕ). x ∷ take k xs) (omega arith)

module _ (sources : Sources) where
  abbrev kept : ℕ → Result Text RoundState → List RoundView → List RoundView
  kept round_id (ok state) older = to_round_view round_id state ∷ older
  kept round_id (err e) older = older

  -- The views of the rounds that can be read, from one id down to 1.
  pub readable_rounds : ℕ → List RoundView
  readable_rounds zero = []
  readable_rounds (suc n) = kept (suc n) (read_round sources (suc n)) (readable_rounds n)

  walk_back-take :
      (limit n : ℕ) (history : List RoundView)
      → length history ≤ limit
      → walk_back sources limit n history
        ≡ history ++ take (limit - length history) (readable_rounds n)
  unfolding walk_back readable_rounds
  walk_back-take limit zero history h =
      sym (ap (λ l. history ++ l) (take_nil _) ∙ append-nil history)
  walk_back-take limit (suc n) history h = elim (Bool-cases (ltb (length history) limit)) [
    | inr full ↦
        let spent : limit - length history ≡ 0 = ground arith in
        rw full (
          sym (
            ap (λ (k : ℕ). history ++ take k (readable_rounds (suc n))) spent ∙ append-nil history))
    | inl room ↦ elim (Result-cases (read_round sources (suc n))) [
      | inr (message, e) ↦ rw (room, e) (walk_back-take limit n history h)
      | inl (state, e) ↦
          let view = to_round_view (suc n) state in
          let longer : length (history ++ view ∷ []) ≡ length history + 1 =
            length-append history (view ∷ []) in
          let left : limit - length (history ++ view ∷ []) ≡ limit - length history - 1 =
            omega (arith, longer) in
          rw (room, e)
            (walk_back-take limit n (history ++ view ∷ []) (ground (arith, longer))
              ∙ append_assoc history (view ∷ []) _
              ∙ ap (λ (k : ℕ). history ++ view ∷ take k (readable_rounds n)) left
              ∙ ap (λ l. history ++ l)
                  (sym
                    (take_first (limit - length history) view (readable_rounds n) (ground arith))))
    ]
  ]

  -- Where the current round's id is read, the history is the newest `limit` of the rounds that can be
  -- read, newest first: a round that cannot be read hides no other.
  pub read_round_history-take :
      (limit current : ℕ)
      → limited sources
          (read_chain_round_id sources)
          30_000
          (text "chain getCurrentRoundId (history)")
        ≡ ok current
      → read_round_history sources limit ≡ take limit (readable_rounds current)
  unfolding read_round_history history_from
  read_round_history-take limit current h = rw h (
      walk_back-take limit current [] (omega arith)
      ∙ ap (λ (k : ℕ). take k (readable_rounds current)) (omega arith))
