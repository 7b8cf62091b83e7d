-- ===== src/Pool/Reads.antt =====
-- The states that the reads of a pool and of a round put together.
use coalition.Base.{ℕ, ◌≡◌, ◌↔◌, refl, ap, ◌∙◌, Option, none, some, Text}
use coalition.Pool.{
  PoolState, RoundState, UintView, BoolView, Round, PublicClient, ◌>>=◌, get_pool_state,
  get_round_state, expired_of, participant_count_of,
}

bind-eq-some :
    {A B : Type 0} (m : Option A) (f : A → Option B) {b : B}
    → (m >>= f) ≡ some b
    → (a : A) × (m ≡ some a) × (f a ≡ some b)
bind-eq-some (some a) f h = (a, refl, h)
bind-eq-some none f h = cc

some_injective : {A : Type 0} {a b : A} → some a ≡ some b → a ≡ b
some_injective h = cc

module _ (client : PublicClient) (pool : Text) where
  -- The five reads answer with the fields of the state.
  pub record AreRead (state : PoolState) : Type 0 where
    pub target : client.read_uint pool UintView.target ≡ some state.target
    pub total : client.read_uint pool UintView.total_committed ≡ some state.total_committed
    pub settled : client.read_bool pool BoolView.settled ≡ some state.settled
    pub expired : client.read_bool pool BoolView.expired ≡ some state.expired
    pub count : client.read_uint pool UintView.participant_count ≡ some state.participant_count

  -- The three reads answer for the round of the state: its tuple, its expiry and its participants.
  pub record IsRoundRead (round_id : ℕ) (view : RoundState) : Type 0 where
    pub round : Round
    pub tuple : client.read_round pool round_id ≡ some round
    pub expired : client.read_bool pool (expired_of round_id) ≡ some view.state.expired
    pub count :
        client.read_uint pool (participant_count_of round_id) ≡ some view.state.participant_count
    pub target : round.target ≡ view.state.target
    pub total : round.total_committed ≡ view.state.total_committed
    pub settled : round.settled ≡ view.state.settled
    pub deadline : round.deadline ≡ view.deadline
    pub id : round_id ≡ view.round_id

  pool_state_sound : (state : PoolState) → get_pool_state client pool ≡ some state → AreRead state
  unfolding get_pool_state
  pool_state_sound state h =
      let (t, p₁, h₁) = bind-eq-some (client.read_uint pool UintView.target) _ h in
      let (c, p₂, h₂) = bind-eq-some (client.read_uint pool UintView.total_committed) _ h₁ in
      let (s, p₃, h₃) = bind-eq-some (client.read_bool pool BoolView.settled) _ h₂ in
      let (e, p₄, h₄) = bind-eq-some (client.read_bool pool BoolView.expired) _ h₃ in
      let (n, p₅, h₅) = bind-eq-some (client.read_uint pool UintView.participant_count) _ h₄ in
      let same = some_injective h₅ in
      record {
        target = p₁ ∙ ap (λ (v : PoolState). some v.target) same;
        total = p₂ ∙ ap (λ (v : PoolState). some v.total_committed) same;
        settled = p₃ ∙ ap (λ (v : PoolState). some v.settled) same;
        expired = p₄ ∙ ap (λ (v : PoolState). some v.expired) same;
        count = p₅ ∙ ap (λ (v : PoolState). some v.participant_count) same;
      }

  -- `getPoolState` resolves to a state exactly if the five reads answer with its fields: where one is
  -- rejected there is no state.
  pub get_pool_state-AreRead :
      (state : PoolState) → (get_pool_state client pool ≡ some state) ↔ AreRead state
  unfolding get_pool_state
  get_pool_state-AreRead state =
      (pool_state_sound state, λ r. rw (r.target, r.total, r.settled, r.expired, r.count))

  round_state_sound :
      (round_id : ℕ) (view : RoundState)
      → get_round_state client pool round_id ≡ some view
      → IsRoundRead round_id view
  unfolding get_round_state
  round_state_sound round_id view h =
      let (r, p₁, h₁) = bind-eq-some (client.read_round pool round_id) _ h in
      let (e, p₂, h₂) = bind-eq-some (client.read_bool pool (expired_of round_id)) _ h₁ in
      let (n, p₃, h₃) = bind-eq-some (client.read_uint pool (participant_count_of round_id)) _ h₂ in
      let same = some_injective h₃ in
      record {
        round = r;
        tuple = p₁;
        expired = p₂ ∙ ap (λ (v : RoundState). some v.state.expired) same;
        count = p₃ ∙ ap (λ (v : RoundState). some v.state.participant_count) same;
        target = ap (λ (v : RoundState). v.state.target) same;
        total = ap (λ (v : RoundState). v.state.total_committed) same;
        settled = ap (λ (v : RoundState). v.state.settled) same;
        deadline = ap (λ (v : RoundState). v.deadline) same;
        id = ap (λ (v : RoundState). v.round_id) same;
      }

  round_state_complete :
      (round_id : ℕ) (view : RoundState)
      → IsRoundRead round_id view
      → get_round_state client pool round_id ≡ some view
  unfolding get_round_state
  round_state_complete round_id view r =
      rw (r.tuple, r.expired, r.count, r.target, r.total, r.settled, r.deadline, r.id)

  -- `getRoundState` resolves to a state exactly if the round's tuple, its expiry and its participant
  -- count are answered and agree with it field by field, under the id that was asked for.
  pub get_round_state-IsRoundRead :
      (round_id : ℕ) (view : RoundState)
      → (get_round_state client pool round_id ≡ some view) ↔ IsRoundRead round_id view
  get_round_state-IsRoundRead round_id view =
      (round_state_sound round_id view, round_state_complete round_id view)
