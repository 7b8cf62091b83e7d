-- ===== src/Graph/Queries.antt =====
-- What each query returns, given what the endpoint answers.
use coalition.Base.{
  ℕ, ◌≡◌, refl, sym, ◌↔◌, true, false, not, Option, none, some, List, [], ◌∷◌, String, arith, Text,
  address_pattern, to_lower_case, ok, ◌>>=◌, throw_if, map_result, >>=-eq-ok, ok-injective, Zipped,
  Zipped-of_map_result, map_result_of_Zipped, throw_if-eq-ok, throw_if-not-eq-ok,
}
use coalition.Json.{
  Json, boolean, array, get, get_from, is_record, to_list, Items, Fetched, rejected, response,
  is_ok_status,
}
use coalition.Graph.{
  Commitment, PoolFill, GraphClient, GraphRequest, Query, pool_fill_query, commitments_query,
  commitments_by_wallet_query, parse_address, parse_uint, parse_boolean, parse_array,
  parse_commitment, present, narrow_fetched, post_query, get_pool_fill, get_commitments,
  commitments_of, pool_not_address, pool_not_object, wallet_not_address, payload_not_object,
  query_errors, data_not_object,
}
use coalition.Graph.Decode.{
  IsAddress, IsUint, IsAddress_of_parse, parse_of_IsAddress, IsUint-of_parse, parse_of_IsUint,
  boolean_of_parse, IsCommitment, IsCommitment-of_parse, parse_of_IsCommitment,
}

-- A response in the 200s whose body is a GraphQL answer without errors and with this `data`.
pub record Answers (answer : Fetched) (payload : Option Json) : Type 0 where
  pub status : ℕ
  pub body : Json
  pub given : answer ≡ response status (some body)
  pub succeeded : is_ok_status status ≡ true
  pub is_object : is_record (some body) ≡ true
  pub no_errors : get "errors" body ≡ none
  pub carries : payload ≡ get "data" body
  pub data_object : is_record payload ≡ true

absent : (o : Option Json) → present o ≡ false → o ≡ none
absent none h = refl
absent (some _) h = cc

Answers-of_narrow :
    (client : GraphClient) (answer : Fetched) (payload : Option Json)
    → narrow_fetched client answer ≡ ok payload
    → Answers answer payload
unfolding narrow_fetched
Answers-of_narrow client rejected payload h = cc
Answers-of_narrow client (response status none) payload h = absurd (ground arith)
Answers-of_narrow client (response status (some body)) payload h =
    let good : is_ok_status status ≡ true = ground arith in
    let h₀ = rw good at h in
    let (_, p, h₁) = >>=-eq-ok (throw_if (not (is_record (some body))) payload_not_object) _ h₀ in
    let (_, q, h₂) = >>=-eq-ok (throw_if (present (get "errors" body)) query_errors) _ h₁ in
    let (_, r, h₃) =
      >>=-eq-ok (throw_if (not (is_record (get "data" body))) data_not_object) _ h₂ in
    record {
      status = status;
      body = body;
      given = refl;
      succeeded = good;
      is_object = ground arith;
      no_errors = absent _ (throw_if-eq-ok _ _ _ q);
      carries = sym (ok-injective h₃);
      data_object = rw (← ok-injective h₃) (throw_if-not-eq-ok _ _ _ r);
    }

narrow_of_Answers :
    (client : GraphClient) (answer : Fetched) (payload : Option Json)
    → Answers answer payload
    → narrow_fetched client answer ≡ ok payload
unfolding narrow_fetched
narrow_of_Answers client answer payload h =
    rw (h.given, narrow_fetched)
      (rw (h.succeeded, h.is_object, h.no_errors, ← h.carries, h.data_object))

-- The `pool` object of a payload, as a fill snapshot.
pub record IsFill (raw : Option Json) (fill : PoolFill) : Type 0 where
  pub is_object : is_record raw ≡ true
  pub pool : IsAddress (get_from "id" raw) fill.pool
  pub target : IsUint (get_from "target" raw) fill.target
  pub total_committed : IsUint (get_from "totalCommitted" raw) fill.total_committed
  pub settled : get_from "settled" raw ≡ some (boolean fill.settled)
  pub participant_count : IsUint (get_from "participantCount" raw) fill.participant_count

abbrev pub request : GraphClient → Query → List (String × Text) → GraphRequest
request client query variables = record { client = client; query = query; variables = variables }

module _ (fetch : GraphRequest → Fetched) (client : GraphClient) (pool : Text) where
  abbrev pub fill_answer : Fetched
  fill_answer = fetch (request client pool_fill_query (("id", to_lower_case pool) ∷ []))

  IsFill-of_ok :
      (fill : PoolFill)
      → get_pool_fill fetch client pool ≡ ok fill
      → (address_pattern pool ≡ true)
        × ((payload : Option Json) × Answers fill_answer payload
            × IsFill (get_from "pool" payload) fill)
  unfolding get_pool_fill post_query
  IsFill-of_ok fill h =
      let (_, p, h₁) =
        >>=-eq-ok (throw_if (not (address_pattern pool)) (pool_not_address pool)) _ h in
      let (payload, q, h₂) = >>=-eq-ok (narrow_fetched client fill_answer) _ h₁ in
      let raw : Option Json = get_from "pool" payload in
      let (_, r, h₃) = >>=-eq-ok (throw_if (not (is_record raw)) pool_not_object) _ h₂ in
      let (id, e₁, h₄) = >>=-eq-ok (parse_address (get_from "id" raw) "id") _ h₃ in
      let (target, e₂, h₅) = >>=-eq-ok (parse_uint (get_from "target" raw) "target") _ h₄ in
      let (total, e₃, h₆) =
        >>=-eq-ok (parse_uint (get_from "totalCommitted" raw) "totalCommitted") _ h₅ in
      let (settled, e₄, h₇) = >>=-eq-ok (parse_boolean (get_from "settled" raw) "settled") _ h₆ in
      let (count, e₅, h₈) =
        >>=-eq-ok (parse_uint (get_from "participantCount" raw) "participantCount") _ h₇ in
      (
        throw_if-not-eq-ok _ _ _ p,
        (
          payload,
          Answers-of_narrow client fill_answer payload q,
          rw (← ok-injective h₈) (record {
            is_object = throw_if-not-eq-ok _ _ _ r;
            pool = IsAddress_of_parse "id" _ id e₁;
            target = IsUint-of_parse "target" _ target e₂;
            total_committed = IsUint-of_parse "totalCommitted" _ total e₃;
            settled = boolean_of_parse "settled" _ settled e₄;
            participant_count = IsUint-of_parse "participantCount" _ count e₅;
          }),
        ),
      )

  ok_of_IsFill :
      (fill : PoolFill) (payload : Option Json)
      → address_pattern pool ≡ true
      → Answers fill_answer payload
      → IsFill (get_from "pool" payload) fill
      → get_pool_fill fetch client pool ≡ ok fill
  unfolding get_pool_fill post_query parse_boolean
  ok_of_IsFill fill payload a answers f =
      rw (a, narrow_of_Answers client fill_answer payload answers)
        (rw (
          f.is_object,
          parse_of_IsAddress "id" _ fill.pool f.pool,
          parse_of_IsUint "target" _ fill.target f.target,
          parse_of_IsUint "totalCommitted" _ fill.total_committed f.total_committed,
          f.settled,
          parse_of_IsUint "participantCount" _ fill.participant_count f.participant_count,
        ))

  -- `getPoolFill` returns a snapshot exactly if the pool is an address and the answer to the query for
  -- its lower-case id is a response in the 200s, without errors, whose `pool` object holds that
  -- snapshot in every field.
  pub get_pool_fill-IsFill :
      (fill : PoolFill)
      → (get_pool_fill fetch client pool ≡ ok fill) ↔ (
          (address_pattern pool ≡ true)
          × ((payload : Option Json) × Answers fill_answer payload
              × IsFill (get_from "pool" payload) fill))
  get_pool_fill-IsFill fill =
      (IsFill-of_ok fill, λ h. ok_of_IsFill fill (h.1).0 h.0 (h.1).1 (h.1).2)

array_of_parse :
    (value : Option Json) (field : String) (xs : List Json)
    → parse_array value field ≡ ok xs
    → (items : Items) × (value ≡ some (array items)) × (to_list items ≡ xs)
unfolding parse_array
array_of_parse (some (array items)) field xs h = (items, refl, ok-injective h)
array_of_parse value field xs h = absurd (ground arith)

abbrev pub WalletIsAddress : Option Text → Type 0
WalletIsAddress none = Unit
WalletIsAddress (some wallet) = address_pattern wallet ≡ true

abbrev pub commitments_request : GraphClient → Text → Option Text → GraphRequest
commitments_request client pool none =
    request client commitments_query (("pool", to_lower_case pool) ∷ [])
commitments_request client pool (some wallet) =
    request client commitments_by_wallet_query
      (("pool", to_lower_case pool) ∷ ("wallet", to_lower_case wallet) ∷ [])

module _ (fetch : GraphRequest → Fetched) (client : GraphClient) (pool : Text) where
  abbrev pub commitments_answer : Option Text → Fetched
  commitments_answer wallet = fetch (commitments_request client pool wallet)

  -- The payload holds exactly these commitments, in this order.
  abbrev pub Lists : Option Text → List Commitment → Type 0
  Lists wallet found =
      (address_pattern pool ≡ true)
      × WalletIsAddress wallet
      × ((payload : Option Json) × (items : Items) × Answers (commitments_answer wallet) payload
          × (get_from "commitments" payload ≡ some (array items))
          × Zipped IsCommitment (to_list items) found)

  parsed :
      (answer : Fetched) (found : List Commitment)
      → (narrow_fetched client answer >>= λ payload.
          parse_array (get_from "commitments" payload) "commitments"
          >>= map_result parse_commitment)
        ≡ ok found
      → (payload : Option Json) × (items : Items) × Answers answer payload
        × (get_from "commitments" payload ≡ some (array items))
        × Zipped IsCommitment (to_list items) found
  parsed answer found h =
      let (payload, q, h₁) = >>=-eq-ok (narrow_fetched client answer) _ h in
      let (raw, r, h₂) =
        >>=-eq-ok (parse_array (get_from "commitments" payload) "commitments") _ h₁ in
      let (items, e, same) = array_of_parse _ "commitments" raw r in
      (
        payload,
        items,
        Answers-of_narrow client answer payload q,
        e,
        Zipped-of_map_result parse_commitment IsCommitment IsCommitment-of_parse (to_list items)
            found (rw same h₂),
      )

  Lists-of_ok :
      (wallet : Option Text) (found : List Commitment)
      → get_commitments fetch client pool wallet ≡ ok found
      → Lists wallet found
  unfolding get_commitments commitments_of post_query
  Lists-of_ok none found h =
      let (_, p, h₁) =
        >>=-eq-ok (throw_if (not (address_pattern pool)) (pool_not_address pool)) _ h in
      (throw_if-not-eq-ok _ _ _ p, tt, parsed (commitments_answer none) found h₁)
  Lists-of_ok (some w) found h =
      let (_, p, h₁) =
        >>=-eq-ok (throw_if (not (address_pattern pool)) (pool_not_address pool)) _ h in
      let (_, q, h₂) = >>=-eq-ok (throw_if (not (address_pattern w)) (wallet_not_address w)) _ h₁ in
      (
        throw_if-not-eq-ok _ _ _ p,
        throw_if-not-eq-ok _ _ _ q,
        parsed (commitments_answer (some w)) found h₂,
      )

  decoded :
      (found : List Commitment) (payload : Option Json) {items : Items}
      → get_from "commitments" payload ≡ some (array items)
      → Zipped IsCommitment (to_list items) found
      → (parse_array (get_from "commitments" payload) "commitments" >>= map_result parse_commitment)
        ≡ ok found
  unfolding parse_array
  decoded found payload {items} e z =
      rw (e, parse_array)
        (map_result_of_Zipped parse_commitment IsCommitment parse_of_IsCommitment (to_list items)
          found z)

  ok_of_Lists :
      (wallet : Option Text) (found : List Commitment)
      → Lists wallet found
      → get_commitments fetch client pool wallet ≡ ok found
  unfolding get_commitments commitments_of post_query
  ok_of_Lists none found (a, _, (payload, items, answers, e, z)) =
      rw (a, narrow_of_Answers client (commitments_answer none) payload answers)
        (decoded found payload e z)
  ok_of_Lists (some w) found (a, b, (payload, items, answers, e, z)) =
      rw (a, b, narrow_of_Answers client (commitments_answer (some w)) payload answers)
        (decoded found payload e z)

  -- `getCommitments` returns a list exactly if the pool, and the wallet where one is given, are
  -- addresses, and the answer to the query is a response in the 200s, without errors, whose
  -- `commitments` array holds those commitments one by one and in that order: one malformed entry
  -- refuses the whole list.
  pub get_commitments-Lists :
      (wallet : Option Text) (found : List Commitment)
      → (get_commitments fetch client pool wallet ≡ ok found) ↔ Lists wallet found
  get_commitments-Lists wallet found = (Lists-of_ok wallet found, ok_of_Lists wallet found)
