-- ===== src/Discovery/Pools.antt =====
-- The allowlist and the merged candidates against lists of first occurrences.
use mathlib.Core.Path.{subst}
use coalition.Base.{
  ◌≡◌, refl, sym, ap, ◌∙◌, Bool, true, false, Option, none, some, List, [], ◌∷◌, ◌++◌, map, arith,
  Text, if◌then◌else◌, is_empty, trim, split, address_pattern, to_lower_case, Result, ok, err,
}
use coalition.Discovery.{
  has, Seen, nothing_seen, push, is_nil, PoolDiscoveryError, not_an_address, parse_parts,
  parse_pool_address_list, PoolDiscoverySource, explicit, subgraph, singleton, PoolCandidate,
  candidate_key, from_source, push_each, push_fallback, collect_pool_candidates,
}
use coalition.Discovery.Unique.{
  firsts_after, push_all, push_all-firsts, HasKeysOutside, firsts_after-HasKeysOutside,
}

-- The parts of a list that are not blank, trimmed.
pub entries : List Text → List Text
entries [] = []
entries (part ∷ parts) = if is_empty (trim part) then entries parts else trim part ∷ entries parts

-- The first entry that is no address.
pub first_malformed : List Text → Option Text
first_malformed [] = none
first_malformed (e ∷ es) = if address_pattern e then first_malformed es else some e

-- The error for a malformed entry, or else the list.
abbrev pub checked : Option Text → List Text → Result PoolDiscoveryError (List Text)
checked (some bad) out = err (not_an_address bad)
checked none out = ok out

parse_parts_lem :
    (parts : List Text) (s : Seen Text)
    → parse_parts s parts
      ≡ checked (first_malformed (entries parts)) (push_all to_lower_case (entries parts) s).out
unfolding parse_parts entries first_malformed push_all
parse_parts_lem [] s = refl
parse_parts_lem (part ∷ parts) s =
    ground
      (arith, parse_parts_lem parts s, parse_parts_lem parts (push to_lower_case (trim part) s))

-- On a list that is not blank, `parsePoolAddressList` throws exactly if a trimmed non-blank entry is no
-- address, and names the first such entry; otherwise it returns the entries in order, each address,
-- up to the case of its letters, once, at its first occurrence.
pub parse_pool_address_list-firsts :
    (value : Text)
    → is_empty (trim value) ≡ false
    → let given = entries (split b',' value) in
      parse_pool_address_list (some value)
      ≡ checked (first_malformed given) (firsts_after to_lower_case [] given)
unfolding parse_pool_address_list
parse_pool_address_list-firsts value h =
    let given : List Text = entries (split b',' value) in
    rw h (
      parse_parts_lem (split b',' value) nothing_seen
      ∙ ap (checked (first_malformed given)) (push_all-firsts to_lower_case given nothing_seen))

push_each-push_all :
    (source : PoolDiscoverySource) (pools : List Text) (s : Seen PoolCandidate)
    → push_each source pools s ≡ push_all candidate_key (map (from_source source) pools) s
unfolding push_each push_all
push_each-push_all source [] s = refl
push_each-push_all source (p ∷ ps) s = push_each-push_all source ps _

push_all-append :
    (xs ys : List PoolCandidate) (s : Seen PoolCandidate)
    → push_all candidate_key (xs ++ ys) s ≡ push_all candidate_key ys (push_all candidate_key xs s)
unfolding push_all
push_all-append [] ys s = refl
push_all-append (x ∷ xs) ys s = push_all-append xs ys (push candidate_key x s)

-- The candidates of the explicit list and of the subgraph, in that order, each pool once.
pub merged : List Text → List Text → List PoolCandidate
merged extra scan =
    firsts_after candidate_key []
      (map (from_source explicit) extra ++ map (from_source subgraph) scan)

abbrev pub fallback_candidates : Option Text → List PoolCandidate
fallback_candidates none = []
fallback_candidates (some pool) = from_source singleton pool ∷ []

push_fallback-keeps :
    (fallback : Option Text) (s : Seen PoolCandidate) (y : PoolCandidate) (ys : List PoolCandidate)
    → s.out ≡ y ∷ ys
    → (push_fallback fallback s).out ≡ y ∷ ys
unfolding push_fallback
push_fallback-keeps none s y ys h = h
push_fallback-keeps (some pool) s y ys h = ground arith

push_fallback_lem :
    (fallback : Option Text) (l : List PoolCandidate)
    → let first = firsts_after candidate_key [] l in
      (push_fallback fallback (push_all candidate_key l nothing_seen)).out
      ≡ (if is_nil first then fallback_candidates fallback else first)
unfolding push_fallback push_all push firsts_after has
push_fallback_lem none [] = refl
push_fallback_lem (some pool) [] = refl
push_fallback_lem fallback (x ∷ xs) =
    push_fallback-keeps fallback _ x (firsts_after candidate_key (candidate_key x ∷ []) xs)
      (push_all-firsts candidate_key xs (record { keys = candidate_key x ∷ []; out = x ∷ [] }))

fallback_outside :
    (fallback : Option Text) → HasKeysOutside candidate_key [] (fallback_candidates fallback)
unfolding has
fallback_outside none = tt
fallback_outside (some pool) = (refl, tt)

choice_outside :
    (b : Bool) (xs ys : List PoolCandidate)
    → HasKeysOutside candidate_key [] xs
    → HasKeysOutside candidate_key [] ys
    → HasKeysOutside candidate_key [] (if b then xs else ys)
choice_outside true xs ys h k = h
choice_outside false xs ys h k = k

pub collect_lem :
    (fallback : Option Text) (extra scan : List Text)
    → collect_pool_candidates fallback (some extra) (some scan)
      ≡ (if is_nil (merged extra scan) then fallback_candidates fallback else merged extra scan)
unfolding collect_pool_candidates merged
collect_lem fallback extra scan =
    let xs : List PoolCandidate = map (from_source explicit) extra in
    let ys : List PoolCandidate = map (from_source subgraph) scan in
    let s : Seen PoolCandidate = push_each explicit extra nothing_seen in
    let pushed : push_each subgraph scan s ≡ push_all candidate_key (xs ++ ys) nothing_seen =
      push_each-push_all subgraph scan s
      ∙ ap (push_all candidate_key ys) (push_each-push_all explicit extra nothing_seen)
      ∙ sym (push_all-append xs ys nothing_seen) in
    ap (λ (t : Seen PoolCandidate). (push_fallback fallback t).out) pushed
    ∙ push_fallback_lem fallback (xs ++ ys)

-- `collectPoolCandidates` keeps each pool once, up to the case of its letters, the explicit ones before
-- those of the subgraph; the singleton is the only candidate where these are none, and is left out
-- where there is any.
pub collect_pool_candidates-merged :
    (fallback : Option Text) (extra scan : List Text)
    → (collect_pool_candidates fallback (some extra) (some scan)
        ≡ (if is_nil (merged extra scan) then fallback_candidates fallback else merged extra scan))
      × HasKeysOutside candidate_key [] (collect_pool_candidates fallback (some extra) (some scan))
unfolding merged
collect_pool_candidates-merged fallback extra scan = (
  collect_lem fallback extra scan,
  subst (HasKeysOutside candidate_key []) (sym (collect_lem fallback extra scan)) (
      choice_outside (is_nil (merged extra scan)) _ _ (fallback_outside fallback) (
        firsts_after-HasKeysOutside candidate_key []
          (map (from_source explicit) extra ++ map (from_source subgraph) scan))),
)
