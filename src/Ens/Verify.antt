-- ===== src/Ens/Verify.antt =====
-- What a verified registration shows.
use coalition.Base.{
  ◌≡◌, ◌↔◌, sym, ap, ◌∙◌, false, ◌||◌, Option, none, some, ◌∷◌, ◌++◌, Text, text_eq, is_empty, ok,
  >>=-eq-ok, throw_if, throw_if-eq-ok, ok-injective, ℕ,
}
use coalition.Ens.{
  EnsError, invalid_label, write_rejected, receipt_rejected, no_arc_record, no_resolver,
  failed_to_find_resolver, EnsClient, EnsWrite, RegisterSubnameParams, SubnameRegistration,
  VerifiedSubname, zero_address, or_coin_type, or_parent_name, or_error, normalized_name,
  resolve_arc_wallet, resolve_ens_resolver, has_dot, register_call, register_subname,
  register_and_verify_subname,
}

or_error-eq-ok :
    {A : Type 0} (e : EnsError) (call : Option A) (a : A) → or_error e call ≡ ok a → call ≡ some a
or_error-eq-ok e none a h = cc
or_error-eq-ok e (some b) a h = cc

module _ (client : EnsClient) (raw : Text) where
  pub arc_wallet_read :
      (coin_type : Option ℕ) (universal_resolver : Option Text) (read : Option Text)
      → resolve_arc_wallet client raw coin_type universal_resolver ≡ ok read
      → (name : Text) × (client.normalize raw ≡ some name)
        × (client.get_ens_address name (or_coin_type coin_type) universal_resolver ≡ some read)
  unfolding resolve_arc_wallet normalized_name
  arc_wallet_read coin_type universal_resolver read h =
      let (name, p, k) = >>=-eq-ok (normalized_name client raw) _ h in
      (name, or_error-eq-ok _ _ name p, or_error-eq-ok _ _ read k)

  resolver_read :
      (universal_resolver : Option Text) (resolver : Text)
      → resolve_ens_resolver client raw universal_resolver ≡ ok resolver
      → (name : Text) × (client.normalize raw ≡ some name)
        × (client.get_ens_resolver name universal_resolver ≡ some resolver)
        × (text_eq resolver zero_address ≡ false)
  unfolding resolve_ens_resolver normalized_name
  resolver_read universal_resolver resolver h =
      let (name, p, k) = >>=-eq-ok (normalized_name client raw) _ h in
      let (found, q, l) =
        >>=-eq-ok
          (or_error (failed_to_find_resolver name)
            (client.get_ens_resolver name universal_resolver))
          _ k in
      let (u, z, m) = >>=-eq-ok (throw_if (text_eq found zero_address) (no_resolver name)) _ l in
      let same = ok-injective m in
      (
        name,
        or_error-eq-ok _ _ name p,
        or_error-eq-ok _ _ found q ∙ ap some same,
        ap (λ r. text_eq r zero_address) (sym same)
            ∙ throw_if-eq-ok (text_eq found zero_address) _ u z,
      )

  one_name :
      (name name' : Text)
      → client.normalize raw ≡ some name
      → client.normalize raw ≡ some name'
      → name' ≡ name
  one_name name name' h k = cc

module _ (client : EnsClient) (write : EnsWrite → Option Text)
    (params : RegisterSubnameParams) where
  -- The label is a single one, its registration was accepted under this hash, and the name is the label
  -- under the normalized parent.
  abbrev pub IsRegistered : SubnameRegistration → Type 0
  IsRegistered registration =
      (parent : Text) × ((is_empty params.label || has_dot params.label) ≡ false)
      × (client.normalize (or_parent_name params.parent_name) ≡ some parent)
      × (write (register_call params) ≡ some registration.hash)
      × (registration.name ≡ params.label ++ b'.' ∷ parent)

  registered :
      (registration : SubnameRegistration)
      → register_subname client write params ≡ ok registration
      → IsRegistered registration
  unfolding register_subname normalized_name
  registered registration h =
      let wrong = is_empty params.label || has_dot params.label in
      let (u, single, h₁) = >>=-eq-ok (throw_if wrong (invalid_label params.label)) _ h in
      let (parent, p₁, h₂) =
        >>=-eq-ok (normalized_name client (or_parent_name params.parent_name)) _ h₁ in
      let (hash, p₂, h₃) =
        >>=-eq-ok (or_error write_rejected (write (register_call params))) _ h₂ in
      let same = ok-injective h₃ in
      (
        parent,
        throw_if-eq-ok wrong _ u single,
        or_error-eq-ok _ _ parent p₁,
        or_error-eq-ok _ _ hash p₂ ∙ ap (λ (r : SubnameRegistration). some r.hash) same,
        sym (ap (λ (r : SubnameRegistration). r.name) same),
      )

  of_registered :
      (registration : SubnameRegistration)
      → IsRegistered registration
      → register_subname client write params ≡ ok registration
  unfolding register_subname normalized_name
  of_registered registration (parent, single, p₁, p₂, named) =
      rw (single, p₁, p₂)
        (ap (λ name. ok (record { hash = registration.hash; name = name })) (sym named))

  module _ (coin_type : Option ℕ) (universal_resolver : Option Text) where
    -- The receipt of the registration is there, and the name, normalized, has a resolver that is not the
    -- zero address and a record of this wallet.
    abbrev pub IsVerified : VerifiedSubname → Type 0
    IsVerified verified =
        (registration : SubnameRegistration) × (name : Text) × IsRegistered registration
        × (client.wait_for_transaction_receipt registration.hash ≡ some tt)
        × (client.normalize registration.name ≡ some name)
        × (client.get_ens_resolver name universal_resolver ≡ some verified.resolver)
        × (text_eq verified.resolver zero_address ≡ false)
        × (client.get_ens_address name (or_coin_type coin_type) universal_resolver
            ≡ some (some verified.arc_wallet))
        × (verified.name ≡ registration.name)
        × (verified.register_tx ≡ registration.hash)

    IsVerified-of :
        (verified : VerifiedSubname)
        → register_and_verify_subname client write params coin_type universal_resolver ≡ ok verified
        → IsVerified verified
    unfolding register_and_verify_subname resolve_ens_resolver resolve_arc_wallet normalized_name
    IsVerified-of verified h =
        let (r, e, h₁) = >>=-eq-ok (register_subname client write params) _ h in
        let (u, p₁, h₂) =
          >>=-eq-ok (or_error receipt_rejected (client.wait_for_transaction_receipt r.hash)) _ h₁ in
        let (resolver, p₂, h₃) =
          >>=-eq-ok (resolve_ens_resolver client r.name universal_resolver) _ h₂ in
        let (read, p₃, h₄) =
          >>=-eq-ok (resolve_arc_wallet client r.name coin_type universal_resolver) _ h₃ in
        let (wallet, p₄, h₅) = >>=-eq-ok (or_error (no_arc_record r.name r.hash) read) _ h₄ in
        let (name, n, found, live) = resolver_read client r.name universal_resolver resolver p₂ in
        let (name', n', shown) =
          arc_wallet_read client r.name coin_type universal_resolver read p₃ in
        let same = ok-injective h₅ in
        let at_name =
          ap (λ t. client.get_ens_address t (or_coin_type coin_type) universal_resolver)
            (sym (one_name client r.name name name' n n')) in
        (
          r,
          name,
          registered r e,
          or_error-eq-ok _ _ u p₁,
          n,
          found ∙ ap (λ (v : VerifiedSubname). some v.resolver) same,
          ap (λ (v : VerifiedSubname). text_eq v.resolver zero_address) (sym same) ∙ live,
          at_name
              ∙ shown
              ∙ ap some (or_error-eq-ok _ _ wallet p₄)
              ∙ ap (λ (v : VerifiedSubname). some (some v.arc_wallet)) same,
          sym (ap (λ (v : VerifiedSubname). v.name) same),
          sym (ap (λ (v : VerifiedSubname). v.register_tx) same),
        )

    of_verified :
        (verified : VerifiedSubname)
        → IsVerified verified
        → register_and_verify_subname client write params coin_type universal_resolver ≡ ok verified
    unfolding register_and_verify_subname resolve_ens_resolver resolve_arc_wallet normalized_name
    of_verified verified (r, name, registered_, p₁, p₂, p₃, p₄, p₅, p₆, p₇) =
        rw (of_registered r registered_, p₁, p₂, p₃, p₄, p₅) (cc (p₆, p₇))

    -- Registering a subname and verifying it succeeds exactly if the label is a single one, the parent has
    -- a normal form, the registration is accepted and its receipt is there, and the registered name,
    -- normalized, has a live resolver and a record of a wallet; the result carries these. The label itself
    -- is registered as it is given, and only its name is looked up in its normal form.
    pub register_and_verify_subname-IsVerified :
        (verified : VerifiedSubname)
        → (register_and_verify_subname client write params coin_type universal_resolver
            ≡ ok verified)
          ↔ IsVerified verified
    register_and_verify_subname-IsVerified verified = (IsVerified-of verified, of_verified verified)
