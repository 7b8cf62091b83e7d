-- ===== src/Fund/Attest.antt =====
-- `attestFunder`: the funder's address must be the wallet that its ENS name resolves to.
use coalition.Base.{
  ℕ, suc, Bool, true, false, Option, none, some, List, [], ◌∷◌, Text, text_eq, to_lower_case,
  Result, ok, err,
}

pub data Note : Type 0 where
  no_subname : ℕ → Note
  lookup_failed : Text → Text → Note
  address_unavailable : Note
  no_arc_record : Text → Note
  wallet_mismatch : Text → Text → Text → Note

-- `FunderAttestation`; `attested` is its field `ok`.
pub record FunderAttestation : Type 0 where
  pub index : ℕ
  pub wallet_id : Text
  pub wallet : Text
  pub ens_name : Option Text
  pub ens_wallet : Option Text
  pub attested : Bool
  pub note : Option Note

-- What the outside answers: the seeds' names, Circle's wallet addresses, and the ENS lookups, which
-- throw or give a wallet or `null`.
pub record Funders : Type 0 where
  pub ens_name_of : ℕ → Option Text
  pub get_wallet_address : Text → Option Text
  pub resolve_arc_wallet : Text → Result Text (Option Text)

abbrev pub address_text : Option Text → Text
address_text none = []
address_text (some address) = address

-- What the `try` around the lookup of `name` leaves in `ensWallet` and `note`.
unfoldable pub looked_at : Text → Result Text (Option Text) → Option Text × Option Note
looked_at name (ok wallet) = (wallet, none)
looked_at name (err message) = (none, some (lookup_failed name message))

-- The wallet and the note of the lookup, where there is a name.
unfoldable pub lookup_ens : Funders → ℕ → Option Text → Option Text × Option Note
unfolding looked_at
lookup_ens funders index none = (none, some (no_subname index))
lookup_ens funders index (some name) = looked_at name (funders.resolve_arc_wallet name)

-- `ensName !== null && address !== null && ensWallet !== null && …`
unfoldable pub is_attested : Option Text → Option Text → Option Text → Bool
is_attested (some name) (some address) (some ens_wallet) =
    text_eq (to_lower_case ens_wallet) (to_lower_case address)
is_attested _ _ _ = false

-- The note of a lookup that did not throw and is not attested.
default_note : Option Text → Option Text → Option Text → Note
default_note name none ens_wallet = address_unavailable
default_note name (some address) none = no_arc_record (address_text name)
default_note name (some address) (some ens_wallet) =
    wallet_mismatch address ens_wallet (address_text name)

note_of : Bool → Option Note → Note → Option Note
note_of true note fallback = note
note_of false (some note) fallback = some note
note_of false none fallback = some fallback

unfoldable pub attest_funder : Funders → ℕ → Text → FunderAttestation
unfolding lookup_ens default_note note_of
attest_funder funders index wallet_id =
    let ens_name = funders.ens_name_of index in
    let address = funders.get_wallet_address wallet_id in
    let (ens_wallet, note) = lookup_ens funders index ens_name in
    let attested = is_attested ens_name address ens_wallet in
    record {
      index = index;
      wallet_id = wallet_id;
      wallet = address_text address;
      ens_name = ens_name;
      ens_wallet = ens_wallet;
      attested = attested;
      note = note_of attested note (default_note ens_name address ens_wallet);
    }

-- The attestation of each configured wallet, under its index.
unfoldable pub attest_all : Funders → ℕ → List Text → List FunderAttestation
attest_all funders index [] = []
attest_all funders index (wallet_id ∷ ids) =
    attest_funder funders index wallet_id ∷ attest_all funders (suc index) ids
