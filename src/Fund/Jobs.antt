-- ===== src/Fund/Jobs.antt =====
-- Which wallets the first phase lets through.
use coalition.Base.{ℕ, ◌<◌, ◌≡◌, true, some, Text, to_lower_case, ok}
use coalition.Fund.{Funders, FunderAttestation, FundJob}

-- The name of the index resolves to the wallet that Circle holds for the id, up to case.
pub record IsBacked (funders : Funders) (index : ℕ) (wallet_id wallet : Text) : Type 0 where
  pub name : Text
  pub resolved : Text
  pub named : funders.ens_name_of index ≡ some name
  pub held : funders.get_wallet_address wallet_id ≡ some wallet
  pub resolves : funders.resolve_arc_wallet name ≡ ok (some resolved)
  pub agrees : to_lower_case resolved ≡ to_lower_case wallet

module _ (funders : Funders) where
  abbrev IsSound : FunderAttestation → Type 0
  IsSound att = att.attested ≡ true → IsBacked funders att.index att.wallet_id att.wallet

  -- A job pays a wallet that is backed, and it pays something.
  abbrev pub IsDue : FundJob → Type 0
  IsDue job = IsBacked funders job.index job.wallet_id job.wallet × (0 < job.amount)
