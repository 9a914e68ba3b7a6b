-- ===== src/Core/Validation.antt =====
-- programs/core/src/validation.rs: the guards that the instructions share.
pub mod Roles
pub mod Identity
pub mod Tokens
use programmable_solana.Base.{
  ℕ, Bool, true, false, not, ◌&&◌, Option, List, [], ◌∷◌, Result, ok, err, ok_or, if◌then◌else◌,
  leb, ◌==◌, ◌!=◌, checked_sub_u64,
}
use programmable_solana.Wire.Bytes.{le_bytes}
use programmable_solana.Core.Constants.{
  experiment_version_v0, market_seed_v0, domain_seed_v0, vault_seed_v0, fee_ledger_seed_v0,
  fee_vault_seed_v0, protocol_fee_bps_v0, fee_policy_revision_v0,
}
use programmable_solana.Core.Error.{
  CoreError, Failure, core, require_core, ◌>>=◌, ◌>>◌, unexpected_remaining_accounts,
  duplicate_account_role, arithmetic_overflow, native_mint_unsupported, mint_not_initialized,
  mint_freeze_authority_unsupported, token_account_not_initialized, frozen_token_account,
  native_token_account_unsupported, invalid_token_mint, invalid_token_authority,
  token_delegate_unsupported, token_close_authority_unsupported, invalid_delegated_amount,
  invalid_market, invalid_domain_admission, invalid_domain, invalid_domain_vault,
  invalid_fee_ledger, invalid_fee_vault, invalid_engine_revision, invalid_fee_policy,
  vault_below_accounted_balance,
}
use programmable_solana.Core.State.{MarketV0, DomainV0, FeeLedgerV0}
use programmable_solana.Core.Runtime.{
  Runtime, AccountInfo, TokenAccount, Mint, is_none, is_initialized_state, is_frozen_state,
}

-- `keys.is_empty()`
abbrev is_empty {ℓ} : {A : Type ℓ} → List A → Bool
is_empty [] = true
is_empty (x ∷ xs) = false

unfoldable pub ensure_no_remaining_accounts : List AccountInfo → Result Failure (Unit {0})
ensure_no_remaining_accounts accounts =
    require_core (is_empty accounts) unexpected_remaining_accounts

-- `keys.iter().any(|candidate| candidate == key)`
unfoldable pub any_equal : ℕ → List ℕ → Bool
any_equal key [] = false
any_equal key (candidate ∷ rest) =
    let later = any_equal key rest in if candidate == key then true else later

unfoldable pub ensure_distinct_roles : List ℕ → Result Failure (Unit {0})
ensure_distinct_roles [] = ok tt
ensure_distinct_roles (key ∷ rest) = do
  require_core (not (any_equal key rest)) duplicate_account_role
  ensure_distinct_roles rest

module _ (rt : Runtime) where
  -- The seeds of the accounts that Core derives, each with its bump.
  abbrev pub market_address : MarketV0 → Option ℕ
  market_address market = rt.create_program_address (
      rt.program.market_seed
      ∷ le_bytes 32 market.initializer
      ∷ le_bytes 32 market.market_id
      ∷ (market.bump ∷ [])
      ∷ [])

  abbrev pub domain_address : ℕ → ℕ → Option ℕ
  domain_address market_key bump =
      rt.create_program_address (rt.program.domain_seed ∷ le_bytes 32 market_key ∷ (bump ∷ []) ∷ [])

  abbrev pub fee_ledger_address : ℕ → ℕ → ℕ → Option ℕ
  fee_ledger_address market_key mint_a bump =
      rt.create_program_address (
        rt.program.fee_ledger_seed ∷ le_bytes 32 market_key ∷ le_bytes 32 mint_a ∷ (bump ∷ []) ∷ [])

  unfoldable pub validate_market_domain : ℕ → MarketV0 → ℕ → DomainV0 → Result Failure (Unit {0})
  validate_market_domain market_key market domain_key domain = do
    require_core (market.version == experiment_version_v0) invalid_market
    require_core (domain.version == experiment_version_v0) invalid_domain
    require_core
        (market.fee_bps == protocol_fee_bps_v0
          && market.fee_policy_revision == fee_policy_revision_v0)
        invalid_fee_policy
    expected_market ← ok_or (market_address market) (core invalid_market)
    require_core (market_key == expected_market) invalid_market
    require_core (domain.market == market_key) invalid_domain_admission
    expected_domain ← ok_or (domain_address market_key domain.bump) (core invalid_domain)
    require_core (domain_key == expected_domain) invalid_domain
    require_core (domain.engine_program == market.engine_program) invalid_domain_admission
    require_core (domain.engine_state == market.engine_state) invalid_domain_admission
    require_core (domain.engine_revision == market.engine_revision) invalid_engine_revision

  unfoldable pub validate_fee_ledger : ℕ → MarketV0 → ℕ → FeeLedgerV0 → Result Failure (Unit {0})
  validate_fee_ledger market_key market fee_ledger_key fee_ledger = do
    require_core (fee_ledger.version == experiment_version_v0) invalid_fee_ledger
    require_core (fee_ledger.market == market_key) invalid_fee_ledger
    require_core (fee_ledger.mint_a == market.mint_a) invalid_fee_ledger
    expected ←
        ok_or (fee_ledger_address market_key market.mint_a fee_ledger.bump)
          (core invalid_fee_ledger)
    require_core (fee_ledger_key == expected) invalid_fee_ledger

  unfoldable pub canonical_domain_vault : ℕ → ℕ → ℕ → Result Failure ℕ
  canonical_domain_vault domain_key asset_index bump =
      ok_or
        (rt.create_program_address
          (rt.program.vault_seed ∷ le_bytes 32 domain_key ∷ (asset_index ∷ []) ∷ (bump ∷ []) ∷ []))
        (core invalid_domain_vault)

  unfoldable pub canonical_fee_vault : ℕ → ℕ → Result Failure ℕ
  canonical_fee_vault fee_ledger_key bump =
      ok_or
        (rt.create_program_address
          (rt.program.fee_vault_seed ∷ le_bytes 32 fee_ledger_key ∷ (bump ∷ []) ∷ []))
        (core invalid_fee_vault)

  unfoldable pub validate_classic_mint : ℕ → Mint → Result Failure (Unit {0})
  validate_classic_mint mint_key mint = do
    require_core mint.is_initialized mint_not_initialized
    require_core (mint_key != rt.native_mint_id) native_mint_unsupported
    require_core (is_none mint.freeze_authority) mint_freeze_authority_unsupported

unfoldable pub validate_common_token_account : TokenAccount → ℕ → Result Failure (Unit {0})
validate_common_token_account account expected_mint = do
  require_core (not (is_frozen_state account.state)) frozen_token_account
  require_core (is_initialized_state account.state) token_account_not_initialized
  require_core (is_none account.is_native) native_token_account_unsupported
  require_core (account.mint == expected_mint) invalid_token_mint

unfoldable pub validate_protected_token_account : TokenAccount → ℕ → ℕ → Result Failure (Unit {0})
validate_protected_token_account account expected_mint expected_authority = do
  validate_common_token_account account expected_mint
  require_core (account.owner == expected_authority) invalid_token_authority
  require_core (is_none account.delegate) token_delegate_unsupported
  require_core (account.delegated_amount == 0) invalid_delegated_amount
  require_core (is_none account.close_authority) token_close_authority_unsupported

unfoldable pub validate_credit_destination : TokenAccount → ℕ → Result Failure (Unit {0})
validate_credit_destination account expected_mint =
    validate_common_token_account account expected_mint

unfoldable pub require_raw_covers_accounted : ℕ → ℕ → Result Failure (Unit {0})
require_raw_covers_accounted raw accounted =
    require_core (leb accounted raw) vault_below_accounted_balance

unfoldable pub exact_debit : ℕ → ℕ → ℕ → CoreError → Result Failure (Unit {0})
exact_debit before after expected error_code = do
  observed ← ok_or (checked_sub_u64 before after) (core arithmetic_overflow)
  if observed != expected then err (core error_code) else ok tt

unfoldable pub exact_credit : ℕ → ℕ → ℕ → CoreError → Result Failure (Unit {0})
exact_credit before after expected error_code = do
  observed ← ok_or (checked_sub_u64 after before) (core arithmetic_overflow)
  if observed != expected then err (core error_code) else ok tt
