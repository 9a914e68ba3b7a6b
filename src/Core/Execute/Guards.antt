-- ===== src/Core/Execute/Guards.antt =====
-- The tests of execute_engine_probe_v0.rs on the accounts: the schema's constraints, then the
-- first half of the handler.
use programmable_solana.Base.{Bool, not, ◌&&◌, [], ◌∷◌, Result, ◌==◌, ◌!=◌}
use programmable_solana.Wire.Bytes.{le_bytes}
use programmable_solana.Core.Constants.{
  asset_a_index_v0, asset_b_index_v0, asset_a_seed_v0, asset_b_seed_v0, instructions_sysvar_id,
}
use programmable_solana.Core.Error.{
  Failure, require_core, ◌>>=◌, ◌>>◌, invalid_token_mint, invalid_engine_program,
  invalid_engine_state, invalid_engine_state_owner, direct_invocation_required,
  invalid_domain_vault, invalid_fee_vault, engine_program_not_executable, core_cannot_be_engine,
  engine_state_executable, unexpected_writable_privilege,
}
use programmable_solana.Core.Runtime.{Runtime, Context, transaction_level_stack_height}
use programmable_solana.Core.Constraints.{
  signer, mutable, derived, program, token_mint, token_authority, address_is,
}
use programmable_solana.Core.Validation.{
  ensure_no_remaining_accounts, ensure_distinct_roles, market_address, domain_address,
  fee_ledger_address, validate_market_domain, validate_fee_ledger, canonical_domain_vault,
  canonical_fee_vault, validate_classic_mint, validate_protected_token_account,
  validate_credit_destination, require_raw_covers_accounted,
}
use programmable_solana.Core.Execute.Accounts.{ExecuteEngineProbeV0, execute_roles}

-- No account of the envelope is writable that need not be.
abbrev pub no_extra_writable : ExecuteEngineProbeV0 → Bool
no_extra_writable accounts =
    not accounts.market.info.is_writable
    && (not accounts.mint_a.info.is_writable
        && (not accounts.mint_b.info.is_writable
            && (not accounts.engine_program.is_writable
                && (not accounts.instructions_sysvar.is_writable
                    && not accounts.token_program.is_writable))))

module _ (rt : Runtime) where
  -- The constraints of the account schema.
  unfoldable pub check_execute_engine_probe_v0 : ExecuteEngineProbeV0 → Result Failure (Unit {0})
  check_execute_engine_probe_v0 accounts = do
    signer accounts.user
    derived accounts.market.info (market_address rt accounts.market.content)
    mutable accounts.domain.info
    derived accounts.domain.info
        (domain_address rt accounts.market.info.key accounts.domain.content.bump)
    mutable accounts.fee_ledger.info
    derived accounts.fee_ledger.info (
        fee_ledger_address rt accounts.market.info.key accounts.mint_a.info.key
          accounts.fee_ledger.content.bump)
    require_core (accounts.mint_a.info.key == accounts.market.content.mint_a) invalid_token_mint
    require_core (accounts.mint_b.info.key == accounts.market.content.mint_b) invalid_token_mint
    mutable accounts.user_source_a.info
    token_mint accounts.user_source_a accounts.mint_a.info
    token_authority accounts.user_source_a accounts.user
    mutable accounts.user_destination_b.info
    token_mint accounts.user_destination_b accounts.mint_b.info
    mutable accounts.vault_a.info
    derived accounts.vault_a.info (
        rt.create_program_address (
          rt.program.vault_seed
          ∷ le_bytes 32 accounts.domain.info.key
          ∷ asset_a_seed_v0
          ∷ (accounts.domain.content.vault_a_bump ∷ [])
          ∷ []))
    token_mint accounts.vault_a accounts.mint_a.info
    token_authority accounts.vault_a accounts.domain.info
    mutable accounts.vault_b.info
    derived accounts.vault_b.info (
        rt.create_program_address (
          rt.program.vault_seed
          ∷ le_bytes 32 accounts.domain.info.key
          ∷ asset_b_seed_v0
          ∷ (accounts.domain.content.vault_b_bump ∷ [])
          ∷ []))
    token_mint accounts.vault_b accounts.mint_b.info
    token_authority accounts.vault_b accounts.domain.info
    mutable accounts.fee_vault.info
    derived accounts.fee_vault.info (
        rt.create_program_address (
          rt.program.fee_vault_seed
          ∷ le_bytes 32 accounts.fee_ledger.info.key
          ∷ (accounts.fee_ledger.content.fee_vault_bump ∷ [])
          ∷ []))
    token_mint accounts.fee_vault accounts.mint_a.info
    token_authority accounts.fee_vault accounts.fee_ledger.info
    require_core (accounts.engine_program.key == accounts.market.content.engine_program)
        invalid_engine_program
    mutable accounts.engine_state
    require_core (accounts.engine_state.key == accounts.market.content.engine_state)
        invalid_engine_state
    require_core (accounts.engine_state.owner == accounts.market.content.engine_program)
        invalid_engine_state_owner
    address_is accounts.instructions_sysvar instructions_sysvar_id
    program accounts.token_program rt.token_program_id

  -- The tests of the identities: the market, its domain, its ledger and their vaults, and its engine.
  unfoldable pub admit_canonical : ExecuteEngineProbeV0 → Result Failure (Unit {0})
  admit_canonical accounts = do
    validate_market_domain rt accounts.market.info.key accounts.market.content
        accounts.domain.info.key accounts.domain.content
    validate_fee_ledger rt accounts.market.info.key accounts.market.content
        accounts.fee_ledger.info.key accounts.fee_ledger.content
    vault_a ←
        canonical_domain_vault rt accounts.domain.info.key asset_a_index_v0
          accounts.domain.content.vault_a_bump
    require_core (vault_a == accounts.vault_a.info.key) invalid_domain_vault
    vault_b ←
        canonical_domain_vault rt accounts.domain.info.key asset_b_index_v0
          accounts.domain.content.vault_b_bump
    require_core (vault_b == accounts.vault_b.info.key) invalid_domain_vault
    fee_vault ←
        canonical_fee_vault rt accounts.fee_ledger.info.key
          accounts.fee_ledger.content.fee_vault_bump
    require_core (fee_vault == accounts.fee_vault.info.key) invalid_fee_vault
    require_core accounts.engine_program.executable engine_program_not_executable
    require_core (accounts.engine_program.key != rt.program.id) core_cannot_be_engine
    require_core (not accounts.engine_state.executable) engine_state_executable
    require_core (accounts.engine_state.owner == accounts.engine_program.key)
        invalid_engine_state_owner

  -- The tests of the call, the roles, the identities and the privileges.
  unfoldable pub admit_identities : Context ExecuteEngineProbeV0 → Result Failure (Unit {0})
  admit_identities ctx = do
    ensure_no_remaining_accounts ctx.remaining_accounts
    require_core (rt.stack_height == transaction_level_stack_height) direct_invocation_required
    ensure_distinct_roles (execute_roles ctx.accounts)
    admit_canonical ctx.accounts
    require_core (no_extra_writable ctx.accounts) unexpected_writable_privilege

  -- The tests of the mints, the token accounts and the balances behind the accounted ones.
  unfoldable pub admit_tokens : ExecuteEngineProbeV0 → Result Failure (Unit {0})
  admit_tokens accounts = do
    validate_classic_mint rt accounts.mint_a.info.key accounts.mint_a.content
    validate_classic_mint rt accounts.mint_b.info.key accounts.mint_b.content
    validate_protected_token_account accounts.user_source_a.content accounts.mint_a.info.key
        accounts.user.key
    validate_credit_destination accounts.user_destination_b.content accounts.mint_b.info.key
    validate_protected_token_account accounts.vault_a.content accounts.mint_a.info.key
        accounts.domain.info.key
    validate_protected_token_account accounts.vault_b.content accounts.mint_b.info.key
        accounts.domain.info.key
    validate_protected_token_account accounts.fee_vault.content accounts.mint_a.info.key
        accounts.fee_ledger.info.key
    require_raw_covers_accounted accounts.vault_a.content.amount accounts.domain.content.accounted_a
    require_raw_covers_accounted accounts.vault_b.content.amount accounts.domain.content.accounted_b
    require_raw_covers_accounted accounts.fee_vault.content.amount
        accounts.fee_ledger.content.accounted_fee_a
