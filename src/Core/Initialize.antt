-- ===== src/Core/Initialize.antt =====
-- programs/core/src/instructions/initialize_market_domain_v0.rs: a market with its one domain, its
-- fee ledger and their vaults.
pub mod Canonical
use programmable_solana.Base.{ℕ, not, ◌&&◌, List, [], ◌∷◌, Result, ok, ◌==◌, ◌!=◌}
use programmable_solana.Wire.Bytes.{le_bytes}
use programmable_solana.Core.Constants.{
  core_id, experiment_version_v0, market_seed_v0, domain_seed_v0, vault_seed_v0, fee_ledger_seed_v0,
  fee_vault_seed_v0, asset_a_seed_v0, asset_b_seed_v0, protocol_fee_bps_v0, fee_policy_revision_v0,
}
use programmable_solana.Core.Error.{
  Failure, require_core, require_anchor, ◌>>=◌, ◌>>◌, constraint_seeds, identical_mints,
  invalid_engine_revision, engine_program_not_executable, unexpected_writable_privilege,
  core_cannot_be_engine, engine_state_executable, invalid_engine_state_owner,
}
use programmable_solana.Core.State.{MarketV0, DomainV0, FeeLedgerV0}
use programmable_solana.Core.Events.{MarketDomainInitializedV0}
use programmable_solana.Core.Runtime.{Runtime, AccountInfo, Account, Mint, Context, World}
use programmable_solana.Core.Constraints.{signer, mutable, program}
use programmable_solana.Core.Validation.{
  ensure_no_remaining_accounts, ensure_distinct_roles, validate_classic_mint,
}

pub record InitializeMarketDomainV0Args : Type 0 where
  pub market_id : ℕ
  pub engine_revision : ℕ

-- The accounts that `init` creates have no content yet.
pub record InitializeMarketDomainV0 : Type 0 where
  pub initializer : AccountInfo
  pub market : AccountInfo
  pub domain : AccountInfo
  pub fee_ledger : AccountInfo
  pub mint_a : Account Mint
  pub mint_b : Account Mint
  pub vault_a : AccountInfo
  pub vault_b : AccountInfo
  pub fee_vault : AccountInfo
  pub engine_program : AccountInfo
  pub engine_state : AccountInfo
  pub token_program : AccountInfo
  pub system_program : AccountInfo

-- `ctx.bumps`
pub record Bumps : Type 0 where
  pub market : ℕ
  pub domain : ℕ
  pub fee_ledger : ℕ
  pub vault_a : ℕ
  pub vault_b : ℕ
  pub fee_vault : ℕ

pub record Initialized : Type 0 where
  pub market : MarketV0
  pub domain : DomainV0
  pub fee_ledger : FeeLedgerV0
  pub world : World
  pub event : MarketDomainInitializedV0

abbrev pub initialize_roles : Runtime → InitializeMarketDomainV0 → List ℕ
initialize_roles rt accounts =
    accounts.initializer.key ∷ accounts.market.key ∷ accounts.domain.key ∷ accounts.fee_ledger.key
    ∷ accounts.mint_a.info.key ∷ accounts.mint_b.info.key ∷ accounts.vault_a.key
    ∷ accounts.vault_b.key ∷ accounts.fee_vault.key ∷ accounts.engine_program.key
    ∷ accounts.engine_state.key ∷ accounts.token_program.key ∷ accounts.system_program.key
    ∷ rt.program.own_role

module _ (rt : Runtime) where
  -- `#[account(init, seeds = [...], bump)]`: the account is the derived address; its bump is kept.
  unfoldable pub init_address : AccountInfo → List (List ℕ) → Result Failure ℕ
  init_address info seeds = do
    let (address, bump) = rt.find_program_address seeds
    require_anchor (info.key == address) constraint_seeds
    ok bump

  -- The three accounts of Core's own state, each created after its seeds are tested; the bumps.
  unfoldable pub init_state :
      InitializeMarketDomainV0
      → InitializeMarketDomainV0Args
      → World
      → Result Failure (ℕ × ℕ × ℕ × World)
  init_state accounts args w = do
    market ← init_address accounts.market (
        rt.program.market_seed
        ∷ le_bytes 32 accounts.initializer.key
        ∷ le_bytes 32 args.market_id
        ∷ [])
    w ← rt.create_account accounts.market.key w
    domain ←
        init_address accounts.domain (rt.program.domain_seed ∷ le_bytes 32 accounts.market.key ∷ [])
    w ← rt.create_account accounts.domain.key w
    fee_ledger ← init_address accounts.fee_ledger (
        rt.program.fee_ledger_seed
        ∷ le_bytes 32 accounts.market.key
        ∷ le_bytes 32 accounts.mint_a.info.key
        ∷ [])
    w ← rt.create_account accounts.fee_ledger.key w
    ok (market, domain, fee_ledger, w)

  -- The three vaults, with their mints and authorities.
  unfoldable pub init_vaults : InitializeMarketDomainV0 → World → Result Failure (ℕ × ℕ × ℕ × World)
  init_vaults accounts w = do
    vault_a ←
        init_address accounts.vault_a
          (rt.program.vault_seed ∷ le_bytes 32 accounts.domain.key ∷ asset_a_seed_v0 ∷ [])
    w ← rt.create_token_account accounts.vault_a.key accounts.mint_a.info.key accounts.domain.key w
    vault_b ←
        init_address accounts.vault_b
          (rt.program.vault_seed ∷ le_bytes 32 accounts.domain.key ∷ asset_b_seed_v0 ∷ [])
    w ← rt.create_token_account accounts.vault_b.key accounts.mint_b.info.key accounts.domain.key w
    fee_vault ←
        init_address accounts.fee_vault
          (rt.program.fee_vault_seed ∷ le_bytes 32 accounts.fee_ledger.key ∷ [])
    w ←
        rt.create_token_account accounts.fee_vault.key accounts.mint_a.info.key
          accounts.fee_ledger.key w
    ok (vault_a, vault_b, fee_vault, w)

  -- The constraints of the schema: the accounts are created in the order of the fields.
  unfoldable pub check_initialize_market_domain_v0 :
      InitializeMarketDomainV0
      → InitializeMarketDomainV0Args
      → World
      → Result Failure (Bumps × World)
  check_initialize_market_domain_v0 accounts args w = do
    signer accounts.initializer
    mutable accounts.initializer
    (market, domain, fee_ledger, w) ← init_state accounts args w
    (vault_a, vault_b, fee_vault, w) ← init_vaults accounts w
    program accounts.token_program rt.token_program_id
    program accounts.system_program rt.system_program_id
    ok (
      record {
        market = market;
        domain = domain;
        fee_ledger = fee_ledger;
        vault_a = vault_a;
        vault_b = vault_b;
        fee_vault = fee_vault;
      },
      w,
    )

  -- The tests of the handler.
  unfoldable pub admit_initialize :
      Context InitializeMarketDomainV0 → InitializeMarketDomainV0Args → Result Failure (Unit {0})
  admit_initialize ctx args = do
    ensure_no_remaining_accounts ctx.remaining_accounts
    let accounts = ctx.accounts
    ensure_distinct_roles (initialize_roles rt accounts)
    require_core (accounts.mint_a.info.key != accounts.mint_b.info.key) identical_mints
    require_core (args.engine_revision != 0) invalid_engine_revision
    validate_classic_mint rt accounts.mint_a.info.key accounts.mint_a.content
    validate_classic_mint rt accounts.mint_b.info.key accounts.mint_b.content
    require_core accounts.engine_program.executable engine_program_not_executable
    require_core (not accounts.engine_program.is_writable) unexpected_writable_privilege
    require_core (accounts.engine_program.key != rt.program.id) core_cannot_be_engine
    require_core (not accounts.engine_state.executable) engine_state_executable
    require_core (accounts.engine_state.owner == accounts.engine_program.key)
        invalid_engine_state_owner
    require_core
        (not accounts.mint_a.info.is_writable
          && (not accounts.mint_b.info.is_writable
              && (not accounts.token_program.is_writable
                  && not accounts.system_program.is_writable)))
        unexpected_writable_privilege

  unfoldable pub handle_initialize_market_domain_v0 :
      Context InitializeMarketDomainV0
      → Bumps
      → InitializeMarketDomainV0Args
      → World
      → Result Failure Initialized
  handle_initialize_market_domain_v0 ctx bumps args w = do
    admit_initialize ctx args
    let accounts = ctx.accounts
    ok (record {
      market = record {
        version = experiment_version_v0;
        bump = bumps.market;
        initializer = accounts.initializer.key;
        market_id = args.market_id;
        engine_program = accounts.engine_program.key;
        engine_state = accounts.engine_state.key;
        engine_revision = args.engine_revision;
        mint_a = accounts.mint_a.info.key;
        mint_b = accounts.mint_b.info.key;
        fee_bps = protocol_fee_bps_v0;
        fee_policy_revision = fee_policy_revision_v0;
      };
      domain = record {
        version = experiment_version_v0;
        bump = bumps.domain;
        vault_a_bump = bumps.vault_a;
        vault_b_bump = bumps.vault_b;
        market = accounts.market.key;
        engine_program = accounts.engine_program.key;
        engine_state = accounts.engine_state.key;
        engine_revision = args.engine_revision;
        accounted_a = 0;
        accounted_b = 0;
      };
      fee_ledger = record {
        version = experiment_version_v0;
        bump = bumps.fee_ledger;
        fee_vault_bump = bumps.fee_vault;
        market = accounts.market.key;
        mint_a = accounts.mint_a.info.key;
        accounted_fee_a = 0;
      };
      world = w;
      event = record {
        market = accounts.market.key;
        domain = accounts.domain.key;
        engine_program = accounts.engine_program.key;
        engine_state = accounts.engine_state.key;
        engine_revision = args.engine_revision;
        mint_a = accounts.mint_a.info.key;
        mint_b = accounts.mint_b.info.key;
        fee_ledger = accounts.fee_ledger.key;
        fee_bps = protocol_fee_bps_v0;
      };
    })

  -- `initialize_market_domain` of lib.rs
  unfoldable pub initialize_market_domain :
      Context InitializeMarketDomainV0
      → InitializeMarketDomainV0Args
      → World
      → Result Failure Initialized
  initialize_market_domain ctx args w = do
    (bumps, w) ← check_initialize_market_domain_v0 ctx.accounts args w
    handle_initialize_market_domain_v0 ctx bumps args w
