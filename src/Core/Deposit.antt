-- ===== src/Core/Deposit.antt =====
-- programs/core/src/instructions/deposit_v0.rs: a provider adds liquidity to a domain.
pub mod Safety
use programmable_solana.Base.{
  ℕ, ◌≡◌, not, ◌&&◌, List, [], ◌∷◌, Result, ok, err, ok_or, ltb, ◌==◌, if◌then◌else◌,
  checked_add_u64,
}
use programmable_solana.Wire.Bytes.{le_bytes}
use programmable_solana.Core.Constants.{asset_a_index_v0, asset_b_index_v0}
use programmable_solana.Core.Error.{
  Failure, core, require_core, ◌>>=◌, ◌>>◌, zero_amount, unexpected_writable_privilege,
  unsupported_asset_index, invalid_token_mint, invalid_domain_vault, arithmetic_overflow,
  unexpected_source_debit, unexpected_vault_credit,
}
use programmable_solana.Core.State.{MarketV0, DomainV0}
use programmable_solana.Core.Events.{LiquidityDepositedV0}
use programmable_solana.Core.Runtime.{
  Runtime, AccountInfo, Account, TokenAccount, Mint, Context, World, Transfer, reload,
}
use programmable_solana.Core.Constraints.{signer, mutable, derived, program}
use programmable_solana.Core.Validation.{
  ensure_no_remaining_accounts, ensure_distinct_roles, market_address, domain_address,
  validate_market_domain, canonical_domain_vault, validate_classic_mint,
  validate_protected_token_account, require_raw_covers_accounted, exact_debit, exact_credit,
}

pub record DepositV0Args : Type 0 where
  pub asset_index : ℕ
  pub amount : ℕ

pub record DepositV0 : Type 0 where
  pub provider : AccountInfo
  pub market : Account MarketV0
  pub domain : Account DomainV0
  pub mint : Account Mint
  pub provider_source : Account TokenAccount
  pub domain_vault : Account TokenAccount
  pub token_program : AccountInfo

-- The accounts as the instruction leaves them, the world after its calls, and its event.
pub record Deposited : Type 0 where
  pub accounts : DepositV0
  pub world : World
  pub event : LiquidityDepositedV0

-- The first `match args.asset_index`: the mint, the vault's bump and the accounted balance.
pub record Asset : Type 0 where
  pub expected_mint : ℕ
  pub vault_bump : ℕ
  pub accounted_before : ℕ

unfoldable pub select_asset : ℕ → MarketV0 → DomainV0 → Result Failure Asset
select_asset asset_index market domain =
    if asset_index == asset_a_index_v0
    then ok (record {
      expected_mint = market.mint_a;
      vault_bump = domain.vault_a_bump;
      accounted_before = domain.accounted_a;
    })
    else (if asset_index == asset_b_index_v0
        then ok (record {
          expected_mint = market.mint_b;
          vault_bump = domain.vault_b_bump;
          accounted_before = domain.accounted_b;
        })
        else err (core unsupported_asset_index))

-- The second.
unfoldable pub store_asset : ℕ → ℕ → DomainV0 → Result Failure DomainV0
store_asset asset_index accounted_after domain =
    if asset_index == asset_a_index_v0
    then ok (record domain { accounted_a = accounted_after })
    else (if asset_index == asset_b_index_v0
        then ok (record domain { accounted_b = accounted_after })
        else err (core unsupported_asset_index))

abbrev pub deposit_roles : Runtime → DepositV0 → List ℕ
deposit_roles rt accounts =
    accounts.provider.key ∷ accounts.market.info.key ∷ accounts.domain.info.key
    ∷ accounts.mint.info.key ∷ accounts.provider_source.info.key ∷ accounts.domain_vault.info.key
    ∷ accounts.token_program.key ∷ rt.program.own_role

abbrev pub deposit_transfer : DepositV0 → DepositV0Args → Transfer
deposit_transfer accounts args = record {
  from = accounts.provider_source.info.key;
  mint = accounts.mint.info.key;
  to = accounts.domain_vault.info.key;
  authority = accounts.provider.key;
  signer_seeds = [];
  amount = args.amount;
  decimals = accounts.mint.content.decimals;
}

module _ (rt : Runtime) where
  unfoldable pub check_deposit_v0 : DepositV0 → Result Failure (Unit {0})
  check_deposit_v0 accounts = do
    signer accounts.provider
    derived accounts.market.info (market_address rt accounts.market.content)
    mutable accounts.domain.info
    derived accounts.domain.info
        (domain_address rt accounts.market.info.key accounts.domain.content.bump)
    mutable accounts.provider_source.info
    mutable accounts.domain_vault.info
    program accounts.token_program rt.token_program_id

  -- The tests before the transfer; what passes is the accounted balance before and after.
  unfoldable pub admit_deposit : Context DepositV0 → DepositV0Args → Result Failure (ℕ × ℕ)
  admit_deposit ctx args = do
    ensure_no_remaining_accounts ctx.remaining_accounts
    require_core (ltb 0 args.amount) zero_amount
    let accounts = ctx.accounts
    ensure_distinct_roles (deposit_roles rt accounts)
    validate_market_domain rt accounts.market.info.key accounts.market.content
        accounts.domain.info.key accounts.domain.content
    validate_classic_mint rt accounts.mint.info.key accounts.mint.content
    require_core
        (not accounts.market.info.is_writable
          && (not accounts.mint.info.is_writable && not accounts.token_program.is_writable))
        unexpected_writable_privilege
    asset ← select_asset args.asset_index accounts.market.content accounts.domain.content
    require_core (accounts.mint.info.key == asset.expected_mint) invalid_token_mint
    expected_vault ←
        canonical_domain_vault rt accounts.domain.info.key args.asset_index asset.vault_bump
    require_core (accounts.domain_vault.info.key == expected_vault) invalid_domain_vault
    validate_protected_token_account accounts.provider_source.content asset.expected_mint
        accounts.provider.key
    validate_protected_token_account accounts.domain_vault.content asset.expected_mint
        accounts.domain.info.key
    require_raw_covers_accounted accounts.domain_vault.content.amount asset.accounted_before
    accounted_after ←
        ok_or (checked_add_u64 asset.accounted_before args.amount) (core arithmetic_overflow)
    ok (asset.accounted_before, accounted_after)

  unfoldable pub handle_deposit_v0 :
      Context DepositV0 → DepositV0Args → World → Result Failure Deposited
  handle_deposit_v0 ctx args w = do
    (accounted_before, accounted_after) ← admit_deposit ctx args
    let accounts = ctx.accounts
    let source_before = accounts.provider_source.content.amount
    let vault_before = accounts.domain_vault.content.amount
    w ← rt.transfer_checked (deposit_transfer accounts args) w
    provider_source ← reload w accounts.provider_source
    domain_vault ← reload w accounts.domain_vault
    exact_debit source_before provider_source.content.amount args.amount unexpected_source_debit
    exact_credit vault_before domain_vault.content.amount args.amount unexpected_vault_credit
    domain ← store_asset args.asset_index accounted_after accounts.domain.content
    ok (record {
      accounts = record accounts {
        domain = record accounts.domain { content = domain };
        provider_source = provider_source;
        domain_vault = domain_vault;
      };
      world = w;
      event = record {
        market = accounts.market.info.key;
        domain = accounts.domain.info.key;
        provider = accounts.provider.key;
        mint = accounts.mint.info.key;
        asset_index = args.asset_index;
        amount = args.amount;
        post_accounted_balance = accounted_after;
      };
    })

  -- `deposit` of lib.rs
  unfoldable pub deposit : Context DepositV0 → DepositV0Args → World → Result Failure Deposited
  deposit ctx args w = do check_deposit_v0 ctx.accounts; handle_deposit_v0 ctx args w
