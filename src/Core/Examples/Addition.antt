-- ===== src/Core/Examples/Addition.antt =====
-- A deposit of asset A into the example market, and what the theorems say of it.
use programmable_solana.Base.{ℕ, ◌≡◌, refl, [], ok, ok_or, checked_add_u64, checked_sub_u64}
use programmable_solana.Wire.Bytes.{le_bytes}
use programmable_solana.Core.Error.{◌>>=◌, ◌>>◌, require_core}
use programmable_solana.Core.Runtime.{Context, reload}
use programmable_solana.Core.Validation.{
  ensure_no_remaining_accounts, any_equal, ensure_distinct_roles, validate_market_domain,
  canonical_domain_vault, validate_classic_mint, validate_common_token_account,
  validate_protected_token_account, require_raw_covers_accounted, exact_debit, exact_credit,
}
use programmable_solana.Core.Deposit.{
  DepositV0, DepositV0Args, Deposited, select_asset, store_asset, admit_deposit, handle_deposit_v0,
}
use programmable_solana.Core.Deposit.Safety.{
  IsAdmitted, IsExactDeposit, handle_deposit_v0-IsExactDeposit, handle_deposit_v0→IsAdmitted,
}
use programmable_solana.Core.Examples.{
  small_runtime, authority, executable_program, example_mint, token_account, market_account,
  domain_account, vault_a, user_a, example_world,
}

abbrev deposit_accounts : DepositV0
deposit_accounts = record {
  provider = authority 61;
  market = market_account;
  domain = domain_account;
  mint = example_mint 21;
  provider_source = token_account 71 user_a;
  domain_vault = token_account 2173 vault_a;
  token_program = executable_program 2;
}

abbrev deposit_context : Context DepositV0
deposit_context = record { accounts = deposit_accounts; remaining_accounts = [] }

abbrev deposit_args : DepositV0Args
deposit_args = record { asset_index = 0; amount = 700 }

deposit_done :
    (r : Deposited) × (handle_deposit_v0 small_runtime deposit_context deposit_args example_world
      ≡ ok r)
unfolding handle_deposit_v0 admit_deposit ◌>>=◌ ◌>>◌ require_core ok_or ensure_no_remaining_accounts
    any_equal ensure_distinct_roles validate_market_domain canonical_domain_vault le_bytes
    validate_classic_mint validate_common_token_account validate_protected_token_account
    require_raw_covers_accounted select_asset store_asset reload exact_debit exact_credit
    checked_add_u64 checked_sub_u64
deposit_done = (_, refl)

handle_deposit_v0-IsExactDeposit_example :
    IsExactDeposit deposit_args deposit_accounts deposit_done.0.accounts
handle_deposit_v0-IsExactDeposit_example =
    handle_deposit_v0-IsExactDeposit small_runtime deposit_context deposit_args example_world
      deposit_done.0 deposit_done.1

handle_deposit_v0→IsAdmitted_example :
    (before : ℕ) × (after : ℕ) × IsAdmitted small_runtime deposit_context deposit_args before after
handle_deposit_v0→IsAdmitted_example =
    handle_deposit_v0→IsAdmitted small_runtime deposit_context deposit_args example_world
      deposit_done.0 deposit_done.1
