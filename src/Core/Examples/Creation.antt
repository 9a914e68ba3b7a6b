-- ===== src/Core/Examples/Creation.antt =====
-- The creation of the example market and a first deposit into it, and what the theorems say of
-- them.
use programmable_solana.Base.{◌≡◌, refl, [], ok}
use programmable_solana.Wire.Bytes.{le_bytes}
use programmable_solana.Core.Error.{◌>>=◌, ◌>>◌, require_core, require_anchor}
use programmable_solana.Core.Runtime.{Context}
use programmable_solana.Core.Constraints.{signer, mutable, program}
use programmable_solana.Core.Validation.{
  ensure_no_remaining_accounts, any_equal, ensure_distinct_roles, validate_classic_mint,
}
use programmable_solana.Base.{some, ok_or, ◌==◌, if◌then◌else◌, checked_add_u64, checked_sub_u64}
use programmable_solana.Core.Runtime.{reload, World}
use programmable_solana.Core.Validation.{
  validate_market_domain, canonical_domain_vault, validate_common_token_account,
  validate_protected_token_account, require_raw_covers_accounted, exact_debit, exact_credit,
}
use programmable_solana.Core.Deposit.{
  DepositV0, DepositV0Args, Deposited, select_asset, store_asset, admit_deposit, handle_deposit_v0,
}
use programmable_solana.Core.Lifecycle.{
  Holdings, Reachable, deposit, donation, deposited, IsConserved, Reachable-IsConserved,
}
use programmable_solana.Core.Examples.{plain, holding, token_account, user_a}
use programmable_solana.Core.Initialize.{
  InitializeMarketDomainV0, InitializeMarketDomainV0Args, Initialized, init_address, init_state,
  init_vaults, check_initialize_market_domain_v0, admit_initialize,
  handle_initialize_market_domain_v0, initialize_market_domain,
}
use programmable_solana.Core.Initialize.Canonical.{
  FindsDerived, IsCanonical, initialize_market_domain-IsCanonical,
}
use programmable_solana.Core.Examples.{
  small_runtime, writable, authority, executable_program, example_mint, example_world,
}

abbrev creation_accounts : InitializeMarketDomainV0
creation_accounts = record {
  initializer = authority 11;
  market = writable 2133 5;
  domain = writable 2191 5;
  fee_ledger = writable 2556 5;
  mint_a = example_mint 21;
  mint_b = example_mint 22;
  vault_a = writable 2173 2;
  vault_b = writable 2174 2;
  fee_vault = writable 2632 2;
  engine_program = executable_program 31;
  engine_state = writable 32 31;
  token_program = executable_program 2;
  system_program = executable_program 3;
}

abbrev creation_context : Context InitializeMarketDomainV0
creation_context = record { accounts = creation_accounts; remaining_accounts = [] }

abbrev creation_args : InitializeMarketDomainV0Args
creation_args = record { market_id = 12; engine_revision = 5 }

created :
    (r : Initialized) × (initialize_market_domain small_runtime creation_context creation_args
        example_world
      ≡ ok r)
unfolding initialize_market_domain check_initialize_market_domain_v0 init_address init_state
    init_vaults admit_initialize handle_initialize_market_domain_v0 ◌>>=◌ ◌>>◌ require_core
    require_anchor signer mutable program ensure_no_remaining_accounts any_equal
    ensure_distinct_roles validate_classic_mint le_bytes
created = (_, refl)

small_runtime-FindsDerived : FindsDerived small_runtime
small_runtime-FindsDerived seeds = refl

initialize_market_domain-IsCanonical_example : IsCanonical small_runtime creation_accounts created.0
initialize_market_domain-IsCanonical_example =
    initialize_market_domain-IsCanonical small_runtime small_runtime-FindsDerived creation_context
      creation_args example_world created.0 created.1

-- Somebody sends 500 to the new vault of asset A, then a provider deposits 700.
abbrev funded : Holdings
funded = record {
  domain = created.0.domain;
  fee_ledger = created.0.fee_ledger;
  vault_a = 500;
  vault_b = 0;
  fee_vault = 0;
}

abbrev first_deposit : Context DepositV0
first_deposit = record {
  accounts = record {
    provider = authority 61;
    market = record { info = plain 2133 5; content = created.0.market };
    domain = record { info = writable 2191 5; content = created.0.domain };
    mint = example_mint 21;
    provider_source = token_account 71 user_a;
    domain_vault = token_account 2173 (holding 21 2191 500);
    token_program = executable_program 2;
  };
  remaining_accounts = [];
}

abbrev first_args : DepositV0Args
first_args = record { asset_index = 0; amount = 700 }

abbrev funded_world : World
funded_world = record example_world {
  token = λ k. if k == 2173 then some (holding 21 2191 500) else example_world.token k;
}

first_done :
    (r : Deposited) × (handle_deposit_v0 small_runtime first_deposit first_args funded_world ≡ ok r)
unfolding created initialize_market_domain check_initialize_market_domain_v0 init_address init_state
    init_vaults handle_initialize_market_domain_v0 handle_deposit_v0 admit_deposit ◌>>=◌ ◌>>◌
    require_core ok_or ensure_no_remaining_accounts any_equal ensure_distinct_roles
    validate_market_domain canonical_domain_vault le_bytes validate_classic_mint
    validate_common_token_account validate_protected_token_account require_raw_covers_accounted
    select_asset store_asset reload exact_debit exact_credit checked_add_u64 checked_sub_u64
first_done = (_, refl)

Reachable-IsConserved_example : IsConserved (deposited 0 first_done.0.accounts funded) 500 0 0
Reachable-IsConserved_example =
    Reachable-IsConserved small_runtime small_runtime-FindsDerived
      (deposited 0 first_done.0.accounts funded) 500 0 0
      (deposit first_deposit first_args funded_world first_done.0
        (donation 500 0 0
          (Reachable.created creation_context creation_args example_world created.0 created.1))
        refl refl first_done.1)
