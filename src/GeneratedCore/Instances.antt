-- ===== src/GeneratedCore/Instances.antt =====
-- The instructions of the generated-settlement core that are programs/core's at its own constants:
-- experiments/engine-generated-settlement/programs/generated-settlement-core/src/instructions/
-- initialize_market_domain_v0.rs and deposit_v0.rs, whose role lists end in the program's own id,
-- and the guards of src/validation.rs that depend on a constant.
use programmable_solana.Base.{ℕ, Result}
use programmable_solana.Core.Error.{Failure}
use programmable_solana.Core.State.{MarketV0, DomainV0, FeeLedgerV0}
use programmable_solana.Core.Runtime.{Runtime, Context, World}
use programmable_solana.Core.Validation.{
  validate_market_domain, validate_fee_ledger, canonical_domain_vault, canonical_fee_vault,
}
use programmable_solana.Core.Initialize.{
  InitializeMarketDomainV0Args, InitializeMarketDomainV0, Initialized, Bumps,
  check_initialize_market_domain_v0, handle_initialize_market_domain_v0, initialize_market_domain,
}
use programmable_solana.Core.Deposit.{
  DepositV0Args, DepositV0, Deposited, check_deposit_v0, handle_deposit_v0, deposit,
}
use programmable_solana.GeneratedCore.Program.{generated_core}

module _ (rt : Runtime) where
  -- The runtime where it runs this program.
  abbrev pub at_generated_core : Runtime
  at_generated_core = record rt { program = generated_core }

  unfoldable pub generated_validate_market_domain :
      ℕ → MarketV0 → ℕ → DomainV0 → Result Failure (Unit {0})
  generated_validate_market_domain = validate_market_domain at_generated_core

  unfoldable pub generated_validate_fee_ledger :
      ℕ → MarketV0 → ℕ → FeeLedgerV0 → Result Failure (Unit {0})
  generated_validate_fee_ledger = validate_fee_ledger at_generated_core

  unfoldable pub generated_canonical_domain_vault : ℕ → ℕ → ℕ → Result Failure ℕ
  generated_canonical_domain_vault = canonical_domain_vault at_generated_core

  unfoldable pub generated_canonical_fee_vault : ℕ → ℕ → Result Failure ℕ
  generated_canonical_fee_vault = canonical_fee_vault at_generated_core

  unfoldable pub generated_check_initialize_market_domain_v0 :
      InitializeMarketDomainV0
      → InitializeMarketDomainV0Args
      → World
      → Result Failure (Bumps × World)
  generated_check_initialize_market_domain_v0 = check_initialize_market_domain_v0 at_generated_core

  unfoldable pub generated_handle_initialize_market_domain_v0 :
      Context InitializeMarketDomainV0
      → Bumps
      → InitializeMarketDomainV0Args
      → World
      → Result Failure Initialized
  generated_handle_initialize_market_domain_v0 =
      handle_initialize_market_domain_v0 at_generated_core

  unfoldable pub generated_initialize_market_domain :
      Context InitializeMarketDomainV0
      → InitializeMarketDomainV0Args
      → World
      → Result Failure Initialized
  generated_initialize_market_domain = initialize_market_domain at_generated_core

  unfoldable pub generated_check_deposit_v0 : DepositV0 → Result Failure (Unit {0})
  generated_check_deposit_v0 = check_deposit_v0 at_generated_core

  unfoldable pub generated_handle_deposit_v0 :
      Context DepositV0 → DepositV0Args → World → Result Failure Deposited
  generated_handle_deposit_v0 = handle_deposit_v0 at_generated_core

  unfoldable pub generated_deposit :
      Context DepositV0 → DepositV0Args → World → Result Failure Deposited
  generated_deposit = deposit at_generated_core
