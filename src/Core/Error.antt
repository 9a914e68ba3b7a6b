-- ===== src/Core/Error.antt =====
-- programs/core/src/error.rs, and the other ways in which an instruction fails.
use programmable_solana.Base.{
  ℕ, ◌≡◌, Bool, true, false, Result, ok, err, require, require-eq-ok, ◌==◌, ==_eq, ==_of_eq,
}
pub use programmable_solana.Base.Steps.{>>=-eq-ok, >>-eq-ok, ok->>=, ok->>}
unfoldable pub use programmable_solana.Base.Steps.{◌>>=◌, ◌>>◌}

pub data CoreError : Type 0 where
  unexpected_remaining_accounts : CoreError
  duplicate_account_role : CoreError
  unsupported_asset_index : CoreError
  zero_amount : CoreError
  arithmetic_overflow : CoreError
  integer_conversion_failed : CoreError
  identical_mints : CoreError
  native_mint_unsupported : CoreError
  mint_not_initialized : CoreError
  mint_freeze_authority_unsupported : CoreError
  token_account_not_initialized : CoreError
  frozen_token_account : CoreError
  native_token_account_unsupported : CoreError
  invalid_token_mint : CoreError
  invalid_token_authority : CoreError
  token_delegate_unsupported : CoreError
  token_close_authority_unsupported : CoreError
  invalid_delegated_amount : CoreError
  invalid_market : CoreError
  invalid_domain_admission : CoreError
  invalid_domain : CoreError
  invalid_domain_vault : CoreError
  invalid_fee_ledger : CoreError
  invalid_fee_vault : CoreError
  invalid_engine_program : CoreError
  invalid_engine_state : CoreError
  invalid_engine_revision : CoreError
  invalid_fee_policy : CoreError
  invalid_engine_state_owner : CoreError
  engine_program_not_executable : CoreError
  engine_state_executable : CoreError
  core_cannot_be_engine : CoreError
  unexpected_writable_privilege : CoreError
  vault_below_accounted_balance : CoreError
  insufficient_accounted_liquidity : CoreError
  unexpected_source_debit : CoreError
  unexpected_destination_credit : CoreError
  unexpected_vault_credit : CoreError
  unexpected_vault_debit : CoreError
  unexpected_fee_vault_credit : CoreError
  request_expired : CoreError
  output_below_user_minimum : CoreError
  protocol_fee_above_user_maximum : CoreError
  total_debit_above_user_maximum : CoreError
  direct_invocation_required : CoreError
  missing_engine_receipt : CoreError
  invalid_engine_receipt_setter : CoreError
  invalid_engine_receipt : CoreError
  engine_receipt_plan_mismatch : CoreError

-- The errors that the cores of the two experiments have besides, in
-- experiments/engine-generated-settlement/programs/generated-settlement-core/src/error.rs.
pub data ExperimentError : Type 0 where
  too_many_opaque_accounts : ExperimentError
  opaque_payload_too_large : ExperimentError
  opaque_signer_forbidden : ExperimentError
  opaque_fixed_role_alias : ExperimentError
  opaque_core_owned_account : ExperimentError
  opaque_executable_writable : ExperimentError
  opaque_protected_token_account_writable : ExperimentError
  opaque_normalized_privilege_unavailable : ExperimentError
  capability_hash_expectation_mismatch : ExperimentError
  invalid_wire_encoding : ExperimentError
  unexpected_signer_privilege : ExperimentError
  insufficient_user_source_balance : ExperimentError
  engine_receipt_request_mismatch : ExperimentError

-- The failures of the account constraints that Anchor generates from the attributes.
pub data AnchorError : Type 0 where
  account_not_signer : AnchorError
  invalid_program_id : AnchorError
  invalid_program_executable : AnchorError
  constraint_mut : AnchorError
  constraint_seeds : AnchorError
  constraint_owner : AnchorError
  constraint_address : AnchorError
  constraint_token_mint : AnchorError
  constraint_token_owner : AnchorError
  account_did_not_deserialize : AnchorError

-- An instruction's error: Core's own, an experiment's, a generated constraint's, or the code of another program
-- or of the runtime.
pub data Failure : Type 0 where
  core : CoreError → Failure
  experiment : ExperimentError → Failure
  anchor : AnchorError → Failure
  external : ℕ → Failure

-- `require!(test, CoreError::e)` and the constraints that Anchor tests.
unfoldable pub require_core : Bool → CoreError → Result Failure (Unit {0})
require_core test e = require test (core e)

unfoldable pub require_anchor : Bool → AnchorError → Result Failure (Unit {0})
require_anchor test e = require test (anchor e)

unfoldable pub require_experiment : Bool → ExperimentError → Result Failure (Unit {0})
require_experiment test e = require test (experiment e)

pub require_experiment-eq-ok :
    (test : Bool) (e : ExperimentError) → require_experiment test e ≡ ok tt → test ≡ true
unfolding require_experiment
require_experiment-eq-ok test e h = require-eq-ok test (experiment e) h

pub require_core-eq-ok : (test : Bool) (e : CoreError) → require_core test e ≡ ok tt → test ≡ true
unfolding require_core
require_core-eq-ok test e h = require-eq-ok test (core e) h

pub require_anchor-eq-ok :
    (test : Bool) (e : AnchorError) → require_anchor test e ≡ ok tt → test ≡ true
unfolding require_anchor
require_anchor-eq-ok test e h = require-eq-ok test (anchor e) h

pub require_core_holds : (test : Bool) (e : CoreError) → test ≡ true → require_core test e ≡ ok tt
unfolding require_core
require_core_holds test e h = rw h

pub require_core_fails :
    (test : Bool) (e : CoreError) → test ≡ false → require_core test e ≡ err (core e)
unfolding require_core
require_core_fails test e h = rw h

-- `require_keys_eq!` and the like.
pub require_eq→eq : (a b : ℕ) (e : CoreError) → require_core (a == b) e ≡ ok tt → a ≡ b
require_eq→eq a b e h = ==_eq a b (require_core-eq-ok _ _ h)

pub eq→require_eq : (a b : ℕ) (e : CoreError) → a ≡ b → require_core (a == b) e ≡ ok tt
eq→require_eq a b e h = require_core_holds _ e (==_of_eq a b h)
