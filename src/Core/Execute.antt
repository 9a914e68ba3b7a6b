-- ===== src/Core/Execute.antt =====
-- programs/core/src/instructions/execute_engine_probe_v0.rs: a swap of asset A for asset B that the
-- market's engine authorizes. The handler is cut at its phases, which the first four modules hold.
mod Accounts
mod Plan
mod Guards
mod Flow
pub mod Admission
pub mod Quotes
pub mod Terms
pub mod Engine
pub mod Schema
pub mod Safety
pub mod Fairness
pub use Accounts.{
  ExecuteEngineProbeV0Args, ExecuteEngineProbeV0, Executed, Quote, Consulted, Movement, movement,
  execute_roles,
}
pub use Plan.{engine_infos}
unfoldable pub use Plan.{
  plan_binding, engine_request, engine_instruction, read_receipt, input_transfer, fee_transfer,
  output_transfer,
}
unfoldable pub use Guards.{
  check_execute_engine_probe_v0, admit_canonical, admit_identities, admit_tokens,
}
pub use Guards.{no_extra_writable}
unfoldable pub use Flow.{require_exact_deltas, quote, consult_engine, settle}
use programmable_solana.Base.{
  ℕ, ◌≡◌, not, ◌&&◌, true, false, none, some, Option, List, [], ◌∷◌, Result, ok, err, ok_or, ltb,
  leb, ◌==◌, ◌!=◌, map_err, checked_add_u64, checked_sub_u64,
}
use programmable_solana.Wire.Bytes.{le_bytes}
use programmable_solana.Wire.Probe.{
  PlanBinding, EngineRequest, EngineReceipt, compute_plan_hash, encode_evaluate_instruction,
  decode_receipt,
}
use programmable_solana.Core.Constants.{
  core_id, asset_a_index_v0, asset_b_index_v0, asset_a_seed_v0, asset_b_seed_v0, domain_seed_v0,
  fee_vault_seed_v0, vault_seed_v0, instructions_sysvar_id,
}
use programmable_solana.Core.Error.{
  Failure, core, require_core, ◌>>=◌, ◌>>◌, invalid_token_mint, invalid_engine_program,
  invalid_engine_state, invalid_engine_state_owner, direct_invocation_required,
  invalid_domain_vault, invalid_fee_vault, engine_program_not_executable, core_cannot_be_engine,
  engine_state_executable, unexpected_writable_privilege, zero_amount, request_expired,
  output_below_user_minimum, insufficient_accounted_liquidity, protocol_fee_above_user_maximum,
  arithmetic_overflow, total_debit_above_user_maximum, missing_engine_receipt,
  invalid_engine_receipt_setter, invalid_engine_receipt, engine_receipt_plan_mismatch,
  unexpected_source_debit, unexpected_vault_credit, unexpected_fee_vault_credit,
  unexpected_vault_debit, unexpected_destination_credit,
}
use programmable_solana.Core.State.{MarketV0, DomainV0, FeeLedgerV0}
use programmable_solana.Core.Events.{EngineProbeExecutedV0}
use programmable_solana.Core.Runtime.{
  Runtime, AccountInfo, Account, TokenAccount, Mint, Context, World, Transfer, AccountMeta,
  Instruction, transaction_level_stack_height, reload,
}
use programmable_solana.Core.Constraints.{
  signer, mutable, derived, program, token_mint, token_authority, address_is,
}
use programmable_solana.Core.Math.{fee_ceil}
use programmable_solana.Core.Validation.{
  ensure_no_remaining_accounts, ensure_distinct_roles, market_address, domain_address,
  fee_ledger_address, validate_market_domain, validate_fee_ledger, canonical_domain_vault,
  canonical_fee_vault, validate_classic_mint, validate_protected_token_account,
  validate_credit_destination, require_raw_covers_accounted, exact_debit, exact_credit,
}

-- The three assignments at the end of the handler.
unfoldable pub record_balances : Quote → ExecuteEngineProbeV0 → ExecuteEngineProbeV0
record_balances q settled = record settled {
  domain = record settled.domain {
    content = record settled.domain.content {
      accounted_a = q.post_accounted_a;
      accounted_b = q.post_accounted_b;
    };
  };
  fee_ledger = record settled.fee_ledger {
    content = record settled.fee_ledger.content { accounted_fee_a = q.post_accounted_fee_a };
  };
}

module _ (rt : Runtime) where
  unfoldable pub handle_execute_engine_probe_v0 :
      Context ExecuteEngineProbeV0 → ExecuteEngineProbeV0Args → World → Result Failure Executed
  handle_execute_engine_probe_v0 ctx args w = do
    admit_identities rt ctx
    let accounts = ctx.accounts
    admit_tokens rt accounts
    q ← quote rt accounts args
    consulted ← consult_engine rt accounts args q.protocol_fee w
    (settled, w) ← settle rt accounts (movement args q) consulted.world
    ok (record {
      accounts = record_balances q settled;
      world = w;
      event = record {
        market = accounts.market.info.key;
        domain = accounts.domain.info.key;
        engine_program = accounts.engine_program.key;
        engine_state = accounts.engine_state.key;
        user = accounts.user.key;
        mint_a = accounts.mint_a.info.key;
        mint_b = accounts.mint_b.info.key;
        amount_in = args.amount_in;
        amount_out = args.amount_out;
        protocol_fee = q.protocol_fee;
        plan_digest = consulted.plan_digest;
        engine_sequence = consulted.receipt.state_sequence;
        post_accounted_a = q.post_accounted_a;
        post_accounted_b = q.post_accounted_b;
        post_accounted_fee_a = q.post_accounted_fee_a;
      };
    })

  -- `programmable_core::execute_engine_probe`
  unfoldable pub execute_engine_probe :
      Context ExecuteEngineProbeV0 → ExecuteEngineProbeV0Args → World → Result Failure Executed
  execute_engine_probe ctx args w = do
    check_execute_engine_probe_v0 rt ctx.accounts
    handle_execute_engine_probe_v0 ctx args w
