-- ===== src/GeneratedCore/Flow.antt =====
-- The phases of execute_engine_generated_probe_v0.rs around the request: the admission, the limits,
-- the engine's answer and the settlement.
use programmable_solana.Base.{
  ℕ, Bool, not, ◌&&◌, [], ◌∷◌, Result, ok, ok_or, map_err, ltb, leb, ◌==◌, checked_add_u64,
  checked_sub_u64,
}
use programmable_solana.Wire.Bytes.{le_bytes}
use programmable_solana.Wire.Generated.{EngineReceipt, decode_receipt}
use programmable_solana.Core.Error.{
  Failure, core, require_core, require_experiment, ◌>>=◌, ◌>>◌, direct_invocation_required,
  unexpected_writable_privilege, unexpected_signer_privilege, zero_amount, request_expired,
  protocol_fee_above_user_maximum, arithmetic_overflow, total_debit_above_user_maximum,
  insufficient_user_source_balance, insufficient_accounted_liquidity, missing_engine_receipt,
  invalid_engine_receipt_setter, invalid_engine_receipt, engine_receipt_request_mismatch,
  output_below_user_minimum, integer_conversion_failed,
}
use programmable_solana.Core.Runtime.{Runtime, World, transaction_level_stack_height}
use programmable_solana.Core.Math.{fee_ceil}
use programmable_solana.Core.Validation.{ensure_distinct_roles}
use programmable_solana.Core.Execute.{
  admit_canonical, admit_tokens, no_extra_writable, settle, record_balances,
}
use programmable_solana.GeneratedCore.Program.{settlement_hash_domain_v0}
use programmable_solana.GeneratedCore.Accounts.{
  ExecuteEngineGeneratedProbeV0Args, ExecuteEngineGeneratedProbeV0, AcceptedEnginePlan, Generated,
  Limits, Prepared, fixed_envelope_keys, plan_quote, plan_movement,
}
use programmable_solana.GeneratedCore.Opaque.{validate_opaque_payload}
use programmable_solana.GeneratedCore.Request.{try_u8}

-- The two tests of the signer privileges.
abbrev pub engine_unsigned : ExecuteEngineGeneratedProbeV0 → Bool
engine_unsigned accounts =
    not accounts.engine_program.is_signer
    && (not accounts.engine_state.is_signer && not accounts.instructions_sysvar.is_signer)

abbrev pub envelope_unsigned : ExecuteEngineGeneratedProbeV0 → Bool
envelope_unsigned accounts =
    not accounts.market.info.is_signer
    && (not accounts.domain.info.is_signer
        && (not accounts.fee_ledger.info.is_signer
            && (not accounts.mint_a.info.is_signer
                && (not accounts.mint_b.info.is_signer
                    && (not accounts.user_source_a.info.is_signer
                        && (not accounts.user_destination_b.info.is_signer
                            && (not accounts.vault_a.info.is_signer
                                && (not accounts.vault_b.info.is_signer
                                    && (not accounts.fee_vault.info.is_signer
                                        && not accounts.token_program.is_signer)))))))))

module _ (rt : Runtime) where
  unfoldable pub admit_envelope :
      ExecuteEngineGeneratedProbeV0 → ExecuteEngineGeneratedProbeV0Args → Result Failure (Unit {0})
  admit_envelope accounts args = do
    require_core (rt.stack_height == transaction_level_stack_height) direct_invocation_required
    validate_opaque_payload args.opaque_payload
    ensure_distinct_roles (fixed_envelope_keys rt accounts)
    admit_canonical rt accounts
    require_experiment (engine_unsigned accounts) unexpected_signer_privilege
    require_experiment (envelope_unsigned accounts) unexpected_signer_privilege
    require_core accounts.engine_state.is_writable unexpected_writable_privilege
    require_core (no_extra_writable accounts) unexpected_writable_privilege
    admit_tokens rt accounts

  unfoldable pub limit :
      ExecuteEngineGeneratedProbeV0 → ExecuteEngineGeneratedProbeV0Args → Result Failure Limits
  limit accounts args = do
    require_core (ltb 0 args.amount_in) zero_amount
    slot ← rt.clock_slot
    require_core (leb slot args.expires_at_slot) request_expired
    protocol_fee ← fee_ceil args.amount_in accounts.market.content.fee_bps
    require_core (leb protocol_fee args.max_protocol_fee) protocol_fee_above_user_maximum
    total_input_debit ←
        ok_or (checked_add_u64 args.amount_in protocol_fee) (core arithmetic_overflow)
    require_core (leb total_input_debit args.max_total_input_debit) total_debit_above_user_maximum
    require_experiment (leb total_input_debit accounts.user_source_a.content.amount)
        insufficient_user_source_balance
    require_core (leb args.min_output_credit accounts.domain.content.accounted_b)
        insufficient_accounted_liquidity
    post_accounted_a ←
        ok_or (checked_add_u64 accounts.domain.content.accounted_a args.amount_in)
          (core arithmetic_overflow)
    post_accounted_fee_a ←
        ok_or (checked_add_u64 accounts.fee_ledger.content.accounted_fee_a protocol_fee)
          (core arithmetic_overflow)
    ok (record {
      protocol_fee = protocol_fee;
      total_input_debit = total_input_debit;
      post_accounted_a = post_accounted_a;
      post_accounted_fee_a = post_accounted_fee_a;
    })

  -- The call, and the tests of the receipt that it leaves.
  unfoldable pub consult :
      ExecuteEngineGeneratedProbeV0
      → ExecuteEngineGeneratedProbeV0Args
      → Prepared
      → World
      → Result Failure (EngineReceipt × World)
  consult accounts args prepared w = do
    w ← rt.invoke prepared.instruction prepared.infos w
    (receipt_setter, receipt_data) ← ok_or w.return_data (core missing_engine_receipt)
    require_core (receipt_setter == accounts.engine_program.key) invalid_engine_receipt_setter
    receipt ← map_err (λ _. core invalid_engine_receipt) (decode_receipt receipt_data)
    require_experiment (receipt.request_hash == prepared.request_hash)
        engine_receipt_request_mismatch
    require_core (ltb 0 receipt.amount_out) zero_amount
    require_core (leb args.min_output_credit receipt.amount_out) output_below_user_minimum
    require_core (leb receipt.amount_out accounts.domain.content.accounted_b)
        insufficient_accounted_liquidity
    ok (receipt, w)

  unfoldable pub settlement_hash : ℕ → EngineReceipt → ℕ → ℕ
  settlement_hash request_hash receipt protocol_fee = rt.hashv (
      settlement_hash_domain_v0
      ∷ le_bytes 32 request_hash
      ∷ le_bytes 8 receipt.amount_out
      ∷ le_bytes 8 protocol_fee
      ∷ le_bytes 8 receipt.state_sequence
      ∷ [])

  unfoldable pub accept :
      ExecuteEngineGeneratedProbeV0
      → Limits
      → Prepared
      → EngineReceipt
      → Result Failure AcceptedEnginePlan
  accept accounts limits prepared receipt = do
    post_accounted_b ←
        ok_or (checked_sub_u64 accounts.domain.content.accounted_b receipt.amount_out)
          (core arithmetic_overflow)
    opaque_account_count ←
        ok_or (try_u8 prepared.opaque_account_count) (core integer_conversion_failed)
    ok (record {
      amount_out = receipt.amount_out;
      protocol_fee = limits.protocol_fee;
      total_input_debit = limits.total_input_debit;
      request_hash = prepared.request_hash;
      capability_hash = prepared.capability_hash;
      payload_hash = prepared.payload_hash;
      settlement_hash = settlement_hash prepared.request_hash receipt limits.protocol_fee;
      engine_sequence = receipt.state_sequence;
      opaque_account_count = opaque_account_count;
      post_accounted_a = limits.post_accounted_a;
      post_accounted_b = post_accounted_b;
      post_accounted_fee_a = limits.post_accounted_fee_a;
    })

  unfoldable pub settle_engine_generated_probe :
      ExecuteEngineGeneratedProbeV0
      → ExecuteEngineGeneratedProbeV0Args
      → AcceptedEnginePlan
      → World
      → Result Failure Generated
  settle_engine_generated_probe accounts args plan w = do
    (settled, w) ← settle rt accounts (plan_movement args plan) w
    ok (record {
      accounts = record_balances (plan_quote plan) settled;
      world = w;
      event = record {
        market = accounts.market.info.key;
        domain = accounts.domain.info.key;
        engine_program = accounts.engine_program.key;
        engine_state = accounts.engine_state.key;
        user = accounts.user.key;
        mint_a = accounts.mint_a.info.key;
        mint_b = accounts.mint_b.info.key;
        amount_in = args.amount_in;
        amount_out = plan.amount_out;
        protocol_fee = plan.protocol_fee;
        request_hash = plan.request_hash;
        capability_hash = plan.capability_hash;
        payload_hash = plan.payload_hash;
        settlement_hash = plan.settlement_hash;
        engine_sequence = plan.engine_sequence;
        opaque_account_count = plan.opaque_account_count;
        post_accounted_a = plan.post_accounted_a;
        post_accounted_b = plan.post_accounted_b;
        post_accounted_fee_a = plan.post_accounted_fee_a;
      };
    })
