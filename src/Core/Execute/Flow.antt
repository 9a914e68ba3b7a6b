-- ===== src/Core/Execute/Flow.antt =====
-- The second half of the handler in execute_engine_probe_v0.rs: the quote, the engine's answer,
-- and the settlement.
use programmable_solana.Base.{
  ℕ, ◌&&◌, Result, ok, ok_or, ltb, leb, ◌==◌, checked_add_u64, checked_sub_u64,
}
use programmable_solana.Wire.Probe.{compute_plan_hash, encode_evaluate_instruction}
use programmable_solana.Core.Error.{
  Failure, core, require_core, ◌>>=◌, ◌>>◌, zero_amount, request_expired, output_below_user_minimum,
  insufficient_accounted_liquidity, protocol_fee_above_user_maximum, arithmetic_overflow,
  total_debit_above_user_maximum, missing_engine_receipt, invalid_engine_receipt_setter,
  engine_receipt_plan_mismatch, unexpected_source_debit, unexpected_vault_credit,
  unexpected_fee_vault_credit, unexpected_vault_debit, unexpected_destination_credit,
}
use programmable_solana.Core.Runtime.{Runtime, World, reload}
use programmable_solana.Core.Math.{fee_ceil}
use programmable_solana.Core.Validation.{exact_debit, exact_credit}
use programmable_solana.Core.Execute.Accounts.{
  ExecuteEngineProbeV0Args, ExecuteEngineProbeV0, Quote, Consulted, Movement,
}
use programmable_solana.Core.Execute.Plan.{
  plan_binding, engine_request, engine_instruction, engine_infos, read_receipt, input_transfer,
  fee_transfer, output_transfer,
}

-- The exact debits and credits that the reloaded accounts must show.
unfoldable pub require_exact_deltas :
    ExecuteEngineProbeV0 → ExecuteEngineProbeV0 → Movement → Result Failure (Unit {0})
require_exact_deltas before after m = do
  exact_debit before.user_source_a.content.amount after.user_source_a.content.amount
      m.total_input_debit unexpected_source_debit
  exact_credit before.vault_a.content.amount after.vault_a.content.amount m.amount_in
      unexpected_vault_credit
  exact_credit before.fee_vault.content.amount after.fee_vault.content.amount m.protocol_fee
      unexpected_fee_vault_credit
  exact_debit before.vault_b.content.amount after.vault_b.content.amount m.amount_out
      unexpected_vault_debit
  exact_credit before.user_destination_b.content.amount after.user_destination_b.content.amount
      m.amount_out unexpected_destination_credit

module _ (rt : Runtime) where
  -- The tests of the amounts against the user's limits, and the accounted balances to be.
  unfoldable pub quote : ExecuteEngineProbeV0 → ExecuteEngineProbeV0Args → Result Failure Quote
  quote accounts args = do
    require_core (ltb 0 args.amount_in && ltb 0 args.amount_out) zero_amount
    slot ← rt.clock_slot
    require_core (leb slot args.expires_at_slot) request_expired
    require_core (leb args.min_output_credit args.amount_out) output_below_user_minimum
    require_core (leb args.amount_out accounts.domain.content.accounted_b)
        insufficient_accounted_liquidity
    protocol_fee ← fee_ceil args.amount_in accounts.market.content.fee_bps
    require_core (leb protocol_fee args.max_protocol_fee) protocol_fee_above_user_maximum
    total_input_debit ←
        ok_or (checked_add_u64 args.amount_in protocol_fee) (core arithmetic_overflow)
    require_core (leb total_input_debit args.max_total_input_debit) total_debit_above_user_maximum
    post_accounted_a ←
        ok_or (checked_add_u64 accounts.domain.content.accounted_a args.amount_in)
          (core arithmetic_overflow)
    post_accounted_b ←
        ok_or (checked_sub_u64 accounts.domain.content.accounted_b args.amount_out)
          (core arithmetic_overflow)
    post_accounted_fee_a ←
        ok_or (checked_add_u64 accounts.fee_ledger.content.accounted_fee_a protocol_fee)
          (core arithmetic_overflow)
    ok (record {
      protocol_fee = protocol_fee;
      total_input_debit = total_input_debit;
      post_accounted_a = post_accounted_a;
      post_accounted_b = post_accounted_b;
      post_accounted_fee_a = post_accounted_fee_a;
    })

  -- The plan's digest, the call of the engine, and the tests of its receipt.
  unfoldable pub consult_engine :
      ExecuteEngineProbeV0 → ExecuteEngineProbeV0Args → ℕ → World → Result Failure Consulted
  consult_engine accounts args protocol_fee w = do
    plan_digest ← compute_plan_hash rt.hashv (plan_binding accounts args protocol_fee)
    payload ← encode_evaluate_instruction (engine_request accounts args protocol_fee plan_digest)
    w ← rt.invoke (engine_instruction accounts payload) (engine_infos accounts) w
    (receipt_setter, receipt_data) ← ok_or w.return_data (core missing_engine_receipt)
    require_core (receipt_setter == accounts.engine_program.key) invalid_engine_receipt_setter
    receipt ← read_receipt receipt_data
    require_core (receipt.plan_hash == plan_digest) engine_receipt_plan_mismatch
    ok (record { plan_digest = plan_digest; receipt = receipt; world = w })

  -- The three transfers, and the tests of what they did to the five token accounts.
  unfoldable pub settle :
      ExecuteEngineProbeV0 → Movement → World → Result Failure (ExecuteEngineProbeV0 × World)
  settle accounts m w = do
    w ← rt.transfer_checked (input_transfer accounts m.amount_in) w
    w ← rt.transfer_checked (fee_transfer accounts m.protocol_fee) w
    w ← rt.transfer_checked (output_transfer rt.program.domain_seed accounts m.amount_out) w
    user_source_a ← reload w accounts.user_source_a
    user_destination_b ← reload w accounts.user_destination_b
    vault_a ← reload w accounts.vault_a
    vault_b ← reload w accounts.vault_b
    fee_vault ← reload w accounts.fee_vault
    let settled = record accounts {
      user_source_a = user_source_a;
      user_destination_b = user_destination_b;
      vault_a = vault_a;
      vault_b = vault_b;
      fee_vault = fee_vault;
    }
    require_exact_deltas accounts settled m
    ok (settled, w)
