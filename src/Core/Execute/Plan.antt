-- ===== src/Core/Execute/Plan.antt =====
-- What execute_engine_probe_v0.rs builds for its calls: the plan, the engine's request and
-- instruction, and the three token transfers.
use programmable_solana.Base.{ℕ, true, false, List, [], ◌∷◌, Result, map_err}
use programmable_solana.Wire.Bytes.{le_bytes}
use programmable_solana.Wire.Probe.{PlanBinding, EngineRequest, EngineReceipt, decode_receipt}
use programmable_solana.Core.Constants.{core_id}
use programmable_solana.Core.Error.{Failure, core, invalid_engine_receipt}
use programmable_solana.Core.Runtime.{AccountInfo, Transfer, Instruction}
use programmable_solana.Core.Execute.Accounts.{ExecuteEngineProbeV0Args, ExecuteEngineProbeV0}

unfoldable pub plan_binding : ExecuteEngineProbeV0 → ExecuteEngineProbeV0Args → ℕ → PlanBinding
plan_binding accounts args protocol_fee = record {
  core_program = core_id;
  market = accounts.market.info.key;
  domain = accounts.domain.info.key;
  engine_program = accounts.engine_program.key;
  engine_state = accounts.engine_state.key;
  user_authority = accounts.user.key;
  user_input = accounts.user_source_a.info.key;
  user_output = accounts.user_destination_b.info.key;
  mint_in = accounts.mint_a.info.key;
  mint_out = accounts.mint_b.info.key;
  domain_input_vault = accounts.vault_a.info.key;
  domain_output_vault = accounts.vault_b.info.key;
  protocol_fee_vault = accounts.fee_vault.info.key;
  fee_ledger = accounts.fee_ledger.info.key;
  token_program = accounts.token_program.key;
  engine_revision = accounts.market.content.engine_revision;
  fee_policy_revision = accounts.market.content.fee_policy_revision;
  amount_in = args.amount_in;
  amount_out = args.amount_out;
  protocol_fee = protocol_fee;
  max_total_input_debit = args.max_total_input_debit;
  min_output_credit = args.min_output_credit;
  max_protocol_fee = args.max_protocol_fee;
  accounted_input_before = accounts.domain.content.accounted_a;
  accounted_output_before = accounts.domain.content.accounted_b;
  accounted_fee_before = accounts.fee_ledger.content.accounted_fee_a;
  expires_at_slot = args.expires_at_slot;
}

unfoldable pub engine_request :
    ExecuteEngineProbeV0 → ExecuteEngineProbeV0Args → ℕ → ℕ → EngineRequest
engine_request accounts args protocol_fee plan_digest = record {
  plan_hash = plan_digest;
  market = accounts.market.info.key;
  domain = accounts.domain.info.key;
  engine_revision = accounts.market.content.engine_revision;
  amount_in = args.amount_in;
  amount_out = args.amount_out;
  protocol_fee = protocol_fee;
  accounted_input_before = accounts.domain.content.accounted_a;
  accounted_output_before = accounts.domain.content.accounted_b;
  accounted_fee_before = accounts.fee_ledger.content.accounted_fee_a;
}

unfoldable pub engine_instruction : ExecuteEngineProbeV0 → List ℕ → Instruction
engine_instruction accounts payload = record {
  program_id = accounts.engine_program.key;
  accounts =
      (record { pubkey = accounts.engine_state.key; is_signer = false; is_writable = true })
      ∷ (record {
        pubkey = accounts.instructions_sysvar.key;
        is_signer = false;
        is_writable = false;
      })
      ∷ [];
  payload = payload;
}

abbrev pub engine_infos : ExecuteEngineProbeV0 → List AccountInfo
engine_infos accounts = accounts.engine_state ∷ accounts.instructions_sysvar ∷ []

-- `decode_receipt(&receipt_data).map_err(|_| error!(CoreError::InvalidEngineReceipt))`
unfoldable pub read_receipt : List ℕ → Result Failure EngineReceipt
read_receipt receipt_data = map_err (λ _. core invalid_engine_receipt) (decode_receipt receipt_data)

-- The input, the fee, and the output, which the domain's address signs for.
unfoldable pub input_transfer : ExecuteEngineProbeV0 → ℕ → Transfer
input_transfer accounts amount = record {
  from = accounts.user_source_a.info.key;
  mint = accounts.mint_a.info.key;
  to = accounts.vault_a.info.key;
  authority = accounts.user.key;
  signer_seeds = [];
  amount = amount;
  decimals = accounts.mint_a.content.decimals;
}

unfoldable pub fee_transfer : ExecuteEngineProbeV0 → ℕ → Transfer
fee_transfer accounts amount = record {
  from = accounts.user_source_a.info.key;
  mint = accounts.mint_a.info.key;
  to = accounts.fee_vault.info.key;
  authority = accounts.user.key;
  signer_seeds = [];
  amount = amount;
  decimals = accounts.mint_a.content.decimals;
}

unfoldable pub output_transfer : List ℕ → ExecuteEngineProbeV0 → ℕ → Transfer
output_transfer domain_seed accounts amount = record {
  from = accounts.vault_b.info.key;
  mint = accounts.mint_b.info.key;
  to = accounts.user_destination_b.info.key;
  authority = accounts.domain.info.key;
  signer_seeds =
      (domain_seed
        ∷ le_bytes 32 accounts.market.info.key
        ∷ (accounts.domain.content.bump ∷ [])
        ∷ [])
      ∷ [];
  amount = amount;
  decimals = accounts.mint_b.content.decimals;
}
