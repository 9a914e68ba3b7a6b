-- ===== src/GeneratedCore/Accounts.antt =====
-- The arguments, the account schema, the event and the intermediate results of
-- execute_engine_generated_probe_v0.rs.
use programmable_solana.Base.{ℕ, List, [], ◌∷◌, ◌++◌}
use programmable_solana.Core.Runtime.{Runtime, AccountInfo, Instruction, World}
use programmable_solana.Core.Execute.{
  ExecuteEngineProbeV0, ExecuteEngineProbeV0Args, Quote, Movement, execute_roles,
}

pub record ExecuteEngineGeneratedProbeV0Args : Type 0 where
  pub amount_in : ℕ
  pub max_total_input_debit : ℕ
  pub min_output_credit : ℕ
  pub max_protocol_fee : ℕ
  pub expires_at_slot : ℕ
  pub expected_capability_hash : ℕ
  pub opaque_payload : List ℕ

-- The schema has the fields and the constraints of programs/core's.
abbrev pub ExecuteEngineGeneratedProbeV0 : Type 0
ExecuteEngineGeneratedProbeV0 = ExecuteEngineProbeV0

pub record AcceptedEnginePlan : Type 0 where
  pub amount_out : ℕ
  pub protocol_fee : ℕ
  pub total_input_debit : ℕ
  pub request_hash : ℕ
  pub capability_hash : ℕ
  pub payload_hash : ℕ
  pub settlement_hash : ℕ
  pub engine_sequence : ℕ
  pub opaque_account_count : ℕ
  pub post_accounted_a : ℕ
  pub post_accounted_b : ℕ
  pub post_accounted_fee_a : ℕ

pub record EngineGeneratedProbeExecutedV0 : Type 0 where
  pub market : ℕ
  pub domain : ℕ
  pub engine_program : ℕ
  pub engine_state : ℕ
  pub user : ℕ
  pub mint_a : ℕ
  pub mint_b : ℕ
  pub amount_in : ℕ
  pub amount_out : ℕ
  pub protocol_fee : ℕ
  pub request_hash : ℕ
  pub capability_hash : ℕ
  pub payload_hash : ℕ
  pub settlement_hash : ℕ
  pub engine_sequence : ℕ
  pub opaque_account_count : ℕ
  pub post_accounted_a : ℕ
  pub post_accounted_b : ℕ
  pub post_accounted_fee_a : ℕ

pub record Generated : Type 0 where
  pub accounts : ExecuteEngineGeneratedProbeV0
  pub world : World
  pub event : EngineGeneratedProbeExecutedV0

-- What the handler computes of the input alone.
pub record Limits : Type 0 where
  pub protocol_fee : ℕ
  pub total_input_debit : ℕ
  pub post_accounted_a : ℕ
  pub post_accounted_fee_a : ℕ

-- The request for the engine with the digests that it commits to.
pub record Prepared : Type 0 where
  pub capability_hash : ℕ
  pub payload_hash : ℕ
  pub request_hash : ℕ
  pub opaque_account_count : ℕ
  pub instruction : Instruction
  pub infos : List AccountInfo

abbrev pub fixed_envelope_keys : Runtime → ExecuteEngineGeneratedProbeV0 → List ℕ
fixed_envelope_keys rt accounts = execute_roles accounts ++ (rt.program.id ∷ [])

-- The settlement's arguments where the engine has chosen the output.
abbrev pub with_output : ExecuteEngineGeneratedProbeV0Args → ℕ → ExecuteEngineProbeV0Args
with_output args amount_out = record {
  amount_in = args.amount_in;
  amount_out = amount_out;
  max_total_input_debit = args.max_total_input_debit;
  min_output_credit = args.min_output_credit;
  max_protocol_fee = args.max_protocol_fee;
  expires_at_slot = args.expires_at_slot;
}

abbrev pub plan_quote : AcceptedEnginePlan → Quote
plan_quote plan = record {
  protocol_fee = plan.protocol_fee;
  total_input_debit = plan.total_input_debit;
  post_accounted_a = plan.post_accounted_a;
  post_accounted_b = plan.post_accounted_b;
  post_accounted_fee_a = plan.post_accounted_fee_a;
}

abbrev pub plan_movement : ExecuteEngineGeneratedProbeV0Args → AcceptedEnginePlan → Movement
plan_movement args plan = record {
  amount_in = args.amount_in;
  amount_out = plan.amount_out;
  protocol_fee = plan.protocol_fee;
  total_input_debit = plan.total_input_debit;
}
