-- ===== src/GeneratedEngine/Examples.antt =====
-- Concrete calls of the generated-plan engine, and what the theorems say of them.
use programmable_solana.Base.{
  ℕ, ◌+◌, ◌≡◌, ◌≢◌, refl, inr, true, false, none, some, List, [], ◌∷◌, ◌++◌, replicate, All, ok,
  err, ok_or, checked_add_u64, checked_sub_u64, checked_add_u128, checked_sub_u128,
  checked_mul_u128, checked_div_u128, try_u64, arith,
}
use programmable_solana.Base.Steps.{◌>>=◌, ◌>>◌}
use programmable_solana.Wire.Bytes.{IsByte, le_bytes, of_le_bytes}
use programmable_solana.Wire.Cursor.{put_bytes, put_u8, finish, read_u8, read_array, assert_cursor}
use programmable_solana.Wire.Opaque.{
  flag, privilege_flags, capability_entry, capability_entries, encode_capabilities,
  compute_capability_hash, all_zero, validate_opaque_account_count, validate_opaque, require_length,
  require_version,
}
use programmable_solana.Wire.Generated.{
  EngineRequest, EngineReceipt, validate_engine_request, payload_bytes, generated_capability_hash,
  encode_request, encode_receipt, decode_request, decode_receipt, disposable_core_program_id,
  disposable_engine_program_id,
}
use programmable_solana.Core.Constants.{instructions_sysvar_id}
use programmable_solana.Core.Runtime.{AccountInfo}
use programmable_solana.Cpmm.{quote_exact_in, effective_input_of, amount_out_of}
use programmable_solana.GeneratedEngine.State.{
  Call, EngineState, outside, require_engine, core_execute_engine_generated_probe_discriminator,
}
use programmable_solana.GeneratedEngine.Helper.{maybe_invoke_helper}
use programmable_solana.GeneratedEngine.{
  require_direct_core_cpi, capability_descriptor, observed_capabilities, chosen_output, answer,
  recorded, require_request, respond, conclude, evaluate,
}
use programmable_solana.GeneratedEngine.Answers.{
  IsHonestAnswer, evaluate-accept_priced, evaluate-garbled_refused,
}

abbrev byte_sum : List ℕ → ℕ
byte_sum [] = 0
byte_sum (b ∷ bs) = b + byte_sum bs

abbrev sum_hashv : List (List ℕ) → ℕ
sum_hashv [] = 1_000
sum_hashv (part ∷ parts) = byte_sum part + sum_hashv parts

abbrev sent_request : EngineRequest
sent_request = record {
  request_hash = 0x1234;
  market = 7;
  domain = 8;
  engine_revision = 5;
  amount_in = 100_000;
  accounted_input_before = 1_000_000;
  accounted_output_before = 1_000_000;
  opaque_account_count = 1;
  capability_hash = 17_357;
  payload_len = 2;
  payload = 9 ∷ 10 ∷ replicate 126 0;
}

sent_bytes : (bytes : List ℕ) × (encode_request sent_request ≡ ok bytes) × All IsByte bytes
unfolding encode_request validate_engine_request validate_opaque validate_opaque_account_count
    all_zero put_bytes put_u8 finish le_bytes ◌>>◌
sent_bytes = (_, refl, ground arith)

abbrev plain : ℕ → ℕ → AccountInfo
plain key owner = record {
  key = key;
  owner = owner;
  is_signer = false;
  is_writable = false;
  executable = false;
}

-- The runtime refuses the engine's escalation.
abbrev core_call : Call
core_call = record {
  engine_state = record (plain 32 disposable_engine_program_id) { is_writable = true };
  instructions_sysvar = plain instructions_sysvar_id 6;
  remaining_accounts = (record (plain 90 91) { is_writable = true }) ∷ [];
  stack_height = 2;
  current_index = some 0;
  instruction_at = λ k. some (record {
    program_id = disposable_core_program_id;
    accounts = [];
    payload = core_execute_engine_generated_probe_discriminator ++ (1 ∷ 2 ∷ []);
  });
  hashv = sum_hashv;
  create_program_address = λ seeds id. none;
  marker = λ key. none;
  hostile_payload = 1 ∷ [];
  invoke = λ instruction. err (outside 9);
  exit = ok tt;
  invoke_signed = λ instruction infos seeds. err (outside 9);
}

abbrev engine_in : ℕ → EngineState
engine_in mode = record {
  authority = 51;
  market = 7;
  revision = 5;
  lp_fee_bps = 30;
  sequence = 41;
  last_request_hash = 0;
  last_amount_out = 0;
  capability_authority_bump = 255;
  mode = mode;
}

evaluated :
    (r : EngineState × List ℕ) × (evaluate core_call sent_bytes.0 (engine_in 0)
      ≡ ok (r.0, some r.1))
unfolding evaluate sent_bytes require_direct_core_cpi require_engine require_request
    capability_descriptor observed_capabilities chosen_output answer recorded respond conclude
    maybe_invoke_helper payload_bytes generated_capability_hash compute_capability_hash
    encode_capabilities capability_entries capability_entry privilege_flags flag quote_exact_in
    effective_input_of amount_out_of ok_or checked_add_u64 checked_sub_u64 checked_add_u128
    checked_sub_u128 checked_mul_u128 checked_div_u128 try_u64 validate_engine_request
    validate_opaque validate_opaque_account_count all_zero decode_request encode_receipt put_bytes
    put_u8 finish le_bytes of_le_bytes read_u8 read_array assert_cursor require_length
    require_version ◌>>=◌ ◌>>◌
evaluated = ((_, _), refl)

evaluated_garbled :
    (r : EngineState × List ℕ) × (evaluate core_call sent_bytes.0 (engine_in 8)
      ≡ ok (r.0, some r.1))
unfolding evaluate sent_bytes require_direct_core_cpi require_engine require_request
    capability_descriptor observed_capabilities chosen_output answer recorded respond conclude
    maybe_invoke_helper payload_bytes generated_capability_hash compute_capability_hash
    encode_capabilities capability_entries capability_entry privilege_flags flag quote_exact_in
    effective_input_of amount_out_of ok_or checked_add_u64 checked_sub_u64 checked_add_u128
    checked_sub_u128 checked_mul_u128 checked_div_u128 try_u64 validate_engine_request
    validate_opaque validate_opaque_account_count all_zero decode_request encode_receipt put_bytes
    put_u8 finish le_bytes of_le_bytes read_u8 read_array assert_cursor require_length
    require_version ◌>>=◌ ◌>>◌
evaluated_garbled = ((_, _), refl)

evaluate-accept_priced_example :
    (request : EngineRequest) × (receipt : EngineReceipt) × (decode_request sent_bytes.0
      ≡ ok request)
    × IsHonestAnswer request (engine_in 0).lp_fee_bps evaluated.0.1 receipt
evaluate-accept_priced_example =
    evaluate-accept_priced core_call sent_bytes.0 (engine_in 0) evaluated.0.0 evaluated.0.1
      sent_bytes.2 refl evaluated.1

evaluate-garbled_refused_example :
    decode_receipt evaluated_garbled.0.1
    ≢ ok (record { request_hash = 0x1234; amount_out = 90_661; state_sequence = 42 })
evaluate-garbled_refused_example =
    evaluate-garbled_refused core_call sent_bytes.0 (engine_in 8) evaluated_garbled.0.0
      evaluated_garbled.0.1
      (record { request_hash = 0x1234; amount_out = 90_661; state_sequence = 42 })
      (inr (inr (inr refl))) evaluated_garbled.1
