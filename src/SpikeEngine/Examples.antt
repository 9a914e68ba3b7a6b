-- ===== src/SpikeEngine/Examples.antt =====
-- Concrete calls of the spike engine, and what the theorems say of them.
use programmable_solana.Base.{
  true, false, ℕ, ◌≡◌, refl, Option, some, List, [], ◌∷◌, ◌++◌, All, ok, err, ok_or, arith,
  checked_add_u64,
}
use programmable_solana.Base.Steps.{◌>>=◌, ◌>>◌}
use programmable_solana.Wire.Bytes.{IsByte, le_bytes, of_le_bytes}
use programmable_solana.Wire.Cursor.{put_bytes, put_u8, finish, read_u8, read_array, assert_cursor}
use programmable_solana.Wire.Probe.{
  EngineRequest, CodecError, encode_request, encode_receipt, require_length, require_version,
  decode_request, disposable_core_program_id, core_execute_engine_probe_discriminator,
}
use programmable_solana.Core.Runtime.{AccountInfo}
use programmable_solana.Core.Execute.{read_receipt}
use programmable_solana.SpikeEngine.{
  Call, EngineState, outside, require_probe, require_direct_core_cpi, answer, evaluate, set_mode,
}
use programmable_solana.SpikeEngine.Evaluates.{IsEvaluated, evaluate→IsEvaluated}
use programmable_solana.SpikeEngine.Answers.{evaluate-accept_receipt}

abbrev sent_request : EngineRequest
sent_request = record {
  plan_hash = 0x1234;
  market = 7;
  domain = 8;
  engine_revision = 5;
  amount_in = 1_001;
  amount_out = 900;
  protocol_fee = 4;
  accounted_input_before = 10_000;
  accounted_output_before = 20_000;
  accounted_fee_before = 40;
}

sent_bytes :
    (bytes : List ℕ) × (encode_request {E = CodecError} sent_request ≡ ok bytes) × All IsByte bytes
unfolding encode_request put_bytes put_u8 finish le_bytes
sent_bytes = (_, refl, ground arith)

-- The runtime refuses the engine's escalation.
abbrev core_call : Call
core_call = record {
  remaining_accounts = [];
  stack_height = 2;
  current_index = some 0;
  instruction_at = λ k. some (record {
    program_id = disposable_core_program_id;
    accounts = [];
    payload = core_execute_engine_probe_discriminator ++ (1 ∷ 2 ∷ []);
  });
  hostile_payload = 1 ∷ [];
  invoke = λ instruction. err (outside 9);
  exit = ok tt;
}

abbrev engine_in : ℕ → EngineState
engine_in mode = record {
  authority = 51;
  market = 7;
  revision = 5;
  sequence = 41;
  last_plan_hash = 0;
  mode = mode;
}

evaluated :
    (r : EngineState × Option (List ℕ)) × (evaluate core_call sent_bytes.0 (engine_in 0) ≡ ok r)
unfolding evaluate require_direct_core_cpi require_probe answer ◌>>=◌ ◌>>◌ ok_or checked_add_u64
    sent_bytes decode_request encode_receipt put_bytes put_u8 finish le_bytes of_le_bytes read_u8
    read_array assert_cursor require_length require_version
evaluated = (_, refl)

evaluate→IsEvaluated_example :
    IsEvaluated core_call sent_bytes.0 (engine_in 0) evaluated.0.0 evaluated.0.1
evaluate→IsEvaluated_example =
    evaluate→IsEvaluated core_call sent_bytes.0 (engine_in 0) evaluated.0.0 evaluated.0.1
      evaluated.1

evaluate-accept_receipt_example :
    (bytes : List ℕ) × (evaluated.0.1 ≡ some bytes)
    × (read_receipt bytes
        ≡ ok (record {
          plan_hash = evaluated.0.0.last_plan_hash;
          state_sequence = evaluated.0.0.sequence;
        }))
evaluate-accept_receipt_example =
    evaluate-accept_receipt core_call sent_bytes.0 (engine_in 0) evaluated.0.0 evaluated.0.1
      sent_bytes.2 refl evaluated.1

abbrev engine_authority : AccountInfo
engine_authority = record {
  key = 51;
  owner = 3;
  is_signer = true;
  is_writable = false;
  executable = false;
}

mode_changed : set_mode [] engine_authority 3 (engine_in 0) ≡ ok (engine_in 3)
unfolding set_mode require_probe ◌>>◌
mode_changed = refl
