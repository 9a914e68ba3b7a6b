-- ===== src/Wire/Probe/Examples.antt =====
-- Concrete messages of crates/engine-probe-interface/src/lib.rs, and what the theorems say of them.
use programmable_solana.Base.{ℕ, ◌+◌, ◌≡◌, ◌⊎◌, refl, List, [], ◌∷◌, All, ok, ◌>>=◌, arith}
use programmable_solana.Wire.Bytes.{IsByte, le_bytes, of_le_bytes}
use programmable_solana.Wire.Cursor.{put_bytes, put_u8, finish, read_u8, read_array, assert_cursor}
use programmable_solana.Wire.Probe.{
  PlanBinding, EngineRequest, EngineReceipt, CodecError, encode_request,
  encode_evaluate_instruction, encode_receipt, require_length, require_version, decode_request,
  decode_evaluate_instruction, decode_receipt,
}
use programmable_solana.Wire.Probe.Request
use programmable_solana.Wire.Probe.Receipt
use programmable_solana.Wire.Probe.Plan
use programmable_solana.Wire.Probe.RoundTrip.{
  decode_evaluate_instruction-encode_evaluate_instruction, decode_receipt-encode_receipt,
}
use programmable_solana.Wire.Probe.Canonical.{
  request_answer, receipt_answer, decode_receipt-canonical, decode_evaluate_instruction-canonical,
  decode_request-request_answer, decode_receipt-receipt_answer,
}
use programmable_solana.Wire.Digest.{Collision}
use programmable_solana.Wire.Probe.Binding.{compute_plan_hash-injective}

abbrev example_request : EngineRequest
example_request = record {
  plan_hash = 0x1234;
  market = 7;
  domain = 8;
  engine_revision = 5;
  amount_in = 1_001;
  amount_out = 900;
  protocol_fee = 4;
  accounted_input_before = 10_000;
  accounted_output_before = 20_000;
  accounted_fee_before = 40;
}

abbrev example_receipt : EngineReceipt
example_receipt = record { plan_hash = 0x1234; state_sequence = 258 }

abbrev example_plan : PlanBinding
example_plan = Plan.of_row (
    1 ∷ 2 ∷ 3 ∷ 4 ∷ 5 ∷ 6 ∷ 7 ∷ 8 ∷ 9 ∷ 10 ∷ 11 ∷ 12 ∷ 13 ∷ 14 ∷ 15 ∷ 16 ∷ 17 ∷ 18 ∷ 19 ∷ 20 ∷ 21
    ∷ 22 ∷ 23 ∷ 24 ∷ 25 ∷ 26 ∷ 27 ∷ [])

example_request-IsValid : Request.IsValid example_request
example_request-IsValid = ground arith

example_receipt-IsValid : Receipt.IsValid example_receipt
example_receipt-IsValid = ground arith

example_plan-IsValid : Plan.IsValid example_plan
example_plan-IsValid = ground arith

request_encoded :
    (bytes : List ℕ) × (encode_request {E = CodecError} example_request ≡ ok bytes)
    × (decode_request bytes ≡ ok example_request)
    × All IsByte bytes
unfolding encode_request put_bytes put_u8 finish le_bytes decode_request require_length
    require_version read_u8 read_array assert_cursor of_le_bytes
request_encoded = (_, refl, refl, ground arith)

instruction_encoded :
    (bytes : List ℕ) × (encode_evaluate_instruction {E = CodecError} example_request ≡ ok bytes)
    × (decode_evaluate_instruction bytes ≡ ok example_request)
    × All IsByte bytes
unfolding encode_evaluate_instruction decode_evaluate_instruction encode_request put_bytes put_u8
    finish le_bytes decode_request require_length require_version read_u8 read_array assert_cursor
    of_le_bytes
instruction_encoded = (_, refl, refl, ground arith)

receipt_encoded :
    (bytes : List ℕ) × (encode_receipt {E = CodecError} example_receipt ≡ ok bytes)
    × (decode_receipt bytes ≡ ok example_receipt)
    × All IsByte bytes
unfolding encode_receipt put_bytes put_u8 finish le_bytes decode_receipt require_length
    require_version read_u8 read_array assert_cursor of_le_bytes
receipt_encoded = (_, refl, refl, ground arith)

decode_evaluate_instruction-encode_evaluate_instruction_example :
    (encode_evaluate_instruction example_request >>= decode_evaluate_instruction)
    ≡ ok example_request
decode_evaluate_instruction-encode_evaluate_instruction_example =
    decode_evaluate_instruction-encode_evaluate_instruction example_request example_request-IsValid

decode_receipt-encode_receipt_example :
    (encode_receipt example_receipt >>= decode_receipt) ≡ ok example_receipt
decode_receipt-encode_receipt_example =
    decode_receipt-encode_receipt example_receipt example_receipt-IsValid

decode_evaluate_instruction-canonical_example :
    Request.IsValid example_request
    × (encode_evaluate_instruction {E = CodecError} example_request ≡ ok instruction_encoded.0)
decode_evaluate_instruction-canonical_example =
    decode_evaluate_instruction-canonical instruction_encoded.0 example_request
      instruction_encoded.3 instruction_encoded.2

decode_receipt-canonical_example :
    Receipt.IsValid example_receipt
    × (encode_receipt {E = CodecError} example_receipt ≡ ok receipt_encoded.0)
decode_receipt-canonical_example =
    decode_receipt-canonical receipt_encoded.0 example_receipt receipt_encoded.3 receipt_encoded.2

decode_request-request_answer_example : decode_request (9 ∷ []) ≡ request_answer (9 ∷ [])
decode_request-request_answer_example = decode_request-request_answer (9 ∷ [])

decode_receipt-receipt_answer_example :
    decode_receipt receipt_encoded.0 ≡ receipt_answer receipt_encoded.0
decode_receipt-receipt_answer_example = decode_receipt-receipt_answer receipt_encoded.0

abbrev byte_sum : List ℕ → ℕ
byte_sum [] = 0
byte_sum (b ∷ bs) = b + byte_sum bs

abbrev example_hashv : List (List ℕ) → ℕ
example_hashv [] = 0
example_hashv (part ∷ parts) = byte_sum part + example_hashv parts

compute_plan_hash-injective_example : (example_plan ≡ example_plan) ⊎ Collision example_hashv
compute_plan_hash-injective_example =
    compute_plan_hash-injective {E = CodecError} example_hashv example_plan example_plan
      example_plan-IsValid example_plan-IsValid refl
