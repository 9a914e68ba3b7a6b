-- ===== src/Wire/Generated/Examples.antt =====
-- Concrete messages of the generated-settlement codec, and what the theorems say of them.
use programmable_solana.Base.{
  ℕ, ◌+◌, ◌≡◌, ◌⊎◌, refl, true, false, List, [], ◌∷◌, replicate, All, ok, ◌>>=◌, arith,
}
use programmable_solana.Base.Steps.{◌>>◌}
use programmable_solana.Wire.Bytes.{IsByte, le_bytes, of_le_bytes}
use programmable_solana.Wire.Cursor.{put_bytes, put_u8, finish, read_u8, read_array, assert_cursor}
use programmable_solana.Wire.Digest.{Collision}
use programmable_solana.Wire.Opaque.{
  CapabilityDescriptor, CodecError, flag, privilege_flags, capability_entry, capability_entries,
  encode_capabilities, compute_capability_hash, all_zero, validate_opaque_account_count,
  validate_opaque, require_length, require_version,
}
use programmable_solana.Wire.Opaque.Entries.{compute_capability_hash-binds}
use programmable_solana.Wire.Generated.{
  RequestBinding, EngineRequest, capability_hash_domain, max_capability_descriptors,
  validate_engine_request, encode_request, encode_evaluate_instruction, decode_request,
  decode_evaluate_instruction,
}
use programmable_solana.Wire.Generated.Rows.Binding
use programmable_solana.Wire.Generated.Rows.Request
use programmable_solana.Wire.Generated.RoundTrip.{evaluate_instruction_round_trip}
use programmable_solana.Wire.Generated.Canonical.{evaluate_instruction_canonical}
use programmable_solana.Wire.Generated.Binding.{compute_request_hash-binds}

-- A payload of two bytes, padded.
abbrev example_request : EngineRequest
example_request = record {
  request_hash = 0x1234;
  market = 7;
  domain = 8;
  engine_revision = 5;
  amount_in = 100_000;
  accounted_input_before = 1_000_000;
  accounted_output_before = 1_000_000;
  opaque_account_count = 1;
  capability_hash = 0x5678;
  payload_len = 2;
  payload = 9 ∷ 10 ∷ replicate 126 0;
}

example_request-IsValid : Request.IsValid example_request
example_request-IsValid = record {
  fits = ground arith;
  payload_long = refl;
  payload_bytes = ground arith;
  accounts_few = omega arith;
  payload_short = omega arith;
  padded = ground arith;
}

instruction_encoded :
    (bytes : List ℕ) × (encode_evaluate_instruction example_request ≡ ok bytes)
    × (decode_evaluate_instruction bytes ≡ ok example_request)
    × All IsByte bytes
unfolding encode_evaluate_instruction decode_evaluate_instruction encode_request put_bytes put_u8
    finish le_bytes decode_request require_length require_version read_u8 read_array assert_cursor
    of_le_bytes validate_engine_request validate_opaque validate_opaque_account_count all_zero ◌>>◌
instruction_encoded = (_, refl, refl, ground arith)

evaluate_instruction_round_trip_example :
    (encode_evaluate_instruction example_request >>= decode_evaluate_instruction)
    ≡ ok example_request
evaluate_instruction_round_trip_example =
    evaluate_instruction_round_trip example_request example_request-IsValid

evaluate_instruction_canonical_example :
    Request.IsValid example_request
    × (encode_evaluate_instruction example_request ≡ ok instruction_encoded.0)
evaluate_instruction_canonical_example =
    evaluate_instruction_canonical instruction_encoded.0 example_request instruction_encoded.3
      instruction_encoded.2

abbrev byte_sum : List ℕ → ℕ
byte_sum [] = 0
byte_sum (b ∷ bs) = b + byte_sum bs

abbrev sum_hashv : List (List ℕ) → ℕ
sum_hashv [] = 0
sum_hashv (part ∷ parts) = byte_sum part + sum_hashv parts

abbrev example_binding : RequestBinding
example_binding = Binding.of_row (
    1 ∷ 2 ∷ 3 ∷ 4 ∷ 5 ∷ 6 ∷ 7 ∷ 8 ∷ 9 ∷ 10 ∷ 11 ∷ 12 ∷ 13 ∷ 14 ∷ 15 ∷ 16 ∷ 17 ∷ 18 ∷ 19 ∷ 20 ∷ 21
    ∷ 22 ∷ 23 ∷ 24 ∷ 25 ∷ 26 ∷ 27 ∷ 28 ∷ [])

example_binding-IsValid : Binding.IsValid example_binding
example_binding-IsValid = ground arith

compute_request_hash-binds_example : (example_binding ≡ example_binding) ⊎ Collision sum_hashv
compute_request_hash-binds_example =
    compute_request_hash-binds {E = CodecError} sum_hashv example_binding example_binding
      example_binding-IsValid example_binding-IsValid refl

-- One address in two positions, once writable.
abbrev example_descriptors : List CapabilityDescriptor
example_descriptors =
    (record { key = 90; owner = 91; is_writable = true; is_signer = false; is_executable = false })
    ∷ (record {
      key = 90;
      owner = 91;
      is_writable = false;
      is_signer = false;
      is_executable = false;
    })
    ∷ []

abbrev example_engine : ℕ
example_engine = 31

descriptors_hashed :
    (digest : ℕ) × (compute_capability_hash capability_hash_domain max_capability_descriptors
        sum_hashv example_engine example_descriptors
      ≡ ok digest)
unfolding compute_capability_hash encode_capabilities capability_entries capability_entry
    privilege_flags flag le_bytes ◌>>◌
descriptors_hashed = (_, refl)

compute_capability_hash-binds_example :
    ((example_engine ≡ example_engine) × (example_descriptors ≡ example_descriptors))
    ⊎ Collision sum_hashv
compute_capability_hash-binds_example =
    compute_capability_hash-binds capability_hash_domain max_capability_descriptors sum_hashv
      example_engine example_engine example_descriptors example_descriptors descriptors_hashed.0
      (omega arith) (omega arith) (omega arith) (ground arith) (ground arith) descriptors_hashed.1
      descriptors_hashed.1
