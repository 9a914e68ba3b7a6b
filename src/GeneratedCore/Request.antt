-- ===== src/GeneratedCore/Request.antt =====
-- What execute_engine_generated_probe_v0.rs sends to the engine: the capability descriptors, the
-- binding and its digest, the metas and the account infos.
use programmable_solana.Base.{
  ℕ, ◌^◌, true, false, List, [], ◌∷◌, length, Result, ok, ok_or, map_err, ltb, if◌then◌else◌,
  Option, some, none, ◌==◌,
}
use programmable_solana.Wire.Opaque.{CapabilityDescriptor, CodecError}
use programmable_solana.Wire.Generated.{
  RequestBinding, new_engine_request, generated_capability_hash, generated_payload_hash,
  compute_request_hash, encode_evaluate_instruction,
}
use programmable_solana.Core.Error.{
  Failure, core, experiment, require_experiment, ◌>>=◌, ◌>>◌, integer_conversion_failed,
  invalid_wire_encoding, capability_hash_expectation_mismatch,
  opaque_normalized_privilege_unavailable,
}
use programmable_solana.Core.Runtime.{Runtime, AccountInfo, AccountMeta, Instruction, Context}
use programmable_solana.GeneratedCore.Accounts.{
  ExecuteEngineGeneratedProbeV0Args, ExecuteEngineGeneratedProbeV0, Limits, Prepared,
  fixed_envelope_keys,
}
use programmable_solana.GeneratedCore.Opaque.{validate_opaque_capabilities, normalized_info}

-- `.map_err(|_| error!(CoreError::InvalidWireEncoding))`
abbrev pub wire {ℓ} : {A : Type ℓ} → Result CodecError A → Result Failure A
wire r = map_err (λ _. experiment invalid_wire_encoding) r

unfoldable pub capability_descriptors :
    ExecuteEngineGeneratedProbeV0 → List CapabilityDescriptor → List CapabilityDescriptor
capability_descriptors accounts opaque =
    (record {
      key = accounts.engine_state.key;
      owner = accounts.engine_state.owner;
      is_writable = true;
      is_signer = false;
      is_executable = false;
    })
    ∷ (record {
      key = accounts.instructions_sysvar.key;
      owner = accounts.instructions_sysvar.owner;
      is_writable = false;
      is_signer = false;
      is_executable = false;
    })
    ∷ opaque

unfoldable pub request_binding :
    Runtime
    → ExecuteEngineGeneratedProbeV0
    → ExecuteEngineGeneratedProbeV0Args
    → ℕ
    → ℕ
    → ℕ
    → RequestBinding
request_binding rt accounts args protocol_fee capability_hash payload_hash = record {
  core_program = rt.program.id;
  market = accounts.market.info.key;
  domain = accounts.domain.info.key;
  engine_program = accounts.engine_program.key;
  engine_state = accounts.engine_state.key;
  user_authority = accounts.user.key;
  user_input = accounts.user_source_a.info.key;
  user_output = accounts.user_destination_b.info.key;
  mint_in = accounts.mint_a.info.key;
  mint_out = accounts.mint_b.info.key;
  domain_input_vault = accounts.vault_a.info.key;
  domain_output_vault = accounts.vault_b.info.key;
  protocol_fee_vault = accounts.fee_vault.info.key;
  fee_ledger = accounts.fee_ledger.info.key;
  token_program = accounts.token_program.key;
  engine_revision = accounts.market.content.engine_revision;
  fee_policy_revision = accounts.market.content.fee_policy_revision;
  amount_in = args.amount_in;
  protocol_fee = protocol_fee;
  max_total_input_debit = args.max_total_input_debit;
  min_output_credit = args.min_output_credit;
  max_protocol_fee = args.max_protocol_fee;
  accounted_input_before = accounts.domain.content.accounted_a;
  accounted_output_before = accounts.domain.content.accounted_b;
  accounted_fee_before = accounts.fee_ledger.content.accounted_fee_a;
  expires_at_slot = args.expires_at_slot;
  capability_hash = capability_hash;
  payload_hash = payload_hash;
}

-- `u16::try_from(n)` and `u8::try_from(n)`
abbrev pub try_u16 : ℕ → Option ℕ
try_u16 n = if ltb n (2 ^ 16) then some n else none

abbrev pub try_u8 : ℕ → Option ℕ
try_u8 n = if ltb n (2 ^ 8) then some n else none

unfoldable pub opaque_metas : List CapabilityDescriptor → List AccountMeta
opaque_metas [] = []
opaque_metas (descriptor ∷ rest) =
    (record { pubkey = descriptor.key; is_signer = false; is_writable = descriptor.is_writable })
    ∷ opaque_metas rest

unfoldable pub engine_instruction :
    ExecuteEngineGeneratedProbeV0 → List CapabilityDescriptor → List ℕ → Instruction
engine_instruction accounts opaque payload = record {
  program_id = accounts.engine_program.key;
  accounts =
      (record { pubkey = accounts.engine_state.key; is_signer = false; is_writable = true })
      ∷ (record {
        pubkey = accounts.instructions_sysvar.key;
        is_signer = false;
        is_writable = false;
      })
      ∷ opaque_metas opaque;
  payload = payload;
}

unfoldable pub opaque_infos :
    List AccountInfo → List CapabilityDescriptor → Result Failure (List AccountInfo)
opaque_infos remaining [] = ok []
opaque_infos remaining (descriptor ∷ rest) = do
  info ←
      ok_or (normalized_info descriptor remaining)
        (experiment opaque_normalized_privilege_unavailable)
  infos ← opaque_infos remaining rest
  ok (info ∷ infos)

-- From the validation of the opaque accounts to the engine's instruction and its infos.
unfoldable pub prepare :
    Runtime
    → Context ExecuteEngineGeneratedProbeV0
    → ExecuteEngineGeneratedProbeV0Args
    → Limits
    → Result Failure Prepared
prepare rt ctx args limits = do
  let accounts = ctx.accounts
  opaque ← validate_opaque_capabilities rt (fixed_envelope_keys rt accounts) ctx.remaining_accounts
  capability_hash ← wire (
      generated_capability_hash rt.hashv accounts.engine_program.key
        (capability_descriptors accounts opaque))
  require_experiment (capability_hash == args.expected_capability_hash)
      capability_hash_expectation_mismatch
  payload_hash ← wire (generated_payload_hash rt.hashv args.opaque_payload)
  request_hash ←
      compute_request_hash rt.hashv
        (request_binding rt accounts args limits.protocol_fee capability_hash payload_hash)
  opaque_account_count ←
      ok_or (try_u16 (length ctx.remaining_accounts)) (core integer_conversion_failed)
  request ← wire (
      new_engine_request request_hash accounts.market.info.key accounts.domain.info.key
        accounts.market.content.engine_revision args.amount_in accounts.domain.content.accounted_a
        accounts.domain.content.accounted_b opaque_account_count capability_hash
        args.opaque_payload)
  payload ← wire (encode_evaluate_instruction request)
  infos ← opaque_infos ctx.remaining_accounts opaque
  ok (record {
    capability_hash = capability_hash;
    payload_hash = payload_hash;
    request_hash = request_hash;
    opaque_account_count = opaque_account_count;
    instruction = engine_instruction accounts opaque payload;
    infos = accounts.engine_state ∷ accounts.instructions_sysvar ∷ infos;
  })
