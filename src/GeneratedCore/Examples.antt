-- ===== src/GeneratedCore/Examples.antt =====
-- A swap on a small market of the generated-settlement core, and what the theorems say of it.
use programmable_solana.Base.{
  ℕ, ◌≡◌, ◌≤◌, refl, false, Bool, none, some, List, [], ◌∷◌, length, Result, ok, ok_or, map_err,
  ◌==◌, if◌then◌else◌, checked_add_u64, checked_sub_u64, checked_mul_u128, checked_add_u128,
  checked_div_u128, try_u64, ◌∙◌,
}
use programmable_solana.Wire.Bytes.{le_bytes, of_le_bytes}
use programmable_solana.Wire.Cursor.{put_bytes, put_u8, finish, read_u8, read_array, assert_cursor}
use programmable_solana.Wire.Opaque.{
  CapabilityDescriptor, flag, privilege_flags, capability_entry, capability_entries,
  encode_capabilities, compute_capability_hash, encode_payload, compute_payload_hash,
  canonical_payload, all_zero, validate_opaque_account_count, validate_opaque, require_length,
  require_version,
}
use programmable_solana.Wire.Generated.{
  EngineReceipt, new_engine_request, validate_engine_request, generated_capability_hash,
  generated_payload_hash, encode_request_binding, compute_request_hash, encode_receipt,
  encode_request, decode_request, encode_evaluate_instruction, decode_evaluate_instruction,
  decode_receipt,
}
use programmable_solana.Core.Constants.{instructions_sysvar_id}
use programmable_solana.Core.Error.{
  Failure, external, ◌>>=◌, ◌>>◌, require_anchor, require_core, require_experiment, ok->>=, ok->>,
}
use programmable_solana.Core.Runtime.{
  Runtime, AccountInfo, TokenAccount, Context, World, Instruction, reload,
}
use programmable_solana.Core.Math.{fee_ceil}
use programmable_solana.Core.Validation.{
  market_address, domain_address, fee_ledger_address, any_equal, ensure_distinct_roles,
  validate_market_domain, validate_fee_ledger, canonical_domain_vault, canonical_fee_vault,
  validate_classic_mint, validate_common_token_account, validate_protected_token_account,
  validate_credit_destination, require_raw_covers_accounted, exact_debit, exact_credit,
}
use programmable_solana.Core.Execute.{
  ExecuteEngineProbeV0, admit_canonical, admit_tokens, settle, require_exact_deltas, input_transfer,
  fee_transfer, output_transfer,
}
use programmable_solana.Core.Execute.{check_execute_engine_probe_v0}
use programmable_solana.Core.Execute.Schema.{IsMarketEnvelope}
use programmable_solana.Core.Constraints.{
  signer, mutable, derived, token_mint, token_authority, address_is, program,
}
use programmable_solana.Core.Examples.{
  small_runtime, plain, writable, authority, executable_program, example_mint, holding,
  token_account, example_market, example_domain, example_fee_ledger, example_world, user_a, user_b,
}
use programmable_solana.GeneratedCore.Program.{generated_core}
use programmable_solana.GeneratedCore.{
  ExecuteEngineGeneratedProbeV0Args, Generated, Limits, Prepared, AcceptedEnginePlan,
  fixed_envelope_keys, capability_descriptors, request_binding, opaque_metas, engine_instruction,
  opaque_infos, prepare, admit_envelope, limit, consult, settlement_hash, accept,
  settle_engine_generated_probe, execute_engine_generated_probe,
  handle_execute_engine_generated_probe_v0,
}
use programmable_solana.GeneratedCore.Opaque.{
  validate_opaque_payload, any_privileged, opaque_descriptor, opaque_descriptors,
  validate_opaque_capabilities, is_normalized, normalized_info,
}
use programmable_solana.GeneratedCore.Capabilities.{
  IsForwardable, Each, validate_opaque_capabilities→Each,
}
use programmable_solana.GeneratedCore.Availability.{opaque_infos_total}
use programmable_solana.GeneratedCore.Fairness.{
  IsGenerated, IsEngineSwap, execute_engine_generated_probe→IsGenerated,
  handle_execute_engine_generated_probe_v0-IsEngineSwap,
}

-- An engine that answers every request with an output of 950.
abbrev generating_engine : Instruction → List AccountInfo → World → Result Failure World
generating_engine instruction infos w = do
  request ← map_err (λ _. external 1) (decode_evaluate_instruction instruction.payload)
  receipt ←
      encode_receipt
        (record { request_hash = request.request_hash; amount_out = 950; state_sequence = 7 })
  ok (record w { return_data = some (instruction.program_id, receipt) })

abbrev generated_runtime : Runtime
generated_runtime = record small_runtime { program = generated_core; invoke = generating_engine }

abbrev vault_a : TokenAccount
vault_a = holding 21 3147 10_500

abbrev vault_b : TokenAccount
vault_b = holding 22 3147 20_000

abbrev fee_vault : TokenAccount
fee_vault = holding 21 3512 40

abbrev generated_world : World
generated_world = record example_world {
  token = λ k.
      if k == 3097
      then some vault_a
      else if k == 3098
      then some vault_b
      else if k == 3556
      then some fee_vault
      else if k == 71
      then some user_a
      else if k == 72
      then some user_b
      else none;
}

abbrev generated_accounts : ExecuteEngineProbeV0
generated_accounts = record {
  user = authority 61;
  market = record { info = plain 3121 5; content = example_market };
  domain = record { info = writable 3147 5; content = record example_domain { market = 3121 } };
  fee_ledger = record {
    info = writable 3512 5;
    content = record example_fee_ledger { market = 3121 };
  };
  mint_a = example_mint 21;
  mint_b = example_mint 22;
  user_source_a = token_account 71 user_a;
  user_destination_b = token_account 72 user_b;
  vault_a = token_account 3097 vault_a;
  vault_b = token_account 3098 vault_b;
  fee_vault = token_account 3556 fee_vault;
  engine_program = executable_program 31;
  engine_state = writable 32 31;
  instructions_sysvar = plain instructions_sysvar_id 6;
  token_program = executable_program 2;
}

-- One opaque account in two positions, the second with the write privilege.
abbrev opaque_accounts : List AccountInfo
opaque_accounts = plain 90 91 ∷ writable 90 91 ∷ []

abbrev generated_context : Context ExecuteEngineProbeV0
generated_context = record { accounts = generated_accounts; remaining_accounts = opaque_accounts }

abbrev generated_args : ExecuteEngineGeneratedProbeV0Args
generated_args = record {
  amount_in = 1_001;
  max_total_input_debit = 1_010;
  min_output_credit = 900;
  max_protocol_fee = 5;
  expires_at_slot = 60;
  expected_capability_hash = 9_987;
  opaque_payload = 8 ∷ 9 ∷ [];
}

generated_admitted : admit_envelope generated_runtime generated_accounts generated_args ≡ ok tt
unfolding admit_envelope validate_opaque_payload admit_canonical admit_tokens ◌>>=◌ ◌>>◌
    require_core require_experiment ok_or any_equal ensure_distinct_roles validate_market_domain
    validate_fee_ledger canonical_domain_vault canonical_fee_vault le_bytes validate_classic_mint
    validate_common_token_account validate_protected_token_account validate_credit_destination
    require_raw_covers_accounted
generated_admitted = refl

generated_limits : (l : Limits) × (limit generated_runtime generated_accounts generated_args ≡ ok l)
unfolding limit ◌>>=◌ ◌>>◌ require_core require_experiment ok_or fee_ceil checked_add_u64
    checked_sub_u64 checked_mul_u128 checked_add_u128 checked_div_u128 try_u64
generated_limits = (_, refl)

opaque_validated :
    (ds : List CapabilityDescriptor) × (validate_opaque_capabilities generated_runtime
        (fixed_envelope_keys generated_runtime generated_accounts)
        opaque_accounts
      ≡ ok ds)
unfolding validate_opaque_capabilities opaque_descriptors opaque_descriptor any_privileged any_equal
    ◌>>=◌ ◌>>◌ require_experiment
opaque_validated = (_, refl)

generated_prepared :
    (p : Prepared) × (prepare generated_runtime generated_context generated_args generated_limits.0
      ≡ ok p)
unfolding prepare generated_limits validate_opaque_capabilities opaque_descriptors opaque_descriptor
    any_privileged any_equal ◌>>=◌ ◌>>◌ require_core require_experiment ok_or capability_descriptors
    request_binding opaque_metas engine_instruction opaque_infos is_normalized normalized_info flag
    privilege_flags capability_entry capability_entries encode_capabilities compute_capability_hash
    encode_payload compute_payload_hash canonical_payload all_zero validate_opaque_account_count
    validate_opaque new_engine_request validate_engine_request generated_capability_hash
    generated_payload_hash encode_request_binding compute_request_hash encode_request
    encode_evaluate_instruction put_bytes put_u8 finish le_bytes
generated_prepared = (_, refl)

generated_answered :
    (a : EngineReceipt × World) × (consult generated_runtime generated_accounts generated_args
        generated_prepared.0 generated_world
      ≡ ok a)
unfolding consult generated_prepared generated_limits ◌>>=◌ ◌>>◌ require_core require_experiment
    ok_or all_zero validate_opaque_account_count validate_opaque validate_engine_request
    encode_receipt decode_request decode_evaluate_instruction decode_receipt put_bytes put_u8 finish
    le_bytes of_le_bytes read_u8 read_array assert_cursor require_length require_version
generated_answered = (_, refl)

generated_accepted :
    (plan : AcceptedEnginePlan) × (accept generated_runtime generated_accounts generated_limits.0
        generated_prepared.0 generated_answered.0.0
      ≡ ok plan)
unfolding accept generated_answered generated_prepared generated_limits settlement_hash ◌>>=◌ ◌>>◌
    ok_or checked_sub_u64 le_bytes
generated_accepted = (_, refl)

generated_settled :
    (g : Generated) × (settle_engine_generated_probe generated_runtime generated_accounts
        generated_args generated_accepted.0 generated_answered.0.1
      ≡ ok g)
unfolding settle_engine_generated_probe settle generated_accepted generated_answered
    generated_prepared generated_limits ◌>>=◌ ◌>>◌ reload require_exact_deltas exact_debit
    exact_credit ok_or checked_sub_u64 input_transfer fee_transfer output_transfer
generated_settled = (_, refl)

generated_executed :
    (g : Generated) × (handle_execute_engine_generated_probe_v0 generated_runtime generated_context
        generated_args generated_world
      ≡ ok g)
unfolding handle_execute_engine_generated_probe_v0
generated_executed = (
  generated_settled.0,
  ok->> _ _ generated_admitted
      ∙ ok->>= _ _ generated_limits.1
      ∙ ok->>= _ _ generated_prepared.1
      ∙ ok->>= _ _ generated_answered.1
      ∙ ok->>= _ _ generated_accepted.1
      ∙ generated_settled.1,
)

generated_envelope : check_execute_engine_probe_v0 generated_runtime generated_accounts ≡ ok tt
unfolding check_execute_engine_probe_v0 ◌>>=◌ ◌>>◌ require_core require_anchor ok_or signer mutable
    derived token_mint token_authority address_is program market_address domain_address
    fee_ledger_address le_bytes
generated_envelope = refl

generated_entered :
    execute_engine_generated_probe generated_runtime generated_context generated_args
      generated_world
    ≡ ok generated_executed.0
unfolding execute_engine_generated_probe
generated_entered = ok->> _ _ generated_envelope ∙ generated_executed.1

handle_execute_engine_generated_probe_v0-IsEngineSwap_example :
    IsEngineSwap generated_runtime generated_context generated_args generated_world
      generated_executed.0
handle_execute_engine_generated_probe_v0-IsEngineSwap_example =
    handle_execute_engine_generated_probe_v0-IsEngineSwap generated_runtime generated_context
      generated_args generated_world generated_executed.0 generated_executed.1

execute_engine_generated_probe→IsGenerated_example :
    IsMarketEnvelope generated_runtime generated_accounts
    × IsGenerated generated_runtime generated_context generated_args generated_world
        generated_executed.0
execute_engine_generated_probe→IsGenerated_example =
    execute_engine_generated_probe→IsGenerated generated_runtime generated_context generated_args
      generated_world generated_executed.0 generated_entered

validate_opaque_capabilities→Each_example :
    (length opaque_accounts ≤ 8)
    × Each
        (IsForwardable generated_runtime
          (fixed_envelope_keys generated_runtime generated_accounts)
          opaque_accounts)
        opaque_accounts
        opaque_validated.0
validate_opaque_capabilities→Each_example =
    validate_opaque_capabilities→Each generated_runtime
      (fixed_envelope_keys generated_runtime generated_accounts) opaque_accounts opaque_validated.0
      opaque_validated.1

-- Every address is a plain account of the owner 91.
abbrev example_ledger : ℕ → ℕ × Bool
example_ledger key = (91, false)

opaque_infos_total_example :
    (infos : List AccountInfo) × (opaque_infos opaque_accounts opaque_validated.0 ≡ ok infos)
opaque_infos_total_example =
    opaque_infos_total generated_runtime (fixed_envelope_keys generated_runtime generated_accounts)
      opaque_accounts example_ledger opaque_validated.0 (((refl, refl), ((refl, refl), tt)))
      opaque_validated.1
