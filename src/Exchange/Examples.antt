-- ===== src/Exchange/Examples.antt =====
-- A swap of the generated-settlement core on an answer of the generated-plan engine, and what the
-- theorem on their exchange says of it.
use programmable_solana.Base.{
  ℕ, ◌≡◌, ◌≤◌, refl, none, some, List, [], ◌∷◌, take, drop, Option, Result, ok, err, ok_or, map_err,
  map_err-eq-ok, ok-injective, ap, ◌==◌, if◌then◌else◌, checked_add_u64, checked_sub_u64,
  checked_mul_u128, checked_add_u128, checked_sub_u128, checked_div_u128, try_u64, ◌∙◌, arith,
}
use programmable_solana.Wire.Bytes.{le_bytes, of_le_bytes}
use programmable_solana.Wire.Cursor.{put_bytes, put_u8, finish, read_u8, read_array, assert_cursor}
use programmable_solana.Wire.Opaque.{
  flag, privilege_flags, capability_entry, capability_entries, encode_capabilities,
  compute_capability_hash, encode_payload, compute_payload_hash, canonical_payload, all_zero,
  validate_opaque_account_count, validate_opaque, require_length, require_version,
}
use programmable_solana.Wire.Generated.{
  EngineReceipt, disposable_core_program_id, disposable_engine_program_id, new_engine_request,
  validate_engine_request, payload_bytes, generated_capability_hash, generated_payload_hash,
  encode_request_binding, compute_request_hash, encode_receipt, encode_request, decode_request,
  encode_evaluate_instruction, decode_receipt,
}
use programmable_solana.Core.Constants.{instructions_sysvar_id}
use programmable_solana.Core.Error.{
  Failure, external, ◌>>=◌, ◌>>◌, >>=-eq-ok, require_core, require_experiment, ok->>=, ok->>,
}
use programmable_solana.Core.Runtime.{
  Runtime, AccountInfo, TokenAccount, Context, World, Instruction, reload,
}
use programmable_solana.Core.Math.{fee_ceil}
use programmable_solana.Core.Validation.{
  any_equal, ensure_distinct_roles, validate_market_domain, validate_fee_ledger,
  canonical_domain_vault, canonical_fee_vault, validate_classic_mint, validate_common_token_account,
  validate_protected_token_account, validate_credit_destination, require_raw_covers_accounted,
  exact_debit, exact_credit,
}
use programmable_solana.Core.Execute.{
  ExecuteEngineProbeV0, admit_canonical, admit_tokens, settle, require_exact_deltas, input_transfer,
  fee_transfer, output_transfer,
}
use programmable_solana.Core.Examples.{
  small_runtime, plain, writable, authority, executable_program, example_mint, holding,
  token_account, example_market, example_domain, example_fee_ledger, example_world, user_a, user_b,
}
use programmable_solana.GeneratedCore.Program.{generated_core}
use programmable_solana.GeneratedCore.{
  ExecuteEngineGeneratedProbeV0Args, Generated, Limits, Prepared, AcceptedEnginePlan,
  capability_descriptors, request_binding, opaque_metas, engine_instruction, opaque_infos, prepare,
  admit_envelope, limit, consult, settlement_hash, accept, settle_engine_generated_probe,
  handle_execute_engine_generated_probe_v0,
}
use programmable_solana.GeneratedCore.Opaque.{
  validate_opaque_payload, any_privileged, opaque_descriptor, opaque_descriptors,
  validate_opaque_capabilities, is_normalized, normalized_info,
}
use programmable_solana.Cpmm.{quote_exact_in, effective_input_of, amount_out_of}
use programmable_solana.GeneratedEngine.State.{
  Call, EngineState, outside, require_engine, core_execute_engine_generated_probe_discriminator,
}
use programmable_solana.GeneratedEngine.Helper.{maybe_invoke_helper}
use programmable_solana.GeneratedEngine.{
  require_direct_core_cpi, capability_descriptor, observed_capabilities, chosen_output, answer,
  recorded, require_request, respond, conclude, evaluate,
}
use programmable_solana.Exchange.{RunsEngine, reserves_product, exchange_keeps_product}

-- What the engine sees when Core, called by the transaction, calls it with `infos`.
abbrev engine_call : Instruction → List AccountInfo → World → Call
engine_call instruction infos w = record {
  engine_state = writable 32 disposable_engine_program_id;
  instructions_sysvar = plain instructions_sysvar_id 6;
  remaining_accounts = take 2 (drop 2 infos);
  stack_height = 2;
  current_index = some 0;
  instruction_at = λ k. some (record {
    program_id = disposable_core_program_id;
    accounts = [];
    payload = core_execute_engine_generated_probe_discriminator;
  });
  hashv = small_runtime.hashv;
  create_program_address = λ seeds id. none;
  marker = λ key. none;
  hostile_payload = [];
  invoke = λ instruction. err (outside 9);
  exit = ok tt;
  invoke_signed = λ instruction infos seeds. err (outside 9);
}

abbrev accepting_state : EngineState
accepting_state = record {
  authority = 51;
  market = 3121;
  revision = 5;
  lp_fee_bps = 30;
  sequence = 41;
  last_request_hash = 0;
  last_amount_out = 0;
  capability_authority_bump = 255;
  mode = 0;
}

-- The world after the engine returned, or did not return, data.
abbrev leave_data : World → Option (List ℕ) → World
leave_data w none = record w { return_data = none }
leave_data w (some returned) = record w {
  return_data = some (disposable_engine_program_id, returned);
}

abbrev run_engine : Instruction → List AccountInfo → World → Result Failure World
run_engine instruction infos w = do
  answered ←
      map_err (λ _. external 1)
        (evaluate (engine_call instruction infos w) (drop 8 instruction.payload) accepting_state)
  ok (leave_data w answered.1)

abbrev exchange_runtime : Runtime
exchange_runtime = record small_runtime { program = generated_core; invoke = run_engine }

left_by_engine :
    (w : World) (answered : Option (List ℕ)) (returned : List ℕ)
    → (leave_data w answered).return_data ≡ some (disposable_engine_program_id, returned)
    → answered ≡ some returned
left_by_engine w none returned h = cc
left_by_engine w (some data_returned) returned h = cc

runs_engine : RunsEngine exchange_runtime disposable_engine_program_id engine_call accepting_state
runs_engine = record {
  runs = λ instruction infos w w' returned to_engine called set.
      let ((after, answered), ran, same) = >>=-eq-ok _ _ called in
      let left =
        left_by_engine w answered returned
          (ap (λ (w : World). w.return_data) (ok-injective same) ∙ set) in
      (after, map_err-eq-ok _ _ ran ∙ ap (λ a. ok (after, a)) left);
}

abbrev vault_a : TokenAccount
vault_a = holding 21 3147 10_500

abbrev vault_b : TokenAccount
vault_b = holding 22 3147 20_000

abbrev fee_vault : TokenAccount
fee_vault = holding 21 3512 40

abbrev exchange_world : World
exchange_world = record example_world {
  token = λ k.
      if k == 3097
      then some vault_a
      else if k == 3098
      then some vault_b
      else if k == 3556
      then some fee_vault
      else if k == 71
      then some user_a
      else if k == 72
      then some user_b
      else none;
}

abbrev exchange_accounts : ExecuteEngineProbeV0
exchange_accounts = record {
  user = authority 61;
  market = record {
    info = plain 3121 5;
    content = record example_market { engine_program = disposable_engine_program_id };
  };
  domain = record {
    info = writable 3147 5;
    content = record example_domain {
      market = 3121;
      engine_program = disposable_engine_program_id;
    };
  };
  fee_ledger = record {
    info = writable 3512 5;
    content = record example_fee_ledger { market = 3121 };
  };
  mint_a = example_mint 21;
  mint_b = example_mint 22;
  user_source_a = token_account 71 user_a;
  user_destination_b = token_account 72 user_b;
  vault_a = token_account 3097 vault_a;
  vault_b = token_account 3098 vault_b;
  fee_vault = token_account 3556 fee_vault;
  engine_program = executable_program disposable_engine_program_id;
  engine_state = writable 32 disposable_engine_program_id;
  instructions_sysvar = plain instructions_sysvar_id 6;
  token_program = executable_program 2;
}

abbrev exchange_context : Context ExecuteEngineProbeV0
exchange_context = record {
  accounts = exchange_accounts;
  remaining_accounts = plain 90 91 ∷ writable 90 91 ∷ [];
}

abbrev exchange_args : ExecuteEngineGeneratedProbeV0Args
exchange_args = record {
  amount_in = 1_001;
  max_total_input_debit = 1_010;
  min_output_credit = 900;
  max_protocol_fee = 5;
  expires_at_slot = 60;
  expected_capability_hash = 17_543;
  opaque_payload = 8 ∷ 9 ∷ [];
}

exchange_admitted : admit_envelope exchange_runtime exchange_accounts exchange_args ≡ ok tt
unfolding admit_envelope validate_opaque_payload admit_canonical admit_tokens ◌>>=◌ ◌>>◌
    require_core require_experiment ok_or any_equal ensure_distinct_roles validate_market_domain
    validate_fee_ledger canonical_domain_vault canonical_fee_vault le_bytes validate_classic_mint
    validate_common_token_account validate_protected_token_account validate_credit_destination
    require_raw_covers_accounted
exchange_admitted = refl

exchange_limits : (l : Limits) × (limit exchange_runtime exchange_accounts exchange_args ≡ ok l)
unfolding limit ◌>>=◌ ◌>>◌ require_core require_experiment ok_or fee_ceil checked_add_u64
    checked_sub_u64 checked_mul_u128 checked_add_u128 checked_div_u128 try_u64
exchange_limits = (_, refl)

exchange_prepared :
    (p : Prepared) × (prepare exchange_runtime exchange_context exchange_args exchange_limits.0
      ≡ ok p)
unfolding prepare exchange_limits validate_opaque_capabilities opaque_descriptors opaque_descriptor
    any_privileged any_equal ◌>>=◌ ◌>>◌ require_core require_experiment ok_or capability_descriptors
    request_binding opaque_metas engine_instruction opaque_infos is_normalized normalized_info flag
    privilege_flags capability_entry capability_entries encode_capabilities compute_capability_hash
    encode_payload compute_payload_hash canonical_payload all_zero validate_opaque_account_count
    validate_opaque new_engine_request validate_engine_request generated_capability_hash
    generated_payload_hash encode_request_binding compute_request_hash encode_request
    encode_evaluate_instruction put_bytes put_u8 finish le_bytes
exchange_prepared = (_, refl)

exchange_answered :
    (a : EngineReceipt × World) × (consult exchange_runtime exchange_accounts exchange_args
        exchange_prepared.0 exchange_world
      ≡ ok a)
unfolding consult exchange_prepared exchange_limits evaluate require_direct_core_cpi require_engine
    require_request capability_descriptor observed_capabilities chosen_output answer recorded
    respond conclude maybe_invoke_helper payload_bytes generated_capability_hash
    compute_capability_hash encode_capabilities capability_entries capability_entry privilege_flags
    flag quote_exact_in effective_input_of amount_out_of checked_add_u64 checked_sub_u64
    checked_add_u128 checked_sub_u128 checked_mul_u128 checked_div_u128 try_u64 ◌>>=◌ ◌>>◌
    require_core require_experiment ok_or all_zero validate_opaque_account_count validate_opaque
    validate_engine_request encode_receipt decode_request decode_receipt put_bytes put_u8 finish
    le_bytes of_le_bytes read_u8 read_array assert_cursor require_length require_version
exchange_answered = (_, refl)

exchange_accepted :
    (plan : AcceptedEnginePlan) × (accept exchange_runtime exchange_accounts exchange_limits.0
        exchange_prepared.0 exchange_answered.0.0
      ≡ ok plan)
unfolding accept exchange_answered exchange_prepared exchange_limits settlement_hash ◌>>=◌ ◌>>◌
    ok_or checked_sub_u64 le_bytes
exchange_accepted = (_, refl)

exchange_settled :
    (g : Generated) × (settle_engine_generated_probe exchange_runtime exchange_accounts
        exchange_args exchange_accepted.0 exchange_answered.0.1
      ≡ ok g)
unfolding settle_engine_generated_probe settle exchange_accepted exchange_answered exchange_prepared
    exchange_limits ◌>>=◌ ◌>>◌ reload require_exact_deltas exact_debit exact_credit ok_or
    checked_sub_u64 input_transfer fee_transfer output_transfer
exchange_settled = (_, refl)

exchange_executed :
    (g : Generated) × (handle_execute_engine_generated_probe_v0 exchange_runtime exchange_context
        exchange_args exchange_world
      ≡ ok g)
unfolding handle_execute_engine_generated_probe_v0
exchange_executed = (
  exchange_settled.0,
  ok->> _ _ exchange_admitted
      ∙ ok->>= _ _ exchange_limits.1
      ∙ ok->>= _ _ exchange_prepared.1
      ∙ ok->>= _ _ exchange_answered.1
      ∙ ok->>= _ _ exchange_accepted.1
      ∙ exchange_settled.1,
)

exchange_keeps_product_example :
    reserves_product exchange_accounts.domain.content
    ≤ reserves_product exchange_executed.0.accounts.domain.content
exchange_keeps_product_example =
    exchange_keeps_product exchange_runtime engine_call accepting_state exchange_context
      exchange_args exchange_world exchange_executed.0 runs_engine refl
      ((omega arith, (omega arith, tt))) (omega arith) exchange_executed.1
