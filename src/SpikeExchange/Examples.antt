-- ===== src/SpikeExchange/Examples.antt =====
-- A swap that Core settles on an answer of the spike engine, and what the theorem says of it.
use programmable_solana.Base.{
  ℕ, arith, ◌≡◌, ◌∙◌, refl, [], ok, ok_or, checked_add_u64, checked_sub_u64, checked_mul_u128,
  checked_add_u128, checked_div_u128, try_u64,
}
use programmable_solana.Wire.Bytes.{le_bytes, of_le_bytes}
use programmable_solana.Wire.Cursor.{put_bytes, put_u8, finish, read_u8, read_array, assert_cursor}
use programmable_solana.Wire.Probe.{
  encode_plan_binding, compute_plan_hash, encode_request, encode_evaluate_instruction,
  encode_receipt, require_length, require_version, decode_request, decode_evaluate_instruction,
  decode_receipt,
}
use programmable_solana.Core.Error.{◌>>=◌, ◌>>◌, require_core, ok->>=, ok->>}
use programmable_solana.Core.Runtime.{World, reload}
use programmable_solana.Core.Math.{fee_ceil}
use programmable_solana.Core.Validation.{
  ensure_no_remaining_accounts, any_equal, ensure_distinct_roles, validate_market_domain,
  validate_fee_ledger, canonical_domain_vault, canonical_fee_vault, validate_classic_mint,
  validate_common_token_account, validate_protected_token_account, validate_credit_destination,
  require_raw_covers_accounted, exact_debit, exact_credit,
}
use programmable_solana.Core.Execute.{
  ExecuteEngineProbeV0, Executed, Quote, movement, movement, Consulted, plan_binding,
  engine_request, engine_instruction, read_receipt, input_transfer, fee_transfer, output_transfer,
  admit_canonical, admit_identities, admit_tokens, require_exact_deltas, quote, consult_engine,
  settle, handle_execute_engine_probe_v0,
}
use programmable_solana.Core.Examples.{small_runtime, example_world}
use programmable_solana.Base.{
  Option, none, some, List, Result, map_err, drop, ap, err, map_err-eq-ok, ok-injective,
}
use programmable_solana.Base.Steps.{>>=-eq-ok}
use programmable_solana.Wire.Bytes.{Fits}
use programmable_solana.Wire.Probe.{
  core_execute_engine_probe_discriminator, disposable_core_program_id,
}
use programmable_solana.Core.Error.{Failure, external}
use programmable_solana.Core.Runtime.{Runtime, AccountInfo, Instruction}
use programmable_solana.Core.Examples.Swap.{swap_accounts, swap_context, swap_args}
use programmable_solana.SpikeEngine.{
  Call, EngineState, mode_accept, outside, require_probe, require_direct_core_cpi, answer, evaluate,
}
use programmable_solana.SpikeExchange.{RunsEngine, settled_swap_accepting}

-- What the engine sees when Core, called by the transaction, calls it.
abbrev engine_call : Instruction → List AccountInfo → World → Call
engine_call instruction infos w = record {
  remaining_accounts = [];
  stack_height = 2;
  current_index = some 0;
  instruction_at = λ k. some (record {
    program_id = disposable_core_program_id;
    accounts = [];
    payload = core_execute_engine_probe_discriminator;
  });
  hostile_payload = [];
  invoke = λ instruction. err (outside 9);
  exit = ok tt;
}

abbrev accepting_state : EngineState
accepting_state = record {
  authority = 51;
  market = 2133;
  revision = 5;
  sequence = 41;
  last_plan_hash = 0;
  mode = mode_accept;
}

-- The world after the engine returned, or did not return, data.
abbrev leave_data : World → Option (List ℕ) → World
leave_data w none = record w { return_data = none }
leave_data w (some returned) = record w { return_data = some (31, returned) }

abbrev run_engine : Instruction → List AccountInfo → World → Result Failure World
run_engine instruction infos w = do
  answered ←
      map_err (λ _. external 1)
        (evaluate (engine_call instruction infos w) (drop 8 instruction.payload) accepting_state)
  ok (leave_data w answered.1)

abbrev spike_runtime : Runtime
spike_runtime = record small_runtime { invoke = run_engine }

left_by_engine :
    (w : World) (answered : Option (List ℕ)) (returned : List ℕ)
    → (leave_data w answered).return_data ≡ some (31, returned)
    → answered ≡ some returned
left_by_engine w none returned h = cc
left_by_engine w (some bytes) returned h = cc

runs_engine : RunsEngine spike_runtime 31 engine_call accepting_state
runs_engine = record {
  runs = λ instruction infos w w' returned to_engine called set.
      let ((after, answered), ran, same) = >>=-eq-ok _ _ called in
      let left =
        left_by_engine w answered returned
          (ap (λ (w : World). w.return_data) (ok-injective same) ∙ set) in
      (after, map_err-eq-ok _ _ ran ∙ ap (λ a. ok (after, a)) left);
}

exchange_quote : (q : Quote) × (quote spike_runtime swap_accounts swap_args ≡ ok q)
unfolding quote ◌>>=◌ ◌>>◌ require_core ok_or fee_ceil checked_add_u64 checked_sub_u64
    checked_mul_u128 checked_add_u128 checked_div_u128 try_u64
exchange_quote = (_, refl)

exchange_consulted :
    (c : Consulted) × (consult_engine spike_runtime swap_accounts swap_args
        exchange_quote.0.protocol_fee example_world
      ≡ ok c)
unfolding consult_engine evaluate require_direct_core_cpi require_probe answer checked_add_u64 ◌>>=◌
    ◌>>◌ require_core ok_or plan_binding engine_request engine_instruction read_receipt
    compute_plan_hash encode_plan_binding encode_evaluate_instruction encode_request encode_receipt
    put_bytes put_u8 finish le_bytes of_le_bytes read_u8 read_array assert_cursor require_length
    require_version decode_request decode_evaluate_instruction decode_receipt exchange_quote
exchange_consulted = (_, refl)

exchange_settled :
    (s : ExecuteEngineProbeV0 × World) × (settle spike_runtime swap_accounts
        (movement swap_args exchange_quote.0)
        exchange_consulted.0.world
      ≡ ok s)
unfolding settle ◌>>=◌ ◌>>◌ reload require_exact_deltas exact_debit exact_credit ok_or
    checked_sub_u64 input_transfer fee_transfer output_transfer exchange_quote exchange_consulted
exchange_settled = (_, refl)

exchange_identified : admit_identities spike_runtime swap_context ≡ ok tt
unfolding admit_identities admit_canonical ◌>>=◌ ◌>>◌ require_core ok_or
    ensure_no_remaining_accounts any_equal ensure_distinct_roles validate_market_domain
    validate_fee_ledger canonical_domain_vault canonical_fee_vault le_bytes
exchange_identified = refl

exchange_funded : admit_tokens spike_runtime swap_accounts ≡ ok tt
unfolding admit_tokens ◌>>◌ require_core validate_classic_mint validate_common_token_account
    validate_protected_token_account validate_credit_destination require_raw_covers_accounted
exchange_funded = refl

exchange_executed :
    (r : Executed) × (handle_execute_engine_probe_v0 spike_runtime swap_context swap_args
        example_world
      ≡ ok r)
unfolding handle_execute_engine_probe_v0
exchange_executed = (
  _,
  ok->> _ _ exchange_identified
      ∙ ok->> _ _ exchange_funded
      ∙ ok->>= _ _ exchange_quote.1
      ∙ ok->>= _ _ exchange_consulted.1
      ∙ ok->>= _ _ exchange_settled.1,
)

exchange_executed-Fits : Fits 32 exchange_executed.0.event.plan_digest
unfolding exchange_executed exchange_consulted exchange_settled exchange_quote
exchange_executed-Fits = omega arith

settled_swap_accepting_example : accepting_state.mode ≡ mode_accept
settled_swap_accepting_example =
    settled_swap_accepting spike_runtime engine_call accepting_state swap_context swap_args
      example_world exchange_executed.0 runs_engine exchange_executed-Fits exchange_executed.1
