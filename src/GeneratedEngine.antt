-- ===== src/GeneratedEngine.antt =====
-- experiments/engine-generated-settlement/test-programs/generated-plan-engine/src/lib.rs: the
-- disposable constant-product engine, with its accepting mode and its nine faulty modes.
pub mod State
pub mod Helper
pub mod Evaluates
pub mod Answers
mod Examples
use Prim.Native.Nat.{bit_xor}
use programmable_solana.Base.{
  ℕ, ◌+◌, ◌-◌, Bool, true, false, ◌||◌, Option, none, some, List, [], ◌∷◌, ◌++◌, length, take, set,
  get_or, list_eq, Result, ok, err, ok_or, map_err, require, ltb, leb, ◌==◌, ◌!=◌, checked_add_u64,
  if◌then◌else◌,
}
use programmable_solana.Base.Steps.{◌>>=◌, ◌>>◌}
use programmable_solana.Wire.Opaque.{CapabilityDescriptor}
use programmable_solana.Wire.Generated.{
  EngineRequest, EngineReceipt, decode_request, encode_receipt, payload_bytes,
  generated_capability_hash, disposable_core_program_id, disposable_engine_program_id,
}
use programmable_solana.Core.Constants.{instructions_sysvar_id, basis_points_denominator}
use programmable_solana.Core.Runtime.{AccountInfo, transaction_level_stack_height}
use programmable_solana.Cpmm.{quote_exact_in, QuoteError, invalid_lp_fee_bps}
use programmable_solana.GeneratedEngine.State.{
  EngineState, CapabilityAuthorityMarker, Call, EngineFailure, engine, quoting, outside,
  require_engine, mode_accept, mode_missing_receipt, mode_wrong_request_hash,
  mode_malformed_receipt, mode_zero_output, mode_oversized_output, mode_hostile_readonly_escalation,
  mode_wrong_receipt_magic, mode_wrong_receipt_version, mode_trailing_receipt_byte,
  core_execute_engine_generated_probe_discriminator, max_opaque_capabilities, unexpected_account,
  invalid_market, invalid_revision, invalid_authority, invalid_mode, invalid_request_encoding,
  market_mismatch, revision_mismatch, too_many_capabilities, capability_count_mismatch,
  capability_hash_mismatch, capability_hash_computation_failed, sequence_overflow,
  invalid_invocation_depth, invalid_core_caller, invalid_core_instruction,
  invalid_instructions_sysvar, hostile_cpi_unexpectedly_succeeded,
}
use programmable_solana.GeneratedEngine.Helper.{maybe_invoke_helper}

abbrev is_empty {ℓ} : {A : Type ℓ} → List A → Bool
is_empty [] = true
is_empty (x ∷ xs) = false

abbrev starts_with : List ℕ → List ℕ → Bool
starts_with bytes prefix = list_eq (take (length prefix) bytes) prefix

-- `bump` is `ctx.bumps.capability_authority`; the marker is the new authority account's.
unfoldable pub initialize :
    List AccountInfo
    → ℕ
    → ℕ
    → ℕ
    → ℕ
    → ℕ
    → ℕ
    → Result EngineFailure (EngineState × CapabilityAuthorityMarker)
initialize remaining_accounts engine_state_key authority bump market revision lp_fee_bps = do
  require_engine (is_empty remaining_accounts) unexpected_account
  require_engine (market != 0) invalid_market
  require_engine (revision != 0) invalid_revision
  require (ltb lp_fee_bps basis_points_denominator) (quoting invalid_lp_fee_bps)
  ok (
    record {
      authority = authority;
      market = market;
      revision = revision;
      lp_fee_bps = lp_fee_bps;
      sequence = 0;
      last_request_hash = 0;
      last_amount_out = 0;
      capability_authority_bump = bump;
      mode = mode_accept;
    },
    record { engine_state = engine_state_key },
  )

unfoldable pub is_supported_mode : ℕ → Bool
is_supported_mode mode =
    mode == mode_accept
    || (mode == mode_missing_receipt
        || (mode == mode_wrong_request_hash
            || (mode == mode_malformed_receipt
                || (mode == mode_zero_output
                    || (mode == mode_oversized_output
                        || (mode == mode_hostile_readonly_escalation
                            || (mode == mode_wrong_receipt_magic
                                || (mode == mode_wrong_receipt_version
                                    || mode == mode_trailing_receipt_byte))))))))

-- The schema's `has_one = authority` and `Signer` come first.
unfoldable pub set_mode :
    List AccountInfo → AccountInfo → ℕ → EngineState → Result EngineFailure EngineState
set_mode remaining_accounts authority mode state = do
  require_engine (state.authority == authority.key) invalid_authority
  require authority.is_signer (outside 3010)
  require_engine (is_empty remaining_accounts) unexpected_account
  require_engine (is_supported_mode mode) invalid_mode
  ok (record state { mode = mode })

unfoldable pub require_direct_core_cpi : Call → Result EngineFailure (Unit {0})
require_direct_core_cpi call = do
  require_engine (call.stack_height == transaction_level_stack_height + 1) invalid_invocation_depth
  current_index ← ok_or call.current_index (engine invalid_instructions_sysvar)
  top_level_instruction ←
      ok_or (call.instruction_at current_index) (engine invalid_instructions_sysvar)
  require_engine (top_level_instruction.program_id == disposable_core_program_id)
      invalid_core_caller
  require_engine
      (starts_with top_level_instruction.payload core_execute_engine_generated_probe_discriminator)
      invalid_core_instruction

unfoldable pub capability_descriptor : AccountInfo → CapabilityDescriptor
capability_descriptor account = record {
  key = account.key;
  owner = account.owner;
  is_writable = account.is_writable;
  is_signer = account.is_signer;
  is_executable = account.executable;
}

unfoldable pub observed_capabilities : List AccountInfo → List CapabilityDescriptor
observed_capabilities [] = []
observed_capabilities (account ∷ rest) = capability_descriptor account ∷ observed_capabilities rest

unfoldable pub attempt_readonly_to_writable_self_cpi : Call → Result EngineFailure (Unit {0})
attempt_readonly_to_writable_self_cpi call = call.invoke (record {
  program_id = disposable_engine_program_id;
  accounts =
      (record { pubkey = call.instructions_sysvar.key; is_signer = false; is_writable = true })
      ∷ [];
  payload = call.hostile_payload;
})

-- The output that the mode puts in the place of the quote's.
unfoldable pub chosen_output : ℕ → ℕ → ℕ
chosen_output mode amount_out =
    if mode == mode_zero_output
    then 0
    else if mode == mode_oversized_output
    then 0xffff_ffff_ffff_ffff
    else amount_out

-- `match state.mode`: the return data that the call sets, if any.
unfoldable pub answer : ℕ → List ℕ → Result EngineFailure (Option (List ℕ))
answer mode receipt =
    if mode == mode_accept || (mode == mode_zero_output || mode == mode_oversized_output)
    then ok (some receipt)
    else if mode == mode_missing_receipt
    then ok none
    else if mode == mode_wrong_request_hash
    then ok (some (set receipt 9 (bit_xor (get_or receipt 9 0) 1)))
    else if mode == mode_malformed_receipt
    then ok (some (take (length receipt - 1) receipt))
    else if mode == mode_wrong_receipt_magic
    then ok (some (set receipt 0 (bit_xor (get_or receipt 0 0) 1)))
    else if mode == mode_wrong_receipt_version
    then ok (some (set receipt 8 (bit_xor (get_or receipt 8 0) 1)))
    else if mode == mode_trailing_receipt_byte
    then ok (some (receipt ++ (0 ∷ [])))
    else err (engine invalid_mode)

-- What the three assignments leave of the state.
unfoldable pub recorded : EngineState → ℕ → ℕ → ℕ → EngineState
recorded state sequence request_hash amount_out = record state {
  sequence = sequence;
  last_request_hash = request_hash;
  last_amount_out = amount_out;
}

-- The tests of the request against the call and the state.
unfoldable pub require_request :
    Call → EngineRequest → EngineState → Result EngineFailure (Unit {0})
require_request call request state = do
  require_engine (leb (length call.remaining_accounts) max_opaque_capabilities)
      too_many_capabilities
  require_engine (length call.remaining_accounts == request.opaque_account_count)
      capability_count_mismatch
  require_engine (state.market == request.market) market_mismatch
  require_engine (state.revision == request.engine_revision) revision_mismatch
  observed_capability_hash ←
      map_err (λ _. engine capability_hash_computation_failed)
        (generated_capability_hash call.hashv disposable_engine_program_id (
          observed_capabilities
            (call.engine_state ∷ call.instructions_sysvar ∷ call.remaining_accounts)))
  require_engine (observed_capability_hash == request.capability_hash) capability_hash_mismatch

-- The receipt of the request, and what the mode makes of it.
unfoldable pub respond :
    EngineRequest → ℕ → ℕ → EngineState → Result EngineFailure (EngineState × Option (List ℕ))
respond request amount_out sequence state = do
  receipt ← encode_receipt (record {
    request_hash = request.request_hash;
    amount_out = amount_out;
    state_sequence = sequence;
  })
  return_data ← answer state.mode receipt
  ok (recorded state sequence request.request_hash amount_out, return_data)

-- From the helper's call on: the new state and the return data.
unfoldable pub conclude :
    Call → EngineRequest → ℕ → EngineState → Result EngineFailure (EngineState × Option (List ℕ))
conclude call request amount_out state = do
  sequence ← ok_or (checked_add_u64 state.sequence 1) (engine sequence_overflow)
  if state.mode == mode_hostile_readonly_escalation
      then (call.exit
          >> (attempt_readonly_to_writable_self_cpi call
              >> err (engine hostile_cpi_unexpectedly_succeeded)))
      else respond request amount_out sequence state

unfoldable pub evaluate :
    Call → List ℕ → EngineState → Result EngineFailure (EngineState × Option (List ℕ))
evaluate call wire_request state = do
  require_direct_core_cpi call
  request ← map_err (λ _. engine invalid_request_encoding) (decode_request wire_request)
  require_request call request state
  quote ← map_err quoting (
      quote_exact_in request.accounted_input_before request.accounted_output_before
        request.amount_in state.lp_fee_bps)
  payload ← map_err (λ _. engine invalid_request_encoding) (payload_bytes request)
  maybe_invoke_helper call payload state.capability_authority_bump
  conclude call request (chosen_output state.mode quote.amount_out) state

unfoldable pub hostile_escalation_probe : Result EngineFailure (Unit {0})
hostile_escalation_probe = err (engine hostile_cpi_unexpectedly_succeeded)
