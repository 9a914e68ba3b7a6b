-- ===== src/SpikeEngine.antt =====
-- test-programs/spike-engine/src/lib.rs: the disposable engine that Core calls, with its accepting
-- mode and its four hostile modes.
pub mod Evaluates
pub mod Answers
mod Examples
use Prim.Native.Nat.{bit_xor}
use programmable_solana.Base.{
  ℕ, ◌+◌, ◌-◌, ◌≡◌, Bool, true, false, ◌||◌, Option, none, some, List, [], ◌∷◌, length, take, drop,
  set, get_or, list_eq, Result, ok, err, panic, ok_or, map_err, require, ◌==◌, ◌!=◌,
  checked_add_u64, if◌then◌else◌,
}
use programmable_solana.Base.Steps.{◌>>=◌, ◌>>◌}
use programmable_solana.Wire.Probe.{
  EngineReceipt, decode_request, encode_receipt, core_execute_engine_probe_discriminator,
  disposable_core_program_id, disposable_engine_program_id, evaluate_discriminator,
}
use programmable_solana.Core.Constants.{instructions_sysvar_id}
use programmable_solana.Core.Runtime.{
  AccountInfo, AccountMeta, Instruction, transaction_level_stack_height,
}

abbrev pub mode_accept : ℕ
mode_accept = 0

abbrev pub mode_hostile_readonly_escalation : ℕ
mode_hostile_readonly_escalation = 1

abbrev pub mode_missing_receipt : ℕ
mode_missing_receipt = 2

abbrev pub mode_wrong_plan_hash : ℕ
mode_wrong_plan_hash = 3

abbrev pub mode_malformed_receipt : ℕ
mode_malformed_receipt = 4

pub record EngineState : Type 0 where
  pub authority : ℕ
  pub market : ℕ
  pub revision : ℕ
  pub sequence : ℕ
  pub last_plan_hash : ℕ
  pub mode : ℕ

pub data ProbeEngineError : Type 0 where
  unexpected_account : ProbeEngineError
  invalid_market : ProbeEngineError
  invalid_revision : ProbeEngineError
  invalid_core_caller : ProbeEngineError
  invalid_core_instruction : ProbeEngineError
  invalid_invocation_depth : ProbeEngineError
  invalid_instructions_sysvar : ProbeEngineError
  invalid_request_encoding : ProbeEngineError
  market_mismatch : ProbeEngineError
  revision_mismatch : ProbeEngineError
  sequence_overflow : ProbeEngineError
  invalid_authority : ProbeEngineError
  invalid_mode : ProbeEngineError
  hostile_cpi_unexpectedly_succeeded : ProbeEngineError

-- The engine's errors, and those of the runtime and of Anchor by their codes.
pub data EngineFailure : Type 0 where
  probe : ProbeEngineError → EngineFailure
  outside : ℕ → EngineFailure

unfoldable pub require_probe : Bool → ProbeEngineError → Result EngineFailure (Unit {0})
require_probe test e = require test (probe e)

-- What the engine reads of the call that it stands in: the stack height, the instructions sysvar
-- (`load_current_index_checked`, `load_instruction_at_checked`), how the runtime answers its own
-- cross-program call, and whether `state.exit` can write the state to its account. What it writes is
-- lost where the call fails, since the runtime rolls a failed call back.
pub record Call : Type 0 where
  pub remaining_accounts : List AccountInfo
  pub stack_height : ℕ
  pub current_index : Option ℕ
  pub instruction_at : ℕ → Option Instruction
  pub hostile_payload : List ℕ
  pub invoke : Instruction → Result EngineFailure (Unit {0})
  pub exit : Result EngineFailure (Unit {0})

abbrev pub is_empty {ℓ} : {A : Type ℓ} → List A → Bool
is_empty [] = true
is_empty (x ∷ xs) = false

-- `data.starts_with(prefix)`
abbrev pub starts_with : List ℕ → List ℕ → Bool
starts_with bytes prefix = list_eq (take (length prefix) bytes) prefix

unfoldable pub initialize : List AccountInfo → ℕ → ℕ → ℕ → Result EngineFailure EngineState
initialize remaining_accounts authority market revision = do
  require_probe (is_empty remaining_accounts) unexpected_account
  require_probe (market != 0) invalid_market
  require_probe (revision != 0) invalid_revision
  ok (record {
    authority = authority;
    market = market;
    revision = revision;
    sequence = 0;
    last_plan_hash = 0;
    mode = mode_accept;
  })

-- The schema's `has_one = authority` and `Signer` come first.
unfoldable pub set_mode :
    List AccountInfo → AccountInfo → ℕ → EngineState → Result EngineFailure EngineState
set_mode remaining_accounts authority mode state = do
  require_probe (state.authority == authority.key) invalid_authority
  require authority.is_signer (outside 3010)
  require_probe (is_empty remaining_accounts) unexpected_account
  require_probe
      (mode == mode_accept
        || (mode == mode_hostile_readonly_escalation
            || (mode == mode_missing_receipt
                || (mode == mode_wrong_plan_hash || mode == mode_malformed_receipt))))
      invalid_mode
  ok (record state { mode = mode })

unfoldable pub require_direct_core_cpi : Call → Result EngineFailure (Unit {0})
require_direct_core_cpi call = do
  require_probe (call.stack_height == transaction_level_stack_height + 1) invalid_invocation_depth
  current_index ← ok_or call.current_index (probe invalid_instructions_sysvar)
  top_level_instruction ←
      ok_or (call.instruction_at current_index) (probe invalid_instructions_sysvar)
  require_probe (top_level_instruction.program_id == disposable_core_program_id) invalid_core_caller
  require_probe (starts_with top_level_instruction.payload core_execute_engine_probe_discriminator)
      invalid_core_instruction

unfoldable pub attempt_readonly_to_writable_self_cpi : Call → Result EngineFailure (Unit {0})
attempt_readonly_to_writable_self_cpi call = call.invoke (record {
  program_id = disposable_engine_program_id;
  accounts =
      (record { pubkey = instructions_sysvar_id; is_signer = false; is_writable = true }) ∷ [];
  payload = call.hostile_payload;
})

-- `match state.mode`: the return data that the call sets, if any.
unfoldable pub answer : Call → ℕ → List ℕ → Result EngineFailure (Option (List ℕ))
answer call mode receipt =
    if mode == mode_accept
    then ok (some receipt)
    else if mode == mode_hostile_readonly_escalation
    then (call.exit
        >> (attempt_readonly_to_writable_self_cpi call
            >> err (probe hostile_cpi_unexpectedly_succeeded)))
    else if mode == mode_missing_receipt
    then ok none
    else if mode == mode_wrong_plan_hash
    then ok (some (set receipt 9 (bit_xor (get_or receipt 9 0) 1)))
    else if mode == mode_malformed_receipt
    then ok (some (take (length receipt - 1) receipt))
    else err (probe invalid_mode)

-- The new state and the return data of a successful call.
unfoldable pub evaluate :
    Call → List ℕ → EngineState → Result EngineFailure (EngineState × Option (List ℕ))
evaluate call wire_request state = do
  require_probe (is_empty call.remaining_accounts) unexpected_account
  require_direct_core_cpi call
  request ← map_err (λ _. probe invalid_request_encoding) (decode_request wire_request)
  require_probe (state.market == request.market) market_mismatch
  require_probe (state.revision == request.engine_revision) revision_mismatch
  sequence ← ok_or (checked_add_u64 state.sequence 1) (probe sequence_overflow)
  receipt ← encode_receipt (record { plan_hash = request.plan_hash; state_sequence = sequence })
  return_data ← answer call state.mode receipt
  ok (record state { sequence = sequence; last_plan_hash = request.plan_hash }, return_data)

unfoldable pub hostile_escalation_probe : Result EngineFailure (Unit {0})
hostile_escalation_probe = err (probe hostile_cpi_unexpectedly_succeeded)
