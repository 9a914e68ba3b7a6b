-- ===== src/GeneratedEngine/State.antt =====
-- The constants, the state, the errors and the surroundings of
-- experiments/engine-generated-settlement/test-programs/generated-plan-engine/src/lib.rs.
use programmable_solana.Base.{ℕ, Bool, Option, List, [], ◌∷◌, ◌++◌, Result, require}
use programmable_solana.Core.Runtime.{AccountInfo, Instruction}
use programmable_solana.Cpmm.{QuoteError}

-- The bytes of "capability-authority-v0".
abbrev pub capability_authority_seed : List ℕ
capability_authority_seed =
    (b'c' ∷ b'a' ∷ b'p' ∷ b'a' ∷ b'b' ∷ b'i' ∷ b'l' ∷ b'i' ∷ b't' ∷ b'y' ∷ b'-' ∷ b'a' ∷ [])
    ++ (b'u' ∷ b't' ∷ b'h' ∷ b'o' ∷ b'r' ∷ b'i' ∷ b't' ∷ b'y' ∷ b'-' ∷ b'v' ∷ b'0' ∷ [])

abbrev pub max_opaque_capabilities : ℕ
max_opaque_capabilities = 8

abbrev pub mode_accept : ℕ
mode_accept = 0

abbrev pub mode_missing_receipt : ℕ
mode_missing_receipt = 1

abbrev pub mode_wrong_request_hash : ℕ
mode_wrong_request_hash = 2

abbrev pub mode_malformed_receipt : ℕ
mode_malformed_receipt = 3

abbrev pub mode_zero_output : ℕ
mode_zero_output = 4

abbrev pub mode_oversized_output : ℕ
mode_oversized_output = 5

abbrev pub mode_hostile_readonly_escalation : ℕ
mode_hostile_readonly_escalation = 6

abbrev pub mode_wrong_receipt_magic : ℕ
mode_wrong_receipt_magic = 7

abbrev pub mode_wrong_receipt_version : ℕ
mode_wrong_receipt_version = 8

abbrev pub mode_trailing_receipt_byte : ℕ
mode_trailing_receipt_byte = 9

abbrev pub helper_payload_tag : ℕ
helper_payload_tag = 1

abbrev pub helper_increment_payload_len : ℕ
helper_increment_payload_len = 9

abbrev pub helper_increment_discriminator : List ℕ
helper_increment_discriminator = 0x0b ∷ 0x12 ∷ 0x68 ∷ 0x09 ∷ 0x68 ∷ 0xae ∷ 0x3b ∷ 0x21 ∷ []

abbrev pub core_execute_engine_generated_probe_discriminator : List ℕ
core_execute_engine_generated_probe_discriminator =
    0x5f ∷ 0xaa ∷ 0xd9 ∷ 0x7c ∷ 0x75 ∷ 0x15 ∷ 0xb2 ∷ 0xae ∷ []

pub record EngineState : Type 0 where
  pub authority : ℕ
  pub market : ℕ
  pub revision : ℕ
  pub lp_fee_bps : ℕ
  pub sequence : ℕ
  pub last_request_hash : ℕ
  pub last_amount_out : ℕ
  pub capability_authority_bump : ℕ
  pub mode : ℕ

pub record CapabilityAuthorityMarker : Type 0 where
  pub engine_state : ℕ

-- `EngineError`, but for the errors that a quote meets.
pub data EngineError : Type 0 where
  unexpected_account : EngineError
  invalid_market : EngineError
  invalid_revision : EngineError
  invalid_authority : EngineError
  invalid_mode : EngineError
  invalid_request_encoding : EngineError
  market_mismatch : EngineError
  revision_mismatch : EngineError
  too_many_capabilities : EngineError
  capability_count_mismatch : EngineError
  capability_hash_mismatch : EngineError
  capability_hash_computation_failed : EngineError
  sequence_overflow : EngineError
  invalid_invocation_depth : EngineError
  invalid_core_caller : EngineError
  invalid_core_instruction : EngineError
  invalid_instructions_sysvar : EngineError
  invalid_helper_capability_closure : EngineError
  invalid_helper_program : EngineError
  invalid_helper_state : EngineError
  invalid_capability_authority : EngineError
  invalid_helper_payload : EngineError
  hostile_cpi_unexpectedly_succeeded : EngineError

-- The engine's errors, and those of the runtime, of Anchor and of other programs by their codes.
pub data EngineFailure : Type 0 where
  engine : EngineError → EngineFailure
  quoting : QuoteError → EngineFailure
  outside : ℕ → EngineFailure

unfoldable pub require_engine : Bool → EngineError → Result EngineFailure (Unit {0})
require_engine test e = require test (engine e)

-- What the engine reads of the call that it stands in: the stack height, the instructions sysvar
-- (`load_current_index_checked`, `load_instruction_at_checked`), the hash, the address derivation,
-- the marker that an account's data deserialize to, how the runtime answers its own calls, and
-- whether `state.exit` can write the state to its account. What it writes is lost where the call
-- fails, since the runtime rolls a failed call back.
pub record Call : Type 0 where
  pub engine_state : AccountInfo
  pub instructions_sysvar : AccountInfo
  pub remaining_accounts : List AccountInfo
  pub stack_height : ℕ
  pub current_index : Option ℕ
  pub instruction_at : ℕ → Option Instruction
  pub hashv : List (List ℕ) → ℕ
  pub create_program_address : List (List ℕ) → ℕ → Option ℕ
  pub marker : ℕ → Option CapabilityAuthorityMarker
  pub hostile_payload : List ℕ
  pub invoke : Instruction → Result EngineFailure (Unit {0})
  pub invoke_signed :
      Instruction → List AccountInfo → List (List (List ℕ)) → Result EngineFailure (Unit {0})
  pub exit : Result EngineFailure (Unit {0})
