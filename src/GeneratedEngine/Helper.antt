-- ===== src/GeneratedEngine/Helper.antt =====
-- The helper call of the generated-plan engine: `maybe_invoke_helper` in
-- experiments/engine-generated-settlement/test-programs/generated-plan-engine/src/lib.rs.
use programmable_solana.Base.{
  ℕ, true, false, not, ◌&&◌, ◌||◌, List, [], ◌∷◌, ◌++◌, length, take, drop, Result, ok, err, panic,
  ok_or, ltb, leb, ◌==◌, ◌!=◌, if◌then◌else◌,
}
use programmable_solana.Base.Steps.{◌>>=◌, ◌>>◌}
use programmable_solana.Wire.Bytes.{le_bytes, of_le_bytes}
use programmable_solana.Wire.Cursor.{head_or}
use programmable_solana.Wire.Opaque.{max_opaque_payload_len}
use programmable_solana.Wire.Generated.{disposable_helper_program_id, disposable_engine_program_id}
use programmable_solana.Core.Runtime.{AccountInfo, Instruction}
use programmable_solana.GeneratedEngine.State.{
  Call, EngineFailure, engine, require_engine, max_opaque_capabilities, helper_payload_tag,
  helper_increment_payload_len, helper_increment_discriminator, capability_authority_seed,
  invalid_helper_capability_closure, invalid_helper_program, invalid_helper_state,
  invalid_capability_authority, invalid_helper_payload,
}

-- `match payload.len()`
unfoldable pub helper_amount : List ℕ → Result EngineFailure ℕ
helper_amount payload =
    if length payload == 1
    then ok 1
    else if length payload == helper_increment_payload_len
        || length payload == max_opaque_payload_len
    then ok (of_le_bytes (take 8 (drop 1 payload)))
    else err (engine invalid_helper_payload)

-- The two metas and the increment's data.
unfoldable pub helper_instruction : AccountInfo → AccountInfo → AccountInfo → ℕ → Instruction
helper_instruction helper_program helper_state capability_authority amount = record {
  program_id = helper_program.key;
  accounts =
      (record { pubkey = helper_state.key; is_signer = false; is_writable = true })
      ∷ (record { pubkey = capability_authority.key; is_signer = true; is_writable = false })
      ∷ [];
  payload = helper_increment_discriminator ++ le_bytes 8 amount;
}

-- The tests of the three-account prefix, and the call.
unfoldable pub invoke_helper :
    Call → List ℕ → ℕ → AccountInfo → AccountInfo → AccountInfo → Result EngineFailure (Unit {0})
invoke_helper call payload capability_authority_bump helper_program helper_state
      capability_authority =
    do
      require_engine
          (helper_program.executable
            && (not helper_program.is_writable && not helper_program.is_signer))
          invalid_helper_program
      require_engine (helper_program.key == disposable_helper_program_id) invalid_helper_program
      require_engine
          (helper_state.is_writable && (not helper_state.is_signer && not helper_state.executable))
          invalid_helper_state
      require_engine (helper_state.owner == helper_program.key) invalid_helper_state
      require_engine
          (not capability_authority.is_writable
            && (not capability_authority.is_signer && not capability_authority.executable))
          invalid_capability_authority
      require_engine (capability_authority.owner == disposable_engine_program_id)
          invalid_capability_authority
      require_engine
          ((helper_program.key != helper_state.key)
            && ((helper_program.key != capability_authority.key)
                && (helper_state.key != capability_authority.key)))
          invalid_helper_capability_closure
      let authority_seeds =
          capability_authority_seed
          ∷ le_bytes 32 call.engine_state.key
          ∷ (capability_authority_bump ∷ [])
          ∷ []
      expected_authority ←
          ok_or (call.create_program_address authority_seeds disposable_engine_program_id)
            (engine invalid_capability_authority)
      require_engine (expected_authority == capability_authority.key) invalid_capability_authority
      marker ← ok_or (call.marker capability_authority.key) (engine invalid_capability_authority)
      require_engine (marker.engine_state == call.engine_state.key) invalid_capability_authority
      amount ← helper_amount payload
      require_engine (ltb 0 amount) invalid_helper_payload
      call.invoke_signed
          (helper_instruction helper_program helper_state capability_authority amount)
          (helper_state ∷ capability_authority ∷ helper_program ∷ []) (authority_seeds ∷ [])

-- `remaining_accounts[0]`, `[1]` and `[2]`, past the test of the length.
unfoldable pub with_prefix : Call → List ℕ → ℕ → List AccountInfo → Result EngineFailure (Unit {0})
with_prefix call payload bump (helper_program ∷ helper_state ∷ capability_authority ∷ rest) =
    invoke_helper call payload bump helper_program helper_state capability_authority
with_prefix call payload bump _ = panic

unfoldable pub maybe_invoke_helper : Call → List ℕ → ℕ → Result EngineFailure (Unit {0})
maybe_invoke_helper call payload capability_authority_bump =
    if ltb 0 (length payload) && head_or 0 payload == helper_payload_tag
    then (require_engine
          (leb 3 (length call.remaining_accounts)
            && leb (length call.remaining_accounts) max_opaque_capabilities)
          invalid_helper_capability_closure
        >> with_prefix call payload capability_authority_bump call.remaining_accounts)
    else ok tt
