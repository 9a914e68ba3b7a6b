-- ===== src/Wire/Generated/Messages.antt =====
-- The constants and the messages of
-- experiments/engine-generated-settlement/crates/generated-settlement-probe-wire/src/lib.rs.
use programmable_solana.Base.{ℕ, ◌+◌, ◌*◌, List, [], ◌∷◌, ◌++◌, length}
use programmable_solana.Wire.Opaque.{max_opaque_accounts, max_opaque_payload_len}

abbrev pub capability_prefix_accounts : ℕ
capability_prefix_accounts = 2

abbrev pub max_capability_descriptors : ℕ
max_capability_descriptors = capability_prefix_accounts + max_opaque_accounts

abbrev pub disposable_core_program_id : ℕ
disposable_core_program_id = 0xc1122cda9d1c1d6098ed015d68880b272d3a6fc70af7136f7c2092791a3b98c5

abbrev pub disposable_engine_program_id : ℕ
disposable_engine_program_id = 0x24f715b14a5cee1c4b1feb07455726cbb0b83dd51cc6f70f6889afde0f1d98c3

abbrev pub disposable_helper_program_id : ℕ
disposable_helper_program_id = 0x5bfff79dc9cd27249e27c1e49c3f3980100e04fad9e05257ec1aa9613c731bce

abbrev pub evaluate_discriminator : List ℕ
evaluate_discriminator = 0xb3 ∷ 0xd3 ∷ 0x8e ∷ 0xb7 ∷ 0x6c ∷ 0x68 ∷ 0x14 ∷ 0xd6 ∷ []

abbrev pub receipt_magic : List ℕ
receipt_magic = b'P' ∷ b'M' ∷ b'B' ∷ b'G' ∷ b'S' ∷ b'R' ∷ b'0' ∷ b'0' ∷ []

abbrev pub capability_hash_domain : List ℕ
capability_hash_domain =
    (b'p' ∷ b'r' ∷ b'o' ∷ b'g' ∷ b'r' ∷ b'a' ∷ b'm' ∷ b'm' ∷ b'a' ∷ b'b' ∷ b'l' ∷ b'e' ∷ [])
    ++ ((b':' ∷ b'g' ∷ b'e' ∷ b'n' ∷ b'e' ∷ b'r' ∷ b'a' ∷ b't' ∷ b'e' ∷ b'd' ∷ b'-' ∷ b's' ∷ [])
        ++ ((b'e' ∷ b't' ∷ b't' ∷ b'l' ∷ b'e' ∷ b'm' ∷ b'e' ∷ b'n' ∷ b't' ∷ b':' ∷ b'c' ∷ b'a' ∷ [])
            ++ (b'p' ∷ b'a' ∷ b'b' ∷ b'i' ∷ b'l' ∷ b'i' ∷ b't' ∷ b'y' ∷ b':' ∷ b'v' ∷ b'0' ∷ [])))

abbrev pub payload_hash_domain : List ℕ
payload_hash_domain =
    (b'p' ∷ b'r' ∷ b'o' ∷ b'g' ∷ b'r' ∷ b'a' ∷ b'm' ∷ b'm' ∷ b'a' ∷ b'b' ∷ b'l' ∷ b'e' ∷ [])
    ++ ((b':' ∷ b'g' ∷ b'e' ∷ b'n' ∷ b'e' ∷ b'r' ∷ b'a' ∷ b't' ∷ b'e' ∷ b'd' ∷ b'-' ∷ b's' ∷ [])
        ++ ((b'e' ∷ b't' ∷ b't' ∷ b'l' ∷ b'e' ∷ b'm' ∷ b'e' ∷ b'n' ∷ b't' ∷ b':' ∷ b'p' ∷ b'a' ∷ [])
            ++ (b'y' ∷ b'l' ∷ b'o' ∷ b'a' ∷ b'd' ∷ b':' ∷ b'v' ∷ b'0' ∷ [])))

abbrev pub request_hash_domain : List ℕ
request_hash_domain =
    (b'p' ∷ b'r' ∷ b'o' ∷ b'g' ∷ b'r' ∷ b'a' ∷ b'm' ∷ b'm' ∷ b'a' ∷ b'b' ∷ b'l' ∷ b'e' ∷ [])
    ++ ((b':' ∷ b'g' ∷ b'e' ∷ b'n' ∷ b'e' ∷ b'r' ∷ b'a' ∷ b't' ∷ b'e' ∷ b'd' ∷ b'-' ∷ b's' ∷ [])
        ++ ((b'e' ∷ b't' ∷ b't' ∷ b'l' ∷ b'e' ∷ b'm' ∷ b'e' ∷ b'n' ∷ b't' ∷ b':' ∷ b'r' ∷ b'e' ∷ [])
            ++ (b'q' ∷ b'u' ∷ b'e' ∷ b's' ∷ b't' ∷ b':' ∷ b'v' ∷ b'0' ∷ [])))

abbrev pub request_binding_len : ℕ
request_binding_len = 1 + 15 * 32 + 11 * 8 + 2 * 32

abbrev pub engine_request_len : ℕ
engine_request_len = 1 + 32 + 2 * 32 + 4 * 8 + 2 + 32 + 2 + max_opaque_payload_len

abbrev pub evaluate_instruction_len : ℕ
evaluate_instruction_len = length evaluate_discriminator + engine_request_len

abbrev pub engine_receipt_len : ℕ
engine_receipt_len = length receipt_magic + 1 + 32 + 2 * 8

pub record RequestBinding : Type 0 where
  pub core_program : ℕ
  pub market : ℕ
  pub domain : ℕ
  pub engine_program : ℕ
  pub engine_state : ℕ
  pub user_authority : ℕ
  pub user_input : ℕ
  pub user_output : ℕ
  pub mint_in : ℕ
  pub mint_out : ℕ
  pub domain_input_vault : ℕ
  pub domain_output_vault : ℕ
  pub protocol_fee_vault : ℕ
  pub fee_ledger : ℕ
  pub token_program : ℕ
  pub engine_revision : ℕ
  pub fee_policy_revision : ℕ
  pub amount_in : ℕ
  pub protocol_fee : ℕ
  pub max_total_input_debit : ℕ
  pub min_output_credit : ℕ
  pub max_protocol_fee : ℕ
  pub accounted_input_before : ℕ
  pub accounted_output_before : ℕ
  pub accounted_fee_before : ℕ
  pub expires_at_slot : ℕ
  pub capability_hash : ℕ
  pub payload_hash : ℕ

pub record EngineRequest : Type 0 where
  pub request_hash : ℕ
  pub market : ℕ
  pub domain : ℕ
  pub engine_revision : ℕ
  pub amount_in : ℕ
  pub accounted_input_before : ℕ
  pub accounted_output_before : ℕ
  pub opaque_account_count : ℕ
  pub capability_hash : ℕ
  pub payload_len : ℕ
  pub payload : List ℕ

pub record EngineReceipt : Type 0 where
  pub request_hash : ℕ
  pub amount_out : ℕ
  pub state_sequence : ℕ
