-- ===== src/Wire/Probe.antt =====
-- The engine-probe codec: crates/engine-probe-interface/src/lib.rs.
-- A `Pubkey` and a `[u8; 32]` are the numbers that their 32 bytes spell, lowest byte first.
pub mod Request
pub mod Receipt
pub mod Plan
pub mod RoundTrip
pub mod Canonical
pub mod Binding
mod Examples
use programmable_solana.Base.{
  ℕ, ◌+◌, ◌*◌, ◌≡◌, List, [], ◌∷◌, ◌++◌, length, take, drop, list_eq, not, Result, ok, err, ◌>>=◌,
  ◌>>◌, require, ◌==◌,
}
use programmable_solana.Wire.Cursor.{
  Writer, new_writer, put_bytes, put_u8, put_u64, put_pubkey, finish, read_u8, read_array_8,
  read_array_32, read_u64, read_pubkey, read_number, assert_cursor,
}

abbrev pub probe_wire_version : ℕ
probe_wire_version = 0

abbrev pub disposable_core_program_id : ℕ
disposable_core_program_id = 0x964d0482bbd9e65072d358e11f8e2795a4c4abe35e2d2d8e60569ae10cd238ad

abbrev pub disposable_engine_program_id : ℕ
disposable_engine_program_id = 0x9def9b86e20e3d2c52b7a34622d64e8e81e6aafc35c992742eaaa86fd1337f0

abbrev pub evaluate_discriminator : List ℕ
evaluate_discriminator = 0xb3 ∷ 0xd3 ∷ 0x8e ∷ 0xb7 ∷ 0x6c ∷ 0x68 ∷ 0x14 ∷ 0xd6 ∷ []

abbrev pub core_execute_engine_probe_discriminator : List ℕ
core_execute_engine_probe_discriminator = 0xf7 ∷ 0xcc ∷ 0xde ∷ 0xcd ∷ 0x95 ∷ 0x4a ∷ 0xc2 ∷ 0xb8 ∷ []

abbrev pub receipt_magic : List ℕ
receipt_magic = b'P' ∷ b'M' ∷ b'B' ∷ b'R' ∷ b'C' ∷ b'P' ∷ b'0' ∷ b'0' ∷ []

-- The bytes of "programmable:engine-probe:plan:v0".
abbrev pub plan_domain : List ℕ
plan_domain =
    (b'p' ∷ b'r' ∷ b'o' ∷ b'g' ∷ b'r' ∷ b'a' ∷ b'm' ∷ b'm' ∷ b'a' ∷ b'b' ∷ b'l' ∷ b'e' ∷ b':' ∷ [])
    ++ ((b'e' ∷ b'n' ∷ b'g' ∷ b'i' ∷ b'n' ∷ b'e' ∷ b'-' ∷ b'p' ∷ b'r' ∷ b'o' ∷ b'b' ∷ b'e' ∷ b':'
          ∷ [])
        ++ (b'p' ∷ b'l' ∷ b'a' ∷ b'n' ∷ b':' ∷ b'v' ∷ b'0' ∷ []))

abbrev pub pubkey_len : ℕ
pubkey_len = 32

abbrev pub u64_len : ℕ
u64_len = 8

abbrev pub plan_pubkeys : ℕ
plan_pubkeys = 15

abbrev pub plan_u64s : ℕ
plan_u64s = 12

abbrev pub request_pubkey_sized_fields : ℕ
request_pubkey_sized_fields = 3

abbrev pub request_u64s : ℕ
request_u64s = 7

abbrev pub plan_binding_len : ℕ
plan_binding_len = 1 + plan_pubkeys * pubkey_len + plan_u64s * u64_len

abbrev pub engine_request_len : ℕ
engine_request_len = 1 + request_pubkey_sized_fields * pubkey_len + request_u64s * u64_len

abbrev pub evaluate_instruction_len : ℕ
evaluate_instruction_len = length evaluate_discriminator + engine_request_len

abbrev pub engine_receipt_len : ℕ
engine_receipt_len = length receipt_magic + 1 + pubkey_len + u64_len

pub record PlanBinding : Type 0 where
  pub core_program : ℕ
  pub market : ℕ
  pub domain : ℕ
  pub engine_program : ℕ
  pub engine_state : ℕ
  pub user_authority : ℕ
  pub user_input : ℕ
  pub user_output : ℕ
  pub mint_in : ℕ
  pub mint_out : ℕ
  pub domain_input_vault : ℕ
  pub domain_output_vault : ℕ
  pub protocol_fee_vault : ℕ
  pub fee_ledger : ℕ
  pub token_program : ℕ
  pub engine_revision : ℕ
  pub fee_policy_revision : ℕ
  pub amount_in : ℕ
  pub amount_out : ℕ
  pub protocol_fee : ℕ
  pub max_total_input_debit : ℕ
  pub min_output_credit : ℕ
  pub max_protocol_fee : ℕ
  pub accounted_input_before : ℕ
  pub accounted_output_before : ℕ
  pub accounted_fee_before : ℕ
  pub expires_at_slot : ℕ

pub record EngineRequest : Type 0 where
  pub plan_hash : ℕ
  pub market : ℕ
  pub domain : ℕ
  pub engine_revision : ℕ
  pub amount_in : ℕ
  pub amount_out : ℕ
  pub protocol_fee : ℕ
  pub accounted_input_before : ℕ
  pub accounted_output_before : ℕ
  pub accounted_fee_before : ℕ

pub record EngineReceipt : Type 0 where
  pub plan_hash : ℕ
  pub state_sequence : ℕ

pub data CodecError : Type 0 where
  invalid_length : ℕ → ℕ → CodecError
  invalid_discriminator : CodecError
  invalid_magic : CodecError
  unsupported_version : ℕ → ℕ → CodecError

module _ {E : Type 0} where
  unfoldable pub encode_plan_binding : PlanBinding → Result E (List ℕ)
  encode_plan_binding binding = do
    w ← put_u8 (new_writer plan_binding_len) probe_wire_version
    w ← put_pubkey w binding.core_program
    w ← put_pubkey w binding.market
    w ← put_pubkey w binding.domain
    w ← put_pubkey w binding.engine_program
    w ← put_pubkey w binding.engine_state
    w ← put_pubkey w binding.user_authority
    w ← put_pubkey w binding.user_input
    w ← put_pubkey w binding.user_output
    w ← put_pubkey w binding.mint_in
    w ← put_pubkey w binding.mint_out
    w ← put_pubkey w binding.domain_input_vault
    w ← put_pubkey w binding.domain_output_vault
    w ← put_pubkey w binding.protocol_fee_vault
    w ← put_pubkey w binding.fee_ledger
    w ← put_pubkey w binding.token_program
    w ← put_u64 w binding.engine_revision
    w ← put_u64 w binding.fee_policy_revision
    w ← put_u64 w binding.amount_in
    w ← put_u64 w binding.amount_out
    w ← put_u64 w binding.protocol_fee
    w ← put_u64 w binding.max_total_input_debit
    w ← put_u64 w binding.min_output_credit
    w ← put_u64 w binding.max_protocol_fee
    w ← put_u64 w binding.accounted_input_before
    w ← put_u64 w binding.accounted_output_before
    w ← put_u64 w binding.accounted_fee_before
    w ← put_u64 w binding.expires_at_slot
    finish w plan_binding_len

  -- `hashv` is `solana_sha256_hasher::hashv`: the digest of the slices in order.
  unfoldable pub compute_plan_hash : (List (List ℕ) → ℕ) → PlanBinding → Result E ℕ
  compute_plan_hash hashv binding = do
    encoded ← encode_plan_binding binding
    ok (hashv (plan_domain ∷ encoded ∷ []))

  unfoldable pub encode_request : EngineRequest → Result E (List ℕ)
  encode_request request = do
    w ← put_u8 (new_writer engine_request_len) probe_wire_version
    w ← put_pubkey w request.plan_hash
    w ← put_pubkey w request.market
    w ← put_pubkey w request.domain
    w ← put_u64 w request.engine_revision
    w ← put_u64 w request.amount_in
    w ← put_u64 w request.amount_out
    w ← put_u64 w request.protocol_fee
    w ← put_u64 w request.accounted_input_before
    w ← put_u64 w request.accounted_output_before
    w ← put_u64 w request.accounted_fee_before
    finish w engine_request_len

  -- Two slice copies into `[0; EVALUATE_INSTRUCTION_LEN]`.
  unfoldable pub encode_evaluate_instruction : EngineRequest → Result E (List ℕ)
  encode_evaluate_instruction request = do
    w ← put_bytes (new_writer evaluate_instruction_len) evaluate_discriminator
    encoded ← encode_request request
    w ← put_bytes w encoded
    ok w.output

  unfoldable pub encode_receipt : EngineReceipt → Result E (List ℕ)
  encode_receipt receipt = do
    w ← put_bytes (new_writer engine_receipt_len) receipt_magic
    w ← put_u8 w probe_wire_version
    w ← put_pubkey w receipt.plan_hash
    w ← put_u64 w receipt.state_sequence
    finish w engine_receipt_len

unfoldable pub require_length : List ℕ → ℕ → Result CodecError (Unit {0})
require_length bytes expected =
    require (length bytes == expected) (invalid_length expected (length bytes))

unfoldable pub require_version : ℕ → Result CodecError (Unit {0})
require_version actual =
    require (actual == probe_wire_version) (unsupported_version probe_wire_version actual)

unfoldable pub decode_request : List ℕ → Result CodecError EngineRequest
decode_request bytes = do
  require_length bytes engine_request_len
  (version, cursor) ← read_u8 bytes 0
  require_version version
  (plan_hash, cursor) ← read_number 32 bytes cursor
  (market, cursor) ← read_pubkey bytes cursor
  (domain, cursor) ← read_pubkey bytes cursor
  (engine_revision, cursor) ← read_u64 bytes cursor
  (amount_in, cursor) ← read_u64 bytes cursor
  (amount_out, cursor) ← read_u64 bytes cursor
  (protocol_fee, cursor) ← read_u64 bytes cursor
  (accounted_input_before, cursor) ← read_u64 bytes cursor
  (accounted_output_before, cursor) ← read_u64 bytes cursor
  (accounted_fee_before, cursor) ← read_u64 bytes cursor
  assert_cursor cursor engine_request_len
  ok (record {
    plan_hash = plan_hash;
    market = market;
    domain = domain;
    engine_revision = engine_revision;
    amount_in = amount_in;
    amount_out = amount_out;
    protocol_fee = protocol_fee;
    accounted_input_before = accounted_input_before;
    accounted_output_before = accounted_output_before;
    accounted_fee_before = accounted_fee_before;
  })

unfoldable pub decode_evaluate_instruction : List ℕ → Result CodecError EngineRequest
decode_evaluate_instruction bytes = do
  require_length bytes evaluate_instruction_len
  require (list_eq (take (length evaluate_discriminator) bytes) evaluate_discriminator)
      invalid_discriminator
  decode_request (drop (length evaluate_discriminator) bytes)

unfoldable pub decode_receipt : List ℕ → Result CodecError EngineReceipt
decode_receipt bytes = do
  require_length bytes engine_receipt_len
  (magic, cursor) ← read_array_8 bytes 0
  require (list_eq magic receipt_magic) invalid_magic
  (version, cursor) ← read_u8 bytes cursor
  require_version version
  (plan_hash, cursor) ← read_number 32 bytes cursor
  (state_sequence, cursor) ← read_u64 bytes cursor
  assert_cursor cursor engine_receipt_len
  ok (record { plan_hash = plan_hash; state_sequence = state_sequence })
