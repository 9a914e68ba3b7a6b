-- ===== src/Wire/Generated.antt =====
-- The generated-settlement codec:
-- experiments/engine-generated-settlement/crates/generated-settlement-probe-wire/src/lib.rs, on the
-- part that the two experiments share. A `Pubkey` and a `[u8; 32]` are the numbers that their
-- bytes spell, lowest byte first; the padded payload is its list of bytes.
mod Messages
pub mod Rows
pub mod RoundTrip
pub mod Canonical
pub mod Binding
mod Examples
pub use Messages.{
  capability_prefix_accounts, max_capability_descriptors, disposable_core_program_id,
  disposable_engine_program_id, disposable_helper_program_id, evaluate_discriminator, receipt_magic,
  capability_hash_domain, payload_hash_domain, request_hash_domain, request_binding_len,
  engine_request_len, evaluate_instruction_len, engine_receipt_len, RequestBinding, EngineRequest,
  EngineReceipt,
}
use programmable_solana.Base.{
  ℕ, ◌+◌, ◌*◌, ◌≡◌, List, [], ◌∷◌, ◌++◌, length, take, drop, list_eq, Result, ok, err, ◌>>=◌, ◌>>◌,
  require,
}
use programmable_solana.Wire.Bytes.{le_bytes}
use programmable_solana.Wire.Cursor.{
  Writer, new_writer, put_bytes, put_u8, put_u16, put_u64, put_pubkey, finish, read_u8, read_array,
  read_array_8, read_u16, read_u64, read_pubkey, read_number, assert_cursor,
}
use programmable_solana.Wire.Opaque.{
  probe_wire_version, max_opaque_accounts, max_opaque_payload_len, CapabilityDescriptor, CodecError,
  invalid_magic, invalid_discriminator, compute_capability_hash, compute_payload_hash,
  canonical_payload, validate_opaque_account_count, validate_opaque, require_length,
  require_version,
}

-- `EngineRequest::new`
unfoldable pub new_engine_request :
    ℕ → ℕ → ℕ → ℕ → ℕ → ℕ → ℕ → ℕ → ℕ → List ℕ → Result CodecError EngineRequest
new_engine_request request_hash market domain engine_revision amount_in accounted_input_before
      accounted_output_before opaque_account_count capability_hash payload =
    do
      validate_opaque_account_count opaque_account_count
      (payload_len, payload) ← canonical_payload payload
      ok (record {
        request_hash = request_hash;
        market = market;
        domain = domain;
        engine_revision = engine_revision;
        amount_in = amount_in;
        accounted_input_before = accounted_input_before;
        accounted_output_before = accounted_output_before;
        opaque_account_count = opaque_account_count;
        capability_hash = capability_hash;
        payload_len = payload_len;
        payload = payload;
      })

unfoldable pub validate_engine_request : EngineRequest → Result CodecError (Unit {0})
validate_engine_request request =
    validate_opaque request.opaque_account_count request.payload_len request.payload

unfoldable pub payload_bytes : EngineRequest → Result CodecError (List ℕ)
payload_bytes request = do
  validate_engine_request request
  ok (take request.payload_len request.payload)

unfoldable pub generated_capability_hash :
    (List (List ℕ) → ℕ) → ℕ → List CapabilityDescriptor → Result CodecError ℕ
generated_capability_hash =
    compute_capability_hash capability_hash_domain max_capability_descriptors

unfoldable pub generated_payload_hash : (List (List ℕ) → ℕ) → List ℕ → Result CodecError ℕ
generated_payload_hash = compute_payload_hash payload_hash_domain

module _ {E : Type 0} where
  unfoldable pub encode_request_binding : RequestBinding → Result E (List ℕ)
  encode_request_binding binding = do
    w ← put_u8 (new_writer request_binding_len) probe_wire_version
    w ← put_pubkey w binding.core_program
    w ← put_pubkey w binding.market
    w ← put_pubkey w binding.domain
    w ← put_pubkey w binding.engine_program
    w ← put_pubkey w binding.engine_state
    w ← put_pubkey w binding.user_authority
    w ← put_pubkey w binding.user_input
    w ← put_pubkey w binding.user_output
    w ← put_pubkey w binding.mint_in
    w ← put_pubkey w binding.mint_out
    w ← put_pubkey w binding.domain_input_vault
    w ← put_pubkey w binding.domain_output_vault
    w ← put_pubkey w binding.protocol_fee_vault
    w ← put_pubkey w binding.fee_ledger
    w ← put_pubkey w binding.token_program
    w ← put_u64 w binding.engine_revision
    w ← put_u64 w binding.fee_policy_revision
    w ← put_u64 w binding.amount_in
    w ← put_u64 w binding.protocol_fee
    w ← put_u64 w binding.max_total_input_debit
    w ← put_u64 w binding.min_output_credit
    w ← put_u64 w binding.max_protocol_fee
    w ← put_u64 w binding.accounted_input_before
    w ← put_u64 w binding.accounted_output_before
    w ← put_u64 w binding.accounted_fee_before
    w ← put_u64 w binding.expires_at_slot
    w ← put_bytes w (le_bytes 32 binding.capability_hash)
    w ← put_bytes w (le_bytes 32 binding.payload_hash)
    finish w request_binding_len

  unfoldable pub compute_request_hash : (List (List ℕ) → ℕ) → RequestBinding → Result E ℕ
  compute_request_hash hashv binding = do
    encoded ← encode_request_binding binding
    ok (hashv (request_hash_domain ∷ encoded ∷ []))

  unfoldable pub encode_receipt : EngineReceipt → Result E (List ℕ)
  encode_receipt receipt = do
    w ← put_bytes (new_writer engine_receipt_len) receipt_magic
    w ← put_u8 w probe_wire_version
    w ← put_bytes w (le_bytes 32 receipt.request_hash)
    w ← put_u64 w receipt.amount_out
    w ← put_u64 w receipt.state_sequence
    finish w engine_receipt_len

unfoldable pub decode_request_binding : List ℕ → Result CodecError RequestBinding
decode_request_binding bytes = do
  require_length bytes request_binding_len
  (version, cursor) ← read_u8 bytes 0
  require_version version
  (core_program, cursor) ← read_pubkey bytes cursor
  (market, cursor) ← read_pubkey bytes cursor
  (domain, cursor) ← read_pubkey bytes cursor
  (engine_program, cursor) ← read_pubkey bytes cursor
  (engine_state, cursor) ← read_pubkey bytes cursor
  (user_authority, cursor) ← read_pubkey bytes cursor
  (user_input, cursor) ← read_pubkey bytes cursor
  (user_output, cursor) ← read_pubkey bytes cursor
  (mint_in, cursor) ← read_pubkey bytes cursor
  (mint_out, cursor) ← read_pubkey bytes cursor
  (domain_input_vault, cursor) ← read_pubkey bytes cursor
  (domain_output_vault, cursor) ← read_pubkey bytes cursor
  (protocol_fee_vault, cursor) ← read_pubkey bytes cursor
  (fee_ledger, cursor) ← read_pubkey bytes cursor
  (token_program, cursor) ← read_pubkey bytes cursor
  (engine_revision, cursor) ← read_u64 bytes cursor
  (fee_policy_revision, cursor) ← read_u64 bytes cursor
  (amount_in, cursor) ← read_u64 bytes cursor
  (protocol_fee, cursor) ← read_u64 bytes cursor
  (max_total_input_debit, cursor) ← read_u64 bytes cursor
  (min_output_credit, cursor) ← read_u64 bytes cursor
  (max_protocol_fee, cursor) ← read_u64 bytes cursor
  (accounted_input_before, cursor) ← read_u64 bytes cursor
  (accounted_output_before, cursor) ← read_u64 bytes cursor
  (accounted_fee_before, cursor) ← read_u64 bytes cursor
  (expires_at_slot, cursor) ← read_u64 bytes cursor
  (capability_hash, cursor) ← read_number 32 bytes cursor
  (payload_hash, cursor) ← read_number 32 bytes cursor
  assert_cursor cursor request_binding_len
  ok (record {
    core_program = core_program;
    market = market;
    domain = domain;
    engine_program = engine_program;
    engine_state = engine_state;
    user_authority = user_authority;
    user_input = user_input;
    user_output = user_output;
    mint_in = mint_in;
    mint_out = mint_out;
    domain_input_vault = domain_input_vault;
    domain_output_vault = domain_output_vault;
    protocol_fee_vault = protocol_fee_vault;
    fee_ledger = fee_ledger;
    token_program = token_program;
    engine_revision = engine_revision;
    fee_policy_revision = fee_policy_revision;
    amount_in = amount_in;
    protocol_fee = protocol_fee;
    max_total_input_debit = max_total_input_debit;
    min_output_credit = min_output_credit;
    max_protocol_fee = max_protocol_fee;
    accounted_input_before = accounted_input_before;
    accounted_output_before = accounted_output_before;
    accounted_fee_before = accounted_fee_before;
    expires_at_slot = expires_at_slot;
    capability_hash = capability_hash;
    payload_hash = payload_hash;
  })

unfoldable pub encode_request : EngineRequest → Result CodecError (List ℕ)
encode_request request = do
  validate_engine_request request
  w ← put_u8 (new_writer engine_request_len) probe_wire_version
  w ← put_bytes w (le_bytes 32 request.request_hash)
  w ← put_pubkey w request.market
  w ← put_pubkey w request.domain
  w ← put_u64 w request.engine_revision
  w ← put_u64 w request.amount_in
  w ← put_u64 w request.accounted_input_before
  w ← put_u64 w request.accounted_output_before
  w ← put_u16 w request.opaque_account_count
  w ← put_bytes w (le_bytes 32 request.capability_hash)
  w ← put_u16 w request.payload_len
  w ← put_bytes w request.payload
  finish w engine_request_len

unfoldable pub decode_request : List ℕ → Result CodecError EngineRequest
decode_request bytes = do
  require_length bytes engine_request_len
  (version, cursor) ← read_u8 bytes 0
  require_version version
  (request_hash, cursor) ← read_number 32 bytes cursor
  (market, cursor) ← read_pubkey bytes cursor
  (domain, cursor) ← read_pubkey bytes cursor
  (engine_revision, cursor) ← read_u64 bytes cursor
  (amount_in, cursor) ← read_u64 bytes cursor
  (accounted_input_before, cursor) ← read_u64 bytes cursor
  (accounted_output_before, cursor) ← read_u64 bytes cursor
  (opaque_account_count, cursor) ← read_u16 bytes cursor
  (capability_hash, cursor) ← read_number 32 bytes cursor
  (payload_len, cursor) ← read_u16 bytes cursor
  (payload, cursor) ← read_array max_opaque_payload_len bytes cursor
  assert_cursor cursor engine_request_len
  request ← ok (record {
    request_hash = request_hash;
    market = market;
    domain = domain;
    engine_revision = engine_revision;
    amount_in = amount_in;
    accounted_input_before = accounted_input_before;
    accounted_output_before = accounted_output_before;
    opaque_account_count = opaque_account_count;
    capability_hash = capability_hash;
    payload_len = payload_len;
    payload = payload;
  })
  validate_engine_request request
  ok request

-- Two slice copies into `[0; EVALUATE_INSTRUCTION_LEN]`.
unfoldable pub encode_evaluate_instruction : EngineRequest → Result CodecError (List ℕ)
encode_evaluate_instruction request = do
  encoded_request ← encode_request request
  w ← put_bytes (new_writer evaluate_instruction_len) evaluate_discriminator
  w ← put_bytes w encoded_request
  ok w.output

unfoldable pub decode_evaluate_instruction : List ℕ → Result CodecError EngineRequest
decode_evaluate_instruction bytes = do
  require_length bytes evaluate_instruction_len
  require (list_eq (take (length evaluate_discriminator) bytes) evaluate_discriminator)
      invalid_discriminator
  decode_request (drop (length evaluate_discriminator) bytes)

unfoldable pub decode_receipt : List ℕ → Result CodecError EngineReceipt
decode_receipt bytes = do
  require_length bytes engine_receipt_len
  (magic, cursor) ← read_array_8 bytes 0
  require (list_eq magic receipt_magic) invalid_magic
  (version, cursor) ← read_u8 bytes cursor
  require_version version
  (request_hash, cursor) ← read_number 32 bytes cursor
  (amount_out, cursor) ← read_u64 bytes cursor
  (state_sequence, cursor) ← read_u64 bytes cursor
  assert_cursor cursor engine_receipt_len
  ok (record {
    request_hash = request_hash;
    amount_out = amount_out;
    state_sequence = state_sequence;
  })
