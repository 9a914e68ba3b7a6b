-- ===== src/Wire/Generated/RoundTrip.antt =====
-- What the encoders of the generated-settlement codec write, and that the decoders read it back.
use programmable_solana.Base.{
  ℕ, ◌+◌, ◌≡◌, refl, ap, ◌∙◌, List, [], ◌∷◌, ◌++◌, append-nil, length, ok, length-append, list_eq,
  require, ◌>>=◌, ◌>>◌, ==_of_eq, arith,
}
use programmable_solana.Wire.Cursor.{finish, put_bytes, read_array, assert_cursor}
use programmable_solana.Wire.Cursor.Laws.{
  put_bytes-filled, put_bytes-full, put_u8-filled, finish-filled, assert_cursor-eq, read_u8-append,
  read_array-last, read_array-append,
}
use programmable_solana.Wire.Layout.{
  encoding, size, values, put_fields-filled, read_fields-append, read_fields-all,
  read_fields-behind, length-encoding, values-encoding,
}
use programmable_solana.Wire.Opaque.{
  CodecError, probe_wire_version, invalid_magic, require_length, require_version,
}
use programmable_solana.Wire.Opaque.Limits.{validate_opaque-ok}
use programmable_solana.Wire.Generated.{
  evaluate_discriminator, receipt_magic, RequestBinding, EngineRequest, EngineReceipt,
  validate_engine_request, encode_request_binding, encode_request, encode_evaluate_instruction,
  encode_receipt, decode_request_binding, decode_request, decode_evaluate_instruction,
  decode_receipt,
}
use programmable_solana.Wire.Generated.Rows.Binding
use programmable_solana.Wire.Generated.Rows.Request
use programmable_solana.Wire.Generated.Rows.Receipt

module _ {E : Type 0} where
  pub encode_request_binding_lem :
      (b : RequestBinding)
      → encode_request_binding {E = E} b
        ≡ ok (probe_wire_version ∷ encoding Binding.widths (Binding.row b))
  unfolding encode_request_binding
  encode_request_binding_lem b = rw (put_u8-filled [] probe_wire_version 632) (
      put_fields-filled Binding.widths (Binding.row b) (probe_wire_version ∷ []) 0
        (λ w. finish w 633) refl
      ∙ finish-filled _ 633 (omega (arith, length-encoding Binding.widths (Binding.row b) refl)))

  pub encode_receipt_lem :
      (r : EngineReceipt)
      → encode_receipt {E = E} r
        ≡ ok (receipt_magic ++ (probe_wire_version ∷ encoding Receipt.widths (Receipt.row r)))
  unfolding encode_receipt
  encode_receipt_lem r =
      rw (put_bytes-filled [] receipt_magic 49, put_u8-filled receipt_magic probe_wire_version 48)
        (put_fields-filled Receipt.widths (Receipt.row r)
            (receipt_magic ++ (probe_wire_version ∷ [])) 0 (λ w. finish w 57) refl
          ∙ finish-filled _ 57 (omega (arith, length-encoding Receipt.widths (Receipt.row r) refl)))

-- The bytes of a request.
abbrev pub request_bytes : EngineRequest → List ℕ
request_bytes r = probe_wire_version ∷ (encoding Request.widths (Request.row r) ++ r.payload)

validate_engine_request-ok :
    (r : EngineRequest) → Request.IsValid r → validate_engine_request r ≡ ok tt
unfolding validate_engine_request
validate_engine_request-ok r h =
    validate_opaque-ok r.opaque_account_count r.payload_len r.payload h.accounts_few h.payload_short
      h.padded

-- A request whose limits hold is written field by field, its payload behind them.
pub encode_request_lem :
    (r : EngineRequest)
    → validate_engine_request r ≡ ok tt
    → length r.payload ≡ 128
    → encode_request r ≡ ok (request_bytes r)
unfolding encode_request
encode_request_lem r valid long =
    let row = encoding Request.widths (Request.row r) in
    let front : length row ≡ 164 = length-encoding Request.widths (Request.row r) refl in
    rw (valid, put_u8-filled {E = CodecError} [] probe_wire_version 292)
      (put_fields-filled Request.widths (Request.row r) (probe_wire_version ∷ []) 128
          (λ w. put_bytes w r.payload >>= λ w. finish w 293) refl
        ∙ rw (put_bytes-full {E = CodecError} (probe_wire_version ∷ row) r.payload 128 long) (
            finish-filled {E = CodecError} (request_bytes r) 293
              (omega (arith, length-append row r.payload))))

pub encode_evaluate_instruction_lem :
    (r : EngineRequest)
    → validate_engine_request r ≡ ok tt
    → length r.payload ≡ 128
    → encode_evaluate_instruction r ≡ ok (evaluate_discriminator ++ request_bytes r)
unfolding encode_evaluate_instruction
encode_evaluate_instruction_lem r valid long =
    let whole : length (request_bytes r) ≡ 293 = omega (
      arith,
      length-append (encoding Request.widths (Request.row r)) r.payload,
      length-encoding Request.widths (Request.row r) refl,
    ) in
    rw (
      encode_request_lem r valid long,
      put_bytes-filled {E = CodecError} [] evaluate_discriminator 293,
      put_bytes-full {E = CodecError} evaluate_discriminator (request_bytes r) 293 whole,
      append-nil,
    )

pub require_length-eq : (bytes : List ℕ) (n : ℕ) → length bytes ≡ n → require_length bytes n ≡ ok tt
unfolding require_length
require_length-eq bytes n e = rw (==_of_eq _ _ e)

-- The request decoder's view of any input: after the version byte, the fields in their order, the
-- payload, and the limits.
pub decode_request-row :
    (version : ℕ) (row payload : List ℕ)
    → length row ≡ size Request.widths
    → length payload ≡ 128
    → decode_request (version ∷ (row ++ payload)) ≡ (
        let request = Request.of_row (values Request.widths row) payload in
        require_version version >> (validate_engine_request request >> ok request))
unfolding decode_request assert_cursor
decode_request-row version row payload e long =
    let bytes = version ∷ (row ++ payload) in
    let next = (λ (vs : List ℕ) (c : ℕ). read_array {E = CodecError} 128 bytes c >>= λ p.
    assert_cursor p.1 293
    >> (ok (Request.of_row vs p.0) >>= λ request. validate_engine_request request >> ok request)) in
    let last =
      read_array-last {E = CodecError} 128 (version ∷ row) payload 165 293 long (omega arith)
        (omega arith) in
    rw
      (
        require_length-eq bytes 293 (omega (arith, length-append row payload)),
        read_u8-append {E = CodecError} [] version (row ++ payload),
      )
      (ap (λ m. require_version version >> m)
        (read_fields-append Request.widths (version ∷ []) row payload next e ∙ rw last refl))

pub decode_receipt-row :
    (magic : List ℕ) (version : ℕ) (row : List ℕ)
    → length magic ≡ 8
    → length row ≡ size Receipt.widths
    → decode_receipt (magic ++ (version ∷ row)) ≡ (
        require (list_eq magic receipt_magic) invalid_magic
        >> (require_version version >> ok (Receipt.of_row (values Receipt.widths row))))
unfolding decode_receipt
decode_receipt-row magic version row m e =
    let long : length (magic ++ (version ∷ row)) ≡ 57 =
      omega (arith, length-append magic (version ∷ row)) in
    rw
      (
        require_length-eq (magic ++ (version ∷ row)) 57 long,
        read_array-append {E = CodecError} 8 [] magic (version ∷ row) m,
        read_u8-append {E = CodecError} magic version row,
      )
      (ap
        (λ m. require (list_eq magic receipt_magic) invalid_magic >> (require_version version >> m))
        (read_fields-behind Receipt.widths magic version row
            (λ vs c. assert_cursor c 57 >> ok (Receipt.of_row vs)) e
          ∙ rw (assert_cursor-eq {E = CodecError} (length magic + 1 + 48) 57 (omega arith))))

pub decode_request_binding-row :
    (version : ℕ) (row : List ℕ)
    → length row ≡ size Binding.widths
    → decode_request_binding (version ∷ row)
      ≡ (require_version version >> ok (Binding.of_row (values Binding.widths row)))
unfolding decode_request_binding assert_cursor
decode_request_binding-row version row e =
    rw
      (
        require_length-eq (version ∷ row) 633 (omega arith),
        read_u8-append {E = CodecError} [] version row,
      )
      (ap (λ m. require_version version >> m)
        (read_fields-all Binding.widths (version ∷ []) row
          (λ vs c. assert_cursor c 633 >> ok (Binding.of_row vs)) e))

-- A valid request's bytes decode to it.
pub decode_request-request_bytes :
    (r : EngineRequest) → Request.IsValid r → decode_request (request_bytes r) ≡ ok r
unfolding require_version
decode_request-request_bytes r h =
    let row = encoding Request.widths (Request.row r) in
    let front : length row ≡ 164 = length-encoding Request.widths (Request.row r) refl in
    let same : Request.of_row (values Request.widths row) r.payload ≡ r =
      ap (λ vs. Request.of_row vs r.payload)
        (values-encoding Request.widths (Request.row r) h.fits) in
    decode_request-row probe_wire_version row r.payload front h.payload_long
    ∙ rw (same, validate_engine_request-ok r h)

-- Each evaluate instruction that is encoded of a generated-settlement request whose fields fit
-- their types and whose limits and padding are kept decodes to that request.
pub evaluate_instruction_round_trip :
    (r : EngineRequest)
    → Request.IsValid r
    → (encode_evaluate_instruction r >>= decode_evaluate_instruction) ≡ ok r
unfolding decode_evaluate_instruction
evaluate_instruction_round_trip r h =
    let valid = validate_engine_request-ok r h in
    let row = encoding Request.widths (Request.row r) in
    let whole : length (evaluate_discriminator ++ request_bytes r) ≡ 301 = omega (
      arith,
      length-append row r.payload,
      length-encoding Request.widths (Request.row r) refl,
      h.payload_long,
    ) in
    rw (
      encode_evaluate_instruction_lem r valid h.payload_long,
      require_length-eq (evaluate_discriminator ++ request_bytes r) 301 whole,
      decode_request-request_bytes r h,
    )

-- receipt round trip
pub decode_receipt-encode_receipt :
    (r : EngineReceipt) → Receipt.IsValid r → (encode_receipt r >>= decode_receipt) ≡ ok r
unfolding require_version
decode_receipt-encode_receipt r h =
    rw
      (
        encode_receipt_lem {E = CodecError} r,
        decode_receipt-row receipt_magic probe_wire_version _ refl
            (length-encoding Receipt.widths (Receipt.row r) refl),
      )
      (ap (λ vs. ok (Receipt.of_row vs)) (values-encoding Receipt.widths (Receipt.row r) h))

-- binding round trip
pub decode_request_binding-encode_request_binding :
    (b : RequestBinding)
    → Binding.IsValid b
    → (encode_request_binding b >>= decode_request_binding) ≡ ok b
unfolding require_version
decode_request_binding-encode_request_binding b h =
    rw
      (
        encode_request_binding_lem {E = CodecError} b,
        decode_request_binding-row probe_wire_version _
            (length-encoding Binding.widths (Binding.row b) refl),
      )
      (ap (λ vs. ok (Binding.of_row vs)) (values-encoding Binding.widths (Binding.row b) h))
