-- ===== src/Wire/Probe/RoundTrip.antt =====
-- What the encoders write, and that the decoders read it back.
use programmable_solana.Base.{
  ℕ, ◌+◌, ◌≡◌, refl, ap, ◌∙◌, List, [], ◌∷◌, ◌++◌, append-nil, length, ok, length-append, list_eq,
  require, ◌>>=◌, ◌>>◌, ==_of_eq, arith,
}
use programmable_solana.Wire.Cursor.{finish, assert_cursor}
use programmable_solana.Wire.Cursor.Laws.{
  put_bytes-filled, put_bytes-full, put_u8-filled, finish-filled, assert_cursor-eq, read_u8-append,
  read_array-append,
}
use programmable_solana.Wire.Layout.{
  encoding, size, values, put_fields-filled, read_fields-all, read_fields-behind, length-encoding,
  values-encoding,
}
use programmable_solana.Wire.Probe.{
  probe_wire_version, evaluate_discriminator, receipt_magic, PlanBinding, EngineRequest,
  EngineReceipt, invalid_magic, encode_plan_binding, encode_request, encode_evaluate_instruction,
  encode_receipt, decode_request, decode_evaluate_instruction, decode_receipt, require_length,
  require_version,
}
use programmable_solana.Wire.Probe.Request
use programmable_solana.Wire.Probe.Receipt
use programmable_solana.Wire.Probe.Plan

module _ {E : Type 0} where
  pub encode_request_lem :
      (r : EngineRequest)
      → encode_request {E = E} r ≡ ok (probe_wire_version ∷ encoding Request.widths (Request.row r))
  unfolding encode_request
  encode_request_lem r = rw (put_u8-filled [] probe_wire_version 152) (
      put_fields-filled Request.widths (Request.row r) (probe_wire_version ∷ []) 0
        (λ w. finish w 153) refl
      ∙ finish-filled _ 153 (omega (arith, length-encoding Request.widths (Request.row r) refl)))

  pub encode_plan_binding_lem :
      (b : PlanBinding)
      → encode_plan_binding {E = E} b ≡ ok (probe_wire_version ∷ encoding Plan.widths (Plan.row b))
  unfolding encode_plan_binding
  encode_plan_binding_lem b = rw (put_u8-filled [] probe_wire_version 576) (
      put_fields-filled Plan.widths (Plan.row b) (probe_wire_version ∷ []) 0 (λ w. finish w 577)
        refl
      ∙ finish-filled _ 577 (omega (arith, length-encoding Plan.widths (Plan.row b) refl)))

  pub encode_evaluate_instruction_lem :
      (r : EngineRequest)
      → encode_evaluate_instruction {E = E} r
        ≡ ok (
            evaluate_discriminator
            ++ (probe_wire_version ∷ encoding Request.widths (Request.row r)))
  unfolding encode_evaluate_instruction
  encode_evaluate_instruction_lem r =
      let encoded = probe_wire_version ∷ encoding Request.widths (Request.row r) in
      let long : length encoded ≡ 153 =
        omega (arith, length-encoding Request.widths (Request.row r) refl) in
      rw (
        put_bytes-filled [] evaluate_discriminator 153,
        encode_request_lem r,
        put_bytes-full evaluate_discriminator encoded 153 long,
        append-nil,
      )

  pub encode_receipt_lem :
      (r : EngineReceipt)
      → encode_receipt {E = E} r
        ≡ ok (receipt_magic ++ (probe_wire_version ∷ encoding Receipt.widths (Receipt.row r)))
  unfolding encode_receipt
  encode_receipt_lem r =
      rw (put_bytes-filled [] receipt_magic 41, put_u8-filled receipt_magic probe_wire_version 40)
        (put_fields-filled Receipt.widths (Receipt.row r)
            (receipt_magic ++ (probe_wire_version ∷ [])) 0 (λ w. finish w 49) refl
          ∙ finish-filled _ 49 (omega (arith, length-encoding Receipt.widths (Receipt.row r) refl)))

pub require_length-eq : (bytes : List ℕ) (n : ℕ) → length bytes ≡ n → require_length bytes n ≡ ok tt
unfolding require_length
require_length-eq bytes n e = rw (==_of_eq _ _ e)

-- A request decoder's view of any input: after the version byte, the fields in their order.
pub decode_request-row :
    (version : ℕ) (row : List ℕ)
    → length row ≡ size Request.widths
    → decode_request (version ∷ row)
      ≡ (require_version version >> ok (Request.of_row (values Request.widths row)))
unfolding decode_request assert_cursor
decode_request-row version row e =
    rw (require_length-eq (version ∷ row) 153 (omega arith), read_u8-append [] version row)
      (ap (λ m. require_version version >> m)
        (read_fields-all Request.widths (version ∷ []) row
          (λ vs c. assert_cursor c 153 >> ok (Request.of_row vs)) e))

pub decode_receipt-row :
    (magic : List ℕ) (version : ℕ) (row : List ℕ)
    → length magic ≡ 8
    → length row ≡ size Receipt.widths
    → decode_receipt (magic ++ (version ∷ row)) ≡ (
        require (list_eq magic receipt_magic) invalid_magic
        >> (require_version version >> ok (Receipt.of_row (values Receipt.widths row))))
unfolding decode_receipt
decode_receipt-row magic version row m e =
    let long : length (magic ++ (version ∷ row)) ≡ 49 =
      omega (arith, length-append magic (version ∷ row)) in
    rw
      (
        require_length-eq (magic ++ (version ∷ row)) 49 long,
        read_array-append 8 [] magic (version ∷ row) m,
        read_u8-append magic version row,
      )
      (ap
        (λ m. require (list_eq magic receipt_magic) invalid_magic >> (require_version version >> m))
        (read_fields-behind Receipt.widths magic version row
            (λ vs c. assert_cursor c 49 >> ok (Receipt.of_row vs)) e
          ∙ rw (assert_cursor-eq (length magic + 1 + 40) 49 (omega arith))))

-- Each encoded request whose fields fit their types decodes to itself.
pub decode_request-encode_request :
    (r : EngineRequest) → Request.IsValid r → (encode_request r >>= decode_request) ≡ ok r
unfolding require_version
decode_request-encode_request r h =
    rw
      (
        encode_request_lem r,
        decode_request-row probe_wire_version _
            (length-encoding Request.widths (Request.row r) refl),
      )
      (ap (λ vs. ok (Request.of_row vs)) (values-encoding Request.widths (Request.row r) h))

-- Each encoded evaluate instruction whose request's fields fit their types decodes to that
-- request.
pub decode_evaluate_instruction-encode_evaluate_instruction :
    (r : EngineRequest)
    → Request.IsValid r
    → (encode_evaluate_instruction r >>= decode_evaluate_instruction) ≡ ok r
unfolding require_version decode_evaluate_instruction
decode_evaluate_instruction-encode_evaluate_instruction r h =
    let row = encoding Request.widths (Request.row r) in
    let long : length row ≡ 152 = length-encoding Request.widths (Request.row r) refl in
    rw
      (
        encode_evaluate_instruction_lem r,
        require_length-eq (evaluate_discriminator ++ (probe_wire_version ∷ row)) 161 (omega arith),
        decode_request-row probe_wire_version row long,
      )
      (ap (λ vs. ok (Request.of_row vs)) (values-encoding Request.widths (Request.row r) h))

-- Each encoded receipt whose fields fit their types decodes to itself.
pub decode_receipt-encode_receipt :
    (r : EngineReceipt) → Receipt.IsValid r → (encode_receipt r >>= decode_receipt) ≡ ok r
unfolding require_version
decode_receipt-encode_receipt r h =
    rw
      (
        encode_receipt_lem r,
        decode_receipt-row receipt_magic probe_wire_version _ refl
            (length-encoding Receipt.widths (Receipt.row r) refl),
      )
      (ap (λ vs. ok (Receipt.of_row vs)) (values-encoding Receipt.widths (Receipt.row r) h))
