-- ===== src/Wire/Generated/Canonical.antt =====
-- What the decoders of the generated-settlement codec accept: each accepted slice is the one
-- encoding of its value, whose limits hold.
use programmable_solana.Base.{
  ℕ, ◌≡◌, sym, ap, ◌∙◌, List, [], ◌∷◌, ◌++◌, length, take, drop, All, All-take, All-drop,
  length-take, length-drop, list_eq, list_eq→eq, ok, require, require-eq-ok, ok-injective,
  drop-eq-cons, take-append-drop, >>-eq-ok, arith,
}
use mathlib.Core.Path.{subst, ap₂}
use programmable_solana.Wire.Bytes.{IsByte}
use programmable_solana.Wire.Layout.{values, encoding-values, values-FitAll}
use programmable_solana.Wire.Opaque.{
  CodecError, probe_wire_version, invalid_magic, invalid_discriminator, require_length,
  require_version,
}
use programmable_solana.Wire.Opaque.Limits.{validate_opaque-eq-ok}
use programmable_solana.Wire.Generated.{
  evaluate_discriminator, receipt_magic, EngineRequest, EngineReceipt, validate_engine_request,
  encode_evaluate_instruction, encode_receipt, decode_request, decode_evaluate_instruction,
  decode_receipt,
}
use programmable_solana.Wire.Generated.Rows.Request
use programmable_solana.Wire.Generated.Rows.Receipt
use programmable_solana.Wire.Generated.RoundTrip.{
  request_bytes, encode_evaluate_instruction_lem, encode_receipt_lem, decode_request-row,
  decode_receipt-row,
}

require_length-eq-ok : (bytes : List ℕ) (n : ℕ) → require_length bytes n ≡ ok tt → length bytes ≡ n
unfolding require_length
require_length-eq-ok bytes n h = ground arith

require_version-eq-ok :
    (version : ℕ) → require_version version ≡ ok tt → probe_wire_version ≡ version
unfolding require_version
require_version-eq-ok version h = ground arith

request_length :
    (bytes : List ℕ) {r : EngineRequest} → decode_request bytes ≡ ok r → length bytes ≡ 293
unfolding decode_request
request_length bytes d = require_length-eq-ok bytes 293 (>>-eq-ok (require_length bytes 293) _ d).0

pub receipt_length :
    (bytes : List ℕ) {r : EngineReceipt} → decode_receipt bytes ≡ ok r → length bytes ≡ 57
unfolding decode_receipt
receipt_length bytes d = require_length-eq-ok bytes 57 (>>-eq-ok (require_length bytes 57) _ d).0

-- The limits that the decoder tests.
request_limits :
    (row payload : List ℕ)
    → All IsByte row
    → All IsByte payload
    → length row ≡ 164
    → length payload ≡ 128
    → validate_engine_request (Request.of_row (values Request.widths row) payload) ≡ ok tt
    → Request.IsValid (Request.of_row (values Request.widths row) payload)
unfolding validate_engine_request
request_limits row payload hr hp e long valid =
    let r = Request.of_row (values Request.widths row) payload in
    let (few, short, padded) =
      validate_opaque-eq-ok r.opaque_account_count r.payload_len r.payload valid in
    record {
      fits = values-FitAll Request.widths row hr e;
      payload_long = long;
      payload_bytes = hp;
      accounts_few = few;
      payload_short = short;
      padded = padded;
    }

-- The decoder on a slice that is cut behind its version byte and before its payload.
request_canonical :
    (version : ℕ) (row payload : List ℕ) (r : EngineRequest)
    → All IsByte row
    → All IsByte payload
    → length row ≡ 164
    → length payload ≡ 128
    → decode_request (version ∷ (row ++ payload)) ≡ ok r
    → Request.IsValid r
      × (validate_engine_request r ≡ ok tt)
      × (request_bytes r ≡ version ∷ (row ++ payload))
request_canonical version row payload r hr hp e long d =
    let (tested, later) =
      >>-eq-ok (require_version version) _
        (sym (decode_request-row version row payload e long) ∙ d) in
    let request = Request.of_row (values Request.widths row) payload in
    let (valid, same) = >>-eq-ok (validate_engine_request request) _ later in
    subst
      (λ r.
        Request.IsValid r
        × (validate_engine_request r ≡ ok tt)
        × (request_bytes r ≡ version ∷ (row ++ payload)))
      (ok-injective same)
      (
        request_limits row payload hr hp e long valid,
        valid,
        ap₂ (λ v bs. v ∷ (bs ++ payload)) (require_version-eq-ok version tested)
            (encoding-values Request.widths row hr e),
      )

pub decode_request-canonical :
    (bytes : List ℕ) (r : EngineRequest)
    → All IsByte bytes
    → decode_request bytes ≡ ok r
    → Request.IsValid r × (validate_engine_request r ≡ ok tt) × (request_bytes r ≡ bytes)
decode_request-canonical [] r h d = absurd (omega (arith, request_length [] d))
decode_request-canonical (version ∷ rest) r h d =
    let long = request_length (version ∷ rest) d in
    let cut = take-append-drop 164 rest in
    subst
      (λ b.
        Request.IsValid r × (validate_engine_request r ≡ ok tt) × (request_bytes r ≡ version ∷ b))
      cut
      (request_canonical version (take 164 rest) (drop 164 rest) r (All-take IsByte 164 rest h.1)
        (All-drop IsByte 164 rest h.1) (length-take 164 rest (omega arith))
        (omega (arith, length-drop 164 rest)) (ap (λ b. decode_request (version ∷ b)) cut ∙ d))

-- Bytes that decode as a generated-settlement evaluate instruction are the one encoding of its
-- request, whose fields fit their types and whose limits and padding are kept.
pub evaluate_instruction_canonical :
    (bytes : List ℕ) (r : EngineRequest)
    → All IsByte bytes
    → decode_evaluate_instruction bytes ≡ ok r
    → Request.IsValid r × (encode_evaluate_instruction r ≡ ok bytes)
unfolding decode_evaluate_instruction
evaluate_instruction_canonical bytes r h d =
    let (sized, later) = >>-eq-ok (require_length bytes 301) _ d in
    let (same, decoded) =
      >>-eq-ok (require (list_eq (take 8 bytes) evaluate_discriminator) invalid_discriminator) _
        later in
    let front : take 8 bytes ≡ evaluate_discriminator = list_eq→eq _ _ (require-eq-ok _ _ same) in
    let (valid, limits, body) =
      decode_request-canonical (drop 8 bytes) r (All-drop IsByte 8 bytes h) decoded in
    (
      valid,
      encode_evaluate_instruction_lem r limits valid.payload_long
          ∙ ap ok (ap₂ (λ a b. a ++ b) (sym front) body ∙ take-append-drop 8 bytes),
    )

receipt_canonical :
    (magic : List ℕ) (version : ℕ) (row : List ℕ) (r : EngineReceipt)
    → length magic ≡ 8
    → length row ≡ 48
    → All IsByte row
    → decode_receipt (magic ++ (version ∷ row)) ≡ ok r
    → Receipt.IsValid r × (encode_receipt {E = CodecError} r ≡ ok (magic ++ (version ∷ row)))
receipt_canonical magic version row r m e h d =
    let (same, later) =
      >>-eq-ok (require (list_eq magic receipt_magic) invalid_magic) _
        (sym (decode_receipt-row magic version row m e) ∙ d) in
    let (tested, rest) = >>-eq-ok (require_version version) _ later in
    let front : receipt_magic ≡ magic = sym (list_eq→eq _ _ (require-eq-ok _ _ same)) in
    let tail =
      ap₂ (λ v bs. v ∷ bs) (require_version-eq-ok version tested)
        (encoding-values Receipt.widths row h e) in
    subst
      (λ r. Receipt.IsValid r × (encode_receipt {E = CodecError} r ≡ ok (magic ++ (version ∷ row))))
      (ok-injective rest)
      (
        values-FitAll Receipt.widths row h e,
        encode_receipt_lem (Receipt.of_row (values Receipt.widths row))
            ∙ ap ok (ap₂ (λ a b. a ++ b) front tail),
      )

-- receipt canonical
pub decode_receipt-canonical :
    (bytes : List ℕ) (r : EngineReceipt)
    → All IsByte bytes
    → decode_receipt bytes ≡ ok r
    → Receipt.IsValid r × (encode_receipt {E = CodecError} r ≡ ok bytes)
decode_receipt-canonical bytes r h d =
    let long = receipt_length bytes d in
    let (version, at) = drop-eq-cons 8 bytes (omega arith) in
    let cut : take 8 bytes ++ (version ∷ drop 9 bytes) ≡ bytes =
      ap (λ t. take 8 bytes ++ t) (sym at) ∙ take-append-drop 8 bytes in
    subst (λ b. Receipt.IsValid r × (encode_receipt {E = CodecError} r ≡ ok b)) cut
      (receipt_canonical (take 8 bytes) version (drop 9 bytes) r (length-take 8 bytes (omega arith))
        (omega (arith, length-drop 9 bytes)) (All-drop IsByte 9 bytes h)
        (ap decode_receipt cut ∙ d))
