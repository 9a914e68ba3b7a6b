-- ===== src/Wire/Probe/Canonical.antt =====
-- What the decoders accept and refuse: each accepted slice is the one encoding of its value.
use programmable_solana.Base.{
  ℕ, suc, ◌≡◌, ◌≢◌, refl, sym, ap, ◌∙◌, List, [], ◌∷◌, ◌++◌, length, take, drop, All, All-drop,
  length-take, list_eq, list_eq→eq, Result, ok, err, require, require-eq-ok, ok-injective,
  drop-eq-cons, take-append-drop, length-drop, if◌then◌else◌, ◌==◌, >>-eq-ok, arith,
}
use mathlib.Core.Path.{subst, ap₂}
use native.Mathlib.Decide.{ℕ_discrete}
use programmable_solana.Wire.Bytes.{IsByte}
use programmable_solana.Wire.Cursor.{head_or}
use programmable_solana.Wire.Layout.{encoding, values, encoding-values, values-FitAll}
use programmable_solana.Wire.Probe.{
  probe_wire_version, evaluate_discriminator, receipt_magic, EngineRequest, EngineReceipt,
  CodecError, invalid_length, invalid_discriminator, invalid_magic, unsupported_version,
  encode_request, encode_evaluate_instruction, encode_receipt, decode_request,
  decode_evaluate_instruction, decode_receipt, require_length, require_version,
}
use programmable_solana.Wire.Probe.Request
use programmable_solana.Wire.Probe.Receipt
use programmable_solana.Wire.Probe.RoundTrip.{
  encode_request_lem, encode_evaluate_instruction_lem, encode_receipt_lem, decode_request-row,
  decode_receipt-row,
}

-- A slice of the expected length, and any other, before the first read.
require_length-ne :
    (bytes : List ℕ) (n : ℕ)
    → length bytes ≢ n
    → require_length bytes n ≡ err (invalid_length n (length bytes))
unfolding require_length
require_length-ne bytes n h = ground arith

require_length-eq-ok : (bytes : List ℕ) (n : ℕ) → require_length bytes n ≡ ok tt → length bytes ≡ n
unfolding require_length
require_length-eq-ok bytes n h = ground arith

require_version-eq-ok :
    (version : ℕ) → require_version version ≡ ok tt → probe_wire_version ≡ version
unfolding require_version
require_version-eq-ok version h = ground arith

-- The length test comes first.
request_length :
    (bytes : List ℕ) {r : EngineRequest} → decode_request bytes ≡ ok r → length bytes ≡ 153
unfolding decode_request
request_length bytes d = require_length-eq-ok bytes 153 (>>-eq-ok (require_length bytes 153) _ d).0

receipt_length :
    (bytes : List ℕ) {r : EngineReceipt} → decode_receipt bytes ≡ ok r → length bytes ≡ 49
unfolding decode_receipt
receipt_length bytes d = require_length-eq-ok bytes 49 (>>-eq-ok (require_length bytes 49) _ d).0

-- The decoders on a slice that is cut at its version byte.
request_canonical :
    (version : ℕ) (row : List ℕ) (r : EngineRequest)
    → length row ≡ 152
    → All IsByte row
    → decode_request (version ∷ row) ≡ ok r
    → Request.IsValid r × (encode_request {E = CodecError} r ≡ ok (version ∷ row))
request_canonical version row r e h d =
    let (tested, rest) =
      >>-eq-ok (require_version version) _ (sym (decode_request-row version row e) ∙ d) in
    subst (λ r. Request.IsValid r × (encode_request {E = CodecError} r ≡ ok (version ∷ row)))
      (ok-injective rest)
      (
        values-FitAll Request.widths row h e,
        encode_request_lem (Request.of_row (values Request.widths row))
            ∙ rw (require_version-eq-ok version tested, encoding-values Request.widths row h e),
      )

receipt_canonical :
    (magic : List ℕ) (version : ℕ) (row : List ℕ) (r : EngineReceipt)
    → length magic ≡ 8
    → length row ≡ 40
    → All IsByte row
    → decode_receipt (magic ++ (version ∷ row)) ≡ ok r
    → Receipt.IsValid r × (encode_receipt {E = CodecError} r ≡ ok (magic ++ (version ∷ row)))
receipt_canonical magic version row r m e h d =
    let (same, later) =
      >>-eq-ok (require (list_eq magic receipt_magic) invalid_magic) _
        (sym (decode_receipt-row magic version row m e) ∙ d) in
    let (tested, rest) = >>-eq-ok (require_version version) _ later in
    let is_magic : magic ≡ receipt_magic = list_eq→eq _ _ (require-eq-ok _ _ same) in
    subst
      (λ r. Receipt.IsValid r × (encode_receipt {E = CodecError} r ≡ ok (magic ++ (version ∷ row))))
      (ok-injective rest)
      (
        values-FitAll Receipt.widths row h e,
        encode_receipt_lem (Receipt.of_row (values Receipt.widths row))
            ∙ rw (
              is_magic,
              require_version-eq-ok version tested,
              encoding-values Receipt.widths row h e,
            ),
      )

-- Bytes that decode to a request are the one encoding of that request, whose fields fit their
-- types.
pub decode_request-canonical :
    (bytes : List ℕ) (r : EngineRequest)
    → All IsByte bytes
    → decode_request bytes ≡ ok r
    → Request.IsValid r × (encode_request {E = CodecError} r ≡ ok bytes)
decode_request-canonical [] r h d = absurd (omega (arith, request_length [] d))
decode_request-canonical (version ∷ row) r h d =
    request_canonical version row r (omega (arith, request_length (version ∷ row) d)) h.1 d

-- Bytes that decode to a receipt are the one encoding of that receipt, whose fields fit their
-- types.
pub decode_receipt-canonical :
    (bytes : List ℕ) (r : EngineReceipt)
    → All IsByte bytes
    → decode_receipt bytes ≡ ok r
    → Receipt.IsValid r × (encode_receipt {E = CodecError} r ≡ ok bytes)
decode_receipt-canonical bytes r h d =
    let long = receipt_length bytes d in
    let (version, at) = drop-eq-cons 8 bytes (omega arith) in
    let cut : take 8 bytes ++ (version ∷ drop 9 bytes) ≡ bytes =
      ap (λ t. take 8 bytes ++ t) (sym at) ∙ take-append-drop 8 bytes in
    subst (λ b. Receipt.IsValid r × (encode_receipt {E = CodecError} r ≡ ok b)) cut
      (receipt_canonical (take 8 bytes) version (drop 9 bytes) r (length-take 8 bytes (omega arith))
        (omega (arith, length-drop 9 bytes)) (All-drop IsByte 9 bytes h)
        (ap decode_receipt cut ∙ d))

-- Bytes that decode as an evaluate instruction are the one encoding of its request, whose
-- fields fit their types.
pub decode_evaluate_instruction-canonical :
    (bytes : List ℕ) (r : EngineRequest)
    → All IsByte bytes
    → decode_evaluate_instruction bytes ≡ ok r
    → Request.IsValid r × (encode_evaluate_instruction {E = CodecError} r ≡ ok bytes)
unfolding decode_evaluate_instruction
decode_evaluate_instruction-canonical bytes r h d =
    let (sized, later) = >>-eq-ok (require_length bytes 161) _ d in
    let (same, decoded) =
      >>-eq-ok (require (list_eq (take 8 bytes) evaluate_discriminator) invalid_discriminator) _
        later in
    let front : take 8 bytes ≡ evaluate_discriminator = list_eq→eq _ _ (require-eq-ok _ _ same) in
    let (valid, encoded) =
      decode_request-canonical (drop 8 bytes) r (All-drop IsByte 8 bytes h) decoded in
    let body : (0 ∷ encoding Request.widths (Request.row r)) ≡ drop 8 bytes =
      ok-injective (sym (encode_request_lem r) ∙ encoded) in
    (
      valid,
      encode_evaluate_instruction_lem r
          ∙ ap ok (ap₂ (λ a b. a ++ b) (sym front) body ∙ take-append-drop 8 bytes),
    )

-- The answer to any slice, read off its length and its parts.
pub request_answer : List ℕ → Result CodecError EngineRequest
request_answer [] = err (invalid_length 153 0)
request_answer (version ∷ row) =
    if length row == 152
    then (if version == 0
        then ok (Request.of_row (values Request.widths row))
        else err (unsupported_version 0 version))
    else err (invalid_length 153 (suc (length row)))

pub receipt_answer : List ℕ → Result CodecError EngineReceipt
receipt_answer bytes =
    if length bytes == 49
    then (if list_eq (take 8 bytes) receipt_magic
        then (if head_or 0 (drop 8 bytes) == 0
            then ok (Receipt.of_row (values Receipt.widths (drop 9 bytes)))
            else err (unsupported_version 0 (head_or 0 (drop 8 bytes))))
        else err invalid_magic)
    else err (invalid_length 49 (length bytes))

-- On every slice the request decoder gives the answer read off its length, its version and its
-- rows; so it returns on all input, with the source's error, and never panics.
pub decode_request-request_answer : (bytes : List ℕ) → decode_request bytes ≡ request_answer bytes
unfolding request_answer
decode_request-request_answer [] = unfold decode_request require_length in refl
decode_request-request_answer (version ∷ row) = elim (ℕ_discrete (length row) 152) [
  | yes e ↦ decode_request-row version row e ∙ unfold require_version in ground arith
  | no h ↦
      unfold decode_request in
      rw (require_length-ne (version ∷ row) 153 (omega arith)) (ground arith)
]

-- On every slice the receipt decoder gives the answer read off its length, its magic, its
-- version and its rows; so it returns on all input, with the source's error, and never panics.
pub decode_receipt-receipt_answer : (bytes : List ℕ) → decode_receipt bytes ≡ receipt_answer bytes
decode_receipt-receipt_answer bytes = elim (ℕ_discrete (length bytes) 49) [
  | yes e ↦
      let (version, at) = drop-eq-cons 8 bytes (omega arith) in
      let cut : bytes ≡ take 8 bytes ++ (version ∷ drop 9 bytes) =
        sym (take-append-drop 8 bytes) ∙ ap (λ t. take 8 bytes ++ t) at in
      ap decode_receipt cut
      ∙ decode_receipt-row (take 8 bytes) version (drop 9 bytes) (length-take 8 bytes (omega arith))
          (omega (arith, length-drop 9 bytes))
      ∙ unfold require_version receipt_answer in rw at (ground arith)
  | no h ↦ unfold decode_receipt receipt_answer in rw (require_length-ne bytes 49 h) (ground arith)
]
