-- ===== src/GeneratedEngine/Answers.antt =====
-- The generated-plan engine's answers against what Core reads of them: `decode_receipt` of the wire
-- crate.
use programmable_solana.Base.{
  ℕ, ◌+◌, ◌-◌, ◌*◌, ◌≤◌, ◌≡◌, ◌≢◌, ◌⊎◌, inl, inr, refl, sym, ap, ◌∙◌, some, List, [], ◌∷◌, ◌++◌,
  length, All, length-take, length-append, ok, ok-injective, IsU64, ◌>>=◌, arith, take,
}
use mathlib.Core.Path.{subst}
use programmable_solana.Wire.Bytes.{IsByte}
use programmable_solana.Wire.Layout.{encoding, length-encoding}
use programmable_solana.Wire.Opaque.{CodecError, require_version}
use programmable_solana.Wire.Generated.{
  EngineRequest, EngineReceipt, receipt_magic, decode_request, encode_receipt, decode_receipt,
}
use programmable_solana.Wire.Generated.Rows.Request
use programmable_solana.Wire.Generated.Rows.Receipt
use programmable_solana.Wire.Generated.RoundTrip.{
  decode_receipt-row, decode_receipt-encode_receipt, encode_receipt_lem,
}
use programmable_solana.Wire.Generated.Canonical.{decode_request-canonical, receipt_length}
use programmable_solana.Cpmm.{CpmmQuote}
use programmable_solana.Cpmm.Quoted.{
  IsQuoted, quote_exact_in→IsQuoted, quote_exact_in_keeps_product,
}
use programmable_solana.GeneratedEngine.State.{
  Call, EngineState, EngineFailure, mode_accept, mode_malformed_receipt, mode_trailing_receipt_byte,
  mode_wrong_receipt_magic, mode_wrong_receipt_version,
}
use programmable_solana.GeneratedEngine.{chosen_output, answer, evaluate}
use programmable_solana.GeneratedEngine.Evaluates.{evaluate→IsEvaluated}

-- The answer to `request`: the receipt that Core decodes, whose output is the quote of the request's
-- reserves and whose swap keeps their product.
pub record IsHonestAnswer (request : EngineRequest) (lp_fee_bps : ℕ) (answered : List ℕ)
    (receipt : EngineReceipt) : Type 0 where
  pub decoded : decode_receipt answered ≡ ok receipt
  pub names_request : receipt.request_hash ≡ request.request_hash
  pub quote : CpmmQuote
  pub quoted :
      IsQuoted request.accounted_input_before request.accounted_output_before request.amount_in
        lp_fee_bps quote
  pub output : receipt.amount_out ≡ quote.amount_out
  pub product_kept :
      request.accounted_input_before * request.accounted_output_before
      ≤ (request.accounted_input_before + request.amount_in)
        * (request.accounted_output_before - receipt.amount_out)

-- The receipt of a valid request decodes.
receipt_IsValid :
    (request : EngineRequest) (q : CpmmQuote) (fee sequence : ℕ)
    → Request.IsValid request
    → IsQuoted request.accounted_input_before request.accounted_output_before request.amount_in fee
        q
    → IsU64 sequence
    → Receipt.IsValid (record {
      request_hash = request.request_hash;
      amount_out = q.amount_out;
      state_sequence = sequence;
    })
receipt_IsValid request q fee sequence v k fits =
    (v.fits.0, (omega (arith, k.output_left, v.fits.1.1.1.1.1.1.0), (fits, tt)))

decoded_of_encoded :
    (r : EngineReceipt) (bytes : List ℕ)
    → Receipt.IsValid r
    → encode_receipt {E = EngineFailure} r ≡ ok bytes
    → decode_receipt bytes ≡ ok r
decoded_of_encoded r bytes v e =
    let same = ok-injective (sym (encode_receipt_lem {E = EngineFailure} r) ∙ e) in
    subst (λ b. decode_receipt b ≡ ok r) same
      (ap (λ m. m >>= decode_receipt) (sym (encode_receipt_lem {E = CodecError} r))
        ∙ decode_receipt-encode_receipt r v)

some_injective : {a b : List ℕ} → some a ≡ some b → a ≡ b
some_injective h = cc

accepting :
    (receipt bytes : List ℕ) → answer mode_accept receipt ≡ ok (some bytes) → receipt ≡ bytes
unfolding answer
accepting receipt bytes h = cc

-- In its accepting mode, a successful call of the generated-plan engine on a request of bytes
-- that returns data returns the bytes of a receipt that Core decodes, which names the request
-- and whose output is the constant-product quote of the request's reserves and input at the
-- engine's fee, so that the swap does not lower their product.
pub evaluate-accept_priced :
    (call : Call) (wire_request : List ℕ) (before after : EngineState) (answered : List ℕ)
    → All IsByte wire_request
    → before.mode ≡ mode_accept
    → evaluate call wire_request before ≡ ok (after, some answered)
    → (request : EngineRequest) × (receipt : EngineReceipt) × (decode_request wire_request
        ≡ ok request)
      × IsHonestAnswer request before.lp_fee_bps answered receipt
unfolding chosen_output
evaluate-accept_priced call wire_request before after answered bytes accept h =
    let e = evaluate→IsEvaluated call wire_request before after (some answered) h in
    let request = e.request in
    let quoted =
      quote_exact_in→IsQuoted request.accounted_input_before request.accounted_output_before
        request.amount_in before.lp_fee_bps e.quote e.quoted in
    let product =
      quote_exact_in_keeps_product request.accounted_input_before request.accounted_output_before
        request.amount_in before.lp_fee_bps e.quote e.quoted in
    let receipt : EngineReceipt = record {
      request_hash = request.request_hash;
      amount_out = e.quote.amount_out;
      state_sequence = before.sequence + 1;
    } in
    let encoded : encode_receipt {E = EngineFailure} receipt ≡ ok e.receipt =
      subst
        (λ m.
          encode_receipt {E = EngineFailure} (record {
            request_hash = request.request_hash;
            amount_out = chosen_output m e.quote.amount_out;
            state_sequence = before.sequence + 1;
          })
          ≡ ok e.receipt)
        accept e.encoded in
    let same =
      accepting e.receipt answered
        (subst (λ m. answer m e.receipt ≡ ok (some answered)) accept e.answered) in
    let (valid, limits, whole) = decode_request-canonical wire_request request bytes e.decoded in
    (
      request,
      receipt,
      e.decoded,
      record {
        decoded =
            subst (λ b. decode_receipt b ≡ ok receipt) same
              (decoded_of_encoded receipt e.receipt
                (receipt_IsValid request e.quote before.lp_fee_bps (before.sequence + 1) valid
                  quoted e.sequence_fits)
                encoded);
        names_request = refl;
        quote = e.quote;
        quoted = quoted;
        output = refl;
        product_kept = product;
      },
    )

-- The faulty modes that spoil the receipt's form.
abbrev pub IsGarbling : ℕ → Type 0
IsGarbling mode =
    (mode ≡ mode_malformed_receipt)
    ⊎ ((mode ≡ mode_trailing_receipt_byte)
        ⊎ ((mode ≡ mode_wrong_receipt_magic) ⊎ (mode ≡ mode_wrong_receipt_version)))

module _ (row : List ℕ) (e : length row ≡ 48) where
  -- The bytes of a receipt.
  abbrev whole : List ℕ
  whole = receipt_magic ++ (0 ∷ row)

  malformed_refused :
      (bytes : List ℕ) (r : EngineReceipt)
      → answer mode_malformed_receipt whole ≡ ok (some bytes)
      → decode_receipt bytes ≢ ok r
  unfolding answer
  malformed_refused bytes r h d =
      let same : take (length whole - 1) whole ≡ bytes = some_injective (ok-injective h) in
      let cut = length-take (length whole - 1) whole (omega arith) in
      absurd (omega (arith, receipt_length bytes d, cut, ap length same))

  trailing_refused :
      (bytes : List ℕ) (r : EngineReceipt)
      → answer mode_trailing_receipt_byte whole ≡ ok (some bytes)
      → decode_receipt bytes ≢ ok r
  unfolding answer
  trailing_refused bytes r h d =
      let same : whole ++ (0 ∷ []) ≡ bytes = some_injective (ok-injective h) in
      absurd (omega (arith, receipt_length bytes d, length-append whole (0 ∷ []), ap length same))

  magic_refused :
      (bytes : List ℕ) (r : EngineReceipt)
      → answer mode_wrong_receipt_magic whole ≡ ok (some bytes)
      → decode_receipt bytes ≢ ok r
  unfolding answer
  magic_refused bytes r h d =
      let wrong = b'Q' ∷ b'M' ∷ b'B' ∷ b'G' ∷ b'S' ∷ b'R' ∷ b'0' ∷ b'0' ∷ [] in
      let same : wrong ++ (0 ∷ row) ≡ bytes = some_injective (ok-injective h) in
      absurd (cc (sym (decode_receipt-row wrong 0 row refl e) ∙ ap decode_receipt same ∙ d))

  version_refused :
      (bytes : List ℕ) (r : EngineReceipt)
      → answer mode_wrong_receipt_version whole ≡ ok (some bytes)
      → decode_receipt bytes ≢ ok r
  unfolding answer require_version
  version_refused bytes r h d =
      let same : receipt_magic ++ (1 ∷ row) ≡ bytes = some_injective (ok-injective h) in
      absurd (cc (sym (decode_receipt-row receipt_magic 1 row refl e) ∙ ap decode_receipt same ∙ d))

  garbled_refused :
      (mode : ℕ) (bytes : List ℕ) (r : EngineReceipt)
      → IsGarbling mode
      → answer mode whole ≡ ok (some bytes)
      → decode_receipt bytes ≢ ok r
  garbled_refused mode bytes r (inl m) h =
      malformed_refused bytes r (subst (λ m. answer m whole ≡ ok (some bytes)) m h)
  garbled_refused mode bytes r (inr (inl m)) h =
      trailing_refused bytes r (subst (λ m. answer m whole ≡ ok (some bytes)) m h)
  garbled_refused mode bytes r (inr (inr (inl m))) h =
      magic_refused bytes r (subst (λ m. answer m whole ≡ ok (some bytes)) m h)
  garbled_refused mode bytes r (inr (inr (inr m))) h =
      version_refused bytes r (subst (λ m. answer m whole ≡ ok (some bytes)) m h)

-- In the modes for a malformed receipt, a trailing byte, a wrong magic and a wrong version,
-- what a successful call of the generated-plan engine returns never decodes to a receipt.
pub evaluate-garbled_refused :
    (call : Call) (wire_request : List ℕ) (before after : EngineState) (answered : List ℕ)
    (r : EngineReceipt)
    → IsGarbling before.mode
    → evaluate call wire_request before ≡ ok (after, some answered)
    → decode_receipt answered ≢ ok r
evaluate-garbled_refused call wire_request before after answered r garbling h =
    let e = evaluate→IsEvaluated call wire_request before after (some answered) h in
    let receipt : EngineReceipt = record {
      request_hash = e.request.request_hash;
      amount_out = chosen_output before.mode e.quote.amount_out;
      state_sequence = before.sequence + 1;
    } in
    let same = ok-injective (sym (encode_receipt_lem {E = EngineFailure} receipt) ∙ e.encoded) in
    garbled_refused (encoding Receipt.widths (Receipt.row receipt))
      (length-encoding Receipt.widths (Receipt.row receipt) refl) before.mode answered r garbling
      (subst (λ b. answer before.mode b ≡ ok (some answered)) (sym same) e.answered)
