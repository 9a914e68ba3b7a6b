-- ===== src/Exchange/Trade.antt =====
-- The request that the core's `EngineRequest::new` builds and sends, and that the engine decodes its
-- trade from the bytes unchanged.
use programmable_solana.Base.{
  ℕ, ◌≡◌, refl, sym, ap, ◌∙◌, List, ◌++◌, length, drop, All, All-append, ok, ok-injective, IsU64,
  arith, >>-eq-ok, >>=-eq-ok,
}
use mathlib.Core.Path.{subst}
use programmable_solana.Wire.Bytes.{IsByte, le_bytes, length-le_bytes}
use programmable_solana.Wire.Layout.{encoding-IsByte, encoding, length-encoding}
use programmable_solana.Wire.Digest.{append_front, append_back, le_bytes_front, cons_tail}
use programmable_solana.Wire.Opaque.{canonical_payload, validate_opaque_account_count}
use programmable_solana.Wire.Opaque.Limits.{canonical_payload_filled}
use programmable_solana.Wire.Generated.{
  EngineRequest, new_engine_request, encode_request, encode_evaluate_instruction,
}
use programmable_solana.Wire.Generated.Rows.Request
use programmable_solana.Wire.Generated.RoundTrip.{request_bytes, encode_evaluate_instruction_lem}

-- What `EngineRequest::new` keeps of its arguments.
pub record IsBuilt (amount_in input_before output_before : ℕ) (r : EngineRequest) : Type 0 where
  pub amount_kept : r.amount_in ≡ amount_in
  pub input_kept : r.accounted_input_before ≡ input_before
  pub output_kept : r.accounted_output_before ≡ output_before
  pub payload_long : length r.payload ≡ 128
  pub payload_bytes : All IsByte r.payload

pub new_engine_request→IsBuilt :
    (request_hash market domain revision amount_in input_before output_before count
      capability_hash : ℕ)
    (payload : List ℕ) (r : EngineRequest)
    → All IsByte payload
    → new_engine_request request_hash market domain revision amount_in input_before output_before
        count capability_hash payload
      ≡ ok r
    → IsBuilt amount_in input_before output_before r
unfolding new_engine_request
new_engine_request→IsBuilt request_hash market domain revision amount_in input_before output_before
      count capability_hash payload r bytes h =
    let (counted, h) = >>-eq-ok (validate_opaque_account_count count) _ h in
    let ((len, padded), canonical, h) = >>=-eq-ok (canonical_payload payload) _ h in
    let (long, filled) = canonical_payload_filled payload len padded bytes canonical in
    subst (λ (r : EngineRequest). IsBuilt amount_in input_before output_before r) (ok-injective h)
      (record {
        amount_kept = refl;
        input_kept = refl;
        output_kept = refl;
        payload_long = long;
        payload_bytes = filled;
      })

-- The bytes behind the discriminator of an encoded evaluate instruction.
pub instruction_request :
    (r : EngineRequest) (payload : List ℕ)
    → length r.payload ≡ 128
    → encode_evaluate_instruction r ≡ ok payload
    → request_bytes r ≡ drop 8 payload
unfolding encode_evaluate_instruction encode_request
instruction_request r payload long h =
    let (bytes, encoded, later) = >>=-eq-ok _ _ h in
    let (valid, rest) = >>-eq-ok _ _ encoded in
    ap (drop 8) (ok-injective (sym (encode_evaluate_instruction_lem r valid long) ∙ h))

-- The amount and the reserves of a request, which its bytes determine.
pub record IsSameTrade (sent received : EngineRequest) : Type 0 where
  pub amount : sent.amount_in ≡ received.amount_in
  pub input : sent.accounted_input_before ≡ received.accounted_input_before
  pub output : sent.accounted_output_before ≡ received.accounted_output_before

skip_field : (w a b : ℕ) {xs ys : List ℕ} → le_bytes w a ++ xs ≡ le_bytes w b ++ ys → xs ≡ ys
skip_field w a b h =
    append_back (le_bytes w a) (le_bytes w b) _ _ (length-le_bytes w a ∙ sym (length-le_bytes w b))
      h

pub same_trade :
    (sent received : EngineRequest)
    → IsU64 sent.amount_in
    → IsU64 sent.accounted_input_before
    → IsU64 sent.accounted_output_before
    → Request.IsValid received
    → request_bytes sent ≡ request_bytes received
    → IsSameTrade sent received
same_trade sent received a i o valid h =
    let long = length-encoding Request.widths (Request.row sent) refl in
    let fits = valid.fits.1.1.1.1 in
    let rows =
      append_front (encoding Request.widths (Request.row sent))
        (encoding Request.widths (Request.row received)) _ _
        (long ∙ sym (length-encoding Request.widths (Request.row received) refl)) (cons_tail h) in
    let rest = skip_field 8 _ _ (skip_field 32 _ _ (skip_field 32 _ _ (skip_field 32 _ _ rows))) in
    let (amount, rest) =
      le_bytes_front 8 sent.amount_in received.amount_in (omega arith) (omega (arith, fits.0))
        rest in
    let (input, rest) =
      le_bytes_front 8 sent.accounted_input_before received.accounted_input_before (omega arith)
        (omega (arith, fits.1.0)) rest in
    let (output, rest) =
      le_bytes_front 8 sent.accounted_output_before received.accounted_output_before (omega arith)
        (omega (arith, fits.1.1.0)) rest in
    record { amount = amount; input = input; output = output }

pub instruction_bytes : (r : EngineRequest) → All IsByte r.payload → All IsByte (request_bytes r)
instruction_bytes r h = (
  omega arith,
  All-append IsByte (encoding Request.widths (Request.row r)) r.payload
      (encoding-IsByte Request.widths (Request.row r)) h,
)
