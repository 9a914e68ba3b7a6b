-- ===== src/SpikeEngine/Answers.antt =====
-- What Core's receipt decoder makes of the answers of test-programs/spike-engine/src/lib.rs.
use Prim.Native.Nat.{bit_xor}
use programmable_solana.Base.{
  ℕ, zero, suc, ◌+◌, ◌-◌, ◌%◌, ◌<◌, ◌≡◌, ◌≢◌, refl, ap, ◌∙◌, sym, Bool, true, ◌&&◌, Option, some,
  List, [], ◌∷◌, ◌++◌, All, All-append, length, take, get_or, set, length-take, ok, err,
  ok-injective, ◌>>=◌, ltb, ltb→lt, ◌!=◌, arith,
}
use mathlib.Core.Path.{subst}
use native.Mathlib.Decide.{ℕ_discrete}
use programmable_solana.Wire.Bytes.{IsByte, le_bytes}
use programmable_solana.Wire.Layout.{encoding, length-encoding, encoding-IsByte}
use programmable_solana.Wire.Probe.{
  EngineReceipt, invalid_length, decode_receipt, probe_wire_version, receipt_magic, require_length,
}
use programmable_solana.Wire.Probe.Receipt
use programmable_solana.Wire.Probe.RoundTrip.{encode_receipt_lem, decode_receipt-encode_receipt}
use programmable_solana.Wire.Probe.Canonical.{decode_request-canonical, decode_receipt-canonical}
use programmable_solana.Core.Error.{core, invalid_engine_receipt}
use programmable_solana.Core.Execute.{read_receipt}
use programmable_solana.SpikeEngine.{
  Call, EngineState, mode_accept, mode_wrong_plan_hash, mode_malformed_receipt, answer, evaluate,
}
use programmable_solana.SpikeEngine.Evaluates.{IsEvaluated, evaluate→IsEvaluated}

-- The bytes of a receipt.
abbrev receipt_bytes : EngineReceipt → List ℕ
receipt_bytes r = receipt_magic ++ (probe_wire_version ∷ encoding Receipt.widths (Receipt.row r))

length-receipt_bytes : (r : EngineReceipt) → length (receipt_bytes r) ≡ 49
length-receipt_bytes r = omega (arith, length-encoding Receipt.widths (Receipt.row r) refl)

decode_receipt-receipt_bytes :
    (r : EngineReceipt) → Receipt.IsValid r → decode_receipt (receipt_bytes r) ≡ ok r
decode_receipt-receipt_bytes r v =
    ap (λ m. m >>= decode_receipt) (sym (encode_receipt_lem r)) ∙ decode_receipt-encode_receipt r v

short_receipt-fails :
    (bytes : List ℕ) → length bytes ≡ 48 → decode_receipt bytes ≡ err (invalid_length 49 48)
unfolding decode_receipt require_length
short_receipt-fails bytes e = rw e

-- One bit of the first byte of the plan hash is changed.
abbrev flipped : List ℕ → List ℕ
flipped bytes = set bytes 9 (bit_xor (get_or bytes 9 0) 1)

abbrev flip_changes : ℕ → Bool
flip_changes b = ltb (bit_xor b 1) 256 && (bit_xor b 1 != b)

abbrev all_below : ℕ → (ℕ → Bool) → Bool
all_below zero test = true
all_below (suc n) test = test n && all_below n test

all_below→holds :
    (n : ℕ) (test : ℕ → Bool) → all_below n test ≡ true → (b : ℕ) → b < n → test b ≡ true
all_below→holds zero test h b lt = absurd (omega arith)
all_below→holds (suc n) test h b lt = elim (ℕ_discrete b n) [
  | yes e ↦ rw e (ground arith)
  | no ne ↦ all_below→holds n test (ground arith) b (omega arith)
]

and_left : (a b : Bool) → (a && b) ≡ true → a ≡ true
and_left a b h = ground arith

and_right : (a b : Bool) → (a && b) ≡ true → b ≡ true
and_right a b h = ground arith

ne_of : (a b : ℕ) → (a != b) ≡ true → a ≢ b
ne_of a b h e = ground arith

flip_changes_byte : (b : ℕ) → b < 256 → (bit_xor b 1 < 256) × (bit_xor b 1 ≢ b)
flip_changes_byte b lt =
    let h : flip_changes b ≡ true = all_below→holds 256 flip_changes refl b lt in
    (ltb→lt _ _ (and_left _ _ h), λ e. absurd (ne_of _ _ (and_right _ _ h) e))

-- The byte at position 9 of a receipt is the low byte of the plan hash.
receipt_byte_9 : (r : EngineReceipt) → get_or (receipt_bytes r) 9 0 ≡ r.plan_hash % 256
unfolding le_bytes
receipt_byte_9 r = refl

receipt_bytes-IsByte : (r : EngineReceipt) → All IsByte (receipt_bytes r)
receipt_bytes-IsByte r =
    let byte : (b : ℕ) → ltb b 256 ≡ true → b < 256 = λ b h. ltb→lt b 256 h in
    All-append IsByte receipt_magic (probe_wire_version ∷ encoding Receipt.widths (Receipt.row r))
      (
        byte 80 refl,
        (
          byte 77 refl,
          (
            byte 66 refl,
            (byte 82 refl, (byte 67 refl, (byte 80 refl, (byte 48 refl, (byte 48 refl, tt))))),
          ),
        ),
      )
      (byte 0 refl, encoding-IsByte Receipt.widths (Receipt.row r))

All-set : (xs : List ℕ) (i v : ℕ) → All IsByte xs → v < 256 → All IsByte (set xs i v)
All-set [] i v h b = tt
All-set (x ∷ xs) zero v h b = (b, h.1)
All-set (x ∷ xs) (suc i) v h b = (h.0, All-set xs i v h.1 b)

flipped-IsByte : (r : EngineReceipt) → All IsByte (flipped (receipt_bytes r))
flipped-IsByte r =
    let low : get_or (receipt_bytes r) 9 0 < 256 = omega (arith, receipt_byte_9 r) in
    All-set (receipt_bytes r) 9 _ (receipt_bytes-IsByte r) (flip_changes_byte _ low).0

flipped_byte_9 :
    (r : EngineReceipt) → get_or (flipped (receipt_bytes r)) 9 0 ≡ bit_xor (r.plan_hash % 256) 1
unfolding le_bytes
flipped_byte_9 r = refl

flipped-not_plan :
    (sent r : EngineReceipt)
    → decode_receipt (flipped (receipt_bytes sent)) ≡ ok r
    → r.plan_hash ≢ sent.plan_hash
flipped-not_plan sent r d same =
    let encoded =
      (decode_receipt-canonical (flipped (receipt_bytes sent)) r (flipped-IsByte sent) d).1 in
    let bytes_eq : receipt_bytes r ≡ flipped (receipt_bytes sent) =
      ok-injective (sym (encode_receipt_lem r) ∙ encoded) in
    let byte_eq : r.plan_hash % 256 ≡ bit_xor (sent.plan_hash % 256) 1 =
      sym (receipt_byte_9 r) ∙ ap (λ bytes. get_or bytes 9 0) bytes_eq ∙ flipped_byte_9 sent in
    (flip_changes_byte (sent.plan_hash % 256) (omega arith)).1
      (sym byte_eq ∙ ap (λ n. n % 256) same)

module _ (call : Call) (wire_request : List ℕ) (before after : EngineState)
    (return_data : Option (List ℕ)) where
  answered_as :
      (mode : ℕ)
      → before.mode ≡ mode
      → (e : IsEvaluated call wire_request before after return_data)
      → answer call mode (
          receipt_bytes
            (record { plan_hash = e.request.plan_hash; state_sequence = before.sequence + 1 }))
        ≡ ok return_data
  answered_as mode m e =
      subst (λ b. answer call mode b ≡ ok return_data)
        (ok-injective (sym e.encoded ∙ encode_receipt_lem _))
        (subst (λ k. answer call k e.receipt ≡ ok return_data) m e.answered)

  -- In its accepting mode, a successful engine call on a request of bytes answers with bytes
  -- that Core reads as the receipt of the engine's new plan hash and sequence number.
  pub evaluate-accept_receipt :
      All IsByte wire_request
      → before.mode ≡ mode_accept
      → (h : evaluate call wire_request before ≡ ok (after, return_data))
      → (bytes : List ℕ) × (return_data ≡ some bytes)
        × (read_receipt bytes
            ≡ ok (record { plan_hash = after.last_plan_hash; state_sequence = after.sequence }))
  unfolding answer read_receipt
  evaluate-accept_receipt b m h =
      let e = evaluate→IsEvaluated call wire_request before after return_data h in
      let r : EngineReceipt = record {
        plan_hash = e.request.plan_hash;
        state_sequence = before.sequence + 1;
      } in
      let valid = (decode_request-canonical wire_request e.request b e.decoded).0 in
      (
        receipt_bytes r,
        sym (ok-injective (answered_as mode_accept m e)),
        rw (
          decode_receipt-receipt_bytes r (valid.0, (omega (arith, e.sequence_fits), tt)),
          ap (λ (s : EngineState). s.last_plan_hash) e.stepped,
          ap (λ (s : EngineState). s.sequence) e.stepped,
        ),
      )

  -- In its malformed mode, a successful engine call answers with bytes that Core refuses as an
  -- invalid receipt.
  pub evaluate-malformed_receipt :
      before.mode ≡ mode_malformed_receipt
      → (h : evaluate call wire_request before ≡ ok (after, return_data))
      → (bytes : List ℕ) × (return_data ≡ some bytes)
        × (read_receipt bytes ≡ err (core invalid_engine_receipt))
  unfolding answer read_receipt
  evaluate-malformed_receipt m h =
      let e = evaluate→IsEvaluated call wire_request before after return_data h in
      let r : EngineReceipt = record {
        plan_hash = e.request.plan_hash;
        state_sequence = before.sequence + 1;
      } in
      let long = length-receipt_bytes r in
      let bytes = take (length (receipt_bytes r) - 1) (receipt_bytes r) in
      (
        bytes,
        sym (ok-injective (answered_as mode_malformed_receipt m e)),
        rw (
            short_receipt-fails bytes
              (omega (arith, long, length-take (length (receipt_bytes r) - 1) (receipt_bytes r)))),
      )

  -- In its wrong-hash mode, a successful engine call answers with bytes that never decode to a
  -- receipt of the engine's new plan hash.
  pub evaluate-wrong_plan_hash :
      before.mode ≡ mode_wrong_plan_hash
      → (h : evaluate call wire_request before ≡ ok (after, return_data))
      → (bytes : List ℕ) × (return_data ≡ some bytes)
        × ((r : EngineReceipt) → decode_receipt bytes ≡ ok r → r.plan_hash ≢ after.last_plan_hash)
  unfolding answer
  evaluate-wrong_plan_hash m h =
      let e = evaluate→IsEvaluated call wire_request before after return_data h in
      let sent : EngineReceipt = record {
        plan_hash = e.request.plan_hash;
        state_sequence = before.sequence + 1;
      } in
      (
        flipped (receipt_bytes sent),
        sym (ok-injective (answered_as mode_wrong_plan_hash m e)),
        λ r d same.
            flipped-not_plan sent r d (same ∙ ap (λ (s : EngineState). s.last_plan_hash) e.stepped),
      )
