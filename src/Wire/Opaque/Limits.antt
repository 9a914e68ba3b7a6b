-- ===== src/Wire/Opaque/Limits.antt =====
-- The limits on opaque accounts and payloads pass exactly what they describe.
use programmable_solana.Base.{
  zero, suc, ◌++◌, length, replicate, ap, ok-injective, All-append, All-drop, length-append,
  length-drop, length-replicate, ℕ, ◌≤◌, ◌≡◌, refl, true, List, [], ◌∷◌, drop, All, ok,
  require-eq-ok, leb→le, le→leb, ==_of_eq, arith,
}
use mathlib.Core.Path.{subst}
use programmable_solana.Wire.Bytes.{IsByte}
use programmable_solana.Base.Steps.{◌>>◌, >>-eq-ok}
use programmable_solana.Wire.Opaque.{
  canonical_payload, all_zero, validate_opaque_account_count, validate_opaque,
}

pub all_zero-true : (bs : List ℕ) → All (λ b. b ≡ 0) bs → all_zero bs ≡ true
unfolding all_zero
all_zero-true [] h = refl
all_zero-true (b ∷ bs) h = rw (==_of_eq b 0 h.0, all_zero-true bs h.1)

true-all_zero : (bs : List ℕ) → all_zero bs ≡ true → All (λ b. b ≡ 0) bs
unfolding all_zero
true-all_zero [] h = tt
true-all_zero (b ∷ bs) h =
    let first : b ≡ 0 = ground arith in
    let rest : all_zero bs ≡ true = ground arith in (first, true-all_zero bs rest)

pub validate_opaque-ok :
    (count n : ℕ) (payload : List ℕ)
    → count ≤ 8
    → n ≤ 128
    → All (λ b. b ≡ 0) (drop n payload)
    → validate_opaque count n payload ≡ ok tt
unfolding validate_opaque validate_opaque_account_count ◌>>◌
validate_opaque-ok count n payload few short padded =
    rw (le→leb _ _ few, le→leb _ _ short, all_zero-true _ padded)

pub validate_opaque-eq-ok :
    (count n : ℕ) (payload : List ℕ)
    → validate_opaque count n payload ≡ ok tt
    → (count ≤ 8) × (n ≤ 128) × All (λ b. b ≡ 0) (drop n payload)
unfolding validate_opaque validate_opaque_account_count
validate_opaque-eq-ok count n payload h =
    let (few, h) = >>-eq-ok _ _ h in
    let (short, padded) = >>-eq-ok _ _ h in
    (
      leb→le _ _ (require-eq-ok _ _ few),
      leb→le _ _ (require-eq-ok _ _ short),
      true-all_zero _ (require-eq-ok _ _ padded),
    )

replicate-IsByte : (n : ℕ) → All IsByte (replicate n 0)
replicate-IsByte zero = tt
replicate-IsByte (suc n) = (omega arith, replicate-IsByte n)

-- A payload that the codec takes becomes 128 bytes.
pub canonical_payload_filled :
    (payload : List ℕ) (len : ℕ) (padded : List ℕ)
    → All IsByte payload
    → canonical_payload payload ≡ ok (len, padded)
    → (length padded ≡ 128) × All IsByte padded
unfolding canonical_payload
canonical_payload_filled payload len padded bytes h =
    let (short, filled) = >>-eq-ok _ _ h in
    let few = leb→le (length payload) 128 (require-eq-ok _ _ short) in
    let blank : List ℕ = replicate 128 0 in
    let zeros = drop (length payload) blank in
    let same : payload ++ zeros ≡ padded = ap (λ (x : ℕ × List ℕ). x.1) (ok-injective filled) in
    (
      omega (
        arith,
        few,
        ap length same,
        length-append payload zeros,
        length-drop (length payload) blank,
        length-replicate {A = ℕ} 128 0,
      ),
      subst (All IsByte) same (
          All-append IsByte payload zeros bytes
            (All-drop IsByte (length payload) blank (replicate-IsByte 128))),
    )
