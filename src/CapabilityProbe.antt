-- ===== src/CapabilityProbe.antt =====
-- experiments/engine-generated-settlement/test-programs/opaque-capability-probe/src/lib.rs: the
-- helper program that an engine calls through an opaque capability.
mod Examples
use programmable_solana.Base.{
  ℕ, ◌+◌, ◌^◌, ◌<◌, ◌≡◌, ap, sym, ◌∙◌, refl, Bool, true, false, List, [], ◌∷◌, ◌++◌, Result, ok,
  err, ok_or, require, ◌==◌, ◌!=◌, checked_add_u64, checked_add_u64-eq-some, ok_or-eq-ok,
  require-eq-ok, ok-injective, ==_eq, IsU64, arith,
}
use mathlib.Core.Path.{subst, ap₂}
use programmable_solana.Base.Steps.{◌>>=◌, ◌>>◌, >>-eq-ok, >>=-eq-ok}
use programmable_solana.Wire.Bytes.{le_bytes}
use programmable_solana.Core.Runtime.{AccountInfo}

abbrev pub probe_return_magic : List ℕ
probe_return_magic = b'O' ∷ b'P' ∷ b'A' ∷ b'Q' ∷ b'P' ∷ b'R' ∷ b'B' ∷ b'0' ∷ []

pub record HelperState : Type 0 where
  pub authority : ℕ
  pub calls : ℕ
  pub value : ℕ

pub data ProbeError : Type 0 where
  unexpected_account : ProbeError
  invalid_authority : ProbeError
  arithmetic_overflow : ProbeError

-- The probe's errors, and Anchor's by their codes.
pub data ProbeFailure : Type 0 where
  probe : ProbeError → ProbeFailure
  outside : ℕ → ProbeFailure

abbrev is_empty {ℓ} : {A : Type ℓ} → List A → Bool
is_empty [] = true
is_empty (x ∷ xs) = false

-- The three slice copies fill the array.
unfoldable pub encode_probe_return_data : ℕ → ℕ → List ℕ
encode_probe_return_data calls value = probe_return_magic ++ (le_bytes 8 calls ++ le_bytes 8 value)

unfoldable pub initialize : List AccountInfo → ℕ → Result ProbeFailure HelperState
initialize remaining_accounts authority = do
  require (is_empty remaining_accounts) (probe unexpected_account)
  require (authority != 0) (probe invalid_authority)
  ok (record { authority = authority; calls = 0; value = 0 })

-- The schema's `has_one = authority` and `Signer` come first. The new state and the return data.
unfoldable pub increment :
    List AccountInfo → AccountInfo → ℕ → HelperState → Result ProbeFailure (HelperState × List ℕ)
increment remaining_accounts authority amount state = do
  require (state.authority == authority.key) (probe invalid_authority)
  require authority.is_signer (outside 3010)
  require (is_empty remaining_accounts) (probe unexpected_account)
  next_calls ← ok_or (checked_add_u64 state.calls 1) (probe arithmetic_overflow)
  next_value ← ok_or (checked_add_u64 state.value amount) (probe arithmetic_overflow)
  ok (
    record state { calls = next_calls; value = next_value },
    encode_probe_return_data next_calls next_value,
  )

-- An increment by the signing authority counts the call and adds the amount, both within 64 bits,
-- and returns the two counters.
pub record IsIncremented (authority : AccountInfo) (amount : ℕ) (before after : HelperState)
    (return_data : List ℕ) : Type 0 where
  pub signed : authority.is_signer ≡ true
  pub authorized : before.authority ≡ authority.key
  pub calls_fit : IsU64 (before.calls + 1)
  pub value_fits : IsU64 (before.value + amount)
  pub stepped : after ≡ record before { calls = before.calls + 1; value = before.value + amount }
  pub returned : return_data ≡ encode_probe_return_data after.calls after.value

increment→IsIncremented :
    (remaining_accounts : List AccountInfo) (authority : AccountInfo) (amount : ℕ)
    (before after : HelperState) (return_data : List ℕ)
    → increment remaining_accounts authority amount before ≡ ok (after, return_data)
    → IsIncremented authority amount before after return_data
unfolding increment
increment→IsIncremented remaining_accounts authority amount before after return_data h =
    let (authorized, h) = >>-eq-ok _ _ h in
    let (signed, h) = >>-eq-ok _ _ h in
    let (none_left, h) = >>-eq-ok _ _ h in
    let (calls, c, h) = >>=-eq-ok _ _ h in
    let (value, v, h) = >>=-eq-ok _ _ h in
    let (calls_eq, calls_fit) = checked_add_u64-eq-some _ _ (ok_or-eq-ok _ _ c) in
    let (value_eq, value_fits) = checked_add_u64-eq-some _ _ (ok_or-eq-ok _ _ v) in
    let result = ok-injective h in
    record {
      signed = require-eq-ok _ _ signed;
      authorized = ==_eq _ _ (require-eq-ok _ _ authorized);
      calls_fit = calls_fit;
      value_fits = value_fits;
      stepped =
          sym (ap (λ p. p.0) result)
          ∙ ap₂ (λ m n. record before { calls = m; value = n }) calls_eq value_eq;
      returned =
          sym (ap (λ p. p.1) result)
          ∙ ap (λ (s : HelperState). encode_probe_return_data s.calls s.value)
              (ap (λ p. p.0) result);
    }
