-- ===== src/Wire/Opaque.antt =====
-- The part that the wire crates of both experiments share: capability descriptors, the opaque
-- payload and its padding, and the limits of both:
-- experiments/engine-generated-settlement/crates/generated-settlement-probe-wire/src/lib.rs, of
-- which experiments/routed-callback-auth/crates/routed-callback-probe-wire/src/lib.rs repeats it.
pub mod Entries
pub mod Limits
use programmable_solana.Base.{
  ℕ, ◌+◌, ◌-◌, Bool, true, false, not, List, [], ◌∷◌, ◌++◌, length, drop, replicate, Result, ok,
  err, require, leb, ◌==◌, if◌then◌else◌,
}
use programmable_solana.Base.Steps.{◌>>=◌, ◌>>◌}
use programmable_solana.Wire.Bytes.{le_bytes}

abbrev pub probe_wire_version : ℕ
probe_wire_version = 0

abbrev pub max_opaque_accounts : ℕ
max_opaque_accounts = 8

abbrev pub max_opaque_payload_len : ℕ
max_opaque_payload_len = 128

abbrev pub capability_flags_writable : ℕ
capability_flags_writable = 1

abbrev pub capability_flags_signer : ℕ
capability_flags_signer = 2

pub record CapabilityDescriptor : Type 0 where
  pub key : ℕ
  pub owner : ℕ
  pub is_writable : Bool
  pub is_signer : Bool
  pub is_executable : Bool

pub data CodecError : Type 0 where
  invalid_length : ℕ → ℕ → CodecError
  invalid_discriminator : CodecError
  invalid_magic : CodecError
  unsupported_version : ℕ → ℕ → CodecError
  too_many_capability_descriptors : ℕ → ℕ → CodecError
  invalid_opaque_account_count : ℕ → ℕ → CodecError
  payload_too_long : ℕ → ℕ → CodecError
  invalid_payload_length : ℕ → ℕ → CodecError
  non_canonical_payload_padding : CodecError

-- `u8::from(flag)`
unfoldable pub flag : Bool → ℕ
flag true = 1
flag false = 0

-- The two flags are different bits, so their disjunction is their sum.
unfoldable pub privilege_flags : CapabilityDescriptor → ℕ
privilege_flags d =
    (if d.is_writable then capability_flags_writable else 0)
    + (if d.is_signer then capability_flags_signer else 0)

-- One turn of the loop over the descriptors, and the loop.
unfoldable pub capability_entry : ℕ → CapabilityDescriptor → List ℕ
capability_entry index d =
    le_bytes 2 index
    ++ (le_bytes 32 d.key
        ++ (le_bytes 32 d.owner ++ (flag d.is_executable ∷ privilege_flags d ∷ [])))

unfoldable pub capability_entries : ℕ → List CapabilityDescriptor → List ℕ
capability_entries index [] = []
capability_entries index (d ∷ ds) = capability_entry index d ++ capability_entries (index + 1) ds

unfoldable pub encode_capabilities : ℕ → List CapabilityDescriptor → List ℕ
encode_capabilities engine_program descriptors =
    probe_wire_version
    ∷ (le_bytes 32 engine_program
        ++ (le_bytes 2 (length descriptors) ++ capability_entries 0 descriptors))

-- `hashv` is `solana_sha256_hasher::hashv`; the two crates differ in the domain and the maximum.
unfoldable pub compute_capability_hash :
    List ℕ → ℕ → (List (List ℕ) → ℕ) → ℕ → List CapabilityDescriptor → Result CodecError ℕ
compute_capability_hash domain maximum hashv engine_program descriptors = do
  require (leb (length descriptors) maximum)
      (too_many_capability_descriptors maximum (length descriptors))
  ok (hashv (domain ∷ encode_capabilities engine_program descriptors ∷ []))

unfoldable pub encode_payload : List ℕ → List ℕ
encode_payload payload = probe_wire_version ∷ (le_bytes 2 (length payload) ++ payload)

unfoldable pub compute_payload_hash : List ℕ → (List (List ℕ) → ℕ) → List ℕ → Result CodecError ℕ
compute_payload_hash domain hashv payload = do
  require (leb (length payload) max_opaque_payload_len)
      (payload_too_long max_opaque_payload_len (length payload))
  ok (hashv (domain ∷ encode_payload payload ∷ []))

-- The payload's length and the payload copied over 128 zeros.
unfoldable pub canonical_payload : List ℕ → Result CodecError (ℕ × List ℕ)
canonical_payload payload = do
  require (leb (length payload) max_opaque_payload_len)
      (payload_too_long max_opaque_payload_len (length payload))
  ok (length payload, payload ++ drop (length payload) (replicate max_opaque_payload_len 0))

unfoldable pub validate_opaque_account_count : ℕ → Result CodecError (Unit {0})
validate_opaque_account_count actual =
    require (leb actual max_opaque_accounts)
      (invalid_opaque_account_count max_opaque_accounts actual)

-- `bytes.iter().any(|byte| *byte != 0)`, negated.
unfoldable pub all_zero : List ℕ → Bool
all_zero [] = true
all_zero (b ∷ bs) = let rest = all_zero bs in if b == 0 then rest else false

-- The checks of `validate_engine_request` on the count, the payload's length and its padding.
unfoldable pub validate_opaque : ℕ → ℕ → List ℕ → Result CodecError (Unit {0})
validate_opaque opaque_account_count payload_len payload = do
  validate_opaque_account_count opaque_account_count
  require (leb payload_len max_opaque_payload_len)
      (invalid_payload_length max_opaque_payload_len payload_len)
  require (all_zero (drop payload_len payload)) non_canonical_payload_padding

unfoldable pub require_length : List ℕ → ℕ → Result CodecError (Unit {0})
require_length bytes expected =
    require (length bytes == expected) (invalid_length expected (length bytes))

unfoldable pub require_version : ℕ → Result CodecError (Unit {0})
require_version actual =
    require (actual == probe_wire_version) (unsupported_version probe_wire_version actual)
