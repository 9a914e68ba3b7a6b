-- ===== src/GeneratedCore/Opaque.antt =====
-- The opaque capabilities of
-- experiments/engine-generated-settlement/programs/generated-settlement-core/src/validation.rs, which
-- the routed core repeats.
use programmable_solana.Base.{
  ℕ, Bool, true, false, not, ◌&&◌, ◌||◌, Option, none, some, List, [], ◌∷◌, length, Result, ok, leb,
  ◌==◌, ◌!=◌, if◌then◌else◌,
}
use programmable_solana.Wire.Opaque.{
  CapabilityDescriptor, max_opaque_accounts, max_opaque_payload_len,
}
use programmable_solana.Core.Error.{
  Failure, require_experiment, ◌>>=◌, ◌>>◌, too_many_opaque_accounts, opaque_payload_too_large,
  opaque_signer_forbidden, opaque_fixed_role_alias, opaque_core_owned_account,
  opaque_executable_writable, opaque_protected_token_account_writable,
}
use programmable_solana.Core.Runtime.{Runtime, AccountInfo}
use programmable_solana.Core.Validation.{any_equal}

unfoldable pub validate_opaque_payload : List ℕ → Result Failure (Unit {0})
validate_opaque_payload payload =
    require_experiment (leb (length payload) max_opaque_payload_len) opaque_payload_too_large

-- `opaque_accounts.iter().any(|candidate| candidate.key == account.key && privilege)`
unfoldable pub any_privileged : (AccountInfo → Bool) → ℕ → List AccountInfo → Bool
any_privileged privilege key [] = false
any_privileged privilege key (candidate ∷ rest) =
    let later = any_privileged privilege key rest in
    (candidate.key == key && privilege candidate) || later

module _ (rt : Runtime) (fixed_envelope_keys : List ℕ) (opaque_accounts : List AccountInfo) where
  -- One turn of the loop.
  unfoldable pub opaque_descriptor : AccountInfo → Result Failure CapabilityDescriptor
  opaque_descriptor account = do
    let effective_is_signer =
        any_privileged (λ candidate. candidate.is_signer) account.key opaque_accounts
    let effective_is_writable =
        any_privileged (λ candidate. candidate.is_writable) account.key opaque_accounts
    require_experiment (not effective_is_signer) opaque_signer_forbidden
    require_experiment (not (any_equal account.key fixed_envelope_keys)) opaque_fixed_role_alias
    require_experiment (account.owner != rt.program.id) opaque_core_owned_account
    require_experiment (not (account.executable && effective_is_writable))
        opaque_executable_writable
    require_experiment
        (not (
          effective_is_writable
          && (account.owner == rt.token_program_id || account.owner == rt.token_2022_program_id)))
        opaque_protected_token_account_writable
    ok (record {
      key = account.key;
      owner = account.owner;
      is_writable = effective_is_writable;
      is_signer = effective_is_signer;
      is_executable = account.executable;
    })

  unfoldable pub opaque_descriptors : List AccountInfo → Result Failure (List CapabilityDescriptor)
  opaque_descriptors [] = ok []
  opaque_descriptors (account ∷ rest) = do
    descriptor ← opaque_descriptor account
    descriptors ← opaque_descriptors rest
    ok (descriptor ∷ descriptors)

  unfoldable pub validate_opaque_capabilities : Result Failure (List CapabilityDescriptor)
  validate_opaque_capabilities = do
    require_experiment (leb (length opaque_accounts) max_opaque_accounts) too_many_opaque_accounts
    opaque_descriptors opaque_accounts

-- `a == b` on flags.
abbrev pub bool_eq : Bool → Bool → Bool
bool_eq true b = b
bool_eq false b = not b

-- The closure's test of an account info that a descriptor may be passed as.
unfoldable pub is_normalized : CapabilityDescriptor → AccountInfo → Bool
is_normalized descriptor candidate =
    candidate.key == descriptor.key
    && (candidate.owner == descriptor.owner
        && (bool_eq candidate.executable descriptor.is_executable
            && ((not descriptor.is_writable || candidate.is_writable)
                && (not descriptor.is_signer || candidate.is_signer))))

-- `remaining_accounts.iter().find(...)`
unfoldable pub normalized_info : CapabilityDescriptor → List AccountInfo → Option AccountInfo
normalized_info descriptor [] = none
normalized_info descriptor (candidate ∷ rest) =
    let later = normalized_info descriptor rest in
    if is_normalized descriptor candidate then some candidate else later
