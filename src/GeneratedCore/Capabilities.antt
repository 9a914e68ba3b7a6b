-- ===== src/GeneratedCore/Capabilities.antt =====
-- What the validation of the opaque accounts lets through, and that each of them can be passed on.
use programmable_solana.Base.{
  ℕ, ◌≤◌, ◌≡◌, ◌≢◌, ◌⊎◌, inl, inr, refl, Bool, true, false, not, ◌&&◌, ◌||◌, List, [], ◌∷◌, length,
  All, ok, ok-injective, ◌==◌, leb→le, ==_of_eq, arith,
}
use mathlib.Core.Path.{subst}
use programmable_solana.Wire.Opaque.{CapabilityDescriptor}
use programmable_solana.Core.Error.{>>-eq-ok, >>=-eq-ok, require_experiment-eq-ok}
use programmable_solana.Core.Runtime.{Runtime, AccountInfo}
use programmable_solana.Core.Validation.Roles.{any_equal→All}
use programmable_solana.Core.Validation.Tokens.{ne_of_test}
use programmable_solana.GeneratedCore.Opaque.{
  any_privileged, opaque_descriptor, opaque_descriptors, validate_opaque_capabilities,
}

-- The descriptor of an account among the opaque ones: its identity is the account's, its
-- privileges are those of all positions of its key, it signs for nothing, it is no account of the
-- envelope and none of Core's, and if it is writable it is no program and no token account.
pub record IsForwardable (rt : Runtime) (fixed : List ℕ) (accounts : List AccountInfo)
    (account : AccountInfo) (d : CapabilityDescriptor) : Type 0 where
  pub same_key : d.key ≡ account.key
  pub same_owner : d.owner ≡ account.owner
  pub same_executable : d.is_executable ≡ account.executable
  pub unsigned : d.is_signer ≡ false
  pub unsigned_anywhere : any_privileged (λ c. c.is_signer) account.key accounts ≡ false
  pub writable_anywhere : d.is_writable ≡ any_privileged (λ c. c.is_writable) account.key accounts
  pub not_fixed : All (λ key. key ≢ d.key) fixed
  pub not_owned : d.owner ≢ rt.program.id
  pub harmless :
      (d.is_writable ≡ false)
      ⊎ ((d.is_executable ≡ false)
          × (d.owner ≢ rt.token_program_id)
          × (d.owner ≢ rt.token_2022_program_id))

-- Position by position.
abbrev pub Each : {A B : Type 0} → (A → B → Type 0) → List A → List B → Type 0
Each R [] [] = Unit
Each R [] (d ∷ ds) = ⊥
Each R (a ∷ more) [] = ⊥
Each R (a ∷ more) (d ∷ ds) = R a d × Each R more ds

not-true : (b : Bool) → not b ≡ true → b ≡ false
not-true b h = ground arith

harmless_of_tests :
    (w x : Bool) (o t u : ℕ)
    → not (x && w) ≡ true
    → not (w && (o == t || o == u)) ≡ true
    → (w ≡ false) ⊎ ((x ≡ false) × (o ≢ t) × (o ≢ u))
harmless_of_tests false x o t u h k = inl refl
harmless_of_tests true x o t u h k =
    inr (ground arith, λ e. absurd (clash (==_of_eq o t e)), λ e. absurd (clash' (==_of_eq o u e)))
  where
    clash : (o == t) ≡ true → ⊥
    clash e = ground arith

    clash' : (o == u) ≡ true → ⊥
    clash' e = ground arith

module _ (rt : Runtime) (fixed : List ℕ) (accounts : List AccountInfo) where
  opaque_descriptor→IsForwardable :
      (account : AccountInfo) (d : CapabilityDescriptor)
      → opaque_descriptor rt fixed accounts account ≡ ok d
      → IsForwardable rt fixed accounts account d
  unfolding opaque_descriptor
  opaque_descriptor→IsForwardable account d h =
      let (unsigned, h) = >>-eq-ok _ _ h in
      let (alias, h) = >>-eq-ok _ _ h in
      let (owned, h) = >>-eq-ok _ _ h in
      let (plain, h) = >>-eq-ok _ _ h in
      let (token, h) = >>-eq-ok _ _ h in
      let unsigned = not-true _ (require_experiment-eq-ok _ _ unsigned) in
      subst (λ (d : CapabilityDescriptor). IsForwardable rt fixed accounts account d)
        (ok-injective h)
        (record {
          same_key = refl;
          same_owner = refl;
          same_executable = refl;
          unsigned = unsigned;
          unsigned_anywhere = unsigned;
          writable_anywhere = refl;
          not_fixed = any_equal→All account.key fixed (require_experiment-eq-ok _ _ alias);
          not_owned = ne_of_test _ _ (require_experiment-eq-ok _ _ owned);
          harmless =
              harmless_of_tests _ account.executable account.owner rt.token_program_id
                rt.token_2022_program_id (require_experiment-eq-ok _ _ plain)
                (require_experiment-eq-ok _ _ token);
        })

  opaque_descriptors→Each :
      (rest : List AccountInfo) (ds : List CapabilityDescriptor)
      → opaque_descriptors rt fixed accounts rest ≡ ok ds
      → Each (IsForwardable rt fixed accounts) rest ds
  unfolding opaque_descriptors
  opaque_descriptors→Each [] [] h = tt
  opaque_descriptors→Each [] (d ∷ ds) h = absurd (nil_ne (ok-injective h))
    where
      nil_ne : ◌≡◌ {A = List CapabilityDescriptor} [] (d ∷ ds) → ⊥
      nil_ne e = cc
  opaque_descriptors→Each (account ∷ rest) ds h =
      let (d, first, h) = >>=-eq-ok _ _ h in
      let (ds', later, h) = >>=-eq-ok _ _ h in
      subst
        (λ (ds : List CapabilityDescriptor).
          Each (IsForwardable rt fixed accounts) (account ∷ rest) ds)
        (ok-injective h)
        (opaque_descriptor→IsForwardable account d first, opaque_descriptors→Each rest ds' later)

  -- When the opaque accounts are accepted they are at most eight, and the descriptor of each
  -- has its account's key, owner and kind; under its key no position signs, its write privilege
  -- is that of any position of the key, it is no account of the envelope, is not owned by the
  -- program, and, if writable, is neither executable nor owned by a token program.
  pub validate_opaque_capabilities→Each :
      (ds : List CapabilityDescriptor)
      → validate_opaque_capabilities rt fixed accounts ≡ ok ds
      → (length accounts ≤ 8) × Each (IsForwardable rt fixed accounts) accounts ds
  unfolding validate_opaque_capabilities
  validate_opaque_capabilities→Each ds h =
      let (few, h) = >>-eq-ok _ _ h in
      (leb→le _ _ (require_experiment-eq-ok _ _ few), opaque_descriptors→Each accounts ds h)
