-- ===== src/GeneratedCore/Availability.antt =====
-- The handler of execute_engine_generated_probe_v0.rs finds an account info for each descriptor that
-- it has validated.
use programmable_solana.Base.{
  ℕ, ◌≡◌, inl, inr, refl, sym, ap, ◌∙◌, Bool, true, false, not, ◌&&◌, ◌||◌, some, List, [], ◌∷◌,
  All, ok, ok_or-some, Bool-cases, ◌==◌, ==_of_eq, ==_eq, ◌⊎◌, arith,
}
use mathlib.Core.Path.{subst}
use programmable_solana.Wire.Opaque.{CapabilityDescriptor}
use programmable_solana.Core.Error.{ok->>=}
use programmable_solana.Core.Runtime.{Runtime, AccountInfo}
use programmable_solana.GeneratedCore.Opaque.{
  any_privileged, bool_eq, validate_opaque_capabilities, is_normalized, normalized_info,
}
use programmable_solana.GeneratedCore.Capabilities.{
  IsForwardable, Each, validate_opaque_capabilities→Each,
}
use programmable_solana.GeneratedCore.{opaque_infos}

-- The positions of one key are one account, with one owner and one kind.
abbrev pub IsAccountOf : (ℕ → ℕ × Bool) → AccountInfo → Type 0
IsAccountOf ledger a = (a.owner ≡ (ledger a.key).0) × (a.executable ≡ (ledger a.key).1)

abbrev IsListed : List AccountInfo → AccountInfo → Type 0
IsListed accounts a = any_privileged (λ c. true) a.key accounts ≡ true

present_later :
    (b : AccountInfo) (accounts some_of : List AccountInfo)
    → All (IsListed accounts) some_of
    → All (IsListed (b ∷ accounts)) some_of
unfolding any_privileged
present_later b accounts [] h = tt
present_later b accounts (a ∷ rest) h = (ground (arith, h.0), present_later b accounts rest h.1)

all_present : (accounts : List AccountInfo) → All (IsListed accounts) accounts
unfolding any_privileged
all_present [] = tt
all_present (a ∷ rest) =
    (ground (arith, ==_of_eq a.key a.key refl), present_later a rest rest (all_present rest))

bool_eq_refl : (b : Bool) → bool_eq b b ≡ true
bool_eq_refl b = ground arith

is_normalized-true :
    (d : CapabilityDescriptor) (c : AccountInfo)
    → c.key ≡ d.key
    → c.owner ≡ d.owner
    → c.executable ≡ d.is_executable
    → d.is_signer ≡ false
    → (not d.is_writable || c.is_writable) ≡ true
    → is_normalized d c ≡ true
unfolding is_normalized
is_normalized-true d c key owner kind unsigned privileged =
    rw (==_of_eq _ _ key, ==_of_eq _ _ owner, kind, bool_eq_refl, unsigned, privileged)

split : (a b c : Bool) → ((a && b) || c) ≡ true → ((a ≡ true) × (b ≡ true)) ⊎ (c ≡ true)
split a b c h = ground arith

both : (b : Bool) → b ≡ false → b ≡ true → ⊥
both b h k = cc

-- A position with the privilege that the descriptor needs can stand for it.
normalized_of_privileged :
    (ledger : ℕ → ℕ × Bool) (d : CapabilityDescriptor) (accounts : List AccountInfo)
    → d.is_signer ≡ false
    → d.owner ≡ (ledger d.key).0
    → d.is_executable ≡ (ledger d.key).1
    → All (IsAccountOf ledger) accounts
    → any_privileged (λ c. not d.is_writable || c.is_writable) d.key accounts ≡ true
    → (info : AccountInfo) × (normalized_info d accounts ≡ some info)
unfolding any_privileged normalized_info
normalized_of_privileged ledger d [] unsigned owner kind known h = cc
normalized_of_privileged ledger d (c ∷ rest) unsigned owner kind known h =
    elim (Bool-cases (is_normalized d c)) [
      | inl found ↦ (c, rw found)
      | inr other ↦ elim (split (c.key == d.key) (not d.is_writable || c.is_writable) _ h) [
        | inl here ↦
            let key = ==_eq c.key d.key here.0 in
            absurd (
              both _ other (
                is_normalized-true d c key (known.0.0 ∙ ap (λ k. (ledger k).0) key ∙ sym owner)
                  (known.0.1 ∙ ap (λ k. (ledger k).1) key ∙ sym kind) unsigned here.1))
        | inr later ↦
            let (info, found) =
              normalized_of_privileged ledger d rest unsigned owner kind known.1 later in
            (info, rw other found)
      ]
    ]

-- Some position of its key has the privileges of a validated descriptor.
privileged_somewhere :
    (d : CapabilityDescriptor) (key : ℕ) (accounts : List AccountInfo)
    → d.is_writable ≡ any_privileged (λ c. c.is_writable) key accounts
    → any_privileged (λ c. true) key accounts ≡ true
    → any_privileged (λ c. not d.is_writable || c.is_writable) key accounts ≡ true
privileged_somewhere d key accounts writable present = elim (Bool-cases d.is_writable) [
  | inl writes ↦ rw writes (sym writable ∙ writes)
  | inr reads ↦ rw reads present
]

module _ (rt : Runtime) (fixed : List ℕ) (accounts : List AccountInfo) (ledger : ℕ → ℕ × Bool) where
  available :
      (a : AccountInfo) (d : CapabilityDescriptor)
      → All (IsAccountOf ledger) accounts
      → IsAccountOf ledger a
      → IsListed accounts a
      → IsForwardable rt fixed accounts a d
      → (info : AccountInfo) × (normalized_info d accounts ≡ some info)
  available a d known here present o =
      normalized_of_privileged ledger d accounts o.unsigned
        (o.same_owner ∙ here.0 ∙ ap (λ k. (ledger k).0) (sym o.same_key))
        (o.same_executable ∙ here.1 ∙ ap (λ k. (ledger k).1) (sym o.same_key)) known
        (subst (λ k. any_privileged (λ c. not d.is_writable || c.is_writable) k accounts ≡ true)
          (sym o.same_key) (privileged_somewhere d a.key accounts o.writable_anywhere present))

  all_available :
      (some_of : List AccountInfo) (ds : List CapabilityDescriptor)
      → All (IsAccountOf ledger) accounts
      → All (IsAccountOf ledger) some_of
      → All (IsListed accounts) some_of
      → Each (IsForwardable rt fixed accounts) some_of ds
      → (infos : List AccountInfo) × (opaque_infos accounts ds ≡ ok infos)
  unfolding opaque_infos
  all_available [] [] known here present o = ([], refl)
  all_available [] (d ∷ ds) known here present o = absurd o
  all_available (a ∷ rest) [] known here present o = absurd o
  all_available (a ∷ rest) (d ∷ ds) known here present o =
      let (info, found) = available a d known here.0 present.0 o.0 in
      let (infos, later) = all_available rest ds known here.1 present.1 o.1 in
      (info ∷ infos, ok->>= _ _ (ok_or-some _ found) ∙ ok->>= _ _ later)

  -- Where all positions of one key have one owner and one kind, each accepted opaque account is
  -- found again with the privileges of its descriptor, so the handler's error for an
  -- unavailable privilege never occurs.
  pub opaque_infos_total :
      (ds : List CapabilityDescriptor)
      → All (IsAccountOf ledger) accounts
      → validate_opaque_capabilities rt fixed accounts ≡ ok ds
      → (infos : List AccountInfo) × (opaque_infos accounts ds ≡ ok infos)
  opaque_infos_total ds known h =
      all_available accounts ds known known (all_present accounts)
        (validate_opaque_capabilities→Each rt fixed accounts ds h).1
