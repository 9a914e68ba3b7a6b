-- ===== src/Core/Validation/Roles.antt =====
-- The role check accepts exactly the lists of keys without a repetition.
use programmable_solana.Base.{
  ℕ, ◌≡◌, ◌≢◌, refl, ◌∙◌, inl, inr, true, false, not, List, [], ◌∷◌, All, ok, ◌==◌, Bool-cases,
  arith,
}
use mathlib.Core.Logic.{◌↔◌}
use programmable_solana.Core.Error.{
  >>-eq-ok, ok->>, require_core, require_core-eq-ok, require_core_holds,
}
use programmable_solana.Core.Runtime.{AccountInfo}
use programmable_solana.Core.Validation.{
  ensure_no_remaining_accounts, any_equal, ensure_distinct_roles,
}

-- No key of the list stands in it twice.
abbrev pub NoRepeats : List ℕ → Type 0
NoRepeats [] = Unit
NoRepeats (key ∷ rest) = All (λ other. other ≢ key) rest × NoRepeats rest

pub any_equal→All :
    (key : ℕ) (rest : List ℕ) → not (any_equal key rest) ≡ true → All (λ other. other ≢ key) rest
unfolding any_equal
any_equal→All key [] h = tt
any_equal→All key (other ∷ rest) h = elim (Bool-cases (other == key)) [
  | inl same ↦ absurd (absurd_test (rw same at h))
  | inr differ ↦ (ground arith, any_equal→All key rest (rw differ at h))
]
  where
    absurd_test : false ≡ true → ⊥
    absurd_test e = cc

All→any_equal :
    (key : ℕ) (rest : List ℕ) → All (λ other. other ≢ key) rest → not (any_equal key rest) ≡ true
unfolding any_equal
All→any_equal key [] h = refl
All→any_equal key (other ∷ rest) h = ground (arith, All→any_equal key rest h.1)

pub ensure_distinct_roles→NoRepeats :
    (keys : List ℕ) → ensure_distinct_roles keys ≡ ok tt → NoRepeats keys
unfolding ensure_distinct_roles
ensure_distinct_roles→NoRepeats [] h = tt
ensure_distinct_roles→NoRepeats (key ∷ rest) h =
    let (alone, h1) = >>-eq-ok _ _ h in
    (any_equal→All key rest (require_core-eq-ok _ _ alone), ensure_distinct_roles→NoRepeats rest h1)

pub NoRepeats→ensure_distinct_roles :
    (keys : List ℕ) → NoRepeats keys → ensure_distinct_roles keys ≡ ok tt
unfolding ensure_distinct_roles
NoRepeats→ensure_distinct_roles [] h = refl
NoRepeats→ensure_distinct_roles (key ∷ rest) h =
    ok->> _ _ (require_core_holds _ _ (All→any_equal key rest h.0))
    ∙ NoRepeats→ensure_distinct_roles rest h.1

-- The check of the roles passes exactly when no key stands in the list twice.
pub ensure_distinct_roles-NoRepeats :
    (keys : List ℕ) → (ensure_distinct_roles keys ≡ ok tt) ↔ NoRepeats keys
ensure_distinct_roles-NoRepeats keys =
    (ensure_distinct_roles→NoRepeats keys, NoRepeats→ensure_distinct_roles keys)

pub ensure_no_remaining_accounts→nil :
    (accounts : List AccountInfo) → ensure_no_remaining_accounts accounts ≡ ok tt → accounts ≡ []
unfolding ensure_no_remaining_accounts require_core
ensure_no_remaining_accounts→nil [] h = refl
ensure_no_remaining_accounts→nil (account ∷ rest) h = cc
