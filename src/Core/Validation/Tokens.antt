-- ===== src/Core/Validation/Tokens.antt =====
-- What the checks of mints, token accounts and balance changes establish.
use programmable_solana.Base.{
  ℕ, ◌+◌, ◌≤◌, ◌≡◌, ◌≢◌, ◌∙◌, refl, none, some, Option, true, ok, ok_or-eq-ok, ok_or-some, tests,
  checked_sub_u64-eq-some, checked_sub_u64_fits, ◌!=◌, arith,
}
use mathlib.Core.Logic.{◌↔◌}
use programmable_solana.Core.Error.{
  CoreError, >>-eq-ok, >>=-eq-ok, ok->>, ok->>=, require_core-eq-ok, require_core_holds,
  require_eq→eq, eq→require_eq,
}
use programmable_solana.Core.Runtime.{
  Runtime, Mint, TokenAccount, AccountState, initialized, uninitialized, frozen, is_none,
  is_initialized_state,
}
use programmable_solana.Core.Validation.{
  validate_classic_mint, validate_common_token_account, validate_protected_token_account,
  validate_credit_destination, require_raw_covers_accounted, exact_debit, exact_credit,
}

-- A mint of the token profile: initialized, not wrapped SOL, and with no freeze authority.
pub record IsPlainMint (rt : Runtime) (key : ℕ) (mint : Mint) : Type 0 where
  pub is_initialized : mint.is_initialized ≡ true
  pub not_native : key ≢ rt.native_mint_id
  pub no_freeze : mint.freeze_authority ≡ none

-- A live token account of a mint.
pub record IsLive (account : TokenAccount) (mint : ℕ) : Type 0 where
  pub live : account.state ≡ initialized
  pub not_native : account.is_native ≡ none
  pub of_mint : account.mint ≡ mint

-- One that its authority alone can move: no delegate, and nobody else can close it.
pub record IsProtected (account : TokenAccount) (mint authority : ℕ) : Type 0 where
  pub is_live : IsLive account mint
  pub owned : account.owner ≡ authority
  pub no_delegate : account.delegate ≡ none
  pub nothing_delegated : account.delegated_amount ≡ 0
  pub no_close : account.close_authority ≡ none

is_none→eq : (o : Option ℕ) → is_none o ≡ true → o ≡ none
is_none→eq none h = refl
is_none→eq (some a) h = cc

none→is_none : (o : Option ℕ) → o ≡ none → is_none o ≡ true
none→is_none o h = rw h

is_initialized_state→eq : (s : AccountState) → is_initialized_state s ≡ true → s ≡ initialized
is_initialized_state→eq initialized h = refl
is_initialized_state→eq uninitialized h = cc
is_initialized_state→eq frozen h = cc

pub ne_of_test : (a b : ℕ) → (a != b) ≡ true → a ≢ b
ne_of_test a b h = ground arith

pub test_of_ne : (a b : ℕ) → a ≢ b → (a != b) ≡ true
test_of_ne a b h = ground arith

pub validate_classic_mint→IsPlainMint :
    (rt : Runtime) (key : ℕ) (mint : Mint)
    → validate_classic_mint rt key mint ≡ ok tt
    → IsPlainMint rt key mint
unfolding validate_classic_mint
validate_classic_mint→IsPlainMint rt key mint h =
    let (i, h) = >>-eq-ok _ _ h in
    let (n, f) = >>-eq-ok _ _ h in
    record {
      is_initialized = require_core-eq-ok _ _ i;
      not_native = ne_of_test _ _ (require_core-eq-ok _ _ n);
      no_freeze = is_none→eq _ (require_core-eq-ok _ _ f);
    }

pub IsPlainMint→validate_classic_mint :
    (rt : Runtime) (key : ℕ) (mint : Mint)
    → IsPlainMint rt key mint
    → validate_classic_mint rt key mint ≡ ok tt
unfolding validate_classic_mint
IsPlainMint→validate_classic_mint rt key mint c =
    ok->> _ _ (require_core_holds _ _ c.is_initialized)
    ∙ ok->> _ _ (require_core_holds _ _ (test_of_ne _ _ c.not_native))
    ∙ require_core_holds _ _ (none→is_none _ c.no_freeze)

common→IsLive :
    (account : TokenAccount) (mint : ℕ)
    → validate_common_token_account account mint ≡ ok tt
    → IsLive account mint
unfolding validate_common_token_account
common→IsLive account mint h =
    let (f, h) = >>-eq-ok _ _ h in
    let (i, h) = >>-eq-ok _ _ h in
    let (n, m) = >>-eq-ok _ _ h in
    record {
      live = is_initialized_state→eq _ (require_core-eq-ok _ _ i);
      not_native = is_none→eq _ (require_core-eq-ok _ _ n);
      of_mint = require_eq→eq _ _ _ m;
    }

IsLive→common :
    (account : TokenAccount) (mint : ℕ)
    → IsLive account mint
    → validate_common_token_account account mint ≡ ok tt
unfolding validate_common_token_account
IsLive→common account mint l =
    ok->> _ _ (require_core_holds _ _ (rw l.live))
    ∙ ok->> _ _ (require_core_holds _ _ (rw l.live))
    ∙ ok->> _ _ (require_core_holds _ _ (none→is_none _ l.not_native))
    ∙ eq→require_eq _ _ _ l.of_mint

pub validate_credit_destination→IsLive :
    (account : TokenAccount) (mint : ℕ)
    → validate_credit_destination account mint ≡ ok tt
    → IsLive account mint
unfolding validate_credit_destination
validate_credit_destination→IsLive = common→IsLive

pub IsLive→validate_credit_destination :
    (account : TokenAccount) (mint : ℕ)
    → IsLive account mint
    → validate_credit_destination account mint ≡ ok tt
unfolding validate_credit_destination
IsLive→validate_credit_destination = IsLive→common

pub validate_protected_token_account→IsProtected :
    (account : TokenAccount) (mint authority : ℕ)
    → validate_protected_token_account account mint authority ≡ ok tt
    → IsProtected account mint authority
unfolding validate_protected_token_account
validate_protected_token_account→IsProtected account mint authority h =
    let (l, h) = >>-eq-ok _ _ h in
    let (o, h) = >>-eq-ok _ _ h in
    let (d, h) = >>-eq-ok _ _ h in
    let (a, c) = >>-eq-ok _ _ h in
    record {
      is_live = common→IsLive account mint l;
      owned = require_eq→eq _ _ _ o;
      no_delegate = is_none→eq _ (require_core-eq-ok _ _ d);
      nothing_delegated = require_eq→eq _ _ _ a;
      no_close = is_none→eq _ (require_core-eq-ok _ _ c);
    }

pub IsProtected→validate_protected_token_account :
    (account : TokenAccount) (mint authority : ℕ)
    → IsProtected account mint authority
    → validate_protected_token_account account mint authority ≡ ok tt
unfolding validate_protected_token_account
IsProtected→validate_protected_token_account account mint authority p =
    ok->> _ _ (IsLive→common account mint p.is_live)
    ∙ ok->> _ _ (eq→require_eq _ _ _ p.owned)
    ∙ ok->> _ _ (require_core_holds _ _ (none→is_none _ p.no_delegate))
    ∙ ok->> _ _ (eq→require_eq _ _ _ p.nothing_delegated)
    ∙ require_core_holds _ _ (none→is_none _ p.no_close)

pub require_raw_covers_accounted-eq-ok :
    (raw accounted : ℕ) → require_raw_covers_accounted raw accounted ≡ ok tt → accounted ≤ raw
unfolding require_raw_covers_accounted
require_raw_covers_accounted-eq-ok raw accounted h = omega (tests, require_core-eq-ok _ _ h)

pub covers→require_raw_covers_accounted :
    (raw accounted : ℕ) → accounted ≤ raw → require_raw_covers_accounted raw accounted ≡ ok tt
unfolding require_raw_covers_accounted
covers→require_raw_covers_accounted raw accounted h = require_core_holds _ _ (ground arith)

-- The balance fell by exactly the expected amount.
pub exact_debit→eq :
    (before after expected : ℕ) (e : CoreError)
    → exact_debit before after expected e ≡ ok tt
    → before ≡ after + expected
unfolding exact_debit
exact_debit→eq before after expected e h =
    let (observed, o, t) = >>=-eq-ok _ _ h in
    let fell = checked_sub_u64-eq-some before after (ok_or-eq-ok _ _ o) in
    let as_expected : observed ≡ expected = ground arith in omega arith

pub eq→exact_debit :
    (before after expected : ℕ) (e : CoreError)
    → before ≡ after + expected
    → exact_debit before after expected e ≡ ok tt
unfolding exact_debit
eq→exact_debit before after expected e h =
    ok->>= _ _ (ok_or-some _ (checked_sub_u64_fits before after (omega arith))) ∙ ground arith

-- The balance rose by exactly the expected amount.
pub exact_credit→eq :
    (before after expected : ℕ) (e : CoreError)
    → exact_credit before after expected e ≡ ok tt
    → after ≡ before + expected
unfolding exact_credit
exact_credit→eq before after expected e h =
    let (observed, o, t) = >>=-eq-ok _ _ h in
    let rose = checked_sub_u64-eq-some after before (ok_or-eq-ok _ _ o) in
    let as_expected : observed ≡ expected = ground arith in omega arith

pub eq→exact_credit :
    (before after expected : ℕ) (e : CoreError)
    → after ≡ before + expected
    → exact_credit before after expected e ≡ ok tt
unfolding exact_credit
eq→exact_credit before after expected e h =
    ok->>= _ _ (ok_or-some _ (checked_sub_u64_fits after before (omega arith))) ∙ ground arith

-- The check of a token account that Core is to debit or to keep passes exactly when the account
-- is live, of the mint, and moved by the expected authority alone.
pub validate_protected_token_account-IsProtected :
    (account : TokenAccount) (mint authority : ℕ)
    → (validate_protected_token_account account mint authority ≡ ok tt)
      ↔ IsProtected account mint authority
validate_protected_token_account-IsProtected account mint authority = (
  validate_protected_token_account→IsProtected account mint authority,
  IsProtected→validate_protected_token_account account mint authority,
)

-- The check of a mint passes exactly when the mint is initialized, is not the native mint, and
-- has no freeze authority.
pub validate_classic_mint-IsPlainMint :
    (rt : Runtime) (key : ℕ) (mint : Mint)
    → (validate_classic_mint rt key mint ≡ ok tt) ↔ IsPlainMint rt key mint
validate_classic_mint-IsPlainMint rt key mint =
    (validate_classic_mint→IsPlainMint rt key mint, IsPlainMint→validate_classic_mint rt key mint)
