-- ===== src/Core/Execute/Admission.antt =====
-- What the handler of execute_engine_probe_v0.rs has established of the accounts before it looks at
-- the amounts.
use programmable_solana.Base.{
  All, ◌∷◌, ◌&&◌, [], ◌≤◌, ◌≡◌, ◌≢◌, ◌∙◌, ap, Bool, true, false, not, ok, arith,
}
use programmable_solana.Core.Error.{>>-eq-ok, >>=-eq-ok, require_core-eq-ok, require_eq→eq}
use programmable_solana.Core.Runtime.{Runtime, Context, AccountInfo}
use programmable_solana.Core.Validation.{canonical_domain_vault, canonical_fee_vault}
use programmable_solana.Core.Validation.Roles.{
  NoRepeats, ensure_no_remaining_accounts→nil, ensure_distinct_roles→NoRepeats,
}
use programmable_solana.Core.Validation.Identity.{
  IsBound, IsLedgerOf, validate_market_domain→IsBound, validate_fee_ledger→IsLedgerOf,
}
use programmable_solana.Core.Validation.Tokens.{
  IsPlainMint, IsLive, IsProtected, validate_classic_mint→IsPlainMint,
  validate_credit_destination→IsLive, validate_protected_token_account→IsProtected,
  require_raw_covers_accounted-eq-ok, ne_of_test,
}
use programmable_solana.Core.Execute.{
  ExecuteEngineProbeV0, no_extra_writable, admit_canonical, admit_identities, admit_tokens,
}

-- Canonical accounts of one market and its engine.
pub record IsCanonical (rt : Runtime) (accounts : ExecuteEngineProbeV0) : Type 0 where
  pub bound :
      IsBound rt accounts.market.info.key accounts.market.content accounts.domain.info.key
        accounts.domain.content
  pub ledger :
      IsLedgerOf rt accounts.market.info.key accounts.market.content accounts.fee_ledger.info.key
        accounts.fee_ledger.content
  pub vault_a_canonical :
      canonical_domain_vault rt accounts.domain.info.key 0 accounts.domain.content.vault_a_bump
      ≡ ok accounts.vault_a.info.key
  pub vault_b_canonical :
      canonical_domain_vault rt accounts.domain.info.key 1 accounts.domain.content.vault_b_bump
      ≡ ok accounts.vault_b.info.key
  pub fee_vault_canonical :
      canonical_fee_vault rt accounts.fee_ledger.info.key accounts.fee_ledger.content.fee_vault_bump
      ≡ ok accounts.fee_vault.info.key
  pub engine_executable : accounts.engine_program.executable ≡ true
  pub engine_not_core : accounts.engine_program.key ≢ rt.program.id
  pub engine_state_plain : accounts.engine_state.executable ≡ false
  pub engine_state_owned : accounts.engine_state.owner ≡ accounts.engine_program.key

-- The accounts without a write privilege.
abbrev pub IsReadonly : ExecuteEngineProbeV0 → Type 0
IsReadonly accounts =
    All (λ (info : AccountInfo). info.is_writable ≡ false)
      (accounts.market.info ∷ accounts.mint_a.info ∷ accounts.mint_b.info ∷ accounts.engine_program
        ∷ accounts.instructions_sysvar ∷ accounts.token_program ∷ [])

-- A direct call on nothing but distinct canonical accounts of one market and its engine, without
-- a write privilege beyond the schema's.
pub record IsIdentified (rt : Runtime) (ctx : Context ExecuteEngineProbeV0) : Type 0 where
  pub nothing_else : ctx.remaining_accounts ≡ []
  pub direct : rt.stack_height ≡ 1
  pub distinct : NoRepeats (
      ctx.accounts.user.key ∷ ctx.accounts.market.info.key ∷ ctx.accounts.domain.info.key
      ∷ ctx.accounts.fee_ledger.info.key ∷ ctx.accounts.mint_a.info.key
      ∷ ctx.accounts.mint_b.info.key ∷ ctx.accounts.user_source_a.info.key
      ∷ ctx.accounts.user_destination_b.info.key ∷ ctx.accounts.vault_a.info.key
      ∷ ctx.accounts.vault_b.info.key ∷ ctx.accounts.fee_vault.info.key
      ∷ ctx.accounts.engine_program.key ∷ ctx.accounts.engine_state.key
      ∷ ctx.accounts.instructions_sysvar.key ∷ ctx.accounts.token_program.key ∷ [])
  pub canonical : IsCanonical rt ctx.accounts
  pub readonly : IsReadonly ctx.accounts

-- Token accounts of the profile, with the Core-accounted balances behind them.
pub record IsFunded (rt : Runtime) (accounts : ExecuteEngineProbeV0) : Type 0 where
  pub mint_a : IsPlainMint rt accounts.mint_a.info.key accounts.mint_a.content
  pub mint_b : IsPlainMint rt accounts.mint_b.info.key accounts.mint_b.content
  pub source : IsProtected accounts.user_source_a.content accounts.mint_a.info.key accounts.user.key
  pub destination : IsLive accounts.user_destination_b.content accounts.mint_b.info.key
  pub vault_a :
      IsProtected accounts.vault_a.content accounts.mint_a.info.key accounts.domain.info.key
  pub vault_b :
      IsProtected accounts.vault_b.content accounts.mint_b.info.key accounts.domain.info.key
  pub fee_vault :
      IsProtected accounts.fee_vault.content accounts.mint_a.info.key accounts.fee_ledger.info.key
  pub covered_a : accounts.domain.content.accounted_a ≤ accounts.vault_a.content.amount
  pub covered_b : accounts.domain.content.accounted_b ≤ accounts.vault_b.content.amount
  pub covered_fee : accounts.fee_ledger.content.accounted_fee_a ≤ accounts.fee_vault.content.amount

pub not-true : (b : Bool) → not b ≡ true → b ≡ false
not-true b h = ground arith

pub peel_not : (a b : Bool) → (not a && b) ≡ true → (a ≡ false) × (b ≡ true)
peel_not a b h = ground arith

pub no_extra_writable→IsReadonly :
    (accounts : ExecuteEngineProbeV0) → no_extra_writable accounts ≡ true → IsReadonly accounts
no_extra_writable→IsReadonly accounts h =
    let (market, h) = peel_not _ _ h in
    let (mint_a, h) = peel_not _ _ h in
    let (mint_b, h) = peel_not _ _ h in
    let (engine, h) = peel_not _ _ h in
    let (sysvar, token) = peel_not _ _ h in
    (market, (mint_a, (mint_b, (engine, (sysvar, (not-true _ token, tt))))))

module _ (rt : Runtime) where
  pub admit_canonical→IsCanonical :
      (accounts : ExecuteEngineProbeV0)
      → admit_canonical rt accounts ≡ ok tt
      → IsCanonical rt accounts
  unfolding admit_canonical
  admit_canonical→IsCanonical accounts h =
      let (bound, h) = >>-eq-ok _ _ h in
      let (ledger, h) = >>-eq-ok _ _ h in
      let (a, va, h) = >>=-eq-ok _ _ h in
      let (ea, h) = >>-eq-ok _ _ h in
      let (b, vb, h) = >>=-eq-ok _ _ h in
      let (eb, h) = >>-eq-ok _ _ h in
      let (f, vf, h) = >>=-eq-ok _ _ h in
      let (ef, h) = >>-eq-ok _ _ h in
      let (executable, h) = >>-eq-ok _ _ h in
      let (other, h) = >>-eq-ok _ _ h in
      let (plain, owned) = >>-eq-ok _ _ h in
      record {
        bound = validate_market_domain→IsBound rt _ _ _ _ bound;
        ledger = validate_fee_ledger→IsLedgerOf rt _ _ _ _ ledger;
        vault_a_canonical = va ∙ ap ok (require_eq→eq _ _ _ ea);
        vault_b_canonical = vb ∙ ap ok (require_eq→eq _ _ _ eb);
        fee_vault_canonical = vf ∙ ap ok (require_eq→eq _ _ _ ef);
        engine_executable = require_core-eq-ok _ _ executable;
        engine_not_core = ne_of_test _ _ (require_core-eq-ok _ _ other);
        engine_state_plain = not-true _ (require_core-eq-ok _ _ plain);
        engine_state_owned = require_eq→eq _ _ _ owned;
      }

  pub admit_identities→IsIdentified :
      (ctx : Context ExecuteEngineProbeV0) → admit_identities rt ctx ≡ ok tt → IsIdentified rt ctx
  unfolding admit_identities
  admit_identities→IsIdentified ctx h =
      let (none_left, h) = >>-eq-ok _ _ h in
      let (direct, h) = >>-eq-ok _ _ h in
      let (roles, h) = >>-eq-ok _ _ h in
      let (canonical, readonly) = >>-eq-ok _ _ h in
      record {
        nothing_else = ensure_no_remaining_accounts→nil _ none_left;
        direct = require_eq→eq _ _ _ direct;
        distinct = ensure_distinct_roles→NoRepeats _ roles;
        canonical = admit_canonical→IsCanonical ctx.accounts canonical;
        readonly = no_extra_writable→IsReadonly ctx.accounts (require_core-eq-ok _ _ readonly);
      }

  pub admit_tokens→IsFunded :
      (accounts : ExecuteEngineProbeV0) → admit_tokens rt accounts ≡ ok tt → IsFunded rt accounts
  unfolding admit_tokens
  admit_tokens→IsFunded accounts h =
      let (ma, h) = >>-eq-ok _ _ h in
      let (mb, h) = >>-eq-ok _ _ h in
      let (source, h) = >>-eq-ok _ _ h in
      let (destination, h) = >>-eq-ok _ _ h in
      let (va, h) = >>-eq-ok _ _ h in
      let (vb, h) = >>-eq-ok _ _ h in
      let (vf, h) = >>-eq-ok _ _ h in
      let (ca, h) = >>-eq-ok _ _ h in
      let (cb, cf) = >>-eq-ok _ _ h in
      record {
        mint_a = validate_classic_mint→IsPlainMint rt _ _ ma;
        mint_b = validate_classic_mint→IsPlainMint rt _ _ mb;
        source = validate_protected_token_account→IsProtected _ _ _ source;
        destination = validate_credit_destination→IsLive _ _ destination;
        vault_a = validate_protected_token_account→IsProtected _ _ _ va;
        vault_b = validate_protected_token_account→IsProtected _ _ _ vb;
        fee_vault = validate_protected_token_account→IsProtected _ _ _ vf;
        covered_a = require_raw_covers_accounted-eq-ok _ _ ca;
        covered_b = require_raw_covers_accounted-eq-ok _ _ cb;
        covered_fee = require_raw_covers_accounted-eq-ok _ _ cf;
      }
