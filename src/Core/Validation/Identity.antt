-- ===== src/Core/Validation/Identity.antt =====
-- What the checks of the market, the domain and the fee ledger establish.
use programmable_solana.Base.{
  ℕ, ◌≡◌, ◌∙◌, ap, refl, sym, some, true, ◌&&◌, ok, ◌==◌, ok_or-eq-ok, ok_or-some, arith,
}
use mathlib.Core.Logic.{◌↔◌}
use programmable_solana.Core.Constants.{protocol_fee_bps_v0, fee_policy_revision_v0}
use programmable_solana.Core.Error.{
  >>-eq-ok, >>=-eq-ok, ok->>, ok->>=, require_core-eq-ok, require_core_holds, require_eq→eq,
  eq→require_eq,
}
use programmable_solana.Core.State.{MarketV0, DomainV0, FeeLedgerV0}
use programmable_solana.Core.Runtime.{Runtime}
use programmable_solana.Core.Validation.{
  market_address, domain_address, fee_ledger_address, validate_market_domain, validate_fee_ledger,
}

-- The market and the domain are the canonical accounts of this version under the fixed policy,
-- and name the same market, engine program, engine state and revision.
pub record IsBound (rt : Runtime) (market_key : ℕ) (market : MarketV0) (domain_key : ℕ)
    (domain : DomainV0) : Type 0 where
  pub market_version : market.version ≡ 0
  pub domain_version : domain.version ≡ 0
  pub fee_bps : market.fee_bps ≡ protocol_fee_bps_v0
  pub fee_policy : market.fee_policy_revision ≡ fee_policy_revision_v0
  pub market_canonical : market_address rt market ≡ some market_key
  pub admitted : domain.market ≡ market_key
  pub domain_canonical : domain_address rt market_key domain.bump ≡ some domain_key
  pub engine_program : domain.engine_program ≡ market.engine_program
  pub engine_state : domain.engine_state ≡ market.engine_state
  pub engine_revision : domain.engine_revision ≡ market.engine_revision

pub record IsLedgerOf (rt : Runtime) (market_key : ℕ) (market : MarketV0) (fee_ledger_key : ℕ)
    (fee_ledger : FeeLedgerV0) : Type 0 where
  pub version : fee_ledger.version ≡ 0
  pub market_named : fee_ledger.market ≡ market_key
  pub mint_named : fee_ledger.mint_a ≡ market.mint_a
  pub canonical :
      fee_ledger_address rt market_key market.mint_a fee_ledger.bump ≡ some fee_ledger_key

both_equal : (a b c d : ℕ) → (a == b && c == d) ≡ true → (a ≡ b) × (c ≡ d)
both_equal a b c d h = ground arith

equal_both : (a b c d : ℕ) → a ≡ b → c ≡ d → (a == b && c == d) ≡ true
equal_both a b c d h k = ground arith

module _ (rt : Runtime) (market_key : ℕ) (market : MarketV0) where
  pub validate_market_domain→IsBound :
      (domain_key : ℕ) (domain : DomainV0)
      → validate_market_domain rt market_key market domain_key domain ≡ ok tt
      → IsBound rt market_key market domain_key domain
  unfolding validate_market_domain
  validate_market_domain→IsBound domain_key domain h =
      let (mv, h) = >>-eq-ok _ _ h in
      let (dv, h) = >>-eq-ok _ _ h in
      let (fp, h) = >>-eq-ok _ _ h in
      let (m, me, h) = >>=-eq-ok _ _ h in
      let (mk, h) = >>-eq-ok _ _ h in
      let (dm, h) = >>-eq-ok _ _ h in
      let (d, de, h) = >>=-eq-ok _ _ h in
      let (dk, h) = >>-eq-ok _ _ h in
      let (ep, h) = >>-eq-ok _ _ h in
      let (es, er) = >>-eq-ok _ _ h in
      let (bps, revision) = both_equal _ _ _ _ (require_core-eq-ok _ _ fp) in
      record {
        market_version = require_eq→eq _ _ _ mv;
        domain_version = require_eq→eq _ _ _ dv;
        fee_bps = bps;
        fee_policy = revision;
        market_canonical = ok_or-eq-ok _ _ me ∙ ap some (sym (require_eq→eq _ _ _ mk));
        admitted = require_eq→eq _ _ _ dm;
        domain_canonical = ok_or-eq-ok _ _ de ∙ ap some (sym (require_eq→eq _ _ _ dk));
        engine_program = require_eq→eq _ _ _ ep;
        engine_state = require_eq→eq _ _ _ es;
        engine_revision = require_eq→eq _ _ _ er;
      }

  pub IsBound→validate_market_domain :
      (domain_key : ℕ) (domain : DomainV0)
      → IsBound rt market_key market domain_key domain
      → validate_market_domain rt market_key market domain_key domain ≡ ok tt
  unfolding validate_market_domain
  IsBound→validate_market_domain domain_key domain b =
      ok->> _ _ (eq→require_eq _ _ _ b.market_version)
      ∙ ok->> _ _ (eq→require_eq _ _ _ b.domain_version)
      ∙ ok->> _ _ (require_core_holds _ _ (equal_both _ _ _ _ b.fee_bps b.fee_policy))
      ∙ ok->>= _ _ (ok_or-some _ b.market_canonical)
      ∙ ok->> _ _ (eq→require_eq _ _ _ refl)
      ∙ ok->> _ _ (eq→require_eq _ _ _ b.admitted)
      ∙ ok->>= _ _ (ok_or-some _ b.domain_canonical)
      ∙ ok->> _ _ (eq→require_eq _ _ _ refl)
      ∙ ok->> _ _ (eq→require_eq _ _ _ b.engine_program)
      ∙ ok->> _ _ (eq→require_eq _ _ _ b.engine_state)
      ∙ eq→require_eq _ _ _ b.engine_revision

  pub validate_fee_ledger→IsLedgerOf :
      (fee_ledger_key : ℕ) (fee_ledger : FeeLedgerV0)
      → validate_fee_ledger rt market_key market fee_ledger_key fee_ledger ≡ ok tt
      → IsLedgerOf rt market_key market fee_ledger_key fee_ledger
  unfolding validate_fee_ledger
  validate_fee_ledger→IsLedgerOf fee_ledger_key fee_ledger h =
      let (v, h) = >>-eq-ok _ _ h in
      let (m, h) = >>-eq-ok _ _ h in
      let (a, h) = >>-eq-ok _ _ h in
      let (expected, e, k) = >>=-eq-ok _ _ h in
      record {
        version = require_eq→eq _ _ _ v;
        market_named = require_eq→eq _ _ _ m;
        mint_named = require_eq→eq _ _ _ a;
        canonical = ok_or-eq-ok _ _ e ∙ ap some (sym (require_eq→eq _ _ _ k));
      }

  pub IsLedgerOf→validate_fee_ledger :
      (fee_ledger_key : ℕ) (fee_ledger : FeeLedgerV0)
      → IsLedgerOf rt market_key market fee_ledger_key fee_ledger
      → validate_fee_ledger rt market_key market fee_ledger_key fee_ledger ≡ ok tt
  unfolding validate_fee_ledger
  IsLedgerOf→validate_fee_ledger fee_ledger_key fee_ledger l =
      ok->> _ _ (eq→require_eq _ _ _ l.version)
      ∙ ok->> _ _ (eq→require_eq _ _ _ l.market_named)
      ∙ ok->> _ _ (eq→require_eq _ _ _ l.mint_named)
      ∙ ok->>= _ _ (ok_or-some _ l.canonical)
      ∙ eq→require_eq _ _ _ refl

  -- The check of a market with its domain passes exactly when both are the canonical accounts
  -- of this version under the fixed fee policy and name the same market, engine program, engine
  -- state and revision.
  pub validate_market_domain-IsBound :
      (domain_key : ℕ) (domain : DomainV0)
      → (validate_market_domain rt market_key market domain_key domain ≡ ok tt)
        ↔ IsBound rt market_key market domain_key domain
  validate_market_domain-IsBound domain_key domain = (
    validate_market_domain→IsBound domain_key domain,
    IsBound→validate_market_domain domain_key domain,
  )

  -- The check of a fee ledger passes exactly when it is the canonical ledger of the market and
  -- its first mint.
  pub validate_fee_ledger-IsLedgerOf :
      (fee_ledger_key : ℕ) (fee_ledger : FeeLedgerV0)
      → (validate_fee_ledger rt market_key market fee_ledger_key fee_ledger ≡ ok tt)
        ↔ IsLedgerOf rt market_key market fee_ledger_key fee_ledger
  validate_fee_ledger-IsLedgerOf fee_ledger_key fee_ledger = (
    validate_fee_ledger→IsLedgerOf fee_ledger_key fee_ledger,
    IsLedgerOf→validate_fee_ledger fee_ledger_key fee_ledger,
  )
