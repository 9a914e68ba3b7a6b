-- ===== src/Core/Initialize/Canonical.antt =====
-- A market that initialization creates passes the checks that the other instructions make of it.
use programmable_solana.Base.{
  ℕ, ◌≡◌, ◌∙◌, ap, refl, sym, some, List, [], ◌∷◌, ◌++◌, ok, ok-injective, ok_or-some, ==_eq,
}
use mathlib.Core.Path.{subst}
use programmable_solana.Wire.Bytes.{le_bytes}
use programmable_solana.Core.Error.{>>-eq-ok, >>=-eq-ok, require_anchor-eq-ok}
use programmable_solana.Core.Runtime.{Runtime, AccountInfo, Context, World}
use programmable_solana.Core.Validation.{
  canonical_domain_vault, canonical_fee_vault, domain_address, fee_ledger_address,
}
use programmable_solana.Core.Validation.Identity.{IsBound, IsLedgerOf}
use programmable_solana.Core.Initialize.{
  InitializeMarketDomainV0, InitializeMarketDomainV0Args, Initialized, Bumps, init_address,
  init_state, init_vaults, check_initialize_market_domain_v0, handle_initialize_market_domain_v0,
  initialize_market_domain,
}

-- `find_program_address` returns an address with the bump that derives it.
abbrev pub FindsDerived : Runtime → Type 0
FindsDerived rt =
    (seeds : List (List ℕ))
    → rt.create_program_address (seeds ++ ((rt.find_program_address seeds).1 ∷ []) ∷ [])
      ≡ some (rt.find_program_address seeds).0

-- The accounts of the instruction are the canonical ones of the state that it wrote, which starts
-- with nothing accounted.
pub record IsCanonical (rt : Runtime) (accounts : InitializeMarketDomainV0) (r : Initialized)
    : Type 0 where
  pub bound : IsBound rt accounts.market.key r.market accounts.domain.key r.domain
  pub ledger : IsLedgerOf rt accounts.market.key r.market accounts.fee_ledger.key r.fee_ledger
  pub vault_a :
      canonical_domain_vault rt accounts.domain.key 0 r.domain.vault_a_bump
      ≡ ok accounts.vault_a.key
  pub vault_b :
      canonical_domain_vault rt accounts.domain.key 1 r.domain.vault_b_bump
      ≡ ok accounts.vault_b.key
  pub fee_vault :
      canonical_fee_vault rt accounts.fee_ledger.key r.fee_ledger.fee_vault_bump
      ≡ ok accounts.fee_vault.key
  pub nothing_a : r.domain.accounted_a ≡ 0
  pub nothing_b : r.domain.accounted_b ≡ 0
  pub nothing_fee : r.fee_ledger.accounted_fee_a ≡ 0

module _ (rt : Runtime) (finds : FindsDerived rt) where
  init_address-derives :
      (info : AccountInfo) (seeds : List (List ℕ)) {bump : ℕ}
      → init_address rt info seeds ≡ ok bump
      → rt.create_program_address (seeds ++ (bump ∷ []) ∷ []) ≡ some info.key
  unfolding init_address
  init_address-derives info seeds h =
      let (same, result) = >>-eq-ok _ _ h in
      let bump_eq = ok-injective result in
      let key_eq : info.key ≡ (rt.find_program_address seeds).0 =
        ==_eq _ _ (require_anchor-eq-ok _ _ same) in
      ap (λ b. rt.create_program_address (seeds ++ (b ∷ []) ∷ [])) (sym bump_eq)
      ∙ finds seeds
      ∙ ap some (sym key_eq)

  -- What the created addresses give for the bumps that are kept.
  record IsInited (accounts : InitializeMarketDomainV0) (args : InitializeMarketDomainV0Args)
      (market domain fee_ledger : ℕ) : Type 0 where
    market_derived :
        rt.create_program_address (
          rt.program.market_seed
          ∷ le_bytes 32 accounts.initializer.key
          ∷ le_bytes 32 args.market_id
          ∷ (market ∷ [])
          ∷ [])
        ≡ some accounts.market.key
    domain_derived : domain_address rt accounts.market.key domain ≡ some accounts.domain.key
    fee_ledger_derived :
        fee_ledger_address rt accounts.market.key accounts.mint_a.info.key fee_ledger
        ≡ some accounts.fee_ledger.key

  init_state→IsInited :
      (accounts : InitializeMarketDomainV0) (args : InitializeMarketDomainV0Args) (w : World)
      (market domain fee_ledger : ℕ) (w' : World)
      → init_state rt accounts args w ≡ ok (market, domain, fee_ledger, w')
      → IsInited accounts args market domain fee_ledger
  unfolding init_state
  init_state→IsInited accounts args w market domain fee_ledger w' h =
      let (m, me, h) = >>=-eq-ok _ _ h in
      let (w1, c1, h) = >>=-eq-ok _ _ h in
      let (d, de, h) = >>=-eq-ok _ _ h in
      let (w2, c2, h) = >>=-eq-ok _ _ h in
      let (f, fe, h) = >>=-eq-ok _ _ h in
      let (w3, c3, h) = >>=-eq-ok _ _ h in
      let result = ok-injective h in
      let m_eq : m ≡ market = ap (λ p. p.0) result in
      let d_eq : d ≡ domain = ap (λ p. p.1) result in
      let f_eq : f ≡ fee_ledger = ap (λ p. p.2) result in
      record {
        market_derived = rw (← m_eq) (init_address-derives _ _ me);
        domain_derived = rw (← d_eq) (init_address-derives _ _ de);
        fee_ledger_derived = rw (← f_eq) (init_address-derives _ _ fe);
      }

  record IsVaulted (accounts : InitializeMarketDomainV0) (vault_a vault_b fee_vault : ℕ)
      : Type 0 where
    a_canonical : canonical_domain_vault rt accounts.domain.key 0 vault_a ≡ ok accounts.vault_a.key
    b_canonical : canonical_domain_vault rt accounts.domain.key 1 vault_b ≡ ok accounts.vault_b.key
    fee_canonical :
        canonical_fee_vault rt accounts.fee_ledger.key fee_vault ≡ ok accounts.fee_vault.key

  init_vaults→IsVaulted :
      (accounts : InitializeMarketDomainV0) (w : World) (vault_a vault_b fee_vault : ℕ) (w' : World)
      → init_vaults rt accounts w ≡ ok (vault_a, vault_b, fee_vault, w')
      → IsVaulted accounts vault_a vault_b fee_vault
  unfolding init_vaults canonical_domain_vault canonical_fee_vault
  init_vaults→IsVaulted accounts w vault_a vault_b fee_vault w' h =
      let (a, ae, h) = >>=-eq-ok _ _ h in
      let (w1, c1, h) = >>=-eq-ok _ _ h in
      let (b, be, h) = >>=-eq-ok _ _ h in
      let (w2, c2, h) = >>=-eq-ok _ _ h in
      let (f, fe, h) = >>=-eq-ok _ _ h in
      let (w3, c3, h) = >>=-eq-ok _ _ h in
      let result = ok-injective h in
      let a_eq : a ≡ vault_a = ap (λ p. p.0) result in
      let b_eq : b ≡ vault_b = ap (λ p. p.1) result in
      let f_eq : f ≡ fee_vault = ap (λ p. p.2) result in
      record {
        a_canonical = ok_or-some _ (rw (← a_eq) (init_address-derives _ _ ae));
        b_canonical = ok_or-some _ (rw (← b_eq) (init_address-derives _ _ be));
        fee_canonical = ok_or-some _ (rw (← f_eq) (init_address-derives _ _ fe));
      }

  handled :
      (ctx : Context InitializeMarketDomainV0) (bumps : Bumps) (args : InitializeMarketDomainV0Args)
      (w : World) (r : Initialized)
      → IsInited ctx.accounts args bumps.market bumps.domain bumps.fee_ledger
      → IsVaulted ctx.accounts bumps.vault_a bumps.vault_b bumps.fee_vault
      → handle_initialize_market_domain_v0 rt ctx bumps args w ≡ ok r
      → IsCanonical rt ctx.accounts r
  unfolding handle_initialize_market_domain_v0
  handled ctx bumps args w r i v h =
      let (admitted, result) = >>-eq-ok _ _ h in
      subst (λ (r : Initialized). IsCanonical rt ctx.accounts r) (ok-injective result)
        (record {
          bound = record {
            market_version = refl;
            domain_version = refl;
            fee_bps = refl;
            fee_policy = refl;
            market_canonical = i.market_derived;
            admitted = refl;
            domain_canonical = i.domain_derived;
            engine_program = refl;
            engine_state = refl;
            engine_revision = refl;
          };
          ledger = record {
            version = refl;
            market_named = refl;
            mint_named = refl;
            canonical = i.fee_ledger_derived;
          };
          vault_a = v.a_canonical;
          vault_b = v.b_canonical;
          fee_vault = v.fee_canonical;
          nothing_a = refl;
          nothing_b = refl;
          nothing_fee = refl;
        })

  -- Initialization that succeeds writes a market, a domain and a fee ledger whose accounts and
  -- vaults are the canonical ones that the other instructions require, with nothing accounted,
  -- where the address search returns derived addresses.
  pub initialize_market_domain-IsCanonical :
      (ctx : Context InitializeMarketDomainV0) (args : InitializeMarketDomainV0Args) (w : World)
      (r : Initialized)
      → initialize_market_domain rt ctx args w ≡ ok r
      → IsCanonical rt ctx.accounts r
  unfolding initialize_market_domain check_initialize_market_domain_v0
  initialize_market_domain-IsCanonical ctx args w r h =
      let ((bumps, w3), checked, handle) = >>=-eq-ok _ _ h in
      let (sign, c) = >>-eq-ok _ _ checked in
      let (mut, c) = >>-eq-ok _ _ c in
      let ((m, d, f, w1), state, c) = >>=-eq-ok _ _ c in
      let ((a, b, v, w2), vaults, c) = >>=-eq-ok _ _ c in
      let (token, c) = >>-eq-ok _ _ c in
      let (system, c) = >>-eq-ok _ _ c in
      let bumps_eq = ap (λ p. p.0) (ok-injective c) in
      handled ctx bumps args w3 r
        (subst (λ (k : Bumps). IsInited ctx.accounts args k.market k.domain k.fee_ledger) bumps_eq
          (init_state→IsInited ctx.accounts args w m d f w1 state))
        (subst (λ (k : Bumps). IsVaulted ctx.accounts k.vault_a k.vault_b k.fee_vault) bumps_eq
          (init_vaults→IsVaulted ctx.accounts w1 a b v w2 vaults))
        handle
