-- ===== src/Core/Deposit/Safety.antt =====
-- What a deposit has checked when it transfers, and what a successful one has done, whatever the
-- token program does.
use programmable_solana.Base.{
  ℕ, ◌+◌, ◌≤◌, ◌<◌, ◌≡◌, ◌∙◌, ap, refl, sym, ok, if◌then◌else◌, ◌==◌, IsU64, tests,
  checked_add_u64-eq-some, ok-injective, ok_or-eq-ok, arith,
}
use mathlib.Core.Path.{subst}
use programmable_solana.Core.Error.{>>-eq-ok, >>=-eq-ok, require_core-eq-ok, require_eq→eq}
use programmable_solana.Core.State.{MarketV0, DomainV0}
use programmable_solana.Core.Runtime.{Runtime, Context, World}
use programmable_solana.Core.Validation.{canonical_domain_vault}
use programmable_solana.Core.Validation.Roles.{NoRepeats, ensure_distinct_roles→NoRepeats}
use programmable_solana.Core.Validation.Identity.{IsBound, validate_market_domain→IsBound}
use programmable_solana.Core.Validation.Tokens.{
  IsPlainMint, IsProtected, validate_classic_mint→IsPlainMint,
  validate_protected_token_account→IsProtected, require_raw_covers_accounted-eq-ok, exact_debit→eq,
  exact_credit→eq,
}
use programmable_solana.Core.Deposit.{
  DepositV0, DepositV0Args, Deposited, Asset, select_asset, store_asset, deposit_roles,
  admit_deposit, handle_deposit_v0,
}

-- The asset that an index below 2 names.
abbrev pub mint_of : ℕ → MarketV0 → ℕ
mint_of index market = if index == 0 then market.mint_a else market.mint_b

abbrev pub bump_of : ℕ → DomainV0 → ℕ
bump_of index domain = if index == 0 then domain.vault_a_bump else domain.vault_b_bump

abbrev pub accounted_of : ℕ → DomainV0 → ℕ
accounted_of index domain = if index == 0 then domain.accounted_a else domain.accounted_b

-- The domain with one accounted balance raised and all else kept.
abbrev pub credited : ℕ → ℕ → DomainV0 → DomainV0
credited index amount domain =
    if index == 0
    then record domain { accounted_a = domain.accounted_a + amount }
    else record domain { accounted_b = domain.accounted_b + amount }

select_asset-eq-ok :
    (index : ℕ) (market : MarketV0) (domain : DomainV0) (asset : Asset)
    → select_asset index market domain ≡ ok asset
    → (index < 2)
      × (asset.expected_mint ≡ mint_of index market)
      × (asset.vault_bump ≡ bump_of index domain)
      × (asset.accounted_before ≡ accounted_of index domain)
unfolding select_asset
select_asset-eq-ok index market domain asset h = ground arith

store_asset-eq-ok :
    (index amount after : ℕ) (domain domain' : DomainV0)
    → after ≡ accounted_of index domain + amount
    → store_asset index after domain ≡ ok domain'
    → domain' ≡ credited index amount domain
unfolding store_asset
store_asset-eq-ok index amount after domain domain' e h = ground arith

-- What holds of the accounts when a deposit comes to its transfer.
pub record IsAdmitted (rt : Runtime) (ctx : Context DepositV0) (args : DepositV0Args)
    (before after : ℕ) : Type 0 where
  pub positive : 0 < args.amount
  pub index_known : args.asset_index < 2
  pub distinct : NoRepeats (deposit_roles rt ctx.accounts)
  pub bound :
      IsBound rt ctx.accounts.market.info.key ctx.accounts.market.content
        ctx.accounts.domain.info.key ctx.accounts.domain.content
  pub classic : IsPlainMint rt ctx.accounts.mint.info.key ctx.accounts.mint.content
  pub mint_known : ctx.accounts.mint.info.key ≡ mint_of args.asset_index ctx.accounts.market.content
  pub vault_canonical :
      canonical_domain_vault rt ctx.accounts.domain.info.key args.asset_index
        (bump_of args.asset_index ctx.accounts.domain.content)
      ≡ ok ctx.accounts.domain_vault.info.key
  pub source_protected :
      IsProtected ctx.accounts.provider_source.content
        (mint_of args.asset_index ctx.accounts.market.content)
        ctx.accounts.provider.key
  pub vault_protected :
      IsProtected ctx.accounts.domain_vault.content
        (mint_of args.asset_index ctx.accounts.market.content)
        ctx.accounts.domain.info.key
  pub covered : before ≤ ctx.accounts.domain_vault.content.amount
  pub before_accounted : before ≡ accounted_of args.asset_index ctx.accounts.domain.content
  pub after_accounted : after ≡ before + args.amount
  pub after_fits : IsU64 after

module _ (rt : Runtime) (ctx : Context DepositV0) (args : DepositV0Args) where
  pub admit_deposit→IsAdmitted :
      (before after : ℕ)
      → admit_deposit rt ctx args ≡ ok (before, after)
      → IsAdmitted rt ctx args before after
  unfolding admit_deposit
  admit_deposit→IsAdmitted before after h =
      let (none_left, h) = >>-eq-ok _ _ h in
      let (positive, h) = >>-eq-ok _ _ h in
      let (roles, h) = >>-eq-ok _ _ h in
      let (bound, h) = >>-eq-ok _ _ h in
      let (classic, h) = >>-eq-ok _ _ h in
      let (readonly, h) = >>-eq-ok _ _ h in
      let (asset, selected, h) = >>=-eq-ok _ _ h in
      let (mint, h) = >>-eq-ok _ _ h in
      let (vault, derived, h) = >>=-eq-ok _ _ h in
      let (canonical, h) = >>-eq-ok _ _ h in
      let (source, h) = >>-eq-ok _ _ h in
      let (protected, h) = >>-eq-ok _ _ h in
      let (raw, h) = >>-eq-ok _ _ h in
      let (sum, added, h) = >>=-eq-ok _ _ h in
      let (known, mint_eq, bump_eq, accounted_eq) = select_asset-eq-ok _ _ _ asset selected in
      let (total, fits) = checked_add_u64-eq-some _ _ (ok_or-eq-ok _ _ added) in
      let result = ok-injective h in
      let before_eq : asset.accounted_before ≡ before = ap (λ p. p.0) result in
      let after_eq : sum ≡ after = ap (λ p. p.1) result in
      record {
        positive = omega (tests, require_core-eq-ok _ _ positive);
        index_known = known;
        distinct = ensure_distinct_roles→NoRepeats _ roles;
        bound = validate_market_domain→IsBound rt _ _ _ _ bound;
        classic = validate_classic_mint→IsPlainMint rt _ _ classic;
        mint_known = require_eq→eq _ _ _ mint ∙ mint_eq;
        vault_canonical =
            ap (canonical_domain_vault rt ctx.accounts.domain.info.key args.asset_index)
              (sym bump_eq)
            ∙ derived
            ∙ ap ok (sym (require_eq→eq _ _ _ canonical));
        source_protected =
            rw (← mint_eq) (validate_protected_token_account→IsProtected _ _ _ source);
        vault_protected =
            rw (← mint_eq) (validate_protected_token_account→IsProtected _ _ _ protected);
        covered = rw (← before_eq) (require_raw_covers_accounted-eq-ok _ _ raw);
        before_accounted = sym before_eq ∙ accounted_eq;
        after_accounted = omega arith;
        after_fits = omega arith;
      }

-- What a deposit of `args.amount` has done to the accounts `before` it left them as `after`.
pub record IsExactDeposit (args : DepositV0Args) (before after : DepositV0) : Type 0 where
  pub source_debited :
      before.provider_source.content.amount ≡ after.provider_source.content.amount + args.amount
  pub vault_credited :
      after.domain_vault.content.amount ≡ before.domain_vault.content.amount + args.amount
  pub domain_credited :
      after.domain.content ≡ credited args.asset_index args.amount before.domain.content
  pub market_kept : after.market ≡ before.market
  pub accounted_fits : IsU64 (accounted_of args.asset_index after.domain.content)
  pub still_covered :
      accounted_of args.asset_index after.domain.content ≤ after.domain_vault.content.amount

accounted_of-credited :
    (index amount : ℕ) (domain : DomainV0)
    → accounted_of index (credited index amount domain) ≡ accounted_of index domain + amount
accounted_of-credited index amount domain = ground arith

module _ (rt : Runtime) (ctx : Context DepositV0) (args : DepositV0Args) (w : World)
    (r : Deposited) where
  -- A deposit that succeeds has moved exactly the amount from the provider's account to the
  -- vault, has raised the accounted balance of that asset by the amount and nothing else of the
  -- domain, keeps the market, fits 64 bits, and leaves the vault covering the accounted
  -- balance, whatever the token program does.
  pub handle_deposit_v0-IsExactDeposit :
      handle_deposit_v0 rt ctx args w ≡ ok r → IsExactDeposit args ctx.accounts r.accounts
  unfolding handle_deposit_v0
  handle_deposit_v0-IsExactDeposit h =
      let ((before, after), admitted, h) = >>=-eq-ok _ _ h in
      let (w', moved, h) = >>=-eq-ok _ _ h in
      let (source, s, h) = >>=-eq-ok _ _ h in
      let (vault, v, h) = >>=-eq-ok _ _ h in
      let (debit, h) = >>-eq-ok _ _ h in
      let (credit, h) = >>-eq-ok _ _ h in
      let (domain, stored, h) = >>=-eq-ok _ _ h in
      let facts = admit_deposit→IsAdmitted rt ctx args before after admitted in
      let raised =
        store_asset-eq-ok args.asset_index args.amount after _ domain
          (omega (arith, facts.before_accounted, facts.after_accounted)) stored in
      let grown = exact_credit→eq _ _ _ _ credit in
      let accounted_after : accounted_of args.asset_index domain ≡ after =
        rw (raised, accounted_of-credited args.asset_index args.amount ctx.accounts.domain.content)
          (omega (arith, facts.before_accounted, facts.after_accounted)) in
      subst (λ (r : Deposited). IsExactDeposit args ctx.accounts r.accounts) (ok-injective h)
        (record {
          source_debited = exact_debit→eq _ _ _ _ debit;
          vault_credited = grown;
          domain_credited = raised;
          market_kept = refl;
          accounted_fits = rw accounted_after facts.after_fits;
          still_covered = rw accounted_after (omega (arith, facts.covered, facts.after_accounted));
        })

  -- A deposit that succeeds was of a positive amount of one of the two assets, in distinct
  -- roles, on a canonical market and domain, with an accepted mint of the asset, the canonical
  -- vault, protected token accounts, and a vault that covered the accounted balance before.
  pub handle_deposit_v0→IsAdmitted :
      handle_deposit_v0 rt ctx args w ≡ ok r
      → (before : ℕ) × (after : ℕ) × IsAdmitted rt ctx args before after
  unfolding handle_deposit_v0
  handle_deposit_v0→IsAdmitted h =
      let ((before, after), admitted, rest) = >>=-eq-ok _ _ h in
      (before, after, admit_deposit→IsAdmitted rt ctx args before after admitted)
