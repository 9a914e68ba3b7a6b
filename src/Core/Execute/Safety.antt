-- ===== src/Core/Execute/Safety.antt =====
-- The course of a successful execution, phase by phase.
use programmable_solana.Base.{◌+◌, ◌≡◌, ap, refl, ok, ok-injective}
use mathlib.Core.Path.{subst}
use programmable_solana.Core.Error.{>>-eq-ok, >>=-eq-ok}
use programmable_solana.Core.Runtime.{Runtime, Context, World}
use programmable_solana.Core.Validation.Tokens.{exact_debit→eq, exact_credit→eq}
use programmable_solana.Core.Execute.{
  ExecuteEngineProbeV0, ExecuteEngineProbeV0Args, Executed, Quote, Consulted, Movement, movement,
  settle, require_exact_deltas, record_balances, handle_execute_engine_probe_v0,
}
use programmable_solana.Core.Execute.Admission.{
  IsIdentified, IsFunded, admit_identities→IsIdentified, admit_tokens→IsFunded,
}
use programmable_solana.Core.Execute.Quotes.{IsQuote, quote→IsQuote}
use programmable_solana.Core.Execute.Engine.{IsConsulted, consult_engine→IsConsulted}

-- The five token balances after a settlement.
pub record IsBalanced (m : Movement) (before after : ExecuteEngineProbeV0) : Type 0 where
  pub source_debited :
      before.user_source_a.content.amount ≡ after.user_source_a.content.amount + m.total_input_debit
  pub vault_a_credited : after.vault_a.content.amount ≡ before.vault_a.content.amount + m.amount_in
  pub fee_vault_credited :
      after.fee_vault.content.amount ≡ before.fee_vault.content.amount + m.protocol_fee
  pub vault_b_debited : before.vault_b.content.amount ≡ after.vault_b.content.amount + m.amount_out
  pub destination_credited :
      after.user_destination_b.content.amount
      ≡ before.user_destination_b.content.amount + m.amount_out

-- The accounts that a settlement leaves alone.
pub record IsKept (before after : ExecuteEngineProbeV0) : Type 0 where
  pub market_kept : after.market ≡ before.market
  pub domain_kept : after.domain ≡ before.domain
  pub fee_ledger_kept : after.fee_ledger ≡ before.fee_ledger

pub require_exact_deltas→IsBalanced :
    (before after : ExecuteEngineProbeV0) (m : Movement)
    → require_exact_deltas before after m ≡ ok tt
    → IsBalanced m before after
unfolding require_exact_deltas
require_exact_deltas→IsBalanced before after m h =
    let (e1, h) = >>-eq-ok _ _ h in
    let (e2, h) = >>-eq-ok _ _ h in
    let (e3, h) = >>-eq-ok _ _ h in
    let (e4, e5) = >>-eq-ok _ _ h in
    record {
      source_debited = exact_debit→eq _ _ _ _ e1;
      vault_a_credited = exact_credit→eq _ _ _ _ e2;
      fee_vault_credited = exact_credit→eq _ _ _ _ e3;
      vault_b_debited = exact_debit→eq _ _ _ _ e4;
      destination_credited = exact_credit→eq _ _ _ _ e5;
    }

module _ (rt : Runtime) where
  pub settle→IsBalanced :
      (accounts : ExecuteEngineProbeV0) (m : Movement) (w : World) (after : ExecuteEngineProbeV0)
      (w' : World)
      → settle rt accounts m w ≡ ok (after, w')
      → IsBalanced m accounts after × IsKept accounts after
  unfolding settle
  settle→IsBalanced accounts m w after w' h =
      let (w1, t1, h) = >>=-eq-ok _ _ h in
      let (w2, t2, h) = >>=-eq-ok _ _ h in
      let (w3, t3, h) = >>=-eq-ok _ _ h in
      let (source, r1, h) = >>=-eq-ok _ _ h in
      let (destination, r2, h) = >>=-eq-ok _ _ h in
      let (vault_a, r3, h) = >>=-eq-ok _ _ h in
      let (vault_b, r4, h) = >>=-eq-ok _ _ h in
      let (fee_vault, r5, h) = >>=-eq-ok _ _ h in
      let (exact, h) = >>-eq-ok _ _ h in
      subst (λ (after : ExecuteEngineProbeV0). IsBalanced m accounts after × IsKept accounts after)
        (ap (λ p. p.0) (ok-injective h))
        (
          require_exact_deltas→IsBalanced accounts _ m exact,
          record { market_kept = refl; domain_kept = refl; fee_ledger_kept = refl },
        )

-- The course of a successful execution: each phase with what it established.
pub record IsExecuted (rt : Runtime) (ctx : Context ExecuteEngineProbeV0)
    (args : ExecuteEngineProbeV0Args) (w : World) (r : Executed) : Type 0 where
  pub q : Quote
  pub c : Consulted
  pub settled : ExecuteEngineProbeV0
  pub identified : IsIdentified rt ctx
  pub funded : IsFunded rt ctx.accounts
  pub quoted : IsQuote rt ctx.accounts args q
  pub consulted : IsConsulted rt ctx.accounts args q.protocol_fee w c
  pub exact : IsBalanced (movement args q) ctx.accounts settled
  pub kept : IsKept ctx.accounts settled
  pub recorded : r.accounts ≡ record_balances q settled
  pub event_fee : r.event.protocol_fee ≡ q.protocol_fee
  pub event_digest : r.event.plan_digest ≡ c.plan_digest

module _ (rt : Runtime) where
  pub handle_execute_engine_probe_v0→IsExecuted :
      (ctx : Context ExecuteEngineProbeV0) (args : ExecuteEngineProbeV0Args) (w : World)
      (r : Executed)
      → handle_execute_engine_probe_v0 rt ctx args w ≡ ok r
      → IsExecuted rt ctx args w r
  unfolding handle_execute_engine_probe_v0
  handle_execute_engine_probe_v0→IsExecuted ctx args w r h =
      let (identities, h) = >>-eq-ok _ _ h in
      let (tokens, h) = >>-eq-ok _ _ h in
      let (q, quoted, h) = >>=-eq-ok _ _ h in
      let (c, consulted, h) = >>=-eq-ok _ _ h in
      let ((settled, w'), done, h) = >>=-eq-ok _ _ h in
      let (exact, kept) =
        settle→IsBalanced rt ctx.accounts (movement args q) c.world settled w' done in
      subst (λ (r : Executed). IsExecuted rt ctx args w r) (ok-injective h)
        (record {
          q = q;
          c = c;
          settled = settled;
          identified = admit_identities→IsIdentified rt ctx identities;
          funded = admit_tokens→IsFunded rt ctx.accounts tokens;
          quoted = quote→IsQuote rt ctx.accounts args q quoted;
          consulted = consult_engine→IsConsulted rt ctx.accounts args q.protocol_fee w c consulted;
          exact = exact;
          kept = kept;
          recorded = refl;
          event_fee = refl;
          event_digest = refl;
        })
