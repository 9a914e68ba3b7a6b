-- ===== src/GeneratedCore/Fairness.antt =====
-- A successful execution of execute_engine_generated_probe_v0.rs: the engine chose the output, and
-- everything else is as the user and Core allow.
use programmable_solana.Base.{
  ℕ, ◌∙◌, some, List, [], ◌∷◌, ◌+◌, ◌≡◌, refl, ok, ok-injective, ok_or-eq-ok,
  checked_sub_u64-eq-some, arith,
}
use mathlib.Core.Path.{subst}
use programmable_solana.Wire.Generated.{EngineReceipt, decode_receipt}
use programmable_solana.Core.Error.{>>-eq-ok, >>=-eq-ok}
use programmable_solana.Core.Runtime.{Runtime, AccountInfo, Instruction, Context, World}
use programmable_solana.Core.Execute.{record_balances, check_execute_engine_probe_v0}
use programmable_solana.Core.Execute.Schema.{
  IsMarketEnvelope, check_execute_engine_probe_v0→IsMarketEnvelope,
}
use programmable_solana.Wire.Bytes.{le_bytes}
use programmable_solana.GeneratedCore.Program.{settlement_hash_domain_v0}
use programmable_solana.Core.Execute.Quotes.{IsQuote}
use programmable_solana.Core.Execute.Safety.{IsBalanced, IsKept, settle→IsBalanced}
use programmable_solana.Core.Execute.Fairness.{IsFairSwap, fair_of_phases}
use programmable_solana.GeneratedCore.{
  ExecuteEngineGeneratedProbeV0, ExecuteEngineGeneratedProbeV0Args, AcceptedEnginePlan, Generated,
  Limits, Prepared, with_output, plan_quote, plan_movement, settlement_hash, accept,
  settle_engine_generated_probe, execute_engine_generated_probe,
  handle_execute_engine_generated_probe_v0,
}
use programmable_solana.GeneratedCore.Safety.{
  IsAdmitted, IsLimited, IsPrepared, IsAnswered, admit_envelope→IsAdmitted, limit→IsLimited,
  prepare→IsPrepared, consult→IsAnswered,
}

-- The plan that the settlement carries out is the limits' fee with the receipt's output.
pub record IsAccepted (rt : Runtime) (accounts : ExecuteEngineGeneratedProbeV0) (l : Limits)
    (p : Prepared) (r : EngineReceipt) (plan : AcceptedEnginePlan) : Type 0 where
  pub output : plan.amount_out ≡ r.amount_out
  pub fee : plan.protocol_fee ≡ l.protocol_fee
  pub debit : plan.total_input_debit ≡ l.total_input_debit
  pub request : plan.request_hash ≡ p.request_hash
  pub capabilities : plan.capability_hash ≡ p.capability_hash
  pub payload : plan.payload_hash ≡ p.payload_hash
  pub settlement :
      plan.settlement_hash
      ≡ rt.hashv (
          settlement_hash_domain_v0
          ∷ le_bytes 32 p.request_hash
          ∷ le_bytes 8 r.amount_out
          ∷ le_bytes 8 l.protocol_fee
          ∷ le_bytes 8 r.state_sequence
          ∷ [])
  pub sequence : plan.engine_sequence ≡ r.state_sequence
  pub post_a : plan.post_accounted_a ≡ l.post_accounted_a
  pub post_b : plan.post_accounted_b + r.amount_out ≡ accounts.domain.content.accounted_b
  pub post_fee : plan.post_accounted_fee_a ≡ l.post_accounted_fee_a

-- The engine program of the accounts, called by Core, set a receipt, and the swap is a fair one of
-- that receipt's output.
pub record IsEngineSwap (rt : Runtime) (ctx : Context ExecuteEngineGeneratedProbeV0)
    (args : ExecuteEngineGeneratedProbeV0Args) (w : World) (g : Generated) : Type 0 where
  pub instruction : Instruction
  pub infos : List AccountInfo
  pub answered_world : World
  pub to_engine : instruction.program_id ≡ ctx.accounts.engine_program.key
  pub called : rt.invoke instruction infos w ≡ ok answered_world
  pub receipt_data : List ℕ
  pub returned : answered_world.return_data ≡ some (ctx.accounts.engine_program.key, receipt_data)
  pub receipt : EngineReceipt
  pub decoded : decode_receipt receipt_data ≡ ok receipt
  pub fair :
      IsFairSwap (with_output args receipt.amount_out) g.event.protocol_fee ctx.accounts g.accounts
  pub event_output : g.event.amount_out ≡ receipt.amount_out

-- The course of a successful execution: each phase with what it established, and the event.
pub record IsGenerated (rt : Runtime) (ctx : Context ExecuteEngineGeneratedProbeV0)
    (args : ExecuteEngineGeneratedProbeV0Args) (w : World) (g : Generated) : Type 0 where
  pub l : Limits
  pub p : Prepared
  pub r : EngineReceipt
  pub answered_world : World
  pub plan : AcceptedEnginePlan
  pub settled : ExecuteEngineGeneratedProbeV0
  pub admitted : IsAdmitted rt ctx.accounts args
  pub limited : IsLimited rt ctx.accounts args l
  pub prepared : IsPrepared rt ctx args l.protocol_fee p
  pub answered : IsAnswered rt ctx.accounts args p w r answered_world
  pub accepted : IsAccepted rt ctx.accounts l p r plan
  pub exact : IsBalanced (plan_movement args plan) ctx.accounts settled
  pub kept : IsKept ctx.accounts settled
  pub recorded : g.accounts ≡ record_balances (plan_quote plan) settled
  pub event_output : g.event.amount_out ≡ plan.amount_out
  pub event_fee : g.event.protocol_fee ≡ plan.protocol_fee
  pub event_request : g.event.request_hash ≡ plan.request_hash
  pub event_settlement : g.event.settlement_hash ≡ plan.settlement_hash

module _ (rt : Runtime) where
  accept→IsAccepted :
      (accounts : ExecuteEngineGeneratedProbeV0) (l : Limits) (p : Prepared) (r : EngineReceipt)
      (plan : AcceptedEnginePlan)
      → accept rt accounts l p r ≡ ok plan
      → IsAccepted rt accounts l p r plan
  unfolding accept settlement_hash
  accept→IsAccepted accounts l p r plan h =
      let (post_b, pb, h) = >>=-eq-ok _ _ h in
      let (count, counted, h) = >>=-eq-ok _ _ h in
      subst (λ (plan : AcceptedEnginePlan). IsAccepted rt accounts l p r plan) (ok-injective h)
        (record {
          output = refl;
          fee = refl;
          debit = refl;
          request = refl;
          capabilities = refl;
          payload = refl;
          settlement = refl;
          sequence = refl;
          post_a = refl;
          post_b = checked_sub_u64-eq-some _ _ (ok_or-eq-ok _ _ pb);
          post_fee = refl;
        })

  pub handle_execute_engine_generated_probe_v0→IsGenerated :
      (ctx : Context ExecuteEngineGeneratedProbeV0) (args : ExecuteEngineGeneratedProbeV0Args)
      (w : World) (g : Generated)
      → handle_execute_engine_generated_probe_v0 rt ctx args w ≡ ok g
      → IsGenerated rt ctx args w g
  unfolding handle_execute_engine_generated_probe_v0 settle_engine_generated_probe
  handle_execute_engine_generated_probe_v0→IsGenerated ctx args w g h =
      let (admitted, h) = >>-eq-ok _ _ h in
      let (l, limited, h) = >>=-eq-ok _ _ h in
      let (p, prepared, h) = >>=-eq-ok _ _ h in
      let ((r, w'), answered, h) = >>=-eq-ok _ _ h in
      let (plan, accepted, h) = >>=-eq-ok _ _ h in
      let ((settled, w''), done, h) = >>=-eq-ok _ _ h in
      let (exact, kept) =
        settle→IsBalanced rt ctx.accounts (plan_movement args plan) w' settled w'' done in
      subst (λ (g : Generated). IsGenerated rt ctx args w g) (ok-injective h)
        (record {
          l = l;
          p = p;
          r = r;
          answered_world = w';
          plan = plan;
          settled = settled;
          admitted = admit_envelope→IsAdmitted rt ctx.accounts args admitted;
          limited = limit→IsLimited rt ctx.accounts args l limited;
          prepared = prepare→IsPrepared rt ctx args l p prepared;
          answered = consult→IsAnswered rt ctx.accounts args p w r w' answered;
          accepted = accept→IsAccepted ctx.accounts l p r plan accepted;
          exact = exact;
          kept = kept;
          recorded = refl;
          event_output = refl;
          event_fee = refl;
          event_request = refl;
          event_settlement = refl;
        })

  -- The engine's output makes the limits a quote.
  phases-IsQuote :
      (accounts : ExecuteEngineGeneratedProbeV0) (args : ExecuteEngineGeneratedProbeV0Args)
      (l : Limits) (p : Prepared) (w w' : World) (r : EngineReceipt) (plan : AcceptedEnginePlan)
      → IsLimited rt accounts args l
      → IsAnswered rt accounts args p w r w'
      → IsAccepted rt accounts l p r plan
      → IsQuote rt accounts (with_output args plan.amount_out) (plan_quote plan)
  phases-IsQuote accounts args l p w w' r plan u a c = record {
    input_positive = u.input_positive;
    output_positive = omega (arith, c.output, a.output_positive);
    slot = u.slot;
    slot_read = u.slot_read;
    in_time = u.in_time;
    output_enough = omega (arith, c.output, a.output_enough);
    output_available = omega (arith, c.output, a.output_available);
    fee_computed = rw c.fee u.fee_computed;
    fee_allowed = omega (arith, c.fee, u.fee_allowed);
    debit_total = omega (arith, c.fee, c.debit, u.debit_total);
    debit_allowed = omega (arith, c.debit, u.debit_allowed);
    debit_fits = omega (arith, c.debit, u.debit_fits);
    post_a = omega (arith, c.post_a, u.post_a);
    post_a_fits = omega (arith, c.post_a, u.post_a_fits);
    post_b = omega (arith, c.output, c.post_b);
    post_fee = omega (arith, c.fee, c.post_fee, u.post_fee);
    post_fee_fits = omega (arith, c.post_fee, u.post_fee_fits);
  }

  pub handle_execute_engine_generated_probe_v0-IsFairSwap :
      (ctx : Context ExecuteEngineGeneratedProbeV0) (args : ExecuteEngineGeneratedProbeV0Args)
      (w : World) (g : Generated)
      → handle_execute_engine_generated_probe_v0 rt ctx args w ≡ ok g
      → IsFairSwap
          (with_output args g.event.amount_out)
          g.event.protocol_fee
          ctx.accounts
          g.accounts
  handle_execute_engine_generated_probe_v0-IsFairSwap ctx args w g h =
      let x = handle_execute_engine_generated_probe_v0→IsGenerated ctx args w g h in
      rw (x.recorded, x.event_fee, x.event_output)
        (fair_of_phases rt ctx.accounts (with_output args x.plan.amount_out) (plan_quote x.plan)
          x.settled x.admitted.canonical x.admitted.funded
          (phases-IsQuote ctx.accounts args x.l x.p w x.answered_world x.r x.plan x.limited
            x.answered x.accepted)
          x.exact x.kept)

  -- An execution of the generated-settlement core that succeeds called the engine program among
  -- its accounts, which set a receipt as return data, and is a fair swap of that receipt's
  -- output, whatever the engine and the token program do: the output is at least the user's
  -- minimum and accounted for, the fee is the least that covers thirty basis points, fee and
  -- total debit are within the user's limits, the five token accounts changed by exactly these
  -- amounts, and the accounted balances follow, fit 64 bits and stay covered by the vaults.
  pub handle_execute_engine_generated_probe_v0-IsEngineSwap :
      (ctx : Context ExecuteEngineGeneratedProbeV0) (args : ExecuteEngineGeneratedProbeV0Args)
      (w : World) (g : Generated)
      → handle_execute_engine_generated_probe_v0 rt ctx args w ≡ ok g
      → IsEngineSwap rt ctx args w g
  handle_execute_engine_generated_probe_v0-IsEngineSwap ctx args w g h =
      let x = handle_execute_engine_generated_probe_v0→IsGenerated ctx args w g h in
      let output : g.event.amount_out ≡ x.r.amount_out = x.event_output ∙ x.accepted.output in
      record {
        instruction = x.p.instruction;
        infos = x.p.infos;
        answered_world = x.answered_world;
        to_engine = x.prepared.to_engine;
        called = x.answered.called;
        receipt_data = x.answered.receipt_data;
        returned = x.answered.returned;
        receipt = x.r;
        decoded = x.answered.decoded;
        fair =
            subst
              (λ n. IsFairSwap (with_output args n) g.event.protocol_fee ctx.accounts g.accounts)
              output (handle_execute_engine_generated_probe_v0-IsFairSwap ctx args w g h);
        event_output = output;
      }

  -- A call of execute_engine_generated_probe that succeeds was made at the top level on
  -- distinct canonical accounts of one market and the engine program and state that it names,
  -- none but the user signing, the program's own id among the roles. The request binding names
  -- each account, amount, limit and balance and the digests of the payload and of the engine's
  -- state, the sysvar and the validated opaque accounts in order, as the user expects it; the
  -- engine's metas pass these on without signatures and with their validated write privileges.
  -- The receipt was set by the engine program in this call and names this request, the plan
  -- carries its output and sequence, the deltas are exact, and the event carries the request's
  -- digest and the settlement digest of request, output, fee and sequence.
  pub execute_engine_generated_probe→IsGenerated :
      (ctx : Context ExecuteEngineGeneratedProbeV0) (args : ExecuteEngineGeneratedProbeV0Args)
      (w : World) (g : Generated)
      → execute_engine_generated_probe rt ctx args w ≡ ok g
      → IsMarketEnvelope rt ctx.accounts × IsGenerated rt ctx args w g
  unfolding execute_engine_generated_probe
  execute_engine_generated_probe→IsGenerated ctx args w g h =
      let (schema, handled) = >>-eq-ok (check_execute_engine_probe_v0 rt ctx.accounts) _ h in
      (
        check_execute_engine_probe_v0→IsMarketEnvelope rt ctx.accounts schema,
        handle_execute_engine_generated_probe_v0→IsGenerated ctx args w g handled,
      )
