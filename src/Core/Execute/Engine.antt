-- ===== src/Core/Execute/Engine.antt =====
-- What the call of the engine establishes: the receipt that Core accepts was set by the market's
-- engine and names the digest of this very plan.
use programmable_solana.Base.{
  refl, true, false, [], ◌∷◌, inl, inr, ℕ, ◌≡◌, ◌⊎◌, ◌∙◌, ap, sym, some, List, ok, ok-injective,
  ok_or-eq-ok, map_err-eq-ok,
}
use mathlib.Core.Path.{subst}
use programmable_solana.Wire.Probe.{
  PlanBinding, EngineRequest, EngineReceipt, compute_plan_hash, encode_evaluate_instruction,
  decode_receipt,
}
use programmable_solana.Wire.Probe.Plan
use programmable_solana.Wire.Layout.{FitAll}
use programmable_solana.Wire.Digest.{Collision}
use programmable_solana.Wire.Probe.Binding.{compute_plan_hash-injective}
use programmable_solana.Core.Error.{Failure, >>-eq-ok, >>=-eq-ok, require_eq→eq}
use programmable_solana.Core.Runtime.{Runtime, World, Instruction}
use programmable_solana.Core.Execute.{
  ExecuteEngineProbeV0, ExecuteEngineProbeV0Args, Consulted, plan_binding, engine_request,
  engine_instruction, read_receipt, consult_engine,
}
use programmable_solana.Core.Execute.Terms.{
  IsPlanOf, IsRequestOf, IsSameSwap, plan_binding-IsPlanOf, engine_request-IsRequestOf,
  plan_binding→IsSameSwap, plan_binding-IsValid, swap_terms,
}

-- The accounts of the engine's instruction: its state, writable, and the sysvar; neither signs.
pub record IsEngineCall (accounts : ExecuteEngineProbeV0) (payload : List ℕ)
    (instruction : Instruction) : Type 0 where
  pub to_engine : instruction.program_id ≡ accounts.engine_program.key
  pub carries : instruction.payload ≡ payload
  pub metas :
      instruction.accounts
      ≡ (record { pubkey = accounts.engine_state.key; is_signer = false; is_writable = true })
        ∷ (record {
          pubkey = accounts.instructions_sysvar.key;
          is_signer = false;
          is_writable = false;
        })
        ∷ []

-- The plan commits to the swap, the request asks for it under the plan's digest, and the receipt
-- that the called engine program set names that digest.
pub record IsConsulted (rt : Runtime) (accounts : ExecuteEngineProbeV0)
    (args : ExecuteEngineProbeV0Args) (fee : ℕ) (w : World) (c : Consulted) : Type 0 where
  pub plan : PlanBinding
  pub planned : IsPlanOf accounts args fee plan
  pub digest : compute_plan_hash {E = Failure} rt.hashv plan ≡ ok c.plan_digest
  pub request : EngineRequest
  pub requested : IsRequestOf accounts args fee c.plan_digest request
  pub payload : List ℕ
  pub encoded : encode_evaluate_instruction {E = Failure} request ≡ ok payload
  pub instruction : Instruction
  pub instructed : IsEngineCall accounts payload instruction
  pub called :
      rt.invoke instruction (accounts.engine_state ∷ accounts.instructions_sysvar ∷ []) w
      ≡ ok c.world
  pub receipt_data : List ℕ
  pub returned : c.world.return_data ≡ some (accounts.engine_program.key, receipt_data)
  pub decoded : decode_receipt receipt_data ≡ ok c.receipt
  pub authenticated : c.receipt.plan_hash ≡ c.plan_digest

engine_instruction-IsEngineCall :
    (accounts : ExecuteEngineProbeV0) (payload : List ℕ)
    → IsEngineCall accounts payload (engine_instruction accounts payload)
unfolding engine_instruction
engine_instruction-IsEngineCall accounts payload = record {
  to_engine = refl;
  carries = refl;
  metas = refl;
}

read_receipt-eq-ok :
    (receipt_data : List ℕ) {receipt : EngineReceipt}
    → read_receipt receipt_data ≡ ok receipt
    → decode_receipt receipt_data ≡ ok receipt
unfolding read_receipt
read_receipt-eq-ok receipt_data h = map_err-eq-ok _ (decode_receipt receipt_data) h

module _ (rt : Runtime) where
  consult_engine-course :
      (accounts : ExecuteEngineProbeV0) (args : ExecuteEngineProbeV0Args) (fee : ℕ) (w : World)
      (c : Consulted)
      → consult_engine rt accounts args fee w ≡ ok c
      → (x : IsConsulted rt accounts args fee w c) × (x.plan ≡ plan_binding accounts args fee)
  unfolding consult_engine
  consult_engine-course accounts args fee w c h =
      let (digest, hashed, h) = >>=-eq-ok _ _ h in
      let (payload, encoded, h) = >>=-eq-ok _ _ h in
      let (w', called, h) = >>=-eq-ok _ _ h in
      let ((setter, receipt_data), returned, h) = >>=-eq-ok _ _ h in
      let (set, h) = >>-eq-ok _ _ h in
      let (receipt, decoded, h) = >>=-eq-ok _ _ h in
      let (authenticated, h) = >>-eq-ok _ _ h in
      subst
        (λ (c : Consulted).
          (x : IsConsulted rt accounts args fee w c) × (x.plan ≡ plan_binding accounts args fee))
        (ok-injective h)
        (
          record {
            plan = plan_binding accounts args fee;
            planned = plan_binding-IsPlanOf accounts args fee;
            digest = hashed;
            request = engine_request accounts args fee digest;
            requested = engine_request-IsRequestOf accounts args fee digest;
            payload = payload;
            encoded = encoded;
            instruction = engine_instruction accounts payload;
            instructed = engine_instruction-IsEngineCall accounts payload;
            called = called;
            receipt_data = receipt_data;
            returned =
                ok_or-eq-ok _ _ returned
                ∙ ap (λ k. some (k, receipt_data)) (require_eq→eq _ _ _ set);
            decoded = read_receipt-eq-ok receipt_data decoded;
            authenticated = require_eq→eq _ _ _ authenticated;
          },
          refl,
        )

  -- An answer that Core accepts came back from a call of the engine program among the accounts,
  -- with its state writable, the sysvar and no signature, which carries a request for exactly
  -- this market, domain, revision, amounts, fee and accounted balances under the digest of a
  -- plan that names each account, amount, limit and balance of the swap; it was set as return
  -- data by that program, decodes as a receipt, and names that digest.
  pub consult_engine→IsConsulted :
      (accounts : ExecuteEngineProbeV0) (args : ExecuteEngineProbeV0Args) (fee : ℕ) (w : World)
      (c : Consulted)
      → consult_engine rt accounts args fee w ≡ ok c
      → IsConsulted rt accounts args fee w c
  consult_engine→IsConsulted accounts args fee w c h =
      (consult_engine-course accounts args fee w c h).0

  -- A receipt authorizes one swap: if the receipts of two accepted answers name the same digest
  -- and the terms of both swaps fit their types, the two swaps have the same accounts,
  -- revisions, amounts, fee, limits, expiry and accounted balances, or they exhibit a collision
  -- of the hash function.
  pub receipt_authorizes_one_plan :
      (accounts accounts' : ExecuteEngineProbeV0) (args args' : ExecuteEngineProbeV0Args)
      (fee fee' : ℕ) (w w' : World) (c c' : Consulted)
      → FitAll Plan.widths (swap_terms accounts args fee)
      → FitAll Plan.widths (swap_terms accounts' args' fee')
      → consult_engine rt accounts args fee w ≡ ok c
      → consult_engine rt accounts' args' fee' w' ≡ ok c'
      → c.receipt.plan_hash ≡ c'.receipt.plan_hash
      → IsSameSwap accounts accounts' args args' fee fee' ⊎ Collision rt.hashv
  receipt_authorizes_one_plan accounts accounts' args args' fee fee' w w' c c' v v' h h' same =
      let (x, planned) = consult_engine-course accounts args fee w c h in
      let (y, planned') = consult_engine-course accounts' args' fee' w' c' h' in
      let digests =
        x.digest ∙ ap ok (sym x.authenticated ∙ same ∙ y.authenticated) ∙ sym y.digest in
      elim (compute_plan_hash-injective rt.hashv x.plan y.plan
        (subst Plan.IsValid (sym planned) (plan_binding-IsValid accounts args fee v))
        (subst Plan.IsValid (sym planned') (plan_binding-IsValid accounts' args' fee' v'))
        digests) [
          | inl plans ↦ inl (
              plan_binding→IsSameSwap accounts accounts' args args' fee fee'
                (sym planned ∙ plans ∙ planned'))
          | inr collision ↦ inr collision
        ]
