-- ===== src/GeneratedCore/Safety.antt =====
-- What a successful execution of execute_engine_generated_probe_v0.rs has done, phase by phase, and
-- that it is a fair swap of the output that the engine chose.
use programmable_solana.Base.{
  All, [], ◌∷◌, false, ℕ, ◌+◌, ◌≤◌, ◌<◌, ◌≡◌, ◌∙◌, ap, true, some, List, ok, IsU64, ok-injective,
  ok_or-eq-ok, map_err-eq-ok, refl, ltb→lt, leb→le, ==_eq, length, checked_add_u64-eq-some, arith,
}
use mathlib.Core.Path.{subst}
use programmable_solana.Wire.Opaque.{CapabilityDescriptor}
use programmable_solana.Wire.Generated.{
  RequestBinding, EngineRequest, EngineReceipt, new_engine_request, encode_evaluate_instruction,
  decode_receipt, generated_capability_hash, generated_payload_hash, compute_request_hash,
}
use programmable_solana.Core.Error.{
  Failure, >>-eq-ok, >>=-eq-ok, require_core-eq-ok, require_experiment-eq-ok, require_eq→eq,
}
use programmable_solana.Core.Runtime.{Runtime, AccountInfo, AccountMeta, Context, World}
use programmable_solana.Core.Math.{fee_ceil}
use programmable_solana.Core.Validation.Roles.{NoRepeats, ensure_distinct_roles→NoRepeats}
use programmable_solana.Core.Execute.Admission.{
  IsReadonly, peel_not, not-true, no_extra_writable→IsReadonly, IsCanonical, IsFunded,
  admit_canonical→IsCanonical, admit_tokens→IsFunded,
}
use programmable_solana.GeneratedCore.{
  ExecuteEngineGeneratedProbeV0, ExecuteEngineGeneratedProbeV0Args, Limits, Prepared,
  fixed_envelope_keys, engine_unsigned, envelope_unsigned, admit_envelope, limit, prepare,
  engine_instruction, consult, request_binding, opaque_metas, capability_descriptors,
}
use programmable_solana.GeneratedCore.Terms.{
  IsBindingOf, IsMetaOf, request_binding-IsBindingOf, opaque_metas-IsMetaOf,
}
use programmable_solana.GeneratedCore.Opaque.{validate_opaque_payload}
use programmable_solana.GeneratedCore.Capabilities.{
  IsForwardable, Each, validate_opaque_capabilities→Each,
}

-- No account but the user signs.
abbrev pub IsUnsigned : ExecuteEngineGeneratedProbeV0 → Type 0
IsUnsigned accounts =
    All (λ (info : AccountInfo). info.is_signer ≡ false)
      (accounts.engine_program ∷ accounts.engine_state ∷ accounts.instructions_sysvar
        ∷ accounts.market.info ∷ accounts.domain.info ∷ accounts.fee_ledger.info
        ∷ accounts.mint_a.info ∷ accounts.mint_b.info ∷ accounts.user_source_a.info
        ∷ accounts.user_destination_b.info ∷ accounts.vault_a.info ∷ accounts.vault_b.info
        ∷ accounts.fee_vault.info ∷ accounts.token_program ∷ [])

tests→IsUnsigned :
    (accounts : ExecuteEngineGeneratedProbeV0)
    → engine_unsigned accounts ≡ true
    → envelope_unsigned accounts ≡ true
    → IsUnsigned accounts
tests→IsUnsigned accounts e h =
    let (program, e) = peel_not _ _ e in
    let (state, sysvar) = peel_not _ _ e in
    let (market, h) = peel_not _ _ h in
    let (domain, h) = peel_not _ _ h in
    let (ledger, h) = peel_not _ _ h in
    let (mint_a, h) = peel_not _ _ h in
    let (mint_b, h) = peel_not _ _ h in
    let (source, h) = peel_not _ _ h in
    let (destination, h) = peel_not _ _ h in
    let (vault_a, h) = peel_not _ _ h in
    let (vault_b, h) = peel_not _ _ h in
    let (fee_vault, token) = peel_not _ _ h in
    (
      program,
      (
        state,
        (
          not-true _ sysvar,
          (
            market,
            (
              domain,
              (
                ledger,
                (
                  mint_a,
                  (
                    mint_b,
                    (
                      source,
                      (destination, (vault_a, (vault_b, (fee_vault, (not-true _ token, tt))))),
                    ),
                  ),
                ),
              ),
            ),
          ),
        ),
      ),
    )

-- A direct call on distinct canonical accounts, the program's own id among the roles, of which none
-- but the user signs.
pub record IsAdmitted (rt : Runtime) (accounts : ExecuteEngineGeneratedProbeV0)
    (args : ExecuteEngineGeneratedProbeV0Args) : Type 0 where
  pub direct : rt.stack_height ≡ 1
  pub payload_short : length args.opaque_payload ≤ 128
  pub distinct : NoRepeats (
      accounts.user.key ∷ accounts.market.info.key ∷ accounts.domain.info.key
      ∷ accounts.fee_ledger.info.key ∷ accounts.mint_a.info.key ∷ accounts.mint_b.info.key
      ∷ accounts.user_source_a.info.key ∷ accounts.user_destination_b.info.key
      ∷ accounts.vault_a.info.key ∷ accounts.vault_b.info.key ∷ accounts.fee_vault.info.key
      ∷ accounts.engine_program.key ∷ accounts.engine_state.key ∷ accounts.instructions_sysvar.key
      ∷ accounts.token_program.key ∷ rt.program.id ∷ [])
  pub canonical : IsCanonical rt accounts
  pub unsigned : IsUnsigned accounts
  pub readonly : IsReadonly accounts
  pub engine_state_writable : accounts.engine_state.is_writable ≡ true
  pub funded : IsFunded rt accounts

pub record IsLimited (rt : Runtime) (accounts : ExecuteEngineGeneratedProbeV0)
    (args : ExecuteEngineGeneratedProbeV0Args) (l : Limits) : Type 0 where
  pub input_positive : 0 < args.amount_in
  pub slot : ℕ
  pub slot_read : rt.clock_slot ≡ ok slot
  pub in_time : slot ≤ args.expires_at_slot
  pub fee_computed : fee_ceil args.amount_in accounts.market.content.fee_bps ≡ ok l.protocol_fee
  pub fee_allowed : l.protocol_fee ≤ args.max_protocol_fee
  pub debit_total : l.total_input_debit ≡ args.amount_in + l.protocol_fee
  pub debit_fits : IsU64 l.total_input_debit
  pub debit_allowed : l.total_input_debit ≤ args.max_total_input_debit
  pub source_covers : l.total_input_debit ≤ accounts.user_source_a.content.amount
  pub output_possible : args.min_output_credit ≤ accounts.domain.content.accounted_b
  pub post_a : l.post_accounted_a ≡ accounts.domain.content.accounted_a + args.amount_in
  pub post_a_fits : IsU64 l.post_accounted_a
  pub post_fee :
      l.post_accounted_fee_a ≡ accounts.fee_ledger.content.accounted_fee_a + l.protocol_fee
  pub post_fee_fits : IsU64 l.post_accounted_fee_a

-- The request commits to the engine, its state, the sysvar and the validated opaque accounts in
-- their order, under the hash that the user expects, and to every limit of the user.
pub record IsPrepared (rt : Runtime) (ctx : Context ExecuteEngineGeneratedProbeV0)
    (args : ExecuteEngineGeneratedProbeV0Args) (fee : ℕ) (p : Prepared) : Type 0 where
  pub opaque : List CapabilityDescriptor
  pub few : length ctx.remaining_accounts ≤ 8
  pub validated :
      Each
        (IsForwardable rt (fixed_envelope_keys rt ctx.accounts) ctx.remaining_accounts)
        ctx.remaining_accounts
        opaque
  pub capabilities_hashed :
      generated_capability_hash rt.hashv ctx.accounts.engine_program.key (
        (record {
          key = ctx.accounts.engine_state.key;
          owner = ctx.accounts.engine_state.owner;
          is_writable = true;
          is_signer = false;
          is_executable = false;
        })
        ∷ (record {
          key = ctx.accounts.instructions_sysvar.key;
          owner = ctx.accounts.instructions_sysvar.owner;
          is_writable = false;
          is_signer = false;
          is_executable = false;
        })
        ∷ opaque)
      ≡ ok p.capability_hash
  pub capabilities_expected : p.capability_hash ≡ args.expected_capability_hash
  pub payload_hashed : generated_payload_hash rt.hashv args.opaque_payload ≡ ok p.payload_hash
  pub binding : RequestBinding
  pub bound : IsBindingOf rt ctx.accounts args fee p.capability_hash p.payload_hash binding
  pub request_hashed : compute_request_hash {E = Failure} rt.hashv binding ≡ ok p.request_hash
  pub request : EngineRequest
  pub built :
      new_engine_request p.request_hash ctx.accounts.market.info.key ctx.accounts.domain.info.key
        ctx.accounts.market.content.engine_revision args.amount_in
        ctx.accounts.domain.content.accounted_a ctx.accounts.domain.content.accounted_b
        p.opaque_account_count p.capability_hash args.opaque_payload
      ≡ ok request
  pub encoded : encode_evaluate_instruction request ≡ ok p.instruction.payload
  pub to_engine : p.instruction.program_id ≡ ctx.accounts.engine_program.key
  pub opaque_passed : List AccountMeta
  pub passed_as_described : Each IsMetaOf opaque opaque_passed
  pub metas :
      p.instruction.accounts
      ≡ (record { pubkey = ctx.accounts.engine_state.key; is_signer = false; is_writable = true })
        ∷ (record {
          pubkey = ctx.accounts.instructions_sysvar.key;
          is_signer = false;
          is_writable = false;
        })
        ∷ opaque_passed

-- The receipt was set by the engine in this call, names this request, and its output is within the
-- user's minimum and the accounted liquidity.
pub record IsAnswered (rt : Runtime) (accounts : ExecuteEngineGeneratedProbeV0)
    (args : ExecuteEngineGeneratedProbeV0Args) (p : Prepared) (w : World) (r : EngineReceipt)
    (w' : World) : Type 0 where
  pub called : rt.invoke p.instruction p.infos w ≡ ok w'
  pub receipt_data : List ℕ
  pub returned : w'.return_data ≡ some (accounts.engine_program.key, receipt_data)
  pub decoded : decode_receipt receipt_data ≡ ok r
  pub authenticated : r.request_hash ≡ p.request_hash
  pub output_positive : 0 < r.amount_out
  pub output_enough : args.min_output_credit ≤ r.amount_out
  pub output_available : r.amount_out ≤ accounts.domain.content.accounted_b

module _ (rt : Runtime) where
  pub admit_envelope→IsAdmitted :
      (accounts : ExecuteEngineGeneratedProbeV0) (args : ExecuteEngineGeneratedProbeV0Args)
      → admit_envelope rt accounts args ≡ ok tt
      → IsAdmitted rt accounts args
  unfolding admit_envelope validate_opaque_payload
  admit_envelope→IsAdmitted accounts args h =
      let (direct, h) = >>-eq-ok _ _ h in
      let (short, h) = >>-eq-ok _ _ h in
      let (roles, h) = >>-eq-ok _ _ h in
      let (canonical, h) = >>-eq-ok _ _ h in
      let (engine, h) = >>-eq-ok _ _ h in
      let (envelope, h) = >>-eq-ok _ _ h in
      let (writable, h) = >>-eq-ok _ _ h in
      let (readonly, tokens) = >>-eq-ok _ _ h in
      record {
        direct = require_eq→eq _ _ _ direct;
        payload_short = leb→le _ _ (require_experiment-eq-ok _ _ short);
        distinct = ensure_distinct_roles→NoRepeats _ roles;
        canonical = admit_canonical→IsCanonical rt accounts canonical;
        unsigned =
            tests→IsUnsigned accounts (require_experiment-eq-ok _ _ engine)
              (require_experiment-eq-ok _ _ envelope);
        readonly = no_extra_writable→IsReadonly accounts (require_core-eq-ok _ _ readonly);
        engine_state_writable = require_core-eq-ok _ _ writable;
        funded = admit_tokens→IsFunded rt accounts tokens;
      }

  pub limit→IsLimited :
      (accounts : ExecuteEngineGeneratedProbeV0) (args : ExecuteEngineGeneratedProbeV0Args)
      (l : Limits)
      → limit rt accounts args ≡ ok l
      → IsLimited rt accounts args l
  unfolding limit
  limit→IsLimited accounts args l h =
      let (positive, h) = >>-eq-ok _ _ h in
      let (slot, read, h) = >>=-eq-ok _ _ h in
      let (in_time, h) = >>-eq-ok _ _ h in
      let (fee, computed, h) = >>=-eq-ok _ _ h in
      let (allowed, h) = >>-eq-ok _ _ h in
      let (total, t, h) = >>=-eq-ok _ _ h in
      let (limited, h) = >>-eq-ok _ _ h in
      let (covers, h) = >>-eq-ok _ _ h in
      let (possible, h) = >>-eq-ok _ _ h in
      let (post_a, pa, h) = >>=-eq-ok _ _ h in
      let (post_fee, pf, h) = >>=-eq-ok _ _ h in
      let (total_eq, total_fits) = checked_add_u64-eq-some _ _ (ok_or-eq-ok _ _ t) in
      let (a_eq, a_fits) = checked_add_u64-eq-some _ _ (ok_or-eq-ok _ _ pa) in
      let (fee_eq, fee_fits) = checked_add_u64-eq-some _ _ (ok_or-eq-ok _ _ pf) in
      subst (λ (l : Limits). IsLimited rt accounts args l) (ok-injective h)
        (record {
          input_positive = ltb→lt _ _ (require_core-eq-ok _ _ positive);
          slot = slot;
          slot_read = read;
          in_time = leb→le _ _ (require_core-eq-ok _ _ in_time);
          fee_computed = computed;
          fee_allowed = leb→le _ _ (require_core-eq-ok _ _ allowed);
          debit_total = total_eq;
          debit_fits = omega arith;
          debit_allowed = leb→le _ _ (require_core-eq-ok _ _ limited);
          source_covers = leb→le _ _ (require_experiment-eq-ok _ _ covers);
          output_possible = leb→le _ _ (require_core-eq-ok _ _ possible);
          post_a = a_eq;
          post_a_fits = omega arith;
          post_fee = fee_eq;
          post_fee_fits = omega arith;
        })

  pub prepare→IsPrepared :
      (ctx : Context ExecuteEngineGeneratedProbeV0) (args : ExecuteEngineGeneratedProbeV0Args)
      (l : Limits) (p : Prepared)
      → prepare rt ctx args l ≡ ok p
      → IsPrepared rt ctx args l.protocol_fee p
  unfolding prepare engine_instruction capability_descriptors
  prepare→IsPrepared ctx args l p h =
      let (opaque, validated, h) = >>=-eq-ok _ _ h in
      let (capability_hash, capabilities, h) = >>=-eq-ok _ _ h in
      let (expected, h) = >>-eq-ok _ _ h in
      let (payload_hash, payload, h) = >>=-eq-ok _ _ h in
      let (request_hash, request, h) = >>=-eq-ok _ _ h in
      let (count, counted, h) = >>=-eq-ok _ _ h in
      let (engine_request, built, h) = >>=-eq-ok _ _ h in
      let (bytes, encoded, h) = >>=-eq-ok _ _ h in
      let (infos, found, h) = >>=-eq-ok _ _ h in
      let (few, each) = validate_opaque_capabilities→Each rt _ _ opaque validated in
      subst (λ (p : Prepared). IsPrepared rt ctx args l.protocol_fee p) (ok-injective h)
        (record {
          opaque = opaque;
          few = few;
          validated = each;
          capabilities_hashed = map_err-eq-ok _ _ capabilities;
          capabilities_expected = ==_eq _ _ (require_experiment-eq-ok _ _ expected);
          payload_hashed = map_err-eq-ok _ _ payload;
          binding =
              request_binding rt ctx.accounts args l.protocol_fee capability_hash payload_hash;
          bound =
              request_binding-IsBindingOf rt ctx.accounts args l.protocol_fee capability_hash
                payload_hash;
          request_hashed = request;
          request = engine_request;
          built = map_err-eq-ok _ _ built;
          encoded = map_err-eq-ok _ _ encoded;
          to_engine = refl;
          opaque_passed = opaque_metas opaque;
          passed_as_described = opaque_metas-IsMetaOf opaque;
          metas = refl;
        })

  pub consult→IsAnswered :
      (accounts : ExecuteEngineGeneratedProbeV0) (args : ExecuteEngineGeneratedProbeV0Args)
      (p : Prepared) (w : World) (r : EngineReceipt) (w' : World)
      → consult rt accounts args p w ≡ ok (r, w')
      → IsAnswered rt accounts args p w r w'
  unfolding consult
  consult→IsAnswered accounts args p w r w' h =
      let (after, called, h) = >>=-eq-ok _ _ h in
      let ((setter, receipt_data), returned, h) = >>=-eq-ok _ _ h in
      let (set, h) = >>-eq-ok _ _ h in
      let (receipt, decoded, h) = >>=-eq-ok _ _ h in
      let (authenticated, h) = >>-eq-ok _ _ h in
      let (positive, h) = >>-eq-ok _ _ h in
      let (enough, h) = >>-eq-ok _ _ h in
      let (available, h) = >>-eq-ok _ _ h in
      subst (λ (x : EngineReceipt × World). IsAnswered rt accounts args p w x.0 x.1)
        (ok-injective h)
        (record {
          called = called;
          receipt_data = receipt_data;
          returned =
              ok_or-eq-ok _ _ returned ∙ ap (λ k. some (k, receipt_data)) (require_eq→eq _ _ _ set);
          decoded = map_err-eq-ok _ _ decoded;
          authenticated = ==_eq _ _ (require_experiment-eq-ok _ _ authenticated);
          output_positive = ltb→lt _ _ (require_core-eq-ok _ _ positive);
          output_enough = leb→le _ _ (require_core-eq-ok _ _ enough);
          output_available = leb→le _ _ (require_core-eq-ok _ _ available);
        })
