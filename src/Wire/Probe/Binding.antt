-- ===== src/Wire/Probe/Binding.antt =====
-- The plan digest binds every field of the plan.
use programmable_solana.Base.{ℕ, ◌≡◌, ◌⊎◌, inl, inr, sym, ap, ◌∙◌, List, [], ◌∷◌, ok, ok-injective}
use programmable_solana.Wire.Digest.{Collision, digest_binds, cons_tail}
use programmable_solana.Wire.Layout.{encoding, values, values-encoding}
use programmable_solana.Wire.Probe.{
  probe_wire_version, plan_domain, PlanBinding, CodecError, encode_plan_binding, compute_plan_hash,
}
use programmable_solana.Wire.Probe.Plan
use programmable_solana.Wire.Probe.RoundTrip.{encode_plan_binding_lem}

-- Rows of fields with the same bytes are the same plan.
pub row-injective :
    (a b : PlanBinding)
    → Plan.IsValid a
    → Plan.IsValid b
    → encoding Plan.widths (Plan.row a) ≡ encoding Plan.widths (Plan.row b)
    → a ≡ b
row-injective a b va vb e = ap Plan.of_row (
    sym (values-encoding Plan.widths (Plan.row a) va)
    ∙ ap (values Plan.widths) e
    ∙ values-encoding Plan.widths (Plan.row b) vb)

-- Two plans whose fields fit their types and whose encodings agree are the same plan.
pub encode_plan_binding-injective :
    (a b : PlanBinding)
    → Plan.IsValid a
    → Plan.IsValid b
    → encode_plan_binding {E = CodecError} a ≡ encode_plan_binding b
    → a ≡ b
encode_plan_binding-injective a b va vb e =
    row-injective a b va vb
      (cons_tail (ok-injective (sym (encode_plan_binding_lem a) ∙ e ∙ encode_plan_binding_lem b)))

pub compute_plan_hash_lem :
    {E : Type 0} (hashv : List (List ℕ) → ℕ) (b : PlanBinding)
    → compute_plan_hash {E = E} hashv b
      ≡ ok (hashv (plan_domain ∷ (probe_wire_version ∷ encoding Plan.widths (Plan.row b)) ∷ []))
unfolding compute_plan_hash
compute_plan_hash_lem hashv b = rw (encode_plan_binding_lem b)

-- Two plans with the same digest whose fields fit their types are the same plan, or they
-- exhibit a collision of the hash function.
pub compute_plan_hash-injective :
    {E : Type 0} (hashv : List (List ℕ) → ℕ) (a b : PlanBinding)
    → Plan.IsValid a
    → Plan.IsValid b
    → compute_plan_hash {E = E} hashv a ≡ compute_plan_hash hashv b
    → (a ≡ b) ⊎ Collision hashv
compute_plan_hash-injective hashv a b va vb e =
    elim (digest_binds hashv plan_domain _ _
      (ok-injective (sym (compute_plan_hash_lem hashv a) ∙ e ∙ compute_plan_hash_lem hashv b))) [
        | inl same ↦ inl (row-injective a b va vb (cons_tail same))
        | inr collision ↦ inr collision
      ]
