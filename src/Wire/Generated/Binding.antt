-- ===== src/Wire/Generated/Binding.antt =====
-- The request digest of the generated-settlement codec binds every field of the binding.
use programmable_solana.Base.{ℕ, ◌≡◌, ◌⊎◌, inl, inr, sym, ap, ◌∙◌, List, [], ◌∷◌, ok, ok-injective}
use programmable_solana.Wire.Digest.{Collision, digest_binds, cons_tail}
use programmable_solana.Wire.Layout.{encoding, values, values-encoding}
use programmable_solana.Wire.Opaque.{probe_wire_version}
use programmable_solana.Wire.Generated.{RequestBinding, request_hash_domain, compute_request_hash}
use programmable_solana.Wire.Generated.Rows.Binding
use programmable_solana.Wire.Generated.RoundTrip.{encode_request_binding_lem}

pub compute_request_hash_lem :
    {E : Type 0} (hashv : List (List ℕ) → ℕ) (b : RequestBinding)
    → compute_request_hash {E = E} hashv b
      ≡ ok (
          hashv (
            request_hash_domain
            ∷ (probe_wire_version ∷ encoding Binding.widths (Binding.row b))
            ∷ []))
unfolding compute_request_hash
compute_request_hash_lem hashv b = rw (encode_request_binding_lem b)

-- Two request bindings with the same digest whose fields fit their types are the same binding,
-- or they exhibit a collision of the hash function.
pub compute_request_hash-binds :
    {E : Type 0} (hashv : List (List ℕ) → ℕ) (a b : RequestBinding)
    → Binding.IsValid a
    → Binding.IsValid b
    → compute_request_hash {E = E} hashv a ≡ compute_request_hash hashv b
    → (a ≡ b) ⊎ Collision hashv
compute_request_hash-binds hashv a b va vb e =
    elim (digest_binds hashv request_hash_domain _ _ (
      ok-injective
        (sym (compute_request_hash_lem hashv a) ∙ e ∙ compute_request_hash_lem hashv b))) [
          | inl same ↦ inl (
              ap Binding.of_row (
                sym (values-encoding Binding.widths (Binding.row a) va)
                ∙ ap (values Binding.widths) (cons_tail same)
                ∙ values-encoding Binding.widths (Binding.row b) vb))
          | inr collision ↦ inr collision
        ]
