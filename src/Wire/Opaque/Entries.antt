-- ===== src/Wire/Opaque/Entries.antt =====
-- The capability and payload digests of the two wire crates bind what they are taken of.
use programmable_solana.Base.{
  ℕ, ◌+◌, ◌≤◌, ◌<◌, ◌≡◌, ◌⊎◌, inl, inr, refl, sym, ◌∙◌, Bool, List, [], ◌∷◌, ◌++◌, append_assoc,
  length, All, ok, require-eq-ok, ok-injective, leb→le, arith,
}
use programmable_solana.Base.Steps.{>>-eq-ok}
use mathlib.Core.Path.{ap₂}
use programmable_solana.Wire.Bytes.{Fits, le_bytes}
use programmable_solana.Wire.Digest.{
  Collision, digest_binds, cons_tail, cons_head, append_back, le_bytes_front,
}
use programmable_solana.Wire.Opaque.{
  CapabilityDescriptor, flag, privilege_flags, capability_entry, capability_entries,
  encode_capabilities, compute_capability_hash, encode_payload, compute_payload_hash,
}

-- The two addresses are of 32 bytes.
abbrev pub IsDescriptor : CapabilityDescriptor → Type 0
IsDescriptor d = Fits 32 d.key × Fits 32 d.owner

flag-injective : (a b : Bool) → flag a ≡ flag b → a ≡ b
unfolding flag
flag-injective a b h = ground arith

privilege_flags-injective :
    (d e : CapabilityDescriptor)
    → privilege_flags d ≡ privilege_flags e
    → (d.is_writable ≡ e.is_writable) × (d.is_signer ≡ e.is_signer)
unfolding privilege_flags
privilege_flags-injective d e h = ground arith

descriptor_eq :
    (d e : CapabilityDescriptor)
    → d.key ≡ e.key
    → d.owner ≡ e.owner
    → d.is_writable ≡ e.is_writable
    → d.is_signer ≡ e.is_signer
    → d.is_executable ≡ e.is_executable
    → d ≡ e
descriptor_eq d e k o w s x =
    λ i. record { key = k i; owner = o i; is_writable = w i; is_signer = s i; is_executable = x i }

-- An entry and what follows it, field by field.
entry_fields :
    (index : ℕ) (d : CapabilityDescriptor) (xs : List ℕ)
    → capability_entry index d ++ xs
      ≡ le_bytes 2 index
        ++ (le_bytes 32 d.key
            ++ (le_bytes 32 d.owner ++ (flag d.is_executable ∷ (privilege_flags d ∷ xs))))
unfolding capability_entry
entry_fields index d xs = rw (append_assoc, append_assoc, append_assoc)

-- An entry in front of other bytes is read off them.
entry_front :
    (index : ℕ) (d e : CapabilityDescriptor) (xs ys : List ℕ)
    → IsDescriptor d
    → IsDescriptor e
    → capability_entry index d ++ xs ≡ capability_entry index e ++ ys
    → (d ≡ e) × (xs ≡ ys)
entry_front index d e xs ys hd he h =
    let keyed =
      append_back (le_bytes 2 index) (le_bytes 2 index) _ _ refl
        (sym (entry_fields index d xs) ∙ h ∙ entry_fields index e ys) in
    let (key, owned) = le_bytes_front 32 d.key e.key hd.0 he.0 keyed in
    let (owner, flagged) = le_bytes_front 32 d.owner e.owner hd.1 he.1 owned in
    let executable = flag-injective _ _ (cons_head flagged) in
    let (writable, signer) = privilege_flags-injective d e (cons_head (cons_tail flagged)) in
    (descriptor_eq d e key owner writable signer executable, cons_tail (cons_tail flagged))

capability_entries-injective :
    (index : ℕ) (ds es : List CapabilityDescriptor)
    → All IsDescriptor ds
    → All IsDescriptor es
    → length ds ≡ length es
    → capability_entries index ds ≡ capability_entries index es
    → ds ≡ es
unfolding capability_entries
capability_entries-injective index [] [] hd he l h = refl
capability_entries-injective index [] (e ∷ es) hd he l h = absurd (omega arith)
capability_entries-injective index (d ∷ ds) [] hd he l h = absurd (omega arith)
capability_entries-injective index (d ∷ ds) (e ∷ es) hd he l h =
    let (first, rest) = entry_front index d e _ _ hd.0 he.0 h in
    ap₂ (λ x xs. x ∷ xs) first
      (capability_entries-injective (index + 1) ds es hd.1 he.1 (omega arith) rest)

encode_capabilities-injective :
    (a b : ℕ) (ds es : List CapabilityDescriptor)
    → Fits 32 a
    → Fits 32 b
    → Fits 2 (length ds)
    → Fits 2 (length es)
    → All IsDescriptor ds
    → All IsDescriptor es
    → encode_capabilities a ds ≡ encode_capabilities b es
    → (a ≡ b) × (ds ≡ es)
unfolding encode_capabilities
encode_capabilities-injective a b ds es ha hb ld le hd he h =
    let (engine, counted) = le_bytes_front 32 a b ha hb (cons_tail h) in
    let (count, entries) = le_bytes_front 2 (length ds) (length es) ld le counted in
    (engine, capability_entries-injective 0 ds es hd he count entries)

compute_capability_hash-eq-ok :
    (domain : List ℕ) (maximum : ℕ) (hashv : List (List ℕ) → ℕ) (a : ℕ)
    (ds : List CapabilityDescriptor) {digest : ℕ}
    → compute_capability_hash domain maximum hashv a ds ≡ ok digest
    → (length ds ≤ maximum) × (hashv (domain ∷ encode_capabilities a ds ∷ []) ≡ digest)
unfolding compute_capability_hash
compute_capability_hash-eq-ok domain maximum hashv a ds h =
    let (few, h) = >>-eq-ok _ _ h in (leb→le _ _ (require-eq-ok _ _ few), ok-injective h)

-- Where the maximum is below 65536 and the addresses are of 32 bytes, two lists of capabilities
-- with the same digest are the same list for the same engine, in order, owners and privileges,
-- or they exhibit a collision of the hash function.
pub compute_capability_hash-binds :
    (domain : List ℕ) (maximum : ℕ) (hashv : List (List ℕ) → ℕ) (a b : ℕ)
    (ds es : List CapabilityDescriptor) (digest : ℕ)
    → maximum < 65_536
    → Fits 32 a
    → Fits 32 b
    → All IsDescriptor ds
    → All IsDescriptor es
    → compute_capability_hash domain maximum hashv a ds ≡ ok digest
    → compute_capability_hash domain maximum hashv b es ≡ ok digest
    → ((a ≡ b) × (ds ≡ es)) ⊎ Collision hashv
compute_capability_hash-binds domain maximum hashv a b ds es digest few ha hb hd he h k =
    let (ld, left) = compute_capability_hash-eq-ok domain maximum hashv a ds h in
    let (le, right) = compute_capability_hash-eq-ok domain maximum hashv b es k in
    elim (digest_binds hashv domain (encode_capabilities a ds) (encode_capabilities b es)
      (left ∙ sym right)) [
        | inl same ↦
            inl
              (encode_capabilities-injective a b ds es ha hb (omega arith) (omega arith) hd he same)
        | inr collision ↦ inr collision
      ]

compute_payload_hash-eq-ok :
    (domain : List ℕ) (hashv : List (List ℕ) → ℕ) (p : List ℕ) {digest : ℕ}
    → compute_payload_hash domain hashv p ≡ ok digest
    → (length p ≤ 128) × (hashv (domain ∷ encode_payload p ∷ []) ≡ digest)
unfolding compute_payload_hash
compute_payload_hash-eq-ok domain hashv p h =
    let (few, h) = >>-eq-ok _ _ h in (leb→le _ _ (require-eq-ok _ _ few), ok-injective h)

encode_payload-injective :
    (p q : List ℕ)
    → encode_payload p ≡ encode_payload q
    → Fits 2 (length p)
    → Fits 2 (length q)
    → p ≡ q
unfolding encode_payload
encode_payload-injective p q h hp hq =
    (le_bytes_front 2 (length p) (length q) hp hq (cons_tail h)).1

-- Two payloads with one digest are the same, or they exhibit a collision.
pub compute_payload_hash-binds :
    (domain : List ℕ) (hashv : List (List ℕ) → ℕ) (p q : List ℕ) (digest : ℕ)
    → compute_payload_hash domain hashv p ≡ ok digest
    → compute_payload_hash domain hashv q ≡ ok digest
    → (p ≡ q) ⊎ Collision hashv
compute_payload_hash-binds domain hashv p q digest h k =
    let (lp, left) = compute_payload_hash-eq-ok domain hashv p h in
    let (lq, right) = compute_payload_hash-eq-ok domain hashv q k in
    elim (digest_binds hashv domain (encode_payload p) (encode_payload q) (left ∙ sym right)) [
      | inl same ↦ inl (encode_payload-injective p q same (omega arith) (omega arith))
      | inr collision ↦ inr collision
    ]
