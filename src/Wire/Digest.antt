-- ===== src/Wire/Digest.antt =====
-- What an equality of two digests of the hash function `hashv` says: the same bytes, or a
-- collision.
use programmable_solana.Base.{
  ℕ, refl, ◌≡◌, ◌≢◌, ◌⊎◌, inl, inr, sym, ap, List, [], ◌∷◌, ◌++◌, length, take, drop, Bool-cases,
  list_eq, list_eq→eq, list_eq→ne, take-append_of_length, drop-append_of_length, ◌∙◌,
}
use programmable_solana.Wire.Bytes.{
  Fits, le_bytes, of_le_bytes, of_le_bytes-le_bytes, length-le_bytes,
}

-- Two inputs of the hash function with one digest.
abbrev pub Collision : (List (List ℕ) → ℕ) → Type 0
Collision hashv = (x : List (List ℕ)) × (y : List (List ℕ)) × (x ≢ y) × (hashv x ≡ hashv y)

cons_second :
    {x : List ℕ} {a b : List ℕ} → ◌≡◌ {A = List (List ℕ)} (x ∷ a ∷ []) (x ∷ b ∷ []) → a ≡ b
cons_second h = cc

pub digest_binds :
    (hashv : List (List ℕ) → ℕ) (domain a b : List ℕ)
    → hashv (domain ∷ a ∷ []) ≡ hashv (domain ∷ b ∷ [])
    → (a ≡ b) ⊎ Collision hashv
digest_binds hashv domain a b e = elim (Bool-cases (list_eq a b)) [
  | inl same ↦ inl (list_eq→eq a b same)
  | inr other ↦ inr (domain ∷ a ∷ [], domain ∷ b ∷ [], λ h. list_eq→ne a b other (cons_second h), e)
]

pub cons_tail : {x y : ℕ} {xs ys : List ℕ} → x ∷ xs ≡ y ∷ ys → xs ≡ ys
cons_tail h = cc

pub cons_head : {x y : ℕ} {xs ys : List ℕ} → x ∷ xs ≡ y ∷ ys → x ≡ y
cons_head h = cc

-- Equal concatenations with fronts of one length.
pub append_front : (xs ys cs bs : List ℕ) → length xs ≡ length ys → xs ++ cs ≡ ys ++ bs → xs ≡ ys
append_front xs ys cs bs e h =
    sym (take-append_of_length (length ys) xs cs e)
    ∙ ap (take (length ys)) h
    ∙ take-append_of_length (length ys) ys bs refl

pub append_back : (xs ys cs bs : List ℕ) → length xs ≡ length ys → xs ++ cs ≡ ys ++ bs → cs ≡ bs
append_back xs ys cs bs e h =
    sym (drop-append_of_length (length ys) xs cs e)
    ∙ ap (drop (length ys)) h
    ∙ drop-append_of_length (length ys) ys bs refl

pub le_bytes-injective : (w a b : ℕ) → Fits w a → Fits w b → le_bytes w a ≡ le_bytes w b → a ≡ b
le_bytes-injective w a b ha hb e =
    sym (of_le_bytes-le_bytes w a ha) ∙ ap of_le_bytes e ∙ of_le_bytes-le_bytes w b hb

-- The same of a number in front of other bytes.
pub le_bytes_front :
    (w a b : ℕ) {xs ys : List ℕ}
    → Fits w a
    → Fits w b
    → le_bytes w a ++ xs ≡ le_bytes w b ++ ys
    → (a ≡ b) × (xs ≡ ys)
le_bytes_front w a b ha hb h =
    let long = length-le_bytes w a ∙ sym (length-le_bytes w b) in
    (
      le_bytes-injective w a b ha hb (append_front (le_bytes w a) (le_bytes w b) _ _ long h),
      append_back (le_bytes w a) (le_bytes w b) _ _ long h,
    )
