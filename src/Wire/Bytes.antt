-- ===== src/Wire/Bytes.antt =====
-- Little-endian byte strings of a fixed width: `u64::to_le_bytes`, and the bytes of a 32-byte
-- array, which the models hold as the number that its bytes spell from the lowest up.
use programmable_solana.Base.{
  ℕ, zero, suc, ◌+◌, ◌*◌, ◌/◌, ◌%◌, ◌^◌, ◌<◌, ◌≡◌, refl, ap, List, [], ◌∷◌, length, All, arith,
}
use native.Mathlib.Nat.{pow-suc}

abbrev pub IsByte : ℕ → Type 0
IsByte b = b < 256

-- A value that fits in `w` bytes.
abbrev pub Fits : ℕ → ℕ → Type 0
Fits w v = v < 256 ^ w

unfoldable pub le_bytes : ℕ → ℕ → List ℕ
le_bytes zero v = []
le_bytes (suc w) v = (v % 256) ∷ le_bytes w (v / 256)

unfoldable pub of_le_bytes : List ℕ → ℕ
of_le_bytes [] = 0
of_le_bytes (b ∷ bs) = b + 256 * of_le_bytes bs

pub length-le_bytes : (w v : ℕ) → length (le_bytes w v) ≡ w
unfolding le_bytes
length-le_bytes zero v = refl
length-le_bytes (suc w) v = ap suc (length-le_bytes w (v / 256))

pub le_bytes-IsByte : (w v : ℕ) → All IsByte (le_bytes w v)
unfolding le_bytes
le_bytes-IsByte zero v = tt
le_bytes-IsByte (suc w) v = (omega arith, le_bytes-IsByte w (v / 256))

pub of_le_bytes-le_bytes : (w v : ℕ) → Fits w v → of_le_bytes (le_bytes w v) ≡ v
unfolding le_bytes of_le_bytes
of_le_bytes-le_bytes zero v h = omega arith
of_le_bytes-le_bytes (suc w) v h =
    omega (arith, of_le_bytes-le_bytes w (v / 256) (omega (arith, pow-suc 256 w)))

pub of_le_bytes-Fits : (bs : List ℕ) → All IsByte bs → Fits (length bs) (of_le_bytes bs)
unfolding of_le_bytes
of_le_bytes-Fits [] h = omega arith
of_le_bytes-Fits (b ∷ bs) h = omega (arith, of_le_bytes-Fits bs h.1, pow-suc 256 (length bs))

pub le_bytes-of_le_bytes :
    (bs : List ℕ) → All IsByte bs → le_bytes (length bs) (of_le_bytes bs) ≡ bs
unfolding le_bytes of_le_bytes
le_bytes-of_le_bytes [] h = refl
le_bytes-of_le_bytes (b ∷ bs) h =
    let low : (b + 256 * of_le_bytes bs) % 256 ≡ b = omega arith in
    let high : (b + 256 * of_le_bytes bs) / 256 ≡ of_le_bytes bs = omega arith in
    rw (low, high, le_bytes-of_le_bytes bs h.1)
