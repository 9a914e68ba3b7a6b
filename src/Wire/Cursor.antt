-- ===== src/Wire/Cursor.antt =====
-- The cursor helpers at the end of crates/engine-probe-interface/src/lib.rs: writes into a
-- zero-filled array of a fixed length, and reads from a slice. A slice index out of range panics.
pub mod Laws
use programmable_solana.Base.{
  ℕ, ◌+◌, ◌≡◌, List, [], ◌∷◌, ◌++◌, length, take, drop, set, replicate, Result, ok, panic, ◌>>=◌,
  ltb, leb, ◌==◌, if◌then◌else◌,
}
use programmable_solana.Wire.Bytes.{le_bytes, of_le_bytes}

-- `output: &mut [u8; N]` and `cursor: &mut usize`.
pub record Writer : Type 0 where
  pub output : List ℕ
  pub cursor : ℕ

-- `let mut output = [0_u8; N]; let mut cursor = 0;`
abbrev pub new_writer : ℕ → Writer
new_writer n = record { output = replicate n 0; cursor = 0 }

abbrev pub head_or : ℕ → List ℕ → ℕ
head_or d [] = d
head_or d (b ∷ bs) = b

module _ {E : Type 0} where
  unfoldable pub put_bytes : Writer → List ℕ → Result E Writer
  put_bytes w value =
      let end = w.cursor + length value in
      if leb end (length w.output)
      then ok
          (record { output = take w.cursor w.output ++ (value ++ drop end w.output); cursor = end })
      else panic

  unfoldable pub put_u8 : Writer → ℕ → Result E Writer
  put_u8 w value =
      if ltb w.cursor (length w.output)
      then ok (record { output = set w.output w.cursor value; cursor = w.cursor + 1 })
      else panic

  abbrev pub put_u16 : Writer → ℕ → Result E Writer
  put_u16 w value = put_bytes w (le_bytes 2 value)

  abbrev pub put_u64 : Writer → ℕ → Result E Writer
  put_u64 w value = put_bytes w (le_bytes 8 value)

  abbrev pub put_pubkey : Writer → ℕ → Result E Writer
  put_pubkey w value = put_bytes w (le_bytes 32 value)

  -- `debug_assert_eq!(cursor, N); output`
  unfoldable pub finish : Writer → ℕ → Result E (List ℕ)
  finish w n = if w.cursor == n then ok w.output else panic

  unfoldable pub read_u8 : List ℕ → ℕ → Result E (ℕ × ℕ)
  read_u8 bytes cursor =
      if ltb cursor (length bytes) then ok (head_or 0 (drop cursor bytes), cursor + 1) else panic

  -- `read_array_2`, `read_array_8`, `read_array_32` and `read_array_128`, at the length that they
  -- fix.
  unfoldable pub read_array : ℕ → List ℕ → ℕ → Result E (List ℕ × ℕ)
  read_array n bytes cursor =
      let end = cursor + n in
      if leb end (length bytes) then ok (take n (drop cursor bytes), end) else panic

  abbrev pub read_array_8 : List ℕ → ℕ → Result E (List ℕ × ℕ)
  read_array_8 = read_array 8

  abbrev pub read_array_32 : List ℕ → ℕ → Result E (List ℕ × ℕ)
  read_array_32 = read_array 32

  -- The number that the next `n` bytes spell.
  abbrev pub read_number : ℕ → List ℕ → ℕ → Result E (ℕ × ℕ)
  read_number n bytes cursor = read_array n bytes cursor >>= λ p. ok (of_le_bytes p.0, p.1)

  abbrev pub read_u16 : List ℕ → ℕ → Result E (ℕ × ℕ)
  read_u16 bytes cursor = read_array 2 bytes cursor >>= λ p. ok (of_le_bytes p.0, p.1)

  abbrev pub read_u64 : List ℕ → ℕ → Result E (ℕ × ℕ)
  read_u64 bytes cursor = read_array_8 bytes cursor >>= λ p. ok (of_le_bytes p.0, p.1)

  abbrev pub read_pubkey : List ℕ → ℕ → Result E (ℕ × ℕ)
  read_pubkey bytes cursor = read_array_32 bytes cursor >>= λ p. ok (of_le_bytes p.0, p.1)

  -- `debug_assert_eq!(cursor, N)` at the end of a decoder.
  unfoldable pub assert_cursor : ℕ → ℕ → Result E (Unit {0})
  assert_cursor cursor n = if cursor == n then ok tt else panic
