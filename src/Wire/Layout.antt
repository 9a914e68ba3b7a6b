-- ===== src/Wire/Layout.antt =====
-- Messages as rows of fixed-width little-endian numbers: what a chain of cursor writes puts into
-- a fresh array, and what a chain of cursor reads takes out of a slice.
use programmable_solana.Base.{
  ℕ, ◌+◌, ◌≡◌, refl, sym, ap, ◌∙◌, List, [], ◌∷◌, ◌++◌, append_assoc, append-nil, length, take,
  drop, All, All-take, All-drop, All-append, length-append, length-take, length-drop,
  take-append-drop, take-append_of_length, drop-append_of_length, Result, ok, ◌>>=◌, arith,
}
use mathlib.Core.Path.{subst}
use programmable_solana.Wire.Bytes.{
  le_bytes, of_le_bytes, IsByte, le_bytes-IsByte, Fits, length-le_bytes, of_le_bytes-le_bytes,
  le_bytes-of_le_bytes, of_le_bytes-Fits,
}
use programmable_solana.Wire.Cursor.{Writer, put_bytes, read_array, read_number}
use programmable_solana.Wire.Cursor.Laws.{filled, put_bytes-filled, read_array-append}

-- The widths of the fields in order, and a message: each field's width and value.
abbrev pub Widths : Type 0
Widths = List ℕ

abbrev pub size : Widths → ℕ
size [] = 0
size (w ∷ ws) = w + size ws

-- The bytes of a row of values at the given widths.
abbrev pub encoding : Widths → List ℕ → List ℕ
encoding [] vs = []
encoding (w ∷ ws) [] = []
encoding (w ∷ ws) (v ∷ vs) = le_bytes w v ++ encoding ws vs

-- Each value fits its width, and there are as many of one as of the other.
abbrev pub FitAll : Widths → List ℕ → Type 0
FitAll [] [] = Unit
FitAll [] (v ∷ vs) = ⊥
FitAll (w ∷ ws) [] = ⊥
FitAll (w ∷ ws) (v ∷ vs) = Fits w v × FitAll ws vs

-- The values that the bytes spell.
abbrev pub values : Widths → List ℕ → List ℕ
values [] bytes = []
values (w ∷ ws) bytes = of_le_bytes (take w bytes) ∷ values ws (drop w bytes)

module _ {E A : Type 0} where
  -- A chain of `put_bytes`, and of reads, with what follows.
  abbrev pub put_fields : Widths → List ℕ → Writer → (Writer → Result E A) → Result E A
  put_fields [] vs w next = next w
  put_fields (n ∷ ws) [] w next = next w
  put_fields (n ∷ ws) (v ∷ vs) w next = put_bytes w (le_bytes n v) >>= λ w. put_fields ws vs w next

  abbrev pub read_fields : Widths → List ℕ → ℕ → (List ℕ → ℕ → Result E A) → Result E A
  read_fields [] bytes cursor next = next [] cursor
  read_fields (n ∷ ws) bytes cursor next =
      read_number n bytes cursor >>= λ p. read_fields ws bytes p.1 (λ vs c. next (p.0 ∷ vs) c)

  pub put_fields-filled :
      (ws : Widths) (vs done : List ℕ) (k : ℕ) (next : Writer → Result E A)
      → length vs ≡ length ws
      → put_fields ws vs (filled done (size ws + k)) next ≡ next (filled (done ++ encoding ws vs) k)
  put_fields-filled [] vs done k next e =
      let none_left : 0 + k ≡ k = omega arith in rw (none_left, append-nil)
  put_fields-filled (w ∷ ws) [] done k next e = absurd (omega arith)
  put_fields-filled (w ∷ ws) (v ∷ vs) done k next e =
      let split : w + size ws + k ≡ length (le_bytes w v) + (size ws + k) =
        omega (arith, length-le_bytes w v) in
      rw (split, put_bytes-filled done (le_bytes w v) (size ws + k))
        (put_fields-filled ws vs (done ++ le_bytes w v) k next (omega arith)
          ∙ ap (λ d. next (filled d k)) (append_assoc done (le_bytes w v) (encoding ws vs)))

  pub read_fields-append :
      (ws : Widths) (done row rest : List ℕ) (next : List ℕ → ℕ → Result E A)
      → length row ≡ size ws
      → read_fields ws (done ++ (row ++ rest)) (length done) next
        ≡ next (values ws row) (length done + size ws)
  read_fields-append [] done row rest next e =
      let same : length done ≡ length done + 0 = omega arith in ap (next []) same
  read_fields-append (w ∷ ws) done row rest next e =
      let a = take w row in
      let b = drop w row in
      let a_long : length a ≡ w = length-take w row (omega arith) in
      let whole : row ≡ a ++ b = sym (take-append-drop w row) in
      let near : done ++ (row ++ rest) ≡ done ++ (a ++ (b ++ rest)) =
        ap (λ r. done ++ (r ++ rest)) whole ∙ ap (λ r. done ++ r) (append_assoc a b rest) in
      let far : done ++ (row ++ rest) ≡ (done ++ a) ++ (b ++ rest) =
        near ∙ sym (append_assoc done a (b ++ rest)) in
      let first : read_array {E = E} w (done ++ (row ++ rest)) (length done)
          ≡ ok (a, length (done ++ a)) =
        ap (λ d. read_array w d (length done)) near
        ∙ read_array-append w done a (b ++ rest) a_long in
      rw (first, far)
        (read_fields-append ws (done ++ a) b rest (λ vs c. next (of_le_bytes a ∷ vs) c)
            (omega (arith, length-drop w row))
          ∙ ap (next _) (omega (arith, length-append done a, a_long)))

  -- The same where nothing follows the row.
  pub read_fields-all :
      (ws : Widths) (done row : List ℕ) (next : List ℕ → ℕ → Result E A)
      → length row ≡ size ws
      → read_fields ws (done ++ row) (length done) next
        ≡ next (values ws row) (length done + size ws)
  read_fields-all ws done row next e =
      ap (λ r. read_fields ws (done ++ r) (length done) next) (sym (append-nil row))
      ∙ read_fields-append ws done row [] next e

  -- The same behind a front part and one byte more.
  pub read_fields-behind :
      (ws : Widths) (front : List ℕ) (b : ℕ) (row : List ℕ) (next : List ℕ → ℕ → Result E A)
      → length row ≡ size ws
      → read_fields ws (front ++ (b ∷ row)) (length (front ++ (b ∷ []))) next
        ≡ next (values ws row) (length front + 1 + size ws)
  read_fields-behind ws front b row next e =
      ap (λ d. read_fields ws d (length (front ++ (b ∷ []))) next)
        (sym (append_assoc front (b ∷ []) row))
      ∙ read_fields-all ws (front ++ (b ∷ [])) row next e
      ∙ ap (next _) (omega (arith, length-append front (b ∷ [])))

pub length-encoding :
    (ws : Widths) (vs : List ℕ) → length vs ≡ length ws → length (encoding ws vs) ≡ size ws
length-encoding [] vs e = refl
length-encoding (w ∷ ws) [] e = absurd (omega arith)
length-encoding (w ∷ ws) (v ∷ vs) e = omega (
  arith,
  length-append (le_bytes w v) (encoding ws vs),
  length-le_bytes w v,
  length-encoding ws vs (omega arith),
)

-- The bytes of values that fit spell those values.
pub values-encoding : (ws : Widths) (vs : List ℕ) → FitAll ws vs → values ws (encoding ws vs) ≡ vs
values-encoding [] [] h = refl
values-encoding [] (v ∷ vs) h = absurd h
values-encoding (w ∷ ws) [] h = absurd h
values-encoding (w ∷ ws) (v ∷ vs) h =
    let long : length (le_bytes w v) ≡ w = length-le_bytes w v in
    rw (
      take-append_of_length w (le_bytes w v) (encoding ws vs) long,
      drop-append_of_length w (le_bytes w v) (encoding ws vs) long,
      of_le_bytes-le_bytes w v h.0,
      values-encoding ws vs h.1,
    )

-- A row of bytes of the right length is the encoding of the values that it spells.
pub encoding-values :
    (ws : Widths) (row : List ℕ)
    → All IsByte row
    → length row ≡ size ws
    → encoding ws (values ws row) ≡ row
encoding-values [] [] h e = refl
encoding-values [] (x ∷ xs) h e = absurd (omega arith)
encoding-values (w ∷ ws) row h e =
    let long : length (take w row) ≡ w = length-take w row (omega arith) in
    let front : le_bytes w (of_le_bytes (take w row)) ≡ take w row =
      subst (λ n. le_bytes n (of_le_bytes (take w row)) ≡ take w row) long
        (le_bytes-of_le_bytes (take w row) (All-take IsByte w row h)) in
    rw
      (
        front,
        encoding-values ws (drop w row) (All-drop IsByte w row h)
            (omega (arith, length-drop w row)),
      )
      (take-append-drop w row)

-- What bytes spell fits.
pub values-FitAll :
    (ws : Widths) (row : List ℕ) → All IsByte row → length row ≡ size ws → FitAll ws (values ws row)
values-FitAll [] row h e = tt
values-FitAll (w ∷ ws) row h e =
    let long : length (take w row) ≡ w = length-take w row (omega arith) in
    (
      subst (λ n. Fits n (of_le_bytes (take w row))) long
          (of_le_bytes-Fits (take w row) (All-take IsByte w row h)),
      values-FitAll ws (drop w row) (All-drop IsByte w row h) (omega (arith, length-drop w row)),
    )

pub encoding-IsByte : (ws : Widths) (vs : List ℕ) → All IsByte (encoding ws vs)
encoding-IsByte [] vs = tt
encoding-IsByte (w ∷ ws) [] = tt
encoding-IsByte (w ∷ ws) (v ∷ vs) =
    All-append IsByte (le_bytes w v) (encoding ws vs) (le_bytes-IsByte w v) (encoding-IsByte ws vs)
