-- ===== src/Wire/Cursor/Laws.antt =====
-- The cursor helpers on an array that is written up to the cursor and zero behind it, and on a
-- slice whose part before the cursor is known.
use programmable_solana.Base.{
  ℕ, zero, suc, ◌+◌, ◌≤◌, ◌<◌, ◌≡◌, refl, sym, ap, ◌∙◌, List, [], ◌∷◌, ◌++◌, append_assoc,
  append-nil, length, drop, replicate, length-append, length-replicate, take-append, drop-append,
  drop-replicate, set_splice, ok, le→leb, lt→ltb, ==_of_eq, arith,
}
use programmable_solana.Wire.Cursor.{
  Writer, put_bytes, put_u8, read_array, read_u8, finish, assert_cursor,
}

module _ {ℓ} {A : Type ℓ} where
  drop_nil : (n : ℕ) → ◌≡◌ {A = List A} (drop n []) []
  drop_nil zero = refl
  drop_nil (suc n) = refl

  drop-add : (m n : ℕ) (xs : List A) → drop (m + n) xs ≡ drop n (drop m xs)
  drop-add zero n xs = ap (λ k. drop k xs) (omega arith)
  drop-add (suc m) n [] = let e : suc m + n ≡ suc (m + n) = omega arith in rw (e, drop_nil n)
  drop-add (suc m) n (x ∷ xs) =
      let e : suc m + n ≡ suc (m + n) = omega arith in rw e (drop-add m n xs)

-- A writer that has written `done` and has `k` zero bytes left.
abbrev pub filled : List ℕ → ℕ → Writer
filled done k = record { output = done ++ replicate k 0; cursor = length done }

module _ {E : Type 0} where
  pub put_bytes-filled :
      (done v : List ℕ) (k : ℕ)
      → put_bytes {E = E} (filled done (length v + k)) v ≡ ok (filled (done ++ v) k)
  unfolding put_bytes
  put_bytes-filled done v k =
      let room : length done + length v ≤ length (done ++ replicate (length v + k) 0) = omega (
        arith,
        length-append done (replicate (length v + k) 0),
        length-replicate {A = ℕ} (length v + k) 0,
      ) in
      rw (
        le→leb _ _ room,
        take-append,
        drop-add,
        drop-append,
        drop-replicate,
        length-append,
        append_assoc,
      )

  -- A write that fills the array.
  pub put_bytes-full :
      (done v : List ℕ) (k : ℕ)
      → length v ≡ k
      → put_bytes {E = E} (filled done k) v ≡ ok (filled (done ++ v) 0)
  put_bytes-full done v k e =
      let exact : k ≡ length v + 0 = omega arith in rw exact (put_bytes-filled done v 0)

  pub put_u8-filled :
      (done : List ℕ) (v k : ℕ)
      → put_u8 {E = E} (filled done (suc k)) v ≡ ok (filled (done ++ (v ∷ [])) k)
  unfolding put_u8
  put_u8-filled done v k =
      let room : length done < length (done ++ replicate (suc k) 0) =
        omega
          (arith, length-append done (replicate (suc k) 0), length-replicate {A = ℕ} (suc k) 0) in
      let next : suc (length done) ≡ length done + 1 = omega arith in
      rw (
        lt→ltb _ _ room,
        set_splice _ (length done) v room,
        take-append,
        next,
        drop-add,
        drop-append,
        length-append,
        append_assoc,
      )

  pub read_array-append :
      (n : ℕ) (done v rest : List ℕ)
      → length v ≡ n
      → read_array {E = E} n (done ++ (v ++ rest)) (length done) ≡ ok (v, length (done ++ v))
  unfolding read_array
  read_array-append n done v rest e =
      let room : length done + length v ≤ length (done ++ (v ++ rest)) =
        omega (arith, length-append done (v ++ rest), length-append v rest) in
      rw (← e, le→leb _ _ room, drop-append, take-append, length-append)

  -- The same where nothing follows, by the positions before and behind.
  pub read_array-last :
      (n : ℕ) (done v : List ℕ) (at end : ℕ)
      → length v ≡ n
      → at ≡ length done
      → end ≡ length done + n
      → read_array {E = E} n (done ++ v) at ≡ ok (v, end)
  read_array-last n done v at end e here there =
      ap (read_array n (done ++ v)) here
      ∙ ap (λ r. read_array n (done ++ r) (length done)) (sym (append-nil v))
      ∙ read_array-append n done v [] e
      ∙ ap (λ c. ok (v, c)) (omega (arith, length-append done v))

  pub read_u8-append :
      (done : List ℕ) (v : ℕ) (rest : List ℕ)
      → read_u8 {E = E} (done ++ (v ∷ rest)) (length done) ≡ ok (v, length (done ++ (v ∷ [])))
  unfolding read_u8
  read_u8-append done v rest =
      let room : length done < length (done ++ (v ∷ rest)) =
        omega (arith, length-append done (v ∷ rest)) in
      rw (lt→ltb _ _ room, drop-append, length-append)

  -- A full array passes the closing assertion.
  pub finish-filled :
      (done : List ℕ) (n : ℕ) → length done ≡ n → finish {E = E} (filled done 0) n ≡ ok done
  unfolding finish
  finish-filled done n e = rw (==_of_eq _ _ e, append-nil)

  pub assert_cursor-eq : (cursor n : ℕ) → cursor ≡ n → assert_cursor {E = E} cursor n ≡ ok tt
  unfolding assert_cursor
  assert_cursor-eq cursor n e = rw (==_of_eq _ _ e)
