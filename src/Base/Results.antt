-- ===== src/Base/Results.antt =====
-- Results of Rust code: a value, an error of type `E`, or a panic.
use mathlib.Core.Path.{◌≡◌, refl}
use mathlib.Core.Bool.{Bool, true, false}
use mathlib.Core.Option.{Option, none, some}

pub data Result {ε ℓ} (E : Type ε) (A : Type ℓ) : Type (ε ⊔ ℓ) where
  ok : A → Result E A
  err : E → Result E A
  panic : Result E A

infixl 5 ◌>>=◌ ◌>>◌
abbrev pub ◌>>=◌ {ε ℓ κ} :
    {E : Type ε} {A : Type ℓ} {B : Type κ} → Result E A → (A → Result E B) → Result E B
ok a >>= f = f a
err e >>= f = err e
panic >>= f = panic

abbrev pub ◌>>◌ {ε κ} : {E : Type ε} {B : Type κ} → Result E (Unit {0}) → Result E B → Result E B
m >> k = m >>= λ _. k

module _ {ε} {E : Type ε} where
  -- `require!(test, e)`
  abbrev pub require : Bool → E → Result E (Unit {0})
  require true e = ok tt
  require false e = err e

  pub require-eq-ok : (b : Bool) (e : E) → require b e ≡ ok tt → b ≡ true
  require-eq-ok true e h = refl
  require-eq-ok false e h = cc

  -- `option.ok_or(e)`
  unfoldable pub ok_or {ℓ} : {A : Type ℓ} → Option A → E → Result E A
  ok_or none e = err e
  ok_or (some a) e = ok a

  pub ok_or-eq-ok {ℓ} : {A : Type ℓ} (o : Option A) (e : E) {a : A} → ok_or o e ≡ ok a → o ≡ some a
  unfolding ok_or
  ok_or-eq-ok none e h = cc
  ok_or-eq-ok (some a) e h = cc

  pub ok_or-some {ℓ} : {A : Type ℓ} {o : Option A} (e : E) {a : A} → o ≡ some a → ok_or o e ≡ ok a
  unfolding ok_or
  ok_or-some e h = rw h

  pub ok-injective {ℓ} : {A : Type ℓ} {a b : A} → ◌≡◌ {A = Result E A} (ok a) (ok b) → a ≡ b
  ok-injective h = cc

  -- Inversion of a successful bind.
  pub >>=-eq-ok {ℓ κ} :
      {A : Type ℓ} {B : Type κ} (step : Result E A) (next : A → Result E B) {out : B}
      → (step >>= next) ≡ ok out
      → (value : A) × (step ≡ ok value) × (next value ≡ ok out)
  >>=-eq-ok (ok value) next done = (value, refl, done)
  >>=-eq-ok (err e) next done = cc
  >>=-eq-ok panic next done = cc

  -- The same for a step whose value is not used.
  pub >>-eq-ok {κ} :
      {B : Type κ} (m : Result E (Unit {0})) (k : Result E B) {b : B}
      → (m >> k) ≡ ok b
      → (m ≡ ok tt) × (k ≡ ok b)
  >>-eq-ok (ok tt) k h = (refl, h)
  >>-eq-ok (err e) k h = cc
  >>-eq-ok panic k h = cc

-- `result.map_err(f)`
abbrev pub map_err {ε κ ℓ} :
    {E : Type ε} {F : Type κ} {A : Type ℓ} → (E → F) → Result E A → Result F A
map_err f (ok a) = ok a
map_err f (err e) = err (f e)
map_err f panic = panic

pub map_err-eq-ok {ε κ ℓ} :
    {E : Type ε} {F : Type κ} {A : Type ℓ} (f : E → F) (r : Result E A) {a : A}
    → map_err f r ≡ ok a
    → r ≡ ok a
map_err-eq-ok f (ok a) h = rw (ok-injective h)
map_err-eq-ok f (err e) h = cc
map_err-eq-ok f panic h = cc
