-- ===== src/Base/Steps.antt =====
-- The chain of steps in an instruction, as `?` runs it.
use mathlib.Core.Path.{◌≡◌, refl}
use programmable_solana.Base.Results.{Result, ok, err, panic}

-- The chain of steps in an instruction. It is shut, so that a proof can take a successful chain
-- apart step by step.
infixl 5 ◌>>=◌ ◌>>◌
unfoldable pub ◌>>=◌ {ℓ κ} :
    {E : Type 0} {A : Type ℓ} {B : Type κ} → Result E A → (A → Result E B) → Result E B
ok a >>= f = f a
err e >>= f = err e
panic >>= f = panic

unfoldable pub ◌>>◌ {κ} : {E : Type 0} {B : Type κ} → Result E (Unit {0}) → Result E B → Result E B
ok a >> k = k
err e >> k = err e
panic >> k = panic

pub >>=-eq-ok {ℓ κ} :
    {E : Type 0} {A : Type ℓ} {B : Type κ} (step : Result E A) (next : A → Result E B) {out : B}
    → (step >>= next) ≡ ok out
    → (value : A) × (step ≡ ok value) × (next value ≡ ok out)
unfolding ◌>>=◌
>>=-eq-ok (ok value) next done = (value, refl, done)
>>=-eq-ok (err e) next done = cc
>>=-eq-ok panic next done = cc

pub >>-eq-ok {κ} :
    {E : Type 0} {B : Type κ} (m : Result E (Unit {0})) (k : Result E B) {b : B}
    → (m >> k) ≡ ok b
    → (m ≡ ok tt) × (k ≡ ok b)
unfolding ◌>>◌
>>-eq-ok (ok tt) k h = (refl, h)
>>-eq-ok (err e) k h = cc
>>-eq-ok panic k h = cc

-- A chain whose first step succeeds.
pub ok->>= {ℓ κ} :
    {E : Type 0} {A : Type ℓ} {B : Type κ} (m : Result E A) (f : A → Result E B) {a : A}
    → m ≡ ok a
    → (m >>= f) ≡ f a
unfolding ◌>>=◌
ok->>= m f e = rw e

pub ok->> {κ} :
    {E : Type 0} {B : Type κ} (m : Result E (Unit {0})) (k : Result E B) → m ≡ ok tt → (m >> k) ≡ k
unfolding ◌>>◌
ok->> m k e = rw e
