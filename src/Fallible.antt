-- ===== src/Fallible.antt =====
-- Code without an engine that returns or throws.
use proof_of_custody.Prelude.{◌≡◌, refl}
use proof_of_custody.Engine.Program.{Result, Error, ok, err}

infixl 5 ◌>>=◌
unfoldable pub ◌>>=◌ {ℓ κ} : {A : Type ℓ} {B : Type κ} → Result A → (A → Result B) → Result B
ok a >>= f = f a
err e >>= f = err e

-- A program of two steps, by what the first returns.
pub ok-bind {ℓ κ} :
    {A : Type ℓ} {B : Type κ} {m : Result A} {a : A} (f : A → Result B) {r : Result B}
    → m ≡ ok a
    → f a ≡ r
    → (m >>= f) ≡ r
unfolding ◌>>=◌
ok-bind f e h = rw (e, ◌>>=◌) h

-- The rest of a program does not run after a failure.
pub err-bind {ℓ κ} :
    {A : Type ℓ} {B : Type κ} {m : Result A} (f : A → Result B) {e : Error}
    → m ≡ err e
    → (m >>= f) ≡ err e
unfolding ◌>>=◌
err-bind f h = rw (h, ◌>>=◌) refl

pub ok-injective {ℓ} : {A : Type ℓ} {a b : A} → ok a ≡ ok b → a ≡ b
ok-injective e = cc

-- What a program of two steps that returns did.
pub ok-split {ℓ κ} :
    {A : Type ℓ} {B : Type κ} (m : Result A) (f : A → Result B) (b : B)
    → (m >>= f) ≡ ok b
    → (a : A) × (m ≡ ok a) × (f a ≡ ok b)
unfolding ◌>>=◌
ok-split (ok a) f b h = (a, refl, h)
ok-split (err e) f b h = absurd cc

-- The first step of a program that does not fail there.
pub bind-ok {ℓ κ} :
    {A : Type ℓ} {B : Type κ} {m : Result A} {a : A} (f : A → Result B) → m ≡ ok a → (m >>= f) ≡ f a
bind-ok f h = ok-bind f h refl

pub err-not-ok {ℓ κ} : {A : Type ℓ} {B : Type κ} {e : Error} {a : A} → err e ≡ ok a → B
err-not-ok h = absurd cc
