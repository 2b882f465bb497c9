-- ===== src/Engine/Program.antt =====
-- Protocol code as programs over the engine's state: they return, or throw as the source does.
use proof_of_custody.Prelude.{ℕ, ◌≡◌, refl, Bool, true, false, none, some, List, get_elem?}
use proof_of_custody.Ring.{Ring}
use proof_of_custody.Engine.{Engine}

-- The exceptions of Tools/Exceptions.h that POC/ throws, a failed `assert`, a read past the end of
-- a vector, a loop that was not given enough rounds, and the two strings that POC/vss throws: of a
-- threshold above the number of parties, and of a zero among the points.
pub data Error : Type 0 where
  invalid_length bad_value division_by_zero not_implemented : Error
  assertion_failed out_of_range out_of_fuel : Error
  invalid_program invalid_commitment invalid_setting zero_element : Error

pub data Result {ℓ} (A : Type ℓ) : Type ℓ where
  ok : A → Result A
  err : Error → Result A

module _ ⦃E : Engine⦄ where
  instance abbrev pub clear_ring : Ring E.Clear
  clear_ring = E.ring

  -- The field element of a bit.
  abbrev pub bit : Bool → E.Clear
  bit true = E.ring.one
  bit false = E.ring.zero

  abbrev pub M : Type 0 → Type 0
  M A = E.State → Result (A × E.State)

  unfoldable pub pure : {A : Type 0} → A → M A
  pure a s = ok (a, s)

  unfoldable pub throw : {A : Type 0} → Error → M A
  throw e s = err e

  -- A call of the engine.
  unfoldable pub call : {A : Type 0} → (E.State → A × E.State) → M A
  call f s = ok (f s)

  infixl 5 ◌>>=◌ ◌>>◌
  unfoldable pub ◌>>=◌ : {A B : Type 0} → M A → (A → M B) → M B
  ◌>>=◌ m f s = elim (m s) [ ok r ↦ f r.0 r.1 | err e ↦ err e ]

  abbrev pub ◌>>◌ : {B : Type 0} → M (Unit {0}) → M B → M B
  m >> k = m >>= λ _. k

  -- `if (!test) throw error;`
  unfoldable pub guard : Bool → Error → M (Unit {0})
  unfolding pure throw
  guard true e = pure tt
  guard false e = throw e

  -- xs[i]
  unfoldable pub index : {A : Type 0} → List A → ℕ → M A
  unfolding pure throw
  index xs i = elim (get_elem? xs i) [ some x ↦ pure x | none ↦ throw out_of_range ]

  -- From every state the program returns, and its result satisfies `P`.
  pub record Yields {A : Type 0} (m : M A) (P : A → Type 0) : Type 0 where
    pub run : (s : E.State) → (a : A) × (s' : E.State) × (m s ≡ ok (a, s')) × P a

  module _ {A : Type 0} where
    pub Yields-pure : {P : A → Type 0} (a : A) → P a → Yields (pure a) P
    unfolding pure
    Yields-pure a p = record { run = λ s. (a, s, refl, p) }

    pub Yields-call :
        {P : A → Type 0} (f : E.State → A × E.State)
        → ((s : E.State) → P (f s).0)
        → Yields (call f) P
    unfolding call
    Yields-call f p = record { run = λ s. ((f s).0, (f s).1, refl, p s) }

    pub Yields-weaken :
        {m : M A} {P Q : A → Type 0} → Yields m P → ((a : A) → P a → Q a) → Yields m Q
    Yields-weaken y h = record { run = λ s. let (a, s', e, p) = y.run s in (a, s', e, h a p) }

    pub Yields-index :
        {P : A → Type 0} (xs : List A) (i : ℕ) (x : A)
        → get_elem? xs i ≡ some x
        → P x
        → Yields (index xs i) P
    unfolding index pure
    Yields-index xs i x e p = record { run = λ s. (x, s, rw (e, index), p) }

  module _ {A B : Type 0} where
    pub Yields-bind :
        {P : A → Type 0} {Q : B → Type 0} {m : M A} {f : A → M B}
        → Yields m P
        → ((a : A) → P a → Yields (f a) Q)
        → Yields (m >>= f) Q
    unfolding ◌>>=◌
    Yields-bind {m} {f} y k = record {
      run = λ s.
          let (a, s', e, p) = y.run s in
          let (b, s'', e', q) = (k a p).run s' in (b, s'', rw (e, ◌>>=◌) e', q);
    }

  module _ {B : Type 0} where
    pub Yields-guard :
        {Q : B → Type 0} {b : Bool} (e : Error) {m : M B}
        → b ≡ true
        → Yields m Q
        → Yields (guard b e >> m) Q
    unfolding guard ◌>>=◌ pure
    Yields-guard e {m} h y = rw (h, guard) (record { run = y.run })

  -- A guard inside the first of two programs.
  module _ {A B : Type 0} where
    pub Yields-guard-bind :
        {Q : B → Type 0} {b : Bool} (e : Error) {a : A} (f : A → M B)
        → b ≡ true
        → Yields (f a) Q
        → Yields ((guard b e >> pure a) >>= f) Q
    unfolding guard ◌>>=◌ pure
    Yields-guard-bind e {a} f h y = rw (h, guard) (record { run = y.run })

  pub Yields-guard-true : (e : Error) → Yields (guard true e) (λ _. Unit {0})
  unfolding guard pure
  Yields-guard-true e = record { run = λ s. (tt, s, refl, tt) }

  -- From every state the program throws `e`.
  pub record Fails {A : Type 0} (m : M A) (e : Error) : Type 0 where
    pub run : (s : E.State) → m s ≡ err e

  module _ {A : Type 0} where
    pub Fails-throw : (e : Error) → Fails (throw {A = A} e) e
    unfolding throw
    Fails-throw e = record { run = λ s. refl }

    pub Fails-guard : (e : Error) {b : Bool} (m : M A) → b ≡ false → Fails (guard b e >> m) e
    unfolding guard ◌>>=◌ throw
    Fails-guard e m h = rw (h, guard) (record { run = λ s. refl })

  module _ {A B : Type 0} where
    -- The rest of a program does not run after a failure.
    pub Fails-bind : {m : M A} (f : A → M B) {e : Error} → Fails m e → Fails (m >>= f) e
    unfolding ◌>>=◌
    Fails-bind f h = record { run = λ s. rw (h.run s, ◌>>=◌) }

    pub Fails-after :
        {P : A → Type 0} {m : M A} {f : A → M B} {e : Error}
        → Yields m P
        → ((a : A) → P a → Fails (f a) e)
        → Fails (m >>= f) e
    unfolding ◌>>=◌
    Fails-after y k = record {
      run = λ s. let (a, s', e, p) = y.run s in rw (e, ◌>>=◌) ((k a p).run s');
    }
