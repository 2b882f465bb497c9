-- ===== src/Ring.antt =====
-- The arithmetic that the program asks of its field `clear` (`gfp`): a commutative ring.
pub mod Solver
pub mod Module
pub mod Polynomial
pub mod Interpolation
use native.Mathlib.Nat.{zero-add, suc-add, zero-mul as ℕ_zero-mul, suc-mul}
use proof_of_custody.Prelude.{ℕ, zero, suc, ◌+◌, ◌*◌, ◌≡◌, sym, ◌∙◌, ◌≡⟨◌⟩◌, ◌∎, ap, ap₂}

pub record Ring {ℓ} (A : Type ℓ) : Type ℓ where
  -- the sum, 0 and the opposite
  pub add : A → A → A
  pub add_comm : (x y : A) → add x y ≡ add y x
  pub add_assoc : (x y z : A) → add (add x y) z ≡ add x (add y z)
  pub zero : A
  pub zero-add : (x : A) → add zero x ≡ x
  pub neg : A → A
  pub neg-add : (x : A) → add (neg x) x ≡ zero
  -- the product and 1
  pub mul : A → A → A
  pub mul_comm : (x y : A) → mul x y ≡ mul y x
  pub mul_assoc : (x y z : A) → mul (mul x y) z ≡ mul x (mul y z)
  pub mul-add : (x y z : A) → mul x (add y z) ≡ add (mul x y) (mul x z)
  pub one : A
  pub one-mul : (x : A) → mul one x ≡ x

module _ {ℓ} {A : Type ℓ} ⦃r : Ring A⦄ where
  infixl 70 ◌⊗◌
  infixl 65 ◌⊕◌ ◌⊖◌
  abbrev pub ◌⊗◌ : A → A → A
  x ⊗ y = r.mul x y

  abbrev pub ◌⊖◌ : A → A → A
  x ⊖ y = r.add x (r.neg y)

  abbrev pub ◌⊕◌ : A → A → A
  x ⊕ y = r.add x y

  -- The element that a number stands for.
  unfoldable pub nat : ℕ → A
  nat zero = r.zero
  nat (suc n) = r.one ⊕ nat n

  -- a ^ n, by its recursion.
  unfoldable pub pow : A → ℕ → A
  pow a zero = r.one
  pow a (suc n) = a ⊗ pow a n

  pub add-zero : (a : A) → a ⊕ r.zero ≡ a
  add-zero a = r.add_comm a r.zero ∙ r.zero-add a

  pub add-neg : (a : A) → a ⊕ r.neg a ≡ r.zero
  add-neg a = r.add_comm a (r.neg a) ∙ r.neg-add a

  pub add_left_comm : (a b c : A) → a ⊕ (b ⊕ c) ≡ b ⊕ (a ⊕ c)
  add_left_comm a b c =
      sym (r.add_assoc a b c) ∙ ap (λ x. x ⊕ c) (r.add_comm a b) ∙ r.add_assoc b a c

  pub add_interchange : (a b c d : A) → (a ⊕ b) ⊕ (c ⊕ d) ≡ (a ⊕ c) ⊕ (b ⊕ d)
  add_interchange a b c d =
      r.add_assoc a b (c ⊕ d) ∙ ap (r.add a) (add_left_comm b c d) ∙ sym (r.add_assoc a c (b ⊕ d))

  pub mul_left_comm : (a b c : A) → a ⊗ (b ⊗ c) ≡ b ⊗ (a ⊗ c)
  mul_left_comm a b c =
      sym (r.mul_assoc a b c) ∙ ap (λ x. x ⊗ c) (r.mul_comm a b) ∙ r.mul_assoc b a c

  pub add-mul : (a b c : A) → (a ⊕ b) ⊗ c ≡ a ⊗ c ⊕ b ⊗ c
  add-mul a b c = rw (r.mul_comm (a ⊕ b) c, r.mul_comm a c, r.mul_comm b c) (r.mul-add c a b)

  pub mul-one : (a : A) → a ⊗ r.one ≡ a
  mul-one a = r.mul_comm a r.one ∙ r.one-mul a

  pub add_cancel : (a b c : A) → a ⊕ b ≡ a ⊕ c → b ≡ c
  add_cancel a b c h =
      b
      ≡⟨ sym (r.zero-add b) ⟩ r.zero ⊕ b
      ≡⟨ ap (λ x. x ⊕ b) (sym (r.neg-add a)) ⟩ (r.neg a ⊕ a) ⊕ b
      ≡⟨ r.add_assoc (r.neg a) a b ⟩ r.neg a ⊕ (a ⊕ b)
      ≡⟨ ap (λ x. r.neg a ⊕ x) h ⟩ r.neg a ⊕ (a ⊕ c)
      ≡⟨ sym (r.add_assoc (r.neg a) a c) ⟩ (r.neg a ⊕ a) ⊕ c
      ≡⟨ ap (λ x. x ⊕ c) (r.neg-add a) ⟩ r.zero ⊕ c
      ≡⟨ r.zero-add c ⟩ c ∎

  pub mul-zero : (a : A) → a ⊗ r.zero ≡ r.zero
  mul-zero a = add_cancel (a ⊗ r.zero) (a ⊗ r.zero) r.zero (
      sym (r.mul-add a r.zero r.zero)
      ∙ ap (λ x. a ⊗ x) (r.zero-add r.zero)
      ∙ sym (add-zero (a ⊗ r.zero)))

  pub zero-mul : (a : A) → r.zero ⊗ a ≡ r.zero
  zero-mul a = r.mul_comm r.zero a ∙ mul-zero a

  pub mul-neg : (a b : A) → a ⊗ r.neg b ≡ r.neg (a ⊗ b)
  mul-neg a b = add_cancel (a ⊗ b) (a ⊗ r.neg b) (r.neg (a ⊗ b)) (
      sym (r.mul-add a b (r.neg b))
      ∙ ap (λ x. a ⊗ x) (add-neg b)
      ∙ mul-zero a
      ∙ sym (add-neg (a ⊗ b)))

  pub neg-neg : (a : A) → r.neg (r.neg a) ≡ a
  neg-neg a = add_cancel (r.neg a) (r.neg (r.neg a)) a (add-neg (r.neg a) ∙ sym (r.neg-add a))

  pub neg-zero : r.neg r.zero ≡ r.zero
  neg-zero = add_cancel r.zero (r.neg r.zero) r.zero (add-neg r.zero ∙ sym (r.zero-add r.zero))

  pub nat-add : (m n : ℕ) → nat (m + n) ≡ nat m ⊕ nat n
  unfolding nat
  nat-add zero n = rw zero-add (sym (r.zero-add (nat n)))
  nat-add (suc m) n = rw suc-add (rw (nat-add m n) (sym (r.add_assoc r.one (nat m) (nat n))))

  pub nat-mul : (m n : ℕ) → nat (m * n) ≡ nat m ⊗ nat n
  unfolding nat
  nat-mul zero n = rw ℕ_zero-mul (sym (zero-mul (nat n)))
  nat-mul (suc m) n =
      rw (suc-mul, nat-add, nat-mul m n)
        (rw (add-mul r.one (nat m) (nat n), r.one-mul (nat n)) (r.add_comm _ _))

  pub neg-distrib : (a b : A) → r.neg (a ⊕ b) ≡ r.neg a ⊕ r.neg b
  neg-distrib a b = add_cancel (a ⊕ b) (r.neg (a ⊕ b)) (r.neg a ⊕ r.neg b) (
      add-neg (a ⊕ b)
      ∙ sym (
          add_interchange a b (r.neg a) (r.neg b)
          ∙ ap₂ r.add (add-neg a) (add-neg b)
          ∙ r.zero-add r.zero))
