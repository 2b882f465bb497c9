-- ===== src/Ring/Solver.antt =====
-- A decision procedure for the polynomial identities that the protocols rest on: both sides are
-- normalised to sums of monomials with integer coefficients, and their difference must vanish.
use proof_of_custody.Prelude.{
  ℕ, zero, suc, ◌+◌, ◌*◌, ◌≡◌, refl, sym, ap, ap₂, ◌∙◌, Bool, true, false, ◌&&◌, List, [], ◌∷◌,
  arith, ◌==◌, leb, inl, inr, Bool-cases, ==_iff,
}
use proof_of_custody.Ring.{
  Ring, ◌⊕◌, ◌⊗◌, ◌⊖◌, nat, nat-add, nat-mul, add_left_comm, add_interchange, mul_left_comm,
  add-mul, add-zero, zero-mul, mul-zero, mul-neg, neg-neg, neg-zero, neg-distrib, add-neg,
  add_cancel,
}

infixl 65 ◌:+◌ ◌:-◌
infixl 70 ◌:*◌
pub data Expr : Type 0 where
  var : ℕ → Expr
  lit : ℕ → Expr
  zero_expr : Expr
  one_expr : Expr
  ◌:+◌ : Expr → Expr → Expr
  ◌:-◌ : Expr → Expr → Expr
  ◌:*◌ : Expr → Expr → Expr

-- (p - n) times the product of the listed variables
pub data Term : Type 0 where
  term : ℕ → ℕ → List ℕ → Term

same_vars : List ℕ → List ℕ → Bool
same_vars [] [] = true
same_vars (i ∷ m) (j ∷ n) = i == j && same_vars m n
same_vars _ _ = false

same_vars→eq : (m n : List ℕ) → same_vars m n ≡ true → m ≡ n
unfolding same_vars
same_vars→eq [] [] h = refl
same_vars→eq [] (j ∷ n) h = cc
same_vars→eq (i ∷ m) [] h = cc
same_vars→eq (i ∷ m) (j ∷ n) h = ground (arith, same_vars→eq m n)

add_var : ℕ → List ℕ → List ℕ
add_var i [] = i ∷ []
add_var i (j ∷ m) = elim (leb i j) [ true ↦ i ∷ j ∷ m | false ↦ j ∷ add_var i m ]

add_vars : List ℕ → List ℕ → List ℕ
add_vars [] n = n
add_vars (i ∷ m) n = add_var i (add_vars m n)

add_term : Term → List Term → List Term
add_term t [] = t ∷ []
add_term (term p n m) (term p' n' m' ∷ q) = elim (same_vars m m') [
  | true ↦ term (p + p') (n + n') m' ∷ q
  | false ↦ term p' n' m' ∷ add_term (term p n m) q
]

add_poly : List Term → List Term → List Term
add_poly [] q = q
add_poly (t ∷ p) q = add_term t (add_poly p q)

mul_term : Term → List Term → List Term
mul_term t [] = []
mul_term (term p n m) (term p' n' m' ∷ q) =
    add_term (term (p * p' + n * n') (p * n' + n * p') (add_vars m m')) (mul_term (term p n m) q)

mul_poly : List Term → List Term → List Term
mul_poly [] q = []
mul_poly (t ∷ p) q = add_poly (mul_term t q) (mul_poly p q)

negated : List Term → List Term
negated [] = []
negated (term p n m ∷ q) = term n p m ∷ negated q

normal : Expr → List Term
normal (var i) = term 1 0 (i ∷ []) ∷ []
normal (lit k) = term k 0 [] ∷ []
normal zero_expr = []
normal one_expr = term 1 0 [] ∷ []
normal (e :+ f) = add_poly (normal e) (normal f)
normal (e :- f) = add_poly (normal e) (negated (normal f))
normal (e :* f) = mul_poly (normal e) (normal f)

vanishes : List Term → Bool
vanishes [] = true
vanishes (term p n m ∷ q) = p == n && vanishes q

-- The test: the two sides have the same normal form.
unfoldable pub same_poly : Expr → Expr → Bool
unfolding same_vars add_var add_vars add_term add_poly mul_term mul_poly negated normal vanishes
same_poly e f = vanishes (normal (e :- f))

module _ {ℓ} {A : Type ℓ} ⦃r : Ring A⦄ where
  abbrev pub value_of : List A → ℕ → A
  value_of [] i = r.zero
  value_of (x ∷ xs) zero = x
  value_of (x ∷ xs) (suc i) = value_of xs i

  abbrev pub eval : List A → Expr → A
  eval env (var i) = value_of env i
  eval env (lit k) = nat k
  eval env zero_expr = r.zero
  eval env one_expr = r.one
  eval env (e :+ f) = eval env e ⊕ eval env f
  eval env (e :- f) = eval env e ⊖ eval env f
  eval env (e :* f) = eval env e ⊗ eval env f

  module _ (env : List A) where
    vars : List ℕ → A
    vars [] = r.one
    vars (i ∷ m) = value_of env i ⊗ vars m

    coef : ℕ → ℕ → A
    coef p n = nat p ⊖ nat n

    term_value : Term → A
    term_value (term p n m) = coef p n ⊗ vars m

    poly_value : List Term → A
    poly_value [] = r.zero
    poly_value (t ∷ q) = term_value t ⊕ poly_value q

    vars-add_var : (i : ℕ) (m : List ℕ) → vars (add_var i m) ≡ value_of env i ⊗ vars m
    unfolding vars add_var
    vars-add_var i [] = refl
    vars-add_var i (j ∷ m) = elim (Bool-cases (leb i j)) [
      | inl h ↦ rw (h, add_var) refl
      | inr h ↦
          rw (h, add_var) (ap (λ x. value_of env j ⊗ x) (vars-add_var i m) ∙ mul_left_comm _ _ _)
    ]

    vars-add_vars : (m n : List ℕ) → vars (add_vars m n) ≡ vars m ⊗ vars n
    unfolding add_vars vars
    vars-add_vars [] n = sym (r.one-mul (vars n))
    vars-add_vars (i ∷ m) n =
        vars-add_var i (add_vars m n)
        ∙ ap (λ x. value_of env i ⊗ x) (vars-add_vars m n)
        ∙ sym (r.mul_assoc _ _ _)

    coef-add : (p n p' n' : ℕ) → coef (p + p') (n + n') ≡ coef p n ⊕ coef p' n'
    unfolding coef
    coef-add p n p' n' =
        ap₂ (λ x y. x ⊕ r.neg y) (nat-add p p') (nat-add n n')
        ∙ ap (λ y. (nat p ⊕ nat p') ⊕ y) (neg-distrib (nat n) (nat n'))
        ∙ add_interchange _ _ _ _

    coef_swap : (p n : ℕ) → coef n p ≡ r.neg (coef p n)
    unfolding coef
    coef_swap p n =
        r.add_comm (nat n) (r.neg (nat p))
        ∙ sym (neg-distrib (nat p) (r.neg (nat n)) ∙ ap (λ x. r.neg (nat p) ⊕ x) (neg-neg (nat n)))

    -- (p - n) (p' - n')
    coef-mul : (p n p' n' : ℕ) → coef (p * p' + n * n') (p * n' + n * p') ≡ coef p n ⊗ coef p' n'
    unfolding coef
    coef-mul p n p' n' =
        coef-add (p * p') (p * n') (n * n') (n * p')
        ∙ ap₂ r.add (scaled p p' n') (scaled n n' p')
        ∙ ap (λ x. nat p ⊗ coef p' n' ⊕ x)
            (ap (λ x. nat n ⊗ x) (coef_swap p' n')
              ∙ mul-neg (nat n) (coef p' n')
              ∙ sym (neg-mul (nat n) (coef p' n')))
        ∙ sym (add-mul (nat p) (r.neg (nat n)) (coef p' n'))
      where
        scaled : (k a b : ℕ) → coef (k * a) (k * b) ≡ nat k ⊗ coef a b
        scaled k a b =
            ap₂ (λ x y. x ⊕ r.neg y) (nat-mul k a) (nat-mul k b)
            ∙ ap (λ y. nat k ⊗ nat a ⊕ y) (sym (mul-neg (nat k) (nat b)))
            ∙ sym (r.mul-add (nat k) (nat a) (r.neg (nat b)))

        neg-mul : (a b : A) → r.neg a ⊗ b ≡ r.neg (a ⊗ b)
        neg-mul a b = r.mul_comm (r.neg a) b ∙ mul-neg b a ∙ ap r.neg (r.mul_comm b a)

    add_term_lem :
        (t : Term) (q : List Term) → poly_value (add_term t q) ≡ term_value t ⊕ poly_value q
    unfolding add_term poly_value
    add_term_lem t [] = refl
    add_term_lem (term p n m) (term p' n' m' ∷ q) = elim (Bool-cases (same_vars m m')) [
      | inl h ↦
          rw (h, add_term)
            (unfold term_value in
              (ap (λ x. x ⊗ vars m' ⊕ poly_value q) (coef-add p n p' n')
                ∙ ap (λ x. x ⊕ poly_value q) (add-mul (coef p n) (coef p' n') (vars m'))
                ∙ r.add_assoc _ _ _
                ∙ ap (λ v. coef p n ⊗ vars v ⊕ (coef p' n' ⊗ vars m' ⊕ poly_value q))
                    (sym (same_vars→eq m m' h))))
      | inr h ↦
          rw (h, add_term)
            (ap (λ x. term_value (term p' n' m') ⊕ x) (add_term_lem (term p n m) q)
              ∙ add_left_comm _ _ _)
    ]

    add_poly_lem : (p q : List Term) → poly_value (add_poly p q) ≡ poly_value p ⊕ poly_value q
    unfolding add_poly poly_value
    add_poly_lem [] q = sym (r.zero-add _)
    add_poly_lem (t ∷ p) q =
        add_term_lem t (add_poly p q)
        ∙ ap (λ x. term_value t ⊕ x) (add_poly_lem p q)
        ∙ sym (r.add_assoc _ _ _)

    term-mul :
        (p n p' n' : ℕ) (m m' : List ℕ)
        → term_value (term (p * p' + n * n') (p * n' + n * p') (add_vars m m'))
          ≡ term_value (term p n m) ⊗ term_value (term p' n' m')
    unfolding term_value
    term-mul p n p' n' m m' =
        ap₂ r.mul (coef-mul p n p' n') (vars-add_vars m m')
        ∙ r.mul_assoc _ _ _
        ∙ ap (λ x. coef p n ⊗ x) (mul_left_comm _ _ _)
        ∙ sym (r.mul_assoc _ _ _)

    mul_term_lem :
        (t : Term) (q : List Term) → poly_value (mul_term t q) ≡ term_value t ⊗ poly_value q
    unfolding mul_term poly_value
    mul_term_lem t [] = sym (mul-zero _)
    mul_term_lem (term p n m) (term p' n' m' ∷ q) =
        add_term_lem _ (mul_term (term p n m) q)
        ∙ ap₂ r.add (term-mul p n p' n' m m') (mul_term_lem (term p n m) q)
        ∙ sym (r.mul-add _ _ _)

    mul_poly_lem : (p q : List Term) → poly_value (mul_poly p q) ≡ poly_value p ⊗ poly_value q
    unfolding mul_poly poly_value
    mul_poly_lem [] q = sym (zero-mul _)
    mul_poly_lem (t ∷ p) q =
        add_poly_lem (mul_term t q) (mul_poly p q)
        ∙ ap₂ r.add (mul_term_lem t q) (mul_poly_lem p q)
        ∙ sym (add-mul _ _ _)

    negated_lem : (q : List Term) → poly_value (negated q) ≡ r.neg (poly_value q)
    unfolding negated poly_value term_value
    negated_lem [] = sym neg-zero
    negated_lem (term p n m ∷ q) =
        ap₂ r.add
          (ap (λ x. x ⊗ vars m) (coef_swap p n)
            ∙ r.mul_comm _ (vars m)
            ∙ mul-neg (vars m) (coef p n)
            ∙ ap r.neg (r.mul_comm (vars m) _))
          (negated_lem q)
        ∙ sym (neg-distrib _ _)

    single : (p : ℕ) (m : List ℕ) → poly_value (term p 0 m ∷ []) ≡ nat p ⊗ vars m
    unfolding poly_value term_value coef nat
    single p m = add-zero _ ∙ ap (λ x. x ⊗ vars m) (ap (λ x. nat p ⊕ x) neg-zero ∙ add-zero (nat p))

    normal_lem : (e : Expr) → poly_value (normal e) ≡ eval env e
    unfolding normal
    normal_lem (var i) =
        single 1 (i ∷ [])
        ∙ unfold nat vars in
          (ap₂ r.mul (add-zero r.one) (r.mul_comm _ r.one ∙ r.one-mul _) ∙ r.one-mul _)
    normal_lem (lit k) = single k [] ∙ unfold vars in (r.mul_comm (nat k) r.one ∙ r.one-mul (nat k))
    normal_lem zero_expr = unfold poly_value in refl
    normal_lem one_expr =
        single 1 [] ∙ unfold nat vars in (r.mul_comm _ r.one ∙ r.one-mul _ ∙ add-zero r.one)
    normal_lem (e :+ f) =
        add_poly_lem (normal e) (normal f) ∙ ap₂ r.add (normal_lem e) (normal_lem f)
    normal_lem (e :- f) =
        add_poly_lem (normal e) (negated (normal f))
        ∙ ap₂ r.add (normal_lem e) (negated_lem (normal f) ∙ ap r.neg (normal_lem f))
    normal_lem (e :* f) =
        mul_poly_lem (normal e) (normal f) ∙ ap₂ r.mul (normal_lem e) (normal_lem f)

    vanishes_lem : (q : List Term) → vanishes q ≡ true → poly_value q ≡ r.zero
    unfolding vanishes poly_value term_value coef
    vanishes_lem [] h = refl
    vanishes_lem (term p n m ∷ q) h =
        ap₂ r.add
          (ap (λ k. (nat k ⊖ nat n) ⊗ vars m) ((==_iff p n).0 (ground arith))
            ∙ ap (λ x. x ⊗ vars m) (add-neg (nat n))
            ∙ zero-mul (vars m))
          (vanishes_lem q (ground arith))
        ∙ r.zero-add r.zero

    -- Two expressions with one normal form have one value, whatever the variables stand for.
    pub ring_eq : (e f : Expr) → same_poly e f ≡ true → eval env e ≡ eval env f
    unfolding same_poly
    ring_eq e f h = add_cancel (r.neg (eval env f)) (eval env e) (eval env f) (
        r.add_comm _ _
        ∙ sym (normal_lem (e :- f))
        ∙ vanishes_lem (normal (e :- f)) h
        ∙ sym (r.neg-add _))

module _ {ℓ} {A : Type ℓ} ⦃r : Ring A⦄ where
  -- A test of the procedure: the difference of two squares.
  difference_of_squares : (a b : A) → (a ⊕ b) ⊗ (a ⊖ b) ≡ a ⊗ a ⊖ b ⊗ b
  unfolding same_poly
  difference_of_squares a b =
      ring_eq (a ∷ b ∷ []) ((var 0 :+ var 1) :* (var 0 :- var 1)) (var 0 :* var 0 :- var 1 :* var 1)
        refl
