-- ===== src/Ring/Polynomial.antt =====
-- Polynomials by their coefficients, the constant one first, over a ring and over its modules.
use proof_of_custody.Prelude.{
  ℕ, zero, suc, ◌≤◌, ◌≡◌, refl, sym, ap, ap₂, ◌∙◌, List, [], ◌∷◌, map, length, arith,
}
use proof_of_custody.Ring.{Ring, ◌⊕◌, ◌⊗◌, ◌⊖◌, mul-zero, add-zero}
use proof_of_custody.Ring.Solver.{ring_eq, same_poly, var, ◌:+◌, ◌:-◌, ◌:*◌}
use proof_of_custody.Ring.Module.{Additive, Module, ◌⊞◌, ◌⊡◌}

module _ {ℓ} {R : Type ℓ} ⦃r : Ring R⦄ where
  -- c0 + x * (c1 + x * (c2 + ..))
  unfoldable pub poly : List R → R → R
  poly [] x = r.zero
  poly (c ∷ cs) x = c ⊕ x ⊗ poly cs x

  -- The quotient of a polynomial by the factor that vanishes at a point.
  unfoldable pub quotient : List R → R → List R
  unfolding poly
  quotient [] a = []
  quotient (c ∷ []) a = []
  quotient (c ∷ d ∷ cs) a = poly (d ∷ cs) a ∷ quotient (d ∷ cs) a

  pub quotient-length :
      (n : ℕ) (cs : List R) (a : R) → length cs ≤ suc n → length (quotient cs a) ≤ n
  unfolding quotient
  quotient-length n [] a h = omega arith
  quotient-length n (c ∷ []) a h = omega arith
  quotient-length zero (c ∷ d ∷ cs) a h = absurd (omega arith)
  quotient-length (suc n) (c ∷ d ∷ cs) a h =
      let e = quotient-length n (d ∷ cs) a (omega arith) in omega arith

  pub poly-quotient :
      (cs : List R) (a x : R) → poly cs x ≡ poly cs a ⊕ (x ⊖ a) ⊗ poly (quotient cs a) x
  unfolding poly quotient same_poly
  poly-quotient [] a x = sym (ap (λ u. r.zero ⊕ u) (mul-zero _) ∙ r.zero-add _)
  poly-quotient (c ∷ []) a x =
      ap (λ u. c ⊕ u) (mul-zero x)
      ∙ sym (ap₂ (λ u v. c ⊕ u ⊕ v) (mul-zero a) (mul-zero (x ⊖ a)) ∙ add-zero _)
  poly-quotient (c ∷ d ∷ cs) a x =
      ap (λ u. c ⊕ x ⊗ u) (poly-quotient (d ∷ cs) a x)
      ∙ ring_eq (c ∷ x ∷ a ∷ poly (d ∷ cs) a ∷ poly (quotient (d ∷ cs) a) x ∷ [])
          (var 0 :+ var 1 :* (var 3 :+ (var 1 :- var 2) :* var 4))
          ((var 0 :+ var 2 :* var 3) :+ (var 1 :- var 2) :* (var 3 :+ var 1 :* var 4)) refl

  pub poly_at_zero : (c : R) (cs : List R) → poly (c ∷ cs) r.zero ≡ c
  unfolding poly same_poly
  poly_at_zero c cs = ap (λ u. c ⊕ u) (r.mul_comm _ _ ∙ mul-zero _) ∙ add-zero c

  -- The sum of two polynomials, coefficient by coefficient.
  unfoldable pub add_poly : List R → List R → List R
  add_poly [] ds = ds
  add_poly (c ∷ cs) [] = c ∷ cs
  add_poly (c ∷ cs) (d ∷ ds) = (c ⊕ d) ∷ add_poly cs ds

  pub poly-add_poly : (cs ds : List R) (x : R) → poly (add_poly cs ds) x ≡ poly cs x ⊕ poly ds x
  unfolding add_poly poly same_poly
  poly-add_poly [] ds x = sym (r.zero-add _)
  poly-add_poly (c ∷ cs) [] x = sym (add-zero _)
  poly-add_poly (c ∷ cs) (d ∷ ds) x =
      ap (λ u. (c ⊕ d) ⊕ x ⊗ u) (poly-add_poly cs ds x)
      ∙ ring_eq (c ∷ d ∷ x ∷ poly cs x ∷ poly ds x ∷ [])
          ((var 0 :+ var 1) :+ var 2 :* (var 3 :+ var 4))
          ((var 0 :+ var 2 :* var 3) :+ (var 1 :+ var 2 :* var 4)) refl

  pub length-add_poly :
      (n : ℕ) (cs ds : List R) → length cs ≤ n → length ds ≤ n → length (add_poly cs ds) ≤ n
  unfolding add_poly
  length-add_poly n [] ds h k = k
  length-add_poly n (c ∷ cs) [] h k = h
  length-add_poly zero (c ∷ cs) (d ∷ ds) h k = absurd (omega arith)
  length-add_poly (suc n) (c ∷ cs) (d ∷ ds) h k =
      let e = length-add_poly n cs ds (omega arith) (omega arith) in omega arith

module _ {ℓ κ} {R : Type ℓ} ⦃r : Ring R⦄ {G : Type κ} ⦃g : Additive G⦄ ⦃m : Module R G⦄ where
  unfoldable pub poly_in : List G → R → G
  poly_in [] x = g.zero
  poly_in (p ∷ ps) x = p ⊞ poly_in ps x ⊡ x

  -- The polynomial in the exponent.
  pub poly_in-map : (p : G) (cs : List R) (x : R) → poly_in (map (λ c. p ⊡ c) cs) x ≡ p ⊡ poly cs x
  unfolding poly poly_in
  poly_in-map p [] x = sym (m.scale-zero p)
  poly_in-map p (c ∷ cs) x =
      ap (λ q. p ⊡ c ⊞ q ⊡ x) (poly_in-map p cs x)
      ∙ ap (λ q. p ⊡ c ⊞ q) (m.scale-mul p (poly cs x) x ∙ ap (λ u. p ⊡ u) (r.mul_comm _ _))
      ∙ sym (m.scale-add p c (x ⊗ poly cs x))
