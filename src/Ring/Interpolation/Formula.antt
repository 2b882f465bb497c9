-- ===== src/Ring/Interpolation/Formula.antt =====
-- The weights add up to 1, and the formula holds for polynomials of as many coefficients as points.
use proof_of_custody.Prelude.{
  ◌≤◌, ◌≡◌, fun_ext, refl, sym, ap, ap₂, ◌∙◌, List, [], ◌∷◌, length, arith,
}
use proof_of_custody.Ring.{Ring, ◌⊕◌, ◌⊗◌, ◌⊖◌, mul-one}
use proof_of_custody.Ring.Solver.{ring_eq, same_poly, var, ◌:+◌, ◌:-◌, ◌:*◌, zero_expr}
use proof_of_custody.Ring.Polynomial.{poly, quotient, quotient-length, poly-quotient}
use proof_of_custody.Ring.Interpolation.{
  Field, Apart, Distinct, weighted, numerator, denominator, interpolated, interpolated-factor,
  interpolated-second, weighted-add, weighted-scale, field_cancel, difference-nonzero,
}

module _ {ℓ} {R : Type ℓ} ⦃r : Ring R⦄ ⦃f : Field R⦄ where
  abbrev ones : R → R
  ones z = r.one

  interpolated-split :
      (vs : List R) (c : R) (k l : R → R)
      → ((z : R) → k z ≡ c ⊗ r.one ⊕ l z)
      → interpolated vs k ≡ c ⊗ interpolated vs ones ⊕ interpolated vs l
  interpolated-split vs c k l h =
      ap (interpolated vs) (fun_ext h)
      ∙ weighted-add r.one ones vs (λ z. c ⊗ r.one) l
      ∙ ap (λ u. u ⊕ interpolated vs l) (weighted-scale c r.one ones vs ones)

  solved :
      (x y s : R) → r.neg x ⊗ r.one ≡ (y ⊖ x) ⊗ s ⊕ r.neg y ⊗ r.one → s ⊗ (y ⊖ x) ≡ r.one ⊗ (y ⊖ x)
  unfolding same_poly
  solved x y s h =
      ring_eq (x ∷ y ∷ s ∷ (r.neg y ⊗ r.one) ∷ []) (var 2 :* (var 1 :- var 0))
        (((var 1 :- var 0) :* var 2 :+ var 3) :- var 3) refl
      ∙ ap (λ u. u ⊖ r.neg y ⊗ r.one) (sym h)
      ∙ ap₂ (λ u v. u ⊗ r.one ⊖ v ⊗ r.one) (sym (r.zero-add _)) (sym (r.zero-add _))
      ∙ ring_eq (x ∷ y ∷ r.one ∷ [])
          ((zero_expr :- var 0) :* var 2 :- (zero_expr :- var 1) :* var 2)
          (var 2 :* (var 1 :- var 0)) refl

  pub interpolated-one :
      (x : R) (vs : List R) → Distinct (x ∷ vs) → interpolated (x ∷ vs) ones ≡ r.one
  unfolding weighted numerator denominator Distinct Apart same_poly
  interpolated-one x [] hd =
      ring_eq (r.one ∷ f.inv (r.one ⊗ r.one) ∷ []) ((var 0 :* var 0) :* var 1 :* var 0 :+ zero_expr)
        (var 1 :* (var 0 :* var 0) :* var 0) refl
      ∙ ap (λ u. u ⊗ r.one)
          (f.inv-mul (r.one ⊗ r.one) (λ e. f.one-ne-zero (sym (r.one-mul r.one) ∙ e)))
      ∙ r.one-mul r.one
  interpolated-one x (y ∷ vs) hd =
      let vs' = x ∷ y ∷ vs in
      let first : interpolated vs' (λ z. (z ⊖ x) ⊗ r.one) ≡ r.neg x ⊗ r.one =
        interpolated-factor x (y ∷ vs) ones hd.0 hd.1
        ∙ ap (λ u. r.neg x ⊗ u) (interpolated-one y vs hd.1) in
      let second : interpolated vs' (λ z. (z ⊖ y) ⊗ r.one) ≡ r.neg y ⊗ r.one =
        interpolated-second x y vs ones hd
        ∙ ap (λ u. r.neg y ⊗ u) (interpolated-one x vs (hd.0.1, hd.1.1)) in
      let split =
        interpolated-split vs' (y ⊖ x) (λ z. (z ⊖ x) ⊗ r.one) (λ z. (z ⊖ y) ⊗ r.one)
          (λ z.
            ring_eq (z ∷ x ∷ y ∷ r.one ∷ []) ((var 0 :- var 1) :* var 3)
              ((var 2 :- var 1) :* var 3 :+ (var 0 :- var 2) :* var 3) refl) in
      field_cancel (y ⊖ x) _ _ (difference-nonzero y x hd.0.0)
        (solved x y _ (sym first ∙ split ∙ ap (λ u. (y ⊖ x) ⊗ interpolated vs' ones ⊕ u) second))

  -- Lagrange's formula.
  pub interpolated_lem :
      (cs vs : List R)
      → Distinct vs
      → length cs ≤ length vs
      → interpolated vs (poly cs) ≡ poly cs r.zero
  unfolding weighted poly Distinct same_poly
  interpolated_lem [] [] hd h = refl
  interpolated_lem (c ∷ cs) [] hd h = absurd (omega arith)
  interpolated_lem cs (x ∷ vs) hd h =
      interpolated-split (x ∷ vs) (poly cs x) (poly cs) (λ z. (z ⊖ x) ⊗ poly (quotient cs x) z)
        (λ z.
          poly-quotient cs x z ∙ ap (λ u. u ⊕ (z ⊖ x) ⊗ poly (quotient cs x) z) (sym (mul-one _)))
      ∙ ap₂ (λ s t. poly cs x ⊗ s ⊕ t) (interpolated-one x vs hd)
          (interpolated-factor x vs (poly (quotient cs x)) hd.0 hd.1
            ∙ ap (λ u. r.neg x ⊗ u)
                (interpolated_lem (quotient cs x) vs hd.1 (quotient-length (length vs) cs x h)))
      ∙ ap₂ (λ s t. s ⊕ t ⊗ poly (quotient cs x) r.zero) (mul-one _) (sym (r.zero-add _))
      ∙ sym (poly-quotient cs x r.zero)
