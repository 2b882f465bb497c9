-- ===== src/Ring/Interpolation.antt =====
-- Lagrange's formula for the value of a polynomial at 0: with distinct points x, the sum of its
-- values, each times the product of v / (v - x) over the other points v, is the value at 0.
pub mod Formula
use proof_of_custody.Prelude.{
  ℕ, suc, ◌≤◌, ◌≡◌, ◌≢◌, fun_ext, refl, sym, ap, ap₂, ◌∙◌, List, [], ◌∷◌, ◌++◌, map, length, arith,
}
use proof_of_custody.Ring.{Ring, ◌⊕◌, ◌⊗◌, ◌⊖◌, mul-zero, zero-mul, add-zero, add-neg}
use proof_of_custody.Ring.Solver.{ring_eq, same_poly, var, ◌:+◌, ◌:-◌, ◌:*◌, zero_expr, one_expr}
use proof_of_custody.Ring.Polynomial.{poly, quotient, quotient-length, poly-quotient}

-- a ring with inverses of what is not 0
pub record Field {ℓ} (R : Type ℓ) ⦃r : Ring R⦄ : Type ℓ where
  pub inv : R → R
  pub inv-mul : (x : R) → x ≢ r.zero → r.mul (inv x) x ≡ r.one
  pub one-ne-zero : r.one ≢ r.zero

module _ {ℓ} {R : Type ℓ} ⦃r : Ring R⦄ ⦃f : Field R⦄ where
  pub field_cancel : (d x y : R) → d ≢ r.zero → x ⊗ d ≡ y ⊗ d → x ≡ y
  unfolding same_poly
  field_cancel d x y h e = sym (undo x) ∙ ap (λ u. u ⊗ f.inv d) e ∙ undo y
    where
      undo : (u : R) → (u ⊗ d) ⊗ f.inv d ≡ u
      undo u =
          ring_eq (u ∷ d ∷ f.inv d ∷ []) ((var 0 :* var 1) :* var 2) ((var 2 :* var 1) :* var 0)
            refl
          ∙ ap (λ v. v ⊗ u) (f.inv-mul d h)
          ∙ r.one-mul u

  pub nonzero-mul : (x y : R) → x ≢ r.zero → y ≢ r.zero → x ⊗ y ≢ r.zero
  nonzero-mul x y hx hy e = hx (field_cancel y x r.zero hy (e ∙ sym (zero-mul y)))

  pub difference-zero : (x y : R) → x ⊖ y ≡ r.zero → x ≡ y
  unfolding same_poly
  difference-zero x y e =
      ring_eq (x ∷ y ∷ []) (var 0) ((var 0 :- var 1) :+ var 1) refl
      ∙ ap (λ u. u ⊕ y) e
      ∙ r.zero-add y

  -- the product of the opposites of the points
  unfoldable pub numerator : List R → R
  numerator [] = r.one
  numerator (v ∷ vs) = r.neg v ⊗ numerator vs

  -- the product of the differences of x and the points
  unfoldable pub denominator : R → List R → R
  denominator x [] = r.one
  denominator x (v ∷ vs) = (x ⊖ v) ⊗ denominator x vs

  pub numerator-snoc : (vs : List R) (v : R) → numerator (vs ++ (v ∷ [])) ≡ numerator vs ⊗ r.neg v
  unfolding numerator
  numerator-snoc [] v = r.mul_comm _ _
  numerator-snoc (w ∷ vs) v = ap (λ u. r.neg w ⊗ u) (numerator-snoc vs v) ∙ sym (r.mul_assoc _ _ _)

  pub denominator-snoc :
      (x : R) (vs : List R) (v : R) → denominator x (vs ++ (v ∷ [])) ≡ denominator x vs ⊗ (x ⊖ v)
  unfolding denominator
  denominator-snoc x [] v = r.mul_comm _ _
  denominator-snoc x (w ∷ vs) v =
      ap (λ u. (x ⊖ w) ⊗ u) (denominator-snoc x vs v) ∙ sym (r.mul_assoc _ _ _)

  -- x is none of the points
  unfoldable pub Apart : R → List R → Type ℓ
  Apart x [] = Unit {ℓ}
  Apart x (v ∷ vs) = (x ≢ v) × Apart x vs

  unfoldable pub Distinct : List R → Type ℓ
  unfolding Apart
  Distinct [] = Unit {ℓ}
  Distinct (v ∷ vs) = Apart v vs × Distinct vs

  pub denominator-nonzero : (x : R) (vs : List R) → Apart x vs → denominator x vs ≢ r.zero
  unfolding denominator Apart
  denominator-nonzero x [] h = f.one-ne-zero
  denominator-nonzero x (v ∷ vs) h =
      nonzero-mul (x ⊖ v) (denominator x vs) (λ e. h.0 (difference-zero x v e))
        (denominator-nonzero x vs h.1)

  -- The weight of x where n and d are the products over the points before.
  abbrev pub weight : R → (R → R) → R → List R → R
  weight n d x post = (n ⊗ numerator post) ⊗ f.inv (d x ⊗ denominator x post)

  -- The sum over the points, where n and d x are the products over points that come before.
  unfoldable pub weighted : R → (R → R) → List R → (R → R) → R
  unfolding numerator denominator
  weighted n d [] k = r.zero
  weighted n d (x ∷ post) k =
      weight n d x post ⊗ k x ⊕ weighted (n ⊗ r.neg x) (λ z. d z ⊗ (z ⊖ x)) post k

  -- The weights of the points, in order.
  unfoldable pub weights : R → (R → R) → List R → List R
  weights n d [] = []
  weights n d (x ∷ post) = weight n d x post ∷ weights (n ⊗ r.neg x) (λ z. d z ⊗ (z ⊖ x)) post

  -- No point of the list makes d vanish.
  unfoldable pub Nonzero : (R → R) → List R → Type ℓ
  Nonzero d [] = Unit {ℓ}
  Nonzero d (v ∷ vs) = (d v ≢ r.zero) × Nonzero d vs

  weighted-cong :
      {n n' : R} {d d' : R → R} (vs : List R) (k : R → R)
      → n ≡ n'
      → ((z : R) → d z ≡ d' z)
      → weighted n d vs k ≡ weighted n' d' vs k
  weighted-cong vs k e h = ap₂ (λ u v. weighted u v vs k) e (fun_ext h)

  pub weighted-add :
      (n : R) (d : R → R) (vs : List R) (k l : R → R)
      → weighted n d vs (λ z. k z ⊕ l z) ≡ weighted n d vs k ⊕ weighted n d vs l
  unfolding weighted same_poly
  weighted-add n d [] k l = sym (r.zero-add _)
  weighted-add n d (x ∷ vs) k l =
      ap (λ u. weight n d x vs ⊗ (k x ⊕ l x) ⊕ u)
        (weighted-add (n ⊗ r.neg x) (λ z. d z ⊗ (z ⊖ x)) vs k l)
      ∙ ring_eq
          (weight n d x vs
            ∷ k x
            ∷ l x
            ∷ weighted (n ⊗ r.neg x) (λ z. d z ⊗ (z ⊖ x)) vs k
            ∷ weighted (n ⊗ r.neg x) (λ z. d z ⊗ (z ⊖ x)) vs l
            ∷ [])
          (var 0 :* (var 1 :+ var 2) :+ (var 3 :+ var 4))
          ((var 0 :* var 1 :+ var 3) :+ (var 0 :* var 2 :+ var 4)) refl

  pub weighted-scale :
      (c n : R) (d : R → R) (vs : List R) (k : R → R)
      → weighted n d vs (λ z. c ⊗ k z) ≡ c ⊗ weighted n d vs k
  unfolding weighted same_poly
  weighted-scale c n d [] k = sym (mul-zero c)
  weighted-scale c n d (x ∷ vs) k =
      ap (λ u. weight n d x vs ⊗ (c ⊗ k x) ⊕ u)
        (weighted-scale c (n ⊗ r.neg x) (λ z. d z ⊗ (z ⊖ x)) vs k)
      ∙ ring_eq (c ∷ weight n d x vs ∷ k x ∷ weighted (n ⊗ r.neg x) (λ z. d z ⊗ (z ⊖ x)) vs k ∷ [])
          (var 1 :* (var 0 :* var 2) :+ var 0 :* var 3) (var 0 :* (var 1 :* var 2 :+ var 3)) refl

  pub difference-nonzero : (x v : R) → v ≢ x → x ⊖ v ≢ r.zero
  difference-nonzero x v h e = h (sym (difference-zero x v e))

  Nonzero-step :
      (x : R) (d : R → R) (vs : List R)
      → Apart x vs
      → Nonzero d vs
      → Nonzero (λ z. d z ⊗ (z ⊖ x)) vs
  unfolding Apart Nonzero
  Nonzero-step x d [] ha hn = tt
  Nonzero-step x d (v ∷ vs) ha hn =
      (nonzero-mul _ _ hn.0 (difference-nonzero v x ha.0), Nonzero-step x d vs ha.1 hn.1)

  inverse-factor : (a b : R) → a ≢ r.zero → b ≢ r.zero → f.inv (a ⊗ b) ⊗ a ≡ f.inv b
  unfolding same_poly
  inverse-factor a b ha hb =
      field_cancel b _ _ hb
        (r.mul_assoc _ a b ∙ f.inv-mul (a ⊗ b) (nonzero-mul a b ha hb) ∙ sym (f.inv-mul b hb))

  -- With the factor x - v in the values, the point v goes out of the weights.
  weighted-factor :
      (v n : R) (d : R → R) (vs : List R) (k : R → R)
      → Apart v vs
      → Distinct vs
      → Nonzero d vs
      → weighted (n ⊗ r.neg v) (λ z. d z ⊗ (z ⊖ v)) vs (λ z. (z ⊖ v) ⊗ k z)
        ≡ r.neg v ⊗ weighted n d vs k
  unfolding weighted same_poly Apart Distinct Nonzero
  weighted-factor v n d [] k ha hd hn = sym (mul-zero _)
  weighted-factor v n d (x ∷ vs) k ha hd hn =
      ap₂ (λ s t. s ⊕ t) here
        (weighted-cong vs (λ z. (z ⊖ v) ⊗ k z)
            (ring_eq (n ∷ r.neg v ∷ r.neg x ∷ []) (var 0 :* var 1 :* var 2)
              (var 0 :* var 2 :* var 1) refl)
            (λ z.
              ring_eq (d z ∷ (z ⊖ v) ∷ (z ⊖ x) ∷ []) (var 0 :* var 1 :* var 2)
                (var 0 :* var 2 :* var 1) refl)
          ∙ weighted-factor v (n ⊗ r.neg x) (λ z. d z ⊗ (z ⊖ x)) vs k ha.1 hd.1
              (Nonzero-step x d vs hd.0 hn.1))
      ∙ sym (r.mul-add _ _ _)
    where
      here :
          (n ⊗ r.neg v ⊗ numerator vs) ⊗ f.inv (d x ⊗ (x ⊖ v) ⊗ denominator x vs) ⊗ ((x ⊖ v) ⊗ k x)
          ≡ r.neg v ⊗ ((n ⊗ numerator vs) ⊗ f.inv (d x ⊗ denominator x vs) ⊗ k x)
      here =
          ring_eq
            (n
              ∷ r.neg v
              ∷ numerator vs
              ∷ f.inv (d x ⊗ (x ⊖ v) ⊗ denominator x vs)
              ∷ (x ⊖ v)
              ∷ k x
              ∷ [])
            ((var 0 :* var 1 :* var 2) :* var 3 :* (var 4 :* var 5))
            (var 1 :* ((var 0 :* var 2) :* (var 3 :* var 4) :* var 5)) refl
          ∙ ap (λ u. r.neg v ⊗ ((n ⊗ numerator vs) ⊗ u ⊗ k x))
              (ap (λ u. f.inv u ⊗ (x ⊖ v))
                  (ring_eq (d x ∷ (x ⊖ v) ∷ denominator x vs ∷ []) (var 0 :* var 1 :* var 2)
                    (var 1 :* (var 0 :* var 2)) refl)
                ∙ inverse-factor (x ⊖ v) (d x ⊗ denominator x vs) (difference-nonzero x v ha.0)
                    (nonzero-mul _ _ hn.0 (denominator-nonzero x vs hd.0)))

  -- The weights of a list of points.
  abbrev pub interpolated : List R → (R → R) → R
  interpolated vs k = weighted r.one (λ z. r.one) vs k

  ones-Nonzero : (vs : List R) → Nonzero (λ z. r.one) vs
  unfolding Nonzero
  ones-Nonzero [] = tt
  ones-Nonzero (v ∷ vs) = (f.one-ne-zero, ones-Nonzero vs)

  vanishing : (w x u rest : R) → w ⊗ ((x ⊖ x) ⊗ u) ⊕ rest ≡ rest
  unfolding same_poly
  vanishing w x u rest =
      ring_eq (w ∷ x ∷ u ∷ rest ∷ []) (var 0 :* ((var 1 :- var 1) :* var 2) :+ var 3) (var 3) refl

  -- A polynomial that vanishes at the first point.
  pub interpolated-factor :
      (x : R) (vs : List R) (k : R → R)
      → Apart x vs
      → Distinct vs
      → interpolated (x ∷ vs) (λ z. (z ⊖ x) ⊗ k z) ≡ r.neg x ⊗ interpolated vs k
  unfolding weighted
  interpolated-factor x vs k ha hd =
      vanishing (weight r.one (λ z. r.one) x vs) x (k x) _
      ∙ weighted-factor x r.one (λ z. r.one) vs k ha hd (ones-Nonzero vs)

  -- A polynomial that vanishes at the second point.
  pub interpolated-second :
      (x y : R) (vs : List R) (k : R → R)
      → Distinct (x ∷ y ∷ vs)
      → interpolated (x ∷ y ∷ vs) (λ z. (z ⊖ y) ⊗ k z) ≡ r.neg y ⊗ interpolated (x ∷ vs) k
  unfolding weighted numerator denominator same_poly Distinct Apart Nonzero
  interpolated-second x y vs k hd = ap₂ (λ s t. s ⊕ t) here rest ∙ sym (r.mul-add _ _ _)
    where
      here :
          weight r.one (λ z. r.one) x (y ∷ vs) ⊗ ((x ⊖ y) ⊗ k x)
          ≡ r.neg y ⊗ (weight r.one (λ z. r.one) x vs ⊗ k x)
      here =
          ring_eq
            (r.one
              ∷ r.neg y
              ∷ numerator vs
              ∷ f.inv (r.one ⊗ ((x ⊖ y) ⊗ denominator x vs))
              ∷ (x ⊖ y)
              ∷ k x
              ∷ [])
            ((var 0 :* (var 1 :* var 2)) :* var 3 :* (var 4 :* var 5))
            (var 1 :* ((var 0 :* var 2) :* (var 3 :* var 4) :* var 5)) refl
          ∙ ap (λ u. r.neg y ⊗ ((r.one ⊗ numerator vs) ⊗ u ⊗ k x))
              (ap (λ u. f.inv u ⊗ (x ⊖ y))
                  (ring_eq (r.one ∷ (x ⊖ y) ∷ denominator x vs ∷ []) (var 0 :* (var 1 :* var 2))
                    (var 1 :* (var 0 :* var 2)) refl)
                ∙ inverse-factor (x ⊖ y) (r.one ⊗ denominator x vs)
                    (λ e. hd.0.0 (difference-zero x y e))
                    (nonzero-mul _ _ f.one-ne-zero (denominator-nonzero x vs hd.0.1)))

      rest :
          weighted (r.one ⊗ r.neg x) (λ z. r.one ⊗ (z ⊖ x)) (y ∷ vs) (λ z. (z ⊖ y) ⊗ k z)
          ≡ r.neg y ⊗ weighted (r.one ⊗ r.neg x) (λ z. r.one ⊗ (z ⊖ x)) vs k
      rest =
          vanishing (weight (r.one ⊗ r.neg x) (λ z. r.one ⊗ (z ⊖ x)) y vs) y (k y) _
          ∙ weighted-factor y (r.one ⊗ r.neg x) (λ z. r.one ⊗ (z ⊖ x)) vs k hd.1.0 hd.1.1
              (Nonzero-step x (λ z. r.one) vs hd.0.1 (ones-Nonzero vs))
