-- ===== src/OnlineOp/Complexes/Laws.antt =====
-- The complex operations compute in the ring of the pairs x + y i with i^2 = -1.
use proof_of_custody.Prelude.{◌≡◌, ◌≢◌, refl, sym, ap, ap₂, ◌∙◌, [], ◌∷◌}
use proof_of_custody.Ring.{Ring, mul-zero, ◌⊕◌, ◌⊗◌, ◌⊖◌}
use proof_of_custody.Ring.Solver.{ring_eq, same_poly, var, ◌:+◌, ◌:-◌, ◌:*◌, one_expr, zero_expr}
use proof_of_custody.Engine.{Engine}
use proof_of_custody.Engine.Program.{
  Yields, Yields-bind, Yields-pure, Yields-weaken, Fails, Fails-bind, Fails-after, division_by_zero,
  clear_ring,
}
use proof_of_custody.OnlineOp.Linear.{add_inplace}
use proof_of_custody.OnlineOp.Linear.Laws.{mul_lem, opening}
use proof_of_custody.OnlineOp.Products.{inv_inplace}
use proof_of_custody.OnlineOp.Products.Laws.{
  sqr_lem, inv_lem, inv_zero, product-nonzero, MasksNonzero,
}
use proof_of_custody.OnlineOp.Complexes.{
  Complex, opened_complex, complex_add, complex_add_inplace, complex_sub, complex_sub_inplace,
  complex_sub_plain, complex_mul_plain, complex_mul, complex_mul_inplace, complex_sqr, complex_inv,
  complex_div, complex_div_inplace, mul_complex_plain,
}

pub complex_eq : {A : Type 0} {a b : Complex A} → a.real ≡ b.real → a.imag ≡ b.imag → a ≡ b
complex_eq p q = λ i. record { real = p i; imag = q i }

module _ ⦃E : Engine⦄ where
  abbrev pub times : Complex E.Clear → Complex E.Clear → Complex E.Clear
  times a b = record {
    real = a.real ⊗ b.real ⊖ a.imag ⊗ b.imag;
    imag = a.real ⊗ b.imag ⊕ a.imag ⊗ b.real;
  }

  pub times_assoc : (a b c : Complex E.Clear) → times (times a b) c ≡ times a (times b c)
  unfolding same_poly
  times_assoc a b c =
      let env = a.real ∷ a.imag ∷ b.real ∷ b.imag ∷ c.real ∷ c.imag ∷ [] in
      complex_eq
        (ring_eq env
          ((var 0 :* var 2 :- var 1 :* var 3) :* var 4
            :- (var 0 :* var 3 :+ var 1 :* var 2) :* var 5)
          (var 0 :* (var 2 :* var 4 :- var 3 :* var 5)
            :- var 1 :* (var 2 :* var 5 :+ var 3 :* var 4))
          refl)
        (ring_eq env
          ((var 0 :* var 2 :- var 1 :* var 3) :* var 5
            :+ (var 0 :* var 3 :+ var 1 :* var 2) :* var 4)
          (var 0 :* (var 2 :* var 5 :+ var 3 :* var 4)
            :+ var 1 :* (var 2 :* var 4 :- var 3 :* var 5))
          refl)

  pub times_comm : (a b : Complex E.Clear) → times a b ≡ times b a
  unfolding same_poly
  times_comm a b =
      let env = a.real ∷ a.imag ∷ b.real ∷ b.imag ∷ [] in
      complex_eq
        (ring_eq env (var 0 :* var 2 :- var 1 :* var 3) (var 2 :* var 0 :- var 3 :* var 1) refl)
        (ring_eq env (var 0 :* var 3 :+ var 1 :* var 2) (var 2 :* var 1 :+ var 3 :* var 0) refl)

  pub times-one :
      (a : Complex E.Clear) → times (record { real = E.ring.one; imag = E.ring.zero }) a ≡ a
  unfolding same_poly
  times-one a =
      let env = a.real ∷ a.imag ∷ [] in
      complex_eq (ring_eq env (one_expr :* var 0 :- zero_expr :* var 1) (var 0) refl)
        (ring_eq env (one_expr :* var 1 :+ zero_expr :* var 0) (var 1) refl)

  pub times_distrib :
      (a b c : Complex E.Clear)
      → times a (record { real = b.real ⊕ c.real; imag = b.imag ⊕ c.imag }) ≡ record {
        real = (times a b).real ⊕ (times a c).real;
        imag = (times a b).imag ⊕ (times a c).imag;
      }
  unfolding same_poly
  times_distrib a b c =
      let env = a.real ∷ a.imag ∷ b.real ∷ b.imag ∷ c.real ∷ c.imag ∷ [] in
      complex_eq
        (ring_eq env (var 0 :* (var 2 :+ var 4) :- var 1 :* (var 3 :+ var 5))
          ((var 0 :* var 2 :- var 1 :* var 3) :+ (var 0 :* var 4 :- var 1 :* var 5)) refl)
        (ring_eq env (var 0 :* (var 3 :+ var 5) :+ var 1 :* (var 2 :+ var 4))
          ((var 0 :* var 3 :+ var 1 :* var 2) :+ (var 0 :* var 5 :+ var 1 :* var 4)) refl)

  -- The ring of pairs x + y i with i^2 = -1 over the field of the engine.
  abbrev pub complex_ring : Ring (Complex E.Clear)
  complex_ring = record {
    zero = record { real = E.ring.zero; imag = E.ring.zero };
    one = record { real = E.ring.one; imag = E.ring.zero };
    add = λ a b. record { real = a.real ⊕ b.real; imag = a.imag ⊕ b.imag };
    mul = times;
    neg = λ a. record { real = E.ring.neg a.real; imag = E.ring.neg a.imag };
    add_assoc = λ a b c. complex_eq (E.ring.add_assoc _ _ _) (E.ring.add_assoc _ _ _);
    add_comm = λ a b. complex_eq (E.ring.add_comm _ _) (E.ring.add_comm _ _);
    zero-add = λ a. complex_eq (E.ring.zero-add _) (E.ring.zero-add _);
    neg-add = λ a. complex_eq (E.ring.neg-add _) (E.ring.neg-add _);
    mul_assoc = times_assoc;
    mul_comm = times_comm;
    one-mul = times-one;
    mul-add = times_distrib;
  }

  -- The product of shared complex numbers opens to the product of their values.
  pub complex_mul_lem :
      (a b : Complex E.Share)
      → Yields
          (complex_mul a b)
          (λ c. opened_complex c ≡ times (opened_complex a) (opened_complex b))
  unfolding complex_mul
  complex_mul_lem a b = Yields-bind (mul_lem a.real b.real) (λ rr h1.
      Yields-bind (mul_lem a.imag b.imag) (λ ii h2. Yields-bind (mul_lem a.real b.imag) (λ ri h3.
        Yields-bind (mul_lem a.imag b.real)
          (λ ir h4. Yields-pure _ (complex_eq (simp (opening, h1, h2)) (simp (opening, h3, h4)))))))

  -- The square of a shared complex number opens to the product of its value with itself.
  pub complex_sqr_lem :
      (a : Complex E.Share)
      → Yields (complex_sqr a) (λ c. opened_complex c ≡ times (opened_complex a) (opened_complex a))
  unfolding complex_sqr same_poly
  complex_sqr_lem a = Yields-bind (sqr_lem a.real) (λ rr h1. Yields-bind (sqr_lem a.imag) (λ ii h2.
      Yields-bind (mul_lem a.real a.imag) (λ im h3. Yields-pure _ (
        complex_eq (simp (opening, h1, h2)) (
          simp (opening, h3)
            (ring_eq (E.opened a.real ∷ E.opened a.imag ∷ []) (var 0 :* var 1 :+ var 0 :* var 1)
              (var 0 :* var 1 :+ var 1 :* var 0) refl))))))

  -- x^2 + y^2
  abbrev pub norm : Complex E.Clear → E.Clear
  norm a = a.real ⊗ a.real ⊕ a.imag ⊗ a.imag

  -- Where x^2 + y^2 is not 0, the inverse of x + y i times x + y i is 1.
  pub complex_inv_lem :
      MasksNonzero
      → (a : Complex E.Share) → norm (opened_complex a) ≢ E.ring.zero
      → Yields (complex_inv a) (λ c. times (opened_complex c) (opened_complex a) ≡ complex_ring.one)
  unfolding complex_inv inv_inplace same_poly
  complex_inv_lem masks a h = Yields-bind (sqr_lem a.real) (λ re2 h1.
      Yields-bind (sqr_lem a.imag) (λ im2 h2.
        let e : E.opened (add_inplace re2 im2) ≡ norm (opened_complex a) = simp (opening, h1, h2) in
        Yields-bind (inv_lem masks (add_inplace re2 im2) (rw e h)) (λ rr h3.
          Yields-bind (mul_lem a.real rr) (λ re h4.
            Yields-bind (mul_lem a.imag (E.scale rr (E.ring.neg E.ring.one))) (λ im h5.
              Yields-pure _ (
                inverse_of (E.opened a.real) (E.opened a.imag) (E.opened rr) (E.opened re)
                  (E.opened im) h4 (h5 ∙ ap (λ x. E.opened a.imag ⊗ x) (E.opened-scale rr _))
                  (ap (λ x. E.opened rr ⊗ x) (sym e) ∙ h3)))))))
    where
      inverse_of :
          (x y r u v : E.Clear)
          → u ≡ x ⊗ r
          → v ≡ y ⊗ (r ⊗ E.ring.neg E.ring.one)
          → r ⊗ (x ⊗ x ⊕ y ⊗ y) ≡ E.ring.one
          → times (record { real = u; imag = v }) (record { real = x; imag = y }) ≡ complex_ring.one
      inverse_of x y r u v hu hv hr =
          complex_eq
            (ap₂ (λ s t. s ⊗ x ⊖ t ⊗ y) hu (hv ∙ negated)
              ∙ ring_eq (x ∷ y ∷ r ∷ [])
                  ((var 0 :* var 2) :* var 0 :- (zero_expr :- var 1 :* var 2) :* var 1)
                  (var 2 :* (var 0 :* var 0 :+ var 1 :* var 1)) refl
              ∙ hr)
            (ap₂ (λ s t. s ⊗ y ⊕ t ⊗ x) hu (hv ∙ negated)
              ∙ ring_eq (x ∷ y ∷ r ∷ [])
                  ((var 0 :* var 2) :* var 1 :+ (zero_expr :- var 1 :* var 2) :* var 0) zero_expr
                  refl)
        where
          negated : y ⊗ (r ⊗ E.ring.neg E.ring.one) ≡ E.ring.zero ⊖ y ⊗ r
          negated =
              ap (λ t. y ⊗ (r ⊗ t)) (sym (E.ring.zero-add _))
              ∙ ring_eq (y ∷ r ∷ []) (var 0 :* (var 1 :* (zero_expr :- one_expr)))
                  (zero_expr :- var 0 :* var 1) refl

  -- A complex quotient times the divisor is the dividend, where x^2 + y^2 of the divisor is not
  -- zero and no mask is zero.
  pub complex_div_lem :
      MasksNonzero
      → (a b : Complex E.Share) → norm (opened_complex b) ≢ E.ring.zero
      → Yields
          (complex_div a b)
          (λ c. times (opened_complex c) (opened_complex b) ≡ opened_complex a)
  unfolding complex_div same_poly
  complex_div_lem masks a b h = Yields-bind (complex_inv_lem masks b h) (λ c hc.
      Yields-weaken (complex_mul_lem c a) (λ d hd.
        ap (λ x. times x (opened_complex b)) hd
        ∙ ring_eq ⦃r = complex_ring⦄ (opened_complex c ∷ opened_complex a ∷ opened_complex b ∷ [])
            (var 0 :* var 1 :* var 2) (var 0 :* var 2 :* var 1) refl
        ∙ ap (λ x. times x (opened_complex a)) hc
        ∙ complex_ring.one-mul _))

  -- A complex number whose x^2 + y^2 is 0 has no inverse, whatever the masks.
  pub complex_inv_zero :
      (a : Complex E.Share)
      → norm (opened_complex a) ≡ E.ring.zero
      → Fails (complex_inv a) division_by_zero
  unfolding complex_inv inv_inplace
  complex_inv_zero a h = Fails-after (sqr_lem a.real) (λ re2 h1.
      Fails-after (sqr_lem a.imag)
        (λ im2 h2. Fails-bind _ (inv_zero (add_inplace re2 im2) (simp (opening, h1, h2) h))))

  pub complex_div_zero :
      (a b : Complex E.Share)
      → norm (opened_complex b) ≡ E.ring.zero
      → Fails (complex_div a b) division_by_zero
  unfolding complex_div
  complex_div_zero a b h = Fails-bind _ (complex_inv_zero b h)

  -- The product of values with a nonzero norm has a nonzero norm.
  pub norm-times :
      (a b : Complex E.Clear)
      → norm a ≢ E.ring.zero
      → norm b ≢ E.ring.zero
      → norm (times a b) ≢ E.ring.zero
  unfolding same_poly
  norm-times a b ha hb e =
      let re = var 0 :* var 2 :- var 1 :* var 3 in
      let im = var 0 :* var 3 :+ var 1 :* var 2 in
      product-nonzero (norm a) (norm b) ha hb (
        ring_eq (a.real ∷ a.imag ∷ b.real ∷ b.imag ∷ [])
          ((var 0 :* var 0 :+ var 1 :* var 1) :* (var 2 :* var 2 :+ var 3 :* var 3))
          (re :* re :+ im :* im) refl
        ∙ e)

  -- Values with a nonzero norm can be cancelled.
  pub complex_cancel :
      (d x y : Complex E.Clear) → norm d ≢ E.ring.zero → times x d ≡ times y d → x ≡ y
  unfolding same_poly
  complex_cancel d x y h e = sym (undo x) ∙ ap (λ t. times t inverse) e ∙ undo y
    where
      inverse : Complex E.Clear
      inverse =
          times (record { real = d.real; imag = E.ring.zero ⊖ d.imag })
            (record { real = E.invert (norm d); imag = E.ring.zero })

      unit : (u : E.Clear) → (norm d ⊗ E.invert (norm d)) ⊗ u ≡ u
      unit u = ap (λ v. v ⊗ u) (E.invert-mul (norm d) h) ∙ E.ring.one-mul u

      undo : (t : Complex E.Clear) → times (times t d) inverse ≡ t
      undo t =
          let env = t.real ∷ t.imag ∷ d.real ∷ d.imag ∷ E.invert (norm d) ∷ [] in
          let n = var 2 :* var 2 :+ var 3 :* var 3 in
          let re = var 2 :* var 4 :- (zero_expr :- var 3) :* zero_expr in
          let im = var 2 :* zero_expr :+ (zero_expr :- var 3) :* var 4 in
          let tr = var 0 :* var 2 :- var 1 :* var 3 in
          let ti = var 0 :* var 3 :+ var 1 :* var 2 in
          complex_eq (ring_eq env (tr :* re :- ti :* im) ((n :* var 4) :* var 0) refl ∙ unit t.real)
            (ring_eq env (tr :* im :+ ti :* re) ((n :* var 4) :* var 1) refl ∙ unit t.imag)

  -- The value of each local operation is the operation of the ring on the values.
  pub opened-complex_add :
      (a : Complex E.Share) (b : Complex E.Share)
      → opened_complex (complex_add a b) ≡ complex_ring.add (opened_complex a) (opened_complex b)
  unfolding complex_add
  opened-complex_add a b = complex_eq (simp opening) (simp opening)

  pub opened-complex_add_inplace :
      (a : Complex E.Share) (b : Complex E.Share)
      → opened_complex (complex_add_inplace a b)
        ≡ complex_ring.add (opened_complex a) (opened_complex b)
  unfolding complex_add_inplace complex_add
  opened-complex_add_inplace a b = complex_eq (simp opening) (simp opening)

  pub opened-complex_sub :
      (a : Complex E.Share) (b : Complex E.Share)
      → opened_complex (complex_sub a b)
        ≡ complex_ring.add (opened_complex a) (complex_ring.neg (opened_complex b))
  unfolding complex_sub
  opened-complex_sub a b = complex_eq (simp opening) (simp opening)

  pub opened-complex_sub_inplace :
      (a : Complex E.Share) (b : Complex E.Share)
      → opened_complex (complex_sub_inplace a b)
        ≡ complex_ring.add (opened_complex a) (complex_ring.neg (opened_complex b))
  unfolding complex_sub_inplace complex_sub
  opened-complex_sub_inplace a b = complex_eq (simp opening) (simp opening)

  pub opened-complex_sub_plain :
      (a : Complex E.Share) (b : Complex E.Clear)
      → opened_complex (complex_sub_plain a b)
        ≡ complex_ring.add (opened_complex a) (complex_ring.neg b)
  unfolding complex_sub_plain
  opened-complex_sub_plain a b = complex_eq (simp opening) (simp opening)

  pub opened-complex_mul_plain :
      (a : Complex E.Share) (b : Complex E.Clear)
      → opened_complex (complex_mul_plain a b) ≡ times (opened_complex a) b
  unfolding complex_mul_plain
  opened-complex_mul_plain a b = complex_eq (simp opening) (simp opening)

  pub mul_complex_plain_lem : (x y : Complex E.Clear) → mul_complex_plain x y ≡ times x y
  unfolding mul_complex_plain
  mul_complex_plain_lem x y = refl

  pub complex_mul_inplace_lem :
      (a b : Complex E.Share)
      → Yields
          (complex_mul_inplace a b)
          (λ c. opened_complex c ≡ times (opened_complex a) (opened_complex b))
  unfolding complex_mul_inplace
  complex_mul_inplace_lem = complex_mul_lem

  pub complex_div_inplace_lem :
      MasksNonzero
      → (a b : Complex E.Share) → norm (opened_complex b) ≢ E.ring.zero
      → Yields
          (complex_div_inplace a b)
          (λ c. times (opened_complex c) (opened_complex b) ≡ opened_complex a)
  unfolding complex_div_inplace
  complex_div_inplace_lem = complex_div_lem

  -- A division by a complex number that opens to 0 is an exception.
  pub complex_div_inplace_zero :
      (a b : Complex E.Share)
      → opened_complex b ≡ complex_ring.zero
      → Fails (complex_div_inplace a b) division_by_zero
  unfolding complex_div_inplace
  complex_div_inplace_zero a b h = complex_div_zero a b (
      ap norm h
      ∙ ap₂ (λ u v. u ⊕ v) (mul-zero E.ring.zero) (mul-zero E.ring.zero)
      ∙ E.ring.zero-add _)
