-- ===== src/OnlineOp/Products/Laws.antt =====
-- The values of squares, inverses and quotients, and when an inverse fails.
use proof_of_custody.Prelude.{
  ◌≡◌, ◌≢◌, refl, sym, ap, ◌∙◌, ◌≡⟨◌⟩◌, ◌∎, true, not, [], ◌∷◌, inl, inr, Bool-cases,
}
use proof_of_custody.Ring.{◌⊗◌, mul-zero, zero-mul}
use proof_of_custody.Ring.Solver.{ring_eq, same_poly, var, ◌:+◌, ◌:-◌, ◌:*◌}
use proof_of_custody.Engine.{Engine}
use proof_of_custody.Engine.Program.{
  M, Error, Yields, Yields-bind, Yields-call, Yields-pure, Yields-weaken, Yields-index,
  Yields-guard, Fails, Fails-bind, Fails-after, Fails-guard, index, ◌>>=◌, clear_ring,
  division_by_zero,
}
use proof_of_custody.OnlineOp.Linear.{reveal_vec}
use proof_of_custody.OnlineOp.Linear.Laws.{mul_lem, mul_inplace_lem, reveal_vec_lem, opening}
use proof_of_custody.OnlineOp.Products.{sqr, inv, div, div_inplace}

module _ ⦃E : Engine⦄ where
  -- Opening one share.
  reveal_one :
      (a : E.Share) {B : Type 0} (f : E.Clear → M B) {Q : B → Type 0}
      → Yields (f (E.opened a)) Q
      → Yields (do vc ← reveal_vec (a ∷ []); v ← index vc 0; f v) Q
  reveal_one a f y = Yields-bind (reveal_vec_lem (a ∷ [])) (λ vc h.
      Yields-bind (Yields-index {P = λ v. v ≡ E.opened a} vc 0 (E.opened a) (rw h) refl)
        (λ v e. rw e y))

  reveal_one-Fails :
      (a : E.Share) {B : Type 0} (f : E.Clear → M B) {e : Error}
      → Fails (f (E.opened a)) e
      → Fails (do vc ← reveal_vec (a ∷ []); v ← index vc 0; f v) e
  reveal_one-Fails a f y = Fails-after (reveal_vec_lem (a ∷ [])) (λ vc h.
      Fails-after (Yields-index {P = λ v. v ≡ E.opened a} vc 0 (E.opened a) (rw h) refl)
        (λ v e. rw e y))

  -- The square of a share opens to the square of its value.
  pub sqr_lem : (a : E.Share) → Yields (sqr a) (λ c. E.opened c ≡ E.opened a ⊗ E.opened a)
  unfolding sqr same_poly
  sqr_lem a =
      Yields-bind {P = λ sp. E.opened sp.1 ≡ E.opened sp.0 ⊗ E.opened sp.0}
        (Yields-call E.get_two E.get_two-square)
        (λ sp h. reveal_one (E.sub_share a sp.0) _ (
          Yields-pure _ (
            rw (E.opened-sub_share a sp.0) (
              simp (opening, h)
                (ring_eq (E.opened a ∷ E.opened sp.0 ∷ [])
                  (var 1 :* var 1
                    :+ var 1 :* (var 0 :- var 1)
                    :+ var 1 :* (var 0 :- var 1)
                    :+ (var 0 :- var 1) :* (var 0 :- var 1))
                  (var 0 :* var 0) refl)))))

  pub mul-ne-zero : (x y : E.Clear) → x ≢ E.ring.zero → y ≢ E.ring.zero → x ⊗ y ≢ E.ring.zero
  unfolding same_poly
  mul-ne-zero x y hx hy h = hy (
      y
      ≡⟨ sym (E.ring.one-mul y) ⟩ E.ring.one ⊗ y
      ≡⟨ ap (λ u. u ⊗ y) (sym (E.invert-mul x hx)) ⟩ (x ⊗ E.invert x) ⊗ y
      ≡⟨ ring_eq (x ∷ E.invert x ∷ y ∷ []) ((var 0 :* var 1) :* var 2) (var 1 :* (var 0 :* var 2))
          refl ⟩
        E.invert x ⊗ (x ⊗ y)
      ≡⟨ ap (λ u. E.invert x ⊗ u) h ⟩ E.invert x ⊗ E.ring.zero
      ≡⟨ mul-zero (E.invert x) ⟩ E.ring.zero ∎)

  is_zero_false : (x : E.Clear) → x ≢ E.ring.zero → not (E.is_zero x) ≡ true
  is_zero_false x h = elim (Bool-cases (E.is_zero x)) [
    | inl e ↦ absurd (h ((E.is_zero_iff x).0 e))
    | inr e ↦ rw e
  ]

  -- No pair (r, r * r) that the preprocessing hands out has r = 0.
  abbrev pub MasksNonzero : Type 0
  MasksNonzero = (s : E.State) → E.opened (E.get_two s).0.0 ≢ E.ring.zero

  -- The inverse of a share of a nonzero value, times the value, is 1, if no mask is zero.
  pub inv_lem :
      MasksNonzero
      → (a : E.Share) → E.opened a ≢ E.ring.zero
      → Yields (inv a) (λ c. E.opened c ⊗ E.opened a ≡ E.ring.one)
  unfolding inv same_poly
  inv_lem masks a h =
      Yields-bind {P = λ sp. E.opened sp.0 ≢ E.ring.zero} (Yields-call E.get_two masks) (λ sp hr.
        Yields-bind (mul_lem sp.0 a) (λ c hc. reveal_one c _ (
          let hx : E.opened c ≢ E.ring.zero = rw hc (mul-ne-zero _ _ hr h) in
          Yields-guard division_by_zero (is_zero_false (E.opened c) hx) (
            Yields-pure _ (
              simp opening (
                ring_eq (E.opened sp.0 ∷ E.opened a ∷ E.invert (E.opened c) ∷ [])
                  (var 0 :* var 2 :* var 1) (var 0 :* var 1 :* var 2) refl
                ∙ ap (λ x. x ⊗ E.invert (E.opened c)) (sym hc)
                ∙ E.invert-mul (E.opened c) hx))))))

  -- The inverse of a share that opens to 0 is an exception, whatever the masks.
  pub inv_zero : (a : E.Share) → E.opened a ≡ E.ring.zero → Fails (inv a) division_by_zero
  unfolding inv
  inv_zero a h = Fails-after {P = λ sp. sp ≡ sp} (Yields-call E.get_two (λ s. refl)) (λ sp _.
      Fails-after (mul_lem sp.0 a) (λ c hc. reveal_one-Fails c _ (
        Fails-guard division_by_zero _
          (rw ((E.is_zero_iff (E.opened c)).1 (hc ∙ rw h (mul-zero _)))))))

  -- A quotient times the divisor is the dividend, for a nonzero divisor and nonzero masks.
  pub div_lem :
      MasksNonzero
      → (a b : E.Share) → E.opened b ≢ E.ring.zero
      → Yields (div a b) (λ c. E.opened c ⊗ E.opened b ≡ E.opened a)
  unfolding div same_poly
  div_lem masks a b h = Yields-bind (inv_lem masks b h) (λ c hc.
      Yields-weaken (mul_inplace_lem c a) (λ d hd. rw hd (
        ring_eq (E.opened c ∷ E.opened a ∷ E.opened b ∷ []) (var 0 :* var 1 :* var 2)
          (var 0 :* var 2 :* var 1) refl
        ∙ ap (λ x. x ⊗ E.opened a) hc
        ∙ E.ring.one-mul _)))

  -- A division by a share that opens to 0 is an exception.
  pub div_zero : (a b : E.Share) → E.opened b ≡ E.ring.zero → Fails (div a b) division_by_zero
  unfolding div
  div_zero a b h = Fails-bind _ (inv_zero b h)

  -- A quotient is determined by its product with the divisor.
  pub quotient_unique : (x y z : E.Clear) → z ≢ E.ring.zero → x ⊗ z ≡ y ⊗ z → x ≡ y
  unfolding same_poly
  quotient_unique x y z h e = undo x ∙ ap (λ u. u ⊗ E.invert z) e ∙ sym (undo y)
    where
      undo : (u : E.Clear) → u ≡ (u ⊗ z) ⊗ E.invert z
      undo u = sym (
          E.ring.mul_assoc u z (E.invert z)
          ∙ ap (λ v. u ⊗ v) (E.invert-mul z h)
          ∙ E.ring.mul_comm u E.ring.one
          ∙ E.ring.one-mul u)

  pub product-nonzero : (x y : E.Clear) → x ≢ E.ring.zero → y ≢ E.ring.zero → x ⊗ y ≢ E.ring.zero
  product-nonzero x y hx hy e = hx (quotient_unique x E.ring.zero y hy (e ∙ sym (zero-mul y)))

  pub div_inplace_lem :
      MasksNonzero
      → (a b : E.Share) → E.opened b ≢ E.ring.zero
      → Yields (div_inplace a b) (λ c. E.opened c ⊗ E.opened b ≡ E.opened a)
  unfolding div_inplace
  div_inplace_lem = div_lem

  pub div_inplace_zero :
      (a b : E.Share) → E.opened b ≡ E.ring.zero → Fails (div_inplace a b) division_by_zero
  unfolding div_inplace
  div_inplace_zero = div_zero
