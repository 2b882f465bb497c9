-- ===== src/Group/Laws.antt =====
-- The affine sum opens to the sum of two points of the curve with different x, and fails for equal
-- x, also where the points are equal.
use proof_of_custody.Prelude.{◌≡◌, refl, sym, ap, ap₂, ◌∙◌, [], ◌∷◌}
use proof_of_custody.Ring.{◌⊕◌, ◌⊗◌, ◌⊖◌, add-neg, mul-zero, zero-mul}
use proof_of_custody.Ring.Solver.{ring_eq, same_poly, var, ◌:+◌, ◌:-◌, ◌:*◌}
use proof_of_custody.Engine.{Engine}
use proof_of_custody.OnlineOp.Products.Laws.{MasksNonzero}
use proof_of_custody.Group.Interface.{Coordinates, coordinate_ring, opening}
use proof_of_custody.Engine.Program.{
  Yields, Yields-bind, Yields-pure, Fails, Fails-bind, division_by_zero,
}
use proof_of_custody.Group.{Affine, add_plain_aff, add_aff}
use proof_of_custody.Group.Chord.{curve, chord}

module _ ⦃E : Engine⦄ ⦃F : Coordinates⦄ where
  abbrev pub opened_point : Affine F.Elem → Affine F.Plain
  opened_point a = record { x = F.opened a.x; y = F.opened a.y }

  -- y^2 = x^3 + b
  abbrev pub OnCurve : F.Plain → Affine F.Plain → Type 0
  OnCurve b p = curve b p.x p.y ≡ F.ring.zero

  -- The third point of the chord, mirrored: the slope m is that of the chord, the mirror image of c
  -- is on the chord, and m^2 is the sum of the three x.
  pub record IsSum (p q c : Affine F.Plain) : Type 0 where
    pub slope : F.Plain
    pub slope-chord : slope ⊗ (p.x ⊖ q.x) ≡ p.y ⊖ q.y
    pub sum_x : c.x ⊕ p.x ⊕ q.x ≡ slope ⊗ slope
    pub mirrored : F.ring.neg c.y ≡ p.y ⊕ slope ⊗ (c.x ⊖ p.x)

  -- If the slope is that of two points of the curve with different x, the third point is on it.
  third-OnCurve :
      (b : F.Plain) (p q : Affine F.Plain) (m : F.Plain)
      → F.Divisor (p.x ⊖ q.x)
      → m ⊗ (p.x ⊖ q.x) ≡ p.y ⊖ q.y
      → OnCurve b p
      → OnCurve b q
      → curve b (m ⊗ m ⊖ p.x ⊖ q.x) (m ⊗ (p.x ⊖ (m ⊗ m ⊖ p.x ⊖ q.x)) ⊖ p.y) ≡ F.ring.zero
  unfolding same_poly
  third-OnCurve b p q m h e hp hq =
      let x3 = m ⊗ m ⊖ p.x ⊖ q.x in
      let other : p.y ⊖ m ⊗ (p.x ⊖ q.x) ≡ q.y =
        ap (λ v. p.y ⊖ v) e ∙ ring_eq (p.y ∷ q.y ∷ []) (var 0 :- (var 0 :- var 1)) (var 1) refl in
      F.Divisor-cancel (p.x ⊖ q.x) _ F.ring.zero h (
        F.ring.mul_comm _ _
        ∙ chord p.x p.y q.x m b
        ∙ ap₂ (λ u v. (x3 ⊖ q.x) ⊗ u ⊖ (x3 ⊖ p.x) ⊗ v) hp (ap (λ v. curve b q.x v) other ∙ hq)
        ∙ ap₂ (λ u v. u ⊖ v) (mul-zero _) (mul-zero _)
        ∙ add-neg F.ring.zero
        ∙ sym (zero-mul _))

  is_sum :
      (p q c : Affine F.Plain) (m : F.Plain)
      → m ⊗ (p.x ⊖ q.x) ≡ p.y ⊖ q.y
      → c.x ≡ m ⊗ m ⊖ p.x ⊖ q.x
      → c.y ≡ m ⊗ (p.x ⊖ c.x) ⊖ p.y
      → IsSum p q c
  unfolding same_poly
  is_sum p q c m e hx hy = record {
    slope = m;
    slope-chord = e;
    sum_x =
        ap (λ v. v ⊕ p.x ⊕ q.x) hx
        ∙ ring_eq (m ∷ p.x ∷ q.x ∷ []) (((var 0 :* var 0 :- var 1 :- var 2) :+ var 1) :+ var 2)
            (var 0 :* var 0) refl;
    mirrored =
        ap F.ring.neg hy
        ∙ sym (F.ring.zero-add _)
        ∙ ap (λ v. v ⊕ F.ring.neg (m ⊗ (p.x ⊖ c.x) ⊖ p.y)) (sym (add-neg p.y))
        ∙ ring_eq (m ∷ p.x ∷ p.y ∷ c.x ∷ [])
            ((var 2 :- var 2) :- (var 0 :* (var 1 :- var 3) :- var 2))
            (var 2 :+ var 0 :* (var 3 :- var 1)) refl;
  }

  third_point :
      (b : F.Plain) (p q : Affine F.Plain) (m : F.Plain) (c : Affine F.Plain)
      → F.Divisor (p.x ⊖ q.x)
      → m ⊗ (p.x ⊖ q.x) ≡ p.y ⊖ q.y
      → OnCurve b p
      → OnCurve b q
      → c.x ≡ m ⊗ m ⊖ p.x ⊖ q.x
      → c.y ≡ m ⊗ (p.x ⊖ c.x) ⊖ p.y
      → OnCurve b c × IsSum p q c
  third_point b p q m c h e hp hq hx hy = (
    ap₂ (curve b) hx (hy ∙ ap (λ v. m ⊗ (p.x ⊖ v) ⊖ p.y) hx) ∙ third-OnCurve b p q m h e hp hq,
    is_sum p q c m e hx hy,
  )

  -- The sum of two shared points of the curve with different x, by nonzero masks: the result opens
  -- to a point of the curve, and to the mirrored third point of their chord.
  pub add_aff_lem :
      MasksNonzero
      → (b : F.Plain) (p : Affine F.Elem) (q : Affine F.Elem)
      → F.Divisor (F.opened p.x ⊖ F.opened q.x)
      → OnCurve b (opened_point p)
      → OnCurve b (opened_point q)
      → Yields (add_aff p q) (λ c.
        OnCurve b (opened_point c) × IsSum (opened_point p) (opened_point q) (opened_point c))
  unfolding add_aff
  add_aff_lem masks b p q h hp hq =
      Yields-bind (F.div_inplace_lem masks (F.sub p.y q.y) (F.sub p.x q.x) (simp opening h))
        (λ m hm. Yields-bind (F.sqr_lem m) (λ mm hmm.
          Yields-bind (F.mul_inplace_lem (F.sub p.x (F.sub (F.sub_inplace mm p.x) q.x)) m)
            (λ cy hcy. Yields-pure _ (
              third_point b (opened_point p) (opened_point q) (F.opened m)
                (opened_point
                  (record { x = F.sub (F.sub_inplace mm p.x) q.x; y = F.sub_inplace cy p.y }))
                h (simp opening at hm) hp hq
                (simp opening (ap (λ v. v ⊖ F.opened p.x ⊖ F.opened q.x) hmm))
                (simp opening
                  (ap (λ v. v ⊖ F.opened p.y) (hcy ∙ F.ring.mul_comm _ _ ∙ simp opening refl)))))))

  -- The affine sum of a shared and a clear point of the curve with different x opens to a point
  -- of the curve, the mirrored third point of their chord, if no mask is zero.
  pub add_plain_aff_lem :
      MasksNonzero
      → (b : F.Plain) (p : Affine F.Elem) (q : Affine F.Plain) → F.Divisor (F.opened p.x ⊖ q.x)
      → OnCurve b (opened_point p)
      → OnCurve b q
      → Yields
          (add_plain_aff p q)
          (λ c. OnCurve b (opened_point c) × IsSum (opened_point p) q (opened_point c))
  unfolding add_plain_aff
  add_plain_aff_lem masks b p q h hp hq =
      Yields-bind
        (F.div_inplace_lem masks (F.sub_plain p.y q.y) (F.sub_plain p.x q.x) (simp opening h))
        (λ m hm. Yields-bind (F.sqr_lem m) (λ mm hmm.
          Yields-bind (F.mul_inplace_lem (F.sub p.x (F.sub_plain (F.sub_inplace mm p.x) q.x)) m)
            (λ cy hcy. Yields-pure _ (
              third_point b (opened_point p) q (F.opened m)
                (opened_point
                  (record { x = F.sub_plain (F.sub_inplace mm p.x) q.x; y = F.sub_inplace cy p.y }))
                h (simp opening at hm) hp hq (simp opening (ap (λ v. v ⊖ F.opened p.x ⊖ q.x) hmm))
                (simp opening
                  (ap (λ v. v ⊖ F.opened p.y) (hcy ∙ F.ring.mul_comm _ _ ∙ simp opening refl)))))))

  -- Two shared points with the same x, the doubling of a point among them, are an exception.
  pub add_aff-Fails :
      (p q : Affine F.Elem) → F.opened p.x ≡ F.opened q.x → Fails (add_aff p q) division_by_zero
  unfolding add_aff
  add_aff-Fails p q h = Fails-bind _ (
      F.div_inplace-Fails (F.sub p.y q.y) (F.sub p.x q.x)
        (simp opening (ap (λ v. v ⊖ F.opened q.x) h ∙ add-neg _)))
