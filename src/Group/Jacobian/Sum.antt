-- ===== src/Group/Jacobian/Sum.antt =====
-- The Jacobian sums stand for the affine sum.
use proof_of_custody.Prelude.{◌≡◌, refl, sym, ap, ap₂, subst, ◌∙◌, [], ◌∷◌}
use proof_of_custody.Ring.{◌⊕◌, ◌⊗◌, ◌⊖◌}
use proof_of_custody.Ring.Solver.{ring_eq, same_poly, var, ◌:+◌, ◌:-◌, ◌:*◌, Expr}
use proof_of_custody.Engine.{Engine}
use proof_of_custody.Group.Interface.{Coordinates, coordinate_ring}
use proof_of_custody.Engine.Program.{Yields, Yields-weaken}
use proof_of_custody.Group.{Affine}
use proof_of_custody.Group.Laws.{IsSum}
use proof_of_custody.Group.Jacobian.Values.{
  Opens, cube, opened-add_jac, opened-add_plain_jac, square, zeros,
}
use proof_of_custody.Group.Jacobian.{
  Jacobian, add_jac, add_plain_jac, opened_jac, Represents, abscissa, ordinate,
}

-- w^2, w^3, the slope times the difference, and the third point, as expressions in x1, y1, x2, m, w.
abbrev w2 : Expr
w2 = var 4 :* var 4

abbrev w3 : Expr
w3 = var 4 :* var 4 :* var 4

abbrev y2 : Expr
y2 = var 1 :- var 3 :* (var 0 :- var 2)

abbrev x3 : Expr
x3 = var 3 :* var 3 :- var 0 :- var 2

abbrev y3 : Expr
y3 = var 3 :* (var 0 :- x3) :- var 1

abbrev h : Expr
h = var 0 :* w2 :- var 2 :* w2

abbrev r : Expr
r = var 1 :* w3 :- y2 :* w3

abbrev x_sum : Expr
x_sum = r :* r :+ h :* h :* h :- h :* h :* (var 0 :* w2) :- h :* h :* (var 0 :* w2)

abbrev y_sum : Expr
y_sum = (h :* h :* (var 0 :* w2) :- x_sum) :* r :- (var 1 :* w3) :* (h :* h :* h)

abbrev z_sum : Expr
z_sum = var 4 :* h

module _ ⦃E : Engine⦄ ⦃F : Coordinates⦄ where
  scaled_x :
      (x1 y1 x2 m w : F.Plain)
      → abscissa (y1 ⊗ cube w) ((y1 ⊖ m ⊗ (x1 ⊖ x2)) ⊗ cube w) (x1 ⊗ square w) (x2 ⊗ square w)
        ≡ (m ⊗ m ⊖ x1 ⊖ x2) ⊗ square (w ⊗ (x1 ⊗ square w ⊖ x2 ⊗ square w))
  unfolding same_poly
  scaled_x x1 y1 x2 m w = ring_eq (x1 ∷ y1 ∷ x2 ∷ m ∷ w ∷ []) x_sum (x3 :* (z_sum :* z_sum)) refl

  scaled_y :
      (x1 y1 x2 m w : F.Plain)
      → ordinate (y1 ⊗ cube w) ((y1 ⊖ m ⊗ (x1 ⊖ x2)) ⊗ cube w) (x1 ⊗ square w) (x2 ⊗ square w)
        ≡ (m ⊗ (x1 ⊖ (m ⊗ m ⊖ x1 ⊖ x2)) ⊖ y1) ⊗ cube (w ⊗ (x1 ⊗ square w ⊖ x2 ⊗ square w))
  unfolding same_poly
  scaled_y x1 y1 x2 m w =
      ring_eq (x1 ∷ y1 ∷ x2 ∷ m ∷ w ∷ []) y_sum (y3 :* (z_sum :* z_sum :* z_sum)) refl

  -- The affine sum, by the slope.
  pub q_y : (p q c : Affine F.Plain) (s : IsSum p q c) → q.y ≡ p.y ⊖ s.slope ⊗ (p.x ⊖ q.x)
  unfolding same_poly
  q_y p q c s =
      ring_eq (p.y ∷ q.y ∷ []) (var 1) (var 0 :- (var 0 :- var 1)) refl
      ∙ ap (λ v. p.y ⊖ v) (sym s.slope-chord)

  pub c_x : (p q c : Affine F.Plain) (s : IsSum p q c) → c.x ≡ s.slope ⊗ s.slope ⊖ p.x ⊖ q.x
  unfolding same_poly
  c_x p q c s =
      ring_eq (c.x ∷ p.x ∷ q.x ∷ []) (var 0) (((var 0 :+ var 1) :+ var 2) :- var 1 :- var 2) refl
      ∙ ap (λ v. v ⊖ p.x ⊖ q.x) s.sum_x

  pub c_y : (p q c : Affine F.Plain) (s : IsSum p q c) → c.y ≡ s.slope ⊗ (p.x ⊖ c.x) ⊖ p.y
  unfolding same_poly
  c_y p q c s =
      let slope = s.slope in
      ring_eq (c.y ∷ p.y ∷ []) (var 0) ((var 1 :- var 1) :- ((var 1 :- var 1) :- var 0)) refl
      ∙ by_mirror slope s.mirrored
    where
      by_mirror :
          (m : F.Plain)
          → F.ring.neg c.y ≡ p.y ⊕ m ⊗ (c.x ⊖ p.x)
          → (p.y ⊖ p.y) ⊖ ((p.y ⊖ p.y) ⊖ c.y) ≡ m ⊗ (p.x ⊖ c.x) ⊖ p.y
      by_mirror m e =
          ap (λ v. (p.y ⊖ p.y) ⊖ ((p.y ⊖ p.y) ⊕ v)) e
          ∙ ring_eq (p.y ∷ m ∷ c.x ∷ p.x ∷ [])
              ((var 0 :- var 0) :- ((var 0 :- var 0) :+ (var 0 :+ var 1 :* (var 2 :- var 3))))
              (var 1 :* (var 3 :- var 2) :- var 0) refl

  divides_scaled :
      (x1 x2 w : F.Plain)
      → F.Divisor w
      → F.Divisor (x1 ⊖ x2)
      → F.Divisor (w ⊗ (x1 ⊗ square w ⊖ x2 ⊗ square w))
  unfolding same_poly
  divides_scaled x1 x2 w hw hx =
      subst F.Divisor
        (ring_eq (x1 ∷ x2 ∷ w ∷ []) ((var 2 :* var 2 :* var 2) :* (var 0 :- var 1))
          (var 2 :* (var 0 :* (var 2 :* var 2) :- var 1 :* (var 2 :* var 2))) refl)
        (F.Divisor-mul _ _ (F.Divisor-mul _ _ (F.Divisor-mul _ _ hw hw) hw) hx)

  stands_for :
      (p q c : Affine F.Plain) (w : F.Plain) (j : Jacobian F.Plain)
      → F.Divisor w
      → F.Divisor (p.x ⊖ q.x)
      → IsSum p q c
      → Opens p q w j
      → Represents c j
  stands_for p q c w j hw hd s (hx, hy, hz) =
      let e2 : q.y ⊗ cube w ≡ (p.y ⊖ s.slope ⊗ (p.x ⊖ q.x)) ⊗ cube w =
        ap (λ v. v ⊗ cube w) (q_y p q c s) in
      record {
        x_scaled =
            hx
            ∙ ap (λ v. abscissa (p.y ⊗ cube w) v (p.x ⊗ square w) (q.x ⊗ square w)) e2
            ∙ scaled_x p.x p.y q.x s.slope w
            ∙ ap₂ (λ u v. u ⊗ square v) (sym (c_x p q c s)) (sym hz);
        y_scaled =
            hy
            ∙ ap (λ v. ordinate (p.y ⊗ cube w) v (p.x ⊗ square w) (q.x ⊗ square w)) e2
            ∙ scaled_y p.x p.y q.x s.slope w
            ∙ ap₂ (λ u v. (s.slope ⊗ (p.x ⊖ u) ⊖ p.y) ⊗ cube v) (sym (c_x p q c s)) (sym hz)
            ∙ ap (λ v. v ⊗ cube j.z) (sym (c_y p q c s));
        z_divides = subst F.Divisor (sym hz) (divides_scaled p.x q.x w hw hd);
      }

  -- If two shared triples stand for two points whose difference of x can be divided by, and the
  -- points have the sum c, then the Jacobian sum ends and stands for c, with a Z that can be divided by.
  pub add_jac_lem :
      (p q c : Affine F.Plain) (a b : Jacobian F.Elem)
      → F.Divisor (p.x ⊖ q.x)
      → IsSum p q c
      → Represents p (opened_jac a)
      → Represents q (opened_jac b)
      → Yields (add_jac a b) (λ j. Represents c (opened_jac j))
  add_jac_lem p q c a b hd s ra rb =
      let hw = F.Divisor-mul _ _ ra.z_divides rb.z_divides in
      Yields-weaken (opened-add_jac p q a b ra rb)
        (λ j h. stands_for p q c _ (opened_jac j) hw hd s h)

  -- The Jacobian sum of two shared triples that stand for the same point ends, and opens to three
  -- zeros, which stand for no point.
  pub add_jac-doubled :
      (p : Affine F.Plain) (a b : Jacobian F.Elem)
      → Represents p (opened_jac a)
      → Represents p (opened_jac b)
      → Yields (add_jac a b) (λ j.
        (F.opened j.x ≡ F.ring.zero) × (F.opened j.y ≡ F.ring.zero) × (F.opened j.z ≡ F.ring.zero))
  add_jac-doubled p a b ra rb =
      Yields-weaken (opened-add_jac p p a b ra rb) (λ j h. zeros p _ (opened_jac j) h)

  -- The Jacobian sum of a shared and a clear triple stands for the affine sum of their points.
  pub add_plain_jac_lem :
      (p q c : Affine F.Plain) (a : Jacobian F.Elem) (b : Jacobian F.Plain)
      → F.Divisor (p.x ⊖ q.x)
      → IsSum p q c
      → Represents p (opened_jac a)
      → Represents q b
      → Yields (add_plain_jac a b) (λ j. Represents c (opened_jac j))
  add_plain_jac_lem p q c a b hd s ra rb =
      let hw = F.Divisor-mul _ _ ra.z_divides rb.z_divides in
      Yields-weaken (opened-add_plain_jac p q a b ra rb)
        (λ j h. stands_for p q c _ (opened_jac j) hw hd s h)

  -- Two points with different x have one sum.
  pub IsSum-unique :
      (p q c d : Affine F.Plain) → F.Divisor (p.x ⊖ q.x) → IsSum p q c → IsSum p q d → c ≡ d
  IsSum-unique p q c d h s t =
      let m : s.slope ≡ t.slope =
        F.Divisor-cancel (p.x ⊖ q.x) s.slope t.slope h (s.slope-chord ∙ sym t.slope-chord) in
      let x : c.x ≡ d.x = c_x p q c s ∙ ap (λ u. u ⊗ u ⊖ p.x ⊖ q.x) m ∙ sym (c_x p q d t) in
      let y : c.y ≡ d.y = c_y p q c s ∙ ap₂ (λ u v. u ⊗ (p.x ⊖ v) ⊖ p.y) m x ∙ sym (c_y p q d t) in
      λ i. record { x = x i; y = y i }
