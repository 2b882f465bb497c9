-- ===== src/Group/Projective/Sum.antt =====
-- The projective sums stand for the affine sum.
use proof_of_custody.Prelude.{◌≡◌, refl, sym, ap, ap₂, subst, ◌∙◌, [], ◌∷◌}
use proof_of_custody.Ring.{◌⊗◌, ◌⊖◌}
use proof_of_custody.Ring.Solver.{ring_eq, same_poly, var, ◌:+◌, ◌:-◌, ◌:*◌, Expr}
use proof_of_custody.Engine.{Engine}
use proof_of_custody.Group.Interface.{Coordinates, coordinate_ring}
use proof_of_custody.Engine.Program.{Yields, Yields-weaken}
use proof_of_custody.Group.{Affine}
use proof_of_custody.Group.Laws.{IsSum}
use proof_of_custody.Group.Jacobian.Sum.{q_y, c_x, c_y}
use proof_of_custody.Group.Projective.Values.{
  Opens, opened-add_plain_proj, opened-add_proj, value_x, value_y, value_z, zeros,
}
use proof_of_custody.Group.Projective.{
  Projective, add_proj, add_plain_proj, opened_proj, Homogeneous,
}

-- Expressions in x1, y1, x2, m and w, the product of the two Z.
abbrev x3 : Expr
x3 = var 3 :* var 3 :- var 0 :- var 2

abbrev y3 : Expr
y3 = var 3 :* (var 0 :- x3) :- var 1

abbrev h : Expr
h = var 0 :* var 4 :- var 2 :* var 4

abbrev r : Expr
r = var 1 :* var 4 :- (var 1 :- var 3 :* (var 0 :- var 2)) :* var 4

abbrev v : Expr
v = var 0 :* var 4 :* (h :* h)

abbrev g : Expr
g = h :* h :* h

abbrev w : Expr
w = r :* r :* var 4 :+ g :- v :- v

module _ ⦃E : Engine⦄ ⦃F : Coordinates⦄ where
  scaled_x :
      (x1 y1 x2 m t : F.Plain)
      → value_x (y1 ⊗ t) ((y1 ⊖ m ⊗ (x1 ⊖ x2)) ⊗ t) (x1 ⊗ t) (x2 ⊗ t) t
        ≡ (m ⊗ m ⊖ x1 ⊖ x2) ⊗ value_z (y1 ⊗ t) ((y1 ⊖ m ⊗ (x1 ⊖ x2)) ⊗ t) (x1 ⊗ t) (x2 ⊗ t) t
  unfolding same_poly
  scaled_x x1 y1 x2 m t = ring_eq (x1 ∷ y1 ∷ x2 ∷ m ∷ t ∷ []) (h :* w) (x3 :* (var 4 :* g)) refl

  scaled_y :
      (x1 y1 x2 m t : F.Plain)
      → value_y (y1 ⊗ t) ((y1 ⊖ m ⊗ (x1 ⊖ x2)) ⊗ t) (x1 ⊗ t) (x2 ⊗ t) t
        ≡ (m ⊗ (x1 ⊖ (m ⊗ m ⊖ x1 ⊖ x2)) ⊖ y1)
          ⊗ value_z (y1 ⊗ t) ((y1 ⊖ m ⊗ (x1 ⊖ x2)) ⊗ t) (x1 ⊗ t) (x2 ⊗ t) t
  unfolding same_poly
  scaled_y x1 y1 x2 m t =
      ring_eq (x1 ∷ y1 ∷ x2 ∷ m ∷ t ∷ []) ((v :- w) :* r :- (var 1 :* var 4) :* g)
        (y3 :* (var 4 :* g)) refl

  divides_scaled :
      (x1 x2 t : F.Plain)
      → F.Divisor t
      → F.Divisor (x1 ⊖ x2)
      → F.Divisor (let h = x1 ⊗ t ⊖ x2 ⊗ t in t ⊗ (h ⊗ h ⊗ h))
  unfolding same_poly
  divides_scaled x1 x2 t ht hx =
      let both = F.Divisor-mul _ _ hx ht in
      let e : (x1 ⊖ x2) ⊗ t ≡ x1 ⊗ t ⊖ x2 ⊗ t =
        ring_eq (x1 ∷ x2 ∷ t ∷ []) ((var 0 :- var 1) :* var 2) (var 0 :* var 2 :- var 1 :* var 2)
          refl in
      let hh = subst F.Divisor e both in
      F.Divisor-mul _ _ ht (F.Divisor-mul _ _ (F.Divisor-mul _ _ hh hh) hh)

  stands_for :
      (p q c : Affine F.Plain) (t : F.Plain) (j : Projective F.Plain)
      → F.Divisor t
      → F.Divisor (p.x ⊖ q.x)
      → IsSum p q c
      → Opens p q t j
      → Homogeneous c j
  stands_for p q c t j ht hd s (hx, hy, hz) =
      let e2 : q.y ⊗ t ≡ (p.y ⊖ s.slope ⊗ (p.x ⊖ q.x)) ⊗ t = ap (λ v. v ⊗ t) (q_y p q c s) in
      record {
        x_scaled =
            hx
            ∙ ap (λ v. value_x (p.y ⊗ t) v (p.x ⊗ t) (q.x ⊗ t) t) e2
            ∙ scaled_x p.x p.y q.x s.slope t
            ∙ ap₂ (λ u v. u ⊗ v) (sym (c_x p q c s)) (sym hz);
        y_scaled =
            hy
            ∙ ap (λ v. value_y (p.y ⊗ t) v (p.x ⊗ t) (q.x ⊗ t) t) e2
            ∙ scaled_y p.x p.y q.x s.slope t
            ∙ ap₂ (λ u v. (s.slope ⊗ (p.x ⊖ u) ⊖ p.y) ⊗ v) (sym (c_x p q c s)) (sym hz)
            ∙ ap (λ v. v ⊗ j.z) (sym (c_y p q c s));
        z_divides = subst F.Divisor (sym hz) (divides_scaled p.x q.x t ht hd);
      }

  -- If two shared triples stand for two points whose difference of x can be divided by, and the
  -- points have the sum c, then the projective sum ends and stands for c, with a Z that can be divided
  -- by.
  pub add_proj_lem :
      (p q c : Affine F.Plain) (a b : Projective F.Elem)
      → F.Divisor (p.x ⊖ q.x)
      → IsSum p q c
      → Homogeneous p (opened_proj a)
      → Homogeneous q (opened_proj b)
      → Yields (add_proj a b) (λ j. Homogeneous c (opened_proj j))
  add_proj_lem p q c a b hd s ra rb =
      let ht = F.Divisor-mul _ _ ra.z_divides rb.z_divides in
      Yields-weaken (opened-add_proj p q a b ra rb)
        (λ j h. stands_for p q c _ (opened_proj j) ht hd s h)

  -- The projective sum of two shared triples that stand for the same point ends, and opens to three
  -- zeros, which stand for no point.
  pub add_proj-doubled :
      (p : Affine F.Plain) (a b : Projective F.Elem)
      → Homogeneous p (opened_proj a)
      → Homogeneous p (opened_proj b)
      → Yields (add_proj a b) (λ j.
        (F.opened j.x ≡ F.ring.zero) × (F.opened j.y ≡ F.ring.zero) × (F.opened j.z ≡ F.ring.zero))
  add_proj-doubled p a b ra rb =
      Yields-weaken (opened-add_proj p p a b ra rb) (λ j h. zeros p _ (opened_proj j) h)

  -- The projective sum of a shared and a clear triple stands for the affine sum of their points.
  pub add_plain_proj_lem :
      (p q c : Affine F.Plain) (a : Projective F.Elem) (b : Projective F.Plain)
      → F.Divisor (p.x ⊖ q.x)
      → IsSum p q c
      → Homogeneous p (opened_proj a)
      → Homogeneous q b
      → Yields (add_plain_proj a b) (λ j. Homogeneous c (opened_proj j))
  add_plain_proj_lem p q c a b hd s ra rb =
      let ht = F.Divisor-mul _ _ ra.z_divides rb.z_divides in
      Yields-weaken (opened-add_plain_proj p q a b ra rb)
        (λ j h. stands_for p q c _ (opened_proj j) ht hd s h)
