-- ===== src/Group/Jacobian.antt =====
-- POC/Group.hpp, lines 67 to 168: the sum of two points of G1 in Jacobian coordinates, where (X, Y,
-- Z) stands for the affine point (X / Z^2, Y / Z^3).
pub mod Values
pub mod Sum
use proof_of_custody.Prelude.{◌≡◌, refl, sym, ap, ap₂, ◌∙◌, [], ◌∷◌}
use proof_of_custody.Ring.{◌⊕◌, ◌⊗◌, ◌⊖◌}
use proof_of_custody.Ring.Solver.{ring_eq, same_poly, var, ◌:+◌, ◌:-◌, ◌:*◌}
use proof_of_custody.Engine.{Engine}
use proof_of_custody.OnlineOp.Products.Laws.{MasksNonzero}
use proof_of_custody.Group.Interface.{Coordinates, coordinate_ring, opening}
use proof_of_custody.Engine.Program.{M, Yields, Yields-bind, Yields-pure, pure, ◌>>=◌}
use proof_of_custody.Group.{Affine}
use proof_of_custody.Group.Laws.{IsSum}

-- G1_Jacobian_Coordinates, and its _Plain form over `clear`
pub record Jacobian (A : Type 0) : Type 0 where
  pub x : A
  pub y : A
  pub z : A

module _ ⦃E : Engine⦄ ⦃F : Coordinates⦄ where
  -- The end of both sums, from R on; `zz` computes Z1 * Z2.
  unfoldable pub finish_jac : F.Elem → F.Elem → F.Elem → F.Elem → M F.Elem → M (Jacobian F.Elem)
  finish_jac s1 s2 u1 u2 zz = do
    let r = F.sub s1 s2
    let h = F.sub u1 u2
    hh ← F.sqr h
    g ← F.mul hh h
    v ← F.mul_inplace hh u1
    z ← zz
    cz ← F.mul_inplace z h
    rr ← F.sqr r
    let cx = F.sub_inplace (F.sub_inplace (F.add rr g) v) v
    tmp ← F.mul s1 g
    cy ← F.mul_inplace (F.sub v cx) r
    pure (record { x = cx; y = F.sub_inplace cy tmp; z = cz })

  unfoldable pub add_jac : Jacobian F.Elem → Jacobian F.Elem → M (Jacobian F.Elem)
  add_jac a b = do
    za ← F.sqr a.z
    zb ← F.sqr b.z
    u2 ← F.mul b.x za
    u1 ← F.mul a.x zb
    za_y ← F.mul_inplace za b.y
    s2 ← F.mul_inplace za_y a.z
    zb_y ← F.mul_inplace zb a.y
    s1 ← F.mul_inplace zb_y b.z
    finish_jac s1 s2 u1 u2 (F.mul a.z b.z)

  unfoldable pub add_plain_jac : Jacobian F.Elem → Jacobian F.Plain → M (Jacobian F.Elem)
  add_plain_jac a b = do
    za ← F.sqr a.z
    let bz2 = F.mul_clear b.z b.z
    let u2 = F.mul_plain za b.x
    let u1 = F.mul_plain a.x bz2
    s2 ← F.mul (F.mul_plain za b.y) a.z
    let s1 = F.mul_plain a.y (F.mul_clear bz2 b.z)
    finish_jac s1 s2 u1 u2 (pure (F.mul_plain a.z b.z))

  unfoldable pub add_jac_inplace : Jacobian F.Elem → Jacobian F.Elem → M (Jacobian F.Elem)
  add_jac_inplace c a = add_jac c a

  unfoldable pub add_plain_jac_inplace : Jacobian F.Elem → Jacobian F.Plain → M (Jacobian F.Elem)
  add_plain_jac_inplace c a = add_plain_jac c a

  abbrev pub opened_jac : Jacobian F.Elem → Jacobian F.Plain
  opened_jac a = record { x = F.opened a.x; y = F.opened a.y; z = F.opened a.z }

  -- Z can be divided by, X = x Z^2 and Y = y Z^3
  pub record Represents (p : Affine F.Plain) (j : Jacobian F.Plain) : Type 0 where
    pub x_scaled : j.x ≡ p.x ⊗ (j.z ⊗ j.z)
    pub y_scaled : j.y ≡ p.y ⊗ (j.z ⊗ j.z ⊗ j.z)
    pub z_divides : F.Divisor j.z

  -- The values that the end of the sums computes.
  abbrev pub abscissa : F.Plain → F.Plain → F.Plain → F.Plain → F.Plain
  abscissa s1 s2 u1 u2 =
      let h = u1 ⊖ u2 in let r = s1 ⊖ s2 in r ⊗ r ⊕ h ⊗ h ⊗ h ⊖ h ⊗ h ⊗ u1 ⊖ h ⊗ h ⊗ u1

  abbrev pub ordinate : F.Plain → F.Plain → F.Plain → F.Plain → F.Plain
  ordinate s1 s2 u1 u2 =
      let h = u1 ⊖ u2 in (h ⊗ h ⊗ u1 ⊖ abscissa s1 s2 u1 u2) ⊗ (s1 ⊖ s2) ⊖ s1 ⊗ (h ⊗ h ⊗ h)

  pub finish_value :
      (s1 s2 u1 u2 : F.Elem) (zz : M F.Elem) (w : F.Plain)
      → Yields zz (λ z. F.opened z ≡ w)
      → Yields (finish_jac s1 s2 u1 u2 zz) (λ j.
        (F.opened j.x ≡ abscissa (F.opened s1) (F.opened s2) (F.opened u1) (F.opened u2))
        × (F.opened j.y ≡ ordinate (F.opened s1) (F.opened s2) (F.opened u1) (F.opened u2))
        × (F.opened j.z ≡ w ⊗ (F.opened u1 ⊖ F.opened u2)))
  unfolding finish_jac
  finish_value s1 s2 u1 u2 zz w hz = Yields-bind (F.sqr_lem (F.sub u1 u2)) (λ hh e0.
      Yields-bind (F.mul_lem hh (F.sub u1 u2)) (λ g e1.
        Yields-bind (F.mul_inplace_lem hh u1) (λ v e2. Yields-bind hz (λ z e3.
          Yields-bind (F.mul_inplace_lem z (F.sub u1 u2)) (λ cz e4.
            Yields-bind (F.sqr_lem (F.sub s1 s2)) (λ rr e5. Yields-bind (F.mul_lem s1 g) (λ tmp e6.
              Yields-bind
                (F.mul_inplace_lem (F.sub v (F.sub_inplace (F.sub_inplace (F.add rr g) v) v))
                  (F.sub s1 s2))
                (λ cy e7. Yields-pure _ (
                  simp (opening, e5, e1, e2, e0) refl,
                  simp (opening, e7, e6, e5, e1, e2, e0) refl,
                  simp (opening, e4, e3) refl,
                )))))))))
