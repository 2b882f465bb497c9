-- ===== src/Group/Jacobian/Values.antt =====
-- What the Jacobian sums of triples that stand for two points open to.
use proof_of_custody.Prelude.{◌≡◌, refl, ap₂, ◌∙◌, [], ◌∷◌}
use proof_of_custody.Ring.{◌⊗◌, ◌⊖◌}
use proof_of_custody.Ring.Solver.{ring_eq, same_poly, var, ◌:+◌, ◌:-◌, ◌:*◌, zero_expr}
use proof_of_custody.Engine.{Engine}
use proof_of_custody.Group.Interface.{Coordinates, coordinate_ring, opening}
use proof_of_custody.Engine.Program.{Yields, Yields-bind, Yields-pure, Yields-weaken, pure}
use proof_of_custody.Group.{Affine}
use proof_of_custody.Group.Jacobian.{
  Jacobian, add_jac, add_plain_jac, opened_jac, Represents, abscissa, ordinate, finish_value,
}

module _ ⦃E : Engine⦄ ⦃F : Coordinates⦄ where
  abbrev pub square : F.Plain → F.Plain
  square w = w ⊗ w

  abbrev pub cube : F.Plain → F.Plain
  cube w = w ⊗ w ⊗ w

  -- What the sums of triples of p and q open to, where w is the product of the two Z.
  abbrev pub Opens : Affine F.Plain → Affine F.Plain → F.Plain → Jacobian F.Plain → Type 0
  Opens p q w j =
      (j.x ≡ abscissa (p.y ⊗ cube w) (q.y ⊗ cube w) (p.x ⊗ square w) (q.x ⊗ square w))
      × (j.y ≡ ordinate (p.y ⊗ cube w) (q.y ⊗ cube w) (p.x ⊗ square w) (q.x ⊗ square w))
      × (j.z ≡ w ⊗ (p.x ⊗ square w ⊖ q.x ⊗ square w))

  -- Where the two points are the same, all three values are 0.
  pub zeros :
      (p : Affine F.Plain) (w : F.Plain) (j : Jacobian F.Plain)
      → Opens p p w j
      → (j.x ≡ F.ring.zero) × (j.y ≡ F.ring.zero) × (j.z ≡ F.ring.zero)
  unfolding same_poly
  zeros p w j (hx, hy, hz) =
      let env = p.y ⊗ cube w ∷ p.x ⊗ square w ∷ w ∷ [] in
      let h0 = var 1 :- var 1 in
      let r0 = var 0 :- var 0 in
      let v0 = h0 :* h0 :* var 1 in
      let x0 = r0 :* r0 :+ h0 :* h0 :* h0 :- v0 :- v0 in
      (
        hx ∙ ring_eq env x0 zero_expr refl,
        hy ∙ ring_eq env ((v0 :- x0) :* r0 :- var 0 :* (h0 :* h0 :* h0)) zero_expr refl,
        hz ∙ ring_eq env (var 2 :* h0) zero_expr refl,
      )

  gathered :
      {s1 s2 u1 u2 : F.Plain} (p q : Affine F.Plain) (w : F.Plain) (j : Jacobian F.Plain)
      → s1 ≡ p.y ⊗ cube w
      → s2 ≡ q.y ⊗ cube w
      → u1 ≡ p.x ⊗ square w
      → u2 ≡ q.x ⊗ square w
      → (j.x ≡ abscissa s1 s2 u1 u2) × (j.y ≡ ordinate s1 s2 u1 u2) × (j.z ≡ w ⊗ (u1 ⊖ u2))
      → Opens p q w j
  gathered p q w j h1 h2 h3 h4 (hx, hy, hz) = (
    hx ∙ at abscissa h1 h2 h3 h4,
    hy ∙ at ordinate h1 h2 h3 h4,
    hz ∙ ap₂ (λ u v. w ⊗ (u ⊖ v)) h3 h4,
  )
    where
      at :
          (f : F.Plain → F.Plain → F.Plain → F.Plain → F.Plain) {a a' b b' c c' d d' : F.Plain}
          → a ≡ a'
          → b ≡ b'
          → c ≡ c'
          → d ≡ d'
          → f a b c d ≡ f a' b' c' d'
      at f {a'} {b'} {c} {d} e1 e2 e3 e4 = ap₂ (λ u v. f u v c d) e1 e2 ∙ ap₂ (f a' b') e3 e4

  cubes : (y az bz : F.Plain) → bz ⊗ bz ⊗ (y ⊗ (az ⊗ az ⊗ az)) ⊗ bz ≡ y ⊗ cube (az ⊗ bz)
  unfolding same_poly
  cubes y az bz =
      ring_eq (y ∷ az ∷ bz ∷ []) (var 2 :* var 2 :* (var 0 :* (var 1 :* var 1 :* var 1)) :* var 2)
        (var 0 :* ((var 1 :* var 2) :* (var 1 :* var 2) :* (var 1 :* var 2))) refl

  cubes' : (y az bz : F.Plain) → az ⊗ az ⊗ (y ⊗ (bz ⊗ bz ⊗ bz)) ⊗ az ≡ y ⊗ cube (az ⊗ bz)
  unfolding same_poly
  cubes' y az bz =
      ring_eq (y ∷ az ∷ bz ∷ []) (var 1 :* var 1 :* (var 0 :* (var 2 :* var 2 :* var 2)) :* var 1)
        (var 0 :* ((var 1 :* var 2) :* (var 1 :* var 2) :* (var 1 :* var 2))) refl

  squares : (x az bz : F.Plain) → x ⊗ (az ⊗ az) ⊗ (bz ⊗ bz) ≡ x ⊗ square (az ⊗ bz)
  unfolding same_poly
  squares x az bz =
      ring_eq (x ∷ az ∷ bz ∷ []) (var 0 :* (var 1 :* var 1) :* (var 2 :* var 2))
        (var 0 :* ((var 1 :* var 2) :* (var 1 :* var 2))) refl

  squares' : (x az bz : F.Plain) → x ⊗ (bz ⊗ bz) ⊗ (az ⊗ az) ≡ x ⊗ square (az ⊗ bz)
  unfolding same_poly
  squares' x az bz =
      ring_eq (x ∷ az ∷ bz ∷ []) (var 0 :* (var 2 :* var 2) :* (var 1 :* var 1))
        (var 0 :* ((var 1 :* var 2) :* (var 1 :* var 2))) refl

  plain_cubes : (y az bz : F.Plain) → y ⊗ (az ⊗ az ⊗ az) ⊗ (bz ⊗ bz ⊗ bz) ≡ y ⊗ cube (az ⊗ bz)
  unfolding same_poly
  plain_cubes y az bz =
      ring_eq (y ∷ az ∷ bz ∷ []) (var 0 :* (var 1 :* var 1 :* var 1) :* (var 2 :* var 2 :* var 2))
        (var 0 :* ((var 1 :* var 2) :* (var 1 :* var 2) :* (var 1 :* var 2))) refl

  plain_squares : (x az bz : F.Plain) → az ⊗ az ⊗ (x ⊗ (bz ⊗ bz)) ≡ x ⊗ square (az ⊗ bz)
  unfolding same_poly
  plain_squares x az bz =
      ring_eq (x ∷ az ∷ bz ∷ []) (var 1 :* var 1 :* (var 0 :* (var 2 :* var 2)))
        (var 0 :* ((var 1 :* var 2) :* (var 1 :* var 2))) refl

  pub opened-add_jac :
      (p q : Affine F.Plain) (a b : Jacobian F.Elem)
      → Represents p (opened_jac a)
      → Represents q (opened_jac b)
      → Yields (add_jac a b) (λ j. Opens p q (F.opened a.z ⊗ F.opened b.z) (opened_jac j))
  unfolding add_jac
  opened-add_jac p q a b ra rb =
      let az = F.opened a.z in
      let bz = F.opened b.z in
      Yields-bind (F.sqr_lem a.z) (λ za e0. Yields-bind (F.sqr_lem b.z) (λ zb e1.
        Yields-bind (F.mul_lem b.x za) (λ u2 e2. Yields-bind (F.mul_lem a.x zb) (λ u1 e3.
          Yields-bind (F.mul_inplace_lem za b.y) (λ zay e4.
            Yields-bind (F.mul_inplace_lem zay a.z) (λ s2 e5.
              Yields-bind (F.mul_inplace_lem zb a.y) (λ zby e6.
                Yields-bind (F.mul_inplace_lem zby b.z) (λ s1 e7.
                  Yields-weaken (finish_value s1 s2 u1 u2 (F.mul a.z b.z) _ (F.mul_lem a.z b.z))
                    (λ j.
                      gathered p q (az ⊗ bz) (opened_jac j)
                        (simp (e7, e6, e1, ra.y_scaled) (cubes p.y az bz))
                        (simp (e5, e4, e0, rb.y_scaled) (cubes' q.y az bz))
                        (simp (e3, e1, ra.x_scaled) (squares p.x az bz))
                        (simp (e2, e0, rb.x_scaled) (squares' q.x az bz)))))))))))

  pub opened-add_plain_jac :
      (p q : Affine F.Plain) (a : Jacobian F.Elem) (b : Jacobian F.Plain)
      → Represents p (opened_jac a)
      → Represents q b
      → Yields (add_plain_jac a b) (λ j. Opens p q (F.opened a.z ⊗ b.z) (opened_jac j))
  unfolding add_plain_jac
  opened-add_plain_jac p q a b ra rb =
      let az = F.opened a.z in
      let bz = b.z in
      Yields-bind (F.sqr_lem a.z) (λ za e0.
        Yields-bind (F.mul_lem (F.mul_plain za b.y) a.z) (λ s2 e5.
          Yields-weaken
            (finish_value (F.mul_plain a.y (F.mul_clear (F.mul_clear bz bz) bz)) s2
              (F.mul_plain a.x (F.mul_clear bz bz)) (F.mul_plain za b.x) (pure (F.mul_plain a.z bz))
              (az ⊗ bz) (Yields-pure _ (simp opening refl)))
            (λ j.
              gathered p q (az ⊗ bz) (opened_jac j)
                (simp (opening, ra.y_scaled) (plain_cubes p.y az bz))
                (simp (opening, e5, e0, rb.y_scaled) (cubes' q.y az bz))
                (simp (opening, ra.x_scaled) (squares p.x az bz))
                (simp (opening, e0, rb.x_scaled) (plain_squares q.x az bz)))))
