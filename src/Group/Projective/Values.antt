-- ===== src/Group/Projective/Values.antt =====
-- What the projective sums of triples that stand for two points open to.
use proof_of_custody.Prelude.{◌≡◌, refl, ap, ap₂, ◌∙◌, [], ◌∷◌}
use proof_of_custody.Ring.{◌⊕◌, ◌⊗◌, ◌⊖◌}
use proof_of_custody.Ring.Solver.{ring_eq, same_poly, var, ◌:+◌, ◌:-◌, ◌:*◌, zero_expr}
use proof_of_custody.Engine.{Engine}
use proof_of_custody.Group.Interface.{Coordinates, coordinate_ring, opening}
use proof_of_custody.Engine.Program.{Yields, Yields-bind, Yields-pure, Yields-weaken}
use proof_of_custody.Group.{Affine}
use proof_of_custody.Group.Projective.{
  Projective, finish_proj, add_proj, add_plain_proj, opened_proj, Homogeneous,
}

module _ ⦃E : Engine⦄ ⦃F : Coordinates⦄ where
  -- The values that the end of the sums computes.
  abbrev pub height : F.Plain → F.Plain → F.Plain → F.Plain → F.Plain → F.Plain
  height s1 s2 u1 u2 t =
      let h = u1 ⊖ u2 in let r = s1 ⊖ s2 in r ⊗ r ⊗ t ⊕ h ⊗ h ⊗ h ⊖ u1 ⊗ (h ⊗ h) ⊖ u1 ⊗ (h ⊗ h)

  abbrev pub value_x : F.Plain → F.Plain → F.Plain → F.Plain → F.Plain → F.Plain
  value_x s1 s2 u1 u2 t = (u1 ⊖ u2) ⊗ height s1 s2 u1 u2 t

  abbrev pub value_y : F.Plain → F.Plain → F.Plain → F.Plain → F.Plain → F.Plain
  value_y s1 s2 u1 u2 t =
      let h = u1 ⊖ u2 in (u1 ⊗ (h ⊗ h) ⊖ height s1 s2 u1 u2 t) ⊗ (s1 ⊖ s2) ⊖ s1 ⊗ (h ⊗ h ⊗ h)

  abbrev pub value_z : F.Plain → F.Plain → F.Plain → F.Plain → F.Plain → F.Plain
  value_z s1 s2 u1 u2 t = let h = u1 ⊖ u2 in t ⊗ (h ⊗ h ⊗ h)

  finish_value :
      (s1 s2 u1 u2 t : F.Elem)
      → Yields (finish_proj s1 s2 u1 u2 t) (λ j.
        (F.opened j.x
          ≡ value_x (F.opened s1) (F.opened s2) (F.opened u1) (F.opened u2) (F.opened t))
        × (F.opened j.y
            ≡ value_y (F.opened s1) (F.opened s2) (F.opened u1) (F.opened u2) (F.opened t))
        × (F.opened j.z
            ≡ value_z (F.opened s1) (F.opened s2) (F.opened u1) (F.opened u2) (F.opened t)))
  unfolding finish_proj
  finish_value s1 s2 u1 u2 t = Yields-bind (F.sqr_lem (F.sub u1 u2)) (λ h2 e0.
      Yields-bind (F.mul_lem u1 h2) (λ v e1. Yields-bind (F.mul_lem h2 (F.sub u1 u2)) (λ g e2.
        Yields-bind (F.sqr_lem (F.sub s1 s2)) (λ r2 e3. Yields-bind (F.mul_lem r2 t) (λ w e4.
          let w' = F.sub_inplace (F.sub_inplace (F.add_inplace w g) v) v in
          Yields-bind (F.mul_lem t g) (λ cz e5. Yields-bind (F.mul_lem s1 g) (λ tmp e6.
            Yields-bind (F.mul_inplace_lem (F.sub v w') (F.sub s1 s2)) (λ cy e7.
              Yields-bind (F.mul_lem (F.sub u1 u2) w') (λ cx e8. Yields-pure _ (
                simp (opening, e8, e4, e3, e2, e1, e0) refl,
                simp (opening, e7, e6, e4, e3, e2, e1, e0) refl,
                simp (opening, e5, e2, e0) refl,
              ))))))))))

  -- What the sums of triples of p and q open to, where t is the product of the two Z.
  abbrev pub Opens : Affine F.Plain → Affine F.Plain → F.Plain → Projective F.Plain → Type 0
  Opens p q t j =
      (j.x ≡ value_x (p.y ⊗ t) (q.y ⊗ t) (p.x ⊗ t) (q.x ⊗ t) t)
      × (j.y ≡ value_y (p.y ⊗ t) (q.y ⊗ t) (p.x ⊗ t) (q.x ⊗ t) t)
      × (j.z ≡ value_z (p.y ⊗ t) (q.y ⊗ t) (p.x ⊗ t) (q.x ⊗ t) t)

  -- Where the two points are the same, all three values are 0.
  pub zeros :
      (p : Affine F.Plain) (t : F.Plain) (j : Projective F.Plain)
      → Opens p p t j
      → (j.x ≡ F.ring.zero) × (j.y ≡ F.ring.zero) × (j.z ≡ F.ring.zero)
  unfolding same_poly
  zeros p t j (hx, hy, hz) =
      let env = p.y ⊗ t ∷ p.x ⊗ t ∷ t ∷ [] in
      let h0 = var 1 :- var 1 in
      let r0 = var 0 :- var 0 in
      let v0 = var 1 :* (h0 :* h0) in
      let w0 = r0 :* r0 :* var 2 :+ h0 :* h0 :* h0 :- v0 :- v0 in
      (
        hx ∙ ring_eq env (h0 :* w0) zero_expr refl,
        hy ∙ ring_eq env ((v0 :- w0) :* r0 :- var 0 :* (h0 :* h0 :* h0)) zero_expr refl,
        hz ∙ ring_eq env (var 2 :* (h0 :* h0 :* h0)) zero_expr refl,
      )

  gathered :
      {s1 s2 u1 u2 t w : F.Plain} (p q : Affine F.Plain) (j : Projective F.Plain)
      → t ≡ w
      → s1 ≡ p.y ⊗ w
      → s2 ≡ q.y ⊗ w
      → u1 ≡ p.x ⊗ w
      → u2 ≡ q.x ⊗ w
      → (j.x ≡ value_x s1 s2 u1 u2 t)
        × (j.y ≡ value_y s1 s2 u1 u2 t)
        × (j.z ≡ value_z s1 s2 u1 u2 t)
      → Opens p q w j
  gathered p q j e h1 h2 h3 h4 (hx, hy, hz) =
      (hx ∙ at value_x h1 h2 h3 h4 e, hy ∙ at value_y h1 h2 h3 h4 e, hz ∙ at value_z h1 h2 h3 h4 e)
    where
      at :
          (f : F.Plain → F.Plain → F.Plain → F.Plain → F.Plain → F.Plain)
          {a a' b b' c c' d d' k k' : F.Plain}
          → a ≡ a'
          → b ≡ b'
          → c ≡ c'
          → d ≡ d'
          → k ≡ k'
          → f a b c d k ≡ f a' b' c' d' k'
      at f {a'} {b'} {c} {c'} {d} {d'} {k} e1 e2 e3 e4 e5 =
          ap₂ (λ u v. f u v c d k) e1 e2 ∙ ap₂ (λ u v. f a' b' u v k) e3 e4 ∙ ap (f a' b' c' d') e5

  here : (x az bz : F.Plain) → x ⊗ az ⊗ bz ≡ x ⊗ (az ⊗ bz)
  here x az bz = F.ring.mul_assoc x az bz

  there : (x az bz : F.Plain) → x ⊗ bz ⊗ az ≡ x ⊗ (az ⊗ bz)
  unfolding same_poly
  there x az bz =
      ring_eq (x ∷ az ∷ bz ∷ []) (var 0 :* var 2 :* var 1) (var 0 :* (var 1 :* var 2)) refl

  front : (x az bz : F.Plain) → az ⊗ (x ⊗ bz) ≡ x ⊗ (az ⊗ bz)
  unfolding same_poly
  front x az bz =
      ring_eq (x ∷ az ∷ bz ∷ []) (var 1 :* (var 0 :* var 2)) (var 0 :* (var 1 :* var 2)) refl

  pub opened-add_proj :
      (p q : Affine F.Plain) (a b : Projective F.Elem)
      → Homogeneous p (opened_proj a)
      → Homogeneous q (opened_proj b)
      → Yields (add_proj a b) (λ j. Opens p q (F.opened a.z ⊗ F.opened b.z) (opened_proj j))
  unfolding add_proj
  opened-add_proj p q a b ra rb =
      let az = F.opened a.z in
      let bz = F.opened b.z in
      Yields-bind (F.mul_lem b.y a.z) (λ s2 e2. Yields-bind (F.mul_lem a.y b.z) (λ s1 e1.
        Yields-bind (F.mul_lem b.x a.z) (λ u2 e4. Yields-bind (F.mul_lem a.x b.z) (λ u1 e3.
          Yields-bind (F.mul_lem a.z b.z) (λ t e5. Yields-weaken (finish_value s1 s2 u1 u2 t) (λ j.
            gathered p q (opened_proj j) e5 (simp (e1, ra.y_scaled) (here p.y az bz))
              (simp (e2, rb.y_scaled) (there q.y az bz)) (simp (e3, ra.x_scaled) (here p.x az bz))
              (simp (e4, rb.x_scaled) (there q.x az bz))))))))

  pub opened-add_plain_proj :
      (p q : Affine F.Plain) (a : Projective F.Elem) (b : Projective F.Plain)
      → Homogeneous p (opened_proj a)
      → Homogeneous q b
      → Yields (add_plain_proj a b) (λ j. Opens p q (F.opened a.z ⊗ b.z) (opened_proj j))
  unfolding add_plain_proj
  opened-add_plain_proj p q a b ra rb =
      let az = F.opened a.z in
      let bz = b.z in
      Yields-weaken
        (finish_value (F.mul_plain a.y bz) (F.mul_plain a.z b.y) (F.mul_plain a.x bz)
          (F.mul_plain a.z b.x) (F.mul_plain a.z bz))
        (λ j.
          gathered p q (opened_proj j) (F.mul_plain_lem a.z bz)
            (simp (opening, ra.y_scaled) (here p.y az bz))
            (simp (opening, rb.y_scaled) (front q.y az bz))
            (simp (opening, ra.x_scaled) (here p.x az bz))
            (simp (opening, rb.x_scaled) (front q.x az bz)))
