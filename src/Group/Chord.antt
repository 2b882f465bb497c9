-- ===== src/Group/Chord.antt =====
-- The chord through two points of a curve meets it in a third point.
use proof_of_custody.Prelude.{◌≡◌, refl, [], ◌∷◌}
use proof_of_custody.Ring.{Ring, ◌⊗◌, ◌⊖◌}
use proof_of_custody.Ring.Solver.{ring_eq, same_poly, var, ◌:-◌, ◌:*◌}

module _ {A : Type 0} ⦃r : Ring A⦄ where
  -- y^2 - x^3 - b
  abbrev pub curve : A → A → A → A
  curve b x y = y ⊗ y ⊖ x ⊗ x ⊗ x ⊖ b

  pub chord :
      (x1 y1 x2 m b : A)
      → (x1 ⊖ x2) ⊗ curve b (m ⊗ m ⊖ x1 ⊖ x2) (m ⊗ (x1 ⊖ (m ⊗ m ⊖ x1 ⊖ x2)) ⊖ y1)
        ≡ ((m ⊗ m ⊖ x1 ⊖ x2) ⊖ x2) ⊗ curve b x1 y1
          ⊖ ((m ⊗ m ⊖ x1 ⊖ x2) ⊖ x1) ⊗ curve b x2 (y1 ⊖ m ⊗ (x1 ⊖ x2))
  unfolding same_poly
  chord x1 y1 x2 m b =
      ring_eq (x1 ∷ y1 ∷ x2 ∷ m ∷ b ∷ [])
        ((var 0 :- var 2)
          :* (((var 3 :* (var 0 :- (var 3 :* var 3 :- var 0 :- var 2)) :- var 1)
                :* (var 3 :* (var 0 :- (var 3 :* var 3 :- var 0 :- var 2)) :- var 1))
              :- (var 3 :* var 3 :- var 0 :- var 2)
                :* (var 3 :* var 3 :- var 0 :- var 2)
                :* (var 3 :* var 3 :- var 0 :- var 2)
              :- var 4))
        ((var 3 :* var 3 :- var 0 :- var 2 :- var 2)
            :* (var 1 :* var 1 :- var 0 :* var 0 :* var 0 :- var 4)
          :- (var 3 :* var 3 :- var 0 :- var 2 :- var 0)
            :* ((var 1 :- var 3 :* (var 0 :- var 2)) :* (var 1 :- var 3 :* (var 0 :- var 2))
                :- var 2 :* var 2 :* var 2
                :- var 4))
        refl
