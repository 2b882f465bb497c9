-- ===== src/Group/G2/Laws.antt =====
-- The sums of points of G2 on shares of their coordinates, by the laws of the coordinates.
use proof_of_custody.Prelude.{◌≡◌, ◌≢◌}
use proof_of_custody.Engine.{Engine}
use proof_of_custody.Engine.Program.{Yields, Fails, division_by_zero}
use proof_of_custody.OnlineOp.Products.Laws.{MasksNonzero}
use proof_of_custody.OnlineOp.Complexes.{Complex, opened_complex}
use proof_of_custody.OnlineOp.Complexes.Laws.{complex_ring, norm}
use proof_of_custody.Group.{Affine, add_aff_inplace}
use proof_of_custody.Group.Laws.{opened_point, OnCurve, IsSum, add_aff_lem, add_aff-Fails}
use proof_of_custody.Group.Jacobian.{Jacobian, opened_jac, Represents, add_jac_inplace}
use proof_of_custody.Group.Jacobian.Sum.{add_jac_lem}
use proof_of_custody.Group.G2.{g2, g2_add_aff_inplace, g2_add_aff, g2_add_jac_inplace}

module _ ⦃E : Engine⦄ where
  -- The sum in place of two shared points of the second curve, where the norm of the difference of
  -- their x is not 0, by nonzero masks: a point of the curve, the mirrored third point of the chord.
  pub g2_add_aff_inplace_lem :
      MasksNonzero
      → (b : Complex E.Clear) (p q : Affine (Complex E.Share))
      → norm (complex_ring.add (opened_complex p.x) (complex_ring.neg (opened_complex q.x)))
        ≢ E.ring.zero
      → OnCurve ⦃F = g2⦄ b (opened_point ⦃F = g2⦄ p)
      → OnCurve ⦃F = g2⦄ b (opened_point ⦃F = g2⦄ q)
      → Yields (g2_add_aff_inplace p q) (λ c.
        OnCurve ⦃F = g2⦄ b (opened_point ⦃F = g2⦄ c)
        × IsSum ⦃F = g2⦄
            (opened_point ⦃F = g2⦄ p)
            (opened_point ⦃F = g2⦄ q)
            (opened_point ⦃F = g2⦄ c))
  unfolding g2_add_aff_inplace add_aff_inplace
  g2_add_aff_inplace_lem masks b p q h = add_aff_lem ⦃F = g2⦄ masks b p q h

  -- Two shared points of the second curve with the same x are an exception.
  pub g2_add_aff-Fails :
      (p q : Affine (Complex E.Share))
      → opened_complex p.x ≡ opened_complex q.x
      → Fails (g2_add_aff p q) division_by_zero
  unfolding g2_add_aff
  g2_add_aff-Fails p q = add_aff-Fails ⦃F = g2⦄ p q

  -- The Jacobian sum in place of two shared triples over the complex coordinates stands for the
  -- affine sum of the points that they stand for, where the norm of the difference of their x is not 0.
  pub g2_add_jac_inplace_lem :
      (p q c : Affine (Complex E.Clear)) (a b : Jacobian (Complex E.Share))
      → norm (complex_ring.add p.x (complex_ring.neg q.x)) ≢ E.ring.zero
      → IsSum ⦃F = g2⦄ p q c
      → Represents ⦃F = g2⦄ p (opened_jac ⦃F = g2⦄ a)
      → Represents ⦃F = g2⦄ q (opened_jac ⦃F = g2⦄ b)
      → Yields (g2_add_jac_inplace a b) (λ j. Represents ⦃F = g2⦄ c (opened_jac ⦃F = g2⦄ j))
  unfolding g2_add_jac_inplace add_jac_inplace
  g2_add_jac_inplace_lem p q c a b = add_jac_lem ⦃F = g2⦄ p q c a b
