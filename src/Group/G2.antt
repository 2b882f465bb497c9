-- ===== src/Group/G2.antt =====
-- POC/Group.h and Group.hpp, lines 436 to 730, G2Op: the coordinates of G2 are complex shares, and
-- its sums are those of G1 on them.
pub mod Laws
use proof_of_custody.Prelude.{◌≢◌}
use proof_of_custody.Engine.{Engine}
use proof_of_custody.Engine.Program.{M}
use proof_of_custody.OnlineOp.Complexes.{
  Complex, complex_add, complex_add_inplace, complex_sub, complex_sub_inplace, complex_sub_plain,
  complex_mul_plain, complex_mul, complex_mul_inplace, complex_sqr, complex_div_inplace,
  mul_complex_plain, opened_complex,
}
use proof_of_custody.OnlineOp.Complexes.Laws.{
  complex_ring, norm, opened-complex_add, opened-complex_add_inplace, opened-complex_sub,
  opened-complex_sub_inplace, opened-complex_sub_plain, opened-complex_mul_plain,
  mul_complex_plain_lem, complex_mul_lem, complex_mul_inplace_lem, complex_sqr_lem,
  complex_div_inplace_lem, complex_div_inplace_zero, complex_cancel, norm-times,
}
use proof_of_custody.Group.{Affine, add_plain_aff, add_plain_aff_inplace, add_aff, add_aff_inplace}
use proof_of_custody.Group.Jacobian.{
  Jacobian, add_jac, add_plain_jac, add_jac_inplace, add_plain_jac_inplace,
}
use proof_of_custody.Group.Projective.{
  Projective, add_proj, add_plain_proj, add_proj_inplace, add_plain_proj_inplace,
}
use proof_of_custody.Group.Interface.{Coordinates}

module _ ⦃E : Engine⦄ where
  -- A coordinate can be divided by if the sum of the squares of its two parts is not 0.
  abbrev pub g2 : Coordinates
  g2 = record {
    Plain = Complex E.Clear;
    ring = complex_ring;
    Elem = Complex E.Share;
    opened = opened_complex;
    add = complex_add;
    add_inplace = complex_add_inplace;
    sub = complex_sub;
    sub_inplace = complex_sub_inplace;
    sub_plain = complex_sub_plain;
    mul_plain = complex_mul_plain;
    mul_clear = mul_complex_plain;
    mul = complex_mul;
    mul_inplace = complex_mul_inplace;
    sqr = complex_sqr;
    div_inplace = complex_div_inplace;
    add_lem = opened-complex_add;
    add_inplace_lem = opened-complex_add_inplace;
    sub_lem = opened-complex_sub;
    sub_inplace_lem = opened-complex_sub_inplace;
    sub_plain_lem = opened-complex_sub_plain;
    mul_plain_lem = opened-complex_mul_plain;
    mul_clear_lem = mul_complex_plain_lem;
    mul_lem = complex_mul_lem;
    mul_inplace_lem = complex_mul_inplace_lem;
    sqr_lem = complex_sqr_lem;
    Divisor = λ d. norm d ≢ E.ring.zero;
    Divisor-cancel = complex_cancel;
    Divisor-mul = norm-times;
    div_inplace_lem = complex_div_inplace_lem;
    div_inplace-Fails = complex_div_inplace_zero;
  }

  abbrev Number : Type 0
  Number = Complex E.Share

  abbrev Clear : Type 0
  Clear = Complex E.Clear

  unfoldable pub g2_add_plain_aff : Affine Number → Affine Clear → M (Affine Number)
  g2_add_plain_aff = add_plain_aff ⦃F = g2⦄

  unfoldable pub g2_add_plain_aff_inplace : Affine Number → Affine Clear → M (Affine Number)
  g2_add_plain_aff_inplace = add_plain_aff_inplace ⦃F = g2⦄

  unfoldable pub g2_add_aff : Affine Number → Affine Number → M (Affine Number)
  g2_add_aff = add_aff ⦃F = g2⦄

  unfoldable pub g2_add_aff_inplace : Affine Number → Affine Number → M (Affine Number)
  g2_add_aff_inplace = add_aff_inplace ⦃F = g2⦄

  unfoldable pub g2_add_plain_jac : Jacobian Number → Jacobian Clear → M (Jacobian Number)
  g2_add_plain_jac = add_plain_jac ⦃F = g2⦄

  unfoldable pub g2_add_plain_jac_inplace : Jacobian Number → Jacobian Clear → M (Jacobian Number)
  g2_add_plain_jac_inplace = add_plain_jac_inplace ⦃F = g2⦄

  unfoldable pub g2_add_jac : Jacobian Number → Jacobian Number → M (Jacobian Number)
  g2_add_jac = add_jac ⦃F = g2⦄

  unfoldable pub g2_add_jac_inplace : Jacobian Number → Jacobian Number → M (Jacobian Number)
  g2_add_jac_inplace = add_jac_inplace ⦃F = g2⦄

  unfoldable pub g2_add_plain_proj : Projective Number → Projective Clear → M (Projective Number)
  g2_add_plain_proj = add_plain_proj ⦃F = g2⦄

  unfoldable pub g2_add_plain_proj_inplace :
      Projective Number → Projective Clear → M (Projective Number)
  g2_add_plain_proj_inplace = add_plain_proj_inplace ⦃F = g2⦄

  unfoldable pub g2_add_proj : Projective Number → Projective Number → M (Projective Number)
  g2_add_proj = add_proj ⦃F = g2⦄

  unfoldable pub g2_add_proj_inplace : Projective Number → Projective Number → M (Projective Number)
  g2_add_proj_inplace = add_proj_inplace ⦃F = g2⦄
