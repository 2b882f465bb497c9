-- ===== src/Group/G1.antt =====
-- POC/Group.h, G1Op: the coordinates of G1 are shares of field elements.
use proof_of_custody.Prelude.{◌≢◌, refl}
use proof_of_custody.Engine.{Engine}
use proof_of_custody.OnlineOp.Linear.{
  add, add_inplace, sub, sub_inplace, sub_plain, mul_plain, mul, mul_inplace,
}
use proof_of_custody.OnlineOp.Linear.Laws.{
  mul_lem, mul_inplace_lem, opened-add, opened-add_inplace, opened-sub, opened-sub_inplace,
  opened-sub_plain, opened-mul_plain,
}
use proof_of_custody.OnlineOp.Products.{sqr, div_inplace}
use proof_of_custody.OnlineOp.Products.Laws.{
  sqr_lem, div_inplace_lem, div_inplace_zero, quotient_unique, product-nonzero,
}
use proof_of_custody.Group.Interface.{Coordinates}

module _ ⦃E : Engine⦄ where
  abbrev pub g1 : Coordinates
  g1 = record {
    Plain = E.Clear;
    ring = E.ring;
    Elem = E.Share;
    opened = E.opened;
    add = add;
    add_inplace = add_inplace;
    sub = sub;
    sub_inplace = sub_inplace;
    sub_plain = sub_plain;
    mul_plain = mul_plain;
    mul_clear = E.ring.mul;
    mul = mul;
    mul_inplace = mul_inplace;
    sqr = sqr;
    div_inplace = div_inplace;
    add_lem = opened-add;
    add_inplace_lem = opened-add_inplace;
    sub_lem = opened-sub;
    sub_inplace_lem = opened-sub_inplace;
    sub_plain_lem = opened-sub_plain;
    mul_plain_lem = opened-mul_plain;
    mul_clear_lem = λ x y. refl;
    mul_lem = mul_lem;
    mul_inplace_lem = mul_inplace_lem;
    sqr_lem = sqr_lem;
    Divisor = λ d. d ≢ E.ring.zero;
    Divisor-cancel = λ d x y h e. quotient_unique x y d h e;
    Divisor-mul = product-nonzero;
    div_inplace_lem = div_inplace_lem;
    div_inplace-Fails = div_inplace_zero;
  }
