-- ===== src/OnlineOp/Products.antt =====
-- POC/OnlineOp.hpp, lines 229 to 308: the square, the inverse and the quotient of shares. A square
-- uses a pair (r, r * r) of the preprocessing; an inverse opens the product with a random share.
pub mod Laws
use proof_of_custody.Prelude.{◌≡◌, List, [], ◌∷◌, not}
use proof_of_custody.Ring.{◌⊗◌}
use proof_of_custody.Engine.{Engine}
use proof_of_custody.Engine.Program.{
  M, pure, call, guard, index, ◌>>=◌, ◌>>◌, clear_ring, division_by_zero,
}
use proof_of_custody.OnlineOp.Linear.{
  add_plain, add_inplace, mul_plain, mul, mul_inplace, reveal_vec,
}

module _ ⦃E : Engine⦄ where
  unfoldable pub sqr : E.Share → M E.Share
  sqr a = do
    sp ← call E.get_two
    vc ← reveal_vec (E.sub_share a sp.0 ∷ [])
    v ← index vc 0
    let tmp = mul_plain sp.0 v
    pure (add_plain (add_inplace (add_inplace sp.1 tmp) tmp) (v ⊗ v))

  unfoldable pub sqr_inplace : E.Share → M E.Share
  sqr_inplace a = sqr a

  unfoldable pub inv : E.Share → M E.Share
  inv a = do
    tmp ← call E.get_two
    c ← mul tmp.0 a
    ra ← reveal_vec (c ∷ [])
    x ← index ra 0
    guard (not (E.is_zero x)) division_by_zero
    pure (mul_plain tmp.0 (E.invert x))

  unfoldable pub inv_inplace : E.Share → M E.Share
  inv_inplace a = inv a

  unfoldable pub div : E.Share → E.Share → M E.Share
  div a b = do c ← inv b; mul_inplace c a

  unfoldable pub div_inplace : E.Share → E.Share → M E.Share
  div_inplace c a = div c a
