-- ===== src/OnlineOp/Bits.antt =====
-- OnlineOp.hpp, lines 440 to 571: the Boolean connectives on shares of 0 and 1, computed in the
-- field: x xor y is x + y - 2 x y, and x or y is x + y - x y.
pub mod Laws
pub mod Clear
use proof_of_custody.Prelude.{ℕ, ◌≡◌, List, length, ◌==◌, ◌&&◌}
use proof_of_custody.Engine.{Engine}
use proof_of_custody.Engine.Program.{M, pure, guard, ◌>>=◌, ◌>>◌, invalid_length}
use proof_of_custody.OnlineOp.Linear.{
  add, add_plain, sub_inplace, mul, mul_plain, resize, add_vec, add_plain_vec, sub_inplace_vec,
  mul_vec, mul_plain_vec,
}

module _ ⦃E : Engine⦄ where
  unfoldable pub xor_shares : E.Share → E.Share → M E.Share
  xor_shares a b = do tmp ← mul a b; pure (sub_inplace (sub_inplace (add a b) tmp) tmp)

  unfoldable pub or_shares : E.Share → E.Share → M E.Share
  or_shares a b = do tmp ← mul a b; pure (sub_inplace (add a b) tmp)

  unfoldable pub and_shares : E.Share → E.Share → M E.Share
  and_shares a b = mul a b

  unfoldable pub xor_plain : E.Share → E.Clear → E.Share
  xor_plain a b = sub_inplace (sub_inplace (add_plain a b) (mul_plain a b)) (mul_plain a b)

  unfoldable pub or_plain : E.Share → E.Clear → E.Share
  or_plain a b = sub_inplace (add_plain a b) (mul_plain a b)

  unfoldable pub and_plain : E.Share → E.Clear → E.Share
  and_plain a b = mul_plain a b

  unfoldable pub xor_inplace : E.Share → E.Share → M E.Share
  xor_inplace c a = xor_shares c a

  unfoldable pub or_inplace : E.Share → E.Share → M E.Share
  or_inplace c a = or_shares c a

  unfoldable pub and_inplace : E.Share → E.Share → M E.Share
  and_inplace c a = and_shares c a

  unfoldable pub xor_vec : List E.Share → List E.Share → ℕ → M (List E.Share)
  xor_vec a b k = do
    guard (length a == k && length b == k) invalid_length
    c ← add_vec a b
    tmp ← mul_vec a b
    pure (sub_inplace_vec (sub_inplace_vec c tmp) tmp)

  unfoldable pub xor_plain_vec : List E.Share → List E.Clear → ℕ → M (List E.Share)
  xor_plain_vec a b k = do
    guard (length a == k && length b == k) invalid_length
    c ← add_plain_vec a b
    tmp ← mul_plain_vec a b
    pure (sub_inplace_vec (sub_inplace_vec c tmp) tmp)

  unfoldable pub or_vec : List E.Share → List E.Share → ℕ → M (List E.Share)
  or_vec a b k = do
    guard (length a == k && length b == k) invalid_length
    c ← add_vec a b
    tmp ← mul_vec a b
    pure (sub_inplace_vec c tmp)

  -- The source does not look at the lengths before add_plain.
  unfoldable pub or_plain_vec : List E.Share → List E.Clear → M (List E.Share)
  or_plain_vec a b = do c ← add_plain_vec a b; tmp ← mul_plain_vec a b; pure (sub_inplace_vec c tmp)

  unfoldable pub xor_inplace_vec : List E.Share → List E.Share → ℕ → M (List E.Share)
  xor_inplace_vec c a k = xor_vec (resize k E.fresh c) a k

  unfoldable pub or_inplace_vec : List E.Share → List E.Share → ℕ → M (List E.Share)
  or_inplace_vec c a k = or_vec c a k
