-- ===== src/OnlineOp/Adder.antt =====
-- OnlineOp.hpp, lines 795 to 854: a full adder on shared bits, and the sum of two numbers given by
-- their bits, the second shared or clear.
pub mod Laws
use proof_of_custody.Prelude.{List, [], ◌∷◌, length, drop, ◌==◌}
use proof_of_custody.Engine.{Engine}
use proof_of_custody.Engine.Program.{M, pure, guard, index, ◌>>=◌, ◌>>◌, invalid_length}
use proof_of_custody.OnlineOp.Bits.{
  xor_shares, and_shares, xor_plain, and_plain, xor_inplace, or_inplace, and_inplace,
}

module _ ⦃E : Engine⦄ where
  -- (ca_out, s)
  unfoldable pub carry_sum : E.Share → E.Share → E.Share → M (E.Share × E.Share)
  carry_sum x y ca_in = do
    s ← xor_shares x y
    s ← xor_inplace s ca_in
    tmp ← xor_shares x ca_in
    ca_out ← xor_shares y ca_in
    ca_out ← and_inplace ca_out tmp
    ca_out ← xor_inplace ca_out ca_in
    pure (ca_out, s)

  unfoldable pub carry_sum_plain : E.Share → E.Clear → E.Share → M (E.Share × E.Share)
  carry_sum_plain x y ca_in = do
    s ← xor_inplace (xor_plain x y) ca_in
    tmp ← and_inplace (xor_plain x y) ca_in
    ca_out ← or_inplace (and_plain x y) tmp
    pure (ca_out, s)

  -- The rounds that are left, and then `c.back() = ca_out`.
  unfoldable pub add_bit_loop : E.Share → E.Share → List E.Share → List E.Share → M (List E.Share)
  add_bit_loop ca_in ca_out (x ∷ a) (y ∷ b) = do
    r ← carry_sum x y ca_in
    rest ← add_bit_loop r.0 r.0 a b
    pure (r.1 ∷ rest)
  add_bit_loop ca_in ca_out _ _ = pure (ca_out ∷ [])

  -- `ca_out` is not set before the first round.
  unfoldable pub add_bit : List E.Share → List E.Share → M (List E.Share)
  add_bit a b = do
    guard (length a == length b) invalid_length
    x ← index a 0
    y ← index b 0
    ca_in ← and_shares x y
    c0 ← xor_shares x y
    rest ← add_bit_loop ca_in E.fresh (drop 1 a) (drop 1 b)
    pure (c0 ∷ rest)

  unfoldable pub add_bit_plain_loop :
      E.Share → E.Share → List E.Share → List E.Clear → M (List E.Share)
  add_bit_plain_loop ca_in ca_out (x ∷ a) (y ∷ b) = do
    r ← carry_sum_plain x y ca_in
    rest ← add_bit_plain_loop r.0 r.0 a b
    pure (r.1 ∷ rest)
  add_bit_plain_loop ca_in ca_out _ _ = pure (ca_out ∷ [])

  unfoldable pub add_bit_plain : List E.Share → List E.Clear → M (List E.Share)
  add_bit_plain a b = do
    guard (length a == length b) invalid_length
    x ← index a 0
    y ← index b 0
    rest ← add_bit_plain_loop (and_plain x y) E.fresh (drop 1 a) (drop 1 b)
    pure (xor_plain x y ∷ rest)
