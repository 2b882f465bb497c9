-- ===== src/OnlineOp/Compare.antt =====
-- OnlineOp.hpp, lines 693 to 743: the comparison a < b of two numbers given by their bits, the
-- least significant first, with the second number shared or clear. The depth of prefix_OR is at
-- most its length, which is given as its fuel.
pub mod Laws
use proof_of_custody.Prelude.{ℕ, List, [], ◌∷◌, reverse, drop}
use proof_of_custody.Engine.{Engine}
use proof_of_custody.Engine.Program.{M, pure, index, ◌>>=◌}
use proof_of_custody.OnlineOp.Linear.{sub, add_inplace, mul_vec, mul_plain_vec}
use proof_of_custody.OnlineOp.Bits.{xor_vec, xor_plain_vec}
use proof_of_custody.OnlineOp.Folds.{prefix_or}

module _ ⦃E : Engine⦄ where
  -- e[i] = d[i] - d[i + 1], and the last item as it is
  unfoldable pub steps : List E.Share → List E.Share
  steps [] = []
  steps (x ∷ []) = x ∷ []
  steps (x ∷ y ∷ d) = sub x y ∷ steps (y ∷ d)

  unfoldable pub sum_shares : E.Share → List E.Share → E.Share
  sum_shares acc [] = acc
  sum_shares acc (x ∷ xs) = sum_shares (add_inplace acc x) xs

  unfoldable pub lt : List E.Share → List E.Share → ℕ → M E.Share
  lt a b k = do
    c ← xor_vec a b k
    d ← prefix_or k (reverse c) k
    tmp ← mul_vec (steps (reverse d)) b
    first ← index tmp 0
    pure (sum_shares first (drop 1 tmp))

  unfoldable pub lt_plain : List E.Share → List E.Clear → ℕ → M E.Share
  lt_plain a b k = do
    c ← xor_plain_vec a b k
    d ← prefix_or k (reverse c) k
    tmp ← mul_plain_vec (steps (reverse d)) b
    first ← index tmp 0
    pure (sum_shares first (drop 1 tmp))
