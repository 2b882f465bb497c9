-- ===== src/OnlineOp/Folds.antt =====
-- OnlineOp.hpp, lines 572 to 691: the exclusive or and the disjunction of k bits by halving, and
-- all prefix disjunctions by divide and conquer. The calls recur on the length, which 0 does not
-- shorten: the fuel bounds their depth.
pub mod Laws
use proof_of_custody.Prelude.{
  ℕ, zero, suc, ◌+◌, ◌-◌, ◌/◌, ◌%◌, Bool, List, [], ◌∷◌, ◌++◌, length, take, drop, replicate, ◌==◌,
}
use proof_of_custody.Engine.{Engine}
use proof_of_custody.Engine.Program.{
  M, pure, throw, guard, index, ◌>>=◌, ◌>>◌, invalid_length, out_of_fuel,
}
use proof_of_custody.Bitwise.Folds.{evens, odds}
use proof_of_custody.OnlineOp.Bits.{xor_inplace_vec, or_inplace_vec}

module _ ⦃E : Engine⦄ where
  -- The body that KXOR and KOR share, over the connective of two vectors.
  unfoldable pub halving :
      (List E.Share → List E.Share → ℕ → M (List E.Share)) → ℕ → List E.Share → ℕ → M E.Share
  halving op zero a k = throw out_of_fuel
  halving op (suc fuel) a k = do
    guard (length a == k) invalid_length
    let rest = do
      half_c ← op (evens a) (odds a) (k / 2)
      elim (k % 2 == 0) [
        | Bool.true ↦ halving op fuel half_c (k / 2)
        | Bool.false ↦ do
          last ← index a (k - 1)
          halving op fuel (half_c ++ last ∷ []) ((k + 1) / 2)
      ]
    elim (k == 1) [ Bool.true ↦ index a 0 | Bool.false ↦ rest ]

  unfoldable pub kxor : ℕ → List E.Share → ℕ → M E.Share
  kxor = halving xor_inplace_vec

  unfoldable pub kor : ℕ → List E.Share → ℕ → M E.Share
  kor = halving or_inplace_vec

  unfoldable pub prefix_or : ℕ → List E.Share → ℕ → M (List E.Share)
  prefix_or zero a k = throw out_of_fuel
  prefix_or (suc fuel) a k = do
    guard (length a == k) invalid_length
    let rest = do
      half_c0 ← prefix_or fuel (take (k / 2) a) (k / 2)
      half_c1 ← prefix_or fuel (drop (k / 2) a) (k - k / 2)
      last ← index half_c0 (k / 2 - 1)
      tmp ← or_inplace_vec (replicate (k - k / 2) last) half_c1 (k - k / 2)
      pure (half_c0 ++ tmp)
    elim (k == 1) [ Bool.true ↦ do x ← index a 0; pure (x ∷ []) | Bool.false ↦ rest ]
