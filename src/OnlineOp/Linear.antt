-- ===== src/OnlineOp/Linear.antt =====
-- POC/OnlineOp.hpp, lines 12 to 227 and 1024 to 1091: sums, differences and products of shares,
-- one at a time and over vectors, with a second operand that is shared or clear. An operation
-- `f_inplace(c, a)` returns the new `c`. `k` of the vector versions is not read by the source.
pub mod Laws
pub mod Vectors
use proof_of_custody.Prelude.{
  ℕ, zero, suc, ◌+◌, ◌-◌, ◌≡◌, List, [], ◌∷◌, ◌++◌, length, take, replicate, zip_with, ◌==◌,
}
use proof_of_custody.Ring.{◌⊗◌}
use proof_of_custody.Engine.{Engine}
use proof_of_custody.Engine.Program.{
  M, pure, call, guard, index, ◌>>=◌, ◌>>◌, clear_ring, assertion_failed,
}

module _ ⦃E : Engine⦄ where
  -- `a` after the loop `for (i = 1; i < exp; i++) a *= tmp`, with the rounds left
  unfoldable pub power_loop : ℕ → E.Clear → E.Clear → E.Clear
  power_loop zero tmp a = a
  power_loop (suc n) tmp a = power_loop n tmp (a ⊗ tmp)

  -- An exponent of 0 resets `a` to 0 and then goes on to the loop.
  unfoldable pub power : E.Clear → ℕ → E.Clear
  unfolding power_loop
  power a zero = E.ring.zero
  power a (suc n) = power_loop n a a

  -- c.resize(n)
  unfoldable pub resize : {A : Type 0} → ℕ → A → List A → List A
  resize n d xs = take n xs ++ replicate (n - length xs) d

  unfoldable pub add : E.Share → E.Share → E.Share
  add a b = E.add_share a b

  unfoldable pub add_plain : E.Share → E.Clear → E.Share
  add_plain a b = E.add_share a (E.constant b)

  unfoldable pub add_inplace : E.Share → E.Share → E.Share
  add_inplace c a = E.add_share c a

  unfoldable pub add_plain_inplace : E.Share → E.Clear → E.Share
  add_plain_inplace c a = E.add_share c (E.constant a)

  unfoldable pub sub : E.Share → E.Share → E.Share
  sub a b = E.sub_share a b

  unfoldable pub sub_plain : E.Share → E.Clear → E.Share
  sub_plain a b = E.sub_share a (E.constant b)

  unfoldable pub sub_inplace : E.Share → E.Share → E.Share
  sub_inplace c a = E.sub_share c a

  unfoldable pub sub_plain_inplace : E.Share → E.Clear → E.Share
  sub_plain_inplace c a = E.sub_share c (E.constant a)

  unfoldable pub mul_plain : E.Share → E.Clear → E.Share
  mul_plain a b = E.scale a b

  unfoldable pub mul_plain_inplace : E.Share → E.Clear → E.Share
  mul_plain_inplace c a = E.scale c a

  unfoldable pub add_vec : List E.Share → List E.Share → M (List E.Share)
  add_vec a b = do guard (length a == length b) assertion_failed; pure (zip_with add a b)

  unfoldable pub add_plain_vec : List E.Share → List E.Clear → M (List E.Share)
  add_plain_vec a b = do
    guard (length a == length b) assertion_failed
    pure (zip_with add_plain a b)

  unfoldable pub add_inplace_vec : List E.Share → List E.Share → List E.Share
  add_inplace_vec c a = zip_with add_inplace (resize (length a) E.fresh c) a

  unfoldable pub sub_vec : List E.Share → List E.Share → M (List E.Share)
  sub_vec a b = do guard (length a == length b) assertion_failed; pure (zip_with sub a b)

  unfoldable pub sub_inplace_vec : List E.Share → List E.Share → List E.Share
  sub_inplace_vec c a = zip_with sub_inplace (resize (length a) E.fresh c) a

  unfoldable pub mul_vec : List E.Share → List E.Share → M (List E.Share)
  mul_vec a b = do guard (length a == length b) assertion_failed; call (E.run_mul a b)

  unfoldable pub mul_plain_vec : List E.Share → List E.Clear → M (List E.Share)
  mul_plain_vec a b = do
    guard (length a == length b) assertion_failed
    pure (zip_with mul_plain a b)

  unfoldable pub mul : E.Share → E.Share → M E.Share
  mul a b = do vc ← mul_vec (a ∷ []) (b ∷ []); index vc 0

  unfoldable pub mul_inplace : E.Share → E.Share → M E.Share
  mul_inplace c a = do vc ← mul_vec (a ∷ []) (c ∷ []); index vc 0

  unfoldable pub reveal_vec : List E.Share → M (List E.Clear)
  reveal_vec a = call (E.run_open a)

  unfoldable pub get_inputs : ℕ → (ℕ → E.Clear) → M E.Share
  get_inputs party inputs = call (E.run_input party inputs)
