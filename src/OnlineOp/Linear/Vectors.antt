-- ===== src/OnlineOp/Linear/Vectors.antt =====
-- POC/OnlineOp.hpp: the operations on vectors that replace their first operand or take a clear one,
-- the opening of one share, and the input of a vector.
pub mod Laws
use proof_of_custody.Prelude.{ℕ, zero, suc, ◌≡◌, List, [], ◌∷◌, length, zip_with, ◌==◌}
use proof_of_custody.Engine.{Engine}
use proof_of_custody.Engine.Program.{M, pure, call, guard, index, ◌>>=◌, ◌>>◌, assertion_failed}
use proof_of_custody.OnlineOp.Linear.{
  resize, add_plain_inplace, sub_plain, sub_plain_inplace, mul_inplace, mul_plain_inplace,
  get_inputs,
}

module _ ⦃E : Engine⦄ where
  unfoldable pub add_plain_inplace_vec : List E.Share → List E.Clear → List E.Share
  add_plain_inplace_vec c a = zip_with add_plain_inplace (resize (length a) E.fresh c) a

  unfoldable pub sub_plain_vec : List E.Share → List E.Clear → M (List E.Share)
  sub_plain_vec a b = do
    guard (length a == length b) assertion_failed
    pure (zip_with sub_plain a b)

  unfoldable pub sub_plain_inplace_vec : List E.Share → List E.Clear → List E.Share
  sub_plain_inplace_vec c a = zip_with sub_plain_inplace (resize (length a) E.fresh c) a

  unfoldable pub mul_plain_inplace_vec : List E.Share → List E.Clear → List E.Share
  mul_plain_inplace_vec c a = zip_with mul_plain_inplace (resize (length a) E.fresh c) a

  -- The products are computed one after the other.
  unfoldable pub mul_inplace_loop : List E.Share → List E.Share → M (List E.Share)
  mul_inplace_loop [] a = pure []
  mul_inplace_loop (x ∷ c) [] = pure []
  mul_inplace_loop (x ∷ c) (y ∷ a) = do
    z ← mul_inplace x y
    rest ← mul_inplace_loop c a
    pure (z ∷ rest)

  unfoldable pub mul_inplace_vec : List E.Share → List E.Share → M (List E.Share)
  mul_inplace_vec c a = mul_inplace_loop (resize (length a) E.fresh c) a

  unfoldable pub reveal : E.Share → M E.Clear
  reveal a = do r ← call (E.run_open (a ∷ [])); index r 0

  -- The places i, .., i + n - 1; `inputs p j` is inputs[j] of the party p.
  unfoldable pub get_inputs_loop : ℕ → (ℕ → ℕ → E.Clear) → ℕ → ℕ → M (List E.Share)
  get_inputs_loop party inputs i zero = pure []
  get_inputs_loop party inputs i (suc n) = do
    sa ← get_inputs party (λ p. inputs p i)
    rest ← get_inputs_loop party inputs (suc i) n
    pure (sa ∷ rest)

  -- All parties give vectors of the same size n.
  unfoldable pub get_inputs_vec : ℕ → (ℕ → ℕ → E.Clear) → ℕ → M (List E.Share)
  get_inputs_vec party inputs n = get_inputs_loop party inputs 0 n
