-- ===== src/OnlineOp/Convert.antt =====
-- OnlineOp.hpp, lines 745 to 794 and 856 to 978: the bits of a clear number, the number of shared
-- bits, a random number below the field's order with its bits, and the bits of a shared number.
pub mod Laws
pub mod Random
pub mod Decomposition
use proof_of_custody.Prelude.{
  ℕ, zero, suc, ◌+◌, ◌-◌, ◌*◌, ◌/◌, ◌%◌, ◌^◌, Bool, List, [], ◌∷◌, ◌++◌, length, take, zip_with,
  ◌==◌,
}
use proof_of_custody.Ring.{◌⊖◌, ◌⊗◌, nat}
use proof_of_custody.Engine.{Engine}
use proof_of_custody.Engine.Program.{
  M, pure, throw, call, index, ◌>>=◌, ◌>>◌, clear_ring, out_of_fuel,
}
use proof_of_custody.OnlineOp.Linear.{
  power, sub, add_inplace, add_plain_inplace, sub_inplace, mul_plain, reveal_vec,
}
use proof_of_custody.OnlineOp.Compare.{lt_plain}
use proof_of_custody.OnlineOp.Adder.{add_bit}

-- `PSIZE`, the bits of the first prime, and `QSIZE`, the bits of each key of the second.
unfoldable pub psize : ℕ
psize = 381

unfoldable pub qsize : ℕ
qsize = 254

module _ ⦃E : Engine⦄ where
  unfoldable pub decompose_loop : ℕ → ℕ → List E.Clear
  decompose_loop zero tmp = []
  decompose_loop (suc n) tmp = nat (tmp / 2 % 2) ∷ decompose_loop n (tmp / 2)

  -- The source writes `bits[0]` also for k = 0; its callers pass PSIZE.
  unfoldable pub decompose : ℕ → ℕ → List E.Clear
  decompose x zero = []
  decompose x (suc n) = nat (x % 2) ∷ decompose_loop n x

  -- The rounds left, and `i`.
  unfoldable pub b2a_loop : ℕ → ℕ → List E.Share → E.Share → M E.Share
  b2a_loop zero i bits c = pure c
  b2a_loop (suc n) i bits c = do
    b ← index bits i
    b2a_loop n (suc i) bits (add_inplace c (mul_plain b (power (nat 2) i)))

  unfoldable pub b2a : List E.Share → ℕ → M E.Share
  b2a bits k = do c ← index bits 0; b2a_loop (k - 1) 1 bits c

  unfoldable pub draw_bits : ℕ → M (List E.Share)
  draw_bits zero = pure []
  draw_bits (suc n) = do b ← call E.get_one; rest ← draw_bits n; pure (b ∷ rest)

  -- One round of the loop in `pre_rand`: the bits, and whether `pflag[0] == 1`.
  unfoldable pub attempt : M (List E.Share × Bool)
  attempt = do
    bitr ← draw_bits psize
    flag ← lt_plain bitr (decompose E.pr psize) psize
    pflag ← reveal_vec (flag ∷ [])
    x ← index pflag 0
    pure (bitr, E.is_zero (x ⊖ E.ring.one))

  -- `while (1)`: the fuel bounds the rounds. Returns `r` and `bitr`.
  unfoldable pub pre_rand : ℕ → M (E.Share × List E.Share)
  pre_rand zero = throw out_of_fuel
  pre_rand (suc fuel) = do
    t ← attempt
    elim t.1 [ Bool.true ↦ do r ← b2a t.0 psize; pure (r, t.0) | Bool.false ↦ pre_rand fuel ]

  -- The choice of the summand: `factor` is the share of r + c ≥ p.
  unfoldable pub select : E.Share → List E.Clear → List E.Clear → List E.Share
  select factor tf f = zip_with (λ t u. add_plain_inplace (mul_plain factor (t ⊖ u)) u) tf f

  unfoldable pub a2b_rest : List E.Share → ℕ → M (List E.Share)
  a2b_rest bitr bcp = do
    factor ← lt_plain bitr (decompose (E.pr - bcp) psize) psize
    let tmp = mul_plain factor (nat 2)
    let factor' = add_plain_inplace (sub_inplace factor tmp) E.ring.one
    let f = decompose bcp psize
    let tf = decompose (2 * 2 ^ psize + bcp - E.pr) psize
    bits ← add_bit (select factor' tf f) bitr
    pure (take (length bits - 1) bits)

  unfoldable pub a2b : ℕ → E.Share → M (List E.Share)
  a2b fuel a = do
    t ← pre_rand fuel
    cp ← reveal_vec (sub a t.0 ∷ [])
    x ← index cp 0
    let bcp = E.to_bigint x
    elim (bcp == 0) [ Bool.true ↦ pure t.1 | Bool.false ↦ a2b_rest t.1 bcp ]
