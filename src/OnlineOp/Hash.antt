-- ===== src/OnlineOp/Hash.antt =====
-- OnlineOp.hpp, lines 980 to 1022: the polynomial hash of clear chunks under a shared key, and the
-- Legendre symbol of a shared number, opened under a square mask. `mpz_legendre` is GMP's.
pub mod Laws
use proof_of_custody.Prelude.{
  ℕ, zero, suc, ◌+◌, ◌-◌, ◌/◌, ◌≡◌, ◌≢◌, ◌↔◌, List, [], ◌∷◌, length, ◌==◌, leb,
}
use proof_of_custody.Ring.{◌⊗◌}
use proof_of_custody.Engine.{Engine}
use proof_of_custody.Engine.Program.{
  M, pure, throw, call, guard, index, ◌>>=◌, ◌>>◌, clear_ring, invalid_length, out_of_range,
}
use proof_of_custody.OnlineOp.Linear.{add, add_plain_inplace, mul_plain, mul_inplace, reveal_vec}

-- The results -1, 0 and 1 of mpz_legendre.
pub data Symbol : Type 0 where
  minus none_left plus : Symbol

module _ ⦃E : Engine⦄ where
  -- GMP's Legendre symbol: 1 exactly for the nonzero squares, and 0 exactly for 0.
  pub record Gmp : Type 0 where
    pub mpz_legendre : ℕ → ℕ → Symbol
    pub plus_iff :
        (x : E.Clear)
        → (mpz_legendre (E.to_bigint x) E.pr ≡ plus)
          ↔ ((y : E.Clear) × (y ≢ E.ring.zero) × (x ≡ y ⊗ y))
    pub none_left_iff :
        (x : E.Clear) → (mpz_legendre (E.to_bigint x) E.pr ≡ none_left) ↔ (x ≡ E.ring.zero)

  -- in[size - d], where the subtraction wraps to a place past the end
  unfoldable pub index_back : List E.Clear → ℕ → ℕ → M E.Clear
  index_back xs size d = do guard (leb d size) out_of_range; index xs (size - d)

  -- The rounds for i = n - 1 down to 0.
  unfoldable pub uhf_loop : ℕ → E.Share → E.Share → List E.Clear → M E.Share
  uhf_loop zero out key inputs = pure out
  uhf_loop (suc i) out key inputs = do
    out ← mul_inplace out key
    x ← index inputs i
    uhf_loop i (add_plain_inplace out x) key inputs

  unfoldable pub uhf : E.Share → List E.Clear → ℕ → M E.Share
  uhf key inputs size = do
    guard (length inputs == size) invalid_length
    x ← index_back inputs size 1
    y ← index_back inputs size 2
    uhf_loop (size - 2) (add_plain_inplace (mul_plain key x) y) key inputs

  module _ (gmp : Gmp) where
    unfoldable pub legendre : E.Share → M Symbol
    legendre a = do
      s ← call E.get_two
      t ← mul_inplace s.1 a
      c ← reveal_vec (t ∷ [])
      x ← index c 0
      pure (gmp.mpz_legendre (E.to_bigint x) E.pr)

    -- res + 1
    unfoldable pub shifted : Symbol → ℕ
    shifted minus = 0
    shifted none_left = 1
    shifted plus = 2

    -- ceil(double(res + 1) / 2)
    unfoldable pub legendre_prf : E.Share → E.Share → M ℕ
    unfolding shifted
    legendre_prf key a = do res ← legendre (add key a); pure ((shifted res + 1) / 2)
