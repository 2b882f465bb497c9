-- ===== src/Poc.antt =====
-- POC/poc.hpp and POC/poc.h: the custody bit of a message of chunks under the ephemeral keys, in
-- one step and split into an offline and an online phase, for one prime and for two.
pub mod Powers
pub mod Custody
pub mod OnePrime
pub mod TwoPrimes
pub mod Rounds
pub mod KeyExchange
pub mod EphemKey
pub mod Stages
use proof_of_custody.Prelude.{
  ℕ, zero, suc, ◌+◌, ◌-◌, ◌*◌, ◌/◌, ◌%◌, Bool, true, false, List, [], ◌∷◌, ◌++◌, length, drop, ◌==◌,
  if◌then◌else◌,
}
use proof_of_custody.Ring.{nat}
use proof_of_custody.Engine.{Engine}
use proof_of_custody.Engine.Program.{
  M, pure, throw, guard, index, ◌>>=◌, ◌>>◌, clear_ring, invalid_length, bad_value, out_of_range,
}
use proof_of_custody.OnlineOp.Linear.{
  add_plain, add_inplace, add_plain_inplace, mul_plain, mul, mul_inplace,
}
use proof_of_custody.OnlineOp.Products.{sqr}
use proof_of_custody.OnlineOp.Hash.{Gmp, uhf, legendre_prf}

-- CHUNK_NUM
unfoldable pub chunk_num : ℕ
chunk_num = 256 * 1024 / 32

module _ ⦃E : Engine⦄ where
  -- for (i = CHUNK_NUM - n; i < CHUNK_NUM; i++) pre_key[i] = pre_key[i - d] * factor(i), over the
  -- part of pre_key that is set; i is its length.
  unfoldable pub extend : ℕ → (ℕ → E.Share) → ℕ → List E.Share → M (List E.Share)
  extend d factor zero pre = pure pre
  extend d factor (suc n) pre = do
    x ← index pre (length pre - d)
    y ← mul x (factor (length pre))
    extend d factor n (pre ++ y ∷ [])

  unfoldable pub custody_bit_offline : List E.Share → M (List E.Share)
  custody_bit_offline keys = do
    guard (length keys == 2) invalid_length
    s0 ← index keys 0
    s1 ← index keys 1
    s0_square ← sqr s0
    s1_square ← sqr s1
    extend 2 (λ i. if i % 2 == 0 then s1_square else s0_square) (chunk_num - 2)
        (s1 ∷ s0_square ∷ [])

  -- out += pre_key[i - 1] * msg[i], over what is left of the two vectors
  unfoldable pub accumulate : E.Share → List E.Share → List E.Clear → M E.Share
  accumulate out pre [] = pure out
  accumulate out [] (m ∷ ms) = throw out_of_range
  accumulate out (p ∷ pre) (m ∷ ms) = accumulate (add_inplace out (mul_plain p m)) pre ms

  -- The part of the online phases that computes `uhf_out`.
  unfoldable pub online_hash : List E.Share → List E.Clear → M E.Share
  online_hash pre msg = do
    p0 ← index pre 0
    m1 ← index msg 1
    m0 ← index msg 0
    uhf_out ← accumulate (add_plain_inplace (mul_plain p0 m1) m0) (drop 1 pre) (drop 2 msg)
    back ← index pre (length pre - 1)
    pure (add_inplace uhf_out back)

  module _ (gmp : Gmp) where
    unfoldable pub custody_bit_online : List E.Share → List E.Clear → M ℕ
    custody_bit_online pre msg = do
      guard (length msg == chunk_num) invalid_length
      uhf_out ← online_hash pre msg
      p0 ← index pre 0
      legendre_prf gmp p0 uhf_out

    unfoldable pub custody_bit : List E.Share → List E.Clear → M ℕ
    custody_bit keys msg = do
      guard (length keys == 2) invalid_length
      k0 ← index keys 0
      uhf_out ← uhf k0 msg chunk_num
      k1 ← index keys 1
      legendre_prf gmp k1 uhf_out

  unfoldable pub custody_bit_offline_2primes : List E.Share → M (List E.Share)
  custody_bit_offline_2primes keys = do
    guard (length keys == 3) bad_value
    s0 ← index keys 0
    s1 ← index keys 1
    s2 ← index keys 2
    s0_square ← sqr s0
    s0_cube ← mul_inplace s0_square s0
    s1_square ← sqr s1
    s1_cube ← mul_inplace s1_square s1
    s2_square ← sqr s2
    s2_cube ← mul_inplace s2_square s2
    extend 3 (λ i. if i % 3 == 0 then s1_cube else if i % 3 == 1 then s2_cube else s0_cube)
        (chunk_num - 3) (s1 ∷ s2_square ∷ s0_cube ∷ [])

  -- res |= bit, for bits 0 and 1
  unfoldable pub bit_or : ℕ → ℕ → ℕ
  bit_or zero b = b
  bit_or (suc a) b = suc a

  module _ (gmp : Gmp) where
    -- The rounds for i = 10 - n up to 9.
    unfoldable pub prf_rounds : ℕ → ℕ → E.Share → E.Share → ℕ → M ℕ
    prf_rounds zero i key uhf_out res = pure res
    prf_rounds (suc n) i key uhf_out res = do
      b ← legendre_prf gmp key (add_plain uhf_out (nat i))
      prf_rounds n (suc i) key uhf_out (bit_or res b)

    unfoldable pub custody_bit_online_2primes : List E.Share → E.Share → List E.Clear → M ℕ
    custody_bit_online_2primes pre key msg = do
      guard (length msg == chunk_num) bad_value
      uhf_out ← online_hash pre msg
      prf_rounds 10 0 key uhf_out 0
