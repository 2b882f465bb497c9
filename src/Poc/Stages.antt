-- ===== src/Poc/Stages.antt =====
-- Source/poc_main.cpp, lines 115 to 141: the stages from the keys of the parties to the custody bit,
-- one after the other over the one field T of that program.
pub mod Laws
use proof_of_custody.Prelude.{ℕ, zero, suc, ◌*◌, List, [], ◌∷◌}
use proof_of_custody.Ring.{nat}
use proof_of_custody.Engine.{Engine}
use proof_of_custody.Engine.Program.{M, index, ◌>>=◌, clear_ring}
use proof_of_custody.OnlineOp.Complexes.{Complex}
use proof_of_custody.OnlineOp.Hash.{Gmp}
use proof_of_custody.Group.{Affine}
use proof_of_custody.Mcl.{Mcl}
use proof_of_custody.Bls.{Bls}
use proof_of_custody.Poc.{chunk_num, custody_bit_offline_2primes, custody_bit_online_2primes}
use proof_of_custody.Poc.KeyExchange.{ephem_key_phase_two}
use proof_of_custody.Poc.EphemKey.{run_ephem_key_phase_one}

module _ ⦃E : Engine⦄ where
  -- msg[i] = i * 2, for the n places from i on
  unfoldable pub chunks_from : ℕ → ℕ → List E.Clear
  chunks_from i zero = []
  chunks_from i (suc n) = nat (i * 2) ∷ chunks_from (suc i) n

  unfoldable pub test_message : List E.Clear
  test_message = chunks_from 0 chunk_num

module _ ⦃E : Engine⦄ (gmp : Gmp) where
  -- Stages 2-2 and 2-3.
  unfoldable pub custody_stages : List E.Share → List E.Clear → M ℕ
  custody_stages ek msg = do
    pre_key ← custody_bit_offline_2primes ek
    key ← index ek 0
    custody_bit_online_2primes gmp pre_key key msg

module _ ⦃E : Engine⦄ ⦃L : Mcl⦄ (g2_get_str : L.G2 → Affine (Complex ℕ)) (gmp : Gmp) where
  -- Stages 1-1 to 2-3, after the setup. The fuel bounds the rounds of pre_rand, and `rnd p` are the
  -- octets that party p draws. The message of stage 2-3 is an argument.
  unfoldable pub run_stages : ℕ → ℕ → (ℕ → ℕ → ℕ) → (ℕ → Bls) → L.Message → List E.Clear → M ℕ
  run_stages fuel players rnd bls nonce msg = do
    bits ← run_ephem_key_phase_one g2_get_str fuel players rnd bls nonce
    ek ← ephem_key_phase_two players bits.0 bits.1
    custody_stages gmp ek msg

  -- Case 1 of `run`, after the setup.
  unfoldable pub run_case_1 : ℕ → ℕ → (ℕ → ℕ → ℕ) → (ℕ → Bls) → L.Message → M ℕ
  run_case_1 fuel players rnd bls nonce = run_stages fuel players rnd bls nonce test_message
