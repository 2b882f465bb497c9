-- ===== src/Poc/EphemKey.antt =====
-- POC/poc.hpp, lines 3 to 13, and POC/RunPoc.hpp, lines 31 to 54 and 109 to 138: the ephemeral key
-- is the shared signature of a message under the key that the parties have generated.
pub mod Laws
use proof_of_custody.Prelude.{ℕ, List, [], ◌∷◌}
use proof_of_custody.Engine.{Engine}
use proof_of_custody.Engine.Program.{M, Result, pure, ◌>>=◌}
use proof_of_custody.OnlineOp.Complexes.{Complex}
use proof_of_custody.Group.{Affine}
use proof_of_custody.Mcl.{Mcl}
use proof_of_custody.Bls.{Bls}
use proof_of_custody.Bls.Keygen.{Transport, Player, Sent, Received, dstb_keygen}
use proof_of_custody.Bls.Sign.{dstb_sign}
use proof_of_custody.Poc.KeyExchange.{ephem_key_phase_one}

module _ ⦃L : Mcl⦄ ⦃T : Transport⦄ where
  unfoldable pub poc_setup : Player → Bls → L.Seed → (Sent → Received) → Result (Bls × L.Seed)
  poc_setup p bls seed network = dstb_keygen p bls seed network

module _ ⦃E : Engine⦄ ⦃L : Mcl⦄ (g2_get_str : L.G2 → Affine (Complex ℕ)) where
  -- The keys of all n parties are the argument `bls`.
  unfoldable pub poc_compute_ephem_key : ℕ → (ℕ → Bls) → L.Message → M (Affine (Complex E.Share))
  poc_compute_ephem_key n bls msg = dstb_sign g2_get_str n bls msg

  unfoldable pub run_poc_compute_ephem_key : ℕ → (ℕ → Bls) → L.Message → M (List E.Share)
  run_poc_compute_ephem_key n bls msg = do
    ac ← poc_compute_ephem_key n bls msg
    pure (ac.x.real ∷ ac.x.imag ∷ ac.y.real ∷ ac.y.imag ∷ [])

  -- Returns local_bits and reveal_bits. The fuel bounds the rounds of pre_rand, and `rnd p` are the
  -- octets that party p draws.
  unfoldable pub run_ephem_key_phase_one :
      ℕ → ℕ → (ℕ → ℕ → ℕ) → (ℕ → Bls) → L.Message → M ((ℕ → ℕ → ℕ) × List ℕ)
  run_ephem_key_phase_one fuel players rnd bls msg = do
    ac ← poc_compute_ephem_key players bls msg
    ephem_key_phase_one fuel players rnd ac.x.real ac.x.imag
