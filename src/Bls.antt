-- ===== src/Bls.antt =====
-- POC/bls.h and POC/bls.cpp: the signatures of BLS with one key. The keys of several parties are in
-- the child modules.
pub mod Laws
pub mod Keygen
pub mod Sign
use proof_of_custody.Prelude.{ℕ, Bool, if◌then◌else◌}
use proof_of_custody.Ring.{◌⊗◌}
use proof_of_custody.Ring.Module.{◌⊡◌}
use proof_of_custody.Engine.Program.{Result, ok, err, invalid_program}
use proof_of_custody.Mcl.{Mcl, fr_ring, g1_points, g1_module, mul2}

-- BLS_
pub record Bls ⦃L : Mcl⦄ : Type 0 where
  pub sk : L.Fr
  pub vk : L.G1
  pub sigma : L.G2
  pub nparty : ℕ
  pub threshold : ℕ

module _ ⦃L : Mcl⦄ where
  unfoldable pub set_vk : Bls → L.G1 → Bls
  set_vk b vk = record {
    sk = b.sk;
    vk = vk;
    sigma = b.sigma;
    nparty = b.nparty;
    threshold = b.threshold;
  }

  unfoldable pub set_sigma : Bls → L.G2 → Bls
  set_sigma b sigma = record {
    sk = b.sk;
    vk = b.vk;
    sigma = sigma;
    nparty = b.nparty;
    threshold = b.threshold;
  }

  unfoldable pub get_sk : Bls → L.Fr
  get_sk b = b.sk

  -- The keys of a party.
  abbrev pub with_keys : Bls → L.Fr → L.G1 → Bls
  with_keys b sk vk = record {
    sk = sk;
    vk = vk;
    sigma = b.sigma;
    nparty = b.nparty;
    threshold = b.threshold;
  }

  unfoldable pub keygen : Bls → L.Seed → Result (Bls × L.Seed)
  keygen b seed =
      let drawn = L.set_by_csprng seed in
      let sk = drawn.0.0 in
      if drawn.0.1 then ok (with_keys b sk (L.base_point ⊡ sk), drawn.1) else err invalid_program

  unfoldable pub sign : Bls → L.Message → Bls
  unfolding set_sigma
  sign b msg = set_sigma b (mul2 (L.hash_and_map_to msg) b.sk)

  unfoldable pub verify : Bls → L.G2 → L.Message → Bool
  verify b sigma msg =
      L.is_equal_t (L.pairing b.vk (L.hash_and_map_to msg)) (L.pairing L.base_point sigma)

  unfoldable pub sign_scale : Bls → L.Fr → L.Message → Bls
  unfolding set_sigma
  sign_scale b scale msg = set_sigma b (mul2 (L.hash_and_map_to msg) (b.sk ⊗ scale))
