-- ===== src/Bls/Laws.antt =====
-- A signature is accepted exactly if it is the hash of the message times the secret key.
use proof_of_custody.Prelude.{◌≡◌, ◌↔◌, sym, ap, ◌∙◌, Bool, true, false, if◌then◌else◌}
use proof_of_custody.Ring.Module.{◌⊡◌}
use proof_of_custody.Engine.Program.{ok, err, invalid_program}
use proof_of_custody.Fallible.{ok-injective}
use proof_of_custody.Mcl.{Mcl, fr_ring, g1_points, g1_module, mul2}
use proof_of_custody.Bls.{Bls, keygen, sign, verify, with_keys}

module _ ⦃L : Mcl⦄ where
  -- Under the verification key of a secret key, one signature of a message is accepted, the hash of
  -- the message times the key.
  pub verify_iff :
      (b : Bls) (sk : L.Fr) (sigma : L.G2) (msg : L.Message)
      → b.vk ≡ L.base_point ⊡ sk
      → (verify b sigma msg ≡ true) ↔ (sigma ≡ mul2 (L.hash_and_map_to msg) sk)
  unfolding verify
  verify_iff b sk sigma msg h =
      let h2 = L.hash_and_map_to msg in
      let moved : L.pairing b.vk h2 ≡ L.pairing L.base_point (mul2 h2 sk) =
        ap (λ p. L.pairing p h2) h ∙ L.pairing-scale L.base_point h2 sk in
      (
        (λ e. L.pairing-injective sigma (mul2 h2 sk) (sym ((L.is_equal_t_iff _ _).0 e) ∙ moved)),
        (λ e. (L.is_equal_t_iff _ _).1 (moved ∙ ap (L.pairing L.base_point) (sym e))),
      )

  keygen-keys :
      (b b' : Bls) (seed seed' : L.Seed)
      → keygen b seed ≡ ok (b', seed')
      → b'.vk ≡ L.base_point ⊡ b'.sk
  unfolding keygen
  keygen-keys b b' seed seed' e = kept (L.set_by_csprng seed).0.1 e
    where
      made : Bls × L.Seed
      made = (
        with_keys b (L.set_by_csprng seed).0.0 (L.base_point ⊡ (L.set_by_csprng seed).0.0),
        (L.set_by_csprng seed).1,
      )

      kept :
          (t : Bool)
          → (if t then ok made else err invalid_program) ≡ ok (b', seed')
          → b'.vk ≡ L.base_point ⊡ b'.sk
      kept true h =
          let p = ok-injective h in sym (ap (λ r. r.0.vk) p) ∙ ap (λ r. L.base_point ⊡ r.0.sk) p
      kept false h = absurd cc

  -- Under generated keys the signature of a message is accepted, and no other one is.
  pub keygen-sign-verify :
      (b b' : Bls) (seed seed' : L.Seed) (sigma : L.G2) (msg : L.Message)
      → keygen b seed ≡ ok (b', seed')
      → (verify b' sigma msg ≡ true) ↔ (sigma ≡ (sign b' msg).sigma)
  unfolding sign
  keygen-sign-verify b b' seed seed' sigma msg e =
      verify_iff b' b'.sk sigma msg (keygen-keys b b' seed seed' e)
