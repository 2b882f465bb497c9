-- ===== src/Bls/Keygen.antt =====
-- POC/bls.cpp, BLS_::dstb_keygen: one party's side of the generation of a shared key, by Feldman's
-- secret sharing of a random value of each party, with a commitment to its public part.
pub mod Laws
pub mod Order
use proof_of_custody.Prelude.{
  ℕ, zero, suc, ◌+◌, ◌≡◌, Bool, true, ◌&&◌, Option, none, some, List, [], ◌∷◌, map, length,
  get_elem?, ◌==◌, if◌then◌else◌,
}
use proof_of_custody.Ring.{◌⊕◌}
use proof_of_custody.Ring.Module.{◌⊞◌}
use proof_of_custody.Engine.Program.{Result, ok, err, invalid_commitment, out_of_range}
use proof_of_custody.Fallible.{◌>>=◌}
use proof_of_custody.Mcl.{Mcl, fr_ring, g1_points}
use proof_of_custody.Vss.{Vss, new_vss, rnd_secret, gen_share, verify_share}
use proof_of_custody.Bls.{Bls, with_keys}

-- What is called of Math/bls12_381 over the serialization of mcl, and of Tools/Commit.
pub record Transport ⦃L : Mcl⦄ : Type 1 where
  pub Octets : Type 0
  -- mclBnFr_to_str, str_to_mclBnFr, mclBnG1_to_str, str_to_mclBnG1
  pub fr_to_str : L.Fr → Octets
  pub str_to_fr : Octets → L.Fr
  pub str_to_fr-fr_to_str : (x : L.Fr) → str_to_fr (fr_to_str x) ≡ x
  pub g1_to_str : L.G1 → Octets
  pub str_to_g1 : Octets → L.G1
  pub str_to_g1-g1_to_str : (p : L.G1) → str_to_g1 (g1_to_str p) ≡ p
  -- Commit: (comm, open) of a message and a player's number; Open: whether it is accepted, and the
  -- message
  pub commit : Octets → ℕ → L.Seed → (Octets × Octets) × L.Seed
  pub open_commitment : Octets → Octets → ℕ → Bool × Octets
  pub open_commitment-commit :
      (message : Octets) (player : ℕ) (seed : L.Seed)
      → open_commitment (commit message player seed).0.0 (commit message player seed).0.1 player
        ≡ (true, message)

-- P.my_num(), P.num_players()
pub record Player : Type 0 where
  pub my_num : ℕ
  pub num_players : ℕ

module _ ⦃L : Mcl⦄ ⦃T : Transport⦄ where
  -- what a party sends: os_comm, os_open and aux to all others, the share of a number to this one
  pub record Sent : Type 0 where
    pub comm : T.Octets
    pub opening : T.Octets
    pub shares : List T.Octets
    pub aux : List T.Octets

  -- what a party receives of each number; of its own number nothing is read
  pub record Received : Type 0 where
    pub comms : ℕ → T.Octets
    pub openings : ℕ → T.Octets
    pub shares : ℕ → T.Octets
    pub aux : ℕ → ℕ → T.Octets

  -- the local variables shs and aux
  pub record Dealt : Type 0 where
    pub shs : List L.Fr
    pub aux : List L.G1
    pub sent : Sent

  unfoldable pub elem_at : {A : Type 0} → List A → ℕ → Result A
  elem_at xs i = elim (get_elem? xs i) [ some x ↦ ok x | none ↦ err out_of_range ]

  -- Up to the first message. The secret of `v` is set before it is read.
  unfoldable pub deal : Bls → L.Seed → Result (Dealt × L.Seed)
  deal b seed = do
    v ← new_vss fr_ring.zero b.nparty b.threshold
    let drawn = rnd_secret v seed
    let generated = gen_share drawn.0 [] [] drawn.1
    let aux = generated.0.1
    a ← elem_at aux 0
    let committed = T.commit (T.g1_to_str a) 1 generated.1
    ok (
      record {
        shs = generated.0.0;
        aux = aux;
        sent = record {
          comm = committed.0.0;
          opening = committed.0.1;
          shares = map T.fr_to_str generated.0.0;
          aux = map T.g1_to_str aux;
        };
      },
      committed.1,
    )

  -- aux_tmp[i], of the messages from k on
  unfoldable pub received_aux : (ℕ → T.Octets) → ℕ → ℕ → List L.G1
  received_aux messages k zero = []
  received_aux messages k (suc rounds) =
      T.str_to_g1 (messages k) ∷ received_aux messages (suc k) rounds

  -- res1 && res2 && res3 for the party i
  unfoldable pub accepted : ℕ → ℕ → Received → ℕ → Bool
  accepted me size r i =
      let opened = T.open_commitment (r.comms i) (r.openings i) 1 in
      let res2 = verify_share (T.str_to_fr (r.shares i)) (received_aux (r.aux i) 0 size) (me + 1) in
      let res3 = L.is_equal1 (T.str_to_g1 opened.1) (T.str_to_g1 (r.aux i 0)) in
      opened.0 && res2 && res3

  -- (sk, vk) after the rounds from i on
  unfoldable pub check_loop : ℕ → ℕ → Received → ℕ → ℕ → L.Fr × L.G1 → Result (L.Fr × L.G1)
  check_loop me size r i zero keys = ok keys
  check_loop me size r i (suc rounds) (sk, vk) =
      let others = check_loop me size r (suc i) rounds (sk, vk) in
      let next =
        check_loop me size r (suc i) rounds
          (sk ⊕ T.str_to_fr (r.shares i), vk ⊞ T.str_to_g1 (r.aux i 0)) in
      if i == me then others else if accepted me size r i then next else err invalid_commitment

  -- The whole generation, where the messages that come in may depend on those that go out.
  unfoldable pub dstb_keygen : Player → Bls → L.Seed → (Sent → Received) → Result (Bls × L.Seed)
  dstb_keygen player b seed network = do
    dealt ← deal b seed
    sk ← elem_at dealt.0.shs player.my_num
    vk ← elem_at dealt.0.aux 0
    keys ←
        check_loop player.my_num (length dealt.0.aux) (network dealt.0.sent) 0 player.num_players
          (sk, vk)
    ok (with_keys b keys.0 keys.1, dealt.1)
