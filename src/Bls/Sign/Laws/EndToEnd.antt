-- ===== src/Bls/Sign/Laws/EndToEnd.antt =====
-- Key generation and signature in sequence, of honest parties.
use proof_of_custody.Prelude.{
  ℕ, suc, ◌+◌, ◌<◌, ◌≤◌, ◌≡◌, ◌≢◌, refl, sym, ap, ◌∙◌, true, List, [], ◌∷◌, length, arith,
}
use proof_of_custody.Ring.{nat, ◌⊕◌, mul-zero, add-zero}
use proof_of_custody.Ring.Module.{◌⊡◌}
use proof_of_custody.Ring.Polynomial.{poly, poly_at_zero}
use proof_of_custody.Engine.{Engine}
use proof_of_custody.Engine.Program.{Yields, Yields-weaken, ok}
use proof_of_custody.Fallible.{ok-injective}
use proof_of_custody.OnlineOp.Products.Laws.{MasksNonzero}
use proof_of_custody.OnlineOp.Complexes.{Complex}
use proof_of_custody.Group.{Affine}
use proof_of_custody.Mcl.{Mcl, fr_ring, g1_points, g1_module, mul2, Fits}
use proof_of_custody.Lagrange.{get_lagrange_coeff}
use proof_of_custody.Bls.{Bls, sign_scale, verify, with_keys}
use proof_of_custody.Bls.Keygen.{Transport, Sent, Received, Dealt, deal, dstb_keygen}
use proof_of_custody.Bls.Keygen.Laws.{Deals}
use proof_of_custody.Bls.Keygen.Laws.Honest.{joint, length-joint, polynomial, Delivered}
use proof_of_custody.Bls.Keygen.Laws.Run.{dstb_keygen-honest}
use proof_of_custody.Bls.Sign.{dstb_sign}
use proof_of_custody.Bls.Sign.Laws.{point_of, coords, signatures, Summable}
use proof_of_custody.Bls.Sign.Laws.Combined.{dstb_sign_lem}

module _ ⦃L : Mcl⦄ where
  -- A polynomial has a first coefficient, perhaps 0.
  with_constant :
      (n : ℕ) (f : List L.Fr)
      → length f ≤ suc n
      → (c : L.Fr) × (cs : List L.Fr) × (length (c ∷ cs) ≤ suc n)
        × ((x : L.Fr) → poly f x ≡ poly (c ∷ cs) x)
  unfolding poly
  with_constant n [] h = (
    fr_ring.zero,
    [],
    omega arith,
    λ x. sym (ap (λ u. fr_ring.zero ⊕ u) (mul-zero x) ∙ add-zero _),
  )
  with_constant n (c ∷ cs) h = (c, cs, h, λ x. refl)

module _ ⦃E : Engine⦄ ⦃L : Mcl⦄ ⦃T : Transport⦄ (g2_get_str : L.G2 → Affine (Complex ℕ)) where
  -- Let n + 1 honest parties, all with the same threshold of at most n, generate a key, the messages
  -- of each arriving at all others. Then, with nonzero masks and where the points that are added are
  -- on the curve and have different x, their signing of a message ends in shares of the coordinates of
  -- one signature, which every party accepts under the key that it has generated.
  pub dstb_keygen-dstb_sign :
      MasksNonzero
      → (n t : ℕ) (b b' : ℕ → Bls) (seed s s' : ℕ → L.Seed) (network : ℕ → Sent → Received)
        (d : ℕ → Dealt) (h : (j : ℕ) → Deals (b j) (d j)) (msg : L.Message) (w : ℕ → L.Fr)
        (curve : Complex E.Clear)
      → Fits (suc n)
      → t ≤ n
      → ((j : ℕ) → (b j).nparty ≡ suc n)
      → ((j : ℕ) → (b j).threshold ≡ t)
      → ((me : ℕ) → me < suc n → deal (b me) (seed me) ≡ ok (d me, s me))
      → ((me j : ℕ)
          → me < suc n
          → j < suc n
          → j ≢ me
          → Delivered (suc t) me (d j).sent (network me (d me).sent) j)
      → ((me : ℕ)
          → me < suc n
          → dstb_keygen (record { my_num = me; num_players = suc n }) (b me) (seed me) (network me)
            ≡ ok (b' me, s' me))
      → ((j : ℕ) → j < suc n → get_lagrange_coeff (suc n) (j + 1) ≡ ok (w j))
      → Summable g2_get_str curve
          (sign_scale (b' 0) (w 0) msg).sigma
          (signatures (λ j. (sign_scale (b' j) (w j) msg).sigma) 1 n)
      → Yields (dstb_sign g2_get_str (suc n) b' msg) (λ r.
        (sigma : L.G2) × (point_of r ≡ coords g2_get_str sigma)
        × ((j : ℕ) → j < suc n → verify (b' j) sigma msg ≡ true))
  dstb_keygen-dstb_sign masks n t b b' seed s s' network d h msg w curve fits ht hn hth hd del run
        hw hs =
      let f : ℕ → List L.Fr = λ j. polynomial (b j) (d j) (h j) in
      let total = joint f 0 (suc n) in
      let size : length total ≤ suc n =
        length-joint f 0 (suc n) (suc n)
          (λ j. let e = (h j).degree in let e' = hth j in omega arith) in
      let (c, cs, hc, same) = with_constant n total size in
      let keys : (me : ℕ)
          → me < suc n
          → (b' me, s' me) ≡ (
            with_keys (b me) (poly total (nat (me + 1))) (L.base_point ⊡ poly total fr_ring.zero),
            s me,
          ) =
        λ me hm. ok-injective (
          sym (run me hm)
          ∙ dstb_keygen-honest (suc n) t me b (seed me) (s me) (network me) d h hn hth hm
              fits.in_int (hd me hm) (λ j hj hne. del me j hm hj hne)) in
      Yields-weaken
        (dstb_sign_lem g2_get_str masks n b' msg c cs w curve fits hc
          (λ j hj. ap (λ p. p.0.sk) (keys j hj) ∙ same (nat (j + 1)))
          (λ j hj.
            ap (λ p. p.0.vk) (keys j hj)
            ∙ ap (λ x. L.base_point ⊡ x) (same fr_ring.zero ∙ poly_at_zero c cs))
          hw hs)
        (λ r (e, v). (mul2 (L.hash_and_map_to msg) c, e, v))
