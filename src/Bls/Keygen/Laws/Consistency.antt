-- ===== src/Bls/Keygen/Laws/Consistency.antt =====
-- The keys of a party that finishes belong to the polynomials that the others have sent it, and a
-- message that does not pass the tests ends the generation with an exception.
use proof_of_custody.Prelude.{
  ℕ, zero, suc, ◌+◌, ◌<◌, ◌≤◌, ◌≡◌, ◌≢◌, refl, sym, ap, ap₂, ◌∙◌, Bool, true, false, ◌&&◌,
  Bool-cases, inl, inr, ◌⊎◌, List, ◌∷◌, length, length-map, ◌==◌, if◌then◌else◌, arith,
}
use proof_of_custody.Ring.{nat}
use proof_of_custody.Ring.Module.{◌⊞◌, ◌⊡◌, add-zero}
use proof_of_custody.Ring.Polynomial.{poly_in, poly_in-map}
use proof_of_custody.Engine.Program.{ok, err, invalid_commitment}
use proof_of_custody.Fallible.{ok-injective, err-not-ok}
use proof_of_custody.Mcl.{Mcl, fr_ring, g1_points, g1_module, int_limit}
use proof_of_custody.Bls.{Bls}
use proof_of_custody.Bls.Keygen.{
  Transport, Player, Sent, Received, Dealt, deal, received_aux, accepted, dstb_keygen,
}
use proof_of_custody.Bls.Keygen.Laws.{
  add_others, all_accepted, all_accepted-skip, all_accepted-take, aux_of, key_of, shares-consistent,
  share_of, accepted-share, accepted-key, accepted-opening, Deals, own_share, own_key, final_keys,
  dstb_keygen_lem,
}

module _ ⦃L : Mcl⦄ ⦃T : Transport⦄ where
  -- The sum of the public polynomials that a party has, at x.
  unfoldable pub joint_public : ℕ → ℕ → ℕ → Received → List L.G1 → L.Fr → L.G1
  joint_public me n size r aux x =
      add_others ◌⊞◌ me (λ j. poly_in (aux_of size r j) x) 0 n (poly_in aux x)

  poly_in-zero : (p : L.G1) (ps : List L.G1) → poly_in {R = L.Fr} (p ∷ ps) fr_ring.zero ≡ p
  unfolding poly_in
  poly_in-zero p ps = ap (λ q. p ⊞ q) (g1_module.scale-zero _) ∙ add-zero p

  keys_at_zero :
      (me size : ℕ) (r : Received) (i n : ℕ) (p : L.G1)
      → add_others ◌⊞◌ me (key_of r) i n p
        ≡ add_others ◌⊞◌ me (λ j. poly_in {R = L.Fr} (aux_of (suc size) r j) fr_ring.zero) i n p
  unfolding add_others received_aux
  keys_at_zero me size r i zero p = refl
  keys_at_zero me size r i (suc n) p =
      ap₂ (λ a b. if i == me then a else b) (keys_at_zero me size r (suc i) n p)
        (ap (λ q. add_others ◌⊞◌ me (key_of r) (suc i) n (p ⊞ q))
            (sym (poly_in-zero (key_of r i) _))
          ∙ keys_at_zero me size r (suc i) n _)

  pub length-aux : (b : Bls) (d : Dealt) → Deals b d → length d.aux ≡ suc b.threshold
  length-aux b d h =
      ap length h.aux_lem
      ∙ length-map (λ c. L.base_point ⊡ c) (h.constant ∷ h.coefficients)
      ∙ ap suc h.degree

  -- Whatever the others send, a party that finishes has accepted all of it, its secret key is in the
  -- exponent the value at its number of the sum of all public polynomials that it has, and its
  -- verification key is the value of the sum at 0.
  pub dstb_keygen-consistent :
      (player : Player) (b b' : Bls) (seed s s' : L.Seed) (network : Sent → Received) (d : Dealt)
      → Deals b d
      → deal b seed ≡ ok (d, s)
      → player.my_num < b.nparty
      → player.my_num + 1 < int_limit
      → dstb_keygen player b seed network ≡ ok (b', s')
      → (all_accepted player.my_num (length d.aux) (network d.sent) 0 player.num_players ≡ true)
        × (L.base_point ⊡ b'.sk
            ≡ joint_public player.my_num player.num_players
                (length d.aux)
                (network d.sent)
                d.aux
                (nat (player.my_num + 1)))
        × (b'.vk
            ≡ joint_public player.my_num player.num_players
                (length d.aux)
                (network d.sent)
                d.aux
                fr_ring.zero)
  unfolding joint_public
  dstb_keygen-consistent player b b' seed s s' network d h e hm hl run =
      let me = player.my_num in
      let n = player.num_players in
      let r = network d.sent in
      let all = all_accepted me (length d.aux) r 0 n in
      let outcome : (if all then ok (final_keys player b d h r s) else err invalid_commitment)
          ≡ ok (b', s') =
        sym (dstb_keygen_lem player b seed s network d h e hm) ∙ run in
      let size = length-aux b d h in
      elim (Bool-cases all) [
        | inl a ↦
            let p = ok-injective (
              sym
                (ap (λ t. if t then ok (final_keys player b d h r s) else err invalid_commitment) a)
              ∙ outcome) in
            (
              a,
              sym (ap (λ q. L.base_point ⊡ q.0.sk) p)
                  ∙ rw (size) (
                      shares-consistent me b.threshold r 0 n (own_share b d h me) _ hl
                        (ap (λ k. all_accepted me k r 0 n) (sym size) ∙ a)
                        (sym (
                          ap (λ l. poly_in {R = L.Fr} l (nat (me + 1))) h.aux_lem
                          ∙ poly_in-map L.base_point (h.constant ∷ h.coefficients)
                              (nat (me + 1))))),
              sym (ap (λ q. q.0.vk) p)
                  ∙ keys_at_zero me b.threshold r 0 n (own_key b d h)
                  ∙ ap₂
                      (λ k q.
                        add_others ◌⊞◌ me (λ j. poly_in {R = L.Fr} (aux_of k r j) fr_ring.zero) 0 n
                          q)
                      (sym size)
                      (sym
                        (ap (λ l. poly_in {R = L.Fr} l fr_ring.zero) h.aux_lem ∙ poly_in-zero _ _)),
            )
        | inr a ↦ err-not-ok (
            sym (ap (λ t. if t then ok (final_keys player b d h r s) else err invalid_commitment) a)
            ∙ outcome)
      ]

  and_false : (a : Bool) → (a && false) ≡ false
  and_false true = refl
  and_false false = refl

  refused_from :
      (me size : ℕ) (r : Received) (i n j : ℕ)
      → i ≤ j
      → j < i + n
      → j ≢ me
      → accepted me size r j ≡ false
      → all_accepted me size r i n ≡ false
  refused_from me size r i zero j h h' hj e = absurd (omega arith)
  refused_from me size r i (suc n) j h h' hj e = elim (Bool-cases (i == me)) [
    | inl k ↦
        all_accepted-skip me size r i n k
        ∙ refused_from me size r (suc i) n j (ground arith) (omega arith) hj e
    | inr k ↦ all_accepted-take me size r i n k ∙ elim (Bool-cases (i == j)) [
      | inl q ↦
          let same : j ≡ i = ground arith in
          ap (λ v. v && all_accepted me size r (suc i) n) (ap (accepted me size r) (sym same) ∙ e)
      | inr q ↦
          ap (λ v. accepted me size r i && v)
            (refused_from me size r (suc i) n j (ground arith) (omega arith) hj e)
          ∙ and_false _
    ]
  ]

  -- The opening is refused, or the share is not, in the exponent, the value of the public polynomial at
  -- the number of the party that receives it, or what is opened is not the constant coefficient.
  unfoldable pub Misfits : ℕ → ℕ → Received → ℕ → Type 0
  Misfits me size r j =
      let opened = T.open_commitment (r.comms j) (r.openings j) 1 in
      (opened.0 ≡ false)
      ⊎ (L.base_point ⊡ share_of r j ≢ poly_in {R = L.Fr} (aux_of size r j) (nat (me + 1)))
      ⊎ (T.str_to_g1 opened.1 ≢ key_of r j)

  accepted-Misfits :
      (me size : ℕ) (r : Received) (j : ℕ)
      → me + 1 < int_limit
      → Misfits me (suc size) r j
      → accepted me (suc size) r j ≡ false
  unfolding Misfits accepted
  accepted-Misfits me size r j hm h = elim (Bool-cases (accepted me (suc size) r j)) [
    | inr refused ↦ refused
    | inl passed ↦ elim h [
      | inl opening ↦ let passes = accepted-opening me size r j passed in absurd cc
      | inr (inl share) ↦ absurd (share (accepted-share me size r j hm passed))
      | inr (inr key) ↦ absurd (key (accepted-key me size r j passed))
    ]
  ]

  -- A party j whose commitment does not open, whose share is not in the exponent the value of its public
  -- polynomial at the receiver's number, or whose opened key is not the constant coefficient of the
  -- polynomial, ends the generation with the exception invalid_commitment, where the receiver's
  -- number is within the range of an int.
  pub dstb_keygen-refuses :
      (player : Player) (b : Bls) (seed s : L.Seed) (network : Sent → Received) (d : Dealt) (j : ℕ)
      → Deals b d
      → deal b seed ≡ ok (d, s)
      → player.my_num < b.nparty
      → player.my_num + 1 < int_limit
      → j < player.num_players
      → j ≢ player.my_num
      → Misfits player.my_num (suc b.threshold) (network d.sent) j
      → dstb_keygen player b seed network ≡ err invalid_commitment
  dstb_keygen-refuses player b seed s network d j h e hm hl hj hne ha =
      let me = player.my_num in
      let n = player.num_players in
      let r = network d.sent in
      let refused = accepted-Misfits me b.threshold r j hl ha in
      let size = length-aux b d h in
      dstb_keygen_lem player b seed s network d h e hm
      ∙ rw (size, refused_from me (suc b.threshold) r 0 n j (omega arith) (omega arith) hne refused)
          refl
