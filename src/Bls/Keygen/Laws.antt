-- ===== src/Bls/Keygen/Laws.antt =====
-- What a party that finishes the key generation has checked, and what its keys are then.
pub mod Consistency
pub mod Honest
pub mod Run
use proof_of_custody.Prelude.{
  ℕ, zero, suc, ◌+◌, ◌<◌, ◌≤◌, ◌≡◌, ◌≢◌, refl, sym, ap, ap₂, ◌∙◌, Bool, true, false, ◌&&◌,
  Bool-cases, inl, inr, some, List, [], ◌∷◌, map, length, get_elem?, length-map, ltb, ◌==◌,
  if◌then◌else◌, arith,
}
use proof_of_custody.Ring.{◌⊕◌, nat}
use proof_of_custody.Ring.Module.{◌⊞◌, ◌⊡◌}
use proof_of_custody.Ring.Polynomial.{poly, poly_in}
use proof_of_custody.Engine.Program.{Result, ok, err, invalid_commitment, invalid_setting}
use proof_of_custody.Fallible.{◌>>=◌, ok-bind, err-bind, ok-injective, bind-ok}
use proof_of_custody.Mcl.{Mcl, fr_ring, g1_points, g1_module, int_limit}
use proof_of_custody.Vss.{Vss, new_vss, rnd_secret, gen_share, verify_share}
use proof_of_custody.Vss.Laws.{
  get_elem?-points, verify_share_iff, gen_share_lem, dealt, drawn_coeffs, length-drawn_coeffs,
}
use proof_of_custody.Lagrange.Laws.{points}
use proof_of_custody.Bls.{Bls, with_keys}
use proof_of_custody.Bls.Keygen.{
  Transport, Player, Sent, Received, Dealt, elem_at, deal, received_aux, accepted, check_loop,
  dstb_keygen,
}

-- The sum of the values of the others from i on, added to a value one after the other.
unfoldable pub add_others {ℓ} : {A : Type ℓ} → (A → A → A) → ℕ → (ℕ → A) → ℕ → ℕ → A → A
add_others op me f i zero acc = acc
add_others op me f i (suc rounds) acc =
    let rest = add_others op me f (suc i) rounds in
    if i == me then rest acc else rest (op acc (f i))

module _ ⦃L : Mcl⦄ ⦃T : Transport⦄ where
  -- Everything that is received from the others passes the three tests.
  unfoldable pub all_accepted : ℕ → ℕ → Received → ℕ → ℕ → Bool
  all_accepted me size r i zero = true
  all_accepted me size r i (suc rounds) =
      let rest = all_accepted me size r (suc i) rounds in
      if i == me then rest else (accepted me size r i && rest)

  abbrev pub share_of : Received → ℕ → L.Fr
  share_of r j = T.str_to_fr (r.shares j)

  -- The public polynomial of a party, and its constant coefficient.
  abbrev pub aux_of : ℕ → Received → ℕ → List L.G1
  aux_of size r j = received_aux (r.aux j) 0 size

  abbrev pub key_of : Received → ℕ → L.G1
  key_of r j = T.str_to_g1 (r.aux j 0)

  -- The loop adds up the shares and the public keys of the others, or it throws.
  check_loop_lem :
      (me size : ℕ) (r : Received) (i n : ℕ) (sk : L.Fr) (vk : L.G1)
      → check_loop me size r i n (sk, vk) ≡ (
          if all_accepted me size r i n
          then ok (add_others ◌⊕◌ me (share_of r) i n sk, add_others ◌⊞◌ me (key_of r) i n vk)
          else err invalid_commitment)
  unfolding check_loop all_accepted add_others
  check_loop_lem me size r i zero sk vk = refl
  check_loop_lem me size r i (suc n) sk vk =
      let skip = check_loop_lem me size r (suc i) n sk vk in
      let take' = check_loop_lem me size r (suc i) n (sk ⊕ share_of r i) (vk ⊞ key_of r i) in
      elim (Bool-cases (i == me)) [
        | inl e ↦ rw (e) skip
        | inr e ↦ elim (Bool-cases (accepted me size r i)) [
          | inl a ↦ rw (e, a) take'
          | inr a ↦ rw (e, a) refl
        ]
      ]

  and_left : (a b : Bool) → (a && b) ≡ true → a ≡ true
  and_left true b h = refl
  and_left false b h = absurd cc

  and_right : (a b : Bool) → (a && b) ≡ true → b ≡ true
  and_right true b h = h
  and_right false b h = absurd cc

  pub all_accepted-skip :
      (me size : ℕ) (r : Received) (i n : ℕ)
      → (i == me) ≡ true
      → all_accepted me size r i (suc n) ≡ all_accepted me size r (suc i) n
  unfolding all_accepted
  all_accepted-skip me size r i n e = rw (e) refl

  pub all_accepted-take :
      (me size : ℕ) (r : Received) (i n : ℕ)
      → (i == me) ≡ false
      → all_accepted me size r i (suc n)
        ≡ (accepted me size r i && all_accepted me size r (suc i) n)
  unfolding all_accepted
  all_accepted-take me size r i n e = rw (e) refl

  -- What the tests of one party say of its commitment, its key and its share.
  pub accepted-opening :
      (me size : ℕ) (r : Received) (j : ℕ)
      → accepted me (suc size) r j ≡ true
      → (T.open_commitment (r.comms j) (r.openings j) 1).0 ≡ true
  unfolding accepted
  accepted-opening me size r j h = and_left _ _ (and_left _ _ h)

  pub accepted-key :
      (me size : ℕ) (r : Received) (j : ℕ)
      → accepted me (suc size) r j ≡ true
      → T.str_to_g1 (T.open_commitment (r.comms j) (r.openings j) 1).1 ≡ key_of r j
  unfolding accepted
  accepted-key me size r j h = (L.is_equal1_iff _ _).0 (and_right _ _ h)

  pub accepted-share :
      (me size : ℕ) (r : Received) (j : ℕ)
      → me + 1 < int_limit
      → accepted me (suc size) r j ≡ true
      → L.base_point ⊡ share_of r j ≡ poly_in {R = L.Fr} (aux_of (suc size) r j) (nat (me + 1))
  unfolding accepted received_aux
  accepted-share me size r j hm h =
      (verify_share_iff (share_of r j) (key_of r j) (received_aux (r.aux j) 1 size) (me + 1) hm).0
        (and_right _ _ (and_left _ _ h))

  -- The sums keep the relation of a share to a public polynomial.
  pub shares-consistent :
      (me size : ℕ) (r : Received) (i n : ℕ) (sk : L.Fr) (p : L.G1)
      → me + 1 < int_limit
      → all_accepted me (suc size) r i n ≡ true
      → L.base_point ⊡ sk ≡ p
      → L.base_point ⊡ add_others ◌⊕◌ me (share_of r) i n sk
        ≡ add_others ◌⊞◌ me (λ j. poly_in {R = L.Fr} (aux_of (suc size) r j) (nat (me + 1))) i n p
  unfolding all_accepted add_others
  shares-consistent me size r i zero sk p hm h e = e
  shares-consistent me size r i (suc n) sk p hm h e = elim (Bool-cases (i == me)) [
    | inl k ↦ rw (k) (
        shares-consistent me size r (suc i) n sk p hm
          (sym (all_accepted-skip me (suc size) r i n k) ∙ h) e)
    | inr k ↦
        let both = sym (all_accepted-take me (suc size) r i n k) ∙ h in
        rw (k) (
          shares-consistent me size r (suc i) n (sk ⊕ share_of r i) _ hm (and_right _ _ both) (
            g1_module.scale-add L.base_point sk (share_of r i)
            ∙ ap₂ (λ a b. a ⊞ b) e (accepted-share me size r i hm (and_left _ _ both))))
  ]

  -- What a party deals: shares of a polynomial, the polynomial in the exponent, and a commitment to
  -- the first coefficient.
  pub record Deals (b : Bls) (d : Dealt) : Type 0 where
    pub constant : L.Fr
    pub coefficients : List L.Fr
    pub degree : length coefficients ≡ b.threshold
    pub shs_lem : d.shs ≡ map (poly (constant ∷ coefficients)) (points 1 b.nparty)
    pub aux_lem : d.aux ≡ map (λ c. L.base_point ⊡ c) (constant ∷ coefficients)
    pub opened :
        T.open_commitment d.sent.comm d.sent.opening 1
        ≡ (true, T.g1_to_str (L.base_point ⊡ constant))
    pub sent_shares : d.sent.shares ≡ map T.fr_to_str d.shs
    pub sent_aux : d.sent.aux ≡ map T.g1_to_str d.aux

  -- The result of the local steps, by the setting that passes the constructor.
  pub deal-Deals :
      (b : Bls) (seed : L.Seed)
      → b.nparty < int_limit
      → b.threshold ≤ b.nparty
      → (d : Dealt) × (s : L.Seed) × (deal b seed ≡ ok (d, s)) × Deals b d
  unfolding deal new_vss rnd_secret elem_at
  deal-Deals b seed h ht =
      let low : ltb b.nparty b.threshold ≡ false = ground arith in
      let c = (L.set_by_csprng seed).0.0 in
      let v : Vss = record { s = c; nparty = b.nparty; threshold = b.threshold } in
      let gs = gen_share v [] [] (L.set_by_csprng seed).1 in
      let g = gen_share_lem v (L.set_by_csprng seed).1 h in
      let a : L.G1 = L.base_point ⊡ c in
      let committed = T.commit (T.g1_to_str a) 1 gs.1 in
      (
        record {
          shs = gs.0.0;
          aux = gs.0.1;
          sent = record {
            comm = committed.0.0;
            opening = committed.0.1;
            shares = map T.fr_to_str gs.0.0;
            aux = map T.g1_to_str gs.0.1;
          };
        },
        committed.1,
        ok-bind {a = record { s = fr_ring.zero; nparty = b.nparty; threshold = b.threshold }} _
            (rw (low) refl) (ok-bind {a = a} _ (ap (λ p. elem_at p.1 0) g) refl),
        record {
          constant = c;
          coefficients = drawn_coeffs b.threshold (L.set_by_csprng seed).1;
          degree = length-drawn_coeffs b.threshold (L.set_by_csprng seed).1;
          shs_lem = ap (λ p. p.0) g;
          aux_lem = ap (λ p. p.1) g;
          opened = T.open_commitment-commit (T.g1_to_str a) 1 gs.1;
          sent_shares = refl;
          sent_aux = refl;
        },
      )

  -- A threshold above the number of parties is an exception.
  pub deal-refuses :
      (b : Bls) (seed : L.Seed) → b.nparty < b.threshold → deal b seed ≡ err invalid_setting
  unfolding deal new_vss
  deal-refuses b seed h =
      let high : ltb b.nparty b.threshold ≡ true = ground arith in err-bind _ (rw (high) refl)

  elem_at-some :
      {A : Type 0} (xs : List A) (i : ℕ) (x : A) → get_elem? xs i ≡ some x → elem_at xs i ≡ ok x
  unfolding elem_at
  elem_at-some xs i x h = rw (h, elem_at) refl

  -- The secret that a party starts from, and the keys that it ends with.
  abbrev pub own_share : (b : Bls) (d : Dealt) → Deals b d → ℕ → L.Fr
  own_share b d h me = poly (h.constant ∷ h.coefficients) (nat (me + 1))

  abbrev pub own_key : (b : Bls) (d : Dealt) → Deals b d → L.G1
  own_key b d h = L.base_point ⊡ h.constant

  abbrev pub final_keys :
      (player : Player) (b : Bls) (d : Dealt) → Deals b d → Received → L.Seed → Bls × L.Seed
  final_keys player b d h r s = (
    with_keys b
        (add_others ◌⊕◌ player.my_num (share_of r) 0 player.num_players
          (own_share b d h player.my_num))
        (add_others ◌⊞◌ player.my_num (key_of r) 0 player.num_players (own_key b d h)),
    s,
  )

  -- The whole generation: it ends with the sums, or it throws.
  pub dstb_keygen_lem :
      (player : Player) (b : Bls) (seed s : L.Seed) (network : Sent → Received) (d : Dealt)
      (h : Deals b d)
      → deal b seed ≡ ok (d, s)
      → player.my_num < b.nparty
      → dstb_keygen player b seed network ≡ (
          if all_accepted player.my_num (length d.aux) (network d.sent) 0 player.num_players
          then ok (final_keys player b d h (network d.sent) s)
          else err invalid_commitment)
  unfolding dstb_keygen
  dstb_keygen_lem player b seed s network d h e hm =
      let me = player.my_num in
      let order : 1 + me ≡ me + 1 = omega arith in
      bind-ok _ e
      ∙ bind-ok _ (
          elem_at-some d.shs me (own_share b d h me) (
            ap (λ l. get_elem? l me) h.shs_lem
            ∙ get_elem?-points (poly (h.constant ∷ h.coefficients)) 1 b.nparty me hm
            ∙ ap (λ m. some (poly (h.constant ∷ h.coefficients) (nat m))) order))
      ∙ bind-ok _ (elem_at-some d.aux 0 (own_key b d h) (ap (λ l. get_elem? l 0) h.aux_lem))
      ∙ ap (λ m. m >>= λ keys. ok (finished keys))
          (check_loop_lem me (length d.aux) (network d.sent) 0 player.num_players
            (own_share b d h me) (own_key b d h))
      ∙ push (all_accepted me (length d.aux) (network d.sent) 0 player.num_players) _
    where
      finished : L.Fr × L.G1 → Bls × L.Seed
      finished keys = (with_keys b keys.0 keys.1, s)

      push :
          (t : Bool) (keys : L.Fr × L.G1)
          → ((if t then ok keys else err invalid_commitment) >>= (λ k. ok (finished k)))
            ≡ (if t then ok (finished keys) else err invalid_commitment)
      push true keys = bind-ok _ refl
      push false keys = err-bind _ refl
