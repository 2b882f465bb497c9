-- ===== src/Bls/Keygen/Laws/Honest.antt =====
-- An honest run: every party ends with its share of one joint polynomial, and all with the same
-- verification key.
use proof_of_custody.Prelude.{
  ℕ, zero, suc, ◌+◌, ◌<◌, ◌≤◌, ◌≡◌, refl, sym, ap, ap₂, ◌∙◌, Bool, true, false, ◌&&◌, Bool-cases,
  inl, inr, some, List, [], ◌∷◌, map, length, get_elem?, length-map, ◌==◌, arith,
}
use proof_of_custody.Ring.{◌⊕◌, nat, add-zero, add_cancel, add_left_comm}
use proof_of_custody.Ring.Module.{◌⊡◌}
use proof_of_custody.Ring.Polynomial.{poly, poly_in-map, add_poly, poly-add_poly, length-add_poly}
use proof_of_custody.Mcl.{Mcl, fr_ring, g1_points, g1_module, int_limit}
use proof_of_custody.Vss.{verify_share}
use proof_of_custody.Vss.Laws.{verify_share_iff, get_elem?-points}
use proof_of_custody.Bls.{Bls}
use proof_of_custody.Bls.Keygen.{Transport, Sent, Received, Dealt, received_aux, accepted}
use proof_of_custody.Bls.Keygen.Laws.{add_others, share_of, aux_of, key_of, Deals}

module _ ⦃L : Mcl⦄ where
  -- f i + f (i + 1) + .., n terms
  unfoldable pub total : (ℕ → L.Fr) → ℕ → ℕ → L.Fr
  total f i zero = fr_ring.zero
  total f i (suc n) = f i ⊕ total f (suc i) n

  -- The sum of the polynomials of the parties.
  unfoldable pub joint : (ℕ → List L.Fr) → ℕ → ℕ → List L.Fr
  joint f i zero = []
  joint f i (suc n) = add_poly (f i) (joint f (suc i) n)

  pub poly-joint :
      (f : ℕ → List L.Fr) (i n : ℕ) (x : L.Fr)
      → poly (joint f i n) x ≡ total (λ j. poly (f j) x) i n
  unfolding joint total poly
  poly-joint f i zero x = refl
  poly-joint f i (suc n) x =
      poly-add_poly (f i) (joint f (suc i) n) x
      ∙ ap (λ u. poly (f i) x ⊕ u) (poly-joint f (suc i) n x)

  pub length-joint :
      (f : ℕ → List L.Fr) (i n t : ℕ) → ((j : ℕ) → length (f j) ≤ t) → length (joint f i n) ≤ t
  unfolding joint
  length-joint f i zero t h = omega arith
  length-joint f i (suc n) t h =
      length-add_poly t (f i) (joint f (suc i) n) (h i) (length-joint f (suc i) n t h)

  -- Adding the others one after the other, when all are to be added.
  add_others-passed :
      (me : ℕ) (f : ℕ → L.Fr) (i n : ℕ) (a : L.Fr)
      → me < i
      → add_others ◌⊕◌ me f i n a ≡ a ⊕ total f i n
  unfolding add_others total
  add_others-passed me f i zero a h = sym (add-zero a)
  add_others-passed me f i (suc n) a h =
      let e : (i == me) ≡ false = ground arith in
      rw (e) (add_others-passed me f (suc i) n (a ⊕ f i) (omega arith) ∙ fr_ring.add_assoc _ _ _)

  add_others-own :
      (me : ℕ) (f : ℕ → L.Fr) (i n : ℕ) (a : L.Fr)
      → i ≤ me
      → me < i + n
      → f me ⊕ add_others ◌⊕◌ me f i n a ≡ a ⊕ total f i n
  unfolding add_others total
  add_others-own me f i zero a h h' = absurd (omega arith)
  add_others-own me f i (suc n) a h h' = elim (Bool-cases (i == me)) [
    | inl e ↦
        let same : me ≡ i = ground arith in
        rw (e) (
          ap₂ (λ u v. u ⊕ v) (ap f same) (add_others-passed me f (suc i) n a (omega arith))
          ∙ add_left_comm (f i) a _)
    | inr e ↦ rw (e) (
        add_others-own me f (suc i) n (a ⊕ f i) (ground arith) (omega arith)
        ∙ fr_ring.add_assoc _ _ _)
  ]

  -- A party that starts from its own value ends with the sum of all.
  pub add_others-total :
      (me : ℕ) (f : ℕ → L.Fr) (n : ℕ) → me < n → add_others ◌⊕◌ me f 0 n (f me) ≡ total f 0 n
  add_others-total me f n h =
      add_cancel (f me) _ _ (add_others-own me f 0 n (f me) (omega arith) (omega arith))

  get_elem?-map :
      {A B : Type 0} (f : A → B) (xs : List A) (i : ℕ) (x : A)
      → get_elem? xs i ≡ some x
      → get_elem? (map f xs) i ≡ some (f x)
  get_elem?-map f [] i x h = absurd cc
  get_elem?-map f (y ∷ xs) zero x h = cc
  get_elem?-map f (y ∷ xs) (suc i) x h = get_elem?-map f xs i x h

module _ ⦃L : Mcl⦄ ⦃T : Transport⦄ where
  -- What j has sent is what is received of j.
  pub record Delivered (size me : ℕ) (sent : Sent) (r : Received) (j : ℕ) : Type 0 where
    pub same_comm : r.comms j ≡ sent.comm
    pub same_opening : r.openings j ≡ sent.opening
    pub same_share : get_elem? sent.shares me ≡ some (r.shares j)
    pub same_aux : (k : ℕ) → k < size → get_elem? sent.aux k ≡ some (r.aux j k)

  -- The polynomial that a party has dealt.
  abbrev pub polynomial : (b : Bls) (d : Dealt) → Deals b d → List L.Fr
  polynomial b d h = h.constant ∷ h.coefficients

  received_all :
      (ps : List L.G1) (m : ℕ → T.Octets) (k : ℕ)
      → ((i : ℕ) → i < length ps → get_elem? (map T.g1_to_str ps) i ≡ some (m (k + i)))
      → received_aux m k (length ps) ≡ ps
  unfolding received_aux
  received_all [] m k h = refl
  received_all (p ∷ ps) m k h =
      let here : k + 0 ≡ k = omega arith in
      let sent : some (T.g1_to_str p) ≡ some (m (k + 0)) = h 0 (omega arith) in
      let same : m (k + 0) ≡ T.g1_to_str p = cc in
      ap₂ (λ q l. q ∷ l)
        (ap (λ i. T.str_to_g1 (m i)) (sym here) ∙ ap T.str_to_g1 same ∙ T.str_to_g1-g1_to_str p)
        (received_all ps m (suc k) (λ i hi.
          let next : k + suc i ≡ suc k + i = omega arith in
          h (suc i) (omega arith) ∙ ap (λ j. some (m j)) next))

  and_true : (a b c : Bool) → a ≡ true → b ≡ true → c ≡ true → (a && b && c) ≡ true
  and_true a b c ha hb hc = rw (ha, hb, hc) refl

  some-injective : {A : Type 0} {a b : A} → some a ≡ some b → a ≡ b
  some-injective h = cc

  pub share-honest :
      (size me : ℕ) (b : Bls) (d : Dealt) (h : Deals b d) (r : Received) (j : ℕ)
      → me < b.nparty
      → Delivered size me d.sent r j
      → share_of r j ≡ poly (polynomial b d h) (nat (me + 1))
  share-honest size me b d h r j hm del =
      let order : 1 + me ≡ me + 1 = omega arith in
      let value = get_elem?-map T.fr_to_str d.shs me _ (
        ap (λ l. get_elem? l me) h.shs_lem
        ∙ get_elem?-points (poly (polynomial b d h)) 1 b.nparty me hm
        ∙ ap (λ m. some (poly (polynomial b d h) (nat m))) order) in
      ap T.str_to_fr
        (some-injective (sym del.same_share ∙ ap (λ l. get_elem? l me) h.sent_shares ∙ value))
      ∙ T.str_to_fr-fr_to_str _

  sent_points :
      (b : Bls) (d : Dealt) (h : Deals b d)
      → d.sent.aux ≡ map T.g1_to_str (map (λ c. L.base_point ⊡ c) (polynomial b d h))
  sent_points b d h = h.sent_aux ∙ ap (map T.g1_to_str) h.aux_lem

  pub key-honest :
      (size me : ℕ) (b : Bls) (d : Dealt) (h : Deals b d) (r : Received) (j : ℕ)
      → Delivered (suc size) me d.sent r j
      → key_of r j ≡ L.base_point ⊡ h.constant
  key-honest size me b d h r j del =
      ap T.str_to_g1 (
        some-injective
          (sym (del.same_aux 0 (omega arith)) ∙ ap (λ l. get_elem? l 0) (sent_points b d h)))
      ∙ T.str_to_g1-g1_to_str _

  aux-honest :
      (me : ℕ) (b : Bls) (d : Dealt) (h : Deals b d) (r : Received) (j : ℕ)
      → Delivered (suc b.threshold) me d.sent r j
      → aux_of (suc b.threshold) r j ≡ map (λ c. L.base_point ⊡ c) (polynomial b d h)
  aux-honest me b d h r j del =
      let ps = map (λ c. L.base_point ⊡ c) (polynomial b d h) in
      let size : length ps ≡ suc b.threshold =
        length-map (λ c. L.base_point ⊡ c) (polynomial b d h) ∙ ap suc h.degree in
      ap (received_aux (r.aux j) 0) (sym size)
      ∙ received_all ps (r.aux j) 0 (λ i hi.
        let e : i ≡ 0 + i = omega arith in
        ap (λ l. get_elem? l i) (sym (sent_points b d h))
        ∙ del.same_aux i (omega arith)
        ∙ ap (λ k. some (r.aux j k)) e)

  -- What an honest party sends passes the three tests.
  pub accepted-honest :
      (me : ℕ) (b : Bls) (d : Dealt) (h : Deals b d) (r : Received) (j : ℕ)
      → me < b.nparty
      → me + 1 < int_limit
      → Delivered (suc b.threshold) me d.sent r j
      → accepted me (suc b.threshold) r j ≡ true
  unfolding accepted
  accepted-honest me b d h r j hm hl del =
      let opened = ap₂ (λ c o. T.open_commitment c o 1) del.same_comm del.same_opening ∙ h.opened in
      and_true _ _ _ (ap (λ o. o.0) opened)
        (ap₂ (λ s a. verify_share s a (me + 1)) (share-honest (suc b.threshold) me b d h r j hm del)
            (aux-honest me b d h r j del)
          ∙ (verify_share_iff _ (L.base_point ⊡ h.constant)
                (map (λ c. L.base_point ⊡ c) h.coefficients) (me + 1) hl).1
              (sym (poly_in-map L.base_point (polynomial b d h) (nat (me + 1)))))
        ((L.is_equal1_iff _ _).1 (
          ap (λ o. T.str_to_g1 o.1) opened
          ∙ T.str_to_g1-g1_to_str _
          ∙ sym (key-honest b.threshold me b d h r j del)))
