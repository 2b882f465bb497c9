-- ===== src/Bls/Keygen/Laws/Run.antt =====
-- The keys of every party after an honest run, where the messages of all arrive.
use proof_of_custody.Prelude.{
  ℕ, zero, suc, ◌+◌, ◌<◌, ◌≡◌, ◌≢◌, fun_ext, refl, sym, ap, ap₂, ◌∙◌, true, false, Bool-cases, inl,
  inr, List, length, ◌==◌, arith,
}
use proof_of_custody.Ring.{◌⊕◌, nat}
use proof_of_custody.Ring.Module.{◌⊞◌, ◌⊡◌}
use proof_of_custody.Ring.Polynomial.{poly, poly_at_zero}
use proof_of_custody.Engine.Program.{ok}
use proof_of_custody.Mcl.{Mcl, fr_ring, g1_points, g1_module, int_limit}
use proof_of_custody.Bls.{Bls, with_keys}
use proof_of_custody.Bls.Keygen.{
  Transport, Player, Sent, Received, Dealt, deal, accepted, dstb_keygen,
}
use proof_of_custody.Bls.Keygen.Laws.{
  add_others, all_accepted, share_of, key_of, Deals, dstb_keygen_lem,
}
use proof_of_custody.Bls.Keygen.Laws.Consistency.{length-aux}
use proof_of_custody.Bls.Keygen.Laws.Honest.{
  total, joint, poly-joint, add_others-total, Delivered, polynomial, accepted-honest, share-honest,
  key-honest,
}

differs : (i me : ℕ) → (i == me) ≡ false → i ≢ me
differs i me e k = ground arith

module _ {A : Type 0} (op : A → A → A) (me : ℕ) (f g : ℕ → A) where
  -- Only the values of the others are read.
  add_others-cong :
      (i n : ℕ) (a : A)
      → ((j : ℕ) → j < i + n → j ≢ me → f j ≡ g j)
      → add_others op me f i n a ≡ add_others op me g i n a
  unfolding add_others
  add_others-cong i zero a h = refl
  add_others-cong i (suc n) a h =
      let rest = λ (b : A). add_others-cong (suc i) n b (λ j hj. h j (omega arith)) in
      elim (Bool-cases (i == me)) [
        | inl e ↦ rw (e) (rest a)
        | inr e ↦ rw (e) (
            ap (λ b. add_others op me f (suc i) n (op a b)) (h i (omega arith) (differs i me e))
            ∙ rest (op a (g i)))
      ]

module _ ⦃L : Mcl⦄ where
  -- Multiples of the base point are added as their factors are.
  scaled_sum :
      (me : ℕ) (f : ℕ → L.Fr) (i n : ℕ) (a : L.Fr)
      → add_others ◌⊞◌ me (λ j. L.base_point ⊡ f j) i n (L.base_point ⊡ a)
        ≡ L.base_point ⊡ add_others ◌⊕◌ me f i n a
  unfolding add_others
  scaled_sum me f i zero a = refl
  scaled_sum me f i (suc n) a = elim (Bool-cases (i == me)) [
    | inl e ↦ rw (e) (scaled_sum me f (suc i) n a)
    | inr e ↦ rw (e) (
        ap (add_others ◌⊞◌ me (λ j. L.base_point ⊡ f j) (suc i) n)
          (sym (g1_module.scale-add L.base_point a (f i)))
        ∙ scaled_sum me f (suc i) n (a ⊕ f i))
  ]

module _ ⦃L : Mcl⦄ ⦃T : Transport⦄ where
  all_accepted-honest :
      (me size : ℕ) (r : Received) (i n : ℕ)
      → ((j : ℕ) → j < i + n → j ≢ me → accepted me size r j ≡ true)
      → all_accepted me size r i n ≡ true
  unfolding all_accepted
  all_accepted-honest me size r i zero h = refl
  all_accepted-honest me size r i (suc n) h =
      let rest = all_accepted-honest me size r (suc i) n (λ j hj. h j (omega arith)) in
      elim (Bool-cases (i == me)) [
        | inl e ↦ rw (e) rest
        | inr e ↦ rw (e, h i (omega arith) (differs i me e)) rest
      ]

  -- In a run in which every party deals by the program and its messages arrive, each party ends with
  -- the value at its number of the sum of all dealt polynomials, as its secret key, and all have the
  -- value of the sum at 0 times the base point as verification key.
  pub dstb_keygen-honest :
      (n t me : ℕ) (b : ℕ → Bls) (seed s : L.Seed) (network : Sent → Received) (d : ℕ → Dealt)
      (h : (j : ℕ) → Deals (b j) (d j))
      → ((j : ℕ) → (b j).nparty ≡ n)
      → ((j : ℕ) → (b j).threshold ≡ t)
      → me < n
      → n < int_limit
      → deal (b me) seed ≡ ok (d me, s)
      → ((j : ℕ) → j < n → j ≢ me → Delivered (suc t) me (d j).sent (network (d me).sent) j)
      → dstb_keygen (record { my_num = me; num_players = n }) (b me) seed network ≡ (
          let f : ℕ → List L.Fr = λ j. polynomial (b j) (d j) (h j) in
          ok (
            with_keys
                (b me)
                (poly (joint f 0 n) (nat (me + 1)))
                (L.base_point ⊡ poly (joint f 0 n) fr_ring.zero),
            s,
          ))
  dstb_keygen-honest n t me b seed s network d h hn ht hm hl e del =
      let f : ℕ → List L.Fr = λ j. polynomial (b j) (d j) (h j) in
      let r = network (d me).sent in
      let player : Player = record { my_num = me; num_players = n } in
      let fits : (j : ℕ) → me < (b j).nparty = λ j. let k = hn j in omega arith in
      let here : (j : ℕ) → j < n → j ≢ me → Delivered (suc (b j).threshold) me (d j).sent r j =
        λ j hj hne. rw (ht j) (del j hj hne) in
      let size : length (d me).aux ≡ suc t = length-aux (b me) (d me) (h me) ∙ ap suc (ht me) in
      let all : all_accepted me (length (d me).aux) r 0 n ≡ true =
        all_accepted-honest me (length (d me).aux) r 0 n (λ j hj hne.
          ap (λ k. accepted me k r j) (size ∙ ap suc (sym (ht j)))
          ∙ accepted-honest me (b j) (d j) (h j) r j (fits j) (omega arith)
              (here j (omega arith) hne)) in
      let shares : add_others ◌⊕◌ me (share_of r) 0 n (poly (f me) (nat (me + 1)))
          ≡ poly (joint f 0 n) (nat (me + 1)) =
        add_others-cong ◌⊕◌ me (share_of r) (λ j. poly (f j) (nat (me + 1))) 0 n _
          (λ j hj hne.
            share-honest (suc (b j).threshold) me (b j) (d j) (h j) r j (fits j)
              (here j (omega arith) hne))
        ∙ add_others-total me (λ j. poly (f j) (nat (me + 1))) n hm
        ∙ sym (poly-joint f 0 n (nat (me + 1))) in
      let constants : ℕ → L.Fr = λ j. (h j).constant in
      let keys : add_others ◌⊞◌ me (key_of r) 0 n (L.base_point ⊡ constants me)
          ≡ L.base_point ⊡ poly (joint f 0 n) fr_ring.zero =
        add_others-cong ◌⊞◌ me (key_of r) (λ j. L.base_point ⊡ constants j) 0 n _
          (λ j hj hne.
            key-honest (b j).threshold me (b j) (d j) (h j) r j (here j (omega arith) hne))
        ∙ scaled_sum me constants 0 n (constants me)
        ∙ ap (λ x. L.base_point ⊡ x)
            (add_others-total me constants n hm
              ∙ ap (λ g. total g 0 n)
                  (fun_ext (λ j. sym (poly_at_zero (h j).constant (h j).coefficients)))
              ∙ sym (poly-joint f 0 n fr_ring.zero)) in
      dstb_keygen_lem player (b me) seed s network (d me) (h me) e (fits me)
      ∙ rw (all) (ap₂ (λ x y. ok (with_keys (b me) x y, s)) shares keys)
