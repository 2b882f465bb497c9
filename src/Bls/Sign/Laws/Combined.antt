-- ===== src/Bls/Sign/Laws/Combined.antt =====
-- The sum of the parties' signatures is the signature under the key at 0 of the polynomial whose
-- values are the parties' keys.
use proof_of_custody.Prelude.{
  ℕ, zero, suc, ◌+◌, ◌<◌, ◌≤◌, ◌≡◌, refl, sym, ap, ◌∙◌, true, List, [], ◌∷◌, map, length, ==_refl,
  arith,
}
use proof_of_custody.Ring.{nat, ◌⊕◌, ◌⊗◌, add-zero}
use proof_of_custody.Ring.Module.{◌⊡◌}
use proof_of_custody.Ring.Polynomial.{poly}
use proof_of_custody.Engine.{Engine}
use proof_of_custody.Engine.Program.{Yields, Yields-bind, Yields-weaken, ok}
use proof_of_custody.Fallible.{◌>>=◌, ok-bind, ok-injective, bind-ok}
use proof_of_custody.OnlineOp.Products.Laws.{MasksNonzero}
use proof_of_custody.OnlineOp.Complexes.{Complex}
use proof_of_custody.Group.{Affine}
use proof_of_custody.Mcl.{Mcl, fr_ring, fr_field, g1_points, g1_module, mul2, add2, mul2-add, Fits}
use proof_of_custody.Lagrange.{get_lagrange_coeff, recover_loop, recover_share}
use proof_of_custody.Lagrange.Laws.{points}
use proof_of_custody.Lagrange.Laws.Recovery.{coefficients, recover_share_lem}
use proof_of_custody.Bls.{Bls, sign_scale, verify}
use proof_of_custody.Bls.Laws.{verify_iff}
use proof_of_custody.Bls.Keygen.Laws.Honest.{total}
use proof_of_custody.Bls.Sign.{add_points, dstb_sign}
use proof_of_custody.Bls.Sign.Laws.{
  point_of, coords, signatures, Summable, sum_all, input_loop_lem, add_loop_lem,
}

module _ ⦃L : Mcl⦄ where
  -- f i, f (i + 1), ..
  unfoldable pub listing : (ℕ → L.Fr) → ℕ → ℕ → List L.Fr
  listing f i zero = []
  listing f i (suc n) = f i ∷ listing f (suc i) n

  length-listing : (f : ℕ → L.Fr) (i n : ℕ) → length (listing f i n) ≡ n
  unfolding listing
  length-listing f i zero = refl
  length-listing f i (suc n) = ap suc (length-listing f (suc i) n)

  coefficients-listing :
      (n : ℕ) (w : ℕ → L.Fr) (k r : ℕ)
      → ((j : ℕ) → j < k + r → get_lagrange_coeff n (j + 1) ≡ ok (w j))
      → coefficients n (k + 1) r ≡ ok (listing w k r)
  unfolding coefficients listing
  coefficients-listing n w k zero h = refl
  coefficients-listing n w k (suc r) h =
      let next : suc (k + 1) ≡ suc k + 1 = omega arith in
      ok-bind _ (h k (omega arith)) (
        ok-bind _
          (ap (λ m. coefficients n m r) next
            ∙ coefficients-listing n w (suc k) r (λ j hj. h j (omega arith)))
          refl)

  map-points :
      (f : L.Fr → L.Fr) (k n : ℕ) → map f (points (k + 1) n) ≡ listing (λ j. f (nat (j + 1))) k n
  unfolding points listing
  map-points f k zero = refl
  map-points f k (suc n) =
      let next : suc (k + 1) ≡ suc k + 1 = omega arith in
      ap (λ l. f (nat (k + 1)) ∷ l) (ap (λ m. map f (points m n)) next ∙ map-points f (suc k) n)

  recover_loop-listing :
      (s : L.Fr) (w p : ℕ → L.Fr) (i n : ℕ)
      → recover_loop s (listing w i n) (listing p i n) ≡ s ⊕ total (λ j. w j ⊗ p j) i n
  unfolding recover_loop listing total
  recover_loop-listing s w p i zero = sym (add-zero s)
  recover_loop-listing s w p i (suc n) =
      recover_loop-listing (s ⊕ w i ⊗ p i) w p (suc i) n ∙ fr_ring.add_assoc _ _ _

  recover_share-listing :
      (w p : ℕ → L.Fr) (n : ℕ)
      → recover_share (listing w 0 (suc n)) (listing p 0 (suc n))
        ≡ ok (total (λ j. w j ⊗ p j) 0 (suc n))
  unfolding recover_share listing total
  recover_share-listing w p n =
      rw (length-listing w 1 n, length-listing p 1 n, ==_refl n)
        (ap ok (recover_loop-listing (w 0 ⊗ p 0) w p 1 n))

  -- The values of a polynomial, each times the Lagrange coefficient of its party.
  pub total-lagrange :
      (n : ℕ) (w : ℕ → L.Fr) (c : L.Fr) (cs : List L.Fr)
      → Fits n
      → length (c ∷ cs) ≤ n
      → ((j : ℕ) → j < n → get_lagrange_coeff n (j + 1) ≡ ok (w j))
      → total (λ j. w j ⊗ poly (c ∷ cs) (nat (j + 1))) 0 n ≡ c
  total-lagrange zero w c cs fits h hw = absurd (omega arith)
  total-lagrange (suc n) w c cs fits h hw =
      let one : 0 + 1 ≡ 1 = omega arith in
      ok-injective (
        sym (recover_share-listing w (λ j. poly (c ∷ cs) (nat (j + 1))) n)
        ∙ sym (
            bind-ok (λ ws. recover_share ws (listing (λ j. poly (c ∷ cs) (nat (j + 1))) 0 (suc n)))
              (ap (λ m. coefficients (suc n) m (suc n)) (sym one)
                ∙ coefficients-listing (suc n) w 0 (suc n) (λ j hj. hw j (omega arith))))
        ∙ ap (λ l. coefficients (suc n) 1 (suc n) >>= λ ws. recover_share ws l)
            (sym (map-points (poly (c ∷ cs)) 0 (suc n))
              ∙ ap (λ m. map (poly (c ∷ cs)) (points m (suc n))) one)
        ∙ recover_share_lem (suc n) c cs fits h)

  -- Scaled signatures add up in the exponent.
  sum_all-scaled :
      (p : L.G2) (f : ℕ → L.Fr) (sig : ℕ → L.G2) (a : L.Fr) (i n : ℕ)
      → ((j : ℕ) → j < i + n → sig j ≡ mul2 p (f j))
      → sum_all (mul2 p a) (signatures sig i n) ≡ mul2 p (a ⊕ total f i n)
  unfolding sum_all signatures total
  sum_all-scaled p f sig a i zero h = ap (mul2 p) (sym (add-zero a))
  sum_all-scaled p f sig a i (suc n) h =
      ap (λ q. sum_all q (signatures sig (suc i) n))
        (ap (add2 (mul2 p a)) (h i (omega arith)) ∙ sym (mul2-add p a (f i)))
      ∙ sum_all-scaled p f sig (a ⊕ f i) (suc i) n (λ j hj. h j (omega arith))
      ∙ ap (mul2 p) (fr_ring.add_assoc _ _ _)

module _ ⦃E : Engine⦄ ⦃L : Mcl⦄ (g2_get_str : L.G2 → Affine (Complex ℕ)) where
  -- Let n + 1 parties have as secret keys the values of a polynomial at their numbers, and as verification
  -- key the base point times its constant coefficient c. With nonzero masks, and where the points
  -- that are added are on the curve and have different x, the shared point that they end with opens
  -- to the coordinates of the hash of the message times c, and every party accepts this signature.
  pub dstb_sign_lem :
      MasksNonzero
      → (n : ℕ) (b : ℕ → Bls) (msg : L.Message) (c : L.Fr) (cs : List L.Fr) (w : ℕ → L.Fr)
        (curve : Complex E.Clear)
      → Fits (suc n)
      → length (c ∷ cs) ≤ suc n
      → ((j : ℕ) → j < suc n → (b j).sk ≡ poly (c ∷ cs) (nat (j + 1)))
      → ((j : ℕ) → j < suc n → (b j).vk ≡ L.base_point ⊡ c)
      → ((j : ℕ) → j < suc n → get_lagrange_coeff (suc n) (j + 1) ≡ ok (w j))
      → Summable g2_get_str curve
          (sign_scale (b 0) (w 0) msg).sigma
          (signatures (λ j. (sign_scale (b j) (w j) msg).sigma) 1 n)
      → Yields (dstb_sign g2_get_str (suc n) b msg) (λ r.
        (point_of r ≡ coords g2_get_str (mul2 (L.hash_and_map_to msg) c))
        × ((j : ℕ) → j < suc n → verify (b j) (mul2 (L.hash_and_map_to msg) c) msg ≡ true))
  unfolding dstb_sign add_points signatures sign_scale total
  dstb_sign_lem masks n b msg c cs w curve fits hl hsk hvk hw hs =
      let sig : ℕ → L.G2 = λ j. (sign_scale (b j) (w j) msg).sigma in
      let h = L.hash_and_map_to msg in
      let f : ℕ → L.Fr = λ j. w j ⊗ poly (c ∷ cs) (nat (j + 1)) in
      let scaled : (j : ℕ) → j < suc n → sig j ≡ mul2 h (f j) =
        λ j hj. ap (mul2 h) (ap (λ x. x ⊗ w j) (hsk j hj) ∙ fr_ring.mul_comm _ _) in
      let sum : sum_all (sig 0) (signatures sig 1 n) ≡ mul2 h c =
        ap (λ q. sum_all q (signatures sig 1 n)) (scaled 0 (omega arith))
        ∙ sum_all-scaled h f sig (f 0) 1 n (λ j hj. scaled j (omega arith))
        ∙ ap (mul2 h) (total-lagrange (suc n) w c cs fits hl hw) in
      Yields-bind (input_loop_lem g2_get_str (suc n) b msg w 0 (suc n) (λ j hj. hw j (omega arith)))
        (λ ac hac. added ac hac sum)
    where
      added :
          (ac : List (Affine (Complex E.Share)))
          → map point_of ac
            ≡ coords g2_get_str (sign_scale (b 0) (w 0) msg).sigma
              ∷ map (coords g2_get_str) (signatures (λ j. (sign_scale (b j) (w j) msg).sigma) 1 n)
          → sum_all
              (sign_scale (b 0) (w 0) msg).sigma
              (signatures (λ j. (sign_scale (b j) (w j) msg).sigma) 1 n)
            ≡ mul2 (L.hash_and_map_to msg) c
          → Yields (add_points ac) (λ r.
            (point_of r ≡ coords g2_get_str (mul2 (L.hash_and_map_to msg) c))
            × ((j : ℕ) → j < suc n → verify (b j) (mul2 (L.hash_and_map_to msg) c) msg ≡ true))
      added [] e sum = cc
      added (a ∷ ac) e sum =
          let first : point_of a ≡ coords g2_get_str (sign_scale (b 0) (w 0) msg).sigma = cc in
          let rest : map point_of ac
              ≡ map (coords g2_get_str) (signatures (λ j. (sign_scale (b j) (w j) msg).sigma) 1 n) =
            cc in
          Yields-weaken (add_loop_lem g2_get_str masks curve _ _ a ac hs first rest) (λ r hr. (
            hr ∙ ap (coords g2_get_str) sum,
            (λ j hj. (verify_iff (b j) c (mul2 (L.hash_and_map_to msg) c) msg (hvk j hj)).1 refl),
          ))
