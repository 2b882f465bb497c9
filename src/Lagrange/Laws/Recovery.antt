-- ===== src/Lagrange/Laws/Recovery.antt =====
-- The coefficients that the parties 1 to n compute recover a secret from its n shares.
use mathlib.Core.List.{append-nil}
use proof_of_custody.Prelude.{
  ℕ, zero, suc, ◌+◌, ◌<◌, ◌≤◌, ◌≡◌, ◌≢◌, fun_ext, refl, sym, ap, ap₂, ◌∙◌, false, List, [], ◌∷◌,
  ◌++◌, map, length, length-map, drop, ltb, ==_refl, arith,
}
use proof_of_custody.Ring.{◌⊕◌, ◌⊗◌, ◌⊖◌, nat, add-zero}
use proof_of_custody.Ring.Polynomial.{poly, poly_at_zero}
use proof_of_custody.Ring.Interpolation.{
  numerator, denominator, numerator-snoc, denominator-snoc, weight, weights, weighted, interpolated,
  Apart, Distinct,
}
use proof_of_custody.Ring.Interpolation.Formula.{interpolated_lem}
use proof_of_custody.Engine.Program.{Result, ok, err, invalid_length}
use proof_of_custody.Fallible.{◌>>=◌, ok-bind}
use proof_of_custody.Mcl.{Mcl, fr_ring, fr_field, int_limit, Fits}
use proof_of_custody.Lagrange.{
  get_lagrange_coeff, draw_coeffs, set_share, recover_loop, recover_share,
}
use proof_of_custody.Lagrange.Laws.{
  points, points-next, length-points, get_lagrange_coeff-weight, share_loop_lem,
}

module _ ⦃L : Mcl⦄ where
  -- What the parties k, k + 1, .. of n compute with get_lagrange_coeff.
  unfoldable pub coefficients : ℕ → ℕ → ℕ → Result (List L.Fr)
  coefficients n k zero = ok []
  coefficients n k (suc rounds) = do
    c ← get_lagrange_coeff n k
    rest ← coefficients n (suc k) rounds
    ok (c ∷ rest)

  coefficients_from :
      (n a b : ℕ) (u : L.Fr) (d : L.Fr → L.Fr)
      → a + b ≡ n
      → n < int_limit
      → u ≡ numerator (points 1 a)
      → ((z : L.Fr) → d z ≡ denominator z (points 1 a))
      → coefficients n (suc a) b ≡ ok (weights u d (points (suc a) b))
  unfolding coefficients points weights
  coefficients_from n a zero u d e h hu hd = refl
  coefficients_from n a (suc b) u d e h hu hd =
      let here : get_lagrange_coeff n (suc a)
          ≡ ok (weight u d (nat (suc a)) (points (suc (suc a)) b)) =
        rw (← e) (get_lagrange_coeff-weight a b (rw e h))
        ∙ ap₂ (λ v w. ok (weight v w (nat (suc a)) (points (suc (suc a)) b))) (sym hu)
            (sym (fun_ext hd)) in
      let rest =
        coefficients_from n (suc a) b (u ⊗ fr_ring.neg (nat (suc a))) (λ z. d z ⊗ (z ⊖ nat (suc a)))
          (omega arith) h
          (ap (λ v. v ⊗ fr_ring.neg (nat (suc a))) hu
            ∙ sym (ap numerator (points-next a) ∙ numerator-snoc (points 1 a) _))
          (λ z.
            ap (λ v. v ⊗ (z ⊖ nat (suc a))) (hd z)
            ∙ sym (ap (denominator z) (points-next a) ∙ denominator-snoc z (points 1 a) _)) in
      ok-bind _ here (ok-bind _ rest refl)

  pub coefficients_lem :
      (n : ℕ)
      → n < int_limit
      → coefficients n 1 n ≡ ok (weights fr_ring.one (λ z. fr_ring.one) (points 1 n))
  unfolding points numerator denominator
  coefficients_lem n h =
      coefficients_from n zero n fr_ring.one (λ z. fr_ring.one) (omega arith) h refl (λ z. refl)

  recover_loop_lem :
      (s u : L.Fr) (d k : L.Fr → L.Fr) (vs : List L.Fr)
      → recover_loop s (weights u d vs) (map k vs) ≡ s ⊕ weighted u d vs k
  unfolding recover_loop weights weighted
  recover_loop_lem s u d k [] = sym (add-zero s)
  recover_loop_lem s u d k (x ∷ vs) =
      recover_loop_lem (s ⊕ weight u d x vs ⊗ k x) (u ⊗ fr_ring.neg x) (λ z. d z ⊗ (z ⊖ x)) k vs
      ∙ fr_ring.add_assoc _ _ _

  length-weights :
      (u : L.Fr) (d : L.Fr → L.Fr) (vs : List L.Fr) → length (weights u d vs) ≡ length vs
  unfolding weights
  length-weights u d [] = refl
  length-weights u d (x ∷ vs) = ap suc (length-weights (u ⊗ fr_ring.neg x) (λ z. d z ⊗ (z ⊖ x)) vs)

  pub recover_share-weights :
      (x : L.Fr) (vs : List L.Fr) (k : L.Fr → L.Fr)
      → recover_share (weights fr_ring.one (λ z. fr_ring.one) (x ∷ vs)) (map k (x ∷ vs))
        ≡ ok (interpolated (x ∷ vs) k)
  unfolding recover_share weights weighted
  recover_share-weights x vs k =
      let e = length-weights (fr_ring.one ⊗ fr_ring.neg x) (λ z. fr_ring.one ⊗ (z ⊖ x)) vs in
      rw (e, length-map k vs, ==_refl (length vs)) (ap ok (recover_loop_lem _ _ _ k vs))

  Apart-points : (j k n : ℕ) → j < k → k + n ≤ L.order → Apart (nat j) (points k n)
  unfolding points Apart
  Apart-points j k zero h h' = tt
  Apart-points j k (suc n) h h' = (
    (λ e. let e' = L.nat-injective j k (omega arith) (omega arith) e in absurd (omega arith)),
    Apart-points j (suc k) n (omega arith) (omega arith),
  )

  pub Distinct-points : (k n : ℕ) → k + n ≤ L.order → Distinct (points k n)
  unfolding points Distinct
  Distinct-points k zero h = tt
  Distinct-points k (suc n) h = (
    Apart-points k (suc k) n (omega arith) (omega arith),
    Distinct-points (suc k) n (omega arith),
  )

  -- Shamir's recovery: for n parties, with the coefficients of the points 1 to n, the values there
  -- of a polynomial of at most n coefficients give back its constant coefficient.
  pub recover_share_lem :
      (n : ℕ) (c : L.Fr) (cs : List L.Fr)
      → Fits n
      → length (c ∷ cs) ≤ n
      → (do ws ← coefficients n 1 n; recover_share ws (map (poly (c ∷ cs)) (points 1 n))) ≡ ok c
  unfolding points
  recover_share_lem zero c cs fits h = absurd (omega arith)
  recover_share_lem (suc n) c cs fits h = ok-bind _ (coefficients_lem (suc n) fits.in_int) (
      recover_share-weights (nat 1) (points 2 n) (poly (c ∷ cs))
      ∙ ap ok (
          interpolated_lem (c ∷ cs) (points 1 (suc n))
            (Distinct-points 1 (suc n) (let f = fits.in_field in omega arith))
            (rw (length-points 1 (suc n)) h)
          ∙ poly_at_zero c cs))

  length-draw_coeffs : (t : ℕ) (seed : L.Seed) → length (draw_coeffs t seed).0 ≡ t
  unfolding draw_coeffs
  length-draw_coeffs zero seed = refl
  length-draw_coeffs (suc t) seed = ap suc (length-draw_coeffs t (L.set_by_csprng seed).1)

  pub drop_all : {A : Type 0} (xs : List A) → drop (length xs) xs ≡ []
  drop_all [] = refl
  drop_all (x ∷ xs) = drop_all xs

  pub set_share-values :
      (sh : List L.Fr) (s : L.Fr) (n t : ℕ) (seed : L.Seed)
      → n < int_limit
      → length sh ≡ n
      → set_share sh s n t seed
        ≡ ok (map (poly (s ∷ (draw_coeffs t seed).0)) (points 1 n), (draw_coeffs t seed).1)
  unfolding set_share
  set_share-values sh s n t seed h e =
      let room : ltb (length sh) n ≡ false = ground arith in
      rw (room) (
        ok-bind _ (share_loop_lem s (draw_coeffs t seed).0 0 n (omega arith)) (
          ap (λ l. ok (l, (draw_coeffs t seed).1))
            (ap (λ l. map (poly (s ∷ (draw_coeffs t seed).0)) (points 1 n) ++ l)
                (rw (← e) (drop_all sh))
              ∙ append-nil _)))

  -- Shamir's round trip: a secret that set_share shares among n parties with a threshold below n
  -- is recovered from all shares, whatever the random coefficients are.
  pub set_share_lem :
      (sh : List L.Fr) (s : L.Fr) (n t : ℕ) (seed : L.Seed)
      → Fits n
      → length sh ≡ n
      → t < n
      → (do shared ← set_share sh s n t seed; ws ← coefficients n 1 n; recover_share ws shared.0)
        ≡ ok s
  set_share_lem sh s n t seed fits e h = ok-bind _ (set_share-values sh s n t seed fits.in_int e) (
      recover_share_lem n s (draw_coeffs t seed).0 fits
        (let k = length-draw_coeffs t seed in omega arith))

  -- As many coefficients as shares are asked for, and a point from 1 to n.
  pub recover_share-refuses :
      (coeff share : List L.Fr)
      → length coeff ≢ length share
      → recover_share coeff share ≡ err invalid_length
  unfolding recover_share
  recover_share-refuses [] [] h = absurd (h refl)
  recover_share-refuses [] (s ∷ share) h = refl
  recover_share-refuses (c ∷ coeff) [] h = refl
  recover_share-refuses (c ∷ coeff) (s ∷ share) h = ground arith
