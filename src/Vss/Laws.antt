-- ===== src/Vss/Laws.antt =====
-- The shares that gen_share deals are accepted with its aux, and recover the secret.
pub mod Coefficients
use proof_of_custody.Prelude.{
  ℕ, zero, suc, ◌+◌, ◌<◌, ◌≤◌, ◌≡◌, ◌↔◌, refl, sym, ap, ap₂, ◌∙◌, Bool, true, false, some, List, [],
  ◌∷◌, ◌++◌, map, length, length-map, get_elem?, ltb, arith,
}
use proof_of_custody.Ring.{nat}
use proof_of_custody.Ring.Module.{◌⊡◌}
use proof_of_custody.Ring.Polynomial.{poly, poly_in, poly_in-map, poly_at_zero}
use proof_of_custody.Ring.Interpolation.{Apart}
use proof_of_custody.Engine.Program.{ok, err, invalid_setting}
use proof_of_custody.Mcl.{Mcl, pos, fr_ring, fr_field, g1_points, g1_module, int_limit, Fits}
use proof_of_custody.Lagrange.Laws.{points, length-points}
use proof_of_custody.Lagrange.Laws.Recovery.{Distinct-points}
use proof_of_custody.Vss.{
  Vss, new_vss, coeff_loop, evaluate_loop, gen_share, verify_share, x_vec, recover_share,
}

module _ ⦃L : Mcl⦄ where
  -- the coefficients that are drawn
  abbrev pub drawn_coeffs : ℕ → L.Seed → List L.Fr
  drawn_coeffs t seed = (coeff_loop t seed).0.0

  coeff_loop-aux :
      (t : ℕ) (seed : L.Seed)
      → (coeff_loop t seed).0.1 ≡ map (λ c. L.base_point ⊡ c) (drawn_coeffs t seed)
  unfolding coeff_loop
  coeff_loop-aux zero seed = refl
  coeff_loop-aux (suc t) seed =
      ap (λ l. L.base_point ⊡ (L.set_by_csprng seed).0.0 ∷ l)
        (coeff_loop-aux t (L.set_by_csprng seed).1)

  pub length-drawn_coeffs : (t : ℕ) (seed : L.Seed) → length (drawn_coeffs t seed) ≡ t
  unfolding coeff_loop
  length-drawn_coeffs zero seed = refl
  length-drawn_coeffs (suc t) seed = ap suc (length-drawn_coeffs t (L.set_by_csprng seed).1)

  evaluate_loop_lem :
      (c : L.Fr) (cs : List L.Fr) (k n : ℕ)
      → k + n ≤ int_limit
      → evaluate_loop (c ∷ cs) k n ≡ map (poly (c ∷ cs)) (points k n)
  unfolding evaluate_loop points
  evaluate_loop_lem c cs k zero h = refl
  evaluate_loop_lem c cs k (suc n) h =
      ap₂ (λ x l. x ∷ l)
        (L.fr_evaluate_lem c cs _ ∙ ap (poly (c ∷ cs)) (L.set_int32-pos k (omega arith)))
        (evaluate_loop_lem c cs (suc k) n (omega arith))

  -- The polynomial that gen_share draws, its values and its coefficients in the exponent.
  abbrev pub dealt : Vss → L.Seed → List L.Fr
  dealt v seed = v.s ∷ drawn_coeffs v.threshold seed

  pub gen_share_lem :
      (v : Vss) (seed : L.Seed)
      → v.nparty < int_limit
      → (gen_share v [] [] seed).0 ≡ (
        map (poly (dealt v seed)) (points 1 v.nparty),
        map (λ c. L.base_point ⊡ c) (dealt v seed),
      )
  unfolding gen_share
  gen_share_lem v seed h =
      ap₂ (λ a b. (a, L.base_point ⊡ v.s ∷ b))
        (evaluate_loop_lem v.s (drawn_coeffs v.threshold seed) 1 v.nparty (omega arith))
        (coeff_loop-aux v.threshold seed)

  -- A share is accepted exactly if it is, in the exponent, the value of the committed polynomial at
  -- the party's number.
  pub verify_share_iff :
      (share : L.Fr) (a : L.G1) (aux : List L.G1) (n : ℕ)
      → n < int_limit
      → (verify_share share (a ∷ aux) n ≡ true)
        ↔ (L.base_point ⊡ share ≡ poly_in {R = L.Fr} (a ∷ aux) (nat n))
  unfolding verify_share
  verify_share_iff share a aux n h =
      let e =
        L.g1_evaluate_lem a aux (L.set_int32 (pos n))
        ∙ ap (poly_in {R = L.Fr} (a ∷ aux)) (L.set_int32-pos n h) in
      ((λ k. (L.is_equal1_iff _ _).0 k ∙ e), (λ k. (L.is_equal1_iff _ _).1 (k ∙ sym e)))

  pub get_elem?-points :
      (f : L.Fr → L.Fr) (k n i : ℕ)
      → i < n
      → get_elem? (map f (points k n)) i ≡ some (f (nat (k + i)))
  unfolding points
  get_elem?-points f k zero i h = absurd (omega arith)
  get_elem?-points f k (suc n) zero h = ap (λ m. some (f (nat m))) (omega arith)
  get_elem?-points f k (suc n) (suc i) h =
      get_elem?-points f (suc k) n i (omega arith) ∙ ap (λ m. some (f (nat m))) (omega arith)

  -- Each party's share of gen_share is accepted with its aux under the party's number.
  pub gen_share-verified :
      (v : Vss) (seed : L.Seed) (i : ℕ) (share : L.Fr)
      → v.nparty < int_limit
      → i < v.nparty
      → get_elem? (gen_share v [] [] seed).0.0 i ≡ some share
      → verify_share share (gen_share v [] [] seed).0.1 (i + 1) ≡ true
  gen_share-verified v seed i share h hi e =
      let g = gen_share_lem v seed h in
      let e' : some share ≡ some (poly (dealt v seed) (nat (1 + i))) =
        sym e
        ∙ ap (λ p. get_elem? p.0 i) g
        ∙ get_elem?-points (poly (dealt v seed)) 1 v.nparty i hi in
      let same : share ≡ poly (dealt v seed) (nat (1 + i)) = cc in
      let order : 1 + i ≡ i + 1 = omega arith in
      ap (λ p. verify_share share p.1 (i + 1)) g
      ∙ (verify_share_iff share (L.base_point ⊡ v.s)
            (map (λ c. L.base_point ⊡ c) (drawn_coeffs v.threshold seed)) (i + 1) (omega arith)).1
          (ap (λ x. L.base_point ⊡ x) (same ∙ ap (λ m. poly (dealt v seed) (nat m)) order)
            ∙ sym (poly_in-map L.base_point (dealt v seed) (nat (i + 1))))

  x_vec_lem : (k n : ℕ) → k + n < int_limit → x_vec k n ≡ points (suc k) n
  unfolding x_vec points
  x_vec_lem k zero h = refl
  x_vec_lem k (suc n) h =
      ap₂ (λ x l. x ∷ l) (L.set_int32-pos (k + 1) (omega arith) ∙ ap nat (omega arith))
        (x_vec_lem (suc k) n (omega arith))

  pub zero-Apart : (k n : ℕ) → 0 < k → k + n ≤ L.order → Apart fr_ring.zero (points k n)
  unfolding points Apart nat
  zero-Apart k zero h h' = tt
  zero-Apart k (suc n) h h' = (
    (λ e. let e' = L.nat-injective 0 k (omega arith) (omega arith) e in absurd (omega arith)),
    zero-Apart (suc k) n (omega arith) (omega arith),
  )

  -- The shares of gen_share recover the secret, if the threshold is below the number of parties.
  pub recover_share-gen_share :
      (v : Vss) (seed : L.Seed)
      → Fits v.nparty
      → v.threshold < v.nparty
      → recover_share (gen_share v [] [] seed).0.0 ≡ v.s
  unfolding recover_share
  recover_share-gen_share v seed fits h =
      let n = v.nparty in
      let f = fits.in_field in
      let ps = points 1 n in
      let cs = dealt v seed in
      let e : length ps ≡ n = length-points 1 n in
      ap (λ p. L.fr_interpolate (x_vec 0 (length p.0)) p.0) (gen_share_lem v seed fits.in_int)
      ∙ ap (λ xs. L.fr_interpolate xs (map (poly cs) ps))
          (ap (x_vec 0) (length-map (poly cs) ps ∙ e)
            ∙ x_vec_lem 0 n (let g = fits.in_int in omega arith))
      ∙ L.fr_interpolate_lem cs ps (Distinct-points 1 n (omega arith))
          (zero-Apart 1 n (omega arith) (omega arith)) (rw e (omega arith))
          (rw e (let l = length-drawn_coeffs v.threshold seed in omega arith))
      ∙ poly_at_zero v.s (drawn_coeffs v.threshold seed)
