-- ===== src/Lagrange/Laws.antt =====
-- The loop of get_lagrange_coeff computes Lagrange's weight of a point, and set_share the values of
-- the polynomial of its coefficients.
pub mod Recovery
use mathlib.Core.List.{reverse-cons}
use proof_of_custody.Prelude.{
  ℕ, zero, suc, ◌+◌, ◌<◌, ◌≤◌, ◌≡◌, ◌⊎◌, inl, inr, refl, sym, ap, ap₂, ◌∙◌, Bool, true, false, ◌||◌,
  List, [], ◌∷◌, ◌++◌, map, length, reverse, ltb, leb, ◌==◌, if◌then◌else◌, arith,
}
use proof_of_custody.Ring.{◌⊕◌, ◌⊗◌, ◌⊖◌, nat, mul-one, add-zero, zero-mul}
use proof_of_custody.Ring.Solver.{ring_eq, same_poly, var, ◌:+◌, ◌:*◌}
use proof_of_custody.Ring.Polynomial.{poly}
use proof_of_custody.Ring.Interpolation.{numerator, denominator, weight}
use proof_of_custody.Engine.Program.{Result, ok, err, invalid_length}
use proof_of_custody.Fallible.{◌>>=◌, ok-bind}
use proof_of_custody.Mcl.{Mcl, ℤ, opposite, fr_ring, fr_field, int_limit, Fits}
use proof_of_custody.Lagrange.{product_loop, get_lagrange_coeff, horner_loop, share_at, share_loop}

module _ ⦃L : Mcl⦄ where
  -- k, k + 1, ..
  unfoldable pub points : ℕ → ℕ → List L.Fr
  points k zero = []
  points k (suc n) = nat k ∷ points (suc k) n

  pub points-snoc : (k n : ℕ) → points k (suc n) ≡ points k n ++ (nat (k + n) ∷ [])
  unfolding points
  points-snoc k zero = ap (λ m. nat m ∷ []) (omega arith)
  points-snoc k (suc n) =
      ap (λ l. nat k ∷ l)
        (points-snoc (suc k) n ∙ ap (λ m. points (suc k) n ++ (nat m ∷ [])) (omega arith))

  pub points-next : (n : ℕ) → points 1 (suc n) ≡ points 1 n ++ (nat (suc n) ∷ [])
  points-next n =
      let e : 1 + n ≡ suc n = omega arith in
      points-snoc 1 n ∙ ap (λ m. points 1 n ++ (nat m ∷ [])) e

  pub length-points : (k n : ℕ) → length (points k n) ≡ n
  unfolding points
  length-points k zero = refl
  length-points k (suc n) = ap suc (length-points (suc k) n)

  -- Rounds away from pos multiply by the point and by the difference.
  product_loop-other :
      (pos : ℕ) (x : L.Fr) (k n : ℕ) (u d : L.Fr)
      → k + n ≤ int_limit
      → (pos < k) ⊎ (k + n ≤ pos)
      → product_loop pos x k n (u, d) ≡ (u ⊗ numerator (points k n), d ⊗ denominator x (points k n))
  unfolding product_loop points numerator denominator
  product_loop-other pos x k zero u d hk h = ap₂ (λ s t. (s, t)) (sym (mul-one u)) (sym (mul-one d))
  product_loop-other pos x k (suc n) u d hk h =
      let e : (k == pos) ≡ false = elim h [ inl p ↦ ground arith | inr p ↦ ground arith ] in
      let e' = L.set_int32-opposite k (omega arith) in
      rw (e, e')
        (product_loop-other pos x (suc k) n (u ⊗ fr_ring.neg (nat k)) (d ⊗ (x ⊖ nat k))
            (omega arith) (elim h [ inl p ↦ inl (omega arith) | inr p ↦ inr (omega arith) ])
          ∙ ap₂ (λ s t. (s, t)) (fr_ring.mul_assoc _ _ _) (fr_ring.mul_assoc _ _ _))

  product_loop-split :
      (pos : ℕ) (x : L.Fr) (k a b : ℕ) (st : L.Fr × L.Fr)
      → product_loop pos x k (a + b) st ≡ product_loop pos x (k + a) b (product_loop pos x k a st)
  unfolding product_loop
  product_loop-split pos x k zero b st =
      let e : 0 + b ≡ b = omega arith in
      let e' : k ≡ k + 0 = omega arith in ap₂ (λ m j. product_loop pos x j m st) e e'
  product_loop-split pos x k (suc a) b (u, d) =
      let xk = L.set_int32 (opposite (ℤ.pos k)) in
      let st : L.Fr × L.Fr = if k == pos then (u, d) else (u ⊗ xk, d ⊗ (x ⊕ xk)) in
      let e : suc a + b ≡ suc (a + b) = omega arith in
      ap (λ m. product_loop pos x k m (u, d)) e
      ∙ product_loop-split pos x (suc k) a b st
      ∙ ap (λ j. product_loop pos x j b (product_loop pos x (suc k) a st)) (omega arith)

  -- Both products, of all points but the one at a + 1.
  product_loop-all :
      (a b : ℕ) (x : L.Fr)
      → a + suc b < int_limit
      → product_loop (suc a) x 1 (a + suc b) (fr_ring.one, fr_ring.one) ≡ (
        numerator (points 1 a) ⊗ numerator (points (suc (suc a)) b),
        denominator x (points 1 a) ⊗ denominator x (points (suc (suc a)) b),
      )
  unfolding product_loop
  product_loop-all a b x h =
      let here : (1 + a == suc a) ≡ true = ground arith in
      let next : suc (1 + a) ≡ suc (suc a) = omega arith in
      product_loop-split (suc a) x 1 a (suc b) _
      ∙ ap (product_loop (suc a) x (1 + a) (suc b)) (
          product_loop-other (suc a) x 1 a fr_ring.one fr_ring.one (omega arith) (inr (omega arith))
          ∙ ap₂ (λ s t. (s, t)) (fr_ring.one-mul _) (fr_ring.one-mul _))
      ∙ rw (here, next)
          (product_loop-other (suc a) x (suc (suc a)) b _ _ (omega arith) (inl (omega arith)))

  pub set_int32-one : L.set_int32 (ℤ.pos 1) ≡ fr_ring.one
  unfolding int_limit nat
  set_int32-one = L.set_int32-pos 1 (omega arith) ∙ add-zero _

  -- The coefficient of the point a + 1 of a + 1 + b.
  pub get_lagrange_coeff-weight :
      (a b : ℕ)
      → a + suc b < int_limit
      → get_lagrange_coeff (a + suc b) (suc a)
        ≡ ok (
            weight
              (numerator (points 1 a))
              (λ z. denominator z (points 1 a))
              (nat (suc a))
              (points (suc (suc a)) b))
  unfolding get_lagrange_coeff
  get_lagrange_coeff-weight a b h =
      let low : leb (suc a) 0 ≡ false = ground arith in
      let high : ltb (a + suc b) (suc a) ≡ false = ground arith in
      rw
        (
          low,
          high,
          set_int32-one,
          L.set_int32-pos (suc a) (omega arith),
          product_loop-all a b (nat (suc a)) h,
        )
        (ap ok (fr_ring.mul_comm _ _))

  horner_loop-append :
      (x acc : L.Fr) (cs ds : List L.Fr)
      → horner_loop x acc (cs ++ ds) ≡ horner_loop x (horner_loop x acc cs) ds
  unfolding horner_loop
  horner_loop-append x acc [] ds = refl
  horner_loop-append x acc (c ∷ cs) ds = horner_loop-append x (acc ⊗ x ⊕ c) cs ds

  horner_loop-reverse :
      (x : L.Fr) (cs : List L.Fr) → horner_loop x fr_ring.zero (reverse cs) ≡ poly cs x
  unfolding horner_loop poly
  horner_loop-reverse x [] = refl
  horner_loop-reverse x (c ∷ cs) = rw (reverse-cons) (
      horner_loop-append x fr_ring.zero (reverse cs) (c ∷ [])
      ∙ ap (λ u. u ⊗ x ⊕ c) (horner_loop-reverse x cs)
      ∙ fr_ring.add_comm _ _
      ∙ ap (λ u. c ⊕ u) (fr_ring.mul_comm _ _))

  share_at-horner :
      (x : L.Fr) (cs : List L.Fr) (c : L.Fr)
      → share_at (cs ++ (c ∷ [])) x ≡ ok (horner_loop x fr_ring.zero (cs ++ (c ∷ [])))
  unfolding share_at horner_loop
  share_at-horner x [] c = ap ok (sym (ap (λ u. u ⊕ c) (zero-mul x) ∙ fr_ring.zero-add c))
  share_at-horner x (d ∷ cs) c =
      ap (λ u. ok (horner_loop x u (cs ++ (c ∷ []))))
        (sym (ap (λ u. u ⊕ d) (zero-mul x) ∙ fr_ring.zero-add d))

  pub share_at_lem :
      (x c : L.Fr) (cs : List L.Fr) → share_at (reverse (c ∷ cs)) x ≡ ok (poly (c ∷ cs) x)
  share_at_lem x c cs =
      ap (λ l. share_at l x) (reverse-cons c cs)
      ∙ share_at-horner x (reverse cs) c
      ∙ ap (λ l. ok (horner_loop x fr_ring.zero l)) (sym (reverse-cons c cs))
      ∙ ap ok (horner_loop-reverse x (c ∷ cs))

  pub share_loop_lem :
      (c : L.Fr) (cs : List L.Fr) (k n : ℕ)
      → k + n < int_limit
      → share_loop (c ∷ cs) k n ≡ ok (map (poly (c ∷ cs)) (points (suc k) n))
  unfolding share_loop points
  share_loop_lem c cs k zero h = refl
  share_loop_lem c cs k (suc n) h = ok-bind _ (share_at_lem (L.set_int32 (ℤ.pos (k + 1))) c cs) (
      ok-bind _ (share_loop_lem c cs (suc k) n (omega arith)) (
        ap (λ x. ok (poly (c ∷ cs) x ∷ map (poly (c ∷ cs)) (points (suc (suc k)) n)))
          (L.set_int32-pos (k + 1) (omega arith) ∙ ap nat (omega arith))))
