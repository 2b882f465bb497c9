-- ===== src/Vss/Laws/Coefficients.antt =====
-- The coefficients that lagrange_coeff computes for a set of parties recover a secret from their
-- shares.
use mathlib.Core.List.{append_assoc}
use proof_of_custody.Prelude.{
  ℕ, zero, suc, ◌+◌, ◌<◌, ◌≤◌, ◌≡◌, ◌⊎◌, inl, inr, refl, sym, ap, ap₂, ◌∙◌, true, false, List, [],
  ◌∷◌, ◌++◌, map, length, length-map, length-append, ◌==◌, if◌then◌else◌, arith,
}
use proof_of_custody.Ring.{◌⊕◌, ◌⊗◌, ◌⊖◌, mul-one, neg-neg}
use proof_of_custody.Ring.Polynomial.{poly, poly_at_zero}
use proof_of_custody.Ring.Interpolation.{
  numerator, denominator, numerator-snoc, denominator-snoc, weights, Distinct,
}
use proof_of_custody.Ring.Interpolation.Formula.{interpolated_lem}
use proof_of_custody.Engine.Program.{ok, err, zero_element}
use proof_of_custody.Fallible.{◌>>=◌, ok-bind, err-bind}
use proof_of_custody.Mcl.{Mcl, ℤ, pos, negsuc, opposite, fr_ring, fr_field, int_limit}
use proof_of_custody.Lagrange.{recover_share}
use proof_of_custody.Lagrange.Laws.{set_int32-one}
use proof_of_custody.Lagrange.Laws.Recovery.{recover_share-weights}
use proof_of_custody.Vss.{is_zero_int, fr_vals, others_loop, lag_loop, lagrange_coeff}

-- The integer and its opposite are ints other than 0.
unfoldable pub ValidPoint : ℤ → Type 0
ValidPoint (pos zero) = 0 < 0
ValidPoint (pos (suc n)) = suc n < int_limit
ValidPoint (negsuc n) = suc n < int_limit

unfoldable pub AllValid : List ℤ → Type 0
AllValid [] = Unit {0}
AllValid (v ∷ val) = ValidPoint v × AllValid val

module _ ⦃L : Mcl⦄ where
  ValidPoint-nonzero : (v : ℤ) → ValidPoint v → is_zero_int v ≡ false
  unfolding ValidPoint is_zero_int
  ValidPoint-nonzero (pos zero) h = absurd (omega arith)
  ValidPoint-nonzero (pos (suc n)) h = refl
  ValidPoint-nonzero (negsuc n) h = refl

  set_int32-negated :
      (v : ℤ) → ValidPoint v → L.set_int32 (opposite v) ≡ fr_ring.neg (L.set_int32 v)
  unfolding ValidPoint opposite
  set_int32-negated (pos zero) h = absurd (omega arith)
  set_int32-negated (pos (suc n)) h =
      L.set_int32-opposite (suc n) h ∙ ap fr_ring.neg (sym (L.set_int32-pos (suc n) h))
  set_int32-negated (negsuc n) h =
      L.set_int32-pos (suc n) h
      ∙ sym (neg-neg _)
      ∙ ap fr_ring.neg (sym (L.set_int32-opposite (suc n) h))

  -- the field elements of the points
  abbrev pub elements : List ℤ → List L.Fr
  elements val = map L.set_int32 val

  abbrev negated : List L.Fr → List L.Fr
  negated vs = map fr_ring.neg vs

  fr_vals_lem : (val : List ℤ) → AllValid val → fr_vals val ≡ ok (negated (elements val))
  unfolding fr_vals AllValid
  fr_vals_lem [] h = refl
  fr_vals_lem (v ∷ val) h =
      rw (ValidPoint-nonzero v h.0, set_int32-negated v h.0) (ok-bind _ (fr_vals_lem val h.1) refl)

  others_loop-other :
      (i : ℕ) (x : L.Fr) (j : ℕ) (vs : List L.Fr) (u d : L.Fr)
      → (i < j) ⊎ (j + length vs ≤ i)
      → others_loop i x j (negated vs) (u, d) ≡ (u ⊗ numerator vs, d ⊗ denominator x vs)
  unfolding others_loop numerator denominator
  others_loop-other i x j [] u d h = ap₂ (λ s t. (s, t)) (sym (mul-one u)) (sym (mul-one d))
  others_loop-other i x j (v ∷ vs) u d h =
      let e : (j == i) ≡ false = elim h [ inl p ↦ ground arith | inr p ↦ ground arith ] in
      rw (e, others_loop)
        (others_loop-other i x (suc j) vs (u ⊗ fr_ring.neg v) (d ⊗ (x ⊖ v))
            (elim h [ inl p ↦ inl (omega arith) | inr p ↦ inr (omega arith) ])
          ∙ ap₂ (λ s t. (s, t)) (fr_ring.mul_assoc _ _ _) (fr_ring.mul_assoc _ _ _))

  others_loop-append :
      (i : ℕ) (x : L.Fr) (j : ℕ) (vs ws : List L.Fr) (st : L.Fr × L.Fr)
      → others_loop i x j (negated (vs ++ ws)) st
        ≡ others_loop i x (j + length vs) (negated ws) (others_loop i x j (negated vs) st)
  unfolding others_loop
  others_loop-append i x j [] ws st =
      let e : j ≡ j + 0 = omega arith in ap (λ m. others_loop i x m (negated ws) st) e
  others_loop-append i x j (v ∷ vs) ws (u, d) =
      let f = fr_ring.neg v in
      let st : L.Fr × L.Fr = if j == i then (u, d) else (u ⊗ f, d ⊗ (x ⊕ f)) in
      let e : suc j + length vs ≡ j + suc (length vs) = omega arith in
      others_loop-append i x (suc j) vs ws st
      ∙ ap (λ m. others_loop i x m (negated ws) (others_loop i x (suc j) (negated vs) st)) e

  -- Both products, of all points but the one after the first ones.
  others_loop-all :
      (pre : List L.Fr) (x : L.Fr) (post : List L.Fr)
      → others_loop (length pre) x 0 (negated (pre ++ (x ∷ post))) (fr_ring.one, fr_ring.one)
        ≡ (numerator pre ⊗ numerator post, denominator x pre ⊗ denominator x post)
  unfolding others_loop
  others_loop-all pre x post =
      let here : (0 + length pre == length pre) ≡ true = ground arith in
      others_loop-append (length pre) x 0 pre (x ∷ post) _
      ∙ ap (others_loop (length pre) x (0 + length pre) (negated (x ∷ post))) (
          others_loop-other (length pre) x 0 pre fr_ring.one fr_ring.one (inr (omega arith))
          ∙ ap₂ (λ s t. (s, t)) (fr_ring.one-mul _) (fr_ring.one-mul _))
      ∙ rw (here, others_loop)
          (others_loop-other (length pre) x (suc (0 + length pre)) post _ _ (inl (omega arith)))

  lag_loop_lem :
      (pre : List L.Fr) (val : List ℤ) (u : L.Fr) (d : L.Fr → L.Fr)
      → u ≡ numerator pre
      → ((z : L.Fr) → d z ≡ denominator z pre)
      → lag_loop (negated (pre ++ elements val)) (length pre) val ≡ weights u d (elements val)
  unfolding lag_loop weights
  lag_loop_lem pre [] u d hu hd = refl
  lag_loop_lem pre (v ∷ val) u d hu hd =
      let x = L.set_int32 v in
      let pre' = pre ++ (x ∷ []) in
      let same : pre ++ (x ∷ elements val) ≡ pre' ++ elements val =
        sym (append_assoc pre (x ∷ []) (elements val)) in
      let size : suc (length pre) ≡ length pre' =
        (let s = length-append pre (x ∷ []) in omega arith) in
      rw (set_int32-one) (
        ap₂ (λ a b. a ∷ b)
          (ap (λ p. p.0 ⊗ fr_field.inv p.1) (others_loop-all pre x (elements val))
            ∙ ap₂
                (λ s t.
                  (s ⊗ numerator (elements val)) ⊗ fr_field.inv (t ⊗ denominator x (elements val)))
                (sym hu) (sym (hd x)))
          (ap₂ (λ l k. lag_loop (negated l) k val) same size
            ∙ lag_loop_lem pre' val (u ⊗ fr_ring.neg x) (λ z. d z ⊗ (z ⊖ x))
                (ap (λ w. w ⊗ fr_ring.neg x) hu ∙ sym (numerator-snoc pre x))
                (λ z. ap (λ w. w ⊗ (z ⊖ x)) (hd z) ∙ sym (denominator-snoc z pre x))))

  -- Any set of at least threshold + 1 parties, with distinct numbers other than 0, recovers the
  -- constant coefficient from its values at their numbers, with the coefficients of lagrange_coeff.
  pub lagrange_coeff_lem :
      (v : ℤ) (val : List ℤ) (c : L.Fr) (cs : List L.Fr)
      → AllValid (v ∷ val)
      → Distinct (elements (v ∷ val))
      → length cs ≤ length val
      → (do
        ws ← lagrange_coeff [] (v ∷ val)
        recover_share ws (map (poly (c ∷ cs)) (elements (v ∷ val))))
        ≡ ok c
  unfolding lagrange_coeff numerator denominator
  lagrange_coeff_lem v val c cs h hd hl =
      ok-bind _
        (ok-bind _ (fr_vals_lem (v ∷ val) h)
          (ap ok (lag_loop_lem [] (v ∷ val) fr_ring.one (λ z. fr_ring.one) refl (λ z. refl))))
        (recover_share-weights (L.set_int32 v) (elements val) (poly (c ∷ cs))
          ∙ ap ok (
              interpolated_lem (c ∷ cs) (elements (v ∷ val)) hd
                (let e = length-map L.set_int32 val in omega arith)
              ∙ poly_at_zero c cs))

  fr_vals-refuses :
      (before after : List ℤ)
      → AllValid before
      → fr_vals (before ++ (pos 0 ∷ after)) ≡ err zero_element
  unfolding fr_vals is_zero_int AllValid
  fr_vals-refuses [] after h = refl
  fr_vals-refuses (v ∷ before) after h =
      rw (ValidPoint-nonzero v h.0, fr_vals) (err-bind _ (fr_vals-refuses before after h.1))

  -- A zero among the points is an exception.
  pub lagrange_coeff-refuses :
      (before after : List ℤ) (lag_coeff : List L.Fr)
      → AllValid before
      → lagrange_coeff lag_coeff (before ++ (pos 0 ∷ after)) ≡ err zero_element
  unfolding lagrange_coeff
  lagrange_coeff-refuses before after lag_coeff h = err-bind _ (fr_vals-refuses before after h)
