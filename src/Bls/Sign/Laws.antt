-- ===== src/Bls/Sign/Laws.antt =====
-- The shared point that the parties end with is the signature under the joint key.
pub mod Combined
pub mod EndToEnd
use proof_of_custody.Prelude.{
  ℕ, zero, suc, ◌+◌, ◌<◌, ◌≤◌, ◌≡◌, ◌≢◌, refl, sym, ap, ap₂, subst, ◌∙◌, ◌==◌, ==_refl, List, [],
  ◌∷◌, map, if◌then◌else◌, arith,
}
use proof_of_custody.Ring.{Ring, nat, ◌⊕◌, ◌⊖◌, ◌⊗◌}
use proof_of_custody.Engine.{Engine}
use proof_of_custody.Engine.Program.{
  M, Yields, Yields-bind, Yields-pure, Yields-weaken, Yields-index, clear_ring, Result, ok, pure,
  ◌>>=◌,
}
use proof_of_custody.OnlineOp.Linear.Laws.{get_inputs_lem}
use proof_of_custody.OnlineOp.Products.Laws.{MasksNonzero}
use proof_of_custody.OnlineOp.Complexes.{Complex, opened_complex}
use proof_of_custody.OnlineOp.Complexes.Laws.{complex_eq, complex_ring, norm, complex_cancel, times}
use proof_of_custody.Group.{Affine}
use proof_of_custody.Group.Laws.{opened_point, OnCurve, IsSum}
use proof_of_custody.Group.Jacobian.Sum.{IsSum-unique}
use proof_of_custody.Group.G2.{g2}
use proof_of_custody.Group.G2.Laws.{g2_add_aff_inplace_lem}
use proof_of_custody.Mcl.{Mcl, add2}
use proof_of_custody.Lagrange.{get_lagrange_coeff}
use proof_of_custody.Bls.{Bls, sign_scale}
use proof_of_custody.Bls.Sign.{
  get_inputs_complex, local, g2_to_str, g2_to_gfp, g2_to_complex_plain, signed_point, held,
  input_loop, add_loop,
}

pub affine_eq : {A : Type 0} {p q : Affine A} → p.x ≡ q.x → p.y ≡ q.y → p ≡ q
affine_eq e f = λ i. record { x = e i; y = f i }

module _ ⦃E : Engine⦄ where
  -- The shared point opens to this one.
  abbrev pub point_of : Affine (Complex E.Share) → Affine (Complex E.Clear)
  point_of = opened_point ⦃F = g2⦄

  get_inputs_complex_lem :
      (party : ℕ) (inputs : ℕ → Complex E.Clear)
      → Yields (get_inputs_complex party inputs) (λ c. opened_complex c ≡ inputs party)
  unfolding get_inputs_complex
  get_inputs_complex_lem party inputs =
      Yields-bind (get_inputs_lem party (λ j. (inputs j).real)) (λ re h.
        Yields-bind (get_inputs_lem party (λ j. (inputs j).imag))
          (λ im h'. Yields-pure _ (complex_eq h h')))

  local-ok : {A : Type 0} {m : Result A} (a : A) → m ≡ ok a → Yields (local m) (λ x. x ≡ a)
  unfolding local
  local-ok a e = rw (e) (Yields-pure a refl)

module _ ⦃L : Mcl⦄ where
  -- What the parties from i on sign.
  unfoldable pub signatures : (ℕ → L.G2) → ℕ → ℕ → List L.G2
  signatures sig i zero = []
  signatures sig i (suc n) = sig i ∷ signatures sig (suc i) n

  -- The sum of the library, from the left.
  unfoldable pub sum_all : L.G2 → List L.G2 → L.G2
  sum_all a [] = a
  sum_all a (p ∷ ps) = sum_all (add2 a p) ps

module _ ⦃E : Engine⦄ ⦃L : Mcl⦄ (g2_get_str : L.G2 → Affine (Complex ℕ)) where
  -- The coordinates of a point in the field of the engine.
  abbrev pub coords : L.G2 → Affine (Complex E.Clear)
  coords s =
      let p = g2_get_str s in
      record {
        x = record { real = nat p.x.real; imag = nat p.x.imag };
        y = record { real = nat p.y.real; imag = nat p.y.imag };
      }

  g2_to_complex_plain_lem :
      (s : L.G2) → Yields (g2_to_complex_plain g2_get_str s) (λ p. p ≡ coords s)
  unfolding g2_to_complex_plain g2_to_gfp g2_to_str
  g2_to_complex_plain_lem s =
      Yields-bind (Yields-index {P = λ v. v ≡ (coords s).x.real} _ 0 _ refl refl) (λ a ha.
        Yields-bind (Yields-index {P = λ v. v ≡ (coords s).x.imag} _ 1 _ refl refl) (λ b hb.
          Yields-bind (Yields-index {P = λ v. v ≡ (coords s).y.real} _ 2 _ refl refl) (λ c hc.
            Yields-bind (Yields-index {P = λ v. v ≡ (coords s).y.imag} _ 3 _ refl refl)
              (λ d hd. Yields-pure _ (affine_eq (complex_eq ha hb) (complex_eq hc hd))))))

  held-own : (i : ℕ) (s : Affine (Complex E.Clear)) → held i s i ≡ s
  held-own i s = rw (==_refl i) refl

  pub input_loop_lem :
      (n : ℕ) (b : ℕ → Bls) (msg : L.Message) (w : ℕ → L.Fr) (i rounds : ℕ)
      → ((j : ℕ) → j < i + rounds → get_lagrange_coeff n (j + 1) ≡ ok (w j))
      → Yields (input_loop g2_get_str n b msg i rounds) (λ ac.
        map point_of ac
        ≡ map coords (signatures (λ j. (sign_scale (b j) (w j) msg).sigma) i rounds))
  unfolding input_loop signed_point signatures
  input_loop_lem n b msg w i zero h = Yields-pure [] refl
  input_loop_lem n b msg w i (suc rounds) h =
      let sigma = (sign_scale (b i) (w i) msg).sigma in
      Yields-bind
        (Yields-bind (local-ok (w i) (h i (omega arith))) (λ c hc.
          Yields-weaken (g2_to_complex_plain_lem (sign_scale (b i) c msg).sigma)
            (λ p hp. hp ∙ ap (λ u. coords (sign_scale (b i) u msg).sigma) hc)))
        (λ s hs. Yields-bind (get_inputs_complex_lem i (λ j. (held i s j).x)) (λ x hx.
          Yields-bind (get_inputs_complex_lem i (λ j. (held i s j).y)) (λ y hy.
            Yields-bind (input_loop_lem n b msg w (suc i) rounds (λ j hj. h j (omega arith)))
              (λ rest hr.
                let e = held-own i s ∙ hs in
                Yields-pure _ (
                  ap₂ (λ p l. p ∷ l) (affine_eq (hx ∙ ap (λ p. p.x) e) (hy ∙ ap (λ p. p.y) e))
                    hr)))))

  -- The points that are added one after the other are on a curve, of different x at each step, and
  -- the addition of the library is that of their coordinates.
  unfoldable pub Summable : Complex E.Clear → L.G2 → List L.G2 → Type 0
  Summable c a [] = OnCurve ⦃F = g2⦄ c (coords a)
  Summable c a (p ∷ ps) =
      (norm (complex_ring.add (coords a).x (complex_ring.neg (coords p).x)) ≢ E.ring.zero)
      × OnCurve ⦃F = g2⦄ c (coords a)
      × OnCurve ⦃F = g2⦄ c (coords p)
      × IsSum ⦃F = g2⦄ (coords a) (coords p) (coords (add2 a p))
      × Summable c (add2 a p) ps

  pub add_loop_lem :
      MasksNonzero
      → (c : Complex E.Clear) (a : L.G2) (ps : List L.G2) (out : Affine (Complex E.Share))
        (ac : List (Affine (Complex E.Share)))
      → Summable c a ps
      → point_of out ≡ coords a
      → map point_of ac ≡ map coords ps
      → Yields (add_loop out ac) (λ r. point_of r ≡ coords (sum_all a ps))
  unfolding add_loop Summable sum_all
  add_loop_lem masks c a [] out [] h ha hs = Yields-pure out ha
  add_loop_lem masks c a [] out (x ∷ ac) h ha hs = absurd cc
  add_loop_lem masks c a (p ∷ ps) out [] h ha hs = absurd cc
  add_loop_lem masks c a (p ∷ ps) out (x ∷ ac) h ha hs =
      let hx : point_of x ≡ coords p = cc in
      let rest : map point_of ac ≡ map coords ps = cc in
      let e = ap₂ (λ u v. norm (complex_ring.add u.x (complex_ring.neg v.x))) ha hx in
      Yields-bind
        (g2_add_aff_inplace_lem masks c out x (λ k. h.0 (sym e ∙ k))
          (subst (OnCurve ⦃F = g2⦄ c) (sym ha) h.1) (subst (OnCurve ⦃F = g2⦄ c) (sym hx) h.2))
        (λ sum (on, is).
          let is' = subst (λ u. IsSum ⦃F = g2⦄ u (point_of x) (point_of sum)) ha is in
          let is'' = subst (λ u. IsSum ⦃F = g2⦄ (coords a) u (point_of sum)) hx is' in
          add_loop_lem masks c (add2 a p) ps sum ac h.4
            (IsSum-unique ⦃F = g2⦄ (coords a) (coords p) (point_of sum) (coords (add2 a p)) h.0 is''
              h.3)
            rest)
