-- ===== src/Poc/Powers.antt =====
-- The precomputed powers of the keys, and the hash that the online phase computes from them.
use proof_of_custody.Prelude.{
  ℕ, zero, suc, ◌+◌, ◌-◌, ◌<◌, ◌≤◌, ◌≡◌, refl, sym, ap, ap₂, ◌∙◌, some, List, [], ◌∷◌, ◌++◌, length,
  get_elem?, arith, length-map,
}
use mathlib.Core.List.{map-append}
use proof_of_custody.Ring.{◌⊕◌, ◌⊗◌, add-zero}
use proof_of_custody.Engine.{Engine}
use proof_of_custody.Engine.Program.{
  Yields, Yields-bind, Yields-pure, Yields-weaken, Yields-index, clear_ring,
}
use proof_of_custody.OnlineOp.Linear.{add_inplace, mul_plain}
use proof_of_custody.OnlineOp.Linear.Laws.{opened_all, mul_lem, opening}
use proof_of_custody.Poc.{extend, accumulate}

module _ {ℓ} {A : Type ℓ} where
  -- f i, f (i + 1), .., n of them.
  unfoldable pub tabulate : (ℕ → A) → ℕ → ℕ → List A
  tabulate f i zero = []
  tabulate f i (suc n) = f i ∷ tabulate f (suc i) n

  pub length-tabulate : (f : ℕ → A) (i n : ℕ) → length (tabulate f i n) ≡ n
  unfolding tabulate
  length-tabulate f i zero = refl
  length-tabulate f i (suc n) = ap suc (length-tabulate f (suc i) n)

  pub get_elem?-tabulate :
      (f : ℕ → A) (i n j : ℕ) → j < n → get_elem? (tabulate f i n) j ≡ some (f (i + j))
  unfolding tabulate
  get_elem?-tabulate f i zero j h = absurd (omega arith)
  get_elem?-tabulate f i (suc n) zero h = ap (λ k. some (f k)) (omega arith)
  get_elem?-tabulate f i (suc n) (suc j) h =
      get_elem?-tabulate f (suc i) n j (omega arith) ∙ ap (λ k. some (f k)) (omega arith)

  pub tabulate-snoc :
      (f : ℕ → A) (i n : ℕ) → tabulate f i n ++ f (i + n) ∷ [] ≡ tabulate f i (suc n)
  unfolding tabulate
  tabulate-snoc f i zero = ap (λ k. f k ∷ []) (omega arith)
  tabulate-snoc f i (suc n) =
      ap (◌∷◌ (f i))
        (ap (λ k. tabulate f (suc i) n ++ f k ∷ []) (omega arith) ∙ tabulate-snoc f (suc i) n)

module _ ⦃E : Engine⦄ where
  pub opened-get :
      (a : List E.Share) (i : ℕ) (x : E.Clear)
      → get_elem? (opened_all a) i ≡ some x
      → (v : E.Share) × (get_elem? a i ≡ some v) × (E.opened v ≡ x)
  opened-get [] i x e = cc
  opened-get (v ∷ a) zero x e = (v, refl, cc)
  opened-get (v ∷ a) (suc i) x e = opened-get a i x e

  -- Each power is the one d places earlier times the factor: so the loop builds a table.
  pub extend_lem :
      (d : ℕ) (factor : ℕ → E.Share) (f : ℕ → E.Clear)
      → 0 < d
      → ((i : ℕ) → d ≤ i → f (i - d) ⊗ E.opened (factor i) ≡ f i)
      → (n m : ℕ) (pre : List E.Share) → d ≤ m
      → opened_all pre ≡ tabulate f 0 m
      → Yields (extend d factor n pre) (λ r. opened_all r ≡ tabulate f 0 (m + n))
  unfolding extend
  extend_lem d factor f pos step zero m pre le h =
      Yields-pure pre (h ∙ ap (tabulate f 0) (omega arith))
  extend_lem d factor f pos step (suc n) m pre le h =
      let lp : length pre ≡ m =
        sym (length-map E.opened pre) ∙ ap length h ∙ length-tabulate f 0 m in
      let (v, p, q) =
        opened-get pre (m - d) (f (0 + (m - d)))
          (rw h (get_elem?-tabulate f 0 m (m - d) (omega arith))) in
      rw lp (
        Yields-bind
          (Yields-index {P = λ x. E.opened x ≡ f (m - d)} pre (m - d) v p (q ∙ ap f (omega arith)))
          (λ x hx. Yields-bind (mul_lem x (factor m)) (λ y hy.
            Yields-weaken
              (extend_lem d factor f pos step n (suc m) (pre ++ y ∷ []) (omega arith) (
                map-append E.opened pre (y ∷ [])
                ∙ ap₂ (λ l z. l ++ z ∷ []) h
                    (hy ∙ ap (λ u. u ⊗ E.opened (factor m)) hx ∙ step m le ∙ ap f (omega arith))
                ∙ tabulate-snoc f 0 m))
              (λ r hr. hr ∙ ap (tabulate f 0) (omega arith)))))

  -- The sum of the products of two lists.
  unfoldable pub dot : List E.Clear → List E.Clear → E.Clear
  dot (x ∷ xs) (y ∷ ys) = x ⊗ y ⊕ dot xs ys
  dot _ _ = E.ring.zero

  pub accumulate_lem :
      (out : E.Share) (pre : List E.Share) (ms : List E.Clear)
      → length ms ≤ length pre
      → Yields (accumulate out pre ms) (λ c. E.opened c ≡ E.opened out ⊕ dot (opened_all pre) ms)
  unfolding accumulate dot
  accumulate_lem out [] [] h = Yields-pure out (sym (add-zero _))
  accumulate_lem out (p ∷ pre) [] h = Yields-pure out (sym (add-zero _))
  accumulate_lem out [] (m ∷ ms) h = absurd (omega arith)
  accumulate_lem out (p ∷ pre) (m ∷ ms) h =
      Yields-weaken (accumulate_lem (add_inplace out (mul_plain p m)) pre ms (omega arith))
        (λ c hc. hc ∙ simp opening (E.ring.add_assoc _ _ _))
