-- ===== src/Poc/Custody.antt =====
-- The custody bit of one prime: what the offline phase stores, what the online phase computes
-- from it, and when a phase refuses its input.
use proof_of_custody.Prelude.{
  ℕ, zero, suc, ◌-◌, ◌%◌, ◌≤◌, ◌≡◌, refl, sym, ap, ap₂, ◌∙◌, Bool, true, false, some, List, [], ◌∷◌,
  length, get_elem?, ◌==◌, ==_refl, if◌then◌else◌, arith, length-map,
}
use proof_of_custody.Ring.{◌⊕◌, ◌⊗◌, pow}
use proof_of_custody.Ring.Solver.{ring_eq, same_poly, var, ◌:+◌, ◌:*◌, one_expr}
use proof_of_custody.Engine.{Engine}
use proof_of_custody.Engine.Program.{
  Yields, Yields-bind, Yields-pure, Yields-weaken, Yields-guard, Yields-index, clear_ring,
  invalid_length,
}
use proof_of_custody.OnlineOp.Linear.Laws.{opened_all, opening}
use proof_of_custody.OnlineOp.Products.Laws.{sqr_lem}
use proof_of_custody.Poc.{chunk_num, custody_bit_offline, online_hash}
use proof_of_custody.Poc.Powers.{
  tabulate, length-tabulate, get_elem?-tabulate, opened-get, extend_lem, dot, accumulate_lem,
}

pub chunk_num_le : 3 ≤ chunk_num
unfolding chunk_num
chunk_num_le = omega arith

module _ ⦃E : Engine⦄ where
  -- s1, s0^2, s1^3, s0^4, ..: the keys in turn, at the power i + 1.
  unfoldable pub key_power : E.Clear → E.Clear → ℕ → E.Clear
  key_power k0 k1 i = pow (if i % 2 == 0 then k1 else k0) (suc i)

  key_power-step :
      (k0 k1 x0 x1 : E.Clear) (i : ℕ)
      → 2 ≤ i
      → x0 ≡ k0 ⊗ k0
      → x1 ≡ k1 ⊗ k1
      → key_power k0 k1 (i - 2) ⊗ (if i % 2 == 0 then x1 else x0) ≡ key_power k0 k1 i
  unfolding key_power
  key_power-step k0 k1 x0 x1 zero h e0 e1 = absurd (omega arith)
  key_power-step k0 k1 x0 x1 (suc zero) h e0 e1 = absurd (omega arith)
  key_power-step k0 k1 x0 x1 (suc (suc i)) h e0 e1 =
      let p : suc (suc i) % 2 ≡ i % 2 = omega arith in
      let q : suc (suc i) - 2 ≡ i = omega arith in rw (p, q) (by_parity (i % 2 == 0))
    where
      two_more : (k x : E.Clear) → x ≡ k ⊗ k → pow k (suc i) ⊗ x ≡ pow k (suc (suc (suc i)))
      two_more k x e =
          unfold pow same_poly in
          ap (λ v. k ⊗ pow k i ⊗ v) e
          ∙ ring_eq (k ∷ pow k i ∷ []) ((var 0 :* var 1) :* (var 0 :* var 0))
              (var 0 :* (var 0 :* (var 0 :* var 1))) refl

      by_parity :
          (b : Bool)
          → pow (if b then k1 else k0) (suc i) ⊗ (if b then x1 else x0)
            ≡ pow (if b then k1 else k0) (suc (suc (suc i)))
      by_parity true = two_more k1 x1 e1
      by_parity false = two_more k0 x0 e0

  -- The offline phase stores the alternating powers of the two keys, for every place.
  pub custody_bit_offline_lem :
      (s0 s1 : E.Share)
      → Yields
          (custody_bit_offline (s0 ∷ s1 ∷ []))
          (λ pre. opened_all pre ≡ tabulate (key_power (E.opened s0) (E.opened s1)) 0 chunk_num)
  unfolding custody_bit_offline
  custody_bit_offline_lem s0 s1 = Yields-guard invalid_length (==_refl 2) (
      Yields-bind (Yields-index {P = λ v. v ≡ s0} _ 0 s0 refl refl) (λ v hv.
        Yields-bind (Yields-index {P = λ v. v ≡ s1} _ 1 s1 refl refl) (λ w hw.
          Yields-bind (sqr_lem v) (λ x0 h0. Yields-bind (sqr_lem w) (λ x1 h1.
            Yields-weaken
              (extend_lem 2 _ (key_power (E.opened s0) (E.opened s1)) (omega arith)
                (λ i le.
                  ap (λ u. key_power (E.opened s0) (E.opened s1) (i - 2) ⊗ u)
                    (opened-if (i % 2 == 0) x1 x0)
                  ∙ key_power-step _ _ (E.opened x0) (E.opened x1) i le (rw (sym hv) h0)
                      (rw (sym hw) h1))
                (chunk_num - 2) 2 (w ∷ x0 ∷ []) (omega arith)
                (rw hw (start (E.opened s0) (E.opened s1) (E.opened x0) (rw (sym hv) h0))))
              (λ r hr. let le = chunk_num_le in hr ∙ ap (tabulate _ 0) (omega arith)))))))
    where
      opened-if :
          (b : Bool) (x y : E.Share)
          → E.opened (if b then x else y) ≡ (if b then E.opened x else E.opened y)
      opened-if true x y = refl
      opened-if false x y = refl

      start : (k0 k1 x : E.Clear) → x ≡ k0 ⊗ k0 → k1 ∷ x ∷ [] ≡ tabulate (key_power k0 k1) 0 2
      start k0 k1 x e =
          unfold tabulate key_power pow same_poly in
          ap₂ (λ u v. u ∷ v ∷ []) (ring_eq (k1 ∷ []) (var 0) (var 0 :* one_expr) refl)
            (e ∙ ring_eq (k0 ∷ []) (var 0 :* var 0) (var 0 :* (var 0 :* one_expr)) refl)

  -- f i m0 + f (i + 1) m1 + ..
  unfoldable pub weighted : (ℕ → E.Clear) → ℕ → List E.Clear → E.Clear
  weighted f i [] = E.ring.zero
  weighted f i (m ∷ ms) = f i ⊗ m ⊕ weighted f (suc i) ms

  -- m0 + f 0 m1 + f 1 m2 + .. + f (n - 1), for n chunks.
  unfoldable pub hash_value : (ℕ → E.Clear) → List E.Clear → E.Clear
  hash_value f [] = E.ring.zero
  hash_value f (m ∷ ms) = (m ⊕ weighted f 0 ms) ⊕ f (length ms)

  dot-tabulate :
      (f : ℕ → E.Clear) (n i : ℕ) (ms : List E.Clear)
      → length ms ≤ n
      → dot (tabulate f i n) ms ≡ weighted f i ms
  unfolding dot tabulate weighted
  dot-tabulate f zero i [] h = refl
  dot-tabulate f zero i (m ∷ ms) h = absurd (omega arith)
  dot-tabulate f (suc n) i [] h = refl
  dot-tabulate f (suc n) i (m ∷ ms) h =
      ap (λ v. f i ⊗ m ⊕ v) (dot-tabulate f n (suc i) ms (omega arith))

  -- With a table of the weights, the online phase computes the weighted sum of the message.
  pub online_hash_lem :
      (f : ℕ → E.Clear) (pre : List E.Share) (m0 m1 : E.Clear) (ms : List E.Clear)
      → opened_all pre ≡ tabulate f 0 (suc (suc (length ms)))
      → Yields (online_hash pre (m0 ∷ m1 ∷ ms)) (λ c. E.opened c ≡ hash_value f (m0 ∷ m1 ∷ ms))
  unfolding online_hash
  online_hash_lem f [] m0 m1 ms h =
      absurd
        (let e : 0 ≡ suc (suc (length ms)) = ap length h ∙ length-tabulate f 0 _ in omega arith)
  online_hash_lem f (p ∷ pre) m0 m1 ms h =
      let n = suc (length ms) in
      let lp : length pre ≡ n =
        let e = ap length h ∙ length-tabulate f 0 (suc n) in
        let e' = length-map E.opened (p ∷ pre) in omega arith in
      let (hp, ht) = parts h in
      let ix : suc (length pre) - 1 ≡ n = omega arith in
      let (v, hv, e) = opened-get (p ∷ pre) n (f n) (
        rw h
          (get_elem?-tabulate f 0 (suc n) n (omega arith) ∙ ap (λ k. some (f k)) (omega arith))) in
      Yields-bind (Yields-index {P = λ x. x ≡ p} (p ∷ pre) 0 p refl refl) (λ p0 e0.
        Yields-bind (Yields-index {P = λ x. x ≡ m1} (m0 ∷ m1 ∷ ms) 1 m1 refl refl) (λ x1 e1.
          Yields-bind (Yields-index {P = λ x. x ≡ m0} (m0 ∷ m1 ∷ ms) 0 m0 refl refl) (λ x0 e2.
            Yields-bind (accumulate_lem _ pre ms (omega arith)) (λ c hc.
              Yields-bind
                (Yields-index {P = λ x. E.opened x ≡ f n} (p ∷ pre) (suc (length pre) - 1) v
                  (ap (get_elem? (p ∷ pre)) ix ∙ hv) e)
                (λ back hb. Yields-pure _ (
                  simp opening (
                    ap₂ (λ s t. s ⊕ t)
                      (hc
                        ∙ simp opening (
                            ap₂ (λ s t. s ⊕ t)
                              (ap₂ (λ s t. s ⊕ t) (ap₂ (λ s t. s ⊗ t) (ap E.opened e0 ∙ hp) e1) e2)
                              (ap (λ l. dot l ms) ht ∙ dot-tabulate f n 1 ms (omega arith))))
                      hb
                    ∙ regroup)))))))
    where
      parts :
          opened_all (p ∷ pre) ≡ tabulate f 0 (suc (suc (length ms)))
          → (E.opened p ≡ f 0) × (opened_all pre ≡ tabulate f 1 (suc (length ms)))
      parts h = unfold tabulate in (cc, cc)

      regroup :
          ((f 0 ⊗ m1 ⊕ m0) ⊕ weighted f 1 ms) ⊕ f (suc (length ms)) ≡ hash_value f (m0 ∷ m1 ∷ ms)
      regroup =
          unfold hash_value weighted same_poly in
          ring_eq (f 0 ∷ m0 ∷ m1 ∷ weighted f 1 ms ∷ f (suc (length ms)) ∷ [])
            (((var 0 :* var 2 :+ var 1) :+ var 3) :+ var 4)
            ((var 1 :+ (var 0 :* var 2 :+ var 3)) :+ var 4) refl
