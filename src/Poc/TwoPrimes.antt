-- ===== src/Poc/TwoPrimes.antt =====
-- The offline phase of two primes: the powers of three keys.
use proof_of_custody.Prelude.{
  ℕ, zero, suc, ◌-◌, ◌%◌, ◌≤◌, ◌≡◌, refl, ap, ap₂, ◌∙◌, Bool, true, false, [], ◌∷◌, ◌==◌, ==_refl,
  if◌then◌else◌, arith,
}
use proof_of_custody.Ring.{◌⊗◌, pow}
use proof_of_custody.Ring.Solver.{ring_eq, same_poly, var, ◌:*◌, one_expr}
use proof_of_custody.Engine.{Engine}
use proof_of_custody.Engine.Program.{
  Yields, Yields-bind, Yields-weaken, Yields-guard, Yields-index, clear_ring, bad_value,
}
use proof_of_custody.OnlineOp.Linear.Laws.{opened_all, mul_inplace_lem}
use proof_of_custody.OnlineOp.Products.Laws.{sqr_lem}
use proof_of_custody.Poc.{chunk_num, extend, custody_bit_offline_2primes}
use proof_of_custody.Poc.Powers.{tabulate, extend_lem}
use proof_of_custody.Poc.Custody.{chunk_num_le}

module _ ⦃E : Engine⦄ where
  -- s1, s2^2, s0^3, s1^4, ..: the keys in turn, at the power i + 1.
  unfoldable pub key_power3 : E.Clear → E.Clear → E.Clear → ℕ → E.Clear
  key_power3 k0 k1 k2 i = pow (if i % 3 == 0 then k1 else if i % 3 == 1 then k2 else k0) (suc i)

  key_power3-step :
      (k0 k1 k2 x0 x1 x2 : E.Clear) (i : ℕ)
      → 3 ≤ i
      → x0 ≡ k0 ⊗ k0 ⊗ k0
      → x1 ≡ k1 ⊗ k1 ⊗ k1
      → x2 ≡ k2 ⊗ k2 ⊗ k2
      → key_power3 k0 k1 k2 (i - 3) ⊗ (if i % 3 == 0 then x1 else if i % 3 == 1 then x2 else x0)
        ≡ key_power3 k0 k1 k2 i
  unfolding key_power3
  key_power3-step k0 k1 k2 x0 x1 x2 zero h e0 e1 e2 = absurd (omega arith)
  key_power3-step k0 k1 k2 x0 x1 x2 (suc zero) h e0 e1 e2 = absurd (omega arith)
  key_power3-step k0 k1 k2 x0 x1 x2 (suc (suc zero)) h e0 e1 e2 = absurd (omega arith)
  key_power3-step k0 k1 k2 x0 x1 x2 (suc (suc (suc i))) h e0 e1 e2 =
      let p : suc (suc (suc i)) % 3 ≡ i % 3 = omega arith in
      let q : suc (suc (suc i)) - 3 ≡ i = omega arith in
      rw (p, q) (by_remainder (i % 3 == 0) (i % 3 == 1))
    where
      three_more :
          (k x : E.Clear) → x ≡ k ⊗ k ⊗ k → pow k (suc i) ⊗ x ≡ pow k (suc (suc (suc (suc i))))
      three_more k x e =
          unfold pow same_poly in
          ap (λ v. k ⊗ pow k i ⊗ v) e
          ∙ ring_eq (k ∷ pow k i ∷ []) ((var 0 :* var 1) :* (var 0 :* var 0 :* var 0))
              (var 0 :* (var 0 :* (var 0 :* (var 0 :* var 1)))) refl

      by_remainder :
          (b c : Bool)
          → pow (if b then k1 else if c then k2 else k0) (suc i)
              ⊗ (if b then x1 else if c then x2 else x0)
            ≡ pow (if b then k1 else if c then k2 else k0) (suc (suc (suc (suc i))))
      by_remainder true c = three_more k1 x1 e1
      by_remainder false true = three_more k2 x2 e2
      by_remainder false false = three_more k0 x0 e0

  -- The offline phase of two primes stores the powers of the three keys in turn.
  pub custody_bit_offline_2primes_lem :
      (s0 s1 s2 : E.Share)
      → Yields (custody_bit_offline_2primes (s0 ∷ s1 ∷ s2 ∷ [])) (λ pre.
        opened_all pre
        ≡ tabulate (key_power3 (E.opened s0) (E.opened s1) (E.opened s2)) 0 chunk_num)
  unfolding custody_bit_offline_2primes
  custody_bit_offline_2primes_lem s0 s1 s2 =
      let f = key_power3 (E.opened s0) (E.opened s1) (E.opened s2) in
      Yields-guard bad_value (==_refl 3) (
        Yields-bind (Yields-index {P = λ v. v ≡ s0} _ 0 s0 refl refl) (λ a0 e0.
          Yields-bind (Yields-index {P = λ v. v ≡ s1} _ 1 s1 refl refl) (λ a1 e1.
            Yields-bind (Yields-index {P = λ v. v ≡ s2} _ 2 s2 refl refl) (λ a2 e2.
              rw (e0, e1, e2)
                (Yields-bind (sqr_lem s0) (λ q0 h0. Yields-bind (mul_inplace_lem q0 s0) (λ c0 g0.
                  Yields-bind (sqr_lem s1) (λ q1 h1. Yields-bind (mul_inplace_lem q1 s1) (λ c1 g1.
                    Yields-bind (sqr_lem s2) (λ q2 h2. Yields-bind (mul_inplace_lem q2 s2) (λ c2 g2.
                      table c0 c1 c2 q2 (times g0 h0) (times g1 h1) (times g2 h2) h2)))))))))))
    where
      times : {k q c : E.Clear} → c ≡ q ⊗ k → q ≡ k ⊗ k → c ≡ k ⊗ k ⊗ k
      times {k} g h = g ∙ ap (λ v. v ⊗ k) h

      opened-if :
          (b c : Bool) (x y z : E.Share)
          → E.opened (if b then x else if c then y else z)
            ≡ (if b then E.opened x else if c then E.opened y else E.opened z)
      opened-if true c x y z = refl
      opened-if false true x y z = refl
      opened-if false false x y z = refl

      start :
          (k0 k1 k2 x y : E.Clear)
          → x ≡ k2 ⊗ k2
          → y ≡ k0 ⊗ k0 ⊗ k0
          → k1 ∷ x ∷ y ∷ [] ≡ tabulate (key_power3 k0 k1 k2) 0 3
      start k0 k1 k2 x y e g =
          unfold tabulate key_power3 pow same_poly in
          ap (λ u. u ∷ x ∷ y ∷ []) (ring_eq (k1 ∷ []) (var 0) (var 0 :* one_expr) refl)
          ∙ ap₂ (λ l v. k1 ⊗ E.ring.one ∷ l ∷ v ∷ [])
              (e ∙ ring_eq (k2 ∷ []) (var 0 :* var 0) (var 0 :* (var 0 :* one_expr)) refl)
              (g
                ∙ ring_eq (k0 ∷ []) (var 0 :* var 0 :* var 0)
                    (var 0 :* (var 0 :* (var 0 :* one_expr))) refl)

      table :
          (c0 c1 c2 q2 : E.Share)
          → E.opened c0 ≡ E.opened s0 ⊗ E.opened s0 ⊗ E.opened s0
          → E.opened c1 ≡ E.opened s1 ⊗ E.opened s1 ⊗ E.opened s1
          → E.opened c2 ≡ E.opened s2 ⊗ E.opened s2 ⊗ E.opened s2
          → E.opened q2 ≡ E.opened s2 ⊗ E.opened s2
          → Yields
              (extend 3
                (λ i. if i % 3 == 0 then c1 else if i % 3 == 1 then c2 else c0)
                (chunk_num - 3)
                (s1 ∷ q2 ∷ c0 ∷ []))
              (λ pre.
                opened_all pre
                ≡ tabulate (key_power3 (E.opened s0) (E.opened s1) (E.opened s2)) 0 chunk_num)
      table c0 c1 c2 q2 h0 h1 h2 hq =
          Yields-weaken
            (extend_lem 3 _ (key_power3 (E.opened s0) (E.opened s1) (E.opened s2)) (omega arith)
              (λ i le.
                ap (λ u. key_power3 (E.opened s0) (E.opened s1) (E.opened s2) (i - 3) ⊗ u)
                  (opened-if (i % 3 == 0) (i % 3 == 1) c1 c2 c0)
                ∙ key_power3-step _ _ _ (E.opened c0) (E.opened c1) (E.opened c2) i le h0 h1 h2)
              (chunk_num - 3) 3 (s1 ∷ q2 ∷ c0 ∷ []) (omega arith)
              (start (E.opened s0) (E.opened s1) (E.opened s2) _ _ hq h0))
            (λ r hr. let le = chunk_num_le in hr ∙ ap (tabulate _ 0) (omega arith))
