-- ===== src/OnlineOp/Adder/Laws.antt =====
-- add_bit adds the numbers that its bits stand for, from two bits on; on one bit its carry is lost.
use proof_of_custody.Prelude.{
  ℕ, ◌+◌, ◌≤◌, ◌≡◌, refl, sym, ap, ap₂, ◌∙◌, Bool, true, false, xor, ◌&&◌, ◌||◌, List, [], ◌∷◌, map,
  length, arith, ◌==◌, ==_refl,
}
use proof_of_custody.Engine.{Engine}
use proof_of_custody.Engine.Program.{
  bit, Yields, Yields-bind, Yields-pure, Yields-weaken, Yields-guard, clear_ring, invalid_length,
}
use proof_of_custody.Bitwise.{value, majority, ripple}
use proof_of_custody.Bitwise.Numbers.{value-ripple, length-ripple}
use proof_of_custody.OnlineOp.Linear.Laws.{opened_all}
use proof_of_custody.OnlineOp.Bits.{xor_inplace, or_inplace, and_inplace}
use proof_of_custody.OnlineOp.Bits.Laws.{
  Reads, ReadsAll, ReadsAll-length, xor_shares_lem, or_shares_lem, and_shares_lem, xor_plain_lem,
  and_plain_lem,
}
use proof_of_custody.OnlineOp.Folds.Laws.{Yields-get}
use proof_of_custody.OnlineOp.Adder.{
  carry_sum, carry_sum_plain, add_bit_loop, add_bit, add_bit_plain_loop,
}

module _ ⦃E : Engine⦄ where
  -- The carry and the sum of three bits.
  pub carry_sum_lem :
      {x y z : E.Share} (a b c : Bool)
      → Reads x a
      → Reads y b
      → Reads z c
      → Yields (carry_sum x y z) (λ r. Reads r.0 (majority a b c) × Reads r.1 (xor (xor a b) c))
  unfolding carry_sum xor_inplace and_inplace
  carry_sum_lem a b c hx hy hz = Yields-bind (xor_shares_lem a b hx hy) (λ s hs.
      Yields-bind (xor_shares_lem (xor a b) c hs hz) (λ s' hs'.
        Yields-bind (xor_shares_lem a c hx hz) (λ t ht.
          Yields-bind (xor_shares_lem b c hy hz) (λ u hu.
            Yields-bind (and_shares_lem (xor b c) (xor a c) hu ht) (λ v hv.
              Yields-bind (xor_shares_lem _ c hv hz)
                (λ w hw. Yields-pure (w, s') (hw ∙ ap bit (carry a b c), hs')))))))
    where
      carry : (a b c : Bool) → xor (xor b c && xor a c) c ≡ majority a b c
      carry a b c = unfold xor majority in ground arith

  pub carry_sum_plain_lem :
      {x z : E.Share} (a b c : Bool)
      → Reads x a
      → Reads z c
      → Yields
          (carry_sum_plain x (bit b) z)
          (λ r. Reads r.0 (majority a b c) × Reads r.1 (xor (xor a b) c))
  unfolding carry_sum_plain xor_inplace and_inplace or_inplace
  carry_sum_plain_lem a b c hx hz =
      Yields-bind (xor_shares_lem (xor a b) c (xor_plain_lem a b hx) hz) (λ s hs.
        Yields-bind (and_shares_lem (xor a b) c (xor_plain_lem a b hx) hz) (λ t ht.
          Yields-bind (or_shares_lem (a && b) (xor a b && c) (and_plain_lem a b hx) ht)
            (λ v hv. Yields-pure (v, s) (hv ∙ ap bit (carry a b c), hs))))
    where
      carry : (a b c : Bool) → ((a && b) || (xor a b && c)) ≡ majority a b c
      carry a b c = unfold xor majority in ground arith

  add_bit_loop_lem :
      (z o : E.Share) (c : Bool) (a b : List E.Share) (xs ys : List Bool)
      → Reads z c
      → Reads o c
      → ReadsAll a xs
      → ReadsAll b ys
      → length xs ≡ length ys
      → Yields (add_bit_loop z o a b) (λ r. ReadsAll r (ripple c xs ys))
  unfolding add_bit_loop ripple
  add_bit_loop_lem z o c [] b [] ys hz ho ha hb e = Yields-pure (o ∷ []) (ap (λ v. v ∷ []) ho)
  add_bit_loop_lem z o c [] b (x ∷ xs) ys hz ho ha hb e = cc
  add_bit_loop_lem z o c (u ∷ a) b [] ys hz ho ha hb e = cc
  add_bit_loop_lem z o c (u ∷ a) [] (x ∷ xs) [] hz ho ha hb e = absurd (omega arith)
  add_bit_loop_lem z o c (u ∷ a) [] (x ∷ xs) (y ∷ ys) hz ho ha hb e = cc
  add_bit_loop_lem z o c (u ∷ a) (v ∷ b) (x ∷ xs) [] hz ho ha hb e = cc
  add_bit_loop_lem z o c (u ∷ a) (v ∷ b) (x ∷ xs) (y ∷ ys) hz ho ha hb e =
      Yields-bind (carry_sum_lem x y c (cc) (cc) hz) (λ r hr.
        Yields-bind
          (add_bit_loop_lem r.0 r.0 (majority x y c) a b xs ys hr.0 hr.0 (cc) (cc) (omega arith))
          (λ rest h. Yields-pure (r.1 ∷ rest) (ap₂ ◌∷◌ hr.1 h)))

  add_bit_plain_loop_lem :
      (z o : E.Share) (c : Bool) (a : List E.Share) (xs ys : List Bool)
      → Reads z c
      → Reads o c
      → ReadsAll a xs
      → length xs ≡ length ys
      → Yields (add_bit_plain_loop z o a (map bit ys)) (λ r. ReadsAll r (ripple c xs ys))
  unfolding add_bit_plain_loop ripple
  add_bit_plain_loop_lem z o c [] [] ys hz ho ha e = Yields-pure (o ∷ []) (ap (λ v. v ∷ []) ho)
  add_bit_plain_loop_lem z o c [] (x ∷ xs) ys hz ho ha e = cc
  add_bit_plain_loop_lem z o c (u ∷ a) [] ys hz ho ha e = cc
  add_bit_plain_loop_lem z o c (u ∷ a) (x ∷ xs) [] hz ho ha e = absurd (omega arith)
  add_bit_plain_loop_lem z o c (u ∷ a) (x ∷ xs) (y ∷ ys) hz ho ha e =
      Yields-bind (carry_sum_plain_lem x y c (cc) hz) (λ r hr.
        Yields-bind
          (add_bit_plain_loop_lem r.0 r.0 (majority x y c) a xs ys hr.0 hr.0 (cc) (omega arith))
          (λ rest h. Yields-pure (r.1 ∷ rest) (ap₂ ◌∷◌ hr.1 h)))

  xor_first : (x y : Bool) → xor x y ≡ xor (xor x y) false
  unfolding xor
  xor_first true true = refl
  xor_first true false = refl
  xor_first false true = refl
  xor_first false false = refl

  and_first : (x y : Bool) → (x && y) ≡ majority x y false
  unfolding majority
  and_first true true = refl
  and_first true false = refl
  and_first false true = refl
  and_first false false = refl

  same_lengths : {n m : ℕ} → n ≡ m → (n == m) ≡ true
  same_lengths {n} {m} e = rw e (==_refl m)

  pub add_bit-ripple :
      (a b : List E.Share) (xs ys : List Bool)
      → ReadsAll a xs
      → ReadsAll b ys
      → length xs ≡ length ys
      → 2 ≤ length xs
      → Yields (add_bit a b) (λ r. ReadsAll r (ripple false xs ys))
  unfolding add_bit add_bit_loop ripple
  add_bit-ripple a b [] ys ha hb e le = absurd (omega arith)
  add_bit-ripple a b (x ∷ []) ys ha hb e le = absurd (omega arith)
  add_bit-ripple a b (x ∷ x' ∷ xs) [] ha hb e le = absurd (omega arith)
  add_bit-ripple a b (x ∷ x' ∷ xs) (y ∷ []) ha hb e le = absurd (omega arith)
  add_bit-ripple [] b (x ∷ x' ∷ xs) (y ∷ y' ∷ ys) ha hb e le = cc
  add_bit-ripple (u ∷ []) b (x ∷ x' ∷ xs) (y ∷ y' ∷ ys) ha hb e le = cc
  add_bit-ripple (u ∷ u' ∷ a) [] (x ∷ x' ∷ xs) (y ∷ y' ∷ ys) ha hb e le = cc
  add_bit-ripple (u ∷ u' ∷ a) (v ∷ []) (x ∷ x' ∷ xs) (y ∷ y' ∷ ys) ha hb e le = cc
  add_bit-ripple (u ∷ u' ∷ a) (v ∷ v' ∷ b) (x ∷ x' ∷ xs) (y ∷ y' ∷ ys) ha hb e le =
      Yields-guard invalid_length
        (same_lengths (
          ReadsAll-length (u ∷ u' ∷ a) (x ∷ x' ∷ xs) ha
          ∙ e
          ∙ sym (ReadsAll-length (v ∷ v' ∷ b) (y ∷ y' ∷ ys) hb)))
        (Yields-bind (Yields-get _ (x ∷ x' ∷ xs) 0 x ha refl) (λ p hp.
          Yields-bind (Yields-get _ (y ∷ y' ∷ ys) 0 y hb refl) (λ q hq.
            Yields-bind (and_shares_lem x y hp hq) (λ c hc.
              Yields-bind (xor_shares_lem x y hp hq) (λ c0 h0.
                Yields-bind
                  (Yields-bind
                    (carry_sum_lem x' y' (majority x y false) (cc) (cc)
                      (hc ∙ ap bit (and_first x y)))
                    (λ r hr.
                      Yields-bind
                        (add_bit_loop_lem r.0 r.0 _ a b xs ys hr.0 hr.0 (cc) (cc) (omega arith))
                        (λ rest h. Yields-pure (r.1 ∷ rest) (ap₂ ◌∷◌ hr.1 h))))
                  (λ rest h. Yields-pure (c0 ∷ rest) (ap₂ ◌∷◌ (h0 ∙ ap bit (xor_first x y)) h)))))))

  -- From two bits on, add_bit returns the bits of the sum, one more than the operands have.
  pub add_bit_lem :
      (a b : List E.Share) (xs ys : List Bool)
      → ReadsAll a xs
      → ReadsAll b ys
      → length xs ≡ length ys
      → 2 ≤ length xs
      → Yields (add_bit a b) (λ r.
        (zs : List Bool) × ReadsAll r zs
        × (value zs ≡ value xs + value ys)
        × (length zs ≡ length xs + 1))
  add_bit_lem a b xs ys ha hb e le = Yields-weaken (add_bit-ripple a b xs ys ha hb e le) (λ r h. (
    ripple false xs ys,
    h,
    omega (arith, value-ripple false xs ys e),
    omega (arith, length-ripple false xs ys e),
  ))

  -- On one bit the last item is the default share, whatever the bits: the carry is lost.
  pub add_bit_one :
      (u v : E.Share) (x y : Bool)
      → Reads u x
      → Reads v y
      → Yields
          (add_bit (u ∷ []) (v ∷ []))
          (λ r. opened_all r ≡ bit (xor x y) ∷ E.opened E.fresh ∷ [])
  unfolding add_bit add_bit_loop
  add_bit_one u v x y hu hv = Yields-guard invalid_length refl (
      Yields-bind (Yields-get (u ∷ []) (x ∷ []) 0 x (ap (λ w. w ∷ []) hu) refl) (λ p hp.
        Yields-bind (Yields-get (v ∷ []) (y ∷ []) 0 y (ap (λ w. w ∷ []) hv) refl) (λ q hq.
          Yields-bind (and_shares_lem x y hp hq) (λ c hc.
            Yields-bind (xor_shares_lem x y hp hq) (λ c0 h0.
              Yields-bind {P = λ rest. rest ≡ E.fresh ∷ []} (Yields-pure _ refl)
                (λ rest h. Yields-pure (c0 ∷ rest) (ap₂ ◌∷◌ h0 (ap opened_all h))))))))
