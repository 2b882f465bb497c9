-- ===== src/OnlineOp/Folds/Laws.antt =====
-- KXOR and KOR compute the fold of their bits, and prefix_OR all prefix disjunctions, for every
-- length but 0, where the source recurs without end.
use mathlib.Core.Bool.{or_assoc}
use mathlib.Core.List.{map-append, append-nil}
use proof_of_custody.Prelude.{
  ℕ, zero, suc, ◌+◌, ◌-◌, ◌/◌, ◌%◌, ◌<◌, ◌≤◌, ◌≡◌, refl, sym, ap, ap₂, ◌∙◌, Bool, true, false, xor,
  ◌||◌, some, List, [], ◌∷◌, ◌++◌, map, length, get_elem?, take, drop, replicate, zip_with, ◌==◌,
  ==_refl, ==_iff, Bool-cases, inl, inr, arith, length-append, length-zip_with, length-take,
  length-drop, length-replicate, take-append-drop,
}
use proof_of_custody.Engine.{Engine}
use proof_of_custody.Engine.Program.{
  M, bit, Yields, Yields-bind, Yields-pure, Yields-weaken, Yields-guard, Yields-index, Fails,
  Fails-throw, Fails-after, Yields-guard-true, clear_ring, invalid_length, out_of_fuel, index, pure,
  ◌>>=◌,
}
use proof_of_custody.Bitwise.{any, combined, prefix_any}
use proof_of_custody.Bitwise.Folds.{
  evens, odds, leftover, length-evens, length-odds, leftover_even, leftover_odd, map-evens,
  map-odds, combined_pairs, prefix_any-append, prefix_any-replicate, prefix_or_last,
  length-prefix_any,
}
use proof_of_custody.OnlineOp.Linear.Laws.{opened_all}
use proof_of_custody.OnlineOp.Bits.{xor_inplace_vec, or_inplace_vec}
use proof_of_custody.OnlineOp.Bits.Laws.{
  Reads, ReadsAll, ReadsAll-length, Operands, xor_inplace_vec_lem, or_inplace_vec_lem,
}
use proof_of_custody.OnlineOp.Folds.{halving, kxor, kor, prefix_or}

module _ ⦃E : Engine⦄ where
  pub ReadsAll-get :
      (a : List E.Share) (xs : List Bool) (i : ℕ) (x : Bool)
      → ReadsAll a xs
      → get_elem? xs i ≡ some x
      → (v : E.Share) × (get_elem? a i ≡ some v) × Reads v x
  ReadsAll-get [] [] i x h e = cc
  ReadsAll-get [] (y ∷ xs) i x h e = cc
  ReadsAll-get (v ∷ a) [] i x h e = cc
  ReadsAll-get (v ∷ a) (y ∷ xs) zero x h e = (v, refl, cc)
  ReadsAll-get (v ∷ a) (y ∷ xs) (suc i) x h e = ReadsAll-get a xs i x (cc) e

  pub ReadsAll-append :
      (a b : List E.Share) (xs ys : List Bool)
      → ReadsAll a xs
      → ReadsAll b ys
      → ReadsAll (a ++ b) (xs ++ ys)
  ReadsAll-append a b xs ys h k =
      map-append E.opened a b ∙ ap₂ ◌++◌ h k ∙ sym (map-append bit xs ys)

  -- Reading one item of a vector of bits.
  pub Yields-get :
      (a : List E.Share) (xs : List Bool) (i : ℕ) (x : Bool)
      → ReadsAll a xs
      → get_elem? xs i ≡ some x
      → Yields (index a i) (λ c. Reads c x)
  Yields-get a xs i x h e = let (v, p, q) = ReadsAll-get a xs i x h e in Yields-index a i v p q

  module _ (op : List E.Share → List E.Share → ℕ → M (List E.Share)) (f : Bool → Bool → Bool)
      (op_lem : (a b : List E.Share) (xs ys : List Bool) (k : ℕ)
        → Operands a b xs ys k
        → Yields (op a b k) (λ c. ReadsAll c (zip_with f xs ys)))
      (assoc : (x y z : Bool) → f (f x y) z ≡ f x (f y z)) where
    halving_lem :
        (fuel k : ℕ) (a : List E.Share) (xs : List Bool)
        → ReadsAll a xs
        → length xs ≡ k
        → 0 < k
        → k ≤ fuel
        → Yields (halving op fuel a k) (λ c. Reads c (combined f xs))
    unfolding halving
    halving_lem zero k a xs h e pos le = absurd (omega arith)
    halving_lem (suc fuel) k a xs h e pos le =
        Yields-guard invalid_length (rw (ReadsAll-length a xs h, e) (==_refl k))
          (elim (Bool-cases (k == 1)) [
            | inl one ↦ rw one (single xs h (e ∙ (==_iff k 1).0 one))
            | inr more ↦ rw more (
                let k2 : 2 ≤ k = ground arith in
                let half : length (zip_with f (evens xs) (odds xs)) ≡ k / 2 = halves xs e in
                Yields-bind (op_lem (evens a) (odds a) (evens xs) (odds xs) (k / 2) (pairs xs h e))
                  (λ half_c hc. elim (Bool-cases (k % 2 == 0)) [
                    | inl even ↦ rw even (
                        Yields-weaken
                          (halving_lem fuel (k / 2) half_c _ hc half (omega arith) (omega arith))
                          (λ c r.
                            r
                            ∙ ap bit (
                                ap (combined f) (sym (append-nil _))
                                ∙ whole xs []
                                    (leftover_even xs (rw e ((==_iff (k % 2) 0).0 even))))))
                    | inr odd ↦
                        let (x, p, q) = leftover_odd xs (k - 1) (omega arith) (ground arith) in
                        rw odd (
                          Yields-bind (Yields-get a xs (k - 1) x h p) (λ last hl.
                            Yields-weaken
                              (halving_lem fuel ((k + 1) / 2) (half_c ++ last ∷ [])
                                (zip_with f (evens xs) (odds xs) ++ x ∷ [])
                                (ReadsAll-append half_c (last ∷ []) _ (x ∷ []) hc
                                  (ap (λ v. v ∷ []) hl))
                                (length-append _ (x ∷ []) ∙ ground arith) (omega arith)
                                (omega arith))
                              (λ c r. r ∙ ap bit (whole xs (x ∷ []) q))))
                  ]))
          ])
      where
        halves : (ys : List Bool) → length ys ≡ k → length (zip_with f (evens ys) (odds ys)) ≡ k / 2
        halves ys e =
            length-zip_with f (evens ys) (odds ys) (length-evens ys ∙ sym (length-odds ys))
            ∙ length-evens ys
            ∙ ap (λ n. n / 2) e

        pairs :
            (ys : List Bool)
            → ReadsAll a ys
            → length ys ≡ k
            → Operands (evens a) (odds a) (evens ys) (odds ys) (k / 2)
        pairs ys h e = record {
          left = map-evens E.opened a ∙ ap evens h ∙ sym (map-evens bit ys);
          right = map-odds E.opened a ∙ ap odds h ∙ sym (map-odds bit ys);
          left_length = length-evens ys ∙ ap (λ n. n / 2) e;
          right_length = length-odds ys ∙ ap (λ n. n / 2) e;
        }

        whole :
            (ys zs : List Bool)
            → leftover ys ≡ zs
            → combined f (zip_with f (evens ys) (odds ys) ++ zs) ≡ combined f ys
        whole ys zs q = rw (← q) (combined_pairs f assoc ys)

        single :
            (ys : List Bool)
            → ReadsAll a ys
            → length ys ≡ 1
            → Yields (index a 0) (λ c. Reads c (combined f ys))
        single [] h e = absurd (omega arith)
        single (y ∷ []) h e = unfold combined in Yields-get a (y ∷ []) 0 y h refl
        single (y ∷ z ∷ ys) h e = absurd (omega arith)

  xor_assoc : (x y z : Bool) → xor (xor x y) z ≡ xor x (xor y z)
  unfolding xor
  xor_assoc x y z = ground arith

  -- For k ≥ 1 bits, and a recursion as deep as k, KXOR is their exclusive or.
  pub kxor_lem :
      (fuel k : ℕ) (a : List E.Share) (xs : List Bool)
      → ReadsAll a xs
      → length xs ≡ k
      → 0 < k
      → k ≤ fuel
      → Yields (kxor fuel a k) (λ c. Reads c (combined xor xs))
  unfolding kxor
  kxor_lem = halving_lem xor_inplace_vec xor (λ a b xs ys k o. xor_inplace_vec_lem o) xor_assoc

  -- For k ≥ 1 bits, and a recursion as deep as k, KOR is their disjunction.
  pub kor_lem :
      (fuel k : ℕ) (a : List E.Share) (xs : List Bool)
      → ReadsAll a xs
      → length xs ≡ k
      → 0 < k
      → k ≤ fuel
      → Yields (kor fuel a k) (λ c. Reads c (combined ◌||◌ xs))
  unfolding kor
  kor_lem = halving_lem or_inplace_vec ◌||◌ (λ a b xs ys k o. or_inplace_vec_lem o) or_assoc

  map-take : (n : ℕ) (a : List E.Share) → opened_all (take n a) ≡ take n (opened_all a)
  map-take zero a = refl
  map-take (suc n) [] = refl
  map-take (suc n) (x ∷ a) = ap (◌∷◌ (E.opened x)) (map-take n a)

  map-drop : (n : ℕ) (a : List E.Share) → opened_all (drop n a) ≡ drop n (opened_all a)
  map-drop zero a = refl
  map-drop (suc n) [] = refl
  map-drop (suc n) (x ∷ a) = map-drop n a

  take-bits : (n : ℕ) (xs : List Bool) → take n (map bit xs) ≡ map bit (take n xs)
  take-bits zero xs = refl
  take-bits (suc n) [] = refl
  take-bits (suc n) (x ∷ xs) = ap (◌∷◌ (bit x)) (take-bits n xs)

  drop-bits : (n : ℕ) (xs : List Bool) → drop n (map bit xs) ≡ map bit (drop n xs)
  drop-bits zero xs = refl
  drop-bits (suc n) [] = refl
  drop-bits (suc n) (x ∷ xs) = drop-bits n xs

  pub ReadsAll-take :
      (n : ℕ) (a : List E.Share) (xs : List Bool) → ReadsAll a xs → ReadsAll (take n a) (take n xs)
  ReadsAll-take n a xs h = map-take n a ∙ ap (take n) h ∙ take-bits n xs

  pub ReadsAll-drop :
      (n : ℕ) (a : List E.Share) (xs : List Bool) → ReadsAll a xs → ReadsAll (drop n a) (drop n xs)
  ReadsAll-drop n a xs h = map-drop n a ∙ ap (drop n) h ∙ drop-bits n xs

  ReadsAll-replicate :
      (n : ℕ) (v : E.Share) (x : Bool) → Reads v x → ReadsAll (replicate n v) (replicate n x)
  ReadsAll-replicate zero v x h = refl
  ReadsAll-replicate (suc n) v x h = ap₂ ◌∷◌ h (ReadsAll-replicate n v x h)

  -- Bit i of prefix_OR is the disjunction of the bits up to i.
  pub prefix_or_lem :
      (fuel k : ℕ) (a : List E.Share) (xs : List Bool)
      → ReadsAll a xs
      → length xs ≡ k
      → 0 < k
      → k ≤ fuel
      → Yields (prefix_or fuel a k) (λ c. ReadsAll c (prefix_any false xs))
  unfolding prefix_or
  prefix_or_lem zero k a xs h e pos le = absurd (omega arith)
  prefix_or_lem (suc fuel) k a xs h e pos le =
      Yields-guard invalid_length (rw (ReadsAll-length a xs h, e) (==_refl k))
        (elim (Bool-cases (k == 1)) [
          | inl one ↦ rw one (single xs h (e ∙ (==_iff k 1).0 one))
          | inr more ↦
              let k2 : 2 ≤ k = ground arith in
              let n = k / 2 in
              let e0 : length (take n xs) ≡ n = omega (arith, length-take n xs) in
              let e1 : length (drop n xs) ≡ k - n = omega (arith, length-drop n xs) in
              rw more (
                Yields-bind
                  (prefix_or_lem fuel n (take n a) (take n xs) (ReadsAll-take n a xs h) e0
                    (omega arith) (omega arith))
                  (λ c0 h0.
                    Yields-bind
                      (prefix_or_lem fuel (k - n) (drop n a) (drop n xs) (ReadsAll-drop n a xs h) e1
                        (omega arith) (omega arith))
                      (λ c1 h1.
                        Yields-bind
                          (Yields-get c0 _ (n - 1) (any (take n xs)) h0
                            (prefix_or_last false (take n xs) (n - 1) (omega arith)))
                          (λ v hv.
                            Yields-bind
                              (or_inplace_vec_lem (record {
                                left = ReadsAll-replicate (k - n) v _ hv;
                                right = h1;
                                left_length = length-replicate (k - n) _;
                                right_length = length-prefix_any false (drop n xs) ∙ e1;
                              }))
                              (λ t ht. Yields-pure _ (
                                ReadsAll-append c0 t _ _ h0 ht
                                ∙ ap (map bit) (joined n xs (k - n) e1)))))))
        ])
    where
      single :
          (ys : List Bool)
          → ReadsAll a ys
          → length ys ≡ 1
          → Yields (do x ← index a 0; pure (x ∷ [])) (λ c. ReadsAll c (prefix_any false ys))
      single [] h e = absurd (omega arith)
      single (y ∷ []) h e =
          Yields-bind (Yields-get a (y ∷ []) 0 y h refl)
            (λ c hc. Yields-pure (c ∷ []) (unfold prefix_any in ap (λ v. v ∷ []) hc))
      single (y ∷ z ∷ ys) h e = absurd (omega arith)

      or_false_right : (b : Bool) → (b || false) ≡ b
      or_false_right true = refl
      or_false_right false = refl

      joined :
          (n : ℕ) (ys : List Bool) (m : ℕ)
          → length (drop n ys) ≡ m
          → prefix_any false (take n ys)
              ++ zip_with ◌||◌ (replicate m (any (take n ys))) (prefix_any false (drop n ys))
            ≡ prefix_any false ys
      joined n ys m e = rw (← e) (
          ap (λ t. prefix_any false (take n ys) ++ t)
            (prefix_any-replicate (any (take n ys)) false (drop n ys)
              ∙ ap (λ b. prefix_any b (drop n ys)) (or_false_right (any (take n ys))))
          ∙ sym (prefix_any-append false (take n ys) (drop n ys))
          ∙ ap (prefix_any false) (take-append-drop n ys))

  -- On no bits at all KXOR calls itself on no bits: no depth of recursion suffices.
  pub kxor_empty : (fuel : ℕ) → Fails (kxor fuel [] 0) out_of_fuel
  unfolding kxor halving evens odds
  kxor_empty zero = Fails-throw out_of_fuel
  kxor_empty (suc fuel) = Fails-after {P = λ _. Unit} (Yields-guard-true invalid_length) (λ _ _.
      Fails-after (xor_inplace_vec_lem {a = []} {b = []} {xs = []} {ys = []} nothing)
        (λ c hc. nil_case c hc (kxor_empty fuel)))
    where
      nothing : Operands [] [] [] [] 0
      nothing = record { left = refl; right = refl; left_length = refl; right_length = refl }

      nil_case :
          (c : List E.Share)
          → opened_all c ≡ []
          → Fails (kxor fuel [] 0) out_of_fuel
          → Fails (kxor fuel c 0) out_of_fuel
      nil_case [] hc h = h
      nil_case (x ∷ c) hc h = cc
