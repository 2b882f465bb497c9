-- ===== src/OnlineOp/Compare/Laws.antt =====
-- lt decides the order of the numbers, for every number of bits but 0.
use mathlib.Core.List.{reverse-cons, map-append}
use proof_of_custody.Prelude.{
  ℕ, suc, ◌<◌, ◌≡◌, refl, sym, ap, ap₂, ◌∙◌, Bool, true, false, xor, not, ◌&&◌, ◌||◌, List, [], ◌∷◌,
  ◌++◌, map, length, reverse, drop, zip_with, arith, ltb, Bool-cases, inl, inr, length-zip_with,
  length-append, length-map, ==_refl,
}
use proof_of_custody.Ring.{◌⊕◌, ◌⊖◌, add-neg, neg-zero, add-zero}
use proof_of_custody.Engine.{Engine}
use proof_of_custody.Engine.Program.{
  bit, Yields, Yields-bind, Yields-pure, Yields-weaken, Yields-guard-bind, Yields-index, clear_ring,
  index, pure, ◌>>=◌, assertion_failed,
}
use proof_of_custody.Bitwise.{value, any, suffix_or, tops, less}
use proof_of_custody.Bitwise.Numbers.{less-ltb, reverse-prefix_any, less_same}
use proof_of_custody.OnlineOp.Linear.{add_inplace, mul_plain_vec, mul_plain}
use proof_of_custody.OnlineOp.Linear.Laws.{
  opened_all, opening, opened-zip_with_plain, opened-mul_plain,
}
use proof_of_custody.OnlineOp.Bits.Clear.{xor_plain_vec_lem}
use proof_of_custody.OnlineOp.Bits.Laws.{
  Reads, ReadsAll, ReadsAll-length, xor_vec_lem, mul_vec_bits, and_lists,
}
use proof_of_custody.OnlineOp.Folds.{prefix_or}
use proof_of_custody.OnlineOp.Folds.Laws.{prefix_or_lem}
use proof_of_custody.OnlineOp.Compare.{steps, sum_shares, lt, lt_plain}

map-reverse : {A B : Type 0} (f : A → B) (xs : List A) → map f (reverse xs) ≡ reverse (map f xs)
map-reverse f [] = refl
map-reverse f (x ∷ xs) =
    ap (map f) (reverse-cons x xs)
    ∙ map-append f (reverse xs) (x ∷ [])
    ∙ ap (λ l. l ++ f x ∷ []) (map-reverse f xs)
    ∙ sym (reverse-cons (f x) (map f xs))

length-reversed : {A : Type 0} (xs : List A) → length (reverse xs) ≡ length xs
length-reversed [] = refl
length-reversed (x ∷ xs) =
    ap length (reverse-cons x xs)
    ∙ length-append (reverse xs) (x ∷ [])
    ∙ omega (arith, length-reversed xs)

module _ ⦃E : Engine⦄ where
  ReadsAll-reverse :
      (a : List E.Share) (xs : List Bool) → ReadsAll a xs → ReadsAll (reverse a) (reverse xs)
  ReadsAll-reverse a xs h = map-reverse E.opened a ∙ ap reverse h ∙ sym (map-reverse bit xs)

  ReadsAll-steps :
      (d : List E.Share) (xs : List Bool) → ReadsAll d (suffix_or xs) → ReadsAll (steps d) (tops xs)
  unfolding steps suffix_or tops any
  ReadsAll-steps [] [] h = refl
  ReadsAll-steps [] (x ∷ xs) h = cc
  ReadsAll-steps (s ∷ d) [] h = cc
  ReadsAll-steps (s ∷ []) (x ∷ []) h = h ∙ one_bit x
    where
      one_bit : (x : Bool) → ◌≡◌ {A = List E.Clear} (bit (x || false) ∷ []) (bit (x && true) ∷ [])
      one_bit true = refl
      one_bit false = refl
  ReadsAll-steps (s ∷ []) (x ∷ y ∷ xs) h = cc
  ReadsAll-steps (s ∷ t ∷ d) (x ∷ []) h = cc
  ReadsAll-steps (s ∷ t ∷ d) (x ∷ y ∷ xs) h =
      ap₂ ◌∷◌ (simp opening (rw (head_eq h, head_eq (tail_eq h)) (bit-difference x (y || any xs))))
        (ReadsAll-steps (t ∷ d) (y ∷ xs) (tail_eq h))
    where
      bit-difference : (a b : Bool) → bit (a || b) ⊖ bit b ≡ bit (a && not b)
      bit-difference true true = add-neg E.ring.one
      bit-difference true false = ap (λ v. E.ring.one ⊕ v) neg-zero ∙ add-zero E.ring.one
      bit-difference false true = add-neg E.ring.one
      bit-difference false false = add-neg E.ring.zero

      head_eq : {u v : E.Clear} {us vs : List E.Clear} → u ∷ us ≡ v ∷ vs → u ≡ v
      head_eq e = cc

      tail_eq : {u v : E.Clear} {us vs : List E.Clear} → u ∷ us ≡ v ∷ vs → us ≡ vs
      tail_eq e = cc

  total : List E.Clear → E.Clear
  total [] = E.ring.zero
  total (x ∷ xs) = x ⊕ total xs

  opened-sum_shares :
      (acc : E.Share) (xs : List E.Share)
      → E.opened (sum_shares acc xs) ≡ total (E.opened acc ∷ opened_all xs)
  unfolding sum_shares total
  opened-sum_shares acc [] = sym (add-zero _)
  opened-sum_shares acc (x ∷ xs) =
      opened-sum_shares (add_inplace acc x) xs ∙ simp opening (E.ring.add_assoc _ _ _)

  -- At most one product is 1: at the highest place where the numbers differ.
  total-less :
      (xs ys : List Bool)
      → length xs ≡ length ys
      → total (map bit (zip_with ◌&&◌ (tops (zip_with xor xs ys)) ys)) ≡ bit (less xs ys)
  unfolding total tops less xor
  total-less [] ys h = refl
  total-less (x ∷ xs) [] h = absurd (omega arith)
  total-less (x ∷ xs) (y ∷ ys) h =
      ap (λ t. bit ((xor x y && not (any (zip_with xor xs ys))) && y) ⊕ t)
        (total-less xs ys (omega arith))
      ∙ (elim (Bool-cases (any (zip_with xor xs ys))) [
        | inl some_differ ↦ rw some_differ (low x y (less xs ys))
        | inr none_differ ↦ rw (none_differ, less_same xs ys none_differ) (high x y)
      ])
    where
      low : (x y b : Bool) → bit ((xor x y && false) && y) ⊕ bit b ≡ bit b
      low true true b = E.ring.zero-add _
      low true false b = E.ring.zero-add _
      low false true b = E.ring.zero-add _
      low false false b = E.ring.zero-add _

      high : (x y : Bool) → bit ((xor x y && true) && y) ⊕ E.ring.zero ≡ bit (not x && y)
      high true true = E.ring.zero-add _
      high true false = E.ring.zero-add _
      high false true = add-zero _
      high false false = E.ring.zero-add _

  length-tops : (xs : List Bool) → length (tops xs) ≡ length xs
  unfolding tops
  length-tops [] = refl
  length-tops (x ∷ xs) = ap suc (length-tops xs)

  -- The part of `lt` after the exclusive or.
  module _ (k : ℕ) (xs ys : List Bool) (hx : length xs ≡ k) (hy : length ys ≡ k) (pos : 0 < k) where
    differences : List Bool
    differences = zip_with xor xs ys

    length-differences : length differences ≡ k
    unfolding differences
    length-differences = length-zip_with xor xs ys (hx ∙ sym hy) ∙ hx

    length-marks : length (tops differences) ≡ k
    length-marks = length-tops differences ∙ length-differences

    length-products : length (zip_with ◌&&◌ (tops differences) ys) ≡ k
    length-products =
        length-zip_with ◌&&◌ (tops differences) ys (length-marks ∙ sym hy) ∙ length-marks

    marks_lem :
        (c : List E.Share)
        → ReadsAll c differences
        → Yields (prefix_or k (reverse c) k) (λ d. ReadsAll (steps (reverse d)) (tops differences))
    marks_lem c hc =
        Yields-weaken
          (prefix_or_lem k k (reverse c) (reverse differences) (ReadsAll-reverse c _ hc)
            (length-reversed differences ∙ length-differences) pos (omega arith))
          (λ d hd.
            ReadsAll-steps (reverse d) differences
              (ReadsAll-reverse d _ hd ∙ ap (map bit) (reverse-prefix_any differences)))

    total_lem :
        (t : List E.Share)
        → ReadsAll t (zip_with ◌&&◌ (tops differences) ys)
        → Yields
            (do first ← index t 0; pure (sum_shares first (drop 1 t)))
            (λ c. Reads c (ltb (value xs) (value ys)))
    total_lem [] ht =
        let e : 0 ≡ k = ReadsAll-length [] _ ht ∙ length-products in absurd (omega arith)
    total_lem (s ∷ t) ht = Yields-bind (Yields-index {P = λ v. v ≡ s} (s ∷ t) 0 s refl refl) (λ v e.
        Yields-pure _ (
          rw e (
            opened-sum_shares s t
            ∙ ap total ht
            ∙ unfold differences in
              total-less xs ys (hx ∙ sym hy) ∙ ap bit (less-ltb xs ys (hx ∙ sym hy)))))

    -- On shares of the bits of two numbers `lt` returns a share of 1 if the first is below the
    -- second, and of 0 otherwise.
    pub lt_lem :
        (a b : List E.Share)
        → ReadsAll a xs
        → ReadsAll b ys
        → Yields (lt a b k) (λ c. Reads c (ltb (value xs) (value ys)))
    unfolding lt
    lt_lem a b ha hb =
        Yields-bind
          (xor_vec_lem (record { left = ha; right = hb; left_length = hx; right_length = hy }))
          (λ c hc. Yields-bind (marks_lem c (unfold differences in hc)) (λ d hd.
            Yields-bind
              (mul_vec_bits
                (record { left = hd; right = hb; left_length = length-marks; right_length = hy }))
              total_lem))

    -- lt with a clear second number is a share of the truth value of the order of the two
    -- numbers, for vectors of k ≥ 1 bits.
    pub lt_plain_lem :
        (a : List E.Share)
        → ReadsAll a xs
        → Yields (lt_plain a (map bit ys) k) (λ c. Reads c (ltb (value xs) (value ys)))
    unfolding lt_plain mul_plain_vec
    lt_plain_lem a ha = Yields-bind (xor_plain_vec_lem a xs ys ha hx hy) (λ c hc.
        Yields-bind (marks_lem c (unfold differences in hc)) (λ d hd.
          Yields-guard-bind assertion_failed _
            (rw (ReadsAll-length _ _ hd ∙ length-marks, length-map bit ys ∙ hy) (==_refl k))
            (total_lem _ (
              opened-zip_with_plain mul_plain E.ring.mul opened-mul_plain _ (map bit ys)
              ∙ ap (λ v. zip_with E.ring.mul v (map bit ys)) hd
              ∙ and_lists (tops differences) ys))))
