-- ===== src/OnlineOp/Bits/Laws.antt =====
-- On shares of bits the connectives of OnlineOp.hpp compute the Boolean connectives.
use proof_of_custody.Prelude.{
  ℕ, ◌≡◌, refl, sym, ap, ap₂, ◌∙◌, Bool, true, false, xor, ◌&&◌, ◌||◌, List, [], ◌∷◌, map, length,
  zip_with, ◌==◌, ==_refl, length-map, length-zip_with,
}
use proof_of_custody.Ring.{◌⊕◌, ◌⊗◌, ◌⊖◌}
use proof_of_custody.Ring.Solver.{ring_eq, same_poly, ◌:+◌, ◌:-◌, ◌:*◌, one_expr, zero_expr}
use proof_of_custody.Engine.{Engine}
use proof_of_custody.Engine.Program.{
  bit, Yields, Yields-bind, Yields-pure, Yields-weaken, Yields-guard, clear_ring, invalid_length,
  assertion_failed,
}
use proof_of_custody.OnlineOp.Linear.{add, sub_inplace, add_vec, sub_inplace_vec, mul_vec}
use proof_of_custody.OnlineOp.Linear.Laws.{
  opened_all, mul_lem, mul_vec_lem, opening, opened-zip_with, opened-add, opened-sub_inplace,
  resize_same,
}
use proof_of_custody.OnlineOp.Bits.{
  xor_shares, or_shares, and_shares, xor_plain, or_plain, and_plain, xor_vec, or_vec,
  xor_inplace_vec, or_inplace_vec,
}

module _ ⦃E : Engine⦄ where
  -- The share opens to the bit; the shares open to the bits.
  abbrev pub Reads : E.Share → Bool → Type 0
  Reads a x = E.opened a ≡ bit x

  abbrev pub ReadsAll : List E.Share → List Bool → Type 0
  ReadsAll a xs = opened_all a ≡ map bit xs

  pub bit-xor : (x y : Bool) → (bit x ⊕ bit y) ⊖ bit x ⊗ bit y ⊖ bit x ⊗ bit y ≡ bit (xor x y)
  unfolding same_poly xor
  bit-xor true true =
      ring_eq [] ((one_expr :+ one_expr) :- one_expr :* one_expr :- one_expr :* one_expr) zero_expr
        refl
  bit-xor true false =
      ring_eq [] ((one_expr :+ zero_expr) :- one_expr :* zero_expr :- one_expr :* zero_expr)
        one_expr refl
  bit-xor false true =
      ring_eq [] ((zero_expr :+ one_expr) :- zero_expr :* one_expr :- zero_expr :* one_expr)
        one_expr refl
  bit-xor false false =
      ring_eq [] ((zero_expr :+ zero_expr) :- zero_expr :* zero_expr :- zero_expr :* zero_expr)
        zero_expr refl

  pub bit-or : (x y : Bool) → (bit x ⊕ bit y) ⊖ bit x ⊗ bit y ≡ bit (x || y)
  unfolding same_poly
  bit-or true true = ring_eq [] ((one_expr :+ one_expr) :- one_expr :* one_expr) one_expr refl
  bit-or true false = ring_eq [] ((one_expr :+ zero_expr) :- one_expr :* zero_expr) one_expr refl
  bit-or false true = ring_eq [] ((zero_expr :+ one_expr) :- zero_expr :* one_expr) one_expr refl
  bit-or false false =
      ring_eq [] ((zero_expr :+ zero_expr) :- zero_expr :* zero_expr) zero_expr refl

  pub bit-and : (x y : Bool) → bit x ⊗ bit y ≡ bit (x && y)
  unfolding same_poly
  bit-and true true = E.ring.one-mul _
  bit-and true false = E.ring.one-mul _
  bit-and false true = ring_eq [] (zero_expr :* one_expr) zero_expr refl
  bit-and false false = ring_eq [] (zero_expr :* zero_expr) zero_expr refl

  module _ {a b : E.Share} (x y : Bool) (ha : Reads a x) (hb : Reads b y) where
    pub xor_shares_lem : Yields (xor_shares a b) (λ c. Reads c (xor x y))
    unfolding xor_shares
    xor_shares_lem =
        Yields-bind (mul_lem a b) (λ t h. Yields-pure _ (simp (opening, h, ha, hb) (bit-xor x y)))

    pub or_shares_lem : Yields (or_shares a b) (λ c. Reads c (x || y))
    unfolding or_shares
    or_shares_lem =
        Yields-bind (mul_lem a b) (λ t h. Yields-pure _ (simp (opening, h, ha, hb) (bit-or x y)))

    pub and_shares_lem : Yields (and_shares a b) (λ c. Reads c (x && y))
    unfolding and_shares
    and_shares_lem = Yields-weaken (mul_lem a b) (λ c h. simp (h, ha, hb) (bit-and x y))

  module _ {a : E.Share} (x y : Bool) (ha : Reads a x) where
    pub xor_plain_lem : Reads (xor_plain a (bit y)) (xor x y)
    unfolding xor_plain
    xor_plain_lem = simp (opening, ha) (bit-xor x y)

    pub or_plain_lem : Reads (or_plain a (bit y)) (x || y)
    unfolding or_plain
    or_plain_lem = simp (opening, ha) (bit-or x y)

    pub and_plain_lem : Reads (and_plain a (bit y)) (x && y)
    unfolding and_plain
    and_plain_lem = simp (opening, ha) (bit-and x y)

  pub ReadsAll-length : (a : List E.Share) (xs : List Bool) → ReadsAll a xs → length a ≡ length xs
  ReadsAll-length a xs h = sym (length-map E.opened a) ∙ ap length h ∙ length-map bit xs

  pub xor_lists :
      (xs ys : List Bool)
      → zip_with ◌⊖◌
          (zip_with ◌⊖◌
            (zip_with E.ring.add (map bit xs) (map bit ys))
            (zip_with E.ring.mul (map bit xs) (map bit ys)))
          (zip_with E.ring.mul (map bit xs) (map bit ys))
        ≡ map bit (zip_with xor xs ys)
  xor_lists [] ys = refl
  xor_lists (x ∷ xs) [] = refl
  xor_lists (x ∷ xs) (y ∷ ys) = ap₂ ◌∷◌ (bit-xor x y) (xor_lists xs ys)

  pub or_lists :
      (xs ys : List Bool)
      → zip_with ◌⊖◌
          (zip_with E.ring.add (map bit xs) (map bit ys))
          (zip_with E.ring.mul (map bit xs) (map bit ys))
        ≡ map bit (zip_with ◌||◌ xs ys)
  or_lists [] ys = refl
  or_lists (x ∷ xs) [] = refl
  or_lists (x ∷ xs) (y ∷ ys) = ap₂ ◌∷◌ (bit-or x y) (or_lists xs ys)

  pub and_lists :
      (xs ys : List Bool)
      → zip_with E.ring.mul (map bit xs) (map bit ys) ≡ map bit (zip_with ◌&&◌ xs ys)
  and_lists [] ys = refl
  and_lists (x ∷ xs) [] = refl
  and_lists (x ∷ xs) (y ∷ ys) = ap₂ ◌∷◌ (bit-and x y) (and_lists xs ys)

  add_vec_lem :
      (a b : List E.Share)
      → length a ≡ length b
      → Yields (add_vec a b) (λ c. opened_all c ≡ zip_with E.ring.add (opened_all a) (opened_all b))
  unfolding add_vec
  add_vec_lem a b h =
      Yields-guard assertion_failed (rw h (==_refl _))
        (Yields-pure _ (opened-zip_with add _ opened-add a b))

  pub opened-sub_inplace_vec :
      (c a : List E.Share)
      → length c ≡ length a
      → opened_all (sub_inplace_vec c a) ≡ zip_with ◌⊖◌ (opened_all c) (opened_all a)
  unfolding sub_inplace_vec
  opened-sub_inplace_vec c a h =
      rw (resize_same (length a) E.fresh c h) (opened-zip_with sub_inplace _ opened-sub_inplace c a)

  -- Two vectors of k bits.
  pub record Operands (a b : List E.Share) (xs ys : List Bool) (k : ℕ) : Type 0 where
    pub left : ReadsAll a xs
    pub right : ReadsAll b ys
    pub left_length : length xs ≡ k
    pub right_length : length ys ≡ k

  module _ {a b : List E.Share} {xs ys : List Bool} {k : ℕ} (o : Operands a b xs ys k) where
    length_left : length a ≡ k
    length_left = ReadsAll-length a xs o.left ∙ o.left_length

    length_right : length b ≡ k
    length_right = ReadsAll-length b ys o.right ∙ o.right_length

    sizes_fit : (length a == k && length b == k) ≡ true
    sizes_fit = rw (length_left, length_right, ==_refl k) refl

    length_of :
        (c : List E.Share) (h : E.Clear → E.Clear → E.Clear)
        → opened_all c ≡ zip_with h (opened_all a) (opened_all b)
        → length c ≡ k
    length_of c h e =
        sym (length-map E.opened c)
        ∙ ap length e
        ∙ length-zip_with h (opened_all a) (opened_all b)
            (length-map E.opened a ∙ length_left ∙ sym (length-map E.opened b ∙ length_right))
        ∙ length-map E.opened a
        ∙ length_left

    -- On shares of k bits each, XOR of two vectors returns shares of the exclusive ors of the bits.
    pub xor_vec_lem : Yields (xor_vec a b k) (λ c. ReadsAll c (zip_with xor xs ys))
    unfolding xor_vec
    xor_vec_lem = Yields-guard invalid_length sizes_fit (
        Yields-bind (add_vec_lem a b (length_left ∙ sym length_right)) (λ c hc.
          Yields-bind (mul_vec_lem a b (length_left ∙ sym length_right)) (λ t ht.
            let e : length c ≡ length t = length_of c _ hc ∙ sym (length_of t _ ht) in
            let e' : length (sub_inplace_vec c t) ≡ length t =
              unfold sub_inplace_vec in
              rw (resize_same (length t) E.fresh c e) (length-zip_with sub_inplace c t e ∙ e) in
            Yields-pure _ (
              opened-sub_inplace_vec (sub_inplace_vec c t) t e'
              ∙ ap (λ u. zip_with ◌⊖◌ u (opened_all t)) (opened-sub_inplace_vec c t e)
              ∙ rw (hc, ht, o.left, o.right) (xor_lists xs ys)))))

    pub or_vec_lem : Yields (or_vec a b k) (λ c. ReadsAll c (zip_with ◌||◌ xs ys))
    unfolding or_vec
    or_vec_lem = Yields-guard invalid_length sizes_fit (
        Yields-bind (add_vec_lem a b (length_left ∙ sym length_right)) (λ c hc.
          Yields-bind (mul_vec_lem a b (length_left ∙ sym length_right)) (λ t ht. Yields-pure _ (
            opened-sub_inplace_vec c t (length_of c _ hc ∙ sym (length_of t _ ht))
            ∙ rw (hc, ht, o.left, o.right) (or_lists xs ys)))))

    pub xor_inplace_vec_lem : Yields (xor_inplace_vec a b k) (λ c. ReadsAll c (zip_with xor xs ys))
    unfolding xor_inplace_vec
    xor_inplace_vec_lem = rw (resize_same k E.fresh a length_left) xor_vec_lem

    pub or_inplace_vec_lem : Yields (or_inplace_vec a b k) (λ c. ReadsAll c (zip_with ◌||◌ xs ys))
    unfolding or_inplace_vec
    or_inplace_vec_lem = or_vec_lem

    -- The products of the bits.
    pub mul_vec_bits : Yields (mul_vec a b) (λ c. ReadsAll c (zip_with ◌&&◌ xs ys))
    mul_vec_bits =
        Yields-weaken (mul_vec_lem a b (length_left ∙ sym length_right))
          (λ c h. h ∙ rw (o.left, o.right) (and_lists xs ys))
