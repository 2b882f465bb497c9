-- ===== src/OnlineOp/Hash/Laws.antt =====
-- The hash is a polynomial in the key, and the opened Legendre symbol is that of the shared number.
use proof_of_custody.Prelude.{
  ℕ, zero, suc, ◌+◌, ◌-◌, ◌/◌, ◌<◌, ◌≤◌, ◌≡◌, ◌≢◌, refl, sym, ap, ap₂, ◌∙◌, ◌↔◌, some, List, [],
  ◌∷◌, length, get_elem?, drop, ==_refl, arith,
}
use proof_of_custody.Ring.{◌⊕◌, ◌⊗◌, mul-zero}
use proof_of_custody.Ring.Solver.{ring_eq, same_poly, var, ◌:+◌, ◌:*◌, zero_expr}
use proof_of_custody.Engine.{Engine}
use proof_of_custody.Engine.Program.{
  Yields, Yields-bind, Yields-pure, Yields-guard, Yields-index, Yields-call, clear_ring,
  invalid_length, out_of_range,
}
use proof_of_custody.OnlineOp.Linear.{add, add_plain_inplace}
use proof_of_custody.OnlineOp.Linear.Laws.{mul_inplace_lem, reveal_vec_lem, opening, opened-add}
use proof_of_custody.OnlineOp.Products.Laws.{MasksNonzero, mul-ne-zero}
use proof_of_custody.OnlineOp.Hash.{
  Symbol, minus, none_left, plus, Gmp, index_back, uhf_loop, uhf, legendre, shifted, legendre_prf,
}

pub item_drop :
    {A : Type 0} (xs : List A) (i : ℕ)
    → i < length xs
    → (x : A) × (get_elem? xs i ≡ some x) × (drop i xs ≡ x ∷ drop (suc i) xs)
item_drop [] i h = absurd (omega arith)
item_drop (x ∷ xs) zero h = (x, refl, refl)
item_drop (x ∷ xs) (suc i) h = item_drop xs i (omega arith)

pub drop_all : {A : Type 0} (xs : List A) (n : ℕ) → length xs ≤ n → drop n xs ≡ []
drop_all [] zero h = refl
drop_all [] (suc n) h = refl
drop_all (x ∷ xs) zero h = absurd (omega arith)
drop_all (x ∷ xs) (suc n) h = drop_all xs n (omega arith)

module _ ⦃E : Engine⦄ where
  -- m0 + m1 key + m2 key^2 + ..
  unfoldable pub polynomial : E.Clear → List E.Clear → E.Clear
  polynomial key [] = E.ring.zero
  polynomial key (m ∷ ms) = m ⊕ key ⊗ polynomial key ms

  uhf_loop_lem :
      (n : ℕ) (out key : E.Share) (ms : List E.Clear)
      → n ≤ length ms
      → E.opened out ≡ polynomial (E.opened key) (drop n ms)
      → Yields (uhf_loop n out key ms) (λ c. E.opened c ≡ polynomial (E.opened key) ms)
  unfolding uhf_loop
  uhf_loop_lem zero out key ms h e = Yields-pure out e
  uhf_loop_lem (suc i) out key ms h e =
      let (x, p, q) = item_drop ms i (omega arith) in
      Yields-bind (mul_inplace_lem out key) (λ out' ho.
        Yields-bind (Yields-index {P = λ v. v ≡ x} ms i x p refl) (λ v hv.
          uhf_loop_lem i (add_plain_inplace out' v) key ms (omega arith) (
            simp opening (
              ap₂ (λ s t. s ⊕ t) (ho ∙ ap (λ t. t ⊗ E.opened key) e) hv
              ∙ horner x (E.opened key) (drop (suc i) ms)
              ∙ ap (polynomial (E.opened key)) (sym q)))))
    where
      horner :
          (x k : E.Clear) (rest : List E.Clear)
          → polynomial k rest ⊗ k ⊕ x ≡ polynomial k (x ∷ rest)
      horner x k rest =
          unfold polynomial same_poly in
          ring_eq (polynomial k rest ∷ k ∷ x ∷ []) (var 0 :* var 1 :+ var 2)
            (var 2 :+ var 1 :* var 0) refl

  -- uhf, by Horner, is the polynomial of the chunks at the key, from two chunks on.
  pub uhf_lem :
      (key : E.Share) (ms : List E.Clear)
      → 2 ≤ length ms
      → Yields (uhf key ms (length ms)) (λ c. E.opened c ≡ polynomial (E.opened key) ms)
  unfolding uhf index_back
  uhf_lem key ms le =
      let n = length ms in
      let (x, p, q) = item_drop ms (n - 1) (omega arith) in
      let (y, p', q') = item_drop ms (n - 2) (omega arith) in
      let last : drop (suc (n - 2)) ms ≡ x ∷ [] =
        let e : suc (n - 2) ≡ n - 1 = omega arith in
        ap (λ i. drop i ms) e ∙ q ∙ ap (λ l. x ∷ l) (drop_all ms (suc (n - 1)) (omega arith)) in
      Yields-guard invalid_length (==_refl n) (
        Yields-bind {P = λ v. v ≡ x}
          (Yields-guard out_of_range (ground arith) (Yields-index ms (n - 1) x p refl))
          (λ v hv.
            Yields-bind {P = λ w. w ≡ y}
              (Yields-guard out_of_range (ground arith) (Yields-index ms (n - 2) y p' refl))
              (λ w hw. uhf_loop_lem (n - 2) _ key ms (omega arith) (
                simp opening (
                  ap₂ (λ s t. E.opened key ⊗ s ⊕ t) hv hw
                  ∙ two x y (E.opened key)
                  ∙ ap (polynomial (E.opened key)) (sym (q' ∙ ap (λ l. y ∷ l) last)))))))
    where
      two : (x y k : E.Clear) → k ⊗ x ⊕ y ≡ polynomial k (y ∷ x ∷ [])
      two x y k =
          unfold polynomial same_poly in
          ring_eq (x ∷ y ∷ k ∷ []) (var 2 :* var 0 :+ var 1)
            (var 1 :+ var 2 :* (var 0 :+ var 2 :* zero_expr)) refl

  module _ (gmp : Gmp) where
    -- The Legendre symbol of a field element.
    abbrev pub symbol : E.Clear → Symbol
    symbol x = gmp.mpz_legendre (E.to_bigint x) E.pr

    root_of :
        (r x y : E.Clear)
        → r ≢ E.ring.zero
        → (r ⊗ r) ⊗ x ≡ y ⊗ y
        → x ≡ (y ⊗ E.invert r) ⊗ (y ⊗ E.invert r)
    unfolding same_poly
    root_of r x y hr e = sym (
        ring_eq (y ∷ E.invert r ∷ []) ((var 0 :* var 1) :* (var 0 :* var 1))
          ((var 0 :* var 0) :* (var 1 :* var 1)) refl
        ∙ ap (λ v. v ⊗ (E.invert r ⊗ E.invert r)) (sym e)
        ∙ ring_eq (r ∷ x ∷ E.invert r ∷ []) (((var 0 :* var 0) :* var 1) :* (var 2 :* var 2))
            (((var 0 :* var 2) :* (var 0 :* var 2)) :* var 1) refl
        ∙ ap (λ v. (v ⊗ v) ⊗ x) (E.invert-mul r hr)
        ∙ ap (λ v. v ⊗ x) (E.ring.one-mul E.ring.one)
        ∙ E.ring.one-mul x)

    same_symbol :
        (s t : Symbol) → (s ≡ plus) ↔ (t ≡ plus) → (s ≡ none_left) ↔ (t ≡ none_left) → s ≡ t
    same_symbol plus t h k = sym (h.0 refl)
    same_symbol none_left t h k = sym (k.0 refl)
    same_symbol minus minus h k = refl
    same_symbol minus plus h k = h.1 refl
    same_symbol minus none_left h k = k.1 refl

    invert-ne-zero : (r : E.Clear) → r ≢ E.ring.zero → E.invert r ≢ E.ring.zero
    invert-ne-zero r hr e = E.one-ne-zero (sym (E.invert-mul r hr) ∙ ap (λ v. r ⊗ v) e ∙ mul-zero r)

    -- A nonzero square factor does not change the symbol.
    symbol-square : (r x : E.Clear) → r ≢ E.ring.zero → symbol ((r ⊗ r) ⊗ x) ≡ symbol x
    unfolding same_poly
    symbol-square r x hr =
        same_symbol _ _
          (
            λ h.
                let (y, hy, e) = (gmp.plus_iff ((r ⊗ r) ⊗ x)).0 h in
                (gmp.plus_iff x).1 (
                  y ⊗ E.invert r,
                  mul-ne-zero y (E.invert r) hy (invert-ne-zero r hr),
                  root_of r x y hr e,
                ),
            λ h.
                let (y, hy, e) = (gmp.plus_iff x).0 h in
                (gmp.plus_iff ((r ⊗ r) ⊗ x)).1 (
                  r ⊗ y,
                  mul-ne-zero r y hr hy,
                  ap (λ v. (r ⊗ r) ⊗ v) e
                      ∙ ring_eq (r ∷ y ∷ []) ((var 0 :* var 0) :* (var 1 :* var 1))
                          ((var 0 :* var 1) :* (var 0 :* var 1)) refl,
                ),
          )
          (
            λ h. (gmp.none_left_iff x).1 (
                root_of r x E.ring.zero hr ((gmp.none_left_iff _).0 h ∙ sym (mul-zero E.ring.zero))
                ∙ ring_eq (E.invert r ∷ []) ((zero_expr :* var 0) :* (zero_expr :* var 0)) zero_expr
                    refl),
            λ h.
                (gmp.none_left_iff _).1
                  (ap (λ v. (r ⊗ r) ⊗ v) ((gmp.none_left_iff x).0 h) ∙ mul-zero (r ⊗ r)),
          )

    -- The symbol that legendre opens under a square mask is that of the shared number, if no
    -- mask is zero.
    pub legendre_lem :
        MasksNonzero → (a : E.Share) → Yields (legendre gmp a) (λ r. r ≡ symbol (E.opened a))
    unfolding legendre
    legendre_lem masks a =
        Yields-bind {P = λ sp. (r : E.Clear) × (r ≢ E.ring.zero) × (E.opened sp.1 ≡ r ⊗ r)}
          (Yields-call E.get_two (λ s. (E.opened (E.get_two s).0.0, masks s, E.get_two-square s)))
          (λ sp (r, hr, hs). Yields-bind (mul_inplace_lem sp.1 a) (λ t ht.
            Yields-bind (reveal_vec_lem (t ∷ [])) (λ c hc.
              Yields-bind (Yields-index {P = λ v. v ≡ E.opened t} c 0 (E.opened t) (rw hc) refl)
                (λ v hv. Yields-pure _ (
                  ap symbol (hv ∙ ht ∙ ap (λ u. u ⊗ E.opened a) hs)
                  ∙ symbol-square r (E.opened a) hr)))))

    -- The bit of a symbol: 0 for a non-residue, 1 for a square and for 0.
    unfoldable pub prf_bit : Symbol → ℕ
    prf_bit minus = 0
    prf_bit none_left = 1
    prf_bit plus = 1

    -- legendre_prf returns 0 if key + in is a non-residue and 1 otherwise, if no mask is zero.
    pub legendre_prf_lem :
        MasksNonzero
        → (key a : E.Share)
        → Yields (legendre_prf gmp key a) (λ b. b ≡ prf_bit (symbol (E.opened key ⊕ E.opened a)))
    unfolding legendre_prf prf_bit
    legendre_prf_lem masks key a =
        Yields-bind (legendre_lem masks (add key a))
          (λ r hr. Yields-pure _ (halved r ∙ ap prf_bit (hr ∙ ap symbol (opened-add key a))))
      where
        halved : (s : Symbol) → (shifted gmp s + 1) / 2 ≡ prf_bit s
        halved minus = refl
        halved none_left = refl
        halved plus = refl
