-- ===== src/OnlineOp/Convert/Decomposition.antt =====
-- A2B: the bits of a shared number, from its difference with a random number that is opened.
use native.Mathlib.Nat.{mod-eq_of_lt, mod-eq-sub-mod, add-mod_right, add_comm}
use proof_of_custody.Prelude.{
  ℕ, ◌+◌, ◌-◌, ◌*◌, ◌%◌, ◌^◌, ◌<◌, ◌≤◌, ◌≡◌, refl, sym, ap, ap₂, ◌∙◌, Bool, true, false, not, map,
  List, [], ◌∷◌, length, take, arith, ltb, ◌==◌, ==_iff, Bool-cases, inl, inr, if◌then◌else◌,
  length-take, some,
}
use proof_of_custody.Ring.{◌⊕◌, ◌⊖◌, ◌⊗◌, nat, nat-add}
use proof_of_custody.Ring.Solver.{
  ring_eq, same_poly, var, lit, ◌:+◌, ◌:-◌, ◌:*◌, one_expr, zero_expr,
}
use proof_of_custody.Engine.{Engine}
use proof_of_custody.Engine.Program.{
  bit, Yields, Yields-bind, Yields-pure, Yields-weaken, Yields-index, clear_ring,
}
use proof_of_custody.Bitwise.{value, bits_of}
use proof_of_custody.Bitwise.Numbers.{value-bits_of, length-bits_of, bits_of-value, value-take}
use proof_of_custody.OnlineOp.Linear.{sub}
use proof_of_custody.OnlineOp.Linear.Laws.{reveal_vec_lem, opening, opened-sub}
use proof_of_custody.OnlineOp.Bits.Laws.{Reads, ReadsAll, ReadsAll-length}
use proof_of_custody.OnlineOp.Folds.Laws.{ReadsAll-take}
use proof_of_custody.OnlineOp.Compare.Laws.{lt_plain_lem}
use proof_of_custody.OnlineOp.Adder.Laws.{add_bit_lem}
use proof_of_custody.OnlineOp.Convert.{psize, select, a2b, a2b_rest}
use proof_of_custody.OnlineOp.Convert.Laws.{decompose_lem}
use proof_of_custody.OnlineOp.Convert.Random.{psize_pos, AcceptsWithin, pre_rand_lem}

-- R + c reduced by p, computed as the source does: modulo 2 ^ k, with a summand that depends on
-- whether R < p - c.
wrapped_sum :
    (k p R c : ℕ)
    → p < 2 ^ k
    → R < p
    → c < p
    → (R + (if ltb R (p - c) then c else 2 * 2 ^ k + c - p) % 2 ^ k) % 2 ^ k ≡ (R + c) % p
wrapped_sum k p R c hp hR hc = elim (Bool-cases (ltb R (p - c))) [
  | inl below ↦
      let s : R + c < p = ground arith in
      rw (below, mod-eq_of_lt (lt_trans' hc hp))
        (mod-eq_of_lt (lt_trans' s hp) ∙ sym (mod-eq_of_lt s))
  | inr above ↦ rw above (wraps (2 ^ k) hp (ground arith))
]
  where
    lt_trans' : {a b c : ℕ} → a < b → b < c → a < c
    lt_trans' h k = omega arith

    wraps : (m : ℕ) → p < m → p ≤ R + c → (R + (2 * m + c - p) % m) % m ≡ (R + c) % p
    wraps m hm ge =
        let d = m + c - p in
        let r = R + c - p in
        let e1 : (2 * m + c - p) % m ≡ d =
          ap (λ n. n % m) (omega arith) ∙ add-mod_right d m ∙ mod-eq_of_lt (omega arith) in
        let e2 : (R + d) % m ≡ r =
          ap (λ n. n % m) (omega arith) ∙ add-mod_right r m ∙ mod-eq_of_lt (omega arith) in
        rw e1 (e2 ∙ sym (mod-eq-sub-mod ge ∙ mod-eq_of_lt (omega arith)))

module _ ⦃E : Engine⦄ where
  -- 1 - factor, from factor.
  flipped : (b : Bool) → (bit b ⊖ bit b ⊗ nat 2) ⊕ E.ring.one ≡ bit (not b)
  unfolding same_poly
  flipped true = ring_eq [] ((one_expr :- one_expr :* lit 2) :+ one_expr) zero_expr refl
  flipped false = ring_eq [] ((zero_expr :- zero_expr :* lit 2) :+ one_expr) one_expr refl

  chosen : (b : Bool) (t u : E.Clear) → bit b ⊗ (t ⊖ u) ⊕ u ≡ (if b then t else u)
  unfolding same_poly
  chosen true t u = ring_eq (t ∷ u ∷ []) (one_expr :* (var 0 :- var 1) :+ var 1) (var 0) refl
  chosen false t u = ring_eq (t ∷ u ∷ []) (zero_expr :* (var 0 :- var 1) :+ var 1) (var 1) refl

  select_lem :
      (factor : E.Share) (b : Bool) (ts us : List Bool)
      → Reads factor b
      → length ts ≡ length us
      → ReadsAll (select factor (map bit ts) (map bit us)) (if b then ts else us)
  unfolding select
  select_lem factor b [] [] h e = picked b
    where
      picked : (b : Bool) → [] ≡ map bit (if b then [] else [])
      picked true = refl
      picked false = refl
  select_lem factor b [] (u ∷ us) h e = absurd (omega arith)
  select_lem factor b (t ∷ ts) [] h e = absurd (omega arith)
  select_lem factor b (t ∷ ts) (u ∷ us) h e =
      ap₂ ◌∷◌ (simp (opening, h) (chosen b (bit t) (bit u)))
        (select_lem factor b ts us h (omega arith))
      ∙ picked b
    where
      picked :
          (b : Bool)
          → (if b then bit t else bit u) ∷ map bit (if b then ts else us)
            ≡ map bit (if b then t ∷ ts else u ∷ us)
      picked true = refl
      picked false = refl

  -- What opens to x opens with R < p to (R + c) mod p, where c is the opened difference.
  to_bigint-shift : (x : E.Clear) (R : ℕ) → E.to_bigint x ≡ (R + E.to_bigint (x ⊖ nat R)) % E.pr
  unfolding same_poly
  to_bigint-shift x R =
      ap E.to_bigint (
        ring_eq (x ∷ nat R ∷ []) (var 0) (var 1 :+ (var 0 :- var 1)) refl
        ∙ ap (λ v. nat R ⊕ v) (sym (E.nat-to_bigint (x ⊖ nat R)))
        ∙ sym (nat-add R (E.to_bigint (x ⊖ nat R))))
      ∙ E.to_bigint-nat (R + E.to_bigint (x ⊖ nat R))

  length-choice :
      (b : Bool) (n c : ℕ) → length (if b then bits_of psize n else bits_of psize c) ≡ psize
  length-choice true n c = length-bits_of psize n
  length-choice false n c = length-bits_of psize c

  value-choice :
      (b : Bool) (n c : ℕ)
      → value (if not b then bits_of psize n else bits_of psize c)
        ≡ (if b then c else n) % 2 ^ psize
  value-choice true n c = value-bits_of psize c
  value-choice false n c = value-bits_of psize n

  psize_two : 2 ≤ psize
  unfolding psize
  psize_two = omega arith

  -- All bits of a sum but the highest.
  low_bits :
      (r : List E.Share) (ws : List Bool) (v : ℕ)
      → ReadsAll r ws
      → length ws ≡ psize + 1
      → value ws % 2 ^ psize ≡ v
      → ReadsAll (take (length r - 1) r) (bits_of psize v)
  low_bits r ws v hr hw hv =
      let n : length r - 1 ≡ psize =
        let l : length r ≡ length ws = ReadsAll-length r ws hr in omega arith in
      let t : length (take psize ws) ≡ psize = omega (arith, length-take psize ws) in
      rw n (
        ReadsAll-take psize r ws hr
        ∙ ap (map bit)
            (sym (bits_of-value (take psize ws)) ∙ ap₂ bits_of t (value-take psize ws ∙ hv)))

  module _ (small : E.pr < 2 ^ psize) (xs : List Bool) (hl : length xs ≡ psize)
      (below : value xs < E.pr) where
    -- The bits of (R + c) mod p, for shared bits of R and a clear c.
    a2b_rest_lem :
        (bitr : List E.Share) (c : ℕ)
        → ReadsAll bitr xs
        → c < E.pr
        → Yields (a2b_rest bitr c) (λ b. ReadsAll b (bits_of psize ((value xs + c) % E.pr)))
    unfolding a2b_rest
    a2b_rest_lem bitr c hb hc =
        let bound = bits_of psize (E.pr - c) in
        let e : value bound ≡ E.pr - c =
          value-bits_of psize (E.pr - c) ∙ mod-eq_of_lt (omega arith) in
        let n = 2 * 2 ^ psize + c - E.pr in
        Yields-bind {P = λ f. Reads f (ltb (value xs) (E.pr - c))}
          (rw (decompose_lem (E.pr - c) psize) (
            Yields-weaken
              (lt_plain_lem psize xs bound hl (length-bits_of psize (E.pr - c)) psize_pos bitr hb)
              (λ f hf. hf ∙ ap (λ v. bit (ltb (value xs) v)) e)))
          (λ factor hf.
            let b = ltb (value xs) (E.pr - c) in
            let zs = if not b then bits_of psize n else bits_of psize c in
            Yields-bind
              (add_bit_lem _ bitr zs xs
                (rw (decompose_lem n psize, decompose_lem c psize)
                  (select_lem _ (not b) (bits_of psize n) (bits_of psize c)
                    (simp (opening, hf) (flipped b))
                    (length-bits_of psize n ∙ sym (length-bits_of psize c))))
                hb (length-choice (not b) n c ∙ sym hl) (rw (length-choice (not b) n c) psize_two))
              (λ r (ws, hr, hv, hw). Yields-pure _ (
                low_bits r ws ((value xs + c) % E.pr) hr
                  (hw ∙ ap (λ l. l + 1) (length-choice (not b) n c))
                  (ap (λ v. v % 2 ^ psize)
                      (hv ∙ ap (λ v. v + value xs) (value-choice b n c) ∙ add_comm _ (value xs))
                    ∙ wrapped_sum psize E.pr (value xs) c small below hc))))

  -- A2B returns shares of exactly the 381 bits of the number of the shared field element, if the
  -- field order is below 2^381 and `fuel` rounds of the rejection loop accept a random number;
  -- it does return.
  pub a2b_lem :
      E.pr < 2 ^ psize
      → (fuel : ℕ) → ((s : E.State) → AcceptsWithin fuel s)
      → (a : E.Share)
      → Yields (a2b fuel a) (λ b. ReadsAll b (bits_of psize (E.to_bigint (E.opened a))))
  unfolding a2b
  a2b_lem small fuel live a =
      Yields-bind (pre_rand_lem small fuel live) (λ t (xs, hb, hl, below, hr).
        let d = E.opened a ⊖ nat (value xs) in
        Yields-bind (reveal_vec_lem (sub a t.0 ∷ [])) (λ cp hc.
          Yields-bind
            (Yields-index {P = λ x. x ≡ d} cp 0 d
              (rw hc (ap some (opened-sub a t.0 ∙ ap (λ v. E.opened a ⊖ v) hr))) refl)
            (λ x hx.
              let e : E.to_bigint (E.opened a) ≡ (value xs + E.to_bigint x) % E.pr =
                to_bigint-shift (E.opened a) (value xs)
                ∙ ap (λ v. (value xs + E.to_bigint v) % E.pr) (sym hx) in
              rw e (elim (Bool-cases (E.to_bigint x == 0)) [
                | inl none ↦ rw none (
                    Yields-pure t.1
                      (hb ∙ ap (map bit) (unshifted xs hl below ((==_iff _ 0).0 none))))
                | inr more ↦ rw more (a2b_rest_lem small xs hl below t.1 _ hb (E.to_bigint-lt x))
              ]))))
    where
      unshifted :
          {c : ℕ} (xs : List Bool)
          → length xs ≡ psize
          → value xs < E.pr
          → c ≡ 0
          → xs ≡ bits_of psize ((value xs + c) % E.pr)
      unshifted {c} xs hl below e =
          let v : (value xs + c) % E.pr ≡ value xs =
            ap (λ n. n % E.pr) (omega arith) ∙ mod-eq_of_lt below in
          rw v (sym (ap (λ k. bits_of k (value xs)) (sym hl) ∙ bits_of-value xs))
