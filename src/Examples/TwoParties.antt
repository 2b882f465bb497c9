-- ===== src/Examples/TwoParties.antt =====
-- An engine of two parties: a share is the pair of the parties' summands, in the field of three
-- elements. Each result of a protocol is shared again with the next noise of the state, a counter.
use proof_of_custody.Prelude.{
  ℕ, suc, ◌+◌, ◌≡◌, inl, refl, sym, ap, ap₂, ◌∙◌, List, [], ◌∷◌, map, length, zip_with, arith,
}
use proof_of_custody.Ring.{nat, ◌⊕◌, ◌⊗◌, ◌⊖◌}
use proof_of_custody.Ring.Solver.{ring_eq, same_poly, var, ◌:+◌, ◌:-◌, ◌:*◌}
use proof_of_custody.Engine.{Engine}
use proof_of_custody.Examples.Field3.{
  F3, res0, res1, res2, mul, neg, to_nat, invert, is_zero, field3_ring, res1-res0, invert-mul3,
  is_zero_iff3, to_nat-lt, nat-to_nat, to_nat-nat,
}

abbrev pub Pair : Type 0
Pair = F3 × F3

abbrev pub sum : Pair → F3
sum a = a.0 ⊕ a.1

-- A value, shared with this noise.
unfoldable pub share : ℕ → F3 → Pair
share noise x = (x ⊕ nat noise, neg (nat noise))

pub sum-share : (noise : ℕ) (x : F3) → sum (share noise x) ≡ x
unfolding share same_poly
sum-share noise x = ring_eq (x ∷ nat noise ∷ []) ((var 0 :+ var 1) :- var 1) (var 0) refl

abbrev pub add_pair : Pair → Pair → Pair
add_pair a b = (a.0 ⊕ b.0, a.1 ⊕ b.1)

abbrev pub sub_pair : Pair → Pair → Pair
sub_pair a b = (a.0 ⊖ b.0, a.1 ⊖ b.1)

abbrev pub scale_pair : Pair → F3 → Pair
scale_pair a x = (a.0 ⊗ x, a.1 ⊗ x)

pub sum-add_pair : (a b : Pair) → sum (add_pair a b) ≡ sum a ⊕ sum b
unfolding same_poly
sum-add_pair a b =
    ring_eq (a.0 ∷ a.1 ∷ b.0 ∷ b.1 ∷ []) ((var 0 :+ var 2) :+ (var 1 :+ var 3))
      ((var 0 :+ var 1) :+ (var 2 :+ var 3)) refl

pub sum-sub_pair : (a b : Pair) → sum (sub_pair a b) ≡ sum a ⊖ sum b
unfolding same_poly
sum-sub_pair a b =
    ring_eq (a.0 ∷ a.1 ∷ b.0 ∷ b.1 ∷ []) ((var 0 :- var 2) :+ (var 1 :- var 3))
      ((var 0 :+ var 1) :- (var 2 :+ var 3)) refl

pub sum-scale_pair : (a : Pair) (x : F3) → sum (scale_pair a x) ≡ sum a ⊗ x
unfolding same_poly
sum-scale_pair a x =
    ring_eq (a.0 ∷ a.1 ∷ x ∷ []) ((var 0 :* var 2) :+ (var 1 :* var 2)) ((var 0 :+ var 1) :* var 2)
      refl

pub sum-constant : (x : F3) → sum (x, res0) ≡ x
sum-constant res0 = refl
sum-constant res1 = refl
sum-constant res2 = refl

unfoldable pub products : ℕ → List Pair → List Pair → List Pair
products noise (a ∷ xs) (b ∷ ys) = share noise (sum a ⊗ sum b) ∷ products (suc noise) xs ys
products noise _ _ = []

pub sum-products :
    (noise : ℕ) (xs ys : List Pair)
    → length xs ≡ length ys
    → map sum (products noise xs ys) ≡ zip_with mul (map sum xs) (map sum ys)
unfolding products
sum-products noise [] [] h = refl
sum-products noise [] (b ∷ ys) h = absurd (omega arith)
sum-products noise (a ∷ xs) [] h = absurd (omega arith)
sum-products noise (a ∷ xs) (b ∷ ys) h =
    ap₂ (λ u l. u ∷ l) (sum-share noise (sum a ⊗ sum b))
      (sum-products (suc noise) xs ys (omega arith))

-- The masks are 2 and its square, 1; the random bits are 0.
instance abbrev pub two_parties : Engine
two_parties = record {
  Clear = F3;
  ring = field3_ring;
  invert = invert;
  invert-mul = invert-mul3;
  one-ne-zero = res1-res0;
  is_zero = is_zero;
  is_zero_iff = is_zero_iff3;
  pr = 3;
  to_bigint = to_nat;
  to_bigint-lt = to_nat-lt;
  nat-to_bigint = nat-to_nat;
  to_bigint-nat = to_nat-nat;
  Share = Pair;
  opened = sum;
  fresh = (res0, res0);
  add_share = add_pair;
  sub_share = sub_pair;
  scale = scale_pair;
  constant = λ x. (x, res0);
  opened-add_share = sum-add_pair;
  opened-sub_share = sum-sub_pair;
  opened-scale = sum-scale_pair;
  opened-constant = sum-constant;
  State = ℕ;
  run_mul = λ xs ys s. (products s xs ys, s + length xs);
  opened-run_mul = λ xs ys s h. sum-products s xs ys h;
  run_open = λ xs s. (map sum xs, s);
  run_open-opened = λ xs s. refl;
  get_two = λ s. ((share s res2, share (s + 1) res1), s + 2);
  get_two-square = λ s. sum-share (s + 1) res1 ∙ ap (λ v. mul v v) (sym (sum-share s res2));
  get_one = λ s. (share s res0, s + 1);
  get_one-bit = λ s. inl (sum-share s res0);
  run_input = λ party values s. (share s (values party), s + 1);
  opened-run_input = λ party values s. sum-share s (values party);
}
