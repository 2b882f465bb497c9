-- ===== src/Examples/SmallCurve.antt =====
-- The mcl library filled with the field of three elements as field and as groups, whose pairing is
-- the product, and strings that are field elements.
use proof_of_custody.Prelude.{
  ℕ, zero, suc, ◌+◌, ◌<◌, ◌≤◌, ◌≡◌, ◌↔◌, refl, sym, ap, ◌∙◌, Bool, true, false, List, [], ◌∷◌, map,
  length, arith,
}
use proof_of_custody.Ring.{nat, ◌⊕◌, ◌⊗◌, ◌⊖◌, add-mul, mul-zero, mul-one}
use proof_of_custody.Ring.Solver.{ring_eq, same_poly, var, ◌:*◌}
use proof_of_custody.Ring.Module.{Additive, Module}
use proof_of_custody.Ring.Polynomial.{poly, poly_in}
use proof_of_custody.Ring.Interpolation.{Field, Apart, Distinct, weight, weighted}
use proof_of_custody.Ring.Interpolation.Formula.{interpolated_lem}
use proof_of_custody.Mcl.{Mcl, ℤ, pos, negsuc, opposite}
use proof_of_custody.Bls.Keygen.{Transport}
use proof_of_custody.Examples.Field3.{
  F3, res0, res1, res2, invert, to_nat, field3_ring, res1-res0, invert-mul3, to_nat-nat,
}

instance abbrev pub field3 : Field F3
field3 = record {
  inv = invert;
  inv-mul = λ x h. field3_ring.mul_comm (invert x) x ∙ invert-mul3 x h;
  one-ne-zero = res1-res0;
}

instance abbrev pub points3 : Additive F3
points3 = record {
  zero = res0;
  add = field3_ring.add;
  add_assoc = field3_ring.add_assoc;
  add_comm = field3_ring.add_comm;
  zero-add = field3_ring.zero-add;
}

instance abbrev pub module3 : Module F3 F3
module3 = record {
  scale = field3_ring.mul;
  scale-add = field3_ring.mul-add;
  add-scale = add-mul;
  scale-mul = field3_ring.mul_assoc;
  scale-zero = mul-zero;
  scale-one = mul-one;
}

abbrev pub same : F3 → F3 → Bool
same res0 res0 = true
same res1 res1 = true
same res2 res2 = true
same _ _ = false

pub same_iff : (x y : F3) → (same x y ≡ true) ↔ (x ≡ y)
same_iff res0 res0 = (λ _. refl, λ _. refl)
same_iff res0 res1 = (λ e. absurd cc, λ e. absurd cc)
same_iff res0 res2 = (λ e. absurd cc, λ e. absurd cc)
same_iff res1 res0 = (λ e. absurd cc, λ e. absurd cc)
same_iff res1 res1 = (λ _. refl, λ _. refl)
same_iff res1 res2 = (λ e. absurd cc, λ e. absurd cc)
same_iff res2 res0 = (λ e. absurd cc, λ e. absurd cc)
same_iff res2 res1 = (λ e. absurd cc, λ e. absurd cc)
same_iff res2 res2 = (λ _. refl, λ _. refl)

abbrev pub integer : ℤ → F3
integer (pos n) = nat n
integer (negsuc n) = field3_ring.neg (nat (suc n))

pub integer-opposite : (n : ℕ) → integer (opposite (pos n)) ≡ field3_ring.neg (nat n)
unfolding opposite nat
integer-opposite zero = refl
integer-opposite (suc n) = refl

pub small_injective : (m n : ℕ) → m < 3 → n < 3 → nat {A = F3} m ≡ nat n → m ≡ n
small_injective m n h h' e = let d = sym (to_nat-nat m) ∙ ap to_nat e ∙ to_nat-nat n in omega arith

-- Lagrange's formula on points and values.
unfoldable pub interpolate : F3 → (F3 → F3) → List F3 → List F3 → F3
interpolate n d (x ∷ post) (y ∷ ys) =
    weight n d x post ⊗ y ⊕ interpolate (n ⊗ field3_ring.neg x) (λ z. d z ⊗ (z ⊖ x)) post ys
interpolate n d _ _ = res0

interpolate-weighted :
    (n : F3) (d k : F3 → F3) (xs : List F3) → interpolate n d xs (map k xs) ≡ weighted n d xs k
unfolding interpolate weighted
interpolate-weighted n d k [] = refl
interpolate-weighted n d k (x ∷ xs) =
    ap (λ u. weight n d x xs ⊗ k x ⊕ u)
      (interpolate-weighted (n ⊗ field3_ring.neg x) (λ z. d z ⊗ (z ⊖ x)) k xs)

pub interpolate_lem :
    (cs xs : List F3)
    → Distinct xs
    → Apart res0 xs
    → 0 < length xs
    → length cs ≤ length xs
    → interpolate res1 (λ z. res1) xs (map (poly cs) xs) ≡ poly cs res0
interpolate_lem cs xs hd ha hl h =
    interpolate-weighted res1 (λ z. res1) (poly cs) xs ∙ interpolated_lem cs xs hd h

pub product_moves : (p q a : F3) → (p ⊗ a) ⊗ q ≡ p ⊗ (q ⊗ a)
unfolding same_poly
product_moves p q a =
    ring_eq (p ∷ q ∷ a ∷ []) (var 0 :* var 2 :* var 1) (var 0 :* (var 1 :* var 2)) refl

pub one_injective : (p q : F3) → res1 ⊗ p ≡ res1 ⊗ q → p ≡ q
one_injective p q e = sym (field3_ring.one-mul p) ∙ e ∙ field3_ring.one-mul q

-- The generator counts, and never fails.
instance abbrev pub small_curve : Mcl
small_curve = record {
  Fr = F3;
  ring = field3_ring;
  field = field3;
  set_int32 = integer;
  set_int32-pos = λ n h. refl;
  set_int32-opposite = λ n h. integer-opposite n;
  order = 3;
  nat-injective = small_injective;
  Seed = ℕ;
  set_by_csprng = λ s. ((nat s, true), s + 1);
  G1 = F3;
  points1 = points3;
  module1 = module3;
  base_point = res1;
  is_equal1 = same;
  is_equal1_iff = same_iff;
  fr_evaluate = poly;
  fr_evaluate_lem = λ c cs x. refl;
  g1_evaluate = poly_in;
  g1_evaluate_lem = λ p ps x. refl;
  fr_interpolate = interpolate res1 (λ z. res1);
  fr_interpolate_lem = interpolate_lem;
  G2 = F3;
  points2 = points3;
  module2 = module3;
  Message = F3;
  hash_and_map_to = λ m. m;
  GT = F3;
  is_equal_t = same;
  is_equal_t_iff = same_iff;
  pairing = field3_ring.mul;
  pairing-scale = product_moves;
  pairing-injective = one_injective;
}

pub same_refl : (x : F3) → same x x ≡ true
same_refl res0 = refl
same_refl res1 = refl
same_refl res2 = refl

-- A commitment and its opening are the message.
instance abbrev pub small_transport : Transport
small_transport = record {
  Octets = F3;
  fr_to_str = λ x. x;
  str_to_fr = λ x. x;
  str_to_fr-fr_to_str = λ x. refl;
  g1_to_str = λ x. x;
  str_to_g1 = λ x. x;
  str_to_g1-g1_to_str = λ x. refl;
  commit = λ message player seed. ((message, message), seed);
  open_commitment = λ comm opening player. (same comm opening, opening);
  open_commitment-commit = λ message player seed. ap (λ b. (b, message)) (same_refl message);
}
