-- ===== src/Examples/Field3.antt =====
-- The field of three elements, whose Legendre symbols are those of GMP at the prime 3.
use proof_of_custody.Prelude.{
  ℕ, zero, suc, ◌+◌, ◌%◌, ◌<◌, ◌≡◌, ◌≢◌, ◌↔◌, refl, ◌∙◌, Bool, true, false, arith,
}
use proof_of_custody.Ring.{Ring, nat}

pub data F3 : Type 0 where
  res0 res1 res2 : F3

abbrev pub add : F3 → F3 → F3
add res0 res0 = res0
add res0 res1 = res1
add res0 res2 = res2
add res1 res0 = res1
add res1 res1 = res2
add res1 res2 = res0
add res2 res0 = res2
add res2 res1 = res0
add res2 res2 = res1

abbrev pub mul : F3 → F3 → F3
mul res0 res0 = res0
mul res0 res1 = res0
mul res0 res2 = res0
mul res1 res0 = res0
mul res1 res1 = res1
mul res1 res2 = res2
mul res2 res0 = res0
mul res2 res1 = res2
mul res2 res2 = res1

abbrev pub neg : F3 → F3
neg res0 = res0
neg res1 = res2
neg res2 = res1

abbrev pub to_nat : F3 → ℕ
to_nat res0 = 0
to_nat res1 = 1
to_nat res2 = 2

-- res1 and res2 are their own inverses.
abbrev pub invert : F3 → F3
invert x = x

abbrev pub is_zero : F3 → Bool
is_zero res0 = true
is_zero res1 = false
is_zero res2 = false

pub add_assoc3 : (a b c : F3) → add (add a b) c ≡ add a (add b c)
add_assoc3 res0 res0 res0 = refl
add_assoc3 res0 res0 res1 = refl
add_assoc3 res0 res0 res2 = refl
add_assoc3 res0 res1 res0 = refl
add_assoc3 res0 res1 res1 = refl
add_assoc3 res0 res1 res2 = refl
add_assoc3 res0 res2 res0 = refl
add_assoc3 res0 res2 res1 = refl
add_assoc3 res0 res2 res2 = refl
add_assoc3 res1 res0 res0 = refl
add_assoc3 res1 res0 res1 = refl
add_assoc3 res1 res0 res2 = refl
add_assoc3 res1 res1 res0 = refl
add_assoc3 res1 res1 res1 = refl
add_assoc3 res1 res1 res2 = refl
add_assoc3 res1 res2 res0 = refl
add_assoc3 res1 res2 res1 = refl
add_assoc3 res1 res2 res2 = refl
add_assoc3 res2 res0 res0 = refl
add_assoc3 res2 res0 res1 = refl
add_assoc3 res2 res0 res2 = refl
add_assoc3 res2 res1 res0 = refl
add_assoc3 res2 res1 res1 = refl
add_assoc3 res2 res1 res2 = refl
add_assoc3 res2 res2 res0 = refl
add_assoc3 res2 res2 res1 = refl
add_assoc3 res2 res2 res2 = refl

pub mul_assoc3 : (a b c : F3) → mul (mul a b) c ≡ mul a (mul b c)
mul_assoc3 res0 res0 res0 = refl
mul_assoc3 res0 res0 res1 = refl
mul_assoc3 res0 res0 res2 = refl
mul_assoc3 res0 res1 res0 = refl
mul_assoc3 res0 res1 res1 = refl
mul_assoc3 res0 res1 res2 = refl
mul_assoc3 res0 res2 res0 = refl
mul_assoc3 res0 res2 res1 = refl
mul_assoc3 res0 res2 res2 = refl
mul_assoc3 res1 res0 res0 = refl
mul_assoc3 res1 res0 res1 = refl
mul_assoc3 res1 res0 res2 = refl
mul_assoc3 res1 res1 res0 = refl
mul_assoc3 res1 res1 res1 = refl
mul_assoc3 res1 res1 res2 = refl
mul_assoc3 res1 res2 res0 = refl
mul_assoc3 res1 res2 res1 = refl
mul_assoc3 res1 res2 res2 = refl
mul_assoc3 res2 res0 res0 = refl
mul_assoc3 res2 res0 res1 = refl
mul_assoc3 res2 res0 res2 = refl
mul_assoc3 res2 res1 res0 = refl
mul_assoc3 res2 res1 res1 = refl
mul_assoc3 res2 res1 res2 = refl
mul_assoc3 res2 res2 res0 = refl
mul_assoc3 res2 res2 res1 = refl
mul_assoc3 res2 res2 res2 = refl

pub mul-add3 : (a b c : F3) → mul a (add b c) ≡ add (mul a b) (mul a c)
mul-add3 res0 res0 res0 = refl
mul-add3 res0 res0 res1 = refl
mul-add3 res0 res0 res2 = refl
mul-add3 res0 res1 res0 = refl
mul-add3 res0 res1 res1 = refl
mul-add3 res0 res1 res2 = refl
mul-add3 res0 res2 res0 = refl
mul-add3 res0 res2 res1 = refl
mul-add3 res0 res2 res2 = refl
mul-add3 res1 res0 res0 = refl
mul-add3 res1 res0 res1 = refl
mul-add3 res1 res0 res2 = refl
mul-add3 res1 res1 res0 = refl
mul-add3 res1 res1 res1 = refl
mul-add3 res1 res1 res2 = refl
mul-add3 res1 res2 res0 = refl
mul-add3 res1 res2 res1 = refl
mul-add3 res1 res2 res2 = refl
mul-add3 res2 res0 res0 = refl
mul-add3 res2 res0 res1 = refl
mul-add3 res2 res0 res2 = refl
mul-add3 res2 res1 res0 = refl
mul-add3 res2 res1 res1 = refl
mul-add3 res2 res1 res2 = refl
mul-add3 res2 res2 res0 = refl
mul-add3 res2 res2 res1 = refl
mul-add3 res2 res2 res2 = refl

pub add_comm3 : (a b : F3) → add a b ≡ add b a
add_comm3 res0 res0 = refl
add_comm3 res0 res1 = refl
add_comm3 res0 res2 = refl
add_comm3 res1 res0 = refl
add_comm3 res1 res1 = refl
add_comm3 res1 res2 = refl
add_comm3 res2 res0 = refl
add_comm3 res2 res1 = refl
add_comm3 res2 res2 = refl

pub mul_comm3 : (a b : F3) → mul a b ≡ mul b a
mul_comm3 res0 res0 = refl
mul_comm3 res0 res1 = refl
mul_comm3 res0 res2 = refl
mul_comm3 res1 res0 = refl
mul_comm3 res1 res1 = refl
mul_comm3 res1 res2 = refl
mul_comm3 res2 res0 = refl
mul_comm3 res2 res1 = refl
mul_comm3 res2 res2 = refl

pub zero-add3 : (a : F3) → add res0 a ≡ a
zero-add3 res0 = refl
zero-add3 res1 = refl
zero-add3 res2 = refl

pub one-mul3 : (a : F3) → mul res1 a ≡ a
one-mul3 res0 = refl
one-mul3 res1 = refl
one-mul3 res2 = refl

pub neg-add3 : (a : F3) → add (neg a) a ≡ res0
neg-add3 res0 = refl
neg-add3 res1 = refl
neg-add3 res2 = refl

instance abbrev pub field3_ring : Ring F3
field3_ring = record {
  add = add;
  add_comm = add_comm3;
  add_assoc = add_assoc3;
  zero = res0;
  zero-add = zero-add3;
  neg = neg;
  neg-add = neg-add3;
  mul = mul;
  mul_comm = mul_comm3;
  mul_assoc = mul_assoc3;
  mul-add = mul-add3;
  one = res1;
  one-mul = one-mul3;
}

pub res1-res0 : res1 ≢ res0
res1-res0 e = cc

pub res2-res0 : res2 ≢ res0
res2-res0 e = cc

pub invert-mul3 : (x : F3) → x ≢ res0 → mul x (invert x) ≡ res1
invert-mul3 res0 h = absurd (h refl)
invert-mul3 res1 h = refl
invert-mul3 res2 h = refl

pub is_zero_iff3 : (x : F3) → (is_zero x ≡ true) ↔ (x ≡ res0)
is_zero_iff3 res0 = (λ _. refl, λ _. refl)
is_zero_iff3 res1 = (λ e. absurd cc, λ e. absurd cc)
is_zero_iff3 res2 = (λ e. absurd cc, λ e. absurd cc)

pub to_nat-lt : (x : F3) → to_nat x < 3
to_nat-lt res0 = omega arith
to_nat-lt res1 = omega arith
to_nat-lt res2 = omega arith

pub nat-to_nat : (x : F3) → nat (to_nat x) ≡ x
unfolding nat
nat-to_nat res0 = refl
nat-to_nat res1 = refl
nat-to_nat res2 = refl

to_nat-suc : (x : F3) → to_nat (add res1 x) ≡ (1 + to_nat x) % 3
to_nat-suc res0 = refl
to_nat-suc res1 = refl
to_nat-suc res2 = refl

pub to_nat-nat : (n : ℕ) → to_nat (nat n) ≡ n % 3
unfolding nat
to_nat-nat zero = refl
to_nat-nat (suc n) =
    let e = to_nat-suc (nat n) in let e' = to_nat-nat n in e ∙ (rw e' (omega arith))
