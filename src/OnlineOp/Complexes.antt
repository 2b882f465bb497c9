-- ===== src/OnlineOp/Complexes.antt =====
-- POC/Complex.h and OnlineOp.hpp, lines 310 to 438: shares of elements of the quadratic extension
-- by a root of x^2 + 1, in which the coordinates of the curve's second group lie.
pub mod Laws
use proof_of_custody.Prelude.{◌≡◌}
use proof_of_custody.Ring.{◌⊗◌, ◌⊕◌, ◌⊖◌}
use proof_of_custody.Engine.{Engine}
use proof_of_custody.Engine.Program.{M, pure, ◌>>=◌, ◌>>◌, clear_ring}
use proof_of_custody.OnlineOp.Linear.{
  add, add_plain, add_inplace, sub, sub_plain, sub_inplace, mul, mul_plain,
}
use proof_of_custody.OnlineOp.Products.{sqr, inv_inplace}

-- `Complex<T>` over shares, and `Complex_Plain<T>` over the field.
pub record Complex (A : Type 0) : Type 0 where
  pub real : A
  pub imag : A

module _ ⦃E : Engine⦄ where
  unfoldable pub complex_add : Complex E.Share → Complex E.Share → Complex E.Share
  complex_add a b = record { real = add a.real b.real; imag = add a.imag b.imag }

  unfoldable pub complex_add_plain : Complex E.Share → Complex E.Clear → Complex E.Share
  complex_add_plain a b = record { real = add_plain a.real b.real; imag = add_plain a.imag b.imag }

  unfoldable pub complex_add_inplace : Complex E.Share → Complex E.Share → Complex E.Share
  complex_add_inplace c a = complex_add c a

  unfoldable pub complex_sub : Complex E.Share → Complex E.Share → Complex E.Share
  complex_sub a b = record { real = sub a.real b.real; imag = sub a.imag b.imag }

  unfoldable pub complex_sub_plain : Complex E.Share → Complex E.Clear → Complex E.Share
  complex_sub_plain a b = record { real = sub_plain a.real b.real; imag = sub_plain a.imag b.imag }

  unfoldable pub complex_sub_inplace : Complex E.Share → Complex E.Share → Complex E.Share
  complex_sub_inplace c a = complex_sub c a

  unfoldable pub complex_mul_plain : Complex E.Share → Complex E.Clear → Complex E.Share
  complex_mul_plain a b = record {
    real = sub (mul_plain a.real b.real) (mul_plain a.imag b.imag);
    imag = add (mul_plain a.real b.imag) (mul_plain a.imag b.real);
  }

  unfoldable pub complex_mul : Complex E.Share → Complex E.Share → M (Complex E.Share)
  complex_mul a b = do
    rr ← mul a.real b.real
    ii ← mul a.imag b.imag
    let re = sub_inplace rr ii
    ri ← mul a.real b.imag
    ir ← mul a.imag b.real
    pure (record { real = re; imag = add_inplace ri ir })

  unfoldable pub complex_mul_inplace : Complex E.Share → Complex E.Share → M (Complex E.Share)
  complex_mul_inplace c a = complex_mul c a

  unfoldable pub complex_sqr : Complex E.Share → M (Complex E.Share)
  complex_sqr a = do
    rr ← sqr a.real
    ii ← sqr a.imag
    let re = sub_inplace rr ii
    im ← mul a.real a.imag
    pure (record { real = re; imag = add_inplace im im })

  unfoldable pub complex_sqr_inplace : Complex E.Share → M (Complex E.Share)
  complex_sqr_inplace a = complex_sqr a

  unfoldable pub complex_inv : Complex E.Share → M (Complex E.Share)
  complex_inv a = do
    re2 ← sqr a.real
    im2 ← sqr a.imag
    rr ← inv_inplace (add_inplace re2 im2)
    re ← mul a.real rr
    im ← mul a.imag (E.scale rr (E.ring.neg E.ring.one))
    pure (record { real = re; imag = im })

  unfoldable pub complex_inv_inplace : Complex E.Share → M (Complex E.Share)
  complex_inv_inplace a = complex_inv a

  unfoldable pub complex_div : Complex E.Share → Complex E.Share → M (Complex E.Share)
  complex_div a b = do c ← complex_inv b; complex_mul c a

  unfoldable pub complex_div_inplace : Complex E.Share → Complex E.Share → M (Complex E.Share)
  complex_div_inplace c a = complex_div c a

  -- The product of two clear complex numbers, of POC/Group.hpp.
  unfoldable pub mul_complex_plain : Complex E.Clear → Complex E.Clear → Complex E.Clear
  mul_complex_plain a b = record {
    real = a.real ⊗ b.real ⊖ a.imag ⊗ b.imag;
    imag = a.real ⊗ b.imag ⊕ a.imag ⊗ b.real;
  }

  unfoldable pub mul_complex_plain_inplace : Complex E.Clear → Complex E.Clear → Complex E.Clear
  mul_complex_plain_inplace c a = mul_complex_plain c a

  -- The value of a shared complex number.
  abbrev pub opened_complex : Complex E.Share → Complex E.Clear
  opened_complex a = record { real = E.opened a.real; imag = E.opened a.imag }
