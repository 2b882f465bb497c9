-- ===== src/Examples/SignWitnesses.antt =====
-- The theorems on signatures at two parties, whose engine and whose curve are over the field of three
-- elements. The signatures 0 and 2 stand for the points (0, i) and (1, 0) of y^2 = x^3 + 2.
use proof_of_custody.Prelude.{ℕ, zero, suc, ◌+◌, ◌<◌, ◌≡◌, refl, true, [], ◌∷◌, arith}
use proof_of_custody.Ring.{nat}
use proof_of_custody.Ring.Polynomial.{poly}
use proof_of_custody.Engine.Program.{Yields, ok}
use proof_of_custody.OnlineOp.Complexes.{Complex}
use proof_of_custody.Group.{Affine}
use proof_of_custody.Mcl.{opposite}
use proof_of_custody.Lagrange.{get_lagrange_coeff, product_loop}
use proof_of_custody.Bls.{set_sigma, sign_scale, verify}
use proof_of_custody.Bls.Sign.{dstb_sign}
use proof_of_custody.Bls.Sign.Laws.{point_of, coords, signatures, Summable}
use proof_of_custody.Bls.Sign.Laws.Combined.{dstb_sign_lem}
use proof_of_custody.Bls.Sign.Laws.EndToEnd.{dstb_keygen-dstb_sign}
use proof_of_custody.Examples.Field3.{F3, res0, res1, res2, field3_ring, res1-res0}
use proof_of_custody.Examples.TwoParties.{two_parties}
use proof_of_custody.Examples.Supply.{masks}
use proof_of_custody.Examples.SmallCurve.{small_curve, small_transport}
use proof_of_custody.Examples.SmallParties.{
  two-Fits, party, dealt_one, deal-party, deals_one, honest, delivered, keyed, runs,
}

abbrev pub coordinates : F3 → Affine (Complex ℕ)
coordinates res0 = record { x = record { real = 0; imag = 0 }; y = record { real = 0; imag = 1 } }
coordinates res1 = record { x = record { real = 0; imag = 0 }; y = record { real = 0; imag = 1 } }
coordinates res2 = record { x = record { real = 1; imag = 0 }; y = record { real = 0; imag = 0 } }

-- Both Lagrange coefficients are 2.
pub both_two : (j : ℕ) → j < 2 → get_lagrange_coeff 2 (j + 1) ≡ ok res2
unfolding get_lagrange_coeff product_loop opposite nat
both_two zero h = refl
both_two (suc zero) h = refl
both_two (suc (suc j)) h = absurd (omega arith)

pub keyed-values : (j : ℕ) → j < 2 → (keyed j).sk ≡ poly (res2 ∷ res1 ∷ []) (nat (j + 1))
unfolding poly nat
keyed-values zero h = refl
keyed-values (suc zero) h = refl
keyed-values (suc (suc j)) h = absurd (omega arith)

pub keyed-key : (j : ℕ) → j < 2 → (keyed j).vk ≡ res2
keyed-key zero h = refl
keyed-key (suc j) h = refl

abbrev pub constant_two : Complex F3
constant_two = record { real = res2; imag = res0 }

pub sums :
    Summable coordinates constant_two
      (sign_scale (keyed 0) res2 res1).sigma
      (signatures (λ j. (sign_scale (keyed j) res2 res1).sigma) 1 1)
unfolding Summable sign_scale set_sigma signatures nat
sums = (
  (λ e. res1-res0 e),
  refl,
  refl,
  record {
    slope = record { real = res0; imag = res2 };
    slope-chord = refl;
    sum_x = refl;
    mirrored = refl;
  },
  refl,
)

dstb_sign_example : Yields (dstb_sign coordinates 2 keyed res1) (λ r.
    (point_of r ≡ coords coordinates res2) × ((j : ℕ) → j < 2 → verify (keyed j) res2 res1 ≡ true))
dstb_sign_example =
    dstb_sign_lem coordinates masks 1 keyed res1 res2 (res1 ∷ []) (λ j. res2) constant_two two-Fits
      (omega arith) keyed-values keyed-key both_two sums

dstb_keygen-dstb_sign_example : Yields (dstb_sign coordinates 2 keyed res1) (λ r.
    (sigma : F3) × (point_of r ≡ coords coordinates sigma)
    × ((j : ℕ) → j < 2 → verify (keyed j) sigma res1 ≡ true))
dstb_keygen-dstb_sign_example =
    dstb_keygen-dstb_sign coordinates masks 1 1 (λ j. party) keyed (λ j. 1) (λ j. 3) (λ j. 3)
      (λ me sent. honest me) (λ j. dealt_one) (λ j. deals_one) res1 (λ j. res2) constant_two
      two-Fits (omega arith) (λ j. refl) (λ j. refl) (λ me h. deal-party) delivered runs both_two
      sums
