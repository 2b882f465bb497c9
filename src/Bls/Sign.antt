-- ===== src/Bls/Sign.antt =====
-- POC/bls.h, BLS::dstb_sign: each party signs with its share of the key times its Lagrange
-- coefficient, and the signatures are added as shared points of G2. The program is that of all
-- parties together, as the engine is.
pub mod Laws
use proof_of_custody.Prelude.{ℕ, zero, suc, ◌+◌, List, [], ◌∷◌, map, ◌==◌, if◌then◌else◌}
use proof_of_custody.Ring.{nat}
use proof_of_custody.Engine.{Engine}
use proof_of_custody.Engine.Program.{
  M, Result, ok, err, pure, throw, index, ◌>>=◌, clear_ring, out_of_range,
}
use proof_of_custody.OnlineOp.Linear.{get_inputs}
use proof_of_custody.OnlineOp.Complexes.{Complex}
use proof_of_custody.Group.{Affine}
use proof_of_custody.Group.G2.{g2_add_aff_inplace}
use proof_of_custody.Mcl.{Mcl}
use proof_of_custody.Lagrange.{get_lagrange_coeff}
use proof_of_custody.Bls.{Bls, sign_scale}

module _ ⦃E : Engine⦄ where
  -- The overload of get_inputs of POC/OnlineOp.hpp on complex numbers.
  unfoldable pub get_inputs_complex : ℕ → (ℕ → Complex E.Clear) → M (Complex E.Share)
  get_inputs_complex party inputs = do
    re ← get_inputs party (λ j. (inputs j).real)
    im ← get_inputs party (λ j. (inputs j).imag)
    pure (record { real = re; imag = im })

  -- A local computation of a party, which may throw.
  unfoldable pub local : {A : Type 0} → Result A → M A
  unfolding pure throw
  local (ok a) = pure a
  local (err e) = throw e

  abbrev pub zero_complex : Complex E.Clear
  zero_complex = record { real = E.ring.zero; imag = E.ring.zero }

  -- s[i] as the party j has it: its own point, and zeros for the others
  abbrev pub held : ℕ → Affine (Complex E.Clear) → ℕ → Affine (Complex E.Clear)
  held i s j = if j == i then s else record { x = zero_complex; y = zero_complex }

  -- out after the points left
  unfoldable pub add_loop :
      Affine (Complex E.Share) → List (Affine (Complex E.Share)) → M (Affine (Complex E.Share))
  add_loop out [] = pure out
  add_loop out (a ∷ ac) = do sum ← g2_add_aff_inplace out a; add_loop sum ac

  unfoldable pub add_points : List (Affine (Complex E.Share)) → M (Affine (Complex E.Share))
  unfolding throw
  add_points [] = throw out_of_range
  add_points (a ∷ ac) = add_loop a ac

-- mclBnG2_getStr: the numbers in the decimal string of a point, which are its coordinates.
module _ ⦃E : Engine⦄ ⦃L : Mcl⦄ (g2_get_str : L.G2 → Affine (Complex ℕ)) where
  -- mclBnG2_to_str splits the string into four.
  unfoldable pub g2_to_str : L.G2 → List ℕ
  g2_to_str a = let p = g2_get_str a in p.x.real ∷ p.x.imag ∷ p.y.real ∷ p.y.imag ∷ []

  unfoldable pub g2_to_gfp : L.G2 → List E.Clear
  g2_to_gfp a = map nat (g2_to_str a)

  unfoldable pub g2_to_complex_plain : L.G2 → M (Affine (Complex E.Clear))
  g2_to_complex_plain s = do
    let vg = g2_to_gfp s
    x_re ← index vg 0
    x_im ← index vg 1
    y_re ← index vg 2
    y_im ← index vg 3
    pure (record {
      x = record { real = x_re; imag = x_im };
      y = record { real = y_re; imag = y_im };
    })

  -- lag_coeff, sign_scale, and the coordinates of sigma, of the party i of n
  unfoldable pub signed_point : ℕ → Bls → L.Message → ℕ → M (Affine (Complex E.Clear))
  signed_point n b msg i = do
    lag_coeff ← local (get_lagrange_coeff n (i + 1))
    g2_to_complex_plain (sign_scale b lag_coeff msg).sigma

  -- ac[i], .. of the rounds left
  unfoldable pub input_loop :
      ℕ → (ℕ → Bls) → L.Message → ℕ → ℕ → M (List (Affine (Complex E.Share)))
  input_loop n b msg i zero = pure []
  input_loop n b msg i (suc rounds) = do
    s ← signed_point n (b i) msg i
    x ← get_inputs_complex i (λ j. (held i s j).x)
    y ← get_inputs_complex i (λ j. (held i s j).y)
    rest ← input_loop n b msg (suc i) rounds
    pure (record { x = x; y = y } ∷ rest)

  unfoldable pub dstb_sign : ℕ → (ℕ → Bls) → L.Message → M (Affine (Complex E.Share))
  dstb_sign n b msg = do ac ← input_loop n b msg 0 n; add_points ac
