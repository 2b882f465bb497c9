-- ===== src/Lagrange.antt =====
-- Math/Lagrange.cpp: Shamir's secret sharing, and the Lagrange coefficients of the points 1 to n.
pub mod Laws
use proof_of_custody.Prelude.{
  ℕ, zero, suc, ◌+◌, ◌||◌, List, [], ◌∷◌, ◌++◌, length, drop, ltb, leb, ◌==◌, reverse,
  if◌then◌else◌,
}
use proof_of_custody.Ring.{◌⊕◌, ◌⊗◌}
use proof_of_custody.Fallible.{◌>>=◌}
use proof_of_custody.Mcl.{Mcl, ℤ, opposite, fr_ring, fr_field}
use proof_of_custody.Engine.Program.{Result, ok, err, invalid_length, out_of_range}

module _ ⦃L : Mcl⦄ where
  -- (nume_prod, deno_prod) after the rounds left of the loop over k
  unfoldable pub product_loop : ℕ → L.Fr → ℕ → ℕ → L.Fr × L.Fr → L.Fr × L.Fr
  product_loop pos xi k zero prods = prods
  product_loop pos xi k (suc rounds) (nume, deno) =
      let xk = L.set_int32 (opposite (ℤ.pos k)) in
      product_loop pos xi (suc k) rounds
        (if k == pos then (nume, deno) else (nume ⊗ xk, deno ⊗ (xi ⊕ xk)))

  unfoldable pub get_lagrange_coeff : ℕ → ℕ → Result L.Fr
  get_lagrange_coeff n pos =
      if leb pos 0 || ltb n pos
      then err invalid_length
      else (let one = L.set_int32 (ℤ.pos 1) in
          let prods = product_loop pos (L.set_int32 (ℤ.pos pos)) 1 n (one, one) in
          ok (fr_field.inv prods.1 ⊗ prods.0))

  -- coeff[1], .., coeff[t]; whether the generator succeeds is not read.
  unfoldable pub draw_coeffs : ℕ → L.Seed → List L.Fr × L.Seed
  draw_coeffs zero seed = ([], seed)
  draw_coeffs (suc t) seed =
      let drawn = L.set_by_csprng seed in
      let rest = draw_coeffs t drawn.1 in (drawn.0.0 ∷ rest.0, rest.1)

  -- sh[pos] after the rounds left over coeff[k - 1], .., coeff[0]
  unfoldable pub horner_loop : L.Fr → L.Fr → List L.Fr → L.Fr
  horner_loop xi sh [] = sh
  horner_loop xi sh (c ∷ cs) = horner_loop xi (sh ⊗ xi ⊕ c) cs

  -- The coefficients come with the last one first.
  unfoldable pub share_at : List L.Fr → L.Fr → Result L.Fr
  share_at [] xi = err out_of_range
  share_at (c ∷ cs) xi = ok (horner_loop xi c cs)

  -- sh[pos], .., sh[n - 1]
  unfoldable pub share_loop : List L.Fr → ℕ → ℕ → Result (List L.Fr)
  share_loop coeff pos zero = ok []
  share_loop coeff pos (suc rounds) = do
    sh ← share_at (reverse coeff) (L.set_int32 (ℤ.pos (pos + 1)))
    rest ← share_loop coeff (suc pos) rounds
    ok (sh ∷ rest)

  -- `sh` has a place for each share.
  unfoldable pub set_share : List L.Fr → L.Fr → ℕ → ℕ → L.Seed → Result (List L.Fr × L.Seed)
  set_share sh s n t seed = if ltb (length sh) n then err out_of_range else (do
    let drawn = draw_coeffs t seed
    values ← share_loop (s ∷ drawn.0) 0 n
    ok (values ++ drop n sh, drawn.1))

  unfoldable pub recover_loop : L.Fr → List L.Fr → List L.Fr → L.Fr
  recover_loop secret (c ∷ coeff) (sh ∷ share) = recover_loop (secret ⊕ c ⊗ sh) coeff share
  recover_loop secret _ _ = secret

  unfoldable pub recover_share : List L.Fr → List L.Fr → Result L.Fr
  recover_share (c ∷ coeff) (sh ∷ share) =
      if length coeff == length share
      then ok (recover_loop (c ⊗ sh) coeff share)
      else err invalid_length
  recover_share [] [] = err out_of_range
  recover_share _ _ = err invalid_length
