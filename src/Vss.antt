-- ===== src/Vss.antt =====
-- POC/vss.h and POC/vss.cpp: Feldman's verifiable secret sharing, and the Lagrange coefficients of
-- any set of parties. Output vectors are passed and returned, since the source appends to them.
pub mod Laws
use proof_of_custody.Prelude.{
  ℕ, zero, suc, ◌+◌, Bool, true, false, List, [], ◌∷◌, ◌++◌, map, length, ltb, ◌==◌, if◌then◌else◌,
}
use proof_of_custody.Ring.{◌⊕◌, ◌⊗◌}
use proof_of_custody.Ring.Module.{◌⊡◌}
use proof_of_custody.Engine.Program.{Result, ok, err, invalid_setting, zero_element}
use proof_of_custody.Fallible.{◌>>=◌}
use proof_of_custody.Mcl.{Mcl, ℤ, pos, negsuc, opposite, fr_ring, fr_field, g1_points, g1_module}

pub record Vss ⦃L : Mcl⦄ : Type 0 where
  pub s : L.Fr
  pub nparty : ℕ
  pub threshold : ℕ

module _ ⦃L : Mcl⦄ where
  -- The constructor with a secret; the other one leaves the secret as it finds it, `s`.
  unfoldable pub new_vss : L.Fr → ℕ → ℕ → Result Vss
  new_vss s n tn =
      if ltb n tn then err invalid_setting else ok (record { s = s; nparty = n; threshold = tn })

  unfoldable pub set_secret : Vss → L.Fr → ℕ → ℕ → Vss
  set_secret v s pn tn = record { s = s; nparty = pn; threshold = tn }

  unfoldable pub set_secret_only : Vss → L.Fr → Vss
  set_secret_only v s = record { s = s; nparty = v.nparty; threshold = v.threshold }

  unfoldable pub get_secret : Vss → L.Fr
  get_secret v = v.s

  unfoldable pub rnd_secret : Vss → L.Seed → Vss × L.Seed
  unfolding set_secret_only
  rnd_secret v seed = let drawn = L.set_by_csprng seed in (set_secret_only v drawn.0.0, drawn.1)

  -- coeff[1], .. of the rounds left, and what is appended to aux
  unfoldable pub coeff_loop : ℕ → L.Seed → (List L.Fr × List L.G1) × L.Seed
  coeff_loop zero seed = (([], []), seed)
  coeff_loop (suc rounds) seed =
      let drawn = L.set_by_csprng seed in
      let rest = coeff_loop rounds drawn.1 in
      let c = drawn.0.0 in ((c ∷ rest.0.0, L.base_point ⊡ c ∷ rest.0.1), rest.1)

  -- what is appended to shares in the rounds left
  unfoldable pub evaluate_loop : List L.Fr → ℕ → ℕ → List L.Fr
  evaluate_loop coeff i zero = []
  evaluate_loop coeff i (suc rounds) =
      L.fr_evaluate coeff (L.set_int32 (pos i)) ∷ evaluate_loop coeff (suc i) rounds

  unfoldable pub gen_share : Vss → List L.Fr → List L.G1 → L.Seed → (List L.Fr × List L.G1) × L.Seed
  gen_share v shares aux seed =
      let drawn = coeff_loop v.threshold seed in
      let coeff = v.s ∷ drawn.0.0 in
      ((shares ++ evaluate_loop coeff 1 v.nparty, aux ++ (L.base_point ⊡ v.s ∷ drawn.0.1)), drawn.1)

  unfoldable pub verify_share : L.Fr → List L.G1 → ℕ → Bool
  verify_share share aux n =
      L.is_equal1 (L.base_point ⊡ share) (L.g1_evaluate aux (L.set_int32 (pos n)))

  -- xVec[i], ..
  unfoldable pub x_vec : ℕ → ℕ → List L.Fr
  x_vec i zero = []
  x_vec i (suc rounds) = L.set_int32 (pos (i + 1)) ∷ x_vec (suc i) rounds

  unfoldable pub recover_share : List L.Fr → L.Fr
  recover_share shares = L.fr_interpolate (x_vec 0 (length shares)) shares

  -- val[i] == 0
  unfoldable pub is_zero_int : ℤ → Bool
  is_zero_int (pos zero) = true
  is_zero_int (pos (suc n)) = false
  is_zero_int (negsuc n) = false

  -- Fr_val
  unfoldable pub fr_vals : List ℤ → Result (List L.Fr)
  fr_vals [] = ok []
  fr_vals (v ∷ val) =
      let rest = fr_vals val in
      if is_zero_int v then err zero_element else (do fs ← rest; ok (L.set_int32 (opposite v) ∷ fs))

  -- (nume_prod, deno_prod) after the rounds from j on
  unfoldable pub others_loop : ℕ → L.Fr → ℕ → List L.Fr → L.Fr × L.Fr → L.Fr × L.Fr
  others_loop i xi j [] prods = prods
  others_loop i xi j (f ∷ fs) (nume, deno) =
      others_loop i xi (suc j) fs (if j == i then (nume, deno) else (nume ⊗ f, deno ⊗ (xi ⊕ f)))

  -- what is appended to lag_coeff in the rounds from i on
  unfoldable pub lag_loop : List L.Fr → ℕ → List ℤ → List L.Fr
  lag_loop fs i [] = []
  lag_loop fs i (v ∷ val) =
      let one = L.set_int32 (pos 1) in
      let prods = others_loop i (L.set_int32 v) 0 fs (one, one) in
      prods.0 ⊗ fr_field.inv prods.1 ∷ lag_loop fs (suc i) val

  unfoldable pub lagrange_coeff : List L.Fr → List ℤ → Result (List L.Fr)
  lagrange_coeff lag_coeff val = do fs ← fr_vals val; ok (lag_coeff ++ lag_loop fs 0 val)
