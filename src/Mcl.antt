-- ===== src/Mcl.antt =====
-- What POC/bls.cpp, POC/vss.cpp and Math/Lagrange.cpp call of the mcl library (mclBnFr_.., mclBnG1_..,
-- mclBnG2_.., mclBn_pairing), with the documented meaning of each call: the field of the order of
-- the curve's groups, the groups, and the pairing.
use proof_of_custody.Prelude.{ℕ, zero, suc, ◌<◌, ◌≤◌, ◌≡◌, ◌↔◌, Bool, true, List, ◌∷◌, map, length}
use proof_of_custody.Ring.{Ring, nat}
use proof_of_custody.Ring.Module.{Additive, Module}
use proof_of_custody.Ring.Polynomial.{poly, poly_in}
use proof_of_custody.Ring.Interpolation.{Field, Apart, Distinct}

-- an int
pub data ℤ : Type 0 where
  pos : ℕ → ℤ
  -- - (n + 1)
  negsuc : ℕ → ℤ

-- (-1) * i
unfoldable pub opposite : ℤ → ℤ
opposite (pos zero) = pos 0
opposite (pos (suc n)) = negsuc n
opposite (negsuc n) = pos (suc n)

-- 2 ^ 31: a larger number is negative as an int
unfoldable pub int_limit : ℕ
int_limit = 2147483648

pub record Mcl : Type 1 where
  -- mclBnFr: add, sub, mul, neg, inv
  pub Fr : Type 0
  pub ring : Ring Fr
  pub field : Field Fr ⦃r = ring⦄
  -- mclBnFr_setInt32; numbers below the order of the field are different in it
  pub set_int32 : ℤ → Fr
  pub set_int32-pos : (n : ℕ) → n < int_limit → set_int32 (pos n) ≡ nat ⦃r = ring⦄ n
  pub set_int32-opposite :
      (n : ℕ) → n < int_limit → set_int32 (opposite (pos n)) ≡ ring.neg (nat ⦃r = ring⦄ n)
  pub order : ℕ
  pub nat-injective :
      (m n : ℕ) → m < order → n < order → nat ⦃r = ring⦄ m ≡ nat ⦃r = ring⦄ n → m ≡ n
  -- mclBnFr_setByCSPRNG: what it leaves in its argument, and whether it succeeded
  pub Seed : Type 0
  pub set_by_csprng : Seed → (Fr × Bool) × Seed
  -- mclBnG1: add, mul, isEqual, and the point G1_P
  pub G1 : Type 0
  pub points1 : Additive G1
  pub module1 : Module Fr ⦃r = ring⦄ G1 ⦃g = points1⦄
  pub base_point : G1
  pub is_equal1 : G1 → G1 → Bool
  pub is_equal1_iff : (p q : G1) → (is_equal1 p q ≡ true) ↔ (p ≡ q)
  -- mclBn_FrEvaluatePolynomial, mclBn_G1EvaluatePolynomial: at least one coefficient
  pub fr_evaluate : List Fr → Fr → Fr
  pub fr_evaluate_lem :
      (c : Fr) (cs : List Fr) (x : Fr) → fr_evaluate (c ∷ cs) x ≡ poly ⦃r = ring⦄ (c ∷ cs) x
  pub g1_evaluate : List G1 → Fr → G1
  pub g1_evaluate_lem :
      (p : G1) (ps : List G1) (x : Fr)
      → g1_evaluate (p ∷ ps) x ≡ poly_in ⦃r = ring⦄ ⦃g = points1⦄ ⦃m = module1⦄ (p ∷ ps) x
  -- mclBn_FrLagrangeInterpolation: the value at 0 of the polynomial through the points, which are at
  -- least one, distinct and not 0
  pub fr_interpolate : List Fr → List Fr → Fr
  pub fr_interpolate_lem :
      (cs xs : List Fr)
      → Distinct ⦃r = ring⦄ ⦃f = field⦄ xs
      → Apart ⦃r = ring⦄ ⦃f = field⦄ ring.zero xs
      → 0 < length xs
      → length cs ≤ length xs
      → fr_interpolate xs (map (poly ⦃r = ring⦄ cs) xs) ≡ poly ⦃r = ring⦄ cs ring.zero
  -- mclBnG2: add, mul, hashAndMapTo
  pub G2 : Type 0
  pub points2 : Additive G2
  pub module2 : Module Fr ⦃r = ring⦄ G2 ⦃g = points2⦄
  pub Message : Type 0
  pub hash_and_map_to : Message → G2
  -- mclBnGT and mclBn_pairing: scalars move from one side to the other, and the pairing with the
  -- base point tells the points of G2 apart
  pub GT : Type 0
  pub is_equal_t : GT → GT → Bool
  pub is_equal_t_iff : (s t : GT) → (is_equal_t s t ≡ true) ↔ (s ≡ t)
  pub pairing : G1 → G2 → GT
  pub pairing-scale :
      (p : G1) (q : G2) (a : Fr) → pairing (module1.scale p a) q ≡ pairing p (module2.scale q a)
  pub pairing-injective : (p q : G2) → pairing base_point p ≡ pairing base_point q → p ≡ q

module _ ⦃L : Mcl⦄ where
  instance abbrev pub fr_ring : Ring L.Fr
  fr_ring = L.ring

  instance abbrev pub fr_field : Field L.Fr
  fr_field = L.field

  instance abbrev pub g1_points : Additive L.G1
  g1_points = L.points1

  instance abbrev pub g1_module : Module L.Fr L.G1
  g1_module = L.module1

  instance abbrev pub g2_points : Additive L.G2
  g2_points = L.points2

  instance abbrev pub g2_module : Module L.Fr L.G2
  g2_module = L.module2

  -- The numbers up to n are ints, and different field elements.
  pub record Fits (n : ℕ) : Type 0 where
    pub in_int : n < int_limit
    pub in_field : n < L.order

  -- mclBnG2_mul, mclBnG2_add
  abbrev pub mul2 : L.G2 → L.Fr → L.G2
  mul2 p a = g2_module.scale p a

  abbrev pub add2 : L.G2 → L.G2 → L.G2
  add2 p q = g2_points.add p q

  pub mul2-add : (p : L.G2) (a b : L.Fr) → mul2 p (fr_ring.add a b) ≡ add2 (mul2 p a) (mul2 p b)
  mul2-add p a b = g2_module.scale-add p a b
