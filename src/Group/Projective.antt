-- ===== src/Group/Projective.antt =====
-- POC/Group.hpp, lines 170 to 274: the sum of two points of G1 in projective coordinates, where (X,
-- Y, Z) stands for the affine point (X / Z, Y / Z).
pub mod Values
pub mod Sum
use proof_of_custody.Prelude.{◌≡◌}
use proof_of_custody.Ring.{◌⊗◌}
use proof_of_custody.Engine.{Engine}
use proof_of_custody.OnlineOp.Products.Laws.{MasksNonzero}
use proof_of_custody.Group.Interface.{Coordinates, coordinate_ring, opening}
use proof_of_custody.Engine.Program.{M, pure, ◌>>=◌}
use proof_of_custody.Group.{Affine}

-- G1_Projective_Coordinates, and its _Plain form over `clear`
pub record Projective (A : Type 0) : Type 0 where
  pub x : A
  pub y : A
  pub z : A

module _ ⦃E : Engine⦄ ⦃F : Coordinates⦄ where
  -- The end of both sums, from R on, where t is Z1 * Z2.
  unfoldable pub finish_proj : F.Elem → F.Elem → F.Elem → F.Elem → F.Elem → M (Projective F.Elem)
  finish_proj s1 s2 u1 u2 t = do
    let r = F.sub s1 s2
    let h = F.sub u1 u2
    h2 ← F.sqr h
    v ← F.mul u1 h2
    g ← F.mul h2 h
    r2 ← F.sqr r
    w ← F.mul r2 t
    let w' = F.sub_inplace (F.sub_inplace (F.add_inplace w g) v) v
    cz ← F.mul t g
    tmp ← F.mul s1 g
    cy ← F.mul_inplace (F.sub v w') r
    cx ← F.mul h w'
    pure (record { x = cx; y = F.sub_inplace cy tmp; z = cz })

  unfoldable pub add_proj : Projective F.Elem → Projective F.Elem → M (Projective F.Elem)
  add_proj a b = do
    s2 ← F.mul b.y a.z
    s1 ← F.mul a.y b.z
    u2 ← F.mul b.x a.z
    u1 ← F.mul a.x b.z
    t ← F.mul a.z b.z
    finish_proj s1 s2 u1 u2 t

  unfoldable pub add_plain_proj : Projective F.Elem → Projective F.Plain → M (Projective F.Elem)
  add_plain_proj a b =
      finish_proj (F.mul_plain a.y b.z) (F.mul_plain a.z b.y) (F.mul_plain a.x b.z)
        (F.mul_plain a.z b.x) (F.mul_plain a.z b.z)

  unfoldable pub add_proj_inplace : Projective F.Elem → Projective F.Elem → M (Projective F.Elem)
  add_proj_inplace c a = add_proj c a

  unfoldable pub add_plain_proj_inplace :
      Projective F.Elem → Projective F.Plain → M (Projective F.Elem)
  add_plain_proj_inplace c a = add_plain_proj c a

  abbrev pub opened_proj : Projective F.Elem → Projective F.Plain
  opened_proj a = record { x = F.opened a.x; y = F.opened a.y; z = F.opened a.z }

  -- Z can be divided by, X = x Z and Y = y Z
  pub record Homogeneous (p : Affine F.Plain) (j : Projective F.Plain) : Type 0 where
    pub x_scaled : j.x ≡ p.x ⊗ j.z
    pub y_scaled : j.y ≡ p.y ⊗ j.z
    pub z_divides : F.Divisor j.z
