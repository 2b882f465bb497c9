-- ===== src/Group.antt =====
-- POC/Group.hpp, lines 9 to 65: the sum of two points of G1 in affine coordinates, both shared or
-- one clear.
pub mod Interface
pub mod Chord
pub mod Laws
pub mod Jacobian
pub mod Projective
pub mod G1
pub mod G2
use proof_of_custody.Engine.{Engine}
use proof_of_custody.OnlineOp.Products.Laws.{MasksNonzero}
use proof_of_custody.Group.Interface.{Coordinates, coordinate_ring, opening}
use proof_of_custody.Engine.Program.{M, pure, ◌>>=◌}

-- G1_Affine_Coordinates, and its _Plain form over `clear`
pub record Affine (A : Type 0) : Type 0 where
  pub x : A
  pub y : A

module _ ⦃E : Engine⦄ ⦃F : Coordinates⦄ where
  unfoldable pub add_plain_aff : Affine F.Elem → Affine F.Plain → M (Affine F.Elem)
  add_plain_aff a b = do
    m ← F.div_inplace (F.sub_plain a.y b.y) (F.sub_plain a.x b.x)
    mm ← F.sqr m
    let cx = F.sub_plain (F.sub_inplace mm a.x) b.x
    cy ← F.mul_inplace (F.sub a.x cx) m
    pure (record { x = cx; y = F.sub_inplace cy a.y })

  unfoldable pub add_aff : Affine F.Elem → Affine F.Elem → M (Affine F.Elem)
  add_aff a b = do
    m ← F.div_inplace (F.sub a.y b.y) (F.sub a.x b.x)
    mm ← F.sqr m
    let cx = F.sub (F.sub_inplace mm a.x) b.x
    cy ← F.mul_inplace (F.sub a.x cx) m
    pure (record { x = cx; y = F.sub_inplace cy a.y })

  unfoldable pub add_plain_aff_inplace : Affine F.Elem → Affine F.Plain → M (Affine F.Elem)
  add_plain_aff_inplace c a = add_plain_aff c a

  unfoldable pub add_aff_inplace : Affine F.Elem → Affine F.Elem → M (Affine F.Elem)
  add_aff_inplace c a = add_aff c a
