-- ===== src/Group/Interface.antt =====
-- What the sums of POC/Group.hpp ask of the coordinates of their points: G1Op calls the operations
-- of OnlineOp on shares, G2Op those on complex shares. A client has the operations and these laws.
use proof_of_custody.Prelude.{◌≡◌}
use proof_of_custody.Ring.{Ring, ◌⊕◌, ◌⊗◌, ◌⊖◌}
use proof_of_custody.Engine.{Engine}
use proof_of_custody.Engine.Program.{M, Yields, Fails, division_by_zero}
use proof_of_custody.OnlineOp.Products.Laws.{MasksNonzero}

module _ ⦃E : Engine⦄ where
  pub record Coordinates : Type 1 where
    -- the values, and their ring
    pub Plain : Type 0
    pub ring : Ring Plain
    -- the shared values
    pub Elem : Type 0
    pub opened : Elem → Plain
    pub add : Elem → Elem → Elem
    pub add_inplace : Elem → Elem → Elem
    pub sub : Elem → Elem → Elem
    pub sub_inplace : Elem → Elem → Elem
    pub sub_plain : Elem → Plain → Elem
    pub mul_plain : Elem → Plain → Elem
    -- the product of two clear values
    pub mul_clear : Plain → Plain → Plain
    pub mul : Elem → Elem → M Elem
    pub mul_inplace : Elem → Elem → M Elem
    pub sqr : Elem → M Elem
    pub div_inplace : Elem → Elem → M Elem
    pub add_lem : (a b : Elem) → opened (add a b) ≡ ring.add (opened a) (opened b)
    pub add_inplace_lem : (a b : Elem) → opened (add_inplace a b) ≡ ring.add (opened a) (opened b)
    pub sub_lem : (a b : Elem) → opened (sub a b) ≡ ring.add (opened a) (ring.neg (opened b))
    pub sub_inplace_lem :
        (a b : Elem) → opened (sub_inplace a b) ≡ ring.add (opened a) (ring.neg (opened b))
    pub sub_plain_lem :
        (a : Elem) (x : Plain) → opened (sub_plain a x) ≡ ring.add (opened a) (ring.neg x)
    pub mul_plain_lem : (a : Elem) (x : Plain) → opened (mul_plain a x) ≡ ring.mul (opened a) x
    pub mul_clear_lem : (x y : Plain) → mul_clear x y ≡ ring.mul x y
    pub mul_lem : (a b : Elem) → Yields (mul a b) (λ c. opened c ≡ ring.mul (opened a) (opened b))
    pub mul_inplace_lem :
        (a b : Elem) → Yields (mul_inplace a b) (λ c. opened c ≡ ring.mul (opened a) (opened b))
    pub sqr_lem : (a : Elem) → Yields (sqr a) (λ c. opened c ≡ ring.mul (opened a) (opened a))
    -- the values by which one can divide
    pub Divisor : Plain → Type 0
    pub Divisor-cancel : (d x y : Plain) → Divisor d → ring.mul x d ≡ ring.mul y d → x ≡ y
    pub Divisor-mul : (a b : Plain) → Divisor a → Divisor b → Divisor (ring.mul a b)
    pub div_inplace_lem :
        MasksNonzero
        → (a b : Elem) → Divisor (opened b)
        → Yields (div_inplace a b) (λ c. ring.mul (opened c) (opened b) ≡ opened a)
    pub div_inplace-Fails :
        (a b : Elem) → opened b ≡ ring.zero → Fails (div_inplace a b) division_by_zero

module _ ⦃E : Engine⦄ ⦃F : Coordinates⦄ where
  instance abbrev pub coordinate_ring : Ring F.Plain
  coordinate_ring = F.ring

  pub opened-add : (a b : F.Elem) → F.opened (F.add a b) ≡ F.opened a ⊕ F.opened b
  opened-add = F.add_lem

  pub opened-add_inplace : (a b : F.Elem) → F.opened (F.add_inplace a b) ≡ F.opened a ⊕ F.opened b
  opened-add_inplace = F.add_inplace_lem

  pub opened-sub : (a b : F.Elem) → F.opened (F.sub a b) ≡ F.opened a ⊖ F.opened b
  opened-sub = F.sub_lem

  pub opened-sub_inplace : (a b : F.Elem) → F.opened (F.sub_inplace a b) ≡ F.opened a ⊖ F.opened b
  opened-sub_inplace = F.sub_inplace_lem

  pub opened-sub_plain : (a : F.Elem) (x : F.Plain) → F.opened (F.sub_plain a x) ≡ F.opened a ⊖ x
  opened-sub_plain = F.sub_plain_lem

  pub opened-mul_plain : (a : F.Elem) (x : F.Plain) → F.opened (F.mul_plain a x) ≡ F.opened a ⊗ x
  opened-mul_plain = F.mul_plain_lem

  pub product_clear : (x y : F.Plain) → F.mul_clear x y ≡ x ⊗ y
  product_clear = F.mul_clear_lem

-- What an expression of local operations opens to.
pub ruleset opening = (
  opened-add, opened-add_inplace, opened-sub, opened-sub_inplace, opened-sub_plain,
  opened-mul_plain, product_clear,
)
