-- ===== src/OnlineOp/Linear/Laws.antt =====
-- The values of what OnlineOp.hpp's sums, differences and products return.
use mathlib.Core.List.{append-nil}
use proof_of_custody.Prelude.{
  take_all, ◌-◌, ℕ, ◌≡◌, refl, ap, ap₂, ◌∙◌, List, [], ◌∷◌, ◌++◌, map, length, zip_with, replicate,
  ==_refl, arith,
}
use proof_of_custody.Ring.{◌⊕◌, ◌⊗◌, ◌⊖◌}
use proof_of_custody.Engine.{Engine}
use proof_of_custody.Engine.Program.{
  Yields, Yields-bind, Yields-call, Yields-index, Yields-guard, index, clear_ring, assertion_failed,
}
use proof_of_custody.OnlineOp.Linear.{
  add, add_plain, add_inplace, add_plain_inplace, sub, sub_plain, sub_inplace, mul_plain, mul_vec,
  mul, mul_inplace, reveal_vec, get_inputs, resize,
}

module _ ⦃E : Engine⦄ where
  abbrev pub opened_all : List E.Share → List E.Clear
  opened_all = map E.opened

  pub mul_vec_lem :
      (a b : List E.Share)
      → length a ≡ length b
      → Yields (mul_vec a b) (λ c. opened_all c ≡ zip_with E.ring.mul (opened_all a) (opened_all b))
  unfolding mul_vec
  mul_vec_lem a b h =
      Yields-guard assertion_failed (rw h (==_refl _))
        (Yields-call (E.run_mul a b) (λ s. E.opened-run_mul a b s h))

  head_of :
      (xs : List E.Share) (x : E.Clear)
      → opened_all xs ≡ x ∷ []
      → Yields (index xs 0) (λ c. E.opened c ≡ x)
  head_of [] x h = cc
  head_of (c ∷ xs) x h = Yields-index (c ∷ xs) 0 c refl (cc)

  pub mul_lem : (a b : E.Share) → Yields (mul a b) (λ c. E.opened c ≡ E.opened a ⊗ E.opened b)
  unfolding mul
  mul_lem a b =
      Yields-bind (mul_vec_lem (a ∷ []) (b ∷ []) refl)
        (λ vc h. head_of vc (E.opened a ⊗ E.opened b) h)

  pub mul_inplace_lem :
      (c a : E.Share) → Yields (mul_inplace c a) (λ d. E.opened d ≡ E.opened c ⊗ E.opened a)
  unfolding mul_inplace
  mul_inplace_lem c a =
      Yields-bind (mul_vec_lem (a ∷ []) (c ∷ []) refl)
        (λ vc h. head_of vc (E.opened c ⊗ E.opened a) (h ∙ ap (λ x. x ∷ []) (E.ring.mul_comm _ _)))

  pub reveal_vec_lem : (a : List E.Share) → Yields (reveal_vec a) (λ c. c ≡ opened_all a)
  unfolding reveal_vec
  reveal_vec_lem a = Yields-call (E.run_open a) (E.run_open-opened a)

  pub get_inputs_lem :
      (party : ℕ) (inputs : ℕ → E.Clear)
      → Yields (get_inputs party inputs) (λ c. E.opened c ≡ inputs party)
  unfolding get_inputs
  get_inputs_lem party inputs =
      Yields-call (E.run_input party inputs) (E.opened-run_input party inputs)

  pub opened-add : (a b : E.Share) → E.opened (add a b) ≡ E.opened a ⊕ E.opened b
  unfolding add
  opened-add a b = E.opened-add_share a b

  pub opened-add_inplace : (a b : E.Share) → E.opened (add_inplace a b) ≡ E.opened a ⊕ E.opened b
  unfolding add_inplace
  opened-add_inplace a b = E.opened-add_share a b

  pub opened-sub : (a b : E.Share) → E.opened (sub a b) ≡ E.opened a ⊖ E.opened b
  unfolding sub
  opened-sub a b = E.opened-sub_share a b

  pub opened-sub_inplace : (a b : E.Share) → E.opened (sub_inplace a b) ≡ E.opened a ⊖ E.opened b
  unfolding sub_inplace
  opened-sub_inplace a b = E.opened-sub_share a b

  pub opened-add_plain : (a : E.Share) (x : E.Clear) → E.opened (add_plain a x) ≡ E.opened a ⊕ x
  unfolding add_plain
  opened-add_plain a x =
      E.opened-add_share a (E.constant x) ∙ ap (λ y. E.opened a ⊕ y) (E.opened-constant x)

  pub opened-add_plain_inplace :
      (a : E.Share) (x : E.Clear) → E.opened (add_plain_inplace a x) ≡ E.opened a ⊕ x
  unfolding add_plain_inplace
  opened-add_plain_inplace a x =
      E.opened-add_share a (E.constant x) ∙ ap (λ y. E.opened a ⊕ y) (E.opened-constant x)

  pub opened-sub_plain : (a : E.Share) (x : E.Clear) → E.opened (sub_plain a x) ≡ E.opened a ⊖ x
  unfolding sub_plain
  opened-sub_plain a x =
      E.opened-sub_share a (E.constant x) ∙ ap (λ y. E.opened a ⊖ y) (E.opened-constant x)

  pub opened-mul_plain : (a : E.Share) (x : E.Clear) → E.opened (mul_plain a x) ≡ E.opened a ⊗ x
  unfolding mul_plain
  opened-mul_plain a x = E.opened-scale a x

  pub resize_same : {A : Type 0} (n : ℕ) (d : A) (xs : List A) → length xs ≡ n → resize n d xs ≡ xs
  unfolding resize
  resize_same n d xs h = rw (← h) (
      let e : length xs - length xs ≡ 0 = omega arith in
      ap₂ ◌++◌ (take_all xs) (ap (λ k. replicate k d) e) ∙ append-nil xs)

  pub opened-zip_with :
      (f : E.Share → E.Share → E.Share) (h : E.Clear → E.Clear → E.Clear)
      → ((a b : E.Share) → E.opened (f a b) ≡ h (E.opened a) (E.opened b))
      → (xs ys : List E.Share)
      → opened_all (zip_with f xs ys) ≡ zip_with h (opened_all xs) (opened_all ys)
  opened-zip_with f h e [] ys = refl
  opened-zip_with f h e (x ∷ xs) [] = refl
  opened-zip_with f h e (x ∷ xs) (y ∷ ys) = ap₂ ◌∷◌ (e x y) (opened-zip_with f h e xs ys)

  pub opened-zip_with_plain :
      (f : E.Share → E.Clear → E.Share) (h : E.Clear → E.Clear → E.Clear)
      → ((a : E.Share) (b : E.Clear) → E.opened (f a b) ≡ h (E.opened a) b)
      → (xs : List E.Share) (ys : List E.Clear)
      → opened_all (zip_with f xs ys) ≡ zip_with h (opened_all xs) ys
  opened-zip_with_plain f h e [] ys = refl
  opened-zip_with_plain f h e (x ∷ xs) [] = refl
  opened-zip_with_plain f h e (x ∷ xs) (y ∷ ys) =
      ap₂ ◌∷◌ (e x y) (opened-zip_with_plain f h e xs ys)

-- What an expression of local operations opens to.
pub ruleset opening = (
  opened-add, opened-add_inplace, opened-sub, opened-sub_inplace, opened-add_plain,
  opened-add_plain_inplace, opened-sub_plain, opened-mul_plain,
)
