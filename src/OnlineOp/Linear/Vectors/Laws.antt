-- ===== src/OnlineOp/Linear/Vectors/Laws.antt =====
-- What the operations on vectors open to.
use proof_of_custody.Prelude.{
  ℕ, zero, suc, ◌≡◌, refl, ap, ap₂, ◌∙◌, List, [], ◌∷◌, length, zip_with, ==_refl,
}
use proof_of_custody.Ring.{◌⊖◌}
use proof_of_custody.Engine.{Engine}
use proof_of_custody.Engine.Program.{
  Yields, Yields-bind, Yields-call, Yields-pure, Yields-index, Yields-guard, clear_ring,
  assertion_failed,
}
use proof_of_custody.OnlineOp.Linear.{
  add_plain_inplace, sub_plain, sub_plain_inplace, mul_plain_inplace,
}
use proof_of_custody.OnlineOp.Linear.Laws.{
  opened_all, resize_same, opened-zip_with_plain, opened-add_plain_inplace, opened-sub_plain,
  mul_inplace_lem, get_inputs_lem,
}
use proof_of_custody.OnlineOp.Linear.Vectors.{
  add_plain_inplace_vec, sub_plain_vec, sub_plain_inplace_vec, mul_plain_inplace_vec,
  mul_inplace_loop, mul_inplace_vec, reveal, get_inputs_loop, get_inputs_vec,
}

module _ ⦃E : Engine⦄ where
  opened-add_plain_inplace_vec :
      (c : List E.Share) (a : List E.Clear)
      → length c ≡ length a
      → opened_all (add_plain_inplace_vec c a) ≡ zip_with E.ring.add (opened_all c) a
  unfolding add_plain_inplace_vec
  opened-add_plain_inplace_vec c a h =
      rw (resize_same (length a) E.fresh c h)
        (opened-zip_with_plain add_plain_inplace E.ring.add opened-add_plain_inplace c a)

  opened-mul_plain_inplace_vec :
      (c : List E.Share) (a : List E.Clear)
      → length c ≡ length a
      → opened_all (mul_plain_inplace_vec c a) ≡ zip_with E.ring.mul (opened_all c) a
  unfolding mul_plain_inplace_vec mul_plain_inplace
  opened-mul_plain_inplace_vec c a h =
      rw (resize_same (length a) E.fresh c h)
        (opened-zip_with_plain mul_plain_inplace E.ring.mul E.opened-scale c a)

  opened-sub_plain_inplace :
      (c : E.Share) (x : E.Clear) → E.opened (sub_plain_inplace c x) ≡ E.opened c ⊖ x
  unfolding sub_plain_inplace
  opened-sub_plain_inplace c x =
      E.opened-sub_share c (E.constant x) ∙ ap (λ y. E.opened c ⊖ y) (E.opened-constant x)

  opened-sub_plain_inplace_vec :
      (c : List E.Share) (a : List E.Clear)
      → length c ≡ length a
      → opened_all (sub_plain_inplace_vec c a) ≡ zip_with (λ x y. x ⊖ y) (opened_all c) a
  unfolding sub_plain_inplace_vec
  opened-sub_plain_inplace_vec c a h =
      rw (resize_same (length a) E.fresh c h)
        (opened-zip_with_plain sub_plain_inplace (λ x y. x ⊖ y) opened-sub_plain_inplace c a)

  sub_plain_vec_lem :
      (a : List E.Share) (b : List E.Clear)
      → length a ≡ length b
      → Yields (sub_plain_vec a b) (λ c. opened_all c ≡ zip_with (λ x y. x ⊖ y) (opened_all a) b)
  unfolding sub_plain_vec
  sub_plain_vec_lem a b h =
      Yields-guard assertion_failed (rw h (==_refl _))
        (Yields-pure _ (opened-zip_with_plain sub_plain (λ x y. x ⊖ y) opened-sub_plain a b))

  mul_inplace_loop_lem :
      (c a : List E.Share)
      → Yields
          (mul_inplace_loop c a)
          (λ d. opened_all d ≡ zip_with E.ring.mul (opened_all c) (opened_all a))
  unfolding mul_inplace_loop
  mul_inplace_loop_lem [] a = Yields-pure [] refl
  mul_inplace_loop_lem (x ∷ c) [] = Yields-pure [] refl
  mul_inplace_loop_lem (x ∷ c) (y ∷ a) = Yields-bind (mul_inplace_lem x y) (λ z hz.
      Yields-bind (mul_inplace_loop_lem c a) (λ rest hr. Yields-pure (z ∷ rest) (ap₂ ◌∷◌ hz hr)))

  -- The vector product in place multiplies the operands in pairs.
  mul_inplace_vec_lem :
      (c a : List E.Share)
      → length c ≡ length a
      → Yields
          (mul_inplace_vec c a)
          (λ d. opened_all d ≡ zip_with E.ring.mul (opened_all c) (opened_all a))
  unfolding mul_inplace_vec
  mul_inplace_vec_lem c a h = rw (resize_same (length a) E.fresh c h) (mul_inplace_loop_lem c a)

  reveal_lem : (a : E.Share) → Yields (reveal a) (λ x. x ≡ E.opened a)
  unfolding reveal
  reveal_lem a =
      Yields-bind
        (Yields-call {P = λ r. r ≡ E.opened a ∷ []} (E.run_open (a ∷ []))
          (E.run_open-opened (a ∷ [])))
        (λ r h. rw (h) (Yields-index _ 0 (E.opened a) refl refl))

  -- i, i + 1, .., each place of the vector of one party
  unfoldable places : (ℕ → E.Clear) → ℕ → ℕ → List E.Clear
  places f i zero = []
  places f i (suc n) = f i ∷ places f (suc i) n

  get_inputs_loop_lem :
      (party : ℕ) (inputs : ℕ → ℕ → E.Clear) (i n : ℕ)
      → Yields (get_inputs_loop party inputs i n) (λ c. opened_all c ≡ places (inputs party) i n)
  unfolding get_inputs_loop places
  get_inputs_loop_lem party inputs i zero = Yields-pure [] refl
  get_inputs_loop_lem party inputs i (suc n) =
      Yields-bind (get_inputs_lem party (λ p. inputs p i)) (λ z hz.
        Yields-bind (get_inputs_loop_lem party inputs (suc i) n)
          (λ rest hr. Yields-pure (z ∷ rest) (ap₂ ◌∷◌ hz hr)))

  -- The input of a vector shares the vector of the party that is named.
  get_inputs_vec_lem :
      (party : ℕ) (inputs : ℕ → ℕ → E.Clear) (n : ℕ)
      → Yields (get_inputs_vec party inputs n) (λ c. opened_all c ≡ places (inputs party) 0 n)
  unfolding get_inputs_vec
  get_inputs_vec_lem party inputs n = get_inputs_loop_lem party inputs 0 n
