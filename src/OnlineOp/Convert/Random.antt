-- ===== src/OnlineOp/Convert/Random.antt =====
-- pre_rand: the bits of each round, the test that accepts them, and the number that is returned.
use native.Mathlib.Nat.{mod-eq_of_lt}
use proof_of_custody.Prelude.{
  ℕ, zero, suc, ◌^◌, ◌<◌, ◌≡◌, refl, sym, ap, ap₂, ◌∙◌, ◌⊎◌, Bool, true, false, List, [], ◌∷◌,
  length, arith, ltb, ltb→lt, Bool-cases, inl, inr,
}
use proof_of_custody.Ring.{◌⊖◌, nat, add-neg, neg-neg, neg-zero}
use proof_of_custody.Engine.{Engine}
use proof_of_custody.Engine.Program.{
  ok, err, bit, Yields, Yields-bind, Yields-pure, Yields-weaken, Yields-call, pure, Yields-index,
  clear_ring, ◌>>=◌,
}
use proof_of_custody.Bitwise.{value, bits_of}
use proof_of_custody.Bitwise.Numbers.{value-bits_of, length-bits_of}
use proof_of_custody.OnlineOp.Linear.Laws.{reveal_vec_lem}
use proof_of_custody.OnlineOp.Bits.Laws.{Reads, ReadsAll}
use proof_of_custody.OnlineOp.Compare.Laws.{lt_plain_lem}
use proof_of_custody.OnlineOp.Convert.{psize, draw_bits, attempt, pre_rand}
use proof_of_custody.OnlineOp.Convert.Laws.{decompose_lem, b2a_lem}

pub psize_pos : 0 < psize
unfolding psize
psize_pos = omega arith

module _ ⦃E : Engine⦄ where
  bit_of_share :
      (b : E.Share)
      → (E.opened b ≡ E.ring.zero) ⊎ (E.opened b ≡ E.ring.one)
      → (x : Bool) × Reads b x
  bit_of_share b (inl h) = (false, h)
  bit_of_share b (inr h) = (true, h)

  draw_bits_lem :
      (n : ℕ) → Yields (draw_bits n) (λ b. (xs : List Bool) × ReadsAll b xs × (length xs ≡ n))
  unfolding draw_bits
  draw_bits_lem zero = Yields-pure [] ([], refl, refl)
  draw_bits_lem (suc n) =
      Yields-bind {P = λ b. (x : Bool) × Reads b x}
        (Yields-call E.get_one (λ s. bit_of_share _ (E.get_one-bit s)))
        (λ b (x, hx).
          Yields-bind (draw_bits_lem n)
            (λ rest (xs, hxs, e). Yields-pure (b ∷ rest) (x ∷ xs, ap₂ ◌∷◌ hx hxs, ap suc e)))

  is_one : (b : Bool) → E.is_zero (bit b ⊖ E.ring.one) ≡ b
  is_one true = (E.is_zero_iff _).1 (add-neg E.ring.one)
  is_one false = elim (Bool-cases (E.is_zero (E.ring.zero ⊖ E.ring.one))) [
    | inl h ↦ absurd (
        E.one-ne-zero (
          sym (neg-neg E.ring.one)
          ∙ ap E.ring.neg (sym (E.ring.zero-add _) ∙ (E.is_zero_iff _).0 h)
          ∙ neg-zero))
    | inr h ↦ h
  ]

  -- If PSIZE drawn bits have a property, then an attempt keeps it, and accepts them exactly if
  -- their number is below the order of the field.
  pub attempt_from :
      {Q : List Bool → Type 0}
      → E.pr < 2 ^ psize
      → Yields
          (draw_bits psize)
          (λ b. (xs : List Bool) × ReadsAll b xs × (length xs ≡ psize) × Q xs)
      → Yields attempt (λ t.
        (xs : List Bool) × ReadsAll t.0 xs
        × (length xs ≡ psize)
        × Q xs
        × (t.1 ≡ ltb (value xs) E.pr))
  unfolding attempt
  attempt_from small drawn = Yields-bind drawn (λ b (xs, hxs, e, q).
      Yields-bind
        (rw (decompose_lem E.pr psize) (
          lt_plain_lem psize xs (bits_of psize E.pr) e (length-bits_of psize E.pr) psize_pos b hxs))
        (λ flag hf. Yields-bind (reveal_vec_lem (flag ∷ [])) (λ pf hp.
          Yields-bind (Yields-index {P = λ v. v ≡ E.opened flag} pf 0 (E.opened flag) (rw hp) refl)
            (λ v hv. Yields-pure _ (
              xs,
              hxs,
              e,
              q,
              ap (λ u. E.is_zero (u ⊖ E.ring.one)) (hv ∙ hf)
                  ∙ is_one _
                  ∙ ap (ltb (value xs)) (value-bits_of psize E.pr ∙ mod-eq_of_lt small),
            )))))

  -- A vector of PSIZE bits, and whether its number is below the order of the field.
  abbrev pub Attempted : List E.Share × Bool → Type 0
  Attempted t =
      (xs : List Bool) × ReadsAll t.0 xs × (length xs ≡ psize) × (t.1 ≡ ltb (value xs) E.pr)

  -- A round draws PSIZE bits, and accepts them exactly if their number is below the order.
  pub attempt_lem : E.pr < 2 ^ psize → Yields attempt Attempted
  attempt_lem small =
      Yields-weaken
        (attempt_from {Q = λ _. Unit {0}} small
          (Yields-weaken (draw_bits_lem psize) (λ b (xs, h, e). (xs, h, e, tt))))
        (λ t (xs, h, e, _, a). (xs, h, e, a))

  -- One of the next `fuel` rounds from this state is accepted.
  abbrev pub AcceptsWithin : ℕ → E.State → Type 0
  AcceptsWithin zero s = ⊥
  AcceptsWithin (suc fuel) s = elim (attempt s) [
    | ok r ↦ elim r.0.1 [ true ↦ Unit {0} | false ↦ AcceptsWithin fuel r.1 ]
    | err e ↦ ⊥
  ]

  -- A shared number below the order of the field, with its bits.
  abbrev pub RandomNumber : E.Share × List E.Share → Type 0
  RandomNumber r =
      (xs : List Bool) × ReadsAll r.1 xs
      × (length xs ≡ psize)
      × (value xs < E.pr)
      × (E.opened r.0 ≡ nat (value xs))

  -- `pre_rand` returns such a number from this state.
  abbrev Succeeds : ℕ → E.State → Type 0
  Succeeds fuel s =
      (r : E.Share × List E.Share) × (s' : E.State) × (pre_rand fuel s ≡ ok (r, s'))
      × RandomNumber r

  after_attempt :
      (fuel : ℕ) (s s' : E.State) (t : List E.Share × Bool)
      → attempt s ≡ ok (t, s')
      → Attempted t
      → AcceptsWithin (suc fuel) s
      → (AcceptsWithin fuel s' → Succeeds fuel s')
      → Succeeds (suc fuel) s
  unfolding pre_rand ◌>>=◌ pure
  after_attempt fuel s s' (bits, true) e (xs, hxs, hl, accepted) h later =
      let (r, s'', e', hr) = (b2a_lem psize bits xs hxs hl psize_pos).run s' in
      (
        (r, bits),
        s'',
        rw (e, ◌>>=◌) (rw (e', ◌>>=◌)),
        (xs, hxs, hl, ltb→lt (value xs) E.pr (sym accepted), hr),
      )
  after_attempt fuel s s' (bits, false) e attempted h later =
      let (r, s'', e', hr) = later (rw (e, AcceptsWithin) at h) in (r, s'', rw (e, ◌>>=◌) e', hr)

  pre_rand_from :
      E.pr < 2 ^ psize → (fuel : ℕ) (s : E.State) → AcceptsWithin fuel s → Succeeds fuel s
  pre_rand_from small zero s h = absurd h
  pre_rand_from small (suc fuel) s h =
      let (t, s', e, attempted) = (attempt_lem small).run s in
      after_attempt fuel s s' t e attempted h (pre_rand_from small fuel s')

  -- If the order of the field is below 2^PSIZE, and from every state one of the next `fuel` rounds is
  -- accepted, `pre_rand` ends with a number below the order of the field and its bits.
  pub pre_rand_lem :
      E.pr < 2 ^ psize
      → (fuel : ℕ) → ((s : E.State) → AcceptsWithin fuel s)
      → Yields (pre_rand fuel) RandomNumber
  pre_rand_lem small fuel live = record { run = λ s. pre_rand_from small fuel s (live s) }
