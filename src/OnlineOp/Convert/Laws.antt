-- ===== src/OnlineOp/Convert/Laws.antt =====
-- The values of `decompose` and `B2A`: the bits of a number, and the number of the bits.
use native.Mathlib.Nat.{two-pow-succ}
use proof_of_custody.Prelude.{
  ℕ, zero, suc, ◌+◌, ◌-◌, ◌*◌, ◌/◌, ◌%◌, ◌^◌, ◌<◌, ◌≡◌, refl, sym, ap, ap₂, ◌∙◌, Bool, true, false,
  some, List, [], ◌∷◌, map, length, get_elem?, take, arith, ◌==◌, take_all,
}
use proof_of_custody.Ring.{◌⊕◌, ◌⊗◌, nat, nat-add, nat-mul, add-zero}
use proof_of_custody.Engine.{Engine}
use proof_of_custody.Engine.Program.{bit, Yields, Yields-bind, Yields-pure, clear_ring}
use proof_of_custody.Bitwise.{value, bits_of, bit_ℕ}
use proof_of_custody.OnlineOp.Linear.{power, power_loop, add_inplace, mul_plain}
use proof_of_custody.OnlineOp.Linear.Laws.{opening}
use proof_of_custody.OnlineOp.Bits.Laws.{ReadsAll}
use proof_of_custody.OnlineOp.Folds.Laws.{Yields-get}
use proof_of_custody.OnlineOp.Convert.{decompose, decompose_loop, b2a, b2a_loop}

pub nat-bit : ⦃E : Engine⦄ (x : Bool) → nat (bit_ℕ x) ≡ bit x
unfolding nat
nat-bit ⦃E⦄ true = add-zero E.ring.one
nat-bit false = refl

module _ ⦃E : Engine⦄ where
  nat_of_rem : (n : ℕ) → nat (n % 2) ≡ bit (n % 2 == 1)
  nat_of_rem n =
      let e : n % 2 ≡ bit_ℕ (n % 2 == 1) = ground arith in ap nat e ∙ nat-bit (n % 2 == 1)

  decompose_loop_lem : (n x : ℕ) → decompose_loop n x ≡ map bit (bits_of n (x / 2))
  unfolding decompose_loop bits_of
  decompose_loop_lem zero x = refl
  decompose_loop_lem (suc n) x = ap₂ ◌∷◌ (nat_of_rem (x / 2)) (decompose_loop_lem n (x / 2))

  -- The items are the bits of the number.
  pub decompose_lem : (x k : ℕ) → decompose x k ≡ map bit (bits_of k x)
  unfolding decompose bits_of
  decompose_lem x zero = refl
  decompose_lem x (suc n) = ap₂ ◌∷◌ (nat_of_rem x) (decompose_loop_lem n x)

  power_loop_lem : (n m : ℕ) → power_loop n (nat 2) (nat m) ≡ nat (m * 2 ^ n)
  unfolding power_loop
  power_loop_lem zero m = let e : m ≡ m * 2 ^ 0 = omega arith in ap nat e
  power_loop_lem (suc n) m =
      ap (power_loop n (nat 2)) (sym (nat-mul m 2))
      ∙ power_loop_lem n (m * 2)
      ∙ (let e : m * 2 * 2 ^ n ≡ m * 2 ^ suc n = grind (arith, two-pow-succ n) in ap nat e)

  -- 2 to a positive exponent.
  pub power_lem : (n : ℕ) → power (nat 2) (suc n) ≡ nat (2 ^ suc n)
  unfolding power
  power_lem n =
      power_loop_lem n 2
      ∙ (let e : 2 * 2 ^ n ≡ 2 ^ suc n = omega (arith, two-pow-succ n) in ap nat e)

  -- One more item of a list of bits, and what it adds to the number.
  next_bit :
      (xs : List Bool) (i : ℕ)
      → i < length xs
      → (x : Bool) × (get_elem? xs i ≡ some x)
        × (value (take (suc i) xs) ≡ value (take i xs) + bit_ℕ x * 2 ^ i)
  unfolding value
  next_bit [] i h = absurd (omega arith)
  next_bit (x ∷ xs) zero h = (x, refl, omega arith)
  next_bit (x ∷ xs) (suc i) h =
      let (y, p, q) = next_bit xs i (omega arith) in (y, p, doubled (bit_ℕ y) q)
    where
      doubled :
          (b : ℕ)
          → value (take (suc i) xs) ≡ value (take i xs) + b * 2 ^ i
          → bit_ℕ x + 2 * value (take (suc i) xs) ≡ bit_ℕ x + 2 * value (take i xs) + b * 2 ^ suc i
      doubled b q =
          let e : b * 2 ^ suc i ≡ b * 2 ^ i + b * 2 ^ i = rw (two-pow-succ i) (omega arith) in
          omega arith

  b2a_loop_lem :
      (n j : ℕ) (bits : List E.Share) (xs : List Bool) (c : E.Share)
      → ReadsAll bits xs
      → suc j + n ≡ length xs
      → E.opened c ≡ nat (value (take (suc j) xs))
      → Yields (b2a_loop n (suc j) bits c) (λ r. E.opened r ≡ nat (value xs))
  unfolding b2a_loop
  b2a_loop_lem zero j bits xs c h e hc =
      let le : suc j ≡ length xs = omega arith in
      Yields-pure c (hc ∙ ap (λ l. nat (value l)) (ap (λ m. take m xs) le ∙ take_all xs))
  b2a_loop_lem (suc n) j bits xs c h e hc =
      let (x, p, q) = next_bit xs (suc j) (omega arith) in
      Yields-bind (Yields-get bits xs (suc j) x h p) (λ b hb.
        b2a_loop_lem n (suc j) bits xs (add_inplace c (mul_plain b (power (nat 2) (suc j)))) h
          (omega arith)
          (simp opening (
            ap₂ (λ u v. u ⊕ v ⊗ power (nat 2) (suc j)) hc (hb ∙ sym (nat-bit x))
            ∙ ap (λ v. nat (value (take (suc j) xs)) ⊕ nat (bit_ℕ x) ⊗ v) (power_lem j)
            ∙ ap (λ v. nat (value (take (suc j) xs)) ⊕ v) (sym (nat-mul (bit_ℕ x) (2 ^ suc j)))
            ∙ sym (nat-add (value (take (suc j) xs)) (bit_ℕ x * 2 ^ suc j))
            ∙ ap nat (sym q))))

  -- B2A of shared bits opens to the number that the bits stand for.
  pub b2a_lem :
      (k : ℕ) (bits : List E.Share) (xs : List Bool)
      → ReadsAll bits xs
      → length xs ≡ k
      → 0 < k
      → Yields (b2a bits k) (λ r. E.opened r ≡ nat (value xs))
  unfolding b2a
  b2a_lem k bits xs h e pos =
      let (x, p, q) = next_bit xs 0 (omega arith) in
      Yields-bind (Yields-get bits xs 0 x h p) (λ c hc.
        b2a_loop_lem (k - 1) 0 bits xs c h (omega arith) (
          hc
          ∙ sym (nat-bit x)
          ∙ ap nat (let z : value (take 0 xs) ≡ 0 = unfold value in refl in omega arith)))
