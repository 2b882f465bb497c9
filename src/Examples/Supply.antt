-- ===== src/Examples/Supply.antt =====
-- What the engine of two parties supplies: nonzero masks, random numbers below the order of the
-- field, and the Legendre symbols modulo 3.
use proof_of_custody.Prelude.{
  ℕ, zero, suc, ◌<◌, ◌^◌, ◌≡◌, ◌≢◌, ◌↔◌, refl, sym, ap, ap₂, ◌∙◌, Bool, true, false, List, [], ◌∷◌,
  length, ltb, arith,
}
use proof_of_custody.Engine.Program.{Yields, Yields-bind, Yields-pure, Yields-call, clear_ring, ok}
use proof_of_custody.Bitwise.{value}
use proof_of_custody.OnlineOp.Bits.Laws.{Reads, ReadsAll}
use proof_of_custody.OnlineOp.Products.Laws.{MasksNonzero}
use proof_of_custody.OnlineOp.Convert.{psize, draw_bits, attempt}
use proof_of_custody.OnlineOp.Convert.Random.{AcceptsWithin, attempt_from}
use proof_of_custody.OnlineOp.Hash.{Gmp, Symbol, minus, none_left, plus}
use proof_of_custody.Examples.Field3.{F3, res0, res1, res2, mul, to_nat, res2-res0}
use proof_of_custody.Examples.TwoParties.{sum-share, two_parties}

pub masks : MasksNonzero ⦃E = two_parties⦄
masks s e = res2-res0 (sym (sum-share s res2) ∙ e)

pub three_small : 3 < 2 ^ psize
unfolding psize
three_small = omega arith

zero_bits :
    (n : ℕ)
    → Yields ⦃E = two_parties⦄
        (draw_bits n)
        (λ b. (xs : List Bool) × ReadsAll b xs × (length xs ≡ n) × (value xs ≡ 0))
unfolding draw_bits value
zero_bits zero = Yields-pure [] ([], refl, refl, refl)
zero_bits (suc n) =
    Yields-bind {P = λ b. Reads b false} (Yields-call two_parties.get_one (λ s. sum-share s res0))
      (λ b hb. Yields-bind (zero_bits n) (λ rest (xs, h, e, z).
        Yields-pure (b ∷ rest) (false ∷ xs, ap₂ (λ u l. u ∷ l) hb h, ap suc e, omega arith)))

-- The bits are all 0, so the first round is accepted.
pub accepts : (s : ℕ) → AcceptsWithin ⦃E = two_parties⦄ 1 s
accepts s =
    let ((b, accepted), s', e, (xs, h, hl, z, a)) =
      (attempt_from ⦃E = two_parties⦄ {Q = λ xs. value xs ≡ 0} three_small (zero_bits psize)).run
        s in
    after b accepted s' e (a ∙ ap (λ n. ltb n 3) z)
  where
    after :
        (b : List _) (accepted : Bool) (s' : ℕ)
        → attempt ⦃E = two_parties⦄ s ≡ ok ((b, accepted), s')
        → accepted ≡ true
        → AcceptsWithin ⦃E = two_parties⦄ 1 s
    after b true s' e h = rw (e, AcceptsWithin) tt
    after b false s' e h = absurd cc

abbrev pub symbol3 : ℕ → ℕ → Symbol
symbol3 zero p = none_left
symbol3 (suc zero) p = plus
symbol3 (suc (suc n)) p = minus

no_square : (y : F3) → res2 ≢ mul y y
no_square res0 e = cc
no_square res1 e = cc
no_square res2 e = cc

pub plus_iff3 : (x : F3) → (symbol3 (to_nat x) 3 ≡ plus) ↔ ((y : F3) × (y ≢ res0) × (x ≡ mul y y))
plus_iff3 res0 = (λ e. absurd cc, λ (y, h, e). absurd (h (root y (sym e))))
  where
    root : (y : F3) → mul y y ≡ res0 → y ≡ res0
    root res0 e = refl
    root res1 e = cc
    root res2 e = cc
plus_iff3 res1 = (λ _. (res2, res2-res0, refl), λ _. refl)
plus_iff3 res2 = (λ e. absurd cc, λ (y, h, e). absurd (no_square y e))

pub none_left_iff3 : (x : F3) → (symbol3 (to_nat x) 3 ≡ none_left) ↔ (x ≡ res0)
none_left_iff3 res0 = (λ _. refl, λ _. refl)
none_left_iff3 res1 = (λ e. absurd cc, λ e. absurd cc)
none_left_iff3 res2 = (λ e. absurd cc, λ e. absurd cc)

unfoldable pub gmp3 : Gmp ⦃E = two_parties⦄
gmp3 = record { mpz_legendre = symbol3; plus_iff = plus_iff3; none_left_iff = none_left_iff3 }
