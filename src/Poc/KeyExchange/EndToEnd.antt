-- ===== src/Poc/KeyExchange/EndToEnd.antt =====
-- Both phases of the key exchange in turn, over the engines of the two fields.
use proof_of_custody.Prelude.{
  ℕ, ◌*◌, ◌^◌, ◌<◌, ◌≡◌, refl, ◌∙◌, Bool, List, [], ◌∷◌, ◌++◌, length, arith, xor, zip_with, map,
  length-append,
}
use proof_of_custody.Ring.{nat}
use proof_of_custody.Engine.{Engine}
use proof_of_custody.Engine.Program.{Yields, Yields-bind, Yields-pure, clear_ring}
use proof_of_custody.Bitwise.{bit_ℕ, value, bits_of}
use proof_of_custody.Bitwise.Numbers.{length-bits_of}
use proof_of_custody.OnlineOp.Linear.Laws.{opened_all}
use proof_of_custody.OnlineOp.Bits.Laws.{ReadsAll}
use proof_of_custody.OnlineOp.Convert.{psize}
use proof_of_custody.OnlineOp.Convert.Random.{AcceptsWithin}
use proof_of_custody.Poc.KeyExchange.{
  local_bit, share_bits, shared_rand_bits_phase_one, shared_rand_bits_phase_two, piece,
  ephem_key_phase_one, ephem_key_phase_two,
}
use proof_of_custody.Poc.KeyExchange.Transfer.{
  mask, length-mask, sizes, share_bits_lem, decompose_and_reveal_lem, xor_and_combine_lem,
}

local_bit-lt : (rnd : ℕ → ℕ) (i : ℕ) → local_bit rnd i < 2
unfolding local_bit
local_bit-lt rnd i = omega arith

-- The bits of the two coordinates, one after the other.
unfoldable pub key_bits : (E : Engine) → E.Share → E.Share → List Bool
key_bits E real imag =
    bits_of psize (E.to_bigint (E.opened real)) ++ bits_of psize (E.to_bigint (E.opened imag))

length-key_bits : (E : Engine) (real imag : E.Share) → length (key_bits E real imag) ≡ 2 * psize
unfolding key_bits
length-key_bits E real imag =
    let x = length-bits_of psize (E.to_bigint (E.opened real)) in
    let y = length-bits_of psize (E.to_bigint (E.opened imag)) in
    let z =
      length-append (bits_of psize (E.to_bigint (E.opened real)))
        (bits_of psize (E.to_bigint (E.opened imag))) in
    omega arith

module _ (E F : Engine) where
  -- For at least one player, and any octets that the players draw: the first phase ends, the second
  -- phase run on its output ends, and the three keys open, in the second field, to the numbers of
  -- the three pieces of QSIZE bits of the two coordinates in the first field. Its order is below
  -- 2^PSIZE, and its preprocessing gives a number below the order within `fuel` rounds.
  pub ephem_key_lem :
      E.pr < 2 ^ psize
      → (fuel : ℕ) → ((s : E.State) → AcceptsWithin ⦃E = E⦄ fuel s)
      → (players : ℕ) → 0 < players
      → (rnd : ℕ → ℕ → ℕ) (real imag : E.Share)
      → Yields ⦃E = E⦄ (ephem_key_phase_one ⦃E = E⦄ fuel players rnd real imag) (λ t.
        Yields ⦃E = F⦄ (ephem_key_phase_two ⦃E = F⦄ players t.0 t.1) (λ keys.
          opened_all ⦃E = F⦄ keys
          ≡ nat ⦃r = F.ring⦄ (value (piece 0 (key_bits E real imag)))
            ∷ nat ⦃r = F.ring⦄ (value (piece 1 (key_bits E real imag)))
            ∷ nat ⦃r = F.ring⦄ (value (piece 2 (key_bits E real imag)))
            ∷ []))
  unfolding ephem_key_phase_one ephem_key_phase_two shared_rand_bits_phase_one
      shared_rand_bits_phase_two key_bits
  ephem_key_lem small fuel live players pos rnd real imag =
      let local : ℕ → ℕ → ℕ = λ p. local_bit (rnd p) in
      let ys = mask players local in
      Yields-bind ⦃E = E⦄ {P = λ t. ReadsAll ⦃E = E⦄ t.0 ys × (t.1 ≡ local)}
        (Yields-bind ⦃E = E⦄ (shared E players pos rnd)
          (λ c hc. Yields-pure ⦃E = E⦄ (c, local) (hc, refl)))
        (λ t (ht, el).
          Yields-bind ⦃E = E⦄
            (decompose_and_reveal_lem ⦃E = E⦄ small fuel live real imag t.0 ys ht
              (length-mask players local))
            (λ reveal hr. Yields-pure ⦃E = E⦄ _ (rw (el, hr) (second players pos rnd real imag))))
    where
      shared :
          (G : Engine) (players : ℕ)
          → 0 < players
          → (rnd : ℕ → ℕ → ℕ)
          → Yields ⦃E = G⦄
              (share_bits ⦃E = G⦄ players (λ p. local_bit (rnd p)) (2 * psize) 0)
              (λ c. ReadsAll ⦃E = G⦄ c (mask players (λ p. local_bit (rnd p))))
      shared G players pos rnd =
          unfold mask in
          share_bits_lem ⦃E = G⦄ players (λ p. local_bit (rnd p)) pos
            (λ p j. local_bit-lt (rnd p) j) (2 * psize) 0

      second :
          (players : ℕ)
          → 0 < players
          → (rnd : ℕ → ℕ → ℕ) (real imag : E.Share)
          → Yields ⦃E = F⦄
              (ephem_key_phase_two ⦃E = F⦄ players
                (λ p. local_bit (rnd p))
                (map bit_ℕ
                  (zip_with xor (key_bits E real imag) (mask players (λ p. local_bit (rnd p))))))
              (λ keys.
                opened_all ⦃E = F⦄ keys
                ≡ nat ⦃r = F.ring⦄ (value (piece 0 (key_bits E real imag)))
                  ∷ nat ⦃r = F.ring⦄ (value (piece 1 (key_bits E real imag)))
                  ∷ nat ⦃r = F.ring⦄ (value (piece 2 (key_bits E real imag)))
                  ∷ [])
      second players pos rnd real imag = Yields-bind ⦃E = F⦄ (shared F players pos rnd) (λ c hc.
          xor_and_combine_lem ⦃E = F⦄ c (key_bits E real imag)
            (mask players (λ p. local_bit (rnd p))) hc (length-key_bits E real imag ∙ sizes)
            (length-mask players (λ p. local_bit (rnd p)) ∙ sizes))
