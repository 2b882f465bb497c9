-- ===== src/Poc/KeyExchange.antt =====
-- POC/poc.hpp, lines 111 to 259, and the calls of them in POC/RunPoc.hpp: the ephemeral key moves
-- from the field of the curve to the field of the hash as masked bits. Both phases share the same
-- random bits; the first opens the bits of the key under this mask, the second takes it off.
pub mod Transfer
pub mod EndToEnd
use proof_of_custody.Prelude.{
  ℕ, zero, suc, ◌+◌, ◌-◌, ◌*◌, ◌/◌, ◌%◌, ◌^◌, Bool, List, [], ◌∷◌, ◌++◌, map, length, take, drop,
  zip_with, ◌==◌, ◌&&◌,
}
use proof_of_custody.Ring.{nat}
use proof_of_custody.Engine.{Engine}
use proof_of_custody.Engine.Program.{
  M, pure, throw, guard, index, ◌>>=◌, ◌>>◌, clear_ring, invalid_length, out_of_range,
}
use proof_of_custody.OnlineOp.Linear.{get_inputs, reveal_vec}
use proof_of_custody.OnlineOp.Bits.{xor_inplace, xor_plain}
use proof_of_custody.OnlineOp.Folds.{kxor}
use proof_of_custody.OnlineOp.Convert.{psize, qsize, b2a, a2b}

-- (rnd[i / 8] >> (i % 8)) & 1, for the octets of one party
unfoldable pub local_bit : (ℕ → ℕ) → ℕ → ℕ
local_bit rnd i = rnd (i / 8) / 2 ^ (i % 8) % 2

-- The items at i * QSIZE, .., (i + 1) * QSIZE - 1.
unfoldable pub piece : {A : Type 0} → ℕ → List A → List A
piece i tmp = take qsize (drop (i * qsize) tmp)

module _ ⦃E : Engine⦄ where
  -- sbit: the inputs of the n players from i on. Each party gives its own value in each round.
  unfoldable pub player_inputs : ℕ → ℕ → (ℕ → E.Clear) → M (List E.Share)
  player_inputs zero i values = pure []
  player_inputs (suc n) i values = do
    b ← get_inputs i values
    rest ← player_inputs n (suc i) values
    pure (b ∷ rest)

  -- The rounds for j, .., j + n - 1; `local p j` is party p's local_bits[j].
  unfoldable pub share_bits : ℕ → (ℕ → ℕ → ℕ) → ℕ → ℕ → M (List E.Share)
  share_bits players local zero j = pure []
  share_bits players local (suc n) j = do
    sbit ← player_inputs players 0 (λ p. nat (local p j))
    c ← kxor players sbit (length sbit)
    rest ← share_bits players local n (suc j)
    pure (c ∷ rest)

  -- Returns shared_bits, and each party's local_bits. `rnd p` are the octets that party p draws.
  unfoldable pub shared_rand_bits_phase_one : ℕ → (ℕ → ℕ → ℕ) → M (List E.Share × (ℕ → ℕ → ℕ))
  shared_rand_bits_phase_one players rnd = do
    shared_bits ← share_bits players (λ p. local_bit (rnd p)) (2 * psize) 0
    pure (shared_bits, λ p. local_bit (rnd p))

  unfoldable pub shared_rand_bits_phase_two : ℕ → (ℕ → ℕ → ℕ) → M (List E.Share)
  shared_rand_bits_phase_two players local_bits = share_bits players local_bits (2 * psize) 0

  -- deco_bits[i] ^= shared_bits[i], for every place of shared_bits
  unfoldable pub xor_each : List E.Share → List E.Share → M (List E.Share)
  xor_each deco [] = pure deco
  xor_each [] (s ∷ shared) = throw out_of_range
  xor_each (d ∷ deco) (s ∷ shared) = do
    x ← xor_inplace d s
    rest ← xor_each deco shared
    pure (x ∷ rest)

  -- The fuel bounds the rounds of pre_rand.
  unfoldable pub decompose_and_reveal : ℕ → List E.Share → List E.Share → M (List ℕ)
  decompose_and_reveal fuel keys shared_bits = do
    guard (length keys == 2 && length shared_bits == 2 * psize) invalid_length
    k0 ← index keys 0
    deco_bits ← a2b fuel k0
    k1 ← index keys 1
    tmp ← a2b fuel k1
    masked ← xor_each (deco_bits ++ tmp) shared_bits
    out ← reveal_vec masked
    pure (map E.to_bigint out)

  unfoldable pub xor_and_combine : List E.Share → List ℕ → M (List E.Share)
  xor_and_combine shared_bits reveal_bits = do
    guard (length shared_bits == 3 * qsize && length reveal_bits == 3 * qsize) invalid_length
    let tmp = zip_with xor_plain shared_bits (map nat reveal_bits)
    k0 ← b2a (piece 0 tmp) qsize
    k1 ← b2a (piece 1 tmp) qsize
    k2 ← b2a (piece 2 tmp) qsize
    pure (k0 ∷ k1 ∷ k2 ∷ [])

  -- What the two programs of RunPoc do with the coordinates of the shared signature.
  unfoldable pub ephem_key_phase_one :
      ℕ → ℕ → (ℕ → ℕ → ℕ) → E.Share → E.Share → M ((ℕ → ℕ → ℕ) × List ℕ)
  ephem_key_phase_one fuel players rnd real imag = do
    t ← shared_rand_bits_phase_one players rnd
    reveal_bits ← decompose_and_reveal fuel (real ∷ imag ∷ []) t.0
    pure (t.1, reveal_bits)

  unfoldable pub ephem_key_phase_two : ℕ → (ℕ → ℕ → ℕ) → List ℕ → M (List E.Share)
  ephem_key_phase_two players local_bits reveal_bits = do
    shared_bits ← shared_rand_bits_phase_two players local_bits
    xor_and_combine shared_bits reveal_bits
