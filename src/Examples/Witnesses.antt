-- ===== src/Examples/Witnesses.antt =====
-- The theorems at concrete inputs of the engine of two parties.
use proof_of_custody.Prelude.{
  ℕ, ◌+◌, ◌*◌, ◌≡◌, ◌↔◌, refl, ap₂, Bool, true, false, xor, List, [], ◌∷◌, length, replicate,
  length-replicate, map, ltb, arith,
}
use proof_of_custody.Ring.{nat, ◌⊕◌}
use proof_of_custody.Engine.Program.{
  Yields, Fails, clear_ring, ◌>>=◌, division_by_zero, out_of_fuel,
}
use proof_of_custody.Bitwise.{value, bits_of, prefix_any, combined}
use proof_of_custody.OnlineOp.Linear.Laws.{opened_all}
use proof_of_custody.OnlineOp.Complexes.{Complex, opened_complex, complex_div}
use proof_of_custody.OnlineOp.Complexes.Laws.{times, complex_div_lem}
use proof_of_custody.OnlineOp.Bits.Laws.{Reads, ReadsAll}
use proof_of_custody.OnlineOp.Folds.{prefix_or, kxor}
use proof_of_custody.OnlineOp.Folds.Laws.{prefix_or_lem, kxor_lem, kxor_empty}
use proof_of_custody.OnlineOp.Compare.{lt}
use proof_of_custody.OnlineOp.Compare.Laws.{lt_lem}
use proof_of_custody.OnlineOp.Adder.{add_bit}
use proof_of_custody.OnlineOp.Adder.Laws.{add_bit_lem, add_bit_one}
use proof_of_custody.OnlineOp.Convert.{psize, b2a, a2b, pre_rand}
use proof_of_custody.OnlineOp.Convert.Laws.{b2a_lem}
use proof_of_custody.OnlineOp.Convert.Random.{RandomNumber, pre_rand_lem}
use proof_of_custody.OnlineOp.Convert.Decomposition.{a2b_lem}
use proof_of_custody.OnlineOp.Hash.{uhf, legendre_prf}
use proof_of_custody.OnlineOp.Hash.Laws.{polynomial, uhf_lem, symbol, prf_bit, legendre_prf_lem}
use proof_of_custody.Poc.{
  chunk_num, custody_bit_offline, custody_bit_online, custody_bit, custody_bit_offline_2primes,
  custody_bit_online_2primes,
}
use proof_of_custody.Poc.Powers.{tabulate}
use proof_of_custody.Poc.Custody.{key_power, custody_bit_offline_lem, hash_value}
use proof_of_custody.Poc.OnePrime.{custody_bit_online_lem, two_phases_lem, custody_bit_lem}
use proof_of_custody.Poc.TwoPrimes.{key_power3, custody_bit_offline_2primes_lem}
use proof_of_custody.Poc.Rounds.{AllMinus, custody_bit_online_2primes_lem, two_phases_2primes_lem}
use proof_of_custody.Poc.KeyExchange.{piece, ephem_key_phase_one, ephem_key_phase_two}
use proof_of_custody.Poc.KeyExchange.EndToEnd.{key_bits, ephem_key_lem}
use proof_of_custody.Group.G1.{g1}
use proof_of_custody.Group.G2.{g2, g2_add_aff_inplace}
use proof_of_custody.Group.G2.Laws.{g2_add_aff_inplace_lem}
use proof_of_custody.Group.{Affine, add_aff}
use proof_of_custody.Group.Laws.{opened_point, OnCurve, IsSum, add_aff_lem, add_aff-Fails}
use proof_of_custody.Group.Jacobian.{Jacobian, add_jac, opened_jac, Represents}
use proof_of_custody.Group.Jacobian.Sum.{add_jac_lem, add_jac-doubled}
use proof_of_custody.Group.Projective.{Projective, add_proj, opened_proj, Homogeneous}
use proof_of_custody.Group.Projective.Sum.{add_proj_lem}
use proof_of_custody.Examples.Field3.{F3, res0, res1, res2, res1-res0, res2-res0}
use proof_of_custody.Examples.TwoParties.{Pair, sum, two_parties}
use proof_of_custody.Examples.Supply.{masks, three_small, accepts, gmp3}

-- Shares of 1 and 2, of the bits 1, 0, 1 of 5 and 1, 1, 0 of 3, and a message of equal chunks.
abbrev one_share : Pair
one_share = (res2, res2)

abbrev two_share : Pair
two_share = (res1, res1)

abbrev five : List Bool
five = true ∷ false ∷ true ∷ []

abbrev three : List Bool
three = true ∷ true ∷ false ∷ []

abbrev five_shares : List Pair
five_shares = (res2, res2) ∷ (res1, res2) ∷ (res0, res1) ∷ []

abbrev three_shares : List Pair
three_shares = (res0, res1) ∷ (res2, res2) ∷ (res2, res1) ∷ []

abbrev message : List F3
message = replicate chunk_num res2

message-length : length message ≡ chunk_num
message-length = length-replicate chunk_num res2

a2b_example :
    Yields (a2b 1 two_share) (λ b. ReadsAll b (bits_of psize (two_parties.to_bigint res2)))
a2b_example = a2b_lem ⦃E = two_parties⦄ three_small 1 accepts two_share

pre_rand_example : Yields (pre_rand 1) RandomNumber
pre_rand_example = pre_rand_lem ⦃E = two_parties⦄ three_small 1 accepts

lt_example : Yields (lt three_shares five_shares 3) (λ c. Reads c (ltb (value three) (value five)))
lt_example = lt_lem 3 three five refl refl (omega arith) three_shares five_shares refl refl

prefix_or_example : Yields (prefix_or 3 five_shares 3) (λ c. ReadsAll c (prefix_any false five))
prefix_or_example = prefix_or_lem 3 3 five_shares five refl refl (omega arith) (omega arith)

kxor_example : Yields (kxor 3 five_shares 3) (λ c. Reads c (combined xor five))
kxor_example = kxor_lem 3 3 five_shares five refl refl (omega arith) (omega arith)

kxor_empty_example : Fails ⦃E = two_parties⦄ (kxor 100 [] 0) out_of_fuel
kxor_empty_example = kxor_empty ⦃E = two_parties⦄ 100

add_bit_example : Yields (add_bit five_shares three_shares) (λ r.
    (zs : List Bool) × ReadsAll r zs
    × (value zs ≡ value five + value three)
    × (length zs ≡ length five + 1))
add_bit_example = add_bit_lem five_shares three_shares five three refl refl refl (omega arith)

add_bit_one_example :
    Yields (add_bit (one_share ∷ []) (one_share ∷ [])) (λ r. opened_all r ≡ res0 ∷ res0 ∷ [])
unfolding xor
add_bit_one_example = add_bit_one one_share one_share true true refl refl

b2a_example : Yields (b2a five_shares 3) (λ r. two_parties.opened r ≡ nat (value five))
b2a_example = b2a_lem 3 five_shares five refl refl (omega arith)

-- 1 + 0 i and 1 + 2 i
abbrev one_complex : Complex Pair
one_complex = record { real = one_share; imag = (res0, res0) }

abbrev other_complex : Complex Pair
other_complex = record { real = one_share; imag = two_share }

complex_div_example :
    Yields
      (complex_div one_complex other_complex)
      (λ c. times (opened_complex c) (opened_complex other_complex) ≡ opened_complex one_complex)
complex_div_example = complex_div_lem masks one_complex other_complex res2-res0

uhf_example :
    Yields
      (uhf two_share (res1 ∷ res2 ∷ res1 ∷ []) 3)
      (λ c. two_parties.opened c ≡ polynomial res2 (res1 ∷ res2 ∷ res1 ∷ []))
uhf_example = uhf_lem two_share (res1 ∷ res2 ∷ res1 ∷ []) (omega arith)

legendre_prf_example :
    Yields (legendre_prf gmp3 one_share one_share) (λ b. b ≡ prf_bit gmp3 (symbol gmp3 res2))
legendre_prf_example = legendre_prf_lem gmp3 masks one_share one_share

custody_bit_offline_example :
    Yields
      (custody_bit_offline (one_share ∷ two_share ∷ []))
      (λ pre. opened_all pre ≡ tabulate (key_power res1 res2) 0 chunk_num)
custody_bit_offline_example = custody_bit_offline_lem one_share two_share

abbrev table : List Pair
table = map (λ x. (x, res0)) (tabulate (key_power res1 res2) 0 chunk_num)

table-opened : (xs : List F3) → opened_all ⦃E = two_parties⦄ (map (λ x. (x, res0)) xs) ≡ xs
table-opened [] = refl
table-opened (x ∷ xs) = ap₂ (λ u l. u ∷ l) (two_parties.opened-constant x) (table-opened xs)

custody_bit_online_example :
    Yields
      (custody_bit_online gmp3 table message)
      (λ b. b ≡ prf_bit gmp3 (symbol gmp3 (res2 ⊕ hash_value (key_power res1 res2) message)))
custody_bit_online_example =
    custody_bit_online_lem gmp3 masks res1 res2 table message message-length
      (table-opened (tabulate (key_power res1 res2) 0 chunk_num))

two_phases_example :
    Yields
      (do
        pre ← custody_bit_offline (one_share ∷ two_share ∷ [])
        custody_bit_online gmp3 pre message)
      (λ b. b ≡ prf_bit gmp3 (symbol gmp3 (res2 ⊕ hash_value (key_power res1 res2) message)))
two_phases_example = two_phases_lem gmp3 masks one_share two_share message message-length

custody_bit_example :
    Yields
      (custody_bit gmp3 (one_share ∷ two_share ∷ []) message)
      (λ b. b ≡ prf_bit gmp3 (symbol gmp3 (res2 ⊕ polynomial res1 message)))
custody_bit_example = custody_bit_lem gmp3 masks one_share two_share message message-length

custody_bit_offline_2primes_example :
    Yields
      (custody_bit_offline_2primes (one_share ∷ two_share ∷ two_share ∷ []))
      (λ pre. opened_all pre ≡ tabulate (key_power3 res1 res2 res2) 0 chunk_num)
custody_bit_offline_2primes_example = custody_bit_offline_2primes_lem one_share two_share two_share

custody_bit_online_2primes_example :
    Yields
      (custody_bit_online_2primes gmp3 table one_share message)
      (λ b. (b ≡ 0) ↔ AllMinus gmp3 (res1 ⊕ hash_value (key_power res1 res2) message) 10 0)
custody_bit_online_2primes_example =
    custody_bit_online_2primes_lem gmp3 masks (key_power res1 res2) one_share table message
      message-length (table-opened (tabulate (key_power res1 res2) 0 chunk_num))

two_phases_2primes_example :
    Yields
      (do
        pre ← custody_bit_offline_2primes (one_share ∷ two_share ∷ two_share ∷ [])
        custody_bit_online_2primes gmp3 pre one_share message)
      (λ b. (b ≡ 0) ↔ AllMinus gmp3 (res1 ⊕ hash_value (key_power3 res1 res2 res2) message) 10 0)
two_phases_2primes_example =
    two_phases_2primes_lem gmp3 masks one_share two_share two_share one_share message message-length

-- Octets that two players draw.
abbrev octets : ℕ → ℕ → ℕ
octets player place = 17 * player + 5 * place + 3

ephem_key_example : Yields (ephem_key_phase_one 1 2 octets one_share two_share) (λ t.
    Yields (ephem_key_phase_two 2 t.0 t.1) (λ keys.
      opened_all keys
      ≡ nat (value (piece 0 (key_bits two_parties one_share two_share)))
        ∷ nat (value (piece 1 (key_bits two_parties one_share two_share)))
        ∷ nat (value (piece 2 (key_bits two_parties one_share two_share)))
        ∷ []))
ephem_key_example =
    ephem_key_lem two_parties two_parties three_small 1 accepts 2 (omega arith) octets one_share
      two_share

-- The points (0, 1) and (2, 0) of y^2 = x^3 + 1.
abbrev first_point : Affine Pair
first_point = record { x = (res0, res0); y = one_share }

abbrev second_point : Affine Pair
second_point = record { x = two_share; y = (res1, res2) }

abbrev clear_point : Affine F3
clear_point = record { x = res2; y = res0 }

add_aff_example : Yields (add_aff ⦃F = g1⦄ first_point second_point) (λ c.
    OnCurve ⦃F = g1⦄ res1 (opened_point ⦃F = g1⦄ c)
    × IsSum ⦃F = g1⦄
        (opened_point ⦃F = g1⦄ first_point)
        (opened_point ⦃F = g1⦄ second_point)
        (opened_point ⦃F = g1⦄ c))
add_aff_example =
    add_aff_lem ⦃F = g1⦄ masks res1 first_point second_point (λ e. res1-res0 e) refl refl

add_aff-Fails_example : Fails (add_aff ⦃F = g1⦄ first_point first_point) division_by_zero
add_aff-Fails_example = add_aff-Fails ⦃F = g1⦄ first_point first_point refl

-- The points (0, 1), at Z = 2, and (2, 0), at Z = 1, and their sum.
abbrev scaled_point : Jacobian Pair
scaled_point = record { x = (res0, res0); y = two_share; z = two_share }

abbrev plain_scaled_point : Jacobian F3
plain_scaled_point = record { x = res2; y = res0; z = res1 }

abbrev other_scaled_point : Jacobian Pair
other_scaled_point = record { x = two_share; y = (res1, res2); z = one_share }

abbrev clear_first : Affine F3
clear_first = record { x = res0; y = res1 }

abbrev clear_sum : Affine F3
clear_sum = record { x = res2; y = res0 }

clear_sum-IsSum : IsSum ⦃F = g1⦄ clear_first clear_point clear_sum
clear_sum-IsSum = record { slope = res1; slope-chord = refl; sum_x = refl; mirrored = refl }

scaled_first : Represents ⦃F = g1⦄ clear_first (opened_jac ⦃F = g1⦄ scaled_point)
scaled_first = record { x_scaled = refl; y_scaled = refl; z_divides = λ e. res2-res0 e }

scaled_second : Represents ⦃F = g1⦄ clear_point (opened_jac ⦃F = g1⦄ other_scaled_point)
scaled_second = record { x_scaled = refl; y_scaled = refl; z_divides = λ e. res1-res0 e }

add_jac-doubled_example :
    Yields
      (add_jac ⦃F = g1⦄ scaled_point scaled_point)
      (λ j. (sum j.x ≡ res0) × (sum j.y ≡ res0) × (sum j.z ≡ res0))
add_jac-doubled_example =
    add_jac-doubled ⦃F = g1⦄ clear_first scaled_point scaled_point scaled_first scaled_first

add_jac_example :
    Yields
      (add_jac ⦃F = g1⦄ scaled_point other_scaled_point)
      (λ j. Represents ⦃F = g1⦄ clear_sum (opened_jac ⦃F = g1⦄ j))
add_jac_example =
    add_jac_lem ⦃F = g1⦄ clear_first clear_point clear_sum scaled_point other_scaled_point
      (λ e. res1-res0 e) clear_sum-IsSum scaled_first scaled_second

abbrev proj_point : Projective Pair
proj_point = record { x = (res0, res0); y = two_share; z = two_share }

abbrev other_proj_point : Projective Pair
other_proj_point = record { x = two_share; y = (res1, res2); z = one_share }

abbrev clear_proj_point : Projective F3
clear_proj_point = record { x = res2; y = res0; z = res1 }

proj_first : Homogeneous ⦃F = g1⦄ clear_first (opened_proj ⦃F = g1⦄ proj_point)
proj_first = record { x_scaled = refl; y_scaled = refl; z_divides = λ e. res2-res0 e }

proj_second : Homogeneous ⦃F = g1⦄ clear_point (opened_proj ⦃F = g1⦄ other_proj_point)
proj_second = record { x_scaled = refl; y_scaled = refl; z_divides = λ e. res1-res0 e }

add_proj_example :
    Yields
      (add_proj ⦃F = g1⦄ proj_point other_proj_point)
      (λ j. Homogeneous ⦃F = g1⦄ clear_sum (opened_proj ⦃F = g1⦄ j))
add_proj_example =
    add_proj_lem ⦃F = g1⦄ clear_first clear_point clear_sum proj_point other_proj_point
      (λ e. res1-res0 e) clear_sum-IsSum proj_first proj_second

-- The points (0, 1 + 2 i) and (i, 0) of y^2 = x^3 + i.
abbrev imaginary : Complex F3
imaginary = record { real = res0; imag = res1 }

abbrev complex_first : Affine (Complex Pair)
complex_first = record {
  x = record { real = (res0, res0); imag = (res1, res2) };
  y = record { real = one_share; imag = two_share };
}

abbrev complex_second : Affine (Complex Pair)
complex_second = record {
  x = record { real = (res0, res0); imag = one_share };
  y = record { real = (res2, res1); imag = (res0, res0) };
}

g2_add_aff_inplace_example : Yields (g2_add_aff_inplace complex_first complex_second) (λ c.
    OnCurve ⦃F = g2⦄ imaginary (opened_point ⦃F = g2⦄ c)
    × IsSum ⦃F = g2⦄
        (opened_point ⦃F = g2⦄ complex_first)
        (opened_point ⦃F = g2⦄ complex_second)
        (opened_point ⦃F = g2⦄ c))
g2_add_aff_inplace_example =
    g2_add_aff_inplace_lem masks imaginary complex_first complex_second (λ e. res1-res0 e) refl refl
