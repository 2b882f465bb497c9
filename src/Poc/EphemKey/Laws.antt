-- ===== src/Poc/EphemKey/Laws.antt =====
-- From the shares of a key and a message to keys of the second field.
use proof_of_custody.Prelude.{
  ℕ, suc, ◌+◌, ◌%◌, ◌^◌, ◌<◌, ◌≤◌, ◌≡◌, ap, ap₂, subst, ◌∙◌, Bool, List, [], ◌∷◌, ◌++◌, length,
  arith,
}
use proof_of_custody.Ring.{nat}
use proof_of_custody.Ring.Module.{◌⊡◌}
use proof_of_custody.Ring.Polynomial.{poly}
use proof_of_custody.Engine.{Engine}
use proof_of_custody.Engine.Program.{Yields, Yields-bind, clear_ring, ok}
use proof_of_custody.Bitwise.{value, bits_of}
use proof_of_custody.OnlineOp.Linear.Laws.{opened_all}
use proof_of_custody.OnlineOp.Products.Laws.{MasksNonzero}
use proof_of_custody.OnlineOp.Complexes.{Complex}
use proof_of_custody.OnlineOp.Convert.{psize}
use proof_of_custody.OnlineOp.Convert.Random.{AcceptsWithin}
use proof_of_custody.Group.{Affine}
use proof_of_custody.Mcl.{Mcl, fr_ring, g1_points, g1_module, mul2, Fits}
use proof_of_custody.Lagrange.{get_lagrange_coeff}
use proof_of_custody.Bls.{Bls, sign_scale}
use proof_of_custody.Bls.Sign.Laws.{point_of, coords, signatures, Summable}
use proof_of_custody.Bls.Sign.Laws.Combined.{dstb_sign_lem}
use proof_of_custody.Poc.KeyExchange.{piece, ephem_key_phase_one, ephem_key_phase_two}
use proof_of_custody.Poc.KeyExchange.EndToEnd.{key_bits, ephem_key_lem}
use proof_of_custody.Poc.EphemKey.{poc_compute_ephem_key, run_ephem_key_phase_one}

-- The bits of the two parts of the x of a point, in the first field, one after the other.
unfoldable pub point_bits : Engine → Affine (Complex ℕ) → List Bool
point_bits E p = bits_of psize (p.x.real % E.pr) ++ bits_of psize (p.x.imag % E.pr)

module _ (E F : Engine) ⦃L : Mcl⦄ (g2_get_str : L.G2 → Affine (Complex ℕ)) where
  key_bits-point :
      (ac : Affine (Complex E.Share)) (s : L.G2)
      → point_of ⦃E = E⦄ ac ≡ coords ⦃E = E⦄ g2_get_str s
      → key_bits E ac.x.real ac.x.imag ≡ point_bits E (g2_get_str s)
  unfolding key_bits point_bits
  key_bits-point ac s h =
      ap₂ (λ u v. bits_of psize u ++ bits_of psize v)
        (ap (λ p. E.to_bigint p.x.real) h ∙ E.to_bigint-nat _)
        (ap (λ p. E.to_bigint p.x.imag) h ∙ E.to_bigint-nat _)

  -- Let n + 1 parties have as secret keys the values of a polynomial at their numbers, and as
  -- verification key the base point times its constant coefficient c. With nonzero masks, where the
  -- points that are added are on the curve and have different x, where the order of the first field
  -- has at most PSIZE bits and its preprocessing gives a number below the order within `fuel` rounds,
  -- the first phase ends, for any octets that the players draw, the second phase run on its output
  -- ends, and the three keys open, in the second field, to the numbers of the three pieces of QSIZE
  -- bits of the x of one point: the hash of the message times c.
  pub run_ephem_key_lem :
      MasksNonzero ⦃E = E⦄
      → E.pr < 2 ^ psize
      → (fuel : ℕ) → ((s : E.State) → AcceptsWithin ⦃E = E⦄ fuel s)
      → (n : ℕ) (b : ℕ → Bls) (msg : L.Message) (c : L.Fr) (cs : List L.Fr) (w : ℕ → L.Fr)
        (curve : Complex E.Clear) (rnd : ℕ → ℕ → ℕ)
      → Fits (suc n)
      → length (c ∷ cs) ≤ suc n
      → ((j : ℕ) → j < suc n → (b j).sk ≡ poly (c ∷ cs) (nat (j + 1)))
      → ((j : ℕ) → j < suc n → (b j).vk ≡ L.base_point ⊡ c)
      → ((j : ℕ) → j < suc n → get_lagrange_coeff (suc n) (j + 1) ≡ ok (w j))
      → Summable ⦃E = E⦄ g2_get_str curve
          (sign_scale (b 0) (w 0) msg).sigma
          (signatures (λ j. (sign_scale (b j) (w j) msg).sigma) 1 n)
      → Yields ⦃E = E⦄ (run_ephem_key_phase_one ⦃E = E⦄ g2_get_str fuel (suc n) rnd b msg) (λ t.
        Yields ⦃E = F⦄ (ephem_key_phase_two ⦃E = F⦄ (suc n) t.0 t.1) (λ keys.
          let bits = point_bits E (g2_get_str (mul2 (L.hash_and_map_to msg) c)) in
          opened_all ⦃E = F⦄ keys
          ≡ nat ⦃r = F.ring⦄ (value (piece 0 bits))
            ∷ nat ⦃r = F.ring⦄ (value (piece 1 bits))
            ∷ nat ⦃r = F.ring⦄ (value (piece 2 bits))
            ∷ []))
  unfolding run_ephem_key_phase_one poc_compute_ephem_key
  run_ephem_key_lem masks small fuel live n b msg c cs w curve rnd fits hl hsk hvk hw hs =
      Yields-bind ⦃E = E⦄
        (dstb_sign_lem ⦃E = E⦄ g2_get_str masks n b msg c cs w curve fits hl hsk hvk hw hs)
        (λ ac hac.
          let e = key_bits-point ac (mul2 (L.hash_and_map_to msg) c) hac.0 in
          subst
            (λ bits.
              Yields ⦃E = E⦄ (ephem_key_phase_one ⦃E = E⦄ fuel (suc n) rnd ac.x.real ac.x.imag)
                (λ t. Yields ⦃E = F⦄ (ephem_key_phase_two ⦃E = F⦄ (suc n) t.0 t.1) (λ keys.
                  opened_all ⦃E = F⦄ keys
                  ≡ nat ⦃r = F.ring⦄ (value (piece 0 bits))
                    ∷ nat ⦃r = F.ring⦄ (value (piece 1 bits))
                    ∷ nat ⦃r = F.ring⦄ (value (piece 2 bits))
                    ∷ [])))
            e (ephem_key_lem E F small fuel live (suc n) (omega arith) rnd ac.x.real ac.x.imag))
