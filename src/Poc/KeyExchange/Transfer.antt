-- ===== src/Poc/KeyExchange/Transfer.antt =====
-- The keys of the second field are the pieces of the bits of the keys of the first.
use proof_of_custody.Prelude.{
  ℕ, zero, suc, ◌*◌, ◌^◌, ◌<◌, ◌≡◌, refl, sym, ap, ap₂, ◌∙◌, Bool, true, false, xor, List, [], ◌∷◌,
  ◌++◌, map, length, take, drop, zip_with, ◌==◌, ==_refl, ==_iff, Bool-cases, inl, inr, arith,
  length-append, length-zip_with, length-take, length-drop, length-map,
}
use native.Mathlib.Nat.{mod-eq_of_lt}
use proof_of_custody.Ring.{nat}
use proof_of_custody.Engine.{Engine}
use proof_of_custody.Engine.Program.{
  Yields, Yields-bind, Yields-pure, Yields-guard, Yields-index, bit, clear_ring, invalid_length,
}
use proof_of_custody.Bitwise.{bit_ℕ, value, bits_of, combined}
use proof_of_custody.Bitwise.Numbers.{length-bits_of}
use proof_of_custody.OnlineOp.Linear.Laws.{opened_all, get_inputs_lem, reveal_vec_lem}
use proof_of_custody.OnlineOp.Bits.{xor_inplace, xor_plain}
use proof_of_custody.OnlineOp.Bits.Laws.{
  Reads, ReadsAll, ReadsAll-length, xor_shares_lem, xor_plain_lem,
}
use proof_of_custody.OnlineOp.Folds.Laws.{kxor_lem, ReadsAll-append, ReadsAll-take, ReadsAll-drop}
use proof_of_custody.OnlineOp.Convert.{psize, qsize, b2a}
use proof_of_custody.OnlineOp.Convert.Laws.{nat-bit, b2a_lem}
use proof_of_custody.OnlineOp.Convert.Random.{AcceptsWithin}
use proof_of_custody.OnlineOp.Convert.Decomposition.{a2b_lem}
use proof_of_custody.Poc.Powers.{tabulate, length-tabulate}
use proof_of_custody.Poc.KeyExchange.{
  player_inputs, share_bits, xor_each, decompose_and_reveal, piece, xor_and_combine,
}

-- The exclusive or of the bits of all players at place j, and these bits for n places.
unfoldable pub mask_bit : ℕ → (ℕ → ℕ → ℕ) → ℕ → Bool
mask_bit players local j = combined xor (tabulate (λ p. local p j == 1) 0 players)

unfoldable pub mask : ℕ → (ℕ → ℕ → ℕ) → List Bool
mask players local = tabulate (mask_bit players local) 0 (2 * psize)

pub sizes : 2 * psize ≡ 3 * qsize
unfolding psize qsize
sizes = refl

qsize_pos : 0 < qsize
unfolding qsize
qsize_pos = omega arith

pub length-mask : (players : ℕ) (local : ℕ → ℕ → ℕ) → length (mask players local) ≡ 2 * psize
unfolding mask
length-mask players local = length-tabulate (mask_bit players local) 0 (2 * psize)

length-piece :
    (xs : List Bool) (i : ℕ)
    → length xs ≡ 3 * qsize
    → i < 3
    → length (take qsize (drop (i * qsize) xs)) ≡ qsize
unfolding qsize
length-piece xs i e lt =
    let a = length-take 254 (drop (i * 254) xs) in let b = length-drop (i * 254) xs in ground arith

xor_twice : (xs ys : List Bool) → length xs ≡ length ys → zip_with xor ys (zip_with xor xs ys) ≡ xs
unfolding xor
xor_twice [] [] h = refl
xor_twice [] (y ∷ ys) h = absurd (omega arith)
xor_twice (x ∷ xs) [] h = absurd (omega arith)
xor_twice (true ∷ xs) (true ∷ ys) h = ap (λ l. true ∷ l) (xor_twice xs ys (omega arith))
xor_twice (true ∷ xs) (false ∷ ys) h = ap (λ l. true ∷ l) (xor_twice xs ys (omega arith))
xor_twice (false ∷ xs) (true ∷ ys) h = ap (λ l. false ∷ l) (xor_twice xs ys (omega arith))
xor_twice (false ∷ xs) (false ∷ ys) h = ap (λ l. false ∷ l) (xor_twice xs ys (omega arith))

module _ ⦃E : Engine⦄ where
  player_inputs_lem :
      (n i : ℕ) (values : ℕ → E.Clear) (f : ℕ → Bool)
      → ((p : ℕ) → values p ≡ bit (f p))
      → Yields (player_inputs n i values) (λ b. ReadsAll b (tabulate f i n))
  unfolding player_inputs tabulate
  player_inputs_lem zero i values f h = Yields-pure [] refl
  player_inputs_lem (suc n) i values f h = Yields-bind (get_inputs_lem i values) (λ b hb.
      Yields-bind (player_inputs_lem n (suc i) values f h)
        (λ rest hr. Yields-pure _ (ap₂ (λ u l. u ∷ l) (hb ∙ h i) hr)))

  nat-flag : (n : ℕ) → n < 2 → nat n ≡ bit (n == 1)
  nat-flag n h = let e : n ≡ bit_ℕ (n == 1) = ground arith in ap nat e ∙ nat-bit (n == 1)

  -- If each party's item is 0 or 1, all parties share the bits of the mask.
  pub share_bits_lem :
      (players : ℕ) (local : ℕ → ℕ → ℕ)
      → 0 < players
      → ((p j : ℕ) → local p j < 2)
      → (n j : ℕ)
      → Yields
          (share_bits players local n j)
          (λ c. ReadsAll c (tabulate (mask_bit players local) j n))
  unfolding share_bits tabulate
  share_bits_lem players local pos small zero j = Yields-pure [] refl
  share_bits_lem players local pos small (suc n) j =
      Yields-bind
        (player_inputs_lem players 0 (λ p. nat (local p j)) (λ p. local p j == 1)
          (λ p. nat-flag (local p j) (small p j)))
        (λ sbit hs.
          let len : length sbit ≡ players =
            ReadsAll-length sbit _ hs ∙ length-tabulate (λ p. local p j == 1) 0 players in
          Yields-bind {P = λ c. Reads c (mask_bit players local j)}
            (unfold mask_bit in
              rw len (
                kxor_lem players players sbit (tabulate (λ p. local p j == 1) 0 players) hs
                  (length-tabulate (λ p. local p j == 1) 0 players) pos (omega arith)))
            (λ c hc.
              Yields-bind (share_bits_lem players local pos small n (suc j))
                (λ rest hr. Yields-pure _ (ap₂ (λ u l. u ∷ l) hc hr))))

  xor_each_lem :
      (deco shared : List E.Share) (xs ys : List Bool)
      → ReadsAll deco xs
      → ReadsAll shared ys
      → length xs ≡ length ys
      → Yields (xor_each deco shared) (λ c. ReadsAll c (zip_with xor xs ys))
  unfolding xor_each xor_inplace
  xor_each_lem [] [] [] [] h k e = Yields-pure [] refl
  xor_each_lem (d ∷ deco) (s ∷ shared) (x ∷ xs) (y ∷ ys) h k e =
      Yields-bind (xor_shares_lem x y (cc) (cc)) (λ c hc.
        Yields-bind (xor_each_lem deco shared xs ys (cc) (cc) (omega arith))
          (λ rest hr. Yields-pure _ (ap₂ (λ u l. u ∷ l) hc hr)))
  xor_each_lem [] shared (x ∷ xs) ys h k e = cc
  xor_each_lem (d ∷ deco) shared [] ys h k e = cc
  xor_each_lem deco [] xs (y ∷ ys) h k e = cc
  xor_each_lem deco (s ∷ shared) xs [] h k e = cc
  xor_each_lem (d ∷ deco) [] (x ∷ xs) [] h k e = absurd (omega arith)
  xor_each_lem [] (s ∷ shared) [] (y ∷ ys) h k e = absurd (omega arith)

  order_lt : 1 < E.pr
  unfolding nat
  order_lt =
      let lt = E.to_bigint-lt E.ring.one in
      elim (Bool-cases (E.to_bigint E.ring.one == 0)) [
        | inl e ↦
            let z : E.to_bigint E.ring.one ≡ 0 = (==_iff _ _).0 e in
            absurd (E.one-ne-zero (sym (E.nat-to_bigint E.ring.one) ∙ ap nat z))
        | inr e ↦ ground arith
      ]

  to_bigint-bit : (x : Bool) → E.to_bigint (bit x) ≡ bit_ℕ x
  to_bigint-bit x =
      ap E.to_bigint (sym (nat-bit x)) ∙ E.to_bigint-nat (bit_ℕ x) ∙ mod-eq_of_lt (below x)
    where
      below : (x : Bool) → bit_ℕ x < E.pr
      below true = order_lt
      below false = let lt = order_lt in omega arith

  to_bigint-bits : (xs : List Bool) → map E.to_bigint (map bit xs) ≡ map bit_ℕ xs
  to_bigint-bits [] = refl
  to_bigint-bits (x ∷ xs) = ap₂ (λ u l. u ∷ l) (to_bigint-bit x) (to_bigint-bits xs)

  -- The first field opens the bits of both coordinates under the mask.
  pub decompose_and_reveal_lem :
      E.pr < 2 ^ psize
      → (fuel : ℕ) → ((s : E.State) → AcceptsWithin fuel s)
      → (real imag : E.Share) (shared : List E.Share) (ys : List Bool) → ReadsAll shared ys
      → length ys ≡ 2 * psize
      → Yields (decompose_and_reveal fuel (real ∷ imag ∷ []) shared) (λ r.
        r
        ≡ map bit_ℕ (
            zip_with xor
              (bits_of psize (E.to_bigint (E.opened real))
                ++ bits_of psize (E.to_bigint (E.opened imag)))
              ys))
  unfolding decompose_and_reveal
  decompose_and_reveal_lem small fuel live real imag shared ys h e =
      let xs = bits_of psize (E.to_bigint (E.opened real)) in
      let zs = bits_of psize (E.to_bigint (E.opened imag)) in
      let len : length (xs ++ zs) ≡ length ys =
        let a = length-append xs zs in
        let b = length-bits_of psize (E.to_bigint (E.opened real)) in
        let c = length-bits_of psize (E.to_bigint (E.opened imag)) in omega arith in
      Yields-guard invalid_length (rw (ReadsAll-length shared ys h ∙ e) (==_refl (2 * psize))) (
        Yields-bind (Yields-index {P = λ v. v ≡ real} _ 0 real refl refl) (λ k0 e0.
          Yields-bind (a2b_lem small fuel live k0) (λ d0 h0.
            Yields-bind (Yields-index {P = λ v. v ≡ imag} _ 1 imag refl refl) (λ k1 e1.
              Yields-bind (a2b_lem small fuel live k1) (λ d1 h1.
                Yields-bind
                  (xor_each_lem (d0 ++ d1) shared (xs ++ zs) ys
                    (ReadsAll-append d0 d1 xs zs (rw (sym e0) h0) (rw (sym e1) h1)) h len)
                  (λ masked hm. Yields-bind (reveal_vec_lem masked) (λ out ho. Yields-pure _ (
                    ap (map E.to_bigint) (ho ∙ hm)
                    ∙ to_bigint-bits (zip_with xor (xs ++ zs) ys)))))))))

  xor_plain_all :
      (shared : List E.Share) (ys zs : List Bool)
      → ReadsAll shared ys
      → ReadsAll (zip_with xor_plain shared (map nat (map bit_ℕ zs))) (zip_with xor ys zs)
  xor_plain_all [] [] zs h = refl
  xor_plain_all [] (y ∷ ys) zs h = cc
  xor_plain_all (s ∷ shared) [] zs h = cc
  xor_plain_all (s ∷ shared) (y ∷ ys) [] h = refl
  xor_plain_all (s ∷ shared) (y ∷ ys) (z ∷ zs) h =
      ap₂ (λ u l. u ∷ l) (ap (λ v. E.opened (xor_plain s v)) (nat-bit z) ∙ xor_plain_lem y z cc)
        (xor_plain_all shared ys zs cc)

  -- The second field takes the mask off, and each key opens to the number of one piece of the bits.
  pub xor_and_combine_lem :
      (shared : List E.Share) (xs ys : List Bool)
      → ReadsAll shared ys
      → length xs ≡ 3 * qsize
      → length ys ≡ 3 * qsize
      → Yields (xor_and_combine shared (map bit_ℕ (zip_with xor xs ys))) (λ keys.
        opened_all keys
        ≡ nat (value (piece 0 xs)) ∷ nat (value (piece 1 xs)) ∷ nat (value (piece 2 xs)) ∷ [])
  unfolding xor_and_combine
  xor_and_combine_lem shared xs ys h ex ey =
      let tmp = zip_with xor_plain shared (map nat (map bit_ℕ (zip_with xor xs ys))) in
      let ht : ReadsAll tmp xs =
        xor_plain_all shared ys (zip_with xor xs ys) h
        ∙ ap (map bit) (xor_twice xs ys (ex ∙ sym ey)) in
      let lr : length (map bit_ℕ (zip_with xor xs ys)) ≡ 3 * qsize =
        let a = length-map bit_ℕ (zip_with xor xs ys) in
        let b = length-zip_with xor xs ys in omega arith in
      Yields-guard invalid_length
        (rw (ReadsAll-length shared ys h ∙ ey, lr, ==_refl (3 * qsize)) refl)
        (Yields-bind (key tmp xs 0 ht ex (omega arith)) (λ k0 h0.
          Yields-bind (key tmp xs 1 ht ex (omega arith)) (λ k1 h1.
            Yields-bind (key tmp xs 2 ht ex (omega arith))
              (λ k2 h2. Yields-pure _ (ap₂ (λ u l. u ∷ l) h0 (ap₂ (λ u v. u ∷ v ∷ []) h1 h2))))))
    where
      key :
          (tmp : List E.Share) (xs : List Bool) (i : ℕ)
          → ReadsAll tmp xs
          → length xs ≡ 3 * qsize
          → i < 3
          → Yields (b2a (piece i tmp) qsize) (λ r. E.opened r ≡ nat (value (piece i xs)))
      key tmp xs i h e lt =
          unfold piece in
          b2a_lem qsize (take qsize (drop (i * qsize) tmp)) (take qsize (drop (i * qsize) xs))
            (ReadsAll-take qsize (drop (i * qsize) tmp) (drop (i * qsize) xs)
              (ReadsAll-drop (i * qsize) tmp xs h))
            (length-piece xs i e lt) qsize_pos
