-- ===== src/Poc/OnePrime.antt =====
-- The custody bit that the phases of one prime return, and the inputs that they refuse.
use proof_of_custody.Prelude.{
  ◌≡◌, refl, sym, ap, ap₂, ◌∙◌, some, List, [], ◌∷◌, length, ==_refl, ==_iff, arith,
}
use proof_of_custody.Ring.{◌⊕◌, pow}
use proof_of_custody.Ring.Solver.{ring_eq, same_poly, var, ◌:*◌, one_expr}
use proof_of_custody.Engine.{Engine}
use proof_of_custody.Engine.Program.{
  Yields, Yields-bind, Yields-weaken, Yields-guard, Yields-index, clear_ring, ◌>>=◌, invalid_length,
}
use proof_of_custody.OnlineOp.Linear.Laws.{opened_all}
use proof_of_custody.OnlineOp.Products.Laws.{MasksNonzero}
use proof_of_custody.OnlineOp.Hash.{Gmp}
use proof_of_custody.OnlineOp.Hash.Laws.{polynomial, uhf_lem, symbol, prf_bit, legendre_prf_lem}
use proof_of_custody.Poc.{chunk_num, custody_bit_offline, custody_bit_online, custody_bit}
use proof_of_custody.Poc.Powers.{tabulate, get_elem?-tabulate, opened-get}
use proof_of_custody.Poc.Custody.{
  chunk_num_le, key_power, custody_bit_offline_lem, hash_value, online_hash_lem,
}

module _ ⦃E : Engine⦄ (gmp : Gmp) where
  -- With a table of the powers of the keys, the online phase returns the pseudo-random bit,
  -- under the second key, of the weighted sum of the message, for every message of CHUNK_NUM
  -- chunks and nonzero masks.
  pub custody_bit_online_lem :
      MasksNonzero
      → (k0 k1 : E.Clear) (pre : List E.Share) (msg : List E.Clear) → length msg ≡ chunk_num
      → opened_all pre ≡ tabulate (key_power k0 k1) 0 chunk_num
      → Yields
          (custody_bit_online gmp pre msg)
          (λ b. b ≡ prf_bit gmp (symbol gmp (k1 ⊕ hash_value (key_power k0 k1) msg)))
  unfolding custody_bit_online
  custody_bit_online_lem masks k0 k1 pre [] h t =
      absurd (let le = chunk_num_le in let e : 0 ≡ chunk_num = h in omega arith)
  custody_bit_online_lem masks k0 k1 pre (m ∷ []) h t =
      absurd (let le = chunk_num_le in let e : 1 ≡ chunk_num = h in omega arith)
  custody_bit_online_lem masks k0 k1 pre (m0 ∷ m1 ∷ ms) h t =
      let le = chunk_num_le in
      let (p, hp, e) = opened-get pre 0 (key_power k0 k1 0) (
        rw t (
          get_elem?-tabulate (key_power k0 k1) 0 chunk_num 0 (omega arith)
          ∙ ap (λ i. some (key_power k0 k1 i)) (omega arith))) in
      Yields-guard invalid_length ((==_iff _ _).1 h) (
        Yields-bind
          (online_hash_lem (key_power k0 k1) pre m0 m1 ms
            (t ∙ ap (tabulate (key_power k0 k1) 0) (sym h)))
          (λ c hc.
            Yields-bind (Yields-index {P = λ v. E.opened v ≡ k1} pre 0 p hp (e ∙ first k0 k1))
              (λ v hv.
                Yields-weaken (legendre_prf_lem gmp masks v c)
                  (λ b hb. hb ∙ ap (λ x. prf_bit gmp (symbol gmp x)) (ap₂ (λ s t. s ⊕ t) hv hc)))))
    where
      first : (k0 k1 : E.Clear) → key_power k0 k1 0 ≡ k1
      first k0 k1 =
          unfold key_power pow same_poly in ring_eq (k1 ∷ []) (var 0 :* one_expr) (var 0) refl

  -- The offline phase followed by the online phase returns the pseudo-random bit, under the
  -- second key, of the hash of the message at the alternating powers of the two keys, for every
  -- message of CHUNK_NUM chunks and nonzero masks.
  pub two_phases_lem :
      MasksNonzero
      → (s0 s1 : E.Share) (msg : List E.Clear) → length msg ≡ chunk_num
      → Yields
          (do pre ← custody_bit_offline (s0 ∷ s1 ∷ []); custody_bit_online gmp pre msg)
          (λ b.
            b
            ≡ prf_bit gmp
                (symbol gmp (E.opened s1 ⊕ hash_value (key_power (E.opened s0) (E.opened s1)) msg)))
  two_phases_lem masks s0 s1 msg h =
      Yields-bind (custody_bit_offline_lem s0 s1)
        (λ pre hp. custody_bit_online_lem masks (E.opened s0) (E.opened s1) pre msg h hp)

  -- In one step the custody bit is the pseudo-random bit, under the second key, of the
  -- polynomial of the message at the first key, for every message of CHUNK_NUM chunks and
  -- nonzero masks.
  pub custody_bit_lem :
      MasksNonzero
      → (s0 s1 : E.Share) (msg : List E.Clear) → length msg ≡ chunk_num
      → Yields
          (custody_bit gmp (s0 ∷ s1 ∷ []) msg)
          (λ b. b ≡ prf_bit gmp (symbol gmp (E.opened s1 ⊕ polynomial (E.opened s0) msg)))
  unfolding custody_bit
  custody_bit_lem masks s0 s1 msg h =
      let le = chunk_num_le in
      Yields-guard invalid_length (==_refl 2) (
        Yields-bind (Yields-index {P = λ v. v ≡ s0} _ 0 s0 refl refl) (λ v hv.
          Yields-bind {P = λ c. E.opened c ≡ polynomial (E.opened v) msg}
            (rw (sym h) (uhf_lem v msg (omega arith)))
            (λ c hc. Yields-bind (Yields-index {P = λ w. w ≡ s1} _ 1 s1 refl refl) (λ w hw.
              Yields-weaken (legendre_prf_lem gmp masks w c) (λ b hb.
                hb
                ∙ ap (λ x. prf_bit gmp (symbol gmp x))
                    (ap₂ (λ s t. s ⊕ t) (ap E.opened hw)
                      (hc ∙ ap (λ k. polynomial (E.opened k) msg) hv)))))))
