-- ===== src/Poc/Rounds.antt =====
-- The online phase of two primes: the ten rounds of the bit, and the bit after the offline phase.
use proof_of_custody.Prelude.{
  ℕ, zero, suc, ◌+◌, ◌<◌, ◌≡◌, ◌↔◌, refl, sym, ap, ◌∙◌, List, [], ◌∷◌, length, ==_iff, arith,
}
use proof_of_custody.Ring.{◌⊕◌, nat}
use proof_of_custody.Engine.{Engine}
use proof_of_custody.Engine.Program.{
  Yields, Yields-bind, Yields-pure, Yields-weaken, Yields-guard, clear_ring, ◌>>=◌, bad_value,
}
use proof_of_custody.OnlineOp.Linear.{add_plain}
use proof_of_custody.OnlineOp.Linear.Laws.{opened_all, opening}
use proof_of_custody.OnlineOp.Products.Laws.{MasksNonzero}
use proof_of_custody.OnlineOp.Hash.{Gmp, Symbol, minus, none_left, plus}
use proof_of_custody.OnlineOp.Hash.Laws.{symbol, prf_bit, legendre_prf_lem}
use proof_of_custody.Poc.{
  chunk_num, custody_bit_offline_2primes, bit_or, prf_rounds, custody_bit_online_2primes,
}
use proof_of_custody.Poc.Powers.{tabulate}
use proof_of_custody.Poc.Custody.{chunk_num_le, hash_value, online_hash_lem}
use proof_of_custody.Poc.TwoPrimes.{key_power3, custody_bit_offline_2primes_lem}

module _ ⦃E : Engine⦄ (gmp : Gmp) where
  -- The symbols of all numbers x + i, .., x + (i + n - 1) are -1.
  unfoldable pub AllMinus : E.Clear → ℕ → ℕ → Type 0
  AllMinus x n i = (j : ℕ) → j < n → symbol gmp (x ⊕ nat (i + j)) ≡ minus

  none_minus : (x : E.Clear) (i : ℕ) → AllMinus x 0 i
  unfolding AllMinus
  none_minus x i j h = absurd (omega arith)

  AllMinus-suc :
      (x : E.Clear) (n i : ℕ)
      → AllMinus x (suc n) i ↔ ((symbol gmp (x ⊕ nat i) ≡ minus) × AllMinus x n (suc i))
  unfolding AllMinus
  AllMinus-suc x n i = (
    λ h. (
      ap (λ k. symbol gmp (x ⊕ nat k)) (omega arith) ∙ h 0 (omega arith),
      λ j lt. ap (λ k. symbol gmp (x ⊕ nat k)) (omega arith) ∙ h (suc j) (omega arith),
    ),
    λ (p, h). λ j lt. at x n i p h j lt,
  )
    where
      at :
          (x : E.Clear) (n i : ℕ)
          → symbol gmp (x ⊕ nat i) ≡ minus
          → ((j : ℕ) → j < n → symbol gmp (x ⊕ nat (suc i + j)) ≡ minus)
          → (j : ℕ) → j < suc n
          → symbol gmp (x ⊕ nat (i + j)) ≡ minus
      at x n i p h zero lt = ap (λ k. symbol gmp (x ⊕ nat k)) (omega arith) ∙ p
      at x n i p h (suc j) lt = ap (λ k. symbol gmp (x ⊕ nat k)) (omega arith) ∙ h j (omega arith)

  or_zero : (r b : ℕ) (s : Symbol) → b ≡ prf_bit gmp s → (bit_or r b ≡ 0) ↔ ((r ≡ 0) × (s ≡ minus))
  unfolding bit_or prf_bit
  or_zero zero b minus e = (λ h. (refl, refl), λ h. e)
  or_zero zero b none_left e = (λ h. absurd (omega arith), λ (p, q). absurd cc)
  or_zero zero b plus e = (λ h. absurd (omega arith), λ (p, q). absurd cc)
  or_zero (suc r) b s e = (λ h. absurd (omega arith), λ (p, q). absurd (omega arith))

  prf_rounds_lem :
      MasksNonzero
      → (n i : ℕ) (key out : E.Share) (res : ℕ)
      → Yields
          (prf_rounds gmp n i key out res)
          (λ b. (b ≡ 0) ↔ ((res ≡ 0) × AllMinus (E.opened key ⊕ E.opened out) n i))
  unfolding prf_rounds
  prf_rounds_lem masks zero i key out res = Yields-pure res (λ h. (h, none_minus _ i), λ (h, k). h)
  prf_rounds_lem masks (suc n) i key out res =
      Yields-bind (legendre_prf_lem gmp masks key (add_plain out (nat i))) (λ b hb.
        let x = E.opened key ⊕ E.opened out in
        let e : b ≡ prf_bit gmp (symbol gmp (x ⊕ nat i)) =
          hb
          ∙ ap (λ y. prf_bit gmp (symbol gmp y))
              (simp opening (sym (E.ring.add_assoc (E.opened key) (E.opened out) (nat i)))) in
        let now = or_zero res b _ e in
        let later = AllMinus-suc x n i in
        Yields-weaken (prf_rounds_lem masks n (suc i) key out (bit_or res b)) (λ c hc. (
          λ z. let (p, q) = hc.0 z in let (r, s) = now.0 p in (r, later.1 (s, q)),
          λ (r, a). let (s, q) = later.0 a in hc.1 (now.1 (r, s), q),
        )))

  -- With any table of powers, the online phase of two primes returns 0 exactly if the symbols of
  -- key + hash + i are -1 for all i < 10, for every message of CHUNK_NUM chunks and nonzero
  -- masks.
  pub custody_bit_online_2primes_lem :
      MasksNonzero
      → (f : ℕ → E.Clear) (key : E.Share) (pre : List E.Share) (msg : List E.Clear)
      → length msg ≡ chunk_num
      → opened_all pre ≡ tabulate f 0 chunk_num
      → Yields
          (custody_bit_online_2primes gmp pre key msg)
          (λ b. (b ≡ 0) ↔ AllMinus (E.opened key ⊕ hash_value f msg) 10 0)
  unfolding custody_bit_online_2primes
  custody_bit_online_2primes_lem masks f key pre [] h t =
      absurd (let le = chunk_num_le in let e : 0 ≡ chunk_num = h in omega arith)
  custody_bit_online_2primes_lem masks f key pre (m ∷ []) h t =
      absurd (let le = chunk_num_le in let e : 1 ≡ chunk_num = h in omega arith)
  custody_bit_online_2primes_lem masks f key pre (m0 ∷ m1 ∷ ms) h t =
      Yields-guard bad_value ((==_iff _ _).1 h) (
        Yields-bind (online_hash_lem f pre m0 m1 ms (t ∙ ap (tabulate f 0) (sym h))) (λ c hc.
          Yields-weaken (prf_rounds_lem masks 10 0 key c 0)
            (λ b hb. rw (sym hc) (λ z. (hb.0 z).1, λ a. hb.1 (refl, a)))))

  -- The two phases of the two-prime version return 0 exactly if the Legendre symbols of key +
  -- hash + i are -1 for all i < 10, the hash being taken at the powers of the three keys in
  -- turn, for every message of CHUNK_NUM chunks and nonzero masks.
  pub two_phases_2primes_lem :
      MasksNonzero
      → (s0 s1 s2 key : E.Share) (msg : List E.Clear) → length msg ≡ chunk_num
      → Yields
          (do
            pre ← custody_bit_offline_2primes (s0 ∷ s1 ∷ s2 ∷ [])
            custody_bit_online_2primes gmp pre key msg)
          (λ b.
            (b ≡ 0)
            ↔ AllMinus
                (E.opened key
                  ⊕ hash_value (key_power3 (E.opened s0) (E.opened s1) (E.opened s2)) msg)
                10
                0)
  two_phases_2primes_lem masks s0 s1 s2 key msg h =
      Yields-bind (custody_bit_offline_2primes_lem s0 s1 s2)
        (λ pre hp. custody_bit_online_2primes_lem masks _ key pre msg h hp)
