-- ===== src/Poc/Stages/Laws.antt =====
-- From the shares of a key to the custody bit, over one field.
use proof_of_custody.Prelude.{◌≡◌, ◌↔◌, refl, List, [], ◌∷◌, length}
use proof_of_custody.Ring.{◌⊕◌}
use proof_of_custody.Engine.{Engine}
use proof_of_custody.Engine.Program.{Yields, Yields-bind, Yields-index, clear_ring}
use proof_of_custody.OnlineOp.Linear.Laws.{opened_all}
use proof_of_custody.OnlineOp.Products.Laws.{MasksNonzero}
use proof_of_custody.OnlineOp.Hash.{Gmp}
use proof_of_custody.Mcl.{Mcl, fr_ring, g1_points, g1_module}
use proof_of_custody.Bls.{Bls}
use proof_of_custody.Poc.{chunk_num}
use proof_of_custody.Poc.Custody.{hash_value}
use proof_of_custody.Poc.TwoPrimes.{key_power3, custody_bit_offline_2primes_lem}
use proof_of_custody.Poc.Rounds.{AllMinus, custody_bit_online_2primes_lem}
use proof_of_custody.Poc.Stages.{custody_stages}

module _ ⦃E : Engine⦄ (gmp : Gmp) where
  -- The bit 0 under three keys.
  unfoldable pub ZeroBit : E.Clear → E.Clear → E.Clear → List E.Clear → Type 0
  ZeroBit x0 x1 x2 msg = AllMinus gmp (x0 ⊕ hash_value (key_power3 x0 x1 x2) msg) 10 0

  custody_stages_opened :
      MasksNonzero
      → (a b c : E.Share) (msg : List E.Clear) → length msg ≡ chunk_num
      → Yields
          (custody_stages gmp (a ∷ b ∷ c ∷ []) msg)
          (λ r. (r ≡ 0) ↔ ZeroBit (E.opened a) (E.opened b) (E.opened c) msg)
  unfolding custody_stages ZeroBit
  custody_stages_opened masks a b c msg h =
      Yields-bind (custody_bit_offline_2primes_lem a b c) (λ pre hp.
        Yields-bind (Yields-index {P = λ v. v ≡ a} _ 0 a refl refl)
          (λ k e. rw (e) (custody_bit_online_2primes_lem gmp masks _ a pre msg h hp)))

  pub custody_stages_lem :
      MasksNonzero
      → (ek : List E.Share) (x0 x1 x2 : E.Clear) (msg : List E.Clear)
      → opened_all ek ≡ x0 ∷ x1 ∷ x2 ∷ []
      → length msg ≡ chunk_num
      → Yields (custody_stages gmp ek msg) (λ r. (r ≡ 0) ↔ ZeroBit x0 x1 x2 msg)
  custody_stages_lem masks [] x0 x1 x2 msg e h = absurd cc
  custody_stages_lem masks (a ∷ []) x0 x1 x2 msg e h = absurd cc
  custody_stages_lem masks (a ∷ b ∷ []) x0 x1 x2 msg e h = absurd cc
  custody_stages_lem masks (a ∷ b ∷ c ∷ d ∷ ek) x0 x1 x2 msg e h = absurd cc
  custody_stages_lem masks (a ∷ b ∷ c ∷ []) x0 x1 x2 msg e h =
      let e0 : E.opened a ≡ x0 = cc in
      let e1 : E.opened b ≡ x1 = cc in
      let e2 : E.opened c ≡ x2 = cc in
      rw (← e0, ← e1, ← e2) (custody_stages_opened masks a b c msg h)
