-- ===== src/Bls/Keygen/Order/Laws.antt =====
-- No party opens its commitment before all have committed, and the parties never wait for each other
-- without end.
use proof_of_custody.Prelude.{
  ℕ, zero, suc, ◌<◌, ◌≤◌, ◌≡◌, ◌≢◌, refl, sym, ap, ◌∙◌, Bool, true, false, ◌&&◌, ◌||◌, Bool-cases,
  inl, inr, some, get_elem?, ltb, ltb→lt, lt→ltb, ◌==◌, arith,
}
use proof_of_custody.Bls.Keygen.Order.{
  Message, comms, opens, shares, aux, Act, send, receive, program, position, has_sent, others_sent,
  ready, advance, Step, communicate, Reachable, start, step,
}

receive-position :
    (k : ℕ) (m : Message) → get_elem? program k ≡ some (receive m) → k ≡ suc (position m)
unfolding program position
receive-position zero m h = absurd cc
receive-position (suc zero) comms h = refl
receive-position (suc zero) opens h = absurd cc
receive-position (suc zero) shares h = absurd cc
receive-position (suc zero) aux h = absurd cc
receive-position (suc (suc zero)) m h = absurd cc
receive-position (suc (suc (suc zero))) comms h = absurd cc
receive-position (suc (suc (suc zero))) opens h = refl
receive-position (suc (suc (suc zero))) shares h = absurd cc
receive-position (suc (suc (suc zero))) aux h = absurd cc
receive-position (suc (suc (suc (suc zero)))) m h = absurd cc
receive-position (suc (suc (suc (suc (suc zero))))) comms h = absurd cc
receive-position (suc (suc (suc (suc (suc zero))))) opens h = absurd cc
receive-position (suc (suc (suc (suc (suc zero))))) shares h = refl
receive-position (suc (suc (suc (suc (suc zero))))) aux h = absurd cc
receive-position (suc (suc (suc (suc (suc (suc zero)))))) m h = absurd cc
receive-position (suc (suc (suc (suc (suc (suc (suc zero))))))) comms h = absurd cc
receive-position (suc (suc (suc (suc (suc (suc (suc zero))))))) opens h = absurd cc
receive-position (suc (suc (suc (suc (suc (suc (suc zero))))))) shares h = absurd cc
receive-position (suc (suc (suc (suc (suc (suc (suc zero))))))) aux h = refl
receive-position (suc (suc (suc (suc (suc (suc (suc (suc k)))))))) m h = absurd cc

position-receive : (m : Message) → get_elem? program (suc (position m)) ≡ some (receive m)
unfolding program position
position-receive comms = refl
position-receive opens = refl
position-receive shares = refl
position-receive aux = refl

and_left : (a b : Bool) → (a && b) ≡ true → a ≡ true
and_left true b h = refl
and_left false b h = absurd cc

and_right : (a b : Bool) → (a && b) ≡ true → b ≡ true
and_right true b h = h
and_right false b h = absurd cc

or_true : (a : Bool) → ((a || true) && true) ≡ true
or_true true = refl
or_true false = refl

others_sent-all :
    (done : ℕ → ℕ) (m : Message) (i n j : ℕ)
    → others_sent done m i n ≡ true
    → j < n
    → j ≢ i
    → position m < done j
unfolding others_sent has_sent
others_sent-all done m i zero j h hj hne = absurd (omega arith)
others_sent-all done m i (suc n) j h hj hne = elim (Bool-cases (j == n)) [
  | inl e ↦
      let same : j ≡ n = ground arith in
      let other : (n == i) ≡ false = ground arith in
      let sent : ltb (position m) (done n) ≡ true =
        sym (ap (λ b. b || ltb (position m) (done n)) other) ∙ and_left _ _ h in
      rw (same) (ltb→lt (position m) (done n) sent)
  | inr e ↦ others_sent-all done m i n j (and_right _ _ h) (ground arith) hne
]

others_sent-intro :
    (done : ℕ → ℕ) (m : Message) (i n : ℕ)
    → ((j : ℕ) → j < n → position m < done j)
    → others_sent done m i n ≡ true
unfolding others_sent has_sent
others_sent-intro done m i zero h = refl
others_sent-intro done m i (suc n) h =
    let e = lt→ltb (position m) (done n) (h n (omega arith)) in
    let rest = others_sent-intro done m i n (λ j hj. h j (omega arith)) in
    rw (e, rest) (or_true (n == i))

ready-receive :
    (n : ℕ) (done : ℕ → ℕ) (i : ℕ) (m : Message)
    → done i ≡ suc (position m)
    → ready n done i ≡ others_sent done m i n
unfolding ready program others_sent
ready-receive n done i m e = rw (e, position-receive m) refl

ready-send :
    (n : ℕ) (done : ℕ → ℕ) (i : ℕ) (m : Message)
    → get_elem? program (done i) ≡ some (send m)
    → ready n done i ≡ true
unfolding ready program
ready-send n done i m e = rw (e) refl

advance-own : (done : ℕ → ℕ) (k i : ℕ) → (i == k) ≡ true → advance done k i ≡ suc (done i)
unfolding advance
advance-own done k i e = rw (e) refl

advance-other : (done : ℕ → ℕ) (k i : ℕ) → (i == k) ≡ false → advance done k i ≡ done i
unfolding advance
advance-other done k i e = rw (e) refl

advance-le : (done : ℕ → ℕ) (k i : ℕ) → done i ≤ advance done k i
advance-le done k i = elim (Bool-cases (i == k)) [
  | inl e ↦ rw (advance-own done k i e) (omega arith)
  | inr e ↦ rw (advance-other done k i e) (omega arith)
]

-- A receipt that a party has done had the messages of all sent.
unfoldable Ordered : ℕ → (ℕ → ℕ) → Type 0
Ordered n done =
    (m : Message) (i j : ℕ) → i < n → j < n → suc (position m) < done i → position m < done j

own_receipt :
    (n : ℕ) (done : ℕ → ℕ) (m : Message) (k j : ℕ)
    → ready n done k ≡ true
    → done k ≡ suc (position m)
    → j < n
    → position m < advance done k j
own_receipt n done m k j ok e hj = elim (Bool-cases (j == k)) [
  | inl q ↦
      let same : j ≡ k = ground arith in
      let e' : done j ≡ suc (position m) = ap done same ∙ e in
      rw (advance-own done k j q) (omega arith)
  | inr q ↦
      let sent =
        others_sent-all done m k n j (sym (ready-receive n done k m e) ∙ ok) hj (ground arith) in
      rw (advance-other done k j q) sent
]

Step-Ordered : (n : ℕ) {done next : ℕ → ℕ} → Step n done next → Ordered n done → Ordered n next
unfolding Ordered
Step-Ordered n {done} (communicate k hk ok) h m i j hi hj late =
    let grown = advance-le done k j in
    elim (Bool-cases (i == k)) [
      | inr e ↦
          let before : suc (position m) < done i = rw (← advance-other done k i e) late in
          let sent = h m i j hi hj before in omega arith
      | inl e ↦
          let same : i ≡ k = ground arith in
          let before : suc (position m) < suc (done i) = rw (← advance-own done k i e) late in
          elim (Bool-cases (suc (position m) == done i)) [
            | inl q ↦
                let here : done i ≡ suc (position m) = ground arith in
                own_receipt n done m k j ok (ap done (sym same) ∙ here) hj
            | inr q ↦ let sent = h m i j hi hj (ground arith) in omega arith
          ]
    ]

start-Ordered : (n : ℕ) → Ordered n (λ i. 0)
unfolding Ordered
start-Ordered n m i j hi hj h = absurd (omega arith)

Reachable-Ordered : (n : ℕ) (done : ℕ → ℕ) → Reachable n done → Ordered n done
Reachable-Ordered n done start = start-Ordered n
Reachable-Ordered n done (step r s) = Step-Ordered n s (Reachable-Ordered n _ r)

-- After any interleaving, where one party has sent the opening of its commitment, every party has
-- sent its commitment, and where one has sent its public polynomial, every one has sent its opening.
pub commitments_first :
    (n : ℕ) (done : ℕ → ℕ) (i j : ℕ)
    → Reachable n done
    → i < n
    → j < n
    → (has_sent opens (done i) ≡ true → has_sent comms (done j) ≡ true)
      × (has_sent aux (done i) ≡ true → has_sent opens (done j) ≡ true)
unfolding has_sent position Ordered
commitments_first n done i j r hi hj =
    let ordered = Reachable-Ordered n done r in
    (
      (λ h.
          let l = ltb→lt 2 (done i) h in lt→ltb 0 (done j) (ordered comms i j hi hj (omega arith))),
      (λ h.
          let l = ltb→lt 6 (done i) h in lt→ltb 2 (done j) (ordered opens i j hi hj (omega arith))),
    )

ltb-false→le : (a b : ℕ) → ltb a b ≡ false → b ≤ a
ltb-false→le a b h = ground arith

only_first : (done : ℕ → ℕ) (j : ℕ) → j < 1 → done 0 ≤ done j
only_first done zero h = omega arith
only_first done (suc j) h = absurd (omega arith)

-- A bound of the first n + 1 values and of the next one bounds the first n + 2.
bound_next :
    (n low : ℕ) (done : ℕ → ℕ)
    → ((j : ℕ) → j < suc n → low ≤ done j)
    → low ≤ done (suc n)
    → (j : ℕ) → j < suc (suc n)
    → low ≤ done j
bound_next n low done h last j hj = elim (Bool-cases (j == suc n)) [
  | inl e ↦ let same : j ≡ suc n = ground arith in rw (same) last
  | inr e ↦ h j (ground arith)
]

least : (n : ℕ) (done : ℕ → ℕ) → (k : ℕ) × (k < suc n) × ((j : ℕ) → j < suc n → done k ≤ done j)
least zero done = (0, omega arith, only_first done)
least (suc n) done =
    let (k, hk, h) = least n done in
    elim (Bool-cases (ltb (done (suc n)) (done k))) [
      | inl e ↦
          let less : done (suc n) < done k = ltb→lt _ _ e in
          (
            suc n,
            omega arith,
            bound_next n (done (suc n)) done (λ j hj. let l = h j hj in omega arith) (omega arith),
          )
      | inr e ↦ (k, omega arith, bound_next n (done k) done h (ltb-false→le _ _ e))
    ]

act_at : (k : ℕ) → k < 8 → (a : Act) × (get_elem? program k ≡ some a)
unfolding program
act_at zero h = (send comms, refl)
act_at (suc zero) h = (receive comms, refl)
act_at (suc (suc zero)) h = (send opens, refl)
act_at (suc (suc (suc zero))) h = (receive opens, refl)
act_at (suc (suc (suc (suc zero)))) h = (send shares, refl)
act_at (suc (suc (suc (suc (suc zero))))) h = (receive shares, refl)
act_at (suc (suc (suc (suc (suc (suc zero)))))) h = (send aux, refl)
act_at (suc (suc (suc (suc (suc (suc (suc zero))))))) h = (receive aux, refl)
act_at (suc (suc (suc (suc (suc (suc (suc (suc k)))))))) h = absurd (omega arith)

-- As long as one party has not done its eight communications, some party can do its next one.
pub never_stuck :
    (n : ℕ) (done : ℕ → ℕ) (i : ℕ)
    → i < n
    → done i < 8
    → (k : ℕ) × (k < n) × (done k < 8) × (ready n done k ≡ true)
never_stuck zero done i hi h = absurd (omega arith)
never_stuck (suc n) done i hi h =
    let (k, hk, low) = least n done in
    let l = low i hi in
    let (a, e) = act_at (done k) (omega arith) in (k, hk, omega arith, able k low a e)
  where
    able :
        (k : ℕ)
        → ((j : ℕ) → j < suc n → done k ≤ done j)
        → (a : Act) → get_elem? program (done k) ≡ some a
        → ready (suc n) done k ≡ true
    able k low (send m) e = ready-send (suc n) done k m e
    able k low (receive m) e =
        let here = receive-position (done k) m e in
        ready-receive (suc n) done k m here
        ∙ others_sent-intro done m k (suc n) (λ j hj. let l = low j hj in omega arith)
