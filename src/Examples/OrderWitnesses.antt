-- ===== src/Examples/OrderWitnesses.antt =====
-- The order of the communications of dstb_keygen at two parties: both commit, then party 0 receives
-- the commitment of party 1 and sends its opening.
use proof_of_custody.Prelude.{ℕ, ◌<◌, ◌≡◌, refl, true, arith}
use proof_of_custody.Bls.Keygen.Order.{
  comms, opens, aux, program, position, has_sent, others_sent, ready, advance, communicate,
  Reachable, start, step,
}
use proof_of_custody.Bls.Keygen.Order.Laws.{commitments_first, never_stuck}

abbrev committed : ℕ → ℕ
committed = advance (advance (λ i. 0) 0) 1

abbrev opened : ℕ → ℕ
opened = advance (advance committed 0) 0

opened-Reachable : Reachable 2 opened
unfolding ready program others_sent has_sent position advance
opened-Reachable =
    step
      (step
        (step (step start (communicate 0 (omega arith) refl)) (communicate 1 (omega arith) refl))
        (communicate 0 (omega arith) refl))
      (communicate 0 (omega arith) refl)

first_waiting : opened 1 < 8
unfolding advance
first_waiting = omega arith

commitments_first_example :
    (has_sent opens (opened 0) ≡ true → has_sent comms (opened 1) ≡ true)
    × (has_sent aux (opened 0) ≡ true → has_sent opens (opened 1) ≡ true)
commitments_first_example =
    commitments_first 2 opened 0 1 opened-Reachable (omega arith) (omega arith)

never_stuck_example : (k : ℕ) × (k < 2) × (opened k < 8) × (ready 2 opened k ≡ true)
never_stuck_example = never_stuck 2 opened 1 (omega arith) first_waiting
