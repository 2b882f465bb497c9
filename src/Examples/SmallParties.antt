-- ===== src/Examples/SmallParties.antt =====
-- Two parties over the small curve that both deal 1 + 2 X.
use proof_of_custody.Prelude.{
  ℕ, zero, suc, ◌<◌, ◌≡◌, ◌≢◌, refl, ◌∙◌, some, [], ◌∷◌, get_elem?, arith,
}
use proof_of_custody.Ring.{nat}
use proof_of_custody.Ring.Polynomial.{poly, add_poly}
use proof_of_custody.Engine.Program.{ok}
use proof_of_custody.Fallible.{◌>>=◌}
use proof_of_custody.Mcl.{int_limit, Fits}
use proof_of_custody.Lagrange.Laws.{points}
use proof_of_custody.Vss.{new_vss, rnd_secret, coeff_loop, evaluate_loop, gen_share}
use proof_of_custody.Bls.{Bls, with_keys}
use proof_of_custody.Bls.Keygen.{Player, Received, Dealt, elem_at, deal, dstb_keygen}
use proof_of_custody.Bls.Keygen.Laws.{Deals}
use proof_of_custody.Bls.Keygen.Laws.Honest.{joint, Delivered}
use proof_of_custody.Bls.Keygen.Laws.Run.{dstb_keygen-honest}
use proof_of_custody.Examples.Field3.{F3, res0, res1, res2}
use proof_of_custody.Examples.SmallCurve.{small_curve, small_transport}

pub two-Fits : Fits 2
unfolding int_limit
two-Fits = record { in_int = omega arith; in_field = omega arith }

pub small_limit : 2 < int_limit
small_limit = two-Fits.in_int

abbrev pub party : Bls
party = record { sk = res0; vk = res0; sigma = res0; nparty = 2; threshold = 1 }

-- What a party deals from the state 1 of the generator.
abbrev pub dealt_one : Dealt
dealt_one = record {
  shs = res0 ∷ res2 ∷ [];
  aux = res1 ∷ res2 ∷ [];
  sent = record { comm = res1; opening = res1; shares = res0 ∷ res2 ∷ []; aux = res1 ∷ res2 ∷ [] };
}

pub deal-party : deal party 1 ≡ ok (dealt_one, 3)
unfolding deal new_vss rnd_secret gen_share coeff_loop evaluate_loop elem_at poly nat ◌>>=◌
deal-party = refl

pub deals_one : Deals party dealt_one
unfolding poly points nat
deals_one = record {
  constant = res1;
  coefficients = res2 ∷ [];
  degree = refl;
  shs_lem = refl;
  aux_lem = refl;
  opened = refl;
  sent_shares = refl;
  sent_aux = refl;
}

-- What a party receives of the other, with this share.
abbrev pub aux_messages : ℕ → F3
aux_messages zero = res1
aux_messages (suc k) = res2

abbrev pub received : F3 → Received
received share = record {
  comms = λ j. res1;
  openings = λ j. res1;
  shares = λ j. share;
  aux = λ j. aux_messages;
}

abbrev pub player : ℕ → Player
player me = record { my_num = me; num_players = 2 }

-- The shares 0 and 2 of the two parties.
abbrev pub honest : ℕ → Received
honest zero = received res0
honest (suc me) = received res2

pub delivered : (me j : ℕ) → me < 2 → j < 2 → j ≢ me → Delivered 2 me dealt_one.sent (honest me) j
delivered me j hm hj h = arrived me hm
  where
    messages : (k : ℕ) → k < 2 → get_elem? (res1 ∷ res2 ∷ []) k ≡ some (aux_messages k)
    messages zero hk = refl
    messages (suc zero) hk = refl
    messages (suc (suc k)) hk = absurd (omega arith)

    arrived : (m : ℕ) → m < 2 → Delivered 2 m dealt_one.sent (honest m) j
    arrived zero hk = record {
      same_comm = refl;
      same_opening = refl;
      same_share = refl;
      same_aux = messages;
    }
    arrived (suc zero) hk = record {
      same_comm = refl;
      same_opening = refl;
      same_share = refl;
      same_aux = messages;
    }
    arrived (suc (suc m)) hk = absurd (omega arith)

-- The parties with their keys: 0 and 1, the values of 2 + X at 1 and 2, and the key 2.
abbrev pub keyed : ℕ → Bls
keyed zero = with_keys party res0 res2
keyed (suc me) = with_keys party res1 res2

pub runs :
    (me : ℕ) → me < 2 → dstb_keygen (player me) party 1 (λ sent. honest me) ≡ ok (keyed me, 3)
unfolding joint poly nat deals_one add_poly
runs zero h =
    dstb_keygen-honest 2 1 0 (λ j. party) 1 3 (λ sent. honest 0) (λ j. dealt_one) (λ j. deals_one)
      (λ j. refl) (λ j. refl) (omega arith) small_limit deal-party
      (λ j. delivered 0 j (omega arith))
    ∙ refl
runs (suc zero) h =
    dstb_keygen-honest 2 1 1 (λ j. party) 1 3 (λ sent. honest 1) (λ j. dealt_one) (λ j. deals_one)
      (λ j. refl) (λ j. refl) (omega arith) small_limit deal-party
      (λ j. delivered 1 j (omega arith))
    ∙ refl
runs (suc (suc me)) h = absurd (omega arith)
