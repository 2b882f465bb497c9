-- ===== src/Examples/KeyWitnesses.antt =====
-- The theorems on secret sharing and on the keys of several parties at two parties over the small
-- curve: both deal 1 + 2 X, and their joint polynomial is 2 + X.
use proof_of_custody.Prelude.{
  ℕ, ◌+◌, ◌≡◌, ◌↔◌, inl, inr, refl, sym, true, some, List, [], ◌∷◌, ◌++◌, map, get_elem?, arith,
}
use proof_of_custody.Ring.{nat}
use proof_of_custody.Ring.Module.{◌⊡◌}
use proof_of_custody.Ring.Polynomial.{poly, poly_in}
use proof_of_custody.Ring.Interpolation.{Apart, Distinct}
use proof_of_custody.Engine.Program.{ok, err, invalid_commitment, invalid_setting, zero_element}
use proof_of_custody.Fallible.{◌>>=◌}
use proof_of_custody.Mcl.{ℤ, pos, negsuc, fr_ring, fr_field, g1_points, g1_module}
use proof_of_custody.Lagrange.{set_share, recover_share}
use proof_of_custody.Lagrange.Laws.Recovery.{coefficients, set_share_lem}
use proof_of_custody.Vss.{
  Vss, new_vss, rnd_secret, coeff_loop, evaluate_loop, gen_share, verify_share, lagrange_coeff,
}
use proof_of_custody.Vss as Feldman
use proof_of_custody.Vss.Laws.{gen_share-verified, recover_share-gen_share}
use proof_of_custody.Vss.Laws.Coefficients.{
  ValidPoint, AllValid, elements, lagrange_coeff_lem, lagrange_coeff-refuses,
}
use proof_of_custody.Bls.{keygen, sign, verify, with_keys}
use proof_of_custody.Bls.Laws.{keygen-sign-verify}
use proof_of_custody.Bls.Keygen.{deal, received_aux, dstb_keygen}
use proof_of_custody.Bls.Keygen.Laws.{all_accepted, deal-refuses}
use proof_of_custody.Bls.Keygen.Laws.Consistency.{
  joint_public, Misfits, dstb_keygen-consistent, dstb_keygen-refuses,
}
use proof_of_custody.Bls.Keygen.Laws.Honest.{joint, polynomial}
use proof_of_custody.Bls.Keygen.Laws.Run.{dstb_keygen-honest}
use proof_of_custody.Examples.Field3.{F3, res0, res1, res2, res2-res0}
use proof_of_custody.Examples.SmallCurve.{small_curve, small_transport}
use proof_of_custody.Examples.SmallParties.{
  two-Fits, small_limit, party, dealt_one, deal-party, deals_one, received, player, honest,
  delivered, keyed, runs,
}

set_share_example :
    (do
      shared ← set_share (res0 ∷ res0 ∷ []) res2 2 1 4
      ws ← coefficients 2 1 2
      recover_share ws shared.0)
    ≡ ok res2
set_share_example = set_share_lem (res0 ∷ res0 ∷ []) res2 2 1 4 two-Fits refl (omega arith)

-- The secret 1, shared among two parties with threshold 1.
abbrev small_vss : Vss
small_vss = record { s = res1; nparty = 2; threshold = 1 }

second_share : get_elem? (gen_share small_vss [] [] 2).0.0 1 ≡ some res2
unfolding gen_share coeff_loop evaluate_loop poly nat
second_share = refl

gen_share-verified_example : verify_share res2 (gen_share small_vss [] [] 2).0.1 (1 + 1) ≡ true
gen_share-verified_example =
    gen_share-verified small_vss 2 1 res2 small_limit (omega arith) second_share

recover_share-gen_share_example : Feldman.recover_share (gen_share small_vss [] [] 2).0.0 ≡ res1
recover_share-gen_share_example = recover_share-gen_share small_vss 2 two-Fits (omega arith)

-- The points 2 and -2.
abbrev both_points : List ℤ
both_points = pos 2 ∷ negsuc 1 ∷ []

both_points-AllValid : AllValid both_points
unfolding AllValid ValidPoint
both_points-AllValid = (small_limit, (small_limit, tt))

both_points-Distinct : Distinct (elements both_points)
unfolding Distinct Apart nat
both_points-Distinct = ((λ e. cc, tt), (tt, tt))

lagrange_coeff_example :
    (do
      ws ← lagrange_coeff [] both_points
      recover_share ws (map (poly (res1 ∷ res2 ∷ [])) (elements both_points)))
    ≡ ok res1
lagrange_coeff_example =
    lagrange_coeff_lem (pos 2) (negsuc 1 ∷ []) res1 (res2 ∷ []) both_points-AllValid
      both_points-Distinct (omega arith)

lagrange_coeff-refuses_example :
    lagrange_coeff [] (both_points ++ (pos 0 ∷ pos 1 ∷ [])) ≡ err zero_element
lagrange_coeff-refuses_example =
    lagrange_coeff-refuses both_points (pos 1 ∷ []) [] both_points-AllValid

keygen-party : keygen party 2 ≡ ok (with_keys party res2 res2, 3)
unfolding keygen nat
keygen-party = refl

keygen-sign-verify_example :
    (verify (with_keys party res2 res2) res1 res2 ≡ true)
    ↔ (res1 ≡ (sign (with_keys party res2 res2) res2).sigma)
keygen-sign-verify_example =
    keygen-sign-verify party (with_keys party res2 res2) 2 3 res1 res2 keygen-party

dstb_keygen-honest_example : dstb_keygen (player 1) party 1 (λ sent. honest 1) ≡ (
    let f : ℕ → List F3 = λ j. polynomial party dealt_one deals_one in
    ok (with_keys party (poly (joint f 0 2) (nat (1 + 1))) (res1 ⊡ poly (joint f 0 2) res0), 3))
dstb_keygen-honest_example =
    dstb_keygen-honest 2 1 1 (λ j. party) 1 3 (λ sent. honest 1) (λ j. dealt_one) (λ j. deals_one)
      (λ j. refl) (λ j. refl) (omega arith) small_limit deal-party
      (λ j. delivered 1 j (omega arith))

dstb_keygen-consistent_example :
    (all_accepted 1 2 (honest 1) 0 2 ≡ true)
    × (res1 ⊡ res1 ≡ joint_public 1 2 2 (honest 1) (res1 ∷ res2 ∷ []) (nat (1 + 1)))
    × (res2 ≡ joint_public 1 2 2 (honest 1) (res1 ∷ res2 ∷ []) res0)
dstb_keygen-consistent_example =
    dstb_keygen-consistent (player 1) party (keyed 1) 1 3 3 (λ sent. honest 1) dealt_one deals_one
      deal-party (omega arith) small_limit (runs 1 (omega arith))

-- The share 0 does not fit the polynomial 1 + 2 X at 2.
cheating-Misfits : Misfits 1 2 (received res0) 0
unfolding Misfits received_aux poly_in nat
cheating-Misfits = inr (inl (λ e. res2-res0 (sym e)))

dstb_keygen-refuses_example :
    dstb_keygen (player 1) party 1 (λ sent. received res0) ≡ err invalid_commitment
dstb_keygen-refuses_example =
    dstb_keygen-refuses (player 1) party 1 3 (λ sent. received res0) dealt_one 0 deals_one
      deal-party (omega arith) small_limit (omega arith) (λ e. absurd (omega arith))
      cheating-Misfits

deal-refuses_example :
    deal (record { sk = res0; vk = res0; sigma = res0; nparty = 2; threshold = 3 }) 1
    ≡ err invalid_setting
deal-refuses_example = deal-refuses _ 1 (omega arith)
