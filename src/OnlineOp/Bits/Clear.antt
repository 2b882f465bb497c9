-- ===== src/OnlineOp/Bits/Clear.antt =====
-- The connectives of shared bits with clear bits, over vectors.
use proof_of_custody.Prelude.{
  ℕ, ◌≡◌, refl, sym, ap, ◌∙◌, Bool, xor, ◌||◌, List, map, length, zip_with, ==_refl, length-map,
  length-zip_with,
}
use proof_of_custody.Ring.{◌⊖◌}
use proof_of_custody.Engine.{Engine}
use proof_of_custody.Engine.Program.{
  bit, Yields, Yields-pure, Yields-guard, Yields-guard-bind, clear_ring, invalid_length,
  assertion_failed,
}
use proof_of_custody.OnlineOp.Linear.{
  add_plain, sub_inplace, mul_plain, add_plain_vec, mul_plain_vec, sub_inplace_vec,
}
use proof_of_custody.OnlineOp.Linear.Laws.{
  opened_all, opened-zip_with_plain, opened-add_plain, opened-mul_plain, resize_same,
}
use proof_of_custody.OnlineOp.Bits.{xor_plain_vec, or_plain_vec}
use proof_of_custody.OnlineOp.Bits.Laws.{
  ReadsAll, ReadsAll-length, opened-sub_inplace_vec, xor_lists, or_lists,
}

module _ ⦃E : Engine⦄ where
  module _ (a : List E.Share) (xs ys : List Bool) (ha : ReadsAll a xs) where
    -- XOR of k shared bits with k clear bits opens to the exclusive ors.
    pub xor_plain_vec_lem :
        {k : ℕ}
        → length xs ≡ k
        → length ys ≡ k
        → Yields (xor_plain_vec a (map bit ys) k) (λ c. ReadsAll c (zip_with xor xs ys))
    unfolding xor_plain_vec add_plain_vec mul_plain_vec
    xor_plain_vec_lem {k} hx hy =
        let la : length a ≡ k = ReadsAll-length a xs ha ∙ hx in
        let lb : length (map bit ys) ≡ k = length-map bit ys ∙ hy in
        let c = zip_with add_plain a (map bit ys) in
        let t = zip_with mul_plain a (map bit ys) in
        let lc : length c ≡ k = length-zip_with add_plain a (map bit ys) (la ∙ sym lb) ∙ la in
        let lt : length t ≡ k = length-zip_with mul_plain a (map bit ys) (la ∙ sym lb) ∙ la in
        let e : length (sub_inplace_vec c t) ≡ length t =
          unfold sub_inplace_vec in
          rw (resize_same (length t) E.fresh c (lc ∙ sym lt))
            (length-zip_with sub_inplace c t (lc ∙ sym lt) ∙ lc ∙ sym lt) in
        Yields-guard invalid_length (rw (la, lb, ==_refl k) refl) (
          Yields-guard-bind assertion_failed _ (rw (la, lb) (==_refl k)) (
            Yields-guard-bind assertion_failed _ (rw (la, lb) (==_refl k)) (
              Yields-pure _ (
                opened-sub_inplace_vec (sub_inplace_vec c t) t e
                ∙ ap (λ u. zip_with ◌⊖◌ u (opened_all t)) (opened-sub_inplace_vec c t (lc ∙ sym lt))
                ∙ rw
                    (
                      opened-zip_with_plain add_plain E.ring.add opened-add_plain,
                      opened-zip_with_plain mul_plain E.ring.mul opened-mul_plain,
                      ha,
                    )
                    (xor_lists xs ys)))))

    -- OR of shared bits with as many clear bits opens to the disjunctions.
    pub or_plain_vec_lem :
        length xs ≡ length ys
        → Yields (or_plain_vec a (map bit ys)) (λ c. ReadsAll c (zip_with ◌||◌ xs ys))
    unfolding or_plain_vec add_plain_vec mul_plain_vec
    or_plain_vec_lem h =
        let same : length a ≡ length (map bit ys) =
          ReadsAll-length a xs ha ∙ h ∙ sym (length-map bit ys) in
        let c = zip_with add_plain a (map bit ys) in
        let t = zip_with mul_plain a (map bit ys) in
        let lc : length c ≡ length a = length-zip_with add_plain a (map bit ys) same in
        let lt : length t ≡ length a = length-zip_with mul_plain a (map bit ys) same in
        Yields-guard-bind assertion_failed _ (rw (same) (==_refl (length (map bit ys)))) (
          Yields-guard-bind assertion_failed _ (rw (same) (==_refl (length (map bit ys)))) (
            Yields-pure _ (
              opened-sub_inplace_vec c t (lc ∙ sym lt)
              ∙ rw
                  (
                    opened-zip_with_plain add_plain E.ring.add opened-add_plain,
                    opened-zip_with_plain mul_plain E.ring.mul opened-mul_plain,
                    ha,
                  )
                  (or_lists xs ys))))
