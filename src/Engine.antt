-- ===== src/Engine.antt =====
-- What the protocols of POC/ ask of the multi-party engine they are compiled against: the field
-- `T::clear`, the share type `T`, and the calls of `T::Protocol`, `T::LivePrep`, `T::MAC_Check` and
-- `T::Input`. A share stands for all parties' parts of one value, and `opened` is that value.
-- The interactive calls thread the engine's state and are taken in an honest run.
pub mod Program
use proof_of_custody.Prelude.{
  ℕ, ◌%◌, ◌<◌, ◌≡◌, ◌≢◌, ◌↔◌, ◌⊎◌, Bool, true, List, map, length, zip_with,
}
use proof_of_custody.Ring.{Ring, nat}

pub record Engine : Type 1 where
  -- `clear`: the prime field
  pub Clear : Type 0
  pub ring : Ring Clear
  pub invert : Clear → Clear
  pub invert-mul : (x : Clear) → x ≢ ring.zero → ring.mul x (invert x) ≡ ring.one
  pub one-ne-zero : ring.one ≢ ring.zero
  pub is_zero : Clear → Bool
  pub is_zero_iff : (x : Clear) → (is_zero x ≡ true) ↔ (x ≡ ring.zero)
  -- `clear::pr()`, `to_bigint`; the field element of a number is `nat`
  pub pr : ℕ
  pub to_bigint : Clear → ℕ
  pub to_bigint-lt : (x : Clear) → to_bigint x < pr
  pub nat-to_bigint : (x : Clear) → nat ⦃r = ring⦄ (to_bigint x) ≡ x
  pub to_bigint-nat : (n : ℕ) → to_bigint (nat ⦃r = ring⦄ n) ≡ n % pr
  -- `T`: the operators of a share, and `T::constant`
  pub Share : Type 0
  pub opened : Share → Clear
  pub fresh : Share
  pub add_share : Share → Share → Share
  pub sub_share : Share → Share → Share
  pub scale : Share → Clear → Share
  pub constant : Clear → Share
  pub opened-add_share : (a b : Share) → opened (add_share a b) ≡ ring.add (opened a) (opened b)
  pub opened-sub_share :
      (a b : Share) → opened (sub_share a b) ≡ ring.add (opened a) (ring.neg (opened b))
  pub opened-scale : (a : Share) (x : Clear) → opened (scale a x) ≡ ring.mul (opened a) x
  pub opened-constant : (x : Clear) → opened (constant x) ≡ x
  -- the protocols, over the state of the connections and of the preprocessing
  pub State : Type 0
  -- init_mul, prepare_mul for each pair, exchange, finalize_mul for each pair
  pub run_mul : List Share → List Share → State → List Share × State
  pub opened-run_mul :
      (xs ys : List Share) (s : State)
      → length xs ≡ length ys
      → map opened (run_mul xs ys s).0 ≡ zip_with ring.mul (map opened xs) (map opened ys)
  -- init_open, prepare_open for each share, exchange, finalize_open for each share
  pub run_open : List Share → State → List Clear × State
  pub run_open-opened : (xs : List Share) (s : State) → (run_open xs s).0 ≡ map opened xs
  -- get_two(DATA_SQUARE, ..): a random share and its square
  pub get_two : State → (Share × Share) × State
  pub get_two-square :
      (s : State)
      → opened (get_two s).0.1 ≡ ring.mul (opened (get_two s).0.0) (opened (get_two s).0.0)
  -- get_one(DATA_BIT, ..): a random bit
  pub get_one : State → Share × State
  pub get_one-bit :
      (s : State) → (opened (get_one s).0 ≡ ring.zero) ⊎ (opened (get_one s).0 ≡ ring.one)
  -- reset_all, add_from_all, exchange, finalize(party): each party gives a value of its own
  pub run_input : ℕ → (ℕ → Clear) → State → Share × State
  pub opened-run_input :
      (party : ℕ) (values : ℕ → Clear) (s : State)
      → opened (run_input party values s).0 ≡ values party
