-- ===== src/Bitwise.antt =====
-- Independent descriptions of what the bit protocols of OnlineOp.hpp compute, over lists of
-- Booleans: the number a list stands for (least significant bit first), its order, and folds.
pub mod Folds
pub mod Numbers
use proof_of_custody.Prelude.{
  ℕ, zero, suc, ◌+◌, ◌*◌, ◌/◌, ◌%◌, Bool, true, false, ◌&&◌, ◌||◌, not, xor, List, [], ◌∷◌,
  if◌then◌else◌, ◌==◌, zip_with,
}

abbrev pub bit_ℕ : Bool → ℕ
bit_ℕ true = 1
bit_ℕ false = 0

-- The number with these bits, the least significant first.
unfoldable pub value : List Bool → ℕ
value [] = 0
value (x ∷ xs) = bit_ℕ x + 2 * value xs

-- The k lowest bits of a number.
unfoldable pub bits_of : ℕ → ℕ → List Bool
bits_of zero n = []
bits_of (suc k) n = (n % 2 == 1) ∷ bits_of k (n / 2)

unfoldable pub any : List Bool → Bool
any [] = false
any (x ∷ xs) = x || any xs

-- The operation over all items, from the right.
unfoldable pub combined : (Bool → Bool → Bool) → List Bool → Bool
combined f [] = false
combined f (x ∷ []) = x
combined f (x ∷ y ∷ xs) = f x (combined f (y ∷ xs))

-- Item i is the disjunction of the items up to i, and of the first argument.
unfoldable pub prefix_any : Bool → List Bool → List Bool
prefix_any b [] = []
prefix_any b (x ∷ xs) = (b || x) ∷ prefix_any (b || x) xs

-- Item i is the disjunction of the items from i on.
unfoldable pub suffix_or : List Bool → List Bool
unfolding any
suffix_or [] = []
suffix_or (x ∷ xs) = any (x ∷ xs) ∷ suffix_or xs

-- The last true item stays, the others become false.
unfoldable pub tops : List Bool → List Bool
tops [] = []
tops (x ∷ xs) = (x && not (any xs)) ∷ tops xs

-- The first number is below the second, for equally many bits: the second has the bit at the
-- highest place where they differ.
unfoldable pub less : List Bool → List Bool → Bool
less [] ys = false
less (x ∷ xs) [] = false
less (x ∷ xs) (y ∷ ys) =
    let rest = less xs ys in if any (zip_with xor xs ys) then rest else not x && y

unfoldable pub majority : Bool → Bool → Bool → Bool
majority true y z = y || z
majority false y z = y && z

-- The bits of a sum, with a carry in, and one more bit for the carry out.
unfoldable pub ripple : Bool → List Bool → List Bool → List Bool
unfolding majority
ripple c (x ∷ xs) (y ∷ ys) = xor (xor x y) c ∷ ripple (majority x y c) xs ys
ripple c _ _ = c ∷ []
