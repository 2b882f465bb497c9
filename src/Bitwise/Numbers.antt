-- ===== src/Bitwise/Numbers.antt =====
-- The numbers that lists of bits stand for: their bounds, their order, and the bits of a number.
use mathlib.Core.Bool.{or_assoc, or_comm}
use mathlib.Core.List.{reverse-cons, reverse-append}
use native.Mathlib.Nat.{
  two-pow-succ, mod-add-div, mod-lt, mul-add-mod_self_left, mod-eq_of_lt, one-le-pow,
}
use proof_of_custody.Prelude.{
  ℕ, zero, suc, ◌+◌, ◌*◌, ◌/◌, ◌%◌, ◌^◌, ◌<◌, ◌≡◌, refl, sym, ap, ap₂, ◌∙◌, Bool, true, false, ◌||◌,
  not, xor, List, [], ◌∷◌, ◌++◌, length, take, zip_with, reverse, arith, ◌==◌, ltb,
}
use proof_of_custody.Bitwise.{
  bit_ℕ, value, bits_of, any, prefix_any, suffix_or, less, majority, ripple,
}
use proof_of_custody.Bitwise.Folds.{prefix_any-append}

pub value-lt : (xs : List Bool) → value xs < 2 ^ length xs
unfolding value
value-lt [] = omega arith
value-lt (true ∷ xs) = omega (arith, two-pow-succ (length xs), value-lt xs)
value-lt (false ∷ xs) = omega (arith, two-pow-succ (length xs), value-lt xs)

pub length-bits_of : (k n : ℕ) → length (bits_of k n) ≡ k
unfolding bits_of
length-bits_of zero n = refl
length-bits_of (suc k) n = ap suc (length-bits_of k (n / 2))

half_mod : (m n : ℕ) → 0 < m → n % (m + m) ≡ n % 2 + 2 * (n / 2 % m)
half_mod m n h =
    let r = n / 2 % m in
    let d = n / 2 / m in
    let e : n ≡ (m + m) * d + (n % 2 + 2 * r) = omega (arith, mod-add-div (n / 2) m) in
    let b : n % 2 + 2 * r < m + m = omega (arith, mod-lt (n / 2) h) in
    ap (λ x. x % (m + m)) e ∙ mul-add-mod_self_left (m + m) d (n % 2 + 2 * r) ∙ mod-eq_of_lt b

bit_of_rem : (n : ℕ) → bit_ℕ (n % 2 == 1) ≡ n % 2
bit_of_rem n = ground arith

-- The k lowest bits of n stand for n modulo 2 ^ k.
pub value-bits_of : (k n : ℕ) → value (bits_of k n) ≡ n % 2 ^ k
unfolding value bits_of
value-bits_of zero n = omega arith
value-bits_of (suc k) n =
    ap₂ (λ a b. a + 2 * b) (bit_of_rem n) (value-bits_of k (n / 2))
    ∙ sym (half_mod (2 ^ k) n (one-le-pow k 2 (omega arith)))
    ∙ ap (λ m. n % m) (sym (two-pow-succ k))

-- Equally many bits stand for different numbers exactly where some bits differ.
differ-value :
    (xs ys : List Bool)
    → length xs ≡ length ys
    → any (zip_with xor xs ys) ≡ not (value xs == value ys)
unfolding any value xor
differ-value [] [] h = refl
differ-value [] (y ∷ ys) h = absurd (omega arith)
differ-value (x ∷ xs) [] h = absurd (omega arith)
differ-value (true ∷ xs) (true ∷ ys) h = ground (arith, differ-value xs ys (omega arith))
differ-value (true ∷ xs) (false ∷ ys) h = ground arith
differ-value (false ∷ xs) (true ∷ ys) h = ground arith
differ-value (false ∷ xs) (false ∷ ys) h = ground (arith, differ-value xs ys (omega arith))

-- The comparison by the highest different bit is the order of the numbers.
pub less-ltb : (xs ys : List Bool) → length xs ≡ length ys → less xs ys ≡ ltb (value xs) (value ys)
unfolding less value
less-ltb [] [] h = refl
less-ltb [] (y ∷ ys) h = absurd (omega arith)
less-ltb (x ∷ xs) [] h = absurd (omega arith)
less-ltb (x ∷ xs) (y ∷ ys) h =
    let d = differ-value xs ys (omega arith) in let l = less-ltb xs ys (omega arith) in ground arith

pub any-append : (xs ys : List Bool) → any (xs ++ ys) ≡ (any xs || any ys)
unfolding any
any-append [] ys = refl
any-append (x ∷ xs) ys = ap (◌||◌ x) (any-append xs ys) ∙ sym (or_assoc x (any xs) (any ys))

any-reverse : (xs : List Bool) → any (reverse xs) ≡ any xs
unfolding any
any-reverse [] = refl
any-reverse (x ∷ xs) =
    ap any (reverse-cons x xs)
    ∙ any-append (reverse xs) (x ∷ [])
    ∙ ap (λ b. b || (x || false)) (any-reverse xs)
    ∙ swapped (any xs) x
  where
    swapped : (a b : Bool) → (a || (b || false)) ≡ (b || a)
    swapped true true = refl
    swapped true false = refl
    swapped false true = refl
    swapped false false = refl

-- Prefix disjunctions from the other end.
pub reverse-prefix_any : (xs : List Bool) → reverse (prefix_any false (reverse xs)) ≡ suffix_or xs
unfolding suffix_or prefix_any
reverse-prefix_any [] = refl
reverse-prefix_any (x ∷ xs) =
    ap (λ l. reverse (prefix_any false l)) (reverse-cons x xs)
    ∙ ap reverse (prefix_any-append false (reverse xs) (x ∷ []))
    ∙ reverse-append (prefix_any false (reverse xs)) ((any (reverse xs) || x) ∷ [])
    ∙ ap₂ ◌∷◌ (ap (λ b. b || x) (any-reverse xs) ∙ or_comm (any xs) x) (reverse-prefix_any xs)

-- Equal bits are not below one another.
pub less_same : (xs ys : List Bool) → any (zip_with xor xs ys) ≡ false → less xs ys ≡ false
unfolding any less xor
less_same [] ys h = refl
less_same (x ∷ xs) [] h = refl
less_same (x ∷ xs) (y ∷ ys) h = ground arith

bit_sum :
    (x y c : Bool)
    → bit_ℕ (xor (xor x y) c) + 2 * bit_ℕ (majority x y c) ≡ bit_ℕ x + bit_ℕ y + bit_ℕ c
unfolding xor majority
bit_sum true true true = refl
bit_sum true true false = refl
bit_sum true false true = refl
bit_sum true false false = refl
bit_sum false true true = refl
bit_sum false true false = refl
bit_sum false false true = refl
bit_sum false false false = refl

-- The adder's bits stand for the sum.
pub value-ripple :
    (c : Bool) (xs ys : List Bool)
    → length xs ≡ length ys
    → value (ripple c xs ys) ≡ value xs + value ys + bit_ℕ c
unfolding value ripple
value-ripple true [] [] h = refl
value-ripple false [] [] h = refl
value-ripple c [] (y ∷ ys) h = absurd (omega arith)
value-ripple c (x ∷ xs) [] h = absurd (omega arith)
value-ripple c (x ∷ xs) (y ∷ ys) h =
    omega (arith, bit_sum x y c, value-ripple (majority x y c) xs ys (omega arith))

pub length-ripple :
    (c : Bool) (xs ys : List Bool)
    → length xs ≡ length ys
    → length (ripple c xs ys) ≡ suc (length xs)
unfolding ripple
length-ripple c [] ys h = refl
length-ripple c (x ∷ xs) [] h = absurd (omega arith)
length-ripple c (x ∷ xs) (y ∷ ys) h = ap suc (length-ripple (majority x y c) xs ys (omega arith))

-- Dropping high bits is a remainder.
pub value-take : (k : ℕ) (xs : List Bool) → value (take k xs) ≡ value xs % 2 ^ k
unfolding value
value-take zero xs = omega arith
value-take (suc k) [] = sym (mod-eq_of_lt (one-le-pow (suc k) 2 (omega arith)))
value-take (suc k) (x ∷ xs) =
    ap (λ v. bit_ℕ x + 2 * v) (value-take k xs)
    ∙ sym (
        ap (λ m. (bit_ℕ x + 2 * value xs) % m) (two-pow-succ k)
        ∙ half_mod (2 ^ k) (bit_ℕ x + 2 * value xs) (one-le-pow k 2 (omega arith))
        ∙ ap₂ (λ u v. u + 2 * (v % 2 ^ k)) (low_bit x (value xs)) (high_bits x (value xs)))
  where
    low_bit : (x : Bool) (v : ℕ) → (bit_ℕ x + 2 * v) % 2 ≡ bit_ℕ x
    low_bit true v = omega arith
    low_bit false v = omega arith

    high_bits : (x : Bool) (v : ℕ) → (bit_ℕ x + 2 * v) / 2 ≡ v
    high_bits true v = omega arith
    high_bits false v = omega arith

-- Bits are determined by their number and how many they are.
pub bits_of-value : (xs : List Bool) → bits_of (length xs) (value xs) ≡ xs
unfolding bits_of value
bits_of-value [] = refl
bits_of-value (true ∷ xs) =
    let e : (1 + 2 * value xs) / 2 ≡ value xs = omega arith in
    ap₂ ◌∷◌ (ground arith) (ap (bits_of (length xs)) e ∙ bits_of-value xs)
bits_of-value (false ∷ xs) =
    let e : (0 + 2 * value xs) / 2 ≡ value xs = omega arith in
    ap₂ ◌∷◌ (ground arith) (ap (bits_of (length xs)) e ∙ bits_of-value xs)
