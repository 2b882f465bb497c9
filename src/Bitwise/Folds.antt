-- ===== src/Bitwise/Folds.antt =====
-- Folding a list in pairs, and prefix disjunctions of a list in two halves.
use mathlib.Core.Bool.{or_assoc}
use proof_of_custody.Prelude.{
  ℕ, zero, suc, ◌/◌, ◌%◌, ◌≡◌, refl, sym, ap, ap₂, ◌∙◌, Bool, true, false, ◌||◌, some, List, [],
  ◌∷◌, ◌++◌, map, length, get_elem?, zip_with, replicate, arith,
}
use proof_of_custody.Bitwise.{any, combined, prefix_any}

module _ {A : Type 0} where
  -- The items at even places, and at odd places, up to the last whole pair; and what is left.
  unfoldable pub evens : List A → List A
  evens (x ∷ y ∷ xs) = x ∷ evens xs
  evens _ = []

  unfoldable pub odds : List A → List A
  odds (x ∷ y ∷ xs) = y ∷ odds xs
  odds _ = []

  unfoldable pub leftover : List A → List A
  leftover (x ∷ y ∷ xs) = leftover xs
  leftover xs = xs

  pub length-evens : (xs : List A) → length (evens xs) ≡ length xs / 2
  unfolding evens
  length-evens [] = refl
  length-evens (x ∷ []) = refl
  length-evens (x ∷ y ∷ xs) = omega (arith, length-evens xs)

  pub length-odds : (xs : List A) → length (odds xs) ≡ length xs / 2
  unfolding odds
  length-odds [] = refl
  length-odds (x ∷ []) = refl
  length-odds (x ∷ y ∷ xs) = omega (arith, length-odds xs)

  pub leftover_even : (xs : List A) → length xs % 2 ≡ 0 → leftover xs ≡ []
  unfolding leftover
  leftover_even [] h = refl
  leftover_even (x ∷ []) h = absurd (omega arith)
  leftover_even (x ∷ y ∷ xs) h = leftover_even xs (omega arith)

  pub leftover_odd :
      (xs : List A) (n : ℕ)
      → length xs ≡ suc n
      → n % 2 ≡ 0
      → (x : A) × (get_elem? xs n ≡ some x) × (leftover xs ≡ x ∷ [])
  unfolding leftover
  leftover_odd [] n e h = absurd (omega arith)
  leftover_odd (x ∷ []) zero e h = (x, refl, refl)
  leftover_odd (x ∷ []) (suc n) e h = absurd (omega arith)
  leftover_odd (x ∷ y ∷ xs) zero e h = absurd (omega arith)
  leftover_odd (x ∷ y ∷ xs) (suc zero) e h = absurd (omega arith)
  leftover_odd (x ∷ y ∷ xs) (suc (suc n)) e h = leftover_odd xs n (omega arith) (omega arith)

module _ {A B : Type 0} (g : A → B) where
  pub map-evens : (xs : List A) → map g (evens xs) ≡ evens (map g xs)
  unfolding evens
  map-evens [] = refl
  map-evens (x ∷ []) = refl
  map-evens (x ∷ y ∷ xs) = ap (◌∷◌ (g x)) (map-evens xs)

  pub map-odds : (xs : List A) → map g (odds xs) ≡ odds (map g xs)
  unfolding odds
  map-odds [] = refl
  map-odds (x ∷ []) = refl
  map-odds (x ∷ y ∷ xs) = ap (◌∷◌ (g y)) (map-odds xs)

  pub map-leftover : (xs : List A) → map g (leftover xs) ≡ leftover (map g xs)
  unfolding leftover
  map-leftover [] = refl
  map-leftover (x ∷ []) = refl
  map-leftover (x ∷ y ∷ xs) = map-leftover xs

-- A fold by an associative operation may first combine neighbours.
pub combined_pairs :
    (f : Bool → Bool → Bool)
    → ((x y z : Bool) → f (f x y) z ≡ f x (f y z))
    → (xs : List Bool) → combined f (zip_with f (evens xs) (odds xs) ++ leftover xs) ≡ combined f xs
unfolding combined evens odds leftover
combined_pairs f assoc [] = refl
combined_pairs f assoc (x ∷ []) = refl
combined_pairs f assoc (x ∷ y ∷ []) = refl
combined_pairs f assoc (x ∷ y ∷ z ∷ []) = assoc x y z
combined_pairs f assoc (x ∷ y ∷ z ∷ w ∷ xs) =
    ap (f (f x y)) (combined_pairs f assoc (z ∷ w ∷ xs)) ∙ assoc x y _

pub combined_cons :
    (f : Bool → Bool → Bool) (x y : Bool) (xs : List Bool)
    → combined f (x ∷ y ∷ xs) ≡ f x (combined f (y ∷ xs))
unfolding combined
combined_cons f x y xs = refl

pub prefix_any-append :
    (b : Bool) (xs ys : List Bool)
    → prefix_any b (xs ++ ys) ≡ prefix_any b xs ++ prefix_any (b || any xs) ys
unfolding prefix_any any
prefix_any-append true [] ys = refl
prefix_any-append false [] ys = refl
prefix_any-append b (x ∷ xs) ys = ap (◌∷◌ (b || x)) (
    prefix_any-append (b || x) xs ys
    ∙ ap (λ c. prefix_any (b || x) xs ++ prefix_any c ys) (or_assoc b x (any xs)))

pub length-prefix_any : (b : Bool) (xs : List Bool) → length (prefix_any b xs) ≡ length xs
unfolding prefix_any
length-prefix_any b [] = refl
length-prefix_any b (x ∷ xs) = ap suc (length-prefix_any (b || x) xs)

-- A disjunction with `b` at every place.
pub prefix_any-replicate :
    (b c : Bool) (xs : List Bool)
    → zip_with ◌||◌ (replicate (length xs) b) (prefix_any c xs) ≡ prefix_any (b || c) xs
unfolding prefix_any
prefix_any-replicate b c [] = refl
prefix_any-replicate b c (x ∷ xs) =
    ap₂ ◌∷◌ (sym (or_assoc b c x))
      (prefix_any-replicate b (c || x) xs ∙ ap (λ d. prefix_any d xs) (sym (or_assoc b c x)))

pub prefix_or_last :
    (b : Bool) (xs : List Bool) (n : ℕ)
    → length xs ≡ suc n
    → get_elem? (prefix_any b xs) n ≡ some (b || any xs)
unfolding prefix_any any
prefix_or_last b [] n h = absurd (omega arith)
prefix_or_last true (x ∷ []) zero h = refl
prefix_or_last false (true ∷ []) zero h = refl
prefix_or_last false (false ∷ []) zero h = refl
prefix_or_last b (x ∷ y ∷ xs) zero h = absurd (omega arith)
prefix_or_last b (x ∷ []) (suc n) h = absurd (omega arith)
prefix_or_last b (x ∷ y ∷ xs) (suc n) h =
    prefix_or_last (b || x) (y ∷ xs) n (omega arith) ∙ ap some (or_assoc b x (any (y ∷ xs)))
