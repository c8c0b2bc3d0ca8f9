-- ===== src/Risk/Tickers.antt =====
-- `sorted(set(a) | set(b))` on texts, for src/poma/risk.py: each text once, in order.
use poma.Prelude.{
  string_eq, Bool, false, ◌||◌, String, List, [], ◌∷◌, ◌==◌, ==_iff, ◌≡◌, refl, ◌∙◌, arith, any,
  is_before, if◌then◌else◌,
}

abbrev pub contains : List String → String → Bool
contains xs x = any (λ y. y == x) xs

-- `set(xs)`
unfoldable pub set_of : List String → List String
set_of [] = []
set_of (x ∷ xs) = let rest = set_of xs in if contains rest x then rest else x ∷ rest

place : String → List String → List String
place x [] = x ∷ []
place x (y ∷ ys) = if is_before y x then y ∷ place x ys else x ∷ y ∷ ys

unfoldable pub sorted : List String → List String
unfolding place
sorted [] = []
sorted (x ∷ xs) = place x (sorted xs)

-- no text stands twice
abbrev pub NoRepeat : List String → Type 0
NoRepeat [] = Unit
NoRepeat (x ∷ xs) = (contains xs x ≡ false) × NoRepeat xs

pub set_of-NoRepeat : (xs : List String) → NoRepeat (set_of xs)
unfolding set_of
set_of-NoRepeat [] = tt
set_of-NoRepeat (x ∷ xs) = ground (arith, set_of-NoRepeat xs)

contains-place :
    (x z : String) (ys : List String) → contains (place x ys) z ≡ (x == z || contains ys z)
unfolding place
contains-place x z [] = refl
contains-place x z (y ∷ ys) = ground (arith, contains-place x z ys)

place-NoRepeat :
    (x : String) (ys : List String) → contains ys x ≡ false → NoRepeat ys → NoRepeat (place x ys)
unfolding place
place-NoRepeat x [] h n = (refl, tt)
place-NoRepeat x (y ∷ ys) h (fresh, n) =
    ground (arith, contains-place x y ys, place-NoRepeat x ys, ==_iff x y, ==_iff y x)

pub contains-sorted : (z : String) (xs : List String) → contains (sorted xs) z ≡ contains xs z
unfolding sorted
contains-sorted z [] = refl
contains-sorted z (x ∷ xs) = ground (arith, contains-place x z (sorted xs), contains-sorted z xs)

pub sorted-NoRepeat : (xs : List String) → NoRepeat xs → NoRepeat (sorted xs)
unfolding sorted
sorted-NoRepeat [] n = tt
sorted-NoRepeat (x ∷ xs) (fresh, n) =
    place-NoRepeat x (sorted xs) (contains-sorted x xs ∙ fresh) (sorted-NoRepeat xs n)

pub sorted-set_of-NoRepeat : (xs : List String) → NoRepeat (sorted (set_of xs))
sorted-set_of-NoRepeat xs = sorted-NoRepeat (set_of xs) (set_of-NoRepeat xs)
