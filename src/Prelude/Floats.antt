-- ===== src/Prelude/Floats.antt =====
-- Python's float: an interface of its operations, since the language's IEEE 754 arithmetic is not
-- code of the program. Comparisons are Boolean, as in Python; `dec m e` is the literal m / 10^e.
use Prim.Native.Nat.{ℕ}
use Prim.Native.String.{String}
use mathlib.Core.Path.{◌≡◌}
use mathlib.Core.Bool.{Bool, true, false, not}
use mathlib.Core.List.{List, [], ◌∷◌}
use poma.Prelude.Tests.{if◌then◌else◌}

pub record Float (F : Type 0) : Type 0 where
  pub dec : ℕ → ℕ → F
  pub add : F → F → F
  pub sub : F → F → F
  pub mul : F → F → F
  pub div : F → F → F
  pub neg : F → F
  pub floor : F → F
  pub ceil : F → F
  pub round_to : F → ℕ → F
  pub lt : F → F → Bool
  pub le : F → F → Bool
  pub eq : F → F → Bool
  pub is_finite : F → Bool
  -- the text of a float with so many decimal places
  pub fixed : F → ℕ → String
  -- the same with a comma between groups of three digits
  pub grouped : F → ℕ → String
  -- the text that the format `g` gives
  pub general : F → String

module _ {F : Type 0} ⦃f : Float F⦄ where
  infixl 65 ◌⊕◌ ◌⊖◌
  infixl 70 ◌⊗◌ ◌⊘◌
  infix 50 ◌≺◌ ◌≼◌ ◌≐◌
  abbrev pub ◌⊕◌ : F → F → F
  a ⊕ b = f.add a b

  abbrev pub ◌⊖◌ : F → F → F
  a ⊖ b = f.sub a b

  abbrev pub ◌⊗◌ : F → F → F
  a ⊗ b = f.mul a b

  abbrev pub ◌⊘◌ : F → F → F
  a ⊘ b = f.div a b

  abbrev pub ◌≺◌ : F → F → Bool
  a ≺ b = f.lt a b

  abbrev pub ◌≼◌ : F → F → Bool
  a ≼ b = f.le a b

  abbrev pub ◌≐◌ : F → F → Bool
  a ≐ b = f.eq a b

  -- a whole number, and a number of decimal places after the point
  abbrev pub whole : ℕ → F
  whole n = f.dec n 0

  -- Python's `max(a, b)` keeps the first unless the second is greater, and `min` likewise.
  abbrev pub max_float : F → F → F
  max_float a b = if a ≺ b then b else a

  abbrev pub min_float : F → F → F
  min_float a b = if b ≺ a then b else a

  -- `abs(a)`
  abbrev pub abs_float : F → F
  abs_float a = if a ≺ whole 0 then f.neg a else a

  -- `sum(xs)` adds from the left, starting at 0
  abbrev pub sum_from : F → List F → F
  sum_from acc [] = acc
  sum_from acc (x ∷ xs) = sum_from (acc ⊕ x) xs

  abbrev pub sum : List F → F
  sum xs = sum_from (whole 0) xs

-- What IEEE 754 says of comparisons: `a <= a` fails for NaN alone, and away from NaN the order is
-- total and `<` is the negation of the converse `<=`.
pub record IsOrdered (F : Type 0) ⦃f : Float F⦄ : Type 0 where
  pub refl_of_le : (x y : F) → f.le x y ≡ true → (f.le x x ≡ true) × (f.le y y ≡ true)
  pub le_trans : (x y z : F) → f.le x y ≡ true → f.le y z ≡ true → f.le x z ≡ true
  pub lt-eq-not-le : (x y : F) → f.le x x ≡ true → f.le y y ≡ true → f.lt x y ≡ not (f.le y x)
  pub le_of_lt : (x y : F) → f.lt x y ≡ true → f.le x y ≡ true
  pub lt_irrefl : (x : F) → f.lt x x ≡ false
  pub lt_of_lt_of_le : (x y z : F) → f.lt x y ≡ true → f.le y z ≡ true → f.lt x z ≡ true
  pub lt_of_le_of_lt : (x y z : F) → f.le x y ≡ true → f.lt y z ≡ true → f.lt x z ≡ true
  pub le_of_eq : (x y : F) → f.eq x y ≡ true → f.le x y ≡ true
  pub dec_refl : (m e : ℕ) → f.le (f.dec m e) (f.dec m e) ≡ true
