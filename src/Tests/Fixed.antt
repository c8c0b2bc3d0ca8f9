-- ===== src/Tests/Fixed.antt =====
-- A float that the tests can compute with: a signed number of thousand-millionths, whose products and
-- quotients drop what is smaller. It shows that the interface and its laws can be met.
use poma.Prelude.{
  ℕ, suc, ◌+◌, ◌-◌, ◌*◌, ◌/◌, ◌^◌, Bool, true, false, ◌&&◌, ◌<>◌, arith, ltb, leb, nat_eq,
  if◌then◌else◌, Float, IsOrdered, show,
}

-- `negsuc n` is -(n + 1)
pub data ℤ : Type 0 where
  pos : ℕ → ℤ
  negsuc : ℕ → ℤ

abbrev pos_part : ℤ → ℕ
pos_part (pos n) = n
pos_part (negsuc n) = 0

abbrev neg_part : ℤ → ℕ
neg_part (pos n) = 0
neg_part (negsuc n) = suc n

-- a - b
abbrev sub_ℕ : ℕ → ℕ → ℤ
sub_ℕ a b = if leb b a then pos (a - b) else negsuc (b - a - 1)

abbrev magnitude : ℤ → ℕ
magnitude a = pos_part a + neg_part a

abbrev is_negative : ℤ → Bool
is_negative (pos n) = false
is_negative (negsuc n) = true

abbrev negate : ℤ → ℤ
negate a = sub_ℕ (neg_part a) (pos_part a)

-- the sign of a product, and a magnitude
abbrev signed : ℤ → ℤ → ℕ → ℤ
signed a b n =
    if is_negative a
    then (if is_negative b then pos n else negate (pos n))
    else (if is_negative b then negate (pos n) else pos n)

abbrev unit : ℕ
unit = 1_000_000_000

-- down to a multiple of `k`
abbrev round_down : ℕ → ℤ → ℤ
round_down k (pos n) = pos (n / k * k)
round_down k (negsuc n) = negate (pos ((n / k + 1) * k))

abbrev lt_ℤ : ℤ → ℤ → Bool
lt_ℤ a b = ltb (pos_part a + neg_part b) (pos_part b + neg_part a)

abbrev le_ℤ : ℤ → ℤ → Bool
le_ℤ a b = leb (pos_part a + neg_part b) (pos_part b + neg_part a)

instance abbrev pub fixed_float : Float ℤ
fixed_float = record {
  dec = λ m e. pos (m * unit / 10 ^ e);
  add = λ a b. sub_ℕ (pos_part a + pos_part b) (neg_part a + neg_part b);
  sub = λ a b. sub_ℕ (pos_part a + neg_part b) (neg_part a + pos_part b);
  mul = λ a b. signed a b (magnitude a * magnitude b / unit);
  div = λ a b. signed a b (magnitude a * unit / magnitude b);
  neg = negate;
  floor = round_down unit;
  ceil = λ a. negate (round_down unit (negate a));
  round_to = λ a n. let k = 10 ^ (9 - n) in round_down k (sub_ℕ (pos_part a + k / 2) (neg_part a));
  lt = lt_ℤ;
  le = le_ℤ;
  eq = λ a b. le_ℤ a b && le_ℤ b a;
  is_finite = λ a. true;
  fixed = λ a n. (if is_negative a then "-" else "") <> show (magnitude a / unit);
  grouped = λ a n. (if is_negative a then "-" else "") <> show (magnitude a / unit);
  general = λ a. (if is_negative a then "-" else "") <> show (magnitude a / unit);
}

-- dollars and cents
abbrev pub usd : ℕ → ℕ → ℤ
usd whole cents = pos (whole * unit + cents * 10_000_000)

pub fixed_float-IsOrdered : IsOrdered ℤ
fixed_float-IsOrdered = record {
  refl_of_le = λ x y h. ground arith;
  le_trans = λ x y z h k. ground arith;
  lt-eq-not-le = λ x y h k. ground arith;
  le_of_lt = λ x y h. ground arith;
  lt_irrefl = λ x. ground arith;
  lt_of_lt_of_le = λ x y z h k. ground arith;
  lt_of_le_of_lt = λ x y z h k. ground arith;
  le_of_eq = λ x y h. ground arith;
  dec_refl = λ m e. ground arith;
}
