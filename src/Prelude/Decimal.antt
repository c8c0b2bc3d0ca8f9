-- ===== src/Prelude/Decimal.antt =====
-- `str(n)` of a natural number, with `isdigit` of its text.
use Prim.Native.Nat.{ℕ, zero, suc, ◌/◌, ◌%◌}
use Prim.Native.Char.{code}
use Prim.Native.String.{String, ◌++◌}
use mathlib.Core.Bool.{Bool, true, false, ◌&&◌}
use mathlib.Core.Path.{◌≡◌, refl}
use native.Mathlib.Omega.{arith}
use Prim.Native.String.append.{nil, cons}
use poma.Prelude.Tests.{ltb, leb, if◌then◌else◌}

digit : ℕ → String
digit zero = "0"
digit (suc zero) = "1"
digit (suc (suc zero)) = "2"
digit (suc (suc (suc zero))) = "3"
digit (suc (suc (suc (suc zero)))) = "4"
digit (suc (suc (suc (suc (suc zero))))) = "5"
digit (suc (suc (suc (suc (suc (suc zero)))))) = "6"
digit (suc (suc (suc (suc (suc (suc (suc zero))))))) = "7"
digit (suc (suc (suc (suc (suc (suc (suc (suc zero)))))))) = "8"
digit _ = "9"

-- the digits of `n`, before what is written already; the fuel bounds their number
write_digits : ℕ → ℕ → String → String
unfolding digit
write_digits zero n rest = rest
write_digits (suc k) n rest =
    let more = write_digits k (n / 10) (digit (n % 10) ++ rest) in
    if ltb n 10 then digit n ++ rest else more

unfoldable pub show : ℕ → String
unfolding write_digits
show n = write_digits (suc n) n ""

abbrev is_digit_code : ℕ → Bool
is_digit_code c = leb b'0' c && leb c b'9'

-- every character is a digit
unfoldable pub all_digits : String → Bool
all_digits String.[] = true
all_digits (String.◌∷◌ c s) = is_digit_code (code c) && all_digits s

-- `text.isdigit()`, on ASCII
unfoldable pub is_digits : String → Bool
unfolding all_digits
is_digits String.[] = false
is_digits (String.◌∷◌ c s) = is_digit_code (code c) && all_digits s

show_120 : show 120 ≡ "120"
unfolding show
show_120 = refl

pub is_digits-all_digits : (s : String) → is_digits s ≡ true → all_digits s ≡ true
unfolding is_digits all_digits
is_digits-all_digits String.[] h = ground (arith, h)
is_digits-all_digits (String.◌∷◌ c s) h = h

digit-is_digits :
    (n : ℕ) (rest : String) → all_digits rest ≡ true → is_digits (digit n ++ rest) ≡ true
unfolding digit is_digits all_digits
digit-is_digits zero rest h = rw (cons "0" "" rest, nil rest) h
digit-is_digits (suc zero) rest h = rw (cons "1" "" rest, nil rest) h
digit-is_digits (suc (suc zero)) rest h = rw (cons "2" "" rest, nil rest) h
digit-is_digits (suc (suc (suc zero))) rest h = rw (cons "3" "" rest, nil rest) h
digit-is_digits (suc (suc (suc (suc zero)))) rest h = rw (cons "4" "" rest, nil rest) h
digit-is_digits (suc (suc (suc (suc (suc zero))))) rest h = rw (cons "5" "" rest, nil rest) h
digit-is_digits (suc (suc (suc (suc (suc (suc zero)))))) rest h = rw (cons "6" "" rest, nil rest) h
digit-is_digits (suc (suc (suc (suc (suc (suc (suc zero))))))) rest h =
    rw (cons "7" "" rest, nil rest) h
digit-is_digits (suc (suc (suc (suc (suc (suc (suc (suc zero)))))))) rest h =
    rw (cons "8" "" rest, nil rest) h
digit-is_digits (suc (suc (suc (suc (suc (suc (suc (suc (suc n))))))))) rest h =
    rw (cons "9" "" rest, nil rest) h

write_digits-is_digits :
    (k n : ℕ) (rest : String) → is_digits rest ≡ true → is_digits (write_digits k n rest) ≡ true
unfolding write_digits
write_digits-is_digits zero n rest h = h
write_digits-is_digits (suc k) n rest h = ground (
  arith,
  digit-is_digits n rest,
  digit-is_digits (n % 10) rest,
  is_digits-all_digits rest h,
  write_digits-is_digits k (n / 10) (digit (n % 10) ++ rest),
)

write_digits-first :
    (k n : ℕ) (rest : String)
    → all_digits rest ≡ true
    → is_digits (write_digits (suc k) n rest) ≡ true
unfolding write_digits
write_digits-first k n rest h = ground (
  arith,
  digit-is_digits n rest h,
  write_digits-is_digits k (n / 10) (digit (n % 10) ++ rest) (digit-is_digits (n % 10) rest h),
)

pub show-is_digits : (n : ℕ) → is_digits (show n) ≡ true
unfolding show all_digits
show-is_digits n = write_digits-first n n "" refl
