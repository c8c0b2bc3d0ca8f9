-- ===== src/Prelude/Texts.antt =====
-- Texts: truth of an optional text, prefixes, and Python's `or` on texts.
use Prim.Native.Nat.{ℕ, zero, suc, Ordering}
use Prim.Native.Char.{code}
use Prim.Native.String.{String, compare, ◌++◌}
use Prim.Native.String.append.{nil, cons}
use mathlib.Core.Bool.{Bool, true, false, not, ◌&&◌, ◌||◌}
use mathlib.Core.Option.{Option, none, some}
use mathlib.Core.Path.{◌≡◌, refl}
use native.Mathlib.Omega.{arith}
use poma.Prelude.Tests.{◌==◌, string_eq, nat_eq, leb, if◌then◌else◌}

-- `bool(text)`
abbrev pub non_empty : String → Bool
non_empty String.[] = false
non_empty (String.◌∷◌ c s) = true

-- `bool(text)`, of a text or None
abbrev pub is_set : Option String → Bool
is_set none = false
is_set (some s) = non_empty s

-- `text or other`
abbrev pub or_text : Option String → String → String
or_text none other = other
or_text (some s) other = if non_empty s then s else other

-- `bool(n)`, of an int or None, and then the int equals that one
abbrev pub is_nonzero : Option ℕ → Bool
is_nonzero none = false
is_nonzero (some zero) = false
is_nonzero (some (suc n)) = true

-- `a < b`, on texts
abbrev pub is_before : String → String → Bool
is_before a b = elim (compare a b) [ Ordering.lt ↦ true | _ ↦ false ]

-- `text.startswith(prefix)`
unfoldable pub has_prefix : String → String → Bool
has_prefix String.[] s = true
has_prefix (String.◌∷◌ c p) String.[] = false
has_prefix (String.◌∷◌ c p) (String.◌∷◌ d s) = (code c == code d) && has_prefix p s

pub has_prefix_refl : (s : String) → has_prefix s s ≡ true
unfolding has_prefix
has_prefix_refl String.[] = refl
has_prefix_refl (String.◌∷◌ c s) = ground (arith, has_prefix_refl s)

-- `part in text`
unfoldable pub has_infix : String → String → Bool
has_infix p String.[] = has_prefix p String.[]
has_infix p (String.◌∷◌ c s) = has_prefix p (String.◌∷◌ c s) || has_infix p s

has_prefix-append : (p t : String) → has_prefix p (p ++ t) ≡ true
unfolding has_prefix
has_prefix-append String.[] t = refl
has_prefix-append (String.◌∷◌ c p) t = rw (cons c p t) (ground (arith, has_prefix-append p t))

prefix-infix : (p t : String) → has_prefix p t ≡ true → has_infix p t ≡ true
unfolding has_infix
prefix-infix p String.[] h = h
prefix-infix p (String.◌∷◌ c t) h = ground (arith, h)

-- a text holds what stands between two others
pub has_infix-append : (p s t : String) → has_infix p (s ++ (p ++ t)) ≡ true
unfolding has_infix
has_infix-append p String.[] t = rw (nil (p ++ t)) (prefix-infix p (p ++ t) (has_prefix-append p t))
has_infix-append p (String.◌∷◌ c s) t =
    rw (cons c s (p ++ t)) (ground (arith, has_infix-append p s t))

-- a text holds what its end holds
pub has_infix-front : (p s t : String) → has_infix p t ≡ true → has_infix p (s ++ t) ≡ true
unfolding has_infix
has_infix-front p String.[] t h = rw (nil t) h
has_infix-front p (String.◌∷◌ c s) t h = rw (cons c s t) (ground (arith, has_infix-front p s t h))

-- `c.isspace()`, of the code of a character
is_space : ℕ → Bool
is_space c =
    (leb 9 c && leb c 13)
    || (leb 28 c && leb c 32)
    || c == 133
    || c == 160
    || c == 5760
    || (leb 8192 c && leb c 8202)
    || c == 8232
    || c == 8233
    || c == 8239
    || c == 8287
    || c == 12288

-- `text.lstrip()`
strip_left : String → String
unfolding is_space
strip_left String.[] = String.[]
strip_left (String.◌∷◌ c s) =
    let rest = strip_left s in if is_space (code c) then rest else String.◌∷◌ c s

-- `text.rstrip()`
strip_right : String → String
unfolding is_space
strip_right String.[] = String.[]
strip_right (String.◌∷◌ c s) =
    let rest = strip_right s in
    if is_space (code c) && not (non_empty rest) then String.[] else String.◌∷◌ c rest

-- `text.strip()`
unfoldable pub strip : String → String
unfolding strip_left strip_right
strip s = strip_right (strip_left s)
