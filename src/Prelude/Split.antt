-- ===== src/Prelude/Split.antt =====
-- `text.split(":")` and `":".join(parts)`, with the last element of a list.
use Prim.Native.Char.{Char, code}
use Prim.Native.String.{String, ◌++◌ as ◌<>◌}
use Prim.Native.String.append.{nil, cons}
use mathlib.Core.Bool.{Bool, false, ◌||◌}
use mathlib.Core.Option.{Option, none, some}
use mathlib.Core.List.{List, [], ◌∷◌, ◌++◌}
use mathlib.Core.Path.{◌≡◌, refl, subst}
use mathlib.Core.Logic.{inl, inr}
use native.Mathlib.Omega.{arith}
use text.Mathlib.TextEquality.{Char-path}
use poma.Prelude.Tests.{◌==◌, ==_iff, nat_eq, Bool-cases, if◌then◌else◌}

abbrev code_colon : Char
code_colon = ":"

-- put a character in front of the first part
abbrev grow : Char → List String → List String
grow c [] = (String.◌∷◌ c String.[]) ∷ []
grow c (t ∷ ts) = String.◌∷◌ c t ∷ ts

unfoldable pub split_colon : String → List String
split_colon String.[] = "" ∷ []
split_colon (String.◌∷◌ c s) =
    let rest = split_colon s in if code c == b':' then "" ∷ rest else grow c rest

unfoldable pub join_colon : List String → String
join_colon [] = ""
join_colon (t ∷ []) = t
join_colon (t ∷ u ∷ ts) = t <> (":" <> join_colon (u ∷ ts))

abbrev pub has_colon : String → Bool
has_colon String.[] = false
has_colon (String.◌∷◌ c s) = code c == b':' || has_colon s

-- the list before its last element, and that
abbrev snoc_from {ℓ} : {A : Type ℓ} → A → Option (List A × A) → Option (List A × A)
snoc_from x none = some ([], x)
snoc_from x (some (ys, y)) = some (x ∷ ys, y)

unfoldable pub unsnoc {ℓ} : {A : Type ℓ} → List A → Option (List A × A)
unsnoc [] = none
unsnoc (x ∷ xs) = snoc_from x (unsnoc xs)

pub unsnoc-append {ℓ} : {A : Type ℓ} (xs : List A) (y : A) → unsnoc (xs ++ (y ∷ [])) ≡ some (xs, y)
unfolding unsnoc
unsnoc-append [] y = refl
unsnoc-append (x ∷ xs) y = rw (unsnoc-append xs y) refl

pub split_colon-cases : (s : String) → (t : String) × (ts : List String) × (split_colon s ≡ t ∷ ts)
unfolding split_colon
split_colon-cases String.[] = ("", [], refl)
split_colon-cases (String.◌∷◌ c s) = elim (Bool-cases (code c == b':')) [
  | inl colon ↦ ("", split_colon s, ground (arith, colon))
  | inr other ↦
      (let (t, ts, eq) = split_colon-cases s in (String.◌∷◌ c t, ts, ground (arith, other, eq)))
]

split_colon-colon : (t : String) → split_colon (":" <> t) ≡ "" ∷ split_colon t
unfolding split_colon
split_colon-colon t = rw (cons _ "" t, nil t) refl

grow-append :
    (c : Char) (t : String) (ts us : List String) → grow c ((t ∷ ts) ++ us) ≡ grow c (t ∷ ts) ++ us
grow-append c t ts us = refl

pub split_colon-append :
    (s t : String) → split_colon (s <> (":" <> t)) ≡ split_colon s ++ split_colon t
unfolding split_colon
split_colon-append String.[] t = rw (nil (":" <> t), split_colon-colon t) refl
split_colon-append (String.◌∷◌ c s) t =
    (let (u, us, eq) = split_colon-cases s in
      elim (Bool-cases (code c == b':')) [
        | inl colon ↦ rw (cons c s (":" <> t)) (ground (arith, colon, split_colon-append s t))
        | inr other ↦ rw (cons c s (":" <> t)) (ground (arith, other, split_colon-append s t, eq))
      ])

pub split_colon-plain : (s : String) → has_colon s ≡ false → split_colon s ≡ s ∷ []
unfolding split_colon
split_colon-plain String.[] h = refl
split_colon-plain (String.◌∷◌ c s) h = ground (arith, h, split_colon-plain s)

-- the part that a character begins, or a colon
join-grow :
    (c : Char) (u : String) (us : List String)
    → join_colon (grow c (u ∷ us)) ≡ String.◌∷◌ c (join_colon (u ∷ us))
unfolding join_colon
join-grow c u [] = refl
join-grow c u (v ∷ us) = rw (cons c u (":" <> join_colon (v ∷ us))) refl

join-colon : (u : String) (us : List String) → join_colon ("" ∷ u ∷ us) ≡ ":" <> join_colon (u ∷ us)
unfolding join_colon
join-colon u us = nil (":" <> join_colon (u ∷ us))

pub join_colon-split_colon : (s : String) → join_colon (split_colon s) ≡ s
unfolding split_colon join_colon
join_colon-split_colon String.[] = refl
join_colon-split_colon (String.◌∷◌ c s) =
    (let (u, us, eq) = split_colon-cases s in
      let joined : join_colon (u ∷ us) ≡ s =
        subst (λ x. join_colon x ≡ s) eq (join_colon-split_colon s) in
      elim (Bool-cases (code c == b':')) [
        | inl colon ↦
            (let same : c ≡ code_colon = Char-path c code_colon ((==_iff (code c) b':').0 colon) in
              ground (arith, colon, eq, join-colon u us, joined, same, cons code_colon "" s, nil s))
        | inr other ↦ rw (other, eq, join-grow c u us, joined) refl
      ])
