-- ===== src/Reconcile/RoundTrip.antt =====
-- src/poma/order_lifecycle.py: `build_order_ref`, and what src/poma/execution_manager.py reads from its
-- references.
use poma.Prelude.{
  string_eq, nat_eq, ℕ, ◌+◌, true, false, String, ◌<>◌, some, List, [], ◌∷◌, ◌++◌, ==_iff, show,
  is_digits, show-is_digits, all_digits, non_empty, split_colon, has_colon, split_colon-append,
  split_colon-cases, split_colon-plain, join_colon-split_colon, unsnoc-append, ◌≡◌, refl, arith,
  Float,
}
use Prim.Native.Char.{code}
use Prim.Native.String.append.{nil, cons}
use poma.Models.{OrderSide, buy, sell, side_value}
use poma.Lifecycle.Reference.{build_order_ref}
use poma.Lifecycle.Entry.{OrderLedgerEntry}
use poma.Reconcile.Timeouts.{replacement_ref}
use poma.Reconcile.RefParts.{is_replacement_mark, without_mark, root_ref, RefParts, parse_ref}

-- what a reference says
abbrev pub parts_of : String → ℕ → String → OrderSide → RefParts
parts_of run index ticker side = record {
  run_id = run;
  index = show index;
  ticker = ticker;
  side = side_value side;
}

all_digits-has_colon : (s : String) → all_digits s ≡ true → has_colon s ≡ false
unfolding all_digits
all_digits-has_colon String.[] h = refl
all_digits-has_colon (String.◌∷◌ c s) h =
    ground (arith, h, all_digits-has_colon s, ==_iff (code c) b':')

is_digits-has_colon : (s : String) → is_digits s ≡ true → has_colon s ≡ false
unfolding is_digits
is_digits-has_colon String.[] h = refl
is_digits-has_colon (String.◌∷◌ c s) h =
    ground (arith, h, all_digits-has_colon s, ==_iff (code c) b':')

side_value-has_colon : (side : OrderSide) → has_colon (side_value side) ≡ false
side_value-has_colon buy = refl
side_value-has_colon sell = refl

side_value-mark : (side : OrderSide) → is_replacement_mark (side_value side) ≡ false
unfolding is_replacement_mark
side_value-mark buy = refl
side_value-mark sell = refl

snoc_three :
    (xs : List String) (a b c : String)
    → xs ++ (a ∷ b ∷ c ∷ []) ≡ ((xs ++ (a ∷ [])) ++ (b ∷ [])) ++ (c ∷ [])
snoc_three [] a b c = refl
snoc_three (x ∷ xs) a b c = rw (snoc_three xs a b c) refl

-- the parts of a reference
split_colon-build_order_ref :
    (run : String) (index : ℕ) (ticker : String) (side : OrderSide)
    → has_colon ticker ≡ false
    → split_colon (build_order_ref run index ticker side)
      ≡ ((("poma" ∷ split_colon run) ++ (show index ∷ [])) ++ (ticker ∷ []))
        ++ (side_value side ∷ [])
unfolding build_order_ref
split_colon-build_order_ref run index ticker side plain =
    rw
      (
        split_colon-append "poma"
            (run <> (":" <> (show index <> (":" <> (ticker <> (":" <> side_value side)))))),
        split_colon-append run (show index <> (":" <> (ticker <> (":" <> side_value side)))),
        split_colon-append (show index) (ticker <> (":" <> side_value side)),
        split_colon-append ticker (side_value side),
        split_colon-plain "poma" refl,
        split_colon-plain (show index) (is_digits-has_colon (show index) (show-is_digits index)),
        split_colon-plain ticker plain,
        split_colon-plain (side_value side) (side_value-has_colon side),
        snoc_three ("poma" ∷ split_colon run) (show index) ticker (side_value side),
      )
      refl

root_ref-build_order_ref :
    (run : String) (index : ℕ) (ticker : String) (side : OrderSide)
    → has_colon ticker ≡ false
    → root_ref (build_order_ref run index ticker side) ≡ build_order_ref run index ticker side
unfolding root_ref
root_ref-build_order_ref run index ticker side plain =
    rw
      (
        split_colon-build_order_ref run index ticker side plain,
        unsnoc-append ((("poma" ∷ split_colon run) ++ (show index ∷ [])) ++ (ticker ∷ []))
            (side_value side),
        side_value-mark side,
      )
      refl

parse_ref-build_order_ref :
    (run : String) (index : ℕ) (ticker : String) (side : OrderSide)
    → non_empty run ≡ true
    → has_colon ticker ≡ false
    → parse_ref (build_order_ref run index ticker side) ≡ some (parts_of run index ticker side)
unfolding parse_ref
parse_ref-build_order_ref run index ticker side named plain =
    rw
      (
        split_colon-build_order_ref run index ticker side plain,
        unsnoc-append ((("poma" ∷ split_colon run) ++ (show index ∷ [])) ++ (ticker ∷ []))
            (side_value side),
        unsnoc-append (("poma" ∷ split_colon run) ++ (show index ∷ [])) ticker,
        unsnoc-append ("poma" ∷ split_colon run) (show index),
        join_colon-split_colon run,
        show-is_digits index,
        named,
      )
      refl

mark-is_replacement_mark : (n : ℕ) → is_replacement_mark ("r" <> show n) ≡ true
unfolding is_replacement_mark
mark-is_replacement_mark n = rw (cons "r" "" (show n), nil (show n)) (show-is_digits n)

split_colon-mark : (n : ℕ) → split_colon ("r" <> show n) ≡ ("r" <> show n) ∷ []
split_colon-mark n =
    split_colon-plain ("r" <> show n)
      (rw (cons "r" "" (show n), nil (show n)) (is_digits-has_colon (show n) (show-is_digits n)))

joined-without_mark :
    (ref other last : String)
    → is_replacement_mark last ≡ true
    → without_mark other (some (split_colon ref, last)) ≡ ref
joined-without_mark ref other last h =
    (let (u, us, eq) = split_colon-cases ref in ground (arith, eq, h, join_colon-split_colon ref))

colon_r : (t : String) → ":r" <> t ≡ ":" <> ("r" <> t)
colon_r t = rw (cons ":" "r" t, cons ":" "" ("r" <> t), nil ("r" <> t)) refl

root_ref-mark : (ref : String) (n : ℕ) → root_ref (ref <> (":r" <> show n)) ≡ ref
unfolding root_ref
root_ref-mark ref n =
    rw
      (
        colon_r (show n),
        split_colon-append ref ("r" <> show n),
        split_colon-mark n,
        unsnoc-append (split_colon ref) ("r" <> show n),
      )
      (joined-without_mark ref (ref <> (":" <> ("r" <> show n))) ("r" <> show n)
        (mark-is_replacement_mark n))

module _ {F : Type 0} ⦃f : Float F⦄ where
  -- The reference that build_order_ref builds for a run id that is not empty, an index, a ticker without
  -- a colon and a side is read back as these, also where it is the ledger key of an entry and the broker
  -- reports the reference of its replacement.
  pub parse_ref-root_ref :
      (e : OrderLedgerEntry F) (run : String) (index : ℕ) (ticker : String) (side : OrderSide)
      → e.ledger_key ≡ build_order_ref run index ticker side
      → non_empty run ≡ true
      → has_colon ticker ≡ false
      → (parse_ref (root_ref e.ledger_key) ≡ some (parts_of run index ticker side))
        × (parse_ref (root_ref (replacement_ref e)) ≡ some (parts_of run index ticker side))
  parse_ref-root_ref e run index ticker side key_eq named plain =
      (let parsed = parse_ref-build_order_ref run index ticker side named plain in
        (
          rw (key_eq, root_ref-build_order_ref run index ticker side plain) parsed,
          rw (root_ref-mark e.ledger_key (e.replace_count + 1), key_eq) parsed,
        ))
