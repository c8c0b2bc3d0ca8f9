-- ===== src/Reconcile/RefParts.antt =====
-- src/poma/execution_manager.py: how `_restore_untracked_broker_orders` reads an order reference. The
-- references hold no line break, and their digits are those of ASCII.
use poma.Prelude.{
  string_eq, Bool, false, ◌&&◌, String, Option, none, some, List, [], ◌∷◌, ◌==◌, is_digits,
  non_empty, split_colon, join_colon, unsnoc, if◌then◌else◌,
}
use Prim.Native.Char.{code}
use poma.Prelude.{nat_eq}
use poma.Lifecycle.Reference.{order_ref_prefix}

-- the last part of a replacement's reference: `r[0-9]+`
unfoldable pub is_replacement_mark : String → Bool
is_replacement_mark String.[] = false
is_replacement_mark (String.◌∷◌ c s) = code c == b'r' && is_digits s

abbrev pub without_mark : String → Option (List String × String) → String
without_mark ref none = ref
without_mark ref (some ([], last)) = ref
without_mark ref (some (t ∷ ts, last)) =
    if is_replacement_mark last then join_colon (t ∷ ts) else ref

-- `re.sub(r":r[0-9]+$", "", ref)`
unfoldable pub root_ref : String → String
root_ref ref = without_mark ref (unsnoc (split_colon ref))

-- what a reference says of its order; the run id may hold colons
pub record RefParts : Type 0 where
  pub run_id : String
  pub index : String
  pub ticker : String
  pub side : String

-- the parts before the index, and then the last three
abbrev pub checked_parts : List String → String → String → String → Option RefParts
checked_parts [] index ticker side = none
checked_parts (p ∷ run) index ticker side =
    if p == order_ref_prefix && is_digits index && non_empty (join_colon run)
    then some (record { run_id = join_colon run; index = index; ticker = ticker; side = side })
    else none

abbrev pub before_index : String → String → Option (List String × String) → Option RefParts
before_index ticker side none = none
before_index ticker side (some (front, index)) = checked_parts front index ticker side

abbrev pub before_ticker : String → Option (List String × String) → Option RefParts
before_ticker side none = none
before_ticker side (some (front, ticker)) = before_index ticker side (unsnoc front)

abbrev pub before_side : Option (List String × String) → Option RefParts
before_side none = none
before_side (some (front, side)) = before_ticker side (unsnoc front)

-- `root_ref.split(":")`, with at least five parts of which the run id is not empty
unfoldable pub parse_ref : String → Option RefParts
parse_ref root = before_side (unsnoc (split_colon root))
