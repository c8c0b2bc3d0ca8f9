-- ===== src/Execution/Mentions.antt =====
-- src/poma/execution_manager.py: `_note_quote_warnings` finds the warning of a ticker by a pattern,
-- `(?<![A-Za-z0-9.])TICKER(?![A-Za-z0-9])`.
use Prim.Native.Char.{code}
use poma.Prelude.{
  string_eq, nat_eq, ℕ, Bool, true, false, not, ◌&&◌, ◌||◌, String, ◌<>◌, List, [], ◌∷◌, ◌==◌, leb,
  Dict, lookup, ◌≡◌, refl, insert, has_prefix, if◌then◌else◌, is_some,
}
use poma.Models.{ProposedTrade}

abbrev is_alphanumeric : ℕ → Bool
is_alphanumeric c =
    (leb b'A' c && leb c b'Z') || (leb b'a' c && leb c b'z') || (leb b'0' c && leb c b'9')

-- the text that is left after the prefix does not go on with a letter or digit
ends_word : String → String → Bool
ends_word String.[] String.[] = true
ends_word String.[] (String.◌∷◌ d s) = not (is_alphanumeric (code d))
ends_word (String.◌∷◌ c p) String.[] = true
ends_word (String.◌∷◌ c p) (String.◌∷◌ d s) = ends_word p s

-- the ticker stands in the text as a whole symbol; `open` says that the character before allows it
mentions_from : Bool → String → String → Bool
unfolding ends_word
mentions_from open_before ticker String.[] = open_before && has_prefix ticker String.[]
mentions_from open_before ticker (String.◌∷◌ d s) =
    (open_before && (has_prefix ticker (String.◌∷◌ d s) && ends_word ticker (String.◌∷◌ d s)))
    || mentions_from (not (is_alphanumeric (code d) || code d == b'.')) ticker s

unfoldable pub mentions : String → String → Bool
unfolding mentions_from
mentions ticker text = mentions_from true ticker text

abbrev pub quote_check_failed : String
quote_check_failed = "execution quote check failed; block execution"

-- the first warning that mentions the ticker
unfoldable pub reason_for : String → List String → String
reason_for ticker [] = quote_check_failed
reason_for ticker (w ∷ ws) = if mentions ticker w then w else reason_for ticker ws

-- `_note_quote_warnings`
unfoldable pub note_quote_warnings :
    {F : Type 0}
    → List (ProposedTrade F)
    → Dict String (ProposedTrade F)
    → List String
    → String
    → Dict String String
    → Dict String String
note_quote_warnings [] accepted warnings suffix noted = noted
note_quote_warnings (t ∷ ts) accepted warnings suffix noted =
    note_quote_warnings ts accepted warnings suffix (
      if is_some (lookup t.ticker accepted)
      then noted
      else insert t.ticker (reason_for t.ticker warnings <> suffix) noted)

whole_symbol : mentions "E" "stale quote for EEM; block" ≡ false
unfolding mentions ends_word has_prefix
whole_symbol = refl
