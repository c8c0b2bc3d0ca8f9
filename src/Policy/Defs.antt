-- ===== src/Policy/Defs.antt =====
-- src/poma/execution_policy.py: the rule table, the rounding of one quantity, and the pass over the
-- trades of a plan.
use poma.Prelude.{
  string_eq, Bool, true, false, ◌||◌, String, Option, none, some, List, [], ◌∷◌, Dict, lookup,
  insert, Float, whole, ◌⊕◌, ◌⊗◌, ◌⊘◌, ◌≺◌, ◌≼◌, or_else, if◌then◌else◌,
}
use poma.Models.{OrderSide, is_buy, InstrumentExecutionRule}
use poma.Config.{Settings}

abbrev pub default_rule_ticker : String
default_rule_ticker = "*"

module _ {F : Type 0} ⦃f : Float F⦄ where
  abbrev pub fractional_execution_rule : InstrumentExecutionRule F
  fractional_execution_rule = record {
    ticker = default_rule_ticker;
    allows_fractional = true;
    min_quantity = whole 0;
    quantity_increment = whole 0;
  }

  abbrev pub whole_share_execution_rule : InstrumentExecutionRule F
  whole_share_execution_rule = record {
    ticker = default_rule_ticker;
    allows_fractional = false;
    min_quantity = whole 1;
    quantity_increment = whole 1;
  }

  -- `rules[ticker] = replace(WHOLE_SHARE_EXECUTION_RULE, ticker=ticker)`, for each ticker
  abbrev except_tickers :
      List String
      → Dict String (InstrumentExecutionRule F)
      → Dict String (InstrumentExecutionRule F)
  except_tickers [] rules = rules
  except_tickers (t ∷ ts) rules =
      except_tickers ts (insert t (record whole_share_execution_rule { ticker = t }) rules)

  unfoldable pub build_execution_rules :
      List String → Bool → Dict String (InstrumentExecutionRule F)
  build_execution_rules tickers fractional_shares = except_tickers tickers (
      (
        default_rule_ticker,
        if fractional_shares then fractional_execution_rule else whole_share_execution_rule,
      )
      ∷ [])

  -- `Settings.execution_rules`
  abbrev pub execution_rules : Settings F → Dict String (InstrumentExecutionRule F)
  execution_rules s = build_execution_rules s.non_fractional_tickers s.fractional_shares

  abbrev rule_or :
      Option (InstrumentExecutionRule F) → InstrumentExecutionRule F → InstrumentExecutionRule F
  rule_or none r = r
  rule_or (some r) _ = r

  unfoldable pub resolve_execution_rule :
      String → Dict String (InstrumentExecutionRule F) → InstrumentExecutionRule F
  resolve_execution_rule ticker rules =
      rule_or (or_else (lookup ticker rules) (lookup default_rule_ticker rules))
        whole_share_execution_rule

  -- the floor of NaN or of an infinity, at which `math.floor` raises, is a value of the interface
  unfoldable pub rounded_execution_quantity : F → OrderSide → InstrumentExecutionRule F → F
  rounded_execution_quantity quantity side rule =
      let shares =
        if rule.allows_fractional
        then quantity
        else if is_buy side
        then f.floor (quantity ⊕ f.dec 5 1)
        else f.floor quantity in
      if whole 0 ≺ rule.quantity_increment
      then f.floor (shares ⊘ rule.quantity_increment ⊕ f.dec 1 9) ⊗ rule.quantity_increment
      else shares

  -- the quantity is below what the instrument can trade
  abbrev pub is_untradable : F → InstrumentExecutionRule F → Bool
  is_untradable quantity rule = quantity ≼ whole 0 || quantity ≺ rule.min_quantity
