-- ===== src/Models.antt =====
-- src/poma/models.py: the records that the parts of the program hand to one another, and their
-- properties. Amounts are floats (`F`), tickers, statuses and time stamps are texts, and broker ids
-- are natural numbers. Only the fields of `RebalancePlan` that a method of the model reads are kept.
use poma.Prelude.{
  string_eq, ℕ, Bool, true, false, String, Option, none, some, List, ◌≡◌, ◌↔◌, arith, Equality,
  Float, ◌⊕◌, ◌⊗◌, ◌≺◌, whole, abs_float, if◌then◌else◌,
}

pub data OrderSide : Type 0 where
  buy sell : OrderSide

abbrev pub is_buy : OrderSide → Bool
is_buy buy = true
is_buy sell = false

abbrev pub is_sell : OrderSide → Bool
is_sell buy = false
is_sell sell = true

abbrev same_side : OrderSide → OrderSide → Bool
same_side buy s = is_buy s
same_side sell s = is_sell s

pub same_side_iff : (a b : OrderSide) → (same_side a b ≡ true) ↔ (a ≡ b)
same_side_iff a b = ground arith

instance abbrev pub side_eq : Equality OrderSide
side_eq = record { same = same_side; same_iff = same_side_iff }

-- `OrderSide.value`
abbrev pub side_value : OrderSide → String
side_value buy = "BUY"
side_value sell = "SELL"

pub record TargetPosition (F : Type 0) : Type 0 where
  pub ticker : String
  pub target_weight : F
  pub target_notional : F

pub record CurrentPosition (F : Type 0) : Type 0 where
  pub ticker : String
  pub quantity : F
  pub market_value : F

pub record AccountSnapshot (F : Type 0) : Type 0 where
  pub cash_usd : F
  pub positions : List (CurrentPosition F)
  pub positions_market_value_usd : F
  pub net_liquidation_usd : Option F
  pub account_id : Option String
  pub warnings : List String

pub record StrategyTarget (F : Type 0) : Type 0 where
  pub strategy_name : String
  pub ticker : String
  pub sleeve_weight : F
  pub portfolio_weight : F
  pub target_notional : F

pub record StrategyTargetBook (F : Type 0) : Type 0 where
  pub strategy_name : String
  pub allocation_pct : F
  pub capital_usd : F
  pub targets : List (StrategyTarget F)
  pub warnings : List String
  pub diversified_fund_tickers : List String

pub record CombinedTargetPosition (F : Type 0) : Type 0 where
  pub ticker : String
  pub target_weight : F
  pub target_notional : F
  pub contributions : List (StrategyTarget F)

-- the price and the provenance of the quote that priced a trade
pub record ProposedTrade (F : Type 0) : Type 0 where
  pub ticker : String
  pub side : OrderSide
  pub quantity : F
  pub notional : F
  pub reference_price : F
  pub limit_price : Option F
  pub reason : String
  pub order_ref : Option String
  pub reference_price_source : String
  pub reference_price_basis : String
  pub reference_price_as_of_utc : Option String
  pub quote_age_seconds : Option F
  pub quote_spread_bps : Option F

pub record ExecutionQuote (F : Type 0) : Type 0 where
  pub ticker : String
  pub source : String
  pub selected_price_as_of_utc : Option String
  pub age_seconds : Option F
  pub bid : Option F
  pub ask : Option F
  pub last : Option F
  pub spread_bps : Option F
  pub is_delayed : Bool
  pub broker_error : Option String
  pub contract_unresolved : Bool

pub record InstrumentExecutionRule (F : Type 0) : Type 0 where
  pub ticker : String
  pub allows_fractional : Bool
  pub min_quantity : F
  pub quantity_increment : F

pub record OrderResult (F : Type 0) : Type 0 where
  pub ticker : String
  pub side : OrderSide
  pub quantity : F
  pub notional : F
  pub order_id : Option ℕ
  pub status : String
  pub filled : F
  pub average_fill_price : Option F
  pub message : Option String
  pub order_ref : Option String
  pub perm_id : Option ℕ

pub record OpenOrderSnapshot (F : Type 0) : Type 0 where
  pub order_ref : Option String
  pub order_id : Option ℕ
  pub perm_id : Option ℕ
  pub ticker : String
  pub side : OrderSide
  pub raw_status : String
  pub filled : F
  pub remaining : F
  pub avg_fill_price : Option F

pub record RebalancePlan (F : Type 0) : Type 0 where
  pub run_id : String
  pub session_date : String
  pub targets : List (TargetPosition F)
  pub trades : List (ProposedTrade F)
  pub execution_results : List (OrderResult F)
  pub warnings : List String
  pub portfolio_value_usd : F
  pub portfolio_cash_usd : F
  pub portfolio_positions_value_usd : F
  pub portfolio_net_liquidation_usd : Option F
  pub strategy_books : List (StrategyTargetBook F)
  pub combined_targets : List (CombinedTargetPosition F)
  pub total_allocated_pct : F
  pub total_allocated_usd : F
  pub cash_sleeve_usd : F

module _ {F : Type 0} ⦃f : Float F⦄ where
  -- `_resolve_account_total_value`
  unfoldable pub resolve_account_total_value : F → F → Option F → F
  resolve_account_total_value cash positions none = cash ⊕ positions
  resolve_account_total_value cash positions (some net) =
      if whole 0 ≺ cash ⊕ positions then cash ⊕ positions else net

  -- `AccountSnapshot.total_value_usd`
  abbrev pub total_value_usd : AccountSnapshot F → F
  total_value_usd s =
      resolve_account_total_value s.cash_usd s.positions_market_value_usd s.net_liquidation_usd

  -- the cash of an order at its limit, if it has a positive one, and otherwise its notional
  abbrev limit_cash : ProposedTrade F → Option F → F
  limit_cash t none = t.notional
  limit_cash t (some limit) = if whole 0 ≺ limit then abs_float t.quantity ⊗ limit else t.notional

  unfoldable pub buy_cash_required_usd : ProposedTrade F → F
  buy_cash_required_usd t = if is_buy t.side then limit_cash t t.limit_price else whole 0

  unfoldable pub sell_cash_credit_usd : ProposedTrade F → F
  sell_cash_credit_usd t = if is_sell t.side then limit_cash t t.limit_price else whole 0
