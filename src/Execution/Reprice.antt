-- ===== src/Execution/Reprice.antt =====
-- src/poma/execution_manager.py: `_reprice_for_execution`, with its retries and the pre-submit refresh.
-- The waits between attempts change nothing that the model has.
use poma.Prelude.{
  string_eq, nat_eq, ℕ, zero, suc, ◌+◌, Bool, true, false, not, ◌&&◌, ◌||◌, String, ◌<>◌, Option,
  none, some, List, [], ◌∷◌, ◌++◌, ◌==◌, ltb, Dict, lookup, insert, erase, Float, if◌then◌else◌,
  is_some, any, keep, map, show,
}
use poma.Models.{ProposedTrade, OrderResult, ExecutionQuote, RebalancePlan}
use poma.Config.{Settings, is_ibkr}
use poma.Lifecycle.State.{execution_quote_blocked_status, contract_unresolved_status}
use poma.Policy.{execution_rules}
use poma.Pricing.{apply_execution_quotes}
use poma.Execution.Ledger.{Ledger}
use poma.Execution.World.{Broker, Action, ◌>>=◌, ◌>>◌, pure, ask, modify_ledger, alert, now}
use poma.Execution.Mentions.{note_quote_warnings, quote_check_failed}
use poma.Execution.Replay.{blocked_result, record_planned, record_result}

abbrev pub execution_quote_attempts : ℕ
execution_quote_attempts = 4

-- the local variables of the loop over the attempts
pub record Quoting (F : Type 0) : Type 0 where
  pub pending : List (ProposedTrade F)
  pub repriced : Dict String (ProposedTrade F)
  pub warnings : Dict String String
  pub unresolved : List String
  pub quoted_on : Dict String ℕ

abbrev pub contains : String → List String → Bool
contains t ts = any (λ u. u == t) ts

-- quoted on an earlier attempt than the last one
abbrev pub is_older : ℕ → Option ℕ → Bool
is_older attempt none = false
is_older attempt (some n) = ltb n attempt

module _ {F : Type 0} where
  abbrev pub tickers : List (ProposedTrade F) → List String
  tickers = map (λ t. t.ticker)

  abbrev unresolved_in : Dict String (ExecutionQuote F) → List String
  unresolved_in [] = []
  unresolved_in ((t, q) ∷ qs) =
      if q.contract_unresolved then t ∷ unresolved_in qs else unresolved_in qs

  -- `{trade.ticker: trade for trade in trades}`, into a dict
  abbrev pub put_trades :
      List (ProposedTrade F) → Dict String (ProposedTrade F) → Dict String (ProposedTrade F)
  put_trades [] d = d
  put_trades (t ∷ ts) d = put_trades ts (insert t.ticker t d)

  abbrev put_attempts : ℕ → List (ProposedTrade F) → Dict String ℕ → Dict String ℕ
  put_attempts n [] d = d
  put_attempts n (t ∷ ts) d = put_attempts n ts (insert t.ticker n d)

  -- each of the trades takes its refreshed price, or loses the old one
  abbrev pub refresh :
      List (ProposedTrade F)
      → Dict String (ProposedTrade F)
      → Dict String (ProposedTrade F)
      → Dict String (ProposedTrade F)
  refresh [] fresh d = d
  refresh (t ∷ ts) fresh d =
      refresh ts fresh
        (elim (lookup t.ticker fresh) [ some u ↦ insert t.ticker u d | none ↦ erase t.ticker d ])

  abbrev pub is_empty : List (ProposedTrade F) → Bool
  is_empty [] = true
  is_empty (t ∷ ts) = false

abbrev pub Batch : Type 0 → Type 0
Batch F = List (ProposedTrade F) × List (ProposedTrade F × OrderResult F)

module _ {F S W : Type 0} ⦃f : Float F⦄ (l : Ledger F S) (br : Broker F W) (s : Settings F) where
  -- what one attempt's quotes make of the local variables
  unfoldable pub take_quotes : ℕ → Bool → Dict String (ExecutionQuote F) → Quoting F → Quoting F
  take_quotes attempt final quotes v =
      let unresolved' = v.unresolved ++ unresolved_in quotes in
      let (priced, warned) = apply_execution_quotes v.pending quotes s (execution_rules s) final in
      let repriced' = put_trades priced v.repriced in
      record {
        pending =
            keep
              (λ t.
                not (is_some (lookup t.ticker repriced')) && not (contains t.ticker unresolved'))
              v.pending;
        repriced = repriced';
        warnings = note_quote_warnings v.pending repriced' warned "" v.warnings;
        unresolved = unresolved';
        quoted_on = put_attempts attempt priced v.quoted_on;
      }

  -- the attempts from `attempt` on, with `left` more after it; the number of the last one made
  unfoldable pub quote_loop : (left attempt : ℕ) → Quoting F → Action F S W (ℕ × Quoting F)
  quote_loop zero attempt v = do
    quotes ← ask (br.execution_quotes (tickers v.pending))
    pure (attempt, take_quotes attempt true quotes v)
  quote_loop (suc left) attempt v = do
    quotes ← ask (br.execution_quotes (tickers v.pending))
    let v' = take_quotes attempt false quotes v
    let again = quote_loop left (attempt + 1) v'
    if is_empty v'.pending then pure (attempt, v') else again

  -- fresh quotes for the trades whose quotes are as old as the waits
  unfoldable pub requote : List (ProposedTrade F) → Quoting F → Action F S W (Quoting F)
  requote originals v = do
    quotes ← ask (br.execution_quotes (tickers originals))
    let (priced, warned) = apply_execution_quotes originals quotes s (execution_rules s) true
    let fresh = put_trades priced []
    pure (record v {
      repriced = refresh originals fresh v.repriced;
      warnings = note_quote_warnings originals fresh warned " on pre-submit refresh" v.warnings;
    })

  unfoldable pub refresh_older : List (ProposedTrade F) → ℕ × Quoting F → Action F S W (Quoting F)
  refresh_older trades (attempt, v) =
      let originals = keep (λ t. is_older attempt (lookup t.ticker v.quoted_on)) trades in
      if is_empty originals then pure v else requote originals v

  -- the reason that blocks a trade, with its status
  abbrev pub block_status : Quoting F → ProposedTrade F → String
  block_status v t =
      if contains t.ticker v.unresolved
      then contract_unresolved_status
      else execution_quote_blocked_status

  abbrev pub noted_reason : Option String → String
  noted_reason none = quote_check_failed
  noted_reason (some reason) = reason

  abbrev pub block_reason : Quoting F → ProposedTrade F → String
  block_reason v t =
      let reason = noted_reason (lookup t.ticker v.warnings) in
      if contains t.ticker v.unresolved
      then reason
      else reason <> " after " <> show execution_quote_attempts <> " quote attempts"

  -- a trade that could not be priced is recorded and reported
  unfoldable pub block_trade :
      RebalancePlan F → ProposedTrade F → String → String → Action F S W (OrderResult F)
  block_trade plan t status message = do
    let r = blocked_result t status message
    time ← now br
    modify_ledger (record_result l time plan t r)
    alert t r
    pure r

  -- one round of the last loop: a priced trade is recorded anew, any other one is blocked
  unfoldable pub settle_priced :
      RebalancePlan F → ProposedTrade F → Action F S W (Batch F) → Action F S W (Batch F)
  settle_priced plan u others = do
    modify_ledger (record_planned l plan u)
    b ← others
    pure (u ∷ b.0, b.1)

  unfoldable pub settle_blocked :
      RebalancePlan F
      → Quoting F
      → ProposedTrade F
      → Action F S W (Batch F)
      → Action F S W (Batch F)
  settle_blocked plan v t others = do
    r ← block_trade plan t (block_status v t) (block_reason v t)
    b ← others
    pure (b.0, (t, r) ∷ b.1)

  -- the last loop: the priced trades, and the blocked ones with their results
  unfoldable pub settle :
      RebalancePlan F → Quoting F → List (ProposedTrade F) → Action F S W (Batch F)
  settle plan v [] = pure ([], [])
  settle plan v (t ∷ ts) =
      let others = settle plan v ts in
      elim (lookup t.ticker v.repriced) [
        | some u ↦ settle_priced plan u others
        | none ↦ settle_blocked plan v t others
      ]

  abbrev pub first_quoting : List (ProposedTrade F) → Quoting F
  first_quoting trades = record {
    pending = trades;
    repriced = [];
    warnings = [];
    unresolved = [];
    quoted_on = [];
  }

  -- `_reprice_for_execution`
  unfoldable pub reprice_for_execution :
      RebalancePlan F → List (ProposedTrade F) → Action F S W (Batch F)
  reprice_for_execution plan trades =
      if not (is_ibkr s.execution_price_source) || is_empty trades then pure (trades, []) else (do
        quoted ← quote_loop 3 1 (first_quoting trades)
        v ← refresh_older trades quoted
        settle plan v trades)
