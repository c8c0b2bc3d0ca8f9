-- ===== src/Execution/Buys.antt =====
-- src/poma/execution_manager.py: `_fit_buys_to_refreshed_cash` and `_trim_buys_to_cash`.
use poma.Prelude.{
  ℕ, ◌+◌, not, ◌||◌, String, ◌<>◌, Option, none, some, List, [], ◌∷◌, Float, whole, ◌⊕◌, ◌⊖◌, ◌⊗◌,
  ◌⊘◌, ◌≺◌, ◌≼◌, min_float, sum, if◌then◌else◌, map, get_elem?, set,
}
use poma.Models.{AccountSnapshot, ProposedTrade, InstrumentExecutionRule, buy_cash_required_usd}
use poma.Config.{Settings}
use poma.Policy.{execution_rules, resolve_execution_rule}
use poma.Execution.World.{Broker, Action, Reply, ok, raised}

module _ {F : Type 0} ⦃f : Float F⦄ where
  -- `MAX_BUY_TRIM_FRACTION`
  abbrev pub max_buy_trim_fraction : F
  max_buy_trim_fraction = f.dec 5 2

  abbrev pub total_required : List (ProposedTrade F) → F
  total_required buys = sum (map buy_cash_required_usd buys)

  -- the indices with their cash, largest first, equal ones in order
  insert_by_cash : F → ℕ → List (F × ℕ) → List (F × ℕ)
  insert_by_cash cash i [] = (cash, i) ∷ []
  insert_by_cash cash i ((c, j) ∷ rest) =
      if cash ≺ c then (c, j) ∷ insert_by_cash cash i rest else (cash, i) ∷ (c, j) ∷ rest

  unfoldable pub largest_first : ℕ → List (ProposedTrade F) → List (F × ℕ)
  unfolding insert_by_cash
  largest_first i [] = []
  largest_first i (t ∷ ts) = insert_by_cash (buy_cash_required_usd t) i (largest_first (i + 1) ts)

  -- the quantity to cut off one buy, up to a whole number of increments
  unfoldable pub cut_of : F → ProposedTrade F → InstrumentExecutionRule F → F
  cut_of shortfall t rule =
      let cut = min_float (shortfall ⊘ (buy_cash_required_usd t ⊘ t.quantity)) t.quantity in
      if whole 0 ≺ rule.quantity_increment
      then f.ceil (cut ⊘ rule.quantity_increment ⊖ f.dec 1 9) ⊗ rule.quantity_increment
      else cut

  -- one buy with what is left after the cut, and the shortfall after it; `none` below its minimum
  unfoldable pub trim_one : Settings F → F → ProposedTrade F → Option (ProposedTrade F × F)
  unfolding cut_of
  trim_one s shortfall t =
      let unit_cash = buy_cash_required_usd t ⊘ t.quantity in
      let rule = resolve_execution_rule t.ticker (execution_rules s) in
      let cut = cut_of shortfall t rule in
      let quantity = t.quantity ⊖ cut in
      if quantity ≼ f.dec 1 9 || quantity ≺ rule.min_quantity
      then none
      else some (
        record t { quantity = quantity; notional = quantity ⊗ t.reference_price },
        shortfall ⊖ cut ⊗ unit_cash,
      )

  -- the loop over the indices
  unfoldable pub trim_loop :
      Settings F → List (F × ℕ) → List (ProposedTrade F) → F → Option (List (ProposedTrade F) × F)
  unfolding trim_one
  trim_loop s [] trimmed shortfall = some (trimmed, shortfall)
  trim_loop s ((c, i) ∷ order) trimmed shortfall =
      if shortfall ≼ f.dec 1 6 then some (trimmed, shortfall) else elim (get_elem? trimmed i) [
        | none ↦ none
        | some t ↦ elim (trim_one s shortfall t) [
          | none ↦ none
          | some (t', left) ↦ trim_loop s order (set trimmed i t') left
        ]
      ]

  -- `_trim_buys_to_cash`; `none` is the empty list
  unfoldable pub trim_buys_to_cash :
      List (ProposedTrade F) → F → Settings F → Option (List (ProposedTrade F))
  trim_buys_to_cash buys cash s =
      elim (trim_loop s (largest_first 0 buys) buys (total_required buys ⊖ cash)) [
        | none ↦ none
        | some (trimmed, shortfall) ↦ if shortfall ≼ f.dec 1 6 then some trimmed else none
      ]

  abbrev not_covered : F → F → String
  not_covered cash required =
      "refreshed broker cash ($"
      <> f.grouped cash 2
      <> ") does not cover planned buy limit cash requirement ($"
      <> f.grouped required 2
      <> ") after execution repricing; unfilled sells are not assumed to provide buying power"

  -- the buys against the cash that the broker reports, with the reason that blocks them
  unfoldable pub fit_to_cash :
      Settings F → List (ProposedTrade F) → F → List (ProposedTrade F) × Option String
  fit_to_cash s buys cash =
      let required = total_required buys in
      if not (f.is_finite cash)
      then (buys, some "broker returned non-finite cash; block buys")
      else if required ≼ cash ⊕ f.dec 1 6
      then (buys, none)
      else if max_buy_trim_fraction ⊗ required ≺ required ⊖ cash
      then (buys, some (not_covered cash required))
      else elim (trim_buys_to_cash buys cash s) [
        | none ↦ (buys, some (not_covered cash required))
        | some trimmed ↦ (trimmed, none)
      ]

  abbrev pub fit_reply :
      Settings F
      → List (ProposedTrade F)
      → Reply (AccountSnapshot F)
      → List (ProposedTrade F) × Option String
  fit_reply s buys (ok snapshot) = fit_to_cash s buys snapshot.cash_usd
  fit_reply s buys (raised e) =
      (buys, some ("unable to refresh broker cash before submitting buys; block buys: " <> e))

  -- `_fit_buys_to_refreshed_cash`: an exception of the broker is caught
  unfoldable pub fit_buys_to_refreshed_cash :
      {S W : Type 0}
      → Broker F W
      → Settings F
      → List (ProposedTrade F)
      → Action F S W (List (ProposedTrade F) × Option String)
  fit_buys_to_refreshed_cash br s buys w =
      if total_required buys ≼ f.dec 1 9
      then (ok (buys, none), w)
      else (let (reply, o) = br.account_snapshot w.outside in
          (ok (fit_reply s buys reply), record w { outside = o }))
