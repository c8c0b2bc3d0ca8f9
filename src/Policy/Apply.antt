-- ===== src/Policy/Apply.antt =====
-- src/poma/execution_policy.py: `apply_execution_policy` and `_demote_buy_roundups_to_fit_cash`.
use poma.Prelude.{
  nat_eq, ℕ, ◌+◌, Bool, ◌&&◌, String, ◌<>◌, Option, none, some, List, [], ◌∷◌, ◌++◌, ◌==◌, map, any,
  set, get_elem?, ltb, Dict, Float, whole, sum, ◌⊕◌, ◌⊖◌, ◌⊗◌, ◌≺◌, ◌≼◌, ◌≐◌, if◌then◌else◌,
}
use poma.Models.{
  sell, is_buy, ProposedTrade, InstrumentExecutionRule, buy_cash_required_usd, sell_cash_credit_usd,
}
use poma.Policy.Defs.{resolve_execution_rule, rounded_execution_quantity, is_untradable}

abbrev pub Rules : Type 0 → Type 0
Rules F = Dict String (InstrumentExecutionRule F)

-- `str(b)`
abbrev bool_text : Bool → String
bool_text b = if b then "True" else "False"

module _ {F : Type 0} ⦃f : Float F⦄ where
  abbrev pub rule_of : Rules F → ProposedTrade F → InstrumentExecutionRule F
  rule_of rules t = resolve_execution_rule t.ticker rules

  abbrev pub rounded : Rules F → ProposedTrade F → F
  rounded rules t = rounded_execution_quantity t.quantity t.side (rule_of rules t)

  abbrev pub floored : Rules F → ProposedTrade F → F
  floored rules t = rounded_execution_quantity t.quantity sell (rule_of rules t)

  -- `replace(trade, quantity=quantity, notional=quantity * trade.reference_price)`
  abbrev pub with_quantity : F → ProposedTrade F → ProposedTrade F
  with_quantity quantity t = record t {
    quantity = quantity;
    notional = quantity ⊗ t.reference_price;
  }

  abbrev below_minimum : Rules F → ProposedTrade F → String
  below_minimum rules t =
      t.ticker
      <> ": quantity "
      <> f.fixed t.quantity 6
      <> " rounds below the tradable minimum for this instrument (allows_fractional="
      <> bool_text (rule_of rules t).allows_fractional
      <> "); skipping trade"

  -- the rounded trade, which is the trade itself where rounding changes nothing
  abbrev pub adjusted : Rules F → ProposedTrade F → ProposedTrade F
  adjusted rules t =
      let quantity = rounded rules t in
      if quantity ≐ t.quantity then t else with_quantity quantity t

  -- a floor is noted for a buy that was rounded up
  abbrev floor_at : Rules F → ℕ → ProposedTrade F → List (ℕ × F) → List (ℕ × F)
  floor_at rules index t floors =
      let low = floored rules t in
      if is_buy t.side && (low ≺ rounded rules t) then (index, low) ∷ floors else floors

  -- the loop over the trades, where `index` is `len(adjusted)`: the adjusted trades, the floors by
  -- index, and the warnings
  unfoldable pub round_trades :
      Rules F → ℕ → List (ProposedTrade F) → List (ProposedTrade F) × List (ℕ × F) × List String
  round_trades rules index [] = ([], [], [])
  round_trades rules index (t ∷ ts) =
      let drops = is_untradable (rounded rules t) (rule_of rules t) in
      let (rest, floors, warnings) = round_trades rules (if drops then index else index + 1) ts in
      if drops
      then (rest, floors, below_minimum rules t ∷ warnings)
      else (adjusted rules t ∷ rest, floor_at rules index t floors, warnings)

  -- `trade.limit_price or trade.reference_price`
  abbrev limit_or : Option F → F → F
  limit_or none reference = reference
  limit_or (some limit) reference = if limit ≐ whole 0 then reference else limit

  abbrev saving : List (ProposedTrade F) → ℕ → F → F
  saving trades index low = elim (get_elem? trades index) [
    | none ↦ whole 0
    | some t ↦ (t.quantity ⊖ low) ⊗ limit_or t.limit_price t.reference_price
  ]

  -- the order of the tuples `(saving, index, floored)`, whose indices differ
  abbrev is_less : F × ℕ × F → F × ℕ × F → Bool
  is_less (s, i, _) (s', i', _) = if s ≐ s' then ltb i i' else s ≺ s'

  place : F × ℕ × F → List (F × ℕ × F) → List (F × ℕ × F)
  place x [] = x ∷ []
  place x (y ∷ ys) = if is_less x y then y ∷ place x ys else x ∷ y ∷ ys

  -- `sorted(..., reverse=True)`
  unfoldable pub demotable : List (ProposedTrade F) → List (ℕ × F) → List (F × ℕ × F)
  unfolding place
  demotable trades [] = []
  demotable trades ((index, low) ∷ floors) =
      place (saving trades index low, index, low) (demotable trades floors)

  abbrev dropped_text : ProposedTrade F → String
  dropped_text t = t.ticker <> ": rounded-up buy dropped to fit available cash; skipping trade"

  abbrev demoted_text : F → ProposedTrade F → String
  demoted_text low t =
      t.ticker
      <> ": rounded-up buy demoted to "
      <> f.general low
      <> " share(s) to fit available cash"

  -- The loop over the demotable buys: the trades, the indices to drop, and the warnings. The indices
  -- are those of adjusted trades, so there is one at each.
  unfoldable pub demote :
      Rules F
      → List (F × ℕ × F)
      → F
      → List (ProposedTrade F)
      → List (ProposedTrade F) × List ℕ × List String
  demote rules [] overshoot trades = (trades, [], [])
  demote rules ((saving, index, low) ∷ ds) overshoot trades =
      if overshoot ≼ f.dec 1 6 then (trades, [], []) else elim (get_elem? trades index) [
        | none ↦ (trades, [], [])
        | some t ↦
            let drops = is_untradable low (rule_of rules t) in
            let trades' = if drops then trades else set trades index (with_quantity low t) in
            let (rest, dropped, warnings) = demote rules ds (overshoot ⊖ saving) trades' in
            if drops
            then (rest, index ∷ dropped, dropped_text t ∷ warnings)
            else (rest, dropped, demoted_text low t ∷ warnings)
      ]

  -- `[trade for index, trade in enumerate(adjusted) if index not in dropped]`
  abbrev pub without : List ℕ → ℕ → List (ProposedTrade F) → List (ProposedTrade F)
  without dropped index [] = []
  without dropped index (t ∷ ts) =
      let rest = without dropped (index + 1) ts in
      if any (λ i. i == index) dropped then rest else t ∷ rest

  unfoldable pub demote_buy_roundups_to_fit_cash :
      List (ProposedTrade F) → List (ℕ × F) → Rules F → F → List (ProposedTrade F) × List String
  demote_buy_roundups_to_fit_cash trades floors rules available_cash_usd =
      let required = sum (map buy_cash_required_usd trades) in
      let credit = sum (map sell_cash_credit_usd trades) in
      let overshoot = required ⊖ (available_cash_usd ⊕ credit) in
      if overshoot ≼ f.dec 1 6
      then (trades, [])
      else (let (kept, dropped, warnings) =
            demote rules (demotable trades floors) overshoot trades in
          (without dropped 0 kept, warnings))

  unfoldable pub apply_execution_policy :
      List (ProposedTrade F) → Rules F → Option F → List (ProposedTrade F) × List String
  apply_execution_policy trades rules available_cash_usd =
      let (adj, floors, warnings) = round_trades rules 0 trades in
      elim available_cash_usd [
        | none ↦ (adj, warnings)
        | some cash ↦
            let (fitted, more) = demote_buy_roundups_to_fit_cash adj floors rules cash in
            (fitted, warnings ++ more)
      ]
