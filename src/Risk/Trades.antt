-- ===== src/Risk/Trades.antt =====
-- src/poma/risk.py: all trades of a call of `generate_trades`.
use poma.Prelude.{
  string_eq, Bool, false, ◌||◌, String, Option, none, some, List, [], ◌∷◌, ◌++◌, ◌≡◌, refl, arith,
  subst, ◌==◌, map, keys, All, Dict, Float, IsOrdered,
}
use poma.Models.{CurrentPosition, TargetPosition, ProposedTrade}
use poma.Risk.Tickers.{contains, NoRepeat, sorted, set_of, sorted-set_of-NoRepeat}
use poma.Risk.Planning.{
  PlanningLimits, Planned, raised, nothing, proposed, by_ticker, target_by_ticker, plan_ticker,
  plan_tickers, add_planned, generate_trades,
}
use poma.Risk.Planned.{IsPlanned, PlannedFor, plan_ticker-PlannedFor}

or_false : (a b : Bool) → (a || b) ≡ false → (a ≡ false) × (b ≡ false)
or_false a b e = ground arith

false_or : (a b : Bool) → a ≡ false → b ≡ false → (a || b) ≡ false
false_or a b e h = ground arith

module _ {F : Type 0} ⦃f : Float F⦄ where
  abbrev pub tickers_of : List (ProposedTrade F) → List String
  tickers_of ts = map (λ t. t.ticker) ts

  module _ (limits : PlanningLimits F) (positions : Dict String (CurrentPosition F))
      (prices : Dict String F) where
    -- what the passes over some tickers may give
    abbrev PlannedAll : List String → Option (List (ProposedTrade F) × List String) → Type 0
    PlannedAll tickers none = Unit
    PlannedAll tickers (some (ts, ws)) =
        All (IsPlanned limits positions prices) ts
        × NoRepeat (tickers_of ts)
        × ((z : String) → contains tickers z ≡ false → contains (tickers_of ts) z ≡ false)

    add_planned-PlannedAll :
        (t : String) (tickers : List String) (p : Planned F)
        (rest : Option (List (ProposedTrade F) × List String))
        → contains tickers t ≡ false
        → PlannedFor limits positions prices t p
        → PlannedAll tickers rest
        → PlannedAll (t ∷ tickers) (add_planned p rest)
    add_planned-PlannedAll t tickers p none fresh ok h = tt
    add_planned-PlannedAll t tickers raised (some r) fresh ok h = tt
    add_planned-PlannedAll t tickers (nothing ws) (some (ts, rest)) fresh ok
          (planned, once, outside) =
        (planned, once, λ z gone. outside z (or_false (t == z) (contains tickers z) gone).1)
    add_planned-PlannedAll t tickers (proposed ws x) (some (ts, rest)) fresh (same, ok)
          (planned, once, outside) =
        (
          (ok, planned),
          (rw same (outside t fresh), once),
          λ z gone.
              let (other, absent) = or_false (t == z) (contains tickers z) gone in
              rw same (false_or (t == z) (contains (tickers_of ts) z) other (outside z absent)),
        )

    plan_tickers-PlannedAll :
        (step : String → Planned F)
        → ((t : String) → PlannedFor limits positions prices t (step t))
        → (tickers : List String) → NoRepeat tickers
        → PlannedAll tickers (plan_tickers step tickers)
    plan_tickers-PlannedAll step each [] n = (tt, tt, λ z gone. refl)
    plan_tickers-PlannedAll step each (t ∷ ts) (fresh, n) =
        add_planned-PlannedAll t ts (step t) (plan_tickers step ts) fresh (each t)
          (plan_tickers-PlannedAll step each ts n)

  -- Where floats keep the laws of their order, every trade that `generate_trades` returns is at least the minimum notional, has a positive
  -- quantity, sells no more than the position of its ticker holds, if there is one, is bought only at a valid latest price of its
  -- ticker, and has the limit that belongs to its price; and no ticker has two trades.
  pub generate_trades-IsPlanned :
      (limits : PlanningLimits F) (targets : List (TargetPosition F))
      (current_positions : List (CurrentPosition F)) (latest_prices : Dict String F)
      (ts : List (ProposedTrade F)) (ws : List String)
      → IsOrdered F
      → generate_trades limits targets current_positions latest_prices ≡ some (ts, ws)
      → All (IsPlanned limits (by_ticker current_positions) latest_prices) ts
        × NoRepeat (tickers_of ts)
  unfolding generate_trades
  generate_trades-IsPlanned limits targets current_positions latest_prices ts ws laws e =
      let positions = by_ticker current_positions in
      let wanted = target_by_ticker targets in
      let tickers = sorted (set_of (keys positions ++ keys wanted)) in
      let all = subst (PlannedAll limits positions latest_prices tickers) e (
        plan_tickers-PlannedAll limits positions latest_prices
          (plan_ticker limits positions wanted latest_prices)
          (λ t. plan_ticker-PlannedFor laws limits positions latest_prices t wanted) tickers
          (sorted-set_of-NoRepeat (keys positions ++ keys wanted))) in
      (all.0, all.1)
