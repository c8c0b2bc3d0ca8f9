-- ===== src/Audit/Window.antt =====
-- src/poma/market_calendar.py: `is_market_open` and `should_rebalance_now`. A time is a number of
-- microseconds; the calendar of the library `pandas_market_calendars` is a parameter.
use poma.Prelude.{
  ℕ, ◌+◌, ◌*◌, Bool, true, false, not, ◌&&◌, String, Option, none, some, ltb, leb, ◌≡◌, arith,
  if◌then◌else◌,
}

-- a trading session: its date, and when it opens and closes
pub record MarketSession : Type 0 where
  pub session_date : String
  pub market_open : ℕ
  pub market_close : ℕ

pub record MarketDecision : Type 0 where
  pub should_run : Bool
  pub session_date : Option String
  pub reason : String

module _ (session_bounds : ℕ → Option MarketSession) where
  abbrev is_between : Option MarketSession → ℕ → Bool
  is_between none now = false
  is_between (some m) now = leb m.market_open now && ltb now m.market_close

  -- `is_market_open`
  unfoldable pub is_market_open : ℕ → Bool
  is_market_open now = is_between (session_bounds now) now

  abbrev pub no_run : Option String → String → MarketDecision
  no_run date reason = record { should_run = false; session_date = date; reason = reason }

  abbrev pub rebalance_time : MarketSession → ℕ → ℕ
  rebalance_time m after_open_minutes = m.market_open + after_open_minutes * 60_000_000

  abbrev decide : Option MarketSession → ℕ → Bool → ℕ → MarketDecision
  decide none after_open_minutes already_ran now = no_run none "not a trading day"
  decide (some m) after_open_minutes already_ran now =
      if already_ran
      then no_run (some m.session_date) "rebalance already ran for this session"
      else if ltb now (rebalance_time m after_open_minutes)
      then no_run (some m.session_date) "market has not been open long enough"
      else if leb m.market_close now
      then no_run (some m.session_date) "market is closed"
      else record {
        should_run = true;
        session_date = some m.session_date;
        reason = "rebalance window open";
      }

  -- `should_rebalance_now`
  unfoldable pub should_rebalance_now : ℕ → Bool → ℕ → MarketDecision
  should_rebalance_now after_open_minutes already_ran now =
      decide (session_bounds now) after_open_minutes already_ran now

  -- the market has been open for these minutes
  abbrev waited : Option MarketSession → ℕ → ℕ → Bool
  waited none after_open_minutes now = false
  waited (some m) after_open_minutes now = leb (rebalance_time m after_open_minutes) now

  abbrev pub has_waited : ℕ → ℕ → Bool
  has_waited after_open_minutes now = waited (session_bounds now) after_open_minutes now

  decided :
      (m : Option MarketSession) (after_open_minutes : ℕ) (already_ran : Bool) (now : ℕ)
      → (decide m after_open_minutes already_ran now).should_run
        ≡ (not already_ran && is_between m now && waited m after_open_minutes now)
  decided none after_open_minutes already_ran now = ground arith
  decided (some m) after_open_minutes already_ran now = ground arith

  -- A rebalance runs exactly while the market is open and has been open for the given minutes, where none
  -- ran before in the session.
  pub should_rebalance_now-window :
      (after_open_minutes : ℕ) (already_ran : Bool) (now : ℕ)
      → (should_rebalance_now after_open_minutes already_ran now).should_run
        ≡ (not already_ran && is_market_open now && has_waited after_open_minutes now)
  unfolding should_rebalance_now is_market_open
  should_rebalance_now-window after_open_minutes already_ran now =
      decided (session_bounds now) after_open_minutes already_ran now
