-- ===== src/Tests/Lifecycle.antt =====
-- An order that is acknowledged and then filled.
use poma.Prelude.{none, some, [], ◌∷◌}
use poma.Models.{OpenOrderSnapshot, buy}
use poma.Lifecycle.State.{planned}
use poma.Lifecycle.Updates.{
  Update, by_result, by_snapshot, update_all, SameOrder, IsClassified, update_all-IsClassified,
}
use poma.Tests.Fixed.{ℤ, fixed_float, fixed_float-IsOrdered, usd}
use poma.Tests.Scenario.{accept, trade}
use poma.Tests.Store.{entry}

abbrev fill : OpenOrderSnapshot ℤ
fill = record {
  order_ref = some "a";
  order_id = none;
  perm_id = some 12;
  ticker = "AAPL";
  side = buy;
  raw_status = "Filled";
  filled = usd 2 0;
  remaining = usd 0 0;
  avg_fill_price = some (usd 100 1);
}

abbrev acknowledged : Update ℤ
acknowledged = by_result "09:30" (accept (trade "AAPL" buy (usd 2 0)))

update_all-IsClassified_example :
    SameOrder
      (entry "a" planned)
      (update_all (acknowledged ∷ by_snapshot "09:31" fill ∷ []) (entry "a" planned))
    × IsClassified (update_all (acknowledged ∷ by_snapshot "09:31" fill ∷ []) (entry "a" planned))
update_all-IsClassified_example =
    update_all-IsClassified fixed_float-IsOrdered acknowledged (by_snapshot "09:31" fill ∷ [])
      (entry "a" planned)
