-- ===== src/Lifecycle/Reference.antt =====
-- src/poma/order_lifecycle.py: `build_order_ref`.
use poma.Prelude.{ℕ, String, ◌<>◌, show}
use poma.Models.{OrderSide, side_value}

abbrev pub order_ref_prefix : String
order_ref_prefix = "poma"

unfoldable pub build_order_ref : String → ℕ → String → OrderSide → String
build_order_ref run_id index ticker side =
    order_ref_prefix
    <> ":"
    <> run_id
    <> ":"
    <> show index
    <> ":"
    <> ticker
    <> ":"
    <> side_value side
