-- ===== src/Pricing/Limits.antt =====
-- src/poma/execution_pricing.py and order_lifecycle.py: limit prices and the quoted spread.
use poma.Prelude.{
  Bool, true, ◌||◌, Option, none, some, Float, whole, ◌⊕◌, ◌⊖◌, ◌⊗◌, ◌⊘◌, ◌≼◌, min_float, max_float,
  if◌then◌else◌,
}
use poma.Models.{OrderSide, is_buy}

module _ {F : Type 0} ⦃f : Float F⦄ where
  -- also `more_aggressive_limit_price`, which has the same body
  unfoldable pub build_limit_price : OrderSide → F → F → F
  build_limit_price side reference_price offset_bps =
      let offset = offset_bps ⊘ whole 10_000 in
      let multiplier = if is_buy side then whole 1 ⊕ offset else whole 1 ⊖ offset in
      f.round_to (reference_price ⊗ multiplier) 2

  unfoldable pub price_tick : F → F
  price_tick price = if whole 1 ≼ price then f.dec 1 2 else f.dec 1 4

  unfoldable pub inside_spread_limit_price : OrderSide → F → F → F → F
  unfolding price_tick
  inside_spread_limit_price side bid ask aggression =
      let midpoint = (bid ⊕ ask) ⊘ whole 2 in
      let half_spread = (ask ⊖ bid) ⊘ whole 2 in
      let tick = price_tick midpoint in
      if is_buy side
      then (let raw = midpoint ⊕ aggression ⊗ half_spread in
          let rounded = f.floor (raw ⊘ tick ⊕ f.dec 1 9) ⊗ tick in
          f.round_to (min_float (max_float rounded bid) ask) 4)
      else (let raw = midpoint ⊖ aggression ⊗ half_spread in
          let rounded = f.ceil (raw ⊘ tick ⊖ f.dec 1 9) ⊗ tick in
          f.round_to (max_float (min_float rounded ask) bid) 4)

  -- a price that is not there, or not positive
  abbrev pub is_missing : Option F → Bool
  is_missing none = true
  is_missing (some price) = price ≼ whole 0

  unfoldable pub compute_spread_bps : Option F → Option F → Option F
  compute_spread_bps none ask = none
  compute_spread_bps (some bid) none = none
  compute_spread_bps (some bid) (some ask) =
      let midpoint = (bid ⊕ ask) ⊘ whole 2 in
      if bid ≼ whole 0 || ask ≼ whole 0
      then none
      else if midpoint ≼ whole 0
      then none
      else some ((ask ⊖ bid) ⊘ midpoint ⊗ whole 10_000)
