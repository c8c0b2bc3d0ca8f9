-- ===== src/Policy/Tradable.antt =====
-- src/poma/execution_policy.py: the quantities that `apply_execution_policy` leaves.
use poma.Prelude.{
  nat_eq, ℕ, zero, suc, IsOrdered, ◌+◌, true, false, Option, none, some, List, [], ◌∷◌, ◌≡◌, arith,
  All, Bool-cases, Option-cases, inl, inr, any, map, sum, ◌⊕◌, set, get_elem?, ◌==◌, Float, whole,
  ◌⊖◌, ◌≼◌, ◌≐◌,
}
use poma.Models.{
  ProposedTrade, InstrumentExecutionRule, buy_cash_required_usd, sell_cash_credit_usd,
}
use poma.Policy.Defs.{is_untradable}
use poma.Policy.Apply.{
  Rules, rule_of, rounded, adjusted, with_quantity, round_trades, demote, demotable, without,
  demote_buy_roundups_to_fit_cash, apply_execution_policy,
}

module _ {F : Type 0} ⦃f : Float F⦄ (laws : IsOrdered F) (rules : Rules F) where
  -- the quantity of the trade is positive, and not below the minimum of its instrument
  abbrev pub IsTradable : ProposedTrade F → Type 0
  IsTradable t = is_untradable t.quantity (rule_of rules t) ≡ false

  -- equal quantities can be traded alike
  untradable-eq :
      (a b : F) (rule : InstrumentExecutionRule F)
      → (a ≐ b) ≡ true
      → is_untradable a rule ≡ false
      → is_untradable b rule ≡ false
  untradable-eq a b rule same fine = ground (
    arith,
    laws.le_of_eq a b same,
    laws.le_trans a b (whole 0),
    laws.lt_of_le_of_lt a b rule.min_quantity,
  )

  adjusted-IsTradable :
      (t : ProposedTrade F)
      → is_untradable (rounded rules t) (rule_of rules t) ≡ false
      → IsTradable (adjusted rules t)
  adjusted-IsTradable t fine = elim (Bool-cases (rounded rules t ≐ t.quantity)) [
    | inl same ↦ rw same (untradable-eq (rounded rules t) t.quantity (rule_of rules t) same fine)
    | inr other ↦ rw other fine
  ]

  All-round_trades :
      (index : ℕ) (ts : List (ProposedTrade F)) → All IsTradable (round_trades rules index ts).0
  unfolding round_trades
  All-round_trades index [] = tt
  All-round_trades index (t ∷ ts) =
      elim (Bool-cases (is_untradable (rounded rules t) (rule_of rules t))) [
        | inl drops ↦ rw drops (All-round_trades index ts)
        | inr fine ↦ rw fine (adjusted-IsTradable t fine, All-round_trades (index + 1) ts)
      ]

  All-set :
      (index : ℕ) (t : ProposedTrade F) (ts : List (ProposedTrade F))
      → IsTradable t
      → All IsTradable ts
      → All IsTradable (set ts index t)
  All-set index t [] fine h = tt
  All-set zero t (u ∷ us) fine (_, h) = (fine, h)
  All-set (suc index) t (u ∷ us) fine (k, h) = (k, All-set index t us fine h)

  All-demote :
      (ds : List (F × ℕ × F)) (overshoot : F) (ts : List (ProposedTrade F))
      → All IsTradable ts
      → All IsTradable (demote rules ds overshoot ts).0
  unfolding demote
  All-demote [] overshoot ts h = h
  All-demote ((saving, index, low) ∷ ds) overshoot ts h =
      elim (Bool-cases (overshoot ≼ f.dec 1 6)) [
        | inl fits ↦ rw fits h
        | inr over ↦ elim (Option-cases (get_elem? ts index)) [
          | inl gone ↦ rw (over, gone) h
          | inr (t, found) ↦ elim (Bool-cases (is_untradable low (rule_of rules t))) [
            | inl drops ↦ rw (over, found, drops) (All-demote ds (overshoot ⊖ saving) ts h)
            | inr fine ↦
                rw (over, found, fine)
                  (All-demote ds (overshoot ⊖ saving) (set ts index (with_quantity low t))
                    (All-set index (with_quantity low t) ts fine h))
          ]
        ]
      ]

  All-without :
      (dropped : List ℕ) (index : ℕ) (ts : List (ProposedTrade F))
      → All IsTradable ts
      → All IsTradable (without dropped index ts)
  All-without dropped index [] h = tt
  All-without dropped index (t ∷ ts) (fine, h) = elim (Bool-cases (any (λ i. i == index) dropped)) [
    | inl e ↦ rw e (All-without dropped (index + 1) ts h)
    | inr e ↦ rw e (fine, All-without dropped (index + 1) ts h)
  ]

  All-fitted :
      (ts : List (ProposedTrade F)) (floors : List (ℕ × F)) (cash : F)
      → All IsTradable ts
      → All IsTradable (demote_buy_roundups_to_fit_cash ts floors rules cash).0
  unfolding demote_buy_roundups_to_fit_cash
  All-fitted ts floors cash h =
      let required = sum (map buy_cash_required_usd ts) in
      let overshoot = required ⊖ (cash ⊕ sum (map sell_cash_credit_usd ts)) in
      let ds = demotable ts floors in
      elim (Bool-cases (overshoot ≼ f.dec 1 6)) [
        | inl fits ↦ rw fits h
        | inr over ↦ rw over (
            All-without (demote rules ds overshoot ts).1 0 (demote rules ds overshoot ts).0
              (All-demote ds overshoot ts h))
      ]

  -- Where floats keep the laws of their order, whatever the cash is and also where none is given, every trade that `apply_execution_policy`
  -- leaves has a positive quantity that is not below the minimum of its instrument.
  pub apply_execution_policy-IsTradable :
      (ts : List (ProposedTrade F)) (available_cash_usd : Option F)
      → All IsTradable (apply_execution_policy ts rules available_cash_usd).0
  unfolding apply_execution_policy
  apply_execution_policy-IsTradable ts none = All-round_trades 0 ts
  apply_execution_policy-IsTradable ts (some cash) =
      let (adj, floors, warnings) = round_trades rules 0 ts in
      All-fitted adj floors cash (All-round_trades 0 ts)
