-- ===== src/Lifecycle/Updates.antt =====
-- src/poma/order_lifecycle.py: an entry over any sequence of order results and snapshots.
use poma.Prelude.{
  true, false, String, Option, none, some, List, [], ◌∷◌, ◌≡◌, refl, ◌∙◌, is_some, or_else, Float,
  whole, IsOrdered, ◌≺◌, ◌⊖◌, max_float, Bool-cases, inl, inr,
}
use poma.Models.{OrderResult, OpenOrderSnapshot}
use poma.Lifecycle.State.{classify_lifecycle}
use poma.Lifecycle.Entry.{OrderLedgerEntry, with_order_result, with_snapshot}

-- what a broker reports of an order, with the time
pub data Update (F : Type 0) : Type 0 where
  by_result : String → OrderResult F → Update F
  by_snapshot : String → OpenOrderSnapshot F → Update F

or_else-some :
    {A : Type 0} (new old : Option A) → is_some old ≡ true → is_some (or_else new old) ≡ true
or_else-some none old h = h
or_else-some (some a) old h = refl

module _ {F : Type 0} ⦃f : Float F⦄ where
  abbrev pub update : Update F → OrderLedgerEntry F → OrderLedgerEntry F
  update (by_result now r) e = with_order_result now e r
  update (by_snapshot now s) e = with_snapshot now e s

  abbrev pub update_all : List (Update F) → OrderLedgerEntry F → OrderLedgerEntry F
  update_all [] e = e
  update_all (u ∷ us) e = update_all us (update u e)

  -- the same order, with no broker id lost
  pub record SameOrder (e e' : OrderLedgerEntry F) : Type 0 where
    pub key_eq : e'.ledger_key ≡ e.ledger_key
    pub ref_eq : e'.order_ref ≡ e.order_ref
    pub run_eq : e'.run_id ≡ e.run_id
    pub ticker_eq : e'.ticker ≡ e.ticker
    pub side_eq : e'.side ≡ e.side
    pub quantity_eq : e'.quantity ≡ e.quantity
    pub order_id_kept : is_some e.order_id ≡ true → is_some e'.order_id ≡ true
    pub perm_id_kept : is_some e.perm_id ≡ true → is_some e'.perm_id ≡ true

  -- the state is the classification of what the entry records, and nothing negative remains
  pub record IsClassified (e : OrderLedgerEntry F) : Type 0 where
    pub state_eq : e.lifecycle_state ≡ classify_lifecycle e.raw_status e.filled_qty e.remaining_qty
    pub remains : (e.remaining_qty ≺ whole 0) ≡ false

  max-not_below : IsOrdered F → (a : F) → (max_float a (whole 0) ≺ whole 0) ≡ false
  max-not_below laws a = elim (Bool-cases (a ≺ whole 0)) [
    | inl e ↦ simp (e, laws.lt_irrefl)
    | inr e ↦ simp e
  ]

  update-SameOrder : (u : Update F) (e : OrderLedgerEntry F) → SameOrder e (update u e)
  unfolding with_order_result with_snapshot
  update-SameOrder (by_result now r) e = record {
    key_eq = refl;
    ref_eq = refl;
    run_eq = refl;
    ticker_eq = refl;
    side_eq = refl;
    quantity_eq = refl;
    order_id_kept = or_else-some r.order_id e.order_id;
    perm_id_kept = λ h. h;
  }
  update-SameOrder (by_snapshot now s) e = record {
    key_eq = refl;
    ref_eq = refl;
    run_eq = refl;
    ticker_eq = refl;
    side_eq = refl;
    quantity_eq = refl;
    order_id_kept = or_else-some s.order_id e.order_id;
    perm_id_kept = or_else-some s.perm_id e.perm_id;
  }

  update-IsClassified :
      IsOrdered F → (u : Update F) (e : OrderLedgerEntry F) → IsClassified (update u e)
  unfolding with_order_result with_snapshot
  update-IsClassified laws (by_result now r) e = record {
    state_eq = refl;
    remains = max-not_below laws (e.quantity ⊖ r.filled);
  }
  update-IsClassified laws (by_snapshot now s) e = record {
    state_eq = refl;
    remains = max-not_below laws s.remaining;
  }

  SameOrder-trans : (a b c : OrderLedgerEntry F) → SameOrder a b → SameOrder b c → SameOrder a c
  SameOrder-trans a b c h k = record {
    key_eq = k.key_eq ∙ h.key_eq;
    ref_eq = k.ref_eq ∙ h.ref_eq;
    run_eq = k.run_eq ∙ h.run_eq;
    ticker_eq = k.ticker_eq ∙ h.ticker_eq;
    side_eq = k.side_eq ∙ h.side_eq;
    quantity_eq = k.quantity_eq ∙ h.quantity_eq;
    order_id_kept = λ x. k.order_id_kept (h.order_id_kept x);
    perm_id_kept = λ x. k.perm_id_kept (h.perm_id_kept x);
  }

  -- Where floats keep the laws of their order, after one or more order results and snapshots, in any order and for any statuses, the entry is of
  -- the same order with no known broker id lost, its state is the classification of the status and
  -- quantities that it records, and what remains is not negative.
  pub update_all-IsClassified :
      IsOrdered F
      → (u : Update F) (us : List (Update F)) (e : OrderLedgerEntry F)
      → SameOrder e (update_all (u ∷ us) e) × IsClassified (update_all (u ∷ us) e)
  update_all-IsClassified laws u [] e = (update-SameOrder u e, update-IsClassified laws u e)
  update_all-IsClassified laws u (v ∷ us) e =
      let (same, classified) = update_all-IsClassified laws v us (update u e) in
      (
        SameOrder-trans e (update u e) (update_all (v ∷ us) (update u e)) (update-SameOrder u e)
            same,
        classified,
      )
