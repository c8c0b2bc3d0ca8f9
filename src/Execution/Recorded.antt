-- ===== src/Execution/Recorded.antt =====
-- src/poma/execution_manager.py: what a recorded result leaves in the ledger, and when an entry bars its
-- reference from being sent.
use poma.Prelude.{
  string_eq, false, String, Option, none, some, ◌==◌, Float, whole, if◌then◌else◌, ◌≡◌, refl, arith,
  Option-cases, inl, inr,
}
use poma.Models.{ProposedTrade, OrderResult, RebalancePlan}
use poma.Lifecycle.State.{classify_lifecycle}
use poma.Lifecycle.Entry.{OrderLedgerEntry, with_order_result}
use poma.Execution.Ledger.{Ledger, LedgerLaws}
use poma.Execution.Replay.{
  ref_of, is_retryable, blocked_result, planned_entry, record_planned, record_result,
  submission_unconfirmed,
}

module _ {F : Type 0} ⦃f : Float F⦄ where
  -- the entry of a reference bars it: it may be at the broker
  abbrev pub Bars : Option (OrderLedgerEntry F) → Type 0
  Bars none = ⊥
  Bars (some e) = is_retryable e ≡ false

  -- the uncertainty that is recorded before a submission is not retryable
  pub unconfirmed-bars :
      (now message : String) (e : OrderLedgerEntry F) (t : ProposedTrade F)
      → f.lt (whole 0) (whole 0) ≡ false
      → is_retryable (with_order_result now e (blocked_result t submission_unconfirmed message))
        ≡ false
  unfolding is_retryable with_order_result blocked_result classify_lifecycle
  unconfirmed-bars now message e t h = ground arith

  with_order_result-key :
      (now : String) (e : OrderLedgerEntry F) (r : OrderResult F)
      → (with_order_result now e r).ledger_key ≡ e.ledger_key
  unfolding with_order_result
  with_order_result-key now e r = refl

module _ {F S : Type 0} ⦃f : Float F⦄ (l : Ledger F S) (Valid : S → Type 0)
    (laws : LedgerLaws l Valid) where
  -- the entry that a result is recorded into stands under the trade's reference
  pub recorded_entry :
      (t : ProposedTrade F) (plan : RebalancePlan F) (now : String) (r : OrderResult F) (s : S)
      → Valid s
      → (e : OrderLedgerEntry F) × (record_result l now plan t r s
          ≡ l.upsert (with_order_result now e r) s)
        × (e.ledger_key ≡ ref_of t)
  unfolding record_result planned_entry
  recorded_entry t plan now r s v = elim (Option-cases (l.get (ref_of t) s)) [
    | inl absent ↦ (planned_entry plan t, ground arith, refl)
    | inr (e, found) ↦ (
      e,
      ground arith,
      ground (arith, laws.get-latest (ref_of t) s v, laws.latest_key (ref_of t) e s v),
    )
  ]

  -- a result of a trade changes the entry of its own reference, and no other
  pub latest-record_result :
      (t : ProposedTrade F) (plan : RebalancePlan F) (now : String) (r : OrderResult F) (s : S)
      → (v : Valid s) → (k : String)
      → l.latest k (record_result l now plan t r s) ≡ (
          if ref_of t == k
          then some (with_order_result now (recorded_entry t plan now r s v).0 r)
          else l.latest k s)
  latest-record_result t plan now r s v k =
      let (e, same, key) = recorded_entry t plan now r s v in
      rw same (
        ground (
          arith,
          key,
          with_order_result-key now e r,
          laws.latest-upsert (with_order_result now e r) k s v,
        ))

  pub record_result-Valid :
      (t : ProposedTrade F) (plan : RebalancePlan F) (now : String) (r : OrderResult F) (s : S)
      → Valid s
      → Valid (record_result l now plan t r s)
  unfolding record_result
  record_result-Valid t plan now r s v = laws.upsert_Valid _ s v

  pub record_planned-Valid :
      (plan : RebalancePlan F) (t : ProposedTrade F) (s : S)
      → Valid s
      → Valid (record_planned l plan t s)
  unfolding record_planned
  record_planned-Valid plan t s v = laws.upsert_Valid _ s v
