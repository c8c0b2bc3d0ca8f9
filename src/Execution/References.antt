-- ===== src/Execution/References.antt =====
-- src/poma/execution_pricing.py and execution_manager.py: the order references of the trades that come
-- out of repricing and trimming.
use poma.Prelude.{
  string_eq, ℕ, zero, suc, Bool, true, String, Option, none, some, List, [], ◌∷◌, Dict, lookup,
  insert, erase, values, Float, ◌≡◌, arith, All, All-insert, All-lookup, get_elem?, set,
  Option-cases, inl, inr, keep, ◌⊖◌,
}
use poma.Execution.Ledger.{Ledger}
use poma.Policy.{execution_rules}
use poma.Models.{AccountSnapshot, ProposedTrade, ExecutionQuote, InstrumentExecutionRule}
use poma.Config.{Settings}
use poma.Pricing.{Repriced, accepted, dropped, reprice_trade, apply_execution_quotes}
use poma.Execution.Replay.{ref_of}
use poma.Execution.Reprice.{Quoting, put_trades, refresh, take_quotes}
use poma.Execution.Buys.{
  trim_one, trim_loop, trim_buys_to_cash, fit_to_cash, fit_reply, largest_first, total_required,
}
use poma.Execution.World.{Broker, Reply, ok, raised}

module _ {F : Type 0} ⦃f : Float F⦄ (R : String → Type 0) where
  abbrev pub HasRef : ProposedTrade F → Type 0
  HasRef t = R (ref_of t)

  abbrev pub AllRefs : List (ProposedTrade F) → Type 0
  AllRefs = All HasRef

  -- the trade of an answer, if there is one
  abbrev AnswerHasRef : Repriced F → Type 0
  AnswerHasRef (accepted t) = HasRef t
  AnswerHasRef (dropped w) = Unit

  reprice_trade-HasRef :
      (quotes : Dict String (ExecutionQuote F)) (s : Settings F)
      (rules : Dict String (InstrumentExecutionRule F)) (wide : Bool) (t : ProposedTrade F)
      → HasRef t
      → AnswerHasRef (reprice_trade quotes s rules wide t)
  unfolding reprice_trade
  reprice_trade-HasRef quotes s rules wide t h = ground arith

  pub apply_execution_quotes-AllRefs :
      (ts : List (ProposedTrade F)) (quotes : Dict String (ExecutionQuote F)) (s : Settings F)
      (rules : Dict String (InstrumentExecutionRule F)) (wide : Bool)
      → AllRefs ts
      → AllRefs (apply_execution_quotes ts quotes s rules wide).0
  unfolding apply_execution_quotes
  apply_execution_quotes-AllRefs [] quotes s rules wide h = tt
  apply_execution_quotes-AllRefs (t ∷ ts) quotes s rules wide (h, hs) = ground (
    arith,
    reprice_trade-HasRef quotes s rules wide t h,
    apply_execution_quotes-AllRefs ts quotes s rules wide hs,
  )

  put_trades-AllRefs :
      (ts : List (ProposedTrade F)) (d : Dict String (ProposedTrade F))
      → AllRefs ts
      → AllRefs (values d)
      → AllRefs (values (put_trades ts d))
  put_trades-AllRefs [] d h hd = hd
  put_trades-AllRefs (t ∷ ts) d (h, hs) hd =
      put_trades-AllRefs ts (insert t.ticker t d) hs (All-insert HasRef t.ticker t d h hd)

  All-erase :
      (k : String) (d : Dict String (ProposedTrade F))
      → AllRefs (values d)
      → AllRefs (values (erase k d))
  All-erase k [] h = tt
  All-erase k ((j, t) ∷ d) h = ground (arith, All-erase k d h.1)

  refresh-AllRefs :
      (ts : List (ProposedTrade F)) (fresh d : Dict String (ProposedTrade F))
      → AllRefs (values fresh)
      → AllRefs (values d)
      → AllRefs (values (refresh ts fresh d))
  refresh-AllRefs [] fresh d hf hd = hd
  refresh-AllRefs (t ∷ ts) fresh d hf hd = elim (Option-cases (lookup t.ticker fresh)) [
    | inl gone ↦ rw gone (refresh-AllRefs ts fresh (erase t.ticker d) hf (All-erase t.ticker d hd))
    | inr (u, found) ↦ rw found (
        refresh-AllRefs ts fresh (insert t.ticker u d) hf
          (All-insert HasRef t.ticker u d (All-lookup HasRef t.ticker u fresh hf found) hd))
  ]

  pub keep-AllRefs :
      (p : ProposedTrade F → Bool) (ts : List (ProposedTrade F)) → AllRefs ts → AllRefs (keep p ts)
  keep-AllRefs p [] h = tt
  keep-AllRefs p (t ∷ ts) (h, hs) = ground (arith, keep-AllRefs p ts hs)

  set-AllRefs :
      (ts : List (ProposedTrade F)) (i : ℕ) (t : ProposedTrade F)
      → AllRefs ts
      → HasRef t
      → AllRefs (set ts i t)
  set-AllRefs [] i t h ht = tt
  set-AllRefs (x ∷ ts) zero t (h, hs) ht = (ht, hs)
  set-AllRefs (x ∷ ts) (suc i) t (h, hs) ht = (h, set-AllRefs ts i t hs ht)

  get-HasRef :
      (ts : List (ProposedTrade F)) (i : ℕ) (t : ProposedTrade F)
      → AllRefs ts
      → get_elem? ts i ≡ some t
      → HasRef t
  get-HasRef [] i t h e = cc
  get-HasRef (x ∷ ts) zero t (h, hs) e = ground arith
  get-HasRef (x ∷ ts) (suc i) t (h, hs) e = get-HasRef ts i t hs e

  trim_one-HasRef :
      (s : Settings F) (shortfall : F) (t t' : ProposedTrade F) (left : F)
      → trim_one s shortfall t ≡ some (t', left)
      → HasRef t
      → HasRef t'
  unfolding trim_one
  trim_one-HasRef s shortfall t t' left e h = ground arith

  abbrev TrimmedRefs : Option (List (ProposedTrade F) × F) → Type 0
  TrimmedRefs none = Unit
  TrimmedRefs (some (ts, left)) = AllRefs ts

  trim_loop-AllRefs :
      (s : Settings F) (order : List (F × ℕ)) (ts : List (ProposedTrade F)) (shortfall : F)
      → AllRefs ts
      → TrimmedRefs (trim_loop s order ts shortfall)
  unfolding trim_loop
  trim_loop-AllRefs s [] ts shortfall h = h
  trim_loop-AllRefs s ((c, i) ∷ order) ts shortfall h = elim (Option-cases (get_elem? ts i)) [
    | inl gone ↦ ground arith
    | inr (t, found) ↦ elim (Option-cases (trim_one s shortfall t)) [
      | inl low ↦ ground arith
      | inr ((t', left), cut) ↦ ground (
        arith,
        trim_loop-AllRefs s order (set ts i t') left (
            set-AllRefs ts i t' h
              (trim_one-HasRef s shortfall t t' left cut (get-HasRef ts i t h found))),
      )
    ]
  ]

  abbrev SomeRefs : Option (List (ProposedTrade F)) → Type 0
  SomeRefs none = Unit
  SomeRefs (some ts) = AllRefs ts

  trim_buys_to_cash-AllRefs :
      (ts : List (ProposedTrade F)) (cash : F) (s : Settings F)
      → AllRefs ts
      → SomeRefs (trim_buys_to_cash ts cash s)
  unfolding trim_buys_to_cash
  trim_buys_to_cash-AllRefs ts cash s h =
      let start = total_required ts ⊖ cash in
      ground (arith, trim_loop-AllRefs s (largest_first 0 ts) ts start h)

  pub fit_to_cash-AllRefs :
      (s : Settings F) (ts : List (ProposedTrade F)) (cash : F)
      → AllRefs ts
      → AllRefs (fit_to_cash s ts cash).0
  unfolding fit_to_cash
  fit_to_cash-AllRefs s ts cash h = ground (arith, trim_buys_to_cash-AllRefs ts cash s h)

  pub fit_reply-AllRefs :
      (s : Settings F) (ts : List (ProposedTrade F)) (reply : Reply (AccountSnapshot F))
      → AllRefs ts
      → AllRefs (fit_reply s ts reply).0
  fit_reply-AllRefs s ts (ok snapshot) h = fit_to_cash-AllRefs s ts snapshot.cash_usd h
  fit_reply-AllRefs s ts (raised e) h = h

  -- the invariant of the attempts: pending and priced trades have good references
  pub record QuotingRefs (v : Quoting F) : Type 0 where
    pub pending_refs : AllRefs v.pending
    pub repriced_refs : AllRefs (values v.repriced)

module _ {F S W : Type 0} ⦃f : Float F⦄ (R : String → Type 0) (l : Ledger F S) (br : Broker F W)
    (s : Settings F) where
  pub take_quotes-QuotingRefs :
      (attempt : ℕ) (final : Bool) (quotes : Dict String (ExecutionQuote F)) (v : Quoting F)
      → QuotingRefs R v
      → QuotingRefs R (take_quotes l br s attempt final quotes v)
  unfolding take_quotes
  take_quotes-QuotingRefs attempt final quotes v h =
      let (priced, warned) = apply_execution_quotes v.pending quotes s (execution_rules s) final in
      let good =
        apply_execution_quotes-AllRefs R v.pending quotes s (execution_rules s) final
          h.pending_refs in
      record {
        pending_refs = keep-AllRefs R _ v.pending h.pending_refs;
        repriced_refs = put_trades-AllRefs R priced v.repriced good h.repriced_refs;
      }

  -- a second reading of some trades' quotes
  pub requote_refs :
      (quotes : Dict String (ExecutionQuote F)) (originals : List (ProposedTrade F)) (v : Quoting F)
      → AllRefs R originals
      → AllRefs R (values v.repriced)
      → AllRefs R (
          values (
            refresh originals
              (put_trades (apply_execution_quotes originals quotes s (execution_rules s) true).0 [])
              v.repriced))
  requote_refs quotes originals v h hv =
      let fresh = (apply_execution_quotes originals quotes s (execution_rules s) true).0 in
      refresh-AllRefs R originals (put_trades fresh []) v.repriced
        (put_trades-AllRefs R fresh []
          (apply_execution_quotes-AllRefs R originals quotes s (execution_rules s) true h) tt)
        hv
