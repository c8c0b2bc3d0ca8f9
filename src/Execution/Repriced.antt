-- ===== src/Execution/Repriced.antt =====
-- src/poma/execution_manager.py: `_reprice_for_execution`, for the invariant of Invariant.
use poma.Prelude.{
  string_eq, ℕ, zero, suc, ◌+◌, true, false, String, List, [], ◌∷◌, Dict, lookup, Float, not, ◌||◌,
  All-lookup, Option-cases, inl, inr, keep,
}
use poma.Models.{ProposedTrade, ExecutionQuote, RebalancePlan}
use poma.Config.{Settings, is_ibkr}
use poma.Execution.Ledger.{Ledger, LedgerLaws}
use poma.Execution.World.{Broker, Action, ◌>>=◌, pure, ask}
use poma.Execution.Reprice.{
  Batch, is_older, first_quoting, block_status, block_reason, Quoting, tickers, take_quotes,
  quote_loop, requote, refresh_older, settle, settle_priced, settle_blocked, reprice_for_execution,
  is_empty,
}
use poma.Execution.References.{
  HasRef, AllRefs, QuotingRefs, take_quotes-QuotingRefs, requote_refs, keep-AllRefs,
}
use poma.Execution.Invariant.{bind-Triple}
use poma.Execution.Actions.{
  if-Keeps, Keeps, pure-Keeps, ask-Keeps, record_planned-Keeps, then_Keeps, block_trade-Keeps,
}

module _ {F S W : Type 0} ⦃f : Float F⦄ (l : Ledger F S) (br : Broker F W) (settings : Settings F)
    (Valid : S → Type 0) (laws : LedgerLaws l Valid) (R : String → Type 0) where
  abbrev pub Good : {A : Type 0} → (A → Type 0) → Action F S W A → Type 0
  Good Q m = Keeps l br settings Valid laws R Q m

  abbrev pub GoodBatch : Batch F → Type 0
  GoodBatch (ts, blocked) = AllRefs R ts

  abbrev Attempted : ℕ × Quoting F → Type 0
  Attempted (n, v) = QuotingRefs R v

  -- the quotes of some tickers, and then the rest
  with_quotes-Good :
      {A : Type 0} {Q : A → Type 0} (names : List String)
      {k : Dict String (ExecutionQuote F) → Action F S W A}
      → ((quotes : Dict String (ExecutionQuote F)) → Good Q (k quotes))
      → Good Q (ask (br.execution_quotes names) >>= k)
  with_quotes-Good names hk =
      then_Keeps l br settings Valid laws R
        (ask-Keeps l br settings Valid laws R (br.execution_quotes names)) hk

  quote_loop-Good :
      (left attempt : ℕ) (v : Quoting F)
      → QuotingRefs R v
      → Good Attempted (quote_loop l br settings left attempt v)
  unfolding quote_loop
  quote_loop-Good zero attempt v h = with_quotes-Good (tickers v.pending) λ quotes.
      pure-Keeps l br settings Valid laws R
        (take_quotes-QuotingRefs R l br settings attempt true quotes v h)
  quote_loop-Good (suc left) attempt v h = with_quotes-Good (tickers v.pending) λ quotes.
      let v' = take_quotes l br settings attempt false quotes v in
      let h' = take_quotes-QuotingRefs R l br settings attempt false quotes v h in
      if-Keeps l br settings Valid laws R (is_empty v'.pending)
        (λ _. pure-Keeps l br settings Valid laws R h')
        (λ _. quote_loop-Good left (attempt + 1) v' h')

  refresh_older-Good :
      (trades : List (ProposedTrade F)) (quoted : ℕ × Quoting F)
      → AllRefs R trades
      → Attempted quoted
      → Good (QuotingRefs R) (refresh_older l br settings trades quoted)
  unfolding refresh_older requote
  refresh_older-Good trades (attempt, v) h hv =
      let old = keep (λ t. is_older attempt (lookup t.ticker v.quoted_on)) trades in
      if-Keeps l br settings Valid laws R (is_empty old)
        (λ _. pure-Keeps l br settings Valid laws R hv)
        (λ _. with_quotes-Good (tickers old) λ quotes.
          pure-Keeps l br settings Valid laws R (record {
            pending_refs = hv.pending_refs;
            repriced_refs =
                requote_refs R l br settings quotes old v (keep-AllRefs R _ trades h)
                  hv.repriced_refs;
          }))

  settle_priced-Good :
      (plan : RebalancePlan F) (u : ProposedTrade F) (others : Action F S W (Batch F))
      → HasRef R u
      → Good GoodBatch others
      → Good GoodBatch (settle_priced l br settings plan u others)
  unfolding settle_priced
  settle_priced-Good plan u others hu h =
      then_Keeps l br settings Valid laws R (record_planned-Keeps l br settings Valid laws R plan u)
        λ _.
          bind-Triple l Valid R GoodBatch {k = λ b. pure (u ∷ b.0, b.1)} h
            λ b hb. pure-Keeps l br settings Valid laws R {a = (u ∷ b.0, b.1)} (hu, hb)

  settle_blocked-Good :
      (plan : RebalancePlan F) (v : Quoting F) (t : ProposedTrade F)
      (others : Action F S W (Batch F))
      → Good GoodBatch others
      → Good GoodBatch (settle_blocked l br settings plan v t others)
  unfolding settle_blocked
  settle_blocked-Good plan v t others h =
      then_Keeps l br settings Valid laws R
        (block_trade-Keeps l br settings Valid laws R plan t (block_status l br settings v t)
          (block_reason l br settings v t))
        λ r.
          bind-Triple l Valid R GoodBatch {k = λ b. pure (b.0, (t, r) ∷ b.1)} h
            λ b hb. pure-Keeps l br settings Valid laws R {a = (b.0, (t, r) ∷ b.1)} hb

  settle-Good :
      (plan : RebalancePlan F) (v : Quoting F) (ts : List (ProposedTrade F))
      → QuotingRefs R v
      → Good GoodBatch (settle l br settings plan v ts)
  unfolding settle
  settle-Good plan v [] h = pure-Keeps l br settings Valid laws R tt
  settle-Good plan v (t ∷ ts) h = elim (Option-cases (lookup t.ticker v.repriced)) [
    | inr (u, found) ↦
        rw (found, settle)
          (settle_priced-Good plan u (settle l br settings plan v ts)
            (All-lookup (HasRef R) t.ticker u v.repriced h.repriced_refs found)
            (settle-Good plan v ts h))
    | inl gone ↦
        rw (gone, settle)
          (settle_blocked-Good plan v t (settle l br settings plan v ts) (settle-Good plan v ts h))
  ]

  pub reprice_for_execution-Good :
      (plan : RebalancePlan F) (ts : List (ProposedTrade F))
      → AllRefs R ts
      → Good GoodBatch (reprice_for_execution l br settings plan ts)
  unfolding reprice_for_execution
  reprice_for_execution-Good plan ts h =
      if-Keeps l br settings Valid laws R
        (not (is_ibkr settings.execution_price_source) || is_empty ts)
        (λ _. pure-Keeps l br settings Valid laws R h)
        (λ _.
          bind-Triple l Valid R Attempted
            (quote_loop-Good 3 1 (first_quoting l br settings ts)
              (record { pending_refs = h; repriced_refs = tt }))
            λ quoted hq.
              bind-Triple l Valid R (QuotingRefs R) (refresh_older-Good ts quoted h hq)
                λ v hv. settle-Good plan v ts hv)
