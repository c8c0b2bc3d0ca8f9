-- ===== src/Execution/NoResend.antt =====
-- src/poma/execution_manager.py: the submissions of `submit_plan` against the ledger at its start and at
-- the time of each call of the broker.
use poma.Prelude.{
  string_eq, true, false, String, Option, none, some, List, [], ◌∷◌, ◌++◌, ◌==◌, ==_refl, Dict,
  lookup, Float, whole, ◌≡◌, sym, subst, ◌∙◌, arith, All, any, any-append, map, Option-cases, inl,
  inr, keep, length,
}
use mathlib.Core.List.{map-append}
use poma.Models.{ProposedTrade, RebalancePlan, is_buy, is_sell}
use poma.Config.{Settings}
use poma.Lifecycle.Entry.{OrderLedgerEntry}
use poma.Execution.Ledger.{Ledger, LedgerLaws}
use poma.Execution.World.{Broker, World, pure}
use poma.Execution.Replay.{ref_of, is_retryable, idempotent_replay, tag}
use poma.Execution.Reprice.{is_empty}
use poma.Execution.Submit.{plan_phase, run_phases, submit_plan}
use poma.Execution.References.{AllRefs}
use poma.Execution.Invariant.{AllBarred, bind-Triple}
use poma.Execution.Actions.{
  Any, Keeps, if-Keeps, pure-Keeps, set_result-Keeps, alert-Keeps, record_planned-Keeps, then_Keeps,
  collect-Keeps,
}
use poma.Execution.Barrier.{submit_phase-Good, buy_phase-Good}

module _ {F : Type 0} ⦃f : Float F⦄ where
  -- no earlier attempt can have brought the reference of the entry to the broker
  abbrev pub Frees : Option (OrderLedgerEntry F) → Type 0
  Frees none = Unit
  Frees (some e) = is_retryable e ≡ true

  idempotent_replay-Frees :
      (t : ProposedTrade F) (o : Option (OrderLedgerEntry F))
      → idempotent_replay t o ≡ none
      → Frees o
  unfolding idempotent_replay
  idempotent_replay-Frees t none h = tt
  idempotent_replay-Frees t (some e) h = ground arith

  -- the dict has what the ledger has, for every trade
  abbrev Agree :
      (String → Option (OrderLedgerEntry F))
      → Dict String (OrderLedgerEntry F)
      → List (ProposedTrade F)
      → Type 0
  Agree latest d = All (λ t. lookup (ref_of t) d ≡ latest (ref_of t))

  All-wanted :
      (ts : List (ProposedTrade F)) (ks : List String)
      → ((k : String) → any (λ j. j == k) (map ref_of ts) ≡ true → any (λ j. j == k) ks ≡ true)
      → All (λ t. any (λ j. j == ref_of t) ks ≡ true) ts
  All-wanted [] ks sub = tt
  All-wanted (t ∷ ts) ks sub =
      (sub (ref_of t) (rw (==_refl (ref_of t))), All-wanted ts ks (λ k h. sub k (ground arith)))

module _ {F S W : Type 0} ⦃f : Float F⦄ (l : Ledger F S) (br : Broker F W) (settings : Settings F)
    (Valid : S → Type 0) (laws : LedgerLaws l Valid) where
  Agree-get_latest_many :
      (ts : List (ProposedTrade F)) (ks : List String) (s : S)
      → Valid s
      → All (λ t. any (λ j. j == ref_of t) ks ≡ true) ts
      → Agree (λ k. l.latest k s) (l.get_latest_many ks s) ts
  Agree-get_latest_many [] ks s v h = tt
  Agree-get_latest_many (t ∷ ts) ks s v (h, hs) =
      (laws.lookup-get_latest_many ks (ref_of t) s v ∙ rw h, Agree-get_latest_many ts ks s v hs)

  module _ (zero_irrefl : f.lt (whole 0) (whole 0) ≡ false) (s₀ : S) where
    -- what the ledger at the start allows to be sent
    abbrev R : String → Type 0
    R k = Frees (l.latest k s₀)

    plan_phase-Keeps :
        (plan : RebalancePlan F) (d : Dict String (OrderLedgerEntry F))
        (ts : List (ProposedTrade F))
        → Agree (λ k. l.latest k s₀) d ts
        → Keeps l br settings Valid laws R (AllRefs R) (plan_phase l br settings plan d ts)
    unfolding plan_phase
    plan_phase-Keeps plan d [] h = pure-Keeps l br settings Valid laws R tt
    plan_phase-Keeps plan d (t ∷ ts) (h, hs) =
        elim (Option-cases (idempotent_replay t (lookup (ref_of t) d))) [
          | inr (replay, sent) ↦
              rw (sent, plan_phase)
                (then_Keeps l br settings Valid laws R
                  (set_result-Keeps l br settings Valid laws R t.ticker replay)
                  λ _.
                    then_Keeps l br settings Valid laws R
                      (alert-Keeps l br settings Valid laws R t replay)
                      λ _. plan_phase-Keeps plan d ts hs)
          | inl fresh ↦
              let free : R (ref_of t) =
                idempotent_replay-Frees t (l.latest (ref_of t) s₀) (rw h at fresh) in
              rw (fresh, plan_phase)
                (then_Keeps l br settings Valid laws R
                  (record_planned-Keeps l br settings Valid laws R plan t)
                  λ _.
                    bind-Triple l Valid R (AllRefs R) {k = λ us. pure (t ∷ us)}
                      (plan_phase-Keeps plan d ts hs)
                      λ us hus. pure-Keeps l br settings Valid laws R {a = t ∷ us} (free, hus))
        ]

    run_phases-Keeps :
        (plan : RebalancePlan F) (d : Dict String (OrderLedgerEntry F))
        (sells buys : List (ProposedTrade F))
        → Agree (λ k. l.latest k s₀) d sells
        → Agree (λ k. l.latest k s₀) d buys
        → Keeps l br settings Valid laws R Any (run_phases l br settings plan d sells buys)
    unfolding run_phases
    run_phases-Keeps plan d sells buys hs hb =
        bind-Triple l Valid R (AllRefs R) (plan_phase-Keeps plan d sells hs) λ fresh_sells gs.
          bind-Triple l Valid R (AllRefs R) (plan_phase-Keeps plan d buys hb) λ fresh_buys gb.
            then_Keeps l br settings Valid laws R
              (submit_phase-Good l br settings Valid laws zero_irrefl R plan fresh_sells true gs)
              λ _.
                then_Keeps l br settings Valid laws R
                  (if-Keeps l br settings Valid laws R (is_empty fresh_buys)
                    (λ _. pure-Keeps l br settings Valid laws R {a = tt} tt)
                    (λ _. buy_phase-Good l br settings Valid laws zero_irrefl R plan fresh_buys gb))
                  λ _. collect-Keeps l br settings Valid laws R plan.trades

  wanted_left :
      (ts us : List (ProposedTrade F)) (k : String)
      → any (λ j. j == k) (map ref_of ts) ≡ true
      → any (λ j. j == k) (map ref_of (ts ++ us)) ≡ true
  wanted_left ts us k h = rw (map-append, any-append) (rw h)

  wanted_right :
      (ts us : List (ProposedTrade F)) (k : String)
      → any (λ j. j == k) (map ref_of us) ≡ true
      → any (λ j. j == k) (map ref_of (ts ++ us)) ≡ true
  wanted_right ts us k h = rw (map-append, any-append) (ground arith)

  -- Where the ledger keeps its laws and is valid, nothing was submitted before, and zero is not less
  -- than itself, `submit_plan` calls the broker only with trades whose references the ledger at the
  -- start frees, and only when the ledger at the time of the call bars each of them, whatever the
  -- broker answers, raises or calls back.
  pub submit_plan-AllBarred :
      (zero_irrefl : f.lt (whole 0) (whole 0) ≡ false) (plan : RebalancePlan F) (w : World F S W)
      → Valid w.ledger
      → w.submissions ≡ []
      → AllBarred l
          (λ k. Frees (l.latest k w.ledger))
          (submit_plan l br settings plan w).1.submissions
  unfolding submit_plan
  submit_plan-AllBarred zero_irrefl plan w v empty =
      let sells = keep (λ t. is_sell t.side) plan.trades in
      let buys = keep (λ t. is_buy t.side) plan.trades in
      let ts = tag l plan.run_id 0 sells w.ledger in
      let us = tag l plan.run_id (length sells) buys w.ledger in
      let ks = map ref_of (ts ++ us) in
      let run =
        run_phases-Keeps zero_irrefl w.ledger plan (l.get_latest_many ks w.ledger) ts us
          (Agree-get_latest_many ts ks w.ledger v (All-wanted ts ks (wanted_left ts us)))
          (Agree-get_latest_many us ks w.ledger v (All-wanted us ks (wanted_right ts us))) in
      (run.run (record w { results = [] })
        (record {
          valid = v;
          barred = subst (AllBarred l (R zero_irrefl w.ledger)) (sym empty) tt;
        })).0.barred
