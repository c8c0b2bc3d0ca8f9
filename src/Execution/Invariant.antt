-- ===== src/Execution/Invariant.antt =====
-- The invariant of a world through `submit_plan`: every submission so far was made when the ledger
-- already barred each of its trades, and rules for the actions that keep it.
use poma.Prelude.{
  string_eq, false, String, List, [], ◌∷◌, ==_iff, Float, whole, ◌≡◌, refl, arith, All, ◌⊎◌, inl,
  inr,
}
use poma.Models.{ProposedTrade, RebalancePlan}
use poma.Config.{Settings}
use poma.Execution.Ledger.{Ledger, LedgerLaws}
use poma.Execution.World.{Broker, World, Action, Reply, ok, raised, ◌>>=◌}
use poma.Execution.Replay.{ref_of, blocked_result, record_result, submission_unconfirmed}
use poma.Execution.Recorded.{
  Bars, unconfirmed-bars, recorded_entry, latest-record_result, record_result-Valid,
}
use poma.Execution.Submit.{record_unconfirmed}

-- what holds of the value of an action that does not raise
abbrev pub Post : {A : Type 0} → (A → Type 0) → Reply A → Type 0
Post Q (ok a) = Q a
Post Q (raised e) = Unit

-- an action that does not raise, and then the rest
pub >>=-ok :
    {F S W A B : Type 0} (m : Action F S W A) (k : A → Action F S W B) (w : World F S W) (a : A)
    → (m w).0 ≡ ok a
    → (m >>= k) w ≡ k a (m w).1
>>=-ok m k w a h = rw (h, ◌>>=◌)

module _ {F S : Type 0} ⦃f : Float F⦄ (l : Ledger F S) (R : String → Type 0) where
  -- a trade that went to the broker with the ledger `s`
  abbrev pub IsBarred : S → ProposedTrade F → Type 0
  IsBarred s t = Bars (l.latest (ref_of t) s) × R (ref_of t)

  abbrev pub AllBarred : List (List (ProposedTrade F) × S) → Type 0
  AllBarred = All (λ (ts, s). All (IsBarred s) ts)

module _ {F S W : Type 0} ⦃f : Float F⦄ (l : Ledger F S) (Valid : S → Type 0)
    (R : String → Type 0) where
  pub record Safe (w : World F S W) : Type 0 where
    pub valid : Valid w.ledger
    pub barred : AllBarred l R w.submissions

  -- The action keeps the invariant, also when it raises, and its value has the property.
  pub record Triple {A : Type 0} (Q : A → Type 0) (m : Action F S W A) : Type 0 where
    pub run : (w : World F S W) → Safe w → Safe (m w).1 × Post Q (m w).0

  pub bind-Triple :
      {A B : Type 0} (P : A → Type 0) {Q : B → Type 0} {m : Action F S W A} {k : A → Action F S W B}
      → Triple P m
      → ((a : A) → P a → Triple Q (k a))
      → Triple Q (m >>= k)
  bind-Triple {A} {B} P {Q = Q} {m = m} {k = k} hm hk = record {
    run = λ w safe. go (m w) (hm.run w safe);
  }
    where
      rest : Reply A × World F S W → Reply B × World F S W
      rest p = ((λ (v : World F S W). p) >>= k) p.1

      go : (p : Reply A × World F S W) → Safe p.1 × Post P p.0 → Safe (rest p).1 × Post Q (rest p).0
      go (ok a, w') (s, h) = (hk a h).run w' s
      go (raised e, w') (s, h) = (s, tt)

module _ {F S W : Type 0} ⦃f : Float F⦄ (l : Ledger F S) (br : Broker F W) (settings : Settings F)
    (Valid : S → Type 0) (laws : LedgerLaws l Valid)
    (zero_irrefl : f.lt (whole 0) (whole 0) ≡ false) where
  -- one trade's uncertainty bars it, and unbars nothing
  record_one-Bars :
      (t : ProposedTrade F) (plan : RebalancePlan F) (time message : String) (s : S) (k : String)
      → Valid s
      → (ref_of t ≡ k) ⊎ Bars (l.latest k s)
      → Bars (
          l.latest k
            (record_result l time plan t (blocked_result t submission_unconfirmed message) s))
  record_one-Bars t plan time message s k v h =
      let r = blocked_result t submission_unconfirmed message in
      let e = (recorded_entry l Valid laws t plan time r s v).0 in
      ground (
        arith,
        latest-record_result l Valid laws t plan time r s v k,
        unconfirmed-bars time message e t zero_irrefl,
        ==_iff (ref_of t) k,
      )

  -- the ledger after the uncertainty of some trades bars them all, and whatever was barred before
  pub record_unconfirmed-Bars :
      (plan : RebalancePlan F) (ts : List (ProposedTrade F)) (w : World F S W)
      → Valid w.ledger
      → let (r, w') = record_unconfirmed l br settings plan ts w in
        (r ≡ ok tt)
        × Valid w'.ledger
        × ((k : String) → Bars (l.latest k w.ledger) → Bars (l.latest k w'.ledger))
        × All (λ t. Bars (l.latest (ref_of t) w'.ledger)) ts
        × (w'.submissions ≡ w.submissions)
  unfolding record_unconfirmed
  record_unconfirmed-Bars plan [] w v = (refl, v, λ k h. h, tt, refl)
  record_unconfirmed-Bars plan (t ∷ ts) w v =
      let (time, o) = br.utc_now w.outside in
      let message : String = "submission started; broker outcome requires reconciliation" in
      let r = blocked_result t submission_unconfirmed message in
      let w₁ = record w { outside = o; ledger = record_result l time plan t r w.ledger } in
      let v₁ : Valid w₁.ledger = record_result-Valid l Valid laws t plan time r w.ledger v in
      let (done, v', keeps, all, same) = record_unconfirmed-Bars plan ts w₁ v₁ in
      (
        done,
        v',
        λ k h. keeps k (record_one-Bars t plan time message w.ledger k v (inr h)),
        (
          keeps (ref_of t) (record_one-Bars t plan time message w.ledger (ref_of t) v (inl refl)),
          all,
        ),
        same,
      )
