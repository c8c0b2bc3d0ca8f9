-- ===== src/Audit/Holdings.antt =====
-- src/poma/rebalance_quality.py: the values that `assess_rebalance` compares, by the positions and targets
-- themselves.
use poma.Prelude.{
  string_eq, Bool, false, ◌||◌, String, List, [], ◌∷◌, ◌++◌, ◌==◌, ==_iff, ==_refl, map, keep, any,
  any-append, Dict, lookup, insert, lookup-insert, keys, values, Float, whole, sum, sum_from, ◌⊕◌,
  ◌⊖◌, ◌⊗◌, abs_float, ◌≡◌, refl, arith, if◌then◌else◌, Bool-cases, inl, inr,
}
use poma.Models.{TargetPosition, CurrentPosition}
use poma.Risk.Tickers.{contains, NoRepeat, set_of}
use poma.Audit.Quality.{value_or_zero, target_values, actual_values, drifts}

contains-set_of : (z : String) (xs : List String) → contains (set_of xs) z ≡ contains xs z
unfolding set_of
contains-set_of z [] = refl
contains-set_of z (x ∷ xs) = ground (arith, contains-set_of z xs, contains-set_of x xs, ==_iff x z)

map-same :
    {A : Type 0} (g h : String → A)
    → ((t : String) → g t ≡ h t)
    → (ts : List String) → map g ts ≡ map h ts
map-same g h same [] = refl
map-same g h same (t ∷ ts) = rw (same t, map-same g h same ts) refl

module _ {V : Type 0} where
  contains-insert :
      (k t : String) (v : V) (d : Dict String V)
      → contains (keys (insert k v d)) t ≡ (k == t || contains (keys d) t)
  contains-insert k t v [] = refl
  contains-insert k t v ((j, w) ∷ d) = ground (arith, contains-insert k t v d, ==_iff j k)

  NoRepeat-insert :
      (k : String) (v : V) (d : Dict String V) → NoRepeat (keys d) → NoRepeat (keys (insert k v d))
  NoRepeat-insert k v [] n = (refl, tt)
  NoRepeat-insert k v ((j, w) ∷ d) (fresh, n) =
      ground (arith, contains-insert k j v d, NoRepeat-insert k v d, ==_iff j k, ==_iff k j)

module _ {F : Type 0} ⦃f : Float F⦄ where
  -- the value of all positions of a ticker
  abbrev pub held_value : List (CurrentPosition F) → String → F
  held_value ps t = sum (map (λ p. p.market_value) (keep (λ p. p.ticker == t) ps))

  -- the value that the last target of a ticker gives it, from a total
  abbrev pub target_value : F → F → List (TargetPosition F) → String → F
  target_value total v [] t = v
  target_value total v (x ∷ xs) t =
      target_value total (if x.ticker == t then x.target_weight ⊗ total else v) xs t

  abbrev pub is_wanted : List (TargetPosition F) → String → Bool
  is_wanted ts t = any (λ x. x.ticker == t) ts

  abbrev pub is_held : List (CurrentPosition F) → String → Bool
  is_held ps t = any (λ p. p.ticker == t) ps

  lookup-actual_values :
      (t : String) (d : Dict String F) (ps : List (CurrentPosition F))
      → value_or_zero (lookup t (actual_values d ps))
        ≡ sum_from
            (value_or_zero (lookup t d))
            (map (λ p. p.market_value) (keep (λ p. p.ticker == t) ps))
  lookup-actual_values t d [] = refl
  lookup-actual_values t d (p ∷ ps) =
      (let d' = insert p.ticker (value_or_zero (lookup p.ticker d) ⊕ p.market_value) d in
        elim (Bool-cases (p.ticker == t)) [
          | inl e ↦ ground (
            arith,
            lookup-actual_values t d' ps,
            lookup-insert p.ticker t (value_or_zero (lookup p.ticker d) ⊕ p.market_value) d,
            ==_iff p.ticker t,
          )
          | inr e ↦ ground (
            arith,
            lookup-actual_values t d' ps,
            lookup-insert p.ticker t (value_or_zero (lookup p.ticker d) ⊕ p.market_value) d,
          )
        ])

  lookup-target_values :
      (total : F) (t : String) (d : Dict String F) (ts : List (TargetPosition F))
      → value_or_zero (lookup t (target_values total d ts))
        ≡ target_value total (value_or_zero (lookup t d)) ts t
  lookup-target_values total t d [] = refl
  lookup-target_values total t d (x ∷ xs) =
      (let d' = insert x.ticker (x.target_weight ⊗ total) d in
        elim (Bool-cases (x.ticker == t)) [
          | inl e ↦ ground (
            arith,
            lookup-target_values total t d' xs,
            lookup-insert x.ticker t (x.target_weight ⊗ total) d,
          )
          | inr e ↦ ground (
            arith,
            lookup-target_values total t d' xs,
            lookup-insert x.ticker t (x.target_weight ⊗ total) d,
          )
        ])

  contains-actual_values :
      (t : String) (d : Dict String F) (ps : List (CurrentPosition F))
      → contains (keys (actual_values d ps)) t ≡ (contains (keys d) t || is_held ps t)
  contains-actual_values t d [] = ground arith
  contains-actual_values t d (p ∷ ps) =
      (let v = value_or_zero (lookup p.ticker d) ⊕ p.market_value in
        ground (
          arith,
          contains-actual_values t (insert p.ticker v d) ps,
          contains-insert p.ticker t v d,
        ))

  pub contains-target_values :
      (total : F) (t : String) (d : Dict String F) (ts : List (TargetPosition F))
      → contains (keys (target_values total d ts)) t ≡ (contains (keys d) t || is_wanted ts t)
  contains-target_values total t d [] = ground arith
  contains-target_values total t d (x ∷ xs) =
      (let v = x.target_weight ⊗ total in
        ground (
          arith,
          contains-target_values total t (insert x.ticker v d) xs,
          contains-insert x.ticker t v d,
        ))

  pub NoRepeat-target_values :
      (total : F) (d : Dict String F) (ts : List (TargetPosition F))
      → NoRepeat (keys d)
      → NoRepeat (keys (target_values total d ts))
  NoRepeat-target_values total d [] n = n
  NoRepeat-target_values total d (x ∷ xs) n =
      NoRepeat-target_values total (insert x.ticker (x.target_weight ⊗ total) d) xs
        (NoRepeat-insert x.ticker (x.target_weight ⊗ total) d n)

  lookup_others :
      (k : String) (v : F) (d : Dict String F) (ks : List String)
      → contains ks k ≡ false
      → map (λ j. value_or_zero (lookup j ((k, v) ∷ d))) ks
        ≡ map (λ j. value_or_zero (lookup j d)) ks
  lookup_others k v d [] h = refl
  lookup_others k v d (j ∷ ks) h = ground (arith, lookup_others k v d ks, ==_iff k j, ==_iff j k)

  values-lookup :
      (d : Dict String F)
      → NoRepeat (keys d)
      → values d ≡ map (λ k. value_or_zero (lookup k d)) (keys d)
  values-lookup [] n = refl
  values-lookup ((k, v) ∷ d) (fresh, n) =
      ground (arith, ==_refl k, lookup_others k v d (keys d) fresh, values-lookup d n)

  -- the values of the targets by ticker
  pub values-target_values :
      (total : F) (ts : List (TargetPosition F))
      → values (target_values total [] ts)
        ≡ map (target_value total (whole 0) ts) (keys (target_values total [] ts))
  values-target_values total ts =
      (let d = target_values total [] ts in
        rw
          (
            values-lookup d (NoRepeat-target_values total [] ts tt),
            map-same (λ k. value_or_zero (lookup k d)) (target_value total (whole 0) ts)
                (λ t. lookup-target_values total t [] ts) (keys d),
          )
          refl)

  abbrev pub drift_tickers : F → List (TargetPosition F) → List (CurrentPosition F) → List String
  drift_tickers total ts ps =
      set_of (keys (target_values total [] ts) ++ keys (actual_values [] ps))

  pub drifts-tickers :
      (total : F) (ts : List (TargetPosition F)) (ps : List (CurrentPosition F))
      → drifts (target_values total [] ts) (actual_values [] ps)
        ≡ map
            (λ t. abs_float (held_value ps t ⊖ target_value total (whole 0) ts t))
            (drift_tickers total ts ps)
  drifts-tickers total ts ps =
      map-same _ _ (λ t. rw (lookup-actual_values t [] ps, lookup-target_values total t [] ts) refl)
        (drift_tickers total ts ps)

  pub contains-drift_tickers :
      (total : F) (ts : List (TargetPosition F)) (ps : List (CurrentPosition F)) (t : String)
      → contains (drift_tickers total ts ps) t ≡ (is_wanted ts t || is_held ps t)
  contains-drift_tickers total ts ps t =
      (let wanted = keys (target_values total [] ts) in
        let held = keys (actual_values [] ps) in
        ground (
          arith,
          contains-set_of t (wanted ++ held),
          any-append (λ y. y == t) wanted held,
          contains-target_values total t [] ts,
          contains-actual_values t [] ps,
        ))
