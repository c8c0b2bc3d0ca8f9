-- ===== src/Combine/Attribution.antt =====
-- src/poma/portfolio_constructor.py: the targets of the books and the combined positions.
use poma.Prelude.{
  string_eq, ◌||◌, String, List, [], ◌∷◌, ◌++◌, ◌==◌, ==_iff, map, keep, All, Dict, insert, keys,
  lookup-insert, Float, sum, ◌≡◌, refl, sym, ap, subst, ◌∙◌, arith, Bool-cases, inl, inr,
}
use mathlib.Core.List.{append_assoc, append-nil}
use poma.Models.{StrategyTarget, StrategyTargetBook, CombinedTargetPosition}
use poma.Risk.Tickers.{contains, NoRepeat, sorted, sorted-NoRepeat, contains-sorted}
use poma.Combine.Defs.{
  contributions_of, add_targets, all_targets, combined_position, combine_strategy_target_books,
}

module _ {F : Type 0} ⦃f : Float F⦄ where
  contains-insert :
      (k z : String) (v : List (StrategyTarget F)) (d : Dict String (List (StrategyTarget F)))
      → contains (keys (insert k v d)) z ≡ (k == z || contains (keys d) z)
  contains-insert k z v [] = refl
  contains-insert k z v ((j, w) ∷ d) =
      ground (arith, contains-insert k z v d, ==_iff j k, ==_iff j z, ==_iff k z)

  insert-NoRepeat :
      (k : String) (v : List (StrategyTarget F)) (d : Dict String (List (StrategyTarget F)))
      → NoRepeat (keys d)
      → NoRepeat (keys (insert k v d))
  insert-NoRepeat k v [] n = (refl, tt)
  insert-NoRepeat k v ((j, w) ∷ d) (fresh, n) = elim (Bool-cases (j == k)) [
    | inl e ↦ simp e (fresh, n)
    | inr e ↦
        simp e
          (ground (arith, contains-insert k j v d, ==_iff j k, ==_iff k j), insert-NoRepeat k v d n)
  ]

  add_targets-NoRepeat :
      (d : Dict String (List (StrategyTarget F))) (ts : List (StrategyTarget F))
      → NoRepeat (keys d)
      → NoRepeat (keys (add_targets d ts))
  unfolding add_targets
  add_targets-NoRepeat d [] n = n
  add_targets-NoRepeat d (t ∷ ts) n =
      let more = contributions_of t.ticker d ++ (t ∷ []) in
      add_targets-NoRepeat (insert t.ticker more d) ts (insert-NoRepeat t.ticker more d n)

  contains-add_targets :
      (z : String) (d : Dict String (List (StrategyTarget F))) (ts : List (StrategyTarget F))
      → contains (keys (add_targets d ts)) z
        ≡ (contains (keys d) z || contains (map (λ t. t.ticker) ts) z)
  unfolding add_targets
  contains-add_targets z d [] = ground arith
  contains-add_targets z d (t ∷ ts) =
      let more = contributions_of t.ticker d ++ (t ∷ []) in
      contains-add_targets z (insert t.ticker more d) ts
      ∙ ground (arith, contains-insert t.ticker z more d)

  contributions-add_targets :
      (z : String) (d : Dict String (List (StrategyTarget F))) (ts : List (StrategyTarget F))
      → contributions_of z (add_targets d ts) ≡ contributions_of z d ++ keep (λ t. t.ticker == z) ts
  unfolding add_targets
  contributions-add_targets z d [] = sym (append-nil (contributions_of z d))
  contributions-add_targets z d (t ∷ ts) =
      let more = contributions_of t.ticker d ++ (t ∷ []) in
      contributions-add_targets z (insert t.ticker more d) ts ∙ elim (Bool-cases (t.ticker == z)) [
        | inl e ↦
            simp (lookup-insert, e)
              (ap (λ k. (contributions_of k d ++ (t ∷ [])) ++ keep (λ u. u.ticker == z) ts)
                  ((==_iff t.ticker z).0 e)
                ∙ append_assoc (contributions_of z d) (t ∷ []) (keep (λ u. u.ticker == z) ts))
        | inr e ↦ simp (lookup-insert, e)
      ]

  -- the position is what its ticker's targets come to, in the order of the sleeves
  pub record IsAttributed (targets : List (StrategyTarget F)) (p : CombinedTargetPosition F)
      : Type 0 where
    pub contributions_eq : p.contributions ≡ keep (λ t. t.ticker == p.ticker) targets
    pub notional_eq : p.target_notional ≡ sum (map (λ t. t.target_notional) p.contributions)

  positions-IsAttributed :
      (value : F) (ts : List (StrategyTarget F)) (tickers : List String)
      → All (IsAttributed ts) (map (combined_position value (add_targets [] ts)) tickers)
  positions-IsAttributed value ts [] = tt
  positions-IsAttributed value ts (t ∷ tickers) = (
    record { contributions_eq = contributions-add_targets t [] ts; notional_eq = refl },
    positions-IsAttributed value ts tickers,
  )

  tickers-combined :
      (value : F) (d : Dict String (List (StrategyTarget F))) (tickers : List String)
      → map (λ p. p.ticker) (map (combined_position value d) tickers) ≡ tickers
  tickers-combined value d [] = refl
  tickers-combined value d (t ∷ tickers) = ap (λ l. t ∷ l) (tickers-combined value d tickers)

  -- The combined positions have distinct tickers, which are those of the targets of the books; each has
  -- as contributions all the targets of its ticker, in the order of the books, and their sum as its
  -- notional.
  pub combine_strategy_target_books-IsAttributed :
      (books : List (StrategyTargetBook F)) (value : F)
      → let combined = (combine_strategy_target_books books value).0 in
        NoRepeat (map (λ p. p.ticker) combined)
        × ((z : String)
            → contains (map (λ p. p.ticker) combined) z
              ≡ contains (map (λ t. t.ticker) (all_targets books)) z)
        × All (IsAttributed (all_targets books)) combined
  unfolding combine_strategy_target_books
  combine_strategy_target_books-IsAttributed books value =
      let ts = all_targets books in
      let d = add_targets [] ts in
      let same = tickers-combined value d (sorted (keys d)) in
      (
        subst NoRepeat (sym same) (sorted-NoRepeat (keys d) (add_targets-NoRepeat [] ts tt)),
        λ z.
            ap (λ l. contains l z) same
            ∙ (contains-sorted z (keys d) ∙ contains-add_targets z [] ts),
        positions-IsAttributed value ts (sorted (keys d)),
      )
