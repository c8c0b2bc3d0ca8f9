-- ===== src/Capital/Sleeves.antt =====
-- src/poma/portfolio.py: the capital plan of a mapping of allocations.
use poma.Prelude.{
  string_eq, true, false, not, ◌||◌, String, List, [], ◌∷◌, ◌++◌, ◌==◌, ==_iff, map, All,
  All-append, keys, values, Dict, lookup, is_some, non_empty, strip, Float, whole, sum, ◌⊗◌, ◌≺◌,
  ◌≼◌, ◌≡◌, refl, sym, ap, subst, ◌∙◌, arith, Bool-cases, inl, inr,
}
use poma.Risk.Tickers.{contains, NoRepeat}
use poma.Capital.Defs.{
  Checked, valid, invalid, StrategyCapital, PortfolioCapitalPlan, is_share, clean, check_total,
  validate_allocations, sleeve, plan_of, build_strategy_capital_plan, total_allocated_pct,
}

NoRepeat-append :
    (xs : List String) (x : String)
    → contains xs x ≡ false
    → NoRepeat xs
    → NoRepeat (xs ++ (x ∷ []))
NoRepeat-append [] x h n = (refl, tt)
NoRepeat-append (y ∷ ys) x h (fresh, n) =
    (contains-append ys x y h fresh, NoRepeat-append ys x (ground arith) n)
  where
    contains-append :
        (ys : List String) (x y : String)
        → (y == x || contains ys x) ≡ false
        → contains ys y ≡ false
        → contains (ys ++ (x ∷ [])) y ≡ false
    contains-append [] x y h k = ground (arith, ==_iff x y, ==_iff y x)
    contains-append (z ∷ zs) x y h k = ground (arith, contains-append zs x y)

module _ {F : Type 0} ⦃f : Float F⦄ where
  -- a name that is not empty, with a finite share between 0 and 1
  abbrev IsShare : String × F → Type 0
  IsShare (name, pct) = (non_empty name ≡ true) × (f.is_finite pct ≡ true) × (is_share pct ≡ true)

  abbrev IsClean : Dict String F → Type 0
  IsClean d = All IsShare d × NoRepeat (keys d)

  abbrev OnlyClean : Checked F (Dict String F) → Type 0
  OnlyClean (invalid e) = Unit
  OnlyClean (valid d) = IsClean d

  contains-keys : (n : String) (d : Dict String F) → contains (keys d) n ≡ is_some (lookup n d)
  contains-keys n [] = refl
  contains-keys n ((k, p) ∷ d) = ground (arith, contains-keys n d)

  keys-append :
      (d : Dict String F) (n : String) (p : F) → keys (d ++ ((n, p) ∷ [])) ≡ keys d ++ (n ∷ [])
  keys-append [] n p = refl
  keys-append ((k, q) ∷ d) n p = ap (λ l. k ∷ l) (keys-append d n p)

  clean-OnlyClean :
      (d : Dict String F) (xs : List (String × F)) → IsClean d → OnlyClean (clean d xs)
  unfolding clean
  clean-OnlyClean d [] h = h
  clean-OnlyClean d ((raw_name, pct) ∷ rest) h =
      let name = strip raw_name in
      elim (Bool-cases (non_empty name)) [
        | inr e ↦ rw e tt
        | inl named ↦ elim (Bool-cases (is_some (lookup name d))) [
          | inl e ↦ rw (named, e) tt
          | inr fresh ↦ elim (Bool-cases (f.is_finite pct)) [
            | inr e ↦ rw (named, fresh, e) tt
            | inl finite ↦ elim (Bool-cases (is_share pct)) [
              | inr e ↦ rw (named, fresh, finite, e) tt
              | inl share ↦
                  rw (named, fresh, finite, share)
                    (clean-OnlyClean (d ++ ((name, pct) ∷ [])) rest (
                      All-append IsShare d ((name, pct) ∷ []) h.0 ((named, finite, share), tt),
                      rw (keys-append d name pct)
                          (NoRepeat-append (keys d) name (contains-keys name d ∙ fresh) h.1),
                    ))
            ]
          ]
        ]
      ]

  -- a sleeve of the portfolio value
  pub record IsSleeve (value : F) (a : StrategyCapital F) : Type 0 where
    pub named : non_empty a.name ≡ true
    pub share : is_share a.allocation_pct ≡ true
    pub capital_eq : a.capital_usd ≡ value ⊗ a.allocation_pct

  All-sleeve :
      (value : F) (d : Dict String F) → All IsShare d → All (IsSleeve value) (map (sleeve value) d)
  All-sleeve value [] h = tt
  All-sleeve value ((n, p) ∷ d) ((named, finite, share), h) =
      (record { named = named; share = share; capital_eq = refl }, All-sleeve value d h)

  names-sleeve : (value : F) (d : Dict String F) → map (λ a. a.name) (map (sleeve value) d) ≡ keys d
  names-sleeve value [] = refl
  names-sleeve value ((n, p) ∷ d) = ap (λ l. n ∷ l) (names-sleeve value d)

  shares-sleeve :
      (value : F) (d : Dict String F)
      → map (λ a. a.allocation_pct) (map (sleeve value) d) ≡ values d
  shares-sleeve value [] = refl
  shares-sleeve value ((n, p) ∷ d) = ap (λ l. p ∷ l) (shares-sleeve value d)

  -- A plan that is within the portfolio: positive value, sleeves of it under distinct names that are
  -- not empty, and no more than all of it allocated.
  pub record IsAllocated (value : F) (p : PortfolioCapitalPlan F) : Type 0 where
    pub value_eq : p.portfolio_value_usd ≡ value
    pub positive : (value ≼ whole 0) ≡ false
    pub sleeves : All (IsSleeve value) p.allocations
    pub distinct : NoRepeat (map (λ a. a.name) p.allocations)
    pub within : (f.dec 1_000_001 6 ≺ total_allocated_pct p) ≡ false

  abbrev OnlyAllocated : F → Checked F (PortfolioCapitalPlan F) → Type 0
  OnlyAllocated value (invalid e) = Unit
  OnlyAllocated value (valid p) = IsAllocated value p

  plan_of-OnlyAllocated :
      (value : F) (x : Checked F (Dict String F))
      → (value ≼ whole 0) ≡ false
      → OnlyClean x
      → OnlyAllocated value (plan_of value (check_total x))
  plan_of-OnlyAllocated value (invalid e) pos h = tt
  plan_of-OnlyAllocated value (valid []) pos h = tt
  plan_of-OnlyAllocated value (valid (a ∷ more)) pos h =
      elim (Bool-cases (f.dec 1_000_001 6 ≺ sum (values (a ∷ more)))) [
        | inl e ↦ rw e tt
        | inr e ↦ rw e (record {
          value_eq = refl;
          positive = pos;
          sleeves = All-sleeve value (a ∷ more) h.0;
          distinct = subst NoRepeat (sym (names-sleeve value (a ∷ more))) h.1;
          within =
              subst (λ l. (f.dec 1_000_001 6 ≺ sum l) ≡ false)
                (sym (shares-sleeve value (a ∷ more))) e;
        })
      ]

  build-OnlyAllocated :
      (value : F) (xs : List (String × F))
      → OnlyAllocated value (build_strategy_capital_plan value xs)
  unfolding build_strategy_capital_plan validate_allocations
  build-OnlyAllocated value xs = elim (Bool-cases ((value ≼ whole 0) || not (f.is_finite value))) [
    | inl e ↦ rw e tt
    | inr e ↦
        rw e (
          plan_of-OnlyAllocated value (clean [] xs) (ground arith) (clean-OnlyClean [] xs (tt, tt)))
  ]

  -- A capital plan that is built is for the given value, which is positive; its sleeves have distinct
  -- names that are not empty, shares between 0 and 1 and that share of the value as capital; and the
  -- shares do not sum to more than 1.000001.
  pub build_strategy_capital_plan-IsAllocated :
      (value : F) (xs : List (String × F)) (p : PortfolioCapitalPlan F)
      → build_strategy_capital_plan value xs ≡ valid p
      → IsAllocated value p
  build_strategy_capital_plan-IsAllocated value xs p e =
      subst (OnlyAllocated value) e (build-OnlyAllocated value xs)
