-- ===== src/Pricing/Safety.antt =====
-- src/poma/execution_pricing.py: the quotes that give a price.
use poma.Prelude.{
  string_eq, Bool, false, not, ◌&&◌, ◌||◌, String, Option, none, some, [], ◌∷◌, ◌≡◌, refl, subst,
  ◌⊎◌, arith, any, Bool-cases, Option-cases, inl, inr, Float, whole, ◌≺◌,
}
use poma.Models.{OrderSide, ExecutionQuote}
use poma.Config.{Settings}
use poma.Pricing.Quotes.{
  Selection, priced, refused, QuotePricing, pricing, no_price, is_wild, is_crossed, is_below,
  select_execution_price, select_fresh, select_by_basis, price_from_quote,
}

module _ {F : Type 0} ⦃f : Float F⦄ where
  -- the quote was taken no longer ago than the settings allow
  abbrev pub IsFresh : Settings F → Option F → Type 0
  IsFresh s none = ⊥
  IsFresh s (some age) = (whole s.execution_quote_max_age_seconds ≺ age) ≡ false

  -- a quote that may price an order
  pub record IsUsable (s : Settings F) (q : ExecutionQuote F) : Type 0 where
    pub resolved : q.contract_unresolved ≡ false
    pub finite : any is_wild (q.bid ∷ q.ask ∷ q.last ∷ q.age_seconds ∷ q.spread_bps ∷ []) ≡ false
    pub uncrossed : is_crossed q.bid q.ask ≡ false
    pub timely : (q.is_delayed && not s.allow_delayed_execution_quotes) ≡ false
    pub fresh : IsFresh s q.age_seconds

  -- a price is given only for a usable quote
  abbrev pub OnlyUsable : Settings F → ExecutionQuote F → Selection F → Type 0
  OnlyUsable s q (refused w) = Unit
  OnlyUsable s q (priced p basis) = IsUsable s q

  of_usable :
      (s : Settings F) (q : ExecutionQuote F) (x : Selection F) → IsUsable s q → OnlyUsable s q x
  of_usable s q (refused w) h = tt
  of_usable s q (priced p basis) h = h

  select_fresh-OnlyUsable :
      (q : ExecutionQuote F) (side : OrderSide) (s : Settings F) (wide : Bool)
      → (IsFresh s q.age_seconds → IsUsable s q)
      → OnlyUsable s q (select_fresh q side s wide)
  unfolding select_fresh
  select_fresh-OnlyUsable q side s wide usable = elim (Option-cases q.age_seconds) [
    | inl n ↦ simp n tt
    | inr (age, n) ↦ elim (Bool-cases (whole s.execution_quote_max_age_seconds ≺ age)) [
      | inl stale ↦ simp (n, stale) tt
      | inr fresh ↦
          simp (n, fresh)
            (of_usable s q (select_by_basis s.execution_price_basis s q side wide)
              (usable (rw n fresh)))
    ]
  ]

  select_execution_price-OnlyUsable :
      (q : ExecutionQuote F) (side : OrderSide) (s : Settings F) (wide : Bool)
      → OnlyUsable s q (select_execution_price q side s wide)
  unfolding select_execution_price
  select_execution_price-OnlyUsable q side s wide =
      let wild = any is_wild (q.bid ∷ q.ask ∷ q.last ∷ q.age_seconds ∷ q.spread_bps ∷ []) in
      let crossed = is_crossed q.bid q.ask || is_below q.spread_bps (whole 0) in
      let late = q.is_delayed && not s.allow_delayed_execution_quotes in
      elim (Bool-cases q.contract_unresolved) [
        | inl e ↦ simp e tt
        | inr a ↦ elim (Bool-cases wild) [
          | inl e ↦ simp (a, e) tt
          | inr b ↦ elim (Bool-cases (is_below q.age_seconds (whole 0))) [
            | inl e ↦ simp (a, b, e) tt
            | inr c ↦ elim (Bool-cases crossed) [
              | inl e ↦ simp (a, b, c, e) tt
              | inr d ↦ elim (Bool-cases late) [
                | inl e ↦ simp (a, b, c, d, e) tt
                | inr e ↦
                    simp (a, b, c, d, e)
                      (select_fresh-OnlyUsable q side s wide (λ fresh. record {
                        resolved = a;
                        finite = b;
                        uncrossed = ground arith;
                        timely = e;
                        fresh = fresh;
                      }))
              ]
            ]
          ]
        ]
      ]

  Selection-cases :
      (x : Selection F)
      → ((w : String) × (x ≡ refused w)) ⊎ ((p : F) × (basis : String) × (x ≡ priced p basis))
  Selection-cases (refused w) = inl (w, refl)
  Selection-cases (priced p basis) = inr (p, basis, refl)

  pub QuotePricing-cases :
      (x : QuotePricing F)
      → ((w : String) × (x ≡ no_price w))
        ⊎ ((p : F) × (limit : F) × (basis : String) × (x ≡ pricing p limit basis))
  QuotePricing-cases (no_price w) = inl (w, refl)
  QuotePricing-cases (pricing p limit basis) = inr (p, limit, basis, refl)

  -- a usable quote, or no price
  pub price_from_quote-IsUsable :
      (q : ExecutionQuote F) (side : OrderSide) (s : Settings F) (offset : F) (wide : Bool)
      (aggression : Option F)
      → IsUsable s q
        ⊎ ((w : String) × (price_from_quote q side s offset wide aggression ≡ no_price w))
  unfolding price_from_quote
  price_from_quote-IsUsable q side s offset wide aggression =
      elim (Selection-cases (select_execution_price q side s wide)) [
        | inl (w, e) ↦ inr (w, rw (e, price_from_quote) refl)
        | inr (p, basis, e) ↦
            inl (subst (OnlyUsable s q) e (select_execution_price-OnlyUsable q side s wide))
      ]
