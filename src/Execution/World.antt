-- ===== src/Execution/World.antt =====
-- What `ExecutionManager` acts on: the broker of src/poma/broker.py (`Broker`) as an interface over
-- the outside world, and methods as actions on the world, which may raise and keep what they wrote.
use poma.Prelude.{string_eq, insert, ℕ, Bool, String, Option, List, [], ◌∷◌, ◌++◌, Dict}
use poma.Models.{
  OrderSide, AccountSnapshot, ProposedTrade, ExecutionQuote, OrderResult, OpenOrderSnapshot,
}
use poma.Lifecycle.Entry.{OrderLedgerEntry}

-- a value, or an exception with its text
pub data Reply {ℓ} (A : Type ℓ) : Type ℓ where
  ok : A → Reply A
  raised : String → Reply A

-- how `submit_trades` ends, and the status callbacks that it has made by then
pub record Submission (F : Type 0) : Type 0 where
  pub callbacks : List (ProposedTrade F × OrderResult F)
  pub reply : Reply (List (OrderResult F))

-- how `replace_order` ends: with an order, with `CancelNotConfirmed`, or with another exception
pub data ReplaceReply (F : Type 0) : Type 0 where
  placed : OpenOrderSnapshot F → ReplaceReply F
  cancel_not_confirmed : String → ReplaceReply F
  failed : String → ReplaceReply F

-- a replacement: the ticker, the side, the quantity, the new limit and the order reference
pub record Replacement (F : Type 0) : Type 0 where
  pub ticker : String
  pub side : OrderSide
  pub quantity : F
  pub new_limit_price : F
  pub order_ref : String

-- `Broker`, with the clock: each call changes the outside world `W`. `seconds_between` is the time from
-- the first text to the second, where the first is a time. A broker may lack the calls that are
-- `Option`s; `is_ibkr_broker` says whether it is an `IbkrBroker`.
pub record Broker (F W : Type 0) : Type 0 where
  pub utc_now : W → String × W
  pub seconds_between : String → String → Option F
  pub is_ibkr_broker : Bool
  pub account_snapshot : W → Reply (AccountSnapshot F) × W
  pub execution_quotes : List String → W → Reply (Dict String (ExecutionQuote F)) × W
  pub submit_trades : List (ProposedTrade F) → W → Submission F × W
  pub fetch_open_order_snapshots : W → Reply (List (OpenOrderSnapshot F)) × W
  pub fetch_completed_order_snapshots :
      Option (List String → List (OrderLedgerEntry F) → W → Reply (List (OpenOrderSnapshot F)) × W)
  pub cancel_order : ℕ → W → Reply Bool × W
  pub replace_order : ℕ → Replacement F → W → ReplaceReply F × W
  pub submit_replacement : Option (Replacement F → W → Reply (OpenOrderSnapshot F) × W)

-- The ledger, the outside world, the results so far by ticker, the alerts sent through the status
-- callback, and a trace of the submissions, each with the ledger as it stood when the call was made.
pub record World (F S W : Type 0) : Type 0 where
  pub ledger : S
  pub outside : W
  pub results : Dict String (OrderResult F)
  pub alerts : List (ProposedTrade F × OrderResult F)
  pub submissions : List (List (ProposedTrade F) × S)

-- a method on a state, which may raise and keeps what it wrote before
abbrev pub Exec : Type 0 → Type 0 → Type 0
Exec St A = St → Reply A × St

abbrev pub Action : Type 0 → Type 0 → Type 0 → Type 0 → Type 0
Action F S W A = Exec (World F S W) A

module _ {St A : Type 0} where
  abbrev pub pure : A → Exec St A
  pure a w = (ok a, w)

  abbrev pub raise : String → Exec St A
  raise e w = (raised e, w)

-- a call of the outside world that may raise
abbrev pub ask : {F S W A : Type 0} → (W → Reply A × W) → Action F S W A
ask call w = let (r, o) = call w.outside in (r, record w { outside = o })

infixl 5 ◌>>=◌ ◌>>◌
abbrev pub ◌>>=◌ : {St A B : Type 0} → Exec St A → (A → Exec St B) → Exec St B
◌>>=◌ m k w = let (r, w') = m w in elim r [ ok a ↦ k a w' | raised e ↦ raise e w' ]

abbrev pub ◌>>◌ : {St A B : Type 0} → Exec St A → Exec St B → Exec St B
m >> k = m >>= λ _. k

-- the end of a method, where its exception is handled
abbrev pub handled : {St A : Type 0} → Reply A → (String → Exec St A) → Exec St A
handled (ok a) handler w = (ok a, w)
handled (raised e) handler w = handler e w

-- `try: m` with a handler of its exceptions
abbrev pub catch : {St A : Type 0} → Exec St A → (String → Exec St A) → Exec St A
catch m handler w = let (r, w') = m w in handled r handler w'

-- write the ledger
abbrev pub modify_ledger : {F S W : Type 0} → (S → S) → Action F S W (Unit {0})
modify_ledger g w = (ok tt, record w { ledger = g w.ledger })

-- `results_by_ticker[ticker] = result`
abbrev pub set_result : {F S W : Type 0} → String → OrderResult F → Action F S W (Unit {0})
set_result ticker r w = (ok tt, record w { results = insert ticker r w.results })

-- the caller's status callback
abbrev pub alert : {F S W : Type 0} → ProposedTrade F → OrderResult F → Action F S W (Unit {0})
alert t r w = (ok tt, record w { alerts = w.alerts ++ ((t, r) ∷ []) })

-- `_utc_now_iso()`
abbrev pub now : {F S W : Type 0} → Broker F W → Action F S W String
now br w = let (text, o) = br.utc_now w.outside in (ok text, record w { outside = o })
