-- ===== src/Lib.antt =====
-- Verification of POMA, the portfolio manager of this repository, whose code is src/poma.
--
-- The program plans one rebalance per market session (engine.py, portfolio.py, risk.py,
-- execution_policy.py), submits it through a broker (execution_manager.py, broker.py) with every order
-- recorded in a durable ledger (order_lifecycle.py, order_store.py), and follows the open orders up.
--
-- Prelude      names that all modules share: tests, lists, dicts, texts, decimals, and the interface of
--              Python's floats.
-- Models       models.py: the records that the parts hand to one another.
-- Config       config.py: the settings that the modelled parts read.
-- Lifecycle    order_lifecycle.py: states and classification of broker statuses (State), the ledger
--              entry and its updates (Entry, Updates), order references (Reference).
-- Store        order_store.py: the two ledger files and the cache (Defs), their lines (Lines), the store
--              as a map (View, Upsert, Queries), the stores that processes reach (History) and what they
--              answer (Refinement).
-- Policy       execution_policy.py: the execution rules and the rounding of a quantity (Defs), the rounding
--              of a plan's trades and the demotion of buys (Apply), what they leave (Tradable).
-- Pricing      execution_pricing.py: limits, the choice of a price from a quote, repricing of a batch
--              (Limits, Quotes, Batch), what an accepted trade rests on (Safety, Accepted).
-- Execution    execution_manager.py: staged submission. World is the state that the methods act on and
--              the interface of the broker; Ledger is what the manager asks of the order ledger, which
--              FileLedger fills with the file store.
-- Reconcile    execution_manager.py: follow-up of the open orders. Desk is the state that it acts on;
--              Match, Escalation, Timeouts, Resume, Entry and Pass are the steps of reconcile for one
--              entry and the loop over them, RefParts and Restore the orders that the ledger lacks,
--              Whole is reconcile itself, Stale is check_stale_orders. Careful, Runs, Replaced,
--              TimedOut, Kept, Matched, Passes and Worked carry the invariant of the replacements,
--              Sweep is one pass, FailClosed is about failing calls in it, Closed about orders that ended,
--              Restoring, RestoreSteps and Restored about the restored orders, Blocking and Unresolved
--              about open orders of others, RoundTrip about order references.
-- Engine       engine.py: the settings, market data and strategies that it asks for (Inputs), build_plan
--              (Parts, Plan), the status of the results (Status), execute and run (Run), what the checks of a
--              plan leave (Checks, Sound), and what is submitted (Guarded).
-- Audit        market_calendar.py (Window), rebalance_quality.py (Quality, the values that it compares
--              in Holdings, what it certifies in Reached) and recovery_readiness.py (Recovery, with what it certifies in Recovered).
-- Session      state.py: the state file of the rebalance sessions (Defs), the attempts of a run (Attempts).
-- Risk         risk.py: the trades that a plan proposes (Planning), with what they are (Planned, Trades),
--              and the checks of a batch (Limits, Checks); Tickers is its sorted set.
-- Capital      portfolio.py: the check of the allocations and the capital of every strategy (Defs), what
--              an accepted mapping becomes (Sleeves); the parser of the setting is not modelled.
-- Combine      portfolio_constructor.py: the targets of all sleeves by ticker (Defs, Attribution).
-- Tests        runs on concrete inputs, and the theorems at such inputs.
--
-- Floats are an interface (Float) whose operations stand for Python's float arithmetic, round and
-- format; a theorem that needs a law of IEEE 754 comparisons takes it as a hypothesis (IsOrdered).
-- Tests.Fixed fills the interface with a signed fixed-point number. Python raises at a float
-- division by zero: where the code can reach one (generate_trades, by the portfolio value and by
-- the price of a position that underflows), the model says so, elsewhere it is a value of the
-- interface, as is the floor of NaN or an infinity, at which math.floor raises. Texts are native
-- strings, natural numbers stand for broker ids, counters and time stamps of files. A ledger file
-- is the list of its decoded lines; the JSON text of a line is not modelled. A method that calls
-- the broker is an action on a world, which may raise and keeps what it wrote before; the status
-- callback of the caller is a list of the alerts sent. The attempts to quote a batch are counted
-- down from EXECUTION_QUOTE_ATTEMPTS, so the recursion is the loop of the source and no fuel runs
-- out; all other loops are recursions over lists.
--
-- Not modelled: the connection to Interactive Brokers and market data (the rest of broker.py,
-- ibkr_order_history.py, data.py, history.py, health.py, gateway_auth.py), the command line, the
-- notifications and the operations scripts, which are input and output or calls of libraries.
pub mod Prelude
pub mod Models
pub mod Lifecycle
pub mod Store
pub mod Session
pub mod Risk
pub mod Capital
pub mod Combine
pub mod Config
pub mod Policy
pub mod Pricing
pub mod Execution
pub mod Reconcile
pub mod Engine
pub mod Audit
mod Tests
