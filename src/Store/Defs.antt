-- ===== src/Store/Defs.antt =====
-- src/poma/order_store.py: the two ledger files, the cache of a process, and the methods of
-- `OrderStore`. A file is its lines, decoded, with a stamp that stands for the inode, size and
-- modification time of `path.stat()`; each write is handed the stamp that the file then has.
use poma.Prelude.{
  string_eq, nat_eq, option_eq, ℕ, Bool, false, not, ◌&&◌, String, Option, none, some, List, [],
  ◌∷◌, ◌++◌, ◌==◌, Dict, insert, values, keep, any, if◌then◌else◌,
}
use poma.Models.{OrderSide, side_eq}
use poma.Lifecycle.Entry.{OrderLedgerEntry, is_terminal}
use poma.Store.Lines.{replay, open_lines}

pub record LedgerFile (F : Type 0) : Type 0 where
  pub stamp : ℕ
  pub lines : List (OrderLedgerEntry F)

abbrev pub Entries : Type 0 → Type 0
Entries F = Dict String (OrderLedgerEntry F)

-- A file that does not exist is `none`; so is the cache of a new process.
pub record OrderStore (F : Type 0) : Type 0 where
  pub open_orders : Option (LedgerFile F)
  pub events : Option (LedgerFile F)
  pub cache : Option (Entries F)
  pub cache_open : Option ℕ
  pub cache_events : Option ℕ

module _ {F : Type 0} where
  abbrev pub stamp_of : Option (LedgerFile F) → Option ℕ
  stamp_of none = none
  stamp_of (some file) = some file.stamp

  abbrev pub lines_of : Option (LedgerFile F) → List (OrderLedgerEntry F)
  lines_of none = []
  lines_of (some file) = file.lines

  -- what the files hold, whatever the cache says
  unfoldable pub on_disk : OrderStore F → Entries F
  on_disk s = replay (replay [] (lines_of s.open_orders)) (lines_of s.events)

  -- the cache is there, and its signature is that of the files
  abbrev pub is_fresh : OrderStore F → Option (Entries F) → Bool
  is_fresh s none = false
  is_fresh s (some d) =
      s.cache_open == stamp_of s.open_orders && s.cache_events == stamp_of s.events

  abbrev cached_or : Option (Entries F) → Entries F → Entries F
  cached_or none d = d
  cached_or (some c) d = c

  -- `_latest_entries`: the entries, and the store with its cache filled
  unfoldable pub latest_entries : OrderStore F → Entries F × OrderStore F
  latest_entries s = if is_fresh s s.cache then (cached_or s.cache [], s) else (
    on_disk s,
    record s {
      cache = some (on_disk s);
      cache_open = stamp_of s.open_orders;
      cache_events = stamp_of s.events;
    },
  )

  unfoldable pub load_open_orders : OrderStore F → List (OrderLedgerEntry F)
  load_open_orders s = keep (λ e. not (is_terminal e)) (values (latest_entries s).0)

  abbrev pub find_key : String → List (OrderLedgerEntry F) → Option (OrderLedgerEntry F)
  find_key k [] = none
  find_key k (e ∷ es) = if e.ledger_key == k then some e else find_key k es

  -- `get`
  unfoldable pub get : String → OrderStore F → Option (OrderLedgerEntry F)
  get k s = find_key k (load_open_orders s)

  abbrev pub select_keys : List String → Entries F → Entries F
  select_keys ks [] = []
  select_keys ks ((k, e) ∷ d) =
      if any (λ j. j == k) ks then (k, e) ∷ select_keys ks d else select_keys ks d

  unfoldable pub get_latest_many : List String → OrderStore F → Entries F
  get_latest_many ks s = select_keys ks (latest_entries s).0

  -- the entry of a ticker and side in `get_latest_run_trades(run_id)`, where the last one wins
  abbrev pub run_trade : String → String → OrderSide → Entries F → Option (OrderLedgerEntry F)
  run_trade run ticker side [] = none
  run_trade run ticker side ((k, e) ∷ d) = elim (run_trade run ticker side d) [
    | some later ↦ some later
    | none ↦ if e.run_id == run && (e.ticker == ticker && e.side == side) then some e else none
  ]

  -- `_append_event`
  unfoldable pub append_event : ℕ → OrderLedgerEntry F → OrderStore F → OrderStore F
  append_event stamp e s = record s {
    events = some (record { stamp = stamp; lines = lines_of s.events ++ (e ∷ []) });
  }

  -- `_save_open_orders`, of the entries that are not terminal
  unfoldable pub save_open_orders : ℕ → Entries F → OrderStore F → OrderStore F
  save_open_orders stamp d s = record s {
    open_orders = some (record { stamp = stamp; lines = open_lines d });
  }

  -- `upsert`: append, then replace the snapshot, then refresh the cache
  unfoldable pub upsert : ℕ → ℕ → OrderLedgerEntry F → OrderStore F → OrderStore F
  unfolding append_event save_open_orders
  upsert event_stamp open_stamp e s =
      let (d, s₁) = latest_entries s in
      let d' = insert e.ledger_key e d in
      let s₃ = save_open_orders open_stamp d' (append_event event_stamp e s₁) in
      record s₃ {
        cache = some d';
        cache_open = stamp_of s₃.open_orders;
        cache_events = stamp_of s₃.events;
      }

  -- a process that was killed between the append and the snapshot, and its successor
  unfoldable pub interrupted_upsert : ℕ → OrderLedgerEntry F → OrderStore F → OrderStore F
  unfolding append_event
  interrupted_upsert event_stamp e s = record (append_event event_stamp e s) {
    cache = none;
    cache_open = none;
    cache_events = none;
  }
