-- ===== src/Cosmos/Cache/Processes.antt =====
-- The goroutines of internal/cosmos/cache_controller.go: `Reconcile` starts a collector for a node
-- that is not cached, `Del` cancels the collector of an entry, and a collector that sees its
-- cancellation runs its deferred `Del` and ends. The lock makes each operation of the cache one
-- step; between steps anything else may happen. A collector is a number that is used once.
pub mod Owners
pub mod Restarts
use cosmos_operator.Common.{
  ℕ, suc, ◌≤◌, [], Bool, true, false, ◌≡◌, refl, Option, none, some, arith, ObjectKey, key_eq,
  key_eq_iff, ◌==◌, if◌then◌else◌, Bool-cases, Option-cases, inl, inr, ap, ◌≢◌,
}
use cosmos_operator.Cosmos.{StatusCollection}

-- `cacheItem`, whose `cancel` is that of the collector `owner`.
pub record Entry : Type 0 where
  pub owner : ℕ
  pub coll : StatusCollection

pub record Collector : Type 0 where
  pub key : ObjectKey
  pub cancelled : Bool

pub record System : Type 0 where
  pub entries : ObjectKey → Option Entry
  pub running : ℕ → Option Collector
  pub next : ℕ

abbrev pub set_entry : ObjectKey → Option Entry → System → System
set_entry k e s = record s { entries = λ j. if key_eq k j then e else s.entries j }

abbrev pub set_running : ℕ → Option Collector → System → System
set_running i g s = record s { running = λ j. if i == j then g else s.running j }

-- `Init`, and the goroutine that is started for the entry.
abbrev pub init_entry : ObjectKey → System → System
init_entry k s =
    record (set_running s.next (some (record { key = k; cancelled = false }))
      (set_entry k (some (record { owner = s.next; coll = [] })) s)) { next = suc s.next }

-- The call of an entry's `cancel`.
abbrev pub cancel : ℕ → System → System
cancel i s = elim (s.running i) [
  | none ↦ s
  | some g ↦ set_running i (some (record g { cancelled = true })) s
]

-- `Del`.
abbrev pub delete_entry : ObjectKey → System → System
delete_entry k s = elim (s.entries k) [ none ↦ s | some e ↦ set_entry k none (cancel e.owner s) ]

-- `Update`, of a poll, of `Invalidate` or through the array that `Collect` shares.
abbrev pub update_entry : ObjectKey → StatusCollection → System → System
update_entry k coll s = elim (s.entries k) [
  | none ↦ s
  | some e ↦ set_entry k (some (record e { coll = coll })) s
]

-- A collector after the cancellation of the entry that its key has.
abbrev pub cancel_owned : Option Entry → ℕ → Collector → Collector
cancel_owned none i g = g
cancel_owned (some e) i g = if e.owner == i then record g { cancelled = true } else g

abbrev pub cancel_running : (ObjectKey → Option Entry) → ℕ → Option Collector → Option Collector
cancel_running entries i none = none
cancel_running entries i (some g) = some (cancel_owned (entries g.key) i g)

-- `DelAll`: each entry is the one that its collector's key has.
abbrev pub delete_all : System → System
delete_all s = record s {
  entries = λ k. none;
  running = λ i. cancel_running s.entries i (s.running i);
}

-- The end of a collector: its deferred `Del`, and the goroutine is gone.
abbrev pub stop_collector : ℕ → ObjectKey → System → System
stop_collector i k s = set_running i none (delete_entry k s)

-- The steps. `select` may still take a tick after the cancellation.
pub data Step : System → System → Type 0 where
  start : (s : System) (k : ObjectKey) → s.entries k ≡ none → Step s (init_entry k s)
  gone : (s : System) (k : ObjectKey) → Step s (delete_entry k s)
  poll :
      (s : System) (i : ℕ) (g : Collector) (coll : StatusCollection)
      → s.running i ≡ some g
      → Step s (update_entry g.key coll s)
  write : (s : System) (k : ObjectKey) (coll : StatusCollection) → Step s (update_entry k coll s)
  stop :
      (s : System) (i : ℕ) (g : Collector)
      → s.running i ≡ some g
      → g.cancelled ≡ true
      → Step s (stop_collector i g.key s)
  close : (s : System) → Step s (delete_all s)

pub data Reach (s : System) : System → Type 0 where
  here : Reach s s
  later : {t u : System} → Reach s t → Step t u → Reach s u

abbrev pub empty : System
empty = record { entries = λ k. none; running = λ i. none; next = 0 }
