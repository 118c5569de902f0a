-- ===== src/Locks.antt =====
-- internal/lock/lock.go and the lock statements of internal/index/index.go: the table lineage_locks, whose
-- key is the lineage. Times are Unix seconds. Of the database's errors only the key's is modelled.
pub mod Table
mod Examples
use kaos_control.Common.{
  ℕ, ◌+◌, String, Bool, true, false, leb, Option, none, some, List, [], ◌∷◌, ◌++◌, str_eq,
  if◌then◌else◌, Result, ok, err,
}

pub record LockRow : Type 0 where
  pub lineage : String
  pub holder : String
  pub kind : String
  pub acquired_at : ℕ
  pub last_heartbeat : ℕ

abbrev pub Locks : Type 0
Locks = List LockRow

pub data LockError : Type 0 where
  locked : LockError

-- GetLock
unfoldable pub get_lock : String → Locks → Option LockRow
get_lock lineage [] = none
get_lock lineage (r ∷ rows) = if str_eq r.lineage lineage then some r else get_lock lineage rows

abbrev pub new_row : ℕ → String → String → String → LockRow
new_row now lineage holder kind = record {
  lineage = lineage;
  holder = holder;
  kind = kind;
  acquired_at = now;
  last_heartbeat = now;
}

-- AcquireLock, and with it Manager.Acquire
unfoldable pub acquire_lock : ℕ → String → String → String → Locks → Result LockError Locks
acquire_lock now lineage holder kind rows = elim (get_lock lineage rows) [
  | none ↦ ok (rows ++ new_row now lineage holder kind ∷ [])
  | some r ↦ err locked
]

-- ReleaseLock, and with it Manager.Release
unfoldable pub release_lock : String → Locks → Locks
release_lock lineage [] = []
release_lock lineage (r ∷ rows) =
    let rest = release_lock lineage rows in if str_eq r.lineage lineage then rest else r ∷ rest

-- HeartbeatLock
unfoldable pub heartbeat_lock : ℕ → String → Locks → Locks
heartbeat_lock now lineage [] = []
heartbeat_lock now lineage (r ∷ rows) =
    (if str_eq r.lineage lineage then record r { last_heartbeat = now } else r)
    ∷ heartbeat_lock now lineage rows

-- `last_heartbeat <= cutoff`, where the cutoff is `now - max_age`
abbrev pub is_stale : ℕ → ℕ → LockRow → Bool
is_stale now max_age r = leb (r.last_heartbeat + max_age) now

-- The SELECT of ReapLocks
unfoldable pub stale_lineages : ℕ → ℕ → Locks → List String
stale_lineages now max_age [] = []
stale_lineages now max_age (r ∷ rows) =
    let rest = stale_lineages now max_age rows in
    if is_stale now max_age r then r.lineage ∷ rest else rest

-- Its DELETEs
unfoldable pub release_all : List String → Locks → Locks
release_all [] rows = rows
release_all (l ∷ lineages) rows = release_all lineages (release_lock l rows)

-- ReapLocks, and with it Manager.reap
unfoldable pub reap_locks : ℕ → ℕ → Locks → Locks
unfolding stale_lineages release_all
reap_locks now max_age rows = release_all (stale_lineages now max_age rows) rows

-- Five minutes
abbrev pub reap_age : ℕ
reap_age = 300
