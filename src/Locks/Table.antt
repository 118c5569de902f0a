-- ===== src/Locks/Table.antt =====
-- The table as a map from lineages, and what the reaper does to it.
use Prim.Native.String.{String}
use mathlib.Core.Path.{fun_ext}
use kaos_control.Common.{
  ltb, ◌+◌, ℕ, ◌≡◌, ◌∙◌, refl, false, Option, none, some, List, [], ◌∷◌, ◌++◌, str_eq, str_eq_iff,
  if◌then◌else◌, ok, err, Bool-cases, Option-cases, inl, inr, arith, has, subst,
}
use kaos_control.Locks.{
  LockRow, Locks, locked, get_lock, new_row, acquire_lock, release_lock, heartbeat_lock,
  stale_lineages, release_all, reap_locks,
}

-- No two rows have one lineage.
unfoldable pub OneEach : Locks → Type 0
OneEach [] = Unit
OneEach (r ∷ rows) = (get_lock r.lineage rows ≡ none) × OneEach rows

-- A lock table as its users see it.
abbrev pub View : Type 0
View = String → Option LockRow

abbrev pub view : Locks → View
view rows l = get_lock l rows

abbrev pub set : String → Option LockRow → View → View
set lineage o f l = if str_eq lineage l then o else f l

abbrev pub touched : ℕ → Option LockRow → Option LockRow
touched now none = none
touched now (some r) = some (record r { last_heartbeat = now })

abbrev pub kept : ℕ → ℕ → Option LockRow → Option LockRow
kept now age none = none
kept now age (some r) = if ltb now (r.last_heartbeat + age) then some r else none

pub get_lock-append :
    (l : String) (rows : Locks) (r : LockRow)
    → get_lock r.lineage rows ≡ none
    → get_lock l (rows ++ r ∷ []) ≡ set r.lineage (some r) (view rows) l
unfolding get_lock
get_lock-append l [] r h = refl
get_lock-append l (q ∷ rows) r h = ground (
  arith,
  get_lock-append l rows r,
  str_eq_iff q.lineage l,
  str_eq_iff q.lineage r.lineage,
  str_eq_iff r.lineage l,
)

pub get_lock-release :
    (l k : String) (rows : Locks) → get_lock l (release_lock k rows) ≡ set k none (view rows) l
unfolding get_lock release_lock
get_lock-release l k [] = ground arith
get_lock-release l k (r ∷ rows) = ground (
  arith,
  get_lock-release l k rows,
  str_eq_iff r.lineage k,
  str_eq_iff r.lineage l,
  str_eq_iff k l,
)

pub get_lock-heartbeat :
    (now : ℕ) (l k : String) (rows : Locks)
    → get_lock l (heartbeat_lock now k rows) ≡ set k (touched now (view rows k)) (view rows) l
unfolding get_lock heartbeat_lock
get_lock-heartbeat now l k [] = ground arith
get_lock-heartbeat now l k (r ∷ rows) = ground (
  arith,
  get_lock-heartbeat now l k rows,
  str_eq_iff r.lineage k,
  str_eq_iff r.lineage l,
  str_eq_iff k l,
)

get_lock-release_all :
    (l : String) (ls : List String) (rows : Locks)
    → get_lock l (release_all ls rows) ≡ (if has l ls then none else get_lock l rows)
unfolding release_all has
get_lock-release_all l [] rows = refl
get_lock-release_all l (k ∷ ls) rows =
    ground (arith, get_lock-release_all l ls (release_lock k rows), get_lock-release l k rows)

stale_lineages_of_none :
    (now age : ℕ) (l : String) (rows : Locks)
    → get_lock l rows ≡ none
    → has l (stale_lineages now age rows) ≡ false
unfolding has stale_lineages get_lock
stale_lineages_of_none now age l [] h = refl
stale_lineages_of_none now age l (r ∷ rows) h =
    ground (arith, stale_lineages_of_none now age l rows)

has-stale_lineages :
    (now age : ℕ) (l : String) (rows : Locks)
    → OneEach rows
    → (if has l (stale_lineages now age rows) then none else get_lock l rows)
      ≡ kept now age (get_lock l rows)
unfolding has stale_lineages get_lock OneEach
has-stale_lineages now age l [] o = refl
has-stale_lineages now age l (r ∷ rows) o = ground (
  arith,
  has-stale_lineages now age l rows o.1,
  stale_lineages_of_none now age r.lineage rows o.0,
  str_eq_iff r.lineage l,
)

append-OneEach :
    (r : LockRow) (rows : Locks)
    → OneEach rows
    → get_lock r.lineage rows ≡ none
    → OneEach (rows ++ r ∷ [])
unfolding OneEach get_lock
append-OneEach r [] o n = (refl, tt)
append-OneEach r (q ∷ rows) o n = (
  ground (
    arith,
    get_lock-append q.lineage rows r,
    o.0,
    str_eq_iff r.lineage q.lineage,
    str_eq_iff q.lineage r.lineage,
  ),
  append-OneEach r rows o.1 (ground arith),
)

acquire_lock-OneEach :
    (now : ℕ) (l h k : String) (rows rows' : Locks)
    → OneEach rows
    → acquire_lock now l h k rows ≡ ok rows'
    → OneEach rows'
unfolding acquire_lock
acquire_lock-OneEach now l h k rows rows' o e = elim (Option-cases (get_lock l rows)) [
  | inl n ↦ subst OneEach (ground arith) (append-OneEach (new_row now l h k) rows o n)
  | inr (r, n) ↦ ground arith
]

release_lock-OneEach : (k : String) (rows : Locks) → OneEach rows → OneEach (release_lock k rows)
unfolding release_lock OneEach
release_lock-OneEach k [] o = tt
release_lock-OneEach k (r ∷ rows) o = elim (Bool-cases (str_eq r.lineage k)) [
  | inl e ↦ rw e (release_lock-OneEach k rows o.1)
  | inr e ↦
      rw e (ground (arith, get_lock-release r.lineage k rows, o.0), release_lock-OneEach k rows o.1)
]

heartbeat_lock-OneEach :
    (now : ℕ) (k : String) (rows : Locks) → OneEach rows → OneEach (heartbeat_lock now k rows)
unfolding heartbeat_lock OneEach
heartbeat_lock-OneEach now k [] o = tt
heartbeat_lock-OneEach now k (r ∷ rows) o = elim (Bool-cases (str_eq r.lineage k)) [
  | inl e ↦ rw e (
    ground (arith, get_lock-heartbeat now r.lineage k rows, o.0, str_eq_iff r.lineage k),
    heartbeat_lock-OneEach now k rows o.1,
  )
  | inr e ↦ rw e (
    ground (
      arith,
      get_lock-heartbeat now r.lineage k rows,
      o.0,
      str_eq_iff k r.lineage,
      str_eq_iff r.lineage k,
    ),
    heartbeat_lock-OneEach now k rows o.1,
  )
]

release_all-OneEach :
    (ls : List String) (rows : Locks) → OneEach rows → OneEach (release_all ls rows)
unfolding release_all
release_all-OneEach [] rows o = o
release_all-OneEach (l ∷ ls) rows o =
    release_all-OneEach ls (release_lock l rows) (release_lock-OneEach l rows o)

-- What each operation does to the view, and that each keeps one row for a lineage.
pub record Refines (rows : Locks) : Type 0 where
  pub acquire_free :
      (now : ℕ) (l h k : String)
      → view rows l ≡ none
      → (rows' : Locks) × (acquire_lock now l h k rows ≡ ok rows')
        × OneEach rows'
        × (view rows' ≡ set l (some (new_row now l h k)) (view rows))
  pub acquire_held :
      (now : ℕ) (l h k : String) (r : LockRow)
      → view rows l ≡ some r
      → acquire_lock now l h k rows ≡ err locked
  pub release : (l : String) → view (release_lock l rows) ≡ set l none (view rows)
  pub heartbeat :
      (now : ℕ) (l : String)
      → view (heartbeat_lock now l rows) ≡ set l (touched now (view rows l)) (view rows)
  pub reap : (now age : ℕ) → view (reap_locks now age rows) ≡ (λ l. kept now age (view rows l))
  pub stays_valid :
      (now age : ℕ) (l : String)
      → OneEach (release_lock l rows)
        × OneEach (heartbeat_lock now l rows)
        × OneEach (reap_locks now age rows)

-- The statements on the lock table implement a map from lineages to locks: acquiring sets a free
-- lineage and refuses a held one, releasing and heartbeats change that lineage only, and the reaper
-- removes exactly the locks whose heartbeat lies `age` or more before `now`; each keeps one row for a lineage.
pub locks_refine : (rows : Locks) → OneEach rows → Refines rows
unfolding acquire_lock reap_locks
locks_refine rows o = record {
  acquire_free = λ now l h k n. (
    rows ++ new_row now l h k ∷ [],
    rw (n, acquire_lock) refl,
    append-OneEach (new_row now l h k) rows o n,
    fun_ext λ q. get_lock-append q rows (new_row now l h k) n,
  );
  acquire_held = λ now l h k r e. rw (e, acquire_lock) refl;
  release = λ l. fun_ext λ q. get_lock-release q l rows;
  heartbeat = λ now l. fun_ext λ q. get_lock-heartbeat now q l rows;
  reap = λ now age. fun_ext λ q.
      get_lock-release_all q (stale_lineages now age rows) rows
      ∙ has-stale_lineages now age q rows o;
  stays_valid = λ now age l. (
    release_lock-OneEach l rows o,
    heartbeat_lock-OneEach now l rows o,
    release_all-OneEach (stale_lineages now age rows) rows o,
  );
}
