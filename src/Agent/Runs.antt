-- ===== src/Agent/Runs.antt =====
-- What the runs hold: the error paths of StartRun, the exclusion of runs by the lineage lock, and what
-- the reaper does to it.
use kaos_control.Common.{
  ℕ, suc, ◌<◌, ◌≡◌, refl, String, ltb, Option, none, some, List, [], ◌∷◌, ◌++◌, str_eq_refl, Result,
  ok, err, Bool-cases, Option-cases, inl, inr, arith,
}
use kaos_control.Workflow as W
use kaos_control.Locks.{Locks, LockRow, new_row, get_lock, acquire_lock, release_lock}
use kaos_control.Locks.Table.{view, set, get_lock-append}
use kaos_control.Agent.{
  is_test_in_qa, Target, AgentConfig, RunRow, Manager, StartError, lineage_of, start_checks,
  give_back, fail_row, refuses, Answers, with_active, start_process, with_row, start_locked,
  start_claim, start_run,
}

release_lock-append :
    (rows : Locks) (r : LockRow)
    → get_lock r.lineage rows ≡ none
    → release_lock r.lineage (rows ++ r ∷ []) ≡ rows
unfolding release_lock get_lock
release_lock-append [] r n = ground (arith, str_eq_refl r.lineage)
release_lock-append (q ∷ rows) r n = ground (arith, release_lock-append rows r)

-- What a refused start leaves as it was.
pub record IsUntouched (m m' : Manager) : Type 0 where
  pub same_locks : m'.locks ≡ m.locks
  pub same_sem : m'.sem ≡ m.sem
  pub same_active : m'.active ≡ m.active
  pub same_max : m'.max_concurrent ≡ m.max_concurrent

-- What a started run holds.
pub record IsStarted (m m' : Manager) (id lineage : String) : Type 0 where
  pub was_free : get_lock lineage m.locks ≡ none
  pub row : LockRow
  pub its_lineage : row.lineage ≡ lineage
  pub its_holder : row.holder ≡ id
  pub its_kind : row.kind ≡ "agent"
  pub lock_view : (l : String) → get_lock l m'.locks ≡ set lineage (some row) (view m.locks) l
  pub its_slot : m'.sem ≡ suc m.sem
  pub had_slot : m.sem < m.max_concurrent
  pub same_max : m'.max_concurrent ≡ m.max_concurrent
  pub its_entry : m'.active ≡ m.active ++ record { run_id = id; lineage = lineage } ∷ []

abbrev pub IsAnswer : Manager → String → String → Manager × Result StartError String → Type 0
IsAnswer m id lineage (m', ok x) = (x ≡ id) × IsStarted m m' id lineage
IsAnswer m id lineage (m', err e) = IsUntouched m m'

-- From the lock on: `m` is the manager before, `m1` holds the lock and the slot.
module _ (m : Manager) (now : ℕ) (id lineage : String)
    (free : get_lock lineage m.locks ≡ none) where
  abbrev held : Locks
  held = m.locks ++ new_row now lineage id "agent" ∷ []

  abbrev claimed : Manager
  claimed = record m { locks = held; sem = suc m.sem }

  given_back : release_lock lineage held ≡ m.locks
  given_back = release_lock-append m.locks (new_row now lineage id "agent") free

  started :
      (p : List String) (rows : List RunRow)
      → m.sem < m.max_concurrent
      → IsStarted m
          (with_active id lineage (record claimed { policies = p; rows = rows }))
          id
          lineage
  started p rows l = record {
    was_free = free;
    row = new_row now lineage id "agent";
    its_lineage = refl;
    its_holder = refl;
    its_kind = refl;
    lock_view = λ q. get_lock-append q m.locks (new_row now lineage id "agent") free;
    its_slot = refl;
    had_slot = l;
    same_max = refl;
    its_entry = refl;
  }

  start_process-IsAnswer :
      (ag : AgentConfig) (a : Answers)
      → m.sem < m.max_concurrent
      → IsAnswer m id lineage (start_process ag a id lineage (with_row id claimed))
  unfolding start_process give_back fail_row
  start_process-IsAnswer ag a l = elim (Bool-cases a.starts) [
    | inl s ↦ rw (s, start_process) (refl, started _ _ l)
    | inr s ↦
        rw (s, start_process)
          (record {
            same_locks = given_back;
            same_sem = omega arith;
            same_active = refl;
            same_max = refl;
          })
  ]

  start_locked-IsAnswer :
      (wf : Option W.Engine) (ag : AgentConfig) (a : Answers) (path : String)
      (target : Option Target)
      → m.sem < m.max_concurrent
      → IsAnswer m id lineage (start_locked wf ag a id path target lineage claimed)
  unfolding start_locked give_back fail_row
  start_locked-IsAnswer wf ag a path target l = elim (Bool-cases a.inserts) [
    | inr i ↦
        rw (i, start_locked)
          (record {
            same_locks = given_back;
            same_sem = omega arith;
            same_active = refl;
            same_max = refl;
          })
    | inl i ↦ elim (Bool-cases (refuses wf ag path target)) [
      | inl r ↦
          rw (i, r, start_locked)
            (record {
              same_locks = given_back;
              same_sem = omega arith;
              same_active = refl;
              same_max = refl;
            })
      | inr r ↦ rw (i, r, start_locked) (start_process-IsAnswer ag a l)
    ]
  ]

untouched : (m : Manager) → IsUntouched m m
untouched m = record { same_locks = refl; same_sem = refl; same_active = refl; same_max = refl }

start_claim-IsAnswer :
    (wf : Option W.Engine) (ag : AgentConfig) (a : Answers) (now : ℕ) (id path : String)
    (target : Option Target) (lineage : String) (m : Manager)
    → IsAnswer m id lineage (start_claim wf ag a now id path target lineage m)
unfolding start_claim acquire_lock
start_claim-IsAnswer wf ag a now id path target lineage m =
    elim (Bool-cases (ltb m.sem m.max_concurrent)) [
      | inr f ↦ rw (f, start_claim) (untouched m)
      | inl f ↦ elim (Option-cases (get_lock lineage m.locks)) [
        | inl n ↦
            rw (f, n, start_claim, acquire_lock)
              (start_locked-IsAnswer m now id lineage n wf ag a path target (ground arith))
        | inr (r, n) ↦ rw (f, n, start_claim, acquire_lock) (untouched m)
      ]
    ]

-- Of the lock manager's failures let the conflict be the only one; the policies are not looked at. However
-- StartRun ends: where it answers an error, the locks, the semaphore and the
-- active runs are as before; where it answers a run, the lineage was free and is now locked by
-- this run as an agent, every other lineage's lock is as before, one slot that was free is taken,
-- and the run is the one new active run.
pub start_run_lem :
    (wf : Option W.Engine) (ag : AgentConfig) (a : Answers) (now : ℕ) (id path : String)
    (target : Option Target) (m : Manager)
    → IsAnswer m id (lineage_of path target) (start_run wf ag a now id path target m)
unfolding start_run
start_run_lem wf ag a now id path target m = elim (Bool-cases (is_test_in_qa target)) [
  | inl t ↦ rw (start_run, start_checks, t) (untouched m)
  | inr t ↦ elim (Option-cases (get_lock (lineage_of path target) m.locks)) [
    | inr (r, n) ↦ rw (start_run, start_checks, t, n) (untouched m)
    | inl n ↦ elim (Bool-cases ag.knows_driver) [
      | inr d ↦ rw (start_run, start_checks, t, n, d) (untouched m)
      | inl d ↦
          rw (start_run, start_checks, t, n, d)
            (start_claim-IsAnswer wf ag a now id path target (lineage_of path target) m)
    ]
  ]
]
