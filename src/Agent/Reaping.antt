-- ===== src/Agent/Reaping.antt =====
-- A run that lasts five minutes loses its lock: StartRun and supervise never send a heartbeat.
use kaos_control.Common.{
  ℕ, ◌+◌, ◌≤◌, ◌<◌, ◌≡◌, ◌∙◌, refl, ap, String, true, false, ltb, Option, none, some, [], ◌∷◌, ◌++◌,
  str_eq_refl, ok, arith,
}
use kaos_control.Workflow as W
use kaos_control.Locks.{Locks, LockRow, get_lock, acquire_lock, reap_locks, reap_age}
use kaos_control.Locks.Table.{OneEach, locks_refine, get_lock-release}
use kaos_control.Agent.{
  is_test_in_qa, Target, AgentConfig, ActiveRun, Manager, lineage_of, refuses, start_checks,
  start_claim, start_locked, start_process, start_run, finish_run,
}
use kaos_control.Agent.Exclusion.{with_locks}

reaped :
    (now : ℕ) (l : String) (locks : Locks) (row : LockRow)
    → OneEach locks
    → get_lock l locks ≡ some row
    → row.last_heartbeat + reap_age ≤ now
    → get_lock l (reap_locks now reap_age locks) ≡ none
reaped now l locks row o e h =
    ap (λ f. f l) ((locks_refine locks o).reap now reap_age) ∙ ground (arith, e)

-- A run `r` whose lock saw no heartbeat for five minutes: after one round of the reaper, a second run
-- can be started on its lineage and both are active, and when `r` ends it releases the second run's lock.
pub reaped_run_shares :
    (wf : Option W.Engine) (ag : AgentConfig) (now : ℕ) (id path status : String)
    (target : Option Target) (m : Manager) (r : ActiveRun) (row : LockRow)
    → OneEach m.locks
    → get_lock r.lineage m.locks ≡ some row
    → row.last_heartbeat + reap_age ≤ now
    → lineage_of path target ≡ r.lineage
    → is_test_in_qa target ≡ false
    → refuses wf ag path target ≡ false
    → ag.knows_driver ≡ true
    → m.sem < m.max_concurrent
    → let m' = with_locks (reap_locks now reap_age m.locks) m in
      let (m'', answer) =
        start_run wf ag (record { inserts = true; starts = true }) now id path target m' in
      (answer ≡ ok id)
      × (m''.active ≡ m.active ++ record { run_id = id; lineage = r.lineage } ∷ [])
      × (get_lock r.lineage (finish_run r status m'').locks ≡ none)
unfolding start_run start_checks start_claim start_locked start_process acquire_lock finish_run
reaped_run_shares wf ag now id path status target m r row o e h same t f d l =
    let gone = reaped now r.lineage m.locks row o e h in
    let slot : ltb m.sem m.max_concurrent ≡ true = ground arith in
    (
      rw
          (
            start_run, start_checks, t, same, gone, d, start_claim, slot, acquire_lock, same, gone,
            start_locked, f, start_process,
          )
          refl,
      rw
          (
            start_run, start_checks, t, same, gone, d, start_claim, slot, acquire_lock, same, gone,
            start_locked, f, start_process,
          )
          (ap (λ x. m.active ++ record { run_id = id; lineage = x } ∷ []) same),
      get_lock-release r.lineage r.lineage _ ∙ ground (arith, str_eq_refl r.lineage),
    )
