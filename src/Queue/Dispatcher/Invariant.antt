-- ===== src/Queue/Dispatcher/Invariant.antt =====
-- What holds of the queue at every wait of its goroutine, whatever the handlers did meanwhile.
use kaos_control.Common.{
  ℕ, String, Bool, true, false, not, leb, ◌≡◌, refl, sym, subst, inl, inr, [], ◌∷◌, arith, str_eq,
  str_eq_iff, Bool-cases, Option-cases, Option, none, some, Result, ok, err, ◌&&◌,
}
use kaos_control.Queue.{JobState, is_terminal, Job}
use kaos_control.Queue.Store.{
  Rows, StoreError, is_running, is_active, has_id, has_active, update, enqueue_direct, head_pending,
  started, ended, mark_terminal, get_by_id,
}
use kaos_control.Queue.Store.Active.{
  Inv, Apart, enqueue_direct-Inv, mark_terminal-Inv, has_active-update, ended-CalmAt,
}
use kaos_control.Queue.Dispatcher.{
  Config, Dispatcher, ProjectLookup, ResetParser, RunResult, broadcast, check_paused, mark, settle,
  gate, admit, begin_next, retry_added, max_attempts, retry_of, requeue, handle_rate_limit,
  handle_auth_error, completed, rate_limit, auth_error, failed, finish, with_rows, pause_until,
  skip_reason,
}
use kaos_control.Queue.Dispatcher.Steps.{process_unless, tick}
use kaos_control.Queue.Dispatcher.Single.{
  NoRunning, Holds, Holds-has_id, started-Holds, started-Inv, dequeue-some, dequeue-none,
  enqueue_direct_rows, NoRunning-append, ended-NoRunning,
}

-- A job that is not running may be queued for its artifact.
pub record Quiet (rows : Rows) : Type 0 where
  pub inv : Inv rows
  pub none_running : NoRunning rows

pub record Busy (j : Job) (rows : Rows) : Type 0 where
  pub inv : Inv rows
  pub holds : Holds j rows

pub mark_rows :
    (id : String) (state : JobState) (reason : String) (now : ℕ) (d : Dispatcher)
    → has_id id d.rows ≡ true
    → is_terminal state ≡ true
    → (mark_terminal id state reason now d.rows ≡ ok (update id (ended state reason now) d.rows))
      × ((mark id state reason now d).rows ≡ update id (ended state reason now) d.rows)
unfolding mark mark_terminal
mark_rows id state reason now d h t = (ground arith, ground arith)

pub settle-Quiet :
    (j : Job) (state : JobState) (reason status : String) (now : ℕ) (d : Dispatcher)
    → is_terminal state ≡ true
    → Busy j d.rows
    → Quiet (settle j state reason status now d).rows
unfolding settle
settle-Quiet j state reason status now d t b =
    let (marked, after) = mark_rows j.id state reason now d (Holds-has_id d.rows b.holds) t in
    subst Quiet (sym after) (record {
      inv = mark_terminal-Inv j.id state reason now b.inv marked;
      none_running = ended-NoRunning state reason now d.rows t b.holds;
    })

ended-inactive : (state : JobState) → is_terminal state ≡ true → is_active state ≡ false
unfolding is_terminal
ended-inactive state t = ground arith

running-active : (state : JobState) → is_running state ≡ true → is_active state ≡ true
running-active state t = ground arith

active_in :
    (x : String) (j : Job) (rows : Rows)
    → get_by_id x rows ≡ some j
    → is_active j.state ≡ true
    → has_active j.project j.artifact_path rows ≡ true
unfolding get_by_id has_active
active_in x j [] h live = cc
active_in x j (k ∷ rows) h live = elim (Bool-cases (str_eq k.id x)) [
  | inl e ↦ rw (row_is k j (rw e at h)) (
      ground
        (arith, live, str_eq_iff j.project j.project, str_eq_iff j.artifact_path j.artifact_path))
  | inr e ↦ ground (arith, active_in x j rows (rw e at h) live)
]
  where
    row_is : (k j : Job) → some k ≡ some j → k ≡ j
    row_is k j e = cc

-- In a table where active rows are apart, ending one frees its artifact.
free_after_end :
    (j : Job) (state : JobState) (reason : String) (now : ℕ) (rows : Rows)
    → is_terminal state ≡ true
    → Apart rows
    → get_by_id j.id rows ≡ some j
    → is_active j.state ≡ true
    → has_active j.project j.artifact_path (update j.id (ended state reason now) rows) ≡ false
unfolding get_by_id has_active update
free_after_end j state reason now [] t a h live = refl
free_after_end j state reason now (k ∷ rows) t a h live = elim (Bool-cases (str_eq k.id j.id)) [
  | inl e ↦
      rw (e, ended-inactive state t)
        (ground (
          arith,
          has_active-update j.project j.artifact_path j.id (ended state reason now) rows
              (ended-CalmAt j.id state reason now rows t)
              (subst (λ x. has_active x.project x.artifact_path rows ≡ false)
                (row_is k j (rw e at h))
                (a.0 (subst (λ x. is_active x.state ≡ true) (sym (row_is k j (rw e at h))) live))),
        ))
  | inr e ↦ rw e (
      ground (
        arith,
        free_after_end j state reason now rows t a.1 (rw e at h) live,
        active_in j.id j rows (rw e at h) live,
        str_eq_iff k.project j.project,
        str_eq_iff k.artifact_path j.artifact_path,
        a.0,
      ))
]
  where
    row_is : (k j : Job) → some k ≡ some j → k ≡ j
    row_is k j e = cc

requeue-Quiet :
    (cfg : Config) (j : Job) (now : ℕ) (fresh why : String) (d : Dispatcher)
    → has_active j.project j.artifact_path d.rows ≡ false
    → Quiet d.rows
    → Quiet (requeue cfg j now fresh why d).rows
unfolding requeue
requeue-Quiet cfg j now fresh why d free q = elim (Bool-cases (leb (max_attempts cfg) j.attempts)) [
  | inl over ↦ rw over q
  | inr more ↦ rw more (inserted (enqueue_direct fresh now again d.rows) refl)
]
  where
    again : Job
    again = retry_of j fresh now d.rows

    inserted :
        (r : Result StoreError Rows)
        → enqueue_direct fresh now again d.rows ≡ r
        → Quiet
            (elim r as (λ _. Dispatcher) [
              | ok rows ↦
                  broadcast
                    (retry_added again.id again.position again.attempts why)
                    (record d { rows = rows })
              | err e ↦ d
            ]).rows
    inserted (err e) h = q
    inserted (ok rows) h =
        let (grown, resting) = enqueue_direct_rows fresh now again d.rows rows h in
        record {
          inv = enqueue_direct-Inv fresh now again q.inv free h;
          none_running =
              subst NoRunning (sym grown) (NoRunning-append d.rows _ resting q.none_running);
        }

-- MarkTerminal of the running job, then the retry.
retry-Quiet :
    (cfg : Config) (j : Job) (reason : String) (now : ℕ) (fresh why : String) (d : Dispatcher)
    → Busy j d.rows
    → Quiet (requeue cfg j now fresh why (mark j.id JobState.failed reason now d)).rows
unfolding is_terminal
retry-Quiet cfg j reason now fresh why d b =
    let (marked, after) =
      mark_rows j.id JobState.failed reason now d (Holds-has_id d.rows b.holds) refl in
    requeue-Quiet cfg j now fresh why (mark j.id JobState.failed reason now d)
      (rw after (
        free_after_end j JobState.failed reason now d.rows refl b.inv.apart b.holds.row
          (running-active j.state b.holds.live)))
      (subst Quiet (sym after) (record {
        inv = mark_terminal-Inv j.id JobState.failed reason now b.inv marked;
        none_running = ended-NoRunning JobState.failed reason now d.rows refl b.holds;
      }))

-- However the run ends, the dispatcher is left with a sound table and no running row.
pub finish-Quiet :
    (parse : ResetParser) (cfg : Config) (r : RunResult) (j : Job) (now : ℕ) (fresh : String)
    (d : Dispatcher)
    → Busy j d.rows
    → Quiet (finish parse cfg r j now fresh d).rows
unfolding finish handle_rate_limit handle_auth_error pause_until is_terminal
finish-Quiet parse cfg completed j now fresh d b =
    settle-Quiet j JobState.completed "" "completed" now d refl b
finish-Quiet parse cfg (rate_limit raw kind at) j now fresh d b =
    retry-Quiet cfg j "rate_limit" now fresh "rate_limit_retry" d b
finish-Quiet parse cfg auth_error j now fresh d b =
    retry-Quiet cfg j "auth_error" now fresh "auth_error_retry" d b
finish-Quiet parse cfg RunResult.cancelled j now fresh d b =
    settle-Quiet j JobState.failed "cancelled" "failed" now d refl b
finish-Quiet parse cfg (failed reason) j now fresh d b =
    settle-Quiet j JobState.failed reason "failed" now d refl b

-- The gate either ends the job or hands it on.
abbrev pub Passed : Option Job → Rows → Type 0
Passed none rows = Quiet rows
Passed (some j) rows = Busy j rows

gate-Passed :
    (status : String) (j : Job) (now : ℕ) (d : Dispatcher)
    → Busy j d.rows
    → Passed (gate status j now d).1 (gate status j now d).0.rows
unfolding gate is_terminal
gate-Passed status j now d b =
    elim (Bool-cases (not (str_eq status "approved") && leb j.attempts 1)) [
      | inl e ↦ rw e (settle-Quiet j JobState.skipped (skip_reason status) "skipped" now d refl b)
      | inr e ↦ rw e b
    ]

admit-Passed :
    (lookup : ProjectLookup) (j : Job) (now : ℕ) (d : Dispatcher)
    → Busy j d.rows
    → Passed (admit lookup j now d).1 (admit lookup j now d).0.rows
unfolding admit is_terminal
admit-Passed lookup j now d b = elim (Option-cases (lookup j.project)) [
  | inl e ↦ rw (e, admit) (settle-Quiet j JobState.failed "project_not_found" "failed" now d refl b)
  | inr (f, e) ↦ rw (e, admit) (gate-Passed (f j.artifact_path) j now d b)
]

begin_next-Passed :
    (lookup : ProjectLookup) (now : ℕ) (d : Dispatcher)
    → Quiet d.rows
    → Passed (begin_next lookup now d).1 (begin_next lookup now d).0.rows
unfolding begin_next
begin_next-Passed lookup now d q = elim (Option-cases (head_pending d.rows)) [
  | inl e ↦ rw (dequeue-none now d.rows e) q
  | inr (k, e) ↦ rw (dequeue-some now d.rows k e) (
      admit-Passed lookup (started now k) now (with_rows (update k.id (started now) d.rows) d)
        (record {
          inv = started-Inv now d.rows k q.inv e;
          holds = started-Holds now d.rows k q.inv q.none_running e;
        }))
]

process_unless-Passed :
    (is_paused : Bool) (lookup : ProjectLookup) (now : ℕ) (d : Dispatcher)
    → Quiet d.rows
    → Passed
        (process_unless is_paused lookup now d).1
        (process_unless is_paused lookup now d).0.rows
process_unless-Passed true lookup now d q = q
process_unless-Passed false lookup now d q = begin_next-Passed lookup now d q

rows-check_paused : (now : ℕ) (d : Dispatcher) → (check_paused now d).0.rows ≡ d.rows
unfolding check_paused
rows-check_paused now d = ground arith

pub tick-Passed :
    (lookup : ProjectLookup) (now : ℕ) (d : Dispatcher)
    → Quiet d.rows
    → Passed (tick lookup now d).1 (tick lookup now d).0.rows
unfolding tick
tick-Passed lookup now d q =
    process_unless-Passed (check_paused now d).1 lookup now (check_paused now d).0
      (subst Quiet (sym (rows-check_paused now d)) q)
