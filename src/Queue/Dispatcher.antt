-- ===== src/Queue/Dispatcher.antt =====
-- internal/queue/dispatcher.go: the queue worker, its pause states and its retries.
-- processNext is cut where it waits: at the call of StartRun and at the end of the run. ParseResetTime
-- is a parameter, `parse`, and so are the project lookups and the ids that newID draws.
pub mod Watch
pub mod Steps
pub mod Single
pub mod Invariant
pub mod Sound
pub mod Retry
pub mod Pauses
pub mod Race
use Prim.Native.String.{◌++◌ as append}
use kaos_control.Common.{
  ℕ, zero, suc, ◌+◌, ℤ, pos, ◌-ℤ◌, String, Bool, true, false, not, ◌&&◌, ◌==◌, ltb, leb, Option,
  none, some, List, [], ◌∷◌, ◌++◌, str_eq, if◌then◌else◌, Result, ok, err,
}
use kaos_control.Queue.{JobState, Job}
use kaos_control.Queue.Store.{
  Rows, StoreError, PauseState, no_pause, min_position, enqueue, enqueue_direct, dequeue,
  mark_terminal, get_by_id, find_active_by_path, cancel, recover_orphans, list_by_state,
  list_recent, is_pending, is_running,
}

-- Durations are in seconds; 0 is an unset (or negative) field.
pub record Config : Type 0 where
  pub fallback_pause : ℕ
  pub overload_pause : ℕ
  pub resume_grace : ℕ
  pub max_attempts : ℕ

unfoldable pub or_default : ℕ → ℕ → ℕ
or_default n d = if ltb 0 n then n else d

unfoldable pub max_attempts : Config → ℕ
unfolding or_default
max_attempts c = or_default c.max_attempts 5

unfoldable pub fallback_pause : Config → ℕ
unfolding or_default
fallback_pause c = or_default c.fallback_pause 1800

unfoldable pub overload_pause : Config → ℕ
unfolding or_default
overload_pause c = or_default c.overload_pause 300

unfoldable pub resume_grace : Config → ℕ
unfolding or_default
resume_grace c = or_default c.resume_grace 300

-- What the dispatcher broadcasts on the app-level hub.
pub data Event : Type 0 where
  job_event : String → Job → String → Event
  added : Job → Event
  retry_added : String → ℤ → ℕ → String → Event
  gave_up : String → Event
  manual_paused : String → Event
  limit_paused : ℕ → ℕ → String → Event
  resumed : Bool → Event

-- The store, the fields behind the mutex, and the goroutines of `paused` that have yet to run.
pub record Dispatcher : Type 0 where
  pub rows : Rows
  pub saved : PauseState
  pub paused_until : ℕ
  pub manual_pause : Bool
  pub resuming : ℕ
  pub events : List Event

abbrev pub broadcast : Event → Dispatcher → Dispatcher
broadcast e d = record d { events = d.events ++ e ∷ [] }

-- A new dispatcher over an opened store.
unfoldable pub new : Rows → PauseState → Dispatcher
new rows saved = record {
  rows = rows;
  saved = saved;
  paused_until = 0;
  manual_pause = false;
  resuming = 0;
  events = [];
}

-- Start: restore the persisted pause.
unfoldable pub start : Dispatcher → Dispatcher
start d =
    if not d.saved.is_paused
    then d
    else if not (d.saved.until == 0)
    then record d { paused_until = d.saved.until }
    else record d { manual_pause = true }

unfoldable pub pause : String → Dispatcher → Dispatcher
pause reason d = broadcast (manual_paused reason) (record d {
  manual_pause = true;
  paused_until = 0;
  saved = record { is_paused = true; until = 0; why = reason };
})

unfoldable pub resume : Dispatcher → Dispatcher
resume d =
    broadcast (resumed false)
      (record d { manual_pause = false; paused_until = 0; saved = no_pause })

-- paused: the answer, and the state after it. The goroutine that it may start is counted.
unfoldable pub check_paused : ℕ → Dispatcher → Dispatcher × Bool
check_paused now d =
    if d.manual_pause
    then (d, true)
    else if d.paused_until == 0
    then (d, false)
    else if ltb now d.paused_until
    then (d, true)
    else (record d { paused_until = 0; resuming = suc d.resuming }, false)

abbrev pub auto_resume_saved : ℕ → Dispatcher → Dispatcher
auto_resume_saved n d = broadcast (resumed true) (record d { resuming = n; saved = no_pause })

-- One goroutine of `paused` runs.
unfoldable pub auto_resume : Dispatcher → Dispatcher
auto_resume d = elim d.resuming [ zero ↦ d | suc n ↦ auto_resume_saved n d ]

-- `_ = d.store.MarkTerminal(…)`
unfoldable pub mark : String → JobState → String → ℕ → Dispatcher → Dispatcher
mark id state reason now d = elim (mark_terminal id state reason now d.rows) [
  | ok rows ↦ record d { rows = rows }
  | err e ↦ d
]

-- MarkTerminal, then broadcastJobEvent("queue.finished", …).
unfoldable pub settle : Job → JobState → String → String → ℕ → Dispatcher → Dispatcher
unfolding mark
settle job state reason status now d =
    broadcast (job_event "queue.finished" job status) (mark job.id state reason now d)

unfoldable pub skip_reason : String → String
skip_reason status =
    if str_eq status "" then "artifact_not_found" else append "status_changed_to:" status

-- The status gate of processNext. The second part is the job to launch, if any.
unfoldable pub gate : String → Job → ℕ → Dispatcher → Dispatcher × Option Job
unfolding settle
gate status job now d =
    if not (str_eq status "approved") && leb job.attempts 1
    then (settle job JobState.skipped (skip_reason status) "skipped" now d, none)
    else (broadcast (job_event "queue.started" job "running") d, some job)

-- ProjectLookup, with ArtifactStatus of the project found.
abbrev pub ProjectLookup : Type 0
ProjectLookup = String → Option (String → String)

unfoldable pub admit : ProjectLookup → Job → ℕ → Dispatcher → Dispatcher × Option Job
unfolding gate
admit lookup job now d = elim (lookup job.project) [
  | none ↦ (settle job JobState.failed "project_not_found" "failed" now d, none)
  | some artifact_status ↦ gate (artifact_status job.artifact_path) job now d
]

abbrev pub with_rows : Rows → Dispatcher → Dispatcher
with_rows rows d = record d { rows = rows }

abbrev pub admit_if : ProjectLookup → Option Job → ℕ → Dispatcher → Dispatcher × Option Job
admit_if lookup none now d = (d, none)
admit_if lookup (some job) now d = admit lookup job now d

-- processNext up to the call of StartRun.
unfoldable pub begin_next : ProjectLookup → ℕ → Dispatcher → Dispatcher × Option Job
unfolding admit
begin_next lookup now d =
    let (o, rows) = dequeue now d.rows in admit_if lookup o now (with_rows rows d)

-- StartRun's answer: a run id or an error. The second part says whether the run is on.
unfoldable pub launch : Result String String → Job → ℕ → Dispatcher → Dispatcher × Bool
unfolding settle
launch (err e) job now d =
    (settle job JobState.failed (append "start_failed:" e) "failed" now d, false)
launch (ok run_id) job now d = (d, true)

-- runResult; the last case is the default of the switch.
pub data RunResult : Type 0 where
  completed : RunResult
  rate_limit : String → String → ℕ → RunResult
  auth_error : RunResult
  cancelled : RunResult
  failed : String → RunResult

-- The copy of the job that is queued again, at the head.
unfoldable pub retry_of : Job → String → ℕ → Rows → Job
retry_of job fresh now rows = record job {
  id = fresh;
  state = JobState.pending;
  attempts = suc job.attempts;
  position = min_position rows -ℤ pos 1;
  enqueued_at = now;
}

-- Step 2 of handleRateLimit and of handleAuthError.
unfoldable pub requeue : Config → Job → ℕ → String → String → Dispatcher → Dispatcher
unfolding retry_of
requeue cfg job now fresh why d =
    if leb (max_attempts cfg) job.attempts
    then broadcast (gave_up job.id) d
    else let again = retry_of job fresh now d.rows in
      elim (enqueue_direct fresh now again d.rows) [
        | ok rows ↦
            broadcast (retry_added again.id again.position again.attempts why)
              (record d { rows = rows })
        | err e ↦ d
      ]

abbrev pub ResetParser : Type 0
ResetParser = String → ℕ → Option ℕ

unfoldable pub reset_time : ResetParser → Config → String → String → ℕ → ℕ → ℕ
reset_time parse cfg raw kind resets_at now =
    if ltb 0 resets_at then resets_at else elim (parse raw now) [
      | some t ↦ t
      | none ↦ now + (if str_eq kind "overloaded" then overload_pause cfg else fallback_pause cfg)
    ]

-- Step 3 of handleRateLimit.
unfoldable pub pause_until : ℕ → ℕ → String → Dispatcher → Dispatcher
pause_until until reset raw d = broadcast (limit_paused until reset raw) (record d {
  saved = record { is_paused = true; until = until; why = "rate_limit" };
  paused_until = until;
})

unfoldable pub handle_rate_limit :
    ResetParser → Config → Job → String → String → ℕ → ℕ → String → Dispatcher → Dispatcher
unfolding mark requeue reset_time pause_until
handle_rate_limit parse cfg job raw kind resets_at now fresh d =
    let reset = reset_time parse cfg raw kind resets_at now in
    pause_until (reset + resume_grace cfg) reset raw (
      requeue cfg job now fresh "rate_limit_retry" (mark job.id JobState.failed "rate_limit" now d))

unfoldable pub handle_auth_error : Config → Job → ℕ → String → Dispatcher → Dispatcher
unfolding mark requeue
handle_auth_error cfg job now fresh d =
    broadcast (job_event "queue.finished" job "failed") (
      requeue cfg job now fresh "auth_error_retry" (mark job.id JobState.failed "auth_error" now d))

-- The switch at the end of processNext.
unfoldable pub finish :
    ResetParser → Config → RunResult → Job → ℕ → String → Dispatcher → Dispatcher
unfolding settle handle_rate_limit handle_auth_error
finish parse cfg completed job now fresh d = settle job JobState.completed "" "completed" now d
finish parse cfg (rate_limit raw kind resets_at) job now fresh d =
    handle_rate_limit parse cfg job raw kind resets_at now fresh d
finish parse cfg auth_error job now fresh d = handle_auth_error cfg job now fresh d
finish parse cfg cancelled job now fresh d = settle job JobState.failed "cancelled" "failed" now d
finish parse cfg (failed reason) job now fresh d = settle job JobState.failed reason "failed" now d

-- Enqueue and Cancel, as the HTTP handlers call them.
unfoldable pub api_enqueue : String → ℕ → Job → Dispatcher → Result StoreError Dispatcher
api_enqueue fresh now j d = elim (enqueue fresh now j d.rows) [
  | err e ↦ err e
  | ok rows ↦ elim (find_active_by_path j.project j.artifact_path rows) [
    | none ↦ ok (record d { rows = rows })
    | some job ↦ ok (broadcast (added job) (record d { rows = rows }))
  ]
]

unfoldable pub api_cancel : String → ℕ → Dispatcher → Result StoreError Dispatcher
api_cancel id now d = elim (cancel id now d.rows) [
  | err e ↦ err e
  | ok rows ↦ elim (get_by_id id rows) [
    | none ↦ ok (record d { rows = rows })
    | some job ↦
        ok (broadcast (job_event "queue.cancelled" job "cancelled") (record d { rows = rows }))
  ]
]

-- queueSnapshot
pub record Snapshot : Type 0 where
  pub running_job : Option Job
  pub pending_jobs : Rows
  pub recent : Rows
  pub is_paused : Bool
  pub until : Option ℕ
  pub why : String

abbrev first : Rows → Option Job
first [] = none
first (j ∷ rows) = some j

unfoldable pub state_snapshot : Dispatcher → Snapshot
state_snapshot d = record {
  running_job = first (list_by_state is_running d.rows);
  pending_jobs = list_by_state is_pending d.rows;
  recent = list_recent 10 d.rows;
  is_paused = d.saved.is_paused;
  until = if d.saved.until == 0 then none else some d.saved.until;
  why = d.saved.why;
}
