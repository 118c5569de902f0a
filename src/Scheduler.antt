-- ===== src/Scheduler.antt =====
-- internal/scheduler: the scheduler of a project's jobs (types.go, store.go, queue.go, schedule.go,
-- precondition.go, scheduler.go). Times are nanoseconds from the epoch, 0 is the zero time. The store
-- answers without database errors, its jobs in the order of ListJobs; what an expression of cron parses to is part of the schedule.
pub mod Cron
pub mod Engine
pub mod Order
pub mod JobQueue
pub mod Dispatching
pub mod Slots
pub mod Records
mod Examples
pub mod Firing
use kaos_control.Common.{
  ℕ, zero, suc, ◌+◌, ◌*◌, ◌/◌, ℤ, ltb_ℤ, String, Bool, true, false, not, ◌&&◌, ◌||◌, ◌==◌, ltb,
  Option, none, some, List, [], ◌∷◌, ◌++◌, length, str_eq, has, if◌then◌else◌, Result, ok, err,
}
use kaos_control.Scheduler.Cron.{CronSchedule, Calendar, next}

pub data RunStatus : Type 0 where
  running : RunStatus
  success : RunStatus
  failure : RunStatus
  timeout : RunStatus
  skipped : RunStatus

abbrev pub is_running : RunStatus → Bool
is_running running = true
is_running _ = false

abbrev pub is_success : RunStatus → Bool
is_success success = true
is_success _ = false

-- ScheduleSpec by its Kind; the last constructor is any other text. A negative interval counts as 0.
pub data Schedule : Type 0 where
  cron : Option CronSchedule → Schedule
  interval : ℕ → Schedule
  one_off : ℕ → Schedule
  unknown : Schedule

-- Precondition by its Kind
pub data Precondition : Type 0 where
  after_job : String → Precondition
  file_exists : String → Precondition
  http_ok : String → Precondition
  shell : String → Precondition
  other : String → Precondition

pub record Job : Type 0 where
  pub name : String
  pub target_type : String
  pub target : String
  pub schedule : Schedule
  pub preconditions : List Precondition
  pub enabled : Bool
  pub priority : ℤ

pub record Run : Type 0 where
  pub id : ℕ
  pub job_name : String
  pub start_time : ℕ
  pub end_time : Option ℕ
  pub status : RunStatus

-- The tables scheduler_jobs and scheduler_runs; `last_id` is the last id that SQLite gave to a run.
pub record Store : Type 0 where
  pub jobs : List Job
  pub runs : List Run
  pub last_id : ℕ

-- RFC3339 keeps whole seconds.
unfoldable pub whole_seconds : ℕ → ℕ
whole_seconds t = t / 1000000000 * 1000000000

unfoldable pub find_job : String → List Job → Option Job
find_job name [] = none
find_job name (j ∷ jobs) = if str_eq j.name name then some j else find_job name jobs

-- GetJob
unfoldable pub get_job : String → Store → Option Job
unfolding find_job
get_job name s = find_job name s.jobs

unfoldable pub enable : String → Bool → List Job → List Job
enable name b [] = []
enable name b (j ∷ jobs) =
    (if str_eq j.name name then record j { enabled = b } else j) ∷ enable name b jobs

-- SetEnabled
unfoldable pub set_enabled : String → Bool → Store → Store
unfolding enable
set_enabled name b s = record s { jobs = enable name b s.jobs }

-- InsertRun: the columns of the INSERT leave end_time out, and the foreign key refuses a run whose job
-- is not there. The answer is the id.
unfoldable pub insert_run : Run → Store → Option (Store × ℕ)
unfolding whole_seconds find_job
insert_run r s = elim (find_job r.job_name s.jobs) [
  | none ↦ none
  | some j ↦ some (
    record s {
      runs =
          s.runs
          ++ record r {
            id = suc s.last_id;
            start_time = whole_seconds r.start_time;
            end_time = none;
          }
            ∷ [];
      last_id = suc s.last_id;
    },
    suc s.last_id,
  )
]

unfoldable pub jobs_without : String → List Job → List Job
jobs_without name [] = []
jobs_without name (j ∷ jobs) =
    let rest = jobs_without name jobs in if str_eq j.name name then rest else j ∷ rest

unfoldable pub runs_without : String → List Run → List Run
runs_without name [] = []
runs_without name (r ∷ runs) =
    let rest = runs_without name runs in if str_eq r.job_name name then rest else r ∷ rest

-- DeleteJob, with the cascade to the job's runs
unfoldable pub delete_job : String → Store → Store
unfolding jobs_without runs_without
delete_job name s = record s { jobs = jobs_without name s.jobs; runs = runs_without name s.runs }

abbrev pub ended_at : Option ℕ → Option ℕ
ended_at none = none
ended_at (some t) = some (whole_seconds t)

unfoldable pub update_runs : ℕ → Option ℕ → RunStatus → List Run → List Run
update_runs id end_time status [] = []
update_runs id end_time status (r ∷ runs) =
    (if r.id == id then record r { end_time = ended_at end_time; status = status } else r)
    ∷ update_runs id end_time status runs

-- UpdateRun
unfoldable pub update_run : ℕ → Option ℕ → RunStatus → Store → Store
unfolding update_runs
update_run id end_time status s = record s { runs = update_runs id end_time status s.runs }

-- WHERE job_name = ? ORDER BY start_time DESC LIMIT 1, the first inserted among equals
unfoldable pub last_run : String → List Run → Option Run
last_run name [] = none
last_run name (r ∷ runs) = elim (last_run name runs) [
  | none ↦ if str_eq r.job_name name then some r else none
  | some q ↦
      if str_eq r.job_name name && not (ltb r.start_time q.start_time) then some r else some q
]

-- LastRunForJob
unfoldable pub last_run_for_job : String → Store → Option Run
unfolding last_run
last_run_for_job name s = last_run name s.runs

abbrev pub failed_if_running : ℕ → Run → Run
failed_if_running now r =
    if is_running r.status
    then record r { status = failure; end_time = some (whole_seconds now) }
    else r

unfoldable pub fail_stale : ℕ → List Run → List Run
fail_stale now [] = []
fail_stale now (r ∷ runs) = failed_if_running now r ∷ fail_stale now runs

-- MarkStaleRunsFailed
unfoldable pub mark_stale_runs_failed : ℕ → Store → Store
unfolding fail_stale
mark_stale_runs_failed now s = record s { runs = fail_stale now s.runs }

-- NextFireTime, 0 for the zero time
unfoldable pub next_fire_time : Calendar → Schedule → ℕ → ℕ → ℕ
next_fire_time cal (cron none) last_run now = 0
next_fire_time cal (cron (some c)) last_run now = elim (next cal c now) [
  | none ↦ 0
  | some u ↦ u * 1000000000
]
next_fire_time cal (interval n) last_run now =
    if n == 0 then 0 else if last_run == 0 then now else last_run + n
next_fire_time cal (one_off at) last_run now = if ltb now at then at else 0
next_fire_time cal unknown last_run now = 0

-- What the file system, the network and the shell answer.
pub record World : Type 0 where
  pub stat : String → Result String Bool
  pub get : String → Result String Bool
  pub run_shell : String → Bool

unfoldable pub evaluate_one : World → Store → Precondition → Result String Bool
evaluate_one w s (after_job name) =
    if str_eq name ""
    then err "job_name must not be empty"
    else elim (last_run_for_job name s) [ none ↦ ok false | some r ↦ ok (is_success r.status) ]
evaluate_one w s (file_exists path) =
    if str_eq path "" then err "path must not be empty" else w.stat path
evaluate_one w s (http_ok url) = if str_eq url "" then err "url must not be empty" else w.get url
evaluate_one w s (shell command) =
    if str_eq command "" then err "command must not be empty" else ok (w.run_shell command)
evaluate_one w s (other kind) = err "unknown precondition kind"

abbrev pub and_then : Result String Bool → Result String Bool → Result String Bool
and_then (err e) rest = err e
and_then (ok b) rest = if b then rest else ok false

unfoldable pub evaluate_preconditions : World → Store → List Precondition → Result String Bool
unfolding evaluate_one
evaluate_preconditions w s [] = ok true
evaluate_preconditions w s (p ∷ ps) = and_then (evaluate_one w s p) (evaluate_preconditions w s ps)
