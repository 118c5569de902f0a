-- ===== src/Scheduler/Engine.antt =====
-- internal/scheduler/queue.go and scheduler.go: the priority queue, the worker slots and the tick.
-- The heap is the list of its items, of which heap.Pop hands out the least. A running goroutine of
-- execute is a task, cut where it has inserted its run.
use kaos_control.Common.{
  ℕ, zero, suc, ◌-◌, ℤ, ltb_ℤ, String, Bool, false, not, ◌&&◌, ◌||◌, ◌==◌, ltb, Option, none, some,
  List, [], ◌∷◌, ◌++◌, length, str_eq, has, if◌then◌else◌, Result, ok, err,
}
use kaos_control.Scheduler.{
  RunStatus, failure, success, timeout, skipped, one_off, cron, interval, unknown, Job, Run, Store,
  get_job, insert_run, update_run, last_run_for_job, mark_stale_runs_failed, next_fire_time, World,
  evaluate_preconditions,
}
use kaos_control.Scheduler.Cron.{Calendar}

pub record WorkItem : Type 0 where
  pub job : Job
  pub seq : ℕ

abbrev pub differ : ℤ → ℤ → Bool
differ x y = ltb_ℤ x y || ltb_ℤ y x

-- Less
unfoldable pub less : WorkItem → WorkItem → Bool
less a b =
    if differ a.job.priority b.job.priority
    then ltb_ℤ b.job.priority a.job.priority
    else ltb a.seq b.seq

unfoldable pub best : List WorkItem → Option WorkItem
best [] = none
best (x ∷ q) = elim (best q) [ none ↦ some x | some y ↦ if less y x then some y else some x ]

unfoldable pub without : ℕ → List WorkItem → List WorkItem
without n [] = []
without n (x ∷ q) = let rest = without n q in if x.seq == n then q else x ∷ rest

abbrev pub pop_best : Option WorkItem → List WorkItem → Option (Job × List WorkItem)
pop_best none q = none
pop_best (some x) q = some (x.job, without x.seq q)

-- jobQueue.Pop
unfoldable pub pop : List WorkItem → Option (Job × List WorkItem)
unfolding best
pop q = pop_best (best q) q

-- A goroutine of execute, with the id of its run once that is inserted.
pub record Task : Type 0 where
  pub job : Job
  pub run_id : Option ℕ

-- `slots` counts what workerSem holds.
pub record Engine : Type 0 where
  pub store : Store
  pub queue : List WorkItem
  pub seq : ℕ
  pub running : List String
  pub slots : ℕ
  pub max_workers : ℕ
  pub tasks : List Task

unfoldable pub new : Store → ℕ → Engine
new store n = record {
  store = store;
  queue = [];
  seq = 0;
  running = [];
  slots = 0;
  max_workers = if n == 0 then 2 else n;
  tasks = [];
}

-- One round of the loop of tryDispatch that found a free slot and a job.
abbrev pub hand_out : Job → List WorkItem → Engine → Engine
hand_out job rest e = record e {
  queue = rest;
  running = job.name ∷ e.running;
  slots = suc e.slots;
  tasks = e.tasks ++ record { job = job; run_id = none } ∷ [];
}

unfoldable pub dispatch_loop : ℕ → Engine → Engine
dispatch_loop zero e = e
dispatch_loop (suc n) e =
    if ltb e.slots e.max_workers
    then elim (pop e.queue) [ none ↦ e | some (job, rest) ↦ dispatch_loop n (hand_out job rest e) ]
    else e

-- tryDispatch: every round that goes on takes an item out of the queue.
unfoldable pub try_dispatch : Engine → Engine
unfolding dispatch_loop
try_dispatch e = dispatch_loop (length e.queue) e

abbrev pub queued : Job → Engine → Engine
queued job e = record e {
  queue = e.queue ++ record { job = job; seq = suc e.seq } ∷ [];
  seq = suc e.seq;
}

-- enqueue; the signal on workCh makes a worker call tryDispatch once more.
unfoldable pub enqueue : Job → Engine → Engine
unfolding try_dispatch
enqueue job e = try_dispatch (queued job e)

-- isQueued
unfoldable pub is_queued : String → List WorkItem → Bool
is_queued name [] = false
is_queued name (x ∷ q) = str_eq x.job.name name || is_queued name q

-- TriggerNow
unfoldable pub trigger_now : String → Engine → Result String Engine
unfolding enqueue
trigger_now name e = elim (get_job name e.store) [
  | none ↦ err "scheduler job not found"
  | some job ↦ if has name e.running then err "already running" else ok (enqueue job e)
]

-- The end of the last run, or the zero time.
unfoldable pub last_end : String → Store → ℕ
last_end name s = elim (last_run_for_job name s) [
  | none ↦ 0
  | some r ↦ elim r.end_time [ none ↦ 0 | some t ↦ t ]
]

unfoldable pub is_due : Calendar → ℕ → Job → Store → Bool
unfolding last_end
is_due cal now j s =
    let at = next_fire_time cal j.schedule (last_end j.name s) now in
    not (at == 0) && not (ltb now at)

-- The body of tick's loop for one job.
unfoldable pub tick_job : Calendar → World → ℕ → Job → Engine → Engine
unfolding is_due is_queued enqueue
tick_job cal w now j e =
    if not j.enabled
    then e
    else if has j.name e.running || is_queued j.name e.queue
    then e
    else if not (is_due cal now j e.store)
    then e
    else elim (evaluate_preconditions w e.store j.preconditions) [
      | err _ ↦ e
      | ok b ↦ if b then enqueue j e else e
    ]

unfoldable pub tick_jobs : Calendar → World → ℕ → List Job → Engine → Engine
tick_jobs cal w now [] e = e
tick_jobs cal w now (j ∷ jobs) e = tick_jobs cal w now jobs (tick_job cal w now j e)

-- tick
unfoldable pub tick : Calendar → World → ℕ → Engine → Engine
unfolding tick_jobs
tick cal w now e = tick_jobs cal w now e.store.jobs e

unfoldable pub forget : String → List String → List String
forget name [] = []
forget name (x ∷ names) = let rest = forget name names in if str_eq x name then rest else x ∷ rest

unfoldable pub freed : Task → List Task → Engine → Engine
unfolding forget
freed t rest e = record e {
  running = forget t.job.name e.running;
  slots = e.slots - 1;
  tasks = rest;
}

-- The deferred function of execute.
unfoldable pub release : Task → List Task → Engine → Engine
unfolding freed try_dispatch
release t rest e = try_dispatch (freed t rest e)

-- The record that is handed to InsertRun.
abbrev pub run_record : ℕ → RunStatus → Job → Run
run_record now status j = record {
  id = 0;
  job_name = j.name;
  start_time = now;
  end_time = none;
  status = status;
}

-- execute up to the target. Where the run cannot be inserted, the goroutine ends.
unfoldable pub begin_task : ℕ → List Task → Task → List Task → Engine → Engine
unfolding release
begin_task now before t after e =
    elim (insert_run (run_record now RunStatus.running t.job) e.store) [
      | none ↦ release t (before ++ after) e
      | some (store, id) ↦ record e {
        store = store;
        tasks = before ++ record t { run_id = some id } ∷ after;
      }
    ]

-- How the command of a shell target ends, and whether StartRun takes an agent target.
pub data Command : Type 0 where
  exits : Command
  fails : Command
  times_out : Command

pub record Outcome : Type 0 where
  pub has_agents : Bool
  pub starts : Bool
  pub command : Command

-- runShell's answer
unfoldable pub run_shell : Command → RunStatus
run_shell exits = success
run_shell fails = failure
run_shell times_out = timeout

-- runTarget, with runAgent
unfoldable pub run_target : Job → Outcome → RunStatus
unfolding run_shell
run_target j o =
    if str_eq j.target_type "agent"
    then (if not o.has_agents then failure else if o.starts then success else failure)
    else if str_eq j.target_type "shell"
    then run_shell o.command
    else failure

abbrev pub with_store : Store → Engine → Engine
with_store s e = record e { store = s }

-- The rest of execute.
unfoldable pub finish_task : ℕ → Outcome → List Task → Task → ℕ → List Task → Engine → Engine
unfolding run_target release
finish_task now o before t id after e =
    release t (before ++ after)
      (with_store (update_run id (some now) (run_target t.job o) e.store) e)

-- The body of the loop of markMissedOneOffSkipped.
unfoldable pub skip_missed : ℕ → Job → Store → Store
skip_missed now j s = elim j.schedule [
  | cron c ↦ s
  | interval n ↦ s
  | unknown ↦ s
  | one_off at ↦ if at == 0 || ltb now at then s else elim (last_run_for_job j.name s) [
    | some r ↦ s
    | none ↦ elim (insert_run (run_record now skipped j) s) [
      | none ↦ s
      | some (s', id) ↦ update_run id (some now) skipped s'
    ]
  ]
]

unfoldable pub skip_all_missed : ℕ → List Job → Store → Store
skip_all_missed now [] s = s
skip_all_missed now (j ∷ jobs) s = skip_all_missed now jobs (skip_missed now j s)

-- markMissedOneOffSkipped
unfoldable pub mark_missed_one_off_skipped : ℕ → Store → Store
unfolding skip_all_missed
mark_missed_one_off_skipped now s = skip_all_missed now s.jobs s

-- Start, before its goroutines
unfoldable pub start : ℕ → Engine → Engine
unfolding mark_missed_one_off_skipped
start now e = record e {
  store = mark_missed_one_off_skipped now (mark_stale_runs_failed now e.store);
}
