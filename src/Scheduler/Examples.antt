-- ===== src/Scheduler/Examples.antt =====
-- The scheduler's theorems at concrete inputs.
use kaos_control.Common.{
  ℕ, ◌+◌, ◌*◌, ◌/◌, ◌%◌, ◌<◌, ◌≤◌, ◌≡◌, refl, ap, pos, Bool, true, false, String, List, [], ◌∷◌,
  arith, some, ok,
}
use kaos_control.Scheduler.{
  RunStatus, success, running, is_running, Schedule, cron, interval, one_off, Precondition,
  after_job, Job, Run, Store, World, get_job, evaluate_one, evaluate_preconditions,
  last_run_for_job,
}
use kaos_control.Scheduler.Cron.{CronSchedule, Calendar, next, span}
use kaos_control.Scheduler.Cron.Next.{IsCalendar, matches, next-some}
use kaos_control.Scheduler.Engine.{best, Engine, tick}
use kaos_control.Scheduler.Firing.{IsTimed, tick-timed}
use kaos_control.Scheduler.Order.{best-LeastOf}
use kaos_control.Scheduler.JobQueue as JQ
use kaos_control.Scheduler.JobQueue.{
  JobQueue, new_job_queue, push, Waits, empty, pushed, pop_job, pop_job_lem,
}
use kaos_control.Scheduler.Dispatching as DP
use kaos_control.Scheduler.Dispatching.{
  Pool, new_pool, take_worker, look, give_worker_back, PoolStep, IsWithin, takes, looks, gives_back,
  stay, PoolSteps-IsWithin,
}

-- Twelve months of thirty days.
abbrev thirties : Calendar
thirties = record {
  month_of = λ d. d / 30 % 12 + 1;
  day_of = λ d. d % 30 + 1;
  next_month = λ d. (d / 30 + 1) * 30;
}

thirties-IsCalendar : IsCalendar thirties
thirties-IsCalendar = record { later = λ d. omega arith; same = λ d e h k. omega (arith, h, k) }

-- 30 * * * *: second 0 and minute 30, and every hour, day and month.
abbrev half_past : CronSchedule
half_past = record {
  second = 1;
  minute = 1073741824;
  hour = 16777215;
  dom = 4294967294;
  month = 8190;
  dow = 127;
}

next_at : next thirties half_past 5400500000000 ≡ some 9000
unfolding next kaos_control.Scheduler.Cron.search_next kaos_control.Scheduler.Cron.advance
    kaos_control.Scheduler.Cron.bit_set kaos_control.Scheduler.Cron.next_bit
    kaos_control.Scheduler.Cron.next_bit_loop
next_at = refl

next-some_example :
    (5400500000000 < 9000 * 1000000000)
    × (matches thirties half_past 9000 ≡ true)
    × ((v : ℕ) → 5400500000000 < v * 1000000000 → v < 9000 → matches thirties half_past v ≡ false)
next-some_example = next-some thirties half_past 5400500000000 9000 thirties-IsCalendar next_at

abbrev world : World
world = record { stat = λ p. ok true; get = λ u. ok false; run_shell = λ c. true }

abbrev job : String → Schedule → ℕ → Job
job name s p = record {
  name = name;
  target_type = "shell";
  target = "true";
  schedule = s;
  preconditions = [];
  enabled = true;
  priority = pos p;
}

abbrev hourly : Job
hourly = job "hourly" (cron (some half_past)) 5

abbrev once_only : Job
once_only = job "once" (one_off 7000000000) 5

abbrev every : Job
every = job "every" (interval 60000000000) 9

abbrev run_of_every : Run
run_of_every = record {
  id = 1;
  job_name = "every";
  start_time = 1000000000;
  end_time = some 2000000000;
  status = success;
}

abbrev timed_store : Store
timed_store = record { jobs = hourly ∷ once_only ∷ []; runs = []; last_id = 0 }

abbrev store : Store
store = record { jobs = every ∷ once_only ∷ []; runs = run_of_every ∷ []; last_id = 1 }

abbrev timed_engine : Engine
timed_engine = record {
  store = timed_store;
  queue = [];
  seq = 0;
  running = [];
  slots = 0;
  max_workers = 2;
  tasks = [];
}

abbrev full_engine : Engine
full_engine = record timed_engine {
  store = store;
  slots = 1;
  max_workers = 1;
  running = "other" ∷ [];
}

abbrev is_interval : Schedule → Bool
is_interval (interval n) = true
is_interval _ = false

not_interval : (s : Schedule) → is_interval s ≡ false → IsTimed s
not_interval s e n p = ground (arith, ap is_interval p)

tick-timed_example : tick thirties world 9000000000000 timed_engine ≡ timed_engine
tick-timed_example =
    tick-timed thirties world 9000000000000 timed_engine thirties-IsCalendar
      (not_interval hourly.schedule refl, (not_interval once_only.schedule refl, tt))

-- Two jobs that wait
abbrev two_pushed : JobQueue
two_pushed = push every (push hourly new_job_queue)

two_wait : Waits best two_pushed (hourly ∷ every ∷ [])
two_wait =
    pushed (push hourly new_job_queue) (hourly ∷ []) every (pushed new_job_queue [] hourly empty)

pop_job_lem_example : JQ.PopAnswer best (hourly ∷ every ∷ []) (pop_job best two_pushed)
pop_job_lem_example = pop_job_lem best best-LeastOf two_pushed (hourly ∷ every ∷ []) two_wait

-- One goroutine of tryDispatch with a slot of two.
abbrev one_looks : Pool
unfolding take_worker
one_looks = take_worker (new_pool 0)

PoolSteps-IsWithin_example : IsWithin (give_worker_back (look best one_looks)) × (0 ≤ 2)
unfolding take_worker look give_worker_back pop_job best
PoolSteps-IsWithin_example = PoolSteps-IsWithin best 0 (give_worker_back (look best one_looks)) (
    DP.next _ _ _ takes
      (DP.next _ _ _ (looks (omega arith)) (DP.next _ _ _ (gives_back (omega arith)) (stay _))))

abbrev gates : List Precondition
gates = after_job "every" ∷ []
