-- ===== src/Scheduler/Firing.antt =====
-- Which jobs the tick lets run.
use kaos_control.Common.{
  ℕ, ◌+◌, ◌<◌, ◌≤◌, ◌≡◌, ◌≢◌, refl, true, false, ◌==◌, List, [], ◌∷◌, All, arith, none, some,
  Option-cases, Bool-cases, inl, inr, ◌⊎◌, ◌↔◌,
}
use kaos_control.Scheduler.{
  Schedule, cron, interval, one_off, unknown, Job, Store, World, next_fire_time,
}
use kaos_control.Scheduler.Cron.{Calendar, next}
use kaos_control.Scheduler.Cron.Next.{IsCalendar, next-some}
use kaos_control.Scheduler.Engine.{Engine, is_due, last_end, tick_job, tick_jobs, tick}

-- A schedule other than an interval.
abbrev pub IsTimed : Schedule → Type 0
IsTimed s = (n : ℕ) → s ≢ interval n

next_fire_time-timed :
    (cal : Calendar) (s : Schedule) (last now : ℕ)
    → IsCalendar cal
    → IsTimed s
    → (next_fire_time cal s last now ≡ 0) ⊎ (now < next_fire_time cal s last now)
unfolding next_fire_time
next_fire_time-timed cal (cron none) last now law t = inl refl
next_fire_time-timed cal (cron (some c)) last now law t = elim (Option-cases (next cal c now)) [
  | inl e ↦ rw (e, next_fire_time) (inl refl)
  | inr (u, e) ↦ rw (e, next_fire_time) (inr (next-some cal c now u law e).0)
]
next_fire_time-timed cal (interval n) last now law t = elim (t n refl) [ ]
next_fire_time-timed cal (one_off at) last now law t = ground arith
next_fire_time-timed cal unknown last now law t = inl refl

timed_not_due :
    (cal : Calendar) (now : ℕ) (j : Job) (s : Store)
    → IsCalendar cal
    → IsTimed j.schedule
    → is_due cal now j s ≡ false
unfolding is_due
timed_not_due cal now j s law t =
    elim (next_fire_time-timed cal j.schedule (last_end j.name s) now law t) [
      | inl e ↦ rw e refl
      | inr l ↦ ground arith
    ]

tick_jobs-timed :
    (cal : Calendar) (w : World) (now : ℕ) (jobs : List Job) (e : Engine)
    → IsCalendar cal
    → All (λ j. IsTimed j.schedule) jobs
    → tick_jobs cal w now jobs e ≡ e
unfolding tick_jobs tick_job
tick_jobs-timed cal w now [] e law ts = refl
tick_jobs-timed cal w now (j ∷ jobs) e law ts =
    ground
      (arith, timed_not_due cal now j e.store law ts.0, tick_jobs-timed cal w now jobs e law ts.1)

-- In a location whose clock is never changed, such as UTC, and under a calendar whose months go forward: a tick
-- changes nothing where no job of the table has an interval schedule, so no cron job and no one-off job is queued by it.
pub tick-timed :
    (cal : Calendar) (w : World) (now : ℕ) (e : Engine)
    → IsCalendar cal
    → All (λ j. IsTimed j.schedule) e.store.jobs
    → tick cal w now e ≡ e
unfolding tick
tick-timed cal w now e law ts = tick_jobs-timed cal w now e.store.jobs e law ts

-- A job with a positive interval is due exactly where it has not ended before or its last end lies at
-- least the interval back, at a time of now that is not zero.
pub interval-due :
    (cal : Calendar) (now n : ℕ) (j : Job) (s : Store)
    → j.schedule ≡ interval n
    → 0 < n
    → 0 < now
    → (is_due cal now j s ≡ true) ↔ ((last_end j.name s ≡ 0) ⊎ (last_end j.name s + n ≤ now))
unfolding is_due next_fire_time
interval-due cal now n j s e h k = rw e (
  (λ d. elim (Bool-cases (last_end j.name s == 0)) [
    | inl z ↦ inl (ground arith)
    | inr z ↦ inr (ground arith)
  ]),
  λ d. elim d [ inl z ↦ ground arith | inr z ↦ ground arith ],
)
