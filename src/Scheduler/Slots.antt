-- ===== src/Scheduler/Slots.antt =====
-- The worker slots of internal/scheduler/scheduler.go where the calls of tryDispatch come one after the other.
use kaos_control.Common.{
  ℕ, zero, suc, ◌<◌, ◌≤◌, ◌≡◌, refl, ap, subst, ltb, String, List, [], ◌∷◌, ◌++◌, length,
  length-append, arith, none, some, Option-cases, Bool-cases, inl, inr, ◌⊎◌, ok,
}
use kaos_control.Scheduler.{running, get_job, update_run, insert_run, Job, Store, World}
use kaos_control.Scheduler.Cron.{Calendar}
use kaos_control.Scheduler.Order.{PopAnswer, pop_best_lem}
use kaos_control.Scheduler.Engine.{
  WorkItem, run_target, with_store, queued, freed, run_record, Task, Engine, new, pop, hand_out,
  dispatch_loop, try_dispatch, enqueue, trigger_now, tick_job, tick_jobs, tick, release, begin_task,
  finish_task, Outcome, start,
}

-- Each task holds one slot, and there are at most max_workers of them.
pub record IsBounded (e : Engine) : Type 0 where
  pub one_each : e.slots ≡ length e.tasks
  pub at_most : e.slots ≤ e.max_workers

-- No job waits while a slot is free.
abbrev pub IsBusy : Engine → Type 0
IsBusy e = (e.queue ≡ []) ⊎ (e.slots ≡ e.max_workers)

pub record IsSettled (e : Engine) : Type 0 where
  pub bounded : IsBounded e
  pub busy : IsBusy e

empty_of_length : (q : List WorkItem) → length q ≤ 0 → q ≡ []
empty_of_length [] l = refl
empty_of_length (x ∷ q) l = ground arith

hand_out-IsBounded :
    (j : Job) (rest : List WorkItem) (e : Engine)
    → IsBounded e
    → e.slots < e.max_workers
    → IsBounded (hand_out j rest e)
hand_out-IsBounded j rest e b l = record {
  one_each =
      omega (arith, b.one_each, length-append e.tasks (record { job = j; run_id = none } ∷ []));
  at_most = l;
}

dispatch_loop-IsSettled :
    (n : ℕ) (e : Engine) → length e.queue ≤ n → IsBounded e → IsSettled (dispatch_loop n e)
unfolding dispatch_loop
dispatch_loop-IsSettled zero e l b = record { bounded = b; busy = inl (empty_of_length e.queue l) }
dispatch_loop-IsSettled (suc n) e l b = elim (Bool-cases (ltb e.slots e.max_workers)) [
  | inr f ↦ rw f (record { bounded = b; busy = inr (ground (arith, b.at_most)) })
  | inl f ↦ elim (Option-cases (pop e.queue)) [
    | inl p ↦
        rw (f, p)
          (record { bounded = b; busy = inl (subst (PopAnswer e.queue) p (pop_best_lem e.queue)) })
    | inr ((j, rest), p) ↦
        let a : PopAnswer e.queue (some (j, rest)) =
          subst (PopAnswer e.queue) p (pop_best_lem e.queue) in
        rw (f, p)
          (dispatch_loop-IsSettled n (hand_out j rest e) (omega (arith, l, a.one_less))
            (hand_out-IsBounded j rest e b (ground arith)))
  ]
]

try_dispatch-IsSettled : (e : Engine) → IsBounded e → IsSettled (try_dispatch e)
unfolding try_dispatch
try_dispatch-IsSettled e b = dispatch_loop-IsSettled (length e.queue) e (omega arith) b

enqueue-IsSettled : (j : Job) (e : Engine) → IsBounded e → IsSettled (enqueue j e)
unfolding enqueue
enqueue-IsSettled j e b =
    try_dispatch-IsSettled (queued j e) (record { one_each = b.one_each; at_most = b.at_most })

tick_job-IsSettled :
    (cal : Calendar) (w : World) (now : ℕ) (j : Job) (e : Engine)
    → IsSettled e
    → IsSettled (tick_job cal w now j e)
unfolding tick_job
tick_job-IsSettled cal w now j e s = ground (arith, enqueue-IsSettled j e s.bounded)

tick_jobs-IsSettled :
    (cal : Calendar) (w : World) (now : ℕ) (jobs : List Job) (e : Engine)
    → IsSettled e
    → IsSettled (tick_jobs cal w now jobs e)
unfolding tick_jobs
tick_jobs-IsSettled cal w now [] e s = s
tick_jobs-IsSettled cal w now (j ∷ jobs) e s =
    tick_jobs-IsSettled cal w now jobs _ (tick_job-IsSettled cal w now j e s)

length-split :
    (before : List Task) (t : Task) (after : List Task)
    → length (before ++ t ∷ after) ≡ suc (length (before ++ after))
length-split before t after =
    omega (arith, length-append before (t ∷ after), length-append before after)

release-IsSettled :
    (t : Task) (before after : List Task) (e : Engine)
    → e.tasks ≡ before ++ t ∷ after
    → IsBounded e
    → IsSettled (release t (before ++ after) e)
unfolding release freed
release-IsSettled t before after e split b =
    try_dispatch-IsSettled (freed t (before ++ after) e) (record {
      one_each = omega (arith, b.one_each, ap length split, length-split before t after);
      at_most = omega (arith, b.at_most);
    })

begin_task-IsSettled :
    (now : ℕ) (t : Task) (before after : List Task) (e : Engine)
    → e.tasks ≡ before ++ t ∷ after
    → IsSettled e
    → IsSettled (begin_task now before t after e)
unfolding begin_task
begin_task-IsSettled now t before after e split s =
    elim (Option-cases (insert_run (run_record now running t.job) e.store)) [
      | inl n ↦ rw (n, begin_task) (release-IsSettled t before after e split s.bounded)
      | inr ((store, id), n) ↦
          rw (n, begin_task)
            (record {
              bounded = record {
                one_each = omega (
                  arith,
                  s.bounded.one_each,
                  ap length split,
                  length-split before t after,
                  length-split before (record t { run_id = some id }) after,
                );
                at_most = s.bounded.at_most;
              };
              busy = s.busy;
            })
    ]

finish_task-IsSettled :
    (now : ℕ) (o : Outcome) (t : Task) (id : ℕ) (before after : List Task) (e : Engine)
    → e.tasks ≡ before ++ t ∷ after
    → IsSettled e
    → IsSettled (finish_task now o before t id after e)
unfolding finish_task
finish_task-IsSettled now o t id before after e split s =
    release-IsSettled t before after
      (with_store (update_run id (some now) (run_target t.job o) e.store) e) split
      (record { one_each = s.bounded.one_each; at_most = s.bounded.at_most })

trigger_now-IsSettled :
    (name : String) (e e' : Engine) → trigger_now name e ≡ ok e' → IsSettled e → IsSettled e'
unfolding trigger_now
trigger_now-IsSettled name e e' r s = elim (Option-cases (get_job name e.store)) [
  | inl g ↦ ground arith
  | inr (j, g) ↦ ground (arith, enqueue-IsSettled j e s.bounded)
]

-- One step of the ticker, a handler, a worker or a goroutine of execute.
pub data Step (cal : Calendar) (w : World) : Engine → Engine → Type 0 where
  ticks : {e : Engine} (now : ℕ) → Step cal w e (tick cal w now e)
  triggers : {e e' : Engine} (name : String) → trigger_now name e ≡ ok e' → Step cal w e e'
  wakes : {e : Engine} → Step cal w e (try_dispatch e)
  begins :
      {e : Engine} (now : ℕ) (before : List Task) (t : Task) (after : List Task)
      → e.tasks ≡ before ++ t ∷ after
      → t.run_id ≡ none
      → Step cal w e (begin_task now before t after e)
  finishes :
      {e : Engine} (now : ℕ) (o : Outcome) (before : List Task) (t : Task) (id : ℕ)
      (after : List Task)
      → e.tasks ≡ before ++ t ∷ after
      → t.run_id ≡ some id
      → Step cal w e (finish_task now o before t id after e)
  edits : {e : Engine} (store : Store) → Step cal w e (record e { store = store })

pub data Steps (cal : Calendar) (w : World) : Engine → Engine → Type 0 where
  done : {e : Engine} → Steps cal w e e
  then : {e e' e'' : Engine} → Steps cal w e e' → Step cal w e' e'' → Steps cal w e e''

Step-IsSettled :
    {cal : Calendar} {w : World} {e e' : Engine} → Step cal w e e' → IsSettled e → IsSettled e'
unfolding tick
Step-IsSettled {cal} {w} {e} (ticks now) s = tick_jobs-IsSettled cal w now e.store.jobs e s
Step-IsSettled {cal} {w} {e} {e'} (triggers name r) s = trigger_now-IsSettled name e e' r s
Step-IsSettled {cal} {w} {e} wakes s = try_dispatch-IsSettled e s.bounded
Step-IsSettled {cal} {w} {e} (begins now before t after split n) s =
    begin_task-IsSettled now t before after e split s
Step-IsSettled {cal} {w} {e} (finishes now o before t id after split n) s =
    finish_task-IsSettled now o t id before after e split s
Step-IsSettled (edits store) s = record {
  bounded = record { one_each = s.bounded.one_each; at_most = s.bounded.at_most };
  busy = s.busy;
}

continue-IsSettled :
    {cal : Calendar} {w : World} {e e' : Engine} → Steps cal w e e' → IsSettled e → IsSettled e'
continue-IsSettled done s = s
continue-IsSettled (then r t) s = Step-IsSettled t (continue-IsSettled r s)

-- Let each call of tryDispatch, enqueue's and execute's among them, be one step that no other comes between, which
-- Dispatching does not assume. From a new scheduler on, over every sequence of ticks, triggers, wake-ups of workers, begins
-- and ends of executions and changes of the tables: the slots taken are the executions under way,
-- they are at most max_workers, and no job waits in the queue while a slot is free.
pub Steps-IsSettled :
    {cal : Calendar} {w : World} (now : ℕ) (store : Store) (n : ℕ) (e : Engine)
    → Steps cal w (start now (new store n)) e
    → IsSettled e
unfolding start new
Steps-IsSettled now store n e r =
    continue-IsSettled r
      (record { bounded = record { one_each = refl; at_most = omega arith }; busy = inl refl })
