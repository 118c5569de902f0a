-- ===== src/Scheduler/Dispatching.antt =====
-- tryDispatch, enqueue and the end of execute (internal/scheduler/scheduler.go), cut where other goroutines can come between: a
-- slot is taken, the queue is looked at under the mutex, and a slot that found no job is given back.
use kaos_control.Common.{
  ℕ, ◌==◌, ◌+◌, ◌-◌, ◌≤◌, ◌<◌, ◌≡◌, refl, false, ltb, Option, none, some, if◌then◌else◌, arith,
  Bool-cases, inl, inr, is_nil,
}
use kaos_control.Scheduler.{Job}
use kaos_control.Scheduler.JobQueue.{JobQueue, new_job_queue, push, HeapPop, pop_job}

-- `slots` counts what workerSem holds; the others count the goroutines in tryDispatch with a slot, before the queue is looked at and
-- after nothing was found, and those in execute.
pub record Pool : Type 0 where
  pub queue : JobQueue
  pub slots : ℕ
  pub max_workers : ℕ
  pub looking : ℕ
  pub leaving : ℕ
  pub executing : ℕ

abbrev pub new_pool : ℕ → Pool
new_pool n = record {
  queue = new_job_queue;
  slots = 0;
  max_workers = if n == 0 then 2 else n;
  looking = 0;
  leaving = 0;
  executing = 0;
}

-- The select of tryDispatch: without a free slot it returns.
unfoldable pub take_worker : Pool → Pool
take_worker p =
    if ltb p.slots p.max_workers
    then record p { slots = p.slots + 1; looking = p.looking + 1 }
    else p

abbrev pub look_at : Option (Job × JobQueue) → Pool → Pool
look_at none p = record p { looking = p.looking - 1; leaving = p.leaving + 1 }
look_at (some (j, q)) p = record p {
  queue = q;
  looking = p.looking - 1;
  executing = p.executing + 1;
}

-- The part of tryDispatch under the mutex
unfoldable pub look : HeapPop → Pool → Pool
unfolding pop_job
look heap p = look_at (pop_job heap p.queue) p

-- The way out of tryDispatch, where no job was found
unfoldable pub give_worker_back : Pool → Pool
give_worker_back p = record p { leaving = p.leaving - 1; slots = p.slots - 1 }

-- Push in enqueue; the two calls of tryDispatch that follow, its own and that of a worker, are steps of their own.
unfoldable pub push_job : Job → Pool → Pool
unfolding push
push_job j p = record p { queue = push j p.queue }

-- The end of execute, up to its tryDispatch
unfoldable pub end_execution : Pool → Pool
end_execution p = record p { executing = p.executing - 1; slots = p.slots - 1 }

module _ (heap : HeapPop) where
  pub data PoolStep (p : Pool) : Pool → Type 0 where
    takes : PoolStep p (take_worker p)
    looks : 1 ≤ p.looking → PoolStep p (look heap p)
    gives_back : 1 ≤ p.leaving → PoolStep p (give_worker_back p)
    pushes : (j : Job) → PoolStep p (push_job j p)
    ends : 1 ≤ p.executing → PoolStep p (end_execution p)

  pub data PoolSteps : Pool → Pool → Type 0 where
    stay : (p : Pool) → PoolSteps p p
    next : (p q r : Pool) → PoolStep p q → PoolSteps q r → PoolSteps p r

-- The slots taken are those of the goroutines, and no more than there are workers.
pub record IsWithin (p : Pool) : Type 0 where
  pub all_slots : p.slots ≡ p.looking + p.leaving + p.executing
  pub at_most : p.slots ≤ p.max_workers

look_at-IsWithin :
    (o : Option (Job × JobQueue)) (p : Pool) → 1 ≤ p.looking → IsWithin p → IsWithin (look_at o p)
look_at-IsWithin none p l w = record {
  all_slots = omega (arith, l, w.all_slots);
  at_most = w.at_most;
}
look_at-IsWithin (some (j, q)) p l w = record {
  all_slots = omega (arith, l, w.all_slots);
  at_most = w.at_most;
}

PoolStep-IsWithin : (heap : HeapPop) (p q : Pool) → PoolStep heap p q → IsWithin p → IsWithin q
unfolding take_worker look give_worker_back push_job end_execution
PoolStep-IsWithin heap p _ takes w = elim (Bool-cases (ltb p.slots p.max_workers)) [
  | inl e ↦
      rw (take_worker, e)
        (record { all_slots = omega (arith, w.all_slots); at_most = ground (arith, e) })
  | inr e ↦ rw (take_worker, e) w
]
PoolStep-IsWithin heap p _ (looks l) w = look_at-IsWithin (pop_job heap p.queue) p l w
PoolStep-IsWithin heap p _ (gives_back l) w = record {
  all_slots = omega (arith, l, w.all_slots);
  at_most = omega (arith, w.at_most);
}
PoolStep-IsWithin heap p _ (pushes j) w = record { all_slots = w.all_slots; at_most = w.at_most }
PoolStep-IsWithin heap p _ (ends l) w = record {
  all_slots = omega (arith, l, w.all_slots);
  at_most = omega (arith, w.at_most);
}

PoolSteps-keep : (heap : HeapPop) (p q : Pool) → PoolSteps heap p q → IsWithin p → IsWithin q
PoolSteps-keep heap p _ (stay _) w = w
PoolSteps-keep heap p r (next _ q _ s ss) w =
    PoolSteps-keep heap q r ss (PoolStep-IsWithin heap p q s w)

-- In whatever order the goroutines of tryDispatch, enqueue and execute go on, from a new scheduler on: the slots
-- taken are those of the goroutines that hold one, and no more than there are workers, so no more jobs
-- are executed at once.
pub PoolSteps-IsWithin :
    (heap : HeapPop) (n : ℕ) (p : Pool)
    → PoolSteps heap (new_pool n) p
    → IsWithin p × (p.executing ≤ p.max_workers)
PoolSteps-IsWithin heap n p ss =
    let w =
      PoolSteps-keep heap (new_pool n) p ss (record { all_slots = refl; at_most = omega arith }) in
    (w, omega (arith, w.all_slots, w.at_most))

-- A job waits, and no goroutine that would look for it has a slot.
pub record IsLeft (p : Pool) : Type 0 where
  pub waiting : is_nil p.queue.items ≡ false
  pub free_worker : p.slots < p.max_workers
  pub nobody_looks : p.looking ≡ 0
  pub nobody_leaves : p.leaving ≡ 0
