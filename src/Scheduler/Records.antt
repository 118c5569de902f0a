-- ===== src/Scheduler/Records.antt =====
-- What Start does to the runs, what the preconditions say, and what TriggerNow lets through.
use kaos_control.Common.{
  ℕ, zero, suc, ◌<◌, ◌≤◌, ◌≡◌, ◌≢◌, ◌∙◌, ◌↔◌, refl, sym, ap, subst, ltb, ◌||◌, Bool, true, false,
  has, String, length, str_eq, str_eq_iff, str_eq_refl, List, [], ◌∷◌, ◌++◌, All, All-append, Memᴰ,
  arith, Option, none, some, Option-cases, Bool-cases, inl, inr, ◌⊎◌, ok,
}
use kaos_control.Scheduler.{
  RunStatus, is_running, skipped, one_off, Precondition, Job, Run, Store, World, get_job, find_job,
  insert_run, update_runs, update_run, last_run, last_run_for_job, fail_stale,
  mark_stale_runs_failed, evaluate_one, evaluate_preconditions, whole_seconds,
}
use kaos_control.Scheduler.Engine.{
  Engine, run_record, dispatch_loop, try_dispatch, queued, enqueue, trigger_now, skip_missed,
  skip_all_missed, mark_missed_one_off_skipped, start,
}

-- EvaluatePreconditions answers true without an error exactly where every precondition is met.
pub evaluate_preconditions_iff :
    (w : World) (s : Store) (ps : List Precondition)
    → (evaluate_preconditions w s ps ≡ ok true) ↔ All (λ p. evaluate_one w s p ≡ ok true) ps
unfolding evaluate_preconditions
evaluate_preconditions_iff w s [] = (λ _. tt, λ _. refl)
evaluate_preconditions_iff w s (p ∷ ps) =
    let rec = evaluate_preconditions_iff w s ps in
    (λ e. (ground arith, rec.0 (ground arith)), λ a. rw (a.0, rec.1 a.1) refl)

not_below : {a b : ℕ} → a ≡ b → ltb a b ≡ false
not_below e = ground arith

full-dispatch_loop : (n : ℕ) (e : Engine) → e.slots ≡ e.max_workers → dispatch_loop n e ≡ e
unfolding dispatch_loop
full-dispatch_loop zero e h = refl
full-dispatch_loop (suc n) e h = rw (not_below h) refl

full-try_dispatch : (e : Engine) → e.slots ≡ e.max_workers → try_dispatch e ≡ e
unfolding try_dispatch
full-try_dispatch e h = full-dispatch_loop (length e.queue) e h

abbrev pub twice : Job → Engine → Engine
twice j e = queued j (queued j e)

-- While every worker is busy, a job that does not run yet can be triggered twice: TriggerNow accepts it
-- both times, and it stands in the queue twice.
pub trigger_twice :
    (name : String) (j : Job) (e : Engine)
    → e.slots ≡ e.max_workers
    → get_job name e.store ≡ some j
    → has name e.running ≡ false
    → (trigger_now name e ≡ ok (queued j e)) × (trigger_now name (queued j e) ≡ ok (twice j e))
unfolding trigger_now enqueue
trigger_twice name j e full g r = (
  rw (trigger_now, g, r, enqueue, full-try_dispatch (queued j e) full) refl,
  rw (trigger_now, g, r, enqueue, full-try_dispatch (twice j e) full) refl,
)

fail_stale-none_running :
    (now : ℕ) (runs : List Run) → All (λ r. is_running r.status ≡ false) (fail_stale now runs)
unfolding fail_stale
fail_stale-none_running now [] = tt
fail_stale-none_running now (r ∷ runs) = (ground arith, fail_stale-none_running now runs)

has_run : String → List Run → Bool
has_run name [] = false
has_run name (r ∷ runs) = str_eq r.job_name name || has_run name runs

has_run-last_run :
    (name : String) (runs : List Run) → last_run name runs ≡ none → has_run name runs ≡ false
unfolding has_run last_run
has_run-last_run name [] e = refl
has_run-last_run name (r ∷ runs) e = ground (arith, has_run-last_run name runs)

last_run-has_run :
    (name : String) (runs : List Run) (q : Run)
    → last_run name runs ≡ some q
    → has_run name runs ≡ true
unfolding has_run last_run
last_run-has_run name [] q e = ground arith
last_run-has_run name (r ∷ runs) q e = elim (Option-cases (last_run name runs)) [
  | inl n ↦ ground arith
  | inr (p, n) ↦ ground (arith, last_run-has_run name runs p)
]

has_run-append :
    (name : String) (runs : List Run) (r : Run)
    → has_run name (runs ++ r ∷ []) ≡ (has_run name runs || str_eq r.job_name name)
unfolding has_run
has_run-append name [] r = ground arith
has_run-append name (q ∷ runs) r = ground (arith, has_run-append name runs r)

has_run-update_runs :
    (name : String) (id : ℕ) (t : Option ℕ) (st : RunStatus) (runs : List Run)
    → has_run name (update_runs id t st runs) ≡ has_run name runs
unfolding has_run update_runs
has_run-update_runs name id t st [] = refl
has_run-update_runs name id t st (r ∷ runs) = ground (arith, has_run-update_runs name id t st runs)

shown :
    (name : String) (s : Store) {o : Option Run}
    → last_run_for_job name s ≡ o
    → last_run name s.runs ≡ o
unfolding last_run_for_job
shown name s e = e

-- What the loop over the jobs keeps: the table of jobs, the runs that are there, and that none runs.
record IsKept (s s' : Store) : Type 0 where
  same_jobs : s'.jobs ≡ s.jobs
  no_less : (name : String) → has_run name s.runs ≡ true → has_run name s'.runs ≡ true
  none_starts :
      All (λ r. is_running r.status ≡ false) s.runs → All (λ r. is_running r.status ≡ false) s'.runs

-- The run that is put in for a missed job.
abbrev skipped_run : ℕ → Job → Store → Run
skipped_run now j s = record (run_record now skipped j) {
  id = suc s.last_id;
  start_time = whole_seconds now;
}

abbrev with_skipped : ℕ → Job → Store → Store
with_skipped now j s =
    update_run (suc s.last_id) (some now) skipped
      (record s { runs = s.runs ++ skipped_run now j s ∷ []; last_id = suc s.last_id })

none_runs-update_runs :
    (id : ℕ) (t : Option ℕ) (runs : List Run)
    → All (λ r. is_running r.status ≡ false) runs
    → All (λ r. is_running r.status ≡ false) (update_runs id t skipped runs)
unfolding update_runs
none_runs-update_runs id t [] a = tt
none_runs-update_runs id t (r ∷ runs) a = (ground (arith, a.0), none_runs-update_runs id t runs a.1)

skip_missed_cases :
    (now : ℕ) (j : Job) (s : Store)
    → (skip_missed now j s ≡ s) ⊎ (skip_missed now j s ≡ with_skipped now j s)
unfolding skip_missed insert_run
skip_missed_cases now j s = ground arith

with_skipped-IsKept : (now : ℕ) (j : Job) (s : Store) → IsKept s (with_skipped now j s)
unfolding update_run
with_skipped-IsKept now j s = record {
  same_jobs = refl;
  no_less = λ name h. ground (
    arith,
    has_run-update_runs name (suc s.last_id) (some now) skipped
        (s.runs ++ skipped_run now j s ∷ []),
    has_run-append name s.runs (skipped_run now j s),
  );
  none_starts = λ a.
      none_runs-update_runs (suc s.last_id) (some now) (s.runs ++ skipped_run now j s ∷ [])
        (All-append _ s.runs (skipped_run now j s ∷ []) a (refl, tt));
}

IsKept-refl : (s : Store) → IsKept s s
IsKept-refl s = record { same_jobs = refl; no_less = λ name h. h; none_starts = λ a. a }

IsKept-trans : {s s' s'' : Store} → IsKept s s' → IsKept s' s'' → IsKept s s''
IsKept-trans a b = record {
  same_jobs = b.same_jobs ∙ a.same_jobs;
  no_less = λ name h. b.no_less name (a.no_less name h);
  none_starts = λ q. b.none_starts (a.none_starts q);
}

skip_missed-IsKept : (now : ℕ) (j : Job) (s : Store) → IsKept s (skip_missed now j s)
skip_missed-IsKept now j s = elim (skip_missed_cases now j s) [
  | inl e ↦ subst (IsKept s) (sym e) (IsKept-refl s)
  | inr e ↦ subst (IsKept s) (sym e) (with_skipped-IsKept now j s)
]

skip_all_missed-IsKept :
    (now : ℕ) (jobs : List Job) (s : Store) → IsKept s (skip_all_missed now jobs s)
unfolding skip_all_missed
skip_all_missed-IsKept now [] s = IsKept-refl s
skip_all_missed-IsKept now (j ∷ jobs) s =
    IsKept-trans (skip_missed-IsKept now j s)
      (skip_all_missed-IsKept now jobs (skip_missed now j s))

-- A one-off job whose time has come.
pub record IsMissed (now : ℕ) (j : Job) : Type 0 where
  pub at : ℕ
  pub once : j.schedule ≡ one_off at
  pub is_set : 0 < at
  pub is_past : at ≤ now

with_skipped-has_run :
    (now : ℕ) (j : Job) (s : Store) → has_run j.name (with_skipped now j s).runs ≡ true
unfolding update_run
with_skipped-has_run now j s = ground (
  arith,
  has_run-update_runs j.name (suc s.last_id) (some now) skipped
      (s.runs ++ skipped_run now j s ∷ []),
  has_run-append j.name s.runs (skipped_run now j s),
  str_eq_refl j.name,
)

skip_missed-missed :
    (now : ℕ) (j k : Job) (s : Store)
    → IsMissed now j
    → find_job j.name s.jobs ≡ some k
    → has_run j.name s.runs ≡ false
    → skip_missed now j s ≡ with_skipped now j s
unfolding skip_missed insert_run
skip_missed-missed now j k s m f h = elim (Option-cases (last_run_for_job j.name s)) [
  | inl e ↦ ground (arith, m.once, m.is_set, m.is_past)
  | inr (q, e) ↦ ground (arith, last_run-has_run j.name s.runs q (shown j.name s e))
]

skip_missed-has_run :
    (now : ℕ) (j k : Job) (s : Store)
    → IsMissed now j
    → find_job j.name s.jobs ≡ some k
    → has_run j.name (skip_missed now j s).runs ≡ true
skip_missed-has_run now j k s m f = elim (Bool-cases (has_run j.name s.runs)) [
  | inl h ↦ (skip_missed-IsKept now j s).no_less j.name h
  | inr h ↦ rw (skip_missed-missed now j k s m f h) (with_skipped-has_run now j s)
]

find_job-Memᴰ : (j : Job) (jobs : List Job) → Memᴰ j jobs → find_job j.name jobs ≢ none
unfolding find_job
find_job-Memᴰ j [] m e = elim m [ ]
find_job-Memᴰ j (k ∷ jobs) (Memᴰ.head p) e =
    ground (arith, ap (λ x. x.name) p, str_eq_iff k.name j.name)
find_job-Memᴰ j (k ∷ jobs) (Memᴰ.tail m) e = ground (arith, find_job-Memᴰ j jobs m)

skip_all_missed-has_run :
    (now : ℕ) (j k : Job) (jobs : List Job) (s : Store)
    → IsMissed now j
    → find_job j.name s.jobs ≡ some k
    → Memᴰ j jobs
    → has_run j.name (skip_all_missed now jobs s).runs ≡ true
unfolding skip_all_missed
skip_all_missed-has_run now j k [] s m f i = elim i [ ]
skip_all_missed-has_run now j k (l ∷ jobs) s m f (Memᴰ.head p) =
    (skip_all_missed-IsKept now jobs (skip_missed now l s)).no_less j.name (
      subst (λ x. has_run j.name (skip_missed now x s).runs ≡ true) p
        (skip_missed-has_run now j k s m f))
skip_all_missed-has_run now j k (l ∷ jobs) s m f (Memᴰ.tail i) =
    skip_all_missed-has_run now j k jobs (skip_missed now l s) m
      (subst (λ x. find_job j.name x ≡ some k) (sym (skip_missed-IsKept now l s).same_jobs) f) i

-- After Start no run of the table is running, the table of jobs is as before, and every one-off job of
-- it whose time is set and not after `now` has a run, so that it is not missed silently.
pub start_lem :
    (now : ℕ) (e : Engine)
    → All (λ r. is_running r.status ≡ false) (start now e).store.runs
      × ((start now e).store.jobs ≡ e.store.jobs)
      × ((j : Job)
          → Memᴰ j e.store.jobs
          → IsMissed now j
          → last_run_for_job j.name (start now e).store ≢ none)
unfolding start mark_missed_one_off_skipped mark_stale_runs_failed
start_lem now e =
    let s = mark_stale_runs_failed now e.store in
    let kept = skip_all_missed-IsKept now s.jobs s in
    (
      kept.none_starts (fail_stale-none_running now e.store.runs),
      kept.same_jobs,
      λ j i m n. elim (Option-cases (find_job j.name e.store.jobs)) [
        | inl f ↦ find_job-Memᴰ j e.store.jobs i f
        | inr (k, f) ↦ ground (
          arith,
          skip_all_missed-has_run now j k s.jobs s m f i,
          has_run-last_run j.name (skip_all_missed now s.jobs s).runs
              (shown j.name (skip_all_missed now s.jobs s) n),
        )
      ],
    )
