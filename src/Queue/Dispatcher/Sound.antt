-- ===== src/Queue/Dispatcher/Sound.antt =====
-- The queue as a whole: what holds at every wait of the dispatcher's goroutine, whatever the handlers
-- did meanwhile.
use kaos_control.Common.{
  ℕ, String, ◌≡◌, refl, sym, subst, ◌⊎◌, inl, inr, List, [], ◌∷◌, arith, Option, none, some, Result,
  ok, err,
}
use kaos_control.Queue.{JobState, is_terminal, Job}
use kaos_control.Queue.Store.{Rows, PauseState, enqueue, cancel, recover_orphans}
use kaos_control.Queue.Store.Active.{Inv, enqueue-Inv, cancel-Inv, recover_orphans-Inv}
use kaos_control.Queue.Dispatcher.{
  Config, Dispatcher, ProjectLookup, ResetParser, RunResult, new, start, pause, resume, auto_resume,
  launch, api_enqueue, api_cancel,
}
use kaos_control.Queue.Dispatcher.Steps.{
  Phase, idle, launching, running_job, System, Label, ticks, launches, finishes, enqueues, cancels,
  pauses, resumes, auto_resumes, phase_of, tick, tick_in, launch_in, finish_in, at, after_call,
  launched, step, run, boot,
}
use kaos_control.Queue.Dispatcher.Single.{
  NoRunning, Holds, enqueue-Holds, enqueue-NoRunning, cancel-Holds, cancel-NoRunning,
  recover_orphans-NoRunning,
}
use kaos_control.Queue.Dispatcher.Invariant.{Busy, Passed, settle-Quiet, finish-Quiet, tick-Passed}

-- At its ticker the dispatcher has no running row; in StartRun and while it waits for a run, its job
-- is in the table, is running, and is the only running row. Ids are distinct, and no artifact has two
-- active jobs.
abbrev pub PhaseOk : Phase → Rows → Type 0
PhaseOk idle rows = NoRunning rows
PhaseOk (launching j) rows = Holds j rows
PhaseOk (running_job j) rows = Holds j rows

pub record IsSound (s : System) : Type 0 where
  pub table : Inv s.dispatcher.rows
  pub waits : PhaseOk s.phase s.dispatcher.rows

Passed-IsSound :
    (d : Dispatcher) (o : Option Job)
    → Passed o d.rows
    → IsSound (record { dispatcher = d; phase = phase_of o })
Passed-IsSound d none q = record { table = q.inv; waits = q.none_running }
Passed-IsSound d (some j) b = record { table = b.inv; waits = b.holds }

launch-IsSound :
    (answer : Result String String) (j : Job) (now : ℕ) (d : Dispatcher)
    → Busy j d.rows
    → IsSound (record {
      dispatcher = (launch answer j now d).0;
      phase = launched j (launch answer j now d).1;
    })
unfolding launch is_terminal
launch-IsSound (ok id) j now d b = record { table = b.inv; waits = b.holds }
launch-IsSound (err e) j now d b =
    let q = settle-Quiet j JobState.failed _ "failed" now d refl b in
    record { table = q.inv; waits = q.none_running }

-- A change of the table that no phase can see.
record Unseen (rows rows' : Rows) : Type 0 where
  inv : Inv rows → Inv rows'
  idle_kept : NoRunning rows → NoRunning rows'
  held : (j : Job) → Holds j rows → Holds j rows'

Unseen-IsSound :
    (phase : Phase) (d d' : Dispatcher)
    → Unseen d.rows d'.rows
    → IsSound (record { dispatcher = d; phase = phase })
    → IsSound (record { dispatcher = d'; phase = phase })
Unseen-IsSound idle d d' u v = record { table = u.inv v.table; waits = u.idle_kept v.waits }
Unseen-IsSound (launching j) d d' u v = record { table = u.inv v.table; waits = u.held j v.waits }
Unseen-IsSound (running_job j) d d' u v = record { table = u.inv v.table; waits = u.held j v.waits }

Unseen-of_eq : {rows rows' : Rows} → rows' ≡ rows → Unseen rows rows'
Unseen-of_eq {rows} e =
    subst (Unseen rows) (sym e) (record { inv = λ v. v; idle_kept = λ v. v; held = λ j v. v })

after_enqueue :
    (fresh : String) (now : ℕ) (j : Job) (d : Dispatcher)
    → ((after_call d (api_enqueue fresh now j d)).rows ≡ d.rows)
      ⊎ (enqueue fresh now j d.rows ≡ ok (after_call d (api_enqueue fresh now j d)).rows)
unfolding api_enqueue
after_enqueue fresh now j d = ground arith

after_cancel :
    (id : String) (now : ℕ) (d : Dispatcher)
    → ((after_call d (api_cancel id now d)).rows ≡ d.rows)
      ⊎ (cancel id now d.rows ≡ ok (after_call d (api_cancel id now d)).rows)
unfolding api_cancel
after_cancel id now d = ground arith

enqueue-Unseen :
    (fresh : String) (now : ℕ) (j : Job) (d : Dispatcher)
    → Unseen d.rows (after_call d (api_enqueue fresh now j d)).rows
enqueue-Unseen fresh now j d = elim (after_enqueue fresh now j d) [
  | inl e ↦ Unseen-of_eq e
  | inr e ↦ record {
    inv = λ v. enqueue-Inv fresh now j v e;
    idle_kept = enqueue-NoRunning fresh now j d.rows _ e;
    held = λ k. enqueue-Holds fresh now j d.rows _ e;
  }
]

cancel-Unseen :
    (id : String) (now : ℕ) (d : Dispatcher)
    → Unseen d.rows (after_call d (api_cancel id now d)).rows
cancel-Unseen id now d = elim (after_cancel id now d) [
  | inl e ↦ Unseen-of_eq e
  | inr e ↦ record {
    inv = λ v. cancel-Inv id now v e;
    idle_kept = cancel-NoRunning id now d.rows _ e;
    held = λ k. cancel-Holds id now d.rows _ e;
  }
]

tick_in-IsSound :
    (lookup : ProjectLookup) (now : ℕ) (phase : Phase) (d : Dispatcher)
    → IsSound (at phase d)
    → IsSound (tick_in lookup now phase d)
unfolding tick_in
tick_in-IsSound lookup now idle d v =
    Passed-IsSound (tick lookup now d).0 (tick lookup now d).1
      (tick-Passed lookup now d (record { inv = v.table; none_running = v.waits }))
tick_in-IsSound lookup now _ d v = v

launch_in-IsSound :
    (answer : Result String String) (now : ℕ) (phase : Phase) (d : Dispatcher)
    → IsSound (at phase d)
    → IsSound (launch_in answer now phase d)
unfolding launch_in
launch_in-IsSound answer now (launching j) d v =
    launch-IsSound answer j now d (record { inv = v.table; holds = v.waits })
launch_in-IsSound answer now _ d v = v

finish_in-IsSound :
    (parse : ResetParser) (cfg : Config) (r : RunResult) (now : ℕ) (fresh : String) (phase : Phase)
    (d : Dispatcher)
    → IsSound (at phase d)
    → IsSound (finish_in parse cfg r now fresh phase d)
unfolding finish_in
finish_in-IsSound parse cfg r now fresh (running_job j) d v =
    let q = finish-Quiet parse cfg r j now fresh d (record { inv = v.table; holds = v.waits }) in
    record { table = q.inv; waits = q.none_running }
finish_in-IsSound parse cfg r now fresh _ d v = v

rows-auto_resume : (d : Dispatcher) → (auto_resume d).rows ≡ d.rows
unfolding auto_resume
rows-auto_resume d = ground arith

-- Every step keeps the system sound, in every phase and for every environment.
pub step-IsSound :
    (parse : ResetParser) (cfg : Config) (now : ℕ) (l : Label) (s : System)
    → IsSound s
    → IsSound (step parse cfg now l s)
unfolding step pause resume
step-IsSound parse cfg now (ticks lookup) s v = tick_in-IsSound lookup now s.phase s.dispatcher v
step-IsSound parse cfg now (launches answer) s v =
    launch_in-IsSound answer now s.phase s.dispatcher v
step-IsSound parse cfg now (finishes r fresh) s v =
    finish_in-IsSound parse cfg r now fresh s.phase s.dispatcher v
step-IsSound parse cfg now (enqueues fresh j) s v =
    Unseen-IsSound s.phase s.dispatcher _ (enqueue-Unseen fresh now j s.dispatcher) v
step-IsSound parse cfg now (cancels id) s v =
    Unseen-IsSound s.phase s.dispatcher _ (cancel-Unseen id now s.dispatcher) v
step-IsSound parse cfg now (pauses reason) s v =
    Unseen-IsSound s.phase s.dispatcher _ (Unseen-of_eq refl) v
step-IsSound parse cfg now resumes s v = Unseen-IsSound s.phase s.dispatcher _ (Unseen-of_eq refl) v
step-IsSound parse cfg now auto_resumes s v =
    Unseen-IsSound s.phase s.dispatcher _ (Unseen-of_eq (rows-auto_resume s.dispatcher)) v

rows-start : (d : Dispatcher) → (start d).rows ≡ d.rows
unfolding start
rows-start d = ground arith

boot-IsSound : (rows : Rows) (saved : PauseState) → Inv rows → IsSound (boot rows saved)
unfolding boot new
boot-IsSound rows saved v = record {
  table =
      subst Inv (sym (rows-start (new (recover_orphans rows) saved))) (recover_orphans-Inv rows v);
  waits =
      subst NoRunning (sym (rows-start (new (recover_orphans rows) saved)))
        (recover_orphans-NoRunning rows);
}

run-IsSound_from :
    (parse : ResetParser) (cfg : Config) (steps : List (ℕ × Label)) (s : System)
    → IsSound s
    → IsSound (run parse cfg steps s)
unfolding run
run-IsSound_from parse cfg [] s v = v
run-IsSound_from parse cfg ((now, l) ∷ steps) s v =
    run-IsSound_from parse cfg steps (step parse cfg now l s) (step-IsSound parse cfg now l s v)

-- Let each call of the store be one step: the retry after a failure, which is two statements, and Cancel, which
-- reads and then updates, are not cut. Then, after a start on any table in which ids are distinct and no artifact
-- has two active jobs, and after any steps of the dispatcher, the handlers and the auto-resume goroutines in any order, with any
-- answers of the projects and of StartRun, any ends of runs and any ids drawn: ids are distinct, no
-- artifact has two active jobs, no row is running while the dispatcher stands at its ticker, and else
-- exactly the job that it works on is.
pub run-IsSound :
    (parse : ResetParser) (cfg : Config) (rows : Rows) (saved : PauseState)
    (steps : List (ℕ × Label))
    → Inv rows
    → IsSound (run parse cfg steps (boot rows saved))
run-IsSound parse cfg rows saved steps v =
    run-IsSound_from parse cfg steps (boot rows saved) (boot-IsSound rows saved v)
