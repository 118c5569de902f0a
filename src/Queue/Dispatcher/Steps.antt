-- ===== src/Queue/Dispatcher/Steps.antt =====
-- The dispatcher's goroutine between its waits, the HTTP handlers and the auto-resume goroutines, as
-- steps in any order. One step is the code between two waits of its goroutine.
use kaos_control.Common.{
  ℕ, String, Bool, true, false, Option, none, some, List, [], ◌∷◌, Result, ok, err,
}
use kaos_control.Queue.{Job}
use kaos_control.Queue.Store.{Rows, PauseState, recover_orphans}
use kaos_control.Queue.Dispatcher.{
  Config, Dispatcher, ProjectLookup, ResetParser, RunResult, new, start, pause, resume,
  check_paused, auto_resume, begin_next, launch, finish, api_enqueue, api_cancel,
}

-- Where the dispatcher's goroutine stands: at its ticker, in StartRun, or waiting for a run.
pub data Phase : Type 0 where
  idle : Phase
  launching : Job → Phase
  running_job : Job → Phase

pub record System : Type 0 where
  pub dispatcher : Dispatcher
  pub phase : Phase

pub data Label : Type 0 where
  ticks : ProjectLookup → Label
  launches : Result String String → Label
  finishes : RunResult → String → Label
  enqueues : String → Job → Label
  cancels : String → Label
  pauses : String → Label
  resumes : Label
  auto_resumes : Label

abbrev pub phase_of : Option Job → Phase
phase_of none = idle
phase_of (some job) = launching job

abbrev pub process_unless : Bool → ProjectLookup → ℕ → Dispatcher → Dispatcher × Option Job
process_unless true lookup now d = (d, none)
process_unless false lookup now d = begin_next lookup now d

-- The loop's body: nothing while paused, else processNext.
unfoldable pub tick : ProjectLookup → ℕ → Dispatcher → Dispatcher × Option Job
tick lookup now d =
    let (d', is_paused) = check_paused now d in process_unless is_paused lookup now d'

-- A refused call changes nothing.
abbrev pub after_call {ℓ} : {E : Type ℓ} → Dispatcher → Result E Dispatcher → Dispatcher
after_call d (ok d') = d'
after_call d (err e) = d

abbrev pub launched : Job → Bool → Phase
launched job true = running_job job
launched job false = idle

abbrev pub at : Phase → Dispatcher → System
at phase d = record { dispatcher = d; phase = phase }

-- A label that does not fit the goroutine's phase changes nothing.
unfoldable pub tick_in : ProjectLookup → ℕ → Phase → Dispatcher → System
tick_in lookup now idle d = let (d', o) = tick lookup now d in at (phase_of o) d'
tick_in lookup now phase d = at phase d

unfoldable pub launch_in : Result String String → ℕ → Phase → Dispatcher → System
launch_in answer now (launching job) d =
    let (d', on) = launch answer job now d in at (launched job on) d'
launch_in answer now phase d = at phase d

unfoldable pub finish_in :
    ResetParser → Config → RunResult → ℕ → String → Phase → Dispatcher → System
finish_in parse cfg result now fresh (running_job job) d =
    at idle (finish parse cfg result job now fresh d)
finish_in parse cfg result now fresh phase d = at phase d

unfoldable pub step : ResetParser → Config → ℕ → Label → System → System
unfolding tick_in launch_in finish_in
step parse cfg now (ticks lookup) s = tick_in lookup now s.phase s.dispatcher
step parse cfg now (launches answer) s = launch_in answer now s.phase s.dispatcher
step parse cfg now (finishes result fresh) s =
    finish_in parse cfg result now fresh s.phase s.dispatcher
step parse cfg now (enqueues fresh j) s =
    at s.phase (after_call s.dispatcher (api_enqueue fresh now j s.dispatcher))
step parse cfg now (cancels id) s =
    at s.phase (after_call s.dispatcher (api_cancel id now s.dispatcher))
step parse cfg now (pauses reason) s = at s.phase (pause reason s.dispatcher)
step parse cfg now resumes s = at s.phase (resume s.dispatcher)
step parse cfg now auto_resumes s = at s.phase (auto_resume s.dispatcher)

unfoldable pub run : ResetParser → Config → List (ℕ × Label) → System → System
run parse cfg [] s = s
run parse cfg ((now, l) ∷ steps) s = run parse cfg steps (step parse cfg now l s)

-- The server's start: RecoverOrphans on the table that was found, then Start.
unfoldable pub boot : Rows → PauseState → System
boot rows saved = record { dispatcher = start (new (recover_orphans rows) saved); phase = idle }
