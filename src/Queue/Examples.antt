-- ===== src/Queue/Examples.antt =====
-- The queue on concrete tables: the theorems at inputs that meet their hypotheses, and test runs.
use kaos_control.Common.{
  ℕ, ◌+◌, pos, String, true, ◌≡◌, refl, ◌||◌, ltb, ◌+ℤ◌, List, [], ◌∷◌, ◌++◌, Memᴰ, arith,
  str_eq_iff, Option, none, some, ok, ◌⊎◌,
}
use kaos_control.Queue.{JobState, pending, is_terminal, Job}
use kaos_control.Queue.Store.{
  Rows, no_pause, has_id, has_active, update, insert, filled, positioned, is_pending, next_position,
  max_position, head_pending, enqueue, started, dequeue, ended, get_by_id,
}
use kaos_control.Queue.Store.Active.{Inv}
use kaos_control.Queue.Store.Order.{
  AllBelow, next_out, enqueue_fifo, dequeue_takes-Least, NonePending, Least,
}
use kaos_control.Queue.Dispatcher.{
  Config, Dispatcher, rate_limit, auth_error, check_paused, handle_rate_limit, resume_grace,
  fallback_pause, max_attempts, finish,
}
use kaos_control.Queue.Dispatcher.Watch.{Message, agent_finished, Input, event, got_run_id}
use kaos_control.Queue.Dispatcher.Steps.{
  Label, ticks, launches, finishes, enqueues, cancels, run, boot,
}
use kaos_control.Queue.Dispatcher.Single.{Holds}
use kaos_control.Queue.Dispatcher.Sound.{IsSound, run-IsSound}
use kaos_control.Queue.Dispatcher.Retry.{IsRetryOf, unauthorised, finish_ends, retry_next}
use kaos_control.Queue.Dispatcher.Pauses.{other, held_after_limit}

abbrev plan : Job
plan = record {
  id = "a1";
  project = "kaos";
  artifact_path = "lifecycle/ideas/a.md";
  agent_name = "analyst";
  state = pending;
  reason = "";
  attempts = 1;
  enqueued_at = 10;
  started_at = none;
  finished_at = none;
  position = pos 1;
  enqueued_by = "po";
}

abbrev build : Job
build = record plan { id = "b2"; artifact_path = "lifecycle/ideas/b.md"; position = pos 2 }

-- As a handler makes it: no id, no position, no time.
abbrev asked : Job
asked = record plan {
  id = "";
  artifact_path = "lifecycle/ideas/c.md";
  attempts = 0;
  enqueued_at = 0;
  position = pos 0;
}

abbrev table : Rows
table = plan ∷ build ∷ []

table-Inv : Inv table
unfolding has_id has_active
table-Inv = record { ids = (refl, (refl, tt)); apart = ((λ _. refl), ((λ _. refl), tt)) }

abbrev cfg : Config
cfg = record { fallback_pause = 0; overload_pause = 0; resume_grace = 60; max_attempts = 3 }

abbrev no_parse : String → ℕ → Option ℕ
no_parse raw now = none

abbrev approved_everywhere : String → Option (String → String)
approved_everywhere project = some (λ path. "approved")

abbrev system_steps : List (ℕ × Label)
system_steps =
    (20, ticks approved_everywhere)
    ∷ (21, launches (ok "run-1"))
    ∷ (22, enqueues "c3" asked)
    ∷ (23, cancels "b2")
    ∷ (24, finishes (rate_limit "limit" "rate_limit" 0) "d4")
    ∷ []

run-IsSound_example : IsSound (run no_parse cfg system_steps (boot table no_pause))
run-IsSound_example = run-IsSound no_parse cfg table no_pause system_steps table-Inv

abbrev busy : Job
busy = started 20 plan

abbrev busy_table : Rows
busy_table = busy ∷ build ∷ []

busy-Holds : Holds busy busy_table
unfolding get_by_id
busy-Holds = record { row = refl; live = refl; only = ((λ _. refl), ((λ live. cc), tt)) }

abbrev busy_dispatcher : Dispatcher
busy_dispatcher = record {
  rows = busy_table;
  saved = no_pause;
  paused_until = 0;
  manual_pause = true;
  resuming = 1;
  events = [];
}

finish_ends_example :
    (is_terminal JobState.failed ≡ true)
    × (get_by_id "a1" (finish no_parse cfg auth_error busy 30 "d4" busy_dispatcher).rows
        ≡ some (ended JobState.failed "auth_error" 30 busy))
finish_ends_example = finish_ends no_parse cfg auth_error busy 30 "d4" busy_dispatcher busy-Holds

retry_next_example :
    (k : Job) × ((dequeue 40 (finish no_parse cfg auth_error busy 30 "d4" busy_dispatcher).rows).0
      ≡ some k)
    × IsRetryOf busy "d4" k
unfolding has_id max_attempts
retry_next_example =
    retry_next no_parse cfg auth_error busy 30 40 "d4" busy_dispatcher unauthorised (omega arith)
      (λ e. ground (arith, str_eq_iff "d4" "")) refl

abbrev three : Rows
three = record asked { id = "c3"; attempts = 1; enqueued_at = 30; position = pos 3 } ∷ []

enqueue_fifo_example :
    (table ++ three ≡ table ++ positioned table (filled "c3" 30 asked) ∷ [])
    × AllBelow (positioned table (filled "c3" 30 asked)).position table
    × ((dequeue 40 (table ++ three)).0
        ≡ some
            (started 40 (next_out (head_pending table) (positioned table (filled "c3" 30 asked)))))
unfolding enqueue has_active insert positioned filled next_position max_position has_id ◌+ℤ◌
enqueue_fifo_example = enqueue_fifo "c3" 30 40 asked table (table ++ three) refl refl

first_out : (dequeue 40 (table ++ three)).0 ≡ some (started 40 plan)
unfolding dequeue head_pending
first_out = refl

dequeue_takes-Least_example :
    (NonePending table × (dequeue 5 table ≡ (none, table)))
    ⊎ ((j : Job) × Memᴰ j table
        × (is_pending j.state ≡ true)
        × Least j table
        × (dequeue 5 table ≡ (some (started 5 j), update j.id (started 5) table)))
dequeue_takes-Least_example = dequeue_takes-Least 5 table

abbrev ended_run : String → Message
ended_run id = record {
  ty = agent_finished;
  status = "done";
  run_id = id;
  raw_text = "";
  kind = "";
  resets_at = 0;
}

abbrev heard : List Input
heard =
    event (ended_run "old")
    ∷ got_run_id "mine"
    ∷ event (ended_run "other")
    ∷ event (ended_run "mine")
    ∷ []

abbrev held_steps : List (ℕ × Label)
held_steps =
    (20, ticks approved_everywhere)
    ∷ (21, enqueues "c3" asked)
    ∷ (22, finishes auth_error "d4")
    ∷ []

held_after_limit_example :
    (check_paused 2000
      (handle_rate_limit no_parse cfg busy "raw" "rate_limit" 0 30 "d4" busy_dispatcher)).1
    ≡ (true || ltb 2000 (30 + fallback_pause cfg + resume_grace cfg))
unfolding fallback_pause resume_grace
held_after_limit_example =
    held_after_limit no_parse cfg busy "raw" "rate_limit" 0 30 "d4" busy_dispatcher 2000
      (30 + fallback_pause cfg)
      (other refl refl (λ e. ground (arith, (str_eq_iff "rate_limit" "overloaded").1 e)))
      (omega arith)

abbrev limited_dispatcher : Dispatcher
limited_dispatcher =
    handle_rate_limit no_parse cfg busy "raw" "rate_limit" 0 30 "d4" busy_dispatcher

-- The user queues the artifact of a job that has just failed.
abbrev again : Job
again = record asked { artifact_path = "lifecycle/ideas/a.md" }

abbrev failed_table : Rows
failed_table = ended JobState.failed "rate_limit" 30 busy ∷ []

abbrev user_row : Job
user_row = record again { id = "u5"; attempts = 1; enqueued_at = 30; position = pos 2 }

abbrev retry_row_a : Job
retry_row_a = record plan { id = "d4"; attempts = 2; enqueued_at = 30; position = pos 0 }
