-- ===== src/Agent/Examples.antt =====
-- The theorems on runs at concrete inputs.
use kaos_control.Common.{
  ◌≤◌, ◌≡◌, ◌↔◌, ◌⊎◌, refl, true, false, Option, none, some, [], ◌∷◌, Memᴰ, length,
}
use kaos_control.Locks.{LockRow, reap_locks, reap_age}
use kaos_control.Agent.{
  Target, AgentConfig, ActiveRun, Manager, Answers, lineage_of, start_run, finish_run,
}
use kaos_control.Agent.Verdict.{End, live, verdict, NotKilled, verdict-done}
use kaos_control.Agent.Runs.{IsAnswer, start_run_lem}
use kaos_control.Agent.Exclusion.{with_locks, starts, done, next, runs_exclude}

abbrev flaky : End
flaky = record {
  wait_failed = true;
  was_active = true;
  context = live;
  result_seen = true;
  result_success = true;
  auth_killed = false;
  emits_result = true;
}

verdict-done_example : ((verdict flaky).0 ≡ "done") ↔ (
    (flaky.auth_killed ≡ false)
    × ((flaky.emits_result ≡ false) ⊎ (flaky.result_seen ≡ true))
    × ((flaky.wait_failed ≡ false)
        ⊎ ((flaky.result_seen ≡ true) × (flaky.result_success ≡ true) × NotKilled flaky)))
verdict-done_example = verdict-done flaky

abbrev developer : AgentConfig
developer = record {
  roles = "backend-developer" ∷ [];
  active_status = "in-development";
  is_mediated = true;
  knows_driver = true;
}

abbrev plan : Option Target
plan = some (record { lineage = "login"; status = "approved"; type = "plan-backend" })

abbrev idle : Manager
idle = record { locks = []; sem = 0; max_concurrent = 2; active = []; policies = []; rows = [] }

abbrev works : Answers
works = record { inserts = true; starts = true }

abbrev breaks : Answers
breaks = record { inserts = true; starts = false }

start_run_lem_example :
    IsAnswer idle "r1" "login" (start_run none developer breaks 10 "r1" "plan.md" plan idle)
start_run_lem_example = start_run_lem none developer breaks 10 "r1" "plan.md" plan idle

abbrev one_run : Manager
one_run = (start_run none developer works 10 "r1" "plan.md" plan idle).0

runs_exclude_example :
    (one_run.sem ≡ length one_run.active)
    × (one_run.sem ≤ one_run.max_concurrent)
    × ((r s : ActiveRun)
        → Memᴰ r one_run.active
        → Memᴰ s one_run.active
        → r.lineage ≡ s.lineage
        → r.run_id ≡ s.run_id)
unfolding kaos_control.Agent.Actives.Unused start_run
runs_exclude_example =
    runs_exclude idle one_run refl refl
      (next done (starts none developer works 10 "r1" "plan.md" plan tt))

abbrev row : LockRow
row = record {
  lineage = "login";
  holder = "r1";
  kind = "agent";
  acquired_at = 10;
  last_heartbeat = 10;
}

abbrev run : ActiveRun
run = record { run_id = "r1"; lineage = "login" }

abbrev long_run : Manager
long_run = record idle { locks = row ∷ []; sem = 1; active = run ∷ [] }

abbrev second : Manager
second =
    (start_run none developer works 310 "r2" "plan.md" plan
      (with_locks (reap_locks 310 reap_age (row ∷ [])) long_run)).0
