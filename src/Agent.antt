-- ===== src/Agent.antt =====
-- internal/agent/agent.go: StartRun and supervise, as far as they take and give back the lineage lock,
-- the semaphore and the run's records, and how the end of a run is judged. A run's process, its files,
-- git and the feed are left out; the role and the prompt of StartRun are those of a configured agent.
pub mod Verdict
pub mod Runs
mod Actives
mod Holding
pub mod Exclusion
pub mod Reaping
mod Examples
use kaos_control.Common.{
  ℕ, suc, ◌-◌, String, Bool, true, false, not, ◌&&◌, ◌||◌, ltb, Option, none, some, List, [], ◌∷◌,
  ◌++◌, str_eq, if◌then◌else◌, Result, ok, err,
}
use kaos_control.Workflow.{can_transition}
use kaos_control.Workflow as W
use kaos_control.Locks.{Locks, LockRow, get_lock, acquire_lock, release_lock}

-- What StartRun reads of the artifact's row.
pub record Target : Type 0 where
  pub lineage : String
  pub status : String
  pub type : String

-- What StartRun reads of the agent's configuration.
pub record AgentConfig : Type 0 where
  pub roles : List String
  pub active_status : String
  pub is_mediated : Bool
  pub knows_driver : Bool

-- A row of agent_runs
pub record RunRow : Type 0 where
  pub run_id : String
  pub status : String

-- An entry of the map `active`, with the lineage that its supervisor holds.
pub record ActiveRun : Type 0 where
  pub run_id : String
  pub lineage : String

-- `sem` counts what the semaphore holds; `policies` are the runs with a stored policy.
pub record Manager : Type 0 where
  pub locks : Locks
  pub sem : ℕ
  pub max_concurrent : ℕ
  pub active : List ActiveRun
  pub policies : List String
  pub rows : List RunRow

pub data StartError : Type 0 where
  already_in_qa : StartError
  is_locked : LockRow → StartError
  unknown_driver : StartError
  busy : StartError
  lock_lost : StartError
  insert_failed : StartError
  not_permitted : StartError
  process_failed : StartError

-- The lineage of StartRun: the artifact's, or the path where the index has no row.
abbrev pub lineage_of : String → Option Target → String
lineage_of path none = path
lineage_of path (some t) = t.lineage

abbrev pub is_test_in_qa : Option Target → Bool
is_test_in_qa none = false
is_test_in_qa (some t) = str_eq t.type "test" && str_eq t.status "in-qa"

unfoldable pub update_run : String → String → List RunRow → List RunRow
update_run id status [] = []
update_run id status (r ∷ rows) =
    (if str_eq r.run_id id then record r { status = status } else r) ∷ update_run id status rows

-- StartRun up to the semaphore. The answer is the lineage.
unfoldable pub start_checks :
    AgentConfig → String → Option Target → Manager → Result StartError String
start_checks ag path target m =
    if is_test_in_qa target
    then err already_in_qa
    else elim (get_lock (lineage_of path target) m.locks) [
      | some r ↦ err (is_locked r)
      | none ↦ if ag.knows_driver then ok (lineage_of path target) else err unknown_driver
    ]

-- `_ = m.locks.Release(lineage)` and `<-m.sem`, the way back of StartRun's error paths.
unfoldable pub give_back : String → Manager → Manager
give_back lineage m = record m { locks = release_lock lineage m.locks; sem = m.sem - 1 }

-- The run's row of an error path that has one.
unfoldable pub fail_row : String → Manager → Manager
unfolding update_run
fail_row id m = record m { rows = update_run id "failed" m.rows }

-- The type-aware check before a test artifact goes in-qa: no engine, no check.
unfoldable pub refuses : Option W.Engine → AgentConfig → String → Option Target → Bool
refuses wf ag path target = elim target [
  | none ↦ false
  | some t ↦
      not (str_eq ag.active_status "")
      && not (str_eq path "")
      && str_eq t.type "test"
      && str_eq ag.active_status "in-qa"
      && elim wf [ none ↦ false | some e ↦ not (can_transition e t.status "in-qa" ag.roles "test") ]
]

-- What InsertAgentRun and the driver's Start answer.
pub record Answers : Type 0 where
  pub inserts : Bool
  pub starts : Bool

abbrev pub with_policy : Bool → String → Manager → Manager
with_policy b id m = record m { policies = if b then id ∷ m.policies else m.policies }

abbrev pub with_active : String → String → Manager → Manager
with_active id lineage m = record m {
  active = m.active ++ record { run_id = id; lineage = lineage } ∷ [];
}

-- The driver's Start, behind the policy of a mediated run.
unfoldable pub start_process :
    AgentConfig → Answers → String → String → Manager → Manager × Result StartError String
unfolding give_back fail_row
start_process ag a id lineage m =
    let m' = with_policy ag.is_mediated id m in
    if a.starts
    then (with_active id lineage m', ok id)
    else (fail_row id (give_back lineage m'), err process_failed)

abbrev pub with_row : String → Manager → Manager
with_row id m = record m { rows = m.rows ++ record { run_id = id; status = "running" } ∷ [] }

-- StartRun behind the lock.
unfoldable pub start_locked :
    Option W.Engine
    → AgentConfig
    → Answers
    → String
    → String
    → Option Target
    → String
    → Manager
    → Manager × Result StartError String
unfolding start_process
start_locked wf ag a id path target lineage m =
    if not a.inserts
    then (give_back lineage m, err insert_failed)
    else if refuses wf ag path target
    then (fail_row id (give_back lineage (with_row id m)), err not_permitted)
    else start_process ag a id lineage (with_row id m)

-- StartRun from the semaphore on. `now` is the time of the lock's row.
unfoldable pub start_claim :
    Option W.Engine
    → AgentConfig
    → Answers
    → ℕ
    → String
    → String
    → Option Target
    → String
    → Manager
    → Manager × Result StartError String
unfolding start_locked
start_claim wf ag a now id path target lineage m =
    if not (ltb m.sem m.max_concurrent)
    then (m, err busy)
    else elim (acquire_lock now lineage id "agent" m.locks) [
      | err _ ↦ (m, err lock_lost)
      | ok locks ↦
          start_locked wf ag a id path target lineage (record m { locks = locks; sem = suc m.sem })
    ]

unfoldable pub start_run :
    Option W.Engine
    → AgentConfig
    → Answers
    → ℕ
    → String
    → String
    → Option Target
    → Manager
    → Manager × Result StartError String
unfolding start_checks start_claim
start_run wf ag a now id path target m = elim (start_checks ag path target m) [
  | err e ↦ (m, err e)
  | ok lineage ↦ start_claim wf ag a now id path target lineage m
]

unfoldable pub without : String → List ActiveRun → List ActiveRun
without id [] = []
without id (r ∷ runs) = let rest = without id runs in if str_eq r.run_id id then rest else r ∷ rest

unfoldable pub without_policy : String → List String → List String
without_policy id [] = []
without_policy id (x ∷ ids) =
    let rest = without_policy id ids in if str_eq x id then rest else x ∷ rest

-- `active`, cleanupRunState and the semaphore, when the process has gone.
abbrev pub leave : ActiveRun → Manager → Manager
leave r m = record m {
  active = without r.run_id m.active;
  policies = without_policy r.run_id m.policies;
  sem = m.sem - 1;
}

-- The end of supervise, which has judged the run: the lock and the run's row after `leave`.
unfoldable pub finish_run : ActiveRun → String → Manager → Manager
unfolding without without_policy update_run
finish_run r status m =
    let m' = leave r m in
    record m' { locks = release_lock r.lineage m'.locks; rows = update_run r.run_id status m'.rows }

-- killAndFail, the end of a run that the precheck refuses
unfoldable pub kill_and_fail : ActiveRun → Manager → Manager
unfolding without update_run
kill_and_fail r m = record m {
  active = without r.run_id m.active;
  sem = m.sem - 1;
  locks = release_lock r.lineage m.locks;
  rows = update_run r.run_id "failed" m.rows;
}
