-- ===== src/Queue.antt =====
-- internal/queue/types.go: the jobs of the agent work queue and their states.
-- A time is its Unix second, and 0 stands for Go's zero time. `Position` is an int64 that stays far
-- from its bounds: it moves by one for each row ever inserted.
pub mod Store
pub mod Dispatcher
mod Examples
use kaos_control.Common.{ℕ, ℤ, String, Bool, true, false, Option, none, some}

pub data JobState : Type 0 where
  pending running completed failed skipped cancelled : JobState

-- terminalStates
unfoldable pub is_terminal : JobState → Bool
is_terminal completed = true
is_terminal failed = true
is_terminal skipped = true
is_terminal cancelled = true
is_terminal _ = false

pub record Job : Type 0 where
  pub id : String
  pub project : String
  pub artifact_path : String
  pub agent_name : String
  pub state : JobState
  pub reason : String
  pub attempts : ℕ
  pub enqueued_at : ℕ
  pub started_at : Option ℕ
  pub finished_at : Option ℕ
  pub position : ℤ
  pub enqueued_by : String
