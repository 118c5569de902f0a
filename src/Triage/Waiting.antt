-- ===== src/Triage/Waiting.antt =====
-- A call of Trigger that waits for a slot does not look at the artifact again.
use kaos_control.Common.{◌+◌, ◌-◌, ◌<◌, none, some, List, ◌∷◌, ◌≡◌}
use kaos_control.Triage.{put, Manager, Thread}
use kaos_control.Triage.Threads.{World}

abbrev with_thread : Manager → Thread → List Thread → World
with_thread m t rest = record { manager = m; threads = t ∷ rest }

-- Nothing stands in the way of a thread.
pub record IsFree (m : Manager) (t : Thread) : Type 0 where
  pub slot : m.slots < m.max_concurrent
  pub unlocked : m.locks t.lineage ≡ none
  pub not_in_flight : m.in_flight t.path ≡ none

abbrev after_start : Manager → Thread → Manager
after_start m t = record m {
  slots = m.slots + 1;
  locks = put t.lineage (some t.run) m.locks;
  in_flight = put t.path (some t.run) m.in_flight;
}

abbrev after_run : Manager → Thread → Manager
after_run m t = record m {
  slots = m.slots + 1 - 1;
  locks = put t.lineage none (put t.lineage (some t.run) m.locks);
  in_flight = put t.path none (put t.path (some t.run) m.in_flight);
}
