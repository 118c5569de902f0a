-- ===== src/Locks/Examples.antt =====
-- The refinement at a concrete table.
use kaos_control.Common.{refl, [], ◌∷◌}
use kaos_control.Locks.{LockRow, Locks, get_lock, reap_locks}
use kaos_control.Locks.Table.{OneEach, Refines, locks_refine}

abbrev held : Locks
held =
    record {
      lineage = "login";
      holder = "ann";
      kind = "editor";
      acquired_at = 5;
      last_heartbeat = 9;
    }
    ∷ record {
      lineage = "search";
      holder = "r7";
      kind = "agent";
      acquired_at = 8;
      last_heartbeat = 8;
    }
    ∷ []

locks_refine_example : Refines held
unfolding kaos_control.Locks.Table.OneEach get_lock
locks_refine_example = locks_refine held (refl, (refl, tt))
