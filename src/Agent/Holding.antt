-- ===== src/Agent/Holding.antt =====
-- Whose the lock of a lineage is.
use kaos_control.Common.{
  ℕ, ◌≡◌, ◌≢◌, ◌∙◌, sym, ap, subst, String, some, [], ◌∷◌, ◌++◌, str_eq, str_eq_iff, ok, Bool-cases,
  Option-cases, inl, inr, arith,
}
use kaos_control.Locks.{
  Locks, LockRow, new_row, get_lock, acquire_lock, release_lock, heartbeat_lock,
}
use kaos_control.Locks.Table.{get_lock-append, get_lock-release, get_lock-heartbeat}
use kaos_control.Agent.{ActiveRun, Manager}
use kaos_control.Agent.Runs.{IsStarted}

-- The lock of the run's lineage is the run's.
pub record Holds (locks : Locks) (r : ActiveRun) : Type 0 where
  pub row : LockRow
  pub found : get_lock r.lineage locks ≡ some row
  pub is_own : row.holder ≡ r.run_id

pub same_run :
    (locks : Locks) (r s : ActiveRun)
    → Holds locks r
    → Holds locks s
    → r.lineage ≡ s.lineage
    → r.run_id ≡ s.run_id
same_run locks r s hr hs e = sym hr.is_own ∙ ap (λ x. x.holder) same ∙ hs.is_own
  where
    same : hr.row ≡ hs.row
    same = ground (arith, sym hr.found ∙ ap (λ l. get_lock l locks) e ∙ hs.found)

-- Another run's lock survives the release of a run's lineage.
pub Holds-release :
    (locks : Locks) (r s : ActiveRun)
    → Holds locks r
    → Holds locks s
    → s.run_id ≢ r.run_id
    → Holds (release_lock r.lineage locks) s
Holds-release locks r s hr hs ne = record {
  row = hs.row;
  found = ground (
    arith,
    get_lock-release s.lineage r.lineage locks,
    hs.found,
    hr.found,
    hs.is_own,
    hr.is_own,
    str_eq_iff r.lineage s.lineage,
    λ (e : r.lineage ≡ s.lineage). ne (sym (same_run locks r s hr hs e)),
  );
  is_own = hs.is_own;
}

pub Holds-started :
    (m m' : Manager) (id lineage : String) (s : ActiveRun)
    → IsStarted m m' id lineage
    → Holds m.locks s
    → Holds m'.locks s
Holds-started m m' id lineage s st h = record {
  row = h.row;
  found =
      ground (arith, st.lock_view s.lineage, h.found, st.was_free, str_eq_iff lineage s.lineage);
  is_own = h.is_own;
}

pub Holds-acquire :
    (now : ℕ) (l h k : String) (locks locks' : Locks) (s : ActiveRun)
    → acquire_lock now l h k locks ≡ ok locks'
    → Holds locks s
    → Holds locks' s
unfolding acquire_lock
Holds-acquire now l h k locks locks' s e v = elim (Option-cases (get_lock l locks)) [
  | inr (r, n) ↦ ground arith
  | inl n ↦
      let same : locks ++ new_row now l h k ∷ [] ≡ locks' = ground arith in
      subst (λ x. Holds x s) same
        (record {
          row = v.row;
          found = ground (
            arith,
            get_lock-append s.lineage locks (new_row now l h k) n,
            v.found,
            str_eq_iff l s.lineage,
          );
          is_own = v.is_own;
        })
]

pub Holds-beat :
    (now : ℕ) (l : String) (locks : Locks) (s : ActiveRun)
    → Holds locks s
    → Holds (heartbeat_lock now l locks) s
Holds-beat now l locks s v = elim (Bool-cases (str_eq l s.lineage)) [
  | inl e ↦ record {
    row = record v.row { last_heartbeat = now };
    found =
        ground (arith, get_lock-heartbeat now s.lineage l locks, v.found, str_eq_iff l s.lineage);
    is_own = v.is_own;
  }
  | inr e ↦ record {
    row = v.row;
    found = ground (arith, get_lock-heartbeat now s.lineage l locks, v.found);
    is_own = v.is_own;
  }
]
