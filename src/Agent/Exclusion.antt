-- ===== src/Agent/Exclusion.antt =====
-- The exclusion of runs by the lineage lock.
use kaos_control.Common.{
  ℕ, ◌-◌, ◌≤◌, ◌≡◌, ◌∙◌, sym, ap, subst, String, Option, List, [], ◌∷◌, length, length-append, All,
  All-append, All-mono, All-Memᴰ, Memᴰ, str_eq_refl, Result, ok, err, arith,
}
use kaos_control.Workflow as W
use kaos_control.Locks.{Locks, acquire_lock, release_lock, heartbeat_lock}
use kaos_control.Agent.{
  Target, AgentConfig, RunRow, ActiveRun, Manager, StartError, lineage_of, Answers, start_run,
  without, finish_run, kill_and_fail,
}
use kaos_control.Agent.Runs.{IsAnswer, start_run_lem}
use kaos_control.Agent.Actives.{
  Unused, Distinct, Distinct-append, length-without, All-without, Distinct-without,
}
use kaos_control.Agent.Holding.{
  Holds, same_run, Holds-release, Holds-started, Holds-acquire, Holds-beat,
}

-- Every active run holds the lock of its lineage and one slot, and there are no more than allowed.
pub record IsExclusive (m : Manager) : Type 0 where
  pub distinct : Distinct m.active
  pub all_hold : All (Holds m.locks) m.active
  pub one_each : m.sem ≡ length m.active
  pub at_most : m.sem ≤ m.max_concurrent

start_keeps :
    (m : Manager) (id lineage : String) (o : Manager × Result StartError String)
    → IsAnswer m id lineage o
    → Unused id m.active
    → IsExclusive m
    → IsExclusive o.0
unfolding Unused
start_keeps m id lineage (m', err e) a u v = record {
  distinct = subst Distinct (sym a.same_active) v.distinct;
  all_hold =
      subst (λ l. All (Holds l) m'.active) (sym a.same_locks)
        (subst (All (Holds m.locks)) (sym a.same_active) v.all_hold);
  one_each = a.same_sem ∙ v.one_each ∙ ap length (sym a.same_active);
  at_most = omega (arith, v.at_most, a.same_sem, a.same_max);
}
start_keeps m id lineage (m', ok x) (e, st) u v = record {
  distinct = subst Distinct (sym st.its_entry) (Distinct-append m.active entry v.distinct u);
  all_hold = subst (All (Holds m'.locks)) (sym st.its_entry) (
      All-append _ m.active (entry ∷ [])
        (All-mono _ _ m.active (λ s. Holds-started m m' id lineage s st) v.all_hold) (own, tt));
  one_each =
      omega (
        arith,
        st.its_slot,
        v.one_each,
        ap length st.its_entry,
        length-append m.active (entry ∷ []),
      );
  at_most = omega (arith, st.its_slot, st.had_slot, st.same_max);
}
  where
    entry : ActiveRun
    entry = record { run_id = id; lineage = lineage }

    own : Holds m'.locks entry
    own = record {
      row = st.row;
      found = ground (arith, st.lock_view lineage, str_eq_refl lineage);
      is_own = st.its_holder;
    }

-- What the two ways to end a run have in common.
abbrev ended : ActiveRun → Manager → Manager
ended r m = record m {
  active = without r.run_id m.active;
  sem = m.sem - 1;
  locks = release_lock r.lineage m.locks;
}

end_keeps :
    (r : ActiveRun) (m : Manager) → Memᴰ r m.active → IsExclusive m → IsExclusive (ended r m)
end_keeps r m i v = record {
  distinct = Distinct-without r.run_id m.active v.distinct;
  all_hold =
      All-mono _ _ (without r.run_id m.active)
        (λ s p. Holds-release m.locks r s (All-Memᴰ (Holds m.locks) m.active v.all_hold i) p.0 p.1)
        (All-without (Holds m.locks) r.run_id m.active v.all_hold);
  one_each = omega (arith, v.one_each, length-without r m.active v.distinct i);
  at_most = omega (arith, v.at_most);
}

-- Rows and policies do not matter.
same_resources :
    (m : Manager) (p : List String) (rows : List RunRow)
    → IsExclusive m
    → IsExclusive (record m { policies = p; rows = rows })
same_resources m p rows v = record {
  distinct = v.distinct;
  all_hold = v.all_hold;
  one_each = v.one_each;
  at_most = v.at_most;
}

abbrev pub with_locks : Locks → Manager → Manager
with_locks l m = record m { locks = l }

acquire_keeps :
    (now : ℕ) (l h k : String) (m : Manager) (locks : Locks)
    → acquire_lock now l h k m.locks ≡ ok locks
    → IsExclusive m
    → IsExclusive (with_locks locks m)
unfolding acquire_lock
acquire_keeps now l h k m locks e v = record {
  distinct = v.distinct;
  all_hold = All-mono _ _ m.active (λ s. Holds-acquire now l h k m.locks locks s e) v.all_hold;
  one_each = v.one_each;
  at_most = v.at_most;
}

-- One step of the manager or of an editor: the reaper and the handler that releases any lock are not
-- among them.
pub data Step : Manager → Manager → Type 0 where
  starts :
      {m : Manager} (wf : Option W.Engine) (ag : AgentConfig) (a : Answers) (now : ℕ)
      (id path : String) (target : Option Target)
      → Unused id m.active
      → Step m (start_run wf ag a now id path target m).0
  finishes :
      {m : Manager} (r : ActiveRun) (status : String)
      → Memᴰ r m.active
      → Step m (finish_run r status m)
  kills : {m : Manager} (r : ActiveRun) → Memᴰ r m.active → Step m (kill_and_fail r m)
  acquires :
      {m : Manager} (now : ℕ) (l h k : String) (locks : Locks)
      → acquire_lock now l h k m.locks ≡ ok locks
      → Step m (with_locks locks m)
  beats :
      {m : Manager} (now : ℕ) (l : String) → Step m (with_locks (heartbeat_lock now l m.locks) m)

pub data Steps : Manager → Manager → Type 0 where
  done : {m : Manager} → Steps m m
  next : {m m' m'' : Manager} → Steps m m' → Step m' m'' → Steps m m''

Step-IsExclusive : {m m' : Manager} → Step m m' → IsExclusive m → IsExclusive m'
unfolding finish_run kill_and_fail
Step-IsExclusive {m} (starts wf ag a now id path target u) v =
    start_keeps m id (lineage_of path target) (start_run wf ag a now id path target m)
      (start_run_lem wf ag a now id path target m) u v
Step-IsExclusive {m} (finishes r status i) v = same_resources (ended r m) _ _ (end_keeps r m i v)
Step-IsExclusive {m} (kills r i) v = same_resources (ended r m) _ _ (end_keeps r m i v)
Step-IsExclusive {m} (acquires now l h k locks e) v = acquire_keeps now l h k m locks e v
Step-IsExclusive {m} (beats now l) v = record {
  distinct = v.distinct;
  all_hold = All-mono _ _ m.active (λ s. Holds-beat now l m.locks s) v.all_hold;
  one_each = v.one_each;
  at_most = v.at_most;
}

Steps-IsExclusive : {m m' : Manager} → Steps m m' → IsExclusive m → IsExclusive m'
Steps-IsExclusive done v = v
Steps-IsExclusive (next r s) v = Step-IsExclusive s (Steps-IsExclusive r v)

-- As long as neither the reaper nor the releasing handler takes a lock away: after any starts with
-- ids that no active run has, ends of runs, acquisitions by editors and heartbeats, in any order, every
-- active run holds one slot of the semaphore, which is never exceeded, and two active runs on one
-- lineage are one and the same run.
pub runs_exclude :
    (m m' : Manager)
    → m.active ≡ []
    → m.sem ≡ 0
    → Steps m m'
    → (m'.sem ≡ length m'.active)
      × (m'.sem ≤ m'.max_concurrent)
      × ((r s : ActiveRun)
          → Memᴰ r m'.active
          → Memᴰ s m'.active
          → r.lineage ≡ s.lineage
          → r.run_id ≡ s.run_id)
unfolding Distinct
runs_exclude m m' none_active free st =
    let start : IsExclusive m = record {
      distinct = subst Distinct (sym none_active) tt;
      all_hold = subst (All (Holds m.locks)) (sym none_active) tt;
      one_each = free ∙ ap length (sym none_active);
      at_most = omega (arith, free);
    } in
    let v = Steps-IsExclusive st start in
    (
      v.one_each,
      v.at_most,
      λ r s i k e.
          same_run m'.locks r s (All-Memᴰ (Holds m'.locks) m'.active v.all_hold i)
            (All-Memᴰ (Holds m'.locks) m'.active v.all_hold k) e,
    )
