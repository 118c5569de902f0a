-- ===== src/Transition/Settles.antt =====
-- Where a transition and the automatic transitions behind it end.
use kaos_control.Common.{
  String, ◌≡◌, ◌≢◌, refl, subst, true, false, Bool-cases, Option, none, some, List, str_eq,
  str_eq_iff, str_eq-eq, Result, ok, arith, inl, inr,
}
use kaos_control.Workflow.{can_transition, gate_ready}
use kaos_control.Workflow as W
use kaos_control.Workflow.Permits.{can_transition_iff}
use kaos_control.Transition.{
  File, Row, Artifact, Disk, with_status, is_current, index_file, TransitionError, apply_transition,
  gated, on_row, handle_transition,
}
use kaos_control.Transition.Automatic.{IsSettled, index-IsSettled}

-- What a successful transition was allowed by, and where it ends.
pub record IsTransition (wf : W.Engine) (roles : List String) (to : String) (a a' : Artifact)
    : Type 0 where
  pub row : Row
  pub found : a.row ≡ some row
  pub allowed : can_transition wf row.status to roles row.type ≡ true
  pub on_disk : a.file.status ≡ row.status
  pub ends : IsSettled a.file.has_questions to a'

gated_ok :
    (rows : Option (List W.Row)) (required roles : List String) (from to : String)
    (next : Result TransitionError Artifact) (a' : Artifact)
    → gated rows required roles from to next ≡ ok a'
    → next ≡ ok a'
unfolding gated
gated_ok rows required roles from to next a' h = ground (arith, h)

apply_ok :
    (wf : Option W.Engine) (writes d : Disk) (from to : String) (a a' : Artifact)
    → apply_transition wf writes d from to a ≡ ok a'
    → (str_eq a.file.status from ≡ true)
      × (index_file wf d (record a { file = with_status writes to a.file }) ≡ a')
unfolding apply_transition
apply_ok wf writes d from to a a' h = ground (arith, h)

not_current :
    (f : File) (r : Row) (o : Option Row)
    → o ≡ some r
    → r.status ≢ f.status
    → is_current (record { file = f; row = o }) ≡ false
not_current f r o e n = rw e (ground (arith, str_eq_iff r.status f.status, n))

handle_row :
    (ts : List W.Transition) (writes d : Disk) (to : String) (roles : List String) (a a' : Artifact)
    (r : Row)
    → d.succeeds ≡ true
    → a.row ≡ some r
    → can_transition (W.new ts) r.status to roles r.type ≡ true
    → apply_transition (some (W.new ts)) writes d r.status to a ≡ ok a'
    → IsTransition (W.new ts) roles to a a'
handle_row ts writes d to roles a a' r w e c h =
    let (disk, result) = apply_ok (some (W.new ts)) writes d r.status to a a' h in
    record {
      row = r;
      found = e;
      allowed = c;
      on_disk = str_eq-eq a.file.status r.status disk;
      ends = subst (IsSettled a.file.has_questions to) result (
          index-IsSettled ts d (record a { file = with_status writes to a.file }) w
            (not_current (with_status writes to a.file) r a.row e
              ((can_transition_iff (W.new ts) r.status to roles r.type).0 c).0));
    }

row_ok :
    (ts : List W.Transition) (writes d : Disk) (rows : Option (List W.Row))
    (required roles : List String) (to : String) (a a' : Artifact) (o : Option Row)
    → d.succeeds ≡ true
    → a.row ≡ o
    → on_row (W.new ts) writes d rows required roles to a o ≡ ok a'
    → IsTransition (W.new ts) roles to a a'
row_ok ts writes d rows required roles to a a' none w e h = absurd (ground (arith, h))
row_ok ts writes d rows required roles to a a' (some r) w e h =
    elim (Bool-cases (can_transition (W.new ts) r.status to roles r.type)) [
      | inr c ↦ absurd (ground (arith, rw c at h))
      | inl c ↦ handle_row ts writes d to roles a a' r w e c (
          gated_ok rows required roles r.status to
            (apply_transition (some (W.new ts)) writes d r.status to a) a' (rw c at h))
    ]

-- A transition that the handler reports as done, with any configuration, was allowed from the indexed
-- status, which was the file's; and where the writes of the automatic transitions succeed, the index
-- shows the file afterwards, and its status is blocked if it has open questions, else draft if it was to
-- be blocked, else the one asked for.
pub transition_settles :
    (ts : List W.Transition) (writes d : Disk) (rows : Option (List W.Row))
    (required roles : List String) (to : String) (a a' : Artifact)
    → d.succeeds ≡ true
    → handle_transition (W.new ts) writes d rows required roles to a ≡ ok a'
    → IsTransition (W.new ts) roles to a a'
unfolding handle_transition
transition_settles ts writes d rows required roles to a a' w h =
    row_ok ts writes d rows required roles to a a' a.row w refl h
