-- ===== src/Transition.antt =====
-- One artifact on disk and in the index: IndexFile of internal/index/index.go from the parsed file on,
-- internal/index/autoblock.go, and applyTransition and the decisions of handleTransitionArtifact in
-- internal/http/transition.go. A file is what Parse reads of it and the hash of its bytes; the hash that a
-- write gives and whether a write succeeds are parameters. The file has frontmatter and is no release.
pub mod Automatic
pub mod Settles
mod Examples
use kaos_control.Common.{
  ℕ, String, Bool, true, false, not, ◌&&◌, ◌==◌, Option, none, some, List, [], ◌∷◌, str_eq,
  if◌then◌else◌, Result, ok, err,
}
use kaos_control.Workflow.{can_transition, has_product_owner, gate_ready}
use kaos_control.Workflow as W

pub record File : Type 0 where
  pub hash : ℕ
  pub status : String
  pub type : String
  pub has_status : Bool
  pub has_questions : Bool

-- The index's row, as far as IndexFile and the handler read it.
pub record Row : Type 0 where
  pub hash : ℕ
  pub status : String
  pub type : String

pub record Artifact : Type 0 where
  pub file : File
  pub row : Option Row

abbrev pub row_of : File → Row
row_of f = record { hash = f.hash; status = f.status; type = f.type }

-- Upsert
abbrev pub upsert : Artifact → Artifact
upsert a = record a { row = some (row_of a.file) }

-- What a write of a status gives: the new hash of the file, and whether it succeeds.
pub record Disk : Type 0 where
  pub new_hash : File → String → ℕ
  pub succeeds : Bool

abbrev pub with_status : Disk → String → File → File
with_status d status f = record f { hash = d.new_hash f status; status = status; has_status = true }

-- writeAndReindex
unfoldable pub write_and_reindex : Disk → String → Artifact → Artifact
write_and_reindex d status a =
    if d.succeeds then upsert (record a { file = with_status d status a.file }) else a

-- autoBlock
unfoldable pub auto_block : W.Engine → Disk → Artifact → Artifact
unfolding write_and_reindex
auto_block wf d a =
    if not (can_transition wf a.file.status "blocked" ("system" ∷ []) a.file.type)
    then a
    else write_and_reindex d "blocked" a

-- autoUnblock
unfoldable pub auto_unblock : W.Engine → Disk → Artifact → Artifact
unfolding write_and_reindex
auto_unblock wf d a =
    if not (can_transition wf "blocked" "draft" ("system" ∷ []) a.file.type)
    then a
    else write_and_reindex d "draft" a

unfoldable pub apply_open_question_transition : W.Engine → Disk → Artifact → Artifact
unfolding auto_block auto_unblock
apply_open_question_transition wf d a =
    if a.file.has_questions && not (str_eq a.file.status "blocked")
    then auto_block wf d a
    else if not a.file.has_questions && str_eq a.file.status "blocked"
    then auto_unblock wf d a
    else a

-- The guard of IndexFile: the row is that of this content and this status.
abbrev pub is_current : Artifact → Bool
is_current a = elim a.row [
  | none ↦ false
  | some r ↦ r.hash == a.file.hash && str_eq r.status a.file.status
]

-- IndexFile; an index without an engine has no automatic transitions.
unfoldable pub index_file : Option W.Engine → Disk → Artifact → Artifact
unfolding apply_open_question_transition
index_file wf d a =
    if is_current a
    then a
    else elim wf [ none ↦ upsert a | some e ↦ apply_open_question_transition e d (upsert a) ]

pub data TransitionError : Type 0 where
  status_changed : TransitionError
  no_status_field : TransitionError
  write_failed : TransitionError
  forbidden : TransitionError
  gate_not_ready : TransitionError
  not_found : TransitionError
  db_error : TransitionError

-- applyTransition on the status `from` that the handler read: `writes` is its own write, `d` those of
-- IndexFile behind it. That a document that goes in-qa gets its assignee is part of the new hash.
unfoldable pub apply_transition :
    Option W.Engine → Disk → Disk → String → String → Artifact → Result TransitionError Artifact
unfolding index_file
apply_transition wf writes d from to a =
    if not (str_eq a.file.status from)
    then err status_changed
    else if not a.file.has_status
    then err no_status_field
    else if not writes.succeeds
    then err write_failed
    else ok (index_file wf d (record a { file = with_status writes to a.file }))

-- The required-plans gate of handleTransitionArtifact, on what GateReady's query returns
unfoldable pub gated :
    Option (List W.Row)
    → List String
    → List String
    → String
    → String
    → Result TransitionError Artifact
    → Result TransitionError Artifact
gated rows required roles from to next =
    if not (has_product_owner roles) && str_eq from "planning" && str_eq to "in-development"
    then elim (gate_ready rows required) [
      | none ↦ err db_error
      | some (ready, missing) ↦ if ready then next else err gate_not_ready
    ]
    else next

abbrev pub on_row :
    W.Engine
    → Disk
    → Disk
    → Option (List W.Row)
    → List String
    → List String
    → String
    → Artifact
    → Option Row
    → Result TransitionError Artifact
on_row wf writes d rows required roles to a none = err not_found
on_row wf writes d rows required roles to a (some r) =
    if not (can_transition wf r.status to roles r.type)
    then err forbidden
    else gated rows required roles r.status to (apply_transition (some wf) writes d r.status to a)

-- handleTransitionArtifact for a user with these roles, up to the answer's text
unfoldable pub handle_transition :
    W.Engine
    → Disk
    → Disk
    → Option (List W.Row)
    → List String
    → List String
    → String
    → Artifact
    → Result TransitionError Artifact
unfolding apply_transition gated
handle_transition wf writes d rows required roles to a =
    on_row wf writes d rows required roles to a a.row
