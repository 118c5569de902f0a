-- ===== src/StatusCheck.antt =====
-- internal/statuscheck/statuscheck.go: which artifacts of a lineage lag behind all their children.
-- The reason text of a result is left out, and so are the fields that its caller fills in.
pub mod Stale
pub mod Advance
mod Examples
use kaos_control.Common.{
  ℕ, zero, suc, ◌+◌, String, Bool, true, false, not, ◌&&◌, ◌||◌, ltb, leb, Option, none, some, List,
  [], ◌∷◌, length, str_eq, has, if◌then◌else◌,
}

abbrev pub status_order : List String
status_order =
    "draft" ∷ "clarifying" ∷ "planning" ∷ "in-development" ∷ "in-qa" ∷ "approved" ∷ "done" ∷ []

-- terminalStatuses
abbrev pub terminal_statuses : List String
terminal_statuses = "raw" ∷ "rejected" ∷ "abandoned" ∷ "blocked" ∷ []

unfoldable pub is_terminal : String → Bool
is_terminal s = has s terminal_statuses

-- The loop of statusRank from position `i` on, with `none` for -1.
unfoldable pub rank_from : ℕ → List String → String → Option ℕ
rank_from i [] s = none
rank_from i (v ∷ order) s =
    let rest = rank_from (suc i) order s in if str_eq v s then some i else rest

unfoldable pub status_rank : String → Option ℕ
unfolding rank_from
status_rank s = rank_from 0 status_order s

-- What Check reads of an index row.
pub record Artifact : Type 0 where
  pub path : String
  pub lineage : String
  pub type : String
  pub status : String
  pub parent : String

pub record StaleResult : Type 0 where
  pub path : String
  pub current_status : String
  pub suggested_status : String
  pub children : List Artifact

-- byPath, in which the last row of a path stands.
unfoldable pub by_path : String → List Artifact → Option Artifact
by_path p [] = none
by_path p (a ∷ rows) = elim (by_path p rows) [
  | some b ↦ some b
  | none ↦ if str_eq a.path p then some a else none
]

abbrev pub keep_active : Option Artifact → List Artifact → List Artifact
keep_active none rest = rest
keep_active (some c) rest = if is_terminal c.status then rest else c ∷ rest

-- The loop over children[path]: the rows `rows` whose parent it is, looked up in `all`.
unfoldable pub active_children : String → List Artifact → List Artifact → List Artifact
unfolding by_path is_terminal
active_children path all [] = []
active_children path all (r ∷ rows) =
    let rest = active_children path all rows in
    if not (str_eq r.parent "") && str_eq r.parent path
    then keep_active (by_path r.path all) rest
    else rest

-- `cr <= parentRank`, where the parent's rank may be -1.
abbrev pub is_ahead : Option ℕ → ℕ → Bool
is_ahead none cr = true
is_ahead (some p) cr = ltb p cr

abbrev pub lower : Option ℕ → ℕ → Option ℕ
lower none cr = some cr
lower (some m) cr = if ltb cr m then some cr else some m

-- The loop over the active children, with `least` for minChildRank: `none` where one is not ahead.
unfoldable pub min_child_rank : Option ℕ → Option ℕ → List Artifact → Option ℕ
min_child_rank parent least [] = least
min_child_rank parent least (c ∷ children) = elim (status_rank c.status) [
  | none ↦ none
  | some cr ↦ if is_ahead parent cr then min_child_rank parent (lower least cr) children else none
]

unfoldable pub nth_status : ℕ → List String → String
nth_status i [] = ""
nth_status zero (v ∷ order) = v
nth_status (suc i) (v ∷ order) = nth_status i order

-- The body of Check's loop, up to the suggested status.
unfoldable pub suggested : List Artifact → Artifact → Option String
unfolding is_terminal active_children min_child_rank nth_status
suggested rows a =
    if is_terminal a.status
    then none
    else elim (min_child_rank (status_rank a.status) none (active_children a.path rows rows)) [
      | none ↦ none
      | some m ↦ some (nth_status m status_order)
    ]

abbrev pub keep_result :
    Artifact → List Artifact → Option String → List StaleResult → List StaleResult
keep_result a children none rest = rest
keep_result a children (some s) rest =
    record { path = a.path; current_status = a.status; suggested_status = s; children = children }
    ∷ rest

unfoldable pub check_loop : List Artifact → List Artifact → List StaleResult
unfolding suggested
check_loop all [] = []
check_loop all (a ∷ rows) =
    keep_result a (active_children a.path all all) (suggested all a) (check_loop all rows)

-- Check
unfoldable pub check : List Artifact → List StaleResult
unfolding check_loop
check rows = if leb (length rows) 1 then [] else check_loop rows rows
