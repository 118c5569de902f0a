-- ===== src/Queue/Store.antt =====
-- internal/queue/store.go: the SQLite store of the queue. The table `jobs` is the list of its rows in
-- the order of insertion. Of the database's errors only the primary key's is modelled; a statement
-- that fails changes nothing.
pub mod Active
pub mod Order
pub mod Lookup
pub mod Listing
use kaos_control.Common.{
  ℕ, zero, suc, ℤ, pos, negsuc, ltb_ℤ, ◌+ℤ◌, ◌-ℤ◌, String, Bool, true, false, not, ◌&&◌, ◌||◌, ◌==◌,
  leb, ltb, Option, none, some, List, [], ◌∷◌, ◌++◌, str_eq, if◌then◌else◌, Result, ok, err, ◌>>=◌,
}
use kaos_control.Queue.{
  JobState, pending, running, completed, failed, skipped, cancelled, is_terminal, Job,
}

pub data StoreError : Type 0 where
  duplicate_active constraint not_terminal not_found cannot_cancel_running already_terminal :
      StoreError

-- The table `jobs`.
abbrev pub Rows : Type 0
Rows = List Job

-- state IN ('pending','running')
abbrev pub is_active : JobState → Bool
is_active pending = true
is_active running = true
is_active _ = false

abbrev pub is_pending : JobState → Bool
is_pending pending = true
is_pending _ = false

abbrev pub is_running : JobState → Bool
is_running running = true
is_running _ = false

-- project = ? AND artifact_path = ? AND state IN ('pending','running')
abbrev pub active_at : String → String → Job → Bool
active_at project path j =
    str_eq j.project project && str_eq j.artifact_path path && is_active j.state

unfoldable pub has_id : String → Rows → Bool
has_id id [] = false
has_id id (j ∷ rows) = str_eq j.id id || has_id id rows

unfoldable pub has_active : String → String → Rows → Bool
has_active project path [] = false
has_active project path (j ∷ rows) = active_at project path j || has_active project path rows

-- UPDATE jobs SET … WHERE id = ?
unfoldable pub update : String → (Job → Job) → Rows → Rows
update id f [] = []
update id f (j ∷ rows) = (if str_eq j.id id then f j else j) ∷ update id f rows

-- SELECT MAX(position)
unfoldable pub max_position : Rows → Option ℤ
max_position [] = none
max_position (j ∷ rows) = elim (max_position rows) [
  | none ↦ some j.position
  | some p ↦ some (if ltb_ℤ p j.position then j.position else p)
]

-- SELECT MIN(position)
unfoldable pub select_min : Rows → Option ℤ
select_min [] = none
select_min (j ∷ rows) = elim (select_min rows) [
  | none ↦ some j.position
  | some p ↦ some (if ltb_ℤ j.position p then j.position else p)
]

-- MinPosition
unfoldable pub min_position : Rows → ℤ
min_position rows = elim (select_min rows) [ none ↦ pos 0 | some p ↦ p ]

-- The defaults that Enqueue and EnqueueDirect fill in, and the columns that the INSERT fixes. `fresh`
-- is what newID returns.
unfoldable pub filled : String → ℕ → Job → Job
filled fresh now j = record j {
  id = if str_eq j.id "" then fresh else j.id;
  enqueued_at = if j.enqueued_at == 0 then now else j.enqueued_at;
  attempts = if j.attempts == 0 then 1 else j.attempts;
  state = pending;
  started_at = none;
  finished_at = none;
}

abbrev pub is_zero : ℤ → Bool
is_zero (pos n) = n == 0
is_zero (negsuc n) = false

unfoldable pub next_position : Rows → ℤ
next_position rows = elim (max_position rows) [ none ↦ pos 1 | some p ↦ p +ℤ pos 1 ]

unfoldable pub positioned : Rows → Job → Job
positioned rows j = if is_zero j.position then record j { position = next_position rows } else j

-- An INSERT, which the primary key may refuse.
unfoldable pub insert : Job → Rows → Result StoreError Rows
insert j rows = if has_id j.id rows then err constraint else ok (rows ++ j ∷ [])

unfoldable pub enqueue : String → ℕ → Job → Rows → Result StoreError Rows
enqueue fresh now j rows =
    if has_active j.project j.artifact_path rows
    then err duplicate_active
    else insert (positioned rows (filled fresh now j)) rows

unfoldable pub enqueue_direct : String → ℕ → Job → Rows → Result StoreError Rows
enqueue_direct fresh now j rows = insert (filled fresh now j) rows

-- WHERE state = 'pending' ORDER BY position ASC LIMIT 1, the first inserted among equals
unfoldable pub head_pending : Rows → Option Job
head_pending [] = none
head_pending (j ∷ rows) = elim (head_pending rows) [
  | none ↦ if is_pending j.state then some j else none
  | some k ↦ if is_pending j.state && not (ltb_ℤ k.position j.position) then some j else some k
]

abbrev pub started : ℕ → Job → Job
started now j = record j { state = running; started_at = some now }

unfoldable pub dequeue : ℕ → Rows → Option Job × Rows
dequeue now rows = elim (head_pending rows) [
  | none ↦ (none, rows)
  | some j ↦ (some (started now j), update j.id (started now) rows)
]

abbrev pub ended : JobState → String → ℕ → Job → Job
ended state reason now j = record j { state = state; reason = reason; finished_at = some now }

unfoldable pub mark_terminal : String → JobState → String → ℕ → Rows → Result StoreError Rows
mark_terminal id state reason now rows =
    if not (is_terminal state)
    then err not_terminal
    else if has_id id rows
    then ok (update id (ended state reason now) rows)
    else err not_found

unfoldable pub get_by_id : String → Rows → Option Job
get_by_id id [] = none
get_by_id id (j ∷ rows) = if str_eq j.id id then some j else get_by_id id rows

unfoldable pub find_active_by_path : String → String → Rows → Option Job
find_active_by_path project path [] = none
find_active_by_path project path (j ∷ rows) =
    if active_at project path j then some j else find_active_by_path project path rows

-- The tests of Cancel on the row that it has read.
unfoldable pub check_cancel : Option Job → Result StoreError (Unit {0})
check_cancel none = err not_found
check_cancel (some j) =
    if is_running j.state
    then err cannot_cancel_running
    else if is_terminal j.state
    then err already_terminal
    else ok tt

unfoldable pub cancel : String → ℕ → Rows → Result StoreError Rows
cancel id now rows = do
  _ ← check_cancel (get_by_id id rows)
  mark_terminal id cancelled "cancelled_by_user" now rows

abbrev pub recovered : Job → Job
recovered j =
    if is_running j.state
    then record j { state = pending; started_at = none; attempts = suc j.attempts }
    else j

unfoldable pub recover_orphans : Rows → Rows
recover_orphans [] = []
recover_orphans (j ∷ rows) = recovered j ∷ recover_orphans rows

-- ORDER BY position ASC
unfoldable pub insert_by_position : Job → Rows → Rows
insert_by_position j [] = j ∷ []
insert_by_position j (k ∷ rows) =
    if ltb_ℤ k.position j.position then k ∷ insert_by_position j rows else j ∷ k ∷ rows

-- state IN (…) ORDER BY position ASC, for a set of states given by its test
unfoldable pub list_by_state : (JobState → Bool) → Rows → Rows
list_by_state wanted [] = []
list_by_state wanted (j ∷ rows) =
    let rest = list_by_state wanted rows in
    if wanted j.state then insert_by_position j rest else rest

-- COALESCE(finished_at, enqueued_at)
abbrev pub recency : Job → ℕ
recency j = elim j.finished_at [ none ↦ j.enqueued_at | some t ↦ t ]

unfoldable pub insert_by_recency : Job → Rows → Rows
insert_by_recency j [] = j ∷ []
insert_by_recency j (k ∷ rows) =
    if ltb (recency j) (recency k) then k ∷ insert_by_recency j rows else j ∷ k ∷ rows

unfoldable pub terminal_by_recency : Rows → Rows
terminal_by_recency [] = []
terminal_by_recency (j ∷ rows) =
    let rest = terminal_by_recency rows in
    if is_terminal j.state then insert_by_recency j rest else rest

unfoldable pub limit : ℕ → Rows → Rows
limit zero rows = []
limit (suc n) [] = []
limit (suc n) (j ∷ rows) = j ∷ limit n rows

unfoldable pub list_recent : ℕ → Rows → Rows
list_recent n rows = limit n (terminal_by_recency rows)

-- The table `queue_state`, whose three keys SetPauseState writes in one transaction and
-- GetPauseState reads, with `no_pause` where they are absent.
pub record PauseState : Type 0 where
  pub is_paused : Bool
  pub until : ℕ
  pub why : String

abbrev pub no_pause : PauseState
no_pause = record { is_paused = false; until = 0; why = "" }
