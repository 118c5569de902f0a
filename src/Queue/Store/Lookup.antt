-- ===== src/Queue/Store/Lookup.antt =====
-- The queue's table as a map from ids to jobs, and the outcome of Cancel and MarkTerminal in it.
use kaos_control.Common.{
  ℕ, String, true, false, ◌≡◌, ◌↔◌, refl, [], ◌∷◌, ◌++◌, Memᴰ, arith, str_eq, str_eq_iff,
  Bool-cases, Option-cases, inl, inr, Option, none, some, Result, ok, err, if◌then◌else◌,
}
use kaos_control.Queue.{
  JobState, pending, running, completed, failed, skipped, cancelled, is_terminal, Job,
}
use kaos_control.Queue.Store.{
  Rows, StoreError, not_found, cannot_cancel_running, already_terminal, has_id, update, ended,
  mark_terminal, get_by_id, check_cancel, cancel,
}

abbrev pub map_option : (Job → Job) → Option Job → Option Job
map_option f none = none
map_option f (some j) = some (f j)

-- An UPDATE that leaves ids alone, read through the map.
pub get_by_id-update :
    (x id : String) (f : Job → Job) (rows : Rows)
    → ((j : Job) → (f j).id ≡ j.id)
    → get_by_id x (update id f rows)
      ≡ (if str_eq x id then map_option f (get_by_id x rows) else get_by_id x rows)
unfolding get_by_id update
get_by_id-update x id f [] keeps = ground arith
get_by_id-update x id f (j ∷ rows) keeps = ground (
  arith,
  keeps j,
  get_by_id-update x id f rows keeps,
  str_eq_iff x id,
  str_eq_iff j.id id,
  str_eq_iff j.id x,
)

pub get_by_id-append :
    (x : String) (rows : Rows) (j : Job)
    → get_by_id x (rows ++ j ∷ [])
      ≡ (if has_id x rows then get_by_id x rows else if str_eq j.id x then some j else none)
unfolding get_by_id has_id
get_by_id-append x [] j = ground arith
get_by_id-append x (k ∷ rows) j = ground (arith, get_by_id-append x rows j)

pub has_id-get_by_id :
    (x : String) (rows : Rows) (j : Job) → get_by_id x rows ≡ some j → has_id x rows ≡ true
unfolding get_by_id has_id
has_id-get_by_id x [] j h = cc
has_id-get_by_id x (k ∷ rows) j h = ground (arith, has_id-get_by_id x rows j)

pub get_by_id-none :
    (x : String) (rows : Rows) → (get_by_id x rows ≡ none) ↔ (has_id x rows ≡ false)
unfolding get_by_id has_id
get_by_id-none x [] = ground arith
get_by_id-none x (k ∷ rows) = ground (arith, get_by_id-none x rows)

pub get_by_id-id : (x : String) (rows : Rows) (j : Job) → get_by_id x rows ≡ some j → j.id ≡ x
unfolding get_by_id
get_by_id-id x [] j h = cc
get_by_id-id x (k ∷ rows) j h = ground (arith, get_by_id-id x rows j, str_eq_iff k.id x)

pub get_by_id-Memᴰ : (x : String) (rows : Rows) {j : Job} → get_by_id x rows ≡ some j → Memᴰ j rows
unfolding get_by_id
get_by_id-Memᴰ x [] h = cc
get_by_id-Memᴰ x (k ∷ rows) h = elim (Bool-cases (str_eq k.id x)) [
  | inl e ↦ Memᴰ.head (ground arith)
  | inr e ↦ Memᴰ.tail (get_by_id-Memᴰ x rows (ground arith))
]

-- What MarkTerminal leaves behind: the row of `id` has the state and the reason given, and every
-- other row is as it was.
pub mark_terminal-get_by_id :
    (x id : String) (state : JobState) (reason : String) (now : ℕ) (rows rows' : Rows)
    → mark_terminal id state reason now rows ≡ ok rows'
    → get_by_id x rows' ≡ (
        if str_eq x id
        then map_option (ended state reason now) (get_by_id x rows)
        else get_by_id x rows)
unfolding mark_terminal
mark_terminal-get_by_id x id state reason now rows rows' h =
    ground (arith, get_by_id-update x id (ended state reason now) rows (λ j. refl))

-- The outcome of Cancel as a table over the state of the job that has the id.
abbrev pub cancel_outcome : Option Job → String → ℕ → Rows → Result StoreError Rows
cancel_outcome none id now rows = err not_found
cancel_outcome (some j) id now rows = elim j.state [
  | pending ↦ ok (update id (ended cancelled "cancelled_by_user" now) rows)
  | running ↦ err cannot_cancel_running
  | completed ↦ err already_terminal
  | failed ↦ err already_terminal
  | skipped ↦ err already_terminal
  | cancelled ↦ err already_terminal
]

-- Cancel ends a pending job and only that: a running job, one that has ended and an unknown id are
-- refused, each with its own error.
pub cancel_outcome_lem :
    (id : String) (now : ℕ) (rows : Rows)
    → cancel id now rows ≡ cancel_outcome (get_by_id id rows) id now rows
unfolding cancel check_cancel mark_terminal is_terminal
cancel_outcome_lem id now rows = elim (Option-cases (get_by_id id rows)) [
  | inl e ↦ rw (e, cancel_outcome)
  | inr (j, e) ↦ ground (arith, has_id-get_by_id id rows j e)
]
