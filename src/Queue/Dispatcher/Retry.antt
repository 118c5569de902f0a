-- ===== src/Queue/Dispatcher/Retry.antt =====
-- The retries after a rate limit or an authentication error, and how each run leaves its row.
use kaos_control.Common.{
  ℕ, suc, ◌<◌, ◌≤◌, ◌-ℤ◌, pos, String, true, false, ◌≡◌, ◌≢◌, refl, sym, ◌∙◌, subst, [], ◌∷◌, ◌++◌,
  arith, str_eq_iff, str_eq_refl, some,
}
use kaos_control.Queue.{JobState, is_terminal, Job}
use kaos_control.Queue.Store.{
  Rows, is_pending, has_id, update, filled, insert, enqueue_direct, min_position, started, dequeue,
  ended, mark_terminal, get_by_id,
}
use kaos_control.Queue.Store.Order.{
  AllAbove, head_pending-first, min_position-AllAbove, dequeue_of_head,
}
use kaos_control.Queue.Store.Lookup.{get_by_id-update, get_by_id-append}
use kaos_control.Queue.Dispatcher.{
  Config, Dispatcher, ResetParser, RunResult, mark, settle, max_attempts, retry_of, requeue,
  pause_until, handle_rate_limit, handle_auth_error, completed, rate_limit, auth_error, failed,
  finish,
}
use kaos_control.Queue.Dispatcher.Single.{Holds, Holds-has_id}
use kaos_control.Queue.Dispatcher.Invariant.{mark_rows}

-- The two results that lead to a retry.
pub data IsRetryable : RunResult → Type 0 where
  limited : (raw kind : String) (at : ℕ) → IsRetryable (rate_limit raw kind at)
  unauthorised : IsRetryable auth_error

pub retry_row : Job → String → ℕ → Rows → Job
unfolding retry_of filled
retry_row j fresh now rows = filled fresh now (retry_of j fresh now rows)

requeue_rows :
    (cfg : Config) (j : Job) (now : ℕ) (fresh why : String) (d : Dispatcher)
    → j.attempts < max_attempts cfg
    → fresh ≢ ""
    → has_id fresh d.rows ≡ false
    → (requeue cfg j now fresh why d).rows ≡ d.rows ++ retry_row j fresh now d.rows ∷ []
unfolding requeue enqueue_direct insert retry_row
requeue_rows cfg j now fresh why d few named new = ground (arith, str_eq_iff fresh "")

has_id-ended :
    (x id : String) (st : JobState) (reason : String) (now : ℕ) (rows : Rows)
    → has_id x (update id (ended st reason now) rows) ≡ has_id x rows
unfolding has_id update
has_id-ended x id st reason now [] = refl
has_id-ended x id st reason now (k ∷ rows) = ground (arith, has_id-ended x id st reason now rows)

has_id-mark :
    (x : String) (id : String) (st : JobState) (reason : String) (now : ℕ) (d : Dispatcher)
    → has_id x (mark id st reason now d).rows ≡ has_id x d.rows
unfolding mark mark_terminal
has_id-mark x id st reason now d = ground (arith, has_id-ended x id st reason now d.rows)

-- The row that a retry adds: pending, before all others, and with its own id.
module _ (j : Job) (fresh : String) (now : ℕ) (rows : Rows) (named : fresh ≢ "") where
  retry_row_position : (retry_row j fresh now rows).position ≡ min_position rows -ℤ pos 1
  unfolding retry_row
  retry_row_position = refl

  retry_row_pending : is_pending (retry_row j fresh now rows).state ≡ true
  unfolding retry_row
  retry_row_pending = refl

  retry_row_id : (retry_row j fresh now rows).id ≡ fresh
  unfolding retry_row
  retry_row_id = ground (arith, str_eq_iff fresh "")

-- The retry's row, as the old job sees it.
pub record IsRetryOf (j : Job) (fresh : String) (r : Job) : Type 0 where
  pub new_id : r.id ≡ fresh
  pub same_project : r.project ≡ j.project
  pub same_path : r.artifact_path ≡ j.artifact_path
  pub same_agent : r.agent_name ≡ j.agent_name
  pub one_more : r.attempts ≡ suc j.attempts

retry_row-IsRetryOf :
    (j : Job) (fresh : String) (now later : ℕ) (rows : Rows)
    → fresh ≢ ""
    → IsRetryOf j fresh (started later (retry_row j fresh now rows))
unfolding retry_row
retry_row-IsRetryOf j fresh now later rows named = record {
  new_id = retry_row_id j fresh now rows named;
  same_project = refl;
  same_path = refl;
  same_agent = refl;
  one_more = ground arith;
}

next-requeue :
    (cfg : Config) (j : Job) (now later : ℕ) (fresh why : String) (d : Dispatcher)
    → j.attempts < max_attempts cfg
    → fresh ≢ ""
    → has_id fresh d.rows ≡ false
    → (dequeue later (requeue cfg j now fresh why d).rows).0
      ≡ some (started later (retry_row j fresh now d.rows))
next-requeue cfg j now later fresh why d few named new =
    rw (requeue_rows cfg j now fresh why d few named new) (
      dequeue_of_head later _ (retry_row j fresh now d.rows) (
        head_pending-first d.rows (retry_row j fresh now d.rows)
          (retry_row_pending j fresh now d.rows named)
          (subst (λ p. AllAbove p d.rows) (sym (retry_row_position j fresh now d.rows named))
            (min_position-AllAbove d.rows))))

-- When a run ends by a rate limit or an authentication error and its job has attempts left, the very
-- next job that Dequeue takes, before all that were waiting, is a retry of it: a new id, the same
-- project, artifact and agent, one more attempt.
pub retry_next :
    (parse : ResetParser) (cfg : Config) (r : RunResult) (j : Job) (now later : ℕ) (fresh : String)
    (d : Dispatcher)
    → IsRetryable r
    → j.attempts < max_attempts cfg
    → fresh ≢ ""
    → has_id fresh d.rows ≡ false
    → (k : Job) × ((dequeue later (finish parse cfg r j now fresh d).rows).0 ≡ some k)
      × IsRetryOf j fresh k
unfolding finish handle_rate_limit handle_auth_error pause_until
retry_next parse cfg r j now later fresh d (limited raw kind at) few named new = (
  started later (retry_row j fresh now (mark j.id JobState.failed "rate_limit" now d).rows),
  next-requeue cfg j now later fresh "rate_limit_retry"
      (mark j.id JobState.failed "rate_limit" now d) few named
      (has_id-mark fresh j.id JobState.failed "rate_limit" now d ∙ new),
  retry_row-IsRetryOf j fresh now later _ named,
)
retry_next parse cfg r j now later fresh d unauthorised few named new = (
  started later (retry_row j fresh now (mark j.id JobState.failed "auth_error" now d).rows),
  next-requeue cfg j now later fresh "auth_error_retry"
      (mark j.id JobState.failed "auth_error" now d) few named
      (has_id-mark fresh j.id JobState.failed "auth_error" now d ∙ new),
  retry_row-IsRetryOf j fresh now later _ named,
)

requeue_rows_over :
    (cfg : Config) (j : Job) (now : ℕ) (fresh why : String) (d : Dispatcher)
    → max_attempts cfg ≤ j.attempts
    → (requeue cfg j now fresh why d).rows ≡ d.rows
unfolding requeue
requeue_rows_over cfg j now fresh why d h = ground arith

-- Whatever the requeue does, it leaves the rows that were there alone.
get_by_id-requeue :
    (x : String) (cfg : Config) (j : Job) (now : ℕ) (fresh why : String) (d : Dispatcher)
    → has_id x d.rows ≡ true
    → get_by_id x (requeue cfg j now fresh why d).rows ≡ get_by_id x d.rows
unfolding requeue enqueue_direct insert
get_by_id-requeue x cfg j now fresh why d h =
    ground (arith, get_by_id-append x d.rows (filled fresh now (retry_of j fresh now d.rows)))

-- How a job's row ends, by the result of its run.
abbrev pub end_of : RunResult → JobState × String
end_of completed = (JobState.completed, "")
end_of (rate_limit raw kind at) = (JobState.failed, "rate_limit")
end_of auth_error = (JobState.failed, "auth_error")
end_of RunResult.cancelled = (JobState.failed, "cancelled")
end_of (failed reason) = (JobState.failed, reason)

get_by_id-mark :
    (j : Job) (st : JobState) (reason : String) (now : ℕ) (d : Dispatcher)
    → is_terminal st ≡ true
    → Holds j d.rows
    → get_by_id j.id (mark j.id st reason now d).rows ≡ some (ended st reason now j)
get_by_id-mark j st reason now d t h = rw (
  (mark_rows j.id st reason now d (Holds-has_id d.rows h) t).1,
  get_by_id-update j.id j.id (ended st reason now) d.rows (λ k. refl),
  str_eq_refl,
  h.row,
)

has_id_marked :
    (j : Job) (st : JobState) (reason : String) (now : ℕ) (d : Dispatcher)
    → Holds j d.rows
    → has_id j.id (mark j.id st reason now d).rows ≡ true
has_id_marked j st reason now d h = has_id-mark j.id j.id st reason now d ∙ Holds-has_id d.rows h

-- However a run ends, the row of its job is left in a terminal state, with the reason and the time of
-- the end, and with nothing else changed.
pub finish_ends :
    (parse : ResetParser) (cfg : Config) (r : RunResult) (j : Job) (now : ℕ) (fresh : String)
    (d : Dispatcher)
    → Holds j d.rows
    → (is_terminal (end_of r).0 ≡ true)
      × (get_by_id j.id (finish parse cfg r j now fresh d).rows
          ≡ some (ended (end_of r).0 (end_of r).1 now j))
unfolding finish handle_rate_limit handle_auth_error pause_until is_terminal settle
finish_ends parse cfg completed j now fresh d h =
    (refl, get_by_id-mark j JobState.completed "" now d refl h)
finish_ends parse cfg (rate_limit raw kind at) j now fresh d h = (
  refl,
  get_by_id-requeue j.id cfg j now fresh "rate_limit_retry"
        (mark j.id JobState.failed "rate_limit" now d)
        (has_id_marked j JobState.failed "rate_limit" now d h)
      ∙ get_by_id-mark j JobState.failed "rate_limit" now d refl h,
)
finish_ends parse cfg auth_error j now fresh d h = (
  refl,
  get_by_id-requeue j.id cfg j now fresh "auth_error_retry"
        (mark j.id JobState.failed "auth_error" now d)
        (has_id_marked j JobState.failed "auth_error" now d h)
      ∙ get_by_id-mark j JobState.failed "auth_error" now d refl h,
)
finish_ends parse cfg RunResult.cancelled j now fresh d h =
    (refl, get_by_id-mark j JobState.failed "cancelled" now d refl h)
finish_ends parse cfg (failed reason) j now fresh d h =
    (refl, get_by_id-mark j JobState.failed reason now d refl h)
