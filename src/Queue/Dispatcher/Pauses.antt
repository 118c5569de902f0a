-- ===== src/Queue/Dispatcher/Pauses.antt =====
-- The pause states of the queue: what holds the queue, for how long, and what a restart remembers.
use kaos_control.Common.{
  ◌<◌, ◌^◌, ◌≢◌, ◌⊎◌, inl, inr, ◌∙◌, ap, Option, some, str_eq_iff, str_eq, Bool-cases,
  if◌then◌else◌, false, ℕ, suc, ◌+◌, String, true, false, ltb, ◌≡◌, refl, ◌||◌, arith, none,
}
use kaos_control.Queue.{Job, JobState}
use kaos_control.Queue.Store.{Rows}
use kaos_control.Queue.Dispatcher.{
  Config, Dispatcher, ResetParser, new, start, pause, check_paused, auto_resume, mark, requeue,
  resume_grace, reset_time, pause_until, handle_rate_limit, overload_pause, fallback_pause, failed,
}
use kaos_control.Queue.Dispatcher.Steps.{
  idle, Phase, launching, running_job, System, Label, resumes,
}

abbrev pub IsNoResume : Label → Type 0
IsNoResume resumes = ⊥
IsNoResume _ = Unit

abbrev pub in_hand : Phase → Option Job
in_hand idle = none
in_hand (launching j) = some j
in_hand (running_job j) = some j

-- Paused by hand, with no job in hand but `o`.
pub record IsHeld (o : Option Job) (s : System) : Type 0 where
  pub by_hand : s.dispatcher.manual_pause ≡ true
  pub no_other : (in_hand s.phase ≡ none) ⊎ (in_hand s.phase ≡ o)

manual-mark :
    (id : String) (st : JobState) (reason : String) (now : ℕ) (d : Dispatcher)
    → (mark id st reason now d).manual_pause ≡ d.manual_pause
unfolding mark
manual-mark id st reason now d = ground arith

manual-requeue :
    (cfg : Config) (j : Job) (now : ℕ) (fresh why : String) (d : Dispatcher)
    → (requeue cfg j now fresh why d).manual_pause ≡ d.manual_pause
unfolding requeue
manual-requeue cfg j now fresh why d = ground arith

resume_grace_pos : (cfg : Config) → ltb 0 (resume_grace cfg) ≡ true
unfolding resume_grace
resume_grace_pos cfg = ground arith

-- The reset time of a rate limit: the one that the event carried, else the parsed one, else the pause
-- for the kind of error from now.
pub data IsResetTime (parse : ResetParser) (cfg : Config) (raw kind : String) (resets_at now : ℕ)
    : ℕ → Type 0 where
  carried : 0 < resets_at → IsResetTime parse cfg raw kind resets_at now resets_at
  parsed :
      (t : ℕ)
      → resets_at ≡ 0
      → parse raw now ≡ some t
      → IsResetTime parse cfg raw kind resets_at now t
  overloaded :
      resets_at ≡ 0
      → parse raw now ≡ none
      → kind ≡ "overloaded"
      → IsResetTime parse cfg raw kind resets_at now (now + overload_pause cfg)
  other :
      resets_at ≡ 0
      → parse raw now ≡ none
      → kind ≢ "overloaded"
      → IsResetTime parse cfg raw kind resets_at now (now + fallback_pause cfg)

reset_time-IsResetTime :
    (parse : ResetParser) (cfg : Config) (raw kind : String) (resets_at now r : ℕ)
    → IsResetTime parse cfg raw kind resets_at now r
    → reset_time parse cfg raw kind resets_at now ≡ r
unfolding reset_time
reset_time-IsResetTime parse cfg raw kind resets_at now _ (carried p) = ground (arith, p)
reset_time-IsResetTime parse cfg raw kind resets_at now _ (parsed t z p) = rw (z, p) refl
reset_time-IsResetTime parse cfg raw kind resets_at now _ (overloaded z p k) = rw (z, p, k) refl
reset_time-IsResetTime parse cfg raw kind resets_at now _ (other z p k) =
    rw (z, p) (ap (λ b. now + (if b then overload_pause cfg else fallback_pause cfg)) different)
  where
    different : str_eq kind "overloaded" ≡ false
    different = elim (Bool-cases (str_eq kind "overloaded")) [
      | inl e ↦ absurd (k ((str_eq_iff kind "overloaded").0 e))
      | inr e ↦ e
    ]

module _ (parse : ResetParser) (cfg : Config) (j : Job) (raw kind : String) (resets_at now : ℕ)
    (fresh : String) (d : Dispatcher) where
  held_until :
      (t : ℕ)
      → (check_paused t (handle_rate_limit parse cfg j raw kind resets_at now fresh d)).1
        ≡ (d.manual_pause || ltb t (reset_time parse cfg raw kind resets_at now + resume_grace cfg))
  unfolding handle_rate_limit pause_until check_paused
  held_until t = ground (
    arith,
    resume_grace_pos cfg,
    manual-requeue cfg j now fresh "rate_limit_retry"
        (mark j.id JobState.failed "rate_limit" now d),
    manual-mark j.id JobState.failed "rate_limit" now d,
  )

  -- After a rate limit the queue is held exactly until the reset time plus the grace, and for as long
  -- as it is paused by hand; the reset time is the one that the event carried, else the parsed one,
  -- else now and the pause for the kind of error. Both times are in the range of time.Time.
  pub held_after_limit :
      (t r : ℕ)
      → IsResetTime parse cfg raw kind resets_at now r
      → t + r + resume_grace cfg < 2 ^ 62
      → (check_paused t (handle_rate_limit parse cfg j raw kind resets_at now fresh d)).1
        ≡ (d.manual_pause || ltb t (r + resume_grace cfg))
  held_after_limit t r i _ =
      held_until t
      ∙ ap (λ x. d.manual_pause || ltb t (x + resume_grace cfg))
          (reset_time-IsResetTime parse cfg raw kind resets_at now r i)

  -- A rate limit that ends a run while the queue is paused by hand replaces the saved pause: in memory
  -- the manual pause goes on, but a restart from what is saved restores only the timed one.
  pub restart_after_limit :
      d.manual_pause ≡ true
      → ((handle_rate_limit parse cfg j raw kind resets_at now fresh d).manual_pause ≡ true)
        × ((start (
              new d.rows
                (handle_rate_limit parse cfg j raw kind resets_at now fresh d).saved)).manual_pause
            ≡ false)
        × ((start (
              new d.rows
                (handle_rate_limit parse cfg j raw kind resets_at now fresh d).saved)).paused_until
            ≡ reset_time parse cfg raw kind resets_at now + resume_grace cfg)
  unfolding handle_rate_limit pause_until start new
  restart_after_limit h = ground (
    arith,
    resume_grace_pos cfg,
    manual-requeue cfg j now fresh "rate_limit_retry"
        (mark j.id JobState.failed "rate_limit" now d),
    manual-mark j.id JobState.failed "rate_limit" now d,
  )

-- Pause followed by a restart is a manual pause still, whatever timed pause there was before.
pub restart-pause :
    (reason : String) (d : Dispatcher) (rows : Rows)
    → ((start (new rows (pause reason d).saved)).manual_pause ≡ true)
      × ((start (new rows (pause reason d).saved)).paused_until ≡ 0)
unfolding pause start new
restart-pause reason d rows = (ground arith, ground arith)

-- A goroutine that `paused` started for an auto-resume, and that runs only after a Pause, undoes the
-- saved pause: the queue is paused in memory, and a restart finds it running.
pub late_auto_resume :
    (reason : String) (d : Dispatcher) (n : ℕ) (rows : Rows)
    → d.resuming ≡ suc n
    → ((auto_resume (pause reason d)).manual_pause ≡ true)
      × ((start (new rows (auto_resume (pause reason d)).saved)).manual_pause ≡ false)
      × ((start (new rows (auto_resume (pause reason d)).saved)).paused_until ≡ 0)
unfolding auto_resume pause start new
late_auto_resume reason d n rows h = (ground arith, ground arith, ground arith)
