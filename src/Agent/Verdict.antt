-- ===== src/Agent/Verdict.antt =====
-- How supervise judges the end of a run.
use kaos_control.Common.{
  String, Bool, true, false, not, ◌&&◌, ◌≡◌, ◌≢◌, ◌↔◌, ◌⊎◌, str_eq, str_eq_iff, if◌then◌else◌,
  arith,
}

-- The context of the run's process.
pub data Context : Type 0 where
  live : Context
  deadline_exceeded : Context
  canceled : Context

-- What supervise knows when the process has gone: Wait's error, the entry of `active`, the result
-- events of the stream, the kill after authentication errors, and driverEmitsResultEvent.
pub record End : Type 0 where
  pub wait_failed : Bool
  pub was_active : Bool
  pub context : Context
  pub result_seen : Bool
  pub result_success : Bool
  pub auth_killed : Bool
  pub emits_result : Bool

abbrev pub killed_status : Context → String
killed_status live = "failed"
killed_status deadline_exceeded = "killed-timeout"
killed_status canceled = "killed"

unfoldable pub exit_status : End → String
exit_status e =
    if e.wait_failed then (if e.was_active then killed_status e.context else "failed") else "done"

-- A clean result event outweighs the exit code.
unfoldable pub reconciled : End → String → String
reconciled e status =
    if str_eq status "failed" && e.result_seen && e.result_success then "done" else status

-- The authentication override, then the test for a truncated stream: the status and the reason.
unfoldable pub judged : End → String → String × String
judged e status =
    if e.auth_killed && str_eq status "done"
    then ("failed", "auth_error")
    else if str_eq status "done" && e.emits_result && not e.result_seen
    then ("failed", "truncated_stream")
    else (status, "")

unfoldable pub verdict : End → String × String
unfolding exit_status reconciled judged
verdict e = judged e (reconciled e (exit_status e))

-- The run was neither killed by a user nor timed out.
abbrev pub NotKilled : End → Type 0
NotKilled e = (e.was_active ≡ false) ⊎ (e.context ≡ live)

failed_not_done : ◌≢◌ {A = String} "failed" "done"
failed_not_done p = ground (arith, str_eq_iff "failed" "done")

killed_not_done : ◌≢◌ {A = String} "killed" "done"
killed_not_done p = ground (arith, str_eq_iff "killed" "done")

killed_not_failed : ◌≢◌ {A = String} "killed" "failed"
killed_not_failed p = ground (arith, str_eq_iff "killed" "failed")

timeout_not_failed : ◌≢◌ {A = String} "killed-timeout" "failed"
timeout_not_failed p = ground (arith, str_eq_iff "killed-timeout" "failed")

timeout_not_done : ◌≢◌ {A = String} "killed-timeout" "done"
timeout_not_done p = ground (arith, str_eq_iff "killed-timeout" "done")

-- The stream ended as the driver promises.
abbrev Complete : End → Type 0
Complete e = (e.emits_result ≡ false) ⊎ (e.result_seen ≡ true)

judged-done :
    (e : End) (st : String)
    → ((judged e st).0 ≡ "done") ↔ ((st ≡ "done") × (e.auth_killed ≡ false) × Complete e)
unfolding judged
judged-done e st = (
  (λ h. ground (arith, str_eq_iff st "done", failed_not_done)),
  λ h. ground (arith, str_eq_iff st "done"),
)

reconciled-done :
    (e : End) (st : String)
    → (reconciled e st ≡ "done")
      ↔ ((st ≡ "done") ⊎ ((st ≡ "failed") × (e.result_seen ≡ true) × (e.result_success ≡ true)))
unfolding reconciled
reconciled-done e st = (
  (λ h. ground (arith, str_eq_iff st "failed", failed_not_done)),
  λ h. ground (arith, str_eq_iff st "failed", failed_not_done),
)

exit_status-done : (e : End) → (exit_status e ≡ "done") ↔ (e.wait_failed ≡ false)
unfolding exit_status
exit_status-done e =
    ((λ h. ground (arith, failed_not_done, killed_not_done, timeout_not_done)), λ h. ground arith)

exit_status-failed : (e : End) → (exit_status e ≡ "failed") ↔ ((e.wait_failed ≡ true) × NotKilled e)
unfolding exit_status
exit_status-failed e = (
  (λ h. ground (arith, failed_not_done, killed_not_failed, timeout_not_failed)),
  λ h. ground arith,
)

-- A run counts as done exactly where no authentication failure killed it, its stream ended with a
-- result event if its driver has such events, and its process exited cleanly or, without a kill or
-- a timeout, its last result event was a success.
pub verdict-done :
    (e : End)
    → ((verdict e).0 ≡ "done") ↔ (
        (e.auth_killed ≡ false)
        × ((e.emits_result ≡ false) ⊎ (e.result_seen ≡ true))
        × ((e.wait_failed ≡ false)
            ⊎ ((e.result_seen ≡ true) × (e.result_success ≡ true) × NotKilled e)))
unfolding verdict
verdict-done e = (
  (λ h. ground (
    arith,
    judged-done e (reconciled e (exit_status e)),
    reconciled-done e (exit_status e),
    exit_status-done e,
    exit_status-failed e,
  )),
  λ h. ground (
    arith,
    judged-done e (reconciled e (exit_status e)),
    reconciled-done e (exit_status e),
    exit_status-done e,
    exit_status-failed e,
  ),
)
