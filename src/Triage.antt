-- ===== src/Triage.antt =====
-- internal/triage: eligible (eligibility.go) and Trigger (triage.go), whose calls run at the same time. A call is
-- a thread that is cut where others can come between: at the slot, the lock, the registration, and at the three
-- things that the end of a run gives back. What the index answers for a path, whether the path is in
-- lifecycle/ideas, and how a run ends are parameters; maps are functions.
pub mod Threads
pub mod Exclusive
pub mod Waiting
pub mod Body
pub mod Rewritten
pub mod Labels
mod Examples
mod BodyExamples
use kaos_control.Common.{
  ℕ, zero, suc, ◌+◌, ◌-◌, String, Bool, true, false, not, ◌&&◌, ◌==◌, ltb, Option, none, some, List,
  [], ◌∷◌, str_eq, if◌then◌else◌,
}

pub data Reason : Type 0 where
  not_in_ideas_dir : Reason
  not_indexed : Reason
  wrong_type : Reason
  wrong_status : Reason

pub record Row : Type 0 where
  pub type : String
  pub status : String
  pub lineage : String

pub data Eligibility : Type 0 where
  store_failed : Eligibility
  ineligible : Reason → Eligibility
  is_eligible : Row → Eligibility

-- eligible, on what the index returns: `none` is its error
abbrev pub eligible_row : Option Row → Eligibility
eligible_row none = ineligible not_indexed
eligible_row (some row) =
    if not (str_eq row.type "idea")
    then ineligible wrong_type
    else if not (str_eq row.status "raw")
    then ineligible wrong_status
    else is_eligible row

abbrev pub eligible_indexed : Option (Option Row) → Eligibility
eligible_indexed none = store_failed
eligible_indexed (some row) = eligible_row row

unfoldable pub eligible : Bool → Option (Option Row) → Eligibility
eligible in_ideas row = if not in_ideas then ineligible not_in_ideas_dir else eligible_indexed row

abbrev pub RunId : Type 0
RunId = ℕ

abbrev pub put {ℓ} : {A : Type ℓ} → String → A → (String → A) → String → A
put k v f x = if str_eq x k then v else f x

-- The Manager with the lock manager's table: what holds each lineage.
pub record Manager : Type 0 where
  pub max_concurrent : ℕ
  pub slots : ℕ
  pub locks : String → Option RunId
  pub in_flight : String → Option RunId
  pub cooling : String → Bool

-- withDefaults, for the number of runs
abbrev pub default_concurrent : ℕ → ℕ
default_concurrent zero = 2
default_concurrent (suc n) = suc n

unfoldable pub new : ℕ → (String → Option RunId) → Manager
new max locks = record {
  max_concurrent = default_concurrent max;
  slots = 0;
  locks = locks;
  in_flight = λ path. none;
  cooling = λ path. false;
}

-- Where a call of Trigger and the goroutine that it starts stand
pub data Stage : Type 0 where
  waiting : Stage
  slotted : Stage
  lock_held : Stage
  running : Stage
  slot_freed : Bool → Stage
  lock_freed : Bool → Stage

pub record Thread : Type 0 where
  pub path : String
  pub lineage : String
  pub run : RunId
  pub stage : Stage

abbrev pub at : Stage → Thread → Thread
at s t = record t { stage = s }

pub data Answer : Type 0 where
  goes_on : Thread → Answer
  started : Thread → Answer
  coalesced : RunId → Answer
  not_eligible : Reason → Answer
  lineage_locked : Answer
  busy : Answer
  failed : Answer
  ended : Answer

abbrev pub waits : String → RunId → Eligibility → Answer
waits path run store_failed = failed
waits path run (ineligible r) = not_eligible r
waits path run (is_eligible row) =
    goes_on (record { path = path; lineage = row.lineage; run = run; stage = waiting })

abbrev pub or_coalesced : Answer → Option RunId → Answer
or_coalesced a none = a
or_coalesced a (some run) = coalesced run

-- Trigger up to the slot
unfoldable pub begin_trigger : Manager → Bool → Option (Option Row) → String → RunId → Answer
unfolding eligible
begin_trigger m in_ideas row path run =
    or_coalesced (waits path run (eligible in_ideas row)) (m.in_flight path)

-- The slot, where one is free
unfoldable pub take_slot : Manager → Thread → Manager × Answer
take_slot m t =
    if ltb m.slots m.max_concurrent
    then (record m { slots = m.slots + 1 }, goes_on (at slotted t))
    else (m, goes_on t)

-- Locks.Acquire, and what a conflict leads to
abbrev pub acquire_at : Option RunId → Manager → Thread → Manager × Answer
acquire_at none m t =
    (record m { locks = put t.lineage (some t.run) m.locks }, goes_on (at lock_held t))
acquire_at (some holder) m t =
    (record m { slots = m.slots - 1 }, or_coalesced lineage_locked (m.in_flight t.path))

unfoldable pub acquire : Manager → Thread → Manager × Answer
acquire m t = acquire_at (m.locks t.lineage) m t

abbrev pub register_at : Option RunId → Manager → Thread → Manager × Answer
register_at none m t =
    (record m { in_flight = put t.path (some t.run) m.in_flight }, started (at running t))
register_at (some existing) m t =
    (record m { locks = put t.lineage none m.locks; slots = m.slots - 1 }, coalesced existing)

-- The registration as in flight
unfoldable pub register : Manager → Thread → Manager × Answer
register m t = register_at (m.in_flight t.path) m t

-- The end of a run gives back its slot, then its lock, then its entry; a failed one's entry cools. A
-- run that panics ends without an error.
unfoldable pub free_slot : Bool → Manager → Thread → Manager × Answer
free_slot failing m t = (record m { slots = m.slots - 1 }, goes_on (at (slot_freed failing) t))

unfoldable pub free_lock : Bool → Manager → Thread → Manager × Answer
free_lock failing m t =
    (record m { locks = put t.lineage none m.locks }, goes_on (at (lock_freed failing) t))

unfoldable pub end_run : Bool → Manager → Thread → Manager × Answer
end_run failing m t =
    if failing
    then (record m { cooling = put t.path true m.cooling }, ended)
    else (record m { in_flight = put t.path none m.in_flight }, ended)

-- The cooldown's timer
unfoldable pub cool : String → Manager → Manager
cool path m = record m { in_flight = put path none m.in_flight; cooling = put path false m.cooling }
