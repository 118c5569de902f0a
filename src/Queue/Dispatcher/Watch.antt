-- ===== src/Queue/Dispatcher/Watch.antt =====
-- watchRunEvents: the goroutine that waits for the end of one run among the events of a project.
-- Its input is the sequence of what its select receives.
use kaos_control.Common.{
  ℕ, String, Bool, true, false, not, ◌&&◌, ◌||◌, ◌≡◌, ◌≢◌, refl, ap, ◌⊎◌, inl, inr, List, [], ◌∷◌,
  Memᴰ, All, arith, str_eq, str_eq_iff, Option, none, some, if◌then◌else◌,
}
use kaos_control.Queue.Dispatcher.{RunResult, completed, rate_limit, auth_error, cancelled, failed}

pub data EventType : Type 0 where
  agent_finished agent_failed queue_rate_limit queue_auth_error other : EventType

-- The decoded event. An absent field is empty.
pub record Message : Type 0 where
  pub ty : EventType
  pub status : String
  pub run_id : String
  pub raw_text : String
  pub kind : String
  pub resets_at : ℕ

pub data Input : Type 0 where
  ctx_done : Input
  got_run_id : String → Input
  run_ids_closed : Input
  event : Message → Input
  undecodable : Input
  events_closed : Input

-- How the goroutine stands when the inputs end: it has sent a result, has left, or waits.
pub data Ending : Type 0 where
  sent : RunResult → Ending
  left : Ending
  waiting : Ending

abbrev pub is_relevant : EventType → Bool
is_relevant other = false
is_relevant _ = true

-- The switch on the event's type: the result that it sends, if it sends one.
abbrev pub outcome : Message → Option RunResult
outcome m = elim m.ty [
  | agent_finished ↦ some completed
  | agent_failed ↦ some (failed m.status)
  | queue_rate_limit ↦ some (rate_limit m.raw_text m.kind m.resets_at)
  | queue_auth_error ↦ some auth_error
  | other ↦ none
]

-- ourRunID == "" || evt.Payload.RunID != ourRunID
abbrev pub is_foreign : String → Message → Bool
is_foreign ours m = str_eq ours "" || not (str_eq m.run_id ours)

abbrev or_sent : Option RunResult → Ending → Ending
or_sent none next = next
or_sent (some r) next = sent r

-- `listening` says that runIDCh is not nil.
unfoldable pub watch : String → Bool → List Input → Ending
watch ours listening [] = waiting
watch ours listening (ctx_done ∷ inputs) = sent cancelled
watch ours true (got_run_id id ∷ inputs) = watch id false inputs
watch ours false (got_run_id id ∷ inputs) = watch ours false inputs
watch ours true (run_ids_closed ∷ inputs) = left
watch ours false (run_ids_closed ∷ inputs) = watch ours false inputs
watch ours listening (event m ∷ inputs) =
    let next = watch ours listening inputs in
    if is_relevant m.ty && is_foreign ours m then next else or_sent (outcome m) next
watch ours listening (undecodable ∷ inputs) = watch ours listening inputs
watch ours listening (events_closed ∷ inputs) = left

-- The inputs without the events that another run has caused.
unfoldable pub drop_foreign : String → List Input → List Input
drop_foreign id [] = []
drop_foreign id (event m ∷ inputs) =
    let rest = drop_foreign id inputs in
    if is_relevant m.ty && not (str_eq m.run_id id) then rest else event m ∷ rest
drop_foreign id (i ∷ inputs) = i ∷ drop_foreign id inputs

-- No other id than `id` is delivered.
abbrev pub Delivers : String → Input → Type 0
Delivers id (got_run_id x) = x ≡ id
Delivers id _ = Unit

watch-drop_foreign_from :
    (id ours : String) (listening : Bool) (inputs : List Input)
    → All (Delivers id) inputs
    → (ours ≡ "") ⊎ (ours ≡ id)
    → watch ours listening (drop_foreign id inputs) ≡ watch ours listening inputs
unfolding watch drop_foreign
watch-drop_foreign_from id ours true [] h k = refl
watch-drop_foreign_from id ours false [] h k = refl
watch-drop_foreign_from id ours true (ctx_done ∷ inputs) h k = refl
watch-drop_foreign_from id ours false (ctx_done ∷ inputs) h k = refl
watch-drop_foreign_from id ours true (got_run_id x ∷ inputs) h k =
    watch-drop_foreign_from id x false inputs h.1 (inr h.0)
watch-drop_foreign_from id ours false (got_run_id x ∷ inputs) h k =
    watch-drop_foreign_from id ours false inputs h.1 k
watch-drop_foreign_from id ours true (run_ids_closed ∷ inputs) h k = refl
watch-drop_foreign_from id ours false (run_ids_closed ∷ inputs) h k =
    watch-drop_foreign_from id ours false inputs h.1 k
watch-drop_foreign_from id ours true (event m ∷ inputs) h k = ground (
  arith,
  watch-drop_foreign_from id ours true inputs h.1 k,
  str_eq_iff ours "",
  str_eq_iff m.run_id ours,
  str_eq_iff m.run_id id,
)
watch-drop_foreign_from id ours false (event m ∷ inputs) h k = ground (
  arith,
  watch-drop_foreign_from id ours false inputs h.1 k,
  str_eq_iff ours "",
  str_eq_iff m.run_id ours,
  str_eq_iff m.run_id id,
)
watch-drop_foreign_from id ours true (undecodable ∷ inputs) h k =
    watch-drop_foreign_from id ours true inputs h.1 k
watch-drop_foreign_from id ours false (undecodable ∷ inputs) h k =
    watch-drop_foreign_from id ours false inputs h.1 k
watch-drop_foreign_from id ours true (events_closed ∷ inputs) h k = refl
watch-drop_foreign_from id ours false (events_closed ∷ inputs) h k = refl

-- Events of other runs do not change what the watcher of a run reports, before its id is known or
-- after: with them taken out of the inputs, it ends in the same way.
pub watch-drop_foreign :
    (id : String) (inputs : List Input)
    → All (Delivers id) inputs
    → watch "" true (drop_foreign id inputs) ≡ watch "" true inputs
watch-drop_foreign id inputs h = watch-drop_foreign_from id "" true inputs h (inl refl)

-- Where a result came from: the context's end, or an event of the run whose id was delivered.
abbrev pub HasSource : String → List Input → RunResult → Type 0
HasSource ours inputs r =
    (r ≡ cancelled)
    ⊎ ((m : Message) × Memᴰ (event m) inputs
        × (((m.run_id ≡ ours) × (ours ≢ "")) ⊎ Memᴰ (got_run_id m.run_id) inputs)
        × (outcome m ≡ some r))

source_later :
    {ours : String} (i : Input) {inputs : List Input} {r : RunResult}
    → HasSource ours inputs r
    → HasSource ours (i ∷ inputs) r
source_later i (inl e) = inl e
source_later i (inr (m, at, inl e, o)) = inr (m, Memᴰ.tail at, inl e, o)
source_later i (inr (m, at, inr e, o)) = inr (m, Memᴰ.tail at, inr (Memᴰ.tail e), o)

-- The id that was delivered last is the watcher's.
source_delivered :
    (ours id : String) (inputs : List Input) {r : RunResult}
    → HasSource id inputs r
    → HasSource ours (got_run_id id ∷ inputs) r
source_delivered ours id inputs (inl e) = inl e
source_delivered ours id inputs (inr (m, at, inl (e, ne), o)) =
    inr (m, Memᴰ.tail at, inr (Memᴰ.head (ap got_run_id e)), o)
source_delivered ours id inputs (inr (m, at, inr e, o)) =
    inr (m, Memᴰ.tail at, inr (Memᴰ.tail e), o)

event_cases :
    (ours : String) (m : Message) (next : Ending) {r : RunResult}
    → (if is_relevant m.ty && is_foreign ours m then next else or_sent (outcome m) next) ≡ sent r
    → (next ≡ sent r) ⊎ ((m.run_id ≡ ours) × (ours ≢ "") × (outcome m ≡ some r))
event_cases ours m next h = ground (arith, str_eq_iff ours "", str_eq_iff m.run_id ours)

watch-HasSource :
    (ours : String) (listening : Bool) (inputs : List Input) {r : RunResult}
    → watch ours listening inputs ≡ sent r
    → HasSource ours inputs r
unfolding watch
watch-HasSource ours true [] h = cc
watch-HasSource ours false [] h = cc
watch-HasSource ours true (ctx_done ∷ inputs) h = inl (ground arith)
watch-HasSource ours false (ctx_done ∷ inputs) h = inl (ground arith)
watch-HasSource ours true (got_run_id id ∷ inputs) h =
    source_delivered ours id inputs (watch-HasSource id false inputs h)
watch-HasSource ours false (got_run_id id ∷ inputs) h =
    source_later (got_run_id id) (watch-HasSource ours false inputs h)
watch-HasSource ours true (run_ids_closed ∷ inputs) h = cc
watch-HasSource ours false (run_ids_closed ∷ inputs) h =
    source_later run_ids_closed (watch-HasSource ours false inputs h)
watch-HasSource ours true (event m ∷ inputs) h =
    elim (event_cases ours m (watch ours true inputs) h) [
      | inl e ↦ source_later (event m) (watch-HasSource ours true inputs e)
      | inr (e, ne, o) ↦ inr (m, Memᴰ.head refl, inl (e, ne), o)
    ]
watch-HasSource ours false (event m ∷ inputs) h =
    elim (event_cases ours m (watch ours false inputs) h) [
      | inl e ↦ source_later (event m) (watch-HasSource ours false inputs e)
      | inr (e, ne, o) ↦ inr (m, Memᴰ.head refl, inl (e, ne), o)
    ]
watch-HasSource ours true (undecodable ∷ inputs) h =
    source_later undecodable (watch-HasSource ours true inputs h)
watch-HasSource ours false (undecodable ∷ inputs) h =
    source_later undecodable (watch-HasSource ours false inputs h)
watch-HasSource ours true (events_closed ∷ inputs) h = cc
watch-HasSource ours false (events_closed ∷ inputs) h = cc

-- A result that the watcher reports is the context's cancellation, or is the outcome of an event that
-- names the very run id which was handed to the watcher.
pub watch_source :
    (inputs : List Input) (r : RunResult)
    → watch "" true inputs ≡ sent r
    → (r ≡ cancelled)
      ⊎ ((m : Message) × Memᴰ (event m) inputs
          × Memᴰ (got_run_id m.run_id) inputs
          × (outcome m ≡ some r))
watch_source inputs r h = named (watch-HasSource "" true inputs h)
  where
    named :
        HasSource "" inputs r
        → (r ≡ cancelled)
          ⊎ ((m : Message) × Memᴰ (event m) inputs
              × Memᴰ (got_run_id m.run_id) inputs
              × (outcome m ≡ some r))
    named (inl e) = inl e
    named (inr (m, at, inl (e, ne), o)) = absurd (ne refl)
    named (inr (m, at, inr e, o)) = inr (m, at, e, o)
