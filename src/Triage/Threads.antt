-- ===== src/Triage/Threads.antt =====
-- Calls of Trigger and their runs, in any order.
use kaos_control.Common.{String, Bool, true, false, Option, none, some, List, ◌∷◌, ◌≡◌, ◌≢◌, All}
use kaos_control.Triage.{
  Row, RunId, put, Manager, Stage, Thread, Answer, goes_on, started, busy, waiting, slotted,
  lock_held, running, slot_freed, lock_freed, begin_trigger, take_slot, acquire, register,
  free_slot, free_lock, end_run, cool,
}

-- One element of a list, and the others
pub data Pick {ℓ} {A : Type ℓ} (x : A) : List A → List A → Type ℓ where
  here : (xs : List A) → Pick x xs (x ∷ xs)
  there : (y : A) (xs ys : List A) → Pick x xs ys → Pick x (y ∷ xs) (y ∷ ys)

pub record World : Type 0 where
  pub manager : Manager
  pub threads : List Thread

abbrev pub holds_slot : Stage → Bool
holds_slot slotted = true
holds_slot lock_held = true
holds_slot running = true
holds_slot _ = false

abbrev pub holds_lock : Stage → Bool
holds_lock lock_held = true
holds_lock running = true
holds_lock (slot_freed b) = true
holds_lock _ = false

-- Registered, and not yet ended
abbrev pub in_progress : Stage → Bool
in_progress running = true
in_progress (slot_freed b) = true
in_progress (lock_freed b) = true
in_progress _ = false

abbrev pub and_threads : Answer → List Thread → List Thread
and_threads (goes_on t) ts = t ∷ ts
and_threads (started t) ts = t ∷ ts
and_threads _ ts = ts

abbrev pub world : Manager × Answer → List Thread → World
world (m, a) rest = record { manager = m; threads = and_threads a rest }

-- One step of one thread, of the cooldown, or of the others that use the lineage locks.
pub data Step (w : World) : World → Type 0 where
  begun :
      (in_ideas : Bool) (row : Option (Option Row)) (path : String) (run : RunId)
      → Step w (world (w.manager, begin_trigger w.manager in_ideas row path run) w.threads)
  gave_up :
      (t : Thread) (rest : List Thread)
      → Pick t rest w.threads
      → t.stage ≡ waiting
      → Step w (world (w.manager, busy) rest)
  slot_taken :
      (t : Thread) (rest : List Thread)
      → Pick t rest w.threads
      → t.stage ≡ waiting
      → Step w (world (take_slot w.manager t) rest)
  lock_tried :
      (t : Thread) (rest : List Thread)
      → Pick t rest w.threads
      → t.stage ≡ slotted
      → Step w (world (acquire w.manager t) rest)
  registered :
      (t : Thread) (rest : List Thread)
      → Pick t rest w.threads
      → t.stage ≡ lock_held
      → Step w (world (register w.manager t) rest)
  run_ended :
      (t : Thread) (rest : List Thread) (failing : Bool)
      → Pick t rest w.threads
      → t.stage ≡ running
      → Step w (world (free_slot failing w.manager t) rest)
  lock_given_back :
      (t : Thread) (rest : List Thread) (failing : Bool)
      → Pick t rest w.threads
      → t.stage ≡ slot_freed failing
      → Step w (world (free_lock failing w.manager t) rest)
  run_left :
      (t : Thread) (rest : List Thread) (failing : Bool)
      → Pick t rest w.threads
      → t.stage ≡ lock_freed failing
      → Step w (world (end_run failing w.manager t) rest)
  cooled :
      (path : String)
      → w.manager.cooling path ≡ true
      → Step w (record { manager = cool path w.manager; threads = w.threads })
  others_lock :
      (lineage : String) (holder : RunId)
      → w.manager.locks lineage ≡ none
      → Step w (record {
        manager = record w.manager { locks = put lineage (some holder) w.manager.locks };
        threads = w.threads;
      })
  others_unlock :
      (lineage : String)
      → All (λ t. holds_lock t.stage ≡ true → t.lineage ≢ lineage) w.threads
      → Step w (record {
        manager = record w.manager { locks = put lineage none w.manager.locks };
        threads = w.threads;
      })

pub data Steps : World → World → Type 0 where
  stay : (w : World) → Steps w w
  next : (u v w : World) → Step u v → Steps v w → Steps u w
