-- ===== src/Triage/Examples.antt =====
-- Two calls of Trigger for one idea, and the witnesses.
use kaos_control.Common.{String, true, false, Option, none, some, [], ◌∷◌, ◌≡◌, refl}
use kaos_control.Triage.{
  Row, RunId, Thread, not_in_ideas_dir, at, not_eligible, waiting, slotted, begin_trigger,
  take_slot, eligible, new,
}
use kaos_control.Triage.Threads.{World, Steps, stay, next, begun, slot_taken, here}
use kaos_control.Triage.Exclusive.{IsExclusive, triage-IsExclusive}

abbrev idea : Row
idea = record { type = "idea"; status = "raw"; lineage = "login" }

abbrev draft : Row
draft = record { type = "idea"; status = "draft"; lineage = "login" }

abbrev path : String
path = "lifecycle/ideas/login.md"

abbrev thread : RunId → Thread
thread n = record { path = path; lineage = "login"; run = n; stage = waiting }

abbrev nothing_locked : String → Option RunId
nothing_locked lineage = none

abbrev first_world : World
first_world = record { manager = new 0 nothing_locked; threads = [] }

abbrev second_world : World
second_world = record {
  manager = record {
    max_concurrent = 2;
    slots = 1;
    locks = nothing_locked;
    in_flight = λ path. none;
    cooling = λ path. false;
  };
  threads = at slotted (thread 1) ∷ [];
}

two_steps : Steps first_world second_world
unfolding new begin_trigger eligible take_slot
two_steps =
    next _ _ _ (begun true (some (some idea)) path 1)
      (next _ _ _ (slot_taken (thread 1) [] (here []) refl) (stay _))

triage-IsExclusive_example : IsExclusive second_world
triage-IsExclusive_example = triage-IsExclusive 0 nothing_locked second_world two_steps

elsewhere :
    begin_trigger (new 1 nothing_locked) false (some (some idea)) "lifecycle/ideas/old/login.md" 3
    ≡ not_eligible not_in_ideas_dir
unfolding begin_trigger eligible new
elsewhere = refl
