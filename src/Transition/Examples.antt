-- ===== src/Transition/Examples.antt =====
-- Transitions of a concrete artifact.
use kaos_control.Common.{◌≡◌, ◌+◌, refl, true, false, none, some, [], ◌∷◌, List, String, Option, ok}
use kaos_control.Workflow as W
use kaos_control.Transition.{File, Row, Artifact, row_of, Disk, index_file, handle_transition}
use kaos_control.Transition.Automatic.{index_file_twice}
use kaos_control.Transition.Settles.{IsTransition, transition_settles}

abbrev file : File
file = record { hash = 1; status = "draft"; type = "idea"; has_status = true; has_questions = true }

abbrev idea : Artifact
idea = record { file = file; row = some (row_of file) }

abbrev disk : Disk
disk = record { new_hash = λ f s. f.hash + 1; succeeds = true }

abbrev full : Disk
full = record { new_hash = λ f s. f.hash + 1; succeeds = false }

abbrev blocked_file : File
blocked_file = record {
  hash = 3;
  status = "blocked";
  type = "idea";
  has_status = true;
  has_questions = true;
}

abbrev blocked : Artifact
blocked = record { file = blocked_file; row = some (row_of blocked_file) }

-- Its open questions send the artifact that is to be clarified to blocked.
clarified :
    handle_transition (W.new []) disk disk none [] ("product-owner" ∷ []) "clarifying" idea
    ≡ ok blocked
unfolding handle_transition kaos_control.Workflow.can_transition kaos_control.Workflow.new
    kaos_control.Workflow.overlay_all kaos_control.Workflow.default_rules
    kaos_control.Workflow.any_rule kaos_control.Workflow.rule_matches_type
    kaos_control.Workflow.roles_meet kaos_control.Workflow.has_product_owner kaos_control.Common.has
    kaos_control.Transition.apply_transition kaos_control.Transition.gated
    kaos_control.Transition.index_file kaos_control.Transition.apply_open_question_transition
    kaos_control.Transition.auto_block kaos_control.Transition.write_and_reindex
clarified = refl

transition_settles_example :
    IsTransition (W.new []) ("product-owner" ∷ []) "clarifying" idea blocked
transition_settles_example =
    transition_settles [] disk disk none [] ("product-owner" ∷ []) "clarifying" idea blocked refl
      clarified

index_file_twice_example :
    index_file
      (some (W.new []))
      disk
      (index_file (some (W.new [])) full (record { file = file; row = none }))
    ≡ index_file (some (W.new [])) full (record { file = file; row = none })
index_file_twice_example =
    index_file_twice (some (W.new [])) full disk (record { file = file; row = none })
