-- ===== src/Workflow/Examples.antt =====
-- The workflow theorems at concrete inputs, and test runs.
use kaos_control.Common.{
  String, true, false, ◌≡◌, ◌≢◌, ◌↔◌, ◌⊎◌, refl, List, [], ◌∷◌, Memᴰ, arith, str_eq_iff, has,
}
use kaos_control.Workflow.{
  Transition, Row, known_statuses, default_rules, overlay_all, new, any_rule, rule_matches_type,
  roles_meet, has_product_owner, can_transition, allowed_targets, all_targets, add_target,
}
use kaos_control.Workflow.Permits.{Granted, can_transition_iff}
use kaos_control.Workflow.Overlay.{new-system_blocks, can_transition-allowed_targets}

abbrev qa : List String
qa = "qa" ∷ []

-- A project that gives the blocking of artifacts to nobody.
abbrev strict : List Transition
strict = record { from = ""; to = "blocked"; roles = []; types = [] } ∷ []

can_transition_iff_example : (can_transition (new strict) "in-qa" "approved" qa "test" ≡ true) ↔ (
    (◌≢◌ {A = String} "in-qa" "approved")
    × Memᴰ "approved" known_statuses
    × (Memᴰ "product-owner" qa ⊎ Granted (new strict).rules "in-qa" "approved" qa "test"))
can_transition_iff_example = can_transition_iff (new strict) "in-qa" "approved" qa "test"

new-system_blocks_example :
    (can_transition (new strict) "draft" "blocked" ("system" ∷ []) "idea" ≡ true)
    × (can_transition (new strict) "blocked" "draft" ("system" ∷ []) "idea" ≡ true)
new-system_blocks_example =
    new-system_blocks strict "draft" "idea" (λ e. ground (arith, str_eq_iff "draft" "blocked"))

qa_may_approve : can_transition (new []) "in-qa" "approved" qa "test" ≡ true
unfolding can_transition new overlay_all default_rules any_rule rule_matches_type roles_meet has
    has_product_owner
qa_may_approve = refl

can_transition-allowed_targets_example :
    has "approved" (allowed_targets (new []) "in-qa" qa "test") ≡ true
can_transition-allowed_targets_example =
    can_transition-allowed_targets [] "in-qa" "approved" qa "test" qa_may_approve

-- A product-owner is offered the status that the artifact has, which CanTransition refuses.
own_status_offered :
    (has "draft" (allowed_targets (new []) "draft" ("product-owner" ∷ []) "idea") ≡ true)
    × (can_transition (new []) "draft" "draft" ("product-owner" ∷ []) "idea" ≡ false)
unfolding can_transition allowed_targets all_targets add_target new overlay_all default_rules has
    has_product_owner
own_status_offered = (refl, refl)

abbrev plans : List Row
plans =
    record { ty = "plan-backend"; status = "approved" }
    ∷ record { ty = "plan-frontend"; status = "draft" }
    ∷ []
