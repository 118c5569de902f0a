-- ===== src/Workflow.antt =====
-- internal/workflow/workflow.go: the artifact state machine. Statuses, roles and artifact types are
-- texts, as in the source; an empty `from` stands for any status, an empty `types` for any type.
pub mod Permits
mod Targets
pub mod Overlay
mod Matrix
mod Examples
use kaos_control.Common.{
  String, Bool, true, false, not, ◌&&◌, ◌||◌, ◌==◌, List, [], ◌∷◌, ◌++◌, length, str_eq, has,
  if◌then◌else◌, Option, none, some,
}

-- artifact.KnownStatuses
abbrev pub known_statuses : List String
known_statuses =
    "raw" ∷ "draft" ∷ "clarifying" ∷ "planning" ∷ "in-development" ∷ "in-qa" ∷ "approved"
    ∷ "rejected" ∷ "abandoned" ∷ "done" ∷ "blocked" ∷ []

pub record Rule : Type 0 where
  pub from : String
  pub to : String
  pub roles : List String
  pub types : List String
  pub exclude_types : List String

-- config.Transition: a project's override.
pub record Transition : Type 0 where
  pub from : String
  pub to : String
  pub roles : List String
  pub types : List String

pub record Engine : Type 0 where
  pub rules : List Rule

abbrev pub plain : String → String → List String → Rule
plain from to roles = record { from = from; to = to; roles = roles; types = []; exclude_types = [] }

abbrev pub not_doc : String → String → List String → Rule
not_doc from to roles = record (plain from to roles) { exclude_types = "doc" ∷ [] }

abbrev pub only : String → String → String → List String → Rule
only ty from to roles = record (plain from to roles) { types = ty ∷ [] }

unfoldable pub default_rules : List Rule
default_rules =
    plain "raw" "draft" ("product-owner" ∷ "analyst" ∷ "system" ∷ [])
    ∷ plain "draft" "raw" ("product-owner" ∷ [])
    ∷ not_doc "draft" "clarifying" ("product-owner" ∷ "analyst" ∷ [])
    ∷ not_doc "clarifying" "planning" ("product-owner" ∷ "reviewer" ∷ "analyst" ∷ [])
    ∷ not_doc "planning" "in-development" ("approver" ∷ [])
    ∷ plain "in-development" "in-qa"
        ("backend-developer" ∷ "frontend-developer" ∷ "test-developer" ∷ [])
    ∷ only "doc" "draft" "approved" ("product-owner" ∷ [])
    ∷ only "doc" "approved" "in-development" ("tech-writer" ∷ [])
    ∷ only "doc" "in-development" "in-qa" ("tech-writer" ∷ [])
    ∷ only "doc" "in-qa" "done" ("qa" ∷ [])
    ∷ only "doc" "in-qa" "in-development" ("qa" ∷ [])
    ∷ plain "in-qa" "approved" ("qa" ∷ [])
    ∷ plain "approved" "done" ("approver" ∷ [])
    ∷ plain "clarifying" "draft" ("product-owner" ∷ "analyst" ∷ [])
    ∷ plain "" "rejected" ("reviewer" ∷ [])
    ∷ plain "" "abandoned" ("product-owner" ∷ "approver" ∷ [])
    ∷ plain "" "blocked"
        ("analyst" ∷ "backend-developer" ∷ "frontend-developer" ∷ "test-developer" ∷ "qa" ∷ [])
    ∷ plain "blocked" "draft" ("product-owner" ∷ "analyst" ∷ [])
    ∷ plain "" "blocked" ("system" ∷ [])
    ∷ plain "blocked" "draft" ("system" ∷ [])
    ∷ only "test" "approved" "in-qa" ("qa" ∷ [])
    ∷ only "test" "in-qa" "approved" ("system" ∷ [])
    ∷ []

-- typeSlicesEqual's second loop: every element of `b` is in the set made of `a`.
pub all_in : List String → List String → Bool
all_in [] a = true
all_in (v ∷ b) a = has v a && all_in b a

pub type_slices_equal : List String → List String → Bool
unfolding all_in
type_slices_equal a b = if not (length a == length b) then false else all_in b a

-- One round of the outer loop of `New`: the first rule with the same (from, to, types) gets the
-- roles of `t` and the loop stops; where no rule matches, a new one is appended.
unfoldable pub overlay : List Rule → Transition → List Rule
overlay [] t =
    record { from = t.from; to = t.to; roles = t.roles; types = t.types; exclude_types = [] } ∷ []
overlay (r ∷ rules) t =
    if str_eq r.from t.from && str_eq r.to t.to && type_slices_equal r.types t.types
    then record r { roles = t.roles } ∷ rules
    else r ∷ overlay rules t

unfoldable pub overlay_all : List Rule → List Transition → List Rule
overlay_all rules [] = rules
overlay_all rules (t ∷ ts) = overlay_all (overlay rules t) ts

-- New
unfoldable pub new : List Transition → Engine
new transitions = record { rules = overlay_all default_rules transitions }

unfoldable pub has_product_owner : List String → Bool
has_product_owner roles = has "product-owner" roles

abbrev pub is_empty {ℓ} : {A : Type ℓ} → List A → Bool
is_empty [] = true
is_empty _ = false

unfoldable pub rule_matches_type : Rule → String → Bool
rule_matches_type r ty =
    if not (str_eq ty "") && not (is_empty r.exclude_types) && has ty r.exclude_types
    then false
    else if is_empty r.types
    then true
    else if str_eq ty ""
    then false
    else has ty r.types

-- The two nested loops over a rule's roles and the user's.
unfoldable pub roles_meet : List String → List String → Bool
roles_meet [] user_roles = false
roles_meet (allowed ∷ roles) user_roles = has allowed user_roles || roles_meet roles user_roles

-- The loop of CanTransition over the rules.
unfoldable pub any_rule : List Rule → String → String → List String → String → Bool
any_rule [] from to user_roles ty = false
any_rule (r ∷ rules) from to user_roles ty =
    let rest = any_rule rules from to user_roles ty in
    if not (str_eq r.to to)
    then rest
    else if not (str_eq r.from "") && not (str_eq r.from from)
    then rest
    else if not (rule_matches_type r ty)
    then rest
    else if roles_meet r.roles user_roles
    then true
    else rest

unfoldable pub can_transition : Engine → String → String → List String → String → Bool
can_transition e from to user_roles ty =
    if str_eq from to
    then false
    else if not (has to known_statuses)
    then false
    else if has_product_owner user_roles
    then true
    else any_rule e.rules from to user_roles ty

-- `seen` and `out` are written together, so `seen[x]` says that `x` is in `out`.
pub add_target : String → List String → List String
add_target to out = if has to out then out else out ++ to ∷ []

-- The inner loop of AllowedTargets: one user role after another.
pub add_by_user : String → String → List String → List String → List String
add_by_user allowed to [] out = out
add_by_user allowed to (ur ∷ user_roles) out =
    add_by_user allowed to user_roles (if str_eq ur allowed then add_target to out else out)

pub add_by_roles : List String → String → List String → List String → List String
add_by_roles [] to user_roles out = out
add_by_roles (allowed ∷ roles) to user_roles out =
    add_by_roles roles to user_roles (add_by_user allowed to user_roles out)

pub all_targets : List Rule → List String → List String
all_targets [] out = out
all_targets (r ∷ rules) out = all_targets rules (add_target r.to out)

pub targets : List Rule → String → List String → String → List String → List String
targets [] from user_roles ty out = out
targets (r ∷ rules) from user_roles ty out = targets rules from user_roles ty (
    if not (str_eq r.from "") && not (str_eq r.from from)
    then out
    else if not (rule_matches_type r ty)
    then out
    else add_by_roles r.roles r.to user_roles out)

pub allowed_targets : Engine → String → List String → String → List String
allowed_targets e from user_roles ty =
    if has_product_owner user_roles
    then all_targets e.rules []
    else targets e.rules from user_roles ty []

-- The columns of an index row that GateReady reads.
pub record Row : Type 0 where
  pub ty : String
  pub status : String

-- approved[t] after the first loop
pub approved : List Row → String → Bool
approved [] t = false
approved (r ∷ rows) t = (str_eq r.status "approved" && str_eq r.ty t) || approved rows t

pub missing_types : List Row → List String → List String
missing_types rows [] = []
missing_types rows (req ∷ required) =
    let rest = missing_types rows required in if approved rows req then rest else req ∷ rest

-- GateReady on what the index query returns: `none` is a failed query, and a failed check.
unfoldable pub gate_ready : Option (List Row) → List String → Option (Bool × List String)
gate_ready rows [] = some (true, [])
gate_ready none (req ∷ required) = none
gate_ready (some rows) (req ∷ required) =
    let missing = missing_types rows (req ∷ required) in some (is_empty missing, missing)
