-- ===== src/Workflow/Targets.antt =====
-- AllowedTargets against CanTransition.
use kaos_control.Common.{
  String, Bool, true, false, ◌≡◌, ◌≢◌, refl, List, [], ◌∷◌, ◌++◌, ◌||◌, ◌&&◌, arith, str_eq,
  str_eq_iff, has, has_iff, has-append, Bool-cases, inl, inr,
}
use kaos_control.Workflow.{
  Rule, Engine, known_statuses, has_product_owner, roles_meet, any_rule, can_transition, add_target,
  add_by_user, add_by_roles, targets, all_targets, allowed_targets,
}

-- No text twice.
abbrev pub Distinct : List String → Type 0
Distinct [] = Unit
Distinct (x ∷ xs) = (has x xs ≡ false) × Distinct xs

pub has-add_target :
    (x to : String) (out : List String) → has x (add_target to out) ≡ (has x out || str_eq to x)
unfolding add_target has
has-add_target x to out =
    ground (arith, has-append x out (to ∷ []), str_eq_iff to x, has_iff x out, has_iff to out)

has-add_by_user :
    (x allowed to : String) (us out : List String)
    → has x (add_by_user allowed to us out) ≡ (has x out || (has allowed us && str_eq to x))
unfolding add_by_user has
has-add_by_user x allowed to [] out = ground arith
has-add_by_user x allowed to (u ∷ us) out = ground (
  arith,
  has-add_by_user x allowed to us out,
  has-add_by_user x allowed to us (add_target to out),
  has-add_target x to out,
)

has-add_by_roles :
    (x : String) (roles : List String) (to : String) (us out : List String)
    → has x (add_by_roles roles to us out) ≡ (has x out || (roles_meet roles us && str_eq to x))
unfolding add_by_roles roles_meet
has-add_by_roles x [] to us out = ground arith
has-add_by_roles x (a ∷ roles) to us out =
    ground (
      arith,
      has-add_by_roles x roles to us (add_by_user a to us out),
      has-add_by_user x a to us out,
    )

pub has-targets :
    (x : String) (rules : List Rule) (from : String) (us : List String) (ty : String)
    (out : List String)
    → has x (targets rules from us ty out) ≡ (has x out || any_rule rules from x us ty)
unfolding targets any_rule
has-targets x [] from us ty out = ground arith
has-targets x (r ∷ rules) from us ty out = ground (
  arith,
  has-targets x rules from us ty out,
  has-targets x rules from us ty (add_by_roles r.roles r.to us out),
  has-add_by_roles x r.roles r.to us out,
)

-- Some rule has the target `x`.
unfoldable pub is_target : String → List Rule → Bool
is_target x [] = false
is_target x (r ∷ rules) = str_eq r.to x || is_target x rules

pub has-all_targets :
    (x : String) (rules : List Rule) (out : List String)
    → has x (all_targets rules out) ≡ (has x out || is_target x rules)
unfolding all_targets is_target
has-all_targets x [] out = ground arith
has-all_targets x (r ∷ rules) out =
    ground (arith, has-all_targets x rules (add_target r.to out), has-add_target x r.to out)

-- For a caller who is no product-owner, a known status other than the current one is among the
-- allowed targets exactly when CanTransition permits the move.
pub allowed_targets-can_transition :
    (e : Engine) (from to : String) (us : List String) (ty : String)
    → has_product_owner us ≡ false
    → from ≢ to
    → has to known_statuses ≡ true
    → has to (allowed_targets e from us ty) ≡ can_transition e from to us ty
unfolding allowed_targets can_transition has
allowed_targets-can_transition e from to us ty np ne known =
    ground (arith, has-targets to e.rules from us ty [], str_eq_iff from to)

Distinct-snoc :
    (xs : List String) (y : String) → Distinct xs → has y xs ≡ false → Distinct (xs ++ y ∷ [])
unfolding has
Distinct-snoc [] y d h = (refl, tt)
Distinct-snoc (x ∷ xs) y d h = (
  ground (arith, has-append x xs (y ∷ []), str_eq_iff x y, str_eq_iff y x),
  Distinct-snoc xs y d.1 (ground arith),
)

add_target-Distinct :
    (to : String) (out : List String) → Distinct out → Distinct (add_target to out)
unfolding add_target
add_target-Distinct to out d = elim (Bool-cases (has to out)) [
  | inl old ↦ ground arith
  | inr new ↦ ground (arith, Distinct-snoc out to d new)
]

add_by_user-Distinct :
    (allowed to : String) (us out : List String)
    → Distinct out
    → Distinct (add_by_user allowed to us out)
unfolding add_by_user
add_by_user-Distinct allowed to [] out d = d
add_by_user-Distinct allowed to (u ∷ us) out d = elim (Bool-cases (str_eq u allowed)) [
  | inl e ↦
      rw e (add_by_user-Distinct allowed to us (add_target to out) (add_target-Distinct to out d))
  | inr e ↦ rw e (add_by_user-Distinct allowed to us out d)
]

add_by_roles-Distinct :
    (roles : List String) (to : String) (us out : List String)
    → Distinct out
    → Distinct (add_by_roles roles to us out)
unfolding add_by_roles
add_by_roles-Distinct [] to us out d = d
add_by_roles-Distinct (a ∷ roles) to us out d =
    add_by_roles-Distinct roles to us (add_by_user a to us out) (add_by_user-Distinct a to us out d)

all_targets-Distinct :
    (rules : List Rule) (out : List String) → Distinct out → Distinct (all_targets rules out)
unfolding all_targets
all_targets-Distinct [] out d = d
all_targets-Distinct (r ∷ rules) out d =
    all_targets-Distinct rules (add_target r.to out) (add_target-Distinct r.to out d)

targets-Distinct :
    (rules : List Rule) (from : String) (us : List String) (ty : String) (out : List String)
    → Distinct out
    → Distinct (targets rules from us ty out)
unfolding targets
targets-Distinct [] from us ty out d = d
targets-Distinct (r ∷ rules) from us ty out d = ground (
  arith,
  targets-Distinct rules from us ty out d,
  targets-Distinct rules from us ty (add_by_roles r.roles r.to us out)
      (add_by_roles-Distinct r.roles r.to us out d),
)

-- No status is offered twice, whoever asks.
pub allowed_targets-Distinct :
    (e : Engine) (from : String) (us : List String) (ty : String)
    → Distinct (allowed_targets e from us ty)
unfolding allowed_targets
allowed_targets-Distinct e from us ty = elim (Bool-cases (has_product_owner us)) [
  | inl po ↦ rw po (all_targets-Distinct e.rules [] tt)
  | inr np ↦ rw np (targets-Distinct e.rules from us ty [] tt)
]
