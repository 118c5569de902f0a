-- ===== src/Workflow/Permits.antt =====
-- Who may make a transition: the rule loop of CanTransition against a description without loops.
use kaos_control.Common.{
  String, true, ◌≡◌, ◌≢◌, ◌↔◌, ◌⊎◌, inl, inr, refl, List, [], ◌∷◌, Memᴰ, arith, str_eq_iff, has,
  has→Memᴰ, Memᴰ→has, has_iff, Bool-cases, subst,
}
use kaos_control.Workflow.{
  Rule, Engine, known_statuses, has_product_owner, rule_matches_type, roles_meet, any_rule,
  is_empty, can_transition,
}

is_empty-eq : (xs : List String) → is_empty xs ≡ true → xs ≡ []
is_empty-eq xs h = ground arith

pub record TypeFits (r : Rule) (ty : String) : Type 0 where
  pub not_excluded : ¬ ((ty ≢ "") × Memᴰ ty r.exclude_types)
  pub included : (r.types ≡ []) ⊎ ((ty ≢ "") × Memᴰ ty r.types)

abbrev pub Share : List String → List String → Type 0
Share roles user_roles = (role : String) × Memᴰ role roles × Memᴰ role user_roles

-- The rule lets a holder of one of `user_roles` go from `from` to `to` on an artifact of type `ty`.
pub record Grants (r : Rule) (from to : String) (user_roles : List String) (ty : String)
    : Type 0 where
  pub to_fits : r.to ≡ to
  pub from_fits : (r.from ≡ "") ⊎ (r.from ≡ from)
  pub type_fits : TypeFits r ty
  pub share : Share r.roles user_roles

module _ (r : Rule) (ty : String) (h : rule_matches_type r ty ≡ true) where
  matches_not_excluded : ¬ ((ty ≢ "") × Memᴰ ty r.exclude_types)
  unfolding rule_matches_type has
  matches_not_excluded (ne, m) = ground (arith, str_eq_iff ty "", Memᴰ→has ty r.exclude_types m)

  matches_included : (r.types ≡ []) ⊎ ((ty ≢ "") × Memᴰ ty r.types)
  unfolding rule_matches_type
  matches_included = elim (Bool-cases (is_empty r.types)) [
    | inl e ↦ inl (is_empty-eq r.types e)
    | inr e ↦ inr (
      (λ z. ground (arith, str_eq_iff ty "")),
      has→Memᴰ ty r.types (ground (arith, str_eq_iff ty "")),
    )
  ]

  pub rule_matches_type-TypeFits : TypeFits r ty
  rule_matches_type-TypeFits = record {
    not_excluded = matches_not_excluded;
    included = matches_included;
  }

pub TypeFits-rule_matches_type :
    (r : Rule) (ty : String) → TypeFits r ty → rule_matches_type r ty ≡ true
unfolding rule_matches_type
TypeFits-rule_matches_type r ty h =
    ground (arith, str_eq_iff ty "", has_iff ty r.exclude_types, has_iff ty r.types)

pub roles_meet→Share :
    (roles user_roles : List String) → roles_meet roles user_roles ≡ true → Share roles user_roles
unfolding roles_meet
roles_meet→Share [] us h = cc
roles_meet→Share (a ∷ roles) us h = elim (Bool-cases (has a us)) [
  | inl e ↦ (a, Memᴰ.head refl, has→Memᴰ a us e)
  | inr e ↦ let (x, m, n) = roles_meet→Share roles us (rw e at h) in (x, Memᴰ.tail m, n)
]

pub Share→roles_meet :
    (roles user_roles : List String) → Share roles user_roles → roles_meet roles user_roles ≡ true
unfolding roles_meet
Share→roles_meet [] us (x, m, n) = elim m [ ]
Share→roles_meet (a ∷ roles) us (x, Memᴰ.head e, n) =
    ground (arith, Memᴰ→has a us (subst (λ y. Memᴰ y us) e n))
Share→roles_meet (a ∷ roles) us (x, Memᴰ.tail m, n) =
    ground (arith, Share→roles_meet roles us (x, m, n))

pub Share-cons :
    (a : String) (roles user_roles : List String)
    → has a user_roles ≡ true
    → Share (a ∷ roles) user_roles
Share-cons a roles us e = (a, Memᴰ.head refl, has→Memᴰ a us e)

-- Some rule of the list grants the move.
abbrev pub Granted : List Rule → String → String → List String → String → Type 0
Granted rules from to user_roles ty = (r : Rule) × Memᴰ r rules × Grants r from to user_roles ty

Grants-any_rule :
    (r : Rule) (rules : List Rule) (from to : String) (us : List String) (ty : String)
    → Grants r from to us ty
    → any_rule (r ∷ rules) from to us ty ≡ true
unfolding any_rule
Grants-any_rule r rules from to us ty g = ground (
  arith,
  str_eq_iff r.to to,
  str_eq_iff r.from "",
  str_eq_iff r.from from,
  TypeFits-rule_matches_type r ty g.type_fits,
  Share→roles_meet r.roles us g.share,
)

any_rule_later :
    (r : Rule) (rules : List Rule) (from to : String) (us : List String) (ty : String)
    → any_rule rules from to us ty ≡ true
    → any_rule (r ∷ rules) from to us ty ≡ true
unfolding any_rule
any_rule_later r rules from to us ty h = ground arith

-- The first rule decides, or the rest of the list does.
any_rule_step :
    (r : Rule) (rules : List Rule) (from to : String) (us : List String) (ty : String)
    → any_rule (r ∷ rules) from to us ty ≡ true
    → Grants r from to us ty ⊎ (any_rule rules from to us ty ≡ true)
unfolding any_rule
any_rule_step r rules from to us ty h = elim (Bool-cases (any_rule rules from to us ty)) [
  | inl later ↦ inr later
  | inr e ↦ inl (record {
    to_fits = ground (arith, str_eq_iff r.to to);
    from_fits = ground (arith, str_eq_iff r.from "", str_eq_iff r.from from);
    type_fits = rule_matches_type-TypeFits r ty (ground arith);
    share = roles_meet→Share r.roles us (ground arith);
  })
]

pub Granted→any_rule :
    (rules : List Rule) (from to : String) (us : List String) (ty : String)
    → Granted rules from to us ty
    → any_rule rules from to us ty ≡ true
Granted→any_rule [] from to us ty (r, m, g) = elim m [ ]
Granted→any_rule (r₀ ∷ rules) from to us ty (r, Memᴰ.head e, g) =
    Grants-any_rule r₀ rules from to us ty (subst (λ x. Grants x from to us ty) e g)
Granted→any_rule (r₀ ∷ rules) from to us ty (r, Memᴰ.tail m, g) =
    any_rule_later r₀ rules from to us ty (Granted→any_rule rules from to us ty (r, m, g))

pub any_rule→Granted :
    (rules : List Rule) (from to : String) (us : List String) (ty : String)
    → any_rule rules from to us ty ≡ true
    → Granted rules from to us ty
unfolding any_rule
any_rule→Granted [] from to us ty h = cc
any_rule→Granted (r ∷ rules) from to us ty h = elim (any_rule_step r rules from to us ty h) [
  | inl g ↦ (r, Memᴰ.head refl, g)
  | inr later ↦ let (x, m, g) = any_rule→Granted rules from to us ty later in (x, Memᴰ.tail m, g)
]

-- CanTransition answers yes exactly when the two statuses differ, the target is in the status
-- vocabulary, and the caller is a product-owner or some rule grants the move: its target is `to`, its
-- source is empty, which fits every `from`, terminal ones too, or is `from`, the artifact type is not excluded and is among the rule's types where it
-- has any, and the rule's roles and the caller's share one.
pub can_transition_iff :
    (e : Engine) (from to : String) (us : List String) (ty : String)
    → (can_transition e from to us ty ≡ true) ↔ (
        (from ≢ to)
        × Memᴰ to known_statuses
        × (Memᴰ "product-owner" us ⊎ Granted e.rules from to us ty))
unfolding can_transition has_product_owner
can_transition_iff e from to us ty = (
  (λ h. (
    λ p. ground (arith, str_eq_iff from to),
    has→Memᴰ to known_statuses (ground arith),
    elim (Bool-cases (has "product-owner" us)) [
      | inl po ↦ inl (has→Memᴰ "product-owner" us po)
      | inr e' ↦ inr (any_rule→Granted e.rules from to us ty (ground arith))
    ],
  )),
  (λ (ne, m, why).
      ground (arith, str_eq_iff from to, Memᴰ→has to known_statuses m, po_or_rule why)),
)
  where
    po_or_rule :
        Memᴰ "product-owner" us ⊎ Granted e.rules from to us ty
        → (has "product-owner" us ≡ true) ⊎ (any_rule e.rules from to us ty ≡ true)
    po_or_rule (inl m) = inl (Memᴰ→has "product-owner" us m)
    po_or_rule (inr g) = inr (Granted→any_rule e.rules from to us ty g)
