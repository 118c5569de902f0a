-- ===== src/Workflow/Overlay.antt =====
-- What a project's own transitions can and cannot change (New).
use kaos_control.Common.{
  String, Bool, All, All-Memᴰ, true, false, ◌≡◌, ◌≢◌, ◌∙◌, Memᴰ→has, refl, sym, inl, inr, List, [],
  ◌∷◌, Memᴰ, arith, str_eq, str_eq_iff, has, has→Memᴰ, Bool-cases, ◌&&◌, subst,
}
use kaos_control.Workflow.{
  Rule, Transition, Engine, plain, known_statuses, default_rules, type_slices_equal, overlay,
  overlay_all, new, can_transition, allowed_targets,
}
use kaos_control.Workflow.Permits.{Grants, can_transition_iff}
use kaos_control.Workflow.Targets.{is_target, has-all_targets, has-targets}

-- The test of `New`: a transition names the rule.
abbrev names : Rule → Transition → Bool
names r t = str_eq r.from t.from && str_eq r.to t.to && type_slices_equal r.types t.types

record SameKey (r s : Rule) : Type 0 where
  from : r.from ≡ s.from
  to : r.to ≡ s.to
  types : r.types ≡ s.types

names-SameKey : {r s : Rule} (t : Transition) → SameKey r s → names r t ≡ names s t
names-SameKey t k = rw (k.from, k.to, k.types)

-- `s` stands in the list behind another rule with the same key, which takes every override.
data Shadowed (s : Rule) : List Rule → Type 0 where
  here : {r : Rule} {rules : List Rule} → SameKey r s → Memᴰ s rules → Shadowed s (r ∷ rules)
  later : {r : Rule} {rules : List Rule} → Shadowed s rules → Shadowed s (r ∷ rules)

Shadowed-Memᴰ : {s : Rule} {rules : List Rule} → Shadowed s rules → Memᴰ s rules
Shadowed-Memᴰ (here k m) = Memᴰ.tail m
Shadowed-Memᴰ (later h) = Memᴰ.tail (Shadowed-Memᴰ h)

-- A rule that the transition does not name stays.
overlay-Memᴰ :
    {s : Rule} (rules : List Rule) (t : Transition)
    → names s t ≡ false
    → Memᴰ s rules
    → Memᴰ s (overlay rules t)
unfolding overlay
overlay-Memᴰ [] t h m = elim m [ ]
overlay-Memᴰ {s} (r ∷ rules) t h (Memᴰ.head e) =
    rw (subst (λ x. names x t ≡ false) e h) (Memᴰ.head e)
overlay-Memᴰ (r ∷ rules) t h (Memᴰ.tail m) = elim (Bool-cases (names r t)) [
  | inl n ↦ rw n (Memᴰ.tail m)
  | inr n ↦ rw n (Memᴰ.tail (overlay-Memᴰ rules t h m))
]

overlay-Shadowed :
    {s : Rule} (rules : List Rule) (t : Transition)
    → Shadowed s rules
    → Shadowed s (overlay rules t)
unfolding overlay
overlay-Shadowed [] t h = elim h [ ]
overlay-Shadowed (r ∷ rules) t (here k m) = elim (Bool-cases (names r t)) [
  | inl n ↦ rw n (here (record { from = k.from; to = k.to; types = k.types }) m)
  | inr n ↦ rw n (here k (overlay-Memᴰ rules t (sym (names-SameKey t k) ∙ n) m))
]
overlay-Shadowed (r ∷ rules) t (later h) = elim (Bool-cases (names r t)) [
  | inl n ↦ rw n (later h)
  | inr n ↦ rw n (later (overlay-Shadowed rules t h))
]

overlay_all-Shadowed :
    {s : Rule} (rules : List Rule) (ts : List Transition)
    → Shadowed s rules
    → Shadowed s (overlay_all rules ts)
unfolding overlay_all
overlay_all-Shadowed rules [] h = h
overlay_all-Shadowed rules (t ∷ ts) h =
    overlay_all-Shadowed (overlay rules t) ts (overlay-Shadowed rules t h)

abbrev system_block : Rule
system_block = plain "" "blocked" ("system" ∷ [])

abbrev system_unblock : Rule
system_unblock = plain "blocked" "draft" ("system" ∷ [])

same : {r : Rule} → SameKey r r
same = record { from = refl; to = refl; types = refl }

default-Shadowed_block : Shadowed system_block default_rules
unfolding default_rules
default-Shadowed_block = later (
    later (
      later (
        later (
          later (
            later (
              later (
                later (
                  later (
                    later (
                      later (
                        later (
                          later (
                            later (
                              later (
                                later (
                                  here (record { from = refl; to = refl; types = refl })
                                    (Memᴰ.tail (Memᴰ.head refl))))))))))))))))))

default-Shadowed_unblock : Shadowed system_unblock default_rules
unfolding default_rules
default-Shadowed_unblock = later (
    later (
      later (
        later (
          later (
            later (
              later (
                later (
                  later (
                    later (
                      later (
                        later (
                          later (
                            later (
                              later (
                                later (
                                  later (
                                    here (record { from = refl; to = refl; types = refl })
                                      (Memᴰ.tail (Memᴰ.head refl)))))))))))))))))))

-- A rule that stays in the list, for the system actor.
system_may :
    (e : Engine) (r : Rule) (from to ty : String)
    → Memᴰ r e.rules
    → Grants r from to ("system" ∷ []) ty
    → from ≢ to
    → Memᴰ to known_statuses
    → can_transition e from to ("system" ∷ []) ty ≡ true
system_may e r from to ty m g ne known =
    (can_transition_iff e from to ("system" ∷ []) ty).1 (ne, known, inr (r, m, g))

-- No project configuration can take from the system actor the right to block an artifact of any other
-- status, the terminal ones too, nor the right to send a blocked one back to draft, whatever its type: an override of the
-- same (from, to) changes an earlier rule.
pub new-system_blocks :
    (ts : List Transition) (from ty : String)
    → from ≢ "blocked"
    → (can_transition (new ts) from "blocked" ("system" ∷ []) ty ≡ true)
      × (can_transition (new ts) "blocked" "draft" ("system" ∷ []) ty ≡ true)
unfolding new has
new-system_blocks ts from ty ne = (
  system_may (new ts) system_block from "blocked" ty
      (Shadowed-Memᴰ (overlay_all-Shadowed default_rules ts default-Shadowed_block))
      (record {
        to_fits = refl;
        from_fits = inl refl;
        type_fits = record { not_excluded = λ (n, m). elim m [ ]; included = inl refl };
        share = ("system", Memᴰ.head refl, Memᴰ.head refl);
      })
      ne (has→Memᴰ "blocked" known_statuses refl),
  system_may (new ts) system_unblock "blocked" "draft" ty
      (Shadowed-Memᴰ (overlay_all-Shadowed default_rules ts default-Shadowed_unblock))
      (record {
        to_fits = refl;
        from_fits = inr refl;
        type_fits = record { not_excluded = λ (n, m). elim m [ ]; included = inl refl };
        share = ("system", Memᴰ.head refl, Memᴰ.head refl);
      })
      (λ p. ground (arith, str_eq_iff "blocked" "draft")) (has→Memᴰ "draft" known_statuses refl),
)

-- Overrides change no target and remove none.
is_target-overlay :
    (x : String) (rules : List Rule) (t : Transition)
    → is_target x rules ≡ true
    → is_target x (overlay rules t) ≡ true
unfolding overlay is_target
is_target-overlay x [] t h = cc
is_target-overlay x (r ∷ rules) t h = ground (arith, is_target-overlay x rules t)

is_target-overlay_all :
    (x : String) (rules : List Rule) (ts : List Transition)
    → is_target x rules ≡ true
    → is_target x (overlay_all rules ts) ≡ true
unfolding overlay_all
is_target-overlay_all x rules [] h = h
is_target-overlay_all x rules (t ∷ ts) h =
    is_target-overlay_all x (overlay rules t) ts (is_target-overlay x rules t h)

known-are_targets : All (λ x. is_target x default_rules ≡ true) known_statuses
unfolding default_rules is_target has
known-are_targets =
    (refl, (refl, (refl, (refl, (refl, (refl, (refl, (refl, (refl, (refl, (refl, tt)))))))))))

known-is_target : (x : String) → has x known_statuses ≡ true → is_target x default_rules ≡ true
known-is_target x h =
    All-Memᴰ (λ y. is_target y default_rules ≡ true) known_statuses known-are_targets
      (has→Memᴰ x known_statuses h)

new-is_target :
    (ts : List Transition) (x : String)
    → has x known_statuses ≡ true
    → is_target x (new ts).rules ≡ true
unfolding new
new-is_target ts x h = is_target-overlay_all x default_rules ts (known-is_target x h)

permitted_known :
    (e : Engine) (from to : String) (us : List String) (ty : String)
    → can_transition e from to us ty ≡ true
    → has to known_statuses ≡ true
permitted_known e from to us ty h =
    Memᴰ→has to known_statuses ((can_transition_iff e from to us ty).0 h).1

-- Where some rule has the target, a permitted move is offered.
offered :
    (e : Engine) (from to : String) (us : List String) (ty : String)
    → is_target to e.rules ≡ true
    → can_transition e from to us ty ≡ true
    → has to (allowed_targets e from us ty) ≡ true
unfolding can_transition allowed_targets
offered e from to us ty t h =
    ground (arith, has-all_targets to e.rules [], has-targets to e.rules from us ty [])

-- Under any project configuration, every move that CanTransition permits is offered by
-- AllowedTargets, to a product-owner as well.
pub can_transition-allowed_targets :
    (ts : List Transition) (from to : String) (us : List String) (ty : String)
    → can_transition (new ts) from to us ty ≡ true
    → has to (allowed_targets (new ts) from us ty) ≡ true
can_transition-allowed_targets ts from to us ty h =
    offered (new ts) from to us ty (new-is_target ts to (permitted_known (new ts) from to us ty h))
      h
