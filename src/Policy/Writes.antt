-- ===== src/Policy/Writes.antt =====
-- Which writes Evaluate allows.
use mathlib.Core.List.{append_assoc, append-nil}
use kaos_control.Common.{
  ◌||◌, ℕ, ◌≡◌, ◌⊎◌, inl, inr, ◌∙◌, refl, sym, ap, subst, true, false, ==_iff, Bool-cases, Option,
  none, some, List, [], ◌∷◌, ◌++◌, Memᴰ, Bytes, is_nil, same_bytes, starts_with, arith,
}
use kaos_control.Common.Equal.{same_bytes-eq}
use kaos_control.Paths.{Segments, dot_dot, is_abs, clean, join, up_from, rel_segments, or_dot, rel}
use kaos_control.Policy.{
  path_allowed, is_allow, trim_left, keep_before, trim_right, path_has_prefix, any_prefix,
  PolicyConfig, evaluate_scope, evaluate_relative, evaluate_write,
}

join-dot_dot : (path : Segments) → starts_with dot_dot (join (dot_dot ∷ path)) ≡ true
unfolding join starts_with
join-dot_dot [] = refl
join-dot_dot (s ∷ path) = refl

-- A relative path that does not lead up stays inside.
rel_inside :
    (base target : Segments)
    → starts_with dot_dot (or_dot (rel_segments base target)) ≡ false
    → (rest : Segments) × (target ≡ base ++ rest) × (rel_segments base target ≡ rest)
unfolding rel_segments up_from
rel_inside [] target h = (target, refl, refl)
rel_inside (b ∷ base) [] h = absurd (ground (arith, h, join-dot_dot (up_from base [])))
rel_inside (b ∷ base) (t ∷ target) h = elim (Bool-cases (same_bytes b t)) [
  | inr e ↦ absurd (ground (arith, e, h, join-dot_dot (up_from base (t ∷ target))))
  | inl e ↦
      let (rest, at, same) = rel_inside base target (rw e at h) in
      (rest, ap (λ x. x ∷ target) (sym (same_bytes-eq b t e)) ∙ ap (λ x. b ∷ x) at, rw e same)
]

-- Without slashes at the start, the path begins with the text of the prefix, less its slashes at both ends.
abbrev pub Under : Bytes → Bytes → Type 0
Under prefix path = (rest : Bytes) × (trim_left path ≡ trim_right (trim_left prefix) ++ rest)

abbrev pub UnderAny : List Bytes → Bytes → Type 0
UnderAny prefixes path = (p : Bytes) × Memᴰ p prefixes × Under p path

-- What is granted to a path that is relative to the project.
abbrev pub InScope : PolicyConfig → Bytes → Type 0
InScope cfg path =
    ((cfg.allowed_paths ≡ []) ⊎ UnderAny cfg.allowed_paths path)
    × ((cfg.lineage_paths ≡ []) ⊎ UnderAny cfg.lineage_paths path)

starts_with-split : (p s : Bytes) → starts_with p s ≡ true → (rest : Bytes) × (s ≡ p ++ rest)
unfolding starts_with
starts_with-split [] s h = (s, refl)
starts_with-split (c ∷ p) [] h = absurd (ground (arith, h))
starts_with-split (c ∷ p) (d ∷ s) h =
    let (rest, e) = starts_with-split p s (ground (arith, h)) in
    (rest, ap (λ x. x ∷ s) (sym ((==_iff c d).0 (ground (arith, h)))) ∙ ap (λ x. c ∷ x) e)

path_has_prefix-Under :
    (path prefix : Bytes) → path_has_prefix path prefix ≡ true → Under prefix path
unfolding path_has_prefix trim_left trim_right
path_has_prefix-Under path [] h = (trim_left path, refl)
path_has_prefix-Under path (c ∷ prefix) h =
    of_parts (trim_left path) (trim_right (trim_left (c ∷ prefix))) h
  where
    with_slash :
        (t p : Bytes) → starts_with (p ++ 47 ∷ []) t ≡ true → (rest : Bytes) × (t ≡ p ++ rest)
    with_slash t p h =
        let (rest, e) = starts_with-split (p ++ 47 ∷ []) t h in
        (47 ∷ rest, e ∙ append_assoc p (47 ∷ []) rest)

    of_parts :
        (t p : Bytes)
        → (is_nil p || same_bytes t p || starts_with (p ++ 47 ∷ []) t || starts_with p t) ≡ true
        → (rest : Bytes) × (t ≡ p ++ rest)
    of_parts t [] h = (t, refl)
    of_parts t (d ∷ p) h = elim (Bool-cases (same_bytes t (d ∷ p))) [
      | inl e ↦ ([], same_bytes-eq t (d ∷ p) e ∙ sym (append-nil (d ∷ p)))
      | inr e ↦ elim (Bool-cases (starts_with ((d ∷ p) ++ 47 ∷ []) t)) [
        | inl s ↦ with_slash t (d ∷ p) s
        | inr s ↦ starts_with-split (d ∷ p) t (ground (arith, h, e, s))
      ]
    ]

any_prefix-UnderAny :
    (ps : List Bytes) (path : Bytes) → any_prefix ps path ≡ true → UnderAny ps path
unfolding any_prefix
any_prefix-UnderAny [] path h = absurd (ground (arith, h))
any_prefix-UnderAny (p ∷ ps) path h = elim (Bool-cases (path_has_prefix path p)) [
  | inl e ↦ (p, Memᴰ.head refl, path_has_prefix-Under path p e)
  | inr e ↦
      let (q, m, u) = any_prefix-UnderAny ps path (ground (arith, h, e)) in (q, Memᴰ.tail m, u)
]

nil_eq {ℓ} : {A : Type ℓ} (xs : List A) → is_nil xs ≡ true → xs ≡ []
nil_eq [] h = refl
nil_eq (x ∷ xs) h = ground (arith, h)

scope_tests :
    (cfg : PolicyConfig) (path : Bytes)
    → is_allow (evaluate_scope cfg path) ≡ true
    → ((cfg.allowed_paths ≡ []) ⊎ (any_prefix cfg.allowed_paths path ≡ true))
      × ((cfg.lineage_paths ≡ []) ⊎ (any_prefix cfg.lineage_paths path ≡ true))
unfolding evaluate_scope
scope_tests cfg path h = ground (arith, h, nil_eq cfg.allowed_paths, nil_eq cfg.lineage_paths)

or_under :
    (ps : List Bytes) (path : Bytes)
    → (ps ≡ []) ⊎ (any_prefix ps path ≡ true)
    → (ps ≡ []) ⊎ UnderAny ps path
or_under ps path (inl e) = inl e
or_under ps path (inr e) = inr (any_prefix-UnderAny ps path e)

scope-InScope :
    (cfg : PolicyConfig) (path : Bytes)
    → is_allow (evaluate_scope cfg path) ≡ true
    → InScope cfg path
scope-InScope cfg path h =
    let (a, b) = scope_tests cfg path h in
    (or_under cfg.allowed_paths path a, or_under cfg.lineage_paths path b)

relative_allowed :
    (cfg : PolicyConfig) (o : Option Bytes)
    → is_allow (evaluate_relative cfg o) ≡ true
    → (path : Bytes) × (o ≡ some path) × (starts_with dot_dot path ≡ false) × InScope cfg path
relative_allowed cfg none h = absurd (ground (arith, h))
relative_allowed cfg (some path) h = elim (Bool-cases (starts_with dot_dot path)) [
  | inl e ↦ absurd (ground (arith, e, h))
  | inr e ↦ (path, refl, e, scope-InScope cfg path (rw e at h))
]

rel-some :
    (base path : Bytes) (target : Segments)
    → rel base target ≡ some path
    → (is_abs base ≡ true) × (path ≡ or_dot (rel_segments (clean base) target))
unfolding rel
rel-some base path target h = ground (arith, h)

write_relative :
    (cfg : PolicyConfig) (path : Bytes)
    → is_abs path ≡ true
    → is_allow (evaluate_write cfg path) ≡ true
    → is_allow (evaluate_relative cfg (rel cfg.project_root (clean path))) ≡ true
unfolding evaluate_write
write_relative cfg [] a h = ground (arith, a)
write_relative cfg (c ∷ path) a h = ground (arith, a, h)

-- A write to an absolute path is allowed only under the project's root: the clean path is the clean
-- root, which is absolute, and a rest. Where there are allowed paths, the text of the rest begins with
-- one of them, less its slashes at both ends, and where there are lineage paths, with one of those; what
-- follows need not begin with a slash.
pub absolute_inside :
    (cfg : PolicyConfig) (path : Bytes)
    → is_abs path ≡ true
    → is_allow (evaluate_write cfg path) ≡ true
    → (is_abs cfg.project_root ≡ true)
      × (rest : Segments) × (clean path ≡ clean cfg.project_root ++ rest)
      × InScope cfg (or_dot rest)
absolute_inside cfg path a h =
    let (p, e, below, scope) =
      relative_allowed cfg (rel cfg.project_root (clean path)) (write_relative cfg path a h) in
    let (root, is) = rel-some cfg.project_root p (clean path) e in
    let (rest, at, same) =
      rel_inside (clean cfg.project_root) (clean path)
        (ap (starts_with dot_dot) (sym is) ∙ below) in
    (root, rest, at, subst (InScope cfg) (is ∙ ap or_dot same) scope)

starts_with-keep :
    (c : ℕ) (r s : Bytes) → starts_with r s ≡ true → starts_with (keep_before c r) (c ∷ s) ≡ true
unfolding starts_with
starts_with-keep c [] s h = ground (arith, ==_iff c c)
starts_with-keep c (d ∷ r) s h = ground (arith, ==_iff c c, h)

starts_with-trim_right : (p s : Bytes) → starts_with (trim_right p) (p ++ s) ≡ true
unfolding trim_right starts_with
starts_with-trim_right [] s = refl
starts_with-trim_right (c ∷ p) s =
    starts_with-keep c (trim_right p) (p ++ s) (starts_with-trim_right p s)

path_has_prefix-append :
    (c : ℕ) (p s : Bytes) → is_abs (c ∷ p) ≡ false → path_has_prefix ((c ∷ p) ++ s) (c ∷ p) ≡ true
unfolding path_has_prefix trim_left
path_has_prefix-append c p s h = ground (arith, h, starts_with-trim_right (c ∷ p) s)

any_prefix-Memᴰ :
    (ps : List Bytes) (p path : Bytes)
    → Memᴰ p ps
    → path_has_prefix path p ≡ true
    → any_prefix ps path ≡ true
unfolding any_prefix
any_prefix-Memᴰ [] p path m h = elim m [ ]
any_prefix-Memᴰ (q ∷ ps) p path (Memᴰ.head e) h =
    ground (arith, ap (path_has_prefix path) (sym e) ∙ h)
any_prefix-Memᴰ (q ∷ ps) p path (Memᴰ.tail m) h = ground (arith, any_prefix-Memᴰ ps p path m h)

-- A relative path is not cleaned: where a prefix `c ∷ p` that does not begin with a slash is allowed and
-- there are no lineage paths, every path with that beginning may be written, also one that goes on
-- with segments `..` which lead out of the project.
pub relative_textual :
    (cfg : PolicyConfig) (c : ℕ) (p s : Bytes)
    → is_abs (c ∷ p) ≡ false
    → Memᴰ (c ∷ p) cfg.allowed_paths
    → cfg.lineage_paths ≡ []
    → evaluate_write cfg ((c ∷ p) ++ s) ≡ path_allowed
unfolding evaluate_write evaluate_scope trim_left
relative_textual cfg c p s h m l = ground (
  arith,
  h,
  ap is_nil l,
  any_prefix-Memᴰ cfg.allowed_paths (c ∷ p) (c ∷ (p ++ s)) m (path_has_prefix-append c p s h),
)
