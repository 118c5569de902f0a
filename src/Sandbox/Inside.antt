-- ===== src/Sandbox/Inside.antt =====
-- What Resolve answers lies in the project, as far as the links are followed.
use mathlib.Core.List.{append-nil}
use kaos_control.Common.{
  true, false, Option, none, some, [], ◌∷◌, ◌++◌, ◌≡◌, ◌∙◌, ◌⊎◌, inl, inr, refl, sym, ap, subst, ok,
  err, Bytes, split, Bool-cases, arith,
}
use kaos_control.Common.Equal.{same_bytes-eq}
use kaos_control.Paths.{Segments, is_abs, clean_segments}
use kaos_control.Sandbox.{
  no_parent, Links, clean_relative, leaves, same_path, begins_with, has_prefix, checked, from_last,
  ancestor_at, walk, reversed, parent_from_last, resolve_abs, resolve_clean, resolve,
}

-- A path in the root
abbrev pub In : Segments → Segments → Type 0
In root path = (rest : Segments) × (path ≡ root ++ rest)

same_path-In : (path root : Segments) → same_path path root ≡ true → path ≡ root
unfolding same_path
same_path-In [] [] h = refl
same_path-In [] (t ∷ q) h = absurd (ground (arith, h))
same_path-In (s ∷ p) [] h = absurd (ground (arith, h))
same_path-In (s ∷ p) (t ∷ q) h =
    ap (λ x. x ∷ p) (same_bytes-eq s t (ground (arith, h)))
    ∙ ap (λ x. t ∷ x) (same_path-In p q (ground (arith, h)))

begins_with-In : (root path : Segments) → begins_with root path ≡ true → In root path
unfolding begins_with
begins_with-In [] path h = (path, refl)
begins_with-In (r ∷ root) [] h = absurd (ground (arith, h))
begins_with-In (r ∷ root) (s ∷ path) h =
    let (rest, e) = begins_with-In root path (ground (arith, h)) in
    (rest, ap (λ x. x ∷ path) (sym (same_bytes-eq r s (ground (arith, h)))) ∙ ap (λ x. r ∷ x) e)

has_prefix-In : (path root : Segments) → has_prefix path root ≡ true → In root path
unfolding has_prefix
has_prefix-In path root h = elim (Bool-cases (same_path path root)) [
  | inl e ↦ ([], same_path-In path root e ∙ sym (append-nil root))
  | inr e ↦ begins_with-In root path (ground (arith, h, e))
]

checked-In :
    (root resolved answer p : Segments)
    → checked root resolved answer ≡ ok p
    → (answer ≡ p) × In root resolved
checked-In root resolved answer p h = elim (Bool-cases (has_prefix resolved root)) [
  | inl e ↦ (ground (arith, rw e at h), has_prefix-In resolved root e)
  | inr e ↦ absurd (ground (arith, rw e at h))
]

-- The longest beginning of a path that exists leads into the root.
pub data Nearest (links : Links) (root : Segments) : Segments → Type 0 where
  exists : (path real : Segments) → links path ≡ some real → In root real → Nearest links root path
  above :
      (path : Segments) (s : Bytes)
      → links (path ++ s ∷ []) ≡ none
      → Nearest links root path
      → Nearest links root (path ++ s ∷ [])

walk-Nearest :
    (links : Links) (root abs last p : Segments)
    → walk links root abs last ≡ ok p
    → (abs ≡ p) × Nearest links root (from_last last)
unfolding walk from_last
walk-Nearest links root abs [] p h = at_root (links []) refl h
  where
    at_root :
        (o : Option Segments)
        → links [] ≡ o
        → ancestor_at root abs (err no_parent) o ≡ ok p
        → (abs ≡ p) × Nearest links root []
    at_root none e q = absurd (ground (arith, q))
    at_root (some real) e q =
        let (same, i) = checked-In root real abs p q in (same, exists [] real e i)
walk-Nearest links root abs (s ∷ last) p h =
    at_path (links (from_last last ++ s ∷ [])) refl h (walk-Nearest links root abs last p)
  where
    at_path :
        (o : Option Segments)
        → links (from_last last ++ s ∷ []) ≡ o
        → ancestor_at root abs (walk links root abs last) o ≡ ok p
        → (walk links root abs last ≡ ok p → (abs ≡ p) × Nearest links root (from_last last))
        → (abs ≡ p) × Nearest links root (from_last last ++ s ∷ [])
    at_path none e q ih = let (same, a) = ih q in (same, above (from_last last) s e a)
    at_path (some real) e q ih =
        let (same, i) = checked-In root real abs p q in
        (same, exists (from_last last ++ s ∷ []) real e i)

from_last-append : (p : Segments) (s : Bytes) → from_last (p ++ s ∷ []) ≡ s ∷ from_last p
unfolding from_last
from_last-append [] s = refl
from_last-append (t ∷ p) s = ap (λ x. x ++ t ∷ []) (from_last-append p s)

from_last-reversed : (p : Segments) → from_last (reversed p) ≡ p
unfolding reversed from_last
from_last-reversed [] = refl
from_last-reversed (s ∷ p) =
    from_last-append (reversed p) s ∙ ap (λ x. s ∷ x) (from_last-reversed p)

of_parent :
    (links : Links) (root last : Segments)
    → links (from_last last) ≡ none
    → Nearest links root (from_last (parent_from_last last))
    → Nearest links root (from_last last)
unfolding from_last
of_parent links root [] n a = a
of_parent links root (s ∷ last) n a = above (from_last last) s n a

-- The path that Resolve looks at
pub target : Segments → Bytes → Segments
unfolding clean_relative clean_segments split
target root user_path = clean_segments root (clean_relative [] (split b'/' user_path))

resolve_abs_inside :
    (links : Links) (root abs p : Segments) (o : Option Segments)
    → links abs ≡ o
    → resolve_abs links root abs o ≡ ok p
    → ((links abs ≡ some p) × In root p) ⊎ ((links abs ≡ none) × (abs ≡ p) × Nearest links root p)
resolve_abs_inside links root abs p none e h =
    let (same, a) = walk-Nearest links root abs (parent_from_last (reversed abs)) p h in
    inr (
      e,
      same,
      subst (Nearest links root) (from_last-reversed abs ∙ same)
          (of_parent links root (reversed abs) (ap links (from_last-reversed abs) ∙ e) a),
    )
resolve_abs_inside links root abs p (some real) e h =
    let (same, i) = checked-In root real real p h in inl (e ∙ ap some same, subst (In root) same i)

resolve_clean_inside :
    (links : Links) (root path p : Segments)
    → resolve_clean links root path ≡ ok p
    → (leaves path ≡ false)
      × (resolve_abs links root (clean_segments root path) (links (clean_segments root path))
          ≡ ok p)
resolve_clean_inside links root path p h = elim (Bool-cases (leaves path)) [
  | inl e ↦ absurd (ground (arith, rw e at h))
  | inr e ↦ (e, rw e at h)
]

-- A path that Resolve accepts is relative, and what it answers is either what its target in the project
-- leads to, which lies under the root, or, where nothing is found at the target, the target itself, whose
-- nearest ancestor that exists leads to a place under the root.
pub resolve_lem :
    (links : Links) (root : Segments) (user_path : Bytes) (p : Segments)
    → resolve links root user_path ≡ ok p
    → (is_abs user_path ≡ false)
      × (((links (target root user_path) ≡ some p) × In root p)
          ⊎ ((links (target root user_path) ≡ none)
              × (target root user_path ≡ p)
              × Nearest links root p))
unfolding resolve target
resolve_lem links root user_path p h = elim (Bool-cases (is_abs user_path)) [
  | inl e ↦ absurd (ground (arith, rw e at h))
  | inr e ↦ (
    e,
    resolve_abs_inside links root (target root user_path) p (links (target root user_path)) refl
        (resolve_clean_inside links root (clean_relative [] (split b'/' user_path)) p
          (rw e at h)).1,
  )
]
