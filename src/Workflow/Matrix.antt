-- ===== src/Workflow/Matrix.antt =====
-- The default transition matrix, the plan gate, and the comparison of type lists.
use kaos_control.Common.{
  suc, ◌≤◌, String, true, false, not, ◌≡◌, ◌≢◌, ◌↔◌, refl, sym, ap, ◌∙◌, ◌&&◌, ◌||◌, List, [], ◌∷◌,
  length, Memᴰ, arith, str_eq, str_eq_iff, str_eq_refl, has, Bool-cases, inl, inr, some,
  if◌then◌else◌,
}
use kaos_control.Workflow.{
  Row, default_rules, type_slices_equal, all_in, overlay_all, new, has_product_owner,
  rule_matches_type, roles_meet, any_rule, can_transition, approved, missing_types, gate_ready,
}
use kaos_control.Workflow.Targets.{Distinct}

-- In the default matrix development starts from planning only at an approver's hand, or a
-- product-owner's, and never for a doc but by the product-owner.
pub planning_gate :
    (us : List String) (ty : String)
    → can_transition (new []) "planning" "in-development" us ty
      ≡ (has "product-owner" us || (has "approver" us && not (str_eq ty "doc")))
unfolding can_transition new overlay_all default_rules any_rule rule_matches_type roles_meet has
    has_product_owner
planning_gate us ty =
    ground (arith, str_eq_iff ty "doc", str_eq_iff ty "", str_eq_iff "doc" ty, str_eq_iff "doc" "")

-- The set comparison: `b` within `a`.
all_in_iff : (b a : List String) (x : String) → all_in b a ≡ true → has x b ≡ true → has x a ≡ true
unfolding all_in has
all_in_iff [] a x h k = cc
all_in_iff (v ∷ b) a x h k = ground (arith, all_in_iff b a x, str_eq_iff v x)

in-all_in :
    (b a : List String) → ((x : String) → has x b ≡ true → has x a ≡ true) → all_in b a ≡ true
unfolding all_in has
in-all_in [] a h = refl
in-all_in (v ∷ b) a h =
    ground (arith, h v, str_eq_refl v, in-all_in b a (λ x k. h x (ground arith)))

-- A list without the first occurrence of `v`.
drop_one : String → List String → List String
drop_one v [] = []
drop_one v (x ∷ xs) = if str_eq x v then xs else x ∷ drop_one v xs

length-drop_one :
    (v : String) (xs : List String) → has v xs ≡ true → suc (length (drop_one v xs)) ≡ length xs
unfolding drop_one has
length-drop_one v [] h = cc
length-drop_one v (x ∷ xs) h = ground (arith, length-drop_one v xs)

has-drop_one :
    (v y : String) (xs : List String) → str_eq y v ≡ false → has y (drop_one v xs) ≡ has y xs
unfolding drop_one has
has-drop_one v y [] h = refl
has-drop_one v y (x ∷ xs) h =
    ground (arith, has-drop_one v y xs h, str_eq_iff x v, str_eq_iff x y, str_eq_iff y v)

-- What is left of a repetition-free list stays within, when its head is taken from both.
rest_within :
    (v : String) (b a : List String)
    → Distinct (v ∷ b)
    → all_in (v ∷ b) a ≡ true
    → all_in b (drop_one v a) ≡ true
unfolding all_in has
rest_within v b a d h = in-all_in b (drop_one v a) (λ y m. kept y m)
  where
    kept : (y : String) → has y b ≡ true → has y (drop_one v a) ≡ true
    kept y m =
        ground (arith, all_in_iff b a y (ground arith) m, has-drop_one v y a, str_eq_iff y v, d.0)

-- A repetition-free list within another is not longer.
length-le_of_within : (b a : List String) → Distinct b → all_in b a ≡ true → length b ≤ length a
unfolding all_in
length-le_of_within [] a d h = omega arith
length-le_of_within (v ∷ b) a d h = omega (
  arith,
  length-le_of_within b (drop_one v a) d.1 (rest_within v b a d h),
  length-drop_one v a (ground arith),
)

-- A repetition-free list within one that is not longer has all of its elements.
pigeonhole :
    (b a : List String)
    → Distinct b
    → all_in b a ≡ true
    → length a ≤ length b
    → (x : String) → has x a ≡ true
    → has x b ≡ true
unfolding all_in has
pigeonhole [] [] d h l x k = k
pigeonhole [] (y ∷ a) d h l x k = absurd (omega arith)
pigeonhole (v ∷ b) a d h l x k = elim (Bool-cases (str_eq x v)) [
  | inl e ↦ ground (arith, str_eq_iff x v, str_eq_iff v x)
  | inr e ↦ ground (
    arith,
    pigeonhole b (drop_one v a) d.1 (rest_within v b a d h)
        (omega (arith, length-drop_one v a (ground arith))) x (has-drop_one v x a e ∙ k),
  )
]

-- typeSlicesEqual decides whether two lists have the same elements, if neither repeats one.
pub type_slices_equal_iff :
    (a b : List String)
    → Distinct a
    → Distinct b
    → (type_slices_equal a b ≡ true) ↔ ((x : String) → has x a ≡ has x b)
unfolding type_slices_equal
type_slices_equal_iff a b da db = (
  (λ h x.
      ground (
        arith,
        all_in_iff b a x (ground arith),
        pigeonhole b a db (ground arith) (ground arith) x,
      )),
  (λ same. ground (
    arith,
    length-le_of_within b a db (in-all_in b a (λ x k. same x ∙ k)),
    length-le_of_within a b da (in-all_in a b (λ x k. sym (same x) ∙ k)),
    in-all_in b a (λ x k. same x ∙ k),
  )),
)

-- With a repetition the comparison goes wrong: two lists of length two are called equal though the
-- first has an element that the second lacks.
pub type_slices_equal_repeats :
    (u v : String)
    → u ≢ v
    → (type_slices_equal (u ∷ v ∷ []) (v ∷ v ∷ []) ≡ true) × (has u (v ∷ v ∷ []) ≡ false)
unfolding type_slices_equal all_in has
type_slices_equal_repeats u v ne = ground (arith, str_eq_iff u v, str_eq_iff v u, str_eq_refl v)

-- Some row of type `t` is approved.
abbrev pub HasApproved : List Row → String → Type 0
HasApproved rows t = (r : Row) × Memᴰ r rows × (r.status ≡ "approved") × (r.ty ≡ t)

approved→HasApproved : (rows : List Row) (t : String) → approved rows t ≡ true → HasApproved rows t
unfolding approved
approved→HasApproved [] t h = cc
approved→HasApproved (r ∷ rows) t h = elim (Bool-cases (approved rows t)) [
  | inl later ↦ let (x, m, s, e) = approved→HasApproved rows t later in (x, Memᴰ.tail m, s, e)
  | inr none_later ↦ (
    r,
    Memᴰ.head refl,
    ground (arith, str_eq_iff r.status "approved"),
    ground (arith, str_eq_iff r.ty t),
  )
]

HasApproved→approved : (rows : List Row) (t : String) → HasApproved rows t → approved rows t ≡ true
unfolding approved
HasApproved→approved [] t (x, m, s, k) = elim m [ ]
HasApproved→approved (r ∷ rows) t (x, Memᴰ.head e, s, k) = ground (
  arith,
  str_eq_iff r.status "approved",
  str_eq_iff r.ty t,
  ap (λ (y : Row). y.status) e,
  ap (λ (y : Row). y.ty) e,
)
HasApproved→approved (r ∷ rows) t (x, Memᴰ.tail m, s, k) =
    ground (arith, HasApproved→approved rows t (x, m, s, k))

missing_none :
    (rows : List Row) (required : List String)
    → missing_types rows required ≡ []
    → (t : String) → Memᴰ t required
    → HasApproved rows t
unfolding missing_types
missing_none rows [] h t m = elim m [ ]
missing_none rows (q ∷ required) h t (Memᴰ.head e) =
    approved→HasApproved rows t (rw e (ground arith))
missing_none rows (q ∷ required) h t (Memᴰ.tail m) = missing_none rows required (ground arith) t m

none-missing :
    (rows : List Row) (required : List String)
    → ((t : String) → Memᴰ t required → HasApproved rows t)
    → missing_types rows required ≡ []
unfolding missing_types
none-missing rows [] h = refl
none-missing rows (q ∷ required) h = ground (
  arith,
  HasApproved→approved rows q (h q (Memᴰ.head refl)),
  none-missing rows required (λ t m. h t (Memᴰ.tail m)),
)

-- The plan gate opens, with nothing missing, exactly when each required type has an approved row among
-- those that the index returned.
pub gate_ready_iff :
    (rows : List Row) (required : List String)
    → (gate_ready (some rows) required ≡ some (true, []))
      ↔ ((t : String) → Memᴰ t required → HasApproved rows t)
unfolding gate_ready
gate_ready_iff rows [] = ((λ h t m. elim m [ ]), (λ h. refl))
gate_ready_iff rows (q ∷ required) = (
  (λ h. missing_none rows (q ∷ required) (ground arith)),
  (λ h. ground (arith, none-missing rows (q ∷ required) h)),
)
