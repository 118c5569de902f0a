-- ===== src/Triage/Rewritten.antt =====
-- The body and the labels that triage writes.
use mathlib.Core.List.{append_assoc}
use kaos_control.Common.{
  ℕ, String, Bool, true, false, not, ◌&&◌, ◌||◌, ◌==◌, ==_iff, Option, none, some, List, [], ◌∷◌,
  ◌++◌, ◌≡◌, ◌∙◌, refl, sym, ap, subst, codes, if◌then◌else◌, Bytes, starts_with, str_eq,
  str_eq_iff, arith, Bool-cases, inl, inr, All,
}
use kaos_control.Strings.{drop_start, drop_end, trim_space, is_space}
use kaos_control.Strings.Joined.{NoSep}
use kaos_control.Triage.Body.{
  h1_mark, raw_idea, idea_heading, contains, before_first, cut_line, onto_line, split_h1,
  split_h1_at, strip_leading_h1, replace_at, replace_idea_section, h1_lines, first_body,
  rewrite_body,
}

-- A text is part of another.
record IsPart (t s : Bytes) : Type 0 where
  front : Bytes
  back : Bytes
  whole : s ≡ front ++ (t ++ back)

drop_start_part : (p : ℕ → Bool) (s : Bytes) → (a : Bytes) × (s ≡ a ++ drop_start p s)
unfolding drop_start
drop_start_part p [] = ([], refl)
drop_start_part p (c ∷ s) =
    let (a, e) = drop_start_part p s in
    elim (Bool-cases (p c)) [ inl t ↦ (c ∷ a, rw t (ap (λ x. c ∷ x) e)) | inr t ↦ ([], rw t refl) ]

drop_end_part : (p : ℕ → Bool) (s : Bytes) → (b : Bytes) × (s ≡ drop_end p s ++ b)
unfolding drop_end
drop_end_part p [] = ([], refl)
drop_end_part p (c ∷ s) =
    let (b, e) = drop_end_part p s in
    elim (Bool-cases (kaos_control.Common.is_nil (drop_end p s) && p c)) [
      | inl t ↦ (c ∷ s, rw t refl)
      | inr t ↦ (b, rw t (ap (λ x. c ∷ x) e))
    ]

trim_space-IsPart : (s : Bytes) → IsPart (trim_space s) s
unfolding trim_space
trim_space-IsPart s =
    let (a, e) = drop_start_part is_space s in
    let (b, g) = drop_end_part is_space (drop_start is_space s) in
    record { front = a; back = b; whole = e ∙ ap (λ x. a ++ x) g }

module _ (sub : Bytes) where
  contains-suffix : (a s : Bytes) → contains sub (a ++ s) ≡ false → contains sub s ≡ false
  unfolding contains
  contains-suffix [] s h = h
  contains-suffix (c ∷ a) s h = contains-suffix a s (ground (arith, h))

  starts_with-append : (w s b : Bytes) → starts_with w s ≡ true → starts_with w (s ++ b) ≡ true
  unfolding starts_with
  starts_with-append [] s b h = refl
  starts_with-append (d ∷ w) [] b h = absurd (ground (arith, h))
  starts_with-append (d ∷ w) (c ∷ s) b h =
      let (e, r) = both h in rw (e, starts_with-append w s b r) refl
    where
      both : (d == c && starts_with w s) ≡ true → ((d == c) ≡ true) × (starts_with w s ≡ true)
      both h = ground (arith, h)

  starts_with-part : (w s b : Bytes) → starts_with w (s ++ b) ≡ false → starts_with w s ≡ false
  starts_with-part w s b h = elim (Bool-cases (starts_with w s)) [
    | inl e ↦ absurd (ground (arith, starts_with-append w s b e, h))
    | inr e ↦ e
  ]

  contains-prefix : (s b : Bytes) → contains sub (s ++ b) ≡ false → contains sub s ≡ false
  unfolding contains
  contains-prefix [] [] h = h
  contains-prefix [] (c ∷ b) h = starts_with-part sub [] (c ∷ b) (ground (arith, h))
  contains-prefix (c ∷ s) b h = ground (
    arith,
    starts_with-part sub (c ∷ s) b (ground (arith, h)),
    contains-prefix s b (ground (arith, h)),
  )

  contains-IsPart : (t s : Bytes) → IsPart t s → contains sub s ≡ false → contains sub t ≡ false
  contains-IsPart t s p h =
      contains-prefix t p.back
        (contains-suffix p.front (t ++ p.back) (subst (λ x. contains sub x ≡ false) p.whole h))

  contains_behind : (a s : Bytes) → contains sub s ≡ true → contains sub (a ++ s) ≡ true
  contains_behind a s h = elim (Bool-cases (contains sub (a ++ s))) [
    | inl e ↦ e
    | inr e ↦ absurd (ground (arith, contains-suffix a s e, h))
  ]

-- A text without a newline does not stand across one.
starts_with-line :
    (w s t : Bytes) → NoSep b'\n' w → starts_with w (s ++ (b'\n' ∷ t)) ≡ starts_with w s
unfolding starts_with
starts_with-line [] s t h = refl
starts_with-line (d ∷ w) [] t h = ground (arith, h.0, ==_iff d b'\n', ==_iff b'\n' d)
starts_with-line (d ∷ w) (c ∷ s) t h = ap (λ x. (d == c) && x) (starts_with-line w s t h.1)

contains-line :
    (w s t : Bytes)
    → NoSep b'\n' w
    → contains w s ≡ false
    → contains w (b'\n' ∷ t) ≡ false
    → contains w (s ++ (b'\n' ∷ t)) ≡ false
unfolding contains
contains-line w [] t n a b = b
contains-line w (c ∷ s) t n a b =
    ground (arith, starts_with-line w (c ∷ s) t n, contains-line w s t n (ground (arith, a)) b, a)

abbrev NoIdea : Bytes → Type 0
NoIdea s = contains idea_heading s ≡ false

one_line : NoSep b'\n' idea_heading
one_line = (refl, (refl, (refl, (refl, (refl, (refl, (refl, tt)))))))

NoIdea-line : (t : Bytes) → NoIdea t → NoIdea (b'\n' ∷ t)
unfolding contains starts_with
NoIdea-line t h = h

-- What is cut at the first newline
IsCut : Bytes → Option (Bytes × Bytes) → Type 0
IsCut s none = Unit
IsCut s (some (l, r)) = s ≡ l ++ (b'\n' ∷ r)

onto_line-IsCut :
    (c : ℕ) (s : Bytes) (o : Option (Bytes × Bytes)) → IsCut s o → IsCut (c ∷ s) (onto_line c o)
unfolding IsCut
onto_line-IsCut c s none h = tt
onto_line-IsCut c s (some (l, r)) h = ap (λ x. c ∷ x) h

cut_line-IsCut : (s : Bytes) → IsCut s (cut_line s)
unfolding IsCut cut_line
cut_line-IsCut [] = tt
cut_line-IsCut (c ∷ s) = elim (Bool-cases (c == b'\n')) [
  | inl e ↦ rw e (ap (λ x. x ∷ s) ((==_iff c b'\n').0 e))
  | inr e ↦ rw e (onto_line-IsCut c s (cut_line s) (cut_line-IsCut s))
]

split_h1_at-NoIdea :
    (s : Bytes) (o : Option (Bytes × Bytes))
    → IsCut s o
    → NoIdea s
    → NoIdea (split_h1_at s o).0 × NoIdea (split_h1_at s o).1
unfolding contains starts_with IsCut
split_h1_at-NoIdea s none e h = elim (Bool-cases (starts_with h1_mark s)) [
  | inl t ↦ rw t (h, refl)
  | inr t ↦ rw t (refl, h)
]
split_h1_at-NoIdea s (some (l, r)) e h = elim (Bool-cases (starts_with h1_mark l)) [
  | inl t ↦ rw t (
    contains-prefix idea_heading l (b'\n' ∷ r) whole,
    contains-IsPart idea_heading (trim_space r) r (trim_space-IsPart r) (
        contains-suffix idea_heading (b'\n' ∷ []) r
          (contains-suffix idea_heading l (b'\n' ∷ r) whole)),
  )
  | inr t ↦ rw t (refl, h)
]
  where
    whole : NoIdea (l ++ (b'\n' ∷ r))
    whole = subst NoIdea e h

split_h1-NoIdea : (s : Bytes) → NoIdea s → NoIdea (split_h1 s).0 × NoIdea (split_h1 s).1
unfolding split_h1
split_h1-NoIdea s h =
    split_h1_at-NoIdea (trim_space s) (cut_line (trim_space s)) (cut_line-IsCut (trim_space s))
      (contains-IsPart idea_heading (trim_space s) s (trim_space-IsPart s) h)

-- The new body up to the heading of the idea
abbrev before_idea : Bytes × Bytes → Bytes
before_idea (h1, rest) = h1_lines h1 ++ (raw_idea ++ (b'\n' ∷ b'\n' ∷ trim_space rest))

raw_part-NoIdea : (t : Bytes) → NoIdea t → NoIdea (raw_idea ++ (b'\n' ∷ b'\n' ∷ t))
raw_part-NoIdea t h =
    contains-line idea_heading raw_idea (b'\n' ∷ t) one_line none_in
      (NoIdea-line (b'\n' ∷ t) (NoIdea-line t h))
  where
    none_in : NoIdea raw_idea
    none_in = unfold contains starts_with in refl

h1_lines-NoIdea : (h1 t : Bytes) → NoIdea h1 → NoIdea t → NoIdea (h1_lines h1 ++ t)
h1_lines-NoIdea [] t a b = b
h1_lines-NoIdea (c ∷ h1) t a b = subst NoIdea (sym (append_assoc (c ∷ h1) (b'\n' ∷ b'\n' ∷ []) t)) (
    contains-line idea_heading (c ∷ h1) (b'\n' ∷ t) one_line a
      (NoIdea-line (b'\n' ∷ t) (NoIdea-line t b)))

before_idea-NoIdea : (x : Bytes × Bytes) → NoIdea x.0 → NoIdea x.1 → NoIdea (before_idea x)
before_idea-NoIdea (h1, rest) a b = h1_lines-NoIdea h1 _ a (
    raw_part-NoIdea (trim_space rest)
      (contains-IsPart idea_heading (trim_space rest) rest (trim_space-IsPart rest) b))

NoIdea-no_start : (p : Bytes) → NoIdea p → starts_with idea_heading p ≡ false
unfolding contains
NoIdea-no_start [] h = h
NoIdea-no_start (c ∷ p) h = ground (arith, h)

behind_false : (a b : Bool) → b ≡ false → (a && b) ≡ false
behind_false a b h = ground (arith, h)

-- The first heading of the idea is the one that was written.
before_first-idea :
    (p t : Bytes)
    → NoIdea p
    → before_first (b'\n' ∷ idea_heading) (p ++ (b'\n' ∷ b'\n' ∷ (idea_heading ++ t)))
      ≡ some (p ++ (b'\n' ∷ []))
unfolding before_first contains starts_with
before_first-idea [] t h = refl
before_first-idea (c ∷ p) t h = rw (test, before_first-idea p t (ground (arith, h))) refl
  where
    test :
        starts_with (b'\n' ∷ idea_heading) (c ∷ (p ++ (b'\n' ∷ b'\n' ∷ (idea_heading ++ t))))
        ≡ false
    test = behind_false (b'\n' == c) _ (
        starts_with-line idea_heading p (b'\n' ∷ (idea_heading ++ t)) one_line
        ∙ NoIdea-no_start p (contains-suffix idea_heading (c ∷ []) p h))

-- The body of a first triage, with the parts of the original and the text of the idea
abbrev behind_idea : Bytes → Bytes
behind_idea new = b'\n' ∷ b'\n' ∷ trim_space new

first_body_parts :
    (x : Bytes × Bytes) (new : Bytes)
    → first_body x new ≡ before_idea x ++ (b'\n' ∷ b'\n' ∷ (idea_heading ++ behind_idea new))
first_body_parts (h1, rest) new =
    ap (λ z. h1_lines h1 ++ z)
      (ap (λ z. raw_idea ++ (b'\n' ∷ b'\n' ∷ z)) refl
        ∙ sym (append_assoc raw_idea (b'\n' ∷ b'\n' ∷ trim_space rest) _))
    ∙ sym (append_assoc (h1_lines h1) _ _)

found_start : (w t : Bytes) → starts_with w (w ++ t) ≡ true
unfolding starts_with
found_start [] t = refl
found_start (c ∷ w) t = ground (arith, found_start w t, ==_iff c c)

contains_start : (w t : Bytes) → starts_with w t ≡ true → contains w t ≡ true
unfolding contains
contains_start w [] h = h
contains_start w (c ∷ t) h = ground (arith, h)

first_body_marked :
    (x : Bytes × Bytes) (new : Bytes)
    → (contains raw_idea (first_body x new) ≡ true)
      × (contains idea_heading (first_body x new) ≡ true)
first_body_marked (h1, rest) new = (
  contains_behind raw_idea (h1_lines h1) _ (contains_start raw_idea _ (found_start raw_idea _)),
  subst (λ z. contains idea_heading z ≡ true) (sym (first_body_parts (h1, rest) new))
      (contains_behind idea_heading (before_idea (h1, rest)) _ (
        contains_behind idea_heading (b'\n' ∷ b'\n' ∷ []) _
          (contains_start idea_heading _ (found_start idea_heading _)))),
)

replaced_first :
    (x : Bytes × Bytes) (old new : Bytes)
    → NoIdea x.0
    → NoIdea x.1
    → replace_idea_section (first_body x old) new ≡ first_body x new
unfolding replace_idea_section
replaced_first x old new a b =
    ap (replace_at (first_body x old) new) (
      ap (before_first (b'\n' ∷ idea_heading)) (first_body_parts x old)
      ∙ before_first-idea (before_idea x) (behind_idea old) (before_idea-NoIdea x a b))
    ∙ append_assoc (before_idea x) (b'\n' ∷ []) _
    ∙ sym (first_body_parts x new)

if_false {ℓ} : {A : Type ℓ} (b : Bool) (x y : A) → b ≡ false → (if b then x else y) ≡ y
if_false b x y h = rw h refl

first_run :
    (original new : Bytes)
    → NoIdea original
    → rewrite_body original new ≡ first_body (split_h1 original) (strip_leading_h1 new)
unfolding rewrite_body
first_run original new h =
    if_false _ _ _ (behind_false (contains raw_idea original) (contains idea_heading original) h)

next_run :
    (body new : Bytes)
    → contains raw_idea body ≡ true
    → contains idea_heading body ≡ true
    → rewrite_body body new ≡ replace_idea_section body (strip_leading_h1 new)
unfolding rewrite_body
next_run body new m n = rw (m, n) refl

-- For an idea in whose text the heading of the idea section does not occur: rewriting its rewritten body again, with another text of the agent, gives what rewriting the original with that text gives. The original text is wrapped once and stays.
pub rewrite_body_twice :
    (original first second : Bytes)
    → contains idea_heading original ≡ false
    → rewrite_body (rewrite_body original first) second ≡ rewrite_body original second
rewrite_body_twice original first second h =
    let (a, b) = split_h1-NoIdea original h in
    let (m, n) = first_body_marked (split_h1 original) (strip_leading_h1 first) in
    ap (λ x. rewrite_body x second) (first_run original first h)
    ∙ next_run (first_body (split_h1 original) (strip_leading_h1 first)) second m n
    ∙ replaced_first (split_h1 original) (strip_leading_h1 first) (strip_leading_h1 second) a b
    ∙ sym (first_run original second h)
