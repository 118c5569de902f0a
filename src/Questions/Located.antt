-- ===== src/Questions/Located.antt =====
-- Where the section is, and where it is after it was rewritten.
use kaos_control.Common.{
  ◌≡◌, inl, inr, ◌∙◌, refl, ap, subst, true, false, Option, none, some, List, [], ◌∷◌, ◌++◌, All,
  All-append, is_nil, split, starts_with, Bool-cases,
}
use kaos_control.Strings.{trim_space, join_at, equal_fold}
use kaos_control.Strings.Joined.{NoSep, split-NoSep, split-join_at}
use kaos_control.Questions.{
  Line, Lines, is_open_questions_heading, is_section, cut_section, with_before,
  locate_open_questions_section, QuestionEntry, open_questions_heading, with_section,
}
use kaos_control.Questions.Entries.{IsPlain, IsEntry}
use kaos_control.Questions.Sections.{flat, rebuilt-flat, flat-IsPlain}

abbrev pub OneLine : Line → Type 0
OneLine = NoSep b'\n'

-- What locateOpenQuestionsSection finds.
pub record IsLocated (before section after : Lines) : Type 0 where
  pub no_heading : All (λ l. is_open_questions_heading l ≡ false) before
  pub its_lines : All OneLine before
  pub plain : All IsPlain section
  pub after_lines : All OneLine after
  pub starts_after : cut_section after ≡ ([], after)

cut_section-plain :
    (lines : Lines)
    → All OneLine lines
    → All IsPlain (cut_section lines).0
      × All OneLine (cut_section lines).1
      × (cut_section (cut_section lines).1 ≡ ([], (cut_section lines).1))
unfolding cut_section
cut_section-plain [] h = (tt, tt, refl)
cut_section-plain (l ∷ lines) h =
    let (p, a, c) = cut_section-plain lines h.1 in
    elim (Bool-cases (is_section l)) [
      | inl e ↦ rw (e, cut_section) (tt, h, rw e refl)
      | inr e ↦ rw (e, cut_section) ((record { one_line = h.0; no_section = e }, p), a, c)
    ]

abbrev pub Located : Option (Lines × Lines × Lines) → Type 0
Located none = Unit
Located (some (before, section, after)) = IsLocated before section after

with_before-Located :
    (l : Line) (o : Option (Lines × Lines × Lines))
    → is_open_questions_heading l ≡ false
    → OneLine l
    → Located o
    → Located (with_before l o)
with_before-Located l none n h o = tt
with_before-Located l (some (before, section, after)) n h o = record {
  no_heading = (n, o.no_heading);
  its_lines = (h, o.its_lines);
  plain = o.plain;
  after_lines = o.after_lines;
  starts_after = o.starts_after;
}

pub locate-Located :
    (lines : Lines) → All OneLine lines → Located (locate_open_questions_section lines)
unfolding locate_open_questions_section
locate-Located [] h = tt
locate-Located (l ∷ lines) h = elim (Bool-cases (is_open_questions_heading l)) [
  | inl e ↦ rw e (
      let (p, a, c) = cut_section-plain lines h.1 in
      record { no_heading = tt; its_lines = tt; plain = p; after_lines = a; starts_after = c })
  | inr e ↦
      rw e (
        with_before-Located l (locate_open_questions_section lines) e h.0
          (locate-Located lines h.1))
]

-- Where such a section is put, it is found again.
cut_section-append :
    (section after : Lines)
    → All IsPlain section
    → cut_section after ≡ ([], after)
    → cut_section (section ++ after) ≡ (section, after)
unfolding cut_section
cut_section-append [] after h c = c
cut_section-append (l ∷ section) after h c =
    rw (h.0.no_section, cut_section-append section after h.1 c) refl

heading_found : is_open_questions_heading open_questions_heading ≡ true
unfolding is_open_questions_heading trim_space kaos_control.Strings.drop_start
    kaos_control.Strings.drop_end equal_fold starts_with
heading_found = refl

heading_line : OneLine open_questions_heading
heading_line = (subst (All OneLine) alone (split-NoSep b'\n' open_questions_heading)).0
  where
    alone : split b'\n' open_questions_heading ≡ open_questions_heading ∷ []
    alone = unfold split in refl

locate-append :
    (heading : Line) (before rest : Lines)
    → is_open_questions_heading heading ≡ true
    → All (λ l. is_open_questions_heading l ≡ false) before
    → locate_open_questions_section (before ++ (heading ∷ rest))
      ≡ some (before, (cut_section rest).0, (cut_section rest).1)
unfolding locate_open_questions_section
locate-append heading [] rest t h = rw t refl
locate-append heading (l ∷ before) rest t h = rw (h.0, locate-append heading before rest t h.1) refl

append_some : (before : Lines) (l : Line) (rest : Lines) → is_nil (before ++ (l ∷ rest)) ≡ false
append_some [] l rest = refl
append_some (x ∷ before) l rest = refl

plain_lines : (ls : Lines) → All IsPlain ls → All OneLine ls
plain_lines [] h = tt
plain_lines (l ∷ ls) h = (h.0.one_line, plain_lines ls h.1)

empty_plain : IsPlain []
unfolding starts_with
empty_plain = record { one_line = tt; no_section = refl }

module _ (before section after : Lines) (e : QuestionEntry) (es : List QuestionEntry)
    (d : IsLocated before section after) (h : All IsEntry (e ∷ es)) where
  -- The lines of a body whose section was rewritten
  pub section_lines :
      (heading : Line)
      → OneLine heading
      → split b'\n' (with_section heading before (e ∷ es) after)
        ≡ before ++ (heading ∷ (([] ∷ flat (e ∷ es)) ++ after))
  section_lines heading o =
      ap (λ x. split b'\n' (join_at b'\n' (before ++ (heading ∷ [] ∷ x)))) (rebuilt-flat e es after)
      ∙ split-join_at b'\n' (before ++ (heading ∷ rest)) (append_some before heading rest) (
          All-append OneLine before (heading ∷ rest) d.its_lines (
            o,
            All-append OneLine ([] ∷ flat (e ∷ es)) after
                (tt, plain_lines (flat (e ∷ es)) (flat-IsPlain (e ∷ es) h)) d.after_lines,
          ))
    where
      rest : Lines
      rest = ([] ∷ flat (e ∷ es)) ++ after

  -- Where the section is, it is found again.
  pub located_again :
      locate_open_questions_section
        (split b'\n' (with_section open_questions_heading before (e ∷ es) after))
      ≡ some (before, [] ∷ flat (e ∷ es), after)
  located_again =
      ap locate_open_questions_section (section_lines open_questions_heading heading_line)
      ∙ locate-append open_questions_heading before (([] ∷ flat (e ∷ es)) ++ after) heading_found
          d.no_heading
      ∙ ap at (
          cut_section-append ([] ∷ flat (e ∷ es)) after (empty_plain, flat-IsPlain (e ∷ es) h)
            d.starts_after)
    where
      at : Lines × Lines → Option (Lines × Lines × Lines)
      at (s, a) = some (before, s, a)
