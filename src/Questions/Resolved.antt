-- ===== src/Questions/Resolved.antt =====
-- Questions that are answered and completed are no longer open.
use kaos_control.Common.{
  ℕ, suc, inl, inr, ◌≡◌, refl, sym, ap, subst, true, false, Option, none, some, List, [], ◌∷◌, ◌++◌,
  map, All, All-append, if◌then◌else◌, ok, is_nil, split, starts_with, Bool-cases, arith, Bytes,
}
use kaos_control.Strings.{drop_start, drop_end, take_end, trim_space, equal_fold, is_space}
use kaos_control.Strings.Trim.{drop_end-first, All-drop_end}
use kaos_control.Strings.Joined.{split-NoSep}
use kaos_control.Questions.{
  Line, Lines, is_open_questions_heading, is_section, cut_section, with_before,
  locate_open_questions_section, QuestionEntry, split_question_entries, group_items, entry_of,
  entry_of_lines, is_item, is_blank, is_quote, if_any, parse_open_questions, Answers, final_answers,
  answer_lines, resolved_questions_heading, with_section, Question, entries_at, apply_located,
  apply_answers, entry_lines,
}
use kaos_control.Questions.Entries.{IsEntry, quote}
use kaos_control.Questions.Sections.{entries-IsEntry, flat}
use kaos_control.Questions.Located.{OneLine, Located, locate-Located, section_lines}
use kaos_control.Questions.Answers.{final-IsEntry, open_entries, some_entries}
use kaos_control.Questions.Open.{open_in_lines, has_open_questions}

abbrev pub NoHeading : Line → Type 0
NoHeading l = is_open_questions_heading l ≡ false

-- The lines behind the first heading
unfoldable pub behind_heading : Lines → Lines
unfolding is_open_questions_heading
behind_heading [] = []
behind_heading (l ∷ lines) =
    let rest = behind_heading lines in if is_open_questions_heading l then lines else rest

-- No heading comes behind the first one.
abbrev pub OneHeading : Bytes → Type 0
OneHeading body = All NoHeading (behind_heading (split b'\n' body))

open_in_lines-none : (lines : Lines) → All NoHeading lines → open_in_lines lines ≡ false
unfolding open_in_lines
open_in_lines-none [] h = refl
open_in_lines-none (l ∷ lines) h = rw h.0 (open_in_lines-none lines h.1)

locate-none : (lines : Lines) → All NoHeading lines → locate_open_questions_section lines ≡ none
unfolding locate_open_questions_section
locate-none [] h = refl
locate-none (l ∷ lines) h = rw (h.0, locate-none lines h.1) refl

cut_section-All :
    (P : Line → Type 0) (lines : Lines)
    → All P lines
    → All P (cut_section lines).0 × All P (cut_section lines).1
unfolding cut_section
cut_section-All P [] h = (tt, tt)
cut_section-All P (l ∷ lines) h =
    let (s, a) = cut_section-All P lines h.1 in
    elim (Bool-cases (is_section l)) [
      | inl e ↦ rw (e, cut_section) (tt, h)
      | inr e ↦ rw (e, cut_section) ((h.0, s), a)
    ]

abbrev BehindIt : Option (Lines × Lines × Lines) → Type 0
BehindIt none = Unit
BehindIt (some (before, section, after)) = All NoHeading section × All NoHeading after

with_before-BehindIt :
    (l : Line) (o : Option (Lines × Lines × Lines)) → BehindIt o → BehindIt (with_before l o)
with_before-BehindIt l none h = tt
with_before-BehindIt l (some (before, section, after)) h = h

locate-BehindIt :
    (lines : Lines)
    → All NoHeading (behind_heading lines)
    → BehindIt (locate_open_questions_section lines)
unfolding locate_open_questions_section behind_heading
locate-BehindIt [] h = tt
locate-BehindIt (l ∷ lines) h = elim (Bool-cases (is_open_questions_heading l)) [
  | inl e ↦ rw e (cut_section-All NoHeading lines (rw (behind_heading, e) at h))
  | inr e ↦ rw e (
      with_before-BehindIt l (locate_open_questions_section lines)
        (locate-BehindIt lines (rw (behind_heading, e) at h)))
]

-- What holds of every line of a section holds of the lines of its entries.
module _ (P : Line → Type 0) where
  group_items-All :
      (lines : Lines)
      → All P lines
      → All P (group_items lines).0 × All (All P) (group_items lines).1
  unfolding group_items
  group_items-All [] h = (tt, tt)
  group_items-All (l ∷ lines) h =
      let (f, g) = group_items-All lines h.1 in
      elim (Bool-cases (is_item l)) [
        | inl e ↦ rw e (tt, ((h.0, f), g))
        | inr e ↦ rw e ((h.0, f), g)
      ]

  entry_of-All : (g : Lines) → All P g → All P (entry_of g).text_lines
  unfolding entry_of_lines
  entry_of-All g h = elim (Bool-cases (is_nil (take_end is_quote (drop_end is_blank g)))) [
    | inl e ↦ rw (entry_of_lines, e) (All-drop_end is_blank P g h)
    | inr e ↦
        rw (entry_of_lines, e)
          (All-drop_end is_blank P _ (All-drop_end is_quote P _ (All-drop_end is_blank P g h)))
  ]

  entries_of_groups :
      (gs : List Lines) → All (All P) gs → All (λ e. All P e.text_lines) (map entry_of gs)
  entries_of_groups [] h = tt
  entries_of_groups (g ∷ gs) h = (entry_of-All g h.0, entries_of_groups gs h.1)

  final_answers-All :
      (i : ℕ) (answers : Answers) (es : List QuestionEntry)
      → All (λ e. All P e.text_lines) es
      → All (λ e. All P e.text_lines) (final_answers i answers es)
  unfolding final_answers
  final_answers-All i answers [] h = tt
  final_answers-All i answers (e ∷ es) h = (h.0, final_answers-All (suc i) answers es h.1)

split_question_entries-All :
    (P : Line → Type 0) (section : Lines)
    → All P section
    → All (λ e. All P e.text_lines) (split_question_entries section)
unfolding split_question_entries
split_question_entries-All P section h =
    entries_of_groups P (group_items section).1 (group_items-All P section h).1

empty-NoHeading : NoHeading []
unfolding is_open_questions_heading trim_space drop_start drop_end starts_with
empty-NoHeading = refl

quote-NoHeading : (l : Line) → NoHeading (quote l)
unfolding is_open_questions_heading trim_space drop_start starts_with
quote-NoHeading l = rw (drop_end-first is_space b'>' (b' ' ∷ l) refl) refl

quotes-NoHeading : (ls : Lines) → All NoHeading (map quote ls)
quotes-NoHeading [] = tt
quotes-NoHeading (l ∷ ls) = (quote-NoHeading l, quotes-NoHeading ls)

answer-NoHeading : (a : Bytes) → All NoHeading (answer_lines a)
answer-NoHeading [] = tt
answer-NoHeading (c ∷ a) = (empty-NoHeading, quotes-NoHeading (split b'\n' (c ∷ a)))

flat-NoHeading :
    (es : List QuestionEntry) → All (λ e. All NoHeading e.text_lines) es → All NoHeading (flat es)
unfolding flat
flat-NoHeading [] h = tt
flat-NoHeading (e ∷ es) h =
    All-append NoHeading (entry_lines e ++ [] ∷ []) (flat es)
      (All-append NoHeading (entry_lines e) ([] ∷ [])
        (All-append NoHeading e.text_lines (answer_lines (trim_space e.answer)) h.0
          (answer-NoHeading (trim_space e.answer)))
        (empty-NoHeading, tt))
      (flat-NoHeading es h.1)

resolved-NoHeading : NoHeading resolved_questions_heading
unfolding is_open_questions_heading trim_space drop_start drop_end equal_fold starts_with
resolved-NoHeading = refl

resolved_line : OneLine resolved_questions_heading
resolved_line = (subst (All OneLine) alone (split-NoSep b'\n' resolved_questions_heading)).0
  where
    alone : split b'\n' resolved_questions_heading ≡ resolved_questions_heading ∷ []
    alone = unfold split in refl

-- What is written when the answers are complete has no heading.
resolved_at :
    (body : Bytes) (answers : Answers) (body' : Bytes) (e : QuestionEntry) (es : List QuestionEntry)
    (o : Option (Lines × Lines × Lines))
    → Located o
    → BehindIt o
    → entries_at o ≡ e ∷ es
    → apply_located body answers true o ≡ ok body'
    → All NoHeading (split b'\n' body')
unfolding final_answers
resolved_at body answers body' e es none d k q h = absurd (ground (arith, q))
resolved_at body answers body' e es (some (before, section, after)) d k q h =
    subst (λ x. All NoHeading (split b'\n' x)) result
      (subst (All NoHeading)
        (sym (
          section_lines before section after _ _ d
            (final-IsEntry 0 answers (e ∷ es)
              (subst (All IsEntry) q (entries-IsEntry section d.plain)))
            resolved_questions_heading resolved_line))
        (All-append NoHeading before _ d.no_heading (
          resolved-NoHeading,
          All-append NoHeading ([] ∷ flat (final_answers 0 answers (e ∷ es))) after
              (
                empty-NoHeading,
                flat-NoHeading (final_answers 0 answers (e ∷ es)) (
                    final_answers-All NoHeading 0 answers (e ∷ es) (
                      subst (All (λ e. All NoHeading e.text_lines)) q
                        (split_question_entries-All NoHeading section k.0))),
              )
              k.1,
        )))
  where
    result :
        with_section resolved_questions_heading before (final_answers 0 answers (e ∷ es)) after
        ≡ body'
    result = ground (arith, rw q at h)

-- When the answers of a body that has questions are written as complete, and no heading of open questions comes behind the first one, the new body has no open questions: HasOpenQuestions says so, and ParseOpenQuestions finds none.
pub complete_resolves :
    (body : Bytes) (answers : Answers) (body' : Bytes) (qs : List Question)
    → OneHeading body
    → parse_open_questions body ≡ some qs
    → apply_answers body answers true ≡ ok body'
    → (has_open_questions body' ≡ false) × (parse_open_questions body' ≡ none)
unfolding parse_open_questions apply_answers has_open_questions open_entries
complete_resolves body answers body' qs k p h =
    let (e, es, t, u) = some_entries (open_entries body) qs p in
    let none_left =
      resolved_at body answers body' e es (locate_open_questions_section (split b'\n' body))
        (locate-Located (split b'\n' body) (split-NoSep b'\n' body))
        (locate-BehindIt (split b'\n' body) k) t h in
    (
      open_in_lines-none (split b'\n' body') none_left,
      ap (λ o. if_any (entries_at o)) (locate-none (split b'\n' body') none_left),
    )
