-- ===== src/Questions/Examples.antt =====
-- Bodies with a section of open questions, and the witnesses.
use kaos_control.Common.{
  zero, suc, ◌≡◌, inl, refl, true, false, none, some, List, [], ◌∷◌, codes, ok, err, Bytes, split,
  All, same_bytes, sym, subst, map,
}
use kaos_control.Strings.{
  drop_start, drop_end, take_end, trim_space, trim_prefix, join_at, equal_fold, to_lower,
}
use kaos_control.Questions.{
  Question, Answers, QuestionEntry, is_blank, incomplete_answers, parse_open_questions,
  apply_answers, is_open_questions_heading, match_item, match_rest, match_dot,
  locate_open_questions_section, cut_section, group_items, entry_of_lines, split_question_entries,
  questions_from, final_answers, has_unanswered, rebuilt,
}
use kaos_control.Questions.Entries.{IsClear}
use kaos_control.Questions.Answers.{AreClear, answered, parse_applied, apply_twice, open_entries}
use kaos_control.Questions.Open.{
  has_open_questions, open_in_lines, open_in_section, is_open_question_sentinel,
}
use kaos_control.Questions.Resolved.{OneHeading, behind_heading, complete_resolves}

abbrev body : Bytes
body =
    codes
      "# Plan\n\n## Open questions\n\n1. Which colour?\n- How many?\n  - at least?\n\n> two\n\n## Scope\nall"

abbrev questions : List Question
questions =
    record { index = 0; text = codes "Which colour?"; answer = [] }
    ∷ record { index = 1; text = codes "How many?\n  - at least?"; answer = codes "two" }
    ∷ []

abbrev answers : Answers
answers zero = some (codes " red \nor blue ")
answers (suc n) = none

abbrev answered_body : Bytes
answered_body =
    codes
      "# Plan\n\n## Open Questions\n\n1. Which colour?\n\n> red \n> or blue\n\n- How many?\n  - at least?\n\n> two\n\n## Scope\nall"

parsed : parse_open_questions body ≡ some questions
unfolding parse_open_questions locate_open_questions_section cut_section is_open_questions_heading
    match_item match_rest match_dot group_items entry_of_lines split_question_entries questions_from
    split drop_start drop_end take_end trim_space trim_prefix join_at equal_fold
parsed = refl

applied : apply_answers body answers false ≡ ok answered_body
unfolding apply_answers locate_open_questions_section cut_section is_open_questions_heading
    match_item match_rest match_dot group_items entry_of_lines split_question_entries final_answers
    has_unanswered rebuilt split drop_start drop_end take_end trim_space trim_prefix join_at
    equal_fold
applied = refl

abbrev entries : List QuestionEntry
entries =
    record { text_lines = codes "1. Which colour?" ∷ []; answer = [] }
    ∷ record { text_lines = codes "- How many?" ∷ codes "  - at least?" ∷ []; answer = codes "two" }
    ∷ []

read_entries : open_entries body ≡ entries
unfolding open_entries locate_open_questions_section cut_section is_open_questions_heading
    match_item match_rest match_dot group_items entry_of_lines split_question_entries split
    drop_start drop_end take_end trim_space trim_prefix join_at equal_fold
read_entries = refl

not_blank : (is_blank (codes " red \nor blue ") ≡ false) × (is_blank (codes "two") ≡ false)
unfolding drop_start drop_end trim_space
not_blank = (refl, refl)

clear : AreClear body answers
unfolding final_answers
clear =
    subst (λ es. All IsClear (final_answers 0 answers es)) (sym read_entries)
      (inl not_blank.0, (inl not_blank.1, tt))

parse_applied_example : parse_open_questions answered_body ≡ some (map (answered answers) questions)
parse_applied_example = parse_applied body answers answered_body questions clear parsed applied

apply_twice_example : apply_answers answered_body answers false ≡ ok answered_body
apply_twice_example = apply_twice body answers answered_body clear applied

abbrev resolved_body : Bytes
resolved_body =
    codes
      "# Plan\n\n## Resolved Questions\n\n1. Which colour?\n\n> red \n> or blue\n\n- How many?\n  - at least?\n\n> two\n\n## Scope\nall"

completed : apply_answers body answers true ≡ ok resolved_body
unfolding apply_answers locate_open_questions_section cut_section is_open_questions_heading
    match_item match_rest match_dot group_items entry_of_lines split_question_entries final_answers
    has_unanswered rebuilt split drop_start drop_end take_end trim_space trim_prefix join_at
    equal_fold
completed = refl

one_heading : OneHeading body
unfolding behind_heading is_open_questions_heading split drop_start drop_end trim_space equal_fold
one_heading = (refl, (refl, (refl, (refl, (refl, (refl, (refl, (refl, (refl, tt)))))))))

complete_resolves_example :
    (has_open_questions resolved_body ≡ false) × (parse_open_questions resolved_body ≡ none)
complete_resolves_example =
    complete_resolves body answers resolved_body questions one_heading parsed completed

still_incomplete : apply_answers body (λ i. none) true ≡ err incomplete_answers
unfolding apply_answers locate_open_questions_section cut_section is_open_questions_heading
    match_item match_rest match_dot group_items entry_of_lines split_question_entries final_answers
    has_unanswered rebuilt split drop_start drop_end take_end trim_space trim_prefix join_at
    equal_fold
still_incomplete = refl

is_open : has_open_questions body ≡ true
unfolding has_open_questions open_in_lines open_in_section is_open_question_sentinel
    is_open_questions_heading split drop_start drop_end trim_space equal_fold to_lower same_bytes
is_open = refl

-- A placeholder is no question.
not_open : has_open_questions (codes "## Open Questions\n\n- _None_.\n") ≡ false
unfolding has_open_questions open_in_lines open_in_section is_open_question_sentinel
    is_open_questions_heading split drop_start drop_end trim_space equal_fold to_lower same_bytes
not_open = refl

-- The line in front of the first item is not in the new body.
first_lines_lost :
    apply_answers (codes "## Open Questions\nAsk Ann.\n- Why?") (λ i. none) false
    ≡ ok (codes "## Open Questions\n\n- Why?\n")
unfolding apply_answers locate_open_questions_section cut_section is_open_questions_heading
    match_item match_rest match_dot group_items entry_of_lines split_question_entries final_answers
    has_unanswered rebuilt split drop_start drop_end take_end trim_space trim_prefix join_at
    equal_fold
first_lines_lost = refl

abbrev cleared : Answers
cleared i = some []

abbrev quoting : Bytes
quoting = codes "## Open Questions\n\n- q\n> a\n\n> b\n"

-- An answer that is cleared gives way to the quoted line above it, which the next run clears.
cleared_once : apply_answers quoting cleared false ≡ ok (codes "## Open Questions\n\n- q\n> a\n")
unfolding apply_answers locate_open_questions_section cut_section is_open_questions_heading
    match_item match_rest match_dot group_items entry_of_lines split_question_entries final_answers
    has_unanswered rebuilt split drop_start drop_end take_end trim_space trim_prefix join_at
    equal_fold
cleared_once = refl

cleared_again :
    apply_answers (codes "## Open Questions\n\n- q\n> a\n") cleared false
    ≡ ok (codes "## Open Questions\n\n- q\n")
unfolding apply_answers locate_open_questions_section cut_section is_open_questions_heading
    match_item match_rest match_dot group_items entry_of_lines split_question_entries final_answers
    has_unanswered rebuilt split drop_start drop_end take_end trim_space trim_prefix join_at
    equal_fold
cleared_again = refl
