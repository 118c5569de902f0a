-- ===== src/Questions/Open.antt =====
-- HasOpenQuestions and isOpenQuestionSentinel of internal/artifact/artifact.go.
use kaos_control.Common.{
  ℕ, Bool, false, not, ◌||◌, ◌==◌, List, [], ◌∷◌, codes, if◌then◌else◌, Bytes, split, same_bytes,
}
use kaos_control.Strings.{drop_start, drop_end, trim_space, to_lower}
use kaos_control.Questions.{Line, Lines, is_open_questions_heading, is_section, is_blank}

abbrev pub any_code : List ℕ → ℕ → Bool
any_code [] c = false
any_code (x ∷ xs) c = c == x || any_code xs c

abbrev pub any_text : List Bytes → Bytes → Bool
any_text [] s = false
any_text (x ∷ xs) s = same_bytes x s || any_text xs s

-- openQuestionSentinels
abbrev pub open_question_sentinels : List Bytes
open_question_sentinels =
    codes "none"
    ∷ codes "n/a"
    ∷ codes "na"
    ∷ codes "nil"
    ∷ codes "no open questions"
    ∷ codes "no questions"
    ∷ codes "tbd"
    ∷ []

abbrev pub is_list_mark : ℕ → Bool
is_list_mark c = any_code (b'-' ∷ b'*' ∷ b'+' ∷ []) c

abbrev pub is_sentinel_edge : ℕ → Bool
is_sentinel_edge c =
    any_code
      (b' ' ∷ b'\t' ∷ b'_' ∷ b'*' ∷ b'`' ∷ b'.' ∷ b',' ∷ b'!' ∷ b'(' ∷ b')' ∷ b'[' ∷ b']' ∷ []) c

unfoldable pub is_open_question_sentinel : Line → Bool
unfolding drop_start drop_end trim_space to_lower same_bytes
is_open_question_sentinel line =
    let s = drop_start is_list_mark (trim_space line) in
    let s = drop_end is_sentinel_edge (drop_start is_sentinel_edge s) in
    any_text open_question_sentinels (to_lower (trim_space s))

-- The loop inside the section
unfoldable pub open_in_section : Lines → Bool
unfolding is_open_question_sentinel
open_in_section [] = false
open_in_section (l ∷ lines) =
    let rest = open_in_section lines in
    if is_section l
    then false
    else if is_blank l
    then rest
    else not (is_open_question_sentinel l) || rest

-- The loop up to the heading
unfoldable pub open_in_lines : Lines → Bool
unfolding is_open_questions_heading open_in_section
open_in_lines [] = false
open_in_lines (l ∷ lines) =
    let rest = open_in_lines lines in
    if is_open_questions_heading l then open_in_section lines else rest

unfoldable pub has_open_questions : Bytes → Bool
unfolding open_in_lines split
has_open_questions body = open_in_lines (split b'\n' body)
