-- ===== src/Questions.antt =====
-- internal/artifact/questions.go: the section of open questions of an artifact's body, and the answers
-- written into it. A body is its code points, and a
-- map of answers a function. The regular expression of a list item is the search it stands for.
pub mod Entries
pub mod Sections
pub mod Located
pub mod Answers
pub mod Open
pub mod Resolved
mod Examples
use kaos_control.Common.{
  ℕ, zero, suc, ◌+◌, Bool, true, false, not, ◌&&◌, ◌||◌, ◌==◌, leb, Option, none, some, List, [],
  ◌∷◌, ◌++◌, map, codes, if◌then◌else◌, Result, ok, err, Bytes, is_nil, is_digit, split,
  starts_with, same_bytes,
}
use kaos_control.Strings.{
  drop_start, drop_end, take_end, trim_space, trim_prefix, join_at, equal_fold, is_regexp_space,
  is_space,
}

-- A line of a body, without its newline
abbrev pub Line : Type 0
Line = Bytes

abbrev pub hashes : Bytes
hashes = b'#' ∷ b'#' ∷ []

abbrev pub section_mark : Bytes
section_mark = b'#' ∷ b'#' ∷ b' ' ∷ []

abbrev pub open_questions_heading : Line
open_questions_heading = codes "## Open Questions"

abbrev pub resolved_questions_heading : Line
resolved_questions_heading = codes "## Resolved Questions"

abbrev pub behind_hashes : Bytes → Bytes
behind_hashes (_ ∷ _ ∷ s) = s
behind_hashes s = s

unfoldable pub is_open_questions_heading : Line → Bool
unfolding trim_space equal_fold starts_with
is_open_questions_heading line =
    starts_with hashes (trim_space line)
    && equal_fold (trim_space (behind_hashes (trim_space line))) (codes "open questions")

-- `\s+(.*)$`, the group
unfoldable pub match_rest : Bytes → Option Line
unfolding drop_start
match_rest [] = none
match_rest (c ∷ s) = if is_regexp_space c then some (drop_start is_regexp_space s) else none

-- `\.\s+(.*)$` behind digits
unfoldable pub match_dot : Bytes → Option Line
unfolding match_rest
match_dot [] = none
match_dot (c ∷ s) = if c == b'.' then match_rest s else none

-- topLevelItemRe: its group, for a line that matches
unfoldable pub match_item : Line → Option Line
unfolding match_rest match_dot drop_start
match_item [] = none
match_item (c ∷ s) =
    if c == b'-'
    then match_rest s
    else if is_digit c
    then match_dot (drop_start is_digit s)
    else none

abbrev pub is_some {ℓ} : {A : Type ℓ} → Option A → Bool
is_some none = false
is_some (some _) = true

abbrev pub is_item : Line → Bool
is_item line = is_some (match_item line)

abbrev pub is_section : Line → Bool
is_section line = starts_with section_mark line

abbrev pub Lines : Type 0
Lines = List Line

-- The lines up to the next section, and those from it on
unfoldable pub cut_section : Lines → Lines × Lines
unfolding starts_with
cut_section [] = ([], [])
cut_section (l ∷ lines) =
    let (section, after) = cut_section lines in
    if is_section l then ([], l ∷ lines) else (l ∷ section, after)

abbrev pub with_before : Line → Option (Lines × Lines × Lines) → Option (Lines × Lines × Lines)
with_before l none = none
with_before l (some (before, section, after)) = some (l ∷ before, section, after)

abbrev pub from_heading : Lines × Lines → Option (Lines × Lines × Lines)
from_heading (section, after) = some ([], section, after)

-- locateOpenQuestionsSection: the lines before the heading, those of the section, and those behind it
unfoldable pub locate_open_questions_section : Lines → Option (Lines × Lines × Lines)
unfolding is_open_questions_heading cut_section
locate_open_questions_section [] = none
locate_open_questions_section (l ∷ lines) =
    let rest = locate_open_questions_section lines in
    if is_open_questions_heading l then from_heading (cut_section lines) else with_before l rest

pub record QuestionEntry : Type 0 where
  pub text_lines : Lines
  pub answer : Bytes

-- The lines before the first item, and for each item its lines up to the next one
unfoldable pub group_items : Lines → Lines × List Lines
unfolding match_item
group_items [] = ([], [])
group_items (l ∷ lines) =
    let (first, groups) = group_items lines in
    if is_item l then ([], (l ∷ first) ∷ groups) else (l ∷ first, groups)

abbrev pub is_blank : Line → Bool
is_blank line = is_nil (trim_space line)

-- strings.TrimLeft(line, " ")
abbrev pub without_spaces : Line → Line
without_spaces line = drop_start (λ c. c == b' ') line

abbrev pub is_quote : Line → Bool
is_quote line = starts_with (b'>' ∷ []) (without_spaces line)

abbrev pub unquoted : Line → Line
unquoted line = trim_prefix b' ' (trim_prefix b'>' (without_spaces line))

-- The loop's body for one item; `lines` are the item's without blank ones at the end.
unfoldable pub entry_of_lines : Lines → QuestionEntry
unfolding drop_end take_end
entry_of_lines lines =
    if is_nil (take_end is_quote lines)
    then record { text_lines = lines; answer = [] }
    else record {
      text_lines = drop_end is_blank (drop_end is_quote lines);
      answer = trim_space (join_at b'\n' (map unquoted (take_end is_quote lines)));
    }

abbrev pub entry_of : Lines → QuestionEntry
entry_of lines = entry_of_lines (drop_end is_blank lines)

unfoldable pub split_question_entries : Lines → List QuestionEntry
unfolding group_items entry_of_lines
split_question_entries section = map entry_of (group_items section).1

pub record Question : Type 0 where
  pub index : ℕ
  pub text : Bytes
  pub answer : Bytes

abbrev pub without_marker : Lines → Lines
without_marker [] = []
without_marker (l ∷ lines) = elim (match_item l) [ none ↦ l ∷ lines | some t ↦ t ∷ lines ]

abbrev pub question_of : ℕ → QuestionEntry → Question
question_of i e = record {
  index = i;
  text = trim_space (join_at b'\n' (without_marker e.text_lines));
  answer = e.answer;
}

unfoldable pub questions_from : ℕ → List QuestionEntry → List Question
questions_from i [] = []
questions_from i (e ∷ entries) = question_of i e ∷ questions_from (suc i) entries

abbrev pub if_any : List QuestionEntry → Option (List Question)
if_any [] = none
if_any (e ∷ entries) = some (questions_from 0 (e ∷ entries))

abbrev pub entries_at : Option (Lines × Lines × Lines) → List QuestionEntry
entries_at none = []
entries_at (some (before, section, after)) = split_question_entries section

-- ParseOpenQuestions
unfoldable pub parse_open_questions : Bytes → Option (List Question)
unfolding locate_open_questions_section split_question_entries questions_from split
parse_open_questions body = if_any (entries_at (locate_open_questions_section (split b'\n' body)))

pub data AnswersError : Type 0 where
  incomplete_answers : AnswersError

abbrev pub Answers : Type 0
Answers = ℕ → Option Bytes

abbrev pub answer_or : Bytes → Option Bytes → Bytes
answer_or old none = old
answer_or old (some new) = new

-- finalAnswers: the entries with their answers, from the one of index `i` on
unfoldable pub final_answers : ℕ → Answers → List QuestionEntry → List QuestionEntry
final_answers i answers [] = []
final_answers i answers (e ∷ entries) =
    record e { answer = answer_or e.answer (answers i) } ∷ final_answers (suc i) answers entries

unfoldable pub has_unanswered : List QuestionEntry → Bool
has_unanswered [] = false
has_unanswered (e ∷ entries) = is_blank e.answer || has_unanswered entries

-- The lines of an answer below its question
abbrev pub answer_lines : Bytes → Lines
answer_lines [] = []
answer_lines (c ∷ answer) = [] ∷ map (λ l. b'>' ∷ b' ' ∷ l) (split b'\n' (c ∷ answer))

abbrev pub entry_lines : QuestionEntry → Lines
entry_lines e = e.text_lines ++ answer_lines (trim_space e.answer)

unfoldable pub rebuilt : List QuestionEntry → Lines
unfolding trim_space split
rebuilt [] = []
rebuilt (e ∷ []) = entry_lines e
rebuilt (e ∷ f ∷ entries) = entry_lines e ++ ([] ∷ rebuilt (f ∷ entries))

abbrev pub with_section : Line → Lines → List QuestionEntry → Lines → Bytes
with_section heading before entries after =
    join_at b'\n' (before ++ (heading ∷ [] ∷ (rebuilt entries ++ ([] ∷ after))))

abbrev pub write_answers : Bool → Lines → List QuestionEntry → Lines → Result AnswersError Bytes
write_answers complete before entries after =
    if complete && has_unanswered entries
    then err incomplete_answers
    else ok (
        with_section (if complete then resolved_questions_heading else open_questions_heading)
          before entries after)

abbrev pub apply_to :
    Bytes → Answers → Bool → Lines → List QuestionEntry → Lines → Result AnswersError Bytes
apply_to body answers complete before [] after = ok body
apply_to body answers complete before (e ∷ entries) after =
    write_answers complete before (final_answers 0 answers (e ∷ entries)) after

abbrev pub apply_located :
    Bytes → Answers → Bool → Option (Lines × Lines × Lines) → Result AnswersError Bytes
apply_located body answers complete none = ok body
apply_located body answers complete (some (before, section, after)) =
    apply_to body answers complete before (split_question_entries section) after

-- ApplyAnswers
unfoldable pub apply_answers : Bytes → Answers → Bool → Result AnswersError Bytes
unfolding locate_open_questions_section split_question_entries final_answers has_unanswered rebuilt
    split join_at
apply_answers body answers complete =
    apply_located body answers complete (locate_open_questions_section (split b'\n' body))
