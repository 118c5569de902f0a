-- ===== src/Questions/Answers.antt =====
-- Answers that are written are read again.
use kaos_control.Common.{
  ℕ, suc, ◌≡◌, ◌∙◌, refl, sym, ap, subst, false, Option, none, some, List, [], ◌∷◌, ◌++◌, map, All,
  ok, Bytes, is_nil, split, arith,
}
use kaos_control.Strings.{trim_space, join_at}
use kaos_control.Strings.Trim.{trim_space-fixed}
use kaos_control.Strings.Joined.{split-NoSep}
use kaos_control.Questions.{
  Lines, locate_open_questions_section, QuestionEntry, split_question_entries, if_any,
  questions_from, parse_open_questions, Answers, answer_or, final_answers, rebuilt,
  open_questions_heading, with_section, Question, question_of, entries_at, apply_to, apply_located,
  apply_answers, entry_lines, answer_lines,
}
use kaos_control.Questions.Entries.{IsEntry, IsClear, trimmed_entry}
use kaos_control.Questions.Sections.{entries-IsEntry, flat, split_question_entries-flat}
use kaos_control.Questions.Located.{Located, locate-Located, located_again}

pub final-IsEntry :
    (i : ℕ) (answers : Answers) (es : List QuestionEntry)
    → All IsEntry es
    → All IsEntry (final_answers i answers es)
unfolding final_answers
final-IsEntry i answers [] h = tt
final-IsEntry i answers (e ∷ es) h = (
  record {
    first = h.0.first;
    more = h.0.more;
    its_lines = h.0.its_lines;
    begins = h.0.begins;
    goes_on = h.0.goes_on;
    plain = h.0.plain;
    trimmed = h.0.trimmed;
  },
  final-IsEntry (suc i) answers es h.1,
)

-- The question with the answer that is given to it, or its own.
abbrev pub answered : Answers → Question → Question
answered answers q = record q { answer = trim_space (answer_or q.answer (answers q.index)) }

questions_from-final :
    (i : ℕ) (answers : Answers) (es : List QuestionEntry)
    → questions_from i (map trimmed_entry (final_answers i answers es))
      ≡ map (answered answers) (questions_from i es)
unfolding questions_from final_answers
questions_from-final i answers [] = refl
questions_from-final i answers (e ∷ es) =
    ap (λ x. answered answers (question_of i e) ∷ x) (questions_from-final (suc i) answers es)

-- The entries of a body's section
unfoldable pub open_entries : Bytes → List QuestionEntry
unfolding locate_open_questions_section split_question_entries
open_entries body = entries_at (locate_open_questions_section (split b'\n' body))

open-IsEntry : (o : Option (Lines × Lines × Lines)) → Located o → All IsEntry (entries_at o)
unfolding split_question_entries
open-IsEntry none d = tt
open-IsEntry (some (before, section, after)) d = entries-IsEntry section d.plain

-- A body whose entries are `e ∷ es`, and what is written for it.
record IsWritten (answers : Answers) (e : QuestionEntry) (es : List QuestionEntry) (body' : Bytes)
    : Type 0 where
  before : Lines
  after : Lines
  found :
      locate_open_questions_section (split b'\n' body')
      ≡ some (before, [] ∷ flat (final_answers 0 answers (e ∷ es)), after)
  written :
      body' ≡ with_section open_questions_heading before (final_answers 0 answers (e ∷ es)) after

IsWritten-at :
    (body : Bytes) (answers : Answers) (body' : Bytes) (e : QuestionEntry) (es : List QuestionEntry)
    (o : Option (Lines × Lines × Lines))
    → Located o
    → entries_at o ≡ e ∷ es
    → apply_located body answers false o ≡ ok body'
    → IsWritten answers e es body'
unfolding final_answers
IsWritten-at body answers body' e es none d q h = absurd (ground (arith, q))
IsWritten-at body answers body' e es (some (before, section, after)) d q h = record {
  before = before;
  after = after;
  found =
      subst
        (λ x.
          locate_open_questions_section (split b'\n' x)
          ≡ some (before, [] ∷ flat (final_answers 0 answers (e ∷ es)), after))
        result (located_again before section after _ _ d entries);
  written = sym result;
}
  where
    result :
        with_section open_questions_heading before (final_answers 0 answers (e ∷ es)) after ≡ body'
    result = ground (arith, rw q at h)

    entries : All IsEntry (final_answers 0 answers (e ∷ es))
    entries =
        final-IsEntry 0 answers (e ∷ es) (subst (All IsEntry) q (entries-IsEntry section d.plain))

pub some_entries :
    (es : List QuestionEntry) (qs : List Question)
    → if_any es ≡ some qs
    → (e : QuestionEntry) × (rest : List QuestionEntry) × (es ≡ e ∷ rest)
      × (qs ≡ questions_from 0 (e ∷ rest))
some_entries [] qs h = absurd (ground (arith, h))
some_entries (e ∷ rest) qs h = (e, rest, refl, ground (arith, h))

-- Every entry, with the answer it is given, can be told from its text.
abbrev pub AreClear : Bytes → Answers → Type 0
AreClear body answers = All IsClear (final_answers 0 answers (open_entries body))

map_some : (es : List QuestionEntry) → is_nil es ≡ false → if_any es ≡ some (questions_from 0 es)
map_some [] n = absurd (ground (arith, n))
map_some (e ∷ es) n = refl

module _ (body : Bytes) (answers : Answers) (body' : Bytes) (e : QuestionEntry)
    (es : List QuestionEntry) (q : open_entries body ≡ e ∷ es) (c : AreClear body answers) where
  clear : All IsClear (final_answers 0 answers (e ∷ es))
  clear = subst (λ x. All IsClear (final_answers 0 answers x)) q c

  entries : All IsEntry (open_entries body)
  unfolding open_entries
  entries =
      open-IsEntry (locate_open_questions_section (split b'\n' body))
        (locate-Located (split b'\n' body) (split-NoSep b'\n' body))

  finals : All IsEntry (final_answers 0 answers (e ∷ es))
  finals = final-IsEntry 0 answers (e ∷ es) (subst (All IsEntry) q entries)

  IsWritten-entries :
      IsWritten answers e es body'
      → open_entries body' ≡ map trimmed_entry (final_answers 0 answers (e ∷ es))
  unfolding open_entries
  IsWritten-entries w =
      ap entries_at w.found
      ∙ split_question_entries-flat (final_answers 0 answers (e ∷ es)) finals clear

  written_entries :
      apply_answers body answers false ≡ ok body'
      → open_entries body' ≡ map trimmed_entry (final_answers 0 answers (e ∷ es))
  unfolding open_entries apply_answers
  written_entries h = IsWritten-entries (
      IsWritten-at body answers body' e es (locate_open_questions_section (split b'\n' body))
        (locate-Located (split b'\n' body) (split-NoSep b'\n' body)) q h)

trim_again :
    (old : Bytes) (o : Option Bytes)
    → trim_space (answer_or (trim_space (answer_or old o)) o) ≡ trim_space (answer_or old o)
trim_again old none = trim_space-fixed old
trim_again old (some new) = refl

lines_again :
    (i : ℕ) (answers : Answers) (e : QuestionEntry)
    → entry_lines
        (record e { answer = answer_or (trim_space (answer_or e.answer (answers i))) (answers i) })
      ≡ entry_lines (record e { answer = answer_or e.answer (answers i) })
lines_again i answers e = ap (λ a. e.text_lines ++ answer_lines a) (trim_again e.answer (answers i))

-- The answers given once more change nothing.
rebuilt_again :
    (i : ℕ) (answers : Answers) (es : List QuestionEntry)
    → rebuilt (final_answers i answers (map trimmed_entry (final_answers i answers es)))
      ≡ rebuilt (final_answers i answers es)
unfolding rebuilt final_answers
rebuilt_again i answers [] = refl
rebuilt_again i answers (e ∷ []) = lines_again i answers e
rebuilt_again i answers (e ∷ f ∷ es) =
    ap
      (λ x.
        x
        ++ ([]
            ∷ rebuilt (
                final_answers (suc i) answers
                  (map trimmed_entry (final_answers (suc i) answers (f ∷ es))))))
      (lines_again i answers e)
    ∙ ap (λ y. entry_lines (record e { answer = answer_or e.answer (answers i) }) ++ ([] ∷ y))
        (rebuilt_again (suc i) answers (f ∷ es))

apply_entries :
    (body : Bytes) (answers : Answers) (before after : Lines) (e : QuestionEntry)
    (es ts : List QuestionEntry)
    → ts ≡ map trimmed_entry (final_answers 0 answers (e ∷ es))
    → apply_to body answers false before ts after
      ≡ ok (with_section open_questions_heading before (final_answers 0 answers (e ∷ es)) after)
unfolding final_answers
apply_entries body answers before after e es ts t =
    ap (λ x. apply_to body answers false before x after) t
    ∙ ap (λ x. ok (join_at b'\n' (before ++ (open_questions_heading ∷ [] ∷ (x ++ ([] ∷ after))))))
        (rebuilt_again 0 answers (e ∷ es))

parse_written :
    (es ts : List QuestionEntry) (answers : Answers)
    → is_nil es ≡ false
    → ts ≡ map trimmed_entry (final_answers 0 answers es)
    → if_any ts ≡ some (map (answered answers) (questions_from 0 es))
unfolding final_answers
parse_written [] ts answers n t = absurd (ground (arith, n))
parse_written (e ∷ es) ts answers n t =
    ap if_any t ∙ ap some (questions_from-final 0 answers (e ∷ es))

-- The answers of a body that has questions are read again as they were written: the new body has the same questions in the same order, each with the answer given for its index, or with its own where none is given, trimmed. This holds where no question that stays without an answer ends with a quoted line.
pub parse_applied :
    (body : Bytes) (answers : Answers) (body' : Bytes) (qs : List Question)
    → AreClear body answers
    → parse_open_questions body ≡ some qs
    → apply_answers body answers false ≡ ok body'
    → parse_open_questions body' ≡ some (map (answered answers) qs)
unfolding parse_open_questions open_entries
parse_applied body answers body' qs c p h =
    let (e, es, t, u) = some_entries (open_entries body) qs p in
    subst (λ x. parse_open_questions body' ≡ some (map (answered answers) x)) (sym u)
      (parse_written (e ∷ es) (open_entries body') answers refl
        (written_entries body answers body' e es t c h))

-- A body without questions is not changed.
apply_none :
    (body : Bytes) (answers : Answers) (o : Option (Lines × Lines × Lines))
    → entries_at o ≡ []
    → apply_located body answers false o ≡ ok body
apply_none body answers none q = refl
apply_none body answers (some (before, section, after)) q =
    ap (λ x. apply_to body answers false before x after) q

apply_found :
    (body : Bytes) (answers : Answers) (body' : Bytes) (e : QuestionEntry) (es : List QuestionEntry)
    → open_entries body' ≡ map trimmed_entry (final_answers 0 answers (e ∷ es))
    → IsWritten answers e es body'
    → apply_answers body' answers false ≡ ok body'
unfolding apply_answers open_entries
apply_found body answers body' e es t w =
    ap (apply_located body' answers false) w.found
    ∙ apply_entries body' answers w.before w.after e es _ (sym (ap entries_at w.found) ∙ t)
    ∙ ap ok (sym w.written)

apply_again :
    (body : Bytes) (answers : Answers) (body' : Bytes) (es : List QuestionEntry)
    → open_entries body ≡ es
    → AreClear body answers
    → apply_answers body answers false ≡ ok body'
    → apply_answers body' answers false ≡ ok body'
unfolding apply_answers open_entries
apply_again body answers body' [] q c h =
    subst (λ x. apply_answers x answers false ≡ ok x)
      (ground
        (arith, h, apply_none body answers (locate_open_questions_section (split b'\n' body)) q))
      (apply_none body answers (locate_open_questions_section (split b'\n' body)) q)
apply_again body answers body' (e ∷ es) q c h =
    apply_found body answers body' e es (written_entries body answers body' e es q c h) (
      IsWritten-at body answers body' e es (locate_open_questions_section (split b'\n' body))
        (locate-Located (split b'\n' body) (split-NoSep b'\n' body)) q h)

-- Applying the same answers to the result changes nothing, where no question that stays without an answer ends with a quoted line.
pub apply_twice :
    (body : Bytes) (answers : Answers) (body' : Bytes)
    → AreClear body answers
    → apply_answers body answers false ≡ ok body'
    → apply_answers body' answers false ≡ ok body'
apply_twice body answers body' c h = apply_again body answers body' (open_entries body) refl c h
