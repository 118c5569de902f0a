-- ===== src/Questions/Entries.antt =====
-- An item of the section, written and read again.
use mathlib.Core.List.{append-nil, append_assoc}
use kaos_control.Common.{
  ℕ, ◌≡◌, ◌⊎◌, inl, inr, ◌∙◌, refl, sym, ap, true, false, ◌==◌, List, [], ◌∷◌, ◌++◌, map, All,
  Bytes, is_nil, split, onto_first, starts_with, Bool-cases, arith,
}
use kaos_control.Strings.{drop_start, drop_end, take_end, trim_space, trim_prefix, is_space}
use kaos_control.Strings.Trim.{
  drop_end-append, drop_end-keep, drop_end-none, drop_end-first, take_end-append, trim_space-fixed,
}
use kaos_control.Strings.Joined.{NoSep, join_at-split}
use kaos_control.Questions.{
  Line, Lines, is_item, is_section, QuestionEntry, is_blank, is_quote, unquoted, entry_of_lines,
  entry_of, answer_lines, entry_lines,
}

-- A line that may stand in the section.
pub record IsPlain (l : Line) : Type 0 where
  pub one_line : NoSep b'\n' l
  pub no_section : is_section l ≡ false

-- An entry as the parser reads it, apart from its answer.
pub record IsEntry (e : QuestionEntry) : Type 0 where
  pub first : Line
  pub more : Lines
  pub its_lines : e.text_lines ≡ first ∷ more
  pub begins : is_item first ≡ true
  pub goes_on : All (λ l. is_item l ≡ false) more
  pub plain : All IsPlain e.text_lines
  pub trimmed : drop_end is_blank e.text_lines ≡ e.text_lines

-- Without an answer the text does not end with a quote, which would be read as one.
abbrev pub IsClear : QuestionEntry → Type 0
IsClear e = (is_blank e.answer ≡ false) ⊎ (drop_end is_quote e.text_lines ≡ e.text_lines)

abbrev pub trimmed_entry : QuestionEntry → QuestionEntry
trimmed_entry e = record e { answer = trim_space e.answer }

abbrev pub quote : Line → Line
quote l = b'>' ∷ b' ' ∷ l

quote-solid : (l : Line) → is_blank (quote l) ≡ false
unfolding trim_space drop_start
quote-solid l = rw (drop_end-first is_space b'>' (b' ' ∷ l) refl) refl

quotes : (ls : Lines) → All (λ l. is_quote l ≡ true) (map quote ls)
unfolding starts_with drop_start
quotes [] = tt
quotes (l ∷ ls) = (refl, quotes ls)

quotes_solid : (ls : Lines) → All (λ l. is_blank l ≡ false) (map quote ls)
quotes_solid [] = tt
quotes_solid (l ∷ ls) = (quote-solid l, quotes_solid ls)

unquoted-quote : (ls : Lines) → map unquoted (map quote ls) ≡ ls
unfolding drop_start trim_prefix
unquoted-quote [] = refl
unquoted-quote (l ∷ ls) = ap (λ x. l ∷ x) (unquoted-quote ls)

quotes_some : (ls : Lines) → is_nil ls ≡ false → is_nil (map quote ls) ≡ false
quotes_some [] n = n
quotes_some (l ∷ ls) n = refl

-- The lines of an answered entry, without the blank one behind them
abbrev answered : Lines → Lines → Lines
answered text ls = text ++ ([] ∷ map quote ls)

module _ (text ls : Lines) (t : drop_end is_blank text ≡ text) where
  answered_solid : is_nil ls ≡ false → drop_end is_blank (answered text ls) ≡ (answered text ls)
  answered_solid n = drop_end-keep is_blank text ([] ∷ map quote ls) refl (
      drop_end-keep is_blank ([] ∷ []) (map quote ls) (quotes_some ls n)
        (drop_end-none is_blank (map quote ls) (quotes_solid ls)))

  answered_open : drop_end is_quote (text ++ [] ∷ []) ≡ text ++ [] ∷ []
  unfolding starts_with drop_start drop_end
  answered_open = drop_end-keep is_quote text ([] ∷ []) refl refl

  answered_quotes : take_end is_quote (answered text ls) ≡ map quote ls
  answered_quotes =
      ap (take_end is_quote) (sym (append_assoc text ([] ∷ []) (map quote ls)))
      ∙ take_end-append is_quote (text ++ [] ∷ []) (map quote ls) answered_open (quotes ls)

  answered_text : drop_end is_blank (drop_end is_quote (answered text ls)) ≡ text
  unfolding trim_space drop_start drop_end
  answered_text =
      ap (λ x. drop_end is_blank (drop_end is_quote x))
        (sym (append_assoc text ([] ∷ []) (map quote ls)))
      ∙ ap (drop_end is_blank)
          (drop_end-append is_quote (text ++ [] ∷ []) (map quote ls) (quotes ls) ∙ answered_open)
      ∙ drop_end-append is_blank text ([] ∷ []) (refl, tt)
      ∙ t

split_some : (s : Bytes) → is_nil (split b'\n' s) ≡ false
unfolding split
split_some [] = refl
split_some (c ∷ s) = elim (Bool-cases (c == b'\n')) [
  | inl e ↦ rw e refl
  | inr e ↦ rw e (onto_some c (split b'\n' s))
]
  where
    onto_some : (c : ℕ) (parts : List Bytes) → is_nil (onto_first c parts) ≡ false
    onto_some c [] = refl
    onto_some c (p ∷ parts) = refl

quoted_entry :
    (text : Lines) (a : Bytes)
    → drop_end is_blank text ≡ text
    → trim_space a ≡ a
    → entry_of_lines (answered text (split b'\n' a)) ≡ record { text_lines = text; answer = a }
unfolding entry_of_lines
quoted_entry text a t f =
    rw
      (
        entry_of_lines,
        answered_quotes text (split b'\n' a),
        quotes_some (split b'\n' a) (split_some a),
        answered_text text (split b'\n' a) t,
        unquoted-quote (split b'\n' a),
        join_at-split b'\n' a,
        f,
      )
      refl

plain_entry :
    (text : Lines)
    → drop_end is_quote text ≡ text
    → entry_of_lines text ≡ record { text_lines = text; answer = [] }
unfolding entry_of_lines
plain_entry text q =
    rw
      (
        entry_of_lines,
        ap (take_end is_quote) (sym (append-nil text)) ∙ take_end-append is_quote text [] q tt,
      )
      refl

blank_empty : is_blank [] ≡ true
unfolding trim_space drop_start drop_end
blank_empty = refl

written_entry :
    (text : Lines) (a : Bytes)
    → drop_end is_blank text ≡ text
    → trim_space a ≡ a
    → (is_nil a ≡ false) ⊎ (drop_end is_quote text ≡ text)
    → entry_of ((text ++ answer_lines a) ++ [] ∷ []) ≡ record { text_lines = text; answer = a }
written_entry text [] t f (inl n) = absurd (ground (arith, n))
written_entry text [] t f (inr q) =
    ap entry_of_lines (
      drop_end-append is_blank (text ++ []) ([] ∷ []) (blank_empty, tt)
      ∙ ap (drop_end is_blank) (append-nil text)
      ∙ t)
    ∙ plain_entry text q
written_entry text (c ∷ a) t f _ =
    ap entry_of_lines (
      drop_end-append is_blank (answered text (split b'\n' (c ∷ a))) ([] ∷ []) (blank_empty, tt)
      ∙ answered_solid text (split b'\n' (c ∷ a)) t (split_some (c ∷ a)))
    ∙ quoted_entry text (c ∷ a) t f

-- What is written for an entry is read as the entry, with its answer trimmed.
pub entry_of-lines :
    (e : QuestionEntry)
    → drop_end is_blank e.text_lines ≡ e.text_lines
    → IsClear e
    → entry_of (entry_lines e ++ [] ∷ []) ≡ trimmed_entry e
entry_of-lines e t c =
    written_entry e.text_lines (trim_space e.answer) t (trim_space-fixed e.answer) c
