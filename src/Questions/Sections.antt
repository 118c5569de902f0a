-- ===== src/Questions/Sections.antt =====
-- The section of open questions, read as its entries.
use mathlib.Core.List.{append-nil, append_assoc}
use kaos_control.Common.{
  ℕ, ◌≡◌, inl, inr, ◌∙◌, refl, sym, ap, Bool, true, false, ◌||◌, ◌==◌, List, [], ◌∷◌, ◌++◌, map,
  All, All-append, Bytes, is_nil, is_digit, split, starts_with, Bool-cases, arith,
}
use kaos_control.Strings.{drop_start, drop_end, take_end, trim_space, is_space}
use kaos_control.Strings.Trim.{drop_end-fixed, drop_end-first, All-drop_end}
use kaos_control.Strings.Joined.{NoSep, split-NoSep}
use kaos_control.Questions.{
  Line, Lines, match_item, is_item, QuestionEntry, is_blank, is_quote, entry_of_lines, entry_of,
  answer_lines, entry_lines, group_items, split_question_entries, rebuilt,
}
use kaos_control.Questions.Entries.{IsPlain, IsEntry, IsClear, trimmed_entry, quote, entry_of-lines}

-- The lines of an item, up to the next one.
record IsGroup (g : Lines) : Type 0 where
  first : Line
  more : Lines
  its_lines : g ≡ first ∷ more
  begins : is_item first ≡ true
  goes_on : All (λ l. is_item l ≡ false) more
  plain : All IsPlain g

record AreGroups (r : Lines × List Lines) : Type 0 where
  no_items : All (λ l. is_item l ≡ false) r.0
  plain_start : All IsPlain r.0
  groups : All IsGroup r.1

group_items-AreGroups : (ls : Lines) → All IsPlain ls → AreGroups (group_items ls)
unfolding group_items
group_items-AreGroups [] h = record { no_items = tt; plain_start = tt; groups = tt }
group_items-AreGroups (l ∷ ls) h =
    let r = group_items-AreGroups ls h.1 in
    elim (Bool-cases (is_item l)) [
      | inr e ↦ rw e (record {
        no_items = (e, r.no_items);
        plain_start = (h.0, r.plain_start);
        groups = r.groups;
      })
      | inl e ↦ rw e (record {
        no_items = tt;
        plain_start = tt;
        groups = (
          record {
            first = l;
            more = (group_items ls).0;
            its_lines = refl;
            begins = e;
            goes_on = r.no_items;
            plain = (h.0, r.plain_start);
          },
          r.groups,
        );
      })
    ]

-- The first character of an item
mark_solid :
    (c : ℕ)
    → (c == b'-' || is_digit c) ≡ true
    → (is_space c ≡ false) × ((c == b' ') ≡ false) × ((b'>' == c) ≡ false)
mark_solid c h = ground (arith, h)

item_mark : (c : ℕ) (s : Line) → is_item (c ∷ s) ≡ true → (c == b'-' || is_digit c) ≡ true
unfolding match_item
item_mark c s h = ground (arith, h)

item_solid : (l : Line) → is_item l ≡ true → (is_blank l ≡ false) × (is_quote l ≡ false)
unfolding match_item trim_space drop_start starts_with
item_solid [] h = absurd (ground (arith, h))
item_solid (c ∷ s) h =
    let (a, b, d) = mark_solid c (item_mark c s h) in
    (rw (a, drop_end-first is_space c s a) refl, rw (b, d) refl)

IsGroup-drop_end :
    (p : Line → Bool) (g : Lines)
    → ((l : Line) → is_item l ≡ true → p l ≡ false)
    → IsGroup g
    → IsGroup (drop_end p g)
IsGroup-drop_end p g k h = record {
  first = h.first;
  more = drop_end p h.more;
  its_lines = ap (drop_end p) h.its_lines ∙ drop_end-first p h.first h.more (k h.first h.begins);
  begins = h.begins;
  goes_on = All-drop_end p _ h.more h.goes_on;
  plain = All-drop_end p _ g h.plain;
}

group_entry :
    (t : Lines) (a : Bytes)
    → IsGroup t
    → drop_end is_blank t ≡ t
    → IsEntry (record { text_lines = t; answer = a })
group_entry t a h e = record {
  first = h.first;
  more = h.more;
  its_lines = h.its_lines;
  begins = h.begins;
  goes_on = h.goes_on;
  plain = h.plain;
  trimmed = e;
}

group-IsEntry : (g : Lines) → IsGroup g → IsEntry (entry_of g)
unfolding entry_of_lines
group-IsEntry g h =
    let cut = IsGroup-drop_end is_blank g (λ l i. (item_solid l i).0) h in
    let own = IsGroup-drop_end is_quote (drop_end is_blank g) (λ l i. (item_solid l i).1) cut in
    elim (Bool-cases (is_nil (take_end is_quote (drop_end is_blank g)))) [
      | inl e ↦
          rw (entry_of_lines, e)
            (group_entry (drop_end is_blank g) [] cut (drop_end-fixed is_blank g))
      | inr e ↦
          rw (entry_of_lines, e)
            (group_entry (drop_end is_blank (drop_end is_quote (drop_end is_blank g))) _
              (IsGroup-drop_end is_blank _ (λ l i. (item_solid l i).0) own)
              (drop_end-fixed is_blank (drop_end is_quote (drop_end is_blank g))))
    ]

All-map_groups : (gs : List Lines) → All IsGroup gs → All IsEntry (map entry_of gs)
All-map_groups [] h = tt
All-map_groups (g ∷ gs) h = (group-IsEntry g h.0, All-map_groups gs h.1)

-- What the parser reads of a section is made of entries.
pub entries-IsEntry :
    (section : Lines) → All IsPlain section → All IsEntry (split_question_entries section)
unfolding split_question_entries
entries-IsEntry section h =
    All-map_groups (group_items section).1 (group_items-AreGroups section h).groups

-- The lines of the entries, each with the blank one behind it
unfoldable pub flat : List QuestionEntry → Lines
flat [] = []
flat (e ∷ es) = (entry_lines e ++ [] ∷ []) ++ flat es

pub rebuilt-flat :
    (e : QuestionEntry) (es : List QuestionEntry) (after : Lines)
    → rebuilt (e ∷ es) ++ ([] ∷ after) ≡ flat (e ∷ es) ++ after
unfolding rebuilt flat
rebuilt-flat e [] after =
    sym (append_assoc (entry_lines e) ([] ∷ []) after)
    ∙ ap (λ x. x ++ after) (sym (append-nil (entry_lines e ++ [] ∷ [])))
rebuilt-flat e (f ∷ es) after =
    append_assoc (entry_lines e) ([] ∷ rebuilt (f ∷ es)) ([] ∷ after)
    ∙ ap (λ x. entry_lines e ++ ([] ∷ x)) (rebuilt-flat f es after)
    ∙ sym (append_assoc (entry_lines e) ([] ∷ []) (flat (f ∷ es) ++ after))
    ∙ sym (append_assoc (entry_lines e ++ [] ∷ []) (flat (f ∷ es)) after)

skip_lines :
    (ls rest : Lines) (gs : List Lines)
    → All (λ l. is_item l ≡ false) ls
    → group_items rest ≡ ([], gs)
    → group_items (ls ++ rest) ≡ (ls, gs)
unfolding group_items
skip_lines [] rest gs h e = e
skip_lines (l ∷ ls) rest gs h e = rw (skip_lines ls rest gs h.1 e, h.0) refl

-- Items after items are one group each.
group_items-item :
    (g rest : Lines) (gs : List Lines)
    → IsGroup g
    → group_items rest ≡ ([], gs)
    → group_items (g ++ rest) ≡ ([], g ∷ gs)
unfolding group_items
group_items-item g rest gs h e =
    rw h.its_lines (rw (skip_lines h.more rest gs h.goes_on e, h.begins) refl)

empty_plain : IsPlain []
unfolding starts_with
empty_plain = record { one_line = tt; no_section = refl }

empty_no_item : is_item [] ≡ false
unfolding match_item
empty_no_item = refl

quotes_no_items : (ls : Lines) → All (λ l. is_item l ≡ false) (map quote ls)
unfolding match_item
quotes_no_items [] = tt
quotes_no_items (l ∷ ls) = (refl, quotes_no_items ls)

quotes_plain : (ls : Lines) → All (NoSep b'\n') ls → All IsPlain (map quote ls)
unfolding starts_with
quotes_plain [] h = tt
quotes_plain (l ∷ ls) h =
    (record { one_line = (refl, (refl, h.0)); no_section = refl }, quotes_plain ls h.1)

answer_no_items : (a : Bytes) → All (λ l. is_item l ≡ false) (answer_lines a)
answer_no_items [] = tt
answer_no_items (c ∷ a) = (empty_no_item, quotes_no_items (split b'\n' (c ∷ a)))

answer_plain : (a : Bytes) → All IsPlain (answer_lines a)
answer_plain [] = tt
answer_plain (c ∷ a) = (empty_plain, quotes_plain (split b'\n' (c ∷ a)) (split-NoSep b'\n' (c ∷ a)))

entry-IsGroup : (e : QuestionEntry) → IsEntry e → IsGroup (entry_lines e ++ [] ∷ [])
entry-IsGroup e h = record {
  first = h.first;
  more = (h.more ++ answer_lines (trim_space e.answer)) ++ [] ∷ [];
  its_lines = ap (λ x. (x ++ answer_lines (trim_space e.answer)) ++ [] ∷ []) h.its_lines;
  begins = h.begins;
  goes_on =
      All-append _ (h.more ++ answer_lines (trim_space e.answer)) ([] ∷ [])
        (All-append _ h.more (answer_lines (trim_space e.answer)) h.goes_on
          (answer_no_items (trim_space e.answer)))
        (empty_no_item, tt);
  plain =
      All-append _ (entry_lines e) ([] ∷ [])
        (All-append _ e.text_lines (answer_lines (trim_space e.answer)) h.plain
          (answer_plain (trim_space e.answer)))
        (empty_plain, tt);
}

groups_of : List QuestionEntry → List Lines
groups_of = map (λ e. entry_lines e ++ [] ∷ [])

group_items-flat :
    (es : List QuestionEntry) → All IsEntry es → group_items (flat es) ≡ ([], groups_of es)
unfolding group_items flat groups_of
group_items-flat [] h = refl
group_items-flat (e ∷ es) h =
    group_items-item (entry_lines e ++ [] ∷ []) (flat es) (groups_of es) (entry-IsGroup e h.0)
      (group_items-flat es h.1)

entries_of_groups :
    (es : List QuestionEntry)
    → All IsEntry es
    → All IsClear es
    → map entry_of (groups_of es) ≡ map trimmed_entry es
unfolding groups_of
entries_of_groups [] h c = refl
entries_of_groups (e ∷ es) h c =
    ap (λ x. x ∷ map entry_of (groups_of es)) (entry_of-lines e h.0.trimmed c.0)
    ∙ ap (λ x. trimmed_entry e ∷ x) (entries_of_groups es h.1 c.1)

-- The section that is written has the entries that were written, with their answers trimmed.
pub split_question_entries-flat :
    (es : List QuestionEntry)
    → All IsEntry es
    → All IsClear es
    → split_question_entries ([] ∷ flat es) ≡ map trimmed_entry es
unfolding split_question_entries
split_question_entries-flat es h c =
    ap (λ x. map entry_of x.1)
      (skip_lines ([] ∷ []) (flat es) (groups_of es) (empty_no_item, tt) (group_items-flat es h))
    ∙ entries_of_groups es h c

pub flat-IsPlain : (es : List QuestionEntry) → All IsEntry es → All IsPlain (flat es)
unfolding flat
flat-IsPlain [] h = tt
flat-IsPlain (e ∷ es) h =
    All-append _ (entry_lines e ++ [] ∷ []) (flat es) (entry-IsGroup e h.0).plain
      (flat-IsPlain es h.1)
