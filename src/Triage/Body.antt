-- ===== src/Triage/Body.antt =====
-- The text that internal/triage/run.go writes: rewriteBody, with splitH1, stripLeadingH1 and replaceIdeaSection, and
-- mergeAndFilterLabels. A body is its code points.
use kaos_control.Common.{
  ℕ, String, Bool, false, not, ◌&&◌, ◌||◌, ◌==◌, Option, none, some, List, [], ◌∷◌, ◌++◌, codes,
  if◌then◌else◌, Bytes, starts_with, str_eq,
}
use kaos_control.Strings.{trim_space}

abbrev pub h1_mark : Bytes
h1_mark = codes "# "

abbrev pub raw_idea : Bytes
raw_idea = codes "## Raw Idea"

abbrev pub idea_heading : Bytes
idea_heading = codes "## Idea"

-- strings.Contains
unfoldable pub contains : Bytes → Bytes → Bool
unfolding starts_with
contains sub [] = starts_with sub []
contains sub (c ∷ s) = starts_with sub (c ∷ s) || contains sub s

-- The text before the first occurrence, as IndexByte and Index give it
abbrev pub onto_before : ℕ → Option Bytes → Option Bytes
onto_before c none = none
onto_before c (some s) = some (c ∷ s)

unfoldable pub before_first : Bytes → Bytes → Option Bytes
unfolding starts_with
before_first sub [] = if starts_with sub [] then some [] else none
before_first sub (c ∷ s) =
    let rest = before_first sub s in if starts_with sub (c ∷ s) then some [] else onto_before c rest

abbrev pub onto_line : ℕ → Option (Bytes × Bytes) → Option (Bytes × Bytes)
onto_line c none = none
onto_line c (some (l, s)) = some (c ∷ l, s)

-- The first line and the text behind its newline
unfoldable pub cut_line : Bytes → Option (Bytes × Bytes)
cut_line [] = none
cut_line (c ∷ s) = let rest = cut_line s in if c == b'\n' then some ([], s) else onto_line c rest

-- splitH1, on the trimmed body
abbrev pub split_h1_at : Bytes → Option (Bytes × Bytes) → Bytes × Bytes
split_h1_at trimmed none = if starts_with h1_mark trimmed then (trimmed, []) else ([], trimmed)
split_h1_at trimmed (some (l, s)) =
    if starts_with h1_mark l then (l, trim_space s) else ([], trimmed)

unfoldable pub split_h1 : Bytes → Bytes × Bytes
unfolding trim_space cut_line starts_with
split_h1 body = split_h1_at (trim_space body) (cut_line (trim_space body))

-- stripLeadingH1, on the trimmed body
abbrev pub strip_h1_at : Bytes → Option (Bytes × Bytes) → Bytes
strip_h1_at trimmed none = if starts_with h1_mark trimmed then [] else trimmed
strip_h1_at trimmed (some (l, s)) = if starts_with h1_mark l then trim_space s else trimmed

unfoldable pub strip_leading_h1 : Bytes → Bytes
unfolding trim_space cut_line starts_with
strip_leading_h1 body = strip_h1_at (trim_space body) (cut_line (trim_space body))

-- replaceIdeaSection
abbrev pub replace_at : Bytes → Bytes → Option Bytes → Bytes
replace_at body new (some before) =
    before ++ (b'\n' ∷ (idea_heading ++ (b'\n' ∷ b'\n' ∷ trim_space new)))
replace_at body new none =
    if starts_with idea_heading body
    then b'\n' ∷ (idea_heading ++ (b'\n' ∷ b'\n' ∷ trim_space new))
    else body

unfoldable pub replace_idea_section : Bytes → Bytes → Bytes
unfolding before_first trim_space starts_with
replace_idea_section body new = replace_at body new (before_first (b'\n' ∷ idea_heading) body)

abbrev pub h1_lines : Bytes → Bytes
h1_lines [] = []
h1_lines (c ∷ h1) = (c ∷ h1) ++ (b'\n' ∷ b'\n' ∷ [])

abbrev pub first_body : Bytes × Bytes → Bytes → Bytes
first_body (h1, rest) new =
    h1_lines h1
    ++ (raw_idea
        ++ (b'\n'
            ∷ b'\n'
            ∷ (trim_space rest
                ++ (b'\n' ∷ b'\n' ∷ (idea_heading ++ (b'\n' ∷ b'\n' ∷ trim_space new))))))

-- rewriteBody
unfoldable pub rewrite_body : Bytes → Bytes → Bytes
unfolding contains split_h1 strip_leading_h1 replace_idea_section trim_space
rewrite_body original agent =
    let stripped = strip_leading_h1 agent in
    if contains raw_idea original && contains idea_heading original
    then replace_idea_section original stripped
    else first_body (split_h1 original) stripped

abbrev pub has_label : String → List String → Bool
has_label l [] = false
has_label l (x ∷ xs) = str_eq x l || has_label l xs

-- The loop of mergeAndFilterLabels, with the labels that it has seen
unfoldable pub keep_labels : List String → List String → List String → List String
keep_labels vocab seen [] = []
keep_labels vocab seen (l ∷ labels) =
    let new = has_label l vocab && not (has_label l seen) in
    let rest = keep_labels vocab (if new then l ∷ seen else seen) labels in
    if new then l ∷ rest else rest

-- mergeAndFilterLabels
unfoldable pub merge_and_filter_labels : List String → List String → List String → List String
unfolding keep_labels
merge_and_filter_labels existing proposed vocab = keep_labels vocab [] (existing ++ proposed)
