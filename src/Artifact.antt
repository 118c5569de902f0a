-- ===== src/Artifact.antt =====
-- The names of artifact files: ParseFilename and stageToType of internal/artifact/artifact.go,
-- NextIndexForLineage of internal/index/index.go, and isValidSlug and buildFilename of
-- internal/http/write.go. Names are bytes, and a regular expression is the search that it stands for:
-- the longest first group whose rest matches.
pub mod Filename
mod Examples
use kaos_control.Common.{
  ℕ, zero, suc, ◌+◌, ◌-◌, ◌^◌, Bool, true, false, not, ◌&&◌, ◌||◌, ◌==◌, ltb, leb, Option, none,
  some, List, [], ◌∷◌, ◌++◌, String, str_eq, codes, if◌then◌else◌, Bytes, is_nil, is_digit,
  digits_value, decimal, take_digits,
}

abbrev pub is_lower : ℕ → Bool
is_lower c = leb 97 c && leb c 122

abbrev pub is_letter : ℕ → Bool
is_letter c = leb 65 c && leb c 90 || is_lower c

unfoldable pub all_letters : Bytes → Bool
all_letters [] = true
all_letters (c ∷ s) = is_letter c && all_letters s

-- `(?:-([a-zA-Z]+))?$`; 45 is the dash.
unfoldable pub match_suffix : Bytes → Option Bytes
unfolding all_letters
match_suffix [] = some []
match_suffix (c ∷ s) = if c == 45 && not (is_nil s) && all_letters s then some s else none

abbrev pub with_digits : Bytes → Option Bytes → Option (Bytes × Bytes)
with_digits d none = none
with_digits d (some sfx) = some (d, sfx)

-- `-(\d+)(?:-([a-zA-Z]+))?$`
unfoldable pub match_index : Bytes → Option (Bytes × Bytes)
unfolding take_digits match_suffix
match_index [] = none
match_index (c ∷ s) =
    let (d, rest) = take_digits s in
    if c == 45 && not (is_nil d) then with_digits d (match_suffix rest) else none

abbrev pub or_here :
    Bytes → Option (Bytes × Bytes) → Option (Bytes × Bytes × Bytes) → Option (Bytes × Bytes × Bytes)
or_here slug here (some m) = some m
or_here slug none none = none
or_here slug (some (d, sfx)) none = if is_nil slug then none else some (slug, d, sfx)

-- indexSuffixRe with `slug` for what its first group has: the longest first, and no newline in it.
unfoldable pub match_filename : Bytes → Bytes → Option (Bytes × Bytes × Bytes)
unfolding match_index
match_filename slug [] = none
match_filename slug (c ∷ s) =
    let longer = match_filename (slug ++ c ∷ []) s in
    or_here slug (match_index (c ∷ s)) (if c == 10 then none else longer)

-- Atoi of the digits, without its error: it stops at the greatest int.
abbrev pub clamped : Option ℕ → ℕ
clamped none = 0
clamped (some n) = if ltb n (2 ^ 63) then n else 2 ^ 63 - 1

-- ParseFilename
unfoldable pub parse_filename : Bytes → Bytes × ℕ × Bytes
unfolding match_filename digits_value
parse_filename stem = elim (match_filename [] stem) [
  | none ↦ (stem, 0, [])
  | some (slug, d, sfx) ↦ (slug, clamped (digits_value 0 d), sfx)
]

abbrev pub is_slug_byte : ℕ → Bool
is_slug_byte c = is_lower c || is_digit c

-- `[a-z0-9\-]*[a-z0-9]$`
unfoldable pub match_slug_rest : Bytes → Bool
match_slug_rest [] = false
match_slug_rest (c ∷ []) = is_slug_byte c
match_slug_rest (c ∷ d ∷ s) = (is_slug_byte c || c == 45) && match_slug_rest (d ∷ s)

-- isValidSlug
unfoldable pub is_valid_slug : Bytes → Bool
unfolding match_slug_rest
is_valid_slug [] = false
is_valid_slug (c ∷ s) = is_slug_byte c && (is_nil s || match_slug_rest s)

-- stageSuffix
unfoldable pub stage_suffix : String → Bytes
stage_suffix stage =
    if str_eq stage "backend-plans"
    then codes "be"
    else if str_eq stage "frontend-plans"
    then codes "fe"
    else if str_eq stage "test-plans"
    then codes "test"
    else if str_eq stage "docs"
    then codes "doc"
    else []

-- buildFilenameFromParts without the extension
unfoldable pub build_stem : Bytes → ℕ → Bytes → Bytes
unfolding decimal
build_stem slug idx sfx =
    if idx == 0
    then slug
    else if not (is_nil sfx)
    then slug ++ (45 ∷ (decimal idx ++ (45 ∷ sfx)))
    else slug ++ (45 ∷ decimal idx)

-- buildFilename without the extension
unfoldable pub build_filename : Bytes → ℕ → String → Bytes
unfolding build_stem stage_suffix
build_filename slug idx stage = build_stem slug idx (stage_suffix stage)

-- NextIndexForLineage on the largest index of the lineage's rows
abbrev pub next_index : Option ℕ → ℕ
next_index none = 0
next_index (some zero) = 2
next_index (some (suc n)) = suc n + 1
