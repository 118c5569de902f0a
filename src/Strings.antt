-- ===== src/Strings.antt =====
-- The functions of package strings on code points that the artifact parsers use, as documented.
pub mod Trim
pub mod Joined
use kaos_control.Common.{
  ℕ, ◌+◌, Bool, true, false, ◌&&◌, ◌||◌, ◌==◌, leb, List, [], ◌∷◌, ◌++◌, map, if◌then◌else◌, Bytes,
  is_nil,
}

-- unicode.IsSpace
abbrev pub is_space : ℕ → Bool
is_space c =
    leb 9 c && leb c 13
    || c == 32
    || c == 0x85
    || c == 0xa0
    || c == 0x1680
    || leb 0x2000 c && leb c 0x200a
    || c == 0x2028
    || c == 0x2029
    || c == 0x202f
    || c == 0x205f
    || c == 0x3000

-- TrimLeftFunc
unfoldable pub drop_start {ℓ} : {A : Type ℓ} → (A → Bool) → List A → List A
drop_start p [] = []
drop_start p (x ∷ xs) = let rest = drop_start p xs in if p x then rest else x ∷ xs

-- TrimRightFunc
unfoldable pub drop_end {ℓ} : {A : Type ℓ} → (A → Bool) → List A → List A
drop_end p [] = []
drop_end p (x ∷ xs) = let rest = drop_end p xs in if is_nil rest && p x then [] else x ∷ rest

-- The longest run at the end on which `p` holds
unfoldable pub take_end {ℓ} : {A : Type ℓ} → (A → Bool) → List A → List A
unfolding drop_end
take_end p [] = []
take_end p (x ∷ xs) =
    let rest = take_end p xs in if is_nil (drop_end p xs) && p x then x ∷ xs else rest

-- TrimSpace
unfoldable pub trim_space : Bytes → Bytes
unfolding drop_start drop_end
trim_space s = drop_end is_space (drop_start is_space s)

-- CutPrefix's rest, for a prefix that is there, and TrimPrefix for one code point
unfoldable pub trim_prefix : ℕ → Bytes → Bytes
trim_prefix p [] = []
trim_prefix p (c ∷ s) = if c == p then s else c ∷ s

-- Join at one code point
unfoldable pub join_at : ℕ → List Bytes → Bytes
join_at sep [] = []
join_at sep (s ∷ []) = s
join_at sep (s ∷ t ∷ parts) = s ++ (sep ∷ join_at sep (t ∷ parts))

-- Simple case folding, as far as it meets the letters of ASCII
abbrev pub fold_case : ℕ → ℕ
fold_case c =
    if leb b'A' c && leb c b'Z'
    then c + 32
    else if c == 0x17f
    then b's'
    else if c == 0x212a
    then b'k'
    else c

-- EqualFold with a text in lower-case ASCII
unfoldable pub equal_fold : Bytes → Bytes → Bool
equal_fold [] [] = true
equal_fold [] (d ∷ t) = false
equal_fold (c ∷ s) [] = false
equal_fold (c ∷ s) (d ∷ t) = fold_case c == d && equal_fold s t

-- ToLower, as far as it meets the letters of ASCII
abbrev pub lower_code : ℕ → ℕ
lower_code c =
    if leb b'A' c && leb c b'Z'
    then c + 32
    else if c == 0x130
    then b'i'
    else if c == 0x212a
    then b'k'
    else c

unfoldable pub to_lower : Bytes → Bytes
to_lower s = map lower_code s

-- Of package regexp: `\s`
abbrev pub is_regexp_space : ℕ → Bool
is_regexp_space c = c == b'\t' || c == b'\n' || c == 12 || c == b'\r' || c == b' '
