-- ===== src/Paths.antt =====
-- path/filepath on Unix, as far as the policy uses it: absolute paths, Clean, Rel. A path is its bytes
-- and a clean absolute path the list of its segments; 47 is the slash and 46 the dot.
use kaos_control.Common.{
  Bool, false, ◌||◌, ◌==◌, List, [], ◌∷◌, ◌++◌, Option, none, some, if◌then◌else◌, Bytes, is_nil,
  split, same_bytes,
}

abbrev pub Segments : Type 0
Segments = List Bytes

abbrev pub dot : Bytes
dot = 46 ∷ []

abbrev pub dot_dot : Bytes
dot_dot = 46 ∷ 46 ∷ []

-- IsAbs
abbrev pub is_abs : Bytes → Bool
is_abs [] = false
is_abs (c ∷ s) = c == 47

unfoldable pub without_last : Segments → Segments
without_last [] = []
without_last (s ∷ []) = []
without_last (s ∷ t ∷ path) = s ∷ without_last (t ∷ path)

-- Clean on the segments of an absolute path, with `out` for those before them
unfoldable pub clean_segments : Segments → Segments → Segments
unfolding without_last
clean_segments out [] = out
clean_segments out (s ∷ path) =
    let up = clean_segments (without_last out) path in
    let down = clean_segments (out ++ s ∷ []) path in
    let here = clean_segments out path in
    if is_nil s || same_bytes s dot then here else if same_bytes s dot_dot then up else down

unfoldable pub clean : Bytes → Segments
unfolding clean_segments
clean path = clean_segments [] (split 47 path)

unfoldable pub join : Segments → Bytes
join [] = []
join (s ∷ []) = s
join (s ∷ t ∷ path) = s ++ (47 ∷ join (t ∷ path))

unfoldable pub up_from : Segments → Segments → Segments
up_from [] target = target
up_from (b ∷ base) target = dot_dot ∷ up_from base target

unfoldable pub rel_segments : Segments → Segments → Segments
unfolding up_from
rel_segments [] target = target
rel_segments (b ∷ base) [] = up_from (b ∷ base) []
rel_segments (b ∷ base) (t ∷ target) =
    let rest = rel_segments base target in
    if same_bytes b t then rest else up_from (b ∷ base) (t ∷ target)

abbrev pub or_dot : Segments → Bytes
or_dot [] = dot
or_dot (s ∷ path) = join (s ∷ path)

-- Rel of an absolute base and a clean absolute target: an error where the base is not absolute
unfoldable pub rel : Bytes → Segments → Option Bytes
unfolding clean rel_segments join
rel base target = if is_abs base then some (or_dot (rel_segments (clean base) target)) else none
