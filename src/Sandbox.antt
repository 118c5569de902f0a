-- ===== src/Sandbox.antt =====
-- internal/sandbox/sandbox.go: Resolve. A path is the list of its segments, and an absolute one is clean; the
-- resolved root is absolute. EvalSymlinks is a parameter: what an absolute path leads to, where it exists.
pub mod Inside
mod Examples
use kaos_control.Common.{
  Bool, true, false, not, ◌&&◌, ◌||◌, ◌==◌, Option, none, some, List, [], ◌∷◌, ◌++◌, if◌then◌else◌,
  Result, ok, err, Bytes, is_nil, same_bytes, split,
}
use kaos_control.Paths.{Segments, dot, dot_dot, is_abs, clean_segments, without_last}

pub data SandboxError : Type 0 where
  path_traversal : SandboxError
  absolute_path : SandboxError
  no_parent : SandboxError

abbrev pub Links : Type 0
Links = Segments → Option Segments

-- The last segment is not one to go up from.
abbrev pub stays_up : Segments → Bool
stays_up [] = true
stays_up (s ∷ []) = same_bytes s dot_dot
stays_up (s ∷ t ∷ path) = stays_up (t ∷ path)

-- Clean of a relative path, with `out` for the segments before
unfoldable pub clean_relative : Segments → Segments → Segments
unfolding same_bytes without_last
clean_relative out [] = out
clean_relative out (s ∷ path) =
    clean_relative
      (if is_nil s || same_bytes s dot
        then out
        else if same_bytes s dot_dot && not (stays_up out)
        then without_last out
        else out ++ s ∷ [])
      path

-- `clean == ".."`, or it begins with it
abbrev pub leaves : Segments → Bool
leaves [] = false
leaves (s ∷ path) = same_bytes s dot_dot

unfoldable pub same_path : Segments → Segments → Bool
unfolding same_bytes
same_path [] [] = true
same_path [] (t ∷ q) = false
same_path (s ∷ p) [] = false
same_path (s ∷ p) (t ∷ q) = same_bytes s t && same_path p q

unfoldable pub begins_with : Segments → Segments → Bool
unfolding same_bytes
begins_with [] path = true
begins_with (r ∷ root) [] = false
begins_with (r ∷ root) (s ∷ path) = same_bytes r s && begins_with root path

-- hasPrefix: the root directory with a slash behind it is the beginning of no clean path.
unfoldable pub has_prefix : Segments → Segments → Bool
unfolding same_path begins_with
has_prefix path root = same_path path root || not (is_nil root) && begins_with root path

abbrev pub checked : Segments → Segments → Segments → Result SandboxError Segments
checked root resolved answer = if has_prefix resolved root then ok answer else err path_traversal

-- An absolute path from its segments, the last one first
unfoldable pub from_last : Segments → Segments
from_last [] = []
from_last (s ∷ last) = from_last last ++ s ∷ []

abbrev pub ancestor_at :
    Segments
    → Segments
    → Result SandboxError Segments
    → Option Segments
    → Result SandboxError Segments
ancestor_at root abs rest none = rest
ancestor_at root abs rest (some resolved) = checked root resolved abs

-- The loop over the ancestors of `abs`, from the one with these segments, the last one first
unfoldable pub walk : Links → Segments → Segments → Segments → Result SandboxError Segments
unfolding from_last has_prefix
walk links root abs [] = ancestor_at root abs (err no_parent) (links [])
walk links root abs (s ∷ last) =
    let rest = walk links root abs last in ancestor_at root abs rest (links (from_last (s ∷ last)))

unfoldable pub reversed : Segments → Segments
reversed [] = []
reversed (s ∷ path) = reversed path ++ s ∷ []

abbrev pub parent_from_last : Segments → Segments
parent_from_last [] = []
parent_from_last (s ∷ last) = last

abbrev pub resolve_abs :
    Links → Segments → Segments → Option Segments → Result SandboxError Segments
resolve_abs links root abs (some resolved) = checked root resolved resolved
resolve_abs links root abs none = walk links root abs (parent_from_last (reversed abs))

abbrev pub resolve_clean : Links → Segments → Segments → Result SandboxError Segments
resolve_clean links root path =
    if leaves path
    then err path_traversal
    else resolve_abs links root (clean_segments root path) (links (clean_segments root path))

-- Resolve
unfoldable pub resolve : Links → Segments → Bytes → Result SandboxError Segments
unfolding clean_relative clean_segments walk reversed has_prefix split
resolve links root user_path =
    if is_abs user_path
    then err absolute_path
    else resolve_clean links root (clean_relative [] (split b'/' user_path))
