-- ===== src/Sandbox/Examples.antt =====
-- A project with one file and one link, and the witness.
use kaos_control.Common.{
  false, none, some, [], ◌∷◌, ◌≡◌, ◌⊎◌, refl, codes, if◌then◌else◌, ok, err, same_bytes, split,
}
use kaos_control.Paths.{Segments, is_abs, clean_segments, without_last}
use kaos_control.Sandbox.{
  path_traversal, Links, clean_relative, same_path, begins_with, has_prefix, from_last, walk,
  reversed, resolve,
}
use kaos_control.Sandbox.Inside.{In, Nearest, target, resolve_lem}

abbrev root : Segments
root = codes "p" ∷ []

abbrev file : Segments
file = codes "p" ∷ codes "a.md" ∷ []

-- The root and one file exist, and /p/out leads out of the root.
abbrev links : Links
links path =
    if same_path path root
    then some root
    else if same_path path file
    then some file
    else if same_path path (codes "p" ∷ codes "out" ∷ [])
    then some (codes "etc" ∷ [])
    else none

found : resolve links root (codes "docs/../a.md") ≡ ok file
unfolding resolve clean_relative clean_segments without_last walk reversed from_last has_prefix
    same_path begins_with same_bytes split
found = refl

resolve_lem_example :
    (is_abs (codes "docs/../a.md") ≡ false)
    × (((links (target root (codes "docs/../a.md")) ≡ some file) × In root file)
        ⊎ ((links (target root (codes "docs/../a.md")) ≡ none)
            × (target root (codes "docs/../a.md") ≡ file)
            × Nearest links root file))
resolve_lem_example = resolve_lem links root (codes "docs/../a.md") file found

new_file :
    resolve links root (codes "docs/new.md") ≡ ok (codes "p" ∷ codes "docs" ∷ codes "new.md" ∷ [])
unfolding resolve clean_relative clean_segments without_last walk reversed from_last has_prefix
    same_path begins_with same_bytes split
new_file = refl

out_of_root : resolve links root (codes "out") ≡ err path_traversal
unfolding resolve clean_relative clean_segments without_last walk reversed from_last has_prefix
    same_path begins_with same_bytes split
out_of_root = refl

up : resolve links root (codes "docs/../../p/a.md") ≡ err path_traversal
unfolding resolve clean_relative clean_segments without_last walk reversed from_last has_prefix
    same_path begins_with same_bytes split
up = refl

below_a_link : resolve links root (codes "out/new.md") ≡ err path_traversal
unfolding resolve clean_relative clean_segments without_last walk reversed from_last has_prefix
    same_path begins_with same_bytes split
below_a_link = refl
