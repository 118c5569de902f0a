-- ===== src/Policy/Examples.antt =====
-- The policy's theorems at concrete inputs.
use kaos_control.Paths.{
  Segments, is_abs, clean, clean_segments, without_last, rel, rel_segments, up_from, join, or_dot,
}
use kaos_control.Policy.Writes.{InScope, absolute_inside, relative_textual}
use kaos_control.Common.{
  refl, ◌++◌, Memᴰ, codes, split, same_bytes, starts_with, Bytes, ◌≡◌, ◌↔◌, ◌⊎◌, true, [], ◌∷◌,
}
use kaos_control.Policy.{
  is_allow, evaluate_bash, PolicyConfig, path_allowed, evaluate_write, evaluate_scope, any_prefix,
  path_has_prefix, trim_left, trim_right,
}
use kaos_control.Policy.Glob.{AnyMatches, evaluate_bash_iff}

-- "git *"
abbrev git_star : Bytes
git_star = 103 ∷ 105 ∷ 116 ∷ 32 ∷ 42 ∷ []

-- "*-f*"
abbrev forced : Bytes
forced = 42 ∷ 45 ∷ 102 ∷ 42 ∷ []

-- "git -f"
abbrev git_force : Bytes
git_force = 103 ∷ 105 ∷ 116 ∷ 32 ∷ 45 ∷ 102 ∷ []

evaluate_bash_iff_example :
    (is_allow (evaluate_bash (forced ∷ []) (git_star ∷ []) git_force) ≡ true) ↔ (
      (AnyMatches (forced ∷ []) git_force → ⊥)
      × ((git_star ∷ [] ≡ []) ⊎ AnyMatches (git_star ∷ []) git_force))
evaluate_bash_iff_example = evaluate_bash_iff (forced ∷ []) (git_star ∷ []) git_force

abbrev config : PolicyConfig
config = record {
  project_root = codes "/home/p/";
  allowed_paths = codes "internal/" ∷ [];
  lineage_paths = [];
  bash_allowlist = [];
  bash_denylist = [];
}

abbrev inner : Bytes
inner = codes "/home/p/./internal/x.go"

inner_allowed : is_allow (evaluate_write config inner) ≡ true
unfolding evaluate_write evaluate_scope any_prefix path_has_prefix trim_left trim_right rel clean
    clean_segments without_last rel_segments up_from join split same_bytes starts_with
inner_allowed = refl

absolute_inside_example :
    (is_abs config.project_root ≡ true)
    × (rest : Segments) × (clean inner ≡ clean config.project_root ++ rest)
    × InScope config (or_dot rest)
absolute_inside_example = absolute_inside config inner refl inner_allowed

relative_textual_example :
    evaluate_write config (codes "internal/" ++ codes "../../../etc/passwd") ≡ path_allowed
relative_textual_example =
    relative_textual config 105 (codes "nternal/") (codes "../../../etc/passwd") refl
      (Memᴰ.head refl) refl
