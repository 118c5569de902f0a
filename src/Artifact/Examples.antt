-- ===== src/Artifact/Examples.antt =====
-- The names of artifact files at concrete names.
use kaos_control.Common.{
  take_digits, ℕ, take_digits, ◌≡◌, refl, true, none, some, Bytes, codes, List, [], ◌∷◌, arith,
  digits_value, decimal, decimal_loop,
}
use kaos_control.Artifact.{
  parse_filename, match_filename, match_index, match_suffix, all_letters, is_valid_slug,
  match_slug_rest, build_stem, build_filename, stage_suffix, next_index,
}
use kaos_control.Artifact.Filename.{parse_build}

abbrev slug : Bytes
slug = codes "login-2-go"

slug_valid : is_valid_slug slug ≡ true
unfolding is_valid_slug match_slug_rest
slug_valid = refl

be_letters : all_letters (codes "be") ≡ true
unfolding all_letters
be_letters = refl

parse_build_example : parse_filename (build_stem slug 3 (codes "be")) ≡ (slug, 3, codes "be")
parse_build_example =
    parse_build slug 3 (codes "be") slug_valid be_letters (omega arith)
      (λ e. absurd (omega (arith, e)))

name_test : build_filename slug (next_index (some 2)) "backend-plans" ≡ codes "login-2-go-3-be"
unfolding build_filename build_stem stage_suffix decimal decimal_loop kaos_control.Common.str_eq
name_test = refl

-- An originating file whose slug ends in a number is read as the second of another slug.
phase_test :
    parse_filename (build_filename (codes "phase-2") (next_index none) "ideas")
    ≡ (codes "phase", 2, [])
unfolding build_filename build_stem stage_suffix kaos_control.Common.str_eq parse_filename
    match_filename match_index match_suffix take_digits all_letters digits_value
phase_test = refl
