-- ===== src/Policy.antt =====
-- internal/agent/policy.go: matchGlob and what Evaluate decides about a Bash call. Patterns and commands
-- are bytes.
pub mod Glob
pub mod Writes
mod Examples
use kaos_control.Paths.{dot_dot, is_abs, clean, rel}
use kaos_control.Common.{
  Option, none, some, ◌++◌, same_bytes, starts_with, has, str_eq, Bytes, is_nil, ℕ, Bool, true,
  false, not, ◌&&◌, ◌||◌, ◌==◌, List, [], ◌∷◌, if◌then◌else◌, String,
}

-- The loop over the positions of `s`, with `f` for the call on the rest of the pattern.
pub any_suffix : (Bytes → Bool) → Bytes → Bool
any_suffix f [] = f []
any_suffix f (c ∷ s) = f (c ∷ s) || any_suffix f s

abbrev pub match_byte : ℕ → (Bytes → Bool) → Bytes → Bool
match_byte p f [] = false
match_byte p f (c ∷ s) = if c == p then f s else false

-- matchGlob; 42 is the star.
pub match_glob : Bytes → Bytes → Bool
match_glob [] s = is_nil s
match_glob (p ∷ pattern) s =
    let rest = match_glob pattern in
    if p == 42 then (if is_nil pattern then true else any_suffix rest s) else match_byte p rest s

pub any_match : List Bytes → Bytes → Bool
any_match [] command = false
any_match (pattern ∷ patterns) command = match_glob pattern command || any_match patterns command

-- A Decision by its Rule: `denied_path` and `path_allowed` are the two Actions of the rule allowed_paths.
pub data Decision : Type 0 where
  read_only : Decision
  no_path : Decision
  outside_project : Decision
  denied_path : Decision
  lineage_scope : Decision
  path_allowed : Decision
  bash_denylist : Decision
  bash_allowlist : Decision
  bash_allowed : Decision
  default_allow : Decision

-- Its Action
abbrev pub is_allow : Decision → Bool
is_allow read_only = true
is_allow no_path = true
is_allow path_allowed = true
is_allow bash_allowed = true
is_allow default_allow = true
is_allow _ = false

-- Case 3 of Evaluate
pub evaluate_bash : List Bytes → List Bytes → Bytes → Decision
evaluate_bash denylist allowlist command =
    if any_match denylist command
    then bash_denylist
    else if not (is_nil allowlist) && not (any_match allowlist command)
    then bash_allowlist
    else bash_allowed

-- strings.TrimLeft(s, "/") and strings.TrimRight(s, "/")
unfoldable pub trim_left : Bytes → Bytes
trim_left [] = []
trim_left (c ∷ s) = let rest = trim_left s in if c == 47 then rest else c ∷ s

abbrev pub keep_before : ℕ → Bytes → Bytes
keep_before c [] = if c == 47 then [] else c ∷ []
keep_before c (d ∷ s) = c ∷ d ∷ s

unfoldable pub trim_right : Bytes → Bytes
trim_right [] = []
trim_right (c ∷ s) = keep_before c (trim_right s)

-- pathHasPrefix
unfoldable pub path_has_prefix : Bytes → Bytes → Bool
unfolding trim_left trim_right
path_has_prefix target prefix =
    let t = trim_left target in
    let p = trim_right (trim_left prefix) in
    is_nil prefix || is_nil p || same_bytes t p || starts_with (p ++ 47 ∷ []) t || starts_with p t

unfoldable pub any_prefix : List Bytes → Bytes → Bool
any_prefix [] target = false
any_prefix (p ∷ prefixes) target = path_has_prefix target p || any_prefix prefixes target

pub record PolicyConfig : Type 0 where
  pub project_root : Bytes
  pub allowed_paths : List Bytes
  pub lineage_paths : List Bytes
  pub bash_allowlist : List Bytes
  pub bash_denylist : List Bytes

-- The tests of case 2 on a path that is relative to the project
unfoldable pub evaluate_scope : PolicyConfig → Bytes → Decision
unfolding any_prefix
evaluate_scope cfg path =
    if not (is_nil cfg.allowed_paths) && not (any_prefix cfg.allowed_paths path)
    then denied_path
    else if not (is_nil cfg.lineage_paths) && not (any_prefix cfg.lineage_paths path)
    then lineage_scope
    else path_allowed

abbrev pub evaluate_relative : PolicyConfig → Option Bytes → Decision
evaluate_relative cfg none = outside_project
evaluate_relative cfg (some path) =
    if starts_with dot_dot path then outside_project else evaluate_scope cfg path

-- Case 2 of Evaluate
unfoldable pub evaluate_write : PolicyConfig → Bytes → Decision
unfolding evaluate_scope trim_left
evaluate_write cfg path =
    if is_nil path
    then no_path
    else if is_abs path
    then (if is_nil cfg.project_root
        then outside_project
        else evaluate_relative cfg (rel cfg.project_root (clean path)))
    else evaluate_scope cfg (trim_left path)

abbrev pub read_only_tools : List String
read_only_tools =
    "Read" ∷ "Glob" ∷ "Grep" ∷ "WebFetch" ∷ "WebSearch" ∷ "Agent" ∷ "TodoWrite" ∷ "NotebookEdit"
    ∷ "LS" ∷ []

abbrev pub file_mutating_tools : List String
file_mutating_tools = "Write" ∷ "Edit" ∷ "MultiEdit" ∷ "NotebookWrite" ∷ []

-- Evaluate, on the fields file_path and command of the tool's input, empty where it has none
unfoldable pub evaluate : PolicyConfig → String → Bytes → Bytes → Decision
unfolding evaluate_write
evaluate cfg tool path command =
    if has tool read_only_tools
    then read_only
    else if has tool file_mutating_tools
    then evaluate_write cfg path
    else if str_eq tool "Bash"
    then evaluate_bash cfg.bash_denylist cfg.bash_allowlist command
    else default_allow
