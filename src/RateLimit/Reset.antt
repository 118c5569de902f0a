-- ===== src/RateLimit/Reset.antt =====
-- internal/queue/parser.go: the four forms of a reset time, and ParseResetTime.
use kaos_control.Common.{
  ℕ, ◌+◌, ◌*◌, Bool, true, false, ◌||◌, ◌==◌, ltb, Option, none, some, [], ◌∷◌, ◌++◌, codes,
  if◌then◌else◌, Bytes, is_nil, is_digit, take_digits, same_bytes,
}
use kaos_control.Strings.{to_lower}
use kaos_control.RateLimit.{
  ◌>>=◌, Time, second, minute, day, add, Match, or_else, find, match_word, match_spaces,
  some_digits, match_resets, match_resets_zone, atoi, parse_hour_minute, onto_match,
}

-- rfc3339RE: a form is its text with `d` for a digit
unfoldable pub match_form : Bytes → Bytes → Match Bytes
match_form [] s = some ([], s)
match_form (f ∷ form) [] = none
match_form (f ∷ form) (c ∷ s) =
    let rest = match_form form s in
    if (if f == b'd' then is_digit c else c == f) then onto_match c rest else none

abbrev pub append_match : Bytes → Match Bytes → Option Bytes
append_match t none = none
append_match t (some (z, s)) = some (t ++ z)

-- `(?:Z|[+-]\d{2}:\d{2})`
unfoldable pub match_offset : Bytes → Match Bytes
unfolding match_form
match_offset [] = none
match_offset (c ∷ s) =
    if c == b'Z'
    then some (c ∷ [], s)
    else if c == b'+' || c == b'-'
    then onto_match c (match_form (codes "dd:dd") s)
    else none

unfoldable pub match_stamp : Bytes → Option Bytes
unfolding match_form match_offset
match_stamp s = do
  (t, s) ← match_form (codes "dddd-dd-ddTdd:dd:dd") s
  append_match t (match_offset s)

-- retryAfterRE at the start of a text: its groups
unfoldable pub match_retry : Bytes → Option (Bytes × Bytes)
unfolding match_word match_spaces take_digits
match_retry s = do
  (_, s) ← match_word (codes "retry") s
  s ← match_spaces s
  (_, s) ← match_word (codes "after") s
  s ← match_spaces s
  (d, s) ← some_digits (take_digits s)
  s ← match_spaces s
  (u, _) ← or_else (match_word (codes "second") s) (match_word (codes "minute") s)
  some (d, u)

-- The unit's duration; a long s in the unit matches the expression, and no case of the switch.
unfoldable pub unit_of : Bytes → Option ℕ
unfolding to_lower same_bytes
unit_of u =
    if same_bytes (to_lower u) (codes "second")
    then some second
    else if same_bytes (to_lower u) (codes "minute")
    then some minute
    else none

-- parseRetryAfter
unfoldable pub parse_retry_after : Bytes → Time → Option Time
unfolding find match_retry atoi unit_of add
parse_retry_after text now = do
  (d, u) ← find match_retry text
  n ← atoi d
  unit ← unit_of u
  some (add now (n * unit))

-- What the parser is given: time.Parse for two layouts, time.LoadLocation, the location of a time, and
-- time.Date with an hour and a minute on the day that a time has in a location.
pub record Times : Type 1 where
  pub Location : Type 0
  pub parse_rfc3339 : Bytes → Option Time
  pub parse_rfc3339_nano : Bytes → Option Time
  pub load_location : Bytes → Option Location
  pub location : Location
  pub date : Location → Time → ℕ → ℕ → Time

abbrev pub is_match {ℓ} : {A : Type ℓ} → Option A → Bool
is_match none = false
is_match (some a) = true

module _ (ts : Times) where
  -- parseRFC3339
  unfoldable pub parse_rfc3339 : Bytes → Option Time
  unfolding find match_stamp
  parse_rfc3339 text = do
    m ← find match_stamp text
    or_else (ts.parse_rfc3339 m) (ts.parse_rfc3339_nano m)

  -- nextOccurrence
  unfoldable pub next_occurrence : ℕ → ℕ → ts.Location → Time → Time
  next_occurrence h m loc now =
      let candidate = ts.date loc now h m in
      if ltb now candidate then candidate else candidate + day

  -- parseResetsWithTZ
  unfoldable pub parse_resets_with_tz : Bytes → Time → Option Time
  unfolding find match_resets_zone parse_hour_minute next_occurrence
  parse_resets_with_tz text now = do
    (t, z) ← find match_resets_zone text
    (h, m) ← parse_hour_minute t
    loc ← ts.load_location z
    some (next_occurrence h m loc now)

  -- parseResetsLocal
  unfoldable pub parse_resets_local : Bytes → Time → Option Time
  unfolding find match_resets parse_hour_minute next_occurrence
  parse_resets_local text now = do
    (t, _) ← find match_resets text
    (h, m) ← parse_hour_minute t
    some (next_occurrence h m ts.location now)

  -- ParseResetTime
  unfoldable pub parse_reset_time : Bytes → Time → Option Time
  unfolding parse_rfc3339 parse_retry_after parse_resets_with_tz parse_resets_local find
      match_resets_zone
  parse_reset_time text now =
      if is_nil text
      then none
      else or_else (parse_rfc3339 text) (
          or_else (parse_retry_after text now) (
            if is_match (find match_resets_zone text)
            then parse_resets_with_tz text now
            else parse_resets_local text now))
