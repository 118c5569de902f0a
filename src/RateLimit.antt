-- ===== src/RateLimit.antt =====
-- internal/queue/parser.go: the time at which a rate limit ends, read from the text of the message. A text is
-- its code points, a time its nanoseconds since Go's zero time, and a duration wraps around as an int64. The
-- regular expressions are the searches they stand for: each start of the text is tried, and behind it every
-- part is the longest it can be, since no shorter one is followed by what comes next. time.Parse,
-- time.LoadLocation and time.Date on the day of a time are parameters.
pub mod Reset
pub mod Clock
pub mod Retry
mod Examples
use kaos_control.Common.{
  ℕ, zero, suc, ◌+◌, ◌-◌, ◌*◌, ◌%◌, ◌^◌, Bool, true, false, not, ◌&&◌, ◌||◌, ◌==◌, leb, ltb, Option,
  none, some, List, [], ◌∷◌, ◌++◌, codes, if◌then◌else◌, Bytes, is_nil, is_digit, digits_value,
  take_digits, same_bytes,
}
use kaos_control.Strings.{drop_start, fold_case, to_lower, is_regexp_space}

abbrev pub Time : Type 0
Time = ℕ

abbrev pub second : ℕ
second = 1000000000

abbrev pub minute : ℕ
minute = 60 * second

abbrev pub day : ℕ
day = 24 * 60 * minute

-- now.Add(d) for a duration d computed as an int64
unfoldable pub add : Time → ℕ → Time
add now d = if ltb (d % 2 ^ 64) (2 ^ 63) then now + d % 2 ^ 64 else now - (2 ^ 64 - d % 2 ^ 64)

infixl 5 ◌>>=◌
abbrev pub ◌>>=◌ {ℓ κ} : {A : Type ℓ} → {B : Type κ} → Option A → (A → Option B) → Option B
none >>= f = none
some a >>= f = f a

-- A match: its group and what follows it
abbrev pub Match {ℓ} : Type ℓ → Type ℓ
Match A = Option (A × Bytes)

abbrev pub or_else {ℓ} : {A : Type ℓ} → Option A → Option A → Option A
or_else none b = b
or_else (some a) b = some a

-- The leftmost match
unfoldable pub find {ℓ} : {A : Type ℓ} → (Bytes → Option A) → Bytes → Option A
find m [] = m []
find m (c ∷ s) = let rest = find m s in or_else (m (c ∷ s)) rest

abbrev pub onto_match : ℕ → Match Bytes → Match Bytes
onto_match c none = none
onto_match c (some (t, s)) = some (c ∷ t, s)

-- `(?i)` and a word of small letters: what stands there
unfoldable pub match_word : Bytes → Bytes → Match Bytes
match_word [] s = some ([], s)
match_word (w ∷ word) [] = none
match_word (w ∷ word) (c ∷ s) =
    let rest = match_word word s in if fold_case c == w then onto_match c rest else none

-- `\s+`
unfoldable pub match_spaces : Bytes → Option Bytes
unfolding drop_start
match_spaces [] = none
match_spaces (c ∷ s) = if is_regexp_space c then some (drop_start is_regexp_space s) else none

-- `(?i)s?`
abbrev pub skip_s : Bytes → Bytes
skip_s [] = []
skip_s (c ∷ s) = if fold_case c == b's' then s else c ∷ s

abbrev pub match_code : ℕ → Bytes → Option Bytes
match_code d [] = none
match_code d (c ∷ s) = if c == d then some s else none

-- `\d+`
abbrev pub some_digits : Bytes × Bytes → Match Bytes
some_digits ([], s) = none
some_digits (c ∷ d, s) = some (c ∷ d, s)

-- `\d{2}`
unfoldable pub match_two_digits : Bytes → Match Bytes
match_two_digits (c ∷ d ∷ s) = if is_digit c && is_digit d then some (c ∷ d ∷ [], s) else none
match_two_digits _ = none

-- `\d{1,2}`
unfoldable pub match_hour : Bytes → Match Bytes
match_hour [] = none
match_hour (c ∷ []) = if is_digit c then some (c ∷ [], []) else none
match_hour (c ∷ d ∷ s) =
    if is_digit c then if is_digit d then some (c ∷ d ∷ [], s) else some (c ∷ [], d ∷ s) else none

-- `(?::(\d{2}))?`: without a colon the group is empty, and behind a colon without digits nothing matches
unfoldable pub match_minute : Bytes → Match Bytes
unfolding match_two_digits
match_minute [] = some ([], [])
match_minute (c ∷ s) = if c == b':' then match_two_digits s else some ([], c ∷ s)

-- `([ap]m)`
unfoldable pub match_half : Bytes → Match Bytes
match_half (c ∷ d ∷ s) =
    if (fold_case c == b'a' || fold_case c == b'p') && fold_case d == b'm'
    then some (c ∷ d ∷ [], s)
    else none
match_half _ = none

pub record ClockText : Type 0 where
  pub hour : Bytes
  pub minute : Bytes
  pub half : Bytes

-- resetsLocalRE at the start of a text
unfoldable pub match_resets : Bytes → Match ClockText
unfolding match_word match_spaces match_hour match_minute match_half
match_resets s = do
  (_, s) ← match_word (codes "reset") s
  s ← match_spaces (skip_s s)
  (h, s) ← match_hour s
  (m, s) ← match_minute s
  (p, s) ← match_half s
  some (record { hour = h; minute = m; half = p }, s)

-- `([^)]+)\)`
unfoldable pub take_zone : Bytes → Match Bytes
take_zone [] = none
take_zone (c ∷ s) = let rest = take_zone s in if c == b')' then some ([], s) else onto_match c rest

abbrev pub not_empty : Match Bytes → Match Bytes
not_empty none = none
not_empty (some ([], s)) = none
not_empty (some (c ∷ t, s)) = some (c ∷ t, s)

-- resetsWithTZRE at the start of a text
unfoldable pub match_resets_zone : Bytes → Option (ClockText × Bytes)
unfolding match_resets match_spaces take_zone
match_resets_zone s = do
  (t, s) ← match_resets s
  s ← match_spaces s
  s ← match_code b'(' s
  (z, s) ← not_empty (take_zone s)
  some (t, z)

-- Atoi of digits
unfoldable pub atoi : Bytes → Option ℕ
unfolding digits_value
atoi s = do n ← digits_value 0 s; if ltb n (2 ^ 63) then some n else none

abbrev pub minute_of : Bytes → Option ℕ
minute_of [] = some 0
minute_of (c ∷ s) = do m ← atoi (c ∷ s); if ltb 59 m then none else some m

-- The switch of parseHourMinute
unfoldable pub to_24_hours : ℕ → ℕ → Bytes → Option (ℕ × ℕ)
unfolding to_lower same_bytes
to_24_hours h m half =
    if same_bytes (to_lower half) (codes "am")
    then some (if h == 12 then 0 else h, m)
    else if same_bytes (to_lower half) (codes "pm")
    then some (if h == 12 then h else h + 12, m)
    else none

-- parseHourMinute
unfoldable pub parse_hour_minute : ClockText → Option (ℕ × ℕ)
unfolding atoi to_24_hours
parse_hour_minute t = do
  h ← atoi t.hour
  h ← (if ltb h 1 || ltb 12 h then none else some h)
  m ← minute_of t.minute
  to_24_hours h m t.half
