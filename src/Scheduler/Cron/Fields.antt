-- ===== src/Scheduler/Cron/Fields.antt =====
-- internal/scheduler/schedule.go: the parsing of a cron expression's fields into masks. Text is its
-- bytes, an int its 64-bit word, and Atoi and the functions on strings are as documented. Atoi's
-- answers are integers in its range. The separation of the fields at white space is strings.Fields'.
pub mod Part
pub mod Field
mod Examples
use Prim.Native.Nat.{bit_or}
use kaos_control.Common.{
  split, Bytes, digits_value, magnitude, ℕ, zero, suc, ◌+◌, ◌-◌, ◌*◌, ◌%◌, ◌^◌, Bool, true, false,
  not, ◌&&◌, ◌||◌, ◌==◌, ltb, leb, Option, none, some, List, [], ◌∷◌, if◌then◌else◌, Result, ok,
  err, ◌>>=◌, ℤ, pos, negsuc, ltb_ℤ, pos_part,
}
use kaos_control.Scheduler.Cron.{CronSchedule}

pub data CronError : Type 0 where
  invalid_step : CronError
  invalid_low : CronError
  invalid_high : CronError
  invalid_value : CronError
  out_of_range : CronError
  wrong_count : CronError

abbrev pub before_with : ℕ → Option (Bytes × Bytes) → Option (Bytes × Bytes)
before_with c none = none
before_with c (some (a, b)) = some (c ∷ a, b)

-- strings.Index for one byte, with the two slices around it
unfoldable pub cut : ℕ → Bytes → Option (Bytes × Bytes)
cut sep [] = none
cut sep (c ∷ s) = let rest = cut sep s in if c == sep then some ([], s) else before_with c rest

abbrev pub negative : ℕ → ℤ
negative zero = pos 0
negative (suc n) = negsuc n

abbrev pub if_positive : Option ℕ → Option ℤ
if_positive none = none
if_positive (some n) = if ltb n (2 ^ 63) then some (pos n) else none

abbrev pub if_negative : Option ℕ → Option ℤ
if_negative none = none
if_negative (some n) = if leb n (2 ^ 63) then some (negative n) else none

-- strconv.Atoi; 43 and 45 are the signs.
unfoldable pub atoi : Bytes → Option ℤ
unfolding magnitude
atoi [] = none
atoi (c ∷ s) =
    if c == 43
    then if_positive (magnitude s)
    else if c == 45
    then if_negative (magnitude s)
    else if_positive (magnitude (c ∷ s))

-- The step and what is left of the part; 47 is the slash.
unfoldable pub step_of : Bytes → Result CronError (ℕ × Bytes)
unfolding cut atoi
step_of part = elim (cut 47 part) [
  | none ↦ ok (1, part)
  | some (a, b) ↦ elim (atoi b) [
    | none ↦ err invalid_step
    | some (negsuc n) ↦ err invalid_step
    | some (pos zero) ↦ err invalid_step
    | some (pos (suc n)) ↦ ok (suc n, a)
  ]
]

abbrev pub is_star : Bytes → Bool
is_star [] = false
is_star (c ∷ []) = c == 42
is_star (c ∷ d ∷ s) = false

-- lo and hi; 45 is the dash.
unfoldable pub ends_of : Bytes → ℕ → ℕ → Result CronError (ℤ × ℤ)
unfolding cut atoi
ends_of part least most = if is_star part then ok (pos least, pos most) else elim (cut 45 part) [
  | some (a, b) ↦ elim (atoi a) [
    | none ↦ err invalid_low
    | some lo ↦ elim (atoi b) [ none ↦ err invalid_high | some hi ↦ ok (lo, hi) ]
  ]
  | none ↦ elim (atoi part) [ none ↦ err invalid_value | some v ↦ ok (v, v) ]
]

-- `1 << uint(v)` and `v <= hi` on 64-bit words
abbrev pub shifted : ℕ → ℕ
shifted v = if ltb v 64 then 2 ^ v else 0

abbrev pub is_at_most : ℕ → ℕ → Bool
is_at_most v hi = not (ltb v (2 ^ 63)) || leb v hi

-- The loop of parseOnePart from `v` on
unfoldable pub fill : ℕ → ℕ → ℕ → ℕ → ℕ → ℕ
fill zero step hi v mask = mask
fill (suc n) step hi v mask =
    let rest = fill n step hi ((v + step) % 2 ^ 64) (bit_or mask (shifted v)) in
    if is_at_most v hi then rest else mask

abbrev pub rounds : ℕ
rounds = 130

-- The test of the range and the loop
abbrev pub masked : ℕ → ℕ → ℕ → ℤ → ℤ → Result CronError ℕ
masked step least most lo hi =
    if ltb_ℤ lo (pos least)
      || ltb_ℤ (pos most) lo
      || ltb_ℤ hi (pos least)
      || ltb_ℤ (pos most) hi
      || ltb_ℤ hi lo
    then err out_of_range
    else ok (fill rounds step (pos_part hi) (pos_part lo) 0)

abbrev pub on_ends : ℕ → ℕ → ℕ → Result CronError (ℤ × ℤ) → Result CronError ℕ
on_ends step least most (err e) = err e
on_ends step least most (ok (lo, hi)) = masked step least most lo hi

abbrev pub on_step : ℕ → ℕ → Result CronError (ℕ × Bytes) → Result CronError ℕ
on_step least most (err e) = err e
on_step least most (ok (step, part)) = on_ends step least most (ends_of part least most)

unfoldable pub parse_one_part : Bytes → ℕ → ℕ → Result CronError ℕ
unfolding step_of ends_of fill
parse_one_part part least most = on_step least most (step_of part)

-- The loop of parseCronField over the parts
unfoldable pub parse_parts : List Bytes → ℕ → ℕ → ℕ → Result CronError ℕ
unfolding parse_one_part
parse_parts [] least most mask = ok mask
parse_parts (part ∷ parts) least most mask = do
  m ← parse_one_part part least most
  parse_parts parts least most (bit_or mask m)

-- parseCronField; 44 is the comma.
unfoldable pub parse_cron_field : Bytes → ℕ → ℕ → Result CronError ℕ
unfolding parse_parts split
parse_cron_field field least most = parse_parts (split 44 field) least most 0

-- parseFields behind the field of the second, whose mask it is given
unfoldable pub parse_fields :
    ℕ → Bytes → Bytes → Bytes → Bytes → Bytes → Result CronError CronSchedule
unfolding parse_cron_field
parse_fields second f0 f1 f2 f3 f4 = do
  minute ← parse_cron_field f0 0 59
  hour ← parse_cron_field f1 0 23
  dom ← parse_cron_field f2 1 31
  month ← parse_cron_field f3 1 12
  dow ← parse_cron_field f4 0 6
  ok (record { second = second; minute = minute; hour = hour; dom = dom; month = month; dow = dow })

-- parseCron on the fields of the expression
unfoldable pub parse_cron : List Bytes → Result CronError CronSchedule
unfolding parse_fields parse_cron_field
parse_cron (f0 ∷ f1 ∷ f2 ∷ f3 ∷ f4 ∷ []) = parse_fields 1 f0 f1 f2 f3 f4
parse_cron (f0 ∷ f1 ∷ f2 ∷ f3 ∷ f4 ∷ f5 ∷ []) = do
  second ← parse_cron_field f0 0 59
  parse_fields second f1 f2 f3 f4 f5
parse_cron _ = err wrong_count
