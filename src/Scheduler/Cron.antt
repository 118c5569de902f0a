-- ===== src/Scheduler/Cron.antt =====
-- internal/scheduler/schedule.go: the cron masks and the search of Next.
-- A time is UTC, in seconds from the epoch, and the calendar (which month and day of the month
-- a day has, and on which day the next month begins) is the `time` package's, a parameter.
pub mod Bits
mod Masks
pub mod Fields
pub mod Next
use kaos_control.Common.{
  ℕ, zero, suc, ◌+◌, ◌-◌, ◌*◌, ◌/◌, ◌%◌, ◌^◌, ◌≡◌, ◌<◌, ◌≤◌, Bool, true, false, not, ◌&&◌, ◌==◌,
  ltb, Option, none, some, if◌then◌else◌, arith,
}

-- bitSet and bitSet64 on a value that is not negative. The mask has 64 bits.
unfoldable pub bit_set : ℕ → ℕ → Bool
bit_set mask v = if ltb v 64 then mask / 2 ^ v % 2 == 1 else false

-- The loop of nextBit64, which has `n` values left from `v` on.
unfoldable pub next_bit_loop : ℕ → ℕ → ℕ → Option ℕ
next_bit_loop mask zero v = none
next_bit_loop mask (suc n) v =
    let rest = next_bit_loop mask n (suc v) in if bit_set mask v then some v else rest

-- nextBit64, with `none` for -1
unfoldable pub next_bit : ℕ → ℕ → ℕ → Option ℕ
next_bit mask from top = next_bit_loop mask (suc top - from) from

-- cronSchedule
pub record CronSchedule : Type 0 where
  pub second : ℕ
  pub minute : ℕ
  pub hour : ℕ
  pub dom : ℕ
  pub month : ℕ
  pub dow : ℕ

-- time.Time's Month and Day on the days from the epoch, and the first day of the month after.
pub record Calendar : Type 0 where
  pub month_of : ℕ → ℕ
  pub day_of : ℕ → ℕ
  pub next_month : ℕ → ℕ

-- The epoch was a Thursday.
abbrev pub weekday : ℕ → ℕ
weekday t = (t / 86400 + 4) % 7

abbrev pub hour_of : ℕ → ℕ
hour_of t = t / 3600 % 24

abbrev pub minute_of : ℕ → ℕ
minute_of t = t / 60 % 60

abbrev pub second_of : ℕ → ℕ
second_of t = t % 60

-- time.Date(y, m, d + 1, 0, 0, 0), and likewise the next hour and the next minute.
abbrev pub day_after : ℕ → ℕ
day_after t = (t / 86400 + 1) * 86400

abbrev pub hour_after : ℕ → ℕ
hour_after t = (t / 3600 + 1) * 3600

abbrev pub minute_after : ℕ → ℕ
minute_after t = (t / 60 + 1) * 60

abbrev pub or_else : Option ℕ → (ℕ → ℕ) → ℕ → ℕ
or_else none f d = d
or_else (some v) f d = f v

-- One round of the loop of Next: `none` where `t` is the answer, or the time to go on with.
unfoldable pub advance : Calendar → CronSchedule → ℕ → Option ℕ
advance cal c t =
    if not (bit_set c.month (cal.month_of (t / 86400)))
    then some (cal.next_month (t / 86400) * 86400)
    else if not (bit_set c.dom (cal.day_of (t / 86400)))
    then some (day_after t)
    else if not (bit_set c.dow (weekday t))
    then some (day_after t)
    else if not (bit_set c.hour (hour_of t))
    then some (
        or_else (next_bit c.hour (hour_of t + 1) 23) (λ h. t / 86400 * 86400 + h * 3600)
          (day_after t))
    else if not (bit_set c.minute (minute_of t))
    then some (
        or_else (next_bit c.minute (minute_of t + 1) 59) (λ m. t / 3600 * 3600 + m * 60)
          (hour_after t))
    else if not (bit_set c.second (second_of t))
    then some
        (or_else (next_bit c.second (second_of t + 1) 59) (λ s. t / 60 * 60 + s) (minute_after t))
    else none

unfoldable pub search_next : Calendar → CronSchedule → ℕ → ℕ → ℕ → Option ℕ
search_next cal c deadline zero t = none
search_next cal c deadline (suc fuel) t =
    if ltb t deadline
    then elim (advance cal c t) [ none ↦ some t | some u ↦ search_next cal c deadline fuel u ]
    else none

-- 4 * 365 days
abbrev pub span : ℕ
span = 126144000

-- Next, from `now` in nanoseconds. Every round moves on by a second at least.
unfoldable pub next : Calendar → CronSchedule → ℕ → Option ℕ
next cal c now = let t = now / 1000000000 + 1 in search_next cal c (t + span) span t
