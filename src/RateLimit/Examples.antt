-- ===== src/RateLimit/Examples.antt =====
-- Texts of rate limits, and the witnesses.
use kaos_control.Common.{
  ℕ, ◌+◌, ◌*◌, ◌<◌, ◌≡◌, refl, none, some, ◌++◌, codes, if◌then◌else◌, Bytes, arith, take_digits,
  digits_value, same_bytes,
}
use kaos_control.Strings.{to_lower, drop_start}
use kaos_control.RateLimit.{
  Time, second, minute, day, find, match_word, match_spaces, match_two_digits, match_hour,
  match_minute, match_half, match_resets, take_zone, match_resets_zone, atoi, to_24_hours,
  parse_hour_minute,
}
use kaos_control.RateLimit.Reset.{
  match_form, match_stamp, match_retry, parse_retry_after, Times, parse_rfc3339, next_occurrence,
  parse_resets_with_tz, parse_resets_local, parse_reset_time,
}
use kaos_control.RateLimit.Clock.{KeepsTime, IsReset, parse_reset_time-IsReset}
use kaos_control.RateLimit.Retry.{retry_text, parse_retry_after_lem, retry_in_the_past}

-- One location; its midnight is time 0, and now is ten o'clock.
abbrev times : Times
times = record {
  Location = ℕ;
  parse_rfc3339 = λ m. some 7;
  parse_rfc3339_nano = λ m. none;
  load_location = λ z. if same_bytes z (codes "UTC") then some 0 else none;
  location = 0;
  date = λ loc now h m. 0 + (h * 60 + m) * minute;
}

abbrev now : Time
now = 600 * minute

keeps : (loc : ℕ) → KeepsTime times now loc
keeps loc = record {
  midnight = 0;
  begun = omega arith;
  goes_on = omega arith;
  clock = λ h m hl ml. refl;
}

abbrev text : Bytes
text = codes "You hit a limit, resets 8:30PM (UTC)."

read : parse_reset_time times text now ≡ some (1230 * minute)
unfolding parse_reset_time parse_rfc3339 parse_retry_after parse_resets_with_tz find match_stamp
    match_form match_retry match_word match_resets_zone match_resets match_spaces match_hour
    match_minute match_two_digits match_half take_zone parse_hour_minute to_24_hours atoi
    digits_value to_lower same_bytes drop_start next_occurrence take_digits
read = refl

parse_reset_time-IsReset_example : IsReset times now keeps text (1230 * minute)
parse_reset_time-IsReset_example =
    parse_reset_time-IsReset times now keeps text (1230 * minute) read

-- A zone that is not known is no time of the local clock.
unknown_zone : parse_reset_time times (codes "resets 8pm (Bad)") now ≡ none
unfolding parse_reset_time parse_rfc3339 parse_retry_after parse_resets_with_tz find match_stamp
    match_form match_retry match_word match_resets_zone match_resets match_spaces match_hour
    match_minute match_two_digits match_half take_zone parse_hour_minute to_24_hours atoi
    digits_value to_lower same_bytes drop_start next_occurrence take_digits
unknown_zone = refl

-- Nine in the morning is past: it is tomorrow's.
tomorrow : parse_reset_time times (codes "reset 9am") now ≡ some (540 * minute + day)
unfolding parse_reset_time parse_rfc3339 parse_retry_after parse_resets_local find match_stamp
    match_form match_retry match_word match_resets_zone match_resets match_spaces match_hour
    match_minute match_two_digits match_half take_zone parse_hour_minute to_24_hours atoi
    digits_value to_lower same_bytes drop_start next_occurrence take_digits
tomorrow = refl

parse_retry_after_lem_example :
    parse_retry_after (codes "429: " ++ retry_text 90) now ≡ some (now + 90 * second)
parse_retry_after_lem_example =
    parse_retry_after_lem (codes "429: ") 90 now (refl, (refl, (refl, (refl, (refl, tt)))))
      (omega arith)

retry_in_the_past_example :
    (t : Time) × (parse_retry_after (codes "" ++ retry_text 10000000000) now ≡ some t) × (t < now)
retry_in_the_past_example =
    retry_in_the_past (codes "") 10000000000 now tt (omega arith) (omega arith) (omega arith)
