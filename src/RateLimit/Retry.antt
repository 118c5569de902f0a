-- ===== src/RateLimit/Retry.antt =====
-- A wait in seconds, written and read.
use kaos_control.Common.{
  ℕ, ◌+◌, ◌*◌, ◌^◌, ◌≤◌, ◌<◌, ◌≡◌, ◌∙◌, refl, ap, true, false, ◌==◌, some, [], ◌∷◌, ◌++◌, codes,
  Bytes, is_nil, is_digit, take_digits, decimal, arith, All, lt→ltb,
}
use kaos_control.Common.Decimal.{Digits, decimal-Digits, decimal_loop_value, decimal_some}
use kaos_control.Strings.{fold_case, drop_start, is_regexp_space}
use kaos_control.RateLimit.{Time, second, add, find, match_word, match_spaces, atoi}
use kaos_control.RateLimit.Reset.{match_retry, parse_retry_after}

-- No `r` stands in it, small or large.
abbrev pub NoStartOfRetry : Bytes → Type 0
NoStartOfRetry s = All (λ c. (fold_case c == b'r') ≡ false) s

abbrev pub retry_text : ℕ → Bytes
retry_text n = codes "retry after " ++ (decimal n ++ codes " seconds")

find-skip : (pre s : Bytes) → NoStartOfRetry pre → find match_retry (pre ++ s) ≡ find match_retry s
unfolding find match_retry match_word
find-skip [] s h = refl
find-skip (c ∷ pre) s h = rw (h.0, find-skip pre s h.1) refl

take_digits-append :
    (d : Bytes) → Digits d → take_digits (d ++ codes " seconds") ≡ (d, codes " seconds")
unfolding take_digits
take_digits-append [] h = refl
take_digits-append (c ∷ d) h = rw (h.0, take_digits-append d h.1) refl

digit_no_space : (c : ℕ) → is_digit c ≡ true → is_regexp_space c ≡ false
digit_no_space c h = ground (arith, h)

match_retry-written :
    (d : Bytes)
    → Digits d
    → is_nil d ≡ false
    → match_retry (codes "retry after " ++ (d ++ codes " seconds")) ≡ some (d, codes "second")
unfolding match_retry match_word match_spaces drop_start
match_retry-written [] h n = absurd (ground (arith, n))
match_retry-written (c ∷ d) h n = rw (digit_no_space c h.0, take_digits-append (c ∷ d) h) refl

find-written :
    (pre : Bytes) (n : ℕ)
    → NoStartOfRetry pre
    → find match_retry (pre ++ retry_text n) ≡ some (decimal n, codes "second")
unfolding find decimal
find-written pre n h =
    find-skip pre (retry_text n) h
    ∙ found (match_retry-written (decimal n) (decimal-Digits n n (omega arith)) (decimal_some n n))
  where
    found :
        match_retry (retry_text n) ≡ some (decimal n, codes "second")
        → find match_retry (retry_text n) ≡ some (decimal n, codes "second")
    found e = rw e refl

atoi-decimal : (n : ℕ) → n < 2 ^ 63 → atoi (decimal n) ≡ some n
unfolding atoi decimal
atoi-decimal n h = rw (decimal_loop_value n n (omega arith), lt→ltb n (2 ^ 63) h) refl

retry_written :
    (pre : Bytes) (n : ℕ) (now : Time)
    → NoStartOfRetry pre
    → n < 2 ^ 63
    → parse_retry_after (pre ++ retry_text n) now ≡ some (add now (n * second))
unfolding parse_retry_after
retry_written pre n now h l = rw (find-written pre n h, atoi-decimal n l) refl

-- A wait of up to 9223372036 seconds that is written behind "retry after", in a text without another `r` in front, is read as the time that many seconds from now.
pub parse_retry_after_lem :
    (pre : Bytes) (n : ℕ) (now : Time)
    → NoStartOfRetry pre
    → n ≤ 9223372036
    → parse_retry_after (pre ++ retry_text n) now ≡ some (now + n * second)
unfolding add
parse_retry_after_lem pre n now h l =
    retry_written pre n now h (omega arith) ∙ ap some (ground arith)

-- A wait of 9223372037 to 18446744073 seconds overflows its duration: what is read is a time before now.
pub retry_in_the_past :
    (pre : Bytes) (n : ℕ) (now : Time)
    → NoStartOfRetry pre
    → 9223372037 ≤ n
    → n ≤ 18446744073
    → 0 < now
    → (t : Time) × (parse_retry_after (pre ++ retry_text n) now ≡ some t) × (t < now)
unfolding add
retry_in_the_past pre n now h a b p =
    (add now (n * second), retry_written pre n now h (omega arith), ground arith)
