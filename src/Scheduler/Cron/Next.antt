-- ===== src/Scheduler/Cron/Next.antt =====
-- What Next finds: the least matching second after a time.
use kaos_control.Common.{
  ℕ, zero, suc, ◌+◌, ◌*◌, ◌/◌, ◌≡◌, ◌<◌, ◌≤◌, Bool, true, false, ◌&&◌, ◌==◌, ltb, Option, none,
  some, arith, Bool-cases, Option-cases, inl, inr, refl, subst,
}
use kaos_control.Scheduler.Cron.{
  bit_set, next_bit, CronSchedule, Calendar, weekday, hour_of, minute_of, second_of, day_after,
  hour_after, minute_after, or_else, advance, search_next, span, next,
}
use kaos_control.Scheduler.Cron.Bits.{next_bit-some, next_bit-least, next_bit-none}

-- The six fields of a time.
pub matches : Calendar → CronSchedule → ℕ → Bool
matches cal c t =
    bit_set c.month (cal.month_of (t / 86400))
    && bit_set c.dom (cal.day_of (t / 86400))
    && bit_set c.dow (weekday t)
    && bit_set c.hour (hour_of t)
    && bit_set c.minute (minute_of t)
    && bit_set c.second (second_of t)

-- What Next relies on in the calendar.
pub record IsCalendar (cal : Calendar) : Type 0 where
  pub later : (d : ℕ) → d < cal.next_month d
  pub same : (d e : ℕ) → d ≤ e → e < cal.next_month d → cal.month_of e ≡ cal.month_of d

-- From `t` to `u`, which is later, nothing matches.
pub record Skips (cal : Calendar) (c : CronSchedule) (t u : ℕ) : Type 0 where
  pub later : t < u
  pub none_between : (v : ℕ) → t ≤ v → v < u → matches cal c v ≡ false

off_from :
    (mask h w : ℕ)
    → bit_set mask h ≡ false
    → (h < w → bit_set mask w ≡ false)
    → h ≤ w
    → bit_set mask w ≡ false
off_from mask h w off above le = elim (Bool-cases (h == w)) [
  | inl e ↦ ground arith
  | inr e ↦ above (ground arith)
]

module _ (cal : Calendar) (c : CronSchedule) (t : ℕ) where
  skip_month :
      IsCalendar cal
      → bit_set c.month (cal.month_of (t / 86400)) ≡ false
      → Skips cal c t (cal.next_month (t / 86400) * 86400)
  unfolding matches
  skip_month law off = record {
    later = omega (arith, law.later (t / 86400));
    none_between = λ v h k.
        rw (law.same (t / 86400) (v / 86400) (omega (arith, h)) (omega (arith, k)), off) refl;
  }

  same_day : (v : ℕ) → t ≤ v → v < day_after t → v / 86400 ≡ t / 86400
  same_day v h k = omega arith

  skip_dom : bit_set c.dom (cal.day_of (t / 86400)) ≡ false → Skips cal c t (day_after t)
  unfolding matches
  skip_dom off = record {
    later = omega arith;
    none_between = λ v h k. rw (same_day v h k) (ground arith);
  }

  skip_dow : bit_set c.dow (weekday t) ≡ false → Skips cal c t (day_after t)
  unfolding matches
  skip_dow off = record {
    later = omega arith;
    none_between = λ v h k. rw (same_day v h k) (ground arith);
  }

  hour_off : (v : ℕ) → bit_set c.hour (hour_of v) ≡ false → matches cal c v ≡ false
  unfolding matches
  hour_off v off = ground arith

  minute_off : (v : ℕ) → bit_set c.minute (minute_of v) ≡ false → matches cal c v ≡ false
  unfolding matches
  minute_off v off = ground arith

  second_off : (v : ℕ) → bit_set c.second (second_of v) ≡ false → matches cal c v ≡ false
  unfolding matches
  second_off v off = ground arith

  skip_hour :
      bit_set c.hour (hour_of t) ≡ false
      → Skips cal c t (
          or_else
            (next_bit c.hour (hour_of t + 1) 23)
            (λ b. t / 86400 * 86400 + b * 3600)
            (day_after t))
  unfolding matches
  skip_hour off = elim (Option-cases (next_bit c.hour (hour_of t + 1) 23)) [
    | inl e ↦ rw e (record {
      later = omega arith;
      none_between = λ v h k. hour_off v (
          off_from c.hour (hour_of t) (hour_of v) off
            (λ l.
              next_bit-none c.hour (hour_of t + 1) 23 (hour_of v) e (omega (arith, l))
                (omega arith))
            (omega (arith, h, k)));
    })
    | inr (b, e) ↦ rw e (record {
      later = omega (arith, next_bit-some c.hour (hour_of t + 1) 23 b e);
      none_between = λ v h k. hour_off v (
          off_from c.hour (hour_of t) (hour_of v) off
            (λ l.
              next_bit-least c.hour (hour_of t + 1) 23 b (hour_of v) e (omega (arith, l))
                (omega (arith, h, k, next_bit-some c.hour (hour_of t + 1) 23 b e)))
            (omega (arith, h, k, next_bit-some c.hour (hour_of t + 1) 23 b e)));
    })
  ]

  skip_minute :
      bit_set c.minute (minute_of t) ≡ false
      → Skips cal c t (
          or_else
            (next_bit c.minute (minute_of t + 1) 59)
            (λ b. t / 3600 * 3600 + b * 60)
            (hour_after t))
  unfolding matches
  skip_minute off = elim (Option-cases (next_bit c.minute (minute_of t + 1) 59)) [
    | inl e ↦ rw e (record {
      later = omega arith;
      none_between = λ v h k. minute_off v (
          off_from c.minute (minute_of t) (minute_of v) off
            (λ l.
              next_bit-none c.minute (minute_of t + 1) 59 (minute_of v) e (omega (arith, l))
                (omega arith))
            (omega (arith, h, k)));
    })
    | inr (b, e) ↦ rw e (record {
      later = omega (arith, next_bit-some c.minute (minute_of t + 1) 59 b e);
      none_between = λ v h k. minute_off v (
          off_from c.minute (minute_of t) (minute_of v) off
            (λ l.
              next_bit-least c.minute (minute_of t + 1) 59 b (minute_of v) e (omega (arith, l))
                (omega (arith, h, k, next_bit-some c.minute (minute_of t + 1) 59 b e)))
            (omega (arith, h, k, next_bit-some c.minute (minute_of t + 1) 59 b e)));
    })
  ]

  skip_second :
      bit_set c.second (second_of t) ≡ false
      → Skips cal c t
          (or_else (next_bit c.second (second_of t + 1) 59) (λ b. t / 60 * 60 + b) (minute_after t))
  unfolding matches
  skip_second off = elim (Option-cases (next_bit c.second (second_of t + 1) 59)) [
    | inl e ↦ rw e (record {
      later = omega arith;
      none_between = λ v h k. second_off v (
          off_from c.second (second_of t) (second_of v) off
            (λ l.
              next_bit-none c.second (second_of t + 1) 59 (second_of v) e (omega (arith, l))
                (omega arith))
            (omega (arith, h, k)));
    })
    | inr (b, e) ↦ rw e (record {
      later = omega (arith, next_bit-some c.second (second_of t + 1) 59 b e);
      none_between = λ v h k. second_off v (
          off_from c.second (second_of t) (second_of v) off
            (λ l.
              next_bit-least c.second (second_of t + 1) 59 b (second_of v) e (omega (arith, l))
                (omega (arith, h, k, next_bit-some c.second (second_of t + 1) 59 b e)))
            (omega (arith, h, k, next_bit-some c.second (second_of t + 1) 59 b e)));
    })
  ]

-- What one round of the loop does.
abbrev IsRound : Calendar → CronSchedule → ℕ → Option ℕ → Type 0
IsRound cal c t none = matches cal c t ≡ true
IsRound cal c t (some u) = Skips cal c t u

all_six :
    (cal : Calendar) (c : CronSchedule) (t : ℕ)
    → bit_set c.month (cal.month_of (t / 86400)) ≡ true
    → bit_set c.dom (cal.day_of (t / 86400)) ≡ true
    → bit_set c.dow (weekday t) ≡ true
    → bit_set c.hour (hour_of t) ≡ true
    → bit_set c.minute (minute_of t) ≡ true
    → bit_set c.second (second_of t) ≡ true
    → matches cal c t ≡ true
unfolding matches
all_six cal c t a b d h m s = rw (a, b, d, h, m, s) refl

advance-IsRound :
    (cal : Calendar) (c : CronSchedule) (t : ℕ) → IsCalendar cal → IsRound cal c t (advance cal c t)
unfolding advance
advance-IsRound cal c t law = elim (Bool-cases (bit_set c.month (cal.month_of (t / 86400)))) [
  | inr a ↦ rw a (skip_month cal c t law a)
  | inl a ↦ elim (Bool-cases (bit_set c.dom (cal.day_of (t / 86400)))) [
    | inr b ↦ rw (a, b) (skip_dom cal c t b)
    | inl b ↦ elim (Bool-cases (bit_set c.dow (weekday t))) [
      | inr d ↦ rw (a, b, d) (skip_dow cal c t d)
      | inl d ↦ elim (Bool-cases (bit_set c.hour (hour_of t))) [
        | inr h ↦ rw (a, b, d, h) (skip_hour cal c t h)
        | inl h ↦ elim (Bool-cases (bit_set c.minute (minute_of t))) [
          | inr m ↦ rw (a, b, d, h, m) (skip_minute cal c t m)
          | inl m ↦ elim (Bool-cases (bit_set c.second (second_of t))) [
            | inr s ↦ rw (a, b, d, h, m, s) (skip_second cal c t s)
            | inl s ↦ rw (a, b, d, h, m, s) (all_six cal c t a b d h m s)
          ]
        ]
      ]
    ]
  ]
]

advance-some :
    (cal : Calendar) (c : CronSchedule) (t u : ℕ)
    → IsCalendar cal
    → advance cal c t ≡ some u
    → Skips cal c t u
advance-some cal c t u law e = subst (IsRound cal c t) e (advance-IsRound cal c t law)

-- `u` is the least match from `t` on.
pub record IsLeast (cal : Calendar) (c : CronSchedule) (t u : ℕ) : Type 0 where
  pub from : t ≤ u
  pub match_here : matches cal c u ≡ true
  pub none_before : (v : ℕ) → t ≤ v → v < u → matches cal c v ≡ false

then_IsLeast :
    (cal : Calendar) (c : CronSchedule) (t u w : ℕ)
    → Skips cal c t u
    → IsLeast cal c u w
    → IsLeast cal c t w
then_IsLeast cal c t u w s l = record {
  from = omega (arith, s.later, l.from);
  match_here = l.match_here;
  none_before = λ v h k. elim (Bool-cases (ltb v u)) [
    | inl e ↦ s.none_between v h (ground arith)
    | inr e ↦ l.none_before v (ground arith) k
  ];
}

-- What the search says up to `deadline`.
abbrev IsFound : Calendar → CronSchedule → ℕ → ℕ → Option ℕ → Type 0
IsFound cal c deadline t none = (v : ℕ) → t ≤ v → v < deadline → matches cal c v ≡ false
IsFound cal c deadline t (some u) = IsLeast cal c t u

then_IsFound :
    (cal : Calendar) (c : CronSchedule) (deadline t u : ℕ) (o : Option ℕ)
    → Skips cal c t u
    → IsFound cal c deadline u o
    → IsFound cal c deadline t o
then_IsFound cal c deadline t u none s f = λ v h k. elim (Bool-cases (ltb v u)) [
  | inl e ↦ s.none_between v h (ground arith)
  | inr e ↦ f v (ground arith) k
]
then_IsFound cal c deadline t u (some w) s f = then_IsLeast cal c t u w s f

search_next-IsFound :
    (cal : Calendar) (c : CronSchedule) (deadline fuel t : ℕ)
    → IsCalendar cal
    → deadline ≤ t + fuel
    → IsFound cal c deadline t (search_next cal c deadline fuel t)
unfolding search_next
search_next-IsFound cal c deadline zero t law enough = λ v h k. ground arith
search_next-IsFound cal c deadline (suc fuel) t law enough = elim (Bool-cases (ltb t deadline)) [
  | inr e ↦ rw e (λ v h k. ground arith)
  | inl e ↦ elim (Option-cases (advance cal c t)) [
    | inl a ↦
        rw (e, a)
          (record {
            from = omega arith;
            match_here = subst (IsRound cal c t) a (advance-IsRound cal c t law);
            none_before = λ v h k. ground arith;
          })
    | inr (u, a) ↦
        let s = advance-some cal c t u law a in
        rw (e, a)
          (then_IsFound cal c deadline t u (search_next cal c deadline fuel u) s
            (search_next-IsFound cal c deadline fuel u law (omega (arith, enough, s.later))))
  ]
]

-- In a location whose clock is never changed, such as UTC: where Next answers, it answers the first second strictly after `now` whose fields are all in the
-- masks, provided the next month begins after each day of this one and the days between have its
-- month. `now` is in nanoseconds.
pub next-some :
    (cal : Calendar) (c : CronSchedule) (now u : ℕ)
    → IsCalendar cal
    → next cal c now ≡ some u
    → (now < u * 1000000000)
      × (matches cal c u ≡ true)
      × ((v : ℕ) → now < v * 1000000000 → v < u → matches cal c v ≡ false)
unfolding next
next-some cal c now u law e =
    let start = now / 1000000000 + 1 in
    let l : IsLeast cal c start u =
      subst (IsFound cal c (start + span) start) e
        (search_next-IsFound cal c (start + span) span start law (omega arith)) in
    (omega (arith, l.from), l.match_here, λ v h k. l.none_before v (omega (arith, h)) k)

-- In a location whose clock is never changed, such as UTC: where Next answers the zero time, no second of the four years of 365 days after `now` matches,
-- under the same conditions on the calendar: the rounds of the loop are enough.
pub next-none :
    (cal : Calendar) (c : CronSchedule) (now : ℕ)
    → IsCalendar cal
    → next cal c now ≡ none
    → (v : ℕ) → now < v * 1000000000
    → v ≤ now / 1000000000 + span
    → matches cal c v ≡ false
unfolding next
next-none cal c now law e v h k =
    let start = now / 1000000000 + 1 in
    subst (IsFound cal c (start + span) start) e
      (search_next-IsFound cal c (start + span) span start law (omega arith)) v (omega (arith, h))
      (omega (arith, k))
