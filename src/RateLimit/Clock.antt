-- ===== src/RateLimit/Clock.antt =====
-- The times that the parser can answer.
use kaos_control.Common.Equal.{same_bytes-eq}
use kaos_control.Strings.{to_lower}
use kaos_control.Common.{
  ap, ◌∙◌, same_bytes, ◌≢◌, codes, ◌%◌, ◌^◌, ◌==◌, ℕ, zero, suc, ◌+◌, ◌*◌, ◌≤◌, ◌<◌, ◌≡◌, ◌⊎◌, inl,
  inr, refl, sym, subst, ◌||◌, ltb, Option, none, some, [], ◌∷◌, if◌then◌else◌, Bytes, is_nil,
  arith, Bool-cases,
}
use kaos_control.RateLimit.{
  ◌>>=◌, Time, minute, day, add, or_else, find, ClockText, match_resets, match_resets_zone, atoi,
  minute_of, parse_hour_minute, to_24_hours,
}
use kaos_control.RateLimit.Reset.{
  match_stamp, match_retry, unit_of, parse_retry_after, Times, parse_rfc3339, next_occurrence,
  parse_resets_with_tz, parse_resets_local, is_match, parse_reset_time,
}

bind_some {ℓ κ} :
    {A : Type ℓ} {B : Type κ} (o : Option A) (f : A → Option B) (b : B)
    → (o >>= f) ≡ some b
    → (a : A) × (o ≡ some a) × (f a ≡ some b)
bind_some none f b h = absurd (ground (arith, h))
bind_some (some a) f b h = (a, refl, h)

or_else-some {ℓ} :
    {A : Type ℓ} (o p : Option A) (a : A)
    → or_else o p ≡ some a
    → (o ≡ some a) ⊎ ((o ≡ none) × (p ≡ some a))
or_else-some none p a h = inr (refl, h)
or_else-some (some b) p a h = inl h

or_else-none {ℓ} : {A : Type ℓ} (o p : Option A) → or_else o p ≡ none → (o ≡ none) × (p ≡ none)
or_else-none none p h = (refl, h)
or_else-none (some b) p h = absurd (ground (arith, h))

-- The minutes are those of the text, or none where it has none.
abbrev pub MinuteOf : Bytes → ℕ → Type 0
MinuteOf [] m = m ≡ 0
MinuteOf (c ∷ s) m = atoi (c ∷ s) ≡ some m

-- The hour and the minute that a text of the twelve-hour clock shows: 12am is midnight, 12pm is noon.
pub record Shows (t : ClockText) (h m : ℕ) : Type 0 where
  pub number : ℕ
  pub its_text : atoi t.hour ≡ some number
  pub not_zero : 1 ≤ number
  pub to_twelve : number ≤ 12
  pub its_minute : MinuteOf t.minute m
  pub below_sixty : m < 60
  pub its_half :
      ((to_lower t.half ≡ codes "am") × (h ≡ number % 12))
      ⊎ ((to_lower t.half ≡ codes "pm") × (h ≡ number % 12 + 12))

minute_bound : (s : Bytes) (m : ℕ) → minute_of s ≡ some m → MinuteOf s m × (m < 60)
minute_bound [] m h = (ground (arith, h), ground (arith, h))
minute_bound (c ∷ s) m h =
    let (n, a, b) = bind_some (atoi (c ∷ s)) (λ m. if ltb 59 m then none else some m) m h in
    (a ∙ ap some (ground (arith, b)), ground (arith, b))

half_of :
    (h m : ℕ) (half : Bytes) (r : ℕ × ℕ)
    → 1 ≤ h
    → h ≤ 12
    → to_24_hours h m half ≡ some r
    → (r.1 ≡ m)
      × (((to_lower half ≡ codes "am") × (r.0 ≡ h % 12))
          ⊎ ((to_lower half ≡ codes "pm") × (r.0 ≡ h % 12 + 12)))
unfolding to_24_hours
half_of h m half r a b e = elim (Bool-cases (same_bytes (to_lower half) (codes "am"))) [
  | inl t ↦
      let q : some ((if h == 12 then 0 else h), m) ≡ some r = rw (to_24_hours, t) at e in
      (second_of _ m r q, inl (same_bytes-eq _ _ t, sym (first_of _ m r q) ∙ morning))
  | inr t ↦ elim (Bool-cases (same_bytes (to_lower half) (codes "pm"))) [
    | inl u ↦
        let q : some ((if h == 12 then h else h + 12), m) ≡ some r = rw (to_24_hours, t, u) at e in
        (second_of _ m r q, inr (same_bytes-eq _ _ u, sym (first_of _ m r q) ∙ evening))
    | inr u ↦ absurd (ground (arith, rw (to_24_hours, t, u) at e))
  ]
]
  where
    first_of : (x y : ℕ) (r : ℕ × ℕ) → some (x, y) ≡ some r → x ≡ r.0
    first_of x y r q = ground (arith, q)

    second_of : (x y : ℕ) (r : ℕ × ℕ) → some (x, y) ≡ some r → r.1 ≡ y
    second_of x y r q = ground (arith, q)

    morning : (if h == 12 then 0 else h) ≡ h % 12
    morning = ground (arith, a, b)

    evening : (if h == 12 then h else h + 12) ≡ h % 12 + 12
    evening = ground (arith, a, b)

clock_reads : (t : ClockText) (h m : ℕ) → parse_hour_minute t ≡ some (h, m) → Shows t h m
unfolding parse_hour_minute
clock_reads t h m e =
    let (a, ea, ra) = bind_some (atoi t.hour) _ (h, m) e in
    let (b, eb, rb) = bind_some (if ltb a 1 || ltb 12 a then none else some a) _ (h, m) ra in
    let (c, ec, rc) = bind_some (minute_of t.minute) _ (h, m) rb in
    let least : 1 ≤ b = ground (arith, eb) in
    let most : b ≤ 12 = ground (arith, eb) in
    let (same, half) = half_of b c t.half (h, m) least most rc in
    let (read, bound) = minute_bound t.minute c ec in
    record {
      number = b;
      its_text = ea ∙ ap some (ground (arith, eb));
      not_zero = least;
      to_twelve = most;
      its_minute = subst (MinuteOf t.minute) (sym same) read;
      below_sixty = subst (λ x. x < 60) (sym same) bound;
      its_half = half;
    }

Shows-bound : (t : ClockText) (h m : ℕ) → Shows t h m → h < 24
Shows-bound t h m s = of_half s.its_half
  where
    of_half :
        ((to_lower t.half ≡ codes "am") × (h ≡ s.number % 12))
          ⊎ ((to_lower t.half ≡ codes "pm") × (h ≡ s.number % 12 + 12))
        → h < 24
    of_half (inl (_, e)) = omega (arith, e)
    of_half (inr (_, e)) = omega (arith, e)

-- A time stands in a day of 24 hours in which the clock of a location is not changed.
pub record KeepsTime (ts : Times) (now : Time) (loc : ts.Location) : Type 0 where
  pub midnight : Time
  pub begun : midnight ≤ now
  pub goes_on : now < midnight + day
  pub clock : (h m : ℕ) → h < 24 → m < 60 → ts.date loc now h m ≡ midnight + (h * 60 + m) * minute

-- The first time after `now` at which the clock, counted from `midnight`, shows `h` hours and `m` minutes.
pub record IsNext (midnight now : Time) (h m : ℕ) (t : Time) : Type 0 where
  pub after : now < t
  pub within : t ≤ now + day
  pub shows : (k : ℕ) × (t ≡ midnight + (h * 60 + m) * minute + k * day)
  pub first :
      (k : ℕ)
      → now < midnight + (h * 60 + m) * minute + k * day
      → t ≤ midnight + (h * 60 + m) * minute + k * day

next_at :
    (midnight now o d c : ℕ)
    → midnight ≤ now
    → now < midnight + d
    → o < d
    → c ≡ midnight + o
    → (now < (if ltb now c then c else c + d)) × ((if ltb now c then c else c + d) ≤ now + d)
next_at midnight now o d c b g l e = ground arith

next_shows :
    (midnight now o d c : ℕ)
    → c ≡ midnight + o
    → (k : ℕ) × ((if ltb now c then c else c + d) ≡ midnight + o + k * d)
next_shows midnight now o d c e = elim (Bool-cases (ltb now c)) [
  | inl t ↦ (0, rw t (omega arith))
  | inr t ↦ (1, rw t (omega arith))
]

next_first :
    (midnight now o d c k : ℕ)
    → c ≡ midnight + o
    → now < midnight + o + k * d
    → (if ltb now c then c else c + d) ≤ midnight + o + k * d
next_first midnight now o d c zero e l = ground arith
next_first midnight now o d c (suc k) e l = ground arith

module _ (ts : Times) (now : Time) where
  next_occurrence-IsNext :
      (loc : ts.Location) (keeps : KeepsTime ts now loc) (h m : ℕ)
      → h < 24
      → m < 60
      → IsNext keeps.midnight now h m (next_occurrence ts h m loc now)
  unfolding next_occurrence
  next_occurrence-IsNext loc keeps h m hl ml =
      let e = keeps.clock h m hl ml in
      let at =
        next_at keeps.midnight now ((h * 60 + m) * minute) day (ts.date loc now h m) keeps.begun
          keeps.goes_on (omega (arith, hl, ml)) e in
      record {
        after = at.0;
        within = at.1;
        shows = next_shows keeps.midnight now ((h * 60 + m) * minute) day (ts.date loc now h m) e;
        first = λ k l.
            next_first keeps.midnight now ((h * 60 + m) * minute) day (ts.date loc now h m) k e l;
      }

unit-some :
    (u : Bytes) (unit : ℕ)
    → unit_of u ≡ some unit
    → ((to_lower u ≡ codes "second") × (unit ≡ 1000000000))
      ⊎ ((to_lower u ≡ codes "minute") × (unit ≡ 60000000000))
unfolding unit_of
unit-some u unit h = elim (Bool-cases (same_bytes (to_lower u) (codes "second"))) [
  | inl e ↦ inl (same_bytes-eq _ _ e, ground (arith, rw (unit_of, e) at h))
  | inr e ↦ elim (Bool-cases (same_bytes (to_lower u) (codes "minute"))) [
    | inl f ↦ inr (same_bytes-eq _ _ f, ground (arith, rw (unit_of, e, f) at h))
    | inr f ↦ absurd (ground (arith, rw (unit_of, e, f) at h))
  ]
]

unit-none :
    (u : Bytes) → unit_of u ≡ none → (to_lower u ≢ codes "second") × (to_lower u ≢ codes "minute")
unfolding unit_of same_bytes
unit-none u h =
    (λ e. ground (arith, rw (unit_of, e) at h), λ e. ground (arith, rw (unit_of, e) at h))

add-short : (now : Time) (d : ℕ) → d < 2 ^ 63 → add now d ≡ now + d
unfolding add
add-short now d l = ground (arith, l)

module _ (ts : Times) (now : Time) (keeps : (loc : ts.Location) → KeepsTime ts now loc) where
  -- The leftmost stamp gives no time.
  abbrev pub NoStamp : Bytes → Type 0
  NoStamp text =
      (m : Bytes)
      → find match_stamp text ≡ some m
      → (ts.parse_rfc3339 m ≡ none) × (ts.parse_rfc3339_nano m ≡ none)

  -- A wait of `n` of the unit that the text names: it is counted from now, where it is no longer than a duration can be.
  pub record IsWait (d u : Bytes) (t : Time) : Type 0 where
    pub amount : ℕ
    pub its_text : atoi d ≡ some amount
    pub unit : ℕ
    pub its_name :
        ((to_lower u ≡ codes "second") × (unit ≡ 1000000000))
        ⊎ ((to_lower u ≡ codes "minute") × (unit ≡ 60000000000))
    pub from_now : amount * unit < 2 ^ 63 → t ≡ now + amount * unit

  -- The leftmost wait has too great a number, or another unit.
  abbrev pub NoWait : Bytes → Type 0
  NoWait text =
      (d u : Bytes)
      → find match_retry text ≡ some (d, u)
      → (atoi d ≡ none) ⊎ ((to_lower u ≢ codes "second") × (to_lower u ≢ codes "minute"))

  -- Where an answer of ParseResetTime comes from
  pub data IsReset (text : Bytes) (t : Time) : Type 0 where
    stamped :
        (m : Bytes)
        → find match_stamp text ≡ some m
        → (ts.parse_rfc3339 m ≡ some t)
          ⊎ ((ts.parse_rfc3339 m ≡ none) × (ts.parse_rfc3339_nano m ≡ some t))
        → IsReset text t
    retried :
        (d u : Bytes)
        → NoStamp text
        → find match_retry text ≡ some (d, u)
        → IsWait d u t
        → IsReset text t
    shown_there :
        (c : ClockText) (z : Bytes) (loc : ts.Location) (h m : ℕ)
        → NoStamp text
        → NoWait text
        → find match_resets_zone text ≡ some (c, z)
        → ts.load_location z ≡ some loc
        → Shows c h m
        → IsNext (keeps loc).midnight now h m t
        → IsReset text t
    shown_here :
        (c : ClockText) (rest : Bytes) (h m : ℕ)
        → NoStamp text
        → NoWait text
        → find match_resets_zone text ≡ none
        → find match_resets text ≡ some (c, rest)
        → Shows c h m
        → IsNext (keeps ts.location).midnight now h m t
        → IsReset text t

  stamp-IsReset : (text : Bytes) (t : Time) → parse_rfc3339 ts text ≡ some t → IsReset text t
  unfolding parse_rfc3339
  stamp-IsReset text t h =
      let (m, a, r) = bind_some (find match_stamp text) _ t h in
      stamped m a (or_else-some (ts.parse_rfc3339 m) (ts.parse_rfc3339_nano m) t r)

  none-NoStamp : (text : Bytes) → parse_rfc3339 ts text ≡ none → NoStamp text
  unfolding parse_rfc3339
  none-NoStamp text h m e = or_else-none (ts.parse_rfc3339 m) (ts.parse_rfc3339_nano m) (rw e at h)

  none-NoWait : (text : Bytes) → parse_retry_after text now ≡ none → NoWait text
  unfolding parse_retry_after
  none-NoWait text h d u e = of_amount (atoi d) refl (rw e at h)
    where
      of_unit :
          (n : ℕ) (o : Option ℕ)
          → unit_of u ≡ o
          → (o >>= λ unit. some (add now (n * unit))) ≡ none
          → (to_lower u ≢ codes "second") × (to_lower u ≢ codes "minute")
      of_unit n none e q = unit-none u e
      of_unit n (some unit) e q = absurd (ground (arith, q))

      of_amount :
          (o : Option ℕ)
          → atoi d ≡ o
          → (o >>= λ n. unit_of u >>= λ unit. some (add now (n * unit))) ≡ none
          → (atoi d ≡ none) ⊎ ((to_lower u ≢ codes "second") × (to_lower u ≢ codes "minute"))
      of_amount none e q = inl e
      of_amount (some n) e q = inr (of_unit n (unit_of u) refl q)

  retry-IsReset :
      (text : Bytes) (t : Time)
      → NoStamp text
      → parse_retry_after text now ≡ some t
      → IsReset text t
  unfolding parse_retry_after
  retry-IsReset text t ns h =
      let (g, a, r) = bind_some (find match_retry text) _ t h in
      let (n, b, q) = bind_some (atoi g.0) _ t r in
      let (unit, c, e) = bind_some (unit_of g.1) _ t q in
      retried g.0 g.1 ns a (record {
        amount = n;
        its_text = b;
        unit = unit;
        its_name = unit-some g.1 unit c;
        from_now = λ l. sym (ground (arith, e)) ∙ add-short now (n * unit) l;
      })

  there-IsReset :
      (text : Bytes) (t : Time)
      → NoStamp text
      → NoWait text
      → parse_resets_with_tz ts text now ≡ some t
      → IsReset text t
  unfolding parse_resets_with_tz
  there-IsReset text t ns nw h =
      let (g, a, r) = bind_some (find match_resets_zone text) _ t h in
      let (c, b, q) = bind_some (parse_hour_minute g.0) _ t r in
      let (loc, l, e) = bind_some (ts.load_location g.1) _ t q in
      let shows = clock_reads g.0 c.0 c.1 b in
      shown_there g.0 g.1 loc c.0 c.1 ns nw a l shows (
        subst (IsNext (keeps loc).midnight now c.0 c.1) (ground (arith, e)) (
          next_occurrence-IsNext ts now loc (keeps loc) c.0 c.1 (Shows-bound g.0 c.0 c.1 shows)
            shows.below_sixty))

  here-IsReset :
      (text : Bytes) (t : Time)
      → NoStamp text
      → NoWait text
      → find match_resets_zone text ≡ none
      → parse_resets_local ts text now ≡ some t
      → IsReset text t
  unfolding parse_resets_local
  here-IsReset text t ns nw z h =
      let (g, a, r) = bind_some (find match_resets text) _ t h in
      let (c, b, e) = bind_some (parse_hour_minute g.0) _ t r in
      let shows = clock_reads g.0 c.0 c.1 b in
      shown_here g.0 g.1 c.0 c.1 ns nw z a shows (
        subst (IsNext (keeps ts.location).midnight now c.0 c.1) (ground (arith, e)) (
          next_occurrence-IsNext ts now ts.location (keeps ts.location) c.0 c.1
            (Shows-bound g.0 c.0 c.1 shows) shows.below_sixty))

  clock-IsReset :
      (text : Bytes) (t : Time) (o : Option (ClockText × Bytes))
      → NoStamp text
      → NoWait text
      → find match_resets_zone text ≡ o
      → (if is_match o then parse_resets_with_tz ts text now else parse_resets_local ts text now)
        ≡ some t
      → IsReset text t
  clock-IsReset text t none ns nw z h = here-IsReset text t ns nw z h
  clock-IsReset text t (some g) ns nw z h = there-IsReset text t ns nw h

  -- What ParseResetTime answers is the RFC 3339 time of the leftmost stamp in the text; else, where that
  -- stamp gives no time, the time now and the number of seconds or minutes behind "retry after", as long
  -- as these are no more than a duration can be; else the first time after now at which the clock of the
  -- named location, or, where none is named, of the local one, shows the hour and the minute behind
  -- "resets", on the twelve-hour clock. The days are taken to have 24 hours each, without a change of the clock.
  pub parse_reset_time-IsReset :
      (text : Bytes) (t : Time) → parse_reset_time ts text now ≡ some t → IsReset text t
  unfolding parse_reset_time
  parse_reset_time-IsReset text t h = elim (Bool-cases (is_nil text)) [
    | inl e ↦ absurd (ground (arith, rw e at h))
    | inr e ↦ either (or_else-some (parse_rfc3339 ts text) _ t (rw e at h))
  ]
    where
      clocks : Option Time
      clocks =
          if is_match (find match_resets_zone text)
          then parse_resets_with_tz ts text now
          else parse_resets_local ts text now

      later :
          NoStamp text
          → (parse_retry_after text now ≡ some t)
            ⊎ ((parse_retry_after text now ≡ none) × (clocks ≡ some t))
          → IsReset text t
      later ns (inl a) = retry-IsReset text t ns a
      later ns (inr (n, b)) =
          clock-IsReset text t (find match_resets_zone text) ns (none-NoWait text n) refl b

      either :
          (parse_rfc3339 ts text ≡ some t)
            ⊎ ((parse_rfc3339 ts text ≡ none)
                × (or_else (parse_retry_after text now) clocks ≡ some t))
          → IsReset text t
      either (inl a) = stamp-IsReset text t a
      either (inr (n, b)) =
          later (none-NoStamp text n) (or_else-some (parse_retry_after text now) clocks t b)
