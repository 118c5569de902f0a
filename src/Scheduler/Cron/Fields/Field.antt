-- ===== src/Scheduler/Cron/Fields/Field.antt =====
-- The masks of a cron expression's fields.
use Prim.Native.Nat.{bit_or}
use kaos_control.Common.{
  split, onto_first, Bytes, ℕ, ◌≤◌, ◌<◌, ◌≡◌, ◌==◌, ◌↔◌, ◌⊎◌, inl, inr, ◌∙◌, refl, sym, ap, subst,
  true, false, ltb, List, [], ◌∷◌, All, All-Memᴰ, Memᴰ, Result, ok, err, ◌>>=◌, arith, Bool-cases,
  ==_iff,
}
use kaos_control.Scheduler.Cron.{CronSchedule, bit_set}
use kaos_control.Scheduler.Cron.Masks.{bit, bit-zero, bit-pow}
use kaos_control.Scheduler.Cron.Fields.{
  step_of, parse_one_part, parse_parts, parse_cron_field, parse_fields, parse_cron,
}
use kaos_control.Scheduler.Cron.Fields.Part.{
  step_limit, bit_set_iff, bit-bit_or_iff, parse_one_part_lem,
}

bit_set-bit_or :
    (a b v : ℕ) → (bit_set (bit_or a b) v ≡ true) ↔ ((bit_set a v ≡ true) ⊎ (bit_set b v ≡ true))
unfolding bit_set
bit_set-bit_or a b v = elim (Bool-cases (ltb v 64)) [
  | inr e ↦ rw e ((λ h. inl h), λ h. elim h [ inl x ↦ x | inr x ↦ x ])
  | inl e ↦ rw e (
    (λ h. ground (
      arith,
      ==_iff (bit (bit_or a b) v) 1,
      bit-bit_or_iff a b v,
      ==_iff (bit a v) 1,
      ==_iff (bit b v) 1,
    )),
    λ h. ground (
      arith,
      ==_iff (bit (bit_or a b) v) 1,
      bit-bit_or_iff a b v,
      ==_iff (bit a v) 1,
      ==_iff (bit b v) 1,
    ),
  )
]

bit_set-zero : (v : ℕ) → bit_set 0 v ≡ false
unfolding bit_set
bit_set-zero v = ground (arith, bit-zero v, ==_iff (bit 0 v) 1)

-- Some part sets the bit.
abbrev pub Sets : List Bytes → ℕ → ℕ → ℕ → Type 0
Sets parts least most v =
    (part : Bytes) × Memᴰ part parts
    × (m : ℕ) × (parse_one_part part least most ≡ ok m)
    × (bit_set m v ≡ true)

bind_ok {ℓ κ μ} :
    {E : Type ℓ} {A : Type κ} {B : Type μ} (r : Result E A) (f : A → Result E B) (b : B)
    → (r >>= f) ≡ ok b
    → (a : A) × (r ≡ ok a) × (f a ≡ ok b)
bind_ok (ok a) f b e = (a, refl, e)
bind_ok (err x) f b e = absurd (ground arith)

parse_parts_lem :
    (parts : List Bytes) (least most mask mask' v : ℕ)
    → parse_parts parts least most mask ≡ ok mask'
    → (bit_set mask' v ≡ true) ↔ ((bit_set mask v ≡ true) ⊎ Sets parts least most v)
unfolding parse_parts
parse_parts_lem [] least most mask mask' v e =
    let same : mask ≡ mask' = ground arith in
    (
      (λ h. inl (subst (λ m. bit_set m v ≡ true) (sym same) h)),
      λ h. elim h [
        | inl x ↦ subst (λ m. bit_set m v ≡ true) same x
        | inr (p, i, _, _, _) ↦ elim i [ ]
      ],
    )
parse_parts_lem (part ∷ parts) least most mask mask' v e =
    let (m, e1, e2) = bind_ok (parse_one_part part least most) _ mask' e in
    let rest = parse_parts_lem parts least most (bit_or mask m) mask' v e2 in
    (
      (λ h. elim (rest.0 h) [
        | inr (p, i, q, e3, y) ↦ inr (p, Memᴰ.tail i, q, e3, y)
        | inl x ↦ elim ((bit_set-bit_or mask m v).0 x) [
          | inl y ↦ inl y
          | inr y ↦ inr (part, Memᴰ.head refl, m, e1, y)
        ]
      ]),
      λ h. rest.1 (elim h [
        | inl x ↦ inl ((bit_set-bit_or mask m v).1 (inl x))
        | inr (p, i, q, e3, y) ↦ from_part part parts least most mask m v e1 p i q e3 y
      ]),
    )
  where
    from_part :
        (part : Bytes) (parts : List Bytes) (least most mask m v : ℕ)
        → parse_one_part part least most ≡ ok m
        → (p : Bytes) → Memᴰ p (part ∷ parts)
        → (q : ℕ) → parse_one_part p least most ≡ ok q
        → bit_set q v ≡ true
        → (bit_set (bit_or mask m) v ≡ true) ⊎ Sets parts least most v
    from_part part parts least most mask m v e1 p (Memᴰ.head s) q e3 y =
        let same : q ≡ m = ground (arith, sym e3 ∙ ap (λ x. parse_one_part x least most) s ∙ e1) in
        inl ((bit_set-bit_or mask m v).1 (inr (subst (λ x. bit_set x v ≡ true) same y)))
    from_part part parts least most mask m v e1 p (Memᴰ.tail i) q e3 y = inr (p, i, q, e3, y)

-- The loop has met every part.
parts_ok :
    (parts : List Bytes) (least most mask mask' : ℕ) (part : Bytes)
    → parse_parts parts least most mask ≡ ok mask'
    → Memᴰ part parts
    → (m : ℕ) × (parse_one_part part least most ≡ ok m)
unfolding parse_parts
parts_ok [] least most mask mask' part e i = elim i [ ]
parts_ok (p ∷ parts) least most mask mask' part e (Memᴰ.head s) =
    let (m, e1, e2) = bind_ok (parse_one_part p least most) _ mask' e in
    (m, ap (λ x. parse_one_part x least most) s ∙ e1)
parts_ok (p ∷ parts) least most mask mask' part e (Memᴰ.tail i) =
    let (m, e1, e2) = bind_ok (parse_one_part p least most) _ mask' e in
    parts_ok parts least most (bit_or mask m) mask' part e2 i

split_some : (sep : ℕ) (s : Bytes) → (p : Bytes) × Memᴰ p (split sep s)
unfolding split
split_some sep [] = ([], Memᴰ.head refl)
split_some sep (c ∷ s) = elim (Bool-cases (c == sep)) [
  | inl e ↦ ([], rw e (Memᴰ.head refl))
  | inr e ↦ rw e (first_some c (split sep s))
]
  where
    first_some : (c : ℕ) (parts : List Bytes) → (p : Bytes) × Memᴰ p (onto_first c parts)
    first_some c [] = (c ∷ [], Memᴰ.head refl)
    first_some c (p ∷ parts) = (c ∷ p, Memᴰ.head refl)

-- No step of the field is so large that the loop's counter overflows.
abbrev pub SmallSteps : Bytes → Type 0
SmallSteps field =
    All (λ part. (step : ℕ) (rest : Bytes) → step_of part ≡ ok (step, rest) → step ≤ step_limit)
      (split 44 field)

-- Some value of the range is listed, and none outside of it.
pub record InRange (mask least most : ℕ) : Type 0 where
  pub value : ℕ
  pub its_bit : bit_set mask value ≡ true
  pub within : (v : ℕ) → bit_set mask v ≡ true → (least ≤ v) × (v ≤ most)

bit_set_lt : (mask v : ℕ) → bit_set mask v ≡ true → v < 64
unfolding bit_set
bit_set_lt mask v h = ground arith

part_within :
    (part : Bytes) (least most m v : ℕ)
    → ((step : ℕ) (rest : Bytes) → step_of part ≡ ok (step, rest) → step ≤ step_limit)
    → most < 64
    → parse_one_part part least most ≡ ok m
    → bit_set m v ≡ true
    → (least ≤ v) × (v ≤ most)
part_within part least most m v small b e h =
    let i = parse_one_part_lem part least most m b e in
    let (k, at, le) = (i.bits (small i.step i.rest i.its_step) v (bit_set_lt m v h)).0 h in
    (omega (arith, at, i.in_range.0), omega (arith, le, i.in_range.2))

field-InRange :
    (field : Bytes) (least most mask : ℕ)
    → SmallSteps field
    → most < 64
    → parse_cron_field field least most ≡ ok mask
    → InRange mask least most
unfolding parse_cron_field
field-InRange field least most mask small b e =
    let (part, i) = split_some 44 field in
    let (m, em) = parts_ok (split 44 field) least most 0 mask part e i in
    let r = parse_one_part_lem part least most m b em in
    record {
      value = r.lo;
      its_bit = (parse_parts_lem (split 44 field) least most 0 mask r.lo e).1 (
          inr (
            part,
            i,
            m,
            em,
            (r.bits (All-Memᴰ _ _ small i r.step r.rest r.its_step) r.lo
                  (omega (arith, r.in_range, b))).1
                (0, omega arith, r.in_range.1),
          ));
      within = λ v h. elim ((parse_parts_lem (split 44 field) least most 0 mask v e).0 h) [
        | inl z ↦ absurd (ground (arith, z, bit_set-zero v))
        | inr (p, j, q, eq, y) ↦ part_within p least most q v (All-Memᴰ _ _ small j) b eq y
      ];
    }

-- What parseCron promises of its masks.
pub record IsParsed (c : CronSchedule) : Type 0 where
  pub second : InRange c.second 0 59
  pub minute : InRange c.minute 0 59
  pub hour : InRange c.hour 0 23
  pub dom : InRange c.dom 1 31
  pub month : InRange c.month 1 12
  pub dow : InRange c.dow 0 6

fields-IsParsed :
    (second : ℕ) (f0 f1 f2 f3 f4 : Bytes) (c : CronSchedule)
    → InRange second 0 59
    → All SmallSteps (f0 ∷ f1 ∷ f2 ∷ f3 ∷ f4 ∷ [])
    → parse_fields second f0 f1 f2 f3 f4 ≡ ok c
    → IsParsed c
unfolding parse_fields
fields-IsParsed second f0 f1 f2 f3 f4 c r (s0, (s1, (s2, (s3, (s4, _))))) e =
    let (minute, e0, p0) = bind_ok (parse_cron_field f0 0 59) _ c e in
    let (hour, e1, p1) = bind_ok (parse_cron_field f1 0 23) _ c p0 in
    let (dom, e2, p2) = bind_ok (parse_cron_field f2 1 31) _ c p1 in
    let (month, e3, p3) = bind_ok (parse_cron_field f3 1 12) _ c p2 in
    let (dow, e4, p4) = bind_ok (parse_cron_field f4 0 6) _ c p3 in
    subst IsParsed (ground (arith, p4)) (record {
      second = r;
      minute = field-InRange f0 0 59 minute s0 (omega arith) e0;
      hour = field-InRange f1 0 23 hour s1 (omega arith) e1;
      dom = field-InRange f2 1 31 dom s2 (omega arith) e2;
      month = field-InRange f3 1 12 month s3 (omega arith) e3;
      dow = field-InRange f4 0 6 dow s4 (omega arith) e4;
    })

second_zero : InRange 1 0 59
second_zero = record {
  value = 0;
  its_bit = (bit_set_iff 1 0 (omega arith)).1 refl;
  within = λ v h.
      let at : 0 ≡ v = (bit-pow 0 v).0 ((bit_set_iff 1 v (bit_set_lt 1 v h)).0 h) in
      (omega arith, omega (arith, at));
}

-- An expression that parseCron accepts, none of whose steps is above 2 ^ 62, becomes masks each of
-- which has a value, and only values of its field's range.
pub parse_cron_lem :
    (fields : List Bytes) (c : CronSchedule)
    → All SmallSteps fields
    → parse_cron fields ≡ ok c
    → IsParsed c
unfolding parse_cron
parse_cron_lem (f0 ∷ f1 ∷ f2 ∷ f3 ∷ f4 ∷ []) c s e =
    fields-IsParsed 1 f0 f1 f2 f3 f4 c second_zero s e
parse_cron_lem (f0 ∷ f1 ∷ f2 ∷ f3 ∷ f4 ∷ f5 ∷ []) c (s0, s) e =
    let (second, e0, p0) = bind_ok (parse_cron_field f0 0 59) _ c e in
    fields-IsParsed second f1 f2 f3 f4 f5 c (field-InRange f0 0 59 second s0 (omega arith) e0) s p0
parse_cron_lem _ c s e = absurd (ground arith)
