-- ===== src/Scheduler/Cron/Fields/Part.antt =====
-- The mask of one part of a cron field.
use Prim.Native.Nat.{bit_or}
use kaos_control.Common.{
  Bytes, ℕ, zero, suc, ◌+◌, ◌*◌, ◌%◌, ◌^◌, ◌≤◌, ◌<◌, ◌≡◌, ◌↔◌, ◌⊎◌, inl, inr, refl, sym, subst,
  true, leb, Result, ok, err, ℤ, pos, negsuc, arith, Bool-cases, ==_iff, lt→ltb, leb→le,
}
use kaos_control.Scheduler.Cron.{bit_set}
use kaos_control.Scheduler.Cron.Masks.{bit, bit-bit_or, bit-pow, bit-zero}
use kaos_control.Scheduler.Cron.Fields.{
  CronError, step_of, ends_of, shifted, is_at_most, fill, rounds, parse_one_part, masked, on_ends,
  on_step,
}

-- The values that the loop lists from `v` on.
abbrev pub Listed : ℕ → ℕ → ℕ → ℕ → Type 0
Listed v step hi w = (k : ℕ) × (w ≡ v + k * step) × (w ≤ hi)

-- Below this step the counter of the loop does not overflow.
abbrev pub step_limit : ℕ
step_limit = 2 ^ 62

pub bit_lt : (a v : ℕ) → bit a v < 2
bit_lt a v = omega arith

pub bit-bit_or_iff : (a b v : ℕ) → (bit (bit_or a b) v ≡ 1) ↔ ((bit a v ≡ 1) ⊎ (bit b v ≡ 1))
bit-bit_or_iff a b v = (
  (λ h. ground (arith, bit-bit_or v a b, bit_lt a v, bit_lt b v)),
  λ h. ground (arith, bit-bit_or v a b, bit_lt a v, bit_lt b v),
)

fill_end : (n step hi v mask : ℕ) → v < 2 ^ 63 → hi < v → fill n step hi v mask ≡ mask
unfolding fill
fill_end zero step hi v mask b h = refl
fill_end (suc n) step hi v mask b h = ground arith

goes_on : (v hi : ℕ) → v ≤ hi → is_at_most v hi ≡ true
goes_on v hi le = ground arith

shifted_lem : (v : ℕ) → v < 64 → shifted v ≡ 2 ^ v
shifted_lem v h = rw ((lt→ltb v 64 h)) refl

fill_round :
    (n step hi v mask : ℕ)
    → hi < 64
    → step ≤ step_limit
    → v ≤ hi
    → fill (suc n) step hi v mask ≡ fill n step hi (v + step) (bit_or mask (2 ^ v))
unfolding fill
fill_round n step hi v mask h s le =
    let wrap : (v + step) % 2 ^ 64 ≡ v + step = omega arith in
    rw (goes_on v hi le, shifted_lem v (omega arith), wrap) refl

Listed-end : (v step hi w : ℕ) → hi < v → Listed v step hi w → ⊥
Listed-end v step hi w h (k, e, l) = omega (arith, h, e, l)

Listed-round :
    (v step hi w : ℕ) → v ≤ hi → Listed v step hi w ↔ ((v ≡ w) ⊎ Listed (v + step) step hi w)
Listed-round v step hi w le = (forward, back)
  where
    forward : Listed v step hi w → (v ≡ w) ⊎ Listed (v + step) step hi w
    forward (zero, e, l) = inl (omega (arith, e))
    forward (suc k, e, l) = inr (k, omega (arith, e), l)

    back : (v ≡ w) ⊎ Listed (v + step) step hi w → Listed v step hi w
    back (inl e) = (0, omega (arith, e), omega (arith, e, le))
    back (inr (k, e, l)) = (suc k, omega (arith, e), l)

-- One round: the value `v` comes to the mask, and the rest of the loop adds the others.
module _ {ℓ κ μ ν ξ} {F : Type ℓ} {M : Type κ} {M' : Type μ} {E : Type ν} {L L' : Type ξ} where
  join_round : F ↔ (M' ⊎ L') → M' ↔ (M ⊎ E) → L ↔ (E ⊎ L') → F ↔ (M ⊎ L)
  join_round f m l = (
    (λ x. elim (f.0 x) [
      | inl y ↦ elim (m.0 y) [ inl z ↦ inl z | inr z ↦ inr (l.1 (inl z)) ]
      | inr y ↦ inr (l.1 (inr y))
    ]),
    λ x. elim x [
      | inl y ↦ f.1 (inl (m.1 (inl y)))
      | inr y ↦ elim (l.0 y) [ inl z ↦ f.1 (inl (m.1 (inr z))) | inr z ↦ f.1 (inr z) ]
    ],
  )

own_bit : (mask v w : ℕ) → (bit (bit_or mask (2 ^ v)) w ≡ 1) ↔ ((bit mask w ≡ 1) ⊎ (v ≡ w))
own_bit mask v w = (
  (λ e. elim ((bit-bit_or_iff mask (2 ^ v) w).0 e) [
    | inl m ↦ inl m
    | inr q ↦ inr ((bit-pow v w).0 q)
  ]),
  λ e.
      (bit-bit_or_iff mask (2 ^ v) w).1
        (elim e [ inl m ↦ inl m | inr q ↦ inr ((bit-pow v w).1 q) ]),
)

fill_over :
    (n step hi v mask w : ℕ)
    → v < 2 ^ 63
    → hi < v
    → (bit (fill n step hi v mask) w ≡ 1) ↔ ((bit mask w ≡ 1) ⊎ Listed v step hi w)
fill_over n step hi v mask w b over = (
  (λ e. inl (subst (λ m. bit m w ≡ 1) (fill_end n step hi v mask b over) e)),
  λ e. elim e [
    | inl m ↦ subst (λ x. bit x w ≡ 1) (sym (fill_end n step hi v mask b over)) m
    | inr l ↦ absurd (Listed-end v step hi w over l)
  ],
)

-- The loop adds to the mask the values it lists.
fill_lem :
    (n step hi v mask w : ℕ)
    → hi < 64
    → 0 < step
    → step ≤ step_limit
    → v < 2 ^ 63
    → hi < v + n
    → (bit (fill n step hi v mask) w ≡ 1) ↔ ((bit mask w ≡ 1) ⊎ Listed v step hi w)
fill_lem zero step hi v mask w h p s b f = fill_over 0 step hi v mask w b (omega arith)
fill_lem (suc n) step hi v mask w h p s b f = elim (Bool-cases (leb v hi)) [
  | inr u ↦ fill_over (suc n) step hi v mask w b (ground arith)
  | inl t ↦
      let le = leb→le v hi t in
      rw (fill_round n step hi v mask h s le) (
        join_round
          (fill_lem n step hi (v + step) (bit_or mask (2 ^ v)) w h p s (omega arith) (omega arith))
          (own_bit mask v w) (Listed-round v step hi w le))
]

-- What a part without an error is: its ends are in the range, and the mask has the values it lists.
pub record IsPart (part : Bytes) (least most mask : ℕ) : Type 0 where
  pub step : ℕ
  pub lo : ℕ
  pub hi : ℕ
  pub rest : Bytes
  pub its_step : step_of part ≡ ok (step, rest)
  pub its_ends : ends_of rest least most ≡ ok (pos lo, pos hi)
  pub in_range : (least ≤ lo) × (lo ≤ hi) × (hi ≤ most)
  pub no_less : 0 < step
  pub bits : step ≤ step_limit → (v : ℕ) → v < 64 → (bit_set mask v ≡ true) ↔ Listed lo step hi v

pub bit_set_iff : (mask v : ℕ) → v < 64 → (bit_set mask v ≡ true) ↔ (bit mask v ≡ 1)
unfolding bit_set
bit_set_iff mask v h =
    ((λ e. ground (arith, ==_iff (bit mask v) 1)), λ e. ground (arith, ==_iff (bit mask v) 1))

-- The loop from the empty mask, whose rounds are enough.
loop_bits :
    (step lo hi v : ℕ)
    → hi < 64
    → 0 < step
    → step ≤ step_limit
    → lo < 2 ^ 63
    → v < 64
    → (bit_set (fill rounds step hi lo 0) v ≡ true) ↔ Listed lo step hi v
loop_bits step lo hi v h p s l q = (
  (λ e. elim (lem.0 ((bit_set_iff (fill rounds step hi lo 0) v q).0 e)) [
    | inl z ↦ absurd (omega (arith, z, bit-zero v))
    | inr w ↦ w
  ]),
  λ e. (bit_set_iff (fill rounds step hi lo 0) v q).1 (lem.1 (inr e)),
)
  where
    lem : (bit (fill rounds step hi lo 0) v ≡ 1) ↔ ((bit 0 v ≡ 1) ⊎ Listed lo step hi v)
    lem = fill_lem rounds step hi lo 0 v h p s l (omega (arith, h))

step_of-pos : (part rest : Bytes) (step : ℕ) → step_of part ≡ ok (step, rest) → 0 < step
unfolding step_of
step_of-pos part rest step e = ground arith

-- What the test of the range leaves.
masked_ok :
    (step least most mask : ℕ) (lo hi : ℤ)
    → masked step least most lo hi ≡ ok mask
    → (l : ℕ) × (h : ℕ) × (lo ≡ pos l)
      × (hi ≡ pos h)
      × (least ≤ l)
      × (l ≤ h)
      × (h ≤ most)
      × (mask ≡ fill rounds step h l 0)
masked_ok step least most mask (pos l) (pos h) e =
    (l, h, refl, refl, ground arith, ground arith, ground arith, ground arith)
masked_ok step least most mask (pos l) (negsuc h) e = absurd (ground arith)
masked_ok step least most mask (negsuc l) hi e = absurd (ground arith)

ends_ok :
    (step least most mask : ℕ) (r : Result CronError (ℤ × ℤ))
    → on_ends step least most r ≡ ok mask
    → (l : ℕ) × (h : ℕ) × (r ≡ ok (pos l, pos h))
      × (least ≤ l)
      × (l ≤ h)
      × (h ≤ most)
      × (mask ≡ fill rounds step h l 0)
ends_ok step least most mask (err x) e = absurd (ground arith)
ends_ok step least most mask (ok (lo, hi)) e =
    let (l, h, el, eh, a, b, c, d) = masked_ok step least most mask lo hi e in
    (l, h, rw (el, eh) refl, a, b, c, d)

step_ok :
    (least most mask : ℕ) (r : Result CronError (ℕ × Bytes))
    → on_step least most r ≡ ok mask
    → (step : ℕ) × (rest : Bytes) × (r ≡ ok (step, rest))
      × (on_ends step least most (ends_of rest least most) ≡ ok mask)
step_ok least most mask (err x) e = absurd (ground arith)
step_ok least most mask (ok (step, rest)) e = (step, rest, refl, e)

-- A part is read as its step and its ends, which are in the field's range; and where the step is at
-- most 2 ^ 62, the mask has exactly the bits `lo`, `lo + step`, ... up to `hi`.
pub parse_one_part_lem :
    (part : Bytes) (least most mask : ℕ)
    → most < 64
    → parse_one_part part least most ≡ ok mask
    → IsPart part least most mask
unfolding parse_one_part
parse_one_part_lem part least most mask m e =
    let (step, rest, es, e1) = step_ok least most mask (step_of part) e in
    let (lo, hi, ee, a, b, c, filled) = ends_ok step least most mask (ends_of rest least most) e1 in
    record {
      step = step;
      lo = lo;
      hi = hi;
      rest = rest;
      its_step = es;
      its_ends = ee;
      in_range = (a, b, c);
      no_less = step_of-pos part rest step es;
      bits = λ s v q. rw filled (
          loop_bits step lo hi v (omega (arith, c, m)) (step_of-pos part rest step es) s
            (omega (arith, b, c, m)) q);
    }
