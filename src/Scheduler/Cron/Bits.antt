-- ===== src/Scheduler/Cron/Bits.antt =====
-- What nextBit64 finds: the least set bit of a range.
use kaos_control.Common.{
  ℕ, zero, suc, ◌+◌, ◌-◌, ◌≡◌, ◌<◌, ◌≤◌, false, ◌==◌, none, some, arith, Bool-cases, inl, inr,
}
use kaos_control.Scheduler.Cron.{bit_set, next_bit_loop, next_bit}

next_bit_loop-some : (mask n v b : ℕ) → next_bit_loop mask n v ≡ some b → (v ≤ b) × (b < v + n)
unfolding next_bit_loop
next_bit_loop-some mask zero v b e = ground arith
next_bit_loop-some mask (suc n) v b e = ground (arith, next_bit_loop-some mask n (suc v) b)

next_bit_loop-least :
    (mask n v b w : ℕ) → next_bit_loop mask n v ≡ some b → v ≤ w → w < b → bit_set mask w ≡ false
unfolding next_bit_loop
next_bit_loop-least mask zero v b w e h k = ground arith
next_bit_loop-least mask (suc n) v b w e h k = elim (Bool-cases (v == w)) [
  | inl q ↦ ground arith
  | inr q ↦ ground (arith, next_bit_loop-least mask n (suc v) b w)
]

next_bit_loop-none :
    (mask n v w : ℕ) → next_bit_loop mask n v ≡ none → v ≤ w → w < v + n → bit_set mask w ≡ false
unfolding next_bit_loop
next_bit_loop-none mask zero v w e h k = ground arith
next_bit_loop-none mask (suc n) v w e h k = elim (Bool-cases (v == w)) [
  | inl q ↦ ground arith
  | inr q ↦ ground (arith, next_bit_loop-none mask n (suc v) w)
]

pub next_bit-some : (mask from top b : ℕ) → next_bit mask from top ≡ some b → (from ≤ b) × (b ≤ top)
unfolding next_bit
next_bit-some mask from top b e = ground (arith, next_bit_loop-some mask (suc top - from) from b e)

pub next_bit-least :
    (mask from top b w : ℕ)
    → next_bit mask from top ≡ some b
    → from ≤ w
    → w < b
    → bit_set mask w ≡ false
unfolding next_bit
next_bit-least mask from top b w e = next_bit_loop-least mask (suc top - from) from b w e

pub next_bit-none :
    (mask from top w : ℕ)
    → next_bit mask from top ≡ none
    → from ≤ w
    → w ≤ top
    → bit_set mask w ≡ false
unfolding next_bit
next_bit-none mask from top w e h k =
    next_bit_loop-none mask (suc top - from) from w e h (omega (arith, h, k))
