-- ===== src/Scheduler/Cron/Masks.antt =====
-- Facts on the bits of a mask.
use Prim.Native.Nat.{bit_or, bit_or-bitwise, max, digits}
use native.Mathlib.Nat as Nat
use kaos_control.Common.{
  ℕ, zero, suc, ◌+◌, ◌*◌, ◌/◌, ◌%◌, ◌^◌, ◌≤◌, ◌≡◌, ◌↔◌, ◌∙◌, refl, sym, ap, arith,
}

abbrev or_digits : ℕ → ℕ → ℕ → ℕ
or_digits n a b = digits (λ b. b) max n a b

or_digits_fuel : (n m a b : ℕ) → a ≤ n → a ≤ m → or_digits n a b ≡ or_digits m a b
or_digits_fuel zero zero a b p q = refl
or_digits_fuel zero (suc m) zero b p q = refl
or_digits_fuel zero (suc m) (suc a) b p q = absurd (omega arith)
or_digits_fuel (suc n) zero zero b p q = refl
or_digits_fuel (suc n) zero (suc a) b p q = absurd (omega arith)
or_digits_fuel (suc n) (suc m) zero b p q = refl
or_digits_fuel (suc n) (suc m) (suc a) b p q =
    omega (arith, or_digits_fuel n m (suc a / 2) (b / 2) (omega arith) (omega arith))

zero-bit_or : (b : ℕ) → bit_or 0 b ≡ b
zero-bit_or b = bit_or-bitwise 0 b

bit_or_step : (a b : ℕ) → bit_or a b ≡ bit_or (a / 2) (b / 2) * 2 + max (a % 2) (b % 2)
bit_or_step zero b = omega (arith, zero-bit_or b, zero-bit_or (b / 2))
bit_or_step (suc a) b = omega (
  arith,
  bit_or-bitwise (suc a) b,
  bit_or-bitwise (suc a / 2) (b / 2),
  or_digits_fuel a (suc a / 2) (suc a / 2) (b / 2) (omega arith) (omega arith),
)

abbrev pub bit : ℕ → ℕ → ℕ
bit a v = a / 2 ^ v % 2

bit-suc : (a v : ℕ) → bit a (suc v) ≡ bit (a / 2) v
bit-suc a v =
    ap (λ x. x % 2) (ap (λ x. a / x) (Nat.pow-succ' 2 v) ∙ sym (Nat.div-div-eq-div-mul a 2 (2 ^ v)))

pub bit-bit_or : (v a b : ℕ) → bit (bit_or a b) v ≡ max (bit a v) (bit b v)
bit-bit_or zero a b = omega (arith, bit_or_step a b)
bit-bit_or (suc v) a b = omega (
  arith,
  bit-suc (bit_or a b) v,
  bit-suc a v,
  bit-suc b v,
  bit_or_step a b,
  ap (λ x. bit x v) half,
  bit-bit_or v (a / 2) (b / 2),
)
  where
    half : bit_or a b / 2 ≡ bit_or (a / 2) (b / 2)
    half = omega (arith, bit_or_step a b)

pub bit-zero : (v : ℕ) → bit 0 v ≡ 0
bit-zero zero = refl
bit-zero (suc v) = bit-suc 0 v ∙ bit-zero v

pub bit-pow : (v w : ℕ) → (bit (2 ^ v) w ≡ 1) ↔ (v ≡ w)
bit-pow zero zero = ((λ h. refl), λ h. refl)
bit-pow zero (suc w) = ((λ h. omega (arith, h, bit-suc 1 w, bit-zero w)), λ h. omega (arith, h))
bit-pow (suc v) zero = ((λ h. omega (arith, h, Nat.pow-succ' 2 v)), λ h. omega (arith, h))
bit-pow (suc v) (suc w) =
    ((λ h. ap suc ((bit-pow v w).0 (sym same ∙ h))), λ h. same ∙ (bit-pow v w).1 (omega (arith, h)))
  where
    same : bit (2 ^ suc v) (suc w) ≡ bit (2 ^ v) w
    same = bit-suc (2 ^ suc v) w ∙ ap (λ x. bit x w) (omega (arith, Nat.pow-succ' 2 v))
