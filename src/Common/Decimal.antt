-- ===== src/Common/Decimal.antt =====
-- The digits of a number and their value.
use kaos_control.Common.{
  ℕ, zero, suc, ◌+◌, ◌-◌, ◌*◌, ◌/◌, ◌%◌, ◌≤◌, ◌<◌, ◌≡◌, inl, inr, ◌∙◌, refl, ap, true, false, ltb,
  some, [], ◌∷◌, ◌++◌, All, All-append, Bytes, is_nil, is_digit, digits_value, decimal_loop, arith,
  Bool-cases, ltb→lt,
}

abbrev pub Digits : Bytes → Type 0
Digits d = All (λ c. is_digit c ≡ true) d

digits_value-append :
    (d : Bytes) (acc m k : ℕ)
    → k < 10
    → digits_value acc d ≡ some m
    → digits_value acc (d ++ (48 + k) ∷ []) ≡ some (m * 10 + k)
unfolding digits_value
digits_value-append [] acc m k h e = ground arith
digits_value-append (c ∷ d) acc m k h e = elim (Bool-cases (is_digit c)) [
  | inl t ↦
      rw (digits_value, t) (digits_value-append d (acc * 10 + (c - 48)) m k h (ground (arith, e)))
  | inr t ↦ absurd (ground (arith, e))
]

digit_lem : (k : ℕ) → k < 10 → is_digit (48 + k) ≡ true
digit_lem k h = ground arith

pub decimal-Digits : (fuel n : ℕ) → n ≤ fuel → Digits (decimal_loop fuel n)
unfolding decimal_loop
decimal-Digits zero n h = (digit_lem n (omega arith), tt)
decimal-Digits (suc fuel) n h = elim (Bool-cases (ltb n 10)) [
  | inl t ↦ rw t (digit_lem n (ltb→lt n 10 t), tt)
  | inr t ↦ rw t (
      All-append _ (decimal_loop fuel (n / 10)) ((48 + n % 10) ∷ [])
        (decimal-Digits fuel (n / 10) (ground arith)) (digit_lem (n % 10) (omega arith), tt))
]

pub decimal_loop_value : (fuel n : ℕ) → n ≤ fuel → digits_value 0 (decimal_loop fuel n) ≡ some n
unfolding decimal_loop digits_value
decimal_loop_value zero n h = ground arith
decimal_loop_value (suc fuel) n h = elim (Bool-cases (ltb n 10)) [
  | inl t ↦ rw t (ground arith)
  | inr t ↦ rw t (
      digits_value-append (decimal_loop fuel (n / 10)) 0 (n / 10) (n % 10) (omega arith)
        (decimal_loop_value fuel (n / 10) (ground arith))
      ∙ ap some (omega arith))
]

pub decimal_some : (fuel n : ℕ) → is_nil (decimal_loop fuel n) ≡ false
unfolding decimal_loop
decimal_some zero n = refl
decimal_some (suc fuel) n = elim (Bool-cases (ltb n 10)) [
  | inl t ↦ rw t refl
  | inr t ↦ rw t (append_some (decimal_loop fuel (n / 10)) _)
]
  where
    append_some : (d : Bytes) (c : ℕ) → is_nil (d ++ c ∷ []) ≡ false
    append_some [] c = refl
    append_some (x ∷ d) c = refl
