-- ===== src/Policy/Glob.antt =====
-- What matchGlob accepts, and with it the Bash policy.
use kaos_control.Common.{
  Bytes, is_nil, ℕ, ◌≡◌, ◌≢◌, ◌↔◌, ◌⊎◌, refl, Bool, true, ◌==◌, List, [], ◌∷◌, if◌then◌else◌, subst,
  sym, arith, Bool-cases, inl, inr, Memᴰ,
}
use kaos_control.Policy.{any_suffix, match_byte, match_glob, any_match, is_allow, evaluate_bash}

-- The pattern language: a byte other than the star stands for itself, the star for any bytes.
pub data Matches : Bytes → Bytes → Type 0 where
  end : Matches [] []
  byte : {pattern s : Bytes} (c : ℕ) → c ≢ 42 → Matches pattern s → Matches (c ∷ pattern) (c ∷ s)
  star_none : {pattern s : Bytes} → Matches pattern s → Matches (42 ∷ pattern) s
  star_more :
      {pattern s : Bytes} (c : ℕ) → Matches (42 ∷ pattern) s → Matches (42 ∷ pattern) (c ∷ s)

star_all : (s : Bytes) → Matches (42 ∷ []) s
star_all [] = star_none end
star_all (c ∷ s) = star_more c (star_all s)

any_suffix-Matches :
    (pattern s : Bytes)
    → ((r : Bytes) → match_glob pattern r ≡ true → Matches pattern r)
    → any_suffix (match_glob pattern) s ≡ true
    → Matches (42 ∷ pattern) s
unfolding any_suffix
any_suffix-Matches pattern [] f e = star_none (f [] e)
any_suffix-Matches pattern (c ∷ s) f e = elim (Bool-cases (match_glob pattern (c ∷ s))) [
  | inl h ↦ star_none (f (c ∷ s) h)
  | inr h ↦ star_more c (any_suffix-Matches pattern s f (ground arith))
]

star-Matches :
    (pattern s : Bytes)
    → ((r : Bytes) → match_glob pattern r ≡ true → Matches pattern r)
    → (if is_nil pattern then true else any_suffix (match_glob pattern) s) ≡ true
    → Matches (42 ∷ pattern) s
star-Matches [] s f e = star_all s
star-Matches (p ∷ pattern) s f e = any_suffix-Matches (p ∷ pattern) s f e

byte-Matches :
    (p : ℕ) (pattern s : Bytes)
    → p ≢ 42
    → ((r : Bytes) → match_glob pattern r ≡ true → Matches pattern r)
    → match_byte p (match_glob pattern) s ≡ true
    → Matches (p ∷ pattern) s
byte-Matches p pattern [] ne f e = ground arith
byte-Matches p pattern (c ∷ s) ne f e = elim (Bool-cases (c == p)) [
  | inl h ↦
      let same : c ≡ p = ground arith in
      subst (λ x. Matches (p ∷ pattern) (x ∷ s)) (sym same) (byte p ne (f s (ground arith)))
  | inr h ↦ ground arith
]

match_glob-Matches : (pattern s : Bytes) → match_glob pattern s ≡ true → Matches pattern s
unfolding match_glob
match_glob-Matches [] [] e = end
match_glob-Matches [] (c ∷ s) e = ground arith
match_glob-Matches (p ∷ pattern) s e = elim (Bool-cases (p == 42)) [
  | inl h ↦
      let same : p ≡ 42 = ground arith in
      subst (λ x. Matches (x ∷ pattern) s) (sym same)
        (star-Matches pattern s (match_glob-Matches pattern) (ground arith))
  | inr h ↦ byte-Matches p pattern s (ground arith) (match_glob-Matches pattern) (ground arith)
]

any_suffix_here : (f : Bytes → Bool) (s : Bytes) → f s ≡ true → any_suffix f s ≡ true
unfolding any_suffix
any_suffix_here f [] e = e
any_suffix_here f (c ∷ s) e = ground arith

Matches-match_glob : {pattern s : Bytes} → Matches pattern s → match_glob pattern s ≡ true
unfolding match_glob any_suffix
Matches-match_glob end = refl
Matches-match_glob (byte c ne m) = ground (arith, Matches-match_glob m)
Matches-match_glob (star_none {pattern} {s} m) =
    ground (arith, any_suffix_here (match_glob pattern) s (Matches-match_glob m))
Matches-match_glob (star_more c m) = ground (arith, Matches-match_glob m)

-- matchGlob answers whether the text is one of the pattern's.
pub match_glob_iff : (pattern s : Bytes) → (match_glob pattern s ≡ true) ↔ Matches pattern s
match_glob_iff pattern s = (match_glob-Matches pattern s, Matches-match_glob)

-- Some pattern of the list has the command.
abbrev pub AnyMatches : List Bytes → Bytes → Type 0
AnyMatches patterns s = (p : Bytes) × Memᴰ p patterns × Matches p s

any_match-AnyMatches :
    (patterns : List Bytes) (s : Bytes) → any_match patterns s ≡ true → AnyMatches patterns s
unfolding any_match
any_match-AnyMatches [] s e = ground arith
any_match-AnyMatches (p ∷ patterns) s e = elim (Bool-cases (match_glob p s)) [
  | inl h ↦ (p, Memᴰ.head refl, match_glob-Matches p s h)
  | inr h ↦ let (q, i, m) = any_match-AnyMatches patterns s (ground arith) in (q, Memᴰ.tail i, m)
]

AnyMatches-any_match :
    (patterns : List Bytes) (s p : Bytes)
    → Memᴰ p patterns
    → match_glob p s ≡ true
    → any_match patterns s ≡ true
unfolding any_match
AnyMatches-any_match [] s p i m = elim i [ ]
AnyMatches-any_match (q ∷ patterns) s p (Memᴰ.head e) m =
    ground (arith, subst (λ x. match_glob x s ≡ true) e m)
AnyMatches-any_match (q ∷ patterns) s p (Memᴰ.tail i) m =
    ground (arith, AnyMatches-any_match patterns s p i m)

any_match_iff :
    (patterns : List Bytes) (s : Bytes) → (any_match patterns s ≡ true) ↔ AnyMatches patterns s
any_match_iff patterns s = (
  any_match-AnyMatches patterns s,
  λ (p, i, m). AnyMatches-any_match patterns s p i (Matches-match_glob m),
)

-- A Bash command is allowed exactly where no pattern of the denylist has it and the allowlist is empty
-- or has a pattern for it: the denylist takes precedence.
pub evaluate_bash_iff :
    (denylist allowlist : List Bytes) (command : Bytes)
    → (is_allow (evaluate_bash denylist allowlist command) ≡ true)
      ↔ ((AnyMatches denylist command → ⊥) × ((allowlist ≡ []) ⊎ AnyMatches allowlist command))
unfolding evaluate_bash
evaluate_bash_iff deny [] s = (
  λ e. ((λ a. ground (arith, (any_match_iff deny s).1 a)), inl refl),
  λ (n, o). elim (Bool-cases (any_match deny s)) [
    | inl h ↦ elim (n ((any_match_iff deny s).0 h)) [ ]
    | inr h ↦ rw h refl
  ],
)
evaluate_bash_iff deny (p ∷ allow) s = (
  λ e. (
    (λ a. ground (arith, (any_match_iff deny s).1 a)),
    inr ((any_match_iff (p ∷ allow) s).0 (ground arith)),
  ),
  λ (n, o). elim (Bool-cases (any_match deny s)) [
    | inl h ↦ elim (n ((any_match_iff deny s).0 h)) [ ]
    | inr h ↦ elim o [
      | inl z ↦ ground arith
      | inr a ↦ rw (h, (any_match_iff (p ∷ allow) s).1 a) refl
    ]
  ],
)
