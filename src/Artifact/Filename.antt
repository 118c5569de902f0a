-- ===== src/Artifact/Filename.antt =====
-- Names of artifact files there and back.
use kaos_control.Common.{
  ℕ, zero, suc, ◌^◌, ◌<◌, ◌≡◌, ◌≢◌, inl, inr, ◌∙◌, refl, sym, ap, true, false, ◌==◌, none, some, [],
  ◌∷◌, ◌++◌, All, if◌then◌else◌, Bytes, is_nil, digits_value, decimal, take_digits, arith,
  Bool-cases, ==_iff, lt→ltb,
}
use mathlib.Core.List.{append_assoc, append-nil}
use kaos_control.Artifact.{
  all_letters, match_suffix, match_index, match_filename, clamped, parse_filename, match_slug_rest,
  is_valid_slug, build_stem,
}
use kaos_control.Common.Decimal.{Digits, decimal-Digits, decimal_loop_value, decimal_some}

-- No match starts at or behind this text, whatever stands before it.
abbrev NoMatch : Bytes → Type 0
NoMatch s = (slug : Bytes) → match_filename slug s ≡ none

NoMatch-cons : (c : ℕ) (s : Bytes) → c ≢ 45 → NoMatch s → NoMatch (c ∷ s)
unfolding match_filename match_index
NoMatch-cons c s h n slug = elim (Bool-cases (c == 10)) [
  | inl t ↦ rw (t, differs) refl
  | inr t ↦ rw (t, differs, n (slug ++ c ∷ [])) refl
]
  where
    differs : (c == 45) ≡ false
    differs = ground (arith, ==_iff c 45, h)

Digits-NoMatch : (d s : Bytes) → Digits d → NoMatch s → NoMatch (d ++ s)
Digits-NoMatch [] s h n = n
Digits-NoMatch (c ∷ d) s h n =
    NoMatch-cons c (d ++ s) (λ e. ground (arith, h.0, e)) (Digits-NoMatch d s h.1 n)

letters-NoMatch : (s : Bytes) → all_letters s ≡ true → NoMatch s
unfolding all_letters match_filename
letters-NoMatch [] h = λ slug. refl
letters-NoMatch (c ∷ s) h =
    NoMatch-cons c s (λ e. ground (arith, h, e)) (letters-NoMatch s (ground (arith, h)))

letters_take : (s : Bytes) → all_letters s ≡ true → take_digits s ≡ ([], s)
unfolding all_letters take_digits
letters_take [] h = refl
letters_take (c ∷ s) h = ground (arith, h)

suffix-NoMatch : (s : Bytes) → all_letters s ≡ true → NoMatch (45 ∷ s)
unfolding match_filename match_index
suffix-NoMatch s h slug = rw (letters_take s h, letters-NoMatch s h (slug ++ 45 ∷ [])) refl

-- What stands behind the digits of a name: nothing, or a dash and letters.
abbrev tail_of : Bytes → Bytes
tail_of sfx = if is_nil sfx then [] else 45 ∷ sfx

take_digits-append : (d sfx : Bytes) → Digits d → take_digits (d ++ tail_of sfx) ≡ (d, tail_of sfx)
unfolding take_digits
take_digits-append [] [] h = refl
take_digits-append [] (c ∷ sfx) h = refl
take_digits-append (c ∷ d) sfx h = rw (h.0, take_digits-append d sfx h.1) refl

match_suffix-tail : (sfx : Bytes) → all_letters sfx ≡ true → match_suffix (tail_of sfx) ≡ some sfx
unfolding match_suffix
match_suffix-tail [] h = refl
match_suffix-tail (c ∷ sfx) h = rw h refl

tail-NoMatch : (sfx : Bytes) → all_letters sfx ≡ true → NoMatch (tail_of sfx)
unfolding match_filename
tail-NoMatch [] h = λ slug. refl
tail-NoMatch (c ∷ sfx) h = suffix-NoMatch (c ∷ sfx) h

-- The match behind the slug.
match_here :
    (slug d sfx : Bytes)
    → is_nil slug ≡ false
    → is_nil d ≡ false
    → Digits d
    → all_letters sfx ≡ true
    → match_filename slug (45 ∷ (d ++ tail_of sfx)) ≡ some (slug, d, sfx)
unfolding match_filename match_index
match_here slug d sfx n e h l =
    rw
      (
        take_digits-append d sfx h,
        e,
        match_suffix-tail sfx l,
        Digits-NoMatch d (tail_of sfx) h (tail-NoMatch sfx l) (slug ++ 45 ∷ []),
        n,
      )
      refl

abbrev NoNewline : Bytes → Type 0
NoNewline s = All (λ c. (c == 10) ≡ false) s

is_nil-append : (p : Bytes) (c : ℕ) → is_nil (p ++ c ∷ []) ≡ false
is_nil-append [] c = refl
is_nil-append (x ∷ p) c = refl

-- The longest first group runs up to the dash before the digits.
match_after :
    (s p d sfx : Bytes)
    → is_nil (p ++ s) ≡ false
    → NoNewline s
    → is_nil d ≡ false
    → Digits d
    → all_letters sfx ≡ true
    → match_filename p (s ++ (45 ∷ (d ++ tail_of sfx))) ≡ some (p ++ s, d, sfx)
unfolding match_filename
match_after [] p d sfx n w e h l =
    match_here p d sfx (ap is_nil (sym (append-nil p)) ∙ n) e h l
    ∙ ap (λ x. some (x, d, sfx)) (sym (append-nil p))
match_after (c ∷ s) p d sfx n w e h l =
    let split : (p ++ c ∷ []) ++ s ≡ p ++ (c ∷ s) = append_assoc p (c ∷ []) s in
    rw (w.0, match_after s (p ++ c ∷ []) d sfx (ap is_nil split ∙ n) w.1 e h l, split) refl

rest-NoNewline : (s : Bytes) → match_slug_rest s ≡ true → NoNewline s
unfolding match_slug_rest
rest-NoNewline [] h = tt
rest-NoNewline (c ∷ []) h = (ground (arith, h), tt)
rest-NoNewline (c ∷ d ∷ s) h = (ground (arith, h), rest-NoNewline (d ∷ s) (ground (arith, h)))

slug-NoNewline : (s : Bytes) → is_valid_slug s ≡ true → NoNewline s
unfolding is_valid_slug
slug-NoNewline [] h = tt
slug-NoNewline (c ∷ []) h = (ground (arith, h), tt)
slug-NoNewline (c ∷ d ∷ s) h = (ground (arith, h), rest-NoNewline (d ∷ s) (ground (arith, h)))

slug_some : (s : Bytes) → is_valid_slug s ≡ true → is_nil s ≡ false
unfolding is_valid_slug
slug_some [] h = ground (arith, h)
slug_some (c ∷ s) h = refl

suc_test : (n : ℕ) → (suc n == 0) ≡ false
suc_test n = ground arith

build_stem-tail :
    (slug : Bytes) (n : ℕ) (sfx : Bytes)
    → build_stem slug (suc n) sfx ≡ slug ++ (45 ∷ (decimal (suc n) ++ tail_of sfx))
unfolding build_stem
build_stem-tail slug n [] =
    rw (suc_test n) (ap (λ x. slug ++ (45 ∷ x)) (sym (append-nil (decimal (suc n)))))
build_stem-tail slug n (c ∷ sfx) = rw (suc_test n) refl

match_built :
    (slug : Bytes) (n : ℕ) (sfx : Bytes)
    → is_valid_slug slug ≡ true
    → all_letters sfx ≡ true
    → match_filename [] (build_stem slug (suc n) sfx) ≡ some (slug, decimal (suc n), sfx)
unfolding decimal
match_built slug n sfx v l =
    ap (match_filename []) (build_stem-tail slug n sfx)
    ∙ match_after slug [] (decimal (suc n)) sfx (slug_some slug v) (slug-NoNewline slug v)
        (decimal_some (suc n) (suc n)) (decimal-Digits (suc n) (suc n) (omega arith)) l

decimal_value : (n : ℕ) → n < 2 ^ 63 → clamped (digits_value 0 (decimal n)) ≡ n
unfolding decimal
decimal_value n b = rw (decimal_loop_value n n (omega arith), lt→ltb n (2 ^ 63) b) refl

numbered :
    (slug : Bytes) (n : ℕ) (sfx : Bytes)
    → is_valid_slug slug ≡ true
    → all_letters sfx ≡ true
    → suc n < 2 ^ 63
    → parse_filename (build_stem slug (suc n) sfx) ≡ (slug, suc n, sfx)
unfolding parse_filename
numbered slug n sfx v l b =
    rw (parse_filename, match_built slug n sfx v l)
      (ap (λ k. (slug, k, sfx)) (decimal_value (suc n) b))

originating :
    (slug sfx : Bytes)
    → match_filename [] slug ≡ none
    → parse_filename (build_stem slug 0 sfx) ≡ (slug, 0, [])
unfolding parse_filename build_stem
originating slug sfx n = rw n refl

-- The stem that is built of a valid slug, an index below 2 ^ 63 and a suffix of letters is parsed into
-- them again, where the index is not 0; and where it is 0, into the slug alone, as long as the slug
-- does not end like an index itself.
pub parse_build :
    (slug : Bytes) (idx : ℕ) (sfx : Bytes)
    → is_valid_slug slug ≡ true
    → all_letters sfx ≡ true
    → idx < 2 ^ 63
    → (idx ≡ 0 → match_filename [] slug ≡ none)
    → parse_filename (build_stem slug idx sfx) ≡ (slug, idx, (if idx == 0 then [] else sfx))
parse_build slug zero sfx v l b n = originating slug sfx (n refl)
parse_build slug (suc n) sfx v l b _ =
    numbered slug n sfx v l b ∙ ap (λ t. (slug, suc n, if t then [] else sfx)) (sym (suc_test n))
