-- ===== src/Strings/Trim.antt =====
-- What trimming leaves.
use kaos_control.Common.{
  ◌≡◌, ◌∙◌, refl, ap, Bool, true, false, ◌&&◌, List, [], ◌∷◌, ◌++◌, All, Bytes, is_nil, Bool-cases,
  inl, inr, arith,
}
use kaos_control.Strings.{drop_start, drop_end, take_end, trim_space, is_space}

module _ {ℓ} {A : Type ℓ} (p : A → Bool) where
  -- It does not begin with what `p` drops.
  abbrev pub NoStart : List A → Type 0
  NoStart [] = Unit
  NoStart (x ∷ xs) = p x ≡ false

  drop_start-NoStart : (xs : List A) → NoStart (drop_start p xs)
  unfolding drop_start
  drop_start-NoStart [] = tt
  drop_start-NoStart (x ∷ xs) = elim (Bool-cases (p x)) [
    | inl e ↦ rw (drop_start, e) (drop_start-NoStart xs)
    | inr e ↦ rw (drop_start, e) e
  ]

  NoStart-drop_start : (xs : List A) → NoStart xs → drop_start p xs ≡ xs
  unfolding drop_start
  NoStart-drop_start [] h = refl
  NoStart-drop_start (x ∷ xs) h = rw h refl

  NoStart-drop_end : (xs : List A) → NoStart xs → NoStart (drop_end p xs)
  unfolding drop_end
  NoStart-drop_end [] h = tt
  NoStart-drop_end (x ∷ xs) h = elim (Bool-cases (is_nil (drop_end p xs))) [
    | inl e ↦ rw (drop_end, e, h) h
    | inr e ↦ rw (drop_end, e) h
  ]

  pub drop_end-fixed : (xs : List A) → drop_end p (drop_end p xs) ≡ drop_end p xs
  unfolding drop_end
  drop_end-fixed [] = refl
  drop_end-fixed (x ∷ xs) = elim (Bool-cases (is_nil (drop_end p xs) && p x)) [
    | inl e ↦ rw (drop_end, e) refl
    | inr e ↦ rw (drop_end, e, drop_end-fixed xs, e) refl
  ]

  -- What is dropped at the end does not count.
  pub drop_end-append :
      (xs ys : List A) → All (λ y. p y ≡ true) ys → drop_end p (xs ++ ys) ≡ drop_end p xs
  unfolding drop_end
  drop_end-append [] [] h = refl
  drop_end-append [] (y ∷ ys) h = rw (drop_end-append [] ys h.1, h.0) refl
  drop_end-append (x ∷ xs) ys h = rw (drop_end-append xs ys h) refl

  -- What is kept at the end keeps all before it.
  pub drop_end-keep :
      (xs ys : List A) → is_nil ys ≡ false → drop_end p ys ≡ ys → drop_end p (xs ++ ys) ≡ xs ++ ys
  unfolding drop_end
  drop_end-keep [] ys n h = h
  drop_end-keep (x ∷ xs) ys n h = rw (drop_end-keep xs ys n h, append_some xs ys n) refl
    where
      append_some : (xs ys : List A) → is_nil ys ≡ false → is_nil (xs ++ ys) ≡ false
      append_some [] ys n = n
      append_some (x ∷ xs) ys n = refl

  -- Where `p` holds nowhere, nothing is dropped.
  pub drop_end-none : (xs : List A) → All (λ y. p y ≡ false) xs → drop_end p xs ≡ xs
  unfolding drop_end
  drop_end-none [] h = refl
  drop_end-none (x ∷ xs) h = elim (Bool-cases (is_nil (drop_end p xs))) [
    | inl e ↦ rw (e, h.0) (ap (λ z. x ∷ z) (drop_end-none xs h.1))
    | inr e ↦ rw e (ap (λ z. x ∷ z) (drop_end-none xs h.1))
  ]

  -- A first element that is kept stays the first.
  pub drop_end-first : (x : A) (xs : List A) → p x ≡ false → drop_end p (x ∷ xs) ≡ x ∷ drop_end p xs
  unfolding drop_end
  drop_end-first x xs h = elim (Bool-cases (is_nil (drop_end p xs))) [
    | inl e ↦ rw (e, h) refl
    | inr e ↦ rw e refl
  ]

  take_all : (ys : List A) → All (λ y. p y ≡ true) ys → take_end p ys ≡ ys
  unfolding take_end
  take_all [] h = refl
  take_all (y ∷ ys) h = rw (drop_end-append [] ys h.1, drop_end, h.0) refl

  kept :
      (x : A) (xs : List A)
      → drop_end p (x ∷ xs) ≡ x ∷ xs
      → ((is_nil (drop_end p xs) && p x) ≡ false) × (drop_end p xs ≡ xs)
  unfolding drop_end
  kept x xs n = elim (Bool-cases (is_nil (drop_end p xs) && p x)) [
    | inl e ↦ absurd (ground (arith, rw e at n))
    | inr e ↦ (e, ground (arith, rw e at n))
  ]

  -- The run at the end, behind a list that has none.
  pub take_end-append :
      (xs ys : List A) → drop_end p xs ≡ xs → All (λ y. p y ≡ true) ys → take_end p (xs ++ ys) ≡ ys
  unfolding take_end
  take_end-append [] ys n h = take_all ys h
  take_end-append (x ∷ xs) ys n h =
      let (off, rest) = kept x xs n in
      rw (drop_end-append xs ys h, off) (take_end-append xs ys rest h)

pub All-drop_end {ℓ κ} :
    {A : Type ℓ} (p : A → Bool) (P : A → Type κ) (xs : List A) → All P xs → All P (drop_end p xs)
unfolding drop_end
All-drop_end p P [] h = tt
All-drop_end p P (x ∷ xs) h = elim (Bool-cases (is_nil (drop_end p xs) && p x)) [
  | inl e ↦ rw e tt
  | inr e ↦ rw e (h.0, All-drop_end p P xs h.1)
]

-- Trimming twice is trimming once.
pub trim_space-fixed : (s : Bytes) → trim_space (trim_space s) ≡ trim_space s
unfolding trim_space
trim_space-fixed s =
    ap (drop_end is_space) (
      NoStart-drop_start is_space (drop_end is_space (drop_start is_space s))
        (NoStart-drop_end is_space (drop_start is_space s) (drop_start-NoStart is_space s)))
    ∙ drop_end-fixed is_space (drop_start is_space s)
