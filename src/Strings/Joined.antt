-- ===== src/Strings/Joined.antt =====
-- Splitting and joining at one code point.
use kaos_control.Common.{
  ℕ, ◌≡◌, ◌∙◌, refl, sym, ap, subst, false, ◌==◌, ==_iff, List, [], ◌∷◌, ◌++◌, All, Bytes, is_nil,
  Bool-cases, inl, inr, split, arith,
}
use kaos_control.Strings.{join_at}

-- The separator is not in it.
abbrev pub NoSep : ℕ → Bytes → Type 0
NoSep sep s = All (λ c. (c == sep) ≡ false) s

split_some : (sep : ℕ) (s : Bytes) → (p : Bytes) × (parts : List Bytes) × (split sep s ≡ p ∷ parts)
unfolding split
split_some sep [] = ([], [], refl)
split_some sep (c ∷ s) =
    let (p, parts, e) = split_some sep s in
    elim (Bool-cases (c == sep)) [
      | inl t ↦ ([], split sep s, rw t refl)
      | inr t ↦ (c ∷ p, parts, rw (t, e) refl)
    ]

join_at-onto :
    (sep c : ℕ) (p : Bytes) (parts : List Bytes)
    → join_at sep ((c ∷ p) ∷ parts) ≡ c ∷ join_at sep (p ∷ parts)
unfolding join_at
join_at-onto sep c p [] = refl
join_at-onto sep c p (q ∷ parts) = refl

pub join_at-split : (sep : ℕ) (s : Bytes) → join_at sep (split sep s) ≡ s
unfolding split join_at
join_at-split sep [] = refl
join_at-split sep (c ∷ s) =
    let (p, parts, e) = split_some sep s in
    let rest : join_at sep (p ∷ parts) ≡ s = ap (join_at sep) (sym e) ∙ join_at-split sep s in
    elim (Bool-cases (c == sep)) [
      | inl t ↦ rw (t, e) (ap (λ x. sep ∷ x) rest ∙ ap (λ x. x ∷ s) (sym ((==_iff c sep).0 t)))
      | inr t ↦ rw (t, e) (join_at-onto sep c p parts ∙ ap (λ x. c ∷ x) rest)
    ]

pub split-NoSep : (sep : ℕ) (s : Bytes) → All (NoSep sep) (split sep s)
unfolding split
split-NoSep sep [] = (tt, tt)
split-NoSep sep (c ∷ s) = elim (Bool-cases (c == sep)) [
  | inl t ↦ rw t (tt, split-NoSep sep s)
  | inr t ↦
      let (p, parts, e) = split_some sep s in
      let rest : All (NoSep sep) (p ∷ parts) = subst (All (NoSep sep)) e (split-NoSep sep s) in
      rw (t, e) ((t, rest.0), rest.1)
]

split-append : (sep : ℕ) (s t : Bytes) → NoSep sep s → split sep (s ++ (sep ∷ t)) ≡ s ∷ split sep t
unfolding split
split-append sep [] t h = ground (arith, ==_iff sep sep)
split-append sep (c ∷ s) t h = rw (h.0, split-append sep s t h.1) refl

split-one : (sep : ℕ) (s : Bytes) → NoSep sep s → split sep s ≡ s ∷ []
unfolding split
split-one sep [] h = refl
split-one sep (c ∷ s) h = rw (h.0, split-one sep s h.1) refl

pub split-join_at :
    (sep : ℕ) (parts : List Bytes)
    → is_nil parts ≡ false
    → All (NoSep sep) parts
    → split sep (join_at sep parts) ≡ parts
unfolding join_at
split-join_at sep [] n h = ground (arith, n)
split-join_at sep (s ∷ []) n h = split-one sep s h.0
split-join_at sep (s ∷ t ∷ parts) n h =
    split-append sep s (join_at sep (t ∷ parts)) h.0
    ∙ ap (λ x. s ∷ x) (split-join_at sep (t ∷ parts) refl h.1)
