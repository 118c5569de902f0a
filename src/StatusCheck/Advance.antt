-- ===== src/StatusCheck/Advance.antt =====
-- Following Check's suggestions comes to an end.
use kaos_control.Common.{
  ℕ, suc, ◌+◌, ◌*◌, ◌≤◌, ◌<◌, ◌≡◌, ◌∙◌, refl, sym, ap, inl, inr, arith, String, Option, none, some,
  Option-cases, Bool-cases, List, [], ◌∷◌, ◌++◌, length, length-append, str_eq,
}
use kaos_control.StatusCheck.{Artifact, status_order, rank_from, status_rank, suggested}
use kaos_control.StatusCheck.Stale.{suggested_iff}

rank_from-lt :
    (i : ℕ) (order : List String) (s : String) (m : ℕ)
    → rank_from i order s ≡ some m
    → m < i + length order
unfolding rank_from
rank_from-lt i [] s m e = ground arith
rank_from-lt i (v ∷ order) s m e = elim (Bool-cases (str_eq v s)) [
  | inl h ↦ ground arith
  | inr h ↦ ground (arith, rank_from-lt (suc i) order s m)
]

-- How far a status is in the order, from 1; 0 outside of it.
abbrev depth : Option ℕ → ℕ
depth none = 0
depth (some r) = suc r

depth-le : (s : String) → depth (status_rank s) ≤ 7
unfolding status_rank
depth-le s = elim (Option-cases (rank_from 0 status_order s)) [
  | inl e ↦ rw e (omega arith)
  | inr (m, e) ↦ rw e (omega (arith, rank_from-lt 0 status_order s m e))
]

total : List Artifact → ℕ
total [] = 0
total (a ∷ rows) = depth (status_rank a.status) + total rows

total-append : (xs ys : List Artifact) → total (xs ++ ys) ≡ total xs + total ys
unfolding total
total-append [] ys = omega arith
total-append (x ∷ xs) ys = omega (arith, total-append xs ys)

total-le : (rows : List Artifact) → total rows ≤ 7 * length rows
unfolding total
total-le [] = omega arith
total-le (a ∷ rows) = omega (arith, total-le rows, depth-le a.status)

depth_lt : (p : Option ℕ) (r : ℕ) → ((q : ℕ) → p ≡ some q → q < r) → depth p < suc r
depth_lt none r h = omega arith
depth_lt (some q) r h = omega (arith, h q refl)

-- A suggested status is further in the order.
suggested-later :
    (rows : List Artifact) (a : Artifact) (s : String)
    → suggested rows a ≡ some s
    → depth (status_rank a.status) < depth (status_rank s)
suggested-later rows a s e =
    let h = (suggested_iff rows a s).0 e in
    let c = h.all_ahead h.child h.is_child in
    let same : c.rank ≡ h.least =
      ground (arith, sym c.has_rank ∙ ap status_rank h.has_s ∙ h.rank_of_s) in
    rw h.rank_of_s
      (depth_lt (status_rank a.status) h.least (λ q f. omega (arith, c.is_later q f, same)))

-- `n` advances one after another, each of an artifact that Check reports to the suggested status.
pub data Advances : ℕ → List Artifact → List Artifact → Type 0 where
  stop : {rows : List Artifact} → Advances 0 rows rows
  advance :
      {n : ℕ} {rows' : List Artifact} (before : List Artifact) (a : Artifact)
      (after : List Artifact) (s : String)
      → suggested (before ++ a ∷ after) a ≡ some s
      → Advances n (before ++ record a { status = s } ∷ after) rows'
      → Advances (suc n) (before ++ a ∷ after) rows'

Advances-total :
    {n : ℕ} {rows rows' : List Artifact} → Advances n rows rows' → n + total rows ≤ 7 * length rows
unfolding total
Advances-total {rows = rows} stop = omega (arith, total-le rows)
Advances-total (advance before a after s e r) =
    let a' : Artifact = record a { status = s } in
    omega (
      arith,
      Advances-total r,
      suggested-later (before ++ a ∷ after) a s e,
      total-append before (a ∷ after),
      total-append before (a' ∷ after),
      length-append before (a ∷ after),
      length-append before (a' ∷ after),
    )

-- Advancing artifacts of a lineage one after another, each to the status that Check suggests for it at
-- that time, ends after at most seven advances for each artifact.
pub advances_end :
    {n : ℕ} {rows rows' : List Artifact} → Advances n rows rows' → n ≤ 7 * length rows
advances_end r = omega (arith, Advances-total r)
