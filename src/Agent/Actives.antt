-- ===== src/Agent/Actives.antt =====
-- The list of the active runs, whose ids are distinct.
use kaos_control.Common.{
  suc, ◌≡◌, ◌≢◌, refl, sym, ap, subst, String, List, [], ◌∷◌, ◌++◌, length, All, All-append,
  All-mono, All-Memᴰ, Memᴰ, str_eq, str_eq_iff, str_eq_refl, Bool-cases, inl, inr, arith,
}
use kaos_control.Agent.{ActiveRun, without}

-- No active run has this id.
unfoldable pub Unused : String → List ActiveRun → Type 0
Unused id runs = All (λ r. r.run_id ≢ id) runs

unfoldable pub Distinct : List ActiveRun → Type 0
Distinct [] = Unit
Distinct (r ∷ runs) = All (λ s. s.run_id ≢ r.run_id) runs × Distinct runs

pub Distinct-append :
    (runs : List ActiveRun) (r : ActiveRun)
    → Distinct runs
    → Unused r.run_id runs
    → Distinct (runs ++ r ∷ [])
unfolding Distinct Unused
Distinct-append [] r d u = (tt, tt)
Distinct-append (q ∷ runs) r d u =
    (All-append _ runs (r ∷ []) d.0 ((λ e. u.0 (sym e)), tt), Distinct-append runs r d.1 u.1)

pub without-Unused : (id : String) (runs : List ActiveRun) → Unused id runs → without id runs ≡ runs
unfolding without Unused
without-Unused id [] u = refl
without-Unused id (r ∷ runs) u =
    ground (arith, without-Unused id runs u.1, u.0, str_eq_iff r.run_id id)

pub length-without :
    (r : ActiveRun) (runs : List ActiveRun)
    → Distinct runs
    → Memᴰ r runs
    → length runs ≡ suc (length (without r.run_id runs))
unfolding without Distinct
length-without r [] d m = elim m [ ]
length-without r (q ∷ runs) d (Memᴰ.head e) =
    subst (λ x. length (q ∷ runs) ≡ suc (length (without x.run_id (q ∷ runs)))) (sym e)
      (ground (
        arith,
        ap length (without-Unused q.run_id runs (unfold Unused in d.0)),
        str_eq_refl q.run_id,
      ))
length-without r (q ∷ runs) d (Memᴰ.tail m) = ground (
  arith,
  length-without r runs d.1 m,
  All-Memᴰ (λ s. s.run_id ≢ q.run_id) runs d.0 m,
  str_eq_iff q.run_id r.run_id,
)

pub All-without :
    (P : ActiveRun → Type 0) (id : String) (runs : List ActiveRun)
    → All P runs
    → All (λ s. P s × (s.run_id ≢ id)) (without id runs)
unfolding without
All-without P id [] a = tt
All-without P id (q ∷ runs) a = elim (Bool-cases (str_eq q.run_id id)) [
  | inl e ↦ rw e (All-without P id runs a.1)
  | inr e ↦ rw e ((a.0, λ p. ground (arith, str_eq_iff q.run_id id)), All-without P id runs a.1)
]

pub Distinct-without :
    (id : String) (runs : List ActiveRun) → Distinct runs → Distinct (without id runs)
unfolding without Distinct
Distinct-without id [] d = tt
Distinct-without id (q ∷ runs) d = elim (Bool-cases (str_eq q.run_id id)) [
  | inl e ↦ rw e (Distinct-without id runs d.1)
  | inr e ↦ rw e (
    All-mono _ _ (without id runs) (λ s p. p.0)
        (All-without (λ s. s.run_id ≢ q.run_id) id runs d.0),
    Distinct-without id runs d.1,
  )
]
