-- ===== src/Queue/Store/Listing.antt =====
-- The lists that the queue's page shows: ListByState and ListRecent.
use kaos_control.Common.{
  ℕ, suc, ltb_ℤ, ◌≤ℤ◌, Bool, ◌≡◌, refl, ◌&&◌, [], ◌∷◌, All, All-mono, arith, Bool-cases, inl, inr,
  Option, none, some, if◌then◌else◌,
}
use kaos_control.Queue.{JobState, Job}
use kaos_control.Queue.Store.{Rows, is_pending, head_pending, insert_by_position, list_by_state}

abbrev pub first : Rows → Option Job
first [] = none
first (j ∷ rows) = some j

first-insert :
    (j : Job) (rows : Rows)
    → first (insert_by_position j rows) ≡ (elim (first rows) [
      | none ↦ some j
      | some k ↦ if ltb_ℤ k.position j.position then some k else some j
    ])
unfolding insert_by_position
first-insert j [] = refl
first-insert j (k ∷ rows) = ground arith

-- The first pending job that the page lists is the one that the next Dequeue takes.
pub first-list_by_state : (rows : Rows) → first (list_by_state is_pending rows) ≡ head_pending rows
unfolding list_by_state head_pending
first-list_by_state [] = refl
first-list_by_state (j ∷ rows) =
    ground (arith, first-insert j (list_by_state is_pending rows), first-list_by_state rows)

-- In the order of positions.
abbrev pub InOrder : Rows → Type 0
InOrder [] = Unit
InOrder (j ∷ rows) = All (λ k. j.position ≤ℤ k.position) rows × InOrder rows

All-insert :
    (P : Job → Type 0) (j : Job) (rows : Rows)
    → P j
    → All P rows
    → All P (insert_by_position j rows)
unfolding insert_by_position
All-insert P j [] p h = (p, tt)
All-insert P j (k ∷ rows) p h = elim (Bool-cases (ltb_ℤ k.position j.position)) [
  | inl e ↦ rw e (h.0, All-insert P j rows p h.1)
  | inr e ↦ rw e (p, h)
]

insert_by_position-InOrder :
    (j : Job) (rows : Rows) → InOrder rows → InOrder (insert_by_position j rows)
unfolding insert_by_position
insert_by_position-InOrder j [] h = (tt, tt)
insert_by_position-InOrder j (k ∷ rows) h = elim (Bool-cases (ltb_ℤ k.position j.position)) [
  | inl e ↦ rw e (All-insert _ j rows (ground arith) h.0, insert_by_position-InOrder j rows h.1)
  | inr e ↦ rw e ((ground arith, All-mono _ _ rows (λ x le. ground arith) h.0), h)
]

-- How often a job of a given id is listed.
abbrev pub count : (Job → Bool) → Rows → ℕ
count p [] = 0
count p (j ∷ rows) = let rest = count p rows in if p j then suc rest else rest

count-insert :
    (p : Job → Bool) (j : Job) (rows : Rows)
    → count p (insert_by_position j rows) ≡ count p (j ∷ rows)
unfolding insert_by_position
count-insert p j [] = refl
count-insert p j (k ∷ rows) = ground (arith, count-insert p j rows)

-- ListByState returns the rows in the wanted states, each as often as the table has it, in the order of
-- their positions.
pub list_by_state_sorted :
    (wanted : JobState → Bool) (rows : Rows)
    → InOrder (list_by_state wanted rows)
      × ((p : Job → Bool)
          → count p (list_by_state wanted rows) ≡ count (λ j. p j && wanted j.state) rows)
unfolding list_by_state
list_by_state_sorted wanted [] = (tt, λ p. refl)
list_by_state_sorted wanted (j ∷ rows) =
    let (ordered, same) = list_by_state_sorted wanted rows in
    elim (Bool-cases (wanted j.state)) [
      | inl e ↦ rw e (
        insert_by_position-InOrder j (list_by_state wanted rows) ordered,
        (λ p. ground (arith, count-insert p j (list_by_state wanted rows), same p)),
      )
      | inr e ↦ rw e (ordered, (λ p. ground (arith, same p)))
    ]
