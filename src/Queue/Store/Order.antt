-- ===== src/Queue/Store/Order.antt =====
-- The order in which jobs leave the queue.
use kaos_control.Common.{
  ℕ, ℤ, pos, ◌≤ℤ◌, ◌<ℤ◌, ◌-ℤ◌, +ℤ_parts, -ℤ_parts, String, true, false, ◌≡◌, sym, subst, ◌⊎◌, inl,
  inr, [], ◌∷◌, ◌++◌, Memᴰ, All, All-mono, arith, Option-cases, Option, none, some, ok,
  if◌then◌else◌,
}
use kaos_control.Queue.{Job}
use kaos_control.Queue.Store.{
  Rows, update, is_pending, is_zero, filled, positioned, next_position, max_position, select_min,
  min_position, insert, enqueue, head_pending, started, dequeue,
}
use kaos_control.Queue.Store.Active.{head_pending-Memᴰ}

abbrev pub Least : Job → Rows → Type 0
Least j = All (λ k. is_pending k.state ≡ true → j.position ≤ℤ k.position)

abbrev pub NonePending : Rows → Type 0
NonePending = All (λ k. is_pending k.state ≡ false)

pub head_pending-none : (rows : Rows) → head_pending rows ≡ none → NonePending rows
unfolding head_pending
head_pending-none [] h = tt
head_pending-none (k ∷ rows) h = elim (Option-cases (head_pending rows)) [
  | inl e ↦ (ground arith, head_pending-none rows e)
  | inr (m, e) ↦ ground arith
]

-- No pending row stands before the one that Dequeue takes.
pub head_pending-Least : (rows : Rows) {j : Job} → head_pending rows ≡ some j → Least j rows
unfolding head_pending
head_pending-Least [] h = tt
head_pending-Least (k ∷ rows) {j} h = elim (Option-cases (head_pending rows)) [
  | inl e ↦ (ground arith, All-mono _ _ rows (λ x np p. cc) (head_pending-none rows e))
  | inr (m, e) ↦
      (ground arith, All-mono _ _ rows (λ x le p. ground (arith, le p)) (head_pending-Least rows e))
]

abbrev pub AllBelow : ℤ → Rows → Type 0
AllBelow p = All (λ k. k.position <ℤ p)

abbrev pub AllAbove : ℤ → Rows → Type 0
AllAbove p = All (λ k. p <ℤ k.position)

-- Only the empty table has no largest position.
max_position-none : (P : Job → Type 0) (rows : Rows) → max_position rows ≡ none → All P rows
unfolding max_position
max_position-none P [] h = tt
max_position-none P (k ∷ rows) h = elim (Option-cases (max_position rows)) [
  | inl e ↦ ground arith
  | inr (q, e) ↦ ground arith
]

max_position-le :
    (rows : Rows) {p : ℤ} → max_position rows ≡ some p → All (λ k. k.position ≤ℤ p) rows
unfolding max_position
max_position-le [] h = tt
max_position-le (k ∷ rows) {p} h = elim (Option-cases (max_position rows)) [
  | inl e ↦ (ground arith, max_position-none _ rows e)
  | inr (q, e) ↦ (ground arith, All-mono _ _ rows (λ x le. ground arith) (max_position-le rows e))
]

pub next_position-AllBelow : (rows : Rows) → AllBelow (next_position rows) rows
unfolding next_position
next_position-AllBelow rows = elim (Option-cases (max_position rows)) [
  | inl e ↦ max_position-none _ rows e
  | inr (p, e) ↦
      rw (e, next_position)
        (All-mono _ _ rows (λ k le. omega (arith, +ℤ_parts p (pos 1))) (max_position-le rows e))
]

select_min-none : (P : Job → Type 0) (rows : Rows) → select_min rows ≡ none → All P rows
unfolding select_min
select_min-none P [] h = tt
select_min-none P (k ∷ rows) h = elim (Option-cases (select_min rows)) [
  | inl e ↦ ground arith
  | inr (q, e) ↦ ground arith
]

select_min-le : (rows : Rows) {p : ℤ} → select_min rows ≡ some p → All (λ k. p ≤ℤ k.position) rows
unfolding select_min
select_min-le [] h = tt
select_min-le (k ∷ rows) {p} h = elim (Option-cases (select_min rows)) [
  | inl e ↦ (ground arith, select_min-none _ rows e)
  | inr (q, e) ↦ (ground arith, All-mono _ _ rows (λ x le. ground arith) (select_min-le rows e))
]

-- The position that a retry gets stands before every row's.
pub min_position-AllAbove : (rows : Rows) → AllAbove (min_position rows -ℤ pos 1) rows
unfolding min_position
min_position-AllAbove rows = elim (Option-cases (select_min rows)) [
  | inl e ↦ select_min-none _ rows e
  | inr (p, e) ↦
      rw (e, min_position)
        (All-mono _ _ rows (λ k le. omega (arith, -ℤ_parts p (pos 1))) (select_min-le rows e))
]

-- A pending row that stands before all others becomes the head.
pub head_pending-first :
    (rows : Rows) (j : Job)
    → is_pending j.state ≡ true
    → AllAbove j.position rows
    → head_pending (rows ++ j ∷ []) ≡ some j
unfolding head_pending
head_pending-first [] j p above = ground arith
head_pending-first (k ∷ rows) j p above = ground (arith, head_pending-first rows j p above.1)

head_pending-snoc_none :
    (rows : Rows) (j : Job)
    → head_pending rows ≡ none
    → head_pending (rows ++ j ∷ []) ≡ (if is_pending j.state then some j else none)
unfolding head_pending
head_pending-snoc_none [] j h = ground arith
head_pending-snoc_none (k ∷ rows) j h = elim (Option-cases (head_pending rows)) [
  | inl e ↦ ground (arith, head_pending-snoc_none rows j e)
  | inr (m, e) ↦ ground arith
]

-- A row behind all others does not take the head's place.
pub head_pending-last :
    (rows : Rows) (j : Job) {h : Job}
    → AllBelow j.position rows
    → head_pending rows ≡ some h
    → head_pending (rows ++ j ∷ []) ≡ some h
unfolding head_pending
head_pending-last [] j below e = cc
head_pending-last (k ∷ rows) j below e = elim (Option-cases (head_pending rows)) [
  | inl n ↦ ground (arith, head_pending-snoc_none rows j n)
  | inr (m, s) ↦ ground (arith, head_pending-last rows j below.1 s)
]

pub dequeue_of_head :
    (now : ℕ) (rows : Rows) (h : Job)
    → head_pending rows ≡ some h
    → (dequeue now rows).0 ≡ some (started now h)
unfolding dequeue
dequeue_of_head now rows h e = rw (e, dequeue)

-- The row that Enqueue inserts for a job without a position.
module _ (fresh : String) (now : ℕ) (j : Job) (rows : Rows) (zero : is_zero j.position ≡ true) where
  placed_position : (positioned rows (filled fresh now j)).position ≡ next_position rows
  unfolding positioned filled
  placed_position = ground arith

  placed_pending : is_pending (positioned rows (filled fresh now j)).state ≡ true
  unfolding positioned filled
  placed_pending = ground arith

enqueue-append :
    (fresh : String) (now : ℕ) (j : Job) (rows rows' : Rows)
    → enqueue fresh now j rows ≡ ok rows'
    → rows' ≡ rows ++ positioned rows (filled fresh now j) ∷ []
unfolding enqueue insert
enqueue-append fresh now j rows rows' done = ground arith

-- What Dequeue takes next, if the row `new` is inserted into `rows` behind all others.
abbrev pub next_out : Option Job → Job → Job
next_out none new = new
next_out (some h) new = h

-- A job that Enqueue is to place (it comes without a position) and accepts becomes the table's last
-- row, with a position greater than that of every row before; the next Dequeue takes the job that it
-- would have taken before, and takes the new one only where nothing was pending.
pub enqueue_fifo :
    (fresh : String) (now later : ℕ) (j : Job) (rows rows' : Rows)
    → is_zero j.position ≡ true
    → enqueue fresh now j rows ≡ ok rows'
    → (rows' ≡ rows ++ positioned rows (filled fresh now j) ∷ [])
      × AllBelow (positioned rows (filled fresh now j)).position rows
      × ((dequeue later rows').0
          ≡ some
              (started later (next_out (head_pending rows) (positioned rows (filled fresh now j)))))
enqueue_fifo fresh now later j rows rows' zero done =
    (enqueue-append fresh now j rows rows' done, below, next)
  where
    below : AllBelow (positioned rows (filled fresh now j)).position rows
    below =
        subst (λ p. AllBelow p rows) (sym (placed_position fresh now j rows zero))
          (next_position-AllBelow rows)

    next :
        (dequeue later rows').0
        ≡ some (started later (next_out (head_pending rows) (positioned rows (filled fresh now j))))
    next = elim (Option-cases (head_pending rows)) [
      | inl e ↦
          rw (enqueue-append fresh now j rows rows' done, e)
            (dequeue_of_head later _ (positioned rows (filled fresh now j))
              (rw (head_pending-snoc_none rows _ e, placed_pending fresh now j rows zero)))
      | inr (h, e) ↦
          rw (enqueue-append fresh now j rows rows' done, e)
            (dequeue_of_head later _ h (head_pending-last rows _ below e))
    ]

-- Dequeue hands out nothing exactly where no row is pending, and then changes nothing; else it hands
-- out a pending row of the table before which no pending row stands, marked as running, and that mark
-- is all that it changes.
pub dequeue_takes-Least :
    (now : ℕ) (rows : Rows)
    → (NonePending rows × (dequeue now rows ≡ (none, rows)))
      ⊎ ((j : Job) × Memᴰ j rows
          × (is_pending j.state ≡ true)
          × Least j rows
          × (dequeue now rows ≡ (some (started now j), update j.id (started now) rows)))
unfolding dequeue
dequeue_takes-Least now rows = elim (Option-cases (head_pending rows)) [
  | inl e ↦ inl (head_pending-none rows e, rw (e, dequeue))
  | inr (j, e) ↦
      let (m, p) = head_pending-Memᴰ rows e in
      inr (j, m, p, head_pending-Least rows e, rw (e, dequeue))
]
