-- ===== src/Scheduler/Order.antt =====
-- The order in which the priority queue hands out its items.
use kaos_control.Common.{
  ℕ, suc, ◌≤◌, ◌≡◌, ◌≢◌, ◌∙◌, refl, sym, ◌<ℤ◌, true, false, ◌==◌, List, [], ◌∷◌, length, All,
  All-mono, Memᴰ, arith, Option, none, some, Option-cases, Bool-cases, inl, inr, ◌⊎◌, subst, ap,
}
use kaos_control.Scheduler.{Job}
use kaos_control.Scheduler.JobQueue.{LeastOf}
use kaos_control.Scheduler.Engine.{WorkItem, less, best, without, pop, pop_best}

-- `a` goes before `b`: a greater priority, or the same one and not a later number.
pub Before : WorkItem → WorkItem → Type 0
Before a b =
    (b.job.priority <ℤ a.job.priority) ⊎ ((a.job.priority ≡ b.job.priority) × (a.seq ≤ b.seq))

best-none : (q : List WorkItem) → best q ≡ none → q ≡ []
unfolding best
best-none [] e = refl
best-none (x ∷ q) e = ground (arith, best-none q)

not_less : (x y : WorkItem) → less y x ≡ false → Before x y
unfolding less Before
not_less x y e = ground arith

less-Before : (x y : WorkItem) → less y x ≡ true → Before y x
unfolding less Before
less-Before x y e = ground arith

Before-trans : (x y z : WorkItem) → Before x y → Before y z → Before x z
unfolding Before
Before-trans x y z a b = ground arith

Before-refl : (x : WorkItem) → Before x x
unfolding Before
Before-refl x = inr (refl, ground arith)

-- What `best` answers: nothing for the empty queue, or an item that goes before all.
abbrev IsBest : List WorkItem → Option WorkItem → Type 0
IsBest q none = q ≡ []
IsBest q (some x) = Memᴰ x q × All (Before x) q

best-IsBest : (q : List WorkItem) → IsBest q (best q)
unfolding best
best-IsBest [] = refl
best-IsBest (y ∷ q) = elim (Option-cases (best q)) [
  | inl n ↦
      rw (n, best)
        (Memᴰ.head refl, (Before-refl y, subst (All (Before y)) (sym (best-none q n)) tt))
  | inr (z, n) ↦
      let b : IsBest q (some z) = subst (IsBest q) n (best-IsBest q) in
      elim (Bool-cases (less z y)) [
        | inl l ↦ rw (n, l, best) (Memᴰ.tail b.0, (less-Before y z l, b.1))
        | inr l ↦
            rw (n, l, best)
              (
                Memᴰ.head refl,
                (Before-refl y, All-mono _ _ q (λ x. Before-trans y z x (not_less y z l)) b.1),
              )
      ]
]

Before-less : (x y : WorkItem) → Before x y → less y x ≡ false
unfolding less Before
Before-less x y b = ground (arith, b)

least_of : (q : List WorkItem) (o : Option WorkItem) → IsBest q o → LeastOf q o
least_of q none b = b
least_of q (some x) b = (b.0, All-mono _ _ q (Before-less x) b.1)

-- `best` chooses as heap.Pop does.
pub best-LeastOf : (q : List WorkItem) → LeastOf q (best q)
best-LeastOf q = least_of q (best q) (best-IsBest q)

length-without :
    (x : WorkItem) (q : List WorkItem) → Memᴰ x q → length q ≡ suc (length (without x.seq q))
unfolding without
length-without x [] m = elim m [ ]
length-without x (y ∷ q) (Memᴰ.head e) = rw e (ground arith)
length-without x (y ∷ q) (Memᴰ.tail m) = ground (arith, length-without x q m)

without_other :
    (n : ℕ) (y : WorkItem) (q : List WorkItem) → y.seq ≢ n → Memᴰ y q → Memᴰ y (without n q)
unfolding without
without_other n y [] ne m = elim m [ ]
without_other n y (x ∷ q) ne (Memᴰ.head e) = elim (Bool-cases (x.seq == n)) [
  | inl t ↦ elim (ne (ap (λ w. w.seq) e ∙ ground arith)) [ ]
  | inr t ↦ rw t (Memᴰ.head e)
]
without_other n y (x ∷ q) ne (Memᴰ.tail m) = elim (Bool-cases (x.seq == n)) [
  | inl t ↦ rw t m
  | inr t ↦ rw t (Memᴰ.tail (without_other n y q ne m))
]

-- `rest` is `q` less the item of `j`, which goes before all of `q`.
pub record IsPopped (q : List WorkItem) (j : Job) (rest : List WorkItem) : Type 0 where
  pub item : WorkItem
  pub was_there : Memᴰ item q
  pub its_job : item.job ≡ j
  pub before_all : All (Before item) q
  pub one_less : length q ≡ suc (length rest)
  pub others_stay : (y : WorkItem) → y.seq ≢ item.seq → Memᴰ y q → Memᴰ y rest

-- A right answer of Pop: none on the empty queue only, or the job of an item of greatest
-- priority that was queued first among those, which alone leaves the queue.
abbrev pub PopAnswer : List WorkItem → Option (Job × List WorkItem) → Type 0
PopAnswer q none = q ≡ []
PopAnswer q (some (j, rest)) = IsPopped q j rest

pop_best-answer :
    (q : List WorkItem) (o : Option WorkItem) → IsBest q o → PopAnswer q (pop_best o q)
pop_best-answer q none b = b
pop_best-answer q (some x) b = record {
  item = x;
  was_there = b.0;
  its_job = refl;
  before_all = b.1;
  one_less = length-without x q b.0;
  others_stay = λ y. without_other x.seq y q;
}

-- Pop answers no job on the empty queue only. Otherwise its job is that of an item of the queue with
-- the greatest priority and, among those, the least number; the queue is then one item shorter and
-- keeps every item of another number.
pub pop_best_lem : (q : List WorkItem) → PopAnswer q (pop q)
unfolding pop
pop_best_lem q = pop_best-answer q (best q) (best-IsBest q)
