-- ===== src/Scheduler/JobQueue.antt =====
-- jobQueue of internal/scheduler/queue.go: Push, which numbers the items, and Pop. container/heap is a parameter:
-- what heap.Pop chooses among the items that wait, which is documented as the least one by Less. The items are listed in the order
-- in which they were pushed.
use kaos_control.Common.{
  ℕ, suc, ◌≤◌, ◌<◌, ◌≡◌, ◌∙◌, refl, sym, ap, subst, ◌<ℤ◌, ◌≤ℤ◌, false, List, [], ◌∷◌, ◌++◌, map,
  All, All-append, All-mono, All-Memᴰ, Memᴰ, arith, Option, none, some,
}
use kaos_control.Scheduler.{Job}
use kaos_control.Scheduler.Engine.{WorkItem, less, without}

pub record JobQueue : Type 0 where
  pub items : List WorkItem
  pub seq : ℕ

-- newJobQueue
abbrev pub new_job_queue : JobQueue
new_job_queue = record { items = []; seq = 0 }

-- Push
unfoldable pub push : Job → JobQueue → JobQueue
push j q = record { items = q.items ++ record { job = j; seq = suc q.seq } ∷ []; seq = suc q.seq }

abbrev pub HeapPop : Type 0
HeapPop = List WorkItem → Option WorkItem

abbrev pub pop_item : Option WorkItem → JobQueue → Option (Job × JobQueue)
pop_item none q = none
pop_item (some x) q = some (x.job, record q { items = without x.seq q.items })

-- Pop
unfoldable pub pop_job : HeapPop → JobQueue → Option (Job × JobQueue)
pop_job heap q = pop_item (heap q.items) q

-- heap.Pop, as documented
abbrev pub LeastOf : List WorkItem → Option WorkItem → Type 0
LeastOf q none = q ≡ []
LeastOf q (some x) = Memᴰ x q × All (λ y. less y x ≡ false) q

-- Of the jobs in the order in which they were queued, `j` is the first of the greatest priority.
pub record IsFirst (before : List Job) (j : Job) (after : List Job) : Type 0 where
  pub less_before : All (λ b. b.priority <ℤ j.priority) before
  pub none_greater : All (λ a. a.priority ≤ℤ j.priority) after

module _ (heap : HeapPop) where
  -- The jobs that wait in a queue, in the order in which they were pushed, after any pushes and pops.
  pub data Waits : JobQueue → List Job → Type 0 where
    empty : Waits new_job_queue []
    pushed : (q : JobQueue) (js : List Job) (j : Job) → Waits q js → Waits (push j q) (js ++ j ∷ [])
    popped :
        (q q' : JobQueue) (before : List Job) (j : Job) (after : List Job)
        → Waits q (before ++ j ∷ after)
        → pop_job heap q ≡ some (j, q')
        → IsFirst before j after
        → Waits q' (before ++ after)

abbrev pub Increasing : List WorkItem → Type 0
Increasing [] = Unit
Increasing (x ∷ q) = All (λ y. x.seq < y.seq) q × Increasing q

record IsNumbered (q : JobQueue) (js : List Job) : Type 0 where
  its_jobs : map (λ x. x.job) q.items ≡ js
  increasing : Increasing q.items
  at_most : All (λ x. x.seq ≤ q.seq) q.items

Increasing-snoc :
    (q : List WorkItem) (y : WorkItem)
    → Increasing q
    → All (λ x. x.seq < y.seq) q
    → Increasing (q ++ y ∷ [])
Increasing-snoc [] y i a = (tt, tt)
Increasing-snoc (x ∷ q) y i a = (All-append _ q (y ∷ []) i.0 (a.0, tt), Increasing-snoc q y i.1 a.1)

jobs_snoc :
    (q : List WorkItem) (y : WorkItem)
    → map (λ (x : WorkItem). x.job) (q ++ y ∷ []) ≡ map (λ (x : WorkItem). x.job) q ++ y.job ∷ []
jobs_snoc [] y = refl
jobs_snoc (x ∷ q) y = ap (λ z. x.job ∷ z) (jobs_snoc q y)

push-IsNumbered :
    (q : JobQueue) (js : List Job) (j : Job)
    → IsNumbered q js
    → IsNumbered (push j q) (js ++ j ∷ [])
unfolding push
push-IsNumbered q js j n = record {
  its_jobs =
      jobs_snoc q.items (record { job = j; seq = suc q.seq }) ∙ ap (λ z. z ++ j ∷ []) n.its_jobs;
  increasing =
      Increasing-snoc q.items _ n.increasing
        (All-mono _ _ q.items (λ x l. omega (arith, l)) n.at_most);
  at_most =
      All-append _ q.items _ (All-mono _ _ q.items (λ x l. omega (arith, l)) n.at_most)
        (omega arith, tt);
}

-- The queue around the item that is taken out
record IsSplit (q : List WorkItem) (x : WorkItem) : Type 0 where
  before : List WorkItem
  after : List WorkItem
  whole : q ≡ before ++ x ∷ after
  rest : without x.seq q ≡ before ++ after
  lower : All (λ b. b.job.priority <ℤ x.job.priority) before
  not_greater : All (λ a. a.job.priority ≤ℤ x.job.priority) after

not_less_after : (x y : WorkItem) → less y x ≡ false → y.job.priority ≤ℤ x.job.priority
unfolding less
not_less_after x y h = ground (arith, h)

not_less_before :
    (x y : WorkItem) → less y x ≡ false → y.seq < x.seq → y.job.priority <ℤ x.job.priority
unfolding less
not_less_before x y h l = ground (arith, h, l)

around_item :
    (q : List WorkItem) (x : WorkItem)
    → Increasing q
    → Memᴰ x q
    → All (λ y. less y x ≡ false) q
    → IsSplit q x
unfolding without
around_item [] x i m a = elim m [ ]
around_item (y ∷ q) x i (Memᴰ.head e) a = record {
  before = [];
  after = q;
  whole = ap (λ z. z ∷ q) (sym e);
  rest = ground (arith, ap (λ w. w.seq) e);
  lower = tt;
  not_greater = All-mono _ _ q (λ z. not_less_after x z) a.1;
}
around_item (y ∷ q) x i (Memᴰ.tail m) a =
    let s = around_item q x i.1 m a.1 in
    let l : y.seq < x.seq = All-Memᴰ _ q i.0 m in
    record {
      before = y ∷ s.before;
      after = s.after;
      whole = ap (λ z. y ∷ z) s.whole;
      rest = ground (arith, l, s.rest);
      lower = (not_less_before x y a.0 l, s.lower);
      not_greater = s.not_greater;
    }

All-tail :
    (P : Job → Type 0) (before : List Job) (j : Job) (after : List Job)
    → All P (before ++ j ∷ after)
    → P j
All-tail P [] j after h = h.0
All-tail P (b ∷ before) j after h = All-tail P before j after h.1

cons_parts {ℓ} : {A : Type ℓ} (x y : A) (xs ys : List A) → x ∷ xs ≡ y ∷ ys → (x ≡ y) × (xs ≡ ys)
cons_parts x y xs ys e = (ground (arith, e), ground (arith, e))

clash : (b j1 j2 : Job) → j1 ≡ b → b.priority <ℤ j2.priority → j2.priority ≤ℤ j1.priority → ⊥
clash b j1 j2 e l g = ground (arith, ap (λ j. j.priority) e, l, g)

-- The first of the greatest priority is one.
IsFirst-unique :
    (b1 b2 : List Job) (j1 j2 : Job) (a1 a2 : List Job)
    → b1 ++ j1 ∷ a1 ≡ b2 ++ j2 ∷ a2
    → IsFirst b1 j1 a1
    → IsFirst b2 j2 a2
    → b1 ++ a1 ≡ b2 ++ a2
IsFirst-unique [] [] j1 j2 a1 a2 e f g = (cons_parts j1 j2 a1 a2 e).1
IsFirst-unique [] (b ∷ b2) j1 j2 a1 a2 e f g =
    let (h, t) = cons_parts j1 b a1 (b2 ++ j2 ∷ a2) e in
    absurd (clash b j1 j2 h g.less_before.0 (All-tail _ b2 j2 a2 (subst (All _) t f.none_greater)))
IsFirst-unique (b ∷ b1) [] j1 j2 a1 a2 e f g =
    let (h, t) = cons_parts b j2 (b1 ++ j1 ∷ a1) a2 e in
    absurd (
      clash b j2 j1 (sym h) f.less_before.0
        (All-tail _ b1 j1 a1 (subst (All _) (sym t) g.none_greater)))
IsFirst-unique (b ∷ b1) (c ∷ b2) j1 j2 a1 a2 e f g =
    let (h, t) = cons_parts b c (b1 ++ j1 ∷ a1) (b2 ++ j2 ∷ a2) e in
    ap (λ x. x ∷ (b1 ++ a1)) h
    ∙ ap (λ x. c ∷ x)
        (IsFirst-unique b1 b2 j1 j2 a1 a2 t
          (record { less_before = f.less_before.1; none_greater = f.none_greater })
          (record { less_before = g.less_before.1; none_greater = g.none_greater }))

All-without_one :
    (P : WorkItem → Type 0) (before : List WorkItem) (x : WorkItem) (after : List WorkItem)
    → All P (before ++ x ∷ after)
    → All P (before ++ after)
All-without_one P [] x after h = h.1
All-without_one P (b ∷ before) x after h = (h.0, All-without_one P before x after h.1)

Increasing-without_one :
    (before : List WorkItem) (x : WorkItem) (after : List WorkItem)
    → Increasing (before ++ x ∷ after)
    → Increasing (before ++ after)
Increasing-without_one [] x after h = h.1
Increasing-without_one (b ∷ before) x after h =
    (All-without_one _ before x after h.0, Increasing-without_one before x after h.1)

jobs : List WorkItem → List Job
jobs q = map (λ x. x.job) q

jobs-append : (p q : List WorkItem) → jobs (p ++ q) ≡ jobs p ++ jobs q
unfolding jobs
jobs-append [] q = refl
jobs-append (x ∷ p) q = ap (λ z. x.job ∷ z) (jobs-append p q)

All-jobs : (P : Job → Type 0) (q : List WorkItem) → All (λ x. P x.job) q → All P (jobs q)
unfolding jobs
All-jobs P [] h = tt
All-jobs P (x ∷ q) h = (h.0, All-jobs P q h.1)

module _ (q : JobQueue) (js : List Job) (x : WorkItem) (s : IsSplit q.items x)
    (n : IsNumbered q js) where
  without_item :
      IsNumbered (record q { items = without x.seq q.items }) (jobs s.before ++ jobs s.after)
  unfolding jobs
  without_item = record {
    its_jobs = ap jobs s.rest ∙ jobs-append s.before s.after;
    increasing =
        subst Increasing (sym s.rest)
          (Increasing-without_one s.before x s.after (subst Increasing s.whole n.increasing));
    at_most =
        subst (All _) (sym s.rest)
          (All-without_one _ s.before x s.after (subst (All _) s.whole n.at_most));
  }

  split_jobs : js ≡ jobs s.before ++ x.job ∷ jobs s.after
  unfolding jobs
  split_jobs = sym n.its_jobs ∙ ap jobs s.whole ∙ jobs-append s.before (x ∷ s.after)

  split-IsFirst : IsFirst (jobs s.before) x.job (jobs s.after)
  split-IsFirst = record {
    less_before = All-jobs _ s.before s.lower;
    none_greater = All-jobs _ s.after s.not_greater;
  }

-- What a Pop hands out: nothing where no job waits, or the first one of the greatest priority, which alone
-- leaves the queue.
pub record IsHandedOut (heap : HeapPop) (js : List Job) (j : Job) (q : JobQueue) : Type 0 where
  pub before : List Job
  pub after : List Job
  pub whole : js ≡ before ++ j ∷ after
  pub first : IsFirst before j after
  pub left : Waits heap q (before ++ after)

abbrev pub PopAnswer : HeapPop → List Job → Option (Job × JobQueue) → Type 0
PopAnswer heap js none = js ≡ []
PopAnswer heap js (some (j, q)) = IsHandedOut heap js j q

module _ (heap : HeapPop) (least : (q : List WorkItem) → LeastOf q (heap q)) where
  popped_item :
      (q : JobQueue) (x : WorkItem) → heap q.items ≡ some x → Increasing q.items → IsSplit q.items x
  popped_item q x e i =
      let l : LeastOf q.items (some x) = subst (LeastOf q.items) e (least q.items) in
      around_item q.items x i l.0 l.1

  popped-IsNumbered :
      (q q' : JobQueue) (before : List Job) (j : Job) (after : List Job) (o : Option WorkItem)
      → IsNumbered q (before ++ j ∷ after)
      → heap q.items ≡ o
      → pop_item o q ≡ some (j, q')
      → IsFirst before j after
      → IsNumbered q' (before ++ after)
  popped-IsNumbered q q' before j after none n e h f = absurd (ground (arith, h))
  popped-IsNumbered q q' before j after (some x) n e h f =
      let s = popped_item q x e n.increasing in
      subst (λ z. IsNumbered z (before ++ after)) (ground (arith, h))
        (subst (IsNumbered (record q { items = without x.seq q.items }))
          (IsFirst-unique (jobs s.before) before x.job j (jobs s.after) after
            (sym (split_jobs q _ x s n)) (split-IsFirst q _ x s n) f)
          (without_item q _ x s n))

  Waits-IsNumbered : (q : JobQueue) (js : List Job) → Waits heap q js → IsNumbered q js
  unfolding pop_job
  Waits-IsNumbered _ _ empty = record { its_jobs = refl; increasing = tt; at_most = tt }
  Waits-IsNumbered _ _ (pushed q js j w) = push-IsNumbered q js j (Waits-IsNumbered q js w)
  Waits-IsNumbered _ _ (popped q q' before j after w e f) =
      popped-IsNumbered q q' before j after (heap q.items) (Waits-IsNumbered q _ w) refl e f

  pop_answer :
      (q : JobQueue) (js : List Job) (o : Option WorkItem)
      → Waits heap q js
      → IsNumbered q js
      → heap q.items ≡ o
      → PopAnswer heap js (pop_item o q)
  unfolding pop_job jobs
  pop_answer q js none w n e = sym n.its_jobs ∙ ap jobs (subst (LeastOf q.items) e (least q.items))
  pop_answer q js (some x) w n e =
      let s = popped_item q x e n.increasing in
      let whole = split_jobs q js x s n in
      record {
        before = jobs s.before;
        after = jobs s.after;
        whole = whole;
        first = split-IsFirst q js x s n;
        left =
            popped q _ (jobs s.before) x.job (jobs s.after) (subst (Waits heap q) whole w)
              (ap (λ o. pop_item o q) e) (split-IsFirst q js x s n);
      }

  -- Let heap.Pop choose a least item by Less. After any pushes and pops of a new queue, Pop answers no job only
  -- where none waits; otherwise it answers the job of the greatest priority that was pushed first among
  -- those, and the other jobs go on waiting in their order.
  pub pop_job_lem :
      (q : JobQueue) (js : List Job) → Waits heap q js → PopAnswer heap js (pop_job heap q)
  unfolding pop_job
  pop_job_lem q js w = pop_answer q js (heap q.items) w (Waits-IsNumbered q js w) refl
