-- ===== src/Queue/Store/Active.antt =====
-- The two rules that the table of jobs obeys: no id twice, and at most one active (pending or
-- running) job for each artifact of a project.
use kaos_control.Common.{
  ℕ, String, true, false, ◌≡◌, refl, sym, subst, ◌||◌, ◌⊎◌, inl, inr, [], ◌∷◌, ◌++◌, Memᴰ, All,
  All-of_Memᴰ, All-mono, ap, arith, str_eq, str_eq_iff, Bool-cases, Option-cases, some, Result, ◌∙◌,
  ok, err,
}
use kaos_control.Queue.{JobState, is_terminal, Job, cancelled}
use kaos_control.Queue.Store.{
  Rows, StoreError, is_active, is_pending, has_id, has_active, update, filled, positioned, insert,
  enqueue, enqueue_direct, head_pending, started, dequeue, ended, mark_terminal, check_cancel,
  get_by_id, cancel, recover_orphans,
}

abbrev pub DistinctIds : Rows → Type 0
DistinctIds [] = Unit
DistinctIds (j ∷ rows) = (has_id j.id rows ≡ false) × DistinctIds rows

abbrev pub Apart : Rows → Type 0
Apart [] = Unit
Apart (j ∷ rows) =
    (is_active j.state ≡ true → has_active j.project j.artifact_path rows ≡ false) × Apart rows

pub record Inv (rows : Rows) : Type 0 where
  pub ids : DistinctIds rows
  pub apart : Apart rows

pub has_id-append :
    (id : String) (rows more : Rows) → has_id id (rows ++ more) ≡ (has_id id rows || has_id id more)
unfolding has_id
has_id-append id [] more = refl
has_id-append id (j ∷ rows) more = ground (arith, has_id-append id rows more)

pub has_active-append :
    (p a : String) (rows more : Rows)
    → has_active p a (rows ++ more) ≡ (has_active p a rows || has_active p a more)
unfolding has_active
has_active-append p a [] more = refl
has_active-append p a (j ∷ rows) more = ground (arith, has_active-append p a rows more)

DistinctIds-snoc :
    (rows : Rows) (j : Job)
    → DistinctIds rows
    → has_id j.id rows ≡ false
    → DistinctIds (rows ++ j ∷ [])
unfolding has_id
DistinctIds-snoc [] j d h = (refl, tt)
DistinctIds-snoc (k ∷ rows) j d h = (
  ground (arith, has_id-append k.id rows (j ∷ []), str_eq_iff j.id k.id, str_eq_iff k.id j.id),
  DistinctIds-snoc rows j d.1 (ground arith),
)

Apart-snoc :
    (rows : Rows) (j : Job)
    → Apart rows
    → has_active j.project j.artifact_path rows ≡ false
    → Apart (rows ++ j ∷ [])
unfolding has_active
Apart-snoc [] j d h = (λ _. refl, tt)
Apart-snoc (k ∷ rows) j d h = (
  (λ live. ground (
    arith,
    has_active-append k.project k.artifact_path rows (j ∷ []),
    str_eq_iff j.project k.project,
    str_eq_iff k.project j.project,
    str_eq_iff j.artifact_path k.artifact_path,
    str_eq_iff k.artifact_path j.artifact_path,
    d.0 live,
  )),
  Apart-snoc rows j d.1 (ground arith),
)

insert-Inv :
    (j : Job) {rows rows' : Rows}
    → Inv rows
    → has_active j.project j.artifact_path rows ≡ false
    → insert j rows ≡ ok rows'
    → Inv rows'
unfolding insert
insert-Inv j {rows = rows} v free h = elim (Bool-cases (has_id j.id rows)) [
  | inl dup ↦ ground arith
  | inr new ↦
      subst Inv (ground arith)
        (record { ids = DistinctIds-snoc rows j v.ids new; apart = Apart-snoc rows j v.apart free })
]

pub enqueue-Inv :
    (fresh : String) (now : ℕ) (j : Job) {rows rows' : Rows}
    → Inv rows
    → enqueue fresh now j rows ≡ ok rows'
    → Inv rows'
unfolding enqueue positioned filled
enqueue-Inv fresh now j {rows = rows} v h =
    elim (Bool-cases (has_active j.project j.artifact_path rows)) [
      | inl dup ↦ ground arith
      | inr free ↦ insert-Inv (positioned rows (filled fresh now j)) v (ground arith) (ground arith)
    ]

pub enqueue_direct-Inv :
    (fresh : String) (now : ℕ) (j : Job) {rows rows' : Rows}
    → Inv rows
    → has_active j.project j.artifact_path rows ≡ false
    → enqueue_direct fresh now j rows ≡ ok rows'
    → Inv rows'
unfolding enqueue_direct filled
enqueue_direct-Inv fresh now j v free h = insert-Inv (filled fresh now j) v free h

-- A change of a row that keeps its key and wakes no ended job.
pub record Calm (j k : Job) : Type 0 where
  pub id : k.id ≡ j.id
  pub project : k.project ≡ j.project
  pub path : k.artifact_path ≡ j.artifact_path
  pub live : is_active k.state ≡ true → is_active j.state ≡ true

-- `f` is calm on the rows that the UPDATE changes.
abbrev pub CalmAt : String → (Job → Job) → Rows → Type 0
CalmAt id f = All (λ j. str_eq j.id id ≡ true → Calm j (f j))

has_id-update :
    (x id : String) (f : Job → Job) (rows : Rows)
    → CalmAt id f rows
    → has_id x (update id f rows) ≡ has_id x rows
unfolding has_id update
has_id-update x id f [] c = refl
has_id-update x id f (j ∷ rows) c = elim (Bool-cases (str_eq j.id id)) [
  | inl e ↦ rw (e, (c.0 e).id, has_id-update x id f rows c.1)
  | inr e ↦ rw (e, has_id-update x id f rows c.1)
]

pub has_active-update :
    (p a id : String) (f : Job → Job) (rows : Rows)
    → CalmAt id f rows
    → has_active p a rows ≡ false
    → has_active p a (update id f rows) ≡ false
unfolding has_active update
has_active-update p a id f [] c h = refl
has_active-update p a id f (j ∷ rows) c h = elim (Bool-cases (str_eq j.id id)) [
  | inl e ↦
      rw (e, (c.0 e).project, (c.0 e).path)
        (ground (arith, has_active-update p a id f rows c.1, (c.0 e).live))
  | inr e ↦ rw e (ground (arith, has_active-update p a id f rows c.1))
]

pub update-Inv :
    (id : String) (f : Job → Job) (rows : Rows)
    → CalmAt id f rows
    → Inv rows
    → Inv (update id f rows)
unfolding update
update-Inv id f [] c v = v
update-Inv id f (j ∷ rows) c v =
    let rest = update-Inv id f rows c.1 (record { ids = v.ids.1; apart = v.apart.1 }) in
    elim (Bool-cases (str_eq j.id id)) [
      | inl e ↦ rw e (record {
        ids = (rw (c.0 e).id (has_id-update j.id id f rows c.1 ∙ v.ids.0), rest.ids);
        apart = (
          (λ live.
              rw ((c.0 e).project, (c.0 e).path)
                (has_active-update j.project j.artifact_path id f rows c.1
                  (v.apart.0 ((c.0 e).live live)))),
          rest.apart,
        );
      })
      | inr e ↦ rw e (record {
        ids = (has_id-update j.id id f rows c.1 ∙ v.ids.0, rest.ids);
        apart = (
          (λ live. has_active-update j.project j.artifact_path id f rows c.1 (v.apart.0 live)),
          rest.apart,
        );
      })
    ]

pub head_pending_cases :
    (k : Job) (rows : Rows) {j : Job}
    → head_pending (k ∷ rows) ≡ some j
    → ((k ≡ j) × (is_pending k.state ≡ true)) ⊎ (head_pending rows ≡ some j)
unfolding head_pending
head_pending_cases k rows h = ground arith

-- The row that Dequeue takes stands in the table and is pending.
pub head_pending-Memᴰ :
    (rows : Rows) {j : Job} → head_pending rows ≡ some j → Memᴰ j rows × (is_pending j.state ≡ true)
unfolding head_pending
head_pending-Memᴰ [] h = cc
head_pending-Memᴰ (k ∷ rows) h = elim (head_pending_cases k rows h) [
  | inl (e, p) ↦ (Memᴰ.head (sym e), subst (λ x. is_pending x.state ≡ true) e p)
  | inr later ↦ let (m, p) = head_pending-Memᴰ rows later in (Memᴰ.tail m, p)
]

has_id-Memᴰ : {j : Job} (rows : Rows) → Memᴰ j rows → has_id j.id rows ≡ true
unfolding has_id
has_id-Memᴰ [] m = elim m [ ]
has_id-Memᴰ {j} (k ∷ rows) (Memᴰ.head e) =
    ground (arith, str_eq_iff k.id j.id, ap (λ (x : Job). x.id) e)
has_id-Memᴰ (k ∷ rows) (Memᴰ.tail m) = ground (arith, has_id-Memᴰ rows m)

-- With distinct ids, the row of an id is the only one.
pub row_of_id :
    {j : Job} (rows : Rows)
    → DistinctIds rows
    → Memᴰ j rows
    → All (λ k. str_eq k.id j.id ≡ true → k ≡ j) rows
row_of_id [] d m = tt
row_of_id {j} (k ∷ rows) d (Memᴰ.head e) = (
  (λ _. sym e),
  All-of_Memᴰ _ rows (λ x mx same.
      ground (arith, has_id-Memᴰ rows mx, str_eq_iff x.id j.id, ap (λ (y : Job). y.id) e, d.0)),
)
row_of_id {j} (k ∷ rows) d (Memᴰ.tail m) =
    ((λ same. ground (arith, has_id-Memᴰ rows m, str_eq_iff k.id j.id, d.0)), row_of_id rows d.1 m)

pub dequeue-Inv : (now : ℕ) (rows : Rows) → Inv rows → Inv (dequeue now rows).1
unfolding dequeue
dequeue-Inv now rows v = elim (Option-cases (head_pending rows)) [
  | inl e ↦ rw (e, dequeue) v
  | inr (j, e) ↦
      let (m, p) = head_pending-Memᴰ rows e in
      rw (e, dequeue)
        (update-Inv j.id (started now) rows
          (All-mono _ _ rows
            (λ k same at. record {
              id = refl;
              project = refl;
              path = refl;
              live = λ _. rw (same at) (pending-active j.state p);
            })
            (row_of_id rows v.ids m))
          v)
]
  where
    pending-active : (st : JobState) → is_pending st ≡ true → is_active st ≡ true
    pending-active st h = ground arith

pub ended-CalmAt :
    (id : String) (state : JobState) (reason : String) (now : ℕ) (rows : Rows)
    → is_terminal state ≡ true
    → CalmAt id (ended state reason now) rows
unfolding is_terminal
ended-CalmAt id state reason now [] t = tt
ended-CalmAt id state reason now (j ∷ rows) t = (
  (λ _. record { id = refl; project = refl; path = refl; live = λ a. ground arith }),
  ended-CalmAt id state reason now rows t,
)

pub mark_terminal-Inv :
    (id : String) (state : JobState) (reason : String) (now : ℕ) {rows rows' : Rows}
    → Inv rows
    → mark_terminal id state reason now rows ≡ ok rows'
    → Inv rows'
unfolding mark_terminal
mark_terminal-Inv id state reason now {rows = rows} v h = elim (Bool-cases (is_terminal state)) [
  | inl t ↦
      subst Inv (ground arith)
        (update-Inv id (ended state reason now) rows (ended-CalmAt id state reason now rows t) v)
  | inr n ↦ ground arith
]

pub cancel-Inv :
    (id : String) (now : ℕ) {rows rows' : Rows}
    → Inv rows
    → cancel id now rows ≡ ok rows'
    → Inv rows'
unfolding cancel
cancel-Inv id now {rows = rows} v h = elim (check_cases (check_cancel (get_by_id id rows))) [
  | inl e ↦ mark_terminal-Inv id cancelled "cancelled_by_user" now v (rw e at h)
  | inr (x, e) ↦ cc (rw e at h)
]
  where
    check_cases :
        (r : Result StoreError (Unit {0})) → (r ≡ ok tt) ⊎ ((x : StoreError) × (r ≡ err x))
    check_cases (ok tt) = inl refl
    check_cases (err x) = inr (x, refl)

has_id-recover_orphans :
    (id : String) (rows : Rows) → has_id id (recover_orphans rows) ≡ has_id id rows
unfolding has_id recover_orphans
has_id-recover_orphans id [] = refl
has_id-recover_orphans id (j ∷ rows) = ground (arith, has_id-recover_orphans id rows)

has_active-recover_orphans :
    (p a : String) (rows : Rows) → has_active p a (recover_orphans rows) ≡ has_active p a rows
unfolding has_active recover_orphans
has_active-recover_orphans p a [] = refl
has_active-recover_orphans p a (j ∷ rows) = ground (arith, has_active-recover_orphans p a rows)

pub recover_orphans-Inv : (rows : Rows) → Inv rows → Inv (recover_orphans rows)
unfolding recover_orphans
recover_orphans-Inv [] v = v
recover_orphans-Inv (j ∷ rows) v =
    let rest = recover_orphans-Inv rows (record { ids = v.ids.1; apart = v.apart.1 }) in
    record {
      ids = (ground (arith, has_id-recover_orphans j.id rows), rest.ids);
      apart = (
        (λ live.
            ground (arith, v.apart.0, has_active-recover_orphans j.project j.artifact_path rows)),
        rest.apart,
      );
    }
