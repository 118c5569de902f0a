-- ===== src/Queue/Dispatcher/Single.antt =====
-- One job at a time: the running row of the table is the job that the dispatcher waits for.
use kaos_control.Common.{
  ℕ, String, true, false, ◌≡◌, ◌≢◌, refl, sym, subst, ap, inl, inr, [], ◌∷◌, ◌++◌, Memᴰ, All,
  All-append, All-mono, arith, str_eq_iff, str_eq_refl, Option-cases, Option, none, some, ok,
}
use kaos_control.Queue.{JobState, cancelled, is_terminal, Job}
use kaos_control.Queue.Store.{
  Rows, is_running, has_id, update, insert, filled, positioned, enqueue, enqueue_direct,
  head_pending, started, dequeue, ended, get_by_id, cancel, recover_orphans,
}
use kaos_control.Queue.Store.Active.{Inv, DistinctIds, head_pending-Memᴰ, dequeue-Inv}
use kaos_control.Queue.Store.Lookup.{
  get_by_id-update, get_by_id-append, has_id-get_by_id, cancel_outcome_lem,
}

abbrev pub NoRunning : Rows → Type 0
NoRunning = All (λ k. is_running k.state ≡ false)

abbrev pub OnlyRunning : String → Rows → Type 0
OnlyRunning id = All (λ k. is_running k.state ≡ true → k.id ≡ id)

-- The table has the running job `j`, and no other running one.
pub record Holds (j : Job) (rows : Rows) : Type 0 where
  pub row : get_by_id j.id rows ≡ some j
  pub live : is_running j.state ≡ true
  pub only : OnlyRunning j.id rows

pub Holds-has_id : {j : Job} (rows : Rows) → Holds j rows → has_id j.id rows ≡ true
Holds-has_id {j} rows h = has_id-get_by_id j.id rows j h.row

module _ (id : String) (f : Job → Job) (idles : (j : Job) → is_running (f j).state ≡ false) where
  NoRunning-update : (rows : Rows) → NoRunning rows → NoRunning (update id f rows)
  unfolding update
  NoRunning-update [] h = tt
  NoRunning-update (j ∷ rows) h = (ground (arith, idles j, h.0), NoRunning-update rows h.1)

  OnlyRunning-update :
      (x : String) (rows : Rows) → OnlyRunning x rows → OnlyRunning x (update id f rows)
  unfolding update
  OnlyRunning-update x [] h = tt
  OnlyRunning-update x (j ∷ rows) h =
      ((λ live. ground (arith, idles j, h.0)), OnlyRunning-update x rows h.1)

  -- Ending the one running row leaves none.
  pub settled-NoRunning : (rows : Rows) → OnlyRunning id rows → NoRunning (update id f rows)
  unfolding update
  settled-NoRunning [] h = tt
  settled-NoRunning (j ∷ rows) h =
      (ground (arith, idles j, h.0, str_eq_iff j.id id), settled-NoRunning rows h.1)

-- A row that is not running joins the table.
pub Holds-append :
    {j : Job} (rows : Rows) (k : Job)
    → is_running k.state ≡ false
    → Holds j rows
    → Holds j (rows ++ k ∷ [])
Holds-append {j} rows k n h = record {
  row = rw get_by_id-append (rw (Holds-has_id rows h) h.row);
  live = h.live;
  only = All-append _ rows (k ∷ []) h.only ((λ live. cc), tt);
}

pub NoRunning-append :
    (rows : Rows) (k : Job)
    → is_running k.state ≡ false
    → NoRunning rows
    → NoRunning (rows ++ k ∷ [])
NoRunning-append rows k n h = All-append _ rows (k ∷ []) h (n, tt)

-- Another row's change.
Holds-update :
    {j : Job} (id : String) (f : Job → Job) (rows : Rows)
    → ((k : Job) → (f k).id ≡ k.id)
    → ((k : Job) → is_running (f k).state ≡ false)
    → j.id ≢ id
    → Holds j rows
    → Holds j (update id f rows)
Holds-update {j} id f rows ids idles ne h = record {
  row = rw (get_by_id-update j.id id f rows ids) (ground (arith, str_eq_iff j.id id, h.row));
  live = h.live;
  only = OnlyRunning-update id f idles j.id rows h.only;
}

-- Dequeue on a table with no running row.
OnlyRunning_of_NoRunning : (x : String) (rows : Rows) → NoRunning rows → OnlyRunning x rows
OnlyRunning_of_NoRunning x rows h = All-mono _ _ rows (λ k n live. cc) h

started-OnlyRunning :
    (id : String) (now : ℕ) (rows : Rows)
    → NoRunning rows
    → OnlyRunning id (update id (started now) rows)
unfolding update
started-OnlyRunning id now [] h = tt
started-OnlyRunning id now (k ∷ rows) h =
    ((λ live. ground (arith, str_eq_iff k.id id, h.0)), started-OnlyRunning id now rows h.1)

get_by_id_of_Memᴰ :
    {j : Job} (rows : Rows) → DistinctIds rows → Memᴰ j rows → get_by_id j.id rows ≡ some j
unfolding get_by_id has_id
get_by_id_of_Memᴰ [] d m = elim m [ ]
get_by_id_of_Memᴰ {j} (k ∷ rows) d (Memᴰ.head e) =
    ground (arith, str_eq_iff k.id j.id, ap (λ (x : Job). x.id) e)
get_by_id_of_Memᴰ {j} (k ∷ rows) d (Memᴰ.tail m) = ground (
  arith,
  str_eq_iff k.id j.id,
  get_by_id_of_Memᴰ rows d.1 m,
  has_id-get_by_id j.id rows j (get_by_id_of_Memᴰ rows d.1 m),
  d.0,
)

pub dequeue-some :
    (now : ℕ) (rows : Rows) (k : Job)
    → head_pending rows ≡ some k
    → dequeue now rows ≡ (some (started now k), update k.id (started now) rows)
unfolding dequeue
dequeue-some now rows k e = rw (e, dequeue)

pub dequeue-none :
    (now : ℕ) (rows : Rows) → head_pending rows ≡ none → dequeue now rows ≡ (none, rows)
unfolding dequeue
dequeue-none now rows e = rw (e, dequeue)

-- What Dequeue hands out is the row that it leaves running.
pub started-Holds :
    (now : ℕ) (rows : Rows) (k : Job)
    → Inv rows
    → NoRunning rows
    → head_pending rows ≡ some k
    → Holds (started now k) (update k.id (started now) rows)
started-Holds now rows k v n e = record {
  row = rw (
    get_by_id-update k.id k.id (started now) rows (λ j. refl),
    str_eq_refl,
    get_by_id_of_Memᴰ rows v.ids (head_pending-Memᴰ rows e).0,
  );
  live = refl;
  only = started-OnlyRunning k.id now rows n;
}

pub started-Inv :
    (now : ℕ) (rows : Rows) (k : Job)
    → Inv rows
    → head_pending rows ≡ some k
    → Inv (update k.id (started now) rows)
started-Inv now rows k v e =
    subst (λ (p : Option Job × Rows). Inv p.1) (dequeue-some now rows k e) (dequeue-Inv now rows v)

-- The rows after a successful Enqueue, EnqueueDirect or Cancel.
pub enqueue_rows :
    (fresh : String) (now : ℕ) (j : Job) (rows rows' : Rows)
    → enqueue fresh now j rows ≡ ok rows'
    → (k : Job) × (rows' ≡ rows ++ k ∷ []) × (is_running k.state ≡ false)
unfolding enqueue insert positioned filled
enqueue_rows fresh now j rows rows' h =
    (positioned rows (filled fresh now j), ground arith, ground arith)

pub enqueue_direct_rows :
    (fresh : String) (now : ℕ) (j : Job) (rows rows' : Rows)
    → enqueue_direct fresh now j rows ≡ ok rows'
    → (rows' ≡ rows ++ filled fresh now j ∷ []) × (is_running (filled fresh now j).state ≡ false)
unfolding enqueue_direct insert filled
enqueue_direct_rows fresh now j rows rows' h = (ground arith, ground arith)

pub cancel_rows :
    (id : String) (now : ℕ) (rows rows' : Rows)
    → cancel id now rows ≡ ok rows'
    → (rows' ≡ update id (ended cancelled "cancelled_by_user" now) rows)
      × ((j : Job) → get_by_id id rows ≡ some j → is_running j.state ≡ false)
cancel_rows id now rows rows' h = elim (Option-cases (get_by_id id rows)) [
  | inl e ↦ cc (rw (cancel_outcome_lem id now rows, e) at h)
  | inr (j, e) ↦ (
    ground (arith, cancel_outcome_lem id now rows),
    (λ k f. ground (arith, cancel_outcome_lem id now rows)),
  )
]

-- What a user's Enqueue or Cancel does to the job that is running: nothing.
pub enqueue-Holds :
    {j : Job} (fresh : String) (now : ℕ) (new : Job) (rows rows' : Rows)
    → enqueue fresh now new rows ≡ ok rows'
    → Holds j rows
    → Holds j rows'
enqueue-Holds fresh now new rows rows' e h =
    let (k, grown, idle) = enqueue_rows fresh now new rows rows' e in
    subst (Holds _) (sym grown) (Holds-append rows k idle h)

pub enqueue-NoRunning :
    (fresh : String) (now : ℕ) (new : Job) (rows rows' : Rows)
    → enqueue fresh now new rows ≡ ok rows'
    → NoRunning rows
    → NoRunning rows'
enqueue-NoRunning fresh now new rows rows' e h =
    let (k, grown, idle) = enqueue_rows fresh now new rows rows' e in
    subst NoRunning (sym grown) (NoRunning-append rows k idle h)

pub cancel-Holds :
    {j : Job} (id : String) (now : ℕ) (rows rows' : Rows)
    → cancel id now rows ≡ ok rows'
    → Holds j rows
    → Holds j rows'
cancel-Holds {j} id now rows rows' e h =
    let (changed, idle) = cancel_rows id now rows rows' e in
    subst (Holds j) (sym changed) (
      Holds-update id _ rows (λ k. refl) (λ k. refl)
        (λ same. cc (idle j (subst (λ x. get_by_id x rows ≡ some j) same h.row), h.live)) h)

pub cancel-NoRunning :
    (id : String) (now : ℕ) (rows rows' : Rows)
    → cancel id now rows ≡ ok rows'
    → NoRunning rows
    → NoRunning rows'
cancel-NoRunning id now rows rows' e h =
    let (changed, idle) = cancel_rows id now rows rows' e in
    subst NoRunning (sym changed) (NoRunning-update id _ (λ k. refl) rows h)

running-not_terminal : (st : JobState) → is_terminal st ≡ true → is_running st ≡ false
unfolding is_terminal
running-not_terminal st h = ground arith

-- MarkTerminal on the running job.
pub ended-NoRunning :
    {j : Job} (state : JobState) (reason : String) (now : ℕ) (rows : Rows)
    → is_terminal state ≡ true
    → Holds j rows
    → NoRunning (update j.id (ended state reason now) rows)
ended-NoRunning state reason now rows t h =
    settled-NoRunning _ (ended state reason now) (λ k. running-not_terminal state t) rows h.only

pub recover_orphans-NoRunning : (rows : Rows) → NoRunning (recover_orphans rows)
unfolding recover_orphans
recover_orphans-NoRunning [] = tt
recover_orphans-NoRunning (j ∷ rows) = (ground arith, recover_orphans-NoRunning rows)
