-- ===== src/Triage/Exclusive.antt =====
-- Runs exclude each other.
use kaos_control.Common.{
  ℕ, ◌+◌, ◌-◌, ◌≤◌, String, Bool, true, false, Option, none, some, List, [], ◌∷◌, ◌≡◌, ◌≢◌, refl,
  sym, ap, ◌∙◌, subst, All, if◌then◌else◌, arith, str_eq, str_eq_iff, Bool-cases, inl, inr, ltb,
}
use kaos_control.Triage.{
  RunId, put, Manager, Stage, Thread, Answer, at, lineage_locked, waiting, slotted, lock_held,
  running, slot_freed, lock_freed, begin_trigger, take_slot, acquire, acquire_at, register,
  register_at, free_slot, free_lock, end_run, cool, new, waits, or_coalesced, eligible, Eligibility,
  store_failed, ineligible, is_eligible,
}
use kaos_control.Triage.Threads.{
  Pick, here, there, World, holds_slot, holds_lock, in_progress, world, Step, Steps, stay, next,
  begun, gave_up, slot_taken, lock_tried, registered, run_ended, lock_given_back, run_left, cooled,
  others_lock, others_unlock,
}

put_other {ℓ} : {A : Type ℓ} (k x : String) (v : A) (f : String → A) → x ≢ k → put k v f x ≡ f x
put_other k x v f h = elim (Bool-cases (str_eq x k)) [
  | inl e ↦ absurd (h ((str_eq_iff x k).0 e))
  | inr e ↦ rw e refl
]

pub put_same {ℓ} : {A : Type ℓ} (k : String) (v : A) (f : String → A) → put k v f k ≡ v
put_same k v f = rw ((str_eq_iff k k).1 refl) refl

-- What the manager has for a thread.
pub record Owns (locks in_flight : String → Option RunId) (cooling : String → Bool) (t : Thread)
    : Type 0 where
  pub lock : holds_lock t.stage ≡ true → locks t.lineage ≡ some t.run
  pub entry : in_progress t.stage ≡ true → in_flight t.path ≡ some t.run
  pub warm : in_progress t.stage ≡ true → cooling t.path ≡ false

-- Two threads that do not hold one lineage, nor run for one path.
pub record Apart (t u : Thread) : Type 0 where
  pub lineages : holds_lock t.stage ≡ true → holds_lock u.stage ≡ true → t.lineage ≢ u.lineage
  pub paths : in_progress t.stage ≡ true → in_progress u.stage ≡ true → t.path ≢ u.path

abbrev pub Pairwise : List Thread → Type 0
Pairwise [] = Unit
Pairwise (t ∷ ts) = All (Apart t) ts × Pairwise ts

pub slots_of : List Thread → ℕ
slots_of [] = 0
slots_of (t ∷ ts) = (if holds_slot t.stage then 1 else 0) + slots_of ts

-- The slots are those of the threads and no more than allowed; what holds a lineage has its lock, and each run its entry.
pub record IsExclusive (w : World) : Type 0 where
  pub slots : w.manager.slots ≡ slots_of w.threads
  pub at_most : w.manager.slots ≤ w.manager.max_concurrent
  pub owns : All (Owns w.manager.locks w.manager.in_flight w.manager.cooling) w.threads
  pub apart : Pairwise w.threads
  pub clean : (p : String) → w.manager.in_flight p ≡ none → w.manager.cooling p ≡ false

Apart-sym : (t u : Thread) → Apart t u → Apart u t
Apart-sym t u a = record {
  lineages = λ h k e. a.lineages k h (sym e);
  paths = λ h k e. a.paths k h (sym e);
}

Pick-All {ℓ κ} :
    {A : Type ℓ} (P : A → Type κ) (x : A) (xs ys : List A)
    → Pick x xs ys
    → All P ys
    → P x × All P xs
Pick-All P x xs ys (here _) h = h
Pick-All P x xs ys (there y zs us p) h = let (a, b) = Pick-All P x zs us p h.1 in (a, (h.0, b))

Pick-Pairwise :
    (t : Thread) (rest ts : List Thread)
    → Pick t rest ts
    → Pairwise ts
    → All (Apart t) rest × Pairwise rest
Pick-Pairwise t rest ts (here _) h = h
Pick-Pairwise t rest ts (there u rs us p) h =
    let (a, b) = Pick-Pairwise t rs us p h.1 in
    let (c, d) = Pick-All (Apart u) t rs us p h.0 in ((Apart-sym u t c, a), (d, b))

Pick-slots :
    (t : Thread) (rest ts : List Thread)
    → Pick t rest ts
    → slots_of ts ≡ (if holds_slot t.stage then 1 else 0) + slots_of rest
unfolding slots_of
Pick-slots t rest ts (here _) = refl
Pick-slots t rest ts (there u rs us p) = omega (arith, Pick-slots t rs us p)

All-both {ℓ κ μ ν} :
    {A : Type ℓ} (P : A → Type κ) (Q : A → Type μ) (R : A → Type ν) (xs : List A)
    → ((x : A) → P x → Q x → R x)
    → All P xs
    → All Q xs
    → All R xs
All-both P Q R [] f p q = tt
All-both P Q R (x ∷ xs) f p q = (f x p.0 q.0, All-both P Q R xs f p.1 q.1)

-- A manager, a thread at a stage, and the other threads.
record Picked (m : Manager) (t : Thread) (rest : List Thread) : Type 0 where
  slots : m.slots ≡ (if holds_slot t.stage then 1 else 0) + slots_of rest
  at_most : m.slots ≤ m.max_concurrent
  own : Owns m.locks m.in_flight m.cooling t
  owns : All (Owns m.locks m.in_flight m.cooling) rest
  near : All (Apart t) rest
  apart : Pairwise rest
  clean : (p : String) → m.in_flight p ≡ none → m.cooling p ≡ false

picked :
    (w : World) (t : Thread) (rest : List Thread) (s : Stage)
    → Pick t rest w.threads
    → t.stage ≡ s
    → IsExclusive w
    → Picked w.manager (at s t) rest
picked w t rest s p e v =
    let (own, owns) = Pick-All _ t rest w.threads p v.owns in
    let (near, apart) = Pick-Pairwise t rest w.threads p v.apart in
    subst (λ s. Picked w.manager (at s t) rest) e
      (record {
        slots = v.slots ∙ Pick-slots t rest w.threads p;
        at_most = v.at_most;
        own = own;
        owns = owns;
        near = near;
        apart = apart;
        clean = v.clean;
      })

-- A thread that holds nothing
nothing-Owns :
    (locks in_flight : String → Option RunId) (cooling : String → Bool) (t : Thread)
    → holds_lock t.stage ≡ false
    → in_progress t.stage ≡ false
    → Owns locks in_flight cooling t
nothing-Owns locks in_flight cooling t a b = record {
  lock = λ h. absurd (ground (arith, a, h));
  entry = λ h. absurd (ground (arith, b, h));
  warm = λ h. absurd (ground (arith, b, h));
}

nothing-Apart :
    (t : Thread) (ts : List Thread)
    → holds_lock t.stage ≡ false
    → in_progress t.stage ≡ false
    → All (Apart t) ts
nothing-Apart t [] a b = tt
nothing-Apart t (u ∷ ts) a b = (
  record {
    lineages = λ h k. absurd (ground (arith, a, h));
    paths = λ h k. absurd (ground (arith, b, h));
  },
  nothing-Apart t ts a b,
)

-- What the others own, when the tables change where `t` holds them.
module _ (locks in_flight : String → Option RunId) (cooling : String → Bool) (t u : Thread) where
  Owns-unlock :
      holds_lock t.stage ≡ true
      → Apart t u
      → Owns locks in_flight cooling u
      → Owns (put t.lineage none locks) in_flight cooling u
  Owns-unlock k a o = record {
    lock = λ h. put_other t.lineage u.lineage none locks (λ e. a.lineages k h (sym e)) ∙ o.lock h;
    entry = o.entry;
    warm = o.warm;
  }

  Owns-lock :
      locks t.lineage ≡ none
      → Owns locks in_flight cooling u
      → Owns (put t.lineage (some t.run) locks) in_flight cooling u
  Owns-lock k o = record {
    lock =
        λ h. put_other t.lineage u.lineage (some t.run) locks (λ e. other (o.lock h) e) ∙ o.lock h;
    entry = o.entry;
    warm = o.warm;
  }
    where
      other : locks u.lineage ≡ some u.run → u.lineage ≢ t.lineage
      other l e = ground (arith, l, ap locks e, k)

  Owns-enter :
      in_flight t.path ≡ none
      → Owns locks in_flight cooling u
      → Owns locks (put t.path (some t.run) in_flight) cooling u
  Owns-enter k o = record {
    lock = o.lock;
    entry =
        λ h. put_other t.path u.path (some t.run) in_flight (λ e. other (o.entry h) e) ∙ o.entry h;
    warm = o.warm;
  }
    where
      other : in_flight u.path ≡ some u.run → u.path ≢ t.path
      other l e = ground (arith, l, ap in_flight e, k)

  Owns-leave :
      in_progress t.stage ≡ true
      → Apart t u
      → Owns locks in_flight cooling u
      → Owns locks (put t.path none in_flight) cooling u
  Owns-leave k a o = record {
    lock = o.lock;
    entry = λ h. put_other t.path u.path none in_flight (λ e. a.paths k h (sym e)) ∙ o.entry h;
    warm = o.warm;
  }

  Owns-zombie :
      in_progress t.stage ≡ true
      → Apart t u
      → Owns locks in_flight cooling u
      → Owns locks in_flight (put t.path true cooling) u
  Owns-zombie k a o = record {
    lock = o.lock;
    entry = o.entry;
    warm = λ h. put_other t.path u.path true cooling (λ e. a.paths k h (sym e)) ∙ o.warm h;
  }

-- A thread that has just taken a lock, or an entry, shares it with none.
module _ (locks in_flight : String → Option RunId) (cooling : String → Bool) (t u : Thread) where
  Apart-locked : locks t.lineage ≡ none → Owns locks in_flight cooling u → Apart (at lock_held t) u
  Apart-locked k o = record {
    lineages = λ h l e. ground (arith, o.lock l, ap locks e, k);
    paths = λ h l e. absurd (ground (arith, h));
  }

  Apart-entered :
      in_flight t.path ≡ none
      → Apart (at lock_held t) u
      → Owns locks in_flight cooling u
      → Apart (at running t) u
  Apart-entered k a o = record {
    lineages = λ h l. a.lineages h l;
    paths = λ h l e. ground (arith, o.entry l, ap in_flight e, k);
  }

module _ (m : Manager) (t : Thread) (rest : List Thread) where
  -- The thread is gone and held nothing.
  gone :
      (s : Stage)
      → holds_slot s ≡ false
      → Picked m (at s t) rest
      → IsExclusive (record { manager = m; threads = rest })
  gone s e v = record {
    slots = ground (arith, v.slots, e);
    at_most = v.at_most;
    owns = v.owns;
    apart = v.apart;
    clean = v.clean;
  }

  take_slot_keeps :
      Picked m (at waiting t) rest → IsExclusive (world (take_slot m (at waiting t)) rest)
  unfolding take_slot slots_of
  take_slot_keeps v = elim (Bool-cases (ltb m.slots m.max_concurrent)) [
    | inl e ↦
        rw (take_slot, e)
          (record {
            slots = omega (arith, v.slots);
            at_most = ground (arith, e);
            owns = (nothing-Owns m.locks m.in_flight m.cooling (at slotted t) refl refl, v.owns);
            apart = (nothing-Apart (at slotted t) rest refl refl, v.apart);
            clean = v.clean;
          })
    | inr e ↦
        rw (take_slot, e)
          (record {
            slots = v.slots;
            at_most = v.at_most;
            owns = (v.own, v.owns);
            apart = (v.near, v.apart);
            clean = v.clean;
          })
  ]

  acquired_keeps :
      (o : Option RunId)
      → m.locks t.lineage ≡ o
      → Picked m (at slotted t) rest
      → IsExclusive (world (acquire_at o m (at slotted t)) rest)
  unfolding slots_of
  acquired_keeps none e v = record {
    slots = v.slots;
    at_most = v.at_most;
    owns = (
      record {
        lock = λ h. put_same t.lineage (some t.run) m.locks;
        entry = λ h. absurd (ground (arith, h));
        warm = λ h. absurd (ground (arith, h));
      },
      All-both (Apart (at slotted t)) _ _ rest
          (λ u a o. Owns-lock m.locks m.in_flight m.cooling t u e o) v.near v.owns,
    );
    apart = (
      All-both (Apart (at slotted t)) _ _ rest
          (λ u a o. Apart-locked m.locks m.in_flight m.cooling t u e o) v.near v.owns,
      v.apart,
    );
    clean = v.clean;
  }
  acquired_keeps (some holder) e v = refused (m.in_flight t.path)
    where
      refused :
          (o : Option RunId)
          → IsExclusive
              (world (record m { slots = m.slots - 1 }, or_coalesced lineage_locked o) rest)
      refused none = record {
        slots = omega (arith, v.slots);
        at_most = omega (arith, v.at_most);
        owns = v.owns;
        apart = v.apart;
        clean = v.clean;
      }
      refused (some run) = record {
        slots = omega (arith, v.slots);
        at_most = omega (arith, v.at_most);
        owns = v.owns;
        apart = v.apart;
        clean = v.clean;
      }

  registered_keeps :
      (o : Option RunId)
      → m.in_flight t.path ≡ o
      → Picked m (at lock_held t) rest
      → IsExclusive (world (register_at o m (at lock_held t)) rest)
  unfolding slots_of
  registered_keeps none e v = record {
    slots = v.slots;
    at_most = v.at_most;
    owns = (
      record {
        lock = λ h. v.own.lock refl;
        entry = λ h. put_same t.path (some t.run) m.in_flight;
        warm = λ h. v.clean t.path e;
      },
      All-both (Apart (at lock_held t)) _ _ rest
          (λ u a o. Owns-enter m.locks m.in_flight m.cooling t u e o) v.near v.owns,
    );
    apart = (
      All-both (Apart (at lock_held t)) _ _ rest
          (λ u a o. Apart-entered m.locks m.in_flight m.cooling t u e a o) v.near v.owns,
      v.apart,
    );
    clean = λ p h. v.clean p (before p h);
  }
    where
      before : (p : String) → put t.path (some t.run) m.in_flight p ≡ none → m.in_flight p ≡ none
      before p h = elim (Bool-cases (str_eq p t.path)) [
        | inl q ↦ absurd (ground (arith, rw q at h))
        | inr q ↦ rw q at h
      ]
  registered_keeps (some run) e v = record {
    slots = omega (arith, v.slots);
    at_most = omega (arith, v.at_most);
    owns =
        All-both (Apart (at lock_held t)) _ _ rest
          (λ u a o. Owns-unlock m.locks m.in_flight m.cooling (at lock_held t) u refl a o) v.near
          v.owns;
    apart = v.apart;
    clean = v.clean;
  }

  free_slot_keeps :
      (b : Bool)
      → Picked m (at running t) rest
      → IsExclusive (world (free_slot b m (at running t)) rest)
  unfolding free_slot slots_of
  free_slot_keeps b v = record {
    slots = omega (arith, v.slots);
    at_most = omega (arith, v.at_most);
    owns = (
      record {
        lock = λ h. v.own.lock refl;
        entry = λ h. v.own.entry refl;
        warm = λ h. v.own.warm refl;
      },
      v.owns,
    );
    apart = (
      All-both (Apart (at running t)) _ _ rest
          (λ u a o. record { lineages = λ h l. a.lineages refl l; paths = λ h l. a.paths refl l })
          v.near v.owns,
      v.apart,
    );
    clean = v.clean;
  }

  free_lock_keeps :
      (b : Bool)
      → Picked m (at (slot_freed b) t) rest
      → IsExclusive (world (free_lock b m (at (slot_freed b) t)) rest)
  unfolding free_lock slots_of
  free_lock_keeps b v = record {
    slots = v.slots;
    at_most = v.at_most;
    owns = (
      record {
        lock = λ h. absurd (ground (arith, h));
        entry = λ h. v.own.entry refl;
        warm = λ h. v.own.warm refl;
      },
      All-both (Apart (at (slot_freed b) t)) _ _ rest
          (λ u a o. Owns-unlock m.locks m.in_flight m.cooling (at (slot_freed b) t) u refl a o)
          v.near v.owns,
    );
    apart = (
      All-both (Apart (at (slot_freed b) t)) _ _ rest
          (λ u a o. record {
            lineages = λ h l. absurd (ground (arith, h));
            paths = λ h l. a.paths refl l;
          })
          v.near v.owns,
      v.apart,
    );
    clean = v.clean;
  }

  end_run_keeps :
      (b : Bool)
      → Picked m (at (lock_freed b) t) rest
      → IsExclusive (world (end_run b m (at (lock_freed b) t)) rest)
  unfolding end_run slots_of
  end_run_keeps true v = record {
    slots = omega (arith, v.slots);
    at_most = v.at_most;
    owns =
        All-both (Apart (at (lock_freed true) t)) _ _ rest
          (λ u a o. Owns-zombie m.locks m.in_flight m.cooling (at (lock_freed true) t) u refl a o)
          v.near v.owns;
    apart = v.apart;
    clean = λ p h.
        put_other t.path p true m.cooling
          (λ e. ground (arith, h, ap m.in_flight e, v.own.entry refl))
        ∙ v.clean p h;
  }
  end_run_keeps false v = record {
    slots = omega (arith, v.slots);
    at_most = v.at_most;
    owns =
        All-both (Apart (at (lock_freed false) t)) _ _ rest
          (λ u a o. Owns-leave m.locks m.in_flight m.cooling (at (lock_freed false) t) u refl a o)
          v.near v.owns;
    apart = v.apart;
    clean = λ p h. elim (Bool-cases (str_eq p t.path)) [
      | inl q ↦ ap m.cooling ((str_eq_iff p t.path).0 q) ∙ v.own.warm refl
      | inr q ↦ v.clean p (rw q at h)
    ];
  }

begun_keeps :
    (m : Manager) (ts : List Thread) (path : String) (run : RunId) (l : Eligibility)
    (o : Option RunId)
    → IsExclusive (record { manager = m; threads = ts })
    → IsExclusive (world (m, or_coalesced (waits path run l) o) ts)
unfolding slots_of
begun_keeps m ts path run store_failed none v = record {
  slots = v.slots;
  at_most = v.at_most;
  owns = v.owns;
  apart = v.apart;
  clean = v.clean;
}
begun_keeps m ts path run (ineligible r) none v = record {
  slots = v.slots;
  at_most = v.at_most;
  owns = v.owns;
  apart = v.apart;
  clean = v.clean;
}
begun_keeps m ts path run (is_eligible row) none v = record {
  slots = omega (arith, v.slots);
  at_most = v.at_most;
  owns = (nothing-Owns m.locks m.in_flight m.cooling _ refl refl, v.owns);
  apart = (nothing-Apart _ ts refl refl, v.apart);
  clean = v.clean;
}
begun_keeps m ts path run l (some r) v = record {
  slots = v.slots;
  at_most = v.at_most;
  owns = v.owns;
  apart = v.apart;
  clean = v.clean;
}

cool_keeps :
    (path : String) (m : Manager) (ts : List Thread)
    → m.cooling path ≡ true
    → IsExclusive (record { manager = m; threads = ts })
    → IsExclusive (record { manager = cool path m; threads = ts })
unfolding cool
cool_keeps path m ts c v = record {
  slots = v.slots;
  at_most = v.at_most;
  owns = All-both _ _ _ ts kept v.owns v.owns;
  apart = v.apart;
  clean = λ p h. elim (Bool-cases (str_eq p path)) [
    | inl q ↦ rw q refl
    | inr q ↦ rw q (v.clean p (rw q at h))
  ];
}
  where
    kept :
        (u : Thread)
        → Owns m.locks m.in_flight m.cooling u
        → Owns m.locks m.in_flight m.cooling u
        → Owns m.locks (put path none m.in_flight) (put path false m.cooling) u
    kept u o _ = record {
      lock = o.lock;
      entry = λ h.
          put_other path u.path none m.in_flight (λ e. ground (arith, o.warm h, ap m.cooling e, c))
          ∙ o.entry h;
      warm = λ h.
          put_other path u.path false m.cooling (λ e. ground (arith, o.warm h, ap m.cooling e, c))
          ∙ o.warm h;
    }

others_keep :
    (lineage : String) (v : Option RunId) (m : Manager) (ts : List Thread)
    → All (λ u. holds_lock u.stage ≡ true → u.lineage ≢ lineage) ts
    → IsExclusive (record { manager = m; threads = ts })
    → IsExclusive (record { manager = record m { locks = put lineage v m.locks }; threads = ts })
others_keep lineage v m ts f k = record {
  slots = k.slots;
  at_most = k.at_most;
  owns =
      All-both _ _ _ ts
        (λ u g o. record {
          lock = λ h. put_other lineage u.lineage v m.locks (g h) ∙ o.lock h;
          entry = o.entry;
          warm = o.warm;
        })
        f k.owns;
  apart = k.apart;
  clean = k.clean;
}

free_lineage :
    (m : Manager) (lineage : String) (ts : List Thread)
    → m.locks lineage ≡ none
    → All (Owns m.locks m.in_flight m.cooling) ts
    → All (λ u. holds_lock u.stage ≡ true → u.lineage ≢ lineage) ts
free_lineage m lineage [] e o = tt
free_lineage m lineage (u ∷ ts) e o =
    ((λ h q. ground (arith, o.0.lock h, ap m.locks q, e)), free_lineage m lineage ts e o.1)

-- A step of one thread, known by its stage
of_stage :
    (f : Manager → Thread → Manager × Answer) (w : World) (t : Thread) (rest : List Thread)
    (s : Stage)
    → t.stage ≡ s
    → IsExclusive (world (f w.manager (at s t)) rest)
    → IsExclusive (world (f w.manager t) rest)
of_stage f w t rest s e v = subst (λ s. IsExclusive (world (f w.manager (at s t)) rest)) (sym e) v

Step-IsExclusive : (w w' : World) → Step w w' → IsExclusive w → IsExclusive w'
unfolding begin_trigger acquire register
Step-IsExclusive w _ (begun in_ideas row path run) v =
    begun_keeps w.manager w.threads path run (eligible in_ideas row) (w.manager.in_flight path) v
Step-IsExclusive w _ (gave_up t rest p e) v =
    gone w.manager t rest waiting refl (picked w t rest waiting p e v)
Step-IsExclusive w _ (slot_taken t rest p e) v =
    of_stage take_slot w t rest waiting e
      (take_slot_keeps w.manager t rest (picked w t rest waiting p e v))
Step-IsExclusive w _ (lock_tried t rest p e) v = of_stage acquire w t rest slotted e (
    acquired_keeps w.manager t rest (w.manager.locks t.lineage) refl
      (picked w t rest slotted p e v))
Step-IsExclusive w _ (registered t rest p e) v = of_stage register w t rest lock_held e (
    registered_keeps w.manager t rest (w.manager.in_flight t.path) refl
      (picked w t rest lock_held p e v))
Step-IsExclusive w _ (run_ended t rest b p e) v =
    of_stage (free_slot b) w t rest running e
      (free_slot_keeps w.manager t rest b (picked w t rest running p e v))
Step-IsExclusive w _ (lock_given_back t rest b p e) v =
    of_stage (free_lock b) w t rest (slot_freed b) e
      (free_lock_keeps w.manager t rest b (picked w t rest (slot_freed b) p e v))
Step-IsExclusive w _ (run_left t rest b p e) v =
    of_stage (end_run b) w t rest (lock_freed b) e
      (end_run_keeps w.manager t rest b (picked w t rest (lock_freed b) p e v))
Step-IsExclusive w _ (cooled path c) v = cool_keeps path w.manager w.threads c v
Step-IsExclusive w _ (others_lock lineage holder e) v =
    others_keep lineage (some holder) w.manager w.threads
      (free_lineage w.manager lineage w.threads e v.owns) v
Step-IsExclusive w _ (others_unlock lineage f) v = others_keep lineage none w.manager w.threads f v

Steps-keep : (w w' : World) → Steps w w' → IsExclusive w → IsExclusive w'
Steps-keep w w' (stay _) v = v
Steps-keep w w' (next _ u _ s ss) v = Steps-keep u w' ss (Step-IsExclusive w u s v)

-- Let the other users of the locks release no lineage that a thread of triage holds: the reaper of stale locks and handleReleaseLock, which can, are left out. From a new manager on, whatever the lineage locks are, and in whatever order calls of Trigger, their runs, the cooldown timers and the other users of the locks take their steps: the slots taken are those of the threads that hold one, and no more than allowed; no two threads hold one lineage, and no two runs are in progress for one path; a thread's lineage is locked for its run while it holds it, and a path in progress is in flight with its run.
pub triage-IsExclusive :
    (max : ℕ) (locks : String → Option RunId) (w : World)
    → Steps (record { manager = new max locks; threads = [] }) w
    → IsExclusive w
unfolding new slots_of
triage-IsExclusive max locks w ss =
    Steps-keep _ w ss
      (record { slots = refl; at_most = omega arith; owns = tt; apart = tt; clean = λ p h. refl })
