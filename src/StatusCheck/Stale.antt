-- ===== src/StatusCheck/Stale.antt =====
-- When Check reports an artifact, and with which status.
use kaos_control.Common.{
  ℕ, suc, ◌+◌, ◌≤◌, ◌<◌, ◌≡◌, ◌≢◌, ◌↔◌, ◌⊎◌, ◌∙◌, refl, sym, ap, subst, inl, inr, arith, String,
  true, false, not, ◌&&◌, ltb, Option, none, some, Option-cases, Bool-cases, List, [], ◌∷◌, All,
  All-Memᴰ, All-of_Memᴰ, Memᴰ, str_eq, str_eq_iff,
}
use kaos_control.StatusCheck.{
  Artifact, status_order, is_terminal, rank_from, status_rank, by_path, keep_active,
  active_children, is_ahead, lower, min_child_rank, nth_status, suggested,
}

-- `c` is what the index has at the path of a row whose parent is `path`, and it is not terminal.
pub record IsActiveChild (all : List Artifact) (path : String) (c : Artifact) : Type 0 where
  pub row : Artifact
  pub in_lineage : Memᴰ row all
  pub its_parent : row.parent ≡ path
  pub has_parent : row.parent ≢ ""
  pub indexed : by_path row.path all ≡ some c
  pub alive : is_terminal c.status ≡ false

-- `c` stands later in the order than a parent of this rank, and not before rank `m`.
pub record IsAhead (parent : Option ℕ) (m : ℕ) (c : Artifact) : Type 0 where
  pub rank : ℕ
  pub has_rank : status_rank c.status ≡ some rank
  pub is_later : (p : ℕ) → parent ≡ some p → p < rank
  pub not_below : m ≤ rank

nth-rank_from :
    (i : ℕ) (order : List String) (s : String) (m : ℕ)
    → rank_from i order s ≡ some m
    → (k : ℕ) × (m ≡ i + k) × (nth_status k order ≡ s)
unfolding rank_from nth_status
nth-rank_from i [] s m e = ground arith
nth-rank_from i (v ∷ order) s m e = elim (Bool-cases (str_eq v s)) [
  | inl h ↦ (0, ground arith, ground (arith, str_eq_iff v s))
  | inr h ↦
      let (k, f, g) = nth-rank_from (suc i) order s m (ground arith) in (suc k, omega (arith, f), g)
]

nth-status_rank : (s : String) (m : ℕ) → status_rank s ≡ some m → nth_status m status_order ≡ s
unfolding status_rank
nth-status_rank s m e =
    let (k, f, g) = nth-rank_from 0 status_order s m e in
    subst (λ x. nth_status x status_order ≡ s) (omega (arith, f)) g

ahead_later : (p : Option ℕ) (cr : ℕ) → is_ahead p cr ≡ true → (q : ℕ) → p ≡ some q → q < cr
ahead_later none cr e q f = ground arith
ahead_later (some p) cr e q f = ground arith

later_ahead : (p : Option ℕ) (cr : ℕ) → ((q : ℕ) → p ≡ some q → q < cr) → is_ahead p cr ≡ true
later_ahead none cr h = refl
later_ahead (some p) cr h = ground (arith, h p refl)

lower_lem :
    (least : Option ℕ) (cr : ℕ)
    → (l : ℕ) × (lower least cr ≡ some l)
      × (l ≤ cr)
      × ((k : ℕ) → least ≡ some k → l ≤ k)
      × ((least ≡ some l) ⊎ (cr ≡ l))
lower_lem none cr = (cr, refl, omega arith, (λ k g. ground arith), inr refl)
lower_lem (some k) cr = elim (Bool-cases (ltb cr k)) [
  | inl h ↦ (cr, rw h refl, omega arith, (λ q g. ground arith), inr refl)
  | inr h ↦ (k, rw h refl, ground arith, (λ q g. ground arith), inl refl)
]

-- What the loop over the children has found.
record IsMin (parent least : Option ℕ) (cs : List Artifact) (m : ℕ) : Type 0 where
  all_ahead : All (IsAhead parent m) cs
  below_start : (l : ℕ) → least ≡ some l → m ≤ l
  attained : (least ≡ some m) ⊎ ((c : Artifact) × Memᴰ c cs × (status_rank c.status ≡ some m))

min_child_rank-IsMin :
    (parent least : Option ℕ) (cs : List Artifact) (m : ℕ)
    → min_child_rank parent least cs ≡ some m
    → IsMin parent least cs m
unfolding min_child_rank
min_child_rank-IsMin parent least [] m e = record {
  all_ahead = tt;
  below_start = λ l f. ground arith;
  attained = inl e;
}
min_child_rank-IsMin parent least (c ∷ cs) m e = elim (Option-cases (status_rank c.status)) [
  | inl n ↦ ground arith
  | inr (cr, n) ↦ elim (Bool-cases (is_ahead parent cr)) [
    | inr h ↦ ground arith
    | inl h ↦
        let (l, f, at_most_cr, at_most_l, which) = lower_lem least cr in
        let r = min_child_rank-IsMin parent (lower least cr) cs m (ground arith) in
        record {
          all_ahead = (
            record {
              rank = cr;
              has_rank = n;
              is_later = ahead_later parent cr h;
              not_below = omega (arith, r.below_start l f, at_most_cr);
            },
            r.all_ahead,
          );
          below_start = λ k g. omega (arith, r.below_start l f, at_most_l k g);
          attained = elim r.attained [
            | inr (d, i, q) ↦ inr (d, Memᴰ.tail i, q)
            | inl q ↦ elim which [
              | inl w ↦ inl (w ∙ sym f ∙ q)
              | inr w ↦ inr (c, Memᴰ.head refl, n ∙ ap some w ∙ sym f ∙ q)
            ]
          ];
        }
  ]
]

min_child_rank-total :
    (parent least : Option ℕ) (m : ℕ) (cs : List Artifact)
    → All (IsAhead parent m) cs
    → ((l : ℕ) × (least ≡ some l)) ⊎ (cs ≢ [])
    → (r : ℕ) × (min_child_rank parent least cs ≡ some r)
unfolding min_child_rank
min_child_rank-total parent least m [] a (inl (l, e)) = (l, e)
min_child_rank-total parent least m [] a (inr ne) = elim (ne refl) [ ]
min_child_rank-total parent least m (c ∷ cs) (h, a) o =
    let (l, f, _, _, _) = lower_lem least h.rank in
    let (r, g) = min_child_rank-total parent (lower least h.rank) m cs a (inl (l, f)) in
    (r, rw (min_child_rank, h.has_rank, later_ahead parent h.rank h.is_later) g)

keep_active-Memᴰ :
    (o : Option Artifact) (rest : List Artifact) (c : Artifact)
    → Memᴰ c (keep_active o rest)
    → ((o ≡ some c) × (is_terminal c.status ≡ false)) ⊎ Memᴰ c rest
keep_active-Memᴰ none rest c m = inr m
keep_active-Memᴰ (some x) rest c m = elim (Bool-cases (is_terminal x.status)) [
  | inl t ↦ inr (subst (Memᴰ c) (ground arith) m)
  | inr t ↦ from_head x rest c t (rw t at m)
]
  where
    from_head :
        (x : Artifact) (rest : List Artifact) (c : Artifact)
        → is_terminal x.status ≡ false
        → Memᴰ c (x ∷ rest)
        → ((some x ≡ some c) × (is_terminal c.status ≡ false)) ⊎ Memᴰ c rest
    from_head x rest c t (Memᴰ.head e) =
        inl (ap some (sym e), subst (λ y. is_terminal y.status ≡ false) (sym e) t)
    from_head x rest c t (Memᴰ.tail i) = inr i

Memᴰ-keep_new :
    (o : Option Artifact) (rest : List Artifact) (c : Artifact)
    → o ≡ some c
    → is_terminal c.status ≡ false
    → Memᴰ c (keep_active o rest)
Memᴰ-keep_new o rest c e t = rw (e, t) (Memᴰ.head refl)

Memᴰ-keep_old :
    (o : Option Artifact) (rest : List Artifact) (c : Artifact)
    → Memᴰ c rest
    → Memᴰ c (keep_active o rest)
Memᴰ-keep_old none rest c m = m
Memᴰ-keep_old (some x) rest c m = elim (Bool-cases (is_terminal x.status)) [
  | inl t ↦ rw t m
  | inr t ↦ rw t (Memᴰ.tail m)
]

-- The children that the loop collects.
child-IsActiveChild :
    (all : List Artifact) (path : String) (rows : List Artifact) (c : Artifact)
    → ((r : Artifact) → Memᴰ r rows → Memᴰ r all)
    → Memᴰ c (active_children path all rows)
    → IsActiveChild all path c
unfolding active_children
child-IsActiveChild all path [] c sub m = elim m [ ]
child-IsActiveChild all path (r ∷ rows) c sub m =
    elim (Bool-cases (not (str_eq r.parent "") && str_eq r.parent path)) [
      | inr h ↦ child-IsActiveChild all path rows c (λ q i. sub q (Memᴰ.tail i)) (rw h at m)
      | inl h ↦
          elim (keep_active-Memᴰ (by_path r.path all) (active_children path all rows) c
            (rw h at m)) [
              | inr i ↦ child-IsActiveChild all path rows c (λ q k. sub q (Memᴰ.tail k)) i
              | inl (b, t) ↦ record {
                row = r;
                in_lineage = sub r (Memᴰ.head refl);
                its_parent = ground (arith, str_eq_iff r.parent path);
                has_parent = λ e. ground (arith, str_eq_iff r.parent "");
                indexed = b;
                alive = t;
              }
            ]
    ]

is_child :
    (r : Artifact) (path : String)
    → r.parent ≡ path
    → r.parent ≢ ""
    → (not (str_eq r.parent "") && str_eq r.parent path) ≡ true
is_child r path p ne = ground (arith, str_eq_iff r.parent "", str_eq_iff r.parent path)

IsActiveChild-child :
    (all : List Artifact) (path : String) (rows : List Artifact) (c r : Artifact)
    → Memᴰ r rows
    → r.parent ≡ path
    → r.parent ≢ ""
    → by_path r.path all ≡ some c
    → is_terminal c.status ≡ false
    → Memᴰ c (active_children path all rows)
unfolding active_children
IsActiveChild-child all path [] c r m p ne b t = elim m [ ]
IsActiveChild-child all path (q ∷ rows) c r (Memᴰ.head e) p ne b t =
    subst (λ x. Memᴰ c (active_children path all (x ∷ rows))) e
      (rw (active_children, is_child r path p ne)
        (Memᴰ-keep_new (by_path r.path all) (active_children path all rows) c b t))
IsActiveChild-child all path (q ∷ rows) c r (Memᴰ.tail m) p ne b t =
    let i = IsActiveChild-child all path rows c r m p ne b t in
    elim (Bool-cases (not (str_eq q.parent "") && str_eq q.parent path)) [
      | inr h ↦ rw h i
      | inl h ↦ rw h (Memᴰ-keep_old (by_path q.path all) (active_children path all rows) c i)
    ]

-- `a` lags: it is not terminal, some active child has status `s`, and every active child stands later
-- than `a` and not before `s`.
pub record IsStale (all : List Artifact) (a : Artifact) (s : String) : Type 0 where
  pub not_terminal : is_terminal a.status ≡ false
  pub least : ℕ
  pub rank_of_s : status_rank s ≡ some least
  pub child : Artifact
  pub is_child : IsActiveChild all a.path child
  pub has_s : child.status ≡ s
  pub all_ahead :
      (c : Artifact) → IsActiveChild all a.path c → IsAhead (status_rank a.status) least c

min-IsStale :
    (all : List Artifact) (a : Artifact) (s : String) (m : ℕ)
    → is_terminal a.status ≡ false
    → min_child_rank (status_rank a.status) none (active_children a.path all all) ≡ some m
    → nth_status m status_order ≡ s
    → IsStale all a s
min-IsStale all a s m t n same =
    let r = min_child_rank-IsMin (status_rank a.status) none (active_children a.path all all) m n in
    elim r.attained [
      | inl q ↦ ground arith
      | inr (c, i, q) ↦
          let has_s : c.status ≡ s = sym (nth-status_rank c.status m q) ∙ same in
          record {
            not_terminal = t;
            least = m;
            rank_of_s = subst (λ x. status_rank x ≡ some m) has_s q;
            child = c;
            is_child = child-IsActiveChild all a.path all c (λ q i. i) i;
            has_s = has_s;
            all_ahead = λ d k. All-Memᴰ _ (active_children a.path all all) r.all_ahead (
                IsActiveChild-child all a.path all d k.row k.in_lineage k.its_parent k.has_parent
                  k.indexed k.alive);
          }
    ]

suggested-IsStale :
    (all : List Artifact) (a : Artifact) (s : String) → suggested all a ≡ some s → IsStale all a s
unfolding suggested
suggested-IsStale all a s e = elim (Bool-cases (is_terminal a.status)) [
  | inl t ↦ ground (arith, rw t at e)
  | inr t ↦
      elim (Option-cases
        (min_child_rank (status_rank a.status) none (active_children a.path all all))) [
          | inl n ↦ ground (arith, rw (t, n) at e)
          | inr (m, n) ↦
              let same : nth_status m status_order ≡ s = ground (arith, rw (t, n) at e) in
              min-IsStale all a s m t n same
        ]
]

member_ne : {c : Artifact} {cs : List Artifact} → Memᴰ c cs → cs ≢ []
member_ne (Memᴰ.head e) p = ground arith
member_ne (Memᴰ.tail m) p = ground arith

rank_at_least :
    {parent : Option ℕ} {m n : ℕ} {c : Artifact}
    → IsAhead parent m c
    → status_rank c.status ≡ some n
    → m ≤ n
rank_at_least h e = ground (arith, h.not_below, sym h.has_rank ∙ e)

IsStale-suggested :
    (all : List Artifact) (a : Artifact) (s : String) → IsStale all a s → suggested all a ≡ some s
unfolding suggested
IsStale-suggested all a s h =
    let cs = active_children a.path all all in
    let parent = status_rank a.status in
    let ahead : All (IsAhead parent h.least) cs =
      All-of_Memᴰ _ cs (λ c i. h.all_ahead c (child-IsActiveChild all a.path all c (λ q i. i) i)) in
    let i : Memᴰ h.child cs =
      IsActiveChild-child all a.path all h.child h.is_child.row h.is_child.in_lineage
        h.is_child.its_parent h.is_child.has_parent h.is_child.indexed h.is_child.alive in
    let (r, g) = min_child_rank-total parent none h.least cs ahead (inr (member_ne i)) in
    let q = min_child_rank-IsMin parent none cs r g in
    let of_child : r ≤ h.least =
      rank_at_least (All-Memᴰ _ cs q.all_ahead i) (ap status_rank h.has_s ∙ h.rank_of_s) in
    let same : r ≡ h.least = elim q.attained [
      | inl z ↦ ground arith
      | inr (c, k, z) ↦ omega (arith, of_child, rank_at_least (All-Memᴰ _ cs ahead k) z)
    ] in
    rw (h.not_terminal, g)
      (ap some (ap (λ x. nth_status x status_order) same ∙ nth-status_rank s h.least h.rank_of_s))

-- Check suggests a status for an artifact exactly where the artifact is not terminal, has an active
-- child of that status, and all its active children have a known status that is later in the order
-- than the artifact's and not before the suggested one.
pub suggested_iff :
    (all : List Artifact) (a : Artifact) (s : String) → (suggested all a ≡ some s) ↔ IsStale all a s
suggested_iff all a s = (suggested-IsStale all a s, IsStale-suggested all a s)
