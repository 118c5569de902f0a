-- ===== src/Transition/Automatic.antt =====
-- What the automatic transitions behind IndexFile lead to.
use kaos_control.Common.{
  String, ◌≡◌, ◌≢◌, ◌∙◌, refl, sym, ap, subst, Bool, true, false, not, ◌&&◌, ==_iff, Bool-cases,
  Option, none, some, List, [], ◌∷◌, str_eq, str_eq_iff, str_eq_refl, ne_str_eq, str_eq-eq,
  if◌then◌else◌, arith, inl, inr, ◌⊎◌,
}
use kaos_control.Workflow.{can_transition, gate_ready}
use kaos_control.Workflow as W
use kaos_control.Workflow.Overlay.{new-system_blocks}
use kaos_control.Transition.{
  Artifact, row_of, upsert, Disk, with_status, write_and_reindex, auto_block, auto_unblock,
  apply_open_question_transition, is_current, index_file,
}

draft_not_blocked : ◌≢◌ {A = String} "draft" "blocked"
draft_not_blocked p = ground (arith, str_eq_iff "draft" "blocked")

-- The status that an artifact comes to rest in.
abbrev pub settled : Bool → String → String
settled true status = "blocked"
settled false status = if str_eq status "blocked" then "draft" else status

-- The index shows the file, and the file's status fits its open questions.
pub record IsSettled (questions : Bool) (status : String) (a : Artifact) : Type 0 where
  pub its_status : a.file.status ≡ settled questions status
  pub same_questions : a.file.has_questions ≡ questions
  pub indexed : a.row ≡ some (row_of a.file)

abbrev written : Disk → String → Artifact → Artifact
written d status a = upsert (record a { file = with_status d status a.file })

oq_rests :
    (e : W.Engine) (d : Disk) (a : Artifact) (b : Bool)
    → a.file.has_questions ≡ b
    → str_eq a.file.status "blocked" ≡ b
    → apply_open_question_transition e d a ≡ a
unfolding apply_open_question_transition
oq_rests e d a true q s = rw (apply_open_question_transition, q, s) refl
oq_rests e d a false q s = rw (apply_open_question_transition, q, s) refl

oq_blocks :
    (ts : List W.Transition) (d : Disk) (a : Artifact)
    → d.succeeds ≡ true
    → a.file.has_questions ≡ true
    → str_eq a.file.status "blocked" ≡ false
    → apply_open_question_transition (W.new ts) d a ≡ written d "blocked" a
unfolding apply_open_question_transition auto_block write_and_reindex
oq_blocks ts d a w q s =
    rw
      (
        apply_open_question_transition,
        q,
        s,
        (new-system_blocks ts a.file.status a.file.type (ne_str_eq a.file.status "blocked" s)).0,
        w,
      )
      refl

oq_unblocks :
    (ts : List W.Transition) (d : Disk) (a : Artifact)
    → d.succeeds ≡ true
    → a.file.has_questions ≡ false
    → str_eq a.file.status "blocked" ≡ true
    → apply_open_question_transition (W.new ts) d a ≡ written d "draft" a
unfolding apply_open_question_transition auto_unblock write_and_reindex
oq_unblocks ts d a w q s =
    rw
      (
        apply_open_question_transition,
        q,
        s,
        (new-system_blocks ts "draft" a.file.type draft_not_blocked).1,
        w,
      )
      refl

oq-IsSettled :
    (ts : List W.Transition) (d : Disk) (a : Artifact)
    → d.succeeds ≡ true
    → a.row ≡ some (row_of a.file)
    → IsSettled a.file.has_questions a.file.status (apply_open_question_transition (W.new ts) d a)
oq-IsSettled ts d a w r = elim (Bool-cases a.file.has_questions) [
  | inl q ↦ elim (Bool-cases (str_eq a.file.status "blocked")) [
    | inl b ↦
        subst (IsSettled a.file.has_questions a.file.status)
          (sym (oq_rests (W.new ts) d a true q b))
          (record {
            its_status =
                str_eq-eq a.file.status "blocked" b ∙ ap (λ x. settled x a.file.status) (sym q);
            same_questions = refl;
            indexed = r;
          })
    | inr b ↦
        subst (IsSettled a.file.has_questions a.file.status) (sym (oq_blocks ts d a w q b))
          (record {
            its_status = ap (λ x. settled x a.file.status) (sym q);
            same_questions = refl;
            indexed = refl;
          })
  ]
  | inr q ↦ elim (Bool-cases (str_eq a.file.status "blocked")) [
    | inl b ↦
        subst (IsSettled a.file.has_questions a.file.status) (sym (oq_unblocks ts d a w q b))
          (record {
            its_status =
                ap (λ x. if x then "draft" else a.file.status) (sym b)
                ∙ ap (λ x. settled x a.file.status) (sym q);
            same_questions = refl;
            indexed = refl;
          })
    | inr b ↦
        subst (IsSettled a.file.has_questions a.file.status)
          (sym (oq_rests (W.new ts) d a false q b))
          (record {
            its_status =
                ap (λ x. if x then "draft" else a.file.status) (sym b)
                ∙ ap (λ x. settled x a.file.status) (sym q);
            same_questions = refl;
            indexed = r;
          })
  ]
]

-- Indexing a file whose row is not current settles it.
pub index-IsSettled :
    (ts : List W.Transition) (d : Disk) (a : Artifact)
    → d.succeeds ≡ true
    → is_current a ≡ false
    → IsSettled a.file.has_questions a.file.status (index_file (some (W.new ts)) d a)
unfolding index_file
index-IsSettled ts d a w c = rw (index_file, c) (oq-IsSettled ts d (upsert a) w refl)

indexed_current : (a : Artifact) → a.row ≡ some (row_of a.file) → is_current a ≡ true
indexed_current a e =
    rw e (ground (arith, ==_iff a.file.hash a.file.hash, str_eq_refl a.file.status))

-- What a write leaves, whether it succeeds or not.
abbrev IsRest : Disk → Artifact → Artifact → Type 0
IsRest d a a' = (a' ≡ a) ⊎ ((status : String) × (a' ≡ written d status a))

write-IsRest :
    (d : Disk) (status : String) (a : Artifact) → IsRest d a (write_and_reindex d status a)
unfolding write_and_reindex
write-IsRest d status a = elim (Bool-cases d.succeeds) [
  | inl w ↦ inr (status, rw (write_and_reindex, w) refl)
  | inr w ↦ inl (rw (write_and_reindex, w) refl)
]

if-IsRest :
    (d : Disk) (a x y : Artifact) (b : Bool)
    → IsRest d a x
    → IsRest d a y
    → IsRest d a (if b then x else y)
if-IsRest d a x y true p q = p
if-IsRest d a x y false p q = q

oq-IsRest :
    (e : W.Engine) (d : Disk) (a : Artifact) → IsRest d a (apply_open_question_transition e d a)
unfolding apply_open_question_transition auto_block auto_unblock
oq-IsRest e d a =
    if-IsRest d a _ _ (a.file.has_questions && not (str_eq a.file.status "blocked"))
      (if-IsRest d a _ _
        (not (can_transition e a.file.status "blocked" ("system" ∷ []) a.file.type)) (inl refl)
        (write-IsRest d "blocked" a))
      (if-IsRest d a _ _ (not a.file.has_questions && str_eq a.file.status "blocked")
        (if-IsRest d a _ _ (not (can_transition e "blocked" "draft" ("system" ∷ []) a.file.type))
          (inl refl) (write-IsRest d "draft" a))
        (inl refl))

oq_indexed :
    (e : W.Engine) (d : Disk) (a : Artifact)
    → a.row ≡ some (row_of a.file)
    → is_current (apply_open_question_transition e d a) ≡ true
oq_indexed e d a r = elim (oq-IsRest e d a) [
  | inl s ↦ ap is_current s ∙ indexed_current a r
  | inr (status, s) ↦ ap is_current s ∙ indexed_current (written d status a) refl
]

index_current :
    (wf : Option W.Engine) (d : Disk) (a : Artifact) → is_current (index_file wf d a) ≡ true
unfolding index_file
index_current none d a = elim (Bool-cases (is_current a)) [
  | inl c ↦ rw (index_file, c) c
  | inr c ↦ rw (index_file, c) (indexed_current (upsert a) refl)
]
index_current (some e) d a = elim (Bool-cases (is_current a)) [
  | inl c ↦ rw (index_file, c) c
  | inr c ↦ rw (index_file, c) (oq_indexed e d (upsert a) refl)
]

index_of_current :
    (wf : Option W.Engine) (d : Disk) (a : Artifact) → is_current a ≡ true → index_file wf d a ≡ a
unfolding index_file
index_of_current wf d a c = rw (index_file, c) refl

-- Indexing a file twice is indexing it once, whatever happens to the writes: the write of an automatic
-- transition does not set off another one. So where that write fails, indexing the same content again
-- does not try it again.
pub index_file_twice :
    (wf : Option W.Engine) (d d' : Disk) (a : Artifact)
    → index_file wf d' (index_file wf d a) ≡ index_file wf d a
index_file_twice wf d d' a = index_of_current wf d' (index_file wf d a) (index_current wf d a)
