-- ===== src/Triage/Labels.antt =====
-- The labels that triage keeps.
use kaos_control.Common.{
  String, true, false, not, ◌&&◌, ◌||◌, List, [], ◌∷◌, ◌++◌, ◌≡◌, ◌∙◌, refl, ap, str_eq, str_eq_iff,
  arith, Bool-cases, inl, inr,
}
use kaos_control.Triage.Body.{has_label, keep_labels, merge_and_filter_labels}

-- No label stands in it twice.
abbrev pub IsDistinct : List String → Type 0
IsDistinct [] = Unit
IsDistinct (l ∷ labels) = (has_label l labels ≡ false) × IsDistinct labels

has_label-append :
    (x : String) (a b : List String) → has_label x (a ++ b) ≡ (has_label x a || has_label x b)
has_label-append x [] b = refl
has_label-append x (l ∷ a) b = ground (arith, has_label-append x a b)

-- A label that is kept at the head is in the vocabulary and was not seen.
same_label :
    (x l : String) (vocab seen : List String)
    → str_eq l x ≡ true
    → (has_label l vocab ≡ has_label x vocab) × (has_label l seen ≡ has_label x seen)
same_label x l vocab seen e =
    let q = (str_eq_iff l x).0 e in (ap (λ y. has_label y vocab) q, ap (λ y. has_label y seen) q)

has_label-keep :
    (x : String) (vocab seen labels : List String)
    → has_label x (keep_labels vocab seen labels)
      ≡ (has_label x vocab && (not (has_label x seen) && has_label x labels))
unfolding keep_labels
has_label-keep x vocab seen [] = ground arith
has_label-keep x vocab seen (l ∷ labels) =
    elim (Bool-cases (has_label l vocab && not (has_label l seen))) [
      | inl e ↦
          rw (keep_labels, e)
            (elim (Bool-cases (str_eq l x)) [
              | inl q ↦ ground (arith, e, q, same_label x l vocab seen q)
              | inr q ↦ ground (arith, q, has_label-keep x vocab (l ∷ seen) labels)
            ])
      | inr e ↦
          rw (keep_labels, e)
            (elim (Bool-cases (str_eq l x)) [
              | inl q ↦
                  ground
                    (arith, e, q, same_label x l vocab seen q, has_label-keep x vocab seen labels)
              | inr q ↦ ground (arith, q, has_label-keep x vocab seen labels)
            ])
    ]

keep-IsDistinct : (vocab seen labels : List String) → IsDistinct (keep_labels vocab seen labels)
unfolding keep_labels
keep-IsDistinct vocab seen [] = tt
keep-IsDistinct vocab seen (l ∷ labels) =
    elim (Bool-cases (has_label l vocab && not (has_label l seen))) [
      | inl e ↦
          rw (keep_labels, e)
            (
              ground (arith, has_label-keep l vocab (l ∷ seen) labels, str_eq_iff l l),
              keep-IsDistinct vocab (l ∷ seen) labels,
            )
      | inr e ↦ rw (keep_labels, e) (keep-IsDistinct vocab seen labels)
    ]

-- The labels that triage writes are those of the vocabulary that the artifact had or the agent proposed, each of them once.
pub merge_and_filter_labels_lem :
    (existing proposed vocab : List String)
    → IsDistinct (merge_and_filter_labels existing proposed vocab)
      × ((x : String)
          → has_label x (merge_and_filter_labels existing proposed vocab)
            ≡ (has_label x vocab && (has_label x existing || has_label x proposed)))
unfolding merge_and_filter_labels
merge_and_filter_labels_lem existing proposed vocab = (
  keep-IsDistinct vocab [] (existing ++ proposed),
  λ x.
      has_label-keep x vocab [] (existing ++ proposed)
      ∙ ap (λ b. has_label x vocab && b) (has_label-append x existing proposed),
)
