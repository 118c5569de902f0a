-- ===== src/Triage/BodyExamples.antt =====
-- Bodies and labels that triage writes, and the witnesses.
use kaos_control.Common.{
  String, Bool, true, false, ◌&&◌, ◌||◌, List, [], ◌∷◌, ◌++◌, ◌≡◌, refl, codes, Bytes, starts_with,
  Option, some,
}
use kaos_control.Strings.{drop_start, drop_end, trim_space}
use kaos_control.Triage.Body.{
  contains, idea_heading, rewrite_body, split_h1, strip_leading_h1, cut_line, before_first,
  replace_idea_section, has_label, merge_and_filter_labels, keep_labels,
}
use kaos_control.Triage.Rewritten.{rewrite_body_twice}
use kaos_control.Triage.Labels.{IsDistinct, merge_and_filter_labels_lem}

abbrev original : Bytes
original = codes "# Login\n\nlet users log in\n"

no_idea : contains idea_heading original ≡ false
unfolding contains starts_with
no_idea = refl

rewrite_body_twice_example :
    rewrite_body (rewrite_body original (codes "# Login\nUse a form.")) (codes "Use a key.")
    ≡ rewrite_body original (codes "Use a key.")
rewrite_body_twice_example =
    rewrite_body_twice original (codes "# Login\nUse a form.") (codes "Use a key.") no_idea

first_text :
    rewrite_body original (codes "# Login\nUse a form.")
    ≡ codes "# Login\n\n## Raw Idea\n\nlet users log in\n\n## Idea\n\nUse a form."
unfolding rewrite_body contains starts_with split_h1 strip_leading_h1 cut_line trim_space drop_start
    drop_end
first_text = refl

-- A section behind the idea is lost.
later_section_lost :
    rewrite_body (codes "## Raw Idea\n\nx\n\n## Idea\n\ny\n\n## Notes\nz") (codes "new")
    ≡ codes "## Raw Idea\n\nx\n\n## Idea\n\nnew"
unfolding rewrite_body contains starts_with strip_leading_h1 cut_line trim_space drop_start drop_end
    replace_idea_section before_first
later_section_lost = refl

merge_and_filter_labels_lem_example :
    IsDistinct
      (merge_and_filter_labels ("ui" ∷ "old" ∷ []) ("auth" ∷ "ui" ∷ []) ("auth" ∷ "ui" ∷ []))
    × ((x : String)
        → has_label x
            (merge_and_filter_labels ("ui" ∷ "old" ∷ []) ("auth" ∷ "ui" ∷ []) ("auth" ∷ "ui" ∷ []))
          ≡ (has_label x ("auth" ∷ "ui" ∷ [])
              && (has_label x ("ui" ∷ "old" ∷ []) || has_label x ("auth" ∷ "ui" ∷ []))))
merge_and_filter_labels_lem_example =
    merge_and_filter_labels_lem ("ui" ∷ "old" ∷ []) ("auth" ∷ "ui" ∷ []) ("auth" ∷ "ui" ∷ [])

kept_in_order :
    merge_and_filter_labels ("ui" ∷ "old" ∷ []) ("auth" ∷ "ui" ∷ []) ("auth" ∷ "ui" ∷ [])
    ≡ "ui" ∷ "auth" ∷ []
unfolding merge_and_filter_labels keep_labels kaos_control.Common.str_eq
kept_in_order = refl

-- Without a vocabulary no label is kept.
labels_lost : merge_and_filter_labels ("ui" ∷ []) [] [] ≡ []
unfolding merge_and_filter_labels keep_labels
labels_lost = refl
