-- ===== src/Draft/Completion.antt =====
-- crates/consolebook-server/src/finalization.rs: the completion rules of a version, and whether a
-- working copy meets them.
use consolebook.Base.{
  ℕ, ℤ, Bool, true, false, Option, some, none, ◌&&◌, not, ◌==◌, trim, is_empty, exists, find?,
}
use consolebook.Db.{
  Db, EvaluationRecord, RatingScale, ScaleKind, narrative_only, DraftNarrative, DraftRating, Policy,
  ProgramVersion, version_of,
}

abbrev pub policy_or_strict : Option Policy → Policy
policy_or_strict none = record {
  review_approved = true;
  required_narratives = true;
  ratings_complete = true;
}
policy_or_strict (some p) = p

abbrev pub policy_row_of : Option ProgramVersion → Option Policy
policy_row_of none = none
policy_row_of (some v) = v.policy_row

-- A missing row turns every rule on.
unfoldable pub policy : Db → ℕ → Policy
policy db version_id = policy_or_strict (policy_row_of (version_of db version_id))

abbrev pub is_blank : Option DraftNarrative → Bool
is_blank none = true
is_blank (some n) = is_empty (trim n.text)

unfoldable pub narrative_for : Db → ℕ → ℕ → Option DraftNarrative
narrative_for db r fn =
    find? (λ n. n.evaluation_record_id == r && n.form_narrative_id == fn) db.narratives

-- A required narrative prompt of the form lacks text.
unfoldable pub narratives_incomplete : Db → EvaluationRecord → Bool
narratives_incomplete db row =
    exists
      (λ fn.
        fn.evaluation_form_id == row.evaluation_form_id
        && fn.program_version_id == row.program_version_id
        && fn.is_required
        && is_blank (narrative_for db row.id fn.id))
      db.form_narratives

abbrev pub takes_value : Option RatingScale → Bool
takes_value none = false
takes_value (some s) = kind_takes_value s.kind
  where
    kind_takes_value : ScaleKind → Bool
    kind_takes_value narrative_only = false
    kind_takes_value _ = true

abbrev pub is_unrated : Option DraftRating → Bool
is_unrated none = true
is_unrated (some dr) = no_value dr.value && not dr.not_observed
  where
    no_value : Option ℤ → Bool
    no_value none = true
    no_value (some v) = false

unfoldable pub rating_for : Db → ℕ → ℕ → Option DraftRating
rating_for db r fc =
    find? (λ dr. dr.form_competency_id == fc && dr.evaluation_record_id == r) db.ratings

-- A competency that takes a value has neither one nor the not-observed marker.
unfoldable pub ratings_incomplete : Db → EvaluationRecord → Bool
ratings_incomplete db row =
    exists
      (λ fc.
        fc.evaluation_form_id == row.evaluation_form_id
        && fc.program_version_id == row.program_version_id
        && takes_value (find? (λ s. s.id == fc.rating_scale_id) db.scales)
        && is_unrated (rating_for db row.id fc.id))
      db.form_competencies
