-- ===== src/Draft/Saving.antt =====
-- crates/consolebook-server/src/draft_content.rs: `save`, with the constraints and triggers of migrations
-- 0008, 0009 and 0010 on the working copy.
pub mod Effect
pub mod Replace
pub mod Copy
pub mod Bounds
pub mod Race
use consolebook.Base.{
  ℕ, suc, ℤ, pos, ltb_ℤ, Bool, true, false, Option, some, none, List, [], ◌∷◌, ◌++◌, ◌&&◌, ◌||◌,
  not, ◌==◌, is_some, select, exists, find?, next_id, Outcome, ok, refused, refuse_if,
  some_or_refuse, fetch_one, require, ◌>>=◌, ◌>>◌, if◌then◌else◌,
}
use consolebook.Db.{
  Db, EvaluationRecord, ScaleKind, anchored_numeric, pass_fail, narrative_only, RatingScale,
  FormCompetency, ContributorKind, ContributorEvent, contributed,
}
use consolebook.Draft.Access.{may_contribute}
use consolebook.Draft.Content.{RatingEntry, NarrativeEntry, DraftContent}
use consolebook.Draft.Frozen.{frozen_view}
use consolebook.Draft.Ownership.{refuse_frozen}
use consolebook.Draft.Status.{
  DraftRefusal, OpenAmendment, load_record, status_of, frozen_refusal, open_scope,
  latest_contribution,
}
use consolebook.Draft.Stream.{append_event}

-- Vec::contains
unfoldable pub contains : List ℕ → ℕ → Bool
contains [] n = false
contains (m ∷ ms) n = m == n || contains ms n

abbrev pub scale_of : Db → Option FormCompetency → Option RatingScale
scale_of db none = none
scale_of db (some fc) = find? (λ s. s.id == fc.rating_scale_id) db.scales

-- The scale of a competency of the record's form.
unfoldable pub scale_for : Db → EvaluationRecord → ℕ → Option RatingScale
scale_for db row id = scale_of db (
    find?
      (λ fc.
        fc.id == id
        && fc.program_version_id == row.program_version_id
        && fc.evaluation_form_id == row.evaluation_form_id)
      db.form_competencies)

abbrev pub is_narrative_only : ScaleKind → Bool
is_narrative_only narrative_only = true
is_narrative_only _ = false

abbrev pub is_pass_or_fail : ℤ → Bool
is_pass_or_fail (pos n) = n == 0 || n == 1
is_pass_or_fail _ = false

-- A value, or none, under the kind of its scale.
unfoldable pub check_kind : RatingScale → ScaleKind → Option ℤ → Outcome DraftRefusal Unit
check_kind scale narrative_only (some v) = refused DraftRefusal.value_not_allowed
check_kind scale narrative_only none = ok tt
check_kind scale pass_fail (some v) =
    refuse_if (not (is_pass_or_fail v)) DraftRefusal.value_out_of_range
check_kind scale anchored_numeric (some v) = do
  min ← fetch_one scale.min_value
  max ← fetch_one scale.max_value
  refuse_if (ltb_ℤ v min || ltb_ℤ max v) DraftRefusal.value_out_of_range
check_kind scale _ none = refused DraftRefusal.value_out_of_range

unfoldable pub check_value : RatingScale → RatingEntry → Outcome DraftRefusal Unit
unfolding check_kind
check_value scale rating =
    if rating.not_observed
    then refuse_if (is_some rating.value || is_narrative_only scale.kind)
        DraftRefusal.value_not_allowed
    else check_kind scale scale.kind rating.value

unfoldable pub check_modifiers : Db → EvaluationRecord → List ℕ → Outcome DraftRefusal Unit
check_modifiers db row [] = ok tt
check_modifiers db row (m ∷ ms) = do
  refuse_if
      (not (
        exists (λ rm. rm.id == m && rm.program_version_id == row.program_version_id)
          db.rating_modifiers))
      DraftRefusal.no_such_modifier
  check_modifiers db row ms

-- `done` are the competencies of the entries before.
unfoldable pub check_ratings :
    Db → EvaluationRecord → List ℕ → List RatingEntry → Outcome DraftRefusal Unit
unfolding contains scale_for check_value check_modifiers
check_ratings db row done [] = ok tt
check_ratings db row done (rating ∷ rest) = do
  refuse_if (contains done rating.form_competency_id) DraftRefusal.duplicate_entry
  scale ←
      some_or_refuse (scale_for db row rating.form_competency_id)
        DraftRefusal.no_such_form_competency
  check_value scale rating
  check_modifiers db row rating.modifier_ids
  check_ratings db row (done ++ (rating.form_competency_id ∷ [])) rest

unfoldable pub is_prompt : Db → EvaluationRecord → ℕ → Bool
is_prompt db row id =
    exists
      (λ fn.
        fn.id == id
        && fn.program_version_id == row.program_version_id
        && fn.evaluation_form_id == row.evaluation_form_id)
      db.form_narratives

unfoldable pub check_narratives :
    Db → EvaluationRecord → List ℕ → List NarrativeEntry → Outcome DraftRefusal Unit
unfolding contains is_prompt
check_narratives db row done [] = ok tt
check_narratives db row done (n ∷ rest) = do
  refuse_if (contains done n.form_narrative_id) DraftRefusal.duplicate_entry
  refuse_if (not (is_prompt db row n.form_narrative_id)) DraftRefusal.no_such_form_narrative
  check_narratives db row (done ++ (n.form_narrative_id ∷ [])) rest

-- DELETE of the record's ratings with their modifiers, and of its narratives; a trigger refuses a row of a
-- frozen record.
unfoldable pub clear_copy : Db → ℕ → Outcome DraftRefusal Db
clear_copy db r = do
  require (
      not (
        frozen_view db r
        && (exists (λ x. x.evaluation_record_id == r) db.ratings
            || exists (λ x. x.evaluation_record_id == r) db.narratives)))
  ok (record db {
    ratings = select (λ x. not (x.evaluation_record_id == r)) db.ratings;
    narratives = select (λ x. not (x.evaluation_record_id == r)) db.narratives;
  })

-- Each modifier once, in the order of the entry.
unfoldable pub applied : List ℕ → List ℕ → List ℕ
unfolding contains
applied done [] = []
applied done (m ∷ ms) =
    if contains done m then applied done ms else m ∷ applied (done ++ (m ∷ [])) ms

unfoldable pub modifiers_known : Db → ℕ → List ℕ → Bool
modifiers_known db version [] = true
modifiers_known db version (m ∷ ms) =
    exists (λ rm. rm.id == m && rm.program_version_id == version) db.rating_modifiers
    && modifiers_known db version ms

-- The composite foreign key to the record.
unfoldable pub stamped : Db → ℕ → ℕ → Bool
stamped db r version = exists (λ x. x.id == r && x.program_version_id == version) db.records

-- INSERT INTO draft_rating, with its modifiers.
unfoldable pub insert_rating : Db → ℕ → ℕ → RatingEntry → Outcome DraftRefusal Db
unfolding applied
insert_rating db r version rating = do
  require (stamped db r version)
  require (
      exists (λ fc. fc.id == rating.form_competency_id && fc.program_version_id == version)
        db.form_competencies)
  require (
      not (
        exists
          (λ x. x.evaluation_record_id == r && x.form_competency_id == rating.form_competency_id)
          db.ratings))
  require (not (rating.not_observed && is_some rating.value))
  require (not (frozen_view db r))
  require (modifiers_known db version (applied [] rating.modifier_ids))
  ok (record db {
    ratings =
        record {
          id = next_id (λ x. x.id) db.ratings;
          evaluation_record_id = r;
          form_competency_id = rating.form_competency_id;
          value = rating.value;
          not_observed = rating.not_observed;
          modifiers = applied [] rating.modifier_ids;
        }
        ∷ db.ratings;
  })

unfoldable pub insert_ratings : Db → ℕ → ℕ → List RatingEntry → Outcome DraftRefusal Db
unfolding insert_rating
insert_ratings db r version [] = ok db
insert_ratings db r version (rating ∷ rest) = do
  db₁ ← insert_rating db r version rating
  insert_ratings db₁ r version rest

-- INSERT INTO draft_narrative
unfoldable pub insert_narrative : Db → ℕ → ℕ → NarrativeEntry → Outcome DraftRefusal Db
insert_narrative db r version n = do
  require (stamped db r version)
  require (
      exists (λ fn. fn.id == n.form_narrative_id && fn.program_version_id == version)
        db.form_narratives)
  require (
      not (
        exists (λ x. x.evaluation_record_id == r && x.form_narrative_id == n.form_narrative_id)
          db.narratives))
  require (not (frozen_view db r))
  ok (record db {
    narratives =
        record {
          id = next_id (λ x. x.id) db.narratives;
          evaluation_record_id = r;
          form_narrative_id = n.form_narrative_id;
          text = n.text;
        }
        ∷ db.narratives;
  })

unfoldable pub insert_narratives : Db → ℕ → ℕ → List NarrativeEntry → Outcome DraftRefusal Db
unfolding insert_narrative
insert_narratives db r version [] = ok db
insert_narratives db r version (n ∷ rest) = do
  db₁ ← insert_narrative db r version n
  insert_narratives db₁ r version rest

-- UPDATE evaluation_record SET revision = ?1 WHERE id = ?2
unfoldable pub set_revision : ℕ → ℕ → List EvaluationRecord → List EvaluationRecord
set_revision r revision [] = []
set_revision r revision (row ∷ rows) =
    (if row.id == r then record row { revision = revision } else row) ∷ set_revision r revision rows

abbrev pub mark_of : Option OpenAmendment → ℕ
mark_of none = 0
mark_of (some scope) = scope.opened_after_event_id

abbrev pub is_contribution : ContributorKind → Bool
is_contribution contributed = true
is_contribution _ = false

-- The latest event of the cycle is the actor's own contribution.
abbrev pub coalesces : ℕ → Option ContributorEvent → Bool
coalesces actor none = false
coalesces actor (some ev) = is_contribution ev.kind && ev.actor_user_id == actor

unfoldable pub attribute_contribution : Db → ℕ → ℕ → ℕ → Outcome DraftRefusal Db
attribute_contribution db r actor now =
    if coalesces actor (latest_contribution db.contributor_events r (mark_of (open_scope db r)))
    then ok db
    else append_event db r contributed actor none now

-- `seen` is what is read before the write transaction.
unfoldable pub save :
    (seen db : Db) (now actor r revision : ℕ) → DraftContent → Outcome DraftRefusal (ℕ × Db)
save seen db now actor r revision input = do
  early ← some_or_refuse (load_record seen r) DraftRefusal.no_such_record
  refuse_if (not (may_contribute seen actor early)) DraftRefusal.capability_required
  refuse_frozen (frozen_refusal (status_of db r))
  row ← fetch_one (load_record db r)
  refuse_if (not (revision == row.revision)) DraftRefusal.stale_save
  check_ratings db early [] input.ratings
  check_narratives db early [] input.narratives
  db₁ ← clear_copy db r
  db₂ ← insert_ratings db₁ r early.program_version_id input.ratings
  db₃ ← insert_narratives db₂ r early.program_version_id input.narratives
  let db₄ = record db₃ { records = set_revision r (suc row.revision) db₃.records }
  db₅ ← attribute_contribution db₄ r actor now
  ok (suc row.revision, db₅)
