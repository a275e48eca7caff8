-- ===== src/Draft/Submission.antt =====
-- crates/consolebook-server/src/evaluation_drafts.rs: `submit`.
pub mod Effect
pub mod Total
use consolebook.Base.{
  ℕ, Bool, true, false, Option, some, none, List, [], ◌∷◌, ◌&&◌, not, ◌==◌, Text, codes, ◌++◌,
  select, map, Outcome, ok, refuse_if, some_or_refuse, fetch_one, ◌>>=◌, ◌>>◌, if◌then◌else◌,
}
use text.Mathlib.Text.{◌==◌ as str_eq}
use consolebook.Audit.{record_for_subject}
use consolebook.Audit.Vocabulary.{draft_submitted}
use consolebook.Audit.Subjects.{Subject}
use consolebook.Notice.{notify_user}
use consolebook.Notice.Vocabulary.{draft_submitted_for_review}
use consolebook.Capability.{user_has}
use consolebook.Capability.Vocabulary.{assign_training, review_evaluation, as_str}
use consolebook.Db.{Db, Grant, submitted_for_review, submission}
use consolebook.Draft.Status.{
  DraftRefusal, capability_required, no_such_record, stale_save, narratives_incomplete,
  ratings_incomplete, load_record, status_of, frozen_refusal,
}
use consolebook.Draft.Completion
use consolebook.Draft.Completion.{policy}
use consolebook.Draft.Ownership.{refuse_frozen, trainee_name}
use consolebook.Draft.Stream.{append_event, take_snapshot}

-- SELECT user_id FROM capability_grant WHERE capability = 'review_evaluation'
unfoldable pub reviewers : Db → List ℕ
reviewers db =
    map (λ g. g.user_id)
      (select (λ g. str_eq (as_str g.capability) (as_str review_evaluation)) db.grants)

unfoldable pub awaits_message : Text → Text
awaits_message name = codes "A draft evaluation for " ++ name ++ codes " awaits review."

-- Every reviewer but the submitter hears of the draft.
unfoldable pub notify_reviewers : {E : Type 0} → List ℕ → ℕ → Text → ℕ → Db → Outcome E Db
notify_reviewers [] actor message now db = ok db
notify_reviewers (reviewer ∷ rest) actor message now db = do
  db₁ ←
      if reviewer == actor
      then ok db
      else notify_user reviewer draft_submitted_for_review message now db
  notify_reviewers rest actor message now db₁

-- `seen` is what is read before the write transaction, which rechecks state, owner and revision.
unfoldable pub submit : (seen db : Db) (now actor r expected_revision : ℕ) → Outcome DraftRefusal Db
submit seen db now actor r expected_revision = do
  early ← some_or_refuse (load_record seen r) no_such_record
  let coordinator = user_has seen actor assign_training
  refuse_if (not (actor == early.owner_user_id) && not coordinator) capability_required
  refuse_frozen (frozen_refusal (status_of db r))
  row ← fetch_one (load_record db r)
  refuse_if (not (actor == row.owner_user_id) && not coordinator) capability_required
  refuse_if (not (expected_revision == row.revision)) stale_save
  let rules = policy db early.program_version_id
  refuse_if (rules.required_narratives && Completion.narratives_incomplete db early)
      narratives_incomplete
  refuse_if (rules.ratings_complete && Completion.ratings_incomplete db early) ratings_incomplete
  db₁ ← take_snapshot db r submission now (some actor)
  db₂ ← append_event db₁ r submitted_for_review actor none now
  db₃ ← record_for_subject draft_submitted (some actor) none (Subject.record_row r) now db₂
  name ← trainee_name db₃ early.enrollment_id
  notify_reviewers (reviewers db₃) actor (awaits_message name) now db₃
