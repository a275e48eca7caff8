-- ===== src/Draft/Access.antt =====
-- crates/consolebook-server/src/draft_access.rs: who contributes to a record, and who may write,
-- start or read a draft.
use consolebook.Base.{
  ℕ, Bool, true, false, Option, some, none, ◌&&◌, ◌||◌, ◌==◌, exists, same_option, if◌then◌else◌,
  Outcome, ok, fetch_one, ◌>>=◌, is_some,
}
use consolebook.Assignment.{is_assigned}
use consolebook.Capability.{user_has}
use consolebook.Capability.Vocabulary.{
  assign_training, author_evaluation, review_evaluation, view_own_records, view_assigned_records,
}
use consolebook.Db.{
  Db, EvaluationRecord, ContributorEvent, ContributorKind, created, contributed,
  ownership_transferred, submitted_for_review, review_decided,
}
use consolebook.Draft.Status.{load_record}

-- The rows that make a user a contributor.
abbrev pub touches : ContributorKind → ℕ → ContributorEvent → Bool
touches created user_id ev = ev.actor_user_id == user_id
touches contributed user_id ev = ev.actor_user_id == user_id
touches submitted_for_review user_id ev = ev.actor_user_id == user_id
touches ownership_transferred user_id ev = same_option ev.to_user_id (some user_id)
touches review_decided user_id ev = false

unfoldable pub has_touched : Db → ℕ → ℕ → Bool
has_touched db r user_id =
    exists (λ ev. ev.evaluation_record_id == r && touches ev.kind user_id ev) db.contributor_events

-- The current owner, or an actor of created, contributed or submitted events, or a recipient.
unfoldable pub is_contributor : {E : Type 0} → Db → ℕ → ℕ → Outcome E Bool
is_contributor db r user_id = do
  row ← fetch_one (load_record db r)
  ok (row.owner_user_id == user_id || has_touched db r user_id)

-- session_membership.rs: `is_member`
unfoldable pub is_member : Db → ℕ → ℕ → Bool
is_member db user_id session_id =
    exists (λ st. st.session_id == session_id && st.trainer_user_id == user_id) db.session_trainers

-- Membership on a session that the record covers.
unfoldable pub covers_member : Db → ℕ → ℕ → Bool
covers_member db user_id r =
    exists (λ es. es.evaluation_record_id == r && is_member db user_id es.training_session_id)
      db.coverage

unfoldable pub in_scope : Db → ℕ → EvaluationRecord → Bool
in_scope db user_id row =
    is_assigned db user_id row.enrollment_id || covers_member db user_id row.id

-- A coordinator, or an evaluation author within the record's scope.
unfoldable pub may_contribute : Db → ℕ → EvaluationRecord → Bool
may_contribute db actor row =
    user_has db actor assign_training
    || (user_has db actor author_evaluation && in_scope db actor row)

-- lifecycle.rs: `may_read`
unfoldable pub may_read_training : Db → ℕ → ℕ → Bool
may_read_training db actor e =
    user_has db actor assign_training
    || (user_has db actor view_assigned_records && is_assigned db actor e)

pub data ReadGrant : Type 0 where
  workflow own_record : ReadGrant

unfoldable pub was_submitted : Db → ℕ → Bool
was_submitted db r =
    exists (λ ev. ev.evaluation_record_id == r && is_submission ev.kind) db.contributor_events
  where
    is_submission : ContributorKind → Bool
    is_submission submitted_for_review = true
    is_submission _ = false

unfoldable pub own_finalized : Db → ℕ → EvaluationRecord → Bool
own_finalized db actor row =
    exists (λ e. e.id == row.enrollment_id && e.user_id == actor) db.enrollments
    && exists (λ v. v.evaluation_record_id == row.id) db.evaluation_versions

-- How the actor may read the record, if at all.
unfoldable pub read_grant : Db → ℕ → EvaluationRecord → Option ReadGrant
read_grant db actor row =
    if may_contribute db actor row
    then some workflow
    else if may_read_training db actor row.enrollment_id
    then some workflow
    else if user_has db actor review_evaluation && was_submitted db row.id
    then some workflow
    else if user_has db actor view_own_records && own_finalized db actor row
    then some own_record
    else none

unfoldable pub may_read : Db → ℕ → EvaluationRecord → Bool
may_read db actor row = is_some (read_grant db actor row)

-- A coordinator, or an evaluation author who is a member of the session or assigned.
unfoldable pub may_start : Db → ℕ → ℕ → ℕ → Bool
may_start db actor session_id e =
    if user_has db actor assign_training
    then true
    else if user_has db actor author_evaluation
    then is_member db actor session_id || is_assigned db actor e
    else false
