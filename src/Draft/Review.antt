-- ===== src/Draft/Review.antt =====
-- crates/consolebook-server/src/draft_review.rs: the review of a submitted draft.
pub mod Effect
use consolebook.Base.{
  ℕ, Bool, true, false, Option, some, none, List, [], ◌∷◌, ◌&&◌, not, Text, String, trim, is_empty,
  codes, ◌++◌, next_id, Outcome, ok, refuse_if, some_or_refuse, fetch_one, ◌>>=◌, ◌>>◌,
  if◌then◌else◌,
}
use consolebook.Audit.{record_for_subject}
use consolebook.Audit.Vocabulary.{draft_review_decided}
use consolebook.Audit.Subjects.{Subject}
use consolebook.Notice.{notify_user}
use consolebook.Notice.Vocabulary.{
  NoticeKind, draft_approved, draft_changes_requested, draft_returned,
}
use consolebook.Capability.{user_has}
use consolebook.Capability.Vocabulary.{review_evaluation}
use consolebook.Db.{Db, DecisionKind, approved, changes_requested, returned, change_request_return}
use consolebook.Draft.Status.{
  DraftRefusal, DraftStatus, capability_required, no_such_record, comment_required, not_submitted,
  self_review, load_record, status_of,
}
use consolebook.Draft.Access.{is_contributor}
use consolebook.Draft.Ownership.{trainee_name}
use consolebook.Draft.Stream.{insert_decision, take_snapshot, is_change_request}

abbrev pub notice : DecisionKind → NoticeKind
notice approved = draft_approved
notice changes_requested = draft_changes_requested
notice returned = draft_returned

abbrev pub verdict : DecisionKind → String
verdict approved = "was approved"
verdict changes_requested = "needs changes"
verdict returned = "was returned"

abbrev pub comment_of : Option Text → Text
comment_of none = []
comment_of (some text) = trim text

abbrev pub is_submitted : DraftStatus → Bool
is_submitted DraftStatus.submitted = true
is_submitted _ = false

unfoldable pub decided_message : DecisionKind → Text → Text
decided_message decision name =
    codes "Your draft evaluation for " ++ name ++ codes " " ++ codes (verdict decision) ++ codes "."

-- The second snapshot point: a change request anchors what the reviewer saw.
unfoldable pub snapshot_return : {E : Type 0} → Db → ℕ → DecisionKind → ℕ → ℕ → Outcome E Db
unfolding take_snapshot
snapshot_return db r decision now actor =
    if is_change_request decision
    then take_snapshot db r change_request_return now (some actor)
    else ok db

-- `seen` is what is read before the write transaction.
unfoldable pub decide :
    (seen db : Db) (now actor r : ℕ) → DecisionKind → Option Text → Outcome DraftRefusal Db
decide seen db now actor r decision comment = do
  early ← some_or_refuse (load_record seen r) no_such_record
  refuse_if (not (user_has seen actor review_evaluation)) capability_required
  refuse_if (is_change_request decision && is_empty (comment_of comment)) comment_required
  refuse_if (not (is_submitted (status_of db r))) not_submitted
  contributes ← is_contributor db r actor
  refuse_if contributes self_review
  db₁ ← snapshot_return db r decision now actor
  db₂ ← insert_decision db₁ (record {
    id = next_id (λ d. d.id) db₁.decisions;
    evaluation_record_id = r;
    reviewer_user_id = actor;
    decision = decision;
    comment = comment_of comment;
    decided_at = now;
  })
  row ← fetch_one (load_record db₂ r)
  db₃ ←
      record_for_subject draft_review_decided (some actor) (some row.owner_user_id)
        (Subject.record_row r) now db₂
  name ← trainee_name db₃ early.enrollment_id
  notify_user row.owner_user_id (notice decision) (decided_message decision name) now db₃
