-- ===== src/Examples/Drafts.antt =====
-- The evaluation record of the agency through the draft workflow of
-- crates/consolebook-server/src/{evaluation_drafts,draft_review}.rs.
use consolebook.Draft.Submission
use consolebook.Draft.Completion
use consolebook.Draft.Ownership
use consolebook.Assignment
use consolebook.Draft.Stream
use consolebook.Draft.Access
use consolebook.Draft.Status
use consolebook.Capability
use consolebook.Db
use consolebook.Base
use consolebook.Base.{
  ℕ, ◌≡◌, ◌≢◌, refl, true, false, none, some, [], ◌∷◌, ok, failed, codes, is_some, arith,
}
use consolebook.Db.{Db, EvaluationRecord, DecisionKind, is_user}
use consolebook.Draft.Status.{
  submitted, draft, status_of, status_of_decision, frozen_refusal, load_record,
}
use consolebook.Draft.Cycle.{Marked}
use consolebook.Draft.Frozen.{Numbered, frozen_view, frozen-status}
use consolebook.Draft.Submission.Effect.{
  run as submission_run, Submission, Submitted, submit-Submitted,
}
use consolebook.Draft.Submission.Total.{Sound, submit-ne-failed}
use consolebook.Draft.Review.Effect.{run as review_run, Reviewing, Decided, decide-Decided}
use consolebook.Examples.{agency, written_by, trainer, reviewer}

agency-Marked : Marked agency
agency-Marked = record { events = tt; decisions = tt }

-- The trainer submits the draft.
abbrev hand_in : Submission
hand_in = record {
  seen = agency;
  db = agency;
  now = 50;
  actor = trainer;
  r = 1;
  expected_revision = 7;
}

abbrev in_review : Db
in_review = written_by (submission_run hand_in) agency

hand_in_answer : submission_run hand_in ≡ ok in_review
unfolding Base.select Base.exists Base.find? Base.max_of Base.max? Base.next_id Base.pick Base.top
    Base.is_white Base.trim_start Base.trim Db.user_of Db.is_user Db.is_user? Db.enrollment_of
    Db.version_of Capability.bundle_capabilities Capability.holds Capability.user_has
    Capability.insert_grant Capability.grant_bundle consolebook.Capability.Vocabulary.as_str
    consolebook.Audit.record_for_subject consolebook.Notice.notify_user Status.load_record
    Status.later_version Status.latest_version Status.amendment_of Status.open_scope
    Status.later_contribution Status.later_decision Status.latest_contribution
    Status.latest_decision Status.cycle_status Status.is_finalized Status.status_of
    Access.has_touched Access.is_contributor Access.is_member Access.covers_member Access.in_scope
    Access.may_contribute Access.may_read_training Access.was_submitted Access.own_finalized
    Access.read_grant Access.may_read Access.may_start consolebook.Draft.Frozen.frozen_view
    Stream.decisions_of Stream.decided_events_of Stream.insert_contribution Stream.append_event
    Stream.take_snapshot Stream.return_snapshots_of Stream.change_requests_of Stream.newest_kind
    Stream.insert_decision Assignment.assigned_to Assignment.is_assigned Ownership.trainee_name
    Ownership.set_owner Ownership.update_owner Ownership.received_message Ownership.transfer
    Completion.policy Completion.narrative_for Completion.narratives_incomplete
    Completion.rating_for Completion.ratings_incomplete Submission.reviewers
    Submission.awaits_message Submission.notify_reviewers Submission.submit
hand_in_answer = refl

submit-Submitted_example : Submitted hand_in in_review
submit-Submitted_example = submit-Submitted hand_in in_review hand_in_answer

in_review-Numbered : Numbered in_review
unfolding Base.select Base.exists Base.find? Base.max_of Base.max? Base.next_id Base.pick Base.top
    Base.is_white Base.trim_start Base.trim Db.user_of Db.is_user Db.is_user? Db.enrollment_of
    Db.version_of Capability.bundle_capabilities Capability.holds Capability.user_has
    Capability.insert_grant Capability.grant_bundle consolebook.Capability.Vocabulary.as_str
    consolebook.Audit.record_for_subject consolebook.Notice.notify_user Status.load_record
    Status.later_version Status.latest_version Status.amendment_of Status.open_scope
    Status.later_contribution Status.later_decision Status.latest_contribution
    Status.latest_decision Status.cycle_status Status.is_finalized Status.status_of
    Access.has_touched Access.is_contributor Access.is_member Access.covers_member Access.in_scope
    Access.may_contribute Access.may_read_training Access.was_submitted Access.own_finalized
    Access.read_grant Access.may_read Access.may_start consolebook.Draft.Frozen.frozen_view
    Stream.decisions_of Stream.decided_events_of Stream.insert_contribution Stream.append_event
    Stream.take_snapshot Stream.return_snapshots_of Stream.change_requests_of Stream.newest_kind
    Stream.insert_decision Assignment.assigned_to Assignment.is_assigned Ownership.trainee_name
    Ownership.set_owner Ownership.update_owner Ownership.received_message Ownership.transfer
    Completion.policy Completion.narrative_for Completion.narratives_incomplete
    Completion.rating_for Completion.ratings_incomplete Submission.reviewers
    Submission.awaits_message Submission.notify_reviewers Submission.submit
in_review-Numbered = record { contributions = (omega arith, (omega arith, tt)); decisions = tt }

frozen-status_example : is_some (frozen_refusal (status_of in_review 1)) ≡ frozen_view in_review 1
frozen-status_example = frozen-status in_review 1 in_review-Numbered

agency-Sound : Sound agency
unfolding Base.select Base.exists Base.find? Base.max_of Base.max? Base.next_id Base.pick Base.top
    Db.user_of Db.is_user Db.is_user? Db.enrollment_of Db.version_of
agency-Sound = record {
  numbered = record { contributions = (omega arith, tt); decisions = tt };
  grantees = (refl, (refl, (refl, (refl, (refl, tt)))));
  trainees = (refl, (refl, tt));
  enrolled = (refl, tt);
}

trainer-is_user : is_user agency trainer ≡ true
unfolding Base.select Base.exists Base.find? Base.max_of Base.max? Base.next_id Base.pick Base.top
    Db.user_of Db.is_user Db.is_user? Db.enrollment_of Db.version_of
trainer-is_user = refl

abbrev stored : EvaluationRecord
stored = record {
  id = 1;
  enrollment_id = 1;
  program_version_id = 1;
  evaluation_form_id = 1;
  owner_user_id = 3;
  revision = 7;
  created_at = 20;
  created_by = some 3;
}

stored_there : load_record agency 1 ≡ some stored
unfolding Base.select Base.exists Base.find? Base.max_of Base.max? Base.next_id Base.pick Base.top
    Status.load_record Status.later_version Status.latest_version Status.amendment_of
    Status.open_scope Status.later_contribution Status.later_decision Status.latest_contribution
    Status.latest_decision Status.cycle_status Status.is_finalized Status.status_of
stored_there = refl

submit-ne-failed_example : submission_run hand_in ≢ failed
submit-ne-failed_example =
    submit-ne-failed hand_in stored stored agency-Sound trainer-is_user stored_there stored_there
      refl

-- The reviewer asks for changes.
abbrev send_back : Reviewing
send_back = record {
  seen = in_review;
  db = in_review;
  now = 60;
  actor = reviewer;
  r = 1;
  decision = DecisionKind.changes_requested;
  comment = some (codes "Name the calls");
}

abbrev sent_back : Db
sent_back = written_by (review_run send_back) in_review

send_back_answer : review_run send_back ≡ ok sent_back
unfolding Base.select Base.exists Base.find? Base.max_of Base.max? Base.next_id Base.pick Base.top
    Base.is_white Base.trim_start Base.trim Db.user_of Db.is_user Db.is_user? Db.enrollment_of
    Db.version_of Capability.bundle_capabilities Capability.holds Capability.user_has
    Capability.insert_grant Capability.grant_bundle consolebook.Capability.Vocabulary.as_str
    consolebook.Audit.record_for_subject consolebook.Notice.notify_user Status.load_record
    Status.later_version Status.latest_version Status.amendment_of Status.open_scope
    Status.later_contribution Status.later_decision Status.latest_contribution
    Status.latest_decision Status.cycle_status Status.is_finalized Status.status_of
    Access.has_touched Access.is_contributor Access.is_member Access.covers_member Access.in_scope
    Access.may_contribute Access.may_read_training Access.was_submitted Access.own_finalized
    Access.read_grant Access.may_read Access.may_start consolebook.Draft.Frozen.frozen_view
    Stream.decisions_of Stream.decided_events_of Stream.insert_contribution Stream.append_event
    Stream.take_snapshot Stream.return_snapshots_of Stream.change_requests_of Stream.newest_kind
    Stream.insert_decision Assignment.assigned_to Assignment.is_assigned Ownership.trainee_name
    Ownership.set_owner Ownership.update_owner Ownership.received_message Ownership.transfer
    consolebook.Draft.Review.decided_message consolebook.Draft.Review.snapshot_return
    consolebook.Draft.Review.decide Completion.policy Completion.narrative_for
    Completion.narratives_incomplete Completion.rating_for Completion.ratings_incomplete
    Submission.reviewers Submission.awaits_message Submission.notify_reviewers Submission.submit
send_back_answer = refl

decide-Decided_example : Decided send_back sent_back
decide-Decided_example = decide-Decided send_back sent_back send_back_answer

in_review-Marked : Marked in_review
unfolding Base.select Base.exists Base.find? Base.max_of Base.max? Base.next_id Base.pick Base.top
    Base.is_white Base.trim_start Base.trim Db.user_of Db.is_user Db.is_user? Db.enrollment_of
    Db.version_of Capability.bundle_capabilities Capability.holds Capability.user_has
    Capability.insert_grant Capability.grant_bundle consolebook.Capability.Vocabulary.as_str
    consolebook.Audit.record_for_subject consolebook.Notice.notify_user Status.load_record
    Status.later_version Status.latest_version Status.amendment_of Status.open_scope
    Status.later_contribution Status.later_decision Status.latest_contribution
    Status.latest_decision Status.cycle_status Status.is_finalized Status.status_of
    Access.has_touched Access.is_contributor Access.is_member Access.covers_member Access.in_scope
    Access.may_contribute Access.may_read_training Access.was_submitted Access.own_finalized
    Access.read_grant Access.may_read Access.may_start consolebook.Draft.Frozen.frozen_view
    Stream.decisions_of Stream.decided_events_of Stream.insert_contribution Stream.append_event
    Stream.take_snapshot Stream.return_snapshots_of Stream.change_requests_of Stream.newest_kind
    Stream.insert_decision Assignment.assigned_to Assignment.is_assigned Ownership.trainee_name
    Ownership.set_owner Ownership.update_owner Ownership.received_message Ownership.transfer
    Completion.policy Completion.narrative_for Completion.narratives_incomplete
    Completion.rating_for Completion.ratings_incomplete Submission.reviewers
    Submission.awaits_message Submission.notify_reviewers Submission.submit
in_review-Marked = record { events = tt; decisions = tt }
