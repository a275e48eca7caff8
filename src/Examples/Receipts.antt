-- ===== src/Examples/Receipts.antt =====
-- The trainee's receipt of the sealed record: crates/consolebook-server/src/acknowledgments.rs.
use consolebook.Acknowledgment
use consolebook.Draft.Submission
use consolebook.Draft.Completion
use consolebook.Draft.Ownership
use consolebook.Assignment
use consolebook.Draft.Stream
use consolebook.Draft.Frozen
use consolebook.Draft.Access
use consolebook.Draft.Status
use consolebook.Notice
use consolebook.Audit
use consolebook.Capability.Vocabulary
use consolebook.Capability
use consolebook.Db
use consolebook.Base
use consolebook.Base.{
  ◌≡◌, refl, true, false, ◌>>◌, trim, is_empty, none, some, [], ◌∷◌, ok, refused, codes, is_some,
  Text,
}
use consolebook.Acknowledgment.{
  AckRefusal, TraineeAckKind, AttestedKind, acknowledgment_of, check_response,
}
use consolebook.Acknowledgment.Effect.{
  Receipt, run as receipt_run, Acknowledged, acknowledge-Acknowledged, Attestation, run_attest,
  Attested, attest-Attested,
}
use consolebook.Acknowledgment.Standing.{acknowledge_again}
use consolebook.Capability.{user_has}
use consolebook.Capability.Vocabulary.{acknowledge_own_record, review_evaluation}
use consolebook.Db.{Db, AckKind, EvaluationRecord}
use consolebook.Draft.Access.{may_read}
use consolebook.Draft.Status.{load_record}
use consolebook.Examples.{agency, written_by, trainee, reviewer}

-- The record was sealed.
abbrev closed : Db
closed = record agency {
  grants =
      record {
        user_id = trainee;
        capability = acknowledge_own_record;
        granted_at = 1;
        granted_by = none;
      }
      ∷ agency.grants;
  evaluation_versions =
      record {
        id = 1;
        evaluation_record_id = 1;
        version_number = 1;
        record_schema = 2;
        canonical_bytes = codes "null";
        content_hash = [];
        chain_hash = [];
        predecessor_id = none;
        finalized_at = 70;
        finalized_by = reviewer;
      }
      ∷ [];
}

abbrev filed : EvaluationRecord
filed = record {
  id = 1;
  enrollment_id = 1;
  program_version_id = 1;
  evaluation_form_id = 1;
  owner_user_id = 3;
  revision = 7;
  created_at = 20;
  created_by = some 3;
}

-- The trainee acknowledges with a response.
abbrev receipt : Receipt
receipt = record {
  seen = closed;
  db = closed;
  now = 80;
  actor = trainee;
  r = 1;
  kind = TraineeAckKind.acknowledged_with_response;
  response = codes " Fair. ";
}

abbrev received : Db
received = written_by (receipt_run receipt) closed

receipt_answer : receipt_run receipt ≡ ok received
unfolding Base.select Base.exists Base.find? Base.max_of Base.max? Base.next_id Base.pick Base.top
    Base.is_white Base.trim_start Base.trim Db.user_of Db.is_user Db.is_user? Db.enrollment_of
    Db.version_of Capability.bundle_capabilities Capability.holds Capability.user_has
    Capability.insert_grant Capability.grant_bundle Vocabulary.as_str Audit.record_for_subject
    Notice.notify_user Status.load_record Status.later_version Status.latest_version
    Status.amendment_of Status.open_scope Status.later_contribution Status.later_decision
    Status.latest_contribution Status.latest_decision Status.cycle_status Status.is_finalized
    Status.status_of Access.has_touched Access.is_contributor Access.is_member Access.covers_member
    Access.in_scope Access.may_contribute Access.may_read_training Access.was_submitted
    Access.own_finalized Access.read_grant Access.may_read Access.may_start Frozen.frozen_view
    Stream.decisions_of Stream.decided_events_of Stream.insert_contribution Stream.append_event
    Stream.take_snapshot Stream.return_snapshots_of Stream.change_requests_of Stream.newest_kind
    Stream.insert_decision Assignment.assigned_to Assignment.is_assigned Ownership.trainee_name
    Ownership.set_owner Ownership.update_owner Ownership.received_message Ownership.transfer
    Completion.policy Completion.narrative_for Completion.narratives_incomplete
    Completion.rating_for Completion.ratings_incomplete Submission.reviewers
    Submission.awaits_message Submission.notify_reviewers Submission.submit
    Acknowledgment.latest_version Acknowledgment.is_acknowledged Acknowledgment.binds_trainee
    Acknowledgment.insert_acknowledgment Acknowledgment.response_message
    Acknowledgment.refusal_message Acknowledgment.notify_each Acknowledgment.acknowledge
    Acknowledgment.attested_message Acknowledgment.attest Acknowledgment.acknowledgment_of
receipt_answer = refl

acknowledge-Acknowledged_example : Acknowledged receipt received
acknowledge-Acknowledged_example = acknowledge-Acknowledged receipt received receipt_answer

-- And once more.
abbrev second : Receipt
second = record receipt {
  seen = received;
  db = received;
  now = 81;
  kind = TraineeAckKind.acknowledged;
  response = [];
}

second_known : is_some (load_record received 1) ≡ true
unfolding Base.select Base.exists Base.find? Base.max_of Base.max? Base.next_id Base.pick Base.top
    Base.is_white Base.trim_start Base.trim Db.user_of Db.is_user Db.is_user? Db.enrollment_of
    Db.version_of Capability.bundle_capabilities Capability.holds Capability.user_has
    Capability.insert_grant Capability.grant_bundle Vocabulary.as_str Audit.record_for_subject
    Notice.notify_user Status.load_record Status.later_version Status.latest_version
    Status.amendment_of Status.open_scope Status.later_contribution Status.later_decision
    Status.latest_contribution Status.latest_decision Status.cycle_status Status.is_finalized
    Status.status_of Access.has_touched Access.is_contributor Access.is_member Access.covers_member
    Access.in_scope Access.may_contribute Access.may_read_training Access.was_submitted
    Access.own_finalized Access.read_grant Access.may_read Access.may_start Frozen.frozen_view
    Stream.decisions_of Stream.decided_events_of Stream.insert_contribution Stream.append_event
    Stream.take_snapshot Stream.return_snapshots_of Stream.change_requests_of Stream.newest_kind
    Stream.insert_decision Assignment.assigned_to Assignment.is_assigned Ownership.trainee_name
    Ownership.set_owner Ownership.update_owner Ownership.received_message Ownership.transfer
    Completion.policy Completion.narrative_for Completion.narratives_incomplete
    Completion.rating_for Completion.ratings_incomplete Submission.reviewers
    Submission.awaits_message Submission.notify_reviewers Submission.submit
    Acknowledgment.latest_version Acknowledgment.is_acknowledged Acknowledgment.binds_trainee
    Acknowledgment.insert_acknowledgment Acknowledgment.response_message
    Acknowledgment.refusal_message Acknowledgment.notify_each Acknowledgment.acknowledge
    Acknowledgment.attested_message Acknowledgment.attest Acknowledgment.acknowledgment_of
second_known = refl

second_able : user_has received trainee acknowledge_own_record ≡ true
unfolding Base.select Base.exists Base.find? Base.max_of Base.max? Base.next_id Base.pick Base.top
    Base.is_white Base.trim_start Base.trim Db.user_of Db.is_user Db.is_user? Db.enrollment_of
    Db.version_of Capability.bundle_capabilities Capability.holds Capability.user_has
    Capability.insert_grant Capability.grant_bundle Vocabulary.as_str Audit.record_for_subject
    Notice.notify_user Status.load_record Status.later_version Status.latest_version
    Status.amendment_of Status.open_scope Status.later_contribution Status.later_decision
    Status.latest_contribution Status.latest_decision Status.cycle_status Status.is_finalized
    Status.status_of Access.has_touched Access.is_contributor Access.is_member Access.covers_member
    Access.in_scope Access.may_contribute Access.may_read_training Access.was_submitted
    Access.own_finalized Access.read_grant Access.may_read Access.may_start Frozen.frozen_view
    Stream.decisions_of Stream.decided_events_of Stream.insert_contribution Stream.append_event
    Stream.take_snapshot Stream.return_snapshots_of Stream.change_requests_of Stream.newest_kind
    Stream.insert_decision Assignment.assigned_to Assignment.is_assigned Ownership.trainee_name
    Ownership.set_owner Ownership.update_owner Ownership.received_message Ownership.transfer
    Completion.policy Completion.narrative_for Completion.narratives_incomplete
    Completion.rating_for Completion.ratings_incomplete Submission.reviewers
    Submission.awaits_message Submission.notify_reviewers Submission.submit
    Acknowledgment.latest_version Acknowledgment.is_acknowledged Acknowledgment.binds_trainee
    Acknowledgment.insert_acknowledgment Acknowledgment.response_message
    Acknowledgment.refusal_message Acknowledgment.notify_each Acknowledgment.acknowledge
    Acknowledgment.attested_message Acknowledgment.attest Acknowledgment.acknowledgment_of
second_able = refl

-- The reviewer attests what the trainee has recorded.
abbrev late_attestation : Attestation
late_attestation = record {
  seen = received;
  db = received;
  now = 82;
  actor = reviewer;
  r = 1;
  kind = AttestedKind.supervisor_attested_refusal;
  reason = codes "Silent";
}

reviewer_able : user_has received reviewer review_evaluation ≡ true
unfolding Base.select Base.exists Base.find? Base.max_of Base.max? Base.next_id Base.pick Base.top
    Base.is_white Base.trim_start Base.trim Db.user_of Db.is_user Db.is_user? Db.enrollment_of
    Db.version_of Capability.bundle_capabilities Capability.holds Capability.user_has
    Capability.insert_grant Capability.grant_bundle Vocabulary.as_str Audit.record_for_subject
    Notice.notify_user Status.load_record Status.later_version Status.latest_version
    Status.amendment_of Status.open_scope Status.later_contribution Status.later_decision
    Status.latest_contribution Status.latest_decision Status.cycle_status Status.is_finalized
    Status.status_of Access.has_touched Access.is_contributor Access.is_member Access.covers_member
    Access.in_scope Access.may_contribute Access.may_read_training Access.was_submitted
    Access.own_finalized Access.read_grant Access.may_read Access.may_start Frozen.frozen_view
    Stream.decisions_of Stream.decided_events_of Stream.insert_contribution Stream.append_event
    Stream.take_snapshot Stream.return_snapshots_of Stream.change_requests_of Stream.newest_kind
    Stream.insert_decision Assignment.assigned_to Assignment.is_assigned Ownership.trainee_name
    Ownership.set_owner Ownership.update_owner Ownership.received_message Ownership.transfer
    Completion.policy Completion.narrative_for Completion.narratives_incomplete
    Completion.rating_for Completion.ratings_incomplete Submission.reviewers
    Submission.awaits_message Submission.notify_reviewers Submission.submit
    Acknowledgment.latest_version Acknowledgment.is_acknowledged Acknowledgment.binds_trainee
    Acknowledgment.insert_acknowledgment Acknowledgment.response_message
    Acknowledgment.refusal_message Acknowledgment.notify_each Acknowledgment.acknowledge
    Acknowledgment.attested_message Acknowledgment.attest Acknowledgment.acknowledgment_of
reviewer_able = refl

reason_there : is_empty (trim (codes "Silent")) ≡ false
unfolding Base.select Base.exists Base.find? Base.max_of Base.max? Base.next_id Base.pick Base.top
    Base.is_white Base.trim_start Base.trim Status.load_record Status.later_version
    Status.latest_version Status.amendment_of Status.open_scope Status.later_contribution
    Status.later_decision Status.latest_contribution Status.latest_decision Status.cycle_status
    Status.is_finalized Status.status_of
reason_there = refl

acknowledge_again_example :
    (receipt_run second ≡ (
      check_response second.kind (trim second.response) >> refused AckRefusal.already_acknowledged))
    × (run_attest late_attestation ≡ refused AckRefusal.already_acknowledged)
acknowledge_again_example =
    acknowledge_again receipt received second late_attestation receipt_answer refl refl refl
      second_known second_able refl refl refl second_known reviewer_able reason_there

-- The reviewer attests instead that the trainee is away.
abbrev attestation : Attestation
attestation = record {
  seen = closed;
  db = closed;
  now = 80;
  actor = reviewer;
  r = 1;
  kind = AttestedKind.unavailable;
  reason = codes "On leave";
}

abbrev attested_db : Db
attested_db = written_by (run_attest attestation) closed

attest_answer : run_attest attestation ≡ ok attested_db
unfolding Base.select Base.exists Base.find? Base.max_of Base.max? Base.next_id Base.pick Base.top
    Base.is_white Base.trim_start Base.trim Db.user_of Db.is_user Db.is_user? Db.enrollment_of
    Db.version_of Capability.bundle_capabilities Capability.holds Capability.user_has
    Capability.insert_grant Capability.grant_bundle Vocabulary.as_str Audit.record_for_subject
    Notice.notify_user Status.load_record Status.later_version Status.latest_version
    Status.amendment_of Status.open_scope Status.later_contribution Status.later_decision
    Status.latest_contribution Status.latest_decision Status.cycle_status Status.is_finalized
    Status.status_of Access.has_touched Access.is_contributor Access.is_member Access.covers_member
    Access.in_scope Access.may_contribute Access.may_read_training Access.was_submitted
    Access.own_finalized Access.read_grant Access.may_read Access.may_start Frozen.frozen_view
    Stream.decisions_of Stream.decided_events_of Stream.insert_contribution Stream.append_event
    Stream.take_snapshot Stream.return_snapshots_of Stream.change_requests_of Stream.newest_kind
    Stream.insert_decision Assignment.assigned_to Assignment.is_assigned Ownership.trainee_name
    Ownership.set_owner Ownership.update_owner Ownership.received_message Ownership.transfer
    Completion.policy Completion.narrative_for Completion.narratives_incomplete
    Completion.rating_for Completion.ratings_incomplete Submission.reviewers
    Submission.awaits_message Submission.notify_reviewers Submission.submit
    Acknowledgment.latest_version Acknowledgment.is_acknowledged Acknowledgment.binds_trainee
    Acknowledgment.insert_acknowledgment Acknowledgment.response_message
    Acknowledgment.refusal_message Acknowledgment.notify_each Acknowledgment.acknowledge
    Acknowledgment.attested_message Acknowledgment.attest Acknowledgment.acknowledgment_of
attest_answer = refl

attest-Attested_example : Attested attestation attested_db
attest-Attested_example = attest-Attested attestation attested_db attest_answer
