-- ===== src/Examples/Seals.antt =====
-- A record of the agency that is approved and sealed: crates/consolebook-server/src/finalization.rs.
use consolebook.Finalization
use consolebook.Finalization.Insert
use consolebook.Amendment
use consolebook.Canonical
use consolebook.Canonical.Hex
use consolebook.Draft.Submission
use consolebook.Draft.Completion
use consolebook.Draft.Ownership
use consolebook.Assignment
use consolebook.Draft.Stream
use consolebook.Draft.Frozen
use consolebook.Draft.Access
use consolebook.Draft.Status
use consolebook.Notice
use consolebook.Audit
use consolebook.Capability.Vocabulary
use consolebook.Capability
use consolebook.Db
use consolebook.Base
use consolebook.Base.{
  ℕ, ◌%◌, ◌≡◌, refl, true, none, some, List, [], ◌∷◌, ok, Outcome, refused, failed, codes, length,
  pos, Text,
}
use consolebook.Acknowledgment.{acknowledgment_of}
use consolebook.Acknowledgment.Standing.{finalize-acknowledgment_of}
use consolebook.Canonical.{Value, zeros}
use consolebook.Capability.{user_has}
use consolebook.Capability.Vocabulary.{acknowledge_own_record, review_evaluation}
use consolebook.Db.{
  Db, AckKind, EvaluationRecord, EvaluationVersion, submitted_for_review, review_decided,
  DecisionKind,
}
use consolebook.Draft.Access.{may_read}
use consolebook.Draft.Status.{DraftStatus, load_record, status_of}
use consolebook.Examples.{agency, coordinator, trainee, reviewer}
use consolebook.Finalization.{Format, FinalizeRefusal, VersionMeta, version_at, verify_at}
use consolebook.Finalization.Effect.{Sealing, run, Sealed, sealed_version, finalize-Sealed}
use consolebook.Finalization.History.{Reach, here, next, seal, Reach-verify_at, Reach-Ordered}
use consolebook.Finalization.Numbering.{Ordered, Targeted, finalize-status, finalize_again}

-- A digest that tells texts of different lengths apart, and a document that holds its version's number.
abbrev format : Format
format = record {
  sha256 = λ m. (length m % 256) ∷ zeros 31;
  to_vec = λ v. some (codes "null");
  envelope = λ db row actor now rules number before. some (Value.number (some (pos number)));
}

-- The record was approved.
abbrev approved : Db
approved = record agency {
  grants =
      record {
        user_id = trainee;
        capability = acknowledge_own_record;
        granted_at = 1;
        granted_by = none;
      }
      ∷ agency.grants;
  contributor_events =
      record {
        id = 3;
        evaluation_record_id = 1;
        kind = review_decided;
        actor_user_id = 4;
        to_user_id = none;
        recorded_at = 60;
      }
      ∷ record {
        id = 2;
        evaluation_record_id = 1;
        kind = submitted_for_review;
        actor_user_id = 3;
        to_user_id = none;
        recorded_at = 50;
      }
      ∷ agency.contributor_events;
  decisions =
      record {
        id = 1;
        evaluation_record_id = 1;
        reviewer_user_id = 4;
        decision = DecisionKind.approved;
        comment = [];
        decided_at = 60;
      }
      ∷ [];
}

abbrev sealing : Sealing
sealing = record {
  format = format;
  seen = approved;
  db = approved;
  now = 70;
  actor = reviewer;
  r = 1;
  expected_revision = 7;
}

abbrev database_in : Outcome FinalizeRefusal (VersionMeta × Db) → Db
database_in (ok answer) = answer.1
database_in (refused e) = approved
database_in failed = approved

abbrev told_in : Outcome FinalizeRefusal (VersionMeta × Db) → VersionMeta
told_in (ok answer) = answer.0
told_in _ = record {
  version_number = 0;
  record_schema = 0;
  content_hash = [];
  chain_hash = [];
  finalized_at = 0;
  finalized_by = 0;
  finalized_by_display_name = [];
}

abbrev closed : Db
closed = database_in (run sealing)

abbrev answer : VersionMeta
answer = told_in (run sealing)

seal_answer : run sealing ≡ ok (answer, closed)
unfolding Base.select Base.exists Base.find? Base.max_of Base.max? Base.next_id Base.pick Base.top
    Base.is_white Base.trim_start Base.trim Db.user_of Db.is_user Db.is_user? Db.enrollment_of
    Db.version_of Capability.bundle_capabilities Capability.holds Capability.user_has
    Capability.insert_grant Capability.grant_bundle Vocabulary.as_str Audit.record_for_subject
    Notice.notify_user Status.load_record Status.later_version Status.latest_version
    Status.amendment_of Status.open_scope Status.later_contribution Status.later_decision
    Status.latest_contribution Status.latest_decision Status.cycle_status Status.is_finalized
    Status.status_of Access.has_touched Access.is_contributor Access.is_member Access.covers_member
    Access.in_scope Access.may_contribute Access.may_read_training Access.was_submitted
    Access.own_finalized Access.read_grant Access.may_read Access.may_start Frozen.frozen_view
    Stream.decisions_of Stream.decided_events_of Stream.insert_contribution Stream.append_event
    Stream.take_snapshot Stream.return_snapshots_of Stream.change_requests_of Stream.newest_kind
    Stream.insert_decision Assignment.assigned_to Assignment.is_assigned Ownership.trainee_name
    Ownership.set_owner Ownership.update_owner Ownership.received_message Ownership.transfer
    Completion.policy Completion.narrative_for Completion.narratives_incomplete
    Completion.rating_for Completion.ratings_incomplete Submission.reviewers
    Submission.awaits_message Submission.notify_reviewers Submission.submit Hex.hex_digit Hex.to_hex
    Hex.digit_value Hex.radix_16 Hex.from_pairs Hex.from_hex32 Hex.is_lower_hex Canonical.is_ascii
    Canonical.canonical_bytes Canonical.content_hash_hex Canonical.chain_input
    Canonical.chain_hash_hex Amendment.is_reopened Amendment.event_mark Amendment.decision_mark
    Amendment.insert_amendment Amendment.advance_revision Amendment.reopened_message
    Amendment.open_amendment Insert.all_lower_hex Insert.is_hash Insert.is_version?
    Insert.is_numbered Insert.extends_latest Insert.cycle_approved Insert.gate_open
    Insert.insert_version Finalization.sealed_message Finalization.awaits_message
    Finalization.announce Finalization.check_rules Finalization.finalize Finalization.version_at
    Finalization.same_text Finalization.stored_predecessor_hash Finalization.verify_version
    Finalization.verify_at
seal_answer = refl

finalize-Sealed_example : Sealed sealing answer closed
finalize-Sealed_example = finalize-Sealed sealing answer closed seal_answer

approved-Targeted : Targeted approved
approved-Targeted = record { targets = tt }

finalize-status_example : status_of closed 1 ≡ DraftStatus.finalized
finalize-status_example = finalize-status sealing answer closed tt approved-Targeted seal_answer

abbrev filed : EvaluationRecord
filed = record {
  id = 1;
  enrollment_id = 1;
  program_version_id = 1;
  evaluation_form_id = 1;
  owner_user_id = 3;
  revision = 7;
  created_at = 20;
  created_by = some 3;
}

filed_there : load_record closed 1 ≡ some filed
unfolding Base.select Base.exists Base.find? Base.max_of Base.max? Base.next_id Base.pick Base.top
    Base.is_white Base.trim_start Base.trim Db.user_of Db.is_user Db.is_user? Db.enrollment_of
    Db.version_of Capability.bundle_capabilities Capability.holds Capability.user_has
    Capability.insert_grant Capability.grant_bundle Vocabulary.as_str Audit.record_for_subject
    Notice.notify_user Status.load_record Status.later_version Status.latest_version
    Status.amendment_of Status.open_scope Status.later_contribution Status.later_decision
    Status.latest_contribution Status.latest_decision Status.cycle_status Status.is_finalized
    Status.status_of Access.has_touched Access.is_contributor Access.is_member Access.covers_member
    Access.in_scope Access.may_contribute Access.may_read_training Access.was_submitted
    Access.own_finalized Access.read_grant Access.may_read Access.may_start Frozen.frozen_view
    Stream.decisions_of Stream.decided_events_of Stream.insert_contribution Stream.append_event
    Stream.take_snapshot Stream.return_snapshots_of Stream.change_requests_of Stream.newest_kind
    Stream.insert_decision Assignment.assigned_to Assignment.is_assigned Ownership.trainee_name
    Ownership.set_owner Ownership.update_owner Ownership.received_message Ownership.transfer
    Completion.policy Completion.narrative_for Completion.narratives_incomplete
    Completion.rating_for Completion.ratings_incomplete Submission.reviewers
    Submission.awaits_message Submission.notify_reviewers Submission.submit Hex.hex_digit Hex.to_hex
    Hex.digit_value Hex.radix_16 Hex.from_pairs Hex.from_hex32 Hex.is_lower_hex Canonical.is_ascii
    Canonical.canonical_bytes Canonical.content_hash_hex Canonical.chain_input
    Canonical.chain_hash_hex Amendment.is_reopened Amendment.event_mark Amendment.decision_mark
    Amendment.insert_amendment Amendment.advance_revision Amendment.reopened_message
    Amendment.open_amendment Insert.all_lower_hex Insert.is_hash Insert.is_version?
    Insert.is_numbered Insert.extends_latest Insert.cycle_approved Insert.gate_open
    Insert.insert_version Finalization.sealed_message Finalization.awaits_message
    Finalization.announce Finalization.check_rules Finalization.finalize Finalization.version_at
    Finalization.same_text Finalization.stored_predecessor_hash Finalization.verify_version
    Finalization.verify_at
filed_there = refl

coordinator_reads : may_read closed coordinator filed ≡ true
unfolding Base.select Base.exists Base.find? Base.max_of Base.max? Base.next_id Base.pick Base.top
    Base.is_white Base.trim_start Base.trim Db.user_of Db.is_user Db.is_user? Db.enrollment_of
    Db.version_of Capability.bundle_capabilities Capability.holds Capability.user_has
    Capability.insert_grant Capability.grant_bundle Vocabulary.as_str Audit.record_for_subject
    Notice.notify_user Status.load_record Status.later_version Status.latest_version
    Status.amendment_of Status.open_scope Status.later_contribution Status.later_decision
    Status.latest_contribution Status.latest_decision Status.cycle_status Status.is_finalized
    Status.status_of Access.has_touched Access.is_contributor Access.is_member Access.covers_member
    Access.in_scope Access.may_contribute Access.may_read_training Access.was_submitted
    Access.own_finalized Access.read_grant Access.may_read Access.may_start Frozen.frozen_view
    Stream.decisions_of Stream.decided_events_of Stream.insert_contribution Stream.append_event
    Stream.take_snapshot Stream.return_snapshots_of Stream.change_requests_of Stream.newest_kind
    Stream.insert_decision Assignment.assigned_to Assignment.is_assigned Ownership.trainee_name
    Ownership.set_owner Ownership.update_owner Ownership.received_message Ownership.transfer
    Completion.policy Completion.narrative_for Completion.narratives_incomplete
    Completion.rating_for Completion.ratings_incomplete Submission.reviewers
    Submission.awaits_message Submission.notify_reviewers Submission.submit Hex.hex_digit Hex.to_hex
    Hex.digit_value Hex.radix_16 Hex.from_pairs Hex.from_hex32 Hex.is_lower_hex Canonical.is_ascii
    Canonical.canonical_bytes Canonical.content_hash_hex Canonical.chain_input
    Canonical.chain_hash_hex Amendment.is_reopened Amendment.event_mark Amendment.decision_mark
    Amendment.insert_amendment Amendment.advance_revision Amendment.reopened_message
    Amendment.open_amendment Insert.all_lower_hex Insert.is_hash Insert.is_version?
    Insert.is_numbered Insert.extends_latest Insert.cycle_approved Insert.gate_open
    Insert.insert_version Finalization.sealed_message Finalization.awaits_message
    Finalization.announce Finalization.check_rules Finalization.finalize Finalization.version_at
    Finalization.same_text Finalization.stored_predecessor_hash Finalization.verify_version
    Finalization.verify_at
coordinator_reads = refl

abbrev sealing_again : Sealing
sealing_again = record sealing { seen = closed; db = closed; now = 71 }

reviewer_able : user_has closed reviewer review_evaluation ≡ true
unfolding Base.select Base.exists Base.find? Base.max_of Base.max? Base.next_id Base.pick Base.top
    Base.is_white Base.trim_start Base.trim Db.user_of Db.is_user Db.is_user? Db.enrollment_of
    Db.version_of Capability.bundle_capabilities Capability.holds Capability.user_has
    Capability.insert_grant Capability.grant_bundle Vocabulary.as_str Audit.record_for_subject
    Notice.notify_user Status.load_record Status.later_version Status.latest_version
    Status.amendment_of Status.open_scope Status.later_contribution Status.later_decision
    Status.latest_contribution Status.latest_decision Status.cycle_status Status.is_finalized
    Status.status_of Access.has_touched Access.is_contributor Access.is_member Access.covers_member
    Access.in_scope Access.may_contribute Access.may_read_training Access.was_submitted
    Access.own_finalized Access.read_grant Access.may_read Access.may_start Frozen.frozen_view
    Stream.decisions_of Stream.decided_events_of Stream.insert_contribution Stream.append_event
    Stream.take_snapshot Stream.return_snapshots_of Stream.change_requests_of Stream.newest_kind
    Stream.insert_decision Assignment.assigned_to Assignment.is_assigned Ownership.trainee_name
    Ownership.set_owner Ownership.update_owner Ownership.received_message Ownership.transfer
    Completion.policy Completion.narrative_for Completion.narratives_incomplete
    Completion.rating_for Completion.ratings_incomplete Submission.reviewers
    Submission.awaits_message Submission.notify_reviewers Submission.submit Hex.hex_digit Hex.to_hex
    Hex.digit_value Hex.radix_16 Hex.from_pairs Hex.from_hex32 Hex.is_lower_hex Canonical.is_ascii
    Canonical.canonical_bytes Canonical.content_hash_hex Canonical.chain_input
    Canonical.chain_hash_hex Amendment.is_reopened Amendment.event_mark Amendment.decision_mark
    Amendment.insert_amendment Amendment.advance_revision Amendment.reopened_message
    Amendment.open_amendment Insert.all_lower_hex Insert.is_hash Insert.is_version?
    Insert.is_numbered Insert.extends_latest Insert.cycle_approved Insert.gate_open
    Insert.insert_version Finalization.sealed_message Finalization.awaits_message
    Finalization.announce Finalization.check_rules Finalization.finalize Finalization.version_at
    Finalization.same_text Finalization.stored_predecessor_hash Finalization.verify_version
    Finalization.verify_at
reviewer_able = refl

finalize_again_example : run sealing_again ≡ refused FinalizeRefusal.already_finalized
finalize_again_example =
    finalize_again sealing answer closed sealing_again filed tt approved-Targeted seal_answer refl
      refl filed_there reviewer_able

abbrev history : Reach format approved closed
history = next here (seal sealing answer refl refl seal_answer)

abbrev first_of : List EvaluationVersion → EvaluationVersion
first_of [] = sealed_version sealing none [] []
first_of (v ∷ rest) = v

first_there : version_at closed 1 (some 1) ≡ some (first_of closed.evaluation_versions)
unfolding Base.select Base.exists Base.find? Base.max_of Base.max? Base.next_id Base.pick Base.top
    Base.is_white Base.trim_start Base.trim Db.user_of Db.is_user Db.is_user? Db.enrollment_of
    Db.version_of Capability.bundle_capabilities Capability.holds Capability.user_has
    Capability.insert_grant Capability.grant_bundle Vocabulary.as_str Audit.record_for_subject
    Notice.notify_user Status.load_record Status.later_version Status.latest_version
    Status.amendment_of Status.open_scope Status.later_contribution Status.later_decision
    Status.latest_contribution Status.latest_decision Status.cycle_status Status.is_finalized
    Status.status_of Access.has_touched Access.is_contributor Access.is_member Access.covers_member
    Access.in_scope Access.may_contribute Access.may_read_training Access.was_submitted
    Access.own_finalized Access.read_grant Access.may_read Access.may_start Frozen.frozen_view
    Stream.decisions_of Stream.decided_events_of Stream.insert_contribution Stream.append_event
    Stream.take_snapshot Stream.return_snapshots_of Stream.change_requests_of Stream.newest_kind
    Stream.insert_decision Assignment.assigned_to Assignment.is_assigned Ownership.trainee_name
    Ownership.set_owner Ownership.update_owner Ownership.received_message Ownership.transfer
    Completion.policy Completion.narrative_for Completion.narratives_incomplete
    Completion.rating_for Completion.ratings_incomplete Submission.reviewers
    Submission.awaits_message Submission.notify_reviewers Submission.submit Hex.hex_digit Hex.to_hex
    Hex.digit_value Hex.radix_16 Hex.from_pairs Hex.from_hex32 Hex.is_lower_hex Canonical.is_ascii
    Canonical.canonical_bytes Canonical.content_hash_hex Canonical.chain_input
    Canonical.chain_hash_hex Amendment.is_reopened Amendment.event_mark Amendment.decision_mark
    Amendment.insert_amendment Amendment.advance_revision Amendment.reopened_message
    Amendment.open_amendment Insert.all_lower_hex Insert.is_hash Insert.is_version?
    Insert.is_numbered Insert.extends_latest Insert.cycle_approved Insert.gate_open
    Insert.insert_version Finalization.sealed_message Finalization.awaits_message
    Finalization.announce Finalization.check_rules Finalization.finalize Finalization.version_at
    Finalization.same_text Finalization.stored_predecessor_hash Finalization.verify_version
    Finalization.verify_at
first_there = refl

Reach-verify_at_example :
    verify_at format closed coordinator 1 (some 1)
    ≡ ok (some (record { content_hash_ok = true; chain_hash_ok = true }))
Reach-verify_at_example =
    Reach-verify_at format approved closed coordinator 1 (some 1)
      (first_of closed.evaluation_versions) filed refl refl history filed_there coordinator_reads
      first_there

Reach-Ordered_example : Ordered closed.evaluation_versions 1
Reach-Ordered_example = Reach-Ordered format approved closed 1 refl refl history

finalize-acknowledgment_of_example : acknowledgment_of closed coordinator 1 ≡ ok none
finalize-acknowledgment_of_example =
    finalize-acknowledgment_of sealing answer closed coordinator filed tt tt seal_answer filed_there
      coordinator_reads
