-- ===== src/Examples/Amendments.antt =====
-- The finalized record of the agency, reopened by crates/consolebook-server/src/amendments.rs.
use consolebook.Amendment
use consolebook.Draft.Ownership
use consolebook.Draft.Stream
use consolebook.Draft.Access
use consolebook.Draft.Status
use consolebook.Capability
use consolebook.Db
use consolebook.Base
use consolebook.Base.{ℕ, suc, ◌≡◌, refl, true, false, none, some, [], ◌∷◌, ok, codes}
use consolebook.Amendment.Effect.{Reopening, run, Reopened, open_amendment-Reopened}
use consolebook.Db.{Db, EvaluationRecord, submitted_for_review, review_decided, DecisionKind}
use consolebook.Draft.Status.{draft, status_of, load_record}
use consolebook.Examples.{agency, written_by, reviewer}

-- The record was approved and finalized.
abbrev archived : Db
archived = record agency {
  contributor_events =
      record {
        id = 3;
        evaluation_record_id = 1;
        kind = review_decided;
        actor_user_id = 4;
        to_user_id = none;
        recorded_at = 60;
      }
      ∷ record {
        id = 2;
        evaluation_record_id = 1;
        kind = submitted_for_review;
        actor_user_id = 3;
        to_user_id = none;
        recorded_at = 50;
      }
      ∷ agency.contributor_events;
  decisions =
      record {
        id = 1;
        evaluation_record_id = 1;
        reviewer_user_id = 4;
        decision = DecisionKind.approved;
        comment = [];
        decided_at = 60;
      }
      ∷ [];
  evaluation_versions =
      record {
        id = 1;
        evaluation_record_id = 1;
        version_number = 1;
        record_schema = 2;
        canonical_bytes = [];
        content_hash = [];
        chain_hash = [];
        predecessor_id = none;
        finalized_at = 70;
        finalized_by = reviewer;
      }
      ∷ [];
}

abbrev reopen : Reopening
reopen = record {
  seen = archived;
  db = archived;
  now = 80;
  actor = reviewer;
  r = 1;
  reason = codes "Wrong date";
}

abbrev reopened : Db
reopened = written_by (run reopen) archived

reopen_answer : run reopen ≡ ok reopened
unfolding Base.select Base.exists Base.find? Base.max_of Base.max? Base.next_id Base.pick Base.top
    Base.is_white Base.trim_start Base.trim Db.user_of Db.is_user Db.is_user? Db.enrollment_of
    Db.version_of Capability.bundle_capabilities Capability.holds Capability.user_has
    Capability.insert_grant Capability.grant_bundle consolebook.Capability.Vocabulary.as_str
    consolebook.Audit.record_for_subject consolebook.Notice.notify_user Status.load_record
    Status.later_version Status.latest_version Status.amendment_of Status.open_scope
    Status.later_contribution Status.later_decision Status.latest_contribution
    Status.latest_decision Status.cycle_status Status.is_finalized Status.status_of
    Access.has_touched Access.is_contributor Access.is_member Access.covers_member Access.in_scope
    Access.may_contribute Access.may_read_training Access.was_submitted Access.own_finalized
    Access.read_grant Access.may_read Access.may_start consolebook.Draft.Frozen.frozen_view
    Stream.decisions_of Stream.decided_events_of Stream.insert_contribution Stream.append_event
    Stream.take_snapshot Stream.return_snapshots_of Stream.change_requests_of Stream.newest_kind
    Stream.insert_decision consolebook.Assignment.assigned_to consolebook.Assignment.is_assigned
    Ownership.trainee_name Ownership.set_owner Ownership.update_owner Ownership.received_message
    Ownership.transfer Amendment.is_reopened Amendment.event_mark Amendment.decision_mark
    Amendment.insert_amendment Amendment.advance_revision Amendment.reopened_message
    Amendment.open_amendment
reopen_answer = refl

open_amendment-Reopened_example : Reopened reopen reopened
open_amendment-Reopened_example = open_amendment-Reopened reopen reopened reopen_answer
