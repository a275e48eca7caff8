-- ===== src/Examples/Transfers.antt =====
-- The evaluation record of the agency handed over by `transfer` of
-- crates/consolebook-server/src/evaluation_drafts.rs.
use consolebook.Draft.Ownership
use consolebook.Draft.Stream
use consolebook.Draft.Access
use consolebook.Draft.Status
use consolebook.Capability
use consolebook.Db
use consolebook.Base
use consolebook.Base.{ℕ, ◌≡◌, refl, true, false, none, some, [], ◌∷◌, ok}
use consolebook.Db.{Db, EvaluationRecord}
use consolebook.Draft.Status.{draft, status_of, load_record}
use consolebook.Draft.Cycle.{Marked}
use consolebook.Draft.Ownership.Effect.{
  run as transfer_run, Transfer, Transferred, transfer-Transferred, transfer-owner,
}
use consolebook.Examples.{agency, written_by, reviewer, coordinator}

-- The coordinator hands the draft to the reviewer, who is assigned by then.
abbrev staffed : Db
staffed = record agency {
  assignments =
      record {
        id = 2;
        enrollment_id = 1;
        trainer_user_id = 4;
        assigned_at = 12;
        assigned_by = some 1;
        ended_at = none;
        ended_by = none;
      }
      ∷ agency.assignments;
}

abbrev hand_over : Transfer
hand_over = record {
  seen = staffed;
  db = staffed;
  now = 70;
  actor = coordinator;
  r = 1;
  to = reviewer;
}

abbrev handed_over : Db
handed_over = written_by (transfer_run hand_over) staffed

hand_over_answer : transfer_run hand_over ≡ ok handed_over
unfolding Base.select Base.exists Base.find? Base.max_of Base.max? Base.next_id Base.pick Base.top
    Base.is_white Base.trim_start Base.trim Db.user_of Db.is_user Db.is_user? Db.enrollment_of
    Db.version_of Capability.bundle_capabilities Capability.holds Capability.user_has
    Capability.insert_grant Capability.grant_bundle consolebook.Capability.Vocabulary.as_str
    consolebook.Audit.record_for_subject consolebook.Notice.notify_user Status.load_record
    Status.later_version Status.latest_version Status.amendment_of Status.open_scope
    Status.later_contribution Status.later_decision Status.latest_contribution
    Status.latest_decision Status.cycle_status Status.is_finalized Status.status_of
    Access.has_touched Access.is_contributor Access.is_member Access.covers_member Access.in_scope
    Access.may_contribute Access.may_read_training Access.was_submitted Access.own_finalized
    Access.read_grant Access.may_read Access.may_start consolebook.Draft.Frozen.frozen_view
    Stream.decisions_of Stream.decided_events_of Stream.insert_contribution Stream.append_event
    Stream.take_snapshot Stream.return_snapshots_of Stream.change_requests_of Stream.newest_kind
    Stream.insert_decision consolebook.Assignment.assigned_to consolebook.Assignment.is_assigned
    Ownership.trainee_name Ownership.set_owner Ownership.update_owner Ownership.received_message
    Ownership.transfer
hand_over_answer = refl

transfer-Transferred_example : Transferred hand_over handed_over
transfer-Transferred_example = transfer-Transferred hand_over handed_over hand_over_answer

transfer-owner_example :
    (row : EvaluationRecord) × (load_record staffed 1 ≡ some row)
    × (load_record handed_over 1 ≡ some (record row { owner_user_id = reviewer }))
transfer-owner_example = transfer-owner hand_over handed_over hand_over_answer

staffed-Marked : Marked staffed
staffed-Marked = record { events = tt; decisions = tt }
