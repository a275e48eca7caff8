-- ===== src/Examples/Beginnings.antt =====
-- A new draft and a new enrollment in the agency: crates/consolebook-server/src/evaluation_drafts.rs
-- (`create`) and enrollments.rs.
use consolebook.Draft.Creation
use consolebook.Draft.Ownership
use consolebook.Draft.Stream
use consolebook.Draft.Access
use consolebook.Draft.Status
use consolebook.Capability
use consolebook.Db
use consolebook.Base
use consolebook.Base.{ℕ, ◌≤◌, ◌≡◌, refl, none, some, [], ◌∷◌, ok, false, Distinct}
use consolebook.Db.{Db, active}
use consolebook.Draft.Status.{draft, status_of}
use consolebook.Draft.Creation.Effect.{Starting, run as creation_run, Created, create-Created}
use consolebook.Draft.Creation.Coverage.{create-Distinct}
use consolebook.Enrolling.Effect.{Joining, run as enrolling_run, Enrolled, enroll-Enrolled}
use consolebook.Examples.{agency, state_after, coordinator, trainer, reviewer}

-- A second session, without a draft.
abbrev scheduled : Db
scheduled = record agency {
  sessions =
      record { id = 2; enrollment_id = 1; program_version_id = 1; disposition = none }
      ∷ agency.sessions;
}

abbrev begin : Starting
begin = record {
  seen = scheduled;
  db = scheduled;
  now = 75;
  actor = trainer;
  session = 2;
  form = none;
}

abbrev begun : Db
begun = state_after (creation_run begin) scheduled

begin_answer : creation_run begin ≡ ok (2, begun)
unfolding Base.select Base.exists Base.find? Base.max_of Base.max? Base.next_id Base.pick Base.top
    Base.is_white Base.trim_start Base.trim Db.user_of Db.is_user Db.is_user? Db.enrollment_of
    Db.version_of Capability.bundle_capabilities Capability.holds Capability.user_has
    Capability.insert_grant Capability.grant_bundle consolebook.Capability.Vocabulary.as_str
    consolebook.Audit.record_for_subject consolebook.Notice.notify_user Status.load_record
    Status.later_version Status.latest_version Status.amendment_of Status.open_scope
    Status.later_contribution Status.later_decision Status.latest_contribution
    Status.latest_decision Status.cycle_status Status.is_finalized Status.status_of
    Access.has_touched Access.is_contributor Access.is_member Access.covers_member Access.in_scope
    Access.may_contribute Access.may_read_training Access.was_submitted Access.own_finalized
    Access.read_grant Access.may_read Access.may_start consolebook.Draft.Frozen.frozen_view
    Stream.decisions_of Stream.decided_events_of Stream.insert_contribution Stream.append_event
    Stream.take_snapshot Stream.return_snapshots_of Stream.change_requests_of Stream.newest_kind
    Stream.insert_decision consolebook.Assignment.assigned_to consolebook.Assignment.is_assigned
    Ownership.trainee_name Ownership.set_owner Ownership.update_owner Ownership.received_message
    Ownership.transfer Creation.daily_form Creation.resolve_form Creation.session_of
    Creation.insert_record Creation.insert_coverage Creation.create
begin_answer = refl

create-Created_example : Created begin 2 begun
create-Created_example = create-Created begin 2 begun begin_answer

create-Distinct_example : Distinct (λ es. es.training_session_id) begun.coverage
create-Distinct_example = create-Distinct begin 2 begun (tt, tt) begin_answer

-- The reviewer joins version 2.
abbrev join : Joining
join = record {
  seen = agency;
  db = agency;
  now = 76;
  actor = coordinator;
  version_id = 2;
  user_id = reviewer;
}

abbrev joined : Db
joined = state_after (enrolling_run join) agency

join_answer : enrolling_run join ≡ ok (3, joined)
unfolding Base.select Base.exists Base.find? Base.max_of Base.max? Base.next_id Base.pick Base.top
    Base.is_white Base.trim_start Base.trim Db.user_of Db.is_user Db.is_user? Db.enrollment_of
    Db.version_of Capability.bundle_capabilities Capability.holds Capability.user_has
    Capability.insert_grant Capability.grant_bundle consolebook.Capability.Vocabulary.as_str
    consolebook.Audit.record_for_subject consolebook.Enrolling.is_enrolled
    consolebook.Enrolling.insert_enrollment consolebook.Enrolling.grant_missing
    consolebook.Enrolling.enroll
join_answer = refl

enroll-Enrolled_example : Enrolled join 3 joined
enroll-Enrolled_example = enroll-Enrolled join 3 joined join_answer
