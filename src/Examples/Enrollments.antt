-- ===== src/Examples/Enrollments.antt =====
-- Lifecycle events of crates/consolebook-server/src/lifecycle.rs on concrete databases.
use consolebook.Lifecycle.Enrollment
use consolebook.Lifecycle.Queries
use consolebook.Capability
use consolebook.Db
use consolebook.Base
use consolebook.Base.{
  ℕ, ◌≡◌, ◌≢◌, ◌↔◌, refl, true, false, Option, none, some, [], ok, failed, codes,
}
use consolebook.Db.{Db, Enrollment, EnrollmentEventKind, is_user}
use consolebook.Examples.{agency, state_after, coordinator}
use consolebook.Examples.Phases.{agency-WellFormed, coordinator-is_user}
use consolebook.Lifecycle.Enrollment.Accepted.{EventRequest, answer, EventAccepted}
use consolebook.Lifecycle.EventRefinement.{answer-enrollment_effect}
use consolebook.Lifecycle.EventTotal.{answer-iff-EventAccepted, Storable}
use consolebook.Lifecycle.View.{View, view, enrollment_effect}

-- The coordinator moves the enrollment to version 2.
abbrev pub change : Db → EventRequest
change db = record {
  seen = db;
  db = db;
  now = 40;
  actor = coordinator;
  e = 1;
  kind = EnrollmentEventKind.version_change;
  reason = codes "New edition";
  to_version = some 2;
}

abbrev changed : Db
changed = state_after (answer (change agency)) agency

answer-change : answer (change agency) ≡ ok (1, changed)
unfolding Base.select Base.exists Base.find? Base.max_of Base.max? Base.next_id Base.pick Base.top
    Base.is_white Base.trim_start Base.trim Db.user_of Db.is_user Db.is_user? Db.enrollment_of
    Db.version_of Capability.bundle_capabilities Capability.holds Capability.user_has
    Capability.insert_grant Capability.grant_bundle consolebook.Capability.Vocabulary.as_str
    consolebook.Audit.record_for_subject Queries.later_event Queries.later_phase Queries.status_of
    Queries.status Queries.change_of Queries.current_epoch Queries.phase_of Queries.move_of
    Queries.current_phase Queries.pausing_of Queries.is_paused Enrollment.pins_elsewhere
    Enrollment.version_change_refusal Enrollment.event_versions Enrollment.insert_enrollment_event
    Enrollment.set_pin Enrollment.repoint Enrollment.record_enrollment_event
answer-change = refl

answer-enrollment_effect_example :
    (v : View) × (view agency 1 ≡ some v)
    × (view changed 1 ≡ some (enrollment_effect EnrollmentEventKind.version_change (some 2) v))
answer-enrollment_effect_example =
    answer-enrollment_effect (change agency) 1 changed agency-WellFormed answer-change

answer-iff-EventAccepted_example :
    ((id : ℕ) × (db' : Db) × (answer (change agency) ≡ ok (id, db'))) ↔ (
      (row : Enrollment) × (from : Option ℕ) × (to : Option ℕ) × EventAccepted
        (change agency)
        row
        from
        to
      × Storable (change agency))
answer-iff-EventAccepted_example =
    answer-iff-EventAccepted (change agency) agency-WellFormed coordinator-is_user
