-- ===== src/Examples/Histories.antt =====
-- A sequence of requests to crates/consolebook-server/src/lifecycle.rs: the trainee enters a phase, and
-- then the enrollment moves to another version.
use consolebook.Lifecycle.Enrollment
use consolebook.Lifecycle.Phases
use consolebook.Lifecycle.Queries
use consolebook.Capability
use consolebook.Db
use consolebook.Base
use consolebook.Base.{ℕ, ◌≡◌, refl, ok}
use consolebook.Db.{Db}
use consolebook.Examples.{agency, state_after}
use consolebook.Examples.Phases.{agency-WellFormed, enter, entered, enter_answer}
use consolebook.Examples.Enrollments.{change}
use consolebook.Lifecycle.Enrollment.Accepted.{answer}
use consolebook.Lifecycle.History.{
  phase, lifecycle, Reach, here, next, Chronological, Reach-keeps, Extends, Reach-Extends,
}
use consolebook.Lifecycle.Invariant.{WellFormed}

abbrev moved : Db
moved = state_after (answer (change entered)) entered

moved_reply : answer (change entered) ≡ ok (1, moved)
unfolding Base.select Base.exists Base.find? Base.max_of Base.max? Base.next_id Base.pick Base.top
    Base.is_white Base.trim_start Base.trim Db.user_of Db.is_user Db.is_user? Db.enrollment_of
    Db.version_of Capability.bundle_capabilities Capability.holds Capability.user_has
    Capability.insert_grant Capability.grant_bundle consolebook.Capability.Vocabulary.as_str
    consolebook.Audit.record_for_subject Queries.later_event Queries.later_phase Queries.status_of
    Queries.status Queries.change_of Queries.current_epoch Queries.phase_of Queries.move_of
    Queries.current_phase Queries.pausing_of Queries.is_paused Phases.latest_effective
    Phases.epoch_opened Phases.edge_of Phases.phase_in Phases.phase_targets
    Phases.insert_phase_event Phases.record_phase_event Enrollment.pins_elsewhere
    Enrollment.version_change_refusal Enrollment.event_versions Enrollment.insert_enrollment_event
    Enrollment.set_pin Enrollment.repoint Enrollment.record_enrollment_event
moved_reply = refl

history : Reach agency moved
history =
    next (next here (phase enter 1 refl enter_answer))
      (lifecycle (change entered) 1 refl moved_reply)

Reach-keeps_example : WellFormed moved × Chronological moved.phase_events
Reach-keeps_example = Reach-keeps (agency-WellFormed, tt) history

Reach-Extends_example : Extends agency moved
Reach-Extends_example = Reach-Extends history
