-- ===== src/Examples/Scopes.antt =====
-- Assignments and signoffs of the agency: crates/consolebook-server/src/{assignments,task_signoffs}.rs.
use consolebook.Signoff
use consolebook.Assignment.Service
use consolebook.Lifecycle.Queries
use consolebook.Audit
use consolebook.Capability.Vocabulary
use consolebook.Capability
use consolebook.Db
use consolebook.Assignment
use consolebook.Base
use consolebook.Base.{ℕ, ◌≡◌, refl, true, false, none, [], ◌∷◌, ok, codes}
use consolebook.Assignment.{is_assigned}
use consolebook.Assignment.Service.{create, end, assignment_of}
use consolebook.Assignment.Scope.{OneOpen, create-scope, end-OneOpen}
use consolebook.Capability.Vocabulary.{
  view_assigned_records, parse as parse_capability, as_str as capability_name, parse-as_str,
}
use consolebook.Db.{Db, User, Assignment, SignoffKind, user_of}
use consolebook.Signoff.{record_signoff}
use consolebook.Examples.{agency, written_by, state_after, coordinator, trainer, reviewer}

agency-OneOpen : OneOpen agency.assignments
unfolding Base.select Base.exists Base.find? Base.max_of Base.max? Base.next_id Base.pick Base.top
    Assignment.assigned_to Assignment.is_assigned
agency-OneOpen = ((λ o. refl), tt)

-- The trainer's assignment ends.
abbrev dismissed : Db
dismissed = written_by (end agency agency 90 coordinator 1) agency

end_answer : end agency agency 90 coordinator 1 ≡ ok dismissed
unfolding Base.select Base.exists Base.find? Base.max_of Base.max? Base.next_id Base.pick Base.top
    Base.is_white Base.trim_start Base.trim Db.user_of Db.is_user Db.is_user? Db.enrollment_of
    Db.version_of Capability.bundle_capabilities Capability.holds Capability.user_has
    Capability.insert_grant Capability.grant_bundle Vocabulary.as_str Audit.record_for_subject
    Queries.later_event Queries.later_phase Queries.status_of Queries.status Queries.change_of
    Queries.current_epoch Queries.phase_of Queries.move_of Queries.current_phase Queries.pausing_of
    Queries.is_paused consolebook.Notice.notify_user Assignment.assigned_to Assignment.is_assigned
    Service.insert_assignment Service.assignment_message Service.create Service.assignment_of
    Service.set_ended Service.update_ended Service.end
end_answer = refl

dismissed-OneOpen : OneOpen dismissed.assignments
dismissed-OneOpen = end-OneOpen agency agency 90 coordinator 1 dismissed agency-OneOpen end_answer

-- And the trainer is assigned again.
abbrev recalled : Db
recalled = state_after (create dismissed dismissed 95 coordinator 1 trainer) dismissed

create_answer : create dismissed dismissed 95 coordinator 1 trainer ≡ ok (2, recalled)
unfolding Base.select Base.exists Base.find? Base.max_of Base.max? Base.next_id Base.pick Base.top
    Base.is_white Base.trim_start Base.trim Db.user_of Db.is_user Db.is_user? Db.enrollment_of
    Db.version_of Capability.bundle_capabilities Capability.holds Capability.user_has
    Capability.insert_grant Capability.grant_bundle Vocabulary.as_str Audit.record_for_subject
    Queries.later_event Queries.later_phase Queries.status_of Queries.status Queries.change_of
    Queries.current_epoch Queries.phase_of Queries.move_of Queries.current_phase Queries.pausing_of
    Queries.is_paused consolebook.Notice.notify_user Assignment.assigned_to Assignment.is_assigned
    Service.insert_assignment Service.assignment_message Service.create Service.assignment_of
    Service.set_ended Service.update_ended Service.end
create_answer = refl

create-scope_example :
    (is_assigned dismissed trainer 1 ≡ false)
    × (is_assigned recalled trainer 1 ≡ true)
    × OneOpen recalled.assignments
create-scope_example =
    create-scope dismissed dismissed 95 coordinator 1 trainer 2 recalled dismissed-OneOpen
      create_answer

-- The trainer signs off a task, and the reviewer revokes it.
abbrev signed : Db
signed = written_by (record_signoff agency agency 51 trainer 1 1 SignoffKind.observed []) agency

abbrev unsigned : Db
unsigned =
    written_by
      (record_signoff signed signed 52 reviewer 1 1 SignoffKind.revoked (codes "Other trainee"))
      signed

sign_answer : record_signoff agency agency 51 trainer 1 1 SignoffKind.observed [] ≡ ok signed
unfolding Base.select Base.exists Base.find? Base.max_of Base.max? Base.next_id Base.pick Base.top
    Base.is_white Base.trim_start Base.trim Db.user_of Db.is_user Db.is_user? Db.enrollment_of
    Db.version_of Capability.bundle_capabilities Capability.holds Capability.user_has
    Capability.insert_grant Capability.grant_bundle Vocabulary.as_str Audit.record_for_subject
    Assignment.assigned_to Assignment.is_assigned Signoff.same_task Signoff.has_signoff
    Signoff.task_of Signoff.insert_signoff Signoff.record_signoff
sign_answer = refl

revoke_answer :
    record_signoff signed signed 52 reviewer 1 1 SignoffKind.revoked (codes "Other trainee")
    ≡ ok unsigned
unfolding Base.select Base.exists Base.find? Base.max_of Base.max? Base.next_id Base.pick Base.top
    Base.is_white Base.trim_start Base.trim Db.user_of Db.is_user Db.is_user? Db.enrollment_of
    Db.version_of Capability.bundle_capabilities Capability.holds Capability.user_has
    Capability.insert_grant Capability.grant_bundle Vocabulary.as_str Audit.record_for_subject
    Assignment.assigned_to Assignment.is_assigned Signoff.same_task Signoff.has_signoff
    Signoff.task_of Signoff.insert_signoff Signoff.record_signoff
revoke_answer = refl
