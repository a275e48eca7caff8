-- ===== src/Lifecycle/Enrollment.antt =====
-- crates/consolebook-server/src/lifecycle.rs: `version_change_refusal` and
-- `record_enrollment_event`, with the constraints and triggers of migrations 0005, 0006 and 0014.
pub mod Accepted
use consolebook.Base.{
  ℕ, Bool, true, false, Option, some, none, List, [], ◌∷◌, ◌&&◌, ◌||◌, not, Text, trim, ◌==◌,
  same_option, is_some, is_empty, has_length, select, exists, find?, top, next_id, if◌then◌else◌,
  Outcome, ok, refuse_if, some_or_refuse, fetch_one, require, ◌>>=◌, ◌>>◌,
}
use consolebook.Capability.{user_has}
use consolebook.Capability.Vocabulary.{assign_training}
use consolebook.Audit.{record_for_subject}
use consolebook.Audit.Vocabulary.{
  EventKind, enrollment_version_changed, enrollment_withdrawn, enrollment_completed,
  enrollment_reinstated,
}
use consolebook.Audit.Subjects.{Subject}
use consolebook.Db.{
  Db, ProgramVersion, Enrollment, EnrollmentStatus, EnrollmentEvent, EnrollmentEventKind,
  version_change, withdraw, complete, reinstate, is_user?, enrollment_of, version_of,
}
use consolebook.Lifecycle.Queries.{
  LifecycleRefusal, capability_required, no_such_enrollment, not_active, already_active,
  reason_required, no_such_version, not_published, same_version, different_program,
  target_already_enrolled, status, is_active, is_version_change, later_event,
}

abbrev pub is_published : Option ProgramVersion → Bool
is_published none = false
is_published (some v) = is_some v.published_at

abbrev pub is_version? : Db → Option ℕ → Bool
is_version? db none = true
is_version? db (some v) = is_some (version_of db v)

-- The duplicate pin: another enrollment of the trainee pins the version.
unfoldable pub pins_elsewhere : ℕ → ℕ → ℕ → Enrollment → Bool
pins_elsewhere e trainee to r =
    r.user_id == trainee && r.program_version_id == to && not (r.id == e)

unfoldable pub version_change_refusal : Db → ℕ → ℕ → ℕ → ℕ → Outcome LifecycleRefusal Unit
version_change_refusal db e trainee from to = do
  refuse_if (to == from) same_version
  target ← some_or_refuse (version_of db to) no_such_version
  refuse_if (not (is_some target.published_at)) not_published
  current ← fetch_one (version_of db from)
  refuse_if (not (target.program_id == current.program_id)) different_program
  refuse_if (exists (pins_elsewhere e trainee to) db.enrollments) target_already_enrolled

-- Every kind but `complete` requires a reason.
abbrev pub needs_reason : EnrollmentEventKind → Bool
needs_reason complete = false
needs_reason _ = true

abbrev pub admit_event : EnrollmentEventKind → EnrollmentStatus → Outcome LifecycleRefusal Unit
admit_event reinstate s = refuse_if (is_active s) already_active
admit_event _ s = refuse_if (not (is_active s)) not_active

-- The versions that the event names.
unfoldable pub event_versions :
    Db
    → Enrollment
    → EnrollmentEventKind
    → Option ℕ
    → Outcome LifecycleRefusal (Option ℕ × Option ℕ)
unfolding version_change_refusal
event_versions db row version_change to_version = do
  to ← some_or_refuse to_version no_such_version
  version_change_refusal db row.id row.user_id row.program_version_id to
  ok (some row.program_version_id, some to)
event_versions db row _ to_version = ok (none, none)

abbrev pub audit_kind : EnrollmentEventKind → EventKind
audit_kind version_change = enrollment_version_changed
audit_kind withdraw = enrollment_withdrawn
audit_kind complete = enrollment_completed
audit_kind reinstate = enrollment_reinstated

-- Both versions for a version change, and neither otherwise.
abbrev pub version_shape : EnrollmentEventKind → Option ℕ → Option ℕ → Bool
version_shape version_change from to = is_some from && is_some to
version_shape _ from to = not (is_some from) && not (is_some to)

abbrev pub published_target : List ProgramVersion → Option ℕ → Bool
published_target versions none = false
published_target versions (some v) = is_published (find? (λ r. r.id == v) versions)

-- INSERT INTO enrollment_event, with its foreign keys, CHECKs and BEFORE INSERT triggers.
unfoldable pub insert_enrollment_event : {E : Type 0} → Db → EnrollmentEvent → Outcome E Db
insert_enrollment_event db ev = do
  require (exists (λ r. r.id == ev.enrollment_id) db.enrollments)
  require (is_user? db ev.actor_user_id)
  require (is_version? db ev.from_program_version_id && is_version? db ev.to_program_version_id)
  require (version_shape ev.kind ev.from_program_version_id ev.to_program_version_id)
  require (
      not (is_some ev.from_program_version_id)
      || not (same_option ev.from_program_version_id ev.to_program_version_id))
  require (not (is_version_change ev.kind) || has_length ev.reason)
  require (not (is_version_change ev.kind) || published_target db.versions ev.to_program_version_id)
  ok (record db { enrollment_events = ev ∷ db.enrollment_events })

abbrev pub records_change : ℕ → ℕ → Option EnrollmentEvent → Bool
records_change from to none = false
records_change from to (some ev) =
    is_version_change ev.kind
    && same_option ev.from_program_version_id (some from)
    && same_option ev.to_program_version_id (some to)

unfoldable pub set_pin : ℕ → ℕ → List Enrollment → List Enrollment
set_pin e to [] = []
set_pin e to (r ∷ rs) =
    (if r.id == e then record r { program_version_id = to } else r) ∷ set_pin e to rs

-- UPDATE enrollment SET program_version_id, with its triggers and its UNIQUE constraint.
unfoldable pub repoint : {E : Type 0} → Db → Enrollment → Option ℕ → Outcome E Db
unfolding set_pin
repoint db row none = ok db
repoint db row (some to) = do
  require (
      row.program_version_id == to
      || records_change row.program_version_id to
          (top later_event (select (λ ev. ev.enrollment_id == row.id) db.enrollment_events)))
  require (row.program_version_id == to || is_published (version_of db to))
  require (not (exists (pins_elsewhere row.id row.user_id to) db.enrollments))
  ok (record db { enrollments = set_pin row.id to db.enrollments })

unfoldable pub record_enrollment_event :
    (seen db : Db) (now actor e : ℕ)
    → EnrollmentEventKind
    → Text
    → Option ℕ
    → Outcome LifecycleRefusal (ℕ × Db)
record_enrollment_event seen db now actor e kind reason to_version = do
  refuse_if (not (user_has seen actor assign_training)) capability_required
  refuse_if (needs_reason kind && is_empty (trim reason)) reason_required
  current ← some_or_refuse (status db e) no_such_enrollment
  admit_event kind current
  row ← fetch_one (enrollment_of db e)
  versions ← event_versions db row kind to_version
  let id = next_id (λ ev. ev.id) db.enrollment_events
  db₁ ← insert_enrollment_event db (record {
    id = id;
    enrollment_id = e;
    kind = kind;
    occurred_at = now;
    actor_user_id = some actor;
    reason = trim reason;
    from_program_version_id = versions.0;
    to_program_version_id = versions.1;
  })
  db₂ ← repoint db₁ row versions.1
  db₃ ←
      record_for_subject (audit_kind kind) (some actor) (some row.user_id) (Subject.enrollment e)
        now db₂
  ok (id, db₃)
