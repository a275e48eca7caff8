-- ===== src/Lifecycle/View.antt =====
-- What the streams of events say of an enrollment, and how each kind of event changes it: the
-- specification of crates/consolebook-server/src/lifecycle.rs.
pub mod Append
pub mod Event
use consolebook.Base.{ℕ, Bool, true, false, Option, some, none, Text, top, select}
use consolebook.Db.{
  Db, Enrollment, EnrollmentStatus, EnrollmentEventKind, active, withdrawn, completed,
  version_change, withdraw, complete, reinstate, PhaseEventKind, enrollment_of,
}
use consolebook.Lifecycle.Queries.{
  status_of_latest, later_event, status_of, current_phase, is_paused,
}

pub record View : Type 0 where
  pub status : EnrollmentStatus
  pub pin : ℕ
  pub current : Option ℕ
  pub held : Bool

abbrev pub phase_id : Option (ℕ × Text) → Option ℕ
phase_id none = none
phase_id (some (id, name)) = some id

abbrev pub view_row : Db → ℕ → Option Enrollment → Option View
view_row db e none = none
view_row db e (some row) = some (record {
  status = status_of_latest (top later_event (select (status_of e) db.enrollment_events));
  pin = row.program_version_id;
  current = phase_id (current_phase db e);
  held = is_paused db e;
})

unfoldable pub view : Db → ℕ → Option View
view db e = view_row db e (enrollment_of db e)

-- A phase event moves the trainee, or holds or releases the enrollment.
unfoldable pub phase_effect : PhaseEventKind → Option ℕ → View → View
phase_effect PhaseEventKind.advance to v = record v { current = to }
phase_effect PhaseEventKind.return to v = record v { current = to }
phase_effect PhaseEventKind.restart to v = record v { current = to }
phase_effect PhaseEventKind.pause to v = record v { held = true }
phase_effect PhaseEventKind.resume to v = record v { held = false }
phase_effect PhaseEventKind.complete to v = v

abbrev pub repin : Option ℕ → ℕ → ℕ
repin none pin = pin
repin (some to) pin = to

-- A version change pins the new version, outside its phases and not paused.
unfoldable pub enrollment_effect : EnrollmentEventKind → Option ℕ → View → View
enrollment_effect version_change to v = record v {
  pin = repin to v.pin;
  current = none;
  held = false;
}
enrollment_effect withdraw to v = record v { status = withdrawn }
enrollment_effect complete to v = record v { status = completed }
enrollment_effect reinstate to v = record v { status = active }
