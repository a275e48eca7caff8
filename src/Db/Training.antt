-- ===== src/Db/Training.antt =====
-- Rows of migrations 0002, 0004, 0005, 0006 and 0013: people, programs, enrollments and signoffs,
-- and the closed sets of crates/consolebook-server/src/{lifecycle,task_signoffs}.rs.
use consolebook.Base.{ℕ, Bool, Option, Text}
use consolebook.Capability.Vocabulary.{Capability}

pub record User : Type 0 where
  pub id : ℕ
  pub display_name : Text

pub record Grant : Type 0 where
  pub user_id : ℕ
  pub capability : Capability
  pub granted_at : ℕ
  pub granted_by : Option ℕ

-- The completion rules of a version, the row of `finalization_policy`.
pub record Policy : Type 0 where
  pub review_approved : Bool
  pub required_narratives : Bool
  pub ratings_complete : Bool

pub record ProgramVersion : Type 0 where
  pub id : ℕ
  pub program_id : ℕ
  pub name : Text
  pub published_at : Option ℕ
  pub policy_row : Option Policy

pub record Phase : Type 0 where
  pub id : ℕ
  pub program_version_id : ℕ
  pub name : Text

pub data EdgeKind : Type 0 where
  advance skip remediation restart : EdgeKind

pub record Transition : Type 0 where
  pub program_version_id : ℕ
  pub from_phase_id : ℕ
  pub to_phase_id : ℕ
  pub kind : EdgeKind

pub record Task : Type 0 where
  pub id : ℕ
  pub program_version_id : ℕ

pub record Enrollment : Type 0 where
  pub id : ℕ
  pub user_id : ℕ
  pub program_version_id : ℕ
  pub enrolled_at : ℕ
  pub enrolled_by : Option ℕ

pub data EnrollmentStatus : Type 0 where
  active withdrawn completed : EnrollmentStatus

pub data EnrollmentEventKind : Type 0 where
  version_change withdraw complete reinstate : EnrollmentEventKind

pub record EnrollmentEvent : Type 0 where
  pub id : ℕ
  pub enrollment_id : ℕ
  pub kind : EnrollmentEventKind
  pub occurred_at : ℕ
  pub actor_user_id : Option ℕ
  pub reason : Text
  pub from_program_version_id : Option ℕ
  pub to_program_version_id : Option ℕ

pub data PhaseEventKind : Type 0 where
  advance return restart pause resume complete : PhaseEventKind

pub record PhaseEvent : Type 0 where
  pub id : ℕ
  pub enrollment_id : ℕ
  pub kind : PhaseEventKind
  pub from_phase_id : Option ℕ
  pub to_phase_id : Option ℕ
  pub effective_at : ℕ
  pub recorded_at : ℕ
  pub actor_user_id : Option ℕ
  pub reason : Text
  pub version_change_event_id : Option ℕ

pub record Assignment : Type 0 where
  pub id : ℕ
  pub enrollment_id : ℕ
  pub trainer_user_id : ℕ
  pub assigned_at : ℕ
  pub assigned_by : Option ℕ
  pub ended_at : Option ℕ
  pub ended_by : Option ℕ

pub data SignoffKind : Type 0 where
  observed demonstrated revoked : SignoffKind

pub record Signoff : Type 0 where
  pub id : ℕ
  pub enrollment_id : ℕ
  pub task_id : ℕ
  pub kind : SignoffKind
  pub reason : Text
  pub signed_by : ℕ
  pub signed_by_display_name : Text
  pub signed_at : ℕ
