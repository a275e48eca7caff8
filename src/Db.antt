-- ===== src/Db.antt =====
-- The tables of crates/consolebook-server/migrations that the modelled services read and write.
-- A table is the list of its rows, the newest first. Identifiers are natural numbers. An instant, an
-- i64 of Unix seconds that the program only compares, is given by its distance from the least i64.
-- A column that a CHECK holds to a closed set of names is a data type.
pub mod Facts
mod Training
mod Records
pub use Training.*
pub use Records.*
use consolebook.Base.{ℕ, Bool, true, List, exists, find?, Option, some, none, ◌==◌, Text}
use consolebook.Audit.Vocabulary.{EventKind}
use consolebook.Audit.Subjects.{Subject}
use consolebook.Notice.Vocabulary.{NoticeKind}

pub record AuditEvent : Type 0 where
  pub id : ℕ
  pub occurred_at : ℕ
  pub kind : EventKind
  pub actor_user_id : Option ℕ
  pub subject_user_id : Option ℕ
  pub subject : Option Subject

pub record Notice : Type 0 where
  pub id : ℕ
  pub user_id : ℕ
  pub kind : NoticeKind
  pub message : Text
  pub created_at : ℕ
  pub read_at : Option ℕ

pub record Db : Type 0 where
  pub users : List User
  pub grants : List Grant
  pub versions : List ProgramVersion
  pub phases : List Phase
  pub transitions : List Transition
  pub tasks : List Task
  pub enrollments : List Enrollment
  pub enrollment_events : List EnrollmentEvent
  pub phase_events : List PhaseEvent
  pub assignments : List Assignment
  pub signoffs : List Signoff
  pub forms : List Form
  pub form_narratives : List FormNarrative
  pub form_competencies : List FormCompetency
  pub scales : List RatingScale
  pub rating_modifiers : List RatingModifier
  pub sessions : List TrainingSession
  pub session_trainers : List SessionTrainer
  pub records : List EvaluationRecord
  pub coverage : List EvaluationSession
  pub contributor_events : List ContributorEvent
  pub decisions : List ReviewDecision
  pub snapshots : List Snapshot
  pub ratings : List DraftRating
  pub narratives : List DraftNarrative
  pub evaluation_versions : List EvaluationVersion
  pub acknowledgments : List Acknowledgment
  pub amendments : List Amendment
  pub audit_events : List AuditEvent
  pub notices : List Notice

-- SELECT ... FROM user WHERE id = ?1
unfoldable pub user_of : Db → ℕ → Option User
user_of db u = find? (λ r. r.id == u) db.users

-- A foreign key into the table of users.
unfoldable pub is_user : Db → ℕ → Bool
is_user db u = exists (λ r. r.id == u) db.users

-- The same for a column that may be NULL.
unfoldable pub is_user? : Db → Option ℕ → Bool
unfolding is_user
is_user? db none = true
is_user? db (some u) = is_user db u

unfoldable pub enrollment_of : Db → ℕ → Option Enrollment
enrollment_of db e = find? (λ r. r.id == e) db.enrollments

unfoldable pub version_of : Db → ℕ → Option ProgramVersion
version_of db v = find? (λ r. r.id == v) db.versions
