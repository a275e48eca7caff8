-- ===== src/Examples.antt =====
-- A small agency, on which the theorems about crates/consolebook-server/src are tried: a coordinator, a
-- trainee, a trainer and a reviewer, a program of two versions, and a finalized record.
pub mod Phases
pub mod Enrollments
pub mod Histories
pub mod Drafts
pub mod Transfers
pub mod Amendments
pub mod Scopes
pub mod Beginnings
pub mod Seals
pub mod Receipts
pub mod Documents
pub mod Saves
pub mod Notices
pub mod Archives
pub mod Times
use consolebook.Base.{
  ℕ, ◌≡◌, refl, true, false, none, some, List, [], ◌∷◌, codes, Outcome, ok, refused, failed, Bool,
  is_some,
}
use consolebook.Capability.Vocabulary.{
  assign_training, author_evaluation, review_evaluation, view_assigned_records, Capability,
}
use consolebook.Db.{
  Db, User, Grant, EdgeKind, SignoffKind, daily_report, created, submitted_for_review,
  ContributorKind, review_decided, DecisionKind,
}

-- The database of an answer; of a refusal or an error, the one given.
abbrev pub written_by : {E : Type 0} → Outcome E Db → Db → Db
written_by (ok db) start = db
written_by (refused e) start = start
written_by failed start = start

abbrev pub state_after : {E : Type 0} → Outcome E (ℕ × Db) → Db → Db
state_after (ok answer) start = answer.1
state_after (refused e) start = start
state_after failed start = start

abbrev pub coordinator : ℕ
coordinator = 1

abbrev pub trainee : ℕ
trainee = 2

abbrev pub trainer : ℕ
trainer = 3

abbrev pub reviewer : ℕ
reviewer = 4

abbrev grant : ℕ → Capability → Grant
grant user_id capability = record {
  user_id = user_id;
  capability = capability;
  granted_at = 1;
  granted_by = none;
}

-- Enrollment 1 is the trainee's and enrollment 2 the reviewer's, both in version 1; phase 3 is of
-- version 2.
abbrev pub agency : Db
agency = record {
  users =
      record { id = 4; display_name = codes "Rey" }
      ∷ record { id = 3; display_name = codes "Tam" }
      ∷ record { id = 2; display_name = codes "Ana" }
      ∷ record { id = 1; display_name = codes "Cole" }
      ∷ [];
  grants =
      grant 1 assign_training
      ∷ grant 3 author_evaluation
      ∷ grant 3 view_assigned_records
      ∷ grant 4 review_evaluation
      ∷ grant 4 author_evaluation
      ∷ [];
  versions =
      record {
        id = 2;
        program_id = 1;
        name = codes "Dispatch 2";
        published_at = some 6;
        policy_row = none;
      }
      ∷ record {
        id = 1;
        program_id = 1;
        name = codes "Dispatch 1";
        published_at = some 5;
        policy_row = none;
      }
      ∷ [];
  phases =
      record { id = 3; program_version_id = 2; name = codes "Basics" }
      ∷ record { id = 2; program_version_id = 1; name = codes "Radio" }
      ∷ record { id = 1; program_version_id = 1; name = codes "Calls" }
      ∷ [];
  transitions =
      record { program_version_id = 1; from_phase_id = 1; to_phase_id = 2; kind = EdgeKind.advance }
      ∷ [];
  tasks = record { id = 1; program_version_id = 1 } ∷ [];
  enrollments =
      record { id = 2; user_id = 4; program_version_id = 1; enrolled_at = 12; enrolled_by = some 1 }
      ∷ record {
        id = 1;
        user_id = 2;
        program_version_id = 1;
        enrolled_at = 10;
        enrolled_by = some 1;
      }
      ∷ [];
  enrollment_events = [];
  phase_events = [];
  assignments =
      record {
        id = 1;
        enrollment_id = 1;
        trainer_user_id = 3;
        assigned_at = 11;
        assigned_by = some 1;
        ended_at = none;
        ended_by = none;
      }
      ∷ [];
  signoffs = [];
  forms = record { id = 1; program_version_id = 1; record_type = daily_report } ∷ [];
  form_narratives =
      record { id = 1; evaluation_form_id = 1; program_version_id = 1; is_required = true } ∷ [];
  form_competencies = [];
  scales = [];
  rating_modifiers = [];
  sessions = record { id = 1; enrollment_id = 1; program_version_id = 1; disposition = none } ∷ [];
  session_trainers = [];
  records =
      record {
        id = 1;
        enrollment_id = 1;
        program_version_id = 1;
        evaluation_form_id = 1;
        owner_user_id = 3;
        revision = 7;
        created_at = 20;
        created_by = some 3;
      }
      ∷ [];
  coverage = record { evaluation_record_id = 1; training_session_id = 1 } ∷ [];
  contributor_events =
      record {
        id = 1;
        evaluation_record_id = 1;
        kind = created;
        actor_user_id = 3;
        to_user_id = none;
        recorded_at = 20;
      }
      ∷ [];
  decisions = [];
  snapshots = [];
  ratings = [];
  narratives =
      record { id = 1; evaluation_record_id = 1; form_narrative_id = 1; text = codes "Calm." } ∷ [];
  evaluation_versions = [];
  acknowledgments = [];
  amendments = [];
  audit_events = [];
  notices = [];
}
