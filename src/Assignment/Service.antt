-- ===== src/Assignment/Service.antt =====
-- crates/consolebook-server/src/assignments.rs: `create` and `end`, with the constraints of migration
-- 0006.
use consolebook.Base.{
  ℕ, Option, some, none, List, [], ◌∷◌, ◌||◌, not, ◌==◌, leb, is_some, Text, codes, ◌++◌, find?,
  next_id, Outcome, ok, refuse_if, some_or_refuse, fetch_one, require, ◌>>=◌, ◌>>◌, if◌then◌else◌,
}
use consolebook.Assignment.{is_open, is_assigned}
use consolebook.Audit.{record_for_subject}
use consolebook.Audit.Vocabulary.{EventKind}
use consolebook.Audit.Subjects.{Subject}
use consolebook.Capability.{user_has}
use consolebook.Capability.Vocabulary.{assign_training, view_assigned_records}
use consolebook.Notice.{notify_user}
use consolebook.Notice.Vocabulary.{NoticeKind}
use consolebook.Db.{Db, Assignment, enrollment_of, version_of, is_user, is_user?, user_of}
use consolebook.Lifecycle.Queries.{status, is_active}

pub data AssignRefusal : Type 0 where
  capability_required no_such_enrollment enrollment_inactive no_such_user : AssignRefusal
  trainer_lacks_capability already_assigned no_such_assignment already_ended : AssignRefusal

-- INSERT INTO training_assignment, for a row that has not ended.
unfoldable pub insert_assignment : {E : Type 0} → Db → Assignment → Outcome E Db
insert_assignment db a = do
  require (is_some (enrollment_of db a.enrollment_id))
  require (is_user db a.trainer_user_id)
  require (is_user? db a.assigned_by)
  require (not (is_open a.ended_at) || not (is_assigned db a.trainer_user_id a.enrollment_id))
  ok (record db { assignments = a ∷ db.assignments })

unfoldable pub assignment_message : Text → Text → Text
assignment_message trainee_name program_name =
    codes "New training assignment: " ++ trainee_name ++ codes " — " ++ program_name

-- `seen` is what is read before the write transaction.
unfoldable pub create : (seen db : Db) (now actor e trainer : ℕ) → Outcome AssignRefusal (ℕ × Db)
create seen db now actor e trainer = do
  refuse_if (not (user_has seen actor assign_training)) capability_required
  current ← some_or_refuse (status db e) no_such_enrollment
  refuse_if (not (is_active current)) enrollment_inactive
  refuse_if (not (is_user db trainer)) no_such_user
  refuse_if (not (user_has db trainer view_assigned_records)) trainer_lacks_capability
  refuse_if (is_assigned db trainer e) already_assigned
  let id = next_id (λ a. a.id) db.assignments
  db₁ ← insert_assignment db (record {
    id = id;
    enrollment_id = e;
    trainer_user_id = trainer;
    assigned_at = now;
    assigned_by = some actor;
    ended_at = none;
    ended_by = none;
  })
  enrollment ← fetch_one (enrollment_of db₁ e)
  trainee ← fetch_one (user_of db₁ enrollment.user_id)
  version ← fetch_one (version_of db₁ enrollment.program_version_id)
  db₂ ←
      notify_user trainer NoticeKind.assignment_created
        (assignment_message trainee.display_name version.name) now db₁
  db₃ ←
      record_for_subject EventKind.assignment_created (some actor) (some trainer)
        (Subject.assignment id) now db₂
  ok (id, db₃)

unfoldable pub assignment_of : Db → ℕ → Option Assignment
assignment_of db id = find? (λ a. a.id == id) db.assignments

unfoldable pub set_ended : ℕ → (now actor : ℕ) → List Assignment → List Assignment
set_ended id now actor [] = []
set_ended id now actor (a ∷ rows) =
    (if a.id == id then record a { ended_at = some now; ended_by = some actor } else a)
    ∷ set_ended id now actor rows

-- UPDATE training_assignment SET ended_at, ended_by
unfoldable pub update_ended : {E : Type 0} → Db → Assignment → (now actor : ℕ) → Outcome E Db
update_ended db a now actor = do
  require (leb a.assigned_at now)
  require (is_user db actor)
  ok (record db { assignments = set_ended a.id now actor db.assignments })

unfoldable pub end : (seen db : Db) (now actor id : ℕ) → Outcome AssignRefusal Db
end seen db now actor id = do
  refuse_if (not (user_has seen actor assign_training)) capability_required
  row ← some_or_refuse (assignment_of db id) no_such_assignment
  refuse_if (not (is_open row.ended_at)) already_ended
  db₁ ← update_ended db row now actor
  record_for_subject EventKind.assignment_ended (some actor) none (Subject.assignment id) now db₁
