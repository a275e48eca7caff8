-- ===== src/Enrolling.antt =====
-- crates/consolebook-server/src/enrollments.rs: `enroll`, with the constraints of migration 0005.
pub mod Grants
pub mod Effect
use consolebook.Base.{
  ℕ, Bool, false, Option, some, none, List, [], ◌∷◌, ◌&&◌, not, ◌==◌, is_some, exists, next_id,
  Outcome, ok, refuse_if, some_or_refuse, require, ◌>>=◌, ◌>>◌, if◌then◌else◌,
}
use consolebook.Audit.{record_for_subject}
use consolebook.Audit.Vocabulary.{enrollment_created}
use consolebook.Audit.Subjects.{Subject}
use consolebook.Capability.{user_has, insert_grant, trainee_bundle}
use consolebook.Capability.Vocabulary.{Capability, assign_training}
use consolebook.Db.{Db, Enrollment, ProgramVersion, version_of, is_user, is_user?}

pub data EnrollRefusal : Type 0 where
  capability_required no_such_version not_published no_such_user already_enrolled : EnrollRefusal

abbrev pub is_published : Option ProgramVersion → Bool
is_published none = false
is_published (some v) = is_some v.published_at

unfoldable pub is_enrolled : Db → ℕ → ℕ → Bool
is_enrolled db user_id version_id =
    exists (λ row. row.user_id == user_id && row.program_version_id == version_id) db.enrollments

-- INSERT INTO enrollment
unfoldable pub insert_enrollment : {E : Type 0} → Db → Enrollment → Outcome E Db
insert_enrollment db row = do
  require (is_user db row.user_id)
  require (is_user? db row.enrolled_by)
  require (is_published (version_of db row.program_version_id))
  require (not (is_enrolled db row.user_id row.program_version_id))
  ok (record db { enrollments = row ∷ db.enrollments })

-- A grant that is held stays as granted (ON CONFLICT DO NOTHING).
unfoldable pub grant_missing :
    {E : Type 0} → (user_id actor now : ℕ) → List Capability → Db → Outcome E Db
grant_missing user_id actor now [] db = ok db
grant_missing user_id actor now (c ∷ cs) db = do
  db' ←
      if user_has db user_id c
      then ok db
      else insert_grant db
          (record { user_id = user_id; capability = c; granted_at = now; granted_by = some actor })
  grant_missing user_id actor now cs db'

-- `seen` is what is read before the write transaction.
unfoldable pub enroll :
    (seen db : Db) (now actor version_id user_id : ℕ) → Outcome EnrollRefusal (ℕ × Db)
enroll seen db now actor version_id user_id = do
  refuse_if (not (user_has seen actor assign_training)) capability_required
  version ← some_or_refuse (version_of db version_id) no_such_version
  refuse_if (not (is_some version.published_at)) not_published
  refuse_if (not (is_user db user_id)) no_such_user
  refuse_if (is_enrolled db user_id version_id) already_enrolled
  let id = next_id (λ row. row.id) db.enrollments
  db₁ ← insert_enrollment db (record {
    id = id;
    user_id = user_id;
    program_version_id = version_id;
    enrolled_at = now;
    enrolled_by = some actor;
  })
  db₂ ← grant_missing user_id actor now trainee_bundle db₁
  db₃ ←
      record_for_subject enrollment_created (some actor) (some user_id) (Subject.enrollment id) now
        db₂
  ok (id, db₃)
