-- ===== src/Signoff/Total.antt =====
-- The guards of `record` of crates/consolebook-server/src/task_signoffs.rs before the constraints and
-- triggers of migration 0013.
use consolebook.Base.{
  ◌≡◌, ℕ, true, false, some, ◌&&◌, not, ◌==◌, Text, trim, is_empty, has_length, exists,
}
use consolebook.Db.{
  Db, User, Task, Enrollment, Signoff, SignoffKind, enrollment_of, user_of, is_user,
}
use consolebook.Signoff.{is_revocation, has_signoff, task_of}
use consolebook.Signoff.History.{new_signoff, is_entitled}

-- The rows that a request names are there, the same in both states, the task is of the enrollment's
-- version, the signer has a name, and the trimmed reason does not start with U+0000.
pub record Sound (seen db : Db) (actor e task : ℕ) (reason : Text) : Type 0 where
  pub signer : User
  pub early : Enrollment
  pub item : Task
  pub signed : user_of db actor ≡ some signer
  pub named : has_length signer.display_name ≡ true
  pub first_read : enrollment_of seen e ≡ some early
  pub enrolled : enrollment_of db e ≡ some early
  pub offered :
      exists (λ t. t.id == task && t.program_version_id == early.program_version_id) seen.tasks
      ≡ true
  pub found : task_of db task ≡ some item
  pub pinned : item.program_version_id ≡ early.program_version_id
  pub trainee : is_user db early.user_id ≡ true
  pub stored : is_empty (trim reason) ≡ false → has_length (trim (trim reason)) ≡ true

-- A later row of a task gives a reason, and a first one revokes nothing.
pub record Signable (seen db : Db) (actor e task : ℕ) (kind : SignoffKind) (reason : Text)
    : Type 0 where
  pub entitled : is_entitled seen db actor e task ≡ true
  pub explained : (has_signoff db.signoffs e task && is_empty (trim reason)) ≡ false
  pub grounded : (is_revocation kind && not (has_signoff db.signoffs e task)) ≡ false

module _ (seen db : Db) (now actor e task : ℕ) (kind : SignoffKind) (reason : Text)
    (s : Sound seen db actor e task reason) where
  abbrev row : Signoff
  row = new_signoff db s.signer now actor e task kind reason
