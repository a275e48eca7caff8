-- ===== src/Signoff.antt =====
-- crates/consolebook-server/src/task_signoffs.rs: `record`, with the constraints and triggers of
-- migration 0013.
pub mod History
pub mod Total
use consolebook.Base.{
  ℕ, Bool, true, false, Option, some, none, List, [], ◌∷◌, ◌&&◌, ◌||◌, not, ◌==◌, is_some, is_empty,
  has_length, Text, trim, exists, find?, next_id, Outcome, ok, refuse_if, some_or_refuse, fetch_one,
  require, ◌>>=◌, ◌>>◌, if◌then◌else◌, same_option,
}
use consolebook.Assignment.{is_assigned}
use consolebook.Audit.{record_for_subject}
use consolebook.Audit.Vocabulary.{task_signoff_recorded}
use consolebook.Audit.Subjects.{Subject}
use consolebook.Capability.{user_has}
use consolebook.Capability.Vocabulary.{assign_training, author_evaluation, review_evaluation}
use consolebook.Db.{
  Db, Signoff, SignoffKind, revoked, Task, Enrollment, enrollment_of, is_user, user_of,
}

pub data SignoffRefusal : Type 0 where
  no_such_enrollment no_such_task capability_required reason_required nothing_to_revoke :
      SignoffRefusal

abbrev pub is_revocation : SignoffKind → Bool
is_revocation revoked = true
is_revocation _ = false

-- The rows of one task of an enrollment.
unfoldable pub same_task : ℕ → ℕ → Signoff → Bool
same_task e task s = s.enrollment_id == e && s.task_id == task

unfoldable pub has_signoff : List Signoff → ℕ → ℕ → Bool
has_signoff signoffs e task = exists (same_task e task) signoffs

-- An override takes the reviewer's authority and a reason, a first signoff the author's, and a first
-- one revokes nothing.
abbrev pub sign_guard :
    (prior reviewer author : Bool) → Text → SignoffKind → Outcome SignoffRefusal Unit
sign_guard true reviewer author reason kind = do
  refuse_if (not reviewer) capability_required
  refuse_if (is_empty reason) reason_required
sign_guard false reviewer author reason kind = do
  refuse_if (not author) capability_required
  refuse_if (is_revocation kind) nothing_to_revoke

unfoldable pub task_of : Db → ℕ → Option Task
task_of db task = find? (λ t. t.id == task) db.tasks

abbrev pub version_of_task : Option Task → Option ℕ
version_of_task none = none
version_of_task (some t) = some t.program_version_id

abbrev pub pin_of : Option Enrollment → Option ℕ
pin_of none = none
pin_of (some row) = some row.program_version_id

-- INSERT INTO task_signoff
unfoldable pub insert_signoff : {E : Type 0} → Db → Signoff → Outcome E Db
insert_signoff db s = do
  require (is_some (enrollment_of db s.enrollment_id))
  require (is_some (task_of db s.task_id))
  require (is_user db s.signed_by)
  require (has_length s.signed_by_display_name)
  require (
      same_option (version_of_task (task_of db s.task_id))
        (pin_of (enrollment_of db s.enrollment_id)))
  require (not (has_signoff db.signoffs s.enrollment_id s.task_id) || has_length (trim s.reason))
  require (not (is_revocation s.kind) || has_signoff db.signoffs s.enrollment_id s.task_id)
  ok (record db { signoffs = s ∷ db.signoffs })

-- `seen` is what is read before the write transaction.
unfoldable pub record_signoff :
    (seen db : Db) (now actor e task : ℕ) → SignoffKind → Text → Outcome SignoffRefusal Db
record_signoff seen db now actor e task kind reason = do
  early ← some_or_refuse (enrollment_of seen e) no_such_enrollment
  refuse_if
      (not
        (exists (λ t. t.id == task && t.program_version_id == early.program_version_id) seen.tasks))
      no_such_task
  sign_guard (has_signoff db.signoffs e task) (user_has seen actor review_evaluation)
      (user_has seen actor assign_training
        || (user_has seen actor author_evaluation && is_assigned seen actor e))
      (trim reason) kind
  signer ← fetch_one (user_of db actor)
  db₁ ← insert_signoff db (record {
    id = next_id (λ s. s.id) db.signoffs;
    enrollment_id = e;
    task_id = task;
    kind = kind;
    reason = trim reason;
    signed_by = actor;
    signed_by_display_name = signer.display_name;
    signed_at = now;
  })
  trainee ← fetch_one (enrollment_of db₁ e)
  record_for_subject task_signoff_recorded (some actor) (some trainee.user_id)
      (Subject.enrollment e) now db₁
