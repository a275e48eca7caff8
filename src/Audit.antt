-- ===== src/Audit.antt =====
-- crates/consolebook-server/src/audit.rs: the append-only audit trail.
pub mod Vocabulary
pub mod Subjects
pub mod Effects
use consolebook.Base.{ℕ, Option, some, ◌∷◌, next_id, Outcome, ok, require, ◌>>=◌, ◌>>◌}
use consolebook.Audit.Vocabulary.{EventKind}
use consolebook.Audit.Subjects.{Subject}
use consolebook.Db.{Db, is_user?}

unfoldable pub record_for_subject :
    {E : Type 0} → EventKind → Option ℕ → Option ℕ → Subject → ℕ → Db → Outcome E Db
record_for_subject kind actor subject_user subject now db = do
  require (is_user? db actor)
  require (is_user? db subject_user)
  ok (record db {
    audit_events =
        record {
          id = next_id (λ r. r.id) db.audit_events;
          occurred_at = now;
          kind = kind;
          actor_user_id = actor;
          subject_user_id = subject_user;
          subject = some subject;
        }
        ∷ db.audit_events;
  })
