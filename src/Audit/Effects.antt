-- ===== src/Audit/Effects.antt =====
-- What a record in the audit trail changes.
use consolebook.Base.{ℕ, ◌≡◌, refl, true, Option, some, List, ◌∷◌, next_id, ok, arith}
use consolebook.Audit.{record_for_subject}
use consolebook.Audit.Vocabulary.{EventKind}
use consolebook.Audit.Subjects.{Subject}
use consolebook.Db.{Db, AuditEvent, is_user?}

-- The event that `record_for_subject` writes, before these.
abbrev pub audited :
    EventKind → Option ℕ → Option ℕ → Subject → ℕ → List AuditEvent → List AuditEvent
audited kind actor subject_user subject now events =
    record {
      id = next_id (λ r. r.id) events;
      occurred_at = now;
      kind = kind;
      actor_user_id = actor;
      subject_user_id = subject_user;
      subject = some subject;
    }
    ∷ events

pub record_for_subject-appends :
    {E : Type 0} (kind : EventKind) (actor subject_user : Option ℕ) (subject : Subject) (now : ℕ)
    (db db' : Db)
    → record_for_subject {E = E} kind actor subject_user subject now db ≡ ok db'
    → db' ≡ record db { audit_events = audited kind actor subject_user subject now db.audit_events }
unfolding record_for_subject
record_for_subject-appends kind actor subject_user subject now db db' h = ground arith

-- One more audit event, and nothing else.
pub record Audited (db db' : Db) : Type 0 where
  pub audit : AuditEvent
  pub appended : db' ≡ record db { audit_events = audit ∷ db.audit_events }

pub record_for_subject-Audited :
    {E : Type 0} (kind : EventKind) (actor subject_user : Option ℕ) (subject : Subject) (now : ℕ)
    (db db' : Db)
    → record_for_subject {E = E} kind actor subject_user subject now db ≡ ok db'
    → Audited db db'
unfolding record_for_subject
record_for_subject-Audited kind actor subject_user subject now db db' h = record {
  audit = record {
    id = next_id (λ r. r.id) db.audit_events;
    occurred_at = now;
    kind = kind;
    actor_user_id = actor;
    subject_user_id = subject_user;
    subject = some subject;
  };
  appended = ground arith;
}

pub record_for_subject_total :
    {E : Type 0} (kind : EventKind) (actor subject_user : Option ℕ) (subject : Subject) (now : ℕ)
    (db : Db)
    → is_user? db actor ≡ true
    → is_user? db subject_user ≡ true
    → (db' : Db) × (record_for_subject {E = E} kind actor subject_user subject now db ≡ ok db')
unfolding record_for_subject
record_for_subject_total kind actor subject_user subject now db h k = rw (h, k) (_, refl)
