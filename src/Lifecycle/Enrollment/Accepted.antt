-- ===== src/Lifecycle/Enrollment/Accepted.antt =====
-- When `record_enrollment_event` of crates/consolebook-server/src/lifecycle.rs appends, and what.
use consolebook.Base.{
  ℕ, ◌≡◌, sym, ◌∙◌, true, false, Option, some, none, List, ◌∷◌, ◌&&◌, Text, trim, is_empty, next_id,
  Outcome, ok, arith, Option-cases, Outcome-cases, inl, inr, ◌>>=◌, >>=-eq-ok,
}
use consolebook.Capability.{user_has}
use consolebook.Capability.Vocabulary.{assign_training}
use consolebook.Audit.{record_for_subject}
use consolebook.Audit.Effects.{record_for_subject-Audited}
use consolebook.Audit.Subjects.{Subject}
use consolebook.Db.{
  Db, Enrollment, EnrollmentEvent, EnrollmentEventKind, EnrollmentStatus, AuditEvent, enrollment_of,
}
use consolebook.Lifecycle.Queries.{LifecycleRefusal, status}
use consolebook.Lifecycle.Enrollment.{
  needs_reason, admit_event, event_versions, audit_kind, insert_enrollment_event, repoint, set_pin,
  record_enrollment_event,
}

-- A request to record a lifecycle event, on the state that the authorization read (`seen`) and the
-- state of the write transaction (`db`).
pub record EventRequest : Type 0 where
  pub seen : Db
  pub db : Db
  pub now : ℕ
  pub actor : ℕ
  pub e : ℕ
  pub kind : EnrollmentEventKind
  pub reason : Text
  pub to_version : Option ℕ

abbrev pub answer : EventRequest → Outcome LifecycleRefusal (ℕ × Db)
answer q = record_enrollment_event q.seen q.db q.now q.actor q.e q.kind q.reason q.to_version

-- The row that is written.
unfoldable pub lifecycle_event : EventRequest → Option ℕ → Option ℕ → EnrollmentEvent
lifecycle_event q from to = record {
  id = next_id (λ ev. ev.id) q.db.enrollment_events;
  enrollment_id = q.e;
  kind = q.kind;
  occurred_at = q.now;
  actor_user_id = some q.actor;
  reason = trim q.reason;
  from_program_version_id = from;
  to_program_version_id = to;
}

-- The conditions under which the service accepts the request.
pub record EventAccepted (q : EventRequest) (row : Enrollment) (from to : Option ℕ) : Type 0 where
  pub current : EnrollmentStatus
  pub authorized : user_has q.seen q.actor assign_training ≡ true
  pub explained : (needs_reason q.kind && is_empty (trim q.reason)) ≡ false
  pub known : status q.db q.e ≡ some current
  pub admitted : admit_event q.kind current ≡ ok tt
  pub enrolled : enrollment_of q.db q.e ≡ some row
  pub named : event_versions q.db row q.kind q.to_version ≡ ok (from, to)

abbrev pub repinned : ℕ → Option ℕ → List Enrollment → List Enrollment
repinned e none rows = rows
repinned e (some to) rows = set_pin e to rows

-- The database afterwards: the new event first, the pin moved, and one more audit event.
pub record EventAppended (q : EventRequest) (row : Enrollment) (from to : Option ℕ) (db' : Db)
    : Type 0 where
  pub audit : AuditEvent
  pub appended : db' ≡ record q.db {
    enrollments = repinned row.id to q.db.enrollments;
    enrollment_events = lifecycle_event q from to ∷ q.db.enrollment_events;
    audit_events = audit ∷ q.db.audit_events;
  }

-- What an accepted request writes.
pub answer-writes :
    (q : EventRequest) (row : Enrollment) (from to : Option ℕ)
    → EventAccepted q row from to
    → answer q ≡ (do
      db₁ ← insert_enrollment_event q.db (lifecycle_event q from to)
      db₂ ← repoint db₁ row to
      db₃ ←
          record_for_subject
            (audit_kind q.kind)
            (some q.actor)
            (some row.user_id)
            (Subject.enrollment q.e)
            q.now
            db₂
      ok ((lifecycle_event q from to).id, db₃))
unfolding record_enrollment_event lifecycle_event
answer-writes q row from to a = ground arith

event-appends :
    {E : Type 0} (db : Db) (ev : EnrollmentEvent) (db' : Db)
    → insert_enrollment_event {E = E} db ev ≡ ok db'
    → db' ≡ record db { enrollment_events = ev ∷ db.enrollment_events }
unfolding insert_enrollment_event
event-appends db ev db' h = ground arith

repoint-pins :
    {E : Type 0} (db : Db) (row : Enrollment) (to : Option ℕ) (db' : Db)
    → repoint {E = E} db row to ≡ ok db'
    → db' ≡ record db { enrollments = repinned row.id to db.enrollments }
unfolding repoint
repoint-pins db row none db' h = ground arith
repoint-pins db row (some to) db' h = ground arith

answer-Accepted :
    (q : EventRequest) (row : Enrollment) (s : EnrollmentStatus) (versions : Option ℕ × Option ℕ)
    {id : ℕ} {db' : Db}
    → enrollment_of q.db q.e ≡ some row
    → status q.db q.e ≡ some s
    → event_versions q.db row q.kind q.to_version ≡ ok versions
    → answer q ≡ ok (id, db')
    → EventAccepted q row versions.0 versions.1
unfolding record_enrollment_event
answer-Accepted q row s versions found is named h = record {
  current = s;
  authorized = ground arith;
  explained = ground arith;
  known = is;
  admitted = ground arith;
  enrolled = found;
  named = named;
}

-- The answer of an accepted request: the identifier and the database.
pub record EventServed (q : EventRequest) (id : ℕ) (db' : Db) : Type 0 where
  pub row : Enrollment
  pub from : Option ℕ
  pub to : Option ℕ
  pub accepted : EventAccepted q row from to
  pub appended : EventAppended q row from to db'
  pub identified : id ≡ (lifecycle_event q from to).id

finish-EventServed :
    (q : EventRequest) (row : Enrollment) (from to : Option ℕ) (id : ℕ) (db₁ db₂ db₃ db' : Db)
    → EventAccepted q row from to
    → insert_enrollment_event {E = LifecycleRefusal} q.db (lifecycle_event q from to) ≡ ok db₁
    → repoint {E = LifecycleRefusal} db₁ row to ≡ ok db₂
    → record_for_subject {E = LifecycleRefusal}
        (audit_kind q.kind)
        (some q.actor)
        (some row.user_id)
        (Subject.enrollment q.e)
        q.now
        db₂
      ≡ ok db₃
    → ◌≡◌ {A = Outcome LifecycleRefusal (ℕ × Db)}
        (ok ((lifecycle_event q from to).id, db₃))
        (ok (id, db'))
    → EventServed q id db'
finish-EventServed q row from to id db₁ db₂ db₃ db' a i p r e =
    let one = event-appends q.db (lifecycle_event q from to) db₁ i in
    let two = repoint-pins db₁ row to db₂ p in
    let three = record_for_subject-Audited _ _ _ _ _ db₂ db₃ r in
    record {
      row = row;
      from = from;
      to = to;
      accepted = a;
      appended = record { audit = three.audit; appended = cc (three.appended, two, one) };
      identified = cc;
    }

-- A lifecycle request that is answered was acceptable, and adds the event that the request describes and
-- an audit event, moves the pin of a version change, and changes nothing else.
pub answer-EventServed :
    (q : EventRequest) (id : ℕ) (db' : Db) → answer q ≡ ok (id, db') → EventServed q id db'
unfolding record_enrollment_event
answer-EventServed q id db' h = elim (Option-cases (status q.db q.e)) [
  | inl none_there ↦ absurd (ground arith)
  | inr (s, is) ↦ elim (Option-cases (enrollment_of q.db q.e)) [
    | inl e ↦ absurd (ground arith)
    | inr (row, e) ↦ elim (Outcome-cases (event_versions q.db row q.kind q.to_version)) [
      | inl (v, t) ↦
          let a = answer-Accepted q row s v e is t h in
          let (db₁, i, h₁) = >>=-eq-ok _ _ (sym (answer-writes q row v.0 v.1 a) ∙ h) in
          let (db₂, p, h₂) = >>=-eq-ok _ _ h₁ in
          let (db₃, r, h₃) = >>=-eq-ok _ _ h₂ in
          finish-EventServed q row v.0 v.1 id db₁ db₂ db₃ db' a i p r h₃
      | inr (inl t) ↦ absurd (ground arith)
      | inr (inr (x, t)) ↦ absurd (ground arith)
    ]
  ]
]
