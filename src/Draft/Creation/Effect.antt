-- ===== src/Draft/Creation/Effect.antt =====
-- What `create` of crates/consolebook-server/src/evaluation_drafts.rs checks and writes.
use consolebook.Base.{
  ℕ, ◌≡◌, refl, sym, ◌∙◌, true, false, Option, some, none, ◌∷◌, ◌==◌, exists, next_id, arith,
  Outcome, ok, >>=-eq-ok, ◌>>=◌, Option-cases, Outcome-cases, inl, inr, fetch_one,
}
use consolebook.Audit.{record_for_subject}
use consolebook.Audit.Effects.{Audited, record_for_subject-Audited}
use consolebook.Audit.Vocabulary.{draft_created}
use consolebook.Audit.Subjects.{Subject}
use consolebook.Db.{Db, EvaluationRecord, TrainingSession, AuditEvent, created, enrollment_of}
use consolebook.Draft.Status.{DraftRefusal}
use consolebook.Draft.Access.{may_start}
use consolebook.Draft.Creation.{
  create, session_of, is_cancelled, resolve_form, insert_record, insert_coverage,
}
use consolebook.Draft.Stream.{append_event}
use consolebook.Draft.Writes.{next_contribution, append_event-appends}

-- A request, on the state that was read first (`seen`) and the state of the write transaction.
pub record Starting : Type 0 where
  pub seen : Db
  pub db : Db
  pub now : ℕ
  pub actor : ℕ
  pub session : ℕ
  pub form : Option ℕ

abbrev pub run : Starting → Outcome DraftRefusal (ℕ × Db)
run q = create q.seen q.db q.now q.actor q.session q.form

abbrev pub new_record : Starting → TrainingSession → ℕ → EvaluationRecord
new_record q s form_id = record {
  id = next_id (λ row. row.id) q.db.records;
  enrollment_id = s.enrollment_id;
  program_version_id = s.program_version_id;
  evaluation_form_id = form_id;
  owner_user_id = q.actor;
  revision = 0;
  created_at = q.now;
  created_by = some q.actor;
}

-- The checks, on the session as it was read first and as the transaction reads it.
pub record Admitted (q : Starting) (early s : TrainingSession) (form_id : ℕ) : Type 0 where
  pub entitled : may_start q.seen q.actor q.session early.enrollment_id ≡ true
  pub live : is_cancelled s.disposition ≡ false
  pub undocumented : exists (λ es. es.training_session_id == q.session) q.db.coverage ≡ false
  pub pinned : resolve_form q.db s.program_version_id q.form ≡ ok form_id

-- The database afterwards.
pub record Written (q : Starting) (s : TrainingSession) (form_id : ℕ) (db' : Db) : Type 0 where
  pub audit : AuditEvent
  pub written : db' ≡ record q.db {
    records = new_record q s form_id ∷ q.db.records;
    contributor_events =
        next_contribution q.db (new_record q s form_id).id created q.actor none q.now
        ∷ q.db.contributor_events;
    coverage =
        record {
          evaluation_record_id = (new_record q s form_id).id;
          training_session_id = q.session;
        }
        ∷ q.db.coverage;
    audit_events = audit ∷ q.db.audit_events;
  }

abbrev writes : Starting → TrainingSession → ℕ → Outcome DraftRefusal (ℕ × Db)
writes q s form_id = do
  db₁ ← insert_record q.db (new_record q s form_id)
  db₂ ← append_event db₁ (new_record q s form_id).id created q.actor none q.now
  db₃ ← insert_coverage db₂ (new_record q s form_id).id q.session
  trainee ← fetch_one (enrollment_of db₃ s.enrollment_id)
  db₄ ←
      record_for_subject draft_created (some q.actor) (some trainee.user_id)
        (Subject.record_row (new_record q s form_id).id) q.now db₃
  ok ((new_record q s form_id).id, db₄)

module _ (q : Starting) (early s : TrainingSession) (form_id : ℕ) {id : ℕ} {db' : Db}
    (known : session_of q.seen q.session ≡ some early) (found : session_of q.db q.session ≡ some s)
    (pinned : resolve_form q.db s.program_version_id q.form ≡ ok form_id)
    (h : run q ≡ ok (id, db')) where
  run-Admitted : Admitted q early s form_id
  unfolding create
  run-Admitted = record {
    entitled = ground arith;
    live = ground arith;
    undocumented = ground arith;
    pinned = pinned;
  }

  still_live : is_cancelled early.disposition ≡ false
  unfolding create
  still_live = ground arith

  run-same : run q ≡ writes q s form_id
  unfolding create
  run-same =
      let a = run-Admitted in
      rw (known, still_live, a.entitled, found, a.live, a.undocumented, pinned) refl

  run-writes : writes q s form_id ≡ ok (id, db')
  run-writes = sym run-same ∙ h

insert_record-appends :
    {E : Type 0} (db : Db) (row : EvaluationRecord) {db' : Db}
    → insert_record {E = E} db row ≡ ok db'
    → db' ≡ record db { records = row ∷ db.records }
unfolding insert_record
insert_record-appends db row h = ground arith

insert_coverage-appends :
    {E : Type 0} (db : Db) (r s : ℕ) {db' : Db}
    → insert_coverage {E = E} db r s ≡ ok db'
    → db' ≡ record db {
      coverage = record { evaluation_record_id = r; training_session_id = s } ∷ db.coverage;
    }
unfolding insert_coverage
insert_coverage-appends db r s h = ground arith

finish-Written :
    (q : Starting) (s : TrainingSession) (form_id : ℕ) {db₁ db₂ db₃ db₄ : Db} {id : ℕ} {db' : Db}
    → db₁ ≡ record q.db { records = new_record q s form_id ∷ q.db.records }
    → db₂ ≡ record db₁ {
      contributor_events =
          next_contribution db₁ (new_record q s form_id).id created q.actor none q.now
          ∷ db₁.contributor_events;
    }
    → db₃ ≡ record db₂ {
      coverage =
          record {
            evaluation_record_id = (new_record q s form_id).id;
            training_session_id = q.session;
          }
          ∷ db₂.coverage;
    }
    → Audited db₃ db₄
    → ◌≡◌ {A = Outcome DraftRefusal (ℕ × Db)} (ok ((new_record q s form_id).id, db₄)) (ok (id, db'))
    → (id ≡ (new_record q s form_id).id) × Written q s form_id db'
finish-Written q s form_id one two three four e =
    (cc, record { audit = four.audit; written = cc (e, four.appended, three, two, one) })

writes-Written :
    (q : Starting) (s : TrainingSession) (form_id : ℕ) {id : ℕ} {db' : Db}
    → writes q s form_id ≡ ok (id, db')
    → (id ≡ (new_record q s form_id).id) × Written q s form_id db'
writes-Written q s form_id h =
    let (db₁, s₁, h₁) = >>=-eq-ok _ _ h in
    let (db₂, s₂, h₂) = >>=-eq-ok _ _ h₁ in
    let (db₃, s₃, h₃) = >>=-eq-ok _ _ h₂ in
    let (trainee, _, h₄) = >>=-eq-ok (fetch_one (enrollment_of db₃ s.enrollment_id)) _ h₃ in
    let (db₄, s₄, h₅) = >>=-eq-ok _ _ h₄ in
    finish-Written q s form_id (insert_record-appends {E = DraftRefusal} _ _ s₁)
      (append_event-appends {E = DraftRefusal} _ _ _ _ _ _ s₂)
      (insert_coverage-appends {E = DraftRefusal} _ _ _ s₃)
      (record_for_subject-Audited {E = DraftRefusal} _ _ _ _ _ _ _ s₄) h₅

-- The answer of an admitted request.
pub record Created (q : Starting) (id : ℕ) (db' : Db) : Type 0 where
  pub early : TrainingSession
  pub s : TrainingSession
  pub form_id : ℕ
  pub known : session_of q.seen q.session ≡ some early
  pub found : session_of q.db q.session ≡ some s
  pub admitted : Admitted q early s form_id
  pub identified : id ≡ (new_record q s form_id).id
  pub writing : Written q s form_id db'

-- A draft that is created passed the checks: the actor may start the session's draft, and as the write
-- transaction reads them the session is not cancelled, no record covers it, and the form resolves. It
-- adds the record, which the actor owns, its event, its coverage and an audit event, and changes nothing
-- else.
pub create-Created : (q : Starting) (id : ℕ) (db' : Db) → run q ≡ ok (id, db') → Created q id db'
unfolding create
create-Created q id db' h = elim (Option-cases (session_of q.seen q.session)) [
  | inl e ↦ absurd (ground arith)
  | inr (early, e) ↦ elim (Option-cases (session_of q.db q.session)) [
    | inl f ↦ absurd (ground arith)
    | inr (s, f) ↦ elim (Outcome-cases (resolve_form q.db s.program_version_id q.form)) [
      | inr (inl g) ↦ absurd (ground arith)
      | inr (inr (x, g)) ↦ absurd (ground arith)
      | inl (form_id, g) ↦
          let w = writes-Written q s form_id (run-writes q early s form_id e f g h) in
          record {
            early = early;
            s = s;
            form_id = form_id;
            known = e;
            found = f;
            admitted = run-Admitted q early s form_id e f g h;
            identified = w.0;
            writing = w.1;
          }
    ]
  ]
]
