-- ===== src/Amendment/Effect.antt =====
-- What `open` of crates/consolebook-server/src/amendments.rs checks and writes.
use consolebook.Base.{
  ℕ, ◌≡◌, refl, sym, ◌∙◌, true, false, some, ◌∷◌, Text, trim, is_empty, is_some, next_id, arith,
  Outcome, ok, >>=-eq-ok, ◌>>=◌, Option-cases, inl, inr, fetch_one, fetch_one-ok,
}
use consolebook.Audit.{record_for_subject}
use consolebook.Audit.Effects.{audited, record_for_subject-appends}
use consolebook.Audit.Vocabulary.{EventKind}
use consolebook.Audit.Subjects.{Subject}
use consolebook.Capability.{user_has}
use consolebook.Capability.Vocabulary.{review_evaluation}
use consolebook.Notice.{notify_user}
use consolebook.Notice.Vocabulary.{NoticeKind}
use consolebook.Db.{
  Db, User, Amendment, Enrollment, EvaluationRecord, EvaluationVersion, enrollment_of, user_of,
}
use consolebook.Amendment.{
  AmendRefusal, is_reopened, event_mark, decision_mark, insert_amendment, advance_revision,
  reopened_message, open_amendment,
}
use consolebook.Draft.Status.{load_record, latest_version}
use consolebook.Draft.Writes.{
  noticed, notify_user-appends, load_record_same, enrollment_of_same, user_of_same,
}

-- A request, on the state that was read first (`seen`) and the state of the write transaction.
pub record Reopening : Type 0 where
  pub seen : Db
  pub db : Db
  pub now : ℕ
  pub actor : ℕ
  pub r : ℕ
  pub reason : Text

abbrev pub run : Reopening → Outcome AmendRefusal Db
run q = open_amendment q.seen q.db q.now q.actor q.r q.reason

-- The checks.
pub record Admitted (q : Reopening) (latest : EvaluationVersion) : Type 0 where
  pub known : is_some (load_record q.seen q.r) ≡ true
  pub authorized : user_has q.seen q.actor review_evaluation ≡ true
  pub explained : is_empty (trim q.reason) ≡ false
  pub sealed : is_reopened q.db latest.id ≡ false

-- The row that is written.
abbrev pub new_amendment : Reopening → EvaluationVersion → User → Amendment
new_amendment q latest opener = record {
  id = next_id (λ a. a.id) q.db.amendments;
  evaluation_record_id = q.r;
  predecessor_version_id = latest.id;
  reason = trim q.reason;
  opened_by = q.actor;
  opened_by_display_name = opener.display_name;
  opened_at = q.now;
  opened_after_event_id = event_mark q.db q.r;
  opened_after_decision_id = decision_mark q.db q.r;
}

-- The trainee of the record, whose revision is advanced: whom the audit event is about, and whose name
-- the owner is told.
pub record Concerns (db : Db) (r : ℕ) (row : EvaluationRecord) (enrollment : Enrollment)
    (trainee : User) : Type 0 where
  pub current : load_record (record db { records = advance_revision r db.records }) r ≡ some row
  pub enrolled : enrollment_of db row.enrollment_id ≡ some enrollment
  pub named : user_of db enrollment.user_id ≡ some trainee

-- The database afterwards.
pub record Written (q : Reopening) (latest : EvaluationVersion) (opener : User) (db' : Db)
    : Type 0 where
  pub row : EvaluationRecord
  pub enrollment : Enrollment
  pub trainee : User
  pub concerns : Concerns q.db q.r row enrollment trainee
  pub written : db' ≡ record q.db {
    amendments = new_amendment q latest opener ∷ q.db.amendments;
    records = advance_revision q.r q.db.records;
    audit_events =
        audited EventKind.amendment_opened
          (some q.actor)
          (some enrollment.user_id)
          (Subject.record_row q.r)
          q.now
          q.db.audit_events;
    notices =
        noticed row.owner_user_id NoticeKind.amendment_opened
          (reopened_message trainee.display_name)
          q.now
          q.db.notices;
  }

abbrev announce : Reopening → Db → Outcome AmendRefusal Db
announce q db₂ = do
  row ← fetch_one (load_record db₂ q.r)
  enrollment ← fetch_one (enrollment_of db₂ row.enrollment_id)
  trainee ← fetch_one (user_of db₂ enrollment.user_id)
  db₃ ←
      record_for_subject EventKind.amendment_opened (some q.actor) (some enrollment.user_id)
        (Subject.record_row q.r) q.now db₂
  notify_user row.owner_user_id NoticeKind.amendment_opened (reopened_message trainee.display_name)
      q.now db₃

abbrev writes : Reopening → EvaluationVersion → User → Outcome AmendRefusal Db
writes q latest opener = do
  db₁ ← insert_amendment q.db (new_amendment q latest opener)
  announce q (record db₁ { records = advance_revision q.r db₁.records })

module _ (q : Reopening) (latest : EvaluationVersion) (opener : User) {db' : Db}
    (found : latest_version q.db q.r ≡ some latest) (named : user_of q.db q.actor ≡ some opener)
    (h : run q ≡ ok db') where
  run-Admitted : Admitted q latest
  unfolding open_amendment
  run-Admitted = record {
    known = ground arith;
    authorized = ground arith;
    explained = ground arith;
    sealed = ground arith;
  }

  run-same : run q ≡ writes q latest opener
  unfolding open_amendment
  run-same =
      let a = run-Admitted in rw (a.known, a.authorized, a.explained, found, a.sealed, named) refl

  run-writes : writes q latest opener ≡ ok db'
  run-writes = sym run-same ∙ h

insert_amendment-appends :
    {E : Type 0} (db : Db) (a : Amendment) {db' : Db}
    → insert_amendment {E = E} db a ≡ ok db'
    → db' ≡ record db { amendments = a ∷ db.amendments }
unfolding insert_amendment
insert_amendment-appends db a h = ground arith

finish-Written :
    (q : Reopening) (latest : EvaluationVersion) (opener : User) (row : EvaluationRecord)
    (enrollment : Enrollment) (trainee : User) {db₁ db₂ db₃ db' : Db}
    → db₁ ≡ record q.db { amendments = new_amendment q latest opener ∷ q.db.amendments }
    → db₂ ≡ record db₁ { records = advance_revision q.r db₁.records }
    → load_record db₂ q.r ≡ some row
    → enrollment_of db₂ row.enrollment_id ≡ some enrollment
    → user_of db₂ enrollment.user_id ≡ some trainee
    → db₃ ≡ record db₂ {
      audit_events =
          audited EventKind.amendment_opened
            (some q.actor)
            (some enrollment.user_id)
            (Subject.record_row q.r)
            q.now
            db₂.audit_events;
    }
    → db' ≡ record db₃ {
      notices =
          noticed row.owner_user_id NoticeKind.amendment_opened
            (reopened_message trainee.display_name)
            q.now
            db₃.notices;
    }
    → Written q latest opener db'
finish-Written q latest opener row enrollment trainee {db₁} {db₂} one two found enrolled named three
      four =
    let advanced : Db = record q.db { records = advance_revision q.r q.db.records } in
    record {
      row = row;
      enrollment = enrollment;
      trainee = trainee;
      concerns = record {
        current = sym (load_record_same advanced db₂ q.r (cc (two, one))) ∙ found;
        enrolled = sym (enrollment_of_same q.db db₂ row.enrollment_id (cc (two, one))) ∙ enrolled;
        named = sym (user_of_same q.db db₂ enrollment.user_id (cc (two, one))) ∙ named;
      };
      written = cc (four, three, two, one);
    }

writes-Written :
    (q : Reopening) (latest : EvaluationVersion) (opener : User) {db' : Db}
    → writes q latest opener ≡ ok db'
    → Written q latest opener db'
writes-Written q latest opener h =
    let (db₁, s, h₁) = >>=-eq-ok _ _ h in
    let db₂ : Db = record db₁ { records = advance_revision q.r db₁.records } in
    let (row, f, h₂) = fetch_one-ok (load_record db₂ q.r) _ h₁ in
    let (enrollment, e, h₃) = fetch_one-ok (enrollment_of db₂ row.enrollment_id) _ h₂ in
    let (trainee, n, h₄) = fetch_one-ok (user_of db₂ enrollment.user_id) _ h₃ in
    let (db₃, u, h₅) = >>=-eq-ok _ _ h₄ in
    finish-Written q latest opener row enrollment trainee
      (insert_amendment-appends {E = AmendRefusal} _ _ s) refl f e n
      (record_for_subject-appends {E = AmendRefusal} _ _ _ _ _ _ _ u)
      (notify_user-appends {E = AmendRefusal} _ _ _ _ _ h₅)

-- The answer of an admitted request.
pub record Reopened (q : Reopening) (db' : Db) : Type 0 where
  pub latest : EvaluationVersion
  pub opener : User
  pub found : latest_version q.db q.r ≡ some latest
  pub admitted : Admitted q latest
  pub writing : Written q latest opener db'

-- An amendment that is opened passed the checks: the actor may review, there is a reason, and the record
-- has a latest version that no amendment targets yet. It adds the amendment, which targets that version
-- and marks the positions of the streams, advances the revision, adds the audit event about the trainee
-- and one notice, which tells the owner the trainee's name, and changes nothing else.
pub open_amendment-Reopened : (q : Reopening) (db' : Db) → run q ≡ ok db' → Reopened q db'
unfolding open_amendment
open_amendment-Reopened q db' h = elim (Option-cases (latest_version q.db q.r)) [
  | inl e ↦ absurd (ground arith)
  | inr (latest, e) ↦ elim (Option-cases (user_of q.db q.actor)) [
    | inl f ↦ absurd (ground arith)
    | inr (opener, f) ↦ record {
      latest = latest;
      opener = opener;
      found = e;
      admitted = run-Admitted q latest opener e f h;
      writing = writes-Written q latest opener (run-writes q latest opener e f h);
    }
  ]
]
