-- ===== src/Acknowledgment/Effect.antt =====
-- What `acknowledge` and `attest` of crates/consolebook-server/src/acknowledgments.rs check and write.
use consolebook.Base.{
  ℕ, ◌≡◌, refl, sym, ap, ◌∙◌, Bool, true, false, some, List, [], ◌∷◌, not, ◌==◌, Text, trim,
  is_empty, is_some, next_id, arith, Outcome, ok, >>=-eq-ok, refuse_if-ok, fetch_one-ok,
  some_or_refuse-ok, eq_of_==, not-false,
}
use consolebook.Acknowledgment.{
  AckRefusal, TraineeAckKind, AttestedKind, VersionRow, stored_own, stored_attested,
  spoken_by_trainee, latest_version, is_acknowledged, response_fits, insert_acknowledgment,
  check_response, notify_each, response_message, refusal_message, attested_message, announce,
  acknowledge, attest,
}
use consolebook.Audit.{record_for_subject}
use consolebook.Audit.Effects.{audited, record_for_subject-appends}
use consolebook.Audit.Vocabulary.{EventKind}
use consolebook.Audit.Subjects.{Subject}
use consolebook.Capability.{user_has}
use consolebook.Capability.Vocabulary.{acknowledge_own_record, review_evaluation}
use consolebook.Notice.{notify_user}
use consolebook.Notice.Vocabulary.{NoticeKind}
use consolebook.Db.{Db, User, Acknowledgment, AuditEvent, EvaluationRecord, Notice, user_of}
use consolebook.Draft.Status.{load_record}
use consolebook.Draft.Submission.{reviewers}
use consolebook.Draft.Stream.{same_test}
use consolebook.Draft.Writes.{
  noticed, noticed_all, notify_user-appends, load_record_same, reviewers_same,
}

-- What the constraints hold of a row.
pub record Proper (a : Acknowledgment) : Type 0 where
  pub fits : response_fits a.kind a.response ≡ true
  pub speaker : spoken_by_trainee a.kind ≡ (a.recorded_by == a.user_id)

-- A row is added and the notices that `Told` allows, the audit trail is `events`, and nothing else
-- changes.
pub record Recorded (db : Db) (a : Acknowledgment) (events : List AuditEvent)
    (Told : List Notice → Type 0) (db' : Db) : Type 0 where
  pub notices : List Notice
  pub told : Told notices
  pub proper : Proper a
  pub first : is_acknowledged db a.evaluation_version_id a.user_id ≡ false
  pub written : db' ≡ record db {
    acknowledgments = a ∷ db.acknowledgments;
    audit_events = events;
    notices = notices;
  }

record Inserted (db : Db) (a : Acknowledgment) (db' : Db) : Type 0 where
  proper : Proper a
  first : is_acknowledged db a.evaluation_version_id a.user_id ≡ false
  written : db' ≡ record db { acknowledgments = a ∷ db.acknowledgments }

eq_of_same_test : (a b : Bool) → same_test a b ≡ true → a ≡ b
eq_of_same_test a b h = ground arith

insert_acknowledgment-Inserted :
    (db : Db) (a : Acknowledgment) {db' : Db}
    → insert_acknowledgment db a ≡ ok db'
    → Inserted db a db'
unfolding insert_acknowledgment
insert_acknowledgment-Inserted db a h = record {
  proper = record { fits = ground arith; speaker = eq_of_same_test _ _ (ground arith) };
  first = ground arith;
  written = ground arith;
}

-- The event of an acknowledgment.
abbrev pub recorded_event : ℕ → ℕ → ℕ → ℕ → List AuditEvent → List AuditEvent
recorded_event actor trainee r now events =
    audited EventKind.acknowledgment_recorded (some actor) (some trainee) (Subject.record_row r) now
      events

finish-Recorded :
    (db : Db) (a : Acknowledgment) (actor trainee r now : ℕ) (Told : List Notice → Type 0)
    (notices : List Notice) {db₁ db₂ db' : Db}
    → Inserted db a db₁
    → db₂ ≡ record db₁ { audit_events = recorded_event actor trainee r now db₁.audit_events }
    → db' ≡ record db₂ { notices = notices }
    → Told notices
    → Recorded db a (recorded_event actor trainee r now db.audit_events) Told db'
finish-Recorded db a actor trainee r now Told notices i u n t = record {
  notices = notices;
  told = t;
  proper = i.proper;
  first = i.first;
  written = cc (n, u, i.written);
}

notify_each-appends :
    (users : List ℕ) (kind : NoticeKind) (message : Text) (now : ℕ) (db : Db) {db' : Db}
    → notify_each users kind message now db ≡ ok db'
    → db' ≡ record db { notices = noticed_all users kind message now db.notices }
unfolding notify_each
notify_each-appends [] kind message now db h = ground arith
notify_each-appends (u ∷ rest) kind message now db h =
    let (db₁, s, h₁) = >>=-eq-ok (notify_user u kind message now db) _ h in
    notify_each-appends rest kind message now db₁ h₁
    ∙ ap (λ (d : Db). record d { notices = noticed_all rest kind message now d.notices })
        (notify_user-appends {E = AckRefusal} u kind message now db s)

-- Whom a trainee's acknowledgment is told: nobody; the owner, if it has a response; every reviewer, if
-- it is a refusal.
abbrev pub OwnTold : Db → ℕ → TraineeAckKind → Text → ℕ → List Notice → Type 0
OwnTold db r TraineeAckKind.acknowledged name now notices = notices ≡ db.notices
OwnTold db r TraineeAckKind.acknowledged_with_response name now notices =
    (row : EvaluationRecord) × (load_record db r ≡ some row)
    × (notices
        ≡ noticed row.owner_user_id NoticeKind.acknowledgment_response (response_message name) now
            db.notices)
OwnTold db r TraineeAckKind.refused name now notices =
    notices
    ≡ noticed_all (reviewers db) NoticeKind.acknowledgment_refused (refusal_message name) now
        db.notices

announce-OwnTold :
    (kind : TraineeAckKind) (r : ℕ) (name : Text) (now : ℕ) (db : Db) {db' : Db}
    → announce kind r name now db ≡ ok db'
    → (notices : List Notice) × (db' ≡ record db { notices = notices })
      × OwnTold db r kind name now notices
announce-OwnTold TraineeAckKind.acknowledged r name now db h = (db.notices, ground arith, refl)
announce-OwnTold TraineeAckKind.acknowledged_with_response r name now db h =
    let (row, f, h₁) = fetch_one-ok (load_record db r) _ h in
    (_, notify_user-appends {E = AckRefusal} _ _ _ _ _ h₁, (row, f, refl))
announce-OwnTold TraineeAckKind.refused r name now db h = (_, notify_each-appends _ _ _ _ _ h, refl)

OwnTold-same :
    (db db₂ : Db) (kind : TraineeAckKind) (r : ℕ) (name : Text) (now : ℕ) (notices : List Notice)
    → db₂.records ≡ db.records
    → db₂.grants ≡ db.grants
    → db₂.notices ≡ db.notices
    → OwnTold db₂ r kind name now notices
    → OwnTold db r kind name now notices
OwnTold-same db db₂ TraineeAckKind.acknowledged r name now notices f g n t = t ∙ n
OwnTold-same db db₂ TraineeAckKind.acknowledged_with_response r name now notices f g n t =
    (t.0, sym (load_record_same db db₂ r f) ∙ t.1, rw n at (t.2))
OwnTold-same db db₂ TraineeAckKind.refused r name now notices f g n t =
    rw (reviewers_same db db₂ g, n) at t

-- A request, on the state that was read first (`seen`) and the state of the write transaction.
pub record Receipt : Type 0 where
  pub seen : Db
  pub db : Db
  pub now : ℕ
  pub actor : ℕ
  pub r : ℕ
  pub kind : TraineeAckKind
  pub response : Text

abbrev pub run : Receipt → Outcome AckRefusal Db
run q = acknowledge q.seen q.db q.now q.actor q.r q.kind q.response

abbrev pub own_row : Receipt → VersionRow → User → Acknowledgment
own_row q version trainee = record {
  id = next_id (λ a. a.id) q.db.acknowledgments;
  evaluation_version_id = version.version_id;
  user_id = q.actor;
  kind = stored_own q.kind;
  response = trim q.response;
  recorded_by = q.actor;
  user_display_name = trainee.display_name;
  recorded_by_display_name = trainee.display_name;
  recorded_at = q.now;
}

-- The answer of an admitted request.
pub record Acknowledged (q : Receipt) (db' : Db) : Type 0 where
  pub version : VersionRow
  pub trainee : User
  pub latest : latest_version q.db q.r ≡ some version
  pub named : user_of q.db q.actor ≡ some trainee
  pub authorized : user_has q.seen q.actor acknowledge_own_record ≡ true
  pub own : version.trainee_user_id ≡ q.actor
  pub fitting : check_response q.kind (trim q.response) ≡ ok tt
  pub recording :
      Recorded q.db
        (own_row q version trainee)
        (recorded_event q.actor q.actor q.r q.now q.db.audit_events)
        (OwnTold q.db q.r q.kind trainee.display_name q.now)
        db'

-- A trainee's acknowledgment that is answered is of the latest version of the trainee's own record,
-- which the trainee has not acknowledged before, and has a text exactly where the kind takes one. It adds
-- the row, spoken by the trainee, the audit event about the trainee, and notices: none for a plain
-- acknowledgment, one to the owner for a response, one to each reviewer for a refusal. It changes nothing
-- else.
pub acknowledge-Acknowledged : (q : Receipt) (db' : Db) → run q ≡ ok db' → Acknowledged q db'
unfolding acknowledge
acknowledge-Acknowledged q db' h =
    let (_, h₁) = refuse_if-ok (not (is_some (load_record q.seen q.r))) _ _ h in
    let (a, h₂) = refuse_if-ok (not (user_has q.seen q.actor acknowledge_own_record)) _ _ h₁ in
    let (_, c, h₃) = >>=-eq-ok (check_response q.kind (trim q.response)) _ h₂ in
    let (version, l, h₄) = some_or_refuse-ok (latest_version q.db q.r) _ _ h₃ in
    let (o, h₅) = refuse_if-ok (not (version.trainee_user_id == q.actor)) _ _ h₄ in
    let (_, h₆) = refuse_if-ok (is_acknowledged q.db version.version_id q.actor) _ _ h₅ in
    let (trainee, n, h₇) = fetch_one-ok (user_of q.db q.actor) _ h₆ in
    let (db₁, i, h₈) = >>=-eq-ok (insert_acknowledgment q.db (own_row q version trainee)) _ h₇ in
    let (db₂, u, h₉) =
      >>=-eq-ok
        (record_for_subject EventKind.acknowledgment_recorded (some q.actor) (some q.actor)
          (Subject.record_row q.r) q.now db₁)
        _ h₈ in
    let i₁ = insert_acknowledgment-Inserted q.db (own_row q version trainee) i in
    let u₁ = record_for_subject-appends {E = AckRefusal} _ _ _ _ _ _ _ u in
    let (notices, m, t) = announce-OwnTold q.kind q.r trainee.display_name q.now db₂ h₉ in
    record {
      version = version;
      trainee = trainee;
      latest = l;
      named = n;
      fitting = c;
      authorized = not-false _ a;
      own = eq_of_== _ _ (not-false _ o);
      recording =
          finish-Recorded q.db (own_row q version trainee) q.actor q.actor q.r q.now
            (OwnTold q.db q.r q.kind trainee.display_name q.now) notices i₁ u₁ m
            (OwnTold-same q.db db₂ q.kind q.r trainee.display_name q.now notices
              (cc (u₁, i₁.written)) (cc (u₁, i₁.written)) (cc (u₁, i₁.written)) t);
    }

pub record Attestation : Type 0 where
  pub seen : Db
  pub db : Db
  pub now : ℕ
  pub actor : ℕ
  pub r : ℕ
  pub kind : AttestedKind
  pub reason : Text

abbrev pub run_attest : Attestation → Outcome AckRefusal Db
run_attest q = attest q.seen q.db q.now q.actor q.r q.kind q.reason

abbrev pub attested_row : Attestation → VersionRow → User → User → Acknowledgment
attested_row q version trainee attester = record {
  id = next_id (λ a. a.id) q.db.acknowledgments;
  evaluation_version_id = version.version_id;
  user_id = version.trainee_user_id;
  kind = stored_attested q.kind;
  response = trim q.reason;
  recorded_by = q.actor;
  user_display_name = trainee.display_name;
  recorded_by_display_name = attester.display_name;
  recorded_at = q.now;
}

pub record Attested (q : Attestation) (db' : Db) : Type 0 where
  pub version : VersionRow
  pub trainee : User
  pub attester : User
  pub latest : latest_version q.db q.r ≡ some version
  pub person : user_of q.db version.trainee_user_id ≡ some trainee
  pub named : user_of q.db q.actor ≡ some attester
  pub authorized : user_has q.seen q.actor review_evaluation ≡ true
  pub explained : is_empty (trim q.reason) ≡ false
  pub other : (version.trainee_user_id == q.actor) ≡ false
  pub recording :
      Recorded q.db
        (attested_row q version trainee attester)
        (recorded_event q.actor version.trainee_user_id q.r q.now q.db.audit_events)
        (λ notices.
          notices
          ≡ noticed version.trainee_user_id NoticeKind.acknowledgment_attested
              (attested_message q.kind)
              q.now
              q.db.notices)
        db'

-- An attestation that is answered is by a holder of the review capability who is not the trainee, gives a
-- reason, and is of the latest version, which the trainee has no acknowledgment of yet. It adds the row
-- about the trainee, the audit event about the trainee and one notice, which tells the trainee what was
-- attested, and changes nothing else.
pub attest-Attested : (q : Attestation) (db' : Db) → run_attest q ≡ ok db' → Attested q db'
unfolding attest
attest-Attested q db' h =
    let (_, h₁) = refuse_if-ok (not (is_some (load_record q.seen q.r))) _ _ h in
    let (a, h₂) = refuse_if-ok (not (user_has q.seen q.actor review_evaluation)) _ _ h₁ in
    let (e, h₃) = refuse_if-ok (is_empty (trim q.reason)) _ _ h₂ in
    let (version, l, h₄) = some_or_refuse-ok (latest_version q.db q.r) _ _ h₃ in
    let (o, h₅) = refuse_if-ok (version.trainee_user_id == q.actor) _ _ h₄ in
    let (_, h₆) =
      refuse_if-ok (is_acknowledged q.db version.version_id version.trainee_user_id) _ _ h₅ in
    let (trainee, p, h₇) = fetch_one-ok (user_of q.db version.trainee_user_id) _ h₆ in
    let (attester, n, h₈) = fetch_one-ok (user_of q.db q.actor) _ h₇ in
    let row = attested_row q version trainee attester in
    let (db₁, i, h₉) = >>=-eq-ok (insert_acknowledgment q.db row) _ h₈ in
    let (db₂, u, t₁) =
      >>=-eq-ok
        (record_for_subject EventKind.acknowledgment_recorded (some q.actor)
          (some version.trainee_user_id) (Subject.record_row q.r) q.now db₁)
        _ h₉ in
    let i₁ = insert_acknowledgment-Inserted q.db row i in
    let u₁ = record_for_subject-appends {E = AckRefusal} _ _ _ _ _ _ _ u in
    record {
      version = version;
      trainee = trainee;
      attester = attester;
      latest = l;
      person = p;
      named = n;
      authorized = not-false _ a;
      explained = e;
      other = o;
      recording =
          finish-Recorded q.db row q.actor version.trainee_user_id q.r q.now
            (λ notices.
              notices
              ≡ noticed version.trainee_user_id NoticeKind.acknowledgment_attested
                  (attested_message q.kind) q.now q.db.notices)
            (noticed version.trainee_user_id NoticeKind.acknowledgment_attested
              (attested_message q.kind) q.now db₂.notices)
            i₁ u₁ (notify_user-appends {E = AckRefusal} _ _ _ _ _ t₁)
            (ap
              (noticed version.trainee_user_id NoticeKind.acknowledgment_attested
                (attested_message q.kind) q.now)
              (ap (λ (d : Db). d.notices) u₁ ∙ ap (λ (d : Db). d.notices) i₁.written));
    }
