-- ===== src/Acknowledgment.antt =====
-- crates/consolebook-server/src/acknowledgments.rs: the acknowledgment of a finalized version, with the
-- constraints and triggers of migration 0011.
pub mod Effect
pub mod Standing
use consolebook.Base.{
  ℕ, Bool, true, false, Option, some, none, List, [], ◌∷◌, ◌&&◌, not, ◌==◌, is_some, is_empty,
  has_length, Text, trim, codes, ◌++◌, String, exists, find?, next_id, Outcome, ok, refuse_if,
  some_or_refuse, fetch_one, require, ◌>>=◌, ◌>>◌,
}
use consolebook.Audit.{record_for_subject}
use consolebook.Audit.Vocabulary.{EventKind}
use consolebook.Audit.Subjects.{Subject}
use consolebook.Capability.{user_has}
use consolebook.Capability.Vocabulary.{acknowledge_own_record, review_evaluation}
use consolebook.Notice.{notify_user}
use consolebook.Notice.Vocabulary.{NoticeKind}
use consolebook.Db.{
  Db, AckKind, Acknowledgment, Enrollment, EvaluationRecord, EvaluationVersion, enrollment_of,
  is_user, user_of,
}
use consolebook.Draft.Access.{may_read}
use consolebook.Draft.Status as Status
use consolebook.Draft.Status.{load_record}
use consolebook.Draft.Stream.{same_test}
use consolebook.Draft.Submission.{reviewers}

pub data AckRefusal : Type 0 where
  no_such_record not_finalized capability_required not_your_record : AckRefusal
  self_attestation already_acknowledged response_required response_not_allowed : AckRefusal

-- The kinds that a trainee records.
pub data TraineeAckKind : Type 0 where
  acknowledged acknowledged_with_response refused : TraineeAckKind

-- The kinds recorded about the trainee.
pub data AttestedKind : Type 0 where
  supervisor_attested_refusal unavailable : AttestedKind

-- The stored kind that a service's kind is written as.
abbrev pub stored_own : TraineeAckKind → AckKind
stored_own TraineeAckKind.acknowledged = AckKind.acknowledged
stored_own TraineeAckKind.acknowledged_with_response = AckKind.acknowledged_with_response
stored_own TraineeAckKind.refused = AckKind.refused

abbrev pub stored_attested : AttestedKind → AckKind
stored_attested AttestedKind.supervisor_attested_refusal = AckKind.supervisor_attested_refusal
stored_attested AttestedKind.unavailable = AckKind.unavailable

abbrev pub spoken_by_trainee : AckKind → Bool
spoken_by_trainee AckKind.acknowledged = true
spoken_by_trainee AckKind.acknowledged_with_response = true
spoken_by_trainee AckKind.refused = true
spoken_by_trainee _ = false

pub record VersionRow : Type 0 where
  pub version_id : ℕ
  pub trainee_user_id : ℕ

-- The user of the enrollment of a record.
abbrev pub user_of_enrollment : Option Enrollment → Option ℕ
user_of_enrollment none = none
user_of_enrollment (some e) = some e.user_id

abbrev pub trainee_of_record : Db → Option EvaluationRecord → Option ℕ
trainee_of_record db none = none
trainee_of_record db (some row) = user_of_enrollment (enrollment_of db row.enrollment_id)

abbrev pub version_row : Option EvaluationVersion → Option ℕ → Option VersionRow
version_row (some v) (some u) = some (record { version_id = v.id; trainee_user_id = u })
version_row _ _ = none

-- The latest finalized version and the record's trainee, by inner joins.
unfoldable pub latest_version : Db → ℕ → Option VersionRow
latest_version db r =
    version_row (Status.latest_version db r) (trainee_of_record db (load_record db r))

unfoldable pub is_acknowledged : Db → ℕ → ℕ → Bool
is_acknowledged db v u =
    exists (λ a. a.evaluation_version_id == v && a.user_id == u) db.acknowledgments

abbrev pub response_fits : AckKind → Text → Bool
response_fits AckKind.acknowledged response = is_empty response
response_fits _ response = has_length (trim response)

abbrev pub record_of_version : Option EvaluationVersion → Option ℕ
record_of_version none = none
record_of_version (some v) = some v.evaluation_record_id

abbrev pub bound_to : ℕ → Option ℕ → Bool
bound_to u none = true
bound_to u (some trainee) = u == trainee

abbrev pub trainee_of_version : Db → Option ℕ → Option ℕ
trainee_of_version db none = none
trainee_of_version db (some r) = trainee_of_record db (load_record db r)

-- acknowledgment_binds_the_trainee
unfoldable pub binds_trainee : Db → Acknowledgment → Bool
binds_trainee db a = bound_to a.user_id (
    trainee_of_version db
      (record_of_version (find? (λ v. v.id == a.evaluation_version_id) db.evaluation_versions)))

-- INSERT INTO acknowledgment
unfoldable pub insert_acknowledgment : Db → Acknowledgment → Outcome AckRefusal Db
insert_acknowledgment db a = do
  require (exists (λ v. v.id == a.evaluation_version_id) db.evaluation_versions)
  require (is_user db a.user_id)
  require (is_user db a.recorded_by)
  require (has_length a.user_display_name)
  require (has_length a.recorded_by_display_name)
  require (not (is_acknowledged db a.evaluation_version_id a.user_id))
  require (response_fits a.kind a.response)
  require (same_test (spoken_by_trainee a.kind) (a.recorded_by == a.user_id))
  require (binds_trainee db a)
  ok (record db { acknowledgments = a ∷ db.acknowledgments })

-- What a kind demands of the text.
abbrev pub check_response : TraineeAckKind → Text → Outcome AckRefusal Unit
check_response TraineeAckKind.acknowledged response =
    refuse_if (not (is_empty response)) AckRefusal.response_not_allowed
check_response _ response = refuse_if (is_empty response) AckRefusal.response_required

unfoldable pub response_message : Text → Text
response_message name = name ++ codes " acknowledged a finalized evaluation record with a response."

unfoldable pub refusal_message : Text → Text
refusal_message name = name ++ codes " refused to acknowledge a finalized evaluation record."

-- INSERT INTO notice ... SELECT cg.user_id, ..., a row for each
unfoldable pub notify_each : List ℕ → NoticeKind → Text → ℕ → Db → Outcome AckRefusal Db
notify_each [] kind message now db = ok db
notify_each (u ∷ rest) kind message now db = do
  db₁ ← notify_user u kind message now db
  notify_each rest kind message now db₁

abbrev pub announce : TraineeAckKind → ℕ → Text → ℕ → Db → Outcome AckRefusal Db
announce TraineeAckKind.acknowledged r name now db = ok db
announce TraineeAckKind.acknowledged_with_response r name now db = do
  row ← fetch_one (load_record db r)
  notify_user row.owner_user_id NoticeKind.acknowledgment_response (response_message name) now db
announce TraineeAckKind.refused r name now db =
    notify_each (reviewers db) NoticeKind.acknowledgment_refused (refusal_message name) now db

-- `seen` is what is read before the write transaction.
unfoldable pub acknowledge :
    (seen db : Db) (now actor r : ℕ) → TraineeAckKind → Text → Outcome AckRefusal Db
acknowledge seen db now actor r kind response = do
  refuse_if (not (is_some (load_record seen r))) AckRefusal.no_such_record
  refuse_if (not (user_has seen actor acknowledge_own_record)) AckRefusal.capability_required
  check_response kind (trim response)
  version ← some_or_refuse (latest_version db r) AckRefusal.not_finalized
  refuse_if (not (version.trainee_user_id == actor)) AckRefusal.not_your_record
  refuse_if (is_acknowledged db version.version_id actor) AckRefusal.already_acknowledged
  trainee ← fetch_one (user_of db actor)
  db₁ ← insert_acknowledgment db (record {
    id = next_id (λ a. a.id) db.acknowledgments;
    evaluation_version_id = version.version_id;
    user_id = actor;
    kind = stored_own kind;
    response = trim response;
    recorded_by = actor;
    user_display_name = trainee.display_name;
    recorded_by_display_name = trainee.display_name;
    recorded_at = now;
  })
  db₂ ←
      record_for_subject EventKind.acknowledgment_recorded (some actor) (some actor)
        (Subject.record_row r) now db₁
  announce kind r trainee.display_name now db₂

abbrev pub statement : AttestedKind → Text
statement AttestedKind.supervisor_attested_refusal =
    codes "a refusal to acknowledge was attested on your behalf"
statement AttestedKind.unavailable = codes "you were recorded as unavailable to acknowledge"

unfoldable pub attested_message : AttestedKind → Text
attested_message kind = codes "On a finalized evaluation record, " ++ (statement kind ++ codes ".")

unfoldable pub attest :
    (seen db : Db) (now actor r : ℕ) → AttestedKind → Text → Outcome AckRefusal Db
attest seen db now actor r kind reason = do
  refuse_if (not (is_some (load_record seen r))) AckRefusal.no_such_record
  refuse_if (not (user_has seen actor review_evaluation)) AckRefusal.capability_required
  refuse_if (is_empty (trim reason)) AckRefusal.response_required
  version ← some_or_refuse (latest_version db r) AckRefusal.not_finalized
  refuse_if (version.trainee_user_id == actor) AckRefusal.self_attestation
  refuse_if (is_acknowledged db version.version_id version.trainee_user_id)
      AckRefusal.already_acknowledged
  trainee ← fetch_one (user_of db version.trainee_user_id)
  attester ← fetch_one (user_of db actor)
  db₁ ← insert_acknowledgment db (record {
    id = next_id (λ a. a.id) db.acknowledgments;
    evaluation_version_id = version.version_id;
    user_id = version.trainee_user_id;
    kind = stored_attested kind;
    response = trim reason;
    recorded_by = actor;
    user_display_name = trainee.display_name;
    recorded_by_display_name = attester.display_name;
    recorded_at = now;
  })
  db₂ ←
      record_for_subject EventKind.acknowledgment_recorded (some actor)
        (some version.trainee_user_id) (Subject.record_row r) now db₁
  notify_user version.trainee_user_id NoticeKind.acknowledgment_attested (attested_message kind) now
      db₂

pub record AckView : Type 0 where
  pub kind : AckKind
  pub response : Text
  pub user_display_name : Text
  pub recorded_by : ℕ
  pub recorded_by_display_name : Text
  pub recorded_at : ℕ

abbrev pub view_of : Option Acknowledgment → Option AckView
view_of none = none
view_of (some a) = some (record {
  kind = a.kind;
  response = a.response;
  user_display_name = a.user_display_name;
  recorded_by = a.recorded_by;
  recorded_by_display_name = a.recorded_by_display_name;
  recorded_at = a.recorded_at;
})

-- The acknowledgment of the latest version; the trainee is the one person who can be bound to it.
abbrev pub latest_acknowledgment : Db → Option EvaluationVersion → Option Acknowledgment
latest_acknowledgment db none = none
latest_acknowledgment db (some v) = find? (λ a. a.evaluation_version_id == v.id) db.acknowledgments

unfoldable pub acknowledgment_of : Db → ℕ → ℕ → Outcome AckRefusal (Option AckView)
acknowledgment_of db actor r = do
  row ← some_or_refuse (load_record db r) AckRefusal.no_such_record
  refuse_if (not (may_read db actor row)) AckRefusal.capability_required
  ok (view_of (latest_acknowledgment db (Status.latest_version db r)))
