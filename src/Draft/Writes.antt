-- ===== src/Draft/Writes.antt =====
-- What the writes of crates/consolebook-server/src/evaluation_drafts.rs and draft_review.rs change.
use consolebook.Base.{
  ℕ, ◌≡◌, ◌≢◌, Option, none, List, [], ◌∷◌, ◌==◌, Text, next_id, select, arith, ok, Bool-cases, inl,
  inr, refl, not, >>=-eq-ok,
}
use consolebook.Notice.{notify_user}
use consolebook.Notice.Vocabulary.{NoticeKind, draft_submitted_for_review}
use consolebook.Db.{
  Db, Notice, ContributorEvent, ContributorKind, EvaluationRecord, Snapshot, SnapshotReason,
  ReviewDecision, review_decided, enrollment_of, user_of,
}
use consolebook.Draft.Status.{DraftStatus, finalized, frozen_refusal, load_record}
use consolebook.Draft.Access.{is_contributor}
use consolebook.Draft.Stream.{insert_contribution, append_event, take_snapshot, insert_decision}
use consolebook.Draft.Ownership.{set_owner, update_owner, refuse_frozen, trainee_name}
use consolebook.Draft.Submission.{notify_reviewers, reviewers}

-- The event that `append_event` writes.
abbrev pub next_contribution : Db → ℕ → ContributorKind → ℕ → Option ℕ → ℕ → ContributorEvent
next_contribution db r kind actor to now = record {
  id = next_id (λ ev. ev.id) db.contributor_events;
  evaluation_record_id = r;
  kind = kind;
  actor_user_id = actor;
  to_user_id = to;
  recorded_at = now;
}

pub append_event-appends :
    {E : Type 0} (db : Db) (r : ℕ) (kind : ContributorKind) (actor : ℕ) (to : Option ℕ) (now : ℕ)
    {db' : Db}
    → append_event {E = E} db r kind actor to now ≡ ok db'
    → db' ≡ record db {
      contributor_events = next_contribution db r kind actor to now ∷ db.contributor_events;
    }
unfolding append_event insert_contribution
append_event-appends db r kind actor to now h = ground arith

-- The snapshot of a working copy.
abbrev pub copied : Db → ℕ → SnapshotReason → ℕ → Option ℕ → Snapshot
copied db r reason now taken_by = record {
  id = next_id (λ s. s.id) db.snapshots;
  evaluation_record_id = r;
  reason = reason;
  ratings = select (λ x. x.evaluation_record_id == r) db.ratings;
  narratives = select (λ x. x.evaluation_record_id == r) db.narratives;
  taken_at = now;
  taken_by = taken_by;
}

pub take_snapshot-appends :
    {E : Type 0} (db : Db) (r : ℕ) (reason : SnapshotReason) (now : ℕ) (by : Option ℕ) {db' : Db}
    → take_snapshot {E = E} db r reason now by ≡ ok db'
    → db' ≡ record db { snapshots = copied db r reason now by ∷ db.snapshots }
unfolding take_snapshot
take_snapshot-appends db r reason now by h = ground arith

pub update_owner-sets :
    {E : Type 0} (db : Db) (row : EvaluationRecord) (to : ℕ) {db' : Db}
    → update_owner {E = E} db row to ≡ ok db'
    → db' ≡ record db { records = set_owner row.id to db.records }
unfolding update_owner
update_owner-sets db row to h = ground arith

pub insert_decision-appends :
    {E : Type 0} (db : Db) (d : ReviewDecision) {db' : Db}
    → insert_decision {E = E} db d ≡ ok db'
    → db' ≡ record db {
      decisions = d ∷ db.decisions;
      contributor_events =
          next_contribution db d.evaluation_record_id review_decided d.reviewer_user_id none
            d.decided_at
          ∷ db.contributor_events;
    }
unfolding insert_decision append_event insert_contribution is_contributor
insert_decision-appends db d h = ground arith

-- The notice that `notify_user` writes, before these.
abbrev pub noticed : ℕ → NoticeKind → Text → ℕ → List Notice → List Notice
noticed u kind message now notices =
    record {
      id = next_id (λ r. r.id) notices;
      user_id = u;
      kind = kind;
      message = message;
      created_at = now;
      read_at = none;
    }
    ∷ notices

-- One for each user, in order.
abbrev pub noticed_all : List ℕ → NoticeKind → Text → ℕ → List Notice → List Notice
noticed_all [] kind message now notices = notices
noticed_all (u ∷ us) kind message now notices =
    noticed_all us kind message now (noticed u kind message now notices)

pub notify_user-appends :
    {E : Type 0} (u : ℕ) (kind : NoticeKind) (message : Text) (now : ℕ) (db : Db) {db' : Db}
    → notify_user {E = E} u kind message now db ≡ ok db'
    → db' ≡ record db { notices = noticed u kind message now db.notices }
unfolding notify_user
notify_user-appends u kind message now db h = ground arith

-- The reviewers who are told: all but the actor.
abbrev pub others : List ℕ → ℕ → List ℕ
others us actor = select (λ u. not (u == actor)) us

pub notify_reviewers-appends :
    {E : Type 0} (reviewers : List ℕ) (actor : ℕ) (message : Text) (now : ℕ) (db : Db) {db' : Db}
    → notify_reviewers {E = E} reviewers actor message now db ≡ ok db'
    → db' ≡ record db {
      notices =
          noticed_all (others reviewers actor) draft_submitted_for_review message now db.notices;
    }
unfolding notify_reviewers select
notify_reviewers-appends [] actor message now db h = ground arith
notify_reviewers-appends {E} (u ∷ rest) actor message now db {db'} h =
    elim (Bool-cases (u == actor)) [
      | inl t ↦ rw t (notify_reviewers-appends {E = E} rest actor message now db (rw t at h))
      | inr f ↦
          let (db₁, e, h₁) =
            >>=-eq-ok (notify_user {E = E} u draft_submitted_for_review message now db) _
              (rw f at h) in
          let first = notify_user-appends {E = E} u _ message now db e in
          let more = notify_reviewers-appends {E = E} rest actor message now db₁ h₁ in
          rw f (cc (more, first))
    ]

-- What a read answers depends on its tables.
pub trainee_name_same :
    {E : Type 0} (db db' : Db) (e : ℕ)
    → db'.enrollments ≡ db.enrollments
    → db'.users ≡ db.users
    → trainee_name {E = E} db' e ≡ trainee_name db e
unfolding trainee_name enrollment_of user_of
trainee_name_same db db' e h k = rw (h, k) refl

pub load_record_same :
    (db db' : Db) (r : ℕ) → db'.records ≡ db.records → load_record db' r ≡ load_record db r
unfolding load_record
load_record_same db db' r h = rw h refl

pub enrollment_of_same :
    (db db' : Db) (e : ℕ)
    → db'.enrollments ≡ db.enrollments
    → enrollment_of db' e ≡ enrollment_of db e
unfolding enrollment_of
enrollment_of_same db db' e h = rw h refl

pub user_of_same : (db db' : Db) (u : ℕ) → db'.users ≡ db.users → user_of db' u ≡ user_of db u
unfolding user_of
user_of_same db db' u h = rw h refl

pub reviewers_same : (db db' : Db) → db'.grants ≡ db.grants → reviewers db' ≡ reviewers db
unfolding reviewers
reviewers_same db db' h = rw h refl

-- A status that is not frozen is not `finalized`.
pub unfrozen-open :
    (s : DraftStatus) {u : Unit} → refuse_frozen (frozen_refusal s) ≡ ok u → s ≢ finalized
unfrozen-open s h e = ground arith
