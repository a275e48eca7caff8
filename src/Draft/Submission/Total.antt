-- ===== src/Draft/Submission/Total.antt =====
-- The constraints and triggers of migrations 0008, 0009 and 0012 on the writes of `submit` of
-- crates/consolebook-server/src/evaluation_drafts.rs.
use consolebook.Base.{
  ℕ, ◌≡◌, ◌≢◌, refl, sym, ap, ◌∙◌, true, false, some, none, List, [], ◌∷◌, ◌==◌, Text, arith,
  is_some, Outcome, ok, failed, ◌>>=◌, Option-cases, Bool-cases, inl, inr, All, map, select,
  find?-All, find?_of_exists,
}
use text.Mathlib.Text.{◌==◌ as str_eq}
use consolebook.Audit.Effects.{record_for_subject_total, record_for_subject-Audited}
use consolebook.Audit.Vocabulary.{draft_submitted}
use consolebook.Audit.Subjects.{Subject}
use consolebook.Capability.Vocabulary.{as_str, review_evaluation}
use consolebook.Db.{
  Db, Grant, EvaluationRecord, is_user, is_user?, user_of, enrollment_of, submission,
  submitted_for_review,
}
use consolebook.Notice.{notify_user}
use consolebook.Draft.Status.{
  DraftRefusal, load_record, status_of, frozen_refusal, is_finalized, latest_version, amendment_of,
}
use consolebook.Draft.Frozen.{Numbered, frozen_view, frozen-status}
use consolebook.Draft.Ownership.{trainee_name}
use consolebook.Draft.Stream.{take_snapshot, append_event, insert_contribution}
use consolebook.Draft.Submission.{submit, reviewers, notify_reviewers, awaits_message}
use consolebook.Draft.Submission.Effect.{Submission, run, writes}
use consolebook.Draft.Writes.{copied, next_contribution}

-- The foreign keys that a submission follows.
pub record Sound (db : Db) : Type 0 where
  pub numbered : Numbered db
  pub grantees : All (λ g. is_user db g.user_id ≡ true) db.grants
  pub trainees : All (λ e. is_user db e.user_id ≡ true) db.enrollments
  pub enrolled : All (λ r. is_some (enrollment_of db r.enrollment_id) ≡ true) db.records

reviewers-All :
    (P : ℕ → Type 0) (grants : List Grant)
    → All (λ g. P g.user_id) grants
    → All P (
        map
          (λ g. g.user_id)
          (select (λ g. str_eq (as_str g.capability) (as_str review_evaluation)) grants))
unfolding select
reviewers-All P [] h = tt
reviewers-All P (g ∷ gs) h =
    elim (Bool-cases (str_eq (as_str g.capability) (as_str review_evaluation))) [
      | inl t ↦ rw t (h.0, reviewers-All P gs h.1)
      | inr f ↦ rw f (reviewers-All P gs h.1)
    ]

notify_reviewers_total :
    {E : Type 0} (us : List ℕ) (actor : ℕ) (message : Text) (now : ℕ) (db : Db)
    → All (λ u. is_user db u ≡ true) us
    → (db' : Db) × (notify_reviewers {E = E} us actor message now db ≡ ok db')
unfolding notify_reviewers notify_user is_user
notify_reviewers_total [] actor message now db h = (db, refl)
notify_reviewers_total (u ∷ us) actor message now db h = elim (Bool-cases (u == actor)) [
  | inl t ↦ rw t (notify_reviewers_total us actor message now db h.1)
  | inr f ↦ rw (f, h.0) (notify_reviewers_total us actor message now _ h.1)
]

trainee_name_total :
    {E : Type 0} (db : Db) (e : ℕ)
    → All (λ r. is_user db r.user_id ≡ true) db.enrollments
    → is_some (enrollment_of db e) ≡ true
    → (name : Text) × (trainee_name {E = E} db e ≡ ok name)
unfolding trainee_name enrollment_of user_of is_user
trainee_name_total db e h k = elim (Option-cases (enrollment_of db e)) [
  | inl n ↦ absurd (ground arith)
  | inr (row, found) ↦
      let (user, there) = find?_of_exists _ db.users (find?-All _ _ db.enrollments row h found) in
      (user.display_name, rw (found, there) refl)
]

module _ (q : Submission) (early row : EvaluationRecord) (w : Sound q.db)
    (actor_known : is_user q.db q.actor ≡ true) (found : load_record q.db q.r ≡ some row)
    (same : early.enrollment_id ≡ row.enrollment_id)
    (unfrozen : frozen_refusal (status_of q.db q.r) ≡ none) where
  abbrev snapped : Db
  snapped = record q.db {
    snapshots = copied q.db q.r submission q.now (some q.actor) ∷ q.db.snapshots;
  }

  abbrev streamed : Db
  streamed = record snapped {
    contributor_events =
        next_contribution q.db q.r submitted_for_review q.actor none q.now
        ∷ q.db.contributor_events;
  }

  snapshot_there :
      take_snapshot {E = DraftRefusal} q.db q.r submission q.now (some q.actor) ≡ ok snapped
  unfolding take_snapshot is_user?
  snapshot_there = rw (found, actor_known) refl

  open_view : frozen_view q.db q.r ≡ false
  open_view = sym (frozen-status q.db q.r w.numbered) ∙ ap is_some unfrozen

  open_snapped : frozen_view snapped q.r ≡ false
  unfolding frozen_view is_finalized latest_version amendment_of
  open_snapped = open_view

  event_there :
      append_event {E = DraftRefusal} snapped q.r submitted_for_review q.actor none q.now
      ≡ ok streamed
  unfolding append_event insert_contribution is_user is_user? load_record
  event_there = rw (found, actor_known, open_snapped) refl

  -- The notices are written in every database with the same users, enrollments and grants.
  notices_there :
      (db : Db)
      → db.users ≡ q.db.users
      → db.enrollments ≡ q.db.enrollments
      → db.grants ≡ q.db.grants
      → (db' : Db) × ◌≡◌ {A = Outcome DraftRefusal Db}
          (do
            name ← trainee_name db early.enrollment_id
            notify_reviewers (reviewers db) q.actor (awaits_message name) q.now db)
          (ok db')
  unfolding is_user enrollment_of reviewers load_record
  notices_there db users enrollments grants =
      let there : is_some (enrollment_of q.db early.enrollment_id) ≡ true =
        rw same (find?-All _ _ q.db.records row w.enrolled found) in
      let (name, named) =
        trainee_name_total {E = DraftRefusal} db early.enrollment_id
          (rw (users, enrollments) (w.trainees)) (rw enrollments there) in
      let (db', sent) =
        notify_reviewers_total {E = DraftRefusal} (reviewers db) q.actor (awaits_message name) q.now
          db
          (rw (users, grants)
            (reviewers-All (λ u. is_user q.db u ≡ true) q.db.grants w.grantees)) in
      (db', rw (named, sent) refl)

  writes_total : (db' : Db) × (writes q early ≡ ok db')
  unfolding is_user is_user?
  writes_total =
      let (db₃, audited) =
        record_for_subject_total {E = DraftRefusal} draft_submitted (some q.actor) none
          (Subject.record_row q.r) q.now streamed actor_known refl in
      let a = record_for_subject-Audited {E = DraftRefusal} _ _ _ _ _ _ _ audited in
      let (db', sent) =
        notices_there db₃ (ap (λ (x : Db). x.users) a.appended)
          (ap (λ (x : Db). x.enrollments) a.appended) (ap (λ (x : Db). x.grants) a.appended) in
      (db', rw (snapshot_there, event_there, audited) sent)

-- On sound tables a submission by an existing user is answered or refused: no constraint or trigger
-- fails. The record's enrollment is the one that was read first.
pub submit-ne-failed :
    (q : Submission) (row early : EvaluationRecord)
    → Sound q.db
    → is_user q.db q.actor ≡ true
    → load_record q.seen q.r ≡ some early
    → load_record q.db q.r ≡ some row
    → early.enrollment_id ≡ row.enrollment_id
    → run q ≢ failed
unfolding submit
submit-ne-failed q row early w actor_known known found same h =
    let unfrozen : frozen_refusal (status_of q.db q.r) ≡ none = ground arith in
    let (db', e) = writes_total q early row w actor_known found same unfrozen in
    let reached : run q ≡ writes q early = ground (arith, unfrozen) in cc (h, reached, e)
