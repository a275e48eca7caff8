-- ===== src/Draft/Submission/Effect.antt =====
-- What `submit` of crates/consolebook-server/src/evaluation_drafts.rs checks and writes.
use consolebook.Base.{
  ℕ, ◌≡◌, refl, sym, ap, ◌∙◌, Text, false, some, none, ◌∷◌, ◌==◌, ◌&&◌, not, eq_of_==, arith,
  Outcome, ok, >>=-eq-ok, ◌>>=◌, Option-cases, inl, inr,
}
use consolebook.Audit.{record_for_subject}
use consolebook.Audit.Effects.{audited, record_for_subject-appends}
use consolebook.Audit.Vocabulary.{draft_submitted}
use consolebook.Audit.Subjects.{Subject}
use consolebook.Capability.{user_has}
use consolebook.Capability.Vocabulary.{assign_training}
use consolebook.Db.{Db, EvaluationRecord, submission, submitted_for_review}
use consolebook.Draft.Status.{
  DraftRefusal, submitted, load_record, status_of, frozen_refusal, cycle_status,
}
use consolebook.Draft.Completion
use consolebook.Draft.Completion.{policy}
use consolebook.Draft.Cycle.{Marked, status_of-Cycle, latest_contribution-fresh}
use consolebook.Draft.Ownership.{trainee_name}
use consolebook.Draft.Stream.{take_snapshot, append_event}
use consolebook.Draft.Submission.{submit, notify_reviewers, reviewers, awaits_message}
use consolebook.Notice.Vocabulary.{draft_submitted_for_review}
use consolebook.Draft.Writes.{
  next_contribution, append_event-appends, copied, take_snapshot-appends, noticed_all, others,
  notify_reviewers-appends, trainee_name_same, reviewers_same,
}

-- A submission, on the state that was read first (`seen`) and the state of the write transaction.
pub record Submission : Type 0 where
  pub seen : Db
  pub db : Db
  pub now : ℕ
  pub actor : ℕ
  pub r : ℕ
  pub expected_revision : ℕ

abbrev pub run : Submission → Outcome DraftRefusal Db
run q = submit q.seen q.db q.now q.actor q.r q.expected_revision

-- The checks, on the record as it was read first and as the transaction reads it.
pub record Admitted (q : Submission) (early row : EvaluationRecord) : Type 0 where
  pub unfrozen : frozen_refusal (status_of q.db q.r) ≡ none
  -- The submitter owns the record as the transaction finds it, or coordinates.
  pub entitled :
      (not (q.actor == row.owner_user_id) && not (user_has q.seen q.actor assign_training)) ≡ false
  pub current : q.expected_revision ≡ row.revision
  pub narrated :
      ((policy q.db early.program_version_id).required_narratives
        && Completion.narratives_incomplete q.db early)
      ≡ false
  pub rated :
      ((policy q.db early.program_version_id).ratings_complete
        && Completion.ratings_incomplete q.db early)
      ≡ false

-- The database afterwards.
pub record Written (q : Submission) (early : EvaluationRecord) (db' : Db) : Type 0 where
  pub trainee : Text
  pub named : trainee_name {E = DraftRefusal} q.db early.enrollment_id ≡ ok trainee
  pub written : db' ≡ record q.db {
    snapshots = copied q.db q.r submission q.now (some q.actor) ∷ q.db.snapshots;
    contributor_events =
        next_contribution q.db q.r submitted_for_review q.actor none q.now
        ∷ q.db.contributor_events;
    audit_events =
        audited draft_submitted
          (some q.actor)
          none
          (Subject.record_row q.r)
          q.now
          q.db.audit_events;
    notices =
        noticed_all
          (others (reviewers q.db) q.actor)
          draft_submitted_for_review
          (awaits_message trainee)
          q.now
          q.db.notices;
  }

abbrev pub writes : Submission → EvaluationRecord → Outcome DraftRefusal Db
writes q early = do
  db₁ ← take_snapshot q.db q.r submission q.now (some q.actor)
  db₂ ← append_event db₁ q.r submitted_for_review q.actor none q.now
  db₃ ← record_for_subject draft_submitted (some q.actor) none (Subject.record_row q.r) q.now db₂
  name ← trainee_name db₃ early.enrollment_id
  notify_reviewers (reviewers db₃) q.actor (awaits_message name) q.now db₃

module _ (q : Submission) (early row : EvaluationRecord) {db' : Db}
    (known : load_record q.seen q.r ≡ some early) (found : load_record q.db q.r ≡ some row)
    (h : run q ≡ ok db') where
  run-Admitted : Admitted q early row
  unfolding submit
  run-Admitted = record {
    unfrozen = ground arith;
    entitled = ground arith;
    current = eq_of_== q.expected_revision row.revision (ground arith);
    narrated = ground arith;
    rated = ground arith;
  }

  run-writes : writes q early ≡ ok db'
  unfolding submit
  run-writes = ground (arith, run-Admitted.unfrozen)

finish-Written :
    (q : Submission) (early : EvaluationRecord) (trainee : Text) {db₁ db₂ db₃ db' : Db}
    → db₁
      ≡ record q.db { snapshots = copied q.db q.r submission q.now (some q.actor) ∷ q.db.snapshots }
    → db₂ ≡ record db₁ {
      contributor_events =
          next_contribution db₁ q.r submitted_for_review q.actor none q.now
          ∷ db₁.contributor_events;
    }
    → db₃ ≡ record db₂ {
      audit_events =
          audited draft_submitted
            (some q.actor)
            none
            (Subject.record_row q.r)
            q.now
            db₂.audit_events;
    }
    → trainee_name {E = DraftRefusal} db₃ early.enrollment_id ≡ ok trainee
    → db' ≡ record db₃ {
      notices =
          noticed_all
            (others (reviewers db₃) q.actor)
            draft_submitted_for_review
            (awaits_message trainee)
            q.now
            db₃.notices;
    }
    → Written q early db'
finish-Written q early trainee {db₁} {db₂} {db₃} one two three named four =
    let told : reviewers db₃ ≡ reviewers q.db = reviewers_same q.db db₃ (cc (three, two, one)) in
    record {
      trainee = trainee;
      named =
          sym (
            trainee_name_same {E = DraftRefusal} q.db db₃ early.enrollment_id (cc (three, two, one))
              (cc (three, two, one)))
          ∙ named;
      written = (rw told at four) ∙ cc (three, two, one);
    }

writes-Written :
    (q : Submission) (early : EvaluationRecord) {db' : Db}
    → writes q early ≡ ok db'
    → Written q early db'
writes-Written q early {db'} h =
    let (db₁, s₁, h₁) = >>=-eq-ok _ _ h in
    let (db₂, s₂, h₂) = >>=-eq-ok _ _ h₁ in
    let (db₃, s₃, h₃) = >>=-eq-ok _ _ h₂ in
    let (name, n, h₄) = >>=-eq-ok (trainee_name db₃ early.enrollment_id) _ h₃ in
    finish-Written q early name (take_snapshot-appends {E = DraftRefusal} _ _ _ _ _ s₁)
      (append_event-appends {E = DraftRefusal} _ _ _ _ _ _ s₂)
      (record_for_subject-appends {E = DraftRefusal} _ _ _ _ _ _ _ s₃) n
      (notify_reviewers-appends {E = DraftRefusal} _ _ _ _ _ h₄)

-- The answer of an admitted submission.
pub record Submitted (q : Submission) (db' : Db) : Type 0 where
  pub early : EvaluationRecord
  pub row : EvaluationRecord
  pub known : load_record q.seen q.r ≡ some early
  pub found : load_record q.db q.r ≡ some row
  pub admitted : Admitted q early row
  pub writing : Written q early db'

-- A submission that is answered passed the checks on the record as the write transaction reads it: the
-- copy is not frozen, the actor owns it or coordinates, the revision is the expected one, and the
-- completion rules that are on are met. It adds a snapshot of the working copy, the event, the audit event
-- and a notice for each holder of the review capability but the actor, which tells the trainee's name,
-- and changes nothing else.
pub submit-Submitted : (q : Submission) (db' : Db) → run q ≡ ok db' → Submitted q db'
unfolding submit
submit-Submitted q db' h = elim (Option-cases (load_record q.seen q.r)) [
  | inl e ↦ absurd (ground arith)
  | inr (early, e) ↦ elim (Option-cases (load_record q.db q.r)) [
    | inl f ↦ absurd (ground arith)
    | inr (row, f) ↦ record {
      early = early;
      row = row;
      known = e;
      found = f;
      admitted = run-Admitted q early row e f h;
      writing = writes-Written q early (run-writes q early row e f h);
    }
  ]
]

-- If the amendments' marks name rows that are there, the status after a submission is `submitted`.
pub submit-status :
    (q : Submission) (db' : Db) → Marked q.db → run q ≡ ok db' → status_of db' q.r ≡ submitted
unfolding cycle_status
submit-status q db' m h =
    let s = submit-Submitted q db' h in
    let w = s.writing.written in
    let c = status_of-Cycle q.db q.r m (λ e. ground (arith, s.admitted.unfrozen)) in
    let newest =
      latest_contribution-fresh (next_contribution q.db q.r submitted_for_review q.actor none q.now)
        q.db.contributor_events c.event_mark refl c.event_bound in
    let cycle =
      c.in_cycle db' (ap (λ (d : Db). d.evaluation_versions) w) (ap (λ (d : Db). d.amendments) w) in
    rw (cycle, ap (λ (d : Db). d.contributor_events) w, newest) refl
