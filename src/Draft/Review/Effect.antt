-- ===== src/Draft/Review/Effect.antt =====
-- What `decide` of crates/consolebook-server/src/draft_review.rs checks and writes.
use consolebook.Base.{
  ℕ, ◌≡◌, refl, sym, ap, ◌∙◌, true, false, Option, some, none, List, ◌∷◌, ◌==◌, ◌&&◌, ◌||◌, Text,
  is_empty, next_id, arith, Outcome, ok, >>=-eq-ok, ◌>>=◌, Option-cases, inl, inr, if◌then◌else◌,
  fetch_one, fetch_one-ok, Bool-cases,
}
use consolebook.Audit.{record_for_subject}
use consolebook.Audit.Effects.{audited, record_for_subject-appends}
use consolebook.Audit.Subjects.{Subject}
use consolebook.Capability.{user_has}
use consolebook.Audit.Vocabulary.{draft_review_decided}
use consolebook.Notice.{notify_user}
use consolebook.Capability.Vocabulary.{review_evaluation}
use consolebook.Db.{
  Db, EvaluationRecord, Snapshot, ReviewDecision, DecisionKind, change_request_return,
  review_decided,
}
use consolebook.Draft.Status.{
  DraftRefusal, submitted, load_record, status_of, status_of_decision, cycle_status,
}
use consolebook.Draft.Access.{is_contributor, has_touched}
use consolebook.Draft.Cycle.{
  Marked, status_of-Cycle, latest_contribution-fresh, latest_decision-fresh,
}
use consolebook.Draft.Ownership.{trainee_name}
use consolebook.Draft.Stream.{insert_decision, is_change_request}
use consolebook.Draft.Review.{decide, notice, decided_message, comment_of, snapshot_return}
use consolebook.Draft.Writes.{
  next_contribution, copied, take_snapshot-appends, insert_decision-appends, noticed,
  notify_user-appends, trainee_name_same, load_record_same,
}

-- A decision, on the state that was read first (`seen`) and the state of the write transaction.
pub record Reviewing : Type 0 where
  pub seen : Db
  pub db : Db
  pub now : ℕ
  pub actor : ℕ
  pub r : ℕ
  pub decision : DecisionKind
  pub comment : Option Text

abbrev pub run : Reviewing → Outcome DraftRefusal Db
run q = decide q.seen q.db q.now q.actor q.r q.decision q.comment

-- The row that is written.
abbrev pub new_decision : Reviewing → Db → ReviewDecision
new_decision q db = record {
  id = next_id (λ d. d.id) db.decisions;
  evaluation_record_id = q.r;
  reviewer_user_id = q.actor;
  decision = q.decision;
  comment = comment_of q.comment;
  decided_at = q.now;
}

-- The checks.
pub record Admitted (q : Reviewing) (row : EvaluationRecord) : Type 0 where
  pub authorized : user_has q.seen q.actor review_evaluation ≡ true
  pub commented : (is_change_request q.decision && is_empty (comment_of q.comment)) ≡ false
  pub awaited : status_of q.db q.r ≡ submitted
  -- The reviewer does not own the record and never contributed to it.
  pub uninvolved : (row.owner_user_id == q.actor || has_touched q.db q.r q.actor) ≡ false

-- A change request leaves a snapshot of what the reviewer saw.
abbrev pub snapshots_after : Reviewing → List Snapshot
snapshots_after q =
    if is_change_request q.decision
    then copied q.db q.r change_request_return q.now (some q.actor) ∷ q.db.snapshots
    else q.db.snapshots

-- The database afterwards.
pub record Written (q : Reviewing) (early row : EvaluationRecord) (db' : Db) : Type 0 where
  pub trainee : Text
  pub named : trainee_name {E = DraftRefusal} q.db early.enrollment_id ≡ ok trainee
  pub written : db' ≡ record q.db {
    snapshots = snapshots_after q;
    decisions = new_decision q q.db ∷ q.db.decisions;
    contributor_events =
        next_contribution q.db q.r review_decided q.actor none q.now ∷ q.db.contributor_events;
    audit_events =
        audited draft_review_decided
          (some q.actor)
          (some row.owner_user_id)
          (Subject.record_row q.r)
          q.now
          q.db.audit_events;
    notices =
        noticed row.owner_user_id
          (notice q.decision)
          (decided_message q.decision trainee)
          q.now
          q.db.notices;
  }

abbrev writes : Reviewing → EvaluationRecord → Outcome DraftRefusal Db
writes q early = do
  db₁ ← snapshot_return q.db q.r q.decision q.now q.actor
  db₂ ← insert_decision db₁ (new_decision q db₁)
  row ← fetch_one (load_record db₂ q.r)
  db₃ ←
      record_for_subject draft_review_decided (some q.actor) (some row.owner_user_id)
        (Subject.record_row q.r) q.now db₂
  name ← trainee_name db₃ early.enrollment_id
  notify_user row.owner_user_id (notice q.decision) (decided_message q.decision name) q.now db₃

module _ (q : Reviewing) (early row : EvaluationRecord) {db' : Db}
    (known : load_record q.seen q.r ≡ some early) (found : load_record q.db q.r ≡ some row)
    (h : run q ≡ ok db') where
  run-Admitted : Admitted q row
  unfolding decide is_contributor
  run-Admitted = record {
    authorized = ground arith;
    commented = ground arith;
    awaited = ground arith;
    uninvolved = ground arith;
  }

  run-same : run q ≡ writes q early
  unfolding decide is_contributor
  run-same =
      let a = run-Admitted in
      rw (known, a.authorized, a.commented, a.awaited, found, a.uninvolved) refl

  run-writes : writes q early ≡ ok db'
  run-writes = sym run-same ∙ h

snapshot_return-appends :
    (q : Reviewing) {db' : Db}
    → snapshot_return {E = DraftRefusal} q.db q.r q.decision q.now q.actor ≡ ok db'
    → db' ≡ record q.db { snapshots = snapshots_after q }
unfolding snapshot_return
snapshot_return-appends q h = elim (Bool-cases (is_change_request q.decision)) [
  | inl t ↦ rw t (
      take_snapshot-appends {E = DraftRefusal} q.db q.r change_request_return q.now (some q.actor)
        (ground arith))
  | inr f ↦ ground arith
]

finish-Written :
    (q : Reviewing) (early row same : EvaluationRecord) (trainee : Text) {db₁ db₂ db₃ db' : Db}
    → load_record q.db q.r ≡ some row
    → db₁ ≡ record q.db { snapshots = snapshots_after q }
    → db₂ ≡ record db₁ {
      decisions = new_decision q db₁ ∷ db₁.decisions;
      contributor_events =
          next_contribution db₁ q.r review_decided q.actor none q.now ∷ db₁.contributor_events;
    }
    → load_record db₂ q.r ≡ some same
    → db₃ ≡ record db₂ {
      audit_events =
          audited draft_review_decided
            (some q.actor)
            (some same.owner_user_id)
            (Subject.record_row q.r)
            q.now
            db₂.audit_events;
    }
    → trainee_name {E = DraftRefusal} db₃ early.enrollment_id ≡ ok trainee
    → db' ≡ record db₃ {
      notices =
          noticed same.owner_user_id
            (notice q.decision)
            (decided_message q.decision trainee)
            q.now
            db₃.notices;
    }
    → Written q early row db'
finish-Written q early row same trainee {db₁} {db₂} {db₃} found one two reread three named four =
    let kept : same ≡ row = cc (load_record_same q.db db₂ q.r (cc (two, one)), reread, found) in
    record {
      trainee = trainee;
      named =
          sym (
            trainee_name_same {E = DraftRefusal} q.db db₃ early.enrollment_id (cc (three, two, one))
              (cc (three, two, one)))
          ∙ named;
      written = cc (four, three, two, one, kept);
    }

writes-Written :
    (q : Reviewing) (early row : EvaluationRecord) {db' : Db}
    → load_record q.db q.r ≡ some row
    → writes q early ≡ ok db'
    → Written q early row db'
writes-Written q early row {db'} found h =
    let (db₁, s₁, h₁) = >>=-eq-ok _ _ h in
    let (db₂, s₂, h₂) = >>=-eq-ok _ _ h₁ in
    let (same, r, h₃) = fetch_one-ok (load_record db₂ q.r) _ h₂ in
    let (db₃, s₃, h₄) = >>=-eq-ok _ _ h₃ in
    let (name, n, h₅) = >>=-eq-ok (trainee_name db₃ early.enrollment_id) _ h₄ in
    finish-Written q early row same name found (snapshot_return-appends q s₁)
      (insert_decision-appends {E = DraftRefusal} _ _ s₂) r
      (record_for_subject-appends {E = DraftRefusal} _ _ _ _ _ _ _ s₃) n
      (notify_user-appends {E = DraftRefusal} _ _ _ _ _ h₅)

-- The answer of an admitted decision.
pub record Decided (q : Reviewing) (db' : Db) : Type 0 where
  pub early : EvaluationRecord
  pub row : EvaluationRecord
  pub known : load_record q.seen q.r ≡ some early
  pub found : load_record q.db q.r ≡ some row
  pub admitted : Admitted q row
  pub writing : Written q early row db'

-- A decision that is answered passed the checks: the actor may review, a change request has a comment,
-- the record awaits review, and the actor neither owns the record nor contributed to it. It adds the
-- decision, the paired event, a snapshot if changes are requested, the audit event about the owner and
-- one notice, which tells the owner the decision and the trainee's name, and changes nothing else.
pub decide-Decided : (q : Reviewing) (db' : Db) → run q ≡ ok db' → Decided q db'
unfolding decide is_contributor
decide-Decided q db' h = elim (Option-cases (load_record q.seen q.r)) [
  | inl e ↦ absurd (ground arith)
  | inr (early, e) ↦ elim (Option-cases (load_record q.db q.r)) [
    | inl f ↦ absurd (ground arith)
    | inr (row, f) ↦ record {
      early = early;
      row = row;
      known = e;
      found = f;
      admitted = run-Admitted q early row e f h;
      writing = writes-Written q early row f (run-writes q early row e f h);
    }
  ]
]

-- If the amendments' marks name rows that are there, the status after a decision is the one it names:
-- approved, changes_requested or returned.
pub decide-status :
    (q : Reviewing) (db' : Db)
    → Marked q.db
    → run q ≡ ok db'
    → status_of db' q.r ≡ status_of_decision (some q.decision)
unfolding cycle_status
decide-status q db' m h =
    let s = decide-Decided q db' h in
    let w = s.writing.written in
    let c = status_of-Cycle q.db q.r m (λ e. ground (arith, s.admitted.awaited)) in
    let cycle =
      c.in_cycle db' (ap (λ (d : Db). d.evaluation_versions) w) (ap (λ (d : Db). d.amendments) w) in
    let newest =
      latest_contribution-fresh (next_contribution q.db q.r review_decided q.actor none q.now)
        q.db.contributor_events c.event_mark refl c.event_bound in
    let verdict =
      latest_decision-fresh (new_decision q q.db) q.db.decisions c.decision_mark refl
        c.decision_bound in
    rw
      (
        cycle,
        ap (λ (d : Db). d.contributor_events) w,
        ap (λ (d : Db). d.decisions) w,
        newest,
        verdict,
      )
      refl
