-- ===== src/Draft/Ownership/Effect.antt =====
-- What `transfer` of crates/consolebook-server/src/evaluation_drafts.rs checks and writes.
use consolebook.Base.{
  ℕ, ◌≡◌, refl, sym, ap, ◌∙◌, Text, true, false, some, none, List, [], ◌∷◌, ◌==◌, ◌&&◌, not,
  eq_of_==, arith, Outcome, ok, >>=-eq-ok, ◌>>=◌, Option-cases, inl, inr, if◌then◌else◌, find?,
  ==_refl, Bool-cases, find?-sound,
}
use consolebook.Audit.{record_for_subject}
use consolebook.Audit.Effects.{audited, record_for_subject-appends}
use consolebook.Audit.Subjects.{Subject}
use consolebook.Capability.{user_has}
use consolebook.Audit.Vocabulary.{draft_ownership_transferred}
use consolebook.Notice.{notify_user}
use consolebook.Notice.Vocabulary.{draft_ownership_received}
use consolebook.Capability.Vocabulary.{assign_training, author_evaluation}
use consolebook.Db.{Db, EvaluationRecord, is_user, ownership_transferred}
use consolebook.Draft.Status.{
  DraftRefusal, draft, load_record, status_of, frozen_refusal, cycle_status,
}
use consolebook.Draft.Access.{in_scope}
use consolebook.Draft.Cycle.{Marked, status_of-Cycle, latest_contribution-fresh}
use consolebook.Draft.Ownership.{trainee_name, set_owner, update_owner, received_message, transfer}
use consolebook.Draft.Stream.{append_event}
use consolebook.Draft.Writes.{
  next_contribution, append_event-appends, update_owner-sets, noticed, notify_user-appends,
  trainee_name_same,
}

-- A transfer, on the state that was read first (`seen`) and the state of the write transaction.
pub record Transfer : Type 0 where
  pub seen : Db
  pub db : Db
  pub now : ℕ
  pub actor : ℕ
  pub r : ℕ
  pub to : ℕ

abbrev pub run : Transfer → Outcome DraftRefusal Db
run q = transfer q.seen q.db q.now q.actor q.r q.to

-- The checks, on the record as it was read first and as the transaction reads it.
pub record Admitted (q : Transfer) (early row : EvaluationRecord) : Type 0 where
  pub unfrozen : frozen_refusal (status_of q.db q.r) ≡ none
  -- The actor owns the record as the transaction finds it, or coordinates.
  pub entitled :
      (not (q.actor == row.owner_user_id) && not (user_has q.seen q.actor assign_training)) ≡ false
  pub changed : (q.to == row.owner_user_id) ≡ false
  pub exists : is_user q.seen q.to ≡ true
  pub eligible : (user_has q.seen q.to author_evaluation && in_scope q.seen q.to early) ≡ true

-- The database afterwards.
pub record Written (q : Transfer) (early row : EvaluationRecord) (db' : Db) : Type 0 where
  pub trainee : Text
  pub named : trainee_name {E = DraftRefusal} q.db early.enrollment_id ≡ ok trainee
  pub written : db' ≡ record q.db {
    records = set_owner row.id q.to q.db.records;
    contributor_events =
        next_contribution q.db q.r ownership_transferred q.actor (some q.to) q.now
        ∷ q.db.contributor_events;
    audit_events =
        audited draft_ownership_transferred
          (some q.actor)
          (some q.to)
          (Subject.record_row q.r)
          q.now
          q.db.audit_events;
    notices = noticed q.to draft_ownership_received (received_message trainee) q.now q.db.notices;
  }

abbrev writes : Transfer → (early row : EvaluationRecord) → Outcome DraftRefusal Db
writes q early row = do
  db₁ ← append_event q.db q.r ownership_transferred q.actor (some q.to) q.now
  db₂ ← update_owner db₁ row q.to
  db₃ ←
      record_for_subject draft_ownership_transferred (some q.actor) (some q.to)
        (Subject.record_row q.r) q.now db₂
  name ← trainee_name db₃ early.enrollment_id
  notify_user q.to draft_ownership_received (received_message name) q.now db₃

module _ (q : Transfer) (early row : EvaluationRecord) {db' : Db}
    (known : load_record q.seen q.r ≡ some early) (found : load_record q.db q.r ≡ some row)
    (h : run q ≡ ok db') where
  run-Admitted : Admitted q early row
  unfolding transfer
  run-Admitted = record {
    unfrozen = ground arith;
    entitled = ground arith;
    changed = ground arith;
    exists = ground arith;
    eligible = ground arith;
  }

  run-writes : writes q early row ≡ ok db'
  unfolding transfer
  run-writes =
      let a = run-Admitted in
      ground (arith, a.unfrozen, a.entitled, a.changed, a.exists, a.eligible)

finish-Written :
    (q : Transfer) (early row : EvaluationRecord) (trainee : Text) {db₁ db₂ db₃ db' : Db}
    → db₁ ≡ record q.db {
      contributor_events =
          next_contribution q.db q.r ownership_transferred q.actor (some q.to) q.now
          ∷ q.db.contributor_events;
    }
    → db₂ ≡ record db₁ { records = set_owner row.id q.to db₁.records }
    → db₃ ≡ record db₂ {
      audit_events =
          audited draft_ownership_transferred
            (some q.actor)
            (some q.to)
            (Subject.record_row q.r)
            q.now
            db₂.audit_events;
    }
    → trainee_name {E = DraftRefusal} db₃ early.enrollment_id ≡ ok trainee
    → db' ≡ record db₃ {
      notices = noticed q.to draft_ownership_received (received_message trainee) q.now db₃.notices;
    }
    → Written q early row db'
finish-Written q early row trainee {db₁} {db₂} {db₃} one two three named four = record {
  trainee = trainee;
  named =
      sym (
        trainee_name_same {E = DraftRefusal} q.db db₃ early.enrollment_id (cc (three, two, one))
          (cc (three, two, one)))
      ∙ named;
  written = cc (four, three, two, one);
}

writes-Written :
    (q : Transfer) (early row : EvaluationRecord) {db' : Db}
    → writes q early row ≡ ok db'
    → Written q early row db'
writes-Written q early row {db'} h =
    let (db₁, s₁, h₁) = >>=-eq-ok _ _ h in
    let (db₂, s₂, h₂) = >>=-eq-ok _ _ h₁ in
    let (db₃, s₃, h₃) = >>=-eq-ok _ _ h₂ in
    let (name, n, h₄) = >>=-eq-ok (trainee_name db₃ early.enrollment_id) _ h₃ in
    finish-Written q early row name (append_event-appends {E = DraftRefusal} _ _ _ _ _ _ s₁)
      (update_owner-sets {E = DraftRefusal} _ _ _ s₂)
      (record_for_subject-appends {E = DraftRefusal} _ _ _ _ _ _ _ s₃) n
      (notify_user-appends {E = DraftRefusal} _ _ _ _ _ h₄)

-- The answer of an admitted transfer.
pub record Transferred (q : Transfer) (db' : Db) : Type 0 where
  pub early : EvaluationRecord
  pub row : EvaluationRecord
  pub known : load_record q.seen q.r ≡ some early
  pub found : load_record q.db q.r ≡ some row
  pub admitted : Admitted q early row
  pub writing : Written q early row db'

-- A transfer that is answered passed the checks. On the state of the write transaction: the copy is not
-- frozen, the actor owns the record or else coordinates, and the recipient is not the owner. That the
-- recipient is a user and an author in scope, and that the actor coordinates, is of the state read first.
-- It sets the owner and adds the event, the audit event about the recipient and one notice, which tells
-- the recipient the trainee's name, and changes nothing else.
pub transfer-Transferred : (q : Transfer) (db' : Db) → run q ≡ ok db' → Transferred q db'
unfolding transfer
transfer-Transferred q db' h = elim (Option-cases (load_record q.seen q.r)) [
  | inl e ↦ absurd (ground arith)
  | inr (early, e) ↦ elim (Option-cases (load_record q.db q.r)) [
    | inl f ↦ absurd (ground arith)
    | inr (row, f) ↦ record {
      early = early;
      row = row;
      known = e;
      found = f;
      admitted = run-Admitted q early row e f h;
      writing = writes-Written q early row (run-writes q early row e f h);
    }
  ]
]

-- Only the named row changes.
find?-set_owner :
    (r to : ℕ) (n : ℕ) (rows : List EvaluationRecord) (row : EvaluationRecord)
    → find? (λ x. x.id == n) rows ≡ some row
    → find? (λ x. x.id == n) (set_owner r to rows)
      ≡ some (if n == r then record row { owner_user_id = to } else row)
unfolding set_owner find?
find?-set_owner r to n [] row h = absurd (ground arith)
find?-set_owner r to n (x ∷ rows) row h = elim (Bool-cases (x.id == n)) [
  | inl t ↦
      let same : x ≡ row = ground arith in
      let named = eq_of_== x.id n t in
      elim (Bool-cases (n == r)) [ inl u ↦ ground (arith, named) | inr u ↦ ground (arith, named) ]
  | inr t ↦ let rest = find?-set_owner r to n rows row (ground arith) in ground (arith, rest)
]

-- A transfer makes the recipient the owner and changes no other column of the record.
pub transfer-owner :
    (q : Transfer) (db' : Db)
    → run q ≡ ok db'
    → (row : EvaluationRecord) × (load_record q.db q.r ≡ some row)
      × (load_record db' q.r ≡ some (record row { owner_user_id = q.to }))
unfolding load_record
transfer-owner q db' h =
    let s = transfer-Transferred q db' h in
    let named : s.row.id ≡ q.r = eq_of_== _ _ (find?-sound _ q.db.records s.row s.found) in
    let moved = find?-set_owner s.row.id q.to q.r q.db.records s.row s.found in
    (
      s.row,
      s.found,
      rw (ap (λ (d : Db). d.records) s.writing.written, moved, named, ==_refl q.r) refl,
    )

-- If the amendments' marks name rows that are there, the status after a transfer is `draft`.
pub transfer-status :
    (q : Transfer) (db' : Db) → Marked q.db → run q ≡ ok db' → status_of db' q.r ≡ draft
unfolding cycle_status
transfer-status q db' m h =
    let s = transfer-Transferred q db' h in
    let w = s.writing.written in
    let c = status_of-Cycle q.db q.r m (λ e. ground (arith, s.admitted.unfrozen)) in
    let cycle =
      c.in_cycle db' (ap (λ (d : Db). d.evaluation_versions) w) (ap (λ (d : Db). d.amendments) w) in
    let newest =
      latest_contribution-fresh
        (next_contribution q.db q.r ownership_transferred q.actor (some q.to) q.now)
        q.db.contributor_events c.event_mark refl c.event_bound in
    rw (cycle, ap (λ (d : Db). d.contributor_events) w, newest) refl
