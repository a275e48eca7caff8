-- ===== src/Finalization/Effect.antt =====
-- What `finalize` of crates/consolebook-server/src/finalization.rs checks and writes.
use consolebook.Base.{
  ℕ, ◌≡◌, ap, sym, ◌∙◌, subst, true, false, Option, some, ◌∷◌, Text, next_id, arith, Outcome, ok,
  >>=-eq-ok, refuse_if-ok, fetch_one-ok, some_or_refuse-ok, eq_of_==, not-false, not, ◌==◌,
}
use consolebook.Audit.Effects.{audited, record_for_subject-appends}
use consolebook.Audit.Vocabulary.{EventKind}
use consolebook.Audit.Subjects.{Subject}
use consolebook.Notice.Vocabulary.{NoticeKind}
use consolebook.Canonical.{Value, record_schema, canonical_bytes, content_hash_hex, chain_hash_hex}
use consolebook.Canonical.Hex.{Bytes}
use consolebook.Capability.{user_has}
use consolebook.Capability.Vocabulary.{review_evaluation}
use consolebook.Db.{
  Db, EvaluationRecord, EvaluationVersion, Enrollment, User, enrollment_of, user_of,
}
use consolebook.Draft.Completion
use consolebook.Draft.Completion.{policy}
use consolebook.Draft.Status.{
  DraftStatus, OpenAmendment, load_record, open_scope, is_finalized, status_of,
}
use consolebook.Draft.Writes.{
  noticed, notify_user-appends, load_record_same, enrollment_of_same, user_of_same,
}
use consolebook.Finalization.{
  Format, FinalizeRefusal, VersionMeta, reopened, next_number, predecessor_of, predecessor_hash,
  announce, sealed_message, awaits_message, check_rules, finalize,
}
use consolebook.Finalization.Insert.{insert_version}

-- A request, on the state that was read first (`seen`) and the state of the write transaction.
pub record Sealing : Type 0 where
  pub format : Format
  pub seen : Db
  pub db : Db
  pub now : ℕ
  pub actor : ℕ
  pub r : ℕ
  pub expected_revision : ℕ

abbrev pub run : Sealing → Outcome FinalizeRefusal (VersionMeta × Db)
run q = finalize q.format q.seen q.db q.now q.actor q.r q.expected_revision

-- What the working copy meets.
pub record Complete (db : Db) (r : ℕ) (early : EvaluationRecord) : Type 0 where
  pub approved :
      (policy db early.program_version_id).review_approved ≡ true
      → status_of db r ≡ DraftStatus.approved
  pub narratives :
      (policy db early.program_version_id).required_narratives ≡ true
      → Completion.narratives_incomplete db early ≡ false
  pub ratings :
      (policy db early.program_version_id).ratings_complete ≡ true
      → Completion.ratings_incomplete db early ≡ false

-- The version that is written.
abbrev pub sealed_version : Sealing → Option OpenAmendment → Bytes → Text → EvaluationVersion
sealed_version q scope bytes chain = record {
  id = next_id (λ v. v.id) q.db.evaluation_versions;
  evaluation_record_id = q.r;
  version_number = next_number scope;
  record_schema = record_schema;
  canonical_bytes = bytes;
  content_hash = content_hash_hex q.format.sha256 bytes;
  chain_hash = chain;
  predecessor_id = predecessor_of scope;
  finalized_at = q.now;
  finalized_by = q.actor;
}

-- What the answer tells of a version.
abbrev pub meta_of : EvaluationVersion → Text → VersionMeta
meta_of v name = record {
  version_number = v.version_number;
  record_schema = v.record_schema;
  content_hash = v.content_hash;
  chain_hash = v.chain_hash;
  finalized_at = v.finalized_at;
  finalized_by = v.finalized_by;
  finalized_by_display_name = name;
}

-- Who is told: the trainee of the enrollment as it was read first, the owner, and the trainee whose name
-- the owner is told.
pub record Concerns (db : Db) (early row : EvaluationRecord) (enrollment named : Enrollment)
    (trainee : User) : Type 0 where
  pub enrolled : enrollment_of db early.enrollment_id ≡ some enrollment
  pub current : enrollment_of db row.enrollment_id ≡ some named
  pub person : user_of db named.user_id ≡ some trainee

-- The tables after the audit event and the two notices.
abbrev pub announced : Db → ℕ → ℕ → ℕ → EvaluationRecord → Enrollment → User → Db
announced db now actor r row enrollment trainee = record db {
  audit_events =
      audited EventKind.draft_finalized (some actor) (some enrollment.user_id)
        (Subject.record_row r) now db.audit_events;
  notices = noticed enrollment.user_id NoticeKind.record_awaits_acknowledgment awaits_message now (
      noticed row.owner_user_id NoticeKind.draft_finalized (sealed_message trainee.display_name) now
        db.notices);
}

-- The database afterwards.
pub record Written (q : Sealing) (v : EvaluationVersion) (early row : EvaluationRecord) (db' : Db)
    : Type 0 where
  pub enrollment : Enrollment
  pub named : Enrollment
  pub trainee : User
  pub concerns : Concerns q.db early row enrollment named trainee
  pub written :
      db'
      ≡ announced
          (record q.db { evaluation_versions = v ∷ q.db.evaluation_versions })
          q.now
          q.actor
          q.r
          row
          enrollment
          trainee

-- The answer of an admitted request.
pub record Sealed (q : Sealing) (answer : VersionMeta) (db' : Db) : Type 0 where
  pub early : EvaluationRecord
  pub row : EvaluationRecord
  pub scope : Option OpenAmendment
  pub document : Value
  pub bytes : Bytes
  pub chain : Text
  pub known : load_record q.seen q.r ≡ some early
  pub authorized : user_has q.seen q.actor review_evaluation ≡ true
  pub cycle : reopened (is_finalized q.db q.r) (open_scope q.db q.r) ≡ ok scope
  pub current : load_record q.db q.r ≡ some row
  pub viewed : q.expected_revision ≡ row.revision
  pub complete : Complete q.db q.r early
  pub read :
      q.format.envelope q.db early q.actor q.now
        (policy q.db early.program_version_id)
        (next_number scope)
        (predecessor_hash scope)
      ≡ some document
  pub canonical : canonical_bytes q.format.to_vec document ≡ some bytes
  pub chained : chain_hash_hex q.format.sha256 (predecessor_hash scope) bytes ≡ some chain
  pub told : (name : Text) × (answer ≡ meta_of (sealed_version q scope bytes chain) name)
  pub writing : Written q (sealed_version q scope bytes chain) early row db'

check_rules-Complete :
    (db : Db) (r : ℕ) (early : EvaluationRecord) {u : Unit}
    → check_rules db r early ≡ ok u
    → Complete db r early
unfolding check_rules
check_rules-Complete db r early h = record {
  approved = λ p. ground arith;
  narratives = λ p. ground arith;
  ratings = λ p. ground arith;
}

insert_version-appends :
    (db : Db) (v : EvaluationVersion) {db' : Db}
    → insert_version {E = FinalizeRefusal} db v ≡ ok db'
    → db' ≡ record db { evaluation_versions = v ∷ db.evaluation_versions }
unfolding insert_version
insert_version-appends db v h = ground arith

-- What is announced of a record.
pub record Announced (db : Db) (now actor r : ℕ) (early : EvaluationRecord) (db' : Db)
    : Type 0 where
  pub row : EvaluationRecord
  pub enrollment : Enrollment
  pub named : Enrollment
  pub trainee : User
  pub found : load_record db r ≡ some row
  pub concerns : Concerns db early row enrollment named trainee
  pub written : db' ≡ announced db now actor r row enrollment trainee

announce-Announced :
    (db₁ : Db) (now actor r : ℕ) (early : EvaluationRecord) {db' : Db}
    → announce db₁ now actor r early ≡ ok db'
    → Announced db₁ now actor r early db'
unfolding announce
announce-Announced db₁ now actor r early h =
    let (e, x, h₁) = fetch_one-ok (enrollment_of db₁ early.enrollment_id) _ h in
    let (db₂, s, h₂) = >>=-eq-ok _ _ h₁ in
    let (row, f, h₃) = fetch_one-ok (load_record db₂ r) _ h₂ in
    let (n, y, h₄) = fetch_one-ok (enrollment_of db₂ row.enrollment_id) _ h₃ in
    let (t, z, h₅) = fetch_one-ok (user_of db₂ n.user_id) _ h₄ in
    let (db₃, m, h₆) = >>=-eq-ok _ _ h₅ in
    let one = record_for_subject-appends {E = FinalizeRefusal} _ _ _ _ _ _ _ s in
    let two = notify_user-appends {E = FinalizeRefusal} _ _ _ _ _ m in
    let three = notify_user-appends {E = FinalizeRefusal} _ _ _ _ _ h₆ in
    record {
      row = row;
      enrollment = e;
      named = n;
      trainee = t;
      found = sym (load_record_same db₁ db₂ r (cc one)) ∙ f;
      concerns = record {
        enrolled = x;
        current = sym (enrollment_of_same db₁ db₂ row.enrollment_id (cc one)) ∙ y;
        person = sym (user_of_same db₁ db₂ n.user_id (cc one)) ∙ z;
      };
      written =
          three
          ∙ ap
              (λ (d : Db). record d {
                notices =
                    noticed e.user_id NoticeKind.record_awaits_acknowledgment awaits_message now
                      d.notices;
              })
              two
          ∙ ap
              (λ (d : Db). record d {
                notices =
                    noticed e.user_id NoticeKind.record_awaits_acknowledgment awaits_message now (
                      noticed row.owner_user_id NoticeKind.draft_finalized
                        (sealed_message t.display_name) now d.notices);
              })
              one;
    }

told_apart :
    (a b : VersionMeta) (d e : Db)
    → ◌≡◌ {A = Outcome FinalizeRefusal (VersionMeta × Db)} (ok (a, d)) (ok (b, e))
    → (a ≡ b) × (d ≡ e)
told_apart a b d e h = (cc, cc)

finish-Written :
    (q : Sealing) (v : EvaluationVersion) (early row : EvaluationRecord) {db₁ db₂ db' : Db}
    → load_record q.db q.r ≡ some row
    → db₁ ≡ record q.db { evaluation_versions = v ∷ q.db.evaluation_versions }
    → Announced db₁ q.now q.actor q.r early db₂
    → db₂ ≡ db'
    → Written q v early row db'
finish-Written q v early row {db₁} found one two same =
    let kept : two.row ≡ row = cc (load_record_same q.db db₁ q.r (cc one), two.found, found) in
    let c = two.concerns in
    record {
      enrollment = two.enrollment;
      named = two.named;
      trainee = two.trainee;
      concerns = record {
        enrolled = sym (enrollment_of_same q.db db₁ early.enrollment_id (cc one)) ∙ c.enrolled;
        current =
            sym (enrollment_of_same q.db db₁ row.enrollment_id (cc one))
            ∙ subst (λ (x : EvaluationRecord). enrollment_of db₁ x.enrollment_id ≡ some two.named)
                kept c.current;
        person = sym (user_of_same q.db db₁ two.named.user_id (cc one)) ∙ c.person;
      };
      written = cc (same, two.written, one, kept);
    }

-- A sealed version passed the checks: the actor may review, the revision is the one that was viewed, the
-- copy meets the rules, and a finalized record has an open amendment. It adds the version, whose content
-- hash is that of the canonical bytes of the document and whose chain hash covers the predecessor's, the
-- audit event about the trainee and two notices, one that tells the owner the trainee's name and one to
-- the trainee, changes nothing else, and is what the answer tells.
pub finalize-Sealed :
    (q : Sealing) (answer : VersionMeta) (db' : Db) → run q ≡ ok (answer, db') → Sealed q answer db'
unfolding finalize
finalize-Sealed q answer db' h =
    let (early, k, h₁) = some_or_refuse-ok (load_record q.seen q.r) _ _ h in
    let (a, h₂) = refuse_if-ok (not (user_has q.seen q.actor review_evaluation)) _ _ h₁ in
    let (scope, c, h₃) = >>=-eq-ok (reopened (is_finalized q.db q.r) (open_scope q.db q.r)) _ h₂ in
    let (row, l, h₄) = fetch_one-ok (load_record q.db q.r) _ h₃ in
    let (v, h₅) = refuse_if-ok (not (q.expected_revision == row.revision)) _ _ h₄ in
    let (_, w, h₆) = >>=-eq-ok (check_rules q.db q.r early) _ h₅ in
    let (document, d, h₇) =
      fetch_one-ok
        (q.format.envelope q.db early q.actor q.now (policy q.db early.program_version_id)
          (next_number scope) (predecessor_hash scope))
        _ h₆ in
    let (bytes, b, h₈) = fetch_one-ok (canonical_bytes q.format.to_vec document) _ h₇ in
    let (chain, p, h₉) =
      fetch_one-ok (chain_hash_hex q.format.sha256 (predecessor_hash scope) bytes) _ h₈ in
    let (db₁, s, t₁) = >>=-eq-ok (insert_version q.db (sealed_version q scope bytes chain)) _ h₉ in
    let (db₂, n, t₂) = >>=-eq-ok (announce db₁ q.now q.actor q.r early) _ t₁ in
    let (sealer, _, t₃) = fetch_one-ok (user_of db₂ q.actor) _ t₂ in
    let (answered, same) = told_apart _ _ _ _ t₃ in
    record {
      early = early;
      row = row;
      scope = scope;
      document = document;
      bytes = bytes;
      chain = chain;
      known = k;
      authorized = not-false _ a;
      cycle = c;
      current = l;
      viewed = eq_of_== _ _ (not-false _ v);
      complete = check_rules-Complete q.db q.r early w;
      read = d;
      canonical = b;
      chained = p;
      told = (sealer.display_name, sym answered);
      writing =
          finish-Written q (sealed_version q scope bytes chain) early row l
            (insert_version-appends q.db (sealed_version q scope bytes chain) s)
            (announce-Announced db₁ q.now q.actor q.r early n) same;
    }
