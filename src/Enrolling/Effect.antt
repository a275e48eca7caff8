-- ===== src/Enrolling/Effect.antt =====
-- What `enroll` of crates/consolebook-server/src/enrollments.rs writes, and the lifecycle that begins.
use consolebook.Base.{
  ℕ, ◌≤◌, ◌≡◌, refl, sym, ap, ◌∙◌, true, false, Option, some, none, List, [], ◌∷◌, ◌++◌, ==_refl,
  find?, max_of, next_id, select, select_none, top, All, All-map, arith, Outcome, ok, >>=-eq-ok,
  ◌>>=◌, Option-cases, inl, inr, is_some,
}
use consolebook.Audit.{record_for_subject}
use consolebook.Audit.Effects.{audited, record_for_subject-appends}
use consolebook.Audit.Vocabulary.{enrollment_created}
use consolebook.Audit.Subjects.{Subject}
use consolebook.Capability.{user_has, trainee_bundle}
use consolebook.Capability.Vocabulary.{Capability, assign_training}
use consolebook.Db.{
  Db, Grant, Enrollment, ProgramVersion, active, version_of, is_user, enrollment_of,
}
use consolebook.Enrolling.{EnrollRefusal, is_enrolled, insert_enrollment, grant_missing, enroll}
use consolebook.Enrolling.Grants.{Missing, Granted, grant_missing-Granted}
use consolebook.Lifecycle.Queries.{status_of, move_of, pausing_of, current_phase, is_paused}
use consolebook.Lifecycle.View.{view}

-- A request, on the state that was read first (`seen`) and the state of the write transaction.
pub record Joining : Type 0 where
  pub seen : Db
  pub db : Db
  pub now : ℕ
  pub actor : ℕ
  pub version_id : ℕ
  pub user_id : ℕ

abbrev pub run : Joining → Outcome EnrollRefusal (ℕ × Db)
run q = enroll q.seen q.db q.now q.actor q.version_id q.user_id

abbrev pub new_enrollment : Joining → Enrollment
new_enrollment q = record {
  id = next_id (λ row. row.id) q.db.enrollments;
  user_id = q.user_id;
  program_version_id = q.version_id;
  enrolled_at = q.now;
  enrolled_by = some q.actor;
}

-- The database afterwards. Every new grant is of a trainee capability that the user lacked.
pub record Written (q : Joining) (db' : Db) : Type 0 where
  pub new_grants : List Grant
  pub missing : All (Missing q.db q.user_id q.actor q.now trainee_bundle) new_grants
  pub written : db' ≡ record q.db {
    enrollments = new_enrollment q ∷ q.db.enrollments;
    grants = new_grants ++ q.db.grants;
    audit_events =
        audited enrollment_created
          (some q.actor)
          (some q.user_id)
          (Subject.enrollment (new_enrollment q).id)
          q.now
          q.db.audit_events;
  }

-- The answer of an acceptable request.
pub record Enrolled (q : Joining) (id : ℕ) (db' : Db) : Type 0 where
  pub version : ProgramVersion
  pub pinned : version_of q.db q.version_id ≡ some version
  pub published : is_some version.published_at ≡ true
  pub authorized : user_has q.seen q.actor assign_training ≡ true
  pub known : is_user q.db q.user_id ≡ true
  pub unenrolled : is_enrolled q.db q.user_id q.version_id ≡ false
  pub identified : id ≡ (new_enrollment q).id
  pub writing : Written q db'
  pub entitled : All (λ c. user_has db' q.user_id c ≡ true) trainee_bundle

insert_enrollment-appends :
    {E : Type 0} (db : Db) (row : Enrollment) {db' : Db}
    → insert_enrollment {E = E} db row ≡ ok db'
    → db' ≡ record db { enrollments = row ∷ db.enrollments }
unfolding insert_enrollment
insert_enrollment-appends db row h = ground arith

abbrev writes : Joining → Outcome EnrollRefusal (ℕ × Db)
writes q = do
  db₁ ← insert_enrollment q.db (new_enrollment q)
  db₂ ← grant_missing q.user_id q.actor q.now trainee_bundle db₁
  db₃ ←
      record_for_subject enrollment_created (some q.actor) (some q.user_id)
        (Subject.enrollment (new_enrollment q).id) q.now db₂
  ok ((new_enrollment q).id, db₃)

-- What a user lacks depends on the grants.
Missing-same :
    (db db₁ : Db) {user_id actor now : ℕ} {cs : List Capability} (g : Grant)
    → db₁.grants ≡ db.grants
    → Missing db₁ user_id actor now cs g
    → Missing db user_id actor now cs g
unfolding user_has
Missing-same db db₁ g same m = record {
  to_user = m.to_user;
  by_actor = m.by_actor;
  at_once = m.at_once;
  wanted = m.wanted;
  lacked = rw same at (m.lacked);
}

finish-Enrolled :
    (q : Joining) {db₁ db₂ db₃ : Db} {id : ℕ} {db' : Db}
    → db₁ ≡ record q.db { enrollments = new_enrollment q ∷ q.db.enrollments }
    → Granted db₁ q.user_id q.actor q.now trainee_bundle db₂
      × All (λ c. user_has db₂ q.user_id c ≡ true) trainee_bundle
    → db₃ ≡ record db₂ {
      audit_events =
          audited enrollment_created
            (some q.actor)
            (some q.user_id)
            (Subject.enrollment (new_enrollment q).id)
            q.now
            db₂.audit_events;
    }
    → ◌≡◌ {A = Outcome EnrollRefusal (ℕ × Db)} (ok ((new_enrollment q).id, db₃)) (ok (id, db'))
    → (id ≡ (new_enrollment q).id)
      × Written q db'
      × All (λ c. user_has db' q.user_id c ≡ true) trainee_bundle
unfolding user_has
finish-Enrolled q {db₁} {db₂ = db₂} {db₃ = db₃} {db' = db'} one (g, has) a e =
    let same : db₃ ≡ db' = cc e in
    let grants : db₂.grants ≡ db'.grants = cc (same, ap (λ (x : Db). x.grants) a) in
    (
      cc e,
      record {
        new_grants = g.new_grants;
        missing = All-map _ _ g.new_grants (λ x m. Missing-same q.db db₁ x (cc one) m) g.missing;
        written = cc (same, a, g.written, one);
      },
      rw (sym grants) has,
    )

module _ (q : Joining) (version : ProgramVersion) {id : ℕ} {db' : Db}
    (found : version_of q.db q.version_id ≡ some version) (h : run q ≡ ok (id, db')) where
  published : is_some version.published_at ≡ true
  unfolding enroll
  published = ground arith

  authorized : user_has q.seen q.actor assign_training ≡ true
  unfolding enroll
  authorized = ground arith

  known : is_user q.db q.user_id ≡ true
  unfolding enroll
  known = ground arith

  unenrolled : is_enrolled q.db q.user_id q.version_id ≡ false
  unfolding enroll
  unenrolled = ground arith

  run-writes : writes q ≡ ok (id, db')
  unfolding enroll
  run-writes =
      let same : run q ≡ writes q = rw (authorized, found, published, known, unenrolled) refl in
      sym same ∙ h

-- An enrollment that is answered was the actor's to make, of an existing user in a published version in
-- which the user was not enrolled. It adds the enrollment, the audit event about the user, and grants, each
-- by the actor to the user of a trainee capability that the user did not hold, and changes nothing else;
-- the user then holds every trainee capability.
pub enroll-Enrolled : (q : Joining) (id : ℕ) (db' : Db) → run q ≡ ok (id, db') → Enrolled q id db'
unfolding enroll
enroll-Enrolled q id db' h = elim (Option-cases (version_of q.db q.version_id)) [
  | inl e ↦ absurd (ground arith)
  | inr (version, e) ↦
      let (db₁, s₁, h₁) = >>=-eq-ok _ _ (run-writes q version e h) in
      let (db₂, s₂, h₂) = >>=-eq-ok _ _ h₁ in
      let (db₃, s₃, h₃) = >>=-eq-ok _ _ h₂ in
      let (named, w, has) =
        finish-Enrolled q (insert_enrollment-appends {E = EnrollRefusal} _ _ s₁)
          (grant_missing-Granted {E = EnrollRefusal} _ _ _ _ _ s₂)
          (record_for_subject-appends {E = EnrollRefusal} _ _ _ _ _ _ _ s₃) h₃ in
      record {
        version = version;
        pinned = e;
        published = published q version e h;
        authorized = authorized q version e h;
        known = known q version e h;
        unenrolled = unenrolled q version e h;
        identified = named;
        writing = w;
        entitled = has;
      }
]

-- If both streams are of enrollments that are there, a new enrollment is active in its version, in no
-- phase and not paused.
pub enroll-view :
    (q : Joining) (id : ℕ) (db' : Db)
    → All (λ ev. ev.enrollment_id ≤ max_of (λ row. row.id) q.db.enrollments) q.db.enrollment_events
    → All (λ ev. ev.enrollment_id ≤ max_of (λ row. row.id) q.db.enrollments) q.db.phase_events
    → run q ≡ ok (id, db')
    → view db' id
      ≡ some (record { status = active; pin = q.version_id; current = none; held = false })
unfolding view enrollment_of find? current_phase is_paused next_id status_of move_of pausing_of top
enroll-view q id db' a b h =
    let s = enroll-Enrolled q id db' h in
    let w = s.writing.written in
    let n = (new_enrollment q).id in
    let quiet : select (status_of n) q.db.enrollment_events ≡ [] =
      select_none _ q.db.enrollment_events
        (All-map _ _ q.db.enrollment_events (λ x r. ground arith) a) in
    let unmoved : (p : Option ℕ) → select (move_of p q.db.phases n) q.db.phase_events ≡ [] = λ p.
      select_none _ q.db.phase_events (All-map _ _ q.db.phase_events (λ x r. ground arith) b) in
    let unpaused : (p : Option ℕ) → select (pausing_of p n) q.db.phase_events ≡ [] = λ p.
      select_none _ q.db.phase_events (All-map _ _ q.db.phase_events (λ x r. ground arith) b) in
    rw (s.identified, w, ==_refl n, quiet, unmoved, unpaused) refl
