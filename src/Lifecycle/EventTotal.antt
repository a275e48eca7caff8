-- ===== src/Lifecycle/EventTotal.antt =====
-- The constraints and triggers of migrations 0005, 0006 and 0014 on the writes of
-- `record_enrollment_event` of crates/consolebook-server/src/lifecycle.rs.
use consolebook.Base.{
  ℕ, ◌≡◌, ◌≢◌, refl, true, false, Option, some, none, ◌∷◌, ◌==◌, is_some, has_length, sym, ◌∙◌,
  >>=-eq-ok, exists, exists-find?, exists_of_none, arith, ok, failed, Bool-cases, Option-cases,
  Outcome-cases, inl, inr, ◌↔◌, trim,
}
use consolebook.Audit.Effects.{record_for_subject_total}
use consolebook.Audit.Subjects.{Subject}
use consolebook.Db.{
  Db, Enrollment, EnrollmentStatus, EnrollmentEventKind, version_change, withdraw, complete,
  reinstate, enrollment_of, version_of, is_user, is_user?,
}
use consolebook.Db.Facts.{enrollment_of-All, enrollment_of-id}
use consolebook.Lifecycle.Queries.{LifecycleRefusal, status, is_version_change}
use consolebook.Lifecycle.Enrollment.{
  admit_event, event_versions, insert_enrollment_event, repoint, pins_elsewhere, is_published,
  audit_kind, record_enrollment_event,
}
use consolebook.Lifecycle.Enrollment.Accepted.{
  EventRequest, answer, lifecycle_event, EventAccepted, answer-writes, answer-EventServed, repinned,
}
use consolebook.Lifecycle.Invariant.{WellFormed}
use consolebook.Lifecycle.View.Event.{newest}

-- What the checks of a version change establish.
pub record Changes (db : Db) (row : Enrollment) (from to : Option ℕ) : Type 0 where
  pub target : ℕ
  pub leaves : from ≡ some row.program_version_id
  pub enters : to ≡ some target
  pub differs : (target == row.program_version_id) ≡ false
  pub published : is_published (version_of db target) ≡ true
  pub free : exists (pins_elsewhere row.id row.user_id target) db.enrollments ≡ false

version_change-Changes :
    (db : Db) (row : Enrollment) (to_version from to : Option ℕ)
    → event_versions db row version_change to_version ≡ ok (from, to)
    → Changes db row from to
unfolding event_versions
version_change-Changes db row none from to h = absurd (ground arith)
version_change-Changes db row (some t) from to h = record {
  target = t;
  leaves = ground arith;
  enters = ground arith;
  differs = ground arith;
  published = ground arith;
  free = ground arith;
}

pub unnamed :
    (db : Db) (row : Enrollment) (kind : EnrollmentEventKind) (to_version from to : Option ℕ)
    → is_version_change kind ≡ false
    → event_versions db row kind to_version ≡ ok (from, to)
    → (from ≡ none) × (to ≡ none)
unfolding event_versions
unnamed db row version_change to_version from to k h = absurd (ground arith)
unnamed db row withdraw to_version from to k h = (ground arith, ground arith)
unnamed db row complete to_version from to k h = (ground arith, ground arith)
unnamed db row reinstate to_version from to k h = (ground arith, ground arith)

-- The reason of a version change does not start with U+0000, where its CHECK would stop counting.
abbrev pub Storable : EventRequest → Type 0
Storable q = is_version_change q.kind ≡ true → has_length (trim q.reason) ≡ true

pub kind-Changes :
    (db : Db) (row : Enrollment) (kind : EnrollmentEventKind) (to_version from to : Option ℕ)
    → is_version_change kind ≡ true
    → event_versions db row kind to_version ≡ ok (from, to)
    → Changes db row from to
kind-Changes db row version_change to_version from to k h =
    version_change-Changes db row to_version from to h
kind-Changes db row withdraw to_version from to k h = absurd (ground arith)
kind-Changes db row complete to_version from to k h = absurd (ground arith)
kind-Changes db row reinstate to_version from to k h = absurd (ground arith)

admit-ne-failed : (kind : EnrollmentEventKind) (s : EnrollmentStatus) → admit_event kind s ≢ failed
admit-ne-failed version_change s h = ground arith
admit-ne-failed withdraw s h = ground arith
admit-ne-failed complete s h = ground arith
admit-ne-failed reinstate s h = ground arith

module _ (q : EventRequest) (row : Enrollment) (from to : Option ℕ) (w : WellFormed q.db)
    (known : is_user q.db q.actor ≡ true) (a : EventAccepted q row from to)
    (storable : Storable q) where
  abbrev grown : Db
  grown = record q.db { enrollment_events = lifecycle_event q from to ∷ q.db.enrollment_events }

  present : exists (λ r. r.id == q.e) q.db.enrollments ≡ true
  unfolding enrollment_of
  present = exists-find? _ q.db.enrollments row a.enrolled

  pin_there : is_some (version_of q.db row.program_version_id) ≡ true
  pin_there = enrollment_of-All _ q.db q.e row w.pins a.enrolled

  change_insert :
      (k : is_version_change q.kind ≡ true) (c : Changes q.db row from to)
      → insert_enrollment_event {E = LifecycleRefusal} q.db (lifecycle_event q from to) ≡ ok grown
  unfolding insert_enrollment_event lifecycle_event is_user? version_of
  change_insert k c =
      ground
        (arith, present, known, pin_there, c.leaves, c.enters, c.differs, c.published, storable k)

  plain_insert :
      (k : is_version_change q.kind ≡ false) (f : from ≡ none) (t : to ≡ none)
      → insert_enrollment_event {E = LifecycleRefusal} q.db (lifecycle_event q from to) ≡ ok grown
  unfolding insert_enrollment_event lifecycle_event is_user? version_of
  plain_insert k f t = ground (arith, present, known)

  change_repoint :
      (k : is_version_change q.kind ≡ true) (c : Changes q.db row from to)
      → repoint {E = LifecycleRefusal} grown row to
        ≡ ok (record grown { enrollments = repinned row.id to q.db.enrollments })
  unfolding repoint lifecycle_event version_of
  change_repoint k c = rw (c.enters) (
      ground (
        arith,
        c.leaves,
        c.enters,
        c.differs,
        c.published,
        c.free,
        newest q.db.enrollment_events (lifecycle_event q from to) refl,
        enrollment_of-id q.db q.e row a.enrolled,
      ))

  -- Both statements succeed, on each kind of event.
  both_written :
      (insert_enrollment_event {E = LifecycleRefusal} q.db (lifecycle_event q from to) ≡ ok grown)
      × (repoint {E = LifecycleRefusal} grown row to
          ≡ ok (record grown { enrollments = repinned row.id to q.db.enrollments }))
  unfolding repoint
  both_written = elim (Bool-cases (is_version_change q.kind)) [
    | inl k ↦
        let c = kind-Changes q.db row q.kind q.to_version from to k a.named in
        (change_insert k c, change_repoint k c)
    | inr k ↦
        let (f, t) = unnamed q.db row q.kind q.to_version from to k a.named in
        (plain_insert k f t, rw t refl)
  ]

  -- An accepted request is answered.
  answer_total : (db' : Db) × (answer q ≡ ok ((lifecycle_event q from to).id, db'))
  unfolding is_user is_user?
  answer_total =
      let (i, p) = both_written in
      let (db', e) =
        record_for_subject_total {E = LifecycleRefusal} (audit_kind q.kind) (some q.actor)
          (some row.user_id) (Subject.enrollment q.e) q.now
          (record grown { enrollments = repinned row.id to q.db.enrollments }) known
          (enrollment_of-All _ q.db q.e row w.trainees a.enrolled) in
      (db', rw (answer-writes q row from to a, i, p, e) refl)

-- A version named by the pin exists, so the checks of a version change read every row they fetch.
versions-ne-failed :
    (db : Db) (row : Enrollment) (kind : EnrollmentEventKind) (to_version : Option ℕ)
    → is_some (version_of db row.program_version_id) ≡ true
    → event_versions db row kind to_version ≢ failed
unfolding event_versions
versions-ne-failed db row version_change none p h = ground arith
versions-ne-failed db row version_change (some t) p h = ground arith
versions-ne-failed db row withdraw to_version p h = ground arith
versions-ne-failed db row complete to_version p h = ground arith
versions-ne-failed db row reinstate to_version p h = ground arith

unrefused-EventAccepted :
    (q : EventRequest) (row : Enrollment) (s : EnrollmentStatus) (from to : Option ℕ)
    → enrollment_of q.db q.e ≡ some row
    → status q.db q.e ≡ some s
    → event_versions q.db row q.kind q.to_version ≡ ok (from, to)
    → answer q ≡ failed
    → EventAccepted q row from to
unfolding record_enrollment_event
unrefused-EventAccepted q row s from to found is named h = record {
  current = s;
  authorized = ground arith;
  explained = ground arith;
  known = is;
  admitted = ground (arith, admit-ne-failed q.kind s);
  enrolled = found;
  named = named;
}

no_status : (q : EventRequest) → enrollment_of q.db q.e ≡ none → status q.db q.e ≡ none
unfolding enrollment_of status
no_status q h = rw (exists_of_none _ q.db.enrollments h) refl

-- On a well-formed database a lifecycle request by an existing user, whose reason can be stored, is
-- answered or refused: no constraint or trigger fails.
pub answer-ne-failed :
    (q : EventRequest)
    → WellFormed q.db
    → is_user q.db q.actor ≡ true
    → Storable q
    → answer q ≢ failed
unfolding record_enrollment_event
answer-ne-failed q w known storable h = elim (Option-cases (status q.db q.e)) [
  | inl none_there ↦ ground arith
  | inr (s, is) ↦ elim (Option-cases (enrollment_of q.db q.e)) [
    | inl e ↦ ground (arith, no_status q e)
    | inr (row, found) ↦ elim (Outcome-cases (event_versions q.db row q.kind q.to_version)) [
      | inl ((from, to), t) ↦
          let a = unrefused-EventAccepted q row s from to found is t h in
          let e = (answer_total q row from to w known a storable).1 in cc (e, h)
      | inr (inl t) ↦
          versions-ne-failed q.db row q.kind q.to_version
            (enrollment_of-All _ q.db q.e row w.pins found) t
      | inr (inr (x, t)) ↦ ground (arith, found, is, t, admit-ne-failed q.kind s)
    ]
  ]
]

insert-reason :
    (q : EventRequest) (from to : Option ℕ) (db₁ : Db)
    → insert_enrollment_event {E = LifecycleRefusal} q.db (lifecycle_event q from to) ≡ ok db₁
    → Storable q
unfolding insert_enrollment_event lifecycle_event
insert-reason q from to db₁ h k = ground arith

answer-Storable :
    (q : EventRequest) (row : Enrollment) (from to : Option ℕ) (id : ℕ) (db' : Db)
    → EventAccepted q row from to
    → answer q ≡ ok (id, db')
    → Storable q
answer-Storable q row from to id db' a h =
    let (db₁, i, _) = >>=-eq-ok _ _ (sym (answer-writes q row from to a) ∙ h) in
    insert-reason q from to db₁ i

-- On a well-formed database a lifecycle request by an existing user is answered if and only if it is
-- acceptable, and the reason of a version change does not start with U+0000.
pub answer-iff-EventAccepted :
    (q : EventRequest)
    → WellFormed q.db
    → is_user q.db q.actor ≡ true
    → ((id : ℕ) × (db' : Db) × (answer q ≡ ok (id, db'))) ↔ (
        (row : Enrollment) × (from : Option ℕ) × (to : Option ℕ) × EventAccepted q row from to
        × Storable q)
answer-iff-EventAccepted q w known = (
  (λ r.
      let s = answer-EventServed q r.0 r.1 r.2 in
      (
        s.row,
        s.from,
        s.to,
        s.accepted,
        answer-Storable q s.row s.from s.to r.0 r.1 s.accepted r.2,
      )),
  (λ r. let t = answer_total q r.0 r.1 r.2 w known r.3 r.4 in (_, t.0, t.1)),
)
