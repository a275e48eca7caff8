-- ===== src/Lifecycle/EventPreserve.antt =====
-- `record_enrollment_event` of crates/consolebook-server/src/lifecycle.rs and the invariant.
use consolebook.Base.{
  ℕ, ◌≤◌, ◌≡◌, refl, sym, ◌∙◌, subst, true, false, Option, some, none, List, [], ◌∷◌, ◌==◌,
  eq_of_==, is_some, All, All-map, Distinct, max_of, next_id, arith, ok, Bool-cases, inl, inr,
}
use consolebook.Db.{
  Db, Enrollment, EnrollmentEvent, Phase, PhaseEvent, AuditEvent, enrollment_of, is_user,
  version_of,
}
use consolebook.Lifecycle.Queries.{current_epoch, move_of, is_version_change}
use consolebook.Lifecycle.Phases.{pins_phase}
use consolebook.Lifecycle.Enrollment.{set_pin}
use consolebook.Lifecycle.Enrollment.Accepted.{
  EventRequest, answer, lifecycle_event, EventAccepted, answer-EventServed, repinned,
}
use consolebook.Lifecycle.EventRefinement.{row_other}
use consolebook.Lifecycle.EventTotal.{kind-Changes, unnamed}
use consolebook.Lifecycle.Invariant.{WellFormed, stamp_bound}
use consolebook.Lifecycle.View.Event.{epoch-grown, epoch-other}

set_pin-All {ℓ} :
    (P : Enrollment → Type ℓ) (e to : ℕ) (rows : List Enrollment)
    → ((r : Enrollment) → P r → P (record r { program_version_id = to }))
    → All P rows
    → All P (set_pin e to rows)
unfolding set_pin
set_pin-All P e to [] f h = tt
set_pin-All P e to (r ∷ rs) f h = elim (Bool-cases (r.id == e)) [
  | inl t ↦ rw t (f r h.0, set_pin-All P e to rs f h.1)
  | inr n ↦ rw n (h.0, set_pin-All P e to rs f h.1)
]

repinned-All {ℓ} :
    (P : Enrollment → Type ℓ) (e : ℕ) (to : Option ℕ) (rows : List Enrollment)
    → ((r : Enrollment) (t : ℕ) → to ≡ some t → P r → P (record r { program_version_id = t }))
    → All P rows
    → All P (repinned e to rows)
repinned-All P e none rows f h = h
repinned-All P e (some t) rows f h = set_pin-All P e t rows (λ r p. f r t refl p) h

set_pin-Distinct :
    (e to : ℕ) (rows : List Enrollment)
    → Distinct (λ r. r.id) rows
    → Distinct (λ r. r.id) (set_pin e to rows)
unfolding set_pin
set_pin-Distinct e to [] h = tt
set_pin-Distinct e to (r ∷ rs) h = elim (Bool-cases (r.id == e)) [
  | inl t ↦ rw t (set_pin-All _ e to rs (λ s p. p) h.0, set_pin-Distinct e to rs h.1)
  | inr n ↦ rw n (set_pin-All _ e to rs (λ s p. p) h.0, set_pin-Distinct e to rs h.1)
]

repinned-Distinct :
    (e : ℕ) (to : Option ℕ) (rows : List Enrollment)
    → Distinct (λ r. r.id) rows
    → Distinct (λ r. r.id) (repinned e to rows)
repinned-Distinct e none rows h = h
repinned-Distinct e (some t) rows h = set_pin-Distinct e t rows h

-- No phase event carries the identifier of an event that is only now recorded.
fresh_pinned :
    (events : List EnrollmentEvent) (ev : EnrollmentEvent)
    → ev.id ≡ next_id (λ r. r.id) events
    → (phases : List Phase) (e pin : ℕ) (rows : List PhaseEvent)
    → All (λ r. stamp_bound r.version_change_event_id ≤ max_of (λ r. r.id) events) rows
    → All
        (λ r. move_of (some ev.id) phases e r ≡ true → pins_phase phases pin r.to_phase_id ≡ true)
        rows
unfolding move_of next_id
fresh_pinned events ev fresh phases e pin rows h =
    All-map _ _ rows (λ r b m. absurd (ground arith)) h

module _ (q : EventRequest) (row : Enrollment) (from to : Option ℕ) (w : WellFormed q.db)
    (a : EventAccepted q row from to) (audit : AuditEvent) where
  abbrev after : Db
  after = record q.db {
    enrollments = repinned row.id to q.db.enrollments;
    enrollment_events = lifecycle_event q from to ∷ q.db.enrollment_events;
    audit_events = audit ∷ q.db.audit_events;
  }

  -- A version that becomes a pin exists.
  target_there : (t : ℕ) → to ≡ some t → is_some (version_of q.db t) ≡ true
  target_there t asked = elim (Bool-cases (is_version_change q.kind)) [
    | inl k ↦
        let c = kind-Changes q.db row q.kind q.to_version from to k a.named in
        ground (arith, c.enters, c.published)
    | inr k ↦ cc (asked, (unnamed q.db row q.kind q.to_version from to k a.named).1)
  ]

  -- After a version change no event is of the current epoch; otherwise nothing moved.
  own_pinned :
      (other : Enrollment)
      → enrollment_of after q.e ≡ some other
      → All
          (λ ev.
            move_of (current_epoch after.enrollment_events q.e) q.db.phases q.e ev ≡ true
            → pins_phase q.db.phases other.program_version_id ev.to_phase_id ≡ true)
          q.db.phase_events
  unfolding enrollment_of lifecycle_event
  own_pinned other found =
      let ev = lifecycle_event q from to in
      let epoch = epoch-grown q.db.enrollment_events ev refl in
      elim (Bool-cases (is_version_change q.kind)) [
        | inl k ↦ rw epoch (
            rw k (
              fresh_pinned q.db.enrollment_events ev refl q.db.phases q.e other.program_version_id
                q.db.phase_events w.stamps))
        | inr k ↦
            let (f, t) = unnamed q.db row q.kind q.to_version from to k a.named in
            rw epoch (rw k (w.epoch_pinned q.e other (rw t at found)))
      ]

  other_pinned :
      (e : ℕ) (other : Enrollment)
      → (q.e == e) ≡ false
      → enrollment_of after e ≡ some other
      → All
          (λ ev.
            move_of (current_epoch after.enrollment_events e) q.db.phases e ev ≡ true
            → pins_phase q.db.phases other.program_version_id ev.to_phase_id ≡ true)
          q.db.phase_events
  unfolding enrollment_of lifecycle_event
  other_pinned e other apart found =
      rw (epoch-other q.db.enrollment_events (lifecycle_event q from to) e apart)
        (w.epoch_pinned e other (sym (row_other q row from to w a e apart) ∙ found))

  pinned_after :
      (e : ℕ) (other : Enrollment)
      → enrollment_of after e ≡ some other
      → All
          (λ ev.
            move_of (current_epoch after.enrollment_events e) q.db.phases e ev ≡ true
            → pins_phase q.db.phases other.program_version_id ev.to_phase_id ≡ true)
          q.db.phase_events
  pinned_after e other found = elim (Bool-cases (q.e == e)) [
    | inl t ↦
        subst
          (λ n.
            enrollment_of after n ≡ some other
            → All
                (λ ev.
                  move_of (current_epoch after.enrollment_events n) q.db.phases n ev ≡ true
                  → pins_phase q.db.phases other.program_version_id ev.to_phase_id ≡ true)
                q.db.phase_events)
          (eq_of_== q.e e t) (own_pinned other) found
    | inr n ↦ other_pinned e other n found
  ]

  after-WellFormed : WellFormed after
  unfolding is_user version_of lifecycle_event max_of
  after-WellFormed = record {
    phase_ids = w.phase_ids;
    enrollment_ids = repinned-Distinct row.id to q.db.enrollments w.enrollment_ids;
    trainees = repinned-All _ row.id to q.db.enrollments (λ r t e h. h) w.trainees;
    pins = repinned-All _ row.id to q.db.enrollments (λ r t e h. target_there t e) w.pins;
    stamps = All-map _ _ q.db.phase_events (λ r h. omega arith) w.stamps;
    epoch_pinned = pinned_after;
  }

-- Recording a lifecycle event keeps the tables well formed.
pub answer-WellFormed :
    (q : EventRequest) (id : ℕ) (db' : Db)
    → WellFormed q.db
    → answer q ≡ ok (id, db')
    → WellFormed db'
answer-WellFormed q id db' w h =
    let s = answer-EventServed q id db' h in
    subst WellFormed (sym s.appended.appended)
      (after-WellFormed q s.row s.from s.to w s.accepted s.appended.audit)
