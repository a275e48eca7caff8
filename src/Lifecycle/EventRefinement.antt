-- ===== src/Lifecycle/EventRefinement.antt =====
-- `record_enrollment_event` of crates/consolebook-server/src/lifecycle.rs against the specification of
-- View.
use consolebook.Base.{
  ℕ, ◌≡◌, refl, sym, ap, subst, false, Option, some, none, ◌∷◌, top, select, find?, ◌==◌, arith, ok,
  Bool-cases, Option-cases, inl, inr, if◌then◌else◌,
}
use consolebook.Db.{
  Db, Enrollment, EnrollmentEventKind, version_change, withdraw, complete, reinstate, enrollment_of,
}
use consolebook.Db.Facts.{enrollment_of-id}
use consolebook.Lifecycle.Queries.{
  current_phase, is_paused, status_of_latest, later_event, status_of, is_version_change,
  decides_status, status_after,
}
use consolebook.Lifecycle.Enrollment.{event_versions}
use consolebook.Lifecycle.Enrollment.Accepted.{
  EventRequest, answer, lifecycle_event, EventAccepted, answer-EventServed, repinned,
}
use consolebook.Lifecycle.Invariant.{WellFormed}
use consolebook.Lifecycle.View.{View, view, phase_id, enrollment_effect, repin}
use consolebook.Lifecycle.View.Event.{
  find?-set_pin, find?-set_pin_other, status-grown, epoch-grown, moves-fresh, pausings-fresh,
  status-other, epoch-other,
}

-- Only a version change names versions: the one asked for is pinned.
named-to :
    (db : Db) (row : Enrollment) (kind : EnrollmentEventKind) (to_version from to : Option ℕ)
    → event_versions db row kind to_version ≡ ok (from, to)
    → (if is_version_change kind then to ≡ to_version else to ≡ none)
unfolding event_versions
named-to db row version_change none from to h = ground arith
named-to db row version_change (some t) from to h = ground arith
named-to db row withdraw to_version from to h = ground arith
named-to db row complete to_version from to h = ground arith
named-to db row reinstate to_version from to h = ground arith

event_effect_parts :
    (kind : EnrollmentEventKind) (to_version to : Option ℕ) (v : View)
    → (if is_version_change kind then to ≡ to_version else to ≡ none)
    → record v {
      status = if decides_status kind then status_after kind else v.status;
      pin = repin to v.pin;
      current = if is_version_change kind then none else v.current;
      held = if is_version_change kind then false else v.held;
    }
      ≡ enrollment_effect kind to_version v
unfolding enrollment_effect
event_effect_parts version_change to_version to v h = rw h refl
event_effect_parts _ to_version to v h = rw h refl

repinned-row :
    (db : Db) (e : ℕ) (row : Enrollment) (to : Option ℕ)
    → enrollment_of db e ≡ some row
    → find? (λ r. r.id == e) (repinned e to db.enrollments)
      ≡ some (record row { program_version_id = repin to row.program_version_id })
unfolding enrollment_of
repinned-row db e row none found = found
repinned-row db e row (some t) found = find?-set_pin e t db.enrollments row found

module _ (q : EventRequest) (row : Enrollment) (from to : Option ℕ) (w : WellFormed q.db)
    (a : EventAccepted q row from to) where
  abbrev pub written : Db
  written = record q.db {
    enrollments = repinned row.id to q.db.enrollments;
    enrollment_events = lifecycle_event q from to ∷ q.db.enrollment_events;
  }

  abbrev event_view_before : View
  event_view_before = record {
    status = status_of_latest (top later_event (select (status_of q.e) q.db.enrollment_events));
    pin = row.program_version_id;
    current = phase_id (current_phase q.db q.e);
    held = is_paused q.db q.e;
  }

  current_written :
      phase_id (current_phase written q.e)
      ≡ (if is_version_change q.kind then none else phase_id (current_phase q.db q.e))
  unfolding current_phase lifecycle_event top
  current_written =
      let epoch = epoch-grown q.db.enrollment_events (lifecycle_event q from to) refl in
      elim (Bool-cases (is_version_change q.kind)) [
        | inl t ↦
            rw (epoch, t)
              (rw
                (moves-fresh q.db.enrollment_events (lifecycle_event q from to) refl q.db.phases
                  q.db.phase_events w.stamps)
                refl)
        | inr f ↦ rw (epoch, f) refl
      ]

  held_written :
      is_paused written q.e ≡ (if is_version_change q.kind then false else is_paused q.db q.e)
  unfolding is_paused lifecycle_event top
  held_written =
      let epoch = epoch-grown q.db.enrollment_events (lifecycle_event q from to) refl in
      elim (Bool-cases (is_version_change q.kind)) [
        | inl t ↦
            rw (epoch, t)
              (rw
                (pausings-fresh q.db.enrollment_events (lifecycle_event q from to) refl q.db.phases
                  q.db.phase_events w.stamps)
                refl)
        | inr f ↦ rw (epoch, f) refl
      ]

  status_written :
      status_of_latest (top later_event (select (status_of q.e) written.enrollment_events))
      ≡ (if decides_status q.kind then status_after q.kind else event_view_before.status)
  unfolding lifecycle_event
  status_written = status-grown q.db.enrollment_events (lifecycle_event q from to) refl

  pub row_written :
      enrollment_of written q.e
      ≡ some (record row { program_version_id = repin to row.program_version_id })
  unfolding enrollment_of
  row_written =
      subst
        (λ n.
          find? (λ r. r.id == q.e) (repinned n to q.db.enrollments)
          ≡ some (record row { program_version_id = repin to row.program_version_id }))
        (sym (enrollment_of-id q.db q.e row a.enrolled)) (repinned-row q.db q.e row to a.enrolled)

  event_view_written :
      view written q.e ≡ some (enrollment_effect q.kind q.to_version event_view_before)
  unfolding view
  event_view_written =
      rw (row_written, current_written, held_written, status_written)
        (ap some (
          event_effect_parts q.kind q.to_version to event_view_before
            (named-to q.db row q.kind q.to_version from to a.named)))

  repinned-other :
      (other : ℕ)
      → (q.e == other) ≡ false
      → (t : Option ℕ)
      → find? (λ r. r.id == other) (repinned q.e t q.db.enrollments)
        ≡ find? (λ r. r.id == other) q.db.enrollments
  repinned-other other h none = refl
  repinned-other other h (some t) = find?-set_pin_other q.e other t q.db.enrollments h

  pub row_other :
      (other : ℕ) → (q.e == other) ≡ false → enrollment_of written other ≡ enrollment_of q.db other
  unfolding enrollment_of
  row_other other h =
      subst
        (λ n.
          find? (λ r. r.id == other) (repinned n to q.db.enrollments)
          ≡ find? (λ r. r.id == other) q.db.enrollments)
        (sym (enrollment_of-id q.db q.e row a.enrolled)) (repinned-other other h to)

  event_view_other : (other : ℕ) → (q.e == other) ≡ false → view written other ≡ view q.db other
  unfolding view current_phase is_paused lifecycle_event
  event_view_other other h =
      let ev = lifecycle_event q from to in
      rw (row_other other h) (elim (Option-cases (enrollment_of q.db other)) [
        | inl e ↦ rw e refl
        | inr (r, e) ↦
            rw
              (
                e,
                status-other q.db.enrollment_events ev other h,
                epoch-other q.db.enrollment_events ev other h,
              )
              refl
      ])

-- On a well-formed database a lifecycle request that is answered has the effect of its kind on the view
-- of its enrollment: it withdraws, completes or reinstates, or it pins the version asked for and then the
-- trainee is in no phase and not paused.
pub answer-enrollment_effect :
    (q : EventRequest) (id : ℕ) (db' : Db)
    → WellFormed q.db
    → answer q ≡ ok (id, db')
    → (v : View) × (view q.db q.e ≡ some v)
      × (view db' q.e ≡ some (enrollment_effect q.kind q.to_version v))
unfolding view current_phase is_paused enrollment_of
answer-enrollment_effect q id db' w h =
    let s = answer-EventServed q id db' h in
    (
      event_view_before q s.row s.from s.to w s.accepted,
      rw (s.accepted.enrolled) refl,
      rw (s.appended.appended) (event_view_written q s.row s.from s.to w s.accepted),
    )

-- On a well-formed database a lifecycle request that is answered leaves the view of every other
-- enrollment.
pub answer-other :
    (q : EventRequest) (id : ℕ) (db' : Db) (other : ℕ)
    → WellFormed q.db
    → answer q ≡ ok (id, db')
    → (q.e == other) ≡ false
    → view db' other ≡ view q.db other
unfolding view current_phase is_paused enrollment_of
answer-other q id db' other w h o =
    let s = answer-EventServed q id db' h in
    rw (s.appended.appended) (event_view_other q s.row s.from s.to w s.accepted other o)
