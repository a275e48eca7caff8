-- ===== src/Lifecycle/View/Event.antt =====
-- The queries of crates/consolebook-server/src/lifecycle.rs after one more lifecycle event.
use consolebook.Base.{
  ℕ, ◌≤◌, ◌≡◌, refl, ap, false, some, List, [], ◌∷◌, ◌==◌, ==_refl, select, find?, max_of, max?,
  top, top-cons, All, All-select, All-map, max_of-bound, max_of-select, select_none, next_id, arith,
  Bool-cases, inl, inr, if◌then◌else◌,
}
use consolebook.Db.{Enrollment, EnrollmentEvent, Phase, PhaseEvent}
use consolebook.Lifecycle.Queries.{
  later_event, status_of, status_of_latest, status_after, decides_status, change_of,
  is_version_change, current_epoch, move_of, pausing_of,
}
use consolebook.Lifecycle.Enrollment.{set_pin}
use consolebook.Lifecycle.Invariant.{stamp_bound}

-- The row of the enrollment after the update of its pin.
pub find?-set_pin :
    (e to : ℕ) (rows : List Enrollment) (row : Enrollment)
    → find? (λ r. r.id == e) rows ≡ some row
    → find? (λ r. r.id == e) (set_pin e to rows) ≡ some (record row { program_version_id = to })
unfolding find? set_pin
find?-set_pin e to [] row h = absurd (ground arith)
find?-set_pin e to (r ∷ rs) row h = ground (arith, find?-set_pin e to rs row)

pub find?-set_pin_other :
    (e other to : ℕ) (rows : List Enrollment)
    → (e == other) ≡ false
    → find? (λ r. r.id == other) (set_pin e to rows) ≡ find? (λ r. r.id == other) rows
unfolding find? set_pin
find?-set_pin_other e other to [] h = refl
find?-set_pin_other e other to (r ∷ rs) h = ground (arith, find?-set_pin_other e other to rs h)

module _ (events : List EnrollmentEvent) (ev : EnrollmentEvent)
    (fresh : ev.id ≡ next_id (λ r. r.id) events) where
  ids_below : All (λ r. later_event ev r ≡ false) events
  unfolding next_id later_event
  ids_below = All-map _ _ events (λ r b. ground arith) (max_of-bound (λ r. r.id) events)

  -- The new event is the latest of its enrollment.
  pub newest :
      top later_event (select (λ r. r.enrollment_id == ev.enrollment_id) (ev ∷ events)) ≡ some ev
  unfolding select
  newest = rw (==_refl ev.enrollment_id) (
      top-cons later_event ev (select (λ r. r.enrollment_id == ev.enrollment_id) events)
        (All-select _ (λ r. r.enrollment_id == ev.enrollment_id) events ids_below))

  -- An event that decides the status decides it alone.
  pub status-grown :
      status_of_latest (top later_event (select (status_of ev.enrollment_id) (ev ∷ events))) ≡ (
        if decides_status ev.kind
        then status_after ev.kind
        else status_of_latest (top later_event (select (status_of ev.enrollment_id) events)))
  unfolding select status_of
  status-grown = elim (Bool-cases (decides_status ev.kind)) [
    | inl t ↦
        rw (t, ==_refl ev.enrollment_id)
          (rw
            (top-cons later_event ev (select (status_of ev.enrollment_id) events)
              (All-select _ (status_of ev.enrollment_id) events ids_below))
            refl)
    | inr f ↦ rw (f, ==_refl ev.enrollment_id) refl
  ]

  -- A version change opens a new epoch, and no other event does.
  pub epoch-grown :
      current_epoch (ev ∷ events) ev.enrollment_id
      ≡ (if is_version_change ev.kind then some ev.id else current_epoch events ev.enrollment_id)
  unfolding current_epoch select change_of max? max_of next_id
  epoch-grown = elim (Bool-cases (is_version_change ev.kind)) [
    | inl t ↦
        rw (t, ==_refl ev.enrollment_id)
          (ap some (omega (arith, max_of-select (λ r. r.id) (change_of ev.enrollment_id) events)))
    | inr f ↦ rw (f, ==_refl ev.enrollment_id) refl
  ]

  -- No phase event is stamped with the new epoch yet.
  module _ (phases : List Phase) (rows : List PhaseEvent)
      (stamps : All
        (λ r. stamp_bound r.version_change_event_id ≤ max_of (λ r. r.id) events)
        rows) where
    pub moves-fresh : select (move_of (some ev.id) phases ev.enrollment_id) rows ≡ []
    unfolding move_of next_id
    moves-fresh = select_none _ rows (All-map _ _ rows (λ r b. ground arith) stamps)

    pub pausings-fresh : select (pausing_of (some ev.id) ev.enrollment_id) rows ≡ []
    unfolding pausing_of next_id
    pausings-fresh = select_none _ rows (All-map _ _ rows (λ r b. ground arith) stamps)

-- Nothing changes for another enrollment.
module _ (events : List EnrollmentEvent) (ev : EnrollmentEvent) (e : ℕ)
    (apart : (ev.enrollment_id == e) ≡ false) where
  pub status-other : select (status_of e) (ev ∷ events) ≡ select (status_of e) events
  unfolding select status_of
  status-other = rw apart refl

  pub epoch-other : current_epoch (ev ∷ events) e ≡ current_epoch events e
  unfolding current_epoch select change_of
  epoch-other = rw apart refl
