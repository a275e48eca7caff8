-- ===== src/Lifecycle/Refinement.antt =====
-- `record_phase_event` of crates/consolebook-server/src/lifecycle.rs against the specification of View.
use consolebook.Base.{
  ℕ, ◌≡◌, refl, ap, Bool, true, false, Option, some, none, ◌∷◌, Text, top, select, ◌==◌,
  exists_mono, find?-sound, find?_of_exists, eq_of_==, arith, ok, Bool-cases, Option-cases, inl,
  inr, if◌then◌else◌,
}
use consolebook.Db.{Db, Phase, Enrollment, PhaseEventKind, advance, enrollment_of}
use consolebook.Lifecycle.Queries.{
  is_move, is_pausing, is_pause, phase_of, current_phase, is_paused, status_of_latest, later_event,
  status_of,
}
use consolebook.Lifecycle.Phases.{phase_targets, phase_in}
use consolebook.Lifecycle.Phases.Accepted.{Request, serve, new_event, Accepted, serve-Served}
use consolebook.Lifecycle.View.{View, view, phase_id, phase_effect}
use consolebook.Lifecycle.View.Append.{
  current_phase-grown, is_paused-grown, current_phase-other, is_paused-other,
}

-- A move goes to the phase that the request names, which exists.
move-target :
    (db : Db) (pinned : ℕ) (kind : PhaseEventKind) (to_phase : Option ℕ) (cur : Option (ℕ × Text))
    (is_held : Bool) (from to : Option ℕ)
    → phase_targets db pinned kind to_phase cur is_held ≡ ok (from, to)
    → is_move kind ≡ true
    → (t : ℕ) × (to_phase ≡ some t) × (to ≡ some t) × (phase_in db pinned t ≡ true)
unfolding phase_targets
move-target db pinned kind none cur is_held from to h m = absurd (ground arith)
move-target db pinned kind (some t) cur is_held from to h m = (t, refl, ground arith, ground arith)

phase_ref-target :
    (db : Db) (pinned t : ℕ)
    → phase_in db pinned t ≡ true
    → (p : Phase) × (phase_of db.phases (some t) ≡ some p) × (p.id ≡ t)
unfolding phase_in phase_of
phase_ref-target db pinned t h =
    let (p, found) =
      find?_of_exists (λ p. p.id == t) db.phases
        (exists_mono _ _ db.phases (λ r k. ground arith) h) in
    (p, found, eq_of_== p.id t (find?-sound _ db.phases p found))

effect_parts :
    (kind : PhaseEventKind) (to : Option ℕ) (v : View)
    → record v {
      current = if is_move kind then to else v.current;
      held = if is_pausing kind then is_pause kind else v.held;
    }
      ≡ phase_effect kind to v
unfolding phase_effect
effect_parts advance to v = refl
effect_parts _ to v = refl

module _ (q : Request) (row : Enrollment) (from to : Option ℕ) (a : Accepted q row from to) where
  abbrev written : Db
  written = record q.db { phase_events = new_event q from to ∷ q.db.phase_events }

  current_after :
      phase_id (current_phase written q.e)
      ≡ (if is_move q.kind then q.to_phase else phase_id (current_phase q.db q.e))
  unfolding new_event
  current_after =
      let grown = current_phase-grown q.db (new_event q from to) refl a.in_order refl in
      elim (Bool-cases (is_move q.kind)) [
        | inl m ↦
            let (t, asked, aimed, found) =
              move-target _ _ q.kind q.to_phase _ _ from to a.targeted m in
            let (p, there, named) = phase_ref-target q.db row.program_version_id t found in
            ground (arith, grown, ap (phase_of q.db.phases) aimed)
        | inr m ↦ ground (arith, grown)
      ]

  held_after :
      is_paused written q.e ≡ (if is_pausing q.kind then is_pause q.kind else is_paused q.db q.e)
  unfolding new_event
  held_after = is_paused-grown q.db (new_event q from to) refl a.in_order refl

  abbrev view_before : View
  view_before = record {
    status = status_of_latest (top later_event (select (status_of q.e) q.db.enrollment_events));
    pin = row.program_version_id;
    current = phase_id (current_phase q.db q.e);
    held = is_paused q.db q.e;
  }

  view_written : view written q.e ≡ some (phase_effect q.kind q.to_phase view_before)
  unfolding view enrollment_of
  view_written =
      rw (a.enrolled, current_after, held_after)
        (ap some (effect_parts q.kind q.to_phase view_before))

  view_other : (other : ℕ) → (q.e == other) ≡ false → view written other ≡ view q.db other
  unfolding view enrollment_of new_event
  view_other other h = elim (Option-cases (enrollment_of q.db other)) [
    | inl e ↦ rw e refl
    | inr (r, e) ↦
        rw
          (
            e,
            current_phase-other q.db (new_event q from to) other h,
            is_paused-other q.db (new_event q from to) other h,
          )
          refl
  ]

-- A phase request that is answered has the effect of its kind on the view of its enrollment: it moves
-- the trainee to the phase asked for, or pauses, or resumes, and leaves the rest of the view.
pub serve-phase_effect :
    (q : Request) (id : ℕ) (db' : Db)
    → serve q ≡ ok (id, db')
    → (v : View) × (view q.db q.e ≡ some v)
      × (view db' q.e ≡ some (phase_effect q.kind q.to_phase v))
unfolding view current_phase is_paused enrollment_of
serve-phase_effect q id db' h =
    let s = serve-Served q id db' h in
    (
      view_before q s.row s.from s.to s.accepted,
      rw (s.accepted.enrolled) refl,
      rw (s.appended.appended) (view_written q s.row s.from s.to s.accepted),
    )

-- A phase request that is answered leaves the view of every other enrollment.
pub serve-other :
    (q : Request) (id : ℕ) (db' : Db) (other : ℕ)
    → serve q ≡ ok (id, db')
    → (q.e == other) ≡ false
    → view db' other ≡ view q.db other
unfolding view current_phase is_paused enrollment_of
serve-other q id db' other h o =
    let s = serve-Served q id db' h in
    rw (s.appended.appended) (view_other q s.row s.from s.to s.accepted other o)
