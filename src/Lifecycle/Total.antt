-- ===== src/Lifecycle/Total.antt =====
-- The constraints and triggers of migration 0006 on the writes of `record_phase_event` of
-- crates/consolebook-server/src/lifecycle.rs.
use consolebook.Base.{
  ℕ, ◌≡◌, ◌≢◌, refl, sym, Bool, true, Option, some, none, List, ◌∷◌, Text, ◌==◌, All-select, select,
  select_only, All-both, All-map, top, top-All, exists_of_none, find?, ◌↔◌, find?-Distinct,
  find?-sound, eq_of_==, arith, ok, failed, Option-cases, Outcome-cases, inl, inr, same_option_refl,
}
use consolebook.Audit.Effects.{record_for_subject_total}
use consolebook.Audit.Vocabulary.{phase_event_recorded}
use consolebook.Audit.Subjects.{Subject}
use consolebook.Db.{
  Db, Phase, Enrollment, PhaseEvent, PhaseEventKind, enrollment_of, is_user, is_user?,
}
use consolebook.Db.Facts.{enrollment_of-All}
use consolebook.Lifecycle.Queries.{
  LifecycleRefusal, current_phase, current_epoch, is_paused, status, move_of, phase_of, phase_ref,
  phase_of_latest, later_phase,
}
use consolebook.Lifecycle.Phases.{
  phase_targets, phase_in, pins_phase, phase_shape, insert_phase_event, record_phase_event,
}
use consolebook.Lifecycle.Phases.Accepted.{
  Request, serve, new_event, Accepted, serve-writes, serve-Served,
}
use consolebook.Lifecycle.Invariant.{WellFormed}

phase_in-pins :
    (db : Db) (pinned t : ℕ)
    → WellFormed db
    → phase_in db pinned t ≡ true
    → pins_phase db.phases pinned (some t) ≡ true
unfolding phase_in phase_of
phase_in-pins db pinned t w h =
    let (p, found, there) =
      find?-Distinct (λ p. p.id) (λ p. p.program_version_id == pinned) t db.phases w.phase_ids h in
    rw found there

ref-pins :
    (phases : List Phase) (pinned : ℕ) (to : Option ℕ) (from : ℕ) (name : Text)
    → pins_phase phases pinned to ≡ true
    → phase_ref (phase_of phases to) ≡ some (from, name)
    → pins_phase phases pinned (some from) ≡ true
unfolding phase_of
ref-pins phases pinned none from name h e = absurd (ground arith)
ref-pins phases pinned (some t) from name h e =
    elim (Option-cases (find? (λ p. p.id == t) phases)) [
      | inl missing ↦ absurd (ground arith)
      | inr (p, found) ↦
          let same : p.id ≡ t = eq_of_== p.id t (find?-sound _ phases p found) in
          let asked : t ≡ from = ground arith in rw (sym asked) h
    ]

latest-pins :
    (phases : List Phase) (pinned : ℕ) (o : Option PhaseEvent) (from : ℕ) (name : Text)
    → ((ev : PhaseEvent) → o ≡ some ev → pins_phase phases pinned ev.to_phase_id ≡ true)
    → phase_of_latest phases o ≡ some (from, name)
    → pins_phase phases pinned (some from) ≡ true
latest-pins phases pinned none from name h e = absurd (ground arith)
latest-pins phases pinned (some ev) from name h e =
    ref-pins phases pinned ev.to_phase_id from name (h ev refl) e

-- The phase that the queries find is a phase of the pinned version.
pub current_phase-pins :
    (db : Db) (e : ℕ) (row : Enrollment) (from : ℕ) (name : Text)
    → WellFormed db
    → enrollment_of db e ≡ some row
    → current_phase db e ≡ some (from, name)
    → pins_phase db.phases row.program_version_id (some from) ≡ true
unfolding current_phase
current_phase-pins db e row from name w found h =
    let p = move_of (current_epoch db.enrollment_events e) db.phases e in
    let pinned =
      All-map _ (λ ev. pins_phase db.phases row.program_version_id ev.to_phase_id ≡ true)
        (select p db.phase_events) (λ ev b. b.0 b.1)
        (All-both _ _ (select p db.phase_events)
          (All-select _ p db.phase_events (w.epoch_pinned e row found))
          (select_only p db.phase_events)) in
    latest-pins db.phases row.program_version_id (top later_phase (select p db.phase_events)) from
      name (λ ev t. top-All _ later_phase (select p db.phase_events) ev pinned t) h

-- The phases that an accepted event names are as the CHECK and the trigger want them.
pub targets-pins :
    (db : Db) (pinned : ℕ) (kind : PhaseEventKind) (to_phase : Option ℕ) (cur : Option (ℕ × Text))
    (is_held : Bool) (from to : Option ℕ)
    → WellFormed db
    → ((id : ℕ) (name : Text)
        → cur ≡ some (id, name)
        → pins_phase db.phases pinned (some id) ≡ true)
    → phase_targets db pinned kind to_phase cur is_held ≡ ok (from, to)
    → (phase_shape kind from to ≡ true)
      × (pins_phase db.phases pinned from ≡ true)
      × (pins_phase db.phases pinned to ≡ true)
unfolding phase_targets
targets-pins db pinned kind none none is_held from to w c h = ground arith
targets-pins db pinned kind none (some (id, name)) is_held from to w c h =
    ground (arith, c id name refl)
targets-pins db pinned kind (some t) none is_held from to w c h =
    ground (arith, phase_in-pins db pinned t w)
targets-pins db pinned kind (some t) (some (id, name)) is_held from to w c h =
    ground (arith, c id name refl, phase_in-pins db pinned t w)

module _ (q : Request) (row : Enrollment) (from to : Option ℕ) (w : WellFormed q.db)
    (known : is_user q.db q.actor ≡ true) (a : Accepted q row from to) where
  abbrev inserted : Db
  inserted = record q.db { phase_events = new_event q from to ∷ q.db.phase_events }

  insert_total : insert_phase_event {E = LifecycleRefusal} q.db (new_event q from to) ≡ ok inserted
  unfolding insert_phase_event new_event is_user?
  insert_total = ground (
    arith,
    targets-pins q.db row.program_version_id q.kind q.to_phase _ _ from to w
        (λ id name e. current_phase-pins q.db q.e row id name w a.enrolled e) a.targeted,
    same_option_refl (current_epoch q.db.enrollment_events q.e),
    a.not_future,
    a.enrolled,
    known,
  )

  -- An accepted request is answered: no constraint, foreign key or trigger of the database fails.
  pub serve_total : (db' : Db) × (serve q ≡ ok ((new_event q from to).id, db'))
  unfolding is_user is_user?
  serve_total =
      let (db', e) =
        record_for_subject_total {E = LifecycleRefusal} phase_event_recorded (some q.actor)
          (some row.user_id) (Subject.enrollment q.e) q.now inserted known
          (enrollment_of-All _ q.db q.e row w.trainees a.enrolled) in
      (db', rw (serve-writes q row from to a, insert_total, e) refl)

targets-ne-failed :
    (db : Db) (pinned : ℕ) (kind : PhaseEventKind) (to_phase : Option ℕ) (cur : Option (ℕ × Text))
    (is_held : Bool)
    → phase_targets db pinned kind to_phase cur is_held ≢ failed
unfolding phase_targets
targets-ne-failed db pinned kind none none is_held h = ground arith
targets-ne-failed db pinned kind none (some (id, name)) is_held h = ground arith
targets-ne-failed db pinned kind (some t) none is_held h = ground arith
targets-ne-failed db pinned kind (some t) (some (id, name)) is_held h = ground arith

unrefused-Accepted :
    (q : Request) (row : Enrollment) (from to : Option ℕ)
    → enrollment_of q.db q.e ≡ some row
    → phase_targets q.db row.program_version_id q.kind q.to_phase
        (current_phase q.db q.e)
        (is_paused q.db q.e)
      ≡ ok (from, to)
    → serve q ≡ failed
    → Accepted q row from to
unfolding record_phase_event
unrefused-Accepted q row from to found aimed h = record {
  authorized = ground arith;
  explained = ground arith;
  not_future = ground arith;
  is_active = ground arith;
  in_order = ground arith;
  in_epoch = ground arith;
  enrolled = found;
  targeted = aimed;
}

no_enrollment : (q : Request) → enrollment_of q.db q.e ≡ none → status q.db q.e ≡ none
unfolding enrollment_of status
no_enrollment q h = rw (exists_of_none _ q.db.enrollments h) refl

-- On a well-formed database a phase request by an existing user is answered or refused: no constraint or
-- trigger fails.
pub serve-ne-failed :
    (q : Request) → WellFormed q.db → is_user q.db q.actor ≡ true → serve q ≢ failed
unfolding record_phase_event
serve-ne-failed q w known h = elim (Option-cases (enrollment_of q.db q.e)) [
  | inl none_there ↦ ground (arith, no_enrollment q none_there)
  | inr (row, found) ↦
      elim (Outcome-cases (
        phase_targets q.db row.program_version_id q.kind q.to_phase (current_phase q.db q.e)
          (is_paused q.db q.e))) [
            | inl ((from, to), t) ↦
                let a = unrefused-Accepted q row from to found t h in
                let e = (serve_total q row from to w known a).1 in cc (e, h)
            | inr (inl t) ↦ absurd (targets-ne-failed _ _ _ _ _ _ t)
            | inr (inr (x, t)) ↦ ground (arith, found, t)
          ]
]

-- On a well-formed database a phase request by an existing user is answered if and only if it is
-- acceptable.
pub serve-iff-Accepted :
    (q : Request)
    → WellFormed q.db
    → is_user q.db q.actor ≡ true
    → ((id : ℕ) × (db' : Db) × (serve q ≡ ok (id, db')))
      ↔ ((row : Enrollment) × (from : Option ℕ) × (to : Option ℕ) × Accepted q row from to)
serve-iff-Accepted q w known = (
  (λ r. let s = serve-Served q r.0 r.1 r.2 in (s.row, s.from, s.to, s.accepted)),
  (λ r. let t = serve_total q r.0 r.1 r.2 w known r.3 in (_, t.0, t.1)),
)
