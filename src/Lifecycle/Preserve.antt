-- ===== src/Lifecycle/Preserve.antt =====
-- `record_phase_event` of crates/consolebook-server/src/lifecycle.rs and the invariant.
use consolebook.Base.{
  ℕ, ◌≤◌, ◌≡◌, sym, ap, subst, true, Option, some, List, [], ◌∷◌, max_of, max?, max_of-select,
  select, arith, ok, eq_of_==,
}
use consolebook.Db.{Db, Enrollment, EnrollmentEvent, AuditEvent, enrollment_of, is_user, version_of}
use consolebook.Lifecycle.Queries.{current_epoch, move_of, change_of}
use consolebook.Lifecycle.Phases.{pins_phase}
use consolebook.Lifecycle.Phases.Accepted.{Request, serve, new_event, Accepted, serve-Served}
use consolebook.Lifecycle.Invariant.{WellFormed, stamp_bound}
use consolebook.Lifecycle.Total.{targets-pins, current_phase-pins}

bound_of_max :
    (xs : List EnrollmentEvent) → stamp_bound (max? (λ r. r.id) xs) ≤ max_of (λ r. r.id) xs
unfolding max?
bound_of_max [] = omega arith
bound_of_max (x ∷ xs) = omega arith

pub epoch-bound :
    (events : List EnrollmentEvent) (e : ℕ)
    → stamp_bound (current_epoch events e) ≤ max_of (λ r. r.id) events
unfolding current_epoch
epoch-bound events e = omega (
  arith,
  bound_of_max (select (change_of e) events),
  max_of-select (λ r. r.id) (change_of e) events,
)

module _ (q : Request) (row : Enrollment) (from to : Option ℕ) (w : WellFormed q.db)
    (a : Accepted q row from to) (audit : AuditEvent) where
  abbrev after : Db
  after = record q.db {
    phase_events = new_event q from to ∷ q.db.phase_events;
    audit_events = audit ∷ q.db.audit_events;
  }

  new_event-pins :
      (e : ℕ) (other : Enrollment)
      → enrollment_of q.db e ≡ some other
      → move_of (current_epoch q.db.enrollment_events e) q.db.phases e (new_event q from to) ≡ true
      → pins_phase q.db.phases other.program_version_id to ≡ true
  unfolding move_of new_event
  new_event-pins e other found m =
      let (_, _, entered) =
        targets-pins q.db row.program_version_id q.kind q.to_phase _ _ from to w
          (λ id name c. current_phase-pins q.db q.e row id name w a.enrolled c) a.targeted in
      let same : q.e ≡ e = eq_of_== q.e e (ground arith) in
      let rows : row ≡ other = cc (a.enrolled, found, ap (enrollment_of q.db) same) in
      subst (λ r. pins_phase q.db.phases r.program_version_id to ≡ true) rows entered

  after-WellFormed : WellFormed after
  unfolding enrollment_of is_user version_of new_event
  after-WellFormed = record {
    phase_ids = w.phase_ids;
    enrollment_ids = w.enrollment_ids;
    trainees = w.trainees;
    pins = w.pins;
    stamps = (epoch-bound q.db.enrollment_events q.e, w.stamps);
    epoch_pinned = λ e other found. (new_event-pins e other found, w.epoch_pinned e other found);
  }

-- Recording a phase event keeps the tables well formed.
pub serve-WellFormed :
    (q : Request) (id : ℕ) (db' : Db) → WellFormed q.db → serve q ≡ ok (id, db') → WellFormed db'
serve-WellFormed q id db' w h =
    let s = serve-Served q id db' h in
    subst WellFormed (sym s.appended.appended)
      (after-WellFormed q s.row s.from s.to w s.accepted s.appended.audit)
