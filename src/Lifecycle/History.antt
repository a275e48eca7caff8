-- ===== src/Lifecycle/History.antt =====
-- The two streams of crates/consolebook-server/src/lifecycle.rs over any sequence of requests.
use consolebook.Base.{
  ℕ, ◌≤◌, ◌≡◌, refl, sym, ap, subst, true, List, [], ◌∷◌, ◌++◌, ◌==◌, All, arith, ok,
}
use consolebook.Db.{Db, EnrollmentEvent, PhaseEvent}
use consolebook.Lifecycle.Phases.Accepted.{Request, serve, new_event, serve-Served}
use consolebook.Lifecycle.Enrollment.Accepted.{
  EventRequest, answer, lifecycle_event, answer-EventServed,
}
use consolebook.Lifecycle.Invariant.{WellFormed}
use consolebook.Lifecycle.Preserve.{serve-WellFormed}
use consolebook.Lifecycle.EventPreserve.{answer-WellFormed}
use consolebook.Lifecycle.View.Append.{effective-bound}

-- The stream, newest first, is in effective order within an enrollment, and no event takes effect after
-- it is recorded.
abbrev pub Chronological : List PhaseEvent → Type 0
Chronological [] = Unit
Chronological (x ∷ xs) =
    (x.effective_at ≤ x.recorded_at)
    × All (λ y. (y.enrollment_id == x.enrollment_id) ≡ true → y.effective_at ≤ x.effective_at) xs
    × Chronological xs

-- One request that is answered, on the state that the one before it left.
pub data Step (db db' : Db) : Type 0 where
  phase : (q : Request) (id : ℕ) → q.db ≡ db → serve q ≡ ok (id, db') → Step db db'
  lifecycle : (q : EventRequest) (id : ℕ) → q.db ≡ db → answer q ≡ ok (id, db') → Step db db'

pub data Reach (start : Db) : Db → Type 0 where
  here : Reach start start
  next : {db db' : Db} → Reach start db → Step db db' → Reach start db'

-- What a later state keeps of an earlier one.
pub record Extends (start db : Db) : Type 0 where
  pub new_phase_events : List PhaseEvent
  pub new_enrollment_events : List EnrollmentEvent
  pub phase_events : db.phase_events ≡ new_phase_events ++ start.phase_events
  pub enrollment_events : db.enrollment_events ≡ new_enrollment_events ++ start.enrollment_events
  pub users : db.users ≡ start.users

serve-Chronological :
    (q : Request) (id : ℕ) (db' : Db)
    → Chronological q.db.phase_events
    → serve q ≡ ok (id, db')
    → Chronological db'.phase_events
unfolding new_event
serve-Chronological q id db' c h =
    let s = serve-Served q id db' h in
    let ev = new_event q s.from s.to in
    rw (s.appended.appended)
      (ground (arith, s.accepted.not_future), effective-bound q.db ev refl s.accepted.in_order, c)

Step-keeps :
    {db db' : Db}
    → Step db db'
    → WellFormed db × Chronological db.phase_events
    → WellFormed db' × Chronological db'.phase_events
Step-keeps {db} {db'} (phase q id e h) (w, c) = (
  serve-WellFormed q id db' (subst WellFormed (sym e) w) h,
  serve-Chronological q id db' (subst (λ d. Chronological d.phase_events) (sym e) c) h,
)
Step-keeps {db} {db'} (lifecycle q id e h) (w, c) =
    let s = answer-EventServed q id db' h in
    (
      answer-WellFormed q id db' (subst WellFormed (sym e) w) h,
      subst (λ d. Chronological d.phase_events) (sym s.appended.appended)
          (subst (λ d. Chronological d.phase_events) (sym e) c),
    )

-- From a well-formed database whose phase events are in effective order, every sequence of answered
-- requests leads to another.
pub Reach-keeps :
    {start db : Db}
    → WellFormed start × Chronological start.phase_events
    → Reach start db
    → WellFormed db × Chronological db.phase_events
Reach-keeps h here = h
Reach-keeps h (next r s) = Step-keeps s (Reach-keeps h r)

Step-Extends : {start db db' : Db} → Extends start db → Step db db' → Extends start db'
Step-Extends {start} {db} {db'} x (phase q id e h) =
    let s = serve-Served q id db' h in
    record {
      new_phase_events = new_event q s.from s.to ∷ x.new_phase_events;
      new_enrollment_events = x.new_enrollment_events;
      phase_events = cc (
        ap (λ (d : Db). d.phase_events) s.appended.appended,
        ap (λ (d : Db). d.phase_events) e,
        x.phase_events,
      );
      enrollment_events = cc (
        ap (λ (d : Db). d.enrollment_events) s.appended.appended,
        ap (λ (d : Db). d.enrollment_events) e,
        x.enrollment_events,
      );
      users =
          cc (ap (λ (d : Db). d.users) s.appended.appended, ap (λ (d : Db). d.users) e, x.users);
    }
Step-Extends {start} {db} {db'} x (lifecycle q id e h) =
    let s = answer-EventServed q id db' h in
    record {
      new_phase_events = x.new_phase_events;
      new_enrollment_events = lifecycle_event q s.from s.to ∷ x.new_enrollment_events;
      phase_events = cc (
        ap (λ (d : Db). d.phase_events) s.appended.appended,
        ap (λ (d : Db). d.phase_events) e,
        x.phase_events,
      );
      enrollment_events = cc (
        ap (λ (d : Db). d.enrollment_events) s.appended.appended,
        ap (λ (d : Db). d.enrollment_events) e,
        x.enrollment_events,
      );
      users =
          cc (ap (λ (d : Db). d.users) s.appended.appended, ap (λ (d : Db). d.users) e, x.users);
    }

-- Over every sequence of answered requests both streams only grow: what was recorded stays, in its order,
-- behind what is new. The users stay.
pub Reach-Extends : {start db : Db} → Reach start db → Extends start db
Reach-Extends here = record {
  new_phase_events = [];
  new_enrollment_events = [];
  phase_events = refl;
  enrollment_events = refl;
  users = refl;
}
Reach-Extends (next r s) = Step-Extends (Reach-Extends r) s
