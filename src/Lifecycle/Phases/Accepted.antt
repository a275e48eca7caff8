-- ===== src/Lifecycle/Phases/Accepted.antt =====
-- When `record_phase_event` of crates/consolebook-server/src/lifecycle.rs appends, and what.
use consolebook.Base.{
  ℕ, ◌≡◌, true, false, Option, some, ◌∷◌, ◌&&◌, Text, trim, ltb, is_empty, next_id, Outcome, ok,
  arith, sym, ◌∙◌, >>=-eq-ok, Option-cases, Outcome-cases, inl, inr, ◌>>=◌,
}
use consolebook.Capability.{user_has}
use consolebook.Capability.Vocabulary.{assign_training}
use consolebook.Audit.{record_for_subject}
use consolebook.Audit.Effects.{record_for_subject-Audited}
use consolebook.Audit.Vocabulary.{phase_event_recorded}
use consolebook.Audit.Subjects.{Subject}
use consolebook.Db.{Db, Enrollment, PhaseEvent, PhaseEventKind, AuditEvent, active, enrollment_of}
use consolebook.Lifecycle.Queries.{
  LifecycleRefusal, status, current_phase, current_epoch, is_paused,
}
use consolebook.Lifecycle.Phases.{
  needs_reason, or_now, precedes, latest_effective, epoch_opened, phase_targets, insert_phase_event,
  record_phase_event,
}

-- A request to record a phase event, on the state that the authorization read (`seen`) and the
-- state of the write transaction (`db`).
pub record Request : Type 0 where
  pub seen : Db
  pub db : Db
  pub now : ℕ
  pub actor : ℕ
  pub e : ℕ
  pub kind : PhaseEventKind
  pub to_phase : Option ℕ
  pub effective_at : Option ℕ
  pub reason : Text

abbrev pub serve : Request → Outcome LifecycleRefusal (ℕ × Db)
serve q = record_phase_event q.seen q.db q.now q.actor q.e q.kind q.to_phase q.effective_at q.reason

-- The row that is written.
unfoldable pub new_event : Request → Option ℕ → Option ℕ → PhaseEvent
new_event q from to = record {
  id = next_id (λ ev. ev.id) q.db.phase_events;
  enrollment_id = q.e;
  kind = q.kind;
  from_phase_id = from;
  to_phase_id = to;
  effective_at = or_now q.effective_at q.now;
  recorded_at = q.now;
  actor_user_id = some q.actor;
  reason = trim q.reason;
  version_change_event_id = current_epoch q.db.enrollment_events q.e;
}

-- The conditions under which the service accepts the request.
pub record Accepted (q : Request) (row : Enrollment) (from to : Option ℕ) : Type 0 where
  pub authorized : user_has q.seen q.actor assign_training ≡ true
  pub explained : (needs_reason q.kind && is_empty (trim q.reason)) ≡ false
  pub not_future : ltb q.now (or_now q.effective_at q.now) ≡ false
  pub is_active : status q.db q.e ≡ some active
  pub in_order : precedes (or_now q.effective_at q.now) (latest_effective q.db q.e) ≡ false
  pub in_epoch : precedes (or_now q.effective_at q.now) (epoch_opened q.db q.e) ≡ false
  pub enrolled : enrollment_of q.db q.e ≡ some row
  pub targeted :
      phase_targets q.db row.program_version_id q.kind q.to_phase
        (current_phase q.db q.e)
        (is_paused q.db q.e)
      ≡ ok (from, to)

-- The database afterwards: the new phase event first, and one more audit event.
pub record Appended (q : Request) (from to : Option ℕ) (db' : Db) : Type 0 where
  pub audit : AuditEvent
  pub appended : db' ≡ record q.db {
    phase_events = new_event q from to ∷ q.db.phase_events;
    audit_events = audit ∷ q.db.audit_events;
  }

-- What an accepted request writes.
pub serve-writes :
    (q : Request) (row : Enrollment) (from to : Option ℕ)
    → Accepted q row from to
    → serve q ≡ (do
      db₁ ← insert_phase_event q.db (new_event q from to)
      db₂ ←
          record_for_subject phase_event_recorded
            (some q.actor)
            (some row.user_id)
            (Subject.enrollment q.e)
            q.now
            db₁
      ok ((new_event q from to).id, db₂))
unfolding record_phase_event new_event
serve-writes q row from to a = ground arith

pub insert-appends :
    {E : Type 0} (db : Db) (ev : PhaseEvent) (db' : Db)
    → insert_phase_event {E = E} db ev ≡ ok db'
    → db' ≡ record db { phase_events = ev ∷ db.phase_events }
unfolding insert_phase_event
insert-appends db ev db' h = ground arith

serve-Accepted :
    (q : Request) (row : Enrollment) (targets : Option ℕ × Option ℕ) {id : ℕ} {db' : Db}
    → enrollment_of q.db q.e ≡ some row
    → phase_targets q.db row.program_version_id q.kind q.to_phase
        (current_phase q.db q.e)
        (is_paused q.db q.e)
      ≡ ok targets
    → serve q ≡ ok (id, db')
    → Accepted q row targets.0 targets.1
unfolding record_phase_event
serve-Accepted q row targets found aimed h = record {
  authorized = ground arith;
  explained = ground arith;
  not_future = ground arith;
  is_active = ground arith;
  in_order = ground arith;
  in_epoch = ground arith;
  enrolled = found;
  targeted = aimed;
}

-- The answer of an accepted request: the identifier and the database.
pub record Served (q : Request) (id : ℕ) (db' : Db) : Type 0 where
  pub row : Enrollment
  pub from : Option ℕ
  pub to : Option ℕ
  pub accepted : Accepted q row from to
  pub appended : Appended q from to db'
  pub identified : id ≡ (new_event q from to).id

finish-Served :
    (q : Request) (row : Enrollment) (from to : Option ℕ) (id : ℕ) (db₁ db₂ db' : Db)
    → Accepted q row from to
    → insert_phase_event {E = LifecycleRefusal} q.db (new_event q from to) ≡ ok db₁
    → record_for_subject {E = LifecycleRefusal} phase_event_recorded
        (some q.actor)
        (some row.user_id)
        (Subject.enrollment q.e)
        q.now
        db₁
      ≡ ok db₂
    → ◌≡◌ {A = Outcome LifecycleRefusal (ℕ × Db)}
        (ok ((new_event q from to).id, db₂))
        (ok (id, db'))
    → Served q id db'
finish-Served q row from to id db₁ db₂ db' a i r e =
    let one = insert-appends q.db (new_event q from to) db₁ i in
    let two = record_for_subject-Audited _ _ _ _ _ db₁ db₂ r in
    record {
      row = row;
      from = from;
      to = to;
      accepted = a;
      appended = record { audit = two.audit; appended = cc (two.appended, one) };
      identified = cc;
    }

-- A phase request that is answered was acceptable, and adds the event that the request describes, stamped
-- with the current epoch, and an audit event, and changes nothing else.
pub serve-Served : (q : Request) (id : ℕ) (db' : Db) → serve q ≡ ok (id, db') → Served q id db'
unfolding record_phase_event
serve-Served q id db' h = elim (Option-cases (enrollment_of q.db q.e)) [
  | inl e ↦ absurd (ground arith)
  | inr (row, e) ↦
      elim (Outcome-cases (
        phase_targets q.db row.program_version_id q.kind q.to_phase (current_phase q.db q.e)
          (is_paused q.db q.e))) [
            | inl (targets, t) ↦
                let a = serve-Accepted q row targets e t h in
                let (db₁, i, h₁) =
                  >>=-eq-ok _ _ (sym (serve-writes q row targets.0 targets.1 a) ∙ h) in
                let (db₂, r, h₂) = >>=-eq-ok _ _ h₁ in
                finish-Served q row targets.0 targets.1 id db₁ db₂ db' a i r h₂
            | inr (inl t) ↦ absurd (ground arith)
            | inr (inr (x, t)) ↦ absurd (ground arith)
          ]
]
